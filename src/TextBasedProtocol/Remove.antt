-- ===== src/TextBasedProtocol/Remove.antt =====
-- removeField takes a field out of a message.
use mathlib.Core.Path.{subst}
use mathlib.Core.List.{append_assoc}
use pcap_plus_plus.Prelude.{
  ℕ, ◌+◌, ◌-◌, ◌<◌, ◌≡◌, refl, sym, ap, ◌∙◌, true, none, some, List, ◌∷◌, ◌++◌, arith, length,
  length-append,
}
use pcap_plus_plus.TextBasedProtocol.Layers.{LayerOps, LayerLaws}
use pcap_plus_plus.TextBasedProtocol.Field.{HeaderField, field_name}
use pcap_plus_plus.TextBasedProtocol.Message.{Fields, TextMessage, field_at, unlink_field, last_of}
use pcap_plus_plus.TextBasedProtocol.Message.Edit.{unlink, remove_field}
use pcap_plus_plus.TextBasedProtocol.Entries.{Entry, text, texts, FieldsFit}
use pcap_plus_plus.TextBasedProtocol.Represents.{Represents, fields_there, name_there, split_bytes}
use pcap_plus_plus.TextBasedProtocol.Shift.{
  texts-append, FieldsFit-subst, FieldsFit-shift, FieldsFit-append, Without, field_at-there,
  unlink_field-there, last_unlinked,
}

regroup : (a b c d : List ℕ) → (a ++ b) ++ (c ++ d) ≡ a ++ ((b ++ c) ++ d)
regroup a b c d = rw (append_assoc a b (c ++ d), append_assoc b c d) refl

module _ {S : Type 0} (ops : LayerOps S) (laws : LayerLaws ops) (to_lower : ℕ → ℕ) where
  remove_steps :
      (m : TextMessage S) (q : ℕ) (f : HeaderField) (name : List ℕ) (s : S)
      → field_at q m.field_list ≡ some f
      → field_name (ops.data_of m.layer) f ≡ some name
      → ops.shorten m.layer f.name_offset_in_message f.field_size ≡ some (s, true)
      → remove_field ops to_lower m (some q)
        ≡ some (unlink ops to_lower (record m { layer = s }) q f name, true)
  unfolding remove_field
  remove_steps m q f name s listed named shortened =
      rw (remove_field, listed, named, shortened) refl

  -- Where the layer's operations obey LayerLaws, as those of a layer in no packet do: removeField of
  -- a field whose text is not empty, where the bytes are fewer than 2^64: it succeeds, and the message
  -- then shows the entries it had without that field's.
  pub remove_field-Represents :
      (m : TextMessage S) (first body : List ℕ) (xs ys : List Entry) (y : Entry) (ps gs : Fields)
      (q : ℕ) (f : HeaderField)
      → Represents ops laws m first (xs ++ y ∷ ys) body
      → m.field_list ≡ ps ++ (q, f) ∷ gs
      → length xs ≡ length ps
      → Without q ps
      → 0 < length (text y)
      → length (ops.data_of m.layer) < 0x1_0000_0000_0000_0000
      → (m' : TextMessage S) × (remove_field ops to_lower m (some q) ≡ some (m', true))
        × Represents ops laws m' first (xs ++ ys) body
  unfolding unlink
  remove_field-Represents m first body xs ys y ps gs q f r there place alone filled small =
      let before = first ++ texts xs in
      let n = length (text y) in
      let cut =
        split_bytes ops laws m first body xs ys y ps gs q f r there place
        ∙ append_assoc before (text y) (texts ys ++ body) in
      let (low, this, high) = fields_there ops laws m first body xs ys y ps gs q f r there place in
      let name = name_there ops laws m first body xs ys y ps gs q f r there place in
      let (s, shortened, good, shorter) =
        laws.shortens m.layer before (text y) (texts ys ++ body) r.in_order cut filled
          (omega (arith, ap length cut)) in
      let asked : ops.shorten m.layer f.name_offset_in_message f.field_size ≡ some (s, true) =
        ap (λ i. ops.shorten m.layer i f.field_size) this.at_name
        ∙ ap (ops.shorten m.layer (length before)) this.size
        ∙ shortened in
      let listed = ap (field_at q) there ∙ field_at-there q f gs ps alone in
      let unlinked =
        ap (unlink_field (λ k. k - f.field_size) q) there
        ∙ unlink_field-there q f gs (λ k. k - f.field_size) ps alone in
      let moved =
        FieldsFit-shift (length before + n) (length before) (λ k. k - f.field_size) ys gs
          (λ k. omega (arith, this.size)) high in
      let joined =
        FieldsFit-append (length first) xs ys ps _ low
          (FieldsFit-subst _ _ ys _ (omega (arith, length-append first (texts xs))) moved) in
      (
        unlink ops to_lower (record m { layer = s }) q f y.name,
        remove_steps m q f y.name s listed name asked,
        record {
          in_order = good;
          bytes =
              shorter
              ∙ regroup first (texts xs) (texts ys) body
              ∙ ap (λ t. first ++ (t ++ body)) (sym (texts-append xs ys));
          fields = subst (FieldsFit (length first) (xs ++ ys)) (sym unlinked) joined;
          begin_at = r.begin_at;
          last_is =
              last_unlinked m.last_field q f _ ps gs _ (r.last_is ∙ ap (last_of none) there)
                unlinked;
        },
      )
