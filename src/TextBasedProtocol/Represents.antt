-- ===== src/TextBasedProtocol/Represents.antt =====
-- A message that shows entries, cut at one of its fields.
use mathlib.Core.Path.{subst}
use mathlib.Core.List.{append_assoc}
use pcap_plus_plus.Prelude.{
  ℕ, ◌+◌, ◌≡◌, refl, ap, ◌∙◌, none, some, List, ◌∷◌, ◌++◌, arith, length, length-append,
}
use pcap_plus_plus.TextBasedProtocol.Layers.{LayerOps, LayerLaws}
use pcap_plus_plus.TextBasedProtocol.Field.{HeaderField, field_name, field_value}
use pcap_plus_plus.TextBasedProtocol.Message.{Fields, TextMessage, last_of}
use pcap_plus_plus.TextBasedProtocol.Entries.{
  Entry, text, texts, FieldFits, FieldsFit, field_name-FieldFits, field_value-FieldFits,
}
use pcap_plus_plus.TextBasedProtocol.Shift.{texts-append, FieldsFit-subst, FieldsFit-cut}

regroup : (a b c d e : List ℕ) → a ++ ((b ++ (c ++ d)) ++ e) ≡ ((a ++ b) ++ c) ++ (d ++ e)
regroup a b c d e =
    rw
      (
        append_assoc b (c ++ d) e,
        append_assoc c d e,
        append_assoc (a ++ b) c (d ++ e),
        append_assoc a b (c ++ (d ++ e)),
      )
      refl

-- The bytes cut behind an entry.
pub bytes_cut :
    (first body : List ℕ) (xs ys : List Entry) (y : Entry)
    → first ++ (texts (xs ++ y ∷ ys) ++ body)
      ≡ ((first ++ texts xs) ++ text y) ++ (texts ys ++ body)
bytes_cut first body xs ys y =
    ap (λ t. first ++ (t ++ body)) (texts-append xs (y ∷ ys))
    ∙ regroup first (texts xs) (text y) (texts ys) body

module _ {S : Type 0} (ops : LayerOps S) (laws : LayerLaws ops) where
  -- The message's bytes are the first line, the entries, of which the fields are, and the body.
  pub record Represents (m : TextMessage S) (first : List ℕ) (es : List Entry) (body : List ℕ)
      : Type 0 where
    pub in_order : laws.Good m.layer
    pub bytes : ops.data_of m.layer ≡ first ++ (texts es ++ body)
    pub fields : FieldsFit (length first) es m.field_list
    pub begin_at : m.fields_offset ≡ length first
    pub last_is : m.last_field ≡ last_of none m.field_list

  module _ (m : TextMessage S) (first body : List ℕ) (xs ys : List Entry) (y : Entry)
      (ps gs : Fields) (q : ℕ) (f : HeaderField) (r : Represents m first (xs ++ y ∷ ys) body)
      (there : m.field_list ≡ ps ++ (q, f) ∷ gs) (place : length xs ≡ length ps) where
    abbrev pub before : List ℕ
    before = first ++ texts xs

    pub split_bytes : ops.data_of m.layer ≡ (before ++ text y) ++ (texts ys ++ body)
    split_bytes = r.bytes ∙ bytes_cut first body xs ys y

    pub fields_there :
        FieldsFit (length first) xs ps
        × FieldFits (length before) y f
        × FieldsFit (length before + length (text y)) ys gs
    fields_there =
        let fits = subst (λ fs. FieldsFit (length first) (xs ++ y ∷ ys) fs) there r.fields in
        let (front, back) = FieldsFit-cut (length first) xs (y ∷ ys) ps ((q, f) ∷ gs) place fits in
        let at : length first + length (texts xs) ≡ length before =
          omega (arith, length-append first (texts xs)) in
        let (this, behind) = FieldsFit-subst _ _ (y ∷ ys) ((q, f) ∷ gs) at back in
        (front, this, behind)

    pub name_there : field_name (ops.data_of m.layer) f ≡ some y.name
    name_there =
        let (front, this, back) = fields_there in
        field_name-FieldFits (ops.data_of m.layer) before y (texts ys ++ body) f
          (split_bytes ∙ append_assoc before (text y) (texts ys ++ body)) this

    pub value_there : field_value (ops.data_of m.layer) f ≡ some y.value
    value_there =
        let (front, this, back) = fields_there in
        field_value-FieldFits (ops.data_of m.layer) before y (texts ys ++ body) f
          (split_bytes ∙ append_assoc before (text y) (texts ys ++ body)) this
