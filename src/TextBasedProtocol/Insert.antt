-- ===== src/TextBasedProtocol/Insert.antt =====
-- insertField puts a new field between the fields of a message.
use mathlib.Core.Path.{subst}
use mathlib.Core.List.{append_assoc, map}
use pcap_plus_plus.Prelude.{
  ℕ, suc, ◌+◌, ◌≤◌, ◌<◌, ◌≡◌, ◌≢◌, refl, sym, ap, ◌∙◌, Bool, true, false, Option, none, some, List,
  [], ◌∷◌, ◌++◌, arith, ltb, length, take, length-append,
}
use pcap_plus_plus.RawPacket.Buffers.{take_all}
use pcap_plus_plus.TextBasedProtocol.Layers.{LayerOps, LayerLaws}
use pcap_plus_plus.TextBasedProtocol.Field.{
  HeaderField, max_size, init_new_field, field_name, copy_field, attach,
}
use pcap_plus_plus.TextBasedProtocol.Message.{
  Fields, TextMessage, offsets_fit, same_name, field_at, shift_fields_offset, first_of, next_of,
  link_field, last_of,
}
use pcap_plus_plus.TextBasedProtocol.Message.Edit.{
  link_copy, insert_copy, insert_offset, insert_field, insert_new_field,
}
use pcap_plus_plus.TextBasedProtocol.Entries.{
  Entry, text, texts, new_entry, FieldFits, FieldsFit, field_name-FieldFits,
  copy_field-init_new_field, attach-FieldFits, init_new_field-text, new_entry-name, length-text,
}
use pcap_plus_plus.TextBasedProtocol.Represents.{
  Represents, bytes_cut, fields_there, name_there, split_bytes,
}
use pcap_plus_plus.TextBasedProtocol.Shift.{
  FieldsFit-subst, offsets_fit-FieldsFit, FieldsFit-shift, FieldsFit-append, Without,
  field_at-there, next_of-there, link_field-there, last_linked,
}

-- The text of a new entry is as long as its name and value at least.
new_entry-short :
    (name value : List ℕ) (separator : ℕ) (spaces : Bool)
    → (name ≡ [] → value ≡ [])
    → length (text (new_entry name value separator spaces)) ≤ max_size
    → length name + length value ≤ max_size
new_entry-short [] value separator spaces proper small =
    let none_there : length value ≡ 0 = ap length (proper refl) in omega (arith, none_there)
new_entry-short (c ∷ cs) value separator spaces proper small =
    omega (arith, small, length-text (new_entry (c ∷ cs) value separator spaces))

same_name-nil : (xs : List ℕ) → xs ≢ [] → same_name xs [] ≡ false
unfolding same_name
same_name-nil [] h = absurd (h refl)
same_name-nil (x ∷ xs) h = refl

module _ {S : Type 0} (ops : LayerOps S) (laws : LayerLaws ops) (to_lower : ℕ → ℕ) where
  copy_steps :
      (m : TextMessage S) (prev_field : Option ℕ) (offset : ℕ) (copy : HeaderField)
      (layer layer' : S)
      → ops.extend m.layer offset copy.field_size ≡ some (layer, true)
      → ops.write layer offset (take copy.field_size copy.new_field_data) ≡ some layer'
      → insert_copy ops to_lower m prev_field offset copy
        ≡ link_copy ops to_lower (record m { layer = layer' }) prev_field (attach copy offset)
  unfolding insert_copy
  copy_steps m prev_field offset copy layer layer' e w = rw (insert_copy, e, w) refl

  insert_steps :
      (m : TextMessage S) (prev_field : Option ℕ) (name value : List ℕ) (separator : ℕ)
      (spaces : Bool) (offset : ℕ)
      → insert_offset ops to_lower m prev_field ≡ some (true, offset)
      → copy_field [] (init_new_field name value separator spaces)
        ≡ some (init_new_field name value separator spaces)
      → insert_new_field ops to_lower m prev_field name value separator spaces
        ≡ insert_copy ops to_lower m prev_field offset (init_new_field name value separator spaces)
  unfolding insert_new_field insert_field init_new_field
  insert_steps m prev_field name value separator spaces offset e c = rw (e, c) refl

  -- The bytes of the new field are in the layer.
  layer_with :
      (s : S) (a b xs : List ℕ)
      → laws.Good s
      → ops.data_of s ≡ a ++ b
      → length (a ++ b) + length xs < 0x1_0000_0000_0000_0000
      → (s' s'' : S) × (ops.extend s (length a) (length xs) ≡ some (s', true))
        × (ops.write s' (length a) xs ≡ some s'')
        × laws.Good s''
        × (ops.data_of s'' ≡ a ++ (xs ++ b))
  layer_with s a b xs good e small =
      let (s', gap, done, good', e', n) = laws.extends s a b (length xs) good e small in
      let (s'', wrote, good'', e'') = laws.writes s' a gap b xs good' e' (sym n) in
      (s', s'', done, wrote, good'', e'')

  module _ (m : TextMessage S) (first : List ℕ) (body name value : List ℕ) (separator : ℕ)
      (spaces : Bool) (proper : name ≡ [] → value ≡ []) where
    abbrev pub added : Entry
    added = new_entry name value separator spaces

    abbrev new_field : HeaderField
    new_field = init_new_field name value separator spaces

    -- The field is written at the end of a, and goes into the links.
    insert_lem :
        (prev_field : Option ℕ) (a b : List ℕ)
        → laws.Good m.layer
        → ops.data_of m.layer ≡ a ++ b
        → length (a ++ b) + length (text added) < 0x8000_0000
        → insert_offset ops to_lower m prev_field ≡ some (true, length a)
        → (s : S) × (insert_new_field ops to_lower m prev_field name value separator spaces
            ≡ link_copy ops to_lower
                (record m { layer = s })
                prev_field
                (attach new_field (length a)))
          × laws.Good s
          × (ops.data_of s ≡ a ++ (text added ++ b))
          × FieldFits (length a) added (attach new_field (length a))
          × (field_name (ops.data_of s) (attach new_field (length a)) ≡ some name)
    insert_lem prev_field a b good e small here =
        let same = init_new_field-text name value separator spaces in
        let named = new_entry-name name value separator spaces in
        let short =
          new_entry-short name value separator spaces proper
            (omega (arith, length-append a b, small)) in
        let (s', s, done, wrote, good', e') =
          layer_with m.layer a b (text added) good e (omega arith) in
        let written : take new_field.field_size new_field.new_field_data ≡ text added =
          ap (λ n. take n new_field.new_field_data) (same.1 ∙ ap length (sym same.0))
          ∙ take_all new_field.new_field_data
          ∙ same.0 in
        let copied = copy_field-init_new_field name value separator spaces proper short in
        let fits = attach-FieldFits name value separator spaces (length a) proper short in
        (
          s,
          insert_steps m prev_field name value separator spaces (length a) here copied
              ∙ copy_steps m prev_field (length a) new_field s' s
                  (ap (ops.extend m.layer (length a)) same.1 ∙ done)
                  (ap (ops.write s' (length a)) written ∙ wrote),
          good',
          e',
          fits,
          field_name-FieldFits (ops.data_of s) a added b (attach new_field (length a)) e' fits
              ∙ ap some named,
        )

    -- The links with the new field behind the field q.
    module _ (xs ys : List Entry) (y : Entry) (ps gs : Fields) (q : ℕ) (f : HeaderField)
        (r : Represents ops laws m first (xs ++ y ∷ ys) body)
        (there : m.field_list ≡ ps ++ (q, f) ∷ gs) (place : length xs ≡ length ps)
        (alone : Without q ps) where
      abbrev front : List ℕ
      front = (first ++ texts xs) ++ text y

      offset_there :
          y.name ≢ []
          → length front < 0x8000_0000
          → insert_offset ops to_lower m (some q) ≡ some (true, length front)
      unfolding insert_offset
      offset_there named small =
          let (low, this, high) =
            fields_there ops laws m first body xs ys y ps gs q f r there place in
          let name = name_there ops laws m first body xs ys y ps gs q f r there place in
          let at : f.name_offset_in_message + f.field_size ≡ length front =
            omega (arith, this.at_name, this.size, length-append (first ++ texts xs) (text y)) in
          let listed = ap (field_at q) there ∙ field_at-there q f gs ps alone in
          let inside : ltb (length front) 0x8000_0000 ≡ true = ground arith in
          rw (listed, insert_offset, name, same_name-nil y.name named, at, inside) refl

      link_there :
          (s : S) (g : HeaderField)
          → field_name (ops.data_of s) g ≡ some name
          → g.field_size ≡ length (text added)
          → offsets_fit (
              ps
              ++ ((q, f)
                  ∷ (m.next_address, g)
                  ∷ shift_fields_offset (λ k. k + length (text added)) gs))
            ≡ true
          → (m' : TextMessage S) × (link_copy ops to_lower (record m { layer = s }) (some q) g
              ≡ some (m', some m.next_address))
            × (m'.field_list
                ≡ ps
                  ++ ((q, f)
                      ∷ (m.next_address, g)
                      ∷ shift_fields_offset (λ k. k + length (text added)) gs))
            × (m'.last_field ≡ last_of none m'.field_list)
            × (m'.layer ≡ s)
            × (m'.fields_offset ≡ m.fields_offset)
      unfolding link_copy
      link_there s g named size fit =
          let new = m.next_address in
          let listed = ap (next_of q) there ∙ next_of-there q f gs ps alone in
          let last : Option ℕ = elim (first_of gs) [ none ↦ some new | some a ↦ m.last_field ] in
          let linked =
            ap (link_field (λ k. k + g.field_size) q (new, g)) there
            ∙ link_field-there q f gs (λ k. k + g.field_size) (new, g) ps alone
            ∙ ap (λ n. ps ++ ((q, f) ∷ (new, g) ∷ shift_fields_offset (λ k. k + n) gs)) size in
          (
            record m {
              layer = s;
              field_list =
                  ps ++ ((q, f) ∷ (new, g) ∷ shift_fields_offset (λ k. k + length (text added)) gs);
              last_field = last;
              field_names = m.field_names ++ (map to_lower name, new) ∷ [];
              next_address = suc new;
            },
            rw (named, link_copy, listed, linked, fit) refl,
            refl,
            last_linked m.last_field new q f g _ ps gs (r.last_is ∙ ap (last_of none) there),
            refl,
            refl,
          )

      -- The new field is told where it goes.
      fields_linked :
          (g : HeaderField)
          → FieldFits (length front) added g
          → FieldsFit (length first) (xs ++ y ∷ added ∷ ys) (
              ps
              ++ ((q, f)
                  ∷ (m.next_address, g)
                  ∷ shift_fields_offset (λ k. k + length (text added)) gs))
      fields_linked g fits =
          let (low, this, high) =
            fields_there ops laws m first body xs ys y ps gs q f r there place in
          let n = length (text added) in
          let len = length-append (first ++ texts xs) (text y) in
          let behind = FieldsFit-subst _ (length front) ys gs (omega (arith, len)) high in
          let moved =
            FieldsFit-shift (length front) (length front + n) (λ k. k + n) ys gs (λ k. omega arith)
              behind in
          let tail =
            FieldsFit-subst (length front) (length (first ++ texts xs) + length (text y))
              (added ∷ ys) ((m.next_address, g) ∷ _) (omega (arith, len)) (fits, moved) in
          FieldsFit-append (length first) xs (y ∷ added ∷ ys) ps _ low (
            FieldsFit-subst _ _ (y ∷ added ∷ ys) ((q, f) ∷ (m.next_address, g) ∷ _)
              (omega (arith, length-append first (texts xs))) (this, tail))

      bytes_linked :
          (front ++ (text added ++ (texts ys ++ body)))
          ≡ first ++ (texts (xs ++ y ∷ added ∷ ys) ++ body)
      bytes_linked =
          ap (λ x. front ++ x) (sym (append_assoc (text added) (texts ys) body))
          ∙ sym (bytes_cut first body xs (added ∷ ys) y)

  -- Where the layer's operations obey LayerLaws, as those of a layer in no packet do: insertField of
  -- a new field with a name and a value, or of the end of the header, behind a field with a name,
  -- where the bytes stay fewer than 2^31: it succeeds, and the message then shows the entries it had,
  -- with the new one behind that field's.
  pub insert_new_field-Represents :
      (m : TextMessage S) (first body name value : List ℕ) (separator : ℕ) (spaces : Bool)
      (xs ys : List Entry) (y : Entry) (ps gs : Fields) (q : ℕ) (f : HeaderField)
      → (name ≡ [] → value ≡ [])
      → Represents ops laws m first (xs ++ y ∷ ys) body
      → m.field_list ≡ ps ++ (q, f) ∷ gs
      → length xs ≡ length ps
      → Without q ps
      → y.name ≢ []
      → let new = new_entry name value separator spaces in
        length (ops.data_of m.layer) + length (text new) < 0x8000_0000
        → (m' : TextMessage S) × (insert_new_field ops to_lower m
              (some q)
              name
              value
              separator
              spaces
            ≡ some (m', some m.next_address))
          × Represents ops laws m' first (xs ++ y ∷ new ∷ ys) body
  insert_new_field-Represents m first body name value separator spaces xs ys y ps gs q f proper r
        there place alone named small =
      let front = (first ++ texts xs) ++ text y in
      let cut = split_bytes ops laws m first body xs ys y ps gs q f r there place in
      let here =
        offset_there m first body name value separator spaces proper xs ys y ps gs q f r there place
          alone named
          (omega (arith, small, ap length cut, length-append front (texts ys ++ body))) in
      let (s, inserted, good, written, fits, name_is) =
        insert_lem m first body name value separator spaces proper (some q) front (texts ys ++ body)
          r.in_order cut (omega (arith, ap length cut)) here in
      let g = attach (init_new_field name value separator spaces) (length front) in
      let new = new_entry name value separator spaces in
      let shown =
        bytes_linked m first body name value separator spaces proper xs ys y ps gs q f r there place
          alone in
      let fields =
        fields_linked m first body name value separator spaces proper xs ys y ps gs q f r there
          place alone g fits in
      let fit = offsets_fit-FieldsFit (length first) (xs ++ y ∷ new ∷ ys) _ fields (
        omega (
          arith,
          small,
          ap length cut,
          ap length shown,
          length-append front (text new ++ (texts ys ++ body)),
          length-append (text new) (texts ys ++ body),
          length-append front (texts ys ++ body),
          length-append first (texts (xs ++ y ∷ new ∷ ys) ++ body),
          length-append (texts (xs ++ y ∷ new ∷ ys)) body,
        )) in
      let (m', linked, list, last, layer, begin) =
        link_there m first body name value separator spaces proper xs ys y ps gs q f r there place
          alone s g name_is fits.size fit in
      (
        m',
        inserted ∙ linked,
        record {
          in_order = subst laws.Good (sym layer) good;
          bytes = ap ops.data_of layer ∙ written ∙ shown;
          fields = subst (FieldsFit (length first) _) (sym list) fields;
          begin_at = begin ∙ r.begin_at;
          last_is = last;
        },
      )
