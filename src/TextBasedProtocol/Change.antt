-- ===== src/TextBasedProtocol/Change.antt =====
-- setFieldValue changes one value of a message.
use mathlib.Core.Path.{subst}
use mathlib.Core.List.{append_assoc}
use pcap_plus_plus.Prelude.{
  ℕ, ◌+◌, ◌-◌, ◌≤◌, ◌<◌, ◌≡◌, refl, sym, ap, ◌∙◌, inl, inr, true, false, Option, none, some, List,
  ◌∷◌, ◌++◌, arith, ltb, length, length-append, Bool-cases, ltb→lt,
}
use pcap_plus_plus.Prelude.Map.{some_inj}
use pcap_plus_plus.RawPacket.Buffers.{cut}
use pcap_plus_plus.TextBasedProtocol.Layers.{LayerOps, LayerLaws}
use pcap_plus_plus.TextBasedProtocol.Field.{HeaderField, max_size, field_value}
use pcap_plus_plus.TextBasedProtocol.Message.{Fields, TextMessage, offsets_fit, field_at, last_of}
use pcap_plus_plus.TextBasedProtocol.Message.Values.{
  resize_value, change_field, difference_fits, write_value, set_field_value,
}
use pcap_plus_plus.TextBasedProtocol.Entries.{Entry, text, texts, FieldFits, FieldsFit, length-text}
use pcap_plus_plus.TextBasedProtocol.Represents.{
  Represents, bytes_cut, fields_there, value_there, split_bytes,
}
use pcap_plus_plus.TextBasedProtocol.Shift.{
  FieldsFit-subst, offsets_fit-FieldsFit, FieldsFit-shift, FieldsFit-append, Without,
  field_at-there, change_field-there, last_changed,
}

not_less : (a b : ℕ) → ltb a b ≡ false → ltb b a ≡ false → b ≡ a
not_less a b h k = ground arith

value_cut :
    (a : List ℕ) (e : Entry) (rest : List ℕ)
    → (a ++ text e) ++ rest ≡ (a ++ (e.name ++ e.between)) ++ (e.value ++ (e.behind ++ rest))
value_cut a e rest =
    let tail = e.value ++ e.behind in
    let nm = e.name ++ e.between in
    ap (λ x. (a ++ x) ++ rest) (sym (append_assoc e.name e.between tail))
    ∙ ap (λ x. x ++ rest) (sym (append_assoc a nm tail))
    ∙ append_assoc (a ++ nm) tail rest
    ∙ ap (λ x. (a ++ nm) ++ x) (append_assoc e.value e.behind rest)

abbrev changed_field : HeaderField → ℕ → ℕ → HeaderField
changed_field f old new = record f {
  field_value_size = f.field_value_size + new - old;
  field_size = f.field_size + new - old;
}

value_place :
    (before : List ℕ) (y : Entry) (f : HeaderField) (at : ℕ)
    → FieldFits (length before) y f
    → f.value_offset_in_message ≡ some at
    → (at ≡ length (before ++ (y.name ++ y.between))) × (f.field_value_size ≡ length y.value)
value_place before y f at fits start =
    let len = length-append before (y.name ++ y.between) in
    let len' = length-append y.name y.between in
    elim fits.value_fits [
      | inl (o, n) ↦ (omega (arith, some_inj (sym start ∙ o), len, len'), n)
      | inr (o, nil) ↦ cc
    ]

changed_fits :
    (before : List ℕ) (y : Entry) (f : HeaderField) (new : List ℕ) (at : ℕ)
    → FieldFits (length before) y f
    → f.value_offset_in_message ≡ some at
    → length y.name + length new ≤ max_size
    → FieldFits
        (length before)
        (record y { value = new })
        (changed_field f (length y.value) (length new))
changed_fits before y f new at fits start small =
    let (at_value, n) = value_place before y f at fits start in
    let len = length-append before (y.name ++ y.between) in
    let len' = length-append y.name y.between in
    record {
      attached = fits.attached;
      at_name = fits.at_name;
      size = omega (arith, fits.size, length-text y, length-text (record y { value = new }));
      name_fits = fits.name_fits;
      value_fits = inl (start ∙ ap some (omega (arith, at_value, len, len')), omega (arith, n));
      short = small;
    }

difference_lem : (old new : ℕ) → old + new < 0x8000_0000 → difference_fits old new ≡ true
unfolding difference_fits
difference_lem old new small =
    let more : ltb (new - old) 0x8000_0000 ≡ true = ground arith in
    let less : ltb (old - new) 0x8000_0000 ≡ true = ground arith in rw (more, less) refl

module _ {S : Type 0} (ops : LayerOps S) (laws : LayerLaws ops) where
  -- A value between a and b is written over by another one.
  resize_lem :
      (s : S) (a old b new : List ℕ)
      → laws.Good s
      → ops.data_of s ≡ a ++ (old ++ b)
      → length (a ++ (old ++ b)) + length new < 0x1_0000_0000_0000_0000
      → (s' s'' : S) × (resize_value ops s (length a) (length old) (length new) ≡ some (s', true))
        × (ops.write s' (length a) new ≡ some s'')
        × laws.Good s''
        × (ops.data_of s'' ≡ a ++ (new ++ b))
  unfolding resize_value
  resize_lem s a old b new good e small = elim (Bool-cases (ltb (length old) (length new))) [
    | inl longer ↦
        let more = ltb→lt (length old) (length new) longer in
        let (s', gap, done, good', e', n) =
          laws.extends s a (old ++ b) (length new - length old) good e (omega arith) in
        let (s'', wrote, good'', e'') =
          laws.writes s' a (gap ++ old) b new good'
            (e' ∙ ap (λ x. a ++ x) (sym (append_assoc gap old b)))
            (omega (arith, length-append gap old)) in
        (s', s'', rw longer done, wrote, good'', e'')
    | inr short ↦ elim (Bool-cases (ltb (length new) (length old))) [
      | inl shorter ↦
          let less = ltb→lt (length new) (length old) shorter in
          let n = length old - length new in
          let (front, back, parts, size, size') = cut n old (omega arith) in
          let regrouped : a ++ (old ++ b) ≡ a ++ (front ++ (back ++ b)) =
            ap (λ x. a ++ x) (ap (λ x. x ++ b) parts ∙ append_assoc front back b) in
          let (s', done, good', e') =
            laws.shortens s a front (back ++ b) good (e ∙ regrouped) (omega (arith, size))
              (omega (arith, ap length regrouped)) in
          let (s'', wrote, good'', e'') =
            laws.writes s' a back b new good' e' (omega (arith, size')) in
          (
            s',
            s'',
            rw (short, shorter) (ap (ops.shorten s (length a)) (sym size) ∙ done),
            wrote,
            good'',
            e'',
          )
      | inr same ↦
          let equal : length new ≡ length old = not_less (length old) (length new) short same in
          let (s'', wrote, good'', e'') = laws.writes s a old b new good e equal in
          (s, s'', rw (short, same) refl, wrote, good'', e'')
    ]
  ]

  -- The message with the changed field in the layer.
  abbrev written_message : TextMessage S → ℕ → HeaderField → ℕ → List ℕ → S → TextMessage S
  written_message m a f old new s = record m {
    layer = s;
    field_list =
        change_field (λ k. k + length new - old) a (changed_field f old (length new)) m.field_list;
  }

  write_steps :
      (m : TextMessage S) (a at : ℕ) (f : HeaderField) (old : ℕ) (new : List ℕ) (s s' : S)
      → resize_value ops m.layer at old (length new) ≡ some (s, true)
      → ops.write s at new ≡ some s'
      → offsets_fit (written_message m a f old new s').field_list ≡ true
      → write_value ops m a f at old new ≡ some (written_message m a f old new s', true)
  unfolding write_value
  write_steps m a at f old new s s' resized written fit =
      rw (write_value, resized, written, fit) refl

  set_steps :
      (m : TextMessage S) (a at : ℕ) (f : HeaderField) (cur new : List ℕ)
      → field_at a m.field_list ≡ some f
      → field_value (ops.data_of m.layer) f ≡ some cur
      → f.value_offset_in_message ≡ some at
      → difference_fits (length cur) (length new) ≡ true
      → set_field_value ops m a new ≡ write_value ops m a f at (length cur) new
  unfolding set_field_value
  set_steps m a at f cur new listed value start near =
      let set = λ (o : Option ℕ).
        write_value ops m a (record f { value_offset_in_message = o }) at (length cur) new in
      rw (set_field_value, listed, value, near, start) (ap set start)

  -- Where the layer's operations obey LayerLaws, as those of a layer in no packet do: setFieldValue
  -- of a field that has a place for its value, where the bytes stay fewer than 2^31: it succeeds, and
  -- the message then shows the entries it had, with the new value in the place of that field's.
  pub set_field_value-Represents :
      (m : TextMessage S) (first body : List ℕ) (xs ys : List Entry) (y : Entry) (ps gs : Fields)
      (q : ℕ) (f : HeaderField) (at : ℕ) (new : List ℕ)
      → Represents ops laws m first (xs ++ y ∷ ys) body
      → m.field_list ≡ ps ++ (q, f) ∷ gs
      → length xs ≡ length ps
      → Without q ps
      → f.value_offset_in_message ≡ some at
      → length (ops.data_of m.layer) + length new < 0x8000_0000
      → (m' : TextMessage S) × (set_field_value ops m q new ≡ some (m', true))
        × Represents ops laws m' first (xs ++ record y { value = new } ∷ ys) body
  set_field_value-Represents m first body xs ys y ps gs q f at new r there place alone start small =
      let before = first ++ texts xs in
      let y' = record y { value = new } in
      let rest = texts ys ++ body in
      let cut =
        split_bytes ops laws m first body xs ys y ps gs q f r there place
        ∙ value_cut before y rest in
      let (low, this, high) = fields_there ops laws m first body xs ys y ps gs q f r there place in
      let value = value_there ops laws m first body xs ys y ps gs q f r there place in
      let (at_value, size) = value_place before y f at this start in
      let front = before ++ (y.name ++ y.between) in
      let (s, s', resized, wrote, good, shown) =
        resize_lem m.layer front y.value (y.behind ++ rest) new r.in_order cut
          (omega (arith, ap length cut)) in
      let shift : ℕ → ℕ = λ k. k + length new - length y.value in
      let g = changed_field f (length y.value) (length new) in
      let listed = ap (field_at q) there ∙ field_at-there q f gs ps alone in
      let changed =
        ap (change_field shift q g) there ∙ change_field-there q f gs shift g ps alone in
      let len = length-text y in
      let len' = length-text y' in
      let there_before = split_bytes ops laws m first body xs ys y ps gs q f r there place in
      let whole : length (ops.data_of m.layer) ≡ length before + length (text y) + length rest =
        omega (
          arith,
          ap length there_before,
          length-append (before ++ text y) rest,
          length-append before (text y),
        ) in
      let moved =
        FieldsFit-shift (length before + length (text y)) (length before + length (text y')) shift
          ys gs (λ k. omega (arith, len, len')) high in
      let joined = FieldsFit-append (length first) xs (y' ∷ ys) ps ((q, g) ∷ _) low (
        FieldsFit-subst _ _ (y' ∷ ys) ((q, g) ∷ _) (omega (arith, length-append first (texts xs)))
          (changed_fits before y f new at this start (omega (arith, small, whole, len)), moved)) in
      let near = difference_lem (length y.value) (length new) (omega (arith, small, whole, len)) in
      let shown' = sym (value_cut before y' rest) ∙ sym (bytes_cut first body xs ys y') in
      let fields = subst (FieldsFit (length first) (xs ++ y' ∷ ys)) (sym changed) joined in
      let fit = offsets_fit-FieldsFit (length first) (xs ++ y' ∷ ys) _ fields (
        omega (
          arith,
          small,
          whole,
          len,
          len',
          ap length (bytes_cut first body xs ys y'),
          length-append (before ++ text y') rest,
          length-append before (text y'),
          length-append first (texts (xs ++ y' ∷ ys) ++ body),
          length-append (texts (xs ++ y' ∷ ys)) body,
        )) in
      (
        written_message m q f (length y.value) new s',
        set_steps m q at f y.value new listed value start near
            ∙ write_steps m q at f (length y.value) new s s'
                (ap (λ k. resize_value ops m.layer k (length y.value) (length new)) at_value
                  ∙ resized)
                (ap (λ k. ops.write s k new) at_value ∙ wrote) fit,
        record {
          in_order = good;
          bytes = shown ∙ shown';
          fields = fields;
          begin_at = r.begin_at;
          last_is =
              r.last_is
              ∙ ap (last_of none) there
              ∙ last_changed q f g shift ps gs
              ∙ ap (last_of none) (sym changed);
        },
      )
