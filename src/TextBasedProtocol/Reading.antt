-- ===== src/TextBasedProtocol/Reading.antt =====
-- parseFields reads the lines of a message back.
use mathlib.Core.Path.{subst}
use mathlib.Core.List.{append_assoc, append-nil, map}
use pcap_plus_plus.Prelude.{
  ℕ, suc, ◌+◌, ◌<◌, ◌≡◌, refl, sym, ap, ◌∙◌, Bool, true, false, Option, none, some, List, [], ◌∷◌,
  ◌++◌, arith, ltb, leb, ◌==◌, if◌then◌else◌, length, length-append,
}
use pcap_plus_plus.Prelude.Map.{some_inj}
use pcap_plus_plus.TextBasedProtocol.Layers.{LayerOps, LayerLaws}
use pcap_plus_plus.TextBasedProtocol.Field.{
  HeaderField, fits_int, parse_field, field_name, field_value,
}
use pcap_plus_plus.TextBasedProtocol.Message.{Fields, TextMessage, last_of}
use pcap_plus_plus.TextBasedProtocol.Message.Parse.{parse_loop, add_parsed, parse_fields}
use pcap_plus_plus.TextBasedProtocol.Entries.{
  Entry, text, texts, FieldsFit, fits_int-FieldFits, field_name-FieldFits, field_value-FieldFits,
}
use pcap_plus_plus.TextBasedProtocol.Represents.{Represents, bytes_cut}
use pcap_plus_plus.TextBasedProtocol.Shift.{
  texts-append, FieldsFit-subst, FieldsFit-append, last_of-append,
}
use pcap_plus_plus.TextBasedProtocol.Headers.{
  HeadersFit, header, AreLines, parse_loop-HeadersFit, header_long,
}

-- What getFieldName and getFieldValue give for the fields.
abbrev pub read_fields : List ℕ → Fields → List (Option (List ℕ) × Option (List ℕ))
read_fields bytes fs = map (λ p. (field_name bytes p.1, field_value bytes p.1)) fs

read_fields-FieldsFit :
    (bytes a b : List ℕ) (es : List Entry) (fs : Fields)
    → bytes ≡ a ++ (texts es ++ b)
    → FieldsFit (length a) es fs
    → read_fields bytes fs ≡ map (λ e. (some e.name, some e.value)) es
read_fields-FieldsFit bytes a b [] [] e fits = refl
read_fields-FieldsFit bytes a b [] (p ∷ fs) e fits = absurd fits
read_fields-FieldsFit bytes a b (y ∷ es) [] e fits = absurd fits
read_fields-FieldsFit bytes a b (y ∷ es) ((c, f) ∷ fs) e fits =
    let split = e ∙ ap (λ x. a ++ x) (append_assoc (text y) (texts es) b) in
    let name = field_name-FieldFits bytes a y (texts es ++ b) f split fits.0 in
    let value = field_value-FieldFits bytes a y (texts es ++ b) f split fits.0 in
    let rest =
      read_fields-FieldsFit bytes (a ++ text y) b es fs
        (split ∙ sym (append_assoc a (text y) (texts es ++ b)))
        (FieldsFit-subst _ _ es fs (sym (length-append a (text y))) fits.1) in
    λ i. (name i, value i) ∷ rest i

-- The names and values of lines, and the end of the header.
abbrev pub shown : List (List ℕ × List ℕ) → List (Option (List ℕ) × Option (List ℕ))
shown [] = (some [], some []) ∷ []
shown ((name, value) ∷ lines) = (some name, some value) ∷ shown lines

header-shown :
    (separator : ℕ) (spaces : Bool) (lines : List (List ℕ × List ℕ))
    → AreLines separator spaces lines
    → map (λ e. (some e.name, some e.value)) (header separator spaces lines) ≡ shown lines
header-shown separator spaces [] ok = refl
header-shown separator spaces (([], value) ∷ lines) ok = absurd (ok.0.named refl)
header-shown separator spaces ((c ∷ cs, value) ∷ lines) ok =
    ap (λ rest. (some (c ∷ cs), some value) ∷ rest) (header-shown separator spaces lines ok.1)

module _ {S : Type 0} (ops : LayerOps S) (laws : LayerLaws ops) (to_lower : ℕ → ℕ) where
  add_steps :
      (m : TextMessage S) (f : HeaderField) (fs : List HeaderField) (name : List ℕ)
      → fits_int f ≡ true
      → field_name (ops.data_of m.layer) f ≡ some name
      → add_parsed ops to_lower m (f ∷ fs)
        ≡ add_parsed ops to_lower
            (record m {
              field_list = m.field_list ++ (m.next_address, f) ∷ [];
              last_field = some m.next_address;
              field_names = m.field_names ++ (map to_lower name, m.next_address) ∷ [];
              next_address = suc m.next_address;
            })
            fs
  unfolding add_parsed
  add_steps m f fs name i e = rw (add_parsed, i, e, add_parsed) refl

  -- The fields that were parsed come behind those that were there.
  add_parsed-Represents :
      (m : TextMessage S) (first body : List ℕ) (done es : List Entry) (fs : List HeaderField)
      → laws.Good m.layer
      → ops.data_of m.layer ≡ first ++ (texts (done ++ es) ++ body)
      → FieldsFit (length first) done m.field_list
      → m.fields_offset ≡ length first
      → m.last_field ≡ last_of none m.field_list
      → HeadersFit (length (first ++ texts done)) es fs
      → length (ops.data_of m.layer) < 0x8000_0000
      → (m' : TextMessage S) × (add_parsed ops to_lower m fs ≡ some m')
        × Represents ops laws m' first (done ++ es) body
  unfolding add_parsed last_of
  add_parsed-Represents m first body done [] [] good e fits begin last new small = (
    m,
    refl,
    record {
      in_order = good;
      bytes = e;
      fields = subst (λ xs. FieldsFit (length first) xs m.field_list) (sym (append-nil done)) fits;
      begin_at = begin;
      last_is = last;
    },
  )
  add_parsed-Represents m first body done [] (f ∷ fs) good e fits begin last new small = absurd new
  add_parsed-Represents m first body done (y ∷ es) [] good e fits begin last new small = absurd new
  add_parsed-Represents m first body done (y ∷ es) (f ∷ fs) good e fits begin last new small =
      let front = first ++ texts done in
      let cut =
        e ∙ bytes_cut first body done es y ∙ append_assoc front (text y) (texts es ++ body) in
      let regrouped = append_assoc done (y ∷ []) es in
      let fits_behind =
        FieldsFit-subst _ _ (y ∷ []) ((m.next_address, f) ∷ [])
          (omega (arith, length-append first (texts done))) (new.0, tt) in
      let longer : length front + length (text y) ≡ length (first ++ texts (done ++ y ∷ [])) =
        omega (
          arith,
          length-append first (texts done),
          length-append first (texts (done ++ y ∷ [])),
          ap length (texts-append done (y ∷ [])),
          length-append (texts done) (text y ++ []),
          length-append (text y) [],
        ) in
      let m₁ = record m {
        field_list = m.field_list ++ (m.next_address, f) ∷ [];
        last_field = some m.next_address;
        field_names = m.field_names ++ (map to_lower y.name, m.next_address) ∷ [];
        next_address = suc m.next_address;
      } in
      let (m', added, r) =
        add_parsed-Represents m₁ first body (done ++ y ∷ []) es fs good
          (e ∙ ap (λ ys. first ++ (texts ys ++ body)) (sym regrouped))
          (FieldsFit-append (length first) done (y ∷ []) m.field_list _ fits fits_behind) begin
          (sym (last_of-append none m.field_list ((m.next_address, f) ∷ [])))
          (subst (λ n. HeadersFit n es fs) longer new.1) small in
      let int = fits_int-FieldFits (length front) y f new.0 (
        omega (
          arith,
          small,
          ap length cut,
          length-append front (text y ++ (texts es ++ body)),
          length-append (text y) (texts es ++ body),
        )) in
      let named =
        field_name-FieldFits (ops.data_of m.layer) front y (texts es ++ body) f cut new.0 in
      (
        m',
        add_steps m f fs y.name int named ∙ added,
        subst (λ ys. Represents ops laws m' first ys body) regrouped r,
      )

  first_field :
      (m : TextMessage S) (f : HeaderField) (ends : Bool) (rest : Option (List HeaderField))
      (fs : List HeaderField)
      → (if ends then some (f ∷ []) else (elim rest as (λ x. Option (List HeaderField)) [
        | none ↦ none
        | some gs ↦ some (f ∷ gs)
      ]))
        ≡ some fs
      → (elim (if ends then some [] else rest) as (λ x. Option (TextMessage S)) [
        | none ↦ none
        | some gs ↦ add_parsed ops to_lower m (f ∷ gs)
      ])
        ≡ add_parsed ops to_lower m fs
  first_field m f true rest fs e = ap (add_parsed ops to_lower m) (some_inj e)
  first_field m f false none fs e = cc
  first_field m f false (some gs) fs e = ap (add_parsed ops to_lower m) (some_inj e)

  -- parseFields adds what the loop makes from the first field on.
  first_steps :
      (m : TextMessage S) (separator : ℕ) (spaces : Bool) (fs : List HeaderField)
      → let bytes = ops.data_of m.layer in
        let offset = m.fields_offset in
        offset < length bytes
        → offset < 0x8000_0000
        → 0 < (parse_field bytes offset separator spaces).field_size
        → parse_loop (suc (length bytes)) bytes separator spaces offset ≡ some fs
        → parse_fields ops to_lower m separator spaces ≡ add_parsed ops to_lower m fs
  unfolding parse_fields parse_loop
  first_steps m separator spaces fs inside small more loop =
      let bytes = ops.data_of m.layer in
      let f = parse_field bytes m.fields_offset separator spaces in
      let guard : ltb (length bytes) m.fields_offset ≡ false = ground arith in
      let g : leb (length bytes) m.fields_offset ≡ false = ground arith in
      let i : leb 0x8000_0000 m.fields_offset ≡ false = ground arith in
      let h : (f.field_size == 0) ≡ false = ground arith in
      rw guard (first_field m f f.is_end_of_header _ fs (rw (g, i, h) at loop))

  parse_fields-Represents :
      (m : TextMessage S) (separator : ℕ) (spaces : Bool) (first body : List ℕ)
      (lines : List (List ℕ × List ℕ))
      → laws.Good m.layer
      → m.field_list ≡ []
      → m.last_field ≡ none
      → m.fields_offset ≡ length first
      → ops.data_of m.layer ≡ first ++ (texts (header separator spaces lines) ++ body)
      → length (ops.data_of m.layer) < 0x8000_0000
      → AreLines separator spaces lines
      → (m' : TextMessage S) × (parse_fields ops to_lower m separator spaces ≡ some m')
        × Represents ops laws m' first (header separator spaces lines) body
  unfolding last_of
  parse_fields-Represents m separator spaces first body lines good none_yet no_last begin e small
        ok =
      let bytes = ops.data_of m.layer in
      let es = header separator spaces lines in
      let (many, filled) = header_long separator spaces bytes first body lines ok small e in
      let len : length bytes ≡ length first + (length (texts es) + length body) = omega (
        arith,
        ap length e,
        length-append first (texts es ++ body),
        length-append (texts es) body,
      ) in
      let (fs, loop, placed) =
        parse_loop-HeadersFit separator spaces (suc (length bytes)) bytes first body lines ok
          (omega (arith, many, len)) small e in
      let loop' = ap (parse_loop (suc (length bytes)) bytes separator spaces) begin ∙ loop in
      let (m', added, r) =
        add_parsed-Represents m first body [] es fs good e
          (subst (FieldsFit (length first) []) (sym none_yet) tt) begin
          (no_last ∙ ap (last_of none) (sym none_yet))
          (subst (λ n. HeadersFit n es fs) (omega (arith, length-append first [])) placed) small in
      let size = λ (at : ℕ). 0 < (parse_field bytes at separator spaces).field_size in
      (
        m',
        first_steps m separator spaces fs (omega (arith, begin, many, len))
              (omega (arith, begin, many, len, small)) (subst size (sym begin) filled) loop'
            ∙ added,
        r,
      )

  -- Where the layer's operations obey LayerLaws, as those of a layer in no packet do: parseFields of
  -- a message without fields whose bytes are a first line, a line for each name and value, the end of
  -- the header and a body, fewer than 2^31 in all: it succeeds, and the message then shows these, and
  -- getFieldName and getFieldValue of its fields give the names and values, and nothing for the end
  -- of the header. A name is not empty and does not begin with a carriage return; no name or value
  -- has a line feed, no name the separator, which is no line feed, and a value does not begin with a
  -- space.
  pub read_fields-parse_fields :
      (m : TextMessage S) (separator : ℕ) (spaces : Bool) (first body : List ℕ)
      (lines : List (List ℕ × List ℕ))
      → laws.Good m.layer
      → m.field_list ≡ []
      → m.last_field ≡ none
      → m.fields_offset ≡ length first
      → ops.data_of m.layer ≡ first ++ (texts (header separator spaces lines) ++ body)
      → length (ops.data_of m.layer) < 0x8000_0000
      → AreLines separator spaces lines
      → (m' : TextMessage S) × (parse_fields ops to_lower m separator spaces ≡ some m')
        × Represents ops laws m' first (header separator spaces lines) body
        × (read_fields (ops.data_of m'.layer) m'.field_list ≡ shown lines)
  read_fields-parse_fields m separator spaces first body lines good none_yet no_last begin e small
        ok =
      let (m', parsed_as, r) =
        parse_fields-Represents m separator spaces first body lines good none_yet no_last begin e
          small ok in
      (
        m',
        parsed_as,
        r,
        read_fields-FieldsFit (ops.data_of m'.layer) first body (header separator spaces lines)
              m'.field_list r.bytes r.fields
            ∙ header-shown separator spaces lines ok,
      )
