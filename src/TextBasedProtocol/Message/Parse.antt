-- ===== src/TextBasedProtocol/Message/Parse.antt =====
-- TextBasedProtocolMessage::parseFields.
use mathlib.Core.List.{map}
use pcap_plus_plus.Prelude.{
  ℕ, zero, suc, ◌+◌, Bool, true, false, Option, none, some, List, [], ◌∷◌, ◌++◌, ltb, leb, ◌==◌,
  if◌then◌else◌, length,
}
use pcap_plus_plus.TextBasedProtocol.Layers.{LayerOps}
use pcap_plus_plus.TextBasedProtocol.Field.{HeaderField, parse_field, field_name, fits_int}
use pcap_plus_plus.TextBasedProtocol.Message.{TextMessage, bytes_of}

-- The fields that parseFields' loop makes from curOffset on, an int.
unfoldable pub parse_loop : ℕ → List ℕ → ℕ → Bool → ℕ → Option (List HeaderField)
parse_loop zero bytes separator spaces offset = some []
parse_loop (suc fuel) bytes separator spaces offset =
    let f = parse_field bytes offset separator spaces in
    let rest = parse_loop fuel bytes separator spaces (offset + f.field_size) in
    let more : Option (List HeaderField) = elim rest [ none ↦ none | some fs ↦ some (f ∷ fs) ] in
    if leb (length bytes) offset
    then some []
    else if leb 0x8000_0000 offset
    then none
    else if f.field_size == 0
    then some []
    else (if f.is_end_of_header then some (f ∷ []) else more)

module _ {S : Type 0} (ops : LayerOps S) (to_lower : ℕ → ℕ) where
  -- The links and the names of fields with addresses from one on.
  unfoldable pub add_parsed : TextMessage S → List HeaderField → Option (TextMessage S)
  add_parsed m [] = some m
  add_parsed m (f ∷ fs) = elim (fits_int f) [
    | false ↦ none
    | true ↦ elim (field_name (bytes_of ops m) f) [
      | none ↦ none
      | some name ↦
          let new = m.next_address in
          add_parsed
            (record m {
              field_list = m.field_list ++ (new, f) ∷ [];
              last_field = some new;
              field_names = m.field_names ++ (map to_lower name, new) ∷ [];
              next_address = suc new;
            })
            fs
    ]
  ]

  -- parseFields of a message without fields. The first field is kept whatever its size.
  unfoldable pub parse_fields : TextMessage S → ℕ → Bool → Option (TextMessage S)
  parse_fields m separator spaces =
      let bytes = bytes_of ops m in
      let first = parse_field bytes m.fields_offset separator spaces in
      let rest =
        parse_loop (length bytes) bytes separator spaces (m.fields_offset + first.field_size) in
      let others : Option (List HeaderField) = if first.is_end_of_header then some [] else rest in
      let added : Option (TextMessage S) = elim others [
        | none ↦ none
        | some fs ↦ add_parsed m (first ∷ fs)
      ] in
      if ltb (length bytes) m.fields_offset then none else added
