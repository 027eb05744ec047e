-- ===== src/TextBasedProtocol/Message/Values.antt =====
-- HeaderField::setFieldValue and TextBasedProtocolMessage::copyDataFrom.
use pcap_plus_plus.Prelude.{
  ℕ, suc, ◌+◌, ◌-◌, Bool, true, false, ◌&&◌, Option, none, some, List, [], ◌∷◌, ◌++◌, ltb, ◌==◌,
  if◌then◌else◌, length,
}
use pcap_plus_plus.TextBasedProtocol.Layers.{LayerOps}
use pcap_plus_plus.TextBasedProtocol.Field.{
  HeaderField, npos, init_new_field, field_name, field_value, copy_field, attach,
}
use pcap_plus_plus.TextBasedProtocol.Message.{
  Fields, TextMessage, field_at, shift_fields_offset, last_of, bytes_of, offsets_fit,
}

-- setFieldValue of a field of no message.
unfoldable pub set_new_value : HeaderField → List ℕ → Option HeaderField
set_new_value f new = elim (field_name [] f) [
  | none ↦ none
  | some name ↦ some (init_new_field name new f.name_value_separator f.spaces_allowed)
]

-- The fields with the one of an address changed, and those behind it shifted; a shift by nothing
-- stands for no shift.
unfoldable pub change_field : (ℕ → ℕ) → ℕ → HeaderField → Fields → Fields
change_field shift a changed [] = []
change_field shift a changed ((b, f) ∷ fs) =
    let rest = change_field shift a changed fs in
    if b == a then (b, changed) ∷ shift_fields_offset shift fs else (b, f) ∷ rest

-- Whether the difference of two lengths fits an int.
unfoldable pub difference_fits : ℕ → ℕ → Bool
difference_fits old new = ltb (new - old) 0x8000_0000 && ltb (old - new) 0x8000_0000

module _ {S : Type 0} (ops : LayerOps S) where
  -- extendLayer or shortenLayer at the value, from its size to the new one.
  unfoldable pub resize_value : S → ℕ → ℕ → ℕ → Option (S × Bool)
  resize_value s at old new =
      if ltb old new
      then ops.extend s at (new - old)
      else (if ltb new old then ops.shorten s at (old - new) else some (s, true))

  -- setFieldValue of a field whose value of an old size stands at a place.
  unfoldable pub write_value :
      TextMessage S → ℕ → HeaderField → ℕ → ℕ → List ℕ → Option (TextMessage S × Bool)
  write_value m a f at old new = elim (resize_value m.layer at old (length new)) [
    | none ↦ none
    | some (layer, resized) ↦
        let changed = record f {
          field_value_size = f.field_value_size + length new - old;
          field_size = f.field_size + length new - old;
        } in
        let fields = change_field (λ k. k + length new - old) a changed m.field_list in
        let written : Option (TextMessage S × Bool) = elim (ops.write layer at new) [
          | none ↦ none
          | some layer' ↦
              if offsets_fit fields
              then some (record m { layer = layer'; field_list = fields }, true)
              else none
        ] in
        if resized then written else some (record m { layer = layer }, false)
  ]

  -- setFieldValue of a field of the message. Without a value offset the place is -1 as a size_t, where
  -- no byte may be written.
  unfoldable pub set_field_value : TextMessage S → ℕ → List ℕ → Option (TextMessage S × Bool)
  set_field_value m a new = elim (field_at a m.field_list) [
    | none ↦ none
    | some f ↦ elim (field_value (bytes_of ops m) f) [
      | none ↦ none
      | some cur ↦
          let set : Option (TextMessage S × Bool) = elim f.value_offset_in_message [
            | none ↦ elim new [
              | [] ↦ some (m, true)
              | c ∷ cs ↦ elim (ops.extend m.layer npos (suc (length cs))) [
                | none ↦ none
                | some (layer, extended) ↦
                    if extended then none else some (record m { layer = layer }, false)
              ]
            ]
            | some at ↦ write_value m a f at (length cur) new
          ] in
          if difference_fits (length cur) (length new) then set else none
    ]
  ]

  -- The copies of fields of the bytes, with addresses from one on.
  unfoldable pub copy_fields : List ℕ → ℕ → Fields → Option Fields
  copy_fields bytes next [] = some []
  copy_fields bytes next ((a, f) ∷ fs) = elim (copy_field bytes f) [
    | none ↦ none
    | some copy ↦ elim (copy_fields bytes (suc next) fs) [
      | none ↦ none
      | some rest ↦ some ((next, attach copy f.name_offset_in_message) ∷ rest)
    ]
  ]

  -- The names of the copies in the multimap, as they are.
  unfoldable pub names_of : List ℕ → Fields → Option (List (List ℕ × ℕ))
  names_of bytes [] = some []
  names_of bytes ((a, f) ∷ fs) = elim (field_name bytes f) [
    | none ↦ none
    | some name ↦ elim (names_of bytes fs) [ none ↦ none | some rest ↦ some ((name, a) ∷ rest) ]
  ]

  -- copyDataFrom, for a message with the copied layer and no fields.
  unfoldable pub copy_data_from : TextMessage S → TextMessage S → Option (TextMessage S)
  copy_data_from m other = elim (copy_fields (bytes_of ops other) m.next_address other.field_list) [
    | none ↦ none
    | some fs ↦ elim (names_of (bytes_of ops m) fs) [
      | none ↦ none
      | some names ↦
          let copied = record m {
            field_list = fs;
            last_field = last_of none fs;
            fields_offset = other.fields_offset;
            field_names = m.field_names ++ names;
            next_address = m.next_address + length fs;
          } in
          if offsets_fit fs then some copied else none
    ]
  ]
