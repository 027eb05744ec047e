-- ===== src/TextBasedProtocol/Message/Edit.antt =====
-- The insertion, the removal and the search of the fields of a TextBasedProtocolMessage.
use mathlib.Core.List.{map}
use pcap_plus_plus.Prelude.{
  ℕ, suc, ◌+◌, ◌-◌, Bool, true, false, Option, none, some, List, [], ◌∷◌, ◌++◌, ltb, ◌==◌,
  if◌then◌else◌, take,
}
use pcap_plus_plus.TextBasedProtocol.Layers.{LayerOps}
use pcap_plus_plus.TextBasedProtocol.Field.{
  HeaderField, no_message, init_new_field, field_name, copy_field, attach,
}
use pcap_plus_plus.TextBasedProtocol.Message.{
  Fields, TextMessage, same_name, field_at, shift_fields_offset, first_of, next_of, link_field,
  unlink_field, last_of, find_name, offsets_fit, erase_name, bytes_of,
}

module _ {S : Type 0} (ops : LayerOps S) (to_lower : ℕ → ℕ) where
  -- The new field in the links and in the multimap; its bytes are written.
  unfoldable pub link_copy :
      TextMessage S → Option ℕ → HeaderField → Option (TextMessage S × Option ℕ)
  link_copy m prev_field f =
      let new = m.next_address in
      let shift : ℕ → ℕ = λ k. k + f.field_size in
      let next : Option ℕ = elim prev_field [
        | none ↦ first_of m.field_list
        | some q ↦ next_of q m.field_list
      ] in
      let fields : Fields = elim prev_field [
        | none ↦ (new, f) ∷ shift_fields_offset shift m.field_list
        | some q ↦ link_field shift q (new, f) m.field_list
      ] in
      let last : Option ℕ = elim next [ none ↦ some new | some a ↦ m.last_field ] in
      elim (field_name (bytes_of ops m) f) [
        | none ↦ none
        | some name ↦
            let linked = record m {
              field_list = fields;
              last_field = last;
              field_names = m.field_names ++ (map to_lower name, new) ∷ [];
              next_address = suc new;
            } in
            if offsets_fit fields then some (linked, some new) else none
      ]

  -- insertField from the copy of the field on: room is made for it at the offset.
  unfoldable pub insert_copy :
      TextMessage S → Option ℕ → ℕ → HeaderField → Option (TextMessage S × Option ℕ)
  insert_copy m prev_field offset copy = elim (ops.extend m.layer offset copy.field_size) [
    | none ↦ none
    | some (layer, extended) ↦
        let written : Option (TextMessage S × Option ℕ) =
          elim (ops.write layer offset (take copy.field_size copy.new_field_data)) [
            | none ↦ none
            | some layer' ↦ link_copy (record m { layer = layer' }) prev_field (attach copy offset)
          ] in
        if extended then written else some (record m { layer = layer }, none)
  ]

  -- Whether insertField may put a field behind another one, and where, if that fits an int.
  unfoldable pub insert_offset : TextMessage S → Option ℕ → Option (Bool × ℕ)
  insert_offset m none = some (true, m.fields_offset)
  insert_offset m (some q) = elim (field_at q m.field_list) [
    | none ↦ none
    | some f ↦ elim (field_name (bytes_of ops m) f) [
      | none ↦ none
      | some name ↦
          let offset = f.name_offset_in_message + f.field_size in
          let placed : Option (Bool × ℕ) =
            if ltb offset 0x8000_0000 then some (true, offset) else none in
          if same_name name [] then some (false, offset) else placed
    ]
  ]

  -- insertField; a result of NULL is the second none.
  unfoldable pub insert_field :
      TextMessage S → Option ℕ → HeaderField → Option (TextMessage S × Option ℕ)
  insert_field m prev_field new_field =
      let is_free : Bool = elim new_field.message [ no_message ↦ true | _ ↦ false ] in
      let inserted : Option (TextMessage S × Option ℕ) = elim (insert_offset m prev_field) [
        | none ↦ none
        | some (allowed, offset) ↦
            let copied : Option (TextMessage S × Option ℕ) = elim (copy_field [] new_field) [
              | none ↦ none
              | some copy ↦ insert_copy m prev_field offset copy
            ] in
            if allowed then copied else some (m, none)
      ] in
      if is_free then inserted else some (m, none)

  -- The forms of insertField and addField that make the field.
  unfoldable pub insert_new_field :
      TextMessage S → Option ℕ → List ℕ → List ℕ → ℕ → Bool → Option (TextMessage S × Option ℕ)
  insert_new_field m prev_field name value separator spaces =
      insert_field m prev_field (init_new_field name value separator spaces)

  unfoldable pub add_field :
      TextMessage S → List ℕ → List ℕ → ℕ → Bool → Option (TextMessage S × Option ℕ)
  add_field m name value separator spaces =
      insert_new_field m m.last_field name value separator spaces

  unfoldable pub add_end_of_header : TextMessage S → Option (TextMessage S × Option ℕ)
  add_end_of_header m = insert_field m m.last_field (init_new_field [] [] 0 false)

  unfoldable pub get_field_by_name : TextMessage S → List ℕ → ℕ → Option ℕ
  get_field_by_name m name index = find_name (map to_lower name) index m.field_names

  unfoldable pub insert_behind_name :
      TextMessage S → List ℕ → List ℕ → List ℕ → ℕ → Bool → Option (TextMessage S × Option ℕ)
  insert_behind_name m [] name value separator spaces =
      insert_new_field m none name value separator spaces
  insert_behind_name m (c ∷ cs) name value separator spaces =
      elim (get_field_by_name m (c ∷ cs) 0) [
        | none ↦ some (m, none)
        | some q ↦ insert_new_field m (some q) name value separator spaces
      ]

  -- removeField from "update offsets" on.
  unfoldable pub unlink : TextMessage S → ℕ → HeaderField → List ℕ → TextMessage S
  unlink m a f name =
      let fields = unlink_field (λ k. k - f.field_size) a m.field_list in
      let is_last : Bool = elim m.last_field [ none ↦ false | some b ↦ b == a ] in
      record m {
        field_list = fields;
        last_field = if is_last then last_of none fields else m.last_field;
        field_names = erase_name (map to_lower name) a m.field_names;
      }

  -- removeField; an address that is not in the list is that of a field of no or another message.
  unfoldable pub remove_field : TextMessage S → Option ℕ → Option (TextMessage S × Bool)
  remove_field m none = some (m, true)
  remove_field m (some a) = elim (field_at a m.field_list) [
    | none ↦ some (m, false)
    | some f ↦ elim (field_name (bytes_of ops m) f) [
      | none ↦ none
      | some name ↦ elim (ops.shorten m.layer f.name_offset_in_message f.field_size) [
        | none ↦ none
        | some (layer, shortened) ↦
            let m' = record m { layer = layer } in
            some (if shortened then (unlink m' a f name, true) else (m', false))
      ]
    ]
  ]

  unfoldable pub remove_field_of_name : TextMessage S → List ℕ → ℕ → Option (TextMessage S × Bool)
  remove_field_of_name m name index = elim (get_field_by_name m name index) [
    | none ↦ some (m, false)
    | some a ↦ remove_field m (some a)
  ]

  -- isHeaderComplete
  unfoldable pub is_header_complete : TextMessage S → Option Bool
  is_header_complete m = elim m.last_field [
    | none ↦ some false
    | some a ↦ elim (field_at a m.field_list) [
      | none ↦ none
      | some f ↦ elim (field_name (bytes_of ops m) f) [
        | none ↦ none
        | some name ↦ some (same_name name [])
      ]
    ]
  ]

  -- getHeaderLen, which reads the last field.
  unfoldable pub get_header_len : TextMessage S → Option ℕ
  get_header_len m = elim m.last_field [
    | none ↦ none
    | some a ↦ elim (field_at a m.field_list) [
      | none ↦ none
      | some f ↦ some (f.name_offset_in_message + f.field_size)
    ]
  ]
