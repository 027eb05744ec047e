-- ===== src/TextBasedProtocol/Message.antt =====
-- TextBasedProtocolMessage: the list of its fields, their places and the multimap of their names, which
-- keeps the fields of one name in the order of their insertion. The layer's operations and ::tolower
-- are parameters. A result of none stands for a read or write outside of the bytes.
pub mod Parse
pub mod Edit
pub mod Values
use mathlib.Core.List.{map}
use pcap_plus_plus.Prelude.{
  ℕ, zero, suc, ◌+◌, ◌-◌, ◌%◌, Bool, true, false, not, ◌&&◌, ◌||◌, Option, none, some, List, [],
  ◌∷◌, ◌++◌, ltb, leb, ◌==◌, if◌then◌else◌, length, take, drop,
}
use pcap_plus_plus.TextBasedProtocol.Layers.{LayerOps}
use pcap_plus_plus.TextBasedProtocol.Field.{
  HeaderField, no_message, this_message, other_message, parse_field, init_new_field, field_name,
  field_value, copy_field, attach, fits_int,
}

-- A field with its address, of a list in the order of the links.
abbrev pub Fields : Type 0
Fields = List (ℕ × HeaderField)

-- next_address is one that no field has had.
pub record TextMessage (S : Type 0) : Type 0 where
  pub layer : S
  pub field_list : Fields
  pub last_field : Option ℕ
  pub fields_offset : ℕ
  pub field_names : List (List ℕ × ℕ)
  pub next_address : ℕ

unfoldable pub same_name : List ℕ → List ℕ → Bool
same_name [] [] = true
same_name [] (y ∷ ys) = false
same_name (x ∷ xs) [] = false
same_name (x ∷ xs) (y ∷ ys) = x == y && same_name xs ys

unfoldable pub field_at : ℕ → Fields → Option HeaderField
field_at a [] = none
field_at a ((b, f) ∷ fs) = let rest = field_at a fs in if b == a then some f else rest

unfoldable pub offsets_fit : Fields → Bool
offsets_fit [] = true
offsets_fit ((a, f) ∷ fs) = fits_int f && offsets_fit fs

-- shiftFieldsOffset, by a change of the offsets. What calls it has no result where an offset then
-- does not fit an int.
unfoldable pub shift_fields_offset : (ℕ → ℕ) → Fields → Fields
shift_fields_offset shift [] = []
shift_fields_offset shift ((a, f) ∷ fs) =
    (
      a,
      record f {
        name_offset_in_message = shift f.name_offset_in_message;
        value_offset_in_message = elim f.value_offset_in_message [
          | none ↦ none
          | some at ↦ some (shift at)
        ];
      },
    )
    ∷ shift_fields_offset shift fs

-- The fields with a new one behind the field of an address, and those behind it shifted.
unfoldable pub link_field : (ℕ → ℕ) → ℕ → ℕ × HeaderField → Fields → Fields
link_field shift prev new [] = []
link_field shift prev new ((a, f) ∷ fs) =
    let rest = link_field shift prev new fs in
    (a, f) ∷ (if a == prev then new ∷ shift_fields_offset shift fs else rest)

-- The fields without the one of an address, and those behind it shifted.
unfoldable pub unlink_field : (ℕ → ℕ) → ℕ → Fields → Fields
unlink_field shift a [] = []
unlink_field shift a ((b, f) ∷ fs) =
    let rest = unlink_field shift a fs in
    if b == a then shift_fields_offset shift fs else (b, f) ∷ rest

unfoldable pub first_of : Fields → Option ℕ
first_of [] = none
first_of ((a, f) ∷ fs) = some a

-- getNextField
unfoldable pub next_of : ℕ → Fields → Option ℕ
next_of a [] = none
next_of a ((b, f) ∷ fs) = let rest = next_of a fs in if b == a then first_of fs else rest

unfoldable pub last_of : Option ℕ → Fields → Option ℕ
last_of found [] = found
last_of found ((a, f) ∷ fs) = last_of (some a) fs

-- The index-th entry of a name, and the erasure of the entry of a field.
unfoldable pub find_name : List ℕ → ℕ → List (List ℕ × ℕ) → Option ℕ
find_name name index [] = none
find_name name index ((first, a) ∷ rest) =
    let there = find_name name (index - 1) rest in
    let behind = find_name name index rest in
    if same_name first name then (if index == 0 then some a else there) else behind

unfoldable pub erase_name : List ℕ → ℕ → List (List ℕ × ℕ) → List (List ℕ × ℕ)
erase_name name a [] = []
erase_name name a ((first, b) ∷ rest) =
    let behind = erase_name name a rest in
    if same_name first name && b == a then rest else (first, b) ∷ behind

unfoldable pub get_field_count : Fields → ℕ
get_field_count [] = 0
get_field_count ((a, f) ∷ fs) =
    if f.is_end_of_header then get_field_count fs else suc (get_field_count fs)

module _ {S : Type 0} (ops : LayerOps S) where
  abbrev pub bytes_of : TextMessage S → List ℕ
  bytes_of m = ops.data_of m.layer
