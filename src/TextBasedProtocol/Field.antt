-- ===== src/TextBasedProtocol/Field.antt =====
-- HeaderField: how a field is read from the bytes of a message and how a new one is built. A size_t of
-- -1 is npos, and an int offset of -1 is none. The operations that set offsets have no result where
-- one does not fit an int: its conversion is not defined by the language.
use pcap_plus_plus.Prelude.{
  ℕ, suc, ◌+◌, ◌-◌, Bool, true, false, ◌&&◌, ◌||◌, Option, none, some, List, [], ◌∷◌, ◌++◌, ltb,
  leb, ◌==◌, if◌then◌else◌, length, take, drop, get_elem?,
}
use pcap_plus_plus.Packet.{sub64}

abbrev pub npos : ℕ
npos = 0xFFFF_FFFF_FFFF_FFFF

-- memchr
unfoldable pub index_of : ℕ → List ℕ → Option ℕ
index_of c [] = none
index_of c (x ∷ xs) =
    let rest = index_of c xs in
    if x == c then some 0 else elim rest [ none ↦ none | some i ↦ some (suc i) ]

-- tbp_my_own_strnlen
unfoldable pub strnlen : List ℕ → ℕ
strnlen [] = 0
strnlen (x ∷ xs) = let rest = strnlen xs in if x == 0 then 0 else suc rest

unfoldable pub count_spaces : List ℕ → ℕ
count_spaces [] = 0
count_spaces (x ∷ xs) = let rest = count_spaces xs in if x == b' ' then suc rest else 0

-- The message that a field belongs to: none, the one at hand or another one.
pub data FieldOwner : Type 0 where
  no_message this_message other_message : FieldOwner

-- The offsets are ints, so below 2^31 in what parsing and the edits give; see fits_int.
pub record HeaderField : Type 0 where
  pub new_field_data : List ℕ
  pub message : FieldOwner
  pub name_offset_in_message : ℕ
  pub field_name_size : ℕ
  pub value_offset_in_message : Option ℕ
  pub field_value_size : ℕ
  pub field_size : ℕ
  pub is_end_of_header : Bool
  pub name_value_separator : ℕ
  pub spaces_allowed : Bool

-- Where the value of a field begins, behind its separator, if that is in the message.
unfoldable pub value_start : List ℕ → ℕ → Bool → Option ℕ
value_start bytes behind spaces =
    let at = if spaces then behind + count_spaces (drop behind bytes) else behind in
    if leb (length bytes) behind then none else (if leb (length bytes) at then none else some at)

-- The size of the value that begins there; end_at is the place of the line's end.
unfoldable pub value_size : List ℕ → ℕ → Option ℕ → ℕ
value_size bytes at none = length bytes - at
value_size bytes at (some end_at) = elim (get_elem? bytes (end_at - 1)) [
  | none ↦ sub64 end_at at
  | some c ↦ if c == b'\r' then sub64 (sub64 end_at at) 1 else sub64 end_at at
]

-- A field of the message; the last argument says that it ends the header.
abbrev pub parsed : ℕ → Bool → ℕ → ℕ → ℕ → Option ℕ → ℕ → Bool → HeaderField
parsed separator spaces offset size name_size start n ends = record {
  new_field_data = [];
  message = this_message;
  name_offset_in_message = offset;
  field_name_size = name_size;
  value_offset_in_message = start;
  field_value_size = n;
  field_size = size;
  is_end_of_header = ends;
  name_value_separator = separator;
  spaces_allowed = spaces;
}

-- The field of the bytes from the offset on; newline is the place of the first line feed in them.
unfoldable pub parse_line : List ℕ → ℕ → ℕ → Bool → List ℕ → Option ℕ → HeaderField
parse_line bytes offset separator spaces rest newline =
    let size : ℕ = elim newline [ none ↦ strnlen rest | some i ↦ i + 1 ] in
    let end_at : Option ℕ = elim newline [ none ↦ none | some i ↦ some (offset + i) ] in
    let is_blank : Bool = elim rest [
      | [] ↦ true
      | x ∷ xs ↦ size == 0 || (x == b'\r' || x == b'\n')
    ] in
    let f = parsed separator spaces offset size in
    if is_blank then f npos none npos true else elim (index_of separator rest) [
      | none ↦ f size none npos false
      | some k ↦ elim (value_start bytes (offset + k + 1) spaces) [
        | none ↦ f k none npos false
        | some at ↦ f k (some at) (value_size bytes at end_at) false
      ]
    ]

-- The constructor for a field of a message, at an offset that is not behind its bytes.
unfoldable pub parse_field : List ℕ → ℕ → ℕ → Bool → HeaderField
parse_field bytes offset separator spaces =
    let rest = drop offset bytes in
    parse_line bytes offset separator spaces rest (index_of b'\n' rest)

-- The text between a name and its value.
unfoldable pub separation : ℕ → Bool → List ℕ
separation separator spaces = separator ∷ (if spaces then b' ' ∷ [] else [])

abbrev pub crlf : List ℕ
crlf = b'\r' ∷ b'\n' ∷ []

-- The constructor for a new field, by initNewField.
unfoldable pub init_new_field : List ℕ → List ℕ → ℕ → Bool → HeaderField
init_new_field name value separator spaces =
    let is_end : Bool = elim name [ [] ↦ true | x ∷ xs ↦ false ] in
    let between = separation separator spaces in
    let bytes = if is_end then crlf else name ++ (between ++ (value ++ crlf)) in
    record {
      new_field_data = bytes;
      message = no_message;
      name_offset_in_message = 0;
      field_name_size = length name;
      value_offset_in_message = some (if is_end then 0 else length name + length between);
      field_value_size = length value;
      field_size = if is_end then 2 else length name + length between + length value + 2;
      is_end_of_header = is_end;
      name_value_separator = separator;
      spaces_allowed = spaces;
    }

-- getData
abbrev pub get_data : List ℕ → HeaderField → List ℕ
get_data bytes f = elim f.message [ no_message ↦ f.new_field_data | _ ↦ bytes ]

-- std::string::assign of a size that a string may have, or none where it would read behind the bytes
unfoldable pub assign_string : List ℕ → ℕ → ℕ → Option (List ℕ)
assign_string bytes at n =
    if leb (at + n) (length bytes) then some (take n (drop at bytes)) else none

-- What std::string::assign does: it gives a text, throws std::length_error, or reads outside.
pub data Assignment : Type 0 where
  assigned : List ℕ → Assignment
  length_error outside : Assignment

-- No std::string is longer.
abbrev pub max_size : ℕ
max_size = 0x7FFF_FFFF_FFFF_FFFF

unfoldable pub assign_text : List ℕ → ℕ → ℕ → Assignment
assign_text bytes at n =
    if ltb max_size n
    then length_error
    else elim (assign_string bytes at n) [ none ↦ outside | some xs ↦ assigned xs ]

-- The message's bytes come first.
unfoldable pub get_field_name : List ℕ → HeaderField → Assignment
get_field_name bytes f =
    if f.field_name_size == npos
    then assigned []
    else assign_text (get_data bytes f) f.name_offset_in_message f.field_name_size

unfoldable pub get_field_value : List ℕ → HeaderField → Assignment
get_field_value bytes f = elim f.value_offset_in_message [
  | none ↦ assigned []
  | some at ↦ assign_text (get_data bytes f) at f.field_value_size
]

-- What they give to the callers, which catch no exception: none if they do not return.
unfoldable pub returned : Assignment → Option (List ℕ)
returned (assigned xs) = some xs
returned length_error = none
returned outside = none

unfoldable pub field_name : List ℕ → HeaderField → Option (List ℕ)
field_name bytes f = returned (get_field_name bytes f)

unfoldable pub field_value : List ℕ → HeaderField → Option (List ℕ)
field_value bytes f = returned (get_field_value bytes f)

-- Whether the offsets of a field fit the ints that hold them.
unfoldable pub fits_int : HeaderField → Bool
fits_int f =
    let value : Bool = elim f.value_offset_in_message [
      | none ↦ true
      | some at ↦ ltb at 0x8000_0000
    ] in
    ltb f.name_offset_in_message 0x8000_0000 && value

-- The copy constructor.
unfoldable pub copy_field : List ℕ → HeaderField → Option HeaderField
copy_field bytes f = elim (field_name bytes f) [
  | none ↦ none
  | some name ↦ elim (field_value bytes f) [
    | none ↦ none
    | some value ↦ some (init_new_field name value f.name_value_separator f.spaces_allowed)
  ]
]

-- attachToTextBasedProtocolMessage of a field of no message, whose name begins at 0.
unfoldable pub attach : HeaderField → ℕ → HeaderField
attach f offset = record f {
  new_field_data = [];
  message = this_message;
  name_offset_in_message = offset;
  value_offset_in_message = elim f.value_offset_in_message [
    | none ↦ if offset == 0 then none else some (offset - 1)
    | some at ↦ some (offset + at)
  ];
}
