-- ===== src/Tlv.antt =====
-- TLV records, as IPv4 and TCP options have them: TLVRecordReader and TLVRecordBuilder
-- (Packet++/header/TLVData.h), with the sizes and the build of Packet++/header/TcpLayer.h and
-- Packet++/src/TcpLayer.cpp. The memory is a list of bytes from tlvDataBasePtr on, a record its offset,
-- or none for NULL. An operation returns none where it reads outside of the memory or the fuel ends.
pub mod Records
use pcap_plus_plus.Prelude.{
  ℕ, zero, suc, ◌+◌, ◌%◌, Bool, true, false, ◌||◌, ◌&&◌, not, Option, none, some, List, [], ◌∷◌,
  ◌++◌, leb, ◌==◌, if◌then◌else◌, length, get_elem?,
}

-- NOP and the end of the options have one byte.
abbrev pub is_short : ℕ → Bool
is_short type = type == 0 || type == 1

unfoldable pub get_total_size : List ℕ → Option ℕ → Option ℕ
get_total_size memory none = some 0
get_total_size memory (some at) =
    let record_len = get_elem? memory (at + 1) in
    elim (get_elem? memory at) [
      | none ↦ none
      | some type ↦ if is_short type then some 1 else record_len
    ]

unfoldable pub get_first_tlv_record : List ℕ → ℕ → Option (Option ℕ)
get_first_tlv_record memory data_len =
    let checked : Option (Option ℕ) = elim (get_total_size memory (some 0)) [
      | none ↦ none
      | some size ↦ some (if size == 0 then none else some 0)
    ] in
    if data_len == 0 then some none else checked

unfoldable pub get_next_tlv_record : List ℕ → ℕ → Option ℕ → Option (Option ℕ)
get_next_tlv_record memory data_len none = some none
get_next_tlv_record memory data_len (some at) = elim (get_total_size memory (some at)) [
  | none ↦ none
  | some size ↦
      let next : Option (Option ℕ) = elim (get_total_size memory (some (at + size))) [
        | none ↦ none
        | some size' ↦ some (if size' == 0 then none else some (at + size))
      ] in
      if leb data_len (at + size) then some none else next
]

unfoldable pub find_record : ℕ → List ℕ → ℕ → ℕ → Option ℕ → Option (Option ℕ)
find_record zero memory data_len type cur = none
find_record (suc fuel) memory data_len type none = some none
find_record (suc fuel) memory data_len type (some at) =
    let other : Option (Option ℕ) = elim (get_next_tlv_record memory data_len (some at)) [
      | none ↦ none
      | some next ↦ find_record fuel memory data_len type next
    ] in
    elim (get_elem? memory at) [
      | none ↦ none
      | some t ↦ if t == type then some (some at) else other
    ]

unfoldable pub get_tlv_record : ℕ → List ℕ → ℕ → ℕ → Option (Option ℕ)
get_tlv_record fuel memory data_len type = elim (get_first_tlv_record memory data_len) [
  | none ↦ none
  | some first ↦ find_record fuel memory data_len type first
]

unfoldable pub count_records : ℕ → List ℕ → ℕ → Option ℕ → Option ℕ
count_records zero memory data_len cur = none
count_records (suc fuel) memory data_len none = some 0
count_records (suc fuel) memory data_len (some at) =
    elim (get_next_tlv_record memory data_len (some at)) [
      | none ↦ none
      | some next ↦ elim (count_records fuel memory data_len next) [
        | none ↦ none
        | some n ↦ some (n + 1)
      ]
    ]

-- getTLVRecordCount that has not been called before
unfoldable pub get_tlv_record_count : ℕ → List ℕ → ℕ → Option ℕ
get_tlv_record_count fuel memory data_len = elim (get_first_tlv_record memory data_len) [
  | none ↦ none
  | some first ↦ count_records fuel memory data_len first
]

pub record TlvRecordBuilder : Type 0 where
  pub rec_type : ℕ
  pub rec_value : List ℕ

-- The bytes of recordBuffer.
unfoldable pub record_buffer : TlvRecordBuilder → List ℕ
record_buffer b =
    if is_short b.rec_type
    then b.rec_type ∷ []
    else b.rec_type ∷ (length b.rec_value + 2) % 256 ∷ b.rec_value

-- build, or none for a record of NULL
unfoldable pub build : TlvRecordBuilder → Option (List ℕ)
build b =
    if is_short b.rec_type && not (length b.rec_value == 0) then none else some (record_buffer b)
