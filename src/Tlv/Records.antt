-- ===== src/Tlv/Records.antt =====
-- The reader finds the records that builders have built.
use pcap_plus_plus.Prelude.{
  ℕ, ◌+◌, ◌≤◌, Option, none, some, List, [], ◌∷◌, ◌++◌, ◌==◌, if◌then◌else◌, length,
}
use pcap_plus_plus.Tlv.{TlvRecordBuilder, record_buffer}

-- A value of no more than 253 bytes, so that the record's length fits a byte.
abbrev pub Short : TlvRecordBuilder → Type 0
Short b = length b.rec_value ≤ 253

abbrev pub records : List TlvRecordBuilder → List ℕ
records [] = []
records (b ∷ bs) = record_buffer b ++ records bs

-- Where the first record of a type starts, the first record being at an offset.
unfoldable pub place_of : ℕ → ℕ → List TlvRecordBuilder → Option ℕ
place_of type at [] = none
place_of type at (b ∷ bs) =
    if b.rec_type == type then some at else place_of type (at + length (record_buffer b)) bs

module _ (memory : List ℕ) where
  -- The first of some records, if there is one.
  abbrev start : List TlvRecordBuilder → ℕ → Option ℕ
  start [] at = none
  start (b ∷ bs) at = some at
