-- ===== src/Tests/Tlvs.antt =====
-- TCP options: maximum segment size, NOP and window scale.
use pcap_plus_plus.Prelude.{◌≡◌, refl, none, some, List, [], ◌∷◌}
use pcap_plus_plus.Tlv.{
  TlvRecordBuilder, record_buffer, build, get_total_size, get_first_tlv_record, get_next_tlv_record,
  find_record, count_records, get_tlv_record, get_tlv_record_count,
}
use pcap_plus_plus.Tlv.Records.{records}

abbrev options : List TlvRecordBuilder
options =
    record { rec_type = 2; rec_value = 5 ∷ 0xB4 ∷ [] }
    ∷ record { rec_type = 1; rec_value = [] }
    ∷ record { rec_type = 3; rec_value = 7 ∷ [] }
    ∷ []

options_bytes : records options ≡ 2 ∷ 4 ∷ 5 ∷ 0xB4 ∷ 1 ∷ 3 ∷ 3 ∷ 7 ∷ []
unfolding record_buffer
options_bytes = refl

window_scale : get_tlv_record 4 (2 ∷ 4 ∷ 5 ∷ 0xB4 ∷ 1 ∷ 3 ∷ 3 ∷ 7 ∷ []) 8 3 ≡ some (some 5)
unfolding get_tlv_record find_record get_first_tlv_record get_next_tlv_record get_total_size
window_scale = refl

-- A record of length zero ends the list.
zero_length : get_tlv_record_count 4 (2 ∷ 4 ∷ 5 ∷ 0xB4 ∷ 3 ∷ 0 ∷ 7 ∷ []) 7 ≡ some 1
unfolding get_tlv_record_count count_records get_first_tlv_record get_next_tlv_record get_total_size
zero_length = refl

nop_built : build (record { rec_type = 1; rec_value = [] }) ≡ some (1 ∷ [])
unfolding build record_buffer
nop_built = refl

nop_not_built : build (record { rec_type = 1; rec_value = 5 ∷ [] }) ≡ none
unfolding build
nop_not_built = refl
