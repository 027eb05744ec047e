-- ===== src/RawPacket/Ownership.antt =====
-- Assignment of one RawPacket to another, and what it owns afterwards.
use mathlib.Core.List.{append-nil}
use pcap_plus_plus.Prelude.{
  ℕ, ◌≡◌, refl, sym, ap, ◌∙◌, true, false, none, some, List, [], ◌++◌, length, replicate,
  length-replicate,
}
use pcap_plus_plus.RawPacket.{RawData, live, freed, RawPacket, free, copy_data_from, assign, clear}
use pcap_plus_plus.RawPacket.Buffers.{load_at, store_at}
use pcap_plus_plus.RawPacket.Edit.{Holds}

-- Assignment from a packet that is set, to one whose data has not been freed, copies its bytes into
-- a buffer of just that size, which the packet owns, and its other fields.
pub assign_copies :
    (p other : RawPacket) (c rest : List ℕ) (d : RawData)
    → free p.raw_data ≡ some d
    → Holds other c rest
    → other.raw_packet_set ≡ true
    → (q : RawPacket) × (assign p other ≡ some q)
      × Holds q c []
      × (q.delete_at_destructor ≡ true)
      × (q.raw_packet_set ≡ true)
      × (q.time_stamp ≡ other.time_stamp)
      × (q.link_layer_type ≡ other.link_layer_type)
      × (q.frame_length ≡ other.frame_length)
unfolding assign copy_data_from
assign_copies p other c rest d f (e, l) set =
    let n = other.raw_data_len in
    let loaded = load_at other.raw_data [] c rest 0 n e refl l in
    let zeros : List ℕ = replicate n 0 in
    let size : length c ≡ length zeros = sym l ∙ sym (length-replicate n 0) in
    let stored =
      store_at (live zeros) [] zeros [] c 0 (ap live (sym (append-nil zeros))) refl size in
    (
      record p {
        raw_data = live (c ++ []);
        raw_data_len = n;
        frame_length = other.frame_length;
        time_stamp = other.time_stamp;
        delete_at_destructor = true;
        raw_packet_set = true;
        link_layer_type = other.link_layer_type;
      },
      rw (f, assign, set, copy_data_from, loaded, copy_data_from, stored, copy_data_from) refl,
      (refl, l),
      refl,
      refl,
      refl,
      refl,
      refl,
    )

-- Assignment from a packet that is not set, to one with a buffer, leaves the pointer to the freed
-- buffer in it: the next clear frees it again.
pub assign_unset :
    (p other : RawPacket) (buf : List ℕ)
    → p.raw_data ≡ live buf
    → other.raw_packet_set ≡ false
    → (q : RawPacket) × (assign p other ≡ some q) × (q.raw_data ≡ freed) × (clear q ≡ none)
unfolding assign copy_data_from free clear
assign_unset p other buf e unset = (
  record p { raw_data = freed; raw_packet_set = false },
  rw (e, assign, unset, copy_data_from) refl,
  refl,
  refl,
)
