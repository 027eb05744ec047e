-- ===== src/Ip/Process/Capacity.antt =====
-- IPReassembly with no room for a packet.
use pcap_plus_plus.Prelude.{◌≡◌, refl, Bool, true, inl, inr, Option-cases, some, none}
use pcap_plus_plus.Lru.{empty_lru, put, pushed, has, last_or}
use pcap_plus_plus.Prelude.Map.{lookup}
use pcap_plus_plus.Ip.Fragment.{IpLayer, IpPacket, is_fragment, create_packet_key}
use pcap_plus_plus.Ip.Process.{create, process_packet, find_and_handle, add_new_fragment, forget}

no_room :
    (on_clean : Bool) (l : IpLayer) (p : IpPacket) → find_and_handle (create on_clean 0) l p ≡ none
unfolding find_and_handle create empty_lru lookup add_new_fragment put pushed has last_or forget
no_room on_clean l p = elim (Option-cases (create_packet_key l)) [
  | inl e ↦ rw (e, find_and_handle) refl
  | inr (key, e) ↦ rw (e, find_and_handle) refl
]

-- A new IPReassembly with a capacity of no packets uses an iterator at end() on any fragment.
pub process_packet_without_room :
    (on_clean : Bool) (l : IpLayer) (p : IpPacket)
    → p.layer ≡ some l
    → is_fragment l ≡ true
    → process_packet (create on_clean 0) p ≡ none
unfolding process_packet
process_packet_without_room on_clean l p e f = rw (e, process_packet) (rw f (no_room on_clean l p))
