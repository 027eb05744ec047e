-- ===== src/Ip/Process.antt =====
-- IPReassembly::processPacket, addNewFragment, getCurrentPacket and removePacket. The result none
-- stands for a use of end() or NULL, where the source has no behaviour. A reassembled packet is
-- given by its bytes and its final offset, before the rewriting of its headers.
pub mod Invariant
pub mod Capacity
pub mod Gathering
pub mod Steps
pub mod Liveness
use pcap_plus_plus.Prelude.{
  ℕ, ◌+◌, ◌%◌, ◌≡◌, Bool, true, false, not, Option, none, some, List, [], ◌∷◌, ◌++◌, ltb, ◌==◌,
  if◌then◌else◌, length,
}
use pcap_plus_plus.Prelude.Map.{Map, lookup, insert, erase}
use pcap_plus_plus.Lru.{LruList, empty_lru, put, erase_element}
use pcap_plus_plus.Ip.Fragment.{
  IpLayer, IpPacket, PacketKey, is_fragment, is_first_fragment, is_last_fragment,
  get_fragment_offset, hash_packet, create_packet_key, get_hash_value,
}
use pcap_plus_plus.Ip.Match.{IpFragment, Matching, advance, match_out_of_order_fragments}

pub data ReassemblyStatus : Type 0 where
  non_ip_packet non_fragment first_fragment fragment : ReassemblyStatus
  out_of_order_fragment malformed_fragment reassembled : ReassemblyStatus

pub record IpFragmentData : Type 0 where
  pub current_offset : ℕ
  pub raw : Option (List ℕ)
  pub packet_key : PacketKey
  pub waiting : List IpFragment

-- The keys that OnFragmentsClean was called with stand in cleaned, oldest first.
pub record IpReassembly : Type 0 where
  pub packet_lru : LruList
  pub fragment_map : Map IpFragmentData
  pub on_fragments_clean : Bool
  pub cleaned : List PacketKey

unfoldable pub create : Bool → ℕ → IpReassembly
create on_clean max_packets = record {
  packet_lru = empty_lru max_packets;
  fragment_map = [];
  on_fragments_clean = on_clean;
  cleaned = [];
}

-- What processPacket returns: the packet it was given, NULL, or a new packet.
pub data Returned : Type 0 where
  given : Returned
  null : Returned
  packet : List ℕ → ℕ → Returned

pub record Outcome : Type 0 where
  pub state : IpReassembly
  pub status : ReassemblyStatus
  pub returned : Returned

unfoldable pub new_data : PacketKey → IpFragmentData
new_data key = record { current_offset = 0; raw = none; packet_key = key; waiting = [] }

-- The removal of the least recently used packet from the map, with its callback.
unfoldable pub forget : IpReassembly → ℕ → Option IpReassembly
forget r hash = elim (lookup hash r.fragment_map) [
  | none ↦ none
  | some old ↦ some (record r {
    fragment_map = erase hash r.fragment_map;
    cleaned = if r.on_fragments_clean then r.cleaned ++ old.packet_key ∷ [] else r.cleaned;
  })
]

unfoldable pub add_new_fragment : IpReassembly → ℕ → IpFragmentData → Option IpReassembly
add_new_fragment r hash d =
    let (lru, removed) = put r.packet_lru hash in
    let r' = record r { packet_lru = lru } in
    let room : Option IpReassembly = elim removed [ none ↦ some r' | some old ↦ forget r' old ] in
    elim room [
      | none ↦ none
      | some q ↦ some (record q { fragment_map = insert hash d q.fragment_map })
    ]

-- A change through the pointer to the entry of a hash.
unfoldable pub store : IpReassembly → ℕ → IpFragmentData → IpReassembly
store r hash d = record r { fragment_map = insert hash d r.fragment_map }

-- The last fragment is in: the entry leaves the map and the list. The iterator is end() if the
-- entry is new. The rewriting of the packet's headers, which the source does before, is left out.
unfoldable pub complete : IpReassembly → ℕ → Bool → List ℕ → ℕ → Option Outcome
complete r hash is_new raw offset =
    if is_new
    then none
    else some (record {
      state = record r {
        fragment_map = erase hash r.fragment_map;
        packet_lru = erase_element r.packet_lru hash;
      };
      status = reassembled;
      returned = packet raw offset;
    })

-- After the packet's bytes were extended: the waiting fragments are matched, unless this was the
-- last fragment, and the packet is completed if the last one is in.
unfoldable pub extended :
    IpReassembly → ℕ → Bool → IpFragmentData → List ℕ → ℕ → Bool → ReassemblyStatus → Option Outcome
extended r hash is_new d raw offset is_last status =
    let m = match_out_of_order_fragments offset raw d.waiting in
    let d' = record d {
      current_offset = m.current_offset;
      raw = some m.raw;
      waiting = m.waiting;
    } in
    if is_last
    then complete r hash is_new raw offset
    else if m.found_last
    then complete (store r hash d') hash is_new m.raw m.current_offset
    else some (record { state = store r hash d'; status = status; returned = null })

-- The packet's entry is there; is_new says that it has just been made.
unfoldable pub handle_fragment :
    IpReassembly → ℕ → Bool → IpFragmentData → IpLayer → IpPacket → Option Outcome
handle_fragment r hash is_new d l p =
    let offset = get_fragment_offset l in
    let unchanged : ReassemblyStatus → Option Outcome =
      λ status. some (record { state = r; status = status; returned = null }) in
    let f : IpFragment = record {
      fragment_offset = offset;
      last_fragment = is_last_fragment l;
      fragment_data = p.payload;
    } in
    if is_first_fragment l
    then elim d.raw [
      | none ↦ extended r hash is_new d p.raw (length p.payload % 0x1_0000) false first_fragment
      | some raw ↦ unchanged fragment
    ]
    else if d.current_offset == offset
    then elim d.raw [
      | none ↦ unchanged malformed_fragment
      | some raw ↦
          extended r hash is_new d (raw ++ p.payload) (advance d.current_offset (length p.payload))
            (is_last_fragment l) fragment
    ]
    else if ltb d.current_offset offset
    then some (record {
      state = store r hash (record d { waiting = d.waiting ++ f ∷ [] });
      status = out_of_order_fragment;
      returned = null;
    })
    else unchanged fragment

-- From the search of the entry on.
unfoldable pub find_and_handle : IpReassembly → IpLayer → IpPacket → Option Outcome
find_and_handle r l p =
    let hash = hash_packet l in
    elim (lookup hash r.fragment_map) [
      | some d ↦
          handle_fragment (record r { packet_lru = (put r.packet_lru hash).0 }) hash false d l p
      | none ↦ elim (create_packet_key l) [
        | none ↦ none
        | some key ↦ elim (add_new_fragment r hash (new_data key)) [
          | none ↦ none
          | some r' ↦ handle_fragment r' hash true (new_data key) l p
        ]
      ]
    ]

unfoldable pub process_packet : IpReassembly → IpPacket → Option Outcome
process_packet r p = elim p.layer [
  | none ↦ some (record { state = r; status = non_ip_packet; returned = given })
  | some l ↦
      if is_fragment l
      then find_and_handle r l p
      else some (record { state = r; status = non_fragment; returned = given })
]

-- The bytes and the offset of the packet that getCurrentPacket builds, if there are any.
unfoldable pub get_current_packet : IpReassembly → PacketKey → Option (List ℕ × ℕ)
get_current_packet r key = elim (lookup (get_hash_value key) r.fragment_map) [
  | none ↦ none
  | some d ↦ elim d.raw [ none ↦ none | some raw ↦ some (raw, d.current_offset) ]
]

unfoldable pub remove_packet : IpReassembly → PacketKey → IpReassembly
remove_packet r key =
    let hash = get_hash_value key in
    elim (lookup hash r.fragment_map) [
      | none ↦ r
      | some d ↦ record r {
        fragment_map = erase hash r.fragment_map;
        packet_lru = erase_element r.packet_lru hash;
      }
    ]
