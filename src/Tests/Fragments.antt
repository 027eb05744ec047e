-- ===== src/Tests/Fragments.antt =====
-- Runs of the IP reassembly and its LRU list.
use pcap_plus_plus.Prelude.{
  ℕ, ◌<◌, ◌≤◌, ◌≡◌, ◌≢◌, ◌⊎◌, inl, inr, refl, true, false, none, some, List, [], ◌∷◌, ◌++◌, arith,
  length, All, replicate,
}
use pcap_plus_plus.Parsed.Endian.{swap16}
use pcap_plus_plus.Prelude.Map.{lookup}
use pcap_plus_plus.Ip.Match.Progress.{StartsAt}
use mathlib.Core.List.{map}
use pcap_plus_plus.Lru.{LruList, put, remove, drop_last, last_or, has}
use pcap_plus_plus.Lru.Laws.{LruOk, put_lem}
use pcap_plus_plus.Ip.Fragment.{
  IpLayer, over_ipv4, IpPacket, PacketKey, create_packet_key, get_hash_value, hash_packet,
  is_fragment, ipv4_is_fragment, ipv4_more_fragments, ipv4_fragment_flags, get_fragment_offset,
  ipv4_fragment_offset, is_last_fragment, ipv4_is_last_fragment,
}
use pcap_plus_plus.Ip.Fragment.Keys.{get_hash_value-create_packet_key}
use pcap_plus_plus.Ip.Match.{
  IpFragment, match_out_of_order_fragments, match_loop, match_scan, advance,
}
use pcap_plus_plus.Ip.Match.Payload.{Cut, Assembled, match_out_of_order_fragments_assembles}
use pcap_plus_plus.Ip.Process.{IpReassembly, Outcome, create, process_packet}
use pcap_plus_plus.Ip.Process.Invariant.{
  IpOk, Call, process, remove_key, run, run-create, create-IpOk,
}
use pcap_plus_plus.Ip.Process.Gathering.{arriving, Piece, Reassembles}
use pcap_plus_plus.Ip.Process.Liveness.{process_packet-Reassembles}
use pcap_plus_plus.Ip.Process.Capacity.{process_packet_without_room}

-- A payload of 24 bytes in three fragments, of which the last two wait.
abbrev payload : List ℕ
payload = replicate 8 1 ++ (replicate 8 2 ++ replicate 8 3)

abbrev waiting : List IpFragment
waiting =
    record { fragment_offset = 16; last_fragment = true; fragment_data = replicate 8 3 }
    ∷ record { fragment_offset = 8; last_fragment = false; fragment_data = replicate 8 2 }
    ∷ []

waiting-Cut : All (Cut payload) waiting
waiting-Cut = (
  record { inside = omega arith; data_of = refl; ends = inr refl },
  (record { inside = omega arith; data_of = refl; ends = inl refl }, tt),
)

-- Both are taken up, in two rounds.
all_matched : (match_out_of_order_fragments 8 (replicate 8 1) waiting).raw ≡ payload
unfolding match_out_of_order_fragments match_loop match_scan advance
all_matched = refl

match_out_of_order_fragments_assembles_example :
    let m = match_out_of_order_fragments 8 (9 ∷ replicate 8 1) waiting in
    Assembled payload (9 ∷ []) m.current_offset m.raw
    × (8 ≤ m.current_offset)
    × All (Cut payload) m.waiting
    × (((m.found_last ≡ true) × (m.current_offset ≡ length payload))
        ⊎ All (λ f. m.current_offset ≢ f.fragment_offset) m.waiting)
match_out_of_order_fragments_assembles_example =
    match_out_of_order_fragments_assembles payload (omega arith) (9 ∷ []) 8 (9 ∷ replicate 8 1)
      waiting (omega arith, refl) waiting-Cut

-- An IPv4 fragment: the first one has the more fragments flag, the last one an offset.
abbrev layer_of : ℕ → IpLayer
layer_of offset = over_ipv4 (record { ip_src = 1; ip_dst = 2; ip_id = 7; fragment_offset = offset })

abbrev packet_of : ℕ → List ℕ → IpPacket
packet_of offset bytes = record {
  layer = some (layer_of offset);
  payload = bytes;
  raw = 69 ∷ bytes;
}

abbrev key_7 : PacketKey
key_7 = PacketKey.ipv4_key 0x700 1 2

created : create_packet_key (layer_of 0x20) ≡ some key_7
unfolding create_packet_key swap16
created = refl

get_hash_value-create_packet_key_example : get_hash_value key_7 ≡ hash_packet (layer_of 0x20)
get_hash_value-create_packet_key_example =
    get_hash_value-create_packet_key (layer_of 0x20) key_7 (omega arith) created

abbrev history : List Call
history =
    process (packet_of 0x100 (replicate 8 2))
    ∷ process (packet_of 0x20 (replicate 8 1))
    ∷ remove_key key_7
    ∷ process (packet_of 0x20 (replicate 8 1))
    ∷ []

run-create_example : (q : IpReassembly) × (run (create true 2) history ≡ some q) × IpOk 2 q
run-create_example = run-create true 2 history (omega arith)

fragment_20 : is_fragment (layer_of 0x20) ≡ true
unfolding is_fragment ipv4_is_fragment ipv4_more_fragments ipv4_fragment_flags
fragment_20 = refl

process_packet_without_room_example :
    process_packet (create false 0) (packet_of 0x20 (replicate 8 1)) ≡ none
process_packet_without_room_example =
    process_packet_without_room false (layer_of 0x20) (packet_of 0x20 (replicate 8 1)) refl
      fragment_20

abbrev two_items : LruList
two_items = record { items = 4 ∷ 5 ∷ []; keys = 5 ∷ 4 ∷ []; max_size = 2 }

two_items-LruOk : LruOk two_items
unfolding has
two_items-LruOk = record {
  distinct = (refl, (refl, tt));
  keys_distinct = (refl, (refl, tt));
  agree = λ k. ground arith;
  sizes = refl;
  fits = omega arith;
}

put_lem_example :
    let recent = 6 ∷ remove 6 two_items.items in
    LruOk (put two_items 6).0
    × (((length recent ≤ 2) × ((put two_items 6).0.items ≡ recent) × ((put two_items 6).1 ≡ none))
        ⊎ ((2 < length recent)
            × ((put two_items 6).0.items ≡ drop_last recent)
            × ((put two_items 6).1 ≡ some (last_or 6 recent))))
put_lem_example = put_lem two_items 6 two_items-LruOk

-- The payload in three packets: the last one, the first one and the one between them.
abbrev arrivals : List IpPacket
arrivals =
    packet_of 0x200 (replicate 8 3)
    ∷ packet_of 0x20 (replicate 8 1)
    ∷ packet_of 0x120 (replicate 8 2)
    ∷ []

abbrev hash_7 : ℕ
hash_7 = hash_packet (layer_of 0x20)

first_starts : StartsAt 0 (arriving arrivals)
unfolding get_fragment_offset ipv4_fragment_offset swap16
first_starts = inr (inl refl)

arrivals-Piece : All (Piece payload (69 ∷ []) (λ k. StartsAt k (arriving arrivals)) hash_7) arrivals
unfolding get_fragment_offset ipv4_fragment_offset swap16 is_fragment ipv4_is_fragment
    ipv4_more_fragments ipv4_fragment_flags is_last_fragment ipv4_is_last_fragment hash_packet
arrivals-Piece = (
  record {
    l = layer_of 0x200;
    has_layer = refl;
    fragmented = refl;
    same_packet = refl;
    part = record {
      cut = record { inside = omega arith; data_of = refl; ends = inr refl };
      filled = omega arith;
      next = λ e. cc;
    };
    starts = λ e. absurd (omega arith);
  },
  (
    record {
      l = layer_of 0x20;
      has_layer = refl;
      fragmented = refl;
      same_packet = refl;
      part = record {
        cut = record { inside = omega arith; data_of = refl; ends = inl refl };
        filled = omega arith;
        next = λ e. inr (inr (inl refl));
      };
      starts = λ e. (refl, refl);
    },
    (
      record {
        l = layer_of 0x120;
        has_layer = refl;
        fragmented = refl;
        same_packet = refl;
        part = record {
          cut = record { inside = omega arith; data_of = refl; ends = inl refl };
          filled = omega arith;
          next = λ e. inl refl;
        };
        starts = λ e. absurd (omega arith);
      },
      tt,
    ),
  ),
)

nothing_has_come : lookup hash_7 (create true 2).fragment_map ≡ none
unfolding create lookup
nothing_has_come = refl

process_packet-Reassembles_example :
    (before after : List IpPacket) × (p : IpPacket) × (q : IpReassembly) × (o : Outcome) × (arrivals
      ≡ before ++ p ∷ after)
    × (run (create true 2) (map process before) ≡ some q)
    × (process_packet q p ≡ some o)
    × Reassembles payload (69 ∷ []) hash_7 o
process_packet-Reassembles_example =
    process_packet-Reassembles 2 (create true 2) payload (69 ∷ []) hash_7 arrivals (omega arith)
      (create-IpOk true 2) nothing_has_come (omega arith) first_starts arrivals-Piece
