-- ===== src/Tests/Packets.antt =====
-- Runs of the packet hashes, the raw packet and the hexadecimal strings.
use pcap_plus_plus.Prelude.{
  ℕ, ◌+◌, ◌≡◌, refl, Bool, true, false, Option, none, some, List, [], ◌∷◌, arith, length, replicate,
  ◌==◌,
}
use pcap_plus_plus.Parsed.{Ipv4Header, Packet}
use pcap_plus_plus.Parsed.Endian.{bytes16}
use pcap_plus_plus.PacketUtils.Hash.{
  hash5_tuple, hash2_tuple, ports, hash5_buffers, hash5_addresses, fnv_hash, fnv_from, fnv_buffer,
}
use pcap_plus_plus.PacketUtils.Hash.Symmetry.{
  reverse, hash5_tuple-reverse, hash2_tuple-reverse, hash5_tuple_equal_ports,
}
use pcap_plus_plus.RawPacket.{
  set_packet_time_stamp, timeval_to_timespec, null, freed, free, assign, clear, RawPacket, live,
  insert_data, remove_data, append_data, reallocate_data,
}
use pcap_plus_plus.RawPacket.Edit.{
  Holds, append_data_appends, insert_data_inserts, remove_data_removes, remove_data-insert_data,
  reallocate_data_keeps,
}
use pcap_plus_plus.RawPacket.Ownership.{assign_copies, assign_unset}
use pcap_plus_plus.GeneralUtils.{byte_array_to_hex_string, hex_loop, hex_digit}

-- A packet with bytes 1, 2 and 3 in a buffer of six.
abbrev raw : RawPacket
raw = record {
  raw_data = live (1 ∷ 2 ∷ 3 ∷ 0 ∷ 0 ∷ 0 ∷ []);
  raw_data_len = 3;
  frame_length = 3;
  time_stamp = record { sec = 0; nsec = 0 };
  delete_at_destructor = true;
  raw_packet_set = true;
  link_layer_type = 1;
}

append_data_appends_example :
    (q : RawPacket) × (rest' : List ℕ) × (append_data raw (8 ∷ 9 ∷ []) ≡ some q)
    × Holds q (1 ∷ 2 ∷ 3 ∷ 8 ∷ 9 ∷ []) rest'
    × (length rest' + 2 ≡ 3)
append_data_appends_example =
    append_data_appends raw (1 ∷ 2 ∷ 3 ∷ []) (0 ∷ 0 ∷ 0 ∷ []) (8 ∷ 9 ∷ []) (refl, refl)
      (omega arith)

insert_data_inserts_example :
    (q : RawPacket) × (rest' : List ℕ) × (insert_data raw 1 (some (8 ∷ 9 ∷ [])) 2 ≡ some q)
    × Holds q (1 ∷ 8 ∷ 9 ∷ 2 ∷ 3 ∷ []) rest'
    × (length rest' + 2 ≡ 3)
insert_data_inserts_example =
    insert_data_inserts raw (1 ∷ []) (2 ∷ 3 ∷ []) (0 ∷ 0 ∷ 0 ∷ []) (8 ∷ 9 ∷ []) (refl, refl)
      (omega arith)

remove_data_removes_example :
    (q : RawPacket) × (rest' : List ℕ) × (remove_data raw 1 1 ≡ some (q, true))
    × Holds q (1 ∷ 3 ∷ []) rest'
    × (length rest' ≡ 3 + 1)
remove_data_removes_example =
    remove_data_removes raw (1 ∷ []) (2 ∷ []) (3 ∷ []) (0 ∷ 0 ∷ 0 ∷ []) (refl, refl)

remove_data-insert_data_example :
    (q q' : RawPacket) × (rest' : List ℕ) × (insert_data raw 1 (some (8 ∷ 9 ∷ [])) 2 ≡ some q)
    × (remove_data q 1 2 ≡ some (q', true))
    × Holds q' (1 ∷ 2 ∷ 3 ∷ []) rest'
    × (length rest' ≡ 3)
remove_data-insert_data_example =
    remove_data-insert_data raw (1 ∷ []) (2 ∷ 3 ∷ []) (0 ∷ 0 ∷ 0 ∷ []) (8 ∷ 9 ∷ []) (refl, refl)
      (omega arith)

reallocate_data_keeps_example :
    (q : RawPacket) × (rest' : List ℕ) × (reallocate_data raw 10 ≡ some (q, true))
    × Holds q (1 ∷ 2 ∷ 3 ∷ []) rest'
    × (length rest' + 3 ≡ 10)
    × (q.delete_at_destructor ≡ true)
reallocate_data_keeps_example =
    reallocate_data_keeps raw (1 ∷ 2 ∷ 3 ∷ []) (0 ∷ 0 ∷ 0 ∷ []) 10 (refl, refl) (omega arith)
      (omega arith)

-- The text 0aff
printed : byte_array_to_hex_string (10 ∷ 255 ∷ []) 0 ≡ b'0' ∷ b'a' ∷ b'f' ∷ b'f' ∷ []
unfolding byte_array_to_hex_string hex_loop hex_digit
printed = refl

abbrev header : Ipv4Header
header = record { ip_src = 9; ip_dst = 4; protocol = 17 }

-- A UDP packet over IPv4.
abbrev udp_packet : ℕ → ℕ → Packet
udp_packet src dst = record {
  is_ipv4 = true;
  is_ipv6 = false;
  is_icmp = false;
  is_tcp = false;
  is_udp = true;
  ipv4_layer = some header;
  ipv6_layer = none;
  tcp_layer = none;
  udp_layer = some (record { port_src = src; port_dst = dst });
  time_stamp = record { sec = 0; usec = 0 };
}

hash5_tuple-reverse_example :
    hash5_tuple (reverse (udp_packet 53 1024)) false ≡ hash5_tuple (udp_packet 53 1024) false
hash5_tuple-reverse_example = hash5_tuple-reverse (udp_packet 53 1024) header refl

hash2_tuple-reverse_example :
    hash2_tuple (reverse (udp_packet 53 1024)) ≡ hash2_tuple (udp_packet 53 1024)
hash2_tuple-reverse_example = hash2_tuple-reverse (udp_packet 53 1024) header refl

equal_ports : ports (udp_packet 53 53) ≡ some (53, 53)
unfolding ports
equal_ports = refl

hash5_tuple_equal_ports_example :
    hash5_tuple (reverse (udp_packet 53 53)) true ≡ hash5_tuple (udp_packet 53 53) true
hash5_tuple_equal_ports_example =
    hash5_tuple_equal_ports (udp_packet 53 53) header 53 refl equal_ports

-- The same over IPv6: the two directions get different values.
abbrev ipv6_packet : List ℕ → List ℕ → Packet
ipv6_packet src dst = record (udp_packet 53 53) {
  is_ipv4 = false;
  is_ipv6 = true;
  ipv4_layer = none;
  ipv6_layer = some (record { ip_src = src; ip_dst = dst; next_header = 17 });
}

abbrev same_hash : Option ℕ → Option ℕ → Bool
same_hash none o = false
same_hash (some a) none = false
same_hash (some a) (some b) = a == b

ipv6_directions :
    same_hash
      (hash5_tuple (ipv6_packet (replicate 16 1) (replicate 16 2)) false)
      (hash5_tuple (ipv6_packet (replicate 16 2) (replicate 16 1)) false)
    ≡ false
unfolding hash5_tuple ports hash5_buffers hash5_addresses fnv_hash fnv_from fnv_buffer bytes16
ipv6_directions = refl

-- A packet with no data.
abbrev unset : RawPacket
unset = record raw { raw_data = null; raw_data_len = 0; frame_length = 0; raw_packet_set = false }

no_old_data : free unset.raw_data ≡ some null
unfolding free
no_old_data = refl

assign_copies_example :
    (q : RawPacket) × (assign unset raw ≡ some q)
    × Holds q (1 ∷ 2 ∷ 3 ∷ []) []
    × (q.delete_at_destructor ≡ true)
    × (q.raw_packet_set ≡ true)
    × (q.time_stamp ≡ raw.time_stamp)
    × (q.link_layer_type ≡ raw.link_layer_type)
    × (q.frame_length ≡ raw.frame_length)
assign_copies_example =
    assign_copies unset raw (1 ∷ 2 ∷ 3 ∷ []) (0 ∷ 0 ∷ 0 ∷ []) null no_old_data (refl, refl) refl

assign_unset_example :
    (q : RawPacket) × (assign raw unset ≡ some q) × (q.raw_data ≡ freed) × (clear q ≡ none)
assign_unset_example = assign_unset raw unset (1 ∷ 2 ∷ 3 ∷ 0 ∷ 0 ∷ 0 ∷ []) refl refl

-- The times of a timeval are counted in nanoseconds.
stamped :
    set_packet_time_stamp raw (timeval_to_timespec (record { sec = 2; usec = 3 }))
    ≡ record raw { time_stamp = record { sec = 2; nsec = 3000 } }
unfolding set_packet_time_stamp timeval_to_timespec
stamped = refl
