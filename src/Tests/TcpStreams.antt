-- ===== src/Tests/TcpStreams.antt =====
-- Runs of the TCP stream reassembly.
use pcap_plus_plus.Prelude.{
  ℕ, ◌%◌, ◌≤◌, ◌≡◌, refl, ◌⊎◌, Bool, true, false, none, some, List, [], ◌∷◌, arith, length, All,
}
use pcap_plus_plus.Prelude.Words.{IsU32, add32, sub32}
use pcap_plus_plus.Prelude.Map.{Every}
use pcap_plus_plus.Parsed.{ipv4, Timeval, Packet}
use pcap_plus_plus.Tcp.Fragments.{
  Fragment, check_fragments, check_loop, drain, scan, visit, closest, closest_from, skip_to,
  may_wait, missing_data_message,
}
use pcap_plus_plus.Tcp.Seq.{seq_lt, seq_gt}
use pcap_plus_plus.Prelude.Text.{decimal}
use pcap_plus_plus.Tcp.Fragments.Loops.{Waits}
use pcap_plus_plus.Tcp.Fragments.Bounds.{check_fragments_ends}
use pcap_plus_plus.Tcp.Fragments.Stream.{Matches, Delivers, Genuine, check_fragments-Delivers}
use pcap_plus_plus.Tcp.State.{
  ConnectionData, TcpReassemblyData, TcpReassembly, Config, side_0, create, new_side, no_time,
}
use pcap_plus_plus.Tcp.Reassembly.{Arrival, handle_data}
use pcap_plus_plus.Tcp.Reassembly.Delivery.{Delivered, handle_data_delivers}
use pcap_plus_plus.Tcp.Invariant.Operations.{
  Call, reassemble, close, purge, run, Sound, run-create-Invariant,
}

-- The sender's bytes.
abbrev bytes : ℕ → ℕ
bytes p = p % 256

abbrev fragment_at : ℕ → List ℕ → Fragment
fragment_at s p = record { sequence = s; payload = p }

abbrev late : List Fragment
late = fragment_at 13 (13 ∷ 14 ∷ []) ∷ fragment_at 10 (10 ∷ 11 ∷ 12 ∷ []) ∷ []

late-Genuine : All (Genuine bytes) late
unfolding add32
late-Genuine = ((omega arith, (refl, (refl, tt))), ((omega arith, (refl, (refl, (refl, tt)))), tt))

-- One missing byte is announced, then both fragments follow.
late_sequence : (check_fragments true 0 9 late).sequence ≡ 15
unfolding check_fragments check_loop drain scan visit closest closest_from skip_to may_wait
    missing_data_message seq_lt seq_gt add32 sub32 decimal
late_sequence = refl

check_fragments-Delivers_example :
    let q = check_fragments true 0 9 late in
    IsU32 q.sequence × Delivers bytes 9 q.sent q.sequence × All (Genuine bytes) q.fragments
check_fragments-Delivers_example =
    check_fragments-Delivers bytes true 0 9 late (omega arith) late-Genuine

check_fragments_ends_example :
    let limit : ℕ = 1 in
    let q = check_fragments false limit 9 late in
    IsU32 q.sequence
    × All (Waits q.sequence) q.fragments
    × (length q.fragments ≤ 2)
    × ((q.fragments ≡ []) ⊎ ((false ≡ false) × ((limit ≡ 0) ⊎ (length q.fragments ≤ limit))))
check_fragments_ends_example = check_fragments_ends false 1 9 late (omega arith)

abbrev time_at : ℕ → Timeval
time_at s = record { sec = s; usec = 0 }

abbrev config : Config
config = record {
  remove_conn_info = true;
  closed_connection_delay = 5;
  max_num_to_clean = 0;
  max_out_of_order_fragments = 1;
}

abbrev no_connections : TcpReassembly
no_connections = create true true true config 0

abbrev data_7 : ConnectionData
data_7 = record {
  src_ip = ipv4 1;
  dst_ip = ipv4 2;
  src_port = 80;
  dst_port = 81;
  flow_key = 7;
  start_time = no_time;
  end_time = no_time;
}

-- A connection whose first side expects byte 10 and has buffered bytes 13 and 14.
abbrev half : TcpReassemblyData
half = record {
  closed = false;
  num_of_sides = 1;
  prev_side = some side_0;
  first = record new_side { sequence = 10; fragments = fragment_at 13 (13 ∷ 14 ∷ []) ∷ [] };
  second = new_side;
  conn_data = data_7;
}

-- The bytes from 8 to 12.
abbrev arrival : Arrival
arrival = record {
  src_ip = ipv4 1;
  dst_ip = ipv4 2;
  src_port = 80;
  dst_port = 81;
  sequence = 8;
  syn = false;
  fin_or_rst = false;
  payload = 8 ∷ 9 ∷ 10 ∷ 11 ∷ 12 ∷ [];
  flow_key = 7;
  time_stamp = no_time;
}

half-Genuine : IsU32 10 × All (Genuine bytes) (fragment_at 13 (13 ∷ 14 ∷ []) ∷ [])
unfolding add32
half-Genuine = (omega arith, ((omega arith, (refl, (refl, tt))), tt))

arrival-Matches : Matches bytes 8 (8 ∷ 9 ∷ 10 ∷ 11 ∷ 12 ∷ [])
unfolding add32
arrival-Matches = (refl, (refl, (refl, (refl, (refl, tt)))))

handle_data_delivers_example :
    Delivered bytes no_connections half side_0 7
      (handle_data no_connections half side_0 false arrival 0).0
handle_data_delivers_example =
    handle_data_delivers bytes no_connections half side_0 arrival 0 half-Genuine (omega arith)
      arrival-Matches refl refl

abbrev packet_of : ℕ → Bool → Bool → List ℕ → Packet
packet_of seq syn fin payload = record {
  is_ipv4 = true;
  is_ipv6 = false;
  is_icmp = false;
  is_tcp = true;
  is_udp = false;
  ipv4_layer = some (record { ip_src = 1; ip_dst = 2; protocol = 6 });
  ipv6_layer = none;
  tcp_layer = some (record {
    port_src = 80;
    port_dst = 81;
    sequence_number = seq;
    syn_flag = syn;
    fin_flag = fin;
    rst_flag = false;
    payload = payload;
  });
  udp_layer = none;
  time_stamp = time_at 3;
}

abbrev history : List (ℕ × Call)
history =
    (0, reassemble (packet_of 0 true false []))
    ∷ (1, reassemble (packet_of 0x500_0000 false false (5 ∷ [])))
    ∷ (2, reassemble (packet_of 0x100_0000 false true (1 ∷ [])))
    ∷ (3, close 7)
    ∷ (9, purge 0)
    ∷ []

run-create-Invariant_example :
    Every (Sound 1) (run (create true true true config 0) history).connection_list
run-create-Invariant_example = run-create-Invariant true true true config 0 history
