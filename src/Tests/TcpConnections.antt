-- ===== src/Tests/TcpConnections.antt =====
-- Runs of the life of a connection.
use pcap_plus_plus.Prelude.{
  ℕ, ◌+◌, ◌≡◌, refl, Bool, true, false, none, some, [], ◌∷◌, ◌++◌, ◌==◌, if◌then◌else◌, length,
  take,
}
use pcap_plus_plus.Prelude.Map.{lookup}
use pcap_plus_plus.Parsed.{ipv4}
use pcap_plus_plus.Lru.{has}
use pcap_plus_plus.Tcp.State.{
  ConnectionData, TcpReassemblyData, TcpReassembly, Config, side_0, create, new_side, no_time,
}
use pcap_plus_plus.Tcp.Connections.{
  close_connection, purge_closed_connections, purge_times, purge_keys, purge_key,
}
use pcap_plus_plus.Tcp.Reassembly.{handle_fin_or_rst}
use pcap_plus_plus.Tcp.Reassembly.Ending.{Ended, handle_fin_or_rst_ends}
use pcap_plus_plus.Tcp.Connections.Closing.{close_connection_closes}
use pcap_plus_plus.Tcp.Connections.Purging.{all_keys, due_keys, purge_closed_connections_purges}

abbrev config : Config
config = record {
  remove_conn_info = true;
  closed_connection_delay = 0;
  max_num_to_clean = 0;
  max_out_of_order_fragments = 0;
}

abbrev data_of : ℕ → ConnectionData
data_of key = record {
  src_ip = ipv4 1;
  dst_ip = ipv4 2;
  src_port = 80;
  dst_port = 81;
  flow_key = key;
  start_time = no_time;
  end_time = no_time;
}

-- A connection with one buffered fragment.
abbrev connection : Bool → ℕ → TcpReassemblyData
connection closed key = record {
  closed = closed;
  num_of_sides = 1;
  prev_side = some side_0;
  first = record new_side {
    sequence = 10;
    fragments = record { sequence = 13; payload = 1 ∷ 2 ∷ [] } ∷ [];
  };
  second = new_side;
  conn_data = data_of key;
}

abbrev open_connections : TcpReassembly
open_connections = record (create true true true config 0) {
  connection_list = (7, connection false 7) ∷ (8, connection false 8) ∷ [];
  connection_info = (7, data_of 7) ∷ (8, data_of 8) ∷ [];
}

found_7 : lookup 7 open_connections.connection_list ≡ some (connection false 7)
unfolding lookup
found_7 = refl

close_connection_closes_example :
    let r = open_connections in
    let q = close_connection r 7 100 in
    let expiry = 100 + r.closed_connection_delay in
    (d' : TcpReassemblyData) × (lookup 7 q.connection_list ≡ some d')
    × (d'.closed ≡ true)
    × (d'.first.fragments ≡ [])
    × (d'.second.fragments ≡ [])
    × (lookup 8 q.connection_list ≡ (if 7 == 8 then some d' else lookup 8 r.connection_list))
    × (lookup expiry q.cleanup_list
        ≡ some (7 ∷ elim (lookup expiry r.cleanup_list) [ none ↦ [] | some ks ↦ ks ]))
    × (close_connection q 7 200 ≡ q)
close_connection_closes_example =
    close_connection_closes open_connections 7 (connection false 7) 100 8 200 found_7 refl

-- Connection 7 is closed and its time is over.
abbrev expired : TcpReassembly
expired = record open_connections {
  connection_list = (7, connection true 7) ∷ (8, connection false 8) ∷ [];
  cleanup_list = (5, 7 ∷ []) ∷ [];
}

purged : (purge_closed_connections expired 0 6).1 ≡ 1
unfolding purge_closed_connections purge_times purge_keys purge_key create
purged = refl

purge_closed_connections_purges_example :
    let r = expired in
    let (q, count) = purge_closed_connections r 0 6 in
    let most = if 0 == 0 then r.max_num_to_clean else 0 in
    let purged = take most (due_keys 6 r.cleanup_list) in
    (count ≡ length purged)
    × (all_keys r.cleanup_list ≡ purged ++ all_keys q.cleanup_list)
    × (lookup 7 q.connection_list ≡ (if has 7 purged then none else lookup 7 r.connection_list))
    × (lookup 7 q.connection_info ≡ (if has 7 purged then none else lookup 7 r.connection_info))
purge_closed_connections_purges_example = purge_closed_connections_purges expired 0 6 7

-- The second side has seen FIN.
abbrev half_closed : TcpReassemblyData
half_closed = record (connection false 7) { second = record new_side { got_fin_or_rst = true } }

handle_fin_or_rst_ends_example :
    let q = handle_fin_or_rst open_connections half_closed side_0 7 100 in
    (d' : TcpReassemblyData) × (lookup 7 q.connection_list ≡ some d')
    × Ended d'.first
    × (d'.closed ≡ true)
handle_fin_or_rst_ends_example =
    handle_fin_or_rst_ends open_connections half_closed side_0 7 100 refl refl
