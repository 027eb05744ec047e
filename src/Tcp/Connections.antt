-- ===== src/Tcp/Connections.antt =====
-- The life of a connection: closeConnection, closeAllConnections, the cleanup list and the purge.
pub mod Closing
pub mod Purging
use pcap_plus_plus.Prelude.{
  ℕ, ◌+◌, ◌-◌, ◌≡◌, Bool, true, false, not, ◌&&◌, Option, none, some, List, [], ◌∷◌, ltb, leb, ◌==◌,
  if◌then◌else◌,
}
use pcap_plus_plus.Prelude.Map.{Map, lookup, insert, erase}
use pcap_plus_plus.Tcp.State.{
  TcpReassembly, TcpReassemblyData, ConnectionData, ConnectionEndReason, closed_manually, Side,
  side_0, side_1, store, send_messages, send_end, checked_data, checked_messages,
}

unfoldable pub insert_into_cleanup_list : TcpReassembly → ℕ → ℕ → TcpReassembly
insert_into_cleanup_list r key now =
    let expiry = now + r.closed_connection_delay in
    let keys : List ℕ = elim (lookup expiry r.cleanup_list) [ none ↦ [] | some ks ↦ ks ] in
    record r { cleanup_list = insert expiry (key ∷ keys) r.cleanup_list }

-- What closing does to a connection: both sides are cleaned, then it is marked.
unfoldable pub closed_data : ℕ → TcpReassemblyData → TcpReassemblyData
closed_data limit d = record (checked_data limit true (checked_data limit true d side_0) side_1) {
  closed = true;
}

-- The body that closeConnectionInternal and closeAllConnections share.
unfoldable pub close_entry :
    TcpReassembly → ℕ → TcpReassemblyData → ℕ → ConnectionEndReason → ℕ → TcpReassembly
close_entry r key d flow_key reason now =
    let limit = r.max_out_of_order_fragments in
    let d' = checked_data limit true d side_0 in
    let r₁ = send_messages r side_0 d.conn_data (checked_messages limit true d side_0) in
    let r₂ = send_messages r₁ side_1 d.conn_data (checked_messages limit true d' side_1) in
    let r₃ = send_end r₂ d.conn_data reason in
    insert_into_cleanup_list (store r₃ key (closed_data limit d)) flow_key now

unfoldable pub close_connection_internal :
    TcpReassembly → ℕ → ConnectionEndReason → ℕ → TcpReassembly
close_connection_internal r key reason now = elim (lookup key r.connection_list) [
  | none ↦ r
  | some d ↦ if d.closed then r else close_entry r key d key reason now
]

unfoldable pub close_connection : TcpReassembly → ℕ → ℕ → TcpReassembly
close_connection r key now = close_connection_internal r key closed_manually now

-- The loop of closeAllConnections over the entries from the iterator on.
unfoldable pub close_entries : TcpReassembly → ℕ → Map TcpReassemblyData → TcpReassembly
close_entries r now [] = r
close_entries r now ((key, d) ∷ rest) =
    close_entries
      (if d.closed then r else close_entry r key d d.conn_data.flow_key closed_manually now) now
      rest

unfoldable pub close_all_connections : TcpReassembly → ℕ → TcpReassembly
close_all_connections r now = close_entries r now r.connection_list

-- none for -1: the connection is not there.
unfoldable pub is_connection_open : TcpReassembly → ConnectionData → Option Bool
is_connection_open r c = elim (lookup c.flow_key r.connection_list) [
  | none ↦ none
  | some d ↦ some (not d.closed)
]

-- What purgeClosedConnections works on.
pub record Purge : Type 0 where
  pub connections : Map TcpReassemblyData
  pub infos : Map ConnectionData
  pub count : ℕ

unfoldable pub purge_key : ℕ → Purge → Purge
purge_key key p = record {
  connections = erase key p.connections;
  infos = erase key p.infos;
  count = p.count + 1;
}

-- The inner loop over one list of keys: the keys that stay, and what was purged.
unfoldable pub purge_keys : ℕ → List ℕ → Purge → List ℕ × Purge
purge_keys most [] p = ([], p)
purge_keys most (key ∷ keys) p =
    let rest = purge_keys most keys (purge_key key p) in
    if ltb p.count most then rest else (key ∷ keys, p)

-- The outer loop, over the cleanup list up to its upper bound of now.
unfoldable pub purge_times : ℕ → ℕ → Map (List ℕ) → Purge → Map (List ℕ) × Purge
purge_times now most [] p = ([], p)
purge_times now most ((time, keys) ∷ more) p =
    let (left, p') = purge_keys most keys p in
    let (more', q) = purge_times now most more p' in
    let kept : Map (List ℕ) = elim left [ [] ↦ more' | k ∷ ks ↦ (time, k ∷ ks) ∷ more' ] in
    if leb time now && ltb p.count most then (kept, q) else ((time, keys) ∷ more, p)

unfoldable pub purge_closed_connections : TcpReassembly → ℕ → ℕ → TcpReassembly × ℕ
purge_closed_connections r max_num_to_clean now =
    let most = if max_num_to_clean == 0 then r.max_num_to_clean else max_num_to_clean in
    let start : Purge = record {
      connections = r.connection_list;
      infos = r.connection_info;
      count = 0;
    } in
    let (left, p) = purge_times now most r.cleanup_list start in
    (
      record r { connection_list = p.connections; connection_info = p.infos; cleanup_list = left },
      p.count,
    )
