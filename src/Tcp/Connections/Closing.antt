-- ===== src/Tcp/Connections/Closing.antt =====
-- What closeConnection leaves behind.
use pcap_plus_plus.Prelude.{
  ℕ, ◌+◌, ◌≡◌, refl, ap, ◌∙◌, true, false, none, some, [], ◌∷◌, arith, ◌==◌, if◌then◌else◌,
}
use pcap_plus_plus.Prelude.Map.{lookup, insert, lookup-insert, lookup-insert_self}
use pcap_plus_plus.Tcp.Fragments.Bounds.{check_fragments_settles}
use pcap_plus_plus.Tcp.State.{
  TcpReassembly, TcpReassemblyData, ConnectionEndReason, closed_manually, store, send_messages,
  send_end, checked_side, checked_data,
}
use pcap_plus_plus.Tcp.Connections.{
  insert_into_cleanup_list, closed_data, close_entry, close_connection_internal, close_connection,
}

pub closed_data_lem :
    (limit : ℕ) (d : TcpReassemblyData)
    → let q = closed_data limit d in
      (q.closed ≡ true) × (q.first.fragments ≡ []) × (q.second.fragments ≡ [])
unfolding closed_data checked_data checked_side
closed_data_lem limit d = (
  refl,
  (check_fragments_settles true limit d.first.sequence d.first.fragments).2 refl,
  (check_fragments_settles true limit d.second.sequence d.second.fragments).2 refl,
)

pub close_entry_connections :
    (r : TcpReassembly) (key : ℕ) (d : TcpReassemblyData) (reason : ConnectionEndReason) (now : ℕ)
    → let q = close_entry r key d key reason now in
      (q.connection_list
        ≡ insert key (closed_data r.max_out_of_order_fragments d) r.connection_list)
      × (q.cleanup_list
          ≡ insert
              (now + r.closed_connection_delay)
              (key ∷ elim (lookup (now + r.closed_connection_delay) r.cleanup_list) [
                | none ↦ []
                | some ks ↦ ks
              ])
              r.cleanup_list)
unfolding close_entry insert_into_cleanup_list store send_end send_messages
close_entry_connections r key d reason now = ground arith

pub close_open :
    (r : TcpReassembly) (key : ℕ) (d : TcpReassemblyData) (reason : ConnectionEndReason) (now : ℕ)
    → lookup key r.connection_list ≡ some d
    → d.closed ≡ false
    → close_connection_internal r key reason now ≡ close_entry r key d key reason now
unfolding close_connection_internal
close_open r key d reason now e o = rw (e, close_connection_internal) (rw o)

close_closed :
    (r : TcpReassembly) (key : ℕ) (d : TcpReassemblyData) (reason : ConnectionEndReason) (now : ℕ)
    → lookup key r.connection_list ≡ some d
    → d.closed ≡ true
    → close_connection_internal r key reason now ≡ r
unfolding close_connection_internal
close_closed r key d reason now e c = rw (e, close_connection_internal) (rw c)

-- closeConnection of a connection that is there and not closed leaves its entry closed with nothing
-- buffered on either side, and every other entry as it was; the key is put in front of the cleanup
-- list's keys for the time closedConnectionDelay from now; closing the connection again, at any
-- time, changes nothing.
pub close_connection_closes :
    (r : TcpReassembly) (key : ℕ) (d : TcpReassemblyData) (now j later : ℕ)
    → lookup key r.connection_list ≡ some d
    → d.closed ≡ false
    → let q = close_connection r key now in
      let expiry = now + r.closed_connection_delay in
      (d' : TcpReassemblyData) × (lookup key q.connection_list ≡ some d')
      × (d'.closed ≡ true)
      × (d'.first.fragments ≡ [])
      × (d'.second.fragments ≡ [])
      × (lookup j q.connection_list ≡ (if key == j then some d' else lookup j r.connection_list))
      × (lookup expiry q.cleanup_list
          ≡ some (key ∷ elim (lookup expiry r.cleanup_list) [ none ↦ [] | some ks ↦ ks ]))
      × (close_connection q key later ≡ q)
unfolding close_connection
close_connection_closes r key d now j later e o =
    let limit = r.max_out_of_order_fragments in
    let q = close_entry r key d key closed_manually now in
    let (l, c) = close_entry_connections r key d closed_manually now in
    let (closed, first, second) = closed_data_lem limit d in
    let entry =
      ap (lookup key) l ∙ lookup-insert_self key (closed_data limit d) r.connection_list in
    rw (close_open r key d closed_manually now e o) (
      closed_data limit d,
      entry,
      closed,
      first,
      second,
      ap (lookup j) l ∙ lookup-insert key j (closed_data limit d) r.connection_list,
      ap (lookup (now + r.closed_connection_delay)) c ∙ lookup-insert_self _ _ r.cleanup_list,
      close_closed q key (closed_data limit d) closed_manually later entry closed,
    )
