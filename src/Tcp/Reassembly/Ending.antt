-- ===== src/Tcp/Reassembly/Ending.antt =====
-- How FIN and RST end a connection.
use pcap_plus_plus.Prelude.{ℕ, ◌≡◌, refl, sym, ap, ◌∙◌, true, false, some, [], Bool-cases, inl, inr}
use pcap_plus_plus.Prelude.Map.{lookup, lookup-insert_self}
use pcap_plus_plus.Tcp.Fragments.Bounds.{check_fragments_settles}
use pcap_plus_plus.Tcp.State.{
  OneSideData, TcpReassemblyData, TcpReassembly, Side, side_0, side_1, closed_by_fin_rst, get_side,
  set_side, other_side, store, send_messages, checked_side, checked_data, checked_messages,
}
use pcap_plus_plus.Tcp.Connections.{closed_data}
use pcap_plus_plus.Tcp.Connections.Closing.{closed_data_lem, close_entry_connections, close_open}
use pcap_plus_plus.Tcp.Reassembly.{handle_fin_or_rst}

-- A side that has seen FIN or RST and buffers nothing.
abbrev pub Ended : OneSideData → Type 0
Ended s = (s.got_fin_or_rst ≡ true) × (s.fragments ≡ [])

abbrev marked : TcpReassemblyData → Side → TcpReassemblyData
marked d side = set_side d side (record (get_side d side) { got_fin_or_rst = true })

closed-Ended :
    (limit : ℕ) (d : TcpReassemblyData) (side : Side)
    → Ended (get_side (closed_data limit (marked d side)) side)
unfolding closed_data checked_data checked_side
closed-Ended limit d side_0 = (refl, (closed_data_lem limit (marked d side_0)).1)
closed-Ended limit d side_1 = (refl, (closed_data_lem limit (marked d side_1)).2)

checked-Ended :
    (limit : ℕ) (d : TcpReassemblyData) (side : Side)
    → Ended (get_side (checked_data limit true (marked d side) side) side)
unfolding checked_data checked_side
checked-Ended limit d side_0 =
    (refl, (check_fragments_settles true limit d.first.sequence d.first.fragments).2 refl)
checked-Ended limit d side_1 =
    (refl, (check_fragments_settles true limit d.second.sequence d.second.fragments).2 refl)

checked-closed :
    (limit : ℕ) (d : TcpReassemblyData) (side : Side)
    → (checked_data limit true (marked d side) side).closed ≡ d.closed
unfolding checked_data
checked-closed limit d side_0 = refl
checked-closed limit d side_1 = refl

marked-closed : (d : TcpReassemblyData) (side : Side) → (marked d side).closed ≡ d.closed
marked-closed d side_0 = refl
marked-closed d side_1 = refl

both_sides :
    (r : TcpReassembly) (d : TcpReassemblyData) (side : Side) (key now : ℕ)
    → d.closed ≡ false
    → (get_side d side).got_fin_or_rst ≡ false
    → (get_side d (other_side side)).got_fin_or_rst ≡ true
    → lookup key (handle_fin_or_rst r d side key now).connection_list
      ≡ some (closed_data r.max_out_of_order_fragments (marked d side))
unfolding handle_fin_or_rst store
both_sides r d side key now o fresh both =
    let d' = marked d side in
    let r' = store r key d' in
    let found = lookup-insert_self key d' r.connection_list in
    rw (fresh, both, close_open r' key d' closed_by_fin_rst now found (marked-closed d side ∙ o))
      (ap (lookup key) (close_entry_connections r' key d' closed_by_fin_rst now).0
        ∙ lookup-insert_self key _ r'.connection_list)

one_side :
    (r : TcpReassembly) (d : TcpReassemblyData) (side : Side) (key now : ℕ)
    → (get_side d side).got_fin_or_rst ≡ false
    → (get_side d (other_side side)).got_fin_or_rst ≡ false
    → lookup key (handle_fin_or_rst r d side key now).connection_list
      ≡ some (checked_data r.max_out_of_order_fragments true (marked d side) side)
unfolding handle_fin_or_rst store
one_side r d side key now fresh one =
    rw (fresh, one)
      (lookup-insert_self key _
        (send_messages r side d.conn_data (
          checked_messages r.max_out_of_order_fragments true (marked d side) side)).connection_list)

-- A first FIN or RST on a side of a connection that is not closed marks the side and leaves nothing
-- buffered on it. The connection is closed by it just if the other side had seen FIN or RST before.
pub handle_fin_or_rst_ends :
    (r : TcpReassembly) (d : TcpReassemblyData) (side : Side) (key now : ℕ)
    → d.closed ≡ false
    → (get_side d side).got_fin_or_rst ≡ false
    → let q = handle_fin_or_rst r d side key now in
      (d' : TcpReassemblyData) × (lookup key q.connection_list ≡ some d')
      × Ended (get_side d' side)
      × (d'.closed ≡ (get_side d (other_side side)).got_fin_or_rst)
handle_fin_or_rst_ends r d side key now o fresh =
    let limit = r.max_out_of_order_fragments in
    elim (Bool-cases (get_side d (other_side side)).got_fin_or_rst) [
      | inl both ↦ (
        closed_data limit (marked d side),
        both_sides r d side key now o fresh both,
        closed-Ended limit d side,
        (closed_data_lem limit (marked d side)).0 ∙ sym both,
      )
      | inr one ↦ (
        checked_data limit true (marked d side) side,
        one_side r d side key now fresh one,
        checked-Ended limit d side,
        checked-closed limit d side ∙ o ∙ sym one,
      )
    ]
