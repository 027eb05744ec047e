-- ===== src/Tcp/Invariant/Preserved.antt =====
-- Every operation of TcpReassembly keeps the invariant.
use mathlib.Core.Path.{subst}
use pcap_plus_plus.Prelude.{
  ℕ, ◌≤◌, ◌≡◌, refl, sym, ◌∙◌, inl, inr, true, false, some, List, arith, Bool-cases,
}
use pcap_plus_plus.Prelude.Words.{IsU32}
use pcap_plus_plus.Prelude.Map.{
  Every, lookup, insert, Every-insert, insert-insert, lookup-insert_self,
}
use pcap_plus_plus.Tcp.Fragments.{StreamData}
use pcap_plus_plus.Tcp.Fragments.Bounds.{check_fragments_settles, check_fragments-IsU32}
use pcap_plus_plus.Tcp.State.{
  OneSideData, TcpReassemblyData, TcpReassembly, ConnectionData, ConnectionEndReason, Side, side_0,
  side_1, get_side, set_side, other_side, store, send_messages, send_end, checked_side,
  checked_data,
}
use pcap_plus_plus.Tcp.Connections.{
  closed_data, close_entry, close_connection_internal, insert_into_cleanup_list,
}
use pcap_plus_plus.Tcp.Reassembly.{handle_fin_or_rst}
use pcap_plus_plus.Tcp.Invariant.{SideOk, DataOk, checked_side_clean}

-- The state keeps its limit, and every connection is in order.
abbrev pub Kept : ℕ → TcpReassembly → Type 0
Kept limit r = (r.max_out_of_order_fragments ≡ limit) × Every (DataOk limit) r.connection_list

module _ (limit : ℕ) where
  pub get_side-SideOk :
      (d : TcpReassemblyData) (side : Side) → DataOk limit d → SideOk limit (get_side d side)
  get_side-SideOk d side_0 k = k.first_ok
  get_side-SideOk d side_1 k = k.second_ok

  pub set_side-DataOk :
      (d : TcpReassemblyData) (side : Side) (s : OneSideData)
      → DataOk limit d
      → d.closed ≡ false
      → SideOk limit s
      → DataOk limit (set_side d side s)
  set_side-DataOk d side_0 s k open' ok = record {
    first_ok = ok;
    second_ok = k.second_ok;
    two = k.two;
    done = λ c. cc;
  }
  set_side-DataOk d side_1 s k open' ok = record {
    first_ok = k.first_ok;
    second_ok = ok;
    two = k.two;
    done = λ c. cc;
  }

  pub set_side-closed :
      (d : TcpReassemblyData) (side : Side) (s : OneSideData)
      → (set_side d side s).closed ≡ d.closed
  set_side-closed d side_0 s = refl
  set_side-closed d side_1 s = refl

  -- Cleaning a side puts it in order, whatever was buffered.
  cleaned-SideOk : (s : OneSideData) → IsU32 s.sequence → SideOk limit (checked_side limit true s)
  unfolding checked_side
  cleaned-SideOk s u = record {
    word = check_fragments-IsU32 true limit s.sequence s.fragments u;
    bounded = (check_fragments_settles true limit s.sequence s.fragments).3;
    quiet = λ g. checked_side_clean limit s;
  }

  pub closed_data-DataOk :
      (d : TcpReassemblyData)
      → IsU32 d.first.sequence
      → IsU32 d.second.sequence
      → d.num_of_sides ≤ 2
      → DataOk limit (closed_data limit d)
  unfolding closed_data checked_data
  closed_data-DataOk d u v two = record {
    first_ok = cleaned-SideOk d.first u;
    second_ok = cleaned-SideOk d.second v;
    two = two;
    done = λ c. (checked_side_clean limit d.first, checked_side_clean limit d.second);
  }

  pub store-Kept :
      (r : TcpReassembly) (key : ℕ) (d : TcpReassemblyData)
      → Kept limit r
      → DataOk limit d
      → Kept limit (store r key d)
  unfolding store
  store-Kept r key d (e, k) ok = (e, Every-insert (DataOk limit) key d r.connection_list ok k)

  pub send_messages-Kept :
      (r : TcpReassembly) (side : Side) (c : ConnectionData) (ms : List StreamData)
      → Kept limit r
      → Kept limit (send_messages r side c ms)
  unfolding send_messages
  send_messages-Kept r side c ms k = elim (Bool-cases r.on_message_ready) [
    | inl on ↦ rw on k
    | inr off ↦ rw off k
  ]

  pub set_side-set_side :
      (d : TcpReassemblyData) (side : Side) (s t : OneSideData)
      → set_side (set_side d side s) side t ≡ set_side d side t
  set_side-set_side d side_0 s t = refl
  set_side-set_side d side_1 s t = refl

  pub get_side-set_side :
      (d : TcpReassemblyData) (side : Side) (s : OneSideData)
      → get_side (set_side d side s) side ≡ s
  get_side-set_side d side_0 s = refl
  get_side-set_side d side_1 s = refl

  -- Closing an entry only changes that entry.
  pub close_entry_lem :
      (r : TcpReassembly) (key : ℕ) (d : TcpReassemblyData) (flow_key : ℕ)
      (reason : ConnectionEndReason) (now : ℕ)
      → let q = close_entry r key d flow_key reason now in
        (q.connection_list
          ≡ insert key (closed_data r.max_out_of_order_fragments d) r.connection_list)
        × (q.max_out_of_order_fragments ≡ r.max_out_of_order_fragments)
  unfolding close_entry insert_into_cleanup_list store send_end send_messages
  close_entry_lem r key d flow_key reason now = ground arith

  -- A connection whose two sequences are words, with two sides at most, whatever it buffers.
  abbrev Loose : TcpReassemblyData → Type 0
  Loose d =
      IsU32 d.first.sequence × IsU32 d.second.sequence × (d.num_of_sides ≤ 2) × (d.closed ≡ false)

  DataOk-Loose : (d : TcpReassemblyData) → DataOk limit d → d.closed ≡ false → Loose d
  DataOk-Loose d k o = (k.first_ok.word, k.second_ok.word, k.two, o)

  Loose-set_side :
      (d : TcpReassemblyData) (side : Side) (s : OneSideData)
      → Loose d
      → IsU32 s.sequence
      → Loose (set_side d side s)
  Loose-set_side d side_0 s (u, v, t, o) w = (w, v, t, o)
  Loose-set_side d side_1 s (u, v, t, o) w = (u, w, t, o)

  close_open :
      (r : TcpReassembly) (key : ℕ) (d : TcpReassemblyData) (reason : ConnectionEndReason) (now : ℕ)
      → lookup key r.connection_list ≡ some d
      → d.closed ≡ false
      → close_connection_internal r key reason now ≡ close_entry r key d key reason now
  unfolding close_connection_internal
  close_open r key d reason now e o = rw (e, close_connection_internal) (rw o)

  close_stored-Kept :
      (r : TcpReassembly) (key : ℕ) (d : TcpReassemblyData) (reason : ConnectionEndReason) (now : ℕ)
      → Kept limit r
      → Loose d
      → Kept limit (close_connection_internal (store r key d) key reason now)
  unfolding store
  close_stored-Kept r key d reason now (e, k) (u, v, two, o) =
      let r' = record r { connection_list = insert key d r.connection_list } in
      let (l, m) = close_entry_lem r' key d key reason now in
      rw (close_open r' key d reason now (lookup-insert_self key d r.connection_list) o) (
        m ∙ e,
        rw l (
            subst
              (λ n.
                Every (DataOk limit)
                  (insert key (closed_data n d) (insert key d r.connection_list)))
              (sym e)
              (rw (insert-insert key (closed_data limit d) d r.connection_list) (
                Every-insert (DataOk limit) key (closed_data limit d) r.connection_list
                  (closed_data-DataOk d u v two) k))),
      )

  pub handle_fin_or_rst-Kept :
      (r : TcpReassembly) (d : TcpReassemblyData) (side : Side) (key now : ℕ)
      → Kept limit r
      → DataOk limit d
      → d.closed ≡ false
      → Kept limit (handle_fin_or_rst r d side key now)
  unfolding handle_fin_or_rst checked_data
  handle_fin_or_rst-Kept r d side key now k ok o =
      let s = get_side d side in
      let s' = record s { got_fin_or_rst = true } in
      let w = (get_side-SideOk d side ok).word in
      elim (Bool-cases s.got_fin_or_rst) [
        | inl got ↦ rw got (store-Kept r key d k ok)
        | inr fresh ↦ elim (Bool-cases (get_side d (other_side side)).got_fin_or_rst) [
          | inl both ↦
              rw (fresh, both)
                (close_stored-Kept r key (set_side d side s') _ now k
                  (Loose-set_side d side s' (DataOk-Loose d ok o) w))
          | inr one ↦
              rw (fresh, one)
                (store-Kept _ key _ (send_messages-Kept r side d.conn_data _ k) (
                  rw (get_side-set_side d side s', set_side-set_side d side s')
                    (subst (λ l. DataOk limit (set_side d side (checked_side l true s'))) (sym k.0)
                      (set_side-DataOk d side _ ok o (cleaned-SideOk s' w)))))
        ]
      ]
