-- ===== src/Tcp/Reassembly/Delivery.antt =====
-- What a packet makes reassemblePacket send, against the stream that its sender wrote.
use mathlib.Core.Path.{subst}
use mathlib.Core.List.{map-append, append-nil, append_assoc}
use pcap_plus_plus.Prelude.{
  ℕ, ◌+◌, ◌≡◌, refl, sym, ap, inl, inr, Bool, true, false, ◌&&◌, List, [], ◌∷◌, ◌++◌, arith, ltb,
  ◌==◌, ==_iff, length, All, All-append, Bool-cases, if_cases,
}
use pcap_plus_plus.Prelude.Words.{IsU32, add32, add32-IsU32}
use pcap_plus_plus.Tcp.Seq.{seq_lt, seq_gt}
use pcap_plus_plus.Tcp.Fragments.{StreamData}
use pcap_plus_plus.Tcp.Fragments.Stream.{
  Matches, Delivers, Delivers-append, Delivers-data, Delivers-overlap, Genuine,
  check_fragments-Delivers,
}
use pcap_plus_plus.Tcp.State.{
  OneSideData, TcpReassemblyData, TcpReassembly, ConnectionData, Side, side_0, side_1,
  message_ready, get_side, set_side, store, send_messages, checked_side, checked_data,
  checked_messages,
}
use pcap_plus_plus.Tcp.Reassembly.{
  Arrival, finish, set_sequence, retransmission, empty_packet, expected_packet, push_fragment,
  out_of_order_packet, handle_data,
}

pub send_nil :
    (r : TcpReassembly) (side : Side) (c : ConnectionData) → send_messages r side c [] ≡ r
unfolding send_messages
send_nil r side c =
    if_cases (λ q. q ≡ r) r.on_message_ready _ _
      (λ on. λ i. record r { events = append-nil r.events i }) (λ off. refl)

send_send :
    (r : TcpReassembly) (side : Side) (c : ConnectionData) (xs ys : List StreamData)
    → send_messages (send_messages r side c xs) side c ys ≡ send_messages r side c (xs ++ ys)
unfolding send_messages
send_send r side c xs ys = elim (Bool-cases r.on_message_ready) [
  | inl on ↦ rw (on, map-append (message_ready side c) xs ys, append_assoc r.events _ _) refl
  | inr off ↦ rw off refl
]

get_side_checked :
    (l : ℕ) (clean : Bool) (d : TcpReassemblyData) (side : Side)
    → get_side (checked_data l clean d side) side ≡ checked_side l clean (get_side d side)
unfolding checked_data
get_side_checked l clean d side_0 = refl
get_side_checked l clean d side_1 = refl

get_side_set :
    (d : TcpReassemblyData) (side : Side) (s : OneSideData) → get_side (set_side d side s) side ≡ s
get_side_set d side_0 s = refl
get_side_set d side_1 s = refl

module _ (stream : ℕ → ℕ) where
  abbrev SideGenuine : OneSideData → Type 0
  SideGenuine s = IsU32 s.sequence × All (Genuine stream) s.fragments

  -- A side before and after, and what was sent between.
  abbrev pub Moves : OneSideData → List StreamData → OneSideData → Type 0
  Moves s ms t = Delivers stream s.sequence ms t.sequence × SideGenuine t

  checked_side-Moves :
      (l : ℕ) (clean : Bool) (d : TcpReassemblyData) (side : Side)
      → SideGenuine (get_side d side)
      → Moves
          (get_side d side)
          (checked_messages l clean d side)
          (get_side (checked_data l clean d side) side)
  unfolding checked_messages
  checked_side-Moves l clean d side (u, g) =
      let s = get_side d side in
      let (u', del, g') = check_fragments-Delivers stream clean l s.sequence s.fragments u g in
      rw (get_side_checked l clean d side) (unfold checked_side in (del, (u', g')))

  -- The state after a packet: the messages are sent and the connection is stored with the side moved.
  abbrev pub Delivered : TcpReassembly → TcpReassemblyData → Side → ℕ → TcpReassembly → Type 0
  Delivered r d side key q =
      (ms : List StreamData) × (d' : TcpReassemblyData) × (q
        ≡ store (send_messages r side d.conn_data ms) key d')
      × Moves (get_side d side) ms (get_side d' side)

  retransmission_delivers :
      (r : TcpReassembly) (d : TcpReassemblyData) (side : Side) (a : Arrival) (now : ℕ)
      → SideGenuine (get_side d side)
      → IsU32 a.sequence
      → Matches stream a.sequence a.payload
      → a.fin_or_rst ≡ false
      → seq_lt a.sequence (get_side d side).sequence ≡ true
      → Delivered r d side a.flow_key (retransmission r d side a now).0
  unfolding retransmission finish
  retransmission_delivers r d side a now (u, g) ua m nofin low =
      let s = get_side d side in
      elim (Bool-cases (seq_gt (add32 a.sequence (length a.payload)) s.sequence)) [
        | inl new ↦
            rw (new, nofin)
              (
                _,
                _,
                refl,
                rw (get_side_set d side _) (
                  Delivers-overlap stream a.sequence s.sequence a.payload ua u m low new,
                  (add32-IsU32 _ _, g),
                ),
              )
        | inr old ↦
            rw (old, nofin)
              (
                [],
                d,
                ap (λ q. store q a.flow_key d) (sym (send_nil r side d.conn_data)),
                (refl, (u, g)),
              )
      ]

  empty_delivers :
      (r : TcpReassembly) (d : TcpReassemblyData) (side : Side) (a : Arrival) (now : ℕ)
      → SideGenuine (get_side d side)
      → a.fin_or_rst ≡ false
      → Delivered r d side a.flow_key (empty_packet r d side a now).0
  unfolding empty_packet finish
  empty_delivers r d side a now g nofin =
      rw nofin
        ([], d, ap (λ q. store q a.flow_key d) (sym (send_nil r side d.conn_data)), (refl, g))

  expected_delivers :
      (r : TcpReassembly) (d : TcpReassemblyData) (side : Side) (a : Arrival) (now : ℕ)
      → SideGenuine (get_side d side)
      → Matches stream a.sequence a.payload
      → a.fin_or_rst ≡ false
      → a.syn ≡ false
      → a.sequence ≡ (get_side d side).sequence
      → Delivered r d side a.flow_key (expected_packet r d side a now).0
  unfolding expected_packet finish
  expected_delivers r d side a now (u, g) m nofin nosyn here =
      let limit = r.max_out_of_order_fragments in
      let s = get_side d side in
      let n = add32 s.sequence (length a.payload + 0) in
      let d' = set_sequence d side n in
      let ms = checked_messages limit false d' side in
      let g' : SideGenuine (get_side d' side) = rw (get_side_set d side _) (add32-IsU32 _ _, g) in
      let (del, ok) = checked_side-Moves limit false d' side g' in
      let e : (get_side d' side).sequence ≡ n = rw (get_side_set d side _) refl in
      let end = (get_side (checked_data limit false d' side) side).sequence in
      let fst =
        Delivers-data stream s.sequence n a.payload u
          (subst (λ q. Matches stream q a.payload) here m) (ap (add32 s.sequence) (omega arith)) in
      rw (nofin, nosyn)
        (
          record { bytes = a.payload; missing = 0 } ∷ ms,
          checked_data limit false d' side,
          ap (λ q. store q a.flow_key (checked_data limit false d' side))
              (send_send r side d.conn_data _ ms),
          (
            Delivers-append stream s.sequence n end (record { bytes = a.payload; missing = 0 } ∷ [])
                ms fst (subst (λ q. Delivers stream q ms end) e del),
            ok,
          ),
        )

  out_of_order_delivers :
      (r : TcpReassembly) (d : TcpReassemblyData) (side : Side) (a : Arrival) (now : ℕ)
      → SideGenuine (get_side d side)
      → IsU32 a.sequence
      → Matches stream a.sequence a.payload
      → a.fin_or_rst ≡ false
      → Delivered r d side a.flow_key (out_of_order_packet r d side a now).0
  unfolding out_of_order_packet finish
  out_of_order_delivers r d side a now (u, g) ua m nofin =
      let limit = r.max_out_of_order_fragments in
      let s = get_side d side in
      let d' = push_fragment d side a in
      let g' : SideGenuine (get_side d' side) =
        rw (get_side_set d side _) (u, All-append (Genuine stream) s.fragments _ g ((ua, m), tt)) in
      let e : (get_side d' side).sequence ≡ s.sequence = rw (get_side_set d side _) refl in
      let (del, ok) = checked_side-Moves limit false d' side g' in
      let end = (get_side (checked_data limit false d' side) side).sequence in
      elim (Bool-cases (ltb 0 limit && ltb limit (length (get_side d' side).fragments))) [
        | inl full ↦
            rw (full, nofin)
              (
                checked_messages limit false d' side,
                checked_data limit false d' side,
                refl,
                (
                  subst (λ q. Delivers stream q (checked_messages limit false d' side) end) e del,
                  ok,
                ),
              )
        | inr room ↦
            rw (room, nofin)
              (
                [],
                d',
                ap (λ q. store q a.flow_key d') (sym (send_nil r side d.conn_data)),
                (sym e, g'),
              )
      ]

  -- A packet of a connection's side that is not its first, without SYN, FIN and RST, whose payload is
  -- what the sender's stream holds from the packet's sequence number on, is handled so: the state
  -- after it sends some messages for that side and stores the connection, and these messages lead
  -- from the side's expected sequence before to the one after it, in order and without a gap that
  -- is not declared. The fragments that stay buffered are from the stream.
  pub handle_data_delivers :
      (r : TcpReassembly) (d : TcpReassemblyData) (side : Side) (a : Arrival) (now : ℕ)
      → SideGenuine (get_side d side)
      → IsU32 a.sequence
      → Matches stream a.sequence a.payload
      → a.fin_or_rst ≡ false
      → a.syn ≡ false
      → Delivered r d side a.flow_key (handle_data r d side false a now).0
  unfolding handle_data
  handle_data_delivers r d side a now g ua m nofin nosyn =
      let s = get_side d side in
      elim (Bool-cases (seq_lt a.sequence s.sequence)) [
        | inl low ↦ rw low (retransmission_delivers r d side a now g ua m nofin low)
        | inr high ↦ elim (Bool-cases (length a.payload == 0)) [
          | inl empty ↦ rw (high, empty) (empty_delivers r d side a now g nofin)
          | inr full ↦ elim (Bool-cases (a.sequence == s.sequence)) [
            | inl here ↦
                rw (high, full, here)
                  (expected_delivers r d side a now g m nofin nosyn ((==_iff _ _).0 here))
            | inr ahead ↦ rw (high, full, ahead) (out_of_order_delivers r d side a now g ua m nofin)
          ]
        ]
      ]
