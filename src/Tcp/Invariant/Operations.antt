-- ===== src/Tcp/Invariant/Operations.antt =====
-- The public operations of TcpReassembly keep the invariant.
use mathlib.Core.Path.{subst}
use pcap_plus_plus.Prelude.{
  zero, suc, ℕ, ◌≤◌, ◌<◌, ◌≡◌, refl, sym, ◌∙◌, ◌⊎◌, inl, inr, Bool, true, false, ◌&&◌, none, some,
  List, [], ◌∷◌, arith, ltb, leb, ◌==◌, if◌then◌else◌, length, Bool-cases, Option-cases, Sum-cases,
  if_cases,
}
use pcap_plus_plus.Prelude.Words.{IsU32}
use pcap_plus_plus.Prelude.Map.{Map, Every, lookup, insert, Every-insert, Every-erase, Every-lookup}
use pcap_plus_plus.Parsed.{Packet, Timeval}
use pcap_plus_plus.Tcp.State.{
  OneSideData, TcpReassemblyData, TcpReassembly, ConnectionData, ConnectionEndReason,
  closed_manually, Config, Side, side_0, side_1, create, new_connection, send_start,
}
use pcap_plus_plus.Tcp.Connections.{
  closed_data, close_entry, close_connection_internal, close_connection, close_entries,
  close_all_connections, Purge, purge_key, purge_keys, purge_times, purge_closed_connections,
}
use pcap_plus_plus.Tcp.Reassembly.{
  ReassemblyStatus, Arrival, choose_side, open_side, matches_side, handle_connection, is_later,
  updated_end_time, new_connection_data, start_connection, handle_arrival, admit, purge_if_due,
  reassemble_packet,
}
use pcap_plus_plus.Tcp.Invariant.{SideOk, DataOk}
use pcap_plus_plus.Tcp.Invariant.Preserved.{Kept, store-Kept, close_entry_lem, closed_data-DataOk}
use pcap_plus_plus.Tcp.Invariant.Sides.{handle_side-Kept}

module _ (limit : ℕ) where
  open_side-DataOk :
      (d : TcpReassemblyData) (side : Side) (a : Arrival)
      → DataOk limit d
      → d.num_of_sides < 2
      → DataOk limit (open_side d side a)
  open_side-DataOk d side_0 a ok h = record {
    first_ok = record {
      word = ok.first_ok.word;
      bounded = ok.first_ok.bounded;
      quiet = ok.first_ok.quiet;
    };
    second_ok = ok.second_ok;
    two = omega arith;
    done = ok.done;
  }
  open_side-DataOk d side_1 a ok h = record {
    first_ok = ok.first_ok;
    second_ok = record {
      word = ok.second_ok.word;
      bounded = ok.second_ok.bounded;
      quiet = ok.second_ok.quiet;
    };
    two = omega arith;
    done = ok.done;
  }

  open_side-closed :
      (d : TcpReassemblyData) (side : Side) (a : Arrival) → (open_side d side a).closed ≡ d.closed
  open_side-closed d side_0 a = refl
  open_side-closed d side_1 a = refl

  -- The cases of choose_side.
  choose_side_cases :
      (d : TcpReassemblyData) (a : Arrival)
      → (choose_side d a ≡ none)
        ⊎ ((side : Side) × (choose_side d a ≡ some (side, false, d)))
        ⊎ ((side : Side) × (d.num_of_sides < 2)
            × (choose_side d a ≡ some (side, true, open_side d side a)))
  unfolding choose_side
  choose_side_cases d a = elim (Bool-cases (d.num_of_sides == 0)) [
    | inl zero' ↦ rw zero' (inr (inr (side_0, ground arith, refl)))
    | inr more ↦ elim (Bool-cases (d.num_of_sides == 1)) [
      | inl one ↦ elim (Bool-cases (matches_side d side_0 a)) [
        | inl m ↦ rw (more, one, m) (inr (inl (side_0, refl)))
        | inr n ↦ rw (more, one, n) (inr (inr (side_1, ground arith, refl)))
      ]
      | inr many ↦ elim (Bool-cases (d.num_of_sides == 2)) [
        | inl two ↦ elim (Bool-cases (matches_side d side_0 a)) [
          | inl m ↦ rw (more, many, two, m) (inr (inl (side_0, refl)))
          | inr n ↦ elim (Bool-cases (matches_side d side_1 a)) [
            | inl m ↦ rw (more, many, two, n, m) (inr (inl (side_1, refl)))
            | inr n' ↦ rw (more, many, two, n, n') (inl refl)
          ]
        ]
        | inr three ↦ rw (more, many, three) (inl refl)
      ]
    ]
  ]

  handle_connection-Kept :
      (r : TcpReassembly) (d : TcpReassemblyData) (a : Arrival) (now : ℕ)
      → Kept limit r
      → DataOk limit d
      → d.closed ≡ false
      → Kept limit (handle_connection r d a now).0
  unfolding handle_connection
  handle_connection-Kept r d a now k ok o = elim (choose_side_cases d a) [
    | inl e ↦ rw (e, handle_connection) (store-Kept limit r a.flow_key d k ok)
    | inr (inl (side, e)) ↦
        rw (e, handle_connection) (handle_side-Kept limit r d side false a now k ok o)
    | inr (inr (side, two, e)) ↦
        rw (e, handle_connection)
          (handle_side-Kept limit r (open_side d side a) side true a now k
            (open_side-DataOk d side a ok two) (open_side-closed d side a ∙ o))
  ]

  updated_end_time-DataOk :
      (d : TcpReassemblyData) (t : Timeval)
      → DataOk limit d
      → DataOk limit (updated_end_time d t) × ((updated_end_time d t).closed ≡ d.closed)
  unfolding updated_end_time
  updated_end_time-DataOk d t ok = elim (Bool-cases (is_later t d.conn_data.end_time)) [
    | inl later ↦ rw later (
      record { first_ok = ok.first_ok; second_ok = ok.second_ok; two = ok.two; done = ok.done },
      refl,
    )
    | inr not_later ↦ rw not_later (ok, refl)
  ]

  new_connection-DataOk : (c : ConnectionData) → DataOk limit (new_connection c)
  unfolding new_connection
  new_connection-DataOk c = record {
    first_ok = record { word = omega arith; bounded = λ h. omega arith; quiet = λ g. refl };
    second_ok = record { word = omega arith; bounded = λ h. omega arith; quiet = λ g. refl };
    two = omega arith;
    done = λ e. (refl, refl);
  }

  start_connection-Kept :
      (r : TcpReassembly) (c : ConnectionData) (key : ℕ)
      → Kept limit r
      → Kept limit (start_connection r c key)
  unfolding start_connection send_start
  start_connection-Kept r c key (e, k) =
      let k' =
        Every-insert (DataOk limit) key (new_connection c) r.connection_list
          (new_connection-DataOk c) k in
      elim (Bool-cases r.on_conn_start) [ inl on ↦ rw on (e, k') | inr off ↦ rw off (e, k') ]

  handle_arrival-Kept :
      (r : TcpReassembly) (a : Arrival) (now : ℕ)
      → Kept limit r
      → Kept limit (handle_arrival r a now).0
  unfolding handle_arrival
  handle_arrival-Kept r a now k = elim (Option-cases (lookup a.flow_key r.connection_list)) [
    | inl e ↦
        let c = new_connection_data a in
        rw (e, handle_arrival)
          (handle_connection-Kept (start_connection r c a.flow_key) (new_connection c) a now
            (start_connection-Kept r c a.flow_key k) (new_connection-DataOk c)
            (unfold new_connection in refl))
    | inr (d, e) ↦
        let (ok, same) =
          updated_end_time-DataOk d a.time_stamp
            (Every-lookup (DataOk limit) a.flow_key r.connection_list k.1 e) in
        rw (e, handle_arrival)
          (if_cases (λ (q : TcpReassembly × ReassemblyStatus). Kept limit q.0) d.closed _ _ (λ c. k)
            λ o. handle_connection-Kept r (updated_end_time d a.time_stamp) a now k ok (same ∙ o))
  ]

  close_entry-Kept :
      (r : TcpReassembly) (key : ℕ) (d : TcpReassemblyData) (flow_key : ℕ)
      (reason : ConnectionEndReason) (now : ℕ)
      → Kept limit r
      → DataOk limit d
      → Kept limit (close_entry r key d flow_key reason now)
  close_entry-Kept r key d flow_key reason now (e, k) ok =
      let (l, m) = close_entry_lem limit r key d flow_key reason now in
      let closed = closed_data-DataOk limit d ok.first_ok.word ok.second_ok.word ok.two in
      (
        m ∙ e,
        subst (Every (DataOk limit)) (sym l) (
            subst (λ n. Every (DataOk limit) (insert key (closed_data n d) r.connection_list))
              (sym e)
              (Every-insert (DataOk limit) key (closed_data limit d) r.connection_list closed k)),
      )

  close_connection_internal-Kept :
      (r : TcpReassembly) (key : ℕ) (reason : ConnectionEndReason) (now : ℕ)
      → Kept limit r
      → Kept limit (close_connection_internal r key reason now)
  unfolding close_connection_internal
  close_connection_internal-Kept r key reason now k =
      elim (Option-cases (lookup key r.connection_list)) [
        | inl e ↦ rw (e, close_connection_internal) k
        | inr (d, e) ↦
            rw (e, close_connection_internal)
              (if_cases (Kept limit) d.closed _ _ (λ c. k)
                λ o.
                  close_entry-Kept r key d key reason now k
                    (Every-lookup (DataOk limit) key r.connection_list k.1 e))
      ]

  close_entries-Kept :
      (r : TcpReassembly) (now : ℕ) (m : Map TcpReassemblyData)
      → Kept limit r
      → Every (DataOk limit) m
      → Kept limit (close_entries r now m)
  unfolding close_entries
  close_entries-Kept r now [] k ok = k
  close_entries-Kept r now ((key, d) ∷ rest) k (ok, oks) =
      close_entries-Kept
        (if d.closed then r else close_entry r key d d.conn_data.flow_key closed_manually now) now
        rest
        (if_cases (Kept limit) d.closed _ _ (λ c. k)
          λ o. close_entry-Kept r key d d.conn_data.flow_key closed_manually now k ok)
        oks

  purge_keys-Every :
      (most : ℕ) (keys : List ℕ) (p : Purge)
      → Every (DataOk limit) p.connections
      → Every (DataOk limit) (purge_keys most keys p).1.connections
  unfolding purge_keys purge_key
  purge_keys-Every most [] p k = k
  purge_keys-Every most (key ∷ keys) p k = elim (Bool-cases (ltb p.count most)) [
    | inl more ↦ rw more (
        purge_keys-Every most keys (purge_key key p)
          (Every-erase (DataOk limit) key p.connections k))
    | inr full ↦ rw full k
  ]

  purge_times-Every :
      (now most : ℕ) (m : Map (List ℕ)) (p : Purge)
      → Every (DataOk limit) p.connections
      → Every (DataOk limit) (purge_times now most m p).1.connections
  unfolding purge_times
  purge_times-Every now most [] p k = k
  purge_times-Every now most ((time, keys) ∷ m) p k =
      elim (Bool-cases (leb time now && ltb p.count most)) [
        | inl due ↦ rw due (
            purge_times-Every now most m (purge_keys most keys p).1
              (purge_keys-Every most keys p k))
        | inr over ↦ rw over k
      ]

  purge_closed_connections-Kept :
      (r : TcpReassembly) (most now : ℕ)
      → Kept limit r
      → Kept limit (purge_closed_connections r most now).0
  unfolding purge_closed_connections
  purge_closed_connections-Kept r most now (e, k) = (e, purge_times-Every now _ r.cleanup_list _ k)

  purge_if_due-Kept : (r : TcpReassembly) (now : ℕ) → Kept limit r → Kept limit (purge_if_due r now)
  unfolding purge_if_due
  purge_if_due-Kept r now k = elim (Bool-cases (r.remove_conn_info && leb r.purge_timepoint now)) [
    | inl due ↦ rw due (purge_closed_connections-Kept r 0 now k)
    | inr not_due ↦ rw not_due k
  ]

  reassemble_packet-Kept :
      (r : TcpReassembly) (p : Packet) (now : ℕ)
      → Kept limit r
      → Kept limit (reassemble_packet r p now).0
  unfolding reassemble_packet
  reassemble_packet-Kept r p now k = elim (Sum-cases (admit p)) [
    | inl (a, e) ↦
        rw (e, reassemble_packet)
          (handle_arrival-Kept (purge_if_due r now) a now (purge_if_due-Kept r now k))
    | inr (s, e) ↦ rw (e, reassemble_packet) (purge_if_due-Kept r now k)
  ]

-- An operation that a user of TcpReassembly can call, at a time.
pub data Call : Type 0 where
  reassemble : Packet → Call
  close : ℕ → Call
  close_all : Call
  purge : ℕ → Call

unfoldable pub perform : TcpReassembly → ℕ × Call → TcpReassembly
perform r (now, reassemble p) = (reassemble_packet r p now).0
perform r (now, close key) = close_connection r key now
perform r (now, close_all) = close_all_connections r now
perform r (now, purge most) = (purge_closed_connections r most now).0

-- A history of calls.
unfoldable pub run : TcpReassembly → List (ℕ × Call) → TcpReassembly
run r [] = r
run r (c ∷ cs) = run (perform r c) cs

perform-Kept :
    (limit : ℕ) (r : TcpReassembly) (c : ℕ × Call) → Kept limit r → Kept limit (perform r c)
unfolding perform close_connection close_all_connections
perform-Kept limit r (now, reassemble p) k = reassemble_packet-Kept limit r p now k
perform-Kept limit r (now, close key) k = close_connection_internal-Kept limit r key _ now k
perform-Kept limit r (now, close_all) k = close_entries-Kept limit r now r.connection_list k k.1
perform-Kept limit r (now, purge most) k = purge_closed_connections-Kept limit r most now k

run-Kept :
    (limit : ℕ) (r : TcpReassembly) (cs : List (ℕ × Call)) → Kept limit r → Kept limit (run r cs)
unfolding run
run-Kept limit r [] k = k
run-Kept limit r (c ∷ cs) k = run-Kept limit (perform r c) cs (perform-Kept limit r c k)

-- What holds of each side: its expected sequence is a uint32_t, its buffer is within the limit, and
-- it buffers nothing after FIN or RST.
abbrev pub SideSound : ℕ → OneSideData → Type 0
SideSound limit s =
    IsU32 s.sequence
    × ((limit ≡ 0) ⊎ (length s.fragments ≤ limit))
    × ((s.got_fin_or_rst ≡ false) ⊎ (s.fragments ≡ []))

-- What holds of each connection.
abbrev pub Sound : ℕ → TcpReassemblyData → Type 0
Sound limit d =
    SideSound limit d.first
    × SideSound limit d.second
    × (d.num_of_sides ≤ 2)
    × ((d.closed ≡ false) ⊎ ((d.first.fragments ≡ []) × (d.second.fragments ≡ [])))

bool_or {ℓ} : {P : Type ℓ} (b : Bool) → (b ≡ true → P) → (b ≡ false) ⊎ P
bool_or true h = inr (h refl)
bool_or false h = inl refl

zero_or {ℓ} : {P : Type ℓ} (n : ℕ) → (0 < n → P) → (n ≡ 0) ⊎ P
zero_or zero h = inl refl
zero_or (suc n) h = inr (h (omega arith))

side_sound : (limit : ℕ) (s : OneSideData) → SideOk limit s → SideSound limit s
side_sound limit s ok = (ok.word, zero_or limit ok.bounded, bool_or s.got_fin_or_rst ok.quiet)

data-Sound : (limit : ℕ) (d : TcpReassemblyData) → DataOk limit d → Sound limit d
data-Sound limit d ok = (
  side_sound limit d.first ok.first_ok,
  side_sound limit d.second ok.second_ok,
  ok.two,
  bool_or d.closed ok.done,
)

all-Sound : (limit : ℕ) (m : Map TcpReassemblyData) → Every (DataOk limit) m → Every (Sound limit) m
all-Sound limit [] k = tt
all-Sound limit ((key, d) ∷ m) (k, ks) = (data-Sound limit d k, all-Sound limit m ks)

-- After any history of packets, closings and purges on a new TcpReassembly, every connection that
-- it holds has at most two sides; each side's expected sequence is a uint32_t, a side buffers at
-- most maxOutOfOrderFragments fragments unless that is 0, and none once it has seen FIN or RST; a
-- closed connection buffers nothing.
pub run-create-Invariant :
    (on_message on_start on_end : Bool) (config : Config) (now : ℕ) (cs : List (ℕ × Call))
    → let r = run (create on_message on_start on_end config now) cs in
      Every (Sound config.max_out_of_order_fragments) r.connection_list
unfolding create
run-create-Invariant on_message on_start on_end config now cs =
    all-Sound config.max_out_of_order_fragments _
      (run-Kept config.max_out_of_order_fragments _ cs (refl, tt)).1
