-- ===== src/Tcp/Invariant/Sides.antt =====
-- Every branch of reassemblePacket on the data of a side keeps the invariant.
use mathlib.Core.Path.{subst}
use pcap_plus_plus.Prelude.{
  ℕ, ◌≡◌, refl, sym, ◌∙◌, inl, inr, Bool, true, false, ◌&&◌, Option, some, [], ◌∷◌, ◌++◌, arith,
  ltb, ◌==◌, length, Bool-cases, Option-cases,
}
use pcap_plus_plus.Prelude.Words.{IsU32, add32, add32-IsU32}
use pcap_plus_plus.Tcp.Seq.{seq_lt, seq_gt}
use pcap_plus_plus.Tcp.Fragments.{Fragment}
use pcap_plus_plus.Tcp.State.{
  OneSideData, TcpReassemblyData, TcpReassembly, Side, side_0, side_1, get_side, set_side,
  checked_side, checked_data,
}
use pcap_plus_plus.Tcp.Reassembly.{
  Arrival, finish, set_sequence, first_packet, retransmission, empty_packet, expected_packet,
  out_of_order_packet, push_fragment, handle_data, handle_side, cleaned_side,
}
use pcap_plus_plus.Tcp.Invariant.{SideOk, DataOk, checked_side-SideOk}
use pcap_plus_plus.Tcp.Invariant.Preserved.{
  Kept, get_side-SideOk, set_side-DataOk, set_side-closed, store-Kept, send_messages-Kept,
  set_side-set_side, get_side-set_side, handle_fin_or_rst-Kept,
}

module _ (limit : ℕ) where
  pub finish-Kept :
      (fin : Bool) (r : TcpReassembly) (d : TcpReassemblyData) (side : Side) (key now : ℕ)
      → Kept limit r
      → DataOk limit d
      → d.closed ≡ false
      → Kept limit (finish fin r d side key now)
  unfolding finish
  finish-Kept true r d side key now k ok o = handle_fin_or_rst-Kept limit r d side key now k ok o
  finish-Kept false r d side key now k ok o = store-Kept limit r key d k ok

  checked_data-DataOk :
      (l : ℕ) (clean : Bool) (d : TcpReassemblyData) (side : Side)
      → l ≡ limit
      → DataOk limit d
      → d.closed ≡ false
      → DataOk limit (checked_data l clean d side)
  unfolding checked_data
  checked_data-DataOk l clean d side e ok o =
      let s = get_side-SideOk limit d side ok in
      subst (λ l. DataOk limit (set_side d side (checked_side l clean (get_side d side)))) (sym e)
        (set_side-DataOk limit d side _ ok o
          (checked_side-SideOk limit clean (get_side d side) s.word s.quiet))

  checked_set_side-DataOk :
      (l : ℕ) (clean : Bool) (d : TcpReassemblyData) (side : Side) (s : OneSideData)
      → l ≡ limit
      → DataOk limit d
      → d.closed ≡ false
      → IsU32 s.sequence
      → (s.got_fin_or_rst ≡ true → s.fragments ≡ [])
      → DataOk limit (checked_data l clean (set_side d side s) side)
  unfolding checked_data
  checked_set_side-DataOk l clean d side s e ok o u quiet =
      rw (get_side-set_side limit d side s, set_side-set_side limit d side s)
        (subst (λ l. DataOk limit (set_side d side (checked_side l clean s))) (sym e)
          (set_side-DataOk limit d side _ ok o (checked_side-SideOk limit clean s u quiet)))

  checked_data-closed :
      (l : ℕ) (clean : Bool) (d : TcpReassemblyData) (side : Side)
      → (checked_data l clean d side).closed ≡ d.closed
  unfolding checked_data
  checked_data-closed l clean d side = set_side-closed limit d side _

  set_sequence-DataOk :
      (d : TcpReassemblyData) (side : Side) (a b : ℕ)
      → DataOk limit d
      → d.closed ≡ false
      → DataOk limit (set_sequence d side (add32 a b))
  set_sequence-DataOk d side a b ok o =
      let s = get_side-SideOk limit d side ok in
      set_side-DataOk limit d side _ ok o
        (record { word = add32-IsU32 a b; bounded = s.bounded; quiet = s.quiet })

  first_packet-Kept :
      (r : TcpReassembly) (d : TcpReassemblyData) (side : Side) (a : Arrival) (now : ℕ)
      → Kept limit r
      → DataOk limit d
      → d.closed ≡ false
      → Kept limit (first_packet r d side a now).0
  unfolding first_packet
  first_packet-Kept r d side a now k ok o =
      finish-Kept a.fin_or_rst _ _ side a.flow_key now (send_messages-Kept limit r side _ _ k)
        (set_sequence-DataOk d side _ _ ok o) (set_side-closed limit d side _ ∙ o)

  retransmission-Kept :
      (r : TcpReassembly) (d : TcpReassemblyData) (side : Side) (a : Arrival) (now : ℕ)
      → Kept limit r
      → DataOk limit d
      → d.closed ≡ false
      → Kept limit (retransmission r d side a now).0
  unfolding retransmission
  retransmission-Kept r d side a now k ok o =
      let new_sequence = add32 a.sequence (length a.payload) in
      elim (Bool-cases (seq_gt new_sequence (get_side d side).sequence)) [
        | inl new ↦ rw new (
            finish-Kept a.fin_or_rst _ _ side a.flow_key now (send_messages-Kept limit r side _ _ k)
              (set_sequence-DataOk d side _ _ ok o) (set_side-closed limit d side _ ∙ o))
        | inr old ↦ rw old (finish-Kept a.fin_or_rst r d side a.flow_key now k ok o)
      ]

  expected_packet-Kept :
      (r : TcpReassembly) (d : TcpReassemblyData) (side : Side) (a : Arrival) (now : ℕ)
      → Kept limit r
      → DataOk limit d
      → d.closed ≡ false
      → Kept limit (expected_packet r d side a now).0
  unfolding expected_packet
  expected_packet-Kept r d side a now k ok o =
      let o' = set_side-closed limit d side _ ∙ o in
      finish-Kept a.fin_or_rst _ _ side a.flow_key now
        (send_messages-Kept limit _ side _ _ (send_messages-Kept limit r side _ _ k))
        (checked_data-DataOk _ false _ side k.0 (set_sequence-DataOk d side _ _ ok o) o')
        (checked_data-closed _ false _ side ∙ o')

  -- The side after a push: a word, open, and one fragment over the limit at most.
  pushed-SideOk :
      (s : OneSideData) (f : Fragment)
      → SideOk limit s
      → s.got_fin_or_rst ≡ false
      → (ltb 0 limit && ltb limit (length (s.fragments ++ f ∷ []))) ≡ false
      → SideOk limit (record s { fragments = s.fragments ++ f ∷ [] })
  pushed-SideOk s f ok fresh room = record {
    word = ok.word;
    bounded = λ h. ground arith;
    quiet = λ g. cc;
  }

  out_of_order_packet-Kept :
      (r : TcpReassembly) (d : TcpReassemblyData) (side : Side) (a : Arrival) (now : ℕ)
      → Kept limit r
      → DataOk limit d
      → d.closed ≡ false
      → (get_side d side).got_fin_or_rst ≡ false
      → Kept limit (out_of_order_packet r d side a now).0
  unfolding out_of_order_packet
  out_of_order_packet-Kept r d side a now k ok o fresh =
      let s = get_side d side in
      let f : Fragment = record { sequence = a.sequence; payload = a.payload } in
      let s' = record s { fragments = s.fragments ++ f ∷ [] } in
      let o' = set_side-closed limit d side s' ∙ o in
      let sok = get_side-SideOk limit d side ok in
      let full =
        λ (l : ℕ). ltb 0 l && ltb l (length (get_side (push_fragment d side a) side).fragments) in
      elim (Bool-cases (full r.max_out_of_order_fragments)) [
        | inl yes' ↦ rw yes' (
            finish-Kept a.fin_or_rst _ _ side a.flow_key now (send_messages-Kept limit r side _ _ k)
              (checked_set_side-DataOk _ false d side s' k.0 ok o sok.word (λ g. cc))
              (checked_data-closed _ false _ side ∙ o'))
        | inr room ↦ rw room (
            finish-Kept a.fin_or_rst r _ side a.flow_key now k
              (set_side-DataOk limit d side s' ok o (
                pushed-SideOk s f sok fresh (
                  subst
                    (λ (t : OneSideData). (ltb 0 limit && ltb limit (length t.fragments)) ≡ false)
                    (get_side-set_side limit d side s') (subst (λ l. full l ≡ false) k.0 room))))
              o')
      ]

  handle_data-Kept :
      (r : TcpReassembly) (d : TcpReassemblyData) (side : Side) (is_first : Bool) (a : Arrival)
      (now : ℕ)
      → Kept limit r
      → DataOk limit d
      → d.closed ≡ false
      → (get_side d side).got_fin_or_rst ≡ false
      → Kept limit (handle_data r d side is_first a now).0
  unfolding handle_data empty_packet
  handle_data-Kept r d side true a now k ok o fresh = first_packet-Kept r d side a now k ok o
  handle_data-Kept r d side false a now k ok o fresh =
      let expected = (get_side d side).sequence in
      elim (Bool-cases (seq_lt a.sequence expected)) [
        | inl low ↦ rw low (retransmission-Kept r d side a now k ok o)
        | inr high ↦ elim (Bool-cases (length a.payload == 0)) [
          | inl empty ↦ rw (high, empty) (finish-Kept a.fin_or_rst r d side a.flow_key now k ok o)
          | inr full ↦ elim (Bool-cases (a.sequence == expected)) [
            | inl exact ↦ rw (high, full, exact) (expected_packet-Kept r d side a now k ok o)
            | inr later ↦
                rw (high, full, later) (out_of_order_packet-Kept r d side a now k ok o fresh)
          ]
        ]
      ]

  prev_side-DataOk :
      (d : TcpReassemblyData) (p : Option Side)
      → DataOk limit d
      → DataOk limit (record d { prev_side = p })
  prev_side-DataOk d p ok = record {
    first_ok = ok.first_ok;
    second_ok = ok.second_ok;
    two = ok.two;
    done = ok.done;
  }

  -- Checking one side leaves the FIN flags as they are.
  checked_data-got :
      (l : ℕ) (clean : Bool) (d : TcpReassemblyData) (side other : Side)
      → (get_side (checked_data l clean d side) other).got_fin_or_rst
        ≡ (get_side d other).got_fin_or_rst
  unfolding checked_data checked_side
  checked_data-got l clean d side_0 side_0 = refl
  checked_data-got l clean d side_0 side_1 = refl
  checked_data-got l clean d side_1 side_0 = refl
  checked_data-got l clean d side_1 side_1 = refl

  prev_side-got :
      (d : TcpReassemblyData) (p : Option Side) (side : Side)
      → (get_side (record d { prev_side = p }) side).got_fin_or_rst
        ≡ (get_side d side).got_fin_or_rst
  prev_side-got d p side_0 = refl
  prev_side-got d p side_1 = refl

  pub handle_side-Kept :
      (r : TcpReassembly) (d : TcpReassemblyData) (side : Side) (is_first : Bool) (a : Arrival)
      (now : ℕ)
      → Kept limit r
      → DataOk limit d
      → d.closed ≡ false
      → Kept limit (handle_side r d side is_first a now).0
  unfolding handle_side
  handle_side-Kept r d side is_first a now k ok o =
      elim (Bool-cases (get_side d side).got_fin_or_rst) [
        | inl got ↦ rw got (store-Kept limit r a.flow_key d k ok)
        | inr fresh ↦ elim (Bool-cases (a.fin_or_rst && length a.payload == 0)) [
          | inl fin ↦ rw (fresh, fin) (handle_fin_or_rst-Kept limit r d side a.flow_key now k ok o)
          | inr more ↦ elim (Option-cases (cleaned_side d side is_first a)) [
            | inl e ↦
                rw (fresh, more, e)
                  (handle_data-Kept r _ side is_first a now k (prev_side-DataOk d _ ok) o
                    (prev_side-got d (some side) side ∙ fresh))
            | inr (p, e) ↦
                rw (fresh, more, e)
                  (handle_data-Kept _ _ side is_first a now (send_messages-Kept limit r p _ _ k)
                    (prev_side-DataOk _ _ (checked_data-DataOk _ true d p k.0 ok o))
                    (checked_data-closed _ true d p ∙ o)
                    (prev_side-got (checked_data r.max_out_of_order_fragments true d p) (some side)
                        side
                      ∙ checked_data-got _ true d p side
                      ∙ fresh))
          ]
        ]
      ]
