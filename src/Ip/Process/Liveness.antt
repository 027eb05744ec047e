-- ===== src/Ip/Process/Liveness.antt =====
-- IPReassembly reassembles a packet whose fragments all come, in whatever order.
use mathlib.Core.Path.{subst}
use mathlib.Core.List.{map}
use pcap_plus_plus.Prelude.{
  ℕ, ◌<◌, ◌≡◌, refl, ap, ◌⊎◌, inl, inr, true, false, Option, none, some, List, [], ◌∷◌, ◌++◌, arith,
  length, All,
}
use pcap_plus_plus.Prelude.Map.{lookup, insert, lookup-insert_self, some_inj}
use pcap_plus_plus.Ip.Fragment.{IpLayer, IpPacket, PacketKey, get_fragment_offset}
use pcap_plus_plus.Ip.Match.Progress.{StartsAt, StartsAt-nowhere}
use pcap_plus_plus.Ip.Process.{
  IpFragmentData, IpReassembly, Outcome, new_data, add_new_fragment, find_and_handle,
  process_packet,
}
use pcap_plus_plus.Ip.Process.Invariant.{
  IpOk, Returns, process, run, key_of_fragment, add_new_fragment_lem, process_packet-Returns,
}
use pcap_plus_plus.Ip.Process.Gathering.{
  carried, arriving, Reassembles, Gathers, Piece, Holding, Steps, With,
}
use pcap_plus_plus.Ip.Process.Steps.{handle_fragment-Steps}

-- The entry that was made is the one that was given.
lookup-add_new_fragment :
    (r q : IpReassembly) (hash : ℕ) (d : IpFragmentData)
    → add_new_fragment r hash d ≡ some q
    → lookup hash q.fragment_map ≡ some d
unfolding add_new_fragment
lookup-add_new_fragment r q hash d e = stored _ e
  where
    stored :
        (room : Option IpReassembly)
        → (elim room [
          | none ↦ none
          | some s ↦ some (record s { fragment_map = insert hash d s.fragment_map })
        ])
          ≡ some q
        → lookup hash q.fragment_map ≡ some d
    stored none e = cc
    stored (some s) e =
        subst (λ z. lookup hash z.fragment_map ≡ some d) (some_inj e)
          (lookup-insert_self hash d s.fragment_map)

false-ne-true : false ≡ true → ⊥
false-ne-true e = cc

arriving-cons :
    (p : IpPacket) (ps : List IpPacket) (l : IpLayer)
    → p.layer ≡ some l
    → arriving (p ∷ ps) ≡ carried l p ∷ arriving ps
arriving-cons p ps l e = rw e refl

module _ (capacity : ℕ) (pos : 0 < capacity) (payload front : List ℕ)
    (small : length payload < 0x1_0000) (Expected : ℕ → Type 0) (hash : ℕ) where
  -- The entry of the hash is there, or nothing has come.
  abbrev Awaits : (ℕ → Type 0) → IpReassembly → Type 0
  Awaits Coming r =
      ((lookup hash r.fragment_map ≡ none) × ((k : ℕ) → Expected k → Coming k))
      ⊎ Holding payload front Expected Coming hash r

  new_data-Gathers :
      (key : PacketKey) (Coming : ℕ → Type 0) (offset : ℕ)
      → Expected 0
      → ((k : ℕ) → Expected k → With Coming offset k)
      → Gathers payload front Expected (With Coming offset) (new_data key)
  unfolding new_data
  new_data-Gathers key Coming offset zero_expected all_come = record {
    parts = tt;
    none_here = tt;
    here = zero_expected;
    kept = λ k e. inr (all_come k e);
    bytes = inl (refl, refl);
  }

  process_packet-Steps :
      (Coming : ℕ → Type 0) (r : IpReassembly) (p : IpPacket)
      (piece : Piece payload front Expected hash p)
      → IpOk capacity r
      → Expected 0
      → Awaits (With Coming (get_fragment_offset piece.l)) r
      → Steps payload front Expected Coming hash (process_packet r p)
  unfolding process_packet find_and_handle new_data
  process_packet-Steps Coming r p piece ok zero_expected aw =
      rw (piece.has_layer, process_packet, piece.fragmented, find_and_handle, piece.same_packet)
        (elim aw [
          | inl (absent, all_come) ↦
              let (key, made) = key_of_fragment capacity pos piece.l piece.fragmented in
              let (q, e, ok', there) =
                add_new_fragment_lem capacity pos r hash (new_data key) ok absent in
              rw (absent, made, piece.same_packet, e, piece.same_packet)
                (handle_fragment-Steps payload front Expected small Coming q hash true
                  (new_data key) p piece (λ new. (refl, refl))
                  (new_data-Gathers key Coming _ zero_expected all_come)
                  (lookup-add_new_fragment r q hash (new_data key) e))
          | inr (d, held, g) ↦
              rw (held, piece.same_packet)
                (handle_fragment-Steps payload front Expected small Coming _ hash false d p piece
                  (λ new. absurd (false-ne-true new)) g held)
        ])

  -- A packet of the list is the one that completes the payload, after those before it.
  abbrev Completes : IpReassembly → List IpPacket → Type 0
  Completes r ps =
      (before after : List IpPacket) × (p : IpPacket) × (q : IpReassembly) × (o : Outcome) × (ps
        ≡ before ++ p ∷ after)
      × (run r (map process before) ≡ some q)
      × (process_packet q p ≡ some o)
      × Reassembles payload front hash o

  abbrev Coming : List IpPacket → ℕ → Type 0
  Coming ps k = StartsAt k (arriving ps)

  stepped :
      (later : ℕ → Type 0) (x : Option Outcome)
      → Returns capacity x
      → Steps payload front Expected later hash x
      → (o : Outcome) × (x ≡ some o)
        × IpOk capacity o.state
        × (Reassembles payload front hash o ⊎ Holding payload front Expected later hash o.state)
  stepped later none ok h = absurd h
  stepped later (some o) ok h = (o, refl, ok, h)

  find_completion :
      (r : IpReassembly) (ps : List IpPacket)
      → IpOk capacity r
      → Expected 0
      → Awaits (Coming ps) r
      → All (Piece payload front Expected hash) ps
      → Completes r ps
  unfolding run
  find_completion r [] ok zero_expected (inl (absent, all_come)) pieces =
      absurd (all_come 0 zero_expected)
  find_completion r [] ok zero_expected (inr (d, held, g)) pieces =
      absurd (elim (g.kept d.current_offset g.here) [
        | inl (inl below) ↦ omega arith
        | inl (inr waits) ↦ StartsAt-nowhere d.current_offset d.waiting g.none_here waits
        | inr comes ↦ comes
      ])
  find_completion r (p ∷ ps) ok zero_expected aw (piece, pieces) =
      let comes = arriving-cons p ps piece.l piece.has_layer in
      let aw' = subst (λ fs. Awaits (λ k. StartsAt k fs) r) comes aw in
      let (o, e, ok', next) =
        stepped (Coming ps) (process_packet r p) (process_packet-Returns capacity pos r p ok)
          (process_packet-Steps (Coming ps) r p piece ok zero_expected aw') in
      elim next [
        | inl done ↦ ([], ps, p, r, o, refl, refl, e, done)
        | inr holding ↦
            let (before, after, p', q, o', split, ran, last, done) =
              find_completion o.state ps ok' zero_expected (inr holding) pieces in
            (p ∷ before, after, p', q, o', ap (λ xs. p ∷ xs) split, rw (e, run) ran, last, done)
      ]

-- Where the capacity is one packet or more, and no fragment of a packet has come: all fragments of
-- its payload of less than 2^16 bytes, each with data, come in any order and any of them more than
-- once. One starts at 0, behind each but the last there is one that starts, the first is not the
-- last, and its packet has its data behind the front. Then processPacket of one of them, after
-- those before it, gives the front and the payload with the status REASSEMBLED, and the entry is
-- gone.
pub process_packet-Reassembles :
    (capacity : ℕ) (r : IpReassembly) (payload front : List ℕ) (hash : ℕ) (ps : List IpPacket)
    → 0 < capacity
    → IpOk capacity r
    → lookup hash r.fragment_map ≡ none
    → length payload < 0x1_0000
    → StartsAt 0 (arriving ps)
    → All (Piece payload front (λ k. StartsAt k (arriving ps)) hash) ps
    → (before after : List IpPacket) × (p : IpPacket) × (q : IpReassembly) × (o : Outcome) × (ps
        ≡ before ++ p ∷ after)
      × (run r (map process before) ≡ some q)
      × (process_packet q p ≡ some o)
      × Reassembles payload front hash o
process_packet-Reassembles capacity r payload front hash ps pos ok absent small zero_expected
      pieces =
    find_completion capacity pos payload front small (λ k. StartsAt k (arriving ps)) hash r ps ok
      zero_expected (inl (absent, λ k e. e)) pieces
