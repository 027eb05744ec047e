-- ===== src/Ip/Process/Gathering.antt =====
-- What IPReassembly holds of a packet whose fragments are all to come, and how it goes on.
use mathlib.Core.Path.{subst}
use pcap_plus_plus.Prelude.{
  ℕ, ◌≤◌, ◌<◌, ◌≡◌, refl, sym, ap, ◌∙◌, ◌≢◌, ◌⊎◌, inl, inr, Bool, true, false, Option, none, some,
  List, [], ◌∷◌, ◌++◌, arith, ◌==◌, if◌then◌else◌, length, All, All-append, Bool-cases,
}
use pcap_plus_plus.Prelude.Map.{lookup, lookup-insert_self, lookup-erase}
use pcap_plus_plus.RawPacket.Buffers.{take_all}
use pcap_plus_plus.Ip.Fragment.{
  IpLayer, IpPacket, is_fragment, is_last_fragment, get_fragment_offset, hash_packet,
}
use pcap_plus_plus.Ip.Match.{IpFragment, match_scan, match_loop, match_out_of_order_fragments}
use pcap_plus_plus.Ip.Match.Payload.{Cut, Assembled, match_out_of_order_fragments-Grown}
use pcap_plus_plus.Ip.Match.Progress.{
  StartsAt, StartsAt-append, StartsAt-last, Part, match_out_of_order_fragments-Progress,
}
use pcap_plus_plus.Ip.Process.{
  ReassemblyStatus, reassembled, IpFragmentData, IpReassembly, Outcome, packet, store, complete,
  extended,
}

-- The fragment of a packet, and those that come with a list of packets.
abbrev pub carried : IpLayer → IpPacket → IpFragment
carried l p = record {
  fragment_offset = get_fragment_offset l;
  last_fragment = is_last_fragment l;
  fragment_data = p.payload;
}

abbrev pub arriving : List IpPacket → List IpFragment
arriving [] = []
arriving (p ∷ ps) = elim p.layer [ none ↦ arriving ps | some l ↦ carried l p ∷ arriving ps ]

if_self : {A : Type 0} (x : ℕ) (a b : A) → (if x == x then a else b) ≡ a
if_self x a b = ground arith

All-map :
    {A : Type 0} (P Q : A → Type 0) (xs : List A) → ((a : A) → P a → Q a) → All P xs → All Q xs
All-map P Q [] f h = tt
All-map P Q (x ∷ xs) f h = (f x h.0, All-map P Q xs f h.1)

pub false-ne-true : false ≡ true → ⊥
false-ne-true e = cc

nothing_found :
    (offset : ℕ) (raw : List ℕ) → (match_out_of_order_fragments offset raw []).found_last ≡ false
unfolding match_out_of_order_fragments match_loop match_scan
nothing_found offset raw = refl

-- The offset, or one of those of the fragments that come later.
abbrev pub With : (ℕ → Type 0) → ℕ → ℕ → Type 0
With Coming offset k = (k ≡ offset) ⊎ Coming k

module _ (payload front : List ℕ) where
  -- The packet is put together and its entry is gone.
  pub record Reassembles (hash : ℕ) (o : Outcome) : Type 0 where
    pub is_reassembled : o.status ≡ reassembled
    pub whole : o.returned ≡ packet (front ++ payload) (length payload)
    pub gone : lookup hash o.state.fragment_map ≡ none

module _ (payload front : List ℕ) (Expected : ℕ → Type 0) where
  -- What the entry of a packet holds while fragments of the payload are to come; the ones that
  -- start where Coming says are among them.
  pub record Gathers (Coming : ℕ → Type 0) (d : IpFragmentData) : Type 0 where
    pub parts : All (Part payload Expected) d.waiting
    pub none_here : All (λ f. d.current_offset ≢ f.fragment_offset) d.waiting
    pub here : Expected d.current_offset
    pub kept : (k : ℕ) → Expected k → ((k < d.current_offset) ⊎ StartsAt k d.waiting) ⊎ Coming k
    pub bytes :
        ((d.raw ≡ none) × (d.current_offset ≡ 0))
        ⊎ ((raw : List ℕ) × (d.raw ≡ some raw)
            × Assembled payload front d.current_offset raw
            × (0 < d.current_offset))

  -- A packet of the hash with a part of the payload; the first one has the front, and is not last.
  pub record Piece (hash : ℕ) (p : IpPacket) : Type 0 where
    pub l : IpLayer
    pub has_layer : p.layer ≡ some l
    pub fragmented : is_fragment l ≡ true
    pub same_packet : hash_packet l ≡ hash
    pub part : Part payload Expected (carried l p)
    pub starts :
        get_fragment_offset l ≡ 0 → (is_last_fragment l ≡ false) × (p.raw ≡ front ++ p.payload)

  abbrev pub Holding : (ℕ → Type 0) → ℕ → IpReassembly → Type 0
  Holding Coming hash r =
      (d : IpFragmentData) × (lookup hash r.fragment_map ≡ some d) × Gathers Coming d

  abbrev pub Steps : (ℕ → Type 0) → ℕ → Option Outcome → Type 0
  Steps Coming hash none = ⊥
  Steps Coming hash (some o) = Reassembles payload front hash o ⊎ Holding Coming hash o.state

  module _ (small : length payload < 0x1_0000) (Coming : ℕ → Type 0) where
    pub complete-Reassembles :
        (r : IpReassembly) (hash : ℕ) (raw : List ℕ) (offset : ℕ)
        → Assembled payload front offset raw
        → offset ≡ length payload
        → Steps Coming hash (complete r hash false raw offset)
    unfolding complete
    complete-Reassembles r hash raw offset (le, e) whole = inl (record {
      is_reassembled = refl;
      whole = rw (e, whole) (ap (λ ys. packet (front ++ ys) (length payload)) (take_all payload));
      gone = lookup-erase hash hash r.fragment_map ∙ if_self hash _ _;
    })

    -- The bytes go on to an offset where a fragment is expected, and the waiting ones are matched.
    pub extended-Steps :
        (r : IpReassembly) (hash : ℕ) (is_new : Bool) (d : IpFragmentData) (raw : List ℕ)
        (offset : ℕ) (status : ReassemblyStatus)
        → (is_new ≡ true → d.waiting ≡ [])
        → All (Part payload Expected) d.waiting
        → Assembled payload front offset raw
        → 0 < offset
        → Expected offset
        → ((k : ℕ) → Expected k → ((k < offset) ⊎ StartsAt k d.waiting) ⊎ Coming k)
        → Steps Coming hash (extended r hash is_new d raw offset false status)
    unfolding extended store
    extended-Steps r hash is_new d raw offset status fresh parts bytes pos here kept =
        let m = match_out_of_order_fragments offset raw d.waiting in
        let d' = record d {
          current_offset = m.current_offset;
          raw = some m.raw;
          waiting = m.waiting;
        } in
        let going =
          match_out_of_order_fragments-Progress payload Expected small offset raw d.waiting here
            parts in
        let ((bytes', le, cut, whole), end) =
          match_out_of_order_fragments-Grown payload small front offset raw d.waiting bytes
            (All-map (Part payload Expected) (Cut payload) d.waiting (λ f part. part.cut) parts) in
        elim (Bool-cases m.found_last) [
          | inl found ↦ elim (Bool-cases is_new) [
            | inl new ↦
                let none_waits = λ (w : List IpFragment).
                  (match_out_of_order_fragments offset raw w).found_last ≡ true in
                absurd (
                  false-ne-true
                    (sym (nothing_found offset raw) ∙ subst none_waits (fresh new) found))
            | inr old ↦
                rw (found, old)
                  (complete-Reassembles _ hash m.raw m.current_offset bytes' (whole found))
          ]
          | inr more ↦ rw more (
              inr (
                d',
                lookup-insert_self hash d' r.fragment_map,
                record {
                  parts = going.parts;
                  none_here = elim end [
                    | inl found ↦ absurd (false-ne-true (sym more ∙ found))
                    | inr waits ↦ waits
                  ];
                  here = going.expected refl more;
                  kept = λ k e. elim (kept k e) [
                    | inl (inl below) ↦ inl (inl (omega (arith, going.forward)))
                    | inl (inr waits) ↦ inl (going.taken k waits)
                    | inr comes ↦ inr comes
                  ];
                  bytes = inr (m.raw, refl, bytes', omega (arith, going.forward));
                },
              ))
        ]

    -- The packet whose fragment starts before the current offset, or waits, has come.
    pub come :
        (d : IpFragmentData) (offset : ℕ)
        → (offset < d.current_offset) ⊎ StartsAt offset d.waiting
        → Gathers (With Coming offset) d
        → Gathers Coming d
    come d offset at g = record {
      parts = g.parts;
      none_here = g.none_here;
      here = g.here;
      kept = λ k e. elim (g.kept k e) [
        | inl there ↦ inl there
        | inr (inl this) ↦
            inl (subst (λ j. (j < d.current_offset) ⊎ StartsAt j d.waiting) (sym this) at)
        | inr (inr comes) ↦ inr comes
      ];
      bytes = g.bytes;
    }

    -- The same where the current offset goes behind the fragment.
    pub passed :
        (d : IpFragmentData) (offset end : ℕ)
        → d.current_offset ≤ offset
        → offset < end
        → Gathers (With Coming offset) d
        → (k : ℕ) → Expected k
        → ((k < end) ⊎ StartsAt k d.waiting) ⊎ Coming k
    passed d offset end at behind g k e = elim (g.kept k e) [
      | inl (inl below) ↦ inl (inl (omega arith))
      | inl (inr waits) ↦ inl (inr waits)
      | inr (inl this) ↦ inl (inl (omega arith))
      | inr (inr comes) ↦ inr comes
    ]

    pub queued :
        (d : IpFragmentData) (f : IpFragment)
        → d.current_offset < f.fragment_offset
        → Part payload Expected f
        → Gathers (With Coming f.fragment_offset) d
        → Gathers Coming (record d { waiting = d.waiting ++ f ∷ [] })
    queued d f later part g = come _ f.fragment_offset (inr (StartsAt-last d.waiting f)) (record {
      parts = All-append (Part payload Expected) d.waiting (f ∷ []) g.parts (part, tt);
      none_here =
          All-append (λ h. d.current_offset ≢ h.fragment_offset) d.waiting (f ∷ []) g.none_here
            ((λ e. absurd (omega arith)), tt);
      here = g.here;
      kept = λ k e. elim (g.kept k e) [
        | inl (inl below) ↦ inl (inl below)
        | inl (inr waits) ↦ inl (inr (StartsAt-append k d.waiting (f ∷ []) waits))
        | inr comes ↦ inr comes
      ];
      bytes = g.bytes;
    })
