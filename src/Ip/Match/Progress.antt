-- ===== src/Ip/Match/Progress.antt =====
-- What matchOutOfOrderFragments has taken up: each waiting fragment that is gone starts before the
-- new offset, and that offset is where another fragment is expected.
use mathlib.Core.Path.{subst}
use pcap_plus_plus.Prelude.{
  ℕ, zero, suc, ◌+◌, ◌≤◌, ◌<◌, ◌≡◌, refl, sym, ◌≢◌, ◌⊎◌, inl, inr, Bool, false, not, ◌||◌, List, [],
  ◌∷◌, ◌++◌, arith, ◌==◌, ==_iff, length, All, Bool-cases, if_cases,
}
use pcap_plus_plus.Ip.Match.{
  IpFragment, Matching, advance, match_scan, match_loop, match_out_of_order_fragments,
}
use pcap_plus_plus.Ip.Match.Payload.{Cut}

-- One of the fragments starts at the offset.
abbrev pub StartsAt : ℕ → List IpFragment → Type 0
StartsAt k [] = ⊥
StartsAt k (f ∷ fs) = (k ≡ f.fragment_offset) ⊎ StartsAt k fs

pub StartsAt-append : (k : ℕ) (fs gs : List IpFragment) → StartsAt k fs → StartsAt k (fs ++ gs)
StartsAt-append k [] gs h = absurd h
StartsAt-append k (f ∷ fs) gs (inl e) = inl e
StartsAt-append k (f ∷ fs) gs (inr h) = inr (StartsAt-append k fs gs h)

pub StartsAt-last :
    (fs : List IpFragment) (f : IpFragment) → StartsAt f.fragment_offset (fs ++ f ∷ [])
StartsAt-last [] f = inl refl
StartsAt-last (g ∷ fs) f = inr (StartsAt-last fs f)

pub StartsAt-nowhere :
    (k : ℕ) (fs : List IpFragment) → All (λ f. k ≢ f.fragment_offset) fs → StartsAt k fs → ⊥
StartsAt-nowhere k [] a h = h
StartsAt-nowhere k (f ∷ fs) a (inl e) = a.0 e
StartsAt-nowhere k (f ∷ fs) a (inr h) = StartsAt-nowhere k fs a.1 h

module _ (payload : List ℕ) (Expected : ℕ → Type 0) where
  -- A fragment of the payload with data, behind which another one is expected unless it is the
  -- last one.
  pub record Part (f : IpFragment) : Type 0 where
    pub cut : Cut payload f
    pub filled : 0 < length f.fragment_data
    pub next : f.last_fragment ≡ false → Expected (f.fragment_offset + length f.fragment_data)

  -- From a list of fragments and an offset to the matching's; ended says that the last fragment was
  -- found before.
  pub record Progress (ended : Bool) (offset : ℕ) (fs : List IpFragment) (m : Matching)
      : Type 0 where
    pub forward : offset ≤ m.current_offset
    pub parts : All Part m.waiting
    pub taken : (k : ℕ) → StartsAt k fs → (k < m.current_offset) ⊎ StartsAt k m.waiting
    pub expected : ended ≡ false → m.found_last ≡ false → Expected m.current_offset

  module _ (small : length payload < 0x1_0000) where
    pub advance-Cut :
        (offset : ℕ) (f : IpFragment)
        → Cut payload f
        → offset ≡ f.fragment_offset
        → advance offset (length f.fragment_data) ≡ f.fragment_offset + length f.fragment_data
    unfolding advance
    advance-Cut offset f cut at = omega (arith, cut.inside)

    none_found :
        (ended : Bool) (offset : ℕ) (raw : List ℕ) (fs : List IpFragment)
        → (ended ≡ false → Expected offset)
        → All Part fs
        → Progress ended offset fs (record {
          current_offset = offset;
          raw = raw;
          waiting = fs;
          found_last = false;
          found = false;
        })
    none_found ended offset raw fs here parts = record {
      forward = omega arith;
      parts = parts;
      taken = λ k h. inr h;
      expected = λ e l. here e;
    }

    or_false : (a b : Bool) → a || b ≡ false → (a ≡ false) × (b ≡ false)
    or_false a b h = ground arith

    match_scan-Progress :
        (ended : Bool) (offset : ℕ) (raw : List ℕ) (fs : List IpFragment)
        → (ended ≡ false → Expected offset)
        → All Part fs
        → Progress ended offset fs (match_scan offset raw fs)
    unfolding match_scan
    match_scan-Progress ended offset raw [] here parts = none_found ended offset raw [] here tt
    match_scan-Progress ended offset raw (f ∷ fs) here (part, parts) =
        elim (Bool-cases (offset == f.fragment_offset)) [
          | inl hit ↦
              let next = advance offset (length f.fragment_data) in
              let at = (==_iff _ _).0 hit in
              let e = advance-Cut offset f part.cut at in
              let m = match_scan next (raw ++ f.fragment_data) fs in
              let rest =
                match_scan-Progress (ended || f.last_fragment) next (raw ++ f.fragment_data) fs
                  (λ o. subst Expected (sym e) (part.next (or_false ended _ o).1)) parts in
              rw hit (record {
                forward = omega (arith, rest.forward, e, at);
                parts = rest.parts;
                taken = λ k h. elim h [
                  | inl this ↦ inl (omega (arith, rest.forward, e, at, part.filled, this))
                  | inr later ↦ rest.taken k later
                ];
                expected = λ o l.
                    let (last, more) = or_false f.last_fragment m.found_last l in
                    rest.expected (rw (o, last)) more;
              })
          | inr miss ↦
              let rest = match_scan-Progress ended offset raw fs here parts in
              rw miss (record {
                forward = rest.forward;
                parts = (part, rest.parts);
                taken = λ k h. elim h [
                  | inl this ↦ inr (inl this)
                  | inr later ↦ elim (rest.taken k later) [
                    | inl gone ↦ inl gone
                    | inr waits ↦ inr (inr waits)
                  ]
                ];
                expected = rest.expected;
              })
        ]

    Progress_trans :
        (offset : ℕ) (fs : List IpFragment) (m n : Matching)
        → Progress false offset fs m
        → Progress false m.current_offset m.waiting n
        → Progress false offset fs n
    Progress_trans offset fs m n p q = record {
      forward = omega (arith, p.forward, q.forward);
      parts = q.parts;
      taken = λ k h. elim (p.taken k h) [
        | inl gone ↦ inl (omega (arith, q.forward))
        | inr waits ↦ q.taken k waits
      ];
      expected = q.expected;
    }

    not_or_last : (a b : Bool) → not a || b ≡ false → b ≡ false
    not_or_last a b h = ground arith

    match_loop-Progress :
        (fuel offset : ℕ) (raw : List ℕ) (fs : List IpFragment)
        → Expected offset
        → All Part fs
        → Progress false offset fs (match_loop fuel offset raw fs)
    unfolding match_loop
    match_loop-Progress zero offset raw fs here parts =
        none_found false offset raw fs (λ e. here) parts
    match_loop-Progress (suc fuel) offset raw fs here parts =
        let m = match_scan offset raw fs in
        let scan = match_scan-Progress false offset raw fs (λ e. here) parts in
        if_cases (Progress false offset fs) (not m.found || m.found_last) _ _ (λ stop. scan)
          λ more. Progress_trans offset fs m _ scan (
            match_loop-Progress fuel m.current_offset m.raw m.waiting
              (scan.expected refl (not_or_last m.found m.found_last more)) scan.parts)

    pub match_out_of_order_fragments-Progress :
        (offset : ℕ) (raw : List ℕ) (fs : List IpFragment)
        → Expected offset
        → All Part fs
        → Progress false offset fs (match_out_of_order_fragments offset raw fs)
    unfolding match_out_of_order_fragments
    match_out_of_order_fragments-Progress offset raw fs here parts =
        match_loop-Progress (suc (length fs)) offset raw fs here parts
