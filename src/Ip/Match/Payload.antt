-- ===== src/Ip/Match/Payload.antt =====
-- matchOutOfOrderFragments ends, and puts the original payload together.
use mathlib.Core.Path.{subst}
use mathlib.Core.List.{append_assoc}
use pcap_plus_plus.Prelude.{
  ℕ, zero, suc, ◌+◌, ◌%◌, ◌≤◌, ◌<◌, ◌≡◌, refl, sym, ap, ◌∙◌, ◌≢◌, ◌⊎◌, inl, inr, Bool, true, false,
  not, ◌||◌, List, [], ◌∷◌, ◌++◌, arith, ◌==◌, ==_iff, length, take, drop, All, Bool-cases,
  if_cases,
}
use pcap_plus_plus.Ip.Match.{
  IpFragment, Matching, advance, match_scan, match_loop, match_out_of_order_fragments,
}

-- A scan takes off the list each fragment that it finds.
length-match_scan :
    (offset : ℕ) (raw : List ℕ) (fs : List IpFragment)
    → let m = match_scan offset raw fs in
      (length m.waiting ≤ length fs) × (m.found ≡ true → length m.waiting < length fs)
unfolding match_scan
length-match_scan offset raw [] = (omega arith, λ h. cc)
length-match_scan offset raw (f ∷ fs) = elim (Bool-cases (offset == f.fragment_offset)) [
  | inl hit ↦
      let (l, g) =
        length-match_scan (advance offset (length f.fragment_data)) (raw ++ f.fragment_data) fs in
      rw hit (omega arith, λ h. omega arith)
  | inr miss ↦
      let (l, g) = length-match_scan offset raw fs in rw miss (omega arith, λ h. omega (arith, g h))
]

false-ne-true : false ≡ true → ⊥
false-ne-true e = cc

-- A scan that found nothing changed nothing and no fragment waits for the offset.
match_scan_idle :
    (offset : ℕ) (raw : List ℕ) (fs : List IpFragment)
    → let m = match_scan offset raw fs in
      m.found ≡ false
      → (m.current_offset ≡ offset)
        × (m.found_last ≡ false)
        × All (λ f. offset ≢ f.fragment_offset) m.waiting
unfolding match_scan
match_scan_idle offset raw [] h = (refl, refl, tt)
match_scan_idle offset raw (f ∷ fs) h = elim (Bool-cases (offset == f.fragment_offset)) [
  | inl hit ↦ cc (rw hit at h)
  | inr miss ↦
      let (o, l, w) = match_scan_idle offset raw fs (rw miss at h) in
      rw miss (o, l, (λ e. false-ne-true (sym miss ∙ (==_iff offset f.fragment_offset).1 e), w))
]

not_or_false : (a b : Bool) → (not a || b) ≡ false → (a ≡ true) × (b ≡ false)
not_or_false a b h = ground arith

abbrev pub Ended : Matching → Type 0
Ended m = (m.found_last ≡ true) ⊎ All (λ f. m.current_offset ≢ f.fragment_offset) m.waiting

-- The loop ends: it found the last fragment, or no waiting fragment starts at the offset.
match_loop_ends :
    (fuel offset : ℕ) (raw : List ℕ) (fs : List IpFragment)
    → length fs < fuel
    → Ended (match_loop fuel offset raw fs)
unfolding match_loop
match_loop_ends zero offset raw fs h = absurd (omega arith)
match_loop_ends (suc fuel) offset raw fs h =
    let m = match_scan offset raw fs in
    if_cases Ended (not m.found || m.found_last) _ _
      (λ stop. elim (Bool-cases m.found) [
        | inl hit ↦ inl (rw hit at stop)
        | inr miss ↦
            let (o, l, w) = match_scan_idle offset raw fs miss in
            inr (subst (λ n. All (λ f. n ≢ f.fragment_offset) m.waiting) (sym o) w)
      ])
      λ more.
        let shorter =
          (length-match_scan offset raw fs).1 (not_or_false m.found m.found_last more).0 in
        match_loop_ends fuel m.current_offset m.raw m.waiting (omega arith)

take-nil {ℓ} : {A : Type ℓ} (k : ℕ) → take {A = A} k [] ≡ []
take-nil zero = refl
take-nil (suc k) = refl

take_more {ℓ} :
    {A : Type ℓ} (n k : ℕ) (xs : List A) → take n xs ++ take k (drop n xs) ≡ take (n + k) xs
take_more zero k xs = ap (λ j. take j xs) (omega arith)
take_more (suc n) k [] = take-nil k ∙ sym (take-nil (suc n + k))
take_more (suc n) k (x ∷ xs) =
    let e : suc (n + k) ≡ suc n + k = omega arith in
    ap (◌∷◌ x) (take_more n k xs) ∙ ap (λ j. take j (x ∷ xs)) e

module _ (payload : List ℕ) where
  -- A fragment that was cut from the payload; the last one ends it.
  pub record Cut (f : IpFragment) : Type 0 where
    pub inside : f.fragment_offset + length f.fragment_data ≤ length payload
    pub data_of : f.fragment_data ≡ take (length f.fragment_data) (drop f.fragment_offset payload)
    pub ends :
        (f.last_fragment ≡ false) ⊎ (f.fragment_offset + length f.fragment_data ≡ length payload)

  -- The bytes put together: what came before the payload, and the payload up to the offset.
  abbrev pub Assembled : List ℕ → ℕ → List ℕ → Type 0
  Assembled front offset raw = (offset ≤ length payload) × (raw ≡ front ++ take offset payload)

  module _ (small : length payload < 0x1_0000) (front : List ℕ) where
    -- One matching fragment extends the bytes.
    pub Assembled-next :
        (offset : ℕ) (raw : List ℕ) (f : IpFragment)
        → Assembled front offset raw
        → Cut f
        → offset ≡ f.fragment_offset
        → (advance offset (length f.fragment_data) ≡ offset + length f.fragment_data)
          × Assembled front (advance offset (length f.fragment_data)) (raw ++ f.fragment_data)
    unfolding advance
    Assembled-next offset raw f (le, e) cut at =
        let n = length f.fragment_data in
        let fits : offset + n ≤ length payload = omega (arith, cut.inside, at) in
        let no_wrap : (offset + n) % 0x1_0000 ≡ offset + n = omega arith in
        (
          no_wrap,
          rw no_wrap (
            fits,
            ap (λ r. r ++ f.fragment_data) e
                ∙ append_assoc front (take offset payload) f.fragment_data
                ∙ ap (◌++◌ front) (
                    ap (◌++◌ (take offset payload))
                      (cut.data_of ∙ ap (λ o. take n (drop o payload)) (sym at))
                    ∙ take_more offset n payload),
          ),
        )

    -- The bytes and the offset grow, and if the last fragment is found they are complete.
    abbrev pub Grown : ℕ → Matching → Type 0
    Grown offset m =
        Assembled front m.current_offset m.raw
        × (offset ≤ m.current_offset)
        × All Cut m.waiting
        × (m.found_last ≡ true → m.current_offset ≡ length payload)

    match_scan_grows :
        (offset : ℕ) (raw : List ℕ) (fs : List IpFragment)
        → Assembled front offset raw
        → All Cut fs
        → Grown offset (match_scan offset raw fs)
    unfolding match_scan
    match_scan_grows offset raw [] a cut = (a, omega arith, tt, λ h. cc)
    match_scan_grows offset raw (f ∷ fs) a cut = elim (Bool-cases (offset == f.fragment_offset)) [
      | inl hit ↦
          let at = (==_iff _ _).0 hit in
          let (e, a') = Assembled-next offset raw f a cut.0 at in
          let next = advance offset (length f.fragment_data) in
          let m = match_scan next (raw ++ f.fragment_data) fs in
          let (a'', g, w, d) = match_scan_grows next (raw ++ f.fragment_data) fs a' cut.1 in
          rw hit (
            a'',
            omega arith,
            w,
            λ last. elim (Bool-cases f.last_fragment) [
              | inl ends ↦ elim cut.0.ends [
                | inl not_last ↦ absurd (false-ne-true (sym not_last ∙ ends))
                | inr whole ↦ omega (arith, whole, a''.0)
              ]
              | inr goes_on ↦ d (rw goes_on at last)
            ],
          )
      | inr miss ↦
          let (a'', g, w, d) = match_scan_grows offset raw fs a cut.1 in
          rw miss (a'', g, (cut.0, w), d)
    ]

    match_loop_grows :
        (fuel offset : ℕ) (raw : List ℕ) (fs : List IpFragment)
        → Assembled front offset raw
        → All Cut fs
        → Grown offset (match_loop fuel offset raw fs)
    unfolding match_loop
    match_loop_grows zero offset raw fs a cut = (a, omega arith, cut, λ h. cc)
    match_loop_grows (suc fuel) offset raw fs a cut =
        let m = match_scan offset raw fs in
        let (a', g, w, d) = match_scan_grows offset raw fs a cut in
        if_cases (Grown offset) (not m.found || m.found_last) _ _ (λ stop. (a', g, w, d))
          λ more.
            let (a'', g', w', d') = match_loop_grows fuel m.current_offset m.raw m.waiting a' w in
            (a'', omega arith, w', d')

    pub match_out_of_order_fragments-Grown :
        (offset : ℕ) (raw : List ℕ) (fs : List IpFragment)
        → Assembled front offset raw
        → All Cut fs
        → let m = match_out_of_order_fragments offset raw fs in Grown offset m × Ended m
    unfolding match_out_of_order_fragments
    match_out_of_order_fragments-Grown offset raw fs a cut = (
      match_loop_grows (suc (length fs)) offset raw fs a cut,
      match_loop_ends (suc (length fs)) offset raw fs (omega arith),
    )

    -- For a payload of less than 2^16 bytes whose waiting fragments were cut from it:
    -- matchOutOfOrderFragments leaves the front and the payload up to the new offset, which is not
    -- below the old one, and only fragments cut from the payload. It stops with the last fragment,
    -- and then the payload is complete, or with no waiting fragment at the offset.
    pub match_out_of_order_fragments_assembles :
        (offset : ℕ) (raw : List ℕ) (fs : List IpFragment)
        → Assembled front offset raw
        → All Cut fs
        → let m = match_out_of_order_fragments offset raw fs in
          Assembled front m.current_offset m.raw
          × (offset ≤ m.current_offset)
          × All Cut m.waiting
          × (((m.found_last ≡ true) × (m.current_offset ≡ length payload))
              ⊎ All (λ f. m.current_offset ≢ f.fragment_offset) m.waiting)
    match_out_of_order_fragments_assembles offset raw fs a cut =
        let ((a', g, w, d), end) = match_out_of_order_fragments-Grown offset raw fs a cut in
        (a', g, w, elim end [ inl last ↦ inl (last, d last) | inr waits ↦ inr waits ])
