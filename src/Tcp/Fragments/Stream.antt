-- ===== src/Tcp/Fragments/Stream.antt =====
-- What checkOutOfOrderFragments sends to the callback, against the stream that the sender wrote:
-- a byte for each position of the 32-bit sequence space.
use mathlib.Core.Path.{subst}
use pcap_plus_plus.Prelude.{
  ℕ, zero, suc, ◌+◌, ◌-◌, ◌≤◌, ◌<◌, ◌≡◌, refl, sym, ap, ◌∙◌, ◌≢◌, inl, inr, Bool, true, List, [],
  ◌∷◌, ◌++◌, arith, ◌==◌, ==_iff, length, drop, length-drop, All, All-append, All-erase_at,
  All-get_elem?, Bool-cases,
}
use pcap_plus_plus.Prelude.Words.{
  IsU32, add32, sub32, add32-IsU32, add32_assoc, add32-zero, add32-sub32,
}
use pcap_plus_plus.Tcp.Seq.{seq_lt, seq_gt, seq_overlap}
use pcap_plus_plus.Tcp.Fragments.{
  Fragment, StreamData, Progress, visit, scan, drain, skip_to, may_wait, check_loop,
  check_fragments, missing_data_message,
}
use pcap_plus_plus.Tcp.Fragments.Loops.{Waits, drain_ends, closest_cases}

-- The bytes that a message with the given number of missing bytes carries for the data d.
abbrev pub announced : ℕ → List ℕ → List ℕ
announced zero d = d
announced (suc n) d = missing_data_message (suc n) ++ d

module _ (stream : ℕ → ℕ) where
  -- The data is what the stream holds from position s on.
  abbrev pub Matches : ℕ → List ℕ → Type 0
  Matches s [] = Unit {0}
  Matches s (b ∷ bs) = (b ≡ stream s) × Matches (add32 s 1) bs

  -- The messages take the reader from position s to position t: each one skips the bytes that it
  -- calls missing and carries the stream's bytes from there on, and the next one starts behind it.
  abbrev pub Delivers : ℕ → List StreamData → ℕ → Type 0
  Delivers s [] t = s ≡ t
  Delivers s (m ∷ ms) t =
      (d : List ℕ) × (m.bytes ≡ announced m.missing d)
      × Matches (add32 s m.missing) d
      × Delivers (add32 s (m.missing + length d)) ms t

  pub Delivers-append :
      (s t u : ℕ) (xs ys : List StreamData)
      → Delivers s xs t
      → Delivers t ys u
      → Delivers s (xs ++ ys) u
  Delivers-append s t u [] ys h k = subst (λ p. Delivers p ys u) (sym h) k
  Delivers-append s t u (m ∷ ms) ys (d, b, p, h) k =
      (d, b, p, Delivers-append (add32 s (m.missing + length d)) t u ms ys h k)

  pub Matches-drop :
      (n s : ℕ) (d : List ℕ) → IsU32 s → Matches s d → n ≤ length d → Matches (add32 s n) (drop n d)
  Matches-drop zero s d u h l = rw (add32-zero s u) h
  Matches-drop (suc n) s [] u h l = absurd (omega arith)
  Matches-drop (suc n) s (b ∷ bs) u h l =
      let e : add32 (add32 s 1) n ≡ add32 s (suc n) =
        add32_assoc s 1 n ∙ ap (add32 s) (omega arith) in
      subst (λ p. Matches p (drop n bs)) e
        (Matches-drop n (add32 s 1) bs (add32-IsU32 s 1) h.1 (omega arith))

  -- A message that misses nothing.
  pub Delivers-data :
      (s t : ℕ) (d : List ℕ)
      → IsU32 s
      → Matches s d
      → add32 s (length d) ≡ t
      → Delivers s (record { bytes = d; missing = 0 } ∷ []) t
  Delivers-data s t d u h e = (d, refl, rw (add32-zero s u) h, ap (add32 s) (omega arith) ∙ e)

  -- A buffered fragment that was cut from the stream.
  abbrev pub Genuine : Fragment → Type 0
  Genuine f = IsU32 f.sequence × Matches f.sequence f.payload

  -- Where the new part of a fragment that reaches across the expected sequence ends.
  pub new_end : (seq n len : ℕ) → n ≤ len → add32 seq (len - n) ≡ add32 seq (sub32 len n)
  unfolding add32 sub32
  new_end seq n len h = omega arith

  pub Delivers-overlap :
      (a seq : ℕ) (d : List ℕ)
      → IsU32 a
      → IsU32 seq
      → Matches a d
      → seq_lt a seq ≡ true
      → seq_gt (add32 a (length d)) seq ≡ true
      → Delivers seq
          (record { bytes = drop (sub32 seq a) d; missing = 0 } ∷ [])
          (add32 seq (sub32 (length d) (sub32 seq a)))
  Delivers-overlap a seq d ua us h l g =
      let n = sub32 seq a in
      let fits : n ≤ length d = seq_overlap a seq (length d) ua us l g in
      let part =
        subst (λ p. Matches p (drop n d)) (add32-sub32 a seq us) (Matches-drop n a d ua h fits) in
      Delivers-data seq _ (drop n d) us part
        (ap (add32 seq) (length-drop n d) ∙ new_end seq n (length d) fits)

  visit-Delivers :
      (seq : ℕ) (f : Fragment)
      → IsU32 seq
      → Genuine f
      → let v = visit seq f in
        IsU32 v.sequence × Delivers seq v.sent v.sequence × All Genuine v.kept
  unfolding visit
  visit-Delivers seq f u (uf, h) = elim (Bool-cases (f.sequence == seq)) [
    | inl same ↦
        let e = (==_iff _ _).0 same in
        rw same (
          add32-IsU32 _ _,
          Delivers-data seq _ f.payload u (subst (λ p. Matches p f.payload) e h) refl,
          tt,
        )
    | inr other ↦ elim (Bool-cases (seq_lt f.sequence seq)) [
      | inl low ↦ elim (Bool-cases (seq_gt (add32 f.sequence (length f.payload)) seq)) [
        | inl new ↦
            rw (other, low, new)
              (add32-IsU32 _ _, Delivers-overlap f.sequence seq f.payload uf u h low new, tt)
        | inr old ↦ rw (other, low, old) (u, refl, tt)
      ]
      | inr high ↦ rw (other, high) (u, refl, ((uf, h), tt))
    ]
  ]

  scan-Delivers :
      (seq : ℕ) (fs : List Fragment)
      → IsU32 seq
      → All Genuine fs
      → let v = scan seq fs in
        IsU32 v.sequence × Delivers seq v.sent v.sequence × All Genuine v.kept
  unfolding scan
  scan-Delivers seq [] u h = (u, refl, tt)
  scan-Delivers seq (f ∷ fs) u h =
      let v = visit seq f in
      let (u₁, d₁, k₁) = visit-Delivers seq f u h.0 in
      let (u₂, d₂, k₂) = scan-Delivers v.sequence fs u₁ h.1 in
      (u₂, Delivers-append seq v.sequence _ v.sent _ d₁ d₂, All-append Genuine v.kept _ k₁ k₂)

  -- A loop's state after a start at s: what was sent leads up to the expected sequence.
  abbrev pub Good : ℕ → Progress → Type 0
  Good s p = IsU32 p.sequence × Delivers s p.sent p.sequence × All Genuine p.fragments

  drain-Good : (fuel s : ℕ) (p : Progress) → Good s p → Good s (drain fuel p)
  unfolding drain
  drain-Good zero s p g = g
  drain-Good (suc fuel) s p (u, d, k) =
      let v = scan p.sequence p.fragments in
      let (u', d', k') = scan-Delivers p.sequence p.fragments u k in
      let next : Good s
          (record { sequence = v.sequence; fragments = v.kept; sent = p.sent ++ v.sent }) =
        (u', Delivers-append s p.sequence v.sequence p.sent v.sent d d', k') in
      elim (Bool-cases v.found) [
        | inl more ↦ rw more (drain-Good fuel s _ next)
        | inr idle ↦ rw idle next
      ]

  announced_pos : (n : ℕ) (d : List ℕ) → 0 < n → missing_data_message n ++ d ≡ announced n d
  announced_pos zero d h = absurd (omega arith)
  announced_pos (suc n) d h = refl

  sub32_pos : (a b : ℕ) → IsU32 a → IsU32 b → a ≢ b → 0 < sub32 a b
  unfolding sub32
  sub32_pos a b ha hb h = omega arith

  skip_to-Good :
      (s : ℕ) (p : Progress) (i : ℕ) (f : Fragment)
      → Good s p
      → Genuine f
      → f.sequence ≢ p.sequence
      → Good s (skip_to p i f)
  unfolding skip_to
  skip_to-Good s p i f (u, d, k) (uf, h) far =
      let m = sub32 f.sequence p.sequence in
      let start = add32-sub32 p.sequence f.sequence uf in
      (
        add32-IsU32 _ _,
        Delivers-append s p.sequence _ p.sent _ d (
          f.payload,
          announced_pos m f.payload (sub32_pos _ _ uf u far),
          subst (λ q. Matches q f.payload) (sym start) h,
          sym (add32_assoc p.sequence m (length f.payload))
              ∙ ap (λ q. add32 q (length f.payload)) start,
        ),
        All-erase_at Genuine p.fragments i k,
      )

  pub check_loop-Good :
      (fuel : ℕ) (clean : Bool) (limit s : ℕ) (p : Progress)
      → Good s p
      → Good s (check_loop fuel clean limit p)
  unfolding check_loop
  check_loop-Good zero clean limit s p g = g
  check_loop-Good (suc fuel) clean limit s p g =
      let q = drain (suc (length p.fragments)) p in
      let g' = drain-Good (suc (length p.fragments)) s p g in
      let (w, _) = drain_ends (suc (length p.fragments)) p (omega arith) in
      elim (Bool-cases (may_wait clean limit (length q.fragments))) [
        | inl stay ↦ rw stay g'
        | inr go ↦ elim (closest_cases q.fragments) [
          | inl (e, c) ↦ rw (go, c) g'
          | inr (i, f, c, lt, at) ↦
              rw (go, c)
                (check_loop-Good fuel clean limit s _ (
                  skip_to-Good s q i f g' (All-get_elem? Genuine q.fragments i g'.2 at)
                    (All-get_elem? (Waits q.sequence) q.fragments i w at).0))
        ]
      ]

  -- Where every buffered fragment was cut from the sender's stream, the messages that
  -- checkOutOfOrderFragments sends lead from the expected sequence before to the one after it:
  -- each carries the bytes of the stream that follow the last one, behind as many missing bytes
  -- as it declares, with the text that announces these. What stays buffered was cut from the stream.
  pub check_fragments-Delivers :
      (clean : Bool) (limit seq : ℕ) (fs : List Fragment)
      → IsU32 seq
      → All Genuine fs
      → let q = check_fragments clean limit seq fs in
        IsU32 q.sequence × Delivers seq q.sent q.sequence × All Genuine q.fragments
  unfolding check_fragments
  check_fragments-Delivers clean limit seq fs u h =
      check_loop-Good (suc (length fs)) clean limit seq _ (u, refl, h)
