-- ===== src/Tcp/Fragments/Bounds.antt =====
-- What checkOutOfOrderFragments leaves buffered.
use pcap_plus_plus.Prelude.{
  refl, ℕ, zero, suc, Bool-cases, ◌≤◌, ◌<◌, ◌≡◌, ◌⊎◌, inl, inr, Bool, true, false, List, [], ◌∷◌,
  arith, length, All,
}
use pcap_plus_plus.Prelude.Words.{IsU32, add32, add32-IsU32}
use pcap_plus_plus.Tcp.Fragments.{
  Fragment, Progress, visit, scan, drain, skip_to, may_wait, check_loop, check_fragments,
}
use pcap_plus_plus.Tcp.Fragments.Loops.{Waits, closest_cases, check_loop_ends}

-- checkOutOfOrderFragments ends with every buffered fragment behind the expected sequence, and it
-- never buffers more than before. With cleanWholeFragList nothing stays buffered; without it, at
-- most maxOutOfOrderFragments fragments stay unless that limit is 0.
pub check_fragments_settles :
    (clean : Bool) (limit seq : ℕ) (fs : List Fragment)
    → let q = check_fragments clean limit seq fs in
      All (Waits q.sequence) q.fragments
      × (length q.fragments ≤ length fs)
      × (clean ≡ true → q.fragments ≡ [])
      × (0 < limit → length q.fragments ≤ limit)
unfolding check_fragments may_wait
check_fragments_settles clean limit seq fs =
    let ((w, stop), l) =
      check_loop_ends (suc (length fs)) clean limit
        (record { sequence = seq; fragments = fs; sent = [] }) (omega arith) in
    (w, l, λ c. ground arith, λ h. ground arith)

visit-IsU32 : (seq : ℕ) (f : Fragment) → IsU32 seq → IsU32 (visit seq f).sequence
unfolding visit add32
visit-IsU32 seq f u = ground arith

scan-IsU32 : (seq : ℕ) (fs : List Fragment) → IsU32 seq → IsU32 (scan seq fs).sequence
unfolding scan
scan-IsU32 seq [] u = u
scan-IsU32 seq (f ∷ fs) u = scan-IsU32 (visit seq f).sequence fs (visit-IsU32 seq f u)

drain-IsU32 : (fuel : ℕ) (p : Progress) → IsU32 p.sequence → IsU32 (drain fuel p).sequence
unfolding drain
drain-IsU32 zero p u = u
drain-IsU32 (suc fuel) p u = elim (Bool-cases (scan p.sequence p.fragments).found) [
  | inl more ↦ rw more (drain-IsU32 fuel _ (scan-IsU32 p.sequence p.fragments u))
  | inr idle ↦ rw idle (scan-IsU32 p.sequence p.fragments u)
]

check_loop-IsU32 :
    (fuel : ℕ) (clean : Bool) (limit : ℕ) (p : Progress)
    → IsU32 p.sequence
    → IsU32 (check_loop fuel clean limit p).sequence
unfolding check_loop skip_to
check_loop-IsU32 zero clean limit p u = u
check_loop-IsU32 (suc fuel) clean limit p u =
    let q = drain (suc (length p.fragments)) p in
    let u' = drain-IsU32 (suc (length p.fragments)) p u in
    elim (Bool-cases (may_wait clean limit (length q.fragments))) [
      | inl stay ↦ rw stay u'
      | inr go ↦ elim (closest_cases q.fragments) [
        | inl (e, c) ↦ rw (go, c) u'
        | inr (i, f, c, lt, at) ↦
            rw (go, c)
              (check_loop-IsU32 fuel clean limit (skip_to q i f)
                (add32-IsU32 f.sequence (length f.payload)))
      ]
    ]

pub check_fragments-IsU32 :
    (clean : Bool) (limit seq : ℕ) (fs : List Fragment)
    → IsU32 seq
    → IsU32 (check_fragments clean limit seq fs).sequence
unfolding check_fragments
check_fragments-IsU32 clean limit seq fs u = check_loop-IsU32 _ clean limit _ u

-- checkOutOfOrderFragments ends: every fragment that is left waits behind the expected sequence and
-- has data, and there are no more of them than before. Either none is left, or the call was not to
-- clean the list and there are at most maxOutOfOrderFragments of them, unless that is 0. The
-- sequence stays a uint32_t.
pub check_fragments_ends :
    (clean : Bool) (limit seq : ℕ) (fs : List Fragment)
    → IsU32 seq
    → let q = check_fragments clean limit seq fs in
      IsU32 q.sequence
      × All (Waits q.sequence) q.fragments
      × (length q.fragments ≤ length fs)
      × ((q.fragments ≡ []) ⊎ ((clean ≡ false) × ((limit ≡ 0) ⊎ (length q.fragments ≤ limit))))
check_fragments_ends clean limit seq fs u =
    let (w, l, c, b) = check_fragments_settles clean limit seq fs in
    let bound : (0 < limit) ⊎ (limit ≡ 0)
        → (limit ≡ 0) ⊎ (length (check_fragments clean limit seq fs).fragments ≤ limit) =
      λ o. elim o [ inl pos ↦ inr (b pos) | inr none' ↦ inl none' ] in
    (
      check_fragments-IsU32 clean limit seq fs u,
      w,
      l,
      elim (Bool-cases clean) [
        | inl cleaned ↦ inl (c cleaned)
        | inr limited ↦ inr (limited, bound (pos_cases limit))
      ],
    )
  where
    pos_cases : (n : ℕ) → (0 < n) ⊎ (n ≡ 0)
    pos_cases zero = inr refl
    pos_cases (suc n) = inl (omega arith)
