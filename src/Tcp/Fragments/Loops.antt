-- ===== src/Tcp/Fragments/Loops.antt =====
-- The loops of checkOutOfOrderFragments end: the fuel is never used up, and what they leave.
use pcap_plus_plus.Prelude.{
  ℕ, zero, suc, ◌+◌, ◌≤◌, ◌<◌, ◌≡◌, refl, sym, ◌∙◌, ◌||◌, ◌≢◌, ◌⊎◌, inl, inr, Bool, true, false,
  none, some, List, [], ◌∷◌, ◌++◌, arith, length, get_elem?, length-append, length-erase_at, All,
  All-append, Bool-cases, get_elem?_lt,
}
use mathlib.Core.Path.{subst}
use pcap_plus_plus.Tcp.Seq.{seq_lt}
use pcap_plus_plus.Tcp.Fragments.{
  Fragment, Progress, visit, scan, drain, closest_from, closest, skip_to, may_wait, check_loop,
}

-- A fragment that still waits: it starts behind the expected sequence.
abbrev pub Waits : ℕ → Fragment → Type 0
Waits seq f = (f.sequence ≢ seq) × (seq_lt f.sequence seq ≡ false)

visit_idle :
    (seq : ℕ) (f : Fragment)
    → (visit seq f).found ≡ false
    → ((visit seq f).sequence ≡ seq) × All (Waits seq) (visit seq f).kept
unfolding visit
visit_idle seq f h = ground arith

visit_found : (seq : ℕ) (f : Fragment) → (visit seq f).found ≡ true → (visit seq f).kept ≡ []
unfolding visit
visit_found seq f h = ground arith

length-visit-le : (seq : ℕ) (f : Fragment) → length (visit seq f).kept ≤ 1
unfolding visit
length-visit-le seq f = ground arith

pub length-scan-le : (seq : ℕ) (fs : List Fragment) → length (scan seq fs).kept ≤ length fs
unfolding scan
length-scan-le seq [] = omega arith
length-scan-le seq (f ∷ fs) =
    let v = visit seq f in
    omega (
      arith,
      length-append v.kept (scan v.sequence fs).kept,
      length-visit-le seq f,
      length-scan-le v.sequence fs,
    )

-- A scan that found something is followed by a scan of a shorter list.
length-scan_found :
    (seq : ℕ) (fs : List Fragment)
    → (scan seq fs).found ≡ true
    → length (scan seq fs).kept < length fs
unfolding scan
length-scan_found seq [] h = cc
length-scan_found seq (f ∷ fs) h =
    let v = visit seq f in
    ground (
      arith,
      length-append v.kept (scan v.sequence fs).kept,
      length-visit-le seq f,
      visit_found seq f,
      length-scan-le v.sequence fs,
      length-scan_found v.sequence fs,
    )

or_false : (a b : Bool) → (a || b) ≡ false → (a ≡ false) × (b ≡ false)
or_false a b h = ground arith

-- The state after one scan.
abbrev after_scan : Progress → Progress
after_scan p =
    let v = scan p.sequence p.fragments in
    record { sequence = v.sequence; fragments = v.kept; sent = p.sent ++ v.sent }

-- A scan that found nothing leaves only fragments behind the expected sequence.
scan_idle :
    (seq : ℕ) (fs : List Fragment)
    → (scan seq fs).found ≡ false
    → ((scan seq fs).sequence ≡ seq) × All (Waits seq) (scan seq fs).kept
unfolding scan
scan_idle seq [] h = (refl, tt)
scan_idle seq (f ∷ fs) h =
    let v = visit seq f in
    let (quiet, rest) = or_false v.found (scan v.sequence fs).found h in
    let (same, kept) = visit_idle seq f quiet in
    let (same', kept') = scan_idle v.sequence fs rest in
    (
      same' ∙ same,
      All-append (Waits seq) v.kept _ kept
          (subst (λ s. All (Waits s) (scan v.sequence fs).kept) same kept'),
    )

-- With more fuel than fragments the inner loop ends by its test.
pub drain_ends :
    (fuel : ℕ) (p : Progress)
    → length p.fragments < fuel
    → let q = drain fuel p in
      All (Waits q.sequence) q.fragments × (length q.fragments ≤ length p.fragments)
unfolding drain
drain_ends zero p h = absurd (omega arith)
drain_ends (suc fuel) p h = elim (Bool-cases (scan p.sequence p.fragments).found) [
  | inl more ↦
      let shorter = length-scan_found p.sequence p.fragments more in
      let (w, l) = drain_ends fuel (after_scan p) (omega arith) in rw more (w, omega arith)
  | inr idle ↦
      let (same, w) = scan_idle p.sequence p.fragments idle in
      rw idle (
        subst (λ s. All (Waits s) (scan p.sequence p.fragments).kept) (sym same) w,
        length-scan-le p.sequence p.fragments,
      )
]

closest_from-some :
    (s i index : ℕ) (fs : List Fragment)
    → i < index
    → (s' j : ℕ) × (closest_from (some (s, i)) index fs ≡ some (s', j)) × (j < index + length fs)
unfolding closest_from
closest_from-some s i index [] h = (s, i, refl, omega arith)
closest_from-some s i index (f ∷ fs) h = elim (Bool-cases (seq_lt f.sequence s)) [
  | inl closer ↦
      let (s', j, e, lt) = closest_from-some f.sequence index (suc index) fs (omega arith) in
      rw closer (s', j, e, omega arith)
  | inr farther ↦
      let (s', j, e, lt) = closest_from-some s i (suc index) fs (omega arith) in
      rw farther (s', j, e, omega arith)
]

-- The second phase finds a fragment, at an index of the list, exactly when the list is not empty.
pub closest_cases :
    (fs : List Fragment)
    → ((fs ≡ []) × (closest fs ≡ none))
      ⊎ ((i : ℕ) × (f : Fragment) × (closest fs ≡ some (i, f))
          × (i < length fs)
          × (get_elem? fs i ≡ some f))
unfolding closest closest_from
closest_cases [] = inl (refl, refl)
closest_cases (f ∷ fs) =
    let (s, j, e, lt) = closest_from-some f.sequence 0 1 fs (omega arith) in
    let (g, at) = get_elem?_lt (f ∷ fs) j (omega arith) in
    inr (j, g, ground (arith, e, at), omega arith, at)

-- What the outer loop leaves: only waiting fragments, and it stopped by one of its two exits.
abbrev pub Settled : Bool → ℕ → Progress → Type 0
Settled clean limit q =
    All (Waits q.sequence) q.fragments
    × ((may_wait clean limit (length q.fragments) ≡ true) ⊎ (q.fragments ≡ []))

pub check_loop_ends :
    (fuel : ℕ) (clean : Bool) (limit : ℕ) (p : Progress)
    → length p.fragments < fuel
    → Settled clean limit (check_loop fuel clean limit p)
      × (length (check_loop fuel clean limit p).fragments ≤ length p.fragments)
unfolding check_loop skip_to
check_loop_ends zero clean limit p h = absurd (omega arith)
check_loop_ends (suc fuel) clean limit p h =
    let q = drain (suc (length p.fragments)) p in
    let (w, l) = drain_ends (suc (length p.fragments)) p (omega arith) in
    elim (Bool-cases (may_wait clean limit (length q.fragments))) [
      | inl stay ↦ rw stay ((w, inl stay), l)
      | inr go ↦ elim (closest_cases q.fragments) [
        | inl (e, c) ↦ rw (go, c) ((w, inr e), l)
        | inr (i, f, c, lt, at) ↦
            let shorter = length-erase_at q.fragments i lt in
            let (s, l') = check_loop_ends fuel clean limit (skip_to q i f) (omega arith) in
            rw (go, c) (s, omega arith)
      ]
    ]
