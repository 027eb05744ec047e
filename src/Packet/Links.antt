-- ===== src/Packet/Links.antt =====
-- The links of the layers: linking and unlinking a layer is insertion into and removal from a list.
use mathlib.Core.List.{append_assoc}
use mathlib.Core.Path.{subst}
use pcap_plus_plus.Prelude.{
  ℕ, ◌≡◌, refl, sym, ap, ◌∙◌, ◌⊎◌, inl, inr, true, false, Option, none, some, List, [], ◌∷◌, ◌++◌,
  arith, ◌==◌, All, All-append,
}
use pcap_plus_plus.Packet.{Layer, Packet, set_layer, link_next, link_layer}

-- The links lead from first, behind prev, through the layers xs; last is the last of them, and exit
-- what follows it.
unfoldable pub Segment : (ℕ → Layer) → Option ℕ → Option ℕ → List ℕ → Option ℕ → Option ℕ → Type 0
Segment s first prev [] last exit = (first ≡ exit) × (last ≡ prev)
Segment s first prev (x ∷ xs) last exit =
    (first ≡ some x) × ((s x).prev_layer ≡ prev) × Segment s (s x).next_layer (some x) xs last exit

-- A layer is not among some.
abbrev pub Apart : ℕ → List ℕ → Type 0
Apart x xs = All (λ y. (y == x) ≡ false) xs

unfoldable pub IsDistinct : List ℕ → Type 0
IsDistinct [] = Unit
IsDistinct (x ∷ xs) = Apart x xs × IsDistinct xs

-- The packet's links are those of the list.
abbrev pub Chain : Packet → List ℕ → Type 0
Chain p xs = Segment p.layers p.first_layer none xs p.last_layer none

abbrev pub SameLinks : (ℕ → Layer) → (ℕ → Layer) → ℕ → Type 0
SameLinks s s' x = ((s' x).next_layer ≡ (s x).next_layer) × ((s' x).prev_layer ≡ (s x).prev_layer)

module _ (s s' : ℕ → Layer) where
  pub Segment-keep :
      (xs : List ℕ) (first prev last exit : Option ℕ)
      → All (SameLinks s s') xs
      → Segment s first prev xs last exit
      → Segment s' first prev xs last exit
  unfolding Segment
  Segment-keep [] first prev last exit same h = h
  Segment-keep (x ∷ xs) first prev last exit ((n, p), same) (f, b, h) = (
    f,
    p ∙ b,
    subst (λ o. Segment s' o (some x) xs last exit) (sym n)
        (Segment-keep xs (s x).next_layer (some x) last exit same h),
  )

module _ (s : ℕ → Layer) where
  pub Segment-split :
      (xs ys : List ℕ) (first prev last exit : Option ℕ)
      → Segment s first prev (xs ++ ys) last exit
      → (m n : Option ℕ) × Segment s first prev xs m n × Segment s n m ys last exit
  unfolding Segment
  Segment-split [] ys first prev last exit h = (prev, first, (refl, refl), h)
  Segment-split (x ∷ xs) ys first prev last exit (f, b, h) =
      let (m, n, l, r) = Segment-split xs ys (s x).next_layer (some x) last exit h in
      (m, n, (f, b, l), r)

  pub Segment-append :
      (xs ys : List ℕ) (first prev m n last exit : Option ℕ)
      → Segment s first prev xs m n
      → Segment s n m ys last exit
      → Segment s first prev (xs ++ ys) last exit
  unfolding Segment
  Segment-append [] ys first prev m n last exit (e, e') h =
      subst (λ o. Segment s o prev ys last exit) (sym e)
        (subst (λ o. Segment s n o ys last exit) e' h)
  Segment-append (x ∷ xs) ys first prev m n last exit (f, b, l) h =
      (f, b, Segment-append xs ys (s x).next_layer (some x) m n last exit l h)

pub All-split {κ} : (P : ℕ → Type κ) (xs ys : List ℕ) → All P (xs ++ ys) → All P xs × All P ys
All-split P [] ys h = (tt, h)
All-split P (x ∷ xs) ys (h, hs) = let (l, r) = All-split P xs ys hs in ((h, l), r)

pub Segment-last {κ} :
    (P : ℕ → Type κ) (s : ℕ → Layer) (xs : List ℕ) (first prev last exit : Option ℕ)
    → Segment s first prev xs last exit
    → All P xs
    → (last ≡ prev) ⊎ ((x : ℕ) × (last ≡ some x) × P x)
unfolding Segment
Segment-last P s [] first prev last exit h a = inl h.1
Segment-last P s (x ∷ xs) first prev last exit h (a, as') =
    elim (Segment-last P s xs (s x).next_layer (some x) last exit h.2 as') [
      | inl e ↦ inr (x, e, a)
      | inr found ↦ inr found
    ]

-- The layers on both sides of one in a distinct list are other ones.
pub IsDistinct-middle :
    (ls rs : List ℕ) (q : ℕ)
    → IsDistinct (ls ++ (q ∷ rs))
    → Apart q ls × Apart q rs × All (λ a. Apart a rs) ls × IsDistinct rs
unfolding IsDistinct
IsDistinct-middle [] rs q (h, d) = (tt, h, tt, d)
IsDistinct-middle (a ∷ ls) rs q (h, d) =
    let (l, r, m, d') = IsDistinct-middle ls rs q d in
    let (x, y) = All-split _ ls (q ∷ rs) h in ((ground (arith, y.0), l), r, (y.1, m), d')

module _ (s : ℕ → Layer) (q new : ℕ) where
  -- The objects after the new layer has been put behind q, but for the one that follows it.
  abbrev behind : ℕ → Layer
  behind =
      let l =
        set_layer s new (record (s new) { next_layer = (s q).next_layer; prev_layer = some q }) in
      set_layer l q (record (l q) { next_layer = some new })

  behind_others : (xs : List ℕ) → Apart q xs → Apart new xs → All (SameLinks s behind) xs
  behind_others [] h k = tt
  behind_others (x ∷ xs) (h, hs) (k, ks) = (rw (h, k) (refl, refl), behind_others xs hs ks)

  behind_q :
      (q == new) ≡ false
      → ((behind q).next_layer ≡ some new) × ((behind q).prev_layer ≡ (s q).prev_layer)
  behind_q h = let same : (q == q) ≡ true = ground arith in rw (same, h) (refl, refl)

  behind_new :
      (new == q) ≡ false
      → ((behind new).next_layer ≡ (s q).next_layer) × ((behind new).prev_layer ≡ some q)
  behind_new h = let same : (new == new) ≡ true = ground arith in rw (h, same) (refl, refl)

module _ (s : ℕ → Layer) (f : ℕ) (before : Option ℕ) where
  -- The objects after f has been told of the layer in front of it.
  abbrev pub told : ℕ → Layer
  told = set_layer s f (record (s f) { prev_layer = before })

  pub told_others : (xs : List ℕ) → Apart f xs → All (SameLinks s told) xs
  told_others [] h = tt
  told_others (x ∷ xs) (h, hs) = (rw h (refl, refl), told_others xs hs)

  told_f : ((told f).next_layer ≡ (s f).next_layer) × ((told f).prev_layer ≡ before)
  told_f = let same : (f == f) ≡ true = ground arith in rw same (refl, refl)

  -- A segment in which f comes behind another layer.
  pub told-Segment :
      (xs : List ℕ) (first prev last exit : Option ℕ)
      → Apart f xs
      → Segment s (some f) prev (f ∷ xs) last exit
      → Segment told (some f) before (f ∷ xs) last exit
  unfolding Segment
  told-Segment xs first prev last exit h (_, _, r) =
      let (n, b) = told_f in
      (
        refl,
        b,
        subst (λ o. Segment told o (some f) xs last exit) (sym n)
            (Segment-keep s told xs (s f).next_layer (some f) last exit (told_others xs h) r),
      )

Apart-sym : (q : ℕ) (xs : List ℕ) → All (λ a. (q == a) ≡ false) xs → Apart q xs
Apart-sym q [] h = tt
Apart-sym q (x ∷ xs) (h, hs) = (ground (arith, h), Apart-sym q xs hs)

pub Apart-All : (f : ℕ) (xs rs : List ℕ) → All (λ a. Apart a (f ∷ rs)) xs → Apart f xs
Apart-All f [] rs h = tt
Apart-All f (x ∷ xs) rs (h, hs) = (ground (arith, h.0), Apart-All f xs rs hs)

-- The links up to the new layer.
link_front :
    (s : ℕ → Layer) (ls rs : List ℕ) (q new : ℕ) (first last exit : Option ℕ)
    → Segment s first none (ls ++ (q ∷ rs)) last none
    → Apart q ls
    → Apart new (ls ++ (q ∷ rs))
    → (s q).next_layer ≡ exit
    → Segment (behind s q new) first none (ls ++ (q ∷ (new ∷ []))) (some new) exit
unfolding Segment
link_front s ls rs q new first last exit h distinct apart e =
    let t = behind s q new in
    let (m, n, l, (nq, bq, r)) = Segment-split s ls (q ∷ rs) first none last none h in
    let (apart_l, (apart_q, _)) = All-split _ ls (q ∷ rs) apart in
    let (q_next, q_prev) = behind_q s q new apart_q in
    let (new_next, new_prev) = behind_new s q new (ground (arith, apart_q)) in
    Segment-append t ls (q ∷ (new ∷ [])) first none m n (some new) exit
      (Segment-keep s t ls first none m n (behind_others s q new ls distinct apart_l) l)
      (
        nq,
        q_prev ∙ bq,
        subst (λ o. Segment t o (some q) (new ∷ []) (some new) exit) (sym q_next)
            (refl, new_prev, (new_next ∙ e, refl)),
      )

link_behind :
    (p : Packet) (q new : ℕ) (next : Option ℕ)
    → (p.layers q).next_layer ≡ next
    → link_layer p (some q) new ≡ link_next p (behind p.layers q new) next new
unfolding link_layer
link_behind p q new next e = ap (λ o. link_next p (behind p.layers q new) o new) e

link_first :
    (p : Packet) (new : ℕ) (next : Option ℕ)
    → p.first_layer ≡ next
    → link_layer p none new
      ≡ link_next
          (record p { first_layer = some new })
          (set_layer p.layers new (record (p.layers new) { next_layer = p.first_layer }))
          next
          new
unfolding link_layer
link_first p new next e =
    ap
      (λ o.
        link_next (record p { first_layer = some new })
          (set_layer p.layers new (record (p.layers new) { next_layer = p.first_layer })) o new)
      e

-- A new layer linked behind a layer of the list comes behind it in the list.
pub link_layer-Chain :
    (p : Packet) (ls rs : List ℕ) (q new : ℕ)
    → Chain p (ls ++ (q ∷ rs))
    → IsDistinct (ls ++ (q ∷ rs))
    → Apart new (ls ++ (q ∷ rs))
    → Chain (link_layer p (some q) new) (ls ++ (q ∷ (new ∷ rs)))
unfolding Segment link_next IsDistinct
link_layer-Chain p ls [] q new h d apart =
    let (m, n, l, (nq, bq, (e, _))) =
      Segment-split p.layers ls (q ∷ []) p.first_layer none p.last_layer none h in
    let distinct = (IsDistinct-middle ls [] q d).0 in
    subst (λ x. Chain x (ls ++ (q ∷ (new ∷ [])))) (sym (link_behind p q new none e))
      (link_front p.layers ls [] q new p.first_layer p.last_layer none h distinct apart e)
link_layer-Chain p ls (f ∷ rs) q new h d apart =
    let s = p.layers in
    let t = behind s q new in
    let u = told t f (some new) in
    let nil : List ℕ = [] in
    let (m, n, l, (nq, bq, (e, b, r))) =
      Segment-split s ls (q ∷ (f ∷ rs)) p.first_layer none p.last_layer none h in
    let (q_ls, q_rs, ls_rs, d') = IsDistinct-middle ls (f ∷ rs) q d in
    let (apart_l, (apart_q, (apart_f, apart_r))) = All-split _ ls (q ∷ (f ∷ rs)) apart in
    let front = link_front s ls (f ∷ rs) q new p.first_layer p.last_layer (some f) h q_ls apart e in
    let f_front : Apart f (ls ++ (q ∷ (new ∷ nil))) =
      All-append _ ls (q ∷ (new ∷ nil)) (Apart-All f ls rs ls_rs)
        (ground (arith, q_rs.0), (ground (arith, apart_f), tt)) in
    let front' =
      Segment-keep t u (ls ++ (q ∷ (new ∷ nil))) p.first_layer none (some new) (some f)
        (told_others t f (some new) (ls ++ (q ∷ (new ∷ nil))) f_front) front in
    let back : Segment t (some f) (some q) (f ∷ rs) p.last_layer none =
      Segment-keep s t (f ∷ rs) (some f) (some q) p.last_layer none
        (behind_others s q new (f ∷ rs) q_rs (apart_f, apart_r)) (refl, b, r) in
    let back' = told-Segment t f (some new) rs (some f) (some q) p.last_layer none d'.0 back in
    subst (λ x. Chain x (ls ++ (q ∷ (new ∷ (f ∷ rs))))) (sym (link_behind p q new (some f) e))
      (subst (λ x. Segment u p.first_layer none x p.last_layer none)
        (append_assoc ls (q ∷ (new ∷ nil)) (f ∷ rs))
        (Segment-append u (ls ++ (q ∷ (new ∷ nil))) (f ∷ rs) p.first_layer none (some new) (some f)
          p.last_layer none front' back'))

module _ (s : ℕ → Layer) (new : ℕ) (next : Option ℕ) where
  abbrev front : ℕ → Layer
  front = set_layer s new (record (s new) { next_layer = next })

  fronted : ((front new).next_layer ≡ next) × ((front new).prev_layer ≡ (s new).prev_layer)
  fronted = let same : (new == new) ≡ true = ground arith in rw same (refl, refl)

  fronted_others : (xs : List ℕ) → Apart new xs → All (SameLinks s front) xs
  fronted_others [] h = tt
  fronted_others (x ∷ xs) (h, hs) = (rw h (refl, refl), fronted_others xs hs)

-- A new layer, linked to no layer in front of it, linked in front of all.
pub link_layer_first-Chain :
    (p : Packet) (rs : List ℕ) (new : ℕ)
    → Chain p rs
    → IsDistinct rs
    → Apart new rs
    → (p.layers new).prev_layer ≡ none
    → Chain (link_layer p none new) (new ∷ rs)
unfolding Segment link_next IsDistinct
link_layer_first-Chain p [] new (f, l) d apart e =
    let (next, prev) = fronted p.layers new p.first_layer in
    subst (λ x. Chain x (new ∷ [])) (sym (link_first p new none f))
      (refl, prev ∙ e, (next ∙ f, refl))
link_layer_first-Chain p (f ∷ rs) new (h, b, r) d apart e =
    let s = p.layers in
    let t = set_layer s new (record (s new) { next_layer = p.first_layer }) in
    let (next, prev) = fronted s new p.first_layer in
    let back = told-Segment t f (some new) rs (some f) none p.last_layer none d.0 (
      Segment-keep s t (f ∷ rs) (some f) none p.last_layer none
        (fronted_others s new p.first_layer (f ∷ rs) apart) (refl, b, r)) in
    let (told_next, told_prev) =
      (told_others t f (some new) (new ∷ []) (ground (arith, apart.0), tt)).0 in
    subst (λ x. Chain x (new ∷ (f ∷ rs))) (sym (link_first p new (some f) h))
      (
        refl,
        told_prev ∙ prev ∙ e,
        subst (λ o. Segment (told t f (some new)) o (some new) (f ∷ rs) p.last_layer none)
            (sym (told_next ∙ next ∙ h)) back,
      )
