-- ===== src/Packet/Unlink.antt =====
-- Taking a layer out of the links is removal from a list.
use mathlib.Core.Path.{subst}
use pcap_plus_plus.Prelude.{
  ℕ, ◌≡◌, refl, sym, ◌∙◌, ◌⊎◌, inl, inr, true, false, Option, none, some, List, [], ◌∷◌, ◌++◌,
  arith, ◌==◌, if◌then◌else◌, All, All-append,
}
use pcap_plus_plus.Packet.{Layer, Packet, set_layer, same_layer}
use pcap_plus_plus.Packet.Edit.{tell_prev, tell_next, unlink_layer}
use pcap_plus_plus.Packet.Links.{
  Segment, Segment-keep, Segment-split, Segment-append, Segment-last, Chain, Apart, Apart-All,
  IsDistinct, IsDistinct-middle, SameLinks, All-split, told_others, told-Segment,
}

-- The layer in front of a place leads elsewhere.
module _ (s : ℕ → Layer) (next : Option ℕ) where
  abbrev leads : ℕ → ℕ → Layer
  leads q = set_layer s q (record (s q) { next_layer = next })

  leads_self :
      (q : ℕ) → ((leads q q).next_layer ≡ next) × ((leads q q).prev_layer ≡ (s q).prev_layer)
  leads_self q = let self : (q == q) ≡ true = ground arith in rw self (refl, refl)

  leads_other :
      (q : ℕ) (ys : List ℕ) → All (λ y. (y == q) ≡ false) ys → All (SameLinks s (leads q)) ys
  leads_other q [] h = tt
  leads_other q (y ∷ ys) (h, hs) = (rw h (refl, refl), leads_other q ys hs)

  -- The last layer of a segment, and the segment with another exit.
  leads_end :
      (a : ℕ) (xs : List ℕ) (first prev m exit : Option ℕ)
      → Segment s first prev (a ∷ xs) m exit
      → IsDistinct (a ∷ xs)
      → (q : ℕ) × (m ≡ some q)
        × ((y : ℕ) → Apart y (a ∷ xs) → (q == y) ≡ false)
        × Segment (leads q) first prev (a ∷ xs) m next
  unfolding Segment IsDistinct
  leads_end a [] first prev m exit (f, b, (_, l)) d =
      let (n, p) = leads_self a in (a, l, (λ y h. h.0), (f, p ∙ b, (n, l)))
  leads_end a (c ∷ xs) first prev m exit (f, b, r) (h, d) =
      let (q, e, out, r') = leads_end c xs (s a).next_layer (some a) m exit r d in
      let other : (a == q) ≡ false = let o = out a h in ground (arith, o) in
      let (n, p) = (leads_other q (a ∷ []) (other, tt)).0 in
      (
        q,
        e,
        (λ y k. out y k.1),
        (f, p ∙ b, subst (λ o. Segment (leads q) o (some a) (c ∷ xs) m next) (sym n) r'),
      )

tell_prev-Segment :
    (s : ℕ → Layer) (xs : List ℕ) (x : ℕ) (first m next : Option ℕ)
    → Segment s first none xs m (some x)
    → IsDistinct xs
    → Apart x xs
    → Segment (tell_prev s m next) (if same_layer first x then next else first) none xs m next
unfolding Segment tell_prev
tell_prev-Segment s [] x first m next (e, l) d a =
    let self : (x == x) ≡ true = ground arith in rw (e, self) (refl, l)
tell_prev-Segment s (c ∷ xs) x first m next h d a =
    let (q, e, _, r) = leads_end s next c xs first none m (some x) h d in
    let other : (c == x) ≡ false = a.0 in
    let stays : (if same_layer first x then next else first) ≡ first = rw (h.0, other) refl in
    subst (λ o. Segment (tell_prev s m next) o none (c ∷ xs) m next) (sym stays)
      (subst (λ o. Segment (tell_prev s o next) first none (c ∷ xs) m next) (sym e) r)

tell_next-Segment :
    (s : ℕ → Layer) (ys : List ℕ) (x : ℕ) (last m next : Option ℕ)
    → Segment s next (some x) ys last none
    → IsDistinct ys
    → Apart x ys
    → Segment (tell_next s next m) next m ys (if same_layer last x then m else last) none
unfolding Segment tell_next IsDistinct
tell_next-Segment s [] x last m next (e, l) d a =
    let self : (x == x) ≡ true = ground arith in rw (l, self) (e, refl)
tell_next-Segment s (f ∷ ys) x last m next h d a =
    let stays : (if same_layer last x then m else last) ≡ last =
      elim (Segment-last (λ y. (y == x) ≡ false) s ys (s f).next_layer (some f) last none h.2 a.1) [
        | inl e ↦ let k : (f == x) ≡ false = a.0 in rw (e, k) refl
        | inr (y, e, k) ↦ rw (e, k) refl
      ] in
    let told = told-Segment s f m ys (some f) (some x) last none d.0 (refl, h.1, h.2) in
    subst (λ o. Segment (tell_next s next m) next m (f ∷ ys) o none) (sym stays)
      (subst (λ o. Segment (tell_next s o m) o m (f ∷ ys) last none) (sym h.0) told)

SameLinks-refl : (s : ℕ → Layer) (zs : List ℕ) → All (SameLinks s s) zs
SameLinks-refl s [] = tt
SameLinks-refl s (z ∷ zs) = ((refl, refl), SameLinks-refl s zs)

tell_prev_others :
    (s : ℕ → Layer) (m next : Option ℕ) (ys : List ℕ)
    → (m ≡ none) ⊎ ((q : ℕ) × (m ≡ some q) × All (λ y. (y == q) ≡ false) ys)
    → All (SameLinks s (tell_prev s m next)) ys
unfolding tell_prev
tell_prev_others s m next ys (inl e) =
    subst (λ o. All (SameLinks s (tell_prev s o next)) ys) (sym e) (SameLinks-refl s ys)
tell_prev_others s m next ys (inr (q, e, h)) =
    subst (λ o. All (SameLinks s (tell_prev s o next)) ys) (sym e) (leads_other s next q ys h)

tell_next_others :
    (s : ℕ → Layer) (next m : Option ℕ) (ys : List ℕ)
    → (next ≡ none) ⊎ ((f : ℕ) × (next ≡ some f) × Apart f ys)
    → All (SameLinks s (tell_next s next m)) ys
unfolding tell_next
tell_next_others s next m ys (inl e) =
    subst (λ o. All (SameLinks s (tell_next s o m)) ys) (sym e) (SameLinks-refl s ys)
tell_next_others s next m ys (inr (f, e, h)) =
    subst (λ o. All (SameLinks s (tell_next s o m)) ys) (sym e) (told_others s f m ys h)

first_of :
    (s : ℕ → Layer) (ls ys : List ℕ) (next prev last : Option ℕ)
    → Segment s next prev ys last none
    → All (λ a. Apart a ys) ls
    → (next ≡ none) ⊎ ((f : ℕ) × (next ≡ some f) × Apart f ls)
unfolding Segment
first_of s ls [] next prev last h a = inl h.0
first_of s ls (f ∷ ys) next prev last h a = inr (f, h.0, Apart-All f ls ys a)

IsDistinct-front : (ls ys : List ℕ) → IsDistinct (ls ++ ys) → IsDistinct ls
unfolding IsDistinct
IsDistinct-front [] ys d = tt
IsDistinct-front (a ∷ ls) ys (h, d) = ((All-split _ ls ys h).0, IsDistinct-front ls ys d)

pub alone_others :
    (s : ℕ → Layer) (x : ℕ) (l : Layer) (ys : List ℕ)
    → Apart x ys
    → All (SameLinks s (set_layer s x l)) ys
alone_others s x l [] h = tt
alone_others s x l (y ∷ ys) (h, hs) = (rw h (refl, refl), alone_others s x l ys hs)

-- A layer taken out of the links is taken out of the list, and its own links are empty.
pub unlink_layer-Chain :
    (p : Packet) (ls rs : List ℕ) (x : ℕ)
    → Chain p (ls ++ (x ∷ rs))
    → IsDistinct (ls ++ (x ∷ rs))
    → Chain (unlink_layer p x) (ls ++ rs)
unfolding unlink_layer Segment
unlink_layer-Chain p ls rs x h d =
    let s = p.layers in
    let next = (s x).next_layer in
    let prev = (s x).prev_layer in
    let last = p.last_layer in
    let (m, n, l, (nx, bx, r)) = Segment-split s ls (x ∷ rs) p.first_layer none last none h in
    let (x_ls, x_rs, ls_rs, d_rs) = IsDistinct-middle ls rs x d in
    let l' : Segment s p.first_layer none ls prev (some x) =
      subst (λ o. Segment s p.first_layer none ls o (some x)) (sym bx)
        (subst (λ o. Segment s p.first_layer none ls m o) nx l) in
    let t₁ = tell_prev s prev next in
    let t₂ = tell_next t₁ next prev in
    let first' = if same_layer p.first_layer x then next else p.first_layer in
    let last' = if same_layer last x then prev else last in
    let gone = record (t₂ x) { next_layer = none; prev_layer = none } in
    let front =
      tell_prev-Segment s ls x p.first_layer prev next l' (IsDistinct-front ls (x ∷ rs) d) x_ls in
    let before = Segment-last (λ q. Apart q rs) s ls p.first_layer none prev (some x) l' ls_rs in
    let back =
      tell_next-Segment t₁ rs x last prev next
        (Segment-keep s t₁ rs next (some x) last none (tell_prev_others s prev next rs before) r)
        d_rs x_rs in
    let front' =
      Segment-keep t₁ t₂ ls first' none prev next
        (tell_next_others t₁ next prev ls (first_of s ls rs next (some x) last r ls_rs)) front in
    Segment-keep t₂ (set_layer t₂ x gone) (ls ++ rs) first' none last' none
      (alone_others t₂ x gone (ls ++ rs) (All-append _ ls rs x_ls x_rs))
      (Segment-append t₂ ls rs first' none prev next last' none front' back)
