-- ===== src/Packet/RemoveSteps.antt =====
-- What the parts of removeLayer do, and what they leave as it was.
use pcap_plus_plus.Prelude.{
  ℕ, zero, suc, ◌+◌, ◌-◌, ◌≤◌, ◌<◌, ◌≡◌, refl, ap, ◌∙◌, Bool, true, false, Option, none, some, List,
  [], ◌∷◌, ◌++◌, ◌||◌, arith, ◌==◌, length, length-append,
}
use pcap_plus_plus.Packet.{
  Layer, inside, HeaderLen, fixed, bounded, to_end, Packet, same_layer, get_header_len,
}
use pcap_plus_plus.Packet.Edit.{tell_prev, tell_next, unlink_layer, head_of, another_layer}
use pcap_plus_plus.Packet.Links.{Segment}
use pcap_plus_plus.Packet.Layout.{Piece, bytes, Placed, Fits, HeaderFits}
use pcap_plus_plus.Packet.Relink.{length-bytes_middle, Relinked, set_Relinked, set_again}

-- Each layer leads back to the first one.
module _ (s : ℕ → Layer) (rs : List ℕ) (x h : ℕ) (last : Option ℕ) where
  head_of_walk :
      (xs : List ℕ) (k fuel a : ℕ) (cur : Option ℕ)
      → Segment s cur (some a) (xs ++ (x ∷ rs)) last none
      → head_of k s a ≡ some h
      → fuel ≡ k + suc (length xs)
      → head_of fuel s x ≡ some h
  unfolding Segment head_of
  head_of_walk xs k zero a cur g e f = absurd (omega (arith, f))
  head_of_walk [] k (suc fuel) a cur (_, b, _) e f =
      let same : fuel ≡ k = omega (arith, f) in rw (head_of, b, same) e
  head_of_walk (c ∷ xs) k (suc fuel) a cur (_, b, g) e f =
      let here : head_of (suc k) s c ≡ some h = rw (head_of, b) e in
      head_of_walk xs (suc k) (suc fuel) c (s c).next_layer g here (omega (arith, f))

pub head_of_lem :
    (s : ℕ → Layer) (ls rs : List ℕ) (x fuel : ℕ) (first last : Option ℕ)
    → Segment s first none (ls ++ (x ∷ rs)) last none
    → length ls < fuel
    → (h : ℕ) × (head_of fuel s x ≡ some h) × (same_layer first h ≡ true)
unfolding Segment head_of
head_of_lem s ls rs x zero first last g enough = absurd (omega (arith, enough))
head_of_lem s [] rs x (suc fuel) first last (f, b, _) enough =
    let self : (x == x) ≡ true = ground arith in (x, rw (head_of, b) refl, rw f self)
head_of_lem s (a ∷ ls) rs x (suc fuel) first last (f, b, g) enough =
    let self : (a == a) ≡ true = ground arith in
    let here : head_of (suc (fuel - suc (length ls))) s a ≡ some a = rw (head_of, b) refl in
    (
      a,
      head_of_walk s rs x a last ls (suc (fuel - suc (length ls))) (suc fuel) a (s a).next_layer g
          here (omega (arith, enough)),
      rw f self,
    )

pub Placed-middle :
    (s : ℕ → Layer) (ls rs : List Piece) (x : ℕ) (h : List ℕ) (at : ℕ)
    → Placed s (ls ++ ((x, h) ∷ rs)) at
    → ((s x).data_at ≡ inside (at + length (bytes ls))) × (get_header_len (s x) ≡ length h)
unfolding Placed
Placed-middle s [] rs x h at (d, n, _) =
    let start : at ≡ at + 0 = omega arith in (d ∙ ap inside start, n)
Placed-middle s ((y, k) ∷ ls) rs x h at (_, _, r) =
    let (d, n) = Placed-middle s ls rs x h (at + length k) r in
    let place : at + length k + length (bytes ls) ≡ at + length (k ++ bytes ls) =
      omega (arith, length-append k (bytes ls)) in
    (d ∙ ap inside place, n)

HeaderFits-less :
    (k : HeaderLen) (size n n' : ℕ) → HeaderFits k size n → n' ≤ n → HeaderFits k size n'
HeaderFits-less (fixed m) size n n' h l = h
HeaderFits-less (bounded m) size n n' h l = h
HeaderFits-less to_end size n n' h l = omega (arith, h, l)

pub Fits-remove :
    (s : ℕ → Layer) (ls rs : List Piece) (x : ℕ) (h : List ℕ)
    → Fits s (ls ++ ((x, h) ∷ rs))
    → Fits s (ls ++ rs)
unfolding Fits
Fits-remove s [] rs x h (_, f) = f
Fits-remove s ((y, k) ∷ ls) rs x h (g, f) = (
  HeaderFits-less (s y).header (length k) _ _ g (omega (arith, length-bytes_middle ls rs x h)),
  Fits-remove s ls rs x h f,
)

pub another_layer_ends :
    (s : ℕ → Layer) (xs : List ℕ) (fuel protocol : ℕ) (cur prev last : Option ℕ)
    → Segment s cur prev xs last none
    → length xs < fuel
    → (b : Bool) × (another_layer fuel s cur protocol ≡ some b)
unfolding another_layer Segment
another_layer_ends s xs zero protocol cur prev last g enough = absurd (omega (arith, enough))
another_layer_ends s [] (suc fuel) protocol cur prev last (e, _) enough = (false, rw e refl)
another_layer_ends s (x ∷ xs) (suc fuel) protocol cur prev last (e, _, g) enough =
    let (b, r) =
      another_layer_ends s xs fuel protocol (s x).next_layer (some x) last g
        (omega (arith, enough)) in
    ((s x).protocol == protocol || b, rw (e, another_layer, r) refl)

tell_prev-Relinked :
    (s : ℕ → Layer) (prev next : Option ℕ) (y : ℕ) → Relinked (s y) (tell_prev s prev next y)
unfolding tell_prev
tell_prev-Relinked s none next y = refl
tell_prev-Relinked s (some b) next y = set_Relinked s b (record (s b) { next_layer = next }) refl y

tell_next-Relinked :
    (s t : ℕ → Layer) (next prev : Option ℕ)
    → ((y : ℕ) → Relinked (s y) (t y))
    → (y : ℕ) → Relinked (s y) (tell_next t next prev y)
unfolding tell_next
tell_next-Relinked s t none prev h y = h y
tell_next-Relinked s t (some c) prev h y =
    set_again s t c (record (t c) { prev_layer = prev }) h refl y

pub unlink_layer-Relinked :
    (p : Packet) (x y : ℕ) → Relinked (p.layers y) ((unlink_layer p x).layers y)
unfolding unlink_layer
unlink_layer-Relinked p x y =
    let next = (p.layers x).next_layer in
    let prev = (p.layers x).prev_layer in
    let t = tell_next (tell_prev p.layers prev next) next prev in
    set_again p.layers t x (record (t x) { next_layer = none; prev_layer = none })
      (tell_next-Relinked p.layers (tell_prev p.layers prev next) next prev
        (tell_prev-Relinked p.layers prev next))
      refl y
