-- ===== src/Packet/Layout.antt =====
-- The loops over the layers set each layer's data where its header stands in the packet.
use mathlib.Core.Path.{subst}
use pcap_plus_plus.Prelude.{
  ℕ, zero, suc, ◌+◌, ◌<◌, ◌≡◌, refl, sym, ap, ◌∙◌, true, false, Option, none, some, List, [], ◌∷◌,
  ◌++◌, arith, ltb, ◌==◌, ==_iff, if◌then◌else◌, All, length, length-append, Bool-cases, inl, inr,
}
use pcap_plus_plus.Packet.{
  Layer, inside, HeaderLen, fixed, bounded, to_end, set_layer, get_header_len, set_pointers,
  calculate, sub64, data_link_layer,
}
use pcap_plus_plus.Packet.Links.{Segment, Segment-keep, Apart, IsDistinct, SameLinks}

-- A layer and its header's bytes.
abbrev pub Piece : Type 0
Piece = ℕ × List ℕ

abbrev pub ids : List Piece → List ℕ
ids [] = []
ids ((x, h) ∷ ps) = x ∷ ids ps

-- The headers one behind the other.
abbrev pub bytes : List Piece → List ℕ
bytes [] = []
bytes ((x, h) ∷ ps) = h ++ bytes ps

-- The layers' data are where their headers stand, the first one at an offset.
unfoldable pub Placed : (ℕ → Layer) → List Piece → ℕ → Type 0
Placed s [] at = Unit
Placed s ((x, h) ∷ ps) at =
    ((s x).data_at ≡ inside at) × (get_header_len (s x) ≡ length h) × Placed s ps (at + length h)

-- A header of some length in front of n bytes: one that goes to the end has none behind it.
abbrev pub HeaderFits : HeaderLen → ℕ → ℕ → Type 0
HeaderFits (fixed m) size n = m ≡ size
HeaderFits (bounded m) size n = m ≡ size
HeaderFits to_end size n = n ≡ 0

unfoldable pub Fits : (ℕ → Layer) → List Piece → Type 0
Fits s [] = Unit
Fits s ((x, h) ∷ ps) = HeaderFits (s x).header (length h) (length (bytes ps)) × Fits s ps

-- A layer that differs from another one in its place and length at most.
abbrev pub Relaid : Layer → Layer → Type 0
Relaid l l' = l' ≡ record l { data_at = l'.data_at; data_len = l'.data_len }

set_same : (s : ℕ → Layer) (a : ℕ) (l : Layer) (x : ℕ) → l ≡ s a → set_layer s a l x ≡ s x
set_same s a l x e = elim (Bool-cases (x == a)) [
  | inl same ↦ rw same (e ∙ ap s (sym ((==_iff x a).0 same)))
  | inr other ↦ rw other refl
]

-- reallocateRawData leaves the layers where they are in the buffer.
pub set_pointers-Placed :
    (s : ℕ → Layer) (ps : List Piece) (fuel at : ℕ) (cur prev last : Option ℕ)
    → Segment s cur prev (ids ps) last none
    → Placed s ps at
    → length ps < fuel
    → set_pointers fuel s cur at ≡ some s
unfolding set_pointers Segment Placed get_header_len
set_pointers-Placed s ps zero at cur prev last g h enough = absurd (omega (arith, enough))
set_pointers-Placed s [] (suc fuel) at cur prev last (e, _) h enough = rw e refl
set_pointers-Placed s ((x, h) ∷ ps) (suc fuel) at cur prev last (e, b, g) (d, n, r) enough =
    let l = record (s x) { data_at = inside at } in
    let same : l ≡ s x = ap (λ o. record (s x) { data_at = o }) (sym d) in
    let all : set_layer s x l ≡ s = λ i y. set_same s x l y same i in
    ap (λ o. set_pointers (suc fuel) s o at) e
    ∙ (λ i. set_pointers fuel (all i) (same i).next_layer (at + get_header_len (same i)))
    ∙ ap (λ k. set_pointers fuel s (s x).next_layer (at + k)) n
    ∙ set_pointers-Placed s ps fuel (at + length h) (s x).next_layer (some x) last g r
        (omega (arith, enough))

-- With all of the packet's bytes from the header on as its data, a layer has the header that it had.
header_len_lem :
    (l : Layer) (size n : ℕ)
    → HeaderFits l.header size n
    → l.data_len ≡ size + n
    → get_header_len l ≡ size
unfolding get_header_len
header_len_lem l size n h e = go l.header h
  where
    go :
        (k : HeaderLen)
        → HeaderFits k size n
        → elim k [
          | fixed m ↦ m
          | bounded m ↦ if ltb l.data_len m then l.data_len else m
          | to_end ↦ l.data_len
        ]
          ≡ size
    go (fixed m) f = f
    go (bounded m) f = ground (arith, f, e)
    go to_end f = omega (arith, f, e)

Relaid-refl : (l : Layer) → Relaid l l
Relaid-refl l = refl

Relaid-trans : (a b c : Layer) → Relaid a b → Relaid b c → Relaid a c
Relaid-trans a b c e f =
    f ∙ ap {A = Layer} {B = Layer} (λ l. record l { data_at = c.data_at; data_len = c.data_len }) e

-- One layer's data are set.
module _ (s : ℕ → Layer) (x : ℕ) (l : Layer) (e : Relaid (s x) l) where
  abbrev set_x : ℕ → Layer
  set_x = set_layer s x l

  set_Relaid : (y : ℕ) → Relaid (s y) (set_x y)
  set_Relaid y = elim (Bool-cases (y == x)) [
    | inl same ↦ rw same (subst (λ z. Relaid (s z) l) (sym ((==_iff y x).0 same)) e)
    | inr other ↦ rw other refl
  ]

  set_SameLinks : (ys : List ℕ) → All (SameLinks s set_x) ys
  set_SameLinks [] = tt
  set_SameLinks (y ∷ ys) =
      let r = set_Relaid y in
      ((ap (λ o. o.next_layer) r, ap (λ o. o.prev_layer) r), set_SameLinks ys)

  set_Fits : (ps : List Piece) → Fits s ps → Fits set_x ps
  unfolding Fits
  set_Fits [] h = tt
  set_Fits ((y, b) ∷ ps) (f, h) = (
    subst (λ k. HeaderFits k (length b) (length (bytes ps)))
        (sym (ap (λ o. o.header) (set_Relaid y))) f,
    set_Fits ps h,
  )

-- In a packet without a trailer the loop of insertLayer and removeLayer sets the data of the layers
-- to where their headers stand, and leaves all else as it was.
pub calculate-Placed :
    (s : ℕ → Layer) (ps : List Piece) (fuel at len : ℕ) (cur prev last : Option ℕ)
    → Segment s cur prev (ids ps) last none
    → IsDistinct (ids ps)
    → Fits s ps
    → length ps < fuel
    → len ≡ length (bytes ps)
    → len < 0x1_0000_0000_0000_0000
    → (s' : ℕ → Layer) × (calculate fuel s cur at len 0 ≡ some s')
      × ((y : ℕ) → Relaid (s y) (s' y))
      × ((y : ℕ) → Apart y (ids ps) → s' y ≡ s y)
      × Placed s' ps at
unfolding calculate Segment IsDistinct Fits Placed
calculate-Placed s ps zero at len cur prev last g d f enough e small =
    absurd (omega (arith, enough))
calculate-Placed s [] (suc fuel) at len cur prev last (c, _) d f enough e small =
    (s, rw c refl, (λ y. refl), (λ y a. refl), tt)
calculate-Placed s ((x, h) ∷ ps) (suc fuel) at len cur prev last (c, b, g) (a, d) (f, fs) enough e
      small =
    let size = if (s x).osi_model_layer == data_link_layer then len else sub64 len 0 in
    let l = record (s x) { data_at = inside at; data_len = size } in
    let t = set_layer s x l in
    let total = length-append h (bytes ps) in
    let whole : sub64 len 0 ≡ len = omega (arith, small) in
    let all : size ≡ len = ground (arith, whole) in
    let head : get_header_len l ≡ length h =
      header_len_lem l (length h) (length (bytes ps)) f (omega (arith, all, e, total)) in
    let rest : sub64 len (length h) ≡ length (bytes ps) = omega (arith, e, total, small) in
    let (s', run, relaid, keep, placed) =
      calculate-Placed t ps fuel (at + length h) (length (bytes ps)) (s x).next_layer (some x) last
        (Segment-keep s t (ids ps) (s x).next_layer (some x) last none
          (set_SameLinks s x l refl (ids ps)) g)
        d (set_Fits s x l refl ps fs) (omega (arith, enough)) refl
        (omega (arith, e, total, small)) in
    let self : (x == x) ≡ true = ground arith in
    let at_x : s' x ≡ l = keep x a ∙ rw self refl in
    (
      s',
      ap (λ o. calculate (suc fuel) s o at len 0) c
          ∙ (λ i. calculate fuel t (s x).next_layer (at + head i) (sub64 len (head i)) 0)
          ∙ ap (λ k. calculate fuel t (s x).next_layer (at + length h) k 0) rest
          ∙ run,
      (λ y. Relaid-trans (s y) (t y) (s' y) (set_Relaid s x l refl y) (relaid y)),
      (λ y (k, ks). keep y ks ∙ set_other s y x l k),
      (ap (λ o. o.data_at) at_x, ap get_header_len at_x ∙ head, placed),
    )
  where
    set_other : (s : ℕ → Layer) (y x : ℕ) (l : Layer) → (x == y) ≡ false → set_layer s x l y ≡ s y
    set_other s y x l k = let other : (y == x) ≡ false = ground (arith, k) in rw other refl
