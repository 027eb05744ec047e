-- ===== src/Packet/Relink.antt =====
-- What linking a layer leaves as it was, and the lists of layers with one more.
use mathlib.Core.List.{append_assoc}
use mathlib.Core.Path.{subst}
use pcap_plus_plus.Prelude.{
  ℕ, ◌+◌, ◌≡◌, refl, sym, ap, ◌∙◌, false, Option, none, some, List, [], ◌∷◌, ◌++◌, arith, ◌==◌,
  ==_iff, All, length, length-append, Bool-cases, inl, inr,
}
use pcap_plus_plus.Packet.{Layer, Packet, set_layer, link_next, link_layer}
use pcap_plus_plus.Packet.Links.{Apart, IsDistinct}
use pcap_plus_plus.Packet.Layout.{Piece, ids, bytes, Fits, HeaderFits}

pub ids-append : (ps qs : List Piece) → ids (ps ++ qs) ≡ ids ps ++ ids qs
ids-append [] qs = refl
ids-append ((x, h) ∷ ps) qs = ap (◌∷◌ x) (ids-append ps qs)

pub bytes-append : (ps qs : List Piece) → bytes (ps ++ qs) ≡ bytes ps ++ bytes qs
bytes-append [] qs = refl
bytes-append ((x, h) ∷ ps) qs =
    ap (λ b. h ++ b) (bytes-append ps qs) ∙ sym (append_assoc h (bytes ps) (bytes qs))

-- One more header among others.
pub length-bytes_middle :
    (ls rs : List Piece) (x : ℕ) (h : List ℕ)
    → length (bytes (ls ++ ((x, h) ∷ rs))) ≡ length h + length (bytes (ls ++ rs))
length-bytes_middle ls rs x h = omega (
  arith,
  ap length (bytes-append ls ((x, h) ∷ rs)),
  ap length (bytes-append ls rs),
  length-append (bytes ls) (h ++ bytes rs),
  length-append (bytes ls) (bytes rs),
  length-append h (bytes rs),
)

pub All-insert {κ} :
    (P : ℕ → Type κ) (xs ys : List ℕ) (x : ℕ) → All P (xs ++ ys) → P x → All P (xs ++ (x ∷ ys))
All-insert P [] ys x h p = (p, h)
All-insert P (y ∷ xs) ys x (q, h) p = (q, All-insert P xs ys x h p)

pub IsDistinct-insert :
    (xs ys : List ℕ) (x : ℕ)
    → IsDistinct (xs ++ ys)
    → Apart x (xs ++ ys)
    → IsDistinct (xs ++ (x ∷ ys))
unfolding IsDistinct
IsDistinct-insert [] ys x d a = (a, d)
IsDistinct-insert (y ∷ xs) ys x (h, d) (k, a) = (
  All-insert (λ z. (z == y) ≡ false) xs ys x h (ground (arith, k)),
  IsDistinct-insert xs ys x d a,
)

-- A layer that differs from another one in its links at most.
abbrev pub Relinked : Layer → Layer → Type 0
Relinked l l' = l' ≡ record l { next_layer = l'.next_layer; prev_layer = l'.prev_layer }

pub Relinked-trans : (a b c : Layer) → Relinked a b → Relinked b c → Relinked a c
Relinked-trans a b c e f =
    f
    ∙ ap {A = Layer} {B = Layer}
        (λ l. record l { next_layer = c.next_layer; prev_layer = c.prev_layer }) e

pub set_Relinked :
    (s : ℕ → Layer) (x : ℕ) (l : Layer)
    → Relinked (s x) l
    → (y : ℕ) → Relinked (s y) (set_layer s x l y)
set_Relinked s x l e y = elim (Bool-cases (y == x)) [
  | inl same ↦ rw same (subst (λ z. Relinked (s z) l) (sym ((==_iff y x).0 same)) e)
  | inr other ↦ rw other refl
]

pub set_again :
    (s t : ℕ → Layer) (x : ℕ) (l : Layer)
    → ((y : ℕ) → Relinked (s y) (t y))
    → Relinked (t x) l
    → (y : ℕ) → Relinked (s y) (set_layer t x l y)
set_again s t x l h e y = Relinked-trans (s y) (t y) _ (h y) (set_Relinked t x l e y)

pub link_next-Relinked :
    (p : Packet) (s t : ℕ → Layer) (next : Option ℕ) (new : ℕ)
    → ((y : ℕ) → Relinked (s y) (t y))
    → (y : ℕ) → Relinked (s y) ((link_next p t next new).layers y)
unfolding link_next
link_next-Relinked p s t none new h y = h y
link_next-Relinked p s t (some f) new h y =
    set_again s t f (record (t f) { prev_layer = some new }) h refl y

pub link_next_same :
    (p : Packet) (t : ℕ → Layer) (next : Option ℕ) (new : ℕ)
    → ((link_next p t next new).raw_packet ≡ p.raw_packet)
      × ((link_next p t next new).max_packet_len ≡ p.max_packet_len)
unfolding link_next
link_next_same p t none new = (refl, refl)
link_next_same p t (some f) new = (refl, refl)

pub link_layer-Relinked :
    (p : Packet) (prev : Option ℕ) (new y : ℕ)
    → Relinked (p.layers y) ((link_layer p prev new).layers y)
unfolding link_layer
link_layer-Relinked p none new y =
    let l = record (p.layers new) { next_layer = p.first_layer } in
    link_next-Relinked (record p { first_layer = some new }) p.layers (set_layer p.layers new l)
      p.first_layer new (set_Relinked p.layers new l refl) y
link_layer-Relinked p (some q) new y =
    let next = (p.layers q).next_layer in
    let l = record (p.layers new) { next_layer = next; prev_layer = some q } in
    let t = set_layer p.layers new l in
    let l' = record (t q) { next_layer = some new } in
    link_next-Relinked p p.layers (set_layer t q l') next new
      (set_again p.layers t q l' (set_Relinked p.layers new l refl) refl) y

pub link_layer_same :
    (p : Packet) (prev : Option ℕ) (new : ℕ)
    → ((link_layer p prev new).raw_packet ≡ p.raw_packet)
      × ((link_layer p prev new).max_packet_len ≡ p.max_packet_len)
unfolding link_layer
link_layer_same p none new = link_next_same _ _ p.first_layer new
link_layer_same p (some q) new = link_next_same _ _ (p.layers q).next_layer new

pub Fits-keep :
    (s t : ℕ → Layer) (ps : List Piece)
    → ((y : ℕ) → (t y).header ≡ (s y).header)
    → Fits s ps
    → Fits t ps
unfolding Fits
Fits-keep s t [] e h = tt
Fits-keep s t ((y, b) ∷ ps) e (f, h) =
    (subst (λ k. HeaderFits k (length b) (length (bytes ps))) (sym (e y)) f, Fits-keep s t ps e h)

pub All-map {κ μ} :
    (P : ℕ → Type κ) (Q : ℕ → Type μ) (xs : List ℕ) → ((x : ℕ) → P x → Q x) → All P xs → All Q xs
All-map P Q [] f h = tt
All-map P Q (x ∷ xs) f (h, hs) = (f x h, All-map P Q xs f hs)

pub All-both {κ μ} :
    (P : ℕ → Type κ) (Q : ℕ → Type μ) (xs : List ℕ) → All P xs → All Q xs → All (λ x. P x × Q x) xs
All-both P Q [] h k = tt
All-both P Q (x ∷ xs) (h, hs) (k, ks) = ((h, k), All-both P Q xs hs ks)

pub All-every {κ} : (P : ℕ → Type κ) (xs : List ℕ) → ((x : ℕ) → P x) → All P xs
All-every P [] f = tt
All-every P (x ∷ xs) f = (f x, All-every P xs f)
