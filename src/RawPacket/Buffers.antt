-- ===== src/RawPacket/Buffers.antt =====
-- Reads and writes of a buffer that is split where they begin and end.
use mathlib.Core.List.{append_assoc}
use pcap_plus_plus.Prelude.{
  ℕ, zero, suc, ◌+◌, ◌-◌, ◌≤◌, ◌≡◌, refl, sym, ap, ◌∙◌, some, List, [], ◌∷◌, ◌++◌, arith, length,
  take, drop, length-append, length-take_le, length-drop,
}
use pcap_plus_plus.RawPacket.{RawData, live, load_bytes, store_bytes, move_bytes}

module _ {ℓ} {A : Type ℓ} where
  pub take_prefix : (n : ℕ) (xs ys : List A) → n ≡ length xs → take n (xs ++ ys) ≡ xs
  take_prefix zero [] ys h = refl
  take_prefix zero (x ∷ xs) ys h = absurd (omega arith)
  take_prefix (suc n) [] ys h = absurd (omega arith)
  take_prefix (suc n) (x ∷ xs) ys h = ap (λ zs. x ∷ zs) (take_prefix n xs ys (omega arith))

  pub drop_prefix : (n : ℕ) (xs ys : List A) → n ≡ length xs → drop n (xs ++ ys) ≡ ys
  drop_prefix zero [] ys h = refl
  drop_prefix zero (x ∷ xs) ys h = absurd (omega arith)
  drop_prefix (suc n) [] ys h = absurd (omega arith)
  drop_prefix (suc n) (x ∷ xs) ys h = drop_prefix n xs ys (omega arith)

  take-drop : (n : ℕ) (xs : List A) → take n xs ++ drop n xs ≡ xs
  take-drop zero xs = refl
  take-drop (suc n) [] = refl
  take-drop (suc n) (x ∷ xs) = ap (λ zs. x ∷ zs) (take-drop n xs)

  -- A list cut before and behind n elements, for what is written over.
  pub cut :
      (n : ℕ) (xs : List A)
      → n ≤ length xs
      → (old c : List A) × (xs ≡ old ++ c) × (length old ≡ n) × (length c ≡ length xs - n)
  cut n xs h = (take n xs, drop n xs, sym (take-drop n xs), length-take_le n xs h, length-drop n xs)

load_lem :
    (a b c : List ℕ) (at n : ℕ)
    → at ≡ length a
    → n ≡ length b
    → load_bytes (live (a ++ (b ++ c))) at n ≡ some b
unfolding load_bytes
load_lem a b c at n h k =
    rw (drop_prefix at a (b ++ c) h, take_prefix n b c k)
      (ground (arith, length-append a (b ++ c), length-append b c))

store_lem :
    (a old c xs : List ℕ) (at : ℕ)
    → at ≡ length a
    → length xs ≡ length old
    → store_bytes (live (a ++ (old ++ c))) at xs ≡ some (live (a ++ (xs ++ c)))
unfolding store_bytes
store_lem a old c xs at h k =
    let e : drop (at + length xs) (a ++ (old ++ c)) ≡ c =
      ap (drop (at + length xs)) (sym (append_assoc a old c))
      ∙ drop_prefix (at + length xs) (a ++ old) c (omega (arith, length-append a old)) in
    rw (take_prefix at a (old ++ c) h, e, append_assoc a xs c)
      (ground (arith, length-append a (old ++ c), length-append old c))

module _ (d : RawData) where
  pub load_at :
      (a b c : List ℕ) (at n : ℕ)
      → d ≡ live (a ++ (b ++ c))
      → at ≡ length a
      → n ≡ length b
      → load_bytes d at n ≡ some b
  load_at a b c at n e h k = ap (λ x. load_bytes x at n) e ∙ load_lem a b c at n h k

  pub store_at :
      (a old c xs : List ℕ) (at : ℕ)
      → d ≡ live (a ++ (old ++ c))
      → at ≡ length a
      → length xs ≡ length old
      → store_bytes d at xs ≡ some (live (a ++ (xs ++ c)))
  store_at a old c xs at e h k = ap (λ x. store_bytes x at xs) e ∙ store_lem a old c xs at h k

  pub move_lem :
      (to from n : ℕ) (b : List ℕ) (e : RawData)
      → load_bytes d from n ≡ some b
      → store_bytes d to b ≡ some e
      → move_bytes d to from n ≡ some e
  unfolding move_bytes
  move_lem to from n b e h k = rw (h, move_bytes) k

pub take_all {ℓ} : {A : Type ℓ} (xs : List A) → take (length xs) xs ≡ xs
take_all [] = refl
take_all (x ∷ xs) = ap (λ zs. x ∷ zs) (take_all xs)
