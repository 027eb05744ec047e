-- ===== src/Prelude/Map.antt =====
-- std::map with unsigned keys: an association list in key order, so that iteration goes by key.
use Prim.Native.Nat.{ℕ}
use mathlib.Core.Path.{◌≡◌, refl, subst}
use mathlib.Core.List.{List, [], ◌∷◌}
use mathlib.Core.Option.{Option, none, some}
use mathlib.Core.Logic.{inl, inr}
use native.Mathlib.Omega.{arith}
use pcap_plus_plus.Prelude.Tests.{ltb, ◌==◌, if◌then◌else◌, Bool-cases, if_cases}

abbrev pub Map {ℓ} : Type ℓ → Type ℓ
Map V = List (ℕ × V)

pub some_inj {ℓ} : {A : Type ℓ} {a b : A} → some a ≡ some b → a ≡ b
some_inj e = cc

module _ {ℓ} {V : Type ℓ} where
  -- find(key)
  unfoldable pub lookup : ℕ → Map V → Option V
  lookup key [] = none
  lookup key ((first, second) ∷ rest) = if first == key then some second else lookup key rest

  -- operator[](key) = v, which keeps the keys in order
  unfoldable pub insert : ℕ → V → Map V → Map V
  insert key v [] = (key, v) ∷ []
  insert key v ((first, second) ∷ rest) =
      if first == key
      then (key, v) ∷ rest
      else (if ltb key first
          then (key, v) ∷ (first, second) ∷ rest
          else (first, second) ∷ insert key v rest)

  -- erase(key)
  unfoldable pub erase : ℕ → Map V → Map V
  erase key [] = []
  erase key ((first, second) ∷ rest) =
      if first == key then erase key rest else (first, second) ∷ erase key rest

  -- What a key finds after a write.
  pub lookup-insert :
      (key other : ℕ) (v : V) (entries : Map V)
      → lookup other (insert key v entries)
        ≡ (if key == other then some v else lookup other entries)
  unfolding insert lookup
  lookup-insert key other v [] = refl
  lookup-insert key other v ((first, second) ∷ rest) =
      ground (arith, lookup-insert key other v rest)

  -- What a key finds after an erasure.
  pub lookup-erase :
      (key other : ℕ) (entries : Map V)
      → lookup other (erase key entries) ≡ (if key == other then none else lookup other entries)
  unfolding erase lookup
  lookup-erase key other [] = ground arith
  lookup-erase key other ((first, second) ∷ rest) = ground (arith, lookup-erase key other rest)

  -- A property of all values of the map.
  abbrev pub Every {κ} : (V → Type κ) → Map V → Type κ
  Every P [] = Unit {κ}
  Every P ((k, v) ∷ m) = P v × Every P m

  pub Every-lookup {κ} :
      (P : V → Type κ) (k : ℕ) (m : Map V) {v : V} → Every P m → lookup k m ≡ some v → P v
  unfolding lookup
  Every-lookup P k [] e h = cc
  Every-lookup P k ((j, w) ∷ m) e h = elim (Bool-cases (j == k)) [
    | inl same ↦ subst P (some_inj (rw same at h)) e.0
    | inr other ↦ Every-lookup P k m e.1 (rw other at h)
  ]

  pub Every-insert {κ} :
      (P : V → Type κ) (k : ℕ) (v : V) (m : Map V) → P v → Every P m → Every P (insert k v m)
  unfolding insert
  Every-insert P k v [] h e = (h, tt)
  Every-insert P k v ((j, w) ∷ m) h e =
      if_cases (Every P) (j == k) _ _ (λ same. (h, e.1))
        λ other.
          if_cases (Every P) (ltb k j) _ _ (λ below. (h, e))
            λ above. (e.0, Every-insert P k v m h e.1)

  pub Every-erase {κ} : (P : V → Type κ) (k : ℕ) (m : Map V) → Every P m → Every P (erase k m)
  unfolding erase
  Every-erase P k [] e = tt
  Every-erase P k ((j, v) ∷ m) e =
      if_cases (Every P) (j == k) _ _ (λ same. Every-erase P k m e.1)
        λ other. (e.0, Every-erase P k m e.1)

  -- The second of two writes to one key replaces the first.
  pub insert-insert : (k : ℕ) (v w : V) (m : Map V) → insert k v (insert k w m) ≡ insert k v m
  unfolding insert
  insert-insert k v w [] = ground arith
  insert-insert k v w ((j, u) ∷ m) = ground (arith, insert-insert k v w m)

  pub lookup-insert_self : (k : ℕ) (v : V) (m : Map V) → lookup k (insert k v m) ≡ some v
  lookup-insert_self k v m = rw (lookup-insert k k v m) (ground arith)
