-- ===== src/Lru/Laws.antt =====
-- The list and the map of an LRUList agree, its capacity is kept, and put drops the oldest element.
use mathlib.Core.Path.{subst}
use pcap_plus_plus.Prelude.{
  ℕ, ◌+◌, ◌≤◌, ◌<◌, ◌≡◌, refl, sym, ap, ◌∙◌, ◌⊎◌, inl, inr, true, false, none, some, List, [], ◌∷◌,
  arith, ltb, ltb→lt, ◌==◌, ==_iff, if◌then◌else◌, length, Bool-cases,
}
use pcap_plus_plus.Lru.{LruList, has, remove, last_or, drop_last, pushed, put, erase_element}

abbrev pub IsDistinct : List ℕ → Type 0
IsDistinct [] = Unit {0}
IsDistinct (x ∷ xs) = (has x xs ≡ false) × IsDistinct xs

pub has-remove :
    (k j : ℕ) (xs : List ℕ)
    → IsDistinct xs
    → has j (remove k xs) ≡ (if k == j then false else has j xs)
unfolding has remove
has-remove k j [] d = ground arith
has-remove k j (x ∷ xs) d = ground (arith, has-remove k j xs d.1, d.0)

remove-IsDistinct : (k : ℕ) (xs : List ℕ) → IsDistinct xs → IsDistinct (remove k xs)
unfolding remove
remove-IsDistinct k [] d = tt
remove-IsDistinct k (x ∷ xs) d =
    ground (arith, has-remove k x xs d.1, remove-IsDistinct k xs d.1, d.0)

length-remove : (k : ℕ) (xs : List ℕ) → has k xs ≡ true → length (remove k xs) + 1 ≡ length xs
unfolding has remove
length-remove k [] h = cc
length-remove k (x ∷ xs) h = ground (arith, length-remove k xs)

-- What one list has and another lacks are different elements.
pub has_ne : (x z : ℕ) (ys : List ℕ) → has x ys ≡ false → has z ys ≡ true → (x == z) ≡ false
has_ne x z ys h g = elim (Bool-cases (x == z)) [
  | inl same ↦ cc ((==_iff x z).0 same)
  | inr other ↦ other
]

pub remove_absent : (k : ℕ) (xs : List ℕ) → has k xs ≡ false → remove k xs ≡ xs
unfolding has remove
remove_absent k [] h = refl
remove_absent k (x ∷ xs) h = ground (arith, remove_absent k xs)

-- The last element is one of the list, and what is left is the list without it.
last_lem :
    (x : ℕ) (xs : List ℕ)
    → IsDistinct (x ∷ xs)
    → (has (last_or x xs) (x ∷ xs) ≡ true) × (drop_last (x ∷ xs) ≡ remove (last_or x xs) (x ∷ xs))
unfolding has remove last_or drop_last
last_lem x [] d = ground arith
last_lem x (y ∷ ys) d =
    let (h, e) = last_lem y ys d.1 in
    let n = has_ne x (last_or y ys) (y ∷ ys) d.0 h in (rw n h, rw n (ap (◌∷◌ x) e))

-- The map has the elements of the list, each once, and there are max_size of them at most.
pub record LruOk (l : LruList) : Type 0 where
  pub distinct : IsDistinct l.items
  pub keys_distinct : IsDistinct l.keys
  pub agree : (k : ℕ) → has k l.keys ≡ has k l.items
  pub sizes : length l.keys ≡ length l.items
  pub fits : length l.items ≤ l.max_size

-- The same after a push, with room for one more.
pub record PushedOk (l : LruList) (x : ℕ) (p : LruList) : Type 0 where
  pub distinct : IsDistinct p.items
  pub keys_distinct : IsDistinct p.keys
  pub agree : (k : ℕ) → has k p.keys ≡ has k p.items
  pub sizes : length p.keys ≡ length p.items
  pub fits : length p.items ≤ l.max_size + 1
  pub contents : p.items ≡ x ∷ remove x l.items
  pub same_max : p.max_size ≡ l.max_size

has_removed : (x : ℕ) (xs : List ℕ) → IsDistinct xs → has x (remove x xs) ≡ false
has_removed x xs d = has-remove x x xs d ∙ ground arith

has_moved :
    (x k : ℕ) (xs : List ℕ) → IsDistinct xs → has x xs ≡ true → has k xs ≡ has k (x ∷ remove x xs)
unfolding has
has_moved x k xs d h = elim (Bool-cases (x == k)) [
  | inl same ↦ rw same (subst (λ j. has j xs ≡ true) ((==_iff x k).0 same) h)
  | inr other ↦ rw (other, has-remove x k xs d, other)
]

has_pushed : (x k : ℕ) (ks xs : List ℕ) → has k ks ≡ has k xs → has k (x ∷ ks) ≡ has k (x ∷ xs)
unfolding has
has_pushed x k ks xs e = rw e

pushed_lem : (l : LruList) (x : ℕ) → LruOk l → PushedOk l x (pushed l x)
unfolding pushed
pushed_lem l x ok = elim (Bool-cases (has x l.keys)) [
  | inl old ↦
      let there : has x l.items ≡ true = sym (ok.agree x) ∙ old in
      rw old (record {
        distinct = (has_removed x l.items ok.distinct, remove-IsDistinct x l.items ok.distinct);
        keys_distinct = ok.keys_distinct;
        agree = λ k. ok.agree k ∙ has_moved x k l.items ok.distinct there;
        sizes = omega (arith, ok.sizes, length-remove x l.items there);
        fits = omega (arith, ok.fits, length-remove x l.items there);
        contents = refl;
        same_max = refl;
      })
  | inr new ↦
      let absent : has x l.items ≡ false = sym (ok.agree x) ∙ new in
      rw new (record {
        distinct = (absent, ok.distinct);
        keys_distinct = (new, ok.keys_distinct);
        agree = λ k. has_pushed x k l.keys l.items (ok.agree k);
        sizes = omega (arith, ok.sizes);
        fits = omega (arith, ok.fits);
        contents = ap (◌∷◌ x) (sym (remove_absent x l.items absent));
        same_max = refl;
      })
]

-- Deleting the last element of an agreeing list and map.
module _ (items keys : List ℕ) (max_size z : ℕ) where
  module _ (distinct : IsDistinct items) (keys_distinct : IsDistinct keys)
      (agree : (k : ℕ) → has k keys ≡ has k items) (sizes : length keys ≡ length items)
      (there : has z items ≡ true) where
    remove-LruOk :
        length items ≤ max_size + 1
        → LruOk (record { items = remove z items; keys = remove z keys; max_size = max_size })
    remove-LruOk fits =
        let here : has z keys ≡ true = agree z ∙ there in
        record {
          distinct = remove-IsDistinct z items distinct;
          keys_distinct = remove-IsDistinct z keys keys_distinct;
          agree =
              λ k. rw (has-remove z k keys keys_distinct, has-remove z k items distinct, agree k);
          sizes = omega (arith, length-remove z keys here, length-remove z items there, sizes);
          fits = omega (arith, length-remove z items there, fits);
        }

pub erase_element-LruOk : (l : LruList) (x : ℕ) → LruOk l → LruOk (erase_element l x)
unfolding erase_element
erase_element-LruOk l x ok = elim (Bool-cases (has x l.keys)) [
  | inl old ↦ rw old (
      remove-LruOk l.items l.keys l.max_size x ok.distinct ok.keys_distinct ok.agree ok.sizes
        (sym (ok.agree x) ∙ old) (omega (arith, ok.fits)))
  | inr new ↦ rw new ok
]

-- put keeps the LRU list in order. It moves its element to the front, whether it is new or not.
-- If the list then has max_size elements at most, nothing is deleted; otherwise the last one, the
-- least recently used, is taken out of list and map and returned.
pub put_lem :
    (l : LruList) (x : ℕ)
    → LruOk l
    → let recent = x ∷ remove x l.items in
      LruOk (put l x).0
      × (((length recent ≤ l.max_size) × ((put l x).0.items ≡ recent) × ((put l x).1 ≡ none))
          ⊎ ((l.max_size < length recent)
              × ((put l x).0.items ≡ drop_last recent)
              × ((put l x).1 ≡ some (last_or x recent))))
unfolding put remove last_or
put_lem l x ok =
    let p = pushed l x in
    let k = pushed_lem l x ok in
    let recent = x ∷ remove x l.items in
    let d : IsDistinct recent = subst IsDistinct k.contents k.distinct in
    let (h, e) = last_lem x (remove x l.items) d in
    let n : length p.items ≡ length recent = ap length k.contents in
    elim (Bool-cases (ltb p.max_size (length p.keys))) [
      | inl full ↦
          let over = ltb→lt _ _ full in
          rw (full, k.contents, e)
            (
              remove-LruOk recent p.keys p.max_size (last_or x recent) d k.keys_distinct
                  (subst (λ xs. (j : ℕ) → has j p.keys ≡ has j xs) k.contents k.agree) (k.sizes ∙ n)
                  h (omega (arith, k.fits, k.same_max, n)),
              inr (omega (arith, over, k.sizes, k.same_max, n), refl, refl),
            )
      | inr room ↦
          let under : length p.keys ≤ p.max_size = ground arith in
          rw room (
            record {
              distinct = k.distinct;
              keys_distinct = k.keys_distinct;
              agree = k.agree;
              sizes = k.sizes;
              fits = omega (arith, under, k.sizes);
            },
            inl (omega (arith, under, k.sizes, k.same_max, n), k.contents, refl),
          )
    ]

-- The last of two or more elements is not the first.
last_of_rest :
    (x : ℕ) (xs : List ℕ) → IsDistinct (x ∷ xs) → 1 < length (x ∷ xs) → has (last_or x xs) xs ≡ true
unfolding last_or
last_of_rest x [] d h = absurd (omega arith)
last_of_rest x (y ∷ ys) d h = (last_lem y ys d.1).0

has-recent :
    (x k : ℕ) (xs : List ℕ)
    → IsDistinct xs
    → has k (x ∷ remove x xs) ≡ (if x == k then true else has k xs)
unfolding has
has-recent x k xs d = elim (Bool-cases (x == k)) [
  | inl same ↦ rw same
  | inr other ↦ rw (other, has-remove x k xs d, other)
]

-- put, seen through membership, in a list with room for one element at least.
pub put-has :
    (l : LruList) (x : ℕ)
    → LruOk l
    → 0 < l.max_size
    → let q = (put l x).0 in
      (((put l x).1 ≡ none) × ((k : ℕ) → has k q.items ≡ (if x == k then true else has k l.items)))
      ⊎ ((z : ℕ) × ((put l x).1 ≡ some z)
          × ((x == z) ≡ false)
          × (has z l.items ≡ true)
          × ((k : ℕ)
              → has k q.items
                ≡ (if z == k then false else (if x == k then true else has k l.items))))
unfolding last_or
put-has l x ok pos = elim (put_lem l x ok).1 [
  | inl (fits, e, none') ↦ inl (none', λ k. ap (has k) e ∙ has-recent x k l.items ok.distinct)
  | inr (over, e, some') ↦
      let rest = remove x l.items in
      let z = last_or x rest in
      let d : IsDistinct (x ∷ rest) =
        (has_removed x l.items ok.distinct, remove-IsDistinct x l.items ok.distinct) in
      let there : has z rest ≡ true = last_of_rest x rest d (omega arith) in
      let apart = has_ne x z rest d.0 there in
      let old : has z l.items ≡ true = rw (has-remove x z l.items ok.distinct, apart) at there in
      inr (
        z,
        some',
        apart,
        old,
        λ k.
            ap (has k) (e ∙ (last_lem x rest d).1)
            ∙ has-remove z k (x ∷ rest) d
            ∙ ap (λ b. if z == k then false else b) (has-recent x k l.items ok.distinct),
      )
]

absent_lem :
    (x k : ℕ) (xs : List ℕ) → has x xs ≡ false → has k xs ≡ (if x == k then false else has k xs)
absent_lem x k xs h = elim (Bool-cases (x == k)) [
  | inl same ↦ rw same (subst (λ j. has j xs ≡ false) ((==_iff x k).0 same) h)
  | inr other ↦ rw other
]

pub has-erase_element :
    (l : LruList) (x k : ℕ)
    → LruOk l
    → has k (erase_element l x).items ≡ (if x == k then false else has k l.items)
unfolding erase_element
has-erase_element l x k ok = elim (Bool-cases (has x l.keys)) [
  | inl old ↦ rw old (has-remove x k l.items ok.distinct)
  | inr new ↦ rw new (absent_lem x k l.items (sym (ok.agree x) ∙ new))
]

-- put on an element that is there already deletes nothing.
pub put_known :
    (l : LruList) (x : ℕ)
    → LruOk l
    → has x l.items ≡ true
    → LruOk (put l x).0 × ((k : ℕ) → has k (put l x).0.items ≡ has k l.items)
put_known l x ok old =
    let (q, h) = put_lem l x ok in
    let shorter = length-remove x l.items old in
    (
      q,
      λ k. elim h [
        | inl (fits, e, none') ↦ ap (has k) e ∙ sym (has_moved x k l.items ok.distinct old)
        | inr (over, e, some') ↦ absurd (omega (arith, ok.fits))
      ],
    )
