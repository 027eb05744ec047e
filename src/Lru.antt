-- ===== src/Lru.antt =====
-- Common++/header/LRUList.h at T = uint32_t. m_CacheItemsList is a list, most recently used first. Of
-- m_CacheItemsMap the model keeps the keys: the iterator of a key is the list's node with that
-- element, which is the only one but for a copy that put has just pushed in front of it.
pub mod Laws
use pcap_plus_plus.Prelude.{
  ℕ, suc, ◌+◌, ◌≡◌, Bool, true, false, Option, none, some, List, [], ◌∷◌, ltb, ◌==◌, if◌then◌else◌,
  length, get_elem?,
}

-- map::find(k) != end(), and list membership
unfoldable pub has : ℕ → List ℕ → Bool
has k [] = false
has k (x ∷ xs) = if x == k then true else has k xs

-- Erases the node of an element.
unfoldable pub remove : ℕ → List ℕ → List ℕ
remove k [] = []
remove k (x ∷ xs) = if x == k then xs else x ∷ remove k xs

-- list::back(), with a value for the empty list, where the source has no behaviour
unfoldable pub last_or : ℕ → List ℕ → ℕ
last_or d [] = d
last_or d (x ∷ xs) = last_or x xs

-- The list without its last node.
unfoldable pub drop_last : List ℕ → List ℕ
drop_last [] = []
drop_last (x ∷ []) = []
drop_last (x ∷ y ∷ ys) = x ∷ drop_last (y ∷ ys)

pub record LruList : Type 0 where
  pub items : List ℕ
  pub keys : List ℕ
  pub max_size : ℕ

unfoldable pub empty_lru : ℕ → LruList
empty_lru max_size = record { items = []; keys = []; max_size = max_size }

-- The list and the map after put's insertion, before the test of the size.
unfoldable pub pushed : LruList → ℕ → LruList
pushed l x =
    if has x l.keys
    then record l { items = x ∷ remove x l.items }
    else record l { items = x ∷ l.items; keys = x ∷ l.keys }

-- put: the new list, and the deleted value where it returns 1.
unfoldable pub put : LruList → ℕ → LruList × Option ℕ
put l x =
    let p = pushed l x in
    let oldest = last_or x p.items in
    if ltb p.max_size (length p.keys)
    then (record p { items = drop_last p.items; keys = remove oldest p.keys }, some oldest)
    else (p, none)

unfoldable pub erase_element : LruList → ℕ → LruList
erase_element l x =
    if has x l.keys then record l { items = remove x l.items; keys = remove x l.keys } else l

unfoldable pub get_mru_element : LruList → Option ℕ
get_mru_element l = get_elem? l.items 0

unfoldable pub get_lru_element : LruList → ℕ → ℕ
get_lru_element l d = last_or d l.items

unfoldable pub get_size : LruList → ℕ
get_size l = length l.keys
