-- ===== src/RawPacket/Edit.antt =====
-- What the edits of a RawPacket do to its bytes.
use mathlib.Core.List.{append_assoc, append-nil}
use pcap_plus_plus.Prelude.{
  ℕ, ◌+◌, ◌-◌, ◌≤◌, ◌<◌, ◌≡◌, refl, sym, ap, ◌∙◌, true, false, some, List, [], ◌∷◌, ◌++◌, arith,
  ltb, leb, not, ◌&&◌, ◌||◌, ◌%◌, ◌==◌, length, replicate, length-append, length-replicate,
}
use pcap_plus_plus.RawPacket.{
  RawData, live, RawPacket, store_bytes, move_bytes, append_data, with_length, insert_data,
  remove_data, reallocate_data,
}
use pcap_plus_plus.RawPacket.Buffers.{cut, load_at, store_at, move_lem, take_all}

-- The packet's buffer holds the bytes c, and rest behind them.
abbrev pub Holds : RawPacket → List ℕ → List ℕ → Type 0
Holds p c rest = (p.raw_data ≡ live (c ++ rest)) × (p.raw_data_len ≡ length c)

-- appendData with room for the new bytes puts them behind the packet's bytes, and
-- leaves the rest of the room.
pub append_data_appends :
    (p : RawPacket) (c rest xs : List ℕ)
    → Holds p c rest
    → length xs ≤ length rest
    → (q : RawPacket) × (rest' : List ℕ) × (append_data p xs ≡ some q)
      × Holds q (c ++ xs) rest'
      × (length rest' + length xs ≡ length rest)
unfolding append_data
append_data_appends p c rest xs (d, l) room =
    let (old, c', e, k, m) = cut (length xs) rest room in
    let st =
      store_at p.raw_data c old c' xs p.raw_data_len (d ∙ ap (λ x. live (c ++ x)) e) l
        (omega (arith, k)) in
    (
      with_length p (live (c ++ (xs ++ c'))) (p.raw_data_len + length xs),
      c',
      rw (st, append_data) refl,
      (ap live (sym (append_assoc c xs c')), omega (arith, l, length-append c xs)),
      omega (arith, m, room),
    )

insert_steps :
    (p : RawPacket) (at : ℕ) (xs : List ℕ) (d e : RawData)
    → at ≤ p.raw_data_len
    → move_bytes p.raw_data (at + length xs) at (p.raw_data_len - at) ≡ some d
    → store_bytes d at xs ≡ some e
    → insert_data p at (some xs) (length xs) ≡ some (with_length p e (p.raw_data_len + length xs))
unfolding insert_data
insert_steps p at xs d e inside moved filled =
    let guard : ltb p.raw_data_len at ≡ false = ground arith in
    rw (guard, moved, insert_data, take_all xs, filled, insert_data) refl

-- insertData with room for the new bytes puts them between the packet's bytes a and b.
pub insert_data_inserts :
    (p : RawPacket) (a b rest xs : List ℕ)
    → Holds p (a ++ b) rest
    → length xs ≤ length rest
    → (q : RawPacket) × (rest' : List ℕ) × (insert_data p (length a) (some xs) (length xs) ≡ some q)
      × Holds q (a ++ (xs ++ b)) rest'
      × (length rest' + length xs ≡ length rest)
insert_data_inserts p a b rest xs (d, l) room =
    let lab = length-append a b in
    let lbr = length-append b rest in
    let (gap, tail, e, k, m) = cut (length xs) (b ++ rest) (omega (arith, lbr)) in
    let (old, c', e', k', m') = cut (length b) tail (omega (arith, lbr, m)) in
    let d₁ : p.raw_data ≡ live (a ++ (b ++ rest)) = d ∙ ap live (append_assoc a b rest) in
    let d₂ : p.raw_data ≡ live ((a ++ gap) ++ (old ++ c')) =
      d₁
      ∙ ap (λ x. live (a ++ x)) (e ∙ ap (λ x. gap ++ x) e')
      ∙ ap live (sym (append_assoc a gap (old ++ c'))) in
    let moved =
      move_lem p.raw_data (length a + length xs) (length a) (p.raw_data_len - length a) b _
        (load_at p.raw_data a b rest (length a) (p.raw_data_len - length a) d₁ refl
          (omega (arith, l, lab)))
        (store_at p.raw_data (a ++ gap) old c' b (length a + length xs) d₂
          (omega (arith, k, length-append a gap)) (sym k')) in
    let filled =
      store_at (live ((a ++ gap) ++ (b ++ c'))) a gap (b ++ c') xs (length a)
        (ap live (append_assoc a gap (b ++ c'))) refl (sym k) in
    (
      with_length p (live (a ++ (xs ++ (b ++ c')))) (p.raw_data_len + length xs),
      c',
      insert_steps p (length a) xs _ _ (omega (arith, l, lab)) moved filled,
      (
        ap (λ x. live (a ++ x)) (sym (append_assoc xs b c'))
            ∙ ap live (sym (append_assoc a (xs ++ b) c')),
        omega (arith, l, lab, length-append a (xs ++ b), length-append xs b),
      ),
      omega (arith, m, m', lbr, room),
    )

remove_steps :
    (p : RawPacket) (at n : ℕ) (d : RawData)
    → at + n < p.raw_data_len
    → move_bytes p.raw_data at (at + n) (p.raw_data_len - (at + n)) ≡ some d
    → remove_data p at n ≡ some (with_length p d (p.raw_data_len - n), true)
unfolding remove_data
remove_steps p at n d inside moved =
    let guard : ltb p.raw_data_len (at + n) ≡ false = ground arith in
    let middle : (at + n == p.raw_data_len) ≡ false = ground arith in
    rw (guard, middle, moved, remove_data) refl

remove_tail :
    (p : RawPacket) (at n : ℕ)
    → at + n ≡ p.raw_data_len
    → remove_data p at n ≡ some (with_length p p.raw_data (p.raw_data_len - n), true)
unfolding remove_data
remove_tail p at n e =
    let guard : ltb p.raw_data_len (at + n) ≡ false = ground arith in
    let tail : (at + n == p.raw_data_len) ≡ true = ground arith in
    rw (guard, tail, remove_data) refl

-- removeData of the bytes xs between a and b leaves a and b.
pub remove_data_removes :
    (p : RawPacket) (a xs b rest : List ℕ)
    → Holds p (a ++ (xs ++ b)) rest
    → (q : RawPacket) × (rest' : List ℕ) × (remove_data p (length a) (length xs) ≡ some (q, true))
      × Holds q (a ++ b) rest'
      × (length rest' ≡ length rest + length xs)
remove_data_removes p a xs [] rest (d, l) =
    let nil : List ℕ = [] in
    let len = length-append a (xs ++ nil) in
    let len' = length-append xs nil in
    (
      with_length p p.raw_data (p.raw_data_len - length xs),
      xs ++ rest,
      remove_tail p (length a) (length xs) (omega (arith, l, len, len')),
      (
        d
            ∙ ap (λ x. live ((a ++ x) ++ rest)) (append-nil xs)
            ∙ ap live (append_assoc a xs rest)
            ∙ ap (λ x. live (x ++ (xs ++ rest))) (sym (append-nil a)),
        omega (arith, l, len, len', length-append a nil),
      ),
      omega (arith, length-append xs rest),
    )
remove_data_removes p a xs (b₀ ∷ bs) rest (d, l) =
    let b = b₀ ∷ bs in
    let len = length-append a (xs ++ b) in
    let len' = length-append xs b in
    let lens = length-append xs (b ++ rest) in
    let lbr = length-append b rest in
    let (old, c', e, k, m) = cut (length b) (xs ++ (b ++ rest)) (omega (arith, lens, lbr)) in
    let d₁ : p.raw_data ≡ live (a ++ (xs ++ (b ++ rest))) =
      d
      ∙ ap live (append_assoc a (xs ++ b) rest)
      ∙ ap (λ x. live (a ++ x)) (append_assoc xs b rest) in
    let n = p.raw_data_len - (length a + length xs) in
    let moved =
      move_lem p.raw_data (length a) (length a + length xs) n b _
        (load_at p.raw_data (a ++ xs) b rest (length a + length xs) n
          (d₁ ∙ ap live (sym (append_assoc a xs (b ++ rest)))) (omega (arith, length-append a xs))
          (omega (arith, l, len, len')))
        (store_at p.raw_data a old c' b (length a) (d₁ ∙ ap (λ x. live (a ++ x)) e) refl (sym k)) in
    (
      with_length p (live (a ++ (b ++ c'))) (p.raw_data_len - length xs),
      c',
      remove_steps p (length a) (length xs) _ (omega (arith, l, len, len')) moved,
      (ap live (sym (append_assoc a b c')), omega (arith, l, len, len', length-append a b)),
      omega (arith, m, lens, lbr),
    )

-- insertData with room for the new bytes, then removeData of as many bytes at the same place, gives
-- the packet's bytes back, and the room behind them.
pub remove_data-insert_data :
    (p : RawPacket) (a b rest xs : List ℕ)
    → Holds p (a ++ b) rest
    → length xs ≤ length rest
    → (q q' : RawPacket) × (rest' : List ℕ) × (insert_data p (length a) (some xs) (length xs)
        ≡ some q)
      × (remove_data q (length a) (length xs) ≡ some (q', true))
      × Holds q' (a ++ b) rest'
      × (length rest' ≡ length rest)
remove_data-insert_data p a b rest xs h room =
    let (q, r, e, h', k) = insert_data_inserts p a b rest xs h room in
    let (q', r', e', h'', k') = remove_data_removes q a xs b r h' in
    (q, q', r', e, e', h'', omega (arith, k, k'))

larger_tests :
    (size len : ℕ)
    → len < size
    → size < 0x8000_0000
    → let word = size % 0x1_0000_0000 in
      ((not (leb 0x8000_0000 word) && word == len) ≡ false)
      × ((leb 0x8000_0000 word || ltb word len) ≡ false)
larger_tests size len h small =
    let same : size % 0x1_0000_0000 ≡ size = omega arith in rw same (ground arith, ground arith)

-- reallocateData to a larger size that fits an int keeps the packet's bytes, and the room behind
-- them is that size less their number; the data is then freed with the packet.
pub reallocate_data_keeps :
    (p : RawPacket) (c rest : List ℕ) (size : ℕ)
    → Holds p c rest
    → length c < size
    → size < 0x8000_0000
    → (q : RawPacket) × (rest' : List ℕ) × (reallocate_data p size ≡ some (q, true))
      × Holds q c rest'
      × (length rest' + length c ≡ size)
      × (q.delete_at_destructor ≡ true)
unfolding reallocate_data
reallocate_data_keeps p c rest size (d, l) larger small =
    let guards = larger_tests size p.raw_data_len (omega (arith, l)) small in
    let word = size % 0x1_0000_0000 in
    let negative = leb 0x8000_0000 word in
    let zeros : length (replicate {A = ℕ} size 0) ≡ size = length-replicate size 0 in
    let (old, c', e, k, m) = cut (length c) (replicate size 0) (omega (arith, zeros)) in
    let same : (not negative && word == p.raw_data_len) ≡ false = guards.0 in
    let less : (negative || ltb word p.raw_data_len) ≡ false = guards.1 in
    let loaded = load_at p.raw_data [] c rest 0 p.raw_data_len d refl l in
    let stored = store_at (live (replicate size 0)) [] old c' c 0 (ap live e) refl (sym k) in
    (
      record p { raw_data = live (c ++ c'); delete_at_destructor = true },
      c',
      rw (same, less, loaded, reallocate_data, stored, reallocate_data) refl,
      (refl, l),
      omega (arith, m, zeros),
      refl,
    )
