-- ===== src/TextBasedProtocol/Separator.antt =====
-- A line without a separator: the constructor of HeaderField looks for one behind the line's end.
use mathlib.Core.List.{append_assoc}
use pcap_plus_plus.Prelude.{
  ℕ, ◌+◌, ◌-◌, ◌≤◌, ◌<◌, ◌≡◌, refl, sym, ap, ◌∙◌, inl, inr, Bool, true, false, some, List, [], ◌∷◌,
  ◌++◌, arith, ltb, ◌==◌, if◌then◌else◌, length, get_elem?, drop, length-append, Option-cases,
  Bool-cases,
}
use pcap_plus_plus.RawPacket.Buffers.{drop_prefix}
use pcap_plus_plus.TextBasedProtocol.Field.{
  HeaderField, index_of, count_spaces, value_start, value_size, assign_text, max_size, length_error,
  parsed, parse_field, get_field_value,
}
use pcap_plus_plus.TextBasedProtocol.Lines.{
  Avoids, index_of-prefix, read_steps, start_steps, not_leb,
}

-- The size of a value that begins behind the line's end wraps around.
value_size_wraps :
    (bytes : List ℕ) (at end_at : ℕ)
    → end_at < at
    → at < 0x8000_0000_0000_0000
    → 0xFFFF_FFFF_FFFF_FFFF ≤ value_size bytes at (some end_at) + at
unfolding value_size
value_size_wraps bytes at end_at behind small = elim (Option-cases (get_elem? bytes (end_at - 1))) [
  | inl e ↦ rw (value_size, e) (omega arith)
  | inr (c, e) ↦ elim (Bool-cases (c == b'\r')) [
    | inl cr ↦ rw (value_size, e, cr) (omega arith)
    | inr other ↦ rw (value_size, e, other) (omega arith)
  ]
]

more_than : (a b : ℕ) → a < b → ltb a b ≡ true
more_than a b h = ground arith

value_steps :
    (bytes : List ℕ) (f : HeaderField) (at : ℕ) (separator : ℕ) (spaces : Bool) (offset i k n : ℕ)
    → f ≡ parsed separator spaces offset i k (some at) n false
    → ltb max_size n ≡ true
    → get_field_value bytes f ≡ length_error
unfolding get_field_value assign_text
value_steps bytes f at separator spaces offset i k n e h = rw e (rw h refl)

no_spaces : (spaces : Bool) (k n : ℕ) → n ≡ 0 → (if spaces then k + n else k) ≡ k
no_spaces true k n e = omega (arith, e)
no_spaces false k n e = refl

plain_start :
    (bytes front rest : List ℕ) (v : ℕ) (spaces : Bool)
    → bytes ≡ front ++ v ∷ rest
    → (v == b' ') ≡ false
    → value_start bytes (length front) spaces ≡ some (length front)
unfolding count_spaces
plain_start bytes front rest v spaces e plain =
    let none_skipped : count_spaces (drop (length front) bytes) ≡ 0 =
      ap count_spaces
        (ap (drop (length front)) e ∙ drop_prefix (length front) front (v ∷ rest) refl)
      ∙ rw plain refl in
    let same = no_spaces spaces (length front) _ none_skipped in
    let inside : length front < length bytes =
      omega (arith, ap length e, length-append front (v ∷ rest)) in
    start_steps bytes (length front) (length front) spaces same
      (not_leb (length bytes) (length front) inside) (not_leb (length bytes) (length front) inside)

-- A line that has no separator and is not blank, and a later separator that another character than
-- a space follows, in a message of fewer than 2^31 bytes: the size of the value of the line's field
-- wraps around, and getFieldValue throws std::length_error.
pub get_field_value_without_separator :
    (bytes a line skipped rest : List ℕ) (c v separator : ℕ) (spaces : Bool)
    → bytes ≡ a ++ (c ∷ (line ++ b'\n' ∷ (skipped ++ separator ∷ v ∷ rest)))
    → (c == b'\r') ≡ false
    → Avoids b'\n' (c ∷ line)
    → Avoids separator (c ∷ (line ++ b'\n' ∷ skipped))
    → (v == b' ') ≡ false
    → length bytes < 0x8000_0000
    → get_field_value bytes (parse_field bytes (length a) separator spaces) ≡ length_error
get_field_value_without_separator bytes a line skipped rest c v separator spaces e cr plain free
      v_plain small =
    let body = c ∷ (line ++ b'\n' ∷ skipped) in
    let front = a ++ (body ++ separator ∷ []) in
    let tail = c ∷ (line ++ b'\n' ∷ (skipped ++ separator ∷ v ∷ rest)) in
    let joined : tail ≡ body ++ separator ∷ v ∷ rest =
      ap (λ x. c ∷ x) (sym (append_assoc line (b'\n' ∷ skipped) (separator ∷ v ∷ rest))) in
    let split : bytes ≡ front ++ v ∷ rest =
      e
      ∙ ap (λ x. a ++ x) (joined ∙ sym (append_assoc body (separator ∷ []) (v ∷ rest)))
      ∙ sym (append_assoc a (body ++ separator ∷ []) (v ∷ rest)) in
    let len = length-append a (body ++ separator ∷ []) in
    let len' = length-append body (separator ∷ []) in
    let len_line = length-append line (b'\n' ∷ skipped) in
    let len_all = length-append front (v ∷ rest) in
    let start : value_start bytes (length a + length body + 1) spaces ≡ some (length front) =
      ap (λ n. value_start bytes n spaces) (omega (arith, len, len'))
      ∙ plain_start bytes front rest v spaces split v_plain in
    let read =
      read_steps bytes (length a) separator spaces c
        (line ++ b'\n' ∷ (skipped ++ separator ∷ v ∷ rest)) (length (c ∷ line)) (length body)
        (length front) (ap (drop (length a)) e ∙ drop_prefix (length a) a tail refl) cr plain.0
        (index_of-prefix b'\n' (c ∷ line) (skipped ++ separator ∷ v ∷ rest) plain)
        (ap (index_of separator) joined ∙ index_of-prefix separator body (v ∷ rest) free) start in
    let wraps =
      value_size_wraps bytes (length front) (length a + length (c ∷ line))
        (omega (arith, len, len', len_line)) (omega (arith, ap length split, len_all)) in
    value_steps bytes (parse_field bytes (length a) separator spaces) (length front) separator
      spaces (length a) (length (c ∷ line) + 1) (length body)
      (value_size bytes (length front) (some (length a + length (c ∷ line)))) read
      (more_than _ _ (omega (arith, wraps, ap length split, len_all)))
