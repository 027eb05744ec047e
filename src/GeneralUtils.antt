-- ===== src/GeneralUtils.antt =====
-- The hexadecimal strings of Common++/src/GeneralUtils.cpp. A string is the list of its characters'
-- codes.
pub mod RoundTrip
use pcap_plus_plus.Prelude.{
  ℕ, zero, suc, ◌+◌, ◌-◌, ◌*◌, ◌/◌, ◌%◌, ◌≡◌, refl, Bool, true, false, not, ◌&&◌, Option, none,
  some, List, [], ◌∷◌, ◌++◌, ltb, leb, ◌==◌, if◌then◌else◌, length, replicate,
}

-- A digit as std::hex prints it.
unfoldable pub hex_digit : ℕ → ℕ
hex_digit v = if ltb v 10 then b'0' + v else b'a' + (v - 10)

-- The first n bytes, each with setw(2) and setfill('0').
unfoldable pub hex_loop : ℕ → List ℕ → List ℕ
hex_loop zero bytes = []
hex_loop (suc n) [] = []
hex_loop (suc n) (b ∷ bytes) = hex_digit (b / 16) ∷ hex_digit (b % 16) ∷ hex_loop n bytes

-- The limit is 0 for any int that is not positive.
unfoldable pub byte_array_to_hex_string : List ℕ → ℕ → List ℕ
byte_array_to_hex_string bytes limit = hex_loop (if limit == 0 then length bytes else limit) bytes

-- none for -1
unfoldable pub char2int : ℕ → Option ℕ
char2int c =
    if leb b'0' c && leb c b'9'
    then some (c - b'0')
    else if leb b'A' c && leb c b'F'
    then some (c - b'A' + 10)
    else if leb b'a' c && leb c b'f'
    then some (c - b'a' + 10)
    else none

-- resultByteArr[i] = v
unfoldable pub set_byte : List ℕ → ℕ → ℕ → List ℕ
set_byte [] i v = []
set_byte (b ∷ bytes) zero v = v ∷ bytes
set_byte (b ∷ bytes) (suc i) v = b ∷ set_byte bytes i v

-- The loop from pair i on: the array and the number to return. The digits are below 16, so that
-- (firstChar << 4) | secondChar is their sum.
unfoldable pub parse_pairs : ℕ → List ℕ → List ℕ → List ℕ × ℕ
parse_pairs i [] arr = (arr, i)
parse_pairs i (c ∷ []) arr = (arr, i)
parse_pairs i (c ∷ d ∷ rest) arr =
    if leb (length arr) i then (arr, length arr) else elim (char2int c) [
      | none ↦ (set_byte arr 0 0, 0)
      | some first ↦ elim (char2int d) [
        | none ↦ (set_byte arr 0 0, 0)
        | some second ↦ parse_pairs (i + 1) rest (set_byte arr i (first * 16 + second))
      ]
    ]

-- The array after the call, and the number returned.
unfoldable pub hex_string_to_byte_array : List ℕ → List ℕ → List ℕ × ℕ
hex_string_to_byte_array s arr =
    if length s % 2 == 0 then parse_pairs 0 s (replicate (length arr) 0) else (arr, 0)

-- memcmp with the needle
unfoldable pub starts_with : List ℕ → List ℕ → Bool
starts_with [] ys = true
starts_with (x ∷ xs) [] = false
starts_with (x ∷ xs) (y ∷ ys) = x == y && starts_with xs ys

-- The loops of cross_platform_memmem from a place in the haystack on: within memchr if checked, and
-- before the test of the while loop if not. The result none stands for a memcmp behind the haystack.
unfoldable pub search : ℕ → List ℕ → List ℕ → ℕ → Bool → Option (Option ℕ)
search c needle [] i checked = some none
search c needle (x ∷ xs) i checked =
    let rest = search c needle xs (suc i) (not (x == c)) in
    let short = ltb (length (x ∷ xs)) (suc (length needle)) in
    let compared : Option (Option ℕ) =
      if short then none else if starts_with needle xs then some (some i) else rest in
    if not checked && short then some none else if x == c then compared else rest

-- cross_platform_memmem for a needle that is not empty, given by its first byte and the others; the
-- place found is an index into the haystack.
unfoldable pub cross_platform_memmem : List ℕ → ℕ → List ℕ → Option (Option ℕ)
cross_platform_memmem haystack c needle = search c needle haystack 0 false
