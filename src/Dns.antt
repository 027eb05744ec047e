-- ===== src/Dns.antt =====
-- The names of DNS resources: IDnsResource::decodeName and encodeName (Packet++/src/DnsResource.cpp).
-- The layer is the list of its m_DataLen bytes. The result of decodeName is a buffer; resultPtr is
-- the index position. An operation returns none where the source reads outside of the layer or
-- writes outside of a buffer.
pub mod Safety
pub mod Words
pub mod Names
pub mod RoundTrip
use pcap_plus_plus.Prelude.{
  ℕ, zero, suc, ◌+◌, ◌-◌, ◌*◌, ◌%◌, Bool, true, false, not, ◌&&◌, ◌||◌, Option, none, some, List,
  [], ◌∷◌, ◌++◌, ltb, leb, ◌==◌, if◌then◌else◌, length, take, replicate, get_elem?,
}
use pcap_plus_plus.RawPacket.{RawData, null, freed, live, load_bytes, store_bytes}

-- The characters of an array in front of its first zero.
unfoldable pub until_zero : List ℕ → List ℕ
until_zero [] = []
until_zero (c ∷ s) = if c == 0 then [] else c ∷ until_zero s

abbrev pub chars : RawData → List ℕ
chars null = []
chars freed = []
chars (live buf) = buf

-- "add the last '\0' to the decoded string" where the name is cut short
unfoldable pub cut_short : ℕ → ℕ → RawData → Option (ℕ × RawData)
cut_short encoded_length position result =
    let at = if encoded_length == 256 then position - 1 else position in
    let len = if encoded_length == 256 then encoded_length else encoded_length + 1 in
    elim (store_bytes result at (0 ∷ [])) [ none ↦ none | some r ↦ some (len, r) ]

-- Behind the loop: the last '.' is removed.
unfoldable pub finish_name : ℕ → ℕ → RawData → Option (ℕ × RawData)
finish_name encoded_length position result =
    let dotless : Option RawData =
      if ltb 0 position then store_bytes result (position - 1) (0 ∷ []) else some result in
    elim dotless [
      | none ↦ none
      | some r ↦ elim (store_bytes r position (0 ∷ [])) [
        | none ↦ none
        | some r' ↦ some (encoded_length + 1, r')
      ]
    ]

-- "A pointer to another place in the packet"; jump is the call of decodeName on tempResult.
unfoldable pub pointer_word :
    (ℕ → Option RawData) → List ℕ → ℕ → ℕ → ℕ → ℕ → RawData → Option (ℕ × RawData)
pointer_word jump layer offset word_length encoded_length position result =
    if ltb (length layer) (offset + 2) || ltb 255 encoded_length
    then some (encoded_length, result)
    else elim (get_elem? layer (offset + 1)) [
      | none ↦ none
      | some low ↦
          let target = word_length % 64 * 256 + low in
          let copied : Option (ℕ × RawData) = elim (jump target) [
            | none ↦ none
            | some temp ↦
                elim (store_bytes result position
                  (take (255 - position) (until_zero (chars temp)) ++ 0 ∷ [])) [
                    | none ↦ none
                    | some r ↦ some (encoded_length + 2, r)
                  ]
          ] in
          if ltb target 12 || leb (length layer) target then some (0, result) else copied
    ]

-- The loop over the words. The test (wordLength & 0xc0) == 0xc0 holds of the bytes from 0xc0 on.
-- decodedNameLength, which is position there, is only read in front of the copy of a pointed name.
unfoldable pub word_loop :
    (ℕ → Option RawData) → List ℕ → ℕ → ℕ → ℕ → ℕ → RawData → Option (ℕ × RawData)
word_loop jump layer zero offset encoded_length position result = none
word_loop jump layer (suc fuel) offset encoded_length position result =
    elim (get_elem? layer offset) [
      | none ↦ none
      | some word_length ↦
          let step = word_length + 1 in
          let plain : Option (ℕ × RawData) =
            elim (load_bytes (live layer) (offset + 1) word_length) [
              | none ↦ none
              | some word ↦ elim (store_bytes result position (word ++ b'.' ∷ [])) [
                | none ↦ none
                | some r ↦
                    let next =
                      word_loop jump layer fuel (offset + step) (encoded_length + step)
                        (position + step) r in
                    if ltb (length layer) (offset + step + 1)
                    then cut_short (encoded_length + step) (position + step) r
                    else next
              ]
            ] in
          if word_length == 0
          then finish_name encoded_length position result
          else if leb 0xC0 word_length
          then pointer_word jump layer offset word_length encoded_length position result
          else if ltb (length layer) (offset + word_length + 1)
              || ltb 255 (encoded_length + word_length)
          then cut_short encoded_length position result
          else plain
    ]

-- decodeName in iteration 21 - left.
unfoldable pub decode_name : ℕ → List ℕ → ℕ → RawData → Option (ℕ × RawData)
decode_name zero layer offset result = elim (store_bytes result 0 (0 ∷ [])) [
  | none ↦ none
  | some r ↦ some (0, r)
]
decode_name (suc left) layer offset result =
    let jump : ℕ → Option RawData = λ target.
      elim (decode_name left layer target (live (replicate 256 0))) [
        | none ↦ none
        | some (len, temp) ↦ some temp
      ] in
    elim (store_bytes result 0 (0 ∷ [])) [
      | none ↦ none
      | some r ↦
          if ltb (length layer) (offset + 1)
          then some (0, r)
          else word_loop jump layer (suc (length layer)) offset 0 0 r
    ]

-- getline with '.' until it fails
unfoldable pub get_words : List ℕ → List ℕ → List (List ℕ)
get_words word [] = elim word [ [] ↦ [] | c ∷ cs ↦ (c ∷ cs) ∷ [] ]
get_words word (c ∷ s) = elim (c == b'.') [
  | true ↦ word ∷ get_words [] s
  | false ↦ get_words (word ++ c ∷ []) s
]

-- The digits that operator>> reads into an int, if there is one; a number above 255 is refused all
-- the same, so that it need not be exact.
unfoldable pub digits_value : Option ℕ → List ℕ → Option ℕ
digits_value value [] = value
digits_value value (c ∷ s) =
    let so_far : ℕ = elim value [ none ↦ 0 | some v ↦ v ] in
    let more = digits_value (some (so_far * 10 + (c - b'0'))) s in
    if leb b'0' c && leb c b'9' then more else value

abbrev is_space : ℕ → Bool
is_space c = c == b' ' || (leb 9 c && leb c 13)

unfoldable pub skip_space : List ℕ → List ℕ
skip_space [] = []
skip_space (c ∷ s) = if is_space c then skip_space s else c ∷ s

-- A sign and digits: the number, if it is one from 0 to 255.
unfoldable pub signed_value : List ℕ → Option ℕ
signed_value [] = none
signed_value (c ∷ s) =
    let value = digits_value none (if c == b'-' || c == b'+' then s else c ∷ s) in
    elim value [
      | none ↦ none
      | some v ↦ if ltb (if c == b'-' then 0 else 255) v then none else some v
    ]

-- The bytes that the loop of encodeName writes.
unfoldable pub encode_words : List (List ℕ) → List ℕ
encode_words [] = 0 ∷ []
encode_words ([] ∷ words) = 0 ∷ encode_words words
encode_words ((c ∷ word) ∷ words) =
    let pointer : List ℕ = elim (signed_value (skip_space word)) [
      | none ↦ []
      | some n ↦ 0xC0 ∷ n ∷ []
    ] in
    let plain = length (c ∷ word) % 256 ∷ (c ∷ word) ++ encode_words words in
    if c == b'#' then pointer else plain

-- encodeName into the 256 bytes that setName gives it.
unfoldable pub encode_name : List ℕ → Option (List ℕ)
encode_name name =
    let encoded = encode_words (get_words [] name) in
    if leb (length encoded) 256 then some encoded else none
