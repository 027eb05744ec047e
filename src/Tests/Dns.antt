-- ===== src/Tests/Dns.antt =====
-- Names of DNS resources on concrete inputs.
use pcap_plus_plus.Prelude.{
  ℕ, zero, suc, ◌≤◌, ◌<◌, ◌≡◌, refl, some, none, List, [], ◌∷◌, ◌++◌, arith, length, replicate, All,
}
use pcap_plus_plus.RawPacket.{live, store_bytes, load_bytes}
use pcap_plus_plus.Dns.{
  decode_name, encode_name, finish_name, until_zero, encode_words, get_words, word_loop,
  pointer_word, cut_short, signed_value, digits_value, skip_space,
}
use pcap_plus_plus.Dns.Safety.{decode_name_decodes}
use pcap_plus_plus.Dns.Words.{wire, Plain}
use pcap_plus_plus.Dns.Names.{join, Label, Letter}
use pcap_plus_plus.Dns.RoundTrip.{decode_name_overflows, decode_name-encode_name}

abbrev header : List ℕ
header = replicate 12 0

abbrev buffer : List ℕ
buffer = replicate 256 0xEE

-- A word and a pointer to itself: each iteration jumps to it again.
abbrev looping : List ℕ
looping = header ++ (2 ∷ b'a' ∷ b'b' ∷ 0xC0 ∷ 12 ∷ [])

decode_name_decodes_example :
    (n : ℕ) × (buf' : List ℕ) × (decode_name 20 looping 12 (live buffer) ≡ some (n, live buf'))
    × (length buf' ≡ 256)
    × (n ≤ 257)
decode_name_decodes_example =
    decode_name_decodes 20 looping 12 buffer (omega arith) (omega arith) refl

abbrev long_words : List (List ℕ)
long_words = replicate 16 (replicate 15 b'x')

All-replicate {ℓ κ} : {A : Type ℓ} (P : A → Type κ) (n : ℕ) (a : A) → P a → All P (replicate n a)
All-replicate P zero a h = tt
All-replicate P (suc n) a h = (h, All-replicate P n a h)

long_words-Plain : All Plain long_words
long_words-Plain = All-replicate Plain 16 (replicate 15 b'x') (omega arith, omega arith)

length-long_words : length (wire long_words) ≡ 256
unfolding wire
length-long_words = refl

decode_name_overflows_example :
    (old new : List ℕ) × (decode_name 20 (header ++ (wire long_words ++ (0 ∷ []))) 12 (live buffer)
      ≡ finish_name 256 256 (live old))
    × (store_bytes (live old) 255 (0 ∷ []) ≡ some (live new))
    × (store_bytes (live new) 256 (0 ∷ []) ≡ none)
    × (finish_name 256 256 (live old) ≡ none)
decode_name_overflows_example =
    decode_name_overflows 19 long_words header [] buffer long_words-Plain length-long_words refl

abbrev www_ab : List (List ℕ)
www_ab = (b'w' ∷ b'w' ∷ b'w' ∷ []) ∷ (b'a' ∷ b'b' ∷ []) ∷ []

www_ab-Label : All Label www_ab
www_ab-Label =
    let letter : (c : ℕ) → 96 < c → Letter c = λ c h. (omega (arith, h), omega (arith, h)) in
    let w = letter b'w' (omega arith) in
    let a = letter b'a' (omega arith) in
    let b = letter b'b' (omega arith) in
    (
      ((omega arith, omega arith), (w, (w, (w, tt))), λ h. cc),
      (((omega arith, omega arith), (a, (b, tt)), λ h. cc), tt),
    )

length-www_ab : length (wire www_ab) ≤ 255
unfolding wire
length-www_ab = omega arith

decode_name-encode_name_example :
    (encoded buf' : List ℕ) × (encode_name (join www_ab) ≡ some encoded)
    × (decode_name 20 (header ++ (encoded ++ (0 ∷ 1 ∷ 0 ∷ 1 ∷ []))) 12 (live buffer)
        ≡ some (length encoded, live buf'))
    × (until_zero buf' ≡ join www_ab)
decode_name-encode_name_example =
    decode_name-encode_name 19 www_ab header (0 ∷ 1 ∷ 0 ∷ 1 ∷ []) buffer www_ab-Label length-www_ab
      refl

-- A pointer behind a word is followed.
followed :
    decode_name 20
      (header ++ (1 ∷ b'a' ∷ 0 ∷ 1 ∷ b'b' ∷ 0xC0 ∷ 12 ∷ []))
      15
      (live (replicate 256 0))
    ≡ some (4, live (b'b' ∷ b'.' ∷ b'a' ∷ replicate 253 0))
unfolding decode_name word_loop pointer_word cut_short finish_name until_zero load_bytes store_bytes
followed = refl

-- "a.#12" ends with a pointer.
pointer_encoded :
    encode_name (b'a' ∷ b'.' ∷ b'#' ∷ b'1' ∷ b'2' ∷ []) ≡ some (1 ∷ b'a' ∷ 0xC0 ∷ 12 ∷ [])
unfolding encode_name encode_words get_words signed_value digits_value skip_space
pointer_encoded = refl
