-- ===== src/Dns/Names.antt =====
-- The words that encodeName takes a name apart into, and their encoding.
use mathlib.Core.List.{append_assoc, append-nil}
use pcap_plus_plus.Prelude.{
  ℕ, ◌+◌, ◌%◌, ◌<◌, ◌≡◌, ◌≢◌, refl, sym, ap, ◌∙◌, false, some, List, [], ◌∷◌, ◌++◌, arith, ◌==◌,
  length, get_elem?, length-append, All, All-append,
}
use pcap_plus_plus.Dns.{get_words, encode_words, until_zero}
use pcap_plus_plus.Dns.Words.{wire, dotted, Plain}

-- A name is its words with dots between them.
unfoldable pub join : List (List ℕ) → List ℕ
join [] = []
join (w ∷ []) = w
join (w ∷ (v ∷ vs)) = w ++ b'.' ∷ join (v ∷ vs)

abbrev pub Letter : ℕ → Type 0
Letter c = (c ≢ 0) × (c ≢ b'.')

-- A word of a name: no pointer, of less than 192 characters other than dots and zeros.
abbrev pub Label : List ℕ → Type 0
Label w = Plain w × All Letter w × (get_elem? w 0 ≢ some b'#')

get_words_cut :
    (acc w s : List ℕ) → All Letter w → get_words acc (w ++ b'.' ∷ s) ≡ (acc ++ w) ∷ get_words [] s
unfolding get_words
get_words_cut acc [] s letters = ap (λ x. x ∷ get_words [] s) (sym (append-nil acc))
get_words_cut acc (c ∷ w) s ((_, no_dot), letters) =
    let other : (c == b'.') ≡ false = ground (arith, no_dot) in
    rw (get_words, other)
      (get_words_cut (acc ++ c ∷ []) w s letters
        ∙ ap (λ x. x ∷ get_words [] s) (append_assoc acc (c ∷ []) w))

get_words_last :
    (acc w : List ℕ) → All Letter w → 0 < length acc + length w → get_words acc w ≡ (acc ++ w) ∷ []
unfolding get_words
get_words_last [] [] letters h = absurd (omega arith)
get_words_last (a ∷ acc) [] letters h = ap (λ x. x ∷ []) (sym (append-nil (a ∷ acc)))
get_words_last acc (c ∷ w) ((_, no_dot), letters) h =
    let other : (c == b'.') ≡ false = ground (arith, no_dot) in
    rw (get_words, other)
      (get_words_last (acc ++ c ∷ []) w letters (omega (arith, length-append acc (c ∷ [])))
        ∙ ap (λ x. x ∷ []) (append_assoc acc (c ∷ []) w))

-- The stream gives the words of a name back.
pub get_words-join : (ws : List (List ℕ)) → All Label ws → get_words [] (join ws) ≡ ws
unfolding join get_words
get_words-join [] labels = refl
get_words-join (w ∷ []) (((some_char, _), letters, _), _) =
    get_words_last [] w letters (omega (arith, some_char))
get_words-join (w ∷ (v ∷ vs)) ((_, letters, _), labels) =
    get_words_cut [] w (join (v ∷ vs)) letters ∙ ap (λ x. w ∷ x) (get_words-join (v ∷ vs) labels)

pub encode_words-wire : (ws : List (List ℕ)) → All Label ws → encode_words ws ≡ wire ws ++ 0 ∷ []
unfolding encode_words wire
encode_words-wire [] labels = refl
encode_words-wire ([] ∷ ws) (((some_char, _), _, _), labels) = absurd (omega (arith, some_char))
encode_words-wire ((c ∷ w) ∷ ws) (((_, short), _, no_hash), labels) =
    let plain : (c == b'#') ≡ false = ground (arith, no_hash) in
    let small : length (c ∷ w) % 256 ≡ length (c ∷ w) = omega (arith, short) in
    rw (encode_words, plain, small)
      (ap (λ x. length (c ∷ w) ∷ ((c ∷ w) ++ x)) (encode_words-wire ws labels)
        ∙ ap (◌∷◌ (length (c ∷ w))) (sym (append_assoc (c ∷ w) (wire ws) (0 ∷ []))))

pub dotted-join : (w : List ℕ) (ws : List (List ℕ)) → dotted (w ∷ ws) ≡ join (w ∷ ws) ++ b'.' ∷ []
unfolding dotted join
dotted-join w [] = append-nil (w ++ b'.' ∷ [])
dotted-join w (v ∷ vs) =
    ap (λ x. (w ++ b'.' ∷ []) ++ x) (dotted-join v vs)
    ∙ sym (append_assoc (w ++ b'.' ∷ []) (join (v ∷ vs)) (b'.' ∷ []))
    ∙ ap (λ x. x ++ b'.' ∷ []) (append_assoc w (b'.' ∷ []) (join (v ∷ vs)))

no_zeros : (w : List ℕ) → All Letter w → All (λ c. c ≢ 0) w
no_zeros [] h = tt
no_zeros (c ∷ w) (h, hs) = (h.0, no_zeros w hs)

pub nonzero-join : (ws : List (List ℕ)) → All Label ws → All (λ c. c ≢ 0) (join ws)
unfolding join
nonzero-join [] labels = tt
nonzero-join (w ∷ []) ((_, letters, _), _) = no_zeros w letters
nonzero-join (w ∷ (v ∷ vs)) ((_, letters, _), labels) =
    All-append _ w (b'.' ∷ join (v ∷ vs)) (no_zeros w letters)
      (omega arith, nonzero-join (v ∷ vs) labels)

pub until_zero_stops : (s rest : List ℕ) → All (λ c. c ≢ 0) s → until_zero (s ++ 0 ∷ rest) ≡ s
unfolding until_zero
until_zero_stops [] rest h = refl
until_zero_stops (c ∷ s) rest (h, hs) =
    let more : (c == 0) ≡ false = ground (arith, h) in
    rw (until_zero, more) (ap (◌∷◌ c) (until_zero_stops s rest hs))
