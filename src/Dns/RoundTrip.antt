-- ===== src/Dns/RoundTrip.antt =====
-- decodeName of the words of a name: encodeName's encoding is read back, and a name of 256 bytes
-- overflows the buffer.
use mathlib.Core.List.{append_assoc}
use pcap_plus_plus.Prelude.{
  ℕ, suc, ◌+◌, ◌-◌, ◌≤◌, ◌<◌, ◌≡◌, refl, sym, ap, ◌∙◌, true, false, Option, none, some, List, [],
  ◌∷◌, ◌++◌, arith, ltb, leb, length, length-append, All, replicate,
}
use pcap_plus_plus.RawPacket.{RawData, live, store_bytes}
use pcap_plus_plus.RawPacket.Buffers.{store_at, cut}
use pcap_plus_plus.Dns.{encode_name, encode_words, get_words, decode_name, finish_name, until_zero}
use pcap_plus_plus.Dns.Safety.{store_inside}
use pcap_plus_plus.Dns.Words.{
  wire, dotted, Plain, length-dotted, length-le-wire, word_loop-wire, word_loop_ended,
}
use pcap_plus_plus.Dns.Names.{
  join, Label, get_words-join, encode_words-wire, dotted-join, nonzero-join, until_zero_stops,
}

Plain-Label : (ws : List (List ℕ)) → All Label ws → All Plain ws
Plain-Label [] h = tt
Plain-Label (w ∷ ws) ((p, _, _), h) = (p, Plain-Label ws h)

-- decodeName on words of 256 bytes at most comes to their end, with each and a dot in the buffer.
decode_name-wire :
    (left : ℕ) (ws : List (List ℕ)) (pre post buf : List ℕ)
    → All Plain ws
    → length (wire ws) ≤ 256
    → length buf ≡ 256
    → (tail : List ℕ) × (length (wire ws) + length tail ≡ 256)
      × (decode_name (suc left) (pre ++ (wire ws ++ (0 ∷ post))) (length pre) (live buf)
          ≡ finish_name (length (wire ws)) (length (wire ws)) (live (dotted ws ++ tail)))
unfolding decode_name
decode_name-wire left ws pre post buf plain small room =
    let n = length (wire ws) in
    let layer = pre ++ (wire ws ++ (0 ∷ post)) in
    let jump : ℕ → Option RawData = λ target.
      elim (decode_name left layer target (live (replicate 256 0))) [
        | none ↦ none
        | some (len, temp) ↦ some temp
      ] in
    let len : length layer ≡ length pre + (n + (1 + length post)) =
      omega
        (arith, length-append pre (wire ws ++ (0 ∷ post)), length-append (wire ws) (0 ∷ post)) in
    let (old, c, e, l, l') = cut 1 buf (omega (arith, room)) in
    let cleared = store_at (live buf) [] old c (0 ∷ []) 0 (ap live e) refl (sym l) in
    let inside : ltb (length layer) (length pre + 1) ≡ false = ground (arith, len) in
    let extra = length layer - length ws in
    let (tail, k, run) =
      word_loop-wire jump layer ws pre (0 ∷ post) [] (0 ∷ c) (suc (length layer)) (suc extra)
        (length pre) 0 refl plain (omega arith) (omega (arith, len, length-le-wire ws)) refl refl
        (omega (arith, small)) (omega (arith, l', room, small)) in
    let ended =
      word_loop_ended jump layer (pre ++ wire ws) post extra (length pre + n) (0 + n)
        (live (dotted ws ++ tail)) (sym (append_assoc pre (wire ws) (0 ∷ post)))
        (omega (arith, length-append pre (wire ws))) in
    let zero_end : 0 + n ≡ n = omega arith in
    (
      tail,
      omega (arith, k, l', room),
      rw (decode_name, cleared, inside)
          (run ∙ ended ∙ (λ i. finish_name (zero_end i) (zero_end i) (live (dotted ws ++ tail)))),
    )

store_outside :
    (buf xs : List ℕ) (at : ℕ) → length buf < at + length xs → store_bytes (live buf) at xs ≡ none
unfolding store_bytes
store_outside buf xs at h =
    let full : leb (at + length xs) (length buf) ≡ false = ground arith in rw full refl

-- Behind a name, the last dot becomes a zero and another one is put behind it.
finish_name_lem :
    (name tail : List ℕ) (n t : ℕ)
    → n ≡ length name + 1
    → finish_name n n (live ((name ++ b'.' ∷ []) ++ (t ∷ tail)))
      ≡ some (n + 1, live (name ++ 0 ∷ (0 ∷ tail)))
unfolding finish_name
finish_name_lem name tail n t h =
    let nil : List ℕ = [] in
    let dot =
      store_at (live ((name ++ b'.' ∷ []) ++ (t ∷ tail))) name (b'.' ∷ []) (t ∷ tail) (0 ∷ [])
        (n - 1) (ap live (append_assoc name (b'.' ∷ []) (t ∷ tail))) (omega (arith, h)) refl in
    let last =
      store_at (live (name ++ (0 ∷ (t ∷ tail)))) (name ++ 0 ∷ []) (t ∷ []) tail (0 ∷ []) n
        (ap live (sym (append_assoc name (0 ∷ []) (t ∷ tail))))
        (omega (arith, h, length-append name (0 ∷ []))) refl in
    let some_word : ltb 0 n ≡ true = ground (arith, h) in
    rw (finish_name, some_word, dot, finish_name, last)
      (ap (λ x. some (n + 1, live x)) (append_assoc name (0 ∷ []) (0 ∷ tail)))

finish_wire :
    (ws : List (List ℕ)) (tail : List ℕ)
    → 0 < length tail
    → (rest : List ℕ) × (finish_name
          (length (wire ws))
          (length (wire ws))
          (live (dotted ws ++ tail))
        ≡ some (length (wire ws) + 1, live (join ws ++ 0 ∷ rest)))
unfolding finish_name store_bytes dotted wire join
finish_wire ws [] h = absurd (omega arith)
finish_wire [] (t ∷ tail) h = (tail, ground arith)
finish_wire (w ∷ ws) (t ∷ tail) h =
    let n = length (wire (w ∷ ws)) in
    let same = dotted-join w ws in
    let count : n ≡ length (join (w ∷ ws)) + 1 = omega (
      arith,
      sym (length-dotted (w ∷ ws)) ∙ ap length same,
      length-append (join (w ∷ ws)) (b'.' ∷ []),
    ) in
    (
      0 ∷ tail,
      ap (λ x. finish_name n n (live (x ++ (t ∷ tail)))) same
          ∙ finish_name_lem (join (w ∷ ws)) tail n t count,
    )

-- A name of words of less than 192 bytes whose encoding, the last zero not counted, has 256 bytes:
-- decodeName ends with a write at index 256 of its buffer of 256 bytes.
pub decode_name_overflows :
    (left : ℕ) (ws : List (List ℕ)) (pre post buf : List ℕ)
    → All Plain ws
    → length (wire ws) ≡ 256
    → length buf ≡ 256
    → (old new : List ℕ) × (decode_name
          (suc left)
          (pre ++ (wire ws ++ (0 ∷ post)))
          (length pre)
          (live buf)
        ≡ finish_name 256 256 (live old))
      × (store_bytes (live old) 255 (0 ∷ []) ≡ some (live new))
      × (store_bytes (live new) 256 (0 ∷ []) ≡ none)
      × (finish_name 256 256 (live old) ≡ none)
unfolding finish_name
decode_name_overflows left ws pre post buf plain full room =
    let (tail, k, run) = decode_name-wire left ws pre post buf plain (omega (arith, full)) room in
    let all = dotted ws ++ tail in
    let count : length all ≡ 256 =
      omega (arith, k, length-append (dotted ws) tail, length-dotted ws) in
    let (new, e, l) = store_inside all (0 ∷ []) 255 (omega (arith, count)) in
    let over = store_outside new (0 ∷ []) 256 (omega (arith, l, count)) in
    (
      all,
      new,
      run ∙ ap (λ n. finish_name n n (live all)) full,
      e,
      over,
      rw (finish_name, e, finish_name, over) refl,
    )

-- encodeName of the words of a name joined by dots, and decodeName of the result at any place of a
-- layer, give the name back, and the length of its encoding. The words are not empty, have less than
-- 192 characters, none of them a dot or zero and the first no #, and with one more byte each they
-- come to 255 bytes at most.
pub decode_name-encode_name :
    (left : ℕ) (ws : List (List ℕ)) (pre post buf : List ℕ)
    → All Label ws
    → length (wire ws) ≤ 255
    → length buf ≡ 256
    → (encoded buf' : List ℕ) × (encode_name (join ws) ≡ some encoded)
      × (decode_name (suc left) (pre ++ (encoded ++ post)) (length pre) (live buf)
          ≡ some (length encoded, live buf'))
      × (until_zero buf' ≡ join ws)
unfolding encode_name
decode_name-encode_name left ws pre post buf labels small room =
    let (tail, k, run) =
      decode_name-wire left ws pre post buf (Plain-Label ws labels) (omega (arith, small)) room in
    let (rest, finish) = finish_wire ws tail (omega (arith, k, small)) in
    let encoded = wire ws ++ 0 ∷ [] in
    let count = length-append (wire ws) (0 ∷ []) in
    let words : encode_words (get_words [] (join ws)) ≡ encoded =
      ap encode_words (get_words-join ws labels) ∙ encode_words-wire ws labels in
    let fits : leb (length encoded) 256 ≡ true = ground (arith, count, small) in
    let end : length (wire ws) + 1 ≡ length encoded = omega (arith, count) in
    (
      encoded,
      join ws ++ 0 ∷ rest,
      rw (encode_name, words, fits) refl,
      ap (λ x. decode_name (suc left) (pre ++ x) (length pre) (live buf))
            (append_assoc (wire ws) (0 ∷ []) post)
          ∙ run
          ∙ finish
          ∙ ap (λ n. some (n, live (join ws ++ 0 ∷ rest))) end,
      until_zero_stops (join ws) rest (nonzero-join ws labels),
    )
