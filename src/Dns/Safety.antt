-- ===== src/Dns/Safety.antt =====
-- decodeName ends and stays inside of its buffers, in a layer of no more than 268 bytes.
use mathlib.Core.Path.{subst}
use pcap_plus_plus.Prelude.{
  ℕ, zero, suc, ◌+◌, ◌-◌, ◌*◌, ◌%◌, ◌≤◌, ◌<◌, ◌≡◌, refl, ◌∙◌, true, ◌||◌, Option, none, some, List,
  [], ◌∷◌, ◌++◌, arith, ltb, leb, ◌==◌, length, take, drop, replicate, length-append,
  length-take_le, length-drop, length-replicate, if_cases, Bool-cases, get_elem?_lt, length-take-le,
  inl, inr,
}
use pcap_plus_plus.RawPacket.{RawData, live, load_bytes, store_bytes}
use pcap_plus_plus.Dns.{
  until_zero, chars, cut_short, finish_name, pointer_word, word_loop, decode_name,
}

-- A result with a length of at most 257 in a buffer of 256 bytes.
abbrev Decodes : Option (ℕ × RawData) → Type 0
Decodes o = (n : ℕ) × (buf : List ℕ) × (o ≡ some (n, live buf)) × (length buf ≡ 256) × (n ≤ 257)

pub store_inside :
    (buf xs : List ℕ) (at : ℕ)
    → at + length xs ≤ length buf
    → (buf' : List ℕ) × (store_bytes (live buf) at xs ≡ some (live buf'))
      × (length buf' ≡ length buf)
unfolding store_bytes
store_inside buf xs at h =
    let room : leb (at + length xs) (length buf) ≡ true = ground arith in
    (
      take at buf ++ xs ++ drop (at + length xs) buf,
      rw room refl,
      omega (
        arith,
        length-append (take at buf ++ xs) (drop (at + length xs) buf),
        length-append (take at buf) xs,
        length-take_le at buf (omega (arith, h)),
        length-drop (at + length xs) buf,
      ),
    )

load_inside :
    (layer : List ℕ) (at n : ℕ)
    → at + n ≤ length layer
    → (xs : List ℕ) × (load_bytes (live layer) at n ≡ some xs) × (length xs ≡ n)
unfolding load_bytes
load_inside layer at n h =
    let room : leb (at + n) (length layer) ≡ true = ground arith in
    (
      take n (drop at layer),
      rw room refl,
      length-take_le n (drop at layer) (omega (arith, length-drop at layer)),
    )

module _ (buf : List ℕ) (room : length buf ≡ 256) where
  cut_short-Decodes : (n : ℕ) → n ≤ 256 → Decodes (cut_short n n (live buf))
  unfolding cut_short
  cut_short-Decodes n h = elim (Bool-cases (n == 256)) [
    | inl full ↦
        let (buf', e, l) = store_inside buf (0 ∷ []) (n - 1) (omega (arith, h, room)) in
        rw (cut_short, full, e, full) (n, buf', refl, omega (arith, l, room), omega (arith, h))
    | inr fits ↦
        let less : n < 256 = ground (arith, fits, h) in
        let (buf', e, l) = store_inside buf (0 ∷ []) n (omega (arith, less, room)) in
        rw (cut_short, fits, e, fits) (n + 1, buf', refl, omega (arith, l, room), omega (arith, h))
  ]

  finish_name-Decodes : (n : ℕ) → n < 256 → Decodes (finish_name n n (live buf))
  unfolding finish_name
  finish_name-Decodes n h = elim (Bool-cases (ltb 0 n)) [
    | inl some_word ↦
        let (buf', e, l) = store_inside buf (0 ∷ []) (n - 1) (omega (arith, h, room)) in
        let (buf'', e', l') = store_inside buf' (0 ∷ []) n (omega (arith, h, room, l)) in
        rw (finish_name, some_word, e, finish_name, e')
          (n + 1, buf'', refl, omega (arith, l, l', room), omega (arith, h))
    | inr no_word ↦
        let (buf', e, l) = store_inside buf (0 ∷ []) n (omega (arith, h, room)) in
        rw (finish_name, no_word, e) (n + 1, buf', refl, omega (arith, l, room), omega (arith, h))
  ]

  -- The jump to the place that a pointer names is taken inside of the layer, behind its header.
  pointer_word-Decodes :
      (jump : ℕ → Option RawData) (layer : List ℕ) (offset word_length n : ℕ)
      → ((target : ℕ) → 12 ≤ target → (temp : RawData) × (jump target ≡ some temp))
      → n ≤ 256
      → Decodes (pointer_word jump layer offset word_length n n (live buf))
  unfolding pointer_word
  pointer_word-Decodes jump layer offset word_length n j h =
      if_cases Decodes (ltb (length layer) (offset + 2) || ltb 255 n) _ _
        (λ stop. (n, buf, refl, room, omega (arith, h)))
        λ go.
          let inside : offset + 1 < length layer = ground (arith, go) in
          let below : n ≤ 255 = ground (arith, go) in
          let (low, e) = get_elem?_lt layer (offset + 1) inside in
          let target = word_length % 64 * 256 + low in
          rw e (
            if_cases Decodes (ltb target 12 || leb (length layer) target) _ _
              (λ illegal. (0, buf, refl, room, omega arith))
              λ legal.
                let (temp, e') = j target (ground (arith, legal)) in
                let copy = take (255 - n) (until_zero (chars temp)) in
                let (buf', e'', l) = store_inside buf (copy ++ 0 ∷ []) n (
                  omega (
                    arith,
                    below,
                    room,
                    length-append copy (0 ∷ []),
                    length-take-le (255 - n) (until_zero (chars temp)),
                  )) in
                rw (e', e'') (n + 2, buf', refl, omega (arith, l, room), omega (arith, below)))

module _ (layer : List ℕ) (short : length layer ≤ 268) (jump : ℕ → Option RawData)
    (jump_decodes : (target : ℕ) → 12 ≤ target → (temp : RawData) × (jump target ≡ some temp))
    (start : ℕ) (behind_header : 12 ≤ start) where
  -- The name starts behind the header, so that less than 256 bytes of it are read in front of a
  -- byte that is still in the layer.
  word_loop-Decodes :
      (fuel n : ℕ) (buf : List ℕ)
      → length buf ≡ 256
      → start + n < length layer
      → length layer < fuel + (start + n)
      → Decodes (word_loop jump layer fuel (start + n) n n (live buf))
  unfolding word_loop
  word_loop-Decodes zero n buf room inside enough = absurd (omega arith)
  word_loop-Decodes (suc fuel) n buf room inside enough =
      let (w, e) = get_elem?_lt layer (start + n) inside in
      let below : n < 256 = omega (arith, inside, short, behind_header) in
      rw (word_loop, e)
        (if_cases Decodes (w == 0) _ _ (λ ended. finish_name-Decodes buf room n below)
          λ more.
            if_cases Decodes (leb 0xC0 w) _ _
              (λ pointer.
                pointer_word-Decodes buf room jump layer (start + n) w n jump_decodes
                  (omega (arith, below)))
              λ word.
                if_cases Decodes (ltb (length layer) (start + n + w + 1) || ltb 255 (n + w)) _ _
                  (λ cut. cut_short-Decodes buf room n (omega (arith, below)))
                  λ whole.
                    let fits : start + n + w + 1 ≤ length layer = ground (arith, whole) in
                    let fits' : n + w ≤ 255 = ground (arith, whole) in
                    let (xs, e', l) = load_inside layer (start + n + 1) w (omega (arith, fits)) in
                    let (buf', e'', l') =
                      store_inside buf (xs ++ b'.' ∷ []) n
                        (omega (arith, fits', room, l, length-append xs (b'.' ∷ []))) in
                    let same : start + (n + (w + 1)) ≡ start + n + (w + 1) = omega arith in
                    rw (e', e'')
                      (if_cases Decodes (ltb (length layer) (start + n + (w + 1) + 1)) _ _
                        (λ ended.
                          cut_short-Decodes buf' (l' ∙ room) (n + (w + 1)) (omega (arith, fits')))
                        λ next.
                          subst
                            (λ o.
                              Decodes (
                                word_loop jump layer fuel o (n + (w + 1)) (n + (w + 1))
                                  (live buf')))
                            same
                            (word_loop-Decodes fuel (n + (w + 1)) buf' (l' ∙ room)
                              (ground (arith, next)) (omega (arith, enough)))))

-- In a layer of no more than 268 bytes, decodeName of a name behind the DNS header, into a buffer of
-- 256 bytes, ends in each iteration without reading outside of the layer or writing outside of a
-- buffer, whatever the bytes are; the length that it returns is at most 257.
pub decode_name_decodes :
    (left : ℕ) (layer : List ℕ) (offset : ℕ) (buf : List ℕ)
    → length layer ≤ 268
    → 12 ≤ offset
    → length buf ≡ 256
    → (n : ℕ) × (buf' : List ℕ) × (decode_name left layer offset (live buf) ≡ some (n, live buf'))
      × (length buf' ≡ 256)
      × (n ≤ 257)
unfolding decode_name
decode_name_decodes zero layer offset buf short behind room =
    let (buf', e, l) = store_inside buf (0 ∷ []) 0 (omega (arith, room)) in
    rw (decode_name, e) (0, buf', refl, l ∙ room, omega arith)
decode_name_decodes (suc left) layer offset buf short behind room =
    let (buf', e, l) = store_inside buf (0 ∷ []) 0 (omega (arith, room)) in
    let jump : ℕ → Option RawData = λ target.
      elim (decode_name left layer target (live (replicate 256 0))) [
        | none ↦ none
        | some (len, temp) ↦ some temp
      ] in
    let jump_decodes : (target : ℕ) → 12 ≤ target → (temp : RawData) × (jump target ≡ some temp) =
      λ target h.
        let (n, temp, d, _, _) =
          decode_name_decodes left layer target (replicate {A = ℕ} 256 0) short h
            (length-replicate {A = ℕ} 256 0) in
        (live temp, rw (decode_name, d) refl) in
    let same : offset + 0 ≡ offset = omega arith in
    rw (decode_name, e)
      (if_cases Decodes (ltb (length layer) (offset + 1)) _ _
        (λ empty. (0, buf', refl, l ∙ room, omega arith))
        λ inside.
          subst (λ o. Decodes (word_loop jump layer (suc (length layer)) o 0 0 (live buf'))) same
            (word_loop-Decodes layer short jump jump_decodes offset behind (suc (length layer)) 0
              buf' (l ∙ room) (ground (arith, inside)) (omega arith)))
