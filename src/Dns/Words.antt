-- ===== src/Dns/Words.antt =====
-- The loop of decodeName over whole words.
use mathlib.Core.List.{append_assoc, append-nil}
use pcap_plus_plus.Prelude.{
  ℕ, zero, suc, ◌+◌, ◌≤◌, ◌<◌, ◌≡◌, refl, sym, ap, ◌∙◌, false, ◌||◌, Option, some, List, [], ◌∷◌,
  ◌++◌, arith, ltb, leb, ◌==◌, length, get_elem?, length-append, All,
}
use pcap_plus_plus.RawPacket.{RawData, live}
use pcap_plus_plus.RawPacket.Buffers.{load_at, store_at, cut}
use pcap_plus_plus.Dns.{word_loop, finish_name}

-- Words as they stand in a packet, in front of the last zero.
unfoldable pub wire : List (List ℕ) → List ℕ
wire [] = []
wire (w ∷ ws) = length w ∷ (w ++ wire ws)

-- Each word with the dot behind it.
unfoldable pub dotted : List (List ℕ) → List ℕ
dotted [] = []
dotted (w ∷ ws) = (w ++ b'.' ∷ []) ++ dotted ws

pub length-dotted : (ws : List (List ℕ)) → length (dotted ws) ≡ length (wire ws)
unfolding dotted wire
length-dotted [] = refl
length-dotted (w ∷ ws) = omega (
  arith,
  length-append (w ++ b'.' ∷ []) (dotted ws),
  length-append w (b'.' ∷ []),
  length-append w (wire ws),
  length-dotted ws,
)

pub length-le-wire : (ws : List (List ℕ)) → length ws ≤ length (wire ws)
unfolding wire
length-le-wire [] = omega arith
length-le-wire (w ∷ ws) = omega (arith, length-append w (wire ws), length-le-wire ws)

pub get_elem?-append :
    (pre : List ℕ) (x : ℕ) (rest : List ℕ) (at : ℕ)
    → at ≡ length pre
    → get_elem? (pre ++ (x ∷ rest)) at ≡ some x
get_elem?-append [] x rest zero h = refl
get_elem?-append [] x rest (suc at) h = absurd (omega arith)
get_elem?-append (p ∷ pre) x rest zero h = absurd (omega arith)
get_elem?-append (p ∷ pre) x rest (suc at) h = get_elem?-append pre x rest at (omega arith)

-- A word that is copied: neither the last zero nor a pointer.
abbrev pub Plain : List ℕ → Type 0
Plain w = (0 < length w) × (length w < 192)

module _ (jump : ℕ → Option RawData) (layer : List ℕ) where
  word_step :
      (pre w rest done old c : List ℕ) (fuel at n : ℕ)
      → layer ≡ pre ++ (length w ∷ (w ++ rest))
      → Plain w
      → 0 < length rest
      → length old ≡ length w + 1
      → at ≡ length pre
      → n ≡ length done
      → n + length w ≤ 255
      → word_loop jump layer (suc fuel) at n n (live (done ++ (old ++ c)))
        ≡ word_loop jump layer fuel
            (at + (length w + 1))
            (n + (length w + 1))
            (n + (length w + 1))
            (live (done ++ ((w ++ b'.' ∷ []) ++ c)))
  unfolding word_loop
  word_step pre w rest done old c fuel at n e (some_char, short) more k a l room =
      let nil : List ℕ = [] in
      let len : length layer ≡ length pre + (1 + (length w + length rest)) =
        ap length e
        ∙ omega (arith, length-append pre (length w ∷ (w ++ rest)), length-append w rest) in
      let first : get_elem? layer at ≡ some (length w) =
        ap (λ x. get_elem? x at) e ∙ get_elem?-append pre (length w) (w ++ rest) at a in
      let e' : live layer ≡ live ((pre ++ (length w ∷ [])) ++ (w ++ rest)) =
        ap live (e ∙ sym (append_assoc pre (length w ∷ []) (w ++ rest))) in
      let loaded =
        load_at (live layer) (pre ++ (length w ∷ [])) w rest (at + 1) (length w) e'
          (omega (arith, a, length-append pre (length w ∷ []))) refl in
      let stored =
        store_at (live (done ++ (old ++ c))) done old c (w ++ b'.' ∷ []) n refl l
          (omega (arith, k, length-append w (b'.' ∷ []))) in
      let no_end : (length w == 0) ≡ false = ground (arith, some_char) in
      let no_pointer : leb 0xC0 (length w) ≡ false = ground (arith, short) in
      let whole : (ltb (length layer) (at + length w + 1) || ltb 255 (n + length w)) ≡ false =
        ground (arith, len, a, room) in
      let next : ltb (length layer) (at + (length w + 1) + 1) ≡ false =
        ground (arith, len, a, more) in
      rw (word_loop, first, no_end, no_pointer, whole, loaded, stored, next) refl

  -- The loop over words that stand in the layer copies each with a dot behind it.
  pub word_loop-wire :
      (ws : List (List ℕ)) (pre rest done tail : List ℕ) (fuel extra at n : ℕ)
      → layer ≡ pre ++ (wire ws ++ rest)
      → All Plain ws
      → 0 < length rest
      → fuel ≡ length ws + extra
      → at ≡ length pre
      → n ≡ length done
      → n + length (wire ws) ≤ 256
      → length (wire ws) ≤ length tail
      → (tail' : List ℕ) × (length tail ≡ length (wire ws) + length tail')
        × (word_loop jump layer fuel at n n (live (done ++ tail))
            ≡ word_loop jump layer extra
                (at + length (wire ws))
                (n + length (wire ws))
                (n + length (wire ws))
                (live ((done ++ dotted ws) ++ tail')))
  unfolding wire dotted
  word_loop-wire [] pre rest done tail fuel extra at n e plain more f a k room room' =
      let same : fuel ≡ extra = omega (arith, f) in
      let at_end : at ≡ at + 0 = omega arith in
      let n_end : n ≡ n + 0 = omega arith in
      (
        tail,
        omega arith,
        λ i.
            word_loop jump layer (same i) (at_end i) (n_end i) (n_end i)
              (live (sym (append-nil done) i ++ tail)),
      )
  word_loop-wire (w ∷ ws) pre rest done tail zero extra at n e plain more f a k room room' =
      absurd (omega (arith, f))
  word_loop-wire (w ∷ ws) pre rest done tail (suc fuel) extra at n e (p, ps) more f a k room room' =
      let nil : List ℕ = [] in
      let s = length w + 1 in
      let word = w ++ b'.' ∷ [] in
      let len = length-append w (wire ws) in
      let len' = length-append w (b'.' ∷ []) in
      let (old, c, e', l, l') = cut s tail (omega (arith, room', len)) in
      let before : layer ≡ pre ++ (length w ∷ (w ++ (wire ws ++ rest))) =
        e ∙ ap (λ x. pre ++ (length w ∷ x)) (append_assoc w (wire ws) rest) in
      let step =
        word_step pre w (wire ws ++ rest) done old c fuel at n before p
          (omega (arith, more, length-append (wire ws) rest)) l a k (omega (arith, room, len)) in
      let after : layer ≡ (pre ++ (length w ∷ w)) ++ (wire ws ++ rest) =
        before ∙ sym (append_assoc pre (length w ∷ w) (wire ws ++ rest)) in
      let (tail', l'', run) =
        word_loop-wire ws (pre ++ (length w ∷ w)) rest (done ++ word) c fuel extra (at + s) (n + s)
          after ps more (omega (arith, f)) (omega (arith, a, length-append pre (length w ∷ w)))
          (omega (arith, k, len', length-append done word)) (omega (arith, room, len))
          (omega (arith, room', len, l')) in
      let at_end : at + s + length (wire ws) ≡ at + length (wire (w ∷ ws)) = omega (arith, len) in
      let n_end : n + s + length (wire ws) ≡ n + length (wire (w ∷ ws)) = omega (arith, len) in
      (
        tail',
        omega (arith, l', l'', len, room'),
        ap (λ x. word_loop jump layer (suc fuel) at n n (live (done ++ x))) e'
            ∙ step
            ∙ ap (λ x. word_loop jump layer fuel (at + s) (n + s) (n + s) (live x))
                (sym (append_assoc done word c))
            ∙ run
            ∙ (λ i.
                word_loop jump layer extra (at_end i) (n_end i) (n_end i)
                  (live (append_assoc done word (dotted ws) i ++ tail'))),
      )

  -- It then reads the last zero, if fuel is left.
  pub word_loop_ended :
      (pre rest : List ℕ) (fuel at n : ℕ) (result : RawData)
      → layer ≡ pre ++ (0 ∷ rest)
      → at ≡ length pre
      → word_loop jump layer (suc fuel) at n n result ≡ finish_name n n result
  unfolding word_loop
  word_loop_ended pre rest fuel at n result e a =
      let first : get_elem? layer at ≡ some 0 =
        ap (λ x. get_elem? x at) e ∙ get_elem?-append pre 0 rest at a in
      rw (word_loop, first) refl
