-- ===== src/TextBasedProtocol/OwnLayer.antt =====
-- The layer of a message that is in no packet: its operations are those of Layer.cpp, and they do what
-- the fields need.
use mathlib.Core.List.{append_assoc, append-nil}
use pcap_plus_plus.Prelude.{
  ℕ, ◌+◌, ◌<◌, ◌≡◌, refl, sym, ap, ◌∙◌, true, Option, none, some, List, [], ◌++◌, arith, length,
  replicate, length-append, length-replicate,
}
use pcap_plus_plus.RawPacket.{live, store_bytes}
use pcap_plus_plus.RawPacket.Buffers.{store_at}
use pcap_plus_plus.Packet.{Layer, own, inside, sub64}
use pcap_plus_plus.Packet.Resize.{
  extend_own, shorten_own, layer_bytes_lem, extend_steps, shorten_steps,
}
use pcap_plus_plus.TextBasedProtocol.Layers.{LayerOps, LayerLaws}

abbrev pub own_data : Layer → List ℕ
own_data l = elim l.data_at [ own bytes ↦ bytes | inside at ↦ [] ]

-- memcpy to a place in the layer's own array
unfoldable pub write_own : Layer → ℕ → List ℕ → Option Layer
write_own l offset xs = elim (store_bytes (live (own_data l)) offset xs) [
  | none ↦ none
  | some d ↦ elim d [ live bytes ↦ some (record l { data_at = own bytes }) | _ ↦ none ]
]

abbrev pub own_ops : LayerOps Layer
own_ops = record {
  data_of = own_data;
  extend = λ l offset n. extend_own (live []) l offset (replicate n 0);
  shorten = λ l offset n. shorten_own (live []) l offset n;
  write = write_own;
}

abbrev pub HasOwn : Layer → Type 0
HasOwn l = (l.data_at ≡ own (own_data l)) × (l.data_len ≡ length (own_data l))

write_steps :
    (l : Layer) (offset : ℕ) (xs bytes : List ℕ)
    → store_bytes (live (own_data l)) offset xs ≡ some (live bytes)
    → write_own l offset xs ≡ some (record l { data_at = own bytes })
unfolding write_own
write_steps l offset xs bytes e = rw (write_own, e) refl

extend_own_lem :
    (l : Layer) (a b gap : List ℕ)
    → HasOwn l
    → own_data l ≡ a ++ b
    → length (a ++ b) + length gap < 0x1_0000_0000_0000_0000
    → extend_own (live []) l (length a) gap
      ≡ some
          (record l { data_at = own (a ++ (gap ++ b)); data_len = l.data_len + length gap }, true)
extend_own_lem l a b gap (e, n) split small =
    let nil : List ℕ = [] in
    let total = length-append a b in
    let at : l.data_at ≡ own (a ++ b) = e ∙ ap own split in
    let behind : l.data_at ≡ own (a ++ (b ++ nil)) =
      at ∙ ap (λ x. own (a ++ x)) (sym (append-nil b)) in
    let count : sub64 l.data_len (length a) ≡ length b =
      omega (arith, n, ap length split, total, small) in
    extend_steps (live []) l (length a) gap a b (ground (arith, n, ap length split, total))
      (layer_bytes_lem (live []) l [] a b 0 (length a) at refl refl)
      (layer_bytes_lem (live []) l a b nil (length a) _ behind refl count)

shorten_own_lem :
    (l : Layer) (a xs b : List ℕ)
    → HasOwn l
    → own_data l ≡ a ++ (xs ++ b)
    → 0 < length xs
    → length (a ++ (xs ++ b)) < 0x1_0000_0000_0000_0000
    → shorten_own (live []) l (length a) (length xs)
      ≡ some (record l { data_at = own (a ++ b); data_len = sub64 l.data_len (length xs) }, true)
shorten_own_lem l a xs b (e, n) split more small =
    let nil : List ℕ = [] in
    let total = length-append a (xs ++ b) in
    let total' = length-append xs b in
    let at : l.data_at ≡ own (a ++ (xs ++ b)) = e ∙ ap own split in
    let behind : l.data_at ≡ own ((a ++ xs) ++ (b ++ nil)) =
      at
      ∙ ap own (sym (append_assoc a xs b))
      ∙ ap (λ x. own ((a ++ xs) ++ x)) (sym (append-nil b)) in
    let count : sub64 (sub64 l.data_len (length a)) (length xs) ≡ length b =
      omega (arith, n, ap length split, total, total', small) in
    shorten_steps (live []) l (length a) (length xs) a b
      (ground (arith, n, ap length split, total, total', more))
      (layer_bytes_lem (live []) l [] a (xs ++ b) 0 (length a) at refl refl)
      (layer_bytes_lem (live []) l (a ++ xs) b nil (length a + length xs) _ behind
        (sym (length-append a xs)) count)

pub own_laws : LayerLaws own_ops
own_laws = record {
  Good = HasOwn;
  extends = λ l a b n good e small.
      let gap : List ℕ = replicate n 0 in
      let size : length gap ≡ n = length-replicate n 0 in
      let l' = record l { data_at = own (a ++ (gap ++ b)); data_len = l.data_len + length gap } in
      (
        l',
        gap,
        extend_own_lem l a b gap good e (omega (arith, size)),
        (
          refl,
          omega (
            arith,
            good.1,
            ap length e,
            length-append a b,
            length-append a (gap ++ b),
            length-append gap b,
          ),
        ),
        refl,
        size,
      );
  shortens = λ l a xs b good e more small. (
    record l { data_at = own (a ++ b); data_len = sub64 l.data_len (length xs) },
    shorten_own_lem l a xs b good e more small,
    (
      refl,
      omega (
        arith,
        good.1,
        ap length e,
        length-append a b,
        length-append a (xs ++ b),
        length-append xs b,
        small,
      ),
    ),
    refl,
  );
  writes = λ l a old b xs good e same. (
    record l { data_at = own (a ++ (xs ++ b)) },
    write_steps l (length a) xs (a ++ (xs ++ b))
        (store_at (live (own_data l)) a old b xs (length a) (ap live e) refl same),
    (
      refl,
      omega (
        arith,
        good.1,
        ap length e,
        length-append a (old ++ b),
        length-append old b,
        length-append a (xs ++ b),
        length-append xs b,
      ),
    ),
    refl,
  );
}

pub own_laws-Good : (l : Layer) → HasOwn l → own_laws.Good l
unfolding own_laws
own_laws-Good l h = h
