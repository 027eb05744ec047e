-- ===== src/Packet/Resize.antt =====
-- Layers that grow and shrink: Packet::extendLayer and shortenLayer (Packet++/src/Packet.cpp), and those
-- of a layer in no packet, with its copies (Packet++/src/Layer.cpp). m_Data is not NULL.
use mathlib.Core.List.{append_assoc, append-nil}
use pcap_plus_plus.Prelude.{
  ℕ, zero, suc, ◌+◌, ◌<◌, ◌≡◌, refl, sym, ap, ◌∙◌, Bool, true, false, ◌||◌, Option, none, some,
  List, [], ◌++◌, arith, ltb, leb, ◌==◌, if◌then◌else◌, length, length-append,
}
use pcap_plus_plus.RawPacket.{RawData, live, load_bytes, insert_data, remove_data}
use pcap_plus_plus.RawPacket.Buffers.{load_at}
use pcap_plus_plus.Packet.{
  Layer, own, inside, nobody, this_packet, Packet, sub64, set_layer, same_layer, get_header_len,
  make_room, header_at,
}

-- The loop of extendLayer and shortenLayer; resize changes the data length of the layers up to layer a,
-- and the header length of a.
unfoldable pub resize_layers :
    (ℕ → ℕ) → ℕ → (ℕ → Layer) → Option ℕ → ℕ → ℕ → Bool → Option (ℕ → Layer)
resize_layers resize zero layers cur at a passed = none
resize_layers resize (suc fuel) layers none at a passed = some layers
resize_layers resize (suc fuel) layers (some b) at a passed =
    let placed = record (layers b) { data_at = inside at } in
    let passed' = passed || same_layer placed.prev_layer a in
    let l = record placed {
      data_len = if passed' then placed.data_len else resize placed.data_len;
    } in
    let h = get_header_len l in
    resize_layers resize fuel (set_layer layers b l) l.next_layer
      (at + (if b == a then resize h else h)) a passed'

abbrev is_this_packet : Layer → Bool
is_this_packet l = elim l.owner [ this_packet ↦ true | _ ↦ false ]

unfoldable pub extend_layer : ℕ → Packet → Option ℕ → ℕ → ℕ → Option (Packet × Bool)
extend_layer fuel p none offset n = some (p, false)
extend_layer fuel p (some a) offset n =
    let extended : Option (Packet × Bool) = elim (make_room fuel p n) [
      | none ↦ none
      | some p' ↦ elim (header_at (p'.layers a)) [
        | none ↦ none
        | some at ↦ elim (insert_data p'.raw_packet (at + offset) none n) [
          | none ↦ none
          | some raw ↦ elim (resize_layers (λ k. k + n) fuel p'.layers p'.first_layer 0 a false) [
            | none ↦ none
            | some layers ↦ some (record p' { raw_packet = raw; layers = layers }, true)
          ]
        ]
      ]
    ] in
    if is_this_packet (p.layers a) then extended else some (p, false)

unfoldable pub shorten_layer : ℕ → Packet → Option ℕ → ℕ → ℕ → Option (Packet × Bool)
shorten_layer fuel p none offset n = some (p, false)
shorten_layer fuel p (some a) offset n =
    let shortened : Option (Packet × Bool) = elim (header_at (p.layers a)) [
      | none ↦ none
      | some at ↦ elim (remove_data p.raw_packet (at + offset) n) [
        | none ↦ none
        | some (raw, done) ↦
            let resized : Option (Packet × Bool) =
              elim (resize_layers (λ k. sub64 k n) fuel p.layers p.first_layer 0 a false) [
                | none ↦ none
                | some layers ↦ some (record p { raw_packet = raw; layers = layers }, true)
              ] in
            if done then resized else some (p, false)
      ]
    ] in
    if is_this_packet (p.layers a) then shortened else some (p, false)

-- n bytes of a layer's data at an offset; raw is its packet's buffer.
unfoldable pub layer_bytes : RawData → Layer → ℕ → ℕ → Option (List ℕ)
layer_bytes raw l offset n = elim l.data_at [
  | own bytes ↦ load_bytes (live bytes) offset n
  | inside at ↦ load_bytes raw (at + offset) n
]

-- The copy constructor.
unfoldable pub copy_layer : RawData → Layer → Option Layer
copy_layer raw other = elim (layer_bytes raw other 0 other.data_len) [
  | none ↦ none
  | some bytes ↦ some (record other {
    data_at = own bytes;
    data_len = get_header_len other;
    owner = nobody;
    next_layer = none;
    prev_layer = none;
    is_allocated_in_packet = false;
  })
]

-- Layer::extendLayer in no packet; gap are the new bytes, which are not initialized.
unfoldable pub extend_own : RawData → Layer → ℕ → List ℕ → Option (Layer × Bool)
extend_own raw l offset gap =
    let extended : Option (Layer × Bool) = elim (layer_bytes raw l 0 offset) [
      | none ↦ none
      | some front ↦ elim (layer_bytes raw l offset (sub64 l.data_len offset)) [
        | none ↦ none
        | some back ↦ some (
          record l { data_at = own (front ++ (gap ++ back)); data_len = l.data_len + length gap },
          true,
        )
      ]
    ] in
    if ltb l.data_len offset then some (l, false) else extended

-- Layer::shortenLayer in no packet.
unfoldable pub shorten_own : RawData → Layer → ℕ → ℕ → Option (Layer × Bool)
shorten_own raw l offset n =
    let shortened : Option (Layer × Bool) = elim (layer_bytes raw l 0 offset) [
      | none ↦ none
      | some front ↦ elim (layer_bytes raw l (offset + n) (sub64 (sub64 l.data_len offset) n)) [
        | none ↦ none
        | some back ↦
            some (record l { data_at = own (front ++ back); data_len = sub64 l.data_len n }, true)
      ]
    ] in
    if leb l.data_len offset then some (l, false) else shortened

pub layer_bytes_lem :
    (raw : RawData) (l : Layer) (a b c : List ℕ) (at n : ℕ)
    → l.data_at ≡ own (a ++ (b ++ c))
    → at ≡ length a
    → n ≡ length b
    → layer_bytes raw l at n ≡ some b
unfolding layer_bytes
layer_bytes_lem raw l a b c at n e h k =
    rw (layer_bytes, e) (load_at (live (a ++ (b ++ c))) a b c at n refl h k)

pub extend_steps :
    (raw : RawData) (l : Layer) (offset : ℕ) (gap a b : List ℕ)
    → ltb l.data_len offset ≡ false
    → layer_bytes raw l 0 offset ≡ some a
    → layer_bytes raw l offset (sub64 l.data_len offset) ≡ some b
    → extend_own raw l offset gap
      ≡ some
          (record l { data_at = own (a ++ (gap ++ b)); data_len = l.data_len + length gap }, true)
unfolding extend_own
extend_steps raw l offset gap a b e f g = rw (extend_own, e, f, g) refl

pub shorten_steps :
    (raw : RawData) (l : Layer) (offset n : ℕ) (a b : List ℕ)
    → leb l.data_len offset ≡ false
    → layer_bytes raw l 0 offset ≡ some a
    → layer_bytes raw l (offset + n) (sub64 (sub64 l.data_len offset) n) ≡ some b
    → shorten_own raw l offset n
      ≡ some (record l { data_at = own (a ++ b); data_len = sub64 l.data_len n }, true)
unfolding shorten_own
shorten_steps raw l offset n a b e f g = rw (shorten_own, e, f, g) refl

-- extendLayer of a layer in no packet, then shortenLayer by as many bytes at the same place, gives
-- the layer back, where the place is inside of its data, one byte or more is added and the bytes
-- stay fewer than 2^64.
pub shorten_own-extend_own :
    (raw : RawData) (l : Layer) (a b gap : List ℕ)
    → l.data_at ≡ own (a ++ b)
    → l.data_len ≡ length (a ++ b)
    → 0 < length gap
    → length (a ++ b) + length gap < 0x1_0000_0000_0000_0000
    → (l' : Layer) × (extend_own raw l (length a) gap ≡ some (l', true))
      × (shorten_own raw l' (length a) (length gap) ≡ some (l, true))
shorten_own-extend_own raw l a b gap e len more small =
    let nil : List ℕ = [] in
    let total = length-append a b in
    let l' = record l { data_at = own (a ++ (gap ++ b)); data_len = l.data_len + length gap } in
    let behind : l.data_at ≡ own (a ++ (b ++ nil)) =
      e ∙ ap (λ x. own (a ++ x)) (sym (append-nil b)) in
    let behind' : l'.data_at ≡ own ((a ++ gap) ++ (b ++ nil)) =
      ap own (sym (append_assoc a gap b)) ∙ ap (λ x. own ((a ++ gap) ++ x)) (sym (append-nil b)) in
    let count : sub64 l.data_len (length a) ≡ length b = omega (arith, len, total, small) in
    let count' : sub64 (sub64 l'.data_len (length a)) (length gap) ≡ length b =
      omega (arith, len, total, small) in
    let old : sub64 l'.data_len (length gap) ≡ l.data_len = omega (arith, len, small) in
    let extended =
      extend_steps raw l (length a) gap a b (ground (arith, len, total))
        (layer_bytes_lem raw l [] a b 0 (length a) e refl refl)
        (layer_bytes_lem raw l a b nil (length a) _ behind refl count) in
    let shortened =
      shorten_steps raw l' (length a) (length gap) a b (ground (arith, len, total, more))
        (layer_bytes_lem raw l' [] a (gap ++ b) 0 (length a) refl refl refl)
        (layer_bytes_lem raw l' (a ++ gap) b nil (length a + length gap) _ behind'
          (sym (length-append a gap)) count') in
    (l', extended, shortened ∙ (λ i. some (record l { data_at = sym e i; data_len = old i }, true)))
