-- ===== src/Packet/Edit.antt =====
-- The operations on the layers of a packet (Packet++/src/Packet.cpp), and those of a layer on its own
-- (Packet++/src/Layer.cpp).
use Prim.Native.Nat.{bit_and, bit_or}
use pcap_plus_plus.Prelude.{
  ℕ, zero, suc, ◌-◌, Bool, true, false, ◌&&◌, ◌||◌, Option, none, some, List, ltb, ◌==◌,
  if◌then◌else◌, length,
}
use pcap_plus_plus.RawPacket.{live, load_bytes, insert_data, remove_data}
use pcap_plus_plus.Packet.{
  Layer, own, inside, nobody, this_packet, Packet, packet_trailer, set_layer, same_layer,
  get_header_len, is_allocated_to_packet, make_room, header_at, index_behind, link_layer,
  calculate_packet,
}

-- The first bytes of a layer that is in no packet.
abbrev pub own_header : Layer → ℕ → Option (List ℕ)
own_header l n = elim l.data_at [ own bytes ↦ load_bytes (live bytes) 0 n | inside at ↦ none ]

-- The new layer in the links, as one of this packet.
unfoldable pub insert_links : Packet → Option ℕ → ℕ → Bool → Packet
insert_links p prev new own_in_packet =
    let linked = link_layer p prev new in
    let l = linked.layers new in
    record linked {
      layers = set_layer linked.layers new (record l {
        owner = this_packet;
        is_allocated_in_packet = own_in_packet || l.is_allocated_in_packet;
      });
      protocol_types = bit_or linked.protocol_types l.protocol;
    }

-- From "insert layer data to raw packet" on.
unfoldable pub insert_bytes : ℕ → Packet → Option ℕ → ℕ → Bool → ℕ → Option Packet
insert_bytes fuel p prev new own_in_packet at =
    let n = get_header_len (p.layers new) in
    elim (own_header (p.layers new) n) [
      | none ↦ none
      | some bytes ↦ elim (insert_data p.raw_packet at (some bytes) n) [
        | none ↦ none
        | some raw ↦
            calculate_packet fuel
              (insert_links (record p { raw_packet = raw }) prev new own_in_packet)
      ]
    ]

unfoldable pub insert_layer : ℕ → Packet → Option ℕ → Option ℕ → Bool → Option (Packet × Bool)
insert_layer fuel p prev none own_in_packet = some (p, false)
insert_layer fuel p prev (some new) own_in_packet =
    let behind_trailer : Bool = elim prev [
      | none ↦ false
      | some q ↦ (p.layers q).protocol == packet_trailer
    ] in
    let inserted : Option (Packet × Bool) =
      elim (make_room fuel p (get_header_len (p.layers new))) [
        | none ↦ none
        | some p' ↦ elim (index_behind p'.layers prev) [
          | none ↦ none
          | some at ↦ elim (insert_bytes fuel p' prev new own_in_packet at) [
            | none ↦ none
            | some p'' ↦ some (p'', true)
          ]
        ]
      ] in
    if is_allocated_to_packet (p.layers new) || behind_trailer then some (p, false) else inserted

abbrev pub add_layer : ℕ → Packet → Option ℕ → Bool → Option (Packet × Bool)
add_layer fuel p new own_in_packet = insert_layer fuel p p.last_layer new own_in_packet

-- The first of the layers that a layer is linked to.
unfoldable pub head_of : ℕ → (ℕ → Layer) → ℕ → Option ℕ
head_of zero layers a = none
head_of (suc fuel) layers a = elim (layers a).prev_layer [
  | none ↦ some a
  | some b ↦ head_of fuel layers b
]

unfoldable pub tell_prev : (ℕ → Layer) → Option ℕ → Option ℕ → ℕ → Layer
tell_prev layers none next = layers
tell_prev layers (some b) next = set_layer layers b (record (layers b) { next_layer = next })

unfoldable pub tell_next : (ℕ → Layer) → Option ℕ → Option ℕ → ℕ → Layer
tell_next layers none prev = layers
tell_next layers (some c) prev = set_layer layers c (record (layers c) { prev_layer = prev })

-- "remove layer from layers linked list" and "take care of head and tail ptrs"
unfoldable pub unlink_layer : Packet → ℕ → Packet
unlink_layer p a =
    let next = (p.layers a).next_layer in
    let prev = (p.layers a).prev_layer in
    let layers = tell_next (tell_prev p.layers prev next) next prev in
    record p {
      first_layer = if same_layer p.first_layer a then next else p.first_layer;
      last_layer = if same_layer p.last_layer a then prev else p.last_layer;
      layers = set_layer layers a (record (layers a) { next_layer = none; prev_layer = none });
    }

-- "a flag to be set if there is another layer in this packet with the same protocol"
unfoldable pub another_layer : ℕ → (ℕ → Layer) → Option ℕ → ℕ → Option Bool
another_layer zero layers cur protocol = none
another_layer (suc fuel) layers none protocol = some false
another_layer (suc fuel) layers (some a) protocol =
    elim (another_layer fuel layers (layers a).next_layer protocol) [
      | none ↦ none
      | some more ↦ some ((layers a).protocol == protocol || more)
    ]

-- The removed layer is deleted or gets its old bytes as data of its own.
abbrev pub released : Layer → List ℕ → Bool → Layer
released l old try_to_delete =
    if try_to_delete && l.is_allocated_in_packet
    then record l { freed = true }
    else record l { owner = nobody; data_at = own old; data_len = length old }

-- From "remove layer from layers linked list" on, in the packet without the layer's bytes.
unfoldable pub remove_links : ℕ → Packet → ℕ → Bool → List ℕ → Option Packet
remove_links fuel p a try_to_delete old =
    let protocol = (p.layers a).protocol in
    elim (calculate_packet fuel (unlink_layer p a)) [
      | none ↦ none
      | some p' ↦ elim (another_layer fuel p'.layers p'.first_layer protocol) [
        | none ↦ none
        | some another ↦ some (record p' {
          protocol_types =
              if another
              then p'.protocol_types
              else bit_and p'.protocol_types (0xFFFF_FFFF_FFFF_FFFF - protocol);
          layers = set_layer p'.layers a (released (p'.layers a) old try_to_delete);
        })
      ]
    ]

-- From "before removing the layer's data" on.
unfoldable pub remove_bytes : ℕ → Packet → ℕ → Bool → Option (Packet × Bool)
remove_bytes fuel p a try_to_delete =
    let n = get_header_len (p.layers a) in
    elim (header_at (p.layers a)) [
      | none ↦ none
      | some at ↦ elim (load_bytes p.raw_packet.raw_data at n) [
        | none ↦ none
        | some old ↦ elim (remove_data p.raw_packet at n) [
          | none ↦ none
          | some (raw, done) ↦
              let removed : Option (Packet × Bool) =
                elim (remove_links fuel (record p { raw_packet = raw }) a try_to_delete old) [
                  | none ↦ none
                  | some p' ↦ some (p', true)
                ] in
              if done then removed else some (p, false)
        ]
      ]
    ]

-- removeLayer of a layer.
unfoldable pub remove_layer : ℕ → Packet → Option ℕ → Bool → Option (Packet × Bool)
remove_layer fuel p none try_to_delete = some (p, false)
remove_layer fuel p (some a) try_to_delete =
    let removed : Option (Packet × Bool) = elim (head_of fuel p.layers a) [
      | none ↦ none
      | some h ↦
          let here = remove_bytes fuel p a try_to_delete in
          if same_layer p.first_layer h then here else some (p, false)
    ] in
    if is_allocated_to_packet (p.layers a) then removed else some (p, false)

unfoldable pub find_layer : ℕ → (ℕ → Layer) → Option ℕ → ℕ → ℕ → Option (Option ℕ)
find_layer zero layers cur type index = none
find_layer (suc fuel) layers none type index = some none
find_layer (suc fuel) layers (some a) type index =
    let next = (layers a).next_layer in
    let skip = find_layer fuel layers next type (index - 1) in
    let other = find_layer fuel layers next type index in
    if (layers a).protocol == type then if ltb 0 index then skip else some (some a) else other

-- getLayerOfType from the first layer on
abbrev pub get_layer_of_type : ℕ → Packet → ℕ → ℕ → Option (Option ℕ)
get_layer_of_type fuel p type index = find_layer fuel p.layers p.first_layer type index

-- removeLayer of a type.
unfoldable pub remove_layer_of_type : ℕ → Packet → ℕ → ℕ → Option (Packet × Bool)
remove_layer_of_type fuel p type index = elim (get_layer_of_type fuel p type index) [
  | none ↦ none
  | some found ↦ remove_layer fuel p found true
]

abbrev pub remove_first_layer : ℕ → Packet → Option (Packet × Bool)
remove_first_layer fuel p = remove_layer fuel p p.first_layer true

abbrev pub remove_last_layer : ℕ → Packet → Option (Packet × Bool)
remove_last_layer fuel p = remove_layer fuel p p.last_layer true

unfoldable pub remove_from : ℕ → ℕ → Packet → Option ℕ → Option (Packet × Bool)
remove_from zero fuel p cur = none
remove_from (suc rounds) fuel p none = some (p, true)
remove_from (suc rounds) fuel p (some a) = elim (remove_layer fuel p (some a) true) [
  | none ↦ none
  | some (p', done) ↦
      let rest = remove_from rounds fuel p' (p.layers a).next_layer in
      if done then rest else some (p', false)
]

abbrev pub remove_all_layers_after : ℕ → Packet → ℕ → Option (Packet × Bool)
remove_all_layers_after fuel p a = remove_from fuel fuel p (p.layers a).next_layer

-- detachLayer, with the layer it answers
unfoldable pub detach_layer : ℕ → Packet → ℕ → ℕ → Option (Packet × Option ℕ)
detach_layer fuel p type index = elim (get_layer_of_type fuel p type index) [
  | none ↦ none
  | some found ↦ elim (remove_layer fuel p found false) [
    | none ↦ none
    | some (p', done) ↦ some (p', if done then found else none)
  ]
]
