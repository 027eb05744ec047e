-- ===== src/Packet.antt =====
-- The layers of a packet: Packet++/src/Packet.cpp and Packet++/src/Layer.cpp. A Layer* is a number,
-- the objects stand in a store, and the links m_NextLayer and m_PrevLayer are kept as they are. A
-- pointer into the packet's buffer is its offset. A loop over the links runs on fuel. An operation
-- returns none where the fuel ends, or the source reads or writes outside of a buffer.
pub mod Edit
pub mod Resize
pub mod Find
pub mod Links
pub mod Layout
pub mod Represents
pub mod Relink
pub mod InsertBytes
pub mod Insert
pub mod Unlink
pub mod RemoveSteps
pub mod RemoveBytes
pub mod Remove
pub mod RemoveAll
use Prim.Native.Nat.{bit_and, bit_or, min}
use pcap_plus_plus.Prelude.{
  ℕ, zero, suc, ◌+◌, ◌-◌, ◌*◌, ◌%◌, Bool, true, false, not, ◌&&◌, ◌||◌, Option, none, some, List,
  [], ◌∷◌, ◌++◌, ltb, leb, ◌==◌, if◌then◌else◌, length, take, drop,
}
use pcap_plus_plus.RawPacket.{RawPacket, load_bytes, insert_data, reallocate_data, remove_data}

-- getHeaderLen is virtual. A layer's class makes it a length that the header's own bytes give, such
-- a length or the layer's data length if that is less, or just the data length.
pub data HeaderLen : Type 0 where
  fixed bounded : ℕ → HeaderLen
  to_end : HeaderLen

-- m_Data: an array of the layer's own, or a place in the packet's buffer.
pub data LayerData : Type 0 where
  own : List ℕ → LayerData
  inside : ℕ → LayerData

-- m_Packet: NULL, the packet at hand or another one.
pub data Owner : Type 0 where
  nobody this_packet other_packet : Owner

-- freed says that the object has been deleted.
pub record Layer : Type 0 where
  pub data_at : LayerData
  pub data_len : ℕ
  pub owner : Owner
  pub protocol : ℕ
  pub next_layer : Option ℕ
  pub prev_layer : Option ℕ
  pub is_allocated_in_packet : Bool
  pub header : HeaderLen
  pub osi_model_layer : ℕ
  pub freed : Bool

pub record Packet : Type 0 where
  pub raw_packet : RawPacket
  pub first_layer : Option ℕ
  pub last_layer : Option ℕ
  pub protocol_types : ℕ
  pub max_packet_len : ℕ
  pub layers : ℕ → Layer

abbrev pub packet_trailer : ℕ
packet_trailer = 0x20000000

abbrev pub data_link_layer : ℕ
data_link_layer = 2

-- Subtraction on size_t.
abbrev pub sub64 : ℕ → ℕ → ℕ
sub64 a b = (a + 0x1_0000_0000_0000_0000 - b) % 0x1_0000_0000_0000_0000

abbrev pub set_layer : (ℕ → Layer) → ℕ → Layer → ℕ → Layer
set_layer layers a l b = if b == a then l else layers b

abbrev pub same_layer : Option ℕ → ℕ → Bool
same_layer none a = false
same_layer (some b) a = b == a

unfoldable pub get_header_len : Layer → ℕ
get_header_len l = elim l.header [
  | fixed n ↦ n
  | bounded n ↦ if ltb l.data_len n then l.data_len else n
  | to_end ↦ l.data_len
]

abbrev pub is_allocated_to_packet : Layer → Bool
is_allocated_to_packet l = elim l.owner [ nobody ↦ false | _ ↦ true ]

-- The loop of reallocateRawData, from a layer on.
unfoldable pub set_pointers : ℕ → (ℕ → Layer) → Option ℕ → ℕ → Option (ℕ → Layer)
set_pointers zero layers cur at = none
set_pointers (suc fuel) layers none at = some layers
set_pointers (suc fuel) layers (some a) at =
    let l = record (layers a) { data_at = inside at } in
    set_pointers fuel (set_layer layers a l) l.next_layer (at + get_header_len l)

unfoldable pub reallocate_raw_data : ℕ → Packet → ℕ → Option Packet
reallocate_raw_data fuel p size = elim (reallocate_data p.raw_packet size) [
  | none ↦ none
  | some (raw, done) ↦
      let p' = record p { raw_packet = raw; max_packet_len = size } in
      let moved : Option Packet = elim (set_pointers fuel p.layers p.first_layer 0) [
        | none ↦ none
        | some layers ↦ some (record p' { layers = layers })
      ] in
      if done then moved else some p'
]

-- What insertLayer and extendLayer do when the buffer has no room for n more bytes.
unfoldable pub make_room : ℕ → Packet → ℕ → Option Packet
make_room fuel p n =
    let len = p.raw_packet.raw_data_len + n in
    if ltb p.max_packet_len len
    then if ltb (p.max_packet_len * 2) len
      then reallocate_raw_data fuel p (len + p.max_packet_len)
      else reallocate_raw_data fuel p (p.max_packet_len * 2)
    else some p

-- The offset of a layer's header, and the one behind it.
unfoldable pub header_at : Layer → Option ℕ
header_at l = elim l.data_at [ own bytes ↦ none | inside at ↦ some at ]

unfoldable pub index_behind : (ℕ → Layer) → Option ℕ → Option ℕ
index_behind layers none = some 0
index_behind layers (some q) = elim (header_at (layers q)) [
  | none ↦ none
  | some at ↦ some (at + get_header_len (layers q))
]

-- The new layer is told to the one that follows it, or it is the last one.
unfoldable pub link_next : Packet → (ℕ → Layer) → Option ℕ → ℕ → Packet
link_next p layers none new = record p { layers = layers; last_layer = some new }
link_next p layers (some f) new = record p {
  layers = set_layer layers f (record (layers f) { prev_layer = some new });
}

-- "add layer to layers linked list"
unfoldable pub link_layer : Packet → Option ℕ → ℕ → Packet
link_layer p none new =
    let layers = set_layer p.layers new (record (p.layers new) { next_layer = p.first_layer }) in
    link_next (record p { first_layer = some new }) layers p.first_layer new
link_layer p (some q) new =
    let next = (p.layers q).next_layer in
    let layers =
      set_layer p.layers new (record (p.layers new) { next_layer = next; prev_layer = some q }) in
    let layers' = set_layer layers q (record (layers q) { next_layer = some new }) in
    link_next p layers' next new

unfoldable pub trailer_len : Packet → ℕ
trailer_len p = elim p.last_layer [
  | none ↦ 0
  | some a ↦ if (p.layers a).protocol == packet_trailer then (p.layers a).data_len else 0
]

-- "re-calculate all layers data ptr and data length", from a layer on.
unfoldable pub calculate : ℕ → (ℕ → Layer) → Option ℕ → ℕ → ℕ → ℕ → Option (ℕ → Layer)
calculate zero layers cur at len trailer = none
calculate (suc fuel) layers none at len trailer = some layers
calculate (suc fuel) layers (some a) at len trailer =
    let l = record (layers a) {
      data_at = inside at;
      data_len = if (layers a).osi_model_layer == data_link_layer then len else sub64 len trailer;
    } in
    let h = get_header_len l in
    calculate fuel (set_layer layers a l) l.next_layer (at + h) (sub64 len h) trailer

abbrev pub calculate_packet : ℕ → Packet → Option Packet
calculate_packet fuel p =
    elim (calculate fuel p.layers p.first_layer 0 p.raw_packet.raw_data_len (trailer_len p)) [
      | none ↦ none
      | some layers ↦ some (record p { layers = layers })
    ]
