-- ===== src/Tests/Layers.antt =====
-- A packet of two layers, with one inserted and one removed.
use pcap_plus_plus.Prelude.{
  ℕ, ◌≡◌, refl, Bool, true, false, Option, none, some, List, [], ◌∷◌, arith, get_elem?, ◌==◌,
  if◌then◌else◌,
}
use pcap_plus_plus.RawPacket.{
  live, null, insert_data, remove_data, reallocate_data, move_bytes, load_bytes, store_bytes,
}
use pcap_plus_plus.Packet.{
  Layer, LayerData, own, inside, fixed, to_end, Packet, nobody, this_packet, get_header_len,
  header_at, make_room, reallocate_raw_data, set_pointers,
}
use pcap_plus_plus.Packet.Edit.{
  insert_layer, remove_layer, remove_all_layers_after, get_layer_of_type, find_layer,
}
use pcap_plus_plus.Packet.Links.{Segment, IsDistinct, Chain}
use pcap_plus_plus.Packet.Layout.{Piece, Placed, Fits}
use pcap_plus_plus.Packet.Represents.{Represents}
use pcap_plus_plus.Packet.Insert.{insert_layer-Represents}
use pcap_plus_plus.Packet.Find.{of_type, get_layer_of_type_finds}
use pcap_plus_plus.Packet.RemoveAll.{remove_all_layers_after-Represents}
use pcap_plus_plus.Packet.Resize.{
  extend_layer, shorten_layer, resize_layers, extend_own, shorten_own, shorten_own-extend_own,
}
use pcap_plus_plus.Packet.Remove.{remove_layer-Represents}
use pcap_plus_plus.Packet.RemoveBytes.{Released}

-- An Ethernet-like layer 0, a payload 1 and a new layer 2.
abbrev eth : Layer
eth = record {
  data_at = inside 0;
  data_len = 5;
  owner = this_packet;
  protocol = 1;
  next_layer = some 1;
  prev_layer = none;
  is_allocated_in_packet = true;
  header = fixed 2;
  osi_model_layer = 2;
  freed = false;
}

abbrev payload : Layer
payload = record {
  data_at = inside 2;
  data_len = 3;
  owner = this_packet;
  protocol = 0x2000;
  next_layer = none;
  prev_layer = some 0;
  is_allocated_in_packet = false;
  header = to_end;
  osi_model_layer = 7;
  freed = false;
}

abbrev vlan : Layer
vlan = record {
  data_at = own (9 ∷ 8 ∷ []);
  data_len = 2;
  owner = nobody;
  protocol = 0x10;
  next_layer = none;
  prev_layer = none;
  is_allocated_in_packet = false;
  header = fixed 2;
  osi_model_layer = 2;
  freed = false;
}

abbrev packet : Packet
packet = record {
  raw_packet = record {
    raw_data = live (1 ∷ 2 ∷ 5 ∷ 6 ∷ 7 ∷ []);
    raw_data_len = 5;
    frame_length = 5;
    time_stamp = record { sec = 0; nsec = 0 };
    delete_at_destructor = true;
    raw_packet_set = true;
    link_layer_type = 1;
  };
  first_layer = some 0;
  last_layer = some 1;
  protocol_types = 0x2001;
  max_packet_len = 5;
  layers = λ a. if a == 0 then eth else if a == 1 then payload else vlan;
}

abbrev eth_piece : Piece
eth_piece = (0, 1 ∷ 2 ∷ [])

abbrev payload_piece : Piece
payload_piece = (1, 5 ∷ 6 ∷ 7 ∷ [])

abbrev vlan_piece : Piece
vlan_piece = (2, 9 ∷ 8 ∷ [])

packet-Represents : Represents packet (eth_piece ∷ payload_piece ∷ []) []
unfolding Segment IsDistinct Placed Fits get_header_len
packet-Represents = record {
  linked = (refl, refl, (refl, refl, (refl, refl)));
  distinct = ((refl, tt), (tt, tt));
  holds = (refl, refl);
  placed = (refl, refl, (refl, refl, tt));
  fits = (refl, (refl, tt));
  no_trailer = (refl, (refl, tt));
  attached = (refl, (refl, tt));
  within = omega arith;
  room = omega arith;
}

header-Fits : Fits packet.layers (eth_piece ∷ vlan_piece ∷ payload_piece ∷ [])
unfolding Fits
header-Fits = (refl, (refl, (refl, tt)))

vlan_len : get_header_len vlan ≡ 2
unfolding get_header_len
vlan_len = refl

insert_layer-Represents_example :
    (p' : Packet) × (rest' : List ℕ) × (insert_layer 5 packet (some 0) (some 2) true
      ≡ some (p', true))
    × Represents p' (eth_piece ∷ vlan_piece ∷ payload_piece ∷ []) rest'
insert_layer-Represents_example =
    insert_layer-Represents 5 packet 2 (9 ∷ 8 ∷ []) [] (eth_piece ∷ []) (payload_piece ∷ []) [] true
      packet-Represents (refl, (refl, tt)) refl refl refl refl vlan_len header-Fits (omega arith)
      (omega arith)

remove_layer-Represents_example :
    (p' : Packet) × (rest' : List ℕ) × (remove_layer 5 packet (some 0) false ≡ some (p', true))
    × Represents p' (payload_piece ∷ []) rest'
    × Released (p'.layers 0) (1 ∷ 2 ∷ [])
remove_layer-Represents_example =
    remove_layer-Represents 5 packet 0 (1 ∷ 2 ∷ []) [] (payload_piece ∷ []) [] false
      packet-Represents (omega arith) (omega arith)

remove_all_layers_after-Represents_example :
    (p' : Packet) × (rest' : List ℕ) × (remove_all_layers_after 5 packet 0 ≡ some (p', true))
    × Represents p' (eth_piece ∷ []) rest'
remove_all_layers_after-Represents_example =
    remove_all_layers_after-Represents 5 packet 0 (1 ∷ 2 ∷ []) [] (payload_piece ∷ []) []
      packet-Represents (omega arith) (omega arith)

packet-Chain : Chain packet (0 ∷ 1 ∷ [])
unfolding Segment
packet-Chain = (refl, refl, (refl, refl, (refl, refl)))

get_layer_of_type_finds_example :
    get_layer_of_type 5 packet 0x2000 0
    ≡ some (get_elem? (of_type packet.layers 0x2000 (0 ∷ 1 ∷ [])) 0)
get_layer_of_type_finds_example =
    get_layer_of_type_finds 5 packet (0 ∷ 1 ∷ []) 0x2000 0 packet-Chain (omega arith)

-- The payload is the first layer of its protocol, and there is no second one.
payload_found : get_layer_of_type 5 packet 0x2000 0 ≡ some (some 1)
unfolding find_layer
payload_found = refl

payload_not_found : get_layer_of_type 5 packet 0x2000 1 ≡ some none
unfolding find_layer
payload_not_found = refl

shorten_own-extend_own_example :
    (l' : Layer) × (extend_own null vlan 1 (0 ∷ 0 ∷ []) ≡ some (l', true))
    × (shorten_own null l' 1 2 ≡ some (vlan, true))
shorten_own-extend_own_example =
    shorten_own-extend_own null vlan (9 ∷ []) (8 ∷ []) (0 ∷ 0 ∷ []) refl refl (omega arith)
      (omega arith)

-- The first layer's data length, the place of the second one and the packet's length.
abbrev summary : Option (Packet × Bool) → Option (ℕ × LayerData × ℕ)
summary none = none
summary (some (q, done)) =
    some ((q.layers 0).data_len, (q.layers 1).data_at, q.raw_packet.raw_data_len)

-- A layer of the packet grows by one byte in the middle, and the place of the next one moves.
extended_layer : summary (extend_layer 5 packet (some 0) 1 1) ≡ some (6, inside 3, 6)
unfolding extend_layer resize_layers make_room reallocate_raw_data set_pointers get_header_len
    header_at insert_data reallocate_data move_bytes load_bytes store_bytes
extended_layer = refl

shortened_layer : summary (shorten_layer 5 packet (some 0) 1 1) ≡ some (4, inside 1, 4)
unfolding shorten_layer resize_layers get_header_len header_at remove_data move_bytes load_bytes
    store_bytes
shortened_layer = refl
