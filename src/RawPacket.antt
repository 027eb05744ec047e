-- ===== src/RawPacket.antt =====
-- Class RawPacket (Packet++/src/RawPacket.cpp, Packet++/header/RawPacket.h). m_RawData is NULL, a
-- pointer to freed memory or a buffer of some size, of which m_RawDataLen bytes are the packet. An
-- operation returns none where the source reads or writes outside of the buffer or frees it twice.
-- The int arguments are not negative, and but for reallocateData's the sizes fit an int.
pub mod Buffers
pub mod Edit
pub mod Ownership
use pcap_plus_plus.Prelude.{
  ℕ, ◌+◌, ◌-◌, ◌*◌, ◌%◌, Bool, true, false, not, ◌&&◌, ◌||◌, Option, none, some, List, [], ◌++◌,
  ltb, leb, ◌==◌, if◌then◌else◌, length, take, drop, replicate,
}
use pcap_plus_plus.Parsed.{Timeval}

pub data RawData : Type 0 where
  null freed : RawData
  live : List ℕ → RawData

pub record Timespec : Type 0 where
  pub sec : ℕ
  pub nsec : ℕ

-- TIMEVAL_TO_TIMESPEC
unfoldable pub timeval_to_timespec : Timeval → Timespec
timeval_to_timespec t = record { sec = t.sec; nsec = t.usec * 1000 }

pub record RawPacket : Type 0 where
  pub raw_data : RawData
  pub raw_data_len : ℕ
  pub frame_length : ℕ
  pub time_stamp : Timespec
  pub delete_at_destructor : Bool
  pub raw_packet_set : Bool
  pub link_layer_type : ℕ

-- n bytes read at an offset
unfoldable pub load_bytes : RawData → ℕ → ℕ → Option (List ℕ)
load_bytes null at n = none
load_bytes freed at n = none
load_bytes (live buf) at n = if leb (at + n) (length buf) then some (take n (drop at buf)) else none

-- The bytes written at an offset.
unfoldable pub store_bytes : RawData → ℕ → List ℕ → Option RawData
store_bytes null at xs = none
store_bytes freed at xs = none
store_bytes (live buf) at xs =
    if leb (at + length xs) (length buf)
    then some (live (take at buf ++ xs ++ drop (at + length xs) buf))
    else none

-- memmove inside of the buffer
unfoldable pub move_bytes : RawData → ℕ → ℕ → ℕ → Option RawData
move_bytes d to from n = elim (load_bytes d from n) [ none ↦ none | some xs ↦ store_bytes d to xs ]

-- delete[]
unfoldable pub free : RawData → Option RawData
free null = some null
free freed = none
free (live buf) = some freed

-- init, on memory that holds some packet.
unfoldable pub init : RawPacket → Bool → RawPacket
init p delete = record p {
  raw_data = null;
  raw_data_len = 0;
  frame_length = 0;
  delete_at_destructor = delete;
  raw_packet_set = false;
  link_layer_type = 1;
}

unfoldable pub copy_data_from : RawPacket → RawPacket → Bool → Option RawPacket
copy_data_from p other allocate =
    let stamped = record p { time_stamp = other.time_stamp } in
    let target =
      if allocate
      then record stamped {
        delete_at_destructor = true;
        raw_data = live (replicate other.raw_data_len 0);
        raw_data_len = other.raw_data_len;
      }
      else stamped in
    if not other.raw_packet_set
    then some p
    else elim (load_bytes other.raw_data 0 other.raw_data_len) [
      | none ↦ none
      | some xs ↦ elim (store_bytes target.raw_data 0 xs) [
        | none ↦ none
        | some d ↦ some (record target {
          raw_data = d;
          link_layer_type = other.link_layer_type;
          frame_length = other.frame_length;
          raw_packet_set = true;
        })
      ]
    ]

-- The copy constructor, on memory that holds some packet.
unfoldable pub copy_construct : RawPacket → RawPacket → Option RawPacket
copy_construct memory other = copy_data_from (record memory { raw_data = null }) other true

-- operator= from another object
unfoldable pub assign : RawPacket → RawPacket → Option RawPacket
assign p other = elim (free p.raw_data) [
  | none ↦ none
  | some d ↦ copy_data_from (record p { raw_data = d; raw_packet_set = false }) other true
]

-- setRawData; frameLength is none for -1. The old buffer is freed if it is owned.
unfoldable pub set_raw_data : RawPacket → List ℕ → ℕ → Timespec → ℕ → Option ℕ → Option RawPacket
set_raw_data p buf len time layer_type frame =
    let next = record p {
      raw_data = live buf;
      raw_data_len = len;
      frame_length = elim frame [ none ↦ len | some n ↦ n ];
      time_stamp = time;
      raw_packet_set = true;
      link_layer_type = layer_type;
    } in
    if p.delete_at_destructor
    then elim (free p.raw_data) [ none ↦ none | some d ↦ some next ]
    else some next

-- setRawData with a timeval
unfoldable pub set_raw_data_timeval :
    RawPacket → List ℕ → ℕ → Timeval → ℕ → Option ℕ → Option RawPacket
set_raw_data_timeval p buf len time layer_type frame =
    set_raw_data p buf len (timeval_to_timespec time) layer_type frame

-- setPacketTimeStamp, which answers true
unfoldable pub set_packet_time_stamp : RawPacket → Timespec → RawPacket
set_packet_time_stamp p time = record p { time_stamp = time }

-- The constructors that take the data.
unfoldable pub construct : RawPacket → List ℕ → ℕ → Timespec → Bool → ℕ → Option RawPacket
construct memory buf len time delete layer_type =
    set_raw_data (init memory delete) buf len time layer_type none

unfoldable pub clear : RawPacket → Option RawPacket
clear p = elim (free p.raw_data) [
  | none ↦ none
  | some d ↦
      some
        (record p { raw_data = null; raw_data_len = 0; frame_length = 0; raw_packet_set = false })
]

abbrev pub with_length : RawPacket → RawData → ℕ → RawPacket
with_length p d len = record p { raw_data = d; raw_data_len = len; frame_length = len }

unfoldable pub append_data : RawPacket → List ℕ → Option RawPacket
append_data p xs = elim (store_bytes p.raw_data p.raw_data_len xs) [
  | none ↦ none
  | some d ↦ some (with_length p d (p.raw_data_len + length xs))
]

-- dataToInsert is none for NULL; n is dataToInsertLen.
unfoldable pub insert_data : RawPacket → ℕ → Option (List ℕ) → ℕ → Option RawPacket
insert_data p at to_insert n =
    let filled : RawData → Option RawData =
      λ d. elim to_insert [ none ↦ some d | some xs ↦ store_bytes d at (take n xs) ] in
    if ltb p.raw_data_len at
    then none
    else elim (move_bytes p.raw_data (at + n) at (p.raw_data_len - at)) [
      | none ↦ none
      | some d ↦ elim (filled d) [
        | none ↦ none
        | some e ↦ some (with_length p e (p.raw_data_len + n))
      ]
    ]

-- The new packet and the answer. The tests are on the size as an int, which is negative from 2^31 on.
unfoldable pub reallocate_data : RawPacket → ℕ → Option (RawPacket × Bool)
reallocate_data p size =
    let word = size % 0x1_0000_0000 in
    let negative = leb 0x8000_0000 word in
    if not negative && word == p.raw_data_len
    then some (p, true)
    else if negative || ltb word p.raw_data_len
    then some (p, false)
    else elim (load_bytes p.raw_data 0 p.raw_data_len) [
      | none ↦ none
      | some xs ↦ elim (store_bytes (live (replicate size 0)) 0 xs) [
        | none ↦ none
        | some d ↦ some (record p { raw_data = d; delete_at_destructor = true }, true)
      ]
    ]

unfoldable pub remove_data : RawPacket → ℕ → ℕ → Option (RawPacket × Bool)
remove_data p at n =
    let moved : Option RawData =
      if at + n == p.raw_data_len
      then some p.raw_data
      else move_bytes p.raw_data at (at + n) (p.raw_data_len - (at + n)) in
    if ltb p.raw_data_len (at + n)
    then some (p, false)
    else elim moved [ none ↦ none | some d ↦ some (with_length p d (p.raw_data_len - n), true) ]
