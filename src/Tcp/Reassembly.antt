-- ===== src/Tcp/Reassembly.antt =====
-- TcpReassembly::reassemblePacket and handleFinOrRst. The branches of reassemblePacket are functions
-- of their own, in the order of the source.
pub mod Delivery
pub mod Ending
use pcap_plus_plus.Prelude.{
  ℕ, ◌+◌, ◌≡◌, ◌⊎◌, inl, inr, Bool, true, false, not, ◌&&◌, ◌||◌, Option, none, some, List, [], ◌∷◌,
  ◌++◌, ltb, leb, ◌==◌, if◌then◌else◌, length, drop,
}
use pcap_plus_plus.Prelude.Words.{add32, sub32}
use pcap_plus_plus.Prelude.Map.{lookup, insert}
use pcap_plus_plus.Parsed.{IpAddress, ipv4, ipv6, is_valid, ip_eq, Timeval, TcpSegment, Packet}
use pcap_plus_plus.Parsed.Endian.{swap16, swap32}
use pcap_plus_plus.PacketUtils.Hash.{hash5_tuple}
use pcap_plus_plus.Tcp.Seq.{seq_lt, seq_gt}
use pcap_plus_plus.Tcp.Fragments.{StreamData}
use pcap_plus_plus.Tcp.State.{
  TcpReassembly, TcpReassemblyData, ConnectionData, Side, side_0, side_1, closed_by_fin_rst,
  no_time, new_connection, get_side, set_side, other_side, same_side, store, send_messages,
  send_start, checked_data, checked_messages,
}
use pcap_plus_plus.Tcp.Connections.{close_connection_internal, purge_closed_connections}

pub data ReassemblyStatus : Type 0 where
  tcp_message_handled out_of_order_tcp_message_buffered fin_rst_with_no_data : ReassemblyStatus
  ignore_packet_with_no_data ignore_packet_of_closed_flow ignore_retransimission : ReassemblyStatus
  non_ip_packet non_tcp_packet error_packet_does_not_match_flow : ReassemblyStatus

-- What reassemblePacket has read of the packet when it looks for the connection; ports as stored in
-- the header, the sequence in host order.
pub record Arrival : Type 0 where
  pub src_ip : IpAddress
  pub dst_ip : IpAddress
  pub src_port : ℕ
  pub dst_port : ℕ
  pub sequence : ℕ
  pub syn : Bool
  pub fin_or_rst : Bool
  pub payload : List ℕ
  pub flow_key : ℕ
  pub time_stamp : Timeval

-- The connection's entry is changed through a pointer; it is stored where the source leaves it.
unfoldable pub handle_fin_or_rst : TcpReassembly → TcpReassemblyData → Side → ℕ → ℕ → TcpReassembly
handle_fin_or_rst r d side key now =
    let s = get_side d side in
    let d' = set_side d side (record s { got_fin_or_rst = true }) in
    let limit = r.max_out_of_order_fragments in
    if s.got_fin_or_rst
    then store r key d
    else if (get_side d (other_side side)).got_fin_or_rst
    then close_connection_internal (store r key d') key closed_by_fin_rst now
    else store (send_messages r side d.conn_data (checked_messages limit true d' side)) key
        (checked_data limit true d' side)

-- "handle case where this packet is FIN or RST", else the change is left in place.
unfoldable pub finish : Bool → TcpReassembly → TcpReassemblyData → Side → ℕ → ℕ → TcpReassembly
finish fin_or_rst r d side key now =
    if fin_or_rst then handle_fin_or_rst r d side key now else store r key d

-- The data of one message, if there is any.
abbrev pub message_of : List ℕ → List StreamData
message_of [] = []
message_of (b ∷ bs) = record { bytes = b ∷ bs; missing = 0 } ∷ []

abbrev pub syn_length : Bool → ℕ
syn_length syn = if syn then 1 else 0

abbrev pub set_sequence : TcpReassemblyData → Side → ℕ → TcpReassemblyData
set_sequence d side seq = set_side d side (record (get_side d side) { sequence = seq })

-- The first packet of a side.
unfoldable pub first_packet :
    TcpReassembly → TcpReassemblyData → Side → Arrival → ℕ → TcpReassembly × ReassemblyStatus
first_packet r d side a now =
    let seq = add32 a.sequence (length a.payload + syn_length a.syn) in
    let r' = send_messages r side d.conn_data (message_of a.payload) in
    (finish a.fin_or_rst r' (set_sequence d side seq) side a.flow_key now, tcp_message_handled)

-- The packet starts before the expected sequence.
unfoldable pub retransmission :
    TcpReassembly → TcpReassemblyData → Side → Arrival → ℕ → TcpReassembly × ReassemblyStatus
retransmission r d side a now =
    let expected = (get_side d side).sequence in
    let new_sequence = add32 a.sequence (length a.payload) in
    let new_length = sub32 expected a.sequence in
    let d' = set_sequence d side (add32 expected (sub32 (length a.payload) new_length)) in
    let message : List StreamData =
      record { bytes = drop new_length a.payload; missing = 0 } ∷ [] in
    if seq_gt new_sequence expected
    then (
      finish a.fin_or_rst (send_messages r side d.conn_data message) d' side a.flow_key now,
      tcp_message_handled,
    )
    else (finish a.fin_or_rst r d side a.flow_key now, ignore_retransimission)

-- An empty packet at or behind the expected sequence.
unfoldable pub empty_packet :
    TcpReassembly → TcpReassemblyData → Side → Arrival → ℕ → TcpReassembly × ReassemblyStatus
empty_packet r d side a now = (
  finish a.fin_or_rst r d side a.flow_key now,
  if a.fin_or_rst then fin_rst_with_no_data else ignore_packet_with_no_data,
)

-- The packet has data at the expected sequence.
unfoldable pub expected_packet :
    TcpReassembly → TcpReassemblyData → Side → Arrival → ℕ → TcpReassembly × ReassemblyStatus
expected_packet r d side a now =
    let limit = r.max_out_of_order_fragments in
    let seq = add32 (get_side d side).sequence (length a.payload + syn_length a.syn) in
    let d' = set_sequence d side seq in
    let r₁ = send_messages r side d.conn_data (record { bytes = a.payload; missing = 0 } ∷ []) in
    let r₂ = send_messages r₁ side d.conn_data (checked_messages limit false d' side) in
    (
      finish a.fin_or_rst r₂ (checked_data limit false d' side) side a.flow_key now,
      tcp_message_handled,
    )

abbrev pub push_fragment : TcpReassemblyData → Side → Arrival → TcpReassemblyData
push_fragment d side a =
    let s = get_side d side in
    set_side d side (record s {
      fragments = s.fragments ++ record { sequence = a.sequence; payload = a.payload } ∷ [];
    })

-- The packet has data behind the expected sequence.
unfoldable pub out_of_order_packet :
    TcpReassembly → TcpReassemblyData → Side → Arrival → ℕ → TcpReassembly × ReassemblyStatus
out_of_order_packet r d side a now =
    let limit = r.max_out_of_order_fragments in
    let d' = push_fragment d side a in
    let full = ltb 0 limit && ltb limit (length (get_side d' side).fragments) in
    let r' = send_messages r side d.conn_data (checked_messages limit false d' side) in
    (
      if full
          then finish a.fin_or_rst r' (checked_data limit false d' side) side a.flow_key now
          else finish a.fin_or_rst r d' side a.flow_key now,
      out_of_order_tcp_message_buffered,
    )

-- From "if it's the first packet we see on this side of the connection" on.
unfoldable pub handle_data :
    TcpReassembly → TcpReassemblyData → Side → Bool → Arrival → ℕ → TcpReassembly × ReassemblyStatus
handle_data r d side is_first a now =
    let expected = (get_side d side).sequence in
    if is_first
    then first_packet r d side a now
    else if seq_lt a.sequence expected
    then retransmission r d side a now
    else if length a.payload == 0
    then empty_packet r d side a now
    else if a.sequence == expected
    then expected_packet r d side a now
    else out_of_order_packet r d side a now

-- A message from the other side makes the previous side's buffered fragments count as missing data.
unfoldable pub cleaned_side : TcpReassemblyData → Side → Bool → Arrival → Option Side
cleaned_side d side is_first a = elim d.prev_side [
  | none ↦ none
  | some previous ↦
      if not is_first
        && ltb 0 (length a.payload)
        && not (same_side previous side)
        && ltb 0 (length (get_side d previous).fragments)
      then some previous
      else none
]

unfoldable pub handle_side :
    TcpReassembly → TcpReassemblyData → Side → Bool → Arrival → ℕ → TcpReassembly × ReassemblyStatus
handle_side r d side is_first a now =
    let limit = r.max_out_of_order_fragments in
    if (get_side d side).got_fin_or_rst
    then (store r a.flow_key d, ignore_packet_of_closed_flow)
    else if a.fin_or_rst && length a.payload == 0
    then (handle_fin_or_rst r d side a.flow_key now, fin_rst_with_no_data)
    else elim (cleaned_side d side is_first a) [
      | none ↦ handle_data r (record d { prev_side = some side }) side is_first a now
      | some previous ↦
          handle_data
            (send_messages r previous d.conn_data (checked_messages limit true d previous))
            (record (checked_data limit true d previous) { prev_side = some side }) side is_first a
            now
    ]

-- twoSides[side] is the packet's source
unfoldable pub matches_side : TcpReassemblyData → Side → Arrival → Bool
matches_side d side a =
    (get_side d side).src_port == a.src_port && ip_eq (get_side d side).src_ip a.src_ip

abbrev pub open_side : TcpReassemblyData → Side → Arrival → TcpReassemblyData
open_side d side a =
    record (set_side d side
      (record (get_side d side) { src_ip = a.src_ip; src_port = a.src_port })) {
        num_of_sides = d.num_of_sides + 1;
      }

-- The side of the packet, whether it is that side's first packet, and the sides as they are then.
unfoldable pub choose_side : TcpReassemblyData → Arrival → Option (Side × Bool × TcpReassemblyData)
choose_side d a =
    if d.num_of_sides == 0
    then some (side_0, true, open_side d side_0 a)
    else if d.num_of_sides == 1
    then (if matches_side d side_0 a
        then some (side_0, false, d)
        else some (side_1, true, open_side d side_1 a))
    else if d.num_of_sides == 2
    then (if matches_side d side_0 a
        then some (side_0, false, d)
        else (if matches_side d side_1 a then some (side_1, false, d) else none))
    else none

unfoldable pub handle_connection :
    TcpReassembly → TcpReassemblyData → Arrival → ℕ → TcpReassembly × ReassemblyStatus
handle_connection r d a now = elim (choose_side d a) [
  | none ↦ (store r a.flow_key d, error_packet_does_not_match_flow)
  | some (side, is_first, d') ↦ handle_side r d' side is_first a now
]

-- Whether the packet is later than the connection's end time.
unfoldable pub is_later : Timeval → Timeval → Bool
is_later t end_time = ltb end_time.sec t.sec || (t.sec == end_time.sec && ltb end_time.usec t.usec)

unfoldable pub updated_end_time : TcpReassemblyData → Timeval → TcpReassemblyData
updated_end_time d t =
    if is_later t d.conn_data.end_time
    then record d { conn_data = record (d.conn_data) { end_time = t } }
    else d

unfoldable pub new_connection_data : Arrival → ConnectionData
new_connection_data a = record {
  src_ip = a.src_ip;
  dst_ip = a.dst_ip;
  src_port = swap16 a.src_port;
  dst_port = swap16 a.dst_port;
  flow_key = a.flow_key;
  start_time = a.time_stamp;
  end_time = no_time;
}

unfoldable pub start_connection : TcpReassembly → ConnectionData → ℕ → TcpReassembly
start_connection r c key =
    send_start
      (record r {
        connection_list = insert key (new_connection c) r.connection_list;
        connection_info = insert key c r.connection_info;
      })
      c

-- From the search of the connection on.
unfoldable pub handle_arrival : TcpReassembly → Arrival → ℕ → TcpReassembly × ReassemblyStatus
handle_arrival r a now = elim (lookup a.flow_key r.connection_list) [
  | none ↦
      let c = new_connection_data a in
      handle_connection (start_connection r c a.flow_key) (new_connection c) a now
  | some d ↦
      if d.closed
      then (r, ignore_packet_of_closed_flow)
      else handle_connection r (updated_end_time d a.time_stamp) a now
]

-- Source and destination address, none for NonIpPacket.
unfoldable pub endpoints : Packet → Option (IpAddress × IpAddress)
endpoints p =
    if p.is_ipv4
    then elim p.ipv4_layer [ none ↦ none | some h ↦ some (ipv4 h.ip_src, ipv4 h.ip_dst) ]
    else if p.is_ipv6
    then elim p.ipv6_layer [ none ↦ none | some h ↦ some (ipv6 h.ip_src, ipv6 h.ip_dst) ]
    else none

-- The flow key of a packet that has come so far; hash5_tuple reads no NULL layer there.
unfoldable pub flow_key_of : Packet → ℕ
flow_key_of p = elim (hash5_tuple p false) [ none ↦ 0 | some key ↦ key ]

-- The checks before the connection is looked for: the packet's data, or the status to return.
unfoldable pub admit : Packet → Arrival ⊎ ReassemblyStatus
admit p = elim (endpoints p) [
  | none ↦ inr non_ip_packet
  | some (src, dst) ↦
      if not (is_valid src) || not (is_valid dst) then inr non_ip_packet else elim p.tcp_layer [
        | none ↦ inr non_tcp_packet
        | some t ↦
            let fin_or_rst = t.fin_flag || t.rst_flag in
            if p.is_icmp
            then inr non_tcp_packet
            else if length t.payload == 0 && not t.syn_flag && not fin_or_rst
            then inr ignore_packet_with_no_data
            else inl (record {
              src_ip = src;
              dst_ip = dst;
              src_port = t.port_src;
              dst_port = t.port_dst;
              sequence = swap32 t.sequence_number;
              syn = t.syn_flag;
              fin_or_rst = fin_or_rst;
              payload = t.payload;
              flow_key = flow_key_of p;
              time_stamp = p.time_stamp;
            })
      ]
]

-- The automatic cleanup.
unfoldable pub purge_if_due : TcpReassembly → ℕ → TcpReassembly
purge_if_due r now =
    if r.remove_conn_info && leb r.purge_timepoint now
    then record ((purge_closed_connections r 0 now).0) { purge_timepoint = now + 1 }
    else r

unfoldable pub reassemble_packet : TcpReassembly → Packet → ℕ → TcpReassembly × ReassemblyStatus
reassemble_packet r p now = elim (admit p) [
  | inl a ↦ handle_arrival (purge_if_due r now) a now
  | inr status ↦ (purge_if_due r now, status)
]
