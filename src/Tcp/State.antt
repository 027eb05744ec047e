-- ===== src/Tcp/State.antt =====
-- The state of class TcpReassembly and its structs (Packet++/header/TcpReassembly.h). The callbacks'
-- calls are recorded in events, oldest first; a callback that is NULL records nothing. Times are
-- in seconds; time(NULL) is the argument now of each operation that reads it.
use mathlib.Core.List.{map}
use pcap_plus_plus.Prelude.{
  ℕ, ◌+◌, Bool, true, false, ◌&&◌, Option, none, List, [], ◌∷◌, ◌++◌, ltb, ◌==◌, if◌then◌else◌,
}
use pcap_plus_plus.Prelude.Map.{Map, insert}
use pcap_plus_plus.Parsed.{IpAddress, ipv4, Timeval}
use pcap_plus_plus.Tcp.Fragments.{Fragment, StreamData, check_fragments}

pub record ConnectionData : Type 0 where
  pub src_ip : IpAddress
  pub dst_ip : IpAddress
  pub src_port : ℕ
  pub dst_port : ℕ
  pub flow_key : ℕ
  pub start_time : Timeval
  pub end_time : Timeval

pub record OneSideData : Type 0 where
  pub src_ip : IpAddress
  pub src_port : ℕ
  pub sequence : ℕ
  pub fragments : List Fragment
  pub got_fin_or_rst : Bool

-- An index of twoSides.
pub data Side : Type 0 where
  side_0 side_1 : Side

-- prevSide is none for -1.
pub record TcpReassemblyData : Type 0 where
  pub closed : Bool
  pub num_of_sides : ℕ
  pub prev_side : Option Side
  pub first : OneSideData
  pub second : OneSideData
  pub conn_data : ConnectionData

pub data ConnectionEndReason : Type 0 where
  closed_by_fin_rst closed_manually : ConnectionEndReason

pub data Event : Type 0 where
  message_ready : Side → ConnectionData → StreamData → Event
  connection_start : ConnectionData → Event
  connection_end : ConnectionData → ConnectionEndReason → Event

pub record Config : Type 0 where
  pub remove_conn_info : Bool
  pub closed_connection_delay : ℕ
  pub max_num_to_clean : ℕ
  pub max_out_of_order_fragments : ℕ

pub record TcpReassembly : Type 0 where
  pub on_message_ready : Bool
  pub on_conn_start : Bool
  pub on_conn_end : Bool
  pub events : List Event
  pub connection_list : Map TcpReassemblyData
  pub connection_info : Map ConnectionData
  pub cleanup_list : Map (List ℕ)
  pub remove_conn_info : Bool
  pub closed_connection_delay : ℕ
  pub max_num_to_clean : ℕ
  pub max_out_of_order_fragments : ℕ
  pub purge_timepoint : ℕ

-- The constructor; the three Booleans say which callbacks are not NULL.
unfoldable pub create : Bool → Bool → Bool → Config → ℕ → TcpReassembly
create on_message on_start on_end config now = record {
  on_message_ready = on_message;
  on_conn_start = on_start;
  on_conn_end = on_end;
  events = [];
  connection_list = [];
  connection_info = [];
  cleanup_list = [];
  remove_conn_info = config.remove_conn_info;
  closed_connection_delay =
      if ltb 0 config.closed_connection_delay then config.closed_connection_delay else 5;
  max_num_to_clean =
      if config.remove_conn_info && config.max_num_to_clean == 0
      then 30
      else config.max_num_to_clean;
  max_out_of_order_fragments = config.max_out_of_order_fragments;
  purge_timepoint = now + 1;
}

abbrev pub no_time : Timeval
no_time = record { sec = 0; usec = 0 }

-- TcpOneSideData(), with the default IPAddress.
abbrev pub new_side : OneSideData
new_side = record {
  src_ip = ipv4 0;
  src_port = 0;
  sequence = 0;
  fragments = [];
  got_fin_or_rst = false;
}

-- TcpReassemblyData() with the connection data that reassemblePacket gives it.
unfoldable pub new_connection : ConnectionData → TcpReassemblyData
new_connection c = record {
  closed = false;
  num_of_sides = 0;
  prev_side = none;
  first = new_side;
  second = new_side;
  conn_data = c;
}

-- twoSides[side]
abbrev pub get_side : TcpReassemblyData → Side → OneSideData
get_side d side_0 = d.first
get_side d side_1 = d.second

abbrev pub set_side : TcpReassemblyData → Side → OneSideData → TcpReassemblyData
set_side d side_0 s = record d { first = s }
set_side d side_1 s = record d { second = s }

-- 1 - side
abbrev pub other_side : Side → Side
other_side side_0 = side_1
other_side side_1 = side_0

abbrev pub same_side : Side → Side → Bool
same_side side_0 side_0 = true
same_side side_0 side_1 = false
same_side side_1 side_0 = false
same_side side_1 side_1 = true

-- A change through the pointer to the entry of a flow key.
unfoldable pub store : TcpReassembly → ℕ → TcpReassemblyData → TcpReassembly
store r key d = record r { connection_list = insert key d r.connection_list }

unfoldable pub send_messages :
    TcpReassembly → Side → ConnectionData → List StreamData → TcpReassembly
send_messages r side c ms =
    if r.on_message_ready
    then record r { events = r.events ++ map (message_ready side c) ms }
    else r

unfoldable pub send_start : TcpReassembly → ConnectionData → TcpReassembly
send_start r c =
    if r.on_conn_start then record r { events = r.events ++ connection_start c ∷ [] } else r

unfoldable pub send_end : TcpReassembly → ConnectionData → ConnectionEndReason → TcpReassembly
send_end r c reason =
    if r.on_conn_end then record r { events = r.events ++ connection_end c reason ∷ [] } else r

-- checkOutOfOrderFragments on one side: its effect on the connection, and the messages it sends.
unfoldable pub checked_side : ℕ → Bool → OneSideData → OneSideData
checked_side limit clean s =
    let q = check_fragments clean limit s.sequence s.fragments in
    record s { sequence = q.sequence; fragments = q.fragments }

unfoldable pub checked_data : ℕ → Bool → TcpReassemblyData → Side → TcpReassemblyData
checked_data limit clean d side = set_side d side (checked_side limit clean (get_side d side))

unfoldable pub checked_messages : ℕ → Bool → TcpReassemblyData → Side → List StreamData
checked_messages limit clean d side =
    (check_fragments clean limit (get_side d side).sequence (get_side d side).fragments).sent
