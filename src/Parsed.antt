-- ===== src/Parsed.antt =====
-- What the reassemblers and the packet utilities read of a parsed Packet: the fields of the layers
-- that getLayerOfType finds, and the answers of isPacketOfType. Numbers wider than a byte are those
-- of the packed header structs on a little-endian host; be16toh and be32toh turn them round. The
-- addresses are those of Common++/header/IpAddress.h.
pub mod Endian
use pcap_plus_plus.Prelude.{
  ℕ, Bool, true, false, not, ◌&&◌, Option, List, [], ◌∷◌, ◌==◌, if◌then◌else◌,
}

pub data IpAddress : Type 0 where
  ipv4 : ℕ → IpAddress
  ipv6 : List ℕ → IpAddress

-- memcmp(a, b, n) == 0
unfoldable pub bytes_eq : List ℕ → List ℕ → Bool
bytes_eq [] [] = true
bytes_eq [] (b ∷ bs) = false
bytes_eq (a ∷ as') [] = false
bytes_eq (a ∷ as') (b ∷ bs) = a == b && bytes_eq as' bs

-- memcmp with IPv6Address::Zero
unfoldable pub all_zero : List ℕ → Bool
all_zero [] = true
all_zero (b ∷ bs) = b == 0 && all_zero bs

-- IPAddress::isValid
unfoldable pub is_valid : IpAddress → Bool
is_valid (ipv4 a) = not (a == 0)
is_valid (ipv6 a) = not (all_zero a)

-- IPAddress::operator==
unfoldable pub ip_eq : IpAddress → IpAddress → Bool
ip_eq (ipv4 a) (ipv4 b) = a == b
ip_eq (ipv4 a) (ipv6 b) = false
ip_eq (ipv6 a) (ipv4 b) = false
ip_eq (ipv6 a) (ipv6 b) = bytes_eq a b

pub record Timeval : Type 0 where
  pub sec : ℕ
  pub usec : ℕ

pub record Ipv4Header : Type 0 where
  pub ip_src : ℕ
  pub ip_dst : ℕ
  pub protocol : ℕ

pub record Ipv6Header : Type 0 where
  pub ip_src : List ℕ
  pub ip_dst : List ℕ
  pub next_header : ℕ

pub record TcpSegment : Type 0 where
  pub port_src : ℕ
  pub port_dst : ℕ
  pub sequence_number : ℕ
  pub syn_flag : Bool
  pub fin_flag : Bool
  pub rst_flag : Bool
  pub payload : List ℕ

pub record UdpPorts : Type 0 where
  pub port_src : ℕ
  pub port_dst : ℕ

pub record Packet : Type 0 where
  pub is_ipv4 : Bool
  pub is_ipv6 : Bool
  pub is_icmp : Bool
  pub is_tcp : Bool
  pub is_udp : Bool
  pub ipv4_layer : Option Ipv4Header
  pub ipv6_layer : Option Ipv6Header
  pub tcp_layer : Option TcpSegment
  pub udp_layer : Option UdpPorts
  pub time_stamp : Timeval
