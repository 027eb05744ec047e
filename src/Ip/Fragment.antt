-- ===== src/Ip/Fragment.antt =====
-- What IPReassembly reads of a packet: the fragment wrappers and keys of Packet++/src/IPReassembly.cpp
-- over the header fields of IPv4Layer and IPv6FragmentationHeader, as stored on a little-endian host.
pub mod Keys
use Prim.Native.Nat.{bit_and}
use pcap_plus_plus.Prelude.{
  ℕ, ◌+◌, ◌*◌, ◌/◌, ◌%◌, ◌≡◌, Bool, true, false, not, ◌&&◌, ◌||◌, Option, none, some, List, [], ◌∷◌,
  ◌==◌, if◌then◌else◌,
}
use pcap_plus_plus.Parsed.Endian.{swap16, swap32, bytes16, bytes32}
use pcap_plus_plus.PacketUtils.Hash.{fnv_hash}

pub record Ipv4Fields : Type 0 where
  pub ip_src : ℕ
  pub ip_dst : ℕ
  pub ip_id : ℕ
  pub fragment_offset : ℕ

-- The fragmentation extension header.
pub record FragHeader : Type 0 where
  pub id : ℕ
  pub frag_offset_and_flags : ℕ

pub record Ipv6Fields : Type 0 where
  pub ip_src : List ℕ
  pub ip_dst : List ℕ
  pub frag_header : Option FragHeader

-- The wrapper that processPacket chooses: an IPv4 layer comes before an IPv6 layer.
pub data IpLayer : Type 0 where
  over_ipv4 : Ipv4Fields → IpLayer
  over_ipv6 : Ipv6Fields → IpLayer

-- A packet: its IP layer if it has one, that layer's payload, and the bytes of its RawPacket.
pub record IpPacket : Type 0 where
  pub layer : Option IpLayer
  pub payload : List ℕ
  pub raw : List ℕ

pub data PacketKey : Type 0 where
  ipv4_key : ℕ → ℕ → ℕ → PacketKey
  ipv6_key : ℕ → List ℕ → List ℕ → PacketKey

-- IPv4Layer::getFragmentFlags and getFragmentOffset
unfoldable pub ipv4_fragment_flags : Ipv4Fields → ℕ
ipv4_fragment_flags h = bit_and h.fragment_offset 0xE0

unfoldable pub ipv4_fragment_offset : Ipv4Fields → ℕ
ipv4_fragment_offset h = swap16 (bit_and h.fragment_offset 0xFF1F) * 8 % 0x1_0000

-- PCPP_IP_MORE_FRAGMENTS is 0x20.
unfoldable pub ipv4_more_fragments : Ipv4Fields → Bool
ipv4_more_fragments h = not (bit_and (ipv4_fragment_flags h) 0x20 == 0)

-- IPv4Layer::isFragment, isFirstFragment and isLastFragment
unfoldable pub ipv4_is_fragment : Ipv4Fields → Bool
ipv4_is_fragment h = ipv4_more_fragments h || not (ipv4_fragment_offset h == 0)

unfoldable pub ipv4_is_first_fragment : Ipv4Fields → Bool
ipv4_is_first_fragment h = ipv4_is_fragment h && ipv4_fragment_offset h == 0

unfoldable pub ipv4_is_last_fragment : Ipv4Fields → Bool
ipv4_is_last_fragment h = ipv4_is_fragment h && not (ipv4_more_fragments h)

-- IPv6FragmentationHeader::getFragmentOffset and isMoreFragments
unfoldable pub ipv6_fragment_offset : FragHeader → ℕ
ipv6_fragment_offset f = swap16 (bit_and f.frag_offset_and_flags 0xF8FF) / 8 * 8

unfoldable pub ipv6_more_fragments : FragHeader → Bool
ipv6_more_fragments f = bit_and f.frag_offset_and_flags 0x0100 / 0x100 == 1

-- The wrappers' methods.
unfoldable pub is_fragment : IpLayer → Bool
is_fragment (over_ipv4 h) = ipv4_is_fragment h
is_fragment (over_ipv6 h) = elim h.frag_header [ none ↦ false | some f ↦ true ]

unfoldable pub is_first_fragment : IpLayer → Bool
is_first_fragment (over_ipv4 h) = ipv4_is_first_fragment h
is_first_fragment (over_ipv6 h) = elim h.frag_header [
  | none ↦ false
  | some f ↦ ipv6_fragment_offset f == 0
]

unfoldable pub is_last_fragment : IpLayer → Bool
is_last_fragment (over_ipv4 h) = ipv4_is_last_fragment h
is_last_fragment (over_ipv6 h) = elim h.frag_header [
  | none ↦ false
  | some f ↦ not (ipv6_more_fragments f)
]

unfoldable pub get_fragment_offset : IpLayer → ℕ
get_fragment_offset (over_ipv4 h) = ipv4_fragment_offset h
get_fragment_offset (over_ipv6 h) = elim h.frag_header [
  | none ↦ 0
  | some f ↦ ipv6_fragment_offset f
]

-- The hash of an IPv6 packet without a fragmentation header is 0.
unfoldable pub hash_packet : IpLayer → ℕ
hash_packet (over_ipv4 h) = fnv_hash (bytes32 h.ip_src ∷ bytes32 h.ip_dst ∷ bytes16 h.ip_id ∷ [])
hash_packet (over_ipv6 h) = elim h.frag_header [
  | none ↦ 0
  | some f ↦ fnv_hash (h.ip_src ∷ h.ip_dst ∷ bytes32 f.id ∷ [])
]

-- createPacketKey; without a fragmentation header the source would read a NULL pointer.
unfoldable pub create_packet_key : IpLayer → Option PacketKey
create_packet_key (over_ipv4 h) = some (ipv4_key (swap16 h.ip_id) h.ip_src h.ip_dst)
create_packet_key (over_ipv6 h) = elim h.frag_header [
  | none ↦ none
  | some f ↦ some (ipv6_key (swap32 f.id) h.ip_src h.ip_dst)
]

-- IPv4PacketKey::getHashValue and IPv6PacketKey::getHashValue
unfoldable pub get_hash_value : PacketKey → ℕ
get_hash_value (ipv4_key id src dst) =
    fnv_hash (bytes32 src ∷ bytes32 dst ∷ bytes16 (swap16 id) ∷ [])
get_hash_value (ipv6_key id src dst) = fnv_hash (src ∷ dst ∷ bytes32 (swap32 id) ∷ [])

-- IPReassemblyHashPacket and IPReassemblyHashBy3Tuple
unfoldable pub hash_by_3_tuple : ℕ → ℕ → ℕ → ℕ
hash_by_3_tuple ip_src ip_dst ip_id =
    fnv_hash (bytes32 ip_src ∷ bytes32 ip_dst ∷ bytes16 (swap16 ip_id) ∷ [])
