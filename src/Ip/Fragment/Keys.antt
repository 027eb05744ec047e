-- ===== src/Ip/Fragment/Keys.antt =====
-- A key that was made from a fragment leads to the entry of that fragment.
use pcap_plus_plus.Prelude.{ℕ, ◌<◌, ◌≡◌, some, List, none, Option, arith}
use pcap_plus_plus.Parsed.Endian.{swap16, swap32}
use pcap_plus_plus.Ip.Fragment.{
  IpLayer, over_ipv4, over_ipv6, FragHeader, PacketKey, hash_packet, create_packet_key,
  get_hash_value,
}

swap16-swap16 : (n : ℕ) → n < 0x1_0000 → swap16 (swap16 n) ≡ n
unfolding swap16
swap16-swap16 n h = omega arith

swap16-lt : (n : ℕ) → swap16 n < 0x1_0000
unfolding swap16
swap16-lt n = omega arith

swap32-swap32 : (n : ℕ) → n < 0x1_0000_0000 → swap32 (swap32 n) ≡ n
unfolding swap32 swap16
swap32-swap32 n h = omega arith

-- The identification of a layer fits its header field.
abbrev pub IdFits : IpLayer → Type 0
IdFits (over_ipv4 h) = h.ip_id < 0x1_0000
IdFits (over_ipv6 h) = elim h.frag_header [ none ↦ Unit {0} | some f ↦ f.id < 0x1_0000_0000 ]

ipv6_case :
    (src dst : List ℕ) (o : Option FragHeader) (key : PacketKey)
    → let l = over_ipv6 (record { ip_src = src; ip_dst = dst; frag_header = o }) in
      IdFits l → create_packet_key l ≡ some key → get_hash_value key ≡ hash_packet l
unfolding create_packet_key get_hash_value hash_packet
ipv6_case src dst none key fits made = cc
ipv6_case src dst (some f) key fits made = ground (arith, swap32-swap32 f.id)

-- The key of a fragment, as its users pass it to getCurrentPacket and removePacket, has the hash
-- under which processPacket files the fragment, where the identification fits its header field.
pub get_hash_value-create_packet_key :
    (l : IpLayer) (key : PacketKey)
    → IdFits l
    → create_packet_key l ≡ some key
    → get_hash_value key ≡ hash_packet l
unfolding create_packet_key get_hash_value hash_packet
get_hash_value-create_packet_key (over_ipv4 h) key fits made = ground (arith, swap16-swap16 h.ip_id)
get_hash_value-create_packet_key (over_ipv6 h) key fits made =
    ipv6_case h.ip_src h.ip_dst h.frag_header key fits made
