-- ===== src/PacketUtils/Hash.antt =====
-- fnvHash, hash5Tuple and hash2Tuple. The result none stands for a read through a NULL layer.
pub mod Symmetry
use Prim.Native.Nat.{bit_xor}
use pcap_plus_plus.Prelude.{
  ℕ, ◌*◌, ◌%◌, ◌+◌, ◌≡◌, refl, Bool, true, false, not, ◌&&◌, ◌||◌, Option, none, some, List, [],
  ◌∷◌, ◌++◌, ltb, ◌==◌, if◌then◌else◌, arith,
}
use pcap_plus_plus.Prelude.Words.{u32_mod}
use pcap_plus_plus.Parsed.{Packet, Ipv4Header, Ipv6Header, TcpSegment}
use pcap_plus_plus.Parsed.Endian.{bytes16, bytes32}

abbrev fnv_prime : ℕ
fnv_prime = 16777619

abbrev offset_basis : ℕ
offset_basis = 2166136261

-- The inner loop, over one buffer.
unfoldable pub fnv_buffer : ℕ → List ℕ → ℕ
fnv_buffer hash [] = hash
fnv_buffer hash (b ∷ bs) = fnv_buffer (bit_xor (hash * fnv_prime % u32_mod) b) bs

-- The outer loop, over the buffers.
unfoldable pub fnv_from : ℕ → List (List ℕ) → ℕ
fnv_from hash [] = hash
fnv_from hash (v ∷ vs) = fnv_from (fnv_buffer hash v) vs

unfoldable pub fnv_hash : List (List ℕ) → ℕ
fnv_hash vec = fnv_from offset_basis vec

-- vec[k + position] = a and vec[k + 1 - position] = b
abbrev pub place : Bool → List ℕ → List ℕ → List (List ℕ)
place swapped a b = if swapped then b ∷ a ∷ [] else a ∷ b ∷ []

-- The ports, from the TCP layer or else the UDP layer.
unfoldable pub ports : Packet → Option (ℕ × ℕ)
ports p = elim p.tcp_layer [
  | some t ↦ some (t.port_src, t.port_dst)
  | none ↦ elim p.udp_layer [ some u ↦ some (u.port_src, u.port_dst) | none ↦ none ]
]

-- (uint64_t)ipDst < (uint64_t)ipSrc in the IPv6 branches compares where the two arrays of one
-- header stand, not what they hold, and ipDst stands behind ipSrc.
abbrev pub dst_array_below_src_array : Bool
dst_array_below_src_array = false

-- The last three buffers of hash5Tuple.
unfoldable pub hash5_addresses : Bool → ℕ → ℕ → Packet → Option (List (List ℕ))
hash5_addresses swapped port_src port_dst p = elim p.ipv4_layer [
  | some h ↦ some (
      place (swapped || (port_src == port_dst && ltb h.ip_dst h.ip_src)) (bytes32 h.ip_src)
        (bytes32 h.ip_dst)
      ++ (h.protocol ∷ []) ∷ [])
  | none ↦ elim p.ipv6_layer [
    | some h ↦ some (
        place (swapped || (port_src == port_dst && dst_array_below_src_array)) h.ip_src h.ip_dst
        ++ (h.next_header ∷ []) ∷ [])
    | none ↦ none
  ]
]

unfoldable pub hash5_buffers : Bool → ℕ → ℕ → Packet → Option ℕ
unfolding hash5_addresses
hash5_buffers direction_unique port_src port_dst p =
    let swapped = not direction_unique && ltb port_dst port_src in
    elim (hash5_addresses swapped port_src port_dst p) [
      | none ↦ none
      | some vec ↦ some (fnv_hash (place swapped (bytes16 port_src) (bytes16 port_dst) ++ vec))
    ]

unfoldable pub hash5_tuple : Packet → Bool → Option ℕ
unfolding hash5_buffers ports
hash5_tuple p direction_unique =
    if not p.is_ipv4 && not p.is_ipv6
    then some 0
    else if p.is_icmp
    then some 0
    else if not p.is_tcp && not p.is_udp
    then some 0
    else elim (ports p) [ none ↦ none | some (s, d) ↦ hash5_buffers direction_unique s d p ]

-- The buffers of hash2Tuple.
unfoldable pub hash2_addresses : Packet → Option (List (List ℕ))
hash2_addresses p = elim p.ipv4_layer [
  | some h ↦ some (place (ltb h.ip_dst h.ip_src) (bytes32 h.ip_src) (bytes32 h.ip_dst))
  | none ↦ elim p.ipv6_layer [
    | some h ↦
        some (place (dst_array_below_src_array && dst_array_below_src_array) h.ip_src h.ip_dst)
    | none ↦ none
  ]
]

unfoldable pub hash2_tuple : Packet → Option ℕ
unfolding hash2_addresses
hash2_tuple p =
    if not p.is_ipv4 && not p.is_ipv6
    then some 0
    else elim (hash2_addresses p) [ none ↦ none | some vec ↦ some (fnv_hash vec) ]
