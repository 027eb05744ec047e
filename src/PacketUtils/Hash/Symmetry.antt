-- ===== src/PacketUtils/Hash/Symmetry.antt =====
-- The two directions of a flow under hash5Tuple and hash2Tuple.
use pcap_plus_plus.Prelude.{
  ℕ, ◌≡◌, refl, Bool, true, false, ◌&&◌, ◌||◌, Option, none, some, List, ltb, ◌==◌, arith,
  Option-cases, inl, inr,
}
use pcap_plus_plus.Parsed.{Packet, Ipv4Header, Ipv6Header, TcpSegment, UdpPorts}
use pcap_plus_plus.Parsed.Endian.{bytes16, bytes32}
use pcap_plus_plus.PacketUtils.Hash.{place, ports, hash5_buffers, hash5_tuple, hash2_tuple}

reverse_ipv4 : Ipv4Header → Ipv4Header
reverse_ipv4 h = record h { ip_src = h.ip_dst; ip_dst = h.ip_src }

reverse_ipv6 : Ipv6Header → Ipv6Header
reverse_ipv6 h = record h { ip_src = h.ip_dst; ip_dst = h.ip_src }

reverse_tcp : TcpSegment → TcpSegment
reverse_tcp t = record t { port_src = t.port_dst; port_dst = t.port_src }

reverse_udp : UdpPorts → UdpPorts
reverse_udp u = record u { port_src = u.port_dst; port_dst = u.port_src }

map_option : {A : Type 0} → (A → A) → Option A → Option A
map_option f none = none
map_option f (some a) = some (f a)

-- A packet of the same flow in the other direction.
pub reverse : Packet → Packet
unfolding reverse_ipv4 reverse_ipv6 reverse_tcp reverse_udp map_option
reverse p = record p {
  ipv4_layer = map_option reverse_ipv4 p.ipv4_layer;
  ipv6_layer = map_option reverse_ipv6 p.ipv6_layer;
  tcp_layer = map_option reverse_tcp p.tcp_layer;
  udp_layer = map_option reverse_udp p.udp_layer;
}

-- The order of two buffers by a number of theirs does not depend on which one comes first.
place_symm : (f : ℕ → List ℕ) (s d : ℕ) → place (ltb s d) (f d) (f s) ≡ place (ltb d s) (f s) (f d)
place_symm f s d = ground arith

addresses_symm :
    (f : ℕ → List ℕ) (sp dp s d : ℕ)
    → place (ltb sp dp || (dp == sp && ltb s d)) (f d) (f s)
      ≡ place (ltb dp sp || (sp == dp && ltb d s)) (f s) (f d)
addresses_symm f sp dp s d = ground arith

hash5_buffers-reverse :
    (p : Packet) (h : Ipv4Header) (s d : ℕ)
    → p.ipv4_layer ≡ some h
    → hash5_buffers false d s (reverse p) ≡ hash5_buffers false s d p
unfolding hash5_buffers reverse
hash5_buffers-reverse p h s d e =
    rw (e, hash5_buffers)
      (rw (place_symm bytes16 s d, addresses_symm bytes32 s d h.ip_src h.ip_dst) refl)

swap_ports : Option (ℕ × ℕ) → Option (ℕ × ℕ)
swap_ports none = none
swap_ports (some (s, d)) = some (d, s)

ports-reverse : (p : Packet) → ports (reverse p) ≡ swap_ports (ports p)
unfolding ports reverse swap_ports
ports-reverse p = ground arith

-- The tests that hash5Tuple makes before it reads the ports.
module _ (p : Packet) (direction_unique : Bool) where
  hash5_tuple-reverse_of :
      ((s d : ℕ)
        → ports p ≡ some (s, d)
        → hash5_buffers direction_unique d s (reverse p) ≡ hash5_buffers direction_unique s d p)
      → hash5_tuple (reverse p) direction_unique ≡ hash5_tuple p direction_unique
  unfolding hash5_tuple swap_ports
  hash5_tuple-reverse_of same = elim (Option-cases (ports p)) [
    | inl e ↦ rw (ports-reverse p, e) (unfold reverse in refl)
    | inr ((s, d), e) ↦ rw (ports-reverse p, e) (rw (same s d e) (unfold reverse in refl))
  ]

-- Without directionUnique, hash5Tuple gives both directions of an IPv4 flow the same value.
pub hash5_tuple-reverse :
    (p : Packet) (h : Ipv4Header)
    → p.ipv4_layer ≡ some h
    → hash5_tuple (reverse p) false ≡ hash5_tuple p false
hash5_tuple-reverse p h e =
    hash5_tuple-reverse_of p false (λ s d same. hash5_buffers-reverse p h s d e)

-- hash2Tuple gives both directions of an IPv4 flow the same value.
pub hash2_tuple-reverse :
    (p : Packet) (h : Ipv4Header) → p.ipv4_layer ≡ some h → hash2_tuple (reverse p) ≡ hash2_tuple p
unfolding hash2_tuple reverse
hash2_tuple-reverse p h e = rw (e, hash2_tuple) (rw (place_symm bytes32 h.ip_src h.ip_dst) refl)

equal_ports_place :
    (f : ℕ → List ℕ) (s d : ℕ) → place (ltb d s) (f s) (f d) ≡ place (ltb s d) (f d) (f s)
equal_ports_place f s d = ground arith

equal_ports_buffers :
    (p : Packet) (h : Ipv4Header) (s : ℕ)
    → p.ipv4_layer ≡ some h
    → hash5_buffers true s s (reverse p) ≡ hash5_buffers true s s p
unfolding hash5_buffers reverse
equal_ports_buffers p h s e =
    rw (e, hash5_buffers) (ground (arith, equal_ports_place bytes32 h.ip_src h.ip_dst))

-- Where source and destination port of an IPv4 flow are equal, hash5Tuple gives both directions the
-- same value with directionUnique too.
pub hash5_tuple_equal_ports :
    (p : Packet) (h : Ipv4Header) (s : ℕ)
    → p.ipv4_layer ≡ some h
    → ports p ≡ some (s, s)
    → hash5_tuple (reverse p) true ≡ hash5_tuple p true
unfolding hash5_tuple swap_ports
hash5_tuple_equal_ports p h s e q =
    rw (ports-reverse p, q) (rw (equal_ports_buffers p h s e) (unfold reverse in refl))
