-- ===== src/Tests/Checksums.antt =====
-- computeChecksum of an IPv4 header.
use pcap_plus_plus.Prelude.{ℕ, ◌+◌, ◌%◌, ◌<◌, ◌≡◌, refl, List, [], ◌∷◌, arith}
use pcap_plus_plus.Prelude.Words.{add32}
use pcap_plus_plus.Parsed.Endian.{swap16}
use pcap_plus_plus.PacketUtils.Checksum.{
  add_words, fold_carry, add_buffers, compute_checksum, network_sums, compute_checksum-network_sums,
}

-- A header with its checksum field cleared, in two parts.
abbrev header : List (List ℕ)
header =
    (0x45 ∷ 0 ∷ 0 ∷ 0x73 ∷ 0 ∷ 0 ∷ 0x40 ∷ 0 ∷ 0x40 ∷ 0x11 ∷ 0 ∷ 0 ∷ [])
    ∷ (0xC0 ∷ 0xA8 ∷ 0 ∷ 1 ∷ 0xC0 ∷ 0xA8 ∷ 0 ∷ 0xC7 ∷ [])
    ∷ []

header_checksum : compute_checksum header ≡ 0xB861
unfolding compute_checksum add_buffers fold_carry add_words swap16 add32
header_checksum = refl

-- An odd number of bytes.
odd_checksum : compute_checksum ((1 ∷ 2 ∷ 3 ∷ []) ∷ []) ≡ 0xFBFD
unfolding compute_checksum add_buffers fold_carry add_words swap16 add32
odd_checksum = refl

compute_checksum-network_sums_example :
    ((compute_checksum ((1 ∷ 0xFF ∷ 3 ∷ []) ∷ []) + network_sums ((1 ∷ 0xFF ∷ 3 ∷ []) ∷ [])) % 65535
      ≡ 0)
    × (compute_checksum ((1 ∷ 0xFF ∷ 3 ∷ []) ∷ []) < 0x1_0000)
compute_checksum-network_sums_example =
    compute_checksum-network_sums ((1 ∷ 0xFF ∷ 3 ∷ []) ∷ [])
      (((omega arith, (omega arith, (omega arith, tt))), omega arith), tt) (omega arith)
