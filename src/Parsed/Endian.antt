-- ===== src/Parsed/Endian.antt =====
-- Byte order: be16toh, be32toh and the bytes of a number in memory, on a little-endian host.
use pcap_plus_plus.Prelude.{ℕ, ◌+◌, ◌*◌, ◌/◌, ◌%◌, List, [], ◌∷◌}

unfoldable pub swap16 : ℕ → ℕ
swap16 n = n % 256 * 256 + n / 256 % 256

unfoldable pub swap32 : ℕ → ℕ
swap32 n = swap16 (n % 0x1_0000) * 0x1_0000 + swap16 (n / 0x1_0000)

unfoldable pub bytes16 : ℕ → List ℕ
bytes16 n = n % 256 ∷ n / 256 % 256 ∷ []

unfoldable pub bytes32 : ℕ → List ℕ
bytes32 n = n % 256 ∷ n / 0x100 % 256 ∷ n / 0x1_0000 % 256 ∷ n / 0x100_0000 % 256 ∷ []
