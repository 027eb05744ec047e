-- ===== src/PacketUtils/Checksum.antt =====
-- computeChecksum (Packet++/src/PacketUtils.cpp) on a little-endian host. A buffer is the list of its
-- bytes; the pointers in vec that the source moves on are not kept.
use pcap_plus_plus.Prelude.{
  ℕ, zero, suc, ◌+◌, ◌-◌, ◌*◌, ◌/◌, ◌%◌, ◌≤◌, ◌<◌, ◌≡◌, ◌≢◌, ap, List, [], ◌∷◌, arith, ◌==◌,
  if◌then◌else◌, length, All, if_cases,
}
use pcap_plus_plus.Prelude.Words.{add32}
use pcap_plus_plus.Parsed.Endian.{swap16}

-- The loop over the 16-bit words of a buffer, and "1 byte left".
unfoldable pub add_words : ℕ → List ℕ → ℕ
add_words local_sum [] = local_sum
add_words local_sum (last ∷ []) = add32 local_sum last
add_words local_sum (low ∷ (high ∷ bytes)) = add_words (add32 local_sum (low + high * 256)) bytes

-- while (sum>>16) sum = (sum & 0xffff) + (sum >> 16)
unfoldable pub fold_carry : ℕ → ℕ → ℕ
fold_carry zero sum = sum
fold_carry (suc fuel) sum =
    let rest = fold_carry fuel (sum % 0x1_0000 + sum / 0x1_0000) in
    if sum / 0x1_0000 == 0 then sum else rest

unfoldable pub add_buffers : ℕ → List (List ℕ) → ℕ
add_buffers sum [] = sum
add_buffers sum (bytes ∷ vec) =
    add_buffers (add32 sum (swap16 (fold_carry 3 (add_words 0 bytes)))) vec

unfoldable pub compute_checksum : List (List ℕ) → ℕ
compute_checksum vec = (0xFFFF_FFFF - fold_carry 3 (add_buffers 0 vec)) % 0x1_0000

-- The sum of a buffer's 16-bit words in network byte order, the last one padded with a zero.
unfoldable pub network_sum : List ℕ → ℕ
network_sum [] = 0
network_sum (last ∷ []) = last * 256
network_sum (high ∷ (low ∷ bytes)) = high * 256 + low + network_sum bytes

unfoldable pub network_sums : List (List ℕ) → ℕ
network_sums [] = 0
network_sums (bytes ∷ vec) = network_sum bytes + network_sums vec

abbrev Byte : ℕ → Type 0
Byte b = b < 256

-- A buffer of no more than 2^16 bytes.
abbrev pub Buffer : List ℕ → Type 0
Buffer bytes = All Byte bytes × (length bytes ≤ 0x1_0000)

-- The sum of the words as they are in memory, times 256, is that in network order, modulo 2^16 - 1.
add_words_lem :
    (bytes : List ℕ) (sum : ℕ)
    → All Byte bytes
    → sum + 65535 * length bytes < 0x1_0000_0000
    → (k : ℕ) × (256 * add_words sum bytes ≡ 256 * sum + network_sum bytes + 65535 * k)
      × (add_words sum bytes ≤ sum + 65535 * length bytes)
unfolding add_words network_sum add32
add_words_lem [] sum h small = (0, omega arith, omega arith)
add_words_lem (last ∷ []) sum (h, _) small =
    let whole : (sum + last) % 0x1_0000_0000 ≡ sum + last = omega (arith, h, small) in
    (0, omega (arith, whole), omega (arith, whole, h))
add_words_lem (low ∷ (high ∷ bytes)) sum (l, (h, hs)) small =
    let next = sum + (low + high * 256) in
    let whole : next % 0x1_0000_0000 ≡ next = omega (arith, h, l, small) in
    let (k, e, b) = add_words_lem bytes next hs (omega (arith, small, l, h)) in
    let same : add_words (next % 0x1_0000_0000) bytes ≡ add_words next bytes =
      ap (λ n. add_words n bytes) whole in
    (k + high, omega (arith, e, same), omega (arith, b, same, l, h))

fold_carry_keeps : (fuel sum : ℕ) → (j : ℕ) × (sum ≡ fold_carry fuel sum + 65535 * j)
unfolding fold_carry
fold_carry_keeps zero sum = (0, omega arith)
fold_carry_keeps (suc fuel) sum =
    let (j, e) = fold_carry_keeps fuel (sum % 0x1_0000 + sum / 0x1_0000) in
    if_cases (λ r. (k : ℕ) × (sum ≡ r + 65535 * k)) (sum / 0x1_0000 == 0) sum
      (fold_carry fuel (sum % 0x1_0000 + sum / 0x1_0000)) (λ small. (0, omega arith))
      (λ more. (j + sum / 0x1_0000, omega (arith, e)))

fold_carry_again : (sum : ℕ) → sum ≤ 0x1_FFFE → fold_carry 2 sum < 0x1_0000
unfolding fold_carry
fold_carry_again sum h =
    if_cases (λ r. r < 0x1_0000) (sum / 0x1_0000 == 0) _ _ (λ small. ground (arith, small))
      λ more.
        let high : sum / 0x1_0000 ≢ 0 = ground (arith, more) in
        let next = sum % 0x1_0000 + sum / 0x1_0000 in
        let fits : next < 0x1_0000 = omega (arith, high, h) in
        if_cases (λ r. r < 0x1_0000) (next / 0x1_0000 == 0) _ _ (λ small. fits)
          λ again. omega (arith, fits)

-- Two rounds fold a uint32_t into 16 bits.
fold_carry_ends : (sum : ℕ) → sum < 0x1_0000_0000 → fold_carry 3 sum < 0x1_0000
unfolding fold_carry
fold_carry_ends sum h =
    if_cases (λ r. r < 0x1_0000) (sum / 0x1_0000 == 0) _ _ (λ small. ground (arith, small))
      λ more. fold_carry_again (sum % 0x1_0000 + sum / 0x1_0000) (omega (arith, h))

swap16_lem :
    (n : ℕ) → n < 0x1_0000 → (a : ℕ) × (256 * n ≡ swap16 n + 65535 * a) × (swap16 n < 0x1_0000)
unfolding swap16
swap16_lem n h = (n / 256, omega arith, omega arith)

-- The sum of one buffer, in network byte order.
buffer_lem :
    (bytes : List ℕ)
    → Buffer bytes
    → let n = swap16 (fold_carry 3 (add_words 0 bytes)) in
      (u v : ℕ) × (n + 65535 * u ≡ network_sum bytes + 65535 * v) × (n < 0x1_0000)
buffer_lem bytes (h, short) =
    let (k, e, b) = add_words_lem bytes 0 h (omega (arith, short)) in
    let sum = add_words 0 bytes in
    let (j, e') = fold_carry_keeps 3 sum in
    let (a, e'', small) =
      swap16_lem (fold_carry 3 sum) (fold_carry_ends sum (omega (arith, b, short))) in
    (a + 256 * j, k, omega (arith, e, e', e''), small)

add_buffers_lem :
    (vec : List (List ℕ)) (sum : ℕ)
    → All Buffer vec
    → sum + 65535 * length vec < 0x1_0000_0000
    → (u v : ℕ) × (add_buffers sum vec + 65535 * u ≡ sum + network_sums vec + 65535 * v)
      × (add_buffers sum vec ≤ sum + 65535 * length vec)
unfolding add_buffers network_sums add32
add_buffers_lem [] sum h small = (0, 0, omega arith, omega arith)
add_buffers_lem (bytes ∷ vec) sum (b, h) small =
    let n = swap16 (fold_carry 3 (add_words 0 bytes)) in
    let (u, v, e, less) = buffer_lem bytes b in
    let whole : (sum + n) % 0x1_0000_0000 ≡ sum + n = omega (arith, less, small) in
    let (u', v', e', less') = add_buffers_lem vec (sum + n) h (omega (arith, small, less)) in
    let same : add_buffers ((sum + n) % 0x1_0000_0000) vec ≡ add_buffers (sum + n) vec =
      ap (λ k. add_buffers k vec) whole in
    (u + u', v + v', omega (arith, e, e', same), omega (arith, less, less', same))

-- computeChecksum of no more than 2^16 buffers of no more than 2^16 bytes each gives a 16-bit
-- value that, added to the sum of the buffers' 16-bit words in network byte order, each buffer
-- padded to full words, is zero modulo 2^16 - 1.
pub compute_checksum-network_sums :
    (vec : List (List ℕ))
    → All Buffer vec
    → length vec ≤ 0x1_0000
    → ((compute_checksum vec + network_sums vec) % 65535 ≡ 0) × (compute_checksum vec < 0x1_0000)
unfolding compute_checksum
compute_checksum-network_sums vec h few =
    let (u, v, e, less) = add_buffers_lem vec 0 h (omega (arith, few)) in
    let total = add_buffers 0 vec in
    let (j, e') = fold_carry_keeps 3 total in
    let small = fold_carry_ends total (omega (arith, less, few)) in
    let inverted : (0xFFFF_FFFF - fold_carry 3 total) % 0x1_0000 + fold_carry 3 total ≡ 65535 =
      omega (arith, small) in
    (omega (arith, e, e', inverted), omega (arith, inverted))
