-- ===== src/Tcp/Seq.antt =====
-- The sequence comparisons SEQ_LT and SEQ_GT of Packet++/src/TcpReassembly.cpp: the difference of
-- two uint32_t read as an int32_t.
use pcap_plus_plus.Prelude.{ℕ, ◌≤◌, ◌≡◌, Bool, true, ◌&&◌, ltb, leb, arith}
use pcap_plus_plus.Prelude.Words.{IsU32, add32, sub32}

abbrev pub int32_sign : ℕ
int32_sign = 0x8000_0000

unfoldable pub seq_lt : ℕ → ℕ → Bool
seq_lt a b = leb int32_sign (sub32 a b)

unfoldable pub seq_gt : ℕ → ℕ → Bool
seq_gt a b = ltb 0 (sub32 a b) && ltb (sub32 a b) int32_sign

-- Data that starts before b and ends behind it reaches across b.
pub seq_overlap :
    (a b len : ℕ)
    → IsU32 a
    → IsU32 b
    → seq_lt a b ≡ true
    → seq_gt (add32 a len) b ≡ true
    → sub32 b a ≤ len
unfolding seq_lt seq_gt add32 sub32
seq_overlap a b len ha hb l g = ground arith
