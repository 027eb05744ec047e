-- ===== src/Prelude/Text.antt =====
-- Characters as byte values, and the decimal digits that an output stream prints for a number.
use Prim.Native.Nat.{ℕ, zero, suc, ◌+◌, ◌/◌, ◌%◌}
use Prim.Native.Char.{code}
use Prim.Native.String.{String}
use mathlib.Core.List.{List, [], ◌∷◌}
use pcap_plus_plus.Prelude.Tests.{◌==◌, if◌then◌else◌}

abbrev pub codes : String → List ℕ
codes String.[] = []
codes (String.◌∷◌ first rest) = code first ∷ codes rest

-- The digits of n in front of acc; a uint32_t has ten digits at most.
unfoldable pub decimal : ℕ → ℕ → List ℕ → List ℕ
decimal zero n acc = acc
decimal (suc fuel) n acc =
    let digits = (n % 10 + b'0') ∷ acc in
    let rest = decimal fuel (n / 10) digits in if n / 10 == 0 then digits else rest
