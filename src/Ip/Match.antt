-- ===== src/Ip/Match.antt =====
-- IPReassembly::matchOutOfOrderFragments: the fragments that wait for the current offset.
pub mod Payload
pub mod Progress
use pcap_plus_plus.Prelude.{
  ℕ, zero, suc, ◌+◌, ◌%◌, ◌≡◌, Bool, true, false, not, ◌||◌, List, [], ◌∷◌, ◌++◌, ◌==◌,
  if◌then◌else◌, length,
}

pub record IpFragment : Type 0 where
  pub fragment_offset : ℕ
  pub last_fragment : Bool
  pub fragment_data : List ℕ

-- uint16_t currentOffset += n
unfoldable pub advance : ℕ → ℕ → ℕ
advance offset n = (offset + n) % 0x1_0000

-- currentOffset, the bytes of the packet under construction, the list of waiting fragments, and
-- foundLastSgement and foundOutOfOrderFrag.
pub record Matching : Type 0 where
  pub current_offset : ℕ
  pub raw : List ℕ
  pub waiting : List IpFragment
  pub found_last : Bool
  pub found : Bool

-- The inner while loop: the list from the current index on.
unfoldable pub match_scan : ℕ → List ℕ → List IpFragment → Matching
match_scan offset raw [] = record {
  current_offset = offset;
  raw = raw;
  waiting = [];
  found_last = false;
  found = false;
}
match_scan offset raw (f ∷ fs) =
    let hit = offset == f.fragment_offset in
    let rest =
      match_scan (if hit then advance offset (length f.fragment_data) else offset)
        (if hit then raw ++ f.fragment_data else raw) fs in
    if hit
    then record rest { found_last = f.last_fragment || rest.found_last; found = true }
    else record rest { waiting = f ∷ rest.waiting }

-- The outer while loop.
unfoldable pub match_loop : ℕ → ℕ → List ℕ → List IpFragment → Matching
match_loop zero offset raw fs = record {
  current_offset = offset;
  raw = raw;
  waiting = fs;
  found_last = false;
  found = false;
}
match_loop (suc fuel) offset raw fs =
    let m = match_scan offset raw fs in
    let rest = match_loop fuel m.current_offset m.raw m.waiting in
    if not m.found || m.found_last then m else rest

-- Each round but the last takes a fragment off the list.
unfoldable pub match_out_of_order_fragments : ℕ → List ℕ → List IpFragment → Matching
match_out_of_order_fragments offset raw fs = match_loop (suc (length fs)) offset raw fs
