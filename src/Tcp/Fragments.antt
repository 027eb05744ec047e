-- ===== src/Tcp/Fragments.antt =====
-- TcpReassembly::checkOutOfOrderFragments: the buffered segments of one side of a connection. It
-- only touches the side's expected sequence and its fragment list, and calls the user's callback.
-- A fragment's data is a fresh array of dataLength bytes wherever the source makes one, so the
-- tests for NULL data pass.
pub mod Loops
pub mod Bounds
pub mod Stream
use pcap_plus_plus.Prelude.{
  ℕ, zero, suc, ◌+◌, ◌≡◌, Bool, true, false, not, ◌&&◌, ◌||◌, Option, none, some, List, [], ◌∷◌,
  ◌++◌, ltb, leb, ◌==◌, if◌then◌else◌, length, get_elem?, drop, erase_at,
}
use pcap_plus_plus.Prelude.Words.{add32, sub32}
use pcap_plus_plus.Prelude.Text.{codes, decimal}
use pcap_plus_plus.Tcp.Seq.{seq_lt, seq_gt}

pub record Fragment : Type 0 where
  pub sequence : ℕ
  pub payload : List ℕ

-- What the callback is told of a message: the bytes, and how many are missing before them.
pub record StreamData : Type 0 where
  pub bytes : List ℕ
  pub missing : ℕ

-- The part of a side that the loops change, and the messages sent so far.
pub record Progress : Type 0 where
  pub sequence : ℕ
  pub fragments : List Fragment
  pub sent : List StreamData

-- One fragment against the expected sequence: the new sequence, the fragment if it stays in the
-- list, the message if one is sent, and foundSomething.
pub record Visit : Type 0 where
  pub sequence : ℕ
  pub kept : List Fragment
  pub sent : List StreamData
  pub found : Bool

unfoldable pub visit : ℕ → Fragment → Visit
visit seq f =
    if f.sequence == seq
    then record {
      sequence = add32 seq (length f.payload);
      kept = [];
      sent = record { bytes = f.payload; missing = 0 } ∷ [];
      found = true;
    }
    else if seq_lt f.sequence seq
    then (if seq_gt (add32 f.sequence (length f.payload)) seq
        then record {
          sequence = add32 seq (sub32 (length f.payload) (sub32 seq f.sequence));
          kept = [];
          sent = record { bytes = drop (sub32 seq f.sequence) f.payload; missing = 0 } ∷ [];
          found = true;
        }
        else record { sequence = seq; kept = []; sent = []; found = false })
    else record { sequence = seq; kept = f ∷ []; sent = []; found = false }

-- The innermost while loop: the list from the current index on.
unfoldable pub scan : ℕ → List Fragment → Visit
scan seq [] = record { sequence = seq; kept = []; sent = []; found = false }
scan seq (f ∷ fs) =
    let v = visit seq f in
    let rest = scan v.sequence fs in
    record {
      sequence = rest.sequence;
      kept = v.kept ++ rest.kept;
      sent = v.sent ++ rest.sent;
      found = v.found || rest.found;
    }

-- The inner do-while loop: scans until one finds nothing.
unfoldable pub drain : ℕ → Progress → Progress
drain zero p = p
drain (suc fuel) p =
    let v = scan p.sequence p.fragments in
    let next : Progress = record {
      sequence = v.sequence;
      fragments = v.kept;
      sent = p.sent ++ v.sent;
    } in
    let rest = drain fuel next in if v.found then rest else next

-- closestSequence and closestSequenceFragIndex over the list from the current index on.
unfoldable pub closest_from : Option (ℕ × ℕ) → ℕ → List Fragment → Option (ℕ × ℕ)
closest_from best index [] = best
closest_from none index (f ∷ fs) = closest_from (some (f.sequence, index)) (suc index) fs
closest_from (some (s, i)) index (f ∷ fs) =
    closest_from (if seq_lt f.sequence s then some (f.sequence, index) else some (s, i)) (suc index)
      fs

-- The index of the fragment with the closest sequence, and that fragment.
unfoldable pub closest : List Fragment → Option (ℕ × Fragment)
unfolding closest_from
closest fs = elim (closest_from none 0 fs) [
  | none ↦ none
  | some (s, i) ↦ elim (get_elem? fs i) [ none ↦ none | some f ↦ some (i, f) ]
]

unfoldable pub missing_data_message : ℕ → List ℕ
unfolding decimal
missing_data_message n = codes "[" ++ (decimal 10 n [] ++ codes " bytes missing]")

-- The closest fragment is sent behind a text that says how many bytes are missing before it.
unfoldable pub skip_to : Progress → ℕ → Fragment → Progress
skip_to p index f =
    let missing = sub32 f.sequence p.sequence in
    record {
      sequence = add32 f.sequence (length f.payload);
      fragments = erase_at p.fragments index;
      sent =
          p.sent
          ++ record { bytes = missing_data_message missing ++ f.payload; missing = missing } ∷ [];
    }

-- The return between the two phases: maxOutOfOrderFragments 0 stands for no limit.
unfoldable pub may_wait : Bool → ℕ → ℕ → Bool
may_wait clean limit size = not clean && (limit == 0 || leb size limit)

-- The outer do-while loop.
unfoldable pub check_loop : ℕ → Bool → ℕ → Progress → Progress
check_loop zero clean limit p = p
check_loop (suc fuel) clean limit p =
    let q = drain (suc (length p.fragments)) p in
    let skipped : Progress = elim (closest q.fragments) [
      | none ↦ q
      | some (index, f) ↦ check_loop fuel clean limit (skip_to q index f)
    ] in
    if may_wait clean limit (length q.fragments) then q else skipped

-- The fuel counts the rounds of a loop; each round but the last takes a fragment off the list.
unfoldable pub check_fragments : Bool → ℕ → ℕ → List Fragment → Progress
check_fragments clean limit seq fs =
    check_loop (suc (length fs)) clean limit (record { sequence = seq; fragments = fs; sent = [] })
