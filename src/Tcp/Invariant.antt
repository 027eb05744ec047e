-- ===== src/Tcp/Invariant.antt =====
-- The invariant of TcpReassembly, over every connection that it holds.
pub mod Preserved
pub mod Sides
pub mod Operations
use pcap_plus_plus.Prelude.{
  ℕ, ◌+◌, ◌≤◌, ◌<◌, ◌≡◌, refl, ap, Bool, true, false, Option, none, some, List, [], ◌∷◌, arith,
  length,
}
use pcap_plus_plus.Prelude.Words.{IsU32}
use pcap_plus_plus.Prelude.Map.{Every}
use pcap_plus_plus.Tcp.Fragments.{check_fragments}
use pcap_plus_plus.Tcp.Fragments.Bounds.{check_fragments_settles, check_fragments-IsU32}
use pcap_plus_plus.Tcp.State.{
  OneSideData, TcpReassemblyData, TcpReassembly, Side, side_0, side_1, get_side, set_side,
  checked_side, checked_data,
}

-- One side: its expected sequence is a uint32_t, it buffers no more fragments than the configured
-- limit, and none at all once it has seen FIN or RST.
pub record SideOk (limit : ℕ) (s : OneSideData) : Type 0 where
  pub word : IsU32 s.sequence
  pub bounded : 0 < limit → length s.fragments ≤ limit
  pub quiet : s.got_fin_or_rst ≡ true → s.fragments ≡ []

-- A connection: two sides at most, and nothing buffered once it is closed.
pub record DataOk (limit : ℕ) (d : TcpReassemblyData) : Type 0 where
  pub first_ok : SideOk limit d.first
  pub second_ok : SideOk limit d.second
  pub two : d.num_of_sides ≤ 2
  pub done : d.closed ≡ true → (d.first.fragments ≡ []) × (d.second.fragments ≡ [])

abbrev pub Invariant : TcpReassembly → Type 0
Invariant r = Every (DataOk r.max_out_of_order_fragments) r.connection_list

length-zero {ℓ} : {A : Type ℓ} (xs : List A) → length xs ≤ 0 → xs ≡ []
length-zero [] h = refl
length-zero (x ∷ xs) h = absurd (omega arith)

pub checked_side-SideOk :
    (limit : ℕ) (clean : Bool) (s : OneSideData)
    → IsU32 s.sequence
    → (s.got_fin_or_rst ≡ true → s.fragments ≡ [])
    → SideOk limit (checked_side limit clean s)
unfolding checked_side
checked_side-SideOk limit clean s u quiet =
    let (w, l, c, b) = check_fragments_settles clean limit s.sequence s.fragments in
    record {
      word = check_fragments-IsU32 clean limit s.sequence s.fragments u;
      bounded = b;
      quiet = λ g. length-zero _ (omega (arith, ap length (quiet g)));
    }

pub checked_side_clean : (limit : ℕ) (s : OneSideData) → (checked_side limit true s).fragments ≡ []
unfolding checked_side
checked_side_clean limit s = (check_fragments_settles true limit s.sequence s.fragments).2 refl
