-- ===== src/Ip/Process/Invariant.antt =====
-- The LRU list and the fragment map of IPReassembly hold the same packets, and processPacket never
-- uses an iterator at end() where the capacity is one packet or more. The headers of reassembled packets
-- are not part of the model.
use mathlib.Core.Path.{subst}
use pcap_plus_plus.Prelude.{
  ℕ, ◌%◌, ◌<◌, ◌≡◌, refl, sym, ap, ◌∙◌, inl, inr, Bool, true, false, Option, none, some, List, [],
  ◌∷◌, ◌++◌, arith, ltb, ◌==◌, ==_iff, if◌then◌else◌, length, Bool-cases, Option-cases, if_cases,
  option_cases,
}
use pcap_plus_plus.Prelude.Map.{Map, lookup, insert, erase, lookup-insert, lookup-erase}
use pcap_plus_plus.Lru.{LruList, empty_lru, has, put, erase_element}
use pcap_plus_plus.Lru.Laws.{
  LruOk, put_lem, put-has, put_known, erase_element-LruOk, has-erase_element,
}
use pcap_plus_plus.Parsed.Endian.{swap32}
use pcap_plus_plus.Ip.Fragment.{
  IpLayer, over_ipv4, over_ipv6, IpPacket, PacketKey, ipv6_key, is_fragment, is_first_fragment,
  is_last_fragment, get_fragment_offset, hash_packet, create_packet_key, get_hash_value,
}
use pcap_plus_plus.Ip.Match.{advance, match_scan, match_loop, match_out_of_order_fragments}
use pcap_plus_plus.Ip.Process.{
  ReassemblyStatus, IpFragmentData, IpReassembly, Outcome, create, new_data, forget,
  add_new_fragment, store, complete, extended, handle_fragment, find_and_handle, process_packet,
  remove_packet,
}

abbrev pub is_some {ℓ} : {A : Type ℓ} → Option A → Bool
is_some none = false
is_some (some a) = true

-- The packets in the LRU list are those with an entry in the map, and the list is in order.
pub record IpOk (capacity : ℕ) (r : IpReassembly) : Type 0 where
  pub lru_ok : LruOk r.packet_lru
  pub same_packets : (k : ℕ) → has k r.packet_lru.items ≡ is_some (lookup k r.fragment_map)
  pub same_capacity : r.packet_lru.max_size ≡ capacity

-- A step that returns, with its state in order.
abbrev pub Returns : ℕ → Option Outcome → Type 0
Returns capacity none = ⊥
Returns capacity (some o) = IpOk capacity o.state

max_size-put : (l : LruList) (x : ℕ) → (put l x).0.max_size ≡ l.max_size
unfolding put pcap_plus_plus.Lru.pushed
max_size-put l x = ground arith

max_size-erase_element : (l : LruList) (x : ℕ) → (erase_element l x).max_size ≡ l.max_size
unfolding erase_element
max_size-erase_element l x = ground arith

some_of : {A : Type 0} (o : Option A) → is_some o ≡ true → (a : A) × (o ≡ some a)
some_of none h = cc
some_of (some a) h = (a, refl)

is_some-insert :
    {V : Type 0} (x k : ℕ) (v : V) (m : Map V)
    → is_some (lookup k (insert x v m)) ≡ (if x == k then true else is_some (lookup k m))
is_some-insert x k v m = elim (Bool-cases (x == k)) [
  | inl same ↦ rw (lookup-insert x k v m, same)
  | inr other ↦ rw (lookup-insert x k v m, other)
]

is_some-erase :
    {V : Type 0} (x k : ℕ) (m : Map V)
    → is_some (lookup k (erase x m)) ≡ (if x == k then false else is_some (lookup k m))
is_some-erase x k m = elim (Bool-cases (x == k)) [
  | inl same ↦ rw (lookup-erase x k m, same)
  | inr other ↦ rw (lookup-erase x k m, other)
]

-- If an entry is there already, the order of an if by its key does not matter.
if_true : (x k : ℕ) (f : ℕ → Bool) → f x ≡ true → (if x == k then true else f k) ≡ f k
if_true x k f h = elim (Bool-cases (x == k)) [
  | inl same ↦ rw same (sym (subst (λ j. f j ≡ true) ((==_iff x k).0 same) h))
  | inr other ↦ rw other
]

if_swap :
    (x z k : ℕ) (b : Bool)
    → (x == z) ≡ false
    → (if z == k then false else (if x == k then true else b))
      ≡ (if x == k then true else (if z == k then false else b))
if_swap x z k b h = ground arith

if_self : {A : Type 0} (x : ℕ) (a b : A) → (if x == x then a else b) ≡ a
if_self x a b = ground arith

module _ (capacity : ℕ) (pos : 0 < capacity) where
  store-IpOk :
      (r : IpReassembly) (hash : ℕ) (d : IpFragmentData)
      → IpOk capacity r
      → is_some (lookup hash r.fragment_map) ≡ true
      → IpOk capacity (store r hash d)
  unfolding store
  store-IpOk r hash d ok there = record {
    lru_ok = ok.lru_ok;
    same_packets = λ k.
        ok.same_packets k
        ∙ sym (
            is_some-insert hash k d r.fragment_map
            ∙ if_true hash k (λ j. is_some (lookup j r.fragment_map)) there);
    same_capacity = ok.same_capacity;
  }

  forgotten-IpOk :
      (r : IpReassembly) (hash : ℕ) (m : Map IpFragmentData)
      → IpOk capacity r
      → ((k : ℕ) → is_some (lookup k m) ≡ is_some (lookup k r.fragment_map))
      → IpOk capacity
          (record r { fragment_map = erase hash m; packet_lru = erase_element r.packet_lru hash })
  forgotten-IpOk r hash m ok same = record {
    lru_ok = erase_element-LruOk r.packet_lru hash ok.lru_ok;
    same_packets = λ k.
        has-erase_element r.packet_lru hash k ok.lru_ok
        ∙ ap (λ b. if hash == k then false else b) (ok.same_packets k ∙ sym (same k))
        ∙ sym (is_some-erase hash k m);
    same_capacity = max_size-erase_element r.packet_lru hash ∙ ok.same_capacity;
  }

  -- The packet of a hash is marked as used.
  pub touched-IpOk :
      (r : IpReassembly) (hash : ℕ)
      → IpOk capacity r
      → is_some (lookup hash r.fragment_map) ≡ true
      → IpOk capacity (record r { packet_lru = (put r.packet_lru hash).0 })
  touched-IpOk r hash ok there =
      let m = r.fragment_map in
      let old : has hash r.packet_lru.items ≡ true = ok.same_packets hash ∙ there in
      let (lru, e) = put_known r.packet_lru hash ok.lru_ok old in
      record {
        lru_ok = lru;
        same_packets = λ k. e k ∙ ok.same_packets k;
        same_capacity = max_size-put r.packet_lru hash ∙ ok.same_capacity;
      }

  -- add_new_fragment finds the packet that leaves the LRU list in the map.
  pub add_new_fragment_lem :
      (r : IpReassembly) (hash : ℕ) (d : IpFragmentData)
      → IpOk capacity r
      → lookup hash r.fragment_map ≡ none
      → (q : IpReassembly) × (add_new_fragment r hash d ≡ some q)
        × IpOk capacity q
        × (is_some (lookup hash q.fragment_map) ≡ true)
  unfolding add_new_fragment forget
  add_new_fragment_lem r hash d ok absent =
      let m = r.fragment_map in
      let present = λ (n : Map IpFragmentData).
        is_some-insert hash hash d n ∙ if_self hash true (is_some (lookup hash n)) in
      let positive : 0 < r.packet_lru.max_size = omega (arith, ok.same_capacity) in
      let room = max_size-put r.packet_lru hash ∙ ok.same_capacity in
      let lru = (put_lem r.packet_lru hash ok.lru_ok).0 in
      elim (put-has r.packet_lru hash ok.lru_ok positive) [
        | inl (kept, members) ↦ (
          record r { packet_lru = (put r.packet_lru hash).0; fragment_map = insert hash d m },
          rw (kept, add_new_fragment),
          record {
            lru_ok = lru;
            same_packets = λ k.
                members k
                ∙ ap (λ b. if hash == k then true else b) (ok.same_packets k)
                ∙ sym (is_some-insert hash k d m);
            same_capacity = room;
          },
          present m,
        )
        | inr (z, gone, apart, old, members) ↦
            let (e, found) = some_of (lookup z m) (sym (ok.same_packets z) ∙ old) in
            (
              record r {
                packet_lru = (put r.packet_lru hash).0;
                fragment_map = insert hash d (erase z m);
                cleaned =
                    if r.on_fragments_clean then r.cleaned ++ e.packet_key ∷ [] else r.cleaned;
              },
              rw (gone, add_new_fragment) (rw (found, forget)),
              record {
                lru_ok = lru;
                same_packets = λ k.
                    members k
                    ∙ ap (λ b. if z == k then false else (if hash == k then true else b))
                        (ok.same_packets k)
                    ∙ if_swap hash z k (is_some (lookup k m)) apart
                    ∙ sym (
                        is_some-insert hash k d (erase z m)
                        ∙ ap (λ b. if hash == k then true else b) (is_some-erase z k m));
                same_capacity = room;
              },
              present (erase z m),
            )
      ]

  complete-Returns :
      (r : IpReassembly) (hash : ℕ) (raw : List ℕ) (offset : ℕ)
      → IpOk capacity r
      → Returns capacity (complete r hash false raw offset)
  unfolding complete
  complete-Returns r hash raw offset ok = forgotten-IpOk r hash r.fragment_map ok (λ k. refl)

  extended-Returns :
      (r : IpReassembly) (hash : ℕ) (d : IpFragmentData) (raw : List ℕ) (offset : ℕ)
      (is_last : Bool) (status : ReassemblyStatus)
      → IpOk capacity r
      → is_some (lookup hash r.fragment_map) ≡ true
      → Returns capacity (extended r hash false d raw offset is_last status)
  unfolding extended
  extended-Returns r hash d raw offset is_last status ok there =
      let m = match_out_of_order_fragments offset raw d.waiting in
      let stored =
        store-IpOk r hash
          (record d { current_offset = m.current_offset; raw = some m.raw; waiting = m.waiting }) ok
          there in
      if_cases (Returns capacity) is_last _ _ (λ last. complete-Returns r hash raw offset ok)
        λ more.
          if_cases (Returns capacity) m.found_last _ _
            (λ found. complete-Returns _ hash m.raw m.current_offset stored) λ not_found. stored

  -- The entry of a fragment that was seen before.
  handle_known-Returns :
      (r : IpReassembly) (hash : ℕ) (d : IpFragmentData) (l : IpLayer) (p : IpPacket)
      → IpOk capacity r
      → is_some (lookup hash r.fragment_map) ≡ true
      → Returns capacity (handle_fragment r hash false d l p)
  unfolding handle_fragment
  handle_known-Returns r hash d l p ok there =
      let R = Returns capacity in
      if_cases R (is_first_fragment l) _ _
        (λ first.
          option_cases R d.raw _ _
            (extended-Returns r hash d p.raw (length p.payload % 0x1_0000) false _ ok there)
            λ raw. ok)
        λ inner.
          if_cases R (d.current_offset == get_fragment_offset l) _ _
            (λ next. option_cases R d.raw _ _ ok λ raw.
              extended-Returns r hash d (raw ++ p.payload)
                (advance d.current_offset (length p.payload)) (is_last_fragment l) _ ok there)
            λ other.
              if_cases R (ltb d.current_offset (get_fragment_offset l)) _ _
                (λ later. store-IpOk r hash _ ok there) λ earlier. ok

  -- The entry that has just been made: it holds nothing that could complete the packet.
  handle_new-Returns :
      (r : IpReassembly) (hash : ℕ) (key : PacketKey) (l : IpLayer) (p : IpPacket)
      → IpOk capacity r
      → is_some (lookup hash r.fragment_map) ≡ true
      → Returns capacity (handle_fragment r hash true (new_data key) l p)
  unfolding handle_fragment new_data extended match_out_of_order_fragments match_loop match_scan
  handle_new-Returns r hash key l p ok there =
      let R = Returns capacity in
      if_cases R (is_first_fragment l) _ _ (λ first. store-IpOk r hash _ ok there)
        λ inner.
          if_cases R (0 == get_fragment_offset l) _ _ (λ next. ok)
            λ other.
              if_cases R (ltb 0 (get_fragment_offset l)) _ _ (λ later. store-IpOk r hash _ ok there)
                λ earlier. ok

  -- A fragment has a key.
  pub key_of_fragment :
      (l : IpLayer) → is_fragment l ≡ true → (key : PacketKey) × (create_packet_key l ≡ some key)
  unfolding is_fragment create_packet_key
  key_of_fragment (over_ipv4 h) f = (_, refl)
  key_of_fragment (over_ipv6 h) f = elim (Option-cases h.frag_header) [
    | inl e ↦ cc (rw (e, is_fragment) at f)
    | inr (g, e) ↦ (ipv6_key (swap32 g.id) h.ip_src h.ip_dst, rw (e, create_packet_key))
  ]

  find_and_handle-Returns :
      (r : IpReassembly) (l : IpLayer) (p : IpPacket)
      → IpOk capacity r
      → is_fragment l ≡ true
      → Returns capacity (find_and_handle r l p)
  unfolding find_and_handle
  find_and_handle-Returns r l p ok f =
      let hash = hash_packet l in
      elim (Option-cases (lookup hash r.fragment_map)) [
        | inl absent ↦
            let (key, made) = key_of_fragment l f in
            let (q, e, ok', there) = add_new_fragment_lem r hash (new_data key) ok absent in
            rw (absent, find_and_handle)
              (rw made (rw e (handle_new-Returns q hash key l p ok' there)))
        | inr (d, known) ↦
            rw (known, find_and_handle)
              (handle_known-Returns _ hash d l p (touched-IpOk r hash ok (ap is_some known))
                (ap is_some known))
      ]

  pub process_packet-Returns :
      (r : IpReassembly) (p : IpPacket) → IpOk capacity r → Returns capacity (process_packet r p)
  unfolding process_packet
  process_packet-Returns r p ok = option_cases (Returns capacity) p.layer _ _ ok λ l.
      if_cases (Returns capacity) (is_fragment l) _ _ (λ f. find_and_handle-Returns r l p ok f)
        λ whole. ok

  remove_packet-IpOk :
      (r : IpReassembly) (key : PacketKey) → IpOk capacity r → IpOk capacity (remove_packet r key)
  unfolding remove_packet
  remove_packet-IpOk r key ok =
      option_cases (IpOk capacity) (lookup (get_hash_value key) r.fragment_map) _ _ ok
        λ d. forgotten-IpOk r (get_hash_value key) r.fragment_map ok (λ k. refl)

pub create-IpOk : (on_clean : Bool) (capacity : ℕ) → IpOk capacity (create on_clean capacity)
unfolding create empty_lru has lookup
create-IpOk on_clean capacity = record {
  lru_ok = record {
    distinct = tt;
    keys_distinct = tt;
    agree = λ k. refl;
    sizes = refl;
    fits = omega arith;
  };
  same_packets = λ k. refl;
  same_capacity = refl;
}

-- A history: packets that are processed and keys that are removed.
pub data Call : Type 0 where
  process : IpPacket → Call
  remove_key : PacketKey → Call

unfoldable pub run : IpReassembly → List Call → Option IpReassembly
run r [] = some r
run r (process p ∷ cs) = elim (process_packet r p) [ none ↦ none | some o ↦ run o.state cs ]
run r (remove_key key ∷ cs) = run (remove_packet r key) cs

run-IpOk :
    (capacity : ℕ) (r : IpReassembly) (cs : List Call)
    → 0 < capacity
    → IpOk capacity r
    → (q : IpReassembly) × (run r cs ≡ some q) × IpOk capacity q
unfolding run
run-IpOk capacity r [] pos ok = (r, refl, ok)
run-IpOk capacity r (process p ∷ cs) pos ok =
    let (o, e, ok') = returned (process_packet r p) (process_packet-Returns capacity pos r p ok) in
    rw (e, run) (run-IpOk capacity o.state cs pos ok')
  where
    returned :
        (x : Option Outcome)
        → Returns capacity x
        → (o : Outcome) × (x ≡ some o) × IpOk capacity o.state
    returned none h = absurd h
    returned (some o) h = (o, refl, h)
run-IpOk capacity r (remove_key key ∷ cs) pos ok =
    run-IpOk capacity (remove_packet r key) cs pos (remove_packet-IpOk capacity pos r key ok)

-- With a capacity of one packet or more, after any history of processed and removed packets on a new
-- IPReassembly, the LRU list has the same packets as the fragment map, each once, and capacity of them
-- at most, and no iterator of the fragment map was used at end(). The rewriting of the headers of
-- reassembled packets, with its lookups of their layers, is not part of this.
pub run-create :
    (on_clean : Bool) (capacity : ℕ) (cs : List Call)
    → 0 < capacity
    → (q : IpReassembly) × (run (create on_clean capacity) cs ≡ some q) × IpOk capacity q
run-create on_clean capacity cs pos =
    run-IpOk capacity (create on_clean capacity) cs pos (create-IpOk on_clean capacity)
