-- ===== src/Tcp/Connections/Purging.antt =====
-- What purgeClosedConnections purges: the keys that are due, as many as it may.
use mathlib.Core.Path.{subst}
use pcap_plus_plus.Prelude.{
  ℕ, zero, suc, ◌+◌, ◌-◌, ◌≡◌, refl, sym, ap, ◌∙◌, true, false, ◌&&◌, none, List, [], ◌∷◌, ◌++◌,
  arith, ltb, leb, ◌==◌, if◌then◌else◌, Bool-cases, inl, inr, length, take, drop,
}
use pcap_plus_plus.Lru.{has}
use pcap_plus_plus.Prelude.Map.{Map, lookup, erase, lookup-erase}
use pcap_plus_plus.Tcp.State.{TcpReassembly}
use pcap_plus_plus.Tcp.Connections.{
  Purge, purge_key, purge_keys, purge_times, purge_closed_connections,
}

-- The keys of a cleanup list, and those whose time has come by now.
abbrev pub all_keys : Map (List ℕ) → List ℕ
all_keys [] = []
all_keys ((time, keys) ∷ m) = keys ++ all_keys m

abbrev pub due_keys : ℕ → Map (List ℕ) → List ℕ
due_keys now [] = []
due_keys now ((time, keys) ∷ m) = if leb time now then keys ++ due_keys now m else []

-- The purge of all of these keys.
purge_all : List ℕ → Purge → Purge
purge_all [] p = p
purge_all (key ∷ keys) p = purge_all keys (purge_key key p)

purge_all-append :
    (xs ys : List ℕ) (p : Purge) → purge_all (xs ++ ys) p ≡ purge_all ys (purge_all xs p)
unfolding purge_all
purge_all-append [] ys p = refl
purge_all-append (x ∷ xs) ys p = purge_all-append xs ys (purge_key x p)

purge_all-count : (keys : List ℕ) (p : Purge) → (purge_all keys p).count ≡ p.count + length keys
unfolding purge_all purge_key
purge_all-count [] p = omega arith
purge_all-count (key ∷ keys) p = omega (arith, purge_all-count keys (purge_key key p))

erased_entry :
    {V : Type 0} (j key : ℕ) (keys : List ℕ) (m : Map V)
    → (if has j keys then none else lookup j (erase key m))
      ≡ (if has j (key ∷ keys) then none else lookup j m)
unfolding has
erased_entry j key keys m = elim (Bool-cases (key == j)) [
  | inl same ↦ rw (lookup-erase key j m, same) (ground arith)
  | inr other ↦ rw (lookup-erase key j m, other) refl
]

purge_all-lookup :
    (j : ℕ) (keys : List ℕ) (p : Purge)
    → (lookup j (purge_all keys p).connections
        ≡ (if has j keys then none else lookup j p.connections))
      × (lookup j (purge_all keys p).infos ≡ (if has j keys then none else lookup j p.infos))
unfolding purge_all has
purge_all-lookup j [] p = (refl, refl)
purge_all-lookup j (key ∷ keys) p =
    let (c, i) = purge_all-lookup j keys (purge_key key p) in
    (
      c ∙ unfold purge_key in erased_entry j key keys p.connections,
      i ∙ unfold purge_key in erased_entry j key keys p.infos,
    )

-- The inner loop purges keys from the front while it may.
purge_keys_lem :
    (most : ℕ) (keys : List ℕ) (p : Purge) (n : ℕ)
    → n ≡ most - p.count
    → purge_keys most keys p ≡ (drop n keys, purge_all (take n keys) p)
unfolding purge_keys purge_all
purge_keys_lem most [] p zero e = refl
purge_keys_lem most [] p (suc n) e = refl
purge_keys_lem most (key ∷ keys) p zero e =
    let full : ltb p.count most ≡ false = ground (arith, e) in rw full refl
purge_keys_lem most (key ∷ keys) p (suc n) e =
    let more : ltb p.count most ≡ true = ground (arith, e) in
    rw more (purge_keys_lem most keys (purge_key key p) n (unfold purge_key in omega (arith, e)))

take-nil : {A : Type 0} (n : ℕ) → take {A = A} n [] ≡ []
take-nil zero = refl
take-nil (suc n) = refl

take-append : (n : ℕ) (xs ys : List ℕ) → take n (xs ++ ys) ≡ take n xs ++ take (n - length xs) ys
take-append n [] ys =
    let e : n ≡ n - 0 = omega arith in rw (take-nil {A = ℕ} n) (ap (λ k. take k ys) e)
take-append zero (x ∷ xs) ys =
    let e : 0 ≡ 0 - length (x ∷ xs) = omega arith in ap (λ k. take k ys) e
take-append (suc n) (x ∷ xs) ys =
    let e : n - length xs ≡ suc n - length (x ∷ xs) = omega arith in
    ap (λ l. x ∷ l) (take-append n xs ys ∙ ap (λ k. take n xs ++ take k ys) e)

length-take_left : (n : ℕ) (xs : List ℕ) → n - length (take n xs) ≡ n - length xs
length-take_left zero xs = omega arith
length-take_left (suc n) [] = refl
length-take_left (suc n) (x ∷ xs) = omega (arith, length-take_left n xs)

-- Keys are taken from a list only when those in front of it are all taken.
in_front :
    (n : ℕ) (xs ys zs : List ℕ)
    → xs ++ (take (n - length xs) ys ++ zs)
      ≡ (take n xs ++ take (n - length xs) ys) ++ (drop n xs ++ zs)
in_front n [] ys zs =
    rw (take-nil {A = ℕ} n) (ap (λ l. take (n - 0) ys ++ (l ++ zs)) (sym (drop-nil n)))
  where
    drop-nil : (n : ℕ) → drop {A = ℕ} n [] ≡ []
    drop-nil zero = refl
    drop-nil (suc n) = refl
in_front zero (x ∷ xs) ys zs = let e : 0 - length (x ∷ xs) ≡ 0 = omega arith in rw e refl
in_front (suc n) (x ∷ xs) ys zs =
    let e : suc n - length (x ∷ xs) ≡ n - length xs = omega arith in
    rw e (ap (λ l. x ∷ l) (in_front n xs ys zs))

kept_keys :
    (time : ℕ) (left : List ℕ) (m : Map (List ℕ))
    → all_keys (elim left as (λ x. Map (List ℕ)) [ [] ↦ m | k ∷ ks ↦ (time, k ∷ ks) ∷ m ])
      ≡ left ++ all_keys m
kept_keys time [] m = refl
kept_keys time (k ∷ ks) m = refl

purge_step :
    (now most time : ℕ) (keys left : List ℕ) (m : Map (List ℕ)) (p p' : Purge)
    → leb time now ≡ true
    → ltb p.count most ≡ true
    → purge_keys most keys p ≡ (left, p')
    → ((purge_times now most ((time, keys) ∷ m) p).1 ≡ (purge_times now most m p').1)
      × (all_keys (purge_times now most ((time, keys) ∷ m) p).0
          ≡ left ++ all_keys (purge_times now most m p').0)
unfolding purge_times
purge_step now most time keys left m p p' due more run =
    subst
      (λ k.
        ((purge_times now most ((time, keys) ∷ m) p).1 ≡ (purge_times now most m k.1).1)
        × (all_keys (purge_times now most ((time, keys) ∷ m) p).0
            ≡ k.0 ++ all_keys (purge_times now most m k.1).0))
      run (rw (due, more) (refl, kept_keys time (purge_keys most keys p).0 _))

purge_stop :
    (now most time : ℕ) (keys : List ℕ) (m : Map (List ℕ)) (p : Purge)
    → (leb time now && ltb p.count most) ≡ false
    → purge_times now most ((time, keys) ∷ m) p ≡ ((time, keys) ∷ m, p)
unfolding purge_times
purge_stop now most time keys m p stop = rw stop refl

-- The outer loop, where the keys that are left stand in the list's order.
purge_times_lem :
    (now most : ℕ) (m : Map (List ℕ)) (p : Purge)
    → let taken = take (most - p.count) (due_keys now m) in
      ((purge_times now most m p).1 ≡ purge_all taken p)
      × (all_keys m ≡ taken ++ all_keys (purge_times now most m p).0)
purge_times_lem now most [] p =
    unfold purge_times in unfold purge_all in rw (take-nil {A = ℕ} (most - p.count)) (refl, refl)
purge_times_lem now most ((time, keys) ∷ m) p =
    let n = most - p.count in
    elim (Bool-cases (leb time now)) [
      | inl due ↦ elim (Bool-cases (ltb p.count most)) [
        | inl more ↦
            let p' = purge_all (take n keys) p in
            let d = due_keys now m in
            let (q, left) = purge_times_lem now most m p' in
            let count : most - p'.count ≡ n - length keys =
              omega (arith, purge_all-count (take n keys) p, length-take_left n keys) in
            let (step, kept) =
              purge_step now most time keys _ m p p' due more (purge_keys_lem most keys p n refl) in
            let both = take-append n keys d in
            rw (due, both)
              (
                step
                    ∙ q
                    ∙ ap (λ k. purge_all (take k d) p') count
                    ∙ sym (purge_all-append (take n keys) (take (n - length keys) d) p),
                ap (λ l. keys ++ l)
                      (left ∙ ap (λ k. take k d ++ all_keys (purge_times now most m p').0) count)
                    ∙ in_front n keys d _
                    ∙ ap (λ l. (take n keys ++ take (n - length keys) d) ++ l) (sym kept),
              )
        | inr full ↦
            let none_more : n ≡ 0 = ground (arith, full) in
            let stop = purge_stop now most time keys m p (rw (due, full) refl) in
            rw (due, stop, none_more) (unfold purge_all in (refl, refl))
      ]
      | inr later ↦
          let stop = purge_stop now most time keys m p (rw later refl) in
          rw (later, stop, take-nil {A = ℕ} n) (unfold purge_all in (refl, refl))
    ]

-- purgeClosedConnections purges the keys of the cleanup list that are due, in its order and as many
-- as it is told to at most, or maxNumToClean if that is 0, and returns their number: these keys are
-- gone from the cleanup list, which keeps the others in order, and their connections from the list of
-- connections and the list of their information, which keep all others.
pub purge_closed_connections_purges :
    (r : TcpReassembly) (max_num_to_clean now j : ℕ)
    → let (q, count) = purge_closed_connections r max_num_to_clean now in
      let most = if max_num_to_clean == 0 then r.max_num_to_clean else max_num_to_clean in
      let purged = take most (due_keys now r.cleanup_list) in
      (count ≡ length purged)
      × (all_keys r.cleanup_list ≡ purged ++ all_keys q.cleanup_list)
      × (lookup j q.connection_list ≡ (if has j purged then none else lookup j r.connection_list))
      × (lookup j q.connection_info ≡ (if has j purged then none else lookup j r.connection_info))
unfolding purge_closed_connections
purge_closed_connections_purges r max_num_to_clean now j =
    let most = if max_num_to_clean == 0 then r.max_num_to_clean else max_num_to_clean in
    let purged = take most (due_keys now r.cleanup_list) in
    let start : Purge = record {
      connections = r.connection_list;
      infos = r.connection_info;
      count = 0;
    } in
    let whole : most - 0 ≡ most = omega arith in
    let (run, left) =
      subst
        (λ n.
          ((purge_times now most r.cleanup_list start).1
            ≡ purge_all (take n (due_keys now r.cleanup_list)) start)
          × (all_keys r.cleanup_list
              ≡ take n (due_keys now r.cleanup_list)
                ++ all_keys (purge_times now most r.cleanup_list start).0))
        whole (purge_times_lem now most r.cleanup_list start) in
    let (c, i) = purge_all-lookup j purged start in
    (
      ap (λ p. p.count) run ∙ purge_all-count purged start ∙ omega arith,
      left,
      ap (λ p. lookup j p.connections) run ∙ c,
      ap (λ p. lookup j p.infos) run ∙ i,
    )
