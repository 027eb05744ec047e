-- ===== src/Http/Names.antt =====
-- The names of methods and versions are parsed as these.
use mathlib.Core.Path.{subst}
use pcap_plus_plus.Prelude.{
  ℕ, ◌≤◌, ◌≡◌, ◌≢◌, refl, false, some, List, ◌∷◌, ◌++◌, arith, ltb, length,
}
use pcap_plus_plus.Prelude.Map.{some_inj}
use pcap_plus_plus.Prelude.Text.{codes}
use pcap_plus_plus.TextBasedProtocol.Field.{index_of, crlf}
use pcap_plus_plus.Http.{
  HttpMethod, get, head, post, put, delete, trace, options, connect, patch, method_unknown,
  HttpVersion, zero_dot_nine, one_dot_zero, one_dot_one, version_unknown, method_string,
  version_string, parse_method, version_at,
}

pub not_short : (n k : ℕ) → k ≤ n → ltb n k ≡ false
not_short n k h = ground arith

pub parse_method-method_string :
    (method : HttpMethod) (name t : List ℕ)
    → method_string method ≡ some name
    → parse_method (name ++ b' ' ∷ t) ≡ method
unfolding method_string parse_method
parse_method-method_string get name t e =
    let n = length (codes "GET" ++ b' ' ∷ t) in
    subst (λ x. parse_method (x ++ b' ' ∷ t) ≡ get) (some_inj e)
      (rw (not_short n 4 (omega arith)) refl)
parse_method-method_string head name t e =
    let n = length (codes "HEAD" ++ b' ' ∷ t) in
    subst (λ x. parse_method (x ++ b' ' ∷ t) ≡ head) (some_inj e)
      (rw (not_short n 4 (omega arith), not_short n 5 (omega arith)) refl)
parse_method-method_string post name t e =
    let n = length (codes "POST" ++ b' ' ∷ t) in
    subst (λ x. parse_method (x ++ b' ' ∷ t) ≡ post) (some_inj e)
      (rw (not_short n 4 (omega arith), not_short n 5 (omega arith)) refl)
parse_method-method_string put name t e =
    let n = length (codes "PUT" ++ b' ' ∷ t) in
    subst (λ x. parse_method (x ++ b' ' ∷ t) ≡ put) (some_inj e)
      (rw (not_short n 4 (omega arith)) refl)
parse_method-method_string delete name t e =
    let n = length (codes "DELETE" ++ b' ' ∷ t) in
    subst (λ x. parse_method (x ++ b' ' ∷ t) ≡ delete) (some_inj e)
      (rw (not_short n 4 (omega arith), not_short n 7 (omega arith)) refl)
parse_method-method_string trace name t e =
    let n = length (codes "TRACE" ++ b' ' ∷ t) in
    subst (λ x. parse_method (x ++ b' ' ∷ t) ≡ trace) (some_inj e)
      (rw (not_short n 4 (omega arith), not_short n 6 (omega arith)) refl)
parse_method-method_string options name t e =
    let n = length (codes "OPTIONS" ++ b' ' ∷ t) in
    subst (λ x. parse_method (x ++ b' ' ∷ t) ≡ options) (some_inj e)
      (rw (not_short n 4 (omega arith), not_short n 8 (omega arith)) refl)
parse_method-method_string connect name t e =
    let n = length (codes "CONNECT" ++ b' ' ∷ t) in
    subst (λ x. parse_method (x ++ b' ' ∷ t) ≡ connect) (some_inj e)
      (rw (not_short n 4 (omega arith), not_short n 8 (omega arith)) refl)
parse_method-method_string patch name t e =
    let n = length (codes "PATCH" ++ b' ' ∷ t) in
    subst (λ x. parse_method (x ++ b' ' ∷ t) ≡ patch) (some_inj e)
      (rw (not_short n 4 (omega arith), not_short n 6 (omega arith)) refl)
parse_method-method_string method_unknown name t e = cc

pub method_named :
    (method : HttpMethod)
    → method ≢ method_unknown
    → (name : List ℕ) × (method_string method ≡ some name)
unfolding method_string
method_named get known = (_, refl)
method_named head known = (_, refl)
method_named post known = (_, refl)
method_named put known = (_, refl)
method_named delete known = (_, refl)
method_named trace known = (_, refl)
method_named options known = (_, refl)
method_named connect known = (_, refl)
method_named patch known = (_, refl)
method_named method_unknown known = absurd (known refl)

pub version_numbered :
    (version : HttpVersion)
    → version ≢ version_unknown
    → (number : List ℕ) × (version_string version ≡ some number)
unfolding version_string
version_numbered zero_dot_nine known = (_, refl)
version_numbered one_dot_zero known = (_, refl)
version_numbered one_dot_one known = (_, refl)
version_numbered version_unknown known = absurd (known refl)

pub version_at-version_string :
    (version : HttpVersion) (number t : List ℕ)
    → version_string version ≡ some number
    → (version_at (number ++ t) ≡ version)
      × (length number ≡ 3)
      × (index_of b'\n' (number ++ (crlf ++ t)) ≡ some 4)
unfolding version_string version_at index_of
version_at-version_string zero_dot_nine number t e =
    subst
      (λ x.
        (version_at (x ++ t) ≡ zero_dot_nine)
        × (length x ≡ 3)
        × (index_of b'\n' (x ++ (crlf ++ t)) ≡ some 4))
      (some_inj e) (refl, refl, refl)
version_at-version_string one_dot_zero number t e =
    subst
      (λ x.
        (version_at (x ++ t) ≡ one_dot_zero)
        × (length x ≡ 3)
        × (index_of b'\n' (x ++ (crlf ++ t)) ≡ some 4))
      (some_inj e) (refl, refl, refl)
version_at-version_string one_dot_one number t e =
    subst
      (λ x.
        (version_at (x ++ t) ≡ one_dot_one)
        × (length x ≡ 3)
        × (index_of b'\n' (x ++ (crlf ++ t)) ≡ some 4))
      (some_inj e) (refl, refl, refl)
version_at-version_string version_unknown number t e = cc
