-- ===== src/Packet/RemoveAll.antt =====
-- removeAllLayersAfter leaves the packet up to a layer.
use mathlib.Core.List.{append_assoc, append-nil}
use mathlib.Core.Path.{subst}
use pcap_plus_plus.Prelude.{
  ℕ, zero, suc, ◌≤◌, ◌<◌, ◌≡◌, refl, sym, ap, ◌∙◌, true, Option, none, some, List, [], ◌∷◌, ◌++◌,
  arith, length, length-append,
}
use pcap_plus_plus.Packet.{Layer, Packet}
use pcap_plus_plus.Packet.Edit.{remove_layer, remove_from, remove_all_layers_after}
use pcap_plus_plus.Packet.Links.{Segment, Segment-split, Chain}
use pcap_plus_plus.Packet.Layout.{Piece, ids, bytes}
use pcap_plus_plus.Packet.Represents.{Represents}
use pcap_plus_plus.Packet.Relink.{length-bytes_middle, ids-append}
use pcap_plus_plus.Packet.Remove.{remove_layer-Represents}

abbrev first_id : List ℕ → Option ℕ
first_id [] = none
first_id (x ∷ xs) = some x

Segment-first :
    (s : ℕ → Layer) (xs : List ℕ) (first prev last : Option ℕ)
    → Segment s first prev xs last none
    → first ≡ first_id xs
unfolding Segment
Segment-first s [] first prev last h = h.0
Segment-first s (x ∷ xs) first prev last h = h.0

next_lem :
    (p : Packet) (ls rs : List Piece) (x : ℕ) (h rest : List ℕ)
    → Represents p (ls ++ ((x, h) ∷ rs)) rest
    → (p.layers x).next_layer ≡ first_id (ids rs)
unfolding Segment
next_lem p ls rs x h rest r =
    let (m, n, _, (_, _, g)) =
      Segment-split p.layers (ids ls) (x ∷ ids rs) p.first_layer none p.last_layer none
        (subst (Chain p) (ids-append ls ((x, h) ∷ rs)) r.linked) in
    Segment-first p.layers (ids rs) (p.layers x).next_layer (some x) p.last_layer g

from_step :
    (rounds fuel : ℕ) (p p' : Packet) (a : ℕ)
    → remove_layer fuel p (some a) true ≡ some (p', true)
    → remove_from (suc rounds) fuel p (some a) ≡ remove_from rounds fuel p' (p.layers a).next_layer
unfolding remove_from
from_step rounds fuel p p' a e = rw (remove_from, e) refl

fewer :
    (ls rs : List Piece) (x : ℕ) (h : List ℕ)
    → length (bytes (ls ++ rs)) ≤ length (bytes (ls ++ ((x, h) ∷ rs)))
fewer ls rs x h = omega (arith, length-bytes_middle ls rs x h)

remove_from_removes :
    (rounds fuel : ℕ) (p : Packet) (ls rs : List Piece) (rest : List ℕ) (cur : Option ℕ)
    → Represents p (ls ++ rs) rest
    → cur ≡ first_id (ids rs)
    → length rs < rounds
    → length (ls ++ rs) < fuel
    → length (bytes (ls ++ rs)) < 0x1_0000_0000_0000_0000
    → (p' : Packet) × (rest' : List ℕ) × (remove_from rounds fuel p cur ≡ some (p', true))
      × Represents p' ls rest'
unfolding remove_from
remove_from_removes zero fuel p ls rs rest cur r c more enough small = absurd (omega (arith, more))
remove_from_removes (suc rounds) fuel p ls [] rest cur r c more enough small =
    (p, rest, rw c refl, subst (λ ps. Represents p ps rest) (append-nil ls) r)
remove_from_removes (suc rounds) fuel p ls ((x, h) ∷ rs) rest cur r c more enough small =
    let (p₁, rest₁, removed, r₁, _) =
      remove_layer-Represents fuel p x h ls rs rest true r enough small in
    let (p', rest', run, r') =
      remove_from_removes rounds fuel p₁ ls rs rest₁ (p.layers x).next_layer r₁
        (next_lem p ls rs x h rest r) (omega (arith, more))
        (omega (arith, enough, length-append ls ((x, h) ∷ rs), length-append ls rs))
        (omega (arith, small, fewer ls rs x h)) in
    (
      p',
      rest',
      ap (remove_from (suc rounds) fuel p) c ∙ from_step rounds fuel p p₁ x removed ∙ run,
      r',
    )

-- removeAllLayersAfter a layer of a packet without a trailer, where each header but the last one
-- has a length of its own, of fewer than 2^64 bytes and with more fuel than layers: it succeeds,
-- and the packet then consists of the layers up to that one, and their headers.
pub remove_all_layers_after-Represents :
    (fuel : ℕ) (p : Packet) (x : ℕ) (h : List ℕ) (ls rs : List Piece) (rest : List ℕ)
    → Represents p (ls ++ ((x, h) ∷ rs)) rest
    → length (ls ++ ((x, h) ∷ rs)) < fuel
    → length (bytes (ls ++ ((x, h) ∷ rs))) < 0x1_0000_0000_0000_0000
    → (p' : Packet) × (rest' : List ℕ) × (remove_all_layers_after fuel p x ≡ some (p', true))
      × Represents p' (ls ++ ((x, h) ∷ [])) rest'
remove_all_layers_after-Represents fuel p x h ls rs rest r enough small =
    let same : (ls ++ ((x, h) ∷ [])) ++ rs ≡ ls ++ ((x, h) ∷ rs) =
      append_assoc ls ((x, h) ∷ []) rs in
    remove_from_removes fuel fuel p (ls ++ ((x, h) ∷ [])) rs rest (p.layers x).next_layer
      (subst (λ ps. Represents p ps rest) (sym same) r) (next_lem p ls rs x h rest r)
      (omega (arith, enough, length-append ls ((x, h) ∷ rs)))
      (omega (arith, enough, ap length same))
      (omega (arith, small, ap (λ ps. length (bytes ps)) same))
