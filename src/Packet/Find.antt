-- ===== src/Packet/Find.antt =====
-- getLayerOfType against the list of the layers.
use pcap_plus_plus.Prelude.{
  ℕ, zero, suc, ◌-◌, ◌<◌, ◌≡◌, refl, ap, ◌∙◌, true, Option, none, some, List, [], ◌∷◌, arith, ltb,
  ◌==◌, if◌then◌else◌, length, get_elem?, Bool-cases, inl, inr,
}
use pcap_plus_plus.Packet.{Layer, Packet}
use pcap_plus_plus.Packet.Edit.{find_layer, get_layer_of_type}
use pcap_plus_plus.Packet.Links.{Segment, Chain}

-- The layers of a protocol.
unfoldable pub of_type : (ℕ → Layer) → ℕ → List ℕ → List ℕ
of_type s type [] = []
of_type s type (x ∷ xs) =
    if (s x).protocol == type then x ∷ of_type s type xs else of_type s type xs

find_layer_lem :
    (s : ℕ → Layer) (xs : List ℕ) (fuel type index : ℕ) (cur prev last : Option ℕ)
    → Segment s cur prev xs last none
    → length xs < fuel
    → find_layer fuel s cur type index ≡ some (get_elem? (of_type s type xs) index)
unfolding find_layer of_type Segment
find_layer_lem s xs zero type index cur prev last h enough = absurd (omega (arith, enough))
find_layer_lem s [] (suc fuel) type index cur prev last (e, _) enough = rw e refl
find_layer_lem s (x ∷ xs) (suc fuel) type zero cur prev last (e, _, h) enough =
    elim (Bool-cases ((s x).protocol == type)) [
      | inl same ↦ ap (λ o. find_layer (suc fuel) s o type 0) e ∙ (rw (find_layer, same) refl)
      | inr other ↦
          ap (λ o. find_layer (suc fuel) s o type 0) e
          ∙ (rw (find_layer, other)
              (find_layer_lem s xs fuel type 0 (s x).next_layer (some x) last h
                (omega (arith, enough))))
    ]
find_layer_lem s (x ∷ xs) (suc fuel) type (suc index) cur prev last (e, _, h) enough =
    elim (Bool-cases ((s x).protocol == type)) [
      | inl same ↦
          let less : suc index - 1 ≡ index = omega arith in
          let skip : ltb 0 (suc index) ≡ true = ground arith in
          ap (λ o. find_layer (suc fuel) s o type (suc index)) e
          ∙ (rw (find_layer, same, skip, less)
              (find_layer_lem s xs fuel type index (s x).next_layer (some x) last h
                (omega (arith, enough))))
      | inr other ↦
          ap (λ o. find_layer (suc fuel) s o type (suc index)) e
          ∙ (rw (find_layer, other)
              (find_layer_lem s xs fuel type (suc index) (s x).next_layer (some x) last h
                (omega (arith, enough))))
    ]

-- With more fuel than the packet's links lead through layers, getLayerOfType finds the layer of
-- that index among the layers of the protocol, or none if there are not so many of them.
pub get_layer_of_type_finds :
    (fuel : ℕ) (p : Packet) (xs : List ℕ) (type index : ℕ)
    → Chain p xs
    → length xs < fuel
    → get_layer_of_type fuel p type index ≡ some (get_elem? (of_type p.layers type xs) index)
get_layer_of_type_finds fuel p xs type index h enough =
    find_layer_lem p.layers xs fuel type index p.first_layer none p.last_layer h enough
