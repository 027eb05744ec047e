-- ===== src/Packet/Insert.antt =====
-- insertLayer puts a layer and its header's bytes into the packet.
use mathlib.Core.List.{append_assoc}
use mathlib.Core.Path.{subst}
use pcap_plus_plus.Prelude.{
  ℕ, ◌+◌, ◌<◌, ◌≡◌, refl, sym, ap, ◌∙◌, Bool, true, false, Option, none, some, List, [], ◌∷◌, ◌++◌,
  arith, ◌==◌, All, length, length-append, inl, inr, ◌⊎◌,
}
use pcap_plus_plus.RawPacket.{RawPacket}
use pcap_plus_plus.Packet.{
  Layer, own, inside, Packet, nobody, link_layer, get_header_len, header_at, is_allocated_to_packet,
  index_behind, make_room, packet_trailer,
}
use pcap_plus_plus.Packet.Edit.{insert_bytes, insert_layer}
use pcap_plus_plus.Packet.Links.{
  Chain, Apart, IsDistinct, All-split, link_layer-Chain, link_layer_first-Chain,
}
use pcap_plus_plus.Packet.Layout.{Piece, ids, bytes, Placed, Fits}
use pcap_plus_plus.Packet.Represents.{NoTrailer, Represents, make_room-Represents}
use pcap_plus_plus.Packet.Relink.{ids-append}
use pcap_plus_plus.Packet.InsertBytes.{insert_bytes-Represents}

-- The layer in front of a place.
abbrev pub last_id : List Piece → Option ℕ
last_id [] = none
last_id ((x, h) ∷ []) = some x
last_id ((x, h) ∷ (q ∷ ps)) = last_id (q ∷ ps)

last_id_cases :
    (ps : List Piece)
    → (ps ≡ [])
      ⊎ ((front : List ℕ) × (q : ℕ) × (last_id ps ≡ some q) × (ids ps ≡ front ++ (q ∷ [])))
last_id_cases [] = inl refl
last_id_cases ((x, h) ∷ []) = inr ([], x, refl, refl)
last_id_cases ((x, h) ∷ (q ∷ ps)) = elim (last_id_cases (q ∷ ps)) [
  | inl e ↦ absurd (omega (arith, ap length e))
  | inr (front, y, e, l) ↦ inr (x ∷ front, y, e, ap (◌∷◌ x) l)
]

index_behind_one :
    (s : ℕ → Layer) (q at n : ℕ)
    → (s q).data_at ≡ inside at
    → get_header_len (s q) ≡ n
    → index_behind s (some q) ≡ some (at + n)
unfolding index_behind header_at
index_behind_one s q at n d e = rw (index_behind, header_at, d, e) refl

index_behind-last_id :
    (s : ℕ → Layer) (ls rs : List Piece) (x : ℕ) (h : List ℕ) (at : ℕ)
    → Placed s (((x, h) ∷ ls) ++ rs) at
    → index_behind s (last_id ((x, h) ∷ ls)) ≡ some (at + length (bytes ((x, h) ∷ ls)))
unfolding index_behind header_at Placed
index_behind-last_id s [] rs x h at (d, n, _) =
    let end : at + length h ≡ at + length (h ++ bytes []) =
      omega (arith, length-append h (bytes [])) in
    index_behind_one s x at (length h) d n ∙ ap some end
index_behind-last_id s ((y, k) ∷ ls) rs x h at (d, n, r) =
    let end : at + length h + length (bytes ((y, k) ∷ ls))
        ≡ at + length (h ++ bytes ((y, k) ∷ ls)) =
      omega (arith, length-append h (bytes ((y, k) ∷ ls))) in
    index_behind-last_id s ls rs y k (at + length h) r ∙ ap some end

index_behind_lem :
    (s : ℕ → Layer) (ls rs : List Piece)
    → Placed s (ls ++ rs) 0
    → index_behind s (last_id ls) ≡ some (length (bytes ls))
unfolding index_behind
index_behind_lem s [] rs h = refl
index_behind_lem s ((x, b) ∷ ls) rs h =
    let start : 0 + length (bytes ((x, b) ∷ ls)) ≡ length (bytes ((x, b) ∷ ls)) = omega arith in
    index_behind-last_id s ls rs x b 0 h ∙ ap some start

link_behind-Chain :
    (p : Packet) (ls rs : List Piece) (rest : List ℕ) (new : ℕ) (raw : RawPacket)
    → Represents p (ls ++ rs) rest
    → Apart new (ids (ls ++ rs))
    → (p.layers new).prev_layer ≡ none
    → Chain (link_layer (record p { raw_packet = raw }) (last_id ls) new) (ids ls ++ (new ∷ ids rs))
link_behind-Chain p ls rs rest new raw r apart free = elim (last_id_cases ls) [
  | inl e ↦
      let order : ids (ls ++ rs) ≡ ids rs = ap (λ l. ids (l ++ rs)) e in
      let p₁ = record p { raw_packet = raw } in
      subst (λ l. Chain (link_layer p₁ (last_id l) new) (ids l ++ (new ∷ ids rs))) (sym e)
        (link_layer_first-Chain p₁ (ids rs) new (subst (Chain p₁) order r.linked)
          (subst IsDistinct order r.distinct) (subst (Apart new) order apart) free)
  | inr (front, q, e, l) ↦
      let p₁ = record p { raw_packet = raw } in
      let order : ids (ls ++ rs) ≡ front ++ (q ∷ ids rs) =
        ids-append ls rs ∙ ap (λ x. x ++ ids rs) l ∙ append_assoc front (q ∷ []) (ids rs) in
      let order' : front ++ (q ∷ (new ∷ ids rs)) ≡ ids ls ++ (new ∷ ids rs) =
        sym (ap (λ x. x ++ (new ∷ ids rs)) l ∙ append_assoc front (q ∷ []) (new ∷ ids rs)) in
      subst (λ o. Chain (link_layer p₁ o new) (ids ls ++ (new ∷ ids rs))) (sym e)
        (subst (Chain (link_layer p₁ (some q) new)) order' (
          link_layer-Chain p₁ front (ids rs) q new (subst (Chain p₁) order r.linked)
            (subst IsDistinct order r.distinct) (subst (Apart new) order apart)))
]

-- The layer in front of the new one is no trailer.
abbrev behind_trailer : (ℕ → Layer) → Option ℕ → Bool
behind_trailer s prev = elim prev [ none ↦ false | some q ↦ (s q).protocol == packet_trailer ]

no_trailer_before :
    (p : Packet) (ls rs : List Piece) (rest : List ℕ)
    → Represents p (ls ++ rs) rest
    → behind_trailer p.layers (last_id ls) ≡ false
no_trailer_before p ls rs rest r = elim (last_id_cases ls) [
  | inl e ↦ ap (λ l. behind_trailer p.layers (last_id l)) e
  | inr (front, q, e, l) ↦
      let P : ℕ → Type 0 = λ x. NoTrailer (p.layers x) in
      let (here, _) =
        All-split P (ids ls) (ids rs) (subst (All P) (ids-append ls rs) r.no_trailer) in
      let (_, (last, _)) = All-split P front (q ∷ []) (subst (All P) l here) in
      ap (behind_trailer p.layers) e ∙ last
]

not_allocated : (l : Layer) → l.owner ≡ nobody → is_allocated_to_packet l ≡ false
not_allocated l e = rw e refl

insert_steps :
    (fuel : ℕ) (p p₁ p₂ : Packet) (prev : Option ℕ) (new at : ℕ) (mine : Bool)
    → is_allocated_to_packet (p.layers new) ≡ false
    → behind_trailer p.layers prev ≡ false
    → make_room fuel p (get_header_len (p.layers new)) ≡ some p₁
    → index_behind p₁.layers prev ≡ some at
    → insert_bytes fuel p₁ prev new mine at ≡ some p₂
    → insert_layer fuel p prev (some new) mine ≡ some (p₂, true)
unfolding insert_layer
insert_steps fuel p p₁ p₂ prev new at mine e e' grown place run =
    rw (insert_layer, e, e', grown, place, run) refl

-- insertLayer behind a layer of the packet, or in front of all, of a layer that is in no packet,
-- is linked to none and is no trailer: where each header but the last one has a length of its own,
-- the bytes with the new ones and the packet's maximal length come to less than 2^31 together, and
-- the fuel is more than the layers, it succeeds, and the packet then consists of the layers and
-- headers it had, with the new one at its place.
pub insert_layer-Represents :
    (fuel : ℕ) (p : Packet) (new : ℕ) (h spare : List ℕ) (ls rs : List Piece) (rest : List ℕ)
    (mine : Bool)
    → Represents p (ls ++ rs) rest
    → Apart new (ids (ls ++ rs))
    → (p.layers new).owner ≡ nobody
    → (p.layers new).prev_layer ≡ none
    → NoTrailer (p.layers new)
    → (p.layers new).data_at ≡ own (h ++ spare)
    → get_header_len (p.layers new) ≡ length h
    → Fits p.layers (ls ++ ((new, h) ∷ rs))
    → length (ls ++ ((new, h) ∷ rs)) < fuel
    → length (bytes (ls ++ rs)) + length h + p.max_packet_len < 0x8000_0000
    → (p' : Packet) × (rest' : List ℕ) × (insert_layer fuel p (last_id ls) (some new) mine
        ≡ some (p', true))
      × Represents p' (ls ++ ((new, h) ∷ rs)) rest'
insert_layer-Represents fuel p new h spare ls rs rest mine r apart free alone no_trailer stored len
      fits enough small =
    let old_enough : length (ls ++ rs) < fuel =
      omega (arith, enough, length-append ls ((new, h) ∷ rs), length-append ls rs) in
    let (p₁, rest₁, grown, r₁, room, within, g) =
      make_room-Represents p (ls ++ rs) rest fuel r old_enough (length h) small in
    let e : p₁.layers ≡ p.layers = ap (λ x. x.layers) g in
    let en : p₁.layers new ≡ p.layers new = ap (λ x. x.layers new) g in
    let (p', rest', run, represents) =
      insert_bytes-Represents p₁ (last_id ls) new h ls rs rest₁ mine r₁ apart
        (subst NoTrailer (sym en) no_trailer)
        (subst (λ s. Fits s (ls ++ ((new, h) ∷ rs))) (sym e) fits) fuel spare
        (λ raw.
          link_behind-Chain p₁ ls rs rest₁ new raw r₁ apart (ap (λ l. l.prev_layer) en ∙ alone))
        (ap (λ l. l.data_at) en ∙ stored) (ap get_header_len en ∙ len) room within enough
        (omega (arith, small)) in
    let allowed = no_trailer_before p ls rs rest r in
    let grown' : make_room fuel p (get_header_len (p.layers new)) ≡ some p₁ =
      ap (make_room fuel p) len ∙ grown in
    let place = index_behind_lem p₁.layers ls rs r₁.placed in
    (
      p',
      rest',
      insert_steps fuel p p₁ p' (last_id ls) new _ mine (not_allocated (p.layers new) free) allowed
          grown' place run,
      represents,
    )
