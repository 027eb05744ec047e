-- ===== src/Packet/InsertBytes.antt =====
-- The part of insertLayer that puts the header's bytes and the links in place.
use mathlib.Core.Path.{subst}
use pcap_plus_plus.Prelude.{
  ℕ, ◌+◌, ◌≤◌, ◌<◌, ◌≡◌, refl, sym, ap, ◌∙◌, Bool, true, false, Option, none, some, List, [], ◌∷◌,
  ◌++◌, ◌||◌, arith, ◌==◌, ==_iff, All, length, Bool-cases, inl, inr,
}
use pcap_plus_plus.RawPacket.{RawPacket, live, insert_data}
use pcap_plus_plus.RawPacket.Buffers.{load_at}
use pcap_plus_plus.RawPacket.Edit.{Holds, insert_data_inserts}
use pcap_plus_plus.Packet.{
  Layer, own, Packet, this_packet, set_layer, link_layer, get_header_len, packet_trailer,
}
use pcap_plus_plus.Packet.Edit.{own_header, insert_links, insert_bytes}
use pcap_plus_plus.Packet.Links.{Segment, Segment-keep, Chain, Apart, IsDistinct, SameLinks}
use pcap_plus_plus.Packet.Layout.{Piece, ids, bytes, Fits}
use pcap_plus_plus.Packet.Represents.{NoTrailer, Represents, Unplaced, calculate_packet-Represents}
use pcap_plus_plus.Packet.Relink.{
  length-bytes_middle, ids-append, bytes-append, All-insert, IsDistinct-insert, link_layer-Relinked,
  link_layer_same, Fits-keep, All-map, All-both, All-every,
}

own_header_lem :
    (l : Layer) (h spare : List ℕ) → l.data_at ≡ own (h ++ spare) → own_header l (length h) ≡ some h
own_header_lem l h spare e =
    rw e (load_at (live (h ++ spare)) [] h spare 0 (length h) refl refl refl)

-- The new layer is made the packet's own, and the links stay.
module _ (t : ℕ → Layer) (new : ℕ) (allocated : Bool) where
  abbrev owned : ℕ → Layer
  owned =
      set_layer t new (record (t new) { owner = this_packet; is_allocated_in_packet = allocated })

  owned_self : (owned new).owner ≡ this_packet
  owned_self = let self : (new == new) ≡ true = ground arith in rw self refl

  owned_other : (y : ℕ) → (y == new) ≡ false → owned y ≡ t y
  owned_other y e = rw e refl

  owned_same :
      (y : ℕ)
      → SameLinks t owned y
        × ((owned y).header ≡ (t y).header)
        × ((owned y).protocol ≡ (t y).protocol)
  owned_same y = elim (Bool-cases (y == new)) [
    | inl same ↦
        let e = sym ((==_iff y new).0 same) in
        rw same (
          (ap (λ z. (t z).next_layer) e, ap (λ z. (t z).prev_layer) e),
          ap (λ z. (t z).header) e,
          ap (λ z. (t z).protocol) e,
        )
    | inr other ↦ rw other ((refl, refl), refl, refl)
  ]

-- A packet that stands for ls and rs, with a new layer and its header's bytes between them.
module _ (p : Packet) (prev : Option ℕ) (new : ℕ) (h : List ℕ) (ls rs : List Piece) (rest : List ℕ)
    (mine : Bool) (r : Represents p (ls ++ rs) rest) (apart : Apart new (ids (ls ++ rs)))
    (no_trailer : NoTrailer (p.layers new)) (fits : Fits p.layers (ls ++ ((new, h) ∷ rs))) where
  abbrev all_ids : List ℕ
  all_ids = ids ls ++ (new ∷ ids rs)

  insert_links-Unplaced :
      (raw : RawPacket) (rest' : List ℕ)
      → Chain (link_layer (record p { raw_packet = raw }) prev new) all_ids
      → Holds raw (bytes (ls ++ ((new, h) ∷ rs))) rest'
      → length rest' + length h ≡ length rest
      → length h + length (bytes (ls ++ rs)) ≤ p.max_packet_len
      → Unplaced
          (insert_links (record p { raw_packet = raw }) prev new mine)
          (ls ++ ((new, h) ∷ rs))
          rest'
  unfolding insert_links
  insert_links-Unplaced raw rest' chain holds count within =
      let p₁ = record p { raw_packet = raw } in
      let q = link_layer p₁ prev new in
      let s = p.layers in
      let mine' = mine || (q.layers new).is_allocated_in_packet in
      let t = owned q.layers new mine' in
      let relinked = link_layer-Relinked p₁ prev new in
      let same = owned_same q.layers new mine' in
      let (same_raw, same_max) = link_layer_same p₁ prev new in
      let order : ids (ls ++ ((new, h) ∷ rs)) ≡ all_ids = ids-append ls ((new, h) ∷ rs) in
      let known : All (λ y. (y == new) ≡ false) (ids ls ++ ids rs) =
        subst (Apart new) (ids-append ls rs) apart in
      let size : length (bytes (ls ++ ((new, h) ∷ rs))) ≡ length h + length (bytes (ls ++ rs)) =
        length-bytes_middle ls rs new h in
      let protocols : All (λ y. NoTrailer (t y)) all_ids =
        All-map (λ y. NoTrailer (s y)) (λ y. NoTrailer (t y)) all_ids
          (λ y e.
            ap (λ k. k == packet_trailer) ((same y).2 ∙ ap (λ o. o.protocol) (relinked y)) ∙ e)
          (All-insert (λ y. NoTrailer (s y)) (ids ls) (ids rs) new
            (subst (All (λ y. NoTrailer (s y))) (ids-append ls rs) r.no_trailer) no_trailer) in
      let owners : All (λ y. (t y).owner ≡ this_packet) all_ids =
        All-insert (λ y. (t y).owner ≡ this_packet) (ids ls) (ids rs) new
          (All-map (λ y. ((s y).owner ≡ this_packet) × ((y == new) ≡ false))
            (λ y. (t y).owner ≡ this_packet) (ids ls ++ ids rs)
            (λ y (o, e).
              ap (λ l. l.owner) (owned_other q.layers new mine' y e)
              ∙ ap (λ l. l.owner) (relinked y)
              ∙ o)
            (All-both (λ y. (s y).owner ≡ this_packet) (λ y. (y == new) ≡ false) (ids ls ++ ids rs)
              (subst (All (λ y. (s y).owner ≡ this_packet)) (ids-append ls rs) r.attached) known))
          (owned_self q.layers new mine') in
      record {
        linked =
            subst (λ xs. Segment t q.first_layer none xs q.last_layer none) (sym order)
              (Segment-keep q.layers t all_ids q.first_layer none q.last_layer none
                (All-every (SameLinks q.layers t) all_ids (λ y. (same y).0)) chain);
        distinct = subst IsDistinct (sym order) (
            IsDistinct-insert (ids ls) (ids rs) new (subst IsDistinct (ids-append ls rs) r.distinct)
              known);
        holds = subst (λ x. Holds x (bytes (ls ++ ((new, h) ∷ rs))) rest') (sym same_raw) holds;
        fits =
            Fits-keep s t (ls ++ ((new, h) ∷ rs))
              (λ y. (same y).1 ∙ ap (λ o. o.header) (relinked y)) fits;
        no_trailer = subst (All (λ y. NoTrailer (t y))) (sym order) protocols;
        attached = subst (All (λ y. (t y).owner ≡ this_packet)) (sym order) owners;
        within = omega (arith, size, within, same_max);
        room = omega (arith, size, same_max, r.room, count);
      }

  pub insert_bytes-Represents :
      (fuel : ℕ) (spare : List ℕ)
      → ((raw : RawPacket) → Chain (link_layer (record p { raw_packet = raw }) prev new) all_ids)
      → (p.layers new).data_at ≡ own (h ++ spare)
      → get_header_len (p.layers new) ≡ length h
      → length h ≤ length rest
      → length h + length (bytes (ls ++ rs)) ≤ p.max_packet_len
      → length (ls ++ ((new, h) ∷ rs)) < fuel
      → length h + length (bytes (ls ++ rs)) < 0x1_0000_0000_0000_0000
      → (p' : Packet) × (rest' : List ℕ) × (insert_bytes fuel p prev new mine (length (bytes ls))
          ≡ some p')
        × Represents p' (ls ++ ((new, h) ∷ rs)) rest'
  unfolding insert_bytes
  insert_bytes-Represents fuel spare chain stored len room within enough small =
      let together = bytes-append ls rs in
      let before : Holds p.raw_packet (bytes ls ++ bytes rs) rest =
        subst (λ b. Holds p.raw_packet b rest) together r.holds in
      let (raw, rest', run, after, count) =
        insert_data_inserts p.raw_packet (bytes ls) (bytes rs) rest h before room in
      let holds : Holds raw (bytes (ls ++ ((new, h) ∷ rs))) rest' =
        subst (λ b. Holds raw b rest') (sym (bytes-append ls ((new, h) ∷ rs))) after in
      let u = insert_links-Unplaced raw rest' (chain raw) holds count within in
      let size : length (bytes (ls ++ ((new, h) ∷ rs))) ≡ length h + length (bytes (ls ++ rs)) =
        length-bytes_middle ls rs new h in
      let (s', done, represents, _, _) =
        calculate_packet-Represents _ (ls ++ ((new, h) ∷ rs)) rest' fuel u enough
          (omega (arith, size, small)) in
      let header : own_header (p.layers new) (get_header_len (p.layers new)) ≡ some h =
        ap (own_header (p.layers new)) len ∙ own_header_lem (p.layers new) h spare stored in
      let inserted : insert_data p.raw_packet (length (bytes ls)) (some h)
            (get_header_len (p.layers new))
          ≡ some raw =
        ap (insert_data p.raw_packet (length (bytes ls)) (some h)) len ∙ run in
      (_, rest', rw (insert_bytes, header, inserted, insert_bytes) done, represents)
