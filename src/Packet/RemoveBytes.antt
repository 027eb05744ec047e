-- ===== src/Packet/RemoveBytes.antt =====
-- The packet without a layer's bytes and links.
use mathlib.Core.List.{append_assoc}
use mathlib.Core.Path.{subst}
use pcap_plus_plus.Prelude.{
  ℕ, ◌+◌, ◌≡◌, refl, sym, ap, ◌∙◌, Bool, true, none, some, List, [], ◌∷◌, ◌++◌, ◌&&◌, arith, ◌==◌,
  All, All-append, length, Bool-cases, inl, inr, ◌⊎◌,
}
use pcap_plus_plus.RawPacket.{RawPacket, live, load_bytes}
use pcap_plus_plus.RawPacket.Buffers.{load_at}
use pcap_plus_plus.RawPacket.Edit.{Holds}
use pcap_plus_plus.Packet.{Layer, own, Packet, nobody, this_packet, set_layer, packet_trailer}
use pcap_plus_plus.Packet.Edit.{unlink_layer, released}
use pcap_plus_plus.Packet.Links.{Segment-keep, Chain, Apart, IsDistinct, IsDistinct-middle}
use pcap_plus_plus.Packet.Layout.{Piece, ids, bytes, Placed, Fits}
use pcap_plus_plus.Packet.Represents.{NoTrailer, Represents, Unplaced}
use pcap_plus_plus.Packet.Relink.{length-bytes_middle, ids-append, bytes-append, Fits-keep, All-map}
use pcap_plus_plus.Packet.Unlink.{unlink_layer-Chain, alone_others}
use pcap_plus_plus.Packet.RemoveSteps.{Fits-remove, unlink_layer-Relinked}

-- A layer outside of the packet is changed, and the protocols.
module _ (p : Packet) (ps : List Piece) (rest : List ℕ) (x : ℕ) (l : Layer) (types : ℕ) where
  Apart-Placed :
      (qs : List Piece) (at : ℕ)
      → Apart x (ids qs)
      → Placed p.layers qs at
      → Placed (set_layer p.layers x l) qs at
  unfolding Placed
  Apart-Placed [] at a h = tt
  Apart-Placed ((y, b) ∷ qs) at (a, as') (d, n, h) =
      (rw a d, rw a n, Apart-Placed qs (at + length b) as' h)

  Apart-Fits :
      (qs : List Piece) → Apart x (ids qs) → Fits p.layers qs → Fits (set_layer p.layers x l) qs
  unfolding Fits
  Apart-Fits [] a h = tt
  Apart-Fits ((y, b) ∷ qs) (a, as') (f, h) = (rw a f, Apart-Fits qs as' h)

  Apart-All {κ} :
      (P : Layer → Type κ) (ys : List ℕ)
      → Apart x ys
      → All (λ y. P (p.layers y)) ys
      → All (λ y. P (set_layer p.layers x l y)) ys
  Apart-All P [] a h = tt
  Apart-All P (y ∷ ys) (a, as') (q, h) = (rw a q, Apart-All P ys as' h)

  pub Apart-Represents :
      Represents p ps rest
      → Apart x (ids ps)
      → Represents (record p { protocol_types = types; layers = set_layer p.layers x l }) ps rest
  Apart-Represents r a = record {
    linked =
        Segment-keep p.layers (set_layer p.layers x l) (ids ps) p.first_layer none p.last_layer none
          (alone_others p.layers x l (ids ps) a) r.linked;
    distinct = r.distinct;
    holds = r.holds;
    placed = Apart-Placed ps 0 a r.placed;
    fits = Apart-Fits ps a r.fits;
    no_trailer = Apart-All NoTrailer (ids ps) a r.no_trailer;
    attached = Apart-All (λ l. l.owner ≡ this_packet) (ids ps) a r.attached;
    within = r.within;
    room = r.room;
  }

All-without {κ} :
    (P : ℕ → Type κ) (xs ys : List ℕ) (x : ℕ) → All P (xs ++ (x ∷ ys)) → All P (xs ++ ys)
All-without P [] ys x (_, h) = h
All-without P (y ∷ xs) ys x (q, h) = (q, All-without P xs ys x h)

IsDistinct-without : (xs ys : List ℕ) (x : ℕ) → IsDistinct (xs ++ (x ∷ ys)) → IsDistinct (xs ++ ys)
unfolding IsDistinct
IsDistinct-without [] ys x (_, d) = d
IsDistinct-without (y ∷ xs) ys x (a, d) = (All-without _ xs ys x a, IsDistinct-without xs ys x d)

-- The removed layer is deleted, or it is free again and has its header's bytes.
abbrev pub Released : Layer → List ℕ → Type 0
Released l h = (l.freed ≡ true) ⊎ ((l.owner ≡ nobody) × (l.data_at ≡ own h))

pub released_lem : (l : Layer) (h : List ℕ) (del : Bool) → Released (released l h del) h
released_lem l h del = elim (Bool-cases (del && l.is_allocated_in_packet)) [
  | inl deleted ↦ rw deleted (inl refl)
  | inr kept ↦ rw kept (inr (refl, refl))
]

module _ (p : Packet) (ls rs : List Piece) (x : ℕ) (h rest : List ℕ)
    (r : Represents p (ls ++ ((x, h) ∷ rs)) rest) where
  pub order : ids (ls ++ ((x, h) ∷ rs)) ≡ ids ls ++ (x ∷ ids rs)
  order = ids-append ls ((x, h) ∷ rs)

  order' : ids (ls ++ rs) ≡ ids ls ++ ids rs
  order' = ids-append ls rs

  pub count : length (bytes (ls ++ ((x, h) ∷ rs))) ≡ length h + length (bytes (ls ++ rs))
  count = length-bytes_middle ls rs x h

  pub apart : Apart x (ids (ls ++ rs))
  apart =
      let (x_ls, x_rs, _, _) =
        IsDistinct-middle (ids ls) (ids rs) x (subst IsDistinct order r.distinct) in
      subst (Apart x) (sym order') (All-append _ (ids ls) (ids rs) x_ls x_rs)

  pub unlink_layer-Unplaced :
      (raw : RawPacket) (rest' : List ℕ)
      → Holds raw (bytes (ls ++ rs)) rest'
      → length rest' ≡ length rest + length h
      → Unplaced (unlink_layer (record p { raw_packet = raw }) x) (ls ++ rs) rest'
  unfolding unlink_layer
  unlink_layer-Unplaced raw rest' holds grown =
      let p₁ = record p { raw_packet = raw } in
      let q = unlink_layer p₁ x in
      let s = p.layers in
      let t = q.layers in
      let relinked = unlink_layer-Relinked p₁ x in
      let without : (P : ℕ → Type 0) → All P (ids (ls ++ ((x, h) ∷ rs))) → All P (ids (ls ++ rs)) =
        λ P a.
          subst (All P) (sym order') (All-without P (ids ls) (ids rs) x (subst (All P) order a)) in
      record {
        linked = subst (Chain q) (sym order') (
            unlink_layer-Chain p₁ (ids ls) (ids rs) x (subst (Chain p₁) order r.linked)
              (subst IsDistinct order r.distinct));
        distinct =
            subst IsDistinct (sym order')
              (IsDistinct-without (ids ls) (ids rs) x (subst IsDistinct order r.distinct));
        holds = holds;
        fits =
            Fits-keep s t (ls ++ rs) (λ y. ap (λ o. o.header) (relinked y))
              (Fits-remove s ls rs x h r.fits);
        no_trailer =
            All-map (λ y. NoTrailer (s y)) (λ y. NoTrailer (t y)) (ids (ls ++ rs))
              (λ y e. ap (λ o. o.protocol == packet_trailer) (relinked y) ∙ e)
              (without (λ y. NoTrailer (s y)) r.no_trailer);
        attached =
            All-map (λ y. (s y).owner ≡ this_packet) (λ y. (t y).owner ≡ this_packet)
              (ids (ls ++ rs)) (λ y e. ap (λ o. o.owner) (relinked y) ∙ e)
              (without (λ y. (s y).owner ≡ this_packet) r.attached);
        within = omega (arith, r.within, count);
        room = omega (arith, r.room, count, grown);
      }

  pub header_bytes : load_bytes p.raw_packet.raw_data (length (bytes ls)) (length h) ≡ some h
  header_bytes =
      load_at p.raw_packet.raw_data (bytes ls) h (bytes rs ++ rest) (length (bytes ls)) (length h)
        (r.holds.0
          ∙ ap (λ b. live (b ++ rest)) (bytes-append ls ((x, h) ∷ rs))
          ∙ ap live (append_assoc (bytes ls) (h ++ bytes rs) rest)
          ∙ ap (λ b. live (bytes ls ++ b)) (append_assoc h (bytes rs) rest))
        refl refl
