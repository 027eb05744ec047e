-- ===== src/Packet/Represents.antt =====
-- A packet as the list of its layers with their headers' bytes.
use mathlib.Core.Path.{subst}
use pcap_plus_plus.Prelude.{
  ℕ, ◌+◌, ◌*◌, ◌≤◌, ◌<◌, ◌≡◌, refl, sym, ap, ◌∙◌, false, none, some, List, [], ◌∷◌, arith, ltb,
  ◌==◌, All, length, Bool-cases, inl, inr,
}
use pcap_plus_plus.RawPacket.Edit.{Holds, reallocate_data_keeps}
use pcap_plus_plus.Packet.{
  Layer, Packet, this_packet, packet_trailer, trailer_len, calculate_packet, reallocate_raw_data,
  make_room,
}
use pcap_plus_plus.Packet.Links.{Segment-keep, Segment-last, Chain, Apart, IsDistinct, SameLinks}
use pcap_plus_plus.Packet.Layout.{
  Piece, ids, bytes, Placed, Fits, HeaderFits, Relaid, set_pointers-Placed, calculate-Placed,
}

-- Not a packet trailer.
abbrev pub NoTrailer : Layer → Type 0
NoTrailer l = (l.protocol == packet_trailer) ≡ false

-- The links lead through the layers, the packet's bytes are their headers, each layer's data start
-- where its header stands, and the buffer has room for what m_MaxPacketLen says.
pub record Represents (p : Packet) (ps : List Piece) (rest : List ℕ) : Type 0 where
  pub linked : Chain p (ids ps)
  pub distinct : IsDistinct (ids ps)
  pub holds : Holds p.raw_packet (bytes ps) rest
  pub placed : Placed p.layers ps 0
  pub fits : Fits p.layers ps
  pub no_trailer : All (λ x. NoTrailer (p.layers x)) (ids ps)
  pub attached : All (λ x. (p.layers x).owner ≡ this_packet) (ids ps)
  pub within : length (bytes ps) ≤ p.max_packet_len
  pub room : p.max_packet_len ≤ length (bytes ps) + length rest

trailer_len_lem :
    (p : Packet) (xs : List ℕ)
    → Chain p xs
    → All (λ x. NoTrailer (p.layers x)) xs
    → trailer_len p ≡ 0
unfolding trailer_len
trailer_len_lem p xs h a =
    elim (Segment-last (λ x. NoTrailer (p.layers x)) p.layers xs p.first_layer none p.last_layer
      none h a) [ inl e ↦ rw (trailer_len, e) refl | inr (x, e, n) ↦ rw (trailer_len, e, n) refl ]

module _ (s s' : ℕ → Layer) (relaid : (y : ℕ) → Relaid (s y) (s' y)) where
  pub Relaid-All {κ} :
      (F : Layer → Type κ)
      → ((l l' : Layer) → Relaid l l' → F l → F l')
      → (xs : List ℕ) → All (λ x. F (s x)) xs
      → All (λ x. F (s' x)) xs
  Relaid-All F step [] h = tt
  Relaid-All F step (x ∷ xs) (h, hs) = (step (s x) (s' x) (relaid x) h, Relaid-All F step xs hs)

  Relaid-SameLinks : (xs : List ℕ) → All (SameLinks s s') xs
  Relaid-SameLinks [] = tt
  Relaid-SameLinks (x ∷ xs) =
      ((ap (λ o. o.next_layer) (relaid x), ap (λ o. o.prev_layer) (relaid x)), Relaid-SameLinks xs)

  Relaid-Fits : (ps : List Piece) → Fits s ps → Fits s' ps
  unfolding Fits
  Relaid-Fits [] h = tt
  Relaid-Fits ((y, b) ∷ ps) (f, h) = (
    subst (λ k. HeaderFits k (length b) (length (bytes ps))) (sym (ap (λ o. o.header) (relaid y)))
        f,
    Relaid-Fits ps h,
  )

-- What the loop of insertLayer and removeLayer needs: all but the places of the layers.
pub record Unplaced (p : Packet) (ps : List Piece) (rest : List ℕ) : Type 0 where
  pub linked : Chain p (ids ps)
  pub distinct : IsDistinct (ids ps)
  pub holds : Holds p.raw_packet (bytes ps) rest
  pub fits : Fits p.layers ps
  pub no_trailer : All (λ x. NoTrailer (p.layers x)) (ids ps)
  pub attached : All (λ x. (p.layers x).owner ≡ this_packet) (ids ps)
  pub within : length (bytes ps) ≤ p.max_packet_len
  pub room : p.max_packet_len ≤ length (bytes ps) + length rest

pub calculate_packet-Represents :
    (p : Packet) (ps : List Piece) (rest : List ℕ) (fuel : ℕ)
    → Unplaced p ps rest
    → length ps < fuel
    → length (bytes ps) < 0x1_0000_0000_0000_0000
    → (s' : ℕ → Layer) × (calculate_packet fuel p ≡ some (record p { layers = s' }))
      × Represents (record p { layers = s' }) ps rest
      × ((y : ℕ) → Apart y (ids ps) → s' y ≡ p.layers y)
      × ((y : ℕ) → Relaid (p.layers y) (s' y))
calculate_packet-Represents p ps rest fuel u enough small =
    let s = p.layers in
    let (s', run, relaid, keep, placed) =
      calculate-Placed s ps fuel 0 p.raw_packet.raw_data_len p.first_layer none p.last_layer
        u.linked u.distinct u.fits enough u.holds.1 (omega (arith, small, u.holds.1)) in
    let none_trailing = trailer_len_lem p (ids ps) u.linked u.no_trailer in
    (
      s',
      rw (calculate_packet, none_trailing, run) refl,
      record {
        linked =
            Segment-keep s s' (ids ps) p.first_layer none p.last_layer none
              (Relaid-SameLinks s s' relaid (ids ps)) u.linked;
        distinct = u.distinct;
        holds = u.holds;
        placed = placed;
        fits = Relaid-Fits s s' relaid ps u.fits;
        no_trailer =
            Relaid-All s s' relaid NoTrailer
              (λ l l' r h. ap (λ o. o.protocol == packet_trailer) r ∙ h) (ids ps) u.no_trailer;
        attached =
            Relaid-All s s' relaid (λ l. l.owner ≡ this_packet)
              (λ l l' r h. ap (λ o. o.owner) r ∙ h) (ids ps) u.attached;
        within = u.within;
        room = u.room;
      },
      keep,
      relaid,
    )

-- A packet that differs in its raw packet and maximal length at most.
abbrev pub Regrown : Packet → Packet → Type 0
Regrown p p' = p' ≡ record p { raw_packet = p'.raw_packet; max_packet_len = p'.max_packet_len }

module _ (p : Packet) (ps : List Piece) (rest : List ℕ) (fuel : ℕ) (r : Represents p ps rest)
    (enough : length ps < fuel) where
  reallocate_raw_data-Represents :
      (size : ℕ)
      → length (bytes ps) < size
      → size < 0x8000_0000
      → (p' : Packet) × (rest' : List ℕ) × (reallocate_raw_data fuel p size ≡ some p')
        × Represents p' ps rest'
        × (length rest' + length (bytes ps) ≡ size)
        × (p'.max_packet_len ≡ size)
        × Regrown p p'
  unfolding reallocate_raw_data
  reallocate_raw_data-Represents size larger small =
      let (raw, rest', run, holds, count, _) =
        reallocate_data_keeps p.raw_packet (bytes ps) rest size r.holds larger small in
      let moved =
        set_pointers-Placed p.layers ps fuel 0 p.first_layer none p.last_layer r.linked r.placed
          enough in
      (
        record p { raw_packet = raw; max_packet_len = size },
        rest',
        rw (run, moved, reallocate_raw_data) refl,
        record {
          linked = r.linked;
          distinct = r.distinct;
          holds = holds;
          placed = r.placed;
          fits = r.fits;
          no_trailer = r.no_trailer;
          attached = r.attached;
          within = omega (arith, larger);
          room = omega (arith, count);
        },
        count,
        refl,
        refl,
      )

  -- The buffer is made large enough for n more bytes, and the packet stays the same.
  pub make_room-Represents :
      (n : ℕ)
      → length (bytes ps) + n + p.max_packet_len < 0x8000_0000
      → (p' : Packet) × (rest' : List ℕ) × (make_room fuel p n ≡ some p')
        × Represents p' ps rest'
        × (n ≤ length rest')
        × (n + length (bytes ps) ≤ p'.max_packet_len)
        × Regrown p p'
  unfolding make_room
  make_room-Represents n small =
      let len = p.raw_packet.raw_data_len + n in
      let bytes_len = r.holds.1 in
      let within = r.within in
      let room = r.room in
      elim (Bool-cases (ltb p.max_packet_len len)) [
        | inl full ↦
            let over : p.max_packet_len < len = ground (arith, full) in
            elim (Bool-cases (ltb (p.max_packet_len * 2) len)) [
              | inl far ↦
                  let (p', rest', e, r', c, m, g) =
                    reallocate_raw_data-Represents (len + p.max_packet_len)
                      (omega (arith, bytes_len, within, over)) (omega (arith, bytes_len, small)) in
                  rw (full, far)
                    (p', rest', e, r', omega (arith, c, bytes_len), omega (arith, m, bytes_len), g)
              | inr near ↦
                  let twice : len ≤ p.max_packet_len * 2 = ground (arith, near) in
                  let (p', rest', e, r', c, m, g) =
                    reallocate_raw_data-Represents (p.max_packet_len * 2)
                      (omega (arith, bytes_len, within, over, twice))
                      (omega (arith, bytes_len, small, over)) in
                  rw (full, near)
                    (
                      p',
                      rest',
                      e,
                      r',
                      omega (arith, c, bytes_len, twice),
                      omega (arith, m, bytes_len, twice),
                      g,
                    )
            ]
        | inr free ↦
            let fits : len ≤ p.max_packet_len = ground (arith, free) in
            rw free (
              p,
              rest,
              refl,
              r,
              omega (arith, fits, bytes_len, room),
              omega (arith, fits, bytes_len),
              refl,
            )
      ]
