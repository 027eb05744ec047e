-- ===== src/Ip/Process/Steps.antt =====
-- One fragment of a packet whose fragments are all to come: IPReassembly keeps it, or has the packet.
use mathlib.Core.Path.{subst}
use pcap_plus_plus.Prelude.{
  ℕ, ◌+◌, ◌%◌, ◌<◌, ◌≡◌, refl, sym, ap, ◌∙◌, inl, inr, Bool, true, false, ◌&&◌, none, some, List,
  [], ◌∷◌, ◌++◌, arith, ltb, ltb→lt, ◌==◌, ==_iff, length, take, drop, Bool-cases, Option-cases,
  if_cases,
}
use pcap_plus_plus.Prelude.Map.{lookup, lookup-insert_self}
use pcap_plus_plus.Ip.Fragment.{
  IpLayer, over_ipv4, over_ipv6, IpPacket, is_fragment, is_first_fragment, is_last_fragment,
  get_fragment_offset, ipv4_is_first_fragment, ipv4_fragment_offset,
}
use pcap_plus_plus.Ip.Match.{advance}
use pcap_plus_plus.Ip.Match.Payload.{Assembled, Assembled-next}
use pcap_plus_plus.Ip.Process.{
  first_fragment, fragment, IpFragmentData, IpReassembly, store, extended, handle_fragment,
}
use pcap_plus_plus.Ip.Process.Gathering.{
  carried, Gathers, Piece, Steps, With, false-ne-true, complete-Reassembles, extended-Steps, come,
  passed, queued,
}

is_first_fragment_iff :
    (l : IpLayer) → is_fragment l ≡ true → is_first_fragment l ≡ (get_fragment_offset l == 0)
unfolding is_fragment is_first_fragment get_fragment_offset ipv4_is_first_fragment
is_first_fragment_iff (over_ipv4 h) e = ap (λ b. b && ipv4_fragment_offset h == 0) e
is_first_fragment_iff (over_ipv6 h) e = elim (Option-cases h.frag_header) [
  | inl n ↦ cc (rw n at e)
  | inr (f, s) ↦ rw s refl
]

none-ne-some : {A : Type 0} {a : A} → none ≡ some a → ⊥
none-ne-some e = cc

passed_by : (a b : ℕ) → (a == b) ≡ false → ltb a b ≡ false → b < a
passed_by a b e h = ground arith

module _ (payload front : List ℕ) (Expected : ℕ → Type 0) (small : length payload < 0x1_0000)
    (Coming : ℕ → Type 0) (r : IpReassembly) (hash : ℕ) (is_new : Bool) (d : IpFragmentData)
    (p : IpPacket) (piece : Piece payload front Expected hash p)
    (fresh : is_new ≡ true → (d.waiting ≡ []) × (d.raw ≡ none))
    (g : Gathers payload front Expected (With Coming (get_fragment_offset piece.l)) d) where
  abbrev piece_len : ℕ
  piece_len = length p.payload

  first-Steps :
      d.raw ≡ none
      → d.current_offset ≡ 0
      → get_fragment_offset piece.l ≡ 0
      → Steps payload front Expected Coming hash
          (extended r hash is_new d p.raw (piece_len % 0x1_0000) false first_fragment)
  first-Steps no_raw zero_offset at =
      let part = piece.part in
      let (not_last, bytes) = piece.starts at in
      let no_wrap : piece_len % 0x1_0000 ≡ piece_len = omega (arith, part.cut.inside) in
      let cut_bytes = part.cut.data_of ∙ ap (λ o. take piece_len (drop o payload)) at in
      rw no_wrap (
        extended-Steps payload front Expected small Coming r hash is_new d p.raw piece_len
          first_fragment (λ new. (fresh new).0) g.parts
          (omega (arith, part.cut.inside), bytes ∙ ap (λ ys. front ++ ys) cut_bytes) part.filled
          (subst Expected (omega arith) (part.next not_last))
          (passed payload front Expected small Coming d (get_fragment_offset piece.l) piece_len
            (omega arith) (omega (arith, part.filled)) g))

  next-Steps :
      (raw : List ℕ)
      → d.raw ≡ some raw
      → Assembled payload front d.current_offset raw
      → d.current_offset ≡ get_fragment_offset piece.l
      → Steps payload front Expected Coming hash (
          extended r hash is_new d
            (raw ++ p.payload)
            (advance d.current_offset piece_len)
            (is_last_fragment piece.l)
            fragment)
  unfolding extended
  next-Steps raw has_raw bytes at =
      let part = piece.part in
      let offset = get_fragment_offset piece.l in
      let (e, bytes') =
        Assembled-next payload small front d.current_offset raw (carried piece.l p) bytes part.cut
          at in
      let behind : offset < advance d.current_offset piece_len = omega (arith, e, part.filled) in
      elim (Bool-cases (is_last_fragment piece.l)) [
        | inl last ↦ elim (Bool-cases is_new) [
          | inl new ↦ absurd (none-ne-some (sym (fresh new).1 ∙ has_raw))
          | inr old ↦
              rw (last, old)
                (complete-Reassembles payload front Expected small Coming r hash (raw ++ p.payload)
                  (advance d.current_offset piece_len) bytes'
                  (elim part.cut.ends [
                    | inl not_last ↦ absurd (false-ne-true (sym not_last ∙ last))
                    | inr w ↦ omega (arith, e, w, at)
                  ]))
        ]
        | inr more ↦ rw more (
            extended-Steps payload front Expected small Coming r hash is_new d (raw ++ p.payload)
              (advance d.current_offset piece_len) fragment (λ new. (fresh new).0) g.parts bytes'
              (omega arith)
              (subst Expected (ap (λ o. o + piece_len) (sym at) ∙ sym e) (part.next more))
              (passed payload front Expected small Coming d offset _ (omega arith) behind g))
      ]

  pub handle_fragment-Steps :
      lookup hash r.fragment_map ≡ some d
      → Steps payload front Expected Coming hash (handle_fragment r hash is_new d piece.l p)
  unfolding handle_fragment store
  handle_fragment-Steps held =
      let l = piece.l in
      let offset = get_fragment_offset l in
      let Goal = Steps payload front Expected Coming hash in
      let first_at = is_first_fragment_iff l piece.fragmented in
      if_cases Goal (is_first_fragment l) _ _
        (λ first.
          let at = (==_iff offset 0).0 (sym first_at ∙ first) in
          elim g.bytes [
            | inl (no_raw, zero_offset) ↦ rw no_raw (first-Steps no_raw zero_offset at)
            | inr (raw, has_raw, bytes, pos) ↦ rw has_raw (
                inr (
                  d,
                  held,
                  come payload front Expected small Coming d offset (inl (omega arith)) g,
                ))
          ])
        λ inner.
          if_cases Goal (d.current_offset == offset) _ _
            (λ next.
              let at = (==_iff _ _).0 next in
              elim g.bytes [
                | inl (no_raw, zero_offset) ↦
                    let first = first_at ∙ (==_iff offset 0).1 (sym at ∙ zero_offset) in
                    absurd (false-ne-true (sym inner ∙ first))
                | inr (raw, has_raw, bytes, pos) ↦ rw has_raw (next-Steps raw has_raw bytes at)
              ])
            λ other.
              if_cases Goal (ltb d.current_offset offset) _ _
                (λ later.
                  let f = carried l p in
                  inr (
                    record d { waiting = d.waiting ++ f ∷ [] },
                    lookup-insert_self hash _ r.fragment_map,
                    queued payload front Expected small Coming d f (ltb→lt _ _ later) piece.part g,
                  ))
                λ earlier. inr (
                  d,
                  held,
                  come payload front Expected small Coming d offset
                      (inl (passed_by _ _ other earlier)) g,
                )
