-- ===== src/Packet/Remove.antt =====
-- removeLayer takes a layer and its header's bytes out of the packet.
use Prim.Native.Nat.{bit_and}
use mathlib.Core.Path.{subst}
use pcap_plus_plus.Prelude.{
  ℕ, suc, ◌+◌, ◌-◌, ◌<◌, ◌≡◌, refl, sym, ap, ◌∙◌, Bool, true, none, some, List, [], ◌∷◌, ◌++◌,
  arith, ◌==◌, if◌then◌else◌, All, length, length-append,
}
use pcap_plus_plus.RawPacket.{RawPacket, load_bytes, remove_data}
use pcap_plus_plus.RawPacket.Edit.{Holds, remove_data_removes}
use pcap_plus_plus.Packet.{
  Layer, inside, Packet, this_packet, set_layer, same_layer, get_header_len, calculate_packet,
  header_at, is_allocated_to_packet,
}
use pcap_plus_plus.Packet.Edit.{
  unlink_layer, head_of, another_layer, released, remove_links, remove_bytes, remove_layer,
}
use pcap_plus_plus.Packet.Links.{Chain, All-split}
use pcap_plus_plus.Packet.Layout.{Piece, ids, bytes}
use pcap_plus_plus.Packet.Represents.{Represents, calculate_packet-Represents}
use pcap_plus_plus.Packet.Relink.{bytes-append}
use pcap_plus_plus.Packet.RemoveSteps.{head_of_lem, Placed-middle, another_layer_ends}
use pcap_plus_plus.Packet.RemoveBytes.{
  Apart-Represents, Released, released_lem, order, count, apart, unlink_layer-Unplaced,
  header_bytes,
}

links_steps :
    (fuel : ℕ) (p : Packet) (x : ℕ) (del : Bool) (old : List ℕ) (s : ℕ → Layer) (another : Bool)
    → calculate_packet fuel (unlink_layer p x) ≡ some (record (unlink_layer p x) { layers = s })
    → another_layer fuel s (unlink_layer p x).first_layer (p.layers x).protocol ≡ some another
    → (types : ℕ) × (remove_links fuel p x del old
        ≡ some (record (unlink_layer p x) {
          protocol_types = types;
          layers = set_layer s x (released (s x) old del);
        }))
unfolding remove_links
links_steps fuel p x del old s another e f = (
  if another
      then (unlink_layer p x).protocol_types
      else bit_and (unlink_layer p x).protocol_types
          (0xFFFF_FFFF_FFFF_FFFF - (p.layers x).protocol),
  rw (remove_links, e, remove_links, f) refl,
)

bytes_steps :
    (fuel : ℕ) (p p' : Packet) (x at n : ℕ) (del : Bool) (old : List ℕ) (raw : RawPacket)
    → header_at (p.layers x) ≡ some at
    → get_header_len (p.layers x) ≡ n
    → load_bytes p.raw_packet.raw_data at n ≡ some old
    → remove_data p.raw_packet at n ≡ some (raw, true)
    → remove_links fuel (record p { raw_packet = raw }) x del old ≡ some p'
    → remove_bytes fuel p x del ≡ some (p', true)
unfolding remove_bytes
bytes_steps fuel p p' x at n del old raw place len loaded removed links =
    rw (remove_bytes, place, remove_bytes, len, loaded, len, removed, remove_bytes, links) refl

remove_steps :
    (fuel : ℕ) (p p' : Packet) (x h : ℕ) (del : Bool)
    → is_allocated_to_packet (p.layers x) ≡ true
    → head_of fuel p.layers x ≡ some h
    → same_layer p.first_layer h ≡ true
    → remove_bytes fuel p x del ≡ some (p', true)
    → remove_layer fuel p (some x) del ≡ some (p', true)
unfolding remove_layer
remove_steps fuel p p' x h del e head same run = rw (remove_layer, e, head, same, run) refl

length-ids : (ps : List Piece) → length (ids ps) ≡ length ps
length-ids [] = refl
length-ids ((y, b) ∷ ps) = ap suc (length-ids ps)

header_at_lem : (l : Layer) (at : ℕ) → l.data_at ≡ inside at → header_at l ≡ some at
unfolding header_at
header_at_lem l at e = rw (header_at, e) refl

allocated : (l : Layer) → l.owner ≡ this_packet → is_allocated_to_packet l ≡ true
allocated l e = rw e refl

Released-set :
    (s : ℕ → Layer) (x : ℕ) (l : Layer) (h : List ℕ) → Released l h → Released (set_layer s x l x) h
Released-set s x l h e = let same : (x == x) ≡ true = ground arith in rw same e

-- removeLayer of a layer of a packet without a trailer, where each header but the last one has a
-- length of its own, of fewer than 2^64 bytes and with more fuel than layers: it succeeds, the
-- packet then consists of the other layers and headers, and the removed layer is deleted, or is
-- free and has its header's bytes as its own data.
pub remove_layer-Represents :
    (fuel : ℕ) (p : Packet) (x : ℕ) (h : List ℕ) (ls rs : List Piece) (rest : List ℕ) (del : Bool)
    → Represents p (ls ++ ((x, h) ∷ rs)) rest
    → length (ls ++ ((x, h) ∷ rs)) < fuel
    → length (bytes (ls ++ ((x, h) ∷ rs))) < 0x1_0000_0000_0000_0000
    → (p' : Packet) × (rest' : List ℕ) × (remove_layer fuel p (some x) del ≡ some (p', true))
      × Represents p' (ls ++ rs) rest'
      × Released (p'.layers x) h
remove_layer-Represents fuel p x h ls rs rest del r enough small =
    let sizes = length-append ls ((x, h) ∷ rs) in
    let sizes' = length-append ls rs in
    let (place, len) = Placed-middle p.layers ls rs x h 0 r.placed in
    let start : 0 + length (bytes ls) ≡ length (bytes ls) = omega arith in
    let before : Holds p.raw_packet (bytes ls ++ (h ++ bytes rs)) rest =
      subst (λ b. Holds p.raw_packet b rest) (bytes-append ls ((x, h) ∷ rs)) r.holds in
    let (raw, rest', removed, after, grown) =
      remove_data_removes p.raw_packet (bytes ls) h (bytes rs) rest before in
    let holds : Holds raw (bytes (ls ++ rs)) rest' =
      subst (λ b. Holds raw b rest') (sym (bytes-append ls rs)) after in
    let p₁ = record p { raw_packet = raw } in
    let q = unlink_layer p₁ x in
    let u = unlink_layer-Unplaced p ls rs x h rest r raw rest' holds grown in
    let (s, calculated, represents, _, _) =
      calculate_packet-Represents q (ls ++ rs) rest' fuel u (omega (arith, enough, sizes, sizes'))
        (omega (arith, small, count p ls rs x h rest r)) in
    let (another, walked) =
      another_layer_ends s (ids (ls ++ rs)) fuel (p.layers x).protocol q.first_layer none
        q.last_layer represents.linked
        (omega (arith, length-ids (ls ++ rs), enough, sizes, sizes')) in
    let (types, links) = links_steps fuel p₁ x del h s another calculated walked in
    let (first, head, same) =
      head_of_lem p.layers (ids ls) (ids rs) x fuel p.first_layer p.last_layer
        (subst (Chain p) (order p ls rs x h rest r) r.linked)
        (omega (arith, length-ids ls, enough, sizes)) in
    let bytes_run =
      bytes_steps fuel p _ x (length (bytes ls)) (length h) del h raw
        (header_at_lem (p.layers x) (length (bytes ls)) (place ∙ ap inside start)) len
        (header_bytes p ls rs x h rest r) removed links in
    let taken =
      allocated (p.layers x)
        (All-split (λ y. (p.layers y).owner ≡ this_packet) (ids ls) (x ∷ ids rs)
          (subst (All (λ y. (p.layers y).owner ≡ this_packet)) (order p ls rs x h rest r)
            r.attached)).1.0 in
    (
      _,
      rest',
      remove_steps fuel p _ x first del taken head same bytes_run,
      Apart-Represents (record q { layers = s }) (ls ++ rs) rest' x (released (s x) h del) types
          represents (apart p ls rs x h rest r),
      Released-set s x (released (s x) h del) h (released_lem (s x) h del),
    )
