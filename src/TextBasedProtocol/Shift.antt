-- ===== src/TextBasedProtocol/Shift.antt =====
-- Lists of fields: those that fit entries, cut, joined and shifted, and what the links show.
use mathlib.Core.Path.{subst}
use mathlib.Core.List.{append_assoc}
use pcap_plus_plus.Prelude.{
  ℕ, ◌+◌, ◌<◌, ◌≡◌, inl, inr, refl, sym, ap, ◌∙◌, Bool, true, false, Option, none, some, List, [],
  ◌∷◌, ◌++◌, arith, ◌==◌, length, length-append, All, if◌then◌else◌, if_cases,
}
use pcap_plus_plus.TextBasedProtocol.Field.{HeaderField}
use pcap_plus_plus.TextBasedProtocol.Message.{
  Fields, offsets_fit, field_at, shift_fields_offset, first_of, next_of, link_field, unlink_field,
  last_of,
}
use pcap_plus_plus.TextBasedProtocol.Message.Values.{change_field}
use pcap_plus_plus.TextBasedProtocol.Entries.{
  Entry, text, texts, FieldFits, FieldsFit, fits_int-FieldFits,
}

pub texts-append : (xs ys : List Entry) → texts (xs ++ ys) ≡ texts xs ++ texts ys
texts-append [] ys = refl
texts-append (x ∷ xs) ys =
    ap (λ z. text x ++ z) (texts-append xs ys) ∙ sym (append_assoc (text x) (texts xs) (texts ys))

pub FieldsFit-subst :
    (a b : ℕ) (es : List Entry) (fs : Fields) → a ≡ b → FieldsFit a es fs → FieldsFit b es fs
FieldsFit-subst a b es fs e = subst (λ k. FieldsFit k es fs) e

FieldFits-shift :
    (a b : ℕ) (shift : ℕ → ℕ) (e : Entry) (f : HeaderField)
    → ((k : ℕ) → shift (a + k) ≡ b + k)
    → FieldFits a e f
    → FieldFits b e (record f {
      name_offset_in_message = shift f.name_offset_in_message;
      value_offset_in_message = elim f.value_offset_in_message [
        | none ↦ none
        | some at ↦ some (shift at)
      ];
    })
FieldFits-shift a b shift e f move fits = record {
  attached = fits.attached;
  at_name = ap shift (fits.at_name ∙ sym (omega arith)) ∙ move 0 ∙ omega arith;
  size = fits.size;
  name_fits = fits.name_fits;
  value_fits = elim fits.value_fits [
    | inl (o, n) ↦ inl (rw o (ap some (move (length e.name + length e.between))), n)
    | inr (o, nil) ↦ inr (rw o refl, nil)
  ];
  short = fits.short;
}

-- The fields shifted from one place to another.
pub FieldsFit-shift :
    (a b : ℕ) (shift : ℕ → ℕ) (es : List Entry) (fs : Fields)
    → ((k : ℕ) → shift (a + k) ≡ b + k)
    → FieldsFit a es fs
    → FieldsFit b es (shift_fields_offset shift fs)
unfolding shift_fields_offset
FieldsFit-shift a b shift [] [] move fits = tt
FieldsFit-shift a b shift [] (p ∷ fs) move fits = fits
FieldsFit-shift a b shift (e ∷ es) [] move fits = fits
FieldsFit-shift a b shift (e ∷ es) ((c, f) ∷ fs) move fits =
    let n = length (text e) in
    (
      FieldFits-shift a b shift e f move fits.0,
      FieldsFit-shift (a + n) (b + n) shift es fs
          (λ k. ap shift (omega arith) ∙ move (n + k) ∙ omega arith) fits.1,
    )

pub offsets_fit-FieldsFit :
    (at : ℕ) (es : List Entry) (fs : Fields)
    → FieldsFit at es fs
    → at + length (texts es) < 0x8000_0000
    → offsets_fit fs ≡ true
unfolding offsets_fit
offsets_fit-FieldsFit at [] [] fits small = refl
offsets_fit-FieldsFit at [] (p ∷ fs) fits small = absurd fits
offsets_fit-FieldsFit at (e ∷ es) [] fits small = absurd fits
offsets_fit-FieldsFit at (e ∷ es) ((a, f) ∷ fs) fits small =
    let len = length-append (text e) (texts es) in
    rw
      (
        fits_int-FieldFits at e f fits.0 (omega (arith, len, small)),
        offsets_fit-FieldsFit (at + length (text e)) es fs fits.1 (omega (arith, len, small)),
      )
      refl

pub FieldsFit-append :
    (at : ℕ) (xs ys : List Entry) (ps qs : Fields)
    → FieldsFit at xs ps
    → FieldsFit (at + length (texts xs)) ys qs
    → FieldsFit at (xs ++ ys) (ps ++ qs)
FieldsFit-append at [] ys [] qs h k = FieldsFit-subst _ _ ys qs (omega arith) k
FieldsFit-append at [] ys (p ∷ ps) qs h k = absurd h
FieldsFit-append at (x ∷ xs) ys [] qs h k = absurd h
FieldsFit-append at (x ∷ xs) ys ((a, f) ∷ ps) qs h k = (
  h.0,
  FieldsFit-append (at + length (text x)) xs ys ps qs h.1
      (FieldsFit-subst _ _ ys qs (omega (arith, length-append (text x) (texts xs))) k),
)

pub FieldsFit-cut :
    (at : ℕ) (xs ys : List Entry) (ps qs : Fields)
    → length xs ≡ length ps
    → FieldsFit at (xs ++ ys) (ps ++ qs)
    → FieldsFit at xs ps × FieldsFit (at + length (texts xs)) ys qs
FieldsFit-cut at [] ys [] qs same h = (tt, FieldsFit-subst _ _ ys qs (omega arith) h)
FieldsFit-cut at [] ys (p ∷ ps) qs same h = absurd (omega arith)
FieldsFit-cut at (x ∷ xs) ys [] qs same h = absurd (omega arith)
FieldsFit-cut at (x ∷ xs) ys ((a, f) ∷ ps) qs same h =
    let (front, back) = FieldsFit-cut (at + length (text x)) xs ys ps qs (omega arith) h.1 in
    (
      (h.0, front),
      FieldsFit-subst _ _ ys qs (omega (arith, length-append (text x) (texts xs))) back,
    )

-- None of the fields has the address.
abbrev pub Without : ℕ → Fields → Type 0
Without a fs = All (λ p. (p.0 == a) ≡ false) fs

same_self : (a : ℕ) → (a == a) ≡ true
same_self a = ground arith

module _ (a : ℕ) (f : HeaderField) (gs : Fields) where
  pub field_at-there : (ps : Fields) → Without a ps → field_at a (ps ++ (a, f) ∷ gs) ≡ some f
  unfolding field_at
  field_at-there [] w = rw (same_self a) refl
  field_at-there ((b, g) ∷ ps) w = rw (w.0) (field_at-there ps w.1)

  pub next_of-there : (ps : Fields) → Without a ps → next_of a (ps ++ (a, f) ∷ gs) ≡ first_of gs
  unfolding next_of
  next_of-there [] w = rw (same_self a) refl
  next_of-there ((b, g) ∷ ps) w = rw (w.0) (next_of-there ps w.1)

  pub link_field-there :
      (shift : ℕ → ℕ) (new : ℕ × HeaderField) (ps : Fields)
      → Without a ps
      → link_field shift a new (ps ++ (a, f) ∷ gs)
        ≡ ps ++ ((a, f) ∷ new ∷ shift_fields_offset shift gs)
  unfolding link_field
  link_field-there shift new [] w = rw (same_self a) refl
  link_field-there shift new ((b, g) ∷ ps) w =
      rw (w.0) (ap (λ fs. (b, g) ∷ fs) (link_field-there shift new ps w.1))

  pub unlink_field-there :
      (shift : ℕ → ℕ) (ps : Fields)
      → Without a ps
      → unlink_field shift a (ps ++ (a, f) ∷ gs) ≡ ps ++ shift_fields_offset shift gs
  unfolding unlink_field
  unlink_field-there shift [] w = rw (same_self a) refl
  unlink_field-there shift ((b, g) ∷ ps) w =
      rw (w.0) (ap (λ fs. (b, g) ∷ fs) (unlink_field-there shift ps w.1))

  pub change_field-there :
      (shift : ℕ → ℕ) (changed : HeaderField) (ps : Fields)
      → Without a ps
      → change_field shift a changed (ps ++ (a, f) ∷ gs)
        ≡ ps ++ (a, changed) ∷ shift_fields_offset shift gs
  unfolding change_field
  change_field-there shift changed [] w = rw (same_self a) refl
  change_field-there shift changed ((b, g) ∷ ps) w =
      rw (w.0) (ap (λ fs. (b, g) ∷ fs) (change_field-there shift changed ps w.1))

pub last_of-append :
    (o : Option ℕ) (ps qs : Fields) → last_of o (ps ++ qs) ≡ last_of (last_of o ps) qs
unfolding last_of
last_of-append o [] qs = refl
last_of-append o ((a, f) ∷ ps) qs = last_of-append (some a) ps qs

pub last_of-shift :
    (o : Option ℕ) (shift : ℕ → ℕ) (fs : Fields)
    → last_of o (shift_fields_offset shift fs) ≡ last_of o fs
unfolding last_of shift_fields_offset
last_of-shift o shift [] = refl
last_of-shift o shift ((a, f) ∷ fs) = last_of-shift (some a) shift fs

-- The last field once a new one is behind the field q.
pub last_linked :
    (last : Option ℕ) (new q : ℕ) (f g : HeaderField) (shift : ℕ → ℕ) (ps gs : Fields)
    → last ≡ last_of none (ps ++ (q, f) ∷ gs)
    → (elim (first_of gs) as (λ o. Option ℕ) [ none ↦ some new | some a ↦ last ])
      ≡ last_of none (ps ++ ((q, f) ∷ (new, g) ∷ shift_fields_offset shift gs))
unfolding last_of first_of shift_fields_offset
last_linked last new q f g shift ps [] e = sym (last_of-append none ps ((q, f) ∷ (new, g) ∷ []))
last_linked last new q f g shift ps ((a, h) ∷ gs) e =
    e
    ∙ last_of-append none ps ((q, f) ∷ (a, h) ∷ gs)
    ∙ sym (last_of-shift (some a) shift gs)
    ∙ sym (last_of-append none ps ((q, f) ∷ (new, g) ∷ shift_fields_offset shift ((a, h) ∷ gs)))

-- The last field once the field a is gone.
pub last_unlinked :
    (last : Option ℕ) (a : ℕ) (f : HeaderField) (shift : ℕ → ℕ) (ps gs fs : Fields)
    → last ≡ last_of none (ps ++ (a, f) ∷ gs)
    → fs ≡ ps ++ shift_fields_offset shift gs
    → (if (elim last as (λ o. Bool) [ none ↦ false | some b ↦ b == a ])
        then last_of none fs
        else last)
      ≡ last_of none fs
unfolding last_of shift_fields_offset
last_unlinked last a f shift ps [] fs e k =
    let own : last ≡ some a = e ∙ last_of-append none ps ((a, f) ∷ []) in rw (own, same_self a) refl
last_unlinked last a f shift ps ((b, g) ∷ gs) fs e k =
    let kept : last ≡ last_of none fs =
      e
      ∙ last_of-append none ps ((a, f) ∷ (b, g) ∷ gs)
      ∙ sym (last_of-shift (some b) shift gs)
      ∙ sym (last_of-append none ps (shift_fields_offset shift ((b, g) ∷ gs)))
      ∙ ap (last_of none) (sym k) in
    if_cases (λ o. o ≡ last_of none fs) _ _ _ (λ t. refl) λ t. kept

-- A change of a field keeps the last one.
pub last_changed :
    (a : ℕ) (f g : HeaderField) (shift : ℕ → ℕ) (ps gs : Fields)
    → last_of none (ps ++ (a, f) ∷ gs) ≡ last_of none (ps ++ (a, g) ∷ shift_fields_offset shift gs)
unfolding last_of
last_changed a f g shift ps gs =
    last_of-append none ps ((a, f) ∷ gs)
    ∙ sym (last_of-shift (some a) shift gs)
    ∙ sym (last_of-append none ps ((a, g) ∷ shift_fields_offset shift gs))
