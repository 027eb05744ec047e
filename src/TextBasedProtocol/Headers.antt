-- ===== src/TextBasedProtocol/Headers.antt =====
-- The loop of parseFields over the lines of a header.
use mathlib.Core.Path.{subst}
use mathlib.Core.List.{append_assoc}
use pcap_plus_plus.Prelude.{
  ℕ, zero, suc, ◌+◌, ◌<◌, ◌≡◌, some, inr, refl, sym, ap, ◌∙◌, Bool, true, false, none, List, [],
  ◌∷◌, ◌++◌, arith, leb, ◌==◌, if◌then◌else◌, length, length-append, All,
}
use pcap_plus_plus.TextBasedProtocol.Field.{HeaderField, npos, crlf, parsed, parse_field}
use pcap_plus_plus.TextBasedProtocol.Message.Parse.{parse_loop}
use pcap_plus_plus.TextBasedProtocol.Entries.{Entry, text, texts, new_entry, FieldFits}
use pcap_plus_plus.TextBasedProtocol.Lines.{IsLine, parse_field-FieldFits, parse_field-end}

abbrev pub HeadersFit : ℕ → List Entry → List HeaderField → Type 0
HeadersFit at [] [] = Unit
HeadersFit at [] (f ∷ fs) = ⊥
HeadersFit at (e ∷ es) [] = ⊥
HeadersFit at (e ∷ es) (f ∷ fs) = FieldFits at e f × HeadersFit (at + length (text e)) es fs

taken : {A : Type 0} (b : Bool) (x y : A) → b ≡ true → (if b then x else y) ≡ x
taken b x y h = rw h refl

skipped : {A : Type 0} (b : Bool) (x y : A) → b ≡ false → (if b then x else y) ≡ y
skipped b x y h = rw h refl

module _ (separator : ℕ) (spaces : Bool) where
  -- A header: lines with a name and a value each, and the end of the header.
  abbrev pub header : List (List ℕ × List ℕ) → List Entry
  header [] = new_entry [] [] separator spaces ∷ []
  header ((name, value) ∷ lines) = new_entry name value separator spaces ∷ header lines

  abbrev pub AreLines : List (List ℕ × List ℕ) → Type 0
  AreLines = All (λ l. IsLine separator spaces l.0 l.1)

  new_entry_filled :
      (name value : List ℕ) → 0 < length (text (new_entry name value separator spaces))
  new_entry_filled [] value = omega arith
  new_entry_filled (c ∷ cs) value = omega arith

  module _ (fuel offset : ℕ) (bytes : List ℕ) (f : HeaderField)
      (read : parse_field bytes offset separator spaces ≡ f) (inside : offset < length bytes)
      (small : offset < 0x8000_0000) (more : 0 < f.field_size) where
    -- The field at the offset is the last one of the header.
    loop_ends :
        f.is_end_of_header ≡ true
        → parse_loop (suc fuel) bytes separator spaces offset ≡ some (f ∷ [])
    unfolding parse_loop
    loop_ends ends =
        let g : leb (length bytes) offset ≡ false = ground arith in
        let i : leb 0x8000_0000 offset ≡ false = ground arith in
        let h : (f.field_size == 0) ≡ false = ground arith in
        rw (read, g, i, h) (taken f.is_end_of_header _ _ ends)

    loop_goes_on :
        (fs : List HeaderField)
        → f.is_end_of_header ≡ false
        → parse_loop fuel bytes separator spaces (offset + f.field_size) ≡ some fs
        → parse_loop (suc fuel) bytes separator spaces offset ≡ some (f ∷ fs)
    unfolding parse_loop
    loop_goes_on fs goes_on rest =
        let g : leb (length bytes) offset ≡ false = ground arith in
        let i : leb 0x8000_0000 offset ≡ false = ground arith in
        let h : (f.field_size == 0) ≡ false = ground arith in
        rw (read, g, i, h, rest)
          (skipped f.is_end_of_header _ _ goes_on ∙ ap (λ x. some (x ∷ fs)) read)

  end_fits :
      (at : ℕ)
      → FieldFits at
          (new_entry [] [] separator spaces)
          (parsed separator spaces at 2 npos none npos true)
  end_fits at = record {
    attached = refl;
    at_name = refl;
    size = refl;
    name_fits = inr (refl, refl);
    value_fits = inr (refl, refl);
    short = omega arith;
  }

  -- What parseFields' loop gives for a header, and its first field.
  abbrev pub Parsed : List ℕ → ℕ → ℕ → List Entry → Type 0
  Parsed bytes fuel at es =
      (fs : List HeaderField) × (parse_loop fuel bytes separator spaces at ≡ some fs)
      × HeadersFit at es fs

  pub parse_loop-HeadersFit :
      (fuel : ℕ) (bytes a b : List ℕ) (lines : List (List ℕ × List ℕ))
      → AreLines lines
      → length lines < fuel
      → length bytes < 0x8000_0000
      → bytes ≡ a ++ (texts (header lines) ++ b)
      → Parsed bytes fuel (length a) (header lines)
  parse_loop-HeadersFit zero bytes a b lines ok enough small e = absurd (omega arith)
  parse_loop-HeadersFit (suc fuel) bytes a b [] ok enough small e =
      let f = parsed separator spaces (length a) 2 npos none npos true in
      let inside : length a < length bytes =
        omega (arith, ap length e, length-append a (crlf ++ b)) in
      (
        f ∷ [],
        loop_ends fuel (length a) bytes f (parse_field-end bytes a b separator spaces e) inside
            (omega arith) (omega arith) refl,
        (end_fits (length a), tt),
      )
  parse_loop-HeadersFit (suc fuel) bytes a b ((name, value) ∷ lines) ok enough small e =
      let this = new_entry name value separator spaces in
      let rest = texts (header lines) ++ b in
      let f = parse_field bytes (length a) separator spaces in
      let split = e ∙ ap (λ x. a ++ x) (append_assoc (text this) (texts (header lines)) b) in
      let (fits, goes_on) =
        parse_field-FieldFits bytes a rest name value separator spaces ok.0 split (omega arith) in
      let len = length-append a (text this ++ rest) in
      let len' = length-append (text this) rest in
      let some_text : 0 < length (text this) = new_entry_filled name value in
      let inside : length a < length bytes = omega (arith, ap length split, len, len') in
      let next : length (a ++ text this) ≡ length a + f.field_size =
        omega (arith, fits.size, length-append a (text this)) in
      let (fs, loop, back) =
        subst (λ at. Parsed bytes fuel at (header lines)) next
          (parse_loop-HeadersFit fuel bytes (a ++ text this) b lines ok.1 (omega arith) small
            (split ∙ sym (append_assoc a (text this) rest))) in
      (
        f ∷ fs,
        loop_goes_on fuel (length a) bytes f refl inside (omega (arith, small))
            (omega (arith, fits.size)) fs goes_on loop,
        (fits, subst (λ n. HeadersFit (length a + n) (header lines) fs) fits.size back),
      )

  -- There are bytes for each line, and the first one is not empty.
  pub header_long :
      (bytes a b : List ℕ) (lines : List (List ℕ × List ℕ))
      → AreLines lines
      → length bytes < 0x8000_0000
      → bytes ≡ a ++ (texts (header lines) ++ b)
      → (length lines < length (texts (header lines)))
        × (0 < (parse_field bytes (length a) separator spaces).field_size)
  header_long bytes a b [] ok small e =
      (omega arith, rw (parse_field-end bytes a b separator spaces e) (omega arith))
  header_long bytes a b ((name, value) ∷ lines) ok small e =
      let this = new_entry name value separator spaces in
      let rest = texts (header lines) ++ b in
      let split = e ∙ ap (λ x. a ++ x) (append_assoc (text this) (texts (header lines)) b) in
      let (fits, goes_on) =
        parse_field-FieldFits bytes a rest name value separator spaces ok.0 split (omega arith) in
      let filled = new_entry_filled name value in
      let (more, next) =
        header_long bytes (a ++ text this) b lines ok.1 small
          (split ∙ sym (append_assoc a (text this) rest)) in
      (omega (arith, length-append (text this) (texts (header lines))), omega (arith, fits.size))
