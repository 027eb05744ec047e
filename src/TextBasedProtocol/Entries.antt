-- ===== src/TextBasedProtocol/Entries.antt =====
-- A text message as the header fields that it shows: names and values with what stands between them.
use mathlib.Core.List.{append_assoc}
use pcap_plus_plus.Prelude.{
  ℕ, ◌+◌, ◌≤◌, ◌<◌, ◌≡◌, ltb, ◌⊎◌, inl, inr, refl, sym, ap, ◌∙◌, Bool, true, false, none, some,
  List, [], ◌∷◌, ◌++◌, arith, ◌==◌, length, length-append,
}
use pcap_plus_plus.RawPacket.Buffers.{take_prefix, drop_prefix}
use pcap_plus_plus.TextBasedProtocol.Field.{
  HeaderField, this_message, npos, crlf, separation, init_new_field, assign_text, assign_string,
  get_field_name, get_field_value, returned, max_size, fits_int, field_name, field_value,
  copy_field, attach,
}
use pcap_plus_plus.TextBasedProtocol.Message.{Fields}

pub record Entry : Type 0 where
  pub name : List ℕ
  pub between : List ℕ
  pub value : List ℕ
  pub behind : List ℕ

abbrev pub text : Entry → List ℕ
text e = e.name ++ (e.between ++ (e.value ++ e.behind))

abbrev pub texts : List Entry → List ℕ
texts [] = []
texts (e ∷ es) = text e ++ texts es

-- What a new field writes.
abbrev pub new_entry : List ℕ → List ℕ → ℕ → Bool → Entry
new_entry [] value separator spaces = record { name = []; between = []; value = []; behind = crlf }
new_entry (c ∷ cs) value separator spaces = record {
  name = c ∷ cs;
  between = separation separator spaces;
  value = value;
  behind = crlf;
}

-- A field that shows an entry whose text begins there.
pub record FieldFits (at : ℕ) (e : Entry) (f : HeaderField) : Type 0 where
  pub attached : f.message ≡ this_message
  pub at_name : f.name_offset_in_message ≡ at
  pub size : f.field_size ≡ length (text e)
  pub name_fits :
      ((f.field_name_size ≡ length e.name) × (length e.name < npos))
      ⊎ ((f.field_name_size ≡ npos) × (e.name ≡ []))
  pub value_fits :
      ((f.value_offset_in_message ≡ some (at + (length e.name + length e.between)))
        × (f.field_value_size ≡ length e.value))
      ⊎ ((f.value_offset_in_message ≡ none) × (e.value ≡ []))
  -- The sizes are those of strings.
  pub short : length e.name + length e.value ≤ max_size

abbrev pub FieldsFit : ℕ → List Entry → Fields → Type 0
FieldsFit at [] [] = Unit
FieldsFit at [] (p ∷ fs) = ⊥
FieldsFit at (e ∷ es) [] = ⊥
FieldsFit at (e ∷ es) ((a, f) ∷ fs) = FieldFits at e f × FieldsFit (at + length (text e)) es fs

pub length-text :
    (e : Entry)
    → length (text e) ≡ length e.name + length e.between + length e.value + length e.behind
length-text e = omega (
  arith,
  length-append e.name (e.between ++ (e.value ++ e.behind)),
  length-append e.between (e.value ++ e.behind),
  length-append e.value e.behind,
)

pub assign_string_lem :
    (bytes a b c : List ℕ) (at n : ℕ)
    → bytes ≡ a ++ (b ++ c)
    → at ≡ length a
    → n ≡ length b
    → assign_string bytes at n ≡ some b
unfolding assign_string
assign_string_lem bytes a b c at n e h k =
    rw (e, drop_prefix at a (b ++ c) h, take_prefix n b c k)
      (ground (arith, length-append a (b ++ c), length-append b c))

pub assign_text_lem :
    (bytes a b c : List ℕ) (at n : ℕ)
    → bytes ≡ a ++ (b ++ c)
    → at ≡ length a
    → n ≡ length b
    → length b ≤ max_size
    → returned (assign_text bytes at n) ≡ some b
unfolding returned assign_text
assign_text_lem bytes a b c at n e h k small =
    let fits : ltb max_size n ≡ false = ground (arith, k) in
    rw (fits, assign_string_lem bytes a b c at n e h k) refl

-- The offsets of a field whose text ends before 2^31 fit an int.
pub fits_int-FieldFits :
    (at : ℕ) (e : Entry) (f : HeaderField)
    → FieldFits at e f
    → at + length (text e) < 0x8000_0000
    → fits_int f ≡ true
unfolding fits_int
fits_int-FieldFits at e f fits small =
    let len = length-text e in
    let name : ltb f.name_offset_in_message 0x8000_0000 ≡ true =
      ground (arith, fits.at_name, small) in
    elim fits.value_fits [
      | inl (o, n) ↦
          let value : ltb (at + (length e.name + length e.between)) 0x8000_0000 ≡ true =
            ground (arith, small, len) in
          rw (name, o, value) refl
      | inr (o, nil) ↦ rw (name, o) refl
    ]

not_npos : (n : ℕ) → n < npos → (n == npos) ≡ false
not_npos n h = ground arith

module _ (bytes a : List ℕ) (e : Entry) (b : List ℕ) (f : HeaderField) where
  -- The name and the value of a field that fits.
  pub field_name-FieldFits :
      bytes ≡ a ++ (text e ++ b) → FieldFits (length a) e f → field_name bytes f ≡ some e.name
  unfolding field_name get_field_name returned
  field_name-FieldFits split fits =
      let rest = e.between ++ (e.value ++ e.behind) in
      let at : bytes ≡ a ++ (e.name ++ (rest ++ b)) =
        split ∙ ap (λ x. a ++ x) (append_assoc e.name rest b) in
      elim fits.name_fits [
        | inl (n, small) ↦
            rw (fits.attached, n, not_npos (length e.name) small)
              (assign_text_lem bytes a e.name (rest ++ b) _ _ at fits.at_name refl
                (omega (arith, fits.short)))
        | inr (n, nil) ↦ rw (n, nil) refl
      ]

  pub field_value-FieldFits :
      bytes ≡ a ++ (text e ++ b) → FieldFits (length a) e f → field_value bytes f ≡ some e.value
  unfolding field_value get_field_value returned
  field_value-FieldFits split fits =
      let nm = e.name ++ e.between in
      let tail = e.value ++ e.behind in
      let inner : text e ++ b ≡ nm ++ (e.value ++ (e.behind ++ b)) =
        ap (λ x. x ++ b) (sym (append_assoc e.name e.between tail))
        ∙ append_assoc nm tail b
        ∙ ap (λ x. nm ++ x) (append_assoc e.value e.behind b) in
      let at : bytes ≡ (a ++ nm) ++ (e.value ++ (e.behind ++ b)) =
        split ∙ ap (λ x. a ++ x) inner ∙ sym (append_assoc a nm (e.value ++ (e.behind ++ b))) in
      elim fits.value_fits [
        | inl (o, n) ↦
            rw (o, fits.attached)
              (assign_text_lem bytes (a ++ nm) e.value (e.behind ++ b) _ _ at
                (omega (arith, length-append a nm, length-append e.name e.between)) n
                (omega (arith, fits.short)))
        | inr (o, nil) ↦ rw (o, nil) refl
      ]

name_of_new :
    (c : ℕ) (cs value : List ℕ) (separator : ℕ) (spaces : Bool)
    → length (c ∷ cs) ≤ max_size
    → field_name [] (init_new_field (c ∷ cs) value separator spaces) ≡ some (c ∷ cs)
unfolding field_name get_field_name init_new_field returned
name_of_new c cs value separator spaces small =
    let rest = separation separator spaces ++ (value ++ crlf) in
    rw (not_npos (length (c ∷ cs)) (omega arith))
      (assign_text_lem ((c ∷ cs) ++ rest) [] (c ∷ cs) rest 0 (length (c ∷ cs)) refl refl refl small)

value_of_new :
    (c : ℕ) (cs value : List ℕ) (separator : ℕ) (spaces : Bool)
    → length value ≤ max_size
    → field_value [] (init_new_field (c ∷ cs) value separator spaces) ≡ some value
unfolding field_value get_field_value init_new_field returned
value_of_new c cs value separator spaces small =
    let name = c ∷ cs in
    let between = separation separator spaces in
    assign_text_lem (name ++ (between ++ (value ++ crlf))) (name ++ between) value crlf
      (length name + length between) (length value)
      (sym (append_assoc name between (value ++ crlf))) (sym (length-append name between)) refl
      small

copy_steps :
    (bytes : List ℕ) (f : HeaderField) (name value : List ℕ)
    → field_name bytes f ≡ some name
    → field_value bytes f ≡ some value
    → copy_field bytes f ≡ some (init_new_field name value f.name_value_separator f.spaces_allowed)
unfolding copy_field
copy_steps bytes f name value e g = rw (copy_field, e, g) refl

-- A new field holds its entry, its copy is the same, and it fits where it is attached.
pub copy_field-init_new_field :
    (name value : List ℕ) (separator : ℕ) (spaces : Bool)
    → (name ≡ [] → value ≡ [])
    → length name + length value ≤ max_size
    → copy_field [] (init_new_field name value separator spaces)
      ≡ some (init_new_field name value separator spaces)
unfolding copy_field init_new_field field_name field_value get_field_name get_field_value
    assign_text assign_string returned
copy_field-init_new_field [] value separator spaces h small = rw (h refl) refl
copy_field-init_new_field (c ∷ cs) value separator spaces h small =
    let f = init_new_field (c ∷ cs) value separator spaces in
    copy_steps [] f (c ∷ cs) value (name_of_new c cs value separator spaces (omega arith))
      (value_of_new c cs value separator spaces (omega arith))

pub attach-FieldFits :
    (name value : List ℕ) (separator : ℕ) (spaces : Bool) (at : ℕ)
    → (name ≡ [] → value ≡ [])
    → length name + length value ≤ max_size
    → FieldFits at
        (new_entry name value separator spaces)
        (attach (init_new_field name value separator spaces) at)
unfolding init_new_field attach
attach-FieldFits [] value separator spaces at h small = record {
  attached = refl;
  at_name = refl;
  size = refl;
  name_fits = inl (refl, omega (arith, small));
  value_fits = inl (refl, ap length (h refl));
  short = omega arith;
}
attach-FieldFits (c ∷ cs) value separator spaces at h small = record {
  attached = refl;
  at_name = refl;
  size = omega (arith, length-text (new_entry (c ∷ cs) value separator spaces));
  name_fits = inl (refl, omega (arith, small));
  value_fits = inl (refl, refl);
  short = small;
}

pub init_new_field-text :
    (name value : List ℕ) (separator : ℕ) (spaces : Bool)
    → let f = init_new_field name value separator spaces in
      (f.new_field_data ≡ text (new_entry name value separator spaces))
      × (f.field_size ≡ length (text (new_entry name value separator spaces)))
unfolding init_new_field
init_new_field-text [] value separator spaces = (refl, refl)
init_new_field-text (c ∷ cs) value separator spaces =
    (refl, omega (arith, length-text (new_entry (c ∷ cs) value separator spaces)))

pub new_entry-name :
    (name value : List ℕ) (separator : ℕ) (spaces : Bool)
    → (new_entry name value separator spaces).name ≡ name
new_entry-name [] value separator spaces = refl
new_entry-name (c ∷ cs) value separator spaces = refl
