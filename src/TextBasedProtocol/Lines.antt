-- ===== src/TextBasedProtocol/Lines.antt =====
-- The constructor of HeaderField reads the lines that initNewField writes.
use mathlib.Core.Path.{subst}
use mathlib.Core.List.{append_assoc}
use pcap_plus_plus.Prelude.{
  ℕ, suc, ◌+◌, ◌-◌, ◌≤◌, ◌<◌, ◌≡◌, ◌≢◌, inl, refl, sym, ap, ◌∙◌, Bool, true, false, none, some,
  List, [], ◌∷◌, ◌++◌, arith, leb, ◌==◌, if◌then◌else◌, length, get_elem?, drop, length-append, All,
  All-append,
}
use pcap_plus_plus.Packet.{sub64}
use pcap_plus_plus.RawPacket.Buffers.{drop_prefix}
use pcap_plus_plus.TextBasedProtocol.Field.{
  HeaderField, npos, max_size, crlf, separation, index_of, count_spaces, value_start, value_size,
  parsed, parse_line, parse_field,
}
use pcap_plus_plus.TextBasedProtocol.Entries.{text, new_entry, FieldFits, length-text}

-- The character is not among them.
abbrev pub Avoids : ℕ → List ℕ → Type 0
Avoids c xs = All (λ x. (x == c) ≡ false) xs

pub index_of-prefix :
    (c : ℕ) (xs ys : List ℕ) → Avoids c xs → index_of c (xs ++ c ∷ ys) ≡ some (length xs)
unfolding index_of
index_of-prefix c [] ys h = let e : (c == c) ≡ true = ground arith in rw e refl
index_of-prefix c (x ∷ xs) ys h = rw (h.0, index_of-prefix c xs ys h.1) refl

get_elem?-middle :
    (xs : List ℕ) (c : ℕ) (ys : List ℕ) → get_elem? (xs ++ c ∷ ys) (length xs) ≡ some c
get_elem?-middle [] c ys = refl
get_elem?-middle (x ∷ xs) c ys = get_elem?-middle xs c ys

pub read_steps :
    (bytes : List ℕ) (offset separator : ℕ) (spaces : Bool) (c : ℕ) (r : List ℕ) (i k at : ℕ)
    → drop offset bytes ≡ c ∷ r
    → (c == b'\r') ≡ false
    → (c == b'\n') ≡ false
    → index_of b'\n' (c ∷ r) ≡ some i
    → index_of separator (c ∷ r) ≡ some k
    → value_start bytes (offset + k + 1) spaces ≡ some at
    → parse_field bytes offset separator spaces
      ≡ parsed separator spaces offset
          (i + 1)
          k
          (some at)
          (value_size bytes at (some (offset + i)))
          false
unfolding parse_field parse_line
read_steps bytes offset separator spaces c r i k at d cr nl e s v =
    let line = parse_line bytes offset separator spaces in
    let some_size : (i + 1 == 0) ≡ false = ground arith in
    ap (λ l. line l (index_of b'\n' l)) d ∙ ap (line (c ∷ r)) e ∙ rw (some_size, cr, nl, s, v) refl

-- The end of the header.
pub parse_field-end :
    (bytes a b : List ℕ) (separator : ℕ) (spaces : Bool)
    → bytes ≡ a ++ (crlf ++ b)
    → parse_field bytes (length a) separator spaces
      ≡ parsed separator spaces (length a) 2 npos none npos true
unfolding parse_field parse_line index_of
parse_field-end bytes a b separator spaces e =
    let line = parse_line bytes (length a) separator spaces in
    ap (λ l. line l (index_of b'\n' l))
      (ap (drop (length a)) e ∙ drop_prefix (length a) a (crlf ++ b) refl)

-- The space behind the separator.
abbrev pub space : Bool → List ℕ
space spaces = if spaces then b' ' ∷ [] else []

-- A value does not begin with a space that is skipped.
abbrev pub StartsPlain : List ℕ → Type 0
StartsPlain [] = Unit
StartsPlain (x ∷ xs) = (x == b' ') ≡ false

count_spaces-value :
    (value b : List ℕ) → StartsPlain value → count_spaces (value ++ (crlf ++ b)) ≡ 0
unfolding count_spaces
count_spaces-value [] b h = refl
count_spaces-value (x ∷ xs) b h = rw h refl

pub not_leb : (a b : ℕ) → b < a → leb a b ≡ false
not_leb a b h = ground arith

pub start_steps :
    (bytes : List ℕ) (behind n : ℕ) (spaces : Bool)
    → (if spaces then behind + count_spaces (drop behind bytes) else behind) ≡ n
    → leb (length bytes) behind ≡ false
    → leb (length bytes) n ≡ false
    → value_start bytes behind spaces ≡ some n
unfolding value_start
start_steps bytes behind n spaces e h k = rw (h, e, k) refl

pub value_start_lem :
    (bytes a value b : List ℕ) (spaces : Bool)
    → bytes ≡ a ++ (space spaces ++ (value ++ (crlf ++ b)))
    → StartsPlain value
    → value_start bytes (length a) spaces ≡ some (length a + length (space spaces))
unfolding count_spaces
value_start_lem bytes a value b true e plain =
    let rest = b' ' ∷ (value ++ (crlf ++ b)) in
    let size : length bytes ≡ length a + (length value + length b + 3) =
      omega (arith, ap length e, length-append a rest, length-append value (crlf ++ b)) in
    let skipped : count_spaces (drop (length a) bytes) ≡ 1 =
      ap count_spaces (ap (drop (length a)) e ∙ drop_prefix (length a) a rest refl)
      ∙ ap suc (count_spaces-value value b plain) in
    start_steps bytes (length a) (length a + 1) true (ap (λ n. length a + n) skipped)
      (not_leb (length bytes) (length a) (omega arith))
      (not_leb (length bytes) (length a + 1) (omega arith))
value_start_lem bytes a value b false e plain =
    let rest = value ++ (crlf ++ b) in
    let size : length bytes ≡ length a + (length value + length b + 2) =
      omega (arith, ap length e, length-append a rest, length-append value (crlf ++ b)) in
    start_steps bytes (length a) (length a + 0) false (omega arith)
      (not_leb (length bytes) (length a) (omega arith))
      (not_leb (length bytes) (length a + 0) (omega arith))

size_steps :
    (bytes : List ℕ) (at n : ℕ)
    → get_elem? bytes (n - 1) ≡ some b'\r'
    → value_size bytes at (some n) ≡ sub64 (sub64 n at) 1
unfolding value_size
size_steps bytes at n e = rw (value_size, e) refl

value_size_lem :
    (bytes front value b : List ℕ) (end_at : ℕ)
    → bytes ≡ front ++ (value ++ (crlf ++ b))
    → end_at ≡ length front + length value + 1
    → length bytes < 0x1_0000_0000_0000_0000
    → value_size bytes (length front) (some end_at) ≡ length value
value_size_lem bytes front value b end_at e n small =
    let at : bytes ≡ (front ++ value) ++ b'\r' ∷ b'\n' ∷ b =
      e ∙ sym (append_assoc front value (crlf ++ b)) in
    let here : end_at - 1 ≡ length (front ++ value) = omega (arith, length-append front value) in
    let cr : get_elem? bytes (end_at - 1) ≡ some b'\r' =
      ap (get_elem? bytes) here
      ∙ ap (λ x. get_elem? x (length (front ++ value))) at
      ∙ get_elem?-middle (front ++ value) b'\r' (b'\n' ∷ b) in
    let len = length-append (front ++ value) (crlf ++ b) in
    size_steps bytes (length front) end_at cr
    ∙ omega (arith, len, ap length at, length-append front value)

-- A name and a value that a line can carry.
pub record IsLine (separator : ℕ) (spaces : Bool) (name value : List ℕ) : Type 0 where
  pub named : name ≢ []
  pub name_plain : Avoids b'\n' name
  pub name_starts : (elim name as (λ x. Type 0) [ [] ↦ Unit | c ∷ cs ↦ (c == b'\r') ≡ false ])
  pub name_ends : Avoids separator name
  pub value_plain : Avoids b'\n' value
  pub value_starts : StartsPlain value
  pub separates : (separator == b'\n') ≡ false

line_tail :
    (separator : ℕ) (name sp value b : List ℕ)
    → (name ++ ((separator ∷ sp) ++ (value ++ crlf))) ++ b
      ≡ name ++ separator ∷ (sp ++ (value ++ (crlf ++ b)))
line_tail separator name sp value b =
    rw
      (
        append_assoc name (separator ∷ (sp ++ (value ++ crlf))) b,
        append_assoc sp (value ++ crlf) b,
        append_assoc value crlf b,
      )
      refl

line_feed :
    (separator : ℕ) (name sp value b : List ℕ)
    → name ++ separator ∷ (sp ++ (value ++ (crlf ++ b)))
      ≡ (name ++ separator ∷ (sp ++ (value ++ b'\r' ∷ []))) ++ b'\n' ∷ b
line_feed separator name sp value b = sym (
    rw
      (
        append_assoc name (separator ∷ (sp ++ (value ++ b'\r' ∷ []))) (b'\n' ∷ b),
        append_assoc sp (value ++ b'\r' ∷ []) (b'\n' ∷ b),
        append_assoc value (b'\r' ∷ []) (b'\n' ∷ b),
      )
      refl)

line_value :
    (separator : ℕ) (a name t : List ℕ)
    → a ++ (name ++ separator ∷ t) ≡ (a ++ (name ++ separator ∷ [])) ++ t
line_value separator a name t =
    sym (rw (append_assoc a (name ++ separator ∷ []) t, append_assoc name (separator ∷ []) t) refl)

space-Avoids : (spaces : Bool) → Avoids b'\n' (space spaces)
space-Avoids true = (refl, tt)
space-Avoids false = tt

-- The line of a field is read as the field.
pub parse_field-FieldFits :
    (bytes a b name value : List ℕ) (separator : ℕ) (spaces : Bool)
    → let e = new_entry name value separator spaces in
      let f = parse_field bytes (length a) separator spaces in
      IsLine separator spaces name value
      → bytes ≡ a ++ (text e ++ b)
      → length bytes ≤ max_size
      → FieldFits (length a) e f × (f.is_end_of_header ≡ false)
unfolding separation
parse_field-FieldFits bytes a b [] value separator spaces line e small = absurd (line.named refl)
parse_field-FieldFits bytes a b (c ∷ cs) value separator spaces line e small =
    let name = c ∷ cs in
    let sp = space spaces in
    let tail = sp ++ (value ++ (crlf ++ b)) in
    let front = a ++ (name ++ separator ∷ []) in
    let body = name ++ separator ∷ (sp ++ (value ++ b'\r' ∷ [])) in
    let split : bytes ≡ a ++ (name ++ separator ∷ tail) =
      e ∙ ap (λ x. a ++ x) (line_tail separator name sp value b) in
    let behind : bytes ≡ front ++ tail = split ∙ line_value separator a name tail in
    let valued : bytes ≡ (front ++ sp) ++ (value ++ (crlf ++ b)) =
      behind ∙ sym (append_assoc front sp (value ++ (crlf ++ b))) in
    let plain : Avoids b'\n' body =
      All-append _ name (separator ∷ (sp ++ (value ++ b'\r' ∷ []))) line.name_plain (
        line.separates,
        All-append _ sp (value ++ b'\r' ∷ []) (space-Avoids spaces)
            (All-append _ value (b'\r' ∷ []) line.value_plain (refl, tt)),
      ) in
    let len_front = length-append a (name ++ separator ∷ []) in
    let len_name = length-append name (separator ∷ []) in
    let len_body = length-append name (separator ∷ (sp ++ (value ++ b'\r' ∷ []))) in
    let len_tail = length-append sp (value ++ b'\r' ∷ []) in
    let len_value = length-append value (b'\r' ∷ []) in
    let len_sp = length-append front sp in
    let start : value_start bytes (length a + length name + 1) spaces
        ≡ some (length (front ++ sp)) =
      ap (λ n. value_start bytes n spaces) (omega (arith, len_front, len_name))
      ∙ value_start_lem bytes front value b spaces behind line.value_starts
      ∙ ap some (sym len_sp) in
    let read =
      read_steps bytes (length a) separator spaces c (cs ++ separator ∷ tail) (length body)
        (length name) (length (front ++ sp))
        (ap (drop (length a)) split ∙ drop_prefix (length a) a (name ++ separator ∷ tail) refl)
        line.name_starts line.name_plain.0
        (ap (index_of b'\n') (line_feed separator name sp value b)
          ∙ index_of-prefix b'\n' body b plain)
        (index_of-prefix separator name tail line.name_ends) start in
    let sized =
      value_size_lem bytes (front ++ sp) value b (length a + length body) valued
        (omega (arith, len_front, len_name, len_body, len_tail, len_value, len_sp)) (omega arith) in
    let fits = λ (f : HeaderField).
      FieldFits (length a) (new_entry name value separator spaces) f
      × (f.is_end_of_header ≡ false) in
    let whole : length name + length value ≤ length bytes = omega (
      arith,
      ap length split,
      length-append a (name ++ separator ∷ tail),
      length-append name (separator ∷ tail),
      length-append sp (value ++ (crlf ++ b)),
      length-append value (crlf ++ b),
    ) in
    let short : length name < npos = omega (
      arith,
      ap length split,
      length-append a (name ++ separator ∷ tail),
      length-append name (separator ∷ tail),
    ) in
    subst fits (sym read) (
      record {
        attached = refl;
        at_name = refl;
        size = omega (
          arith,
          len_body,
          len_tail,
          len_value,
          length-text (new_entry name value separator spaces),
        );
        name_fits = inl (refl, short);
        value_fits = inl (ap some (omega (arith, len_front, len_name, len_sp)), sized);
        short = omega (arith, short, whole, small);
      },
      refl,
    )
