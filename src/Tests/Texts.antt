-- ===== src/Tests/Texts.antt =====
-- Runs of the text messages: parsing, insertion, removal and change of fields, and the first line of
-- an HTTP request.
use pcap_plus_plus.Prelude.{
  ℕ, ◌+◌, ◌≡◌, refl, inl, inr, true, false, ◌&&◌, Option, none, some, List, [], ◌∷◌, ◌++◌, arith,
  leb, if◌then◌else◌, length,
}
use pcap_plus_plus.Prelude.Text.{codes}
use pcap_plus_plus.Packet.{Layer, own, nobody, to_end}
use pcap_plus_plus.TextBasedProtocol.OwnLayer.{own_ops, own_laws, own_laws-Good}
use pcap_plus_plus.TextBasedProtocol.Field.{
  HeaderField, this_message, npos, parse_field, get_field_value, length_error, separation,
}
use pcap_plus_plus.TextBasedProtocol.Message.{Fields, TextMessage, last_of}
use pcap_plus_plus.TextBasedProtocol.Message.Parse.{parse_fields}
use pcap_plus_plus.TextBasedProtocol.Message.Edit.{insert_new_field, remove_field}
use pcap_plus_plus.TextBasedProtocol.Message.Values.{set_field_value}
use pcap_plus_plus.TextBasedProtocol.Entries.{Entry, texts, new_entry}
use pcap_plus_plus.TextBasedProtocol.Represents.{Represents}
use pcap_plus_plus.TextBasedProtocol.Headers.{header, AreLines}
use pcap_plus_plus.TextBasedProtocol.Reading.{read_fields, shown, read_fields-parse_fields}
use pcap_plus_plus.TextBasedProtocol.Insert.{insert_new_field-Represents}
use pcap_plus_plus.TextBasedProtocol.Remove.{remove_field-Represents}
use pcap_plus_plus.TextBasedProtocol.Change.{set_field_value-Represents}
use pcap_plus_plus.TextBasedProtocol.Separator.{get_field_value_without_separator}

abbrev lower : ℕ → ℕ
lower c = if leb b'A' c && leb c b'Z' then c + 32 else c

abbrev colon : ℕ
colon = b':'

abbrev get_line : List ℕ
get_line = codes "GET\r\n"

abbrev lines : List (List ℕ × List ℕ)
lines = (codes "Host", codes "a") ∷ (codes "Len", codes "3") ∷ []

abbrev layer_with : List ℕ → Layer
layer_with bytes = record {
  data_at = own bytes;
  data_len = length bytes;
  owner = nobody;
  protocol = 0x40;
  next_layer = none;
  prev_layer = none;
  is_allocated_in_packet = false;
  header = to_end;
  osi_model_layer = 7;
  freed = false;
}

abbrev whole : List ℕ
whole = codes "GET\r\nHost: a\r\nLen: 3\r\n\r\nxyz"

abbrev message_with : List ℕ → Fields → Option ℕ → TextMessage Layer
message_with bytes fields last = record {
  layer = layer_with bytes;
  field_list = fields;
  last_field = last;
  fields_offset = 5;
  field_names = [];
  next_address = 4;
}

lines-AreLines : AreLines colon true lines
lines-AreLines = (
  record {
    named = λ e. cc;
    name_plain = (refl, (refl, (refl, (refl, tt))));
    name_starts = refl;
    name_ends = (refl, (refl, (refl, (refl, tt))));
    value_plain = (refl, tt);
    value_starts = refl;
    separates = refl;
  },
  (
    record {
      named = λ e. cc;
      name_plain = (refl, (refl, (refl, tt)));
      name_starts = refl;
      name_ends = (refl, (refl, (refl, tt)));
      value_plain = (refl, tt);
      value_starts = refl;
      separates = refl;
    },
    tt,
  ),
)

whole_bytes : whole ≡ get_line ++ (texts (header colon true lines) ++ codes "xyz")
unfolding separation
whole_bytes = refl

read_fields-parse_fields_example :
    (m' : TextMessage Layer) × (parse_fields own_ops lower (message_with whole [] none) colon true
      ≡ some m')
    × Represents own_ops own_laws m' get_line (header colon true lines) (codes "xyz")
    × (read_fields (own_ops.data_of m'.layer) m'.field_list ≡ shown lines)
read_fields-parse_fields_example =
    read_fields-parse_fields own_ops own_laws lower (message_with whole [] none) colon true get_line
      (codes "xyz") lines (own_laws-Good (layer_with whole) (refl, refl)) refl refl refl whole_bytes
      (omega arith) lines-AreLines

-- A message with one field and the end of the header, as it is parsed.
abbrev short_bytes : List ℕ
short_bytes = codes "GET\r\nHost: a\r\n\r\nxyz"

abbrev host : HeaderField
host = record {
  new_field_data = [];
  message = this_message;
  name_offset_in_message = 5;
  field_name_size = 4;
  value_offset_in_message = some 11;
  field_value_size = 1;
  field_size = 9;
  is_end_of_header = false;
  name_value_separator = colon;
  spaces_allowed = true;
}

abbrev the_end : HeaderField
the_end = record {
  new_field_data = [];
  message = this_message;
  name_offset_in_message = 14;
  field_name_size = npos;
  value_offset_in_message = none;
  field_value_size = npos;
  field_size = 2;
  is_end_of_header = true;
  name_value_separator = colon;
  spaces_allowed = true;
}

abbrev short : TextMessage Layer
short = message_with short_bytes ((1, host) ∷ (2, the_end) ∷ []) (some 2)

abbrev host_entry : Entry
host_entry = new_entry (codes "Host") (codes "a") colon true

abbrev end_entry : Entry
end_entry = new_entry [] [] colon true

short-Represents :
    Represents own_ops own_laws short get_line (host_entry ∷ end_entry ∷ []) (codes "xyz")
unfolding separation last_of
short-Represents = record {
  in_order = own_laws-Good (layer_with short_bytes) (refl, refl);
  bytes = refl;
  fields = (
    record {
      attached = refl;
      at_name = refl;
      size = refl;
      name_fits = inl (refl, omega arith);
      value_fits = inl (refl, refl);
      short = omega arith;
    },
    (
      record {
        attached = refl;
        at_name = refl;
        size = refl;
        name_fits = inr (refl, refl);
        value_fits = inr (refl, refl);
        short = omega arith;
      },
      tt,
    ),
  );
  begin_at = refl;
  last_is = refl;
}

insert_new_field-Represents_example :
    (m' : TextMessage Layer) × (insert_new_field own_ops lower short
        (some 1)
        (codes "Len")
        (codes "3")
        colon
        true
      ≡ some (m', some 4))
    × Represents own_ops own_laws m' get_line
        (host_entry ∷ new_entry (codes "Len") (codes "3") colon true ∷ end_entry ∷ [])
        (codes "xyz")
unfolding separation
insert_new_field-Represents_example =
    insert_new_field-Represents own_ops own_laws lower short get_line (codes "xyz") (codes "Len")
      (codes "3") colon true [] (end_entry ∷ []) host_entry [] ((2, the_end) ∷ []) 1 host (λ e. cc)
      short-Represents refl refl tt (λ e. cc) (omega arith)

remove_field-Represents_example :
    (m' : TextMessage Layer) × (remove_field own_ops lower short (some 1) ≡ some (m', true))
    × Represents own_ops own_laws m' get_line (end_entry ∷ []) (codes "xyz")
remove_field-Represents_example =
    remove_field-Represents own_ops own_laws lower short get_line (codes "xyz") [] (end_entry ∷ [])
      host_entry [] ((2, the_end) ∷ []) 1 host short-Represents refl refl tt (omega arith)
      (omega arith)

set_field_value-Represents_example :
    (m' : TextMessage Layer) × (set_field_value own_ops short 1 (codes "abc") ≡ some (m', true))
    × Represents own_ops own_laws m' get_line
        (record host_entry { value = codes "abc" } ∷ end_entry ∷ [])
        (codes "xyz")
set_field_value-Represents_example =
    set_field_value-Represents own_ops own_laws short get_line (codes "xyz") [] (end_entry ∷ [])
      host_entry [] ((2, the_end) ∷ []) 1 host 11 (codes "abc") short-Represents refl refl tt refl
      (omega arith)

-- "ab" has no separator, and the line behind it has one.
abbrev bare : List ℕ
bare = codes "ab\nd:e\n"

get_field_value_without_separator_example :
    get_field_value bare (parse_field bare 0 colon true) ≡ length_error
get_field_value_without_separator_example =
    get_field_value_without_separator bare [] (codes "b") (codes "d") (codes "\n") b'a' b'e' colon
      true refl refl (refl, (refl, tt)) (refl, (refl, (refl, (refl, tt)))) refl (omega arith)
