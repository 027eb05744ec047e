-- ===== src/Http/Request.antt =====
-- HttpMessage, which takes each field once, and the setters of HttpRequestFirstLine
-- (Packet++/src/HttpLayer.cpp).
use pcap_plus_plus.Prelude.{
  ℕ, ◌+◌, ◌-◌, Bool, true, false, Option, none, some, List, [], ◌∷◌, ◌==◌, if◌then◌else◌, length,
}
use pcap_plus_plus.TextBasedProtocol.Layers.{LayerOps}
use pcap_plus_plus.TextBasedProtocol.Message.{TextMessage, shift_fields_offset}
use pcap_plus_plus.TextBasedProtocol.Message.Edit.{insert_new_field, add_field, get_field_by_name}
use pcap_plus_plus.TextBasedProtocol.Message.Values.{resize_value}
use pcap_plus_plus.Http.{HttpMethod, HttpVersion, FirstLine, method_string, version_string, get_uri}

pub record HttpRequest (S : Type 0) : Type 0 where
  pub message : TextMessage S
  pub first_line : FirstLine

unfoldable pub with_slash : List ℕ → List ℕ
with_slash [] = b'/' ∷ []
with_slash (c ∷ cs) = if c == b'/' then c ∷ cs else b'/' ∷ c ∷ cs

module _ {S : Type 0} (ops : LayerOps S) (to_lower : ℕ → ℕ) where
  -- HttpMessage::addField and insertField
  unfoldable pub add_http_field :
      TextMessage S → List ℕ → List ℕ → ℕ → Bool → Option (TextMessage S × Option ℕ)
  add_http_field m name value separator spaces = elim (get_field_by_name ops to_lower m name 0) [
    | some a ↦ some (m, none)
    | none ↦ add_field ops to_lower m name value separator spaces
  ]

  unfoldable pub insert_http_field :
      TextMessage S → Option ℕ → List ℕ → List ℕ → ℕ → Bool → Option (TextMessage S × Option ℕ)
  insert_http_field m prev_field name value separator spaces =
      elim (get_field_by_name ops to_lower m name 0) [
        | some a ↦ some (m, none)
        | none ↦ insert_new_field ops to_lower m prev_field name value separator spaces
      ]

module _ {S : Type 0} (ops : LayerOps S) where
  -- A part of the first line is replaced, and all fields are shifted; a shift by nothing stands for
  -- no shift. The place of the fields and the end of the line are left as they were.
  unfoldable pub replace_part :
      HttpRequest S → FirstLine → ℕ → ℕ → List ℕ → Option (HttpRequest S × Bool)
  replace_part r line at old new = elim (resize_value ops r.message.layer at old (length new)) [
    | none ↦ none
    | some (layer, resized) ↦
        let m = record r.message {
          layer = layer;
          field_list = shift_fields_offset (λ k. k + length new - old) r.message.field_list;
        } in
        let written : Option (HttpRequest S × Bool) = elim (ops.write layer at new) [
          | none ↦ none
          | some layer' ↦
              some (record { message = record m { layer = layer' }; first_line = line }, true)
        ] in
        if resized
        then written
        else some (record r { message = record r.message { layer = layer } }, false)
  ]

  -- setMethod; an unknown old method has no length in the table.
  unfoldable pub set_method : HttpRequest S → HttpMethod → Option (HttpRequest S × Bool)
  set_method r new_method = elim (method_string new_method) [
    | none ↦ some (r, false)
    | some name ↦ elim (method_string r.first_line.method) [
      | none ↦ none
      | some old ↦
          let line = record r.first_line {
            method = new_method;
            uri_offset = r.first_line.uri_offset + length name - length old;
            version_offset = r.first_line.version_offset + length name - length old;
          } in
          replace_part r line 0 (length old) name
    ]
  ]

  unfoldable pub set_uri : HttpRequest S → List ℕ → Option (HttpRequest S × Bool)
  set_uri r new_uri =
      let uri = with_slash new_uri in
      elim (get_uri (ops.data_of r.message.layer) r.first_line) [
        | none ↦ none
        | some old ↦
            let line = record r.first_line {
              version_offset = r.first_line.version_offset + length uri - length old;
            } in
            replace_part r line r.first_line.uri_offset (length old) uri
      ]

  unfoldable pub set_version : HttpRequest S → HttpVersion → Option (HttpRequest S)
  set_version r new_version = elim (version_string new_version) [
    | none ↦ some r
    | some number ↦ elim (ops.write r.message.layer r.first_line.version_offset number) [
      | none ↦ none
      | some layer ↦ some (record {
        message = record r.message { layer = layer };
        first_line = record r.first_line { version = new_version };
      })
    ]
  ]
