-- ===== src/Http.antt =====
-- The first line of an HTTP request: HttpRequestFirstLine of Packet++/src/HttpLayer.cpp.
pub mod Request
pub mod Names
pub mod RoundTrip
use pcap_plus_plus.Prelude.{
  ℕ, suc, ◌+◌, ◌-◌, ◌%◌, Bool, true, false, ◌&&◌, Option, none, some, List, [], ◌∷◌, ◌++◌, ltb, leb,
  ◌==◌, if◌then◌else◌, length, take, drop, get_elem?,
}
use pcap_plus_plus.Prelude.Text.{codes}
use pcap_plus_plus.GeneralUtils.{cross_platform_memmem}
use pcap_plus_plus.TextBasedProtocol.Field.{index_of, crlf, assign_string}

pub data HttpMethod : Type 0 where
  get head post put delete : HttpMethod
  trace options connect patch method_unknown : HttpMethod

pub data HttpVersion : Type 0 where
  zero_dot_nine one_dot_zero one_dot_one version_unknown : HttpVersion

-- MethodEnumToString and VersionEnumToString, which hold nothing for the unknown ones.
unfoldable pub method_string : HttpMethod → Option (List ℕ)
method_string get = some (codes "GET")
method_string head = some (codes "HEAD")
method_string post = some (codes "POST")
method_string put = some (codes "PUT")
method_string delete = some (codes "DELETE")
method_string trace = some (codes "TRACE")
method_string options = some (codes "OPTIONS")
method_string connect = some (codes "CONNECT")
method_string patch = some (codes "PATCH")
method_string method_unknown = none

unfoldable pub version_string : HttpVersion → Option (List ℕ)
version_string zero_dot_nine = some (codes "0.9")
version_string one_dot_zero = some (codes "1.0")
version_string one_dot_one = some (codes "1.1")
version_string version_unknown = none

-- data[i] == c, and the same for the characters from a place on
abbrev pub is_at : List ℕ → ℕ → ℕ → Bool
is_at bytes i c = elim (get_elem? bytes i) [ none ↦ false | some x ↦ x == c ]

abbrev pub has_at : List ℕ → ℕ → List ℕ → Bool
has_at bytes i [] = true
has_at bytes i (c ∷ cs) = is_at bytes i c && has_at bytes (suc i) cs

-- A case of parseMethod that needs n bytes.
abbrev pub method_if : List ℕ → ℕ → ℕ → List ℕ → HttpMethod → HttpMethod
method_if bytes n i tail method =
    if ltb (length bytes) n
    then method_unknown
    else if has_at bytes i tail
    then method
    else method_unknown

unfoldable pub parse_method : List ℕ → HttpMethod
parse_method bytes =
    if ltb (length bytes) 4
    then method_unknown
    else if is_at bytes 0 b'G'
    then method_if bytes 4 1 (codes "ET ") get
    else if is_at bytes 0 b'D'
    then method_if bytes 7 1 (codes "ELETE ") delete
    else if is_at bytes 0 b'C'
    then method_if bytes 8 1 (codes "ONNECT ") connect
    else if is_at bytes 0 b'T'
    then method_if bytes 6 1 (codes "RACE ") trace
    else if is_at bytes 0 b'H'
    then method_if bytes 5 1 (codes "EAD ") head
    else if is_at bytes 0 b'O'
    then method_if bytes 8 1 (codes "PTIONS ") options
    else if is_at bytes 0 b'P'
    then if is_at bytes 1 b'U'
      then method_if bytes 4 2 (codes "T ") put
      else if is_at bytes 1 b'O'
      then method_if bytes 5 2 (codes "ST ") post
      else if is_at bytes 1 b'A'
      then method_if bytes 6 2 (codes "TCH ") patch
      else method_unknown
    else method_unknown

-- The version in the bytes behind " HTTP/".
unfoldable pub version_at : List ℕ → HttpVersion
version_at bytes =
    if is_at bytes 0 b'0'
    then if has_at bytes 1 (codes ".9") then zero_dot_nine else version_unknown
    else if is_at bytes 0 b'1'
    then if has_at bytes 1 (codes ".0")
      then one_dot_zero
      else if has_at bytes 1 (codes ".1")
      then one_dot_one
      else version_unknown
    else version_unknown

-- parseVersion, for a URI inside of the data: the version and its offset, if there is one. The end
-- of the version is tested as a uint16_t; where that wraps around, the version may be read behind
-- the data, which gives none.
unfoldable pub parse_version : List ℕ → ℕ → Option (HttpVersion × Option ℕ)
parse_version bytes uri_offset =
    elim (cross_platform_memmem (drop uri_offset bytes) b' ' (codes "HTTP/")) [
      | none ↦ none
      | some found ↦ elim found [
        | none ↦ some (version_unknown, none)
        | some i ↦
            if ltb (length bytes) ((uri_offset + i + 9) % 0x1_0000)
            then some (version_unknown, none)
            else if ltb (length bytes) (uri_offset + i + 9)
            then none
            else some (version_at (drop (uri_offset + i + 6) bytes), some (uri_offset + i + 6))
      ]
    ]

pub record FirstLine : Type 0 where
  pub method : HttpMethod
  pub version : HttpVersion
  pub version_offset : ℕ
  pub uri_offset : ℕ
  pub first_line_end_offset : ℕ
  pub is_complete : Bool

-- The constructor for a request's data. Without a method or a version the source goes on from the
-- offset -1, outside of the data: the result is none.
unfoldable pub parse_first_line : List ℕ → Option FirstLine
parse_first_line bytes =
    let method = parse_method bytes in
    elim (method_string method) [
      | none ↦ none
      | some name ↦ elim (parse_version bytes (length name + 1)) [
        | none ↦ none
        | some (version, found) ↦ elim found [
          | none ↦ none
          | some at ↦
              let line_feed = index_of b'\n' (drop at bytes) in
              some (record {
                method = method;
                version = version;
                version_offset = at;
                uri_offset = length name + 1;
                first_line_end_offset = elim line_feed [
                  | none ↦ length bytes
                  | some i ↦ at + i + 1
                ];
                is_complete = elim line_feed [ none ↦ false | some i ↦ true ];
              })
        ]
      ]
    ]

-- The constructor for a new request: its data and the first line, or none where it throws.
unfoldable pub make_first_line : HttpMethod → HttpVersion → List ℕ → Option (List ℕ × FirstLine)
make_first_line method version uri = elim (method_string method) [
  | none ↦ none
  | some name ↦ elim (version_string version) [
    | none ↦ none
    | some number ↦
        let bytes = name ++ b' ' ∷ (uri ++ (codes " HTTP/" ++ (number ++ crlf))) in
        some (
          bytes,
          record {
            method = method;
            version = version;
            version_offset = length name + 1 + length uri + 6;
            uri_offset = length name + 1;
            first_line_end_offset = length bytes;
            is_complete = true;
          },
        )
  ]
]

unfoldable pub get_uri : List ℕ → FirstLine → Option (List ℕ)
get_uri bytes l = assign_string bytes l.uri_offset (l.version_offset - 6 - l.uri_offset)
