-- ===== src/Http/RoundTrip.antt =====
-- The first line of a new request is parsed as it was made.
use pcap_plus_plus.Prelude.{ℕ, ◌≡◌, some, List, [], ◌∷◌, ◌++◌}
use pcap_plus_plus.Prelude.Text.{codes}
use pcap_plus_plus.TextBasedProtocol.Field.{crlf}
use pcap_plus_plus.TextBasedProtocol.Lines.{Avoids}
use pcap_plus_plus.Http.{HttpMethod, HttpVersion, method_string, version_string}

-- What follows the URI.
abbrev ending : List ℕ → List ℕ → List ℕ
ending number rest = codes "HTTP/" ++ (number ++ (crlf ++ rest))

module _ (method : HttpMethod) (version : HttpVersion) (name number uri rest : List ℕ)
    (named : method_string method ≡ some name) (numbered : version_string version ≡ some number)
    (free : Avoids b' ' uri) where
  abbrev whole : List ℕ
  whole = name ++ b' ' ∷ (uri ++ b' ' ∷ ending number rest)

  abbrev before_version : List ℕ
  before_version = (name ++ b' ' ∷ []) ++ (uri ++ codes " HTTP/")
