-- ===== src/Http.antt =====
-- Requests and responses as the handlers see them: `new URL(request.url)` and the header table are
-- read already.
use vpn_register_kit.Prelude.{
  ℕ, List, [], ◌∷◌, ◌++◌, Option, none, some, Text, codes, text_eq, if◌then◌else◌,
}
use vpn_register_kit.Js.Value.{Value}
use vpn_register_kit.Js.Json.{stringify}

pub record Request : Type 0 where
  pub method : Text
  pub origin : Text
  pub pathname : Text
  -- the decoded parameters of the query, in order
  pub search : List (Text × Text)
  -- the headers by their lower-case names
  pub headers : List (Text × Text)
  pub body : Text

-- The first value of a name.
pub lookup : Text → List (Text × Text) → Option Text
lookup k [] = none
lookup k ((j, v) ∷ rest) = if text_eq j k then some v else lookup k rest

abbrev pub or_empty : Option Text → Text
or_empty none = []
or_empty (some t) = t

-- `request.headers.get(k) || ""`
unfoldable pub header : Request → Text → Text
unfolding lookup
header r k = or_empty (lookup k r.headers)

-- `url.searchParams.get(k) || ""`
unfoldable pub search_param : Request → Text → Text
unfolding lookup
search_param r k = or_empty (lookup k r.search)

pub record Response : Type 0 where
  pub status : ℕ
  pub content_type : Text
  pub body : Text

-- `json` and `text` of index.js
unfoldable pub json : Value → ℕ → Response
json v status = record {
  status = status;
  content_type = codes "application/json; charset=utf-8";
  body = stringify v ++ codes "\n";
}

unfoldable pub text : Text → ℕ → Response
text t status = record {
  status = status;
  content_type = codes "text/plain; charset=utf-8";
  body = t ++ codes "\n";
}
