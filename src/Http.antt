-- ===== src/Http.antt =====
-- Requests and replies as the handlers see them. A header's name is in lower case, as the web
-- framework keeps it.
use open_yzj.Prelude.{List, Option, String, [], if◌then◌else◌, none, some, ℕ, ◌==◌, ◌∷◌}

pub record Request : Type 0 where
  pub method : String
  pub path : String
  pub headers : List (String × String)
  pub query_params : List (String × String)
  pub client_host : Option String
  pub body : List ℕ

-- `mapping.get(k)`
unfoldable pub lookup : String → List (String × String) → Option String
lookup k [] = none
lookup k ((j, v) ∷ rest) = if j == k then some v else lookup k rest

-- `value or ""`
abbrev pub or_empty : Option String → String
or_empty none = ""
or_empty (some v) = v

-- `mapping.get(k, "")`
abbrev pub lookup_or_empty : String → List (String × String) → String
lookup_or_empty k kvs = or_empty (lookup k kvs)
