-- ===== src/Http/Rewrite.antt =====
-- monolake-services/src/http/handlers/route.rs: `Endpoint` and `rewrite_request`. A URI is its text,
-- `none` as a result is a panic.
use Prim.Native.String.{String, ◌++◌ as ◌<>◌}
use text.Mathlib.Text.{◌==◌ as str_eq}
use monolake.Base.{ℕ, List, [], Option, none, some, ◌≡◌}
use monolake.Http.Message.{HeaderMaps, Request}

-- `Uri` of the crate `http`. `path_and_query` gives the path with the query, if there is one; `build`
-- fails on parts that do not make a URI, `header_value` on a text that no header can have.
pub record Uris : Type 0 where
  pub scheme : String → Option String
  pub host : String → Option String
  pub authority : String → Option String
  pub path : String → String
  pub path_and_query : String → Option (String × Option String)
  pub build : String → String → String → Option String
  pub header_value : String → Option (List ℕ)

abbrev pub with_query : String → Option String → String
with_query path none = path
with_query path (some query) = path <> ("?" <> query)

-- A URI that has a path and query has that path. What is built of the path of such a URI, the query of
-- another one, a scheme and an authority has these parts.
pub record UriLaws (u : Uris) : Type 0 where
  pub path-parts :
      (from path : String) (query : Option String)
      → u.path_and_query from ≡ some (path, query)
      → u.path from ≡ path
  pub build-parts :
      (authority scheme from path other other_path uri : String) (from_query query : Option String)
      → u.path_and_query from ≡ some (path, from_query)
      → u.path_and_query other ≡ some (other_path, query)
      → u.build authority scheme (with_query path query) ≡ some uri
      → (u.authority uri ≡ some authority)
        × (u.scheme uri ≡ some scheme)
        × (u.path_and_query uri ≡ some (path, query))

abbrev pub host_header : String
host_header = "host"

pub data Endpoint (SocketAddr PathBuf : Type 0) : Type 0 where
  uri : String → Endpoint SocketAddr PathBuf
  socket : SocketAddr → Endpoint SocketAddr PathBuf
  unix : PathBuf → Endpoint SocketAddr PathBuf

module _ (h : HeaderMaps) (u : Uris) (B SocketAddr PathBuf : Type 0) where
  abbrev pub scheme_or_http : Option String → String
  scheme_or_http (some scheme) = scheme
  scheme_or_http none = "http"

  -- The path of the remote with the query of the request.
  abbrev pub path_for : String → Option (String × Option String) → String
  path_for remote (some (path, query)) = with_query (u.path remote) query
  path_for remote none = "/"

  abbrev pub value_or_empty : Option (List ℕ) → List ℕ
  value_or_empty (some value) = value
  value_or_empty none = []

  unfoldable pub rewrite_request : Request h B → Endpoint SocketAddr PathBuf → Option (Request h B)
  rewrite_request request (socket a) = none
  rewrite_request request (unix p) = none
  rewrite_request request (uri remote) = elim (u.authority remote) [
    | none ↦ some request
    | some authority ↦
        elim (u.build authority (scheme_or_http (u.scheme remote))
          (path_for remote (u.path_and_query request.uri))) [
            | none ↦ none
            | some built ↦ some (record request {
              uri = built;
              headers =
                  h.insert (h.remove request.headers host_header) host_header
                    (value_or_empty (u.header_value authority));
            })
          ]
  ]

  abbrev pub query_of : Option (String × Option String) → Option String
  query_of (some (path, query)) = query
  query_of none = none
