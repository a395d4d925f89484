-- ===== src/Http/OpenId/Client.antt =====
-- `async_http_client` of monolake-services/src/http/handlers/openid.rs, through which the library for
-- OpenID calls the provider. Its many `unwrap`s are panics, `none`. The crates http, monoio-http and
-- monoio-transports are parameters.
use Prim.Native.String.{String}
use monolake.Base.{ℕ, List, [], ◌∷◌, ◌++◌, Option, none, some, Result, ok, err, map, ◌≡◌, refl, ap}
use monolake.Base.Panic.{◌>>=◌}
use monolake.Http.Message.{HeaderMaps}
use monolake.Http.H2.{Body, no_body, fixed, stream}

abbrev pub host_header : String
host_header = "host"

-- `HttpRequest` of the library; its headers are the pairs that its map yields.
pub record HttpRequest : Type 0 where
  pub url : String
  pub method : String
  pub headers : List (String × List ℕ)
  pub body : List ℕ

module _ (h : HeaderMaps) (E : Type 0) where
  pub record Sent (Uri Method : Type 0) : Type 0 where
    pub uri : Uri
    pub method : Method
    pub headers : h.Map
    pub body : List ℕ

  -- The answer of the provider.
  pub record Answer : Type 0 where
    pub status : ℕ
    pub headers : List (String × List ℕ)
    pub body : Body (List ℕ) E

  -- `HttpResponse` of the library.
  pub record HttpResponse : Type 0 where
    pub status_code : ℕ
    pub headers : h.Map
    pub body : List ℕ

  -- Parsing of addresses, methods and headers; `send_request` is the connection and the request on it.
  pub record ClientCrates : Type 1 where
    pub Uri : Type 0
    pub Method : Type 0
    pub parse_uri : String → Option Uri
    pub parse_method : String → Option Method
    pub host : Uri → Option String
    pub header_name : String → Option String
    pub to_str : List ℕ → Option String
    pub header_value : String → Option (List ℕ)
    pub send_request : Sent Uri Method → Option Answer

  -- The loop over a streamed body.
  pub gather : List (Result (List ℕ) E) → List ℕ
  gather [] = []
  gather (err e ∷ chunks) = []
  gather (ok bytes ∷ chunks) = bytes ++ gather chunks

  abbrev pub payload : Body (List ℕ) E → Option (List ℕ)
  payload no_body = some []
  payload (fixed []) = none
  payload (fixed (err e ∷ chunks)) = none
  payload (fixed (ok bytes ∷ chunks)) = some bytes
  payload (stream chunks) = some (gather chunks)

  module _ (c : ClientCrates) where
    -- The two loops over headers.
    pub copy_headers : List (String × List ℕ) → h.Map → Option h.Map
    copy_headers [] headers = some headers
    copy_headers ((key, value) ∷ rest) headers = c.header_name key >>= λ name.
        c.to_str value >>= λ text.
        c.header_value text >>= λ v. copy_headers rest (h.insert headers name v)

    pub async_http_client : HttpRequest → Option HttpResponse
    async_http_client request = c.parse_uri request.url >>= λ uri.
        c.parse_method request.method >>= λ method.
        copy_headers request.headers h.empty >>= λ headers. c.host uri >>= λ host.
        c.header_value host >>= λ value.
        c.send_request (record {
          uri = uri;
          method = method;
          headers = h.insert headers host_header value;
          body = request.body;
        })
        >>= λ response. copy_headers response.headers h.empty >>= λ response_headers.
            payload response.body >>= λ body.
            some (record { status_code = response.status; headers = response_headers; body = body })

  -- A streamed body that fails after some chunks gives what it would give if it ended there: the
  -- library is not told.
  pub gather-err :
      (e : E) (chunks : List (List ℕ)) (rest : List (Result (List ℕ) E))
      → gather (map ok chunks ++ err e ∷ rest) ≡ gather (map ok chunks)
  unfolding gather
  gather-err e [] rest = refl
  gather-err e (bytes ∷ chunks) rest = ap (λ l. bytes ++ l) (gather-err e chunks rest)
