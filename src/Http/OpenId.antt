-- ===== src/Http/OpenId.antt =====
-- monolake-services/src/http/handlers/openid.rs: `OpenIdHandler::call` over the store of sessions that
-- all the requests share. The handler gives up its thread where it waits for the provider, so a request
-- is a task that goes on in steps, and other requests' steps come between.
pub mod Tasks
pub mod Steps
mod Issued
mod Login
mod Hang
mod Client
mod Examples
use Prim.Native.String.{String, ◌++◌ as ◌<>◌}
use text.Mathlib.Text.{◌==◌ as str_eq}
use monolake.Base.{
  ℕ, Bool, true, false, ◌+◌, ◌==◌, List, [], ◌∷◌, Option, none, some, is_some, if◌then◌else◌,
  Result, ok, err,
}
use monolake.Http.Message.{
  HeaderMaps, Request, Response, ResponseWithContinue, http_11, generate_response,
}

pub record OpenIdConfig : Type 0 where
  pub client_id : String
  pub client_secret : String
  pub issuer_url : String
  pub redirect_url : String

-- The crates openidconnect, cookie and url. A `Moment` is what the network and the random numbers are
-- at the time of a call. `none` is an error.
pub record Crates : Type 1 where
  pub Moment : Type 0
  pub IssuerUrl : Type 0
  pub RedirectUrl : Type 0
  pub Metadata : Type 0
  pub Client : Type 0
  pub TokenResponse : Type 0
  pub IdToken : Type 0
  pub AccessToken : Type 0
  pub Nonce : Type 0
  pub new_issuer_url : String → Option IssuerUrl
  pub new_redirect_url : String → Option RedirectUrl
  pub discover_async : Moment → IssuerUrl → Option Metadata
  pub from_provider_metadata : Metadata → String → String → RedirectUrl → Client
  -- The address as a header's value, the secret of the CSRF token, the nonce.
  pub authorize_url : Moment → Client → List ℕ × String × Nonce
  pub exchange_code : Moment → Client → String → Option TokenResponse
  pub access_token : TokenResponse → AccessToken
  pub id_token : TokenResponse → Option IdToken
  pub claims : Client → IdToken → Nonce → Bool
  pub to_str : List ℕ → Option String
  pub split_parse : String → List (Option (String × String))
  pub query_pairs : String → Option (List (String × String))
  pub header_value : String → List ℕ

abbrev pub cookie : String
cookie = "cookie"

abbrev pub location : String
location = "location"

abbrev pub set_cookie : String
set_cookie = "set-cookie"

abbrev pub session_id : String
session_id = "session-id"

module _ (c : Crates) where
  pub record SessionState : Type 0 where
    pub nonce : c.Nonce
    pub access_token : Option c.AccessToken

  -- The map of `SESSION_STORE`.
  abbrev pub Sessions : Type 0
  Sessions = String → Option SessionState

  -- `SESSION_STORE`: the map, and the read guards that are held.
  pub record Store : Type 0 where
    pub sessions : Sessions
    pub readers : ℕ

  abbrev pub insert : String → SessionState → Sessions → Sessions
  insert k v sessions j = if str_eq k j then some v else sessions j

  abbrev pub has_token : Option SessionState → Bool
  has_token none = false
  has_token (some session) = is_some session.access_token

  -- The loop over the cookies, which ends at the first one called `session-id`. The outer `none` is a
  -- panic on a cookie that cannot be parsed.
  pub auth_cookie : Sessions → List (Option (String × String)) → Option (Option String)
  auth_cookie sessions [] = some none
  auth_cookie sessions (none ∷ cookies) = none
  auth_cookie sessions (some (name, value) ∷ cookies) =
      if str_eq name session_id
      then some (if has_token (sessions value) then some value else none)
      else auth_cookie sessions cookies

  abbrev pub cookies_of : Option (List ℕ) → Option (List (Option (String × String)))
  cookies_of none = some []
  cookies_of (some value) = elim (c.to_str value) [ none ↦ none | some s ↦ some (c.split_parse s) ]

  abbrev pub authed : Sessions → Option String → Bool
  authed sessions none = false
  authed sessions (some auth) = has_token (sessions auth)

  -- The first of the query's pairs with this name.
  abbrev pub find : String → List (String × String) → Option String
  find k [] = none
  find k ((name, value) ∷ pairs) = if str_eq name k then some value else find k pairs

  -- The access token that the provider gives for a code, if the ID token beside it is valid.
  pub token_for : c.Moment → c.Client → String → c.Nonce → Option c.AccessToken
  token_for moment client code nonce = elim (c.exchange_code moment client code) [
    | none ↦ none
    | some response ↦ elim (c.id_token response) [
      | none ↦ none
      | some token ↦ if c.claims client token nonce then some (c.access_token response) else none
    ]
  ]

  module _ (h : HeaderMaps) (RB B CX E : Type 0) where
    -- A request between two waits: not begun, waiting for the provider's metadata, waiting for the
    -- token, and the ends of the call. `passed` and `logged_in` have the inner handler's result.
    pub data Task : Type 0 where
      start : Request h RB → CX → Task
      discovering : Request h RB → CX → c.IssuerUrl → Task
      exchanging : Request h RB → CX → c.Client → String → String → c.Nonce → Task
      redirected : Response h B → Task
      passed logged_in : Result (ResponseWithContinue h B) E → Task
      panicked blocked : Task

    pub redirect_response : List ℕ → Response h B
    redirect_response authorize_url = record {
      status = 301;
      version = http_11;
      headers = h.insert h.empty location authorize_url;
      body = none;
    }

    -- `SESSION_STORE.write()` for one change; with a read guard held it never returns.
    abbrev pub write : Store → (Sessions → Sessions) → Task → Task × Store
    write store change after =
        if store.readers == 0
        then (after, record store { sessions = change store.sessions })
        else (blocked, store)

    -- Line 382: the inner handler's response gets the cookie, its error becomes a response.
    pub with_cookie :
        String → Result (ResponseWithContinue h B) E → Result (ResponseWithContinue h B) E
    with_cookie state (err e) = ok (generate_response h B 500 false, false)
    with_cookie state (ok (response, cont)) = ok (
      record response {
        headers =
            h.insert response.headers set_cookie (c.header_value (session_id <> ("=" <> state)));
      },
      cont,
    )

    module _ (config : Option OpenIdConfig)
        (inner : Request h RB → CX → Result (ResponseWithContinue h B) E) where
      -- Up to the request for the metadata.
      pub begin : Store → Request h RB → CX → Task
      begin store request ctx = elim config [
        | none ↦ passed (inner request ctx)
        | some openid ↦ elim (cookies_of (h.get request.headers cookie)) [
          | none ↦ panicked
          | some cookies ↦ elim (auth_cookie store.sessions cookies) [
            | none ↦ panicked
            | some auth ↦
                if authed store.sessions auth
                then passed (inner request ctx)
                else elim (c.new_issuer_url openid.issuer_url) [
                  | none ↦ panicked
                  | some issuer_url ↦ discovering request ctx issuer_url
                ]
          ]
        ]
      ]

      -- The metadata has come: the client of the provider.
      pub client_of : c.Moment → c.IssuerUrl → Option c.Client
      client_of moment issuer_url = elim config [
        | none ↦ none
        | some openid ↦ elim (c.discover_async moment issuer_url) [
          | none ↦ none
          | some metadata ↦ elim (c.new_redirect_url openid.redirect_url) [
            | none ↦ none
            | some url ↦
                some (c.from_provider_metadata metadata openid.client_id openid.client_secret url)
          ]
        ]
      ]

      -- The block over the two pairs. In the second redirect the read guard of the block is still held.
      pub authorize :
          c.Moment → c.Client → Store → Request h RB → CX → List (String × String) → Task × Store
      authorize moment client store request ctx pairs =
          let (url, csrf, nonce) = c.authorize_url moment client in
          let session : SessionState = record { nonce = nonce; access_token = none } in
          let away : Task = redirected (redirect_response url) in
          elim (find "code" pairs) [
            | none ↦ write store (insert csrf session) away
            | some code ↦ elim (find "state" pairs) [
              | none ↦ write store (insert csrf session) away
              | some state ↦ elim (store.sessions state) [
                | none ↦
                    write (record store { readers = store.readers + 1 }) (insert state session) away
                | some known ↦ (exchanging request ctx client code state known.nonce, store)
              ]
            ]
          ]

      pub discovered : c.Moment → Store → Request h RB → CX → c.IssuerUrl → Task × Store
      discovered moment store request ctx issuer_url = elim (client_of moment issuer_url) [
        | none ↦ (panicked, store)
        | some client ↦ elim (c.query_pairs ("http://localhost" <> request.uri)) [
          | none ↦ (panicked, store)
          | some pairs ↦ authorize moment client store request ctx pairs
        ]
      ]

      pub exchanged :
          c.Moment → Store → Request h RB → CX → c.Client → String → String → c.Nonce → Task × Store
      exchanged moment store request ctx client code state nonce =
          elim (token_for moment client code nonce) [
            | none ↦ (panicked, store)
            | some token ↦ elim (store.sessions state) [
              | none ↦ (panicked, store)
              | some session ↦
                  write store (insert state (record session { access_token = some token }))
                    (logged_in (with_cookie state (inner request ctx)))
            ]
          ]

      -- A task goes on to its next wait, or to its end.
      pub step : c.Moment → Task → Store → Task × Store
      step moment (start request ctx) store = (begin store request ctx, store)
      step moment (discovering request ctx issuer_url) store =
          discovered moment store request ctx issuer_url
      step moment (exchanging request ctx client code state nonce) store =
          exchanged moment store request ctx client code state nonce
      step moment (redirected response) store = (redirected response, store)
      step moment (passed result) store = (passed result, store)
      step moment (logged_in result) store = (logged_in result, store)
      step moment panicked store = (panicked, store)
      step moment blocked store = (blocked, store)
