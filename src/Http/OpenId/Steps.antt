-- ===== src/Http/OpenId/Steps.antt =====
-- What one step of a request can be, for a handler that is configured.
use Prim.Native.String.{String, ◌++◌ as ◌<>◌}
use monolake.Base.{
  ℕ, true, ◌+◌, ◌<◌, ◌==◌, List, Option, none, some, Result, Bool-cases, Option-cases, inl, inr,
  ◌≡◌, refl, sym, arith,
}
use mathlib.Core.Path.{subst}
use monolake.Http.Message.{HeaderMaps, Request, Response, ResponseWithContinue}
use monolake.Http.OpenId.{
  OpenIdConfig, Crates, SessionState, Sessions, Store, Task, insert, step, begin, discovered,
  authorize, exchanged, client_of, token_for, with_cookie, cookies_of, auth_cookie, authed, cookie,
  redirect_response, write, find,
}

module _ (c : Crates) (h : HeaderMaps) (RB B CX E : Type 0)
    (inner : Request h RB → CX → Result (ResponseWithContinue h B) E) where
  -- The request's session cookie names a session with this access token.
  pub data CarriesToken (store : Store c) (request : Request h RB) : c.AccessToken → Type 0 where
    carries :
        {cookies : List (Option (String × String))} {key : String} {session : SessionState c}
        {token : c.AccessToken}
        → cookies_of c (h.get request.headers cookie) ≡ some cookies
        → auth_cookie c store.sessions cookies ≡ some (some key)
        → store.sessions key ≡ some session
        → session.access_token ≡ some token
        → CarriesToken store request token

  pub data Goes (moment : c.Moment) (store : Store c)
      : Task c h RB B CX E → Task c h RB B CX E × Store c → Type 0 where
    rests : (task : Task c h RB B CX E) → Goes moment store task (task, store)
    panics : (task : Task c h RB B CX E) → Goes moment store task (Task.panicked, store)
    hangs :
        (task : Task c h RB B CX E) (n : ℕ)
        → 0 < n
        → Goes moment store task (Task.blocked, record store { readers = n })
    waits :
        (request : Request h RB) (ctx : CX) (url : c.IssuerUrl)
        → Goes moment store (Task.start request ctx) (Task.discovering request ctx url, store)
    passes :
        (request : Request h RB) (ctx : CX) (token : c.AccessToken)
        → CarriesToken store request token
        → Goes moment store (Task.start request ctx) (Task.passed (inner request ctx), store)
    opens :
        (request : Request h RB) (ctx : CX) (url : c.IssuerUrl) (client : c.Client)
        (response : Response h B) (session : SessionState c)
        → session.access_token ≡ none
        → store.readers ≡ 0
        → Goes moment store (Task.discovering request ctx url) (
          Task.redirected response,
          record store {
            sessions = insert c (c.authorize_url moment client).1 session store.sessions;
          },
        )
    asks :
        (request : Request h RB) (ctx : CX) (url : c.IssuerUrl) (client : c.Client)
        (code state : String) (known : SessionState c) (pairs : List (String × String))
        → store.sessions state ≡ some known
        → c.query_pairs ("http://localhost" <> request.uri) ≡ some pairs
        → find c "code" pairs ≡ some code
        → find c "state" pairs ≡ some state
        → Goes moment store
            (Task.discovering request ctx url)
            (Task.exchanging request ctx client code state known.nonce, store)
    logs_in :
        (request : Request h RB) (ctx : CX) (client : c.Client) (code state : String)
        (nonce : c.Nonce) (token : c.AccessToken) (known : SessionState c)
        → token_for c moment client code nonce ≡ some token
        → store.sessions state ≡ some known
        → store.readers ≡ 0
        → Goes moment store (Task.exchanging request ctx client code state nonce) (
          Task.logged_in (with_cookie c h RB B CX E state (inner request ctx)),
          record store {
            sessions = insert c state (record known { access_token = some token }) store.sessions;
          },
        )

  write-Goes :
      (moment : c.Moment) (store : Store c) (change : Sessions c → Sessions c)
      (task after : Task c h RB B CX E)
      → (store.readers ≡ 0
          → Goes moment store task (after, record store { sessions = change store.sessions }))
      → Goes moment store task (write c h RB B CX E store change after)
  write-Goes moment store change task after g = elim (Bool-cases (store.readers == 0)) [
    | inl free ↦ rw (free, write) (g (ground arith))
    | inr held ↦ rw (held, write) (hangs task store.readers (ground arith))
  ]

  -- A write under a read guard of the same task.
  write-held :
      (store : Store c) (n : ℕ) (change : Sessions c → Sessions c) (after : Task c h RB B CX E)
      → write c h RB B CX E (record store { readers = n + 1 }) change after
        ≡ (Task.blocked, record store { readers = n + 1 })
  write-held store n change after = ground arith

  authed-token :
      (store : Store c) (request : Request h RB) (cookies : List (Option (String × String)))
      (auth : Option String)
      → cookies_of c (h.get request.headers cookie) ≡ some cookies
      → auth_cookie c store.sessions cookies ≡ some auth
      → authed c store.sessions auth ≡ true
      → (token : c.AccessToken) × CarriesToken store request token
  authed-token store request cookies none e a t = cc
  authed-token store request cookies (some key) e a t = elim (Option-cases (store.sessions key)) [
    | inl missing ↦ absurd (ground (arith, t, missing))
    | inr (session, q) ↦ elim (Option-cases session.access_token) [
      | inl missing ↦ absurd (ground (arith, t, q, missing))
      | inr (token, w) ↦ (token, carries e a q w)
    ]
  ]

  module _ (openid : OpenIdConfig) where
    begin-Goes :
        (moment : c.Moment) (store : Store c) (request : Request h RB) (ctx : CX)
        → Goes moment store
            (Task.start request ctx)
            (begin c h RB B CX E (some openid) inner store request ctx, store)
    unfolding begin
    begin-Goes moment store request ctx =
        elim (Option-cases (cookies_of c (h.get request.headers cookie))) [
          | inl e ↦ rw (e, begin) (panics (Task.start request ctx))
          | inr (cookies, e) ↦
              rw (e, begin)
                (elim (Option-cases (auth_cookie c store.sessions cookies)) [
                  | inl a ↦ rw a (panics (Task.start request ctx))
                  | inr (auth, a) ↦ rw a (elim (Bool-cases (authed c store.sessions auth)) [
                    | inl t ↦ rw t (
                        let (token, carried) = authed-token store request cookies auth e a t in
                        passes request ctx token carried)
                    | inr t ↦ rw t (elim (Option-cases (c.new_issuer_url openid.issuer_url)) [
                      | inl u ↦ rw u (panics (Task.start request ctx))
                      | inr (url, u) ↦ rw u (waits request ctx url)
                    ])
                  ])
                ])
        ]

    authorize-Goes :
        (moment : c.Moment) (client : c.Client) (store : Store c) (request : Request h RB)
        (ctx : CX) (issuer : c.IssuerUrl) (pairs : List (String × String))
        → c.query_pairs ("http://localhost" <> request.uri) ≡ some pairs
        → Goes moment store
            (Task.discovering request ctx issuer)
            (authorize c h RB B CX E (some openid) inner moment client store request ctx pairs)
    unfolding authorize
    authorize-Goes moment client store request ctx issuer pairs q =
        let (url, csrf, nonce) = c.authorize_url moment client in
        let session : SessionState c = record { nonce = nonce; access_token = none } in
        let away = redirect_response c h RB B CX E url in
        let opened =
          write-Goes moment store (insert c csrf session) (Task.discovering request ctx issuer)
            (Task.redirected away) (opens request ctx issuer client away session refl) in
        elim (Option-cases (find c "code" pairs)) [
          | inl e ↦ rw (e, authorize) opened
          | inr (code, e) ↦
              rw (e, authorize)
                (elim (Option-cases (find c "state" pairs)) [
                  | inl f ↦ rw f opened
                  | inr (state, f) ↦ rw f (elim (Option-cases (store.sessions state)) [
                    | inl u ↦ rw u (
                        subst (Goes moment store (Task.discovering request ctx issuer))
                          (sym (
                            write-held store store.readers (insert c state session)
                              (Task.redirected away)))
                          (hangs (Task.discovering request ctx issuer) (store.readers + 1)
                            (omega arith)))
                    | inr (known, u) ↦
                        rw u (asks request ctx issuer client code state known pairs u q e f)
                  ])
                ])
        ]

    discovered-Goes :
        (moment : c.Moment) (store : Store c) (request : Request h RB) (ctx : CX)
        (issuer : c.IssuerUrl)
        → Goes moment store
            (Task.discovering request ctx issuer)
            (discovered c h RB B CX E (some openid) inner moment store request ctx issuer)
    unfolding discovered
    discovered-Goes moment store request ctx issuer =
        elim (Option-cases (client_of c h RB B CX E (some openid) inner moment issuer)) [
          | inl e ↦ rw (e, discovered) (panics (Task.discovering request ctx issuer))
          | inr (client, e) ↦
              rw (e, discovered)
                (elim (Option-cases (c.query_pairs ("http://localhost" <> request.uri))) [
                  | inl q ↦ rw q (panics (Task.discovering request ctx issuer))
                  | inr (pairs, q) ↦
                      rw q (authorize-Goes moment client store request ctx issuer pairs q)
                ])
        ]

    exchanged-Goes :
        (moment : c.Moment) (store : Store c) (request : Request h RB) (ctx : CX)
        (client : c.Client) (code state : String) (nonce : c.Nonce)
        → Goes moment store (Task.exchanging request ctx client code state nonce) (
            exchanged c h RB B CX E
              (some openid)
              inner
              moment
              store
              request
              ctx
              client
              code
              state
              nonce)
    unfolding exchanged
    exchanged-Goes moment store request ctx client code state nonce =
        let task = Task.exchanging request ctx client code state nonce in
        elim (Option-cases (token_for c moment client code nonce)) [
          | inl e ↦ rw (e, exchanged) (panics task)
          | inr (token, e) ↦
              rw (e, exchanged)
                (elim (Option-cases (store.sessions state)) [
                  | inl q ↦ rw q (panics task)
                  | inr (known, q) ↦ rw q (
                      write-Goes moment store
                        (insert c state (record known { access_token = some token })) task
                        (Task.logged_in (with_cookie c h RB B CX E state (inner request ctx)))
                        (logs_in request ctx client code state nonce token known e q))
                ])
        ]

    pub step-Goes :
        (moment : c.Moment) (task : Task c h RB B CX E) (store : Store c)
        → Goes moment store task (step c h RB B CX E (some openid) inner moment task store)
    unfolding step
    step-Goes moment (Task.start request ctx) store = begin-Goes moment store request ctx
    step-Goes moment (Task.discovering request ctx issuer) store =
        discovered-Goes moment store request ctx issuer
    step-Goes moment (Task.exchanging request ctx client code state nonce) store =
        exchanged-Goes moment store request ctx client code state nonce
    step-Goes moment (Task.redirected response) store = rests (Task.redirected response)
    step-Goes moment (Task.passed result) store = rests (Task.passed result)
    step-Goes moment (Task.logged_in result) store = rests (Task.logged_in result)
    step-Goes moment Task.panicked store = rests Task.panicked
    step-Goes moment Task.blocked store = rests Task.blocked
