-- ===== src/Http/OpenId/Login.antt =====
-- A login: the cookie that a request gets is accepted from then on.
use Prim.Native.String.{String, ◌++◌ as ◌<>◌}
use text.Mathlib.Text.{◌==◌ as str_eq}
use text.Mathlib.TextEquality.{eq_iff}
use text.Mathlib.TextPositions.{eq_refl}
use monolake.Base.{
  ℕ, Bool, true, List, ◌∷◌, Option, some, get_elem?, set, get_elem?-set, get_elem?-lt, Result, ok,
  Bool-cases, inl, inr, ◌≡◌, ◌≢◌, refl, ap, arith,
}
use monolake.Http.Message.{HeaderMaps, HeaderLaws, Request, Response, ResponseWithContinue}
use monolake.Http.OpenId.{
  OpenIdConfig, Crates, SessionState, Store, Task, insert, step, begin, exchanged, token_for,
  with_cookie, has_token, auth_cookie, cookies_of, cookie, set_cookie, session_id,
}
use monolake.Http.OpenId.Steps.{
  Goes, rests, panics, hangs, waits, passes, opens, asks, logs_in, step-Goes,
}
use monolake.Http.OpenId.Tasks.{World, Moments, advance, run, run-Keeps}

-- The CSRF secrets that are drawn at this moment are not this one.
abbrev pub IsFresh : (c : Crates) → String → c.Moment → Type 0
IsFresh c state moment = (client : c.Client) → (c.authorize_url moment client).1 ≢ state

module _ (c : Crates) (h : HeaderMaps) (RB B CX E : Type 0)
    (inner : Request h RB → CX → Result (ResponseWithContinue h B) E) where
  Goes-has_token :
      (moment : c.Moment) (store : Store c) (task : Task c h RB B CX E)
      (r : Task c h RB B CX E × Store c) (k : String)
      → Goes c h RB B CX E inner moment store task r
      → IsFresh c k moment
      → has_token c (store.sessions k) ≡ true
      → has_token c (r.1.sessions k) ≡ true
  Goes-has_token moment store task r k (rests t) fresh e = e
  Goes-has_token moment store task r k (panics t) fresh e = e
  Goes-has_token moment store task r k (hangs t n pos) fresh e = e
  Goes-has_token moment store task r k (waits request ctx url) fresh e = e
  Goes-has_token moment store task r k (passes request ctx token carried) fresh e = e
  Goes-has_token moment store task r k (asks q x u cl code state known pairs w g f s) fresh e = e
  Goes-has_token moment store task r k (opens q x u cl away session s f) fresh e =
      let csrf = (c.authorize_url moment cl).1 in
      elim (Bool-cases (str_eq csrf k)) [
        | inl same ↦ absurd (fresh cl ((eq_iff csrf k).0 same))
        | inr other ↦ rw other e
      ]
  Goes-has_token moment store task r k (logs_in q x cl code state nonce token known t s f) fresh e =
      elim (Bool-cases (str_eq state k)) [ inl same ↦ rw same | inr other ↦ rw other e ]

  module _ (openid : OpenIdConfig) where
    run-has_token :
        (k : String) (schedule : List (ℕ × c.Moment)) (w : World c h RB B CX E)
        → Moments c (IsFresh c k) schedule
        → has_token c (w.store.sessions k) ≡ true
        → has_token c ((run c h RB B CX E (some openid) inner schedule w).store.sessions k) ≡ true
    run-has_token k schedule w fresh e =
        run-Keeps c h RB B CX E (some openid) inner (λ store. has_token c (store.sessions k) ≡ true)
          (IsFresh c k)
          (λ moment task store q p.
            Goes-has_token moment store task
              (step c h RB B CX E (some openid) inner moment task store) k
              (step-Goes c h RB B CX E inner openid moment task store) q p)
          schedule w fresh e

    -- A request whose first cookie is the session id of a session with a token.
    begin-accepted :
        (store : Store c) (state : String) (request : Request h RB) (ctx : CX)
        (cookies : List (Option (String × String)))
        → has_token c (store.sessions state) ≡ true
        → cookies_of c (h.get request.headers cookie) ≡ some (some (session_id, state) ∷ cookies)
        → begin c h RB B CX E (some openid) inner store request ctx
          ≡ Task.passed (inner request ctx)
    unfolding begin auth_cookie
    begin-accepted store state request ctx cookies e q = rw (q, begin) (rw (e, begin) (rw e))

    exchanged-granted :
        (moment : c.Moment) (store : Store c) (request : Request h RB) (ctx : CX)
        (client : c.Client) (code state : String) (nonce : c.Nonce) (token : c.AccessToken)
        (known : SessionState c)
        → store.readers ≡ 0
        → token_for c moment client code nonce ≡ some token
        → store.sessions state ≡ some known
        → exchanged c h RB B CX E
            (some openid)
            inner
            moment
            store
            request
            ctx
            client
            code
            state
            nonce
          ≡ (
            Task.logged_in (with_cookie c h RB B CX E state (inner request ctx)),
            record store {
              sessions = insert c state (record known { access_token = some token }) store.sessions;
            },
          )
    unfolding exchanged
    exchanged-granted moment store request ctx client code state nonce token known f e q =
        rw (e, exchanged) (rw q (rw f))

    -- A task waits for its token, no read guard is held, the provider gives a token with a valid ID token,
    -- the task's state is a session of the store, and the inner handler returns a response. Then the task
    -- ends with that response, a cookie `session-id` with the state put in. And whatever steps follow, as
    -- long as no CSRF secret drawn in them is that state: a request whose first cookie is this one goes to
    -- the inner handler at once, and changes no session.
    pub login-accepted :
        (laws : HeaderLaws h) (w : World c h RB B CX E) (i : ℕ) (moment : c.Moment)
        (request : Request h RB) (ctx : CX) (client : c.Client) (code state : String)
        (nonce : c.Nonce) (token : c.AccessToken) (known : SessionState c) (response : Response h B)
        (cont : Bool) (schedule : List (ℕ × c.Moment)) (later : c.Moment) (again : Request h RB)
        (ctx' : CX) (cookies : List (Option (String × String)))
        → get_elem? w.tasks i ≡ some (Task.exchanging request ctx client code state nonce)
        → w.store.readers ≡ 0
        → token_for c moment client code nonce ≡ some token
        → w.store.sessions state ≡ some known
        → inner request ctx ≡ ok (response, cont)
        → Moments c (IsFresh c state) schedule
        → cookies_of c (h.get again.headers cookie) ≡ some (some (session_id, state) ∷ cookies)
        → (answer : Response h B) × (get_elem?
              (advance c h RB B CX E (some openid) inner i moment w).tasks
              i
            ≡ some (Task.logged_in (ok (answer, cont))))
          × (answer.body ≡ response.body)
          × (h.get answer.headers set_cookie ≡ some (c.header_value (session_id <> ("=" <> state))))
          × (step c h RB B CX E
                (some openid)
                inner
                later
                (Task.start again ctx')
                (run c h RB B CX E
                  (some openid)
                  inner
                  schedule
                  (advance c h RB B CX E (some openid) inner i moment w)).store
              ≡ (
                Task.passed (inner again ctx'),
                (run c h RB B CX E
                    (some openid)
                    inner
                    schedule
                    (advance c h RB B CX E (some openid) inner i moment w)).store,
              ))
    unfolding with_cookie step advance
    login-accepted laws w i moment request ctx client code state nonce token known response cont
          schedule later again ctx' cookies at free gives has answers fresh carried =
        let sessions =
          insert c state (record known { access_token = some token }) w.store.sessions in
        let value = c.header_value (session_id <> ("=" <> state)) in
        let moved : advance c h RB B CX E (some openid) inner i moment w ≡ record {
          store = record { sessions = sessions; readers = w.store.readers };
          tasks =
              set w.tasks i (Task.logged_in (with_cookie c h RB B CX E state (inner request ctx)));
        } =
          rw (at, advance)
            (rw (
              exchanged-granted moment w.store request ctx client code state nonce token known free
                gives has)) in
        (
          record response { headers = h.insert response.headers set_cookie value },
          rw moved (
              rw (get_elem?-set w.tasks i _ i (get_elem?-lt w.tasks i at))
                (rw answers (ground arith))),
          refl,
          rw (laws.get-insert response.headers set_cookie set_cookie value),
          ap
              (λ t. (
                t,
                (run c h RB B CX E (some openid) inner schedule
                    (advance c h RB B CX E (some openid) inner i moment w)).store,
              ))
              (begin-accepted _ state again ctx' cookies
                (run-has_token state schedule _ fresh (rw moved (rw (eq_refl state)))) carried),
        )
