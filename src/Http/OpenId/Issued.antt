-- ===== src/Http/OpenId/Issued.antt =====
-- Access tokens come from the provider, and only with one does a request reach the inner handler.
use Prim.Native.String.{String, ◌++◌ as ◌<>◌}
use text.Mathlib.Text.{◌==◌ as str_eq}
use mathlib.Core.Path.{subst}
use monolake.Base.{
  ℕ, Bool, true, false, List, [], ◌∷◌, Option, none, some, get_elem?, Result, Bool-cases,
  Option-cases, inl, inr, ◌≡◌, sym, ◌∙◌, arith,
}
use monolake.Http.Message.{HeaderMaps, Request, ResponseWithContinue}
use monolake.Http.OpenId.{
  OpenIdConfig, Crates, SessionState, Sessions, Store, Task, insert, step, token_for, with_cookie,
  auth_cookie, find, cookie,
}
use monolake.Http.OpenId.Steps.{
  CarriesToken, carries, Goes, rests, panics, hangs, waits, passes, opens, asks, logs_in, step-Goes,
}
use monolake.Http.OpenId.Tasks.{
  init, run, run-Keeps, Moments-Unit, get_elem?-AllTasks, run-AllTasks, arrived-AllTasks,
}

-- The provider has answered to this code with this access token and an ID token, whose claims hold with
-- the nonce.
pub data Verified (c : Crates) (moment : c.Moment) (client : c.Client) (code : String)
    (nonce : c.Nonce) (token : c.AccessToken) : Type 0 where
  verified :
      (response : c.TokenResponse) (id : c.IdToken)
      → c.exchange_code moment client code ≡ some response
      → c.id_token response ≡ some id
      → c.claims client id nonce ≡ true
      → c.access_token response ≡ token
      → Verified c moment client code nonce token

token_for-Verified :
    (c : Crates) (moment : c.Moment) (client : c.Client) (code : String) (nonce : c.Nonce)
    (token : c.AccessToken)
    → token_for c moment client code nonce ≡ some token
    → Verified c moment client code nonce token
unfolding token_for
token_for-Verified c moment client code nonce token e =
    elim (Option-cases (c.exchange_code moment client code)) [
      | inl x ↦ absurd (ground (arith, e, x))
      | inr (response, x) ↦ elim (Option-cases (c.id_token response)) [
        | inl y ↦ absurd (ground (arith, e, x, y))
        | inr (id, y) ↦ elim (Bool-cases (c.claims client id nonce)) [
          | inr z ↦ absurd (ground (arith, e, x, y, z))
          | inl z ↦ verified response id x y z (ground (arith, e, x, y, z))
        ]
      ]
    ]

-- The provider has given this token for some code, with a valid ID token.
pub data IsIssued (c : Crates) (token : c.AccessToken) : Type 0 where
  issued :
      (moment : c.Moment) (client : c.Client) (code : String) (nonce : c.Nonce)
      → Verified c moment client code nonce token
      → IsIssued c token

-- The first of the pairs with this name has this value.
pub data FirstOf (name value : String) : List (String × String) → Type 0 where
  here :
      (n : String) (pairs : List (String × String))
      → str_eq n name ≡ true
      → FirstOf name value ((n, value) ∷ pairs)
  later :
      (n v : String) (pairs : List (String × String))
      → str_eq n name ≡ false
      → FirstOf name value pairs
      → FirstOf name value ((n, v) ∷ pairs)

find-FirstOf :
    (c : Crates) (name value : String) (pairs : List (String × String))
    → find c name pairs ≡ some value
    → FirstOf name value pairs
find-FirstOf c name value [] e = absurd (cc e)
find-FirstOf c name value ((n, v) ∷ pairs) e = elim (Bool-cases (str_eq n name)) [
  | inl hit ↦
      let same : v ≡ value = ground (arith, e, hit) in
      subst (λ w. FirstOf name value ((n, w) ∷ pairs)) (sym same) (here n pairs hit)
  | inr miss ↦ later n v pairs miss (find-FirstOf c name value pairs (ground (arith, e, miss)))
]

-- The first cookie called `session-id`, all those before it being cookies too.
pub data SessionCookie (key : String) : List (Option (String × String)) → Type 0 where
  this_one :
      (name : String) (cookies : List (Option (String × String)))
      → str_eq name "session-id" ≡ true
      → SessionCookie key (some (name, key) ∷ cookies)
  another :
      (name value : String) (cookies : List (Option (String × String)))
      → str_eq name "session-id" ≡ false
      → SessionCookie key cookies
      → SessionCookie key (some (name, value) ∷ cookies)

SessionCookie-some :
    (key : String) (cookies : List (Option (String × String)))
    → SessionCookie key cookies
    → cookies ≡ []
    → ⊥
SessionCookie-some key cs (this_one name cookies hit) e = cc
SessionCookie-some key cs (another name value cookies miss s) e = cc

auth_cookie-SessionCookie :
    (c : Crates) (sessions : Sessions c) (cookies : List (Option (String × String))) (key : String)
    → auth_cookie c sessions cookies ≡ some (some key)
    → SessionCookie key cookies
unfolding auth_cookie
auth_cookie-SessionCookie c sessions [] key e = absurd (cc e)
auth_cookie-SessionCookie c sessions (none ∷ cookies) key e = absurd (cc e)
auth_cookie-SessionCookie c sessions (some (name, value) ∷ cookies) key e =
    elim (Bool-cases (str_eq name "session-id")) [
      | inl hit ↦
          let same : value ≡ key = ground (arith, e, hit) in
          subst (λ v. SessionCookie key (some (name, v) ∷ cookies)) (sym same)
            (this_one name cookies hit)
      | inr miss ↦
          another name value cookies miss
            (auth_cookie-SessionCookie c sessions cookies key (ground (arith, e, miss)))
    ]

abbrev pub AllIssued : (c : Crates) → Sessions c → Type 0
AllIssued c sessions =
    (k : String) (session : SessionState c) (token : c.AccessToken)
    → sessions k ≡ some session
    → session.access_token ≡ some token
    → IsIssued c token

insert-AllIssued :
    (c : Crates) (sessions : Sessions c) (k : String) (new : SessionState c)
    → ((token : c.AccessToken) → new.access_token ≡ some token → IsIssued c token)
    → AllIssued c sessions
    → AllIssued c (insert c k new sessions)
insert-AllIssued c sessions k new fine all j session token e w = elim (Bool-cases (str_eq k j)) [
  | inl same ↦ fine token (ground (arith, e, w, same))
  | inr other ↦ all j session token (ground (arith, e, other)) w
]

module _ (c : Crates) (h : HeaderMaps) (RB B CX E : Type 0)
    (inner : Request h RB → CX → Result (ResponseWithContinue h B) E) where
  -- Whether the inner handler has been called.
  abbrev pub is_inside : Task c h RB B CX E → Bool
  is_inside (Task.passed result) = true
  is_inside (Task.logged_in result) = true
  is_inside (Task.start request ctx) = false
  is_inside (Task.discovering request ctx url) = false
  is_inside (Task.exchanging request ctx client code state nonce) = false
  is_inside (Task.redirected response) = false
  is_inside Task.panicked = false
  is_inside Task.blocked = false

  -- The ways into the inner handler: by the token of the request's session, or by a code for which the
  -- provider has just given a token.
  pub data Permitted (moment : c.Moment) (store : Store c)
      : Task c h RB B CX E → Task c h RB B CX E → Type 0 where
    by_session :
        (request : Request h RB) (ctx : CX) (value : List ℕ) (text key : String)
        (session : SessionState c) (token : c.AccessToken)
        → h.get request.headers "cookie" ≡ some value
        → c.to_str value ≡ some text
        → SessionCookie key (c.split_parse text)
        → store.sessions key ≡ some session
        → session.access_token ≡ some token
        → IsIssued c token
        → Permitted moment store (Task.start request ctx) (Task.passed (inner request ctx))
    by_code :
        (request : Request h RB) (ctx : CX) (client : c.Client) (code state : String)
        (nonce : c.Nonce) (token : c.AccessToken) (known : SessionState c)
        (pairs : List (String × String))
        → c.query_pairs ("http://localhost" <> request.uri) ≡ some pairs
        → FirstOf "code" code pairs
        → FirstOf "state" state pairs
        → Verified c moment client code nonce token
        → store.sessions state ≡ some known
        → Permitted moment store
            (Task.exchanging request ctx client code state nonce)
            (Task.logged_in (with_cookie c h RB B CX E state (inner request ctx)))

  -- A request that waits for a token has asked for it with the code and the state of its query.
  abbrev pub Asked : Task c h RB B CX E → Type 0
  Asked (Task.exchanging request ctx client code state nonce) =
      (pairs : List (String × String)) × (c.query_pairs ("http://localhost" <> request.uri)
        ≡ some pairs)
      × FirstOf "code" code pairs
      × FirstOf "state" state pairs
  Asked (Task.passed result) = Unit {0}
  Asked (Task.logged_in result) = Unit {0}
  Asked (Task.start request ctx) = Unit {0}
  Asked (Task.discovering request ctx url) = Unit {0}
  Asked (Task.redirected response) = Unit {0}
  Asked Task.panicked = Unit {0}
  Asked Task.blocked = Unit {0}

  Goes-Asked :
      (moment : c.Moment) (store : Store c) (task : Task c h RB B CX E)
      (r : Task c h RB B CX E × Store c)
      → Goes c h RB B CX E inner moment store task r
      → Asked task
      → Asked r.0
  Goes-Asked moment store task r (rests t) before = before
  Goes-Asked moment store task r (panics t) before = tt
  Goes-Asked moment store task r (hangs t n pos) before = tt
  Goes-Asked moment store task r (waits request ctx url) before = tt
  Goes-Asked moment store task r (passes request ctx token carried) before = tt
  Goes-Asked moment store task r (opens q x u cl away session e f) before = tt
  Goes-Asked moment store task r (asks q x u cl code state known pairs e g f s) before =
      (pairs, g, find-FirstOf c "code" code pairs f, find-FirstOf c "state" state pairs s)
  Goes-Asked moment store task r (logs_in q x client code state nonce token known e s f) before = tt

  by_token :
      (moment : c.Moment) (store : Store c) (request : Request h RB) (ctx : CX)
      (token : c.AccessToken)
      → CarriesToken c h RB B CX E inner store request token
      → AllIssued c store.sessions
      → Permitted moment store (Task.start request ctx) (Task.passed (inner request ctx))
  by_token moment store request ctx token (carries {cookies = cs} {key = k} {session = s} e a q w)
        all =
      elim (Option-cases (h.get request.headers cookie)) [
        | inl bare ↦
            let nothing : [] ≡ cs = ground (arith, e, bare) in
            absurd (
              SessionCookie-some k cs (auth_cookie-SessionCookie c store.sessions cs k a)
                (sym nothing))
        | inr (value, there) ↦ elim (Option-cases (c.to_str value)) [
          | inl bad ↦ absurd (ground (arith, e, there, bad))
          | inr (text, good) ↦
              let these : c.split_parse text ≡ cs = ground (arith, e, there, good) in
              by_session request ctx value text k s token there good
                (subst (SessionCookie k) (sym these)
                  (auth_cookie-SessionCookie c store.sessions cs k a))
                q w (all k s token q w)
        ]
      ]

  Goes-Permitted :
      (moment : c.Moment) (store : Store c) (task : Task c h RB B CX E)
      (r : Task c h RB B CX E × Store c)
      → Goes c h RB B CX E inner moment store task r
      → AllIssued c store.sessions
      → Asked task
      → is_inside task ≡ false
      → is_inside r.0 ≡ true
      → Permitted moment store task r.0
  Goes-Permitted moment store task r (rests t) all before out inside = cc
  Goes-Permitted moment store task r (panics t) all before out inside = cc
  Goes-Permitted moment store task r (hangs t n pos) all before out inside = cc
  Goes-Permitted moment store task r (waits request ctx url) all before out inside = cc
  Goes-Permitted moment store task r (passes request ctx token carried) all before out inside =
      by_token moment store request ctx token carried all
  Goes-Permitted moment store task r (opens q x u cl away session e f) all before out inside = cc
  Goes-Permitted moment store task r (asks q x u cl code state known pairs e g f s) all before out
        inside =
      cc
  Goes-Permitted moment store task r (logs_in q x client code state nonce token known e s f) all
        before out inside =
      let (pairs, g, a, b) = before in
      by_code q x client code state nonce token known pairs g a b
        (token_for-Verified c moment client code nonce token e) s

  Goes-AllIssued :
      (moment : c.Moment) (store : Store c) (task : Task c h RB B CX E)
      (r : Task c h RB B CX E × Store c)
      → Goes c h RB B CX E inner moment store task r
      → AllIssued c store.sessions
      → AllIssued c r.1.sessions
  Goes-AllIssued moment store task r (rests t) all = all
  Goes-AllIssued moment store task r (panics t) all = all
  Goes-AllIssued moment store task r (hangs t n pos) all = all
  Goes-AllIssued moment store task r (waits request ctx url) all = all
  Goes-AllIssued moment store task r (passes request ctx token carried) all = all
  Goes-AllIssued moment store task r (asks q x u cl code state known pairs e g f s) all = all
  Goes-AllIssued moment store task r (opens q x u cl away session e f) all =
      insert-AllIssued c store.sessions _ session (λ token w. absurd (ground (arith, e, w))) all
  Goes-AllIssued moment store task r (logs_in q x client code state nonce token known e s f) all =
      insert-AllIssued c store.sessions state (record known { access_token = some token })
        (λ t w.
          issued moment client code nonce (token_for-Verified c moment client code nonce t (e ∙ w)))
        all

  module _ (openid : OpenIdConfig) where
    -- The store after a schedule for these requests.
    abbrev pub store_after : List (Request h RB × CX) → List (ℕ × c.Moment) → Store c
    store_after requests schedule =
        (run c h RB B CX E (some openid) inner schedule (init c h RB B CX E requests)).store

    store_after-AllIssued :
        (requests : List (Request h RB × CX)) (schedule : List (ℕ × c.Moment))
        → AllIssued c (store_after requests schedule).sessions
    store_after-AllIssued requests schedule =
        run-Keeps c h RB B CX E (some openid) inner (λ store. AllIssued c store.sessions)
          (λ moment. Unit {0})
          (λ moment task store q all.
            Goes-AllIssued moment store task
              (step c h RB B CX E (some openid) inner moment task store)
              (step-Goes c h RB B CX E inner openid moment task store) all)
          schedule (init c h RB B CX E requests) (Moments-Unit c schedule)
          (λ k session token e w. absurd (ground (arith, e)))

    abbrev pub tasks_after :
        List (Request h RB × CX) → List (ℕ × c.Moment) → List (Task c h RB B CX E)
    tasks_after requests schedule =
        (run c h RB B CX E (some openid) inner schedule (init c h RB B CX E requests)).tasks

    tasks_after-Asked :
        (requests : List (Request h RB × CX)) (schedule : List (ℕ × c.Moment)) (i : ℕ)
        (task : Task c h RB B CX E)
        → get_elem? (tasks_after requests schedule) i ≡ some task
        → Asked task
    tasks_after-Asked requests schedule i task e =
        get_elem?-AllTasks c h RB B CX E (some openid) inner Asked (tasks_after requests schedule) i
          task
          (run-AllTasks c h RB B CX E (some openid) inner Asked
            (λ moment task store before.
              Goes-Asked moment store task
                (step c h RB B CX E (some openid) inner moment task store)
                (step-Goes c h RB B CX E inner openid moment task store) before)
            schedule (init c h RB B CX E requests)
            (arrived-AllTasks c h RB B CX E (some openid) inner Asked requests (λ request ctx. tt)))
          e

    -- Whatever requests come to a configured handler, and in whatever order their steps are taken: a step
    -- that takes one of them into the inner handler is permitted. Either the first cookie called
    -- session-id in its header names a session with an access token, which the provider has given for some
    -- code, beside an ID token whose claims were verified; or the provider now gives such a token for the
    -- code in the request's query, and the state in the query is a session of the store.
    pub step-Permitted :
        (requests : List (Request h RB × CX)) (schedule : List (ℕ × c.Moment)) (moment : c.Moment)
        (i : ℕ) (task : Task c h RB B CX E)
        → get_elem? (tasks_after requests schedule) i ≡ some task
        → is_inside task ≡ false
        → is_inside
            (step c h RB B CX E (some openid) inner moment task (store_after requests schedule)).0
          ≡ true
        → Permitted moment
            (store_after requests schedule)
            task
            (step c h RB B CX E (some openid) inner moment task (store_after requests schedule)).0
    step-Permitted requests schedule moment i task there out inside =
        let store = store_after requests schedule in
        Goes-Permitted moment store task (step c h RB B CX E (some openid) inner moment task store)
          (step-Goes c h RB B CX E inner openid moment task store)
          (store_after-AllIssued requests schedule)
          (tasks_after-Asked requests schedule i task there) out inside
