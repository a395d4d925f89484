-- ===== src/Http/OpenId/Hang.antt =====
-- The block that answers an unknown state asks for the write lock under its own read guard.
use Prim.Native.String.{String, ◌++◌ as ◌<>◌}
use monolake.Base.{
  ℕ, ◌<◌, ◌+◌, List, none, some, get_elem?, set, get_elem?-set, get_elem?-lt, Result, ◌≡◌, refl,
  arith,
}
use monolake.Http.Message.{HeaderMaps, Request, ResponseWithContinue}
use monolake.Http.OpenId.{
  OpenIdConfig, Crates, Store, Task, step, discovered, authorize, client_of, find, Sessions,
}
use monolake.Http.OpenId.Steps.{
  Goes, rests, panics, hangs, waits, passes, opens, asks, logs_in, step-Goes,
}
use monolake.Http.OpenId.Tasks.{World, Moments-Unit, advance, run, run-Keeps}

module _ (c : Crates) (h : HeaderMaps) (RB B CX E : Type 0)
    (inner : Request h RB → CX → Result (ResponseWithContinue h B) E) where
  -- A read guard that is never given back, and the map as it is.
  abbrev pub IsHung : Sessions c → Store c → Type 0
  IsHung sessions store = (0 < store.readers) × (store.sessions ≡ sessions)

  Goes-IsHung :
      (sessions : Sessions c) (moment : c.Moment) (store : Store c) (task : Task c h RB B CX E)
      (r : Task c h RB B CX E × Store c)
      → Goes c h RB B CX E inner moment store task r
      → IsHung sessions store
      → IsHung sessions r.1
  Goes-IsHung sessions moment store task r (rests t) hung = hung
  Goes-IsHung sessions moment store task r (panics t) hung = hung
  Goes-IsHung sessions moment store task r (hangs t n pos) hung = (pos, hung.1)
  Goes-IsHung sessions moment store task r (waits q x url) hung = hung
  Goes-IsHung sessions moment store task r (passes q x token carried) hung = hung
  Goes-IsHung sessions moment store task r (asks q x u cl code state known pairs e g f s) hung =
      hung
  Goes-IsHung sessions moment store task r (opens q x u cl away session e free) hung =
      absurd (omega (arith, hung.0))
  Goes-IsHung sessions moment store task r (logs_in q x cl code state nonce token known e s free)
        hung =
      absurd (omega (arith, hung.0))

  module _ (openid : OpenIdConfig) where
    authorize-unknown :
        (moment : c.Moment) (client : c.Client) (store : Store c) (request : Request h RB)
        (ctx : CX) (pairs : List (String × String)) (code state : String)
        → find c "code" pairs ≡ some code
        → find c "state" pairs ≡ some state
        → store.sessions state ≡ none
        → authorize c h RB B CX E (some openid) inner moment client store request ctx pairs
          ≡ (Task.blocked, record store { readers = store.readers + 1 })
    unfolding authorize
    authorize-unknown moment client store request ctx pairs code state e f u =
        rw (e, authorize) (rw f (rw u (ground arith)))

    discovered-unknown :
        (moment : c.Moment) (client : c.Client) (store : Store c) (request : Request h RB)
        (ctx : CX) (issuer : c.IssuerUrl) (pairs : List (String × String)) (code state : String)
        → client_of c h RB B CX E (some openid) inner moment issuer ≡ some client
        → c.query_pairs ("http://localhost" <> request.uri) ≡ some pairs
        → find c "code" pairs ≡ some code
        → find c "state" pairs ≡ some state
        → store.sessions state ≡ none
        → discovered c h RB B CX E (some openid) inner moment store request ctx issuer
          ≡ (Task.blocked, record store { readers = store.readers + 1 })
    unfolding discovered
    discovered-unknown moment client store request ctx issuer pairs code state k q e f u =
        rw (k, discovered)
          (rw q (authorize-unknown moment client store request ctx pairs code state e f u))

    run-IsHung :
        (sessions : Sessions c) (schedule : List (ℕ × c.Moment)) (w : World c h RB B CX E)
        → IsHung sessions w.store
        → IsHung sessions (run c h RB B CX E (some openid) inner schedule w).store
    run-IsHung sessions schedule w hung =
        run-Keeps c h RB B CX E (some openid) inner (IsHung sessions) (λ moment. Unit {0})
          (λ moment task store q p.
            Goes-IsHung sessions moment store task
              (step c h RB B CX E (some openid) inner moment task store)
              (step-Goes c h RB B CX E inner openid moment task store) p)
          schedule w (Moments-Unit c schedule) hung

    -- The provider has answered for a request whose address has a code, and a state that is in no session.
    -- Then its task is blocked; and whatever steps follow, of this request and of all others, no
    -- session is opened and no login is recorded any more.
    pub unknown_state-hangs :
        (w : World c h RB B CX E) (i : ℕ) (moment : c.Moment) (request : Request h RB) (ctx : CX)
        (issuer : c.IssuerUrl) (client : c.Client) (pairs : List (String × String))
        (code state : String) (schedule : List (ℕ × c.Moment))
        → get_elem? w.tasks i ≡ some (Task.discovering request ctx issuer)
        → client_of c h RB B CX E (some openid) inner moment issuer ≡ some client
        → c.query_pairs ("http://localhost" <> request.uri) ≡ some pairs
        → find c "code" pairs ≡ some code
        → find c "state" pairs ≡ some state
        → w.store.sessions state ≡ none
        → (get_elem? (advance c h RB B CX E (some openid) inner i moment w).tasks i
            ≡ some Task.blocked)
          × ((run c h RB B CX E
                (some openid)
                inner
                schedule
                (advance c h RB B CX E (some openid) inner i moment w)).store.sessions
              ≡ w.store.sessions)
    unfolding advance step
    unknown_state-hangs w i moment request ctx issuer client pairs code state schedule at k q e f
          u =
        let moved : advance c h RB B CX E (some openid) inner i moment w ≡ record {
          store = record w.store { readers = w.store.readers + 1 };
          tasks = set w.tasks i Task.blocked;
        } =
          rw (at, advance)
            (rw (
              discovered-unknown moment client w.store request ctx issuer pairs code state k q e f
                u)) in
        (
          rw moved (
              rw (get_elem?-set w.tasks i Task.blocked i (get_elem?-lt w.tasks i at))
                (ground arith)),
          (run-IsHung w.store.sessions schedule _ (rw moved (omega arith, refl))).1,
        )
