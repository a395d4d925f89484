-- ===== src/Http/OpenId/Examples.antt =====
-- The OpenID handler with a provider that accepts every code.
use Prim.Native.String.{String}
use text.Mathlib.Text.{◌==◌ as str_eq}
use monolake.Base.{
  ℕ, true, List, [], ◌∷◌, ◌++◌, none, some, get_elem?, Result, ok, ◌≡◌, ◌≢◌, ap, refl, ◌==◌,
  if◌then◌else◌,
}
use monolake.Http.Fixtures.{functions, functions-laws}
use monolake.Http.Message.{Request, Response, ResponseWithContinue, http_11}
use monolake.Http.OpenId.{
  OpenIdConfig, Crates, Task, begin, discovered, exchanged, client_of, auth_cookie, authorize,
  token_for, step, redirect_response, cookie, session_id, set_cookie,
}
use monolake.Http.OpenId.Tasks.{World, init, advance, run}
use monolake.Http.OpenId.Issued.{Permitted, store_after, step-Permitted}
use monolake.Http.OpenId.Login.{login-accepted}
use monolake.Http.OpenId.Hang.{unknown_state-hangs}

-- The secret of a moment is "s0" or "s1"; the text of a header is its first number.
abbrev crates : Crates
crates = record {
  Moment = ℕ;
  IssuerUrl = Unit {0};
  RedirectUrl = Unit {0};
  Metadata = Unit {0};
  Client = Unit {0};
  TokenResponse = String;
  IdToken = Unit {0};
  AccessToken = String;
  Nonce = ℕ;
  new_issuer_url = λ s. some tt;
  new_redirect_url = λ s. some tt;
  discover_async = λ m u. some tt;
  from_provider_metadata = λ m i s u. tt;
  authorize_url = λ m client. ([], if m == 0 then "s0" else "s1", m);
  exchange_code = λ m client code. some code;
  access_token = λ r. r;
  id_token = λ r. some tt;
  claims = λ client token nonce. true;
  to_str = λ value. some "c";
  split_parse = λ s. some (session_id, "s0") ∷ [];
  query_pairs = λ s.
      some
        (if str_eq s "http://localhost/back" then ("code", "abc") ∷ ("state", "s0") ∷ [] else []);
  header_value = λ s. [];
}

abbrev openid : OpenIdConfig
openid = record { client_id = "c"; client_secret = "x"; issuer_url = "i"; redirect_url = "r" }

abbrev reply : Response functions ℕ
reply = record { status = 200; version = http_11; headers = λ n. none; body = some 2 }

abbrev inner : Request functions ℕ → ℕ → Result (ResponseWithContinue functions ℕ) ℕ
inner r cx = ok (reply, true)

abbrev home : Request functions ℕ
home = record { version = http_11; uri = "/"; headers = λ n. none; body = 0 }

abbrev back : Request functions ℕ
back = record { version = http_11; uri = "/back"; headers = λ n. none; body = 1 }

abbrev home_again : Request functions ℕ
home_again = record {
  version = http_11;
  uri = "/";
  headers = λ n. if str_eq cookie n then some [] else none;
  body = 0;
}

-- The first request is redirected, the second comes back with a code, the third has the cookie.
abbrev requests : List (Request functions ℕ × ℕ)
requests = (home, 0) ∷ (back, 0) ∷ (home_again, 0) ∷ []

abbrev schedule : List (ℕ × ℕ)
schedule = (0, 0) ∷ (0, 0) ∷ (1, 1) ∷ (1, 1) ∷ (1, 1) ∷ []

abbrev go : List (ℕ × ℕ) → World crates functions ℕ ℕ ℕ ℕ
go s = run crates functions ℕ ℕ ℕ ℕ (some openid) inner s (init crates functions ℕ ℕ ℕ ℕ requests)

third_waits : get_elem? (go schedule).tasks 2 ≡ some (Task.start home_again 0)
unfolding run advance step begin discovered exchanged client_of auth_cookie authorize token_for
third_waits = refl

third_passes :
    get_elem? (go (schedule ++ (2, 1) ∷ [])).tasks 2 ≡ some (Task.passed (ok (reply, true)))
unfolding run advance step begin discovered exchanged client_of auth_cookie authorize token_for
third_passes = refl

third_redirected :
    get_elem? (go ((2, 1) ∷ (2, 1) ∷ [])).tasks 2
    ≡ some (Task.redirected (redirect_response crates functions ℕ ℕ ℕ ℕ []))
unfolding run advance step begin discovered exchanged client_of auth_cookie authorize token_for
third_redirected = refl

step-Permitted_example :
    Permitted crates functions ℕ ℕ ℕ ℕ inner 1
      (store_after crates functions ℕ ℕ ℕ ℕ inner openid requests schedule)
      (Task.start home_again 0)
      (step crates functions ℕ ℕ ℕ ℕ
        (some openid)
        inner
        1
        (Task.start home_again 0)
        (store_after crates functions ℕ ℕ ℕ ℕ inner openid requests schedule)).0
unfolding run advance step begin discovered exchanged client_of auth_cookie authorize token_for
step-Permitted_example =
    step-Permitted crates functions ℕ ℕ ℕ ℕ inner openid requests schedule 1 2
      (Task.start home_again 0) refl refl refl

-- The second request waits for its token, and its session is open.
abbrev waiting : World crates functions ℕ ℕ ℕ ℕ
waiting = record {
  store = record {
    sessions =
        λ k. if str_eq "s0" k then some (record { nonce = 0; access_token = none }) else none;
    readers = 0;
  };
  tasks = Task.start home 0 ∷ Task.exchanging back 0 tt "abc" "s0" 0 ∷ [];
}

abbrev logged_in : World crates functions ℕ ℕ ℕ ℕ
logged_in = advance crates functions ℕ ℕ ℕ ℕ (some openid) inner 1 1 waiting

login-accepted_example :
    (answer : Response functions ℕ) × (get_elem? logged_in.tasks 1
      ≡ some (Task.logged_in (ok (answer, true))))
    × (answer.body ≡ some 2)
    × (answer.headers set_cookie ≡ some [])
    × (step crates functions ℕ ℕ ℕ ℕ
          (some openid)
          inner
          1
          (Task.start home_again 0)
          (run crates functions ℕ ℕ ℕ ℕ (some openid) inner ((0, 1) ∷ (0, 1) ∷ []) logged_in).store
        ≡ (
          Task.passed (ok (reply, true)),
          (run crates functions ℕ ℕ ℕ ℕ (some openid) inner ((0, 1) ∷ (0, 1) ∷ []) logged_in).store,
        ))
unfolding token_for
login-accepted_example =
    login-accepted crates functions ℕ ℕ ℕ ℕ inner openid functions-laws waiting 1 1 back 0 tt "abc"
      "s0" 0 "abc" (record { nonce = 0; access_token = none }) reply true ((0, 1) ∷ (0, 1) ∷ []) 1
      home_again 0 [] refl refl refl refl refl (fresh, (fresh, tt)) refl
  where
    fresh : (client : Unit {0}) → ◌≢◌ {A = String} "s1" "s0"
    fresh client e = cc (ap (λ s. str_eq s "s0") e)

-- Nobody has opened a session, and a request comes with a code.
abbrev unknown : World crates functions ℕ ℕ ℕ ℕ
unknown = record {
  store = record { sessions = λ k. none; readers = 0 };
  tasks = Task.discovering back 0 tt ∷ Task.discovering home 0 tt ∷ [];
}

abbrev hung : World crates functions ℕ ℕ ℕ ℕ
hung = advance crates functions ℕ ℕ ℕ ℕ (some openid) inner 0 0 unknown

unknown_state-hangs_example :
    (get_elem? hung.tasks 0 ≡ some Task.blocked)
    × ((run crates functions ℕ ℕ ℕ ℕ (some openid) inner ((1, 0) ∷ []) hung).store.sessions
        ≡ unknown.store.sessions)
unfolding client_of
unknown_state-hangs_example =
    unknown_state-hangs crates functions ℕ ℕ ℕ ℕ inner openid unknown 0 0 back 0 tt tt
      (("code", "abc") ∷ ("state", "s0") ∷ []) "abc" "s0" ((1, 0) ∷ []) refl refl refl refl refl
      refl
