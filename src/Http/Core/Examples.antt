-- ===== src/Http/Core/Examples.antt =====
-- The loop at concrete values: two requests on a connection that stays open.
use monolake.Base.{ℕ, true, false, List, [], ◌∷◌, ◌++◌, none, some, Result, ok, ◌≡◌, refl}
use monolake.Http.Message.{HeaderMaps, Request, Response, ResponseWithContinue, http_11}
use monolake.Http.Core.{HttpServerTimeout, Round, h1_svc, answers, AllAnswer, h1_svc-open}

-- No header has a value here.
abbrev none_set : HeaderMaps
none_set = record {
  Map = Unit {0};
  empty = tt;
  get = λ m n. none;
  insert = λ m n v. tt;
  remove = λ m n. tt;
}

abbrev no_timeout : HttpServerTimeout
no_timeout = record {
  keepalive_timeout = some 75;
  read_header_timeout = some 5;
  read_body_timeout = none;
}

abbrev asked : ℕ → Round none_set ℕ ℕ
asked n = record {
  header_elapsed = false;
  decoded = some (ok (record { version = http_11; uri = "/"; headers = tt; body = n }));
  body_elapsed = true;
  written = true;
  payload = true;
}

abbrev reply : ℕ → Response none_set ℕ
reply n = record { status = 200; version = http_11; headers = tt; body = some n }

abbrev handle : Request none_set ℕ → Result (ResponseWithContinue none_set ℕ) ℕ
handle r = ok (reply r.body, true)

abbrev rounds : List (Round none_set ℕ ℕ)
rounds = asked 1 ∷ asked 2 ∷ []

still_open : (h1_svc none_set ℕ ℕ no_timeout handle rounds).closed ≡ none
unfolding h1_svc
still_open = refl

h1_svc-open_example :
    AllAnswer none_set ℕ ℕ no_timeout handle rounds
      (h1_svc none_set ℕ ℕ no_timeout handle rounds).sent
h1_svc-open_example = h1_svc-open none_set ℕ ℕ no_timeout handle rounds still_open

both_answer : AllAnswer none_set ℕ ℕ no_timeout handle rounds (reply 1 ∷ reply 2 ∷ [])
both_answer = (
  answers (asked 1) (record { version = http_11; uri = "/"; headers = tt; body = 1 }) (reply 1) refl
      refl refl refl refl refl,
  (
    answers (asked 2) (record { version = http_11; uri = "/"; headers = tt; body = 2 }) (reply 2)
        refl refl refl refl refl refl,
    tt,
  ),
)

abbrev timed_out : Round none_set ℕ ℕ
timed_out = record (asked 3) { header_elapsed = true }

answered_then_closed :
    (h1_svc none_set ℕ ℕ no_timeout handle (rounds ++ timed_out ∷ [])).sent ≡ reply 1 ∷ reply 2 ∷ []
unfolding h1_svc
answered_then_closed = refl
