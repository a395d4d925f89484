-- ===== src/Http/Examples.antt =====
-- The handlers at concrete values: header maps that are functions, bodies that are numbers.
use text.Mathlib.Text.{◌==◌ as str_eq}
use monolake.Base.{zero, suc, ℕ, true, none, some, if◌then◌else◌, Result, ok, ◌≡◌}
use monolake.Http.Fixtures.{functions}
use monolake.Http.Message.{
  Request, Response, ResponseWithContinue, http_10, http_11, connection, keepalive_value,
}
use monolake.Http.Accompany.{Poll, ready, pending, new, beside, polls, polls-new}

abbrev request : Request functions ℕ
request = record {
  version = http_10;
  uri = "/";
  headers = λ n. if str_eq connection n then some keepalive_value else none;
  body = 1;
}

abbrev reply : Response functions ℕ
reply = record { status = 200; version = http_11; headers = λ n. none; body = some 2 }

abbrev inner : Request functions ℕ → ℕ → Result (ResponseWithContinue functions ℕ) ℕ
inner r cx = ok (reply, true)

-- A future that counts down.
abbrev countdown : ℕ → Poll ℕ × ℕ
countdown zero = (ready 9, zero)
countdown (suc n) = (pending, n)

abbrev never : ℕ → Poll ℕ × ℕ
never m = (pending, m)

polls-new_example :
    beside ℕ ℕ countdown ℕ ℕ never (polls ℕ ℕ countdown ℕ ℕ never 3 (new ℕ ℕ countdown 0 1))
    ≡ (0, some 9)
polls-new_example = polls-new ℕ ℕ countdown ℕ ℕ never 3 0 1
