-- ===== src/Thrift/Core/Examples.antt =====
-- The loop at concrete values: two requests on a connection that stays open.
use monolake.Base.{ℕ, ◌+◌, true, [], ◌∷◌, none, some, Result, ok, ◌≡◌, refl}
use monolake.Thrift.Core.{
  ThriftServerTimeout, peeked_data, keepalive, Round, call, AllAnswer, call-open,
}

abbrev timeouts : ThriftServerTimeout
timeouts = record { keepalive_timeout = some 75; message_timeout = none }

abbrev asked : ℕ → Round ℕ ℕ ℕ
asked n = record {
  peek = peeked_data;
  message_elapsed = true;
  decoded = some (ok n);
  written = true;
}

abbrev handle : ℕ → Result ℕ ℕ
handle n = ok (n + 1)

still_open : (call ℕ ℕ ℕ timeouts handle (asked 1 ∷ asked 2 ∷ [])).closed ≡ none
unfolding call keepalive
still_open = refl

call-open_example :
    AllAnswer ℕ ℕ ℕ handle
      (asked 1 ∷ asked 2 ∷ [])
      (call ℕ ℕ ℕ timeouts handle (asked 1 ∷ asked 2 ∷ [])).sent
call-open_example = call-open ℕ ℕ ℕ timeouts handle (asked 1 ∷ asked 2 ∷ []) still_open
