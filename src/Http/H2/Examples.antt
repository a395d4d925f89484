-- ===== src/Http/H2/Examples.antt =====
-- Two requests on two streams; the handler of the second one fails, and ends first.
use monolake.Base.{
  ℕ, Bool, true, false, List, [], ◌∷◌, none, if◌then◌else◌, Result, ok, err, ◌==◌, ◌≡◌, refl,
}
use monolake.Http.Fixtures.{functions}
use monolake.Http.H2.{
  stream, head, chunk, Reply, Loop, Choice, receive, backend_next, frontend_next, h2_svc,
  h2_process_response, stream_data,
}
use monolake.Http.H2.Sets.{All, count}
use monolake.Http.H2.Count.{is_answer, is_request}
use monolake.Http.H2.Answers.{init, h2_svc_serves, Served}
use monolake.Http.H2.Frames.{h2_process_response-broken}

abbrev reply : Reply functions ℕ ℕ 0
reply = record { status = 200; headers = λ n. none; body = stream (ok 5 ∷ ok 6 ∷ []) }

abbrev takes : ℕ → Bool
takes k = true

abbrev handle : ℕ → Result (Reply functions ℕ ℕ 0 × Bool) ℕ
handle r = if r == 0 then ok (reply, true) else err r

abbrev requests : List (ℕ × ℕ)
requests = (0, 1) ∷ (7, 3) ∷ []

abbrev choices : List (Choice functions ℕ ℕ 0 ℕ ℕ takes handle)
choices =
    receive ∷ receive ∷ backend_next 1 ∷ backend_next 0 ∷ receive ∷ frontend_next 0 ∷ receive ∷ []

abbrev served : Loop functions ℕ ℕ 0 ℕ ℕ takes handle
served =
    h2_svc functions ℕ ℕ 0 ℕ ℕ takes handle (init functions ℕ ℕ 0 ℕ ℕ takes handle requests) choices

h2_svc_serves_example :
    All (Served functions ℕ ℕ 0 ℕ ℕ takes handle) served.log
    × ((k : ℕ × ℕ → Bool)
        → count (is_answer functions ℕ ℕ 0 ℕ ℕ takes handle k) served.log
          ≡ count (is_request functions ℕ ℕ 0 ℕ ℕ takes handle k) requests)
unfolding h2_svc
h2_svc_serves_example = h2_svc_serves functions ℕ ℕ 0 ℕ ℕ takes handle requests choices refl

breaks_off :
    h2_process_response functions ℕ ℕ 0 true
      (record { status = 200; headers = λ n. none; body = stream (ok 5 ∷ err 9 ∷ []) })
    ≡ head 200 (functions.remove (λ n. none) "connection") false ∷ chunk 5 false ∷ chunk 0 true ∷ []
unfolding h2_process_response stream_data
breaks_off = refl

h2_process_response-broken_example :
    h2_process_response functions ℕ ℕ 0 true
      (record { status = 200; headers = λ n. none; body = stream (ok 5 ∷ err 9 ∷ ok 6 ∷ []) })
    ≡ head 200 (functions.remove (λ n. none) "connection") false ∷ chunk 5 false ∷ chunk 0 true ∷ []
h2_process_response-broken_example =
    h2_process_response-broken functions ℕ ℕ 0 200 (λ n. none) (5 ∷ []) (ok 6 ∷ []) 9
