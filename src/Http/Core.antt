-- ===== src/Http/Core.antt =====
-- monolake-services/src/http/core.rs: `HttpCoreService::h1_svc`, the loop over one HTTP/1 connection,
-- and `HttpServerTimeout`. What the decoder, the encoder and the timers do in one round of the loop,
-- whatever it is, is a `Round`; a connection for which no further round is given is still open.
mod Examples
use mathlib.Core.Path.{subst}
use monolake.Base.{
  ℕ, Bool, true, false, List, [], ◌∷◌, ◌++◌, Option, none, some, if◌then◌else◌, Result, ok, err,
  Result-cases, Bool-cases, Option-cases, inl, inr, ◌≡◌, refl, sym, ap, ◌∙◌, arith,
}
use monolake.Http.Message.{HeaderMaps, Request, Response, ResponseWithContinue, generate_response}

-- The timeouts, in seconds.
pub record HttpServerTimeout : Type 0 where
  pub keepalive_timeout : Option ℕ
  pub read_header_timeout : Option ℕ
  pub read_body_timeout : Option ℕ

pub default_timeout : HttpServerTimeout
default_timeout = record {
  keepalive_timeout = some 75;
  read_header_timeout = none;
  read_body_timeout = none;
}

module _ (h : HeaderMaps) (B E : Type 0) where
  -- One round: whether the header timer fires before the decoder has a result, that result (`none` is
  -- the end of the stream, an error one of decoding), whether the body timer fires before the response
  -- is written, whether the writing succeeds, and whether the rest of the request body is decoded.
  pub record Round : Type 0 where
    pub header_elapsed : Bool
    pub decoded : Option (Result (Request h B) (Unit {0}))
    pub body_elapsed : Bool
    pub written : Bool
    pub payload : Bool

  pub data Closed : Type 0 where
    header_timed_out decode_failed end_of_stream write_timed_out write_failed not_continued : Closed
    payload_failed processing_failed : Closed

  -- The responses written, and why the connection was closed, if it was.
  pub record Served : Type 0 where
    pub sent : List (Response h B)
    pub closed : Option Closed

  abbrev pub close : Closed → List (Response h B) → Served
  close reason sent = record { sent = sent; closed = some reason }

  -- A timer that is not set does not fire.
  abbrev pub fires : Option ℕ → Bool → Bool
  fires none elapsed = false
  fires (some t) elapsed = elapsed

  -- What follows the handler's result. A response that is cut off by the timer or by an error of the
  -- encoder is not counted as written.
  abbrev pub after_handler :
      HttpServerTimeout → Round → Result (ResponseWithContinue h B) E → Served → Served
  after_handler timeouts round (err e) rest =
      close processing_failed (if round.written then generate_response h B 500 true ∷ [] else [])
  after_handler timeouts round (ok (resp, should_cont)) rest =
      if fires timeouts.read_body_timeout round.body_elapsed
      then close write_timed_out []
      else (if round.written
          then (if should_cont
              then (if round.payload
                  then record rest { sent = resp ∷ rest.sent }
                  else close payload_failed (resp ∷ []))
              else close not_continued (resp ∷ []))
          else close write_failed [])

  pub h1_svc :
      HttpServerTimeout → (Request h B → Result (ResponseWithContinue h B) E) → List Round → Served
  h1_svc timeouts handle [] = record { sent = []; closed = none }
  h1_svc timeouts handle (round ∷ rounds) =
      let rest = h1_svc timeouts handle rounds in
      if fires timeouts.read_header_timeout round.header_elapsed
      then close header_timed_out []
      else elim round.decoded [
        | none ↦ close end_of_stream []
        | some (err e) ↦ close decode_failed []
        | some (ok req) ↦ after_handler timeouts round (handle req) rest
      ]

  -- A round that answers its request and goes on, with the response.
  pub data Answers (timeouts : HttpServerTimeout)
      (handle : Request h B → Result (ResponseWithContinue h B) E)
      : Round → Response h B → Type 0 where
    answers :
        (round : Round) (req : Request h B) (resp : Response h B)
        → fires timeouts.read_header_timeout round.header_elapsed ≡ false
        → round.decoded ≡ some (ok req)
        → handle req ≡ ok (resp, true)
        → fires timeouts.read_body_timeout round.body_elapsed ≡ false
        → round.written ≡ true
        → round.payload ≡ true
        → Answers timeouts handle round resp

  -- One response to each round, in their order.
  abbrev pub AllAnswer :
      HttpServerTimeout
      → (Request h B → Result (ResponseWithContinue h B) E)
      → List Round
      → List (Response h B)
      → Type 0
  AllAnswer timeouts handle [] [] = Unit {0}
  AllAnswer timeouts handle [] (resp ∷ resps) = ⊥
  AllAnswer timeouts handle (round ∷ rounds) [] = ⊥
  AllAnswer timeouts handle (round ∷ rounds) (resp ∷ resps) =
      Answers timeouts handle round resp × AllAnswer timeouts handle rounds resps

  -- A round after which the connection is still open.
  open_handled :
      (timeouts : HttpServerTimeout) (round : Round) (result : Result (ResponseWithContinue h B) E)
      (rest : Served)
      → (after_handler timeouts round result rest).closed ≡ none
      → (resp : Response h B) × (result ≡ ok (resp, true))
        × (fires timeouts.read_body_timeout round.body_elapsed ≡ false)
        × (round.written ≡ true)
        × (round.payload ≡ true)
        × (after_handler timeouts round result rest ≡ record rest { sent = resp ∷ rest.sent })
        × (rest.closed ≡ none)
  open_handled timeouts round (err x) rest e = cc
  open_handled timeouts round (ok (resp, should_cont)) rest e =
      (resp, ground arith, ground arith, ground arith, ground arith, ground arith, ground arith)

  open_round :
      (timeouts : HttpServerTimeout) (handle : Request h B → Result (ResponseWithContinue h B) E)
      (round : Round) (rounds : List Round)
      → (h1_svc timeouts handle (round ∷ rounds)).closed ≡ none
      → (resp : Response h B) × Answers timeouts handle round resp
        × ((h1_svc timeouts handle (round ∷ rounds)).sent
            ≡ resp ∷ (h1_svc timeouts handle rounds).sent)
        × ((h1_svc timeouts handle rounds).closed ≡ none)
  unfolding h1_svc
  open_round timeouts handle round rounds e =
      elim (Bool-cases (fires timeouts.read_header_timeout round.header_elapsed)) [
        | inl late ↦ absurd (ground (arith, e, late))
        | inr in_time ↦ elim (Option-cases round.decoded) [
          | inl ended ↦ absurd (ground (arith, e, in_time, ended))
          | inr (d, p) ↦ elim (Result-cases d) [
            | inr (x, q) ↦ absurd (ground (arith, e, in_time, p, q))
            | inl (req, q) ↦
                let computed : h1_svc timeouts handle (round ∷ rounds)
                    ≡ after_handler timeouts round (handle req) (h1_svc timeouts handle rounds) =
                  ground (arith, in_time, p, q) in
                let (resp, g, b, w, l, same, still) =
                  open_handled timeouts round (handle req) (h1_svc timeouts handle rounds)
                    (ap (λ s. s.closed) (sym computed) ∙ e) in
                (
                  resp,
                  answers round req resp in_time (p ∙ ap some q) g b w l,
                  ap (λ s. s.sent) (computed ∙ same),
                  still,
                )
          ]
        ]
      ]

  -- As long as the connection is open, each round so far has decoded one request, and its response by
  -- the handler was written, in the order of the requests.
  pub h1_svc-open :
      (timeouts : HttpServerTimeout) (handle : Request h B → Result (ResponseWithContinue h B) E)
      (rounds : List Round)
      → (h1_svc timeouts handle rounds).closed ≡ none
      → AllAnswer timeouts handle rounds (h1_svc timeouts handle rounds).sent
  unfolding h1_svc
  h1_svc-open timeouts handle [] e = tt
  h1_svc-open timeouts handle (round ∷ rounds) e =
      let (resp, a, same, still) = open_round timeouts handle round rounds e in
      subst (AllAnswer timeouts handle (round ∷ rounds)) (sym same)
        (a, h1_svc-open timeouts handle rounds still)

  -- Whatever comes after rounds that each answer a request and go on, their responses are written first,
  -- in their order, and then what the loop writes from there.
  pub h1_svc-answered :
      (timeouts : HttpServerTimeout) (handle : Request h B → Result (ResponseWithContinue h B) E)
      (before after : List Round) (resps : List (Response h B))
      → AllAnswer timeouts handle before resps
      → (h1_svc timeouts handle (before ++ after)).sent
        ≡ resps ++ (h1_svc timeouts handle after).sent
  unfolding h1_svc
  h1_svc-answered timeouts handle [] after [] a = refl
  h1_svc-answered timeouts handle [] after (resp ∷ resps) a = absurd a
  h1_svc-answered timeouts handle (round ∷ before) after [] a = absurd a
  h1_svc-answered timeouts handle (round ∷ before) after (resp ∷ resps)
        (answers _ req _ t d g b w l, others) =
      rw (t, h1_svc)
        (rw d (
          rw g (
            rw b (
              rw w (
                rw l (
                  ap (λ r. resp ∷ r)
                    (h1_svc-answered timeouts handle before after resps others)))))))
