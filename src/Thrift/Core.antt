-- ===== src/Thrift/Core.antt =====
-- monolake-services/src/thrift/ttheader.rs: `TtheaderCoreService::call`, the loop over one
-- connection. What the codec and the timers do in one round of the loop, whatever it is, is a
-- `Round`; a connection for which no further round is given is still open.
mod Examples
use mathlib.Core.Path.{subst}
use monolake.Base.{
  ℕ, Bool, true, false, List, [], ◌∷◌, ◌++◌, Option, none, some, if◌then◌else◌, Result, ok, err,
  Result-cases, Bool-cases, Option-cases, inl, inr, ◌≡◌, refl, sym, ap, ◌∙◌, arith,
}

-- The timeouts, in seconds.
pub record ThriftServerTimeout : Type 0 where
  pub keepalive_timeout : Option ℕ
  pub message_timeout : Option ℕ

-- How a wait for the first byte of a request ends.
pub data Peek : Type 0 where
  peeked_data peeked_end peek_failed peek_elapsed : Peek

pub data Closed : Type 0 where
  closed_idle peek_error keepalive_timed_out message_timed_out decode_failed end_of_stream : Closed
  write_failed processing_failed : Closed

-- What the keepalive part of a round closes the connection for; it is not run without a timeout.
pub keepalive : Option ℕ → Peek → Option Closed
keepalive none peek = none
keepalive (some t) peeked_data = none
keepalive (some t) peeked_end = some closed_idle
keepalive (some t) peek_failed = some peek_error
keepalive (some t) peek_elapsed = some keepalive_timed_out

module _ (Req Resp E : Type 0) where
  -- Whether the message timer fires before the decoder has a result, that result (`none` is the end of
  -- the stream, an error one of decoding), and whether the response is written.
  pub record Round : Type 0 where
    pub peek : Peek
    pub message_elapsed : Bool
    pub decoded : Option (Result Req (Unit {0}))
    pub written : Bool

  pub record Served : Type 0 where
    pub sent : List Resp
    pub closed : Option Closed

  abbrev pub close : Closed → Served
  close reason = record { sent = []; closed = some reason }

  -- A timer that is not set does not fire.
  abbrev pub fires : Option ℕ → Bool → Bool
  fires none elapsed = false
  fires (some t) elapsed = elapsed

  -- What follows the handler's result. There is no response to an error.
  abbrev pub after_handler : Round → Result Resp E → Served → Served
  after_handler round (err e) rest = close processing_failed
  after_handler round (ok resp) rest =
      if round.written then record rest { sent = resp ∷ rest.sent } else close write_failed

  -- A round after its keepalive part.
  abbrev pub message : ThriftServerTimeout → (Req → Result Resp E) → Round → Served → Served
  message timeouts handle round rest =
      if fires timeouts.message_timeout round.message_elapsed
      then close message_timed_out
      else elim round.decoded [
        | none ↦ close end_of_stream
        | some (err e) ↦ close decode_failed
        | some (ok req) ↦ after_handler round (handle req) rest
      ]

  pub call : ThriftServerTimeout → (Req → Result Resp E) → List Round → Served
  call timeouts handle [] = record { sent = []; closed = none }
  call timeouts handle (round ∷ rounds) =
      let rest = call timeouts handle rounds in
      elim (keepalive timeouts.keepalive_timeout round.peek) [
        | some reason ↦ close reason
        | none ↦ message timeouts handle round rest
      ]

  -- A round that answers its request, with the response.
  abbrev pub Answers : (Req → Result Resp E) → Round → Resp → Type 0
  Answers handle round resp =
      (req : Req) × (round.decoded ≡ some (ok req))
      × (handle req ≡ ok resp)
      × (round.written ≡ true)

  -- One response to each round, in their order.
  abbrev pub AllAnswer : (Req → Result Resp E) → List Round → List Resp → Type 0
  AllAnswer handle [] [] = Unit {0}
  AllAnswer handle [] (resp ∷ resps) = ⊥
  AllAnswer handle (round ∷ rounds) [] = ⊥
  AllAnswer handle (round ∷ rounds) (resp ∷ resps) =
      Answers handle round resp × AllAnswer handle rounds resps

  message-open :
      (timeouts : ThriftServerTimeout) (handle : Req → Result Resp E) (round : Round)
      (rest : Served)
      → (message timeouts handle round rest).closed ≡ none
      → (resp : Resp) × Answers handle round resp
        × ((message timeouts handle round rest).sent ≡ resp ∷ rest.sent)
        × (rest.closed ≡ none)
  message-open timeouts handle round rest e =
      elim (Bool-cases (fires timeouts.message_timeout round.message_elapsed)) [
        | inl late ↦ absurd (ground (arith, e, late))
        | inr in_time ↦ elim (Option-cases round.decoded) [
          | inl ended ↦ absurd (ground (arith, e, in_time, ended))
          | inr (d, p) ↦ elim (Result-cases d) [
            | inr (x, q) ↦ absurd (ground (arith, e, in_time, p, q))
            | inl (req, q) ↦ elim (Result-cases (handle req)) [
              | inr (x, g) ↦ absurd (ground (arith, e, in_time, p, q, g))
              | inl (resp, g) ↦ (
                resp,
                (req, p ∙ ap some q, g, ground (arith, e, in_time, p, q, g)),
                ground (arith, e, in_time, p, q, g),
                ground (arith, e, in_time, p, q, g),
              )
            ]
          ]
        ]
      ]

  -- As long as the connection is open, each round so far has decoded one request, and the handler's
  -- response to it was written, in the order of the requests.
  pub call-open :
      (timeouts : ThriftServerTimeout) (handle : Req → Result Resp E) (rounds : List Round)
      → (call timeouts handle rounds).closed ≡ none
      → AllAnswer handle rounds (call timeouts handle rounds).sent
  unfolding call
  call-open timeouts handle [] e = tt
  call-open timeouts handle (round ∷ rounds) e =
      elim (Option-cases (keepalive timeouts.keepalive_timeout round.peek)) [
        | inr (reason, k) ↦ absurd (ground (arith, e, k))
        | inl alive ↦
            let computed : call timeouts handle (round ∷ rounds)
                ≡ message timeouts handle round (call timeouts handle rounds) =
              rw (alive, call) in
            let (resp, a, same, still) =
              message-open timeouts handle round (call timeouts handle rounds)
                (ap (λ s. s.closed) (sym computed) ∙ e) in
            subst (AllAnswer handle (round ∷ rounds)) (sym (ap (λ s. s.sent) computed ∙ same))
              (a, call-open timeouts handle rounds still)
      ]
