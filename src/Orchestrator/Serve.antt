-- ===== src/Orchestrator/Serve.antt =====
-- monolake-core/src/orchestrator/mod.rs: `serve`, the loop over the connections of one listener, while
-- the executor writes the slot that the loop reads.
use monolake.Base.{Bool, true, false, List, [], ◌∷◌, ◌++◌, Result, ok, err, ◌≡◌, refl, ap}

module _ (S A E : Type 0) where
  -- What the loop meets, in order: the stop channel, the next of the listener, and in between a write
  -- of the slot by `update_svc`.
  pub data Event : Type 0 where
    stopped : Event
    accepted : Result A E → Event
    listener_closed : Event
    slot_updated : S → Event

  -- The connections for which a task is spawned, each with the service it is called on.
  pub serve : S → List Event → List (A × S)
  serve svc [] = []
  serve svc (stopped ∷ events) = []
  serve svc (accepted (ok accept) ∷ events) = (accept, svc) ∷ serve svc events
  serve svc (accepted (err e) ∷ events) = serve svc events
  serve svc (listener_closed ∷ events) = []
  serve svc (slot_updated new ∷ events) = serve new events

  -- Neither a stop nor the end of the listener.
  abbrev pub goes_on : List Event → Bool
  goes_on [] = true
  goes_on (stopped ∷ events) = false
  goes_on (accepted r ∷ events) = goes_on events
  goes_on (listener_closed ∷ events) = false
  goes_on (slot_updated new ∷ events) = goes_on events

  -- The last service that was written.
  abbrev pub latest : S → List Event → S
  latest svc [] = svc
  latest svc (stopped ∷ events) = latest svc events
  latest svc (accepted r ∷ events) = latest svc events
  latest svc (listener_closed ∷ events) = latest svc events
  latest svc (slot_updated new ∷ events) = latest new events

  -- What comes before and what comes after are served one after the other, if the loop is not stopped in
  -- between.
  pub serve-append :
      (svc : S) (before after : List Event)
      → goes_on before ≡ true
      → serve svc (before ++ after) ≡ serve svc before ++ serve (latest svc before) after
  unfolding serve
  serve-append svc [] after e = refl
  serve-append svc (stopped ∷ before) after e = cc
  serve-append svc (accepted (ok a) ∷ before) after e =
      ap (λ l. (a, svc) ∷ l) (serve-append svc before after e)
  serve-append svc (accepted (err x) ∷ before) after e = serve-append svc before after e
  serve-append svc (listener_closed ∷ before) after e = cc
  serve-append svc (slot_updated new ∷ before) after e = serve-append new before after e

  -- After any events that do not stop the loop, failed accepts among them, a connection that is accepted
  -- is served, by the service that was written last; those before it stay served as they were, and the
  -- events after it are served as by a loop that starts with that service.
  pub serve-accepted :
      (svc : S) (before after : List Event) (a : A)
      → goes_on before ≡ true
      → serve svc (before ++ accepted (ok a) ∷ after)
        ≡ serve svc before ++ (a, latest svc before) ∷ serve (latest svc before) after
  unfolding serve
  serve-accepted svc before after a e = serve-append svc before (accepted (ok a) ∷ after) e

  -- After a stop, or the end of the listener, nothing is served.
  pub serve-stopped :
      (svc : S) (before after : List Event)
      → goes_on before ≡ false
      → serve svc (before ++ after) ≡ serve svc before
  unfolding serve
  serve-stopped svc [] after e = cc
  serve-stopped svc (stopped ∷ before) after e = refl
  serve-stopped svc (accepted (ok a) ∷ before) after e =
      ap (λ l. (a, svc) ∷ l) (serve-stopped svc before after e)
  serve-stopped svc (accepted (err x) ∷ before) after e = serve-stopped svc before after e
  serve-stopped svc (listener_closed ∷ before) after e = refl
  serve-stopped svc (slot_updated new ∷ before) after e = serve-stopped new before after e
