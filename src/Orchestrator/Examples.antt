-- ===== src/Orchestrator/Examples.antt =====
-- `serve` at concrete values: connections are numbers, and so are services.
use monolake.Base.{ℕ, List, [], ◌∷◌, ◌++◌, ok, err, ◌≡◌, refl}
use monolake.Orchestrator.Serve.{
  Event, stopped, accepted, slot_updated, serve, serve-accepted, serve-stopped,
}

abbrev before : List (Event ℕ ℕ (Unit {0}))
before = accepted (ok 1) ∷ slot_updated 20 ∷ accepted (err tt) ∷ []

abbrev after : List (Event ℕ ℕ (Unit {0}))
after = accepted (ok 2) ∷ stopped ∷ accepted (ok 3) ∷ []

serve-accepted_example :
    serve ℕ ℕ (Unit {0}) 10 (before ++ accepted (ok 2) ∷ after)
    ≡ serve ℕ ℕ (Unit {0}) 10 before ++ (2, 20) ∷ serve ℕ ℕ (Unit {0}) 20 after
serve-accepted_example = serve-accepted ℕ ℕ (Unit {0}) 10 before after 2 refl

serve-stopped_example : serve ℕ ℕ (Unit {0}) 10 (after ++ before) ≡ serve ℕ ℕ (Unit {0}) 10 after
serve-stopped_example = serve-stopped ℕ ℕ (Unit {0}) 10 after before refl
