-- ===== src/Cancel/Canceller/Runs.antt =====
-- The canceller refines its specification, step by step and over every history.
use monolake.Base.{
  ℕ, ◌+◌, ◌≤◌, ◌<◌, List, [], ◌∷◌, Option, some, ◌≡◌, ◌≢◌, refl, arith, ◌==◌, length, Bool-cases,
  inl, inr, length-append,
}
use monolake.Cancel.LinkedList.{null}
use monolake.Cancel.LinkedList.Represents.{erase}
use monolake.Cancel.LinkedList.Write.{length-replace}
use monolake.Cancel.Canceller.{
  World, init, clone, release, drop_dropper, Event, polls, drops_waiter, cancels, clones, releases,
  drops_dropper, owner, step, run,
}
use monolake.Cancel.Canceller.Spec.{View, start, cancel_view, owner_view, step_view, run_view}
use monolake.Cancel.Canceller.Refines.{
  Refines, view-eq, init-Refines, poll-Refines, drop_waiter-Refines, cancel-Refines,
  release-Refines, clone-Refines,
}

-- An event that needs a canceller.
owner-Refines :
    (s : World) (v u : View) (t : Option World)
    → Refines s v
    → (v.strong ≢ 0 → (s' : World) × (t ≡ some s') × Refines s' u)
    → (s' : World) × (owner s t ≡ some s') × Refines s' (owner_view v u)
owner-Refines s v u t r f = elim (Bool-cases (v.strong == 0)) [
  | inl gone ↦
      let e : v ≡ owner_view v u = ground (arith, gone) in
      (s, ground (arith, gone, r.strong), view-eq e r)
  | inr there ↦
      let (s', q, r') = f (ground arith) in
      let e : u ≡ owner_view v u = ground (arith, there) in
      (s', ground (arith, there, r.strong, q), view-eq e r')
]

-- Every event has its outcome in the view, and none panics, while fewer than `usize::MAX` waiters
-- pend.
pub step-Refines :
    (s : World) (v : View) (e : Event)
    → Refines s v
    → length v.pend < null
    → (s' : World) × (step s e ≡ some s') × Refines s' (step_view v e)
unfolding step drop_dropper
step-Refines s v (polls w k) r small =
    let (s', q, r') = poll-Refines s v w k r small in (s', rw q, r')
step-Refines s v (drops_waiter w) r small = drop_waiter-Refines s v w r
step-Refines s v cancels r small = owner-Refines s v _ _ r (cancel-Refines s v r)
step-Refines s v clones r small =
    owner-Refines s v _ _ r (λ h. (clone s, refl, clone-Refines s v r h))
step-Refines s v releases r small =
    owner-Refines s v _ _ r (λ h. (release s, refl, release-Refines s v r h))
step-Refines s v drops_dropper r small = owner-Refines s v _ _ r λ h.
    let (s', q, r') = cancel-Refines s v r h in
    (release s', ground (arith, q), release-Refines s' (cancel_view v) r' (ground (arith, h)))

length-erase-le : (w : ℕ) (ps : List (ℕ × ℕ)) → length (erase w ps) ≤ length ps
length-erase-le w [] = omega arith
length-erase-le w ((v, k) ∷ ps) = ground (arith, length-erase-le w ps)

pend-step-le : (v : View) (e : Event) → length (step_view v e).pend ≤ length v.pend + 1
pend-step-le v (polls w k) =
    ground (arith, length-append v.pend ((w, k) ∷ []), length-replace w k v.pend)
pend-step-le v (drops_waiter w) = ground (arith, length-erase-le w v.pend)
pend-step-le v cancels = ground arith
pend-step-le v clones = ground arith
pend-step-le v releases = ground arith
pend-step-le v drops_dropper = ground arith

run-Refines :
    (s : World) (v : View) (es : List Event)
    → Refines s v
    → length v.pend + length es < null
    → (s' : World) × (run s es ≡ some s') × Refines s' (run_view v es)
unfolding run
run-Refines s v [] r small = (s, refl, r)
run-Refines s v (e ∷ es) r small =
    let (t, q, r') = step-Refines s v e r (omega arith) in
    let (u, q', r'') = run-Refines t (step_view v e) es r' (omega (arith, pend-step-le v e)) in
    (u, rw q q', r'')

-- Over every history of fewer than `usize::MAX` events from a new canceller: no call panics, and the
-- final state, the wakers woken included, is that of the specification.
pub run-init-Refines :
    (es : List Event)
    → length es < null
    → (s' : World) × (run init es ≡ some s') × Refines s' (run_view start es)
run-init-Refines es small = run-Refines init start es init-Refines (omega arith)
