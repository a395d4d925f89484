-- ===== src/Cancel/Canceller/Spec.antt =====
-- What a canceller promises: the waiters that pend, each once and in the order of their first poll,
-- with the waker of their last one. There is no list in a vector here, and nothing that panics.
use monolake.Base.{
  ℕ, ◌+◌, ◌-◌, Bool, true, false, ◌||◌, List, [], ◌∷◌, ◌++◌, none, some, ◌==◌, if◌then◌else◌,
}
use monolake.Cancel.LinkedList.Represents.{lookup, erase}
use monolake.Cancel.LinkedList.Write.{replace}
use monolake.Cancel.LinkedList.Iter.{values}
use monolake.Cancel.Canceller.{
  Poll, ready, pending, Event, polls, drops_waiter, cancels, clones, releases, drops_dropper,
}

pub record View : Type 0 where
  pub strong : ℕ
  pub cancelled : Bool
  pub pend : List (ℕ × ℕ)
  pub woken : List ℕ

abbrev pub start : View
start = record { strong = 1; cancelled = false; pend = []; woken = [] }

-- Nothing pends any more.
abbrev pub is_over : View → Bool
is_over v = v.strong == 0 || v.cancelled

abbrev pub upsert : ℕ → ℕ → List (ℕ × ℕ) → List (ℕ × ℕ)
upsert w k ps = elim (lookup w ps) [ none ↦ ps ++ (w, k) ∷ [] | some _ ↦ replace w k ps ]

abbrev pub cancel_view : View → View
cancel_view v =
    if v.cancelled
    then v
    else record v { cancelled = true; pend = []; woken = v.woken ++ values v.pend }

abbrev pub release_view : View → View
release_view v =
    if v.strong == 1 then record v { strong = 0; pend = [] } else record v { strong = v.strong - 1 }

abbrev pub poll_view : View → ℕ → ℕ → Poll × View
poll_view v w k = if is_over v then (ready, v) else (pending, record v { pend = upsert w k v.pend })

abbrev pub owner_view : View → View → View
owner_view v t = if v.strong == 0 then v else t

abbrev pub step_view : View → Event → View
step_view v (polls w k) = (poll_view v w k).1
step_view v (drops_waiter w) = if is_over v then v else record v { pend = erase w v.pend }
step_view v cancels = owner_view v (cancel_view v)
step_view v clones = owner_view v (record v { strong = v.strong + 1 })
step_view v releases = owner_view v (release_view v)
step_view v drops_dropper = owner_view v (release_view (cancel_view v))

abbrev pub run_view : View → List Event → View
run_view v [] = v
run_view v (e ∷ es) = run_view (step_view v e) es
