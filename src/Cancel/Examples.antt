-- ===== src/Cancel/Examples.antt =====
-- The list and the canceller at concrete values.
use monolake.Base.{ℕ, zero, suc, List, [], ◌∷◌, ◌++◌, some, ◌≡◌, refl, arith}
use monolake.Cancel.LinkedList.{LinkedList, null, push_back, remove, into_iter, collect}
use monolake.Cancel.LinkedList.Segment.{Avoids}
use monolake.Cancel.LinkedList.Represents.{Represents, slots, read, lookup}
use monolake.Cancel.LinkedList.Push.{push_back_lem}
use monolake.Cancel.LinkedList.Remove.{remove_lem}
use monolake.Cancel.LinkedList.Iter.{collect-into_iter}
use monolake.Cancel.Canceller.{World, init, run, Event, polls, drops_waiter, cancels}
use monolake.Cancel.Canceller.Spec.{start, run_view}
use monolake.Cancel.Canceller.Refines.{Refines}
use monolake.Cancel.Canceller.Runs.{run-init-Refines}

-- Two nodes, of slots 0 and 1.
abbrev two : LinkedList ℕ
two = record {
  head = 0;
  tail = 1;
  vacancy_head = null;
  nodes =
      record { prev = null; next = 1; datum = some 7 }
      ∷ record { prev = 0; next = null; datum = some 8 }
      ∷ [];
}

abbrev entries : List (ℕ × ℕ)
entries = (0, 7) ∷ (1, 8) ∷ []

two-reads : (i : ℕ) → read (slots two) i ≡ lookup i entries
two-reads zero = refl
two-reads (suc zero) = refl
two-reads (suc (suc i)) = ground arith

two-Represents : Represents two entries []
two-Represents = record {
  chain = (1, refl, refl, (null, refl, refl, (refl, refl, tt)));
  distinct = ((omega arith, tt), (tt, tt));
  free = (refl, tt);
  apart = tt;
  reset = λ none_there. cc;
  reads = two-reads;
  filled = refl;
  fits = omega arith;
}

push_back_lem_example :
    (idx : ℕ) × (l' : LinkedList ℕ) × (vs' : List ℕ) × (push_back two 9 ≡ some (idx, l'))
    × Avoids idx entries
    × Represents l' (entries ++ (idx, 9) ∷ []) vs'
push_back_lem_example = push_back_lem two 9 entries [] two-Represents (omega arith)

remove_lem_example :
    (l' : LinkedList ℕ) × (vs' : List ℕ) × (remove two 0 ≡ some (some 7, l'))
    × Represents l' ((1, 8) ∷ []) vs'
remove_lem_example = remove_lem two 0 entries [] two-Represents

collect-into_iter_example : collect 3 (into_iter two) ≡ some (7 ∷ 8 ∷ [])
collect-into_iter_example = collect-into_iter two entries [] 3 two-Represents (omega arith)

-- Two waiters, of which one is dropped before the canceller cancels.
abbrev history : List Event
history = polls 1 10 ∷ polls 2 20 ∷ polls 1 11 ∷ drops_waiter 2 ∷ cancels ∷ []

run-init-Refines_example :
    (s' : World) × (run init history ≡ some s') × Refines s' (run_view start history)
run-init-Refines_example = run-init-Refines history (omega arith)
