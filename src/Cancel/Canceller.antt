-- ===== src/Cancel/Canceller.antt =====
-- monolake-services/src/common/cancel/mod.rs: a canceller, its waiters, and the handler they share.
-- A waiter and a waker are numbers; a waiter that was never polled, or was dropped, has no index.
-- `none` as a result is a panic.
pub mod Spec
pub mod Tracks
pub mod Live
pub mod Refines
pub mod Runs
use monolake.Base.{
  ℕ, suc, ◌+◌, ◌-◌, Bool, true, false, not, List, [], ◌∷◌, ◌++◌, Option, none, some, ◌==◌,
  if◌then◌else◌, length,
}
use monolake.Base.Panic.{◌>>=◌}
use monolake.Cancel.LinkedList.{LinkedList, new, put, push_back, remove, into_iter, collect}

-- The shared handler and what its owners hold: the strong count of the `Rc`, the two fields of
-- `CancelHandler`, the `index` cell of each `Waiter`, and the wakers woken so far.
pub record World : Type 0 where
  pub strong : ℕ
  pub cancelled : Bool
  pub waiters : LinkedList ℕ
  pub index : ℕ → Option ℕ
  pub woken : List ℕ

pub data Poll : Type 0 where
  ready pending : Poll

abbrev pub put_index : (ℕ → Option ℕ) → ℕ → Option ℕ → ℕ → Option ℕ
put_index f w i v = if w == v then i else f v

-- `Canceller::new`.
pub init : World
init = record { strong = 1; cancelled = false; waiters = new; index = λ _. none; woken = [] }

-- `Canceller::cancel`.
pub cancel : World → Option World
cancel s = if s.cancelled then some s else wake_all
  where
    wake_all : Option World
    wake_all = do
      wakers ← collect (suc (length (s.waiters).nodes)) (into_iter s.waiters)
      some (record s { cancelled = true; waiters = new; woken = s.woken ++ wakers })

-- `Canceller::clone`, and the drop of a canceller: the last one frees the handler.
pub clone : World → World
clone s = record s { strong = s.strong + 1 }

pub release : World → World
release s =
    if s.strong == 1
    then record s { strong = 0; waiters = new }
    else record s { strong = s.strong - 1 }

-- The drop of a `CancellerDropper`.
pub drop_dropper : World → Option World
drop_dropper s = do s' ← cancel s; some (release s')

-- `Waiter::cancelled`; with no canceller left `upgrade` fails.
pub is_cancelled : World → Bool
is_cancelled s = if s.strong == 0 then true else s.cancelled

-- `Waiter::poll`: the waiter `w` is polled with `waker`.
pub poll : World → ℕ → ℕ → Option (Poll × World)
poll s w waker =
    if s.strong == 0 then some (ready, s) else if s.cancelled then some (ready, s) else register
  where
    register : Option (Poll × World)
    register = elim (s.index w) [
      | some idx ↦ put s.waiters idx waker >>= λ l. some (pending, record s { waiters = l })
      | none ↦ push_back s.waiters waker >>= λ r.
          some (pending, record s { waiters = r.1; index = put_index s.index w (some r.0) })
    ]

-- The drop of a `Waiter`.
pub drop_waiter : World → ℕ → Option World
drop_waiter s w = elim (s.index w) [
  | none ↦ some s
  | some idx ↦
      if s.strong == 0
      then some gone
      else if s.cancelled
      then some gone
      else (remove s.waiters idx >>= λ r. some (record gone { waiters = r.1 }))
]
  where
    gone : World
    gone = record s { index = put_index s.index w none }

-- What the program does to a canceller and its waiters.
pub data Event : Type 0 where
  polls : (w waker : ℕ) → Event
  drops_waiter : (w : ℕ) → Event
  cancels clones releases drops_dropper : Event

-- With no canceller left there is nothing to call `cancel`, `clone` or `drop` on.
abbrev pub owner : World → Option World → Option World
owner s t = if s.strong == 0 then some s else t

pub step : World → Event → Option World
step s (polls w waker) = poll s w waker >>= λ r. some r.1
step s (drops_waiter w) = drop_waiter s w
step s cancels = owner s (cancel s)
step s clones = owner s (some (clone s))
step s releases = owner s (some (release s))
step s drops_dropper = owner s (drop_dropper s)

pub run : World → List Event → Option World
run s [] = some s
run s (e ∷ es) = step s e >>= λ t. run t es
