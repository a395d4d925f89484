-- ===== src/Orchestrator/Workers.antt =====
-- monolake-core/src/orchestrator/{worker_manager,mod}.rs: `dispatch_service_command` over the worker
-- threads, and `ResultGroup::err`. A worker whose thread has ended has closed its channel.
use monolake.Base.{
  Bool, true, false, List, [], ◌∷◌, if◌then◌else◌, Result, ok, err, map_err, ◌≡◌, refl, arith,
}
use monolake.Orchestrator.Executor.{Factories, Executor, ServiceCommand, CommandError, execute}

module _ (b : Factories) where
  pub record Worker : Type 0 where
    pub open_ : Bool
    pub executor : Executor b

  -- `AnyError`, as far as `dispatch_service_command` makes one.
  pub data AnyError : Type 0 where
    command : CommandError b → AnyError
    disconnected : AnyError

  abbrev pub Reply : Type 0
  Reply = Result (Unit {0}) AnyError

  -- One task to one worker, and the wait for its result.
  pub send : Worker → ServiceCommand b → Reply × Worker
  send w cmd =
      if w.open_
      then (
        map_err command (execute b w.executor cmd).0,
        record w { executor = (execute b w.executor cmd).1 },
      )
      else (err disconnected, w)

  pub send-open :
      (w : Worker) (cmd : ServiceCommand b)
      → w.open_ ≡ true
      → send w cmd ≡ (
        map_err command (execute b w.executor cmd).0,
        record w { executor = (execute b w.executor cmd).1 },
      )
  unfolding send
  send-open w cmd h = ground (arith, h)

  pub send-closed :
      (w : Worker) (cmd : ServiceCommand b) → w.open_ ≡ false → send w cmd ≡ (err disconnected, w)
  unfolding send
  send-closed w cmd h = ground (arith, h)

  pub dispatch : List Worker → ServiceCommand b → List Reply × List Worker
  dispatch [] cmd = ([], [])
  dispatch (w ∷ ws) cmd =
      let (r, w') = send w cmd in let (rs, ws') = dispatch ws cmd in (r ∷ rs, w' ∷ ws')

  -- `ResultGroup::err`: the first error.
  abbrev pub group_err : List Reply → Reply
  group_err [] = ok tt
  group_err (ok _ ∷ rs) = group_err rs
  group_err (err e ∷ rs) = err e

  abbrev pub All : (Worker → Type 0) → List Worker → Type 0
  All P [] = Unit {0}
  All P (w ∷ ws) = P w × All P ws

  pub All-map :
      (P Q : Worker → Type 0)
      → ((w : Worker) → P w → Q w)
      → (ws : List (Worker)) → All P ws
      → All Q ws
  All-map P Q f [] h = tt
  All-map P Q f (w ∷ ws) h = (f w h.0, All-map P Q f ws h.1)

  pub dispatch-All :
      (P Q : Worker → Type 0) (cmd : ServiceCommand b)
      → ((w : Worker) → P w → Q (send w cmd).1)
      → (ws : List Worker) → All P ws
      → All Q (dispatch ws cmd).1
  unfolding dispatch
  dispatch-All P Q cmd f [] h = tt
  dispatch-All P Q cmd f (w ∷ ws) h = (f w h.0, dispatch-All P Q cmd f ws h.1)

  -- Where every reply is ok, each worker's own reply was.
  pub dispatch-All_ok :
      (P Q : Worker → Type 0) (cmd : ServiceCommand b)
      → ((w : Worker) → P w → (send w cmd).0 ≡ ok tt → Q (send w cmd).1)
      → (ws : List Worker) → All P ws
      → group_err (dispatch ws cmd).0 ≡ ok tt
      → All Q (dispatch ws cmd).1
  unfolding dispatch
  dispatch-All_ok P Q cmd f [] h e = tt
  dispatch-All_ok P Q cmd f (w ∷ ws) h e =
      (f w h.0 (ground arith), dispatch-All_ok P Q cmd f ws h.1 (ground arith))

  pub dispatch_ok :
      (P : Worker → Type 0) (cmd : ServiceCommand b)
      → ((w : Worker) → P w → (send w cmd).0 ≡ ok tt)
      → (ws : List Worker) → All P ws
      → group_err (dispatch ws cmd).0 ≡ ok tt
  unfolding dispatch
  dispatch_ok P cmd f [] h = refl
  dispatch_ok P cmd f (w ∷ ws) h = rw (f w h.0) (dispatch_ok P cmd f ws h.1)

  -- Two lists of workers, related one by one.
  abbrev pub Both : (Worker → Worker → Type 0) → List Worker → List Worker → Type 0
  Both R [] [] = Unit {0}
  Both R [] (v ∷ vs) = ⊥
  Both R (w ∷ ws) [] = ⊥
  Both R (w ∷ ws) (v ∷ vs) = R w v × Both R ws vs

  pub dispatch-Both :
      (R : Worker → Worker → Type 0) (cmd : ServiceCommand b)
      → ((w : Worker) → R w (send w cmd).1)
      → (ws : List Worker) → Both R ws (dispatch ws cmd).1
  unfolding dispatch
  dispatch-Both R cmd f [] = tt
  dispatch-Both R cmd f (w ∷ ws) = (f w, dispatch-Both R cmd f ws)

  pub Both-trans :
      (R : Worker → Worker → Type 0)
      → ((u v w : Worker) → R u v → R v w → R u w)
      → (us vs ws : List Worker) → Both R us vs
      → Both R vs ws
      → Both R us ws
  Both-trans R t [] [] ws p q = q
  Both-trans R t [] (v ∷ vs) ws p q = absurd p
  Both-trans R t (u ∷ us) [] ws p q = absurd p
  Both-trans R t (u ∷ us) (v ∷ vs) [] p q = absurd q
  Both-trans R t (u ∷ us) (v ∷ vs) (w ∷ ws) p q = (t u v w p.0 q.0, Both-trans R t us vs ws p.1 q.1)

  pub Both-refl :
      (R : Worker → Worker → Type 0) → ((w : Worker) → R w w) → (ws : List Worker) → Both R ws ws
  Both-refl R r [] = tt
  Both-refl R r (w ∷ ws) = (r w, Both-refl R r ws)

  -- What a relation carries over from the first list to the second.
  pub Both-All :
      (R : Worker → Worker → Type 0) (P Q : Worker → Type 0)
      → ((w v : Worker) → R w v → P w → Q v)
      → (ws vs : List Worker) → Both R ws vs
      → All P ws
      → All Q vs
  Both-All R P Q f [] [] r h = tt
  Both-All R P Q f [] (v ∷ vs) r h = absurd r
  Both-All R P Q f (w ∷ ws) [] r h = absurd r
  Both-All R P Q f (w ∷ ws) (v ∷ vs) r h = (f w v r.0 h.0, Both-All R P Q f ws vs r.1 h.1)
