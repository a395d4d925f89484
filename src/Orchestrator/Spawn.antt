-- ===== src/Orchestrator/Spawn.antt =====
-- monolake-core/src/orchestrator/worker_manager.rs: `spawn_workers_inner`, as far as it makes the list
-- of workers and chooses their cores. Whether the system starts a thread is a parameter; `none` is the
-- panic when it does not. A core that cannot be bound changes nothing.
use monolake.Base.{
  ℕ, zero, suc, ◌+◌, ◌%◌, Bool, true, List, [], ◌∷◌, ◌++◌, Option, none, some, if◌then◌else◌,
  length, length-append, ◌≡◌, refl, arith,
}
use monolake.Base.Panic.{◌>>=◌}
use monolake.Orchestrator.Executor.{Factories, init}
use monolake.Orchestrator.Workers.{Worker, All}
use monolake.Orchestrator.Runtime.{RuntimeConfig}

abbrev pub cores_of : Bool → Option ℕ → Option ℕ
cores_of cpu_affinity parallelism = if cpu_affinity then parallelism else none

abbrev pub core_of : Option ℕ → ℕ → Option ℕ
core_of none worker_id = none
core_of (some cores) worker_id = some (worker_id % cores)

module _ (b : Factories) (starts : ℕ → Bool) where
  -- A worker whose executor is the default one.
  abbrev pub fresh : Worker b
  fresh = record { open_ = true; executor = init b }

  -- The loop over the numbers of the workers, with the cores that they are bound to.
  pub spawn_loop : Option ℕ → ℕ → ℕ → List (Worker b) → Option (List (Option ℕ) × List (Worker b))
  spawn_loop cores zero worker_id workers = some ([], workers)
  spawn_loop cores (suc n) worker_id workers =
      let rest = spawn_loop cores n (suc worker_id) (workers ++ fresh ∷ []) in
      if starts worker_id then (rest >>= λ p. some (core_of cores worker_id ∷ p.0, p.1)) else none

  pub spawn_workers_inner :
      RuntimeConfig → Option ℕ → List (Worker b) → Option (List (Option ℕ) × List (Worker b))
  spawn_workers_inner config parallelism workers =
      spawn_loop (cores_of config.cpu_affinity parallelism) config.worker_threads 0 workers

  All-append :
      (P : Worker b → Type 0) (ws : List (Worker b)) (w : Worker b)
      → All b P ws
      → P w
      → All b P (ws ++ w ∷ [])
  All-append P [] w h p = (p, tt)
  All-append P (v ∷ ws) w h p = (h.0, All-append P ws w h.1 p)

  -- If every thread can be started, the loop adds as many workers as it has turns, and what holds of the
  -- old workers and of a fresh one holds of all of them.
  pub spawn_loop-All :
      (P : Worker b → Type 0) (cores : Option ℕ) (n worker_id : ℕ) (ws : List (Worker b))
      → ((i : ℕ) → starts i ≡ true)
      → P fresh
      → All b P ws
      → (out : List (Option ℕ) × List (Worker b)) × (spawn_loop cores n worker_id ws ≡ some out)
        × (length out.1 ≡ length ws + n)
        × All b P out.1
  unfolding spawn_loop
  spawn_loop-All P cores zero worker_id ws s p h = (([], ws), refl, omega arith, h)
  spawn_loop-All P cores (suc n) worker_id ws s p h =
      let ((bound, out), e, l, a) =
        spawn_loop-All P cores n (suc worker_id) (ws ++ fresh ∷ []) s p
          (All-append P ws fresh h p) in
      (
        (core_of cores worker_id ∷ bound, out),
        rw (s worker_id, e) refl,
        omega (arith, l, length-append ws (fresh ∷ [])),
        a,
      )
