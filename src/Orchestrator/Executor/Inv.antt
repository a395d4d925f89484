-- ===== src/Orchestrator/Executor/Inv.antt =====
-- What holds of an executor at all times: sites, slots, servers and stop channels belong together.
use Prim.Native.String.{String}
use text.Mathlib.TextEquality.{eq_iff}
use monolake.Base.{
  ℕ, ◌+◌, ◌≤◌, ◌<◌, Bool, true, false, ◌&&◌, ◌||◌, not, List, [], ◌∷◌, ◌++◌, none, some, length, ok,
  ◌≡◌, refl, arith, Option-cases, Bool-cases, Result-cases, inl, inr, ◌==◌, length-append,
  length-set, ap,
}
use monolake.Orchestrator.Executor.{
  Factories, Executor, Server, ServiceCommand, precommit, update, commit, prepare_and_commit, abort,
  remove, init, committed_of, staged_of, precommit_svc, update_with_precommitted_svc,
  deploy_staged_service, remove_site, execute, deploy_and_serve, spawn_serve, put_site, stop, run,
}
use monolake.Orchestrator.Executor.Views.{
  SameDeployed, precommit_svc-SameDeployed, precommit-SameDeployed, abort-SameDeployed,
}

abbrev pub has : ℕ → List ℕ → Bool
has k [] = false
has k (j ∷ js) = j == k || has k js

module _ (b : Factories) where
  abbrev pub serving : ℕ → List (Server b) → Bool
  serving k [] = false
  serving k (v ∷ vs) = v.slot == k || serving k vs

  -- A server that was spawned on slot `k` and has not been told to stop.
  abbrev pub is_active : Executor b → ℕ → Bool
  is_active s k = serving k s.servers && not (has k s.stopped)

  pub record IsCoherent (s : Executor b) : Type 0 where
    pub in_store : (n : String) (k : ℕ) → committed_of b s n ≡ some k → k < length s.slots
    pub distinct :
        (n m : String) (k : ℕ) → committed_of b s n ≡ some k → committed_of b s m ≡ some k → n ≡ m
    pub served : (n : String) (k : ℕ) → committed_of b s n ≡ some k → is_active s k ≡ true
    pub owned : (k : ℕ) → is_active s k ≡ true → (n : String) × (committed_of b s n ≡ some k)
    pub unused :
        (k : ℕ) → length s.slots ≤ k → (serving k s.servers ≡ false) × (has k s.stopped ≡ false)

  pub init-IsCoherent : IsCoherent (init b)
  unfolding init
  init-IsCoherent = record {
    in_store = λ n k e. cc;
    distinct = λ n m k e. cc;
    served = λ n k e. cc;
    owned = λ k e. cc;
    unused = λ k h. (refl, refl);
  }

  -- Only the deployments matter, and of the store only its length.
  same-IsCoherent :
      (s t : Executor b)
      → ((n : String) → committed_of b t n ≡ committed_of b s n)
      → length t.slots ≡ length s.slots
      → t.servers ≡ s.servers
      → t.stopped ≡ s.stopped
      → IsCoherent s
      → IsCoherent t
  same-IsCoherent s t c l v p w = record {
    in_store = λ n k e. ground (arith, w.in_store n k, c n, e, l);
    distinct = λ n m k e f. w.distinct n m k (ground (arith, c n, e)) (ground (arith, c m, f));
    served = λ n k e. ground (arith, w.served n k, c n, e, v, p);
    owned = λ k h. let (n, e) = w.owned k (ground (arith, v, p, h)) in (n, ground (arith, c n, e));
    unused = λ k h. ground (arith, w.unused k, l, v, p);
  }

  length-update :
      (s : Executor b) (name : String) → length (execute b s (update name)).1.slots ≡ length s.slots
  unfolding execute update_with_precommitted_svc
  length-update s name = elim (Option-cases (committed_of b s name)) [
    | inl idle ↦ ground (arith, idle)
    | inr (slot, e) ↦ elim (Option-cases (staged_of b s name)) [
      | inl empty ↦ ground (arith, e, empty)
      | inr (svc, f) ↦ ground (arith, e, f, length-set s.slots slot svc)
    ]
  ]

  update-IsCoherent :
      (s : Executor b) (name : String) → IsCoherent s → IsCoherent (execute b s (update name)).1
  unfolding execute update_with_precommitted_svc
  update-IsCoherent s name w =
      same-IsCoherent s _ (λ n. ground (arith, eq_iff name n)) (length-update s name) (ground arith)
        (ground arith) w

  remove-IsCoherent :
      (s : Executor b) (name : String) → IsCoherent s → IsCoherent (execute b s (remove name)).1
  unfolding execute remove_site
  remove-IsCoherent s name w = record {
    in_store = λ n k e. ground (arith, w.in_store n k, e, eq_iff name n);
    distinct = λ n m k e f. ground (arith, w.distinct n m k, e, f, eq_iff name n, eq_iff name m);
    served = λ n k e. ground (arith, w.served n k, w.distinct name n k, e, eq_iff name n);
    owned = λ k h.
        let (n, e) = w.owned k (ground (arith, h)) in (n, ground (arith, e, h, eq_iff name n));
    unused = λ k h. elim (Option-cases (committed_of b s name)) [
      | inl idle ↦ ground (arith, w.unused k, idle, h)
      | inr (slot, e) ↦ ground (arith, w.unused k, w.in_store name slot e, e, h)
    ];
  }

  -- The state after a deployment.
  unfoldable pub deployed : Executor b → String → b.S → b.L → Executor b
  deployed s name svc l = record {
    sites =
        put_site b s.sites name
          (some (record { committed = some (length s.slots); precommitted = none }));
    slots = s.slots ++ svc ∷ [];
    servers = record { listener = l; slot = length s.slots } ∷ s.servers;
    stopped = stop b (committed_of b s name) s.stopped;
  }

  deployed-IsCoherent :
      (s : Executor b) (name : String) (svc : b.S) (l : b.L)
      → IsCoherent s
      → IsCoherent (deployed s name svc l)
  unfolding deployed
  deployed-IsCoherent s name svc l w = record {
    in_store = λ n k e. ground (arith, grown, w.in_store n k, e, eq_iff name n);
    distinct = λ n m k e f. ground (
      arith,
      w.distinct n m k,
      w.in_store n k,
      w.in_store m k,
      e,
      f,
      eq_iff name n,
      eq_iff name m,
    );
    served = λ n k e. elim (Option-cases (committed_of b s name)) [
      | inl idle ↦ ground (arith, w.served n k, w.unused k, idle, e, eq_iff name n)
      | inr (slot, q) ↦ ground (
        arith,
        w.served n k,
        w.unused k,
        w.in_store name slot q,
        w.distinct name n k,
        q,
        e,
        eq_iff name n,
      )
    ];
    owned = λ k h. elim (Bool-cases (length s.slots == k)) [
      | inl new ↦ (name, ground (arith, new, eq_iff name name))
      | inr old ↦ let (n, e) = w.owned k (still k old h) in (n, ground (arith, e, h, eq_iff name n))
    ];
    unused = λ k h. elim (Option-cases (committed_of b s name)) [
      | inl idle ↦ ground (arith, grown, w.unused k, idle, h)
      | inr (slot, e) ↦ ground (arith, grown, w.unused k, w.in_store name slot e, e, h)
    ];
  }
    where
      grown : length (s.slots ++ svc ∷ []) ≡ length s.slots + 1
      grown = length-append s.slots (svc ∷ [])

      still :
          (k : ℕ)
          → (length s.slots == k) ≡ false
          → is_active (deployed s name svc l) k ≡ true
          → is_active s k ≡ true
      still k old h = elim (Option-cases (committed_of b s name)) [
        | inl idle ↦ ground (arith, idle, old, h)
        | inr (slot, q) ↦ ground (arith, q, old, h)
      ]

  pub deploy-eq :
      (s : Executor b) (name : String) (svc : b.S) (l : b.L)
      → staged_of b s name ≡ some svc
      → deploy_and_serve b s name l ≡ (ok tt, deployed s name svc l)
  unfolding deploy_and_serve deploy_staged_service spawn_serve deployed
  deploy-eq s name svc l e = ground (arith, e)

  deploy-err :
      (s : Executor b) (name : String) (l : b.L)
      → staged_of b s name ≡ none
      → (deploy_and_serve b s name l).1 ≡ s
  unfolding deploy_and_serve deploy_staged_service
  deploy-err s name l e = ground (arith, e)

  deploy-IsCoherent :
      (s : Executor b) (name : String) (l : b.L)
      → IsCoherent s
      → IsCoherent (deploy_and_serve b s name l).1
  deploy-IsCoherent s name l w = elim (Option-cases (staged_of b s name)) [
    | inl empty ↦ rw (deploy-err s name l empty) w
    | inr (svc, e) ↦ rw (deploy-eq s name svc l e) (deployed-IsCoherent s name svc l w)
  ]

  pub staged-IsCoherent : (s t : Executor b) → SameDeployed b s t → IsCoherent s → IsCoherent t
  staged-IsCoherent s t d w =
      same-IsCoherent s t d.committed (ap length d.slots) d.servers d.stopped w

  -- Every command, whatever its result, leaves a coherent executor coherent: each deployed site has a
  -- slot of its own, with a server on it that was not told to stop, and there is no other such server.
  pub execute-IsCoherent :
      (s : Executor b) (cmd : ServiceCommand b) → IsCoherent s → IsCoherent (execute b s cmd).1
  unfolding execute
  execute-IsCoherent s (precommit name f) w =
      staged-IsCoherent s _ (precommit-SameDeployed b s name f) w
  execute-IsCoherent s (update name) w = update-IsCoherent s name w
  execute-IsCoherent s (commit name lf) w = elim (Result-cases (b.make_listener lf)) [
    | inl (l, e) ↦ rw (e, execute) (deploy-IsCoherent s name l w)
    | inr (x, e) ↦ rw (e, execute) w
  ]
  execute-IsCoherent s (prepare_and_commit name f lf) w =
      elim (Result-cases (b.make_via_ref f none)) [
        | inr (x, e) ↦ rw (e, execute) w
        | inl (svc, e) ↦ elim (Result-cases (b.make_listener lf)) [
          | inr (x, q) ↦ rw (e, execute) (rw (q, execute) w)
          | inl (l, q) ↦
              rw (e, execute)
                (rw (q, execute)
                  (deploy-IsCoherent (precommit_svc b s name svc) name l
                    (staged-IsCoherent s _ (precommit_svc-SameDeployed b s name svc) w)))
        ]
      ]
  execute-IsCoherent s (abort name) w = staged-IsCoherent s _ (abort-SameDeployed b s name) w
  execute-IsCoherent s (remove name) w = remove-IsCoherent s name w

  -- After any sequence of commands, whatever their results, an executor that was coherent is coherent.
  pub run-IsCoherent :
      (s : Executor b) (cmds : List (ServiceCommand b)) → IsCoherent s → IsCoherent (run b s cmds).1
  unfolding run
  run-IsCoherent s [] w = w
  run-IsCoherent s (cmd ∷ cmds) w =
      run-IsCoherent (execute b s cmd).1 cmds (execute-IsCoherent s cmd w)
