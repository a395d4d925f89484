-- ===== src/Orchestrator/Executor/Views.antt =====
-- What the commands do to the sites, as seen through `committed_of`, `staged_of` and `get_svc`.
use Prim.Native.String.{String}
use text.Mathlib.Text.{◌==◌ as str_eq}
use text.Mathlib.TextEquality.{eq_iff}
use monolake.Base.{true, none, some, if◌then◌else◌, ok, err, ◌≡◌, refl, arith, is_some}
use monolake.Orchestrator.Executor.{
  Factories, init, Executor, ServiceCommand, precommit, update, commit, prepare_and_commit, abort,
  remove, committed_of, staged_of, precommit_svc, deploy_staged_service, abort_site, execute,
  deploy_and_serve, CommandError,
}

module _ (b : Factories) where
  open b use {S, L, F, LF, make_via_ref, make_listener}

  -- A command that fails changes nothing: neither the sites, nor the slots, nor the servers, nor what was
  -- told to stop.
  pub execute_err :
      (s : Executor b) (cmd : ServiceCommand b) (e : CommandError b)
      → (execute b s cmd).0 ≡ err e
      → (execute b s cmd).1 ≡ s
  unfolding execute deploy_and_serve deploy_staged_service precommit_svc
  execute_err s (precommit name f) e h = ground arith
  execute_err s (update name) e h = ground arith
  execute_err s (commit name lf) e h = ground arith
  execute_err s (prepare_and_commit name f lf) e h = ground (arith, eq_iff name name)
  execute_err s (abort name) e h = ground arith
  execute_err s (remove name) e h = ground arith

  -- Two states with the same deployments.
  pub record SameDeployed (s t : Executor b) : Type 0 where
    pub committed : (name : String) → committed_of b t name ≡ committed_of b s name
    pub slots : t.slots ≡ s.slots
    pub servers : t.servers ≡ s.servers
    pub stopped : t.stopped ≡ s.stopped

  pub precommit_svc-SameDeployed :
      (s : Executor b) (name : String) (svc : S) → SameDeployed s (precommit_svc b s name svc)
  unfolding precommit_svc
  precommit_svc-SameDeployed s name svc = record {
    committed = λ n. ground (arith, eq_iff name n);
    slots = refl;
    servers = refl;
    stopped = refl;
  }

  pub staged_of-precommit_svc :
      (s : Executor b) (name : String) (svc : S) (n : String)
      → staged_of b (precommit_svc b s name svc) n
        ≡ (if str_eq name n then some svc else staged_of b s n)
  unfolding precommit_svc
  staged_of-precommit_svc s name svc n = ground (arith, eq_iff name n)

  pub precommit-SameDeployed :
      (s : Executor b) (name : String) (f : F) → SameDeployed s (execute b s (precommit name f)).1
  unfolding execute precommit_svc
  precommit-SameDeployed s name f = record {
    committed = λ n. ground (arith, eq_iff name n);
    slots = ground arith;
    servers = ground arith;
    stopped = ground arith;
  }

  pub abort-SameDeployed :
      (s : Executor b) (name : String) → SameDeployed s (execute b s (abort name)).1
  unfolding execute abort_site
  abort-SameDeployed s name = record {
    committed = λ n. ground (arith, eq_iff name n);
    slots = ground arith;
    servers = ground arith;
    stopped = ground arith;
  }

  -- `Abort` empties the staged slot of its site only.
  pub staged_of-abort :
      (s : Executor b) (name n : String)
      → staged_of b (execute b s (abort name)).1 n
        ≡ (if str_eq name n then none else staged_of b s n)
  unfolding execute abort_site
  staged_of-abort s name n = ground (arith, eq_iff name n)

  -- `Precommit` stages for its own site at most, and does so if it succeeds.
  pub staged_of-precommit :
      (s : Executor b) (name : String) (f : F) (n : String)
      → is_some (staged_of b (execute b s (precommit name f)).1 n) ≡ true
      → (if str_eq name n then true else is_some (staged_of b s n)) ≡ true
  unfolding execute precommit_svc
  staged_of-precommit s name f n h = ground (arith, eq_iff name n)

  pub staged_of-precommit_ok :
      (s : Executor b) (name : String) (f : F) (n : String)
      → (execute b s (precommit name f)).0 ≡ ok tt
      → is_some (staged_of b (execute b s (precommit name f)).1 n)
        ≡ (if str_eq name n then true else is_some (staged_of b s n))
  unfolding execute precommit_svc
  staged_of-precommit_ok s name f n h = ground (arith, eq_iff name n)

  -- At the start there is neither a deployment nor a staged service.
  pub committed_of-init : (name : String) → committed_of b (init b) name ≡ none
  unfolding init
  committed_of-init name = refl

  pub staged_of-init : (name : String) → staged_of b (init b) name ≡ none
  unfolding init
  staged_of-init name = refl
