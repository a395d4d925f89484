-- ===== src/ConfigManager/Services.antt =====
-- Which services the sites serve with: those that the factories of a configuration have made.
use Prim.Native.String.{String}
use text.Mathlib.Text.{◌==◌ as str_eq}
use text.Mathlib.TextEquality.{eq_iff}
use mathlib.Core.Path.{subst}
use monolake.Base.{
  true, false, List, [], ◌∷◌, Option, none, some, if◌then◌else◌, ok, ◌≡◌, refl, sym, ◌∙◌, arith,
  some-inj, Bool-cases, Option-cases, inl, inr,
}
use monolake.Orchestrator.Executor.{
  Factories, Executor, ServiceCommand, precommit, execute, staged_of, get_svc,
}
use monolake.Orchestrator.Executor.Stages.{staged-precommit, get_svc-same, Removes}
use monolake.Orchestrator.Workers.{
  Worker, All, send, send-open, send-closed, dispatch, dispatch-All,
}
use monolake.ConfigManager.{
  Providers, ServiceConfigMap, Patch, insert, update_server, delete, find, contains,
  prepare_command, prepare, try_cases,
}
use monolake.ConfigManager.Diff.{Fits, AllFit}

module _ (b : Factories) (p : Providers b) where
  open p use {ServerConfig, ListenerConfig, server_factory}

  -- A service that the factory of a server's configuration has made.
  abbrev pub Built : ServerConfig → b.S → Type 0
  Built server svc = (old : Option b.S) × (b.make_via_ref (server_factory server) old ≡ ok svc)

  -- A site serves with a service made of the configuration that `m` has for it.
  abbrev pub Serves : ServiceConfigMap b p → Executor b → String → Type 0
  Serves m s n =
      (c : ListenerConfig × ServerConfig)
      → find b p n m ≡ some c
      → (svc : b.S) × (get_svc b s n ≡ some svc) × Built c.1 svc

  -- What is staged has been made of the configuration in `new`.
  abbrev pub StagedBuilt : ServiceConfigMap b p → Executor b → Type 0
  StagedBuilt new s =
      (n : String) (svc : b.S)
      → staged_of b s n ≡ some svc
      → (c : ListenerConfig × ServerConfig) × (find b p n new ≡ some c) × Built c.1 svc

  pub find-contains :
      (n : String) (m : ServiceConfigMap b p) (c : ListenerConfig × ServerConfig)
      → find b p n m ≡ some c
      → contains b p n m ≡ true
  find-contains n [] c e = cc
  find-contains n ((name, listener, server) ∷ m) c e = elim (Bool-cases (str_eq name n)) [
    | inl hit ↦ rw hit refl
    | inr miss ↦ rw miss (find-contains n m c (ground (arith, e, miss)))
  ]

  -- A precommit stages a service of its own configuration, or nothing.
  precommit-StagedBuilt :
      (new : ServiceConfigMap b p) (key : String) (c : ListenerConfig × ServerConfig)
      (s : Executor b)
      → find b p key new ≡ some c
      → StagedBuilt new s
      → StagedBuilt new (execute b s (precommit key (server_factory c.1))).1
  precommit-StagedBuilt new key c s f h n svc q =
      elim (staged-precommit b s key (server_factory c.1) n svc q) [
        | inr before ↦ h n svc before
        | inl (hit, made) ↦
            (c, subst (λ k. find b p k new ≡ some c) (ground (arith, hit, eq_iff key n)) f, made)
      ]

  send-StagedBuilt :
      (new : ServiceConfigMap b p) (key : String) (c : ListenerConfig × ServerConfig) (w : Worker b)
      → find b p key new ≡ some c
      → StagedBuilt new w.executor
      → StagedBuilt new (send b w (precommit key (server_factory c.1))).1.executor
  send-StagedBuilt new key c w f h = elim (Bool-cases w.open_) [
    | inl live ↦
        subst (λ r. StagedBuilt new r.1.executor)
          (sym (send-open b w (precommit key (server_factory c.1)) live))
          (precommit-StagedBuilt new key c w.executor f h)
    | inr closed ↦
        subst (λ r. StagedBuilt new r.1.executor)
          (sym (send-closed b w (precommit key (server_factory c.1)) closed)) h
  ]

  prepare_command-StagedBuilt :
      (old new : ServiceConfigMap b p) (patch : Patch b p) (cmd : ServiceCommand b)
      → Fits b p old new patch
      → prepare_command b p patch ≡ some cmd
      → (w : Worker b) → StagedBuilt new w.executor
      → StagedBuilt new (send b w cmd).1.executor
  prepare_command-StagedBuilt old new (insert key listener server) cmd f e w h =
      subst (λ c. StagedBuilt new (send b w c).1.executor) (some-inj e)
        (send-StagedBuilt new key (listener, server) w f.2 h)
  prepare_command-StagedBuilt old new (update_server key server) cmd f e w h =
      let (listener, q) = f.2 in
      subst (λ c. StagedBuilt new (send b w c).1.executor) (some-inj e)
        (send-StagedBuilt new key (listener, server) w q h)
  prepare_command-StagedBuilt old new (delete key) cmd f e w h = cc

  -- Whatever the prepare stage stages, whether it succeeds or not, is made of the new configuration.
  pub prepare-StagedBuilt :
      (old new : ServiceConfigMap b p) (ws : List (Worker b)) (patches : List (Patch b p))
      → AllFit b p old new patches
      → All b (λ w. StagedBuilt new w.executor) ws
      → All b (λ w. StagedBuilt new w.executor) (prepare b p ws patches).1
  unfolding prepare
  prepare-StagedBuilt old new ws [] f h = h
  prepare-StagedBuilt old new ws (patch ∷ patches) f h =
      elim (Option-cases (prepare_command b p patch)) [
        | inl skip ↦ rw (skip, prepare) (prepare-StagedBuilt old new ws patches f.1 h)
        | inr (cmd, e) ↦
            let once =
              dispatch-All b (λ w. StagedBuilt new w.executor) (λ w. StagedBuilt new w.executor) cmd
                (prepare_command-StagedBuilt old new patch cmd f.0 e) ws h in
            rw (e, prepare)
              (try_cases b p (λ r. All b (λ w. StagedBuilt new w.executor) r.1) ws cmd
                (λ ws'. prepare b p ws' patches)
                (λ _. prepare-StagedBuilt old new (dispatch b ws cmd).1 patches f.1 once)
                (λ _. once))
      ]

  -- A site whose service becomes the one that was staged for it, of two configurations the same.
  pub staged-Serves :
      (new : ServiceConfigMap b p) (s t : Executor b) (key : String) (svc : b.S)
      → StagedBuilt new s
      → staged_of b s key ≡ some svc
      → get_svc b t key ≡ some svc
      → Serves new t key
  staged-Serves new s t key svc h e q c f =
      let (c', f', made) = h key svc e in
      let same : c' ≡ c = some-inj (sym f' ∙ f) in (svc, q, subst (λ c. Built c.1 svc) same made)

  -- A step that leaves the other sites' services, and takes the staged one of `key`.
  pub moved-Serves :
      (new : ServiceConfigMap b p) (s t : Executor b) (key : String) (svc : b.S)
      → StagedBuilt new s
      → staged_of b s key ≡ some svc
      → ((n : String) → get_svc b t n ≡ (if str_eq key n then some svc else get_svc b s n))
      → (n : String) → (str_eq key n ≡ false → Serves new s n)
      → Serves new t n
  moved-Serves new s t key svc h e g n others = elim (Bool-cases (str_eq key n)) [
    | inl hit ↦
        subst (Serves new t) (ground (arith, hit, eq_iff key n))
          (staged-Serves new s t key svc h e (ground (arith, g key, eq_iff key key)))
    | inr miss ↦
        λ c f. let (v, q, made) = others miss c f in (v, ground (arith, q, g n, miss), made)
  ]

  -- A step that unstages `key` and stages nothing.
  pub unstaged-StagedBuilt :
      (new : ServiceConfigMap b p) (s t : Executor b) (key : String)
      → StagedBuilt new s
      → ((n : String) → staged_of b t n ≡ (if str_eq key n then none else staged_of b s n))
      → StagedBuilt new t
  unstaged-StagedBuilt new s t key h g n svc e = h n svc (ground (arith, g n, e))

  -- After a removal of `key` the other sites serve as before, and `key` is not in the new configuration.
  pub removed-Serves :
      (new : ServiceConfigMap b p) (s t : Executor b) (key : String)
      → contains b p key new ≡ false
      → Removes b s t key
      → (n : String) → (str_eq key n ≡ false → Serves new s n)
      → Serves new t n
  removed-Serves new s t key gone r n others = elim (Bool-cases (str_eq key n)) [
    | inl hit ↦ λ c f. absurd (ground (arith, gone, hit, eq_iff key n, find-contains n new c f))
    | inr miss ↦ λ c f.
        let (v, q, made) = others miss c f in
        (v, get_svc-same b s t n (ground (arith, r.committed n, miss)) r.slots ∙ q, made)
  ]
