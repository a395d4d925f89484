-- ===== src/ConfigManager/Rollback.antt =====
-- The prepare stage, and its undoing by `abort`: deployments stay as they are throughout.
use mathlib.Core.Path.{subst}
use monolake.Base.{
  List, [], ◌∷◌, some, ◌≡◌, refl, sym, ◌∙◌, some-inj, Bool-cases, Option-cases, inl, inr,
}
use monolake.Orchestrator.Executor.{Factories, ServiceCommand, execute}
use monolake.Orchestrator.Executor.Views.{SameDeployed, precommit-SameDeployed, abort-SameDeployed}
use monolake.Orchestrator.Workers.{
  Worker, Both, send, send-open, send-closed, dispatch, dispatch-Both, Both-trans, Both-refl,
}
use monolake.ConfigManager.{
  Providers, Patch, insert, update_server, delete, prepare_command, abort_command, prepare,
  abort_all, try_cases,
}

module _ (b : Factories) (p : Providers b) where
  open p use {ServerConfig, ListenerConfig, server_factory}

  abbrev pub Keeps : Worker b → Worker b → Type 0
  Keeps w v = (v.open_ ≡ w.open_) × SameDeployed b w.executor v.executor

  pub Keeps-refl : (w : Worker b) → Keeps w w
  Keeps-refl w =
      (refl, record { committed = λ n. refl; slots = refl; servers = refl; stopped = refl })

  pub Keeps-trans : (u v w : Worker b) → Keeps u v → Keeps v w → Keeps u w
  Keeps-trans u v w (o, d) (o', d') = (
    o' ∙ o,
    record {
      committed = λ n. d'.committed n ∙ d.committed n;
      slots = d'.slots ∙ d.slots;
      servers = d'.servers ∙ d.servers;
      stopped = d'.stopped ∙ d.stopped;
    },
  )

  -- The commands of the two stages change no deployment.
  send-Keeps :
      (cmd : ServiceCommand b) (w : Worker b)
      → SameDeployed b w.executor (execute b w.executor cmd).1
      → Keeps w (send b w cmd).1
  send-Keeps cmd w d = elim (Bool-cases w.open_) [
    | inl live ↦ subst (λ r. Keeps w r.1) (sym (send-open b w cmd live)) (refl, d)
    | inr closed ↦ subst (λ r. Keeps w r.1) (sym (send-closed b w cmd closed)) (Keeps-refl w)
  ]

  prepare_command-Keeps :
      (patch : Patch b p) (cmd : ServiceCommand b)
      → prepare_command b p patch ≡ some cmd
      → (w : Worker b) → Keeps w (send b w cmd).1
  prepare_command-Keeps (insert key listener server) cmd e w =
      subst (λ c. Keeps w (send b w c).1) (some-inj e)
        (send-Keeps _ w (precommit-SameDeployed b w.executor key (server_factory server)))
  prepare_command-Keeps (update_server key server) cmd e w =
      subst (λ c. Keeps w (send b w c).1) (some-inj e)
        (send-Keeps _ w (precommit-SameDeployed b w.executor key (server_factory server)))
  prepare_command-Keeps (delete key) cmd e w = cc

  abort_command-Keeps :
      (patch : Patch b p) (cmd : ServiceCommand b)
      → abort_command b p patch ≡ some cmd
      → (w : Worker b) → Keeps w (send b w cmd).1
  abort_command-Keeps (insert key listener server) cmd e w =
      subst (λ c. Keeps w (send b w c).1) (some-inj e)
        (send-Keeps _ w (abort-SameDeployed b w.executor key))
  abort_command-Keeps (update_server key server) cmd e w =
      subst (λ c. Keeps w (send b w c).1) (some-inj e)
        (send-Keeps _ w (abort-SameDeployed b w.executor key))
  abort_command-Keeps (delete key) cmd e w = cc

  pub prepare-Keeps :
      (ws : List (Worker b)) (patches : List (Patch b p))
      → Both b Keeps ws (prepare b p ws patches).1
  unfolding prepare
  prepare-Keeps ws [] = Both-refl b Keeps Keeps-refl ws
  prepare-Keeps ws (patch ∷ patches) = elim (Option-cases (prepare_command b p patch)) [
    | inl skip ↦ rw (skip, prepare) (prepare-Keeps ws patches)
    | inr (cmd, e) ↦
        let once = dispatch-Both b Keeps cmd (prepare_command-Keeps patch cmd e) ws in
        rw (e, prepare)
          (try_cases b p (λ r. Both b Keeps ws r.1) ws cmd (λ ws'. prepare b p ws' patches)
            (λ _.
              Both-trans b Keeps Keeps-trans ws (dispatch b ws cmd).1 _ once
                (prepare-Keeps (dispatch b ws cmd).1 patches))
            (λ _. once))
  ]

  pub abort_all-Keeps :
      (ws : List (Worker b)) (patches : List (Patch b p))
      → Both b Keeps ws (abort_all b p ws patches)
  unfolding abort_all
  abort_all-Keeps ws [] = Both-refl b Keeps Keeps-refl ws
  abort_all-Keeps ws (patch ∷ patches) = elim (Option-cases (abort_command b p patch)) [
    | inl skip ↦ rw (skip, abort_all) (abort_all-Keeps ws patches)
    | inr (cmd, e) ↦
        rw (e, abort_all)
          (Both-trans b Keeps Keeps-trans ws (dispatch b ws cmd).1 _
            (dispatch-Both b Keeps cmd (abort_command-Keeps patch cmd e) ws)
            (abort_all-Keeps (dispatch b ws cmd).1 patches))
  ]
