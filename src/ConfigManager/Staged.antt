-- ===== src/ConfigManager/Staged.antt =====
-- What is staged in the course of the prepare stage and of its undoing by `abort`.
use Prim.Native.String.{String}
use text.Mathlib.Text.{◌==◌ as str_eq}
use text.Mathlib.TextEquality.{eq_iff}
use mathlib.Core.Path.{subst}
use monolake.Base.{
  Bool, true, false, List, [], ◌∷◌, none, some, if◌then◌else◌, ◌≡◌, sym, arith, some-inj,
  Option-cases, inl, inr, is_some,
}
use monolake.Orchestrator.Executor.{Factories, ServiceCommand, staged_of, precommit, abort}
use monolake.Orchestrator.Executor.Views.{staged_of-abort, staged_of-precommit}
use monolake.Orchestrator.Workers.{Worker, All, send, send-open, dispatch, dispatch-All, All-map}
use monolake.ConfigManager.{
  Providers, Patch, insert, update_server, delete, prepare_command, abort_command, prepare,
  abort_all, try_cases,
}

module _ (b : Factories) (p : Providers b) where
  open p use {ServerConfig, ListenerConfig, server_factory}

  -- A key for which the patches build a service.
  abbrev pub needs : String → List (Patch b p) → Bool
  needs n [] = false
  needs n (insert key listener server ∷ patches) = if str_eq key n then true else needs n patches
  needs n (update_server key server ∷ patches) = if str_eq key n then true else needs n patches
  needs n (delete key ∷ patches) = needs n patches

  -- A running worker with a service staged only for the keys that `patches` need.
  abbrev pub StagedFor : List (Patch b p) → Worker b → Type 0
  StagedFor patches w =
      (w.open_ ≡ true)
      × ((n : String) → is_some (staged_of b w.executor n) ≡ true → needs n patches ≡ true)

  send-precommit :
      (patches : List (Patch b p)) (key : String) (f : b.F) (w : Worker b)
      → needs key patches ≡ true
      → StagedFor patches w
      → StagedFor patches (send b w (precommit key f)).1
  send-precommit patches key f w k h =
      subst (λ r. StagedFor patches r.1) (sym (send-open b w (precommit key f) h.0))
        (
          h.0,
          λ n q. ground (arith, h.1 n, k, eq_iff key n, staged_of-precommit b w.executor key f n q),
        )

  -- `needs n` of one patch.
  prepare_command-StagedFor :
      (patches : List (Patch b p)) (patch : Patch b p) (cmd : ServiceCommand b)
      → ((n : String) → needs n (patch ∷ []) ≡ true → needs n patches ≡ true)
      → prepare_command b p patch ≡ some cmd
      → (w : Worker b) → StagedFor patches w
      → StagedFor patches (send b w cmd).1
  prepare_command-StagedFor patches (insert key listener server) cmd sub e w h =
      subst (λ c. StagedFor patches (send b w c).1) (some-inj e)
        (send-precommit patches key _ w (sub key (ground (arith, eq_iff key key))) h)
  prepare_command-StagedFor patches (update_server key server) cmd sub e w h =
      subst (λ c. StagedFor patches (send b w c).1) (some-inj e)
        (send-precommit patches key _ w (sub key (ground (arith, eq_iff key key))) h)
  prepare_command-StagedFor patches (delete key) cmd sub e w h = cc

  send-abort :
      (patches : List (Patch b p)) (key : String) (w : Worker b)
      → (w.open_ ≡ true)
      → ((n : String)
          → is_some (staged_of b w.executor n) ≡ true
          → (if str_eq key n then true else needs n patches) ≡ true)
      → StagedFor patches (send b w (abort key)).1
  send-abort patches key w live h =
      subst (λ r. StagedFor patches r.1) (sym (send-open b w (abort key) live))
        (live, λ n q. ground (arith, h n, eq_iff key n, staged_of-abort b w.executor key n, q))

  -- `Abort` for a patch takes its key off.
  abort_command-StagedFor :
      (patches : List (Patch b p)) (patch : Patch b p) (cmd : ServiceCommand b)
      → abort_command b p patch ≡ some cmd
      → (w : Worker b) → StagedFor (patch ∷ patches) w
      → StagedFor patches (send b w cmd).1
  abort_command-StagedFor patches (insert key listener server) cmd e w h =
      subst (λ c. StagedFor patches (send b w c).1) (some-inj e) (send-abort patches key w h.0 h.1)
  abort_command-StagedFor patches (update_server key server) cmd e w h =
      subst (λ c. StagedFor patches (send b w c).1) (some-inj e) (send-abort patches key w h.0 h.1)
  abort_command-StagedFor patches (delete key) cmd e w h = cc

  skipped :
      (patch : Patch b p) (patches : List (Patch b p)) (w : Worker b)
      → abort_command b p patch ≡ none
      → StagedFor (patch ∷ patches) w
      → StagedFor patches w
  skipped (insert key listener server) patches w e h = cc
  skipped (update_server key server) patches w e h = cc
  skipped (delete key) patches w e h = h

  needs-head :
      (n : String) (patch : Patch b p) (patches : List (Patch b p))
      → needs n (patch ∷ []) ≡ true
      → needs n (patch ∷ patches) ≡ true
  needs-head n (insert key listener server) patches h = ground arith
  needs-head n (update_server key server) patches h = ground arith
  needs-head n (delete key) patches h = ground arith

  needs-tail :
      (n : String) (patch : Patch b p) (patches : List (Patch b p))
      → needs n patches ≡ true
      → needs n (patch ∷ patches) ≡ true
  needs-tail n (insert key listener server) patches h = ground arith
  needs-tail n (update_server key server) patches h = ground arith
  needs-tail n (delete key) patches h = ground arith

  pub prepare-StagedFor :
      (all : List (Patch b p)) (ws : List (Worker b)) (patches : List (Patch b p))
      → ((n : String) → needs n patches ≡ true → needs n all ≡ true)
      → All b (StagedFor all) ws
      → All b (StagedFor all) (prepare b p ws patches).1
  unfolding prepare
  prepare-StagedFor all ws [] sub h = h
  prepare-StagedFor all ws (patch ∷ patches) sub h =
      elim (Option-cases (prepare_command b p patch)) [
        | inl skip ↦
            rw (skip, prepare)
              (prepare-StagedFor all ws patches (λ n q. sub n (needs-tail n patch patches q)) h)
        | inr (cmd, e) ↦
            let once =
              dispatch-All b (StagedFor all) (StagedFor all) cmd
                (prepare_command-StagedFor all patch cmd
                  (λ n q. sub n (needs-head n patch patches q)) e)
                ws h in
            rw (e, prepare)
              (try_cases b p (λ r. All b (StagedFor all) r.1) ws cmd
                (λ ws'. prepare b p ws' patches)
                (λ _.
                  prepare-StagedFor all (dispatch b ws cmd).1 patches
                    (λ n q. sub n (needs-tail n patch patches q)) once)
                (λ _. once))
      ]

  pub abort_all-StagedFor :
      (ws : List (Worker b)) (patches : List (Patch b p))
      → All b (StagedFor patches) ws
      → All b (StagedFor []) (abort_all b p ws patches)
  unfolding abort_all
  abort_all-StagedFor ws [] h = h
  abort_all-StagedFor ws (patch ∷ patches) h = elim (Option-cases (abort_command b p patch)) [
    | inl skip ↦
        rw (skip, abort_all)
          (abort_all-StagedFor ws patches (
            All-map b (StagedFor (patch ∷ patches)) (StagedFor patches)
              (λ w. skipped patch patches w skip) ws h))
    | inr (cmd, e) ↦
        rw (e, abort_all)
          (abort_all-StagedFor (dispatch b ws cmd).1 patches (
            dispatch-All b (StagedFor (patch ∷ patches)) (StagedFor patches) cmd
              (abort_command-StagedFor patches patch cmd e) ws h))
  ]
