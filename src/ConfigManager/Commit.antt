-- ===== src/ConfigManager/Commit.antt =====
-- The stages of a reload that succeed: what is staged after the first, and the commit of all of it.
use Prim.Native.String.{String}
use text.Mathlib.Text.{◌==◌ as str_eq}
use text.Mathlib.TextEquality.{eq_iff}
use mathlib.Core.Path.{subst}
use monolake.Base.{
  true, false, ◌||◌, List, [], ◌∷◌, Option, none, some, if◌then◌else◌, ok, ◌≡◌, refl, sym, ap,
  arith, some-inj, Option-cases, inl, inr, is_some, map_err,
}
use monolake.Orchestrator.Executor.{
  Factories, ServiceCommand, committed_of, staged_of, precommit, update, commit, remove, execute,
}
use monolake.Orchestrator.Executor.Inv.{IsCoherent, execute-IsCoherent}
use monolake.Orchestrator.Executor.Views.{staged_of-precommit_ok}
use monolake.Orchestrator.Executor.Stages.{update-Updates, commit-Deploys, remove-Removes}
use monolake.Orchestrator.Workers.{
  Worker, command, All, send, send-open, dispatch, group_err, dispatch-All, dispatch-All_ok,
  dispatch_ok,
}
use monolake.ConfigManager.{
  Providers, ServiceConfigMap, Patch, insert, update_server, delete, find, contains,
  prepare_command, commit_command, prepare, commit_all, try_cases, try_ok,
}
use monolake.ConfigManager.Diff.{listed, Once, patch_keys, Fits, AllFit}
use monolake.ConfigManager.Staged.{needs}
use monolake.ConfigManager.Services.{
  StagedBuilt, Serves, moved-Serves, unstaged-StagedBuilt, removed-Serves,
}

module _ (b : Factories) (p : Providers b) where
  open p use {ServerConfig, ListenerConfig, server_factory, listener_factory}

  -- Running workers that have staged, or have still to stage, what `all` needs.
  abbrev pub Staging : List (Patch b p) → List (Patch b p) → Worker b → Type 0
  Staging all todo w =
      (w.open_ ≡ true)
      × ((n : String) → (is_some (staged_of b w.executor n) || needs b p n todo) ≡ needs b p n all)

  send-Staging :
      (all todo todo' : List (Patch b p)) (key : String) (f : b.F) (w : Worker b)
      → ((n : String) → needs b p n todo ≡ (if str_eq key n then true else needs b p n todo'))
      → Staging all todo w
      → (send b w (precommit key f)).0 ≡ ok tt
      → Staging all todo' (send b w (precommit key f)).1
  send-Staging all todo todo' key f w d h e =
      subst (λ r. Staging all todo' r.1) (sym (send-open b w (precommit key f) h.0))
        (h.0, λ n. ground (arith, h.1 n, d n, staged_of-precommit_ok b w.executor key f n done))
    where
      done : (execute b w.executor (precommit key f)).0 ≡ ok tt
      done = ground (arith, e, send-open b w (precommit key f) h.0)

  prepare_command-Staging :
      (all patches : List (Patch b p)) (patch : Patch b p) (cmd : ServiceCommand b)
      → prepare_command b p patch ≡ some cmd
      → (w : Worker b) → Staging all (patch ∷ patches) w
      → (send b w cmd).0 ≡ ok tt
      → Staging all patches (send b w cmd).1
  prepare_command-Staging all patches (insert key listener server) cmd e w h =
      subst (λ c. (send b w c).0 ≡ ok tt → Staging all patches (send b w c).1) (some-inj e)
        (send-Staging all (insert key listener server ∷ patches) patches key (server_factory server)
          w (λ n. refl) h)
  prepare_command-Staging all patches (update_server key server) cmd e w h =
      subst (λ c. (send b w c).0 ≡ ok tt → Staging all patches (send b w c).1) (some-inj e)
        (send-Staging all (update_server key server ∷ patches) patches key (server_factory server) w
          (λ n. refl) h)
  prepare_command-Staging all patches (delete key) cmd e w h = cc

  All-skipped :
      (all patches : List (Patch b p)) (patch : Patch b p) (ws : List (Worker b))
      → prepare_command b p patch ≡ none
      → All b (Staging all (patch ∷ patches)) ws
      → All b (Staging all patches) ws
  All-skipped all patches (insert key listener server) ws e h = cc
  All-skipped all patches (update_server key server) ws e h = cc
  All-skipped all patches (delete key) ws e h = h

  -- If the prepare stage succeeds, every worker has a service staged for each key that needs one.
  pub prepare-Staging :
      (all : List (Patch b p)) (ws : List (Worker b)) (patches : List (Patch b p))
      → All b (Staging all patches) ws
      → (prepare b p ws patches).0 ≡ ok tt
      → All b (Staging all []) (prepare b p ws patches).1
  unfolding prepare
  prepare-Staging all ws [] h = λ e. h
  prepare-Staging all ws (patch ∷ patches) h = elim (Option-cases (prepare_command b p patch)) [
    | inl skip ↦
        rw (skip, prepare)
          (prepare-Staging all ws patches (All-skipped all patches patch ws skip h))
    | inr (cmd, e) ↦
        rw (e, prepare)
          (try_cases b p (λ r. r.0 ≡ ok tt → All b (Staging all []) r.1) ws cmd
            (λ ws'. prepare b p ws' patches)
            (λ g. prepare-Staging all (dispatch b ws cmd).1 patches (
              dispatch-All_ok b (Staging all (patch ∷ patches)) (Staging all patches) cmd
                (prepare_command-Staging all patches patch cmd e) ws h g))
            (λ x q. cc))
  ]

  -- Every listener of the new configuration can be made.
  abbrev pub ListenersBuild : ServiceConfigMap b p → Type 0
  ListenersBuild new =
      (n : String) (c : ListenerConfig × ServerConfig)
      → find b p n new ≡ some c
      → (l : b.L) × (b.make_listener (listener_factory c.0) ≡ ok l)

  -- A running worker in the middle of the commit stage: the keys of `todo` are as `old` has them, the
  -- others as `new` has them, with services made of `new`, and what is still staged is what `todo` needs.
  pub record Committing (old new : ServiceConfigMap b p) (todo : List (Patch b p)) (w : Worker b)
      : Type 0 where
    pub live : w.open_ ≡ true
    pub coherent : IsCoherent b w.executor
    pub committed :
        (n : String)
        → is_some (committed_of b w.executor n)
          ≡ (if listed n (patch_keys b p todo) then contains b p n old else contains b p n new)
    pub staged : (n : String) → is_some (staged_of b w.executor n) ≡ needs b p n todo
    pub built : StagedBuilt b p new w.executor
    pub serves : (n : String) → listed n (patch_keys b p todo) ≡ false → Serves b p new w.executor n

  needs-listed :
      (n : String) (patches : List (Patch b p))
      → listed n (patch_keys b p patches) ≡ false
      → needs b p n patches ≡ false
  needs-listed n [] h = refl
  needs-listed n (insert key listener server ∷ patches) h =
      ground (arith, h, needs-listed n patches)
  needs-listed n (update_server key server ∷ patches) h = ground (arith, h, needs-listed n patches)
  needs-listed n (delete key ∷ patches) h = ground (arith, h, needs-listed n patches)

  there : {A : Type 0} (o : Option A) → is_some o ≡ true → (a : A) × (o ≡ some a)
  there none h = cc
  there (some a) h = (a, refl)

  -- The commit command of the next patch succeeds, and its key is then as `new` has it.
  commit_one :
      (old new : ServiceConfigMap b p) (patch : Patch b p) (patches : List (Patch b p))
      → ListenersBuild new
      → Once (patch_keys b p (patch ∷ patches))
      → Fits b p old new patch
      → (w : Worker b) → Committing old new (patch ∷ patches) w
      → let (r, t) = execute b w.executor (commit_command b p patch) in
        (r ≡ ok tt) × Committing old new patches (record w { executor = t })
  commit_one old new (insert key listener server) patches built o f w h =
      let (svc, e) =
        there (staged_of b w.executor key) (ground (arith, h.staged key, eq_iff key key)) in
      let (l, q) = built key (listener, server) f.2 in
      let (r, d) =
        commit-Deploys b w.executor key (listener_factory listener) svc l h.coherent e q in
      (
        r,
        record {
          live = h.live;
          coherent =
              execute-IsCoherent b w.executor (commit key (listener_factory listener)) h.coherent;
          committed = λ n. ground (arith, d.committed n, h.committed n, eq_iff key n, o.0, f.1);
          staged = λ n.
              ground (arith, d.staged n, h.staged n, eq_iff key n, needs-listed key patches o.0);
          built =
              unstaged-StagedBuilt b p new w.executor
                (execute b w.executor (commit key (listener_factory listener))).1 key h.built
                d.staged;
          serves = λ n l.
              moved-Serves b p new w.executor
                (execute b w.executor (commit key (listener_factory listener))).1 key svc h.built e
                d.current n (λ miss. h.serves n (ground (arith, l, miss)));
        },
      )
  commit_one old new (update_server key server) patches built o f w h =
      let (svc, e) =
        there (staged_of b w.executor key) (ground (arith, h.staged key, eq_iff key key)) in
      let (slot, c) =
        there (committed_of b w.executor key)
          (ground (arith, h.committed key, eq_iff key key, f.0)) in
      let (r, u) = update-Updates b w.executor key slot svc h.coherent c e in
      (
        r,
        record {
          live = h.live;
          coherent = execute-IsCoherent b w.executor (update key) h.coherent;
          committed =
              λ n. ground (arith, u.committed n, h.committed n, eq_iff key n, o.0, f.0, f.1);
          staged = λ n.
              ground (arith, u.staged n, h.staged n, eq_iff key n, needs-listed key patches o.0);
          built =
              unstaged-StagedBuilt b p new w.executor (execute b w.executor (update key)).1 key
                h.built u.staged;
          serves = λ n l.
              moved-Serves b p new w.executor (execute b w.executor (update key)).1 key svc h.built
                e u.current n (λ miss. h.serves n (ground (arith, l, miss)));
        },
      )
  commit_one old new (delete key) patches built o f w h =
      let (slot, c) =
        there (committed_of b w.executor key)
          (ground (arith, h.committed key, eq_iff key key, f.0)) in
      let (r, u) = remove-Removes b w.executor key slot c in
      (
        r,
        record {
          live = h.live;
          coherent = execute-IsCoherent b w.executor (remove key) h.coherent;
          committed =
              λ n. ground (arith, u.committed n, h.committed n, eq_iff key n, o.0, f.0, f.1);
          staged = λ n.
              ground (arith, u.staged n, h.staged n, eq_iff key n, needs-listed key patches o.0);
          built =
              unstaged-StagedBuilt b p new w.executor (execute b w.executor (remove key)).1 key
                h.built u.staged;
          serves = λ n l.
              removed-Serves b p new w.executor (execute b w.executor (remove key)).1 key f.1 u n
                (λ miss. h.serves n (ground (arith, l, miss)));
        },
      )

  send-Committing :
      (old new : ServiceConfigMap b p) (patch : Patch b p) (patches : List (Patch b p))
      → ListenersBuild new
      → Once (patch_keys b p (patch ∷ patches))
      → Fits b p old new patch
      → (w : Worker b) → Committing old new (patch ∷ patches) w
      → ((send b w (commit_command b p patch)).0 ≡ ok tt)
        × Committing old new patches (send b w (commit_command b p patch)).1
  send-Committing old new patch patches built o f w h =
      let (r, c) = commit_one old new patch patches built o f w h in
      subst (λ r. (r.0 ≡ ok tt) × Committing old new patches r.1)
        (sym (send-open b w (commit_command b p patch) h.live)) (ap (map_err command) r, c)

  -- With services staged and listeners that can be made, the commit stage succeeds on every worker.
  pub commit_all-Committing :
      (old new : ServiceConfigMap b p) (ws : List (Worker b)) (patches : List (Patch b p))
      → ListenersBuild new
      → Once (patch_keys b p patches)
      → AllFit b p old new patches
      → All b (Committing old new patches) ws
      → ((commit_all b p ws patches).0 ≡ ok tt)
        × All b (Committing old new []) (commit_all b p ws patches).1
  unfolding commit_all
  commit_all-Committing old new ws [] built o f h = (refl, h)
  commit_all-Committing old new ws (patch ∷ patches) built o f h =
      subst (λ r. (r.0 ≡ ok tt) × All b (Committing old new []) r.1)
        (sym (try_ok b p ws (commit_command b p patch) (λ ws'. commit_all b p ws' patches) good))
        (commit_all-Committing old new (dispatch b ws (commit_command b p patch)).1 patches built
          o.1 f.1
          (dispatch-All b (Committing old new (patch ∷ patches)) (Committing old new patches)
            (commit_command b p patch) (λ w c. (one w c).1) ws h))
    where
      one :
          (w : Worker b)
          → Committing old new (patch ∷ patches) w
          → ((send b w (commit_command b p patch)).0 ≡ ok tt)
            × Committing old new patches (send b w (commit_command b p patch)).1
      one w c = send-Committing old new patch patches built o f.0 w c

      good : group_err b (dispatch b ws (commit_command b p patch)).0 ≡ ok tt
      good =
          dispatch_ok b (Committing old new (patch ∷ patches)) (commit_command b p patch)
            (λ w c. (one w c).0) ws h
