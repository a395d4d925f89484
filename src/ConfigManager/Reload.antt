-- ===== src/ConfigManager/Reload.antt =====
-- A reload as a whole: it brings the workers to the new configuration, or leaves them at the old one.
use Prim.Native.String.{String}
use mathlib.Core.Path.{subst}
use monolake.Base.{
  true, false, ◌||◌, List, [], ◌∷◌, Option, some, ok, err, ◌≡◌, refl, sym, ap, ◌∙◌, arith,
  Result-cases, inl, inr, is_some,
}
use monolake.Orchestrator.Executor.{Factories, committed_of, staged_of}
use monolake.Orchestrator.Executor.Inv.{IsCoherent}
use monolake.Orchestrator.Executor.Inv.{staged-IsCoherent}
use monolake.Orchestrator.Workers.{Worker, AnyError, Reply, All, Both, Both-trans, All-map}
use monolake.ConfigManager.{
  Providers, ServiceConfigMap, Patch, contains, prepare, abort_all, reload_services, run_stages,
  expect_committed,
}
use monolake.ConfigManager.Diff.{listed, Once, IsUnion, patch_keys, AllFit, diff_lem}
use monolake.ConfigManager.Rollback.{Keeps, Keeps-trans, prepare-Keeps, abort_all-Keeps}
use monolake.ConfigManager.Staged.{StagedFor, prepare-StagedFor, abort_all-StagedFor}
use monolake.ConfigManager.Services.{Serves, StagedBuilt, find-contains, prepare-StagedBuilt}
use monolake.Orchestrator.Executor.Stages.{get_svc-SameDeployed}
use monolake.ConfigManager.Commit.{
  Staging, prepare-Staging, ListenersBuild, Committing, commit_all-Committing,
}

module _ (b : Factories) (p : Providers b) where
  -- A running worker that has the sites of `m` deployed, no others, and nothing staged. Each site serves
  -- with a service that has been made of the configuration that `m` has for it.
  pub record InSync (m : ServiceConfigMap b p) (w : Worker b) : Type 0 where
    pub live : w.open_ ≡ true
    pub coherent : IsCoherent b w.executor
    pub committed : (n : String) → is_some (committed_of b w.executor n) ≡ contains b p n m
    pub staged : (n : String) → is_some (staged_of b w.executor n) ≡ false
    pub serves : (n : String) → Serves b p m w.executor n

  -- What both stages of the reload start from.
  start-Staging :
      (m : ServiceConfigMap b p) (patches : List (Patch b p)) (w : Worker b)
      → InSync m w
      → Staging b p patches patches w
  start-Staging m patches w h = (h.live, λ n. ground (arith, h.staged n))

  start-StagedFor :
      (m : ServiceConfigMap b p) (patches : List (Patch b p)) (w : Worker b)
      → InSync m w
      → StagedFor b p patches w
  start-StagedFor m patches w h = (h.live, λ n q. ground (arith, h.staged n, q))

  All-both :
      (P Q : Worker b → Type 0) (ws : List (Worker b))
      → All b P ws
      → All b Q ws
      → All b (λ w. P w × Q w) ws
  All-both P Q [] h k = tt
  All-both P Q (w ∷ ws) h k = ((h.0, k.0), All-both P Q ws h.1 k.1)

  -- The state between the two stages.
  prepared :
      (old new : ServiceConfigMap b p) (keys : List String) (patches : List (Patch b p))
      (w v : Worker b)
      → IsUnion b p old new keys
      → patch_keys b p patches ≡ keys
      → Keeps b p w v
      → InSync old w
      → Staging b p patches [] v × StagedBuilt b p new v.executor
      → Committing b p old new patches v
  prepared old new keys patches w v u k d h (s, made) = record {
    live = s.0;
    coherent = staged-IsCoherent b w.executor v.executor d.1 h.coherent;
    committed = λ n. ground (arith, d.1.committed n, h.committed n, u.complete n, unlisted n);
    staged = λ n. ground (arith, s.1 n);
    built = made;
    serves = λ n l c f. absurd (ground (arith, l, unlisted n, find-contains b p n new c f));
  }
    where
      unlisted :
          (n : String)
          → listed n (patch_keys b p patches) ≡ (contains b p n old || contains b p n new)
      unlisted n = ap (listed n) k ∙ u.complete n

  restored :
      (m : ServiceConfigMap b p) (w v : Worker b)
      → Keeps b p w v
      → InSync m w
      → StagedFor b p [] v
      → InSync m v
  restored m w v d h s = record {
    live = s.0;
    coherent = staged-IsCoherent b w.executor v.executor d.1 h.coherent;
    committed = λ n. ap is_some (d.1.committed n) ∙ h.committed n;
    staged = λ n. ground (arith, s.1 n);
    serves = λ n c f.
        let (svc, q, made) = h.serves n c f in
        (svc, get_svc-SameDeployed b w.executor v.executor d.1 n ∙ q, made);
  }

  -- Two facts of workers one by one, and what they give of the second.
  Both-zip_All :
      (R : Worker b → Worker b → Type 0) (P Q T : Worker b → Type 0)
      → ((w v : Worker b) → R w v → P w → Q v → T v)
      → (ws vs : List (Worker b)) → Both b R ws vs
      → All b P ws
      → All b Q vs
      → All b T vs
  Both-zip_All R P Q T f [] [] r h k = tt
  Both-zip_All R P Q T f [] (v ∷ vs) r h k = absurd r
  Both-zip_All R P Q T f (w ∷ ws) [] r h k = absurd r
  Both-zip_All R P Q T f (w ∷ ws) (v ∷ vs) r h k =
      (f w v r.0 h.0 k.0, Both-zip_All R P Q T f ws vs r.1 h.1 k.1)

  -- The outcome of a reload that does not panic.
  pub data Outcome (old new : ServiceConfigMap b p) (ws : List (Worker b))
      : Option (Reply b × List (Worker b)) → Type 0 where
    moved : (vs : List (Worker b)) → All b (InSync new) vs → Outcome old new ws (some (ok tt, vs))
    kept :
        (e : AnyError b) (vs : List (Worker b))
        → Both b (Keeps b p) ws vs
        → All b (InSync old) vs
        → Outcome old new ws (some (err e, vs))

  -- The two stages with the patches of `diff`.
  run_stages-Outcome :
      (old new : ServiceConfigMap b p) (keys : List String) (ws : List (Worker b))
      (patches : List (Patch b p))
      → IsUnion b p old new keys
      → ListenersBuild b p new
      → patch_keys b p patches ≡ keys
      → AllFit b p old new patches
      → All b (InSync old) ws
      → Outcome old new ws (run_stages b p ws patches)
  unfolding run_stages
  run_stages-Outcome old new keys ws patches u built k f h =
      elim (Result-cases (prepare b p ws patches).0) [
        | inr (x, e) ↦ rw (e, run_stages) (kept x back same restored_all)
        | inl (t, e) ↦
            let (good, done) =
              commit_all-Committing b p old new ws1 patches built once f (ready e) in
            rw (e, run_stages)
              (rw (good, expect_committed)
                (moved _ (All-map b (Committing b p old new []) (InSync new) finished _ done)))
      ]
    where
      ws1 : List (Worker b)
      ws1 = (prepare b p ws patches).1

      back : List (Worker b)
      back = abort_all b p ws1 patches

      once : Once (patch_keys b p patches)
      once = subst Once (sym k) u.once

      same : Both b (Keeps b p) ws back
      same =
          Both-trans b (Keeps b p) (Keeps-trans b p) ws ws1 back (prepare-Keeps b p ws patches)
            (abort_all-Keeps b p ws1 patches)

      restored_all : All b (InSync old) back
      restored_all =
          Both-zip_All (Keeps b p) (InSync old) (StagedFor b p []) (InSync old) (restored old) ws
            back same h
            (abort_all-StagedFor b p ws1 patches (
              prepare-StagedFor b p patches ws patches (λ n q. q)
                (All-map b (InSync old) (StagedFor b p patches) (start-StagedFor old patches) ws
                  h)))

      ready : (prepare b p ws patches).0 ≡ ok tt → All b (Committing b p old new patches) ws1
      ready e =
          Both-zip_All (Keeps b p) (InSync old)
            (λ v. Staging b p patches [] v × StagedBuilt b p new v.executor)
            (Committing b p old new patches)
            (λ w v d i s. prepared old new keys patches w v u k d i s) ws ws1
            (prepare-Keeps b p ws patches) h
            (All-both (Staging b p patches []) (λ v. StagedBuilt b p new v.executor) ws1
              (prepare-Staging b p patches ws patches
                (All-map b (InSync old) (Staging b p patches patches) (start-Staging old patches) ws
                  h)
                e)
              (prepare-StagedBuilt b p old new ws patches f (
                All-map b (InSync old) (λ w. StagedBuilt b p new w.executor)
                  (λ w i n svc q. absurd (ground (arith, i.staged n, q))) ws h)))

      finished : (w : Worker b) → Committing b p old new [] w → InSync new w
      finished w c = record {
        live = c.live;
        coherent = c.coherent;
        committed = c.committed;
        staged = c.staged;
        serves = λ n. c.serves n refl;
      }

  -- From workers in step with the old configuration, and with listeners that can be made, a reload
  -- does not panic. Either it succeeds, with every worker in step with the new configuration: the sites
  -- deployed are its names, and each serves with a service that the factory of its new configuration has
  -- made. Or it fails, with every deployment as it was and nothing left staged.
  pub reload_services-Outcome :
      (old new : ServiceConfigMap b p) (keys : List String) (ws : List (Worker b))
      → IsUnion b p old new keys
      → ListenersBuild b p new
      → All b (InSync old) ws
      → Outcome old new ws (reload_services b p ws old new keys)
  unfolding reload_services
  reload_services-Outcome old new keys ws u built h =
      let (patches, e, k, f) = diff_lem b p old new keys u in
      rw (e, reload_services) (run_stages-Outcome old new keys ws patches u built k f h)
