-- ===== src/Orchestrator/Executor/Stages.antt =====
-- The two-stage and the one-stage deployments: what each pair of commands achieves.
use Prim.Native.String.{String}
use text.Mathlib.Text.{◌==◌ as str_eq}
use text.Mathlib.TextEquality.{eq_iff}
use monolake.Base.{
  ℕ, true, ◌∷◌, Option, none, some, if◌then◌else◌, length, ok, ◌≡◌, refl, ap, arith, Option-cases,
  Result-cases, Bool-cases, ◌⊎◌, inl, inr, ◌∙◌, get_elem?-set, get_elem?-concat,
}
use monolake.Orchestrator.Executor.{
  Factories, Executor, precommit, update, commit, remove, committed_of, staged_of, get_svc,
  precommit_svc, update_with_precommitted_svc, remove_site, execute, stop,
}
use monolake.Orchestrator.Executor.Views.{
  SameDeployed, precommit_svc-SameDeployed, staged_of-precommit_svc,
}
use monolake.Orchestrator.Executor.Inv.{IsCoherent, deployed, deploy-eq, staged-IsCoherent}

module _ (b : Factories) where
  open b use {S, L, F, LF, make_via_ref, make_listener}

  -- An update of a site that is deployed and has a service staged: the site's slot then holds that
  -- service, so the server that runs on it serves with it; the other sites keep theirs, no server is
  -- started or stopped, and nothing is staged for the site any more.
  pub record Updates (s t : Executor b) (name : String) (svc : S) : Type 0 where
    pub current : (n : String) → get_svc b t n ≡ (if str_eq name n then some svc else get_svc b s n)
    pub committed : (n : String) → committed_of b t n ≡ committed_of b s n
    pub staged : (n : String) → staged_of b t n ≡ (if str_eq name n then none else staged_of b s n)
    pub servers : t.servers ≡ s.servers
    pub stopped : t.stopped ≡ s.stopped

  -- On a coherent executor, `Update` of a site that is deployed and has a service staged succeeds, as
  -- `Updates` says.
  pub update-Updates :
      (s : Executor b) (name : String) (slot : ℕ) (svc : S)
      → IsCoherent b s
      → committed_of b s name ≡ some slot
      → staged_of b s name ≡ some svc
      → ((execute b s (update name)).0 ≡ ok tt) × Updates s (execute b s (update name)).1 name svc
  unfolding execute update_with_precommitted_svc get_svc
  update-Updates s name slot svc w c e = (
    ground (arith, c, e),
    record {
      current = λ n. elim (Option-cases (committed_of b s n)) [
        | inl idle ↦ ground (arith, c, e, idle, eq_iff name n)
        | inr (k, q) ↦ ground (
          arith,
          c,
          e,
          q,
          eq_iff name n,
          get_elem?-set s.slots slot svc k (w.in_store name slot c),
          w.distinct name n k,
        )
      ];
      committed = λ n. ground (arith, c, e, eq_iff name n);
      staged = λ n. ground (arith, c, e, eq_iff name n);
      servers = ground (arith, c, e);
      stopped = ground (arith, c, e);
    },
  )

  -- A commit of a site for which a service is staged: a fresh slot with a server of its own; an earlier
  -- deployment of the site is stopped, and the other sites keep their services.
  pub record Deploys (s t : Executor b) (name : String) (svc : S) (l : L) : Type 0 where
    pub current : (n : String) → get_svc b t n ≡ (if str_eq name n then some svc else get_svc b s n)
    pub committed :
        (n : String)
        → committed_of b t n ≡ (if str_eq name n then some (length s.slots) else committed_of b s n)
    pub staged : (n : String) → staged_of b t n ≡ (if str_eq name n then none else staged_of b s n)
    pub servers : t.servers ≡ record { listener = l; slot = length s.slots } ∷ s.servers
    pub stopped : t.stopped ≡ stop b (committed_of b s name) s.stopped

  pub deployed-Deploys :
      (s : Executor b) (name : String) (svc : S) (l : L)
      → IsCoherent b s
      → Deploys s (deployed b s name svc l) name svc l
  unfolding deployed get_svc
  deployed-Deploys s name svc l w = record {
    current = λ n. elim (Option-cases (committed_of b s n)) [
      | inl idle ↦
          ground (arith, idle, eq_iff name n, get_elem?-concat s.slots svc (length s.slots))
      | inr (k, q) ↦ ground (
        arith,
        q,
        eq_iff name n,
        get_elem?-concat s.slots svc (length s.slots),
        get_elem?-concat s.slots svc k,
        w.in_store n k q,
      )
    ];
    committed = λ n. ground (arith, eq_iff name n);
    staged = λ n. ground (arith, eq_iff name n);
    servers = refl;
    stopped = refl;
  }

  -- On a coherent executor, `Commit` of a site for which a service is staged, with a listener that can
  -- be made, succeeds: the site has a fresh slot with that service and a new server on it, nothing
  -- staged, and an earlier deployment of the site is told to stop. The other sites keep their services.
  pub commit-Deploys :
      (s : Executor b) (name : String) (lf : LF) (svc : S) (l : L)
      → IsCoherent b s
      → staged_of b s name ≡ some svc
      → make_listener lf ≡ ok l
      → ((execute b s (commit name lf)).0 ≡ ok tt)
        × Deploys s (execute b s (commit name lf)).1 name svc l
  unfolding execute
  commit-Deploys s name lf svc l w e q =
      rw (q, execute) (rw (deploy-eq b s name svc l e) (refl, deployed-Deploys s name svc l w))

  pub precommit-eq :
      (s : Executor b) (name : String) (f : F) (svc : S)
      → make_via_ref f (get_svc b s name) ≡ ok svc
      → execute b s (precommit name f) ≡ (ok tt, precommit_svc b s name svc)
  unfolding execute
  precommit-eq s name f svc q = rw (q, execute)

  pub get_svc-same :
      (s t : Executor b) (n : String)
      → committed_of b t n ≡ committed_of b s n
      → t.slots ≡ s.slots
      → get_svc b t n ≡ get_svc b s n
  unfolding get_svc
  get_svc-same s t n c d = rw (c, d)

  pub get_svc-SameDeployed :
      (s t : Executor b) → SameDeployed b s t → (n : String) → get_svc b t n ≡ get_svc b s n
  unfolding get_svc
  get_svc-SameDeployed s t d n = rw (d.committed n, d.slots)

  -- What is staged after a `Precommit` is made by its factory, for its site, or was staged before.
  pub staged-precommit :
      (s : Executor b) (name : String) (f : F) (n : String) (svc : S)
      → staged_of b (execute b s (precommit name f)).1 n ≡ some svc
      → ((str_eq name n ≡ true) × ((old : Option S) × (make_via_ref f old ≡ ok svc)))
        ⊎ (staged_of b s n ≡ some svc)
  unfolding execute
  staged-precommit s name f n svc q = elim (Result-cases (make_via_ref f (get_svc b s name))) [
    | inr (x, e) ↦ inr (rw (e, execute) at q)
    | inl (made, e) ↦
        let now : staged_of b (precommit_svc b s name made) n ≡ some svc = rw (e, execute) at q in
        let split = staged_of-precommit_svc b s name made n in
        elim (Bool-cases (str_eq name n)) [
          | inl hit ↦
              let same : made ≡ svc = ground (arith, split, now, hit) in
              inl (hit, (get_svc b s name, e ∙ ap (λ a. ok a) same))
          | inr miss ↦ inr (ground (arith, split, now, miss))
        ]
  ]

  -- `Precommit`, with a factory that builds `svc` from the current service, and then `Update`, on a
  -- deployed site: both succeed, and the state differs from the first one by the update alone.
  pub two_stage_update :
      (s : Executor b) (name : String) (f : F) (slot : ℕ) (svc : S)
      → IsCoherent b s
      → committed_of b s name ≡ some slot
      → make_via_ref f (get_svc b s name) ≡ ok svc
      → let t = (execute b s (precommit name f)).1 in
        ((execute b s (precommit name f)).0 ≡ ok tt)
        × ((execute b t (update name)).0 ≡ ok tt)
        × Updates s (execute b t (update name)).1 name svc
  two_stage_update s name f slot svc w c q =
      rw (precommit-eq s name f svc q) (refl, done.0, shifted)
    where
      t : Executor b
      t = precommit_svc b s name svc

      d : SameDeployed b s t
      d = precommit_svc-SameDeployed b s name svc

      done :
          ((execute b t (update name)).0 ≡ ok tt) × Updates t (execute b t (update name)).1 name svc
      done =
          update-Updates t name slot svc (staged-IsCoherent b s t d w) (d.committed name ∙ c)
            (staged_of-precommit_svc b s name svc name ∙ ground (arith, eq_iff name name))

      u : Updates t (execute b t (update name)).1 name svc
      u = done.1

      shifted : Updates s (execute b t (update name)).1 name svc
      shifted = record {
        current = λ n. ground (arith, u.current n, get_svc-SameDeployed s t d n);
        committed = λ n. u.committed n ∙ d.committed n;
        staged = λ n. ground (arith, u.staged n, staged_of-precommit_svc b s name svc n);
        servers = u.servers ∙ d.servers;
        stopped = u.stopped ∙ d.stopped;
      }

  -- `Remove` of a site that is there takes it away; its server is told to stop.
  pub record Removes (s t : Executor b) (name : String) : Type 0 where
    pub committed :
        (n : String) → committed_of b t n ≡ (if str_eq name n then none else committed_of b s n)
    pub staged : (n : String) → staged_of b t n ≡ (if str_eq name n then none else staged_of b s n)
    pub slots : t.slots ≡ s.slots
    pub servers : t.servers ≡ s.servers
    pub stopped : t.stopped ≡ stop b (committed_of b s name) s.stopped

  -- `Remove` of a site that is deployed succeeds: the site is gone with what was staged for it, its
  -- server is told to stop, and no other site is touched.
  pub remove-Removes :
      (s : Executor b) (name : String) (slot : ℕ)
      → committed_of b s name ≡ some slot
      → ((execute b s (remove name)).0 ≡ ok tt) × Removes s (execute b s (remove name)).1 name
  unfolding execute remove_site
  remove-Removes s name slot c = (
    ground (arith, c),
    record {
      committed = λ n. ground (arith, c, eq_iff name n);
      staged = λ n. ground (arith, c, eq_iff name n);
      slots = ground (arith, c);
      servers = ground (arith, c);
      stopped = ground (arith, c);
    },
  )
