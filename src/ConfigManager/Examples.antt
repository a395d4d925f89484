-- ===== src/ConfigManager/Examples.antt =====
-- A reload at concrete values: from no services to two, on one worker.
use Prim.Native.String.{String}
use mathlib.Core.Path.{subst}
use monolake.Base.{
  true, false, List, [], ◌∷◌, none, some, Result, ok, ◌⊎◌, inl, inr, ◌≡◌, refl, sym, ap, ℕ, is_some,
  arith,
}
use monolake.Orchestrator.Executor.{init}
use monolake.Orchestrator.Executor.Examples.{numbers}
use monolake.Orchestrator.Executor.Inv.{init-IsCoherent}
use monolake.Orchestrator.Executor.Views.{committed_of-init, staged_of-init}
use monolake.Orchestrator.Workers.{Worker}
use monolake.ConfigManager.{
  Providers, ServiceConfigMap, Manager, ReloadError, reload_services, reload_file,
}
use monolake.ConfigManager.Diff.{IsUnion}
use monolake.ConfigManager.Commit.{ListenersBuild}
use monolake.ConfigManager.Reload.{InSync, Outcome, reload_services-Outcome}
use monolake.ConfigManager.ReloadFile.{ManagerInSync, FileOutcome, reload_file-FileOutcome}
use monolake.ConfigManager.Watch.{AreUsable, load_and_watch, load_and_watch-ManagerInSync}

abbrev two_sites : List (String × ℕ × ℕ)
two_sites = ("a", 80, 1) ∷ ("b", 81, 2) ∷ []

abbrev constant : Providers numbers
constant = record {
  ServerConfig = ℕ;
  ListenerConfig = ℕ;
  Content = ℕ;
  LoadError = Unit {0};
  server_factory = λ c. c;
  listener_factory = λ c. c;
  same_content = λ x y. false;
  parse_service_config = λ content. ok two_sites;
}

abbrev keys : List String
keys = "a" ∷ "b" ∷ []

abbrev worker : Worker numbers
worker = record { open_ = true; executor = init numbers }

two_sites-IsUnion : IsUnion numbers constant [] two_sites keys
two_sites-IsUnion = record { complete = λ n. refl; once = (refl, (refl, tt)) }

two_sites-ListenersBuild : ListenersBuild numbers constant two_sites
two_sites-ListenersBuild n c e = (c.0, refl)

worker-InSync : InSync numbers constant [] worker
worker-InSync = record {
  live = refl;
  coherent = init-IsCoherent numbers;
  committed = λ n. ap is_some (committed_of-init numbers n);
  staged = λ n. ap is_some (staged_of-init numbers n);
  serves = λ n c f. cc;
}

abbrev manager : Manager numbers constant
manager = record { online_config_content = 0; online_services = []; workers = worker ∷ [] }

parsed-eq :
    (new : ServiceConfigMap numbers constant)
    → ◌≡◌ {A = Result (ServiceConfigMap numbers constant) (Unit {0})} (ok two_sites) (ok new)
    → two_sites ≡ new
parsed-eq new e = cc

reload_services-Outcome_example :
    Outcome numbers constant [] two_sites
      (worker ∷ [])
      (reload_services numbers constant (worker ∷ []) [] two_sites keys)
reload_services-Outcome_example =
    reload_services-Outcome numbers constant [] two_sites keys (worker ∷ []) two_sites-IsUnion
      two_sites-ListenersBuild (worker-InSync, tt)

reload_file-FileOutcome_example :
    FileOutcome numbers constant manager
      (some 1)
      (reload_file numbers constant manager (some 1) (λ new. keys))
reload_file-FileOutcome_example =
    reload_file-FileOutcome numbers constant manager (some 1) (λ new. keys)
      (λ latest new f e.
        subst (λ m. IsUnion numbers constant [] m keys) (parsed-eq new e) two_sites-IsUnion)
      (λ latest new f e.
        subst (ListenersBuild numbers constant) (parsed-eq new e) two_sites-ListenersBuild)
      (worker-InSync, tt)

-- The configurations that occur: none yet, and the two sites.
abbrev Occurs : ServiceConfigMap numbers constant → Type 0
Occurs m = (m ≡ []) ⊎ (m ≡ two_sites)

abbrev order : ServiceConfigMap numbers constant → ServiceConfigMap numbers constant → List String
order [] [] = []
order [] (x ∷ new) = keys
order (x ∷ old) new = keys

order-IsUnion :
    (old new : ServiceConfigMap numbers constant)
    → Occurs old
    → Occurs new
    → IsUnion numbers constant old new (order old new)
order-IsUnion old new (inl e) (inl f) =
    rw (e, order)
      (rw (f, order)
        (let u : IsUnion numbers constant [] [] [] = record { complete = λ n. refl; once = tt } in
          u))
order-IsUnion old new (inl e) (inr f) = rw (e, order) (rw (f, order) two_sites-IsUnion)
order-IsUnion old new (inr e) (inl f) =
    rw (e, order)
      (rw (f, order)
        (let u : IsUnion numbers constant two_sites [] keys = record {
          complete = λ n. ground arith;
          once = (refl, (refl, tt));
        } in
          u))
order-IsUnion old new (inr e) (inr f) =
    rw (e, order)
      (rw (f, order)
        (let u : IsUnion numbers constant two_sites two_sites keys = record {
          complete = λ n. ground arith;
          once = (refl, (refl, tt));
        } in
          u))

usable : AreUsable numbers constant order Occurs
usable = record {
  parsed = λ content new e. inr (sym (parsed-eq new e));
  union = order-IsUnion;
  listeners = λ new o n c e. (c.0, refl);
}

load_and_watch-ManagerInSync_example :
    (x : Result (Unit {0}) (ReloadError numbers constant)) × (m' : Manager numbers constant)
    × (load_and_watch numbers constant order manager (some 1) (none ∷ some 2 ∷ []) ≡ some (x, m'))
    × ManagerInSync numbers constant m'
load_and_watch-ManagerInSync_example =
    load_and_watch-ManagerInSync numbers constant order Occurs manager (some 1) (none ∷ some 2 ∷ [])
      usable (inl refl) (worker-InSync, tt)
