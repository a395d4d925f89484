-- ===== src/ConfigManager/Watch.antt =====
-- `load_and_watch` and `watch`: the file is loaded once, and then read again every second for ever. The
-- rounds that are looked at are a list of what was read.
use Prim.Native.String.{String}
use monolake.Base.{List, [], ◌∷◌, Option, some, Result, ok, err, Result-cases, inl, inr, ◌≡◌, refl}
use monolake.Base.Panic.{◌>>=◌}
use monolake.Orchestrator.Executor.{Factories}
use monolake.ConfigManager.{
  Providers, ServiceConfigMap, Manager, ReloadError, Reloaded, reload_file, read_failed,
  parse_failed, prepare_failed,
}
use monolake.ConfigManager.Diff.{IsUnion}
use monolake.ConfigManager.Commit.{ListenersBuild}
use monolake.ConfigManager.ReloadFile.{
  ManagerInSync, FileOutcome, unread, unchanged, unparsed, reloaded, refused,
  reload_file-FileOutcome,
}

module _ (b : Factories) (p : Providers b) where
  -- The order in which the hash set of `diff` gives the keys of two maps.
  abbrev pub Order : Type 0
  Order = ServiceConfigMap b p → ServiceConfigMap b p → List String

  -- An error of a round is logged, and the manager goes on.
  pub watch : Order → Manager b p → List (Option p.Content) → Option (Manager b p)
  watch order m [] = some m
  watch order m (file ∷ files) =
      reload_file b p m file (order m.online_services) >>= λ r. watch order r.1 files

  -- An error of the first load is returned.
  abbrev pub go_on :
      Order
      → List (Option p.Content)
      → Reloaded b p
      → Option (Result (Unit {0}) (ReloadError b p) × Manager b p)
  go_on order files (err e, m) = some (err e, m)
  go_on order files (ok t, m) = watch order m files >>= λ m'. some (ok tt, m')

  pub load_and_watch :
      Order
      → Manager b p
      → Option p.Content
      → List (Option p.Content)
      → Option (Result (Unit {0}) (ReloadError b p) × Manager b p)
  load_and_watch order m file files =
      reload_file b p m file (order m.online_services) >>= λ r. go_on order files r

  -- The configurations that occur: `Occurs` holds of what is parsed; each of these can be reached from each
  -- other one by the keys in the order given, and their listeners can be made.
  pub record AreUsable (order : Order) (Occurs : ServiceConfigMap b p → Type 0) : Type 0 where
    pub parsed :
        (content : p.Content) (new : ServiceConfigMap b p)
        → p.parse_service_config content ≡ ok new
        → Occurs new
    pub union :
        (old new : ServiceConfigMap b p)
        → Occurs old
        → Occurs new
        → IsUnion b p old new (order old new)
    pub listeners : (new : ServiceConfigMap b p) → Occurs new → ListenersBuild b p new

  record IsGood (Occurs : ServiceConfigMap b p → Type 0) (m : Manager b p) : Type 0 where
    in_sync : ManagerInSync b p m
    occurs : Occurs m.online_services

  after_outcome :
      (Occurs : ServiceConfigMap b p → Type 0) (order : Order)
      → AreUsable order Occurs
      → (m : Manager b p) (file : Option p.Content) (r : Option (Reloaded b p)) → IsGood Occurs m
      → FileOutcome b p m file r
      → (x : Result (Unit {0}) (ReloadError b p)) × (m' : Manager b p) × (r ≡ some (x, m'))
        × IsGood Occurs m'
  after_outcome Occurs order usable m file r good unread = (err read_failed, m, refl, good)
  after_outcome Occurs order usable m file r good (unchanged latest same) = (ok tt, m, refl, good)
  after_outcome Occurs order usable m file r good (unparsed latest e bad) =
      (err (parse_failed e), m, refl, good)
  after_outcome Occurs order usable m file r good (reloaded latest new ws e h) = (
    ok tt,
    record { online_config_content = latest; online_services = new; workers = ws },
    refl,
    record { in_sync = h; occurs = usable.parsed latest new e },
  )
  after_outcome Occurs order usable m file r good (refused latest e ws kept h) = (
    err (prepare_failed e),
    record m { workers = ws },
    refl,
    record { in_sync = h; occurs = good.occurs },
  )

  reload-IsGood :
      (Occurs : ServiceConfigMap b p → Type 0) (order : Order)
      → AreUsable order Occurs
      → (m : Manager b p) (file : Option p.Content) → IsGood Occurs m
      → (x : Result (Unit {0}) (ReloadError b p)) × (m' : Manager b p) × (reload_file b p m file
            (order m.online_services)
          ≡ some (x, m'))
        × IsGood Occurs m'
  reload-IsGood Occurs order usable m file good =
      after_outcome Occurs order usable m file (reload_file b p m file (order m.online_services))
        good
        (reload_file-FileOutcome b p m file (order m.online_services)
          (λ latest new f e.
            usable.union m.online_services new good.occurs (usable.parsed latest new e))
          (λ latest new f e. usable.listeners new (usable.parsed latest new e)) good.in_sync)

  watch-IsGood :
      (Occurs : ServiceConfigMap b p → Type 0) (order : Order)
      → AreUsable order Occurs
      → (m : Manager b p) (files : List (Option p.Content)) → IsGood Occurs m
      → (m' : Manager b p) × (watch order m files ≡ some m') × IsGood Occurs m'
  unfolding watch
  watch-IsGood Occurs order usable m [] good = (m, refl, good)
  watch-IsGood Occurs order usable m (file ∷ files) good =
      let (x, m1, e, good1) = reload-IsGood Occurs order usable m file good in
      let (m2, w, good2) = watch-IsGood Occurs order usable m1 files good1 in
      (m2, rw (e, watch) w, good2)

  -- The manager starts in agreement with its workers, and the configurations that occur are usable. Then
  -- loading and watching never panics, whatever is read in any number of rounds, files that cannot be
  -- read or parsed and services that cannot be made included: after them the sites that
  -- every worker has deployed are those of the manager's services, each serving with a service that the
  -- factory of its configuration there has made, and no worker has anything staged.
  pub load_and_watch-ManagerInSync :
      (order : Order) (Occurs : ServiceConfigMap b p → Type 0) (m : Manager b p)
      (file : Option p.Content) (files : List (Option p.Content))
      → AreUsable order Occurs
      → Occurs m.online_services
      → ManagerInSync b p m
      → (x : Result (Unit {0}) (ReloadError b p)) × (m' : Manager b p) × (load_and_watch order m
            file files
          ≡ some (x, m'))
        × ManagerInSync b p m'
  unfolding load_and_watch
  load_and_watch-ManagerInSync order Occurs m file files usable o h =
      let (x, m1, e, good) =
        reload-IsGood Occurs order usable m file (record { in_sync = h; occurs = o }) in
      elim (Result-cases x) [
        | inr (bad, q) ↦ (err bad, m1, rw (e, load_and_watch) (rw q), good.in_sync)
        | inl (t, q) ↦
            let (m2, w, good2) = watch-IsGood Occurs order usable m1 files good in
            (ok tt, m2, rw (e, load_and_watch) (rw q (rw w)), good2.in_sync)
      ]
