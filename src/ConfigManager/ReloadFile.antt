-- ===== src/ConfigManager/ReloadFile.antt =====
-- A reload of the configuration file, with the manager's own record of what is online.
use Prim.Native.String.{String}
use monolake.Base.{
  true, List, Option, none, some, ok, err, ◌≡◌, Bool-cases, Result-cases, inl, inr, refl,
}
use monolake.Base.Panic.{◌>>=◌}
use monolake.Orchestrator.Executor.{Factories}
use monolake.Orchestrator.Workers.{Worker, AnyError, Reply, All, Both}
use monolake.ConfigManager.{
  Providers, ServiceConfigMap, reload_services, Manager, prepare_failed, read_failed, parse_failed,
  Reloaded, reload_file, after_reload,
}
use monolake.ConfigManager.Diff.{IsUnion}
use monolake.ConfigManager.Rollback.{Keeps}
use monolake.ConfigManager.Commit.{ListenersBuild}
use monolake.ConfigManager.Reload.{InSync, Outcome, moved, kept, reload_services-Outcome}

module _ (b : Factories) (p : Providers b) where
  -- The manager's record of what is online, and the workers, agree.
  abbrev pub ManagerInSync : Manager b p → Type 0
  ManagerInSync m = All b (InSync b p m.online_services) m.workers

  -- What a reload of the file may come to, from what was read.
  pub data FileOutcome (m : Manager b p) : Option p.Content → Option (Reloaded b p) → Type 0 where
    unread : FileOutcome m none (some (err read_failed, m))
    unchanged :
        (latest : p.Content)
        → p.same_content m.online_config_content latest ≡ true
        → FileOutcome m (some latest) (some (ok tt, m))
    unparsed :
        (latest : p.Content) (e : p.LoadError)
        → p.parse_service_config latest ≡ err e
        → FileOutcome m (some latest) (some (err (parse_failed e), m))
    reloaded :
        (latest : p.Content) (new : ServiceConfigMap b p) (ws : List (Worker b))
        → p.parse_service_config latest ≡ ok new
        → All b (InSync b p new) ws
        → FileOutcome m (some latest) (
            some (
              ok tt,
              record { online_config_content = latest; online_services = new; workers = ws },
            ))
    refused :
        (latest : p.Content) (e : AnyError b) (ws : List (Worker b))
        → Both b (Keeps b p) m.workers ws
        → All b (InSync b p m.online_services) ws
        → FileOutcome m (some latest) (some (err (prepare_failed e), record m { workers = ws }))

  from_services :
      (m : Manager b p) (latest : p.Content) (new : ServiceConfigMap b p)
      (r : Option (Reply b × List (Worker b)))
      → p.parse_service_config latest ≡ ok new
      → Outcome b p m.online_services new m.workers r
      → FileOutcome m (some latest) (r >>= λ r. some (after_reload b p m latest new r))
  from_services m latest new _ e (moved vs h) = reloaded latest new vs e h
  from_services m latest new _ e (kept x vs d h) = refused latest x vs d h

  -- A reload of the file by a manager that agrees with its workers does not panic, whatever was read,
  -- if the keys given are those of the old and the new services, each once, and the listeners of the
  -- new services can be made. Either it fails with the manager as
  -- it was, and the deployments of its workers too; or it finds the file as it was and does nothing; or
  -- the file's services are those of the manager, and every worker has just their sites deployed, each
  -- serving with a service that the factory of the file's configuration for it has made.
  pub reload_file-FileOutcome :
      (m : Manager b p) (file : Option p.Content) (keys_of : ServiceConfigMap b p → List String)
      → ((latest : p.Content) (new : ServiceConfigMap b p)
          → file ≡ some latest
          → p.parse_service_config latest ≡ ok new
          → IsUnion b p m.online_services new (keys_of new))
      → ((latest : p.Content) (new : ServiceConfigMap b p)
          → file ≡ some latest
          → p.parse_service_config latest ≡ ok new
          → ListenersBuild b p new)
      → ManagerInSync m
      → FileOutcome m file (reload_file b p m file keys_of)
  unfolding reload_file
  reload_file-FileOutcome m none keys_of u built h = unread
  reload_file-FileOutcome m (some latest) keys_of u built h =
      elim (Bool-cases (p.same_content m.online_config_content latest)) [
        | inl same ↦ rw (same, reload_file) (unchanged latest same)
        | inr other ↦ rw (other, reload_file) parsed
      ]
    where
      parsed : FileOutcome m (some latest) (elim (p.parse_service_config latest) [
        | err e ↦ some (err (parse_failed e), m)
        | ok new ↦ reload_services b p m.workers m.online_services new (keys_of new) >>= λ r.
            some (after_reload b p m latest new r)
      ])
      parsed = elim (Result-cases (p.parse_service_config latest)) [
        | inr (x, e) ↦ rw e (unparsed latest x e)
        | inl (new, e) ↦ rw e (
            from_services m latest new _ e (
              reload_services-Outcome b p m.online_services new (keys_of new) m.workers
                (u latest new refl e) (built latest new refl e) h))
      ]
