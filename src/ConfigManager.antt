-- ===== src/ConfigManager.antt =====
-- monolake/src/config/manager.rs: `StaticFileConfigManager`, which brings the workers in step with
-- the services of a configuration file. `none` as a result is a panic.
pub mod Diff
pub mod Rollback
pub mod Staged
pub mod Services
pub mod Commit
pub mod Reload
pub mod ReloadFile
pub mod Watch
mod Examples
use Prim.Native.String.{String}
use text.Mathlib.Text.{◌==◌ as str_eq}
use monolake.Base.{
  Bool, true, false, List, [], ◌∷◌, Option, none, some, if◌then◌else◌, Result, ok, err, ◌≡◌,
  Result-cases, inl, inr,
}
use monolake.Base.Panic.{◌>>=◌}
use monolake.Orchestrator.Executor.{
  Factories, ServiceCommand, precommit, update, commit, abort, remove,
}
use monolake.Orchestrator.Workers.{Worker, AnyError, Reply, dispatch, group_err}

-- The configuration types and the two factory providers, which `main` passes in, the comparison of
-- two file contents, and `Config::parse_service_config`.
pub record Providers (b : Factories) : Type 1 where
  pub ServerConfig : Type 0
  pub ListenerConfig : Type 0
  pub Content : Type 0
  pub LoadError : Type 0
  pub server_factory : ServerConfig → b.F
  pub listener_factory : ListenerConfig → b.LF
  pub same_content : Content → Content → Bool
  pub parse_service_config :
      Content → Result (List (String × ListenerConfig × ServerConfig)) LoadError

module _ (b : Factories) (p : Providers b) where
  open p use {
    ServerConfig, ListenerConfig, Content, LoadError, server_factory, listener_factory,
    same_content, parse_service_config,
  }

  -- `ServiceConfigMap`: each name once, with the listener and the server of its `ServiceConfig`.
  abbrev pub ServiceConfigMap : Type 0
  ServiceConfigMap = List (String × ListenerConfig × ServerConfig)

  abbrev pub find : String → ServiceConfigMap → Option (ListenerConfig × ServerConfig)
  find key [] = none
  find key ((name, listener, server) ∷ m) =
      if str_eq name key then some (listener, server) else find key m

  abbrev pub contains : String → ServiceConfigMap → Bool
  contains key [] = false
  contains key ((name, listener, server) ∷ m) = if str_eq name key then true else contains key m

  pub data Patch : Type 0 where
    insert : String → ListenerConfig → ServerConfig → Patch
    update_server : String → ServerConfig → Patch
    delete : String → Patch

  -- One round of the loop of `diff`; `get(key).unwrap()` and the illegal key panic.
  pub patch_of : ServiceConfigMap → ServiceConfigMap → String → Option Patch
  patch_of old new key =
      if contains key old
      then (if contains key new
          then (find key new >>= λ c. some (update_server key c.1))
          else some (delete key))
      else (if contains key new then (find key new >>= λ c. some (insert key c.0 c.1)) else none)

  -- `diff`, over the keys of either map in the order in which the hash set gives them.
  pub diff : ServiceConfigMap → ServiceConfigMap → List String → Option (List Patch)
  diff old new [] = some []
  diff old new (key ∷ all_keys) = do
    patch ← patch_of old new key
    patches ← diff old new all_keys
    some (patch ∷ patches)

  abbrev pub Step : Type 0
  Step = Reply b × List (Worker b)

  -- A command to all workers, and the rest of the loop unless a worker fails.
  abbrev pub try : List (Worker b) → ServiceCommand b → (List (Worker b) → Step) → Step
  try ws cmd rest =
      let (replies, ws') = dispatch b ws cmd in
      elim (group_err b replies) [ ok _ ↦ rest ws' | err e ↦ (err e, ws') ]

  -- What the prepare stage and `abort` do for a patch: nothing for a deletion.
  abbrev pub prepare_command : Patch → Option (ServiceCommand b)
  prepare_command (insert key listener server) = some (precommit key (server_factory server))
  prepare_command (update_server key server) = some (precommit key (server_factory server))
  prepare_command (delete key) = none

  abbrev pub abort_command : Patch → Option (ServiceCommand b)
  abort_command (insert key listener server) = some (abort key)
  abort_command (update_server key server) = some (abort key)
  abort_command (delete key) = none

  pub prepare : List (Worker b) → List Patch → Step
  prepare ws [] = (ok tt, ws)
  prepare ws (patch ∷ patches) = elim (prepare_command patch) [
    | none ↦ prepare ws patches
    | some cmd ↦ try ws cmd (λ ws'. prepare ws' patches)
  ]

  abbrev pub commit_command : Patch → ServiceCommand b
  commit_command (insert key listener server) = commit key (listener_factory listener)
  commit_command (update_server key server) = update key
  commit_command (delete key) = remove key

  pub commit_all : List (Worker b) → List Patch → Step
  commit_all ws [] = (ok tt, ws)
  commit_all ws (patch ∷ patches) = try ws (commit_command patch) (λ ws'. commit_all ws' patches)

  -- `abort` discards the replies.
  pub abort_all : List (Worker b) → List Patch → List (Worker b)
  abort_all ws [] = ws
  abort_all ws (patch ∷ patches) = elim (abort_command patch) [
    | none ↦ abort_all ws patches
    | some cmd ↦ abort_all (dispatch b ws cmd).1 patches
  ]

  -- The `expect` on the result of `commit`.
  abbrev pub expect_committed : Step → Option Step
  expect_committed (ok _, ws) = some (ok tt, ws)
  expect_committed (err e, ws) = none

  -- The two stages of `reload_services`; `abort` has no error to return.
  pub run_stages : List (Worker b) → List Patch → Option Step
  run_stages ws patches =
      let (prepared, ws1) = prepare ws patches in
      elim prepared [
        | err e ↦ some (err e, abort_all ws1 patches)
        | ok _ ↦ expect_committed (commit_all ws1 patches)
      ]

  pub reload_services :
      List (Worker b) → ServiceConfigMap → ServiceConfigMap → List String → Option Step
  reload_services ws online new all_keys =
      diff online new all_keys >>= λ patches. run_stages ws patches

  pub record Manager : Type 0 where
    pub online_config_content : Content
    pub online_services : ServiceConfigMap
    pub workers : List (Worker b)

  pub data ReloadError : Type 0 where
    read_failed : ReloadError
    parse_failed : LoadError → ReloadError
    prepare_failed : AnyError b → ReloadError

  abbrev pub Reloaded : Type 0
  Reloaded = Result (Unit {0}) ReloadError × Manager

  abbrev pub after_reload : Manager → Content → ServiceConfigMap → Step → Reloaded
  after_reload m latest new (ok _, ws) =
      (ok tt, record { online_config_content = latest; online_services = new; workers = ws })
  after_reload m latest new (err e, ws) = (err (prepare_failed e), record m { workers = ws })

  -- `reload_file`, given what `file_read` returned.
  pub reload_file : Manager → Option Content → (ServiceConfigMap → List String) → Option Reloaded
  reload_file m none keys_of = some (err read_failed, m)
  reload_file m (some latest) keys_of =
      if same_content m.online_config_content latest then some (ok tt, m) else reload
    where
      reload : Option Reloaded
      reload = elim (parse_service_config latest) [
        | err e ↦ some (err (parse_failed e), m)
        | ok new ↦ reload_services m.workers m.online_services new (keys_of new) >>= λ r.
            some (after_reload m latest new r)
      ]

  -- To prove something of `try`: for the rest if the command succeeds, and if it fails.
  pub try_cases {ℓ} :
      (Q : Step → Type ℓ) (ws : List (Worker b)) (cmd : ServiceCommand b)
      (rest : List (Worker b) → Step)
      → (group_err b (dispatch b ws cmd).0 ≡ ok tt → Q (rest (dispatch b ws cmd).1))
      → ((e : AnyError b) → Q (err e, (dispatch b ws cmd).1))
      → Q (try ws cmd rest)
  try_cases Q ws cmd rest f g = elim (Result-cases (group_err b (dispatch b ws cmd).0)) [
    | inl (u, e) ↦ rw (e, try) (f e)
    | inr (x, e) ↦ rw (e, try) (g x)
  ]

  pub try_ok :
      (ws : List (Worker b)) (cmd : ServiceCommand b) (rest : List (Worker b) → Step)
      → group_err b (dispatch b ws cmd).0 ≡ ok tt
      → try ws cmd rest ≡ rest (dispatch b ws cmd).1
  try_ok ws cmd rest e = rw (e, try)
