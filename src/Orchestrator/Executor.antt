-- ===== src/Orchestrator/Executor.antt =====
-- monolake-core/src/orchestrator/service_executor.rs: `ServiceExecutor`, its sites, and `execute`.
-- A `ServiceSlot` is shared between its site and the server that `serve` runs, so slots stand in a
-- store and a slot is its number there; the stop channel made with it has the same number.
pub mod Inv
pub mod Views
pub mod Stages
pub mod Examples
use Prim.Native.String.{String}
use text.Mathlib.Text.{◌==◌ as str_eq}
use monolake.Base.{
  ℕ, Bool, true, false, List, [], ◌∷◌, ◌++◌, Option, none, some, if◌then◌else◌, length, get_elem?,
  set, Result, ok, err,
}
use monolake.Base.Panic.{◌>>=◌}

-- The traits `AsyncMakeService` of the two factories, which the program takes from service_async.
pub record Factories : Type 1 where
  pub S : Type 0
  pub L : Type 0
  pub F : Type 0
  pub LF : Type 0
  pub SE : Type 0
  pub LE : Type 0
  pub make_via_ref : F → Option S → Result S SE
  pub make_listener : LF → Result L LE

pub data ServiceCommandError : Type 0 where
  site_lookup_failed service_not_staged service_not_deployed : ServiceCommandError

module _ (b : Factories) where
  open b use {S, L, F, LF, SE, LE, make_via_ref, make_listener}

  -- `ServiceDeploymentContainer`.
  pub record Container : Type 0 where
    pub committed : Option ℕ
    pub precommitted : Option S

  -- A running `serve(listener, handler, stop)`.
  pub record Server : Type 0 where
    pub listener : L
    pub slot : ℕ

  -- `sites`, the store of the slots, the servers that were spawned, and the stop channels whose
  -- receiver was dropped: their servers stop.
  pub record Executor : Type 0 where
    pub sites : String → Option Container
    pub slots : List S
    pub servers : List Server
    pub stopped : List ℕ

  pub data ServiceCommand : Type 0 where
    precommit : String → F → ServiceCommand
    update : String → ServiceCommand
    commit : String → LF → ServiceCommand
    prepare_and_commit : String → F → LF → ServiceCommand
    abort : String → ServiceCommand
    remove : String → ServiceCommand

  pub data CommandError : Type 0 where
    build_service : SE → CommandError
    build_listener : LE → CommandError
    site_not_exist preparation_not_exist previous_handler_not_exist : CommandError

  pub init : Executor
  init = record { sites = λ _. none; slots = []; servers = []; stopped = [] }

  abbrev pub put_site :
      (String → Option Container) → String → Option Container → String → Option Container
  put_site sites name c other = if str_eq name other then c else sites other

  -- The drop of a container's `_stop`.
  abbrev pub stop : Option ℕ → List ℕ → List ℕ
  stop none stopped = stopped
  stop (some slot) stopped = slot ∷ stopped

  abbrev pub committed_of : Executor → String → Option ℕ
  committed_of s name = s.sites name >>= λ c. c.committed

  abbrev pub staged_of : Executor → String → Option S
  staged_of s name = s.sites name >>= λ c. c.precommitted

  pub get_svc : Executor → String → Option S
  get_svc s name = committed_of s name >>= λ slot. get_elem? s.slots slot

  pub precommit_svc : Executor → String → S → Executor
  precommit_svc s name svc = record s {
    sites =
        put_site s.sites name
          (some (record { committed = committed_of s name; precommitted = some svc }));
  }

  -- `take` leaves the staged slot empty; `update_svc` writes the slot that the server shares.
  pub update_with_precommitted_svc : Executor → String → Result Executor ServiceCommandError
  update_with_precommitted_svc s name = elim (s.sites name) [
    | none ↦ err site_lookup_failed
    | some site ↦ elim site.committed [
      | none ↦ err service_not_deployed
      | some slot ↦ elim site.precommitted [
        | none ↦ err service_not_staged
        | some svc ↦ ok (record s {
          sites = put_site s.sites name (some (record site { precommitted = none }));
          slots = set s.slots slot svc;
        })
      ]
    ]
  ]

  -- The new slot, with the state in which an earlier deployment of the site is stopped.
  pub deploy_staged_service : Executor → String → Result (ℕ × Executor) ServiceCommandError
  deploy_staged_service s name = elim (s.sites name) [
    | none ↦ err site_lookup_failed
    | some site ↦ elim site.precommitted [
      | none ↦ err service_not_staged
      | some svc ↦ ok (
        length s.slots,
        record s {
          sites =
              put_site s.sites name
                (some (record { committed = some (length s.slots); precommitted = none }));
          slots = s.slots ++ svc ∷ [];
          stopped = stop site.committed s.stopped;
        },
      )
    ]
  ]

  pub remove_site : Executor → String → Result Executor ServiceCommandError
  remove_site s name = elim (s.sites name) [
    | none ↦ err site_lookup_failed
    | some site ↦
        ok
          (record s { sites = put_site s.sites name none; stopped = stop site.committed s.stopped })
  ]

  pub abort_site : Executor → String → Result Executor ServiceCommandError
  abort_site s name = elim (s.sites name) [
    | none ↦ err site_lookup_failed
    | some site ↦
        ok (record s { sites = put_site s.sites name (some (record site { precommitted = none })) })
  ]

  -- `From<ServiceCommandError> for CommandError`.
  abbrev pub from_error : ServiceCommandError → CommandError
  from_error site_lookup_failed = site_not_exist
  from_error service_not_staged = preparation_not_exist
  from_error service_not_deployed = previous_handler_not_exist

  -- `monoio::spawn(serve(listener, hdr, stop))`.
  pub spawn_serve : Executor → L → ℕ → Executor
  spawn_serve s listener slot = record s {
    servers = record { listener = listener; slot = slot } ∷ s.servers;
  }

  -- The result of a command, with the state after it, whether it failed or not.
  abbrev pub Outcome : Type 0
  Outcome = Result (Unit {0}) CommandError × Executor

  abbrev pub finish : Executor → Result Executor ServiceCommandError → Outcome
  finish s (ok t) = (ok tt, t)
  finish s (err e) = (err (from_error e), s)

  -- The last two steps of `Commit` and of `PrepareAndCommit`.
  pub deploy_and_serve : Executor → String → L → Outcome
  deploy_and_serve s name listener = elim (deploy_staged_service s name) [
    | err e ↦ (err (from_error e), s)
    | ok (slot, t) ↦ (ok tt, spawn_serve t listener slot)
  ]

  pub execute : Executor → ServiceCommand → Outcome
  execute s (precommit name factory) = elim (make_via_ref factory (get_svc s name)) [
    | err e ↦ (err (build_service e), s)
    | ok svc ↦ (ok tt, precommit_svc s name svc)
  ]
  execute s (update name) = finish s (update_with_precommitted_svc s name)
  execute s (commit name listener_factory) = elim (make_listener listener_factory) [
    | err e ↦ (err (build_listener e), s)
    | ok listener ↦ deploy_and_serve s name listener
  ]
  execute s (prepare_and_commit name factory listener_factory) = elim (make_via_ref factory none) [
    | err e ↦ (err (build_service e), s)
    | ok svc ↦ elim (make_listener listener_factory) [
      | err e ↦ (err (build_listener e), s)
      | ok listener ↦ deploy_and_serve (precommit_svc s name svc) name listener
    ]
  ]
  execute s (abort name) = finish s (abort_site s name)
  execute s (remove name) = finish s (remove_site s name)

  -- `ServiceExecutor::run`: the commands in turn, each with its result sent back.
  pub run : Executor → List ServiceCommand → List (Result (Unit {0}) CommandError) × Executor
  run s [] = ([], s)
  run s (cmd ∷ cmds) = let (r, t) = execute s cmd in let (rs, u) = run t cmds in (r ∷ rs, u)
