-- ===== src/Orchestrator/Runtime.antt =====
-- monolake-core/src/orchestrator/runtime.rs on Linux and the runtime's part of
-- monolake-core/src/config/mod.rs: which runtime a worker gets. The builders of monoio are parameters;
-- one that fails makes the program panic, `none`.
use monolake.Base.{
  ℕ, Bool, true, false, ◌&&◌, ◌≤◌, Option, none, some, leb, if◌then◌else◌, ◌≡◌, arith,
}

pub data RuntimeType : Type 0 where
  io_uring legacy : RuntimeType

pub record RuntimeConfig : Type 0 where
  pub worker_threads : ℕ
  pub entries : ℕ
  pub sqpoll_idle : Option ℕ
  pub runtime_type : RuntimeType
  pub cpu_affinity : Bool
  pub thread_pool : Option ℕ

-- The parallelism that is available, if the system knows it, else FALLBACK_PARALLELISM.
abbrev pub default_workers : Option ℕ → ℕ
default_workers none = 1
default_workers (some n) = n

-- `RuntimeConfig::default`.
pub default_config : Option ℕ → RuntimeConfig
default_config parallelism = record {
  worker_threads = default_workers parallelism;
  entries = 32768;
  sqpoll_idle = none;
  runtime_type = io_uring;
  cpu_affinity = false;
  thread_pool = none;
}

abbrev pub min_sqpoll_idle_time : ℕ
min_sqpoll_idle_time = 1000

-- What the builder of a runtime with io_uring is told.
pub record UringBuilder (Pool : Type 0) : Type 0 where
  pub sqpoll : Option ℕ
  pub entries : ℕ
  pub pool : Option Pool

abbrev pub wants_uring : RuntimeType → Bool
wants_uring io_uring = true
wants_uring legacy = false

abbrev pub sqpoll_of : Option ℕ → Option ℕ
sqpoll_of none = none
sqpoll_of (some idle) = some (if leb min_sqpoll_idle_time idle then idle else min_sqpoll_idle_time)

abbrev pub uring_builder : {Pool : Type 0} → RuntimeConfig → Option Pool → UringBuilder Pool
uring_builder config thread_pool = record {
  sqpoll = sqpoll_of config.sqpoll_idle;
  entries = config.entries;
  pool = thread_pool;
}

pub data RuntimeWrapper (Uring Legacy : Type 0) : Type 0 where
  with_uring : Uring → RuntimeWrapper Uring Legacy
  with_legacy : Legacy → RuntimeWrapper Uring Legacy

abbrev pub wrapped : {R W : Type 0} → (R → W) → Option R → Option W
wrapped f none = none
wrapped f (some r) = some (f r)

module _ {Pool Uring Legacy : Type 0} (build_uring : UringBuilder Pool → Option Uring)
    (build_legacy : Option Pool → Option Legacy) (detect_uring : Bool) where
  -- `RuntimeWrapper::new`.
  pub new : RuntimeConfig → Option Pool → Option (RuntimeWrapper Uring Legacy)
  new config thread_pool =
      if wants_uring config.runtime_type && detect_uring
      then wrapped with_uring (build_uring (uring_builder config thread_pool))
      else wrapped with_legacy (build_legacy thread_pool)

-- The idle time that the kernel's thread is given is never below the least one.
pub sqpoll_of_bounds :
    (config : Option ℕ) (idle : ℕ) → sqpoll_of config ≡ some idle → min_sqpoll_idle_time ≤ idle
sqpoll_of_bounds none idle e = absurd (ground (arith, e))
sqpoll_of_bounds (some n) idle e = ground (arith, e)
