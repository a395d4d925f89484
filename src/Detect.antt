-- ===== src/Detect.antt =====
-- monolake-services/src/common/detect.rs and monolake-services/src/http/detect.rs: the detection of a
-- prefix of a connection, and the service that it chooses for.
pub mod Prefix
pub mod Fixed
pub mod Examples
use monolake.Base.{
  ℕ, zero, suc, ◌+◌, ◌-◌, Bool, true, false, ◌&&◌, List, [], ◌∷◌, ◌++◌, Option, none, some, ◌==◌,
  if◌then◌else◌, length, Result, ok, err, map_err, ◌≡◌,
}
use monolake.Base.Panic.{◌>>=◌}
use monolake.Stream.{Streams, PrefixedReadIo, slice, same}

module _ (s : Streams) where
  open s use {IO, Error, read}

  abbrev pub Detected : Type 0
  Detected = Result (Bool × PrefixedReadIo s) Error

  -- The loop of `PrefixDetector::detect`, with what follows it; `none` is a panic or no fuel. At the
  -- first `break`, `eq` is still true.
  pub detect_loop : ℕ → List ℕ → IO → ℕ → List ℕ → Option Detected
  detect_loop zero pattern io written buf = none
  detect_loop (suc fuel) pattern io written buf = elim (read io (length pattern - written)) [
    | err e ↦ some (err e)
    | ok (bytes, io') ↦
        let n = length bytes in
        let rest = detect_loop fuel pattern io' (written + n) (buf ++ bytes) in
        if n == 0
        then some (ok (written == length pattern, record { io = io'; prefix = buf }))
        else (slice pattern written (written + n) >>= λ expected.
            slice (buf ++ bytes) written (written + n) >>= λ found.
            if same expected found
            then rest
            else some (ok (false, record { io = io'; prefix = buf ++ bytes })))
  ]

  -- `PrefixDetector::detect`: each turn but the last reads a byte at least.
  pub detect : List ℕ → IO → Option Detected
  detect pattern io = detect_loop (suc (length pattern)) pattern io 0 []

  pub data DetectError (E : Type 0) : Type 0 where
    svc : E → DetectError E
    io_error : Error → DetectError E

  -- `DetectService::call`.
  pub call :
      {CX Resp E : Type 0} (pattern : List ℕ) (inner : Bool → PrefixedReadIo s → CX → Result Resp E)
      (io : IO) (cx : CX)
      → Option (Result Resp (DetectError E))
  call pattern inner io cx = detect pattern io >>= λ r. elim r [
    | err e ↦ some (err (io_error e))
    | ok (det, io') ↦ some (map_err svc (inner det io' cx))
  ]

-- `PREFACE`: PRI * HTTP/2.0, SM.
abbrev pub preface : List ℕ
preface =
    80 ∷ 82 ∷ 73 ∷ 32 ∷ 42 ∷ 32 ∷ 72 ∷ 84 ∷ 84 ∷ 80 ∷ 47 ∷ 50 ∷ 46 ∷ 48 ∷ 13 ∷ 10 ∷ 13 ∷ 10 ∷ 83
    ∷ 77 ∷ 13 ∷ 10 ∷ 13 ∷ 10 ∷ []
