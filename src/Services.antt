-- ===== src/Services.antt =====
-- The small services of monolake-services/src/common, which change what another service is given or
-- gives. A call is a function; `none` as its result is a panic.
mod Echo
use Prim.Native.String.{String}
use monolake.Base.{
  Bool, true, false, Option, none, some, if◌then◌else◌, Result, ok, err, map_ok, map_err,
  Option-cases, inl, inr, ◌≡◌, refl,
}
use monolake.Factories.{Make, map_made, old_of}

abbrev pub Call : Type 0 → Type 0 → Type 0 → Type 0
Call R A E = R → Option (Result A E)

abbrev pub and_then : {A B : Type 0} → (A → B) → Option A → Option B
and_then f none = none
and_then f (some a) = some (f a)

-- map.rs: a service with the function that rewrites its response, its error, or both. The three have
-- the same shape.
pub record Mapped (T F : Type 0) : Type 0 where
  pub inner : T
  pub rewrite_f : F

-- timeout.rs.
pub data TimeoutError (E : Type 0) : Type 0 where
  timeout_inner : E → TimeoutError E
  timeout : TimeoutError E

-- panic.rs; the text is the panic's.
pub data CatchPanicError (E : Type 0) : Type 0 where
  panic_inner : E → CatchPanicError E
  panic : String → CatchPanicError E

module _ {R A E : Type 0} where
  pub call_map : {B : Type 0} → (A → B) → Call R A E → Call R B E
  call_map rewrite_f inner req = and_then (map_ok rewrite_f) (inner req)

  pub call_map_err : {F : Type 0} → (E → F) → Call R A E → Call R A F
  call_map_err rewrite_f inner req = and_then (map_err rewrite_f) (inner req)

  pub call_fn_svc : {B F : Type 0} → (Result A E → Result B F) → Call R A E → Call R B F
  call_fn_svc rewrite_f inner req = and_then rewrite_f (inner req)

  -- Whether the timer fires before the inner service is done. A panic before that is one of the call.
  pub call_timeout : Bool → Call R A E → Call R A (TimeoutError E)
  call_timeout elapsed inner req =
      if elapsed then some (err timeout) else and_then (map_err timeout_inner) (inner req)

  -- The delay has no part in the result.
  pub call_delay : Call R A E → Call R A E
  call_delay inner req = inner req

  pub call_catch_panic : String → Call R A E → Call R A (CatchPanicError E)
  call_catch_panic text inner req = elim (inner req) [
    | none ↦ some (err (panic text))
    | some r ↦ some (map_err panic_inner r)
  ]

-- `make_via_ref` of all three in map.rs.
pub make_mapped : {I E F : Type 0} → F → Make I E → Make (Mapped I F) E
make_mapped rewrite_f inner old =
    map_made (λ i. record { inner = i; rewrite_f = rewrite_f }) (λ e. e)
      (inner (old_of (λ o. o.inner) old))

-- A service under `CatchPanicService` does not panic, whatever its inner one does.
pub call_catch_panic_total :
    {R A E : Type 0} (text : String) (inner : Call R A E) (req : R)
    → (r : Result A (CatchPanicError E)) × (call_catch_panic text inner req ≡ some r)
unfolding call_catch_panic
call_catch_panic_total text inner req = elim (Option-cases (inner req)) [
  | inl e ↦ (err (panic text), rw (e, call_catch_panic))
  | inr (r, e) ↦ (map_err panic_inner r, rw (e, call_catch_panic))
]
