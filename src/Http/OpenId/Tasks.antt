-- ===== src/Http/OpenId/Tasks.antt =====
-- The requests that one handler has at once. A schedule says which task goes on, and what the network
-- and the random numbers are then.
use monolake.Base.{
  ℕ, zero, suc, List, [], ◌∷◌, Option, none, some, some-inj, get_elem?, set, Option-cases, inl, inr,
  Result, ◌≡◌,
}
use mathlib.Core.Path.{subst}
use monolake.Http.Message.{HeaderMaps, Request, ResponseWithContinue}
use monolake.Http.OpenId.{OpenIdConfig, Crates, Store, Task, step}

module _ (c : Crates) where
  abbrev pub Moments : (c.Moment → Type 0) → List (ℕ × c.Moment) → Type 0
  Moments Q [] = Unit {0}
  Moments Q ((i, moment) ∷ schedule) = Q moment × Moments Q schedule

  pub Moments-Unit : (schedule : List (ℕ × c.Moment)) → Moments (λ moment. Unit {0}) schedule
  Moments-Unit [] = tt
  Moments-Unit ((i, moment) ∷ schedule) = (tt, Moments-Unit schedule)

module _ (c : Crates) (h : HeaderMaps) (RB B CX E : Type 0) where
  pub record World : Type 0 where
    pub store : Store c
    pub tasks : List (Task c h RB B CX E)

  abbrev pub empty_store : Store c
  empty_store = record { sessions = λ k. none; readers = 0 }

  abbrev pub arrived : List (Request h RB × CX) → List (Task c h RB B CX E)
  arrived [] = []
  arrived ((request, ctx) ∷ requests) = Task.start request ctx ∷ arrived requests

  -- The program has just started, and these requests come in.
  abbrev pub init : List (Request h RB × CX) → World
  init requests = record { store = empty_store; tasks = arrived requests }

  module _ (config : Option OpenIdConfig)
      (inner : Request h RB → CX → Result (ResponseWithContinue h B) E) where
    abbrev pub go : World → ℕ → Task c h RB B CX E × Store c → World
    go w i r = record { store = r.1; tasks = set w.tasks i r.0 }

    unfoldable pub advance : ℕ → c.Moment → World → World
    advance i moment w = elim (get_elem? w.tasks i) [
      | none ↦ w
      | some task ↦ go w i (step c h RB B CX E config inner moment task w.store)
    ]

    unfoldable pub run : List (ℕ × c.Moment) → World → World
    run [] w = w
    run ((i, moment) ∷ schedule) w = run schedule (advance i moment w)

    advance-Keeps :
        (P : Store c → Type 0) (i : ℕ) (moment : c.Moment)
        → ((task : Task c h RB B CX E) (store : Store c)
            → P store
            → P (step c h RB B CX E config inner moment task store).1)
        → (w : World) → P w.store
        → P (advance i moment w).store
    unfolding advance
    advance-Keeps P i moment keep w p = elim (Option-cases (get_elem? w.tasks i)) [
      | inl e ↦ rw (e, advance) p
      | inr (task, e) ↦ rw (e, advance) (keep task w.store p)
    ]

    -- What holds of the store and is kept by each step at such moments holds after a schedule.
    pub run-Keeps :
        (P : Store c → Type 0) (Q : c.Moment → Type 0)
        → ((moment : c.Moment) (task : Task c h RB B CX E) (store : Store c)
            → Q moment
            → P store
            → P (step c h RB B CX E config inner moment task store).1)
        → (schedule : List (ℕ × c.Moment)) (w : World) → Moments c Q schedule
        → P w.store
        → P (run schedule w).store
    unfolding run
    run-Keeps P Q keep [] w q p = p
    run-Keeps P Q keep ((i, moment) ∷ schedule) w (q, rest) p =
        run-Keeps P Q keep schedule (advance i moment w) rest
          (advance-Keeps P i moment (λ task store p'. keep moment task store q p') w p)

    abbrev pub AllTasks : (Task c h RB B CX E → Type 0) → List (Task c h RB B CX E) → Type 0
    AllTasks P [] = Unit {0}
    AllTasks P (task ∷ tasks) = P task × AllTasks P tasks

    set-AllTasks :
        (P : Task c h RB B CX E → Type 0) (tasks : List (Task c h RB B CX E)) (i : ℕ)
        (task : Task c h RB B CX E)
        → AllTasks P tasks
        → P task
        → AllTasks P (set tasks i task)
    set-AllTasks P [] i task a p = tt
    set-AllTasks P (t ∷ tasks) zero task a p = (p, a.1)
    set-AllTasks P (t ∷ tasks) (suc i) task a p = (a.0, set-AllTasks P tasks i task a.1 p)

    pub get_elem?-AllTasks :
        (P : Task c h RB B CX E → Type 0) (tasks : List (Task c h RB B CX E)) (i : ℕ)
        (task : Task c h RB B CX E)
        → AllTasks P tasks
        → get_elem? tasks i ≡ some task
        → P task
    get_elem?-AllTasks P [] i task a e = absurd (cc e)
    get_elem?-AllTasks P (t ∷ tasks) zero task a e = subst P (some-inj e) a.0
    get_elem?-AllTasks P (t ∷ tasks) (suc i) task a e = get_elem?-AllTasks P tasks i task a.1 e

    pub arrived-AllTasks :
        (P : Task c h RB B CX E → Type 0) (requests : List (Request h RB × CX))
        → ((request : Request h RB) (ctx : CX) → P (Task.start request ctx))
        → AllTasks P (arrived requests)
    arrived-AllTasks P [] p = tt
    arrived-AllTasks P ((request, ctx) ∷ requests) p =
        (p request ctx, arrived-AllTasks P requests p)

    -- What holds of each task, and is kept by its steps, holds of all of them after a schedule.
    pub run-AllTasks :
        (P : Task c h RB B CX E → Type 0)
        → ((moment : c.Moment) (task : Task c h RB B CX E) (store : Store c)
            → P task
            → P (step c h RB B CX E config inner moment task store).0)
        → (schedule : List (ℕ × c.Moment)) (w : World) → AllTasks P w.tasks
        → AllTasks P (run schedule w).tasks
    unfolding run advance
    run-AllTasks P keep [] w a = a
    run-AllTasks P keep ((i, moment) ∷ schedule) w a =
        run-AllTasks P keep schedule (advance i moment w)
          (elim (Option-cases (get_elem? w.tasks i)) [
            | inl e ↦ rw (e, advance) a
            | inr (task, e) ↦
                rw (e, advance)
                  (set-AllTasks P w.tasks i _ a
                    (keep moment task w.store (get_elem?-AllTasks P w.tasks i task a e)))
          ])
