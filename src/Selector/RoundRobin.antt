-- ===== src/Selector/RoundRobin.antt =====
-- `RoundRobinSelector` takes the elements in turn.
use monolake.Base.{
  ℕ, zero, suc, ◌+◌, ◌%◌, List, [], ◌∷◌, ◌++◌, Option, some, Option-cases, inl, inr, length,
  get_elem?, ◌≡◌, refl, ap, ◌∙◌, arith,
}
use native.Mathlib.Nat.{mod_self, mod-eq_of_lt}
use monolake.Base.Panic.{◌>>=◌}
use monolake.Selector.{Rand, RoundRobinSelector, round_robin_select}

module _ (r : Rand) (T : Type 0) where
  abbrev at : List T → ℕ → RoundRobinSelector r T
  at c i = record { collection = c; next_idx = i }

  -- `n` selections one after another.
  abbrev pub selects : ℕ → RoundRobinSelector r T → Option (List T × RoundRobinSelector r T)
  selects zero s = some ([], s)
  selects (suc n) s = round_robin_select r T s >>= λ p. selects n p.1 >>= λ q. some (p.0 ∷ q.0, q.1)

  abbrev drop : ℕ → List T → List T
  drop zero c = c
  drop (suc i) [] = []
  drop (suc i) (x ∷ c) = drop i c

  drop-head :
      (c : List T) (i : ℕ) (y : T) (ys : List T)
      → drop i c ≡ y ∷ ys
      → (get_elem? c i ≡ some y) × (drop (suc i) c ≡ ys) × (length c ≡ i + suc (length ys))
  drop-head [] zero y ys h = cc
  drop-head [] (suc i) y ys h = cc
  drop-head (x ∷ c) zero y ys h = (cc, cc, ap length h ∙ omega arith)
  drop-head (x ∷ c) (suc i) y ys h =
      let (g, d, l) = drop-head c i y ys h in (g, d, omega (arith, l))

  drop-append : (xs ys : List T) → drop (length xs) (xs ++ ys) ≡ ys
  drop-append [] ys = refl
  drop-append (x ∷ xs) ys = drop-append xs ys

  select-middle :
      (c : List T) (i : ℕ) (y z : T) (zs : List T)
      → drop i c ≡ y ∷ z ∷ zs
      → round_robin_select r T (at c i) ≡ some (y, at c (suc i))
  unfolding round_robin_select
  select-middle c i y z zs h =
      let (g, d, l) = drop-head c i y (z ∷ zs) h in
      let m : suc i % length c ≡ suc i = mod-eq_of_lt (omega (arith, l)) in ground (arith, g, l, m)

  select-last :
      (c : List T) (i : ℕ) (y : T)
      → drop i c ≡ y ∷ []
      → round_robin_select r T (at c i) ≡ some (y, at c 0)
  unfolding round_robin_select
  select-last c i y h =
      let (g, d, l) = drop-head c i y [] h in
      let m : suc i % length c ≡ 0 = ap (λ n. suc i % n) (omega (arith, l)) ∙ mod_self (suc i) in
      ground (arith, g, l, m)

  -- Selections that stay before the end, and those that reach it.
  selects-middle :
      (c : List T) (i : ℕ) (ys : List T) (z : T) (zs : List T)
      → drop i c ≡ ys ++ z ∷ zs
      → selects (length ys) (at c i) ≡ some (ys, at c (i + length ys))
  selects-middle c i [] z zs h = ground arith
  selects-middle c i (y ∷ []) z zs h = rw (select-middle c i y z zs h) (ground arith)
  selects-middle c i (y ∷ w ∷ ys) z zs h = rw (select-middle c i y w (ys ++ z ∷ zs) h) (
      rw (selects-middle c (suc i) (w ∷ ys) z zs (drop-head c i y (w ∷ (ys ++ z ∷ zs)) h).1)
        (ground arith))

  selects-last :
      (c : List T) (i : ℕ) (y : T) (ys : List T)
      → drop i c ≡ y ∷ ys
      → selects (suc (length ys)) (at c i) ≡ some (y ∷ ys, at c 0)
  selects-last c i y [] h = rw (select-last c i y h)
  selects-last c i y (w ∷ ys) h =
      rw (select-middle c i y w ys h)
        (rw (selects-last c (suc i) w ys (drop-head c i y (w ∷ ys) h).1))

  selects-add :
      (m n : ℕ) (s t u : RoundRobinSelector r T) (xs ys : List T)
      → selects m s ≡ some (xs, t)
      → selects n t ≡ some (ys, u)
      → selects (m + n) s ≡ some (xs ++ ys, u)
  selects-add zero n s t u xs ys h k = ground (arith, h, k)
  selects-add (suc m) n s t u xs ys h k = elim (Option-cases (round_robin_select r T s)) [
    | inl none_left ↦ absurd (ground (arith, none_left, h))
    | inr (p, e) ↦ elim (Option-cases (selects m p.1)) [
      | inl none_left ↦ absurd (ground (arith, e, none_left, h))
      | inr (q, f) ↦
          (ground (
            arith,
            h,
            e,
            f,
            selects-add m n p.1 q.1 u q.0 ys f (ground (arith, h, e, f, k)),
            regroup,
          ))
    ]
  ]
    where
      shift : suc m + n ≡ suc (m + n)
      shift = omega arith

      regroup : selects (suc m + n) s ≡ selects (suc (m + n)) s
      regroup = ap (λ j. selects j s) shift

  -- From any position, as many selections as there are elements take each position once, in cyclic
  -- order, and come back to where they started.
  pub selects-cycle :
      (xs : List T) (y : T) (ys : List T)
      → selects (length (y ∷ ys) + length xs) (at (xs ++ y ∷ ys) (length xs))
        ≡ some ((y ∷ ys) ++ xs, at (xs ++ y ∷ ys) (length xs))
  selects-cycle xs y ys =
      selects-add (length (y ∷ ys)) (length xs) _ (at (xs ++ y ∷ ys) 0) _ (y ∷ ys) xs
        (selects-last _ (length xs) y ys (drop-append xs (y ∷ ys)))
        (selects-middle _ 0 xs y ys refl ∙ ground arith)
