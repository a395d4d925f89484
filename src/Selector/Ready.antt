-- ===== src/Selector/Ready.antt =====
-- A load balancer that was built has an endpoint for every request.
use mathlib.Core.Path.{Path, subst}
use native.Mathlib.Nat.{mod-lt}
use monolake.Base.{
  ℕ, zero, suc, ◌+◌, ◌-◌, ◌%◌, ◌<◌, ◌≤◌, min, List, [], ◌∷◌, map, some, ltb, ◌==◌, length,
  get_elem?, Result, ok, err, Result-cases, Bool-cases, inl, inr, ◌≡◌, refl, sym, ap, ◌∙◌, arith,
  get_elem?-some,
}
use monolake.Selector.{
  Rand, RandLaws, WeightedRandomSelector, LoadBalancer, lb_random, lb_weighted_random,
  lb_round_robin, lb_identity, random_new, random_select, weighted_new, weighted_new_from_iter,
  weighted_select, round_robin_new, round_robin_select, identity_select, LoadBalanceStrategy,
  random, weighted_random, round_robin, first, try_from_upstreams, select, take, pop, pop_while,
  invalid_weight, LoadBalanceError,
}

length-take : {T : Type 0} (n : ℕ) (xs : List T) → length (take n xs) ≤ n
length-take zero xs = omega arith
length-take (suc n) [] = omega arith
length-take (suc n) (x ∷ xs) = omega (arith, length-take n xs)

length-pop : {T : Type 0} (xs : List T) → length (pop xs) ≡ length xs - 1
length-pop [] = refl
length-pop (x ∷ []) = refl
length-pop (x ∷ y ∷ xs) = ground (arith, length-pop (y ∷ xs))

-- On enough fuel the loop ends with as many elements as were counted.
length-pop_while :
    {T : Type 0} (fuel cnt : ℕ) (xs : List T)
    → length xs ≤ fuel
    → length (pop_while fuel cnt xs) ≡ min cnt (length xs)
length-pop_while zero cnt xs h = omega arith
length-pop_while (suc fuel) cnt xs h = elim (Bool-cases (ltb cnt (length xs))) [
  | inl longer ↦ rw longer (
      length-pop_while fuel cnt (pop xs) (omega (arith, length-pop xs))
      ∙ ground (arith, longer, length-pop xs))
  | inr fits ↦ rw fits (ground (arith, fits))
]

take-pop : {T : Type 0} (n : ℕ) (xs : List T) → n < length xs → take n (pop xs) ≡ take n xs
take-pop zero xs h = refl
take-pop (suc n) [] h = refl
take-pop (suc n) (x ∷ []) h = absurd (omega arith)
take-pop (suc n) (x ∷ y ∷ xs) h = ap (λ l. x ∷ l) (take-pop n (y ∷ xs) (omega arith))

take-all : {T : Type 0} (n : ℕ) (xs : List T) → length xs ≤ n → take n xs ≡ xs
take-all zero [] h = refl
take-all zero (x ∷ xs) h = absurd (omega arith)
take-all (suc n) [] h = refl
take-all (suc n) (x ∷ xs) h = ap (λ l. x ∷ l) (take-all n xs (omega arith))

-- The elements that the loop leaves are the first ones.
pop_while-take :
    {T : Type 0} (fuel cnt : ℕ) (xs : List T)
    → length xs ≤ fuel
    → pop_while fuel cnt xs ≡ take cnt xs
pop_while-take zero cnt xs h = sym (take-all cnt xs (omega arith))
pop_while-take (suc fuel) cnt xs h = elim (Bool-cases (ltb cnt (length xs))) [
  | inl longer ↦ rw longer (
      pop_while-take fuel cnt (pop xs) (omega (arith, length-pop xs))
      ∙ take-pop cnt xs (ground (arith, longer)))
  | inr fits ↦ rw fits (sym (take-all cnt xs (ground (arith, fits))))
]

take-length-take :
    {A B : Type 0} (xs : List A) (ys : List B)
    → take (length (take (length xs) ys)) xs ≡ take (length ys) xs
take-length-take [] [] = refl
take-length-take [] (y ∷ ys) = refl
take-length-take (x ∷ xs) [] = refl
take-length-take (x ∷ xs) (y ∷ ys) = ap (λ l. x ∷ l) (take-length-take xs ys)

module _ (r : Rand) (T : Type 0) where
  -- A selector that can always select.
  abbrev pub IsReady : LoadBalancer r T → Type 0
  IsReady (lb_random s) = 0 < length s.collection
  IsReady (lb_weighted_random s) = (seed : r.Seed) → r.sample s.dist seed < length s.collection
  IsReady (lb_round_robin s) = s.next_idx < length s.collection
  IsReady (lb_identity s) = Unit {0}

  abbrev pub endpoints : LoadBalancer r T → List T
  endpoints (lb_random s) = s.collection
  endpoints (lb_weighted_random s) = s.collection
  endpoints (lb_round_robin s) = s.collection
  endpoints (lb_identity s) = s.item ∷ []

  length-map : {A B : Type 0} (f : A → B) (xs : List A) → length (map f xs) ≡ length xs
  length-map f [] = refl
  length-map f (x ∷ xs) = ap suc (length-map f xs)

  -- Whatever the strategy, and by the laws of the random source, there is no load balancer over no
  -- upstreams: the construction returns an error.
  pub try_from_upstreams-empty :
      (laws : RandLaws r) (lb : LoadBalanceStrategy) (s : r.Seed)
      → (e : LoadBalanceError r T) × (try_from_upstreams r T lb [] ≡ err e)
  unfolding try_from_upstreams random_new round_robin_new weighted_new_from_iter
  try_from_upstreams-empty laws random s = (_, refl)
  try_from_upstreams-empty laws weighted_random s = elim (Result-cases (r.weighted_index [])) [
    | inl (d, e) ↦ absurd (omega (arith, laws.sample_lt [] d s e))
    | inr (x, e) ↦ (invalid_weight x, ground (arith, e))
  ]
  try_from_upstreams-empty laws round_robin s = (_, refl)
  try_from_upstreams-empty laws first s = (_, refl)

  -- The endpoints of a load balancer are upstreams, and it is ready.
  abbrev pub IsBuiltFrom : List (T × ℕ) → LoadBalancer r T → Type 0
  IsBuiltFrom ups lb =
      IsReady lb
      × ((i : ℕ) (t : T)
          → get_elem? (endpoints lb) i ≡ some t
          → get_elem? (map (λ up. up.0) ups) i ≡ some t)

  ok-inj : {A E : Type 0} {x y : A} → Path (Result A E) (ok x) (ok y) → x ≡ y
  ok-inj e = cc

  -- A load balancer that was built from upstreams is ready to select, by the laws of the random source,
  -- and its endpoints are among theirs.
  pub try_from_upstreams-IsBuiltFrom :
      (laws : RandLaws r) (strategy : LoadBalanceStrategy) (ups : List (T × ℕ))
      (lb : LoadBalancer r T)
      → try_from_upstreams r T strategy ups ≡ ok lb
      → IsBuiltFrom ups lb
  unfolding try_from_upstreams random_new round_robin_new weighted_new_from_iter
  try_from_upstreams-IsBuiltFrom laws random [] lb h = cc
  try_from_upstreams-IsBuiltFrom laws random (up ∷ ups) lb h =
      subst (IsBuiltFrom (up ∷ ups)) (ok-inj h) (omega arith, λ i t e. e)
  try_from_upstreams-IsBuiltFrom laws weighted_random ups lb h =
      elim (Result-cases (r.weighted_index (map (λ up. up.1) ups))) [
        | inr (x, e) ↦ absurd (ground (arith, e, h))
        | inl (d, e) ↦
            let q : ◌≡◌ {A = LoadBalancer r T}
                (lb_weighted_random (record { collection = map (λ up. up.0) ups; dist = d })) lb =
              ground (arith, e, h) in
            subst (IsBuiltFrom ups) q (
              (λ seed. ground (
                arith,
                laws.sample_lt _ d seed e,
                length-map (λ up. up.0) ups,
                length-map (λ up. up.1) ups,
              )),
              λ i t q. q,
            )
      ]
  try_from_upstreams-IsBuiltFrom laws round_robin [] lb h = cc
  try_from_upstreams-IsBuiltFrom laws round_robin (up ∷ ups) lb h =
      subst (IsBuiltFrom (up ∷ ups)) (ok-inj h) (omega arith, λ i t e. e)
  try_from_upstreams-IsBuiltFrom laws first [] lb h = cc
  try_from_upstreams-IsBuiltFrom laws first (up ∷ ups) lb h =
      subst (IsBuiltFrom (up ∷ ups)) (ok-inj h) (tt, only up ups)
    where
      only :
          (up : T × ℕ) (ups : List (T × ℕ)) (i : ℕ) (t : T)
          → get_elem? (up.0 ∷ []) i ≡ some t
          → get_elem? (map (λ up. up.0) (up ∷ ups)) i ≡ some t
      only up ups zero t e = e
      only up ups (suc i) t e = cc

  -- If `WeightedRandomSelector::new` succeeds, the elements beyond the weights are dropped and so are the
  -- weights beyond the elements: the selector has as many of the first elements as there are weights, its
  -- index is made of the first weights, and the index drawn, by the laws of the random source, is that of
  -- an element.
  pub weighted_new-IsReady :
      (laws : RandLaws r) (collection : List T) (weights : List ℕ) (s : WeightedRandomSelector r T)
      → weighted_new r T collection weights ≡ ok s
      → (s.collection ≡ take (length weights) collection)
        × (r.weighted_index (take (length collection) weights) ≡ ok s.dist)
        × IsReady (lb_weighted_random s)
  unfolding weighted_new
  weighted_new-IsReady laws collection weights s h = elim (Result-cases (r.weighted_index used)) [
    | inr (x, e) ↦ absurd (ground (arith, e, h))
    | inl (d, e) ↦
        let q : ◌≡◌ {A = WeightedRandomSelector r T} (record { collection = kept; dist = d }) s =
          ground (arith, e, h) in
        subst
          (λ (s : WeightedRandomSelector r T).
            (s.collection ≡ take (length weights) collection)
            × (r.weighted_index used ≡ ok s.dist)
            × IsReady (lb_weighted_random s))
          q (firsts, e, λ seed. ground (arith, laws.sample_lt used d seed e, same))
  ]
    where
      used : List ℕ
      used = take (length collection) weights

      kept : List T
      kept = pop_while (length collection) (length used) collection

      firsts : kept ≡ take (length weights) collection
      firsts =
          pop_while-take (length collection) (length used) collection (omega arith)
          ∙ take-length-take collection weights

      same : length kept ≡ length used
      same =
          length-pop_while (length collection) (length used) collection (omega arith)
          ∙ ground (arith, length-take (length collection) weights)

  -- A ready load balancer selects one of its endpoints, without a panic, by the laws of the random
  -- source, and stays ready, with the same endpoints.
  pub select-IsReady :
      (laws : RandLaws r) (lb : LoadBalancer r T) (seed : r.Seed)
      → IsReady lb
      → (t : T) × (lb' : LoadBalancer r T) × (i : ℕ) × (select r T lb seed ≡ some (t, lb'))
        × (get_elem? (endpoints lb) i ≡ some t)
        × (endpoints lb' ≡ endpoints lb)
        × IsReady lb'
  unfolding select random_select weighted_select round_robin_select identity_select
  select-IsReady laws (lb_random s) seed h = elim (Bool-cases (length s.collection == 1)) [
    | inl single ↦
        let (t, e) = get_elem?-some s.collection 0 h in
        (t, lb_random s, 0, rw single (rw e), e, refl, h)
    | inr more ↦
        let i : ℕ = r.choose seed (length s.collection) in
        let (t, e) = get_elem?-some s.collection i (laws.choose_lt seed _ h) in
        (t, lb_random s, i, rw more (rw e), e, refl, h)
  ]
  select-IsReady laws (lb_weighted_random s) seed h =
      let (t, e) = get_elem?-some s.collection _ (h seed) in
      (t, lb_weighted_random s, _, rw e, e, refl, h)
  select-IsReady laws (lb_round_robin s) seed h =
      let (t, e) = get_elem?-some s.collection s.next_idx h in
      (
        t,
        lb_round_robin (record s { next_idx = (s.next_idx + 1) % length s.collection }),
        s.next_idx,
        ground (arith, e, h),
        e,
        refl,
        mod-lt (s.next_idx + 1) (omega (arith, h)),
      )
  select-IsReady laws (lb_identity s) seed h = (s.item, lb_identity s, 0, refl, refl, refl, tt)
