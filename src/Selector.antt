-- ===== src/Selector.antt =====
-- monolake-services/src/common/selector.rs: the selectors, `LoadBalancer`, and the services that are
-- chosen by them. `none` as a result is a panic. A selector is used through a shared reference, so a
-- selection returns the selector with its `Cell` as it is afterwards.
pub mod RoundRobin
pub mod Ready
pub mod Examples
use monolake.Base.{
  ℕ, zero, suc, ◌+◌, ◌%◌, ◌<◌, Bool, true, false, List, [], ◌∷◌, map, Option, none, some, ◌==◌, ltb,
  if◌then◌else◌, length, get_elem?, Result, ok, err, map_err, ◌≡◌,
}
use monolake.Base.Panic.{◌>>=◌}

-- The crate `rand`: `thread_rng()` at a call is a `Seed`, `choose` gives the index that
-- `SliceRandom::choose` takes in a slice of that length.
pub record Rand : Type 1 where
  pub Seed : Type 0
  pub WeightedIndex : Type 0
  pub WeightedError : Type 0
  pub choose : Seed → ℕ → ℕ
  pub weighted_index : List ℕ → Result WeightedIndex WeightedError
  pub sample : WeightedIndex → Seed → ℕ

-- What the crate documents: an index of the slice, or of the weights.
pub record RandLaws (r : Rand) : Type 0 where
  pub choose_lt : (s : r.Seed) (n : ℕ) → 0 < n → r.choose s n < n
  pub sample_lt :
      (weights : List ℕ) (d : r.WeightedIndex) (s : r.Seed)
      → r.weighted_index weights ≡ ok d
      → r.sample d s < length weights

pub data EmptyCollectionError : Type 0 where
  empty_collection : EmptyCollectionError

pub data LoadBalanceStrategy : Type 0 where
  random weighted_random round_robin first : LoadBalanceStrategy

abbrev pub is_empty : {T : Type 0} → List T → Bool
is_empty [] = true
is_empty (x ∷ xs) = false

-- `Vec::pop`.
abbrev pub pop : {T : Type 0} → List T → List T
pop [] = []
pop (x ∷ []) = []
pop (x ∷ y ∷ xs) = x ∷ pop (y ∷ xs)

-- `weights.into_iter().take(collection.len())`.
abbrev pub take : {T : Type 0} → ℕ → List T → List T
take zero xs = []
take (suc n) [] = []
take (suc n) (x ∷ xs) = x ∷ take n xs

-- `while collection.len() > cnt { collection.pop(); }`, on as much fuel as there are elements.
abbrev pub pop_while : {T : Type 0} → ℕ → ℕ → List T → List T
pop_while zero cnt collection = collection
pop_while (suc fuel) cnt collection =
    let rest = pop_while fuel cnt (pop collection) in
    if ltb cnt (length collection) then rest else collection

module _ (r : Rand) (T : Type 0) where
  open r use {Seed, WeightedIndex, WeightedError, choose, weighted_index, sample}

  pub record RandomSelector : Type 0 where
    pub collection : List T

  pub record WeightedRandomSelector : Type 0 where
    pub collection : List T
    pub dist : WeightedIndex

  pub record RoundRobinSelector : Type 0 where
    pub collection : List T
    pub next_idx : ℕ

  pub record IdentitySelector : Type 0 where
    pub item : T

  pub data LoadBalanceError : Type 0 where
    empty_upstream : LoadBalanceError
    invalid_weight : WeightedError → LoadBalanceError

  pub data LoadBalancer : Type 0 where
    lb_random : RandomSelector → LoadBalancer
    lb_weighted_random : WeightedRandomSelector → LoadBalancer
    lb_round_robin : RoundRobinSelector → LoadBalancer
    lb_identity : IdentitySelector → LoadBalancer

  pub random_new : List T → Result RandomSelector EmptyCollectionError
  random_new collection =
      if is_empty collection then err empty_collection else ok (record { collection = collection })

  pub random_select : RandomSelector → Seed → Option T
  random_select s seed =
      if length s.collection == 1
      then get_elem? s.collection 0
      else get_elem? s.collection (choose seed (length s.collection))

  -- `Count` counts the weights that `WeightedIndex::new` reads.
  pub weighted_new : List T → List ℕ → Result WeightedRandomSelector WeightedError
  weighted_new collection weights =
      let used = take (length collection) weights in
      elim (weighted_index used) [
        | err e ↦ err e
        | ok dist ↦ ok (record {
          collection = pop_while (length collection) (length used) collection;
          dist = dist;
        })
      ]

  -- `MapLast` pushes the elements on the collection while the weights are read.
  pub weighted_new_from_iter : List (T × ℕ) → Result WeightedRandomSelector WeightedError
  weighted_new_from_iter input = elim (weighted_index (map (λ i. i.1) input)) [
    | err e ↦ err e
    | ok dist ↦ ok (record { collection = map (λ i. i.0) input; dist = dist })
  ]

  pub weighted_select : WeightedRandomSelector → Seed → Option T
  weighted_select s seed = get_elem? s.collection (sample s.dist seed)

  pub round_robin_new : List T → Result RoundRobinSelector EmptyCollectionError
  round_robin_new collection =
      if is_empty collection
      then err empty_collection
      else ok (record { collection = collection; next_idx = 0 })

  -- A remainder by 0 panics.
  pub round_robin_select : RoundRobinSelector → Option (T × RoundRobinSelector)
  round_robin_select s =
      if length s.collection == 0
      then none
      else (get_elem? s.collection s.next_idx >>= λ t.
          some (t, record s { next_idx = (s.next_idx + 1) % length s.collection }))

  pub identity_select : IdentitySelector → T
  identity_select s = s.item

  -- `?` on a selector's error, with the `From` of `LoadBalanceError`.
  abbrev pub or_empty_upstream :
      {A : Type 0}
      → (A → LoadBalancer)
      → Result A EmptyCollectionError
      → Result LoadBalancer LoadBalanceError
  or_empty_upstream f (ok a) = ok (f a)
  or_empty_upstream f (err e) = err empty_upstream

  abbrev pub or_invalid_weight :
      {A : Type 0}
      → (A → LoadBalancer)
      → Result A WeightedError
      → Result LoadBalancer LoadBalanceError
  or_invalid_weight f (ok a) = ok (f a)
  or_invalid_weight f (err e) = err (invalid_weight e)

  abbrev pub first_of : List (T × ℕ) → Result LoadBalancer LoadBalanceError
  first_of [] = err empty_upstream
  first_of (up ∷ ups) = ok (lb_identity (record { item = up.0 }))

  -- The upstreams as `into_weighted_endpoint` gives them.
  pub try_from_upstreams : LoadBalanceStrategy → List (T × ℕ) → Result LoadBalancer LoadBalanceError
  try_from_upstreams random ups = or_empty_upstream lb_random (random_new (map (λ up. up.0) ups))
  try_from_upstreams weighted_random ups =
      or_invalid_weight lb_weighted_random (weighted_new_from_iter ups)
  try_from_upstreams round_robin ups =
      or_empty_upstream lb_round_robin (round_robin_new (map (λ up. up.0) ups))
  try_from_upstreams first ups = first_of ups

  pub select : LoadBalancer → Seed → Option (T × LoadBalancer)
  select (lb_random s) seed = random_select s seed >>= λ t. some (t, lb_random s)
  select (lb_weighted_random s) seed =
      weighted_select s seed >>= λ t. some (t, lb_weighted_random s)
  select (lb_round_robin s) seed = round_robin_select s >>= λ p. some (p.0, lb_round_robin p.1)
  select (lb_identity s) seed = some (identity_select s, lb_identity s)

-- `SelectError`, and the two services over a selector whose `select` may fail.
pub data SelectError (ESel ESvc : Type 0) : Type 0 where
  selector_error : ESel → SelectError ESel ESvc
  service_error : ESvc → SelectError ESel ESvc

-- `ServiceSelector`: the selected service, called with the request.
pub service_selector :
    {Req Resp ESel ESvc : Type 0} (selector : Req → Result (Req → Result Resp ESvc) ESel)
    (req : Req)
    → Result Resp (SelectError ESel ESvc)
service_selector selector req = elim (selector req) [
  | err e ↦ err (selector_error e)
  | ok svc ↦ map_err service_error (svc req)
]

-- `ServiceRouter`: the one service, called with the selection for the mapped request.
unfoldable pub service_router :
    {Key Out Req CX Resp ESel ESvc : Type 0} (selector_mapper : Req → Key)
    (selector : Key → Result Out ESel) (svc : Req → Out → CX → Result Resp ESvc) (req : Req)
    (cx : CX)
    → Result Resp (SelectError ESel ESvc)
service_router selector_mapper selector svc req cx = elim (selector (selector_mapper req)) [
  | err e ↦ err (selector_error e)
  | ok out ↦ map_err service_error (svc req out cx)
]

-- `HttpError::to_response` of a `SelectError`.
unfoldable pub to_response :
    {Resp ESel ESvc : Type 0} (of_selector : ESel → Option Resp) (of_service : ESvc → Option Resp)
    → SelectError ESel ESvc
    → Option Resp
to_response of_selector of_service (selector_error e) = of_selector e
to_response of_selector of_service (service_error e) = of_service e
