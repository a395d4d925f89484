-- ===== src/Selector/Examples.antt =====
-- The selectors at concrete values, with a source of randomness that always gives the first index.
use monolake.Base.{
  ℕ, ◌<◌, List, [], ◌∷◌, some, get_elem?, Result, ok, err, ◌≡◌, refl, arith, length,
}
use monolake.Selector.{
  Rand, RandLaws, LoadBalancer, lb_round_robin, lb_weighted_random, weighted_random,
  try_from_upstreams, select, take, weighted_new, weighted_new_from_iter,
}
use monolake.Selector.RoundRobin.{selects, selects-cycle}
use monolake.Selector.Ready.{
  IsReady, IsBuiltFrom, endpoints, select-IsReady, try_from_upstreams-IsBuiltFrom,
  weighted_new-IsReady,
}

abbrev index_of : List ℕ → Result (Unit {0}) (Unit {0})
index_of [] = err tt
index_of (w ∷ ws) = ok tt

abbrev pub first_index : Rand
first_index = record {
  Seed = ℕ;
  WeightedIndex = Unit {0};
  WeightedError = Unit {0};
  choose = λ seed n. 0;
  weighted_index = index_of;
  sample = λ d seed. 0;
}

index_of-lt : (ws : List ℕ) (d : Unit {0}) → index_of ws ≡ ok d → 0 < length ws
index_of-lt [] d e = cc
index_of-lt (w ∷ ws) d e = omega arith

pub first_index-laws : RandLaws first_index
first_index-laws = record { choose_lt = λ s n h. h; sample_lt = λ ws d s e. index_of-lt ws d e }

abbrev ups : List (ℕ × ℕ)
ups = (10, 1) ∷ (20, 5) ∷ []

abbrev balancer : LoadBalancer first_index ℕ
balancer = lb_weighted_random (record { collection = 10 ∷ 20 ∷ []; dist = tt })

built : try_from_upstreams first_index ℕ weighted_random ups ≡ ok balancer
unfolding try_from_upstreams weighted_new_from_iter
built = refl

try_from_upstreams-IsBuiltFrom_example : IsBuiltFrom first_index ℕ ups balancer
try_from_upstreams-IsBuiltFrom_example =
    try_from_upstreams-IsBuiltFrom first_index ℕ first_index-laws weighted_random ups balancer built

three_weights :
    weighted_new first_index ℕ (10 ∷ 20 ∷ []) (1 ∷ 5 ∷ 9 ∷ [])
    ≡ ok (record { collection = 10 ∷ 20 ∷ []; dist = tt })
unfolding weighted_new
three_weights = refl

weighted_new-IsReady_example :
    ◌≡◌ {A = List ℕ} (10 ∷ 20 ∷ []) (take (length {A = ℕ} (1 ∷ 5 ∷ 9 ∷ [])) (10 ∷ 20 ∷ []))
    × (first_index.weighted_index (take (length {A = ℕ} (10 ∷ 20 ∷ [])) (1 ∷ 5 ∷ 9 ∷ [])) ≡ ok tt)
    × IsReady first_index ℕ balancer
weighted_new-IsReady_example =
    weighted_new-IsReady first_index ℕ first_index-laws (10 ∷ 20 ∷ []) (1 ∷ 5 ∷ 9 ∷ [])
      (record { collection = 10 ∷ 20 ∷ []; dist = tt }) three_weights

abbrev turning : LoadBalancer first_index ℕ
turning = lb_round_robin (record { collection = 10 ∷ 20 ∷ 30 ∷ []; next_idx = 2 })

select-IsReady_example :
    (t : ℕ) × (lb' : LoadBalancer first_index ℕ) × (i : ℕ) × (select first_index ℕ turning 0
      ≡ some (t, lb'))
    × (get_elem? (10 ∷ 20 ∷ 30 ∷ []) i ≡ some t)
    × (endpoints first_index ℕ lb' ≡ 10 ∷ 20 ∷ 30 ∷ [])
    × IsReady first_index ℕ lb'
select-IsReady_example = select-IsReady first_index ℕ first_index-laws turning 0 (omega arith)

selects-cycle_example :
    selects first_index ℕ 3 (record { collection = 10 ∷ 20 ∷ 30 ∷ []; next_idx = 1 })
    ≡ some (20 ∷ 30 ∷ 10 ∷ [], record { collection = 10 ∷ 20 ∷ 30 ∷ []; next_idx = 1 })
selects-cycle_example = selects-cycle first_index ℕ (10 ∷ []) 20 (30 ∷ [])
