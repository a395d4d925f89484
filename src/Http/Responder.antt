-- ===== src/Http/Responder.antt =====
-- monolake-services/src/http/util.rs: `HttpErrorResponder`; and of
-- monolake-services/src/http/handlers/route.rs: `Router` and `RouterError`.
-- `none` as a result is a panic.
use Prim.Native.String.{String}
use monolake.Base.{ℕ, true, false, List, [], ◌∷◌, Option, none, some, Result, ok, err, ◌≡◌}
use monolake.Base.Panic.{◌>>=◌}
use monolake.Http.Message.{HeaderMaps, Request, Response, ResponseWithContinue, generate_response}
use monolake.Selector.Ready.{try_from_upstreams-empty}
use monolake.Selector.{
  Rand, RandLaws, LoadBalanceStrategy, LoadBalancer, try_from_upstreams, select, to_response,
}

pub data RouterError (E : Type 0) : Type 0 where
  route_empty : RouterError E
  select_error : E → RouterError E

module _ (h : HeaderMaps) (B : Type 0) where
  -- `HttpErrorResponder::call`.
  unfoldable pub respond :
      {CX E : Type 0} (to_response : E → Option (Response h B))
      (inner : Request h B → CX → Result (ResponseWithContinue h B) E) (req : Request h B) (cx : CX)
      → Result (ResponseWithContinue h B) E
  respond to_response inner req cx = elim (inner req cx) [
    | ok resp ↦ ok resp
    | err e ↦ elim (to_response e) [ some r ↦ ok (r, true) | none ↦ err e ]
  ]

  -- `HttpError::to_response`: not found, whatever went wrong.
  unfoldable pub router_response : {E : Type 0} → RouterError E → Option (Response h B)
  router_response e = some (generate_response h B 404 false)

-- The crate `matchit`: a table of paths.
pub record Tables (V : Type 0) : Type 1 where
  pub Table : Type 0
  pub InsertError : Type 0
  pub empty : Table
  pub insert : Table → String → V → Result Table InsertError
  pub at : Table → String → Option V

module _ (r : Rand) (Endpoint : Type 0) (t : Tables (LoadBalancer r Endpoint)) where
  open t use {Table, InsertError}

  pub record RouteConfig : Type 0 where
    pub path : String
    pub load_balancer : LoadBalanceStrategy
    pub upstreams : List (Endpoint × ℕ)

  pub insert_routes : Table → List RouteConfig → Option (Result Table InsertError)
  insert_routes router [] = some (ok router)
  insert_routes router (route ∷ routes) =
      elim (try_from_upstreams r Endpoint route.load_balancer route.upstreams) [
        | err e ↦ none
        | ok lb ↦ elim (t.insert router route.path lb) [
          | err e ↦ some (err e)
          | ok router' ↦ insert_routes router' routes
        ]
      ]

  -- `Router::new_from_iter`: a balancer's error is unwrapped, an insertion's is returned.
  pub new_from_iter : List RouteConfig → Option (Result Table InsertError)
  new_from_iter routes = insert_routes t.empty routes

  -- `Router::select`, whose balancers have no error of their own. The balancer as it is after the
  -- selection is left out: this is one request.
  pub route_select : Table → r.Seed → String → Option (Result Endpoint (RouterError ⊥))
  route_select router seed path = elim (t.at router path) [
    | none ↦ some (err route_empty)
    | some lb ↦ select r Endpoint lb seed >>= λ p. some (ok p.0)
  ]

  pub route_select-none :
      (router : Table) (seed : r.Seed) (path : String)
      → t.at router path ≡ none
      → route_select router seed path ≡ some (err route_empty)
  unfolding route_select
  route_select-none router seed path e = rw (e, route_select)

  pub route_select-some :
      (router : Table) (seed : r.Seed) (path : String) (lb : LoadBalancer r Endpoint)
      (ep : Endpoint) (lb' : LoadBalancer r Endpoint)
      → t.at router path ≡ some lb
      → select r Endpoint lb seed ≡ some (ep, lb')
      → route_select router seed path ≡ some (ok ep)
  unfolding route_select
  route_select-some router seed path lb ep lb' e q = rw (e, route_select) (rw q)

  -- A first route without upstreams makes the router panic, whatever follows it.
  pub new_from_iter-empty :
      (laws : RandLaws r) (seed : r.Seed) (route : RouteConfig) (routes : List RouteConfig)
      → route.upstreams ≡ []
      → new_from_iter (route ∷ routes) ≡ none
  unfolding new_from_iter insert_routes
  new_from_iter-empty laws seed route routes e =
      let (x, q) = try_from_upstreams-empty r Endpoint laws route.load_balancer seed in
      rw (e, new_from_iter, insert_routes) (rw (q, insert_routes))
