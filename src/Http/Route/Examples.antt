-- ===== src/Http/Route/Examples.antt =====
-- A router with one balancer of two URIs.
use Prim.Native.String.{String}
use text.Mathlib.Text.{◌==◌ as str_eq}
use mathlib.Core.Path.{subst}
use monolake.Base.{
  zero, suc, ℕ, Bool, true, ◌&&◌, ◌||◌, some-inj, [], ◌∷◌, Option, none, some, if◌then◌else◌,
  get_elem?, Result, ok, map_err, ◌≡◌, refl, arith,
}
use monolake.Http.Fixtures.{functions}
use monolake.Http.Message.{Request, Response, ResponseWithContinue, http_11}
use monolake.Http.Responder.{Tables}
use monolake.Http.Rewrite.{Uris, Endpoint, rewrite_request}
use monolake.Http.Route.{route_handle, route_handle-found}
use monolake.Selector.{LoadBalancer, lb_round_robin, service_error}
use monolake.Selector.Examples.{first_index, first_index-laws}

-- The URIs "http://a/" and "http://b/" are called "a" and "b", any other text is a path.
abbrev is_remote : String → Bool
is_remote s = str_eq s "a" || str_eq s "b"

abbrev uris : Uris
uris = record {
  scheme = λ s. if is_remote s then some "http" else none;
  host = λ s. if is_remote s then some s else none;
  authority = λ s. if is_remote s then some s else none;
  path = λ s. "/";
  path_and_query = λ s. some ("/", none);
  build = λ a s p. if str_eq s "http" && (str_eq p "/" && is_remote a) then some a else none;
  header_value = λ s. some (1 ∷ []);
}

abbrev request : Request functions ℕ
request = record { version = http_11; uri = "/x"; headers = λ n. none; body = 1 }

abbrev reply : Response functions ℕ
reply = record { status = 200; version = http_11; headers = λ n. none; body = some 2 }

abbrev inner : Request functions ℕ → ℕ → Result (ResponseWithContinue functions ℕ) ℕ
inner r cx = ok (reply, true)

abbrev Target : Type 0
Target = Endpoint ℕ ℕ

abbrev Balancer : Type 0
Balancer = LoadBalancer first_index Target

abbrev tables : Tables Balancer
tables = record {
  Table = String → Option Balancer;
  InsertError = Unit {0};
  empty = λ path. none;
  insert = λ table path v. ok (λ q. if str_eq path q then some v else table q);
  at = λ table path. table path;
}

abbrev balancer : Balancer
balancer =
    lb_round_robin (record { collection = Endpoint.uri "a" ∷ Endpoint.uri "b" ∷ []; next_idx = 1 })

rewrites :
    (ep : Target) (i : ℕ)
    → get_elem? (Endpoint.uri "a" ∷ Endpoint.uri "b" ∷ []) i ≡ some ep
    → (q : Request functions ℕ) × (rewrite_request functions uris ℕ ℕ ℕ request ep ≡ some q)
unfolding rewrite_request
rewrites ep zero e =
    subst
      (λ t. (q : Request functions ℕ) × (rewrite_request functions uris ℕ ℕ ℕ request t ≡ some q))
      (some-inj e) (_, refl)
rewrites ep (suc zero) e =
    subst
      (λ t. (q : Request functions ℕ) × (rewrite_request functions uris ℕ ℕ ℕ request t ≡ some q))
      (some-inj e) (_, refl)
rewrites ep (suc (suc i)) e = cc

route_handle-found_example :
    (ep : Target) × (i : ℕ) × (q : Request functions ℕ) × (get_elem?
        (Endpoint.uri "a" ∷ Endpoint.uri "b" ∷ [])
        i
      ≡ some ep)
    × (rewrite_request functions uris ℕ ℕ ℕ request ep ≡ some q)
    × (route_handle first_index ℕ ℕ tables functions uris ℕ ℕ ℕ
          (λ path. some balancer)
          0
          inner
          request
          0
        ≡ some (map_err service_error (inner q 0)))
route_handle-found_example =
    route_handle-found first_index ℕ ℕ tables functions uris ℕ ℕ ℕ first_index-laws
      (λ path. some balancer) 0 inner request 0 balancer refl (omega arith) rewrites
