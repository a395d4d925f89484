-- ===== src/Http/Route.antt =====
-- monolake-services/src/http/handlers/route.rs: `RewriteHandler`, and `RewriteAndRouteHandler`, which is
-- the error responder over the service router over it. `none` as a result is a panic.
mod Examples
use Prim.Native.String.{String}
use monolake.Base.{
  ℕ, true, false, List, [], ◌∷◌, Option, none, some, get_elem?, Result, ok, err, map_err, ◌≡◌, refl,
  ap,
}
use monolake.Base.Panic.{◌>>=◌}
use monolake.Http.Message.{HeaderMaps, Request, ResponseWithContinue, generate_response}
use monolake.Http.Responder.{
  RouterError, Tables, respond, router_response, route_select, route_select-none, route_select-some,
}
use monolake.Http.Rewrite.{Uris, Endpoint, rewrite_request}
use monolake.Selector.Ready.{IsReady, endpoints, select-IsReady}
use monolake.Selector.{
  Rand, RandLaws, LoadBalancer, SelectError, service_error, service_router, to_response,
}

module _ (r : Rand) (SocketAddr PathBuf : Type 0)
    (t : Tables (LoadBalancer r (Endpoint SocketAddr PathBuf))) (h : HeaderMaps) (u : Uris)
    (B CX E : Type 0) where
  -- `rewrite_request` as the router's service calls it, if an endpoint is selected.
  pub rewritten :
      Request h B → Result (Endpoint SocketAddr PathBuf) (RouterError ⊥) → Option (Request h B)
  rewritten request (ok ep) = rewrite_request h u B SocketAddr PathBuf request ep
  rewritten request (err e) = some request

  -- `PathExtractor`.
  abbrev pub path_of : Request h B → String
  path_of request = u.path request.uri

  -- An error of the inner handler is an `HttpFatalError`, which has no response.
  pub route_handle :
      t.Table
      → r.Seed
      → (Request h B → CX → Result (ResponseWithContinue h B) E)
      → Request h B
      → CX
      → Option (Result (ResponseWithContinue h B) (SelectError (RouterError ⊥) E))
  route_handle router seed inner request ctx =
      route_select r (Endpoint SocketAddr PathBuf) t router seed (path_of request) >>= λ selected.
      rewritten request selected >>= λ q. some (
        respond h B (to_response (router_response h B) (λ e. none))
          (service_router path_of (λ path. selected) (λ req ep cx. inner q cx)) request ctx)

  -- A request whose path is in no route is answered with 404, and the connection goes on; the inner
  -- handler has no part in that.
  pub route_handle-not_found :
      (router : t.Table) (seed : r.Seed)
      (inner : Request h B → CX → Result (ResponseWithContinue h B) E) (request : Request h B)
      (ctx : CX)
      → t.at router (path_of request) ≡ none
      → route_handle router seed inner request ctx
        ≡ some (ok (generate_response h B 404 false, true))
  unfolding route_handle rewritten respond router_response service_router to_response
  route_handle-not_found router seed inner request ctx e = rw (
    route_select-none r (Endpoint SocketAddr PathBuf) t router seed (path_of request) e,
    route_handle,
  )

  -- A request whose path leads to a ready balancer, for each of whose endpoints it can be rewritten, goes
  -- to the inner handler, rewritten for one of these endpoints; the handler's answer is returned, and its
  -- error too.
  pub route_handle-found :
      (laws : RandLaws r) (router : t.Table) (seed : r.Seed)
      (inner : Request h B → CX → Result (ResponseWithContinue h B) E) (request : Request h B)
      (ctx : CX) (lb : LoadBalancer r (Endpoint SocketAddr PathBuf))
      → t.at router (path_of request) ≡ some lb
      → IsReady r (Endpoint SocketAddr PathBuf) lb
      → ((ep : (Endpoint SocketAddr PathBuf)) (i : ℕ)
          → get_elem? (endpoints r (Endpoint SocketAddr PathBuf) lb) i ≡ some ep
          → (q : Request h B) × (rewrite_request h u B SocketAddr PathBuf request ep ≡ some q))
      → (ep : (Endpoint SocketAddr PathBuf)) × (i : ℕ) × (q : Request h B) × (get_elem?
            (endpoints r (Endpoint SocketAddr PathBuf) lb)
            i
          ≡ some ep)
        × (rewrite_request h u B SocketAddr PathBuf request ep ≡ some q)
        × (route_handle router seed inner request ctx ≡ some (map_err service_error (inner q ctx)))
  unfolding route_handle rewritten respond router_response service_router to_response
  route_handle-found laws router seed inner request ctx lb e ready rewrites =
      let (ep, lb', i, s, g, same, again) =
        select-IsReady r (Endpoint SocketAddr PathBuf) laws lb seed ready in
      let (q, w) = rewrites ep i g in
      (
        ep,
        i,
        q,
        g,
        w,
        rw
            (
              route_select-some r (Endpoint SocketAddr PathBuf) t router seed (path_of request) lb
                  ep lb' e s,
              route_handle,
            )
            (rw w (ap some (passed ep q (inner q ctx) refl))),
      )
    where
      passed :
          (ep : (Endpoint SocketAddr PathBuf)) (q : Request h B)
          (w : Result (ResponseWithContinue h B) E)
          → inner q ctx ≡ w
          → respond h B
              (to_response (router_response h B {E = ⊥}) (λ e. none))
              (service_router path_of (λ path. ok ep) (λ req ep cx. inner q cx))
              request
              ctx
            ≡ map_err service_error w
      passed ep q (ok resp) w = rw (w, respond, service_router)
      passed ep q (err x) w = rw (w, respond, service_router)
