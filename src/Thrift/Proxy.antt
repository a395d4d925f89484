-- ===== src/Thrift/Proxy.antt =====
-- monolake-services/src/thrift/handlers/proxy.rs: `ProxyHandler::send_request`. `none` as a result is
-- a panic. The pooled connector and the connection are parameters; what `set_reuse` left of a
-- connection's flag decides whether the pool takes the connection back.
mod Examples
use monolake.Base.{
  ℕ, Bool, true, false, List, [], ◌∷◌, Option, none, some, get_elem?, Result, ok, err, Result-cases,
  Option-cases, inl, inr, ◌⊎◌, ◌≡◌, refl, ap, ◌∙◌, arith,
}
use monolake.Base.Panic.{◌>>=◌}
use monolake.Selector.{
  Rand, RandLaws, LoadBalancer, LoadBalanceStrategy, LoadBalanceError, try_from_upstreams, select,
}
use monolake.Selector.Ready.{IsReady, endpoints, select-IsReady}

pub data Endpoint (Addr PathBuf : Type 0) : Type 0 where
  socket : Addr → Endpoint Addr PathBuf
  unix : PathBuf → Endpoint Addr PathBuf

-- `UnifiedL4Addr`.
pub data UnifiedL4Addr (Addr PathBuf : Type 0) : Type 0 where
  tcp : Addr → UnifiedL4Addr Addr PathBuf
  unix_path : PathBuf → UnifiedL4Addr Addr PathBuf

-- The crates monoio_transports and monoio_codec: `next` may give no message at the end of the stream.
pub record Pool (Addr PathBuf : Type 0) : Type 1 where
  pub Conn : Type 0
  pub Req : Type 0
  pub Resp : Type 0
  pub IoError : Type 0
  pub unexpected_eof : IoError
  pub connect : UnifiedL4Addr Addr PathBuf → Result Conn IoError
  pub send_and_flush : Conn → Req → Result Conn IoError
  pub next : Conn → Option (Result Resp IoError)

module _ (r : Rand) (Addr PathBuf : Type 0) (p : Pool Addr PathBuf) where
  open p use {Conn, Req, Resp, IoError, unexpected_eof, connect, send_and_flush, next}

  abbrev pub key_of : Endpoint Addr PathBuf → UnifiedL4Addr Addr PathBuf
  key_of (socket addr) = tcp addr
  key_of (unix path) = unix_path path

  -- `RouteConfig::proxy_handler`, as far as it can fail.
  pub proxy_handler :
      LoadBalanceStrategy
      → List (Endpoint Addr PathBuf × ℕ)
      → Result (LoadBalancer r (Endpoint Addr PathBuf)) (LoadBalanceError r (Endpoint Addr PathBuf))
  proxy_handler load_balancer upstreams =
      try_from_upstreams r (Endpoint Addr PathBuf) load_balancer upstreams

  -- `make_via_ref`: an old handler is not looked at, so its position in a round robin is not kept.
  pub make_proxy_handler :
      LoadBalanceStrategy
      → List (Endpoint Addr PathBuf × ℕ)
      → Option (LoadBalancer r (Endpoint Addr PathBuf))
      → Result (LoadBalancer r (Endpoint Addr PathBuf)) (LoadBalanceError r (Endpoint Addr PathBuf))
  make_proxy_handler load_balancer upstreams old = proxy_handler load_balancer upstreams

  -- The result, and the reuse flag of the connection, if there was one.
  abbrev pub Sent : Type 0
  Sent = Result Resp IoError × Option Bool

  abbrev pub on_connection : Conn → Req → Sent
  on_connection io req = elim (send_and_flush io req) [
    | err e ↦ (err e, some false)
    | ok io' ↦ elim (next io') [
      | some (ok resp) ↦ (ok resp, some true)
      | some (err e) ↦ (err e, some false)
      | none ↦ (err unexpected_eof, some false)
    ]
  ]

  -- With the balancer as it is after the selection.
  pub send_request :
      LoadBalancer r (Endpoint Addr PathBuf)
      → r.Seed
      → Req
      → Option (Sent × LoadBalancer r (Endpoint Addr PathBuf))
  send_request balancer seed req = select r (Endpoint Addr PathBuf) balancer seed >>= λ selected.
      elim (connect (key_of selected.0)) [
        | err e ↦ some ((err e, none), selected.1)
        | ok io ↦ some (on_connection io req, selected.1)
      ]

  -- What has been exchanged with an endpoint for a request, with the result that the client gets and the
  -- flag that the connection is left with.
  pub data Exchanged (ep : Endpoint Addr PathBuf) (req : Req) : Sent → Type 0 where
    unreachable : (e : IoError) → connect (key_of ep) ≡ err e → Exchanged ep req (err e, none)
    unsent :
        (io : Conn) (e : IoError)
        → connect (key_of ep) ≡ ok io
        → send_and_flush io req ≡ err e
        → Exchanged ep req (err e, some false)
    answered :
        (io io' : Conn) (resp : Resp)
        → connect (key_of ep) ≡ ok io
        → send_and_flush io req ≡ ok io'
        → next io' ≡ some (ok resp)
        → Exchanged ep req (ok resp, some true)
    broken :
        (io io' : Conn) (e : IoError)
        → connect (key_of ep) ≡ ok io
        → send_and_flush io req ≡ ok io'
        → next io' ≡ some (err e)
        → Exchanged ep req (err e, some false)
    ended :
        (io io' : Conn)
        → connect (key_of ep) ≡ ok io
        → send_and_flush io req ≡ ok io'
        → next io' ≡ none
        → Exchanged ep req (err unexpected_eof, some false)

  on_connection-Exchanged :
      (ep : Endpoint Addr PathBuf) (io : Conn) (req : Req)
      → connect (key_of ep) ≡ ok io
      → Exchanged ep req (on_connection io req)
  on_connection-Exchanged ep io req c = elim (Result-cases (send_and_flush io req)) [
    | inr (x, e) ↦ rw (e, on_connection) (unsent io x c e)
    | inl (io', e) ↦ elim (Option-cases (next io')) [
      | inl over ↦ rw (e, on_connection) (rw over (ended io io' c e over))
      | inr (m, f) ↦ elim (Result-cases m) [
        | inl (resp, g) ↦
            let q : next io' ≡ some (ok resp) = f ∙ ap (λ a. some a) g in
            rw (e, on_connection) (rw q (answered io io' resp c e q))
        | inr (x, g) ↦
            let q : next io' ≡ some (err x) = f ∙ ap (λ a. some a) g in
            rw (e, on_connection) (rw q (broken io io' x c e q))
      ]
    ]
  ]

  -- With a ready balancer a request does not panic. One of the balancer's endpoints is connected to; an
  -- error of that is returned. The request is sent on the connection, and the client gets the next message
  -- on it, or the error of sending or receiving, or that the stream has ended. The connection may be used
  -- again just if there is a response. The balancer is ready for the next request.
  pub send_request-Exchanged :
      (laws : RandLaws r) (balancer : LoadBalancer r (Endpoint Addr PathBuf)) (seed : r.Seed)
      (req : Req)
      → IsReady r (Endpoint Addr PathBuf) balancer
      → (sent : Sent) × (balancer' : LoadBalancer r (Endpoint Addr PathBuf)) × (ep : Endpoint Addr
          PathBuf)
        × (i : ℕ) × (send_request balancer seed req ≡ some (sent, balancer'))
        × IsReady r (Endpoint Addr PathBuf) balancer'
        × (get_elem? (endpoints r (Endpoint Addr PathBuf) balancer) i ≡ some ep)
        × Exchanged ep req sent
  unfolding send_request
  send_request-Exchanged laws balancer seed req ready =
      let (ep, lb', i, q, g, same, again) =
        select-IsReady r (Endpoint Addr PathBuf) laws balancer seed ready in
      elim (Result-cases (connect (key_of ep))) [
        | inr (x, c) ↦
            ((err x, none), lb', ep, i, rw (q, send_request) (rw c), again, g, unreachable x c)
        | inl (io, c) ↦ (
          on_connection io req,
          lb',
          ep,
          i,
          rw (q, send_request) (rw c),
          again,
          g,
          on_connection-Exchanged ep io req c,
        )
      ]
