-- ===== src/Factories/Stack.antt =====
-- The stack of layers of `l7_factory` for HTTP, from the PROXY protocol down to the router; what is below
-- the router is any factory.
use monolake.Base.{ℕ, Bool, true, false, List, Option, none, some, Result, ok, ◌≡◌, refl, ap}
use monolake.Http.Core.{HttpServerTimeout}
use monolake.Http.OpenId.{OpenIdConfig}
use monolake.Factories.{
  Make, old_of, ConnectionReuseHandler, ProxyProtocolService, OpenIdHandler, HttpCoreService,
  DetectService, RewriteAndRouteHandler, TlsService, UnifiedTlsService, rustls, native, plain,
  TlsConfig, with_rustls, with_native, without_tls, make_connection_reuse, make_proxy_protocol,
  make_openid, make_http_core, make_h2_detect, RoutingFactoryError, make_route, as_rustls,
  as_native, as_none, make_rustls, make_native, make_tls,
}

module _ (Config Identity A N AnyError Router InsertError I E : Type 0) (acceptor : Config → A)
    (build : Identity → Result N AnyError)
    (into : RoutingFactoryError InsertError E → AnyError) where
  -- The layers under TLS.
  abbrev pub Chain : Type 0
  Chain =
      DetectService
        (HttpCoreService (ConnectionReuseHandler (OpenIdHandler (RewriteAndRouteHandler Router I))))

  abbrev pub HttpStack : Type 0
  HttpStack = ProxyProtocolService (UnifiedTlsService A N Chain)

  -- What the layers take from the configuration; the router is what `Router::new_from_iter` gives.
  pub record Settings : Type 0 where
    pub preface : List ℕ
    pub http_timeout : HttpServerTimeout
    pub openid_config : Option OpenIdConfig
    pub router : Option (Result Router InsertError)
    pub tls : TlsConfig Config Identity

  pub make_chain : Settings → Make I E → Make Chain (RoutingFactoryError InsertError E)
  make_chain s below = make_h2_detect s.preface (
      make_http_core s.http_timeout
        (make_connection_reuse (make_openid s.openid_config (make_route s.router below))))

  pub make_stack : Settings → Make I E → Make HttpStack AnyError
  make_stack s below = make_proxy_protocol (make_tls acceptor build into s.tls (make_chain s below))

  abbrev pub chain_of : UnifiedTlsService A N Chain → Chain
  chain_of (rustls t) = t.inner
  chain_of (native t) = t.inner
  chain_of (plain chain) = chain

  abbrev pub below_chain : Chain → I
  below_chain chain = chain.inner.handler_chain.inner.inner.svc

  -- Whether a service has the kind of TLS that is configured.
  abbrev pub has_kind : TlsConfig Config Identity → UnifiedTlsService A N Chain → Bool
  has_kind (with_rustls config) (rustls t) = true
  has_kind (with_rustls config) (native t) = false
  has_kind (with_rustls config) (plain chain) = false
  has_kind (with_native identity) (rustls t) = false
  has_kind (with_native identity) (native t) = true
  has_kind (with_native identity) (plain chain) = false
  has_kind without_tls (rustls t) = false
  has_kind without_tls (native t) = false
  has_kind without_tls (plain chain) = true

  -- A service has the acceptor that is made of the configuration, or none.
  abbrev pub Accepts : TlsConfig Config Identity → UnifiedTlsService A N Chain → Type 0
  Accepts (with_rustls config) (rustls t) = t.acceptor ≡ acceptor config
  Accepts (with_rustls config) (native t) = ⊥
  Accepts (with_rustls config) (plain chain) = ⊥
  Accepts (with_native identity) (rustls t) = ⊥
  Accepts (with_native identity) (native t) = build identity ≡ ok t.acceptor
  Accepts (with_native identity) (plain chain) = ⊥
  Accepts without_tls (rustls t) = ⊥
  Accepts without_tls (native t) = ⊥
  Accepts without_tls (plain chain) = Unit {0}

  -- The old service below the router, if the kind of TLS stays.
  abbrev pub carried : TlsConfig Config Identity → Option (UnifiedTlsService A N Chain) → Option I
  carried tls none = none
  carried tls (some old) = elim (has_kind tls old) [
    | true ↦ some (below_chain (chain_of old))
    | false ↦ none
  ]

  carried_rustls :
      (config : Config) (u : Option (UnifiedTlsService A N Chain))
      → carried (with_rustls config) u
        ≡ old_of below_chain (old_of (λ (t : TlsService A Chain). t.inner) (as_rustls u))
  unfolding as_rustls
  carried_rustls config none = refl
  carried_rustls config (some (rustls t)) = refl
  carried_rustls config (some (native t)) = refl
  carried_rustls config (some (plain chain)) = refl

  carried_native :
      (identity : Identity) (u : Option (UnifiedTlsService A N Chain))
      → carried (with_native identity) u
        ≡ old_of below_chain (old_of (λ (t : TlsService N Chain). t.inner) (as_native u))
  unfolding as_native
  carried_native identity none = refl
  carried_native identity (some (rustls t)) = refl
  carried_native identity (some (native t)) = refl
  carried_native identity (some (plain chain)) = refl

  carried_plain :
      (u : Option (UnifiedTlsService A N Chain))
      → carried without_tls u ≡ old_of below_chain (as_none u)
  unfolding as_none
  carried_plain none = refl
  carried_plain (some (rustls t)) = refl
  carried_plain (some (native t)) = refl
  carried_plain (some (plain chain)) = refl

  -- The acceptor can be built, where the configuration has one that may fail.
  abbrev pub CanAccept : TlsConfig Config Identity → Type 0
  CanAccept (with_rustls config) = Unit {0}
  CanAccept (with_native identity) = (n : N) × (build identity ≡ ok n)
  CanAccept without_tls = Unit {0}

  abbrev new_chain : Settings → Router → I → Chain
  new_chain s router i = record {
    detector = s.preface;
    inner = record {
      handler_chain = record {
        inner = record {
          inner = record { svc = i; selector = router };
          openid_config = s.openid_config;
        };
      };
      http_timeout = s.http_timeout;
    };
  }

  make_chain_lem :
      (s : Settings) (below : Make I E) (old : Option Chain) (router : Router) (i : I)
      → s.router ≡ some (ok router)
      → below (old_of below_chain old) ≡ some (ok i)
      → make_chain s below old ≡ some (ok (new_chain s router i))
  unfolding make_chain make_h2_detect make_http_core make_connection_reuse make_openid make_route
  make_chain_lem s below none router i r b = rw (r, make_chain, make_route) (rw b)
  make_chain_lem s below (some old) router i r b = rw (r, make_chain, make_route) (rw b)

  -- A service that is built of the new configuration throughout, whatever the old one was.
  pub record IsNew (s : Settings) (router : Router) (i : I) (t : UnifiedTlsService A N Chain)
      : Type 0 where
    pub below : below_chain (chain_of t) ≡ i
    pub tls : Accepts s.tls t
    pub prefix : (chain_of t).detector ≡ s.preface
    pub timeout : (chain_of t).inner.http_timeout ≡ s.http_timeout
    pub openid : (chain_of t).inner.handler_chain.inner.openid_config ≡ s.openid_config
    pub routes : (chain_of t).inner.handler_chain.inner.inner.selector ≡ router

  chain_of-IsNew :
      (s : Settings) (router : Router) (i : I) (t : UnifiedTlsService A N Chain)
      → chain_of t ≡ new_chain s router i
      → Accepts s.tls t
      → IsNew s router i t
  chain_of-IsNew s router i t e k = record {
    below = ap below_chain e;
    tls = k;
    prefix = ap (λ (c : Chain). c.detector) e;
    timeout = ap (λ (c : Chain). c.inner.http_timeout) e;
    openid = ap (λ (c : Chain). c.inner.handler_chain.inner.openid_config) e;
    routes = ap (λ (c : Chain). c.inner.handler_chain.inner.inner.selector) e;
  }

  abbrev Remade :
      Settings
      → Make I E
      → Router
      → I
      → TlsConfig Config Identity
      → Option (UnifiedTlsService A N Chain)
      → Type 0
  Remade s below router i tls u =
      (t : UnifiedTlsService A N Chain) × (make_tls acceptor build into tls (make_chain s below) u
        ≡ some (ok t))
      × (chain_of t ≡ new_chain s router i)
      × Accepts tls t

  module _ (s : Settings) (below : Make I E) (router : Router) (i : I)
      (r : s.router ≡ some (ok router)) where
    Remade-rustls :
        (config : Config) (u : Option (UnifiedTlsService A N Chain))
        → below (carried (with_rustls config) u) ≡ some (ok i)
        → Remade s below router i (with_rustls config) u
    unfolding make_tls make_rustls
    Remade-rustls config u b =
        let old = old_of (λ (t : TlsService A Chain). t.inner) (as_rustls u) in
        (
          rustls (record { acceptor = acceptor config; inner = new_chain s router i }),
          rw (make_chain_lem s below old router i r (rw (carried_rustls config u) at b)),
          refl,
          refl,
        )

    Remade-native :
        (identity : Identity) (n : N) (u : Option (UnifiedTlsService A N Chain))
        → build identity ≡ ok n
        → below (carried (with_native identity) u) ≡ some (ok i)
        → Remade s below router i (with_native identity) u
    unfolding make_tls make_native
    Remade-native identity n u e b =
        let old = old_of (λ (t : TlsService N Chain). t.inner) (as_native u) in
        (
          native (record { acceptor = n; inner = new_chain s router i }),
          rw (e, make_tls)
              (rw (make_chain_lem s below old router i r (rw (carried_native identity u) at b))),
          refl,
          e,
        )

    Remade-plain :
        (u : Option (UnifiedTlsService A N Chain))
        → below (carried without_tls u) ≡ some (ok i)
        → Remade s below router i without_tls u
    unfolding make_tls
    Remade-plain u b = (
      plain (new_chain s router i),
      rw (make_chain_lem s below (as_none u) router i r (rw (carried_plain u) at b)),
      refl,
      tt,
    )

    Remade-tls :
        (tls : TlsConfig Config Identity) (u : Option (UnifiedTlsService A N Chain))
        → CanAccept tls
        → below (carried tls u) ≡ some (ok i)
        → Remade s below router i tls u
    Remade-tls (with_rustls config) u can b = Remade-rustls config u b
    Remade-tls (with_native identity) u (n, e) b = Remade-native identity n u e b
    Remade-tls without_tls u can b = Remade-plain u b

  -- A stack is made of a configuration whose router and acceptor can be built, with an old stack or
  -- without one, and the factory below the router succeeds. That factory is given the old service below
  -- the old router just if the kind of TLS is the same as before, else nothing. The new stack has what it
  -- makes, the TLS acceptor made of the new configuration, or no TLS if that has none, and in the layers
  -- below the new prefix, timeouts, OpenID configuration and router.
  pub make_stack-IsNew :
      (s : Settings) (below : Make I E) (old : Option HttpStack) (router : Router) (i : I)
      → s.router ≡ some (ok router)
      → CanAccept s.tls
      → below (carried s.tls (old_of (λ (o : HttpStack). o.inner) old)) ≡ some (ok i)
      → (made : HttpStack) × (make_stack s below old ≡ some (ok made)) × IsNew s router i made.inner
  unfolding make_stack make_proxy_protocol
  make_stack-IsNew s below old router i r can b =
      let (t, made, chain, kind) =
        Remade-tls s below router i r s.tls (old_of (λ (o : HttpStack). o.inner) old) can b in
      (record { inner = t }, rw (made, make_stack), chain_of-IsNew s router i t chain kind)
