-- ===== src/Factories.antt =====
-- The factories of the services (`MakeService`), and the stacks of them that monolake/src/factory.rs
-- builds. A factory may be given the service that runs so far, and takes over what it
-- keeps. `MakeService` and `AsyncMakeService` are implemented with one body each time, which is
-- modelled once.
pub mod Upstream
mod Stack
mod ThriftStack
mod Examples
use Prim.Native.String.{String}
use monolake.Base.{ℕ, List, Option, none, some, Result, ok, err}
use monolake.Http.Core.{HttpServerTimeout}
use monolake.Http.OpenId.{OpenIdConfig}
use monolake.Thrift.Core.{ThriftServerTimeout}

-- What `make_via_ref` gives: `none` is a panic.
abbrev pub Made : Type 0 → Type 0 → Type 0
Made S E = Option (Result S E)

-- `make_via_ref`, from the service that runs.
abbrev pub Make : Type 0 → Type 0 → Type 0
Make S E = Option S → Made S E

abbrev pub map_made : {I S E A : Type 0} → (I → S) → (E → A) → Made I E → Made S A
map_made f g none = none
map_made f g (some (ok i)) = some (ok (f i))
map_made f g (some (err e)) = some (err (g e))

abbrev pub old_of : {I S : Type 0} → (S → I) → Option S → Option I
old_of f none = none
old_of f (some s) = some (f s)

module _ (T : Type 0) where
  pub record ConnectionReuseHandler : Type 0 where
    pub inner : T

  pub record ContentHandler : Type 0 where
    pub inner : T

  pub record ProxyProtocolService : Type 0 where
    pub inner : T

  pub record OpenIdHandler : Type 0 where
    pub inner : T
    pub openid_config : Option OpenIdConfig

  pub record HttpCoreService : Type 0 where
    pub handler_chain : T
    pub http_timeout : HttpServerTimeout

  pub record TtheaderCoreService : Type 0 where
    pub handler_chain : T
    pub thrift_timeout : ThriftServerTimeout

  -- `DetectService<PrefixDetector, T>`; the detector is the prefix that it looks for.
  pub record DetectService : Type 0 where
    pub detector : List ℕ
    pub inner : T

  -- The durations of these are in milliseconds.
  pub record TimeoutService : Type 0 where
    pub timeout : ℕ
    pub inner : T

  pub record DelayService : Type 0 where
    pub delay : ℕ
    pub inner : T

  pub record CatchPanicService : Type 0 where
    pub inner : T

-- `RewriteAndRouteHandler<T>`, with its router.
pub record RewriteAndRouteHandler (Router T : Type 0) : Type 0 where
  pub svc : T
  pub selector : Router

-- An acceptor of one of the TLS libraries before a service.
pub record TlsService (Acceptor T : Type 0) : Type 0 where
  pub acceptor : Acceptor
  pub inner : T

pub data UnifiedTlsService (A N T : Type 0) : Type 0 where
  rustls : TlsService A T → UnifiedTlsService A N T
  native : TlsService N T → UnifiedTlsService A N T
  plain : T → UnifiedTlsService A N T

-- `UnifiedTlsFactory` without its inner factory: a configuration of Rustls, an identity, or nothing.
pub data TlsConfig (Config Identity : Type 0) : Type 0 where
  with_rustls : Config → TlsConfig Config Identity
  with_native : Identity → TlsConfig Config Identity
  without_tls : TlsConfig Config Identity

module _ {I E : Type 0} where
  pub make_connection_reuse : Make I E → Make (ConnectionReuseHandler I) E
  make_connection_reuse inner old =
      map_made (λ i. record { inner = i }) (λ e. e) (inner (old_of (λ o. o.inner) old))

  pub make_content : Make I E → Make (ContentHandler I) E
  make_content inner old =
      map_made (λ i. record { inner = i }) (λ e. e) (inner (old_of (λ o. o.inner) old))

  pub make_proxy_protocol : Make I E → Make (ProxyProtocolService I) E
  make_proxy_protocol inner old =
      map_made (λ i. record { inner = i }) (λ e. e) (inner (old_of (λ o. o.inner) old))

  pub make_openid : Option OpenIdConfig → Make I E → Make (OpenIdHandler I) E
  make_openid config inner old =
      map_made (λ i. record { inner = i; openid_config = config }) (λ e. e)
        (inner (old_of (λ o. o.inner) old))

  pub make_http_core : HttpServerTimeout → Make I E → Make (HttpCoreService I) E
  make_http_core timeout inner old =
      map_made (λ i. record { handler_chain = i; http_timeout = timeout }) (λ e. e)
        (inner (old_of (λ o. o.handler_chain) old))

  pub make_ttheader : ThriftServerTimeout → Make I E → Make (TtheaderCoreService I) E
  make_ttheader timeout inner old =
      map_made (λ i. record { handler_chain = i; thrift_timeout = timeout }) (λ e. e)
        (inner (old_of (λ o. o.handler_chain) old))

  pub make_h2_detect : List ℕ → Make I E → Make (DetectService I) E
  make_h2_detect preface inner old =
      map_made (λ i. record { detector = preface; inner = i }) (λ e. e)
        (inner (old_of (λ o. o.inner) old))

  pub make_timeout : ℕ → Make I E → Make (TimeoutService I) E
  make_timeout timeout inner old =
      map_made (λ i. record { timeout = timeout; inner = i }) (λ e. e)
        (inner (old_of (λ o. o.inner) old))

  pub make_delay : ℕ → Make I E → Make (DelayService I) E
  make_delay delay inner old =
      map_made (λ i. record { delay = delay; inner = i }) (λ e. e)
        (inner (old_of (λ o. o.inner) old))

  pub make_catch_panic : Make I E → Make (CatchPanicService I) E
  make_catch_panic inner old =
      map_made (λ i. record { inner = i }) (λ e. e) (inner (old_of (λ o. o.inner) old))

-- `RoutingFactoryError`; its variant for a balancer's error is never made.
pub data RoutingFactoryError (I E : Type 0) : Type 0 where
  inner_error : E → RoutingFactoryError I E
  router_error : I → RoutingFactoryError I E

-- The router is built first, by `Router::new_from_iter`, which is the argument.
pub make_route :
    {Router InsertError I E : Type 0}
    → Option (Result Router InsertError)
    → Make I E
    → Make (RewriteAndRouteHandler Router I) (RoutingFactoryError InsertError E)
make_route none inner old = none
make_route (some (err e)) inner old = some (err (router_error e))
make_route (some (ok router)) inner old =
    map_made (λ i. record { svc = i; selector = router }) inner_error
      (inner (old_of (λ o. o.svc) old))

module _ {A N T : Type 0} where
  pub as_rustls : Option (UnifiedTlsService A N T) → Option (TlsService A T)
  as_rustls none = none
  as_rustls (some (rustls inner)) = some inner
  as_rustls (some (native inner)) = none
  as_rustls (some (plain inner)) = none

  pub as_native : Option (UnifiedTlsService A N T) → Option (TlsService N T)
  as_native none = none
  as_native (some (rustls inner)) = none
  as_native (some (native inner)) = some inner
  as_native (some (plain inner)) = none

  pub as_none : Option (UnifiedTlsService A N T) → Option T
  as_none none = none
  as_none (some (rustls inner)) = none
  as_none (some (native inner)) = none
  as_none (some (plain inner)) = some inner

-- The acceptors of the libraries; one of native-tls can fail to be built. `into` is `AnyError::from`.
module _ {Config Identity A N I E AnyError : Type 0} (acceptor : Config → A)
    (build : Identity → Result N AnyError) (into : E → AnyError) where
  pub make_rustls : Config → Make I E → Make (TlsService A I) AnyError
  make_rustls config inner old =
      map_made (λ i. record { acceptor = acceptor config; inner = i }) into
        (inner (old_of (λ o. o.inner) old))

  abbrev pub with_acceptor : Result N AnyError → Make I E → Make (TlsService N I) AnyError
  with_acceptor (err e) inner old = some (err e)
  with_acceptor (ok a) inner old =
      map_made (λ i. record { acceptor = a; inner = i }) into (inner (old_of (λ o. o.inner) old))

  pub make_native : Identity → Make I E → Make (TlsService N I) AnyError
  make_native identity inner old = with_acceptor (build identity) inner old

  pub make_tls : TlsConfig Config Identity → Make I E → Make (UnifiedTlsService A N I) AnyError
  unfolding make_rustls make_native
  make_tls (with_rustls config) inner old =
      map_made rustls (λ e. e) (make_rustls config inner (as_rustls old))
  make_tls (with_native identity) inner old =
      map_made native (λ e. e) (make_native identity inner (as_native old))
  make_tls without_tls inner old = map_made plain into (inner (as_none old))
