-- ===== src/Config/Extract.antt =====
-- monolake/src/config/extractor.rs: what the layers take from the configuration of a server, and what
-- `l7_factory` of monolake/src/factory.rs takes of it in its two cases. `none` is a panic.
use Prim.Native.String.{String}
use monolake.Base.{
  List, Option, none, some, ok, Result-cases, inl, inr, ◌≡◌, refl, ap, sym, ◌∙◌, arith,
}
use monolake.Base.Panic.{◌>>=◌}
use monolake.Http.Core.{HttpServerTimeout}
use monolake.Http.Upstream.{HttpUpstreamTimeout}
use monolake.Thrift.Core.{ThriftServerTimeout}
use monolake.Config.Spec.{TlsOf, tls_config-TlsOf}
use monolake.Config.{
  Externals, HttpVersion, HttpOptHandlers, ServerProtocolConfig, http, thrift, ServerConfig,
  ServiceConfig, ServerUserConfig, ServerProtocolUserConfig, user_http, user_thrift, server_config,
  protocol_config, tls_config, http_server_timeout, http_upstream_timeout, thrift_server_timeout,
}

module _ (x : Externals) where
  open x use {HttpRouteConfig, ThriftRouteConfig, Tls, OpenIdConfig}

  pub http_server_timeout_param : ServerProtocolConfig x → Option HttpServerTimeout
  http_server_timeout_param (http routes server upstream version opt) = some server
  http_server_timeout_param (thrift route server) = none

  pub http_upstream_timeout_param : ServerProtocolConfig x → Option HttpUpstreamTimeout
  http_upstream_timeout_param (http routes server upstream version opt) = some upstream
  http_upstream_timeout_param (thrift route server) = none

  pub thrift_server_timeout_param : ServerProtocolConfig x → Option ThriftServerTimeout
  thrift_server_timeout_param (http routes server upstream version opt) = none
  thrift_server_timeout_param (thrift route server) = some server

  pub http_routes_param : ServerProtocolConfig x → Option (List HttpRouteConfig)
  http_routes_param (http routes server upstream version opt) = some routes
  http_routes_param (thrift route server) = none

  pub thrift_route_param : ServerProtocolConfig x → Option ThriftRouteConfig
  thrift_route_param (http routes server upstream version opt) = none
  thrift_route_param (thrift route server) = some route

  pub http_version_param : ServerProtocolConfig x → Option HttpVersion
  http_version_param (http routes server upstream version opt) = some version
  http_version_param (thrift route server) = none

  -- What the layers of a stack are built with.
  pub record HttpParams : Type 0 where
    pub version : HttpVersion
    pub upstream_timeout : HttpUpstreamTimeout
    pub opt_handlers : HttpOptHandlers
    pub routes : List HttpRouteConfig
    pub openid_config : Option OpenIdConfig
    pub server_timeout : HttpServerTimeout
    pub tls : Option Tls

  pub record ThriftParams : Type 0 where
    pub route : ThriftRouteConfig
    pub server_timeout : ThriftServerTimeout
    pub tls : Option Tls

  pub data Params : Type 0 where
    http_params : HttpParams → Params
    thrift_params : ThriftParams → Params

  -- The parameters of `l7_factory` and of its layers, in the order in which they are taken.
  pub l7_params : ServerConfig x → Option Params
  l7_params config = elim config.protocol [
    | http a b c d opt_handlers ↦
        (http_version_param config.protocol >>= λ version.
        http_upstream_timeout_param config.protocol >>= λ upstream_timeout.
        http_routes_param config.protocol >>= λ routes.
        http_server_timeout_param config.protocol >>= λ server_timeout. some (
          http_params (record {
            version = version;
            upstream_timeout = upstream_timeout;
            opt_handlers = opt_handlers;
            routes = routes;
            openid_config = config.auth_config;
            server_timeout = server_timeout;
            tls = config.tls;
          })))
    | thrift a b ↦
        (thrift_route_param config.protocol >>= λ route.
        thrift_server_timeout_param config.protocol >>= λ server_timeout. some (
          thrift_params
            (record { route = route; server_timeout = server_timeout; tls = config.tls })))
  ]

  -- What the file of the user asks for, with the TLS configuration that has been made.
  abbrev pub asked : ServerProtocolUserConfig x → Option Tls → Params
  asked (user_http c) tls = http_params (record {
    version = c.upstream_http_version;
    upstream_timeout = record {
      connect_timeout = c.timeout.upstream_connect_timeout_sec;
      read_timeout = c.timeout.upstream_read_timeout_sec;
    };
    opt_handlers = c.http_opt_handlers;
    routes = c.routes;
    openid_config = none;
    server_timeout = record {
      keepalive_timeout = c.timeout.server_keepalive_timeout_sec;
      read_header_timeout = c.timeout.server_read_header_timeout_sec;
      read_body_timeout = c.timeout.server_read_body_timeout_sec;
    };
    tls = tls;
  })
  asked (user_thrift c) tls = thrift_params (record {
    route = c.route;
    server_timeout = record {
      keepalive_timeout = c.timeout.server_keepalive_timeout_sec;
      message_timeout = c.timeout.server_message_timeout_sec;
    };
    tls = tls;
  })

  l7_params-asked :
      (name : String) (tls : Option Tls) (u : ServerProtocolUserConfig x)
      → l7_params
          (record { name = name; tls = tls; auth_config = none; protocol = protocol_config x u })
        ≡ some (asked u tls)
  unfolding l7_params protocol_config http_server_timeout http_upstream_timeout
      thrift_server_timeout http_version_param http_upstream_timeout_param http_routes_param
      http_server_timeout_param thrift_route_param thrift_server_timeout_param
  l7_params-asked name tls (user_http c) = refl
  l7_params-asked name tls (user_thrift c) = refl

  -- When the configuration of a server can be made, then taking the parameters from it does not
  -- panic, and the layers get what the user's file asks for, each timeout in its place, the TLS
  -- configuration that the library asked for makes of the contents of the chain and key files, or none,
  -- and no OpenID configuration.
  pub l7_params-server_config :
      (service : ServiceConfig x (ServerUserConfig x)) (c : ServiceConfig x (ServerConfig x))
      → server_config x service ≡ ok c
      → (tls : Option Tls) × TlsOf x service.server.tls tls
        × (l7_params c.server ≡ some (asked service.server.protocol_config tls))
  unfolding server_config
  l7_params-server_config service c e = elim (Result-cases (tls_config x service.server.tls)) [
    | inr (failed, q) ↦ absurd (ground (arith, e, q))
    | inl (tls, q) ↦
        let made : server_config x service
            ≡ ok (record {
              listener = service.listener;
              server = record {
                name = service.server.name;
                tls = tls;
                auth_config = none;
                protocol = protocol_config x service.server.protocol_config;
              };
            }) =
          rw (q, server_config) refl in
        let same : record {
          listener = service.listener;
          server = record {
            name = service.server.name;
            tls = tls;
            auth_config = none;
            protocol = protocol_config x service.server.protocol_config;
          };
        }
            ≡ c =
          cc in
        (
          tls,
          tls_config-TlsOf x service.server.tls tls q,
          ap (λ (a : ServiceConfig x (ServerConfig x)). l7_params a.server) (sym same)
              ∙ l7_params-asked service.server.name tls service.server.protocol_config,
        )
  ]
