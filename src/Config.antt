-- ===== src/Config.antt =====
-- monolake/src/config/mod.rs: from the text of the configuration to the configuration of the servers.
mod Spec
mod Build
mod Extract
mod Examples
use Prim.Native.String.{String}
use text.Mathlib.Text.{◌==◌ as str_eq}
use monolake.Base.{
  ℕ, Bool, true, false, not, ◌&&◌, ◌||◌, List, [], ◌∷◌, Option, none, some, if◌then◌else◌, ◌==◌,
  Result, ok, err, map_err,
}
use monolake.Http.Core.{HttpServerTimeout}
use monolake.Http.Upstream.{HttpUpstreamTimeout}
use monolake.Thrift.Core.{ThriftServerTimeout}

-- Seconds, as they stand in the file.
pub record HttpTimeout : Type 0 where
  pub server_keepalive_timeout_sec : Option ℕ
  pub server_read_header_timeout_sec : Option ℕ
  pub server_read_body_timeout_sec : Option ℕ
  pub upstream_connect_timeout_sec : Option ℕ
  pub upstream_read_timeout_sec : Option ℕ

pub http_server_timeout : HttpTimeout → HttpServerTimeout
http_server_timeout t = record {
  keepalive_timeout = t.server_keepalive_timeout_sec;
  read_header_timeout = t.server_read_header_timeout_sec;
  read_body_timeout = t.server_read_body_timeout_sec;
}

pub http_upstream_timeout : HttpTimeout → HttpUpstreamTimeout
http_upstream_timeout t = record {
  connect_timeout = t.upstream_connect_timeout_sec;
  read_timeout = t.upstream_read_timeout_sec;
}

pub record ThriftTimeout : Type 0 where
  pub server_keepalive_timeout_sec : Option ℕ
  pub server_message_timeout_sec : Option ℕ

pub thrift_server_timeout : ThriftTimeout → ThriftServerTimeout
thrift_server_timeout t = record {
  keepalive_timeout = t.server_keepalive_timeout_sec;
  message_timeout = t.server_message_timeout_sec;
}

pub data TlsStack : Type 0 where
  rustls native_tls : TlsStack

-- The variants of `HttpVersion` for the upstream.
pub data HttpVersion : Type 0 where
  http2 http11 auto : HttpVersion

pub record HttpOptHandlers : Type 0 where
  pub content_handler : Bool

pub record TlsUserConfig : Type 0 where
  pub key : String
  pub chain : String
  pub stack : TlsStack

-- What the module takes from others: the types of routes and of listeners, the TLS configurations of
-- the two libraries, made of a chain and a key, and the contents of files.
pub record Externals : Type 1 where
  pub HttpRouteConfig : Type 0
  pub ThriftRouteConfig : Type 0
  pub ListenerConfig : Type 0
  pub Tls : Type 0
  pub OpenIdConfig : Type 0
  pub Error : Type 0
  pub file_read_sync : String → Result (List ℕ) Error
  pub rustls_config : List ℕ → List ℕ → Result Tls Error
  pub native_config : List ℕ → List ℕ → Result Tls Error

module _ (x : Externals) where
  open x use {HttpRouteConfig, ThriftRouteConfig, ListenerConfig, Tls, OpenIdConfig, Error}

  pub record ServerHttpUserConfig : Type 0 where
    pub routes : List HttpRouteConfig
    pub timeout : HttpTimeout
    pub upstream_http_version : HttpVersion
    pub http_opt_handlers : HttpOptHandlers

  pub record ServerThriftUserConfig : Type 0 where
    pub route : ThriftRouteConfig
    pub timeout : ThriftTimeout

  pub data ServerProtocolUserConfig : Type 0 where
    user_http : ServerHttpUserConfig → ServerProtocolUserConfig
    user_thrift : ServerThriftUserConfig → ServerProtocolUserConfig

  pub record ServerUserConfig : Type 0 where
    pub name : String
    pub tls : Option TlsUserConfig
    pub protocol_config : ServerProtocolUserConfig

  pub data ServerProtocolConfig : Type 0 where
    http :
        List HttpRouteConfig
        → HttpServerTimeout
        → HttpUpstreamTimeout
        → HttpVersion
        → HttpOptHandlers
        → ServerProtocolConfig
    thrift : ThriftRouteConfig → ThriftServerTimeout → ServerProtocolConfig

  -- `tls` is `none` for `TlsConfig::None`.
  pub record ServerConfig : Type 0 where
    pub name : String
    pub tls : Option Tls
    pub auth_config : Option OpenIdConfig
    pub protocol : ServerProtocolConfig

  pub record ServiceConfig (S : Type 0) : Type 0 where
    pub listener : ListenerConfig
    pub server : S

  -- `TlsConfig::try_into` for the library that is asked for.
  abbrev pub tls_for : TlsStack → List ℕ → List ℕ → Result Tls Error
  tls_for rustls chain key = x.rustls_config chain key
  tls_for native_tls chain key = x.native_config chain key

  pub tls_config : Option TlsUserConfig → Result (Option Tls) Error
  tls_config none = ok none
  tls_config (some inner) = elim (x.file_read_sync inner.chain) [
    | err e ↦ err e
    | ok chain ↦ elim (x.file_read_sync inner.key) [
      | err e ↦ err e
      | ok key ↦ elim (tls_for inner.stack chain key) [ err e ↦ err e | ok tls ↦ ok (some tls) ]
    ]
  ]

  pub protocol_config : ServerProtocolUserConfig → ServerProtocolConfig
  protocol_config (user_http c) =
      http c.routes (http_server_timeout c.timeout) (http_upstream_timeout c.timeout)
        c.upstream_http_version c.http_opt_handlers
  protocol_config (user_thrift c) = thrift c.route (thrift_server_timeout c.timeout)

  -- One round of the loop of `build_server_config`.
  pub server_config : ServiceConfig ServerUserConfig → Result (ServiceConfig ServerConfig) Error
  server_config service = elim (tls_config service.server.tls) [
    | err e ↦ err e
    | ok tls ↦ ok (record {
      listener = service.listener;
      server = record {
        name = service.server.name;
        tls = tls;
        auth_config = none;
        protocol = protocol_config service.server.protocol_config;
      };
    })
  ]

  abbrev pub Servers : Type 0
  Servers = String → Option (ServiceConfig ServerConfig)

  abbrev pub insert : String → ServiceConfig ServerConfig → Servers → Servers
  insert k v servers j = if str_eq k j then some v else servers j

  -- The loop, over the entries of the map in the order in which it yields them.
  pub build_from : List (String × ServiceConfig ServerUserConfig) → Servers → Result Servers Error
  build_from [] servers_new = ok servers_new
  build_from ((key, server) ∷ servers) servers_new = elim (server_config server) [
    | err e ↦ err e
    | ok c ↦ build_from servers (insert key c servers_new)
  ]

  pub build_server_config : List (String × ServiceConfig ServerUserConfig) → Result Servers Error
  build_server_config servers = build_from servers (λ k. none)

  abbrev pub is_space : ℕ → Bool
  is_space b = b == 32 || (b == 13 || (b == 10 || b == 9))

  -- Whether the first byte that is no space is an opening brace.
  pub is_json : List ℕ → Bool
  is_json [] = false
  is_json (b ∷ content) = if is_space b then is_json content else b == 123

  -- `parse_from_slice` over the parsers of JSON and of TOML.
  pub parse_from_slice :
      {T : Type 0} (json toml : List ℕ → Result T Error) → List ℕ → Result T Error
  parse_from_slice json toml content = if is_json content then json content else toml content

  -- `Config::parse_service_config`.
  pub parse_service_config :
      (json toml : List ℕ → Result (List (String × ServiceConfig ServerUserConfig)) Error)
      → List ℕ
      → Result Servers Error
  parse_service_config json toml file_content = elim (parse_from_slice json toml file_content) [
    | err e ↦ err e
    | ok servers ↦ build_server_config servers
  ]
