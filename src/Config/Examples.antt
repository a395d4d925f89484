-- ===== src/Config/Examples.antt =====
-- A file with two servers; the second one has a TLS configuration.
use Prim.Native.String.{String}
use text.Mathlib.Text.{◌==◌ as str_eq}
use monolake.Base.{
  ℕ, true, false, List, [], ◌∷◌, Option, none, some, if◌then◌else◌, ok, err, ◌≡◌, refl,
}
use monolake.Config.{
  Externals, TlsStack, HttpVersion, ServerUserConfig, ServiceConfig, ServerProtocolUserConfig,
  ServerConfig, ServerProtocolConfig, build_server_config, is_json, server_config, tls_config,
  protocol_config, thrift_server_timeout,
}
use monolake.Config.Spec.{TlsOf}
use monolake.Config.Extract.{l7_params, asked, l7_params-server_config}
use monolake.Config.Build.{Outcome, build_server_config-Outcome}

abbrev externals : Externals
externals = record {
  HttpRouteConfig = ℕ;
  ThriftRouteConfig = ℕ;
  ListenerConfig = ℕ;
  Tls = List ℕ;
  OpenIdConfig = ℕ;
  Error = ℕ;
  file_read_sync = λ path. if str_eq path "c.pem" then ok (1 ∷ []) else err 2;
  rustls_config = λ chain key. ok chain;
  native_config = λ chain key. err 3;
}

abbrev http_server : ServiceConfig externals (ServerUserConfig externals)
http_server = record {
  listener = 80;
  server = record {
    name = "a";
    tls = none;
    protocol_config = ServerProtocolUserConfig.user_http (record {
      routes = 1 ∷ [];
      timeout = record {
        server_keepalive_timeout_sec = some 60;
        server_read_header_timeout_sec = none;
        server_read_body_timeout_sec = none;
        upstream_connect_timeout_sec = some 2;
        upstream_read_timeout_sec = none;
      };
      upstream_http_version = HttpVersion.auto;
      http_opt_handlers = record { content_handler = false };
    });
  };
}

abbrev thrift_server : ServiceConfig externals (ServerUserConfig externals)
thrift_server = record {
  listener = 81;
  server = record {
    name = "b";
    tls = some (record { key = "c.pem"; chain = "c.pem"; stack = TlsStack.rustls });
    protocol_config = ServerProtocolUserConfig.user_thrift (record {
      route = 5;
      timeout = record { server_keepalive_timeout_sec = none; server_message_timeout_sec = some 9 };
    });
  };
}

abbrev servers : List (String × ServiceConfig externals (ServerUserConfig externals))
servers = ("x", http_server) ∷ ("y", thrift_server) ∷ []

json_after_spaces : is_json externals (32 ∷ 10 ∷ 123 ∷ []) ≡ true
unfolding is_json
json_after_spaces = refl

toml_is_not : is_json externals (91 ∷ 123 ∷ []) ≡ false
unfolding is_json
toml_is_not = refl

build_server_config-Outcome_example :
    Outcome externals (λ k. none) servers (build_server_config externals servers)
build_server_config-Outcome_example =
    build_server_config-Outcome externals servers (refl, (refl, tt))

-- The configuration that the second server gets.
abbrev thrift_config : ServiceConfig externals (ServerConfig externals)
thrift_config = record {
  listener = 81;
  server = record {
    name = "b";
    tls = some (1 ∷ []);
    auth_config = none;
    protocol =
        ServerProtocolConfig.thrift 5
          (record { keepalive_timeout = none; message_timeout = some 9 });
  };
}

thrift_server_made : server_config externals thrift_server ≡ ok thrift_config
unfolding server_config tls_config protocol_config thrift_server_timeout
thrift_server_made = refl

l7_params-server_config_example :
    (tls : Option (List ℕ)) × TlsOf externals thrift_server.server.tls tls
    × (l7_params externals thrift_config.server
        ≡ some (asked externals thrift_server.server.protocol_config tls))
l7_params-server_config_example =
    l7_params-server_config externals thrift_server thrift_config thrift_server_made
