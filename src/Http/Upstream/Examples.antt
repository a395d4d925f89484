-- ===== src/Http/Upstream/Examples.antt =====
-- An upstream at one address that answers over HTTP/2.
use text.Mathlib.Text.{◌==◌ as str_eq}
use monolake.Base.{ℕ, false, [], ◌∷◌, none, some, if◌then◌else◌, ◌≡◌, refl}
use monolake.Http.Fixtures.{functions}
use monolake.Http.Message.{Request, http_11, http_2, generate_response}
use monolake.Http.Rewrite.{Uris}
use monolake.Http.Upstream.{
  AcceptedAddr, http2, HttpUpstreamTimeout, Network, Context, call, sent, send_http_request,
  add_xff_header,
}
use monolake.Http.Upstream.Proxied.{Proxied}

abbrev uris : Uris
uris = record {
  scheme = λ s. some "http";
  host = λ s. if str_eq s "http://up/" then some "up" else none;
  authority = λ s. none;
  path = λ s. "/";
  path_and_query = λ s. none;
  build = λ a s p. none;
  header_value = λ s. none;
}

abbrev network : Network functions uris ℕ
network = record {
  SocketAddr = ℕ;
  UnixAddr = ℕ;
  TlsAddr = ℕ;
  Conn = ℕ;
  ip_value = λ a. some (a ∷ []);
  pathname = λ p. none;
  port = λ s. none;
  to_socket_addrs = λ host port. some (port ∷ []);
  tls_addr = λ s. none;
  connect = λ a. some (http2 a);
  connect_tls = λ a. none;
  elapsed = false;
  send = λ c q.
      some (record { status = 200; version = q.version; headers = q.headers; body = some q.body });
}

abbrev timeouts : HttpUpstreamTimeout
timeouts = record { connect_timeout = some 2; read_timeout = none }

abbrev context : Context functions uris ℕ network
context = record { peer_addr = AcceptedAddr.tcp 7; remote_addr = some none }

abbrev request : Request functions ℕ
request = record { version = http_11; uri = "http://up/"; headers = λ n. some []; body = 1 }

abbrev lost : Request functions ℕ
lost = record { version = http_11; uri = "/"; headers = λ n. some []; body = 1 }

reaches : (call functions uris ℕ network timeouts request context).0.version ≡ http_2
unfolding call send_http_request sent add_xff_header
reaches = refl

forwards :
    (call functions uris ℕ network timeouts request context).0.headers "forwarded" ≡ some (7 ∷ [])
unfolding call send_http_request sent add_xff_header
forwards = refl

no_host_is_400 : (call functions uris ℕ network timeouts lost context).0.status ≡ 400
unfolding call send_http_request sent add_xff_header generate_response
no_host_is_400 = refl
