-- ===== src/Http/Upstream.antt =====
-- monolake-services/src/http/handlers/upstream.rs: `UpstreamHandler::call`, which proxies a request to
-- its upstream, for one request and what the network does meanwhile.
mod Proxied
mod Examples
use Prim.Native.String.{String}
use text.Mathlib.Text.{◌==◌ as str_eq}
use monolake.Base.{
  ℕ, Bool, true, false, List, [], ◌∷◌, Option, none, some, if◌then◌else◌, Option-cases, Bool-cases,
  ◌⊎◌, inl, inr, ◌≡◌, refl, arith,
}
use monolake.Http.Message.{
  HeaderMaps, HeaderLaws, http_11, http_2, Request, Response, ResponseWithContinue,
  generate_response,
}
use monolake.Http.Rewrite.{Uris, host_header}

abbrev pub forwarded : String
forwarded = "forwarded"

-- `AcceptedAddr`.
pub data AcceptedAddr (SocketAddr UnixAddr : Type 0) : Type 0 where
  tcp : SocketAddr → AcceptedAddr SocketAddr UnixAddr
  unix : UnixAddr → AcceptedAddr SocketAddr UnixAddr

-- `HttpConnection`.
pub data HttpConnection (C : Type 0) : Type 0 where
  http1 http2 : C → HttpConnection C

-- The timeouts, in seconds.
pub record HttpUpstreamTimeout : Type 0 where
  pub connect_timeout : Option ℕ
  pub read_timeout : Option ℕ

module _ (h : HeaderMaps) (u : Uris) (B : Type 0) where
  -- The addresses of the standard library and the connectors of monoio-transports: what they give for
  -- this request. `none` is an error.
  pub record Network : Type 1 where
    pub SocketAddr : Type 0
    pub UnixAddr : Type 0
    pub TlsAddr : Type 0
    pub Conn : Type 0
    pub ip_value : SocketAddr → Option (List ℕ)
    pub pathname : UnixAddr → Option String
    pub port : String → Option ℕ
    pub to_socket_addrs : String → ℕ → Option (List SocketAddr)
    pub tls_addr : String → Option TlsAddr
    pub connect : SocketAddr → Option (HttpConnection Conn)
    pub connect_tls : TlsAddr → Option (HttpConnection Conn)
    -- Whether the connect timer fires before the connection is made.
    pub elapsed : Bool
    pub send : HttpConnection Conn → Request h B → Option (Response h B)

  module _ (n : Network) where
    open n use {SocketAddr, UnixAddr, TlsAddr, Conn}

    -- The context's addresses; the outer `none` is a context without a remote address.
    pub record Context : Type 0 where
      pub peer_addr : AcceptedAddr SocketAddr UnixAddr
      pub remote_addr : Option (Option (AcceptedAddr SocketAddr UnixAddr))

    abbrev pub client_addr : Context → AcceptedAddr SocketAddr UnixAddr
    client_addr ctx = elim ctx.remote_addr [
      | none ↦ ctx.peer_addr
      | some remote ↦ elim remote [ none ↦ ctx.peer_addr | some addr ↦ addr ]
    ]

    abbrev pub forwarded_value : AcceptedAddr SocketAddr UnixAddr → Option (List ℕ)
    forwarded_value (tcp addr) = n.ip_value addr
    forwarded_value (unix addr) = elim (n.pathname addr) [
      | none ↦ none
      | some path ↦ u.header_value path
    ]

    pub add_xff_header : h.Map → Context → h.Map
    add_xff_header headers ctx = elim (forwarded_value (client_addr ctx)) [
      | none ↦ headers
      | some value ↦ h.insert headers forwarded value
    ]

    abbrev pub failed : ℕ → Bool → ResponseWithContinue h B
    failed status close = (generate_response h B status close, true)

    -- The request as it is sent over a plain connection.
    abbrev pub for_connection : HttpConnection Conn → Request h B → Request h B
    for_connection (http1 conn) req = record req { version = http_11 }
    for_connection (http2 conn) req = record req {
      version = http_2;
      headers = h.remove req.headers host_header;
    }

    abbrev pub port_or_80 : Option ℕ → ℕ
    port_or_80 (some port) = port
    port_or_80 none = 80

    pub sent : HttpConnection Conn → Request h B → ResponseWithContinue h B
    sent conn req = elim (n.send conn req) [ some resp ↦ (resp, true) | none ↦ failed 502 false ]

    pub send_http_request : Request h B → ResponseWithContinue h B
    send_http_request req = elim (u.host req.uri) [
      | none ↦ failed 400 true
      | some host ↦ elim (n.to_socket_addrs host (port_or_80 (n.port req.uri))) [
        | none ↦ failed 400 true
        | some addrs ↦ elim addrs [
          | [] ↦ failed 400 true
          | key ∷ others ↦ elim (n.connect key) [
            | none ↦ failed 502 true
            | some conn ↦ sent conn (for_connection conn req)
          ]
        ]
      ]
    ]

    -- A timer that is not set does not fire.
    abbrev pub times_out : Option ℕ → Bool
    times_out none = false
    times_out (some t) = n.elapsed

    pub send_https_request : HttpUpstreamTimeout → Request h B → ResponseWithContinue h B
    send_https_request timeouts req = elim (n.tls_addr req.uri) [
      | none ↦ failed 400 true
      | some key ↦
          if times_out timeouts.connect_timeout
          then failed 502 true
          else elim (n.connect_tls key) [ none ↦ failed 502 true | some conn ↦ sent conn req ]
    ]

    abbrev pub is_https : Option String → Bool
    is_https none = false
    is_https (some scheme) = str_eq scheme "https"

    pub call : HttpUpstreamTimeout → Request h B → Context → ResponseWithContinue h B
    call timeouts req ctx =
        let req' : Request h B = record req { headers = add_xff_header req.headers ctx } in
        if is_https (u.scheme req.uri)
        then send_https_request timeouts req'
        else send_http_request req'
