-- ===== src/Http/Upstream/Proxied.antt =====
-- What the client gets of the upstream handler, and what the upstream gets of the client.
use Prim.Native.String.{String}
use text.Mathlib.Text.{◌==◌ as str_eq}
use monolake.Base.{ℕ, Bool, true, false, List, [], ◌∷◌, Option, none, some, ◌⊎◌, ◌≡◌}
use monolake.Http.Message.{
  HeaderMaps, HeaderLaws, Request, Response, ResponseWithContinue, generate_response,
}
use monolake.Http.Rewrite.{Uris, host_header}
use monolake.Http.Upstream.{
  forwarded, AcceptedAddr, HttpConnection, HttpUpstreamTimeout, Network, Context, forwarded_value,
}

module _ (h : HeaderMaps) (laws : HeaderLaws h) (u : Uris) (B : Type 0) (n : Network h u B) where
  open n use {SocketAddr, UnixAddr, Conn}

  abbrev pub or_else : Option (List ℕ) → Option (List ℕ) → Option (List ℕ)
  or_else (some v) w = some v
  or_else none w = w

  -- The client's address: the remote one of the PROXY protocol, else the peer's.
  abbrev pub ClientIs : Context h u B n → AcceptedAddr SocketAddr UnixAddr → Type 0
  ClientIs ctx addr =
      (ctx.remote_addr ≡ some (some addr))
      ⊎ (((ctx.remote_addr ≡ none) ⊎ (ctx.remote_addr ≡ some none)) × (addr ≡ ctx.peer_addr))

  -- A request as it is sent for the client's.
  pub record IsForwarded (ctx : Context h u B n) (req q : Request h B) : Type 0 where
    pub same_uri : q.uri ≡ req.uri
    pub same_body : q.body ≡ req.body
    pub client :
        (addr : AcceptedAddr SocketAddr UnixAddr) × ClientIs ctx addr
        × (h.get q.headers forwarded
            ≡ or_else (forwarded_value h u B n addr) (h.get req.headers forwarded))
    pub others :
        (name : String)
        → str_eq forwarded name ≡ false
        → str_eq host_header name ≡ false
        → h.get q.headers name ≡ h.get req.headers name

  -- The scheme of the request decides how its upstream is reached.
  abbrev pub IsHttps : Request h B → Type 0
  IsHttps req = (s : String) × (u.scheme req.uri ≡ some s) × (str_eq s "https" ≡ true)

  abbrev pub IsPlain : Request h B → Type 0
  IsPlain req =
      (u.scheme req.uri ≡ none)
      ⊎ ((s : String) × (u.scheme req.uri ≡ some s) × (str_eq s "https" ≡ false))

  -- What the host of the request and its port, or 80, are resolved to.
  pub data Resolves (req : Request h B) (addrs : Option (List SocketAddr)) : Type 0 where
    with_port :
        (host : String) (port : ℕ)
        → u.host req.uri ≡ some host
        → n.port req.uri ≡ some port
        → n.to_socket_addrs host port ≡ addrs
        → Resolves req addrs
    without_port :
        (host : String)
        → u.host req.uri ≡ some host
        → n.port req.uri ≡ none
        → n.to_socket_addrs host 80 ≡ addrs
        → Resolves req addrs

  -- The connect timer is set, and it has fired.
  abbrev pub TimedOut : HttpUpstreamTimeout → Type 0
  TimedOut timeouts = (t : ℕ) × (timeouts.connect_timeout ≡ some t) × (n.elapsed ≡ true)

  -- The connection to the upstream of the request: to the first address of its host, or over TLS.
  pub data Connects (req : Request h B) (conn : HttpConnection Conn) : Type 0 where
    plainly :
        (key : SocketAddr) (others : List SocketAddr)
        → IsPlain req
        → Resolves req (some (key ∷ others))
        → n.connect key ≡ some conn
        → Connects req conn
    over_tls :
        (key : n.TlsAddr)
        → IsHttps req
        → n.tls_addr req.uri ≡ some key
        → n.connect_tls key ≡ some conn
        → Connects req conn

  -- What can go wrong, with the status that the client gets.
  pub data Fails (timeouts : HttpUpstreamTimeout) (ctx : Context h u B n) (req : Request h B)
      : ℕ → Type 0 where
    no_host : IsPlain req → u.host req.uri ≡ none → Fails timeouts ctx req 400
    not_resolved : IsPlain req → Resolves req none → Fails timeouts ctx req 400
    resolved_to_none : IsPlain req → Resolves req (some []) → Fails timeouts ctx req 400
    not_connected :
        (key : SocketAddr) (others : List SocketAddr)
        → IsPlain req
        → Resolves req (some (key ∷ others))
        → n.connect key ≡ none
        → Fails timeouts ctx req 502
    no_tls_addr : IsHttps req → n.tls_addr req.uri ≡ none → Fails timeouts ctx req 400
    timed_out :
        (key : n.TlsAddr)
        → IsHttps req
        → n.tls_addr req.uri ≡ some key
        → TimedOut timeouts
        → Fails timeouts ctx req 502
    tls_not_connected :
        (key : n.TlsAddr)
        → IsHttps req
        → n.tls_addr req.uri ≡ some key
        → n.connect_tls key ≡ none
        → Fails timeouts ctx req 502
    no_answer :
        (conn : HttpConnection Conn) (q : Request h B)
        → Connects req conn
        → IsForwarded ctx req q
        → n.send conn q ≡ none
        → Fails timeouts ctx req 502

  pub data Proxied (timeouts : HttpUpstreamTimeout) (ctx : Context h u B n) (req : Request h B)
      : ResponseWithContinue h B → Type 0 where
    refused :
        (status : ℕ) (close : Bool)
        → Fails timeouts ctx req status
        → Proxied timeouts ctx req (generate_response h B status close, true)
    answered :
        (conn : HttpConnection Conn) (q : Request h B) (resp : Response h B)
        → Connects req conn
        → IsForwarded ctx req q
        → n.send conn q ≡ some resp
        → Proxied timeouts ctx req (resp, true)
