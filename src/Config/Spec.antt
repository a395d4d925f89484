-- ===== src/Config/Spec.antt =====
-- What the configuration of a server is to be, field by field, of what stands in the file.
use monolake.Base.{
  ℕ, List, Option, none, some, Result, ok, err, Result-cases, inl, inr, ◌≡◌, refl, arith,
}
use mathlib.Core.Path.{subst}
use monolake.Config.{
  Externals, TlsStack, rustls, native_tls, TlsUserConfig, ServerHttpUserConfig,
  ServerThriftUserConfig, ServerProtocolUserConfig, user_http, user_thrift, ServerProtocolConfig,
  http, thrift, tls_for, tls_config, protocol_config, http_server_timeout, http_upstream_timeout,
  thrift_server_timeout,
}

module _ (x : Externals) where
  open x use {Tls, Error, file_read_sync, rustls_config, native_config}

  -- The protocol of the file's, each timeout in its place.
  pub data SameProtocol : ServerProtocolUserConfig x → ServerProtocolConfig x → Type 0 where
    same_http :
        (c : ServerHttpUserConfig x)
        → SameProtocol (user_http c) (
            http c.routes
              (record {
                keepalive_timeout = c.timeout.server_keepalive_timeout_sec;
                read_header_timeout = c.timeout.server_read_header_timeout_sec;
                read_body_timeout = c.timeout.server_read_body_timeout_sec;
              })
              (record {
                connect_timeout = c.timeout.upstream_connect_timeout_sec;
                read_timeout = c.timeout.upstream_read_timeout_sec;
              })
              c.upstream_http_version
              c.http_opt_handlers)
    same_thrift :
        (c : ServerThriftUserConfig x)
        → SameProtocol (user_thrift c) (
            thrift c.route (record {
              keepalive_timeout = c.timeout.server_keepalive_timeout_sec;
              message_timeout = c.timeout.server_message_timeout_sec;
            }))

  -- A TLS configuration of the library that is asked for, of the files' contents.
  pub data MadeBy : TlsStack → List ℕ → List ℕ → Result Tls Error → Type 0 where
    by_rustls :
        (chain key : List ℕ) (r : Result Tls Error)
        → rustls_config chain key ≡ r
        → MadeBy rustls chain key r
    by_native :
        (chain key : List ℕ) (r : Result Tls Error)
        → native_config chain key ≡ r
        → MadeBy native_tls chain key r

  pub data TlsOf : Option TlsUserConfig → Option Tls → Type 0 where
    without_tls : TlsOf none none
    with_tls :
        (c : TlsUserConfig) (chain key : List ℕ) (tls : Tls)
        → file_read_sync c.chain ≡ ok chain
        → file_read_sync c.key ≡ ok key
        → MadeBy c.stack chain key (ok tls)
        → TlsOf (some c) (some tls)

  -- Why there is no TLS configuration.
  pub data TlsFails (c : TlsUserConfig) (e : Error) : Type 0 where
    no_chain : file_read_sync c.chain ≡ err e → TlsFails c e
    no_key : file_read_sync c.key ≡ err e → TlsFails c e
    not_made :
        (chain key : List ℕ)
        → file_read_sync c.chain ≡ ok chain
        → file_read_sync c.key ≡ ok key
        → MadeBy c.stack chain key (err e)
        → TlsFails c e

  pub protocol_config-SameProtocol :
      (u : ServerProtocolUserConfig x) → SameProtocol u (protocol_config x u)
  unfolding protocol_config http_server_timeout http_upstream_timeout thrift_server_timeout
  protocol_config-SameProtocol (user_http c) = same_http c
  protocol_config-SameProtocol (user_thrift c) = same_thrift c

  tls_for-MadeBy :
      (stack : TlsStack) (chain key : List ℕ) → MadeBy stack chain key (tls_for x stack chain key)
  tls_for-MadeBy rustls chain key = by_rustls chain key _ refl
  tls_for-MadeBy native_tls chain key = by_native chain key _ refl

  -- A result for each outcome.
  pub data TlsResult : Option TlsUserConfig → Result (Option Tls) Error → Type 0 where
    made : (u : Option TlsUserConfig) (tls : Option Tls) → TlsOf u tls → TlsResult u (ok tls)
    failed : (c : TlsUserConfig) (e : Error) → TlsFails c e → TlsResult (some c) (err e)

  pub tls_config-TlsResult : (u : Option TlsUserConfig) → TlsResult u (tls_config x u)
  unfolding tls_config
  tls_config-TlsResult none = made none none without_tls
  tls_config-TlsResult (some c) = elim (Result-cases (file_read_sync c.chain)) [
    | inr (bad, e) ↦ rw (e, tls_config) (failed c bad (no_chain e))
    | inl (chain, e) ↦ elim (Result-cases (file_read_sync c.key)) [
      | inr (bad, f) ↦ rw (e, tls_config) (rw f (failed c bad (no_key f)))
      | inl (key, f) ↦
          rw (e, tls_config)
            (rw f (elim (Result-cases (tls_for x c.stack chain key)) [
              | inr (bad, g) ↦ rw g (
                  failed c bad (
                    not_made chain key e f
                      (subst (MadeBy c.stack chain key) g (tls_for-MadeBy c.stack chain key))))
              | inl (tls, g) ↦ rw g (
                  made (some c) (some tls) (
                    with_tls c chain key tls e f
                      (subst (MadeBy c.stack chain key) g (tls_for-MadeBy c.stack chain key))))
            ]))
    ]
  ]

  -- The same, for a result that is known.
  pub tls_config-TlsOf :
      (u : Option TlsUserConfig) (tls : Option Tls) → tls_config x u ≡ ok tls → TlsOf u tls
  tls_config-TlsOf u tls e = at_ok u (tls_config x u) tls (tls_config-TlsResult u) e
    where
      at_ok :
          (u : Option TlsUserConfig) (r : Result (Option Tls) Error) (tls : Option Tls)
          → TlsResult u r
          → r ≡ ok tls
          → TlsOf u tls
      at_ok u r tls (made v t h) e =
          let same : t ≡ tls = ground (arith, e) in subst (TlsOf v) same h
      at_ok u r tls (failed c bad h) e = absurd (ground (arith, e))

  pub tls_config-TlsFails :
      (u : Option TlsUserConfig) (e : Error)
      → tls_config x u ≡ err e
      → (c : TlsUserConfig) × (u ≡ some c) × TlsFails c e
  tls_config-TlsFails u e q = at_err u (tls_config x u) e (tls_config-TlsResult u) q
    where
      at_err :
          (u : Option TlsUserConfig) (r : Result (Option Tls) Error) (e : Error)
          → TlsResult u r
          → r ≡ err e
          → (c : TlsUserConfig) × (u ≡ some c) × TlsFails c e
      at_err u r e (made v t h) q = absurd (ground (arith, q))
      at_err u r e (failed c bad h) q =
          let same : bad ≡ e = ground (arith, q) in (c, refl, subst (TlsFails c) same h)
