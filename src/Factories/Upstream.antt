-- ===== src/Factories/Upstream.antt =====
-- monolake-services/src/http/handlers/upstream.rs: `UpstreamHandlerFactory`, which is at the bottom of
-- the stack. The connectors of monoio-transports are parameters.
use monolake.Base.{ℕ, Option, none, some, Result, ok}
use monolake.Config.{HttpVersion, http2, http11, auto}
use monolake.Http.Upstream.{HttpUpstreamTimeout}
use monolake.Factories.{Make}

-- Connectors over TCP, or over TLS. `transfer_pool` moves the pool of an old connector to a new one, and
-- gives an error if the two do not fit; the new one is given back as it is then.
pub record Connectors : Type 1 where
  pub Connector : Type 0
  pub Error : Type 0
  pub http2_only : Connector
  pub http1_only : Connector
  pub by_default : Connector
  pub set_read_timeout : Connector → Option ℕ → Connector
  pub transfer_pool : Connector → Connector → Result (Unit {0}) Error × Connector

module _ (k : Connectors) where
  pub connector_for : HttpVersion → k.Connector
  connector_for http2 = k.http2_only
  connector_for http11 = k.http1_only
  connector_for auto = k.by_default

  -- An error of the transfer is only logged.
  pub with_pool : Option k.Connector → k.Connector → k.Connector
  with_pool none connector = connector
  with_pool (some old) connector = (k.transfer_pool old connector).1

module _ (tcp tls : Connectors) where
  pub record UpstreamHandler : Type 0 where
    pub http_connector : tcp.Connector
    pub https_connector : tls.Connector
    pub http_upstream_timeout : HttpUpstreamTimeout

  abbrev pub old_http : Option UpstreamHandler → Option tcp.Connector
  old_http none = none
  old_http (some old) = some old.http_connector

  abbrev pub old_https : Option UpstreamHandler → Option tls.Connector
  old_https none = none
  old_https (some old) = some old.https_connector

  pub make_upstream : {E : Type 0} → HttpUpstreamTimeout → HttpVersion → Make UpstreamHandler E
  make_upstream timeouts version old = some (
      ok (record {
        http_connector =
            with_pool tcp (old_http old)
              (tcp.set_read_timeout (connector_for tcp version) timeouts.read_timeout);
        https_connector =
            with_pool tls (old_https old)
              (tls.set_read_timeout (connector_for tls version) timeouts.read_timeout);
        http_upstream_timeout = timeouts;
      }))
