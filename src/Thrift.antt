-- ===== src/Thrift.antt =====
-- monolake-services/src/thrift: the loop over one connection, and the proxy handler.
pub mod Core
pub mod Proxy
