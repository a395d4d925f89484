-- ===== src/Factories/ThriftStack.antt =====
-- The stack of layers of `l7_factory` for Thrift: the proxy handler, the TTHeader core and TLS.
use monolake.Base.{Option, some, Result, ok, ◌≡◌, refl}
use monolake.Thrift.Core.{ThriftServerTimeout}
use monolake.Factories.{
  Make, TtheaderCoreService, make_ttheader, UnifiedTlsService, plain, TlsConfig, without_tls,
  make_tls,
}

abbrev pub ThriftService : Type 0 → Type 0 → Type 0 → Type 0
ThriftService A N Handler = UnifiedTlsService A N (TtheaderCoreService Handler)

module _ {Config Identity A N AnyError Handler E : Type 0} (acceptor : Config → A)
    (build : Identity → Result N AnyError) (into : E → AnyError) where
  -- The last argument is the factory of the proxy handler.
  pub make_thrift_stack :
      ThriftServerTimeout
      → TlsConfig Config Identity
      → Make Handler E
      → Make (ThriftService A N Handler) AnyError
  make_thrift_stack timeout tls handler =
      make_tls acceptor build into tls (make_ttheader timeout handler)

  -- Without TLS, a stack over a factory that looks at no old service has the new timeout and the new
  -- handler, whatever the old stack was.
  pub make_thrift_stack-plain :
      (timeout : ThriftServerTimeout) (made : Result Handler E) (h : Handler)
      (old : Option (ThriftService A N Handler))
      → made ≡ ok h
      → make_thrift_stack timeout without_tls (λ o. some made) old
        ≡ some (ok (plain (record { handler_chain = h; thrift_timeout = timeout })))
  unfolding make_thrift_stack make_tls make_ttheader
  make_thrift_stack-plain timeout made h old e = rw (e, make_thrift_stack) refl
