-- ===== src/Lib.antt =====
-- monolake: a verification of the core of the proxy framework.
--
-- The program serves connections on worker threads. Each thread runs a `ServiceExecutor`, which
-- builds services from factories, deploys them at named sites and replaces them while connections
-- go on. The configuration manager reads a file and brings all the threads in step with it, by two
-- stages of commands that it can undo. A connection goes through a stack of services: the PROXY
-- protocol, the detection of HTTP/2, the HTTP core with its handlers, the router with its load
-- balancers. A canceller lets one side of a connection wake all those that wait for its end.
--
-- Files and the code that they model:
--   Base                 names and lemmas that the others share; `Base.Panic` is a computation that
--                        may panic.
--   Cancel/LinkedList    monolake-services/src/common/cancel/linked_list.rs. `Represents` says what
--                        sequence of entries a list in a vector stands for; the children prove
--                        `push_back`, `remove` and the iteration against it.
--   Cancel/Canceller     monolake-services/src/common/cancel/mod.rs, with the waiters' wakers as
--                        numbers. `Spec` is what a canceller promises, with no list in it, and
--                        `Runs` the refinement over any history of events.
--   Orchestrator/Executor    monolake-core/src/orchestrator/service_executor.rs: `ServiceExecutor`,
--                        `ServiceCommand::execute` and `run`. `Inv` has the invariant, `Stages`
--                        what the deployments achieve, `Views` what the commands leave alone.
--   Orchestrator/Workers, Orchestrator/Serve
--                        monolake-core/src/orchestrator/worker_manager.rs and mod.rs: the dispatch of
--                        a command to all the workers, `ResultGroup::err`, and the loop `serve`;
--                        `Spawn` is `spawn_workers_inner`.
--   Orchestrator/Runtime monolake-core/src/orchestrator/runtime.rs and the runtime's part of
--                        monolake-core/src/config/mod.rs: which runtime a worker gets.
--   ConfigManager        monolake/src/config/manager.rs: `diff`, `prepare`, `commit`, `abort`,
--                        `reload_services` and `reload_file`. `Diff`, `Rollback`, `Staged` and
--                        `Commit` prove the stages, `Reload` and `ReloadFile` the whole.
--   Selector             monolake-services/src/common/selector.rs: the selectors, `LoadBalancer`,
--                        `ServiceSelector` and `ServiceRouter`.
--   Stream, Detect       monolake-services/src/common/detect.rs and the preface of
--                        monolake-services/src/http/detect.rs, over streams that read some bytes.
--   ProxyProtocol        monolake-services/src/proxy_protocol/mod.rs: `call` up to the call of the
--                        inner service.
--   Config               monolake/src/config/mod.rs: `build_server_config`, `parse_from_slice` and the
--                        types of the configuration; `Build` has what is built, and `Extract`
--                        monolake/src/config/extractor.rs, what the layers take of it.
--   Factories            `make_via_ref` of the layers, in monolake-services/src/http, tls,
--                        proxy_protocol and common; `Upstream` is the factory of the upstream
--                        handler, `Stack` and `ThriftStack` are the stacks of
--                        monolake/src/factory.rs.
--   Http                 monolake-services/src/http: `ConnReuse` is
--                        handlers/connection_persistence.rs, `Core` the HTTP/1 loop of core.rs, `H2`
--                        its HTTP/2 loop, `Responder` the error responder of util.rs with the router
--                        of handlers/route.rs, `Rewrite` and `Route` the rest of that file,
--                        `Upstream` handlers/upstream.rs, `Content` handlers/content_handler.rs,
--                        `OpenId` handlers/openid.rs with its HTTP client in `Client`,
--                        `Accompany` the pair of futures of util.rs, `Message` the messages with
--                        `generate_response`; `Fixtures` are header maps for the tests.
--   Thrift               monolake-services/src/thrift: the loop of ttheader.rs and the proxy handler of
--                        handlers/proxy.rs.
--   Services             the small services of monolake-services/src/common: map.rs, timeout.rs,
--                        delay.rs and panic.rs; `Echo` is monolake-services/src/tcp/echo.rs.
--   Listener             monolake-core/src/listener.rs: the builder of listeners and the streams that
--                        they accept, over the sockets of TCP and Unix.
-- The modules called Examples hold concrete values.
--
-- How the code is modelled. State that is shared or mutated is passed explicitly: slots of services
-- stand in a store, the cell of a round robin is part of the selector that a selection returns. A
-- panic is a value. Machine words appear where they matter: `NULL` of the linked list is the largest
-- one, and the theorems ask for fewer live entries than that. Loops over data are structural. The
-- loops over a stream run on fuel: for the detection the length of the pattern and one more is enough,
-- for a PROXY header the 230 bytes of the buffer, since a round that goes on has read a byte, and for
-- the echo more than there are bytes to come; that the loop of the PROXY header does not end
-- otherwise is a theorem too.
--
-- Concurrency is a schedule. The OpenID handler is a set of tasks that go on in steps between their
-- waits, and share a store of sessions with its lock, where a schedule says which task goes on; the
-- HTTP/2 loop takes the branches of its `select!` in any order. The theorems hold for every schedule.
--
-- Parameters, with what their documentation says as laws: the crates rand, http (header maps and
-- URIs), matchit, proxy_protocol, openidconnect, cookie, url, monoio-transports (connectors) and
-- monoio-http (codecs of bodies, HTTP/2), the streams of monoio, the TLS libraries, the parsers of JSON
-- and TOML, files, and the factories of services and listeners, which a deployment supplies.
--
-- Not modelled: the threads of the workers, the operating system's sockets, the TLS handshakes and
-- certificates, hyper, and the command line, which call other libraries or the operating system; the
-- optional content handler in the stack of layers, which the library service_async puts together.
pub mod Base
pub mod Cancel
pub mod Config
pub mod ConfigManager
pub mod Detect
pub mod Factories
pub mod Http
pub mod Listener
pub mod Orchestrator
pub mod ProxyProtocol
pub mod Selector
pub mod Services
pub mod Stream
pub mod Thrift
