-- ===== src/Lib.antt =====
-- dandelion: a proxy server. An acceptor takes a connection and learns from it the endpoint that
-- the client wants; the configuration chooses a connector, which reaches the endpoint directly or
-- through a further proxy; a fake DNS resolver gives names addresses of its own, so that a
-- connection that a tunnel device captures can be led back to a name.
--
-- Prelude: shared names, Boolean tests, lists, and the monad of fallible code with a state
--   (Prelude/Exec), in which `?` is the bind.
-- Net: std's addresses. `AddrText` is the text of addresses as std parses and prints it, a
--   parameter, with `ReadsBack` as the documented property of it; Net/Decimal is the text of a `u16`,
--   Net/Utf8 the test of `String::from_utf8`, Net/Coded a text of addresses for tests.
-- Endpoint: core/src/core/endpoint.rs. `from_str` reads, `to_string` prints; Endpoint/Split is on
--   `rsplit_once`, Endpoint/RoundTrip on reading back.
-- Io: core/src/core/io.rs. A connection is a parameter, `Io`, with tokio's reads and writes; a
--   `Wire` tells what a peer sees of it, and `IsByteStream` and `ReportsSuccess` are what tokio
--   documents. Io/Rules composes protocols from them, Io/Pipe is a connection that fulfils them;
--   Io/ReadBuf is `read_buf`, and Io/AsyncIo a connection that is polled.
-- Socks5: core/src/core/acceptor/socks5.rs (Socks5/Acceptor, `handshake`) and
--   core/src/core/connector/socks5.rs (Socks5/Connector, `connect`); Socks5/Dialogue joins the two.
-- Tun: core/src/core/tun/resolver.rs. Tun/Lru is the interface of the crate lru; Tun/Pool is
--   `PoolWithBidirectionalMapping`, where `get` is split at its three matches (`get_mapped`,
--   `allocate`, `evict`); Tun/Pool/Queue is its specification, one queue of addresses; Tun/Resolver is
--   `FakeDnsResolver`. A hash map is a function from keys.
-- Tcp: core/src/core/connector/tcp.rs. `poll` is one call of `Future::poll` of
--   `HappyEyeballConnector`; what the lookups, the sockets, the clock and the timer report during the
--   call is its argument `Env`. `connect` polls until a poll is ready.
-- Simplex: core/src/core/simplex/io.rs. Simplex/Stream is `WebSocketStreamToAsyncWrite` over a
--   parameter `Ws` for tungstenite's websocket; `IsInbox` and `IsOutbox` are what `Stream` and `Sink`
--   document of it. The waker is the task that is registered and the list of those that were woken.
--   Simplex/Server is core/src/core/simplex/server.rs with the configuration and the header name of
--   core/src/core/simplex/mod.rs: the request handler, `handshake` (Simplex/Server/Handshake) over the
--   requests that hyper hands on, with the end of its future as an `Outcome`, and `ChainReadBufAndIo`
--   (Simplex/Server/Chain), a connection over a connection. Simplex/Client is
--   core/src/core/simplex/client.rs; Simplex/Tunnel joins the client with the server.
-- Http: core/src/core/acceptor/http.rs. Http/Request is `transform_proxy_request` over the types of
--   the crate http, a parameter; Http/Handler is `handler`, whose state holds a log of the endpoints
--   that were signalled and of the requests that were sent on; Http/Handshake is `handshake`, by its
--   requests, and Http/Handshake/Conn over a connection.
--   Http/Connector is core/src/core/connector/http.rs over the parser of httparse; Http/Dialogue joins
--   the two.
-- Engine: core/src/config/engine. Engine/Connect is connect.rs (and core/src/core/connector/block.rs)
--   over the connectors as an interface, Engine/IpList is iplist.rs, Engine/Resolver is resolver.rs,
--   Engine/Tun is tun.rs, Engine/GeoIp is geoip.rs. Engine/Modules is what each of these files
--   registers with rune, and the context that has them all. Engine/Config and Engine/Serve are mod.rs: the
--   configuration with `load_config`, the task of a connection (`handle`) and the acceptors that run
--   together (Engine/Serve/Run), over the handshakes of Socks5 and Http; Engine/Serve/Onward and Engine/Serve/Tunnel are on whole tasks. The language of the scripts, rune, and the crates are parameters.
-- Cli: core/src/bin/dandelion.rs, over the environment and the files; Cli/Starts is on how it comes
--   to run an engine, Cli/Serves on the whole program.
-- Resolver: core/src/core/resolver. Resolver/Trait is the trait, Resolver/System is system.rs over the
--   crate dns_lookup, Resolver/Hickory is hickory.rs over the crate hickory_resolver.
-- Quic: core/src/core/quic and core/src/core/connector/quic.rs, over the crate quinn.
-- Connector: core/src/core/connector/tls.rs, simplex.rs, quic.rs and, in Connector/Race, speed.rs.
--
-- Bytes and ports are natural numbers, with their bounds as hypotheses where they matter; the
-- conversions of a length to `u8` and of a port to bytes are written out. Recursion is structural, but
-- the loop of the HTTP connector runs on fuel, of which more than there are bytes to come is enough:
-- each round but the last takes one.
--
-- Not modelled: the logging; the set-up of a tunnel device and core/src/core/acceptor/mod.rs, which
-- are calls of crates that nothing uses; the wrappers of types for rune. Cancellation of a future and scheduling are
-- outside the model: an `async` function is the sequence of its operations.
pub mod Prelude
pub mod Net
pub mod Tcp
pub mod Tun
pub mod Socks5
pub mod Io
pub mod Endpoint
pub mod Simplex
pub mod Http
pub mod Engine
pub mod Resolver
pub mod Quic
pub mod Cli
pub mod Connector
