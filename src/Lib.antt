-- ===== src/Lib.antt =====
-- Verification of server-naive-rs, a NaiveProxy server. A client opens a CONNECT request over
-- HTTP/2 or HTTP/3; the handler routes its target, connects, and relays through a transport that
-- frames the first eight writes of each direction with padding.
--
-- The parts and the files that model them:
--   Padding: src/transport/padding.rs. `State` is the struct, `Read` poll_read, `Write` poll_write,
--     poll_flush and poll_shutdown, `Random` the generator and the response header. `Protocol`
--     is an independent decoder of the format; `Read/Refines`, `RoundTrip` and `Session` relate
--     the code to it. Each loop body is a function of what the inner stream answered; the inner
--     stream is `AsyncRead` and `AsyncWrite` of `Stream`, with the laws `IsReader` and `IsWriter`.
--   IpFilter: src/core/ip_filter.rs.
--   Address: src/core/address.rs. The root is the type, its accessors and Display, `Authority`
--     from_authority; `RoundTrip` is about both. std's parsers and printing are parameters.
--   Dns: src/core/dns.rs, over a parameter for dns-cache-rs.
--   Router: `Direct` is DirectRouter of src/core/hooks.rs; `Acl` is AclRouter of src/acl.rs, over
--     parameters for the rules and dialers of acl-engine-rs; `Safety` is about both.
--   Connect: connect_one, connect_ip_list, connect_direct and resolve_info_from_ips of
--     src/handler.rs. Each function also returns the list of its attempts.
--   Connection: src/core/connection.rs. A token and its clones are one name; the maps are association
--     lists; a user's id is a number. The root has each operation as one step. `Abstract` is what the
--     registry promises and `Refines` that it keeps it, over any history of calls. `Steps` are the
--     single accesses to a map, `Interleaved` the tasks whose accesses interleave, as a step relation;
--     `InStep` and `Settled` are about these.
--   Uot: src/uot.rs. The root is the framing, the request and the input loop where every send succeeds;
--     `Relaying` is handle_uot_stream with its two loops, one event for what a select! yields. std's
--     reading and printing of addresses is a parameter.
--   Auth: parse_basic_auth of src/handler.rs, with base64 and std's text functions as parameters.
--   Request: process_h2_request_pingora and process_h3_request_quiche of src/handler.rs. The root is
--     the decision that both make, from the parts of a request; `H2` and `H3` are the two entry points
--     with the reading of their headers and the frames they write, `Answers` the early returns,
--     `Entries` sets the two beside each other, and `Judged` describes the decision apart from its order.
--     std's parsers, the authenticator and the router are parameters.
--   H3Stream: src/transport/quiche_stream.rs. The channels are parameters with the laws IsReceiver and
--     IsSender; `Reading` and `Writing` fill the stream interface with the reader and the writer, and
--     `Session` runs the padded transport over them.
--   Relay: src/core/relay.rs. The root is DirectionalBuffer and poll_copy, `Bidirectional` the closure
--     that copy_bidirectional_with_stats polls and what it makes of the outcome. `Pass`, `Round` and `Copy`
--     are about one direction, `Duplex` about both, `Idle` about the timer, `Outcome` about the caller.
--   Outbound: the outbounds of src/acl.rs. The root is OutboundHandler::from_entry, `Engine` is
--     AclEngine::new and new_default; the dialers, the test sockets and the rules are parameters.
--     `Options` is about from_entry, `Configured` about the engine.
--   Tunnel: process_tunnel of src/handler.rs with handle_direct_connect, handle_proxy_connect and relay,
--     and detect_uot; its branch for UDP over TCP runs handle_uot_stream of Uot, with the bytes that the
--     client sends through the padding and the events of the two loops as arguments. A tunnel's polls,
--     and what other connections do to the registry meanwhile, are arguments too; it returns the
--     connections it tried and the datagrams it sent. `Dials` and `Relaying` are about it;
--     `Serving` is process_h3_request_quiche as a whole, from the parts of the request.
--   Startup: src/main.rs up to the running server, as a chain of steps with the calls to the panel, and
--     load_acl_config of src/acl.rs; `World` holds what it runs in. `Served` puts the entry points of
--     src/handler.rs behind it. Shutdown: src/main.rs behind the
--     start, the kicks of changed users and the wait for the connections to go, 51 rounds long, since
--     its deadline is five seconds and a round sleeps for 100 ms.
--   Backend: src/quiche_runner.rs, src/transport/quiche_tls.rs and src/pingora_runner.rs. The root is
--     the start of both backends and their settings, `Accepting` the accept loop of HTTP/3 with the
--     tasks of its connections, as a step relation, `Limits` is about it.
--   Bridge: src/transport/pingora_session.rs, one event for each round of the loop.
--   Config: src/config.rs. Server: src/core/server.rs.
--   ConfigAuto: src/config_auto.rs, with the readings of the machine as arguments; usize has 64 bits.
--   Common: notation, maps, and lemmas on lists and bits.
--
-- State is passed explicitly: an operation takes the struct and returns it with the answer. A pinned
-- inner stream is a value that each call replaces. Loops run on fuel, and an operation returns none
-- where the fuel ends: poll_read has `read_rounds`, more than a well-formed state can use, since a
-- pass either returns or uses up padding or a header; the drain of a frame has as many rounds as
-- the frame has bytes, since a write that takes none is an error; the input loop of Uot needs a
-- round for each packet and one for the end; a poll of the HTTP/3 reader one for each frame queued and
-- one more; a poll of a direction of the relay a pass for each byte to come and two, each with as many
-- writes as the buffer has bytes. Integers are natural numbers, with the wrap-around of
-- u64 and u8 written out.
--
-- Not modelled: wakers and task scheduling, the texts of errors and logs, socket options, time
-- (a timeout is one answer of an attempt, and a wait reads a clock), the pipe between an HTTP/2
-- tunnel and its bridge, and the parts that the manifest lists as such. What an inner stream has
-- delivered when it fails is not specified, as in tokio.
pub mod Address
pub mod Auth
pub mod Backend
pub mod Bridge
pub mod Common
pub mod Config
pub mod ConfigAuto
pub mod Connect
pub mod Connection
pub mod Dns
pub mod H3Stream
pub mod IpFilter
pub mod Outbound
pub mod Padding
pub mod Relay
pub mod Request
pub mod Router
pub mod Server
pub mod Shutdown
pub mod Startup
pub mod Stream
pub mod Tunnel
pub mod Uot
