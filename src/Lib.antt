-- ===== src/Lib.antt =====
-- iog: a gateway that carries the TCP connections of a local application through one connection
-- between a client and a server (Rust, tokio). The application connects to the server (or is
-- reached by the client); every connection is a link with a 16-bit identifier; its data travels in
-- packets with a 16-byte header, compressed from 1 KB on; the client authenticates by a challenge.
--
-- How the parts interact. A gateway of either side (gateway/server.rs, gateway/client.rs) holds a
-- base gateway (gateway/mod.rs) with a registry of links (gateway/link.rs), counters and
-- statistics (gateway/consts.rs). The base writes and reads packets (gateway/packet.rs), passes
-- payloads through gateway/compression.rs, reads into buffers of gateway/buffer_pool.rs and
-- records what it does (gateway/metrics.rs). The server authenticates a client (gateway/auth.rs),
-- keeps its session (gateway/session_store.rs), routes new application connections to it with
-- `Open`, and runs one loop per client and one per link; the client mirrors these loops.
--
-- Files, with paths from src/:
--   Packet and below          gateway/packet.rs: PacketGW, PacketType, to_bytes, from_bytes
--   Compression               gateway/compression.rs: compress_data, decompress_data
--   Auth                      gateway/auth.rs: compute_response, verify_response
--   Statistics                gateway/consts.rs: GatewayState, ConnectionStatistics
--   Link                      gateway/link.rs: Link and its methods
--   BufferPool                gateway/buffer_pool.rs: acquire and the Drop of a buffer; Growth for
--                             the capacities
--   Metrics                   gateway/metrics.rs: the calls that reach the collectors; Server for
--                             what its HTTP server answers
--   Configuration             configuration.rs, consts.rs: the mode and validate
--   SessionStore              gateway/session_store.rs: save_session to session_count; File for
--                             persist_session_id and load_session_id
--   Gateway                   gateway/mod.rs: state, counters, registry
--   Gateway/Send, Receive     gateway/mod.rs: send_gw_packet, send_pong, read_gw_packet
--   Gateway/Loops             the forwarding loops of either side, any number at once
--   Gateway/Drop              a link removed and closed, as the exchange loops do it
--   Server                    gateway/server.rs: GatewayServer; Handshake for
--                             authenticate_client, Sessions for handle_gateway_connection,
--                             on_disconnection and shutdown, Exchange for client_exchange, Links
--                             for remove_link and cleanup_client, App for handle_app_connection
--                             and app_exchange, Life for the tasks of its clients from one
--                             lock to the next, Routing for the tasks that change the
--                             routes and the registry, Listen for listen_gateway,
--                             listen_app and run
--   Client                    gateway/client.rs: GatewayClient; Handshake for gw_authenticate,
--                             Connection for on_connection, the ping loop, on_disconnection and
--                             shutdown, Exchange for gateway_exchange and connect_client, App for
--                             app_exchange, Lifecycle for connect_gateway and run
--   Report                    print_stats of gateway/client.rs and gateway/server.rs
--   Format                    gateway/utils.rs: format_bytes
--   Program                   main.rs: main and the commands of the operator
--   Handshake, Relay          the two sides against each other: one packet, and a connection from
--                             its first read to its end as a pipe, by a Sender and a
--                             Receiver that both sides fill (Relay/Pipe, Relay/Stream); and any
--                             number of connections over one stream, by a Writer and a Reader
--                             (Relay/Mux), of the tasks in Server/Traffic and Client/Traffic
--   Prelude, Map, Bytes, Text shared lists and tests, HashMap, bytes and words, str::trim
--   Transport                 the socket halves of tokio as interfaces, with their laws
--   Tests                     concrete streams, codec and tags, and examples of the theorems
--
-- Conventions. Numbers are natural numbers with wrap-around written out; a byte sequence is a list.
-- An async method is a function from the old state to its result and the new state: what it does
-- between two points where other tasks may run is one step, and where an interleaving matters
-- (handle_app_connection) the method is cut there. Server/Life is a client's task from its
-- authentication to its end, with any other task between two of its locks; Server/Routing are the
-- tasks that take the lock of the routes and that of the registry, one after the other.
-- A shared object behind an Arc is a place in a store: links in `heap`, write halves in `writers`. An
-- I/O error is `none` or `false`, as the callers only ask whether there was one. The zstd crate,
-- HMAC-SHA256, the socket halves, the file system and the uuid crate are parameters; the laws
-- assumed of them are ZstdLaws, HmacLaws, WriteLaws, ReadLaws, FilesLaws and UuidLaws. Random
-- nonces, session identifiers, the clock and timeouts are arguments.
--
-- Fuel. The exchange loops of server and client have fuel, one unit for each packet read. A packet
-- takes at least its header of 16 bytes off the stream, so one unit for every 16 bytes and one more
-- are enough on a stream that ends. All other loops are recursion on a list.
--
-- Floating point. format_bytes divides a f64 by 1024: the model keeps the natural number before all
-- divisions, rounded to 53 bits as the conversion from u64 does, and rounds ties to even where the
-- number is printed. The counters of the metrics add with the same rounding to 53 bits
-- (Gateway/Agreement).
--
-- Not modelled: signals, the command line and logging; the layout of what print_stats prints;
-- reading the configuration file, whose result main takes: these are input and output without state
-- of the protocol. The sockets of the listeners and of the HTTP server show as what they gave.
-- Durations in the metrics are left out. Traits of gateway/operations.rs only forward to the base
-- gateway.
pub mod Prelude
pub mod Map
pub mod Bytes
pub mod Text
pub mod Statistics
pub mod Packet
pub mod Compression
pub mod Auth
pub mod Transport
pub mod Link
pub mod BufferPool
pub mod Metrics
pub mod Configuration
pub mod SessionStore
pub mod Gateway
pub mod Server
pub mod Client
pub mod Handshake
pub mod Relay
pub mod Report
pub mod Format
pub mod Program
pub mod Tests
