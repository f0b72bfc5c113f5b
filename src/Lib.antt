-- ===== src/Lib.antt =====
-- vcmp-rs: the VCMP protocol over WebSockets, as a model of its Rust crate.
--
-- A session is the protocol's state machine over a stream and a sink of text frames. It parses
-- what arrives, answers messages, correlates requests with their acknowledgements, and keeps a
-- mutual heartbeat; every queued frame, pending request and running handler holds permits of two
-- budgets. The transport adapters split texts into WebSocket frames. A client keeps one session at
-- a time through a task that reconnects; an endpoint of a server keeps a table of its sessions,
-- each served by a task, and takes connections from the server's own listener or from axum.
--
-- The files, and the code that each models:
--   Base, and the files under it: shared names, texts as their UTF-8 bytes with the cuts of
--     `str`, maps with text keys as association lists, results, and methods that may fail.
--   Decimal: `u64::to_string` and `str::parse::<u64>`, which src/frame.rs rests on.
--   Frame (src/frame.rs): `Frame`, `parse`, `serialize`; Frame/Base64 is `generate_id` and its
--     encoding, Frame/Display the rendering for logs. RoundTrip, Parsing and Base64/Decoding
--     prove.
--   Error (src/error.rs): `ProblemDetail` in Error/Problem, its JSON form in Error/Members with
--     Error/Reading for what is read back, `VcmpError` with its conversions, in Error/Origin
--     every way to derive an error, and in Error/Conversions its serde form and the foreign
--     errors.
--   Resources (src/resources.rs): `ResourceBudget`, `reserve` and the drop of a permit;
--     Resources/Balance and Resources/Ledger are the account that they keep.
--   Session (src/session.rs): the state. Info is `ConnectInfo`, the options and `try_spawn`.
--     Sending is `enqueue`, `write`, `exchange` and the pending requests; Heartbeats is
--     `send_heartbeat`, `handle_heartbeat`, `expect_heartbeat` and their timers; Receiving is
--     `handle_incoming` and what it calls; Driving is the writer, the read loop and
--     `finish_close`; Handlers is `HandlerMap` and `serialize_bounded`; Requests is `send` and
--     its kin around `exchange`. Upkeep is the interface that a property of a session fills to
--     be kept by every method, and Beating that for the heartbeat; Turns and Reach carry both
--     through the handlers and through any sequence of turns. Weights, Admissions, Accounts,
--     Shapes, Ending, Waiters, Waiting, Unique, Forgetting, Timers, Pulse, Counting and Arrivals
--     are what is kept and shown with them; Settling, Queueing, Queues, Replies and Calls follow
--     a request from one session to another and back.
--   Server (src/server.rs): `PathPattern` and `ConnectionTasks`; Server/Segments and Server/Paths
--     prove. Server/Endpoint is `EndpointInner` with `start_session`, `serve_session`, its
--     cleanup and, of src/axum.rs, `on_upgrade`; Effects, Registry, Moves and Keeping prove.
--     Server/Closing is `close_sessions` over all endpoints, by its awaits; Awaiting proves.
--     Server/Builder is `ServerBuilder`, Server/Routing the choice of an endpoint and
--     `handle_connection`, Server/Listener the accept loop of `bind`, Server/Stopping
--     the waits of `ServerHandle::stop` after its `close_sessions`, Server/Stop all of it by
--     its awaits, Server/Broadcasting `broadcast`, and Server/Extraction, of
--     src/axum.rs, `VcmpUpgrade` and `from_request_parts`.
--   Client (src/client.rs): `ClientInner` and `VcmpClient` with `start`, `stop` and
--     `stop_and_wait`. Client/Running is `run` as turns of a task, one for each event that an
--     await resolves with, and the moves of a client; Reactions lists the cases of a turn, and
--     Invariant, WellFormed, Moves, Lifecycle, Transitions, View, Sessions and Leaks prove.
--     Client/Connect is `connect`, Client/Headers proves of its headers; Client/Builder is
--     `ClientBuilder`, Client/Backoff is `Backoff`, Client/Sending the sends and waits of a
--     client.
--   Ws (src/ws.rs): `message_fragments`, `outgoing` and `incoming`; Ws/Pieces and Ws/Cutting
--     prove. Ws/Transport is `TransportOptions` and `spawn_session`.
--
-- A shared object is one value of the state, and a lock makes each operation on it one step. A
-- timer is an entry of the state, aborted by removing it. A panic is a result
-- only in Client/Backoff, whose conversions of floating-point seconds to a duration panic where
-- those are none, as for `Duration::MAX`. The JSON library is the parameter `Json`;
-- random bytes, ids and the numbers of waiters are arguments. `usize` and u64 have 64 bits, and
-- counters that the code lets wrap are written with their `% 2 ^ 64`.
--
-- `to_string` runs on a fuel of 20, the digits of the largest u64. The iterator of fragments is
-- run on two more calls than the text has bytes, which is enough.
--
-- A client or an endpoint knows its sessions by number. What a task does between two awaits is one
-- turn; the turns of all tasks, the calls of the operations and what happens around them come in
-- any order. `close_sessions` has no deadline, in `ServerHandle::stop` neither: whether each
-- `closed()` that it awaits resolves is an argument of its steps. Floating-point numbers, the http
-- crate and the WebSocket handshake are parameters, with the laws that a theorem needs of them.
--
-- Two sessions that talk are two states and the texts that go from the queue of one to the other.
-- While a send waits, what becomes of its session is a function that the send is given.
--
-- Not modelled: the lengths of the deadlines of `ServerHandle::stop` and `stop_and_wait`; the
-- streams and sinks of tokio-tungstenite; panics other than those of the backoff, such as the one
-- of `Session::spawn`, and hooks that panic; logging; the WebSocket library, axum, the runtime
-- and the operating system; the example driver in src/examples.
pub mod Base
pub mod Client
pub mod Decimal
pub mod Error
pub mod Frame
pub mod Resources
pub mod Server
pub mod Session
pub mod Ws
