-- ===== src/Lib.antt =====
-- Sunbolt, a control plane for remote terminals: browsers open terminal sessions through it, on the
-- control plane's own host or on a node whose agent keeps one transport connection to it.
--
-- The parts and how they interact. A browser logs in and proves a second factor (Auth); the session
-- registry opens, detaches, reattaches and ends terminals and keeps the output that a browser is
-- sent again (Registry), by the states of Terminal and with the messages of Protocol; the router
-- picks the way to a node (Routing); agent and control plane check what they exchange (Transport);
-- login attempts are limited (RateLimit); what happened is kept in a hash chain (Audit). A second
-- factor is a code of an authenticator (Totp), a recovery code or a passkey (Factors). A node is
-- enrolled by a token, proves its credential, is heard and can be revoked (Nodes); its agent connects
-- by a hello that the node registry admits, and the control plane answers its frames (Agents).
-- Browsers log in, pass the step-up check and are authorized for a terminal's WebSocket (Requests);
-- the handlers of the socket open a terminal, pass its messages on, detach it, attach another browser
-- to it and end it (Sockets), by calls of the registry, the router, the node registry, the permissions
-- and the agents' connections.
--
-- Which file models what (a type or function keeps its Rust name, in snake case for constructors;
-- the children of a module prove what their names say, and Tests runs examples):
--   Base        lists on native numbers, keys with a Boolean equality, dictionaries, results, str::trim
--   Terminal    crates/sunbolt-terminal/src/lib.rs: the states of a session
--   Protocol    crates/sunbolt-protocol/src/lib.rs: messages
--   Transport   crates/sunbolt-protocol/src/transport.rs: envelopes, sequences, backoff
--   Registry    crates/sunbolt-control/src/terminal/session_registry.rs: sessions and their limits
--   RateLimit   crates/sunbolt-control/src/rate_limit.rs: the sliding window
--   Routing     crates/sunbolt-control/src/routing.rs: routes and the health of endpoints
--   Audit       crates/sunbolt-audit/src (types.rs, chain.rs, log.rs): events and the hash chain;
--               Audit/Redaction: redaction.rs
--   Auth        crates/sunbolt-auth/src/lib.rs: accounts, sessions, step-up; Auth/Rbac: rbac.rs too
--   Factors     crates/sunbolt-auth/src (mfa.rs, recovery_codes.rs, passkeys.rs, lib.rs): second factors
--   Totp        crates/sunbolt-auth/src (totp.rs, lib.rs): codes of an authenticator
--   Nodes       crates/sunbolt-control/src/node.rs, with the requests of agent/mod.rs: the node registry
--   Agents      crates/sunbolt-control/src/agent/mod.rs: connections, hello, frames, long polls
--   Sockets     crates/sunbolt-control/src/terminal/mod.rs: the terminal handlers: Handshake and Entry (the
--               first message), Local and Opening (up to the loop, here and on a node), Loops and
--               Frames (the loops, what a frame of the browser does), Attached (reattaching, ending,
--               the cleanup worker), Output (the reader of a PTY), Calls (all as one state machine)
--   Requests    crates/sunbolt-control/src/auth.rs, with terminal_websocket of terminal/mod.rs;
--               Requests/Accounts: routes/auth.rs
--   Config      crates/sunbolt-control/src (config.rs, security.rs): production checks, origins
--
-- Conventions. Every method that takes a lock is one step from a state to a state and an answer,
-- also where it takes the lock again and again; a lock that another thread poisoned is a field of
-- the state where the code reports it. A `HashMap` is a list of pairs without repeated keys, and no
-- theorem depends on its order. Clock readings, random bytes and tokens, the output channel, the
-- digest SHA-256, the unspecified hash of `DefaultHasher` and the lower case of Unicode are
-- arguments, and so is what a tokio channel yields or takes. Texts are their UTF-8 bytes. A number
-- of w bits is a natural number; where the code saturates or wraps, so does the model. An `Instant`
-- is a number of nanoseconds, and adding a duration to one is taken not to overflow. What a terminal
-- handler does outside of the state (messages, commands to an agent, audit events, calls of a PTY) is
-- appended to a list of effects; what its `select!` yields is a list of events in the order taken, and
-- whether the browser or a channel takes a message is an argument. A round of a
-- loop is one step, and so is the part of a handler before its loop and the one after it, although
-- they wait for their sends; `Calls` lets the steps of all sockets come in any order.
--
-- Fuel. `decimal` prints a u64 with twenty rounds, one for each digit that it can have; `trim_start`
-- and `without_white` have a round for each byte, and every round but the last drops at least one;
-- `redact_fields` takes an identifier in each round and `balanced_length` a byte; `drain` has three,
-- since at most twelve bits are there and each round takes five.
--
-- Not modelled: PTYs and processes (portable-pty), the HTTP handlers other than those above, SQL
-- storage, the user interface, JSON encodings (serde), TLS, timers and tracing, and the agent's
-- program, which are input and output around the parts above. The audit log is proved for every
-- redaction of its messages.
pub mod Base
pub mod Agents
pub mod Audit
pub mod Auth
pub mod Config
pub mod Factors
pub mod Nodes
pub mod Protocol
pub mod RateLimit
pub mod Registry
pub mod Requests
pub mod Routing
pub mod Sockets
pub mod Terminal
pub mod Totp
pub mod Transport
