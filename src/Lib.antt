-- ===== src/Lib.antt =====
-- The IC WebSocket gateway (src/, Rust): it relays messages between WebSocket clients and
-- canisters of the Internet Computer. A client's first message names its canister; from then on
-- its messages go to the IC, and a poller, one for each canister, fetches the canister's
-- messages and hands each to the session of its client.
--
-- The parts, and where they are modelled:
--
-- DashMap.antt: an interface of the concurrent map (crate dashmap), with its documented
-- behaviour; DashMap/Assoc.antt implements it.
-- CanisterUtils.antt (src/canister-utils/src/lib.rs): the messages and errors; its child Calls
-- has the agent's calls, over a record of what the agent and the candid library answer.
-- State.antt (src/gateway-state/src/lib.rs): the state that all tasks share, a map from
-- canisters to the maps of their clients. An Arc is an address into a memory, so that a poller's
-- view of its clients is the gateway's. Each method is one atomic step, as it holds a map's lock
-- throughout. View, Directory and Refinement state what each method does to the directory of
-- clients; Pollers, Active and Arrivals follow whole histories of calls.
-- Poller.antt (src/ic-websocket-gateway/src/canister_poller.rs): the task that polls one
-- canister. Its child Loop has run_polling: one turn of that loop is run_round; what the
-- network, the clock and the other tasks do in it is a record Round. Nonce has
-- get_nonce_from_message, down to the parsing of a u64. Log gives a rule for what holds of all
-- that a run relays; Queue, Served and Delivery follow a run against a canister that keeps a
-- queue.
-- Session.antt (src/ic-websocket-gateway/src/client_session.rs): the state machine of a session;
-- its child Transitions has try_update_state. External is an interface of the WebSocket's
-- messages, the IC's envelopes and their encodings; Monad sequences methods that may fail or
-- panic. A session records what it wrote to the client and gave to the IC.
-- Handler.antt (src/ic-websocket-gateway/src/client_session_handler.rs): the task that drives a
-- session and keeps the shared state in step. One turn of the loop of handle_client_session is
-- handle_turn; what the other tasks do to the shared state in it is a record Turn. Its child
-- Start has start_session; Panics and Life follow a session from there to its end, Rivals has
-- sessions that close without their client in the gateway state, and Gapless what its client
-- gets.
-- Listener.antt (src/ic-websocket-gateway/src/ws_listener.rs): the task that accepts
-- connections, with the handshake tasks beside it, as turns on one state in any order. Stall has
-- what a failed accept does.
-- Startup.antt (src/ic-websocket-gateway/src/main.rs and manager.rs, and the making of the
-- listener in ws_listener.rs): main, until its listener runs. Disk is the file system, whose
-- operations can fail; KeyPair has load_key_pair (src/ic-identity/src/lib.rs), Tracing has
-- init_tracing and init_metrics (gateway_tracing.rs, gateway_metrics.rs). External is an
-- interface of the libraries; Steps sequences steps that may end the program. Gives, Stays,
-- Success, Up and Held say what a start leaves, and Restart what the next one finds. Script is
-- the program of src/scripts/src/bin/principal_from_key_pair.rs.
-- Gateway.antt: any number of handlers and pollers over one gateway state, one step at a time
-- and in any order: a session begins, a handler gets an update, or a poller ends an iteration.
-- Effects, Turns and Rounds say what a step does to the entries of the state, Consistency,
-- Reachable, Attended and Polled what every reachable gateway has; EndToEnd joins a poller and a
-- session.
-- Channels.antt: the gateway with the channels between its pollers and its handlers: what is in
-- each, and who holds its sending half. What may happen is a relation, Steps, and a session's own
-- turns with its channel are another, Hears. Hands, Answers, Passing and Senders (of State)
-- follow a sending half through a handler's turn and the gateway state; Moves and Relaying say what a step does to handlers and to channels; Routing is the
-- invariant that Arrivals and Reachable keep. Closing, HangUp and TakeOver are about a channel
-- to which nobody sends any more; Order, Writing and Delivery follow a batch into a channel and
-- from there to the client; Calm is about the turn that takes a message from a channel; Sparing
-- and Staying (with Kept of State) say what can cut a client off.
-- Prelude.antt: shared names, Boolean tests, results and lists.
--
-- How they interact: the handler calls the session's try_update_state; on Setup it inserts the
-- client into the gateway state and, if the canister had no entry, starts a poller on the new
-- one; the poller looks clients up there and sends to their channels; whoever ends removes the
-- client or the entry.
--
-- Numbers: an unsigned 64-bit integer is a natural number, and an addition to one wraps at 2 ^
-- 64, as in a release build. Times are nanoseconds. Channels, spans and connections are known by
-- identifiers.
--
-- Loops: the loops over messages are structural. The two loops without an end, run_polling and
-- handle_client_session, run over the list of what their surroundings do in each turn, so there
-- is no fuel: a theorem on every list speaks of every point of a run. The listener's loop is the
-- same, over events.
--
-- Outside the model: the texts that errors format beyond their first words, tracing spans and
-- metrics' values; the parsing of the command line, the writers of the logs, and what main does
-- once its listener's task has ended. In the gateway of all tasks, what a poller reads of its
-- clients' channels in an iteration is an input of this iteration, and a turn of a handler is
-- one step: what others do between two accesses of one turn is only in the handler's own
-- theorems. In Channels, the capacity of a channel is not modelled: a full one only makes its
-- poller wait; and a poller finds and sends to its clients in one step. What the task spawned by
-- relay_envelope_to_canister does, and the outcome of ws_close, are only logged by the source,
-- and are not modelled.
pub mod Prelude
pub mod DashMap
pub mod CanisterUtils
pub mod State
pub mod Poller
pub mod Session
pub mod Handler
pub mod Listener
pub mod Startup
pub mod Gateway
pub mod Channels
