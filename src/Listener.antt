-- ===== src/Listener.antt =====
-- src/ic-websocket-gateway/src/ws_listener.rs: the task that accepts connections, with the tasks
-- that it spawns for the handshakes. Connections are known by their client's identifier.
pub mod Kept
pub mod Identifiers
pub mod Times
pub mod Stall
mod Tests
use ic_websocket_gateway.Prelude.{
  ℕ, ◌+◌, ◌*◌, ◌%◌, ◌^◌, Bool, true, false, List, [], ◌∷◌, ◌++◌, Option, none, some, Result, ok,
  err, Outcome, done, panic, ltb, ◌==◌, if◌then◌else◌,
}

-- What the TLS library does with a connection: it takes some time, in nanoseconds, and succeeds or
-- fails.
pub record Handshake : Type 0 where
  pub takes : ℕ
  pub succeeds : Bool

pub data AcceptError : Type 0 where
  handshake_failed timed_out : AcceptError

-- The listener's state: whether TLS is enabled, the next identifier, the times of the connections,
-- whether the `select!` at hand still waits for a connection, the handshake tasks that have not
-- ended, the channel from these to the listener, and the handlers that were started, each with its
-- connection's time.
pub record WsListener : Type 0 where
  pub tls_acceptor : Bool
  pub next_client_id : ℕ  -- u64
  pub clients_connection_time : ℕ → Option ℕ
  pub accepts : Bool
  pub accepting : List ℕ
  pub tls_acceptor_channel : List ℕ
  pub handlers : List (ℕ × ℕ)

unfoldable pub new : Bool → WsListener
new tls_acceptor = record {
  tls_acceptor = tls_acceptor;
  next_client_id = 0;
  clients_connection_time = λ _. none;
  accepts = true;
  accepting = [];
  tls_acceptor_channel = [];
  handlers = [];
}

-- What happens next: a connection comes in at some time; `accept` fails; a handshake task ends, for
-- the client with the identifier; or the listener takes an accepted connection from the channel.
pub data Event : Type 0 where
  connect : (now : ℕ) → Event
  accept_fails : Event
  shake : (client_id : ℕ) → Handshake → Event
  receive : Event

abbrev pub remember : ℕ → ℕ → (ℕ → Option ℕ) → ℕ → Option ℕ
remember client_id now times j = if j == client_id then some now else times j

-- The listener's part of `accept_connection`, which spawns a handshake task.
unfoldable pub accept_connection : WsListener → ℕ → WsListener
accept_connection l now = record l {
  clients_connection_time = remember l.next_client_id now l.clients_connection_time;
  accepting = l.accepting ++ l.next_client_id ∷ [];
}

-- 10 seconds.
abbrev pub tls_acceptor_timeout : ℕ
tls_acceptor_timeout = 10 * 10 ^ 9

-- `custom_stream` of the handshake task.
unfoldable pub custom_stream : Bool → Handshake → Result (Unit {0}) AcceptError
custom_stream tls_acceptor h =
    if tls_acceptor
    then (if ltb tls_acceptor_timeout h.takes
        then err timed_out
        else (if h.succeeds then ok tt else err handshake_failed))
    else ok tt

unfoldable pub count : ℕ → List ℕ → ℕ
count j [] = 0
count j (i ∷ l) = (if j == i then 1 else 0) + count j l

unfoldable pub take_out : ℕ → List ℕ → List ℕ
take_out j [] = []
take_out j (i ∷ l) = let rest = take_out j l in if j == i then l else i ∷ rest

-- The end of a handshake task: an accepted connection goes into the channel, another is dropped.
unfoldable pub end_handshake : WsListener → ℕ → Handshake → WsListener
end_handshake l client_id h =
    let l' : WsListener = record l { accepting = take_out client_id l.accepting } in
    elim (custom_stream l.tls_acceptor h) [
      | err _ ↦ l'
      | ok _ ↦ record l' { tls_acceptor_channel = l.tls_acceptor_channel ++ client_id ∷ [] }
    ]

unfoldable pub start_session_handler : WsListener → ℕ → Outcome WsListener
start_session_handler l client_id = elim (l.clients_connection_time client_id) [
  | none ↦ panic "called `Option::unwrap()` on a `None` value"
  | some start ↦ done (record l { handlers = l.handlers ++ (client_id, start) ∷ [] })
]

abbrev pub take_accepted : WsListener → List ℕ → Outcome WsListener
take_accepted l [] = done l
take_accepted l (client_id ∷ rest) =
    start_session_handler (record l { accepts = true; tls_acceptor_channel = rest }) client_id

-- One turn of `listen_for_incoming_requests`, or the end of a handshake task beside it. The channel
-- never closes, since the loop keeps a sender. When `accept` fails, its pattern does not match, and
-- the `select!` goes on with the channel alone: until something comes from there, connections wait.
unfoldable pub turn : WsListener → Event → Outcome WsListener
unfolding accept_connection start_session_handler
turn l (connect now) = done (
    if l.accepts
    then record (accept_connection l now) { next_client_id = (l.next_client_id + 1) % 2 ^ 64 }
    else l)
turn l accept_fails = done (record l { accepts = false })
turn l (shake client_id h) =
    done (if count client_id l.accepting == 0 then l else end_handshake l client_id h)
turn l receive = take_accepted l l.tls_acceptor_channel

abbrev pub and_then : Outcome WsListener → (WsListener → Outcome WsListener) → Outcome WsListener
and_then (done l) f = f l
and_then (panic m) f = panic m

unfoldable pub listen_for_incoming_requests : WsListener → List Event → Outcome WsListener
listen_for_incoming_requests l [] = done l
listen_for_incoming_requests l (e ∷ es) =
    and_then (turn l e) (λ l'. listen_for_incoming_requests l' es)
