-- ===== src/Listener/Times.antt =====
-- ws_listener.rs: the map `clients_connection_time`, from which nothing is removed.
use ic_websocket_gateway.Prelude.{
  ℕ, ◌<◌, ◌≡◌, ◌≢◌, inl, inr, Bool, List, [], ◌∷◌, none, arith, Outcome, done, panic, ◌==◌,
  Option-cases, Bool-cases, subst,
}
use ic_websocket_gateway.Listener.Kept.{listen_never_panics}
use ic_websocket_gateway.Listener.{
  WsListener, Event, Handshake, connect, accept_fails, shake, receive, new, accept_connection,
  count, take_accepted, end_handshake, start_session_handler, turn, and_then,
  listen_for_incoming_requests,
}

abbrev Kept : WsListener → Type 0
Kept l = (j : ℕ) → j < l.next_client_id → l.clients_connection_time j ≢ none

-- Whatever a call leaves.
abbrev Leaves : (WsListener → Type 0) → Outcome WsListener → Type 0
Leaves Q (done l) = Q l
Leaves Q (panic m) = Unit

take_accepted-Kept :
    (l : WsListener) (channel : List ℕ) → Kept l → Leaves Kept (take_accepted l channel)
unfolding start_session_handler
take_accepted-Kept l [] kept = kept
take_accepted-Kept l (i ∷ rest) kept = elim (Option-cases (l.clients_connection_time i)) [
  | inl unknown ↦ rw (unknown, start_session_handler) tt
  | inr (start, known) ↦ rw (known, start_session_handler) kept
]

end_handshake-Kept : (l : WsListener) (i : ℕ) (h : Handshake) → Kept l → Kept (end_handshake l i h)
unfolding end_handshake
end_handshake-Kept l i h kept j small = ground (arith, kept j)

turn-Kept : (l : WsListener) (e : Event) → Kept l → Leaves Kept (turn l e)
unfolding turn accept_connection
turn-Kept l (connect now) kept = elim (Bool-cases l.accepts) [
  | inr waits ↦ rw waits kept
  | inl accepting ↦ rw accepting (λ j small. ground (arith, kept j))
]
turn-Kept l accept_fails kept = kept
turn-Kept l (shake i h) kept = elim (Bool-cases (count i l.accepting == 0)) [
  | inl idle ↦ rw (idle, turn) kept
  | inr busy ↦ rw (busy, turn) (end_handshake-Kept l i h kept)
]
turn-Kept l receive kept = take_accepted-Kept l l.tls_acceptor_channel kept

and_then-Kept :
    (o : Outcome WsListener) (f : WsListener → Outcome WsListener)
    → ((l : WsListener) → Kept l → Leaves Kept (f l))
    → Leaves Kept o
    → Leaves Kept (and_then o f)
and_then-Kept (done l) f rest kept = rest l kept
and_then-Kept (panic m) f rest kept = tt

listen-Kept :
    (l : WsListener) (es : List Event) → Kept l → Leaves Kept (listen_for_incoming_requests l es)
unfolding listen_for_incoming_requests
listen-Kept l [] kept = kept
listen-Kept l (e ∷ es) kept =
    and_then-Kept (turn l e) _ (λ l' kept'. listen-Kept l' es kept') (turn-Kept l e kept)

new-Kept : (tls_acceptor : Bool) → Kept (new tls_acceptor)
unfolding new
new-Kept tls_acceptor j small = absurd (omega arith)

-- The listener keeps the time of every connection that it has ever accepted: an entry of the map
-- from identifiers to times is never removed, also after its connection has a handler or has
-- failed, so that the map grows with every connection.
pub listen_forgets_nothing :
    (tls_acceptor : Bool) (es : List Event)
    → (l : WsListener) × (listen_for_incoming_requests (new tls_acceptor) es ≡ done l)
      × ((j : ℕ) → j < l.next_client_id → l.clients_connection_time j ≢ none)
listen_forgets_nothing tls_acceptor es =
    let (l, listened) = listen_never_panics tls_acceptor es in
    (
      l,
      listened,
      subst (Leaves Kept) listened (listen-Kept (new tls_acceptor) es (new-Kept tls_acceptor)),
    )
