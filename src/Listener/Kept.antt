-- ===== src/Listener/Kept.antt =====
-- ws_listener.rs: the listener has kept the time of every connection that it takes from its channel.
use ic_websocket_gateway.Prelude.{
  ℕ, ◌+◌, ◌%◌, ◌^◌, ◌≤◌, ◌≡◌, ◌≢◌, refl, ap, inl, inr, Bool, true, false, List, [], ◌∷◌, ◌++◌, none,
  arith, Outcome, done, ◌==◌, if◌then◌else◌, Option-cases, Bool-cases, ◌∙◌,
}
use ic_websocket_gateway.Listener.{
  WsListener, Event, connect, accept_fails, shake, receive, Handshake, new, accept_connection,
  count, take_out, take_accepted, end_handshake, start_session_handler, turn, and_then,
  listen_for_incoming_requests,
}

pub count-snoc :
    (j i : ℕ) (l : List ℕ) → count j (l ++ i ∷ []) ≡ count j l + (if j == i then 1 else 0)
unfolding count
count-snoc j i [] = ground arith
count-snoc j i (k ∷ l) = ground (arith, count-snoc j i l)

pub count-take_out :
    (j i : ℕ) (l : List ℕ)
    → count i l ≢ 0
    → count j (take_out i l) + (if j == i then 1 else 0) ≡ count j l
unfolding count take_out
count-take_out j i [] h = absurd (h refl)
count-take_out j i (k ∷ l) h = ground (arith, count-take_out j i l)

-- How many handlers were started for a client.
unfoldable pub handlers_of : ℕ → List (ℕ × ℕ) → ℕ
handlers_of j [] = 0
handlers_of j ((i, _) ∷ l) = (if j == i then 1 else 0) + handlers_of j l

pub handlers_of-snoc :
    (j i t : ℕ) (l : List (ℕ × ℕ))
    → handlers_of j (l ++ (i, t) ∷ []) ≡ handlers_of j l + (if j == i then 1 else 0)
unfolding handlers_of
handlers_of-snoc j i t [] = ground arith
handlers_of-snoc j i t ((k, _) ∷ l) = ground (arith, handlers_of-snoc j i t l)

-- How many connections of a client are under way or have a handler.
abbrev pub total : ℕ → WsListener → ℕ
total j l = count j l.accepting + count j l.tls_acceptor_channel + handlers_of j l.handlers

-- The listener knows the time of every connection that is under way.
abbrev Timed : WsListener → Type 0
Timed l =
    (j : ℕ)
    → count j l.accepting + count j l.tls_acceptor_channel ≢ 0
    → l.clients_connection_time j ≢ none

pub end_handshake-total :
    (l : WsListener) (i : ℕ) (h : Handshake) (j : ℕ)
    → count i l.accepting ≢ 0
    → let l' = end_handshake l i h in
      (total j l' ≤ total j l)
      × (count j l'.accepting + count j l'.tls_acceptor_channel
          ≤ count j l.accepting + count j l.tls_acceptor_channel)
      × (l'.clients_connection_time j ≡ l.clients_connection_time j)
      × (l'.next_client_id ≡ l.next_client_id)
unfolding end_handshake
end_handshake-total l i h j some_there = (
  ground (arith, count-take_out j i l.accepting, count-snoc j i l.tls_acceptor_channel),
  ground (arith, count-take_out j i l.accepting, count-snoc j i l.tls_acceptor_channel),
  ground arith,
  ground arith,
)

-- A turn that does not panic, and what it leaves.
abbrev Steps : (WsListener → Type 0) → Outcome WsListener → Type 0
Steps Q o = (l : WsListener) × (o ≡ done l) × Q l

take_accepted-Timed :
    (l : WsListener) (channel : List ℕ)
    → l.tls_acceptor_channel ≡ channel
    → Timed l
    → Steps Timed (take_accepted l channel)
unfolding count start_session_handler
take_accepted-Timed l [] e timed = (l, refl, timed)
take_accepted-Timed l (i ∷ rest) e timed = elim (Option-cases (l.clients_connection_time i)) [
  | inl unknown ↦ absurd (ground (arith, timed i))
  | inr (start, known) ↦ (
    record l {
      accepts = true;
      tls_acceptor_channel = rest;
      handlers = l.handlers ++ (i, start) ∷ [];
    },
    rw (known, start_session_handler) refl,
    λ j h. ground (arith, timed j),
  )
]

turn-Timed : (l : WsListener) (e : Event) → Timed l → Steps Timed (turn l e)
unfolding turn accept_connection
turn-Timed l (connect now) timed = elim (Bool-cases l.accepts) [
  | inr waits ↦ (l, rw waits refl, timed)
  | inl accepting ↦ (
    record (accept_connection l now) { next_client_id = (l.next_client_id + 1) % 2 ^ 64 },
    rw accepting refl,
    λ j h. ground (arith, count-snoc j l.next_client_id l.accepting, timed j),
  )
]
turn-Timed l accept_fails timed = (record l { accepts = false }, refl, timed)
turn-Timed l (shake i h) timed = elim (Bool-cases (count i l.accepting == 0)) [
  | inl idle ↦ (l, rw (idle, turn) refl, timed)
  | inr busy ↦ (
    end_handshake l i h,
    rw (busy, turn) refl,
    λ j some_there. ground (arith, end_handshake-total l i h j, timed j),
  )
]
turn-Timed l receive timed = take_accepted-Timed l l.tls_acceptor_channel refl timed

listen-Timed :
    (l : WsListener) (es : List Event) → Timed l → Steps Timed (listen_for_incoming_requests l es)
unfolding listen_for_incoming_requests
listen-Timed l [] timed = (l, refl, timed)
listen-Timed l (e ∷ es) timed =
    let (l', took, timed') = turn-Timed l e timed in
    let (l'', listened, timed'') = listen-Timed l' es timed' in
    (l'', ap (λ o. and_then o (λ k. listen_for_incoming_requests k es)) took ∙ listened, timed'')

new-Timed : (tls_acceptor : Bool) → Timed (new tls_acceptor)
unfolding new count
new-Timed tls_acceptor j h = absurd (h refl)

-- The listener never panics: whenever it takes an accepted connection from the channel, it has kept
-- the time of this connection, in whatever order connections come in and handshakes end or fail.
pub listen_never_panics :
    (tls_acceptor : Bool) (es : List Event)
    → (l : WsListener) × (listen_for_incoming_requests (new tls_acceptor) es ≡ done l)
listen_never_panics tls_acceptor es =
    let (l, listened, _) = listen-Timed (new tls_acceptor) es (new-Timed tls_acceptor) in
    (l, listened)
