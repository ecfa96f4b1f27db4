-- ===== src/Listener/Tests.antt =====
-- The theorems on the listener at concrete inputs: two clients connect, and the handshake of the
-- second one ends first.
use ic_websocket_gateway.Prelude.{
  ℕ, ◌+◌, ◌≤◌, ◌<◌, ◌≢◌, none, ◌≡◌, refl, true, false, List, [], ◌∷◌, done, arith,
}
use ic_websocket_gateway.Listener.Kept.{handlers_of}
use ic_websocket_gateway.Listener.Identifiers.{listen_identifies}
use ic_websocket_gateway.Listener.Stall.{listen_stalls}
use ic_websocket_gateway.Listener.Times.{listen_forgets_nothing}
use ic_websocket_gateway.Listener.{
  WsListener, Event, connect, accept_fails, shake, receive, Handshake, new, count,
  listen_for_incoming_requests,
}

abbrev quick : Handshake
quick = record { takes = 5; succeeds = true }

abbrev events : List Event
events = connect 1 ∷ connect 2 ∷ shake 1 quick ∷ shake 0 quick ∷ receive ∷ receive ∷ []

listen_identifies_example :
    (l : WsListener) × (listen_for_incoming_requests (new true) events ≡ done l)
    × ((j : ℕ)
        → count j l.accepting + count j l.tls_acceptor_channel + handlers_of j l.handlers ≤ 1)
listen_identifies_example = listen_identifies true events (omega arith)

listen_forgets_nothing_example :
    (l : WsListener) × (listen_for_incoming_requests (new true) events ≡ done l)
    × ((j : ℕ) → j < l.next_client_id → l.clients_connection_time j ≢ none)
listen_forgets_nothing_example = listen_forgets_nothing true events

listen_stalls_example :
    listen_for_incoming_requests (new true) (accept_fails ∷ events)
    ≡ done (record (new true) { accepts = false })
unfolding new
listen_stalls_example = listen_stalls (new true) events refl refl
