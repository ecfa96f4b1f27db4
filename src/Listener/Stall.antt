-- ===== src/Listener/Stall.antt =====
-- ws_listener.rs: what follows when `accept` fails.
use ic_websocket_gateway.Prelude.{◌≡◌, refl, ap, sym, ◌∙◌, false, List, [], ◌∷◌, done}
use ic_websocket_gateway.Listener.{
  WsListener, Event, connect, accept_fails, shake, receive, count, turn, and_then,
  listen_for_incoming_requests,
}

-- Nothing is under way, and the `select!` at hand has given up connections.
record Stalled (l : WsListener) : Type 0 where
  deaf : l.accepts ≡ false
  none_shaking : l.accepting ≡ []
  none_accepted : l.tls_acceptor_channel ≡ []

turn-Stalled : (l : WsListener) (e : Event) → Stalled l → turn l e ≡ done l
unfolding turn count
turn-Stalled l (connect now) s = rw s.deaf refl
turn-Stalled l accept_fails s = ap (λ b. done (record l { accepts = b })) (sym s.deaf)
turn-Stalled l (shake i h) s = rw s.none_shaking refl
turn-Stalled l receive s = rw s.none_accepted refl

listen-Stalled :
    (l : WsListener) (es : List Event) → Stalled l → listen_for_incoming_requests l es ≡ done l
unfolding listen_for_incoming_requests
listen-Stalled l [] s = refl
listen-Stalled l (e ∷ es) s =
    ap (λ o. and_then o (λ k. listen_for_incoming_requests k es)) (turn-Stalled l e s)
    ∙ listen-Stalled l es s

-- If `accept` fails once while no handshake is under way and no accepted connection waits for its
-- handler, then the listener never accepts a connection again, whatever comes: the `select!` waits
-- for a channel to which nobody will send.
pub listen_stalls :
    (l : WsListener) (es : List Event)
    → l.accepting ≡ []
    → l.tls_acceptor_channel ≡ []
    → listen_for_incoming_requests l (accept_fails ∷ es) ≡ done (record l { accepts = false })
unfolding listen_for_incoming_requests turn
listen_stalls l es none_shaking none_accepted =
    listen-Stalled (record l { accepts = false }) es
      (record { deaf = refl; none_shaking = none_shaking; none_accepted = none_accepted })
