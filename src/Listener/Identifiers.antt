-- ===== src/Listener/Identifiers.antt =====
-- ws_listener.rs: the identifiers of clients.
use ic_websocket_gateway.Prelude.{
  ℕ, suc, ◌+◌, ◌%◌, ◌^◌, ◌≤◌, ◌<◌, ◌≡◌, refl, inl, inr, Bool, List, [], ◌∷◌, arith, Outcome, done,
  panic, length, ◌==◌, Option-cases, Bool-cases, subst,
}
use ic_websocket_gateway.Listener.{
  WsListener, Event, connect, accept_fails, shake, receive, new, accept_connection, count,
  take_accepted, start_session_handler, turn, and_then, listen_for_incoming_requests,
}
use ic_websocket_gateway.Listener.Kept.{
  count-snoc, handlers_of, handlers_of-snoc, total, end_handshake-total, listen_never_panics,
}

-- At most `n` identifiers have been given, each to one connection.
record Fresh (n : ℕ) (l : WsListener) : Type 0 where
  given : l.next_client_id ≤ n
  once : (j : ℕ) → total j l ≤ 1
  unused : (j : ℕ) → l.next_client_id ≤ j → total j l ≡ 0

abbrev Safe : ℕ → Outcome WsListener → Type 0
Safe n (done l) = Fresh n l
Safe n (panic m) = Unit

take_accepted-Fresh :
    (n : ℕ) (l : WsListener) (channel : List ℕ)
    → l.tls_acceptor_channel ≡ channel
    → Fresh n l
    → Safe n (take_accepted l channel)
unfolding count start_session_handler
take_accepted-Fresh n l [] e f = f
take_accepted-Fresh n l (i ∷ rest) e f = elim (Option-cases (l.clients_connection_time i)) [
  | inl unknown ↦ rw (unknown, start_session_handler) tt
  | inr (start, known) ↦
      rw (known, start_session_handler)
        (record {
          given = f.given;
          once = λ j. ground (arith, f.once j, handlers_of-snoc j i start l.handlers);
          unused = λ j h. ground (arith, f.unused j, handlers_of-snoc j i start l.handlers);
        })
]

Fresh-more : (n : ℕ) (l : WsListener) → Fresh n l → Fresh (suc n) l
Fresh-more n l f = record { given = ground (arith, f.given); once = f.once; unused = f.unused }

turn-Fresh :
    (n : ℕ) (l : WsListener) (e : Event) → suc n < 2 ^ 64 → Fresh n l → Safe (suc n) (turn l e)
unfolding turn accept_connection
turn-Fresh n l (connect now) small f =
    let i = l.next_client_id in
    let next : (i + 1) % 2 ^ 64 ≡ i + 1 = ground (arith, f.given) in
    elim (Bool-cases l.accepts) [
      | inr waits ↦
          let f' = Fresh-more n l f in
          rw waits (record { given = f'.given; once = f'.once; unused = f'.unused })
      | inl accepting ↦ rw accepting (record {
        given = rw next (ground (arith, f.given));
        once = λ j. ground (arith, f.once j, f.unused j, count-snoc j i l.accepting);
        unused = λ j h. ground (arith, rw next at h, f.unused j, count-snoc j i l.accepting);
      })
    ]
turn-Fresh n l accept_fails small f =
    let f' = Fresh-more n l f in record { given = f'.given; once = f'.once; unused = f'.unused }
turn-Fresh n l (shake i h) small f = elim (Bool-cases (count i l.accepting == 0)) [
  | inl idle ↦ rw (idle, turn) (Fresh-more n l f)
  | inr busy ↦
      rw (busy, turn)
        (record {
          given = ground (arith, f.given, end_handshake-total l i h 0);
          once = λ j. ground (arith, f.once j, end_handshake-total l i h j);
          unused = λ j k. ground (arith, f.unused j, end_handshake-total l i h j);
        })
]
turn-Fresh n l receive small f =
    take_accepted-Fresh (suc n) l l.tls_acceptor_channel refl (Fresh-more n l f)

abbrev Once : Outcome WsListener → Type 0
Once (done l) = (j : ℕ) → total j l ≤ 1
Once (panic m) = Unit

and_then-Once :
    (n : ℕ) (o : Outcome WsListener) (f : WsListener → Outcome WsListener)
    → ((l : WsListener) → Fresh n l → Once (f l))
    → Safe n o
    → Once (and_then o f)
and_then-Once n (done l) f rest s = rest l s
and_then-Once n (panic m) f rest s = tt

listen-Once :
    (n : ℕ) (l : WsListener) (es : List Event)
    → n + length es < 2 ^ 64
    → Fresh n l
    → Once (listen_for_incoming_requests l es)
unfolding listen_for_incoming_requests
listen-Once n l [] small f = f.once
listen-Once n l (e ∷ es) small f =
    and_then-Once (suc n) (turn l e) _ (λ l' f'. listen-Once (suc n) l' es (omega arith) f')
      (turn-Fresh n l e (omega arith) f)

new-Fresh : (tls_acceptor : Bool) → Fresh 0 (new tls_acceptor)
unfolding new count handlers_of
new-Fresh tls_acceptor = record {
  given = omega arith;
  once = λ j. omega arith;
  unused = λ j h. refl;
}

-- Each identifier has at most one connection at a time, and at most one handler is ever started for
-- it, in whatever order connections come in and handshakes end, until 2 ^ 64 of these have
-- happened.
pub listen_identifies :
    (tls_acceptor : Bool) (es : List Event)
    → length es < 2 ^ 64
    → (l : WsListener) × (listen_for_incoming_requests (new tls_acceptor) es ≡ done l)
      × ((j : ℕ)
          → count j l.accepting + count j l.tls_acceptor_channel + handlers_of j l.handlers ≤ 1)
listen_identifies tls_acceptor es small =
    let (l, listened) = listen_never_panics tls_acceptor es in
    (
      l,
      listened,
      subst Once listened
          (listen-Once 0 (new tls_acceptor) es (omega arith) (new-Fresh tls_acceptor)),
    )
