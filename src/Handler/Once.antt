-- ===== src/Handler/Once.antt =====
-- client_session_handler.rs: what a handler does at most once in its life.
use ic_websocket_gateway.Prelude.{
  ℕ, ◌+◌, ◌≤◌, ◌≡◌, refl, Bool, List, [], ◌∷◌, ◌++◌, Option, none, some, arith, length,
  length-append, ap,
}
use ic_websocket_gateway.DashMap.{DashMap}
use ic_websocket_gateway.State.{GatewayState}
use ic_websocket_gateway.Session.External.{Wire}
use ic_websocket_gateway.Session.Monad.{
  ic_ws_protocol, web_socket, poller, Answer, returns, fails, panics,
}
use ic_websocket_gateway.Session.{IcWsSessionState, init, setup, opened, closed}
use ic_websocket_gateway.Session.Transitions.{try_update_state}
use ic_websocket_gateway.Handler.{
  Handler, Turn, Handling, continues, finished, panicked, handle_turn, handle_client_session,
  on_setup, on_closed, on_error, on_answer, resume,
}

module _ (D : DashMap) {P : Type 0} (dec : Discrete P) (W : Wire P) (broken : ℕ → Bool) where
  -- One while the handler holds its channel's sending half.
  abbrev held : Option ℕ → ℕ
  held none = 0
  held (some _) = 1

  abbrev closes_left : Handling → ℕ
  closes_left continues = 1
  closes_left _ = 0

  -- How many pollers the handler has started and may start; how often it has called and may call
  -- `ws_close`.
  abbrev start_count : Handler D W → ℕ
  start_count h = length h.pollers + held h.client_channel_tx

  abbrev close_count : Handler D W × Handling → ℕ
  close_count (h, x) = length h.ws_closes + closes_left x

  record Fewer (h : Handler D W) (r : Handler D W × Handling) : Type 0 where
    starts : start_count r.0 ≤ start_count h
    closes : close_count r ≤ length h.ws_closes + 1

  length-snoc :
      {A B : Type 0} (l : List (A × B)) (a : A) (b : B) → length (l ++ (a, b) ∷ []) ≡ length l + 1
  length-snoc l a b = length-append l ((a, b) ∷ [])

  no_items : {A : Type 0} (l : List A) → length l ≤ 0 → l ≡ []
  no_items [] h = refl
  no_items (x ∷ l) h = absurd (omega arith)

  on_answer-Fewer :
      (between : GatewayState D P → GatewayState D P) (h : Handler D W)
      (a : Answer (Option (IcWsSessionState W.Message)))
      → Fewer h (on_answer D dec W broken between h a)
  unfolding on_setup on_closed on_error
  on_answer-Fewer between h (returns none) = record { starts = ground arith; closes = ground arith }
  on_answer-Fewer between h (returns (some init)) = record {
    starts = ground arith;
    closes = ground arith;
  }
  on_answer-Fewer between h (returns (some (setup m))) = record {
    starts = grind (arith, length-snoc);
    closes = ground arith;
  }
  on_answer-Fewer between h (returns (some opened)) = record {
    starts = ground arith;
    closes = ground arith;
  }
  on_answer-Fewer between h (returns (some closed)) = record {
    starts = ground arith;
    closes = grind (arith, length-snoc);
  }
  on_answer-Fewer between h (fails (poller e)) = record {
    starts = ground arith;
    closes = ground arith;
  }
  on_answer-Fewer between h (fails (ic_ws_protocol e)) = record {
    starts = ground arith;
    closes = grind (arith, length-snoc);
  }
  on_answer-Fewer between h (fails (web_socket e)) = record {
    starts = ground arith;
    closes = grind (arith, length-snoc);
  }
  on_answer-Fewer between h (panics m) = record { starts = ground arith; closes = ground arith }

  handle_turn-Fewer :
      (h : Handler D W) (turn : Turn D W) → Fewer h (handle_turn D dec W broken h turn)
  unfolding handle_turn
  handle_turn-Fewer h turn =
      let r =
        on_answer-Fewer turn.between
          (record h {
            session = (try_update_state W broken turn.update h.session).0;
            gateway = turn.meanwhile h.gateway;
          })
          (try_update_state W broken turn.update h.session).1 in
      record { starts = r.starts; closes = r.closes }

  resume-Fewer :
      (h : Handler D W) (r : Handler D W × Handling) (f : Handler D W → Handler D W × Handling)
      → ((h' : Handler D W) → Fewer h' (f h'))
      → Fewer h r
      → Fewer h (resume D dec W broken r f)
  resume-Fewer h (h', continues) f rest r =
      let r' = rest h' in record { starts = omega arith; closes = omega arith }
  resume-Fewer h (h', finished x) f rest r = r
  resume-Fewer h (h', panicked m) f rest r = r

  handle_client_session-Fewer :
      (h : Handler D W) (turns : List (Turn D W))
      → Fewer h (handle_client_session D dec W broken h turns)
  unfolding handle_client_session
  handle_client_session-Fewer h [] = record { starts = omega arith; closes = omega arith }
  handle_client_session-Fewer h (turn ∷ turns) =
      resume-Fewer h (handle_turn D dec W broken h turn) _
        (λ h'. handle_client_session-Fewer h' turns) (handle_turn-Fewer h turn)

  -- In its whole life, whatever its client, its canister and the other tasks do, a handler starts
  -- at most one poller and calls `ws_close` at most once; and while it goes on it has not called
  -- it. (It has done neither at its start.)
  pub handle_client_session_once :
      (h : Handler D W) (turns : List (Turn D W))
      → h.pollers ≡ []
      → h.ws_closes ≡ []
      → let (h', handling) = handle_client_session D dec W broken h turns in
        (length h'.pollers ≤ 1)
        × (length h'.ws_closes ≤ 1)
        × (handling ≡ continues → h'.ws_closes ≡ [])
  handle_client_session_once h turns no_pollers no_closes =
      let few = handle_client_session-Fewer h turns in
      let r = handle_client_session D dec W broken h turns in
      let pollers_before : length h.pollers ≡ 0 = ap length no_pollers in
      let closes_before : length h.ws_closes ≡ 0 = ap length no_closes in
      (
        ground (arith, few.starts),
        ground (arith, few.closes),
        λ on. no_items r.0.ws_closes (ground (arith, few.closes)),
      )
