-- ===== src/Handler/Start.antt =====
-- client_session_handler.rs, `start_session`: from a connection to the loop of the handler.
use ic_websocket_gateway.Prelude.{
  ℕ, String, Bool, true, false, List, [], Option, none, some, Result, ok, err,
}
use ic_websocket_gateway.DashMap.{DashMap}
use ic_websocket_gateway.State.{GatewayState}
use ic_websocket_gateway.Session.External.{Wire}
use ic_websocket_gateway.Session.Monad.{Answer, returns, fails, panics}
use ic_websocket_gateway.Session.{ClientSession, init_session}
use ic_websocket_gateway.Handler.{
  Handler, Turn, Handling, finished, panicked, refused, no_session, handle_client_session,
}

module _ (D : DashMap) {P : Type 0} (dec : Discrete P) (W : Wire P) (broken : ℕ → Bool) where
  -- The handler's task at the start of its loop: it holds both ends of a new channel.
  abbrev pub new_handler : GatewayState D P → ℕ → ℕ → ClientSession W → Handler D W
  new_handler gs client_channel_tx client_session_span session = record {
    session = session;
    gateway = gs;
    client_channel_tx = some client_channel_tx;
    client_session_span = client_session_span;
    pollers = [];
    ws_closes = [];
  }

  abbrev pub with_handler : Handler D W × Handling → Option (Handler D W) × Handling
  with_handler (h, handling) = (some h, handling)

  abbrev pub after_init :
      GatewayState D P
      → ℕ
      → ℕ
      → List (Turn D W)
      → ClientSession W × Answer (Unit {0})
      → Option (Handler D W) × Handling
  after_init gs tx span turns (s, returns _) =
      with_handler (handle_client_session D dec W broken (new_handler gs tx span s) turns)
  after_init gs tx span turns (s, fails e) = (none, finished (err (no_session e)))
  after_init gs tx span turns (s, panics m) = (none, panicked m)

  abbrev pub after_principal :
      Result P String
      → ℕ
      → GatewayState D P
      → ℕ
      → ℕ
      → List (Turn D W)
      → Option (Handler D W) × Handling
  after_principal (err _) client_id gs tx span turns = (none, panicked "Principal should be set")
  after_principal (ok gateway_principal) client_id gs tx span turns =
      after_init gs tx span turns (init_session W broken client_id gateway_principal)

  -- The loop is entered only with a session. `accepted` tells whether the WebSocket's own handshake
  -- (`accept_async`) succeeded, and `get_principal` is what the agent answers.
  unfoldable pub start_session :
      (accepted : Bool) (client_id : ℕ) (get_principal : Result P String) (gs : GatewayState D P)
      (tx span : ℕ)
      → List (Turn D W)
      → Option (Handler D W) × Handling
  unfolding init_session handle_client_session
  start_session accepted client_id get_principal gs tx span turns = elim accepted [
    | false ↦ (none, finished (err refused))
    | true ↦ after_principal get_principal client_id gs tx span turns
  ]
