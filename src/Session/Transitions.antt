-- ===== src/Session/Transitions.antt =====
-- client_session.rs, `try_update_state`: how a session reacts to its client and its canister.
use ic_websocket_gateway.Prelude.{ℕ, Bool, not, ◌&&◌, Option, none, some, Result, if◌then◌else◌}
use ic_websocket_gateway.CanisterUtils.{Bytes, CanisterToClientMessage, IcWsCanisterMessage}
use ic_websocket_gateway.Session.External.{Wire}
use ic_websocket_gateway.Session.Monad.{
  ic_ws_protocol, poller, returns, M, pure, fail, crash, ◌>>=◌, ◌>>◌,
}
use ic_websocket_gateway.Session.{
  IcWsSessionState, init, setup, opened, closed, is_closed, same_state, ClientSession, Update,
  client_update, canister_update, close_ws_session, check_client_update, handle_setup_transition,
  relay_client_message, relay_canister_message, handle_open_transition,
}

module _ {P : Type 0} (W : Wire P) (broken : ℕ → Bool) where
  abbrev Session : Type 0
  Session = ClientSession W

  abbrev set_state : IcWsSessionState W.Message → M Session (Unit {0})
  set_state state s = (record s { session_state = state }, returns tt)

  abbrev client_message_in : W.Message → IcWsSessionState W.Message → M Session (Unit {0})
  client_message_in ws_message init = do
    setup_state ← handle_setup_transition W broken ws_message
    set_state setup_state
  client_message_in ws_message (setup _) = pure tt
  client_message_in ws_message opened = relay_client_message W broken ws_message
  client_message_in ws_message closed =
      fail (ic_ws_protocol "Client shall not send messages while in Closed state")

  abbrev client_message : W.Message → M Session (Unit {0})
  client_message ws_message s =
      if W.is_close ws_message && not (is_closed s.session_state)
      then set_state closed s
      else client_message_in ws_message s.session_state s

  unfoldable pub handle_client_update : Result W.Message Bytes → M Session (Unit {0})
  unfolding check_client_update handle_setup_transition relay_client_message is_closed
  handle_client_update update = do
    ws_message ← check_client_update W broken update
    client_message ws_message

  abbrev canister_message_in :
      CanisterToClientMessage → IcWsSessionState W.Message → M Session (Unit {0})
  canister_message_in message init = crash "Canister shall not send messages while in Init state"
  canister_message_in message (setup _) = do
    open_state ← handle_open_transition W broken message
    set_state open_state
  canister_message_in message opened = relay_canister_message W broken message
  canister_message_in message closed = fail (
      ic_ws_protocol
        "Poller shall not be able to send messages while the session is in Closed state")

  unfoldable pub handle_canister_update : Option IcWsCanisterMessage → M Session (Unit {0})
  unfolding handle_open_transition relay_canister_message close_ws_session
  handle_canister_update (some (canister_message, _)) s =
      canister_message_in canister_message s.session_state s
  handle_canister_update none s =
      (close_ws_session W broken >> fail (poller "Client session terminated due to poller failure"))
        s

  abbrev handle_update : Update W → M Session (Unit {0})
  handle_update (client_update u) = handle_client_update u
  handle_update (canister_update u) = handle_canister_update u

  abbrev report_change :
      IcWsSessionState W.Message → M Session (Option (IcWsSessionState W.Message))
  report_change previous s = (
    s,
    returns
        (if same_state W.message_dec s.session_state previous then none else some s.session_state),
  )

  -- The new state is returned if the update has led to one.
  unfoldable pub try_update_state : Update W → M Session (Option (IcWsSessionState W.Message))
  unfolding handle_client_update handle_canister_update same_state
  try_update_state update s = (handle_update update >>= λ _. report_change s.session_state) s
