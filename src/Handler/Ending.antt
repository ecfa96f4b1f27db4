-- ===== src/Handler/Ending.antt =====
-- client_session_handler.rs: how a client's handler ends.
use ic_websocket_gateway.Prelude.{
  ℕ, ◌≡◌, inl, inr, ◌⊎◌, Bool, true, false, none, arith, Result, ok, err,
}
use ic_websocket_gateway.DashMap.{DashMap}
use ic_websocket_gateway.CanisterUtils.{Bytes}
use ic_websocket_gateway.State.{GatewayState}
use ic_websocket_gateway.Session.External.{Wire}
use ic_websocket_gateway.Session.Monad.{IcWsError}
use ic_websocket_gateway.Session.{init, client_update, inspect_ic_ws_open_message}
use ic_websocket_gateway.Session.Transitions.{try_update_state}
use ic_websocket_gateway.Handler.{Handler, Turn, panicked, handle_turn}

module _ (D : DashMap) {P : Type 0} (dec : Discrete P) (W : Wire P) (broken : ℕ → Bool) where
  -- What a client may do instead of opening its session: its connection breaks, it closes the
  -- connection, or its first message is no call with an argument for `ws_open`.
  abbrev pub GivesUp : Result W.Message Bytes → Type 0
  GivesUp (err _) = Unit
  GivesUp (ok m) =
      (W.is_close m ≡ true)
      ⊎ ((W.is_close m ≡ false) × (e : IcWsError) × (inspect_ic_ws_open_message W broken m ≡ err e))

  -- A handler whose client gives up before its session is set up does not end with the error that
  -- the source has for this case: it panics, since the session has no canister. The gateway state
  -- is as the other tasks left it.
  pub handle_turn-GivesUp :
      (h : Handler D W) (r : Result W.Message Bytes)
      (meanwhile between : GatewayState D P → GatewayState D P)
      → h.session.session_state ≡ init
      → h.session.canister_id ≡ none
      → GivesUp r
      → let turn : Turn D W = record {
        update = client_update r;
        meanwhile = meanwhile;
        between = between;
      } in
        let (h', handling) = handle_turn D dec W broken h turn in
        (handling ≡ panicked "must be set during Setup")
        × (h'.gateway ≡ meanwhile h.gateway)
        × (h'.ws_closes ≡ h.ws_closes)
  unfolding handle_turn try_update_state
  handle_turn-GivesUp h (err x) meanwhile between e f g = ground arith
  handle_turn-GivesUp h (ok m) meanwhile between e f (inl g) = ground arith
  handle_turn-GivesUp h (ok m) meanwhile between e f (inr (open_, x, g)) = ground arith
