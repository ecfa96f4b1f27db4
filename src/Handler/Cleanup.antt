-- ===== src/Handler/Cleanup.antt =====
-- client_session_handler.rs: what a handler leaves in the gateway state when its session ends.
use ic_websocket_gateway.Prelude.{
  ℕ, ◌≡◌, refl, ap, ◌∙◌, inl, inr, Bool, true, false, [], ◌∷◌, ◌++◌, none, some, arith, ok, err,
  done, Option-cases,
}
use ic_websocket_gateway.DashMap.{DashMap}
use ic_websocket_gateway.CanisterUtils.{ClientKey}
use ic_websocket_gateway.State.{
  GatewayState, ClientSender, remove_client, remove_client_if_exists, removed, vacant,
}
use ic_websocket_gateway.State.View.{view, IsWellFormed}
use ic_websocket_gateway.State.Directory.{clients_of, drop_client}
use ic_websocket_gateway.State.Refinement.{remove_client_if_exists_refines}
use ic_websocket_gateway.State.Removal.{remove_present}
use ic_websocket_gateway.Session.External.{Wire}
use ic_websocket_gateway.Session.Monad.{
  IcWsError, ic_ws_protocol, web_socket, poller, returns, fails,
}
use ic_websocket_gateway.Session.Delivery.{IsLive}
use ic_websocket_gateway.Session.{closed, ClientSession, client_update}
use ic_websocket_gateway.Session.Transitions.{try_update_state}
use ic_websocket_gateway.Handler.{
  Handler, Turn, finished, session_error, before_setup, handle_turn, on_closed, on_error,
}

module _ (D : DashMap) {P : Type 0} (dec : Discrete P) (W : Wire P) (broken : ℕ → Bool) where
  pub try_update_state_closes :
      (s : ClientSession W) (m : W.Message)
      → IsLive W broken s.session_state
      → W.is_close m ≡ true
      → try_update_state W broken (client_update (ok m)) s
        ≡ (record s { session_state = closed }, returns (some closed))
  unfolding try_update_state
  try_update_state_closes s m (inl (x, live)) e = ground arith
  try_update_state_closes s m (inr live) e = ground arith

  pub on_closed_present :
      (h : Handler D W) (c : P) (k : ClientKey P) (gs : GatewayState D P)
      → h.session.canister_id ≡ some c
      → h.session.client_key ≡ some k
      → remove_client D dec h.gateway c k ≡ done gs
      → on_closed D dec W broken h
        ≡ (record h { gateway = gs; ws_closes = h.ws_closes ++ (c, k) ∷ [] }, finished (ok tt))
  unfolding on_closed
  on_closed_present h c k gs e f r = ground arith

  -- When the client of a set-up session closes its connection, the handler ends without an error,
  -- the client is removed from the gateway state and nothing else is, and the canister is told, by
  -- one call of `ws_close`, that this client has gone. (The gateway state holds the client.)
  pub handle_turn_closes :
      (h : Handler D W) (m : W.Message) (c : P) (k : ClientKey P) (v : ClientSender)
      (meanwhile between : GatewayState D P → GatewayState D P)
      → IsLive W broken h.session.session_state
      → h.session.canister_id ≡ some c
      → h.session.client_key ≡ some k
      → W.is_close m ≡ true
      → IsWellFormed D dec (meanwhile h.gateway)
      → clients_of (view D dec (meanwhile h.gateway) c) k ≡ some v
      → let turn : Turn D W = record {
        update = client_update (ok m);
        meanwhile = meanwhile;
        between = between;
      } in
        let (h', handling) = handle_turn D dec W broken h turn in
        (handling ≡ finished (ok tt))
        × (view D dec h'.gateway ≡ drop_client D dec (view D dec (meanwhile h.gateway)) c k)
        × (h'.ws_closes ≡ h.ws_closes ++ (c, k) ∷ [])
        × (h'.session.session_state ≡ closed)
  unfolding handle_turn
  handle_turn_closes h m c k v meanwhile between live e f close wf there =
      let (gs, gone, viewed, _) = remove_present D dec (meanwhile h.gateway) c k v wf there in
      let closing : Handler D W = record h {
        session = record h.session { session_state = closed };
        gateway = meanwhile h.gateway;
      } in
      rw (try_update_state_closes h.session m live close, on_closed_present closing c k gs e f gone)
        (refl, viewed, refl, refl)

  abbrev pub is_poller : IcWsError → Bool
  is_poller (poller _) = true
  is_poller _ = false

  on_error_keys :
      (e : IcWsError) (h : Handler D W) (c : P) (k : ClientKey P)
      → is_poller e ≡ false
      → h.session.canister_id ≡ some c
      → h.session.client_key ≡ some k
      → let (gs, removal) = remove_client_if_exists D dec h.gateway c k in
        let (h', handling) = on_error D dec W broken e h in
        (h'.gateway ≡ gs)
        × (handling ≡ (elim removal [
          | removed _ ↦ finished (err (session_error e))
          | vacant ↦ finished (err (before_setup e))
        ]))
        × (h'.ws_closes
            ≡ (elim removal [ removed key ↦ h.ws_closes ++ (c, key) ∷ [] | vacant ↦ h.ws_closes ]))
  unfolding on_error
  on_error_keys (poller x) h c k n e f = cc
  on_error_keys (ic_ws_protocol x) h c k n e f = ground arith
  on_error_keys (web_socket x) h c k n e f = ground arith

  handle_turn-on_error :
      (h : Handler D W) (turn : Turn D W) (e : IcWsError)
      → (try_update_state W broken turn.update h.session).1 ≡ fails e
      → handle_turn D dec W broken h turn
        ≡ on_error D dec W broken e (record h {
          session = (try_update_state W broken turn.update h.session).0;
          gateway = turn.meanwhile h.gateway;
        })
  unfolding handle_turn
  handle_turn-on_error h turn e f = rw f refl

  -- When an update fails, other than by the end of the poller, the handler ends with an error and
  -- leaves no trace of its client: if the gateway state holds the client, the client is removed,
  -- nothing else is, and the canister is told by one call of `ws_close`; if it does not, the
  -- gateway state stays as it is and the canister is not called. It never panics. (The session's
  -- keys are known after the update.)
  pub handle_turn_fails :
      (h : Handler D W) (turn : Turn D W) (e : IcWsError) (c : P) (k : ClientKey P)
      → (try_update_state W broken turn.update h.session).1 ≡ fails e
      → is_poller e ≡ false
      → (try_update_state W broken turn.update h.session).0.canister_id ≡ some c
      → (try_update_state W broken turn.update h.session).0.client_key ≡ some k
      → IsWellFormed D dec (turn.meanwhile h.gateway)
      → let d = view D dec (turn.meanwhile h.gateway) in
        let (h', handling) = handle_turn D dec W broken h turn in
        (view D dec h'.gateway
          ≡ (elim (clients_of (d c) k) [ none ↦ d | some _ ↦ drop_client D dec d c k ]))
        × (handling ≡ (elim (clients_of (d c) k) [
          | none ↦ finished (err (before_setup e))
          | some _ ↦ finished (err (session_error e))
        ]))
        × (h'.ws_closes ≡ (elim (clients_of (d c) k) [
          | none ↦ h.ws_closes
          | some _ ↦ h.ws_closes ++ (c, k) ∷ []
        ]))
  handle_turn_fails h turn e c k f other_error canister key wf =
      let failed : Handler D W = record h {
        session = (try_update_state W broken turn.update h.session).0;
        gateway = turn.meanwhile h.gateway;
      } in
      let (held, ends, told) = on_error_keys e failed c k other_error canister key in
      let (_, viewed, result) =
        remove_client_if_exists_refines D dec (turn.meanwhile h.gateway) wf c k in
      rw (handle_turn-on_error h turn e f) (
        ap (view D dec) held ∙ viewed,
        elim (Option-cases (clients_of (view D dec (turn.meanwhile h.gateway) c) k)) [
          | inl g ↦ ground arith
          | inr (v, g) ↦ ground arith
        ],
        elim (Option-cases (clients_of (view D dec (turn.meanwhile h.gateway) c) k)) [
          | inl g ↦ ground arith
          | inr (v, g) ↦ ground arith
        ],
      )
