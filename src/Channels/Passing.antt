-- ===== src/Channels/Passing.antt =====
-- A turn of a handler: where the sending half of its channel may go.
use ic_websocket_gateway.Prelude.{
  ℕ, ◌≡◌, refl, ◌∙◌, ◌⊎◌, inl, inr, Bool, [], none, some, arith, ok, err,
}
use ic_websocket_gateway.DashMap.{DashMap}
use ic_websocket_gateway.CanisterUtils.{ClientKey}
use ic_websocket_gateway.State.{GatewayState, ClientSender}
use ic_websocket_gateway.State.View.{IsWellFormed}
use ic_websocket_gateway.State.Senders.{sender_at}
use ic_websocket_gateway.Session.External.{Wire}
use ic_websocket_gateway.Session.{
  IcWsSessionState, init, setup, opened, closed, ClientSession, Update, client_update,
  canister_update,
}
use ic_websocket_gateway.Session.Updates.{KeysFit}
use ic_websocket_gateway.Session.Transitions.{try_update_state}
use ic_websocket_gateway.Handler.Panics.{Runs}
use ic_websocket_gateway.Handler.{Handler, handle_turn}
use ic_websocket_gateway.Gateway.{Gateway, enter, on_its_own}
use ic_websocket_gateway.Channels.Hands.{Keys}
use ic_websocket_gateway.Channels.Answers.{on_answer-Hands}

module _ (D : DashMap) {P : Type 0} (dec : Discrete P) (W : Wire P) (broken : ℕ → Bool) where
  pub try_update_state-keys :
      (s : ClientSession W) (st : IcWsSessionState W.Message) (u : Update W)
      → s.session_state ≡ st
      → KeysFit W st s.client_key s.canister_id
      → (k : ClientKey P) (c : P) → s.client_key ≡ some k
      → s.canister_id ≡ some c
      → ((try_update_state W broken u s).0.client_key ≡ some k)
        × ((try_update_state W broken u s).0.canister_id ≡ some c)
  unfolding try_update_state
  try_update_state-keys s init u e fit k c key canister = absurd (ground arith)
  try_update_state-keys s (setup x) (client_update (ok m)) e fit k c key canister = ground arith
  try_update_state-keys s opened (client_update (ok m)) e fit k c key canister = ground arith
  try_update_state-keys s closed (client_update (ok m)) e fit k c key canister = ground arith
  try_update_state-keys s _ (client_update (err x)) e fit k c key canister = ground arith
  try_update_state-keys s (setup x) (canister_update (some m)) e fit k c key canister = ground arith
  try_update_state-keys s opened (canister_update (some m)) e fit k c key canister = ground arith
  try_update_state-keys s closed (canister_update (some m)) e fit k c key canister = ground arith
  try_update_state-keys s _ (canister_update none) e fit k c key canister = ground arith

  -- A turn from `h` to `h'` over the gateway state: known keys stay; the sending half stays where it
  -- is, or is given up, or goes into the gateway state under the session's keys.
  pub record Passes (gs gs' : GatewayState D P) (h h' : Handler D W) : Type 0 where
    pub keys : (k : ClientKey P) (c : P) → Keys D dec W broken h k c → Keys D dec W broken h' k c
    pub held : (t : ℕ) → h'.client_channel_tx ≡ some t → h.client_channel_tx ≡ some t
    pub sent :
        (c : P) (k : ClientKey P) (v : ClientSender)
        → sender_at D dec gs' c k ≡ some v
        → (sender_at D dec gs c k ≡ some v)
          ⊎ ((h.client_channel_tx ≡ some v.sender)
              × (h'.client_channel_tx ≡ none)
              × Keys D dec W broken h' k c)

  pub handle_turn-Passes :
      (interval : ℕ) (g : Gateway D W) (h : Handler D W) (u : Update W)
      → IsWellFormed D dec g.state
      → Runs D dec W broken h
      → let r =
          handle_turn D dec W broken
            (enter D dec W broken interval g h)
            (on_its_own D dec W broken interval u) in
        Passes g.state r.0.gateway h r.0
  unfolding handle_turn
  handle_turn-Passes interval g h u wf runs =
      let entered : Handler D W = record h {
        gateway = g.state;
        pollers = [];
        session = (try_update_state W broken u h.session).0;
      } in
      let m = on_answer-Hands D dec W broken entered (try_update_state W broken u h.session).1 wf in
      record {
        keys = λ k c (key, canister).
            let (key', canister') =
              try_update_state-keys h.session h.session.session_state u refl runs.sound.0 k c key
                canister in
            (m.client_key ∙ key', m.canister_id ∙ canister');
        held = m.held;
        sent = λ c k v there. elim (m.sent c k v there) [
          | inl old ↦ inl old
          | inr (own, gone, (key, canister)) ↦
              inr (own, gone, (m.client_key ∙ key, m.canister_id ∙ canister))
        ];
      }
