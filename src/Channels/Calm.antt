-- ===== src/Channels/Calm.antt =====
-- A handler that takes a message from its channel: it does not panic.
use ic_websocket_gateway.Prelude.{
  ℕ, ◌≡◌, ◌≢◌, refl, subst, Bool, List, [], ◌∷◌, Option, none, some, arith, String, All,
}
use ic_websocket_gateway.DashMap.{DashMap}
use ic_websocket_gateway.CanisterUtils.{ClientKey, IcWsCanisterMessage}
use ic_websocket_gateway.Session.External.{Wire}
use ic_websocket_gateway.Session.Monad.{
  ic_ws_protocol, web_socket, poller, Answer, returns, fails, panics,
}
use ic_websocket_gateway.Session.{
  IcWsSessionState, init, setup, opened, closed, ClientSession, canister_update,
}
use ic_websocket_gateway.Session.Updates.{KeysFit}
use ic_websocket_gateway.Session.Transitions.{try_update_state}
use ic_websocket_gateway.Handler.{Handler, panicked, handle_turn, on_answer, on_error}
use ic_websocket_gateway.Gateway.{enter, on_its_own}
use ic_websocket_gateway.Channels.{Post, Network, new_network, Reaches}
use ic_websocket_gateway.Channels.Passing.{try_update_state-keys}
use ic_websocket_gateway.Channels.Routing.{For}
use ic_websocket_gateway.Channels.Reachable.{Reaches-Routed, new_network-Routed}

module _ (D : DashMap) {P : Type 0} (dec : Discrete P) (W : Wire P) (broken : ℕ → Bool) where
  -- The answers that a message of the canister gets after the set-up.
  abbrev Calm : Answer (Option (IcWsSessionState W.Message)) → Type 0
  Calm (returns none) = Unit
  Calm (returns (some opened)) = Unit
  Calm (returns (some _)) = ⊥
  Calm (fails _) = Unit
  Calm (panics _) = ⊥

  try_update_state-Calm :
      (s : ClientSession W) (st : IcWsSessionState W.Message) (m : IcWsCanisterMessage)
      → s.session_state ≡ st
      → st ≢ init
      → Calm (try_update_state W broken (canister_update (some m)) s).1
  unfolding try_update_state
  try_update_state-Calm s init m e past = absurd (past refl)
  try_update_state-Calm s (setup x) m e past = ground arith
  try_update_state-Calm s opened m e past = ground arith
  try_update_state-Calm s closed m e past = ground arith

  on_answer-Calm :
      (h : Handler D W) (a : Answer (Option (IcWsSessionState W.Message))) (k : ClientKey P) (c : P)
      (x : String)
      → Calm a
      → h.session.client_key ≡ some k
      → h.session.canister_id ≡ some c
      → (on_answer D dec W broken (λ gs. gs) h a).1 ≢ panicked x
  unfolding on_error
  on_answer-Calm h (returns none) k c x calm key canister = λ e. ground arith
  on_answer-Calm h (returns (some opened)) k c x calm key canister = λ e. ground arith
  on_answer-Calm h (returns (some init)) k c x calm key canister = absurd calm
  on_answer-Calm h (returns (some (setup m))) k c x calm key canister = absurd calm
  on_answer-Calm h (returns (some closed)) k c x calm key canister = absurd calm
  on_answer-Calm h (fails (poller m)) k c x calm key canister = λ e. ground arith
  on_answer-Calm h (fails (ic_ws_protocol m)) k c x calm key canister = λ e. ground arith
  on_answer-Calm h (fails (web_socket m)) k c x calm key canister = λ e. ground arith
  on_answer-Calm h (panics m) k c x calm key canister = absurd calm

  module _ (interval : ℕ) where
    -- A message never comes through the channel before the session is set up, so that the
    -- `unreachable!` for this case is never reached, and no other panic either: whatever happens in
    -- the gateway, a handler's turn with the next message of its channel does not panic.
    pub channel_never_panics :
        (n : Network D W) (i : ℕ) (h : Handler D W) (post : Post P) (posts : List (Post P))
        (x : String)
        → Reaches D dec W broken interval (new_network D dec W broken interval) n
        → n.gateway.handlers i ≡ some h
        → n.channels (n.receivers i) ≡ post ∷ posts
        → (handle_turn D dec W broken
            (enter D dec W broken interval n.gateway h)
            (on_its_own D dec W broken interval (canister_update (some post.1.message)))).1
          ≢ panicked x
    unfolding handle_turn
    channel_never_panics n i h (c, r) posts x reached live full =
        let (fine, routed) =
          Reaches-Routed D dec W broken interval (new_network D dec W broken interval) n reached
            (new_network-Routed D dec W broken interval).0
            (new_network-Routed D dec W broken interval).1 in
        let s = h.session in
        let fit = (routed.runs i h live).sound.0 in
        let ((key, canister), _) =
          subst (All (For D dec W broken h)) full (routed.filled i h live) in
        let past : s.session_state ≢ init =
          λ e. let (gone, _) = subst (λ st. KeysFit W st s.client_key s.canister_id) e fit in cc in
        let (key', canister') =
          try_update_state-keys D dec W broken s s.session_state (canister_update (some r.message))
            refl fit r.client_key c key canister in
        on_answer-Calm
          (record h {
            session = (try_update_state W broken (canister_update (some r.message)) s).0;
            gateway = n.gateway.state;
            pollers = [];
          })
          (try_update_state W broken (canister_update (some r.message)) s).1 r.client_key c x
          (try_update_state-Calm s s.session_state r.message refl past) key' canister'
