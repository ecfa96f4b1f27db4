-- ===== src/Session/Reachable.antt =====
-- client_session.rs: what holds of a session from its `init` on, whatever updates come.
use ic_websocket_gateway.Prelude.{
  ℕ, ◌≡◌, Bool, false, List, [], ◌∷◌, ◌++◌, Option, none, some, arith, ok, err,
}
use ic_websocket_gateway.CanisterUtils.{Bytes}
use ic_websocket_gateway.Session.External.{Wire}
use ic_websocket_gateway.Session.Monad.{returns}
use ic_websocket_gateway.Session.Updates.{KeysFit, try_update_state-KeysFit}
use ic_websocket_gateway.Session.Delivery.{run_updates}
use ic_websocket_gateway.Session.{
  ClientSession, Update, client_update, canister_update, init, init_session,
}
use ic_websocket_gateway.Session.Transitions.{try_update_state}

-- The first item of a list.
abbrev pub first : {A : Type 0} → List A → Option A
first [] = none
first (x ∷ l) = some x

first-append :
    {A : Type 0} (l : List A) (x : A) → first l ≡ some x → (m : List A) → first (l ++ m) ≡ some x
first-append [] x e m = cc
first-append (y ∷ l) x e m = e

module _ {P : Type 0} (W : Wire P) (broken : ℕ → Bool) where
  try_update_state-first :
      (s : ClientSession W) (x : W.Message) (u : Update W)
      → first s.written ≡ some x
      → first (try_update_state W broken u s).0.written ≡ some x
  unfolding try_update_state
  try_update_state-first s x (client_update (ok m)) e = ground (arith, first-append s.written x e)
  try_update_state-first s x (client_update (err m)) e = ground (arith, first-append s.written x e)
  try_update_state-first s x (canister_update (some m)) e =
      ground (arith, first-append s.written x e)
  try_update_state-first s x (canister_update none) e = ground (arith, first-append s.written x e)

  run_updates-first :
      (s : ClientSession W) (x : W.Message) (us : List (Update W))
      → first s.written ≡ some x
      → first (run_updates W broken s us).written ≡ some x
  unfolding run_updates
  run_updates-first s x [] e = e
  run_updates-first s x (u ∷ us) e =
      run_updates-first (try_update_state W broken u s).0 x us (try_update_state-first s x u e)

  run_updates-KeysFit :
      (s : ClientSession W) (us : List (Update W))
      → KeysFit W s.session_state s.client_key s.canister_id
      → let s' = run_updates W broken s us in
        KeysFit W s'.session_state s'.client_key s'.canister_id
  unfolding run_updates
  run_updates-KeysFit s [] k = k
  run_updates-KeysFit s (u ∷ us) k =
      run_updates-KeysFit (try_update_state W broken u s).0 us
        (try_update_state-KeysFit W broken s u k).0

  init_session_lem :
      (client_id : ℕ) (gateway_principal : P) (b : Bytes)
      → W.encode_handshake gateway_principal ≡ ok b
      → broken 0 ≡ false
      → let (s, answer) = init_session W broken client_id gateway_principal in
        (answer ≡ returns tt)
        × (first s.written ≡ some (W.binary b))
        × (s.session_state ≡ init)
        × (s.client_key ≡ none)
        × (s.canister_id ≡ none)
  unfolding init_session
  init_session_lem client_id p b e f = ground arith

  -- A session that is made while the WebSocket works begins with the handshake: whatever updates
  -- come afterwards, the first message ever written to the client is the one with the gateway's
  -- principal; and in every state that the session reaches, its client's key and its canister are
  -- known in Setup and Open and unknown in Init, which is what its `expect`s rely on. (The
  -- principal can be encoded.)
  pub init_session_reaches :
      (client_id : ℕ) (gateway_principal : P) (b : Bytes) (us : List (Update W))
      → W.encode_handshake gateway_principal ≡ ok b
      → broken 0 ≡ false
      → let (s, answer) = init_session W broken client_id gateway_principal in
        let s' = run_updates W broken s us in
        (answer ≡ returns tt)
        × (first s'.written ≡ some (W.binary b))
        × KeysFit W s'.session_state s'.client_key s'.canister_id
  init_session_reaches client_id p b us e f =
      let (made, written, state, no_key, no_canister) = init_session_lem client_id p b e f in
      let s = (init_session W broken client_id p).0 in
      (
        made,
        run_updates-first s (W.binary b) us written,
        run_updates-KeysFit s us (rw state (no_key, no_canister)),
      )
