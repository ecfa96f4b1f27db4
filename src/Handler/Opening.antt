-- ===== src/Handler/Opening.antt =====
-- client_session_handler.rs, the branch for Setup: the message that opened the session can be
-- relayed, if what was decoded can be encoded again.
use ic_websocket_gateway.Prelude.{
  ℕ, ◌≡◌, Bool, Option, none, some, arith, ok, err, inl, inr, Option-cases,
}
use ic_websocket_gateway.CanisterUtils.{Bytes}
use ic_websocket_gateway.Session.External.{Wire}
use ic_websocket_gateway.Session.Monad.{Answer, returns}
use ic_websocket_gateway.Session.{
  IcWsSessionState, init, setup, opened, closed, ClientSession, Update, client_update,
  canister_update, relay_client_message,
}
use ic_websocket_gateway.Session.Transitions.{try_update_state}

module _ {P : Type 0} (W : Wire P) (broken : ℕ → Bool) where
  -- Every envelope can be encoded.
  abbrev pub Encodable : Type 0
  Encodable = (e : W.Envelope) → (b : Bytes) × (W.encode_envelope e ≡ ok b)

  abbrev pub Relays : ClientSession W → Answer (Option (IcWsSessionState W.Message)) → Type 0
  Relays s (returns (some (setup m))) = (relay_client_message W broken m s).1 ≡ returns tt
  Relays s _ = Unit

  pub try_update_state-Relays :
      (s : ClientSession W) (st : IcWsSessionState W.Message) (u : Update W)
      → s.session_state ≡ st
      → Encodable
      → Relays (try_update_state W broken u s).0 (try_update_state W broken u s).1
  unfolding try_update_state relay_client_message
  try_update_state-Relays s init (client_update (ok m)) e encode =
      elim (Option-cases (W.as_binary m)) [
        | inl none_binary ↦ ground arith
        | inr (bytes, f) ↦ elim (Option-cases (W.decode_request bytes)) [
          | inl none_decoded ↦ ground arith
          | inr (envelope, g) ↦ let (b, encoded) = encode envelope in ground arith
        ]
      ]
  try_update_state-Relays s (setup x) (client_update (ok m)) e encode = ground arith
  try_update_state-Relays s opened (client_update (ok m)) e encode = ground arith
  try_update_state-Relays s closed (client_update (ok m)) e encode = ground arith
  try_update_state-Relays s _ (client_update (err x)) e encode = ground arith
  try_update_state-Relays s init (canister_update (some m)) e encode = ground arith
  try_update_state-Relays s (setup x) (canister_update (some m)) e encode = ground arith
  try_update_state-Relays s opened (canister_update (some m)) e encode = ground arith
  try_update_state-Relays s closed (canister_update (some m)) e encode = ground arith
  try_update_state-Relays s _ (canister_update none) e encode = ground arith
