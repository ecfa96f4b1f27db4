-- ===== src/Session/External.antt =====
-- What client_session.rs takes from other crates: the messages of a WebSocket (`tungstenite`), the
-- signed envelopes of the IC (`ic-agent`), and their encodings (`serde_cbor`, `candid`).
use ic_websocket_gateway.Prelude.{ℕ, ◌≡◌, Bool, Option, some, Result}
use ic_websocket_gateway.CanisterUtils.{Bytes, CanisterToClientMessage}

-- The content of an envelope, as far as the gateway looks into it: a call, with its canister and
-- argument, or another request; each has a sender.
pub data EnvelopeContent (P : Type 0) : Type 0 where
  call : (canister_id : P) (arg : Bytes) (sender : P) → EnvelopeContent P
  other : (sender : P) → EnvelopeContent P

-- canister-utils/src/lib.rs
pub record CanisterWsOpenArguments (P : Type 0) : Type 0 where
  pub client_nonce : ℕ
  pub gateway_principal : P

pub record Wire (P : Type 0) : Type 1 where
  pub Message : Type 0
  pub message_dec : Discrete Message
  pub binary : Bytes → Message
  pub as_binary : Message → Option Bytes
  pub is_close : Message → Bool
  pub as_binary-binary : (b : Bytes) → as_binary (binary b) ≡ some b
  pub Envelope : Type 0
  pub content : Envelope → EnvelopeContent P
  pub decode_request : Bytes → Option Envelope
  pub encode_envelope : Envelope → Result Bytes Bytes
  pub encode_handshake : P → Result Bytes Bytes
  pub decode_open : Bytes → Result (CanisterWsOpenArguments P) Bytes
  pub to_vec : CanisterToClientMessage → Result Bytes Bytes
