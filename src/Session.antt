-- ===== src/Session.antt =====
-- src/ic-websocket-gateway/src/client_session.rs: one client's IC WebSocket session.
-- A method is a function from the session to the session and the way the call ends.
pub mod Monad
pub mod External
pub mod Transitions
pub mod Updates
pub mod Delivery
pub mod Reachable
pub mod Tests
use ic_websocket_gateway.Prelude.{
  ℕ, suc, String, Bool, true, false, not, ◌&&◌, List, [], ◌∷◌, ◌++◌, Option, none, some, ite,
  Result, ok, err, if◌then◌else◌,
}
use ic_websocket_gateway.CanisterUtils.{
  Bytes, ClientKey, CanisterToClientMessage, IcWsCanisterMessage,
}
use External.{Wire, EnvelopeContent, call, other, CanisterWsOpenArguments}
use Monad.{
  IcWsError, ic_ws_protocol, web_socket, poller, Answer, returns, fails, panics, M, pure, fail,
  crash, get, set, lift, ◌>>=◌, ◌>>◌,
}

pub data IcWsSessionState (Message : Type 0) : Type 0 where
  init : IcWsSessionState Message
  setup : Message → IcWsSessionState Message
  opened : IcWsSessionState Message
  closed : IcWsSessionState Message

unfoldable pub is_closed : {Message : Type 0} → IcWsSessionState Message → Bool
is_closed closed = true
is_closed _ = false

-- The derived `PartialEq`.
unfoldable pub same_state :
    {Message : Type 0}
    → Discrete Message
    → IcWsSessionState Message
    → IcWsSessionState Message
    → Bool
same_state dec init init = true
same_state dec (setup m) (setup n) = ite (dec m n) true false
same_state dec opened opened = true
same_state dec closed closed = true
same_state dec _ _ = false

-- The session's fields, and what it has done outside: the messages written to the WebSocket,
-- whether the WebSocket was closed, the envelopes given to the IC with the canister that each was
-- given for, and the number of operations on the WebSocket so far.
pub record ClientSession {P : Type 0} (W : Wire P) : Type 0 where
  pub client_id : ℕ
  pub client_key : Option (ClientKey P)
  pub canister_id : Option P
  pub session_state : IcWsSessionState W.Message
  pub written : List W.Message
  pub ws_closed : Bool
  pub relayed : List (P × Bytes)
  pub operations : ℕ

-- What the branch of `select!` that is taken brings: a client's message or the error of reading
-- it; or a canister's message, or `none` if the poller's side of the channel is gone.
pub data Update {P : Type 0} (W : Wire P) : Type 0 where
  client_update : Result W.Message Bytes → Update W
  canister_update : Option IcWsCanisterMessage → Update W

-- `get_client_request`.
unfoldable pub get_client_request :
    {P : Type 0} (W : Wire P) → W.Message → Result W.Envelope IcWsError
get_client_request W message = elim (W.as_binary message) [
  | none ↦ err (web_socket "ws message from client is not binary encoded")
  | some bytes ↦ elim (W.decode_request bytes) [
    | none ↦ err (web_socket "ws message from client is not of type ClientRequest")
    | some envelope ↦ ok envelope
  ]
]

-- `broken n` tells whether the n-th operation on the WebSocket fails.
module _ {P : Type 0} (W : Wire P) (broken : ℕ → Bool) where
  abbrev Session : Type 0
  Session = ClientSession W

  unfoldable pub send_ws_message_to_client : W.Message → M Session (Unit {0})
  send_ws_message_to_client message s =
      let s' : Session = record s { operations = suc s.operations } in
      if broken s.operations
      then (s', fails (web_socket ""))
      else (record s' { written = s.written ++ message ∷ [] }, returns tt)

  unfoldable pub close_ws_session : M Session (Unit {0})
  close_ws_session s =
      let s' : Session = record s { operations = suc s.operations } in
      if broken s.operations
      then (s', fails (web_socket ""))
      else (record s' { ws_closed = true }, returns tt)

  -- The error of the first message is reported as one of the handshake.
  abbrev handshake : Session × Answer (Unit {0}) → Session × Answer (Unit {0})
  handshake (s, returns u) = (s, returns u)
  handshake (s, fails e) = (s, fails (web_socket "Error sending handshake message to client: "))
  handshake (s, panics m) = (s, panics m)

  -- `ClientSession::init`, which sends the gateway's principal.
  unfoldable pub init_session : ℕ → P → Session × Answer (Unit {0})
  unfolding send_ws_message_to_client
  init_session client_id gateway_principal =
      let s : Session = record {
        client_id = client_id;
        client_key = none;
        canister_id = none;
        session_state = init;
        written = [];
        ws_closed = false;
        relayed = [];
        operations = 0;
      } in
      elim (W.encode_handshake gateway_principal) [
        | err _ ↦ (s, panics "Principal should be serializable")
        | ok bytes ↦ handshake (send_ws_message_to_client (W.binary bytes) s)
      ]

  unfoldable pub check_client_update : Result W.Message Bytes → M Session W.Message
  check_client_update (ok message) s = pure message s
  check_client_update (err e) s = (
    record s { session_state = closed },
    fails (web_socket "Error receiving message from client: "),
  )

  unfoldable pub inspect_ic_ws_open_message : W.Message → Result (ClientKey P × P) IcWsError
  unfolding get_client_request
  inspect_ic_ws_open_message ws_message = elim (get_client_request W ws_message) [
    | err e ↦ err e
    | ok envelope ↦ elim (W.content envelope) [
      | other _ ↦ err (
          ic_ws_protocol
            "first message from client should contain canister_id and arg in envelope's content and should be of Call variant")
      | call canister_id arg sender ↦ elim (W.decode_open arg) [
        | err _ ↦ err (ic_ws_protocol "arg field of envelope's content has the wrong type: ")
        | ok ws_open_arguments ↦ ok (
          record { client_principal = sender; client_nonce = ws_open_arguments.client_nonce },
          canister_id,
        )
      ]
    ]
  ]

  -- `canister_id.replace(..).is_some() || client_key.replace(..).is_some()`: the key is replaced
  -- only if no canister was set before.
  unfoldable pub replace_keys : ClientKey P → P → M Session (Unit {0})
  replace_keys client_key canister_id s = elim s.canister_id [
    | none ↦ (record s { canister_id = some canister_id; client_key = some client_key }, returns tt)
    | some _ ↦ (record s { canister_id = some canister_id }, returns tt)
  ]

  abbrev setup_with :
      W.Message → Result (ClientKey P × P) IcWsError → M Session (IcWsSessionState W.Message)
  setup_with ws_open_message (ok (client_key, canister_id)) = do
    replace_keys client_key canister_id
    pure (setup ws_open_message)
  setup_with ws_open_message (err e) = do
    close_ws_session
    fail (ic_ws_protocol "IC WS setup failed. Error: ")

  unfoldable pub handle_setup_transition : W.Message → M Session (IcWsSessionState W.Message)
  unfolding replace_keys close_ws_session inspect_ic_ws_open_message
  handle_setup_transition ws_open_message =
      setup_with ws_open_message (inspect_ic_ws_open_message ws_open_message)

  -- The spawned task hands the envelope to the IC; its outcome is only logged.
  abbrev relay_envelope_to_canister : Bytes → P → M Session (Unit {0})
  relay_envelope_to_canister serialized_envelope canister_id s =
      (record s { relayed = s.relayed ++ (canister_id, serialized_envelope) ∷ [] }, returns tt)

  abbrev expect_canister : Bytes → Option P → M Session (Unit {0})
  expect_canister serialized_envelope none = crash "must be set"
  expect_canister serialized_envelope (some canister_id) =
      relay_envelope_to_canister serialized_envelope canister_id

  abbrev relay_content : W.Envelope → EnvelopeContent P → M Session (Unit {0})
  relay_content envelope (other _) s =
      (s, fails (ic_ws_protocol "Gateway can only relay envelopes with content of Call variant"))
  relay_content envelope (call _ _ _) s = elim (W.encode_envelope envelope) [
    | err _ ↦ (s, fails (web_socket "could not serialize message. Error: "))
    | ok serialized_envelope ↦ expect_canister serialized_envelope s.canister_id s
  ]

  -- `relay_client_message`, with `relay_ws_message_to_ic`.
  unfoldable pub relay_client_message : W.Message → M Session (Unit {0})
  unfolding get_client_request
  relay_client_message message = do
    envelope ← lift (get_client_request W message)
    relay_content envelope (W.content envelope)

  unfoldable pub relay_canister_message : CanisterToClientMessage → M Session (Unit {0})
  unfolding send_ws_message_to_client
  relay_canister_message canister_message = elim (W.to_vec canister_message) [
    | err _ ↦ fail (ic_ws_protocol "Could not serialize canister message. Error: ")
    | ok bytes ↦ send_ws_message_to_client (W.binary bytes)
  ]

  unfoldable pub handle_open_transition :
      CanisterToClientMessage → M Session (IcWsSessionState W.Message)
  unfolding relay_canister_message
  handle_open_transition canister_message = do relay_canister_message canister_message; pure opened
