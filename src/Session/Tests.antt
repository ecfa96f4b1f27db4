-- ===== src/Session/Tests.antt =====
-- The theorems on the session at concrete inputs, on a wire whose messages are bytes: the empty
-- message closes the connection, and three bytes are a call, with its canister, its sender and the
-- nonce of its argument.
use ic_websocket_gateway.Prelude.{
  ℕ, ◌≡◌, refl, Bool, true, false, [], ◌∷◌, none, some, ok, ℕ_discrete,
}
use mathlib.Core.List.{List-discrete}
use ic_websocket_gateway.CanisterUtils.{Bytes, ClientKey}
use ic_websocket_gateway.Session.External.{Wire, EnvelopeContent, call, other}
use ic_websocket_gateway.Session.Updates.{Moves, KeysFit, try_update_state-Moves}
use ic_websocket_gateway.Session.Monad.{returns}
use ic_websocket_gateway.Session.Reachable.{first, init_session_reaches}
use ic_websocket_gateway.Session.Delivery.{run_updates, try_update_state_relays}
use ic_websocket_gateway.Session.{ClientSession, init, opened, client_update, init_session}
use ic_websocket_gateway.Session.Transitions.{try_update_state}

abbrev is_empty : Bytes → Bool
is_empty [] = true
is_empty _ = false

abbrev content_of : Bytes → EnvelopeContent ℕ
content_of (c ∷ s ∷ n ∷ []) = call c (n ∷ []) s
content_of _ = other 0

abbrev pub wire : Wire ℕ
wire = record {
  Message = Bytes;
  message_dec = List-discrete ℕ_discrete;
  binary = λ b. b;
  as_binary = λ m. some m;
  is_close = is_empty;
  as_binary-binary = λ b. refl;
  Envelope = Bytes;
  content = content_of;
  decode_request = λ b. some b;
  encode_envelope = λ e. ok e;
  encode_handshake = λ p. ok (p ∷ []);
  decode_open = λ a. ok (record { client_nonce = 10; gateway_principal = 0 });
  to_vec = λ m. ok m.content;
}

abbrev pub sound : ℕ → Bool
sound n = false

abbrev alice : ClientKey ℕ
alice = record { client_principal = 1; client_nonce = 10 }

abbrev pub fresh : ClientSession wire
fresh = record {
  client_id = 0;
  client_key = none;
  canister_id = none;
  session_state = init;
  written = [];
  ws_closed = false;
  relayed = [];
  operations = 1;
}

-- A call of alice to canister 7.
abbrev pub alice_calls : Bytes
alice_calls = 7 ∷ 1 ∷ 10 ∷ []

abbrev open_session : ClientSession wire
open_session = record fresh {
  client_key = some alice;
  canister_id = some 7;
  session_state = opened;
}

try_update_state-Moves_example :
    Moves wire
      (client_update (ok alice_calls))
      init
      (try_update_state wire sound (client_update (ok alice_calls)) fresh).0.session_state
try_update_state-Moves_example =
    try_update_state-Moves wire sound fresh (client_update (ok alice_calls))

try_update_state_relays_example :
    let s' = (try_update_state wire sound (client_update (ok alice_calls)) open_session).0 in
    (s'.relayed ≡ (7, alice_calls) ∷ []) × (s'.written ≡ []) × (s'.session_state ≡ opened)
try_update_state_relays_example =
    try_update_state_relays wire sound open_session alice_calls 7 refl refl refl

init_session_reaches_example :
    let (s, answer) = init_session wire sound 0 42 in
    let s' = run_updates wire sound s (client_update (ok alice_calls) ∷ []) in
    (answer ≡ returns tt)
    × (first s'.written ≡ some (42 ∷ []))
    × KeysFit wire s'.session_state s'.client_key s'.canister_id
init_session_reaches_example =
    init_session_reaches wire sound 0 42 (42 ∷ []) (client_update (ok alice_calls) ∷ []) refl refl
