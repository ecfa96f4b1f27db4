-- ===== src/Handler/Tests.antt =====
-- The theorems on the handler at concrete inputs, on the wire of the session's tests: alice calls
-- canister 7, or gives up.
use ic_websocket_gateway.Prelude.{
  ℕ, ◌≡◌, refl, inr, false, [], ◌∷◌, none, some, ok, err, ℕ_discrete,
}
use ic_websocket_gateway.DashMap.Assoc.{assoc}
use ic_websocket_gateway.CanisterUtils.{Bytes, ClientKey}
use ic_websocket_gateway.State.{
  GatewayState, ClientSender, entry, new, insert_client_channel_and_get_new_poller_state,
}
use ic_websocket_gateway.State.View.{view, IsWellFormed, new-IsWellFormed}
use ic_websocket_gateway.State.Directory.{clients_of, put, drop_client}
use ic_websocket_gateway.State.Refinement.{insert_refines}
use ic_websocket_gateway.State.Removal.{put_present}
use ic_websocket_gateway.Session.External.{Wire}
use ic_websocket_gateway.Session.Monad.{IcWsError, web_socket, fails}
use ic_websocket_gateway.Session.Tests.{wire, sound, fresh, alice_calls}
use ic_websocket_gateway.Session.{
  client_update, init, opened, closed, inspect_ic_ws_open_message, check_client_update,
}
use ic_websocket_gateway.Session.Transitions.{try_update_state, handle_client_update}
use ic_websocket_gateway.Handler.Setup.{Opens, set_up, new_entry, started_on, handle_turn_sets_up}
use ic_websocket_gateway.Handler.Ending.{handle_turn-GivesUp}
use ic_websocket_gateway.Handler.Cleanup.{handle_turn_closes, handle_turn_fails}
use ic_websocket_gateway.Handler.Orphan.{handle_turn_orphans}
use ic_websocket_gateway.Handler.{
  Handler, Turn, continues, panicked, finished, not_relayed, session_error, before_setup,
  handle_turn,
}

abbrev pub alice : ClientKey ℕ
alice = record { client_principal = 1; client_nonce = 10 }

abbrev alice_sender : ClientSender
alice_sender = record { sender = 100; span = 200 }

abbrev pub nobody : GatewayState assoc ℕ
nobody = new assoc ℕ_discrete

abbrev pub quiet : GatewayState assoc ℕ → GatewayState assoc ℕ
quiet gs = gs

abbrev pub handler : Handler assoc wire
handler = record {
  session = fresh;
  gateway = nobody;
  client_channel_tx = some 100;
  client_session_span = 200;
  pollers = [];
  ws_closes = [];
}

pub alice-Opens : Opens assoc ℕ_discrete wire sound fresh alice_calls alice 7
unfolding inspect_ic_ws_open_message
alice-Opens = record { fresh = refl; no_canister = refl; no_close = refl; valid = refl }

abbrev pub turn : Bytes → Turn assoc wire
turn m = record { update = client_update (ok m); meanwhile = quiet; between = quiet }

handle_turn_sets_up_example :
    let (h', handling) = handle_turn assoc ℕ_discrete wire sound handler (turn alice_calls) in
    let client : ClientSender = record { sender = 100; span = 200 } in
    (gs' : GatewayState assoc ℕ) × (handling ≡ continues)
    × (view assoc ℕ_discrete gs'
        ≡ put assoc ℕ_discrete (view assoc ℕ_discrete nobody) 7 alice client)
    × (h'.gateway ≡ gs')
    × (h'.session ≡ record (set_up assoc ℕ_discrete wire sound fresh alice_calls alice 7) {
      relayed = (7, alice_calls) ∷ [];
    })
    × (h'.pollers
        ≡ started_on assoc ℕ_discrete wire sound 7 (
            new_entry assoc ℕ_discrete wire sound
              (entry assoc ℕ_discrete nobody 7)
              (entry assoc ℕ_discrete gs' 7)))
handle_turn_sets_up_example =
    handle_turn_sets_up assoc ℕ_discrete wire sound handler alice_calls alice 7 100 alice_calls
      quiet quiet alice-Opens refl refl (new-IsWellFormed assoc ℕ_discrete)

handle_turn-GivesUp_example :
    let (h', handling) =
      handle_turn assoc ℕ_discrete wire sound handler
        (record { update = client_update (err []); meanwhile = quiet; between = quiet }) in
    (handling ≡ panicked "must be set during Setup") × (h'.gateway ≡ nobody) × (h'.ws_closes ≡ [])
handle_turn-GivesUp_example =
    handle_turn-GivesUp assoc ℕ_discrete wire sound handler (err []) quiet quiet refl refl tt

-- alice's session is set up, and canister 7 has her and nobody else.
abbrev pub with_alice : GatewayState assoc ℕ
with_alice =
    (insert_client_channel_and_get_new_poller_state assoc ℕ_discrete nobody 7 alice 100 200).0

pub with_alice_refines :
    (view assoc ℕ_discrete with_alice
      ≡ put assoc ℕ_discrete (view assoc ℕ_discrete nobody) 7 alice alice_sender)
    × IsWellFormed assoc ℕ_discrete with_alice
with_alice_refines =
    let r =
      insert_refines assoc ℕ_discrete nobody (new-IsWellFormed assoc ℕ_discrete) 7 alice 100 200 in
    (r.0, r.1)

with_alice_has_alice : clients_of (view assoc ℕ_discrete with_alice 7) alice ≡ some alice_sender
with_alice_has_alice =
    rw (with_alice_refines.0)
      (put_present assoc ℕ_discrete (view assoc ℕ_discrete nobody) 7 alice alice_sender)

abbrev pub opened_handler : Handler assoc wire
opened_handler = record handler {
  session = record fresh { session_state = opened; canister_id = some 7; client_key = some alice };
  gateway = with_alice;
  client_channel_tx = none;
}

handle_turn_closes_example :
    let (h', handling) = handle_turn assoc ℕ_discrete wire sound opened_handler (turn []) in
    (handling ≡ finished (ok tt))
    × (view assoc ℕ_discrete h'.gateway
        ≡ drop_client assoc ℕ_discrete (view assoc ℕ_discrete with_alice) 7 alice)
    × (h'.ws_closes ≡ (7, alice) ∷ [])
    × (h'.session.session_state ≡ closed)
handle_turn_closes_example =
    handle_turn_closes assoc ℕ_discrete wire sound opened_handler [] 7 alice alice_sender quiet
      quiet (inr refl) refl refl refl with_alice_refines.1 with_alice_has_alice

-- alice's connection breaks.
abbrev break : Turn assoc wire
break = record { update = client_update (err []); meanwhile = quiet; between = quiet }

break_fails :
    (try_update_state wire sound break.update opened_handler.session).1
    ≡ fails (web_socket "Error receiving message from client: ")
unfolding try_update_state handle_client_update check_client_update
break_fails = refl

break_keeps_keys :
    let s' = (try_update_state wire sound break.update opened_handler.session).0 in
    (s'.canister_id ≡ some 7) × (s'.client_key ≡ some alice)
unfolding try_update_state handle_client_update check_client_update
break_keeps_keys = (refl, refl)

handle_turn_fails_example :
    let d = view assoc ℕ_discrete with_alice in
    let e = web_socket "Error receiving message from client: " in
    let (h', handling) = handle_turn assoc ℕ_discrete wire sound opened_handler break in
    (view assoc ℕ_discrete h'.gateway ≡ (elim (clients_of (d 7) alice) [
      | none ↦ d
      | some _ ↦ drop_client assoc ℕ_discrete d 7 alice
    ]))
    × (handling ≡ (elim (clients_of (d 7) alice) [
      | none ↦ finished (err (before_setup e))
      | some _ ↦ finished (err (session_error e))
    ]))
    × (h'.ws_closes ≡ (elim (clients_of (d 7) alice) [ none ↦ [] | some _ ↦ (7, alice) ∷ [] ]))
handle_turn_fails_example =
    handle_turn_fails assoc ℕ_discrete wire sound opened_handler break
      (web_socket "Error receiving message from client: ") 7 alice break_fails refl
      break_keeps_keys.0 break_keeps_keys.1 with_alice_refines.1

-- A wire on which no envelope can be encoded.
abbrev mute : Wire ℕ
mute = record wire { encode_envelope = λ e. err [] }

abbrev mute_handler : Handler assoc mute
mute_handler = record {
  session = record {
    client_id = 0;
    client_key = none;
    canister_id = none;
    session_state = init;
    written = [];
    ws_closed = false;
    relayed = [];
    operations = 1;
  };
  gateway = nobody;
  client_channel_tx = some 100;
  client_session_span = 200;
  pollers = [];
  ws_closes = [];
}

mute_opening : Opens assoc ℕ_discrete mute sound mute_handler.session alice_calls alice 7
unfolding inspect_ic_ws_open_message
mute_opening = record { fresh = refl; no_canister = refl; no_close = refl; valid = refl }

nobody-entry : entry assoc ℕ_discrete nobody 7 ≡ none
unfolding new
nobody-entry = assoc.get-new ℕ_discrete 7

handle_turn_orphans_example :
    let t : Turn assoc mute = record {
      update = client_update (ok alice_calls);
      meanwhile = quiet;
      between = λ g. g;
    } in
    let (h', handling) = handle_turn assoc ℕ_discrete mute sound mute_handler t in
    (e : IcWsError) × (handling ≡ finished (err (not_relayed e)))
    × (h'.pollers ≡ [])
    × (view assoc ℕ_discrete h'.gateway 7 ≡ some (λ _. none))
    × ((j : ClientKey ℕ) (tx' span : ℕ)
        → (insert_client_channel_and_get_new_poller_state assoc ℕ_discrete h'.gateway 7 j tx'
            span).1
          ≡ none)
handle_turn_orphans_example =
    handle_turn_orphans assoc ℕ_discrete mute sound mute_handler alice_calls alice 7 100 quiet
      mute_opening refl refl (new-IsWellFormed assoc ℕ_discrete) nobody-entry
