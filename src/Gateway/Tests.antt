-- ===== src/Gateway/Tests.antt =====
-- The theorems on the gateway at concrete inputs, on the wire of the session's tests: alice opens
-- sessions with canister 7 and with canister 8, and canister 7 has a queue for her.
use ic_websocket_gateway.Prelude.{
  ℕ, zero, suc, false, ◌≡◌, ◌≢◌, ◌↔◌, ◌++◌, refl, ap, inr, List, [], ◌∷◌, Option, none, some, ok,
  map, length, ℕ_discrete,
}
use ic_websocket_gateway.DashMap.Assoc.{assoc, lookup, erase}
use ic_websocket_gateway.CanisterUtils.{Bytes, CanisterOutputMessage}
use ic_websocket_gateway.State
use ic_websocket_gateway.State.{
  GatewayState, PollerState, entry, insert_client_channel_and_get_new_poller_state,
}
use ic_websocket_gateway.Poller.{new, Relayed}
use ic_websocket_gateway.Poller.Loop.{Run, polling, panicked, run_polling}
use ic_websocket_gateway.Poller.Log.{start_run}
use ic_websocket_gateway.Poller.Relay.{messages_for, relayed_to}
use ic_websocket_gateway.Poller.Queue.{slice}
use ic_websocket_gateway.Poller.Delivery.{messages_served}
use ic_websocket_gateway.Poller.Tests.{alice, alice_sender, message, quiet, with_alice}
use ic_websocket_gateway.Poller.QueueTests.{
  rounds, message-Keyed, two_served, with_alice-Occupied, rounds-IsServed,
}
use ic_websocket_gateway.Session.External.{Wire}
use ic_websocket_gateway.Session.Tests.{wire, sound, alice_calls}
use ic_websocket_gateway.Session.{
  ClientSession, opened, client_update, canister_update, init_session, inspect_ic_ws_open_message,
  check_client_update, relay_client_message,
}
use ic_websocket_gateway.Session.Transitions.{try_update_state, handle_client_update}
use ic_websocket_gateway.Session.Delivery.{run_updates}
use ic_websocket_gateway.Handler.{handle_turn, on_setup}
use ic_websocket_gateway.Gateway.EndToEnd.{Readable, queue_reaches_client}
use ic_websocket_gateway.Gateway.Reachable.{pollers_are_consistent}
use ic_websocket_gateway.Gateway.Polled.{every_canister_is_polled}
use ic_websocket_gateway.Gateway.{
  Gateway, Event, begin, handle, empty_gateway, spawn, step, steps, poll_alone,
}

abbrev events : List (Event assoc wire)
events = begin 0 0 (ok 42) 100 200 ∷ handle 0 (client_update (ok alice_calls)) ∷ []

abbrev gateway : Gateway assoc wire
gateway =
    steps assoc ℕ_discrete wire sound 1000 (empty_gateway assoc ℕ_discrete wire sound 1000) events

entry-7 : entry assoc ℕ_discrete gateway.state 7 ≡ some 0
unfolding empty_gateway spawn step steps handle_turn on_setup try_update_state handle_client_update
    init_session inspect_ic_ws_open_message check_client_update relay_client_message assoc lookup
    erase ℕ_discrete State.new insert_client_channel_and_get_new_poller_state
entry-7 = refl

every_canister_is_polled_example :
    (j : ℕ) × (run : Run assoc ℕ) × (gateway.pollers j ≡ some run)
    × (run.progress ≡ polling)
    × (run.poller.canister_id ≡ 7)
    × (run.poller.poller_state ≡ 0)
every_canister_is_polled_example =
    every_canister_is_polled assoc ℕ_discrete wire sound 1000 events 7 0 (λ e. (e, refl)) entry-7

-- One connection more, with canister 8.
abbrev more_events : List (Event assoc wire)
more_events =
    begin 0 0 (ok 42) 100 200
    ∷ handle 0 (client_update (ok alice_calls))
    ∷ begin 1 1 (ok 42) 101 201
    ∷ handle 1 (client_update (ok (8 ∷ 1 ∷ 10 ∷ [])))
    ∷ []

abbrev two_pollers : Gateway assoc wire
two_pollers =
    steps assoc ℕ_discrete wire sound 1000 (empty_gateway assoc ℕ_discrete wire sound 1000)
      more_events

abbrev first_run : Run assoc ℕ
first_run = start_run assoc ℕ_discrete gateway.state 7 0 1000

abbrev second_run : Run assoc ℕ
second_run = start_run assoc ℕ_discrete two_pollers.state 8 1 1000

first_run-live : two_pollers.pollers 0 ≡ some first_run
unfolding empty_gateway spawn step steps handle_turn on_setup try_update_state handle_client_update
    init_session inspect_ic_ws_open_message check_client_update relay_client_message assoc lookup
    erase ℕ_discrete State.new insert_client_channel_and_get_new_poller_state new
first_run-live = refl

second_run-live : two_pollers.pollers 1 ≡ some second_run
unfolding empty_gateway spawn step steps handle_turn on_setup try_update_state handle_client_update
    init_session inspect_ic_ws_open_message check_client_update relay_client_message assoc lookup
    erase ℕ_discrete State.new insert_client_channel_and_get_new_poller_state new
second_run-live = refl

pollers_are_consistent_example :
    (entry assoc ℕ_discrete two_pollers.state first_run.poller.canister_id
      ≡ some first_run.poller.poller_state)
    × ((first_run.poller.canister_id ≡ second_run.poller.canister_id) ↔ (◌≡◌ {A = ℕ} 0 1))
    × ((poll_alone assoc ℕ_discrete wire sound 1000 two_pollers first_run quiet).progress
        ≢ panicked)
pollers_are_consistent_example =
    pollers_are_consistent assoc ℕ_discrete wire sound 1000 more_events 0 1 first_run second_run
      quiet first_run-live second_run-live

-- A wire on which clients can read messages: the length of the key goes before it.
abbrev pub readable_wire : Wire ℕ
readable_wire = record wire { to_vec = λ m. ok (length m.key ∷ m.key ++ m.content) }

abbrev split_at : ℕ → Bytes → Bytes × Bytes
split_at zero bs = ([], bs)
split_at (suc n) [] = ([], [])
split_at (suc n) (b ∷ bs) = let (l, r) = split_at n bs in (b ∷ l, r)

split_at-length : (l r : Bytes) → split_at (length l) (l ++ r) ≡ (l, r)
split_at-length [] r = refl
split_at-length (b ∷ l) r = rw (split_at-length l r) refl

abbrev pub decode : Bytes → Option (Bytes × Bytes)
decode [] = none
decode (n ∷ bs) = some (split_at n bs)

pub readable : Readable readable_wire sound decode
readable m = (_, refl, ap some (split_at-length m.key m.content))

abbrev open_session : ClientSession readable_wire
open_session = record {
  client_id = 0;
  client_key = some alice;
  canister_id = some 7;
  session_state = opened;
  written = [];
  ws_closed = false;
  relayed = [];
  operations = 1;
}

queue_reaches_client_example :
    let run =
      run_polling assoc ℕ_discrete
        (start_run assoc ℕ_discrete with_alice 7 0 100)
        (map (λ x. x.1) rounds) in
    let channel = map (λ (r : Relayed ℕ). r.message) (relayed_to ℕ_discrete alice run.relayed) in
    (run.progress ≡ polling)
    × (w : List Bytes) × ((run_updates readable_wire sound open_session
          (map (λ m. canister_update (some m)) channel)).written
        ≡ [] ++ w)
    × (map decode w
        ≡ map
            (λ (m : CanisterOutputMessage ℕ). some (m.key, m.content))
            (messages_for ℕ_discrete alice (
              slice message 5
                (messages_served assoc ℕ_discrete message 5 alice alice_sender 7 0 rounds))))
queue_reaches_client_example =
    queue_reaches_client readable_wire sound decode assoc ℕ_discrete message 5 alice alice_sender 7
      0 with_alice 100 rounds open_session message-Keyed two_served with_alice-Occupied
      rounds-IsServed readable (λ n. refl) (inr refl)
