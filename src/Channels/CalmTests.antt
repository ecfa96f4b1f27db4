-- ===== src/Channels/CalmTests.antt =====
-- Alice's channel at a concrete network: its poller has put two messages into it, and her handler
-- takes the first.
use ic_websocket_gateway.Prelude.{ℕ, ◌≡◌, ◌≢◌, ◌⊎◌, refl, ap, ◌∙◌, [], ◌∷◌, map, some, ℕ_discrete}
use ic_websocket_gateway.DashMap.Assoc.{assoc}
use ic_websocket_gateway.CanisterUtils.{ClientKey-discrete, CanisterOutputMessage}
use ic_websocket_gateway.Poller.Relay.{messages_for, relayed_by}
use ic_websocket_gateway.Poller.Tests.{alice, message, batch, round}
use ic_websocket_gateway.Session.Tests.{sound}
use ic_websocket_gateway.Session.{canister_update}
use ic_websocket_gateway.Handler.{panicked, handle_turn}
use ic_websocket_gateway.Gateway.{enter, on_its_own}
use ic_websocket_gateway.Gateway.Tests.{readable_wire}
use ic_websocket_gateway.Channels.{Post, next, iterates}
use ic_websocket_gateway.Channels.Order.{iteration_fills_channel}
use ic_websocket_gateway.State.Senders.{sender_at}
use ic_websocket_gateway.Channels.Staying.{PollerFails, SessionActs, client_stays_connected}
use ic_websocket_gateway.Channels.Calm.{channel_never_panics}
use ic_websocket_gateway.Channels.Tests.{
  set_up, set_up-reached, run, run-live, the_handler, handler-live, held_sender, held, round-polled,
  round-fine, delivered, delivered-live,
}

abbrev waiting : CanisterOutputMessage ℕ → Post ℕ
waiting m = (run.poller.canister_id, relayed_by ℕ_discrete alice held_sender batch m)

both_for_alice : messages_for ℕ_discrete alice batch.messages ≡ message 5 ∷ message 6 ∷ []
unfolding messages_for ClientKey-discrete ℕ_discrete
both_for_alice = refl

two_waiting :
    delivered.channels (delivered.receivers 0) ≡ waiting (message 5) ∷ waiting (message 6) ∷ []
two_waiting =
    iteration_fills_channel assoc ℕ_discrete readable_wire sound 1000 set_up 0 0 the_handler run
      round alice held_sender batch set_up-reached handler-live.1 run-live handler-live.4 held refl
      round-polled round-fine
    ∙ ap (map waiting) both_for_alice

channel_never_panics_example :
    (handle_turn assoc ℕ_discrete readable_wire sound
      (enter assoc ℕ_discrete readable_wire sound 1000 delivered.gateway the_handler)
      (on_its_own assoc ℕ_discrete readable_wire sound 1000
        (canister_update (some (waiting (message 5)).1.message)))).1
    ≢ panicked "Canister shall not send messages while in Init state"
channel_never_panics_example =
    channel_never_panics assoc ℕ_discrete readable_wire sound 1000 delivered 0 the_handler
      (waiting (message 5)) (waiting (message 6) ∷ [])
      "Canister shall not send messages while in Init state"
      (next set_up-reached (iterates 0 run round run-live)) delivered-live two_waiting

client_stays_connected_example :
    (sender_at assoc ℕ_discrete delivered.gateway.state run.poller.canister_id alice
      ≡ some held_sender)
    ⊎ PollerFails assoc ℕ_discrete readable_wire sound 1000 set_up delivered run.poller.canister_id
    ⊎ SessionActs assoc ℕ_discrete readable_wire sound 1000 set_up delivered run.poller.canister_id
        alice
client_stays_connected_example =
    client_stays_connected assoc ℕ_discrete readable_wire sound 1000 set_up delivered
      run.poller.canister_id alice held_sender set_up-reached (iterates 0 run round run-live) held
