-- ===== src/Channels/RivalTests.antt =====
-- Two sessions of alice at a concrete network: her second connection opens a session with canister 7
-- too.
use ic_websocket_gateway.Prelude.{◌≡◌, refl, none, some, ok, ℕ_discrete}
use ic_websocket_gateway.DashMap.Assoc.{assoc, lookup, erase}
use ic_websocket_gateway.State
use ic_websocket_gateway.State.{insert_client_channel_and_get_new_poller_state}
use ic_websocket_gateway.State.Senders.{sender_at}
use ic_websocket_gateway.Poller.{new}
use ic_websocket_gateway.Poller.Tests.{alice}
use ic_websocket_gateway.Session.Tests.{sound, alice_calls}
use ic_websocket_gateway.Session.{
  client_update, init_session, inspect_ic_ws_open_message, check_client_update,
  relay_client_message,
}
use ic_websocket_gateway.Session.Transitions.{try_update_state, handle_client_update}
use ic_websocket_gateway.Handler.{Handler, handle_turn, on_setup}
use ic_websocket_gateway.Handler.Setup.{Opens}
use ic_websocket_gateway.Gateway.{empty_gateway, spawn, step}
use ic_websocket_gateway.Gateway.Tests.{readable_wire}
use ic_websocket_gateway.Channels.{began, handled, Reaches, Hears, next, begins, IsClosed}
use ic_websocket_gateway.Channels.TakeOver.{second_session_takes_over}
use ic_websocket_gateway.Channels.Tests.{Net, empty, set_up, set_up-reached}

abbrev rivals : Net
rivals = began assoc ℕ_discrete readable_wire sound 1000 set_up 1 1 (ok 42) 201

free : set_up.gateway.handlers 1 ≡ none
unfolding empty_gateway spawn step handle_turn on_setup try_update_state handle_client_update
    init_session inspect_ic_ws_open_message check_client_update relay_client_message assoc lookup
    erase ℕ_discrete State.new insert_client_channel_and_get_new_poller_state new
free = refl

rivals-reached : Reaches assoc ℕ_discrete readable_wire sound 1000 empty rivals
rivals-reached = next set_up-reached (begins 1 1 (ok 42) 201 free)

first-live :
    (h : Handler assoc readable_wire) × (rivals.gateway.handlers 0 ≡ some h)
    × (h.client_channel_tx ≡ none)
    × (h.session.client_key ≡ some alice)
    × (h.session.canister_id ≡ some 7)
unfolding empty_gateway spawn step handle_turn on_setup try_update_state handle_client_update
    init_session inspect_ic_ws_open_message check_client_update relay_client_message assoc lookup
    erase ℕ_discrete State.new insert_client_channel_and_get_new_poller_state new
first-live = (_, refl, refl, refl, refl)

second-live :
    (g : Handler assoc readable_wire) × (rivals.gateway.handlers 1 ≡ some g)
    × Opens assoc ℕ_discrete readable_wire sound g.session alice_calls alice 7
    × (g.client_channel_tx ≡ some 1)
unfolding empty_gateway spawn step handle_turn on_setup try_update_state handle_client_update
    init_session inspect_ic_ws_open_message check_client_update relay_client_message assoc lookup
    erase ℕ_discrete State.new insert_client_channel_and_get_new_poller_state new
second-live =
    (_, refl, record { fresh = refl; no_canister = refl; no_close = refl; valid = refl }, refl)

second_session_takes_over_example :
    let o =
      handled assoc ℕ_discrete readable_wire sound 1000 rivals 1 (client_update (ok alice_calls)) in
    (sender_at assoc ℕ_discrete o.gateway.state 7 alice
      ≡ some (record { sender = o.receivers 1; span = second-live.0.client_session_span }))
    × (o.gateway.handlers 0 ≡ some first-live.0)
    × IsClosed assoc ℕ_discrete readable_wire sound 1000 o (o.receivers 0)
    × ((p : Net) × Hears assoc ℕ_discrete readable_wire sound 1000 0 o p
        × (p.gateway.handlers 0 ≡ none))
second_session_takes_over_example =
    second_session_takes_over assoc ℕ_discrete readable_wire sound 1000 rivals 0 1 first-live.0
      second-live.0 alice_calls alice 7 1 alice_calls rivals-reached first-live.1 first-live.2
      first-live.3 first-live.4 second-live.1 second-live.2 second-live.3 refl
