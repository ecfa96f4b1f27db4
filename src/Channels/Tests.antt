-- ===== src/Channels/Tests.antt =====
-- The theorems on channels at a concrete network: alice opens a session with canister 7, whose
-- poller then gets a message for her, and after that fails.
use ic_websocket_gateway.Prelude.{
  ℕ, inl, List, ◌≡◌, ◌↔◌, refl, [], ◌∷◌, ◌++◌, none, some, ok, err, map, All, ℕ_discrete, ap, ◌∙◌,
  arith,
}
use ic_websocket_gateway.DashMap.Assoc.{assoc, lookup, erase}
use ic_websocket_gateway.CanisterUtils.{Bytes, ClientKey-discrete, CanisterOutputMessage}
use ic_websocket_gateway.CanisterUtils.Calls.{ws_get_messages}
use ic_websocket_gateway.State
use ic_websocket_gateway.State.{ClientSender, insert_client_channel_and_get_new_poller_state}
use ic_websocket_gateway.State.Senders.{sender_at}
use ic_websocket_gateway.Poller.{
  Round, new, poll_canister, poll_and_relay, polled, relay_batch, update_nonce, messages_polled,
  unrecoverable_candid,
}
use ic_websocket_gateway.Poller.Loop.{Run}
use ic_websocket_gateway.Poller.Log.{start_run}
use ic_websocket_gateway.Poller.Relay.{messages_for, relayed_by}
use ic_websocket_gateway.Poller.Tests.{alice, batch, answering, round, reads_5, reads_6}
use ic_websocket_gateway.Session.Tests.{sound, alice_calls}
use ic_websocket_gateway.Session.{
  client_update, init_session, inspect_ic_ws_open_message, check_client_update,
  relay_client_message,
}
use ic_websocket_gateway.Session.Delivery.{IsLive}
use ic_websocket_gateway.Session.Transitions.{try_update_state, handle_client_update}
use ic_websocket_gateway.Handler.{Handler, handle_turn, on_setup}
use ic_websocket_gateway.Gateway.{empty_gateway, spawn, step}
use ic_websocket_gateway.Gateway.EndToEnd.{content_of}
use ic_websocket_gateway.Gateway.Tests.{readable_wire, decode, readable}
use ic_websocket_gateway.Channels.{
  Post, Network, new_network, began, handled, iterated, seeing, Reaches, Hears, here, next, begins,
  from_client, iterates, IsClosed,
}
use ic_websocket_gateway.Channels.Moves.{poll_rest}
use ic_websocket_gateway.Channels.Reachable.{messages_reach_their_client}
use ic_websocket_gateway.Channels.HangUp.{failed_poller_ends_sessions}
use ic_websocket_gateway.Channels.Delivery.{iteration_delivers}
use ic_websocket_gateway.Channels.Order.{iteration_fills_channel}

abbrev pub Net : Type 0
Net = Network assoc readable_wire

abbrev pub empty : Net
empty = new_network assoc ℕ_discrete readable_wire sound 1000

abbrev connected : Net
connected = began assoc ℕ_discrete readable_wire sound 1000 empty 0 0 (ok 42) 200

abbrev pub set_up : Net
set_up =
    handled assoc ℕ_discrete readable_wire sound 1000 connected 0 (client_update (ok alice_calls))

abbrev pub run : Run assoc ℕ
run = start_run assoc ℕ_discrete set_up.gateway.state 7 0 1000

pub run-live : set_up.gateway.pollers 0 ≡ some run
unfolding empty_gateway spawn step handle_turn on_setup try_update_state handle_client_update
    init_session inspect_ic_ws_open_message check_client_update relay_client_message assoc lookup
    erase ℕ_discrete State.new insert_client_channel_and_get_new_poller_state new
run-live = refl

pub handler-live :
    (h : Handler assoc readable_wire) × (set_up.gateway.handlers 0 ≡ some h)
    × (h.client_channel_tx ≡ none)
    × (h.session.canister_id ≡ some run.poller.canister_id)
    × (h.session.client_key ≡ some alice)
unfolding empty_gateway spawn step handle_turn on_setup try_update_state handle_client_update
    init_session inspect_ic_ws_open_message check_client_update relay_client_message assoc lookup
    erase ℕ_discrete State.new insert_client_channel_and_get_new_poller_state new
handler-live = (_, refl, refl, refl, refl)

connected-live : (h : Handler assoc readable_wire) × (connected.gateway.handlers 0 ≡ some h)
unfolding empty_gateway spawn step init_session
connected-live = (_, refl)

connected-free : empty.gateway.handlers 0 ≡ none
unfolding empty_gateway
connected-free = refl

pub set_up-reached : Reaches assoc ℕ_discrete readable_wire sound 1000 empty set_up
set_up-reached =
    next (next here (begins 0 0 (ok 42) 200 connected-free))
      (from_client 0 connected-live.0 (ok alice_calls) connected-live.1)

-- The poller gets a batch with two messages for alice.
abbrev pub delivered : Net
delivered = iterated assoc ℕ_discrete readable_wire sound 1000 set_up 0 run round

abbrev pub the_handler : Handler assoc readable_wire
the_handler = handler-live.0

pub delivered-live : delivered.gateway.handlers 0 ≡ some the_handler
delivered-live =
    ap (λ hs. hs 0)
      (poll_rest assoc ℕ_discrete readable_wire sound 1000 set_up.gateway 0 run
        (seeing assoc ℕ_discrete readable_wire sound 1000 set_up run round) run-live).1
    ∙ handler-live.1

messages_reach_their_client_example :
    All
      (λ (post : Post ℕ).
        (the_handler.session.client_key ≡ some post.1.client_key)
        × (the_handler.session.canister_id ≡ some post.0))
      (delivered.channels (delivered.receivers 0))
    × ((delivered.receivers 0 ≡ delivered.receivers 0) ↔ (◌≡◌ {A = ℕ} 0 0))
messages_reach_their_client_example =
    messages_reach_their_client assoc ℕ_discrete readable_wire sound 1000 delivered 0 0 the_handler
      the_handler (next set_up-reached (iterates 0 run round run-live)) delivered-live
      delivered-live

pub round-polled : poll_canister run.poller round ≡ ok (messages_polled batch)
unfolding poll_canister polled ws_get_messages new
round-polled = refl

pub round-fine : (poll_and_relay run.poller round).result ≡ ok tt
unfolding poll_and_relay relay_batch update_nonce new
round-fine = ground (arith, reads_5, reads_6, round-polled)

abbrev pub held_sender : ClientSender
held_sender = record { sender = 0; span = 200 }

pub held :
    sender_at assoc ℕ_discrete set_up.gateway.state run.poller.canister_id alice ≡ some held_sender
unfolding empty_gateway spawn step handle_turn on_setup try_update_state handle_client_update
    init_session inspect_ic_ws_open_message check_client_update relay_client_message assoc lookup
    erase ℕ_discrete State.new insert_client_channel_and_get_new_poller_state new ClientKey-discrete
held = refl

iteration_fills_channel_example :
    delivered.channels (set_up.receivers 0)
    ≡ set_up.channels (set_up.receivers 0)
      ++ map
          (λ (m : CanisterOutputMessage ℕ).
            (run.poller.canister_id, relayed_by ℕ_discrete alice held_sender batch m))
          (messages_for ℕ_discrete alice batch.messages)
iteration_fills_channel_example =
    iteration_fills_channel assoc ℕ_discrete readable_wire sound 1000 set_up 0 0 the_handler run
      round alice held_sender batch set_up-reached handler-live.1 run-live handler-live.4 held refl
      round-polled round-fine

is_set_up : IsLive readable_wire sound the_handler.session.session_state
unfolding empty_gateway spawn step handle_turn on_setup try_update_state handle_client_update
    init_session inspect_ic_ws_open_message check_client_update relay_client_message assoc lookup
    erase ℕ_discrete State.new insert_client_channel_and_get_new_poller_state new handler-live
is_set_up = inl (_, refl)

iteration_delivers_example :
    (o : Net) × (h' : Handler assoc readable_wire) × (w : List Bytes) × Reaches assoc ℕ_discrete
      readable_wire sound 1000 delivered o
    × (o.gateway.handlers 0 ≡ some h')
    × (o.channels (o.receivers 0) ≡ [])
    × (h'.session.written ≡ the_handler.session.written ++ w)
    × (map decode w
        ≡ map
            (λ (post : Post ℕ). content_of readable_wire sound decode post.1.message.0)
            (set_up.channels (set_up.receivers 0))
          ++ map
              (λ (m : CanisterOutputMessage ℕ). some (m.key, m.content))
              (messages_for ℕ_discrete alice batch.messages))
iteration_delivers_example =
    iteration_delivers assoc ℕ_discrete readable_wire sound 1000 decode readable (λ n. refl) set_up
      0 0 the_handler run round alice held_sender batch set_up-reached handler-live.1 run-live
      handler-live.4 held refl round-polled round-fine is_set_up

-- The poller gets an answer that it cannot decode.
abbrev unreadable : Round assoc ℕ
unreadable = record round { api = record answering { decode_messages = λ res. err res } }

unreadable_fails :
    (poll_and_relay run.poller unreadable).result ≡ err (unrecoverable_candid (0 ∷ []))
unfolding poll_and_relay poll_canister polled ws_get_messages new
unreadable_fails = refl

abbrev failed : Net
failed = iterated assoc ℕ_discrete readable_wire sound 1000 set_up 0 run unreadable

failed-live : failed.gateway.handlers 0 ≡ some the_handler
failed-live =
    ap (λ hs. hs 0)
      (poll_rest assoc ℕ_discrete readable_wire sound 1000 set_up.gateway 0 run
        (seeing assoc ℕ_discrete readable_wire sound 1000 set_up run unreadable) run-live).1
    ∙ handler-live.1

failed_poller_ends_sessions_example :
    IsClosed assoc ℕ_discrete readable_wire sound 1000 failed (failed.receivers 0)
    × ((o : Net) × Hears assoc ℕ_discrete readable_wire sound 1000 0 failed o
        × (o.gateway.handlers 0 ≡ none))
failed_poller_ends_sessions_example =
    failed_poller_ends_sessions assoc ℕ_discrete readable_wire sound 1000 set_up failed 0 0 run
      unreadable (unrecoverable_candid (0 ∷ [])) the_handler the_handler set_up-reached run-live
      unreadable_fails handler-live.1 handler-live.2 handler-live.3 here failed-live refl
