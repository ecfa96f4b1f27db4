-- ===== src/Poller/QueueTests.antt =====
-- The theorems on a poller and a queue at a concrete run: the queue has a message for alice at each
-- nonce, canister 7 gives two messages from nonce 5 on, and then an iteration times out.
use ic_websocket_gateway.Prelude.{
  ℕ, ◌+◌, ◌<◌, ◌≡◌, refl, true, [], List, ◌∷◌, map, All, ok, arith, ℕ_discrete,
}
use ic_websocket_gateway.DashMap.Assoc.{assoc, lookup, erase}
use ic_websocket_gateway.CanisterUtils.{Bytes}
use ic_websocket_gateway.CanisterUtils.Calls.{ws_get_messages}
use ic_websocket_gateway.Poller.Nonce.{get_nonce-message_key, u64_mod}
use ic_websocket_gateway.Poller.Relay.{messages_for, relayed_to}
use ic_websocket_gateway.Poller.Queue.{slice, Keyed, from, asked, sent}
use ic_websocket_gateway.Poller.Served.{answers, times_out}
use ic_websocket_gateway.Poller.Delivery.{Occupied, IsServed, messages_served, run_polling_delivers}
use ic_websocket_gateway.Poller.Tests.{
  alice, alice_sender, gw, message, batch, answering, round, with_alice, with_alice-entry,
}
use ic_websocket_gateway.Poller.{Round}
use ic_websocket_gateway.Poller.Loop.{polling, run_polling}
use ic_websocket_gateway.Poller.Log.{start_run}

abbrev nonce_in : Bytes → ℕ
nonce_in [] = 0
nonce_in (n ∷ _) = n

-- The canister gives two messages of its queue, from the asked nonce on.
abbrev serving : Round assoc ℕ
serving = record round {
  api = record answering {
    decode_messages = λ res.
        ok (ok (record batch { messages = slice message (from message 5 (nonce_in res)) 2 }));
  };
}

abbrev late : Round assoc ℕ
late = record round { times_out = true }

abbrev pub rounds : List (ℕ × Round assoc ℕ)
rounds = (2, serving) ∷ (0, late) ∷ []

pub message-Keyed : Keyed message
message-Keyed n small = get_nonce-message_key gw n small

pub with_alice-Occupied : Occupied assoc ℕ_discrete 7 0 with_alice
unfolding assoc lookup erase
with_alice-Occupied = (with_alice-entry, λ e. ground arith)

pub rounds-IsServed : All (IsServed assoc ℕ_discrete message 5 alice alice_sender 7 0) rounds
unfolding ws_get_messages
rounds-IsServed = (
  (answers 2 refl (λ c next low. (_, refl, refl)), (λ i. refl), λ gs o. o),
  ((times_out refl, (λ i. refl), λ gs o. o), tt),
)

pub two_served :
    5 + messages_served assoc ℕ_discrete message 5 alice alice_sender 7 0 rounds < u64_mod
unfolding messages_served
two_served = omega arith

run_polling_delivers_example :
    let run =
      run_polling assoc ℕ_discrete
        (start_run assoc ℕ_discrete with_alice 7 0 100)
        (map (λ x. x.1) rounds) in
    (run.progress ≡ polling)
    × (map (sent ℕ_discrete alice) (relayed_to ℕ_discrete alice run.relayed)
        ≡ map (asked ℕ_discrete alice alice_sender) (
            messages_for ℕ_discrete alice (
              slice message 5
                (messages_served assoc ℕ_discrete message 5 alice alice_sender 7 0 rounds))))
run_polling_delivers_example =
    run_polling_delivers assoc ℕ_discrete message 5 alice alice_sender 7 0 with_alice 100 rounds
      message-Keyed two_served with_alice-Occupied rounds-IsServed
