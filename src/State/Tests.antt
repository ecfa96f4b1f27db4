-- ===== src/State/Tests.antt =====
-- The theorems on the gateway state at concrete inputs: canister 7, first with the client alice and
-- then with bob too, in association lists.
use ic_websocket_gateway.Prelude.{
  ℕ, ◌+◌, ◌≤◌, ◌≡◌, ◌≢◌, ap, List, [], ◌∷◌, none, some, arith, ℕ_discrete,
}
use ic_websocket_gateway.DashMap.Assoc.{assoc}
use ic_websocket_gateway.CanisterUtils.{ClientKey}
use ic_websocket_gateway.State.{
  GatewayState, entry, new, insert_client_channel_and_get_new_poller_state,
}
use ic_websocket_gateway.State.View.{view, IsWellFormed, new-IsWellFormed}
use ic_websocket_gateway.State.Directory.{put}
use ic_websocket_gateway.State.Refinement.{insert_refines}
use ic_websocket_gateway.State.Pollers.{
  Call, insert_client, remove, remove_if_empty, run, starts, ends, occupied,
  one_poller_per_canister,
}

abbrev alice : ClientKey ℕ
alice = record { client_principal = 1; client_nonce = 10 }

abbrev bob : ClientKey ℕ
bob = record { client_principal = 2; client_nonce = 10 }

abbrev nobody : GatewayState assoc ℕ
nobody = new assoc ℕ_discrete

abbrev with_alice : GatewayState assoc ℕ
with_alice =
    (insert_client_channel_and_get_new_poller_state assoc ℕ_discrete nobody 7 alice 100 200).0

with_alice-IsWellFormed : IsWellFormed assoc ℕ_discrete with_alice
with_alice-IsWellFormed =
    (insert_refines assoc ℕ_discrete nobody (new-IsWellFormed assoc ℕ_discrete) 7 alice 100 200).1

insert_refines_example :
    let (gs', started) =
      insert_client_channel_and_get_new_poller_state assoc ℕ_discrete with_alice 7 bob 101 201 in
    (view assoc ℕ_discrete gs'
      ≡ put assoc ℕ_discrete
          (view assoc ℕ_discrete with_alice)
          7
          bob
          (record { sender = 101; span = 201 }))
    × IsWellFormed assoc ℕ_discrete gs'
    × (started ≡ (elim (entry assoc ℕ_discrete with_alice 7) [
      | none ↦ entry assoc ℕ_discrete gs' 7
      | some _ ↦ none
    ]))
insert_refines_example =
    insert_refines assoc ℕ_discrete with_alice with_alice-IsWellFormed 7 bob 101 201

-- alice comes and goes, the poller notices, and bob comes.
abbrev history : List (Call ℕ)
history =
    insert_client 7 alice 100 200
    ∷ remove 7 alice
    ∷ remove_if_empty 7
    ∷ insert_client 7 bob 101 201
    ∷ []

one_poller_per_canister_example :
    let (gs, events) = run assoc ℕ_discrete (new assoc ℕ_discrete) history in
    (starts assoc ℕ_discrete 7 events
      ≡ ends assoc ℕ_discrete 7 events + occupied assoc ℕ_discrete gs 7)
    × (starts assoc ℕ_discrete 7 events ≤ ends assoc ℕ_discrete 7 events + 1)
one_poller_per_canister_example = one_poller_per_canister assoc ℕ_discrete history 7

two_is_not_one : ◌≢◌ {A = ℕ} 2 1
two_is_not_one e = omega arith

bob_is_not_alice : bob ≢ alice
bob_is_not_alice e = two_is_not_one (ap (λ (k : ClientKey ℕ). k.client_principal) e)
