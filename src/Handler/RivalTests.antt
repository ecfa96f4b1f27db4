-- ===== src/Handler/RivalTests.antt =====
-- The theorems on sessions that close without their client in the gateway state, at concrete inputs:
-- alice connects twice to canister 7, or after bob, whose poller has failed.
use ic_websocket_gateway.Prelude.{ℕ, ◌≡◌, ◌≢◌, refl, ap, inr, [], some, arith, ok, ℕ_discrete, done}
use ic_websocket_gateway.DashMap.Assoc.{assoc}
use ic_websocket_gateway.CanisterUtils.{ClientKey}
use ic_websocket_gateway.State.{
  GatewayState, new, insert_client_channel_and_get_new_poller_state, remove_failed_canister,
}
use ic_websocket_gateway.State.View.{IsWellFormed, new-IsWellFormed}
use ic_websocket_gateway.State.Refinement.{insert_refines}
use ic_websocket_gateway.Session.Tests.{wire, sound, alice_calls}
use ic_websocket_gateway.Handler.Tests.{
  alice, nobody, handler, opened_handler, with_alice, with_alice_refines, alice-Opens,
}
use ic_websocket_gateway.Handler.Rivals.{hears, Serves, Opening, rival_closes, stale_closes}
use ic_websocket_gateway.Handler.{Handler, finished, panicked}

alice_is_served : Serves assoc ℕ_discrete wire sound opened_handler 7 alice
alice_is_served = record { live = inr refl; canister = refl; key = refl }

alice_opens : Opening assoc ℕ_discrete wire sound handler alice_calls alice 7
alice_opens = record {
  tx = 100;
  bytes = alice_calls;
  opens = alice-Opens;
  channel = refl;
  encodes = refl;
}

rival_closes_example :
    let (g', _) = hears assoc ℕ_discrete wire sound with_alice handler alice_calls in
    let (h', handling) = hears assoc ℕ_discrete wire sound g'.gateway opened_handler [] in
    (handling ≡ finished (ok tt))
    × ((hears assoc ℕ_discrete wire sound h'.gateway g' []).1
        ≡ panicked "Client key not found in poller state")
rival_closes_example =
    rival_closes assoc ℕ_discrete wire sound with_alice opened_handler handler alice_calls [] []
      alice 7 with_alice_refines.1 alice_is_served alice_opens refl refl

abbrev bob : ClientKey ℕ
bob = record { client_principal = 2; client_nonce = 10 }

abbrev bob_handler : Handler assoc wire
bob_handler = record opened_handler {
  session = record opened_handler.session { client_key = some bob };
}

abbrev with_bob : GatewayState assoc ℕ
with_bob = (insert_client_channel_and_get_new_poller_state assoc ℕ_discrete nobody 7 bob 101 201).0

-- The poller of canister 7 has failed.
abbrev after_failure : GatewayState assoc ℕ
after_failure = record with_bob { inner_data = assoc.remove ℕ_discrete 7 with_bob.inner_data }

seven_fails : remove_failed_canister assoc ℕ_discrete with_bob 7 ≡ done after_failure
unfolding remove_failed_canister insert_client_channel_and_get_new_poller_state new
seven_fails = ground (
  arith,
  assoc.get-new {V = ℕ} ℕ_discrete 7,
  assoc.get-insert {V = ℕ} ℕ_discrete 7 0 (assoc.new ℕ_discrete) 7,
)

two_is_not_one : ◌≢◌ {A = ℕ} 2 1
two_is_not_one e = omega arith

bob_is_not_alice : bob ≢ alice
bob_is_not_alice e = two_is_not_one (ap (λ (k : ClientKey ℕ). k.client_principal) e)

with_bob-IsWellFormed : IsWellFormed assoc ℕ_discrete with_bob
with_bob-IsWellFormed =
    (insert_refines assoc ℕ_discrete nobody (new-IsWellFormed assoc ℕ_discrete) 7 bob 101 201).1

stale_closes_example :
    let (g', _) = hears assoc ℕ_discrete wire sound after_failure handler alice_calls in
    (hears assoc ℕ_discrete wire sound g'.gateway bob_handler []).1
    ≡ panicked "Client key not found in poller state"
stale_closes_example =
    stale_closes assoc ℕ_discrete wire sound with_bob after_failure bob_handler handler alice_calls
      [] bob alice 7 with_bob-IsWellFormed bob_is_not_alice seven_fails
      (record { live = inr refl; canister = refl; key = refl }) alice_opens refl
