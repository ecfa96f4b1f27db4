-- ===== src/Poller/Tests.antt =====
-- The theorems on the poller at concrete inputs: canister 7, whose poller state at address 0 has the
-- client alice, and whose messages have keys like "gw_5".
use ic_websocket_gateway.Prelude.{
  ℕ, ◌+◌, ◌*◌, ◌^◌, ◌≤◌, ◌<◌, ◌≡◌, ◌↔◌, ◌⊎◌, refl, false, [], ◌∷◌, Option, none, some, arith,
  ℕ_discrete, ok, err, length, ◌==◌, if◌then◌else◌, subst, ◌∙◌, if_pos,
}
use ic_websocket_gateway.DashMap.Assoc.{assoc}
use ic_websocket_gateway.CanisterUtils.{
  Bytes, ClientKey, CanisterOutputMessage, CanisterOutputCertifiedMessages,
}
use ic_websocket_gateway.CanisterUtils.Calls.{CanisterApi, ws_get_messages}
use ic_websocket_gateway.State.{GatewayState, ClientSender, entry, key_dec, clients_len}
use ic_websocket_gateway.Poller.Nonce.{
  get_nonce_from_message, get_nonce-message_key, get_nonce_total, message_key, u64_mod,
  could_not_parse, ParseIntError,
}
use ic_websocket_gateway.Poller.Batch.{Carries, IsBelowLast, update_nonce_accepts}
use ic_websocket_gateway.Poller.Status.{poll_and_relay_waits}
use ic_websocket_gateway.Poller.Whole.{Whole}
use ic_websocket_gateway.Poller.Lifecycle.{Rising, IsUnwrapped, run_polling-Rising}
use ic_websocket_gateway.Poller.Log.{start_run}
use ic_websocket_gateway.Poller.Termination.{entry_while, run_round_ends}
use ic_websocket_gateway.Poller.{
  CanisterPoller, Round, update_nonce, poll_and_relay, poll_canister, polled,
  compute_effective_polling_interval,
}
use ic_websocket_gateway.Poller.Loop.{Run, run_round, run_polling, returned, polling}

abbrev pub alice : ClientKey ℕ
alice = record { client_principal = 1; client_nonce = 10 }

abbrev bob : ClientKey ℕ
bob = record { client_principal = 2; client_nonce = 10 }

-- "gw"
abbrev pub gw : Bytes
gw = 103 ∷ 119 ∷ []

get_nonce-message_key_example : get_nonce_from_message (message_key gw 5) ≡ ok 5
get_nonce-message_key_example = get_nonce-message_key gw 5 (omega arith)

get_nonce_total_example :
    ((n : ℕ) × (get_nonce_from_message gw ≡ ok n) × (n < u64_mod))
    ⊎ ((e : ParseIntError) × (get_nonce_from_message gw ≡ err (could_not_parse e)))
get_nonce_total_example = get_nonce_total gw

abbrev pub message : ℕ → CanisterOutputMessage ℕ
message nonce = record { client_key = alice; key = message_key gw nonce; content = nonce ∷ [] }

pub reads_5 : get_nonce_from_message (message 5).key ≡ ok 5
reads_5 = get_nonce-message_key gw 5 (omega arith)

pub reads_6 : get_nonce_from_message (message 6).key ≡ ok 6
reads_6 = get_nonce-message_key gw 6 (omega arith)

abbrev pub batch : CanisterOutputCertifiedMessages ℕ
batch = record {
  messages = message 5 ∷ message 6 ∷ [];
  cert = 1 ∷ [];
  tree = 2 ∷ [];
  is_end_of_queue = none;
}

batch-IsBelowLast : IsBelowLast batch.messages
batch-IsBelowLast = ((λ e. ground (arith, reads_5)), ((λ e. ground (arith, reads_6)), tt))

update_nonce_accepts_example : (update_nonce 0 batch.messages ≡ (7, ok tt)) ↔ (
    (first : ℕ) × (◌≡◌ {A = ℕ} 0 0 ⊎ (0 ≡ first))
    × Carries batch.messages first
    × (7 ≡ first + length batch.messages))
update_nonce_accepts_example =
    update_nonce_accepts 0 7 (message 5) (message 6 ∷ []) batch-IsBelowLast

abbrev pub alice_sender : ClientSender
alice_sender = record { sender = 100; span = 200 }

abbrev pub only_alice : ClientKey ℕ → Option ClientSender
only_alice k = if k.client_principal == 1 then some alice_sender else none

-- The canister answers with the batch.
abbrev pub answering : CanisterApi ℕ
answering = record {
  encode_nonce = λ n. ok (n ∷ []);
  encode_client_key = λ k. ok [];
  query = λ c m args. ok args;
  call_and_wait = λ c m args. ok args;
  decode_messages = λ res. ok (ok batch);
  decode_closed = λ res. ok (ok tt);
}

abbrev pub round : Round assoc ℕ
round = record {
  times_out = false;
  api = answering;
  client_at = λ i. only_alice;
  elapsed = 30;
  others = λ gs. gs;
}

abbrev poller : CanisterPoller ℕ
poller = record {
  canister_id = 7;
  poller_state = 0;
  next_message_nonce = 0;
  polling_iteration = 0;
  polling_interval_ms = 100;
}

-- A round in which the canister has nothing new.
abbrev pub quiet : Round assoc ℕ
quiet = record round {
  api = record answering { decode_messages = λ res. ok (ok (record batch { messages = [] })) };
}

quiet_sleeps : (poll_and_relay poller quiet).slept ≡ some 99999970
unfolding poll_and_relay poll_canister ws_get_messages polled compute_effective_polling_interval
quiet_sleeps = refl

poll_and_relay_waits_example :
    ((quiet.elapsed ≤ poller.polling_interval_ms * 10 ^ 6)
      × (quiet.elapsed + 99999970 ≡ poller.polling_interval_ms * 10 ^ 6))
    ⊎ ((poller.polling_interval_ms * 10 ^ 6 < quiet.elapsed) × (◌≡◌ {A = ℕ} 99999970 0))
poll_and_relay_waits_example = poll_and_relay_waits poller quiet 99999970 quiet_sleeps

abbrev pub with_alice : GatewayState assoc ℕ
with_alice = record {
  inner_data = assoc.insert ℕ_discrete 7 0 (assoc.new ℕ_discrete);
  memory = λ _.
      assoc.insert (key_dec assoc ℕ_discrete) alice alice_sender
        (assoc.new (key_dec assoc ℕ_discrete));
  next_address = 1;
}

round-IsUnwrapped : IsUnwrapped round
unfolding ws_get_messages
round-IsUnwrapped c nonce output e =
    let same : batch ≡ output = ground arith in
    subst (λ (o : CanisterOutputCertifiedMessages ℕ). IsBelowLast o.messages) same batch-IsBelowLast

quiet-IsUnwrapped : IsUnwrapped quiet
unfolding ws_get_messages
quiet-IsUnwrapped c nonce output e =
    let same : record batch { messages = [] } ≡ output = ground arith in
    subst (λ (o : CanisterOutputCertifiedMessages ℕ). IsBelowLast o.messages) same tt

run_polling-Rising_example :
    (hi : ℕ) × Rising 0
      (run_polling assoc ℕ_discrete
        (start_run assoc ℕ_discrete with_alice 7 0 100)
        (round ∷ quiet ∷ [])).relayed
      hi
run_polling-Rising_example =
    run_polling-Rising assoc ℕ_discrete with_alice 7 0 100 (round ∷ quiet ∷ [])
      (round-IsUnwrapped, (quiet-IsUnwrapped, tt))

pub with_alice-entry : entry assoc ℕ_discrete with_alice 7 ≡ some 0
with_alice-entry =
    assoc.get-insert {V = ℕ} ℕ_discrete 7 0 (assoc.new ℕ_discrete) 7
    ∙ if_pos (ℕ_discrete 7 7) refl (some 0) (assoc.get ℕ_discrete (assoc.new ℕ_discrete) 7)

abbrev run : Run assoc ℕ
run = record { poller = poller; gateway = with_alice; relayed = []; progress = polling }

run_round_ends_example :
    let run' = run_round assoc ℕ_discrete run round in
    (run'.progress ≡ (elim (poll_and_relay run.poller round).result [
      | err e ↦ returned (err e)
      | ok _ ↦
          if clients_len assoc ℕ_discrete (round.others run.gateway) 0 == 0
          then returned (ok tt)
          else polling
    ]))
    × (entry assoc ℕ_discrete run'.gateway 7 ≡ entry_while assoc ℕ_discrete run'.progress 0)
    × (run'.poller.canister_id ≡ run.poller.canister_id)
run_round_ends_example = run_round_ends assoc ℕ_discrete run round 0 with_alice-entry
