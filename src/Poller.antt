-- ===== src/Poller.antt =====
-- src/ic-websocket-gateway/src/canister_poller.rs: the task that polls one canister.
-- What the network, the clock and the other tasks do during an iteration is a `Round`.
pub mod Nonce
pub mod Batch
pub mod Relay
pub mod Status
pub mod Loop
pub mod Log
pub mod Lifecycle
pub mod Whole
pub mod Queue
pub mod Served
pub mod Delivery
pub mod Termination
pub mod Tests
pub mod QueueTests
use ic_websocket_gateway.Prelude.{
  ℕ, suc, ◌+◌, ◌-◌, ◌*◌, ◌%◌, ◌^◌, Bool, true, false, not, ◌&&◌, List, [], ◌∷◌, ◌++◌, Option, none,
  some, ltb, ◌==◌, if◌then◌else◌, Result, ok, err, Outcome, done, panic, length,
}
use ic_websocket_gateway.DashMap.{DashMap}
use ic_websocket_gateway.CanisterUtils.{
  Bytes, ClientKey, CanisterOutputMessage, CanisterToClientMessage, CanisterOutputCertifiedMessages,
  IcWsCanisterMessage, AgentError, RejectCode, IcError,
}
use ic_websocket_gateway.CanisterUtils.Calls.{CanisterApi, ws_get_messages}
use ic_websocket_gateway.State.{
  GatewayState, ClientSender, PollerState, remove_canister_if_empty, remove_failed_canister, empty,
  not_empty,
}
use Nonce.{NonceError, get_nonce_from_message, u64_mod}

pub data PollingStatus (P : Type 0) : Type 0 where
  no_messages_polled : PollingStatus P
  messages_polled : CanisterOutputCertifiedMessages P → PollingStatus P
  timed_out : PollingStatus P

-- The errors that end a poller, one for each text that the source formats.
pub data PollError : Type 0 where
  unrecoverable_agent : AgentError → PollError
  unrecoverable_candid unrecoverable_cdk : Bytes → PollError
  bad_nonce : NonceError → PollError
  non_consecutive : (expected got : ℕ) → PollError

pub record CanisterPoller (P : Type 0) : Type 0 where
  pub canister_id : P
  pub poller_state : PollerState
  pub next_message_nonce : ℕ  -- u64
  pub polling_iteration : ℕ  -- u64
  pub polling_interval_ms : ℕ  -- u64

unfoldable pub new : {P : Type 0} → P → PollerState → ℕ → CanisterPoller P
new canister_id poller_state polling_interval_ms = record {
  canister_id = canister_id;
  poller_state = poller_state;
  next_message_nonce = 0;
  polling_iteration = 0;
  polling_interval_ms = polling_interval_ms;
}

-- One message given to a client's channel.
pub record Relayed (P : Type 0) : Type 0 where
  pub client_key : ClientKey P
  pub sender : ℕ
  pub message : IcWsCanisterMessage

-- What happens around one iteration of the loop: whether the call hits `POLLING_TIMEOUT_MS`, what
-- the libraries answer, what the poller state holds for a key when the i-th message is handled
-- (sessions come and go between the messages), the time in nanoseconds from the start of the
-- iteration to its last step, and what the other tasks do to the gateway state meanwhile.
pub record Round (D : DashMap) (P : Type 0) : Type 0 where
  pub times_out : Bool
  pub api : CanisterApi P
  pub client_at : ℕ → ClientKey P → Option ClientSender
  pub elapsed : ℕ
  pub others : GatewayState D P → GatewayState D P

abbrev is_transient : RejectCode → Bool
is_transient RejectCode.sys_transient = true
is_transient _ = false

unfoldable pub is_recoverable_error : AgentError → Bool
is_recoverable_error (AgentError.uncertified_reject reject_code) = is_transient reject_code
is_recoverable_error (AgentError.unlisted _) = false
is_recoverable_error _ = true

-- Which status, or which error, an answer of the canister makes.
unfoldable pub polled :
    {P : Type 0}
    → Result (CanisterOutputCertifiedMessages P) IcError
    → Result (PollingStatus P) PollError
polled (ok output) =
    if length output.messages == 0 then ok no_messages_polled else ok (messages_polled output)
polled (err (IcError.agent e)) =
    if is_recoverable_error e then ok no_messages_polled else err (unrecoverable_agent e)
polled (err (IcError.candid e)) = err (unrecoverable_candid e)
polled (err (IcError.cdk e)) = err (unrecoverable_cdk e)

-- The loop of `update_nonce`, over `next_message_nonce`: the nonce that it leaves, and the error if
-- it stopped. A u64 wraps in the release build.
unfoldable pub update_nonce :
    {P : Type 0} → ℕ → List (CanisterOutputMessage P) → ℕ × Result (Unit {0}) PollError
update_nonce next [] = (next, ok tt)
update_nonce next (m ∷ ms) = elim (get_nonce_from_message m.key) [
  | err e ↦ (next, err (bad_nonce e))
  | ok nonce ↦
      let rest = update_nonce ((nonce + 1) % u64_mod) ms in
      if not (next == 0) && not (nonce == next)
      then (next, err (non_consecutive next nonce))
      else rest
]

abbrev pub to_client :
    {P : Type 0}
    → CanisterOutputCertifiedMessages P
    → CanisterOutputMessage P
    → CanisterToClientMessage
to_client msgs m = record { key = m.key; content = m.content; cert = msgs.cert; tree = msgs.tree }

-- The loop of `relay_messages`, from the i-th message on. A message for a client that the poller
-- state does not hold is ignored; the span of a relayed message is a child of the client's, by
-- which it is known here.
unfoldable pub relay_from :
    {P : Type 0}
    → (ℕ → ClientKey P → Option ClientSender)
    → CanisterOutputCertifiedMessages P
    → ℕ
    → List (CanisterOutputMessage P)
    → List (Relayed P)
relay_from client_at msgs i [] = []
relay_from client_at msgs i (m ∷ ms) =
    let rest = relay_from client_at msgs (suc i) ms in
    elim (client_at i m.client_key) [
      | none ↦ rest
      | some client ↦
          record {
            client_key = m.client_key;
            sender = client.sender;
            message = (to_client msgs m, client.span);
          }
          ∷ rest
    ]

unfoldable pub relay_messages :
    {P : Type 0}
    → (ℕ → ClientKey P → Option ClientSender)
    → CanisterOutputCertifiedMessages P
    → List (Relayed P)
relay_messages client_at msgs = relay_from client_at msgs 0 msgs.messages

abbrev ns_per_ms : ℕ
ns_per_ms = 10 ^ 6

-- In nanoseconds.
unfoldable pub compute_effective_polling_interval : {P : Type 0} → CanisterPoller P → ℕ → ℕ
compute_effective_polling_interval p elapsed =
    if ltb (p.polling_interval_ms * ns_per_ms) elapsed
    then 0
    else p.polling_interval_ms * ns_per_ms - elapsed

-- How `poll_and_relay` leaves the poller, what it gave to channels, how long it slept at its end
-- (`none` if it did not sleep) and its result.
pub record Polled (P : Type 0) : Type 0 where
  pub poller : CanisterPoller P
  pub relayed : List (Relayed P)
  pub slept : Option ℕ
  pub result : Result (Unit {0}) PollError

-- `unwrap_or(true)` of the flag `is_end_of_queue`.
abbrev pub is_end : Option Bool → Bool
is_end none = true
is_end (some b) = b

module _ {D : DashMap} {P : Type 0} where
  unfoldable pub poll_canister : CanisterPoller P → Round D P → Result (PollingStatus P) PollError
  poll_canister p round =
      if round.times_out
      then ok timed_out
      else polled (ws_get_messages round.api p.canister_id p.next_message_nonce)

  abbrev sleep : CanisterPoller P → Round D P → Option ℕ
  sleep p round = some (compute_effective_polling_interval p round.elapsed)

  unfoldable pub relay_batch :
      CanisterPoller P → Round D P → CanisterOutputCertifiedMessages P → Polled P
  relay_batch p round output =
      let (next, updated) = update_nonce p.next_message_nonce output.messages in
      let p' : CanisterPoller P = record p { next_message_nonce = next } in
      elim updated [
        | err e ↦ record { poller = p'; relayed = []; slept = none; result = err e }
        | ok _ ↦ record {
          poller = p';
          relayed = relay_messages round.client_at output;
          slept = if is_end output.is_end_of_queue then sleep p' round else none;
          result = ok tt;
        }
      ]

  unfoldable pub poll_and_relay : CanisterPoller P → Round D P → Polled P
  poll_and_relay p round = elim (poll_canister p round) [
    | err e ↦ record { poller = p; relayed = []; slept = none; result = err e }
    | ok timed_out ↦ record { poller = p; relayed = []; slept = none; result = ok tt }
    | ok no_messages_polled ↦ record {
      poller = p;
      relayed = [];
      slept = sleep p round;
      result = ok tt;
    }
    | ok (messages_polled output) ↦ relay_batch p round output
  ]
