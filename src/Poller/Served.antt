-- ===== src/Poller/Served.antt =====
-- canister_poller.rs against a canister with a queue: what a client gets while it is connected.
use ic_websocket_gateway.Prelude.{
  ℕ, zero, suc, ◌+◌, ◌<◌, ◌≡◌, ◌≢◌, ap, ◌∙◌, ◌⊎◌, inl, inr, true, false, List, [], ◌++◌, map, some,
  arith, ok, err, length,
}
use mathlib.Core.List.{append-nil}
use ic_websocket_gateway.DashMap.{DashMap}
use ic_websocket_gateway.CanisterUtils.{
  ClientKey, CanisterOutputMessage, CanisterOutputCertifiedMessages, AgentError, IcError,
}
use ic_websocket_gateway.CanisterUtils.Calls.{ws_get_messages}
use ic_websocket_gateway.State.{ClientSender}
use ic_websocket_gateway.Poller.Nonce.{u64_mod}
use ic_websocket_gateway.Poller.Relay.{messages_for, relayed_by, relay_messages_connected}
use ic_websocket_gateway.Poller.Queue.{
  slice, Keyed, update_nonce-slice, from, Delivered, Delivered-append,
}
use ic_websocket_gateway.Poller.{
  CanisterPoller, Round, Relayed, update_nonce, relay_messages, poll_and_relay, poll_canister,
  polled, relay_batch, is_recoverable_error, no_messages_polled, timed_out,
}

module _ (D : DashMap) {P : Type 0} (dec : Discrete P) (queue : ℕ → CanisterOutputMessage P)
    (start : ℕ) where
  -- How a round ends that does not fail for good: the canister answers with the next `len` messages
  -- of its queue, or the call times out, or it fails with an error from which the poller recovers.
  pub data Serves (round : Round D P) : ℕ → Type 0 where
    answers :
        (len : ℕ)
        → round.times_out ≡ false
        → ((c : P) (next : ℕ)
            → from queue start next + len < u64_mod
            → (output : CanisterOutputCertifiedMessages P) × (ws_get_messages round.api c next
                ≡ ok output)
              × (output.messages ≡ slice queue (from queue start next) len))
        → Serves round len
    times_out : round.times_out ≡ true → Serves round 0
    recovers :
        (e : AgentError)
        → round.times_out ≡ false
        → is_recoverable_error e ≡ true
        → ((c : P) (next : ℕ) → ws_get_messages round.api c next ≡ err (IcError.agent e))
        → Serves round 0

  module _ (k : ClientKey P) (client : ClientSender) where
    -- The client has its channel in the poller state throughout the round.
    abbrev pub Connected : Round D P → Type 0
    Connected round = (i : ℕ) → round.client_at i k ≡ some client

    -- An iteration that did not fail, and the log with what it relayed.
    pub record Answered (p : CanisterPoller P) (round : Round D P) (log : List (Relayed P)) (n : ℕ)
        : Type 0 where
      pub fine : (poll_and_relay p round).result ≡ ok tt
      pub same : (poll_and_relay p round).poller.canister_id ≡ p.canister_id
      pub more :
          Delivered dec k queue start client
            (log ++ (poll_and_relay p round).relayed)
            (poll_and_relay p round).poller.next_message_nonce
            n

    idle_poll :
        (p : CanisterPoller P) (round : Round D P)
        → (poll_canister p round ≡ ok no_messages_polled) ⊎ (poll_canister p round ≡ ok timed_out)
        → ((poll_and_relay p round).result ≡ ok tt)
          × ((poll_and_relay p round).poller ≡ p)
          × ((poll_and_relay p round).relayed ≡ [])
    unfolding poll_and_relay
    idle_poll p round (inl e) = ground arith
    idle_poll p round (inr e) = ground arith

    idle-Answered :
        (p : CanisterPoller P) (round : Round D P) (log : List (Relayed P)) (n : ℕ)
        → (poll_canister p round ≡ ok no_messages_polled) ⊎ (poll_canister p round ≡ ok timed_out)
        → Delivered dec k queue start client log p.next_message_nonce n
        → Answered p round log (n + 0)
    idle-Answered p round log n e d =
        let (fine, same, none_relayed) = idle_poll p round e in
        let stay : n + 0 ≡ n = omega arith in
        record {
          fine = fine;
          same = ap (λ (q : CanisterPoller P). q.canister_id) same;
          more = rw (stay, none_relayed, append-nil, same) d;
        }

    batch_poll :
        (p : CanisterPoller P) (round : Round D P) (output : CanisterOutputCertifiedMessages P)
        (next : ℕ)
        → round.times_out ≡ false
        → ws_get_messages round.api p.canister_id p.next_message_nonce ≡ ok output
        → length output.messages ≢ 0
        → update_nonce p.next_message_nonce output.messages ≡ (next, ok tt)
        → let r = poll_and_relay p round in
          (r.result ≡ ok tt)
          × (r.poller.canister_id ≡ p.canister_id)
          × (r.relayed ≡ relay_messages round.client_at output)
          × (r.poller.next_message_nonce ≡ next)
    unfolding poll_and_relay poll_canister polled relay_batch
    batch_poll p round output next live e some_polled updated = ground arith

    batch-Answered :
        (p : CanisterPoller P) (round : Round D P) (output : CanisterOutputCertifiedMessages P)
        (log : List (Relayed P)) (n len : ℕ)
        → Keyed queue
        → Connected round
        → round.times_out ≡ false
        → ws_get_messages round.api p.canister_id p.next_message_nonce ≡ ok output
        → output.messages ≡ slice queue (from queue start p.next_message_nonce) (suc len)
        → from queue start p.next_message_nonce + suc len < u64_mod
        → Delivered dec k queue start client log p.next_message_nonce n
        → Answered p round log (n + suc len)
    unfolding slice
    batch-Answered p round output log n len keyed here live e part small d =
        let next = p.next_message_nonce in
        let at = from queue start next in
        let counted : update_nonce next output.messages ≡ (at + suc len, ok tt) =
          ap (update_nonce next) part
          ∙ update_nonce-slice queue keyed next at len (ground arith) small in
        let (fine, same, whole, moved) =
          batch_poll p round output (at + suc len) live e (ground arith) counted in
        let to_client =
          relay_messages_connected dec k round.client_at output client here
          ∙ ap (λ ms. map (relayed_by dec k client output) (messages_for dec k ms)) part in
        record {
          fine = fine;
          same = same;
          more =
              rw (whole, moved)
                (Delivered-append dec k queue start client log
                  (relay_messages round.client_at output) output next n len to_client d);
        }

    pub Serves-Answered :
        (p : CanisterPoller P) (round : Round D P) (log : List (Relayed P)) (n len : ℕ)
        → Keyed queue
        → start + (n + len) < u64_mod
        → Connected round
        → Serves round len
        → Delivered dec k queue start client log p.next_message_nonce n
        → Answered p round log (n + len)
    unfolding poll_canister polled slice
    Serves-Answered p round log n _ keyed small here (times_out e) d =
        idle-Answered p round log n (inr (ground arith)) d
    Serves-Answered p round log n _ keyed small here (recovers x live e f) d =
        idle-Answered p round log n (inl (ground (arith, f p.canister_id p.next_message_nonce))) d
    Serves-Answered p round log n _ keyed small here (answers zero live f) d =
        let (output, e, part) = f p.canister_id p.next_message_nonce (ground (arith, d.at)) in
        idle-Answered p round log n (inl (ground arith)) d
    Serves-Answered p round log n _ keyed small here (answers (suc len) live f) d =
        let low : from queue start p.next_message_nonce + suc len < u64_mod =
          ground (arith, d.at) in
        let (output, e, part) = f p.canister_id p.next_message_nonce low in
        batch-Answered p round output log n len keyed here live e part low d
