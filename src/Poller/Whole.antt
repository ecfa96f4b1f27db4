-- ===== src/Poller/Whole.antt =====
-- canister_poller.rs, `poll_and_relay`: what one iteration does on each of its branches, and what a
-- client gets from it.
use ic_websocket_gateway.Prelude.{
  ℕ, ◌+◌, ◌≡◌, ◌≢◌, ◌⊎◌, List, [], map, Option, none, some, ok, err, length,
}
use ic_websocket_gateway.DashMap.{DashMap}
use ic_websocket_gateway.CanisterUtils.{ClientKey, CanisterOutputCertifiedMessages}
use ic_websocket_gateway.CanisterUtils.Calls.{ws_get_messages}
use ic_websocket_gateway.State.{ClientSender}
use ic_websocket_gateway.Poller.Batch.{Carries}
use ic_websocket_gateway.Poller.Relay.{messages_for, relayed_to, relayed_by}
use ic_websocket_gateway.Poller.Status.{FailsBy, relayed}
use ic_websocket_gateway.Poller.{
  CanisterPoller, Round, Relayed, Polled, PollError, no_messages_polled, timed_out, poll_canister,
}

module _ {P : Type 0} (dec : Discrete P) (k : ClientKey P) where
  -- What a client is to get of a batch, if the poller state holds it, or does not.
  abbrev pub share : Option ClientSender → CanisterOutputCertifiedMessages P → List (Relayed P)
  share none output = []
  share (some client) output =
      map (relayed_by dec k client output) (messages_for dec k output.messages)

module _ {D : DashMap} {P : Type 0} (dec : Discrete P) (p : CanisterPoller P) (round : Round D P)
    (k : ClientKey P) (held : Option ClientSender) where
  -- What an iteration may come to, for a client whose sender in the poller state is `held`.
  pub data Whole (r : Polled P) : Type 0 where
    fails :
        (e : PollError)
        → FailsBy p round e
        → r.result ≡ err e
        → r.relayed ≡ []
        → r.slept ≡ none
        → Whole r
    rests :
        (poll_canister p round ≡ ok timed_out) ⊎ (poll_canister p round ≡ ok no_messages_polled)
        → r.result ≡ ok tt
        → r.poller ≡ p
        → r.relayed ≡ []
        → Whole r
    relays :
        (output : CanisterOutputCertifiedMessages P) (first : ℕ)
        → ws_get_messages round.api p.canister_id p.next_message_nonce ≡ ok output
        → output.messages ≢ []
        → (p.next_message_nonce ≡ 0) ⊎ (p.next_message_nonce ≡ first)
        → Carries output.messages first
        → r.poller.next_message_nonce ≡ first + length output.messages
        → relayed_to dec k r.relayed ≡ share dec k held output
        → r.result ≡ ok tt
        → Whole r
