-- ===== src/Channels/Relaying.antt =====
-- A poller's iteration: what it puts into which channels, and which sending halves are left.
use ic_websocket_gateway.Prelude.{
  ℕ, suc, ◌≡◌, refl, sym, List, [], ◌∷◌, ◌++◌, Option, some, arith, All, inl, inr, ok, err, Result,
  Result-cases, ◌⊎◌, Option-cases,
}
use ic_websocket_gateway.DashMap.{DashMap}
use ic_websocket_gateway.CanisterUtils.{
  ClientKey, CanisterOutputMessage, CanisterOutputCertifiedMessages,
}
use ic_websocket_gateway.State.{
  GatewayState, ClientSender, PollerState, entry, client_at, remove_canister_if_empty,
}
use ic_websocket_gateway.State.Senders.{sender_at, Within}
use ic_websocket_gateway.Poller.{
  PollingStatus, no_messages_polled, messages_polled, timed_out, PollError, poll_canister,
  update_nonce, CanisterPoller, Round, Relayed, relay_from, relay_messages, relay_batch,
  poll_and_relay,
}
use ic_websocket_gateway.Poller.Loop.{Run, run_round}
use ic_websocket_gateway.Gateway.Consistency.{write-cases}
use ic_websocket_gateway.Gateway.Rounds.{gateway_fine, gateway_failed}
use ic_websocket_gateway.Channels.{Post, relay_message, relay_all}

All-append : {A : Type 0} (Q : A → Type 0) (xs ys : List A) → All Q xs → All Q ys → All Q (xs ++ ys)
All-append Q [] ys a b = b
All-append Q (x ∷ xs) ys (q, a) b = (q, All-append Q xs ys a b)

module _ {P : Type 0} where
  -- The message went to the client's sending half that the poller state held.
  abbrev pub Addressed : (ClientKey P → Option ClientSender) → Relayed P → Type 0
  Addressed at r = (v : ClientSender) × (at r.client_key ≡ some v) × (v.sender ≡ r.sender)

  relay_from-Addressed :
      (at : ClientKey P → Option ClientSender) (msgs : CanisterOutputCertifiedMessages P) (i : ℕ)
      (ms : List (CanisterOutputMessage P))
      → All (Addressed at) (relay_from (λ _. at) msgs i ms)
  unfolding relay_from
  relay_from-Addressed at msgs i [] = tt
  relay_from-Addressed at msgs i (m ∷ ms) = elim (Option-cases (at m.client_key)) [
    | inl gone ↦ rw gone (relay_from-Addressed at msgs (suc i) ms)
    | inr (v, here) ↦ rw here ((v, here, refl), relay_from-Addressed at msgs (suc i) ms)
  ]

  relay_message-All :
      (Q : Post P → Type 0) (post : Post P) (channels : ℕ → List (Post P)) (t : ℕ)
      → All Q (channels t)
      → (post.1.sender ≡ t → Q post)
      → All Q (relay_message post channels t)
  unfolding relay_message
  relay_message-All Q post channels t before q =
      elim (write-cases post.1.sender (channels post.1.sender ++ post ∷ []) channels t) [
        | inl (same, e) ↦ rw e (
            All-append Q (channels post.1.sender) (post ∷ []) (rw⁻¹ same before) (q (sym same), tt))
        | inr (other, e) ↦ rw e before
      ]

  -- What holds of a channel's content, and of what is sent into it, holds of it afterwards.
  pub relay_all-All :
      (Q : Post P → Type 0) (c : P) (rs : List (Relayed P)) (channels : ℕ → List (Post P)) (t : ℕ)
      → All Q (channels t)
      → All (λ (r : Relayed P). r.sender ≡ t → Q (c, r)) rs
      → All Q (relay_all c rs channels t)
  unfolding relay_all
  relay_all-All Q c [] channels t before each = before
  relay_all-All Q c (r ∷ rs) channels t before (q, each) =
      relay_all-All Q c rs (relay_message (c, r) channels) t
        (relay_message-All Q (c, r) channels t before q) each

module _ {D : DashMap} {P : Type 0} where
  -- An iteration relays nothing, or a batch.
  abbrev Relaying : CanisterPoller P → Round D P → Type 0
  Relaying p round =
      ((poll_and_relay p round).relayed ≡ [])
      ⊎ ((output : CanisterOutputCertifiedMessages P) × ((poll_and_relay p round).relayed
            ≡ relay_messages round.client_at output))

  relays_on :
      (p : CanisterPoller P) (round : Round D P) (status : Result (PollingStatus P) PollError)
      → poll_canister p round ≡ status
      → Relaying p round
  unfolding poll_and_relay relay_batch
  relays_on p round (err e) f = inl (ground arith)
  relays_on p round (ok no_messages_polled) f = inl (ground arith)
  relays_on p round (ok timed_out) f = inl (ground arith)
  relays_on p round (ok (messages_polled output)) f =
      elim (Result-cases (update_nonce p.next_message_nonce output.messages).1) [
        | inl (u, fine) ↦ inr (output, ground arith)
        | inr (e, bad) ↦ inl (ground arith)
      ]

  pub poll_and_relay-Addressed :
      (p : CanisterPoller P) (round : Round D P) (at : ClientKey P → Option ClientSender)
      → round.client_at ≡ (λ _. at)
      → All (Addressed at) (poll_and_relay p round).relayed
  unfolding relay_messages
  poll_and_relay-Addressed p round at e = elim (relays_on p round (poll_canister p round) refl) [
    | inl nothing ↦ rw nothing tt
    | inr (output, batch) ↦ rw (batch, e) (relay_from-Addressed at output 0 output.messages)
  ]

module _ (D : DashMap) {P : Type 0} (dec : Discrete P) where
  pub entry-sender_at :
      (gs : GatewayState D P) (c : P) (a : PollerState) (k : ClientKey P)
      → entry D dec gs c ≡ some a
      → sender_at D dec gs c k ≡ client_at D dec gs a k
  entry-sender_at gs c a k e = ground arith

  removed_entry-Within :
      (gs : GatewayState D P) (c : P)
      → Within D dec (record gs { inner_data = D.remove dec c gs.inner_data }) gs
  removed_entry-Within gs c b k v here = ground (arith, D.get-remove dec c gs.inner_data b, dec b c)

  remove_canister_if_empty-Within :
      (gs : GatewayState D P) (c : P) → Within D dec (remove_canister_if_empty D dec gs c).0 gs
  unfolding remove_canister_if_empty
  remove_canister_if_empty-Within gs c b k v here =
      ground (arith, D.get-remove dec c gs.inner_data b, dec b c)

  -- An iteration adds no sending half.
  pub run_round-Within :
      (run : Run D P) (round : Round D P) (a : PollerState)
      → entry D dec (round.others run.gateway) run.poller.canister_id ≡ some a
      → Within D dec (run_round D dec run round).gateway (round.others run.gateway)
  run_round-Within run round a here =
      let gs = round.others run.gateway in
      let c = run.poller.canister_id in
      elim (Result-cases (poll_and_relay run.poller round).result) [
        | inr (e, f) ↦ rw (gateway_failed D dec run round e a f here) (removed_entry-Within gs c)
        | inl (u, f) ↦ rw (gateway_fine D dec run round f) (remove_canister_if_empty-Within gs c)
      ]
