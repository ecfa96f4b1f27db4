-- ===== src/Poller/Status.antt =====
-- canister_poller.rs, `poll_and_relay`: what one iteration does on each of its branches, and how
-- long it waits at its end.
use ic_websocket_gateway.Prelude.{
  ℕ, ◌+◌, ◌*◌, ◌^◌, ◌≤◌, ◌<◌, ◌≡◌, ◌≢◌, ◌⊎◌, refl, inl, inr, none, some, [], arith, ok, err,
  Result-cases, ap, length, Result,
}
use ic_websocket_gateway.DashMap.{DashMap}
use ic_websocket_gateway.CanisterUtils.{CanisterOutputCertifiedMessages, IcError}
use ic_websocket_gateway.CanisterUtils.Calls.{ws_get_messages}
use ic_websocket_gateway.Poller.{
  CanisterPoller, Round, Polled, PollError, no_messages_polled, messages_polled, timed_out,
  update_nonce, relay_messages, poll_and_relay, relay_batch, poll_canister, polled,
  compute_effective_polling_interval,
}

polled_lem :
    {P : Type 0} (r : Result (CanisterOutputCertifiedMessages P) IcError)
    (output : CanisterOutputCertifiedMessages P)
    → polled r ≡ ok (messages_polled output)
    → (r ≡ ok output) × (length output.messages ≢ 0)
unfolding polled
polled_lem (ok o) output e = ground arith
polled_lem (err (IcError.agent x)) output e = ground arith
polled_lem (err (IcError.candid x)) output e = cc
polled_lem (err (IcError.cdk x)) output e = cc

module _ {D : DashMap} {P : Type 0} (p : CanisterPoller P) (round : Round D P) where
  -- Why an iteration fails: the call does, or the check of a batch's nonces.
  abbrev pub FailsBy : PollError → Type 0
  FailsBy e =
      (poll_canister p round ≡ err e)
      ⊎ ((output : CanisterOutputCertifiedMessages P) × (ws_get_messages round.api p.canister_id
              p.next_message_nonce
            ≡ ok output)
          × ((update_nonce p.next_message_nonce output.messages).1 ≡ err e))

  -- What an iteration may come to.
  pub data Iteration (r : Polled P) : Type 0 where
    failed :
        (e : PollError)
        → FailsBy e
        → r.result ≡ err e
        → r.relayed ≡ []
        → r.slept ≡ none
        → Iteration r
    idle :
        (poll_canister p round ≡ ok timed_out) ⊎ (poll_canister p round ≡ ok no_messages_polled)
        → r.result ≡ ok tt
        → r.poller ≡ p
        → r.relayed ≡ []
        → Iteration r
    relayed :
        (output : CanisterOutputCertifiedMessages P)
        → ws_get_messages round.api p.canister_id p.next_message_nonce ≡ ok output
        → update_nonce p.next_message_nonce output.messages ≡ (r.poller.next_message_nonce, ok tt)
        → output.messages ≢ []
        → r.relayed ≡ relay_messages round.client_at output
        → r.result ≡ ok tt
        → Iteration r

  polled_messages :
      (output : CanisterOutputCertifiedMessages P)
      → poll_canister p round ≡ ok (messages_polled output)
      → (ws_get_messages round.api p.canister_id p.next_message_nonce ≡ ok output)
        × (output.messages ≢ [])
  unfolding poll_canister
  polled_messages output e =
      let (answer, some_polled) =
        polled_lem (ws_get_messages round.api p.canister_id p.next_message_nonce) output
          (ground arith) in
      (answer, λ none_polled. some_polled (ap length none_polled))

  relay_batch-Iteration :
      (output : CanisterOutputCertifiedMessages P)
      → ws_get_messages round.api p.canister_id p.next_message_nonce ≡ ok output
      → output.messages ≢ []
      → Iteration (relay_batch p round output)
  unfolding relay_batch
  relay_batch-Iteration output e some_polled =
      elim (Result-cases (update_nonce p.next_message_nonce output.messages).1) [
        | inl (u, f) ↦ rw (f, relay_batch) (relayed output e (ground arith) some_polled refl refl)
        | inr (x, f) ↦ rw (f, relay_batch) (failed x (inr (output, e, f)) refl refl refl)
      ]

  pub poll_and_relay-Iteration : Iteration (poll_and_relay p round)
  unfolding poll_and_relay
  poll_and_relay-Iteration = elim (Result-cases (poll_canister p round)) [
    | inr (e, f) ↦ rw (f, poll_and_relay) (failed e (inl f) refl refl refl)
    | inl (no_messages_polled, f) ↦ rw (f, poll_and_relay) (idle (inr f) refl refl refl)
    | inl (timed_out, f) ↦ rw (f, poll_and_relay) (idle (inl f) refl refl refl)
    | inl (messages_polled output, f) ↦
        let (answer, some_polled) = polled_messages output f in
        rw (f, poll_and_relay) (relay_batch-Iteration output answer some_polled)
  ]

  -- An iteration that waits at its end waits for exactly what is left of the polling interval after
  -- the time that the iteration has taken, and not at all if it has taken longer than the interval.
  pub poll_and_relay_waits :
      (d : ℕ)
      → (poll_and_relay p round).slept ≡ some d
      → let whole = p.polling_interval_ms * 10 ^ 6 in
        ((round.elapsed ≤ whole) × (round.elapsed + d ≡ whole))
        ⊎ ((whole < round.elapsed) × (d ≡ 0))
  unfolding poll_and_relay relay_batch compute_effective_polling_interval
  poll_and_relay_waits d e = ground arith
