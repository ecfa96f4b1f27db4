-- ===== src/Poller/Lifecycle.antt =====
-- canister_poller.rs, `run_polling`: the order of everything that a poller relays, and how it ends.
use ic_websocket_gateway.Prelude.{
  ℕ, suc, ◌+◌, ◌≤◌, ◌≡◌, ◌≢◌, refl, inl, inr, Option, List, [], ◌∷◌, ◌++◌, arith, ok, length, All,
  Option-cases, subst,
}
use mathlib.Core.List.{append-nil}
use ic_websocket_gateway.DashMap.{DashMap}
use ic_websocket_gateway.CanisterUtils.{
  ClientKey, CanisterOutputMessage, CanisterOutputCertifiedMessages,
}
use ic_websocket_gateway.CanisterUtils.Calls.{ws_get_messages}
use ic_websocket_gateway.State.{GatewayState, ClientSender, PollerState}
use ic_websocket_gateway.Poller.Log.{Keeps, run_polling_keeps, start_run}
use ic_websocket_gateway.Poller.Nonce.{get_nonce_from_message}
use ic_websocket_gateway.Poller.Batch.{Carries, IsBelowLast, update_nonce_accepts}
use ic_websocket_gateway.Poller.Status.{failed, idle, relayed, poll_and_relay-Iteration}
use ic_websocket_gateway.Poller.{
  CanisterPoller, Round, Relayed, update_nonce, relay_messages, relay_from, poll_and_relay,
}
use ic_websocket_gateway.Poller.Loop.{run_polling}

-- The nonces of relayed messages rise strictly: all are at least `lo`, and below `hi`.
abbrev pub Rising : {P : Type 0} → ℕ → List (Relayed P) → ℕ → Type 0
Rising lo [] hi = lo ≤ hi
Rising lo (r ∷ rs) hi =
    (n : ℕ) × (get_nonce_from_message r.message.0.key ≡ ok n) × (lo ≤ n) × Rising (suc n) rs hi

module _ {P : Type 0} where
  Rising-weaken :
      (lo lo' : ℕ) (rs : List (Relayed P)) (hi : ℕ) → lo ≤ lo' → Rising lo' rs hi → Rising lo rs hi
  Rising-weaken lo lo' [] hi h r = omega arith
  Rising-weaken lo lo' (x ∷ rs) hi h r = (r.0, r.1, omega arith, r.3)

  Rising-append :
      (lo mid hi : ℕ) (rs ss : List (Relayed P))
      → Rising lo rs mid
      → Rising mid ss hi
      → Rising lo (rs ++ ss) hi
  Rising-append lo mid hi [] ss r s = Rising-weaken lo mid ss hi r s
  Rising-append lo mid hi (x ∷ rs) ss r s =
      (r.0, r.1, r.2, Rising-append (suc r.0) mid hi rs ss r.3 s)

  relay_from-Rising :
      (client_at : ℕ → ClientKey P → Option ClientSender) (msgs : CanisterOutputCertifiedMessages P)
      (i first : ℕ) (ms : List (CanisterOutputMessage P))
      → Carries ms first
      → Rising first (relay_from client_at msgs i ms) (first + length ms)
  unfolding relay_from
  relay_from-Rising client_at msgs i first [] c = omega arith
  relay_from-Rising client_at msgs i first (m ∷ ms) c =
      let same : suc first + length ms ≡ first + suc (length ms) = omega arith in
      let ih : Rising (suc first) (relay_from client_at msgs (suc i) ms) (first + suc (length ms)) =
        subst (Rising (suc first) (relay_from client_at msgs (suc i) ms)) same
          (relay_from-Rising client_at msgs (suc i) (suc first) ms c.1) in
      elim (Option-cases (client_at i m.client_key)) [
        | inl e ↦ rw (e, relay_from) (Rising-weaken first (suc first) _ _ (omega arith) ih)
        | inr (s, e) ↦ rw (e, relay_from) (first, c.0, omega arith, ih)
      ]

-- No answer of the round holds the last nonce of 64 bits.
abbrev pub IsUnwrapped : {D : DashMap} {P : Type 0} → Round D P → Type 0
IsUnwrapped {P} round =
    (c : P) (nonce : ℕ) (output : CanisterOutputCertifiedMessages P)
    → ws_get_messages round.api c nonce ≡ ok output
    → IsBelowLast output.messages

batch-Rising :
    {P : Type 0} (client_at : ℕ → ClientKey P → Option ClientSender)
    (output : CanisterOutputCertifiedMessages P) (next next' : ℕ) (log : List (Relayed P))
    (ms : List (CanisterOutputMessage P))
    → ms ≢ []
    → IsBelowLast ms
    → update_nonce next ms ≡ (next', ok tt)
    → Rising 0 log next
    → Rising 0 (log ++ relay_from client_at output 0 ms) next'
batch-Rising client_at output next next' log [] some_polled low e r = absurd (some_polled refl)
batch-Rising client_at output next next' log (m ∷ ms) some_polled low e r =
    let (first, start, c, total) = (update_nonce_accepts next next' m ms low).0 e in
    let batch : Rising first (relay_from client_at output 0 (m ∷ ms)) next' =
      rw total (relay_from-Rising client_at output 0 first (m ∷ ms) c) in
    Rising-append 0 next next' log _ r
      (Rising-weaken next first (relay_from client_at output 0 (m ∷ ms)) next' (omega arith) batch)

module _ {D : DashMap} {P : Type 0} where
  -- The log after one iteration, up to the poller's new nonce unless the iteration failed.
  iteration-Rising :
      (p : CanisterPoller P) (round : Round D P) (log : List (Relayed P))
      → IsUnwrapped round
      → Rising 0 log p.next_message_nonce
      → let r = poll_and_relay p round in
        (hi : ℕ) × Rising 0 (log ++ r.relayed) hi
        × ((r.result ≡ ok tt) → hi ≡ r.poller.next_message_nonce)
  unfolding relay_messages
  iteration-Rising p round log low r = elim (poll_and_relay-Iteration p round) [
    | failed e _ f none_relayed _ ↦ (p.next_message_nonce, rw (none_relayed, append-nil) r, λ g. cc)
    | idle _ f same none_relayed ↦
        (p.next_message_nonce, rw (none_relayed, append-nil) r, λ g. rw same)
    | relayed output answer updated some_polled whole f ↦ (
      (poll_and_relay p round).poller.next_message_nonce,
      rw whole (
          batch-Rising round.client_at output p.next_message_nonce _ log output.messages some_polled
            (low p.canister_id p.next_message_nonce output answer) updated r),
      λ g. refl,
    )
  ]

module _ (D : DashMap) {P : Type 0} (dec : Discrete P) where
  unwrapped-keep :
      (rounds : List (Round D P)) → All IsUnwrapped rounds → All (Keeps D dec (Rising 0)) rounds
  unwrapped-keep [] low = tt
  unwrapped-keep (round ∷ rounds) low =
      ((λ p log h. iteration-Rising p round log low.0 h), unwrapped-keep rounds low.1)

  -- Everything that a poller relays in its life, over any number of iterations and whatever the
  -- other tasks do meanwhile, carries strictly rising nonces: no message is relayed twice, and none
  -- after a later one. (No message has the last nonce of 64 bits, and the poller is a new one.)
  pub run_polling-Rising :
      (gs : GatewayState D P) (canister_id : P) (a : PollerState) (interval : ℕ)
      (rounds : List (Round D P))
      → All IsUnwrapped rounds
      → (hi : ℕ) × Rising 0
          (run_polling D dec (start_run D dec gs canister_id a interval) rounds).relayed
          hi
  run_polling-Rising gs canister_id a interval rounds low =
      run_polling_keeps D dec (Rising 0) gs canister_id a interval rounds
        (unwrapped-keep rounds low) (omega arith)
