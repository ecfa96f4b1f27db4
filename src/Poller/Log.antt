-- ===== src/Poller/Log.antt =====
-- canister_poller.rs, `run_polling`: the rule for what stays true of everything that a poller has
-- relayed, with the poller's nonce.
use ic_websocket_gateway.Prelude.{
  ℕ, ◌≡◌, refl, ◌⊎◌, inl, inr, false, List, [], ◌∷◌, ◌++◌, arith, ok, Result-cases, All, Outcome,
  done, panic, subst, sym,
}
use ic_websocket_gateway.DashMap.{DashMap}
use ic_websocket_gateway.State.{
  GatewayState, CanisterRemovalResult, PollerState, empty, not_empty, remove_canister_if_empty,
  remove_failed_canister,
}
use ic_websocket_gateway.Poller.{CanisterPoller, Round, Relayed, PollError, new, poll_and_relay}
use ic_websocket_gateway.Poller.Loop.{
  Run, Progress, polling, returned, panicked, run_round, run_polling, is_polling, fail,
}

module _ (D : DashMap) {P : Type 0} (dec : Discrete P) where
  pub Progress-cases : (g : Progress) → (g ≡ polling) ⊎ (is_polling D dec g ≡ false)
  Progress-cases polling = inl refl
  Progress-cases (returned x) = inr refl
  Progress-cases panicked = inr refl

  -- The state of the task that `start_poller` spawns.
  abbrev pub start_run : GatewayState D P → P → PollerState → ℕ → Run D P
  start_run gs canister_id a interval = record {
    poller = new canister_id a interval;
    gateway = gs;
    relayed = [];
    progress = polling;
  }

  pub run_polling_on :
      (run : Run D P) (round : Round D P) (rounds : List (Round D P))
      → run.progress ≡ polling
      → run_polling D dec run (round ∷ rounds)
        ≡ run_polling D dec (run_round D dec run round) rounds
  unfolding run_polling
  run_polling_on run round rounds e = ground arith

  pub run_polling_off :
      (run : Run D P) (rounds : List (Round D P))
      → is_polling D dec run.progress ≡ false
      → run_polling D dec run rounds ≡ run
  unfolding run_polling
  run_polling_off run [] e = refl
  run_polling_off run (round ∷ rounds) e = ground arith

removal-cases : (r : CanisterRemovalResult) → (r ≡ empty) ⊎ (r ≡ not_empty)
removal-cases empty = inl refl
removal-cases not_empty = inr refl

-- `Q log next` is the property of the log, with the nonce that comes next.
module _ (D : DashMap) {P : Type 0} (dec : Discrete P) (Q : List (Relayed P) → ℕ → Type 0) where
  -- What the log says while the poller runs, and after.
  abbrev Says : Progress → List (Relayed P) → ℕ → Type 0
  Says polling log next = Q log next
  Says _ log next = (hi : ℕ) × Q log hi

  Says-end : (g : Progress) (log : List (Relayed P)) (n : ℕ) → Says g log n → (hi : ℕ) × Q log hi
  Says-end polling log n q = (n, q)
  Says-end (returned x) log n q = q
  Says-end panicked log n q = q

  Says-polling :
      (g : Progress) (log : List (Relayed P)) (n : ℕ) → g ≡ polling → Says g log n → Q log n
  Says-polling polling log n e q = q
  Says-polling (returned x) log n e q = cc
  Says-polling panicked log n e q = cc

  abbrev Holds : Run D P → Type 0
  Holds run = Says run.progress run.relayed run.poller.next_message_nonce

  -- An iteration keeps the property, with the poller's new nonce unless it fails.
  abbrev pub Keeps : Round D P → Type 0
  Keeps round =
      (p : CanisterPoller P) (log : List (Relayed P))
      → Q log p.next_message_nonce
      → let r = poll_and_relay p round in
        (hi : ℕ) × Q (log ++ r.relayed) hi × ((r.result ≡ ok tt) → hi ≡ r.poller.next_message_nonce)

  fail-Holds :
      (p : CanisterPoller P) (log : List (Relayed P)) (e : PollError) (gs : GatewayState D P)
      (o : Outcome (GatewayState D P)) (hi : ℕ)
      → Q log hi
      → Holds (fail D dec p log e gs o)
  fail-Holds p log e gs (done gs') hi h = (hi, h)
  fail-Holds p log e gs (panic m) hi h = (hi, h)

  run_round-Holds :
      (run : Run D P) (round : Round D P)
      → Keeps round
      → Q run.relayed run.poller.next_message_nonce
      → Holds (run_round D dec run round)
  unfolding run_round
  run_round-Holds run round keeps h =
      let (hi, says, ends) = keeps run.poller run.relayed h in
      elim (Result-cases (poll_and_relay run.poller round).result) [
        | inr (e, f) ↦
            rw (f, run_round)
              (fail-Holds (poll_and_relay run.poller round).poller _ e _
                (remove_failed_canister D dec (round.others run.gateway) run.poller.canister_id) hi
                says)
        | inl (u, f) ↦
            elim (removal-cases
              (remove_canister_if_empty D dec (round.others run.gateway)
                run.poller.canister_id).1) [
                  | inl g ↦ rw (f, run_round, g) (hi, says)
                  | inr g ↦ rw (f, run_round, g) (rw (← ends f) says)
                ]
      ]

  run_polling-Holds :
      (run : Run D P) (rounds : List (Round D P))
      → All Keeps rounds
      → Holds run
      → Holds (run_polling D dec run rounds)
  unfolding run_polling
  run_polling-Holds run [] keeps h = h
  run_polling-Holds run (round ∷ rounds) keeps h = elim (Progress-cases D dec run.progress) [
    | inl e ↦ subst Holds (sym (run_polling_on D dec run round rounds e)) (
        run_polling-Holds (run_round D dec run round) rounds keeps.1 (
          run_round-Holds run round keeps.0
            (Says-polling run.progress run.relayed run.poller.next_message_nonce e h)))
    | inr e ↦ subst Holds (sym (run_polling_off D dec run (round ∷ rounds) e)) h
  ]

  -- What holds of an empty log and is kept by every iteration holds of the log of a whole run.
  pub run_polling_keeps :
      (gs : GatewayState D P) (canister_id : P) (a : PollerState) (interval : ℕ)
      (rounds : List (Round D P))
      → All Keeps rounds
      → Q [] 0
      → (hi : ℕ) × Q
          (run_polling D dec (start_run D dec gs canister_id a interval) rounds).relayed
          hi
  unfolding new
  run_polling_keeps gs canister_id a interval rounds keeps h =
      let run = run_polling D dec (start_run D dec gs canister_id a interval) rounds in
      Says-end run.progress run.relayed run.poller.next_message_nonce
        (run_polling-Holds (start_run D dec gs canister_id a interval) rounds keeps h)
