-- ===== src/Poller/Termination.antt =====
-- canister_poller.rs, `run_polling`: when a poller ends, and what becomes of its canister's entry.
use ic_websocket_gateway.Prelude.{
  ℕ, ◌≡◌, ◌≢◌, refl, ap, sym, subst, ◌∙◌, inl, inr, Option, none, some, List, [], ◌∷◌, arith, ok,
  err, All, if◌then◌else◌, ◌==◌,
}
use ic_websocket_gateway.DashMap.{DashMap}
use ic_websocket_gateway.State.{
  GatewayState, PollerState, entry, clients_len, remove_canister_if_empty, remove_failed_canister,
}
use ic_websocket_gateway.Poller.Log.{Progress-cases, run_polling_on, run_polling_off, start_run}
use ic_websocket_gateway.Poller.{CanisterPoller, Round, new, poll_and_relay, relay_batch}
use ic_websocket_gateway.Poller.Loop.{
  Run, Progress, polling, returned, panicked, run_round, run_polling,
}

module _ {D : DashMap} {P : Type 0} where
  poll_and_relay_canister_id :
      (p : CanisterPoller P) (round : Round D P)
      → (poll_and_relay p round).poller.canister_id ≡ p.canister_id
  unfolding poll_and_relay relay_batch
  poll_and_relay_canister_id p round = ground arith

module _ (D : DashMap) {P : Type 0} (dec : Discrete P) where
  -- The entry that a canister has while its poller is at the given point.
  abbrev pub entry_while : Progress → PollerState → Option PollerState
  entry_while polling a = some a
  entry_while (returned _) a = none
  entry_while panicked a = some a

  removed_entry :
      (gs : GatewayState D P) (c : P) → D.get dec (D.remove dec c gs.inner_data) c ≡ none
  removed_entry gs c = ground (arith, D.get-remove dec c gs.inner_data c)

  -- One turn of the loop, if the canister has its entry when the iteration is over. An error of the
  -- iteration ends the poller with this error; otherwise it ends if the canister has no client
  -- left, and goes on if it has. The entry is removed exactly if the poller ends.
  pub run_round_ends :
      (run : Run D P) (round : Round D P) (a : PollerState)
      → entry D dec (round.others run.gateway) run.poller.canister_id ≡ some a
      → let run' = run_round D dec run round in
        (run'.progress ≡ (elim (poll_and_relay run.poller round).result [
          | err e ↦ returned (err e)
          | ok _ ↦
              if clients_len D dec (round.others run.gateway) a == 0
              then returned (ok tt)
              else polling
        ]))
        × (entry D dec run'.gateway run.poller.canister_id ≡ entry_while run'.progress a)
        × (run'.poller.canister_id ≡ run.poller.canister_id)
  unfolding run_round remove_canister_if_empty remove_failed_canister
  run_round_ends run round a e = ground (
    arith,
    removed_entry (round.others run.gateway) run.poller.canister_id,
    poll_and_relay_canister_id run.poller round,
  )

  -- The other tasks leave the canister its entry.
  abbrev pub KeepsEntry : P → PollerState → Round D P → Type 0
  KeepsEntry c a round =
      (gs : GatewayState D P) → entry D dec gs c ≡ some a → entry D dec (round.others gs) c ≡ some a

  module _ (c : P) (a : PollerState) where
    record IsSettled (run : Run D P) : Type 0 where
      same : run.poller.canister_id ≡ c
      held : entry D dec run.gateway c ≡ entry_while run.progress a
      alive : run.progress ≢ panicked

    run_round-IsSettled :
        (run : Run D P) (round : Round D P)
        → KeepsEntry c a round
        → run.progress ≡ polling
        → IsSettled run
        → IsSettled (run_round D dec run round)
    run_round-IsSettled run round keeps on s =
        let here : entry D dec run.gateway c ≡ some a = s.held ∙ ap (λ g. entry_while g a) on in
        let kept : entry D dec (round.others run.gateway) run.poller.canister_id ≡ some a =
          rw s.same (keeps run.gateway here) in
        let (ends, removed, id) = run_round_ends run round a kept in
        record {
          same = id ∙ s.same;
          held =
              subst
                (λ x.
                  entry D dec (run_round D dec run round).gateway x
                  ≡ entry_while (run_round D dec run round).progress a)
                s.same removed;
          alive = λ p. ground arith;
        }

    run_polling-IsSettled :
        (run : Run D P) (rounds : List (Round D P))
        → All (KeepsEntry c a) rounds
        → IsSettled run
        → IsSettled (run_polling D dec run rounds)
    unfolding run_polling
    run_polling-IsSettled run [] keeps s = s
    run_polling-IsSettled run (round ∷ rounds) keeps s = elim (Progress-cases D dec run.progress) [
      | inl e ↦ subst IsSettled (sym (run_polling_on D dec run round rounds e)) (
          run_polling-IsSettled (run_round D dec run round) rounds keeps.1
            (run_round-IsSettled run round keeps.0 e s))
      | inr e ↦ subst IsSettled (sym (run_polling_off D dec run (round ∷ rounds) e)) s
    ]

  -- A poller that starts with its canister's entry in place, beside tasks that leave the entry
  -- alone, never panics, however many iterations it makes: the entry stays while it polls, and is
  -- gone as soon as it has returned, with an error or without.
  pub run_polling-entry :
      (gs : GatewayState D P) (c : P) (a : PollerState) (interval : ℕ) (rounds : List (Round D P))
      → entry D dec gs c ≡ some a
      → All (KeepsEntry c a) rounds
      → let run = run_polling D dec (start_run D dec gs c a interval) rounds in
        (run.progress ≢ panicked) × (entry D dec run.gateway c ≡ entry_while run.progress a)
  unfolding new
  run_polling-entry gs c a interval rounds e keeps =
      let s =
        run_polling-IsSettled c a (start_run D dec gs c a interval) rounds keeps
          (record { same = refl; held = e; alive = λ p. cc }) in
      (s.alive, s.held)
