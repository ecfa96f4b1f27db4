-- ===== src/Poller/Loop.antt =====
-- canister_poller.rs, `run_polling`: the loop of the poller's task.
use ic_websocket_gateway.Prelude.{
  ◌+◌, ◌%◌, Bool, true, false, List, [], ◌∷◌, ◌++◌, if◌then◌else◌, Result, ok, err, Outcome, done,
  panic,
}
use ic_websocket_gateway.DashMap.{DashMap}
use ic_websocket_gateway.State.{
  GatewayState, remove_canister_if_empty, remove_failed_canister, empty, not_empty,
}
use ic_websocket_gateway.Poller.Nonce.{u64_mod}
use ic_websocket_gateway.Poller.{CanisterPoller, Round, Relayed, PollError, poll_and_relay}

-- How far `run_polling` has come: it is still polling, it has returned, or it has panicked.
pub data Progress : Type 0 where
  polling : Progress
  returned : Result (Unit {0}) PollError → Progress
  panicked : Progress

-- The poller, the gateway state and everything relayed so far.
pub record Run (D : DashMap) (P : Type 0) : Type 0 where
  pub poller : CanisterPoller P
  pub gateway : GatewayState D P
  pub relayed : List (Relayed P)
  pub progress : Progress

module _ (D : DashMap) {P : Type 0} (dec : Discrete P) where
  -- The poller's last act on an error: it gives up the canister's entry.
  abbrev pub fail :
      CanisterPoller P
      → List (Relayed P)
      → PollError
      → GatewayState D P
      → Outcome (GatewayState D P)
      → Run D P
  fail p log e gs (done gs') = record {
    poller = p;
    gateway = gs';
    relayed = log;
    progress = returned (err e);
  }
  fail p log e gs (panic _) = record {
    poller = p;
    gateway = gs;
    relayed = log;
    progress = panicked;
  }

  -- One turn of the loop of `run_polling`.
  unfoldable pub run_round : Run D P → Round D P → Run D P
  run_round run round =
      let polled = poll_and_relay run.poller round in
      let log = run.relayed ++ polled.relayed in
      let gs = round.others run.gateway in
      let canister_id = run.poller.canister_id in
      elim polled.result [
        | err e ↦ fail polled.poller log e gs (remove_failed_canister D dec gs canister_id)
        | ok _ ↦
            let (gs', removal) = remove_canister_if_empty D dec gs canister_id in
            elim removal [
              | empty ↦ record {
                poller = polled.poller;
                gateway = gs';
                relayed = log;
                progress = returned (ok tt);
              }
              | not_empty ↦ record {
                poller = record polled.poller {
                  polling_iteration = (polled.poller.polling_iteration + 1) % u64_mod;
                };
                gateway = gs';
                relayed = log;
                progress = polling;
              }
            ]
      ]

  abbrev pub is_polling : Progress → Bool
  is_polling polling = true
  is_polling _ = false

  -- The loop over the rounds that its surroundings make; it stops where the source returns.
  unfoldable pub run_polling : Run D P → List (Round D P) → Run D P
  run_polling run [] = run
  run_polling run (round ∷ rounds) =
      let rest = run_polling (run_round run round) rounds in
      if is_polling run.progress then rest else run
