-- ===== src/Gateway/Rounds.antt =====
-- What the end of a poller's iteration does to the entries of the gateway state.
use ic_websocket_gateway.Prelude.{◌≡◌, ◌≢◌, inl, inr, some, arith, ok, err, Result-cases}
use ic_websocket_gateway.DashMap.{DashMap}
use ic_websocket_gateway.State.{
  PollerState, entry, remove_canister_if_empty, remove_failed_canister,
}
use ic_websocket_gateway.State.View.{IsWellFormed, IsWellFormed-shrink}
use ic_websocket_gateway.State.Refinement.{remove_canister_if_empty_refines}
use ic_websocket_gateway.Poller.{PollError, CanisterPoller, Round, poll_and_relay, relay_batch}
use ic_websocket_gateway.Poller.Loop.{Run, panicked, run_round}
use ic_websocket_gateway.Poller.Termination.{run_round_ends, entry_while}

module _ {D : DashMap} {P : Type 0} where
  poll_and_relay-poller_state :
      (p : CanisterPoller P) (round : Round D P)
      → (poll_and_relay p round).poller.poller_state ≡ p.poller_state
  unfolding poll_and_relay relay_batch
  poll_and_relay-poller_state p round = ground arith

module _ (D : DashMap) {P : Type 0} (dec : Discrete P) (run : Run D P) (round : Round D P) where
  run_round-poller_state : (run_round D dec run round).poller.poller_state ≡ run.poller.poller_state
  unfolding run_round
  run_round-poller_state = ground (arith, poll_and_relay-poller_state run.poller round)

  run_round_elsewhere :
      (b : P)
      → b ≢ run.poller.canister_id
      → entry D dec (run_round D dec run round).gateway b ≡ entry D dec (round.others run.gateway) b
  unfolding run_round remove_canister_if_empty remove_failed_canister
  run_round_elsewhere b ne =
      ground
        (arith, D.get-remove dec run.poller.canister_id (round.others run.gateway).inner_data b)

  pub gateway_fine :
      (poll_and_relay run.poller round).result ≡ ok tt
      → (run_round D dec run round).gateway
        ≡ (remove_canister_if_empty D dec (round.others run.gateway) run.poller.canister_id).0
  unfolding run_round
  gateway_fine f = ground arith

  pub gateway_failed :
      (e : PollError) (a : PollerState)
      → (poll_and_relay run.poller round).result ≡ err e
      → entry D dec (round.others run.gateway) run.poller.canister_id ≡ some a
      → (run_round D dec run round).gateway ≡ (
          let gs = round.others run.gateway in
          record gs { inner_data = D.remove dec run.poller.canister_id gs.inner_data })
  unfolding run_round remove_failed_canister
  gateway_failed e a f here = ground arith

  run_round-IsWellFormed :
      (a : PollerState)
      → entry D dec (round.others run.gateway) run.poller.canister_id ≡ some a
      → IsWellFormed D dec (round.others run.gateway)
      → IsWellFormed D dec (run_round D dec run round).gateway
  run_round-IsWellFormed a here wf =
      let gs = round.others run.gateway in
      let c = run.poller.canister_id in
      elim (Result-cases (poll_and_relay run.poller round).result) [
        | inr (e, f) ↦ rw (gateway_failed e a f here) (IsWellFormed-shrink D dec gs c wf)
        | inl (u, f) ↦ rw (gateway_fine f) (remove_canister_if_empty_refines D dec gs wf c).0
      ]

  -- The poller ends without a panic, and takes its entry with it, or it goes on and its entry stays;
  -- no other canister is concerned.
  pub record Ending (a : PollerState) : Type 0 where
    pub wf : IsWellFormed D dec (run_round D dec run round).gateway
    pub held :
        entry D dec (run_round D dec run round).gateway run.poller.canister_id
        ≡ entry_while D dec (run_round D dec run round).progress a
    pub elsewhere :
        (b : P)
        → b ≢ run.poller.canister_id
        → entry D dec (run_round D dec run round).gateway b
          ≡ entry D dec (round.others run.gateway) b
    pub same : (run_round D dec run round).poller.canister_id ≡ run.poller.canister_id
    pub same_state : (run_round D dec run round).poller.poller_state ≡ run.poller.poller_state
    pub alive : (run_round D dec run round).progress ≢ panicked

  pub run_round-Ending :
      (a : PollerState)
      → entry D dec (round.others run.gateway) run.poller.canister_id ≡ some a
      → IsWellFormed D dec (round.others run.gateway)
      → Ending a
  run_round-Ending a here wf =
      let (progress, held, same) = run_round_ends D dec run round a here in
      record {
        wf = run_round-IsWellFormed a here wf;
        held = held;
        elsewhere = run_round_elsewhere;
        same = same;
        same_state = run_round-poller_state;
        alive = λ p. ground arith;
      }
