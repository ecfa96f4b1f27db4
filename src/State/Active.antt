-- ===== src/State/Active.antt =====
-- gateway-state/src/lib.rs, `get_active_pollers_count`, over any history of calls.
use ic_websocket_gateway.Prelude.{ℕ, ◌+◌, ◌≡◌, refl, arith, List, [], ◌∷◌}
use ic_websocket_gateway.DashMap.{DashMap}
use ic_websocket_gateway.State.{
  GatewayState, PollerState, new, get_active_pollers_count,
  insert_client_channel_and_get_new_poller_state, remove_client, remove_client_if_exists,
  remove_canister_if_empty, remove_failed_canister,
}
use ic_websocket_gateway.State.Pollers.{
  Call, insert_client, remove, remove_if_exists, remove_if_empty, remove_failed, Event, started,
  ended, step, run,
}

module _ (D : DashMap) {P : Type 0} (dec : Discrete P) where
  abbrev is_start : Event P → ℕ
  is_start (started _) = 1
  is_start _ = 0

  abbrev is_end : Event P → ℕ
  is_end (ended _) = 1
  is_end _ = 0

  unfoldable pub all_starts : List (Event P) → ℕ
  all_starts [] = 0
  all_starts (e ∷ es) = is_start e + all_starts es

  unfoldable pub all_ends : List (Event P) → ℕ
  all_ends [] = 0
  all_ends (e ∷ es) = is_end e + all_ends es

  step_count :
      (gs : GatewayState D P) (call : Call P)
      → let (gs', e) = step D dec gs call in
        is_start e + get_active_pollers_count D dec gs
        ≡ is_end e + get_active_pollers_count D dec gs'
  unfolding step insert_client_channel_and_get_new_poller_state remove_client
      remove_client_if_exists remove_canister_if_empty remove_failed_canister
      get_active_pollers_count
  step_count gs (insert_client b k tx span) =
      ground (arith, D.len-insert dec b gs.next_address gs.inner_data)
  step_count gs (remove b k) = ground arith
  step_count gs (remove_if_exists b k) = ground arith
  step_count gs (remove_if_empty b) = ground (arith, D.len-remove dec b gs.inner_data)
  step_count gs (remove_failed b) = ground (arith, D.len-remove dec b gs.inner_data)

  run_count :
      (gs : GatewayState D P) (calls : List (Call P))
      → all_starts (run D dec gs calls).1 + get_active_pollers_count D dec gs
        ≡ all_ends (run D dec gs calls).1 + get_active_pollers_count D dec (run D dec gs calls).0
  unfolding run all_starts all_ends
  run_count gs [] = refl
  run_count gs (call ∷ calls) =
      omega (arith, step_count gs call, run_count (step D dec gs call).0 calls)

  none_active : get_active_pollers_count D dec (new D dec) ≡ 0
  unfolding new get_active_pollers_count
  none_active = D.len-new {V = PollerState} dec

  -- After any history of calls on a new gateway state, `get_active_pollers_count` is the number of
  -- pollers that sessions were told to start and that have not given up their entry, over all
  -- canisters together.
  pub active_pollers_counted :
      (calls : List (Call P))
      → let (gs, events) = run D dec (new D dec) calls in
        all_starts events ≡ all_ends events + get_active_pollers_count D dec gs
  active_pollers_counted calls = omega (arith, run_count (new D dec) calls, none_active)
