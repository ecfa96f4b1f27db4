-- ===== src/State/Pollers.antt =====
-- Which calls on the gateway state tell a session to start a poller, over any history of calls.
use ic_websocket_gateway.Prelude.{
  ℕ, ◌+◌, ◌≤◌, ◌≡◌, refl, Option, none, some, ite, arith, Outcome, done, panic, List, [], ◌∷◌,
}
use ic_websocket_gateway.DashMap.{DashMap}
use ic_websocket_gateway.CanisterUtils.{ClientKey}
use ic_websocket_gateway.State.{
  GatewayState, PollerState, entry, new, insert_client_channel_and_get_new_poller_state,
  remove_client, remove_client_if_exists, CanisterRemovalResult, empty, not_empty,
  remove_canister_if_empty, remove_failed_canister,
}

-- A call that some task makes on the gateway state.
pub data Call (P : Type 0) : Type 0 where
  insert_client : (canister_id : P) → ClientKey P → (tx span : ℕ) → Call P
  remove : (canister_id : P) → ClientKey P → Call P
  remove_if_exists : (canister_id : P) → ClientKey P → Call P
  remove_if_empty : (canister_id : P) → Call P
  remove_failed : (canister_id : P) → Call P

-- What the call tells its caller about pollers: to start one for a canister, or that the one of a
-- canister has given up its entry.
pub data Event (P : Type 0) : Type 0 where
  started ended : P → Event P
  other : Event P

module _ (D : DashMap) {P : Type 0} (dec : Discrete P) where
  abbrev started_by : P → Option PollerState → Event P
  started_by c none = other
  started_by c (some _) = started c

  abbrev ended_by : P → CanisterRemovalResult → Event P
  ended_by c empty = ended c
  ended_by c not_empty = other

  -- A call that panics leaves the state as it was.
  abbrev recover :
      GatewayState D P → Outcome (GatewayState D P) → Event P → GatewayState D P × Event P
  recover gs (done gs') e = (gs', e)
  recover gs (panic _) e = (gs, other)

  unfoldable pub step : GatewayState D P → Call P → GatewayState D P × Event P
  step gs (insert_client c k tx span) =
      let (gs', new_poller_state) =
        insert_client_channel_and_get_new_poller_state D dec gs c k tx span in
      (gs', started_by c new_poller_state)
  step gs (remove c k) = recover gs (remove_client D dec gs c k) other
  step gs (remove_if_exists c k) = ((remove_client_if_exists D dec gs c k).0, other)
  step gs (remove_if_empty c) =
      let (gs', result) = remove_canister_if_empty D dec gs c in (gs', ended_by c result)
  step gs (remove_failed c) = recover gs (remove_failed_canister D dec gs c) (ended c)

  unfoldable pub run : GatewayState D P → List (Call P) → GatewayState D P × List (Event P)
  run gs [] = (gs, [])
  run gs (call ∷ calls) =
      let (gs', e) = step gs call in let (gs'', es) = run gs' calls in (gs'', e ∷ es)

  -- Weights of an event, for one canister.
  abbrev starts_one : P → Event P → ℕ
  starts_one c (started b) = ite (dec c b) 1 0
  starts_one c (ended b) = 0
  starts_one c other = 0

  abbrev ends_one : P → Event P → ℕ
  ends_one c (started b) = 0
  ends_one c (ended b) = ite (dec c b) 1 0
  ends_one c other = 0

  unfoldable pub starts : P → List (Event P) → ℕ
  starts c [] = 0
  starts c (e ∷ es) = starts_one c e + starts c es

  unfoldable pub ends : P → List (Event P) → ℕ
  ends c [] = 0
  ends c (e ∷ es) = ends_one c e + ends c es

  abbrev pub occupied : GatewayState D P → P → ℕ
  occupied gs c = elim (entry D dec gs c) [ none ↦ 0 | some _ ↦ 1 ]

  step_balance :
      (gs : GatewayState D P) (call : Call P) (c : P)
      → let (gs', e) = step gs call in
        starts_one c e + occupied gs c ≡ ends_one c e + occupied gs' c
  unfolding step insert_client_channel_and_get_new_poller_state remove_client
      remove_client_if_exists remove_canister_if_empty remove_failed_canister
  step_balance gs (insert_client b k tx span) c =
      ground (arith, D.get-insert dec b gs.next_address gs.inner_data c)
  step_balance gs (remove b k) c = ground arith
  step_balance gs (remove_if_exists b k) c = ground arith
  step_balance gs (remove_if_empty b) c = ground (arith, D.get-remove dec b gs.inner_data c)
  step_balance gs (remove_failed b) c = ground (arith, D.get-remove dec b gs.inner_data c)

  run_balance :
      (gs : GatewayState D P) (calls : List (Call P)) (c : P)
      → starts c (run gs calls).1 + occupied gs c
        ≡ ends c (run gs calls).1 + occupied (run gs calls).0 c
  unfolding run starts ends
  run_balance gs [] c = refl
  run_balance gs (call ∷ calls) c =
      omega (arith, step_balance gs call c, run_balance (step gs call).0 calls c)

  occupied-new : (c : P) → occupied (new D dec) c ≡ 0
  unfolding new
  occupied-new c = rw (D.get-new {V = PollerState} dec c, occupied)

  occupied-le : (gs : GatewayState D P) (c : P) → occupied gs c ≤ 1
  occupied-le gs c = ground arith

  -- After any history of calls on a new gateway state, and for each canister, the number of
  -- pollers that sessions were told to start is the number of entries that pollers gave up, plus
  -- one if the canister has an entry now: so no two pollers serve a canister at a time.
  pub one_poller_per_canister :
      (calls : List (Call P)) (c : P)
      → let (gs, events) = run (new D dec) calls in
        (starts c events ≡ ends c events + occupied gs c) × (starts c events ≤ ends c events + 1)
  one_poller_per_canister calls c = omega (
    arith,
    run_balance (new D dec) calls c,
    occupied-new c,
    occupied-le (run (new D dec) calls).0 c,
  )
