-- ===== src/State/Arrivals.antt =====
-- Many clients that connect to one canister (the test
-- `should_insert_new_client_channels_and_get_new_poller_state_once` of gateway-state/src/lib.rs).
use ic_websocket_gateway.Prelude.{
  ℕ, suc, ◌+◌, ◌≡◌, ◌≢◌, Option, none, some, arith, ==_iff, List, [], ◌∷◌, length, All,
}
use ic_websocket_gateway.DashMap.{DashMap}
use ic_websocket_gateway.CanisterUtils.{ClientKey}
use ic_websocket_gateway.State.{
  GatewayState, ClientSender, PollerState, entry, client_at, key_dec, clients_len,
  insert_client_channel_and_get_new_poller_state,
}

abbrev pub Arrival : Type 0 → Type 0
Arrival P = ClientKey P × ℕ × ℕ

module _ {P : Type 0} where
  abbrev pub Distinct : List (Arrival P) → Type 0
  Distinct [] = Unit
  Distinct (e ∷ l) = All (λ f. f.0 ≢ e.0) l × Distinct l

module _ (D : DashMap) {P : Type 0} (dec : Discrete P) (canister_id : P) where
  unfoldable pub insert_all :
      GatewayState D P → List (Arrival P) → GatewayState D P × List (Option PollerState)
  insert_all gs [] = (gs, [])
  insert_all gs ((k, tx, span) ∷ l) =
      let (gs', started) =
        insert_client_channel_and_get_new_poller_state D dec gs canister_id k tx span in
      let (gs'', rest) = insert_all gs' l in (gs'', started ∷ rest)

  unfoldable pub pollers_started : List (Option PollerState) → ℕ
  pollers_started [] = 0
  pollers_started (none ∷ l) = pollers_started l
  pollers_started (some _ ∷ l) = suc (pollers_started l)

  -- What an insertion does to the poller state at `a`, if that is the entry afterwards.
  insert_at :
      (gs : GatewayState D P) (a : PollerState) (k : ClientKey P) (tx span : ℕ)
      → entry D dec gs canister_id ≡ some a
      → client_at D dec gs a k ≡ none
      → let (gs', started) =
          insert_client_channel_and_get_new_poller_state D dec gs canister_id k tx span in
        (started ≡ none)
        × (entry D dec gs' canister_id ≡ some a)
        × (clients_len D dec gs' a ≡ suc (clients_len D dec gs a))
  unfolding insert_client_channel_and_get_new_poller_state
  insert_at gs a k tx span e free = ground (
    arith,
    ==_iff a a,
    D.len-insert {V = ClientSender} (key_dec D dec) k (record { sender = tx; span = span })
        (gs.memory a),
  )

  insert_fresh :
      (gs : GatewayState D P) (a : PollerState) (k j : ClientKey P) (tx span : ℕ)
      → entry D dec gs canister_id ≡ some a
      → j ≢ k
      → client_at D dec gs a j ≡ none
      → client_at D dec
          (insert_client_channel_and_get_new_poller_state D dec gs canister_id k tx span).0
          a
          j
        ≡ none
  unfolding insert_client_channel_and_get_new_poller_state
  insert_fresh gs a k j tx span e ne free = ground (
    arith,
    ==_iff a a,
    D.get-insert {V = ClientSender} (key_dec D dec) k (record { sender = tx; span = span })
        (gs.memory a) j,
  )

  insert_fresh-All :
      (gs : GatewayState D P) (a : PollerState) (k : ClientKey P) (tx span : ℕ)
      (l : List (Arrival P))
      → entry D dec gs canister_id ≡ some a
      → All (λ f. f.0 ≢ k) l
      → All (λ f. client_at D dec gs a f.0 ≡ none) l
      → All
          (λ f.
            client_at D dec
              (insert_client_channel_and_get_new_poller_state D dec gs canister_id k tx span).0
              a
              f.0
            ≡ none)
          l
  insert_fresh-All gs a k tx span [] e ne free = tt
  insert_fresh-All gs a k tx span (f ∷ l) e ne free = (
    insert_fresh gs a k f.0 tx span e ne.0 free.0,
    insert_fresh-All gs a k tx span l e ne.1 free.1,
  )

  insert_all_occupied :
      (gs : GatewayState D P) (a : PollerState) (l : List (Arrival P))
      → entry D dec gs canister_id ≡ some a
      → Distinct l
      → All (λ f. client_at D dec gs a f.0 ≡ none) l
      → let (gs', starts) = insert_all gs l in
        (pollers_started starts ≡ 0)
        × (entry D dec gs' canister_id ≡ some a)
        × (clients_len D dec gs' a ≡ clients_len D dec gs a + length l)
  unfolding insert_all pollers_started
  insert_all_occupied gs a [] e d free = ground arith
  insert_all_occupied gs a ((k, tx, span) ∷ l) e d free =
      let (no_start, still, more) = insert_at gs a k tx span e free.0 in
      let rest =
        insert_all_occupied
          (insert_client_channel_and_get_new_poller_state D dec gs canister_id k tx span).0 a l
          still d.1 (insert_fresh-All gs a k tx span l e d.0 free.1) in
      (rw no_start rest.0, rest.1, omega arith)

  -- The first insertion, at the address that it allocates.
  insert_first :
      (gs : GatewayState D P) (k : ClientKey P) (tx span : ℕ)
      → entry D dec gs canister_id ≡ none
      → let (gs', started) =
          insert_client_channel_and_get_new_poller_state D dec gs canister_id k tx span in
        (started ≡ some gs.next_address)
        × (entry D dec gs' canister_id ≡ some gs.next_address)
        × (clients_len D dec gs' gs.next_address ≡ 1)
  unfolding insert_client_channel_and_get_new_poller_state
  insert_first gs k tx span e = ground (
    arith,
    ==_iff gs.next_address gs.next_address,
    D.get-insert dec canister_id gs.next_address gs.inner_data canister_id,
    D.len-insert {V = ClientSender} (key_dec D dec) k (record { sender = tx; span = span })
        (D.new (key_dec D dec)),
    D.get-new {V = ClientSender} (key_dec D dec) k,
    D.len-new {V = ClientSender} (key_dec D dec),
  )

  insert_first-All :
      (gs : GatewayState D P) (k : ClientKey P) (tx span : ℕ) (l : List (Arrival P))
      → entry D dec gs canister_id ≡ none
      → All (λ f. f.0 ≢ k) l
      → All
          (λ f.
            client_at D dec
              (insert_client_channel_and_get_new_poller_state D dec gs canister_id k tx span).0
              gs.next_address
              f.0
            ≡ none)
          l
  unfolding insert_client_channel_and_get_new_poller_state
  insert_first-All gs k tx span [] e ne = tt
  insert_first-All gs k tx span (f ∷ l) e ne = (
    ground (
      arith,
      ==_iff gs.next_address gs.next_address,
      D.get-insert {V = ClientSender} (key_dec D dec) k (record { sender = tx; span = span })
          (D.new (key_dec D dec)) f.0,
      D.get-new {V = ClientSender} (key_dec D dec) f.0,
    ),
    insert_first-All gs k tx span l e ne.1,
  )

  -- If clients with distinct keys connect, one after another, to a canister that has no entry,
  -- then exactly one of them is told to start a poller, and the canister's poller state then
  -- counts all of them.
  pub arrivals_start_one_poller :
      (gs : GatewayState D P) (e : Arrival P) (l : List (Arrival P))
      → entry D dec gs canister_id ≡ none
      → Distinct (e ∷ l)
      → let (gs', starts) = insert_all gs (e ∷ l) in
        (pollers_started starts ≡ 1)
        × (a : PollerState) × (entry D dec gs' canister_id ≡ some a)
        × (clients_len D dec gs' a ≡ length (e ∷ l))
  unfolding insert_all pollers_started
  arrivals_start_one_poller gs (k, tx, span) l vacant d =
      let (first, made, one) = insert_first gs k tx span vacant in
      let (later, still, more) =
        insert_all_occupied
          (insert_client_channel_and_get_new_poller_state D dec gs canister_id k tx span).0
          gs.next_address l made d.1 (insert_first-All gs k tx span l vacant d.0) in
      (rw first (omega arith), gs.next_address, still, omega arith)
