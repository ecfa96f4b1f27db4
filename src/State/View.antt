-- ===== src/State/View.antt =====
-- What the gateway state means: for each canister with an entry, which clients it has.
-- Poller states are shared by address, so this needs that no two canisters share one.
use ic_websocket_gateway.Prelude.{
  suc, ◌<◌, ◌≡◌, fun_ext, Option, none, some, ite, arith, Option-cases, ==_iff, inl, inr,
}
use ic_websocket_gateway.DashMap.{DashMap}
use ic_websocket_gateway.CanisterUtils.{ClientKey}
use ic_websocket_gateway.State.{
  GatewayState, ClientSender, PollerState, write, entry, client_at, key_dec, new,
}

-- The abstract state: a canister with a poller has a finite map of clients, as a function.
abbrev pub Directory : Type 0 → Type 0
Directory P = P → Option (ClientKey P → Option ClientSender)

module _ (D : DashMap) {P : Type 0} (dec : Discrete P) where
  abbrev pub view : GatewayState D P → Directory P
  view gs canister_id = elim (entry D dec gs canister_id) [
    | none ↦ none
    | some address ↦ some (client_at D dec gs address)
  ]

  -- Addresses are allocated below `next_address`, and each canister has its own.
  pub record IsWellFormed (gs : GatewayState D P) : Type 0 where
    pub allocated : (c : P) (a : PollerState) → entry D dec gs c ≡ some a → a < gs.next_address
    pub unshared :
        (b c : P) (a : PollerState) → entry D dec gs b ≡ some a → entry D dec gs c ≡ some a → b ≡ c

  module _ (gs : GatewayState D P) (wf : IsWellFormed gs) (canister_id : P) where
    -- A write to the poller state of one canister shows at this canister only.
    pub view-write :
        (address : PollerState) (m : D.Map (ClientKey P) ClientSender)
        → entry D dec gs canister_id ≡ some address
        → (c : P)
        → view (record gs { memory = write address m gs.memory }) c
          ≡ ite (dec c canister_id) (some (D.get (key_dec D dec) m)) (view gs c)
    view-write address m at c = elim (Option-cases (entry D dec gs c)) [
      | inl e ↦ ground arith
      | inr (a, e) ↦ ground (arith, wf.unshared c canister_id a, ==_iff a address)
    ]

  pub IsWellFormed-write :
      (gs : GatewayState D P) (address : PollerState) (m : D.Map (ClientKey P) ClientSender)
      → IsWellFormed gs
      → IsWellFormed (record gs { memory = write address m gs.memory })
  IsWellFormed-write gs address m wf = record { allocated = wf.allocated; unshared = wf.unshared }

  -- An entry for a new canister, at a fresh address.
  pub IsWellFormed-grow :
      (gs : GatewayState D P) (c : P) (m : D.Map (ClientKey P) ClientSender)
      → IsWellFormed gs
      → IsWellFormed (record {
        inner_data = D.insert dec c gs.next_address gs.inner_data;
        memory = write gs.next_address m gs.memory;
        next_address = suc gs.next_address;
      })
  IsWellFormed-grow gs c m wf = record {
    allocated = λ b a h.
        ground (arith, D.get-insert dec c gs.next_address gs.inner_data b, wf.allocated b a);
    unshared = λ b d a h k. ground (
      arith,
      D.get-insert dec c gs.next_address gs.inner_data b,
      D.get-insert dec c gs.next_address gs.inner_data d,
      wf.allocated b a,
      wf.allocated d a,
      wf.unshared b d a,
    );
  }

  pub IsWellFormed-shrink :
      (gs : GatewayState D P) (c : P)
      → IsWellFormed gs
      → IsWellFormed (record gs { inner_data = D.remove dec c gs.inner_data })
  IsWellFormed-shrink gs c wf = record {
    allocated = λ b a h. ground (arith, D.get-remove dec c gs.inner_data b, wf.allocated b a);
    unshared = λ b d a h k. ground (
      arith,
      D.get-remove dec c gs.inner_data b,
      D.get-remove dec c gs.inner_data d,
      wf.unshared b d a,
    );
  }

  -- A new gateway has no canister.
  pub view-new : view (new D dec) ≡ (λ _. none)
  unfolding new
  view-new = fun_ext λ c. rw (D.get-new dec c, view)

  pub new-IsWellFormed : IsWellFormed (new D dec)
  unfolding new
  new-IsWellFormed = record {
    allocated = λ c a h. ground (arith, D.get-new {V = PollerState} dec c);
    unshared = λ b c a h k. ground (arith, D.get-new {V = PollerState} dec b);
  }
