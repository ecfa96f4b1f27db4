-- ===== src/State.antt =====
-- src/gateway-state/src/lib.rs: the state that the tasks of the gateway share.
-- Each method holds a map's lock from its first access to its last, so it is one atomic step.
pub mod View
pub mod Directory
pub mod Refinement
pub mod Senders
pub mod Kept
pub mod Pollers
pub mod Active
pub mod Arrivals
pub mod Removal
pub mod Races
mod Tests
use ic_websocket_gateway.Prelude.{
  ℕ, suc, String, Option, none, some, Bool, true, false, Outcome, done, panic, ==_iff, ◌==◌,
  if◌then◌else◌,
}
use ic_websocket_gateway.DashMap.{DashMap}
use ic_websocket_gateway.CanisterUtils.{ClientKey, ClientKey-discrete}

-- The sending half of a client's channel, by the identity of the channel, and the session's span.
pub record ClientSender : Type 0 where
  pub sender : ℕ
  pub span : ℕ

-- `Arc<DashMap<ClientKey, ClientSender>>`: the address of a map that the gateway state shares with
-- the poller's task.
abbrev pub PollerState : Type 0
PollerState = ℕ

pub data ClientRemovalResult (P : Type 0) : Type 0 where
  removed : ClientKey P → ClientRemovalResult P
  vacant : ClientRemovalResult P

pub data CanisterRemovalResult : Type 0 where
  empty not_empty : CanisterRemovalResult

abbrev pub write {ℓ} : {A : Type ℓ} → ℕ → A → (ℕ → A) → ℕ → A
write a v f b = if b == a then v else f b

module _ (D : DashMap) (P : Type 0) where
  abbrev pub Clients : Type 0
  Clients = D.Map (ClientKey P) ClientSender

  -- The map from canisters to poller states (the field `data`), and the memory that the `Arc`s
  -- point to, with the next free address.
  pub record GatewayState : Type 0 where
    pub inner_data : D.Map P PollerState
    pub memory : PollerState → Clients
    pub next_address : PollerState

module _ (D : DashMap) {P : Type 0} (dec : Discrete P) where
  abbrev pub key_dec : Discrete (ClientKey P)
  key_dec = ClientKey-discrete dec

  unfoldable pub new : GatewayState D P
  new = record { inner_data = D.new dec; memory = λ _. D.new key_dec; next_address = 0 }

  -- The poller state that the gateway holds for a canister, and the clients of a poller state.
  abbrev pub entry : GatewayState D P → P → Option PollerState
  entry gs canister_id = D.get dec gs.inner_data canister_id

  abbrev pub client_at : GatewayState D P → PollerState → ClientKey P → Option ClientSender
  client_at gs address = D.get key_dec (gs.memory address)

  abbrev pub clients_len : GatewayState D P → PollerState → ℕ
  clients_len gs address = D.len key_dec (gs.memory address)

  module _ (gs : GatewayState D P) (canister_id : P) where
    open gs use {inner_data, memory, next_address}

    unfoldable pub insert_client_channel_and_get_new_poller_state :
        ClientKey P → ℕ → ℕ → GatewayState D P × Option PollerState
    insert_client_channel_and_get_new_poller_state client_key client_channel_tx span =
        let client : ClientSender = record { sender = client_channel_tx; span = span } in
        elim (entry gs canister_id) [
          | some address ↦
              let clients = D.insert key_dec client_key client (memory address) in
              (record gs { memory = write address clients memory }, none)
          | none ↦
              let clients = D.insert key_dec client_key client (D.new key_dec) in
              (
                record {
                  inner_data = D.insert dec canister_id next_address inner_data;
                  memory = write next_address clients memory;
                  next_address = suc next_address;
                },
                some next_address,
              )
        ]

    abbrev pub without : ClientKey P → PollerState → GatewayState D P
    without client_key address = record gs {
      memory = write address (D.remove key_dec client_key (memory address)) memory;
    }

    unfoldable pub remove_client : ClientKey P → Outcome (GatewayState D P)
    remove_client client_key = elim (entry gs canister_id) [
      | none ↦ done gs
      | some address ↦ elim (client_at gs address client_key) [
        | none ↦ panic "Client key not found in poller state"
        | some _ ↦ done (without client_key address)
      ]
    ]

    unfoldable pub remove_client_if_exists : ClientKey P → GatewayState D P × ClientRemovalResult P
    remove_client_if_exists client_key = elim (entry gs canister_id) [
      | none ↦ (gs, vacant)
      | some address ↦ elim (client_at gs address client_key) [
        | none ↦ (gs, vacant)
        | some _ ↦ (without client_key address, removed client_key)
      ]
    ]

    unfoldable pub remove_canister_if_empty : GatewayState D P × CanisterRemovalResult
    remove_canister_if_empty = elim (entry gs canister_id) [
      | none ↦ (gs, not_empty)
      | some address ↦
          if clients_len gs address == 0
          then (record gs { inner_data = D.remove dec canister_id inner_data }, empty)
          else (gs, not_empty)
    ]

    unfoldable pub remove_failed_canister : Outcome (GatewayState D P)
    remove_failed_canister = elim (entry gs canister_id) [
      | none ↦ panic "failed canister not found in gateway state"
      | some _ ↦ done (record gs { inner_data = D.remove dec canister_id inner_data })
    ]

  unfoldable pub get_active_pollers_count : GatewayState D P → ℕ
  get_active_pollers_count gs = D.len dec gs.inner_data
