-- ===== src/State/Races.antt =====
-- gateway-state/src/lib.rs: when `remove_client` comes to its `unreachable!`.
use ic_websocket_gateway.Prelude.{
  ◌≡◌, refl, ap, Option, none, some, ite, arith, Outcome, done, panic, inl, inr, Option-cases,
  if_pos, String,
}
use ic_websocket_gateway.DashMap.{DashMap}
use ic_websocket_gateway.CanisterUtils.{ClientKey}
use ic_websocket_gateway.State.{
  GatewayState, ClientSender, entry, client_at, key_dec, remove_client, remove_failed_canister,
}
use ic_websocket_gateway.State.View.{Directory, view, IsWellFormed}
use ic_websocket_gateway.State.Directory.{put, drop_client, drop_canister, clients_of, Ends}
use ic_websocket_gateway.State.Refinement.{remove_client_refines, remove_failed_canister_refines}

module _ (D : DashMap) {P : Type 0} (dec : Discrete P) where
  Ends-panic : (o : Outcome (GatewayState D P)) (m : String) → Ends D dec o (panic m) → o ≡ panic m
  Ends-panic (done gs) m h = elim h [ ]
  Ends-panic (panic m') m h = ap panic h

  pub absent_panics :
      (gs : GatewayState D P) (c : P) (k : ClientKey P) (f : ClientKey P → Option ClientSender)
      → IsWellFormed D dec gs
      → view D dec gs c ≡ some f
      → f k ≡ none
      → remove_client D dec gs c k ≡ panic "Client key not found in poller state"
  absent_panics gs c k f wf here gone = elim (Option-cases (entry D dec gs c)) [
    | inl none_there ↦ absurd (ground arith)
    | inr (a, at) ↦
        let missing : client_at D dec gs a k ≡ none = ground arith in
        Ends-panic (remove_client D dec gs c k) "Client key not found in poller state"
          (rw (at, missing) at (remove_client_refines D dec gs wf c k))
  ]

  pub put_clients :
      (d : Directory P) (c : P) (k : ClientKey P) (v : ClientSender)
      → put D dec d c k v c ≡ some (λ j. ite (key_dec D dec j k) (some v) (clients_of (d c) j))
  put_clients d c k v = if_pos (dec c c) refl _ (d c)

  pub drop_clients :
      (d : Directory P) (c : P) (k : ClientKey P)
      → drop_client D dec d c k c ≡ some (λ j. ite (key_dec D dec j k) none (clients_of (d c) j))
  drop_clients d c k = if_pos (dec c c) refl _ (d c)

  pub failed_view :
      (gs gs' : GatewayState D P) (c : P)
      → IsWellFormed D dec gs
      → remove_failed_canister D dec gs c ≡ done gs'
      → (view D dec gs' ≡ drop_canister D dec (view D dec gs) c) × IsWellFormed D dec gs'
  failed_view gs gs' c wf failed = elim (Option-cases (entry D dec gs c)) [
    | inl gone ↦ absurd (rw (failed, gone) at (remove_failed_canister_refines D dec gs wf c))
    | inr (a, at) ↦ rw (failed, at) at (remove_failed_canister_refines D dec gs wf c)
  ]
