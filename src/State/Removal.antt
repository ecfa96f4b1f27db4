-- ===== src/State/Removal.antt =====
-- gateway-state/src/lib.rs: the removal of a client that is there, as a step between states.
use ic_websocket_gateway.Prelude.{
  ◌≡◌, refl, inl, inr, some, arith, Outcome, done, panic, Option-cases,
}
use ic_websocket_gateway.DashMap.{DashMap}
use ic_websocket_gateway.CanisterUtils.{ClientKey}
use ic_websocket_gateway.State.{GatewayState, ClientSender, entry, client_at, remove_client}
use ic_websocket_gateway.State.View.{Directory, view, IsWellFormed}
use ic_websocket_gateway.State.Directory.{put, drop_client, clients_of, Ends}
use ic_websocket_gateway.State.Refinement.{remove_client_refines}

module _ (D : DashMap) {P : Type 0} (dec : Discrete P) where
  Ends-done :
      (o : Outcome (GatewayState D P)) (d : Directory P)
      → Ends D dec o (done d)
      → (gs : GatewayState D P) × (o ≡ done gs) × (view D dec gs ≡ d) × IsWellFormed D dec gs
  Ends-done (done gs) d h = (gs, refl, h.0, h.1)
  Ends-done (panic m) d h = elim h [ ]

  -- A client that is there can be removed, without a panic.
  pub remove_present :
      (gs : GatewayState D P) (c : P) (k : ClientKey P) (v : ClientSender)
      → IsWellFormed D dec gs
      → clients_of (view D dec gs c) k ≡ some v
      → (gs' : GatewayState D P) × (remove_client D dec gs c k ≡ done gs')
        × (view D dec gs' ≡ drop_client D dec (view D dec gs) c k)
        × IsWellFormed D dec gs'
  remove_present gs c k v wf e = elim (Option-cases (entry D dec gs c)) [
    | inl gone ↦ absurd (ground arith)
    | inr (a, here) ↦
        let there : client_at D dec gs a k ≡ some v = ground arith in
        Ends-done (remove_client D dec gs c k) (drop_client D dec (view D dec gs) c k)
          (rw (here, there) at (remove_client_refines D dec gs wf c k))
  ]

  -- A client that has just been put is there.
  pub put_present :
      (d : Directory P) (c : P) (k : ClientKey P) (v : ClientSender)
      → clients_of (put D dec d c k v c) k ≡ some v
  put_present d c k v = ground arith
