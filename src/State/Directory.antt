-- ===== src/State/Directory.antt =====
-- gateway-state/src/lib.rs: the operations on the directory of clients, which the methods refine.
use ic_websocket_gateway.Prelude.{
  ◌≡◌, ◌↔◌, ap, fun_ext, Option, none, some, ite, Outcome, done, panic,
}
use ic_websocket_gateway.DashMap.{DashMap}
use ic_websocket_gateway.CanisterUtils.{ClientKey}
use ic_websocket_gateway.State.{GatewayState, ClientSender, key_dec}
use ic_websocket_gateway.State.View.{Directory, view, IsWellFormed}

-- The clients of a canister, of which there are none without an entry.
abbrev pub clients_of {ℓ} : {K V : Type ℓ} → Option (K → Option V) → K → Option V
clients_of none k = none
clients_of (some f) k = f k

module _ (D : DashMap) {P : Type 0} (dec : Discrete P) where
  abbrev pub put : Directory P → P → ClientKey P → ClientSender → Directory P
  put d canister_id client_key client c =
      ite (dec c canister_id)
        (some (λ k. ite (key_dec D dec k client_key) (some client) (clients_of (d c) k))) (d c)

  abbrev pub drop_client : Directory P → P → ClientKey P → Directory P
  drop_client d canister_id client_key c =
      ite (dec c canister_id)
        (some (λ k. ite (key_dec D dec k client_key) none (clients_of (d c) k))) (d c)

  abbrev pub drop_canister : Directory P → P → Directory P
  drop_canister d canister_id c = ite (dec c canister_id) none (d c)

  -- A call of a method that may panic ends as the specification says, in a well-formed state.
  abbrev pub Ends : Outcome (GatewayState D P) → Outcome (Directory P) → Type 0
  Ends (done gs) (done d) = (view D dec gs ≡ d) × IsWellFormed D dec gs
  Ends (panic m) (panic m') = m ≡ m'
  Ends _ _ = ⊥

  pub get-insert_all :
      (k : ClientKey P) (v : ClientSender) (m : D.Map (ClientKey P) ClientSender)
      → D.get (key_dec D dec) (D.insert (key_dec D dec) k v m)
        ≡ (λ j. ite (key_dec D dec j k) (some v) (D.get (key_dec D dec) m j))
  get-insert_all k v m = fun_ext λ j. D.get-insert (key_dec D dec) k v m j

  pub get-remove_all :
      (k : ClientKey P) (m : D.Map (ClientKey P) ClientSender)
      → D.get (key_dec D dec) (D.remove (key_dec D dec) k m)
        ≡ (λ j. ite (key_dec D dec j k) none (D.get (key_dec D dec) m j))
  get-remove_all k m = fun_ext λ j. D.get-remove (key_dec D dec) k m j

  pub get-insert_new :
      (k : ClientKey P) (v : ClientSender)
      → D.get (key_dec D dec) (D.insert (key_dec D dec) k v (D.new (key_dec D dec)))
        ≡ (λ j. ite (key_dec D dec j k) (some v) none)
  get-insert_new k v = fun_ext λ j.
      rw (D.get-insert (key_dec D dec) k v (D.new (key_dec D dec)) j, D.get-new (key_dec D dec) j)

  pub len-eq-zero_all :
      (m : D.Map (ClientKey P) ClientSender)
      → (D.len (key_dec D dec) m ≡ 0) ↔ (D.get (key_dec D dec) m ≡ (λ _. none))
  len-eq-zero_all m = (
    λ h. fun_ext ((D.len-eq-zero_iff (key_dec D dec) m).0 h),
    λ h. (D.len-eq-zero_iff (key_dec D dec) m).1 (λ k. ap (λ f. f k) h),
  )
