-- ===== src/State/Senders.antt =====
-- gateway-state/src/lib.rs: which sending halves of channels the gateway state holds, and that only
-- an insertion adds one.
use ic_websocket_gateway.Prelude.{
  ℕ, ◌≡◌, subst, ◌∙◌, sym, inl, inr, ◌⊎◌, Option, none, some, arith, Outcome, done, panic,
  Option-cases, ap,
}
use ic_websocket_gateway.DashMap.{DashMap}
use ic_websocket_gateway.CanisterUtils.{ClientKey}
use ic_websocket_gateway.State.{
  GatewayState, ClientSender, key_dec, insert_client_channel_and_get_new_poller_state,
  remove_client, remove_client_if_exists,
}
use ic_websocket_gateway.State.View.{Directory, view, IsWellFormed}
use ic_websocket_gateway.State.Directory.{clients_of, put, drop_client, Ends}
use ic_websocket_gateway.State.Refinement.{
  insert_refines, remove_client_refines, remove_client_if_exists_refines,
}

module _ (D : DashMap) {P : Type 0} (dec : Discrete P) where
  -- The sending half that the gateway state holds for a client of a canister.
  abbrev pub sender_at : GatewayState D P → P → ClientKey P → Option ClientSender
  sender_at gs canister_id client_key = clients_of (view D dec gs canister_id) client_key

  -- Every sending half in `after` is in `before` too.
  abbrev pub Within : GatewayState D P → GatewayState D P → Type 0
  Within after before =
      (c : P) (k : ClientKey P) (v : ClientSender)
      → sender_at after c k ≡ some v
      → sender_at before c k ≡ some v

  -- A directory has no client that the gateway state does not have.
  abbrev Part : Directory P → GatewayState D P → Type 0
  Part d gs =
      (c : P) (k : ClientKey P) (v : ClientSender)
      → clients_of (d c) k ≡ some v
      → sender_at gs c k ≡ some v

  abbrev Fewer : Outcome (Directory P) → GatewayState D P → Type 0
  Fewer (done d) gs = Part d gs
  Fewer (panic m) gs = Unit

  Ends-Within :
      (gs gs' : GatewayState D P) (o : Outcome (Directory P))
      → Ends D dec (done gs') o
      → Fewer o gs
      → Within gs' gs
  Ends-Within gs gs' (done d) e fewer =
      λ c k v here. fewer c k v (ap (λ d'. clients_of (d' c) k) (sym e.0) ∙ here)
  Ends-Within gs gs' (panic m) e fewer = absurd e

  drop_client-Part :
      (gs : GatewayState D P) (b : P) (j : ClientKey P)
      → Part (drop_client D dec (view D dec gs) b j) gs
  drop_client-Part gs b j c k v here = ground (arith, dec c b, key_dec D dec k j)

  abbrev pub removal : GatewayState D P → P → ClientKey P → Outcome (Directory P)
  removal gs c k = elim (view D dec gs c) [
    | none ↦ done (view D dec gs)
    | some clients ↦ elim (clients k) [
      | none ↦ panic "Client key not found in poller state"
      | some _ ↦ done (drop_client D dec (view D dec gs) c k)
    ]
  ]

  pub remove_client-Within :
      (gs gs' : GatewayState D P) (c : P) (k : ClientKey P)
      → IsWellFormed D dec gs
      → remove_client D dec gs c k ≡ done gs'
      → Within gs' gs
  remove_client-Within gs gs' c k wf e =
      Ends-Within gs gs' (removal gs c k)
        (subst (λ o. Ends D dec o (removal gs c k)) e (remove_client_refines D dec gs wf c k))
        (elim (Option-cases (view D dec gs c)) [
          | inl gone ↦
              let left : removal gs c k ≡ done (view D dec gs) = ground arith in
              subst (λ o. Fewer o gs) (sym left) (λ b j v here. here)
          | inr (clients, there) ↦ elim (Option-cases (clients k)) [
            | inl missing ↦
                let left : removal gs c k ≡ panic "Client key not found in poller state" =
                  ground arith in
                subst (λ o. Fewer o gs) (sym left) tt
            | inr (v, held) ↦
                let left : removal gs c k ≡ done (drop_client D dec (view D dec gs) c k) =
                  ground arith in
                subst (λ o. Fewer o gs) (sym left) (drop_client-Part gs c k)
          ]
        ])

  abbrev pub removal_if : GatewayState D P → P → ClientKey P → Directory P
  removal_if gs c k = elim (sender_at gs c k) [
    | none ↦ view D dec gs
    | some _ ↦ drop_client D dec (view D dec gs) c k
  ]

  pub remove_client_if_exists-Within :
      (gs : GatewayState D P) (c : P) (k : ClientKey P)
      → IsWellFormed D dec gs
      → Within (remove_client_if_exists D dec gs c k).0 gs
  remove_client_if_exists-Within gs c k wf =
      Ends-Within gs (remove_client_if_exists D dec gs c k).0 (done (removal_if gs c k))
        (
          (remove_client_if_exists_refines D dec gs wf c k).1,
          (remove_client_if_exists_refines D dec gs wf c k).0,
        )
        (elim (Option-cases (sender_at gs c k)) [
          | inl gone ↦
              let left : removal_if gs c k ≡ view D dec gs = ground arith in
              subst (λ d. Part d gs) (sym left) (λ b j v here. here)
          | inr (w, held) ↦
              let left : removal_if gs c k ≡ drop_client D dec (view D dec gs) c k = ground arith in
              subst (λ d. Part d gs) (sym left) (drop_client-Part gs c k)
        ])

  -- After an insertion, only the new client is new.
  pub insert-sender_at :
      (gs : GatewayState D P) (b : P) (j : ClientKey P) (tx span : ℕ)
      → IsWellFormed D dec gs
      → (c : P) (k : ClientKey P) (v : ClientSender)
      → sender_at (insert_client_channel_and_get_new_poller_state D dec gs b j tx span).0 c k
        ≡ some v
      → (sender_at gs c k ≡ some v) ⊎ ((v.sender ≡ tx) × (c ≡ b) × (k ≡ j))
  insert-sender_at gs b j tx span wf c k v here =
      let (e, _, _) = insert_refines D dec gs wf b j tx span in
      let at : clients_of (put D dec (view D dec gs) b j (record { sender = tx; span = span }) c) k
          ≡ some v =
        ap (λ d. clients_of (d c) k) (sym e) ∙ here in
      elim (dec c b) [
        | no other ↦ inl (ground arith)
        | yes same ↦ elim (key_dec D dec k j) [
          | no different ↦ inl (ground arith)
          | yes equal ↦ inr (ground arith)
        ]
      ]
