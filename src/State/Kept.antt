-- ===== src/State/Kept.antt =====
-- gateway-state/src/lib.rs: which sending halves stay in the gateway state: each method removes or
-- replaces that of its own client only.
use ic_websocket_gateway.Prelude.{
  ℕ, ◌≡◌, refl, subst, ◌∙◌, sym, inl, inr, ◌⊎◌, none, some, arith, Outcome, done, panic,
  Option-cases, ap,
}
use ic_websocket_gateway.DashMap.{DashMap}
use ic_websocket_gateway.CanisterUtils.{ClientKey}
use ic_websocket_gateway.State.{
  GatewayState, ClientSender, key_dec, insert_client_channel_and_get_new_poller_state,
  remove_client, remove_client_if_exists, remove_canister_if_empty, empty, not_empty,
  CanisterRemovalResult,
}
use ic_websocket_gateway.State.View.{Directory, view, IsWellFormed}
use ic_websocket_gateway.State.Directory.{clients_of, put, drop_client, drop_canister, Ends}
use ic_websocket_gateway.State.Refinement.{
  insert_refines, remove_client_refines, remove_client_if_exists_refines,
  remove_canister_if_empty_refines,
}
use ic_websocket_gateway.State.Senders.{sender_at, removal, removal_if}

module _ (D : DashMap) {P : Type 0} (dec : Discrete P) where
  module _ (gs : GatewayState D P) (c : P) (k : ClientKey P) (v : ClientSender)
      (here : sender_at D dec gs c k ≡ some v) (wf : IsWellFormed D dec gs) where
    -- The client is still there, or it is the one that the method is about.
    abbrev pub Stays : GatewayState D P → P → ClientKey P → Type 0
    Stays gs' b j = (sender_at D dec gs' c k ≡ some v) ⊎ ((c ≡ b) × (k ≡ j))

    drop_client-Stays :
        (b : P) (j : ClientKey P)
        → (clients_of (drop_client D dec (view D dec gs) b j c) k ≡ some v) ⊎ ((c ≡ b) × (k ≡ j))
    drop_client-Stays b j = elim (dec c b) [
      | no other ↦ inl (ground arith)
      | yes same ↦ elim (key_dec D dec k j) [
        | no different ↦ inl (ground arith)
        | yes equal ↦ inr (same, equal)
      ]
    ]

    abbrev Left : Outcome (Directory P) → P → ClientKey P → Type 0
    Left (done d) b j = (clients_of (d c) k ≡ some v) ⊎ ((c ≡ b) × (k ≡ j))
    Left (panic m) b j = Unit

    Ends-Stays :
        (gs' : GatewayState D P) (o : Outcome (Directory P)) (b : P) (j : ClientKey P)
        → Ends D dec (done gs') o
        → Left o b j
        → Stays gs' b j
    Ends-Stays gs' (done d) b j e (inl left) = inl (ap (λ d'. clients_of (d' c) k) e.0 ∙ left)
    Ends-Stays gs' (done d) b j e (inr own) = inr own
    Ends-Stays gs' (panic m) b j e left = absurd e

    pub remove_client-Stays :
        (gs' : GatewayState D P) (b : P) (j : ClientKey P)
        → remove_client D dec gs b j ≡ done gs'
        → Stays gs' b j
    remove_client-Stays gs' b j e =
        Ends-Stays gs' (removal D dec gs b j) b j
          (subst (λ o. Ends D dec o (removal D dec gs b j)) e
            (remove_client_refines D dec gs wf b j))
          (elim (Option-cases (view D dec gs b)) [
            | inl gone ↦
                let left : removal D dec gs b j ≡ done (view D dec gs) = ground arith in
                subst (λ o. Left o b j) (sym left) (inl here)
            | inr (clients, there) ↦ elim (Option-cases (clients j)) [
              | inl missing ↦
                  let left : removal D dec gs b j ≡ panic "Client key not found in poller state" =
                    ground arith in
                  subst (λ o. Left o b j) (sym left) tt
              | inr (w, held) ↦
                  let left : removal D dec gs b j ≡ done (drop_client D dec (view D dec gs) b j) =
                    ground arith in
                  subst (λ o. Left o b j) (sym left) (drop_client-Stays b j)
            ]
          ])

    pub remove_client_if_exists-Stays :
        (b : P) (j : ClientKey P) → Stays (remove_client_if_exists D dec gs b j).0 b j
    remove_client_if_exists-Stays b j =
        Ends-Stays (remove_client_if_exists D dec gs b j).0 (done (removal_if D dec gs b j)) b j
          (
            (remove_client_if_exists_refines D dec gs wf b j).1,
            (remove_client_if_exists_refines D dec gs wf b j).0,
          )
          (elim (Option-cases (sender_at D dec gs b j)) [
            | inl gone ↦
                let left : removal_if D dec gs b j ≡ view D dec gs = ground arith in
                subst (λ d. Left (done d) b j) (sym left) (inl here)
            | inr (w, held) ↦
                let left : removal_if D dec gs b j ≡ drop_client D dec (view D dec gs) b j =
                  ground arith in
                subst (λ d. Left (done d) b j) (sym left) (drop_client-Stays b j)
          ])

    pub insert-Stays :
        (b : P) (j : ClientKey P) (tx span : ℕ)
        → Stays (insert_client_channel_and_get_new_poller_state D dec gs b j tx span).0 b j
    insert-Stays b j tx span =
        let (e, _, _) = insert_refines D dec gs wf b j tx span in
        let w : ClientSender = record { sender = tx; span = span } in
        let put_left : (clients_of (put D dec (view D dec gs) b j w c) k ≡ some v)
            ⊎ ((c ≡ b) × (k ≡ j)) =
          elim (dec c b) [
            | no other ↦ inl (ground arith)
            | yes same ↦ elim (key_dec D dec k j) [
              | no different ↦ inl (ground arith)
              | yes equal ↦ inr (same, equal)
            ]
          ] in
        elim put_left [
          | inl left ↦ inl (ap (λ (d : Directory P). clients_of (d c) k) e ∙ left)
          | inr own ↦ inr own
        ]

    emptied :
        (b : P) (x : CanisterRemovalResult) (d : Directory P)
        → (x ≡ empty → view D dec gs b ≡ some (λ _. none))
        → d ≡ (elim x [ empty ↦ drop_canister D dec (view D dec gs) b | not_empty ↦ view D dec gs ])
        → clients_of (d c) k ≡ some v
    emptied b empty d is_empty e = elim (dec c b) [
      | no other ↦ ap (λ (d' : Directory P). clients_of (d' c) k) e ∙ ground arith
      | yes same ↦
          let gone = is_empty refl in
          let none_left : sender_at D dec gs c k ≡ none = ground arith in absurd (ground arith)
    ]
    emptied b not_empty d is_empty e = ap (λ (d' : Directory P). clients_of (d' c) k) e ∙ here

    -- A canister with a client is not empty.
    pub remove_canister_if_empty_stays :
        (b : P) → sender_at D dec (remove_canister_if_empty D dec gs b).0 c k ≡ some v
    remove_canister_if_empty_stays b =
        let (_, is_empty, viewed) = remove_canister_if_empty_refines D dec gs wf b in
        emptied b (remove_canister_if_empty D dec gs b).1
          (view D dec (remove_canister_if_empty D dec gs b).0) is_empty.0 viewed
