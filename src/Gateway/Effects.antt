-- ===== src/Gateway/Effects.antt =====
-- What a call on the gateway state does to its entries, and which pollers it has started.
use ic_websocket_gateway.Prelude.{
  ℕ, ◌≡◌, refl, inl, inr, ◌⊎◌, List, [], ◌∷◌, Option, none, some, arith, Outcome, done, panic,
  Option-cases,
}
use ic_websocket_gateway.DashMap.{DashMap}
use ic_websocket_gateway.CanisterUtils.{ClientKey}
use ic_websocket_gateway.State.{
  GatewayState, PollerState, entry, client_at, insert_client_channel_and_get_new_poller_state,
  remove_client, remove_client_if_exists,
}
use ic_websocket_gateway.State.View.{IsWellFormed, IsWellFormed-write, IsWellFormed-grow}

module _ (D : DashMap) {P : Type 0} (dec : Discrete P) (R : Type 0) where
  -- From `before` to `after`, no entry changes or goes, and at most one poller is started, on the
  -- new entry of its canister; where `R` holds, an entry is new only if its poller is started.
  pub record Effect (before after : GatewayState D P) (started : List (P × PollerState))
      : Type 0 where
    pub wf : IsWellFormed D dec after
    pub kept :
        (b : P) (a : PollerState) → entry D dec before b ≡ some a → entry D dec after b ≡ some a
    pub new_ones :
        (started ≡ [])
        ⊎ ((c : P) × (a : PollerState) × (started ≡ (c, a) ∷ [])
            × (entry D dec before c ≡ none)
            × (entry D dec after c ≡ some a))
    pub back :
        R
        → (b : P) (a : PollerState) → entry D dec after b ≡ some a
        → (entry D dec before b ≡ some a) ⊎ (started ≡ (b, a) ∷ [])

  pub unchanged-Effect : (gs : GatewayState D P) → IsWellFormed D dec gs → Effect gs gs []
  unchanged-Effect gs wf = record {
    wf = wf;
    kept = λ b a e. e;
    new_ones = inl refl;
    back = λ r b a e. inl e;
  }

  abbrev pub OnDone : (GatewayState D P → Type 0) → Outcome (GatewayState D P) → Type 0
  OnDone Q (done gs) = Q gs
  OnDone Q (panic m) = Unit

  module _ (before : GatewayState D P) (gs : GatewayState D P) (ps : List (P × PollerState)) (c : P)
      (k : ClientKey P) where
    pub remove_client-Effect :
        Effect before gs ps → OnDone (λ g. Effect before g ps) (remove_client D dec gs c k)
    unfolding remove_client
    remove_client-Effect e = elim (Option-cases (entry D dec gs c)) [
      | inl gone ↦ rw (gone, remove_client) e
      | inr (a, at) ↦ elim (Option-cases (client_at D dec gs a k)) [
        | inl missing ↦ rw (at, remove_client, missing) tt
        | inr (v, there) ↦
            rw (at, remove_client, there)
              (record {
                wf = IsWellFormed-write D dec gs a _ e.wf;
                kept = e.kept;
                new_ones = e.new_ones;
                back = e.back;
              })
      ]
    ]

    pub remove_client_if_exists-Effect :
        Effect before gs ps → Effect before (remove_client_if_exists D dec gs c k).0 ps
    unfolding remove_client_if_exists
    remove_client_if_exists-Effect e = elim (Option-cases (entry D dec gs c)) [
      | inl gone ↦ rw (gone, remove_client_if_exists) e
      | inr (a, at) ↦ elim (Option-cases (client_at D dec gs a k)) [
        | inl missing ↦ rw (at, remove_client_if_exists, missing) e
        | inr (v, there) ↦
            rw (at, remove_client_if_exists, there)
              (record {
                wf = IsWellFormed-write D dec gs a _ e.wf;
                kept = e.kept;
                new_ones = e.new_ones;
                back = e.back;
              })
      ]
    ]

  abbrev pub started_list : P → Option PollerState → List (P × PollerState)
  started_list c none = []
  started_list c (some a) = (c, a) ∷ []

  pub insert-Effect :
      (gs : GatewayState D P) (c : P) (k : ClientKey P) (tx span : ℕ)
      → IsWellFormed D dec gs
      → let (gs', started) = insert_client_channel_and_get_new_poller_state D dec gs c k tx span in
        Effect gs gs' (started_list c started) × ((R → ⊥) → Effect gs gs' [])
  unfolding insert_client_channel_and_get_new_poller_state
  insert-Effect gs c k tx span wf = elim (Option-cases (entry D dec gs c)) [
    | inr (a, e) ↦
        let written = IsWellFormed-write D dec gs a _ wf in
        rw (e, insert_client_channel_and_get_new_poller_state)
          (
            record {
              wf = written;
              kept = λ b d h. h;
              new_ones = inl refl;
              back = λ r b d h. inl h;
            },
            λ never. record {
              wf = written;
              kept = λ b d h. h;
              new_ones = inl refl;
              back = λ r b d h. inl h;
            },
          )
    | inl e ↦
        let grown = IsWellFormed-grow D dec gs c _ wf in
        rw (e, insert_client_channel_and_get_new_poller_state)
          (
            record {
              wf = grown;
              kept = λ b d h. ground (arith, D.get-insert dec c gs.next_address gs.inner_data b);
              new_ones = inr (
                c,
                gs.next_address,
                refl,
                e,
                ground (arith, D.get-insert dec c gs.next_address gs.inner_data c),
              );
              back = λ r b d h. elim (dec b c) [
                | yes p ↦ inr (ground (arith, D.get-insert dec c gs.next_address gs.inner_data b))
                | no p ↦ inl (ground (arith, D.get-insert dec c gs.next_address gs.inner_data b))
              ];
            },
            λ never. record {
              wf = grown;
              kept = λ b d h. ground (arith, D.get-insert dec c gs.next_address gs.inner_data b);
              new_ones = inl refl;
              back = λ r b d h. absurd (never r);
            },
          )
  ]
