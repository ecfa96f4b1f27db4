-- ===== src/Channels/Sparing.antt =====
-- A turn of a handler: it takes no other client's sending half out of the gateway state.
use ic_websocket_gateway.Prelude.{
  ℕ, ◌≡◌, refl, sym, inl, inr, ◌⊎◌, ◌∙◌, Option, none, some, arith, Outcome, done, panic,
  Option-cases, Bool, subst, ap,
}
use ic_websocket_gateway.DashMap.{DashMap}
use ic_websocket_gateway.CanisterUtils.{ClientKey}
use ic_websocket_gateway.State.{
  GatewayState, ClientSender, PollerState, ClientRemovalResult, removed, vacant,
  insert_client_channel_and_get_new_poller_state, remove_client, remove_client_if_exists,
}
use ic_websocket_gateway.State.View.{IsWellFormed}
use ic_websocket_gateway.State.Refinement.{insert_refines}
use ic_websocket_gateway.State.Senders.{sender_at}
use ic_websocket_gateway.State.Kept.{
  insert-Stays, remove_client-Stays, remove_client_if_exists-Stays,
}
use ic_websocket_gateway.Session.External.{Wire}
use ic_websocket_gateway.Session.Monad.{
  IcWsError, ic_ws_protocol, web_socket, poller, Answer, returns, fails, panics,
}
use ic_websocket_gateway.Session.{
  IcWsSessionState, init, setup, opened, closed, ClientSession, relay_client_message,
}
use ic_websocket_gateway.Handler.Panics.{with_client_key-cases}
use ic_websocket_gateway.Handler.{
  Handler, Handling, panicked, on_setup, on_closed, on_error, on_answer, with_keys, after_removal,
  after_removal_if, after_relay, start_poller,
}
use ic_websocket_gateway.Channels.Hands.{Keys}
use ic_websocket_gateway.Channels.Answers.{set_up}

module _ (D : DashMap) {P : Type 0} (dec : Discrete P) (W : Wire P) (broken : ℕ → Bool) (c : P)
    (k : ClientKey P) (v : ClientSender) where
  abbrev Has : GatewayState D P → Type 0
  Has gs = sender_at D dec gs c k ≡ some v

  -- The client is there after the turn, or the handler's session is of this client.
  abbrev pub Spares : Handler D W → Handler D W → Type 0
  Spares h h' = Has h'.gateway ⊎ Keys D dec W broken h k c

  with_keys-Spares :
      (h : Handler D W) (f : P → ClientKey P → Handler D W × Handling)
      → Has h.gateway
      → ((b : P) (j : ClientKey P)
          → h.session.canister_id ≡ some b
          → h.session.client_key ≡ some j
          → Has (f b j).0.gateway ⊎ ((c ≡ b) × (k ≡ j)))
      → Spares h (with_keys D dec W broken h f).0
  with_keys-Spares h f has each = elim (Option-cases h.session.canister_id) [
    | inl u ↦
        let same : with_keys D dec W broken h f ≡ (h, panicked "must be set during Setup") =
          ground arith in
        subst (λ r. Spares h r.0) (sym same) (inl has)
    | inr (b, u) ↦ elim (Option-cases h.session.client_key) [
      | inl w ↦
          let same : with_keys D dec W broken h f ≡ (h, panicked "must be set during Setup") =
            ground arith in
          subst (λ r. Spares h r.0) (sym same) (inl has)
      | inr (j, w) ↦
          let same : with_keys D dec W broken h f ≡ f b j = ground arith in
          subst (λ r. Spares h r.0) (sym same)
            (elim (each b j u w) [
              | inl left ↦ inl left
              | inr (canister, client) ↦ inr (w ∙ ap some (sym client), u ∙ ap some (sym canister))
            ])
    ]
  ]

  abbrev Own : P → ClientKey P → GatewayState D P → Type 0
  Own b j gs = Has gs ⊎ ((c ≡ b) × (k ≡ j))

  after_removal-Own :
      (h : Handler D W) (b : P) (j : ClientKey P) (o : Outcome (GatewayState D P))
      (f : Handler D W → Handler D W × Handling)
      → ((g : Handler D W) → (f g).0.gateway ≡ g.gateway)
      → IsWellFormed D dec h.gateway
      → remove_client D dec h.gateway b j ≡ o
      → Has h.gateway
      → Own b j (after_removal D dec W broken h o f).0.gateway
  after_removal-Own h b j (done gs) f same wf e has =
      subst (Own b j) (sym (same (record h { gateway = gs })))
        (remove_client-Stays D dec h.gateway c k v has wf gs b j e)
  after_removal-Own h b j (panic x) f same wf e has = inl has

  start_poller-gateway :
      (h : Handler D W) (b : P) (a : Option PollerState)
      → (start_poller D dec W broken h b a).gateway ≡ h.gateway
  start_poller-gateway h b none = refl
  start_poller-gateway h b (some a) = refl

  after_relay-Own :
      (h : Handler D W) (b : P) (j : ClientKey P) (a : Option PollerState) (s : ClientSession W)
      (answer : Answer (Unit {0}))
      → IsWellFormed D dec h.gateway
      → Has h.gateway
      → Own b j (after_relay D dec W broken h (λ gs. gs) b j a (s, answer)).0.gateway
  after_relay-Own h b j a s (returns _) wf has =
      subst (Own b j) (sym (start_poller-gateway (record h { session = s }) b a)) (inl has)
  after_relay-Own h b j a s (fails x) wf has =
      after_removal-Own (record h { session = s }) b j (remove_client D dec h.gateway b j) _
        (λ g. refl) wf refl has
  after_relay-Own h b j a s (panics x) wf has = inl has

  on_setup-Spares :
      (h : Handler D W) (m : W.Message)
      → IsWellFormed D dec h.gateway
      → Has h.gateway
      → Spares h (on_setup D dec W broken (λ gs. gs) m h).0
  unfolding on_setup
  on_setup-Spares h m wf has = with_keys-Spares h _ has (λ b j at key.
      elim (Option-cases h.client_channel_tx) [
        | inl gone ↦
            let same : set_up D dec W broken m h b j ≡ (h, panicked "must be set only once") =
              ground arith in
            subst (λ r. Own b j r.0.gateway) (sym same) (inl has)
        | inr (tx, e) ↦
            let (gs, started) =
              insert_client_channel_and_get_new_poller_state D dec h.gateway b j tx
                h.client_session_span in
            let (_, grown, _) = insert_refines D dec h.gateway wf b j tx h.client_session_span in
            let same : set_up D dec W broken m h b j
                ≡ after_relay D dec W broken (record h { gateway = gs; client_channel_tx = none })
                    (λ gs. gs) b j started (relay_client_message W broken m h.session) =
              ground arith in
            subst (λ r. Own b j r.0.gateway) (sym same)
              (elim (insert-Stays D dec h.gateway c k v has wf b j tx h.client_session_span) [
                | inl there ↦
                    after_relay-Own (record h { gateway = gs; client_channel_tx = none }) b j
                      started (relay_client_message W broken m h.session).0
                      (relay_client_message W broken m h.session).1 grown there
                | inr own ↦ inr own
              ])
      ])

  after_removal_if-gateway :
      (h : Handler D W) (b : P) (e : IcWsError) (r : ClientRemovalResult P)
      → (after_removal_if D dec W broken h b e r).0.gateway ≡ h.gateway
  after_removal_if-gateway h b e (removed j) = refl
  after_removal_if-gateway h b e vacant = refl

  removal_on_error-Spares :
      (h : Handler D W) (e : IcWsError)
      → IsWellFormed D dec h.gateway
      → Has h.gateway
      → Spares h
          (with_keys D dec W broken h λ b j.
            let (gs, removal) = remove_client_if_exists D dec h.gateway b j in
            after_removal_if D dec W broken (record h { gateway = gs }) b e removal).0
  removal_on_error-Spares h e wf has = with_keys-Spares h _ has (λ b j _ _.
      let (gs, removal) = remove_client_if_exists D dec h.gateway b j in
      subst (Own b j) (sym (after_removal_if-gateway (record h { gateway = gs }) b e removal))
        (remove_client_if_exists-Stays D dec h.gateway c k v has wf b j))

  pub on_answer-Spares :
      (h : Handler D W) (a : Answer (Option (IcWsSessionState W.Message)))
      → IsWellFormed D dec h.gateway
      → Has h.gateway
      → Spares h (on_answer D dec W broken (λ gs. gs) h a).0
  unfolding on_error on_closed
  on_answer-Spares h (returns none) wf has = inl has
  on_answer-Spares h (returns (some init)) wf has = inl has
  on_answer-Spares h (returns (some (setup m))) wf has = on_setup-Spares h m wf has
  on_answer-Spares h (returns (some opened)) wf has =
      elim (with_client_key-cases D dec W broken h) [
        | inl e ↦ rw e (inl has)
        | inr (e, _) ↦ rw e (inl has)
      ]
  on_answer-Spares h (returns (some closed)) wf has = with_keys-Spares h _ has (λ b j _ _.
      after_removal-Own h b j (remove_client D dec h.gateway b j) _ (λ g. refl) wf refl has)
  on_answer-Spares h (fails (poller e)) wf has = inl has
  on_answer-Spares h (fails (ic_ws_protocol e)) wf has =
      removal_on_error-Spares h (ic_ws_protocol e) wf has
  on_answer-Spares h (fails (web_socket e)) wf has = removal_on_error-Spares h (web_socket e) wf has
  on_answer-Spares h (panics m) wf has = inl has
