-- ===== src/Channels/Answers.antt =====
-- What a turn of a handler does with sending halves, for each answer of the session.
use ic_websocket_gateway.Prelude.{
  ℕ, ◌≡◌, refl, sym, inl, inr, Option, none, some, arith, Option-cases, Bool, subst,
}
use ic_websocket_gateway.DashMap.{DashMap}
use ic_websocket_gateway.CanisterUtils.{ClientKey}
use ic_websocket_gateway.State.{
  ClientRemovalResult, removed, vacant, insert_client_channel_and_get_new_poller_state,
  remove_client, remove_client_if_exists,
}
use ic_websocket_gateway.State.View.{IsWellFormed}
use ic_websocket_gateway.State.Refinement.{insert_refines}
use ic_websocket_gateway.State.Senders.{remove_client_if_exists-Within, insert-sender_at}
use ic_websocket_gateway.Session.External.{Wire}
use ic_websocket_gateway.Session.Monad.{
  IcWsError, ic_ws_protocol, web_socket, poller, Answer, returns, fails, panics,
}
use ic_websocket_gateway.Session.{
  IcWsSessionState, init, setup, opened, closed, relay_client_message,
}
use ic_websocket_gateway.Handler.Panics.{relay_keeps}
use ic_websocket_gateway.Handler.Panics.{with_client_key-cases}
use ic_websocket_gateway.Handler.{
  Handler, Handling, panicked, on_setup, on_closed, on_error, on_answer, with_keys,
  after_removal_if, after_relay,
}
use ic_websocket_gateway.Channels.Hands.{
  Hands, nothing-Hands, fewer-Hands, with_keys-Hands, after_removal-Hands, after_relay-Hands,
}

module _ (D : DashMap) {P : Type 0} (dec : Discrete P) (W : Wire P) (broken : ℕ → Bool) where
  -- The set-up once the keys are known.
  abbrev pub set_up : W.Message → Handler D W → P → ClientKey P → Handler D W × Handling
  set_up m h c k = elim h.client_channel_tx [
    | none ↦ (h, panicked "must be set only once")
    | some tx ↦
        let (gs, started) =
          insert_client_channel_and_get_new_poller_state D dec h.gateway c k tx
            h.client_session_span in
        after_relay D dec W broken (record h { gateway = gs; client_channel_tx = none }) (λ gs. gs)
          c k started (relay_client_message W broken m h.session)
  ]

  on_setup-Hands :
      (h : Handler D W) (m : W.Message)
      → IsWellFormed D dec h.gateway
      → Hands D dec W broken h (on_setup D dec W broken (λ gs. gs) m h).0
  unfolding on_setup
  on_setup-Hands h m wf = with_keys-Hands D dec W broken h _ (λ c k here key.
      elim (Option-cases h.client_channel_tx) [
        | inl gone ↦
            let same : set_up m h c k ≡ (h, panicked "must be set only once") = ground arith in
            subst (λ r. Hands D dec W broken h r.0) (sym same) (nothing-Hands D dec W broken h)
        | inr (tx, e) ↦
            let (gs, started) =
              insert_client_channel_and_get_new_poller_state D dec h.gateway c k tx
                h.client_session_span in
            let (_, grown, _) = insert_refines D dec h.gateway wf c k tx h.client_session_span in
            let (state, same_key, same_canister, fine) =
              relay_keeps D dec W broken h.session m (λ e. ground arith) in
            let same : set_up m h c k
                ≡ after_relay D dec W broken (record h { gateway = gs; client_channel_tx = none })
                    (λ gs. gs) c k started (relay_client_message W broken m h.session) =
              ground arith in
            subst (λ r. Hands D dec W broken h r.0) (sym same)
              (after_relay-Hands D dec W broken h
                (record h { gateway = gs; client_channel_tx = none }) c k started
                (relay_client_message W broken m h.session).0
                (relay_client_message W broken m h.session).1 grown
                (record {
                  client_key = same_key;
                  canister_id = same_canister;
                  held = λ t none_held. absurd (ground arith);
                  sent = λ b j v there.
                      elim (insert-sender_at D dec h.gateway c k tx h.client_session_span wf b j v
                        there) [
                          | inl old ↦ inl old
                          | inr (sender, canister, client) ↦ inr (ground arith, refl, ground arith)
                        ];
                }))
      ])

  on_closed-Hands :
      (h : Handler D W)
      → IsWellFormed D dec h.gateway
      → Hands D dec W broken h (on_closed D dec W broken h).0
  unfolding on_closed
  on_closed-Hands h wf = with_keys-Hands D dec W broken h _ (λ c k _ _.
      after_removal-Hands D dec W broken h h c k (remove_client D dec h.gateway c k) _
        (λ g m. record {
          client_key = m.client_key;
          canister_id = m.canister_id;
          held = m.held;
          sent = m.sent;
        })
        wf refl (nothing-Hands D dec W broken h))

  after_removal_if-Hands :
      (h h' : Handler D W) (c : P) (e : IcWsError) (r : ClientRemovalResult P)
      → Hands D dec W broken h h'
      → Hands D dec W broken h (after_removal_if D dec W broken h' c e r).0
  after_removal_if-Hands h h' c e (removed k) m = record {
    client_key = m.client_key;
    canister_id = m.canister_id;
    held = m.held;
    sent = m.sent;
  }
  after_removal_if-Hands h h' c e vacant m = m

  removal_on_error-Hands :
      (h : Handler D W) (e : IcWsError)
      → IsWellFormed D dec h.gateway
      → Hands D dec W broken h
          (with_keys D dec W broken h λ c k.
            let (gs, removal) = remove_client_if_exists D dec h.gateway c k in
            after_removal_if D dec W broken (record h { gateway = gs }) c e removal).0
  removal_on_error-Hands h e wf = with_keys-Hands D dec W broken h _ (λ c k _ _.
      let (gs, removal) = remove_client_if_exists D dec h.gateway c k in
      after_removal_if-Hands h (record h { gateway = gs }) c e removal
        (fewer-Hands D dec W broken h h gs (remove_client_if_exists-Within D dec h.gateway c k wf)
          (nothing-Hands D dec W broken h)))

  pub on_answer-Hands :
      (h : Handler D W) (a : Answer (Option (IcWsSessionState W.Message)))
      → IsWellFormed D dec h.gateway
      → Hands D dec W broken h (on_answer D dec W broken (λ gs. gs) h a).0
  unfolding on_error
  on_answer-Hands h (returns none) wf = nothing-Hands D dec W broken h
  on_answer-Hands h (returns (some init)) wf = nothing-Hands D dec W broken h
  on_answer-Hands h (returns (some (setup m))) wf = on_setup-Hands h m wf
  on_answer-Hands h (returns (some opened)) wf = elim (with_client_key-cases D dec W broken h) [
    | inl e ↦ rw e (nothing-Hands D dec W broken h)
    | inr (e, _) ↦ rw e (nothing-Hands D dec W broken h)
  ]
  on_answer-Hands h (returns (some closed)) wf = on_closed-Hands h wf
  on_answer-Hands h (fails (poller e)) wf = nothing-Hands D dec W broken h
  on_answer-Hands h (fails (ic_ws_protocol e)) wf = removal_on_error-Hands h (ic_ws_protocol e) wf
  on_answer-Hands h (fails (web_socket e)) wf = removal_on_error-Hands h (web_socket e) wf
  on_answer-Hands h (panics m) wf = nothing-Hands D dec W broken h
