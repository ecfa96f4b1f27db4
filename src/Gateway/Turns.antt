-- ===== src/Gateway/Turns.antt =====
-- What a turn of a handler does to the entries of the gateway state, and which pollers it starts.
use ic_websocket_gateway.Prelude.{
  ℕ, ◌≡◌, refl, arith, inl, inr, Bool, [], Option, none, some, Outcome, done, panic, Option-cases,
}
use ic_websocket_gateway.DashMap.{DashMap}
use ic_websocket_gateway.CanisterUtils.{ClientKey}
use ic_websocket_gateway.State.{
  GatewayState, PollerState, ClientRemovalResult, removed, vacant,
  insert_client_channel_and_get_new_poller_state, remove_client, remove_client_if_exists,
}
use ic_websocket_gateway.State.View.{IsWellFormed}
use ic_websocket_gateway.Session.External.{Wire}
use ic_websocket_gateway.Session.Monad.{
  IcWsError, ic_ws_protocol, web_socket, poller, Answer, returns, fails, panics,
}
use ic_websocket_gateway.Session.{
  IcWsSessionState, init, setup, opened, closed, ClientSession, relay_client_message,
}
use ic_websocket_gateway.Session.Transitions.{try_update_state}
use ic_websocket_gateway.Handler.Panics.{with_client_key-cases}
use ic_websocket_gateway.Handler.{
  Handler, Handling, handle_turn, on_setup, on_closed, on_error, on_answer, with_keys,
  after_removal, after_removal_if, after_relay, start_poller,
}
use ic_websocket_gateway.Gateway.Effects.{
  Effect, unchanged-Effect, OnDone, started_list, remove_client-Effect,
  remove_client_if_exists-Effect, insert-Effect,
}
use ic_websocket_gateway.Session.{Update}
use ic_websocket_gateway.Handler.Opening.{Encodable, Relays, try_update_state-Relays}

module _ (D : DashMap) {P : Type 0} (dec : Discrete P) (W : Wire P) (broken : ℕ → Bool) where
  abbrev Relaying : Type 0
  Relaying = Encodable W broken

  abbrev Does : GatewayState D P → Handler D W × Handling → Type 0
  Does before r = Effect D dec Relaying before r.0.gateway r.0.pollers

  with_keys-Effect :
      (before : GatewayState D P) (h : Handler D W) (f : P → ClientKey P → Handler D W × Handling)
      → Effect D dec Relaying before h.gateway h.pollers
      → ((c : P) (k : ClientKey P) → Does before (f c k))
      → Does before (with_keys D dec W broken h f)
  with_keys-Effect before h f e each = elim (Option-cases h.session.canister_id) [
    | inl u ↦ rw (u, with_keys) e
    | inr (c, u) ↦ elim (Option-cases h.session.client_key) [
      | inl v ↦ rw (u, with_keys, v) e
      | inr (k, v) ↦ rw (u, with_keys, v) (each c k)
    ]
  ]

  after_removal-Effect :
      (before : GatewayState D P) (h : Handler D W) (o : Outcome (GatewayState D P))
      (f : Handler D W → Handler D W × Handling)
      → Effect D dec Relaying before h.gateway h.pollers
      → OnDone D dec Relaying (λ gs. Effect D dec Relaying before gs h.pollers) o
      → ((gs : GatewayState D P)
          → Effect D dec Relaying before gs h.pollers
          → Does before (f (record h { gateway = gs })))
      → Does before (after_removal D dec W broken h o f)
  after_removal-Effect before h (done gs) f e q each = each gs q
  after_removal-Effect before h (panic m) f e q each = e

  start_poller-list :
      (h : Handler D W) (c : P) (a : Option PollerState)
      → h.pollers ≡ []
      → (start_poller D dec W broken h c a).pollers ≡ started_list D dec Relaying c a
  start_poller-list h c none e = e
  start_poller-list h c (some a) e = rw e refl

  start_poller-gateway :
      (h : Handler D W) (c : P) (a : Option PollerState)
      → (start_poller D dec W broken h c a).gateway ≡ h.gateway
  start_poller-gateway h c none = refl
  start_poller-gateway h c (some a) = refl

  after_relay-Effect :
      (before : GatewayState D P) (h : Handler D W) (c : P) (k : ClientKey P)
      (a : Option PollerState) (s : ClientSession W) (answer : Answer (Unit {0}))
      → h.pollers ≡ []
      → Effect D dec Relaying before h.gateway (started_list D dec Relaying c a)
      → ((Relaying → ⊥) → Effect D dec Relaying before h.gateway [])
      → (Relaying → answer ≡ returns tt)
      → Does before (after_relay D dec W broken h (λ gs. gs) c k a (s, answer))
  after_relay-Effect before h c k a s (returns _) none_yet e e' fine =
      rw
        (
          start_poller-list (record h { session = s }) c a none_yet,
          start_poller-gateway (record h { session = s }) c a,
        )
        e
  after_relay-Effect before h c k a s (fails x) none_yet e e' fine =
      let left = e' (λ r. let never = fine r in ground arith) in
      after_removal-Effect before (record h { session = s }) (remove_client D dec h.gateway c k) _
        (rw none_yet left)
        (rw none_yet (remove_client-Effect D dec Relaying before h.gateway [] c k left)) (λ gs q. q)
  after_relay-Effect before h c k a s (panics m) none_yet e e' fine =
      let left = e' (λ r. let never = fine r in ground arith) in rw none_yet left

  on_setup-Effect :
      (h : Handler D W) (m : W.Message)
      → IsWellFormed D dec h.gateway
      → h.pollers ≡ []
      → (Relaying → (relay_client_message W broken m h.session).1 ≡ returns tt)
      → Does h.gateway (on_setup D dec W broken (λ gs. gs) m h)
  unfolding on_setup
  on_setup-Effect h m wf none_yet fine =
      let nothing : Effect D dec Relaying h.gateway h.gateway h.pollers =
        rw none_yet (unchanged-Effect D dec Relaying h.gateway wf) in
      with_keys-Effect h.gateway h _ nothing (λ c k. elim (Option-cases h.client_channel_tx) [
        | inl gone ↦ rw (gone, on_setup) nothing
        | inr (tx, e) ↦
            let (gs, started) =
              insert_client_channel_and_get_new_poller_state D dec h.gateway c k tx
                h.client_session_span in
            let (with_poller, without) =
              insert-Effect D dec Relaying h.gateway c k tx h.client_session_span wf in
            rw (e, on_setup)
              (after_relay-Effect h.gateway (record h { gateway = gs; client_channel_tx = none }) c
                k started (relay_client_message W broken m h.session).0
                (relay_client_message W broken m h.session).1 none_yet with_poller without fine)
      ])

  on_closed-Effect :
      (h : Handler D W)
      → IsWellFormed D dec h.gateway
      → h.pollers ≡ []
      → Does h.gateway (on_closed D dec W broken h)
  unfolding on_closed
  on_closed-Effect h wf none_yet =
      let nothing : Effect D dec Relaying h.gateway h.gateway h.pollers =
        rw none_yet (unchanged-Effect D dec Relaying h.gateway wf) in
      with_keys-Effect h.gateway h _ nothing (λ c k.
        after_removal-Effect h.gateway h (remove_client D dec h.gateway c k) _ nothing
          (remove_client-Effect D dec Relaying h.gateway h.gateway h.pollers c k nothing)
          (λ gs q. q))

  after_removal_if-Effect :
      (before : GatewayState D P) (h : Handler D W) (c : P) (e : IcWsError)
      (r : ClientRemovalResult P)
      → Effect D dec Relaying before h.gateway h.pollers
      → Does before (after_removal_if D dec W broken h c e r)
  after_removal_if-Effect before h c e (removed k) q = q
  after_removal_if-Effect before h c e vacant q = q

  removal_on_error-Effect :
      (h : Handler D W) (e : IcWsError)
      → Effect D dec Relaying h.gateway h.gateway h.pollers
      → Does h.gateway (
          with_keys D dec W broken h λ c k.
            let (gs, removal) = remove_client_if_exists D dec h.gateway c k in
            after_removal_if D dec W broken (record h { gateway = gs }) c e removal)
  removal_on_error-Effect h e nothing = with_keys-Effect h.gateway h _ nothing (λ c k.
      let (gs, removal) = remove_client_if_exists D dec h.gateway c k in
      after_removal_if-Effect h.gateway (record h { gateway = gs }) c e removal
        (remove_client_if_exists-Effect D dec Relaying h.gateway h.gateway h.pollers c k nothing))

  on_answer-Effect :
      (h : Handler D W) (a : Answer (Option (IcWsSessionState W.Message)))
      → IsWellFormed D dec h.gateway
      → h.pollers ≡ []
      → (Relaying → Relays W broken h.session a)
      → Does h.gateway (on_answer D dec W broken (λ gs. gs) h a)
  unfolding on_error
  on_answer-Effect h a wf none_yet fine =
      let nothing : Effect D dec Relaying h.gateway h.gateway h.pollers =
        rw none_yet (unchanged-Effect D dec Relaying h.gateway wf) in
      elim a
          as (λ b.
            (Relaying → Relays W broken h.session b)
            → Does h.gateway (on_answer D dec W broken (λ gs. gs) h b)) [
              | returns none ↦ λ fine. nothing
              | returns (some init) ↦ λ fine. nothing
              | returns (some (setup m)) ↦ λ fine. on_setup-Effect h m wf none_yet fine
              | returns (some opened) ↦ λ fine. elim (with_client_key-cases D dec W broken h) [
                | inl u ↦ rw u nothing
                | inr (u, _) ↦ rw u nothing
              ]
              | returns (some closed) ↦ λ fine. on_closed-Effect h wf none_yet
              | fails (poller e) ↦ λ fine. nothing
              | fails (ic_ws_protocol e) ↦
                  λ fine. removal_on_error-Effect h (ic_ws_protocol e) nothing
              | fails (web_socket e) ↦ λ fine. removal_on_error-Effect h (web_socket e) nothing
              | panics m ↦ λ fine. nothing
            ]
        fine

  -- A turn of a handler, beside which nothing else happens.
  pub handle_turn-Effect :
      (h : Handler D W) (update : Update W)
      → IsWellFormed D dec h.gateway
      → h.pollers ≡ []
      → let (h', _) =
          handle_turn D dec W broken h
            (record { update = update; meanwhile = λ gs. gs; between = λ gs. gs }) in
        Effect D dec Relaying h.gateway h'.gateway h'.pollers
  unfolding handle_turn
  handle_turn-Effect h update wf none_yet =
      on_answer-Effect (record h { session = (try_update_state W broken update h.session).0 })
        (try_update_state W broken update h.session).1 wf none_yet
        (λ encode.
          try_update_state-Relays W broken h.session h.session.session_state update refl encode)
