-- ===== src/Handler/Life.antt =====
-- client_session_handler.rs: a handler from `start_session` to its end.
use ic_websocket_gateway.Prelude.{
  ℕ, ◌≡◌, ◌≢◌, refl, sym, ◌∙◌, inl, inr, Bool, false, Option, none, some, arith, Option-cases,
}
use ic_websocket_gateway.DashMap.{DashMap}
use ic_websocket_gateway.CanisterUtils.{ClientKey}
use ic_websocket_gateway.State.{
  GatewayState, PollerState, insert_client_channel_and_get_new_poller_state, remove_client,
}
use ic_websocket_gateway.Session.External.{Wire}
use ic_websocket_gateway.Session.Monad.{Answer, returns, fails, panics}
use ic_websocket_gateway.Session.Updates.{try_update_state-KeysFit, is_panic}
use ic_websocket_gateway.Session.{
  IcWsSessionState, init, setup, opened, closed, ClientSession, relay_client_message,
}
use ic_websocket_gateway.Session.Transitions.{try_update_state}
use ic_websocket_gateway.Handler.Panics.{
  Reports, try_update_state-Reports, relay_keeps, Known, Runs, Sound, Ends, try_update_state-Paired,
  with_keys-Ends, with_client_key-cases, after_removal-Ends, on_closed-Ends, on_error-Ends,
  remove_client_panics,
}
use ic_websocket_gateway.Handler.{
  Handler, Turn, Handling, panicked, handle_turn, on_setup, on_answer, on_change, after_relay,
  start_poller,
}

module _ (D : DashMap) {P : Type 0} (dec : Discrete P) (W : Wire P) (broken : ℕ → Bool) where
  start_poller-Runs :
      (h : Handler D W) (c : P) (a : Option PollerState)
      → Runs D dec W broken h
      → Runs D dec W broken (start_poller D dec W broken h c a)
  start_poller-Runs h c none r = r
  start_poller-Runs h c (some a) r = record { sound = r.sound; channel = r.channel }

  after_relay-Ends :
      (h : Handler D W) (between : GatewayState D P → GatewayState D P) (c : P) (k : ClientKey P)
      (a : Option PollerState) (s : ClientSession W) (answer : Answer (Unit {0}))
      → Sound D dec W broken s
      → s.session_state ≢ init
      → is_panic W answer ≡ false
      → Ends D dec W broken (after_relay D dec W broken h between c k a (s, answer))
  after_relay-Ends h between c k a s (returns _) sound past fine =
      start_poller-Runs (record h { session = s; gateway = between h.gateway }) c a
        (record { sound = sound; channel = λ e. absurd (past e) })
  after_relay-Ends h between c k a s (fails e) sound past fine =
      after_removal-Ends D dec W broken (record h { session = s })
        (remove_client D dec (between h.gateway) c k) _
        (remove_client_panics D dec W broken (between h.gateway) c k) (λ h'. tt)
  after_relay-Ends h between c k a s (panics m) sound past fine = cc

  on_setup-Ends :
      (h : Handler D W) (between : GatewayState D P → GatewayState D P) (m : W.Message)
      → Sound D dec W broken h.session
      → h.session.session_state ≡ setup m
      → h.client_channel_tx ≢ none
      → Ends D dec W broken (on_setup D dec W broken between m h)
  unfolding on_setup
  on_setup-Ends h between m sound at channel =
      with_keys-Ends D dec W broken h _ sound.1 (λ c k here key.
        let (state, same_key, same_canister, fine) =
          relay_keeps D dec W broken h.session m (λ e. ground arith) in
        elim (Option-cases h.client_channel_tx) [
          | inl gone ↦ absurd (channel gone)
          | inr (tx, e) ↦
              let (gs, started) =
                insert_client_channel_and_get_new_poller_state D dec h.gateway c k tx
                  h.client_session_span in
              rw (e, on_setup)
                (after_relay-Ends (record h { gateway = gs; client_channel_tx = none }) between c k
                  started (relay_client_message W broken m h.session).0
                  (relay_client_message W broken m h.session).1
                  (rw (state, same_key, same_canister) sound) (λ f. ground arith) fine)
        ])

  on_change-Ends :
      (h : Handler D W) (between : GatewayState D P → GatewayState D P)
      (st : IcWsSessionState W.Message)
      → Sound D dec W broken h.session
      → st ≡ h.session.session_state
      → st ≢ init
      → ((m : W.Message) → st ≡ setup m → h.client_channel_tx ≢ none)
      → Ends D dec W broken (on_change D dec W broken between st h)
  on_change-Ends h between init sound at past channel = absurd (past refl)
  on_change-Ends h between (setup m) sound at past channel =
      on_setup-Ends h between m sound (sym at) (channel m refl)
  on_change-Ends h between opened sound at past channel =
      elim (with_client_key-cases D dec W broken h) [
        | inl e ↦ rw e (record { sound = sound; channel = λ f. absurd (past (at ∙ f)) })
        | inr (e, unknown) ↦ rw e (inl (refl, ground arith))
      ]
  on_change-Ends h between closed sound at past channel = on_closed-Ends D dec W broken h sound.1

  on_answer-Ends :
      (h : Handler D W) (between : GatewayState D P → GatewayState D P) (before : ClientSession W)
      (a : Answer (Option (IcWsSessionState W.Message)))
      → Sound D dec W broken h.session
      → Reports D dec W broken before h.session a
      → (before.session_state ≡ init → h.client_channel_tx ≢ none)
      → Ends D dec W broken (on_answer D dec W broken between h a)
  on_answer-Ends h between before (returns none) sound r channel = record {
    sound = sound;
    channel = λ e. channel (sym r ∙ e);
  }
  on_answer-Ends h between before (returns (some st)) sound r channel =
      on_change-Ends h between st sound r.0 r.1 (λ m e. channel (r.2 m e))
  on_answer-Ends h between before (fails e) sound r channel =
      on_error-Ends D dec W broken h e sound.1
  on_answer-Ends h between before (panics m) sound r channel = inr (inr r)

  pub handle_turn-Ends :
      (h : Handler D W) (turn : Turn D W)
      → Runs D dec W broken h
      → Ends D dec W broken (handle_turn D dec W broken h turn)
  unfolding handle_turn
  handle_turn-Ends h turn r =
      let s = h.session in
      on_answer-Ends _ turn.between s (try_update_state W broken turn.update s).1
        (
          (try_update_state-KeysFit W broken s turn.update r.sound.0).0,
          try_update_state-Paired D dec W broken s s.session_state turn.update refl r.sound.0
              r.sound.1,
        )
        (try_update_state-Reports D dec W broken s s.session_state turn.update refl r.sound.0)
        r.channel

  -- How `start_session` ends if it panics.
  abbrev pub Explained : Option (Handler D W) × Handling → Type 0
  Explained (some h, panicked m) = Known D dec W broken h m
  Explained (none, panicked m) = ⊥
  Explained (o, _) = Unit
