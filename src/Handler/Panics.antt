-- ===== src/Handler/Panics.antt =====
-- client_session_handler.rs: which of the `expect`s and `unreachable!`s of a handler can be reached.
use ic_websocket_gateway.Prelude.{
  ℕ, ◌≡◌, ◌≢◌, refl, inl, inr, ◌⊎◌, Bool, false, Option, none, some, arith, ok, err, Outcome, done,
  panic, String, Option-cases,
}
use ic_websocket_gateway.DashMap.{DashMap}
use ic_websocket_gateway.CanisterUtils.{ClientKey}
use ic_websocket_gateway.State.{GatewayState, remove_client, ClientRemovalResult, removed, vacant}
use ic_websocket_gateway.Session.External.{Wire}
use ic_websocket_gateway.Session.Monad.{
  IcWsError, ic_ws_protocol, web_socket, poller, Answer, returns, fails, panics,
}
use ic_websocket_gateway.Session.Updates.{KeysFit, is_panic}
use ic_websocket_gateway.Session.{
  IcWsSessionState, init, setup, opened, closed, ClientSession, Update, client_update,
  canister_update, relay_client_message,
}
use ic_websocket_gateway.Session.Transitions.{try_update_state}
use ic_websocket_gateway.Handler.{
  Handler, Handling, continues, finished, panicked, on_closed, on_error, with_keys, with_client_key,
  after_removal, after_removal_if,
}

module _ (D : DashMap) {P : Type 0} (dec : Discrete P) (W : Wire P) (broken : ℕ → Bool) where
  -- What a turn of the session may come to, for the handler.
  abbrev pub Reports :
      ClientSession W → ClientSession W → Answer (Option (IcWsSessionState W.Message)) → Type 0
  Reports s s' (returns none) = s'.session_state ≡ s.session_state
  Reports s s' (returns (some st)) =
      (st ≡ s'.session_state)
      × (st ≢ init)
      × ((m : W.Message) → st ≡ setup m → s.session_state ≡ init)
  Reports s s' (fails e) = Unit
  Reports s s' (panics m) = m ≡ "Canister shall not send messages while in Init state"

  pub try_update_state-Reports :
      (s : ClientSession W) (st : IcWsSessionState W.Message) (u : Update W)
      → s.session_state ≡ st
      → KeysFit W st s.client_key s.canister_id
      → let (s', a) = try_update_state W broken u s in Reports s s' a
  unfolding try_update_state
  try_update_state-Reports s init (client_update (ok m)) e k = ground arith
  try_update_state-Reports s (setup x) (client_update (ok m)) e k = ground arith
  try_update_state-Reports s opened (client_update (ok m)) e k = ground arith
  try_update_state-Reports s closed (client_update (ok m)) e k = ground arith
  try_update_state-Reports s init (client_update (err x)) e k = ground arith
  try_update_state-Reports s _ (client_update (err x)) e k = ground arith
  try_update_state-Reports s init (canister_update (some m)) e k = ground arith
  try_update_state-Reports s (setup x) (canister_update (some m)) e k = ground arith
  try_update_state-Reports s opened (canister_update (some m)) e k = ground arith
  try_update_state-Reports s closed (canister_update (some m)) e k = ground arith
  try_update_state-Reports s init (canister_update none) e k = ground arith
  try_update_state-Reports s _ (canister_update none) e k = ground arith

  pub relay_keeps :
      (s : ClientSession W) (m : W.Message)
      → s.canister_id ≢ none
      → let (s', a) = relay_client_message W broken m s in
        (s'.session_state ≡ s.session_state)
        × (s'.client_key ≡ s.client_key)
        × (s'.canister_id ≡ s.canister_id)
        × (is_panic W a ≡ false)
  unfolding relay_client_message
  relay_keeps s m known = ground arith

  -- The panics of a handler: a client that gives up before its session is set up, one of the races
  -- on the gateway state, and a canister's message before the session is set up.
  abbrev pub Known : Handler D W → String → Type 0
  Known h m =
      ((m ≡ "must be set during Setup") × (h.session.canister_id ≡ none))
      ⊎ (m ≡ "Client key not found in poller state")
      ⊎ (m ≡ "Canister shall not send messages while in Init state")

  -- The client's key and the canister are known together.
  abbrev pub Paired : ClientSession W → Type 0
  Paired s =
      ((s.client_key ≡ none) × (s.canister_id ≡ none))
      ⊎ ((s.client_key ≢ none) × (s.canister_id ≢ none))

  abbrev pub Sound : ClientSession W → Type 0
  Sound s = KeysFit W s.session_state s.client_key s.canister_id × Paired s

  -- A handler between two turns.
  pub record Runs (h : Handler D W) : Type 0 where
    pub sound : Sound h.session
    pub channel : h.session.session_state ≡ init → h.client_channel_tx ≢ none

  abbrev pub Ends : Handler D W × Handling → Type 0
  Ends (h, continues) = Runs h
  Ends (h, finished r) = Unit
  Ends (h, panicked m) = Known h m

  pub remove_client_panics :
      (gs : GatewayState D P) (c : P) (k : ClientKey P) (m : String)
      → remove_client D dec gs c k ≡ panic m
      → m ≡ "Client key not found in poller state"
  unfolding remove_client
  remove_client_panics gs c k m e = ground arith

  pub try_update_state-Paired :
      (s : ClientSession W) (st : IcWsSessionState W.Message) (u : Update W)
      → s.session_state ≡ st
      → KeysFit W st s.client_key s.canister_id
      → Paired s
      → Paired (try_update_state W broken u s).0
  unfolding try_update_state
  try_update_state-Paired s init (client_update (ok m)) e k p = ground arith
  try_update_state-Paired s _ (client_update (ok m)) e k p = ground arith
  try_update_state-Paired s _ (client_update (err x)) e k p = ground arith
  try_update_state-Paired s _ (canister_update (some m)) e k p = ground arith
  try_update_state-Paired s _ (canister_update none) e k p = ground arith

  -- What reading the client's key alone comes to, if nothing is done with it.
  pub with_client_key-cases :
      (h : Handler D W)
      → (with_client_key D dec W broken h (λ k. (h, continues)) ≡ (h, continues))
        ⊎ ((with_client_key D dec W broken h (λ k. (h, continues))
              ≡ (h, panicked "must be set during Setup"))
            × (h.session.client_key ≡ none))
  with_client_key-cases h = elim (Option-cases h.session.client_key) [
    | inl e ↦ inr (ground arith, e)
    | inr (k, e) ↦ inl (ground arith)
  ]

  pub with_keys-Ends :
      (h : Handler D W) (f : P → ClientKey P → Handler D W × Handling)
      → Paired h.session
      → ((c : P) (k : ClientKey P)
          → h.session.canister_id ≡ some c
          → h.session.client_key ≡ some k
          → Ends (f c k))
      → Ends (with_keys D dec W broken h f)
  with_keys-Ends h f p ends = elim (Option-cases h.session.canister_id) [
    | inl e ↦ rw (e, with_keys) (inl (refl, e))
    | inr (c, e) ↦ elim (Option-cases h.session.client_key) [
      | inl g ↦ absurd (ground arith)
      | inr (k, g) ↦ rw (e, with_keys, with_client_key, g) (ends c k e g)
    ]
  ]

  pub after_removal-Ends :
      (h : Handler D W) (o : Outcome (GatewayState D P)) (f : Handler D W → Handler D W × Handling)
      → ((m : String) → o ≡ panic m → m ≡ "Client key not found in poller state")
      → ((h' : Handler D W) → Ends (f h'))
      → Ends (after_removal D dec W broken h o f)
  after_removal-Ends h (done gs) f known ends = ends (record h { gateway = gs })
  after_removal-Ends h (panic m) f known ends = inr (inl (known m refl))

  pub on_closed-Ends : (h : Handler D W) → Paired h.session → Ends (on_closed D dec W broken h)
  unfolding on_closed
  on_closed-Ends h p = with_keys-Ends h _ p (λ c k _ _.
      after_removal-Ends h (remove_client D dec h.gateway c k) _
        (remove_client_panics h.gateway c k) (λ h'. tt))

  after_removal_if-Ends :
      (h : Handler D W) (c : P) (e : IcWsError) (r : ClientRemovalResult P)
      → Ends (after_removal_if D dec W broken h c e r)
  after_removal_if-Ends h c e (removed k) = tt
  after_removal_if-Ends h c e vacant = tt

  pub on_error-Ends :
      (h : Handler D W) (e : IcWsError) → Paired h.session → Ends (on_error D dec W broken e h)
  unfolding on_error
  on_error-Ends h (poller e) p = tt
  on_error-Ends h (ic_ws_protocol e) p =
      with_keys-Ends h _ p (λ c k _ _. after_removal_if-Ends _ c (ic_ws_protocol e) _)
  on_error-Ends h (web_socket e) p =
      with_keys-Ends h _ p (λ c k _ _. after_removal_if-Ends _ c (web_socket e) _)
