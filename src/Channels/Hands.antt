-- ===== src/Channels/Hands.antt =====
-- What a turn of a handler does with the sending half of its channel, and with those that the
-- gateway state holds.
use ic_websocket_gateway.Prelude.{
  ℕ, ◌≡◌, refl, sym, inl, inr, ◌⊎◌, Option, none, some, arith, Outcome, done, panic, Option-cases,
  Bool, subst,
}
use ic_websocket_gateway.DashMap.{DashMap}
use ic_websocket_gateway.CanisterUtils.{ClientKey}
use ic_websocket_gateway.State.{GatewayState, ClientSender, PollerState, remove_client}
use ic_websocket_gateway.State.View.{IsWellFormed}
use ic_websocket_gateway.State.Senders.{sender_at, Within, remove_client-Within}
use ic_websocket_gateway.Session.External.{Wire}
use ic_websocket_gateway.Session.Monad.{Answer, returns, fails, panics}
use ic_websocket_gateway.Session.{ClientSession}
use ic_websocket_gateway.Handler.{
  Handler, Handling, panicked, with_keys, after_removal, after_relay, start_poller,
}

module _ (D : DashMap) {P : Type 0} (dec : Discrete P) (W : Wire P) (broken : ℕ → Bool) where
  -- The session of the handler is that of the client of the canister.
  abbrev pub Keys : Handler D W → ClientKey P → P → Type 0
  Keys h k c = (h.session.client_key ≡ some k) × (h.session.canister_id ≡ some c)

  -- From `h` to `h'`: the session keeps its keys; the handler gets no sending half, and gives away
  -- at most its own, which then stands for its session's keys.
  pub record Hands (h h' : Handler D W) : Type 0 where
    pub client_key : h'.session.client_key ≡ h.session.client_key
    pub canister_id : h'.session.canister_id ≡ h.session.canister_id
    pub held : (t : ℕ) → h'.client_channel_tx ≡ some t → h.client_channel_tx ≡ some t
    pub sent :
        (c : P) (k : ClientKey P) (v : ClientSender)
        → sender_at D dec h'.gateway c k ≡ some v
        → (sender_at D dec h.gateway c k ≡ some v)
          ⊎ ((h.client_channel_tx ≡ some v.sender) × (h'.client_channel_tx ≡ none) × Keys h k c)

  pub nothing-Hands : (h : Handler D W) → Hands h h
  nothing-Hands h = record {
    client_key = refl;
    canister_id = refl;
    held = λ t e. e;
    sent = λ c k v e. inl e;
  }

  pub fewer-Hands :
      (h h' : Handler D W) (gs : GatewayState D P)
      → Within D dec gs h'.gateway
      → Hands h h'
      → Hands h (record h' { gateway = gs })
  fewer-Hands h h' gs within m = record {
    client_key = m.client_key;
    canister_id = m.canister_id;
    held = m.held;
    sent = λ c k v e. m.sent c k v (within c k v e);
  }

  pub with_keys-Hands :
      (h : Handler D W) (f : P → ClientKey P → Handler D W × Handling)
      → ((c : P) (k : ClientKey P)
          → h.session.canister_id ≡ some c
          → h.session.client_key ≡ some k
          → Hands h (f c k).0)
      → Hands h (with_keys D dec W broken h f).0
  with_keys-Hands h f each = elim (Option-cases h.session.canister_id) [
    | inl u ↦
        let same : with_keys D dec W broken h f ≡ (h, panicked "must be set during Setup") =
          ground arith in
        subst (λ r. Hands h r.0) (sym same) (nothing-Hands h)
    | inr (c, u) ↦ elim (Option-cases h.session.client_key) [
      | inl v ↦
          let same : with_keys D dec W broken h f ≡ (h, panicked "must be set during Setup") =
            ground arith in
          subst (λ r. Hands h r.0) (sym same) (nothing-Hands h)
      | inr (k, v) ↦
          let same : with_keys D dec W broken h f ≡ f c k = ground arith in
          subst (λ r. Hands h r.0) (sym same) (each c k u v)
    ]
  ]

  pub after_removal-Hands :
      (h h' : Handler D W) (c : P) (k : ClientKey P) (o : Outcome (GatewayState D P))
      (f : Handler D W → Handler D W × Handling)
      → ((g : Handler D W) → Hands h g → Hands h (f g).0)
      → IsWellFormed D dec h'.gateway
      → remove_client D dec h'.gateway c k ≡ o
      → Hands h h'
      → Hands h (after_removal D dec W broken h' o f).0
  after_removal-Hands h h' c k (done gs) f each wf e m =
      each _ (fewer-Hands h h' gs (remove_client-Within D dec h'.gateway gs c k wf e) m)
  after_removal-Hands h h' c k (panic x) f each wf e m = m

  started-Hands :
      (h h' : Handler D W) (c : P) (a : Option PollerState)
      → Hands h h'
      → Hands h (start_poller D dec W broken h' c a)
  started-Hands h h' c none m = m
  started-Hands h h' c (some a) m = record {
    client_key = m.client_key;
    canister_id = m.canister_id;
    held = m.held;
    sent = m.sent;
  }

  pub after_relay-Hands :
      (h h' : Handler D W) (c : P) (k : ClientKey P) (a : Option PollerState) (s : ClientSession W)
      (answer : Answer (Unit {0}))
      → IsWellFormed D dec h'.gateway
      → Hands h (record h' { session = s })
      → Hands h (after_relay D dec W broken h' (λ gs. gs) c k a (s, answer)).0
  after_relay-Hands h h' c k a s (returns _) wf m =
      started-Hands h (record h' { session = s }) c a m
  after_relay-Hands h h' c k a s (fails x) wf m =
      after_removal-Hands h (record h' { session = s }) c k (remove_client D dec h'.gateway c k) _
        (λ g r. r) wf refl m
  after_relay-Hands h h' c k a s (panics x) wf m = m
