-- ===== src/Handler/Setup.antt =====
-- client_session_handler.rs, the branch for Setup: the first message of a client.
use ic_websocket_gateway.Prelude.{
  ℕ, ◌≡◌, refl, ap, sym, ◌∙◌, Bool, true, false, List, [], ◌∷◌, ◌++◌, Option, none, some, arith, ok,
}
use mathlib.Core.List.{append-nil}
use ic_websocket_gateway.DashMap.{DashMap}
use ic_websocket_gateway.CanisterUtils.{Bytes, ClientKey}
use ic_websocket_gateway.State.{
  GatewayState, ClientSender, PollerState, entry, insert_client_channel_and_get_new_poller_state,
}
use ic_websocket_gateway.State.View.{view, IsWellFormed}
use ic_websocket_gateway.State.Directory.{put}
use ic_websocket_gateway.State.Refinement.{insert_refines}
use ic_websocket_gateway.Session.External.{Wire}
use ic_websocket_gateway.Session.Monad.{IcWsError, Answer, returns, fails, panics}
use ic_websocket_gateway.Session.Updates.{is_failure}
use ic_websocket_gateway.Session.Delivery.{call_bytes}
use ic_websocket_gateway.Session.{
  init, setup, ClientSession, client_update, inspect_ic_ws_open_message, relay_client_message,
}
use ic_websocket_gateway.Session.Transitions.{try_update_state}
use ic_websocket_gateway.Handler.{Handler, Turn, continues, handle_turn, start_poller}

module _ (D : DashMap) {P : Type 0} (dec : Discrete P) (W : Wire P) (broken : ℕ → Bool) where
  -- The first message of a client that opens a session: it is a call with an argument for
  -- `ws_open`, which gives the client's key and the canister.
  pub record Opens (s : ClientSession W) (m : W.Message) (k : ClientKey P) (c : P) : Type 0 where
    pub fresh : s.session_state ≡ init
    pub no_canister : s.canister_id ≡ none
    pub no_close : W.is_close m ≡ false
    pub valid : inspect_ic_ws_open_message W broken m ≡ ok (k, c)

  abbrev pub set_up : ClientSession W → W.Message → ClientKey P → P → ClientSession W
  set_up s m k c = record s { client_key = some k; canister_id = some c; session_state = setup m }

  -- The entry that a canister has got between two states.
  abbrev pub new_entry : Option PollerState → Option PollerState → Option PollerState
  new_entry none later = later
  new_entry (some _) later = none

  told_entry :
      (gs : GatewayState D P) (k : ClientKey P) (c : P) (tx span : ℕ)
      → IsWellFormed D dec gs
      → let (gs', started) = insert_client_channel_and_get_new_poller_state D dec gs c k tx span in
        started ≡ new_entry (entry D dec gs c) (entry D dec gs' c)
  told_entry gs k c tx span wf = ground (arith, (insert_refines D dec gs wf c k tx span).2)

  abbrev pub started_on : P → Option PollerState → List (P × PollerState)
  started_on c none = []
  started_on c (some a) = (c, a) ∷ []

  pub try_update_state-Opens :
      (s : ClientSession W) (m : W.Message) (k : ClientKey P) (c : P)
      → Opens s m k c
      → try_update_state W broken (client_update (ok m)) s
        ≡ (set_up s m k c, returns (some (setup m)))
  unfolding try_update_state
  try_update_state-Opens s m k c o = ground arith

  relay_client_message-some :
      (s : ClientSession W) (m : W.Message) (c : P) (b : Bytes)
      → s.canister_id ≡ some c
      → call_bytes W broken m ≡ some b
      → relay_client_message W broken m s
        ≡ (record s { relayed = s.relayed ++ (c, b) ∷ [] }, returns tt)
  unfolding relay_client_message
  relay_client_message-some s m c b e f = ground arith

  pub relay_fails :
      (s : ClientSession W) (m : W.Message)
      → call_bytes W broken m ≡ none
      → ((relay_client_message W broken m s).0 ≡ s)
        × (is_failure W (relay_client_message W broken m s).1 ≡ true)
  unfolding relay_client_message
  relay_fails s m e = (ground arith, ground arith)

  pub failure_error :
      {A : Type 0} (a : Answer A) → is_failure W a ≡ true → (e : IcWsError) × (a ≡ fails e)
  failure_error (returns x) h = cc
  failure_error (fails e) h = (e, refl)
  failure_error (panics m) h = cc

  -- The handler's task after such a turn, up to the start of a poller.
  abbrev pub arrived :
      Handler D W → W.Message → ClientKey P → P → Bytes → GatewayState D P → Handler D W
  arrived h m k c b gs = record h {
    session = record (set_up h.session m k c) { relayed = h.session.relayed ++ (c, b) ∷ [] };
    gateway = gs;
    client_channel_tx = none;
  }

  pub handle_turn-Opens :
      (h : Handler D W) (m : W.Message) (k : ClientKey P) (c : P) (tx : ℕ) (b : Bytes)
      (meanwhile between : GatewayState D P → GatewayState D P)
      → Opens h.session m k c
      → h.client_channel_tx ≡ some tx
      → call_bytes W broken m ≡ some b
      → let (gs, started) =
          insert_client_channel_and_get_new_poller_state D dec
            (meanwhile h.gateway)
            c
            k
            tx
            h.client_session_span in
        handle_turn D dec W broken h
          (record { update = client_update (ok m); meanwhile = meanwhile; between = between })
        ≡ (start_poller D dec W broken (arrived h m k c b (between gs)) c started, continues)
  unfolding handle_turn
  handle_turn-Opens h m k c tx b meanwhile between o chan f = ground (
    arith,
    try_update_state-Opens h.session m k c o,
    relay_client_message-some (set_up h.session m k c) m c b refl f,
  )

  pub pollers_after :
      (h : Handler D W) (c : P) (started : Option PollerState)
      → let h' = start_poller D dec W broken h c started in
        (h'.session ≡ h.session)
        × (h'.gateway ≡ h.gateway)
        × (h'.pollers ≡ h.pollers ++ started_on c started)
  pollers_after h c none = (refl, refl, sym (append-nil h.pollers))
  pollers_after h c (some a) = (refl, refl, refl)

  -- The first message of a client sets its session up. The client is added to the gateway state,
  -- with its own channel, and nothing else changes there; the message is given to the IC, once, for
  -- its canister, and what the other tasks do meanwhile, they do to the gateway state that has the
  -- client already; and a poller is started, on the entry that the canister has got, exactly if the
  -- canister had no entry. (The channel is still there, the message's envelope can be encoded
  -- again, and the gateway state is well-formed.)
  pub handle_turn_sets_up :
      (h : Handler D W) (m : W.Message) (k : ClientKey P) (c : P) (tx : ℕ) (b : Bytes)
      (meanwhile between : GatewayState D P → GatewayState D P)
      → Opens h.session m k c
      → h.client_channel_tx ≡ some tx
      → call_bytes W broken m ≡ some b
      → IsWellFormed D dec (meanwhile h.gateway)
      → let turn : Turn D W = record {
        update = client_update (ok m);
        meanwhile = meanwhile;
        between = between;
      } in
        let (h', handling) = handle_turn D dec W broken h turn in
        let gs = meanwhile h.gateway in
        let client : ClientSender = record { sender = tx; span = h.client_session_span } in
        (gs' : GatewayState D P) × (handling ≡ continues)
        × (view D dec gs' ≡ put D dec (view D dec gs) c k client)
        × (h'.gateway ≡ between gs')
        × (h'.session
            ≡ record (set_up h.session m k c) { relayed = h.session.relayed ++ (c, b) ∷ [] })
        × (h'.pollers
            ≡ h.pollers ++ started_on c (new_entry (entry D dec gs c) (entry D dec gs' c)))
  handle_turn_sets_up h m k c tx b meanwhile between o chan f wf =
      let gs = meanwhile h.gateway in
      let (gs', started) =
        insert_client_channel_and_get_new_poller_state D dec gs c k tx h.client_session_span in
      let (viewed, _, _) = insert_refines D dec gs wf c k tx h.client_session_span in
      let told = told_entry gs k c tx h.client_session_span wf in
      let (same, held, more) = pollers_after (arrived h m k c b (between gs')) c started in
      rw (handle_turn-Opens h m k c tx b meanwhile between o chan f)
        (gs', refl, viewed, held, same, more ∙ ap (λ a. h.pollers ++ started_on c a) told)
