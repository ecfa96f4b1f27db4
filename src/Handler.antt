-- ===== src/Handler.antt =====
-- src/ic-websocket-gateway/src/client_session_handler.rs: the task that drives one client's
-- session and keeps the gateway state in step with it.
pub mod Setup
pub mod Start
pub mod Opening
pub mod Panics
pub mod Life
pub mod Ending
pub mod Once
pub mod Orphan
pub mod Rivals
pub mod Cleanup
pub mod Gapless
mod Tests
mod LoopTests
mod RivalTests
use ic_websocket_gateway.Prelude.{
  ℕ, suc, String, Bool, true, false, List, [], ◌∷◌, ◌++◌, Option, none, some, Result, ok, err,
  Outcome, done, panic,
}
use ic_websocket_gateway.DashMap.{DashMap}
use ic_websocket_gateway.CanisterUtils.{ClientKey}
use ic_websocket_gateway.State.{
  GatewayState, PollerState, ClientRemovalResult, removed, vacant,
  insert_client_channel_and_get_new_poller_state, remove_client, remove_client_if_exists,
}
use ic_websocket_gateway.Session.External.{Wire}
use ic_websocket_gateway.Session.Monad.{IcWsError, poller, Answer, returns, fails, panics}
use ic_websocket_gateway.Session.{
  IcWsSessionState, init, setup, opened, closed, ClientSession, Update, relay_client_message,
}
use ic_websocket_gateway.Session.Transitions.{try_update_state}

-- The errors that the handler's task ends with, one for each text that the source formats.
pub data HandlerError : Type 0 where
  not_relayed : IcWsError → HandlerError
  poller_error : String → HandlerError
  session_error : IcWsError → HandlerError
  before_setup : IcWsError → HandlerError
  refused : HandlerError
  no_session : IcWsError → HandlerError

-- How far `handle_client_session` has come.
pub data Handling : Type 0 where
  continues : Handling
  finished : Result (Unit {0}) HandlerError → Handling
  panicked : String → Handling

module _ (D : DashMap) {P : Type 0} (W : Wire P) where
  -- The session, the gateway state, the sending half of the client's channel until it is taken, the
  -- session's span, and what the handler has done outside: the pollers that it has started and the
  -- calls of `ws_close`.
  pub record Handler : Type 0 where
    pub session : ClientSession W
    pub gateway : GatewayState D P
    pub client_channel_tx : Option ℕ
    pub client_session_span : ℕ
    pub pollers : List (P × PollerState)
    pub ws_closes : List (P × ClientKey P)

  -- An update of the session, and what the other tasks do to the gateway state: until the handler
  -- acts on the update, and while the message that opened the session is relayed to the IC.
  pub record Turn : Type 0 where
    pub update : Update W
    pub meanwhile : GatewayState D P → GatewayState D P
    pub between : GatewayState D P → GatewayState D P

module _ (D : DashMap) {P : Type 0} (dec : Discrete P) (W : Wire P) (broken : ℕ → Bool) where
  abbrev Task : Type 0
  Task = Handler D W

  -- `get_canister_id` and `get_client_key`, for what follows.
  abbrev pub with_keys : Task → (P → ClientKey P → Task × Handling) → Task × Handling
  with_keys h f = elim h.session.canister_id [
    | none ↦ (h, panicked "must be set during Setup")
    | some canister_id ↦ elim h.session.client_key [
      | none ↦ (h, panicked "must be set during Setup")
      | some client_key ↦ f canister_id client_key
    ]
  ]

  -- `get_client_key` alone.
  abbrev pub with_client_key : Task → (ClientKey P → Task × Handling) → Task × Handling
  with_client_key h f = elim h.session.client_key [
    | none ↦ (h, panicked "must be set during Setup")
    | some client_key ↦ f client_key
  ]

  abbrev call_ws_close : Task → P → ClientKey P → Task
  call_ws_close h canister_id client_key = record h {
    ws_closes = h.ws_closes ++ (canister_id, client_key) ∷ [];
  }

  -- `remove_client`, which may panic, and then the rest of the branch.
  abbrev pub after_removal :
      Task → Outcome (GatewayState D P) → (Task → Task × Handling) → Task × Handling
  after_removal h (panic m) f = (h, panicked m)
  after_removal h (done gs) f = f (record h { gateway = gs })

  abbrev pub start_poller : Task → P → Option PollerState → Task
  start_poller h canister_id none = h
  start_poller h canister_id (some poller_state) = record h {
    pollers = h.pollers ++ (canister_id, poller_state) ∷ [];
  }

  -- The message that opened the session is relayed once the client is in the gateway state; if
  -- that fails the client is removed again and no poller is started. Meanwhile other tasks act on
  -- the gateway state. (The source reads `canister_id` a second time before it starts the poller;
  -- relaying does not change it.)
  abbrev pub after_relay :
      Task
      → (GatewayState D P → GatewayState D P)
      → P
      → ClientKey P
      → Option PollerState
      → ClientSession W × Answer (Unit {0})
      → Task × Handling
  after_relay h between canister_id client_key new_poller_state (s, returns _) = (
    start_poller (record h { session = s; gateway = between h.gateway }) canister_id
        new_poller_state,
    continues,
  )
  after_relay h between canister_id client_key new_poller_state (s, fails e) =
      after_removal (record h { session = s })
        (remove_client D dec (between h.gateway) canister_id client_key)
        (λ h'. (h', finished (err (not_relayed e))))
  after_relay h between canister_id client_key new_poller_state (s, panics m) =
      (record h { session = s; gateway = between h.gateway }, panicked m)

  unfoldable pub on_setup :
      (GatewayState D P → GatewayState D P) → W.Message → Task → Task × Handling
  on_setup between ws_open_message h = with_keys h λ canister_id client_key.
      elim h.client_channel_tx [
        | none ↦ (h, panicked "must be set only once")
        | some tx ↦
            let (gs, new_poller_state) =
              insert_client_channel_and_get_new_poller_state D dec h.gateway canister_id client_key
                tx h.client_session_span in
            after_relay (record h { gateway = gs; client_channel_tx = none }) between canister_id
              client_key new_poller_state (relay_client_message W broken ws_open_message h.session)
      ]

  unfoldable pub on_closed : Task → Task × Handling
  on_closed h = with_keys h λ canister_id client_key.
      after_removal h (remove_client D dec h.gateway canister_id client_key)
        (λ h'. (call_ws_close h' canister_id client_key, finished (ok tt)))

  abbrev pub after_removal_if : Task → P → IcWsError → ClientRemovalResult P → Task × Handling
  after_removal_if h canister_id e (removed client_key) =
      (call_ws_close h canister_id client_key, finished (err (session_error e)))
  after_removal_if h canister_id e vacant = (h, finished (err (before_setup e)))

  unfoldable pub on_error : IcWsError → Task → Task × Handling
  on_error (poller e) h = (h, finished (err (poller_error e)))
  on_error e h = with_keys h λ canister_id client_key.
      let (gs, removal) = remove_client_if_exists D dec h.gateway canister_id client_key in
      after_removal_if (record h { gateway = gs }) canister_id e removal

  abbrev pub on_change :
      (GatewayState D P → GatewayState D P) → IcWsSessionState W.Message → Task → Task × Handling
  on_change between init h = (h, panicked "Updating the client session state cannot result in Init")
  on_change between (setup ws_open_message) h = on_setup between ws_open_message h
  on_change between opened h = with_client_key h λ client_key. (h, continues)
  on_change between closed h = on_closed h

  abbrev pub on_answer :
      (GatewayState D P → GatewayState D P)
      → Task
      → Answer (Option (IcWsSessionState W.Message))
      → Task × Handling
  on_answer between h (returns none) = (h, continues)
  on_answer between h (returns (some state)) = on_change between state h
  on_answer between h (fails e) = on_error e h
  on_answer between h (panics m) = (h, panicked m)

  -- One turn of the loop of `handle_client_session`.
  unfoldable pub handle_turn : Task → Turn D W → Task × Handling
  unfolding on_setup on_closed on_error
  handle_turn h turn =
      let (s, answer) = try_update_state W broken turn.update h.session in
      on_answer turn.between (record h { session = s; gateway = turn.meanwhile h.gateway }) answer

  abbrev pub resume : Task × Handling → (Task → Task × Handling) → Task × Handling
  resume (h, continues) f = f h
  resume (h, finished r) f = (h, finished r)
  resume (h, panicked m) f = (h, panicked m)

  -- The loop, over the turns that its surroundings make.
  unfoldable pub handle_client_session : Task → List (Turn D W) → Task × Handling
  unfolding handle_turn
  handle_client_session h [] = (h, continues)
  handle_client_session h (turn ∷ turns) =
      resume (handle_turn h turn) (λ h'. handle_client_session h' turns)
