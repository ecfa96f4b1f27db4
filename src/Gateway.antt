-- ===== src/Gateway.antt =====
-- The parts of src/ic-websocket-gateway together: any number of handlers and pollers over one
-- gateway state, in any order. A turn of a handler, or the end of a poller's iteration, is one step.
pub mod EndToEnd
pub mod Effects
pub mod Turns
pub mod Rounds
pub mod Consistency
pub mod Reachable
pub mod Attended
pub mod Polled
pub mod Tests
use ic_websocket_gateway.Prelude.{
  ℕ, suc, Bool, true, false, List, [], ◌∷◌, Option, none, some, if◌then◌else◌, Result, String, ok,
  err,
}
use ic_websocket_gateway.DashMap.{DashMap}
use ic_websocket_gateway.State.{GatewayState, PollerState, new, write}
use ic_websocket_gateway.Poller.{Round}
use ic_websocket_gateway.Poller.Loop.{Run, run_round, is_polling}
use ic_websocket_gateway.Poller.Log.{start_run}
use ic_websocket_gateway.Session.External.{Wire}
use ic_websocket_gateway.Session.Monad.{Answer, returns, fails, panics}
use ic_websocket_gateway.Session.{ClientSession, Update, init_session}
use ic_websocket_gateway.Handler.{
  Handler, Turn, Handling, continues, finished, panicked, handle_turn,
}
use ic_websocket_gateway.Handler.Start.{new_handler}

module _ (D : DashMap) {P : Type 0} (W : Wire P) where
  -- The shared state and the live tasks, by number.
  pub record Gateway : Type 0 where
    pub state : GatewayState D P
    pub handlers : ℕ → Option (Handler D W)
    pub pollers : ℕ → Option (Run D P)
    pub next_poller : ℕ

  -- What happens next: a connection's handler begins its session in a free slot, a handler gets an
  -- update, or a poller ends an iteration. What the poller reads of its poller state meanwhile is
  -- part of the round.
  pub data Event : Type 0 where
    begin : (i client_id : ℕ) (get_principal : Result P String) (tx span : ℕ) → Event
    handle : (i : ℕ) → Update W → Event
    poll : (j : ℕ) → Round D P → Event

module _ (D : DashMap) {P : Type 0} (dec : Discrete P) (W : Wire P) (broken : ℕ → Bool)
    (polling_interval_ms : ℕ) where
  abbrev System : Type 0
  System = Gateway D W

  unfoldable pub empty_gateway : System
  empty_gateway = record {
    state = new D dec;
    handlers = λ _. none;
    pollers = λ _. none;
    next_poller = 0;
  }

  abbrev pub after_init : System → ℕ → ℕ → ℕ → ClientSession W × Answer (Unit {0}) → System
  after_init g i tx span (s, returns _) = record g {
    handlers = write i (some (new_handler D dec W broken g.state tx span s)) g.handlers;
  }
  after_init g i tx span (s, fails _) = g
  after_init g i tx span (s, panics _) = g

  -- `start_session` up to its loop, with what the agent answers for its principal: a handler that
  -- panics here, or has no session, does nothing to the gateway.
  abbrev pub begin_session : System → ℕ → ℕ → ℕ → ℕ → Result P String → System
  begin_session g i client_id tx span (err _) = g
  begin_session g i client_id tx span (ok gateway_principal) =
      after_init g i tx span (init_session W broken client_id gateway_principal)

  -- The tasks that a handler has spawned in a turn.
  unfoldable pub spawn : System → List (P × PollerState) → System
  spawn g [] = g
  spawn g ((canister_id, poller_state) ∷ l) =
      let run = start_run D dec g.state canister_id poller_state polling_interval_ms in
      spawn
        (record g {
          pollers = write g.next_poller (some run) g.pollers;
          next_poller = suc g.next_poller;
        })
        l

  abbrev pub after_turn : System → ℕ → Handler D W × Handling → System
  after_turn g i (h, continues) =
      spawn (record g { state = h.gateway; handlers = write i (some h) g.handlers }) h.pollers
  after_turn g i (h, _) =
      spawn (record g { state = h.gateway; handlers = write i none g.handlers }) h.pollers

  -- What a handler sees of the gateway in its turn.
  abbrev pub enter : System → Handler D W → Handler D W
  enter g h = record h { gateway = g.state; pollers = [] }

  abbrev pub on_its_own : Update W → Turn D W
  on_its_own update = record { update = update; meanwhile = λ gs. gs; between = λ gs. gs }

  abbrev pub poll_alone : System → Run D P → Round D P → Run D P
  poll_alone g run round =
      run_round D dec (record run { gateway = g.state }) (record round { others = λ gs. gs })

  unfoldable pub step : System → Event D W → System
  step g (begin i client_id get_principal tx span) = elim (g.handlers i) [
    | none ↦ begin_session g i client_id tx span get_principal
    | some _ ↦ g
  ]
  step g (handle i update) = elim (g.handlers i) [
    | none ↦ g
    | some h ↦ after_turn g i (handle_turn D dec W broken (enter g h) (on_its_own update))
  ]
  step g (poll j round) = elim (g.pollers j) [
    | none ↦ g
    | some run ↦
        let run' = poll_alone g run round in
        record g {
          state = run'.gateway;
          pollers = write j (if is_polling D dec run'.progress then some run' else none) g.pollers;
        }
  ]

  unfoldable pub steps : System → List (Event D W) → System
  steps g [] = g
  steps g (e ∷ es) = steps (step g e) es
