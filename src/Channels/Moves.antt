-- ===== src/Channels/Moves.antt =====
-- The steps of the gateway: what each does to the gateway state and to the handlers.
use ic_websocket_gateway.Prelude.{
  ℕ, ◌≡◌, refl, ◌⊎◌, inl, inr, Bool, List, [], ◌∷◌, Option, none, some, Result, String, ok, err,
}
use ic_websocket_gateway.DashMap.{DashMap}
use ic_websocket_gateway.State.{PollerState, write}
use ic_websocket_gateway.Poller.{Round}
use ic_websocket_gateway.Poller.Loop.{Run}
use ic_websocket_gateway.Session.External.{Wire}
use ic_websocket_gateway.Session.Monad.{Answer, returns, fails, panics}
use ic_websocket_gateway.Session.{ClientSession, Update, init_session}
use ic_websocket_gateway.Handler.{Handler, Handling, continues, finished, panicked, handle_turn}
use ic_websocket_gateway.Handler.Start.{new_handler}
use ic_websocket_gateway.Gateway.{
  Gateway, begin, handle, poll, after_init, spawn, after_turn, enter, on_its_own, poll_alone, step,
}

module _ (D : DashMap) {P : Type 0} (dec : Discrete P) (W : Wire P) (broken : ℕ → Bool)
    (interval : ℕ) where
  spawn_rest :
      (l : List (P × PollerState)) (g : Gateway D W)
      → ((spawn D dec W broken interval g l).state ≡ g.state)
        × ((spawn D dec W broken interval g l).handlers ≡ g.handlers)
  unfolding spawn
  spawn_rest [] g = (refl, refl)
  spawn_rest ((c, a) ∷ l) g = spawn_rest l _

  -- The place of a handler after a turn.
  abbrev pub seat : Handler D W × Handling → Option (Handler D W)
  seat (h, continues) = some h
  seat (h, finished r) = none
  seat (h, panicked m) = none

  after_turn_rest :
      (g : Gateway D W) (i : ℕ) (h : Handler D W) (handling : Handling)
      → let g' = after_turn D dec W broken interval g i (h, handling) in
        (g'.state ≡ h.gateway) × (g'.handlers ≡ write i (seat (h, handling)) g.handlers)
  after_turn_rest g i h continues = spawn_rest h.pollers _
  after_turn_rest g i h (finished r) = spawn_rest h.pollers _
  after_turn_rest g i h (panicked m) = spawn_rest h.pollers _

  pub handle_rest :
      (g : Gateway D W) (i : ℕ) (h : Handler D W) (u : Update W)
      → g.handlers i ≡ some h
      → let r =
          handle_turn D dec W broken
            (enter D dec W broken interval g h)
            (on_its_own D dec W broken interval u) in
        let g' = step D dec W broken interval g (handle i u) in
        (g'.state ≡ r.0.gateway) × (g'.handlers ≡ write i (seat r) g.handlers)
  unfolding step
  handle_rest g i h u live =
      let r =
        handle_turn D dec W broken (enter D dec W broken interval g h)
          (on_its_own D dec W broken interval u) in
      rw (live, step) (after_turn_rest g i r.0 r.1)

  after_init_rest :
      (g : Gateway D W) (i tx span : ℕ) (s : ClientSession W) (answer : Answer (Unit {0}))
      → let g' = after_init D dec W broken interval g i tx span (s, answer) in
        (g'.state ≡ g.state)
        × ((g'.handlers ≡ g.handlers)
            ⊎ ((answer ≡ returns tt)
                × (g'.handlers
                    ≡ write i (some (new_handler D dec W broken g.state tx span s)) g.handlers)))
  after_init_rest g i tx span s (returns tt) = (refl, inr (refl, refl))
  after_init_rest g i tx span s (fails e) = (refl, inl refl)
  after_init_rest g i tx span s (panics m) = (refl, inl refl)

  pub begin_rest :
      (g : Gateway D W) (i client_id : ℕ) (get_principal : Result P String) (tx span : ℕ)
      → g.handlers i ≡ none
      → let g' = step D dec W broken interval g (begin i client_id get_principal tx span) in
        (g'.state ≡ g.state)
        × ((g'.handlers ≡ g.handlers)
            ⊎ ((p : P) × ((init_session W broken client_id p).1 ≡ returns tt)
                × (g'.handlers
                    ≡ write i
                        (some (
                          new_handler D dec W broken g.state tx span
                            (init_session W broken client_id p).0))
                        g.handlers)))
  unfolding step
  begin_rest g i client_id (err x) tx span free = rw (free, step) (refl, inl refl)
  begin_rest g i client_id (ok p) tx span free =
      let (same, which) =
        after_init_rest g i tx span (init_session W broken client_id p).0
          (init_session W broken client_id p).1 in
      rw (free, step)
        (
          same,
          elim which [ inl still ↦ inl still | inr (started, begun) ↦ inr (p, started, begun) ],
        )

  pub poll_rest :
      (g : Gateway D W) (j : ℕ) (run : Run D P) (round : Round D P)
      → g.pollers j ≡ some run
      → let g' = step D dec W broken interval g (poll j round) in
        (g'.state ≡ (poll_alone D dec W broken interval g run round).gateway)
        × (g'.handlers ≡ g.handlers)
  unfolding step
  poll_rest g j run round live = rw (live, step) (refl, refl)
