-- ===== src/Gateway/Polled.antt =====
-- The steps of the gateway, one after another, if every envelope can be encoded: no entry of a
-- reachable gateway is without a poller.
use ic_websocket_gateway.Prelude.{
  ℕ, ◌≡◌, refl, ap, inl, inr, List, [], ◌∷◌, some, arith, Option-cases, Bool, ok, err,
}
use ic_websocket_gateway.DashMap.{DashMap}
use ic_websocket_gateway.State
use ic_websocket_gateway.State.{GatewayState, PollerState, entry, write}
use ic_websocket_gateway.Poller.Loop.{Run, polling}
use ic_websocket_gateway.Session.External.{Wire}
use ic_websocket_gateway.Session.{init_session}
use ic_websocket_gateway.Handler.{handle_turn}
use ic_websocket_gateway.Handler.Opening.{Encodable}
use ic_websocket_gateway.Gateway.Turns.{handle_turn-Effect}
use ic_websocket_gateway.Gateway.Consistency.{IsConsistent}
use ic_websocket_gateway.Gateway.Reachable.{
  step-IsConsistent, empty-IsConsistent, steps-IsConsistent,
}
use ic_websocket_gateway.Gateway.{
  Gateway, Event, begin, handle, poll, empty_gateway, enter, on_its_own, step, steps,
}
use ic_websocket_gateway.Gateway.Attended.{
  IsAttended, after_init-IsAttended, after_turn-IsAttended, poll-IsAttended,
}

module _ (D : DashMap) {P : Type 0} (dec : Discrete P) (W : Wire P) (broken : ℕ → Bool)
    (interval : ℕ) where
  step-IsAttended :
      (g : Gateway D W) (e : Event D W)
      → Encodable W broken
      → IsConsistent D dec W g
      → IsAttended D dec W broken interval g
      → IsAttended D dec W broken interval (step D dec W broken interval g e)
  unfolding step
  step-IsAttended g (begin i client_id (err x) tx span) encode before attended =
      elim (Option-cases (g.handlers i)) [
        | inl free ↦ rw (free, step) attended
        | inr (h, taken) ↦ rw (taken, step) attended
      ]
  step-IsAttended g (begin i client_id (ok p) tx span) encode before attended =
      elim (Option-cases (g.handlers i)) [
        | inl free ↦
            rw (free, step)
              (after_init-IsAttended D dec W broken interval g before attended i tx span
                (init_session W broken client_id p).0 (init_session W broken client_id p).1)
        | inr (h, taken) ↦ rw (taken, step) attended
      ]
  step-IsAttended g (handle i update) encode before attended = elim (Option-cases (g.handlers i)) [
    | inl free ↦ rw (free, step) attended
    | inr (h, live) ↦
        let entered = enter D dec W broken interval g h in
        let turn = on_its_own D dec W broken interval update in
        rw (live, step)
          (after_turn-IsAttended D dec W broken interval g before attended i
            (handle_turn D dec W broken entered turn).0 (handle_turn D dec W broken entered turn).1
            encode (handle_turn-Effect D dec W broken entered update before.wf refl))
  ]
  step-IsAttended g (poll j round) encode before attended = elim (Option-cases (g.pollers j)) [
    | inl free ↦ rw (free, step) attended
    | inr (run, live) ↦
        rw (live, step) (poll-IsAttended D dec W broken interval g before attended j run round live)
  ]

  steps-IsAttended :
      (g : Gateway D W) (es : List (Event D W))
      → Encodable W broken
      → IsConsistent D dec W g
      → IsAttended D dec W broken interval g
      → IsAttended D dec W broken interval (steps D dec W broken interval g es)
  unfolding steps
  steps-IsAttended g [] encode before attended = attended
  steps-IsAttended g (e ∷ es) encode before attended =
      steps-IsAttended (step D dec W broken interval g e) es encode
        (step-IsConsistent D dec W broken interval g e before)
        (step-IsAttended g e encode before attended)

  empty-IsAttended : IsAttended D dec W broken interval (empty_gateway D dec W broken interval)
  unfolding empty_gateway State.new
  empty-IsAttended c a held = let gone = D.get-new {V = PollerState} dec c in absurd (ground arith)

  -- If every envelope can be encoded, then whatever connections, updates and iterations come, in
  -- any order: every canister that has an entry in the gateway state is served by a live poller,
  -- and this poller works on that entry. (A turn of a handler is one step.)
  pub every_canister_is_polled :
      (es : List (Event D W)) (c : P) (a : PollerState)
      → Encodable W broken
      → entry D dec
          (steps D dec W broken interval (empty_gateway D dec W broken interval) es).state
          c
        ≡ some a
      → let g = steps D dec W broken interval (empty_gateway D dec W broken interval) es in
        (j : ℕ) × (run : Run D P) × (g.pollers j ≡ some run)
        × (run.progress ≡ polling)
        × (run.poller.canister_id ≡ c)
        × (run.poller.poller_state ≡ a)
  every_canister_is_polled es c a encode held =
      let start = empty_gateway D dec W broken interval in
      let fine = empty-IsConsistent D dec W broken interval in
      let before = steps-IsConsistent D dec W broken interval start es fine in
      let g = steps D dec W broken interval start es in
      let (j, run, live, serves) =
        steps-IsAttended start es encode fine empty-IsAttended c a held in
      let (on, has) = before.serves j run live in
      (j, run, live, on, serves, ground (arith, ap (entry D dec g.state) serves))
