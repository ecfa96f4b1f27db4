-- ===== src/Gateway/Attended.antt =====
-- Every reachable gateway: the entries of its state have live pollers, and each kind of step
-- keeps this.
use ic_websocket_gateway.Prelude.{
  ℕ, ◌≡◌, ◌≢◌, refl, ap, sym, ◌∙◌, inl, inr, List, [], ◌∷◌, Option, some, arith, Bool,
}
use ic_websocket_gateway.DashMap.{DashMap}
use ic_websocket_gateway.State.{GatewayState, PollerState, entry, write}
use ic_websocket_gateway.Poller.{Round, new}
use ic_websocket_gateway.Poller.Loop.{Run, Progress, polling, returned, panicked}
use ic_websocket_gateway.Poller.Termination.{entry_while}
use ic_websocket_gateway.Poller.Log.{start_run}
use ic_websocket_gateway.Session.External.{Wire}
use ic_websocket_gateway.Session.Monad.{Answer, returns, fails, panics}
use ic_websocket_gateway.Session.{ClientSession}
use ic_websocket_gateway.Handler.{Handler, Handling, continues, finished}
use ic_websocket_gateway.Handler.Opening.{Encodable}
use ic_websocket_gateway.Gateway.Effects.{Effect}
use ic_websocket_gateway.Gateway.Consistency.{write-cases, IsConsistent}
use ic_websocket_gateway.Gateway.Reachable.{place, ending}
use ic_websocket_gateway.Gateway.{Gateway, after_init, spawn, after_turn, poll_alone}

module _ (D : DashMap) {P : Type 0} (dec : Discrete P) (W : Wire P) (broken : ℕ → Bool)
    (interval : ℕ) where
  -- A live poller for the canister.
  abbrev Serving : Gateway D W → P → Type 0
  Serving g c = (j : ℕ) × (run : Run D P) × (g.pollers j ≡ some run) × (run.poller.canister_id ≡ c)

  abbrev pub IsAttended : Gateway D W → Type 0
  IsAttended g = (c : P) (a : PollerState) → entry D dec g.state c ≡ some a → Serving g c

  polling-place : (r : Run D P) → r.progress ≡ polling → place D dec W r ≡ some r
  polling-place r e = rw e refl

  entry_while-some :
      (x : Progress) (a b : PollerState)
      → x ≢ panicked
      → entry_while D dec x a ≡ some b
      → x ≡ polling
  entry_while-some polling a b alive e = refl
  entry_while-some (returned x) a b alive e = absurd (ground arith)
  entry_while-some panicked a b alive e = absurd (alive refl)

  module _ (g : Gateway D W) (before : IsConsistent D dec W g) (attended : IsAttended g) where
    live-old : (j : ℕ) (run : Run D P) → g.pollers j ≡ some run → j ≢ g.next_poller
    live-old j run live e =
        let gone = before.fresh g.next_poller (omega arith) in
        let here : g.pollers g.next_poller ≡ some run = ap g.pollers (sym e) ∙ live in ground arith

    spawn-Serving :
        (gs : GatewayState D P) (handlers : ℕ → Option (Handler D W))
        (started : List (P × PollerState))
        → Effect D dec (Encodable W broken) g.state gs started
        → (b : P) → Serving g b
        → Serving
            (spawn D dec W broken interval (record g { state = gs; handlers = handlers }) started)
            b
    unfolding spawn
    spawn-Serving gs handlers started e b (j, run, live, same) = elim e.new_ones [
      | inl none_started ↦ rw none_started (j, run, live, same)
      | inr (c, a, one, _, _) ↦
          let run' = start_run D dec gs c a interval in
          rw one (elim (write-cases g.next_poller (some run') g.pollers j) [
            | inl (taken, _) ↦ absurd (live-old j run live taken)
            | inr (_, v) ↦ (j, run, v ∙ live, same)
          ])
    ]

    spawned-Serving :
        (gs : GatewayState D P) (handlers : ℕ → Option (Handler D W))
        (started : List (P × PollerState)) (b : P) (a : PollerState)
        → started ≡ (b, a) ∷ []
        → Serving
            (spawn D dec W broken interval (record g { state = gs; handlers = handlers }) started)
            b
    unfolding spawn new
    spawned-Serving gs handlers started b a one =
        let run' = start_run D dec gs b a interval in
        rw one (elim (write-cases g.next_poller (some run') g.pollers g.next_poller) [
          | inl (_, v) ↦ (g.next_poller, run', v, refl)
          | inr (never, _) ↦ absurd (never refl)
        ])

    spawn-state :
        (gs : GatewayState D P) (handlers : ℕ → Option (Handler D W))
        (started : List (P × PollerState))
        → Effect D dec (Encodable W broken) g.state gs started
        → (let g' =
              spawn D dec W broken interval
                (record g { state = gs; handlers = handlers })
                started in
            g'.state ≡ gs)
    unfolding spawn
    spawn-state gs handlers started e = elim e.new_ones [
      | inl none_started ↦ rw none_started refl
      | inr (c, a, one, _, _) ↦ rw one refl
    ]

    spawn-IsAttended :
        (gs : GatewayState D P) (handlers : ℕ → Option (Handler D W))
        (started : List (P × PollerState))
        → Encodable W broken
        → Effect D dec (Encodable W broken) g.state gs started
        → IsAttended
            (spawn D dec W broken interval (record g { state = gs; handlers = handlers }) started)
    spawn-IsAttended gs handlers started encode e c a held =
        let held' : entry D dec gs c ≡ some a =
          ap (λ x. entry D dec x c) (sym (spawn-state gs handlers started e)) ∙ held in
        elim (e.back encode c a held') [
          | inl old ↦ spawn-Serving gs handlers started e c (attended c a old)
          | inr one ↦ spawned-Serving gs handlers started c a one
        ]

    pub after_turn-IsAttended :
        (i : ℕ) (h : Handler D W) (handling : Handling)
        → Encodable W broken
        → Effect D dec (Encodable W broken) g.state h.gateway h.pollers
        → IsAttended (after_turn D dec W broken interval g i (h, handling))
    after_turn-IsAttended i h continues encode e = spawn-IsAttended _ _ h.pollers encode e
    after_turn-IsAttended i h (finished r) encode e = spawn-IsAttended _ _ h.pollers encode e
    after_turn-IsAttended i h (Handling.panicked m) encode e =
        spawn-IsAttended _ _ h.pollers encode e

    pub after_init-IsAttended :
        (i tx span : ℕ) (s : ClientSession W) (answer : Answer (Unit {0}))
        → IsAttended (after_init D dec W broken interval g i tx span (s, answer))
    after_init-IsAttended i tx span s (returns _) = attended
    after_init-IsAttended i tx span s (fails e) = attended
    after_init-IsAttended i tx span s (panics m) = attended

    -- A poller that goes on still serves its canister, and one that ends has removed the entry.
    pub poll-IsAttended :
        (j : ℕ) (run : Run D P) (round : Round D P)
        → g.pollers j ≡ some run
        → let after = poll_alone D dec W broken interval g run round in
          IsAttended
            (record g { state = after.gateway; pollers = write j (place D dec W after) g.pollers })
    poll-IsAttended j run round live c a held =
        let after = poll_alone D dec W broken interval g run round in
        let end = ending D dec W broken interval g j run round before live in
        elim (dec c run.poller.canister_id) [
          | yes same ↦
              let on : after.progress ≡ polling =
                entry_while-some after.progress run.poller.poller_state a end.alive
                  (sym end.held ∙ ap (entry D dec after.gateway) (sym same) ∙ held) in
              elim (write-cases j (place D dec W after) g.pollers j) [
                | inl (_, v) ↦ (j, after, v ∙ polling-place after on, end.same ∙ sym same)
                | inr (never, _) ↦ absurd (never refl)
              ]
          | no other ↦
              let (i, p, at, serves) = attended c a (sym (end.elsewhere c other) ∙ held) in
              elim (write-cases j (place D dec W after) g.pollers i) [
                | inl (e, _) ↦
                    let one : some p ≡ some run = sym at ∙ ap g.pollers e ∙ live in
                    absurd (ground arith)
                | inr (_, v) ↦ (i, p, v ∙ at, serves)
              ]
        ]
