-- ===== src/Gateway/Reachable.antt =====
-- The steps of the gateway, one after another: what every reachable gateway has.
use ic_websocket_gateway.Prelude.{
  ℕ, ◌≡◌, ◌↔◌, ◌≢◌, refl, ap, sym, ◌∙◌, subst, inl, inr, Bool, List, [], ◌∷◌, Option, none, some,
  arith, if◌then◌else◌, Option-cases, ok, err,
}
use ic_websocket_gateway.DashMap.{DashMap}
use ic_websocket_gateway.State.{entry, write}
use ic_websocket_gateway.State.View.{new-IsWellFormed}
use ic_websocket_gateway.Poller.{Round}
use ic_websocket_gateway.Poller.Loop.{Run, polling, panicked, is_polling}
use ic_websocket_gateway.Poller.Log.{Progress-cases}
use ic_websocket_gateway.Poller.Termination.{entry_while}
use ic_websocket_gateway.Session.External.{Wire}
use ic_websocket_gateway.Session.Monad.{Answer, returns, fails, panics}
use ic_websocket_gateway.Session.{ClientSession, init_session}
use ic_websocket_gateway.Handler.{handle_turn}
use ic_websocket_gateway.Gateway.Turns.{handle_turn-Effect}
use ic_websocket_gateway.Gateway.Rounds.{Ending, run_round-Ending}
use ic_websocket_gateway.Gateway.Consistency.{
  write-cases, IsConsistent, keeps-IsConsistent, after_turn-IsConsistent,
}
use ic_websocket_gateway.Gateway.{
  Gateway, Event, begin, handle, poll, empty_gateway, after_init, enter, on_its_own, poll_alone,
  step, steps,
}

module _ (D : DashMap) {P : Type 0} (dec : Discrete P) (W : Wire P) where
  -- The place of a poller after an iteration.
  abbrev pub place : Run D P → Option (Run D P)
  place r = if is_polling D dec r.progress then some r else none

  place-some : (r p : Run D P) → place r ≡ some p → (r ≡ p) × (r.progress ≡ polling)
  place-some r p e = elim (Progress-cases D dec r.progress) [
    | inl on ↦ (ground arith, on)
    | inr off ↦ absurd (ground arith)
  ]

  same_poller :
      (pollers : ℕ → Option (Run D P)) (i j : ℕ) (p q : Run D P)
      → pollers i ≡ some p
      → pollers j ≡ some q
      → i ≡ j
      → p.poller.canister_id ≡ q.poller.canister_id
  same_poller pollers i j p q at bt e =
      let one : some p ≡ some q = sym at ∙ ap pollers e ∙ bt in
      let same : p ≡ q = cc in ap (λ (r : Run D P). r.poller.canister_id) same

  module _ (broken : ℕ → Bool) (interval : ℕ) where
    module _ (g : Gateway D W) (j : ℕ) (run : Run D P) (round : Round D P)
        (before : IsConsistent D dec W g) (live : g.pollers j ≡ some run) where
      abbrev after : Run D P
      after = poll_alone D dec W broken interval g run round

      pub ending :
          Ending D dec
            (record run { gateway = g.state })
            (record round { others = λ gs. gs })
            run.poller.poller_state
      ending =
          run_round-Ending D dec (record run { gateway = g.state })
            (record round { others = λ gs. gs }) run.poller.poller_state
            (before.serves j run live).1 before.wf

      others_served :
          (i : ℕ) (p : Run D P)
          → i ≢ j
          → g.pollers i ≡ some p
          → (p.progress ≡ polling)
            × (entry D dec after.gateway p.poller.canister_id ≡ some p.poller.poller_state)
      others_served i p ne at =
          let (on, held) = before.serves i p at in
          (
            on,
            ending.elsewhere p.poller.canister_id (λ e. ne (before.alone i j p run at live e))
                ∙ held,
          )

      this_served :
          (p : Run D P)
          → place after ≡ some p
          → (p.progress ≡ polling)
            × (entry D dec after.gateway p.poller.canister_id ≡ some p.poller.poller_state)
            × (p.poller.canister_id ≡ run.poller.canister_id)
      this_served p e =
          let (same, on) = place-some after p e in
          subst
            (λ (q : Run D P).
              (q.progress ≡ polling)
              × (entry D dec after.gateway q.poller.canister_id ≡ some q.poller.poller_state)
              × (q.poller.canister_id ≡ run.poller.canister_id))
            same
            (
              on,
              ap (entry D dec after.gateway) ending.same
                  ∙ ending.held
                  ∙ ap (λ x. entry_while D dec x run.poller.poller_state) on
                  ∙ ap some (sym ending.same_state),
              ending.same,
            )

      poll-IsConsistent :
          IsConsistent D dec W
            (record g { state = after.gateway; pollers = write j (place after) g.pollers })
      poll-IsConsistent = record {
        wf = ending.wf;
        serves = λ i p at. elim (write-cases j (place after) g.pollers i) [
          | inl (e, v) ↦ let (on, held, _) = this_served p (sym v ∙ at) in (on, held)
          | inr (ne, v) ↦ others_served i p ne (sym v ∙ at)
        ];
        alone = λ i l p q at bt same. elim (write-cases j (place after) g.pollers i) [
          | inl (ei, vi) ↦ elim (write-cases j (place after) g.pollers l) [
            | inl (el, vl) ↦ ei ∙ sym el
            | inr (nl, vl) ↦
                let (_, _, id) = this_served p (sym vi ∙ at) in
                absurd (nl (sym (before.alone j l run q live (sym vl ∙ bt) (sym id ∙ same))))
          ]
          | inr (ni, vi) ↦ elim (write-cases j (place after) g.pollers l) [
            | inl (el, vl) ↦
                let (_, _, id) = this_served q (sym vl ∙ bt) in
                absurd (ni (before.alone i j p run (sym vi ∙ at) live (same ∙ id)))
            | inr (nl, vl) ↦ before.alone i l p q (sym vi ∙ at) (sym vl ∙ bt) same
          ]
        ];
        fresh = λ i low. elim (write-cases j (place after) g.pollers i) [
          | inl (e, v) ↦ absurd (ground (arith, before.fresh i))
          | inr (ne, v) ↦ v ∙ before.fresh i low
        ];
      }

    after_init-IsConsistent :
        (g : Gateway D W) (i tx span : ℕ) (s : ClientSession W) (answer : Answer (Unit {0}))
        → IsConsistent D dec W g
        → IsConsistent D dec W (after_init D dec W broken interval g i tx span (s, answer))
    after_init-IsConsistent g i tx span s (returns _) before =
        keeps-IsConsistent D dec W broken interval g g.state _ before before.wf (λ b a e. e)
    after_init-IsConsistent g i tx span s (fails e) before = before
    after_init-IsConsistent g i tx span s (panics m) before = before

    pub step-IsConsistent :
        (g : Gateway D W) (e : Event D W)
        → IsConsistent D dec W g
        → IsConsistent D dec W (step D dec W broken interval g e)
    unfolding step
    step-IsConsistent g (begin i client_id (err x) tx span) before =
        elim (Option-cases (g.handlers i)) [
          | inl free ↦ rw (free, step) before
          | inr (h, taken) ↦ rw (taken, step) before
        ]
    step-IsConsistent g (begin i client_id (ok p) tx span) before =
        elim (Option-cases (g.handlers i)) [
          | inl free ↦
              rw (free, step)
                (after_init-IsConsistent g i tx span (init_session W broken client_id p).0
                  (init_session W broken client_id p).1 before)
          | inr (h, taken) ↦ rw (taken, step) before
        ]
    step-IsConsistent g (handle i update) before = elim (Option-cases (g.handlers i)) [
      | inl free ↦ rw (free, step) before
      | inr (h, live) ↦
          let entered = enter D dec W broken interval g h in
          let turn = on_its_own D dec W broken interval update in
          rw (live, step)
            (after_turn-IsConsistent D dec W broken interval g i
              (handle_turn D dec W broken entered turn).0
              (handle_turn D dec W broken entered turn).1 before
              (handle_turn-Effect D dec W broken entered update before.wf refl))
    ]
    step-IsConsistent g (poll j round) before = elim (Option-cases (g.pollers j)) [
      | inl free ↦ rw (free, step) before
      | inr (run, live) ↦ rw (live, step) (poll-IsConsistent g j run round before live)
    ]

    pub steps-IsConsistent :
        (g : Gateway D W) (es : List (Event D W))
        → IsConsistent D dec W g
        → IsConsistent D dec W (steps D dec W broken interval g es)
    unfolding steps
    steps-IsConsistent g [] before = before
    steps-IsConsistent g (e ∷ es) before =
        steps-IsConsistent (step D dec W broken interval g e) es (step-IsConsistent g e before)

    pub empty-IsConsistent : IsConsistent D dec W (empty_gateway D dec W broken interval)
    unfolding empty_gateway
    empty-IsConsistent = record {
      wf = new-IsWellFormed D dec;
      serves = λ j run e. cc;
      alone = λ i j p q e f same. cc;
      fresh = λ j low. refl;
    }

    -- Whatever connections, updates and iterations come, and in whatever order handlers and pollers
    -- act on the shared state: a live poller serves the entry that its canister has now, two live
    -- pollers serve the same canister only if they are the same, and none panics at the end of an
    -- iteration, since its entry is there when it gives it up. (A turn of a handler is one step.)
    pub pollers_are_consistent :
        (es : List (Event D W)) (i j : ℕ) (p q : Run D P) (round : Round D P)
        → (steps D dec W broken interval (empty_gateway D dec W broken interval) es).pollers i
          ≡ some p
        → (steps D dec W broken interval (empty_gateway D dec W broken interval) es).pollers j
          ≡ some q
        → let g = steps D dec W broken interval (empty_gateway D dec W broken interval) es in
          (entry D dec g.state p.poller.canister_id ≡ some p.poller.poller_state)
          × ((p.poller.canister_id ≡ q.poller.canister_id) ↔ (i ≡ j))
          × ((poll_alone D dec W broken interval g p round).progress ≢ panicked)
    pollers_are_consistent es i j p q round at bt =
        let g = steps D dec W broken interval (empty_gateway D dec W broken interval) es in
        let fine =
          steps-IsConsistent (empty_gateway D dec W broken interval) es empty-IsConsistent in
        (
          (fine.serves i p at).1,
          (fine.alone i j p q at bt, λ e. same_poller g.pollers i j p q at bt e),
          (ending g i p round fine at).alive,
        )
