-- ===== src/Gateway/Consistency.antt =====
-- Every reachable gateway: its live pollers and the entries of its state.
use ic_websocket_gateway.Prelude.{
  ℕ, suc, ◌≤◌, ◌≡◌, ◌≢◌, refl, ap, sym, ◌∙◌, subst, inl, inr, ◌⊎◌, Bool, List, Option, none, some,
  arith, ◌==◌, Bool-cases,
}
use ic_websocket_gateway.DashMap.{DashMap}
use ic_websocket_gateway.State.{GatewayState, PollerState, entry, write}
use ic_websocket_gateway.State.View.{IsWellFormed}
use ic_websocket_gateway.Poller.{new}
use ic_websocket_gateway.Poller.Loop.{Run, polling}
use ic_websocket_gateway.Poller.Log.{start_run}
use ic_websocket_gateway.Session.External.{Wire}
use ic_websocket_gateway.Handler.{Handler, Handling, continues, finished}
use ic_websocket_gateway.Handler.Opening.{Encodable}
use ic_websocket_gateway.Gateway.Effects.{Effect}
use ic_websocket_gateway.Gateway.{Gateway, spawn, after_turn}

pub write-cases :
    {A : Type 0} (a : ℕ) (v : A) (f : ℕ → A) (b : ℕ)
    → ((b ≡ a) × (write a v f b ≡ v)) ⊎ ((b ≢ a) × (write a v f b ≡ f b))
write-cases a v f b = elim (Bool-cases (b == a)) [
  | inl e ↦ inl (ground arith, rw e refl)
  | inr e ↦ inr (ground arith, rw e refl)
]

module _ (D : DashMap) {P : Type 0} (dec : Discrete P) (W : Wire P) where
  -- Each live poller is polling, on the entry that its canister has; no other one serves the same
  -- canister.
  pub record IsConsistent (g : Gateway D W) : Type 0 where
    pub wf : IsWellFormed D dec g.state
    pub serves :
        (j : ℕ) (run : Run D P)
        → g.pollers j ≡ some run
        → (run.progress ≡ polling)
          × (entry D dec g.state run.poller.canister_id ≡ some run.poller.poller_state)
    pub alone :
        (i j : ℕ) (p q : Run D P)
        → g.pollers i ≡ some p
        → g.pollers j ≡ some q
        → p.poller.canister_id ≡ q.poller.canister_id
        → i ≡ j
    pub fresh : (j : ℕ) → g.next_poller ≤ j → g.pollers j ≡ none

  module _ (broken : ℕ → Bool) (interval : ℕ) where
    pub keeps-IsConsistent :
        (g : Gateway D W) (gs : GatewayState D P) (handlers : ℕ → Option (Handler D W))
        → IsConsistent g
        → IsWellFormed D dec gs
        → ((b : P) (a : PollerState) → entry D dec g.state b ≡ some a → entry D dec gs b ≡ some a)
        → IsConsistent (record g { state = gs; handlers = handlers })
    keeps-IsConsistent g gs handlers before wf kept = record {
      wf = wf;
      serves = λ j run at. let (on, held) = before.serves j run at in (on, kept _ _ held);
      alone = before.alone;
      fresh = before.fresh;
    }

    -- A poller more, for a canister that no poller serves.
    module _ (g : Gateway D W) (before : IsConsistent g) (c : P) (a : PollerState)
        (unserved : (j : ℕ) (q : Run D P) → g.pollers j ≡ some q → q.poller.canister_id ≢ c)
        (held : entry D dec g.state c ≡ some a) where
      abbrev new_run : Run D P
      new_run = start_run D dec g.state c a interval

      abbrev and_new : ℕ → Option (Run D P)
      and_new = write g.next_poller (some new_run) g.pollers

      new_run-canister : (p : Run D P) → some new_run ≡ some p → p.poller.canister_id ≡ c
      unfolding new
      new_run-canister p e =
          let same : new_run ≡ p = cc in ap (λ (r : Run D P). r.poller.canister_id) (sym same)

      new_run-serves :
          (p : Run D P)
          → some new_run ≡ some p
          → (p.progress ≡ polling)
            × (entry D dec g.state p.poller.canister_id ≡ some p.poller.poller_state)
      unfolding new
      new_run-serves p e =
          let same : new_run ≡ p = cc in
          subst
            (λ (r : Run D P).
              (r.progress ≡ polling)
              × (entry D dec g.state r.poller.canister_id ≡ some r.poller.poller_state))
            same (refl, held)

      more-IsConsistent :
          IsConsistent (record g { pollers = and_new; next_poller = suc g.next_poller })
      more-IsConsistent = record {
        wf = before.wf;
        serves = λ j run at. elim (write-cases g.next_poller (some new_run) g.pollers j) [
          | inl (e, v) ↦ new_run-serves run (sym v ∙ at)
          | inr (ne, v) ↦ before.serves j run (sym v ∙ at)
        ];
        alone = λ i j p q at bt same. elim (write-cases g.next_poller (some new_run) g.pollers i) [
          | inl (ei, vi) ↦ elim (write-cases g.next_poller (some new_run) g.pollers j) [
            | inl (ej, vj) ↦ ei ∙ sym ej
            | inr (nj, vj) ↦
                absurd (unserved j q (sym vj ∙ bt) (sym same ∙ new_run-canister p (sym vi ∙ at)))
          ]
          | inr (ni, vi) ↦ elim (write-cases g.next_poller (some new_run) g.pollers j) [
            | inl (ej, vj) ↦
                absurd (unserved i p (sym vi ∙ at) (same ∙ new_run-canister q (sym vj ∙ bt)))
            | inr (nj, vj) ↦ before.alone i j p q (sym vi ∙ at) (sym vj ∙ bt) same
          ]
        ];
        fresh = λ j low. elim (write-cases g.next_poller (some new_run) g.pollers j) [
          | inl (e, v) ↦ absurd (omega arith)
          | inr (ne, v) ↦ v ∙ before.fresh j (omega arith)
        ];
      }

    spawn-IsConsistent :
        (g : Gateway D W) (gs : GatewayState D P) (handlers : ℕ → Option (Handler D W))
        (started : List (P × PollerState))
        → IsConsistent g
        → Effect D dec (Encodable W broken) g.state gs started
        → IsConsistent
            (spawn D dec W broken interval (record g { state = gs; handlers = handlers }) started)
    unfolding spawn
    spawn-IsConsistent g gs handlers started before e =
        let kept = keeps-IsConsistent g gs handlers before e.wf e.kept in
        elim e.new_ones [
          | inl none_started ↦ rw none_started kept
          | inr (c, a, one, vacant, made) ↦ rw one (
              more-IsConsistent (record g { state = gs; handlers = handlers }) kept c a
                (λ j q at same.
                  let (_, held) = before.serves j q at in
                  let gone : entry D dec g.state q.poller.canister_id ≡ none = rw same vacant in
                  ground arith)
                made)
        ]

    pub after_turn-IsConsistent :
        (g : Gateway D W) (i : ℕ) (h : Handler D W) (handling : Handling)
        → IsConsistent g
        → Effect D dec (Encodable W broken) g.state h.gateway h.pollers
        → IsConsistent (after_turn D dec W broken interval g i (h, handling))
    after_turn-IsConsistent g i h continues before e = spawn-IsConsistent g _ _ h.pollers before e
    after_turn-IsConsistent g i h (finished r) before e =
        spawn-IsConsistent g _ _ h.pollers before e
    after_turn-IsConsistent g i h (Handling.panicked m) before e =
        spawn-IsConsistent g _ _ h.pollers before e
