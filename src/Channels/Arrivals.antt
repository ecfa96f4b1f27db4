-- ===== src/Channels/Arrivals.antt =====
-- A new connection in a network: the invariant of the channels is kept.
use ic_websocket_gateway.Prelude.{
  ℕ, suc, ◌<◌, ◌≡◌, refl, sym, ap, subst, ◌∙◌, inl, inr, Bool, List, Option, none, some, arith, All,
}
use ic_websocket_gateway.DashMap.{DashMap}
use ic_websocket_gateway.State.{GatewayState, write}
use ic_websocket_gateway.Session.External.{Wire}
use ic_websocket_gateway.Session.{ClientSession}
use ic_websocket_gateway.Handler.Panics.{Sound, Runs}
use ic_websocket_gateway.Handler.{Handler}
use ic_websocket_gateway.Handler.Start.{new_handler}
use ic_websocket_gateway.Gateway.Consistency.{write-cases}
use ic_websocket_gateway.Channels.Routing.{IsRouted, For}
use ic_websocket_gateway.Channels.Hands.{Keys}
use ic_websocket_gateway.Channels.{Post}

module _ (D : DashMap) {P : Type 0} (dec : Discrete P) (W : Wire P) (broken : ℕ → Bool)
    (gs : GatewayState D P) (handlers : ℕ → Option (Handler D W)) (channels : ℕ → List (Post P))
    (receivers : ℕ → ℕ) (next_channel : ℕ)
    (before : IsRouted D dec W broken gs handlers channels receivers next_channel) (i : ℕ)
    (free : handlers i ≡ none) where
  abbrev receivers' : ℕ → ℕ
  receivers' = write i next_channel receivers

  kept : (j : ℕ) (h : Handler D W) → handlers j ≡ some h → receivers' j ≡ receivers j
  kept j h live = elim (write-cases i next_channel receivers j) [
    | inl (same, _) ↦ let gone : some h ≡ none = sym live ∙ ap handlers same ∙ free in absurd cc
    | inr (_, v) ↦ v
  ]

  -- A connection that gets no handler uses up a number.
  pub refused-IsRouted : IsRouted D dec W broken gs handlers channels receivers' (suc next_channel)
  refused-IsRouted = record {
    runs = before.runs;
    own = λ j h t live e. before.own j h t live e ∙ sym (kept j h live);
    apart = λ j l h g live at same.
        before.apart j l h g live at (sym (kept j h live) ∙ same ∙ kept l g at);
    known = λ j h live. ground (arith, before.known j h live, kept j h live);
    senders = λ c k v e. ground (arith, before.senders c k v e);
    keyed = λ j h c k v live e at. before.keyed j h c k v live e (at ∙ kept j h live);
    filled = λ j h live. rw (kept j h live) (before.filled j h live);
    unused = λ t high. before.unused t (omega arith);
  }

  module _ (span : ℕ) (s : ClientSession W) (sound : Sound D dec W broken s) where
    abbrev newcomer : Handler D W
    newcomer = new_handler D dec W broken gs next_channel span s

    abbrev handlers' : ℕ → Option (Handler D W)
    handlers' = write i (some newcomer) handlers

    newcomer-Runs : Runs D dec W broken newcomer
    newcomer-Runs = record { sound = sound; channel = λ e f. cc }

    its_channel : receivers' i ≡ next_channel
    its_channel = elim (write-cases i next_channel receivers i) [
      | inl (_, v) ↦ v
      | inr (never, _) ↦ absurd (never refl)
    ]

    -- What holds of the newcomer, and of every handler before it, holds of every handler.
    each :
        (Q : ℕ → Handler D W → Type 0)
        → Q i newcomer
        → ((j : ℕ) (h : Handler D W) → handlers j ≡ some h → Q j h)
        → (j : ℕ) (h : Handler D W) → handlers' j ≡ some h
        → Q j h
    each Q new old j h e = elim (write-cases i (some newcomer) handlers j) [
      | inl (same, v) ↦
          let one : some newcomer ≡ some h = sym v ∙ e in
          let equal : newcomer ≡ h = cc in
          subst (λ (x : Handler D W). Q j x) equal (subst (λ l. Q l newcomer) (sym same) new)
      | inr (_, v) ↦ old j h (sym v ∙ e)
    ]

    -- A handler more, with a new channel.
    pub begun-IsRouted : IsRouted D dec W broken gs handlers' channels receivers' (suc next_channel)
    begun-IsRouted =
        let base = refused-IsRouted in
        record {
          runs = each (λ _ h. Runs D dec W broken h) newcomer-Runs base.runs;
          own = λ j h t e.
              each (λ j h. h.client_channel_tx ≡ some t → t ≡ receivers' j)
                (λ f. let same : t ≡ next_channel = ground arith in same ∙ sym its_channel)
                (λ j h live. base.own j h t live) j h e;
          apart = λ j l h g e f.
              each (λ j _. receivers' j ≡ receivers' l → j ≡ l)
                (each (λ l _. receivers' i ≡ receivers' l → i ≡ l) (λ _. refl)
                  (λ l g at same.
                    let low = before.known l g at in
                    absurd (ground (arith, kept l g at, its_channel)))
                  l g f)
                (λ j h live.
                  each (λ l _. receivers' j ≡ receivers' l → j ≡ l)
                    (λ same.
                      let low = before.known j h live in
                      absurd (ground (arith, kept j h live, its_channel)))
                    (λ l g at same. base.apart j l h g live at same) l g f)
                j h e;
          known =
              each (λ j _. receivers' j < suc next_channel) (rw its_channel (omega arith))
                base.known;
          senders = base.senders;
          keyed = λ j h c k v e there.
              each (λ j h. v.sender ≡ receivers' j → Keys D dec W broken h k c)
                (λ at. let low = before.senders c k v there in absurd (ground (arith, its_channel)))
                (λ j h live at. base.keyed j h c k v live there at) j h e;
          filled =
              each (λ j h. All (For D dec W broken h) (channels (receivers' j)))
                (rw (its_channel, before.unused next_channel (omega arith)) tt) base.filled;
          unused = base.unused;
        }
