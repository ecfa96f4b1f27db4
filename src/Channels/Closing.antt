-- ===== src/Channels/Closing.antt =====
-- A channel whose sending halves are gone: no step gives it one again.
use ic_websocket_gateway.Prelude.{
  ℕ, ◌<◌, ◌≡◌, sym, ap, ◌∙◌, inl, inr, Bool, none, some, arith, Result, String,
}
use ic_websocket_gateway.DashMap.{DashMap}
use ic_websocket_gateway.State.Senders.{sender_at}
use ic_websocket_gateway.Poller.{Round}
use ic_websocket_gateway.Poller.Loop.{Run}
use ic_websocket_gateway.Session.External.{Wire}
use ic_websocket_gateway.Session.{Update, canister_update, client_update, init_session}
use ic_websocket_gateway.Handler.{Handler, Handling, continues, finished, panicked, handle_turn}
use ic_websocket_gateway.Handler.Start.{new_handler}
use ic_websocket_gateway.Gateway.{enter, on_its_own}
use ic_websocket_gateway.Gateway.Consistency.{IsConsistent, write-cases}
use ic_websocket_gateway.Channels.{
  Network, IsClosed, Steps, begins, from_client, from_channel, hangs_up, iterates, Reaches, here,
  next, began, handled, seeing, iterated,
}
use ic_websocket_gateway.Channels.Passing.{handle_turn-Passes}
use ic_websocket_gateway.Channels.Moves.{seat, handle_rest, begin_rest, poll_rest}
use ic_websocket_gateway.Channels.Reachable.{Routed, polled-Within, Reaches-Routed}

module _ (D : DashMap) {P : Type 0} (dec : Discrete P) (W : Wire P) (broken : ℕ → Bool)
    (interval : ℕ) where
  abbrev Net : Type 0
  Net = Network D W

  pub seat-some :
      (r : Handler D W × Handling) (g : Handler D W)
      → seat D dec W broken interval r ≡ some g
      → r.0 ≡ g
  seat-some (h, continues) g e = cc
  seat-some (h, finished x) g e = absurd cc
  seat-some (h, panicked m) g e = absurd cc

  module _ (n : Net) (fine : IsConsistent D dec W n.gateway)
      (routed : Routed D dec W broken interval n) (t : ℕ)
      (shut : IsClosed D dec W broken interval n t) where
    handled-IsClosed :
        (i : ℕ) (h : Handler D W) (u : Update W)
        → n.gateway.handlers i ≡ some h
        → IsClosed D dec W broken interval (handled D dec W broken interval n i u) t
    handled-IsClosed i h u live =
        let r =
          handle_turn D dec W broken (enter D dec W broken interval n.gateway h)
            (on_its_own D dec W broken interval u) in
        let (same_state, same_handlers) =
          handle_rest D dec W broken interval n.gateway i h u live in
        let passes =
          handle_turn-Passes D dec W broken interval n.gateway h u fine.wf (routed.runs i h live) in
        record {
          unheld = λ j g e held.
              elim (write-cases i (seat D dec W broken interval r) n.gateway.handlers j) [
                | inl (_, v) ↦
                    let is : r.0 ≡ g =
                      seat-some r g (sym v ∙ sym (ap (λ hs. hs j) same_handlers) ∙ e) in
                    shut.unheld i h live
                      (passes.held t (ap (λ (x : Handler D W). x.client_channel_tx) is ∙ held))
                | inr (_, v) ↦
                    shut.unheld j g (sym v ∙ sym (ap (λ hs. hs j) same_handlers) ∙ e) held
              ];
          unshared = λ c k v e at.
              elim (passes.sent c k v (ap (λ gs. sender_at D dec gs c k) (sym same_state) ∙ e)) [
                | inl old ↦ shut.unshared c k v old at
                | inr (own, _, _) ↦ shut.unheld i h live (own ∙ ap some at)
              ];
        }

    polled-IsClosed :
        (j : ℕ) (run : Run D P) (round : Round D P)
        → n.gateway.pollers j ≡ some run
        → IsClosed D dec W broken interval (iterated D dec W broken interval n j run round) t
    polled-IsClosed j run round live =
        let seen = seeing D dec W broken interval n run round in
        let (same_state, same_handlers) =
          poll_rest D dec W broken interval n.gateway j run seen live in
        record {
          unheld = λ i h e. shut.unheld i h (sym (ap (λ hs. hs i) same_handlers) ∙ e);
          unshared = λ c k v e. shut.unshared c k v (
              polled-Within D dec W broken interval n fine routed j run seen live c k v
                (ap (λ gs. sender_at D dec gs c k) (sym same_state) ∙ e));
        }

    began-IsClosed :
        (i client_id : ℕ) (get_principal : Result P String) (span : ℕ)
        → t < n.next_channel
        → n.gateway.handlers i ≡ none
        → IsClosed D dec W broken interval
            (began D dec W broken interval n i client_id get_principal span)
            t
    began-IsClosed i client_id get_principal span old free =
        let (same_state, which) =
          begin_rest D dec W broken interval n.gateway i client_id get_principal n.next_channel span
            free in
        record {
          unheld = λ j g e held. elim which [
            | inl same ↦ shut.unheld j g (sym (ap (λ hs. hs j) same) ∙ e) held
            | inr (p, _, same) ↦
                let new : Handler D W =
                  new_handler D dec W broken n.gateway.state n.next_channel span
                    (init_session W broken client_id p).0 in
                elim (write-cases i (some new) n.gateway.handlers j) [
                  | inl (_, v) ↦
                      let one : some new ≡ some g = sym v ∙ sym (ap (λ hs. hs j) same) ∙ e in
                      let is : new ≡ g = cc in
                      let its : some n.next_channel ≡ some t =
                        ap (λ (x : Handler D W). x.client_channel_tx) is ∙ held in
                      ground arith
                  | inr (_, v) ↦ shut.unheld j g (sym v ∙ sym (ap (λ hs. hs j) same) ∙ e) held
                ]
          ];
          unshared = λ c k v e.
              shut.unshared c k v (ap (λ gs. sender_at D dec gs c k) (sym same_state) ∙ e);
        }

  pub Steps-IsClosed :
      (n m : Net) (t : ℕ)
      → Steps D dec W broken interval n m
      → IsConsistent D dec W n.gateway
      → Routed D dec W broken interval n
      → t < n.next_channel
      → IsClosed D dec W broken interval n t
      → IsClosed D dec W broken interval m t × (t < m.next_channel)
  Steps-IsClosed n _ t (begins i client_id p span free) fine routed old shut =
      (began-IsClosed n fine routed t shut i client_id p span old free, omega arith)
  Steps-IsClosed n _ t (from_client i h m live) fine routed old shut =
      (handled-IsClosed n fine routed t shut i h (client_update m) live, old)
  Steps-IsClosed n _ t (from_channel i h post posts live full) fine routed old shut =
      let still =
        handled-IsClosed n fine routed t shut i h (canister_update (some post.1.message)) live in
      (record { unheld = still.unheld; unshared = still.unshared }, old)
  Steps-IsClosed n _ t (hangs_up i h live empty over) fine routed old shut =
      (handled-IsClosed n fine routed t shut i h (canister_update none) live, old)
  Steps-IsClosed n _ t (iterates j run round live) fine routed old shut =
      (polled-IsClosed n fine routed t shut j run round live, old)

  pub Reaches-IsClosed :
      (n m : Net) (t : ℕ)
      → Reaches D dec W broken interval n m
      → IsConsistent D dec W n.gateway
      → Routed D dec W broken interval n
      → t < n.next_channel
      → IsClosed D dec W broken interval n t
      → IsClosed D dec W broken interval m t × (t < m.next_channel)
  Reaches-IsClosed n _ t here fine routed old shut = (shut, old)
  Reaches-IsClosed n m t (next {m = o} there last) fine routed old shut =
      let (fine', routed') = Reaches-Routed D dec W broken interval n o there fine routed in
      let (shut', old') = Reaches-IsClosed n o t there fine routed old shut in
      Steps-IsClosed o m t last fine' routed' old' shut'
