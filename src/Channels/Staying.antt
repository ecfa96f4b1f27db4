-- ===== src/Channels/Staying.antt =====
-- What can end the connection of a client to its poller, among all that may happen.
use ic_websocket_gateway.Prelude.{
  ℕ, ◌≡◌, refl, sym, ap, ◌∙◌, ◌⊎◌, inl, inr, Bool, [], none, some, arith, err, Result-cases,
}
use ic_websocket_gateway.DashMap.{DashMap}
use ic_websocket_gateway.CanisterUtils.{ClientKey}
use ic_websocket_gateway.State.{GatewayState, ClientSender}
use ic_websocket_gateway.State.Senders.{sender_at}
use ic_websocket_gateway.State.Kept.{remove_canister_if_empty_stays}
use ic_websocket_gateway.Poller.{Round, PollError, poll_and_relay}
use ic_websocket_gateway.Poller.Loop.{Run}
use ic_websocket_gateway.Session.External.{Wire}
use ic_websocket_gateway.Session.{Update, client_update, canister_update}
use ic_websocket_gateway.Session.Transitions.{try_update_state}
use ic_websocket_gateway.Handler.{Handler, handle_turn}
use ic_websocket_gateway.Gateway.Consistency.{IsConsistent}
use ic_websocket_gateway.Gateway.Rounds.{gateway_fine, gateway_failed}
use ic_websocket_gateway.Channels.{
  Network, new_network, Steps, begins, from_client, from_channel, hangs_up, iterates, Reaches,
  handled, seeing, iterated,
}
use ic_websocket_gateway.Channels.Moves.{handle_rest, begin_rest, poll_rest}
use ic_websocket_gateway.Channels.Reachable.{Reaches-Routed, new_network-Routed}
use ic_websocket_gateway.Channels.HangUp.{result-others}
use ic_websocket_gateway.Channels.Sparing.{on_answer-Spares}

module _ (D : DashMap) {P : Type 0} (dec : Discrete P) (W : Wire P) (broken : ℕ → Bool)
    (interval : ℕ) where
  abbrev Net : Type 0
  Net = Network D W

  -- From `n` to `m`, the poller of the canister has had an iteration that failed.
  abbrev pub PollerFails : Net → Net → P → Type 0
  PollerFails n m c =
      (j : ℕ) × (run : Run D P) × (round : Round D P) × (e : PollError) × (n.gateway.pollers j
        ≡ some run)
      × (m.gateway ≡ (iterated D dec W broken interval n j run round).gateway)
      × (run.poller.canister_id ≡ c)
      × ((poll_and_relay run.poller round).result ≡ err e)

  -- From `n` to `m`, a handler has got an update with which its session is that of the client of the
  -- canister.
  abbrev pub SessionActs : Net → Net → P → ClientKey P → Type 0
  SessionActs n m c k =
      (l : ℕ) × (g : Handler D W) × (u : Update W) × (n.gateway.handlers l ≡ some g)
      × (m.gateway ≡ (handled D dec W broken interval n l u).gateway)
      × ((try_update_state W broken u g.session).0.client_key ≡ some k)
      × ((try_update_state W broken u g.session).0.canister_id ≡ some c)

  abbrev Stay : Net → Net → P → ClientKey P → ClientSender → Type 0
  Stay n m c k v =
      (sender_at D dec m.gateway.state c k ≡ some v) ⊎ PollerFails n m c ⊎ SessionActs n m c k

  module _ (n : Net) (fine : IsConsistent D dec W n.gateway) (c : P) (k : ClientKey P)
      (v : ClientSender) (has : sender_at D dec n.gateway.state c k ≡ some v) where
    handled-Stay :
        (l : ℕ) (g : Handler D W) (u : Update W)
        → n.gateway.handlers l ≡ some g
        → Stay n (handled D dec W broken interval n l u) c k v
    unfolding handle_turn
    handled-Stay l g u live =
        let (s, answer) = try_update_state W broken u g.session in
        let (same_state, _) = handle_rest D dec W broken interval n.gateway l g u live in
        elim (on_answer-Spares D dec W broken c k v
          (record g { gateway = n.gateway.state; pollers = []; session = s }) answer fine.wf has) [
            | inl there ↦ inl (ap (λ gs. sender_at D dec gs c k) same_state ∙ there)
            | inr (key, canister) ↦ inr (inr (l, g, u, live, refl, key, canister))
          ]

    removed_elsewhere :
        (gs : GatewayState D P) (b : P)
        → sender_at D dec gs c k ≡ some v
        → (sender_at D dec (record gs { inner_data = D.remove dec b gs.inner_data }) c k ≡ some v)
          ⊎ (b ≡ c)
    removed_elsewhere gs b here = elim (dec c b) [
      | yes same ↦ inr (sym same)
      | no other ↦ inl (ground (arith, D.get-remove dec b gs.inner_data c))
    ]

    iterated-Stay :
        (j : ℕ) (run : Run D P) (round : Round D P)
        → n.gateway.pollers j ≡ some run
        → Stay n (iterated D dec W broken interval n j run round) c k v
    iterated-Stay j run round live =
        let seen = seeing D dec W broken interval n run round in
        let gs = n.gateway.state in
        let alone : Round D P = record seen { others = λ gs. gs } in
        let here : Run D P = record run { gateway = gs } in
        let (same_state, _) = poll_rest D dec W broken interval n.gateway j run seen live in
        elim (Result-cases (poll_and_relay run.poller alone).result) [
          | inl (u, good) ↦ inl (
              ap (λ x. sender_at D dec x c k) (same_state ∙ gateway_fine D dec here alone good)
              ∙ remove_canister_if_empty_stays D dec gs c k v has fine.wf run.poller.canister_id)
          | inr (e, bad) ↦
              let failed =
                gateway_failed D dec here alone e run.poller.poller_state bad
                  (fine.serves j run live).1 in
              elim (removed_elsewhere gs run.poller.canister_id has) [
                | inl there ↦ inl (ap (λ x. sender_at D dec x c k) (same_state ∙ failed) ∙ there)
                | inr same ↦ inr (
                    inl (
                      j,
                      run,
                      round,
                      e,
                      live,
                      refl,
                      same,
                      sym (result-others run.poller round (λ gs. gs) seen.client_at) ∙ bad,
                    ))
              ]
        ]

  -- Whatever step the gateway makes, the sending half that it holds for a client stays, unless the
  -- step is an iteration in which the poller of the client's canister fails, or a turn of a handler
  -- whose session is of this very client of this canister: the client's own, or another one with the
  -- same key. No other client, canister or poller can cut a client off.
  pub client_stays_connected :
      (n m : Net) (c : P) (k : ClientKey P) (v : ClientSender)
      → Reaches D dec W broken interval (new_network D dec W broken interval) n
      → Steps D dec W broken interval n m
      → sender_at D dec n.gateway.state c k ≡ some v
      → (sender_at D dec m.gateway.state c k ≡ some v) ⊎ PollerFails n m c ⊎ SessionActs n m c k
  client_stays_connected n m c k v reached step has =
      let (fine, _) =
        Reaches-Routed D dec W broken interval (new_network D dec W broken interval) n reached
          (new_network-Routed D dec W broken interval).0
          (new_network-Routed D dec W broken interval).1 in
      stays n m c k v fine has step
    where
      stays :
          (n m : Net) (c : P) (k : ClientKey P) (v : ClientSender)
          → IsConsistent D dec W n.gateway
          → sender_at D dec n.gateway.state c k ≡ some v
          → Steps D dec W broken interval n m
          → Stay n m c k v
      stays n _ c k v fine has (begins i client_id p span free) =
          let (same_state, _) =
            begin_rest D dec W broken interval n.gateway i client_id p n.next_channel span free in
          inl (ap (λ gs. sender_at D dec gs c k) same_state ∙ has)
      stays n _ c k v fine has (from_client l g u live) =
          handled-Stay n fine c k v has l g (client_update u) live
      stays n _ c k v fine has (from_channel l g post posts live full) =
          handled-Stay n fine c k v has l g (canister_update (some post.1.message)) live
      stays n _ c k v fine has (hangs_up l g live empty over) =
          handled-Stay n fine c k v has l g (canister_update none) live
      stays n _ c k v fine has (iterates j run round live) =
          iterated-Stay n fine c k v has j run round live
