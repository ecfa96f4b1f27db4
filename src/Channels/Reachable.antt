-- ===== src/Channels/Reachable.antt =====
-- The steps of a network: what every reachable network has.
use ic_websocket_gateway.Prelude.{
  ℕ, ◌≡◌, refl, sym, ap, subst, inl, inr, Bool, none, some, arith, All, fun_ext, ◌↔◌, Result,
  String,
}
use ic_websocket_gateway.DashMap.{DashMap}
use ic_websocket_gateway.State.{PollerState, write, client_at}
use ic_websocket_gateway.State
use ic_websocket_gateway.State.Senders.{Within}
use ic_websocket_gateway.Poller.{Round, poll_and_relay}
use ic_websocket_gateway.Poller.Loop.{Run}
use ic_websocket_gateway.Session.External.{Wire}
use ic_websocket_gateway.Session.Monad.{returns}
use ic_websocket_gateway.Session.{Update, client_update, canister_update, init_session}
use ic_websocket_gateway.Handler.Panics.{Sound, Runs, Ends}
use ic_websocket_gateway.Handler.Life.{handle_turn-Ends}
use ic_websocket_gateway.Handler.{Handler, Handling, continues, finished, panicked, handle_turn}
use ic_websocket_gateway.Gateway.{empty_gateway, enter, on_its_own, poll_alone}
use ic_websocket_gateway.Gateway.Consistency.{IsConsistent}
use ic_websocket_gateway.Gateway.Reachable.{step-IsConsistent, empty-IsConsistent}
use ic_websocket_gateway.Channels.{
  Post, Network, new_network, Steps, begins, from_client, from_channel, hangs_up, iterates, Reaches,
  here, next, began, handled, seeing, iterated,
}
use ic_websocket_gateway.Channels.Passing.{handle_turn-Passes}
use ic_websocket_gateway.Channels.Moves.{seat, handle_rest, begin_rest, poll_rest}
use ic_websocket_gateway.Channels.Relaying.{
  Addressed, poll_and_relay-Addressed, entry-sender_at, run_round-Within,
}
use ic_websocket_gateway.Channels.Routing.{
  IsRouted, turned-IsRouted, taken-IsRouted, polled-IsRouted,
}
use ic_websocket_gateway.Channels.Arrivals.{refused-IsRouted, begun-IsRouted}

module _ (D : DashMap) {P : Type 0} (dec : Discrete P) (W : Wire P) (broken : ℕ → Bool)
    (interval : ℕ) where
  abbrev Net : Type 0
  Net = Network D W

  abbrev pub Routed : Net → Type 0
  Routed n =
      IsRouted D dec W broken n.gateway.state n.gateway.handlers n.channels n.receivers
        n.next_channel

  init_session-fits :
      (client_id : ℕ) (p : P)
      → (init_session W broken client_id p).1 ≡ returns tt
      → Sound D dec W broken (init_session W broken client_id p).0
  unfolding init_session
  init_session-fits client_id p e = (ground arith, ground arith)

  seat-Runs :
      (r : Handler D W × Handling) (g : Handler D W)
      → Ends D dec W broken r
      → seat D dec W broken interval r ≡ some g
      → (r.0 ≡ g) × Runs D dec W broken g
  seat-Runs (h, continues) g runs e =
      let same : h ≡ g = cc in (same, subst (Runs D dec W broken) same runs)
  seat-Runs (h, finished x) g runs e = absurd cc
  seat-Runs (h, panicked m) g runs e = absurd cc

  module _ (n : Net) (fine : IsConsistent D dec W n.gateway) (routed : Routed n) where
    begins-Routed :
        (i client_id : ℕ) (get_principal : Result P String) (span : ℕ)
        → n.gateway.handlers i ≡ none
        → Routed (began D dec W broken interval n i client_id get_principal span)
    begins-Routed i client_id get_principal span free =
        let (same_state, which) =
          begin_rest D dec W broken interval n.gateway i client_id get_principal n.next_channel span
            free in
        elim which [
          | inl same_handlers ↦
              rw (same_state, same_handlers)
                (refused-IsRouted D dec W broken n.gateway.state n.gateway.handlers n.channels
                  n.receivers n.next_channel routed i free)
          | inr (p, started, same_handlers) ↦
              rw (same_state, same_handlers)
                (begun-IsRouted D dec W broken n.gateway.state n.gateway.handlers n.channels
                  n.receivers n.next_channel routed i free span
                  (init_session W broken client_id p).0 (init_session-fits client_id p started))
        ]

    handled-Routed :
        (i : ℕ) (h : Handler D W) (u : Update W)
        → n.gateway.handlers i ≡ some h
        → Routed (handled D dec W broken interval n i u)
    handled-Routed i h u live =
        let runs = routed.runs i h live in
        let r =
          handle_turn D dec W broken (enter D dec W broken interval n.gateway h)
            (on_its_own D dec W broken interval u) in
        let (same_state, same_handlers) =
          handle_rest D dec W broken interval n.gateway i h u live in
        rw (same_state, same_handlers)
          (turned-IsRouted D dec W broken n.gateway.state n.gateway.handlers n.channels n.receivers
            n.next_channel routed i h r.0 r.0.gateway (seat D dec W broken interval r) live
            (handle_turn-Passes D dec W broken interval n.gateway h u fine.wf runs)
            (λ g. seat-Runs r g (
              handle_turn-Ends D dec W broken (enter D dec W broken interval n.gateway h)
                (on_its_own D dec W broken interval u)
                (record { sound = runs.sound; channel = runs.channel }))))

    pub polled-Within :
        (j : ℕ) (run : Run D P) (round : Round D P)
        → n.gateway.pollers j ≡ some run
        → Within D dec
            (poll_alone D dec W broken interval n.gateway run round).gateway
            n.gateway.state
    polled-Within j run round live =
        run_round-Within D dec (record run { gateway = n.gateway.state })
          (record round { others = λ gs. gs }) run.poller.poller_state (fine.serves j run live).1

    iterated-Routed :
        (j : ℕ) (run : Run D P) (round : Round D P)
        → n.gateway.pollers j ≡ some run
        → Routed (iterated D dec W broken interval n j run round)
    iterated-Routed j run round live =
        let seen = seeing D dec W broken interval n run round in
        let (same_state, same_handlers) =
          poll_rest D dec W broken interval n.gateway j run seen live in
        let (_, entry) = fine.serves j run live in
        let c = run.poller.canister_id in
        rw (same_state, same_handlers)
          (polled-IsRouted D dec W broken n.gateway.state n.gateway.handlers n.channels n.receivers
            n.next_channel routed _ c (poll_and_relay run.poller seen).relayed
            (polled-Within j run seen live)
            (subst (λ at. All (Addressed at) (poll_and_relay run.poller seen).relayed)
              (fun_ext
                λ k. sym (entry-sender_at D dec n.gateway.state c run.poller.poller_state k entry))
              (poll_and_relay-Addressed run.poller seen _ refl)))

  -- A step keeps the invariants.
  pub Steps-Routed :
      (n m : Net)
      → Steps D dec W broken interval n m
      → IsConsistent D dec W n.gateway
      → Routed n
      → IsConsistent D dec W m.gateway × Routed m
  Steps-Routed n _ (begins i client_id p span free) fine routed = (
    step-IsConsistent D dec W broken interval n.gateway _ fine,
    begins-Routed n fine routed i client_id p span free,
  )
  Steps-Routed n _ (from_client i h m live) fine routed = (
    step-IsConsistent D dec W broken interval n.gateway _ fine,
    handled-Routed n fine routed i h (client_update m) live,
  )
  Steps-Routed n _ (from_channel i h post posts live full) fine routed = (
    step-IsConsistent D dec W broken interval n.gateway _ fine,
    handled-Routed (record n { channels = write (n.receivers i) posts n.channels }) fine
        (taken-IsRouted D dec W broken n.gateway.state n.gateway.handlers n.channels n.receivers
          n.next_channel routed i h post posts live full)
        i h (canister_update (some post.1.message)) live,
  )
  Steps-Routed n _ (hangs_up i h live empty closed) fine routed = (
    step-IsConsistent D dec W broken interval n.gateway _ fine,
    handled-Routed n fine routed i h (canister_update none) live,
  )
  Steps-Routed n _ (iterates j run round live) fine routed = (
    step-IsConsistent D dec W broken interval n.gateway _ fine,
    iterated-Routed n fine routed j run round live,
  )

  pub Reaches-Routed :
      (n m : Net)
      → Reaches D dec W broken interval n m
      → IsConsistent D dec W n.gateway
      → Routed n
      → IsConsistent D dec W m.gateway × Routed m
  Reaches-Routed n _ here fine routed = (fine, routed)
  Reaches-Routed n m (next {m = o} there last) fine routed =
      let (fine', routed') = Reaches-Routed n o there fine routed in
      Steps-Routed o m last fine' routed'

  pub new_network-Routed :
      (let n = new_network D dec W broken interval in IsConsistent D dec W n.gateway × Routed n)
  unfolding empty_gateway State.new
  new_network-Routed = (
    empty-IsConsistent D dec W broken interval,
    record {
      runs = λ i h e. absurd cc;
      own = λ i h t e. absurd cc;
      apart = λ i j h g e. absurd cc;
      known = λ i h e. absurd cc;
      senders = λ c k v e. absurd (ground (arith, D.get-new {V = PollerState} dec c));
      keyed = λ i h c k v e. absurd cc;
      filled = λ i h e. absurd cc;
      unused = λ t e. refl;
    },
  )

  -- Whatever connections come, in whatever order the tasks take their turns and whatever clients
  -- and canisters send: each message in the channel of a session is addressed to the session's
  -- client and comes from its canister, and no two sessions receive from the same channel.
  pub messages_reach_their_client :
      (n : Net) (i j : ℕ) (h g : Handler D W)
      → Reaches D dec W broken interval (new_network D dec W broken interval) n
      → n.gateway.handlers i ≡ some h
      → n.gateway.handlers j ≡ some g
      → All
          (λ (post : Post P).
            (h.session.client_key ≡ some post.1.client_key) × (h.session.canister_id ≡ some post.0))
          (n.channels (n.receivers i))
        × ((n.receivers i ≡ n.receivers j) ↔ (i ≡ j))
  messages_reach_their_client n i j h g reached at bt =
      let (fine, routed) =
        Reaches-Routed (new_network D dec W broken interval) n reached new_network-Routed.0
          new_network-Routed.1 in
      (routed.filled i h at, (routed.apart i j h g at bt, ap n.receivers))
