-- ===== src/Channels/HangUp.antt =====
-- The end of a session to which nobody sends any more: its poller has failed.
use ic_websocket_gateway.Prelude.{
  ℕ, ◌≡◌, refl, sym, ap, subst, ◌∙◌, inl, inr, Bool, List, [], ◌∷◌, Option, none, some, arith, err,
  true, Option-cases,
}
use ic_websocket_gateway.DashMap.{DashMap}
use ic_websocket_gateway.CanisterUtils.{ClientKey}
use ic_websocket_gateway.State.{GatewayState, ClientSender, write, entry}
use ic_websocket_gateway.State.Senders.{sender_at}
use ic_websocket_gateway.Poller.{
  CanisterPoller, poll_canister, relay_batch, Round, PollError, poll_and_relay,
}
use ic_websocket_gateway.Poller.Loop.{Run}
use ic_websocket_gateway.Poller.Termination.{run_round_ends}
use ic_websocket_gateway.Session.External.{Wire}
use ic_websocket_gateway.Session.{ClientSession, IcWsSessionState, canister_update}
use ic_websocket_gateway.Session.Monad.{
  Answer, returns, fails, panics, poller, ic_ws_protocol, web_socket,
}
use ic_websocket_gateway.Session.Updates.{is_failure}
use ic_websocket_gateway.Session.Transitions.{try_update_state}
use ic_websocket_gateway.Handler.{Handler, handle_turn, on_answer, on_error}
use ic_websocket_gateway.Gateway.{enter, on_its_own, poll_alone}
use ic_websocket_gateway.Gateway.Consistency.{IsConsistent, write-cases}
use ic_websocket_gateway.Channels.{
  Post, Network, new_network, IsClosed, Steps, from_channel, iterates, Reaches, here, next, Hears,
  rests, takes, finds_end, handled, seeing, iterated,
}
use ic_websocket_gateway.Channels.Moves.{seat, handle_rest, poll_rest}
use ic_websocket_gateway.Channels.Reachable.{
  Routed, polled-Within, Steps-Routed, Reaches-Routed, new_network-Routed,
}
use ic_websocket_gateway.Channels.Closing.{Steps-IsClosed, Reaches-IsClosed}

-- The result of an iteration does not depend on what the other tasks do.
pub result-others :
    {D : DashMap} {P : Type 0} (p : CanisterPoller P) (round : Round D P)
    (others : GatewayState D P → GatewayState D P)
    (client_at : ℕ → ClientKey P → Option ClientSender)
    → (poll_and_relay p (record round { others = others; client_at = client_at })).result
      ≡ (poll_and_relay p round).result
unfolding poll_and_relay poll_canister relay_batch
result-others p round others client_at = ground arith

pub written_at : {A : Type 0} (i : ℕ) (x : A) (f : ℕ → A) → write i x f i ≡ x
written_at i x f = elim (write-cases i x f i) [
  | inl (_, v) ↦ v
  | inr (never, _) ↦ absurd (never refl)
]

module _ (D : DashMap) {P : Type 0} (dec : Discrete P) (W : Wire P) (broken : ℕ → Bool)
    (interval : ℕ) where
  abbrev Net : Type 0
  Net = Network D W

  -- After a poller's failure no client of its canister has a sending half.
  failed-IsClosed :
      (n : Net) (fine : IsConsistent D dec W n.gateway) (j i : ℕ) (run : Run D P)
      (round : Round D P) (e : PollError) (h : Handler D W)
      → Routed D dec W broken interval n
      → n.gateway.pollers j ≡ some run
      → (poll_and_relay run.poller round).result ≡ err e
      → n.gateway.handlers i ≡ some h
      → h.client_channel_tx ≡ none
      → h.session.canister_id ≡ some run.poller.canister_id
      → IsClosed D dec W broken interval
          (iterated D dec W broken interval n j run round)
          (n.receivers i)
  failed-IsClosed n fine j i run round e h routed live failed at given canister =
      let seen = seeing D dec W broken interval n run round in
      let (same_state, same_handlers) =
        poll_rest D dec W broken interval n.gateway j run seen live in
      let alone = poll_alone D dec W broken interval n.gateway run seen in
      record {
        unheld = λ l g f held.
            let there = sym (ap (λ hs. hs l) same_handlers) ∙ f in
            let same : l ≡ i = routed.apart l i g h there at (sym (routed.own l g _ there held)) in
            let one : some g ≡ some h = sym there ∙ ap n.gateway.handlers same ∙ at in
            let is : g ≡ h = cc in
            let gone = sym held ∙ ap (λ (x : Handler D W). x.client_channel_tx) is ∙ given in
            absurd cc;
        unshared = λ c k v f sender.
            let held : sender_at D dec alone.gateway c k ≡ some v =
              ap (λ gs. sender_at D dec gs c k) (sym same_state) ∙ f in
            let (key, its) =
              routed.keyed i h c k v at
                (polled-Within D dec W broken interval n fine routed j run seen live c k v held)
                sender in
            let (ended, removed, _) =
              run_round_ends D dec (record run { gateway = n.gateway.state })
                (record seen { others = λ gs. gs }) run.poller.poller_state
                (fine.serves j run live).1 in
            let same : c ≡ run.poller.canister_id = ground arith in
            let none_left : entry D dec alone.gateway run.poller.canister_id ≡ none =
              ground (arith, result-others run.poller round (λ gs. gs) seen.client_at) in
            ground arith;
      }

  fails-seat :
      (h : Handler D W) (a : Answer (Option (IcWsSessionState W.Message)))
      → is_failure W a ≡ true
      → seat D dec W broken interval (on_answer D dec W broken (λ gs. gs) h a) ≡ none
  unfolding on_error
  fails-seat h (returns x) e = absurd (ground arith)
  fails-seat h (panics m) e = absurd (ground arith)
  fails-seat h (fails (poller x)) e = refl
  fails-seat h (fails (ic_ws_protocol x)) e = ground arith
  fails-seat h (fails (web_socket x)) e = ground arith

  ended_channel-fails :
      (s : ClientSession W)
      → is_failure W (try_update_state W broken (canister_update none) s).1 ≡ true
  unfolding try_update_state
  ended_channel-fails s = ground arith

  -- A session that finds its channel at its end is over.
  hangs_up_ends :
      (n : Net) (i : ℕ) (h : Handler D W)
      → n.gateway.handlers i ≡ some h
      → (handled D dec W broken interval n i (canister_update none)).gateway.handlers i ≡ none
  unfolding handle_turn
  hangs_up_ends n i h live =
      let (_, same) =
        handle_rest D dec W broken interval n.gateway i h (canister_update none) live in
      let (s, answer) = try_update_state W broken (canister_update none) h.session in
      let r =
        handle_turn D dec W broken (enter D dec W broken interval n.gateway h)
          (on_its_own D dec W broken interval (canister_update none)) in
      let over : seat D dec W broken interval r ≡ none =
        fails-seat (record h { session = s; gateway = n.gateway.state; pollers = [] }) answer
          (ended_channel-fails h.session) in
      elim (write-cases i (seat D dec W broken interval r) n.gateway.handlers i) [
        | inl (_, v) ↦ ap (λ hs. hs i) same ∙ v ∙ over
        | inr (never, _) ↦ absurd (never refl)
      ]

  pub Reaches-first :
      (n m o : Net)
      → Steps D dec W broken interval n m
      → Reaches D dec W broken interval m o
      → Reaches D dec W broken interval n o
  Reaches-first n m _ first here = next here first
  Reaches-first n m o first (next there last) = next (Reaches-first n m _ first there) last

  -- Taking what is left in a closed channel, a session ends.
  pub drains :
      (posts : List (Post P)) (n : Net) (i : ℕ) (h : Handler D W)
      → IsConsistent D dec W n.gateway
      → Routed D dec W broken interval n
      → n.gateway.handlers i ≡ some h
      → IsClosed D dec W broken interval n (n.receivers i)
      → n.channels (n.receivers i) ≡ posts
      → (o : Net) × Hears D dec W broken interval i n o × (o.gateway.handlers i ≡ none)
  drains [] n i h fine routed live shut empty = (
    handled D dec W broken interval n i (canister_update none),
    finds_end h live empty shut rests,
    hangs_up_ends n i h live,
  )
  drains (post ∷ posts) n i h fine routed live shut full =
      let taken =
        record (handled D dec W broken interval n i (canister_update (some post.1.message))) {
          channels = write (n.receivers i) posts n.channels;
        } in
      let first : Steps D dec W broken interval n taken = from_channel i h post posts live full in
      let (fine', routed') = Steps-Routed D dec W broken interval n taken first fine routed in
      let (shut', _) =
        Steps-IsClosed D dec W broken interval n taken (n.receivers i) first fine routed
          (routed.known i h live) shut in
      elim (Option-cases (taken.gateway.handlers i)) [
        | inl over ↦ (taken, takes h post posts live full rests, over)
        | inr (h', live') ↦
            let (o, later, over) =
              drains posts taken i h' fine' routed' live' shut'
                (written_at (n.receivers i) posts n.channels) in
            (o, takes h post posts live full later, over)
      ]

  -- When a poller ends with an error, every session of its canister that was set up can come to its
  -- end by its own turns with its channel alone: the channel has no sending half any more and gets
  -- none later, whatever the tasks do, and from every later network in which the session's task is
  -- still there, there are turns, in which the session does nothing but take the messages that are
  -- left in the channel and then find its end, after which its task is over.
  pub failed_poller_ends_sessions :
      (n m : Net) (j i : ℕ) (run : Run D P) (round : Round D P) (e : PollError) (h h' : Handler D W)
      → Reaches D dec W broken interval (new_network D dec W broken interval) n
      → n.gateway.pollers j ≡ some run
      → (poll_and_relay run.poller round).result ≡ err e
      → n.gateway.handlers i ≡ some h
      → h.client_channel_tx ≡ none
      → h.session.canister_id ≡ some run.poller.canister_id
      → Reaches D dec W broken interval (iterated D dec W broken interval n j run round) m
      → m.gateway.handlers i ≡ some h'
      → m.receivers i ≡ n.receivers i
      → IsClosed D dec W broken interval m (m.receivers i)
        × ((o : Net) × Hears D dec W broken interval i m o × (o.gateway.handlers i ≡ none))
  failed_poller_ends_sessions n m j i run round e h h' reached live failed at given canister later
        at' same =
      let (fine, routed) =
        Reaches-Routed D dec W broken interval (new_network D dec W broken interval) n reached
          (new_network-Routed D dec W broken interval).0
          (new_network-Routed D dec W broken interval).1 in
      let after = iterated D dec W broken interval n j run round in
      let (fine', routed') =
        Steps-Routed D dec W broken interval n after (iterates j run round live) fine routed in
      let (fine'', routed'') = Reaches-Routed D dec W broken interval after m later fine' routed' in
      let (still, _) =
        Reaches-IsClosed D dec W broken interval after m (n.receivers i) later fine' routed'
          (routed.known i h at)
          (failed-IsClosed n fine j i run round e h routed live failed at given canister) in
      let over = subst (IsClosed D dec W broken interval m) (sym same) still in
      (over, drains (m.channels (m.receivers i)) m i h' fine'' routed'' at' over refl)
