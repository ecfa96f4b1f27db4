-- ===== src/Channels/TakeOver.antt =====
-- Two sessions with one client key: the second takes the place of the first.
use ic_websocket_gateway.Prelude.{ℕ, ◌≡◌, ◌≢◌, refl, sym, ap, ◌∙◌, inl, inr, Bool, none, some, ok}
use ic_websocket_gateway.DashMap.{DashMap}
use ic_websocket_gateway.CanisterUtils.{Bytes, ClientKey}
use ic_websocket_gateway.State.{ClientSender}
use ic_websocket_gateway.State.View.{Directory, view}
use ic_websocket_gateway.State.Directory.{clients_of}
use ic_websocket_gateway.State.Removal.{put_present}
use ic_websocket_gateway.State.Senders.{sender_at}
use ic_websocket_gateway.Session.External.{Wire}
use ic_websocket_gateway.Session.Delivery.{call_bytes}
use ic_websocket_gateway.Session.{client_update}
use ic_websocket_gateway.Handler.{Handler, Handling, handle_turn}
use ic_websocket_gateway.Handler.Setup.{Opens, handle_turn_sets_up}
use ic_websocket_gateway.Gateway.{enter, on_its_own}
use ic_websocket_gateway.Gateway.Consistency.{IsConsistent, write-cases}
use ic_websocket_gateway.Channels.{
  Network, new_network, IsClosed, from_client, Reaches, Hears, handled,
}
use ic_websocket_gateway.Channels.Passing.{handle_turn-Passes}
use ic_websocket_gateway.Channels.Moves.{seat, handle_rest}
use ic_websocket_gateway.Channels.Closing.{seat-some}
use ic_websocket_gateway.Channels.Reachable.{
  Routed, Steps-Routed, Reaches-Routed, new_network-Routed,
}
use ic_websocket_gateway.Channels.HangUp.{drains}

module _ (D : DashMap) {P : Type 0} (dec : Discrete P) (W : Wire P) (broken : ℕ → Bool)
    (interval : ℕ) where
  abbrev Net : Type 0
  Net = Network D W

  -- A set-up session of a client, and a handler that gets a message which opens one for it too.
  module _ (n : Net) (i l : ℕ) (h g : Handler D W) (m : W.Message) (k : ClientKey P) (c : P)
      (tx : ℕ) (b : Bytes) (consistent : IsConsistent D dec W n.gateway)
      (routed : Routed D dec W broken interval n) (first : n.gateway.handlers i ≡ some h)
      (given : h.client_channel_tx ≡ none) (key : h.session.client_key ≡ some k)
      (canister : h.session.canister_id ≡ some c) (second : n.gateway.handlers l ≡ some g)
      (opens : Opens D dec W broken g.session m k c) (held : g.client_channel_tx ≡ some tx)
      (bytes : call_bytes W broken m ≡ some b) where
    abbrev after : Net
    after = handled D dec W broken interval n l (client_update (ok m))

    abbrev turned : Handler D W × Handling
    turned =
        handle_turn D dec W broken (enter D dec W broken interval n.gateway g)
          (on_its_own D dec W broken interval (client_update (ok m)))

    abbrev client : ClientSender
    client = record { sender = tx; span = g.client_session_span }

    others : i ≢ l
    others same =
        let one : some h ≡ some g = sym first ∙ ap n.gateway.handlers same ∙ second in
        let is : h ≡ g = cc in
        let gone = ap (λ (x : Handler D W). x.session.canister_id) is ∙ opens.no_canister in cc

    apart : n.receivers i ≢ n.receivers l
    apart same = others (routed.apart i l h g first second same)

    its : tx ≡ n.receivers l
    its = routed.own l g tx second held

    now_held : sender_at D dec after.gateway.state c k ≡ some client
    now_held =
        let (same_state, _) =
          handle_rest D dec W broken interval n.gateway l g (client_update (ok m)) second in
        let (_, _, viewed, stored, _, _) =
          handle_turn_sets_up D dec W broken (enter D dec W broken interval n.gateway g) m k c tx b
            (λ gs. gs) (λ gs. gs)
            (record {
              fresh = opens.fresh;
              no_canister = opens.no_canister;
              no_close = opens.no_close;
              valid = opens.valid;
            })
            held bytes consistent.wf in
        ap (λ gs. sender_at D dec gs c k) same_state
        ∙ ap (λ gs. sender_at D dec gs c k) stored
        ∙ ap (λ (d : Directory P). clients_of (d c) k) viewed
        ∙ put_present D dec (view D dec n.gateway.state) c k client

    first_stays : after.gateway.handlers i ≡ some h
    first_stays =
        let (_, same_handlers) =
          handle_rest D dec W broken interval n.gateway l g (client_update (ok m)) second in
        elim (write-cases l (seat D dec W broken interval turned) n.gateway.handlers i) [
          | inl (same, _) ↦ absurd (others same)
          | inr (_, v) ↦ ap (λ hs. hs i) same_handlers ∙ v ∙ first
        ]

    first-IsClosed : IsClosed D dec W broken interval after (n.receivers i)
    first-IsClosed =
        let (same_state, same_handlers) =
          handle_rest D dec W broken interval n.gateway l g (client_update (ok m)) second in
        let passes =
          handle_turn-Passes D dec W broken interval n.gateway g (client_update (ok m))
            consistent.wf (routed.runs l g second) in
        record {
          unheld = λ j x e own.
              elim (write-cases l (seat D dec W broken interval turned) n.gateway.handlers j) [
                | inl (_, v) ↦
                    let is : turned.0 ≡ x =
                      seat-some D dec W broken interval turned x
                        (sym v ∙ sym (ap (λ hs. hs j) same_handlers) ∙ e) in
                    apart (
                      routed.own l g _ second
                        (passes.held _ (ap (λ (y : Handler D W). y.client_channel_tx) is ∙ own)))
                | inr (_, v) ↦
                    let there = sym v ∙ sym (ap (λ hs. hs j) same_handlers) ∙ e in
                    let same : i ≡ j =
                      routed.apart i j h x first there (routed.own j x _ there own) in
                    let one : some h ≡ some x = sym first ∙ ap n.gateway.handlers same ∙ there in
                    let is : h ≡ x = cc in
                    let gone = sym given ∙ ap (λ (y : Handler D W). y.client_channel_tx) is ∙ own in
                    cc
              ];
          unshared = λ c' k' v e at.
              elim (passes.sent c' k' v
                (ap (λ gs. sender_at D dec gs c' k') (sym same_state) ∙ e)) [
                  | inl old ↦
                      let (key', canister') = routed.keyed i h c' k' v first old at in
                      let same_key : k' ≡ k = cc in
                      let same_canister : c' ≡ c = cc in
                      let one : some v ≡ some client =
                        sym e
                        ∙ ap (λ b. sender_at D dec after.gateway.state b k') same_canister
                        ∙ ap (sender_at D dec after.gateway.state c) same_key
                        ∙ now_held in
                      let is : v ≡ client = cc in
                      apart (sym at ∙ ap (λ (x : ClientSender). x.sender) is ∙ its)
                  | inr (own, _, _) ↦ apart (sym at ∙ routed.own l g v.sender second own)
                ];
        }

  -- A session takes the place of another one with its client's key: when a handler gets a message
  -- that opens a session with the key and the canister of a session that is set up, and the IC is
  -- given the message, the gateway state right after this turn holds its sending half for the
  -- client. The first session's task is still there, but its channel has no sending half any more, as if
  -- its poller had failed, and there are turns, in which the first session does nothing but take the
  -- messages that are left in the channel and then find its end, after which its task is over.
  pub second_session_takes_over :
      (n : Net) (i l : ℕ) (h g : Handler D W) (m : W.Message) (k : ClientKey P) (c : P) (tx : ℕ)
      (b : Bytes)
      → Reaches D dec W broken interval (new_network D dec W broken interval) n
      → n.gateway.handlers i ≡ some h
      → h.client_channel_tx ≡ none
      → h.session.client_key ≡ some k
      → h.session.canister_id ≡ some c
      → n.gateway.handlers l ≡ some g
      → Opens D dec W broken g.session m k c
      → g.client_channel_tx ≡ some tx
      → call_bytes W broken m ≡ some b
      → let o = handled D dec W broken interval n l (client_update (ok m)) in
        (sender_at D dec o.gateway.state c k
          ≡ some (record { sender = o.receivers l; span = g.client_session_span }))
        × (o.gateway.handlers i ≡ some h)
        × IsClosed D dec W broken interval o (o.receivers i)
        × ((p : Net) × Hears D dec W broken interval i o p × (p.gateway.handlers i ≡ none))
  second_session_takes_over n i l h g m k c tx b reached first given key canister second opens held
        bytes =
      let (fine, routed) =
        Reaches-Routed D dec W broken interval (new_network D dec W broken interval) n reached
          (new_network-Routed D dec W broken interval).0
          (new_network-Routed D dec W broken interval).1 in
      let o =
        after n i l h g m k c tx b fine routed first given key canister second opens held bytes in
      let (fine', routed') =
        Steps-Routed D dec W broken interval n o (from_client l g (ok m) second) fine routed in
      let stays =
        first_stays n i l h g m k c tx b fine routed first given key canister second opens held
          bytes in
      let shut =
        first-IsClosed n i l h g m k c tx b fine routed first given key canister second opens held
          bytes in
      (
        now_held n i l h g m k c tx b fine routed first given key canister second opens held bytes
            ∙ ap (λ t. some (record { sender = t; span = g.client_session_span }))
                (routed.own l g tx second held),
        stays,
        shut,
        drains D dec W broken interval (o.channels (o.receivers i)) o i h fine' routed' stays shut
            refl,
      )
