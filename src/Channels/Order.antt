-- ===== src/Channels/Order.antt =====
-- A poller's iteration and one session: what its channel holds afterwards, in order.
use ic_websocket_gateway.Prelude.{
  ℕ, ◌≡◌, ◌↔◌, refl, sym, ap, fun_ext, ◌∙◌, inl, inr, Bool, List, [], ◌∷◌, ◌++◌, map, Option, some,
  arith, ok, All,
}
use mathlib.Core.List.{append-nil, append_assoc, map-map}
use ic_websocket_gateway.DashMap.{DashMap}
use ic_websocket_gateway.CanisterUtils.{
  ClientKey, ClientKey-discrete, CanisterOutputMessage, CanisterOutputCertifiedMessages,
}
use ic_websocket_gateway.State.{ClientSender, client_at}
use ic_websocket_gateway.State.Senders.{sender_at}
use ic_websocket_gateway.Poller.Relay.{
  messages_for, relayed_to, relayed_by, relay_messages_connected,
}
use ic_websocket_gateway.Poller.{
  CanisterPoller, Round, Relayed, messages_polled, poll_canister, poll_and_relay, relay_batch,
  relay_messages,
}
use ic_websocket_gateway.Poller.Loop.{Run}
use ic_websocket_gateway.Session.External.{Wire}
use ic_websocket_gateway.Handler.{Handler}
use ic_websocket_gateway.Gateway.Consistency.{write-cases}
use ic_websocket_gateway.Channels.{
  Post, Network, new_network, Reaches, seeing, iterated, relay_message, relay_all,
}
use ic_websocket_gateway.Channels.Relaying.{poll_and_relay-Addressed, entry-sender_at}
use ic_websocket_gateway.Channels.Routing.{All-map}
use ic_websocket_gateway.Channels.Reachable.{Reaches-Routed, new_network-Routed}

module _ {P : Type 0} (dec : Discrete P) (k : ClientKey P) (t : ℕ) (c : P) where
  relay_message-at :
      (r : Relayed P) (channels : ℕ → List (Post P))
      → r.sender ≡ t
      → relay_message (c, r) channels t ≡ channels t ++ (c, r) ∷ []
  unfolding relay_message
  relay_message-at r channels e =
      elim (write-cases r.sender (channels r.sender ++ (c, r) ∷ []) channels t) [
        | inl (_, v) ↦ v ∙ ap (λ l. l ++ (c, r) ∷ []) (ap channels e)
        | inr (other, _) ↦ absurd (other (sym e))
      ]

  relay_message-elsewhere :
      (r : Relayed P) (channels : ℕ → List (Post P))
      → (r.sender ≡ t → ⊥)
      → relay_message (c, r) channels t ≡ channels t
  unfolding relay_message
  relay_message-elsewhere r channels ne =
      elim (write-cases r.sender (channels r.sender ++ (c, r) ∷ []) channels t) [
        | inl (same, _) ↦ absurd (ne (sym same))
        | inr (_, v) ↦ v
      ]

  -- If a channel is the one of a client, exactly the client's messages are appended to it.
  relay_all-relayed_to :
      (rs : List (Relayed P)) (channels : ℕ → List (Post P))
      → All (λ (r : Relayed P). (r.sender ≡ t) ↔ (r.client_key ≡ k)) rs
      → relay_all c rs channels t
        ≡ channels t ++ map (λ (r : Relayed P). (c, r)) (relayed_to dec k rs)
  unfolding relay_all relayed_to
  relay_all-relayed_to [] channels each = sym (append-nil (channels t))
  relay_all-relayed_to (r ∷ rs) channels ((to, from), each) =
      let ih = relay_all-relayed_to rs (relay_message (c, r) channels) each in
      elim (ClientKey-discrete dec r.client_key k) [
        | yes is ↦
            let at = relay_message-at r channels (from is) in
            let more =
              append_assoc (channels t) ((c, r) ∷ [])
                (map (λ (r : Relayed P). (c, r)) (relayed_to dec k rs)) in
            ground arith
        | no other ↦
            let past = relay_message-elsewhere r channels (λ e. other (to e)) in ground arith
      ]

module _ {D : DashMap} {P : Type 0} where
  relayed_batch :
      (p : CanisterPoller P) (round : Round D P) (at : ℕ → ClientKey P → Option ClientSender)
      (output : CanisterOutputCertifiedMessages P)
      → poll_canister p round ≡ ok (messages_polled output)
      → (poll_and_relay p round).result ≡ ok tt
      → (poll_and_relay p (record round { client_at = at })).relayed ≡ relay_messages at output
  unfolding poll_canister poll_and_relay relay_batch
  relayed_batch p round at output e f = ground arith

module _ (D : DashMap) {P : Type 0} (dec : Discrete P) (W : Wire P) (broken : ℕ → Bool)
    (interval : ℕ) where
  -- An iteration that gets a batch appends to the channel of a session exactly the messages of the
  -- batch for the session's client, each once, in the batch's order and with its certificate, if the
  -- gateway state holds the channel's sending half for the client. It does so whatever clients and
  -- canisters are connected besides.
  pub iteration_fills_channel :
      (n : Network D W) (i j : ℕ) (h : Handler D W) (run : Run D P) (round : Round D P)
      (k : ClientKey P) (v : ClientSender) (output : CanisterOutputCertifiedMessages P)
      → Reaches D dec W broken interval (new_network D dec W broken interval) n
      → n.gateway.handlers i ≡ some h
      → n.gateway.pollers j ≡ some run
      → h.session.client_key ≡ some k
      → sender_at D dec n.gateway.state run.poller.canister_id k ≡ some v
      → v.sender ≡ n.receivers i
      → poll_canister run.poller round ≡ ok (messages_polled output)
      → (poll_and_relay run.poller round).result ≡ ok tt
      → (iterated D dec W broken interval n j run round).channels (n.receivers i)
        ≡ n.channels (n.receivers i)
          ++ map
              (λ (m : CanisterOutputMessage P).
                (run.poller.canister_id, relayed_by dec k v output m))
              (messages_for dec k output.messages)
  iteration_fills_channel n i j h run round k v output reached live polls key held its got fine =
      let (consistent, routed) =
        Reaches-Routed D dec W broken interval (new_network D dec W broken interval) n reached
          (new_network-Routed D dec W broken interval).0
          (new_network-Routed D dec W broken interval).1 in
      let c = run.poller.canister_id in
      let gs = n.gateway.state in
      let a = run.poller.poller_state in
      let seen = seeing D dec W broken interval n run round in
      let (_, entry) = consistent.serves j run polls in
      let same : sender_at D dec gs c ≡ client_at D dec gs a =
        fun_ext λ k'. entry-sender_at D dec gs c a k' entry in
      let whole = relayed_batch run.poller round (λ _. client_at D dec gs a) output got fine in
      let to_client =
        relay_messages_connected dec k (λ _. client_at D dec gs a) output v
          (λ _. sym (ap (λ f. f k) same) ∙ held) in
      relay_all-relayed_to dec k (n.receivers i) c (poll_and_relay run.poller seen).relayed
        n.channels
        (All-map _ (λ (r : Relayed P). (r.sender ≡ n.receivers i) ↔ (r.client_key ≡ k)) _
          (λ r (w, there, sender). (
            λ at.
                let (key', _) =
                  routed.keyed i h c r.client_key w live (ap (λ f. f r.client_key) same ∙ there)
                    (sender ∙ at) in
                cc,
            λ is.
                let one : some w ≡ some v =
                  sym there ∙ ap (client_at D dec gs a) is ∙ sym (ap (λ f. f k) same) ∙ held in
                let equal : w ≡ v = cc in
                sym sender ∙ ap (λ (x : ClientSender). x.sender) equal ∙ its,
          ))
          (poll_and_relay-Addressed run.poller seen (client_at D dec gs a) refl))
      ∙ ap (λ l. n.channels (n.receivers i) ++ l)
          (ap (λ l. map (λ (r : Relayed P). (c, r)) (relayed_to dec k l)) whole
            ∙ ap (map (λ (r : Relayed P). (c, r))) to_client
            ∙ map-map (λ (r : Relayed P). (c, r)) (relayed_by dec k v output)
                (messages_for dec k output.messages))
