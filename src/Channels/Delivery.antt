-- ===== src/Channels/Delivery.antt =====
-- From a poller's iteration through a session's channel to the client's WebSocket.
use ic_websocket_gateway.Prelude.{
  ℕ, ◌≡◌, refl, ap, ◌∙◌, Bool, false, List, [], ◌++◌, map, Option, some, ok,
}
use mathlib.Core.List.{map-append, map-map}
use ic_websocket_gateway.DashMap.{DashMap}
use ic_websocket_gateway.CanisterUtils.{
  Bytes, ClientKey, CanisterOutputMessage, CanisterOutputCertifiedMessages,
}
use ic_websocket_gateway.State.{ClientSender}
use ic_websocket_gateway.State.Senders.{sender_at}
use ic_websocket_gateway.Poller.Relay.{messages_for, relayed_by}
use ic_websocket_gateway.Poller.{Round, messages_polled, poll_canister, poll_and_relay}
use ic_websocket_gateway.Poller.Loop.{Run}
use ic_websocket_gateway.Session.External.{Wire}
use ic_websocket_gateway.Session.Delivery.{IsLive}
use ic_websocket_gateway.Handler.{Handler}
use ic_websocket_gateway.Gateway.EndToEnd.{Readable, content_of}
use ic_websocket_gateway.Channels.{Post, Network, new_network, iterates, Reaches, iterated, seeing}
use ic_websocket_gateway.Channels.Moves.{poll_rest}
use ic_websocket_gateway.Channels.Reachable.{Steps-Routed, Reaches-Routed, new_network-Routed}
use ic_websocket_gateway.Channels.Order.{iteration_fills_channel}
use ic_websocket_gateway.Channels.Writing.{reading, drained}

module _ (D : DashMap) {P : Type 0} (dec : Discrete P) (W : Wire P) (broken : ℕ → Bool)
    (interval : ℕ) (decode : W.Message → Option (Bytes × Bytes))
    (readable : Readable W broken decode) (sound : (n : ℕ) → broken n ≡ false) where
  abbrev Net : Type 0
  Net = Network D W

  -- From a poller to its client, in the whole gateway: if an iteration gets a batch, then the session
  -- can take what is in its channel, one message after another, and what its client can then read of
  -- what the session has written since is what was in the channel before, followed by exactly the
  -- messages of the batch for this client, in the batch's order. (The session is Setup or Open and
  -- can write, the gateway state holds its sending half, and clients can read the encoding.)
  pub iteration_delivers :
      (n : Net) (i j : ℕ) (h : Handler D W) (run : Run D P) (round : Round D P) (k : ClientKey P)
      (v : ClientSender) (output : CanisterOutputCertifiedMessages P)
      → Reaches D dec W broken interval (new_network D dec W broken interval) n
      → n.gateway.handlers i ≡ some h
      → n.gateway.pollers j ≡ some run
      → h.session.client_key ≡ some k
      → sender_at D dec n.gateway.state run.poller.canister_id k ≡ some v
      → v.sender ≡ n.receivers i
      → poll_canister run.poller round ≡ ok (messages_polled output)
      → (poll_and_relay run.poller round).result ≡ ok tt
      → IsLive W broken h.session.session_state
      → (o : Net) × (h' : Handler D W) × (w : List W.Message) × Reaches D dec W broken interval
          (iterated D dec W broken interval n j run round)
          o
        × (o.gateway.handlers i ≡ some h')
        × (o.channels (o.receivers i) ≡ [])
        × (h'.session.written ≡ h.session.written ++ w)
        × (map decode w
            ≡ map
                (λ (post : Post P). content_of W broken decode post.1.message.0)
                (n.channels (n.receivers i))
              ++ map
                  (λ (m : CanisterOutputMessage P). some (m.key, m.content))
                  (messages_for dec k output.messages))
  iteration_delivers n i j h run round k v output reached live polls key held its got fine on =
      let (consistent, routed) =
        Reaches-Routed D dec W broken interval (new_network D dec W broken interval) n reached
          (new_network-Routed D dec W broken interval).0
          (new_network-Routed D dec W broken interval).1 in
      let after = iterated D dec W broken interval n j run round in
      let (consistent', routed') =
        Steps-Routed D dec W broken interval n after (iterates j run round polls) consistent
          routed in
      let (_, same) =
        poll_rest D dec W broken interval n.gateway j run
          (seeing D dec W broken interval n run round) polls in
      let filled =
        iteration_fills_channel D dec W broken interval n i j h run round k v output reached live
          polls key held its got fine in
      let d =
        drained D dec W broken interval decode readable sound (after.channels (n.receivers i)) after
          i h consistent' routed' (ap (λ hs. hs i) same ∙ live) on refl in
      (
        d.after,
        d.handler,
        d.more,
        d.there,
        d.still,
        d.empty,
        d.written,
        d.read
            ∙ ap (map (reading D dec W broken interval decode readable sound)) filled
            ∙ map-append (reading D dec W broken interval decode readable sound)
                (n.channels (n.receivers i)) _
            ∙ ap
                (λ l.
                  map (reading D dec W broken interval decode readable sound)
                    (n.channels (n.receivers i))
                  ++ l)
                (map-map (reading D dec W broken interval decode readable sound)
                  (λ (m : CanisterOutputMessage P).
                    (run.poller.canister_id, relayed_by dec k v output m))
                  (messages_for dec k output.messages)),
      )
