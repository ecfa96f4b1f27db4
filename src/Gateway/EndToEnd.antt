-- ===== src/Gateway/EndToEnd.antt =====
-- From a canister's queue (canister_poller.rs) through the channel of a client to the client's
-- WebSocket (client_session.rs).
use ic_websocket_gateway.Prelude.{
  ℕ, ◌+◌, ◌<◌, ◌≡◌, refl, ap, sym, ◌∙◌, Bool, false, List, [], ◌∷◌, ◌++◌, map, Option, some, ok,
  All,
}
use mathlib.Core.List.{append-nil, map-map}
use ic_websocket_gateway.DashMap.{DashMap}
use ic_websocket_gateway.CanisterUtils.{
  Bytes, ClientKey, CanisterOutputMessage, CanisterToClientMessage, IcWsCanisterMessage,
}
use ic_websocket_gateway.State.{GatewayState, ClientSender, PollerState}
use ic_websocket_gateway.Poller.{Round, Relayed}
use ic_websocket_gateway.Poller.Nonce.{u64_mod}
use ic_websocket_gateway.Poller.Relay.{messages_for, relayed_to}
use ic_websocket_gateway.Poller.Queue.{slice, Keyed, asked, sent}
use ic_websocket_gateway.Poller.Loop.{polling, run_polling}
use ic_websocket_gateway.Poller.Log.{start_run}
use ic_websocket_gateway.Poller.Delivery.{Occupied, IsServed, messages_served, run_polling_delivers}
use ic_websocket_gateway.Session.External.{Wire}
use ic_websocket_gateway.Session.{ClientSession, canister_update}
use ic_websocket_gateway.Session.Delivery.{run_updates, IsLive, Encodes, run_updates_delivers}

module _ {P : Type 0} (W : Wire P) (broken : ℕ → Bool)
    (decode : W.Message → Option (Bytes × Bytes)) where
  -- The encoding for clients never fails, and clients can read it back.
  abbrev pub Readable : Type 0
  Readable =
      (m : CanisterToClientMessage)
      → (b : Bytes) × (W.to_vec m ≡ ok b) × (decode (W.binary b) ≡ some (m.key, m.content))

  abbrev pub content_of : CanisterToClientMessage → Option (Bytes × Bytes)
  content_of m = some (m.key, m.content)

  encodings :
      Readable
      → (ms : List IcWsCanisterMessage)
      → (bs : List Bytes) × Encodes W broken ms bs
        × (map decode (map W.binary bs) ≡ map (λ m. content_of m.0) ms)
  encodings readable [] = ([], tt, refl)
  encodings readable ((m, span) ∷ ms) =
      let (b, encoded, read) = readable m in
      let (bs, all, reads) = encodings readable ms in
      (b ∷ bs, (encoded, all), rw (read, reads) refl)

  -- What a session writes for the messages in its channel, if it can write.
  session_writes :
      (s : ClientSession W) (ms : List IcWsCanisterMessage)
      → Readable
      → ((n : ℕ) → broken n ≡ false)
      → IsLive W broken s.session_state
      → (w : List W.Message) × ((run_updates W broken s
            (map (λ m. canister_update (some m)) ms)).written
          ≡ s.written ++ w)
        × (map decode w ≡ map (λ m. content_of m.0) ms)
  unfolding run_updates
  session_writes s [] readable sound live = ([], sym (append-nil s.written), refl)
  session_writes s (m ∷ ms) readable sound live =
      let (bs, all, reads) = encodings readable (m ∷ ms) in
      (map W.binary bs, (run_updates_delivers W broken s m ms bs sound live all).0, reads)

  abbrev pick : ℕ × Bytes × Bytes → Option (Bytes × Bytes)
  pick (sender, key, content) = some (key, content)

  same_contents :
      (dec : Discrete P) (k : ClientKey P) (client : ClientSender) (rs : List (Relayed P))
      (ms : List (CanisterOutputMessage P))
      → map (sent dec k) rs ≡ map (asked dec k client) ms
      → map (λ m. content_of m.0) (map (λ (r : Relayed P). r.message) rs)
        ≡ map (λ (m : CanisterOutputMessage P). some (m.key, m.content)) ms
  same_contents dec k client rs ms e =
      map-map (λ (m : IcWsCanisterMessage). content_of m.0) (λ (r : Relayed P). r.message) rs
      ∙ sym (map-map pick (sent dec k) rs)
      ∙ ap (map pick) e
      ∙ map-map pick (asked dec k client) ms

  -- From end to end, for a client that stays connected to a canister with a queue of messages: what
  -- the client can read of the messages that its session writes to its WebSocket is exactly what
  -- the queue holds for it in the messages that the canister has given so far, each once and in
  -- this order; and the poller goes on polling. (The session has got what the poller gave to its
  -- channel, is Setup or Open, and can write; clients can read the encoding; an iteration is an
  -- answer, a timeout or a recoverable error; the entry keeps a client; the keys hold the nonces,
  -- and these stay below 2 ^ 64 - 1.)
  pub queue_reaches_client :
      (D : DashMap) (dec : Discrete P) (queue : ℕ → CanisterOutputMessage P) (start : ℕ)
      (k : ClientKey P) (client : ClientSender) (c : P) (a : PollerState) (gs : GatewayState D P)
      (interval : ℕ) (rounds : List (ℕ × Round D P)) (s : ClientSession W)
      → Keyed queue
      → start + messages_served D dec queue start k client c a rounds < u64_mod
      → Occupied D dec c a gs
      → All (IsServed D dec queue start k client c a) rounds
      → Readable
      → ((n : ℕ) → broken n ≡ false)
      → IsLive W broken s.session_state
      → let run = run_polling D dec (start_run D dec gs c a interval) (map (λ x. x.1) rounds) in
        let channel = map (λ (r : Relayed P). r.message) (relayed_to dec k run.relayed) in
        (run.progress ≡ polling)
        × (w : List W.Message) × ((run_updates W broken s
              (map (λ m. canister_update (some m)) channel)).written
            ≡ s.written ++ w)
        × (map decode w
            ≡ map
                (λ (m : CanisterOutputMessage P). some (m.key, m.content))
                (messages_for dec k
                  (slice queue start (messages_served D dec queue start k client c a rounds))))
  queue_reaches_client D dec queue start k client c a gs interval rounds s keyed small occupied
        served readable sound live =
      let run = run_polling D dec (start_run D dec gs c a interval) (map (λ x. x.1) rounds) in
      let rs = relayed_to dec k run.relayed in
      let (on, delivered) =
        run_polling_delivers D dec queue start k client c a gs interval rounds keyed small occupied
          served in
      let (w, written, reads) = session_writes s (map (λ r. r.message) rs) readable sound live in
      (on, w, written, reads ∙ same_contents dec k client rs _ delivered)
