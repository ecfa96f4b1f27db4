-- ===== src/Poller/Delivery.antt =====
-- canister_poller.rs, `run_polling`: a whole run against a canister with a queue.
use ic_websocket_gateway.Prelude.{
  ℕ, ◌+◌, ◌<◌, ◌≡◌, ◌≢◌, refl, ◌∙◌, List, [], ◌∷◌, ◌++◌, map, some, arith, ok, All,
}
use ic_websocket_gateway.DashMap.{DashMap}
use ic_websocket_gateway.CanisterUtils.{ClientKey, CanisterOutputMessage}
use ic_websocket_gateway.State.{
  GatewayState, ClientSender, PollerState, entry, clients_len, remove_canister_if_empty,
}
use ic_websocket_gateway.Poller.Nonce.{u64_mod}
use ic_websocket_gateway.Poller.Relay.{messages_for, relayed_to}
use ic_websocket_gateway.Poller.Queue.{slice, Keyed, asked, sent, Delivered}
use ic_websocket_gateway.Poller.Served.{Serves, Connected, Serves-Answered}
use ic_websocket_gateway.Poller.{Round, poll_and_relay, new}
use ic_websocket_gateway.Poller.Loop.{Run, polling, run_round, run_polling}
use ic_websocket_gateway.Poller.Log.{start_run, run_polling_on}

module _ (D : DashMap) {P : Type 0} (dec : Discrete P) where
  -- The canister has its entry, at the address, with a client.
  abbrev pub Occupied : P → PollerState → GatewayState D P → Type 0
  Occupied c a gs = (entry D dec gs c ≡ some a) × (clients_len D dec gs a ≢ 0)

  -- The other tasks leave the entry where it is, with a client.
  abbrev pub KeepsOccupied : P → PollerState → Round D P → Type 0
  KeepsOccupied c a round =
      (gs : GatewayState D P) → Occupied c a gs → Occupied c a (round.others gs)

  run_round_stays :
      (run : Run D P) (round : Round D P) (a : PollerState)
      → Occupied run.poller.canister_id a (round.others run.gateway)
      → (poll_and_relay run.poller round).result ≡ ok tt
      → let run' = run_round D dec run round in
        (run'.progress ≡ polling)
        × (run'.gateway ≡ round.others run.gateway)
        × (run'.relayed ≡ run.relayed ++ (poll_and_relay run.poller round).relayed)
        × (run'.poller.next_message_nonce
            ≡ (poll_and_relay run.poller round).poller.next_message_nonce)
        × (run'.poller.canister_id ≡ (poll_and_relay run.poller round).poller.canister_id)
  unfolding run_round remove_canister_if_empty
  run_round_stays run round a occupied fine = ground arith

  module _ (queue : ℕ → CanisterOutputMessage P) (start : ℕ) (k : ClientKey P)
      (client : ClientSender) (c : P) (a : PollerState) where
    -- What is asked of a round in which the canister gives `len` messages.
    abbrev pub IsServed : ℕ × Round D P → Type 0
    IsServed (len, round) =
        Serves D dec queue start round len
        × Connected D dec queue start k client round
        × KeepsOccupied c a round

    unfoldable pub messages_served : List (ℕ × Round D P) → ℕ
    messages_served [] = 0
    messages_served ((len, _) ∷ rounds) = len + messages_served rounds

    record IsServing (run : Run D P) (n : ℕ) : Type 0 where
      on : run.progress ≡ polling
      same : run.poller.canister_id ≡ c
      occupied : Occupied c a run.gateway
      all : Delivered dec k queue start client run.relayed run.poller.next_message_nonce n

    run_round-IsServing :
        (run : Run D P) (round : Round D P) (n len : ℕ)
        → Keyed queue
        → start + (n + len) < u64_mod
        → IsServed (len, round)
        → IsServing run n
        → IsServing (run_round D dec run round) (n + len)
    run_round-IsServing run round n len keyed small (serves, here, keeps) s =
        let r =
          Serves-Answered D dec queue start k client run.poller round run.relayed n len keyed small
            here serves s.all in
        let still = keeps run.gateway s.occupied in
        let (on, held, log, next, id) = run_round_stays run round a (rw s.same still) r.fine in
        record {
          on = on;
          same = id ∙ r.same ∙ s.same;
          occupied = rw held still;
          all = rw (log, next) r.more;
        }

    run_polling-IsServing :
        (run : Run D P) (rounds : List (ℕ × Round D P)) (n : ℕ)
        → Keyed queue
        → start + (n + messages_served rounds) < u64_mod
        → All IsServed rounds
        → IsServing run n
        → IsServing (run_polling D dec run (map (λ x. x.1) rounds)) (n + messages_served rounds)
    unfolding run_polling messages_served
    run_polling-IsServing run [] n keyed small served s =
        let stay : n + 0 ≡ n = omega arith in rw stay s
    run_polling-IsServing run ((len, round) ∷ rounds) n keyed small served s =
        let more : n + (len + messages_served rounds) ≡ n + len + messages_served rounds =
          omega arith in
        rw (run_polling_on D dec run round (map (λ x. x.1) rounds) s.on, more)
          (run_polling-IsServing (run_round D dec run round) rounds (n + len) keyed (omega arith)
            served.1 (run_round-IsServing run round n len keyed (omega arith) served.0 s))

    -- Against a canister that keeps a queue of messages, a new poller goes on polling while a client
    -- stays connected, loses nothing and repeats nothing: what it gives to the channel of this
    -- client, in all its iterations together and in this order, is exactly what the queue holds for
    -- the client in the messages that the canister has given so far, from the nonce of the first
    -- answer on. (An iteration is an answer, a timeout or a recoverable error; the entry keeps a
    -- client; the keys hold the nonces, and these stay below 2 ^ 64 - 1.)
    pub run_polling_delivers :
        (gs : GatewayState D P) (interval : ℕ) (rounds : List (ℕ × Round D P))
        → Keyed queue
        → start + messages_served rounds < u64_mod
        → Occupied c a gs
        → All IsServed rounds
        → let run = run_polling D dec (start_run D dec gs c a interval) (map (λ x. x.1) rounds) in
          (run.progress ≡ polling)
          × (map (sent dec k) (relayed_to dec k run.relayed)
              ≡ map
                  (asked dec k client)
                  (messages_for dec k (slice queue start (messages_served rounds))))
    unfolding new relayed_to messages_for slice
    run_polling_delivers gs interval rounds keyed small occupied served =
        let s =
          run_polling-IsServing (start_run D dec gs c a interval) rounds 0 keyed (omega arith)
            served
            (record {
              on = refl;
              same = refl;
              occupied = occupied;
              all = record { all = refl; at = refl };
            }) in
        let total : 0 + messages_served rounds ≡ messages_served rounds = omega arith in
        (s.on, rw total at s.all.all)
