-- ===== src/Channels.antt =====
-- The gateway with the channels between its pollers and its handlers
-- (client_session_handler.rs, `start_session`; canister_poller.rs, `relay_message`). A channel is
-- known by the number of its sending half. A step is one turn of a task, as in `Gateway`; a full
-- channel only makes its poller wait, so that channels have no bound here.
pub mod Hands
pub mod Answers
pub mod Passing
pub mod Moves
pub mod Relaying
pub mod Routing
pub mod Arrivals
pub mod Reachable
pub mod Closing
pub mod HangUp
pub mod Order
pub mod Writing
pub mod Delivery
pub mod TakeOver
pub mod Calm
pub mod Sparing
pub mod Staying
mod Tests
mod RivalTests
mod CalmTests
use ic_websocket_gateway.Prelude.{
  ℕ, suc, ◌≡◌, ◌≢◌, Bool, List, [], ◌∷◌, ◌++◌, Option, none, some, Result, String, ==_iff,
}
use ic_websocket_gateway.DashMap.{DashMap}
use ic_websocket_gateway.CanisterUtils.{Bytes, ClientKey}
use ic_websocket_gateway.State.{GatewayState, ClientSender, client_at, write}
use ic_websocket_gateway.State.Senders.{sender_at}
use ic_websocket_gateway.Poller.{Round, Relayed, poll_and_relay}
use ic_websocket_gateway.Poller.Loop.{Run}
use ic_websocket_gateway.Session.External.{Wire}
use ic_websocket_gateway.Session.{Update, client_update, canister_update}
use ic_websocket_gateway.Handler.{Handler}
use ic_websocket_gateway.Gateway.{Gateway, begin, handle, poll, empty_gateway, step}

-- A message in a channel, with the canister that it is from.
abbrev pub Post : Type 0 → Type 0
Post P = P × Relayed P

-- `relay_message`: a message goes to the end of its channel. If the session has ended, nobody takes
-- it from there.
unfoldable pub relay_message : {P : Type 0} → Post P → (ℕ → List (Post P)) → ℕ → List (Post P)
relay_message (canister_id, r) channels =
    write r.sender (channels r.sender ++ (canister_id, r) ∷ []) channels

unfoldable pub relay_all :
    {P : Type 0} → P → List (Relayed P) → (ℕ → List (Post P)) → ℕ → List (Post P)
relay_all canister_id [] channels = channels
relay_all canister_id (r ∷ rs) channels =
    relay_all canister_id rs (relay_message (canister_id, r) channels)

module _ (D : DashMap) {P : Type 0} (W : Wire P) where
  -- All tasks, what is in each channel, which channel each handler's session receives from, and the
  -- number of the next channel.
  pub record Network : Type 0 where
    pub gateway : Gateway D W
    pub channels : ℕ → List (Post P)
    pub receivers : ℕ → ℕ
    pub next_channel : ℕ

module _ (D : DashMap) {P : Type 0} (dec : Discrete P) (W : Wire P) (broken : ℕ → Bool)
    (interval : ℕ) where
  abbrev Net : Type 0
  Net = Network D W

  abbrev pub new_network : Net
  new_network = record {
    gateway = empty_gateway D dec W broken interval;
    channels = λ _. [];
    receivers = λ _. 0;
    next_channel = 0;
  }

  -- No sending half of the channel is left: neither a handler before its set-up nor the gateway
  -- state holds it. (A live poller shares the clients of its entry.)
  pub record IsClosed (n : Net) (channel : ℕ) : Type 0 where
    pub unheld :
        (i : ℕ) (h : Handler D W)
        → n.gateway.handlers i ≡ some h
        → h.client_channel_tx ≢ some channel
    pub unshared :
        (c : P) (k : ClientKey P) (v : ClientSender)
        → sender_at D dec n.gateway.state c k ≡ some v
        → v.sender ≢ channel

  abbrev pub began : Net → ℕ → ℕ → Result P String → ℕ → Net
  began n i client_id get_principal span = record n {
    gateway =
        step D dec W broken interval n.gateway
          (begin i client_id get_principal n.next_channel span);
    receivers = write i n.next_channel n.receivers;
    next_channel = suc n.next_channel;
  }

  abbrev pub handled : Net → ℕ → Update W → Net
  handled n i update = record n {
    gateway = step D dec W broken interval n.gateway (handle i update);
  }

  -- The poller finds the clients in its poller state.
  abbrev pub seeing : Net → Run D P → Round D P → Round D P
  seeing n run round = record round {
    client_at = λ _. client_at D dec n.gateway.state run.poller.poller_state;
  }

  abbrev pub iterated : Net → ℕ → Run D P → Round D P → Net
  iterated n j run round = record n {
    gateway = step D dec W broken interval n.gateway (poll j (seeing n run round));
    channels =
        relay_all run.poller.canister_id (poll_and_relay run.poller (seeing n run round)).relayed
          n.channels;
  }

  -- What may happen: a connection's handler begins, with a new channel; a session gets a message
  -- from its client, the next message of its channel, or the end of its channel; a poller iterates.
  pub data Steps (n : Net) : Net → Type 0 where
    begins :
        (i client_id : ℕ) (get_principal : Result P String) (span : ℕ)
        → n.gateway.handlers i ≡ none
        → Steps n (began n i client_id get_principal span)
    from_client :
        (i : ℕ) (h : Handler D W) (m : Result W.Message Bytes)
        → n.gateway.handlers i ≡ some h
        → Steps n (handled n i (client_update m))
    from_channel :
        (i : ℕ) (h : Handler D W) (post : Post P) (posts : List (Post P))
        → n.gateway.handlers i ≡ some h
        → n.channels (n.receivers i) ≡ post ∷ posts
        → Steps n (record (handled n i (canister_update (some post.1.message))) {
          channels = write (n.receivers i) posts n.channels;
        })
    hangs_up :
        (i : ℕ) (h : Handler D W)
        → n.gateway.handlers i ≡ some h
        → n.channels (n.receivers i) ≡ []
        → IsClosed n (n.receivers i)
        → Steps n (handled n i (canister_update none))
    iterates :
        (j : ℕ) (run : Run D P) (round : Round D P)
        → n.gateway.pollers j ≡ some run
        → Steps n (iterated n j run round)

  pub data Reaches (n : Net) : Net → Type 0 where
    here : Reaches n n
    next : {m o : Net} → Reaches n m → Steps m o → Reaches n o

  -- A session's own turns with its channel, and nothing else: it takes a message from it, or finds
  -- its end.
  pub data Hears (i : ℕ) : Net → Net → Type 0 where
    rests : {n : Net} → Hears i n n
    takes :
        {n o : Net} (h : Handler D W) (post : Post P) (posts : List (Post P))
        → n.gateway.handlers i ≡ some h
        → n.channels (n.receivers i) ≡ post ∷ posts
        → Hears i
            (record (handled n i (canister_update (some post.1.message))) {
              channels = write (n.receivers i) posts n.channels;
            })
            o
        → Hears i n o
    finds_end :
        {n o : Net} (h : Handler D W)
        → n.gateway.handlers i ≡ some h
        → n.channels (n.receivers i) ≡ []
        → IsClosed n (n.receivers i)
        → Hears i (handled n i (canister_update none)) o
        → Hears i n o
