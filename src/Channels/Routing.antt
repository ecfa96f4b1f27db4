-- ===== src/Channels/Routing.antt =====
-- Which handler receives from which channel, and what is in it: an invariant, over the parts of a
-- network.
use ic_websocket_gateway.Prelude.{
  ℕ, ◌<◌, ◌≤◌, ◌≡◌, refl, sym, ap, subst, ◌∙◌, inl, inr, Bool, List, [], ◌∷◌, Option, some, arith,
  All,
}
use ic_websocket_gateway.DashMap.{DashMap}
use ic_websocket_gateway.CanisterUtils.{ClientKey}
use ic_websocket_gateway.State.{GatewayState, ClientSender, write}
use ic_websocket_gateway.State.Senders.{sender_at, Within}
use ic_websocket_gateway.Poller.{Relayed}
use ic_websocket_gateway.Session.External.{Wire}
use ic_websocket_gateway.Handler.Panics.{Runs}
use ic_websocket_gateway.Handler.{Handler}
use ic_websocket_gateway.Gateway.Consistency.{write-cases}
use ic_websocket_gateway.Channels.Hands.{Keys}
use ic_websocket_gateway.Channels.Passing.{Passes}
use ic_websocket_gateway.Channels.Relaying.{Addressed, relay_all-All}
use ic_websocket_gateway.Channels.{Post, relay_all}

pub All-map :
    {A : Type 0} (Q R : A → Type 0) (xs : List A) → ((x : A) → Q x → R x) → All Q xs → All R xs
All-map Q R [] f a = tt
All-map Q R (x ∷ xs) f (q, a) = (f x q, All-map Q R xs f a)

All-empty : {A : Type 0} (xs : List A) → All (λ (_ : A). ⊥) xs → xs ≡ []
All-empty [] a = refl
All-empty (x ∷ xs) (a, _) = absurd a

module _ (D : DashMap) {P : Type 0} (dec : Discrete P) (W : Wire P) (broken : ℕ → Bool) where
  -- The message is for the handler's client, from the handler's canister.
  abbrev pub For : Handler D W → Post P → Type 0
  For h post = Keys D dec W broken h post.1.client_key post.0

  -- A handler receives from a channel of its own; the sending half is its own until its set-up, and
  -- then in the gateway state under its session's keys only; what is in the channel is for it.
  pub record IsRouted (gs : GatewayState D P) (handlers : ℕ → Option (Handler D W))
      (channels : ℕ → List (Post P)) (receivers : ℕ → ℕ) (next_channel : ℕ) : Type 0 where
    pub runs : (i : ℕ) (h : Handler D W) → handlers i ≡ some h → Runs D dec W broken h
    pub own :
        (i : ℕ) (h : Handler D W) (t : ℕ)
        → handlers i ≡ some h
        → h.client_channel_tx ≡ some t
        → t ≡ receivers i
    pub apart :
        (i j : ℕ) (h g : Handler D W)
        → handlers i ≡ some h
        → handlers j ≡ some g
        → receivers i ≡ receivers j
        → i ≡ j
    pub known : (i : ℕ) (h : Handler D W) → handlers i ≡ some h → receivers i < next_channel
    pub senders :
        (c : P) (k : ClientKey P) (v : ClientSender)
        → sender_at D dec gs c k ≡ some v
        → v.sender < next_channel
    pub keyed :
        (i : ℕ) (h : Handler D W) (c : P) (k : ClientKey P) (v : ClientSender)
        → handlers i ≡ some h
        → sender_at D dec gs c k ≡ some v
        → v.sender ≡ receivers i
        → Keys D dec W broken h k c
    pub filled :
        (i : ℕ) (h : Handler D W) → handlers i ≡ some h → All (For h) (channels (receivers i))
    pub unused : (t : ℕ) → next_channel ≤ t → channels t ≡ []

  module _ (gs : GatewayState D P) (handlers : ℕ → Option (Handler D W))
      (channels : ℕ → List (Post P)) (receivers : ℕ → ℕ) (next_channel : ℕ)
      (before : IsRouted gs handlers channels receivers next_channel) where
    -- A handler's turn, after which it may have ended.
    module _ (i : ℕ) (h h' : Handler D W) (gs' : GatewayState D P) (place : Option (Handler D W))
        (live : handlers i ≡ some h) (passes : Passes D dec W broken gs gs' h h')
        (goes : (g : Handler D W) → place ≡ some g → (h' ≡ g) × Runs D dec W broken g) where
      abbrev after : ℕ → Option (Handler D W)
      after = write i place handlers

      -- A handler after the turn, from one that received from the same channel before it.
      record Stems (j : ℕ) (g : Handler D W) : Type 0 where
        old : Handler D W
        was : handlers j ≡ some old
        runs : Runs D dec W broken g
        held : (t : ℕ) → g.client_channel_tx ≡ some t → old.client_channel_tx ≡ some t
        keys : (k : ClientKey P) (c : P) → Keys D dec W broken old k c → Keys D dec W broken g k c
        mine : j ≡ i → h' ≡ g

      stems : (j : ℕ) (g : Handler D W) → after j ≡ some g → Stems j g
      stems j g e = elim (write-cases i place handlers j) [
        | inl (same, v) ↦
            let (is, runs) = goes g (sym v ∙ e) in
            record {
              old = h;
              was = ap handlers same ∙ live;
              runs = runs;
              held =
                  subst
                    (λ (x : Handler D W).
                      (t : ℕ) → x.client_channel_tx ≡ some t → h.client_channel_tx ≡ some t)
                    is passes.held;
              keys =
                  subst
                    (λ (x : Handler D W).
                      (k : ClientKey P) (c : P)
                      → Keys D dec W broken h k c
                      → Keys D dec W broken x k c)
                    is passes.keys;
              mine = λ _. is;
            }
        | inr (other, v) ↦ record {
          old = g;
          was = sym v ∙ e;
          runs = before.runs j g (sym v ∙ e);
          held = λ t f. f;
          keys = λ k c f. f;
          mine = λ e. absurd (other e);
        }
      ]

      -- A sending half of the gateway state after the turn, for a handler that receives from it.
      keyed_after :
          (j : ℕ) (g : Handler D W) (c : P) (k : ClientKey P) (v : ClientSender)
          → after j ≡ some g
          → sender_at D dec gs' c k ≡ some v
          → v.sender ≡ receivers j
          → Keys D dec W broken g k c
      keyed_after j g c k v e there at =
          let s = stems j g e in
          elim (passes.sent c k v there) [
            | inl old ↦ s.keys k c (before.keyed j s.old c k v s.was old at)
            | inr (own, _, keys) ↦
                let same : j ≡ i =
                  before.apart j i s.old h s.was live (sym at ∙ before.own i h v.sender live own) in
                subst (λ (x : Handler D W). Keys D dec W broken x k c) (s.mine same) keys
          ]

      pub turned-IsRouted : IsRouted gs' after channels receivers next_channel
      turned-IsRouted = record {
        runs = λ j g e. (stems j g e).runs;
        own = λ j g t e f. let s = stems j g e in before.own j s.old t s.was (s.held t f);
        apart = λ j l g f e d same.
            before.apart j l (stems j g e).old (stems l f d).old (stems j g e).was (stems l f d).was
              same;
        known = λ j g e. let s = stems j g e in before.known j s.old s.was;
        senders = λ c k v there. elim (passes.sent c k v there) [
          | inl old ↦ before.senders c k v old
          | inr (own, _, _) ↦
              ground (arith, before.own i h v.sender live own, before.known i h live)
        ];
        keyed = keyed_after;
        filled = λ j g e.
            let s = stems j g e in
            All-map (For s.old) (For g) (channels (receivers j))
              (λ post. s.keys post.1.client_key post.0) (before.filled j s.old s.was);
        unused = before.unused;
      }

    -- A handler has taken the next message.
    pub taken-IsRouted :
        (i : ℕ) (h : Handler D W) (post : Post P) (posts : List (Post P))
        → handlers i ≡ some h
        → channels (receivers i) ≡ post ∷ posts
        → IsRouted gs handlers (write (receivers i) posts channels) receivers next_channel
    taken-IsRouted i h post posts live full =
        let gone : All (For h) posts = (subst (All (For h)) full (before.filled i h live)).1 in
        record {
          runs = before.runs;
          own = before.own;
          apart = before.apart;
          known = before.known;
          senders = before.senders;
          keyed = before.keyed;
          filled = λ j g e. elim (write-cases (receivers i) posts channels (receivers j)) [
            | inl (same, v) ↦
                let is : i ≡ j = before.apart i j h g live e (sym same) in
                let one : some h ≡ some g = sym live ∙ ap handlers is ∙ e in
                let equal : h ≡ g = cc in
                rw v (subst (λ (x : Handler D W). All (For x) posts) equal gone)
            | inr (other, v) ↦ rw v (before.filled j g e)
          ];
          unused = λ t high.
              let low = before.known i h live in
              elim (write-cases (receivers i) posts channels t) [
                | inl (same, v) ↦ absurd (ground arith)
                | inr (other, v) ↦ v ∙ before.unused t high
              ];
        }

    -- A poller has relayed a batch and left the gateway state.
    pub polled-IsRouted :
        (gs' : GatewayState D P) (c : P) (rs : List (Relayed P))
        → Within D dec gs' gs
        → All (Addressed (sender_at D dec gs c)) rs
        → IsRouted gs' handlers (relay_all c rs channels) receivers next_channel
    polled-IsRouted gs' c rs within sent = record {
      runs = before.runs;
      own = before.own;
      apart = before.apart;
      known = before.known;
      senders = λ b k v e. before.senders b k v (within b k v e);
      keyed = λ i h b k v live e at. before.keyed i h b k v live (within b k v e) at;
      filled = λ i h live.
          relay_all-All (For h) c rs channels (receivers i) (before.filled i h live) (
            All-map _ (λ (r : Relayed P). r.sender ≡ receivers i → For h (c, r)) rs
              (λ r (v, held, sender) at. before.keyed i h c r.client_key v live held (sender ∙ at))
              sent);
      unused = λ t high. All-empty (relay_all c rs channels t) (
          relay_all-All (λ _. ⊥) c rs channels t (rw (before.unused t high) tt)
            (All-map _ (λ (r : Relayed P). r.sender ≡ t → ⊥) rs
              (λ r (v, held, sender) at.
                let low = before.senders c r.client_key v held in ground arith)
              sent));
    }
