-- ===== src/Channels/Writing.antt =====
-- A session that writes what is in its channel, one message after another.
use ic_websocket_gateway.Prelude.{
  ℕ, ◌≡◌, refl, sym, ap, subst, ◌∙◌, ◌⊎◌, inl, inr, Bool, false, List, [], ◌∷◌, ◌++◌, map, Option,
  none, some, arith, ok, Option-cases, ◌≢◌,
}
use mathlib.Core.List.{append-nil, append_assoc}
use ic_websocket_gateway.DashMap.{DashMap}
use ic_websocket_gateway.CanisterUtils.{Bytes, ClientKey, CanisterToClientMessage}
use ic_websocket_gateway.State.{write}
use ic_websocket_gateway.Session.External.{Wire}
use ic_websocket_gateway.Session.Monad.{Answer, returns}
use ic_websocket_gateway.Session.{IcWsSessionState, opened, ClientSession, Update, canister_update}
use ic_websocket_gateway.Session.Transitions.{try_update_state}
use ic_websocket_gateway.Session.Delivery.{IsLive, deliver_one}
use ic_websocket_gateway.Session.Updates.{KeysFit}
use ic_websocket_gateway.Handler.{Handler, on_answer, handle_turn}
use ic_websocket_gateway.Gateway.{enter, on_its_own}
use ic_websocket_gateway.Gateway.Consistency.{IsConsistent}
use ic_websocket_gateway.Gateway.EndToEnd.{Readable, content_of}
use ic_websocket_gateway.Channels.{Post, Network, Steps, from_channel, Reaches, here, handled}
use ic_websocket_gateway.Channels.Passing.{try_update_state-keys}
use ic_websocket_gateway.Channels.Moves.{seat, handle_rest}
use ic_websocket_gateway.Channels.Reachable.{Routed, Steps-Routed}
use ic_websocket_gateway.Channels.HangUp.{written_at, Reaches-first}

module _ (D : DashMap) {P : Type 0} (dec : Discrete P) (W : Wire P) (broken : ℕ → Bool)
    (interval : ℕ) (decode : W.Message → Option (Bytes × Bytes))
    (readable : Readable W broken decode) (sound : (n : ℕ) → broken n ≡ false) where
  abbrev Net : Type 0
  Net = Network D W

  -- What a client can read of a message.
  abbrev pub reading : Post P → Option (Bytes × Bytes)
  reading post = content_of W broken decode post.1.message.0

  answers :
      (s : ClientSession W) (m : CanisterToClientMessage) (span : ℕ) (b : Bytes)
      → IsLive W broken s.session_state
      → W.to_vec m ≡ ok b
      → let a = (try_update_state W broken (canister_update (some (m, span))) s).1 in
        (a ≡ returns none) ⊎ (a ≡ returns (some opened))
  unfolding try_update_state
  answers s m span b (inl (x, live)) e = inr (ground (arith, sound s.operations))
  answers s m span b (inr live) e = inl (ground (arith, sound s.operations))

  seat_after :
      (h : Handler D W) (a : Answer (Option (IcWsSessionState W.Message))) (c : P) (k : ClientKey P)
      → (a ≡ returns none) ⊎ (a ≡ returns (some opened))
      → h.session.canister_id ≡ some c
      → h.session.client_key ≡ some k
      → seat D dec W broken interval (on_answer D dec W broken (λ gs. gs) h a) ≡ some h
  seat_after h a c k (inl e) canister key = ground arith
  seat_after h a c k (inr e) canister key = ground arith

  -- A handler that has written a message goes on.
  record Written (h h' : Handler D W) (post : Post P) : Type 0 where
    bytes : W.Message
    written : h'.session.written ≡ h.session.written ++ bytes ∷ []
    read : decode bytes ≡ reading post
    live : IsLive W broken h'.session.session_state

  known_keys :
      (s : ClientSession W)
      → KeysFit W s.session_state s.client_key s.canister_id
      → IsLive W broken s.session_state
      → (k : ClientKey P) × (c : P) × (s.client_key ≡ some k) × (s.canister_id ≡ some c)
  known_keys s fit live =
      let (has_key, has_canister) : (s.client_key ≢ none) × (s.canister_id ≢ none) = elim live [
        | inl (x, at) ↦ subst (λ st. KeysFit W st s.client_key s.canister_id) at fit
        | inr at ↦ subst (λ st. KeysFit W st s.client_key s.canister_id) at fit
      ] in
      elim (Option-cases s.client_key) [
        | inl gone ↦ absurd (has_key gone)
        | inr (k, key) ↦ elim (Option-cases s.canister_id) [
          | inl gone ↦ absurd (has_canister gone)
          | inr (c, canister) ↦ (k, c, key, canister)
        ]
      ]

  turn_writes :
      (n : Net) (i : ℕ) (h : Handler D W) (post : Post P)
      → Routed D dec W broken interval n
      → n.gateway.handlers i ≡ some h
      → IsLive W broken h.session.session_state
      → let g =
          (handled D dec W broken interval n i (canister_update (some post.1.message))).gateway in
        (h' : Handler D W) × (g.handlers i ≡ some h') × Written h h' post
  unfolding handle_turn
  turn_writes n i h (c', r) routed live on =
      let u : Update W = canister_update (some r.message) in
      let s = h.session in
      let (s', answer) = try_update_state W broken u s in
      let h' : Handler D W = record h { session = s'; gateway = n.gateway.state; pollers = [] } in
      let fit = (routed.runs i h live).sound.0 in
      let (k, c, key, canister) = known_keys s fit on in
      let (key', canister') =
        try_update_state-keys D dec W broken s s.session_state u refl fit k c key canister in
      let (b, encoded, read) = readable r.message.0 in
      let (wrote, open_now) = deliver_one W broken s r.message.0 r.message.1 b sound on encoded in
      let turned =
        handle_turn D dec W broken (enter D dec W broken interval n.gateway h)
          (on_its_own D dec W broken interval u) in
      let stays : seat D dec W broken interval turned ≡ some h' =
        seat_after h' answer c k (answers s r.message.0 r.message.1 b on encoded) canister' key' in
      let (_, same) = handle_rest D dec W broken interval n.gateway i h u live in
      (
        h',
        ap (λ hs. hs i) same
            ∙ written_at i (seat D dec W broken interval turned) n.gateway.handlers
            ∙ stays,
        record { bytes = W.binary b; written = wrote; read = read; live = inr open_now },
      )

  -- A network in which the session has written all that was in its channel.
  pub record Drained (n : Net) (i : ℕ) (h : Handler D W) (posts : List (Post P)) : Type 0 where
    pub after : Net
    pub there : Reaches D dec W broken interval n after
    pub handler : Handler D W
    pub still : after.gateway.handlers i ≡ some handler
    pub empty : after.channels (after.receivers i) ≡ []
    pub more : List W.Message
    pub written : handler.session.written ≡ h.session.written ++ more
    pub read : map decode more ≡ map reading posts

  pub drained :
      (posts : List (Post P)) (n : Net) (i : ℕ) (h : Handler D W)
      → IsConsistent D dec W n.gateway
      → Routed D dec W broken interval n
      → n.gateway.handlers i ≡ some h
      → IsLive W broken h.session.session_state
      → n.channels (n.receivers i) ≡ posts
      → Drained n i h posts
  drained [] n i h fine routed live on empty = record {
    after = n;
    there = here;
    handler = h;
    still = live;
    empty = empty;
    more = [];
    written = sym (append-nil h.session.written);
    read = refl;
  }
  drained (post ∷ posts) n i h fine routed live on full =
      let taken =
        record (handled D dec W broken interval n i (canister_update (some post.1.message))) {
          channels = write (n.receivers i) posts n.channels;
        } in
      let first : Steps D dec W broken interval n taken = from_channel i h post posts live full in
      let (fine', routed') = Steps-Routed D dec W broken interval n taken first fine routed in
      let (h', live', w) = turn_writes n i h post routed live on in
      let rest =
        drained posts taken i h' fine' routed' live' w.live
          (written_at (n.receivers i) posts n.channels) in
      record {
        after = rest.after;
        there = Reaches-first D dec W broken interval n taken rest.after first rest.there;
        handler = rest.handler;
        still = rest.still;
        empty = rest.empty;
        more = w.bytes ∷ rest.more;
        written =
            rest.written
            ∙ ap (λ l. l ++ rest.more) w.written
            ∙ append_assoc h.session.written (w.bytes ∷ []) rest.more;
        read = rw (w.read, rest.read) refl;
      }
