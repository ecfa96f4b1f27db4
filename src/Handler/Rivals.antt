-- ===== src/Handler/Rivals.antt =====
-- client_session_handler.rs with gateway-state/src/lib.rs: sessions whose closing finds the entry of
-- their canister without their client.
use ic_websocket_gateway.Prelude.{
  ℕ, ◌≡◌, ◌≢◌, refl, ap, sym, ◌∙◌, inl, Bool, true, Option, none, some, arith, ok, done, subst,
  if_pos, if_neg, ite,
}
use ic_websocket_gateway.DashMap.{DashMap}
use ic_websocket_gateway.CanisterUtils.{Bytes, ClientKey}
use ic_websocket_gateway.State.{
  GatewayState, ClientSender, key_dec, insert_client_channel_and_get_new_poller_state,
  remove_failed_canister,
}
use ic_websocket_gateway.State.View.{view, IsWellFormed}
use ic_websocket_gateway.State.Directory.{clients_of}
use ic_websocket_gateway.State.Refinement.{insert_refines}
use ic_websocket_gateway.State.Removal.{remove_present}
use ic_websocket_gateway.State.Races.{absent_panics, put_clients, drop_clients, failed_view}
use ic_websocket_gateway.Session.External.{Wire}
use ic_websocket_gateway.Session.Delivery.{IsLive, call_bytes}
use ic_websocket_gateway.Session.{closed, ClientSession, client_update}
use ic_websocket_gateway.Handler.Setup.{Opens, arrived, handle_turn-Opens, pollers_after}
use ic_websocket_gateway.Handler.Cleanup.{try_update_state_closes, on_closed_present}
use ic_websocket_gateway.Handler.{Handler, Handling, finished, panicked, handle_turn, on_closed}

module _ (D : DashMap) {P : Type 0} (dec : Discrete P) (W : Wire P) (broken : ℕ → Bool) where
  -- A turn of a handler with a message of its client, in a gateway state, where no other task acts.
  abbrev pub hears : GatewayState D P → Handler D W → W.Message → Handler D W × Handling
  hears gs h m =
      handle_turn D dec W broken (record h { gateway = gs })
        (record { update = client_update (ok m); meanwhile = λ g. g; between = λ g. g })

  -- The session of a handler is set up, for a client and a canister.
  pub record Serves (h : Handler D W) (c : P) (k : ClientKey P) : Type 0 where
    pub live : IsLive W broken h.session.session_state
    pub canister : h.session.canister_id ≡ some c
    pub key : h.session.client_key ≡ some k

  -- A handler that waits for the first message of its client, and such a message, with the bytes
  -- that the IC is given.
  pub record Opening (g : Handler D W) (m : W.Message) (k : ClientKey P) (c : P) : Type 0 where
    pub tx : ℕ
    pub bytes : Bytes
    pub opens : Opens D dec W broken g.session m k c
    pub channel : g.client_channel_tx ≡ some tx
    pub encodes : call_bytes W broken m ≡ some bytes

  closes_absent :
      (gs : GatewayState D P) (h : Handler D W) (m : W.Message) (c : P) (k : ClientKey P)
      (f : ClientKey P → Option ClientSender)
      → Serves h c k
      → W.is_close m ≡ true
      → IsWellFormed D dec gs
      → view D dec gs c ≡ some f
      → f k ≡ none
      → (hears gs h m).1 ≡ panicked "Client key not found in poller state"
  unfolding handle_turn on_closed
  closes_absent gs h m c k f serves close wf here gone =
      let closes = try_update_state_closes D dec W broken h.session m serves.live close in
      let removal = absent_panics D dec gs c k f wf here gone in
      let canister = serves.canister in let key = serves.key in ground arith

  -- After a session has been opened, the gateway state holds its client, and the session serves it.
  opened_lem :
      (gs : GatewayState D P) (g : Handler D W) (m : W.Message) (k : ClientKey P) (c : P)
      → Opening g m k c
      → IsWellFormed D dec gs
      → let (g', _) = hears gs g m in
        (v : ClientSender) × IsWellFormed D dec g'.gateway
        × (view D dec g'.gateway c
            ≡ some (λ j. ite (key_dec D dec j k) (some v) (clients_of (view D dec gs c) j)))
        × Serves g' c k
  opened_lem gs g m k c o wf =
      let span = g.client_session_span in
      let (gs', started) = insert_client_channel_and_get_new_poller_state D dec gs c k o.tx span in
      let (viewed, wf', _) = insert_refines D dec gs wf c k o.tx span in
      let v : ClientSender = record { sender = o.tx; span = span } in
      let here : Handler D W = record g { gateway = gs } in
      let (same, held, _) =
        pollers_after D dec W broken (arrived D dec W broken here m k c o.bytes gs') c started in
      rw
        (handle_turn-Opens D dec W broken here m k c o.tx o.bytes (λ x. x) (λ x. x) o.opens
          o.channel o.encodes)
        (
          v,
          subst (IsWellFormed D dec) (sym held) wf',
          ap (λ x. view D dec x c) held
              ∙ ap (λ d. d c) viewed
              ∙ put_clients D dec (view D dec gs) c k v,
          record {
            live = inl (m, ap (λ (s : ClientSession W). s.session_state) same);
            canister = ap (λ (s : ClientSession W). s.canister_id) same;
            key = ap (λ (s : ClientSession W). s.client_key) same;
          },
        )

  -- Closing a session whose client is held.
  closes_held :
      (gs : GatewayState D P) (h : Handler D W) (m : W.Message) (c : P) (k : ClientKey P)
      (v : ClientSender)
      → Serves h c k
      → W.is_close m ≡ true
      → IsWellFormed D dec gs
      → clients_of (view D dec gs c) k ≡ some v
      → let (h', handling) = hears gs h m in
        (handling ≡ finished (ok tt))
        × IsWellFormed D dec h'.gateway
        × (view D dec h'.gateway c
            ≡ some (λ j. ite (key_dec D dec j k) none (clients_of (view D dec gs c) j)))
  unfolding handle_turn
  closes_held gs h m c k v serves close wf there =
      let (gs', gone, viewed, wf') = remove_present D dec gs c k v wf there in
      let closing : Handler D W = record h {
        session = record h.session { session_state = closed };
        gateway = gs;
      } in
      rw
        (
          try_update_state_closes D dec W broken h.session m serves.live close,
          on_closed_present D dec W broken closing c k gs' serves.canister serves.key gone,
        )
        (refl, wf', ap (λ d. d c) viewed ∙ drop_clients D dec (view D dec gs) c k)

  -- Two sessions with one client key end badly. A session of a client is set up, and the same client opens
  -- a second one with the same canister; then the first gets its client's Close, and ends without an
  -- error; then the second gets its client's Close, and its task panics, since the first has removed
  -- the client. (The second session can be opened, the gateway state is well-formed, and no other
  -- task acts on it in between.)
  pub rival_closes :
      (gs : GatewayState D P) (h g : Handler D W) (m m1 m2 : W.Message) (k : ClientKey P) (c : P)
      → IsWellFormed D dec gs
      → Serves h c k
      → Opening g m k c
      → W.is_close m1 ≡ true
      → W.is_close m2 ≡ true
      → let (g', _) = hears gs g m in
        let (h', handling) = hears g'.gateway h m1 in
        (handling ≡ finished (ok tt))
        × ((hears h'.gateway g' m2).1 ≡ panicked "Client key not found in poller state")
  rival_closes gs h g m m1 m2 k c wf serves o close1 close2 =
      let (g', _) = hears gs g m in
      let (v, wf1, viewed, second) = opened_lem gs g m k c o wf in
      let held : clients_of (view D dec g'.gateway c) k ≡ some v =
        ap (λ d. clients_of d k) viewed
        ∙ if_pos (key_dec D dec k k) refl (some v) (clients_of (view D dec gs c) k) in
      let (over, wf2, left) = closes_held g'.gateway h m1 c k v serves close1 wf1 held in
      (
        over,
        closes_absent (hears g'.gateway h m1).0.gateway g' m2 c k _ second close2 wf2 left
            (if_pos (key_dec D dec k k) refl none (clients_of (view D dec g'.gateway c) k)),
      )

  -- A session that outlives its poller can end badly. The poller of a canister fails while a session
  -- of a client is set up; another client opens a session with the canister, which gives the
  -- canister a new entry; if the first session then gets its client's Close before it has come to
  -- the end of its channel, its task panics, since the new entry does not hold its client. (The
  -- other session can be opened, the gateway state is well-formed, and no other task acts on it in
  -- between.)
  pub stale_closes :
      (gs gs' : GatewayState D P) (h g : Handler D W) (m m1 : W.Message) (k j : ClientKey P) (c : P)
      → IsWellFormed D dec gs
      → k ≢ j
      → remove_failed_canister D dec gs c ≡ done gs'
      → Serves h c k
      → Opening g m j c
      → W.is_close m1 ≡ true
      → let (g', _) = hears gs' g m in
        (hears g'.gateway h m1).1 ≡ panicked "Client key not found in poller state"
  stale_closes gs gs' h g m m1 k j c wf ne failed serves o close =
      let (dropped, wf') = failed_view D dec gs gs' c wf failed in
      let (v, wf'', viewed, _) = opened_lem gs' g m j c o wf' in
      let gone : view D dec gs' c ≡ none =
        ap (λ d. d c) dropped ∙ if_pos (dec c c) refl none (view D dec gs c) in
      closes_absent (hears gs' g m).0.gateway h m1 c k _ serves close wf'' viewed
        (if_neg (key_dec D dec k j) ne (some v) (clients_of (view D dec gs' c) k) ∙ rw gone refl)
