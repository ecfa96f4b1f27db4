-- ===== src/Handler/Orphan.antt =====
-- client_session_handler.rs, the branch for Setup when the message that opened the session cannot
-- be relayed.
use ic_websocket_gateway.Prelude.{
  ℕ, ◌≡◌, refl, ap, ◌∙◌, Bool, none, some, arith, ite, if_pos, fun_ext, ok, err, done,
}
use ic_websocket_gateway.DashMap.{DashMap}
use ic_websocket_gateway.CanisterUtils.{ClientKey}
use ic_websocket_gateway.State.{
  GatewayState, ClientSender, entry, key_dec, insert_client_channel_and_get_new_poller_state,
  remove_client,
}
use ic_websocket_gateway.State.View.{Directory, view, IsWellFormed}
use ic_websocket_gateway.State.Directory.{clients_of, put, drop_client}
use ic_websocket_gateway.State.Refinement.{insert_refines}
use ic_websocket_gateway.State.Removal.{remove_present, put_present}
use ic_websocket_gateway.Session.External.{Wire}
use ic_websocket_gateway.Session.Monad.{IcWsError, fails}
use ic_websocket_gateway.Session.Delivery.{call_bytes}
use ic_websocket_gateway.Session.{client_update, relay_client_message}
use ic_websocket_gateway.Handler.Setup.{
  Opens, set_up, try_update_state-Opens, relay_fails, failure_error,
}
use ic_websocket_gateway.Handler.{Handler, Turn, finished, not_relayed, handle_turn, on_setup}

module _ (D : DashMap) {P : Type 0} (dec : Discrete P) (W : Wire P) (broken : ℕ → Bool) where
  handle_turn_not_relayed :
      (h : Handler D W) (m : W.Message) (k : ClientKey P) (c : P) (tx : ℕ) (e : IcWsError)
      (meanwhile : GatewayState D P → GatewayState D P) (gs : GatewayState D P)
      → Opens D dec W broken h.session m k c
      → h.client_channel_tx ≡ some tx
      → relay_client_message W broken m (set_up D dec W broken h.session m k c)
        ≡ (set_up D dec W broken h.session m k c, fails e)
      → remove_client D dec
          (insert_client_channel_and_get_new_poller_state D dec
            (meanwhile h.gateway)
            c
            k
            tx
            h.client_session_span).0
          c
          k
        ≡ done gs
      → handle_turn D dec W broken h
          (record { update = client_update (ok m); meanwhile = meanwhile; between = λ g. g })
        ≡ (
          record h {
            session = set_up D dec W broken h.session m k c;
            gateway = gs;
            client_channel_tx = none;
          },
          finished (err (not_relayed e)),
        )
  unfolding handle_turn on_setup
  handle_turn_not_relayed h m k c tx e meanwhile gs o chan f r =
      ground (arith, try_update_state-Opens D dec W broken h.session m k c o)

  -- A canister without an entry, whose only client has come and gone.
  emptied :
      (d : Directory P) (c : P) (k : ClientKey P) (v : ClientSender)
      → d c ≡ none
      → drop_client D dec (put D dec d c k v) c k c ≡ some (λ _. none)
  emptied d c k v e =
      if_pos (dec c c) refl
        (some (λ j. ite (key_dec D dec j k) none (clients_of (put D dec d c k v c) j)))
        (put D dec d c k v c)
      ∙ ap some
          (fun_ext λ j. elim (key_dec D dec j k) [ yes p ↦ ground arith | no p ↦ ground arith ])

  told_nothing :
      (gs : GatewayState D P) (c : P)
      → IsWellFormed D dec gs
      → view D dec gs c ≡ some (λ _. none)
      → (k : ClientKey P) (tx span : ℕ)
      → (insert_client_channel_and_get_new_poller_state D dec gs c k tx span).1 ≡ none
  told_nothing gs c wf e k tx span = ground (arith, (insert_refines D dec gs wf c k tx span).2)

  -- If the message with which the first client of a canister opens its session cannot be encoded
  -- for the IC again, the handler ends with an error, having removed its client and started no
  -- poller; but the canister keeps an entry without clients, so that whichever client comes next
  -- is told to start no poller either. (The channel is still there, the canister has no entry
  -- before, the gateway state is well-formed, and no other task acts on it in between.)
  pub handle_turn_orphans :
      (h : Handler D W) (m : W.Message) (k : ClientKey P) (c : P) (tx : ℕ)
      (meanwhile : GatewayState D P → GatewayState D P)
      → Opens D dec W broken h.session m k c
      → h.client_channel_tx ≡ some tx
      → call_bytes W broken m ≡ none
      → IsWellFormed D dec (meanwhile h.gateway)
      → entry D dec (meanwhile h.gateway) c ≡ none
      → let turn : Turn D W = record {
        update = client_update (ok m);
        meanwhile = meanwhile;
        between = λ g. g;
      } in
        let (h', handling) = handle_turn D dec W broken h turn in
        (e : IcWsError) × (handling ≡ finished (err (not_relayed e)))
        × (h'.pollers ≡ h.pollers)
        × (view D dec h'.gateway c ≡ some (λ _. none))
        × ((j : ClientKey P) (tx' span : ℕ)
            → (insert_client_channel_and_get_new_poller_state D dec h'.gateway c j tx' span).1
              ≡ none)
  handle_turn_orphans h m k c tx meanwhile o chan unencodable wf vacant =
      let gs = meanwhile h.gateway in
      let client : ClientSender = record { sender = tx; span = h.client_session_span } in
      let gs' =
        (insert_client_channel_and_get_new_poller_state D dec gs c k tx h.client_session_span).0 in
      let (put_there, wf', _) = insert_refines D dec gs wf c k tx h.client_session_span in
      let s = set_up D dec W broken h.session m k c in
      let (same, fails_now) = relay_fails D dec W broken s m unencodable in
      let (e, f) = failure_error D dec W broken (relay_client_message W broken m s).1 fails_now in
      let here : clients_of (view D dec gs' c) k ≡ some client =
        rw put_there (put_present D dec (view D dec gs) c k client) in
      let (gs'', removed, viewed, wf'') = remove_present D dec gs' c k client wf' here in
      let left : view D dec gs'' c ≡ some (λ _. none) =
        ap (λ d. d c) viewed
        ∙ rw put_there (emptied (view D dec gs) c k client (rw (vacant, view) refl)) in
      rw (handle_turn_not_relayed h m k c tx e meanwhile gs'' o chan (ground arith) removed)
        (e, refl, refl, left, told_nothing gs'' c wf'' left)
