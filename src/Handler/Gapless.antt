-- ===== src/Handler/Gapless.antt =====
-- client_session_handler.rs, the loop: what a client gets if its connection may break.
use ic_websocket_gateway.Prelude.{
  ℕ, suc, ◌<◌, ◌+◌, ◌≡◌, ◌≢◌, refl, sym, ap, ◌∙◌, ◌⊎◌, inl, inr, Bool, true, false, List, [], ◌∷◌,
  ◌++◌, map, Option, none, some, arith, ok, Bool-cases, length, take,
}
use mathlib.Core.List.{append-nil, append_assoc}
use ic_websocket_gateway.DashMap.{DashMap}
use ic_websocket_gateway.CanisterUtils.{
  Bytes, ClientKey, CanisterToClientMessage, IcWsCanisterMessage,
}
use ic_websocket_gateway.State.{GatewayState}
use ic_websocket_gateway.Session.External.{Wire}
use ic_websocket_gateway.Session.Monad.{
  ic_ws_protocol, web_socket, poller, Answer, returns, fails, panics,
}
use ic_websocket_gateway.Session.{IcWsSessionState, opened, ClientSession, canister_update}
use ic_websocket_gateway.Session.Transitions.{try_update_state}
use ic_websocket_gateway.Session.Updates.{is_failure}
use ic_websocket_gateway.Session.Delivery.{IsLive, Encodes}
use ic_websocket_gateway.Handler.{
  Handler, Turn, Handling, continues, finished, panicked, handle_turn, handle_client_session,
  on_answer, on_error, resume,
}

module _ (D : DashMap) {P : Type 0} (dec : Discrete P) (W : Wire P) (broken : ℕ → Bool) where
  -- A turn with a message of the canister.
  abbrev pub telling : Turn D W × IcWsCanisterMessage → Turn D W
  telling (turn, m) = record turn { update = canister_update (some m) }

  -- The session has written the bytes and is Open.
  record Relays (s s' : ClientSession W) (b : Bytes) : Type 0 where
    client_key : s'.client_key ≡ s.client_key
    canister_id : s'.canister_id ≡ s.canister_id
    written : s'.written ≡ s.written ++ W.binary b ∷ []
    operations : s'.operations ≡ suc s.operations
    open_now : s'.session_state ≡ opened

  try_update_state-Relays :
      (s : ClientSession W) (m : CanisterToClientMessage) (span : ℕ) (b : Bytes)
      → IsLive W broken s.session_state
      → W.to_vec m ≡ ok b
      → broken s.operations ≡ false
      → let (s', a) = try_update_state W broken (canister_update (some (m, span))) s in
        Relays s s' b × ((a ≡ returns none) ⊎ (a ≡ returns (some opened)))
  unfolding try_update_state
  try_update_state-Relays s m span b (inl (x, live)) e fine = (
    record {
      client_key = ground arith;
      canister_id = ground arith;
      written = ground arith;
      operations = ground arith;
      open_now = ground arith;
    },
    inr (ground arith),
  )
  try_update_state-Relays s m span b (inr live) e fine = (
    record {
      client_key = ground arith;
      canister_id = ground arith;
      written = ground arith;
      operations = ground arith;
      open_now = ground arith;
    },
    inl (ground arith),
  )

  try_update_state_breaks :
      (s : ClientSession W) (m : CanisterToClientMessage) (span : ℕ) (b : Bytes)
      → IsLive W broken s.session_state
      → W.to_vec m ≡ ok b
      → broken s.operations ≡ true
      → let (s', a) = try_update_state W broken (canister_update (some (m, span))) s in
        (s'.written ≡ s.written) × (is_failure W a ≡ true)
  unfolding try_update_state
  try_update_state_breaks s m span b (inl (x, live)) e bad = (ground arith, ground arith)
  try_update_state_breaks s m span b (inr live) e bad = (ground arith, ground arith)

  on_answer_goes_on :
      (between : GatewayState D P → GatewayState D P) (h : Handler D W)
      (a : Answer (Option (IcWsSessionState W.Message))) (c : P) (k : ClientKey P)
      → (a ≡ returns none) ⊎ (a ≡ returns (some opened))
      → h.session.canister_id ≡ some c
      → h.session.client_key ≡ some k
      → on_answer D dec W broken between h a ≡ (h, continues)
  on_answer_goes_on between h a c k (inl e) canister key = ground arith
  on_answer_goes_on between h a c k (inr e) canister key = ground arith

  on_answer_fails :
      (between : GatewayState D P → GatewayState D P) (h : Handler D W)
      (a : Answer (Option (IcWsSessionState W.Message)))
      → is_failure W a ≡ true
      → let (h', x) = on_answer D dec W broken between h a in
        (h'.session.written ≡ h.session.written) × (x ≢ continues)
  unfolding on_error
  on_answer_fails between h (returns x) e = absurd (ground arith)
  on_answer_fails between h (panics m) e = absurd (ground arith)
  on_answer_fails between h (fails (poller x)) e = (refl, λ f. ground arith)
  on_answer_fails between h (fails (ic_ws_protocol x)) e = (ground arith, λ f. ground arith)
  on_answer_fails between h (fails (web_socket x)) e = (ground arith, λ f. ground arith)

  -- What the loop comes to, from a handler with these bytes to write.
  record IsGapless (h : Handler D W) (bs : List Bytes) (r : Handler D W × Handling) : Type 0 where
    count : ℕ
    written : r.0.session.written ≡ h.session.written ++ map W.binary (take count bs)
    ends :
        ((r.1 ≡ continues) × (count ≡ length bs))
        ⊎ ((r.1 ≢ continues) × (count < length bs) × (broken (h.session.operations + count) ≡ true))

  turn_goes_on :
      (h : Handler D W) (turn : Turn D W) (m : CanisterToClientMessage) (span : ℕ) (b : Bytes)
      (c : P) (k : ClientKey P)
      → IsLive W broken h.session.session_state
      → h.session.canister_id ≡ some c
      → h.session.client_key ≡ some k
      → W.to_vec m ≡ ok b
      → broken h.session.operations ≡ false
      → (h' : Handler D W) × (handle_turn D dec W broken h (telling (turn, (m, span)))
          ≡ (h', continues))
        × Relays h.session h'.session b
  unfolding handle_turn
  turn_goes_on h turn m span b c k live canister key e fine =
      let (s', a) = try_update_state W broken (canister_update (some (m, span))) h.session in
      let (relays, answer) = try_update_state-Relays h.session m span b live e fine in
      let h' : Handler D W = record h { session = s'; gateway = turn.meanwhile h.gateway } in
      (
        h',
        on_answer_goes_on turn.between h' a c k answer (relays.canister_id ∙ canister)
            (relays.client_key ∙ key),
        relays,
      )

  turn_breaks :
      (h : Handler D W) (turn : Turn D W) (m : CanisterToClientMessage) (span : ℕ) (b : Bytes)
      → IsLive W broken h.session.session_state
      → W.to_vec m ≡ ok b
      → broken h.session.operations ≡ true
      → let r = handle_turn D dec W broken h (telling (turn, (m, span))) in
        (r.0.session.written ≡ h.session.written) × (r.1 ≢ continues)
  unfolding handle_turn
  turn_breaks h turn m span b live e bad =
      let (s', a) = try_update_state W broken (canister_update (some (m, span))) h.session in
      let (same, failed) = try_update_state_breaks h.session m span b live e bad in
      let h' : Handler D W = record h { session = s'; gateway = turn.meanwhile h.gateway } in
      let (kept, over) = on_answer_fails turn.between h' a failed in (kept ∙ same, over)

  stops :
      (r : Handler D W × Handling) (f : Handler D W → Handler D W × Handling)
      → r.1 ≢ continues
      → resume D dec W broken r f ≡ r
  stops (h, continues) f over = absurd (over refl)
  stops (h, finished x) f over = refl
  stops (h, panicked m) f over = refl

  loop-IsGapless :
      (told : List (Turn D W × IcWsCanisterMessage)) (bs : List Bytes) (h : Handler D W) (c : P)
      (k : ClientKey P)
      → Encodes W broken (map (λ (x : Turn D W × IcWsCanisterMessage). x.1) told) bs
      → IsLive W broken h.session.session_state
      → h.session.canister_id ≡ some c
      → h.session.client_key ≡ some k
      → IsGapless h bs (handle_client_session D dec W broken h (map telling told))
  unfolding handle_client_session
  loop-IsGapless [] [] h c k en live canister key = record {
    count = 0;
    written = sym (append-nil h.session.written);
    ends = inl (refl, refl);
  }
  loop-IsGapless [] (b ∷ bs) h c k en live canister key = absurd en
  loop-IsGapless ((turn, (m, span)) ∷ told) [] h c k en live canister key = absurd en
  loop-IsGapless ((turn, (m, span)) ∷ told) (b ∷ bs) h c k (e, en) live canister key =
      let rest = λ (h' : Handler D W). handle_client_session D dec W broken h' (map telling told) in
      elim (Bool-cases (broken h.session.operations)) [
        | inl bad ↦
            let (kept, over) = turn_breaks h turn m span b live e bad in
            rw (stops (handle_turn D dec W broken h (telling (turn, (m, span)))) rest over)
              (record {
                count = 0;
                written = kept ∙ sym (append-nil h.session.written);
                ends = inr (over, omega arith, ap broken (omega arith) ∙ bad);
              })
        | inr fine ↦
            let (h', goes_on, r) = turn_goes_on h turn m span b c k live canister key e fine in
            let g =
              loop-IsGapless told bs h' c k en (inr r.open_now) (r.canister_id ∙ canister)
                (r.client_key ∙ key) in
            rw goes_on (record {
              count = suc g.count;
              written =
                  g.written
                  ∙ ap (λ l. l ++ map W.binary (take g.count bs)) r.written
                  ∙ append_assoc h.session.written (W.binary b ∷ [])
                      (map W.binary (take g.count bs));
              ends = elim g.ends [
                | inl (on, all) ↦ inl (on, ap suc all)
                | inr (over, few, bad) ↦
                    inr (over, omega (arith, few), ap broken (ground (arith, r.operations)) ∙ bad)
              ];
            })
      ]

  -- While every update of a session is a message of its canister, so that nothing comes from its
  -- client and its channel does not end, the client gets these messages without a gap, whatever the
  -- other tasks do and whichever write to the client fails: the handler has written the first of
  -- them, each once and in order, and either these are all, and it goes on, or the next write has
  -- failed, and its loop has ended. (The session is Setup or Open and knows its client, and the
  -- messages can be encoded.)
  pub handle_client_session_gapless :
      (told : List (Turn D W × IcWsCanisterMessage)) (bs : List Bytes) (h : Handler D W) (c : P)
      (k : ClientKey P)
      → Encodes W broken (map (λ (x : Turn D W × IcWsCanisterMessage). x.1) told) bs
      → IsLive W broken h.session.session_state
      → h.session.canister_id ≡ some c
      → h.session.client_key ≡ some k
      → let (h', handling) = handle_client_session D dec W broken h (map telling told) in
        (n : ℕ) × (h'.session.written ≡ h.session.written ++ map W.binary (take n bs))
        × (((handling ≡ continues) × (n ≡ length bs))
            ⊎ ((handling ≢ continues)
                × (n < length bs)
                × (broken (h.session.operations + n) ≡ true)))
  handle_client_session_gapless told bs h c k en live canister key =
      let g = loop-IsGapless told bs h c k en live canister key in (g.count, g.written, g.ends)
