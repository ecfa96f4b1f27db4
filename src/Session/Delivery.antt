-- ===== src/Session/Delivery.antt =====
-- client_session.rs: what a session passes on, from the client to the IC and from the canister to
-- the client.
use ic_websocket_gateway.Prelude.{
  ℕ, ◌≡◌, refl, ◌∙◌, inl, inr, ◌⊎◌, Bool, false, List, [], ◌∷◌, ◌++◌, map, Option, none, some,
  arith, ok, err,
}
use mathlib.Core.List.{append-nil, append_assoc}
use ic_websocket_gateway.CanisterUtils.{Bytes, CanisterToClientMessage, IcWsCanisterMessage}
use ic_websocket_gateway.Session.External.{Wire, call, other}
use ic_websocket_gateway.Session.{
  IcWsSessionState, setup, opened, ClientSession, Update, client_update, canister_update,
}
use ic_websocket_gateway.Session.Transitions.{try_update_state}

module _ {P : Type 0} (W : Wire P) (broken : ℕ → Bool) where
  -- The envelope that a client's message holds for the IC: a CBOR request whose content is a call.
  abbrev pub call_bytes : W.Message → Option Bytes
  call_bytes m = elim (W.as_binary m) [
    | none ↦ none
    | some bytes ↦ elim (W.decode_request bytes) [
      | none ↦ none
      | some envelope ↦ elim (W.content envelope) [
        | other _ ↦ none
        | call _ _ _ ↦ elim (W.encode_envelope envelope) [ err _ ↦ none | ok b ↦ some b ]
      ]
    ]
  ]

  abbrev pub addressed : P → Option Bytes → List (P × Bytes)
  addressed c none = []
  addressed c (some b) = (c, b) ∷ []

  -- When a session that is Open gets a message of its client which is not a Close, then the message,
  -- if it holds a call, is given to the IC once, for the canister of the session, and otherwise
  -- nothing is given to the IC. Nothing is written to the client in this turn, and the session stays
  -- Open. (The session knows its canister.)
  pub try_update_state_relays :
      (s : ClientSession W) (m : W.Message) (c : P)
      → s.session_state ≡ opened
      → s.canister_id ≡ some c
      → W.is_close m ≡ false
      → let s' = (try_update_state W broken (client_update (ok m)) s).0 in
        (s'.relayed ≡ s.relayed ++ addressed c (call_bytes m))
        × (s'.written ≡ s.written)
        × (s'.session_state ≡ opened)
  unfolding try_update_state
  try_update_state_relays s m c e f g = ground (arith, append-nil s.relayed)

  -- The session after some updates.
  unfoldable pub run_updates : ClientSession W → List (Update W) → ClientSession W
  run_updates s [] = s
  run_updates s (u ∷ us) = run_updates (try_update_state W broken u s).0 us

  -- The messages encode as these bytes.
  abbrev pub Encodes : List IcWsCanisterMessage → List Bytes → Type 0
  Encodes [] [] = Unit
  Encodes ((m, _) ∷ ms) (b ∷ bs) = (W.to_vec m ≡ ok b) × Encodes ms bs
  Encodes _ _ = ⊥

  abbrev pub IsLive : IcWsSessionState W.Message → Type 0
  IsLive st = ((m : W.Message) × (st ≡ setup m)) ⊎ (st ≡ opened)

  pub deliver_one :
      (s : ClientSession W) (m : CanisterToClientMessage) (span : ℕ) (b : Bytes)
      → ((n : ℕ) → broken n ≡ false)
      → IsLive s.session_state
      → W.to_vec m ≡ ok b
      → let s' = (try_update_state W broken (canister_update (some (m, span))) s).0 in
        (s'.written ≡ s.written ++ W.binary b ∷ []) × (s'.session_state ≡ opened)
  unfolding try_update_state
  deliver_one s m span b sound (inl (x, live)) e = ground (arith, sound s.operations)
  deliver_one s m span b sound (inr live) e = ground (arith, sound s.operations)

  -- The messages of the canister reach the client's WebSocket in the order in which the poller gave
  -- them to the session, each once and encoded, if the session is Setup or Open, each message can
  -- be encoded and no write fails; the first one makes the session Open, and it stays Open.
  pub run_updates_delivers :
      (s : ClientSession W) (m : IcWsCanisterMessage) (ms : List IcWsCanisterMessage)
      (bs : List Bytes)
      → ((n : ℕ) → broken n ≡ false)
      → IsLive s.session_state
      → Encodes (m ∷ ms) bs
      → let s' = run_updates s (map (λ x. canister_update (some x)) (m ∷ ms)) in
        (s'.written ≡ s.written ++ map W.binary bs) × (s'.session_state ≡ opened)
  unfolding run_updates
  run_updates_delivers s (m, span) ms [] sound live en = elim en [ ]
  run_updates_delivers s (m, span) [] (b ∷ []) sound live en =
      deliver_one s m span b sound live en.0
  run_updates_delivers s (m, span) [] (b ∷ c ∷ bs) sound live en = elim en.1 [ ]
  run_updates_delivers s (m, span) (x ∷ ms) (b ∷ bs) sound live en =
      let (wrote, open_now) = deliver_one s m span b sound live en.0 in
      let (all, still) =
        run_updates_delivers (try_update_state W broken (canister_update (some (m, span))) s).0 x ms
          bs sound (inr open_now) en.1 in
      (all ∙ rw (wrote, append_assoc) refl, still)
