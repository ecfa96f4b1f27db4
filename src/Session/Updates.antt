-- ===== src/Session/Updates.antt =====
-- client_session.rs, `try_update_state`: which states follow which, and what stays true.
use ic_websocket_gateway.Prelude.{
  ℕ, ◌≡◌, ◌≢◌, refl, inl, inr, ◌⊎◌, Bool, true, false, Option, none, some, arith, ok, err,
}
use ic_websocket_gateway.CanisterUtils.{ClientKey, IcWsCanisterMessage}
use ic_websocket_gateway.Session.External.{Wire}
use ic_websocket_gateway.Session.Monad.{Answer, fails, panics}
use ic_websocket_gateway.Session.{
  IcWsSessionState, init, setup, opened, closed, ClientSession, Update, client_update,
  canister_update,
}
use ic_websocket_gateway.Session.Transitions.{try_update_state}

module _ {P : Type 0} (W : Wire P) where
  -- The moves of the session's state machine, by the update that makes them.
  abbrev pub Moves : Update W → IcWsSessionState W.Message → IcWsSessionState W.Message → Type 0
  Moves u init st =
      (st ≡ init) ⊎ ((m : W.Message) × (u ≡ client_update (ok m)) × (st ≡ setup m)) ⊎ (st ≡ closed)
  Moves u (setup m) st =
      (st ≡ setup m)
      ⊎ ((message : IcWsCanisterMessage) × (u ≡ canister_update (some message)) × (st ≡ opened))
      ⊎ (st ≡ closed)
  Moves u opened st = (st ≡ opened) ⊎ (st ≡ closed)
  Moves u closed st = st ≡ closed

  -- The client's key and the canister are known while the session is Setup or Open, and unknown
  -- while it is Init.
  abbrev pub KeysFit : IcWsSessionState W.Message → Option (ClientKey P) → Option P → Type 0
  KeysFit init k c = (k ≡ none) × (c ≡ none)
  KeysFit (setup _) k c = (k ≢ none) × (c ≢ none)
  KeysFit opened k c = (k ≢ none) × (c ≢ none)
  KeysFit closed k c = Unit

  module _ (broken : ℕ → Bool) where
    Moves-from :
        (s : ClientSession W) (st : IcWsSessionState W.Message) (u : Update W)
        → s.session_state ≡ st
        → Moves u st (try_update_state W broken u s).0.session_state
    unfolding try_update_state
    Moves-from s init (client_update (ok m)) e = ground arith
    Moves-from s _ (client_update (ok m)) e = ground arith
    Moves-from s init (client_update (err x)) e = ground arith
    Moves-from s _ (client_update (err x)) e = ground arith
    Moves-from s init (canister_update (some m)) e = ground arith
    Moves-from s _ (canister_update (some m)) e = ground arith
    Moves-from s init (canister_update none) e = ground arith
    Moves-from s _ (canister_update none) e = ground arith

    -- Whatever update comes, the session's state stays as it is or makes a move of this machine: from
    -- Init to Setup, only by a message of the client, and with this very message; from Setup to
    -- Open, only by a message of the canister; and from any state to Closed, which is final.
    pub try_update_state-Moves :
        (s : ClientSession W) (u : Update W)
        → Moves u s.session_state (try_update_state W broken u s).0.session_state
    try_update_state-Moves s u = Moves-from s s.session_state u refl

    fit_from :
        (s : ClientSession W) (st : IcWsSessionState W.Message) (u : Update W)
        → s.session_state ≡ st
        → KeysFit st s.client_key s.canister_id
        → let s' = (try_update_state W broken u s).0 in
          KeysFit s'.session_state s'.client_key s'.canister_id
    unfolding try_update_state
    fit_from s init (client_update (ok m)) e k = ground arith
    fit_from s _ (client_update (ok m)) e k = ground arith
    fit_from s init (client_update (err x)) e k = ground arith
    fit_from s _ (client_update (err x)) e k = ground arith
    fit_from s init (canister_update (some m)) e k = ground arith
    fit_from s _ (canister_update (some m)) e k = ground arith
    fit_from s init (canister_update none) e k = ground arith
    fit_from s _ (canister_update none) e k = ground arith

    stable_from :
        (s : ClientSession W) (st : IcWsSessionState W.Message) (u : Update W)
        → s.session_state ≡ st
        → st ≢ init
        → let s' = (try_update_state W broken u s).0 in
          (s'.client_key ≡ s.client_key) × (s'.canister_id ≡ s.canister_id)
    unfolding try_update_state
    stable_from s init u e k = absurd (k refl)
    stable_from s _ (client_update (ok m)) e k = ground arith
    stable_from s _ (client_update (err x)) e k = ground arith
    stable_from s _ (canister_update (some m)) e k = ground arith
    stable_from s _ (canister_update none) e k = ground arith

  abbrev pub is_panic : {A : Type 0} → Answer A → Bool
  is_panic (panics _) = true
  is_panic _ = false

  abbrev pub is_failure : {A : Type 0} → Answer A → Bool
  is_failure (fails _) = true
  is_failure _ = false

  init-cases : (st : IcWsSessionState W.Message) → (st ≡ init) ⊎ (st ≢ init)
  init-cases init = inl refl
  init-cases (setup m) = inr (λ e. cc)
  init-cases opened = inr (λ e. cc)
  init-cases closed = inr (λ e. cc)

  -- A message of the canister for a session that has not been set up.
  abbrev pub is_premature : IcWsSessionState W.Message → Update W → Bool
  is_premature init (canister_update (some _)) = true
  is_premature _ _ = false

  module _ (broken : ℕ → Bool) where
    panic_from :
        (s : ClientSession W) (st : IcWsSessionState W.Message) (u : Update W)
        → s.session_state ≡ st
        → KeysFit st s.client_key s.canister_id
        → is_panic (try_update_state W broken u s).1 ≡ is_premature st u
    unfolding try_update_state
    panic_from s init (client_update (ok m)) e k = ground arith
    panic_from s _ (client_update (ok m)) e k = ground arith
    panic_from s init (client_update (err x)) e k = ground arith
    panic_from s _ (client_update (err x)) e k = ground arith
    panic_from s init (canister_update (some m)) e k = ground arith
    panic_from s _ (canister_update (some m)) e k = ground arith
    panic_from s init (canister_update none) e k = ground arith
    panic_from s _ (canister_update none) e k = ground arith

    closed_from :
        (s : ClientSession W) (u : Update W)
        → s.session_state ≡ closed
        → is_failure (try_update_state W broken u s).1 ≡ true
    unfolding try_update_state
    closed_from s (client_update (ok m)) e = ground arith
    closed_from s (client_update (err x)) e = ground arith
    closed_from s (canister_update (some m)) e = ground arith
    closed_from s (canister_update none) e = ground arith

    -- The client's key and the canister stay known in Setup and Open and unknown in Init, and an
    -- update of a session that is not in Init changes neither of them.
    pub try_update_state-KeysFit :
        (s : ClientSession W) (u : Update W)
        → KeysFit s.session_state s.client_key s.canister_id
        → let s' = (try_update_state W broken u s).0 in
          KeysFit s'.session_state s'.client_key s'.canister_id
          × ((s.session_state ≡ init)
              ⊎ ((s'.client_key ≡ s.client_key) × (s'.canister_id ≡ s.canister_id)))
    try_update_state-KeysFit s u k = (
      fit_from broken s s.session_state u refl k,
      elim (init-cases s.session_state) [
        | inl e ↦ inl e
        | inr e ↦ inr (stable_from broken s s.session_state u refl e)
      ],
    )

    -- Of a session whose keys fit its state, the only update that panics is a message of the
    -- canister in Init: no other `expect` of the session can fail.
    pub try_update_state_panics :
        (s : ClientSession W) (u : Update W)
        → KeysFit s.session_state s.client_key s.canister_id
        → is_panic (try_update_state W broken u s).1 ≡ is_premature s.session_state u
    try_update_state_panics s u k = panic_from s s.session_state u refl k

    -- Closed is final: every further update leaves the session in Closed and ends with an error.
    pub try_update_state_closed :
        (s : ClientSession W) (u : Update W)
        → s.session_state ≡ closed
        → ((try_update_state W broken u s).0.session_state ≡ closed)
          × (is_failure (try_update_state W broken u s).1 ≡ true)
    try_update_state_closed s u e = (Moves-from broken s closed u e, closed_from s u e)
