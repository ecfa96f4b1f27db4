-- ===== src/Handler/LoopTests.antt =====
-- The theorems on the handler's loop at concrete inputs: alice comes and goes, or her connection
-- breaks at the second message of the canister.
use ic_websocket_gateway.Prelude.{
  ℕ, ◌+◌, ◌≤◌, ◌<◌, ◌≡◌, ◌≢◌, ◌⊎◌, refl, inr, Bool, true, ◌==◌, List, [], ◌∷◌, ◌++◌, map, length,
  take, ℕ_discrete,
}
use ic_websocket_gateway.DashMap.Assoc.{assoc}
use ic_websocket_gateway.CanisterUtils.{Bytes, CanisterToClientMessage, IcWsCanisterMessage}
use ic_websocket_gateway.Session.Tests.{wire, sound, alice_calls}
use ic_websocket_gateway.Handler.Once.{handle_client_session_once}
use ic_websocket_gateway.Handler.{Turn, continues, handle_client_session}
use ic_websocket_gateway.Handler.Gapless.{telling, handle_client_session_gapless}
use ic_websocket_gateway.Handler.Tests.{alice, handler, turn, opened_handler}

handle_client_session_once_example :
    let (h', handling) =
      handle_client_session assoc ℕ_discrete wire sound handler (turn alice_calls ∷ turn [] ∷ []) in
    (length h'.pollers ≤ 1) × (length h'.ws_closes ≤ 1) × (handling ≡ continues → h'.ws_closes ≡ [])
handle_client_session_once_example =
    handle_client_session_once assoc ℕ_discrete wire sound handler (turn alice_calls ∷ turn [] ∷ [])
      refl refl

-- The third write to alice fails.
abbrev third_breaks : ℕ → Bool
third_breaks n = n == 2

abbrev certified : ℕ → CanisterToClientMessage
certified n = record { key = []; content = n ∷ []; cert = []; tree = [] }

abbrev told : List (Turn assoc wire × IcWsCanisterMessage)
told = (turn [], (certified 3, 0)) ∷ (turn [], (certified 4, 0)) ∷ (turn [], (certified 5, 0)) ∷ []

abbrev encoded : List Bytes
encoded = (3 ∷ []) ∷ (4 ∷ []) ∷ (5 ∷ []) ∷ []

handle_client_session_gapless_example :
    let (h', handling) =
      handle_client_session assoc ℕ_discrete wire third_breaks opened_handler
        (map (telling assoc ℕ_discrete wire third_breaks) told) in
    (n : ℕ) × (h'.session.written ≡ [] ++ map (λ b. b) (take n encoded))
    × (((handling ≡ continues) × (n ≡ 3))
        ⊎ ((handling ≢ continues) × (n < 3) × (third_breaks (1 + n) ≡ true)))
handle_client_session_gapless_example =
    handle_client_session_gapless assoc ℕ_discrete wire third_breaks told encoded opened_handler 7
      alice (refl, (refl, (refl, tt))) (inr refl) refl refl
