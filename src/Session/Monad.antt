-- ===== src/Session/Monad.antt =====
-- How the methods of client_session.rs end, and their sequencing.
use ic_websocket_gateway.Prelude.{String, Result, ok, err}

-- The source's errors, with the text of each up to the first value that it formats.
pub data IcWsError : Type 0 where
  ic_ws_protocol web_socket poller : String → IcWsError

pub data Answer (A : Type 0) : Type 0 where
  returns : A → Answer A
  fails : IcWsError → Answer A
  panics : String → Answer A

module _ (S : Type 0) where
  abbrev pub M : Type 0 → Type 0
  M A = S → S × Answer A

module _ {S : Type 0} where
  abbrev pub pure : {A : Type 0} → A → M S A
  pure a s = (s, returns a)

  abbrev pub fail : {A : Type 0} → IcWsError → M S A
  fail e s = (s, fails e)

  abbrev pub crash : {A : Type 0} → String → M S A
  crash m s = (s, panics m)

  abbrev pub get : M S S
  get s = (s, returns s)

  abbrev pub set : S → M S (Unit {0})
  set s' s = (s', returns tt)

  abbrev pub lift : {A : Type 0} → Result A IcWsError → M S A
  lift (ok a) s = (s, returns a)
  lift (err e) s = (s, fails e)

  abbrev pub continue : {A B : Type 0} → S → Answer A → (A → M S B) → S × Answer B
  continue s (returns a) f = f a s
  continue s (fails e) f = (s, fails e)
  continue s (panics m) f = (s, panics m)

  infixl 5 ◌>>=◌ ◌>>◌
  abbrev pub ◌>>=◌ : {A B : Type 0} → M S A → (A → M S B) → M S B
  ◌>>=◌ m f s = continue (m s).0 (m s).1 f

  abbrev pub ◌>>◌ : {B : Type 0} → M S (Unit {0}) → M S B → M S B
  m >> k = m >>= λ _. k
