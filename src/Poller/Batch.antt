-- ===== src/Poller/Batch.antt =====
-- canister_poller.rs, `update_nonce`: which batches of messages it accepts.
use ic_websocket_gateway.Prelude.{
  ℕ, suc, ◌+◌, ◌-◌, ◌%◌, ◌≡◌, ◌≢◌, ◌⊎◌, inl, inr, List, [], ◌∷◌, arith, All, ok, Result-cases,
  length, ◌↔◌, ◌∙◌,
}
use ic_websocket_gateway.CanisterUtils.{CanisterOutputMessage}
use ic_websocket_gateway.Poller.Nonce.{get_nonce_from_message, get_nonce_total, u64_mod}
use ic_websocket_gateway.Poller.{update_nonce}

module _ {P : Type 0} where
  -- The messages carry consecutive nonces, from the given one on.
  abbrev pub Carries : List (CanisterOutputMessage P) → ℕ → Type 0
  Carries [] n = Unit
  Carries (m ∷ ms) n = (get_nonce_from_message m.key ≡ ok n) × Carries ms (suc n)

  -- No message has the last nonce of 64 bits, after which the counter would start over.
  abbrev pub IsBelowLast : List (CanisterOutputMessage P) → Type 0
  IsBelowLast = All (λ m. get_nonce_from_message m.key ≢ ok (u64_mod - 1))

  nonce-lt :
      (m : CanisterOutputMessage P) (n : ℕ)
      → get_nonce_from_message m.key ≡ ok n
      → get_nonce_from_message m.key ≢ ok (u64_mod - 1)
      → (n + 1) % u64_mod ≡ suc n
  nonce-lt m n e last = elim (get_nonce_total m.key) [
    | inl (k, f, small) ↦ ground arith
    | inr (k, f) ↦ cc
  ]

  update_nonce_expected :
      (next : ℕ) (ms : List (CanisterOutputMessage P)) (next' : ℕ)
      → next ≢ 0
      → IsBelowLast ms
      → update_nonce next ms ≡ (next', ok tt)
      → Carries ms next × (next' ≡ next + length ms)
  unfolding update_nonce
  update_nonce_expected next [] next' pos low e = (tt, ground arith)
  update_nonce_expected next (m ∷ ms) next' pos low e =
      elim (Result-cases (get_nonce_from_message m.key)) [
        | inr (x, f) ↦ absurd (ground arith)
        | inl (n, f) ↦
            let step = nonce-lt m n f low.0 in
            let same : n ≡ next = ground arith in
            let e' : update_nonce (suc n) ms ≡ (next', ok tt) = ground arith in
            let (rest, total) = update_nonce_expected (suc n) ms next' (omega arith) low.1 e' in
            ((ground arith, rw (← same) rest), omega arith)
      ]

  update_nonce-Carries :
      (next : ℕ) (ms : List (CanisterOutputMessage P))
      → IsBelowLast ms
      → Carries ms next
      → update_nonce next ms ≡ (next + length ms, ok tt)
  unfolding update_nonce
  update_nonce-Carries next [] low c = ground arith
  update_nonce-Carries next (m ∷ ms) low c =
      ground (arith, nonce-lt m next c.0 low.0, update_nonce-Carries (suc next) ms low.1 c.1)

  update_nonce_first :
      (next first : ℕ) (m : CanisterOutputMessage P) (ms : List (CanisterOutputMessage P))
      → (next ≡ 0) ⊎ (next ≡ first)
      → get_nonce_from_message m.key ≡ ok first
      → update_nonce next (m ∷ ms) ≡ update_nonce ((first + 1) % u64_mod) ms
  unfolding update_nonce
  update_nonce_first next first m ms h e = ground arith

  update_nonce_start :
      (next : ℕ) (m : CanisterOutputMessage P) (ms : List (CanisterOutputMessage P)) (next' : ℕ)
      → update_nonce next (m ∷ ms) ≡ (next', ok tt)
      → (first : ℕ) × (get_nonce_from_message m.key ≡ ok first)
        × ((next ≡ 0) ⊎ (next ≡ first))
        × (update_nonce ((first + 1) % u64_mod) ms ≡ (next', ok tt))
  unfolding update_nonce
  update_nonce_start next m ms next' e = elim (Result-cases (get_nonce_from_message m.key)) [
    | inr (x, f) ↦ absurd (ground arith)
    | inl (n, f) ↦ (n, f, ground arith, ground arith)
  ]

  -- A batch that is not empty, and in which no message has the last nonce of 64 bits, is accepted
  -- exactly if its messages carry consecutive nonces that begin with the expected one, or with any
  -- one if none has been polled so far (the expected one is 0); the next nonce is then the one
  -- after the batch.
  pub update_nonce_accepts :
      (next next' : ℕ) (m : CanisterOutputMessage P) (ms : List (CanisterOutputMessage P))
      → IsBelowLast (m ∷ ms)
      → (update_nonce next (m ∷ ms) ≡ (next', ok tt)) ↔ (
          (first : ℕ) × ((next ≡ 0) ⊎ (next ≡ first))
          × Carries (m ∷ ms) first
          × (next' ≡ first + length (m ∷ ms)))
  update_nonce_accepts next next' m ms low = (
    λ e.
        let (first, f, start, rest) = update_nonce_start next m ms next' e in
        let step = nonce-lt m first f low.0 in
        let (c, total) =
          update_nonce_expected (suc first) ms next' (omega arith) low.1 (rw step at rest) in
        (first, start, (f, c), omega arith),
    λ h.
        let (first, start, c, total) = h in
        update_nonce_first next first m ms start c.0
        ∙ rw (nonce-lt m first c.0 low.0, total)
            (update_nonce-Carries (suc first) ms low.1 c.1 ∙ ground arith),
  )
