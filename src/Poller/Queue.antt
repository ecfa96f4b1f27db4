-- ===== src/Poller/Queue.antt =====
-- canister_poller.rs against a canister that keeps a queue of messages, one for each nonce, and
-- answers every poll with some of them, from the nonce that it is asked for (what the CDK's
-- `ws_get_messages` promises).
use ic_websocket_gateway.Prelude.{
  ℕ, zero, suc, ◌+◌, ◌<◌, ◌≡◌, refl, ap, sym, ◌∙◌, ◌⊎◌, List, [], ◌∷◌, ◌++◌, map, arith, ok, length,
  ◌==◌, if◌then◌else◌,
}
use mathlib.Core.List.{map-append}
use ic_websocket_gateway.CanisterUtils.{
  Bytes, ClientKey, CanisterOutputMessage, CanisterOutputCertifiedMessages,
}
use ic_websocket_gateway.State.{ClientSender}
use ic_websocket_gateway.Poller.Nonce.{get_nonce_from_message, u64_mod}
use ic_websocket_gateway.Poller.Batch.{Carries, IsBelowLast, update_nonce_accepts}
use ic_websocket_gateway.Poller.Relay.{messages_for, relayed_to, relayed_by}
use ic_websocket_gateway.Poller.{Relayed, update_nonce}

module _ {P : Type 0} (queue : ℕ → CanisterOutputMessage P) where
  -- `len` messages of the queue, from the nonce `n` on.
  unfoldable pub slice : ℕ → ℕ → List (CanisterOutputMessage P)
  slice n zero = []
  slice n (suc len) = queue n ∷ slice (suc n) len

  slice-append : (n a b : ℕ) → slice n (a + b) ≡ slice n a ++ slice (n + a) b
  unfolding slice
  slice-append n zero b =
      let all : zero + b ≡ b = omega arith in let at : n + zero ≡ n = omega arith in rw (all, at)
  slice-append n (suc a) b =
      let all : suc a + b ≡ suc (a + b) = omega arith in
      let at : suc n + a ≡ n + suc a = omega arith in
      rw all (ap (λ l. queue n ∷ l) (slice-append (suc n) a b ∙ rw at))

  length-slice : (n len : ℕ) → length (slice n len) ≡ len
  unfolding slice
  length-slice n zero = refl
  length-slice n (suc len) = ap suc (length-slice (suc n) len)

  -- The key of each message holds its nonce.
  abbrev pub Keyed : Type 0
  Keyed = (n : ℕ) → n < u64_mod → get_nonce_from_message (queue n).key ≡ ok n

  slice-Carries : Keyed → (n len : ℕ) → n + len < u64_mod → Carries (slice n len) n
  unfolding slice
  slice-Carries keyed n zero small = tt
  slice-Carries keyed n (suc len) small =
      (keyed n (omega arith), slice-Carries keyed (suc n) len (omega arith))

  slice-IsBelowLast : Keyed → (n len : ℕ) → n + len < u64_mod → IsBelowLast (slice n len)
  unfolding slice
  slice-IsBelowLast keyed n zero small = tt
  slice-IsBelowLast keyed n (suc len) small =
      ((λ e. ground (arith, keyed n)), slice-IsBelowLast keyed (suc n) len (omega arith))

  pub update_nonce-slice :
      Keyed
      → (next n len : ℕ) → (next ≡ 0) ⊎ (next ≡ n)
      → n + suc len < u64_mod
      → update_nonce next (slice n (suc len)) ≡ (n + suc len, ok tt)
  unfolding slice
  update_nonce-slice keyed next n len start small =
      (update_nonce_accepts next (n + suc len) (queue n) (slice (suc n) len)
          (slice-IsBelowLast keyed n (suc len) small)).1
        (
          n,
          start,
          slice-Carries keyed n (suc len) small,
          ap (λ k. n + k) (sym (length-slice n (suc len))),
        )

  -- Where the answer to a poll begins: at the nonce that is asked for, and at `start` if none is.
  abbrev pub from : ℕ → ℕ → ℕ
  from start next = if next == 0 then start else next

module _ {P : Type 0} (dec : Discrete P) (k : ClientKey P) where
  messages_for-append :
      (ms ns : List (CanisterOutputMessage P))
      → messages_for dec k (ms ++ ns) ≡ messages_for dec k ms ++ messages_for dec k ns
  unfolding messages_for
  messages_for-append [] ns = refl
  messages_for-append (m ∷ ms) ns = ground (arith, messages_for-append ms ns)

  relayed_to-append :
      (rs ss : List (Relayed P))
      → relayed_to dec k (rs ++ ss) ≡ relayed_to dec k rs ++ relayed_to dec k ss
  unfolding relayed_to
  relayed_to-append [] ss = refl
  relayed_to-append (r ∷ rs) ss = ground (arith, relayed_to-append rs ss)

  -- A message as it was put in the queue, and as it was given to a client's channel, without the
  -- certificate of the answer that it came in.
  abbrev pub asked : ClientSender → CanisterOutputMessage P → ℕ × Bytes × Bytes
  asked client m = (client.sender, m.key, m.content)

  abbrev pub sent : Relayed P → ℕ × Bytes × Bytes
  sent r = (r.sender, r.message.0.key, r.message.0.content)

  sent-relayed_by :
      (client : ClientSender) (msgs : CanisterOutputCertifiedMessages P)
      (ms : List (CanisterOutputMessage P))
      → map sent (map (relayed_by dec k client msgs) ms) ≡ map (asked client) ms
  sent-relayed_by client msgs [] = refl
  sent-relayed_by client msgs (m ∷ ms) =
      ap (λ l. asked client m ∷ l) (sent-relayed_by client msgs ms)

  module _ (queue : ℕ → CanisterOutputMessage P) (start : ℕ) (client : ClientSender) where
    -- The log holds exactly what the queue has for the client in its first `n` messages, and
    -- `next` is the nonce that follows.
    pub record Delivered (log : List (Relayed P)) (next n : ℕ) : Type 0 where
      pub all :
          map sent (relayed_to dec k log)
          ≡ map (asked client) (messages_for dec k (slice queue start n))
      pub at : next ≡ (if n == 0 then 0 else start + n)

    pub Delivered-append :
        (log rs : List (Relayed P)) (msgs : CanisterOutputCertifiedMessages P) (next n len : ℕ)
        → relayed_to dec k rs
          ≡ map
              (relayed_by dec k client msgs)
              (messages_for dec k (slice queue (from queue start next) (suc len)))
        → Delivered log next n
        → Delivered (log ++ rs) (from queue start next + suc len) (n + suc len)
    Delivered-append log rs msgs next n len new_ones d =
        let before = d.all in
        let here : from queue start next ≡ start + n = ground (arith, d.at) in
        record {
          all =
              rw
                (
                  relayed_to-append, map-append, before, new_ones, here, slice-append,
                  messages_for-append, map-append, sent-relayed_by,
                )
                refl;
          at = ground (arith, d.at);
        }
