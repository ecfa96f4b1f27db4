-- ===== src/Poller/Relay.antt =====
-- canister_poller.rs, `relay_messages`: which client gets which messages, in which order.
use ic_websocket_gateway.Prelude.{
  ℕ, suc, ◌≡◌, refl, Option, none, some, List, [], ◌∷◌, map, arith, ite,
}
use ic_websocket_gateway.CanisterUtils.{
  ClientKey, ClientKey-discrete, CanisterOutputMessage, CanisterOutputCertifiedMessages,
}
use ic_websocket_gateway.State.{ClientSender}
use ic_websocket_gateway.Poller.{Relayed, relay_from, relay_messages}

module _ {P : Type 0} (dec : Discrete P) (k : ClientKey P) where
  -- The messages of a batch for one client, and what was relayed to one client, in order.
  unfoldable pub messages_for : List (CanisterOutputMessage P) → List (CanisterOutputMessage P)
  messages_for [] = []
  messages_for (m ∷ ms) =
      let rest = messages_for ms in ite (ClientKey-discrete dec m.client_key k) (m ∷ rest) rest

  unfoldable pub relayed_to : List (Relayed P) → List (Relayed P)
  relayed_to [] = []
  relayed_to (r ∷ rs) =
      let rest = relayed_to rs in ite (ClientKey-discrete dec r.client_key k) (r ∷ rest) rest

  -- A message as its client is to get it: the canister's key and content, and the certificate and
  -- the tree of the batch, with the client's span.
  abbrev pub relayed_by :
      ClientSender → CanisterOutputCertifiedMessages P → CanisterOutputMessage P → Relayed P
  relayed_by client msgs m = record {
    client_key = m.client_key;
    sender = client.sender;
    message = (
      record { key = m.key; content = m.content; cert = msgs.cert; tree = msgs.tree },
      client.span,
    );
  }

  relay_from_connected :
      (client_at : ℕ → ClientKey P → Option ClientSender) (msgs : CanisterOutputCertifiedMessages P)
      (client : ClientSender)
      → ((i : ℕ) → client_at i k ≡ some client)
      → (i : ℕ) (ms : List (CanisterOutputMessage P))
      → relayed_to (relay_from client_at msgs i ms) ≡ map (relayed_by client msgs) (messages_for ms)
  unfolding relayed_to relay_from messages_for
  relay_from_connected client_at msgs client here i [] = refl
  relay_from_connected client_at msgs client here i (m ∷ ms) =
      let ih = relay_from_connected client_at msgs client here (suc i) ms in
      elim (ClientKey-discrete dec m.client_key k) [
        | yes p ↦ ground (arith, ih, here i)
        | no p ↦ ground (arith, ih)
      ]

  relay_from_absent :
      (client_at : ℕ → ClientKey P → Option ClientSender) (msgs : CanisterOutputCertifiedMessages P)
      → ((i : ℕ) → client_at i k ≡ none)
      → (i : ℕ) (ms : List (CanisterOutputMessage P))
      → relayed_to (relay_from client_at msgs i ms) ≡ []
  unfolding relayed_to relay_from
  relay_from_absent client_at msgs gone i [] = refl
  relay_from_absent client_at msgs gone i (m ∷ ms) =
      let ih = relay_from_absent client_at msgs gone (suc i) ms in
      elim (ClientKey-discrete dec m.client_key k) [
        | yes p ↦ ground (arith, ih, gone i)
        | no p ↦ ground (arith, ih)
      ]

  -- A client that stays connected while a batch is relayed gets exactly the messages of the batch
  -- that are addressed to it, in the batch's order, each once, through its own channel and with the
  -- certificate and the tree of the batch, whoever else connects or leaves meanwhile.
  pub relay_messages_connected :
      (client_at : ℕ → ClientKey P → Option ClientSender) (msgs : CanisterOutputCertifiedMessages P)
      (client : ClientSender)
      → ((i : ℕ) → client_at i k ≡ some client)
      → relayed_to (relay_messages client_at msgs)
        ≡ map (relayed_by client msgs) (messages_for msgs.messages)
  unfolding relay_messages
  relay_messages_connected client_at msgs client here =
      relay_from_connected client_at msgs client here 0 msgs.messages

  -- A key that the poller state does not hold while a batch is relayed gets nothing.
  pub relay_messages_absent :
      (client_at : ℕ → ClientKey P → Option ClientSender) (msgs : CanisterOutputCertifiedMessages P)
      → ((i : ℕ) → client_at i k ≡ none)
      → relayed_to (relay_messages client_at msgs) ≡ []
  unfolding relay_messages
  relay_messages_absent client_at msgs gone = relay_from_absent client_at msgs gone 0 msgs.messages
