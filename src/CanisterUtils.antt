-- ===== src/CanisterUtils.antt =====
-- src/canister-utils/src/lib.rs: the messages exchanged with canisters, and the agent's calls.
-- Text and bytes are lists of byte values. A `Principal` is a type with a decidable equality.
pub mod Calls
use ic_websocket_gateway.Prelude.{ℕ, Bool, List, Option, ap, ℕ_discrete}

abbrev pub Bytes : Type 0
Bytes = List ℕ

pub record ClientKey (P : Type 0) : Type 0 where
  pub client_principal : P
  pub client_nonce : ℕ

-- The element of the list that `ws_get_messages` returns.
pub record CanisterOutputMessage (P : Type 0) : Type 0 where
  pub client_key : ClientKey P
  pub key : Bytes
  pub content : Bytes

pub record CanisterToClientMessage : Type 0 where
  pub key : Bytes
  pub content : Bytes
  pub cert : Bytes
  pub tree : Bytes

pub record CanisterOutputCertifiedMessages (P : Type 0) : Type 0 where
  pub messages : List (CanisterOutputMessage P)
  pub cert : Bytes
  pub tree : Bytes
  pub is_end_of_queue : Option Bool

-- A message with the tracing span that it travels in; a span is known by its identifier.
abbrev pub IcWsCanisterMessage : Type 0
IcWsCanisterMessage = CanisterToClientMessage × ℕ

pub data RejectCode : Type 0 where
  sys_fatal sys_transient destination_invalid canister_reject canister_error : RejectCode

-- The errors of the agent that the gateway tells apart, without the payloads, which it only
-- prints; `unlisted` stands for every variant that the gateway's code does not name.
pub data AgentError : Type 0 where
  invalid_replica_url timeout_waiting_for_response invalid_cbor_data http_error : AgentError
  invalid_replica_status request_status_done_no_reply lookup_path_absent : AgentError
  lookup_path_unknown lookup_path_error certificate_verification_failed : AgentError
  certificate_not_authorized response_size_exceeded_limit transport_error : AgentError
  call_data_mismatch invalid_reject_code : AgentError
  uncertified_reject : (reject_code : RejectCode) → AgentError
  unlisted : ℕ → AgentError

-- An error of the candid library is known by its printed form.
pub data IcError : Type 0 where
  agent : AgentError → IcError
  candid : Bytes → IcError
  cdk : Bytes → IcError

-- The derived `Eq` of `ClientKey`.
unfoldable pub ClientKey-discrete : {P : Type 0} → Discrete P → Discrete (ClientKey P)
unfolding ℕ_discrete
ClientKey-discrete dec a b = elim (dec a.client_principal b.client_principal) [
  | no h ↦ no (λ e. h (ap (λ k. k.client_principal) e))
  | yes p ↦ elim (ℕ_discrete a.client_nonce b.client_nonce) [
    | no h ↦ no (λ e. h (ap (λ k. k.client_nonce) e))
    | yes q ↦ yes (λ i. record { client_principal = p i; client_nonce = q i })
  ]
]
