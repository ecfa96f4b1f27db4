-- ===== src/CanisterUtils/Calls.antt =====
-- src/canister-utils/src/lib.rs: the agent's calls. The agent and the candid library are no part of
-- the repository: what the calls get from them is a record of functions.
use Prim.Native.String.{String}
use text.Mathlib.Text.{◌==◌}
use ic_websocket_gateway.Prelude.{ℕ, Bool, ◌||◌, Result, ok, err, if◌then◌else◌}
use ic_websocket_gateway.CanisterUtils.{
  Bytes, ClientKey, CanisterOutputCertifiedMessages, AgentError, IcError,
}

-- One answer of the libraries and of the network, for the calls of a task at one point in time.
pub record CanisterApi (P : Type 0) : Type 0 where
  pub encode_nonce : ℕ → Result Bytes Bytes
  pub encode_client_key : ClientKey P → Result Bytes Bytes
  pub query : P → String → Bytes → Result Bytes AgentError
  pub call_and_wait : P → String → Bytes → Result Bytes Bytes
  pub decode_messages : Bytes → Result (Result (CanisterOutputCertifiedMessages P) Bytes) Bytes
  pub decode_closed : Bytes → Result (Result (Unit {0}) Bytes) Bytes

infixl 5 ◌>>=◌
abbrev pub ◌>>=◌ {ℓ} : {A B E : Type ℓ} → Result A E → (A → Result B E) → Result B E
ok a >>= f = f a
err e >>= f = err e

abbrev pub map_err {ℓ} : {A E F : Type ℓ} → (E → F) → Result A E → Result A F
map_err f (ok a) = ok a
map_err f (err e) = err (f e)

module _ {P : Type 0} (api : CanisterApi P) (canister_id : P) where
  open api use {
    encode_nonce, encode_client_key, query, call_and_wait, decode_messages, decode_closed,
  }

  -- The release build's version (not the feature `mock-server`).
  unfoldable pub ws_get_messages : ℕ → Result (CanisterOutputCertifiedMessages P) IcError
  ws_get_messages nonce = do
    args ← map_err IcError.candid (encode_nonce nonce)
    res ← map_err IcError.agent (query canister_id "ws_get_messages" args)
    res' ← map_err IcError.candid (decode_messages res)
    map_err IcError.cdk res'

  unfoldable pub ws_close : ClientKey P → Result (Unit {0}) Bytes
  ws_close client_key = do
    args ← encode_client_key client_key
    res ← call_and_wait canister_id "ws_close" args
    res' ← decode_closed res
    res'

unfoldable pub is_mainnet : String → Bool
is_mainnet ic_network_url =
    ic_network_url == "https://icp0.io" || ic_network_url == "https://icp-api.io"

-- `build` is the agent's builder, given the URL, the identity and whether query signatures are
-- verified; `fetch_root_key` trusts the root key that the network at the URL answers with.
module _ {Identity Agent : Type 0} (build : String → Identity → Bool → Result Agent AgentError)
    (fetch_root_key : Agent → Result Agent AgentError) where
  unfoldable pub get_new_agent : String → Identity → Result Agent AgentError
  get_new_agent ic_network_url identity = do
    agent ← build ic_network_url identity (is_mainnet ic_network_url)
    if is_mainnet ic_network_url then ok agent else fetch_root_key agent
