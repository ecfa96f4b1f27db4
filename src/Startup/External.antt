-- ===== src/Startup/External.antt =====
-- What main.rs and manager.rs get from libraries (ring, ic-agent, native-tls, the standard parser
-- of addresses), with the documented behaviour that the theorems on the start use.
use ic_websocket_gateway.Prelude.{String, Bool, ◌≡◌, Result, ok}
use ic_websocket_gateway.CanisterUtils.{Bytes, AgentError}
use ic_websocket_gateway.Startup.Tracing.{Surroundings}

pub record Libraries (P : Type 0) : Type 1 where
  pub KeyPair : Type 0
  pub Identity : Type 0
  pub Agent : Type 0
  pub from_pkcs8 : Bytes → Result KeyPair String
  pub from_key_pair : KeyPair → Identity
  pub sender : Identity → Result P String
  pub build : String → Identity → Bool → Result Agent AgentError
  pub get_principal : Agent → Result P String
  pub is_tls_identity : Bytes → Bytes → Bool
  pub is_tls_acceptor : Bytes → Bytes → Bool
  pub is_socket_addr : String → Bool
  pub to_text : P → String
  -- An agent acts for the identity that it is built with.
  pub get_principal-build :
      (url : String) (i : Identity) (verify : Bool) (a : Agent)
      → build url i verify ≡ ok a
      → get_principal a ≡ sender i

-- One start of the program: what is around it, the key pair that would be generated, what the
-- network answers to the request for its root key, and whether an address can be listened on.
pub record Start {P : Type 0} (L : Libraries P) : Type 0 where
  pub around : Surroundings
  pub generated : Result Bytes String
  pub fetch_root_key : L.Agent → Result L.Agent AgentError
  pub binds : String → Bool
  -- The root key does not change for whom the agent acts.
  pub get_principal-fetch_root_key :
      (a b : L.Agent) → fetch_root_key a ≡ ok b → L.get_principal b ≡ L.get_principal a
