-- ===== src/Startup.antt =====
-- The start of the gateway: src/ic-websocket-gateway/src/main.rs with what it calls, the manager
-- (manager.rs) and the making of the listener (ws_listener.rs).
pub mod Disk
pub mod KeyPair
pub mod Steps
pub mod Tracing
pub mod External
pub mod Gives
pub mod Success
pub mod Stays
pub mod Up
pub mod Held
pub mod Restart
pub mod Script
mod Tests
use ic_websocket_gateway.Prelude.{
  ℕ, String, Bool, true, false, ◌&&◌, Option, none, some, Result, ok, err, if◌then◌else◌,
}
use ic_websocket_gateway.DashMap.{DashMap}
use ic_websocket_gateway.CanisterUtils.{Bytes, AgentError}
use ic_websocket_gateway.CanisterUtils.Calls.{get_new_agent}
use ic_websocket_gateway.State.{GatewayState}
use ic_websocket_gateway.State
use ic_websocket_gateway.Listener.{WsListener}
use ic_websocket_gateway.Listener
use ic_websocket_gateway.Startup.Disk.{read}
use ic_websocket_gateway.Startup.KeyPair.{load_key_pair}
use ic_websocket_gateway.Startup.Steps.{
  Program, StartError, io, key_pair, pure, crash, on_disk, lift, expect, join, ◌>>=◌, ◌>>◌,
}
use ic_websocket_gateway.Startup.Tracing.{
  InitTracingResult, init_tracing, init_metrics, create_dir_unless_there,
}
use ic_websocket_gateway.Startup.External.{Libraries, Start}

-- The arguments of the command line.
pub record DeploymentInfo : Type 0 where
  pub ic_network_url : String
  pub gateway_address : String
  pub polling_interval : ℕ  -- u64
  pub prometheus_endpoint : String
  pub tls_certificate_pem_path : Option String
  pub tls_certificate_key_pem_path : Option String
  pub opentelemetry_collector_endpoint : Option String

pub record TlsConfig : Type 0 where
  pub certificate_pem_path : String
  pub certificate_key_pem_path : String

-- TLS is used if both paths are given.
abbrev pub tls_config : Option String → Option String → Option TlsConfig
tls_config none _ = none
tls_config (some chain) none = none
tls_config (some chain) (some key) =
    some (record { certificate_pem_path = chain; certificate_key_pem_path = key })

module _ (D : DashMap) {P : Type 0} (dec : Discrete P) (L : Libraries P) where
  pub record Manager : Type 0 where
    pub agent : L.Agent
    pub address : String
    pub state : GatewayState D P

  -- What runs when the gateway is up: the manager and its listener, with the interval at which its
  -- handlers poll, the principal that `main` logs, and whether telemetry is sent.
  pub record Running : Type 0 where
    pub manager : Manager
    pub listener : WsListener
    pub polling_interval_ms : ℕ
    pub gateway_principal : P
    pub is_telemetry_enabled : Bool

  module _ (start : Start L) where
    -- A result that the source calls `expect` on.
    abbrev expect_ok : {A E : Type 0} → String → Result A E → Program A
    expect_ok message (ok a) = pure a
    expect_ok message (err _) = crash message

    abbrev pub create_data_dir : Program (Unit {0})
    create_data_dir = create_dir_unless_there start.around "./data"

    -- `Manager::new`.
    unfoldable pub new_manager : String → String → L.Identity → Program Manager
    new_manager gateway_address ic_network_url identity = do
      agent ←
          expect_ok "could not get new agent"
            (get_new_agent L.build start.fetch_root_key ic_network_url identity)
      pure (record { agent = agent; address = gateway_address; state = State.new D dec })

    abbrev pub get_agent_principal : Manager → Program P
    get_agent_principal manager =
        expect_ok "Principal should be set" (L.get_principal manager.agent)

    -- The acceptor of `WsListener::new`, which reads the certificate and the key.
    abbrev tls_acceptor : Option TlsConfig → Program Bool
    tls_acceptor none = pure false
    tls_acceptor (some config) = do
      chain ←
          expect "Can't read certificate"
            (on_disk io (λ disk. (disk, read start.around.faults config.certificate_pem_path disk)))
      privkey ← expect "Can't read private key" (
          on_disk io
            (λ disk. (disk, read start.around.faults config.certificate_key_pem_path disk)))
      if L.is_tls_identity chain privkey then pure tt else crash "Can't create a TLS identity"
      if L.is_tls_acceptor chain privkey
          then pure true
          else crash "Can't create a TLS acceptor from the TLS identity"

    -- `WsListener::new`.
    unfoldable pub new_listener : String → Option TlsConfig → Program WsListener
    new_listener gateway_address config = do
      if start.binds gateway_address then pure tt else crash "Can't listen on this address"
      enabled ← tls_acceptor config
      pure (Listener.new enabled)

    -- The steps of `main` once it has its key pair; the listener is made in a task of its own, which
    -- `main` waits for, and which ends only by a panic.
    abbrev pub make_manager : DeploymentInfo → L.KeyPair → Program Manager
    make_manager info pair =
        new_manager info.gateway_address info.ic_network_url (L.from_key_pair pair)

    abbrev pub trace : DeploymentInfo → P → Program InitTracingResult
    trace info gateway_principal = expect "could not init tracing" (
        init_tracing L.to_text start.around info.opentelemetry_collector_endpoint gateway_principal)

    abbrev pub measure : DeploymentInfo → Program (Unit {0})
    measure info =
        expect "could not init metrics"
          (init_metrics L.is_socket_addr start.around info.prometheus_endpoint)

    abbrev pub start_accepting_incoming_connections : DeploymentInfo → Manager → Program WsListener
    start_accepting_incoming_connections info manager =
        join "could not join accept connections task" (
          new_listener manager.address
            (tls_config info.tls_certificate_pem_path info.tls_certificate_key_pem_path))

    unfoldable pub bring_up : DeploymentInfo → L.KeyPair → Program Running
    unfolding new_manager new_listener
    bring_up info pair = do
      manager ← make_manager info pair
      gateway_principal ← get_agent_principal manager
      tracing ← trace info gateway_principal
      measure info
      listener ← start_accepting_incoming_connections info manager
      pure (record {
        manager = manager;
        listener = listener;
        polling_interval_ms = info.polling_interval;
        gateway_principal = gateway_principal;
        is_telemetry_enabled = tracing.is_telemetry_enabled;
      })

    abbrev pub load : Program L.KeyPair
    load =
        on_disk key_pair
          (load_key_pair L.from_pkcs8 start.around.faults start.generated "./data/key_pair")

    unfoldable pub main : DeploymentInfo → Program Running
    unfolding bring_up
    main info = do create_data_dir; pair ← load; bring_up info pair
