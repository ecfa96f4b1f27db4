-- ===== src/Startup/Success.antt =====
-- main.rs: what a start that gets the gateway up has done.
use text.Mathlib.TextPositions.{eq_refl}
use ic_websocket_gateway.Prelude.{
  String, ◌≡◌, refl, ◌∙◌, true, [], Option, none, some, ok, arith, inl, inr, Result-cases,
  Bool-cases,
}
use ic_websocket_gateway.CanisterUtils.Calls.{get_new_agent, is_mainnet}
use ic_websocket_gateway.Startup.Disk.{is_dir, write}
use ic_websocket_gateway.Startup.Steps.{World, on_disk, io, lift}
use ic_websocket_gateway.Startup.Tracing.{
  InitTracingResult, init_tracing, create_dir_unless_there, log_file_name, is_given, given,
  start_logs, init_telemetry,
}
use ic_websocket_gateway.DashMap.{DashMap}
use ic_websocket_gateway.State
use ic_websocket_gateway.Listener
use ic_websocket_gateway.Listener.{WsListener}
use ic_websocket_gateway.Startup.Stays.{start_logs-KeepsPath, log_file_name-ne}
use ic_websocket_gateway.Startup.{
  DeploymentInfo, Manager, make_manager, trace, start_accepting_incoming_connections, new_manager,
  new_listener, tls_config, TlsConfig,
}
use ic_websocket_gateway.Startup.Gives.{
  Gives, is_some, bind-Gives, expect-returns, join-returns, same-Gives,
}
use ic_websocket_gateway.Startup.External.{Libraries, Start}

module _ {P : Type 0} (L : Libraries P) (start : Start L) where
  -- The agent of the gateway acts for its identity.
  pub get_principal-get_new_agent :
      (url : String) (i : L.Identity) (a : L.Agent)
      → get_new_agent L.build start.fetch_root_key url i ≡ ok a
      → L.get_principal a ≡ L.sender i
  unfolding get_new_agent
  get_principal-get_new_agent url i a e = elim (Result-cases (L.build url i (is_mainnet url))) [
    | inr (x, failed) ↦ absurd (ground arith)
    | inl (b, built) ↦
        let first = L.get_principal-build url i (is_mainnet url) b built in
        elim (Bool-cases (is_mainnet url)) [
          | inl yes_main ↦ ground arith
          | inr other ↦ start.get_principal-fetch_root_key b a (ground arith) ∙ first
        ]
  ]

  -- The agent that a manager gets.
  module _ (D : DashMap) (dec : Discrete P) (info : DeploymentInfo) where
    abbrev pub TracesThere : World → Type 0
    TracesThere w = is_dir w.disk "./data/traces" ≡ true

    pub make_manager-Gives :
        (pair : L.KeyPair) (w : World)
        → Gives (make_manager D dec L start info pair) w (λ manager w'.
          (L.get_principal manager.agent ≡ L.sender (L.from_key_pair pair))
          × (manager.state ≡ State.new D dec))
    unfolding new_manager
    make_manager-Gives pair w manager e =
        let url = info.ic_network_url in
        let i = L.from_key_pair pair in
        elim (Result-cases (get_new_agent L.build start.fetch_root_key url i)) [
          | inr (x, failed) ↦ absurd (ground arith)
          | inl (a, made) ↦ let acts = get_principal-get_new_agent url i a made in ground arith
        ]

    pub create_traces-Gives :
        (w : World)
        → Gives (create_dir_unless_there start.around "./data/traces") w (λ _ w'. TracesThere w')
    create_traces-Gives w a e = ground (arith, eq_refl "./data/traces")

    init_telemetry-Gives :
        (principal : P) (endpoint : Option String) (w : World)
        → Gives
            (init_telemetry L.to_text start.around principal endpoint)
            w
            (λ t w'. is_given t ≡ is_some endpoint)
    init_telemetry-Gives principal none w t e = ground arith
    init_telemetry-Gives principal (some s) w t e = ground arith

    -- The directory of the logs is there, and telemetry is enabled if an endpoint is given.
    abbrev pub Traced : InitTracingResult → World → Type 0
    Traced t w =
        TracesThere w
        × (t.is_telemetry_enabled ≡ is_some (given info.opentelemetry_collector_endpoint))

    start_logs-enabled :
        (principal : P) (endpoint : Option String) (w : World)
        → Gives
            (start_logs L.to_text start.around endpoint principal)
            w
            (λ t w'. t.is_telemetry_enabled ≡ is_some (given endpoint))
    start_logs-enabled principal endpoint w =
        bind-Gives (lift io start.around.now) _ w (λ _ _. Unit)
          (λ t w'. t.is_telemetry_enabled ≡ is_some (given endpoint)) (λ _ _. tt)
          (λ t w1 _.
            bind-Gives (on_disk io (write start.around.faults (log_file_name t) [])) _ w1
              (λ _ _. Unit) (λ t w'. t.is_telemetry_enabled ≡ is_some (given endpoint)) (λ _ _. tt)
              (λ _ w2 _.
                bind-Gives (init_telemetry L.to_text start.around principal (given endpoint)) _ w2
                  (λ t w'. is_given t ≡ is_some (given endpoint))
                  (λ t w'. t.is_telemetry_enabled ≡ is_some (given endpoint))
                  (init_telemetry-Gives principal (given endpoint) w2)
                  (λ telemetry w3 same t e. ground arith)))

    start_logs-Gives :
        (principal : P) (w : World)
        → TracesThere w
        → Gives
            (start_logs L.to_text start.around info.opentelemetry_collector_endpoint principal)
            w
            Traced
    start_logs-Gives principal w there t e =
        let endpoint = info.opentelemetry_collector_endpoint in
        let kept =
          start_logs-KeepsPath "./data/traces" L.to_text start.around endpoint principal
            (log_file_name-ne "./data/traces" refl) w in
        (ground arith, start_logs-enabled principal endpoint w t e)

    pub trace-Gives :
        (principal : P) (w : World) → Gives (trace D dec L start info principal) w Traced
    unfolding init_tracing
    trace-Gives principal w =
        let endpoint = info.opentelemetry_collector_endpoint in
        let tracing = init_tracing L.to_text start.around endpoint principal in
        same-Gives tracing (trace D dec L start info principal) w Traced
          (expect-returns "could not init tracing" tracing w)
          (bind-Gives (create_dir_unless_there start.around "./data/traces")
            (λ _. start_logs L.to_text start.around endpoint principal) w (λ _. TracesThere) Traced
            (create_traces-Gives w) (λ _. start_logs-Gives principal))

    new_listener-Gives :
        (address : String) (config : Option TlsConfig) (w : World)
        → Gives
            (new_listener D dec L start address config)
            w
            (λ listener w'. listener ≡ Listener.new (is_some config))
    unfolding new_listener
    new_listener-Gives address none w listener e = ground arith
    new_listener-Gives address (some config) w listener e = ground arith

    abbrev pub Listens : WsListener → World → Type 0
    Listens listener w =
        listener
        ≡ Listener.new
            (is_some (tls_config info.tls_certificate_pem_path info.tls_certificate_key_pem_path))

    pub start_accepting-Gives :
        (manager : Manager D dec L) (w : World)
        → Gives (start_accepting_incoming_connections D dec L start info manager) w Listens
    start_accepting-Gives manager w =
        let config = tls_config info.tls_certificate_pem_path info.tls_certificate_key_pem_path in
        let listener = new_listener D dec L start manager.address config in
        same-Gives listener (start_accepting_incoming_connections D dec L start info manager) w
          Listens (join-returns "could not join accept connections task" listener w)
          (new_listener-Gives manager.address config w)
