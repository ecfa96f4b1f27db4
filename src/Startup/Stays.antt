-- ===== src/Startup/Stays.antt =====
-- main.rs and what it calls: which paths of the disk a step leaves as they are.
use text.Mathlib.Text.{starts_with}
use text.Mathlib.TextEquality.{eq_iff}
use text.Mathlib.TextPositions.{starts_with-append}
use ic_websocket_gateway.Prelude.{
  ℕ, String, ◌≡◌, ◌≢◌, refl, ◌∙◌, Bool, true, false, [], Option, none, some, arith,
}
use ic_websocket_gateway.DashMap.{DashMap}
use ic_websocket_gateway.Startup.Disk.{write, write_elsewhere}
use ic_websocket_gateway.Startup.Steps.{
  Program, World, Step, returns, exits, panics, expect, join, ◌>>=◌, on_disk, io, after, lift,
}
use ic_websocket_gateway.Startup.Tracing.{
  Surroundings, init_tracing, init_metrics, create_dir_unless_there, log_file_name, init_telemetry,
  start_logs, given,
}
use ic_websocket_gateway.Startup.External.{Libraries, Start}
use ic_websocket_gateway.Startup.{
  DeploymentInfo, make_manager, trace, measure, start_accepting_incoming_connections, bring_up,
  Manager, new_manager, get_agent_principal, new_listener,
}

module _ (p : String) where
  -- The step leaves what there is at the path, however it ends.
  abbrev pub KeepsPath : {A : Type 0} → Program A → Type 0
  KeepsPath m = (w : World) → (m w).0.disk p ≡ w.disk p

  after-KeepsPath :
      {A B : Type 0} (w : World) (s : Step A) (f : A → Program B)
      → ((a : A) → KeepsPath (f a))
      → (after (w, s) f).0.disk p ≡ w.disk p
  after-KeepsPath w (returns a) f each = each a w
  after-KeepsPath w (exits e) f each = refl
  after-KeepsPath w (panics m) f each = refl

  pub bind-KeepsPath :
      {A B : Type 0} (m : Program A) (f : A → Program B)
      → KeepsPath m
      → ((a : A) → KeepsPath (f a))
      → KeepsPath (m >>= f)
  bind-KeepsPath m f first each w = after-KeepsPath (m w).0 (m w).1 f each ∙ first w

  pub expect-KeepsPath :
      {A : Type 0} (message : String) (m : Program A) → KeepsPath m → KeepsPath (expect message m)
  expect-KeepsPath message m keeps w = ground (arith, keeps w)

  pub join-KeepsPath :
      {A : Type 0} (message : String) (m : Program A) → KeepsPath m → KeepsPath (join message m)
  join-KeepsPath message m keeps w = ground (arith, keeps w)

  pub create_dir_unless_there-KeepsPath :
      (around : Surroundings) (path : String)
      → p ≢ path
      → KeepsPath (create_dir_unless_there around path)
  create_dir_unless_there-KeepsPath around path ne w = ground (arith, eq_iff p path)

  module _ {P : Type 0} (to_text : P → String) (around : Surroundings) where
    init_telemetry-KeepsPath :
        (principal : P) (endpoint : Option String)
        → KeepsPath (init_telemetry to_text around principal endpoint)
    init_telemetry-KeepsPath principal none w = refl
    init_telemetry-KeepsPath principal (some endpoint) w = ground arith

    pub start_logs-KeepsPath :
        (endpoint : Option String) (principal : P)
        → ((millis : ℕ) → p ≢ log_file_name millis)
        → KeepsPath (start_logs to_text around endpoint principal)
    start_logs-KeepsPath endpoint principal other =
        bind-KeepsPath (lift io around.now) _ (λ w. refl)
          (λ t.
            bind-KeepsPath (on_disk io (write around.faults (log_file_name t) [])) _
              (λ w. write_elsewhere around.faults (log_file_name t) [] w.disk p (other t))
              (λ _.
                bind-KeepsPath (init_telemetry to_text around principal (given endpoint)) _
                  (init_telemetry-KeepsPath principal (given endpoint))
                  (λ telemetry w. ground arith)))

    pub init_tracing-KeepsPath :
        (endpoint : Option String) (principal : P)
        → p ≢ "./data/traces"
        → ((millis : ℕ) → p ≢ log_file_name millis)
        → KeepsPath (init_tracing to_text around endpoint principal)
    unfolding init_tracing
    init_tracing-KeepsPath endpoint principal ne other =
        bind-KeepsPath (create_dir_unless_there around "./data/traces")
          (λ _. start_logs to_text around endpoint principal)
          (create_dir_unless_there-KeepsPath around "./data/traces" ne)
          (λ _. start_logs-KeepsPath endpoint principal other)

    pub init_metrics-KeepsPath :
        (is_socket_addr : String → Bool) (address : String)
        → KeepsPath (init_metrics is_socket_addr around address)
    unfolding init_metrics
    init_metrics-KeepsPath is_socket_addr address w = ground arith

  module _ (D : DashMap) {P : Type 0} (dec : Discrete P) (L : Libraries P) (start : Start L) where
    pub make_manager-KeepsPath :
        (info : DeploymentInfo) (pair : L.KeyPair)
        → KeepsPath (make_manager D dec L start info pair)
    unfolding new_manager
    make_manager-KeepsPath info pair w = ground arith

    pub get_agent_principal-KeepsPath :
        (manager : Manager D dec L) → KeepsPath (get_agent_principal D dec L start manager)
    get_agent_principal-KeepsPath manager w = ground arith

    pub start_accepting-KeepsPath :
        (info : DeploymentInfo) (manager : Manager D dec L)
        → KeepsPath (start_accepting_incoming_connections D dec L start info manager)
    unfolding new_listener
    start_accepting-KeepsPath info manager w = ground arith

    pub measure-KeepsPath : (info : DeploymentInfo) → KeepsPath (measure D dec L start info)
    measure-KeepsPath info =
        expect-KeepsPath "could not init metrics"
          (init_metrics L.is_socket_addr start.around info.prometheus_endpoint)
          (init_metrics-KeepsPath L.to_text start.around L.is_socket_addr info.prometheus_endpoint)

    pub bring_up-KeepsPath :
        (info : DeploymentInfo) (pair : L.KeyPair)
        → p ≢ "./data/traces"
        → ((millis : ℕ) → p ≢ log_file_name millis)
        → KeepsPath (bring_up D dec L start info pair)
    unfolding bring_up
    bring_up-KeepsPath info pair ne other =
        let endpoint = info.opentelemetry_collector_endpoint in
        let tracing = λ (principal : P). init_tracing L.to_text start.around endpoint principal in
        bind-KeepsPath (make_manager D dec L start info pair) _ (make_manager-KeepsPath info pair)
          (λ manager.
            bind-KeepsPath (get_agent_principal D dec L start manager) _
              (get_agent_principal-KeepsPath manager)
              (λ principal.
                bind-KeepsPath (trace D dec L start info principal) _
                  (expect-KeepsPath "could not init tracing" (tracing principal)
                    (init_tracing-KeepsPath L.to_text start.around endpoint principal ne other))
                  (λ t. bind-KeepsPath (measure D dec L start info) _ (measure-KeepsPath info) (λ _.
                    bind-KeepsPath (start_accepting_incoming_connections D dec L start info manager)
                      _ (start_accepting-KeepsPath info manager) (λ listener w. refl)))))

-- No log of the gateway is its key pair, its directory or the directory of the logs.
abbrev log_start : String
log_start = "./data/traces/gateway_"

pub log_file_name-ne :
    (p : String) → starts_with p log_start ≡ false → (millis : ℕ) → p ≢ log_file_name millis
log_file_name-ne p other millis e =
    let starts = starts_with-append log_start in
    let yes_starts : starts_with p log_start ≡ true = rw e (starts _) in absurd (ground arith)
