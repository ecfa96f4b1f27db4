-- ===== src/Startup/Restart.antt =====
-- main.rs: that a gateway which has been up gets up again, with the same principal.
use text.Mathlib.Text.{get?}
use ic_websocket_gateway.Prelude.{
  ℕ, String, ◌≡◌, refl, ap, ◌∙◌, true, false, none, some, ok, arith, Option-cases, inl, inr,
}
use ic_websocket_gateway.CanisterUtils.{Bytes}
use ic_websocket_gateway.CanisterUtils.Calls.{get_new_agent}
use ic_websocket_gateway.DashMap.{DashMap}
use ic_websocket_gateway.State
use ic_websocket_gateway.Listener
use ic_websocket_gateway.Startup.Disk.{Disk, file, is_dir}
use ic_websocket_gateway.Startup.KeyPair.{load_key_pair_present}
use ic_websocket_gateway.Startup.Steps.{Program, World, Step, returns, ◌>>=◌, after}
use ic_websocket_gateway.Startup.Tracing.{
  InitTracingResult, given, init_tracing, init_metrics, log_file_name,
}
use ic_websocket_gateway.Startup.Success.{get_principal-get_new_agent}
use ic_websocket_gateway.Startup.Up.{running}
use ic_websocket_gateway.Startup.Held.{main_brings_up}
use ic_websocket_gateway.Startup.External.{Libraries, Start}
use ic_websocket_gateway.Startup.{
  DeploymentInfo, Manager, Running, make_manager, get_agent_principal, trace, measure,
  start_accepting_incoming_connections, bring_up, main, load, create_data_dir, tls_config,
  new_manager, new_listener,
}

-- A new process on a disk.
abbrev pub process : Disk → World
process disk = record { disk = disk; subscriber = none; exporter = none }

-- A step that returns, and then the others.
bind_runs :
    {A B : Type 0} (m : Program A) (f : A → Program B) (w w' : World) (a : A) (b : B)
    → m w ≡ (w', returns a)
    → (f a w').1 ≡ returns b
    → ((m >>= f) w).1 ≡ returns b
bind_runs m f w w' a b e rest = ap (λ r. (after r f).1) e ∙ rest

leaves :
    {A : Type 0} (m : Program A) (w : World) (a : A)
    → (m w).1 ≡ returns a
    → m w ≡ ((m w).0, returns a)
leaves {A} m w a e = ap (λ (s : Step A). ((m w).0, s)) e

module _ (D : DashMap) {P : Type 0} (dec : Discrete P) (L : Libraries P) (start : Start L)
    (info : DeploymentInfo) where
  -- Nothing around the start fails, for a gateway without TLS: its files can be read and written,
  -- the network answers, the addresses are free, and principals have texts.
  pub record Works (disk : Disk) : Type 0 where
    pub reads : start.around.faults.on_read "./data/key_pair" ≡ none
    pub millis : ℕ
    pub now : start.around.now ≡ ok millis
    pub log : disk (log_file_name millis) ≡ none
    pub writes : start.around.faults.on_write (log_file_name millis) ≡ none
    pub telemetry : start.around.installs_telemetry ≡ true
    pub exporter : start.around.installs_exporter ≡ true
    pub address : L.is_socket_addr info.prometheus_endpoint ≡ true
    pub binds : start.binds info.gateway_address ≡ true
    pub agent :
        (i : L.Identity)
        → (a : L.Agent) × (get_new_agent L.build start.fetch_root_key info.ic_network_url i ≡ ok a)
    pub text : (p : P) → (s : String) × (get? (L.to_text p) 0 5 ≡ some s)
    pub plain : tls_config info.tls_certificate_pem_path info.tls_certificate_key_pem_path ≡ none

  trace_runs :
      (disk : Disk) (principal : P)
      → is_dir disk "./data/traces" ≡ true
      → Works disk
      → (t : InitTracingResult) × ((trace D dec L start info principal (process disk)).1
          ≡ returns t)
  unfolding init_tracing
  trace_runs disk principal there works =
      let (s, named) = works.text principal in
      elim (Option-cases (given info.opentelemetry_collector_endpoint)) [
        | inl off ↦ (record { is_telemetry_enabled = false }, ground arith)
        | inr (endpoint, on) ↦ (record { is_telemetry_enabled = true }, ground arith)
      ]

  measure_runs :
      (disk : Disk) (w : World) → Works disk → (measure D dec L start info w).1 ≡ returns tt
  unfolding init_metrics
  measure_runs disk w works = ground arith

  start_accepting_runs :
      (disk : Disk) (w : World) (manager : Manager D dec L)
      → manager.address ≡ info.gateway_address
      → Works disk
      → start_accepting_incoming_connections D dec L start info manager w
        ≡ (w, returns (Listener.new false))
  unfolding new_listener
  start_accepting_runs disk w manager same works = ground arith

  make_manager_runs :
      (w : World) (pair : L.KeyPair) (a : L.Agent)
      → get_new_agent L.build start.fetch_root_key info.ic_network_url (L.from_key_pair pair) ≡ ok a
      → make_manager D dec L start info pair w ≡ (
        w,
        returns (record { agent = a; address = info.gateway_address; state = State.new D dec }),
      )
  unfolding new_manager
  make_manager_runs w pair a e = ground arith

  bring_up_runs :
      (disk : Disk) (pair : L.KeyPair) (principal : P)
      → is_dir disk "./data/traces" ≡ true
      → L.sender (L.from_key_pair pair) ≡ ok principal
      → Works disk
      → (r : Running D dec L) × ((bring_up D dec L start info pair (process disk)).1 ≡ returns r)
        × (r.gateway_principal ≡ principal)
  unfolding bring_up
  bring_up_runs disk pair principal there sends works =
      let (a, made) = works.agent (L.from_key_pair pair) in
      let acts =
        get_principal-get_new_agent L start info.ic_network_url (L.from_key_pair pair) a made in
      let manager : Manager D dec L = record {
        agent = a;
        address = info.gateway_address;
        state = State.new D dec;
      } in
      let w = process disk in
      let (t, traced) = trace_runs disk principal there works in
      let w1 = (trace D dec L start info principal w).0 in
      let w2 = (measure D dec L start info w1).0 in
      let r = running D dec L start info manager principal t (Listener.new false) in
      (
        r,
        bind_runs (make_manager D dec L start info pair) _ w w manager r
            (make_manager_runs w pair a made)
            (bind_runs (get_agent_principal D dec L start manager) _ w w principal r (ground arith)
              (bind_runs (trace D dec L start info principal) _ w w1 t r
                (leaves (trace D dec L start info principal) w t traced)
                (bind_runs (measure D dec L start info) _ w1 w2 tt r
                  (leaves (measure D dec L start info) w1 tt (measure_runs disk w1 works))
                  (bind_runs (start_accepting_incoming_connections D dec L start info manager) _ w2
                    w2 (Listener.new false) r (start_accepting_runs disk w2 manager refl works)
                    refl)))),
        refl,
      )

  load_runs :
      (disk : Disk) (b : Bytes) (pair : L.KeyPair)
      → disk "./data/key_pair" ≡ some (file b)
      → L.from_pkcs8 b ≡ ok pair
      → Works disk
      → load D dec L start (process disk) ≡ (process disk, returns pair)
  load_runs disk b pair here parses works =
      let present =
        load_key_pair_present L.from_pkcs8 start.around.faults start.generated "./data/key_pair"
          disk b here works.reads in
      ground arith

  create_data_dir_runs :
      (disk : Disk)
      → is_dir disk "./data" ≡ true
      → create_data_dir D dec L start (process disk) ≡ (process disk, returns tt)
  create_data_dir_runs disk there = ground arith

  main_runs :
      (disk : Disk) (b : Bytes) (pair : L.KeyPair) (principal : P)
      → is_dir disk "./data" ≡ true
      → disk "./data/key_pair" ≡ some (file b)
      → L.from_pkcs8 b ≡ ok pair
      → is_dir disk "./data/traces" ≡ true
      → L.sender (L.from_key_pair pair) ≡ ok principal
      → Works disk
      → (r : Running D dec L) × ((main D dec L start info (process disk)).1 ≡ returns r)
        × (r.gateway_principal ≡ principal)
  unfolding main
  main_runs disk b pair principal home here parses traces sends works =
      let w = process disk in
      let (r, runs, same) = bring_up_runs disk pair principal traces sends works in
      (
        r,
        bind_runs (create_data_dir D dec L start) _ w w tt r (create_data_dir_runs disk home) (
            bind_runs (load D dec L start) _ w w pair r (load_runs disk b pair here parses works)
              runs),
        same,
      )

module _ (D : DashMap) {P : Type 0} (dec : Discrete P) (L : Libraries P) where
  -- A gateway that has been up keeps its principal: after any start that got it up, whatever was on
  -- the disk before, a start on the disk that it left gets it up again, with the same principal,
  -- also with other arguments and if another key pair would be generated. (Nothing around the
  -- second start fails, and it does not use TLS.)
  pub restart_keeps_principal :
      (before after : Start L) (info info' : DeploymentInfo) (w : World) (r : Running D dec L)
      → (main D dec L before info w).1 ≡ returns r
      → Works D dec L after info' (main D dec L before info w).0.disk
      → (r' : Running D dec L) × ((main D dec L after info'
            (process (main D dec L before info w).0.disk)).1
          ≡ returns r')
        × (r'.gateway_principal ≡ r.gateway_principal)
  restart_keeps_principal before after info info' w r up works =
      let disk = (main D dec L before info w).0.disk in
      let (pair, (home, b, here, parses), (configured, traces)) =
        main_brings_up D dec L before info w r up in
      main_runs D dec L after info' disk b pair r.gateway_principal home here parses traces
        configured.principal works
