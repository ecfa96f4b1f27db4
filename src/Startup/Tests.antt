-- ===== src/Startup/Tests.antt =====
-- The theorems on the start at a concrete one: on an empty disk, with libraries for which a key
-- pair is three bytes, and its first byte the principal.
use ic_websocket_gateway.Prelude.{
  ℕ, String, ◌≡◌, refl, true, false, [], ◌∷◌, length, ◌==◌, none, some, Result, ok, err,
  if◌then◌else◌, ℕ_discrete,
}
use ic_websocket_gateway.DashMap.Assoc.{assoc}
use ic_websocket_gateway.CanisterUtils.{Bytes}
use ic_websocket_gateway.CanisterUtils.Calls.{get_new_agent, is_mainnet}
use ic_websocket_gateway.State
use ic_websocket_gateway.Listener
use ic_websocket_gateway.Startup.Disk.{Disk, Faults, cut}
use ic_websocket_gateway.Startup.KeyPair.{
  load_key_pair, load_key_pair_stuck, not_written, not_parsed,
}
use ic_websocket_gateway.Startup.Steps.{World, Step, returns}
use ic_websocket_gateway.Startup.Tracing.{init_tracing, init_metrics}
use ic_websocket_gateway.Startup.External.{Libraries, Start}
use ic_websocket_gateway.Startup.Held.{Launched, main_brings_up}
use ic_websocket_gateway.Startup.Script.{principal_from_key_pair, principal_from_key_pair_agrees}
use ic_websocket_gateway.Startup.Restart.{process, Works, restart_keeps_principal}
use ic_websocket_gateway.Startup.{
  DeploymentInfo, Running, main, bring_up, new_manager, new_listener,
}

abbrev parse : Bytes → Result Bytes String
parse b = if length b == 3 then ok b else err "InvalidEncoding"

abbrev first_byte : Bytes → Result ℕ String
first_byte [] = err "empty"
first_byte (b ∷ _) = ok b

abbrev libraries : Libraries ℕ
libraries = record {
  KeyPair = Bytes;
  Identity = Bytes;
  Agent = Bytes;
  from_pkcs8 = parse;
  from_key_pair = λ k. k;
  sender = first_byte;
  build = λ url i verify. ok i;
  get_principal = first_byte;
  is_tls_identity = λ chain key. true;
  is_tls_acceptor = λ chain key. true;
  is_socket_addr = λ address. true;
  to_text = λ p. "aaaaa-aa";
  get_principal-build = λ url i verify a e. cc;
}

abbrev no_faults : Faults
no_faults = record { on_create_dir = λ _. none; on_write = λ _. none; on_read = λ _. none }

-- A start at a time, with the key pair that would be generated.
abbrev start_at : ℕ → Bytes → Start libraries
start_at millis key = record {
  around = record {
    faults = no_faults;
    env = λ _. none;
    now = ok millis;
    installs_telemetry = true;
    installs_exporter = true;
  };
  generated = ok key;
  fetch_root_key = λ a. ok a;
  binds = λ _. true;
  get_principal-fetch_root_key = λ a b e. cc;
}

abbrev info : DeploymentInfo
info = record {
  ic_network_url = "http://127.0.0.1:4943";
  gateway_address = "0.0.0.0:8080";
  polling_interval = 100;
  prometheus_endpoint = "0.0.0.0:9000";
  tls_certificate_pem_path = none;
  tls_certificate_key_pem_path = none;
  opentelemetry_collector_endpoint = some "";
}

abbrev empty_disk : Disk
empty_disk _ = none

abbrev first_start : World × Step (Running assoc ℕ_discrete libraries)
first_start =
    main assoc ℕ_discrete libraries (start_at 1700 (5 ∷ 6 ∷ 7 ∷ [])) info (process empty_disk)

abbrev running : Running assoc ℕ_discrete libraries
running = record {
  manager = record {
    agent = 5 ∷ 6 ∷ 7 ∷ [];
    address = "0.0.0.0:8080";
    state = State.new assoc ℕ_discrete;
  };
  listener = Listener.new false;
  polling_interval_ms = 100;
  gateway_principal = 5;
  is_telemetry_enabled = false;
}

first_start-up : first_start.1 ≡ returns running
unfolding main bring_up new_manager new_listener load_key_pair init_tracing init_metrics
    get_new_agent is_mainnet
first_start-up = refl

main_brings_up_example :
    Launched assoc ℕ_discrete libraries (start_at 1700 (5 ∷ 6 ∷ 7 ∷ [])) info running first_start.0
main_brings_up_example =
    main_brings_up assoc ℕ_discrete libraries (start_at 1700 (5 ∷ 6 ∷ 7 ∷ [])) info
      (process empty_disk) running first_start-up

second-Works :
    Works assoc ℕ_discrete libraries (start_at 1800 (8 ∷ 8 ∷ 8 ∷ [])) info first_start.0.disk
unfolding main bring_up new_manager new_listener load_key_pair init_tracing init_metrics
    get_new_agent is_mainnet
second-Works = record {
  reads = refl;
  millis = 1800;
  now = refl;
  log = refl;
  writes = refl;
  telemetry = refl;
  exporter = refl;
  address = refl;
  binds = refl;
  agent = λ i. (i, refl);
  text = λ p. ("aaaaa", refl);
  plain = refl;
}

restart_keeps_principal_example :
    (r' : Running assoc ℕ_discrete libraries) × ((main assoc ℕ_discrete libraries
        (start_at 1800 (8 ∷ 8 ∷ 8 ∷ []))
        info
        (process first_start.0.disk)).1
      ≡ returns r')
    × (r'.gateway_principal ≡ 5)
restart_keeps_principal_example =
    restart_keeps_principal assoc ℕ_discrete libraries (start_at 1700 (5 ∷ 6 ∷ 7 ∷ []))
      (start_at 1800 (8 ∷ 8 ∷ 8 ∷ [])) info info (process empty_disk) running first_start-up
      second-Works

-- The disk is full after one byte.
abbrev full : Faults
full = record no_faults { on_write = λ _. some (cut 1 "No space left on device") }

load_key_pair_stuck_example :
    let (disk', loaded) =
      load_key_pair parse full (ok (5 ∷ 6 ∷ 7 ∷ [])) "./data/key_pair" empty_disk in
    (loaded ≡ err (not_written "No space left on device"))
    × (load_key_pair parse no_faults (ok (8 ∷ 8 ∷ 8 ∷ [])) "./data/key_pair" disk'
        ≡ (disk', err (not_parsed "InvalidEncoding")))
load_key_pair_stuck_example =
    load_key_pair_stuck parse full no_faults (5 ∷ 6 ∷ 7 ∷ []) (ok (8 ∷ 8 ∷ 8 ∷ []))
      "./data/key_pair" empty_disk 1 "No space left on device" "InvalidEncoding" refl refl refl refl

principal_from_key_pair_agrees_example :
    let disk = first_start.0.disk in
    (principal_from_key_pair libraries no_faults
        (ok (8 ∷ 8 ∷ 8 ∷ []))
        ("principal_from_key_pair" ∷ "./data/key_pair" ∷ [])
        disk
      ≡ (disk, ok "aaaaa-aa"))
    × (first_byte (5 ∷ 6 ∷ 7 ∷ []) ≡ ok 5)
principal_from_key_pair_agrees_example =
    principal_from_key_pair_agrees libraries assoc ℕ_discrete (start_at 1700 (5 ∷ 6 ∷ 7 ∷ [])) info
      (process empty_disk) running no_faults (ok (8 ∷ 8 ∷ 8 ∷ [])) "principal_from_key_pair" []
      first_start-up refl
