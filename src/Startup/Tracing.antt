-- ===== src/Startup/Tracing.antt =====
-- src/ic-websocket-gateway/src/gateway_tracing.rs and gateway_metrics.rs: where the gateway logs,
-- which filters apply, and whether telemetry is sent. The guards of the logs' writers are dropped.
use Prim.Native.String.{◌++◌ as ◌<>◌, slice}
use text.Mathlib.Text.{◌==◌, get?}
use ic_websocket_gateway.Prelude.{
  ℕ, zero, suc, ◌+◌, ◌/◌, ◌%◌, ltb, String, Bool, true, false, [], Option, none, some, Result, ok,
  err, if◌then◌else◌,
}
use ic_websocket_gateway.Startup.Disk.{Faults, is_dir, create_dir, write}
use ic_websocket_gateway.Startup.Steps.{
  Program, Subscriber, Telemetry, io, returns, pure, crash, on_disk, lift, ◌>>=◌, ◌>>◌,
}

-- What the environment and the libraries answer in one start: the directives in a variable, if it
-- is set and can be read; the time in milliseconds; whether the telemetry's pipeline and the
-- metrics' exporter can be installed.
pub record Surroundings : Type 0 where
  pub faults : Faults
  pub env : String → Option String
  pub now : Result ℕ String
  pub installs_telemetry : Bool
  pub installs_exporter : Bool

pub record InitTracingResult : Type 0 where
  pub is_telemetry_enabled : Bool

abbrev pub env_filter : Surroundings → String → String → String
env_filter around variable default = elim (around.env variable) [
  | some directives ↦ directives
  | none ↦ default
]

abbrev digit : ℕ → String
digit n = slice "0123456789" n (n + 1)

-- A number in decimal digits; 39 digits are enough for a u128.
abbrev decimal : ℕ → ℕ → String
decimal zero n = digit (n % 10)
decimal (suc fuel) n =
    let before = decimal fuel (n / 10) in if ltb n 10 then digit n else before <> digit (n % 10)

abbrev pub log_file_name : ℕ → String
log_file_name millis = "./data/traces/gateway_" <> (decimal 38 millis <> ".log")

-- The path of the directory of the logs is made unless it is a directory.
abbrev pub create_dir_unless_there : Surroundings → String → Program (Unit {0})
create_dir_unless_there around path =
    on_disk io
      (λ disk. if is_dir disk path then (disk, ok tt) else create_dir around.faults path disk)

abbrev pub given : Option String → Option String
given none = none
given (some s) = if s == "" then none else some s

-- `tracing::subscriber::set_global_default`, which can be done once.
abbrev set_global_default : Subscriber → Program (Unit {0})
set_global_default subscriber w = elim w.subscriber [
  | some _ ↦ crash "should set subscriber" w
  | none ↦ (record w { subscriber = some subscriber }, returns tt)
]

abbrev pub is_given : Option Telemetry → Bool
is_given none = false
is_given (some _) = true

module _ {P : Type 0} (to_text : P → String) (around : Surroundings) where
  -- `&gateway_principal.to_string()[..5]`.
  abbrev pub service_name : P → Program String
  service_name principal = elim (get? (to_text principal) 0 5) [
    | none ↦ crash "byte index 5 is out of bounds"
    | some start ↦ pure ("ic-ws-gw-" <> start)
  ]

  abbrev pub init_telemetry : P → Option String → Program (Option Telemetry)
  init_telemetry principal none = pure none
  init_telemetry principal (some endpoint) = do
    name ← service_name principal
    if around.installs_telemetry then pure tt else crash "failed to install"
    pure (
        some (record {
          endpoint = endpoint;
          service_name = name;
          filter = env_filter around "RUST_LOG_TELEMETRY" "ic_websocket_gateway=trace";
        }))

  abbrev pub start_logs : Option String → P → Program InitTracingResult
  start_logs opentelemetry_collector_endpoint gateway_principal = do
    timestamp ← lift io around.now
    on_disk io (write around.faults (log_file_name timestamp) [])
    telemetry ← init_telemetry gateway_principal (given opentelemetry_collector_endpoint)
    set_global_default (record {
      log_file = log_file_name timestamp;
      file_filter = env_filter around "RUST_LOG_FILE" "off";
      stdout_filter = env_filter around "RUST_LOG_STDOUT" "ic_websocket_gateway=info";
      telemetry = telemetry;
    })
    pure (record { is_telemetry_enabled = is_given telemetry })

  unfoldable pub init_tracing : Option String → P → Program InitTracingResult
  init_tracing opentelemetry_collector_endpoint gateway_principal = do
    create_dir_unless_there around "./data/traces"
    start_logs opentelemetry_collector_endpoint gateway_principal

-- The metrics' exporter listens at the address, if it can be read.
unfoldable pub init_metrics : (String → Bool) → Surroundings → String → Program (Unit {0})
init_metrics is_socket_addr around address = do
  if is_socket_addr address then pure tt else lift io (err "invalid socket address syntax")
  if around.installs_exporter then pure tt else crash "failed to install Prometheus recorder"
  λ w. (record w { exporter = some address }, returns tt)
