-- ===== src/Startup/Up.antt =====
-- main.rs: what is running when the gateway is up, and what is on its disk.
use text.Mathlib.Text.{◌==◌}
use ic_websocket_gateway.Prelude.{
  ◌≡◌, refl, subst, sym, ap, ◌∙◌, ok, arith, String, Bool, true, false, not, Option, none, some,
}
use ic_websocket_gateway.DashMap.{DashMap}
use ic_websocket_gateway.State
use ic_websocket_gateway.Listener
use ic_websocket_gateway.Listener.{WsListener}
use ic_websocket_gateway.Startup.Steps.{World, Step, returns}
use ic_websocket_gateway.Startup.Tracing.{InitTracingResult, given}
use ic_websocket_gateway.Startup.Gives.{Gives, is_some, bind-Gives}
use ic_websocket_gateway.Startup.Stays.{measure-KeepsPath, start_accepting-KeepsPath}
use ic_websocket_gateway.Startup.Success.{
  TracesThere, make_manager-Gives, Traced, trace-Gives, Listens, start_accepting-Gives,
}
use ic_websocket_gateway.Startup.External.{Libraries, Start}
use ic_websocket_gateway.Startup.{
  DeploymentInfo, Manager, Running, make_manager, get_agent_principal, trace, measure,
  start_accepting_incoming_connections, bring_up, tls_config,
}

abbrev pub both_given : Option String → Option String → Bool
both_given (some _) (some _) = true
both_given _ _ = false

tls_config-both_given :
    (chain key : Option String) → is_some (tls_config chain key) ≡ both_given chain key
tls_config-both_given none key = refl
tls_config-both_given (some _) none = refl
tls_config-both_given (some _) (some _) = refl

abbrev pub is_not_empty : Option String → Bool
is_not_empty none = false
is_not_empty (some s) = not (s == "")

given-is_not_empty : (endpoint : Option String) → is_some (given endpoint) ≡ is_not_empty endpoint
given-is_not_empty none = refl
given-is_not_empty (some s) = ground arith

module _ (D : DashMap) {P : Type 0} (dec : Discrete P) (L : Libraries P) (start : Start L)
    (info : DeploymentInfo) where
  -- What runs, for a key pair and the arguments: an empty state, a listener that uses TLS if both
  -- paths are given, telemetry if an endpoint is given that is not empty, and the principal of the
  -- key pair.
  pub record Configured (pair : L.KeyPair) (r : Running D dec L) : Type 0 where
    pub principal : L.sender (L.from_key_pair pair) ≡ ok r.gateway_principal
    pub agent : L.get_principal r.manager.agent ≡ ok r.gateway_principal
    pub state : r.manager.state ≡ State.new D dec
    pub listener :
        r.listener
        ≡ Listener.new (both_given info.tls_certificate_pem_path info.tls_certificate_key_pem_path)
    pub telemetry : r.is_telemetry_enabled ≡ is_not_empty info.opentelemetry_collector_endpoint
    pub interval : r.polling_interval_ms ≡ info.polling_interval

  abbrev pub There : World → Type 0
  There = TracesThere L start D dec info

  abbrev Made : L.KeyPair → Manager D dec L → World → Type 0
  Made pair manager w =
      (L.get_principal manager.agent ≡ L.sender (L.from_key_pair pair))
      × (manager.state ≡ State.new D dec)

  abbrev Known : Manager D dec L → P → World → Type 0
  Known manager principal w = L.get_principal manager.agent ≡ ok principal

  get_agent_principal-Gives :
      (manager : Manager D dec L) (w : World)
      → Gives (get_agent_principal D dec L start manager) w (Known manager)
  get_agent_principal-Gives manager w principal e = ground arith

  measure-Gives : (w : World) → There w → Gives (measure D dec L start info) w (λ _. There)
  measure-Gives w there a e =
      let kept = measure-KeepsPath "./data/traces" D dec L start info w in ground arith

  abbrev Heard : WsListener → World → Type 0
  Heard listener w = Listens L start D dec info listener w × There w

  start_accepting-Heard :
      (manager : Manager D dec L) (w : World)
      → There w
      → Gives (start_accepting_incoming_connections D dec L start info manager) w Heard
  start_accepting-Heard manager w there l e =
      let kept = start_accepting-KeepsPath "./data/traces" D dec L start info manager w in
      (start_accepting-Gives L start D dec info manager w l e, ground arith)

  abbrev pub running : Manager D dec L → P → InitTracingResult → WsListener → Running D dec L
  running manager principal tracing listener = record {
    manager = manager;
    listener = listener;
    polling_interval_ms = info.polling_interval;
    gateway_principal = principal;
    is_telemetry_enabled = tracing.is_telemetry_enabled;
  }

  configured :
      (pair : L.KeyPair) (manager : Manager D dec L) (principal : P) (tracing : InitTracingResult)
      (listener : WsListener) (r : Running D dec L)
      → L.sender (L.from_key_pair pair) ≡ ok principal
      → L.get_principal manager.agent ≡ ok principal
      → manager.state ≡ State.new D dec
      → listener
        ≡ Listener.new (both_given info.tls_certificate_pem_path info.tls_certificate_key_pem_path)
      → tracing.is_telemetry_enabled ≡ is_not_empty info.opentelemetry_collector_endpoint
      → Step.returns (running manager principal tracing listener) ≡ returns r
      → Configured pair r
  configured pair manager principal tracing listener r sends acts fresh listens enabled e =
      let same : running manager principal tracing listener ≡ r = cc in
      subst (Configured pair) same (record {
        principal = sends;
        agent = acts;
        state = fresh;
        listener = listens;
        telemetry = enabled;
        interval = refl;
      })

  abbrev pub Brought : L.KeyPair → Running D dec L → World → Type 0
  Brought pair r w = Configured pair r × There w

  pub bring_up-Gives :
      (pair : L.KeyPair) (w : World) → Gives (bring_up D dec L start info pair) w (Brought pair)
  unfolding bring_up
  bring_up-Gives pair w =
      bind-Gives (make_manager D dec L start info pair) _ w (Made pair) (Brought pair)
        (make_manager-Gives L start D dec info pair w)
        (λ manager w1 (acts, fresh).
          bind-Gives (get_agent_principal D dec L start manager) _ w1 (Known manager) (Brought pair)
            (get_agent_principal-Gives manager w1)
            (λ principal w2 known.
              bind-Gives (trace D dec L start info principal) _ w2 (Traced L start D dec info)
                (Brought pair) (trace-Gives L start D dec info principal w2)
                (λ tracing w3 (there, enabled).
                  bind-Gives (measure D dec L start info) _ w3 (λ _. There) (Brought pair)
                    (measure-Gives w3 there)
                    (λ _ w4 still.
                      bind-Gives (start_accepting_incoming_connections D dec L start info manager) _
                        w4 Heard (Brought pair) (start_accepting-Heard manager w4 still)
                        (λ listener w5 (listens, left) r e. (
                          configured pair manager principal tracing listener r (sym acts ∙ known)
                              known fresh
                              (listens
                                ∙ ap Listener.new (
                                    tls_config-both_given info.tls_certificate_pem_path
                                      info.tls_certificate_key_pem_path))
                              (enabled ∙ given-is_not_empty info.opentelemetry_collector_endpoint)
                              e,
                          left,
                        ))))))
