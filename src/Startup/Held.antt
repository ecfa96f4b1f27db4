-- ===== src/Startup/Held.antt =====
-- main.rs: that the key pair of a gateway that is up is in its file, and its directories are there.
use text.Mathlib.Text.{◌==◌}
use text.Mathlib.TextEquality.{eq_iff}
use text.Mathlib.TextPositions.{eq_refl}
use ic_websocket_gateway.Prelude.{some, String, ◌≡◌, ◌≢◌, refl, ◌∙◌, true, false, ok, arith, inl}
use ic_websocket_gateway.CanisterUtils.{Bytes}
use ic_websocket_gateway.DashMap.{DashMap}
use ic_websocket_gateway.Startup.Disk.{file, is_dir}
use ic_websocket_gateway.Startup.KeyPair.{load_key_pair, load_key_pair_leaves, load_key_pair_keeps}
use ic_websocket_gateway.Startup.Steps.{World, returns}
use ic_websocket_gateway.Startup.Gives.{Gives, bind-Gives}
use ic_websocket_gateway.Startup.Stays.{bring_up-KeepsPath, log_file_name-ne}
use ic_websocket_gateway.Startup.External.{Libraries, Start}
use ic_websocket_gateway.Startup.{DeploymentInfo, Running, bring_up, main, load, create_data_dir}
use ic_websocket_gateway.Startup.Up.{Brought, bring_up-Gives}

other_paths : (p q : String) → (p == q) ≡ false → p ≢ q
other_paths p q differ same = let e = (eq_iff p q).1 same in ground arith

module _ (D : DashMap) {P : Type 0} (dec : Discrete P) (L : Libraries P) (start : Start L)
    (info : DeploymentInfo) where
  -- The key pair in its file, and the directories.
  abbrev Held : L.KeyPair → World → Type 0
  Held pair w =
      (is_dir w.disk "./data" ≡ true)
      × (b : Bytes) × (w.disk "./data/key_pair" ≡ some (file b))
      × (L.from_pkcs8 b ≡ ok pair)

  abbrev pub Launched : Running D dec L → World → Type 0
  Launched r w = (pair : L.KeyPair) × Held pair w × Brought D dec L start info pair r w

  create_data_dir-Gives :
      (w : World) → Gives (create_data_dir D dec L start) w (λ _ w'. is_dir w'.disk "./data" ≡ true)
  create_data_dir-Gives w a e = ground (arith, eq_refl "./data")

  load-Gives : (w : World) → is_dir w.disk "./data" ≡ true → Gives (load D dec L start) w Held
  load-Gives w there pair e =
      let faults = start.around.faults in
      let loaded : (load_key_pair L.from_pkcs8 faults start.generated "./data/key_pair" w.disk).1
          ≡ ok pair =
        ground arith in
      let (b, here, parses) =
        load_key_pair_leaves L.from_pkcs8 faults start.generated "./data/key_pair" w.disk pair
          loaded in
      let kept =
        load_key_pair_keeps L.from_pkcs8 faults start.generated "./data/key_pair" w.disk "./data"
          (inl (other_paths "./data" "./data/key_pair" refl)) in
      (ground arith, b, here, ground arith)

  bring_up-Launched :
      (pair : L.KeyPair) (w : World)
      → Held pair w
      → Gives (bring_up D dec L start info pair) w Launched
  bring_up-Launched pair w (there, b, here, parses) r e =
      let kept =
        bring_up-KeepsPath "./data" D dec L start info pair
          (other_paths "./data" "./data/traces" refl) (log_file_name-ne "./data" refl) w in
      let kept' =
        bring_up-KeepsPath "./data/key_pair" D dec L start info pair
          (other_paths "./data/key_pair" "./data/traces" refl)
          (log_file_name-ne "./data/key_pair" refl) w in
      (pair, (ground arith, b, kept' ∙ here, parses), bring_up-Gives D dec L start info pair w r e)

  -- If the gateway gets up, then with the key pair that its file holds: its agent and the principal
  -- that it logs are those of this key pair; the shared state is empty, the listener has accepted
  -- nobody, and uses TLS if and only if both paths are given; telemetry is enabled if and only if a
  -- non-empty endpoint is given; and its directories are there.
  pub main_brings_up :
      (w : World) (r : Running D dec L)
      → (main D dec L start info w).1 ≡ returns r
      → Launched r (main D dec L start info w).0
  unfolding main
  main_brings_up w r e =
      bind-Gives (create_data_dir D dec L start) _ w (λ _ w'. is_dir w'.disk "./data" ≡ true)
        Launched (create_data_dir-Gives w)
        (λ _ w1 there.
          bind-Gives (load D dec L start) _ w1 Held Launched (load-Gives w1 there)
            bring_up-Launched)
        r e
