-- ===== src/Startup/Script.antt =====
-- src/scripts/src/bin/principal_from_key_pair.rs, with the rest of src/ic-identity/src/lib.rs: the
-- program that prints the principal of a key pair's file.
use ic_websocket_gateway.Prelude.{String, ◌≡◌, List, [], ◌∷◌, none, Result, ok, err, arith}
use ic_websocket_gateway.CanisterUtils.{Bytes}
use ic_websocket_gateway.DashMap.{DashMap}
use ic_websocket_gateway.Startup.Disk.{Disk, Faults}
use ic_websocket_gateway.Startup.KeyPair.{KeyPairError, load_key_pair, load_key_pair_present}
use ic_websocket_gateway.Startup.Steps.{World, returns}
use ic_websocket_gateway.Startup.External.{Libraries, Start}
use ic_websocket_gateway.Startup.Held.{main_brings_up}
use ic_websocket_gateway.Startup.{DeploymentInfo, Running, main}

-- The errors that the program returns.
pub data ScriptError : Type 0 where
  no_argument : ScriptError
  no_key_pair : KeyPairError → ScriptError
  no_principal : String → ScriptError

module _ {P : Type 0} (L : Libraries P) where
  abbrev pub get_identity_from_key_pair : L.KeyPair → L.Identity
  get_identity_from_key_pair key_pair = L.from_key_pair key_pair

  abbrev pub get_principal_from_identity : L.Identity → Result P String
  get_principal_from_identity identity = L.sender identity

  abbrev printed : Result P String → Result String ScriptError
  printed (ok principal) = ok (L.to_text principal)
  printed (err e) = err (no_principal e)

  abbrev of_key_pair : Result L.KeyPair KeyPairError → Result String ScriptError
  of_key_pair (ok key_pair) =
      printed (get_principal_from_identity (get_identity_from_key_pair key_pair))
  of_key_pair (err e) = err (no_key_pair e)

  -- `main` of the program: what it leaves on the disk, and the line that it prints.
  unfoldable pub principal_from_key_pair :
      Faults → Result Bytes String → List String → Disk → Disk × Result String ScriptError
  principal_from_key_pair faults generated (_ ∷ key_pair_path ∷ _) disk =
      let (disk', loaded) = load_key_pair L.from_pkcs8 faults generated key_pair_path disk in
      (disk', of_key_pair loaded)
  principal_from_key_pair faults generated (_ ∷ []) disk = (disk, err no_argument)
  principal_from_key_pair faults generated [] disk = (disk, err no_argument)

  -- On the key pair's file of a gateway that has been up, the program prints the principal with
  -- which the gateway acts, and changes nothing on the disk. (The file can be read.)
  pub principal_from_key_pair_agrees :
      (D : DashMap) (dec : Discrete P) (start : Start L) (info : DeploymentInfo) (w : World)
      (r : Running D dec L) (faults : Faults) (generated : Result Bytes String) (name : String)
      (args : List String)
      → (main D dec L start info w).1 ≡ returns r
      → faults.on_read "./data/key_pair" ≡ none
      → let disk = (main D dec L start info w).0.disk in
        (principal_from_key_pair faults generated (name ∷ "./data/key_pair" ∷ args) disk
          ≡ (disk, ok (L.to_text r.gateway_principal)))
        × (L.get_principal r.manager.agent ≡ ok r.gateway_principal)
  unfolding principal_from_key_pair
  principal_from_key_pair_agrees D dec start info w r faults generated name args up readable =
      let disk = (main D dec L start info w).0.disk in
      let (pair, (home, b, here, parses), (configured, traces)) =
        main_brings_up D dec L start info w r up in
      let present =
        load_key_pair_present L.from_pkcs8 faults generated "./data/key_pair" disk b here
          readable in
      let sends = configured.principal in
      let line : of_key_pair (load_key_pair L.from_pkcs8 faults generated "./data/key_pair" disk).1
          ≡ ok (L.to_text r.gateway_principal) =
        ground arith in
      (ground arith, configured.agent)
