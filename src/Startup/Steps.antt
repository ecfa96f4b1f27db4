-- ===== src/Startup/Steps.antt =====
-- How the steps of the start follow each other: each may end the program, with an error or a panic.
use ic_websocket_gateway.Prelude.{String, Option, Result, ok, err}
use ic_websocket_gateway.Startup.Disk.{Disk}
use ic_websocket_gateway.Startup.KeyPair.{KeyPairError}

-- A global subscriber of tracing: the file it logs to, the filters of its layers, and the telemetry
-- with its endpoint, the name of the service and its filter.
pub record Telemetry : Type 0 where
  pub endpoint : String
  pub service_name : String
  pub filter : String

pub record Subscriber : Type 0 where
  pub log_file : String
  pub file_filter : String
  pub stdout_filter : String
  pub telemetry : Option Telemetry

-- What the start changes: the disk, and in the process the subscriber and the address of the
-- metrics' exporter.
pub record World : Type 0 where
  pub disk : Disk
  pub subscriber : Option Subscriber
  pub exporter : Option String

-- The errors that `main` returns.
pub data StartError : Type 0 where
  io : String → StartError
  key_pair : KeyPairError → StartError

pub data Step (A : Type 0) : Type 0 where
  returns : A → Step A
  exits : StartError → Step A
  panics : String → Step A

abbrev pub Program : Type 0 → Type 0
Program A = World → World × Step A

abbrev pub pure : {A : Type 0} → A → Program A
pure a w = (w, returns a)

abbrev pub crash : {A : Type 0} → String → Program A
crash m w = (w, panics m)

abbrev pub on_disk : {A E : Type 0} → (E → StartError) → (Disk → Disk × Result A E) → Program A
on_disk error f w =
    let (disk, result) = f w.disk in
    (record w { disk = disk }, elim result [ ok a ↦ returns a | err e ↦ exits (error e) ])

abbrev pub lift : {A E : Type 0} → (E → StartError) → Result A E → Program A
lift error r = on_disk error (λ disk. (disk, r))

abbrev pub after : {A B : Type 0} → World × Step A → (A → Program B) → World × Step B
after (w, returns a) f = f a w
after (w, exits e) f = (w, exits e)
after (w, panics m) f = (w, panics m)

infixl 5 ◌>>=◌ ◌>>◌
abbrev pub ◌>>=◌ : {A B : Type 0} → Program A → (A → Program B) → Program B
◌>>=◌ m f w = after (m w) f

abbrev pub ◌>>◌ : {B : Type 0} → Program (Unit {0}) → Program B → Program B
m >> k = m >>= λ _. k

abbrev expected : {A : Type 0} → String → World × Step A → World × Step A
expected message (w, exits e) = (w, panics message)
expected message (w, returns a) = (w, returns a)
expected message (w, panics m) = (w, panics m)

-- `expect` on the result of a step.
abbrev pub expect : {A : Type 0} → String → Program A → Program A
expect message m w = expected message (m w)

abbrev joined : {A : Type 0} → String → World × Step A → World × Step A
joined message (w, panics m) = (w, panics message)
joined message (w, exits e) = (w, exits e)
joined message (w, returns a) = (w, returns a)

-- `expect` on the end of a task that panics if the step does.
abbrev pub join : {A : Type 0} → String → Program A → Program A
join message m w = joined message (m w)
