-- ===== src/Startup/Disk.antt =====
-- The file system, as far as the gateway's start uses it: std::path::Path and std::fs.
use text.Mathlib.Text.{◌==◌}
use text.Mathlib.TextEquality.{eq_iff}
use text.Mathlib.TextPositions.{eq_refl}
use ic_websocket_gateway.Prelude.{
  ℕ, String, Bool, true, false, Option, none, some, Result, ok, err, take, ◌≡◌, ◌≢◌, arith,
  if◌then◌else◌,
}
use ic_websocket_gateway.CanisterUtils.{Bytes}

pub data Node : Type 0 where
  directory : Node
  file : Bytes → Node

-- What there is at each path.
abbrev pub Disk : Type 0
Disk = String → Option Node

abbrev pub put : String → Node → Disk → Disk
put path node disk p = if p == path then some node else disk p

-- An error is known by its text.
abbrev pub IoError : Type 0
IoError = String

-- How a write fails: before the file is created, or when only some bytes are written.
pub data WriteFault : Type 0 where
  unopened : IoError → WriteFault
  cut : ℕ → IoError → WriteFault

-- The errors that the operating system has for one run of the program, beside those that follow
-- from what is at the path.
pub record Faults : Type 0 where
  pub on_create_dir : String → Option IoError
  pub on_write : String → Option WriteFault
  pub on_read : String → Option IoError

abbrev pub is_dir : Disk → String → Bool
is_dir disk path = elim (disk path) [ some directory ↦ true | some (file _) ↦ false | none ↦ false ]

abbrev pub is_file : Disk → String → Bool
is_file disk path = elim (disk path) [
  | some (file _) ↦ true
  | some directory ↦ false
  | none ↦ false
]

-- `fs::create_dir`.
abbrev pub create_dir : Faults → String → Disk → Disk × Result (Unit {0}) IoError
create_dir faults path disk = elim (faults.on_create_dir path) [
  | some e ↦ (disk, err e)
  | none ↦ elim (disk path) [
    | some _ ↦ (disk, err "File exists")
    | none ↦ (put path directory disk, ok tt)
  ]
]

abbrev cut_short : String → Bytes → Option WriteFault → Disk → Disk × Result (Unit {0}) IoError
cut_short path content none disk = (put path (file content) disk, ok tt)
cut_short path content (some (unopened e)) disk = (disk, err e)
cut_short path content (some (cut n e)) disk = (put path (file (take n content)) disk, err e)

-- `fs::write`, and `File::create` for no content: what is in the file already is lost.
abbrev pub write : Faults → String → Bytes → Disk → Disk × Result (Unit {0}) IoError
write faults path content disk = elim (disk path) [
  | some directory ↦ (disk, err "Is a directory")
  | some (file _) ↦ cut_short path content (faults.on_write path) disk
  | none ↦ cut_short path content (faults.on_write path) disk
]

-- `fs::read`.
abbrev pub read : Faults → String → Disk → Result Bytes IoError
read faults path disk = elim (faults.on_read path) [
  | some e ↦ err e
  | none ↦ elim (disk path) [
    | some (file content) ↦ ok content
    | some directory ↦ err "Is a directory"
    | none ↦ err "No such file or directory"
  ]
]

pub write-ok :
    (faults : Faults) (path : String) (content : Bytes) (disk : Disk)
    → (write faults path content disk).1 ≡ ok tt
    → (write faults path content disk).0 path ≡ some (file content)
write-ok faults path content disk e = ground (arith, eq_refl path)

pub write_elsewhere :
    (faults : Faults) (path : String) (content : Bytes) (disk : Disk) (p : String)
    → p ≢ path
    → (write faults path content disk).0 p ≡ disk p
write_elsewhere faults path content disk p ne = ground (arith, eq_iff p path)

pub write-cut :
    (faults : Faults) (path : String) (content : Bytes) (disk : Disk) (n : ℕ) (e : IoError)
    → disk path ≡ none
    → faults.on_write path ≡ some (cut n e)
    → (write faults path content disk).0 path ≡ some (file (take n content))
write-cut faults path content disk n e vacant failed = ground (arith, eq_refl path)
