-- ===== src/Startup/KeyPair.antt =====
-- src/ic-identity/src/lib.rs: the gateway's key pair, in a file that is made at the first start.
use ic_websocket_gateway.Prelude.{
  ℕ, String, ◌≡◌, ◌≢◌, none, some, Result, ok, err, take, if◌then◌else◌, inl, inr, ◌⊎◌, ap, ◌∙◌,
  arith, Option-cases, Result-cases,
}
use ic_websocket_gateway.CanisterUtils.{Bytes}
use ic_websocket_gateway.Startup.Disk.{
  directory, file, Disk, cut, Faults, is_file, write, read, write-ok, write-cut, write_elsewhere,
}

-- The errors, one for each text; each has the text of the error that it reports.
pub data KeyPairError : Type 0 where
  not_generated not_written not_read not_parsed : String → KeyPairError

-- `from_pkcs8` is how the library `ring` parses a key pair.
module _ {KeyPair : Type 0} (from_pkcs8 : Bytes → Result KeyPair String) (faults : Faults) where
  abbrev pub parsed : Bytes → Result KeyPair KeyPairError
  parsed key_pair = elim (from_pkcs8 key_pair) [ ok k ↦ ok k | err e ↦ err (not_parsed e) ]

  abbrev after_write : Bytes → Disk × Result (Unit {0}) String → Disk × Result KeyPair KeyPairError
  after_write key_pair (disk, ok _) = (disk, parsed key_pair)
  after_write key_pair (disk, err e) = (disk, err (not_written e))

  -- `generated` is what `Ed25519KeyPair::generate_pkcs8` gives, if it is asked.
  unfoldable pub load_key_pair :
      Result Bytes String → String → Disk → Disk × Result KeyPair KeyPairError
  load_key_pair generated dir disk =
      if is_file disk dir
      then elim (read faults dir disk) [
        | err e ↦ (disk, err (not_read e))
        | ok key_pair ↦ (disk, parsed key_pair)
      ]
      else elim generated [
        | err e ↦ (disk, err (not_generated e))
        | ok key_pair ↦ after_write key_pair (write faults dir key_pair disk)
      ]

module _ {KeyPair : Type 0} (from_pkcs8 : Bytes → Result KeyPair String) where
  -- Loading a file that is there.
  pub load_key_pair_present :
      (faults : Faults) (generated : Result Bytes String) (dir : String) (disk : Disk)
      (key_pair : Bytes)
      → disk dir ≡ some (file key_pair)
      → faults.on_read dir ≡ none
      → load_key_pair from_pkcs8 faults generated dir disk
        ≡ (disk, parsed from_pkcs8 faults key_pair)
  unfolding load_key_pair
  load_key_pair_present faults generated dir disk key_pair here fine = ground arith

  -- What a load leaves at the path when it succeeds.
  pub load_key_pair_leaves :
      (faults : Faults) (generated : Result Bytes String) (dir : String) (disk : Disk) (k : KeyPair)
      → let (disk', loaded) = load_key_pair from_pkcs8 faults generated dir disk in
        loaded ≡ ok k
        → (key_pair : Bytes) × (disk' dir ≡ some (file key_pair))
          × (parsed from_pkcs8 faults key_pair ≡ ok k)
  unfolding load_key_pair
  load_key_pair_leaves faults generated dir disk k e = elim (Option-cases (disk dir)) [
    | inr (file b, here) ↦ elim (Option-cases (faults.on_read dir)) [
      | inl fine ↦ (b, ground arith, ground arith)
      | inr (x, failed) ↦ absurd (ground arith)
    ]
    | inr (directory, here) ↦ absurd (ground arith)
    | inl vacant ↦ elim (Result-cases generated) [
      | inr (x, failed) ↦ absurd (ground arith)
      | inl (b, made) ↦ elim (Result-cases (write faults dir b disk).1) [
        | inr (x, failed) ↦ absurd (ground arith)
        | inl (u, written) ↦
            let stands = write-ok faults dir b disk written in
            (b, ground (arith, stands), ground arith)
      ]
    ]
  ]

  -- The gateway keeps its key pair: once it has been loaded, from a file that was there or that was
  -- made, every later load at a time when the file can be read gives the same key pair, whatever
  -- the generator would give, and leaves the disk as it is.
  pub load_key_pair_again :
      (before after : Faults) (generated generated' : Result Bytes String) (dir : String)
      (disk : Disk) (k : KeyPair)
      → (load_key_pair from_pkcs8 before generated dir disk).1 ≡ ok k
      → after.on_read dir ≡ none
      → let disk' = (load_key_pair from_pkcs8 before generated dir disk).0 in
        load_key_pair from_pkcs8 after generated' dir disk' ≡ (disk', ok k)
  load_key_pair_again before after generated generated' dir disk k loaded readable =
      let (b, here, parses) = load_key_pair_leaves before generated dir disk k loaded in
      load_key_pair_present after generated' dir
        (load_key_pair from_pkcs8 before generated dir disk).0 b here readable
      ∙ ap (λ r. ((load_key_pair from_pkcs8 before generated dir disk).0, r)) parses

  -- A load changes nothing on the disk but the file at its path, and this only if there was none:
  -- whatever goes wrong, an existing key pair is never written over.
  pub load_key_pair_keeps :
      (faults : Faults) (generated : Result Bytes String) (dir : String) (disk : Disk) (p : String)
      → (p ≢ dir) ⊎ (disk dir ≢ none)
      → (load_key_pair from_pkcs8 faults generated dir disk).0 p ≡ disk p
  unfolding load_key_pair
  load_key_pair_keeps faults generated dir disk p (inr there) = elim (Option-cases (disk dir)) [
    | inl vacant ↦ absurd (there vacant)
    | inr (file b, here) ↦ ground arith
    | inr (directory, here) ↦ ground arith
  ]
  load_key_pair_keeps faults generated dir disk p (inl other) = elim (Option-cases (disk dir)) [
    | inr (file b, here) ↦ ground arith
    | inr (directory, here) ↦ ground arith
    | inl vacant ↦ elim (Result-cases generated) [
      | inr (x, failed) ↦ ground arith
      | inl (b, made) ↦ let same = write_elsewhere faults dir b disk p other in ground arith
    ]
  ]

  -- A first start whose write is cut short fails, and so does every later one: the piece of the key
  -- pair stays on the disk, and is never written again, whatever the generator gives. (The library
  -- does not parse the piece.)
  pub load_key_pair_stuck :
      (before after : Faults) (b : Bytes) (generated' : Result Bytes String) (dir : String)
      (disk : Disk) (n : ℕ) (e e' : String)
      → disk dir ≡ none
      → before.on_write dir ≡ some (cut n e)
      → after.on_read dir ≡ none
      → from_pkcs8 (take n b) ≡ err e'
      → let (disk', loaded) = load_key_pair from_pkcs8 before (ok b) dir disk in
        (loaded ≡ err (not_written e))
        × (load_key_pair from_pkcs8 after generated' dir disk' ≡ (disk', err (not_parsed e')))
  unfolding load_key_pair
  load_key_pair_stuck before after b generated' dir disk n e e' vacant failed readable unparsed =
      let disk' = (load_key_pair from_pkcs8 before (ok b) dir disk).0 in
      let left = write-cut before dir b disk n e vacant failed in
      let piece : disk' dir ≡ some (file (take n b)) = ground (arith, left) in
      let bad : parsed from_pkcs8 after (take n b) ≡ err (not_parsed e') = ground arith in
      (
        ground arith,
        load_key_pair_present after generated' dir disk' (take n b) piece readable
            ∙ ap (λ r. (disk', r)) bad,
      )
