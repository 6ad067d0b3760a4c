-- ===== src/Escrow/Defs.antt =====
-- src/engine/escrow/escrow.go and the fields of common.Config that escrow reads. A provider is the
-- interface EscrowProvider, over the state `S` of the storage.
use hasteward.Prelude.{ℕ, String, Bool, true, ◌≡◌, Option, List, map, All}

pub record Config : Type 0 where
  pub cluster_name : String
  pub namespace : String
  pub backups_path : String
  pub restic_password : String
  pub snapshot_class : String
  pub no_escrow : Bool

pub record EscrowRef : Type 0 where
  pub provider : String
  pub id : String
  pub pvc : String
  pub verified : Bool

-- Used bytes by pod, from triage's disk statistics.
abbrev pub UsedBytes : Type 0
UsedBytes = List (String × ℕ)

-- `capture` is `none` on an error. `verify` returns the refs as it leaves them, and whether it
-- returned a nil error. `available_bytes` is `none` on an error.
pub record EscrowProvider (S : Type 0) : Type 0 where
  pub name : String
  pub capture : List String → S → Option (List EscrowRef) × S
  pub verify : List EscrowRef → S → List EscrowRef × Bool × S
  pub estimate_capture_bytes : List String → UsedBytes → ℕ
  pub available_bytes : Option ℕ

abbrev pub pvc_names : List EscrowRef → List String
pvc_names = map (λ r. r.pvc)

abbrev pub AllVerified : List EscrowRef → Type 0
AllVerified = All (λ r. r.verified ≡ true)

-- What the interface's comments ask of an implementation: `capture` returns one ref for each PVC,
-- and a `verify` that proves the refs marks each of them and changes nothing else of the set.
pub record IsLawful {S : Type 0} (p : EscrowProvider S) : Type 0 where
  pub captures_each :
      (set : List String) (s : S) (refs : List EscrowRef)
      → (p.capture set s).0 ≡ Option.some refs
      → pvc_names refs ≡ set
  pub verifies_each :
      (refs : List EscrowRef) (s : S) → (p.verify refs s).1 ≡ true → AllVerified (p.verify refs s).0
  pub keeps_each : (refs : List EscrowRef) (s : S) → pvc_names (p.verify refs s).0 ≡ pvc_names refs
