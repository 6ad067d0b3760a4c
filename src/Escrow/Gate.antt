-- ===== src/Escrow/Gate.antt =====
-- src/engine/escrow/gate.go: `Prepare`, `Capture` and `Gate`. The constructors of the two providers
-- and the count of outstanding snapshots are parameters.
use hasteward.Prelude.{
  ℕ, ◌+◌, ◌^◌, String, Bool, true, false, Option, none, some, List, [], ◌∷◌, ltb, leb,
  if◌then◌else◌,
}
use hasteward.Escrow.Defs.{Config, EscrowRef, UsedBytes, EscrowProvider}
use hasteward.Escrow.Select.{Choice, SelectError, Selection, selected, select_refused}

-- 1 GiB.
abbrev pub reserve_bytes : ℕ
reserve_bytes = 1073741824

abbrev pub max_outstanding_escrows : ℕ
max_outstanding_escrows = 12

pub data Refusal : Type 0 where
  empty_set cannot_count unknown_free_space capture_failed unproven : Refusal
  no_provider : SelectError → Refusal
  too_many : ℕ → Refusal
  no_space : ℕ → ℕ → Refusal

pub data Result (A : Type 0) : Type 0 where
  ok : A → Result A
  err : Refusal → Result A

-- `est+reserveBytes > avail` in int64: a sum of 2^63 or more wraps to a negative number.
unfoldable pub exceeds : ℕ → ℕ → Bool
exceeds est avail =
    if ltb (est + reserve_bytes) (2 ^ 63) then ltb avail (est + reserve_bytes) else false

pub record RecoverySet (S : Type 0) : Type 0 where
  pub provider : EscrowProvider S
  pub set : List String
  pub estimate : ℕ
  pub available : ℕ

-- What `Prepare` reads: the selection, the provider of a choice, and the count of outstanding
-- escrows, `none` if the listing fails.
pub record Backend (S : Type 0) : Type 0 where
  pub selection : List String → Selection
  pub provider_of : Choice → EscrowProvider S
  pub outstanding : Option ℕ

module _ {S : Type 0} where
  abbrev pub check_space :
      EscrowProvider S → List String → UsedBytes → Option ℕ → Result (RecoverySet S)
  check_space p set used none = err unknown_free_space
  check_space p set used (some avail) =
      let est = p.estimate_capture_bytes set used in
      if exceeds est avail
      then err (no_space est avail)
      else ok (record { provider = p; set = set; estimate = est; available = avail })

  abbrev pub check_count :
      EscrowProvider S → List String → UsedBytes → Option ℕ → Result (RecoverySet S)
  check_count p set used none = err cannot_count
  check_count p set used (some n) =
      if leb max_outstanding_escrows n
      then err (too_many n)
      else check_space p set used p.available_bytes

  abbrev pub check_selection :
      Backend S → Selection → List String → UsedBytes → Result (RecoverySet S)
  check_selection b (select_refused e) set used = err (no_provider e)
  check_selection b (selected choice) set used =
      check_count (b.provider_of choice) set used b.outstanding

  unfoldable pub prepare : Backend S → List String → UsedBytes → Result (RecoverySet S)
  prepare b [] used = err empty_set
  prepare b (pvc ∷ pvcs) used = check_selection b (b.selection (pvc ∷ pvcs)) (pvc ∷ pvcs) used

  abbrev pub verified_refs : List EscrowRef × Bool × S → Result (List EscrowRef) × S
  verified_refs (refs, true, s) = (ok refs, s)
  verified_refs (refs, false, s) = (err unproven, s)

  abbrev pub captured : RecoverySet S → Option (List EscrowRef) × S → Result (List EscrowRef) × S
  captured r (none, s) = (err capture_failed, s)
  captured r (some refs, s) = verified_refs (r.provider.verify refs s)

  unfoldable pub capture : RecoverySet S → S → Result (List EscrowRef) × S
  capture r s = captured r (r.provider.capture r.set s)

  abbrev pub after_prepare : Result (RecoverySet S) → S → Result (List EscrowRef) × S
  after_prepare (err e) s = (err e, s)
  after_prepare (ok r) s = capture r s

  -- `--no-escrow` returns no refs and no error.
  unfoldable pub gate :
      Config → Backend S → List String → UsedBytes → S → Result (List EscrowRef) × S
  gate cfg b set used s = if cfg.no_escrow then (ok [], s) else after_prepare (prepare b set used) s
