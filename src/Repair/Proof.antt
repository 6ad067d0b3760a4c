-- ===== src/Repair/Proof.antt =====
-- src/engine/repair/recovery_proof.go. The digest of the lines that `hashAssessment` writes, SHA-256
-- of their text in hexadecimal, is a parameter. `sort.Strings` and `sort.Slice` on the pod names are
-- an insertion sort.
use hasteward.Prelude.{
  ℕ, String, Bool, false, not, ◌&&◌, Option, none, some, List, [], ◌∷◌, ◌++◌, map, any,
  if◌then◌else◌, str_eq, str_ltb,
}
use hasteward.Model.{Classification, InstanceAssessment, Recovery, TriageResult}
use hasteward.Escrow.{EscrowRef}
use hasteward.Triage.{is_empty}

pub record RecoveryProof : Type 0 where
  pub assessment_hash : String
  pub authority : String
  pub disposable : List String
  pub escrow_refs : List EscrowRef
  pub escrow_verified : Bool

-- A line of the text that is hashed.
pub data Line : Type 0 where
  recovery_line : Bool → String → String → Line
  no_recovery : Line
  label_line : String → String → Line
  status_line : String → Line
  inst_line : String → Classification → ℕ → String → Bool → Line

unfoldable pub insert : String → List String → List String
insert x [] = x ∷ []
insert x (y ∷ ys) = if str_ltb y x then y ∷ insert x ys else x ∷ y ∷ ys

unfoldable pub sort : List String → List String
sort [] = []
sort (x ∷ xs) = insert x (sort xs)

unfoldable pub insert_inst : InstanceAssessment → List InstanceAssessment → List InstanceAssessment
insert_inst a [] = a ∷ []
insert_inst a (b ∷ bs) = if str_ltb b.pod a.pod then b ∷ insert_inst a bs else a ∷ b ∷ bs

unfoldable pub sort_insts : List InstanceAssessment → List InstanceAssessment
sort_insts [] = []
sort_insts (a ∷ as') = insert_inst a (sort_insts as')

unfoldable pub sorted_lines : String → List String → List Line
sorted_lines label vals = map (label_line label) (sort vals)

abbrev pub line_of : InstanceAssessment → Line
line_of a = inst_line a.pod a.classification a.timeline a.lsn a.is_primary

abbrev pub recovery_lines : Option Recovery → List Line
recovery_lines none = no_recovery ∷ []
recovery_lines (some r) =
    recovery_line r.blocked r.reason r.authority ∷ sorted_lines "disposable" r.disposable
    ++ sorted_lines "recoverySet" r.recovery_set

unfoldable pub assessment_lines : TriageResult → List Line
assessment_lines t =
    recovery_lines t.recovery
    ++ status_line t.authority_status ∷ map line_of (sort_insts t.assessments)

unfoldable pub authorizes_clear : RecoveryProof → String → Bool
authorizes_clear p instance_name =
    if str_eq instance_name ""
    then false
    else if str_eq instance_name p.authority
    then false
    else any (λ d. str_eq d instance_name) p.disposable

module _ (digest : List Line → String) where
  unfoldable pub hash_assessment : Option TriageResult → String
  hash_assessment none = ""
  hash_assessment (some t) = digest (assessment_lines t)

  unfoldable pub valid : RecoveryProof → Option TriageResult → Bool
  valid p current =
      not (str_eq p.assessment_hash "")
      && str_eq p.assessment_hash (hash_assessment current)
      && not (str_eq p.authority "")
      && not (is_empty p.disposable)
      && p.escrow_verified
