-- ===== src/Escrow/Select.antt =====
-- src/engine/escrow/select.go: the choice of the provider. What the API server answers is a
-- parameter; a failed read is `none`.
use hasteward.Prelude.{
  String, Bool, true, not, ◌&&◌, Option, none, some, List, [], ◌∷◌, any, if◌then◌else◌, str_eq,
}
use hasteward.Escrow.Defs.{Config}

pub record Pod : Type 0 where
  pub name : String
  -- The claim names of the pod's PersistentVolumeClaim volumes.
  pub claims : List String
  -- The readiness of its containers.
  pub ready : List Bool

pub record SnapshotClass : Type 0 where
  pub name : String
  pub driver : String

pub record Storage : Type 0 where
  pub pods : Option (List Pod)
  -- The storage class of a PVC: `none` if the read fails, `some none` if it names none.
  pub class_of : String → Option (Option String)
  pub provisioner_of : String → Option String
  pub snapshot_classes : Option (List SnapshotClass)

pub data Choice : Type 0 where
  restic : Choice
  snapshot : String → Choice

pub data SelectError : Type 0 where
  empty_recovery_set escrow_unavailable : SelectError

pub data Selection : Type 0 where
  selected : Choice → Selection
  select_refused : SelectError → Selection

abbrev pub contains : List String → String → Bool
contains set x = any (str_eq x) set

abbrev pub mounts_any : List String → Pod → Bool
mounts_any pvcs p = any (contains pvcs) p.claims

abbrev pub has_ready : Pod → Bool
has_ready p = any (λ r. r) p.ready

unfoldable pub any_live_writer : Storage → List String → Bool
any_live_writer st pvcs = elim st.pods [
  | none ↦ true
  | some pods ↦ any (λ p. mounts_any pvcs p && has_ready p) pods
]

unfoldable pub first_with_driver : String → List SnapshotClass → Option String
first_with_driver provisioner [] = none
first_with_driver provisioner (c ∷ cs) =
    if str_eq c.driver provisioner then some c.name else first_with_driver provisioner cs

-- The class name of a claim, if it has one that is not empty.
abbrev pub explicit_class : Option (Option String) → Option String
explicit_class none = none
explicit_class (some none) = none
explicit_class (some (some c)) = if str_eq c "" then none else some c

abbrev pub first_class : Option String → Option (List SnapshotClass) → Option String
first_class none cs = none
first_class (some provisioner) none = none
first_class (some provisioner) (some cs) = first_with_driver provisioner cs

-- An error is `none`.
unfoldable pub match_snapshot_class : Storage → String → Option String
match_snapshot_class st pvc = elim (explicit_class (st.class_of pvc)) [
  | none ↦ none
  | some class ↦ first_class (st.provisioner_of class) st.snapshot_classes
]

abbrev pub restic_ok : Config → Bool
restic_ok cfg = not (str_eq cfg.backups_path "") && not (str_eq cfg.restic_password "")

-- The tail of `Select`, after the snapshot classes.
abbrev pub fall_back : Config → Selection
fall_back cfg = if restic_ok cfg then selected restic else select_refused escrow_unavailable

abbrev pub select_class : Config → Option String → Selection
select_class cfg none = fall_back cfg
select_class cfg (some class) = if str_eq class "" then fall_back cfg else selected (snapshot class)

unfoldable pub select_provider : Config → Storage → List String → Selection
select_provider cfg st [] = select_refused empty_recovery_set
select_provider cfg st (pvc ∷ pvcs) =
    if restic_ok cfg && not (any_live_writer st (pvc ∷ pvcs))
    then selected restic
    else if str_eq cfg.snapshot_class ""
    then select_class cfg (match_snapshot_class st pvc)
    else selected (snapshot cfg.snapshot_class)
