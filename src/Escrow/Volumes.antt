-- ===== src/Escrow/Volumes.antt =====
-- src/engine/escrow/gate.go: `DiscoverPVCs` and `UsedBytesByPVC`.
use hasteward.Prelude.{ℕ, String, Option, none, some, List, [], ◌∷◌, ◌++◌, if◌then◌else◌, str_eq}
use hasteward.Escrow.Defs.{UsedBytes}
use hasteward.Escrow.Select.{contains}
use hasteward.Model.{InstanceAssessment}

-- The read of one pod.
pub data PodRead : Type 0 where
  -- The claim names of the pod's volumes.
  found : List String → PodRead
  not_found read_failed : PodRead

-- `add`: the empty name and a name that was seen are passed over.
unfoldable pub add_pvc : List String → String → List String
add_pvc out pvc = if str_eq pvc "" then out else if contains out pvc then out else out ++ pvc ∷ []

unfoldable pub add_all : List String → List String → List String
add_all out [] = out
add_all out (c ∷ cs) = add_all (add_pvc out c) cs

-- The volumes of one pod's own list; `none` is the error on a read that failed.
abbrev pub add_claims : PodRead → List String → Option (List String)
add_claims (found claims) out = some (add_all out claims)
add_claims not_found out = some out
add_claims read_failed out = none

abbrev pub and_then :
    Option (List String) → (List String → Option (List String)) → Option (List String)
and_then none f = none
and_then (some out) f = f out

unfoldable pub discover_from :
    (String → String) → (String → PodRead) → List String → List String → Option (List String)
discover_from data_pvc_name read_pod [] out = some out
discover_from data_pvc_name read_pod (pod ∷ pods) out =
    and_then (add_claims (read_pod pod) (add_pvc out (data_pvc_name pod)))
      (discover_from data_pvc_name read_pod pods)

unfoldable pub discover_pvcs :
    (String → String) → (String → PodRead) → List String → Option (List String)
discover_pvcs data_pvc_name read_pod pods = discover_from data_pvc_name read_pod pods []

abbrev pub add_used : Option ℕ → String → UsedBytes → UsedBytes
add_used none pod used = used
add_used (some n) pod used = (pod, n) ∷ used

-- The map of the source is a list with one entry for each pod that is wanted.
unfoldable pub used_bytes_by_pvc : List InstanceAssessment → List String → UsedBytes
used_bytes_by_pvc [] set = []
used_bytes_by_pvc (a ∷ as') set =
    let rest = used_bytes_by_pvc as' set in
    if contains set a.pod then add_used a.disk_used_bytes a.pod rest else rest
