-- ===== src/CnpgJob/Annotations.antt =====
-- src/engine/cnpgjob/offlinejob.go: the annotations that the job writes on the CNPG cluster, and the
-- API calls that write them. The API server is a parameter: each call has an outcome.
use hasteward.Prelude.{
  String, Bool, true, false, List, [], ◌∷◌, ◌++◌, any, select, not, if◌then◌else◌, str_eq,
}

-- A write may be accepted, or be committed while the client sees an error, or be refused.
pub data Outcome : Type 0 where
  accepted committed_unseen refused : Outcome

-- What the job does that others can see, in order.
pub data Event : Type 0 where
  fence_written reconcile_disabled reconcile_enabled unfence_written : Event
  helper_created helper_deleted target_deleted work_done : Event

pub record Cluster : Type 0 where
  pub fenced : List String
  pub reconcile_off : Bool
  pub log : List Event

-- What the client sees of a write.
abbrev pub seen_ok : Outcome → Bool
seen_ok accepted = true
seen_ok _ = false

abbrev pub is_committed : Outcome → Bool
is_committed refused = false
is_committed _ = true

abbrev pub commit : Outcome → (Cluster → Cluster) → Cluster → Cluster
commit o f c = if is_committed o then f c else c

abbrev pub emit : Event → Cluster → Cluster
emit e c = record c { log = c.log ++ e ∷ [] }

abbrev pub is_fenced : String → Cluster → Bool
is_fenced pod c = any (str_eq pod) c.fenced

abbrev fence_patch : String → Cluster → Cluster
fence_patch pod c = record c { fenced = c.fenced ++ pod ∷ []; log = c.log ++ fence_written ∷ [] }

abbrev unfence_patch : String → Cluster → Cluster
unfence_patch pod c = record c {
  fenced = select (λ f. not (str_eq f pod)) c.fenced;
  log = c.log ++ unfence_written ∷ [];
}

abbrev reconcile_patch : Bool → Cluster → Cluster
reconcile_patch off c = record c {
  reconcile_off = off;
  log = c.log ++ (if off then reconcile_disabled else reconcile_enabled) ∷ [];
}

-- `Fence`: the read of the annotation, whose failure is `false`, then the patch.
unfoldable pub fence : Bool → Outcome → String → Cluster → Bool × Cluster
fence readable o pod c =
    if readable
    then if is_fenced pod c then (true, c) else (seen_ok o, commit o (fence_patch pod) c)
    else (false, c)

unfoldable pub unfence : Bool → Outcome → String → Cluster → Bool × Cluster
unfence readable o pod c =
    if readable then (seen_ok o, commit o (unfence_patch pod) c) else (false, c)

unfoldable pub set_reconciliation_loop : Outcome → Bool → Cluster → Bool × Cluster
set_reconciliation_loop o off c = (seen_ok o, commit o (reconcile_patch off) c)
