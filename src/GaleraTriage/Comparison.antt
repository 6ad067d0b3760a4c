-- ===== src/GaleraTriage/Comparison.antt =====
-- `crossInstanceComparison` and `nodeCanonicalUUID` of src/engine/triage/galera.go. An entry of the
-- split-brain evidence is a constructor for its text; the reports to the operator are left out.
use hasteward.Prelude.{
  ℤ, pos, negsuc, int_ltb, find, ltb, length, select, any, map, String, Bool, true, false, ◌&&◌,
  not, Option, none, some, List, [], ◌∷◌, ◌++◌, if◌then◌else◌, str_eq,
}
use hasteward.Model.{AuthorityOutcome, provable, undeterminable, diverged, DataComparison}
use hasteward.Triage.{new_authority_comparison, is_empty}
use hasteward.GaleraTriage.Data.{
  Grastate, WsrepReading, EffectiveSeqno, WsrepRecoverResult, GaleraTriageData, zero_uuid,
}

unfoldable pub grastate_uuid_for : List Grastate → String → String
grastate_uuid_for [] pod = ""
grastate_uuid_for (g ∷ gs) pod = if str_eq g.pod pod then g.uuid else grastate_uuid_for gs pod

abbrev pub live_uuid : Option WsrepReading → String
live_uuid none = ""
live_uuid (some ws) = ws.cluster_state_uuid

abbrev pub fenced_uuid : Option WsrepRecoverResult → Option String
fenced_uuid none = none
fenced_uuid (some r) = if r.valid then some r.uuid else none

abbrev pub uuid_by : Option String → String → String → String
uuid_by (some u) live disk = u
uuid_by none live disk = if not (str_eq live "") then live else disk

unfoldable pub node_canonical_uuid : GaleraTriageData → String → String
node_canonical_uuid d pod =
    uuid_by (fenced_uuid (find pod d.wsrep_recovered)) (live_uuid (find pod d.wsrep_map))
      (grastate_uuid_for d.grastate_data pod)

-- The test of `addUUID`, and of the lineage of the quorum.
abbrev pub usable : String → Bool
usable u = not (str_eq u "") && not (str_eq u "unknown") && not (str_eq u zero_uuid)

abbrev pub has : String → List String → Bool
has u set = any (str_eq u) set

unfoldable pub add_uuid : String → List String → List String
add_uuid u set = if usable u && not (has u set) then u ∷ set else set

unfoldable pub add_uuids : List String → List String → List String
add_uuids [] set = set
add_uuids (u ∷ us) set = add_uuids us (add_uuid u set)

abbrev pub pods_of : List Grastate → List String
pods_of gs = map (λ g. g.pod) gs

abbrev pub keys {ℓ} : {A : Type ℓ} → List (String × A) → List String
keys m = map (λ e. e.0) m

unfoldable pub nodes : GaleraTriageData → List String
nodes d = pods_of d.grastate_data ++ (keys d.wsrep_map ++ keys d.wsrep_recovered)

-- The hints count only when no node yields an identity.
unfoldable pub uuid_set : GaleraTriageData → List String
uuid_set d =
    let identities = add_uuids (map (node_canonical_uuid d) (nodes d)) [] in
    if is_empty identities
    then add_uuids (map (λ e. e.1) d.log_rec_uuid ++ d.recovery_uuids) identities
    else identities

pub data Evidence : Type 0 where
  multiple_uuids : List String → Evidence
  bad_cluster_status : String → String → Evidence
  ahead_of_primary : String → ℤ → Evidence

abbrev pub status_alarms : String → Bool
status_alarms status = not (str_eq status "") && not (str_eq status "Primary")

unfoldable pub non_primary : List (String × WsrepReading) → List Evidence
non_primary [] = []
non_primary ((name, ws) ∷ m) =
    if status_alarms ws.cluster_status
    then bad_cluster_status name ws.cluster_status ∷ non_primary m
    else non_primary m

abbrev pub raise_best : ℤ → Option EffectiveSeqno → ℤ
raise_best best none = best
raise_best best (some es) = if int_ltb best es.value then es.value else best

unfoldable pub best_primary_seqno : List (String × EffectiveSeqno) → List String → ℤ → ℤ
best_primary_seqno seqnos [] best = best
best_primary_seqno seqnos (pm ∷ pms) best =
    best_primary_seqno seqnos pms (raise_best best (find pm seqnos))

abbrev pub is_ahead : List String → ℤ → String × EffectiveSeqno → Bool
is_ahead members best (name, es) =
    not (has name members) && es.known && int_ltb best es.value && int_ltb (pos 0) es.value

unfoldable pub ahead_of : List String → ℤ → List (String × EffectiveSeqno) → List Evidence
ahead_of members best seqnos =
    if is_empty members
    then []
    else map (λ e. ahead_of_primary e.0 e.1.value) (select (is_ahead members best) seqnos)

unfoldable pub primary_best : GaleraTriageData → ℤ
primary_best d = best_primary_seqno d.effective_seqnos d.primary_members (negsuc 1)

abbrev pub uuid_evidence : List String → List Evidence
uuid_evidence set = if ltb 1 (length set) then multiple_uuids set ∷ [] else []

unfoldable pub split_brain : GaleraTriageData → List Evidence
split_brain d =
    uuid_evidence (uuid_set d)
    ++ (non_primary d.wsrep_map ++ ahead_of d.primary_members (primary_best d) d.effective_seqnos)

unfoldable pub quorum_uuid : GaleraTriageData → List String → String
quorum_uuid d [] = ""
quorum_uuid d (pm ∷ pms) =
    let u = node_canonical_uuid d pm in let rest = quorum_uuid d pms in if usable u then u else rest

abbrev pub position_read : Option EffectiveSeqno → Bool
position_read none = false
position_read (some es) = es.known

abbrev pub lags : GaleraTriageData → Bool → Grastate → Bool
lags d clean g = clean && str_eq (node_canonical_uuid d g.pod) (quorum_uuid d d.primary_members)

abbrev pub unread_nodes : GaleraTriageData → List Grastate
unread_nodes d = select (λ g. not (position_read (find g.pod d.effective_seqnos))) d.grastate_data

unfoldable pub unread_blocking : GaleraTriageData → Bool → List String
unread_blocking d clean = pods_of (select (λ g. not (lags d clean g)) (unread_nodes d))

unfoldable pub recoverable_nodes : GaleraTriageData → Bool → List String
recoverable_nodes d clean = pods_of (select (lags d clean) (unread_nodes d))

abbrev pub authority_by : List String → Bool → AuthorityOutcome
authority_by (pod ∷ pods) divergent = undeterminable
authority_by [] true = diverged
authority_by [] false = provable

unfoldable pub clean_quorum : GaleraTriageData → Bool
clean_quorum d = is_empty (split_brain d) && not (str_eq (quorum_uuid d d.primary_members) "")

-- `BestPrimarySeqno` of the comparison is `primary_best`.
unfoldable pub galera_instance_comparison : GaleraTriageData → DataComparison
galera_instance_comparison d =
    let divergent = not (is_empty (split_brain d)) in
    let c =
      new_authority_comparison (authority_by (unread_blocking d (clean_quorum d)) divergent)
        d.best_seqno_node in
    record {
      most_advanced = c.most_advanced;
      safe_to_heal = c.safe_to_heal;
      authority = c.authority;
      primary_members = d.primary_members;
    }
