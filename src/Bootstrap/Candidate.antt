-- ===== src/Bootstrap/Candidate.antt =====
-- `selectCandidate`, `isAuthoritativeRecover`, `candidateOverrideDiscardsData` and
-- `buildLineageGroups` of src/engine/bootstrap/galera.go. No pod has the empty name, so "no best pod
-- yet" is `none`.
use hasteward.Prelude.{
  ℤ, pos, int_ltb, int_eq, find, ltb, ◌==◌, length, any, String, Bool, true, false, ◌&&◌, ◌||◌, not,
  Option, none, some, List, [], ◌∷◌, if◌then◌else◌, str_eq,
}
use hasteward.Repair.{sort}
use hasteward.GaleraTriage.Data.{WsrepRecoverResult, zero_uuid}

abbrev pub Recoveries : Type 0
Recoveries = List (String × WsrepRecoverResult)

abbrev pub max_phantom_seqno : ℤ
max_phantom_seqno = pos 1000000000000

unfoldable pub is_authoritative_recover : WsrepRecoverResult → Bool
is_authoritative_recover r =
    r.valid
    && not (str_eq r.uuid zero_uuid)
    && not (str_eq r.uuid "")
    && not (str_eq r.uuid "unknown")
    && not (int_ltb r.seqno (pos 0))
    && not (int_ltb max_phantom_seqno r.seqno)

abbrev pub candidate_override_discards_data : Bool → ℤ → ℤ → Bool
candidate_override_discards_data recovered known best = not recovered && int_ltb best known

pub record LineageGroup : Type 0 where
  pub uuid : String
  pub members : List String
  pub max_seqno : ℤ
  pub max_committed : ℤ
  pub best_node : String

-- A higher position than that of the first arguments.
abbrev pub outranks : ℤ → ℤ → WsrepRecoverResult → Bool
outranks seqno committed r =
    int_ltb seqno r.seqno || (int_eq r.seqno seqno && int_ltb committed r.last_committed)

abbrev pub new_lineage : String → LineageGroup
new_lineage uuid = record {
  uuid = uuid;
  members = [];
  max_seqno = pos 0;
  max_committed = pos 0;
  best_node = "";
}

abbrev pub join_lineage : String → WsrepRecoverResult → LineageGroup → LineageGroup
join_lineage pod r g =
    let better = outranks g.max_seqno g.max_committed r in
    record {
      uuid = g.uuid;
      members = pod ∷ g.members;
      max_seqno = if better then r.seqno else g.max_seqno;
      max_committed = if better then r.last_committed else g.max_committed;
      best_node = if better then pod else g.best_node;
    }

unfoldable pub add_lineage : String → WsrepRecoverResult → List LineageGroup → List LineageGroup
add_lineage pod r [] = join_lineage pod r (new_lineage r.uuid) ∷ []
add_lineage pod r (g ∷ gs) =
    if str_eq g.uuid r.uuid then join_lineage pod r g ∷ gs else g ∷ add_lineage pod r gs

unfoldable pub fold_lineages : Recoveries → List LineageGroup → List LineageGroup
fold_lineages [] gs = gs
fold_lineages ((pod, r) ∷ m) gs =
    fold_lineages m (if is_authoritative_recover r then add_lineage pod r gs else gs)

-- More members come first, and among as many, the higher position.
abbrev pub precedes : LineageGroup → LineageGroup → Bool
precedes g h =
    if length g.members == length h.members
    then int_ltb h.max_seqno g.max_seqno
    else ltb (length h.members) (length g.members)

unfoldable pub insert_lineage : LineageGroup → List LineageGroup → List LineageGroup
insert_lineage g [] = g ∷ []
insert_lineage g (h ∷ hs) = if precedes h g then h ∷ insert_lineage g hs else g ∷ h ∷ hs

unfoldable pub sort_lineages : List LineageGroup → List LineageGroup
sort_lineages [] = []
sort_lineages (g ∷ gs) = insert_lineage (record g { members = sort g.members }) (sort_lineages gs)

unfoldable pub build_lineage_groups : Recoveries → List LineageGroup
build_lineage_groups m = sort_lineages (fold_lineages m [])

abbrev pub uuid_or_empty : Option WsrepRecoverResult → String
uuid_or_empty none = ""
uuid_or_empty (some r) = r.uuid

abbrev pub several : List LineageGroup → Bool
several gs = ltb 1 (length gs)

-- The candidate before the recovered positions are compared: the best node of the majority if the
-- original one is of a minority, unless forced.
unfoldable pub kept_candidate :
    String → Recoveries → Bool → LineageGroup → List LineageGroup → String
kept_candidate original m force majority groups =
    if several groups
      && (not (any (str_eq original) majority.members)
          && (not (str_eq (uuid_or_empty (find original m)) majority.uuid) && not force))
    then majority.best_node
    else original

-- A result that may win: with several lineages and no force, only of the majority.
abbrev pub may_win : Bool → LineageGroup → List LineageGroup → WsrepRecoverResult → Bool
may_win force majority groups r =
    is_authoritative_recover r
    && not (not force && several groups && not (str_eq r.uuid majority.uuid))

abbrev pub Best : Type 0
Best = Option (String × WsrepRecoverResult)

abbrev pub beats : WsrepRecoverResult → Best → Bool
beats r none = true
beats r (some b) = outranks b.1.seqno b.1.last_committed r

abbrev pub take_best : Bool → String → WsrepRecoverResult → Best → Best
take_best true pod r best = some (pod, r)
take_best false pod r best = best

module _ (wins : WsrepRecoverResult → Bool) where
  unfoldable pub best_recovered : Recoveries → Best → Best
  best_recovered [] best = best
  best_recovered ((pod, r) ∷ m) best =
      best_recovered m (take_best (wins r && beats r best) pod r best)

abbrev pub recovered_well : Option WsrepRecoverResult → Bool
recovered_well none = false
recovered_well (some r) = is_authoritative_recover r

abbrev pub known_seqno : Option ℤ → ℤ
known_seqno none = pos 0
known_seqno (some n) = n

-- With the best pod the original one, or the override one that discards data without force.
abbrev pub override : Bool → Bool → String → String → Option String
override true discards kept best = some kept
override false true kept best = none
override false false kept best = some best

-- `known` holds the effective positions of the assessments; `none` is the refusal.
abbrev pub settle : String → List (String × ℤ) → Recoveries → Bool → String → Best → Option String
settle original known m force kept none = some kept
settle original known m force kept (some (pod, r)) =
    override (str_eq pod original)
      (candidate_override_discards_data (recovered_well (find original m))
          (known_seqno (find original known)) r.seqno
        && not force)
      kept pod

abbrev pub select_among :
    String → List (String × ℤ) → Recoveries → Bool → List LineageGroup → Option String
select_among original known m force [] = some original
select_among original known m force (majority ∷ rest) =
    settle original known m force (kept_candidate original m force majority (majority ∷ rest))
      (best_recovered (may_win force majority (majority ∷ rest)) m none)

unfoldable pub select_candidate : String → List (String × ℤ) → Recoveries → Bool → Option String
select_candidate original known m force =
    select_among original known m force (build_lineage_groups m)
