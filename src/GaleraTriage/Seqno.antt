-- ===== src/GaleraTriage/Seqno.antt =====
-- `deriveEffectiveSeqno` of src/engine/triage/galera.go, and the loop of `triageCollect` that
-- applies it to each node.
use hasteward.Prelude.{
  ℤ, pos, negsuc, int_ltb, find, String, Bool, true, false, ◌&&◌, Option, none, some, List, [], ◌∷◌,
  if◌then◌else◌,
}
use hasteward.GaleraTriage.Data.{
  Grastate, WsrepReading, EffectiveSeqno, WsrepRecoverResult, GaleraTriageData,
}

pub record Cand : Type 0 where
  pub val : ℤ
  pub source : String

abbrev pub improves : Cand → EffectiveSeqno → Bool
improves c best = int_ltb (pos 0) c.val && int_ltb best.value c.val

abbrev pub take_cand : Bool → Bool → Cand → EffectiveSeqno → EffectiveSeqno
take_cand true known c best = record { value = c.val; source = c.source; known = known }
take_cand false known c best = best

unfoldable pub best_of : Bool → List Cand → EffectiveSeqno → EffectiveSeqno
best_of known [] best = best
best_of known (c ∷ cs) best = best_of known cs (take_cand (improves c best) known c best)

abbrev pub no_seqno : EffectiveSeqno
no_seqno = record { value = negsuc 0; source = "none"; known = false }

-- A hint fills in a value for the display only.
abbrev pub hint_unless : Bool → List Cand → EffectiveSeqno → EffectiveSeqno
hint_unless true hints best = best
hint_unless false hints best = best_of false hints best

abbrev pub authoritative_cands : ℤ → ℤ → ℤ → List Cand
authoritative_cands ws_committed grastate rec_seqno =
    record { val = rec_seqno; source = "wsrep_recover" }
    ∷ record { val = ws_committed; source = "wsrep_last_committed" }
    ∷ record { val = grastate; source = "grastate" }
    ∷ []

abbrev pub hint_cands : ℤ → ℤ → ℤ → List Cand
hint_cands log_seqno cr_rec cr_state =
    record { val = log_seqno; source = "log_gcache_estimate" }
    ∷ record { val = cr_rec; source = "cr_recovered" }
    ∷ record { val = cr_state; source = "cr_state" }
    ∷ []

unfoldable pub derive_effective_seqno : ℤ → ℤ → ℤ → ℤ → ℤ → ℤ → EffectiveSeqno
derive_effective_seqno ws_committed cr_rec cr_state grastate log_seqno rec_seqno =
    let best = best_of true (authoritative_cands ws_committed grastate rec_seqno) no_seqno in
    hint_unless best.known (hint_cands log_seqno cr_rec cr_state) best

abbrev pub committed_of : Option WsrepReading → ℤ
committed_of none = negsuc 0
committed_of (some ws) = ws.last_committed

abbrev pub recovered_of : Option WsrepRecoverResult → ℤ
recovered_of none = negsuc 0
recovered_of (some r) = if r.valid then r.seqno else negsuc 0

abbrev pub logged_of : Option ℤ → ℤ
logged_of none = negsuc 0
logged_of (some v) = v

-- `getRecoverySeqno` of the two maps of the operator's status.
module _ (cr_recovered cr_state : String → ℤ) where
  unfoldable pub seqno_of : GaleraTriageData → Grastate → EffectiveSeqno
  seqno_of d g =
      derive_effective_seqno (committed_of (find g.pod d.wsrep_map)) (cr_recovered g.pod)
        (cr_state g.pod) g.seqno (logged_of (find g.pod d.log_recovered))
        (recovered_of (find g.pod d.wsrep_recovered))

  unfoldable pub effective_seqnos_of :
      GaleraTriageData → List Grastate → List (String × EffectiveSeqno)
  effective_seqnos_of d [] = []
  effective_seqnos_of d (g ∷ gs) = (g.pod, seqno_of d g) ∷ effective_seqnos_of d gs

  -- The most advanced node so far and its value.
  abbrev pub advance : String → EffectiveSeqno → String × ℤ → String × ℤ
  advance pod es best = if es.known && int_ltb best.1 es.value then (pod, es.value) else best

  unfoldable pub best_seqno : GaleraTriageData → List Grastate → String × ℤ → String × ℤ
  best_seqno d [] best = best
  best_seqno d (g ∷ gs) best = best_seqno d gs (advance g.pod (seqno_of d g) best)
