-- ===== src/Repair/Donating.antt =====
-- What a donor is (src/engine/repair/galera_donor.go).
use hasteward.Prelude.{
  ℕ, ◌<◌, String, Bool, true, false, not, ◌&&◌, Option, none, some, List, [], ◌∷◌, select, leb,
  if◌then◌else◌, str_eq, ◌≡◌, refl, sym, ap, subst, inl, inr, Elem, Elem-select, arith, Bool-cases,
  eq_iff,
}
use hasteward.Model.{InstanceAssessment, TriageResult}
use hasteward.Repair.Donor.{
  PodState, absent, in_phase, WsrepStatus, DonorProbe, DonorSelection, DonorResult, chosen, aborted,
  probe_failed, not_suitable, probe_wsrep, is_true, is_suitable, check_probe, check_pod,
  resolve_explicit_donor, is_candidate, first_candidate, resolve_auto_donor,
}

chosen-injective : {p q : DonorSelection} → chosen p ≡ chosen q → p ≡ q
chosen-injective {p} h = ap (λ (x : DonorResult). elim x [ chosen a ↦ a | aborted r ↦ p ]) h

three_hold : (a b c : Bool) → (a && b && c) ≡ true → (a ≡ true) × (b ≡ true) × (c ≡ true)
three_hold a b c h = ground arith

four_hold :
    (a b c d : Bool) → (a && b && c && d) ≡ true → (a ≡ true) × (b ≡ true) × (c ≡ true) × (d ≡ true)
four_hold a b c d h = ground arith

is_true-some : (o : Option Bool) → is_true o ≡ true → o ≡ some true
is_true-some none h = absurd (cc)
is_true-some (some b) h = ap some h

-- The probe found a node of the primary component that is in sync.
abbrev pub IsSynced : DonorProbe → Type 0
IsSynced p =
    (p.exec_ok ≡ true)
    × (p.wsrep_ready ≡ some true)
    × (p.wsrep_connected ≡ some true)
    × (p.state_comment ≡ "Synced")

check_probe-IsSynced :
    (pod : String) (probe : DonorProbe) (sel : DonorSelection)
    → check_probe pod probe ≡ chosen sel
    → (sel.pod ≡ pod) × (sel.probe ≡ probe) × IsSynced probe
check_probe-IsSynced pod probe sel h = go probe.exec_ok (is_suitable probe) refl refl h
  where
    go :
        (exec fit : Bool)
        → probe.exec_ok ≡ exec
        → is_suitable probe ≡ fit
        → (if not exec
            then aborted probe_failed
            else if not fit
            then aborted not_suitable
            else chosen (record { pod = pod; mode = "explicit"; probe = probe }))
          ≡ chosen sel
        → (sel.pod ≡ pod) × (sel.probe ≡ probe) × IsSynced probe
    go false fit e f q = absurd (cc)
    go true false e f q = absurd (cc)
    go true true e f q =
        let same = chosen-injective (sym q) in
        let (ready, connected, synced) =
          three_hold (is_true probe.wsrep_ready) (is_true probe.wsrep_connected)
            (str_eq probe.state_comment "Synced") f in
        (
          ap (λ (x : DonorSelection). x.pod) same,
          ap (λ (x : DonorSelection). x.probe) same,
          (
            e,
            is_true-some probe.wsrep_ready ready,
            is_true-some probe.wsrep_connected connected,
            (eq_iff _ _).0 synced,
          ),
        )

check_pod-IsSynced :
    (pod : String) (state : PodState) (probe : DonorProbe) (sel : DonorSelection)
    → check_pod pod state probe ≡ chosen sel
    → (state ≡ in_phase "Running") × (sel.pod ≡ pod) × (sel.probe ≡ probe) × IsSynced probe
check_pod-IsSynced pod absent probe sel h = absurd (cc)
check_pod-IsSynced pod (in_phase p) probe sel h = elim (Bool-cases (str_eq p "Running")) [
  | inr e ↦ absurd (let q : aborted _ ≡ chosen sel = rw e at h in cc)
  | inl e ↦
      let (is, same, good) = check_probe-IsSynced pod probe sel (rw e at h) in
      (ap in_phase ((eq_iff _ _).0 e), is, same, good)
]

-- A donor that the operator declares is accepted only if its ordinal is in range, its pod is running,
-- and the probe of that pod found it ready, connected and in sync.
pub resolve_explicit_donor-IsSynced :
    (replicas ordinal : ℕ) (pod_name : ℕ → String) (read_pod : String → PodState)
    (query : String → ℕ → Option WsrepStatus) (sel : DonorSelection)
    → resolve_explicit_donor replicas ordinal pod_name read_pod query ≡ chosen sel
    → (ordinal < replicas)
      × (sel.pod ≡ pod_name ordinal)
      × (read_pod sel.pod ≡ in_phase "Running")
      × IsSynced (probe_wsrep (read_pod sel.pod) (query sel.pod))
unfolding resolve_explicit_donor
resolve_explicit_donor-IsSynced replicas ordinal pod_name read_pod query sel h =
    elim (Bool-cases (leb replicas ordinal)) [
      | inl e ↦ absurd (let q : aborted _ ≡ chosen sel = rw e at h in cc)
      | inr e ↦
          let (up, is, same, good) = check_pod-IsSynced _ _ _ sel (rw e at h) in
          (
            ground (arith, e),
            is,
            subst (λ p. read_pod p ≡ in_phase "Running") (sym is) up,
            subst (λ p. IsSynced (probe_wsrep (read_pod p) (query p))) (sym is) good,
          )
    ]

-- A donor is selected automatically only if healing is safe, and it is the pod of an instance that
-- the triage found running, ready, connected and in sync.
pub resolve_auto_donor-IsCandidate :
    (result : TriageResult) (read_pod : String → PodState) (query : String → ℕ → Option WsrepStatus)
    (sel : DonorSelection)
    → resolve_auto_donor result read_pod query ≡ chosen sel
    → (result.data_comparison.safe_to_heal ≡ true)
      × ((a : InstanceAssessment) × Elem a result.assessments
          × (a.pod ≡ sel.pod)
          × (a.is_running ≡ true)
          × (a.wsrep_ready ≡ "ON")
          × (a.wsrep_connected ≡ "ON")
          × (a.wsrep_state_comment ≡ "Synced"))
unfolding resolve_auto_donor
resolve_auto_donor-IsCandidate result read_pod query sel h =
    go result.data_comparison.safe_to_heal (select is_candidate result.assessments) refl
      (λ a m. Elem-select is_candidate a result.assessments m) h
  where
    go :
        (safe : Bool) (l : List InstanceAssessment)
        → result.data_comparison.safe_to_heal ≡ safe
        → ((a : InstanceAssessment)
            → Elem a l
            → Elem a result.assessments × (is_candidate a ≡ true))
        → first_candidate safe (λ pod. probe_wsrep (read_pod pod) (query pod)) l ≡ chosen sel
        → (result.data_comparison.safe_to_heal ≡ true)
          × ((a : InstanceAssessment) × Elem a result.assessments
              × (a.pod ≡ sel.pod)
              × (a.is_running ≡ true)
              × (a.wsrep_ready ≡ "ON")
              × (a.wsrep_connected ≡ "ON")
              × (a.wsrep_state_comment ≡ "Synced"))
    go safe [] e all q = absurd (cc)
    go false (a ∷ l) e all q = absurd (cc)
    go true (a ∷ l) e all q =
        let (m, is) = all a (inl refl) in
        let (run, ready, connected, synced) =
          four_hold a.is_running (str_eq a.wsrep_ready "ON") (str_eq a.wsrep_connected "ON")
            (str_eq a.wsrep_state_comment "Synced") is in
        (
          e,
          (
            a,
            m,
            ap (λ (x : DonorSelection). x.pod) (chosen-injective q),
            run,
            (eq_iff _ _).0 ready,
            (eq_iff _ _).0 connected,
            (eq_iff _ _).0 synced,
          ),
        )
