-- ===== src/Repair/Reseeding.antt =====
-- When a Galera node is wiped, and how the heal ends (`healNode` of src/engine/repair/galera.go).
use hasteward.Prelude.{
  suc, ltb, Bool, true, false, ◌&&◌, ◌||◌, not, [], ◌≡◌, refl, ◌∙◌, ◌⊎◌, inl, inr, Bool-cases,
  arith,
}
use hasteward.CnpgJob.{Outcome, accepted, committed_unseen, refused}
use hasteward.Repair.HealNode.{
  storage_written, config_removed, HealState, NodeCalls, NodeRun, NodeEnd, run_helper_with_retry,
  wait_ready, revert, join_target_exists, node_rescue, try_call, guarded, resumed_run, scaled_back,
  scaled_to, log_step, await_ready, resume_after, scale_back_up, confirm_helpers, clear_config,
  write_storage, release_volume, suspend_by, suspend_unless, if_joinable, if_highest, heal_node,
}

module _ (c : NodeCalls) where
  -- Scaled and resumed as if nothing had been done to the cluster.
  abbrev pub IsRestored : HealState → Type 0
  IsRestored s =
      (s.cr_suspended ≡ false) × ((s.replicas ≡ c.original) × (s.marked_suspended ≡ false))

  -- A call of the rescue fails, or one that scales or suspends takes effect with an error.
  abbrev pub IsUpset : Type 0
  IsUpset =
      ((c.rescue_scale && c.rescue_resume) ≡ false)
      ⊎ ((c.scale_down ≡ committed_unseen) ⊎ (c.suspend_cr ≡ committed_unseen))

  -- What stands before the volume is written.
  abbrev pub IsReleased : Type 0
  IsReleased = (c.scale_down ≡ accepted) × (c.target_gone ≡ true)

  abbrev pub IsJoinable : Type 0
  IsJoinable = (ltb (suc c.instance_num) c.original ≡ false) × (join_target_exists c c.donor ≡ true)

  abbrev pub IsEnded : NodeEnd → Type 0
  IsEnded e =
      ((e.healed ≡ false) ⊎ (wait_ready c.pod_ready c.heal_rounds 0 ≡ true))
      × (((e.reached.steps ≡ []) ⊎ IsReleased) × (IsRestored e.reached ⊎ IsUpset))

  abbrev pub IsReseeded : HealState → NodeEnd → Type 0
  IsReseeded s e =
      ((e.healed ≡ false)
        × ((e.reached.steps ≡ s.steps) × ((e.reached ≡ s) ⊎ (c.suspend_cr ≡ committed_unseen))))
      ⊎ (IsJoinable × IsEnded e)

  -- What the rescue can go back from.
  abbrev IsHeld : NodeRun → Type 0
  IsHeld r = (r.suspended ≡ true) × ((r.scaled_down ≡ true) ⊎ (r.node.replicas ≡ c.original))

  -- The rescue of a suspended run, by the answers of its calls.
  abbrev rescued : Bool → Bool → Bool → HealState → HealState
  rescued sc a b n =
      revert true true (λ s. record s { marked_suspended = false })
        (revert true b (λ s. record s { cr_suspended = false })
          (revert sc a (λ s. record s { replicas = c.original }) n))

  rescued-IsEnded :
      (sc a b : Bool) (n : HealState)
      → c.rescue_scale ≡ a
      → c.rescue_resume ≡ b
      → (sc ≡ true) ⊎ (n.replicas ≡ c.original)
      → (n.steps ≡ []) ⊎ IsReleased
      → IsEnded (record { healed = false; reached = rescued sc a b n })
  rescued-IsEnded true true true n p q k l = (inl refl, (l, inl (refl, (refl, refl))))
  rescued-IsEnded false true true n p q (inl e) l = absurd (cc)
  rescued-IsEnded false true true n p q (inr e) l = (inl refl, (l, inl (refl, (e, refl))))
  rescued-IsEnded false false true n p q (inl e) l = absurd (cc)
  rescued-IsEnded false false true n p q (inr e) l = (inl refl, (l, inl (refl, (e, refl))))
  rescued-IsEnded true false true n p q k l = (inl refl, (l, inr (inl (ground arith))))
  rescued-IsEnded true true false n p q k l = (inl refl, (l, inr (inl (ground arith))))
  rescued-IsEnded true false false n p q k l = (inl refl, (l, inr (inl (ground arith))))
  rescued-IsEnded false true false n p q k l = (inl refl, (l, inr (inl (ground arith))))
  rescued-IsEnded false false false n p q k l = (inl refl, (l, inr (inl (ground arith))))

  node_rescue-IsEnded :
      (r : NodeRun) → IsHeld r → (r.node.steps ≡ []) ⊎ IsReleased → IsEnded (node_rescue c r)
  node_rescue-IsEnded r held l =
      rw (held.0)
        (rescued-IsEnded r.scaled_down c.rescue_scale c.rescue_resume r.node refl refl held.1 l)

  await_ready-IsEnded :
      (r : NodeRun)
      → IsRestored r.node
      → (r.node.steps ≡ []) ⊎ IsReleased
      → IsEnded (await_ready c r)
  await_ready-IsEnded r ok l = elim (Bool-cases (wait_ready c.pod_ready c.heal_rounds 0)) [
    | inl e ↦ (inr e, (l, inl ok))
    | inr e ↦ (inl e, (l, inl ok))
  ]

  -- A call whose failure leaves the run as it was, or with its effect.
  try_call-IsEnded :
      (o : Outcome) (done r : NodeRun) (next : NodeRun → NodeEnd)
      → IsEnded (node_rescue c r)
      → (o ≡ committed_unseen → IsEnded (node_rescue c (record r { node = done.node })))
      → (o ≡ accepted → IsEnded (next done))
      → IsEnded (try_call c o done next r)
  try_call-IsEnded accepted done r next back unseen on = on refl
  try_call-IsEnded committed_unseen done r next back unseen on = unseen refl
  try_call-IsEnded refused done r next back unseen on = back

  guarded-IsEnded :
      (b : Bool) (next : NodeRun → NodeEnd) (r : NodeRun)
      → IsEnded (node_rescue c r)
      → (b ≡ true → IsEnded (next r))
      → IsEnded (guarded c b next r)
  guarded-IsEnded true next r back good = good refl
  guarded-IsEnded false next r back good = back

  rescued-steps : (sc a b : Bool) (n : HealState) → (rescued sc a b n).steps ≡ n.steps
  rescued-steps true true true n = refl
  rescued-steps true true false n = refl
  rescued-steps true false true n = refl
  rescued-steps true false false n = refl
  rescued-steps false a true n = refl
  rescued-steps false a false n = refl

  -- A rescue in a run that is upset anyway.
  node_rescue-upset :
      (sc : Bool) (n : HealState)
      → IsUpset
      → n.steps ≡ []
      → IsEnded (node_rescue c (record { suspended = true; scaled_down = sc; node = n }))
  node_rescue-upset sc n up e =
      (inl refl, (inl (rescued-steps sc c.rescue_scale c.rescue_resume n ∙ e), inr up))

  resume_after-IsEnded :
      (r : NodeRun)
      → r.suspended ≡ true
      → r.node.replicas ≡ c.original
      → (r.node.steps ≡ []) ⊎ IsReleased
      → IsEnded (resume_after c r)
  resume_after-IsEnded r su rep l =
      try_call-IsEnded c.resume_cr (resumed_run c r) r (await_ready c)
        (node_rescue-IsEnded r (su, inr rep) l)
        (λ e. node_rescue-IsEnded (record r { node = (resumed_run c r).node }) (su, inr rep) l)
        (λ e. await_ready-IsEnded (resumed_run c r) (refl, (rep, refl)) l)

  scale_back_up-IsEnded :
      (r : NodeRun)
      → r.suspended ≡ true
      → r.scaled_down ≡ true
      → IsReleased
      → IsEnded (scale_back_up c r)
  scale_back_up-IsEnded r su sc rel =
      try_call-IsEnded c.scale_up (scaled_back c r) r (resume_after c)
        (node_rescue-IsEnded r (su, inl sc) (inr rel))
        (λ e.
          node_rescue-IsEnded (record r { node = (scaled_back c r).node }) (su, inl sc) (inr rel))
        (λ e. resume_after-IsEnded (scaled_back c r) su refl (inr rel))

  confirm_helpers-IsEnded :
      (r : NodeRun)
      → r.suspended ≡ true
      → r.scaled_down ≡ true
      → IsReleased
      → IsEnded (confirm_helpers c r)
  confirm_helpers-IsEnded r su sc rel =
      let back = node_rescue-IsEnded r (su, inl sc) (inr rel) in
      guarded-IsEnded c.storage_helper_gone
        (guarded c (not c.has_galera_pvc || c.galera_helper_gone) (scale_back_up c)) r back
        (λ e.
          guarded-IsEnded (not c.has_galera_pvc || c.galera_helper_gone) (scale_back_up c) r back
            (λ f. scale_back_up-IsEnded r su sc rel))

  clear_config-IsEnded :
      (b : Bool) (r : NodeRun)
      → r.suspended ≡ true
      → r.scaled_down ≡ true
      → IsReleased
      → IsEnded (clear_config c b r)
  clear_config-IsEnded false r su sc rel = confirm_helpers-IsEnded r su sc rel
  clear_config-IsEnded true r su sc rel =
      guarded-IsEnded (run_helper_with_retry c.galera_helper 3 1) (confirm_helpers c)
        (log_step c config_removed r)
        (node_rescue-IsEnded (log_step c config_removed r) (su, inl sc) (inr rel))
        (λ e. confirm_helpers-IsEnded (log_step c config_removed r) su sc rel)

  write_storage-IsEnded :
      (r : NodeRun)
      → r.suspended ≡ true
      → r.scaled_down ≡ true
      → IsReleased
      → IsEnded (write_storage c r)
  write_storage-IsEnded r su sc rel =
      guarded-IsEnded (run_helper_with_retry c.storage_helper 3 1) (clear_config c c.has_galera_pvc)
        (log_step c storage_written r)
        (node_rescue-IsEnded (log_step c storage_written r) (su, inl sc) (inr rel))
        (λ e. clear_config-IsEnded c.has_galera_pvc (log_step c storage_written r) su sc rel)

  release_volume-IsEnded :
      (n : HealState)
      → n.replicas ≡ c.original
      → n.steps ≡ []
      → IsEnded (release_volume c (record { suspended = true; scaled_down = false; node = n }))
  release_volume-IsEnded n rep e =
      let r : NodeRun = record { suspended = true; scaled_down = false; node = n } in
      try_call-IsEnded c.scale_down (scaled_to c r) r (guarded c c.target_gone (write_storage c))
        (node_rescue-IsEnded r (refl, inr rep) (inl e))
        (λ q. node_rescue-upset false (scaled_to c r).node (inr (inl q)) e)
        (λ q.
          guarded-IsEnded c.target_gone (write_storage c) (scaled_to c r)
            (node_rescue-IsEnded (scaled_to c r) (refl, inl refl) (inl e))
            (λ g. write_storage-IsEnded (scaled_to c r) refl refl (q, g)))

  -- The state before a heal: suspended exactly if the run has suspended the resource.
  abbrev pub fresh : Bool → HealState
  fresh held = record {
    cr_suspended = held;
    replicas = c.original;
    marked_suspended = held;
    steps = [];
  }

  suspend_unless-IsReseeded :
      (held : Bool) → IsJoinable → IsReseeded (fresh held) (suspend_unless c held (fresh held))
  suspend_unless-IsReseeded true j = inr (j, release_volume-IsEnded (fresh true) refl refl)
  suspend_unless-IsReseeded false j = go c.suspend_cr refl
    where
      go :
          (o : Outcome) → c.suspend_cr ≡ o → IsReseeded (fresh false) (suspend_by c o (fresh false))
      go accepted e = inr (
        j,
        release_volume-IsEnded
            (record (fresh false) { cr_suspended = true; marked_suspended = true }) refl refl,
      )
      go committed_unseen e = inl (refl, (refl, inr e))
      go refused e = inl (refl, (refl, inl refl))

  -- The heal of a node writes on its volume only if its ordinal is the highest one or above, a donor was
  -- probed in sync or another pod runs, the scale down was accepted and the pod is gone. It reports
  -- success only once a poll saw the pod ready. A heal that is refused, or whose suspension fails,
  -- leaves the state as it was, suspended if the safety gate had suspended it, unless the suspension took
  -- effect with an error. However any other one ends, the cluster is scaled and resumed again, unless a
  -- call of the rescue fails, or a scale down or the suspension took effect with an error.
  pub heal_node-IsReseeded : (held : Bool) → IsReseeded (fresh held) (heal_node c (fresh held))
  unfolding heal_node
  heal_node-IsReseeded held = go (ltb (suc c.instance_num) c.original) refl
    where
      join :
          (b : Bool)
          → ltb (suc c.instance_num) c.original ≡ false
          → join_target_exists c c.donor ≡ b
          → IsReseeded (fresh held) (if_joinable c b (fresh held))
      join false e j = inl (refl, (refl, inl refl))
      join true e j = suspend_unless-IsReseeded held (e, j)

      go :
          (b : Bool)
          → ltb (suc c.instance_num) c.original ≡ b
          → IsReseeded (fresh held) (if_highest c b (fresh held))
      go true e = inl (refl, (refl, inl refl))
      go false e = join (join_target_exists c c.donor) e refl
