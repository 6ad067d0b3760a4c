-- ===== src/GaleraTriage/Fence.antt =====
-- The fenced recovery reads a node's position only inside the fence, and takes the fence down again
-- (src/engine/triage/galera.go).
use hasteward.Prelude.{
  ℕ, Bool, true, false, ◌||◌, List, [], ◌∷◌, ◌++◌, ◌≡◌, refl, sym, ◌∙◌, ap, subst, ◌⊎◌, inl, inr,
  Bool-cases,
}
use hasteward.CnpgJob.{Outcome, accepted, committed_unseen, refused}
use hasteward.Triage.{is_empty}
use hasteward.GaleraTriage.Data.{Grastate, GaleraTriageData}
use hasteward.GaleraTriage.DeepRecovery.{
  FenceEvent, lock_taken, lock_cleared, cr_suspended, cr_resumed, pods_terminated,
  recovery_pods_deleted, scaled, recover_run, FenceCalls, Recovered, record_position, recover_each,
  when, around, awaited, after_deletion, after_scale_down, after_suspend, after_fence_lock,
  deep_recover, any_serving, is_anything_alive, must_not_fence, maybe_deep_recover,
}

abbrev pub is_unseen : Outcome → Bool
is_unseen committed_unseen = true
is_unseen _ = false

-- What the events make of the cluster.
pub record FenceState : Type 0 where
  pub locked : Bool
  pub suspended : Bool
  pub terminated : Bool
  pub replicas : ℕ

abbrev pub replay : FenceEvent → FenceState → FenceState
replay lock_taken s = record {
  locked = true;
  suspended = s.suspended;
  terminated = s.terminated;
  replicas = s.replicas;
}
replay lock_cleared s = record {
  locked = false;
  suspended = s.suspended;
  terminated = s.terminated;
  replicas = s.replicas;
}
replay cr_suspended s = record {
  locked = s.locked;
  suspended = true;
  terminated = s.terminated;
  replicas = s.replicas;
}
replay cr_resumed s = record {
  locked = s.locked;
  suspended = false;
  terminated = s.terminated;
  replicas = s.replicas;
}
replay pods_terminated s = record {
  locked = s.locked;
  suspended = s.suspended;
  terminated = true;
  replicas = s.replicas;
}
replay (scaled n) s = record {
  locked = s.locked;
  suspended = s.suspended;
  terminated = false;
  replicas = n;
}
replay recovery_pods_deleted s = s
replay (recover_run pod) s = s

abbrev pub replay_all : List FenceEvent → FenceState → FenceState
replay_all [] s = s
replay_all (e ∷ es) s = replay_all es (replay e s)

-- A state in which a run of the recovery reads data that no server holds open.
abbrev pub IsFenced : FenceState → Type 0
IsFenced s = (s.locked ≡ true) × ((s.suspended ≡ true) × ((s.terminated ≡ true) × (s.replicas ≡ 0)))

abbrev pub Demand : FenceEvent → FenceState → Type 0
Demand (recover_run pod) s = IsFenced s
Demand e s = Unit

-- Each run of the recovery happens in a fenced state.
abbrev pub IsGuarded : FenceState → List FenceEvent → Type 0
IsGuarded s [] = Unit
IsGuarded s (e ∷ es) = Demand e s × IsGuarded (replay e s) es

-- The cluster serves with its replicas and no fence.
abbrev pub up : ℕ → FenceState
up n = record { locked = false; suspended = false; terminated = false; replicas = n }

abbrev fenced : FenceState
fenced = record { locked = true; suspended = true; terminated = true; replicas = 0 }

replay_all-append :
    (xs ys : List FenceEvent) (s : FenceState)
    → replay_all (xs ++ ys) s ≡ replay_all ys (replay_all xs s)
replay_all-append [] ys s = refl
replay_all-append (x ∷ xs) ys s = replay_all-append xs ys (replay x s)

IsGuarded-append :
    (xs ys : List FenceEvent) (s : FenceState)
    → IsGuarded s xs
    → IsGuarded (replay_all xs s) ys
    → IsGuarded s (xs ++ ys)
IsGuarded-append [] ys s g h = h
IsGuarded-append (x ∷ xs) ys s g h = (g.0, IsGuarded-append xs ys (replay x s) g.1 h)

-- The body is guarded and comes back to the state in which it starts.
abbrev Returns : FenceState → List FenceEvent → FenceState → Type 0
Returns s es t = IsGuarded s es × (replay_all es s ≡ t)

Returns-append :
    (xs ys : List FenceEvent) (s t u : FenceState)
    → Returns s xs t
    → Returns t ys u
    → Returns s (xs ++ ys) u
Returns-append xs ys s t u (g, e) (h, f) = (
  IsGuarded-append xs ys s g (subst (λ z. IsGuarded z ys) (sym e) h),
  replay_all-append xs ys s ∙ (ap (replay_all ys) e ∙ f),
)

recover_each-Returns :
    (e : FenceCalls) (gs : List Grastate) (m : Recovered)
    → Returns fenced (recover_each e gs m).0 fenced
unfolding recover_each
recover_each-Returns e [] m = ((tt, tt), refl)
recover_each-Returns e (g ∷ gs) m =
    let (guarded, back) = recover_each-Returns e gs (record_position g.pod _ m) in
    (((refl, (refl, (refl, refl))), guarded), back)

when-IsGuarded :
    (ok : Bool) (e : FenceEvent) (s : FenceState) → Demand e s → IsGuarded s (when ok e)
when-IsGuarded true e s d = (d, tt)
when-IsGuarded false e s d = tt

around-IsGuarded :
    (o : Outcome) (event : FenceEvent) (after : List FenceEvent)
    (body : List FenceEvent × Recovered) (m : Recovered)
    → (s : FenceState) → Demand event s
    → IsGuarded (replay event s) body.0
    → ((t : FenceState) → IsGuarded t after)
    → IsGuarded s (around o event after body m).0
around-IsGuarded accepted event after body m s d g a = (d, IsGuarded-append body.0 after _ g (a _))
around-IsGuarded committed_unseen event after body m s d g a = (d, tt)
around-IsGuarded refused event after body m s d g a = tt

-- Around a body that comes back to `u`, from which the deferred call leads back.
around-restores :
    (o : Outcome) (event : FenceEvent) (after : List FenceEvent)
    (body : List FenceEvent × Recovered) (m : Recovered)
    → (s u : FenceState) → is_unseen o ≡ false
    → replay_all body.0 (replay event s) ≡ u
    → replay_all after u ≡ s
    → replay_all (around o event after body m).0 s ≡ s
around-restores accepted event after body m s u seen e f =
    replay_all-append body.0 after _ ∙ (ap (replay_all after) e ∙ f)
around-restores committed_unseen event after body m s u seen e f = absurd (cc)
around-restores refused event after body m s u seen e f = refl

deferred :
    (ok : Bool) (e : FenceEvent) (t s : FenceState)
    → ok ≡ true
    → replay e t ≡ s
    → replay_all (when ok e) t ≡ s
deferred true e t s h back = back
deferred false e t s h back = absurd (cc)

or_false : (a b : Bool) → (a || b) ≡ false → (a ≡ false) × (b ≡ false)
or_false true b h = absurd (cc)
or_false false b h = (refl, h)

module _ (e : FenceCalls) (gs : List Grastate) (m : Recovered) where
  abbrev locked_up : FenceState
  locked_up = record { locked = true; suspended = false; terminated = false; replicas = e.replicas }

  abbrev suspended_up : FenceState
  suspended_up = record {
    locked = true;
    suspended = true;
    terminated = false;
    replicas = e.replicas;
  }

  abbrev scaled_down : FenceState
  scaled_down = record { locked = true; suspended = true; terminated = false; replicas = 0 }

  after_scale_down-IsGuarded : IsGuarded scaled_down (after_scale_down e gs m).0
  unfolding after_scale_down
  after_scale_down-IsGuarded = go e.wait_ok
    where
      go : (ok : Bool) → IsGuarded scaled_down (awaited ok (recover_each e gs m) m).0
      go true = (tt, (recover_each-Returns e gs m).0)
      go false = tt

  deep_recover-IsGuarded : IsGuarded (up e.replicas) (deep_recover e gs m).0
  unfolding deep_recover after_fence_lock after_suspend
  deep_recover-IsGuarded =
      around-IsGuarded e.acquire lock_taken _ _ m (up e.replicas) tt
        (around-IsGuarded e.suspend cr_suspended _ (after_deletion e gs m) m locked_up tt
          (
            tt,
            around-IsGuarded e.scale_down (scaled 0) _ _ m suspended_up tt
                after_scale_down-IsGuarded
                (λ t. when-IsGuarded e.scale_up_ok (scaled e.replicas) t tt),
          )
          (λ t. when-IsGuarded e.resume_ok cr_resumed t tt))
        (λ t. when-IsGuarded e.clear_ok lock_cleared t tt)

  -- Whether the wait for the pods' end succeeds or not, the scale back up leads to one state.
  after_scale_down-ends :
      (t : FenceState) × ((replay_all (after_scale_down e gs m).0 scaled_down ≡ t)
        × (replay (scaled e.replicas) t ≡ suspended_up))
  unfolding after_scale_down
  after_scale_down-ends = ends e.wait_ok
    where
      ends :
          (ok : Bool)
          → (t : FenceState) × ((replay_all (awaited ok (recover_each e gs m) m).0 scaled_down ≡ t)
              × (replay (scaled e.replicas) t ≡ suspended_up))
      ends true = (fenced, ((recover_each-Returns e gs m).1, refl))
      ends false = (scaled_down, (refl, refl))

  deep_recover-restores :
      e.scale_up_ok ≡ true
      → e.resume_ok ≡ true
      → e.clear_ok ≡ true
      → (is_unseen e.acquire || (is_unseen e.suspend || is_unseen e.scale_down)) ≡ false
      → replay_all (deep_recover e gs m).0 (up e.replicas) ≡ up e.replicas
  unfolding deep_recover after_fence_lock after_suspend
  deep_recover-restores scale_up resume clear seen =
      let (t, (ends, back)) = after_scale_down-ends in
      let (a, rest) = or_false (is_unseen e.acquire) _ seen in
      let (b, d) = or_false (is_unseen e.suspend) _ rest in
      around-restores e.acquire lock_taken _ _ m (up e.replicas) locked_up a
        (around-restores e.suspend cr_suspended _ (after_deletion e gs m) m locked_up suspended_up b
          (around-restores e.scale_down (scaled 0) _ _ m suspended_up t d ends
            (deferred e.scale_up_ok _ t suspended_up scale_up back))
          (deferred e.resume_ok cr_resumed suspended_up locked_up resume refl))
        (deferred e.clear_ok lock_cleared locked_up (up e.replicas) clear refl)

-- The events lead back to the cluster as it was, unless one of the three undoing calls fails, or one of
-- the three calls that make the fence took effect with an error.
abbrev pub Restores : FenceCalls → List FenceEvent → Type 0
Restores e es =
    (replay_all es (up e.replicas) ≡ up e.replicas)
    ⊎ ((e.scale_up_ok ≡ false)
        ⊎ ((e.resume_ok ≡ false)
            ⊎ ((e.clear_ok ≡ false)
                ⊎ ((is_unseen e.acquire || (is_unseen e.suspend || is_unseen e.scale_down))
                    ≡ true))))

deep_recover-Restores :
    (e : FenceCalls) (gs : List Grastate) (m : Recovered) → Restores e (deep_recover e gs m).0
deep_recover-Restores e gs m = elim (Bool-cases e.scale_up_ok) [
  | inr f ↦ inr (inl f)
  | inl scale_up ↦ elim (Bool-cases e.resume_ok) [
    | inr f ↦ inr (inr (inl f))
    | inl resume ↦ elim (Bool-cases e.clear_ok) [
      | inr f ↦ inr (inr (inr (inl f)))
      | inl clear ↦
          elim (Bool-cases
            (is_unseen e.acquire || (is_unseen e.suspend || is_unseen e.scale_down))) [
              | inl u ↦ inr (inr (inr (inr u)))
              | inr seen ↦ inl (deep_recover-restores e gs m scale_up resume clear seen)
            ]
    ]
  ]
]

-- The triage runs the recovery of a node only while it holds the lock with the operator suspended,
-- the pods terminated and no replica left. On every exit the cluster is as it was, with its replicas
-- and no fence, unless the scale back up, the resumption or the clearing of the lock fails, or the lock,
-- the suspension or the scale down took effect although it returned an error. And it touches nothing
-- unless no node is alive and no pod answers.
pub maybe_deep_recover-IsGuarded :
    (e : FenceCalls) (d : GaleraTriageData)
    → IsGuarded (up e.replicas) (maybe_deep_recover e d).0
      × (Restores e (maybe_deep_recover e d).0
          × (((maybe_deep_recover e d).0 ≡ [])
              ⊎ ((is_anything_alive d ≡ false) × (any_serving e d.running_pods ≡ false))))
unfolding maybe_deep_recover
maybe_deep_recover-IsGuarded e d = elim (Bool-cases (must_not_fence e d)) [
  | inl t ↦ rw t (tt, (inl refl, inl refl))
  | inr f ↦
      let (dead, rest) = or_false (is_anything_alive d) _ f in
      let (some_data, silent) = or_false (is_empty d.grastate_data) _ rest in
      rw f (
        deep_recover-IsGuarded e d.grastate_data d.wsrep_recovered,
        (deep_recover-Restores e d.grastate_data d.wsrep_recovered, inr (dead, silent)),
      )
]
