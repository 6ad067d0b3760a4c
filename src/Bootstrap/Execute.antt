-- ===== src/Bootstrap/Execute.antt =====
-- `executeBootstrap` of src/engine/bootstrap/galera.go, over the outcomes of the calls: a call may
-- return an error although it took effect. The flags are the local variables that the rollback reads.
use hasteward.Prelude.{
  ℕ, zero, suc, ℤ, pos, int_ltb, select, any, map, String, Bool, true, false, ◌&&◌, not, Option,
  none, some, List, [], ◌∷◌, ◌++◌, if◌then◌else◌, str_eq,
}
use hasteward.CnpgJob.{Outcome, accepted, committed_unseen, refused}
use hasteward.GaleraTriage.{difference}
use hasteward.GaleraTriage.Data.{WsrepRecoverResult}
use hasteward.Bootstrap.Candidate.{Recoveries, build_lineage_groups, several, select_candidate}
use hasteward.Bootstrap.Gates.{NodeRead}

-- What the run changes in the cluster.
pub record BootState : Type 0 where
  pub cr_suspended : Bool
  pub lock_set : Bool
  pub replicas : ℕ
  -- The pods whose state files are marked safe to bootstrap, and the one that the resource forces.
  pub marked : List String
  pub forced : Option String
  -- The status in which the operator notes its own recovery.
  pub recovery_noted : Bool
  -- The pods whose write-set cache this run has removed.
  pub caches_gone : List String

pub record BootFlags : Type 0 where
  pub suspended : Bool
  pub gen_locked : Bool
  pub scaled_down : Bool
  pub safe_boot_marked : Bool
  pub force_patched : Bool

pub record BootCalls : Type 0 where
  -- DiscoverPVCs and the escrow gate return no error.
  pub escrowed : Bool
  pub suspend : Outcome
  pub set_lock : Outcome
  pub scale_down : Outcome
  pub wait_terminated : Bool
  pub wsrep_recover : String → Option WsrepRecoverResult
  -- The helper pods of STEP 4b and STEP 5 take effect; their errors are not read.
  pub clears_cache : String → Bool
  pub clears_flag : String → Bool
  pub mark_safe : Outcome
  pub patch_force : Outcome
  pub scale_up : Outcome
  -- The calls that undo.
  pub clear_force : Bool
  pub revert_mark : Bool
  pub clear_lock : Bool
  pub scale_back : Bool
  pub resume : Bool
  -- The cleanup after the commit: a patch succeeds or finds nothing, and the field is gone.
  pub cleanup_patch : ℕ → Bool
  pub cleanup_gone : ℕ → Bool
  pub clear_status : ℕ → Bool
  -- What the resource declares.
  pub original_replicas : ℕ

pub record BootRun : Type 0 where
  pub flags : BootFlags
  pub candidate : String
  pub cr : BootState

pub record BootEnd : Type 0 where
  pub succeeded : Bool
  -- The last candidate, once the run is past the scale up.
  pub committed : Option String
  pub final : BootState

abbrev pub no_flags : BootFlags
no_flags = record {
  suspended = false;
  gen_locked = false;
  scaled_down = false;
  safe_boot_marked = false;
  force_patched = false;
}

-- A value that a call sets back, if its flag is set and the call succeeds.
abbrev pub undo_to : {A : Type 0} → Bool → Bool → A → A → A
undo_to true true rest now = rest
undo_to true false rest now = now
undo_to false ok rest now = now

abbrev pub without : String → List String → List String
without pod l = select (λ p. not (str_eq p pod)) l

-- STEP 4b and STEP 5: the nodes whose cache and whose stale mark are to be removed.
abbrev pub max_recovered : Recoveries → ℤ
max_recovered [] = pos 0
max_recovered ((pod, r) ∷ m) =
    let rest = max_recovered m in if int_ltb rest r.seqno then r.seqno else rest

abbrev pub is_far_behind : ℤ → String → String × WsrepRecoverResult → Bool
is_far_behind best candidate (pod, r) =
    not (str_eq pod candidate)
    && int_ltb (pos 10000) (difference best r.seqno)
    && not (int_ltb r.seqno (pos 0))

unfoldable pub caches_removed : String → Recoveries → List String
caches_removed candidate m = map (λ e. e.0) (select (is_far_behind (max_recovered m) candidate) m)

unfoldable pub flags_removed : String → List NodeRead → List String
flags_removed candidate nodes =
    map (λ a. a.pod)
      (select (λ a. not (str_eq a.pod candidate) && str_eq a.safe_to_bootstrap "1") nodes)

module _ (c : BootCalls) where
  -- The force and the mark are undone before the lock, the scale and the suspension. The caches and
  -- the stale marks that were removed stay so.
  abbrev pub rescue : BootRun → BootEnd
  rescue r = record {
    succeeded = false;
    committed = none;
    final = record {
      cr_suspended = undo_to r.flags.suspended c.resume false r.cr.cr_suspended;
      lock_set = undo_to r.flags.gen_locked c.clear_lock false r.cr.lock_set;
      replicas = undo_to r.flags.scaled_down c.scale_back c.original_replicas r.cr.replicas;
      marked =
          undo_to r.flags.safe_boot_marked c.revert_mark (without r.candidate r.cr.marked)
            r.cr.marked;
      forced = undo_to r.flags.force_patched c.clear_force none r.cr.forced;
      recovery_noted = r.cr.recovery_noted;
      caches_gone = r.cr.caches_gone;
    };
  }

  -- A call with its effect and its flag: an error rolls back, with the flag unset.
  abbrev pub attempt :
      Outcome
      → (BootState → BootState)
      → (BootFlags → BootFlags)
      → (BootRun → BootEnd)
      → BootRun
      → BootEnd
  attempt accepted effect flag next r = next (record r { flags = flag r.flags; cr = effect r.cr })
  attempt committed_unseen effect flag next r = rescue (record r { cr = effect r.cr })
  attempt refused effect flag next r = rescue r

  abbrev pub guard : Bool → (BootRun → BootEnd) → BootRun → BootEnd
  guard true next r = next r
  guard false next r = rescue r

  abbrev pub with_candidate : Option String → (String → BootRun → BootEnd) → BootRun → BootEnd
  with_candidate none next r = rescue r
  with_candidate (some pod) next r = next pod (record r { candidate = pod })

  -- STEP 4. A recovery that fails leaves its node out.
  abbrev pub add_recovery : String → Option WsrepRecoverResult → Recoveries → Recoveries
  add_recovery pod none m = m
  add_recovery pod (some r) m = (pod, r) ∷ m

  unfoldable pub recover_nodes : List NodeRead → Recoveries
  recover_nodes [] = []
  recover_nodes (a ∷ as') = add_recovery a.pod (c.wsrep_recover a.pod) (recover_nodes as')

  -- STEP 10, with the attempts that are left.
  unfoldable pub clean_force : ℕ → ℕ → BootState → BootState
  clean_force zero i s = s
  clean_force (suc left) i s =
      let later = clean_force left (suc i) s in
      let gone = record s { forced = none } in
      if c.cleanup_patch i
      then if c.cleanup_gone i then gone else clean_force left (suc i) gone
      else later

  unfoldable pub clean_status : ℕ → ℕ → BootState → BootState
  clean_status zero i s = s
  clean_status (suc left) i s =
      let later = clean_status left (suc i) s in
      if c.clear_status i then record s { recovery_noted = false } else later

  -- From the commit on there is no rollback.
  unfoldable pub after_commit : String → BootRun → BootEnd
  after_commit pod r =
      let s1 = clean_status 5 0 (clean_force 5 0 r.cr) in
      let s2 = if c.clear_lock then record s1 { lock_set = false } else s1 in
      let s3 = if c.resume then record s2 { cr_suspended = false } else s2 in
      record { succeeded = true; committed = some pod; final = s3 }

  -- STEP 6 to STEP 8.
  unfoldable pub mark_and_force : String → BootRun → BootEnd
  mark_and_force pod =
      attempt c.mark_safe
        (λ s. record s { marked = pod ∷ s.marked; caches_gone = pod ∷ s.caches_gone })
        (λ f. record f { safe_boot_marked = true })
        (attempt c.patch_force (λ s. record s { forced = some pod })
          (λ f. record f { force_patched = true })
          (attempt c.scale_up (λ s. record s { replicas = c.original_replicas })
            (λ f. record f { scaled_down = false }) (after_commit pod)))

  abbrev pub is_assessed : List NodeRead → String → Bool
  is_assessed nodes pod = any (λ a. str_eq a.pod pod) nodes

  abbrev pub positions : List NodeRead → List (String × ℤ)
  positions nodes = map (λ a. (a.pod, a.effective_seqno)) nodes

  abbrev pub clear_stale : List NodeRead → String → Recoveries → BootRun → BootRun
  clear_stale nodes pod m r =
      let cleared = select c.clears_flag (flags_removed pod nodes) in
      record r {
        cr = record r.cr {
          caches_gone = select c.clears_cache (caches_removed pod m) ++ r.cr.caches_gone;
          marked = select (λ p. not (any (str_eq p) cleared)) r.cr.marked;
        };
      }

  -- STEP 4 to the validation of the candidate.
  unfoldable pub choose_and_go :
      List NodeRead → String → (belly_up force : Bool) → BootRun → BootEnd
  choose_and_go nodes candidate belly_up force =
      let m = recover_nodes nodes in
      with_candidate (select_candidate candidate (positions nodes) m force) (λ pod.
        guard (not (belly_up && (not force && several (build_lineage_groups m))))
          (guard (is_assessed nodes pod) (λ r. mark_and_force pod (clear_stale nodes pod m r))))

  -- STEP 1 to STEP 3.
  unfoldable pub fence_and_choose :
      List NodeRead → String → (belly_up force : Bool) → BootRun → BootEnd
  fence_and_choose nodes candidate belly_up force =
      attempt c.suspend (λ s. record s { cr_suspended = true }) (λ f. record f { suspended = true })
        (attempt c.set_lock (λ s. record s { lock_set = true })
          (λ f. record f { gen_locked = true })
          (attempt c.scale_down (λ s. record s { replicas = 0 })
            (λ f. record f { scaled_down = true })
            (guard c.wait_terminated (choose_and_go nodes candidate belly_up force))))

  abbrev pub if_escrowed : Bool → BootState → BootEnd → BootEnd
  if_escrowed true start rest = rest
  if_escrowed false start rest = record { succeeded = false; committed = none; final = start }

  unfoldable pub execute_bootstrap :
      List NodeRead → String → (belly_up force : Bool) → BootState → BootEnd
  execute_bootstrap nodes candidate belly_up force start = if_escrowed c.escrowed start (
      fence_and_choose nodes candidate belly_up force
        (record { flags = no_flags; candidate = candidate; cr = start }))
