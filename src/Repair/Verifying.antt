-- ===== src/Repair/Verifying.antt =====
-- The verification after a heal ends by its deadline, and what its success means
-- (src/engine/repair/verify.go, cnpg.go and galera.go).
use hasteward.Prelude.{
  any-Elem, select-none, ℕ, zero, suc, ◌+◌, ◌≤◌, ◌<◌, ltb→lt, any, String, Bool, true, false,
  Option, none, some, List, [], ◌∷◌, str_eq, eq_iff, ◌≡◌, refl, ap, ◌⊎◌, inl, inr, Elem, All,
  All-intro, Bool-cases, arith,
}
use hasteward.Repair.Waiting.{
  Probed, unreadable, waiting_on, Wait, recovered, Attempts, wait_on, after_probe, await_from,
  await_recovery, Replication, strands, read_streams, read_primary, probe_cnpg, Verified,
  verified_ok, could_not_verify, not_recovered, verdict_cnpg, attempts_of, verify_cnpg, judged,
}

-- Something is still reported: pods, or an error.
abbrev IsPending : Wait → Type 0
IsPending w =
    ((p : String) × ((ps : List String) × (w.pending ≡ some (p ∷ ps))))
    ⊎ ((w.pending ≡ none) × (w.failed ≡ true))

abbrev IsSeen : Wait → Type 0
IsSeen w = ((p : String) × ((ps : List String) × (w.pending ≡ some (p ∷ ps)))) ⊎ (w.pending ≡ none)

module _ (a : Attempts) where
  -- Nothing was pending at some attempt, or the wait ended with something pending.
  abbrev Ended : Wait → Type 0
  Ended r = ((r ≡ recovered) × ((n : ℕ) × (a.probe n ≡ waiting_on []))) ⊎ IsPending r

  abbrev Ends : Option Wait → Type 0
  Ends o = (r : Wait) × ((o ≡ some r) × Ended r)

  wait_on-Ends :
      (more interrupted : Bool) (w : Wait) (rest : Option Wait)
      → IsPending w
      → (more ≡ true → Ends rest)
      → Ends (wait_on more interrupted w rest)
  wait_on-Ends false interrupted w rest p h = (w, (refl, inr p))
  wait_on-Ends true true w rest (inl p) h =
      (record { pending = w.pending; failed = true }, (refl, inr (inl p)))
  wait_on-Ends true true w rest (inr p) h =
      (record { pending = w.pending; failed = true }, (refl, inr (inr (p.0, refl))))
  wait_on-Ends true false w rest p h = h refl

  fail-IsPending : (w : Wait) → IsSeen w → IsPending (record { pending = w.pending; failed = true })
  fail-IsPending w (inl p) = inl p
  fail-IsPending w (inr e) = inr (e, refl)

  IsPending-IsSeen : (w : Wait) → IsPending w → IsSeen w
  IsPending-IsSeen w (inl p) = inl p
  IsPending-IsSeen w (inr e) = inr e.0

  turn :
      (i : ℕ) (w : Wait) (more interrupted : Bool) (rest : Wait → Option Wait) (p : Probed)
      → a.probe i ≡ p
      → IsSeen w
      → ((seen : Wait) → IsPending seen → more ≡ true → Ends (rest seen))
      → Ends (elim (after_probe p w) [
        | none ↦ some recovered
        | some seen ↦ wait_on more interrupted seen (rest seen)
      ])
  turn i w more interrupted rest unreadable e s h =
      let failed = fail-IsPending w s in wait_on-Ends more interrupted _ _ failed (h _ failed)
  turn i w more interrupted rest (waiting_on []) e s h = (recovered, (refl, inl (refl, (i, e))))
  turn i w more interrupted rest (waiting_on (p ∷ ps)) e s h =
      let left : IsPending (record { pending = some (p ∷ ps); failed = false }) =
        inl (p, (ps, refl)) in
      wait_on-Ends more interrupted _ _ left (h _ left)

  module _ (ticks : (i : ℕ) → a.clock i + a.interval ≤ a.clock (suc i))
      (spaced : 0 < a.interval) where
    await_from-Ends :
        (fuel i : ℕ) (w : Wait)
        → a.deadline ≤ a.clock i + fuel
        → IsSeen w
        → Ends (await_from a (suc fuel) i w)
    unfolding await_from
    await_from-Ends zero i w le s =
        turn i w _ (a.interrupted i) _ (a.probe i) refl s
          (λ seen p more. absurd (omega (arith, ltb→lt _ _ more, le, spaced)))
    await_from-Ends (suc fuel) i w le s =
        turn i w _ (a.interrupted i) _ (a.probe i) refl s (λ seen p more.
          await_from-Ends fuel (suc i) seen (omega (arith, ticks i, le, spaced))
            (IsPending-IsSeen seen p))

-- The read names a primary, and each pod is the primary or streams from it.
abbrev pub Streams : List String → Replication → Type 0
Streams healed r =
    (p : String) × ((s : List String) × ((r.primary ≡ some p)
        × ((r.streaming ≡ some s) × All (λ pod. (pod ≡ p) ⊎ Elem pod s) healed)))

strands-false :
    (p : String) (s : List String) (pod : String) → strands p s pod ≡ false → (pod ≡ p) ⊎ Elem pod s
strands-false p s pod h = elim (Bool-cases (str_eq pod p)) [
  | inl t ↦ inl ((eq_iff pod p).0 t)
  | inr f ↦ elim (Bool-cases (any (str_eq pod) s)) [
    | inl t ↦ inr (any-Elem pod s t)
    | inr g ↦ let h' = rw (f, g) at h in absurd (cc)
  ]
]

waiting_on-none : (pods : List String) → waiting_on pods ≡ waiting_on [] → pods ≡ []
waiting_on-none [] e = refl
waiting_on-none (p ∷ ps) e = absurd (cc)

read_streams-Streams :
    (healed : List String) (r : Replication) (p : String) (unnamed : Bool)
    → (streaming : Option (List String)) → r.primary ≡ some p
    → r.streaming ≡ streaming
    → read_streams healed p unnamed streaming ≡ waiting_on []
    → Streams healed r
read_streams-Streams healed r p true streaming e f h = absurd (cc)
read_streams-Streams healed r p false none e f h = absurd (cc)
read_streams-Streams healed r p false (some s) e f h =
    let left = waiting_on-none _ h in
    (
      p,
      (
        s,
        (
          e,
          (
            f,
            All-intro _ healed
                (λ pod m. strands-false p s pod (select-none (strands p s) pod healed left m)),
          ),
        ),
      ),
    )

probe_cnpg-Streams :
    (healed : List String) (r : Replication)
    → probe_cnpg healed r ≡ waiting_on []
    → Streams healed r
unfolding probe_cnpg
probe_cnpg-Streams healed r h = go r.primary refl h
  where
    go :
        (primary : Option String)
        → r.primary ≡ primary
        → read_primary healed primary r.streaming ≡ waiting_on []
        → Streams healed r
    go none e h = absurd (cc)
    go (some p) e h = read_streams-Streams healed r p (str_eq p "") r.streaming e refl h

-- A verdict that is no error needs pods that stream, or none to look at.
abbrev pub IsFounded : (ℕ → Replication) → List String → Verified → Type 0
IsFounded reads healed v =
    ((v ≡ verified_ok) × ((healed ≡ []) ⊎ ((n : ℕ) × Streams healed (reads n))))
    ⊎ ((v ≡ could_not_verify)
        ⊎ ((p : String) × ((ps : List String) × (v ≡ not_recovered (p ∷ ps)))))

verdict_cnpg-IsPending :
    (w : Wait)
    → IsPending w
    → (verdict_cnpg w ≡ could_not_verify)
      ⊎ ((p : String) × ((ps : List String) × (verdict_cnpg w ≡ not_recovered (p ∷ ps))))
unfolding verdict_cnpg
verdict_cnpg-IsPending w (inl (p, (ps, e))) = inr (p, (ps, rw e refl))
verdict_cnpg-IsPending w (inr (e, f)) = inl (rw (e, f) refl)

-- When each attempt starts at least one positive interval after the one before, the verification of
-- a CNPG heal ends with a verdict after at most as many attempts as the time-out has units, plus one.
-- It reports no error only with nothing healed, or if at one attempt every healed pod was the
-- primary that the cluster named or streamed from it.
pub verify_cnpg-IsFounded :
    (a : Attempts) (reads : ℕ → Replication) (healed : List String) (timeout : ℕ)
    → ((i : ℕ) → a.clock i + a.interval ≤ a.clock (suc i))
    → 0 < a.interval
    → a.deadline ≤ a.clock 0 + timeout
    → (v : Verified) × ((verify_cnpg (suc timeout) a reads healed ≡ some v)
        × IsFounded reads healed v)
unfolding verify_cnpg await_recovery verdict_cnpg
verify_cnpg-IsFounded a reads [] timeout ticks spaced bound =
    (verified_ok, (refl, inl (refl, inl refl)))
verify_cnpg-IsFounded a reads (pod ∷ pods) timeout ticks spaced bound =
    let b = attempts_of (λ i. probe_cnpg (pod ∷ pods) (reads i)) a in
    let (r, (e, end)) = await_from-Ends b ticks spaced timeout 0 recovered bound (inr refl) in
    let judge = ap (judged verdict_cnpg) e in
    elim end [
      | inl (ok, (n, found)) ↦ (
        verdict_cnpg r,
        (judge, inl (ap verdict_cnpg ok, inr (n, probe_cnpg-Streams (pod ∷ pods) (reads n) found))),
      )
      | inr p ↦ (verdict_cnpg r, (judge, inr (verdict_cnpg-IsPending r p)))
    ]
