-- ===== src/GaleraTriage/Position.antt =====
-- What a known position of a Galera node is worth (src/engine/triage/galera.go).
use hasteward.Prelude.{
  ℤ, pos, negsuc, int_ltb, int_ltb_irrefl, int_ltb_trans, int_ltb_asym, Bool, true, false, ◌&&◌,
  List, [], ◌∷◌, ◌≡◌, refl, ◌⊎◌, inl, inr, Elem, All, subst, sym, arith,
}
use hasteward.GaleraTriage.Data.{EffectiveSeqno}
use hasteward.GaleraTriage.Seqno.{
  Cand, improves, take_cand, best_of, no_seqno, hint_unless, authoritative_cands, hint_cands,
  derive_effective_seqno,
}

abbrev IsBound : ℤ → List ℤ → Type 0
IsBound v vs = All (λ w. int_ltb v w ≡ false) vs

abbrev vals : List Cand → List ℤ
vals [] = []
vals (c ∷ cs) = c.val ∷ vals cs

-- The value is positive, stands in the list, and no other exceeds it.
abbrev IsGreatest : ℤ → List ℤ → Type 0
IsGreatest v vs = (int_ltb (pos 0) v ≡ true) × (Elem v vs × IsBound v vs)

-- The loop keeps its start, which then bounds the positive candidates, or ends in one of them.
abbrev Scanned : Bool → List Cand → EffectiveSeqno → EffectiveSeqno → Type 0
Scanned known cs best r =
    ((r ≡ best) × All (λ c. improves c best ≡ false) cs)
    ⊎ ((r.known ≡ known) × ((int_ltb r.value best.value ≡ false) × IsGreatest r.value (vals cs)))

-- A positive bound that is not improved on is not exceeded.
not_improved :
    (v w : ℤ)
    → int_ltb (pos 0) v ≡ true
    → (int_ltb (pos 0) w && int_ltb v w) ≡ false
    → int_ltb v w ≡ false
not_improved (pos a) (pos b) p q = ground arith
not_improved (pos a) (negsuc b) p q = refl
not_improved (negsuc a) w p q = absurd (cc)

-- What the start is not improved by, a greater positive value exceeds.
not_improved-over :
    (v b w : ℤ)
    → int_ltb (pos 0) v ≡ true
    → int_ltb v b ≡ false
    → (int_ltb (pos 0) w && int_ltb b w) ≡ false
    → int_ltb v w ≡ false
not_improved-over (pos a) b (negsuc c) p q h = refl
not_improved-over (pos a) (pos b) (pos c) p q h = ground arith
not_improved-over (pos a) (negsuc b) (pos c) p q h = ground arith
not_improved-over (negsuc a) b c p q h = absurd (cc)

IsBound-unimproved :
    (best : EffectiveSeqno) (cs : List Cand)
    → int_ltb (pos 0) best.value ≡ true
    → All (λ c. improves c best ≡ false) cs
    → IsBound best.value (vals cs)
IsBound-unimproved best [] p h = tt
IsBound-unimproved best (c ∷ cs) p h =
    (not_improved best.value c.val p h.0, IsBound-unimproved best cs p h.1)

and_true : (a b : Bool) → (a && b) ≡ true → (a ≡ true) × (b ≡ true)
and_true true b h = (refl, h)
and_true false b h = absurd (cc)

Scanned-improved :
    (known : Bool) (c : Cand) (cs : List Cand) (best r : EffectiveSeqno)
    → improves c best ≡ true
    → Scanned known cs (take_cand true known c best) r
    → Scanned known (c ∷ cs) best r
Scanned-improved known c cs best r t (inl (e, h)) =
    let (positive, above) = and_true (int_ltb (pos 0) c.val) (int_ltb best.value c.val) t in
    let new : EffectiveSeqno = take_cand true known c best in
    subst (λ z. Scanned known (c ∷ cs) best z) (sym e)
      (inr (
        refl,
        (
          int_ltb_asym best.value c.val above,
          (positive, (inl refl, (int_ltb_irrefl c.val, IsBound-unimproved new cs positive h))),
        ),
      ))
Scanned-improved known c cs best r t (inr (k, (low, (p, (m, bound))))) =
    let above = (and_true (int_ltb (pos 0) c.val) (int_ltb best.value c.val) t).1 in
    let low' = int_ltb_trans r.value c.val best.value low (int_ltb_asym best.value c.val above) in
    inr (k, (low', (p, (inr m, (low, bound)))))

Scanned-kept :
    (known : Bool) (c : Cand) (cs : List Cand) (best r : EffectiveSeqno)
    → improves c best ≡ false
    → Scanned known cs best r
    → Scanned known (c ∷ cs) best r
Scanned-kept known c cs best r f (inl (e, h)) = inl (e, (f, h))
Scanned-kept known c cs best r f (inr (k, (low, (p, (m, bound))))) =
    inr (k, (low, (p, (inr m, (not_improved-over r.value best.value c.val p low f, bound)))))

Scanned-step :
    (known : Bool) (c : Cand) (cs : List Cand) (best : EffectiveSeqno) (better : Bool)
    → improves c best ≡ better
    → ((b : EffectiveSeqno) → Scanned known cs b (best_of known cs b))
    → Scanned known (c ∷ cs) best (best_of known cs (take_cand better known c best))
Scanned-step known c cs best true t ih =
    Scanned-improved known c cs best _ t (ih (take_cand true known c best))
Scanned-step known c cs best false f ih = Scanned-kept known c cs best _ f (ih best)

best_of-Scanned :
    (known : Bool) (cs : List Cand) (best : EffectiveSeqno)
    → Scanned known cs best (best_of known cs best)
unfolding best_of
best_of-Scanned known [] best = inl (refl, tt)
best_of-Scanned known (c ∷ cs) best =
    Scanned-step known c cs best (improves c best) refl (best_of-Scanned known cs)

take_cand-unknown :
    (better : Bool) (c : Cand) (best : EffectiveSeqno)
    → best.known ≡ false
    → (take_cand better false c best).known ≡ false
take_cand-unknown true c best h = refl
take_cand-unknown false c best h = h

-- No list of hints makes a position known.
best_of-hints :
    (cs : List Cand) (best : EffectiveSeqno)
    → best.known ≡ false
    → (best_of false cs best).known ≡ false
unfolding best_of
best_of-hints [] best h = h
best_of-hints (c ∷ cs) best h = best_of-hints cs _ (take_cand-unknown (improves c best) c best h)

-- A position is known by the greatest positive value of the authoritative sources, or unknown
-- with none of these positive.
abbrev pub Proven : List ℤ → EffectiveSeqno → Type 0
Proven sources e =
    ((e.known ≡ true) × IsGreatest e.value sources)
    ⊎ ((e.known ≡ false) × All (λ w. int_ltb (pos 0) w ≡ false) sources)

unimproved-nonpositive :
    (cs : List Cand)
    → All (λ c. improves c no_seqno ≡ false) cs
    → All (λ w. int_ltb (pos 0) w ≡ false) (vals cs)
unimproved-nonpositive [] h = tt
unimproved-nonpositive (c ∷ cs) h = (go c.val h.0, unimproved-nonpositive cs h.1)
  where
    go : (w : ℤ) → (int_ltb (pos 0) w && int_ltb (negsuc 0) w) ≡ false → int_ltb (pos 0) w ≡ false
    go (pos n) e = ground arith
    go (negsuc n) e = refl

hint_unless-Proven :
    (hints cs : List Cand) (best : EffectiveSeqno)
    → Scanned true cs no_seqno best
    → Proven (vals cs) (hint_unless best.known hints best)
hint_unless-Proven hints cs best (inr (k, (low, greatest))) =
    subst (λ b. Proven (vals cs) (hint_unless b hints best)) (sym k) (inl (k, greatest))
hint_unless-Proven hints cs best (inl (e, h)) =
    subst (λ z. Proven (vals cs) (hint_unless z.known hints z)) (sym e)
      (inr (best_of-hints hints no_seqno refl, unimproved-nonpositive cs h))

-- The position that the triage derives for a node is either known, and then it is positive, one of
-- the three authoritative readings (the fenced recovery, the live commit and the clean state file)
-- and no smaller than any of the three, or it is unknown, and then none of the three is positive,
-- whatever the hints say.
pub derive_effective_seqno-Proven :
    (ws_committed cr_rec cr_state grastate log_seqno rec_seqno : ℤ)
    → Proven
        (rec_seqno ∷ ws_committed ∷ grastate ∷ [])
        (derive_effective_seqno ws_committed cr_rec cr_state grastate log_seqno rec_seqno)
unfolding derive_effective_seqno
derive_effective_seqno-Proven ws_committed cr_rec cr_state grastate log_seqno rec_seqno =
    hint_unless-Proven (hint_cands log_seqno cr_rec cr_state)
      (authoritative_cands ws_committed grastate rec_seqno) _ (best_of-Scanned true _ no_seqno)
