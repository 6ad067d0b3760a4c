-- ===== src/Authority/Sound.antt =====
-- The instance that `relate` names as dominant holds all the WAL of the other.
use hasteward.Prelude.{ℕ, ◌≤◌, ◌<◌, ◌≡◌, ap, ◌⊎◌, List, [], ◌∷◌, ◌++◌, All, arith}
use hasteward.Authority.Defs.{
  SwitchPoint, Input, Relation, equal, a_dominates_b, b_dominates_a, extension_relation,
  relate_same, relate_fork, relate,
}
use hasteward.Authority.Coverage.{OnPath, Covers, IsRecovered}
use hasteward.Authority.Symmetry.{relate-swap}
use hasteward.Authority.Cases.{same_chain, a_extends, b_extends, fork, relate-cases, last_lsn}

-- `a` is at least as good an authority as `b`.
abbrev pub LeftSafe : Relation → Type 0
LeftSafe r = (r ≡ a_dominates_b) ⊎ (r ≡ equal)

abbrev pub RightSafe : Relation → Type 0
RightSafe r = (r ≡ b_dominates_a) ⊎ (r ≡ equal)

OnPath-extend :
    (sw : List SwitchPoint) (f : SwitchPoint) (rest : List SwitchPoint) (last last' : ℕ)
    (br : List SwitchPoint) (t x : ℕ)
    → f.parent_timeline ≡ last
    → x ≤ f.switch_lsn
    → OnPath sw last br t x
    → OnPath (sw ++ f ∷ rest) last' br t x
OnPath-extend [] f rest last last' [] t x e h p = ground arith
OnPath-extend [] f rest last last' (b ∷ br) t x e h p = elim p [ ]
OnPath-extend (s ∷ sw) f rest last last' [] t x e h p = p
OnPath-extend (s ∷ sw) f rest last last' (b ∷ br) t x e h p =
    (p.0, p.1, OnPath-extend sw f rest last last' br t x e h p.2)

OnPath-retract :
    (sw : List SwitchPoint) (f : SwitchPoint) (rest : List SwitchPoint) (last last' : ℕ)
    (br : List SwitchPoint) (t x : ℕ)
    → f.parent_timeline ≡ last
    → x ≤ f.switch_lsn
    → OnPath (sw ++ f ∷ rest) last' br t x
    → OnPath sw last br t x
OnPath-retract [] f rest last last' [] t x e h p = ground arith
OnPath-retract [] f rest last last' (b ∷ br) t x e h p = absurd (omega (arith, p.1))
OnPath-retract (s ∷ sw) f rest last last' [] t x e h p = p
OnPath-retract (s ∷ sw) f rest last last' (b ∷ br) t x e h p =
    (p.0, p.1, OnPath-retract sw f rest last last' br t x e h p.2)

OnPath-fork :
    (pre : List SwitchPoint) (xs ys : List SwitchPoint) (last last' : ℕ) (br : List SwitchPoint)
    (t x : ℕ)
    → 0 < x
    → x ≤ last_lsn pre
    → OnPath (pre ++ xs) last br t x
    → OnPath (pre ++ ys) last' br t x
OnPath-fork [] xs ys last last' br t x pos h p = absurd (omega arith)
OnPath-fork (s ∷ pre) xs ys last last' [] t x pos h p = p
OnPath-fork (s ∷ []) xs ys last last' (b ∷ br) t x pos h p = absurd (omega (arith, p.1))
OnPath-fork (s ∷ u ∷ pre) xs ys last last' (b ∷ br) t x pos h p =
    (p.0, p.1, OnPath-fork (u ∷ pre) xs ys last last' br t x pos h p.2)

pub All-last :
    (pre xs : List SwitchPoint) (c : ℕ) → All (λ s. s.switch_lsn ≤ c) (pre ++ xs) → last_lsn pre ≤ c
All-last [] xs c h = omega arith
All-last (s ∷ []) xs c h = h.0
All-last (s ∷ u ∷ pre) xs c h = All-last (u ∷ pre) xs c h.1

pub All-at :
    (pre xs : List SwitchPoint) (f : SwitchPoint) (c : ℕ)
    → All (λ s. s.switch_lsn ≤ c) (pre ++ f ∷ xs)
    → f.switch_lsn ≤ c
All-at [] xs f c h = h.0
All-at (s ∷ pre) xs f c h = All-at pre xs f c h.1

-- Where `relate a b` finds for `a`, or finds the two equal, a recovered `a` holds every byte of
-- WAL that `b` holds.
pub relate-Covers_left : (a b : Input) → IsRecovered a → LeftSafe (relate a b).0 → Covers a b
unfolding relate_same extension_relation relate_fork
relate-Covers_left a b r safe p (pos, le, on) = elim (relate-cases a b) [
  | same_chain e v ↦
      let t : a.timeline ≡ b.timeline = ground (arith, v) in
      let c : b.checkpoint_lsn ≤ a.checkpoint_lsn = ground (arith, v) in
      (pos, omega arith, rw (e, t) on)
  | a_extends f rest e g v ↦
      let t : f.parent_timeline ≡ b.timeline = ground (arith, v, g) in
      let c : b.checkpoint_lsn ≤ f.switch_lsn = ground (arith, v, g) in
      let d : f.switch_lsn ≤ a.checkpoint_lsn = All-at b.switches rest f _ (rw e at r) in
      (pos, omega arith, rw e (OnPath-extend b.switches f rest _ _ p.branch _ _ t (omega arith) on))
  | b_extends f rest e g v ↦
      let t : f.parent_timeline ≡ a.timeline = ground (arith, v, g) in
      let c : b.checkpoint_lsn ≤ f.switch_lsn = ground (arith, v, g) in
      let d : f.switch_lsn ≤ a.checkpoint_lsn = ground (arith, v, g) in
      let path : OnPath (a.switches ++ f ∷ rest) b.timeline p.branch p.timeline p.lsn =
        rw e at on in
      (pos, omega arith, OnPath-retract a.switches f rest _ _ p.branch _ _ t (omega arith) path)
  | fork pre x y xs ys ea eb h l v ↦
      let c : b.checkpoint_lsn ≤ last_lsn pre = ground (arith, v, l) in
      let d : last_lsn pre ≤ a.checkpoint_lsn = All-last pre (x ∷ xs) _ (rw ea at r) in
      let path : OnPath (pre ++ y ∷ ys) b.timeline p.branch p.timeline p.lsn = rw eb at on in
      (
        pos,
        omega arith,
        rw ea (OnPath-fork pre (y ∷ ys) (x ∷ xs) _ _ p.branch _ _ pos (omega arith) path),
      )
]

-- Where `relate a b` finds for `b`, or finds the two equal, a recovered `b` holds every byte of
-- WAL that `a` holds.
pub relate-Covers_right : (a b : Input) → IsRecovered b → RightSafe (relate a b).0 → Covers b a
relate-Covers_right a b r safe =
    relate-Covers_left b a r (ground (arith, ap (λ (v : Relation × ℕ). v.0) (relate-swap a b)))
