-- ===== src/GaleraTriage/Lineage.antt =====
-- What "safe to heal" means for the data of a Galera cluster (src/engine/triage/galera.go).
use hasteward.Prelude.{
  any-Elem, ltb, length, map, String, true, false, ◌&&◌, not, List, [], ◌∷◌, if◌then◌else◌, ◌≡◌,
  refl, ap, subst, ◌⊎◌, inl, inr, Elem, All, All-intro, Bool-cases, arith,
}
use hasteward.Triage.{is_empty}
use hasteward.GaleraTriage.Data.{GaleraTriageData}
use hasteward.GaleraTriage.Comparison.{
  node_canonical_uuid, usable, has, add_uuid, add_uuids, nodes, uuid_set, uuid_evidence,
}

Elem-add_uuid : (x u : String) (set : List String) → Elem x set → Elem x (add_uuid u set)
unfolding add_uuid
Elem-add_uuid x u set m = elim (Bool-cases (usable u && not (has u set))) [
  | inl t ↦ rw t (inr m)
  | inr f ↦ rw f m
]

add_uuid-adds : (u : String) (set : List String) → usable u ≡ true → Elem u (add_uuid u set)
unfolding add_uuid
add_uuid-adds u set h = elim (Bool-cases (has u set)) [
  | inl t ↦ rw (h, t) (any-Elem u set t)
  | inr f ↦ rw (h, f) (inl refl)
]

Elem-add_uuids : (x : String) (us set : List String) → Elem x set → Elem x (add_uuids us set)
unfolding add_uuids
Elem-add_uuids x [] set m = m
Elem-add_uuids x (u ∷ us) set m = Elem-add_uuids x us _ (Elem-add_uuid x u set m)

add_uuids-adds :
    (x : String) (us set : List String) → Elem x us → usable x ≡ true → Elem x (add_uuids us set)
unfolding add_uuids
add_uuids-adds x [] set m h = elim m [ ]
add_uuids-adds x (u ∷ us) set (inl e) h =
    Elem-add_uuids x us _ (subst (λ z. Elem x (add_uuid z set)) e (add_uuid-adds x set h))
add_uuids-adds x (u ∷ us) set (inr m) h = add_uuids-adds x us _ m h

unless_empty :
    (x : String) (ids hints : List String)
    → Elem x ids
    → Elem x (if is_empty ids then hints else ids)
unless_empty x [] hints m = elim m [ ]
unless_empty x (i ∷ ids) hints m = m

first : List String → String
first [] = ""
first (x ∷ xs) = x

only-first : (x : String) (l : List String) → ltb 1 (length l) ≡ false → Elem x l → x ≡ first l
unfolding first
only-first x [] h m = elim m [ ]
only-first x (y ∷ l) h (inl e) = e
only-first x (y ∷ []) h (inr m) = elim m [ ]
only-first x (y ∷ z ∷ l) h (inr m) = absurd (ground arith)

Elem-map : (f : String → String) (x : String) (l : List String) → Elem x l → Elem (f x) (map f l)
Elem-map f x [] m = elim m [ ]
Elem-map f x (y ∷ l) (inl e) = inl (ap f e)
Elem-map f x (y ∷ l) (inr m) = inr (Elem-map f x l m)

-- The nodes whose identity is usable share it.
abbrev pub IsOneLineage : GaleraTriageData → Type 0
IsOneLineage d =
    (u : String) × All
      (λ p. (usable (node_canonical_uuid d p) ≡ false) ⊎ (node_canonical_uuid d p ≡ u)) (nodes d)

uuid_evidence-none : (set : List String) → uuid_evidence set ≡ [] → ltb 1 (length set) ≡ false
uuid_evidence-none set h = elim (Bool-cases (ltb 1 (length set))) [
  | inl t ↦ let h' = rw t at h in absurd (cc)
  | inr f ↦ f
]

node-uuid_set :
    (d : GaleraTriageData) (p : String)
    → Elem p (nodes d)
    → usable (node_canonical_uuid d p) ≡ true
    → Elem (node_canonical_uuid d p) (uuid_set d)
unfolding uuid_set
node-uuid_set d p m h = unless_empty _ _ _ (
    add_uuids-adds _ (map (node_canonical_uuid d) (nodes d)) []
      (Elem-map (node_canonical_uuid d) p (nodes d) m) h)

pub uuid_set-IsOneLineage :
    (d : GaleraTriageData) → uuid_evidence (uuid_set d) ≡ [] → IsOneLineage d
uuid_set-IsOneLineage d h = (first (uuid_set d), All-intro _ (nodes d) same)
  where
    same :
        (p : String)
        → Elem p (nodes d)
        → (usable (node_canonical_uuid d p) ≡ false)
          ⊎ (node_canonical_uuid d p ≡ first (uuid_set d))
    same p m = elim (Bool-cases (usable (node_canonical_uuid d p))) [
      | inl t ↦ inr (only-first _ (uuid_set d) (uuid_evidence-none _ h) (node-uuid_set d p m t))
      | inr f ↦ inl f
    ]
