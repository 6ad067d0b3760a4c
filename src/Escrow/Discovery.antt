-- ===== src/Escrow/Discovery.antt =====
-- `DiscoverPVCs` misses no volume of an instance that it reports.
use hasteward.Prelude.{
  String, ◌≡◌, refl, sym, ap, ◌∙◌, subst, ◌≢◌, inl, inr, true, Option, none, some, List, [], ◌∷◌,
  Elem, All, Elem-append_left, Elem-append_right, Bool-cases, str_eq, eq_iff,
}
use hasteward.Escrow.Select.{contains}
use hasteward.Escrow.Volumes.{
  PodRead, found, not_found, read_failed, add_pvc, add_all, add_claims, and_then, discover_from,
  discover_pvcs,
}

contains-Elem : (l : List String) (x : String) → contains l x ≡ true → Elem x l
contains-Elem [] x h = absurd (cc)
contains-Elem (y ∷ l) x h = elim (Bool-cases (str_eq x y)) [
  | inl e ↦ inl ((eq_iff x y).0 e)
  | inr e ↦ inr (contains-Elem l x (rw e at h))
]

add_pvc-keeps : (out : List String) (pvc x : String) → Elem x out → Elem x (add_pvc out pvc)
unfolding add_pvc
add_pvc-keeps out pvc x m = elim (Bool-cases (str_eq pvc "")) [
  | inl e ↦ rw e m
  | inr e ↦ elim (Bool-cases (contains out pvc)) [
    | inl c ↦ rw (e, c) m
    | inr c ↦ rw (e, c) (Elem-append_left x out (pvc ∷ []) m)
  ]
]

add_pvc-Elem : (out : List String) (pvc : String) → pvc ≢ "" → Elem pvc (add_pvc out pvc)
unfolding add_pvc
add_pvc-Elem out pvc ne = elim (Bool-cases (str_eq pvc "")) [
  | inl e ↦ absurd (ne ((eq_iff pvc "").0 e))
  | inr e ↦ elim (Bool-cases (contains out pvc)) [
    | inl c ↦ rw (e, c) (contains-Elem out pvc c)
    | inr c ↦ rw (e, c) (Elem-append_right pvc out (pvc ∷ []) (inl refl))
  ]
]

add_all-keeps : (out cs : List String) (x : String) → Elem x out → Elem x (add_all out cs)
unfolding add_all
add_all-keeps out [] x m = m
add_all-keeps out (c ∷ cs) x m = add_all-keeps (add_pvc out c) cs x (add_pvc-keeps out c x m)

add_all-Elem : (out cs : List String) (x : String) → Elem x cs → x ≢ "" → Elem x (add_all out cs)
unfolding add_all
add_all-Elem out [] x m ne = elim m [ ]
add_all-Elem out (c ∷ cs) x (inl e) ne =
    add_all-keeps (add_pvc out c) cs x
      (subst (λ z. Elem z (add_pvc out c)) (sym e) (add_pvc-Elem out c (λ q. ne (rw (e, q)))))
add_all-Elem out (c ∷ cs) x (inr m) ne = add_all-Elem (add_pvc out c) cs x m ne

module _ (data_pvc_name : String → String) (read_pod : String → PodRead) where
  -- The volumes of one pod are all in the set.
  abbrev pub IsCovered : List String → String → Type 0
  IsCovered out pod =
      (data_pvc_name pod ≢ "" → Elem (data_pvc_name pod) out)
      × ((claims : List String) (c : String)
          → read_pod pod ≡ found claims
          → Elem c claims
          → c ≢ ""
          → Elem c out)

  some-injective : {x y : List String} → some x ≡ some y → x ≡ y
  some-injective {x} e = ap (λ (r : Option (List String)). elim r [ some l ↦ l | none ↦ x ]) e

  step-eq :
      (r : PodRead) (out : List String) (f : List String → Option (List String)) (set : List String)
      → and_then (add_claims r out) f ≡ some set
      → (next : List String) × (add_claims r out ≡ some next) × (f next ≡ some set)
  step-eq (found claims) out f set h = (add_all out claims, refl, h)
  step-eq not_found out f set h = (out, refl, h)
  step-eq read_failed out f set h = absurd (cc)

  add_claims-keeps :
      (r : PodRead) (out next : List String) (x : String)
      → add_claims r out ≡ some next
      → Elem x out
      → Elem x next
  add_claims-keeps (found claims) out next x e m =
      subst (Elem x) (some-injective e) (add_all-keeps out claims x m)
  add_claims-keeps not_found out next x e m = subst (Elem x) (some-injective e) m
  add_claims-keeps read_failed out next x e m = absurd (cc)

  discover_from-keeps :
      (pods out set : List String) (x : String)
      → discover_from data_pvc_name read_pod pods out ≡ some set
      → Elem x out
      → Elem x set
  unfolding discover_from
  discover_from-keeps [] out set x h m = subst (Elem x) (some-injective h) m
  discover_from-keeps (pod ∷ pods) out set x h m =
      let (next, e, rest) =
        step-eq (read_pod pod) (add_pvc out (data_pvc_name pod))
          (discover_from data_pvc_name read_pod pods) set h in
      discover_from-keeps pods next set x rest
        (add_claims-keeps (read_pod pod) _ next x e (add_pvc-keeps out (data_pvc_name pod) x m))

  discover_from-IsCovered :
      (pods out set : List String)
      → discover_from data_pvc_name read_pod pods out ≡ some set
      → All (IsCovered set) pods
  unfolding discover_from
  discover_from-IsCovered [] out set h = tt
  discover_from-IsCovered (pod ∷ pods) out set h =
      let start = add_pvc out (data_pvc_name pod) in
      let (next, e, rest) =
        step-eq (read_pod pod) start (discover_from data_pvc_name read_pod pods) set h in
      (
        (
          λ ne. discover_from-keeps pods next set _ rest (
              add_claims-keeps (read_pod pod) start next _ e
                (add_pvc-Elem out (data_pvc_name pod) ne)),
          λ claims c q m ne. discover_from-keeps pods next set c rest (
              subst (Elem c) (some-injective (ap (λ r. add_claims r start) (sym q) ∙ e))
                (add_all-Elem start claims c m ne)),
        ),
        discover_from-IsCovered pods next set rest,
      )

  -- If `DiscoverPVCs` returns a set, then for every pod that was asked for the set holds the volume
  -- that the naming rule gives, and every claim of the pod's own volume list; empty names excepted.
  pub discover_pvcs-IsCovered :
      (pods set : List String)
      → discover_pvcs data_pvc_name read_pod pods ≡ some set
      → All (IsCovered set) pods
  unfolding discover_pvcs
  discover_pvcs-IsCovered pods set h = discover_from-IsCovered pods [] set h
