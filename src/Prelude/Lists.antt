-- ===== src/Prelude/Lists.antt =====
-- Lists measured by native numbers under the library's names, and predicates over lists.
use Prim.Native.Nat.{ℕ, zero, suc, ◌+◌}
use mathlib.Core.Path.{◌≡◌, refl, sym, subst}
use mathlib.Core.Logic.{◌⊎◌, inl, inr}
use mathlib.Core.Bool.{Bool, true, false}
use mathlib.Core.List.{List, [], ◌∷◌, ◌++◌, map}
use native.Mathlib.Omega.{arith}
use hasteward.Prelude.Tests.{if◌then◌else◌, Bool-cases}

module _ {ℓ} {A : Type ℓ} where
  abbrev pub length : List A → ℕ
  length [] = 0
  length (x ∷ xs) = suc (length xs)

  abbrev pub get_or : List A → ℕ → A → A
  get_or [] i d = d
  get_or (x ∷ xs) zero d = x
  get_or (x ∷ xs) (suc i) d = get_or xs i d

  -- The elements that pass a Boolean test, in order.
  abbrev pub select : (A → Bool) → List A → List A
  select p [] = []
  select p (x ∷ xs) = if p x then x ∷ select p xs else select p xs

  abbrev pub any : (A → Bool) → List A → Bool
  any p [] = false
  any p (x ∷ xs) = if p x then true else any p xs

  -- A predicate by recursion, which the tactics read as a tuple.
  abbrev pub All {κ} : (A → Type κ) → List A → Type κ
  All P [] = Unit
  All P (x ∷ xs) = P x × All P xs

  pub length-append : (xs ys : List A) → length (xs ++ ys) ≡ length xs + length ys
  length-append [] ys = omega arith
  length-append (x ∷ xs) ys = omega (arith, length-append xs ys)

module _ {A : Type 0} where
  -- The element stands in the list.
  abbrev pub Elem : A → List A → Type 0
  Elem a [] = ⊥
  Elem a (x ∷ xs) = (a ≡ x) ⊎ Elem a xs

  pub Elem-append_right : (a : A) (xs ys : List A) → Elem a ys → Elem a (xs ++ ys)
  Elem-append_right a [] ys h = h
  Elem-append_right a (x ∷ xs) ys h = inr (Elem-append_right a xs ys h)

  pub Elem-append_left : (a : A) (xs ys : List A) → Elem a xs → Elem a (xs ++ ys)
  Elem-append_left a [] ys h = elim h [ ]
  Elem-append_left a (x ∷ xs) ys (inl h) = inl h
  Elem-append_left a (x ∷ xs) ys (inr h) = inr (Elem-append_left a xs ys h)

module _ {A : Type 0} where
  pub Elem-append : (a : A) (xs ys : List A) → Elem a (xs ++ ys) → Elem a xs ⊎ Elem a ys
  Elem-append a [] ys h = inr h
  Elem-append a (x ∷ xs) ys (inl e) = inl (inl e)
  Elem-append a (x ∷ xs) ys (inr m) = elim (Elem-append a xs ys m) [
    | inl l ↦ inl (inr l)
    | inr l ↦ inr l
  ]

  pub Elem-select :
      (p : A → Bool) (c : A) (l : List A) → Elem c (select p l) → Elem c l × (p c ≡ true)
  Elem-select p c [] h = elim h [ ]
  Elem-select p c (a ∷ l) h = go (p a) refl h (Elem-select p c l)
    where
      go :
          (t : Bool)
          → p a ≡ t
          → Elem c (if t then a ∷ select p l else select p l)
          → (Elem c (select p l) → Elem c l × (p c ≡ true))
          → Elem c (a ∷ l) × (p c ≡ true)
      go true e (inl q) ih = (inl q, subst (λ z. p z ≡ true) (sym q) e)
      go true e (inr m) ih = (inr (ih m).0, (ih m).1)
      go false e m ih = (inr (ih m).0, (ih m).1)

  pub Elem-select_intro :
      (p : A → Bool) (c : A) (l : List A) → Elem c l → p c ≡ true → Elem c (select p l)
  Elem-select_intro p c [] h e = h
  Elem-select_intro p c (a ∷ l) (inl q) e =
      let e' : p a ≡ true = subst (λ z. p z ≡ true) q e in rw e' (inl q)
  Elem-select_intro p c (a ∷ l) (inr q) e = elim (Bool-cases (p a)) [
    | inl t ↦ rw t (inr (Elem-select_intro p c l q e))
    | inr t ↦ rw t (Elem-select_intro p c l q e)
  ]

  pub All-Elem {κ} : (P : A → Type κ) (c : A) (l : List A) → All P l → Elem c l → P c
  All-Elem P c [] h m = elim m [ ]
  All-Elem P c (a ∷ l) h (inl e) = subst P (sym e) h.0
  All-Elem P c (a ∷ l) h (inr m) = All-Elem P c l h.1 m

  pub All-intro {κ} : (P : A → Type κ) (l : List A) → ((a : A) → Elem a l → P a) → All P l
  All-intro P [] h = tt
  All-intro P (a ∷ l) h = (h a (inl refl), All-intro P l (λ b m. h b (inr m)))

module _ {A : Type 0} where
  pub select-none : (p : A → Bool) (a : A) (l : List A) → select p l ≡ [] → Elem a l → p a ≡ false
  select-none p a l e m = elim (Bool-cases (p a)) [
    | inl t ↦ let at' : Elem a [] = subst (Elem a) e (Elem-select_intro p a l m t) in elim at' [ ]
    | inr f ↦ f
  ]

  pub append-none : (xs ys : List A) → xs ++ ys ≡ [] → (xs ≡ []) × (ys ≡ [])
  append-none [] ys h = (refl, h)
  append-none (x ∷ xs) ys h = absurd (cc)

  pub map-none : {B : Type 0} (f : A → B) (l : List A) → map f l ≡ [] → l ≡ []
  map-none f [] h = refl
  map-none f (x ∷ l) h = absurd (cc)
