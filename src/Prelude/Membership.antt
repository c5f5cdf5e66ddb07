-- ===== src/Prelude/Membership.antt =====
-- Membership as a family that can be matched, and "for every element" as a tuple.
use Prim.Native.Nat.{ℕ, zero, suc}
use mathlib.Core.Path.{◌≡◌, refl, ap, sym, ◌∙◌}
use mathlib.Core.Logic.{◌⊎◌, inl, inr}
use mathlib.Core.Bool.{Bool, true, false}
use mathlib.Core.List.{List, [], ◌∷◌, ◌++◌, map}
use mathlib.Core.Option.{none, some}
use bifrost_platform_plugin.Prelude.Tests.{Bool-cases}
use bifrost_platform_plugin.Prelude.Lists.{keep, take, first}

-- Where an element stands in a list.
pub data In {ℓ} {A : Type ℓ} (a : A) : List A → Type ℓ where
  here : {x : A} {xs : List A} → a ≡ x → In a (x ∷ xs)
  there : {x : A} {xs : List A} → In a xs → In a (x ∷ xs)

abbrev pub All {ℓ κ} : {A : Type ℓ} → (A → Type κ) → List A → Type κ
All P [] = Unit
All P (x ∷ xs) = P x × All P xs

module _ {ℓ} {A : Type ℓ} where
  pub In-append_left : {a : A} (xs ys : List A) → In a xs → In a (xs ++ ys)
  In-append_left [] ys m = elim m [ ]
  In-append_left (x ∷ xs) ys (here e) = here e
  In-append_left (x ∷ xs) ys (there m) = there (In-append_left xs ys m)

  pub In-append_right : {a : A} (xs ys : List A) → In a ys → In a (xs ++ ys)
  In-append_right [] ys m = m
  In-append_right (x ∷ xs) ys m = there (In-append_right xs ys m)

  pub In-append : {a : A} (xs ys : List A) → In a (xs ++ ys) → In a xs ⊎ In a ys
  In-append [] ys m = inr m
  In-append (x ∷ xs) ys (here e) = inl (here e)
  In-append (x ∷ xs) ys (there m) = elim (In-append xs ys m) [
    | inl l ↦ inl (there l)
    | inr r ↦ inr r
  ]

  pub In-take : {a : A} (n : ℕ) (xs : List A) → In a (take n xs) → In a xs
  In-take zero xs m = elim m [ ]
  In-take (suc n) [] m = m
  In-take (suc n) (x ∷ xs) (here e) = here e
  In-take (suc n) (x ∷ xs) (there m) = there (In-take n xs m)

  pub All-In {κ} : (P : A → Type κ) (xs : List A) → ((x : A) → In x xs → P x) → All P xs
  All-In P [] h = tt
  All-In P (x ∷ xs) h = (h x (here refl), All-In P xs (λ y m. h y (there m)))

  pub In-cons : {a x : A} {xs : List A} → In a (x ∷ xs) → (a ≡ x) ⊎ In a xs
  In-cons (here e) = inl e
  In-cons (there m) = inr m

module _ {ℓ} {A : Type ℓ} (p : A → Bool) where
  pub In-keep : {a : A} (xs : List A) → In a (keep p xs) → In a xs × (p a ≡ true)
  In-keep [] m = elim m [ ]
  In-keep {a} (x ∷ xs) m = elim (Bool-cases (p x)) [
    | inl t ↦ elim (In-cons (rw t at m)) [
      | inl e ↦ (here e, ap p e ∙ t)
      | inr r ↦ let k = In-keep xs r in (there k.0, k.1)
    ]
    | inr f ↦ let k = In-keep xs (rw f at m) in (there k.0, k.1)
  ]

  pub keep-In : {a : A} (xs : List A) → In a xs → p a ≡ true → In a (keep p xs)
  keep-In [] m h = elim m [ ]
  keep-In (x ∷ xs) (here e) h = rw (sym (ap p e) ∙ h) (here e)
  keep-In (x ∷ xs) (there m) h = elim (Bool-cases (p x)) [
    | inl t ↦ rw t (there (keep-In xs m h))
    | inr f ↦ rw f (keep-In xs m h)
  ]

  -- A search finds an element of the list that passes, or shows that none does.
  pub first_cases :
      (xs : List A)
      → ((a : A) × (first p xs ≡ some a) × In a xs × (p a ≡ true))
        ⊎ ((first p xs ≡ none) × ((a : A) → In a xs → p a ≡ false))
  first_cases [] = inr (refl, λ a m. elim m [ ])
  first_cases (x ∷ xs) = elim (Bool-cases (p x)) [
    | inl t ↦ inl (x, rw t, here refl, t)
    | inr f ↦ elim (first_cases xs) [
      | inl (a, e, m, q) ↦ inl (a, rw f e, there m, q)
      | inr (e, all) ↦
          inr (rw f e, λ a m. elim (In-cons m) [ inl q ↦ ap p q ∙ f | inr r ↦ all a r ])
    ]
  ]

module _ {ℓ κ} {A : Type ℓ} {B : Type κ} (f : A → B) where
  pub In-map : (xs : List A) {b : B} → In b (map f xs) → (a : A) × In a xs × (b ≡ f a)
  In-map [] m = elim m [ ]
  In-map (x ∷ xs) (here e) = (x, here refl, e)
  In-map (x ∷ xs) (there m) = let r = In-map xs m in (r.0, there r.1, r.2)

  pub map-In : (xs : List A) {a : A} {b : B} → In a xs → b ≡ f a → In b (map f xs)
  map-In [] m e = elim m [ ]
  map-In (x ∷ xs) (here h) e = here (e ∙ ap f h)
  map-In (x ∷ xs) (there m) e = there (map-In xs m e)
