-- ===== src/Prelude/Sorting.antt =====
-- ORDER BY and Python's sorted, as a stable insertion sort by a Boolean order, with the facts that
-- the components use: it keeps the elements, their number, and the order of what it returns.
use bifrost_platform_plugin.Prelude.Lists.{length, take, first}
use bifrost_platform_plugin.Prelude.Membership.{In, In.here, In.there, In-cons}
use bifrost_platform_plugin.Prelude.Tests.{if◌then◌else◌, Bool-cases}
use Prim.Native.Nat.{ℕ, zero, suc}
use mathlib.Core.Path.{◌≡◌, refl, ap, sym, ◌∙◌}
use mathlib.Core.Logic.{◌⊎◌, inl, inr}
use mathlib.Core.Bool.{Bool, true, false}
use mathlib.Core.List.{List, [], ◌∷◌}
use mathlib.Core.Option.{some}
use native.Mathlib.Omega.{arith}

module _ {ℓ} {A : Type ℓ} (le : A → A → Bool) where
  abbrev pub insert_by : A → List A → List A
  insert_by x [] = x ∷ []
  insert_by x (y ∷ ys) = let rest = insert_by x ys in if le x y then x ∷ y ∷ ys else y ∷ rest

  abbrev pub sort_by : List A → List A
  sort_by [] = []
  sort_by (x ∷ xs) = insert_by x (sort_by xs)

  -- Each element stands before all that follow it.
  abbrev pub Ordered : List A → Type ℓ
  Ordered [] = Unit
  Ordered (x ∷ xs) = ((y : A) → In y xs → le x y ≡ true) × Ordered xs

  pub length-insert_by : (x : A) (xs : List A) → length (insert_by x xs) ≡ suc (length xs)
  length-insert_by x [] = refl
  length-insert_by x (y ∷ ys) = ground (arith, length-insert_by x ys)

  pub length-sort_by : (xs : List A) → length (sort_by xs) ≡ length xs
  length-sort_by [] = refl
  length-sort_by (x ∷ xs) = length-insert_by x (sort_by xs) ∙ ap suc (length-sort_by xs)

  pub In-insert_by : {a : A} (x : A) (xs : List A) → In a (insert_by x xs) → (a ≡ x) ⊎ In a xs
  In-insert_by x [] m = In-cons m
  In-insert_by x (y ∷ ys) m = elim (Bool-cases (le x y)) [
    | inl t ↦ In-cons (rw t at m)
    | inr f ↦ elim (In-cons (rw f at m)) [
      | inl e ↦ inr (here e)
      | inr r ↦ elim (In-insert_by x ys r) [ inl e ↦ inl e | inr q ↦ inr (there q) ]
    ]
  ]

  pub insert_by-In : {a : A} (x : A) (xs : List A) → (a ≡ x) ⊎ In a xs → In a (insert_by x xs)
  insert_by-In x [] (inl e) = here e
  insert_by-In x [] (inr m) = elim m [ ]
  insert_by-In x (y ∷ ys) m = elim (Bool-cases (le x y)) [
    | inl t ↦ rw t (elim m [ inl e ↦ here e | inr q ↦ there q ])
    | inr f ↦ rw f (elim m [
      | inl e ↦ there (insert_by-In x ys (inl e))
      | inr q ↦ elim (In-cons q) [ inl e ↦ here e | inr r ↦ there (insert_by-In x ys (inr r)) ]
    ])
  ]

  pub In-sort_by : {a : A} (xs : List A) → In a (sort_by xs) → In a xs
  In-sort_by [] m = m
  In-sort_by (x ∷ xs) m = elim (In-insert_by x (sort_by xs) m) [
    | inl e ↦ here e
    | inr q ↦ there (In-sort_by xs q)
  ]

  pub sort_by-In : {a : A} (xs : List A) → In a xs → In a (sort_by xs)
  sort_by-In [] m = m
  sort_by-In (x ∷ xs) (here e) = insert_by-In x (sort_by xs) (inl e)
  sort_by-In (x ∷ xs) (there m) = insert_by-In x (sort_by xs) (inr (sort_by-In xs m))

-- A total preorder, as a Boolean test.
pub record IsPreorder {ℓ} {A : Type ℓ} (le : A → A → Bool) : Type ℓ where
  pub total : (x y : A) → le x y ≡ false → le y x ≡ true
  pub trans : (x y z : A) → le x y ≡ true → le y z ≡ true → le x z ≡ true

module _ {ℓ} {A : Type ℓ} (le : A → A → Bool) (o : IsPreorder le) where
  pub insert_by-Ordered : (x : A) (xs : List A) → Ordered le xs → Ordered le (insert_by le x xs)
  insert_by-Ordered x [] h = (λ y m. elim m [ ], tt)
  insert_by-Ordered x (y ∷ ys) h = elim (Bool-cases (le x y)) [
    | inl t ↦
        rw t (
          λ z m. elim (In-cons m) [ inl e ↦ ap (le x) e ∙ t | inr q ↦ o.trans x y z t (h.0 z q) ],
          h,
        )
    | inr f ↦ rw f (
      λ z m. elim (In-insert_by le x ys m) [
        | inl e ↦ ap (le y) e ∙ o.total x y f
        | inr q ↦ h.0 z q
      ],
      insert_by-Ordered x ys h.1,
    )
  ]

  pub sort_by-Ordered : (xs : List A) → Ordered le (sort_by le xs)
  sort_by-Ordered [] = tt
  sort_by-Ordered (x ∷ xs) = insert_by-Ordered x (sort_by le xs) (sort_by-Ordered xs)

  pub le_refl_of : (x : A) → le x x ≡ true
  le_refl_of x = elim (Bool-cases (le x x)) [ inl t ↦ t | inr f ↦ o.total x x f ]

  -- The first that passes stands before every other that passes.
  pub first_least :
      (p : A → Bool) (xs : List A) {a b : A}
      → Ordered le xs
      → first p xs ≡ some a
      → In b xs
      → p b ≡ true
      → le a b ≡ true
  first_least p [] h e m q = elim m [ ]
  first_least p (x ∷ xs) {a} {b} h e m q = elim (Bool-cases (p x)) [
    | inl t ↦
        let at_x : x ≡ a = ground (arith, e, t) in
        rw (sym at_x) (elim (In-cons m) [ inl s ↦ ap (le x) s ∙ le_refl_of x | inr r ↦ h.0 b r ])
    | inr f ↦ elim (In-cons m) [
      | inl s ↦ cc (ap p s)
      | inr r ↦ first_least p xs h.1 (rw f at e) r q
    ]
  ]

  -- LIMIT n after ORDER BY: a row is among the n, or there are n and all stand before it.
  pub take_top :
      (n : ℕ) (xs : List A) {a : A}
      → Ordered le xs
      → In a xs
      → In a (take n xs) ⊎ ((length (take n xs) ≡ n) × ((y : A) → In y (take n xs) → le y a ≡ true))
  take_top zero xs h m = inr (refl, λ y q. elim q [ ])
  take_top (suc n) [] h m = elim m [ ]
  take_top (suc n) (x ∷ xs) h (here e) = inl (here e)
  take_top (suc n) (x ∷ xs) {a} h (there m) = elim (take_top n xs h.1 m) [
    | inl q ↦ inl (there q)
    | inr (l, all) ↦ inr (
      ap suc l,
      λ y q. elim (In-cons q) [ inl s ↦ ap (λ v. le v a) s ∙ h.0 a m | inr r ↦ all y r ],
    )
  ]
