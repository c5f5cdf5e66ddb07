-- ===== src/Freshness/Counts.antt =====
-- The dimensions that a handler's result counts besides its own (freshness.py).
use bifrost_platform_plugin.Prelude.{
  ℕ, ◌≡◌, refl, ap, ◌∙◌, String, Option, none, some, List, [], ◌∷◌, false, str_eq, Bool-cases, ◌⊎◌,
  inl, inr, In, here, there, In-cons,
}
use bifrost_platform_plugin.Prelude.Int.{ℤ}
use bifrost_platform_plugin.Prelude.Text.{strip}
use bifrost_platform_plugin.Json.{Json, null, bool, num, str, arr, obj, Fields, end, field, get}
use bifrost_platform_plugin.Freshness.{
  count_of, set_count, extra_counts, extra_freshness_from_result,
}

-- Each dimension once, and none without a name.
abbrev pub NamedOnce : List (String × ℕ) → Type 0
NamedOnce [] = Unit
NamedOnce (e ∷ es) =
    (str_eq e.0 "" ≡ false) × ((f : String × ℕ) → In f es → str_eq e.0 f.0 ≡ false) × NamedOnce es

module _ (int_of_text : String → Option ℤ) where
  In-set_count :
      (key : String) (n : ℕ) (xs : List (String × ℕ)) {f : String × ℕ}
      → In f (set_count int_of_text key n xs)
      → (f.0 ≡ key) ⊎ ((g : String × ℕ) × In g xs × (f.0 ≡ g.0))
  In-set_count key n [] (here e) = inl (ap (λ f. f.0) e)
  In-set_count key n [] (there m) = elim m [ ]
  In-set_count key n (x ∷ xs) {f} m = elim (Bool-cases (str_eq x.0 key)) [
    | inl t ↦ elim (In-cons (rw t at m)) [
      | inl e ↦ inr (x, here refl, ap (λ f. f.0) e)
      | inr r ↦ inr (f, there r, refl)
    ]
    | inr d ↦ elim (In-cons (rw d at m)) [
      | inl e ↦ inr (x, here refl, ap (λ f. f.0) e)
      | inr r ↦ elim (In-set_count key n xs r) [
        | inl e ↦ inl e
        | inr (g, k, e) ↦ inr (g, there k, e)
      ]
    ]
  ]

  set_count-NamedOnce :
      (key : String) (n : ℕ) (xs : List (String × ℕ))
      → str_eq key "" ≡ false
      → NamedOnce xs
      → NamedOnce (set_count int_of_text key n xs)
  set_count-NamedOnce key n [] h o = (h, λ f m. elim m [ ], tt)
  set_count-NamedOnce key n (x ∷ xs) h (named, once, rest) = elim (Bool-cases (str_eq x.0 key)) [
    | inl t ↦ rw t (named, once, rest)
    | inr d ↦ rw d (
      named,
      λ f m. elim (In-set_count key n xs m) [
        | inl e ↦ ap (str_eq x.0) e ∙ d
        | inr (g, k, e) ↦ ap (str_eq x.0) e ∙ once g k
      ],
      set_count-NamedOnce key n xs h rest,
    )
  ]

  extra_counts-NamedOnce :
      (fs : Fields) (out : List (String × ℕ))
      → NamedOnce out
      → NamedOnce (extra_counts int_of_text fs out)
  unfolding extra_counts
  extra_counts-NamedOnce end out o = o
  extra_counts-NamedOnce (field dim rows rest) out o = elim (Bool-cases (str_eq (strip dim) "")) [
    | inl t ↦ rw t (extra_counts-NamedOnce rest out o)
    | inr f ↦ rw f (
        extra_counts-NamedOnce rest
          (set_count int_of_text (strip dim) (count_of int_of_text rows) out)
          (set_count-NamedOnce (strip dim) (count_of int_of_text rows) out f o))
  ]

  -- Whatever a handler returns, the further dimensions read from its result each have a name that
  -- is not empty, and no two have the same one.
  pub extra_freshness_from_result-NamedOnce :
      (result : Option Fields) → NamedOnce (extra_freshness_from_result int_of_text result)
  unfolding extra_freshness_from_result
  extra_freshness_from_result-NamedOnce none = tt
  extra_freshness_from_result-NamedOnce (some result) = of_value (get "freshness_extra" result)
    where
      of_value :
          (v : Json) → NamedOnce (elim v [ obj fs ↦ extra_counts int_of_text fs [] | _ ↦ [] ])
      of_value (obj fs) = extra_counts-NamedOnce fs [] tt
      of_value null = tt
      of_value (bool b) = tt
      of_value (num n) = tt
      of_value (str s) = tt
      of_value (arr xs) = tt
