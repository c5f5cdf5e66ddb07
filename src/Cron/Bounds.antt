-- ===== src/Cron/Bounds.antt =====
-- The values of a parsed cron expression lie in the ranges of their fields.
use bifrost_platform_plugin.Prelude.{
  ℕ, ◌+◌, ◌-◌, ◌≤◌, ◌%◌, String, Option, none, some, List, [], ◌∷◌, ◌++◌, ◌||◌, has, ltb, ◌==◌,
  if◌then◌else◌, str_eq, arith, In, here, there, In-cons, In-append, In-keep, ◌⊎◌, inl, inr,
  Bool-cases,
}
use bifrost_platform_plugin.Prelude.Text.{strip}
use bifrost_platform_plugin.Cron.Text.{
  range, In-range, has_char, split_where, split_once, int_of_text, words,
}
use bifrost_platform_plugin.Cron.Parse.{
  Fields, update, stepped, then_stepped, bounds_of, parse_part, parse_parts, parse_field,
  parse_five, parse_all, parse_exprs, both, ap_both, as_set, five_fields,
}

abbrev pub Sound {ℓ} : {A : Type ℓ} → (A → Type 0) → Option A → Type 0
Sound P none = Unit
Sound P (some a) = P a

-- `*` allows every value of its field.
abbrev pub Within : ℕ → ℕ → Option (List ℕ) → Type 0
Within minimum maximum none = Unit
Within minimum maximum (some values) = (v : ℕ) → In v values → (minimum ≤ v) × (v ≤ maximum)

pub record InRange (f : Fields) : Type 0 where
  pub minutes : Within 0 59 f.minutes
  pub hours : Within 0 23 f.hours
  pub doms : Within 1 31 f.doms
  pub months : Within 1 12 f.months
  pub dows : Within 0 6 f.dows

In-update : (values out : List ℕ) {v : ℕ} → In v (update values out) → In v values ⊎ In v out
In-update [] out m = inr m
In-update (w ∷ ws) out {v} m =
    elim (In-update ws (if has (λ u. w == u) out then out else out ++ (w ∷ [])) m) [
      | inl k ↦ inl (there k)
      | inr k ↦ elim (Bool-cases (has (λ u. w == u) out)) [
        | inl t ↦ inr (rw t at k)
        | inr f ↦ elim (In-append out (w ∷ []) (rw f at k)) [
          | inl q ↦ inr q
          | inr q ↦ elim (In-cons q) [ inl e ↦ inl (here e) | inr n ↦ elim n [ ] ]
        ]
      ]
    ]

module _ (minimum maximum : ℕ) where
  abbrev Inside : List ℕ → Type 0
  Inside values = Within minimum maximum (some values)

  stepped-Inside : (step : ℕ) (b : ℕ × ℕ) → Sound Inside (stepped minimum maximum step b)
  stepped-Inside step (lo, hi) =
      elim (Bool-cases (step == 0 || ltb hi lo || ltb lo minimum || ltb maximum hi)) [
        | inl t ↦ rw t tt
        | inr f ↦ rw f (λ v m.
            let (r, h) = In-keep (λ v. (v - lo) % step == 0) (range lo (hi + 1 - lo)) m in
            let (a, c) = In-range lo (hi + 1 - lo) r in ground (arith, f, a, c))
      ]

  then_stepped-Inside :
      (step : Option ℕ) (b : Option (ℕ × ℕ)) → Sound Inside (then_stepped minimum maximum step b)
  then_stepped-Inside (some step) (some b) = stepped-Inside step b
  then_stepped-Inside (some step) none = tt
  then_stepped-Inside none b = tt

  parse_part-Inside : (part : String) → Sound Inside (parse_part minimum maximum part)
  unfolding parse_part
  parse_part-Inside part = elim (Bool-cases (str_eq part "")) [
    | inl t ↦ rw t (λ v m. elim m [ ])
    | inr f ↦ rw f (elim (Bool-cases (has_char 47 part)) [
      | inl t ↦ rw t (
          then_stepped-Inside (int_of_text (split_once 47 part).1)
            (bounds_of minimum maximum (split_once 47 part).0))
      | inr g ↦ rw g (then_stepped-Inside (some 1) (bounds_of minimum maximum part))
    ])
  ]

  parse_parts-Inside :
      (parts : List String) (out : List ℕ)
      → Inside out
      → Sound Inside (parse_parts minimum maximum parts out)
  unfolding parse_parts
  parse_parts-Inside [] out h = h
  parse_parts-Inside (part ∷ parts) out h =
      of (parse_part minimum maximum (strip part)) (parse_part-Inside (strip part)) (λ values k.
        parse_parts-Inside parts (update values out)
          (λ v m. elim (In-update values out m) [ inl a ↦ k v a | inr a ↦ h v a ]))
    where
      of :
          (o : Option (List ℕ))
          → Sound Inside o
          → ((values : List ℕ)
              → Inside values
              → Sound Inside (parse_parts minimum maximum parts (update values out)))
          → Sound Inside (elim o [
            | none ↦ none
            | some values ↦ parse_parts minimum maximum parts (update values out)
          ])
      of none k rest = tt
      of (some values) k rest = rest values k

  pub parse_field-Within :
      (field : String) → Sound (Within minimum maximum) (parse_field minimum maximum field)
  unfolding parse_field
  parse_field-Within field = elim (Bool-cases (str_eq (strip field) "*")) [
    | inl t ↦ rw t tt
    | inr f ↦ rw f (
        of _ (parse_parts-Inside (split_where (λ c. c == 44) (strip field)) [] (λ v m. elim m [ ])))
  ]
    where
      of :
          (o : Option (List ℕ))
          → Sound Inside o
          → Sound (Within minimum maximum) (as_set minimum maximum o)
      of none h = tt
      of (some values) h = h

five-InRange :
    (a b c d e : Option (Option (List ℕ)))
    → Sound (Within 0 59) a
    → Sound (Within 0 23) b
    → Sound (Within 1 31) c
    → Sound (Within 1 12) d
    → Sound (Within 0 6) e
    → Sound InRange (ap_both (ap_both (ap_both (ap_both (ap_both (some five_fields) a) b) c) d) e)
five-InRange none b c d e p q r s t = tt
five-InRange (some a) none c d e p q r s t = tt
five-InRange (some a) (some b) none d e p q r s t = tt
five-InRange (some a) (some b) (some c) none e p q r s t = tt
five-InRange (some a) (some b) (some c) (some d) none p q r s t = tt
five-InRange (some a) (some b) (some c) (some d) (some e) p q r s t = record {
  minutes = p;
  hours = q;
  doms = r;
  months = s;
  dows = t;
}

parse_five-InRange : (parts : List String) → Sound InRange (parse_five parts)
unfolding parse_five
parse_five-InRange [] = tt
parse_five-InRange (a ∷ []) = tt
parse_five-InRange (a ∷ b ∷ []) = tt
parse_five-InRange (a ∷ b ∷ c ∷ []) = tt
parse_five-InRange (a ∷ b ∷ c ∷ d ∷ []) = tt
parse_five-InRange (a ∷ b ∷ c ∷ d ∷ e ∷ []) =
    five-InRange _ _ _ _ _ (parse_field-Within 0 59 a) (parse_field-Within 0 23 b)
      (parse_field-Within 1 31 c) (parse_field-Within 1 12 d) (parse_field-Within 0 6 e)
parse_five-InRange (a ∷ b ∷ c ∷ d ∷ e ∷ f ∷ rest) = tt

-- Whatever the text: an expression that parses gives only values that are in the ranges of their
-- fields: minutes up to 59, hours up to 23, days 1 to 31, months 1 to 12, days of the week up to 6.
pub parse_all-InRange : (expr : String) → Sound InRange (parse_all expr)
unfolding parse_all
parse_all-InRange expr = parse_five-InRange (words (strip expr))

pub parse_exprs-InRange :
    (exprs : List String) → Sound (λ fs. (f : Fields) → In f fs → InRange f) (parse_exprs exprs)
unfolding parse_exprs
parse_exprs-InRange [] = λ f m. elim m [ ]
parse_exprs-InRange (e ∷ es) =
    of (parse_all e) (parse_exprs es) (parse_all-InRange e) (parse_exprs-InRange es)
  where
    of :
        (a : Option Fields) (b : Option (List Fields))
        → Sound InRange a
        → Sound (λ fs. (f : Fields) → In f fs → InRange f) b
        → Sound (λ fs. (f : Fields) → In f fs → InRange f) (both (λ f fs. f ∷ fs) a b)
    of none b p q = tt
    of (some a) none p q = tt
    of (some a) (some b) p q = λ f m. elim (In-cons m) [ inl h ↦ rw h p | inr k ↦ q f k ]
