-- ===== src/Cron/Parse.antt =====
-- `_parse_field` and `_parse_all` of scheduler/cronutil.py. none stands for a ValueError.
use bifrost_platform_plugin.Prelude.{
  ℕ, ◌+◌, ◌-◌, ◌%◌, String, Option, none, some, List, [], ◌∷◌, ◌++◌, ◌||◌, keep, has, ltb, ◌==◌,
  if◌then◌else◌, str_eq,
}
use bifrost_platform_plugin.Prelude.Text.{strip}
use bifrost_platform_plugin.Cron.Text.{range, has_char, split_where, words, split_once, int_of_text}

-- The values of the five fields; none for `*`.
pub record Fields : Type 0 where
  pub minutes : Option (List ℕ)
  pub hours : Option (List ℕ)
  pub doms : Option (List ℕ)
  pub months : Option (List ℕ)
  pub dows : Option (List ℕ)

abbrev pub both {ℓ κ μ} :
    {A : Type ℓ} {B : Type κ} {C : Type μ} → (A → B → C) → Option A → Option B → Option C
both f (some a) (some b) = some (f a b)
both f (some a) none = none
both f none b = none

-- `out.update`
abbrev pub update : List ℕ → List ℕ → List ℕ
update [] out = out
update (v ∷ vs) out = update vs (if has (λ w. v == w) out then out else out ++ (v ∷ []))

abbrev pair : ℕ → ℕ → ℕ × ℕ
pair lo hi = (lo, hi)

module _ (minimum maximum : ℕ) where
  unfoldable pub bounds_of : String → Option (ℕ × ℕ)
  unfolding int_of_text has_char split_once
  bounds_of base =
      if str_eq base "*"
      then some (minimum, maximum)
      else if has_char 45 base
      then both pair (int_of_text (split_once 45 base).0) (int_of_text (split_once 45 base).1)
      else both pair (int_of_text base) (int_of_text base)

  -- The values from `lo` to `hi` at a step, where they are in range.
  abbrev pub stepped : ℕ → ℕ × ℕ → Option (List ℕ)
  stepped step b =
      if step == 0 || ltb b.1 b.0 || ltb b.0 minimum || ltb maximum b.1
      then none
      else some (keep (λ v. (v - b.0) % step == 0) (range b.0 (b.1 + 1 - b.0)))

  abbrev pub then_stepped : Option ℕ → Option (ℕ × ℕ) → Option (List ℕ)
  then_stepped (some step) (some b) = stepped step b
  then_stepped (some step) none = none
  then_stepped none b = none

  -- One part of a comma list, stripped.
  unfoldable pub parse_part : String → Option (List ℕ)
  unfolding bounds_of
  parse_part part =
      if str_eq part ""
      then some []
      else if has_char 47 part
      then then_stepped (int_of_text (split_once 47 part).1) (bounds_of (split_once 47 part).0)
      else then_stepped (some 1) (bounds_of part)

  unfoldable pub parse_parts : List String → List ℕ → Option (List ℕ)
  unfolding parse_part strip
  parse_parts [] out = some out
  parse_parts (part ∷ parts) out = elim (parse_part (strip part)) [
    | none ↦ none
    | some values ↦ parse_parts parts (update values out)
  ]

  abbrev pub as_set : Option (List ℕ) → Option (Option (List ℕ))
  as_set none = none
  as_set (some values) = some (some values)

  unfoldable pub parse_field : String → Option (Option (List ℕ))
  unfolding parse_parts split_where
  parse_field field =
      let f = strip field in
      if str_eq f "*" then some none else as_set (parse_parts (split_where (λ c. c == 44) f) [])

abbrev pub five_fields :
    Option (List ℕ) → Option (List ℕ) → Option (List ℕ) → Option (List ℕ) → Option (List ℕ) → Fields
five_fields minutes hours doms months dows = record {
  minutes = minutes;
  hours = hours;
  doms = doms;
  months = months;
  dows = dows;
}

abbrev pub ap_both {ℓ κ} : {A : Type ℓ} {B : Type κ} → Option (A → B) → Option A → Option B
ap_both f a = both (λ g x. g x) f a

unfoldable pub parse_five : List String → Option Fields
unfolding parse_field
parse_five (minute ∷ hour ∷ dom ∷ month ∷ dow ∷ []) =
    ap_both
      (ap_both
        (ap_both
          (ap_both (ap_both (some five_fields) (parse_field 0 59 minute)) (parse_field 0 23 hour))
          (parse_field 1 31 dom))
        (parse_field 1 12 month))
      (parse_field 0 6 dow)
parse_five _ = none

unfoldable pub parse_all : String → Option Fields
unfolding parse_five words strip
parse_all expr = parse_five (words (strip expr))

unfoldable pub parse_exprs : List String → Option (List Fields)
unfolding parse_all
parse_exprs [] = some []
parse_exprs (e ∷ es) = both (λ f fs. f ∷ fs) (parse_all e) (parse_exprs es)
