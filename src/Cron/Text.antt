-- ===== src/Cron/Text.antt =====
-- What the parser of cron expressions uses of Python's texts: `split`, `in`, `int` and `range`.
use Prim.Native.Char.{Char, code}
use bifrost_platform_plugin.Prelude.{
  ℕ, zero, suc, ◌+◌, ◌-◌, ◌*◌, ◌≤◌, ◌<◌, ◌≡◌, String, Option, none, some, List, [], ◌∷◌, Bool, true,
  false, not, ◌&&◌, ◌||◌, keep, leb, ◌==◌, if◌then◌else◌, arith, In, here, there, In-cons, ◌⊎◌, inl,
  inr, str_eq,
}
use bifrost_platform_plugin.Prelude.Text.{is_space, strip}

-- `range(lo, lo + n)`
unfoldable pub range : ℕ → ℕ → List ℕ
range lo zero = []
range lo (suc n) = lo ∷ range (suc lo) n

pub range-In : (lo n v : ℕ) → lo ≤ v → v < lo + n → In v (range lo n)
unfolding range
range-In lo zero v h k = absurd (omega (arith, h, k))
range-In lo (suc n) v h k = elim (ltb_cases lo v h) [
  | inl e ↦ here e
  | inr l ↦ there (range-In (suc lo) n v l (omega (arith, k)))
]
  where
    ltb_cases : (lo v : ℕ) → lo ≤ v → (v ≡ lo) ⊎ (suc lo ≤ v)
    ltb_cases lo v h = omega (arith, h)

pub In-range : (lo n : ℕ) {v : ℕ} → In v (range lo n) → (lo ≤ v) × (v < lo + n)
unfolding range
In-range lo zero m = elim m [ ]
In-range lo (suc n) m = elim (In-cons m) [
  | inl e ↦ (omega (arith, e), omega (arith, e))
  | inr k ↦ let (a, b) = In-range (suc lo) n k in (omega (arith, a), omega (arith, b))
]

unfoldable pub has_char : ℕ → String → Bool
has_char c String.[] = false
has_char c (String.◌∷◌ d s) = let rest = has_char c s in code d == c || rest

abbrev prepend : Char → List String → List String
prepend d [] = String.◌∷◌ d String.[] ∷ []
prepend d (p ∷ ps) = String.◌∷◌ d p ∷ ps

-- The pieces between the characters that pass the test.
unfoldable pub split_where : (ℕ → Bool) → String → List String
split_where p String.[] = String.[] ∷ []
split_where p (String.◌∷◌ d s) =
    let rest = split_where p s in if p (code d) then String.[] ∷ rest else prepend d rest

-- `s.split()`
unfoldable pub words : String → List String
unfolding split_where
words s = keep (λ w. not (str_eq w "")) (split_where is_space s)

abbrev cut : Char → String × String → String × String
cut d p = (String.◌∷◌ d p.0, p.1)

-- `s.split(c, 1)`, for a text that has the character.
unfoldable pub split_once : ℕ → String → String × String
split_once c String.[] = (String.[], String.[])
split_once c (String.◌∷◌ d s) =
    let rest = split_once c s in if code d == c then (String.[], s) else cut d rest

-- One character of a number: the value so far, and whether a digit came last.
abbrev digit_step : ℕ × Bool → ℕ → Option (ℕ × Bool)
digit_step st c =
    if leb 48 c && leb c 57
    then some (st.0 * 10 + (c - 48), true)
    else if c == 95 && st.1
    then some (st.0, false)
    else none

unfoldable digits : ℕ × Bool → String → Option ℕ
digits st String.[] = if st.1 then some st.0 else none
digits st (String.◌∷◌ d s) = elim (digit_step st (code d)) [
  | none ↦ none
  | some next ↦ digits next s
]

abbrev zero_or_none : Option ℕ → Option ℕ
zero_or_none none = none
zero_or_none (some v) = if v == 0 then some 0 else none

unfoldable signed : String → Option ℕ
unfolding digits
signed String.[] = none
signed (String.◌∷◌ d s) =
    if code d == 43
    then digits (0, false) s
    else if code d == 45
    then zero_or_none (digits (0, false) s)
    else digits (0, false) (String.◌∷◌ d s)

-- `int(s)`; none where it raises ValueError, and for a negative number, which each caller refuses.
unfoldable pub int_of_text : String → Option ℕ
unfolding signed strip
int_of_text s = signed (strip s)
