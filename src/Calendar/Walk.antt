-- ===== src/Calendar/Walk.antt =====
-- The backward walk against a plain description: the first `n` open days counted down from `end`.
use bifrost_platform_plugin.Prelude.{
  ℕ, zero, suc, ◌+◌, ◌-◌, ◌≤◌, ◌<◌, ◌≡◌, refl, sym, ◌∙◌, ap, List, [], ◌∷◌, ◌++◌, true, keep, take,
  length, ltb, leb, arith, Bool-cases, inl, inr, In, here, there, In-take, In-keep, length-append,
}
use mathlib.Core.List.{append_assoc, append-nil}
use bifrost_platform_plugin.Prelude.Sorting.{sort_by, IsPreorder, In-sort_by}
use bifrost_platform_plugin.Calendar.{Date, is_open, walk_back, max_steps, iter_weekdays_excluding}

-- `k` days, from `d` down.
unfoldable pub days_down : ℕ → Date → List Date
days_down zero d = []
days_down (suc k) d = d ∷ days_down k (d - 1)

pub In-days_down : (k d : ℕ) {x : Date} → In x (days_down k d) → (x ≤ d) × (d < x + k)
unfolding days_down
In-days_down zero d m = elim m [ ]
In-days_down (suc k) d (here e) = omega (arith, e)
In-days_down (suc k) d (there m) = omega (arith, In-days_down k (d - 1) m)

take-nil : {A : Type 0} (n : ℕ) → take {A = A} n [] ≡ []
take-nil zero = refl
take-nil (suc n) = refl

take_pos : (k m : ℕ) (d : Date) (l : List Date) → k ≡ suc m → take k (d ∷ l) ≡ d ∷ take m l
take_pos k m d l e = rw e refl

-- The `while`, from any state of its variables.
walk_back_lem :
    (steps n : ℕ) (closed : List Date) (d : Date) (out : List Date)
    → walk_back steps n closed d out
      ≡ out ++ take (n - length out) (keep (is_open closed) (days_down steps d))
unfolding walk_back days_down
walk_back_lem zero n closed d out = rw take-nil (sym (append-nil out))
walk_back_lem (suc steps) n closed d out = elim (Bool-cases (ltb (length out) n)) [
  | inr full ↦
      let none_left : n - length out ≡ 0 = ground (arith, full) in
      rw (full, none_left) (sym (append-nil out))
  | inl room ↦ elim (Bool-cases (is_open closed d)) [
    | inr shut ↦ rw (room, shut) (walk_back_lem steps n closed (d - 1) out)
    | inl open_day ↦
        let longer : n - length out ≡ suc (n - length (out ++ d ∷ [])) =
          ground (arith, room, length-append out (d ∷ [])) in
        rw (room, open_day, longer)
          (walk_back_lem steps n closed (d - 1) (out ++ d ∷ []) ∙ append_assoc out (d ∷ []) _)
  ]
]

leb-IsPreorder : IsPreorder leb
leb-IsPreorder = record { total = λ a b h. ground arith; trans = λ a b c h k. ground arith }

-- The bounded walk is the plain description: the days returned are the first `n` open days among
-- the max(4 n, n + 60) days counted down from `end`, sorted.
pub iter_weekdays_excluding_lem :
    (end : Date) (n : ℕ) (closed : List Date)
    → iter_weekdays_excluding end n closed
      ≡ sort_by leb (take n (keep (is_open closed) (days_down (max_steps n) end)))
unfolding iter_weekdays_excluding
iter_weekdays_excluding_lem end n closed =
    let all_days = keep (is_open closed) (days_down (max_steps n) end) in
    let whole : n - length {A = Date} [] ≡ n = omega arith in
    ap (sort_by leb) (walk_back_lem (max_steps n) n closed end [] ∙ ap (λ k. take k all_days) whole)

-- A day that the walk returns is open and lies among the days that it may look at.
pub In-iter :
    (end : Date) (n : ℕ) (closed : List Date) {d : Date}
    → In d (iter_weekdays_excluding end n closed)
    → (is_open closed d ≡ true) × (d ≤ end) × (end < d + max_steps n)
In-iter end n closed {d} m =
    let days = keep (is_open closed) (days_down (max_steps n) end) in
    let k : In d (sort_by leb (take n days)) = rw iter_weekdays_excluding_lem at m in
    let (inside, t) =
      In-keep (is_open closed) (days_down (max_steps n) end)
        (In-take n days (In-sort_by leb (take n days) k)) in
    let (le, lt) = In-days_down (max_steps n) end inside in (t, le, lt)
