-- ===== src/Verdicts/Changes.antt =====
-- `diff` of verdicts.py reports exactly the verdicts that differ, and the same moves the other way
-- round when its two sides are swapped.
use bifrost_platform_plugin.Prelude.{
  In-map, map-In, ℕ, zero, suc, ◌≡◌, ◌≢◌, ◌↔◌, refl, sym, ap, ◌∙◌, String, Option, none, some, List,
  [], ◌∷◌, ◌++◌, Bool, true, false, not, has, ltb, keep, str_eq, if◌then◌else◌, eq_iff, Bool-cases,
  Option-cases, inl, inr, In, here, there, In-cons, In-append, In-append_left, In-append_right,
  In-keep, keep-In, arith, ==_iff,
}
use bifrost_platform_plugin.Prelude.Sorting.{sort_by, sort_by-In}
use bifrost_platform_plugin.Prelude.Text.{str_leb}
use bifrost_platform_plugin.Verdicts.{
  Verdict, ok, partial, thin, boundary, unknown, Axis, breadth, depth, freshness, continuity, axes,
  Entry, Verdicts, find, Change, change, same, tag, direction, Direction, regressed, recovered,
  changed, diff_axes, distinct, names_of, diff_names, diff, rank_of,
}

untag : ℕ → Verdict
untag zero = ok
untag (suc zero) = partial
untag (suc (suc zero)) = thin
untag (suc (suc (suc zero))) = boundary
untag (suc (suc (suc (suc n)))) = unknown

untag-tag : (v : Verdict) → untag (tag v) ≡ v
unfolding untag
untag-tag ok = refl
untag-tag partial = refl
untag-tag thin = refl
untag-tag boundary = refl
untag-tag unknown = refl

same_eq : (v w : Option Verdict) → same v w ≡ true → v ≡ w
unfolding same
same_eq none none h = refl
same_eq none (some w) h = ground (arith, h)
same_eq (some v) none h = ground (arith, h)
same_eq (some v) (some w) h =
    ap some (sym (untag-tag v) ∙ ap untag ((==_iff (tag v) (tag w)).0 h) ∙ untag-tag w)

same_refl : (v : Option Verdict) → same v v ≡ true
unfolding same
same_refl none = refl
same_refl (some v) = (==_iff (tag v) (tag v)).1 refl

same_sym : (v w : Option Verdict) → same v w ≡ false → same w v ≡ false
same_sym v w h = elim (Bool-cases (same w v)) [
  | inl t ↦ absurd (cc (ap (same v) (same_eq w v t), same_refl v, h))
  | inr f ↦ f
]

In-axes : (axis : Axis) → In axis axes
In-axes breadth = here refl
In-axes depth = there (here refl)
In-axes freshness = there (there (here refl))
In-axes continuity = there (there (there (here refl)))

has_str-In : (x : String) (xs : List String) → has (str_eq x) xs ≡ true → In x xs
has_str-In x [] h = ground (arith, h)
has_str-In x (y ∷ ys) h = elim (Bool-cases (str_eq x y)) [
  | inl t ↦ here ((eq_iff x y).0 t)
  | inr f ↦ there (has_str-In x ys (rw f at h))
]

distinct-In : (ns : List String) {n : String} → In n ns → In n (distinct ns)
unfolding distinct
distinct-In [] m = m
distinct-In (x ∷ xs) {n} m = elim (Bool-cases (has (str_eq x) xs)) [
  | inl t ↦ rw t (elim (In-cons m) [
    | inl e ↦ distinct-In xs (rw e (has_str-In x xs t))
    | inr q ↦ distinct-In xs q
  ])
  | inr f ↦ rw f (elim (In-cons m) [ inl e ↦ here e | inr q ↦ there (distinct-In xs q) ])
]

find-In :
    (name : String) (m : List Entry) (axis : Axis) (v : Verdict)
    → find name m axis ≡ some v
    → In name (names_of m)
unfolding find
find-In name [] axis v h = ground (arith, h)
find-In name (e ∷ m) axis v h = elim (Bool-cases (str_eq e.name name)) [
  | inl t ↦ here (sym ((eq_iff e.name name).0 t))
  | inr f ↦ there (find-In name m axis v (rw f at h))
]

In-diff_axes :
    (name : String) (b a : Verdicts) {c : Change}
    → In c (diff_axes name b a)
    → (axis : Axis) × (c ≡ change name b a axis) × (same (b axis) (a axis) ≡ false)
unfolding diff_axes
In-diff_axes name b a m =
    let differs : Axis → Bool = λ axis. not (same (b axis) (a axis)) in
    let (axis, k, e) = In-map (change name b a) (keep differs axes) m in
    (axis, e, ground (arith, (In-keep differs axes k).1))

diff_axes-In :
    (name : String) (b a : Verdicts) (axis : Axis)
    → same (b axis) (a axis) ≡ false
    → In (change name b a axis) (diff_axes name b a)
unfolding diff_axes
diff_axes-In name b a axis h =
    let differs : Axis → Bool = λ axis. not (same (b axis) (a axis)) in
    map-In (change name b a) (keep differs axes)
      (keep-In differs axes (In-axes axis) (ground (arith, h))) refl

In-diff_names :
    (ns : List String) (before after : List Entry) {c : Change}
    → In c (diff_names ns before after)
    → (name : String) × In c (diff_axes name (find name before) (find name after))
unfolding diff_names
In-diff_names [] before after m = elim m [ ]
In-diff_names (n ∷ ns) before after m =
    elim (In-append (diff_axes n (find n before) (find n after)) (diff_names ns before after) m) [
      | inl l ↦ (n, l)
      | inr r ↦ In-diff_names ns before after r
    ]

diff_names-In :
    (ns : List String) (before after : List Entry) {c : Change} {name : String}
    → In name ns
    → In c (diff_axes name (find name before) (find name after))
    → In c (diff_names ns before after)
unfolding diff_names
diff_names-In [] before after m k = elim m [ ]
diff_names-In (n ∷ ns) before after (here e) k =
    In-append_left (diff_axes n (find n before) (find n after)) (diff_names ns before after)
      (rw e at k)
diff_names-In (n ∷ ns) before after (there m) k =
    In-append_right (diff_axes n (find n before) (find n after)) (diff_names ns before after)
      (diff_names-In ns before after m k)

named_somewhere :
    (name : String) (before after : List Entry) (axis : Axis)
    → same (find name before axis) (find name after axis) ≡ false
    → In name (names_of before ++ names_of after)
named_somewhere name before after axis h = elim (Option-cases (find name before axis)) [
  | inr (v, e) ↦ In-append_left (names_of before) (names_of after) (find-In name before axis v e)
  | inl e ↦ elim (Option-cases (find name after axis)) [
    | inr (v, k) ↦ In-append_right (names_of before) (names_of after) (find-In name after axis v k)
    | inl k ↦ absurd (cc (same_refl none, e, k, h))
  ]
]

-- A change is reported exactly if it is what the two maps say of some dataset and axis where their
-- verdicts differ: no difference is left out, a dataset that only one of the maps has included, and
-- nothing else is reported.
pub diff_exact :
    (before after : List Entry) (c : Change)
    → In c (diff before after) ↔ (
        (name : String) × (axis : Axis) × (c
          ≡ change name (find name before) (find name after) axis)
        × (find name before axis ≢ find name after axis))
unfolding diff
diff_exact before after c =
    let names = distinct (names_of before ++ names_of after) in
    (
      λ m.
          let (name, k) = In-diff_names (sort_by str_leb names) before after m in
          let (axis, e, d) = In-diff_axes name (find name before) (find name after) k in
          (
            name,
            axis,
            e,
            λ s. cc (ap (same (find name before axis)) s, same_refl (find name before axis), d),
          ),
      λ (name, axis, e, d).
          let differ : same (find name before axis) (find name after axis) ≡ false =
            elim (Bool-cases (same (find name before axis) (find name after axis))) [
              | inl t ↦ absurd (d (same_eq (find name before axis) (find name after axis) t))
              | inr f ↦ f
            ] in
          diff_names-In (sort_by str_leb names) before after
            (sort_by-In str_leb names (
              distinct-In (names_of before ++ names_of after)
                (named_somewhere name before after axis differ)))
            (rw e (diff_axes-In name (find name before) (find name after) axis differ)),
    )

abbrev pub opposite : Direction → Direction
opposite regressed = recovered
opposite recovered = regressed
opposite changed = changed

abbrev pub mirror : Change → Change
mirror c = record {
  dataset = c.dataset;
  axis = c.axis;
  was = c.now;
  now = c.was;
  direction = opposite c.direction;
}

opposite-ranks :
    (a b : Option ℕ)
    → elim b [
      | none ↦ changed
      | some y ↦ elim a [
        | none ↦ changed
        | some x ↦ if ltb y x then regressed else if ltb x y then recovered else changed
      ]
    ]
      ≡ opposite (elim a [
        | none ↦ changed
        | some x ↦ elim b [
          | none ↦ changed
          | some y ↦ if ltb x y then regressed else if ltb y x then recovered else changed
        ]
      ])
opposite-ranks none none = refl
opposite-ranks none (some y) = refl
opposite-ranks (some x) none = refl
opposite-ranks (some x) (some y) = ground arith

direction-opposite : (v w : Option Verdict) → direction w v ≡ opposite (direction v w)
unfolding direction
direction-opposite v w = opposite-ranks (rank_of v) (rank_of w)

-- Swapping the two maps mirrors the report: the same datasets and axes, with the two verdicts
-- swapped and a regression for each recovery.
pub diff-mirror :
    (before after : List Entry) (c : Change)
    → In c (diff before after)
    → In (mirror c) (diff after before)
unfolding change direction find
diff-mirror before after c m =
    let (name, axis, e, d) = (diff_exact before after c).0 m in
    (diff_exact after before (mirror c)).1 (
      name,
      axis,
      ap mirror e
          ∙ ap
              (λ x. record (change name (find name after) (find name before) axis) {
                direction = x;
              })
              (sym (direction-opposite (find name before axis) (find name after axis))),
      λ s. d (sym s),
    )
