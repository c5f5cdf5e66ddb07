-- ===== src/Verdicts.antt =====
-- verdicts.py: what colour a mark is, and which marks moved between two recorded maps. A row of the
-- dimensions payload is a record with an Option where the code tests for None or a missing key.
-- Percentages count tenths, as the producer rounds them.
pub mod Judged
pub mod Maps
pub mod Changes
mod Tests
use bifrost_platform_plugin.Prelude.{
  ℕ, zero, suc, ◌+◌, ◌*◌, ◌/◌, String, Option, none, some, List, [], ◌∷◌, ◌++◌, Bool, true, false,
  not, ◌&&◌, ◌||◌, has, keep, map, str_eq, ltb, leb, ◌==◌, if◌then◌else◌,
}
use bifrost_platform_plugin.Prelude.Sorting.{sort_by}
use bifrost_platform_plugin.Prelude.Text.{str_leb}

pub data Verdict : Type 0 where
  ok partial thin boundary unknown : Verdict

pub data Axis : Type 0 where
  breadth depth freshness continuity : Axis

abbrev pub axes : List Axis
axes = breadth ∷ depth ∷ freshness ∷ continuity ∷ []

-- RANK.get: only three verdicts are points on the scale.
unfoldable pub rank : Verdict → Option ℕ
rank ok = some 0
rank partial = some 1
rank thin = some 2
rank boundary = none
rank unknown = none

-- BOUNDARY_KINDS
abbrev pub is_boundary_kind : Option String → Bool
is_boundary_kind none = false
is_boundary_kind (some k) = has (str_eq k) ("current_only" ∷ "catalogue" ∷ "forward_only" ∷ [])

pub record Breadth : Type 0 where
  pub judged : Option Bool
  pub pct : Option ℕ

pub record Depth : Type 0 where
  pub target_kind : Option String
  pub measured : Bool
  pub judged : Option Bool
  pub at_target : Option ℕ
  pub of : Option ℕ

pub record Freshness : Type 0 where
  pub measured : Bool
  pub newest : Option String
  pub judged : Option Bool
  pub cadence : Option String
  pub overdue : Option Bool
  pub days_behind : Option ℕ
  pub deadline_hours : Option ℕ

pub record Continuity : Type 0 where
  pub measured : Bool
  pub why : Option String
  pub days_present : Option ℕ
  pub days_absent : Option ℕ
  pub days_thin : Option ℕ

-- What a dataset is judged to be, axis by axis: a dict, with none for a missing key.
abbrev pub Verdicts : Type 0
Verdicts = Axis → Option Verdict

pub record DatasetRow : Type 0 where
  pub dataset : Option String
  pub error : Option String
  pub breadth : Breadth
  pub depth : Depth
  pub freshness : Freshness
  pub continuity : Continuity
  pub verdicts : Option Verdicts

-- The truth of an optional text.
abbrev pub filled : Option String → Bool
filled none = false
filled (some s) = not (str_eq s "")

-- `v is False`
abbrev pub is_false : Option Bool → Bool
is_false none = false
is_false (some b) = not b

-- `v or 0`
abbrev pub or_zero : Option ℕ → ℕ
or_zero none = 0
or_zero (some n) = n

unfoldable pub breadth_verdict : DatasetRow → Verdict
breadth_verdict row =
    if filled row.error
    then unknown
    else if is_false row.breadth.judged
    then boundary
    else elim row.breadth.pct [
      | none ↦ unknown
      | some pct ↦ if leb 950 pct then ok else if leb 500 pct then partial else thin
    ]

-- 100.0 * at / of, against 95 and 50.
unfoldable pub share_verdict : ℕ → ℕ → Verdict
share_verdict at of =
    if of == 0
    then unknown
    else if leb (95 * of) (100 * at)
    then ok
    else if leb (50 * of) (100 * at)
    then partial
    else thin

unfoldable pub depth_verdict : DatasetRow → Verdict
unfolding share_verdict
depth_verdict row =
    let d = row.depth in
    if filled row.error
    then unknown
    else if not d.measured
    then (if is_boundary_kind d.target_kind then boundary else unknown)
    else if is_false d.judged
    then boundary
    else share_verdict (or_zero d.at_target) (or_zero d.of)

-- -(-int(hours) // 24) + 1
abbrev pub allowed_days : ℕ → ℕ
allowed_days hours = (hours + 23) / 24 + 1

unfoldable pub lateness_verdict : ℕ → ℕ → Verdict
lateness_verdict allowed behind =
    if leb behind allowed then ok else if leb behind (allowed * 3) then partial else thin

unfoldable pub freshness_verdict : DatasetRow → Verdict
unfolding lateness_verdict
freshness_verdict row =
    let f = row.freshness in
    if filled row.error
    then unknown
    else if not f.measured
    then boundary
    else if not (filled f.newest)
    then unknown
    else if is_false f.judged
    then boundary
    else if elim f.cadence [ none ↦ false | some c ↦ not (str_eq c "session") ]
    then elim f.overdue [ none ↦ unknown | some late ↦ if late then thin else ok ]
    else elim f.days_behind [
      | none ↦ unknown
      | some behind ↦ lateness_verdict (allowed_days (or_zero f.deadline_hours)) behind
    ]

unfoldable pub holes_verdict : ℕ → ℕ → Verdict
holes_verdict sessions holes =
    if sessions == 0
    then unknown
    else if holes == 0
    then ok
    else if leb (10 * holes) sessions
    then partial
    else thin

unfoldable pub continuity_verdict : DatasetRow → Verdict
unfolding holes_verdict
continuity_verdict row =
    let c = row.continuity in
    if filled row.error
    then unknown
    else if not c.measured
    then (if filled c.why then boundary else unknown)
    else holes_verdict (or_zero c.days_present + or_zero c.days_absent)
        (or_zero c.days_absent + or_zero c.days_thin)

unfoldable pub verdicts_for : DatasetRow → Axis → Verdict
unfolding breadth_verdict depth_verdict freshness_verdict continuity_verdict
verdicts_for row breadth = breadth_verdict row
verdicts_for row depth = depth_verdict row
verdicts_for row freshness = freshness_verdict row
verdicts_for row continuity = continuity_verdict row

-- A dict from dataset to verdicts.
pub record Entry : Type 0 where
  pub name : String
  pub verdicts : Verdicts

abbrev pub nothing : Verdicts
nothing axis = none

-- `m.get(name) or {}`
unfoldable pub find : String → List Entry → Verdicts
find name [] = nothing
find name (e ∷ m) = if str_eq e.name name then e.verdicts else find name m

-- `m[name] = v`
unfoldable pub put : String → Verdicts → List Entry → List Entry
put name v [] = record { name = name; verdicts = v } ∷ []
put name v (e ∷ m) =
    let rest = put name v m in
    if str_eq e.name name then record { name = e.name; verdicts = v } ∷ m else e ∷ rest

-- `row.get("verdicts") or verdicts_for(row)`
unfoldable pub row_verdicts : DatasetRow → Verdicts
unfolding verdicts_for
row_verdicts row = elim row.verdicts [ none ↦ λ axis. some (verdicts_for row axis) | some v ↦ v ]

unfoldable pub record_row : DatasetRow → List Entry → List Entry
unfolding put row_verdicts
record_row row out = elim row.dataset [
  | none ↦ out
  | some name ↦ if str_eq name "" then out else put name (row_verdicts row) out
]

unfoldable pub record_rows : List DatasetRow → List Entry → List Entry
unfolding record_row
record_rows [] out = out
record_rows (row ∷ rows) out = record_rows rows (record_row row out)

unfoldable pub verdict_map : List DatasetRow → List Entry
unfolding record_rows
verdict_map rows = record_rows rows []

pub data Direction : Type 0 where
  regressed recovered changed : Direction

-- A missing side has no rank: it arrives as the text "None".
abbrev pub rank_of : Option Verdict → Option ℕ
rank_of none = none
rank_of (some v) = rank v

unfoldable pub direction : Option Verdict → Option Verdict → Direction
unfolding rank
direction before after = elim (rank_of before) [
  | none ↦ changed
  | some a ↦ elim (rank_of after) [
    | none ↦ changed
    | some b ↦ if ltb a b then regressed else if ltb b a then recovered else changed
  ]
]

pub record Change : Type 0 where
  pub dataset : String
  pub axis : Axis
  pub was : Option Verdict
  pub now : Option Verdict
  pub direction : Direction

abbrev pub tag : Verdict → ℕ
tag ok = 0
tag partial = 1
tag thin = 2
tag boundary = 3
tag unknown = 4

-- `was == now`
unfoldable pub same : Option Verdict → Option Verdict → Bool
same none none = true
same none (some w) = false
same (some v) none = false
same (some v) (some w) = tag v == tag w

abbrev pub change : String → Verdicts → Verdicts → Axis → Change
unfolding direction
change name b a axis = record {
  dataset = name;
  axis = axis;
  was = b axis;
  now = a axis;
  direction = direction (b axis) (a axis);
}

-- The inner loop of `diff`.
unfoldable pub diff_axes : String → Verdicts → Verdicts → List Change
unfolding same
diff_axes name b a = map (change name b a) (keep (λ axis. not (same (b axis) (a axis))) axes)

-- set(before) | set(after)
unfoldable pub distinct : List String → List String
distinct [] = []
distinct (n ∷ ns) = let rest = distinct ns in if has (str_eq n) ns then rest else n ∷ rest

abbrev pub names_of : List Entry → List String
names_of m = map (λ e. e.name) m

unfoldable pub diff_names : List String → List Entry → List Entry → List Change
unfolding diff_axes find
diff_names [] before after = []
diff_names (n ∷ ns) before after =
    diff_axes n (find n before) (find n after) ++ diff_names ns before after

unfoldable pub diff : List Entry → List Entry → List Change
unfolding diff_names distinct str_leb
diff before after =
    diff_names (sort_by str_leb (distinct (names_of before ++ names_of after))) before after
