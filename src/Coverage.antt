-- ===== src/Coverage.antt =====
-- coverage_history.py: the recorded verdicts, one row for each change. `digest` is the fingerprint
-- that `json.dumps` and SHA-256 make of a map. What is stored as jsonb is read back as it was.
pub mod Effects
pub mod Trim
pub mod Runs
mod Tests
use bifrost_platform_plugin.Prelude.{
  ℕ, zero, suc, ◌+◌, ◌-◌, String, Option, none, some, List, [], ◌∷◌, ◌++◌, Bool, true, false, not,
  ◌&&◌, ◌||◌, keep, map, take, length, str_eq, ltb, leb, ◌==◌, if◌then◌else◌,
}
use bifrost_platform_plugin.Prelude.Sorting.{sort_by}
use bifrost_platform_plugin.Prelude.Text.{str_leb}
use bifrost_platform_plugin.Db.{
  Db, Conn, Outcome, return, raise, pure, execute, commit, ◌>>=◌, ◌>>◌,
}
use bifrost_platform_plugin.Verdicts.{
  DatasetRow, Entry, Verdicts, put, diff, distinct, filled, Change,
}

-- A row of ops_jobs.coverage_sample.
pub record Sample : Type 0 where
  pub id : ℕ
  pub first_seen_at : ℕ
  pub last_seen_at : ℕ
  pub digest : String
  pub verdicts : List Entry

pub record History : Type 0 where
  pub samples : List Sample
  pub next_id : ℕ

-- ORDER BY first_seen_at DESC, coverage_sample_id DESC
unfoldable pub newer : Sample → Sample → Bool
newer r s =
    if r.first_seen_at == s.first_seen_at
    then leb s.id r.id
    else ltb s.first_seen_at r.first_seen_at

unfoldable pub latest_two : History → List Sample
unfolding newer
latest_two h = take 2 (sort_by newer h.samples)

abbrev pub entry_of : String → List Entry → Option Entry
entry_of name [] = none
entry_of name (e ∷ m) = if str_eq e.name name then some e else entry_of name m

-- `merged[name] = dict(prior)` for each dataset that could not be read.
unfoldable pub carry_forward : List Entry → List Entry → List String → List Entry
unfolding put
carry_forward current previous [] = current
carry_forward current previous (name ∷ unread) =
    let merged : List Entry = elim (entry_of name previous) [
      | none ↦ current
      | some e ↦ put name e.verdicts current
    ] in
    carry_forward merged previous unread

abbrev pub touch : ℕ → ℕ → History → History
touch now id h = record h {
  samples = map (λ s. if s.id == id then record s { last_seen_at = now } else s) h.samples;
}

abbrev pub insert_sample : ℕ → String → List Entry → History → History
insert_sample now d verdicts h = record {
  samples =
      record {
        id = h.next_id;
        first_seen_at = now;
        last_seen_at = now;
        digest = d;
        verdicts = verdicts;
      }
      ∷ h.samples;
  next_id = suc h.next_id;
}

pub record Recorded : Type 0 where
  pub recorded : Bool
  pub changed_at : Option ℕ
  pub previous_at : Option ℕ
  pub samples : ℕ
  pub carried_forward : List String
  pub changes : List Change

abbrev pub empty : Recorded
empty = record {
  recorded = false;
  changed_at = none;
  previous_at = none;
  samples = 0;
  carried_forward = [];
  changes = [];
}

-- `except Exception: conn.rollback(); return default`
abbrev pub caught : {S A : Type 0} → A → Outcome A × Conn S → Outcome A × Conn S
caught default (return a, c) = (return a, c)
caught default (raise e, c) = (return default, record c { working = c.committed })

-- The count of the rows, the commit and the report.
abbrev pub finish : (ℕ → Recorded) → Db History Recorded
finish make = do samples ← execute (λ h. (length h.samples, h)); commit; pure (make samples)

module _ (digest : List Entry → String) (now : ℕ) (unread : List String) where
  -- The report, from what was before and the two instants.
  abbrev pub report : List Entry → Option (List Entry) → ℕ → Option ℕ → ℕ → Recorded
  unfolding diff distinct
  report verdicts before changed_at previous_at samples = record {
    recorded = true;
    changed_at = some changed_at;
    previous_at = previous_at;
    samples = samples;
    carried_forward = sort_by str_leb (distinct unread);
    changes = elim before [ none ↦ [] | some b ↦ diff b verdicts ];
  }

  -- Another map than the newest row has: a new row.
  abbrev pub record_change : List Entry → List Sample → Db History Recorded
  record_change verdicts [] = do
    execute (λ h. (tt, insert_sample now (digest verdicts) verdicts h))
    finish (report verdicts none now none)
  record_change verdicts (head ∷ rest) = do
    execute (λ h. (tt, insert_sample now (digest verdicts) verdicts h))
    finish (report verdicts (some head.verdicts) now (some head.first_seen_at))

  -- The same map as the newest row has: that row was seen again.
  abbrev pub record_again : List Entry → Sample → List Sample → Db History Recorded
  record_again verdicts head [] = do
    execute (λ h. (tt, touch now head.id h))
    finish (report verdicts none head.first_seen_at none)
  record_again verdicts head (s ∷ rest) = do
    execute (λ h. (tt, touch now head.id h))
    finish (report verdicts (some s.verdicts) head.first_seen_at (some s.first_seen_at))

  unfoldable pub record_latest : List Entry → List Sample → Db History Recorded
  unfolding carry_forward
  record_latest verdicts [] = record_change (carry_forward verdicts [] unread) []
  record_latest verdicts (head ∷ rest) =
      let merged = carry_forward verdicts head.verdicts unread in
      if str_eq head.digest (digest merged)
      then record_again merged head rest
      else record_change merged (head ∷ rest)

  unfoldable pub record_verdicts : List Entry → Db History Recorded
  unfolding latest_two record_latest
  record_verdicts [] c = (return empty, c)
  record_verdicts (v ∷ vs) c =
      caught empty ((do latest ← execute (λ h. (latest_two h, h)); record_latest (v ∷ vs) latest) c)

-- The DELETE, where `newest_first` is what its subquery orders: it spares the newest row.
abbrev pub trim_after : ℕ → ℕ → History → List Sample → History
trim_after now keep_for h [] = h
trim_after now keep_for h (newest ∷ rest) = record h {
  samples =
      keep (λ s. not (ltb (s.last_seen_at + keep_for) now && not (s.id == newest.id))) h.samples;
}

unfoldable pub trim_rows : ℕ → ℕ → History → History
unfolding newer
trim_rows now keep_for h = trim_after now keep_for h (sort_by newer h.samples)

unfoldable pub trim_samples : ℕ → ℕ → Db History ℕ
unfolding trim_rows
trim_samples now keep_for c = caught 0 (
    (do
      removed ← execute (λ h.
          (length h.samples - length (trim_rows now keep_for h).samples, trim_rows now keep_for h))
      commit
      pure removed)
      c)
