-- ===== src/Coverage/Trim.antt =====
-- `trim_samples` of coverage_history.py bounds the history and not the present.
use bifrost_platform_plugin.Prelude.{
  ℕ, ◌+◌, ◌≤◌, ◌≡◌, ◌↔◌, ap, List, ◌∷◌, Bool, not, ◌&&◌, ltb, ◌==◌, keep, ◌⊎◌, inl, inr, In,
  In-keep, keep-In, arith,
}
use bifrost_platform_plugin.Prelude.Sorting.{sort_by}
use bifrost_platform_plugin.Coverage.{Sample, History, newer, trim_after, trim_rows}

abbrev stays : ℕ → ℕ → Sample → Sample → Bool
stays now keep_for newest s = not (ltb (s.last_seen_at + keep_for) now && not (s.id == newest.id))

trim_rows-stays :
    (now keep_for : ℕ) (h : History) (newest : Sample) (rest : List Sample)
    → sort_by newer h.samples ≡ newest ∷ rest
    → (trim_rows now keep_for h).samples ≡ keep (stays now keep_for newest) h.samples
unfolding trim_rows
trim_rows-stays now keep_for h newest rest e = ap (λ xs. (trim_after now keep_for h xs).samples) e

-- Of the rows of a table, exactly these survive a trim: the newest one, and those that were seen
-- within the window.
pub trim_rows_exact :
    (now keep_for : ℕ) (h : History) (newest : Sample) (rest : List Sample) (s : Sample)
    → sort_by newer h.samples ≡ newest ∷ rest
    → In s (trim_rows now keep_for h).samples
      ↔ (In s h.samples × ((s.id ≡ newest.id) ⊎ (now ≤ s.last_seen_at + keep_for)))
trim_rows_exact now keep_for h newest rest s e = rw (trim_rows-stays now keep_for h newest rest e) (
  λ m. let (k, t) = In-keep (stays now keep_for newest) h.samples m in (k, ground (arith, t)),
  λ (k, t).
      keep-In (stays now keep_for newest) h.samples k
        (elim t [ inl same ↦ ground (arith, same) | inr recent ↦ ground (arith, recent) ]),
)
