-- ===== src/Archive/Kept.antt =====
-- Where the rows are: in the table or in a file.
use bifrost_platform_plugin.Prelude.{
  ◌≡◌, refl, ap, ◌⊎◌, inl, inr, List, ◌++◌, Bool, not, keep, Bool-cases, In, here, In-append_left,
  In-append_right, keep-In,
}
use bifrost_platform_plugin.Archive.{World, Name}
use bifrost_platform_plugin.Archive.Files.{Fate, untouched, copied, moved}

module _ {A : Type 0} where
  -- In the table or in a file.
  abbrev pub Held : A → World A → Type 0
  Held r w = In r w.table ⊎ ((f : Name × List A) × In f w.files × In r f.1)

  -- The rows of the table are still somewhere, and the files that were there still are.
  pub record Kept (w w' : World A) : Type 0 where
    pub rows : (r : A) → In r w.table → Held r w'
    pub old : (f : Name × List A) → In f w.files → In f w'.files

  Held-step : (r : A) (v w : World A) → Kept v w → Held r v → Held r w
  Held-step r v w k (inl i) = k.rows r i
  Held-step r v w k (inr (f, i, j)) = inr (f, k.old f i, j)

  pub Kept-trans : (u v w : World A) → Kept u v → Kept v w → Kept u w
  Kept-trans u v w k l = record {
    rows = λ r i. Held-step r v w l (k.rows r i);
    old = λ f i. l.old f (k.old f i);
  }

  pub Kept-same : (u w : World A) → w.table ≡ u.table → w.files ≡ u.files → Kept u w
  Kept-same u w e f = record { rows = λ r i. inl (rw e i); old = λ g i. rw f i }

  pub Fate-Kept :
      (p : A → Bool) (late : List A) (name : Name) (u w : World A)
      → Fate
          (u.table ++ late)
          (keep (λ r. not (p r)) u.table ++ late)
          (keep p u.table)
          u.files
          name
          w.table
          w.files
      → Kept u w
  Fate-Kept p late name u w (untouched e f) = record {
    rows = λ r i. inl (rw e (In-append_left u.table late i));
    old = λ g i. rw f i;
  }
  Fate-Kept p late name u w (copied e f) = record {
    rows = λ r i. inl (rw e (In-append_left u.table late i));
    old = λ g i. rw f (In-append_left u.files _ i);
  }
  Fate-Kept p late name u w (moved e f) = record {
    rows = split_row;
    old = λ g i. rw f (In-append_left u.files _ i);
  }
    where
      split_row : (r : A) → In r u.table → Held r w
      split_row r i = elim (Bool-cases (p r)) [
        | inl hit ↦ inr (
          (name, keep p u.table),
          rw f (In-append_right u.files _ (here refl)),
          keep-In p u.table i hit,
        )
        | inr out ↦
            inl (rw e (In-append_left _ late (keep-In (λ x. not (p x)) u.table i (ap not out))))
      ]
