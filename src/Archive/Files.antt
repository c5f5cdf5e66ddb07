-- ===== src/Archive/Files.antt =====
-- What may stand in the table and among the files when a range ends.
use bifrost_platform_plugin.Prelude.{
  ℕ, zero, suc, List, [], ◌∷◌, ◌++◌, Bool, true, false, not, keep, length, arith, All, ◌≡◌, refl,
  sym, ap, ◌∙◌, ◌≢◌, Bool-cases, inl, inr,
}
use bifrost_platform_plugin.Archive.{
  Signal, fails_late, World, Name, same_name, later, next, put_file, drop_file, rows_of,
}

same_name_self : (name : Name) → same_name name name ≡ true
same_name_self name = ground arith

pub certain_next : (ss : List Signal) → All (λ s. s ≢ fails_late) ss → next ss ≢ fails_late
certain_next [] h = ground arith
certain_next (s ∷ ss) (h, hs) = h

pub certain_later :
    (ss : List Signal) → All (λ s. s ≢ fails_late) ss → All (λ s. s ≢ fails_late) (later ss)
certain_later [] h = tt
certain_later (s ∷ ss) (h, hs) = hs

module _ {A : Type 0} where
  -- A file of that name is not there.
  abbrev pub Fresh : Name → List (Name × List A) → Type 0
  Fresh name fs = All (λ f. same_name f.0 name ≡ false) fs

  pub put_file-Fresh :
      (name : Name) (rows : List A) (fs : List (Name × List A))
      → Fresh name fs
      → put_file name rows fs ≡ fs ++ ((name, rows) ∷ [])
  put_file-Fresh name rows [] h = refl
  put_file-Fresh name rows (f ∷ fs) (h, hs) = rw h (ap (f ∷◌) (put_file-Fresh name rows fs hs))

  pub drop_file-Fresh :
      (name : Name) (rows : List A) (fs : List (Name × List A))
      → Fresh name fs
      → drop_file name (fs ++ ((name, rows) ∷ [])) ≡ fs
  drop_file-Fresh name rows [] h = rw (same_name_self name) refl
  drop_file-Fresh name rows (f ∷ fs) (h, hs) = rw h (ap (f ∷◌) (drop_file-Fresh name rows fs hs))

  pub keep_rest :
      (p : A → Bool) (xs : List A) → length (keep p xs) ≡ 0 → keep (λ r. not (p r)) xs ≡ xs
  keep_rest p [] h = refl
  keep_rest p (x ∷ xs) h = elim (Bool-cases (p x)) [
    | inl yes_in ↦
        (let h' : suc (length (keep p xs)) ≡ 0 = rw yes_in at h in absurd (omega (arith, h')))
    | inr out ↦ rw out (ap (x ∷◌) (keep_rest p xs (rw out at h)))
  ]

  -- What may stand when the range is given up: all rows are in the table, with or without a copy in
  -- a file, or those of the range are in the file alone.
  pub data Fate (table rest hits : List A) (files : List (Name × List A)) (name : Name)
      : List A → List (Name × List A) → Type 0 where
    untouched :
        {t : List A} {fs : List (Name × List A)}
        → t ≡ table
        → fs ≡ files
        → Fate table rest hits files name t fs
    copied :
        {t : List A} {fs : List (Name × List A)}
        → t ≡ table
        → fs ≡ files ++ ((name, hits) ∷ [])
        → Fate table rest hits files name t fs
    moved :
        {t : List A} {fs : List (Name × List A)}
        → t ≡ rest
        → fs ≡ files ++ ((name, hits) ∷ [])
        → Fate table rest hits files name t fs

  -- No rows, no file.
  abbrev pub with_file : ℕ → Name × List A → List (Name × List A) → List (Name × List A)
  with_file zero f files = files
  with_file (suc n) f files = files ++ (f ∷ [])

  -- Where it returns `n`.
  pub record Moved (Quiet : Type 0) (rest hits : List A) (files : List (Name × List A))
      (name : Name) (n : ℕ) (w : World A) : Type 0 where
    pub count : n ≡ length hits
    pub left_over : w.table ≡ rest
    pub saved : w.files ≡ with_file n (name, hits) files
    pub certain : All (λ s. s ≢ fails_late) w.commits
    pub calm : Quiet → (w.signals ≡ []) × (w.commits ≡ [])

  -- On the way: the table and the files as they were, what the transaction sees, and the rows in
  -- the partial file.
  pub record Going (Quiet : Type 0) (table : List A) (files : List (Name × List A))
      (view written : List A) (w : World A) : Type 0 where
    pub same_table : w.table ≡ table
    pub same_files : w.files ≡ files
    pub seen : w.view ≡ view
    pub begun : rows_of w.partial ≡ written
    pub certain : All (λ s. s ≢ fails_late) w.commits
    pub calm : Quiet → (w.signals ≡ []) × (w.commits ≡ [])

  -- What stands where it is given up, which it is not in quiet.
  pub record Stopped (Quiet : Type 0) (table rest hits : List A) (files : List (Name × List A))
      (name : Name) (w : World A) : Type 0 where
    pub fate : Fate table rest hits files name w.table w.files
    pub not_quiet : Quiet → ⊥

  pub Moved-Fate :
      (Quiet : Type 0) (p : A → Bool) (table late : List A) (files : List (Name × List A))
      (name : Name) (n : ℕ) (w : World A)
      → Moved Quiet (keep (λ r. not (p r)) table ++ late) (keep p table) files name n w
      → Fate
          (table ++ late)
          (keep (λ r. not (p r)) table ++ late)
          (keep p table)
          files
          name
          w.table
          w.files
  Moved-Fate Quiet p table late files name zero w m =
      untouched (m.left_over ∙ ap (λ ys. ys ++ late) (keep_rest p table (sym m.count))) m.saved
  Moved-Fate Quiet p table late files name (suc n) w m = moved m.left_over m.saved
