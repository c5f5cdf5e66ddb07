-- ===== src/Coverage/Runs.antt =====
-- Histories of coverage_history.py: what any sequence of computes leaves in the table, whichever
-- calls of the driver raise.
use bifrost_platform_plugin.Prelude.{
  In-map, ℕ, ◌+◌, ◌≤◌, ◌<◌, ◌≡◌, refl, sym, ap, ◌∙◌, String, List, [], ◌∷◌, Bool, true, false, map,
  take, length, str_eq, ◌==◌, if◌then◌else◌, arith, Bool-cases, inl, inr, In, here, In-cons,
}
use bifrost_platform_plugin.Prelude.Sorting.{sort_by, Ordered}
use bifrost_platform_plugin.Verdicts.{Entry}
use bifrost_platform_plugin.Coverage.{
  Sample, History, newer, latest_two, touch, insert_sample, record_verdicts,
}
use bifrost_platform_plugin.Coverage.Effects.{
  Effect, unchanged, touched, first, changed, record-Effect,
}

sort_by-Ordered_id :
    {A : Type 0} (le : A → A → Bool) (xs : List A) → Ordered le xs → sort_by le xs ≡ xs
sort_by-Ordered_id le [] o = refl
sort_by-Ordered_id le (x ∷ []) o = refl
sort_by-Ordered_id le (x ∷ y ∷ ys) o =
    rw (sort_by-Ordered_id le (y ∷ ys) o.1) (rw (o.0 y (here refl)) refl)

-- Consecutive rows, from the newest on, have different fingerprints.
abbrev pub Alternates : List Sample → Type 0
Alternates [] = Unit
Alternates (s ∷ []) = Unit
Alternates (s ∷ r ∷ rest) = (str_eq r.digest s.digest ≡ false) × Alternates (r ∷ rest)

pub record IsSound (now : ℕ) (h : History) : Type 0 where
  pub ordered : Ordered newer h.samples
  pub seen : (s : Sample) → In s h.samples → (s.first_seen_at ≤ now) × (s.id < h.next_id)
  pub alternates : Alternates h.samples

abbrev seen_again : ℕ → ℕ → Sample → Sample
seen_again now id s = if s.id == id then record s { last_seen_at = now } else s

-- Seeing a row again changes nothing that the order or the fingerprints are read from.
seen_again-same :
    (now id : ℕ) (s : Sample)
    → ((seen_again now id s).id ≡ s.id)
      × ((seen_again now id s).first_seen_at ≡ s.first_seen_at)
      × ((seen_again now id s).digest ≡ s.digest)
seen_again-same now id s = elim (Bool-cases (s.id == id)) [
  | inl t ↦ rw t (refl, refl, refl)
  | inr f ↦ rw f (refl, refl, refl)
]

newer-seen_again :
    (now id : ℕ) (r s : Sample)
    → newer r s ≡ true
    → newer (seen_again now id r) (seen_again now id s) ≡ true
unfolding newer
newer-seen_again now id r s h =
    let a = seen_again-same now id r in
    let b = seen_again-same now id s in rw (a.0) (rw (a.1) (rw (b.0) (rw (b.1) h)))

touch-Ordered :
    (now id : ℕ) (xs : List Sample) → Ordered newer xs → Ordered newer (map (seen_again now id) xs)
touch-Ordered now id [] o = tt
touch-Ordered now id (x ∷ xs) o = (
  λ s m.
      let (a, k, e) = In-map (seen_again now id) xs m in
      ap (newer (seen_again now id x)) e ∙ newer-seen_again now id x a (o.0 a k),
  touch-Ordered now id xs o.1,
)

touch-Alternates :
    (now id : ℕ) (xs : List Sample) → Alternates xs → Alternates (map (seen_again now id) xs)
touch-Alternates now id [] o = tt
touch-Alternates now id (x ∷ []) o = tt
touch-Alternates now id (x ∷ y ∷ xs) (o, rest) = (
  rw ((seen_again-same now id x).2) (rw ((seen_again-same now id y).2) o),
  touch-Alternates now id (y ∷ xs) rest,
)

touch-IsSound :
    (now later id : ℕ) (h : History)
    → now ≤ later
    → IsSound now h
    → IsSound later (touch later id h)
touch-IsSound now later id h le s = record {
  ordered = touch-Ordered later id h.samples s.ordered;
  seen = λ r m.
      let (a, k, e) = In-map (seen_again later id) h.samples m in
      let (i, f, d) = seen_again-same later id a in
      let (at, number) = s.seen a k in
      (
        omega (arith, at, f, le, ap (λ x. x.first_seen_at) e),
        omega (arith, number, i, ap (λ x. x.id) e),
      );
  alternates = touch-Alternates later id h.samples s.alternates;
}

later-IsSound : (now later : ℕ) (h : History) → now ≤ later → IsSound now h → IsSound later h
later-IsSound now later h le s = record {
  ordered = s.ordered;
  seen = λ r m. let (at, number) = s.seen r m in (omega (arith, at, le), number);
  alternates = s.alternates;
}

HeadDiffers : String → List Sample → Type 0
HeadDiffers d [] = Unit
HeadDiffers d (s ∷ rest) = str_eq s.digest d ≡ false

Alternates-cons :
    (s : Sample) (xs : List Sample) → HeadDiffers s.digest xs → Alternates xs → Alternates (s ∷ xs)
unfolding HeadDiffers
Alternates-cons s [] h a = tt
Alternates-cons s (x ∷ xs) h a = (h, a)

insert_sample-IsSound :
    (digest : List Entry → String) (now later : ℕ) (v : List Entry) (h : History)
    → now ≤ later
    → IsSound now h
    → HeadDiffers (digest v) h.samples
    → IsSound later (insert_sample later (digest v) v h)
unfolding newer
insert_sample-IsSound digest now later v h le s differs = record {
  ordered = (λ r m. let (at, number) = s.seen r m in ground (arith, at, number, le), s.ordered);
  seen = λ r m. elim (In-cons m) [
    | inl e ↦ (omega (arith, ap (λ x. x.first_seen_at) e), omega (arith, ap (λ x. x.id) e))
    | inr k ↦ let (at, number) = s.seen r k in (omega (arith, at, le), omega (arith, number))
  ];
  alternates =
      Alternates-cons
        (record {
          id = h.next_id;
          first_seen_at = later;
          last_seen_at = later;
          digest = digest v;
          verdicts = v;
        })
        h.samples differs s.alternates;
}

abbrev head_or : Sample → List Sample → Sample
head_or d [] = d
head_or d (x ∷ xs) = x

take-HeadDiffers :
    (d : String) (s : Sample) (rest xs : List Sample)
    → s ∷ rest ≡ take 2 xs
    → str_eq s.digest d ≡ false
    → HeadDiffers d xs
unfolding HeadDiffers
take-HeadDiffers d s rest [] e h = tt
take-HeadDiffers d s rest (x ∷ xs) e h = ap (λ o. str_eq (head_or s o).digest d) (sym e) ∙ h

Effect-IsSound :
    (digest : List Entry → String) (now later : ℕ) (h h' : History) (latest : List Sample)
    → now ≤ later
    → IsSound now h
    → latest ≡ take 2 h.samples
    → Effect digest later h latest h'
    → IsSound later h'
unfolding HeadDiffers
Effect-IsSound digest now later h h' latest le s e unchanged = later-IsSound now later h le s
Effect-IsSound digest now later h h' latest le s e (touched id) = touch-IsSound now later id h le s
Effect-IsSound digest now later h h' _ le s e (first v) =
    insert_sample-IsSound digest now later v h le s (none_before h.samples e)
  where
    none_before : (xs : List Sample) → [] ≡ take 2 xs → HeadDiffers (digest v) xs
    none_before [] e = tt
    none_before (x ∷ xs) e = absurd (ground (arith, ap length e))
Effect-IsSound digest now later h h' _ le s e (changed {s = r} {rest = rest} v d) =
    insert_sample-IsSound digest now later v h le s
      (take-HeadDiffers (digest v) r rest h.samples e d)

-- A compute some time after the last one. `faults` and `late` say which calls of the driver raise in it,
-- and which commits before they raise take effect.
pub record Compute : Type 0 where
  pub after : ℕ
  pub verdicts : List Entry
  pub unread : List String
  pub faults : List Bool
  pub late : List Bool

module _ (digest : List Entry → String) where
  unfoldable pub run_computes : ℕ → List Compute → History → ℕ × History
  unfolding record_verdicts
  run_computes now [] h = (now, h)
  run_computes now (c ∷ cs) h =
      run_computes (now + c.after) cs
        (record_verdicts digest (now + c.after) c.unread c.verdicts
          (record { committed = h; working = h; faults = c.faults; late = c.late })).1.committed

  -- From a sound table, whatever the computes find, whichever datasets they cannot read and
  -- whichever calls raise: the table stays sound, which is to say that the order in which it is
  -- read is the order of insertion, ids are below the sequence, no row is from the future, and two
  -- consecutive rows never have the same fingerprint.
  pub run_computes-IsSound :
      (now : ℕ) (cs : List Compute) (h : History)
      → IsSound now h
      → IsSound (run_computes now cs h).0 (run_computes now cs h).1
  unfolding run_computes latest_two
  run_computes-IsSound now [] h s = s
  run_computes-IsSound now (c ∷ cs) h s =
      let later = now + c.after in
      let h' : History =
        (record_verdicts digest later c.unread c.verdicts
          (record { committed = h; working = h; faults = c.faults; late = c.late })).1.committed in
      let effect = (record-Effect digest later c.unread c.verdicts h c.faults c.late).1 in
      let latest : latest_two h ≡ take 2 h.samples =
        ap (take 2) (sort_by-Ordered_id newer h.samples s.ordered) in
      run_computes-IsSound later cs h'
        (Effect-IsSound digest now later h h' (latest_two h) (omega arith) s latest effect)
