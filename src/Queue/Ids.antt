-- ===== src/Queue/Ids.antt =====
-- Rows counted by id: what it means that `id` is a primary key, and the pigeonhole argument for
-- rows that other transactions have locked.
use bifrost_platform_plugin.Prelude.{
  ℕ, zero, suc, ◌+◌, ◌≤◌, ◌<◌, ◌≡◌, refl, sym, ◌∙◌, ap, List, [], ◌∷◌, ◌++◌, Bool, true, false, not,
  keep, take, length, ◌==◌, if◌then◌else◌, arith, inl, inr, In, here, there, In-keep, first_cases,
}
use bifrost_platform_plugin.Prelude.Sorting.{insert_by, sort_by}
use bifrost_platform_plugin.Queue.{Row}
use bifrost_platform_plugin.Queue.Claim.{is_locked}

abbrev pub count_id : ℕ → List Row → ℕ
count_id i [] = 0
count_id i (r ∷ rows) = let n = count_id i rows in if r.id == i then suc n else n

-- The primary key: no id stands twice.
abbrev pub DistinctIds : List Row → Type 0
DistinctIds rows = (i : ℕ) → count_id i rows ≤ 1

pub count_id-append :
    (i : ℕ) (xs ys : List Row) → count_id i (xs ++ ys) ≡ count_id i xs + count_id i ys
count_id-append i [] ys = omega arith
count_id-append i (x ∷ xs) ys = ground (arith, count_id-append i xs ys)

pub count_id-keep :
    (i : ℕ) (p : Row → Bool) (xs : List Row) → count_id i (keep p xs) ≤ count_id i xs
count_id-keep i p [] = omega arith
count_id-keep i p (x ∷ xs) = ground (arith, count_id-keep i p xs)

pub count_id-take : (i n : ℕ) (xs : List Row) → count_id i (take n xs) ≤ count_id i xs
count_id-take i zero xs = omega arith
count_id-take i (suc n) [] = omega arith
count_id-take i (suc n) (x ∷ xs) = ground (arith, count_id-take i n xs)

module _ (le : Row → Row → Bool) where
  count_id-insert_by :
      (i : ℕ) (x : Row) (ys : List Row) → count_id i (insert_by le x ys) ≡ count_id i (x ∷ ys)
  count_id-insert_by i x [] = refl
  count_id-insert_by i x (y ∷ ys) = ground (arith, count_id-insert_by i x ys)

  pub count_id-sort_by : (i : ℕ) (xs : List Row) → count_id i (sort_by le xs) ≡ count_id i xs
  count_id-sort_by i [] = refl
  count_id-sort_by i (x ∷ xs) =
      count_id-insert_by i x (sort_by le xs) ∙ ground (arith, count_id-sort_by i xs)

pub count_id-pos : (i : ℕ) (xs : List Row) {r : Row} → In r xs → r.id ≡ i → 0 < count_id i xs
count_id-pos i [] m e = elim m [ ]
count_id-pos i (x ∷ xs) (here q) e = ground (arith, ap (λ (v : Row). v.id) q)
count_id-pos i (x ∷ xs) (there m) e = ground (arith, count_id-pos i xs m e)

-- Two rows of a table with one id are one row.
pub DistinctIds-eq :
    (xs : List Row) {r s : Row} → DistinctIds xs → In r xs → In s xs → r.id ≡ s.id → r ≡ s
DistinctIds-eq [] d m n e = elim m [ ]
DistinctIds-eq (x ∷ xs) d (here p) (here q) e = p ∙ sym q
DistinctIds-eq (x ∷ xs) {r} {s} d (here p) (there n) e =
    absurd (ground (arith, d s.id, count_id-pos s.id xs n refl, ap (λ (v : Row). v.id) p))
DistinctIds-eq (x ∷ xs) {r} {s} d (there m) (here q) e =
    absurd (ground (arith, d r.id, count_id-pos r.id xs m refl, ap (λ (v : Row). v.id) q))
DistinctIds-eq (x ∷ xs) {r} {s} d (there m) (there n) e =
    DistinctIds-eq xs (λ i. ground (arith, d i)) m n e

length-keep-count_id :
    (i : ℕ) (xs : List Row) → length (keep (λ r. not (i == r.id)) xs) + count_id i xs ≡ length xs
length-keep-count_id i [] = refl
length-keep-count_id i (x ∷ xs) = ground (arith, length-keep-count_id i xs)

-- Distinct rows that are all locked are no more than the locks.
length-le-locked :
    (locked : List ℕ) (xs : List Row)
    → DistinctIds xs
    → ((r : Row) → In r xs → is_locked locked r ≡ true)
    → length xs ≤ length locked
unfolding is_locked
length-le-locked [] [] d all = omega arith
length-le-locked [] (x ∷ xs) d all = cc (all x (here refl))
length-le-locked (l ∷ ls) xs d all =
    let ih =
      length-le-locked ls (keep (λ r. not (l == r.id)) xs)
        (λ i. omega (arith, d i, count_id-keep i (λ r. not (l == r.id)) xs))
        (λ r m.
          let k = In-keep (λ (v : Row). not (l == v.id)) xs m in ground (arith, k.1, all r k.0)) in
    omega (arith, ih, length-keep-count_id l xs, d l)

pub unlocked_exists :
    (locked : List ℕ) (xs : List Row)
    → DistinctIds xs
    → length locked < length xs
    → (r : Row) × In r xs × (is_locked locked r ≡ false)
unlocked_exists locked xs d h = elim (first_cases (λ r. not (is_locked locked r)) xs) [
  | inl (r, e, m, q) ↦ (r, m, ground (arith, q))
  | inr (e, all) ↦
      absurd (omega (arith, length-le-locked locked xs d (λ r m. ground (arith, all r m))))
]
