-- ===== src/Queue/Ranking.antt =====
-- Which row the SELECT of `claim_job` finds: the lateral scans, the second ORDER BY and the LIMITs
-- against the plain description, "the best pending row of these kinds that nobody has locked".
use bifrost_platform_plugin.Prelude.{
  ℕ, ◌+◌, ◌≤◌, String, ◌≡◌, ◌≢◌, refl, List, [], ◌∷◌, Bool, true, false, keep, has, arith,
  Bool-cases, inl, inr, In, here, there, In-take, In-append, In-append_left, In-append_right,
  In-keep, eq_iff,
}
use bifrost_platform_plugin.Prelude.Sorting.{sort_by, IsPreorder, In-sort_by}
use bifrost_platform_plugin.Queue.{Row}
use bifrost_platform_plugin.Queue.Claim.{before, waiting, lateral, lateral_all, candidate}
use bifrost_platform_plugin.Queue.Ids.{count_id, count_id-append, count_id-take, count_id-sort_by}

pub before-IsPreorder : IsPreorder before
unfolding before
before-IsPreorder = record { total = λ r s h. ground arith; trans = λ r s t h k. ground arith }

-- No kind is named twice.
abbrev pub Distinct : List String → Type 0
Distinct [] = Unit
Distinct (k ∷ ks) = ((j : String) → In j ks → k ≢ j) × Distinct ks

abbrev pub any_waiting : List String → Row → Bool
any_waiting ks r = has (λ k. waiting k r) ks

not_waiting :
    (k : String) (ks : List String) (r : Row)
    → ((j : String) → In j ks → k ≢ j)
    → waiting k r ≡ true
    → any_waiting ks r ≡ false
unfolding waiting
not_waiting k [] r h w = refl
not_waiting k (j ∷ ks) r h w = ground (
  arith,
  not_waiting k ks r (λ i m. h i (there m)) w,
  h j (here refl),
  eq_iff r.kind k,
  eq_iff r.kind j,
)

count_id-waiting :
    (i : ℕ) (k : String) (ks : List String) (rows : List Row)
    → ((j : String) → In j ks → k ≢ j)
    → count_id i (keep (waiting k) rows) + count_id i (keep (any_waiting ks) rows)
      ≤ count_id i (keep (any_waiting (k ∷ ks)) rows)
count_id-waiting i k ks [] h = omega arith
count_id-waiting i k ks (r ∷ rows) h = elim (Bool-cases (waiting k r)) [
  | inl w ↦ ground (arith, w, not_waiting k ks r h w, count_id-waiting i k ks rows h)
  | inr w ↦ ground (arith, w, count_id-waiting i k ks rows h)
]

module _ (fan : ℕ) (rows : List Row) where
  count_id-lateral :
      (i : ℕ) (k : String) → count_id i (lateral fan rows k) ≤ count_id i (keep (waiting k) rows)
  unfolding lateral
  count_id-lateral i k = omega (
    arith,
    count_id-take i fan (sort_by before (keep (waiting k) rows)),
    count_id-sort_by before i (keep (waiting k) rows),
  )

  pub count_id-lateral_all :
      (i : ℕ) (ks : List String)
      → Distinct ks
      → count_id i (lateral_all fan rows ks) ≤ count_id i (keep (any_waiting ks) rows)
  unfolding lateral_all
  count_id-lateral_all i [] d = omega arith
  count_id-lateral_all i (k ∷ ks) d = omega (
    arith,
    count_id-append i (lateral fan rows k) (lateral_all fan rows ks),
    count_id-lateral i k,
    count_id-lateral_all i ks d.1,
    count_id-waiting i k ks rows d.0,
  )

  pub In-lateral :
      (k : String) {r : Row} → In r (lateral fan rows k) → In r rows × (waiting k r ≡ true)
  unfolding lateral
  In-lateral k m = In-keep (waiting k) rows (
      In-sort_by before (keep (waiting k) rows)
        (In-take fan (sort_by before (keep (waiting k) rows)) m))

  -- A row that the scans return waits in the table under one of the kinds.
  pub In-lateral_all :
      (ks : List String) {r : Row}
      → In r (lateral_all fan rows ks)
      → In r rows × (k : String) × In k ks × (waiting k r ≡ true)
  unfolding lateral_all
  In-lateral_all [] m = elim m [ ]
  In-lateral_all (k ∷ ks) m = elim (In-append (lateral fan rows k) (lateral_all fan rows ks) m) [
    | inl a ↦ let w = In-lateral k a in (w.0, k, here refl, w.1)
    | inr b ↦ let (n, j, q, w) = In-lateral_all ks b in (n, j, there q, w)
  ]

  pub lateral_all-In :
      (ks : List String) {k : String} {r : Row}
      → In k ks
      → In r (lateral fan rows k)
      → In r (lateral_all fan rows ks)
  unfolding lateral_all
  lateral_all-In [] m n = elim m [ ]
  lateral_all-In (j ∷ ks) {k} {r} (here e) n =
      In-append_left (lateral fan rows j) (lateral_all fan rows ks) (rw e at n)
  lateral_all-In (j ∷ ks) (there m) n =
      In-append_right (lateral fan rows j) (lateral_all fan rows ks) (lateral_all-In ks m n)

  pub In-candidate :
      (ks : List String) {r : Row} → In r (candidate fan rows ks) → In r (lateral_all fan rows ks)
  unfolding candidate
  In-candidate ks m =
      In-sort_by before (lateral_all fan rows ks)
        (In-take fan (sort_by before (lateral_all fan rows ks)) m)
