-- ===== src/Queue/Best.antt =====
-- The SELECT of `claim_job` finds the best pending row that nobody has locked.
use bifrost_platform_plugin.Prelude.{
  ℕ, ◌<◌, String, ◌≡◌, refl, sym, ap, List, [], ◌∷◌, true, false, not, keep, take, has, length,
  ◌==◌, arith, Bool-cases, ◌⊎◌, inl, inr, none, some, In, here, there, In-keep, keep-In,
  first_cases, eq_iff, ==_iff,
}
use bifrost_platform_plugin.Prelude.Sorting.{
  sort_by, In-sort_by, sort_by-In, sort_by-Ordered, first_least, take_top, le_refl_of,
}
use bifrost_platform_plugin.Queue.{Row, pending}
use bifrost_platform_plugin.Queue.Claim.{
  before, waiting, lateral, lateral_all, candidate, is_candidate, is_locked, select_job,
}
use bifrost_platform_plugin.Queue.Ids.{
  DistinctIds, count_id-keep, count_id-take, count_id-sort_by, DistinctIds-eq, unlocked_exists,
}
use bifrost_platform_plugin.Queue.Ranking.{
  Distinct, any_waiting, before-IsPreorder, count_id-lateral_all, In-lateral_all, lateral_all-In,
  In-candidate,
}

-- A row that a claim may take.
pub record IsClaimable (locked : List ℕ) (ks : List String) (rows : List Row) (r : Row)
    : Type 0 where
  pub stored : In r rows
  pub wanted : In r.kind ks
  pub waits : r.status ≡ pending
  pub free : is_locked locked r ≡ false

has-In :
    (c : Row) (cs : List Row) (r : Row) → In c cs → c.id ≡ r.id → has (λ v. v.id == r.id) cs ≡ true
has-In c [] r m e = elim m [ ]
has-In c (x ∷ cs) r (here q) e = ground (arith, ap (λ (v : Row). v.id) q)
has-In c (x ∷ cs) r (there m) e = ground (arith, has-In c cs r m e)

In-has :
    (cs : List Row) (r : Row)
    → has (λ v. v.id == r.id) cs ≡ true
    → (c : Row) × In c cs × (c.id ≡ r.id)
In-has [] r h = cc
In-has (c ∷ cs) r h = elim (Bool-cases (c.id == r.id)) [
  | inl t ↦ (c, here refl, (==_iff c.id r.id).0 t)
  | inr f ↦ let (d, m, e) = In-has cs r (rw f at h) in (d, there m, e)
]

waiting-parts : (k : String) (r : Row) → waiting k r ≡ true → (r.status ≡ pending) × (r.kind ≡ k)
unfolding waiting
waiting-parts k r h = ground (arith, eq_iff r.kind k)

parts-waiting : (k : String) (r : Row) → r.status ≡ pending → r.kind ≡ k → waiting k r ≡ true
unfolding waiting
parts-waiting k r p e = ground (arith, eq_iff r.kind k)

module _ (fan : ℕ) (locked : List ℕ) (ks : List String) (rows : List Row)
    (ids : DistinctIds rows) where
  candidate-IsClaimable :
      (c : Row)
      → In c (candidate fan rows ks)
      → is_locked locked c ≡ false
      → IsClaimable locked ks rows c
  candidate-IsClaimable c m f =
      let (n, k, q, w) = In-lateral_all fan rows ks (In-candidate fan rows ks m) in
      let (p, e) = waiting-parts k c w in
      record { stored = n; wanted = rw e q; waits = p; free = f }

  pool : List Row
  pool = keep (is_candidate (candidate fan rows ks)) rows

  In-pool :
      (c : Row)
      → In c (candidate fan rows ks)
      → is_locked locked c ≡ false
      → In c (sort_by before pool)
  unfolding is_candidate pool
  In-pool c m f =
      let h = candidate-IsClaimable c m f in
      sort_by-In before pool (
        keep-In (is_candidate (candidate fan rows ks)) rows h.stored
          (rw (has-In c (candidate fan rows ks) c m refl) (rw h.waits refl)))

  -- What stands in the pool and is free is a free candidate.
  pool-candidate : (c : Row) → In c (sort_by before pool) → In c (candidate fan rows ks)
  unfolding is_candidate pool
  pool-candidate c m =
      let (n, t) = In-keep (is_candidate (candidate fan rows ks)) rows (In-sort_by before pool m) in
      let (d, q, e) = In-has (candidate fan rows ks) c (ground (arith, t)) in
      let same : d ≡ c =
        DistinctIds-eq rows ids (In-lateral_all fan rows ks (In-candidate fan rows ks q)).0 n e in
      rw (sym same) q

  -- Whatever the locks: the row that the SELECT finds may be claimed.
  pub select_job_sound :
      {r : Row} → select_job fan locked ks rows ≡ some r → IsClaimable locked ks rows r
  unfolding select_job pool
  select_job_sound {r} h =
      elim (first_cases (λ (v : Row). not (is_locked locked v)) (sort_by before pool)) [
        | inl (v, e, m, q) ↦
            let same : v ≡ r = ground (arith, e, h) in
            rw (sym same) (candidate-IsClaimable v (pool-candidate v m) (ground (arith, q)))
        | inr (e, all) ↦ cc
      ]

module _ (fan : ℕ) (locked : List ℕ) (ks : List String) (rows : List Row) (ids : DistinctIds rows)
    (kinds : Distinct ks) (room : length locked < fan) where
  -- Among `fan` rows that all stand before `x` one is free.
  free_among :
      (xs : List Row) (x : Row)
      → DistinctIds xs
      → length xs ≡ fan
      → ((y : Row) → In y xs → before y x ≡ true)
      → (y : Row) × In y xs × (before y x ≡ true) × (is_locked locked y ≡ false)
  free_among xs x d l all =
      let (y, m, f) = unlocked_exists locked xs d (omega (arith, l)) in (y, m, all y m, f)

  -- A free row of the union of the scans is matched by a free candidate that is no worse.
  from_union :
      (x : Row)
      → In x (lateral_all fan rows ks)
      → is_locked locked x ≡ false
      → (y : Row) × In y (candidate fan rows ks)
        × (before y x ≡ true)
        × (is_locked locked y ≡ false)
  unfolding candidate
  from_union x m f =
      let sorted = sort_by before (lateral_all fan rows ks) in
      elim (take_top before before-IsPreorder fan sorted
        (sort_by-Ordered before before-IsPreorder (lateral_all fan rows ks))
        (sort_by-In before (lateral_all fan rows ks) m)) [
          | inl q ↦ (x, q, le_refl_of before before-IsPreorder x, f)
          | inr (l, all) ↦
              free_among (take fan sorted) x
                (λ i. omega (
                  arith,
                  ids i,
                  count_id-take i fan sorted,
                  count_id-sort_by before i (lateral_all fan rows ks),
                  count_id-lateral_all fan rows i ks kinds,
                  count_id-keep i (any_waiting ks) rows,
                ))
                l all
        ]

  -- A claimable row is matched by a free candidate that is no worse.
  matched :
      (x : Row)
      → IsClaimable locked ks rows x
      → (y : Row) × In y (candidate fan rows ks)
        × (before y x ≡ true)
        × (is_locked locked y ≡ false)
  unfolding lateral
  matched x h =
      let here_waiting = keep (waiting x.kind) rows in
      let sorted = sort_by before here_waiting in
      elim (take_top before before-IsPreorder fan sorted
        (sort_by-Ordered before before-IsPreorder here_waiting)
        (sort_by-In before here_waiting
          (keep-In (waiting x.kind) rows h.stored (parts-waiting x.kind x h.waits refl)))) [
            | inl q ↦ from_union x (lateral_all-In fan rows ks h.wanted q) h.free
            | inr (l, all) ↦
                let (y, m, b, f) =
                  free_among (take fan sorted) x
                    (λ i. omega (
                      arith,
                      ids i,
                      count_id-take i fan sorted,
                      count_id-sort_by before i here_waiting,
                      count_id-keep i (waiting x.kind) rows,
                    ))
                    l all in
                let (z, n, c, g) = from_union y (lateral_all-In fan rows ks h.wanted m) f in
                (z, n, before-IsPreorder.trans z y x c b, g)
          ]

  pub select_job_best :
      ((r : Row) × (select_job fan locked ks rows ≡ some r)
        × IsClaimable locked ks rows r
        × ((s : Row) → IsClaimable locked ks rows s → before r s ≡ true))
      ⊎ ((select_job fan locked ks rows ≡ none) × ((s : Row) → ¬ IsClaimable locked ks rows s))
  unfolding select_job pool
  select_job_best =
      let all_found = pool fan locked ks rows ids in
      let free = λ (r : Row). not (is_locked locked r) in
      elim (first_cases free (sort_by before all_found)) [
        | inl (r, e, m, q) ↦ inl (
          r,
          e,
          candidate-IsClaimable fan locked ks rows ids r (pool-candidate fan locked ks rows ids r m)
              (ground (arith, q)),
          λ s h.
              let (y, n, b, f) = matched s h in
              before-IsPreorder.trans r y s
                (first_least before before-IsPreorder free (sort_by before all_found)
                  (sort_by-Ordered before before-IsPreorder all_found) e
                  (In-pool fan locked ks rows ids y n f) (ground (arith, f)))
                b,
        )
        | inr (e, all) ↦ inr (
          e,
          λ s h.
              let (y, n, b, f) = matched s h in
              cc (all y (In-pool fan locked ks rows ids y n f), ap not f),
        )
      ]
