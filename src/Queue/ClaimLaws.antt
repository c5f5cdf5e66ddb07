-- ===== src/Queue/ClaimLaws.antt =====
-- What `claim_job` returns and writes.
use bifrost_platform_plugin.Prelude.{
  ℕ, ◌<◌, String, ◌≡◌, refl, ap, List, [], ◌∷◌, true, first, length, ◌==◌, arith, ◌⊎◌, inl, inr,
  Option, none, some, In, here, there, max,
}
use bifrost_platform_plugin.Db.{Conn, Outcome, return, calm}
use bifrost_platform_plugin.Queue.{Row, Table, update_id, JobRow, job_row_from_record}
use bifrost_platform_plugin.Queue.Claim.{
  before, select_job, start, update_returning, named_kinds, claim_found, claim_kinds, claim_job,
}
use bifrost_platform_plugin.Queue.Ids.{DistinctIds, count_id-pos}
use bifrost_platform_plugin.Queue.Ranking.{Distinct}
use bifrost_platform_plugin.Queue.Best.{IsClaimable, select_job_best, select_job_sound}

-- The table after the claim of row `r`.
abbrev pub claimed : ℕ → Row → Table → Table
claimed now r t = record t { rows = update_id r.id (start now) t.rows }

pub first-update_id :
    (now : ℕ) (rows : List Row) (r : Row)
    → DistinctIds rows
    → In r rows
    → first (λ v. v.id == r.id) (update_id r.id (start now) rows) ≡ some (start now r)
unfolding update_id start
first-update_id now [] r d m = elim m [ ]
first-update_id now (x ∷ rows) r d (here e) = ground (arith, ap (λ (v : Row). v.id) e, e)
first-update_id now (x ∷ rows) r d (there m) = ground (
  arith,
  d r.id,
  count_id-pos r.id rows m refl,
  first-update_id now rows r (λ i. ground (arith, d i)) m,
)

module _ (now fan : ℕ) (locked : List ℕ) (pool_kinds : List String) (t : Table)
    (ids : DistinctIds t.rows) where
  abbrev result : Outcome (Option JobRow) × Conn Table
  result = claim_job now fan locked pool_kinds (calm t)

  claim_selected :
      {r : Row}
      → select_job (max 1 fan) locked (named_kinds pool_kinds) t.rows ≡ some r
      → IsClaimable locked (named_kinds pool_kinds) t.rows r
      → result ≡ (return (some (job_row_from_record (start now r))), calm (claimed now r t))
  unfolding claim_job claim_kinds claim_found update_returning
  claim_selected {r} e h = go (named_kinds pool_kinds) e h.wanted
    where
      go :
          (ks : List String)
          → select_job (max 1 fan) locked ks t.rows ≡ some r
          → In r.kind ks
          → claim_kinds now fan locked ks (calm t)
            ≡ (return (some (job_row_from_record (start now r))), calm (claimed now r t))
      go [] e m = elim m [ ]
      go (k ∷ ks) e m = rw e (rw (first-update_id now t.rows r ids h.stored) refl)

  claim_nothing :
      select_job (max 1 fan) locked (named_kinds pool_kinds) t.rows ≡ none
      → result ≡ (return none, calm t)
  unfolding claim_job claim_kinds claim_found
  claim_nothing e = go (named_kinds pool_kinds) e
    where
      go :
          (ks : List String)
          → select_job (max 1 fan) locked ks t.rows ≡ none
          → claim_kinds now fan locked ks (calm t) ≡ (return none, calm t)
      go [] e = refl
      go (k ∷ ks) e = rw e refl

  -- On a connection where no call raises, with primary keys in the table, distinct kinds, and
  -- fewer locked rows than the fan: if some row may be claimed, the claim takes one, returns it
  -- as the job with attempts one up, marks just that row running, and the row taken stands before
  -- every claimable row in the order of priority (descending) and age.
  pub claim_job_best :
      Distinct (named_kinds pool_kinds)
      → length locked < max 1 fan
      → (s : Row) → IsClaimable locked (named_kinds pool_kinds) t.rows s
      → (r : Row) × (claim_job now fan locked pool_kinds (calm t)
          ≡ (return (some (job_row_from_record (start now r))), calm (claimed now r t)))
        × IsClaimable locked (named_kinds pool_kinds) t.rows r
        × (before r s ≡ true)
  claim_job_best kinds room s h =
      elim (select_job_best (max 1 fan) locked (named_kinds pool_kinds) t.rows ids kinds room) [
        | inl (r, e, c, best) ↦ (r, claim_selected e c, c, best s h)
        | inr (e, nothing) ↦ absurd (nothing s h)
      ]

  -- On a connection where no call raises and with primary keys in the table, whatever is locked
  -- and whichever kinds are asked: the claim either returns no job and leaves the table alone, or
  -- it returns a pending unlocked row of a named kind and marks just that row running.
  pub claim_job_sound :
      (claim_job now fan locked pool_kinds (calm t) ≡ (return none, calm t))
      ⊎ ((r : Row) × IsClaimable locked (named_kinds pool_kinds) t.rows r
          × (claim_job now fan locked pool_kinds (calm t)
              ≡ (return (some (job_row_from_record (start now r))), calm (claimed now r t))))
  claim_job_sound = go (select_job (max 1 fan) locked (named_kinds pool_kinds) t.rows) refl
    where
      go :
          (o : Option Row)
          → select_job (max 1 fan) locked (named_kinds pool_kinds) t.rows ≡ o
          → (result ≡ (return none, calm t))
            ⊎ ((r : Row) × IsClaimable locked (named_kinds pool_kinds) t.rows r
                × (result
                    ≡ (return (some (job_row_from_record (start now r))), calm (claimed now r t))))
      go none e = inl (claim_nothing e)
      go (some r) e =
          let h = select_job_sound (max 1 fan) locked (named_kinds pool_kinds) t.rows ids e in
          inr (r, h, claim_selected e h)
