-- ===== src/Worker/Ends.antt =====
-- What the two ends of a job come to on a connection whose calls may raise.
use bifrost_platform_plugin.Prelude.{ℕ, String, ◌≡◌, refl, ◌∙◌, Option, [], Bool, true, false, In}
use bifrost_platform_plugin.Json.{Fields}
use bifrost_platform_plugin.Db.{
  Conn, Outcome, return, raise, calm, pure, next_fault, later_faults, tried, committing, and_then,
  undo, commit, ◌>>◌,
}
use bifrost_platform_plugin.Queue.{Row, Table, running, conflicts, update_id}
use bifrost_platform_plugin.Queue.Settle.{
  update_checked, finish_row, fail_row, new_status, mark_done, mark_failed,
}
use bifrost_platform_plugin.Queue.Invariant.{IsWell}
use bifrost_platform_plugin.Queue.Keeps.{same_key_back}
use bifrost_platform_plugin.Queue.Retry.{first-id, not_conflicts}

-- It returned with the table `t'` committed, or it raised and `t` is what is there: where no commit
-- takes effect and then raises.
abbrev pub EndsOr : {S A : Type 0} → S → S → Outcome A × Conn S → Type 0
EndsOr t t' (return a, c) = (c.working ≡ t') × (c.committed ≡ t')
EndsOr t t' (raise e, c) = (c.working ≡ t) × (c.committed ≡ t) × (c.late ≡ [])

committed-EndsOr :
    {S A : Type 0} (a : A) (t t' : S) (d : Conn S) (b : Bool)
    → d.working ≡ t'
    → d.committed ≡ t
    → d.late ≡ []
    → EndsOr t t' (undo (and_then (λ _. pure a) (committing d b)))
committed-EndsOr a t t' d true w e l = rw l (e, e, refl)
committed-EndsOr a t t' d false w e l = (w, w)

done-EndsOr :
    {S : Type 0} (t t' : S) (d : Conn S) (b : Bool)
    → d.working ≡ t'
    → d.committed ≡ t
    → d.late ≡ []
    → EndsOr t t' (undo (committing d b))
done-EndsOr t t' d true w e l = rw l (e, e, refl)
done-EndsOr t t' d false w e l = (w, w)

module _ (now : ℕ) (t : Table) (r : Row) (w : IsWell t) (stored : In r t.rows)
    (runs : r.status ≡ running) where
  -- The row of a running job can be updated where its key stays.
  abbrev updated : (Row → Row) → Table
  updated f = record t { rows = update_id r.id f t.rows }

  checked-updated :
      (f : Row → Row)
      → (f r).id ≡ r.id
      → (f r).kind ≡ r.kind
      → (f r).payload_hash ≡ r.payload_hash
      → update_checked r.id f t ≡ return (tt, updated f)
  unfolding update_checked
  checked-updated f i k h =
      let free : conflicts (f r) t.rows ≡ false =
        not_conflicts (f r) t.rows
          (λ s m key. i ∙ w.dedup r s stored m (same_key_back (f r) r s k h (rw runs refl) key)) in
      rw (update_checked, first-id t.rows r w.ids stored, free) refl

  pub mark_done_running :
      (result : Option Fields)
      → mark_done now r.id result (calm t) ≡ (return tt, calm (updated (finish_row now result)))
  unfolding mark_done finish_row
  mark_done_running result = rw (checked-updated (finish_row now result) refl refl refl) refl

  module _ (c : Conn Table) (open_work : c.working ≡ t) (open_committed : c.committed ≡ t)
      (sure : c.late ≡ []) where
    pub mark_done-EndsOr :
        (result : Option Fields)
        → EndsOr t (updated (finish_row now result)) (mark_done now r.id result c)
    unfolding mark_done finish_row
    mark_done-EndsOr result = of (next_fault c.faults)
      where
        f : Row → Row
        f = finish_row now result

        of :
            (b : Bool)
            → EndsOr t (updated (finish_row now result)) (
                undo (
                  and_then (λ _. commit) (tried (update_checked r.id (finish_row now result)) c b)))
        of true = (open_committed, open_committed, sure)
        of false =
            rw (open_work, checked-updated (finish_row now result) refl refl refl)
              (done-EndsOr t (updated (finish_row now result))
                (record c {
                  working = updated (finish_row now result);
                  faults = later_faults c.faults;
                })
                (next_fault (later_faults c.faults)) refl open_committed sure)

    pub mark_failed-EndsOr :
        (msg : String) (attempts max_attempts : ℕ)
        → EndsOr t
            (updated (fail_row now msg attempts max_attempts))
            (mark_failed now r.id msg attempts max_attempts c)
    unfolding mark_failed fail_row
    mark_failed-EndsOr msg attempts max_attempts = of (next_fault c.faults)
      where
        of :
            (b : Bool)
            → EndsOr t (updated (fail_row now msg attempts max_attempts)) (
                undo (
                  and_then
                    (λ _. commit >> pure (new_status attempts max_attempts))
                    (tried (update_checked r.id (fail_row now msg attempts max_attempts)) c b)))
        of true = (open_committed, open_committed, sure)
        of false =
            rw (open_work, checked-updated (fail_row now msg attempts max_attempts) refl refl refl)
              (committed-EndsOr (new_status attempts max_attempts) t
                (updated (fail_row now msg attempts max_attempts))
                (record c {
                  working = updated (fail_row now msg attempts max_attempts);
                  faults = later_faults c.faults;
                })
                (next_fault (later_faults c.faults)) refl open_committed sure)
