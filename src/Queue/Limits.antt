-- ===== src/Queue/Limits.antt =====
-- The attempts of a job within its limit, and what each UPDATE and INSERT of worker/claim.py and
-- scheduler/enqueue.py leaves of it.
use bifrost_platform_plugin.Prelude.{
  ℕ, ◌≤◌, ◌<◌, String, ◌≡◌, refl, sym, List, [], ◌∷◌, Bool, true, ◌&&◌, has, ◌==◌, leb, ltb,
  if◌then◌else◌, arith, Bool-cases, ◌⊎◌, inl, inr, map, Option, In, here, there, In-cons, In-append,
  ==_iff, first_cases,
}
use bifrost_platform_plugin.Json.{Fields}
use bifrost_platform_plugin.Db.{return}
use bifrost_platform_plugin.Queue.{Row, Table, pending, is_pending, same_key, conflicts, update_id}
use bifrost_platform_plugin.Queue.Claim.{start}
use bifrost_platform_plugin.Queue.Settle.{
  update_checked, fail_row, finish_row, reclaim_row, is_stale,
}
use bifrost_platform_plugin.Queue.Enqueue.{insert_row}

-- The largest value of a smallint column.
abbrev pub smallint_max : ℕ
smallint_max = 32767

-- Within its limit: a pending job has an attempt left, and no other has used more than all.
abbrev pub within : Row → Bool
within r =
    ltb 0 r.max_attempts
    && leb r.max_attempts smallint_max
    && (if is_pending r.status
        then ltb r.attempts r.max_attempts
        else leb r.attempts r.max_attempts)

abbrev pub AllWithin : List Row → Type 0
AllWithin rows = (r : Row) → In r rows → within r ≡ true

In-update_id :
    (i : ℕ) (f : Row → Row) (rows : List Row) {v : Row}
    → In v (update_id i f rows)
    → In v rows ⊎ ((r : Row) × In r rows × (r.id ≡ i) × (v ≡ f r))
unfolding update_id
In-update_id i f [] m = elim m [ ]
In-update_id i f (x ∷ rows) m = elim (Bool-cases (x.id == i)) [
  | inl t ↦ elim (In-cons (rw t at m)) [
    | inl e ↦ inr (x, here refl, (==_iff x.id i).0 t, e)
    | inr n ↦ elim (In-update_id i f rows n) [
      | inl a ↦ inl (there a)
      | inr (r, k, q, e) ↦ inr (r, there k, q, e)
    ]
  ]
  | inr n ↦ elim (In-cons (rw n at m)) [
    | inl e ↦ inl (here e)
    | inr k ↦ elim (In-update_id i f rows k) [
      | inl a ↦ inl (there a)
      | inr (r, k', q, e) ↦ inr (r, there k', q, e)
    ]
  ]
]

-- An UPDATE of row `i` whose new version is within its limit.
pub update-AllWithin :
    (i : ℕ) (f : Row → Row) (rows : List Row)
    → AllWithin rows
    → ((r : Row) → In r rows → r.id ≡ i → within (f r) ≡ true)
    → AllWithin (update_id i f rows)
update-AllWithin i f rows h fits v n = elim (In-update_id i f rows n) [
  | inl a ↦ h v a
  | inr (u, k, e, q) ↦ rw q (fits u k e)
]

pub update_checked-AllWithin :
    (i : ℕ) (f : Row → Row) (t : Table) {t' : Table}
    → AllWithin t.rows
    → ((r : Row) → In r t.rows → r.id ≡ i → within (f r) ≡ true)
    → update_checked i f t ≡ return (tt, t')
    → AllWithin t'.rows
unfolding update_checked
update_checked-AllWithin i f t {t'} h fits e = elim (first_cases (λ (r : Row). r.id == i) t.rows) [
  | inr (n, all) ↦ let same : t ≡ t' = ground (arith, e, n) in rw (sym same) h
  | inl (r, n, m, q) ↦ elim (Bool-cases (conflicts (f r) t.rows)) [
    | inl c ↦ absurd (ground (arith, n, c, e))
    | inr c ↦
        let same : record t { rows = update_id i f t.rows } ≡ t' = ground (arith, n, c, e) in
        rw (sym same) (update-AllWithin i f t.rows h fits)
  ]
]

pub start-within :
    (now : ℕ) (r : Row) → r.status ≡ pending → within r ≡ true → within (start now r) ≡ true
unfolding start
start-within now r p h = ground arith

pub finish-within :
    (now : ℕ) (result : Option Fields) (r : Row)
    → within r ≡ true
    → within (finish_row now result r) ≡ true
unfolding finish_row
finish-within now result r h = ground arith

pub fail-within :
    (now : ℕ) (msg : String) (attempts max_attempts : ℕ) (r : Row)
    → within r ≡ true
    → attempts ≡ r.attempts
    → max_attempts ≡ r.max_attempts
    → within (fail_row now msg attempts max_attempts r) ≡ true
unfolding fail_row
fail-within now msg attempts max_attempts r h a m = ground (arith, a, m, h)

pub reclaim-within :
    (now after : ℕ) (ks : List String) (r : Row)
    → within r ≡ true
    → within (if is_stale now after ks r then reclaim_row now r else r) ≡ true
unfolding reclaim_row
reclaim-within now after ks r h = elim (Bool-cases (is_stale now after ks r)) [
  | inl t ↦ rw t (ground arith)
  | inr f ↦ rw f h
]

pub map-AllWithin :
    (g : Row → Row) (rows : List Row)
    → ((r : Row) → within r ≡ true → within (g r) ≡ true)
    → AllWithin rows
    → AllWithin (map g rows)
map-AllWithin g [] step h r m = elim m [ ]
map-AllWithin g (x ∷ rows) step h r (here e) = rw e (step x (h x (here refl)))
map-AllWithin g (x ∷ rows) step h r (there m) = map-AllWithin g rows step (λ v n. h v (there n)) r m

pub insert-AllWithin :
    (make : ℕ → Row) (t : Table)
    → (make t.next_id).status ≡ pending
    → (make t.next_id).attempts < (make t.next_id).max_attempts
    → (make t.next_id).max_attempts ≤ smallint_max
    → AllWithin t.rows
    → AllWithin (insert_row make t).1.rows
unfolding insert_row
insert-AllWithin make t p a b h = elim (Bool-cases (has (same_key (make t.next_id)) t.rows)) [
  | inl c ↦ rw c h
  | inr c ↦ rw c (λ r m. elim (In-append t.rows (make t.next_id ∷ []) m) [
    | inl n ↦ h r n
    | inr n ↦ elim (In-cons n) [ inl e ↦ rw (e, p) (ground (arith, a, b)) | inr k ↦ elim k [ ] ]
  ])
]
