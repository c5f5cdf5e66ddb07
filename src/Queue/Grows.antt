-- ===== src/Queue/Grows.antt =====
-- An INSERT into the job table keeps the invariant.
use bifrost_platform_plugin.Prelude.{
  ℕ, ◌+◌, ◌≤◌, ◌<◌, ◌≡◌, refl, sym, ◌∙◌, ap, List, [], ◌∷◌, ◌++◌, true, false, has, ◌==◌, arith,
  Bool-cases, ◌⊎◌, inl, inr, In, here, there, In-cons, In-append,
}
use bifrost_platform_plugin.Queue.{Row, Table, same_key}
use bifrost_platform_plugin.Queue.Enqueue.{insert_row}
use bifrost_platform_plugin.Queue.Ids.{count_id, count_id-append}
use bifrost_platform_plugin.Queue.Invariant.{IsRowWell, IsWell}
use bifrost_platform_plugin.Queue.Keeps.{has-false, same_key_comm}

In-snoc : {r x : Row} (xs : List Row) → In r (xs ++ x ∷ []) → In r xs ⊎ (r ≡ x)
In-snoc {x = x} xs m = elim (In-append xs (x ∷ []) m) [
  | inl a ↦ inl a
  | inr b ↦ elim (In-cons b) [ inl e ↦ inr e | inr n ↦ elim n [ ] ]
]

count_id-below :
    (i n : ℕ) (xs : List Row) → ((r : Row) → In r xs → r.id < n) → n ≤ i → count_id i xs ≡ 0
count_id-below i n [] h le = refl
count_id-below i n (x ∷ xs) h le =
    ground (arith, h x (here refl), count_id-below i n xs (λ r m. h r (there m)) le)

append-IsWell :
    (r : Row) (t : Table)
    → r.id ≡ t.next_id
    → IsRowWell r
    → has (same_key r) t.rows ≡ false
    → IsWell t
    → IsWell (record { rows = t.rows ++ r ∷ []; next_id = t.next_id + 1 })
append-IsWell r t id_new well free w = record {
  ids = λ i. elim (Bool-cases (r.id == i)) [
    | inl e ↦ ground (
      arith,
      count_id-append i t.rows (r ∷ []),
      count_id-below i t.next_id t.rows w.below (ground (arith, e, id_new)),
    )
    | inr n ↦ ground (arith, n, count_id-append i t.rows (r ∷ []), w.ids i)
  ];
  below = λ v m. elim (In-snoc t.rows m) [
    | inl a ↦ omega (arith, w.below v a)
    | inr e ↦ rw e (omega (arith, id_new))
  ];
  dedup = λ a b m n h. elim (In-snoc t.rows m) [
    | inl p ↦ elim (In-snoc t.rows n) [
      | inl q ↦ w.dedup a b p q h
      | inr q ↦
          let k : same_key a r ≡ true = rw q at h in
          cc (same_key_comm a r k, has-false (same_key r) t.rows free p)
    ]
    | inr p ↦ elim (In-snoc t.rows n) [
      | inl q ↦ let k : same_key r b ≡ true = rw p at h in cc (has-false (same_key r) t.rows free q)
      | inr q ↦ ap (λ v. v.id) (p ∙ sym q)
    ]
  ];
  rows_well = λ v m. elim (In-snoc t.rows m) [ inl a ↦ w.rows_well v a | inr e ↦ rw e well ];
}

-- An insert, for a row that is well and carries the id that the sequence hands out.
pub insert_row-IsWell :
    (make : ℕ → Row) (t : Table)
    → ((i : ℕ) → (make i).id ≡ i)
    → ((i : ℕ) → IsRowWell (make i))
    → IsWell t
    → IsWell (insert_row make t).1
unfolding insert_row
insert_row-IsWell make t id_given well w =
    elim (Bool-cases (has (same_key (make t.next_id)) t.rows)) [
      | inl c ↦ rw c (record {
        ids = w.ids;
        below = λ r m. omega (arith, w.below r m);
        dedup = w.dedup;
        rows_well = w.rows_well;
      })
      | inr c ↦ rw c (append-IsWell (make t.next_id) t (id_given t.next_id) (well t.next_id) c w)
    ]
