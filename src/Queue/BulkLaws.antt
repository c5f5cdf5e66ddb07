-- ===== src/Queue/BulkLaws.antt =====
-- What the statements of `insert_jobs_bulk` do to the active keys of the job table.
use bifrost_platform_plugin.Prelude.{
  ℕ, zero, suc, ◌+◌, ◌≤◌, ◌≡◌, refl, sym, ap, ◌∙◌, none, some, List, [], ◌∷◌, ◌++◌, Bool, true,
  false, not, ◌&&◌, ◌||◌, has, take, drop, length, take-drop, str_eq, arith, Bool-cases,
  Option-cases, inl, inr, eq_iff, eq_refl,
}
use bifrost_platform_plugin.Db.{return, and_then, pure}
use bifrost_platform_plugin.Queue.{Row, Table, is_active, same_hash, same_key}
use bifrost_platform_plugin.Queue.Enqueue.{insert_row, new_row}
use bifrost_platform_plugin.Queue.Invariant.{is_some}
use bifrost_platform_plugin.Queue.Bulk.{
  Key, key_eq, Draft, draft_key, row_of, returned, insert_chunk, insert_chunks, insert_chunk_rows,
  has_key, id_of_key,
}

abbrev active_row : Key → Row → Bool
active_row key s =
    is_active s.status && str_eq key.0 s.kind && same_hash (some key.1) s.payload_hash

-- A pending or running job has the key.
unfoldable pub active : Key → List Row → Bool
active key rows = has (active_row key) rows

pub key_eq-eq : (a b : Key) → key_eq a b ≡ true → a ≡ b
key_eq-eq (a, b) (c, d) h =
    let e : a ≡ c = (eq_iff a c).0 (ground (arith, h)) in
    let f : b ≡ d = (eq_iff b d).0 (ground (arith, h)) in rw e (rw f refl)

pub key_eq_refl : (a : Key) → key_eq a a ≡ true
key_eq_refl (a, b) = rw (eq_refl a) (rw (eq_refl b) refl)

has-snoc :
    {A : Type 0} (p : A → Bool) (xs : List A) (x : A) → has p (xs ++ x ∷ []) ≡ (has p xs || p x)
has-snoc p [] x = ground arith
has-snoc p (y ∷ ys) x = ground (arith, has-snoc p ys x)

insert_row-free :
    (now : ℕ) (d : Draft) (t : Table)
    → active (draft_key d) t.rows ≡ false
    → insert_row (row_of now d) t ≡ (
      some (row_of now d t.next_id),
      record { rows = t.rows ++ row_of now d t.next_id ∷ []; next_id = t.next_id + 1 },
    )
unfolding insert_row same_key active row_of new_row
insert_row-free now d t h =
    let test : has (same_key (row_of now d t.next_id)) t.rows ≡ false = h in rw test refl

insert_row-taken :
    (now : ℕ) (d : Draft) (t : Table)
    → active (draft_key d) t.rows ≡ true
    → insert_row (row_of now d) t ≡ (none, record t { next_id = t.next_id + 1 })
unfolding insert_row same_key active row_of new_row
insert_row-taken now d t h =
    let test : has (same_key (row_of now d t.next_id)) t.rows ≡ true = h in rw test refl

-- After the INSERT of one row its key is active, and no other key has changed.
pub active-insert_row :
    (now : ℕ) (d : Draft) (t : Table) (key : Key)
    → active key (insert_row (row_of now d) t).1.rows
      ≡ (active key t.rows || key_eq key (draft_key d))
unfolding active row_of new_row
active-insert_row now d t key = elim (Bool-cases (active (draft_key d) t.rows)) [
  | inr f ↦
      rw (insert_row-free now d t f) (has-snoc (active_row key) t.rows (row_of now d t.next_id))
  | inl a ↦ rw (insert_row-taken now d t a) (elim (Bool-cases (key_eq key (draft_key d))) [
    | inl e ↦
        let taken : active key t.rows ≡ true =
          ap (λ k. active k t.rows) (key_eq-eq key (draft_key d) e) ∙ a in
        ground (arith, taken, e)
    | inr n ↦ ground (arith, n)
  ])
]

append_assoc : {A : Type 0} (xs ys zs : List A) → xs ++ ys ++ zs ≡ xs ++ (ys ++ zs)
append_assoc [] ys zs = refl
append_assoc (x ∷ xs) ys zs = ap (λ rest. x ∷ rest) (append_assoc xs ys zs)

-- Two statements, one after the other, are one over both chunks.
pub insert_chunk-append :
    (now : ℕ) (ds es : List Draft) (t : Table)
    → insert_chunk now (ds ++ es) t ≡ (
      (insert_chunk now ds t).0 ++ (insert_chunk now es (insert_chunk now ds t).1).0,
      (insert_chunk now es (insert_chunk now ds t).1).1,
    )
unfolding insert_chunk
insert_chunk-append now [] es t = refl
insert_chunk-append now (d ∷ ds) es t =
    let one = insert_row (row_of now d) t in
    let ih = insert_chunk-append now ds es one.1 in
    rw ih (
      rw
        (append_assoc (returned one.0) (insert_chunk now ds one.1).0
          (insert_chunk now es (insert_chunk now ds one.1).1).0)
        refl)

length-drop : {A : Type 0} (n : ℕ) (xs : List A) → length (drop n xs) ≤ length xs
length-drop zero xs = omega arith
length-drop (suc n) [] = omega arith
length-drop (suc n) (x ∷ xs) = omega (arith, length-drop n xs)

-- Where no call raises, the chunks together do what one statement over all rows would do.
pub insert_chunks-calm :
    (left now : ℕ) (ds : List Draft) (old t : Table)
    → length ds ≤ left
    → insert_chunks left now ds (record { committed = old; working = t; faults = []; late = [] })
      ≡ (
        return (insert_chunk now ds t).0,
        record { committed = old; working = (insert_chunk now ds t).1; faults = []; late = [] },
      )
unfolding insert_chunks insert_chunk
insert_chunks-calm left now [] old t h = refl
insert_chunks-calm zero now (d ∷ ds) old t h = absurd (omega (arith, h))
insert_chunks-calm (suc left) now (d ∷ ds) old t h =
    let here = take insert_chunk_rows (d ∷ ds) in
    let rest = drop insert_chunk_rows (d ∷ ds) in
    let ih =
      insert_chunks-calm left now rest old (insert_chunk now here t).1
        (omega (arith, h, length-drop 1999 ds)) in
    ap (and_then (λ more. pure ((insert_chunk now here t).0 ++ more))) ih
    ∙ ap (λ p. (return p.0, record { committed = old; working = p.1; faults = []; late = [] }))
        (sym (insert_chunk-append now here rest t)
          ∙ ap (λ xs. insert_chunk now xs t) (take-drop insert_chunk_rows (d ∷ ds)))

unfoldable pub present : Key → List Draft → Bool
present key ds = has (λ d. key_eq key (draft_key d)) ds

-- Which keys are active after a statement.
pub active-insert_chunk :
    (now : ℕ) (ds : List Draft) (t : Table) (key : Key)
    → active key (insert_chunk now ds t).1.rows ≡ (active key t.rows || present key ds)
unfolding insert_chunk present
active-insert_chunk now [] t key = ground arith
active-insert_chunk now (d ∷ ds) t key = ground (
  arith,
  active-insert_row now d t key,
  active-insert_chunk now ds (insert_row (row_of now d) t).1 key,
)

is_some-nil : (key : Key) → is_some (id_of_key key []) ≡ false
unfolding id_of_key
is_some-nil key = refl

is_some-cons :
    (key : Key) (x : Row) (xs : List Row)
    → is_some (id_of_key key (x ∷ xs)) ≡ (is_some (id_of_key key xs) || has_key key x)
unfolding id_of_key
is_some-cons key x xs = elim (Option-cases (id_of_key key xs)) [
  | inl e ↦ rw e (elim (Bool-cases (has_key key x)) [ inl t ↦ rw t refl | inr f ↦ rw f refl ])
  | inr (i, e) ↦ rw e refl
]

is_some-append :
    (key : Key) (xs ys : List Row)
    → is_some (id_of_key key (xs ++ ys))
      ≡ (is_some (id_of_key key xs) || is_some (id_of_key key ys))
is_some-append key [] ys = rw (is_some-nil key) refl
is_some-append key (x ∷ xs) ys =
    ground (arith, is_some-cons key x xs, is_some-cons key x (xs ++ ys), is_some-append key xs ys)

id_of_key-returned :
    (now : ℕ) (d : Draft) (t : Table) (key : Key)
    → is_some (id_of_key key (returned (insert_row (row_of now d) t).0))
      ≡ (key_eq key (draft_key d) && not (active (draft_key d) t.rows))
unfolding row_of new_row
id_of_key-returned now d t key = elim (Bool-cases (active (draft_key d) t.rows)) [
  | inl a ↦ rw (insert_row-taken now d t a) (rw a (ground (arith, is_some-nil key)))
  | inr f ↦
      rw (insert_row-free now d t f)
        (rw f (ground (arith, is_some-cons key (row_of now d t.next_id) [], is_some-nil key)))
]

-- The rows that a statement returns are those whose key was free.
pub id_of_key-insert_chunk :
    (now : ℕ) (ds : List Draft) (t : Table) (key : Key)
    → is_some (id_of_key key (insert_chunk now ds t).0)
      ≡ (present key ds && not (active key t.rows))
unfolding insert_chunk present
id_of_key-insert_chunk now [] t key = is_some-nil key
id_of_key-insert_chunk now (d ∷ ds) t key =
    let one = insert_row (row_of now d) t in
    let first = id_of_key-returned now d t key in
    let rest = id_of_key-insert_chunk now ds one.1 key in
    let keys = active-insert_row now d t key in
    is_some-append key (returned one.0) (insert_chunk now ds one.1).0
    ∙ elim (Bool-cases (key_eq key (draft_key d))) [
      | inl e ↦
          let same = ap (λ k. active k t.rows) (key_eq-eq key (draft_key d) e) in
          ground (arith, first, rest, keys, e, same)
      | inr n ↦ ground (arith, first, rest, keys, n)
    ]
