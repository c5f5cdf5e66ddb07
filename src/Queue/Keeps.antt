-- ===== src/Queue/Keeps.antt =====
-- The statements of the queue keep its invariant.
use bifrost_platform_plugin.Prelude.{
  ℕ, String, ◌≡◌, ◌≢◌, refl, sym, ◌∙◌, ap, List, [], ◌∷◌, Bool, true, false, not, ◌&&◌, has, ◌==◌,
  str_eq, if◌then◌else◌, arith, Bool-cases, inl, inr, Option, none, some, In, here, there,
  first_cases, eq_iff, ==_iff, map,
}
use bifrost_platform_plugin.Prelude.Int.{ℤ}
use bifrost_platform_plugin.Json.{Json, Fields}
use bifrost_platform_plugin.Db.{return}
use bifrost_platform_plugin.Queue.{
  Row, Table, Status, pending, running, done, failed, is_active, is_running, same_hash, same_key,
  conflicts, update_id,
}
use bifrost_platform_plugin.Queue.Claim.{start}
use bifrost_platform_plugin.Queue.Settle.{
  update_checked, finish_row, fail_row, is_stale, reclaim_row, reclaim_rows,
}
use bifrost_platform_plugin.Queue.Enqueue.{new_row}
use bifrost_platform_plugin.Queue.Ids.{DistinctIds-eq}
use bifrost_platform_plugin.Queue.Invariant.{IsRowWell, IsWell, map-IsWell}

pub has-false :
    {A : Type 0} (p : A → Bool) (xs : List A) {x : A} → has p xs ≡ false → In x xs → p x ≡ false
has-false p [] h m = elim m [ ]
has-false p (y ∷ ys) h (here e) = ap p e ∙ ground (arith, h)
has-false p (y ∷ ys) h (there m) = has-false p ys (ground (arith, h)) m

-- A row that was active, and whose key an UPDATE kept, shared that key before.
pub same_key_back :
    (r' r s : Row)
    → r'.kind ≡ r.kind
    → r'.payload_hash ≡ r.payload_hash
    → is_active r.status ≡ true
    → same_key r' s ≡ true
    → same_key r s ≡ true
unfolding same_key
same_key_back r' r s k h a key = rw (← k, ← h, a) (ground arith)

conflicts-false :
    (r : Row) (rows : List Row) {s : Row}
    → conflicts r rows ≡ false
    → In s rows
    → r.id ≢ s.id
    → same_key r s ≡ false
unfolding conflicts
conflicts-false r rows {s} h m d =
    let one = has-false (λ v. not (r.id == v.id) && same_key r v) rows h m in ground (arith, one)

abbrev only : ℕ → (Row → Row) → Row → Row
only i f r = if r.id == i then f r else r

update_id-eq-map :
    (i : ℕ) (f : Row → Row) (rows : List Row) → update_id i f rows ≡ map (only i f) rows
unfolding update_id
update_id-eq-map i f [] = refl
update_id-eq-map i f (x ∷ rows) = ground (arith, update_id-eq-map i f rows)

pub same_key_comm : (r s : Row) → same_key r s ≡ true → same_key s r ≡ true
unfolding same_key
same_key_comm r s h = go r.payload_hash s.payload_hash h
  where
    go :
        (h k : Option String)
        → (is_active r.status && is_active s.status && str_eq r.kind s.kind && same_hash h k) ≡ true
        → (is_active s.status && is_active r.status && str_eq s.kind r.kind && same_hash k h) ≡ true
    go (some h) (some k) e =
        ground (arith, eq_iff r.kind s.kind, eq_iff s.kind r.kind, eq_iff h k, eq_iff k h)
    go (some h) none e = ground arith
    go none k e = ground arith

module _ {t : Table} (w : IsWell t) (i : ℕ) (f : Row → Row)
    (id_kept : (r : Row) → (f r).id ≡ r.id) where
  only-id : (r : Row) → (only i f r).id ≡ r.id
  only-id r = ground (arith, id_kept r)

  -- The update of one row, where the new row shares no key with another.
  update-IsWell :
      ((r : Row) → In r t.rows → r.id ≡ i → IsRowWell (f r))
      → ((r s : Row)
          → In r t.rows
          → In s t.rows
          → r.id ≡ i
          → s.id ≢ i
          → same_key (f r) s ≡ true
          → r.id ≡ s.id)
      → IsWell (record t { rows = update_id i f t.rows })
  update-IsWell well apart = rw update_id-eq-map (
      map-IsWell (only i f) w only-id
        (λ r m. elim (Bool-cases (r.id == i)) [
          | inl e ↦ rw e (well r m ((==_iff r.id i).0 e))
          | inr n ↦ rw n (w.rows_well r m)
        ])
        split)
    where
      split :
          (r s : Row)
          → In r t.rows
          → In s t.rows
          → same_key (only i f r) (only i f s) ≡ true
          → r.id ≡ s.id
      split r s m n h = elim (Bool-cases (r.id == i)) [
        | inl a ↦ elim (Bool-cases (s.id == i)) [
          | inl b ↦ (==_iff r.id i).0 a ∙ sym ((==_iff s.id i).0 b)
          | inr b ↦ apart r s m n ((==_iff r.id i).0 a) (ground (arith, b)) (rw (a, b) at h)
        ]
        | inr a ↦ elim (Bool-cases (s.id == i)) [
          | inl b ↦ sym (
              apart s r n m ((==_iff s.id i).0 b) (ground (arith, a))
                (same_key_comm r (f s) (rw (a, b) at h)))
          | inr b ↦ w.dedup r s m n (rw (a, b) at h)
        ]
      ]

-- The index lets an UPDATE through only where the invariant stands.
module _ {t : Table} (w : IsWell t) (i : ℕ) (f : Row → Row)
    (id_kept : (r : Row) → (f r).id ≡ r.id) where
  update_checked-IsWell :
      {t' : Table}
      → ((r : Row) → IsRowWell (f r))
      → update_checked i f t ≡ return (tt, t')
      → IsWell t'
  unfolding update_checked
  update_checked-IsWell {t'} well h = elim (first_cases (λ (r : Row). r.id == i) t.rows) [
    | inr (e, all) ↦ let same : t ≡ t' = ground (arith, e, h) in rw (sym same) w
    | inl (r, e, m, q) ↦ elim (Bool-cases (conflicts (f r) t.rows)) [
      | inl c ↦ absurd (ground (arith, e, c, h))
      | inr c ↦
          let same : record t { rows = update_id i f t.rows } ≡ t' = ground (arith, e, c, h) in
          rw (sym same) (
            update-IsWell w i f id_kept (λ v n p. well v)
              (λ a b n k p d key.
                let here_r : a ≡ r =
                  DistinctIds-eq t.rows w.ids n m (p ∙ sym ((==_iff r.id i).0 q)) in
                let key_r : same_key (f r) b ≡ true =
                  rw (ap (λ v. same_key (f v) b) here_r) at key in
                let free =
                  conflicts-false (f r) t.rows c k
                    (λ same_id. d (sym same_id ∙ id_kept r ∙ (==_iff r.id i).0 q)) in
                cc))
    ]
  ]

  -- The claim's UPDATE, on a row that is active already.
  active-IsWell :
      (r : Row)
      → In r t.rows
      → r.id ≡ i
      → IsRowWell (f r)
      → (f r).kind ≡ r.kind
      → (f r).payload_hash ≡ r.payload_hash
      → is_active r.status ≡ true
      → IsWell (record t { rows = update_id i f t.rows })
  active-IsWell r m e well kind_kept hash_kept act =
      update-IsWell w i f id_kept (λ v n p. rw (DistinctIds-eq t.rows w.ids n m (p ∙ sym e)) well)
        (λ a b n k p d key.
          let here_r : a ≡ r = DistinctIds-eq t.rows w.ids n m (p ∙ sym e) in
          w.dedup a b n k (
            rw (ap (λ v. same_key v b) here_r) (
              same_key_back (f r) r b kind_kept hash_kept act
                (rw (ap (λ v. same_key (f v) b) here_r) at key))))

start-IsRowWell : (now : ℕ) (r : Row) → IsRowWell (start now r)
unfolding start
start-IsRowWell now r = record { finished = refl; started = refl; counted = ground arith }

-- The claim of a waiting row.
pub claim-IsWell :
    (now : ℕ) {t : Table} (r : Row)
    → IsWell t
    → In r t.rows
    → r.status ≡ pending
    → IsWell (record t { rows = update_id r.id (start now) t.rows })
claim-IsWell now {t} r w m p =
    active-IsWell w r.id (start now) (unfold start in λ v. refl) r m refl (start-IsRowWell now r)
      (unfold start in refl) (unfold start in refl) (rw p refl)

pub finish-IsWell :
    (now i : ℕ) (result : Option Fields) {t t' : Table}
    → IsWell t
    → update_checked i (finish_row now result) t ≡ return (tt, t')
    → IsWell t'
unfolding finish_row
finish-IsWell now i result w h =
    update_checked-IsWell w i (finish_row now result) (λ r. refl)
      (λ r. record { finished = refl; started = refl; counted = refl }) h

fail_row-IsRowWell :
    (now : ℕ) (msg : String) (attempts max_attempts : ℕ) (r : Row)
    → IsRowWell (fail_row now msg attempts max_attempts r)
unfolding fail_row
fail_row-IsRowWell now msg attempts max_attempts r = record {
  finished = ground arith;
  started = ground arith;
  counted = ground arith;
}

pub fail-IsWell :
    (now i : ℕ) (msg : String) (attempts max_attempts : ℕ) {t t' : Table}
    → IsWell t
    → update_checked i (fail_row now msg attempts max_attempts) t ≡ return (tt, t')
    → IsWell t'
fail-IsWell now i msg attempts max_attempts w h =
    update_checked-IsWell w i (fail_row now msg attempts max_attempts)
      (unfold fail_row in λ r. refl) (fail_row-IsRowWell now msg attempts max_attempts) h

abbrev back : ℕ → ℕ → List String → Row → Row
back now after ks r = if is_stale now after ks r then reclaim_row now r else r

module _ (now after : ℕ) (ks : List String) where
  back_kept :
      (r : Row)
      → ((back now after ks r).id ≡ r.id)
        × ((back now after ks r).kind ≡ r.kind)
        × ((back now after ks r).payload_hash ≡ r.payload_hash)
  unfolding reclaim_row
  back_kept r = elim (Bool-cases (is_stale now after ks r)) [
    | inl t ↦ rw t (refl, refl, refl)
    | inr f ↦ rw f (refl, refl, refl)
  ]

  is_stale-is_active : (r : Row) → is_stale now after ks r ≡ true → is_active r.status ≡ true
  unfolding is_stale
  is_stale-is_active r h = go r.status (ground arith)
    where
      go : (s : Status) → is_running s ≡ true → is_active s ≡ true
      go running e = refl
      go pending e = cc
      go done e = cc
      go failed e = cc

  back_active :
      (r : Row) → is_active (back now after ks r).status ≡ true → is_active r.status ≡ true
  back_active r h = elim (Bool-cases (is_stale now after ks r)) [
    | inl t ↦ is_stale-is_active r t
    | inr f ↦ rw f at h
  ]

  back-IsRowWell : (r : Row) → IsRowWell r → IsRowWell (back now after ks r)
  unfolding reclaim_row
  back-IsRowWell r w = elim (Bool-cases (is_stale now after ks r)) [
    | inl t ↦
        rw t (record { finished = ground arith; started = ground arith; counted = ground arith })
    | inr f ↦ rw f w
  ]

  same_key_active : (r s : Row) → same_key r s ≡ true → is_active r.status ≡ true
  unfolding same_key
  same_key_active r s h = ground arith

  back_key :
      (r s : Row)
      → same_key (back now after ks r) (back now after ks s) ≡ true
      → same_key r s ≡ true
  back_key r s h =
      let left =
        same_key_back (back now after ks r) r (back now after ks s) (back_kept r).1 (back_kept r).2
          (back_active r (same_key_active (back now after ks r) (back now after ks s) h)) h in
      let turned = same_key_comm r (back now after ks s) left in
      same_key_comm s r (
        same_key_back (back now after ks s) s r (back_kept s).1 (back_kept s).2
          (back_active s (same_key_active (back now after ks s) r turned)) turned)

  pub reclaim-IsWell :
      {t : Table} → IsWell t → IsWell (record t { rows = reclaim_rows now after ks t.rows })
  unfolding reclaim_rows
  reclaim-IsWell {t} w =
      map-IsWell (back now after ks) w (λ r. (back_kept r).0)
        (λ r m. back-IsRowWell r (w.rows_well r m)) (λ r s m n h. w.dedup r s m n (back_key r s h))

pub new_row-IsRowWell :
    (now i : ℕ) (kind : String) (body : Json) (hash : String) (priority : ℤ) (max_attempts : ℕ)
    → IsRowWell (new_row now i kind body hash priority max_attempts)
unfolding new_row
new_row-IsRowWell now i kind body hash priority max_attempts = record {
  finished = refl;
  started = refl;
  counted = refl;
}
