-- ===== src/TrimRows/Batches.antt =====
-- One batch: which rows a DELETE by chosen keys takes.
use bifrost_platform_plugin.Prelude.{
  ℕ, zero, suc, ◌+◌, ◌≤◌, ◌<◌, ◌≡◌, refl, sym, ap, List, [], ◌∷◌, Bool, true, false, not, has, keep,
  take, length, ◌==◌, arith, Bool-cases, ==_iff, length-take, inl, inr, In, here, there, In-keep,
  keep-In, In-take, In-map, map-In,
}
use bifrost_platform_plugin.TrimRows.{chosen, is_chosen, delete_keyed}

has-In : (k : ℕ) (ks : List ℕ) → has (λ x. x == k) ks ≡ true → In k ks
has-In k [] h = ground (arith, h)
has-In k (x ∷ ks) h = elim (Bool-cases (x == k)) [
  | inl e ↦ here (sym ((==_iff x k).0 e))
  | inr ne ↦ there (has-In k ks (rw ne at h))
]

In-has : (k : ℕ) (ks : List ℕ) → In k ks → has (λ x. x == k) ks ≡ true
In-has k [] m = elim m [ ]
In-has k (x ∷ ks) (here e) = rw ((==_iff x k).1 (sym e)) refl
In-has k (x ∷ ks) (there m) = elim (Bool-cases (x == k)) [
  | inl e ↦ rw e refl
  | inr ne ↦ rw ne (In-has k ks m)
]

module _ {A : Type 0} where
  -- A key names one row.
  abbrev pub Keyed : (A → ℕ) → List A → Type 0
  Keyed key_of rows = (r s : A) → In r rows → In s rows → key_of r ≡ key_of s → r ≡ s

  pub Keyed-keep :
      (key_of : A → ℕ) (p : A → Bool) (rows : List A)
      → Keyed key_of rows
      → Keyed key_of (keep p rows)
  Keyed-keep key_of p rows u r s m n e = u r s (In-keep p rows m).0 (In-keep p rows n).0 e

  keep-keep :
      (p q : A → Bool) (rows : List A)
      → ((r : A) → In r rows → q r ≡ true → p r ≡ true)
      → keep q (keep p rows) ≡ keep q rows
  keep-keep p q [] h = refl
  keep-keep p q (r ∷ rows) h =
      let rest = keep-keep p q rows (λ s m. h s (there m)) in
      elim (Bool-cases (q r)) [
        | inl t ↦ rw (h r (here refl) t, t) (ap (λ l. r ∷ l) rest)
        | inr f ↦ elim (Bool-cases (p r)) [ inl t ↦ rw (t, f) rest | inr g ↦ rw (g, f) rest ]
      ]

  pub keep_all :
      (p : A → Bool) (rows : List A) → ((r : A) → In r rows → p r ≡ true) → keep p rows ≡ rows
  keep_all p [] h = refl
  keep_all p (r ∷ rows) h =
      rw (h r (here refl)) (ap (λ l. r ∷ l) (keep_all p rows (λ s m. h s (there m))))

  keep_split :
      (p : A → Bool) (rows : List A)
      → length (keep p rows) + length (keep (λ r. not (p r)) rows) ≡ length rows
  keep_split p [] = omega arith
  keep_split p (r ∷ rows) = elim (Bool-cases (p r)) [
    | inl t ↦ rw t (omega (arith, keep_split p rows))
    | inr f ↦ rw f (omega (arith, keep_split p rows))
  ]

  -- A test that holds of the first `n` that are due holds of as many rows.
  take_count :
      (due hit : A → Bool) (n : ℕ) (rows : List A)
      → ((r : A) → In r (take n (keep due rows)) → hit r ≡ true)
      → length (take n (keep due rows)) ≤ length (keep hit rows)
  take_count due hit zero rows h = omega arith
  take_count due hit (suc n) [] h = omega arith
  take_count due hit (suc n) (r ∷ rows) h = elim (Bool-cases (due r)) [
    | inl t ↦
        let h' : (s : A) → In s (r ∷ take n (keep due rows)) → hit s ≡ true = rw t at h in
        let rest = take_count due hit n rows (λ s m. h' s (there m)) in
        rw t (rw (h' r (here refl)) (omega (arith, rest)))
    | inr f ↦
        let h' : (s : A) → In s (take (suc n) (keep due rows)) → hit s ≡ true = rw f at h in
        let rest = take_count due hit (suc n) rows h' in rw f (ground (arith, rest))
  ]

  module _ (key_of : A → ℕ) (due : A → Bool) (n : ℕ) (rows : List A) where
    abbrev gone : A → Bool
    gone = is_chosen key_of (chosen key_of due n rows)

    -- Only due rows are taken.
    pub spared_row : Keyed key_of rows → (r : A) → In r rows → due r ≡ false → gone r ≡ false
    spared_row u r m d = elim (Bool-cases (gone r)) [
      | inr f ↦ f
      | inl t ↦
          let (x, mx, e) = In-map key_of (take n (keep due rows)) (has-In (key_of r) _ t) in
          let (mr, dx) = In-keep due rows (In-take n (keep due rows) mx) in
          absurd (let same = ap due (u r x m mr e) in ground (arith, same, d, dx))
    ]

    taken : (r : A) → In r (take n (keep due rows)) → gone r ≡ true
    taken r m = In-has (key_of r) _ (map-In key_of (take n (keep due rows)) m refl)

    pub delete_keyed-count :
        (delete_keyed key_of due n rows).0 + length (delete_keyed key_of due n rows).1 ≡ length rows
    unfolding delete_keyed
    delete_keyed-count = keep_split gone rows

    pub delete_keyed-rest :
        Keyed key_of rows
        → keep (λ r. not (due r)) (delete_keyed key_of due n rows).1 ≡ keep (λ r. not (due r)) rows
    unfolding delete_keyed
    delete_keyed-rest u =
        keep-keep (λ r. not (gone r)) (λ r. not (due r)) rows
          (λ r m d. ap not (spared_row u r m (ground (arith, d))))

    -- A batch that is not full leaves no due row.
    pub delete_keyed-done :
        (delete_keyed key_of due n rows).0 < n
        → (r : A) → In r (delete_keyed key_of due n rows).1
        → due r ≡ false
    unfolding delete_keyed
    delete_keyed-done less r m =
        let (was, out) = In-keep (λ x. not (gone x)) rows m in
        elim (Bool-cases (due r)) [
          | inr f ↦ f
          | inl t ↦
              let few = take_count due gone n rows taken in
              let size = length-take n (keep due rows) in
              let whole = take_whole n (keep due rows) (omega (arith, few, size, less)) in
              absurd
                (let hit = taken r (rw whole (keep-In due rows was t)) in ground (arith, hit, out))
        ]
      where
        take_whole : (n : ℕ) (l : List A) → length l ≤ n → take n l ≡ l
        take_whole zero [] h = refl
        take_whole zero (x ∷ l) h = absurd (omega (arith, h))
        take_whole (suc n) [] h = refl
        take_whole (suc n) (x ∷ l) h = ap (λ k. x ∷ k) (take_whole n l (omega (arith, h)))
