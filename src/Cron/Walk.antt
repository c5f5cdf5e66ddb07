-- ===== src/Cron/Walk.antt =====
-- The loops of `iter_cron_fires`, as sets: what each of them adds.
use bifrost_platform_plugin.Prelude.{
  ℕ, ◌%◌, ◌≤◌, ◌<◌, ◌≡◌, refl, ap, ◌∙◌, List, [], ◌∷◌, Bool, true, false, not, ◌&&◌, has, ltb, leb,
  ◌==◌, arith, In, here, there, In-cons, In-append, In-append_left, In-append_right, ◌⊎◌, inl, inr,
  Bool-cases,
}
use bifrost_platform_plugin.Cron.{Zone, local_of, add_instant, each, add_fire}

pub has_same-In : (t : ℕ) (xs : List ℕ) → has (λ u. t == u) xs ≡ true → In t xs
has_same-In t [] h = ground (arith, h)
has_same-In t (x ∷ xs) h = elim (Bool-cases (t == x)) [
  | inl e ↦ here (ground (arith, e))
  | inr n ↦ there (has_same-In t xs (ground (arith, h, n)))
]

pub In-has_same : (t : ℕ) (xs : List ℕ) → In t xs → has (λ u. t == u) xs ≡ true
In-has_same t [] m = elim m [ ]
In-has_same t (x ∷ xs) (here e) = ground (arith, e)
In-has_same t (x ∷ xs) (there m) = ground (arith, In-has_same t xs m)

-- What a loop adds, where each round adds what passes `P`.
abbrev pub Adds : (List ℕ → List ℕ) → (ℕ → Type 0) → Type 0
Adds f P =
    (out : List ℕ) (t : ℕ) → (In t (f out) → P t ⊎ In t out) × (P t ⊎ In t out → In t (f out))

abbrev pub Some : {A : Type 0} → (A → ℕ → Type 0) → List A → ℕ → Type 0
Some {A} P xs t = (x : A) × In x xs × P x t

pub each-Adds :
    {A : Type 0} (f : A → List ℕ → List ℕ) (P : A → ℕ → Type 0)
    → ((x : A) → Adds (f x) (P x))
    → (xs : List A) → Adds (each f xs) (Some P xs)
each-Adds f P h [] out t = (λ m. inr m, λ q. elim q [ inl p ↦ elim p.1 [ ] | inr m ↦ m ])
each-Adds f P h (x ∷ xs) out t = (
  λ m. elim ((each-Adds f P h xs (f x out) t).0 m) [
    | inl p ↦ inl (p.0, there p.1, p.2)
    | inr k ↦ elim ((h x out t).0 k) [ inl p ↦ inl (x, here refl, p) | inr q ↦ inr q ]
  ],
  λ q. (each-Adds f P h xs (f x out) t).1 (elim q [
    | inl p ↦ elim (In-cons p.1) [
      | inl e ↦ inr ((h x out t).1 (inl (rw e at p.2)))
      | inr k ↦ inl (p.0, k, p.2)
    ]
    | inr m ↦ inr ((h x out t).1 (inr m))
  ]),
)

pub add_fire-Adds :
    (start end x : ℕ) → Adds (add_fire start end x) (λ t. (t ≡ x) × ((start ≤ t) × (t < end)))
add_fire-Adds start end x out t = elim (Bool-cases (leb start x && ltb x end)) [
  | inl inside ↦ elim (Bool-cases (has (λ u. x == u) out)) [
    | inl old ↦
        let m = has_same-In x out old in
        (
          λ k. inr (rw (inside, old) at k),
          λ q. elim q [ inl p ↦ rw (inside, old) (rw p.0 m) | inr k ↦ rw (inside, old) k ],
        )
    | inr new ↦ (
      λ k. elim (In-cons (rw (inside, new) at k)) [
        | inl e ↦ inl (e, (ground (arith, inside, e), ground (arith, inside, e)))
        | inr r ↦ inr r
      ],
      λ q. elim q [ inl p ↦ rw (inside, new) (here p.0) | inr k ↦ rw (inside, new) (there k) ],
    )
  ]
  | inr outside ↦ (
    λ k. inr (rw outside at k),
    λ q. elim q [
      | inl p ↦ absurd (ground (arith, outside, p.0, p.1.0, p.1.1))
      | inr k ↦ rw outside k
    ],
  )
]

-- The instants of a wall time are those that read it on the local clock, on a whole minute.
abbrev pub Names : Zone → ℕ → ℕ → Type 0
Names zone wall t = (local_of zone t ≡ wall) × (t % 60 ≡ 0)

pub In-add_instant :
    (local : ℕ → ℕ) (instant : Bool → ℕ → ℕ) (wall : ℕ) (fold : Bool) (out : List ℕ) (t : ℕ)
    → In t (add_instant local instant wall fold out)
    → ((local t ≡ wall) × (t % 60 ≡ 0)) ⊎ In t out
In-add_instant local instant wall fold out t m =
    elim (Bool-cases (
      local (instant fold wall) == wall
      && instant fold wall % 60 == 0
      && not (has (λ u. instant fold wall == u) out))) [
        | inl c ↦ elim (In-append out (instant fold wall ∷ []) (rw c at m)) [
          | inl k ↦ inr k
          | inr k ↦ elim (In-cons k) [
            | inl e ↦ inl (ap local e ∙ ground (arith, c), ap (λ x. x % 60) e ∙ ground (arith, c))
            | inr n ↦ elim n [ ]
          ]
        ]
        | inr c ↦ inr (rw c at m)
      ]

pub add_instant-In :
    (local : ℕ → ℕ) (instant : Bool → ℕ → ℕ) (wall : ℕ) (fold : Bool) (out : List ℕ)
    → local (instant fold wall) ≡ wall
    → instant fold wall % 60 ≡ 0
    → In (instant fold wall) (add_instant local instant wall fold out)
add_instant-In local instant wall fold out back whole =
    elim (Bool-cases (has (λ u. instant fold wall == u) out)) [
      | inl old ↦
          let c : (local (instant fold wall) == wall
                && instant fold wall % 60 == 0
                && not (has (λ u. instant fold wall == u) out))
              ≡ false =
            ground (arith, old) in
          rw c (has_same-In (instant fold wall) out old)
      | inr new ↦
          let c : (local (instant fold wall) == wall
                && instant fold wall % 60 == 0
                && not (has (λ u. instant fold wall == u) out))
              ≡ true =
            ground (arith, new, back, whole) in
          rw c (In-append_right out (instant fold wall ∷ []) (here refl))
    ]

pub add_instant-keeps :
    (local : ℕ → ℕ) (instant : Bool → ℕ → ℕ) (wall : ℕ) (fold : Bool) (out : List ℕ) {t : ℕ}
    → In t out
    → In t (add_instant local instant wall fold out)
add_instant-keeps local instant wall fold out m =
    elim (Bool-cases (
      local (instant fold wall) == wall
      && instant fold wall % 60 == 0
      && not (has (λ u. instant fold wall == u) out))) [
        | inl c ↦ rw c (In-append_left out (instant fold wall ∷ []) m)
        | inr c ↦ rw c m
      ]
