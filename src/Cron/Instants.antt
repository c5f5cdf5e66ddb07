-- ===== src/Cron/Instants.antt =====
-- What `iter_cron_fires` relies on in a zone, and the instants that a wall time names.
use bifrost_platform_plugin.Prelude.{
  ℕ, suc, ◌%◌, ◌≤◌, ◌<◌, ◌≡◌, refl, sym, ap, ◌∙◌, Option, none, some, List, [], Bool, true, false,
  leb, arith, In, here, In-cons, ◌⊎◌, inl, inr,
}
use bifrost_platform_plugin.Prelude.Sorting.{In-sort_by, sort_by-In}
use bifrost_platform_plugin.Cron.{
  Zone, utc, named, local_of, add_instant, instants, values_or, allowed, wall_at, date_of, hour_of,
  minute_of,
}
use bifrost_platform_plugin.Cron.Text.{In-range, range-In}
use bifrost_platform_plugin.Cron.Bounds.{Within}
use bifrost_platform_plugin.Cron.Walk.{
  Adds, Names, In-add_instant, add_instant-In, add_instant-keeps, has_same-In, In-has_same,
}

abbrev pub Back : Zone → ℕ → Type 0
Back utc t = Unit
Back (named local instant) t = (instant false (local t) ≡ t) ⊎ (instant true (local t) ≡ t)

-- What the code relies on in a tzinfo: one of the two folds of a wall time gives back the instant
-- that reads it, and the local date never goes back.
pub record IsZone (zone : Zone) : Type 0 where
  pub back : (t : ℕ) → t % 60 ≡ 0 → Back zone t
  pub forward : (s t : ℕ) → s ≤ t → date_of (local_of zone s) ≤ date_of (local_of zone t)

pub Adds-iff :
    (f : List ℕ → List ℕ) (P Q : ℕ → Type 0)
    → ((t : ℕ) → (P t → Q t) × (Q t → P t))
    → Adds f P
    → Adds f Q
Adds-iff f P Q e h out t = (
  λ m. elim ((h out t).0 m) [ inl p ↦ inl ((e t).0 p) | inr k ↦ inr k ],
  λ q. (h out t).1 (elim q [ inl p ↦ inl ((e t).1 p) | inr k ↦ inr k ]),
)

pub decode :
    (day hour minute : ℕ)
    → hour < 24
    → minute < 60
    → (date_of (wall_at day hour minute) ≡ day)
      × (hour_of (wall_at day hour minute) ≡ hour)
      × (minute_of (wall_at day hour minute) ≡ minute)
decode day hour minute h m = (omega (arith, h, m), omega (arith, h, m), omega (arith, h, m))

pub encode :
    (wall : ℕ) → wall % 60 ≡ 0 → wall_at (date_of wall) (hour_of wall) (minute_of wall) ≡ wall
encode wall h = omega (arith, h)

pub In-values_or :
    (o : Option (List ℕ)) (n : ℕ) {v : ℕ}
    → Within 0 n o
    → In v (values_or o (suc n))
    → (allowed o v ≡ true) × (v ≤ n)
In-values_or none n w m = (refl, let r = In-range 0 (suc n) m in omega (arith, r.1))
In-values_or (some values) n w m =
    let k = In-sort_by leb values m in (In-has_same _ values k, (w _ k).1)

pub values_or-In :
    (o : Option (List ℕ)) (n : ℕ) {v : ℕ} → v ≤ n → allowed o v ≡ true → In v (values_or o (suc n))
values_or-In none n h a = range-In 0 (suc n) _ (omega arith) (omega (arith, h))
values_or-In (some values) n h a = sort_by-In leb values (has_same-In _ values a)

add_two :
    (local : ℕ → ℕ) (instant : Bool → ℕ → ℕ) (wall t : ℕ)
    → In t (instants wall (named local instant))
    → Names (named local instant) wall t
unfolding instants
add_two local instant wall t m =
    elim (In-add_instant local instant wall true (add_instant local instant wall false []) t m) [
      | inl p ↦ p
      | inr k ↦ elim (In-add_instant local instant wall false [] t k) [
        | inl p ↦ p
        | inr n ↦ elim n [ ]
      ]
    ]

In-moved : {x t : ℕ} {xs : List ℕ} → x ≡ t → In x xs → In t xs
In-moved e m = rw e at m

pub instants-Names :
    (zone : Zone)
    → IsZone zone
    → (wall t : ℕ) → wall % 60 ≡ 0
    → (In t (instants wall zone) → Names zone wall t)
      × (Names zone wall t → In t (instants wall zone))
unfolding instants
instants-Names utc z wall t whole = (
  λ m. elim (In-cons m) [ inl e ↦ (e, ap (λ x. x % 60) e ∙ whole) | inr n ↦ elim n [ ] ],
  λ p. here p.0,
)
instants-Names (named local instant) z wall t whole = (
  add_two local instant wall t,
  λ p. elim (z.back t p.1) [
    | inl e ↦
        let e' : instant false wall ≡ t = ap (instant false) (sym p.0) ∙ e in
        let m : In (instant false wall) (add_instant local instant wall false []) =
          add_instant-In local instant wall false [] (ap local e' ∙ p.0)
            (ap (λ x. x % 60) e' ∙ p.1) in
        add_instant-keeps local instant wall true (add_instant local instant wall false [])
          (In-moved e' m)
    | inr e ↦
        let e' : instant true wall ≡ t = ap (instant true) (sym p.0) ∙ e in
        let m : In (instant true wall) (instants wall (named local instant)) =
          add_instant-In local instant wall true (add_instant local instant wall false [])
            (ap local e' ∙ p.0) (ap (λ x. x % 60) e' ∙ p.1) in
        In-moved e' m
  ],
)
