-- ===== src/Cron/Fires.antt =====
-- `iter_cron_fires` against the walk over every minute of the window.
use bifrost_platform_plugin.Prelude.{
  ℕ, ◌%◌, ◌≤◌, ◌<◌, ◌≡◌, refl, sym, ap, ◌∙◌, ◌↔◌, String, some, List, [], ◌∷◌, Bool, true, has, leb,
  arith, In, here, there, ◌⊎◌, inl, inr, Bool-cases,
}
use bifrost_platform_plugin.Prelude.Sorting.{
  In-sort_by, sort_by-In, Ordered, sort_by-Ordered, IsPreorder,
}
use bifrost_platform_plugin.Cron.{
  Zone, local_of, instants, each, add_fire, values_or, allowed, wall_at, add_minute, add_fields,
  add_day, days, walk_days, day_matches, matches, date_of, hour_of, minute_of, iter_cron_fires,
}
use bifrost_platform_plugin.Cron.Text.{range-In}
use bifrost_platform_plugin.Cron.Parse.{Fields, parse_exprs}
use bifrost_platform_plugin.Cron.Bounds.{InRange, parse_exprs-InRange}
use bifrost_platform_plugin.Cron.Walk.{Adds, Some, Names, each-Adds, add_fire-Adds}
use bifrost_platform_plugin.Cron.Instants.{
  IsZone, Adds-iff, decode, encode, In-values_or, values_or-In, instants-Names,
}

abbrev Window : ℕ → ℕ → ℕ → Type 0
Window start end t = (start ≤ t) × (t < end)

-- The minute walk: a whole minute of the window, on the local clock too, whose wall time some
-- expression matches.
abbrev pub IsFire : Zone → ℕ → ℕ → List Fields → ℕ → Type 0
IsFire zone start end parsed t =
    Window start end t
    × (t % 60 ≡ 0)
    × (local_of zone t % 60 ≡ 0)
    × (has (matches (local_of zone t)) parsed ≡ true)

module _ (zone : Zone) (z : IsZone zone) (start end : ℕ) where
  abbrev AtMinute : ℕ → ℕ → ℕ → ℕ → Type 0
  AtMinute day hour minute t = Names zone (wall_at day hour minute) t × Window start end t

  add_minute-Adds :
      (day hour minute : ℕ)
      → Adds (add_minute zone start end day hour minute) (AtMinute day hour minute)
  unfolding add_minute
  add_minute-Adds day hour minute =
      Adds-iff _
        (Some (λ x t. (t ≡ x) × Window start end t) (instants (wall_at day hour minute) zone)) _
        (λ t.
          let i = instants-Names zone z (wall_at day hour minute) t (omega arith) in
          (λ p. (i.0 (rw (sym p.2.0) at p.1), p.2.1), λ p. (t, i.1 p.0, (refl, p.1))))
        (each-Adds (add_fire start end) (λ x t. (t ≡ x) × Window start end t)
          (add_fire-Adds start end) (instants (wall_at day hour minute) zone))

  -- What one expression adds on one day.
  abbrev OnDay : ℕ → Fields → ℕ → Type 0
  OnDay day f t =
      (day_matches day f ≡ true)
      × Some (λ hour. Some (λ minute. AtMinute day hour minute) (values_or f.minutes 60))
          (values_or f.hours 24) t

  add_fields-Adds : (day : ℕ) (f : Fields) → Adds (add_fields zone start end day f) (OnDay day f)
  unfolding add_fields
  add_fields-Adds day f out t = elim (Bool-cases (day_matches day f)) [
    | inl yes_day ↦
        let inner =
          each-Adds (λ hour. each (add_minute zone start end day hour) (values_or f.minutes 60))
            (λ hour. Some (λ minute. AtMinute day hour minute) (values_or f.minutes 60))
            (λ hour.
              each-Adds (add_minute zone start end day hour) (AtMinute day hour)
                (add_minute-Adds day hour) (values_or f.minutes 60))
            (values_or f.hours 24) out t in
        (
          λ m. elim (inner.0 (rw yes_day at m)) [ inl p ↦ inl (yes_day, p) | inr k ↦ inr k ],
          λ q. rw yes_day (inner.1 (elim q [ inl p ↦ inl p.1 | inr k ↦ inr k ])),
        )
    | inr no_day ↦ (
      λ m. inr (rw no_day at m),
      λ q. elim q [ inl p ↦ absurd (ground (arith, p.0, no_day)) | inr k ↦ rw no_day k ],
    )
  ]

  walked-Adds :
      (parsed : List Fields)
      → Adds
          (each (add_day zone start end parsed) (days zone start end))
          (Some (λ day. Some (OnDay day) parsed) (days zone start end))
  unfolding add_day
  walked-Adds parsed =
      each-Adds (add_day zone start end parsed) (λ day. Some (OnDay day) parsed)
        (λ day. each-Adds (add_fields zone start end day) (OnDay day) (add_fields-Adds day) parsed)
        (days zone start end)

  matches-intro :
      (wall : ℕ) (f : Fields)
      → allowed f.minutes (minute_of wall) ≡ true
      → allowed f.hours (hour_of wall) ≡ true
      → day_matches (date_of wall) f ≡ true
      → matches wall f ≡ true
  unfolding matches
  matches-intro wall f a b c = rw (a, b) c

  matches-elim :
      (wall : ℕ) (f : Fields)
      → matches wall f ≡ true
      → (allowed f.minutes (minute_of wall) ≡ true)
        × (allowed f.hours (hour_of wall) ≡ true)
        × (day_matches (date_of wall) f ≡ true)
  unfolding matches
  matches-elim wall f h = ground (arith, h)

  has-In :
      (p : Fields → Bool) (fs : List Fields)
      → has p fs ≡ true
      → (f : Fields) × In f fs × (p f ≡ true)
  has-In p [] h = ground (arith, h)
  has-In p (f ∷ fs) h = elim (Bool-cases (p f)) [
    | inl t ↦ (f, here refl, t)
    | inr n ↦ let (g, m, q) = has-In p fs (ground (arith, h, n)) in (g, there m, q)
  ]

  In-has :
      (p : Fields → Bool) (fs : List Fields) {f : Fields} → In f fs → p f ≡ true → has p fs ≡ true
  In-has p [] m h = elim m [ ]
  In-has p (f ∷ fs) (here e) h = ground (arith, sym (ap p e) ∙ h)
  In-has p (f ∷ fs) (there m) h = ground (arith, In-has p fs m h)

  walked-IsFire :
      (parsed : List Fields)
      → ((f : Fields) → In f parsed → InRange f)
      → (t : ℕ) → Some (λ day. Some (OnDay day) parsed) (days zone start end) t
      → IsFire zone start end parsed t
  walked-IsFire parsed r t
        (
          day,
          in_days,
          (f, in_fs, (on, (hour, in_hours, (minute, in_minutes, ((reads, whole), window))))),
        ) =
      let (ok_hour, hour_max) = In-values_or f.hours 23 (r f in_fs).hours in_hours in
      let (ok_minute, minute_max) = In-values_or f.minutes 59 (r f in_fs).minutes in_minutes in
      let (d, h, m) =
        decode day hour minute (omega (arith, hour_max)) (omega (arith, minute_max)) in
      (
        window,
        whole,
        ap (λ w. w % 60) reads ∙ omega arith,
        In-has _ parsed in_fs (
            rw reads (
              matches-intro (wall_at day hour minute) f (ap (allowed f.minutes) m ∙ ok_minute)
                (ap (allowed f.hours) h ∙ ok_hour) (ap (λ d. day_matches d f) d ∙ on))),
      )

  IsFire-walked :
      (parsed : List Fields) (t : ℕ)
      → IsFire zone start end parsed t
      → Some (λ day. Some (OnDay day) parsed) (days zone start end) t
  IsFire-walked parsed t (window, whole, whole_local, match) =
      let wall = local_of zone t in
      let (f, in_fs, ok) = has-In _ parsed match in
      let (ok_minute, ok_hour, on) = matches-elim wall f ok in
      let first = z.forward start t window.0 in
      let final = z.forward t end (omega (arith, window.1)) in
      (
        date_of wall,
        range-In _ _ (date_of wall) first (omega (arith, first, final)),
        (
          f,
          in_fs,
          (
            on,
            (
              hour_of wall,
              values_or-In f.hours 23 (omega arith) ok_hour,
              (
                minute_of wall,
                values_or-In f.minutes 59 (omega arith) ok_minute,
                ((sym (encode wall whole_local), whole), window),
              ),
            ),
          ),
        ),
      )

pub leb-IsPreorder : IsPreorder leb
leb-IsPreorder = record {
  total = λ x y h. ground (arith, h);
  trans = λ x y z h k. ground (arith, h, k);
}

module _ (zone : Zone) (z : IsZone zone) (start end : ℕ) where
  walk_days-IsFire :
      (parsed : List Fields)
      → ((f : Fields) → In f parsed → InRange f)
      → Ordered leb (walk_days zone start end parsed)
        × ((t : ℕ) → In t (walk_days zone start end parsed) ↔ IsFire zone start end parsed t)
  unfolding walk_days
  walk_days-IsFire parsed r = (
    sort_by-Ordered leb leb-IsPreorder found,
    λ t. (
      λ m. elim ((all t).0 (In-sort_by leb found m)) [
        | inl p ↦ walked-IsFire zone z start end parsed r t p
        | inr n ↦ elim n [ ]
      ],
      λ p. sort_by-In leb found ((all t).1 (inl (IsFire-walked zone z start end parsed t p))),
    ),
  )
    where
      found : List ℕ
      found = each (add_day zone start end parsed) (days zone start end) []

      all :
          (t : ℕ)
          → (In t found
              → Some (λ day. Some (OnDay zone z start end day) parsed) (days zone start end) t
                ⊎ In t [])
            × (Some (λ day. Some (OnDay zone z start end day) parsed) (days zone start end) t
                  ⊎ In t []
                → In t found)
      all t = walked-Adds zone z start end parsed [] t

  -- In a zone where one of the two folds of a wall time gives back the instant that reads it, and
  -- where the local date never goes back: if the expressions parse, `iter_cron_fires` returns the
  -- instants of the window, in ascending order, exactly those that the walk over every minute
  -- finds: a whole minute, on the local clock too, whose wall time one of the expressions matches.
  pub iter_cron_fires_exact :
      (exprs : List String) (parsed : List Fields)
      → parse_exprs exprs ≡ some parsed
      → (fires : List ℕ) × (iter_cron_fires zone exprs start end ≡ some fires)
        × Ordered leb fires
        × ((t : ℕ) → In t fires ↔ IsFire zone start end parsed t)
  unfolding iter_cron_fires
  iter_cron_fires_exact exprs parsed e = elim (Bool-cases (leb end start)) [
    | inl t ↦
        ([], rw t refl, tt, λ i. (λ m. elim m [ ], λ p. absurd (ground (arith, t, p.0.0, p.0.1))))
    | inr f ↦
        let (order, exact) = walk_days-IsFire parsed (rw e at (parse_exprs-InRange exprs)) in
        (walk_days zone start end parsed, rw f (rw e refl), order, exact)
  ]
