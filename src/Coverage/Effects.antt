-- ===== src/Coverage/Effects.antt =====
-- One compute of coverage_history.py: what it may do to the table, whichever calls raise.
use bifrost_platform_plugin.Prelude.{
  ℕ, ◌≡◌, refl, String, none, some, List, [], ◌∷◌, Bool, true, false, str_eq, Bool-cases, ◌⊎◌, inl,
  inr,
}
use bifrost_platform_plugin.Db.{and_then, execute}
use bifrost_platform_plugin.Verdicts.{Entry}
use bifrost_platform_plugin.Coverage.{
  Sample, History, latest_two, carry_forward, touch, insert_sample, Recorded, empty, caught, finish,
  record_again, record_latest, record_verdicts, report,
}

-- What one compute may do to the table, where `latest` is what it read.
pub data Effect (digest : List Entry → String) (now : ℕ) (h : History)
    : List Sample → History → Type 0 where
  unchanged : {latest : List Sample} → Effect digest now h latest h
  touched : {latest : List Sample} (id : ℕ) → Effect digest now h latest (touch now id h)
  first : (v : List Entry) → Effect digest now h [] (insert_sample now (digest v) v h)
  changed :
      {s : Sample} {rest : List Sample} (v : List Entry)
      → str_eq s.digest (digest v) ≡ false
      → Effect digest now h (s ∷ rest) (insert_sample now (digest v) v h)

-- A write that is followed by the count and the commit: all of it, or nothing.
write_finish :
    (f : History → History) (make : ℕ → Recorded) (old wrk : History) (faults late : List Bool)
    → let p = caught empty (
        and_then
          (λ _. finish make)
          (execute
            (λ h. (tt, f h))
            (record { committed = old; working = wrk; faults = faults; late = late }))) in
      (p.1.working ≡ p.1.committed) × ((p.1.committed ≡ old) ⊎ (p.1.committed ≡ f wrk))
write_finish f make old wrk [] late = (refl, inr refl)
write_finish f make old wrk (true ∷ fs) late = (refl, inl refl)
write_finish f make old wrk (false ∷ []) late = (refl, inr refl)
write_finish f make old wrk (false ∷ true ∷ fs) late = (refl, inl refl)
write_finish f make old wrk (false ∷ false ∷ []) late = (refl, inr refl)
write_finish f make old wrk (false ∷ false ∷ true ∷ fs) [] = (refl, inl refl)
write_finish f make old wrk (false ∷ false ∷ true ∷ fs) (false ∷ late) = (refl, inl refl)
write_finish f make old wrk (false ∷ false ∷ true ∷ fs) (true ∷ late) = (refl, inr refl)
write_finish f make old wrk (false ∷ false ∷ false ∷ fs) late = (refl, inr refl)

module _ (digest : List Entry → String) (now : ℕ) (unread : List String) where
  again :
      (m : List Entry) (s : Sample) (rest : List Sample) (h : History) (faults late : List Bool)
      → let p = caught empty (
          record_again digest now unread m s rest
            (record { committed = h; working = h; faults = faults; late = late })) in
        (p.1.working ≡ p.1.committed) × Effect digest now h (s ∷ rest) p.1.committed
  again m s [] h faults late =
      let (w, e) =
        write_finish (touch now s.id) (report digest now unread m none s.first_seen_at none) h h
          faults late in
      (w, elim e [ inl e ↦ rw e unchanged | inr e ↦ rw e (touched s.id) ])
  again m s (r ∷ rest) h faults late =
      let (w, e) =
        write_finish (touch now s.id)
          (report digest now unread m (some r.verdicts) s.first_seen_at (some r.first_seen_at)) h h
          faults late in
      (w, elim e [ inl e ↦ rw e unchanged | inr e ↦ rw e (touched s.id) ])

  latest-Effect :
      (v : List Entry) (latest : List Sample) (h : History) (faults late : List Bool)
      → let p = caught empty (
          record_latest digest now unread v latest
            (record { committed = h; working = h; faults = faults; late = late })) in
        (p.1.working ≡ p.1.committed) × Effect digest now h latest p.1.committed
  unfolding record_latest
  latest-Effect v [] h faults late =
      let m = carry_forward v [] unread in
      let (w, e) =
        write_finish (insert_sample now (digest m) m) (report digest now unread m none now none) h h
          faults late in
      (w, elim e [ inl e ↦ rw e unchanged | inr e ↦ rw e (first m) ])
  latest-Effect v (s ∷ rest) h faults late =
      let m = carry_forward v s.verdicts unread in
      elim (Bool-cases (str_eq s.digest (digest m))) [
        | inl t ↦ rw t (again m s rest h faults late)
        | inr f ↦
            let (w, e) =
              write_finish (insert_sample now (digest m) m)
                (report digest now unread m (some s.verdicts) now (some s.first_seen_at)) h h faults
                late in
            rw f (w, elim e [ inl e ↦ rw e unchanged | inr e ↦ rw e (changed m f) ])
      ]

  pub record-Effect :
      (v : List Entry) (h : History) (faults late : List Bool)
      → let p =
          record_verdicts digest now unread v
            (record { committed = h; working = h; faults = faults; late = late }) in
        (p.1.working ≡ p.1.committed) × Effect digest now h (latest_two h) p.1.committed
  unfolding record_verdicts
  record-Effect [] h faults late = (refl, unchanged)
  record-Effect (v ∷ vs) h [] late = latest-Effect (v ∷ vs) (latest_two h) h [] late
  record-Effect (v ∷ vs) h (true ∷ fs) late = (refl, unchanged)
  record-Effect (v ∷ vs) h (false ∷ fs) late = latest-Effect (v ∷ vs) (latest_two h) h fs late
