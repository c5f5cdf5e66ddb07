-- ===== src/Coverage/Tests.antt =====
-- Three computes, of which the second repeats the first and the third finds a change.
use bifrost_platform_plugin.Prelude.{
  ℕ, ◌≡◌, refl, String, Option, none, some, List, [], ◌∷◌, Bool, true, false, map,
}
use bifrost_platform_plugin.Verdicts.{Verdict, ok, thin, Axis, Entry}
use bifrost_platform_plugin.Coverage.{Sample, History, record_latest}
use bifrost_platform_plugin.Coverage.Runs.{IsSound, Compute, run_computes, run_computes-IsSound}

abbrev verdict_of : Entry → Option Verdict
verdict_of e = e.verdicts Axis.depth

abbrev digest : List Entry → String
digest [] = "none"
digest (e ∷ m) = elim (verdict_of e) [
  | none ↦ "missing"
  | some v ↦ elim v [ ok ↦ "ok" | _ ↦ "bad" ]
]

abbrev good : List Entry
good = record { name = "stock_daily"; verdicts = λ axis. some ok } ∷ []

abbrev bad : List Entry
bad = record { name = "stock_daily"; verdicts = λ axis. some thin } ∷ []

abbrev compute_of : List Entry → List String → List Bool → Compute
compute_of v unread faults = record {
  after = 60;
  verdicts = v;
  unread = unread;
  faults = faults;
  late = [];
}

abbrev computes : List Compute
computes = compute_of good [] [] ∷ compute_of good [] [] ∷ compute_of bad [] [] ∷ []

abbrev no_history : History
no_history = record { samples = []; next_id = 1 }

no_history-IsSound : IsSound 0 no_history
no_history-IsSound = record { ordered = tt; seen = λ s m. elim m [ ]; alternates = tt }

two_rows :
    map (λ s. s.digest) (run_computes digest 0 computes no_history).1.samples ≡ "bad" ∷ "ok" ∷ []
unfolding run_computes record_latest
two_rows = refl

-- A dataset that could not be read keeps its verdict, and the third compute adds no row.
carried :
    map
      (λ s. s.digest)
      (run_computes digest 0
        (compute_of good [] [] ∷ compute_of bad ("stock_daily" ∷ []) [] ∷ [])
        no_history).1.samples
    ≡ "ok" ∷ []
unfolding run_computes record_latest
carried = refl

-- A commit that raises leaves no row.
not_recorded :
    (run_computes digest 0
      (compute_of good [] (false ∷ false ∷ false ∷ true ∷ []) ∷ [])
      no_history).1.samples
    ≡ []
unfolding run_computes record_latest
not_recorded = refl

run_computes-IsSound_example :
    IsSound
      (run_computes digest 0 computes no_history).0
      (run_computes digest 0 computes no_history).1
run_computes-IsSound_example = run_computes-IsSound digest 0 computes no_history no_history-IsSound

abbrev old_sample : ℕ → Sample
old_sample n = record {
  id = n;
  first_seen_at = n;
  last_seen_at = n;
  digest = "ok";
  verdicts = good;
}

abbrev old_history : History
old_history = record { samples = old_sample 2 ∷ old_sample 1 ∷ []; next_id = 3 }
