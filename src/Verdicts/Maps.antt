-- ===== src/Verdicts/Maps.antt =====
-- The recorded unit: what `verdict_map` of verdicts.py keeps of a payload.
use bifrost_platform_plugin.Prelude.{
  ◌≡◌, refl, sym, ◌∙◌, String, Option, none, some, List, [], ◌∷◌, Bool, true, false, str_eq,
  if◌then◌else◌, eq_iff, Option-cases, Bool-cases, inl, inr,
}
use bifrost_platform_plugin.Verdicts.{
  DatasetRow, Entry, Verdicts, nothing, find, put, row_verdicts, record_row, record_rows,
  verdict_map,
}

eq_trans : (a b c : String) → str_eq a b ≡ true → str_eq c b ≡ true → str_eq c a ≡ true
eq_trans a b c h k = (eq_iff c a).1 ((eq_iff c b).0 k ∙ sym ((eq_iff a b).0 h))

-- `put` answers for its own key and leaves the other keys alone.
pub find-put :
    (name k : String) (v : Verdicts) (m : List Entry)
    → find name (put k v m) ≡ (if str_eq k name then v else find name m)
unfolding find put
find-put name k v [] = refl
find-put name k v (e ∷ m) = elim (Bool-cases (str_eq e.name k)) [
  | inl t ↦
      let same : e.name ≡ k = (eq_iff e.name k).0 t in
      elim (Bool-cases (str_eq k name)) [
        | inl s ↦ rw t (rw s (rw same (rw s refl)))
        | inr s ↦ rw t (rw s (rw same (rw s refl)))
      ]
  | inr f ↦ elim (Bool-cases (str_eq e.name name)) [
    | inl s ↦ elim (Bool-cases (str_eq k name)) [
      | inl q ↦ absurd (cc (eq_trans k name e.name q s, f))
      | inr q ↦ rw f (rw s (rw q refl))
    ]
    | inr s ↦ rw f (rw s (find-put name k v m))
  ]
]

abbrev pub named : String → DatasetRow → Bool
named name row = elim row.dataset [ none ↦ false | some n ↦ str_eq n name ]

-- The last row of a payload that carries a name, as a plain search from the end.
abbrev pub last_row : String → List DatasetRow → Option Verdicts
last_row name [] = none
last_row name (row ∷ rows) =
    let own : Option Verdicts = if named name row then some (row_verdicts row) else none in
    elim (last_row name rows) [ none ↦ own | some v ↦ some v ]

find-record_row :
    (name : String) (row : DatasetRow) (out : List Entry)
    → str_eq name "" ≡ false
    → find name (record_row row out) ≡ (if named name row then row_verdicts row else find name out)
unfolding record_row
find-record_row name row out h =
    elim row.dataset
      as (λ d.
        find name (elim d [
          | none ↦ out
          | some n ↦ if str_eq n "" then out else put n (row_verdicts row) out
        ])
        ≡ (if elim d [ none ↦ false | some n ↦ str_eq n name ]
            then row_verdicts row
            else find name out)) [
              | none ↦ refl
              | some n ↦ elim (Bool-cases (str_eq n "")) [
                | inl e ↦ elim (Bool-cases (str_eq n name)) [
                  | inl s ↦
                      absurd
                        (cc ((eq_iff name "").1 (sym ((eq_iff n name).0 s) ∙ (eq_iff n "").0 e), h))
                  | inr s ↦ rw e (rw s refl)
                ]
                | inr e ↦ rw e (find-put name n (row_verdicts row) out)
              ]
            ]

find-record_rows :
    (name : String) (rows : List DatasetRow) (out : List Entry)
    → str_eq name "" ≡ false
    → find name (record_rows rows out)
      ≡ elim (last_row name rows) [ none ↦ find name out | some v ↦ v ]
unfolding record_rows
find-record_rows name [] out h = refl
find-record_rows name (row ∷ rows) out h = elim (Option-cases (last_row name rows)) [
  | inl e ↦
      find-record_rows name rows (record_row row out) h
      ∙ rw e (find-record_row name row out h ∙ choose (named name row) out)
  | inr (v, e) ↦ find-record_rows name rows (record_row row out) h ∙ rw e refl
]
  where
    choose :
        (b : Bool) (out : List Entry)
        → (if b then row_verdicts row else find name out)
          ≡ elim (if b then some (row_verdicts row) else none) [ none ↦ find name out | some v ↦ v ]
    choose true out = refl
    choose false out = refl

-- What is recorded under a name is what the last row of the payload with that name says, be it
-- recorded with the row or judged from it, and nothing where no row has the name.
pub verdict_map-last :
    (name : String) (rows : List DatasetRow)
    → str_eq name "" ≡ false
    → find name (verdict_map rows) ≡ elim (last_row name rows) [ none ↦ nothing | some v ↦ v ]
unfolding verdict_map find
verdict_map-last name rows h = find-record_rows name rows [] h
