-- ===== src/TrimFlight/Tests.antt =====
-- A table with the row of a holder that died, and the theorems at this input.
use bifrost_platform_plugin.Prelude.{ℕ, ◌≡◌, refl, Option, none, [], ◌∷◌, true, false}
use bifrost_platform_plugin.Json.{Json, Fields, str, num, obj, end, field}
use bifrost_platform_plugin.Prelude.Int.{pos}
use bifrost_platform_plugin.Db.{Db, Conn, Fault, calm, pure, throw, db_error}
use bifrost_platform_plugin.Queue.{Table, done}
use bifrost_platform_plugin.TrimFlight.{
  trim_row, retire_row, retire_stale_and_insert, result_row, flight,
}
use bifrost_platform_plugin.TrimFlight.Released.{
  opened, IsReleased, Began, flight-IsReleased, retire_stale_and_insert-Began,
}

abbrev trim_payload : Json
trim_payload = obj (field "slot" (str "trim") end)

abbrev left_over : Table
left_over = record { rows = trim_row 5 trim_payload "trim" 1 ∷ []; next_id = 2 }

abbrev deleted : Fields
deleted = field "deleted" (num (pos 3)) end

abbrev error_of : Fault → Fields
error_of e = field "error" (str "database error") end

abbrev nobody : Db Table (Option ℕ)
nobody = pure none

-- The row of the dead holder fails, and the new one runs.
begun :
    (retire_stale_and_insert 9 trim_payload "trim" (calm left_over)).1.committed.rows
    ≡ retire_row 9 (trim_row 5 trim_payload "trim" 1) ∷ trim_row 9 trim_payload "trim" 2 ∷ []
unfolding retire_stale_and_insert
begun = refl

-- The whole flight of a trim that deletes three rows.
flown :
    (flight 9 true trim_payload "trim"
      (pure deleted)
      nobody
      error_of
      true
      (opened (calm left_over))).conn.committed.rows
    ≡ retire_row 9 (trim_row 5 trim_payload "trim" 1)
      ∷ result_row 9 done deleted (trim_row 9 trim_payload "trim" 2)
      ∷ []
unfolding flight result_row trim_row retire_row
flown = refl

-- The third call of the driver raises: the INSERT.
abbrev broken : Conn Table
broken = record {
  committed = left_over;
  working = left_over;
  faults = false ∷ false ∷ true ∷ [];
  late = [];
}

flight-IsReleased_example :
    IsReleased
      (flight 9 true trim_payload "trim" (throw db_error) nobody error_of true (opened broken))
flight-IsReleased_example =
    flight-IsReleased 9 trim_payload "trim" nobody error_of true true (throw db_error)
      (opened broken)

retire_stale_and_insert-Began_example :
    Began left_over (retire_stale_and_insert 9 trim_payload "trim" (calm left_over))
retire_stale_and_insert-Began_example =
    retire_stale_and_insert-Began 9 trim_payload "trim" (calm left_over)
