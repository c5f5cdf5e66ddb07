-- ===== src/Freshness/Tests.antt =====
-- The jobs of the option catalogue.
use bifrost_platform_plugin.Prelude.{◌≡◌, refl, String, Option, none, some, [], ◌∷◌, false}
use bifrost_platform_plugin.Prelude.Int.{ℤ, pos, negsuc}
use bifrost_platform_plugin.Json.{Json, bool, num, str, obj, Fields, end, field, get}
use bifrost_platform_plugin.Freshness.{
  dimension_for_kind, policed_slot_for_job, payload_from_shape, shape_of, rows_written_from_result,
  extra_freshness_from_result,
}
use bifrost_platform_plugin.Freshness.Shape.{is_plain, policed_slot_for_job-payload_from_shape}

abbrev print : Json → String
print v = "0"

abbrev live_catalogue : Fields
live_catalogue = field "underlying" (str "SPY") (field "expired" (bool false) end)

abbrev expired_quarter : Fields
expired_quarter = field "expired" (bool false) (field "expiration_date_lte" (str "2026-06-30") end)

grouped : dimension_for_kind " stock_daily_grouped" ≡ "stock_daily"
unfolding dimension_for_kind
grouped = refl

live : policed_slot_for_job "option_contract" live_catalogue ≡ some "option-refresh"
unfolding policed_slot_for_job
live = refl

quarter : policed_slot_for_job "option_contract" expired_quarter ≡ none
unfolding policed_slot_for_job
quarter = refl

policed_slot_for_job-payload_from_shape_example :
    policed_slot_for_job "option_contract" (
      payload_from_shape
        (shape_of print live_catalogue).0
        (shape_of print live_catalogue).1
        (shape_of print live_catalogue).2)
    ≡ policed_slot_for_job "option_contract" live_catalogue
unfolding get is_plain
policed_slot_for_job-payload_from_shape_example =
    policed_slot_for_job-payload_from_shape print "option_contract" live_catalogue refl

abbrev no_int : String → Option ℤ
no_int s = none

abbrev result : Fields
result = field "rows_written" (num (pos 7)) (
    field "freshness_extra"
      (obj (
        field " splits" (num (pos 3))
          (field "" (num (pos 9)) (field "splits" (num (negsuc 3)) end))))
      end)

extra : extra_freshness_from_result no_int (some result) ≡ ("splits", 0) ∷ []
unfolding extra_freshness_from_result
extra = refl

seven : rows_written_from_result no_int (some result) ≡ 7
unfolding rows_written_from_result
seven = refl
