-- ===== src/Examples/Archives.antt =====
-- An operator and its facility (src/lifecycle/lifecycle.service.ts).
use saprk_parking_api.Prelude.{ℕ, ◌≡◌, refl, false, Option, none, some, [], ◌∷◌, arith}
use saprk_parking_api.Tariff.Quote.{LifecycleStatus, active, archived}
use saprk_parking_api.Archive.{
  FacilityRow, OperatorRow, Resources, transitioned, rejected, has_active_facilities, after,
  archive_facility, archive_operator, restore_facility,
}
use saprk_parking_api.Archive.Owned.{
  NoOrphans, finished, more, facility_archived, operator_archived, Steps-NoOrphans,
}

abbrev place : LifecycleStatus → FacilityRow
place s = record { id = 1; operator_id = some 5; is_active = false; lifecycle_status = s }

abbrev company : LifecycleStatus → OperatorRow
company s = record { id = 5; lifecycle_status = s }

abbrev city : LifecycleStatus → LifecycleStatus → Resources
city s t = record {
  facilities = place s ∷ [];
  operators = company t ∷ [];
  users = [];
  bookings = [];
}

abbrev no_limit : ℕ → Option ℕ
no_limit k = none

city-NoOrphans : NoOrphans (city active active)
city-NoOrphans k o row closed = ground arith

abbrev closed_place : Resources
closed_place = after (archive_facility 1 100 (city active active)) (city active active)

abbrev closed_company : Resources
closed_company = after (archive_operator 5 closed_place) closed_place

Steps-NoOrphans_example : NoOrphans closed_company
Steps-NoOrphans_example =
    Steps-NoOrphans no_limit
      (more (facility_archived 1 100 (city active active))
        (more (operator_archived 5 closed_place) (finished closed_company)))
      city-NoOrphans

both_closed : closed_company ≡ city archived archived
unfolding archive_facility archive_operator
both_closed = refl

-- An operator with a live facility stays.
not_closed : archive_operator 5 (city active active) ≡ rejected (has_active_facilities 1)
unfolding archive_operator
not_closed = refl

-- The facility of an archived operator can be restored.
orphaned :
    restore_facility no_limit 1 (city archived archived) ≡ transitioned (city active archived)
unfolding restore_facility
orphaned = refl
