-- ===== src/Examples/Tariffs.antt =====
-- A facility with an assigned plan, and an operator with three plans (src/tariff/tariff.service.ts).
use saprk_parking_api.Prelude.{
  ℕ, ◌≤◌, ◌≡◌, refl, Bool, true, false, ◌&&◌, Option, nat_has_eq, none, some, [], ◌∷◌, arith, Text,
  text_eq, ◌==◌, count_if, get,
}
use saprk_parking_api.Store.{business}
use saprk_parking_api.Tariff.Engine.{
  charge_at, tier_at, window_at, covers, is_open, on_day, contains_minute, ceil_div,
}
use saprk_parking_api.Prelude.Int.{◌+ℤ◌, ◌-ℤ◌}
use saprk_parking_api.Tariff.Caps.{capped_by}
use saprk_parking_api.Tariff.Stay.{price_stay}
use saprk_parking_api.Tariff.Draft.{compile_plan, eur}
use saprk_parking_api.Tariff.Quote.{
  car, TariffPlan, PricedFacility, TariffDb, QuoteRequest, PriceQuote, quote, active, archived,
  can_be_default, serves_default, is_plan_applicable, commission_bps_for, booking_discount_bps_for,
  compute_quote, PinnedPriceResult, priced, price_with_pinned_plan, compute_totals_by_facility,
}
use saprk_parking_api.Tariff.Quote.Same.{price_with_pinned_plan-compute_quote}
use saprk_parking_api.Tariff.Quote.Agrees.{quoted_total, compute_totals_by_facility-compute_quote}
use saprk_parking_api.Tariff.Plans.{
  PlanRow, PlanTables, PlanDraft, unset_defaults, changed, serves, in_force, update_plan,
  delete_plan, create_plan,
}
use saprk_parking_api.Tariff.Plans.Defaults.{OneDefault, Indexed}
use saprk_parking_api.Tariff.Plans.Revisions.{update_plan-Indexed}
use saprk_parking_api.Tariff.Plans.Lifecycle.{
  not_moved, default_taken, restore_rows, LifecycleActor, LifecycleTables, recorded, plan_archived,
  audit_row, archive_tariff_plan, restore_tariff_plan,
}
use saprk_parking_api.Tariff.Plans.Lifecycle.Back.{
  IsRestored, restore_tariff_plan-archive_tariff_plan,
}
use saprk_parking_api.Tariff.Plans.Kept.{delete_plan-default}
use saprk_parking_api.Examples.Pricing.{utc, stored, draft, three_minutes}

abbrev plan_5 : TariffPlan
plan_5 = record {
  schedule = stored;
  operator_id = 5;
  is_active = true;
  is_default = true;
  lifecycle_status = active;
  valid_from = none;
  valid_to = none;
  vehicle_types = [];
}

abbrev park : PricedFacility
park = record {
  id = 1;
  operator_id = some 5;
  is_active = true;
  is_published = true;
  kind = business;
  lifecycle_status = active;
  vehicle_types = car ∷ [];
}

abbrev town : TariffDb
town = record { facilities = park ∷ []; plans = plan_5 ∷ []; assignments = [] }

abbrev asked : QuoteRequest
asked = record {
  facility_id = 1;
  starts_at = 0;
  ends_at = 180_000;
  vehicle_type = car;
  user_id = some 9;
}

abbrev anonymous : QuoteRequest
anonymous = record asked { user_id = none }

abbrev share : ℕ → Option ℕ
share k = some 500

abbrev perk : ℕ → Option ℕ
perk k = some 1_000

abbrev given_quote : PriceQuote
given_quote = record {
  facility_id = 1;
  starts_at = 0;
  ends_at = 180_000;
  duration_minutes = 3;
  vehicle_type = car;
  line_items = three_minutes.line_items;
  total_cents = three_minutes.total_cents;
  discount_cents = three_minutes.discount_cents;
  currency = eur;
  expires_at = 600_007;
  plan_id = stored.id;
  plan_version = stored.version;
}

quote-given : compute_quote utc share perk asked 7 town ≡ quote given_quote
unfolding compute_quote price_stay compile_plan charge_at tier_at window_at covers is_open on_day
    contains_minute is_plan_applicable capped_by ◌+ℤ◌ ◌-ℤ◌ commission_bps_for
    booking_discount_bps_for ceil_div
quote-given = refl

one_plan :
    (k : Text) (version : ℕ)
    → count_if
        (λ (x : TariffPlan). text_eq x.schedule.id k && x.schedule.version == version)
        (plan_5 ∷ [])
      ≤ 1
one_plan k version = ground arith

price_with_pinned_plan-compute_quote_example :
    (p : PinnedPriceResult utc share perk) × (price_with_pinned_plan utc share perk
        given_quote.plan_id given_quote.plan_version 0 180_000
        (some 9)
        town
      ≡ priced p)
    × (p.total_cents ≡ given_quote.total_cents)
    × (p.discount_cents ≡ given_quote.discount_cents)
    × (p.currency ≡ given_quote.currency)
price_with_pinned_plan-compute_quote_example =
    price_with_pinned_plan-compute_quote utc share perk asked 7 town given_quote one_plan
      (λ k. (500, refl)) quote-given

one_default :
    (k : ℕ)
    → count_if (λ (p : TariffPlan). serves_default p && p.operator_id == k) (plan_5 ∷ []) ≤ 1
one_default k = ground arith

compute_totals_by_facility-compute_quote_example :
    get 1 (compute_totals_by_facility utc (1 ∷ []) 0 180_000 car town)
    ≡ quoted_total (compute_quote utc share perk anonymous 7 town)
compute_totals_by_facility-compute_quote_example =
    compute_totals_by_facility-compute_quote utc share perk anonymous 7 (1 ∷ []) town park refl refl
      refl refl (omega arith) one_default (λ k. (500, refl))

abbrev row_of : ℕ → Bool → PlanRow
row_of k is_default = record {
  id = k;
  operator_id = 5;
  is_active = true;
  is_default = is_default;
  lifecycle_status = active;
  vehicle_types = [];
  version = 1;
  schedule = draft;
}

abbrev three_plans : PlanTables
three_plans = record {
  plans = row_of 1 true ∷ row_of 2 false ∷ row_of 3 false ∷ [];
  assignments = [];
}

three-OneDefault : OneDefault three_plans.plans
three-OneDefault k = ground arith

three-ids : (j : ℕ) → count_if (λ (x : PlanRow). x.id == j) three_plans.plans ≤ 1
three-ids j = ground arith

three-within : (n : ℕ) → some 3 ≡ some n → count_if (in_force 5) three_plans.plans ≤ n
three-within n h = ground arith

abbrev off : PlanDraft
off = record { is_active = false; is_default = false; vehicle_types = []; schedule = draft }

update_plan-Indexed_example : Indexed (update_plan (some 9) 1 off (λ k. true) (some 2) three_plans)
update_plan-Indexed_example =
    update_plan-Indexed (some 9) 1 off (λ k. true) (some 2) three_plans three-OneDefault three-ids

abbrev after_delete : PlanTables
after_delete = record {
  plans =
      record (row_of 1 false) { lifecycle_status = archived } ∷ row_of 2 true ∷ row_of 3 false ∷ [];
  assignments = [];
}

deleted : delete_plan 1 (λ k. true) (some 2) three_plans ≡ changed after_delete
unfolding delete_plan can_be_default
deleted = refl

delete_plan-default_example : count_if (serves 5) after_delete.plans ≡ 1
delete_plan-default_example =
    delete_plan-default (row_of 1 true) 2 three_plans refl three-OneDefault refl refl refl
      (λ k. true) after_delete refl deleted

-- A plan that names itself as the new default passes the guard, and leaves the operator none.
abbrev left_without : PlanTables
left_without = record {
  plans =
      record (row_of 1 true) { lifecycle_status = archived } ∷ row_of 2 false ∷ row_of 3 false ∷ [];
  assignments = [];
}

deleted-itself : delete_plan 1 (λ k. true) (some 1) three_plans ≡ changed left_without
unfolding delete_plan can_be_default
deleted-itself = refl

left_without-serves : count_if (serves 5) left_without.plans ≡ 0
left_without-serves = refl

-- A plan that is created as a default and not active takes the flag from the active one.
abbrev idle_default : PlanDraft
idle_default = record { is_active = false; is_default = true; vehicle_types = []; schedule = draft }

abbrev after_create : PlanTables
after_create = record {
  plans =
      record (row_of 4 true) { is_active = false }
      ∷ row_of 1 false
      ∷ row_of 2 false
      ∷ row_of 3 false
      ∷ [];
  assignments = [];
}

created-idle : create_plan none 4 5 idle_default three_plans ≡ changed after_create
unfolding create_plan can_be_default unset_defaults
created-idle = refl

after_create-serves : count_if (serves 5) after_create.plans ≡ 0
after_create-serves = refl

abbrev before_archive : LifecycleTables
before_archive = record { tables = three_plans; writes = []; audit = [] }

abbrev keeper : LifecycleActor
keeper = record { id = 2; role = 1 }

restore_tariff_plan-archive_tariff_plan_example :
    (t left : LifecycleTables) × (archive_tariff_plan keeper 100 (some 8) 1 before_archive
      ≡ recorded t)
    × (restore_tariff_plan (some 3) keeper 200 none 1 t ≡ recorded left)
    × IsRestored before_archive 1 keeper 200 none
        (audit_row keeper plan_archived 1 (some 8) none)
        left
restore_tariff_plan-archive_tariff_plan_example =
    restore_tariff_plan-archive_tariff_plan (some 3) 1 (row_of 1 true) before_archive refl refl
      three-OneDefault three-within keeper keeper 100 200 (some 8) none

-- Once another plan is made the default, the archived one is not restored.
not_restored :
    restore_rows none 1 (record {
      plans = record (row_of 1 true) { lifecycle_status = archived } ∷ row_of 2 true ∷ [];
      assignments = [];
    })
    ≡ not_moved (default_taken 2)
unfolding restore_rows
not_restored = refl
