-- ===== src/Tariff/Quote.antt =====
-- Quotes (`computeQuote`, `priceWithPinnedPlan`, `computeTotalsByFacility`, `facilitiesWithApplicablePlan`
-- and `isPlanApplicable` of src/tariff/tariff.service.ts). A query for the rows of a facility or of a
-- plan sees the active ones, unless it says so (src/prisma/lifecycle.extension.ts); the rows that it
-- includes are not filtered. What the subscriptions of an operator and of a rider say is given by
-- `commission_of` and `booking_discount_of`, where none stands for an error of that lookup.
pub mod Same
pub mod Agrees
pub mod Simulated
use saprk_parking_api.Prelude.{
  ℕ, ◌+◌, ◌-◌, ◌*◌, Bool, true, false, ◌&&◌, ◌||◌, not, Option, none, some, List, [], ◌∷◌, Text,
  text_eq, ltb, leb, ◌==◌, if◌then◌else◌, find_first, keep_if, get, put, nat_has_eq,
}
use saprk_parking_api.Store.{FacilityKind, business}
use saprk_parking_api.Booking.Access.{includes}
use saprk_parking_api.Tariff.Types.{
  CompiledPlan, QuoteLineItem, PriceResult, PriceError, Priced, err, ok,
}
use saprk_parking_api.Tariff.Engine.{Clock, ceil_div}
use saprk_parking_api.Tariff.Stay.{price_stay}
use saprk_parking_api.Tariff.Draft.{PlanWithSchedule, compile_plan}

pub data VehicleType : Type 0 where
  car motorcycle van truck : VehicleType

pub data LifecycleStatus : Type 0 where
  active archived tombstoned purged : LifecycleStatus

-- A row of the plans with its schedule.
pub record TariffPlan : Type 0 where
  pub schedule : PlanWithSchedule
  pub operator_id : ℕ
  pub is_active : Bool
  pub is_default : Bool
  pub lifecycle_status : LifecycleStatus
  pub valid_from : Option ℕ
  pub valid_to : Option ℕ
  pub vehicle_types : List VehicleType

pub record PricedFacility : Type 0 where
  pub id : ℕ
  pub operator_id : Option ℕ
  pub is_active : Bool
  pub is_published : Bool
  pub kind : FacilityKind
  pub lifecycle_status : LifecycleStatus
  pub vehicle_types : List VehicleType

pub record TariffAssignment : Type 0 where
  pub facility_id : ℕ
  pub vehicle_type : VehicleType
  pub plan_id : Text

pub record TariffDb : Type 0 where
  pub facilities : List PricedFacility
  pub plans : List TariffPlan
  pub assignments : List TariffAssignment

pub record QuoteRequest : Type 0 where
  pub facility_id : ℕ
  pub starts_at : ℕ
  pub ends_at : ℕ
  pub vehicle_type : VehicleType
  pub user_id : Option ℕ

pub record PriceQuote : Type 0 where
  pub facility_id : ℕ
  pub starts_at : ℕ
  pub ends_at : ℕ
  pub duration_minutes : ℕ
  pub vehicle_type : VehicleType
  pub line_items : List QuoteLineItem
  pub total_cents : ℕ
  pub discount_cents : ℕ
  pub currency : Text
  pub expires_at : ℕ
  pub plan_id : Text
  pub plan_version : ℕ

pub data QuoteError : Type 0 where
  ends_before_start facility_not_found no_tariff no_entitlements : QuoteError
  not_priced : PriceError → QuoteError

pub data Quoted : Type 0 where
  quote : PriceQuote → Quoted
  refused : QuoteError → Quoted

abbrev pub quote_ttl_minutes : ℕ
quote_ttl_minutes = 10

abbrev pub vehicle_code : VehicleType → ℕ
vehicle_code car = 0
vehicle_code motorcycle = 1
vehicle_code van = 2
vehicle_code truck = 3

abbrev pub same_vehicle : VehicleType → VehicleType → Bool
same_vehicle a b = vehicle_code a == vehicle_code b

-- `vehicleTypes.includes(vehicleType)`
abbrev pub includes_vehicle : List VehicleType → VehicleType → Bool
includes_vehicle [] v = false
includes_vehicle (t ∷ types) v = same_vehicle t v || includes_vehicle types v

abbrev pub is_live : LifecycleStatus → Bool
is_live active = true
is_live _ = false

abbrev pub is_business : FacilityKind → Bool
is_business business = true
is_business _ = false

abbrev pub begins_after : Option ℕ → ℕ → Bool
begins_after none at = false
begins_after (some from) at = ltb at from

abbrev pub ends_before : Option ℕ → ℕ → Bool
ends_before none at = false
ends_before (some to) at = ltb to at

abbrev pub is_empty : List VehicleType → Bool
is_empty [] = true
is_empty (t ∷ types) = false

unfoldable pub is_plan_applicable : TariffPlan → ℕ → VehicleType → Bool
is_plan_applicable plan at vehicle =
    (is_live plan.lifecycle_status && plan.is_active)
    && ((not (begins_after plan.valid_from at) && not (ends_before plan.valid_to at))
        && (is_empty plan.vehicle_types || includes_vehicle plan.vehicle_types vehicle))

unfoldable pub can_be_default : List VehicleType → Bool
can_be_default types = is_empty types

-- Whether there is a reason, of which there is one.
unfoldable pub is_assignment_mismatch : List VehicleType → VehicleType → Bool
is_assignment_mismatch types slot = not (is_empty types) && not (includes_vehicle types slot)

abbrev pub plan_row : Text → List TariffPlan → Option TariffPlan
plan_row k plans = find_first (λ (p : TariffPlan). text_eq p.schedule.id k) plans

-- `tariffAssignments: { where: { vehicleType } }`, its first row, and the plan that it includes.
abbrev pub assigned_plan : ℕ → VehicleType → TariffDb → Option TariffPlan
assigned_plan k vehicle db =
    elim (find_first
      (λ (a : TariffAssignment). a.facility_id == k && same_vehicle a.vehicle_type vehicle)
      db.assignments) [ none ↦ none | some a ↦ plan_row a.plan_id db.plans ]

-- An active default plan that the lifecycle filter shows.
abbrev pub serves_default : TariffPlan → Bool
serves_default p = p.is_default && (p.is_active && is_live p.lifecycle_status)

abbrev pub default_plan : Option ℕ → TariffDb → Option TariffPlan
default_plan none db = none
default_plan (some k) db =
    find_first (λ (p : TariffPlan). serves_default p && p.operator_id == k) db.plans

abbrev pub or_plan : Option TariffPlan → Option TariffPlan → Option TariffPlan
or_plan none o = o
or_plan (some p) o = some p

abbrev pub applicable : ℕ → VehicleType → Option TariffPlan → Option TariffPlan
applicable at vehicle none = none
applicable at vehicle (some p) = if is_plan_applicable p at vehicle then some p else none

abbrev pub is_quotable : ℕ → PricedFacility → Bool
is_quotable k f =
    f.id == k
    && ((f.is_active && f.is_published) && (is_business f.kind && is_live f.lifecycle_status))

module _ (clock : Clock) (commission_of : ℕ → Option ℕ) (booking_discount_of : ℕ → Option ℕ) where
  unfoldable pub commission_bps_for : Option ℕ → Option ℕ
  commission_bps_for none = some 0
  commission_bps_for (some k) = commission_of k

  abbrev pub some_bps : Option ℕ → Option (Option ℕ)
  some_bps none = none
  some_bps (some bps) = some (some bps)

  unfoldable pub booking_discount_bps_for : Option ℕ → Option (Option ℕ)
  booking_discount_bps_for none = some none
  booking_discount_bps_for (some user) = some_bps (booking_discount_of user)

  abbrev pub quote_of : QuoteRequest → ℕ → CompiledPlan → Priced PriceResult → Quoted
  quote_of r now compiled (err e) = refused (not_priced e)
  quote_of r now compiled (ok result) = quote (record {
    facility_id = r.facility_id;
    starts_at = r.starts_at;
    ends_at = r.ends_at;
    duration_minutes = ceil_div (r.ends_at - r.starts_at) 60_000;
    vehicle_type = r.vehicle_type;
    line_items = result.line_items;
    total_cents = result.total_cents;
    discount_cents = result.discount_cents;
    currency = compiled.currency;
    expires_at = now + quote_ttl_minutes * 60_000;
    plan_id = compiled.id;
    plan_version = compiled.version;
  })

  abbrev pub quote_with : QuoteRequest → ℕ → CompiledPlan → Option ℕ → Option (Option ℕ) → Quoted
  quote_with r now compiled none discount = refused no_entitlements
  quote_with r now compiled (some commission) none = refused no_entitlements
  quote_with r now compiled (some commission) (some discount) =
      quote_of r now compiled (price_stay clock r.starts_at r.ends_at compiled commission discount)

  abbrev pub quote_plan : QuoteRequest → ℕ → Option ℕ → Option TariffPlan → Quoted
  quote_plan r now operator_id none = refused no_tariff
  quote_plan r now operator_id (some p) =
      quote_with r now (compile_plan p.schedule) (commission_bps_for operator_id)
        (booking_discount_bps_for r.user_id)

  -- The plan that a quote for a facility is priced by.
  abbrev pub resolved_plan : PricedFacility → ℕ → VehicleType → TariffDb → Option TariffPlan
  resolved_plan f at vehicle db =
      applicable at vehicle
        (or_plan (assigned_plan f.id vehicle db) (default_plan f.operator_id db))

  abbrev pub quote_facility : QuoteRequest → ℕ → TariffDb → Option PricedFacility → Quoted
  quote_facility r now db none = refused facility_not_found
  quote_facility r now db (some f) =
      quote_plan r now f.operator_id (resolved_plan f r.starts_at r.vehicle_type db)

  unfoldable pub compute_quote : QuoteRequest → ℕ → TariffDb → Quoted
  unfolding is_plan_applicable price_stay compile_plan commission_bps_for booking_discount_bps_for
      ceil_div
  compute_quote r now db =
      if leb r.ends_at r.starts_at
      then refused ends_before_start
      else quote_facility r now db (find_first (is_quotable r.facility_id) db.facilities)

  pub record PinnedPriceResult : Type 0 where
    pub total_cents : ℕ
    pub discount_cents : ℕ
    pub currency : Text
    pub billable_minutes : ℕ
    pub commission_cents : ℕ

  pub data Pinned : Type 0 where
    stale_pin : Pinned
    priced : PinnedPriceResult → Pinned
    pin_refused : QuoteError → Pinned

  abbrev pub pinned_of : CompiledPlan → Priced PriceResult → Pinned
  pinned_of compiled (err e) = pin_refused (not_priced e)
  pinned_of compiled (ok result) = priced (record {
    total_cents = result.total_cents;
    discount_cents = result.discount_cents;
    currency = compiled.currency;
    billable_minutes = result.billable_minutes;
    commission_cents = result.commission_cents;
  })

  abbrev pub pinned_with : ℕ → ℕ → CompiledPlan → Option ℕ → Option (Option ℕ) → Pinned
  pinned_with starts_at ends_at compiled none discount = pin_refused no_entitlements
  pinned_with starts_at ends_at compiled (some commission) none = pin_refused no_entitlements
  pinned_with starts_at ends_at compiled (some commission) (some discount) =
      pinned_of compiled (price_stay clock starts_at ends_at compiled commission discount)

  -- `findFirst({ where: { id, version, lifecycleStatus: any } })`
  abbrev pub pinned_row : Text → ℕ → List TariffPlan → Option TariffPlan
  pinned_row k version plans =
      find_first (λ (p : TariffPlan). text_eq p.schedule.id k && p.schedule.version == version)
        plans

  abbrev pub price_pinned : ℕ → ℕ → Option ℕ → Option TariffPlan → Pinned
  price_pinned starts_at ends_at user_id none = stale_pin
  price_pinned starts_at ends_at user_id (some p) =
      pinned_with starts_at ends_at (compile_plan p.schedule)
        (commission_bps_for (some p.operator_id)) (booking_discount_bps_for user_id)

  unfoldable pub price_with_pinned_plan : Text → ℕ → ℕ → ℕ → Option ℕ → TariffDb → Pinned
  unfolding price_stay compile_plan commission_bps_for booking_discount_bps_for
  price_with_pinned_plan plan_id version starts_at ends_at user_id db =
      if leb ends_at starts_at
      then pin_refused ends_before_start
      else price_pinned starts_at ends_at user_id (pinned_row plan_id version db.plans)

-- `new Map(rows.map((r) => [key, value]))`, and a row without a value sets nothing.
module _ {ℓ κ} {A : Type ℓ} {V : Type κ} (key : A → ℕ) (value : A → Option V) where
  abbrev pub put_some : ℕ → Option V → List (ℕ × V) → List (ℕ × V)
  put_some k none m = m
  put_some k (some v) m = put k v m

  unfoldable pub map_from : List (ℕ × V) → List A → List (ℕ × V)
  map_from m [] = m
  map_from m (r ∷ rows) = map_from (put_some (key r) (value r) m) rows

-- The operators of facilities, without those that have none.
abbrev pub operators_of : List PricedFacility → List ℕ
operators_of [] = []
operators_of (f ∷ fs) = elim f.operator_id [ none ↦ operators_of fs | some k ↦ k ∷ operators_of fs ]

-- The defaults of the operators of some facilities, by operator.
unfoldable pub defaults_by_operator : List PricedFacility → TariffDb → List (ℕ × TariffPlan)
unfolding map_from
defaults_by_operator facilities db =
    map_from (λ p. p.operator_id) some []
      (keep_if (λ p. serves_default p && includes (operators_of facilities) p.operator_id) db.plans)

abbrev pub default_in : Option ℕ → List (ℕ × TariffPlan) → Option TariffPlan
default_in none defaults = none
default_in (some k) defaults = get k defaults

abbrev pub total_of : Priced PriceResult → Option ℕ
total_of (err e) = none
total_of (ok r) = some r.total_cents

module _ (clock : Clock) where
  abbrev pub schedule_total : ℕ → ℕ → Option TariffPlan → Option ℕ
  schedule_total starts_at ends_at none = none
  schedule_total starts_at ends_at (some p) =
      total_of (price_stay clock starts_at ends_at (compile_plan p.schedule) 0 none)

  -- What one facility adds to the totals.
  abbrev pub map_total :
      ℕ → ℕ → VehicleType → TariffDb → List (ℕ × TariffPlan) → PricedFacility → Option ℕ
  map_total starts_at ends_at vehicle db defaults f = schedule_total starts_at ends_at (
      applicable starts_at vehicle
        (or_plan (assigned_plan f.id vehicle db) (default_in f.operator_id defaults)))

  abbrev pub on_map : List ℕ → PricedFacility → Bool
  on_map ids f = includes ids f.id && (is_business f.kind && is_live f.lifecycle_status)

  -- The loop over the facilities that the query returns.
  abbrev pub totals_of : List PricedFacility → ℕ → ℕ → VehicleType → TariffDb → List (ℕ × ℕ)
  totals_of facilities starts_at ends_at vehicle db =
      map_from (λ f. f.id)
        (map_total starts_at ends_at vehicle db (defaults_by_operator facilities db)) [] facilities

  unfoldable pub compute_totals_by_facility : List ℕ → ℕ → ℕ → VehicleType → TariffDb → List (ℕ × ℕ)
  unfolding map_from defaults_by_operator price_stay compile_plan is_plan_applicable
  compute_totals_by_facility ids starts_at ends_at vehicle db =
      if leb ends_at starts_at
      then []
      else totals_of (keep_if (on_map ids) db.facilities) starts_at ends_at vehicle db

abbrev pub some_vehicle : (VehicleType → Bool) → List VehicleType → Bool
some_vehicle test [] = false
some_vehicle test (v ∷ types) = test v || some_vehicle test types

abbrev pub is_some_applicable : ℕ → VehicleType → Option TariffPlan → Bool
is_some_applicable at vehicle none = false
is_some_applicable at vehicle (some p) = is_plan_applicable p at vehicle

abbrev pub is_covered : ℕ → TariffDb → List (ℕ × TariffPlan) → PricedFacility → Bool
is_covered at db defaults f =
    some_vehicle
      (λ v.
        is_some_applicable at v
          (or_plan (assigned_plan f.id v db) (default_in f.operator_id defaults)))
      f.vehicle_types

abbrev pub ids_of : List PricedFacility → List ℕ
ids_of [] = []
ids_of (f ∷ fs) = f.id ∷ ids_of fs

abbrev pub shown : List ℕ → PricedFacility → Bool
shown ids f = includes ids f.id && is_live f.lifecycle_status

unfoldable pub facilities_with_applicable_plan : List ℕ → ℕ → TariffDb → List ℕ
unfolding defaults_by_operator is_plan_applicable
facilities_with_applicable_plan ids at db = ids_of (
    keep_if (is_covered at db (defaults_by_operator (keep_if (shown ids) db.facilities) db))
      (keep_if (shown ids) db.facilities))
