-- ===== src/Subscription/Entitlements.antt =====
-- What an operator's subscription entitles it to (src/subscriptions/entitlement.service.ts,
-- src/subscriptions/entitlements.schema.ts, src/subscriptions/subscriptions.constants.ts). What a row
-- stores as JSON is a record here, and the schema is the test of its bounds. Features are numbered in
-- the order of their names.
pub mod Bounded
use saprk_parking_api.Prelude.{
  ℕ, ◌+◌, ◌-◌, Bool, true, false, ◌&&◌, ◌||◌, not, Option, none, some, List, [], ◌∷◌, ◌++◌, ltb,
  leb, ◌==◌, if◌then◌else◌, find_first, keep_if, count_if, sort_by,
}
use saprk_parking_api.Booking.Access.{includes}
use saprk_parking_api.Store.Table.{find_row}
use saprk_parking_api.Tariff.Quote.{LifecycleStatus, is_live as is_lifecycle_active}
use saprk_parking_api.Subscription.{SubscriptionStatus, is_live}

pub record Entitlements : Type 0 where
  pub max_facilities : Option ℕ
  pub max_tariff_plans : Option ℕ
  pub max_staff_seats : Option ℕ
  pub features : List ℕ
  pub commission_bps : ℕ

-- The keys that an override sets; a limit that is set may be no limit.
pub record EntitlementOverride : Type 0 where
  pub max_facilities : Option (Option ℕ)
  pub max_tariff_plans : Option (Option ℕ)
  pub max_staff_seats : Option (Option ℕ)
  pub features : Option (List ℕ)
  pub commission_bps : Option ℕ

pub record SubscriptionPlan : Type 0 where
  pub id : ℕ
  pub is_starter : Bool
  pub is_active : Bool
  pub entitlements : Entitlements

pub record OperatorSubscription : Type 0 where
  pub id : ℕ
  pub operator_id : ℕ
  pub plan_id : ℕ
  pub status : SubscriptionStatus
  pub entitlement_override : Option EntitlementOverride

pub record OperatorInvite : Type 0 where
  pub operator_id : ℕ
  pub is_member : Bool
  pub is_pending : Bool
  pub expires_at : ℕ

-- Of the facilities and of the tariff plans, the columns that are counted by.
pub record OwnedFacility : Type 0 where
  pub operator_id : Option ℕ
  pub lifecycle_status : LifecycleStatus

pub record OwnedTariffPlan : Type 0 where
  pub operator_id : ℕ
  pub is_active : Bool
  pub lifecycle_status : LifecycleStatus

-- `memberships` are the operators of the memberships, the only column that is counted by.
pub record OperatorTables : Type 0 where
  pub plans : List SubscriptionPlan
  pub subscriptions : List OperatorSubscription
  pub facilities : List OwnedFacility
  pub tariff_plans : List OwnedTariffPlan
  pub memberships : List ℕ
  pub invites : List OperatorInvite

pub data EntitlementSource : Type 0 where
  exempt by_default by_subscription by_override : EntitlementSource

pub record EffectiveEntitlements : Type 0 where
  pub operator_id : ℕ
  pub entitlements : Entitlements
  pub source : EntitlementSource
  pub subscription_id : Option ℕ
  pub status : Option SubscriptionStatus

pub record EntitlementViolation : Type 0 where
  pub resource : ℕ
  pub limit : ℕ
  pub current : ℕ
  pub remove : ℕ

pub data EntitlementError : Type 0 where
  default_plan_missing not_parsed row_missing : EntitlementError
  limit_exceeded : ℕ → ℕ → EntitlementError
  downgrade_blocked : List EntitlementViolation → EntitlementError

pub data Answer {ℓ} (A : Type ℓ) : Type ℓ where
  given : A → Answer A
  refused : EntitlementError → Answer A

infixl 5 ◌>>=◌
abbrev pub ◌>>=◌ {ℓ κ} : {A : Type ℓ} {B : Type κ} → Answer A → (A → Answer B) → Answer B
(given a) >>= f = f a
(refused e) >>= f = refused e

abbrev pub limit_ok : Option ℕ → Bool
limit_ok none = true
limit_ok (some n) = leb n 1_000_000

unfoldable pub entitlements_schema : Entitlements → Bool
entitlements_schema e =
    (limit_ok e.max_facilities && (limit_ok e.max_tariff_plans && limit_ok e.max_staff_seats))
    && leb e.commission_bps 10_000

abbrev pub parse : Entitlements → Answer Entitlements
parse e = if entitlements_schema e then given e else refused not_parsed

abbrev pub set_or_not {ℓ} : {A : Type ℓ} → (A → Bool) → Option A → Bool
set_or_not test none = true
set_or_not test (some a) = test a

-- The schema with every key optional.
unfoldable pub override_schema : EntitlementOverride → Bool
override_schema o =
    (set_or_not limit_ok o.max_facilities
      && (set_or_not limit_ok o.max_tariff_plans && set_or_not limit_ok o.max_staff_seats))
    && set_or_not (λ bps. leb bps 10_000) o.commission_bps

-- `[...new Set(features)]`: each at its first place.
abbrev pub unique_from : List ℕ → List ℕ → List ℕ
unique_from seen [] = []
unique_from seen (f ∷ fs) =
    if includes seen f then unique_from seen fs else f ∷ unique_from (f ∷ seen) fs

unfoldable pub normalize_entitlements : Entitlements → Entitlements
unfolding sort_by
normalize_entitlements e = record e {
  features = sort_by (λ (f : ℕ). f) (unique_from [] e.features);
}

abbrev pub over {ℓ} : {A : Type ℓ} → Option A → A → A
over none a = a
over (some b) a = b

abbrev pub overridden : Entitlements → EntitlementOverride → Entitlements
overridden base o = record {
  max_facilities = over o.max_facilities base.max_facilities;
  max_tariff_plans = over o.max_tariff_plans base.max_tariff_plans;
  max_staff_seats = over o.max_staff_seats base.max_staff_seats;
  features = over o.features base.features;
  commission_bps = over o.commission_bps base.commission_bps;
}

unfoldable pub merge_entitlements : Entitlements → EntitlementOverride → Answer Entitlements
unfolding entitlements_schema normalize_entitlements
merge_entitlements base o = parse (overridden base o) >>= λ e. given (normalize_entitlements e)

-- `UNLIMITED_ENTITLEMENTS`
abbrev pub unlimited_entitlements : Entitlements
unlimited_entitlements = record {
  max_facilities = none;
  max_tariff_plans = none;
  max_staff_seats = none;
  features = [];
  commission_bps = 0;
}

module _ (unclaimed_operator_id : ℕ) where
  abbrev pub is_quota_exempt : ℕ → Bool
  is_quota_exempt k = k == unclaimed_operator_id

  abbrev pub default_plan : OperatorTables → Answer SubscriptionPlan
  default_plan t =
      elim (find_first (λ (p : SubscriptionPlan). p.is_starter && p.is_active) t.plans) [
        | none ↦ refused default_plan_missing
        | some p ↦ given p
      ]

  abbrev pub effective :
      ℕ → EntitlementSource → Option OperatorSubscription → Entitlements → EffectiveEntitlements
  effective k source none e = record {
    operator_id = k;
    entitlements = e;
    source = source;
    subscription_id = none;
    status = none;
  }
  effective k source (some s) e = record {
    operator_id = k;
    entitlements = e;
    source = source;
    subscription_id = some s.id;
    status = some s.status;
  }

  abbrev pub apply_override :
      ℕ
      → OperatorSubscription
      → Entitlements
      → Option EntitlementOverride
      → Answer EffectiveEntitlements
  apply_override k s base none = given (effective k by_subscription (some s) base)
  apply_override k s base (some o) =
      if override_schema o
      then (merge_entitlements base o >>= λ e. given (effective k by_override (some s) e))
      else refused not_parsed

  abbrev pub subscription_of : ℕ → OperatorTables → Option OperatorSubscription
  subscription_of k t =
      find_first (λ (s : OperatorSubscription). s.operator_id == k && is_live s.status)
        t.subscriptions

  abbrev pub plan_of : OperatorSubscription → OperatorTables → Answer SubscriptionPlan
  plan_of s t = elim (find_row (λ (p : SubscriptionPlan). p.id) s.plan_id t.plans) [
    | none ↦ refused row_missing
    | some p ↦ given p
  ]

  abbrev pub of_subscription :
      ℕ → OperatorTables → Option OperatorSubscription → Answer EffectiveEntitlements
  of_subscription k t none =
      default_plan t >>= λ p. parse p.entitlements >>= λ e. given (effective k by_default none e)
  of_subscription k t (some s) = plan_of s t >>= λ p.
      parse p.entitlements >>= λ base. apply_override k s base s.entitlement_override

  unfoldable pub resolve_effective : ℕ → OperatorTables → Answer EffectiveEntitlements
  unfolding entitlements_schema override_schema merge_entitlements
  resolve_effective k t =
      if is_quota_exempt k
      then given (effective k exempt none unlimited_entitlements)
      else of_subscription k t (subscription_of k t)

  abbrev pub is_operator : ℕ → Option ℕ → Bool
  is_operator k none = false
  is_operator k (some j) = j == k

  abbrev pub count_facilities : ℕ → OperatorTables → ℕ
  count_facilities k t =
      count_if
        (λ (f : OwnedFacility).
          is_operator k f.operator_id && is_lifecycle_active f.lifecycle_status)
        t.facilities

  abbrev pub count_tariff_plans : ℕ → OperatorTables → ℕ
  count_tariff_plans k t =
      count_if
        (λ (p : OwnedTariffPlan).
          p.operator_id == k && (p.is_active && is_lifecycle_active p.lifecycle_status))
        t.tariff_plans

  abbrev pub is_open_invite : ℕ → ℕ → OperatorInvite → Bool
  is_open_invite k now i =
      (i.operator_id == k && i.is_member) && (i.is_pending && ltb now i.expires_at)

  abbrev pub count_staff_seats : ℕ → ℕ → OperatorTables → ℕ
  count_staff_seats k now t =
      count_if (λ j. j == k) t.memberships + count_if (is_open_invite k now) t.invites

  -- `current >= limit` throws, and null is no limit.
  abbrev pub within : Option ℕ → ℕ → Answer (Unit {0})
  within none current = given tt
  within (some limit) current =
      if leb limit current then refused (limit_exceeded limit current) else given tt

  abbrev pub unless_exempt : ℕ → Answer (Unit {0}) → Answer (Unit {0})
  unless_exempt k a = if is_quota_exempt k then given tt else a

  unfoldable pub assert_can_create_facility : ℕ → OperatorTables → Answer (Unit {0})
  unfolding resolve_effective
  assert_can_create_facility k t =
      unless_exempt k
        (resolve_effective k t >>= λ x. within x.entitlements.max_facilities (count_facilities k t))

  unfoldable pub assert_can_create_tariff_plan : ℕ → OperatorTables → Answer (Unit {0})
  unfolding resolve_effective
  assert_can_create_tariff_plan k t = unless_exempt k (
      resolve_effective k t >>= λ x.
      within x.entitlements.max_tariff_plans (count_tariff_plans k t))

  unfoldable pub assert_can_add_staff_seat : ℕ → ℕ → OperatorTables → Answer (Unit {0})
  unfolding resolve_effective
  assert_can_add_staff_seat k now t = unless_exempt k (
      resolve_effective k t >>= λ x.
      within x.entitlements.max_staff_seats (count_staff_seats k now t))

  abbrev pub check : ℕ → Option ℕ → ℕ → List EntitlementViolation
  check resource none current = []
  check resource (some limit) current =
      if ltb limit current
      then record {
        resource = resource;
        limit = limit;
        current = current;
        remove = current - limit;
      }
        ∷ []
      else []

  -- The facilities are resource 0, the tariff plans 1 and the staff seats 2.
  abbrev pub violations : ℕ → Entitlements → ℕ → OperatorTables → List EntitlementViolation
  violations k target now t =
      check 0 target.max_facilities (count_facilities k t)
      ++ (check 1 target.max_tariff_plans (count_tariff_plans k t)
          ++ check 2 target.max_staff_seats (count_staff_seats k now t))

  abbrev pub blocked_by : List EntitlementViolation → Answer (Unit {0})
  blocked_by [] = given tt
  blocked_by (v ∷ vs) = refused (downgrade_blocked (v ∷ vs))

  unfoldable pub assert_usage_fits_entitlements :
      ℕ → Entitlements → ℕ → OperatorTables → Answer (Unit {0})
  assert_usage_fits_entitlements k target now t =
      unless_exempt k (blocked_by (violations k target now t))

  unfoldable pub has_feature : ℕ → ℕ → OperatorTables → Answer Bool
  unfolding resolve_effective
  has_feature k feature t =
      resolve_effective k t >>= λ x. given (includes x.entitlements.features feature)
