-- ===== src/Booking/Stay.antt =====
-- Check-in and check-out (`checkIn`, `checkOut`, `repriceStay` and `transitionByOperator` of
-- src/booking/booking.service.ts).
use saprk_parking_api.Prelude.{ℕ, Option, none, some, leb, ◌==◌, if◌then◌else◌}
use saprk_parking_api.Prelude.Int.{ℤ, pos, ◌-ℤ◌}
use saprk_parking_api.Store.{
  BookingStatus, confirmed, checked_in, checked_out, Booking, Db, AuditAction, booking_checked_in,
  booking_checked_out, is_status,
}
use saprk_parking_api.Store.Monad.{
  booking_not_found, status_transition, M, ◌>>=◌, ◌>>◌, unless_throw, found_or, tables, transaction,
  meanwhile, booking_row, update_booking, add_history, add_audit,
}
use saprk_parking_api.Booking.Access.{AuthUser, resolve_scope, operator_of, in_scope}
use saprk_parking_api.Booking.Confirm.{set_status, status_in, has_status}

unfoldable pub transition_by_operator :
    ℕ → BookingStatus → BookingStatus → AuthUser → AuditAction → M (Unit {0})
unfolding resolve_scope
transition_by_operator k from to user action = do
  scope ← resolve_scope user
  transaction (do
    db ← tables
    b ← found_or (booking_row k db) booking_not_found
    unless_throw (in_scope scope (operator_of b db)) booking_not_found
    unless_throw (is_status b.status from) (status_transition (some b.status) to)
    update_booking k (set_status to)
    add_history k to (some user.id)
    add_audit (some user.id) action k)

unfoldable pub check_in : ℕ → AuthUser → M (Unit {0})
unfolding transition_by_operator
check_in k user = transition_by_operator k confirmed checked_in user booking_checked_in

-- `priceWithPinnedPlan`: it threw, found no such plan version, or priced in a currency.
pub data PinnedPrice : Type 0 where
  threw no_such_version : PinnedPrice
  priced_at : ℕ → ℕ → PinnedPrice

-- The plan and its version, the start and the end of the stay.
abbrev pub PinnedPricing : Type 0
PinnedPricing = ℕ → ℕ → ℕ → ℕ → PinnedPrice

pub data RepriceOutcome : Type 0 where
  repriced not_pinned no_billable_stay plan_version_changed currency_mismatch reprice_failed :
      RepriceOutcome

pub record RepricedStay : Type 0 where
  pub final_price_cents : ℕ
  pub adjustment_cents : Option ℤ
  pub outcome : RepriceOutcome

abbrev pub keep_quoted : Booking → RepriceOutcome → RepricedStay
keep_quoted b outcome = record {
  final_price_cents = b.quoted_price_cents;
  adjustment_cents = none;
  outcome = outcome;
}

abbrev pub reprice_by : Booking → PinnedPrice → RepricedStay
reprice_by b threw = keep_quoted b reprice_failed
reprice_by b no_such_version = keep_quoted b plan_version_changed
reprice_by b (priced_at total currency) =
    if currency == b.currency
    then record {
      final_price_cents = total;
      adjustment_cents = some (pos total -ℤ pos b.quoted_price_cents);
      outcome = repriced;
    }
    else keep_quoted b currency_mismatch

abbrev pub reprice_pinned : PinnedPricing → Booking → ℕ → Option ℕ → Option ℕ → RepricedStay
reprice_pinned pricing b at none version = keep_quoted b not_pinned
reprice_pinned pricing b at (some plan) none = keep_quoted b not_pinned
reprice_pinned pricing b at (some plan) (some version) =
    if leb at b.starts_at
    then keep_quoted b no_billable_stay
    else reprice_by b (pricing plan version b.starts_at at)

unfoldable pub reprice_stay : PinnedPricing → Booking → ℕ → RepricedStay
reprice_stay pricing b at = reprice_pinned pricing b at b.tariff_plan_id b.tariff_plan_version

abbrev pub set_checked_out : RepricedStay → Booking → Booking
set_checked_out r b = record b {
  status = checked_out;
  final_price_cents = some r.final_price_cents;
  price_adjustment_cents = r.adjustment_cents;
}

-- `others` is what other requests commit while the stay is priced.
unfoldable pub check_out : PinnedPricing → ℕ → AuthUser → ℕ → (Db → Db) → M (Unit {0})
unfolding resolve_scope
check_out pricing k user now others = do
  scope ← resolve_scope user
  db ← tables
  b ← found_or (booking_row k db) booking_not_found
  unless_throw (in_scope scope (operator_of b db)) booking_not_found
  unless_throw (is_status b.status checked_in) (status_transition (some b.status) checked_out)
  let priced = reprice_stay pricing b now
  meanwhile others
  transaction (do
    fresh ← tables
    unless_throw (has_status checked_in (booking_row k fresh))
        (status_transition (status_in (booking_row k fresh)) checked_out)
    update_booking k (set_checked_out priced)
    add_history k checked_out (some user.id)
    add_audit (some user.id) booking_checked_out k)
