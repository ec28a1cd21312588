-- ===== src/Booking/Confirm.antt =====
-- Phase 2 of checkout (`confirmBooking` and `captureAndConfirm` of src/booking/booking.service.ts).
-- The provider's answer, the minted secret and what other requests commit while the provider is
-- asked are arguments.
use saprk_parking_api.Prelude.{ℕ, Bool, true, false, Option, none, some, if◌then◌else◌}
use saprk_parking_api.Store.{
  BookingStatus, pending_payment, confirmed, expired, PaymentStatus, Booking, Payment, Db,
  booking_confirmed, confirmation, confirmation_push, is_status,
}
use saprk_parking_api.Store.Monad.{
  booking_not_found, quote_expired, status_transition, provider_error, M, ◌>>=◌, ◌>>◌, return,
  throw, unless_throw, found_or, tables, transaction, meanwhile, booking_row, payment_of,
  update_booking, update_payment, add_history, add_audit, notify,
}
use saprk_parking_api.Inventory.{is_past}
use saprk_parking_api.Booking.Access.{AuthUser, assert_booking_access}

pub record ConfirmedBooking : Type 0 where
  pub booking_id : ℕ
  pub access_code : ℕ
  pub starts_at : ℕ
  pub ends_at : ℕ
  pub final_price_cents : ℕ
  pub currency : ℕ

-- `capturePayment`: the intent succeeded, has another status, or the call threw.
pub data Capture : Type 0 where
  succeeded not_succeeded threw : Capture

abbrev pub or_else : Option ℕ → ℕ → ℕ
or_else none d = d
or_else (some n) d = n

abbrev pub to_confirmed : Booking → ConfirmedBooking
to_confirmed b = record {
  booking_id = b.id;
  access_code = b.access_code;
  starts_at = b.starts_at;
  ends_at = b.ends_at;
  final_price_cents = or_else b.final_price_cents b.quoted_price_cents;
  currency = b.currency;
}

abbrev pub set_payment : PaymentStatus → Payment → Payment
set_payment status p = record p { status = status }

abbrev pub set_status : BookingStatus → Booking → Booking
set_status status b = record b { status = status }

abbrev pub set_confirmed : ℕ → ℕ → Booking → Booking
set_confirmed price secret b = record b {
  status = confirmed;
  final_price_cents = some price;
  qr_secret = some secret;
  expires_at = none;
}

abbrev pub status_in : Option Booking → Option BookingStatus
status_in none = none
status_in (some b) = some b.status

abbrev pub has_status : BookingStatus → Option Booking → Bool
has_status status none = false
has_status status (some b) = is_status b.status status

-- The transaction that follows a capture.
unfoldable pub commit_confirmed : Booking → Payment → ℕ → M (Unit {0})
commit_confirmed b p secret = transaction (do
  db ← tables
  unless_throw (has_status pending_payment (booking_row b.id db))
      (status_transition (status_in (booking_row b.id db)) confirmed)
  update_payment p.id (set_payment PaymentStatus.succeeded)
  update_booking b.id (set_confirmed b.quoted_price_cents secret)
  add_history b.id confirmed none
  add_audit (some b.user_id) booking_confirmed b.id)

-- After the provider has answered: `b` and `p` are as they were read before.
unfoldable pub settle_capture : Booking → Payment → Capture → ℕ → M ConfirmedBooking
unfolding commit_confirmed
settle_capture b p threw secret = throw provider_error
settle_capture b p not_succeeded secret = do
  update_payment p.id (set_payment PaymentStatus.failed)
  throw (status_transition (some b.status) confirmed)
settle_capture b p Capture.succeeded secret = do
  commit_confirmed b p secret
  notify (confirmation b.id)
  notify (confirmation_push b.id)
  return (to_confirmed (set_confirmed b.quoted_price_cents secret b))

-- `!booking.payment?.providerPaymentId` throws.
abbrev pub capturable : Option Payment → Option Payment
capturable none = none
capturable (some p) = elim p.provider_payment_id [ none ↦ none | some ref ↦ some p ]

unfoldable pub confirm_pending : Booking → ℕ → (Db → Db) → Capture → ℕ → M ConfirmedBooking
unfolding settle_capture
confirm_pending b now others capture secret =
    if is_past b.expires_at now
    then (do update_booking b.id (set_status expired); throw quote_expired)
    else (do
      db ← tables
      p ← found_or (capturable (payment_of b.id db)) (status_transition (some b.status) confirmed)
      meanwhile others
      settle_capture b p capture secret)

unfoldable pub capture_and_confirm : ℕ → ℕ → (Db → Db) → Capture → ℕ → M ConfirmedBooking
unfolding confirm_pending
capture_and_confirm k now others capture secret = do
  db ← tables
  b ← found_or (booking_row k db) booking_not_found
  if is_status b.status confirmed
      then return (to_confirmed b)
      else (if is_status b.status pending_payment
          then confirm_pending b now others capture secret
          else throw (status_transition (some b.status) confirmed))

unfoldable pub confirm_booking : ℕ → AuthUser → ℕ → (Db → Db) → Capture → ℕ → M ConfirmedBooking
unfolding assert_booking_access capture_and_confirm
confirm_booking k user now others capture secret = do
  assert_booking_access k user true
  capture_and_confirm k now others capture secret
