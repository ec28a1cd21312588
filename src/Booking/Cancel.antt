-- ===== src/Booking/Cancel.antt =====
-- Cancelling and refunding (`cancelBooking`, `refundAndCancel` and `recordRefundFailure` of
-- src/booking/booking.service.ts). The arguments `others` and `others'` are what other requests
-- commit after the booking was read, and while the provider is asked.
use saprk_parking_api.Prelude.{
  ℕ, Bool, true, false, ◌&&◌, ◌||◌, Option, none, some, ◌∷◌, if◌then◌else◌,
}
use saprk_parking_api.Store.{
  BookingStatus, pending_payment, confirmed, cancelled, refund_pending, PaymentStatus, RefundStatus,
  Booking, Payment, Refund, Db, booking_cancelled, booking_refund_requested, booking_refund_failed,
  booking_refunded, cancellation, is_status,
}
use saprk_parking_api.Store.Monad.{
  Thrown, booking_not_found, status_transition, refund_failed, unique_booking_id, M, ◌>>=◌, ◌>>◌,
  return, throw, unless_throw, found_or, tables, transaction, ◌catch◌, meanwhile, booking_row,
  payment_of, refund_of, update_booking, update_payment, update_refund, add_history, add_audit,
  notify, done, thrown,
}
use saprk_parking_api.Booking.Access.{AuthUser, assert_booking_access}
use saprk_parking_api.Booking.Confirm.{set_payment, set_status, status_in, has_status}

-- What `refund` of the provider gave: it threw, failed, is under way, or succeeded.
pub data RefundAnswer : Type 0 where
  threw failed : RefundAnswer
  under_way succeeded : ℕ → RefundAnswer

abbrev pub is_cancellable : BookingStatus → Bool
is_cancellable pending_payment = true
is_cancellable confirmed = true
is_cancellable refund_pending = true
is_cancellable _ = false

abbrev pub is_paid : PaymentStatus → Bool
is_paid PaymentStatus.succeeded = true
is_paid _ = false

-- `needsRefund && booking.payment?.providerPaymentId`: the payment to refund.
abbrev pub refundable : BookingStatus → Option Payment → Option Payment
refundable status none = none
refundable status (some p) = elim p.provider_payment_id [
  | none ↦ none
  | some ref ↦
      if is_status status refund_pending || (is_status status confirmed && is_paid p.status)
      then some p
      else none
]

-- `refund.create`: `bookingId` is unique.
abbrev pub create_refund : Refund → M (Unit {0})
create_refund r db = elim (refund_of r.booking_id db) [
  | none ↦ done tt (record db { refunds = r ∷ db.refunds })
  | some old ↦ thrown unique_booking_id db
]

abbrev pub new_refund : Booking → Payment → Refund
new_refund b p = record {
  booking_id = b.id;
  payment_id = p.id;
  amount_cents = p.amount_cents;
  status = RefundStatus.pending;
  provider_refund_id = none;
}

abbrev pub set_refund : RefundStatus → Refund → Refund
set_refund status r = record r { status = status }

abbrev pub set_refund_ref : ℕ → Refund → Refund
set_refund_ref ref r = record r { provider_refund_id = some ref }

unfoldable pub record_refund_failure : ℕ → AuthUser → M (Unit {0})
record_refund_failure k user = transaction (do
  update_refund k (set_refund RefundStatus.failed)
  add_audit (some user.id) booking_refund_failed k)

-- Phase 1, which runs on a confirmed booking only.
unfoldable pub request_refund : Booking → Payment → AuthUser → M (Unit {0})
request_refund b p user = transaction (do
  db ← tables
  unless_throw (has_status confirmed (booking_row b.id db))
      (status_transition (status_in (booking_row b.id db)) refund_pending)
  update_booking b.id (set_status refund_pending)
  add_history b.id refund_pending (some user.id)
  create_refund (new_refund b p)
  add_audit (some user.id) booking_refund_requested b.id)

-- A concurrent cancel that won phase 1 is resumed; any other error goes on.
abbrev pub resume_on_unique : Thrown → M (Unit {0})
resume_on_unique unique_booking_id = return tt
resume_on_unique e = throw e

abbrev pub mark_refunded : ℕ → Option Booking → AuthUser → M (Unit {0})
mark_refunded k fresh user =
    if has_status refund_pending fresh
    then (do
      update_booking k (set_status BookingStatus.refunded)
      add_history k BookingStatus.refunded (some user.id))
    else return tt

-- Phases 2 and 3.
unfoldable pub settle_refund : Booking → Payment → AuthUser → RefundAnswer → M (Unit {0})
unfolding record_refund_failure
settle_refund b p user threw = do record_refund_failure b.id user; throw refund_failed
settle_refund b p user failed = do record_refund_failure b.id user; throw refund_failed
settle_refund b p user (under_way ref) = transaction (update_refund b.id (set_refund_ref ref))
settle_refund b p user (succeeded ref) = transaction (do
  update_refund b.id (λ r. set_refund_ref ref (set_refund RefundStatus.succeeded r))
  update_payment p.id (set_payment PaymentStatus.refunded)
  db ← tables
  mark_refunded b.id (booking_row b.id db) user
  add_audit (some user.id) booking_refunded b.id)

unfoldable pub refund_and_cancel :
    Booking → Payment → AuthUser → (Db → Db) → RefundAnswer → M (Unit {0})
refund_and_cancel b p user others' answer = do
  if is_status b.status confirmed
      then (request_refund b p user catch resume_on_unique)
      else return tt
  meanwhile others'
  settle_refund b p user answer

-- The transaction of a cancel without a refund: it does not read the status again.
unfoldable pub cancel_unpaid : ℕ → AuthUser → M (Unit {0})
cancel_unpaid k user = transaction (do
  update_booking k (set_status cancelled)
  add_history k cancelled (some user.id)
  add_audit (some user.id) booking_cancelled k)

abbrev pub cancel_by : Booking → Option Payment → AuthUser → (Db → Db) → RefundAnswer → M (Unit {0})
cancel_by b none user others' answer = cancel_unpaid b.id user
cancel_by b (some p) user others' answer = refund_and_cancel b p user others' answer

unfoldable pub cancel_booking : ℕ → AuthUser → (Db → Db) → (Db → Db) → RefundAnswer → M (Unit {0})
cancel_booking k user others others' answer = do
  assert_booking_access k user true
  db ← tables
  b ← found_or (booking_row k db) booking_not_found
  unless_throw (is_cancellable b.status) (status_transition (some b.status) cancelled)
  meanwhile others
  cancel_by b (refundable b.status (payment_of k db)) user others' answer
  notify (cancellation k)
