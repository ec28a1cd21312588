-- ===== src/PaymentEvents.antt =====
-- Provider webhooks (src/booking/payment-events.service.ts). `secret` is the minted QR secret.
pub mod Process
use saprk_parking_api.Prelude.{
  ℕ, Bool, true, false, not, ◌||◌, Option, none, some, List, [], ◌∷◌, ◌==◌, if◌then◌else◌,
}
use saprk_parking_api.Store.{
  BookingStatus, pending_payment, confirmed, cancelled, expired, refund_pending, PaymentStatus,
  RefundStatus, Booking, Payment, Refund, Db, WebhookEvent, PaymentEventOutcome, processed,
  duplicate, unknown_type, unmatched_payment, already_applied, stale, needs_reconciliation,
  booking_confirmed, booking_refunded, booking_refund_failed, booking_payment_failed,
  succeeded_after_final_state, succeeded_after_expiry, refunded_externally, confirmation,
  confirmation_push, is_status,
}
use saprk_parking_api.Store.Table.{find_row, update_row}
use saprk_parking_api.Store.Monad.{
  Thrown, unique_event, M, ◌>>=◌, ◌>>◌, return, throw, transaction, ◌catch◌, booking_row, refund_of,
  update_booking, update_payment, update_refund, add_history, add_audit, notify, done, thrown,
}
use saprk_parking_api.Inventory.{is_past}
use saprk_parking_api.Booking.Confirm.{set_payment, set_status, set_confirmed}
use saprk_parking_api.Booking.Cancel.{set_refund}

pub data IntentStatus : Type 0 where
  requires_payment requires_capture processing succeeded failed canceled : IntentStatus

-- The three substring tests on `event.type` are fields: whether it includes "refund", and whether it
-- ends with "payment_intent.succeeded" or "payment_failed".
pub record PaymentWebhookEvent : Type 0 where
  pub id : ℕ
  pub includes_refund : Bool
  pub ends_with_succeeded : Bool
  pub ends_with_failed : Bool
  pub provider_payment_id : Option ℕ
  pub provider_refund_id : Option ℕ
  pub status : Option IntentStatus

pub data EventKind : Type 0 where
  payment_succeeded payment_failed refund_settled refund_failed unknown : EventKind

abbrev pub is_given : Option ℕ → Bool
is_given none = false
is_given (some n) = true

abbrev pub says_succeeded : Option IntentStatus → Bool
says_succeeded (some succeeded) = true
says_succeeded _ = false

abbrev pub says_failed : Option IntentStatus → Bool
says_failed (some failed) = true
says_failed _ = false

abbrev pub says_canceled : Option IntentStatus → Bool
says_canceled (some canceled) = true
says_canceled _ = false

unfoldable pub classify : PaymentWebhookEvent → EventKind
classify e =
    if e.includes_refund || is_given e.provider_refund_id
    then (if says_succeeded e.status
        then refund_settled
        else (if says_failed e.status || says_canceled e.status then refund_failed else unknown))
    else (if says_succeeded e.status || e.ends_with_succeeded
        then payment_succeeded
        else (if says_failed e.status || e.ends_with_failed then payment_failed else unknown))

-- The payment with its booking and refund, as `include` reads them.
pub record PaymentWithBooking : Type 0 where
  pub payment : Payment
  pub booking : Booking
  pub refund : Option Refund

abbrev pub has_ref : ℕ → Payment → Bool
has_ref ref p = elim p.provider_payment_id [ none ↦ false | some r ↦ r == ref ]

abbrev pub by_ref : ℕ → List Payment → Option Payment
by_ref ref [] = none
by_ref ref (p ∷ ps) = if has_ref ref p then some p else by_ref ref ps

-- The booking of a payment is there by its foreign key; without it this finds nothing.
abbrev pub with_booking : Payment → Option Booking → Db → Option PaymentWithBooking
with_booking p none db = none
with_booking p (some b) db = some (record { payment = p; booking = b; refund = refund_of b.id db })

abbrev pub join_booking : Option Payment → Db → Option PaymentWithBooking
join_booking none db = none
join_booking (some p) db = with_booking p (booking_row p.booking_id db) db

unfoldable pub find_payment : PaymentWebhookEvent → Db → Option PaymentWithBooking
find_payment e db = elim e.provider_payment_id [
  | none ↦ none
  | some ref ↦ join_booking (by_ref ref db.payments) db
]

-- The notification is that of a confirmation of the booking named.
pub record HandlerResult : Type 0 where
  pub outcome : PaymentEventOutcome
  pub notification : Option ℕ

abbrev pub result : PaymentEventOutcome → HandlerResult
result o = record { outcome = o; notification = none }

abbrev pub is_open_payment : PaymentStatus → Bool
is_open_payment PaymentStatus.pending = true
is_open_payment PaymentStatus.failed = true
is_open_payment _ = false

unfoldable pub apply_payment_succeeded : PaymentWithBooking → ℕ → ℕ → M HandlerResult
apply_payment_succeeded f now secret =
    if not (is_open_payment f.payment.status)
    then return (result already_applied)
    else (if not (is_status f.booking.status pending_payment)
        then (do
          update_payment f.payment.id (set_payment PaymentStatus.succeeded)
          add_audit none succeeded_after_final_state f.booking.id
          return (result needs_reconciliation))
        else (if is_past f.booking.expires_at now
            then (do
              update_payment f.payment.id (set_payment PaymentStatus.succeeded)
              update_booking f.booking.id (set_status expired)
              add_history f.booking.id expired none
              add_audit none succeeded_after_expiry f.booking.id
              return (result needs_reconciliation))
            else (do
              update_payment f.payment.id (set_payment PaymentStatus.succeeded)
              update_booking f.booking.id (set_confirmed f.booking.quoted_price_cents secret)
              add_history f.booking.id confirmed none
              add_audit none booking_confirmed f.booking.id
              return (record { outcome = processed; notification = some f.booking.id }))))

abbrev pub is_failed_payment : PaymentStatus → Bool
is_failed_payment PaymentStatus.failed = true
is_failed_payment _ = false

abbrev pub is_pending_payment : PaymentStatus → Bool
is_pending_payment PaymentStatus.pending = true
is_pending_payment _ = false

unfoldable pub apply_payment_failed : PaymentWithBooking → M HandlerResult
apply_payment_failed f =
    if is_failed_payment f.payment.status
    then return (result already_applied)
    else (if not (is_pending_payment f.payment.status) then return (result stale) else (do
      update_payment f.payment.id (set_payment PaymentStatus.failed)
      if is_status f.booking.status pending_payment
          then (do
            update_booking f.booking.id (set_status cancelled)
            add_history f.booking.id cancelled none)
          else return tt
      add_audit none booking_payment_failed f.booking.id
      return (result processed)))

abbrev pub is_settled : RefundStatus → Bool
is_settled RefundStatus.succeeded = true
is_settled _ = false

-- `event.providerRefundId ?? payment.refund.providerRefundId`
abbrev pub settle_ref : Option ℕ → Refund → Refund
settle_ref none r = set_refund RefundStatus.succeeded r
settle_ref (some ref) r = record r {
  status = RefundStatus.succeeded;
  provider_refund_id = some ref;
}

abbrev pub apply_settled : PaymentWithBooking → Option ℕ → Option Refund → M HandlerResult
apply_settled f ref none = do
  update_payment f.payment.id (set_payment PaymentStatus.refunded)
  add_audit none refunded_externally f.booking.id
  return (result needs_reconciliation)
apply_settled f ref (some r) = if is_settled r.status then return (result already_applied) else (do
  update_refund f.booking.id (settle_ref ref)
  update_payment f.payment.id (set_payment PaymentStatus.refunded)
  if is_status f.booking.status refund_pending || is_status f.booking.status confirmed
      then (do
        update_booking f.booking.id (set_status BookingStatus.refunded)
        add_history f.booking.id BookingStatus.refunded none)
      else return tt
  add_audit none booking_refunded f.booking.id
  return (result processed))

unfoldable pub apply_refund_settled : PaymentWithBooking → Option ℕ → M HandlerResult
apply_refund_settled f ref = apply_settled f ref f.refund

abbrev pub is_pending_refund : RefundStatus → Bool
is_pending_refund RefundStatus.pending = true
is_pending_refund _ = false

abbrev pub apply_failed : PaymentWithBooking → Option Refund → M HandlerResult
apply_failed f none = return (result stale)
apply_failed f (some r) =
    if not (is_pending_refund r.status) then return (result already_applied) else (do
      update_refund f.booking.id (set_refund RefundStatus.failed)
      add_audit none booking_refund_failed f.booking.id
      return (result processed))

unfoldable pub apply_refund_failed : PaymentWithBooking → M HandlerResult
apply_refund_failed f = apply_failed f f.refund

abbrev pub apply_kind :
    EventKind → PaymentWebhookEvent → PaymentWithBooking → ℕ → ℕ → M HandlerResult
apply_kind payment_succeeded e f now secret = apply_payment_succeeded f now secret
apply_kind payment_failed e f now secret = apply_payment_failed f
apply_kind refund_settled e f now secret = apply_refund_settled f e.provider_refund_id
apply_kind refund_failed e f now secret = apply_refund_failed f
apply_kind unknown e f now secret = return (result unknown_type)

-- Every handler looks the payment up first; an event of an unknown kind is not looked up.
abbrev pub apply_found :
    EventKind → PaymentWebhookEvent → Option PaymentWithBooking → ℕ → ℕ → M HandlerResult
apply_found unknown e found now secret = return (result unknown_type)
apply_found kind e none now secret = return (result unmatched_payment)
apply_found kind e (some f) now secret = apply_kind kind e f now secret

unfoldable pub dispatch : PaymentWebhookEvent → ℕ → ℕ → M HandlerResult
unfolding apply_payment_succeeded apply_payment_failed apply_refund_settled apply_refund_failed
dispatch e now secret db = apply_found (classify e) e (find_payment e db) now secret db
