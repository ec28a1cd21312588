-- ===== src/Examples/Bookings.antt =====
-- One facility with one slot, one booking and its payment (src/inventory, src/booking).
use saprk_parking_api.Prelude.{
  ℕ, ◌+◌, ◌*◌, ◌≡◌, refl, true, false, none, some, List, [], ◌∷◌, arith,
}
use saprk_parking_api.Store.{
  BookingStatus, pending_payment, confirmed, checked_in, cancelled, PaymentStatus, business,
  Facility, Booking, Payment, Db, WebhookEvent, PaymentEventOutcome, default_currency,
}
use saprk_parking_api.Store.Monad.{payment_of, Thrown, done, thrown, after, booking_row}
use saprk_parking_api.Inventory.{
  is_past, count_overlapping_bookings, HoldRequest, held_booking, hold_slot, release_expired_holds,
  check_availability,
}
use saprk_parking_api.Prelude.{get, nat_has_eq}
use saprk_parking_api.Inventory.Grouped.{
  or_zero, count_overlapping_by_facility, count_overlapping_by_facility-check_availability,
}
use saprk_parking_api.Inventory.Oversell.{
  NotOversold, hold_slot-NotOversold, release_expired_holds-check_availability,
}
use saprk_parking_api.Booking.Access.{AuthUser, assert_booking_access, regular_user, super_admin}
use saprk_parking_api.Booking.Confirm.{
  Capture, capturable, ConfirmedBooking, to_confirmed, set_status, set_confirmed,
  capture_and_confirm,
}
use saprk_parking_api.Booking.Cancel.{cancel_unpaid, RefundAnswer, cancel_booking}
use saprk_parking_api.Booking.Stay.{
  PinnedPricing, priced_at, repriced, reprice_stay, check_in, check_out,
}
use saprk_parking_api.Booking.Create.{
  Quote, CreateBookingRequest, BookingResult, Provider, create_fresh, hold_with_access_code,
  create_booking,
}
use saprk_parking_api.Booking.Create.Once.{create_booking-NotOversold}
use saprk_parking_api.Booking.Create.Again.{create_booking-again}
use saprk_parking_api.Booking.Repeats.{
  capture_and_confirm-confirms, cancel_booking-refuses, capture_and_confirm-again,
  reprice_stay-held, check_out-once,
}
use saprk_parking_api.PaymentEvents.{PaymentWebhookEvent, IntentStatus}
use saprk_parking_api.PaymentEvents.Process.{process}
use saprk_parking_api.Lifecycle.{RowsKept}
use saprk_parking_api.Lifecycle.Runs.{Run, stop, go, cancel, enter, IsFixed, Run-IsFixed, Run-final}
use saprk_parking_api.Lifecycle.Webhooks.{process-RowsKept, process-replay}

abbrev lot : Facility
lot = record {
  id = 1;
  operator_id = some 5;
  online_quota = 1;
  is_active = true;
  is_published = true;
  kind = business;
}

abbrev rider : AuthUser
rider = record { id = 9; role = regular_user; memberships = [] }

abbrev stranger : AuthUser
stranger = record { id = 8; role = regular_user; memberships = [] }

abbrev admin : AuthUser
admin = record { id = 2; role = super_admin; memberships = [] }

abbrev hold : HoldRequest
hold = record {
  facility_id = 1;
  starts_at = 100;
  ends_at = 200;
  quoted_price_cents = 500;
  discount_cents = 0;
  access_code = 77;
  tariff_plan_id = 1;
  tariff_plan_version = 2;
  user_id = 9;
  idempotency_key = 44;
}

abbrev booked : BookingStatus → Booking
booked status = record (held_booking 3 hold 10) { status = status }

abbrev paid : Payment
paid = record {
  id = 6;
  booking_id = 3;
  amount_cents = 500;
  currency = default_currency;
  provider_payment_id = some 66;
  status = PaymentStatus.pending;
}

abbrev rows : List Booking → List Payment → Db
rows bookings payments = record {
  facilities = lot ∷ [];
  bookings = bookings;
  payments = payments;
  refunds = [];
  history = [];
  audit = [];
  webhook_events = [];
  outbox = [];
}

abbrev with_booking : BookingStatus → Db
with_booking status = rows (booked status ∷ []) (paid ∷ [])

abbrev held_db : Db
held_db = after (hold_slot 3 hold 10 (rows [] []))

rows-NotOversold : NotOversold 10 (rows [] [])
unfolding count_overlapping_bookings
rows-NotOversold k instant = ground arith

hold_slot-NotOversold_example : NotOversold 10 held_db
unfolding hold_slot
hold_slot-NotOversold_example =
    hold_slot-NotOversold 3 10 hold (rows [] []) held_db (3, 10 + 10 * 60_000) rows-NotOversold refl

release_expired_holds-check_availability_example :
    check_availability 1 150 160 900_000
      (after (release_expired_holds 800_000 (with_booking pending_payment)))
    ≡ check_availability 1 150 160 900_000 (with_booking pending_payment)
release_expired_holds-check_availability_example =
    release_expired_holds-check_availability 1 150 160 800_000 900_000 1
      (with_booking pending_payment)
      (after (release_expired_holds 800_000 (with_booking pending_payment))) (omega arith)
      released_one
  where
    released_one :
        release_expired_holds 800_000 (with_booking pending_payment)
        ≡ done 1 (after (release_expired_holds 800_000 (with_booking pending_payment)))
    released_one = unfold release_expired_holds in refl

abbrev provider : Provider
provider k amount currency = some (record { provider_payment_id = 66; client_secret = 1 })

abbrev quote : Quote
quote = record {
  plan_id = 1;
  plan_version = 2;
  total_cents = 500;
  discount_cents = 0;
  currency = default_currency;
  expires_at = 1000;
}

abbrev request : CreateBookingRequest
request = record {
  facility_id = 1;
  starts_at = 100;
  ends_at = 200;
  user_id = 9;
  idempotency_key = 44;
}

create_booking-NotOversold_example :
    NotOversold 10
      (after (create_booking provider (λ i. 77 + i) request quote 3 6 10 (λ d. d) (rows [] [])))
create_booking-NotOversold_example =
    create_booking-NotOversold request quote 3 6 10 (λ i. 77 + i) provider (λ d. d) (rows [] [])
      rows-NotOversold rows-NotOversold

abbrev first_db : Db
first_db = after (create_booking provider (λ i. 77 + i) request quote 3 6 10 (λ d. d) (rows [] []))

abbrev first_result : BookingResult
first_result = record {
  booking_id = 3;
  access_code = 77;
  expires_at = 10 + 10 * 60_000;
  amount_cents = 500;
  currency = default_currency;
  client_secret = some 1;
  already_existed = false;
}

created_once :
    create_booking provider (λ i. 77 + i) request quote 3 6 10 (λ d. d) (rows [] [])
    ≡ done first_result first_db
unfolding create_booking create_fresh hold_with_access_code hold_slot
created_once = refl

create_booking-again_example :
    (c : BookingResult) × (d : Db) × (create_booking provider
        (λ i. 80 + i)
        request
        quote
        4
        7
        20
        (λ d. d)
        first_db
      ≡ done c d)
    × (c.booking_id ≡ 3)
    × (c.access_code ≡ 77)
    × (c.already_existed ≡ true)
    × (d.bookings ≡ first_db.bookings)
create_booking-again_example =
    create_booking-again provider provider (λ i. 77 + i) (λ i. 80 + i) request request quote quote 3
      4 6 7 10 20 (λ d. d) (λ d. d) (rows [] []) first_db first_result created_once refl
      (λ amount currency. (record { provider_payment_id = 66; client_secret = 1 }, refl))

abbrev pricing : PinnedPricing
pricing plan version start end = priced_at 700 default_currency

abbrev event : PaymentWebhookEvent
event = record {
  id = 90;
  includes_refund = false;
  ends_with_succeeded = true;
  ends_with_failed = false;
  provider_payment_id = some 66;
  provider_refund_id = none;
  status = some IntentStatus.succeeded;
}

process-RowsKept_example :
    RowsKept
      (with_booking pending_payment)
      (after (process event 10 5 (with_booking pending_payment)))
process-RowsKept_example = process-RowsKept event 10 5 (with_booking pending_payment)

abbrev logged : WebhookEvent PaymentEventOutcome
logged = record { provider_event_id = 90; outcome = some PaymentEventOutcome.processed }

abbrev replayed : Db
replayed = record (with_booking pending_payment) { webhook_events = logged ∷ [] }

process-replay_example : process event 10 5 replayed ≡ done PaymentEventOutcome.duplicate replayed
process-replay_example = process-replay event 10 5 replayed logged refl

abbrev confirmed_db : Db
confirmed_db =
    after (capture_and_confirm 3 10 (λ d. d) Capture.succeeded 5 (with_booking pending_payment))

abbrev answer : ConfirmedBooking
answer = to_confirmed (set_confirmed 500 5 (booked pending_payment))

confirmed_once :
    capture_and_confirm 3 10 (λ d. d) Capture.succeeded 5 (with_booking pending_payment)
    ≡ done answer confirmed_db
unfolding capture_and_confirm
confirmed_once = refl

capture_and_confirm-again_example :
    capture_and_confirm 3 20 (λ d. d) Capture.threw 6 confirmed_db ≡ done answer confirmed_db
capture_and_confirm-again_example =
    capture_and_confirm-again 3 10 20 Capture.succeeded Capture.threw 5 6 (λ d. d)
      (with_booking pending_payment) confirmed_db answer confirmed_once

-- The rider cancels while the webhook of the payment confirms the booking: it ends cancelled, with its
-- payment kept and no refund.
abbrev raced : Db
raced = after (
    cancel_booking 3 rider (λ d. with_booking confirmed) (λ d. d) RefundAnswer.failed
      (with_booking pending_payment))

overwritten :
    (booking_row 3 raced ≡ some (set_status cancelled (booked confirmed))) × (raced.refunds ≡ [])
unfolding cancel_booking assert_booking_access cancel_unpaid
overwritten = (refl, refl)

cancel_booking-refuses_example :
    (e : Thrown) × (cancel_booking 3 rider
        (λ d. d)
        (λ d. d)
        RefundAnswer.failed
        (with_booking checked_in)
      ≡ thrown e (with_booking checked_in))
cancel_booking-refuses_example =
    cancel_booking-refuses 3 rider (λ d. d) (λ d. d) RefundAnswer.failed (with_booking checked_in)
      refl (λ b found. ground arith)

reprice_stay-held_example : (total : ℕ) × (pricing 1 2 100 180 ≡ priced_at total default_currency)
reprice_stay-held_example = reprice_stay-held pricing 3 10 180 hold was_repriced
  where
    was_repriced : (reprice_stay pricing (held_booking 3 hold 10) 180).outcome ≡ repriced
    was_repriced = unfold reprice_stay in refl

abbrev left_db : Db
left_db = after (check_out pricing 3 admin 180 (λ d. d) (with_booking checked_in))

checked_out_once :
    check_out pricing 3 admin 180 (λ d. d) (with_booking checked_in) ≡ done tt left_db
unfolding check_out
checked_out_once = refl

check_out-once_example :
    (e : Thrown) × (check_out pricing 3 admin 190 (λ d. d) left_db ≡ thrown e left_db)
check_out-once_example =
    check_out-once pricing 3 admin admin 180 190 (λ d. d) (λ d. d) (with_booking checked_in) left_db
      checked_out_once

-- The booking is checked in, out of order, and then a cancel of it is tried.
abbrev entered : Db
entered = after (check_in 3 admin (with_booking cancelled))

abbrev retried : Db
retried = after (cancel_booking 3 rider (λ d. d) (λ d. d) RefundAnswer.failed entered)

two_requests : Run (with_booking cancelled) retried
two_requests =
    go (enter 3 admin (with_booking cancelled))
      (go (cancel 3 rider RefundAnswer.failed entered) (stop retried))

Run-IsFixed_example :
    (s : Booking) × (booking_row 3 retried ≡ some s) × IsFixed (booked cancelled) s
Run-IsFixed_example = Run-IsFixed 3 (booked cancelled) two_requests refl

Run-final_example : (s : Booking) × (booking_row 3 retried ≡ some s) × (s.status ≡ cancelled)
Run-final_example = Run-final 3 (booked cancelled) two_requests refl refl

count_overlapping_by_facility-check_availability_example :
    or_zero (get 1 (count_overlapping_by_facility (7 ∷ 1 ∷ []) 150 160 20 (with_booking confirmed)))
    ≡ (check_availability 1 150 160 20 (with_booking confirmed)).overlapping_count
count_overlapping_by_facility-check_availability_example =
    count_overlapping_by_facility-check_availability (7 ∷ 1 ∷ []) 1 150 160 20
      (with_booking confirmed) lot refl refl

-- While the capture is under way the hold runs out and its slot is taken by a second booking, which
-- the lot has no room for beside the first.
abbrev resold : Db
resold =
    rows (record (booked confirmed) { id = 4; user_id = 8 } ∷ booked pending_payment ∷ [])
      (paid ∷ [])

confirmed_late :
    booking_row 3 (
      after
        (capture_and_confirm 3 10 (λ d. resold) Capture.succeeded 5 (with_booking pending_payment)))
    ≡ some (set_confirmed 500 5 (booked pending_payment))
unfolding capture_and_confirm
confirmed_late = refl

capture_and_confirm-confirms_example :
    ((booked pending_payment).status ≡ pending_payment)
    × (is_past (booked pending_payment).expires_at 10 ≡ false)
    × ((p : Payment) × (capturable (payment_of 3 (with_booking pending_payment)) ≡ some p))
    × (Capture.succeeded ≡ Capture.succeeded)
    × ((booked pending_payment).status ≡ pending_payment)
capture_and_confirm-confirms_example =
    capture_and_confirm-confirms 3 10 (λ d. resold) Capture.succeeded 5
      (with_booking pending_payment) (booked pending_payment) (booked pending_payment)
      (set_confirmed 500 5 (booked pending_payment)) refl refl refl refl confirmed_late refl
