-- ===== src/Booking/Create.antt =====
-- Phase 1 of checkout (`createBooking`, `holdWithAccessCode` and `replayBookingResult` of
-- src/booking/booking.service.ts). The quote, the codes that are minted, the ids that the database
-- gives and the provider of payments are arguments; `others` is what other requests commit between
-- the look-up of the key and the hold.
pub mod Once
pub mod Again
use saprk_parking_api.Prelude.{
  ℕ, zero, suc, ◌+◌, Bool, true, false, not, ◌&&◌, Option, none, some, List, [], ◌∷◌, ltb, ◌==◌,
  if◌then◌else◌,
}
use saprk_parking_api.Store.{
  BookingStatus, pending_payment, PaymentStatus, Booking, Payment, Db, booking_created, is_status,
}
use saprk_parking_api.Store.Monad.{
  Thrown, quote_expired, idempotency_conflict, access_code_generation, unique_idempotency_key,
  unique_access_code, unique_booking_id, provider_error, M, ◌>>=◌, ◌>>◌, return, throw,
  unless_throw, found_or, tables, ◌catch◌, meanwhile, payment_of, add_audit, done, thrown,
}
use saprk_parking_api.Inventory.{HoldRequest, has_key, hold_slot}
use saprk_parking_api.Booking.Confirm.{or_else}

-- The parts of a quote that a booking takes over.
pub record Quote : Type 0 where
  pub plan_id : ℕ
  pub plan_version : ℕ
  pub total_cents : ℕ
  pub discount_cents : ℕ
  pub currency : ℕ
  pub expires_at : ℕ

pub record CreateBookingRequest : Type 0 where
  pub facility_id : ℕ
  pub starts_at : ℕ
  pub ends_at : ℕ
  pub user_id : ℕ
  pub idempotency_key : ℕ

pub record BookingResult : Type 0 where
  pub booking_id : ℕ
  pub access_code : ℕ
  pub expires_at : ℕ
  pub amount_cents : ℕ
  pub currency : ℕ
  pub client_secret : Option ℕ
  pub already_existed : Bool

pub record Intent : Type 0 where
  pub provider_payment_id : ℕ
  pub client_secret : ℕ

-- `createPaymentIntent` of the provider, for a booking, an amount and a currency; `none` if it throws.
abbrev pub Provider : Type 0
Provider = ℕ → ℕ → ℕ → Option Intent

abbrev pub access_code_attempts : ℕ
access_code_attempts = 5

abbrev pub hold_request : CreateBookingRequest → Quote → ℕ → HoldRequest
hold_request r q code = record {
  facility_id = r.facility_id;
  starts_at = r.starts_at;
  ends_at = r.ends_at;
  quoted_price_cents = q.total_cents;
  discount_cents = q.discount_cents;
  access_code = code;
  tariff_plan_id = q.plan_id;
  tariff_plan_version = q.plan_version;
  user_id = r.user_id;
  idempotency_key = r.idempotency_key;
}

pub record Held : Type 0 where
  pub booking_id : ℕ
  pub expires_at : ℕ
  pub access_code : ℕ

abbrev pub hold_with : CreateBookingRequest → Quote → ℕ → ℕ → ℕ → M Held
hold_with r q id now code = do
  held ← hold_slot id (hold_request r q code) now
  return (record { booking_id = held.0; expires_at = held.1; access_code = code })

abbrev pub on_collision : M Held → Thrown → M Held
on_collision retry unique_idempotency_key = throw idempotency_conflict
on_collision retry unique_access_code = retry
on_collision retry e = throw e

-- The attempts that are left, the first of which takes the code at `i`.
unfoldable pub hold_attempts : ℕ → ℕ → (ℕ → ℕ) → CreateBookingRequest → Quote → ℕ → ℕ → M Held
hold_attempts zero i codes r q id now = throw access_code_generation
hold_attempts (suc n) i codes r q id now =
    hold_with r q id now (codes i) catch on_collision (hold_attempts n (i + 1) codes r q id now)

unfoldable pub hold_with_access_code : (ℕ → ℕ) → CreateBookingRequest → Quote → ℕ → ℕ → M Held
unfolding hold_attempts
hold_with_access_code codes r q id now = hold_attempts access_code_attempts 0 codes r q id now

abbrev pub new_payment : ℕ → ℕ → ℕ → ℕ → ℕ → Payment
new_payment payment_id k amount currency ref = record {
  id = payment_id;
  booking_id = k;
  amount_cents = amount;
  currency = currency;
  provider_payment_id = some ref;
  status = PaymentStatus.pending;
}

-- `payment.create`: `bookingId` is unique.
abbrev pub create_payment : Payment → M (Unit {0})
create_payment p db = elim (payment_of p.booking_id db) [
  | none ↦ done tt (record db { payments = p ∷ db.payments })
  | some old ↦ thrown unique_booking_id db
]

-- `payment.upsert` with an empty update.
abbrev pub upsert_payment : Payment → M (Unit {0})
upsert_payment p db = elim (payment_of p.booking_id db) [
  | none ↦ done tt (record db { payments = p ∷ db.payments })
  | some old ↦ done tt db
]

abbrev pub base_result : Booking → ℕ → BookingResult
base_result b now = record {
  booking_id = b.id;
  access_code = b.access_code;
  expires_at = or_else b.expires_at now;
  amount_cents = b.quoted_price_cents;
  currency = b.currency;
  client_secret = none;
  already_existed = true;
}

-- The payment row's reference is given and is not that of the intent.
abbrev pub is_other_intent : Option Payment → Intent → Bool
is_other_intent none i = false
is_other_intent (some p) i = elim p.provider_payment_id [
  | none ↦ false
  | some ref ↦ not (ref == i.provider_payment_id)
]

abbrev pub heal_payment : Option Payment → Payment → M (Unit {0})
heal_payment none p = upsert_payment p
heal_payment (some old) p = return tt

unfoldable pub replay_booking_result : Provider → ℕ → Booking → Option Payment → ℕ → M BookingResult
replay_booking_result provider payment_id b payment now =
    if not (is_status b.status pending_payment) then return (base_result b now) else (do
      i ← found_or (provider b.id b.quoted_price_cents b.currency) provider_error
      if is_other_intent payment i then return (base_result b now) else (do
        heal_payment payment
            (new_payment payment_id b.id b.quoted_price_cents b.currency i.provider_payment_id)
        return (record (base_result b now) { client_secret = some i.client_secret })))

-- `findUnique({ where: { idempotencyKey } })`
abbrev pub by_key : ℕ → List Booking → Option Booking
by_key key [] = none
by_key key (b ∷ bs) = if has_key key b then some b else by_key key bs

-- The hold and what follows it.
unfoldable pub create_fresh :
    Provider → (ℕ → ℕ) → CreateBookingRequest → Quote → ℕ → ℕ → ℕ → M BookingResult
create_fresh provider codes r q id payment_id now = do
  unless_throw (not (ltb q.expires_at now)) quote_expired
  held ← hold_with_access_code codes r q id now
  i ← found_or (provider held.booking_id q.total_cents q.currency) provider_error
  create_payment
      (new_payment payment_id held.booking_id q.total_cents q.currency i.provider_payment_id)
  add_audit (some r.user_id) booking_created held.booking_id
  return (record {
    booking_id = held.booking_id;
    access_code = held.access_code;
    expires_at = held.expires_at;
    amount_cents = q.total_cents;
    currency = q.currency;
    client_secret = some i.client_secret;
    already_existed = false;
  })

unfoldable pub create_booking :
    Provider → (ℕ → ℕ) → CreateBookingRequest → Quote → ℕ → ℕ → ℕ → (Db → Db) → M BookingResult
create_booking provider codes r q id payment_id now others db =
    elim (by_key r.idempotency_key db.bookings) [
      | none ↦ create_fresh provider codes r q id payment_id now (others db)
      | some b ↦ replay_booking_result provider payment_id b (payment_of b.id db) now db
    ]
