-- ===== src/Store.antt =====
-- The rows that bookings and payments live in (the models Facility, Booking, Payment, Refund,
-- WebhookEvent and AuditLog of prisma/schema.prisma, as far as the handlers read and write them).
-- Ids, codes and external references are numbers; a date is a number of milliseconds.
pub mod Table
pub mod Rows
pub mod Monad
use saprk_parking_api.Prelude.{ℕ, Bool, true, false, Option, none, some, List, ◌==◌}
use saprk_parking_api.Prelude.Int.{ℤ}

pub data BookingStatus : Type 0 where
  pending_payment confirmed checked_in checked_out cancelled expired refund_pending refunded :
      BookingStatus

pub data PaymentStatus : Type 0 where
  pending succeeded failed refunded partially_refunded : PaymentStatus

pub data RefundStatus : Type 0 where
  pending succeeded failed : RefundStatus

pub data FacilityKind : Type 0 where
  business free_public restricted : FacilityKind

abbrev status_code : BookingStatus → ℕ
status_code pending_payment = 0
status_code confirmed = 1
status_code checked_in = 2
status_code checked_out = 3
status_code cancelled = 4
status_code expired = 5
status_code refund_pending = 6
status_code BookingStatus.refunded = 7

-- `===` on statuses.
abbrev pub is_status : BookingStatus → BookingStatus → Bool
is_status a b = status_code a == status_code b

pub record Facility : Type 0 where
  pub id : ℕ
  pub operator_id : Option ℕ
  pub online_quota : ℕ
  pub is_active : Bool
  pub is_published : Bool
  pub kind : FacilityKind

pub record Booking : Type 0 where
  pub id : ℕ
  pub facility_id : ℕ
  pub user_id : ℕ
  pub status : BookingStatus
  pub starts_at : ℕ
  pub ends_at : ℕ
  pub expires_at : Option ℕ
  pub quoted_price_cents : ℕ
  pub discount_cents : ℕ
  pub final_price_cents : Option ℕ
  pub price_adjustment_cents : Option ℤ
  pub currency : ℕ
  pub access_code : ℕ
  pub idempotency_key : Option ℕ
  pub qr_secret : Option ℕ
  pub tariff_plan_id : Option ℕ
  pub tariff_plan_version : Option ℕ

pub record Payment : Type 0 where
  pub id : ℕ
  pub booking_id : ℕ
  pub amount_cents : ℕ
  pub currency : ℕ
  pub provider_payment_id : Option ℕ
  pub status : PaymentStatus

-- `bookingId` is unique on a refund, and stands for its id here.
pub record Refund : Type 0 where
  pub booking_id : ℕ
  pub payment_id : ℕ
  pub amount_cents : ℕ
  pub status : RefundStatus
  pub provider_refund_id : Option ℕ

-- A row of the status history; `changed_by` is null where the system changed it.
pub record HistoryRow : Type 0 where
  pub booking_id : ℕ
  pub status : BookingStatus
  pub changed_by : Option ℕ

pub data AuditAction : Type 0 where
  booking_created booking_confirmed booking_cancelled booking_refund_requested
        booking_refund_failed :
      AuditAction
  booking_refunded booking_checked_in booking_checked_out booking_payment_failed : AuditAction
  succeeded_after_final_state succeeded_after_expiry refunded_externally : AuditAction

pub record AuditRow : Type 0 where
  pub actor_id : Option ℕ
  pub action : AuditAction
  pub entity_id : ℕ

pub data Notice : Type 0 where
  confirmation confirmation_push cancellation : ℕ → Notice

-- `outcome` is null until the handler has run.
pub record WebhookEvent {ℓ} (O : Type ℓ) : Type ℓ where
  pub provider_event_id : ℕ
  pub outcome : Option O

pub data PaymentEventOutcome : Type 0 where
  processed duplicate unknown_type unmatched_payment already_applied stale needs_reconciliation :
      PaymentEventOutcome

-- `currency String @default("EUR")`: the default of the column, as an ISO 4217 number.
abbrev pub default_currency : ℕ
default_currency = 978

-- The tables, and the notifications handed to the notification service so far.
pub record Db : Type 0 where
  pub facilities : List Facility
  pub bookings : List Booking
  pub payments : List Payment
  pub refunds : List Refund
  pub history : List HistoryRow
  pub audit : List AuditRow
  pub webhook_events : List (WebhookEvent PaymentEventOutcome)
  pub outbox : List Notice
