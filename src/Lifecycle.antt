-- ===== src/Lifecycle.antt =====
-- How a booking's row may change over the requests of src/booking and src/inventory.
pub mod Handlers
pub mod Requests
pub mod Webhooks
pub mod Holds
pub mod Scans
pub mod Runs
use saprk_parking_api.Prelude.{
  ℕ, ◌≡◌, refl, Bool, true, false, Option, none, some, List, [], ◌∷◌, arith, ◌==◌,
}
use saprk_parking_api.Store.{
  BookingStatus, pending_payment, confirmed, checked_in, checked_out, cancelled, expired,
  refund_pending, Booking, Db,
}
use saprk_parking_api.Store.Monad.{booking_row}

-- The changes of status that the code makes, and none.
abbrev pub allowed : BookingStatus → BookingStatus → Bool
allowed pending_payment checked_in = false
allowed pending_payment checked_out = false
allowed pending_payment refund_pending = false
allowed pending_payment BookingStatus.refunded = false
allowed pending_payment _ = true
allowed confirmed pending_payment = false
allowed confirmed checked_out = false
allowed confirmed expired = false
allowed confirmed _ = true
allowed checked_in checked_in = true
allowed checked_in checked_out = true
allowed checked_in _ = false
allowed refund_pending refund_pending = true
allowed refund_pending cancelled = true
allowed refund_pending BookingStatus.refunded = true
allowed refund_pending _ = false
allowed checked_out checked_out = true
allowed checked_out _ = false
allowed cancelled cancelled = true
allowed cancelled _ = false
allowed expired expired = true
allowed expired _ = false
allowed BookingStatus.refunded BookingStatus.refunded = true
allowed BookingStatus.refunded _ = false

-- What stays of a row, and how its status may change.
pub record IsKept (b c : Booking) : Type 0 where
  pub by_edge : allowed b.status c.status ≡ true
  pub facility : c.facility_id ≡ b.facility_id
  pub start : c.starts_at ≡ b.starts_at
  pub end : c.ends_at ≡ b.ends_at
  pub quoted : c.quoted_price_cents ≡ b.quoted_price_cents
  pub owner : c.user_id ≡ b.user_id

-- A row that is there stays, and changes only so.
abbrev pub RowKept : Option Booking → Option Booking → Type 0
RowKept none after = Unit
RowKept (some b) none = ⊥
RowKept (some b) (some c) = IsKept b c

abbrev pub RowsKept : Db → Db → Type 0
RowsKept db db' = (k : ℕ) → RowKept (booking_row k db) (booking_row k db')

pub IsKept-refl : (b : Booking) → IsKept b b
IsKept-refl b = ground arith

pub RowKept-refl : (o : Option Booking) → RowKept o o
RowKept-refl none = tt
RowKept-refl (some b) = IsKept-refl b
