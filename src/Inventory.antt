-- ===== src/Inventory.antt =====
-- Slots of a facility (src/inventory/inventory.service.ts). `now` is the reading of the clock.
pub mod Oversell
pub mod Grouped
use saprk_parking_api.Prelude.{
  ℕ, ◌+◌, ◌-◌, ◌*◌, Bool, true, false, not, ◌&&◌, ◌||◌, Option, none, some, List, [], ◌∷◌, ltb, leb,
  ◌==◌, if◌then◌else◌, count_if, map,
}
use saprk_parking_api.Store.{
  BookingStatus, pending_payment, confirmed, checked_in, expired, FacilityKind, business, Facility,
  Booking, Db, is_status, default_currency,
}
use saprk_parking_api.Store.Table.{find_row}
use saprk_parking_api.Store.Monad.{
  Thrown, facility_not_bookable, no_availability, unique_id, unique_idempotency_key,
  unique_access_code, M, ◌>>=◌, ◌>>◌, return, throw, unless_throw, found_or, tables, transaction,
  add_history, done,
}

abbrev pub booking_hold_minutes : ℕ
booking_hold_minutes = 10

-- `status: { in: [CONFIRMED, PENDING_PAYMENT, CHECKED_IN] }`
unfoldable pub takes_slot : BookingStatus → Bool
takes_slot confirmed = true
takes_slot pending_payment = true
takes_slot checked_in = true
takes_slot _ = false

-- `expiresAt < now`, false on null.
abbrev pub is_past : Option ℕ → ℕ → Bool
is_past none now = false
is_past (some t) now = ltb t now

-- `NOT: { AND: [{ status: PENDING_PAYMENT }, { expiresAt: { lt: now } }] }`. In SQL a pending row
-- with no expiry compares as unknown, and is not selected.
unfoldable pub hold_stands : BookingStatus → Option ℕ → ℕ → Bool
hold_stands pending_payment none now = false
hold_stands pending_payment (some t) now = not (ltb t now)
hold_stands _ expires_at now = true

abbrev pub is_overlap : ℕ → ℕ → Booking → Bool
is_overlap starts_at ends_at b = ltb b.starts_at ends_at && ltb starts_at b.ends_at

-- The `where` clause of the overlap count.
unfoldable pub is_counted : ℕ → ℕ → ℕ → ℕ → Booking → Bool
unfolding takes_slot hold_stands
is_counted facility_id starts_at ends_at now b =
    (b.facility_id == facility_id && takes_slot b.status)
    && (hold_stands b.status b.expires_at now && is_overlap starts_at ends_at b)

unfoldable pub count_overlapping_bookings : ℕ → ℕ → ℕ → ℕ → List Booking → ℕ
count_overlapping_bookings facility_id starts_at ends_at now =
    count_if (is_counted facility_id starts_at ends_at now)

pub record AvailabilityResult : Type 0 where
  pub available : Bool
  pub online_quota : ℕ
  pub overlapping_count : ℕ
  pub remaining_slots : ℕ

-- `remainingSlots > 0` and `Math.max(0, remainingSlots)`, where the difference may be negative.
unfoldable pub check_availability : ℕ → ℕ → ℕ → ℕ → Db → AvailabilityResult
unfolding count_overlapping_bookings
check_availability facility_id starts_at ends_at now db =
    elim (find_row (λ (f : Facility). f.id) facility_id db.facilities) [
      | none ↦ record {
        available = false;
        online_quota = 0;
        overlapping_count = 0;
        remaining_slots = 0;
      }
      | some f ↦
          let overlapping =
            count_overlapping_bookings facility_id starts_at ends_at now db.bookings in
          record {
            available = ltb overlapping f.online_quota;
            online_quota = f.online_quota;
            overlapping_count = overlapping;
            remaining_slots = f.online_quota - overlapping;
          }
    ]

pub record HoldRequest : Type 0 where
  pub facility_id : ℕ
  pub starts_at : ℕ
  pub ends_at : ℕ
  pub quoted_price_cents : ℕ
  pub discount_cents : ℕ
  pub access_code : ℕ
  pub tariff_plan_id : ℕ
  pub tariff_plan_version : ℕ
  pub user_id : ℕ
  pub idempotency_key : ℕ

abbrev pub is_bookable : Facility → Bool
is_bookable f = elim f.kind [ business ↦ f.is_active && f.is_published | _ ↦ false ]

abbrev pub has_key : ℕ → Booking → Bool
has_key k b = elim b.idempotency_key [ none ↦ false | some j ↦ j == k ]

abbrev pub exists_row : (Booking → Bool) → List Booking → Bool
exists_row test [] = false
exists_row test (b ∷ bs) = test b || exists_row test bs

-- The row that a hold creates. Its id is the database's, `id` here; the call gives no currency, so
-- that column takes the default of the schema.
abbrev pub held_booking : ℕ → HoldRequest → ℕ → Booking
held_booking id p now = record {
  id = id;
  facility_id = p.facility_id;
  user_id = p.user_id;
  status = pending_payment;
  starts_at = p.starts_at;
  ends_at = p.ends_at;
  expires_at = some (now + booking_hold_minutes * 60_000);
  quoted_price_cents = p.quoted_price_cents;
  discount_cents = p.discount_cents;
  final_price_cents = none;
  price_adjustment_cents = none;
  currency = default_currency;
  access_code = p.access_code;
  idempotency_key = some p.idempotency_key;
  qr_secret = none;
  tariff_plan_id = some p.tariff_plan_id;
  tariff_plan_version = some p.tariff_plan_version;
}

-- `booking.create` throws if a unique column is taken: the id, or one of the other two, of which the
-- idempotency key is reported here where both are (the unique columns of prisma/schema.prisma).
abbrev pub create_booking_row : Booking → ℕ → ℕ → M (Unit {0})
create_booking_row b key code db =
    (do
      unless_throw (not (exists_row (λ o. o.id == b.id) db.bookings)) unique_id
      unless_throw (not (exists_row (has_key key) db.bookings)) unique_idempotency_key
      unless_throw (not (exists_row (λ o. o.access_code == code) db.bookings)) unique_access_code
      λ db'. done tt (record db' { bookings = b ∷ db'.bookings }))
      db

-- The body of the transaction: the row lock on the facility makes it one step.
unfoldable pub hold_slot : ℕ → HoldRequest → ℕ → M (ℕ × ℕ)
unfolding count_overlapping_bookings
hold_slot id p now = transaction (do
  db ← tables
  facility ←
      found_or (find_row (λ (f : Facility). f.id) p.facility_id db.facilities) facility_not_bookable
  unless_throw (is_bookable facility) facility_not_bookable
  unless_throw
      (ltb (count_overlapping_bookings p.facility_id p.starts_at p.ends_at now db.bookings)
        facility.online_quota)
      no_availability
  create_booking_row (held_booking id p now) p.idempotency_key p.access_code
  add_history id pending_payment none
  return (id, now + booking_hold_minutes * 60_000))

abbrev pub is_expired_hold : ℕ → Booking → Bool
is_expired_hold now b = is_status b.status pending_payment && is_past b.expires_at now

unfoldable pub release_expired : ℕ → Booking → Booking
release_expired now b = if is_expired_hold now b then record b { status = expired } else b

-- Returns how many holds it released.
unfoldable pub release_expired_holds : ℕ → M ℕ
unfolding release_expired
release_expired_holds now db =
    done (count_if (is_expired_hold now) db.bookings)
      (record db { bookings = map (release_expired now) db.bookings })
