-- ===== src/Store/Monad.antt =====
-- Handlers over the tables: they return or throw, and in both cases leave tables behind. A
-- transaction that throws leaves those that it began with.
use saprk_parking_api.Prelude.{
  ℕ, ◌≡◌, refl, ◌⊎◌, inl, inr, Bool, true, false, Option, none, some, ◌∷◌,
}
use saprk_parking_api.Store.{BookingStatus, Booking, Payment, Refund, AuditAction, Notice, Db}
use saprk_parking_api.Store.Table.{find_row, update_row}

-- The errors of src/common/errors/domain.errors.ts that these handlers throw, the two errors of the
-- database client that they can meet, and a provider call that throws.
pub data Thrown : Type 0 where
  booking_not_found facility_not_bookable no_availability quote_expired : Thrown
  status_transition : Option BookingStatus → BookingStatus → Thrown
  refund_failed idempotency_conflict access_code_generation : Thrown
  unique_id unique_idempotency_key unique_access_code unique_booking_id unique_event : Thrown
  operator_context_required operator_not_found forbidden : Thrown
  row_missing provider_error not_priced : Thrown
  malformed_ticket ticket_not_found ticket_verification_unavailable ticket_not_issuable : Thrown

pub data Ran {ℓ} (A : Type ℓ) : Type ℓ where
  done : A → Db → Ran A
  thrown : Thrown → Db → Ran A

-- The tables that a run leaves behind.
abbrev pub after {ℓ} : {A : Type ℓ} → Ran A → Db
after (done a db) = db
after (thrown e db) = db

abbrev pub M {ℓ} : Type ℓ → Type ℓ
M A = Db → Ran A

infixl 5 ◌>>=◌ ◌>>◌
abbrev pub ◌>>=◌ {ℓ κ} : {A : Type ℓ} {B : Type κ} → M A → (A → M B) → M B
◌>>=◌ m f db = elim (m db) [ done a db' ↦ f a db' | thrown e db' ↦ thrown e db' ]

abbrev pub ◌>>◌ {ℓ} : {B : Type ℓ} → M (Unit {0}) → M B → M B
m >> k = m >>= λ _. k

abbrev pub return {ℓ} : {A : Type ℓ} → A → M A
return a db = done a db

abbrev pub throw {ℓ} : {A : Type ℓ} → Thrown → M A
throw e db = thrown e db

abbrev pub unless_throw : Bool → Thrown → M (Unit {0})
unless_throw true e = return tt
unless_throw false e = throw e

-- `if (!row) throw`
abbrev pub found_or {ℓ} : {A : Type ℓ} → Option A → Thrown → M A
found_or none e = throw e
found_or (some a) e = return a

abbrev pub tables : M Db
tables db = done db db

abbrev pub transaction {ℓ} : {A : Type ℓ} → M A → M A
transaction m db = elim (m db) [ done a db' ↦ done a db' | thrown e db' ↦ thrown e db ]

-- `try { … } catch`
infixl 4 ◌catch◌
abbrev pub ◌catch◌ {ℓ} : {A : Type ℓ} → M A → (Thrown → M A) → M A
◌catch◌ m f db = elim (m db) [ done a db' ↦ done a db' | thrown e db' ↦ f e db' ]

-- What other requests commit while this one waits.
abbrev pub meanwhile : (Db → Db) → M (Unit {0})
meanwhile other db = done tt (other db)

abbrev pub booking_row : ℕ → Db → Option Booking
booking_row k db = find_row (λ (b : Booking). b.id) k db.bookings

abbrev pub payment_row : ℕ → Db → Option Payment
payment_row k db = find_row (λ (p : Payment). p.id) k db.payments

-- The payment and the refund of a booking: `bookingId` is unique in both tables.
abbrev pub payment_of : ℕ → Db → Option Payment
payment_of k db = find_row (λ (p : Payment). p.booking_id) k db.payments

abbrev pub refund_of : ℕ → Db → Option Refund
refund_of k db = find_row (λ (r : Refund). r.booking_id) k db.refunds

-- An update of a row that is not there throws.
abbrev pub if_there {ℓ} : {A : Type ℓ} → Option A → Db → M (Unit {0})
if_there none db' db = thrown row_missing db
if_there (some a) db' db = done tt db'

abbrev pub update_booking : ℕ → (Booking → Booking) → M (Unit {0})
update_booking k f db =
    if_there (booking_row k db) (record db { bookings = update_row (λ b. b.id) k f db.bookings }) db

abbrev pub update_payment : ℕ → (Payment → Payment) → M (Unit {0})
update_payment k f db =
    if_there (payment_row k db) (record db { payments = update_row (λ p. p.id) k f db.payments }) db

abbrev pub update_refund : ℕ → (Refund → Refund) → M (Unit {0})
update_refund k f db =
    if_there (refund_of k db)
      (record db { refunds = update_row (λ r. r.booking_id) k f db.refunds }) db

-- `statusHistory: { create: … }`
abbrev pub add_history : ℕ → BookingStatus → Option ℕ → M (Unit {0})
add_history k status changed_by db = done tt (record db {
  history = record { booking_id = k; status = status; changed_by = changed_by } ∷ db.history;
})

abbrev pub add_audit : Option ℕ → AuditAction → ℕ → M (Unit {0})
add_audit actor action k db =
    done tt
      (record db { audit = record { actor_id = actor; action = action; entity_id = k } ∷ db.audit })

abbrev pub notify : Notice → M (Unit {0})
notify n db = done tt (record db { outbox = n ∷ db.outbox })

pub Ran-cases {ℓ} :
    {A : Type ℓ} (r : Ran A)
    → ((a : A) × (db : Db) × (r ≡ done a db)) ⊎ ((e : Thrown) × (db : Db) × (r ≡ thrown e db))
Ran-cases (done a db) = inl (a, db, refl)
Ran-cases (thrown e db) = inr (e, db, refl)
