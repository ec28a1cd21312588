-- ===== src/Lifecycle/Runs.antt =====
-- Sequences of requests, each run to its end before the next (src/booking, src/inventory).
use saprk_parking_api.Prelude.{
  ℕ, ◌≡◌, refl, ap, ◌∙◌, Bool, true, false, Option, none, some, Text, arith,
}
use saprk_parking_api.Store.{BookingStatus, checked_out, cancelled, expired, Booking, Db}
use saprk_parking_api.Store.Monad.{after, booking_row}
use saprk_parking_api.Inventory.{release_expired_holds}
use saprk_parking_api.Booking.Access.{AuthUser}
use saprk_parking_api.Booking.Confirm.{Capture, capture_and_confirm}
use saprk_parking_api.Booking.Cancel.{RefundAnswer, cancel_booking}
use saprk_parking_api.Booking.Stay.{PinnedPricing, check_in, check_out}
use saprk_parking_api.Booking.Create.{Quote, CreateBookingRequest, Provider, create_booking}
use saprk_parking_api.PaymentEvents.{PaymentWebhookEvent}
use saprk_parking_api.PaymentEvents.Process.{process}
use saprk_parking_api.Ticket.Replay.{Redis}
use saprk_parking_api.Ticket.Scan.{verify_qr, verify_access_code}
use saprk_parking_api.Lifecycle.Scans.{verify_qr-RowsKept, verify_access_code-RowsKept}
use saprk_parking_api.Lifecycle.{IsKept, RowKept, RowsKept}
use saprk_parking_api.Lifecycle.Handlers.{capture_and_confirm-RowsKept}
use saprk_parking_api.Lifecycle.Requests.{
  cancel_booking-RowsKept, check_in-RowsKept, check_out-RowsKept,
}
use saprk_parking_api.Lifecycle.Webhooks.{process-RowsKept}
use saprk_parking_api.Lifecycle.Holds.{create_booking-RowsKept, release_expired_holds-RowsKept}

-- One request, with all that it takes from outside, and the tables after it, returned or thrown.
pub data Step : Db → Db → Type 1 where
  create :
      (provider : Provider) (codes : ℕ → ℕ) (r : CreateBookingRequest) (q : Quote)
      (id payment_id now : ℕ) (db : Db)
      → Step db (after (create_booking provider codes r q id payment_id now (λ d. d) db))
  confirm :
      (k now : ℕ) (capture : Capture) (secret : ℕ) (db : Db)
      → Step db (after (capture_and_confirm k now (λ d. d) capture secret db))
  cancel :
      (k : ℕ) (u : AuthUser) (answer : RefundAnswer) (db : Db)
      → Step db (after (cancel_booking k u (λ d. d) (λ d. d) answer db))
  enter : (k : ℕ) (u : AuthUser) (db : Db) → Step db (after (check_in k u db))
  leave :
      (pricing : PinnedPricing) (k : ℕ) (u : AuthUser) (now : ℕ) (db : Db)
      → Step db (after (check_out pricing k u now (λ d. d) db))
  webhook :
      (e : PaymentWebhookEvent) (now secret : ℕ) (db : Db)
      → Step db (after (process e now secret db))
  scan :
      (redis : Redis) (hmac : ℕ → Text → Text) (id_text : ℕ → Text) (u : AuthUser) (payload : Text)
      (auto : Bool) (now : ℕ) (s : redis.State) (db : Db)
      → Step db (after (verify_qr redis hmac id_text u payload auto now (λ d. d) s db).0)
  read_code :
      (u : AuthUser) (code : ℕ) (auto : Bool) (db : Db)
      → Step db (after (verify_access_code u code auto (λ d. d) db))
  sweep : (now : ℕ) (db : Db) → Step db (after (release_expired_holds now db))

pub data Run : Db → Db → Type 1 where
  stop : (db : Db) → Run db db
  go : {a b c : Db} → Step a b → Run b c → Run a c

Step-RowsKept : {a b : Db} → Step a b → RowsKept a b
Step-RowsKept (create provider codes r q id payment_id now db) =
    create_booking-RowsKept provider codes r q id payment_id now db
Step-RowsKept (confirm k now capture secret db) =
    capture_and_confirm-RowsKept k now capture secret db
Step-RowsKept (cancel k u answer db) = cancel_booking-RowsKept k u answer db
Step-RowsKept (enter k u db) = check_in-RowsKept k u db
Step-RowsKept (leave pricing k u now db) = check_out-RowsKept pricing k u now db
Step-RowsKept (webhook e now secret db) = process-RowsKept e now secret db
Step-RowsKept (scan redis hmac id_text u payload auto now s db) =
    verify_qr-RowsKept redis hmac id_text u payload auto now s db
Step-RowsKept (read_code u code auto db) = verify_access_code-RowsKept u code auto db
Step-RowsKept (sweep now db) = release_expired_holds-RowsKept now db

-- The statuses that nothing leaves.
abbrev pub is_final : BookingStatus → Bool
is_final checked_out = true
is_final cancelled = true
is_final expired = true
is_final BookingStatus.refunded = true
is_final _ = false

-- What every run keeps of a row.
pub record IsFixed (b c : Booking) : Type 0 where
  pub place : c.facility_id ≡ b.facility_id
  pub start : c.starts_at ≡ b.starts_at
  pub end : c.ends_at ≡ b.ends_at
  pub quoted : c.quoted_price_cents ≡ b.quoted_price_cents
  pub owner : c.user_id ≡ b.user_id

row-IsKept :
    (o : Option Booking) (r : Booking)
    → RowKept (some r) o
    → (s : Booking) × (o ≡ some s) × IsKept r s
row-IsKept none r kept = elim kept [ ]
row-IsKept (some s) r kept = (s, refl, kept)

Step-row :
    {a b : Db} (k : ℕ) (r : Booking)
    → Step a b
    → booking_row k a ≡ some r
    → (s : Booking) × (booking_row k b ≡ some s) × IsKept r s
Step-row {a} {b} k r step found =
    row-IsKept (booking_row k b) r (rw found at (Step-RowsKept step k))

final-IsKept : (r s : Booking) → IsKept r s → is_final r.status ≡ true → s.status ≡ r.status
final-IsKept r s kept final = ground (arith, kept.by_edge)

-- Over every run of requests, each of which returns or throws before the next begins, a booking
-- stays in its table with its facility, times, quote and owner.
pub Run-IsFixed :
    {a b : Db} (k : ℕ) (r : Booking)
    → Run a b
    → booking_row k a ≡ some r
    → (s : Booking) × (booking_row k b ≡ some s) × IsFixed r s
Run-IsFixed k r (stop db) found = (r, found, ground arith)
Run-IsFixed k r (go step rest) found =
    let (s, here, first) = Step-row k r step found in
    let (t, there, later) = Run-IsFixed k s rest here in
    (
      t,
      there,
      record {
        place = later.place ∙ first.facility;
        start = later.start ∙ first.start;
        end = later.end ∙ first.end;
        quoted = later.quoted ∙ first.quoted;
        owner = later.owner ∙ first.owner;
      },
    )

-- Over every run of requests, each of which returns or throws before the next begins, a booking that
-- is checked out, cancelled, expired or refunded keeps that status.
pub Run-final :
    {a b : Db} (k : ℕ) (r : Booking)
    → Run a b
    → booking_row k a ≡ some r
    → is_final r.status ≡ true
    → (s : Booking) × (booking_row k b ≡ some s) × (s.status ≡ r.status)
Run-final k r (stop db) found final = (r, found, refl)
Run-final k r (go step rest) found final =
    let (s, here, first) = Step-row k r step found in
    let same = final-IsKept r s first final in
    let (t, there, later) = Run-final k s rest here (ap is_final same ∙ final) in
    (t, there, later ∙ same)
