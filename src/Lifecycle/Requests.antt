-- ===== src/Lifecycle/Requests.antt =====
-- The rows of bookings over a cancel, a check-in and a check-out (src/booking/booking.service.ts).
use saprk_parking_api.Prelude.{ℕ, ◌≡◌, refl, inl, inr, true, Option, some, arith, Option-cases}
use saprk_parking_api.Store.{
  BookingStatus, checked_in, cancelled, refund_pending, Booking, Payment, Db,
}
use saprk_parking_api.Store.Table.{find_row-key}
use saprk_parking_api.Store.Monad.{after, booking_row, payment_of}
use saprk_parking_api.Booking.Access.{AuthUser}
use saprk_parking_api.Booking.Confirm.{set_status}
use saprk_parking_api.Booking.Cancel.{
  RefundAnswer, refundable, refund_and_cancel, cancel_unpaid, is_cancellable, cancel_booking,
}
use saprk_parking_api.Booking.Stay.{
  PinnedPricing, reprice_stay, set_checked_out, check_in, check_out,
}
use saprk_parking_api.Lifecycle.{allowed, RowKept, RowsKept, RowKept-refl}
use saprk_parking_api.Lifecycle.Handlers.{
  update_row-RowKept, access-cases, RefundLeaves, refund_and_cancel-leaves,
}

refundable-allowed :
    (b : Booking) (o : Option Payment) (p : Payment)
    → refundable b.status o ≡ some p
    → allowed b.status BookingStatus.refunded ≡ true
refundable-allowed b o p h = ground arith

leaves-RowKept :
    (k j : ℕ) (b : Booking) (db db' : Db)
    → booking_row k db ≡ some b
    → allowed b.status BookingStatus.refunded ≡ true
    → RefundLeaves b db db'
    → RowKept (booking_row j db) (booking_row j db')
leaves-RowKept k j b db db' e ok (inl q) = rw q (RowKept-refl _)
leaves-RowKept k j b db db' e ok (inr (inl (was, q))) =
    rw (q, find_row-key (λ (x : Booking). x.id) k db.bookings b e)
      (update_row-RowKept k j (set_status refund_pending) db.bookings b (λ c. refl) e
        (ground arith))
leaves-RowKept k j b db db' e ok (inr (inr q)) =
    rw (q, find_row-key (λ (x : Booking). x.id) k db.bookings b e)
      (update_row-RowKept k j (set_status BookingStatus.refunded) db.bookings b (λ c. refl) e
        (ground arith))

cancel_unpaid-RowKept :
    (k j : ℕ) (b : Booking) (u : AuthUser) (db : Db)
    → booking_row k db ≡ some b
    → is_cancellable b.status ≡ true
    → RowKept (booking_row j db) (booking_row j (after (cancel_unpaid b.id u db)))
unfolding cancel_unpaid
cancel_unpaid-RowKept k j b u db e ok = ground (
  arith,
  find_row-key (λ (x : Booking). x.id) k db.bookings b e,
  update_row-RowKept k j (set_status cancelled) db.bookings b (λ c. refl) e,
)

-- A cancel, whatever the provider answers about the refund and with no other request in between,
-- keeps every booking's row and moves its status along an allowed edge.
pub cancel_booking-RowsKept :
    (k : ℕ) (u : AuthUser) (answer : RefundAnswer) (db : Db)
    → RowsKept db (after (cancel_booking k u (λ d. d) (λ d. d) answer db))
unfolding cancel_booking
cancel_booking-RowsKept k u answer db j = elim (access-cases k u true db) [
  | inr (err, no_access) ↦ ground (arith, RowKept-refl (booking_row j db))
  | inl access ↦ elim (Option-cases (booking_row k db)) [
    | inl e ↦ ground (arith, RowKept-refl (booking_row j db))
    | inr (b, e) ↦ elim (Option-cases (refundable b.status (payment_of k db))) [
      | inl free ↦
          ground (arith, RowKept-refl (booking_row j db), cancel_unpaid-RowKept k j b u db e)
      | inr (p, paid) ↦ ground (
        arith,
        RowKept-refl (booking_row j db),
        leaves-RowKept k j b db (after (refund_and_cancel b p u (λ d. d) answer db)) e
            (refundable-allowed b (payment_of k db) p paid)
            (refund_and_cancel-leaves b p u answer db),
      )
    ]
  ]
]

-- A check-in keeps every booking's row and moves its status along an allowed edge.
pub check_in-RowsKept : (k : ℕ) (u : AuthUser) (db : Db) → RowsKept db (after (check_in k u db))
unfolding check_in
check_in-RowsKept k u db j = elim (Option-cases (booking_row k db)) [
  | inl e ↦ ground (arith, RowKept-refl (booking_row j db))
  | inr (b, e) ↦ ground (
    arith,
    RowKept-refl (booking_row j db),
    update_row-RowKept k j (set_status checked_in) db.bookings b (λ c. refl) e,
  )
]

-- A check-out, with no other request while the stay is priced, keeps every booking's row and moves
-- its status along an allowed edge.
pub check_out-RowsKept :
    (pricing : PinnedPricing) (k : ℕ) (u : AuthUser) (now : ℕ) (db : Db)
    → RowsKept db (after (check_out pricing k u now (λ d. d) db))
unfolding check_out
check_out-RowsKept pricing k u now db j = elim (Option-cases (booking_row k db)) [
  | inl e ↦ ground (arith, RowKept-refl (booking_row j db))
  | inr (b, e) ↦ ground (
    arith,
    RowKept-refl (booking_row j db),
    update_row-RowKept k j (set_checked_out (reprice_stay pricing b now)) db.bookings b (λ c. refl)
        e,
  )
]
