-- ===== src/Lifecycle/Handlers.antt =====
-- Each request of src/booking keeps to the allowed changes of status.
use saprk_parking_api.Prelude.{
  ℕ, ◌≡◌, refl, ap, ◌∙◌, ◌⊎◌, inl, inr, Bool, true, some, List, [], ◌∷◌, arith, ◌==◌, ==_iff,
  Bool-cases, Option-cases,
}
use saprk_parking_api.Store.{
  BookingStatus, confirmed, refund_pending, expired, Booking, Payment, Db, is_status,
}
use saprk_parking_api.Store.Table.{find_row, update_row, find_row-update_row, find_row-key}
use saprk_parking_api.Store.Monad.{Thrown, Ran, done, thrown, after, booking_row}
use saprk_parking_api.Booking.Access.{AuthUser, assert_booking_access}
use saprk_parking_api.Booking.Confirm.{
  Capture, set_status, has_status, set_confirmed, capture_and_confirm,
}
use saprk_parking_api.Booking.Cancel.{
  RefundAnswer, threw, failed, under_way, succeeded, request_refund, settle_refund,
  refund_and_cancel,
}
use saprk_parking_api.Lifecycle.{IsKept, RowKept, RowsKept, RowKept-refl}

-- An update of one row keeps the rows if it keeps that row.
pub update_row-RowKept :
    (k j : ℕ) (f : Booking → Booking) (bs : List Booking) (b : Booking)
    → ((c : Booking) → (f c).id ≡ c.id)
    → find_row (λ (x : Booking). x.id) k bs ≡ some b
    → IsKept b (f b)
    → RowKept (find_row (λ x. x.id) j bs) (find_row (λ x. x.id) j (update_row (λ x. x.id) k f bs))
update_row-RowKept k j f bs b same found kept =
    rw (find_row-update_row (λ x. x.id) k j f bs same) (elim (Bool-cases (k == j)) [
      | inl e ↦
          let hit : find_row (λ (x : Booking). x.id) j bs ≡ some b =
            rw (← (==_iff k j).0 e) found in
          rw (e, hit) kept
      | inr e ↦ rw e (RowKept-refl _)
    ])

-- A confirmation, whatever the provider answers and with no other request in between, keeps every
-- booking's row, its facility, times, quote and owner, and moves its status along an allowed edge.
pub capture_and_confirm-RowsKept :
    (k now : ℕ) (capture : Capture) (secret : ℕ) (db : Db)
    → RowsKept db (after (capture_and_confirm k now (λ d. d) capture secret db))
unfolding capture_and_confirm
capture_and_confirm-RowsKept k now capture secret db j = elim (Option-cases (booking_row k db)) [
  | inl e ↦ rw e (RowKept-refl _)
  | inr (b, e) ↦ ground (
    arith,
    find_row-key (λ (x : Booking). x.id) k db.bookings b e,
    RowKept-refl (booking_row j db),
    update_row-RowKept k j (set_status expired) db.bookings b (λ c. refl) e,
    update_row-RowKept k j (set_confirmed b.quoted_price_cents secret) db.bookings b (λ c. refl) e,
  )
]

twice :
    (k : ℕ) (s t : BookingStatus) (bs : List Booking)
    → update_row (λ b. b.id) k (set_status t) (update_row (λ b. b.id) k (set_status s) bs)
      ≡ update_row (λ b. b.id) k (set_status t) bs
twice k s t [] = refl
twice k s t (b ∷ bs) = ground (arith, twice k s t bs)

-- The checks of access change nothing.
pub access-cases :
    (k : ℕ) (u : AuthUser) (w : Bool) (db : Db)
    → (assert_booking_access k u w db ≡ done tt db)
      ⊎ ((e : Thrown) × (assert_booking_access k u w db ≡ thrown e db))
unfolding assert_booking_access
access-cases k u w db = ground arith

-- Settling a refund leaves the bookings, or marks this one refunded.
settle_refund-bookings :
    (b : Booking) (p : Payment) (u : AuthUser) (answer : RefundAnswer) (db : Db)
    → ((after (settle_refund b p u answer db)).bookings ≡ db.bookings)
      ⊎ ((has_status refund_pending (booking_row b.id db) ≡ true)
          × ((after (settle_refund b p u answer db)).bookings
              ≡ update_row (λ x. x.id) b.id (set_status BookingStatus.refunded) db.bookings))
unfolding settle_refund
settle_refund-bookings b p u threw db = ground arith
settle_refund-bookings b p u failed db = ground arith
settle_refund-bookings b p u (under_way ref) db = ground arith
settle_refund-bookings b p u (succeeded ref) db = ground arith

-- Phase 1 leaves everything, or marks this booking as waiting for its refund.
request_refund-cases :
    (b : Booking) (p : Payment) (u : AuthUser) (db : Db)
    → ((db1 : Db) × (request_refund b p u db ≡ done tt db1)
        × (has_status confirmed (booking_row b.id db) ≡ true)
        × (db1.bookings ≡ update_row (λ x. x.id) b.id (set_status refund_pending) db.bookings))
      ⊎ ((e : Thrown) × (request_refund b p u db ≡ thrown e db))
request_refund-cases b p u db = first (request_refund b p u db) refl
  where
    first :
        (r : Ran (Unit {0}))
        → request_refund b p u db ≡ r
        → ((db1 : Db) × (request_refund b p u db ≡ done tt db1)
            × (has_status confirmed (booking_row b.id db) ≡ true)
            × (db1.bookings ≡ update_row (λ x. x.id) b.id (set_status refund_pending) db.bookings))
          ⊎ ((e : Thrown) × (request_refund b p u db ≡ thrown e db))
    first (done a db1) q = inl (
      db1,
      ground arith,
      unfold request_refund in ground arith,
      unfold request_refund in ground arith,
    )
    first (thrown e db1) q = inr (e, unfold request_refund in ground arith)

-- The bookings after a refund was asked for: as they were, or this one waiting, or refunded.
abbrev pub RefundLeaves : Booking → Db → Db → Type 0
RefundLeaves b db db' =
    (db'.bookings ≡ db.bookings)
    ⊎ ((is_status b.status confirmed ≡ true)
        × (db'.bookings ≡ update_row (λ x. x.id) b.id (set_status refund_pending) db.bookings))
    ⊎ (db'.bookings ≡ update_row (λ x. x.id) b.id (set_status BookingStatus.refunded) db.bookings)

settled-twice :
    (b : Booking) (p : Payment) (u : AuthUser) (answer : RefundAnswer) (db db1 : Db)
    → is_status b.status confirmed ≡ true
    → db1.bookings ≡ update_row (λ x. x.id) b.id (set_status refund_pending) db.bookings
    → RefundLeaves b db (after (settle_refund b p u answer db1))
settled-twice b p u answer db db1 was eq1 = elim (settle_refund-bookings b p u answer db1) [
  | inl q ↦ inr (inl (was, q ∙ eq1))
  | inr (_, q) ↦ inr (
      inr (
        q
        ∙ ap (update_row (λ x. x.id) b.id (set_status BookingStatus.refunded)) eq1
        ∙ twice b.id refund_pending BookingStatus.refunded db.bookings))
]

settled-once :
    (b : Booking) (p : Payment) (u : AuthUser) (answer : RefundAnswer) (db : Db)
    → RefundLeaves b db (after (settle_refund b p u answer db))
settled-once b p u answer db = elim (settle_refund-bookings b p u answer db) [
  | inl q ↦ inl q
  | inr (_, q) ↦ inr (inr q)
]

pub refund_and_cancel-leaves :
    (b : Booking) (p : Payment) (u : AuthUser) (answer : RefundAnswer) (db : Db)
    → RefundLeaves b db (after (refund_and_cancel b p u (λ d. d) answer db))
unfolding refund_and_cancel
refund_and_cancel-leaves b p u answer db = elim (Bool-cases (is_status b.status confirmed)) [
  | inl was ↦ elim (request_refund-cases b p u db) [
    | inl (db1, run, _, eq1) ↦ ground (arith, settled-twice b p u answer db db1 was eq1)
    | inr (err, run) ↦ ground (arith, settled-once b p u answer db)
  ]
  | inr other ↦ ground (arith, settled-once b p u answer db)
]
