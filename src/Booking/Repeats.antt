-- ===== src/Booking/Repeats.antt =====
-- Requests of src/booking/booking.service.ts that are sent twice or overlap others, and who is let in.
use saprk_parking_api.Prelude.{
  ℕ, ◌≡◌, ◌≢◌, ◌⊎◌, refl, inl, inr, Bool, true, false, some, List, arith, not, ◌==◌, ==_iff,
  Bool-cases, Option-cases,
}
use saprk_parking_api.Store.{
  pending_payment, confirmed, checked_in, expired, refund_pending, refunded, default_currency,
  checked_out, cancelled, Booking, Payment, Db, is_status,
}
use saprk_parking_api.Store.Table.{find_row, update_row, find_row-update_row, find_row-key}
use saprk_parking_api.Store.Monad.{
  Thrown, booking_not_found, status_transition, Ran, done, thrown, after, booking_row, payment_of,
}
use saprk_parking_api.Inventory.{is_past, HoldRequest, held_booking}
use saprk_parking_api.Booking.Access.{AuthUser, is_staff, assert_booking_access}
use saprk_parking_api.Booking.Confirm.{
  capturable, Capture, ConfirmedBooking, to_confirmed, set_status, set_confirmed,
  capture_and_confirm,
}
use saprk_parking_api.Booking.Cancel.{RefundAnswer, cancel_booking}
use saprk_parking_api.Booking.Stay.{
  PinnedPricing, PinnedPrice, priced_at, repriced, reprice_stay, set_checked_out, check_out,
}

-- The row that an update of one row leaves at its key.
updated_row :
    (k : ℕ) (f : Booking → Booking) (bs : List Booking) (b : Booking)
    → ((c : Booking) → (f c).id ≡ c.id)
    → find_row (λ (x : Booking). x.id) k bs ≡ some b
    → find_row (λ (x : Booking). x.id) k (update_row (λ x. x.id) k f bs) ≡ some (f b)
updated_row k f bs b same found =
    ground (arith, ==_iff k k, find_row-update_row (λ (x : Booking). x.id) k k f bs same)

-- A booking whose row is confirmed is answered without a charge, whatever the provider would say.
answered :
    (k now : ℕ) (others : Db → Db) (capture : Capture) (secret : ℕ) (db : Db) (b : Booking)
    → booking_row k db ≡ some b
    → is_status b.status confirmed ≡ true
    → capture_and_confirm k now others capture secret db ≡ done (to_confirmed b) db
unfolding capture_and_confirm
answered k now others capture secret db b found was = ground arith

-- What a confirmation that returned left at the booking's key.
left_confirmed :
    (k now : ℕ) (capture : Capture) (secret : ℕ) (db db' : Db) (c : ConfirmedBooking)
    → capture_and_confirm k now (λ d. d) capture secret db ≡ done c db'
    → (b : Booking) × (booking_row k db' ≡ some b)
      × (is_status b.status confirmed ≡ true)
      × (c ≡ to_confirmed b)
unfolding capture_and_confirm
left_confirmed k now capture secret db db' c h = elim (Option-cases (booking_row k db)) [
  | inl e ↦ ground arith
  | inr (b, e) ↦ elim (Bool-cases (is_status b.status confirmed)) [
    | inl was ↦ (b, ground arith, was, ground arith)
    | inr waits ↦
        let key = find_row-key (λ (x : Booking). x.id) k db.bookings b e in
        let paid = set_confirmed b.quoted_price_cents secret in
        let row = updated_row k paid db.bookings b (λ c. refl) e in
        (paid b, ground (arith, key, row), refl, ground (arith, key))
  ]
]

-- A confirmation that returned, with no other request in between, returns the same answer when it is
-- sent again, at any time and whatever the provider would say then, and changes nothing.
pub capture_and_confirm-again :
    (k now later : ℕ) (capture retry : Capture) (secret secret' : ℕ) (others : Db → Db)
    (db db' : Db) (c : ConfirmedBooking)
    → capture_and_confirm k now (λ d. d) capture secret db ≡ done c db'
    → capture_and_confirm k later others retry secret' db' ≡ done c db'
capture_and_confirm-again k now later capture retry secret secret' others db db' c h =
    let (b, found, was, same) = left_confirmed k now capture secret db db' c h in
    rw same (answered k later others retry secret' db' b found was)

-- To a user who is neither its owner nor staff, a booking that exists looks like one that does not.
pub assert_booking_access-hides :
    (k : ℕ) (u : AuthUser) (w : Bool) (db : Db)
    → is_staff u ≡ false
    → ((b : Booking) → booking_row k db ≡ some b → b.user_id ≢ u.id)
    → assert_booking_access k u w db ≡ thrown booking_not_found db
unfolding assert_booking_access
assert_booking_access-hides k u w db no_staff no_owner = elim (Option-cases (booking_row k db)) [
  | inl e ↦ ground arith
  | inr (b, e) ↦ ground (arith, no_owner b e, ==_iff b.user_id u.id)
]

-- The booking is not the user's own, or its status is not one that a cancel starts from.
abbrev pub is_refused : AuthUser → Booking → Bool
is_refused u b = elim b.status [
  | pending_payment ↦ not (b.user_id == u.id)
  | confirmed ↦ not (b.user_id == u.id)
  | checked_in ↦ true
  | checked_out ↦ true
  | cancelled ↦ true
  | expired ↦ true
  | refund_pending ↦ not (b.user_id == u.id)
  | refunded ↦ true
]

-- A cancel by a user who is no staff throws and leaves the tables where the booking is missing, is not
-- the user's own, or is not pending, confirmed or waiting for its refund, whatever the provider would
-- answer and other requests would commit.
pub cancel_booking-refuses :
    (k : ℕ) (u : AuthUser) (others others' : Db → Db) (answer : RefundAnswer) (db : Db)
    → is_staff u ≡ false
    → ((b : Booking) → booking_row k db ≡ some b → is_refused u b ≡ true)
    → (e : Thrown) × (cancel_booking k u others others' answer db ≡ thrown e db)
unfolding cancel_booking assert_booking_access
cancel_booking-refuses k u others others' answer db driver no_right =
    elim (Option-cases (booking_row k db)) [
      | inl e ↦ (booking_not_found, ground arith)
      | inr (b, e) ↦ elim (Bool-cases (b.user_id == u.id)) [
        | inr other ↦ (booking_not_found, ground arith)
        | inl own ↦ (status_transition (some b.status) cancelled, ground (arith, no_right b e))
      ]
    ]

Capture-cases :
    (a : Capture) → (a ≡ Capture.succeeded) ⊎ ((a ≡ Capture.not_succeeded) ⊎ (a ≡ Capture.threw))
Capture-cases Capture.succeeded = inl refl
Capture-cases Capture.not_succeeded = inr (inl refl)
Capture-cases Capture.threw = inr (inr refl)

-- A confirmation makes a booking confirmed only if it was pending with a hold that stood when the
-- request read it, its payment has a reference, and the provider captured: where the row is not
-- confirmed when it is read, nor made so by other requests meanwhile.
pub capture_and_confirm-confirms :
    (k now : ℕ) (others : Db → Db) (capture : Capture) (secret : ℕ) (db : Db) (b c s : Booking)
    → booking_row k db ≡ some b
    → is_status b.status confirmed ≡ false
    → booking_row k (others db) ≡ some c
    → is_status c.status confirmed ≡ false
    → booking_row k (after (capture_and_confirm k now others capture secret db)) ≡ some s
    → is_status s.status confirmed ≡ true
    → (b.status ≡ pending_payment)
      × (is_past b.expires_at now ≡ false)
      × ((p : Payment) × (capturable (payment_of k db) ≡ some p))
      × (capture ≡ Capture.succeeded)
      × (c.status ≡ pending_payment)
unfolding capture_and_confirm
capture_and_confirm-confirms k now others capture secret db b c s found fresh there still left was =
    let key = find_row-key (λ (x : Booking). x.id) k db.bookings b found in
    elim (Bool-cases (is_status b.status pending_payment)) [
      | inr other ↦ absurd (ground arith)
      | inl waits ↦ elim (Bool-cases (is_past b.expires_at now)) [
        | inl past ↦
            let row = updated_row k (set_status expired) db.bookings b (λ x. refl) found in
            absurd (ground (arith, key, row))
        | inr held ↦ elim (Option-cases (capturable (payment_of k db))) [
          | inl free ↦ absurd (ground (arith, key))
          | inr (p, pays) ↦ elim (Capture-cases capture) [
            | inr (inl e) ↦ absurd (ground (arith, key))
            | inr (inr e) ↦ absurd (ground (arith, key))
            | inl e ↦ elim (Bool-cases (is_status c.status pending_payment)) [
              | inr moved ↦ absurd (ground (arith, key))
              | inl there_too ↦ (ground arith, held, (p, pays), e, ground arith)
            ]
          ]
        ]
      ]
    ]

-- A check-out of a row that a hold made is repriced only if the plan prices in the default currency
-- of the column: the hold writes no currency.
pub reprice_stay-held :
    (pricing : PinnedPricing) (id now at : ℕ) (p : HoldRequest)
    → (reprice_stay pricing (held_booking id p now) at).outcome ≡ repriced
    → (total : ℕ) × (pricing p.tariff_plan_id p.tariff_plan_version p.starts_at at
        ≡ priced_at total default_currency)
unfolding reprice_stay
reprice_stay-held pricing id now at p h =
    priced (pricing p.tariff_plan_id p.tariff_plan_version p.starts_at at) refl
  where
    priced :
        (o : PinnedPrice)
        → pricing p.tariff_plan_id p.tariff_plan_version p.starts_at at ≡ o
        → (total : ℕ) × (pricing p.tariff_plan_id p.tariff_plan_version p.starts_at at
            ≡ priced_at total default_currency)
    priced PinnedPrice.threw q = ground arith
    priced PinnedPrice.no_such_version q = ground arith
    priced (priced_at total currency) q = (total, ground (arith, ==_iff currency default_currency))

-- A check-out of a row that is checked out already fails before it changes anything.
refused :
    (pricing : PinnedPricing) (k : ℕ) (v : AuthUser) (now : ℕ) (others : Db → Db) (db : Db)
    (b : Booking)
    → booking_row k db ≡ some b
    → b.status ≡ checked_out
    → (e : Thrown) × (check_out pricing k v now others db ≡ thrown e db)
unfolding check_out
refused pricing k v now others db b found was = by_run (check_out pricing k v now others db) refl
  where
    by_run :
        (r : Ran (Unit {0}))
        → check_out pricing k v now others db ≡ r
        → (e : Thrown) × (check_out pricing k v now others db ≡ thrown e db)
    by_run (done a d) q = ground arith
    by_run (thrown e d) q = (e, ground arith)

-- What a check-out that returned left at the booking's key.
left_checked_out :
    (pricing : PinnedPricing) (k : ℕ) (u : AuthUser) (now : ℕ) (others : Db → Db) (db db' : Db)
    → check_out pricing k u now others db ≡ done tt db'
    → (c : Booking) × (booking_row k db' ≡ some c) × (c.status ≡ checked_out)
unfolding check_out
left_checked_out pricing k u now others db db' h = elim (Option-cases (booking_row k db)) [
  | inl e ↦ ground arith
  | inr (b, e) ↦ elim (Option-cases (booking_row k (others db))) [
    | inl q ↦ ground arith
    | inr (c, q) ↦
        let paid = reprice_stay pricing b now in
        (
          set_checked_out paid c,
          ground (arith, updated_row k (set_checked_out paid) (others db).bookings c (λ x. refl) q),
          refl,
        )
  ]
]

-- A booking is checked out once: after a check-out that returned, whatever other requests ran while
-- it was priced, a second one by anyone fails and leaves the tables as they are.
pub check_out-once :
    (pricing : PinnedPricing) (k : ℕ) (u v : AuthUser) (now later : ℕ) (others others' : Db → Db)
    (db db' : Db)
    → check_out pricing k u now others db ≡ done tt db'
    → (e : Thrown) × (check_out pricing k v later others' db' ≡ thrown e db')
check_out-once pricing k u v now later others others' db db' h =
    let (c, found, was) = left_checked_out pricing k u now others db db' h in
    refused pricing k v later others' db' c found was
