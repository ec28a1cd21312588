-- ===== src/Booking/Create/Again.antt =====
-- A create request that is sent again finds the booking of the first (`createBooking` and
-- `replayBookingResult` of src/booking/booking.service.ts).
use saprk_parking_api.Prelude.{
  ℕ, zero, suc, ◌+◌, ◌≡◌, refl, sym, ◌∙◌, inl, inr, true, Option, none, some, List, ◌∷◌, arith, ltb,
  ==_iff, Bool-cases, Option-cases,
}
use saprk_parking_api.Store.{pending_payment, Booking, Payment, Db, is_status}
use saprk_parking_api.Store.Monad.{Ran, done, thrown, Thrown, M, payment_of}
use saprk_parking_api.Inventory.{HoldRequest, held_booking, hold_slot}
use saprk_parking_api.Inventory.Oversell.{hold_slot-done}
use saprk_parking_api.Booking.Create.{
  Quote, CreateBookingRequest, BookingResult, Intent, Provider, Held, hold_request, on_collision,
  hold_attempts, hold_with_access_code, access_code_attempts, is_other_intent,
  replay_booking_result, by_key, create_fresh, create_booking,
}
use saprk_parking_api.Booking.Create.Once.{hold_slot-thrown}

-- The answer names the booking and its code.
abbrev pub Names : BookingResult → Booking → Type 0
Names a b = (a.booking_id ≡ b.id) × (a.access_code ≡ b.access_code)

-- A failed attempt that is caught and returns is the next one.
on_collision-done :
    (retry : M Held) (e : Thrown) (db : Db) (held : Held) (db' : Db)
    → on_collision retry e db ≡ done held db'
    → retry db ≡ done held db'
on_collision-done retry e db held db' h = ground arith

-- A replay that returns names the booking, says that it was there, and keeps the bookings.
replay-done :
    (provider : Provider) (payment_id now : ℕ) (b : Booking) (o : Option Payment) (db db' : Db)
    (a : BookingResult)
    → replay_booking_result provider payment_id b o now db ≡ done a db'
    → Names a b × (a.already_existed ≡ true) × (db'.bookings ≡ db.bookings)
unfolding replay_booking_result
replay-done provider payment_id now b o db db' a h =
    elim (Bool-cases (is_status b.status pending_payment)) [
      | inr settled ↦ ground arith
      | inl waits ↦ elim (Option-cases (provider b.id b.quoted_price_cents b.currency)) [
        | inl silent ↦ absurd (ground arith)
        | inr (i, e) ↦ elim (Bool-cases (is_other_intent o i)) [
          | inl other ↦ ground arith
          | inr same ↦ elim (Option-cases o) [
            | inr (p, q) ↦ ground arith
            | inl q ↦ elim (Option-cases (payment_of b.id db)) [
              | inl m ↦ ground arith
              | inr (p, m) ↦ ground arith
            ]
          ]
        ]
      ]
    ]

hold_slot-id :
    (id now : ℕ) (p : HoldRequest) (db db' : Db) (pair : ℕ × ℕ)
    → hold_slot id p now db ≡ done pair db'
    → pair.0 ≡ id
unfolding hold_slot
hold_slot-id id now p db db' pair h = ground arith

module _ (r : CreateBookingRequest) (q : Quote) (id now : ℕ) (codes : ℕ → ℕ) where
  -- The row that a hold made, with the code that it got.
  abbrev IsHeld : Held → Db → Db → Type 0
  IsHeld held db db' =
      (held.booking_id ≡ id)
      × (db'.bookings ≡ held_booking id (hold_request r q held.access_code) now ∷ db.bookings)

  hold_attempts-IsHeld :
      (n i : ℕ) (db db' : Db) (held : Held)
      → hold_attempts n i codes r q id now db ≡ done held db'
      → IsHeld held db db'
  hold_attempts-IsHeld zero i db db' held h = absurd (unfold hold_attempts in ground (arith, h))
  hold_attempts-IsHeld (suc n) i db db' held h =
      by_run (hold_slot id (hold_request r q (codes i)) now db) refl
        (hold_attempts-IsHeld n (i + 1) db db' held)
    where
      by_run :
          (o : Ran (ℕ × ℕ))
          → hold_slot id (hold_request r q (codes i)) now db ≡ o
          → (hold_attempts n (i + 1) codes r q id now db ≡ done held db' → IsHeld held db db')
          → IsHeld held db db'
      by_run (done pair db1) e later =
          let (f, _, _, _, _, new) =
            hold_slot-done id now (hold_request r q (codes i)) db db1 pair e in
          let first = hold_slot-id id now (hold_request r q (codes i)) db db1 pair e in
          let ran : hold_attempts (suc n) i codes r q id now db
              ≡ done (record { booking_id = pair.0; expires_at = pair.1; access_code = codes i })
                  db1 =
            unfold hold_attempts in ground arith in
          let same = sym ran ∙ h in (ground (arith), ground (arith))
      by_run (thrown err db1) e later =
          let rest = hold_attempts n (i + 1) codes r q id now in
          let same = hold_slot-thrown id now (hold_request r q (codes i)) db db1 err e in
          let step : on_collision rest err db ≡ done held db' =
            unfold hold_attempts in ground (arith, same, h) in
          later (on_collision-done rest err db held db' step)

  create_fresh-done :
      (provider : Provider) (payment_id : ℕ) (db db' : Db) (a : BookingResult)
      → create_fresh provider codes r q id payment_id now db ≡ done a db'
      → (b : Booking) × (db'.bookings ≡ b ∷ db.bookings)
        × (b.idempotency_key ≡ some r.idempotency_key)
        × Names a b
  unfolding create_fresh
  create_fresh-done provider payment_id db db' a h = elim (Bool-cases (ltb q.expires_at now)) [
    | inl late ↦ absurd (ground arith)
    | inr open_yet ↦ by_run (hold_with_access_code codes r q id now db) refl
  ]
    where
      by_run :
          (o : Ran Held)
          → hold_with_access_code codes r q id now db ≡ o
          → (b : Booking) × (db'.bookings ≡ b ∷ db.bookings)
            × (b.idempotency_key ≡ some r.idempotency_key)
            × Names a b
      by_run (thrown err db1) e = absurd (ground arith)
      by_run (done held db1) e =
          let made =
            hold_attempts-IsHeld access_code_attempts 0 db db1 held
              (unfold hold_with_access_code in e) in
          elim (Option-cases (provider held.booking_id q.total_cents q.currency)) [
            | inl n ↦ absurd (ground arith)
            | inr (i, n) ↦ elim (Option-cases (payment_of held.booking_id db1)) [
              | inl m ↦ (
                held_booking id (hold_request r q held.access_code) now,
                ground (arith, made),
                refl,
                (ground (arith, made), ground (arith, made)),
              )
              | inr (old, m) ↦ absurd (ground arith)
            ]
          ]

by_key-first :
    (key : ℕ) (b : Booking) (bs : List Booking)
    → b.idempotency_key ≡ some key
    → by_key key (b ∷ bs) ≡ some b
by_key-first key b bs h = rw (h, (==_iff key key).1 refl) refl

module _ (provider : Provider) (codes : ℕ → ℕ) (r : CreateBookingRequest) (q : Quote)
    (id payment_id now : ℕ) (others : Db → Db) (db : Db) where
  by_new_key :
      (key : ℕ)
      → by_key key db.bookings ≡ none
      → r.idempotency_key ≡ key
      → create_booking provider codes r q id payment_id now others db
        ≡ create_fresh provider codes r q id payment_id now (others db)
  unfolding create_booking
  by_new_key key e same = ground (arith)

  by_old_key :
      (b : Booking) (key : ℕ)
      → by_key key db.bookings ≡ some b
      → r.idempotency_key ≡ key
      → create_booking provider codes r q id payment_id now others db
        ≡ replay_booking_result provider payment_id b (payment_of b.id db) now db
  unfolding create_booking
  by_old_key b key e same = ground (arith)

-- What a create request that returned left under its key.
created-row :
    (provider : Provider) (codes : ℕ → ℕ) (r : CreateBookingRequest) (q : Quote)
    (id payment_id now : ℕ) (others : Db → Db) (db db' : Db) (a : BookingResult)
    → create_booking provider codes r q id payment_id now others db ≡ done a db'
    → (b : Booking) × (by_key r.idempotency_key db'.bookings ≡ some b) × Names a b
unfolding create_booking
created-row provider codes r q id payment_id now others db db' a h =
    elim (Option-cases (by_key r.idempotency_key db.bookings)) [
      | inl e ↦
          let (b, new, keyed, named) =
            create_fresh-done r q id now codes provider payment_id (others db) db' a (
              sym
                (by_new_key provider codes r q id payment_id now others db r.idempotency_key e refl)
              ∙ h) in
          (b, rw new (by_key-first r.idempotency_key b (others db).bookings keyed), named)
      | inr (b, e) ↦
          let (named, _, same) =
            replay-done provider payment_id now b (payment_of b.id db) db db' a (
              sym (
                by_old_key provider codes r q id payment_id now others db b r.idempotency_key e
                  refl)
              ∙ h) in
          (b, rw same e, named)
    ]

-- A replay returns where the provider answers for the booking.
replay-returns :
    (provider : Provider) (payment_id now : ℕ) (b : Booking) (o : Option Payment) (db : Db)
    → ((amount currency : ℕ) → (i : Intent) × (provider b.id amount currency ≡ some i))
    → (c : BookingResult) × (d : Db) × (replay_booking_result provider payment_id b o now db
        ≡ done c d)
unfolding replay_booking_result
replay-returns provider payment_id now b o db answers =
    by_run (replay_booking_result provider payment_id b o now db) refl
  where
    by_run :
        (run : Ran BookingResult)
        → replay_booking_result provider payment_id b o now db ≡ run
        → (c : BookingResult) × (d : Db) × (replay_booking_result provider payment_id b o now db
            ≡ done c d)
    by_run (done c d) e = (c, d, e)
    by_run (thrown err d) e =
        let (i, there) = answers b.quoted_price_cents b.currency in absurd (ground arith)

-- A create request that returned, sent again with its key, names the same booking and code, says that
-- it was there, and makes no booking: at any later time, with any other quote, ids, codes and other
-- fields, where the provider answers for that booking.
pub create_booking-again :
    (provider provider' : Provider) (codes codes' : ℕ → ℕ) (r r' : CreateBookingRequest)
    (q q' : Quote) (id id' payment_id payment_id' now later : ℕ) (others others' : Db → Db)
    (db db' : Db) (a : BookingResult)
    → create_booking provider codes r q id payment_id now others db ≡ done a db'
    → r'.idempotency_key ≡ r.idempotency_key
    → ((amount currency : ℕ) → (i : Intent) × (provider' a.booking_id amount currency ≡ some i))
    → (c : BookingResult) × (d : Db) × (create_booking provider' codes' r' q' id' payment_id' later
          others' db'
        ≡ done c d)
      × (c.booking_id ≡ a.booking_id)
      × (c.access_code ≡ a.access_code)
      × (c.already_existed ≡ true)
      × (d.bookings ≡ db'.bookings)
unfolding create_booking
create_booking-again provider provider' codes codes' r r' q q' id id' payment_id payment_id' now
      later others others' db db' a h key answers =
    let (b, row, named) = created-row provider codes r q id payment_id now others db db' a h in
    let (c, d, run) =
      replay-returns provider' payment_id' later b (payment_of b.id db') db'
        (rw named.0 at answers) in
    let (again, there, same) =
      replay-done provider' payment_id' later b (payment_of b.id db') db' d c run in
    (
      c,
      d,
      by_old_key provider' codes' r' q' id' payment_id' later others' db' b r.idempotency_key row
            key
          ∙ run,
      again.0 ∙ sym named.0,
      again.1 ∙ sym named.1,
      there,
      same,
    )
