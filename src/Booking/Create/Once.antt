-- ===== src/Booking/Create/Once.antt =====
-- A create request holds at most one slot (src/booking/booking.service.ts).
use saprk_parking_api.Prelude.{
  ℕ, zero, suc, ◌+◌, ◌≡◌, refl, ◌∙◌, ◌⊎◌, inl, inr, false, Option, arith, ltb, Bool-cases,
  Option-cases,
}
use saprk_parking_api.Store.{Booking, Payment, Db}
use saprk_parking_api.Store.Monad.{Thrown, Ran, done, thrown, after, M, payment_of}
use saprk_parking_api.Inventory.{HoldRequest, hold_slot}
use saprk_parking_api.Inventory.Oversell.{NotOversold, hold_slot-NotOversold}
use saprk_parking_api.Booking.Create.{
  Quote, CreateBookingRequest, Provider, Held, hold_request, on_collision, hold_attempts,
  hold_with_access_code, access_code_attempts, replay_booking_result, by_key, create_fresh,
  create_booking,
}

-- A hold that throws leaves the tables as they were.
pub hold_slot-thrown :
    (id now : ℕ) (p : HoldRequest) (db db' : Db) (e : Thrown)
    → hold_slot id p now db ≡ thrown e db'
    → db' ≡ db
unfolding hold_slot
hold_slot-thrown id now p db db' e h = ground arith

on_collision-cases :
    (retry : M Held) (e : Thrown) (db : Db)
    → (after (on_collision retry e db) ≡ db) ⊎ (after (on_collision retry e db) ≡ after (retry db))
on_collision-cases retry e db = ground arith

module _ (r : CreateBookingRequest) (q : Quote) (id now : ℕ) (codes : ℕ → ℕ) where
  -- The tables are as before, or are those of one hold that succeeded.
  abbrev pub HeldOnce : Db → Db → Type 0
  HeldOnce db db' =
      ((db'.bookings ≡ db.bookings) × (db'.facilities ≡ db.facilities))
      ⊎ ((code : ℕ) × (held : ℕ × ℕ) × (db1 : Db) × (hold_slot id (hold_request r q code) now db
            ≡ done held db1)
          × (db'.bookings ≡ db1.bookings)
          × (db'.facilities ≡ db1.facilities))

  hold_attempts-HeldOnce :
      (n i : ℕ) (db : Db) → HeldOnce db (after (hold_attempts n i codes r q id now db))
  hold_attempts-HeldOnce zero i db =
      inl (unfold hold_attempts in refl, unfold hold_attempts in refl)
  hold_attempts-HeldOnce (suc n) i db =
      by_run (hold_slot id (hold_request r q (codes i)) now db) refl
        (hold_attempts-HeldOnce n (i + 1) db)
    where
      by_run :
          (o : Ran (ℕ × ℕ))
          → hold_slot id (hold_request r q (codes i)) now db ≡ o
          → HeldOnce db (after (hold_attempts n (i + 1) codes r q id now db))
          → HeldOnce db (after (hold_attempts (suc n) i codes r q id now db))
      by_run (done held db1) e later = inr (
        codes i,
        held,
        db1,
        e,
        unfold hold_attempts in ground arith,
        unfold hold_attempts in ground arith,
      )
      by_run (thrown err db1) e later =
          let rest = hold_attempts n (i + 1) codes r q id now in
          let same = hold_slot-thrown id now (hold_request r q (codes i)) db db1 err e in
          let step : after (hold_attempts (suc n) i codes r q id now db)
              ≡ after (on_collision rest err db) =
            unfold hold_attempts in ground (arith, same) in
          elim (on_collision-cases rest err db) [
            | inl c ↦ rw (step, c) (inl (refl, refl))
            | inr c ↦ rw (step, c) later
          ]

  replay-bookings :
      (provider : Provider) (payment_id : ℕ) (b : Booking) (p : Option Payment) (db : Db)
      → ((after (replay_booking_result provider payment_id b p now db)).bookings ≡ db.bookings)
        × ((after (replay_booking_result provider payment_id b p now db)).facilities
            ≡ db.facilities)
  unfolding replay_booking_result
  replay-bookings provider payment_id b p db = (ground arith, ground arith)

  -- What follows the hold leaves the bookings and the facilities.
  create_fresh-after :
      (provider : Provider) (payment_id : ℕ) (db : Db)
      → ((after (create_fresh provider codes r q id payment_id now db)) ≡ db)
        ⊎ (((after (create_fresh provider codes r q id payment_id now db)).bookings
              ≡ (after (hold_with_access_code codes r q id now db)).bookings)
            × ((after (create_fresh provider codes r q id payment_id now db)).facilities
                ≡ (after (hold_with_access_code codes r q id now db)).facilities))
  unfolding create_fresh
  create_fresh-after provider payment_id db = elim (Bool-cases (ltb q.expires_at now)) [
    | inl e ↦ inl (ground arith)
    | inr e ↦ by_run (hold_with_access_code codes r q id now db) refl e
  ]
    where
      by_run :
          (o : Ran Held)
          → hold_with_access_code codes r q id now db ≡ o
          → ltb q.expires_at now ≡ false
          → ((after (create_fresh provider codes r q id payment_id now db)) ≡ db)
            ⊎ (((after (create_fresh provider codes r q id payment_id now db)).bookings
                  ≡ (after (hold_with_access_code codes r q id now db)).bookings)
                × ((after (create_fresh provider codes r q id payment_id now db)).facilities
                    ≡ (after (hold_with_access_code codes r q id now db)).facilities))
      by_run (thrown err db1) e u = inr (ground arith, ground arith)
      by_run (done held db1) e u =
          elim (Option-cases (provider held.booking_id q.total_cents q.currency)) [
            | inl n ↦ inr (ground arith, ground arith)
            | inr (i, n) ↦ elim (Option-cases (payment_of held.booking_id db1)) [
              | inl m ↦ inr (ground arith, ground arith)
              | inr (old, m) ↦ inr (ground arith, ground arith)
            ]
          ]

  create_fresh-HeldOnce :
      (provider : Provider) (payment_id : ℕ) (db : Db)
      → HeldOnce db (after (create_fresh provider codes r q id payment_id now db))
  create_fresh-HeldOnce provider payment_id db =
      let held : HeldOnce db (after (hold_with_access_code codes r q id now db)) =
        unfold hold_with_access_code in hold_attempts-HeldOnce access_code_attempts 0 db in
      elim (create_fresh-after provider payment_id db) [
        | inl e ↦ rw e (inl (refl, refl))
        | inr (e, e') ↦ elim held [
          | inl (b, f) ↦ inl (e ∙ b, e' ∙ f)
          | inr (code, h, db1, run, b, f) ↦ inr (code, h, db1, run, e ∙ b, e' ∙ f)
        ]
      ]

  -- A create without a booking under its key: at most one hold, on the tables that it finds by then.
  pub create_booking-HeldOnce :
      (provider : Provider) (payment_id : ℕ) (others : Db → Db) (db : Db)
      → HeldOnce db (after (create_booking provider codes r q id payment_id now others db))
        ⊎ HeldOnce
            (others db)
            (after (create_booking provider codes r q id payment_id now others db))
  create_booking-HeldOnce provider payment_id others db =
      elim (Option-cases (by_key r.idempotency_key db.bookings)) [
        | inl e ↦
            let step : create_booking provider codes r q id payment_id now others db
                ≡ create_fresh provider codes r q id payment_id now (others db) =
              unfold create_booking in ground arith in
            inr (rw step (create_fresh-HeldOnce provider payment_id (others db)))
        | inr (b, e) ↦
            let step : create_booking provider codes r q id payment_id now others db
                ≡ replay_booking_result provider payment_id b (payment_of b.id db) now db =
              unfold create_booking in ground arith in
            inl (rw step (inl (replay-bookings provider payment_id b (payment_of b.id db) db)))
      ]

module _ (r : CreateBookingRequest) (q : Quote) (id payment_id now : ℕ) (codes : ℕ → ℕ)
    (provider : Provider) (others : Db → Db) (db : Db) where
  abbrev created : Db
  created = after (create_booking provider codes r q id payment_id now others db)

  once-NotOversold :
      (db0 db' : Db) → HeldOnce r q id now codes db0 db' → NotOversold now db0 → NotOversold now db'
  once-NotOversold db0 db' (inl (b, f)) v = rw (b, f) v
  once-NotOversold db0 db' (inr (code, held, db1, run, b, f)) v =
      rw (b, f) (hold_slot-NotOversold id now (hold_request r q code) db0 db1 held v run)

  -- A create request, whether it returns or throws, whatever codes are minted and whatever the
  -- provider answers, oversells no instant, if the tables that it finds are not oversold, those at
  -- its start and those that the other requests leave it.
  pub create_booking-NotOversold :
      NotOversold now db → NotOversold now (others db) → NotOversold now created
  create_booking-NotOversold v w =
      elim (create_booking-HeldOnce r q id now codes provider payment_id others db) [
        | inl once ↦ once-NotOversold db created once v
        | inr once ↦ once-NotOversold (others db) created once w
      ]
