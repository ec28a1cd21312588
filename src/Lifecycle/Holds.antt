-- ===== src/Lifecycle/Holds.antt =====
-- The rows of bookings over a create request and the sweep of expired holds.
use saprk_parking_api.Prelude.{
  ℕ, ◌≡◌, refl, inl, inr, false, Option, none, some, List, [], ◌∷◌, map, arith, ◌==◌, ==_iff,
  Bool-cases,
}
use saprk_parking_api.Store.{Booking, Db}
use saprk_parking_api.Store.Table.{find_row, when_some}
use saprk_parking_api.Store.Monad.{done, after, booking_row}
use saprk_parking_api.Inventory.{
  HoldRequest, exists_row, hold_slot, release_expired, release_expired_holds,
}
use saprk_parking_api.Inventory.Oversell.{hold_slot-done}
use saprk_parking_api.Booking.Create.{
  Quote, CreateBookingRequest, Provider, hold_request, create_booking,
}
use saprk_parking_api.Booking.Create.Once.{HeldOnce, create_booking-HeldOnce}
use saprk_parking_api.Lifecycle.{IsKept, RowKept, RowsKept, RowKept-refl, IsKept-refl}

hold_slot-new_id :
    (id now : ℕ) (p : HoldRequest) (db db' : Db) (held : ℕ × ℕ)
    → hold_slot id p now db ≡ done held db'
    → exists_row (λ o. o.id == id) db.bookings ≡ false
unfolding hold_slot
hold_slot-new_id id now p db db' held h = ground arith

no_row-find :
    (k : ℕ) (bs : List Booking)
    → exists_row (λ o. o.id == k) bs ≡ false
    → find_row (λ (x : Booking). x.id) k bs ≡ none
no_row-find k [] h = refl
no_row-find k (b ∷ bs) h = ground (arith, no_row-find k bs)

hold_slot-RowsKept :
    (id now : ℕ) (p : HoldRequest) (db db' : Db) (held : ℕ × ℕ)
    → hold_slot id p now db ≡ done held db'
    → RowsKept db db'
hold_slot-RowsKept id now p db db' held h j =
    let (f, _, _, _, _, new) = hold_slot-done id now p db db' held h in
    let unused = no_row-find id db.bookings (hold_slot-new_id id now p db db' held h) in
    elim (Bool-cases (id == j)) [
      | inl e ↦
          let gone : find_row (λ (x : Booking). x.id) j db.bookings ≡ none =
            rw (← (==_iff id j).0 e) unused in
          rw gone tt
      | inr e ↦ rw (new, e) (RowKept-refl (booking_row j db))
    ]

-- A create request, with no other commit between its look-up and its hold, keeps every row that is
-- there.
pub create_booking-RowsKept :
    (provider : Provider) (codes : ℕ → ℕ) (r : CreateBookingRequest) (q : Quote)
    (id payment_id now : ℕ) (db : Db)
    → RowsKept db (after (create_booking provider codes r q id payment_id now (λ d. d) db))
create_booking-RowsKept provider codes r q id payment_id now db =
    elim (create_booking-HeldOnce r q id now codes provider payment_id (λ d. d) db) [
      | inl once ↦ kept created once
      | inr once ↦ kept created once
    ]
  where
    created : Db
    created = after (create_booking provider codes r q id payment_id now (λ d. d) db)

    kept : (db' : Db) → HeldOnce r q id now codes db db' → RowsKept db db'
    kept db' (inl (b, f)) j = rw b (RowKept-refl (booking_row j db))
    kept db' (inr (code, held, db1, run, b, f)) j =
        rw b (hold_slot-RowsKept id now (hold_request r q code) db db1 held run j)

find_row-map :
    (j : ℕ) (g : Booking → Booking) (bs : List Booking)
    → ((b : Booking) → (g b).id ≡ b.id)
    → find_row (λ (x : Booking). x.id) j (map g bs) ≡ when_some g (find_row (λ x. x.id) j bs)
find_row-map j g [] same = refl
find_row-map j g (b ∷ bs) same = ground (arith, same b, find_row-map j g bs same)

release-IsKept : (now : ℕ) (b : Booking) → IsKept b (release_expired now b)
unfolding release_expired
release-IsKept now b = ground (arith, IsKept-refl b)

release-id : (now : ℕ) (b : Booking) → (release_expired now b).id ≡ b.id
unfolding release_expired
release-id now b = ground arith

-- The sweep keeps every row.
pub release_expired_holds-RowsKept :
    (now : ℕ) (db : Db) → RowsKept db (after (release_expired_holds now db))
release_expired_holds-RowsKept now db j =
    unfold release_expired_holds in
    rw (find_row-map j (release_expired now) db.bookings (release-id now))
      (by_row (booking_row j db))
  where
    by_row : (o : Option Booking) → RowKept o (when_some (release_expired now) o)
    by_row none = tt
    by_row (some b) = release-IsKept now b
