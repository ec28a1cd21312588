-- ===== src/Inventory/Grouped.antt =====
-- The counts for many facilities at once (`countOverlappingByFacility` of
-- src/inventory/inventory.service.ts).
use saprk_parking_api.Prelude.{
  ℕ, ◌+◌, ◌≡◌, refl, inl, inr, Bool, true, false, ◌&&◌, ◌||◌, Option, none, some, List, [], ◌∷◌,
  arith, ◌==◌, ==_iff, if◌then◌else◌, Bool-cases, get, put, get-put, nat_has_eq, count_if,
}
use saprk_parking_api.Store.{Facility, Booking, Db}
use saprk_parking_api.Store.Table.{find_row}
use saprk_parking_api.Inventory.{
  is_overlap, takes_slot, hold_stands, is_counted, count_overlapping_bookings, check_availability,
}

-- `facilityId: { in: facilityIds }`
abbrev pub is_among : List ℕ → ℕ → Bool
is_among [] k = false
is_among (j ∷ js) k = j == k || is_among js k

-- The `where` clause of the grouped count.
unfoldable is_grouped : List ℕ → ℕ → ℕ → ℕ → Booking → Bool
unfolding takes_slot hold_stands
is_grouped ids starts_at ends_at now b =
    (is_among ids b.facility_id && takes_slot b.status)
    && (hold_stands b.status b.expires_at now && is_overlap starts_at ends_at b)

abbrev pub or_zero : Option ℕ → ℕ
or_zero none = 0
or_zero (some n) = n

-- `groupBy` with its count of each group.
unfoldable groups_from : (Booking → Bool) → List (ℕ × ℕ) → List Booking → List (ℕ × ℕ)
groups_from test m [] = m
groups_from test m (b ∷ bs) =
    groups_from test (if test b then put b.facility_id (or_zero (get b.facility_id m) + 1) m else m)
      bs

-- With no ids this returns the empty map without asking.
unfoldable pub count_overlapping_by_facility : List ℕ → ℕ → ℕ → ℕ → Db → List (ℕ × ℕ)
unfolding groups_from is_grouped
count_overlapping_by_facility [] starts_at ends_at now db = []
count_overlapping_by_facility (k ∷ ks) starts_at ends_at now db =
    groups_from (is_grouped (k ∷ ks) starts_at ends_at now) [] db.bookings

grouped-counted :
    (ids : List ℕ) (k starts_at ends_at now : ℕ) (b : Booking)
    → is_among ids k ≡ true
    → (is_grouped ids starts_at ends_at now b && b.facility_id == k)
      ≡ is_counted k starts_at ends_at now b
unfolding is_grouped is_counted
grouped-counted ids k starts_at ends_at now b h = elim (Bool-cases (b.facility_id == k)) [
  | inl e ↦ rw ((==_iff b.facility_id k).0 e) (ground arith)
  | inr e ↦ ground arith
]

groups_from-get :
    (test : Booking → Bool) (k : ℕ) (m : List (ℕ × ℕ)) (bs : List Booking)
    → or_zero (get k (groups_from test m bs))
      ≡ or_zero (get k m) + count_if (λ b. test b && b.facility_id == k) bs
unfolding groups_from
groups_from-get test k m [] = omega arith
groups_from-get test k m (b ∷ bs) = elim (Bool-cases (test b)) [
  | inl e ↦
      let more = put b.facility_id (or_zero (get b.facility_id m) + 1) m in
      ground (
        arith,
        groups_from-get test k more bs,
        get-put b.facility_id k (or_zero (get b.facility_id m) + 1) m,
        ==_iff b.facility_id k,
      )
  | inr e ↦ ground (arith, groups_from-get test k m bs)
]

same-count :
    (f g : Booking → Bool) (bs : List Booking)
    → ((b : Booking) → f b ≡ g b)
    → count_if f bs ≡ count_if g bs
same-count f g [] h = refl
same-count f g (b ∷ bs) h = ground (arith, h b, same-count f g bs h)

-- For each facility asked about that is there, the grouped count, 0 where it has none, is the
-- overlap count that `checkAvailability` reports.
pub count_overlapping_by_facility-check_availability :
    (ids : List ℕ) (k starts_at ends_at now : ℕ) (db : Db) (f : Facility)
    → is_among ids k ≡ true
    → find_row (λ (x : Facility). x.id) k db.facilities ≡ some f
    → or_zero (get k (count_overlapping_by_facility ids starts_at ends_at now db))
      ≡ (check_availability k starts_at ends_at now db).overlapping_count
unfolding count_overlapping_by_facility check_availability count_overlapping_bookings
count_overlapping_by_facility-check_availability [] k starts_at ends_at now db f asked found =
    ground arith
count_overlapping_by_facility-check_availability (i ∷ is) k starts_at ends_at now db f asked found =
    let test = is_grouped (i ∷ is) starts_at ends_at now in
    let all = groups_from-get test k [] db.bookings in
    let counts =
      same-count (λ b. test b && b.facility_id == k) (is_counted k starts_at ends_at now)
        db.bookings (λ b. grouped-counted (i ∷ is) k starts_at ends_at now b asked) in
    let reported : (check_availability k starts_at ends_at now db).overlapping_count
        ≡ count_if (is_counted k starts_at ends_at now) db.bookings =
      ground arith in
    omega (arith, all, counts, reported)
