-- ===== src/Inventory/Oversell.antt =====
-- No instant is sold above the quota (src/inventory/inventory.service.ts).
use mathlib.Core.Option.{some-injective}
use saprk_parking_api.Prelude.{
  Option, none, ℕ, ◌+◌, ◌≤◌, ◌<◌, ◌≡◌, refl, sym, subst, ◌∙◌, inl, inr, true, some, List, [], ◌∷◌,
  map, arith, ==_iff, count_mono, Bool-cases, Option-cases,
}
use saprk_parking_api.Store.{Facility, Booking, Db}
use saprk_parking_api.Store.Table.{find_row}
use saprk_parking_api.Store.Monad.{done}
use saprk_parking_api.Inventory.{
  is_counted, count_overlapping_bookings, HoldRequest, held_booking, is_bookable, hold_slot,
  release_expired, release_expired_holds, check_availability,
}

-- A facility that is there has at least so many slots.
abbrev pub FitsQuota : Option Facility → ℕ → Type 0
FitsQuota none taken = Unit
FitsQuota (some f) taken = taken ≤ f.online_quota

-- At no instant do more bookings hold a slot of a facility than its quota allows.
abbrev pub NotOversold : ℕ → Db → Type 0
NotOversold now db =
    (k instant : ℕ)
    → FitsQuota (find_row (λ (g : Facility). g.id) k db.facilities)
        (count_overlapping_bookings k instant (instant + 1) now db.bookings)

FitsQuota-mono :
    (o : Option Facility) (less more : ℕ) → less ≤ more → FitsQuota o more → FitsQuota o less
FitsQuota-mono none less more le fits = tt
FitsQuota-mono (some f) less more le fits = omega arith

FitsQuota-found :
    (o : Option Facility) (taken : ℕ)
    → ((f : Facility) → o ≡ some f → taken ≤ f.online_quota)
    → FitsQuota o taken
FitsQuota-found none taken h = tt
FitsQuota-found (some f) taken h = h f refl

found-FitsQuota :
    (o : Option Facility) (taken : ℕ) (f : Facility)
    → FitsQuota o taken
    → o ≡ some f
    → taken ≤ f.online_quota
found-FitsQuota o taken f fits found = rw found at fits

-- A booking that holds the instant overlaps every stay that contains the instant.
is_counted-widen :
    (k instant starts_at ends_at now : ℕ) (b : Booking)
    → starts_at ≤ instant
    → instant < ends_at
    → is_counted k instant (instant + 1) now b ≡ true
    → is_counted k starts_at ends_at now b ≡ true
unfolding is_counted
is_counted-widen k instant starts_at ends_at now b lo hi h = ground arith

is_counted-outside :
    (k instant now : ℕ) (b : Booking)
    → is_counted k instant (instant + 1) now b ≡ true
    → (b.facility_id ≡ k) × (b.starts_at ≤ instant) × (instant < b.ends_at)
unfolding is_counted
is_counted-outside k instant now b h = ground (arith, ==_iff b.facility_id k)

pub is_counted-later :
    (k starts_at ends_at now later : ℕ) (b : Booking)
    → now ≤ later
    → is_counted k starts_at ends_at later b ≡ true
    → is_counted k starts_at ends_at now b ≡ true
unfolding is_counted
is_counted-later k starts_at ends_at now later b le h = ground arith

-- Time alone oversells nothing: a hold can only run out.
pub NotOversold-later :
    (db : Db) (now later : ℕ) → now ≤ later → NotOversold now db → NotOversold later db
unfolding count_overlapping_bookings
NotOversold-later db now later le v k instant =
    FitsQuota-mono _ _ _
      (count_mono (is_counted k instant (instant + 1) later)
        (is_counted k instant (instant + 1) now) db.bookings
        (λ b. is_counted-later k instant (instant + 1) now later b le))
      (v k instant)

-- What a hold that succeeds has checked and done.
pub hold_slot-done :
    (id now : ℕ) (p : HoldRequest) (db db' : Db) (held : ℕ × ℕ)
    → hold_slot id p now db ≡ done held db'
    → (f : Facility) × (find_row (λ (g : Facility). g.id) p.facility_id db.facilities ≡ some f)
      × (is_bookable f ≡ true)
      × (count_overlapping_bookings p.facility_id p.starts_at p.ends_at now db.bookings
          < f.online_quota)
      × (db'.facilities ≡ db.facilities)
      × (db'.bookings ≡ held_booking id p now ∷ db.bookings)
unfolding hold_slot
hold_slot-done id now p db db' held h =
    elim (Option-cases (find_row (λ (g : Facility). g.id) p.facility_id db.facilities)) [
      | inl e ↦ ground arith
      | inr (f, e) ↦ (f, e, ground arith, ground arith, ground arith, ground arith)
    ]

occupancy-le-overlapping :
    (k instant starts_at ends_at now : ℕ) (bs : List Booking)
    → starts_at ≤ instant
    → instant < ends_at
    → count_overlapping_bookings k instant (instant + 1) now bs
      ≤ count_overlapping_bookings k starts_at ends_at now bs
unfolding count_overlapping_bookings
occupancy-le-overlapping k instant starts_at ends_at now bs lo hi =
    count_mono (is_counted k instant (instant + 1) now) (is_counted k starts_at ends_at now) bs
      (λ b. is_counted-widen k instant starts_at ends_at now b lo hi)

-- A new booking that found room among those that overlap it leaves room for itself at each instant.
insert-NotOversold :
    (k instant now quota : ℕ) (b : Booking) (bs : List Booking)
    → count_overlapping_bookings k instant (instant + 1) now bs ≤ quota
    → (b.facility_id ≡ k → count_overlapping_bookings k b.starts_at b.ends_at now bs < quota)
    → count_overlapping_bookings k instant (instant + 1) now (b ∷ bs) ≤ quota
insert-NotOversold k instant now quota b bs old room =
    elim (Bool-cases (is_counted k instant (instant + 1) now b)) [
      | inl e ↦
          let (here, lo, hi) = is_counted-outside k instant now b e in
          let fits = room here in
          let wide = occupancy-le-overlapping k instant b.starts_at b.ends_at now bs lo hi in
          unfold count_overlapping_bookings in rw e (omega arith)
      | inr e ↦ unfold count_overlapping_bookings in rw e old
    ]

module _ (id now : ℕ) (p : HoldRequest) (db : Db) where
  -- The quota that the hold was checked against is that of the facility asked about.
  room_for :
      (k : ℕ) (g f : Facility)
      → find_row (λ (x : Facility). x.id) p.facility_id db.facilities ≡ some g
      → find_row (λ (x : Facility). x.id) k db.facilities ≡ some f
      → count_overlapping_bookings p.facility_id p.starts_at p.ends_at now db.bookings
        < g.online_quota
      → p.facility_id ≡ k
      → count_overlapping_bookings k p.starts_at p.ends_at now db.bookings < f.online_quota
  room_for k g f hg hf room e =
      let same : g ≡ f = some-injective _ _ (sym hg ∙ rw e hf) in
      subst
        (λ (x : Facility).
          count_overlapping_bookings k p.starts_at p.ends_at now db.bookings < x.online_quota)
        same (rw e at room)

  -- A hold that succeeds leaves no instant oversold if none was.
  pub hold_slot-NotOversold :
      (db' : Db) (held : ℕ × ℕ)
      → NotOversold now db
      → hold_slot id p now db ≡ done held db'
      → NotOversold now db'
  hold_slot-NotOversold db' held v h k instant =
      let (g, hg, _, room, same, new) = hold_slot-done id now p db db' held h in
      rw (new, same)
        (FitsQuota-found (find_row (λ (x : Facility). x.id) k db.facilities) _ (λ f found.
          insert-NotOversold k instant now f.online_quota (held_booking id p now) db.bookings
            (found-FitsQuota _ _ f (v k instant) found) (room_for k g f hg found room)))

release-counted :
    (k starts_at ends_at now later : ℕ) (b : Booking)
    → now ≤ later
    → is_counted k starts_at ends_at later (release_expired now b)
      ≡ is_counted k starts_at ends_at later b
unfolding is_counted release_expired
release-counted k starts_at ends_at now later b le = ground arith

release-count :
    (k starts_at ends_at now later : ℕ) (bs : List Booking)
    → now ≤ later
    → count_overlapping_bookings k starts_at ends_at later (map (release_expired now) bs)
      ≡ count_overlapping_bookings k starts_at ends_at later bs
unfolding count_overlapping_bookings
release-count k starts_at ends_at now later [] le = refl
release-count k starts_at ends_at now later (b ∷ bs) le =
    rw (release-counted k starts_at ends_at now later b le)
      (ground (arith, release-count k starts_at ends_at now later bs le))

abbrev released : ℕ → Db → Db
released now db = record db { bookings = map (release_expired now) db.bookings }

check_availability-released :
    (k starts_at ends_at now later : ℕ) (db : Db)
    → now ≤ later
    → check_availability k starts_at ends_at later (released now db)
      ≡ check_availability k starts_at ends_at later db
unfolding check_availability
check_availability-released k starts_at ends_at now later db le =
    ground (arith, release-count k starts_at ends_at now later db.bookings le)

-- The job that marks expired holds changes no answer about availability, at its own time or later:
-- the overlap count already treats those holds as released.
pub release_expired_holds-check_availability :
    (k starts_at ends_at now later n : ℕ) (db db' : Db)
    → now ≤ later
    → release_expired_holds now db ≡ done n db'
    → check_availability k starts_at ends_at later db'
      ≡ check_availability k starts_at ends_at later db
unfolding release_expired_holds
release_expired_holds-check_availability k starts_at ends_at now later n db db' le h =
    let after : db' ≡ released now db = cc in
    rw after (check_availability-released k starts_at ends_at now later db le)
