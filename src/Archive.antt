-- ===== src/Archive.antt =====
-- Facilities, operators and users that are archived, tombstoned and restored
-- (src/lifecycle/lifecycle.service.ts, with `unhonouredBookingsWhere` of
-- src/booking/booking.predicates.ts), each a transaction. A row has its lifecycle status; who changed
-- it, when and why, the time of the purge and the audit log are left out. `now` is the clock.
pub mod Owned
use saprk_parking_api.Prelude.{
  ℕ, Bool, true, false, ◌&&◌, ◌||◌, Option, none, some, List, [], ◌∷◌, ◌==◌, ltb, if◌then◌else◌,
  count_if,
}
use saprk_parking_api.Store.{confirmed, checked_in, is_status, Booking}
use saprk_parking_api.Store.Table.{find_row, update_row}
use saprk_parking_api.Tariff.Quote.{LifecycleStatus, active, archived, tombstoned, is_live}
use saprk_parking_api.Tariff.Plans.{exceeds}
use saprk_parking_api.Tariff.Plans.Lifecycle.{includes_status}

pub record FacilityRow : Type 0 where
  pub id : ℕ
  pub operator_id : Option ℕ
  pub is_active : Bool
  pub lifecycle_status : LifecycleStatus

pub record OperatorRow : Type 0 where
  pub id : ℕ
  pub lifecycle_status : LifecycleStatus

pub record UserRow : Type 0 where
  pub id : ℕ
  pub lifecycle_status : LifecycleStatus
  pub sessions_valid_from : Option ℕ
  pub deleted_at : Option ℕ

pub record Resources : Type 0 where
  pub facilities : List FacilityRow
  pub operators : List OperatorRow
  pub users : List UserRow
  pub bookings : List Booking

pub data TransitionError : Type 0 where
  resource_not_found over_quota anonymised : TransitionError
  wrong_state : LifecycleStatus → TransitionError
  has_active_bookings : ℕ → TransitionError
  has_active_facilities : ℕ → TransitionError

-- A transaction that fails leaves the tables as they were.
pub data Transition : Type 0 where
  transitioned : Resources → Transition
  rejected : TransitionError → Transition

abbrev pub after : Transition → Resources → Resources
after (transitioned r) before = r
after (rejected e) before = before

abbrev pub facility_key : FacilityRow → ℕ
facility_key f = f.id

abbrev pub operator_key : OperatorRow → ℕ
operator_key o = o.id

abbrev pub user_key : UserRow → ℕ
user_key u = u.id

-- `loadFacility`, `loadOperator` and `loadUser`, and what is done with the row.
module _ {ℓ} {A : Type ℓ} (status : A → LifecycleStatus) where
  abbrev pub on_row : List LifecycleStatus → (A → Transition) → Option A → Transition
  on_row from act none = rejected resource_not_found
  on_row from act (some row) =
      if includes_status from (status row) then act row else rejected (wrong_state (status row))

abbrev pub is_unhonoured : ℕ → ℕ → Booking → Bool
is_unhonoured k now b =
    b.facility_id == k
    && ((is_status b.status confirmed || is_status b.status checked_in) && ltb now b.ends_at)

abbrev pub retired_facility : LifecycleStatus → FacilityRow → FacilityRow
retired_facility s f = record f { lifecycle_status = s; is_active = false }

-- What archiving and tombstoning a facility share.
abbrev pub retire_facility : List LifecycleStatus → LifecycleStatus → ℕ → ℕ → Resources → Transition
retire_facility from s k now r =
    on_row (λ (f : FacilityRow). f.lifecycle_status) from
      (λ f.
        if count_if (is_unhonoured k now) r.bookings == 0
        then transitioned
            (record r { facilities = update_row facility_key k (retired_facility s) r.facilities })
        else rejected (has_active_bookings (count_if (is_unhonoured k now) r.bookings)))
      (find_row facility_key k r.facilities)

unfoldable pub archive_facility : ℕ → ℕ → Resources → Transition
archive_facility = retire_facility (active ∷ []) archived

unfoldable pub tombstone_facility : ℕ → ℕ → Resources → Transition
tombstone_facility = retire_facility (active ∷ archived ∷ []) tombstoned

abbrev pub is_of : ℕ → Option ℕ → Bool
is_of k none = false
is_of k (some o) = o == k

-- A facility that counts for its operator.
abbrev pub lives_under : ℕ → FacilityRow → Bool
lives_under k f = is_of k f.operator_id && is_live f.lifecycle_status

abbrev pub over_limit : (ℕ → Option ℕ) → Option ℕ → Resources → Bool
over_limit limit none r = false
over_limit limit (some o) r = exceeds (limit o) (count_if (lives_under o) r.facilities)

abbrev pub live_facility : FacilityRow → FacilityRow
live_facility f = record f { lifecycle_status = active }

-- `limit` is the quota of facilities of an operator, where none is no limit.
unfoldable pub restore_facility : (ℕ → Option ℕ) → ℕ → Resources → Transition
restore_facility limit k r =
    on_row (λ (f : FacilityRow). f.lifecycle_status) (archived ∷ tombstoned ∷ [])
      (λ f.
        if over_limit limit f.operator_id r
        then rejected over_quota
        else transitioned
            (record r { facilities = update_row facility_key k live_facility r.facilities }))
      (find_row facility_key k r.facilities)

abbrev pub set_operator : LifecycleStatus → OperatorRow → OperatorRow
set_operator s o = record o { lifecycle_status = s }

abbrev pub move_operator : LifecycleStatus → ℕ → Resources → Resources
move_operator s k r = record r {
  operators = update_row operator_key k (set_operator s) r.operators;
}

abbrev pub retire_operator : List LifecycleStatus → LifecycleStatus → ℕ → Resources → Transition
retire_operator from s k r =
    on_row (λ (o : OperatorRow). o.lifecycle_status) from
      (λ o.
        if count_if (lives_under k) r.facilities == 0
        then transitioned (move_operator s k r)
        else rejected (has_active_facilities (count_if (lives_under k) r.facilities)))
      (find_row operator_key k r.operators)

unfoldable pub archive_operator : ℕ → Resources → Transition
archive_operator = retire_operator (active ∷ []) archived

unfoldable pub tombstone_operator : ℕ → Resources → Transition
tombstone_operator = retire_operator (active ∷ archived ∷ []) tombstoned

unfoldable pub restore_operator : ℕ → Resources → Transition
restore_operator k r =
    on_row (λ (o : OperatorRow). o.lifecycle_status) (archived ∷ tombstoned ∷ [])
      (λ o. transitioned (move_operator active k r)) (find_row operator_key k r.operators)

-- The sessions that began before are over.
abbrev pub retired_user : LifecycleStatus → ℕ → UserRow → UserRow
retired_user s now u = record u { lifecycle_status = s; sessions_valid_from = some now }

abbrev pub retire_user : List LifecycleStatus → LifecycleStatus → ℕ → ℕ → Resources → Transition
retire_user from s k now r =
    on_row (λ (u : UserRow). u.lifecycle_status) from
      (λ u. transitioned (record r { users = update_row user_key k (retired_user s now) r.users }))
      (find_row user_key k r.users)

unfoldable pub archive_user : ℕ → ℕ → Resources → Transition
archive_user = retire_user (active ∷ []) archived

unfoldable pub tombstone_user : ℕ → ℕ → Resources → Transition
tombstone_user = retire_user (active ∷ archived ∷ []) tombstoned

abbrev pub live_user : UserRow → UserRow
live_user u = record u { lifecycle_status = active }

abbrev pub restore_live : ℕ → Resources → UserRow → Transition
restore_live k r u = elim u.deleted_at [
  | some at ↦ rejected anonymised
  | none ↦ transitioned (record r { users = update_row user_key k live_user r.users })
]

unfoldable pub restore_user : ℕ → Resources → Transition
restore_user k r =
    on_row (λ (u : UserRow). u.lifecycle_status) (archived ∷ tombstoned ∷ []) (restore_live k r)
      (find_row user_key k r.users)
