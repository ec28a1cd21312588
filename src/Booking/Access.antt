-- ===== src/Booking/Access.antt =====
-- Who may act on a booking (`assertBookingAccess` of src/booking/booking.service.ts, `resolve` of
-- src/common/authz/operator-scope.service.ts, `assertScope` of
-- src/operators/operator-access.service.ts).
use saprk_parking_api.Prelude.{
  ℕ, Bool, true, false, ◌||◌, Option, none, some, List, [], ◌∷◌, map, ◌==◌, if◌then◌else◌,
}
use saprk_parking_api.Store.{Facility, Booking, Db}
use saprk_parking_api.Store.Table.{find_row}
use saprk_parking_api.Store.Monad.{
  booking_not_found, operator_context_required, operator_not_found, forbidden, M, ◌>>=◌, return,
  throw, unless_throw, found_or, tables, booking_row,
}

-- The role 'user' is `regular_user`.
pub data UserRole : Type 0 where
  guest regular_user operator_staff operator_admin platform_admin super_admin : UserRole

-- A membership row; `booking_write` is what `scopesFor` and `hasOrgPermission` of `@spark/types`
-- answer for it about 'org:booking.write'.
pub record Membership : Type 0 where
  pub operator_id : ℕ
  pub booking_write : Bool

pub record AuthUser : Type 0 where
  pub id : ℕ
  pub role : UserRole
  pub memberships : List Membership

pub data OperatorScope : Type 0 where
  platform : OperatorScope
  operator : List ℕ → OperatorScope

abbrev pub is_platform_role : UserRole → Bool
is_platform_role platform_admin = true
is_platform_role super_admin = true
is_platform_role _ = false

abbrev pub is_operator_role : UserRole → Bool
is_operator_role operator_admin = true
is_operator_role operator_staff = true
is_operator_role _ = false

abbrev pub scope_of_members : List Membership → M OperatorScope
scope_of_members [] = throw operator_context_required
scope_of_members (m ∷ ms) = return (operator (map (λ x. x.operator_id) (m ∷ ms)))

unfoldable pub resolve_scope : AuthUser → M OperatorScope
resolve_scope user =
    if is_platform_role user.role
    then return platform
    else (if is_operator_role user.role
        then scope_of_members user.memberships
        else throw operator_context_required)

abbrev pub includes : List ℕ → ℕ → Bool
includes [] k = false
includes (j ∷ js) k = j == k || includes js k

-- The operator of the facility that a booking is at.
abbrev pub operator_of : Booking → Db → Option ℕ
operator_of b db = elim (find_row (λ (f : Facility). f.id) b.facility_id db.facilities) [
  | none ↦ none
  | some f ↦ f.operator_id
]

-- `operatorId !== null && scope.operatorIds.includes(operatorId)`, and always for a platform scope.
abbrev pub in_scope : OperatorScope → Option ℕ → Bool
in_scope platform operator_id = true
in_scope (operator ids) none = false
in_scope (operator ids) (some k) = includes ids k

abbrev pub is_staff : AuthUser → Bool
is_staff user = is_operator_role user.role || is_platform_role user.role

abbrev pub membership_in : ℕ → List Membership → Option Membership
membership_in k [] = none
membership_in k (m ∷ ms) = if m.operator_id == k then some m else membership_in k ms

-- `assertScope(user, operatorId, 'org:booking.write')`
unfoldable pub assert_scope : AuthUser → ℕ → M (Unit {0})
assert_scope user k = if is_platform_role user.role then return tt else (do
  m ← found_or (membership_in k user.memberships) operator_not_found
  unless_throw m.booking_write forbidden)

-- The staff branch; `needs_write` says whether a scope is asked for.
abbrev pub staff_access : AuthUser → Bool → Option ℕ → OperatorScope → M (Unit {0})
staff_access user needs_write operator_id platform = return tt
staff_access user needs_write none (operator ids) = throw booking_not_found
staff_access user needs_write (some k) (operator ids) =
    if includes ids k
    then (if needs_write then assert_scope user k else return tt)
    else throw booking_not_found

unfoldable pub assert_booking_access : ℕ → AuthUser → Bool → M (Unit {0})
unfolding resolve_scope assert_scope
assert_booking_access k user needs_write = do
  db ← tables
  b ← found_or (booking_row k db) booking_not_found
  if b.user_id == user.id
      then return tt
      else (if is_staff user
          then (resolve_scope user >>= λ scope.
              staff_access user needs_write (operator_of b db) scope)
          else throw booking_not_found)
