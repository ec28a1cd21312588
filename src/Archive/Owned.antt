-- ===== src/Archive/Owned.antt =====
-- Operators that are archived have no facility left (src/lifecycle/lifecycle.service.ts).
use saprk_parking_api.Prelude.{
  ℕ, ◌≡◌, refl, sym, ap, ◌∙◌, inl, inr, Bool, true, false, Option, none, some, List, [], ◌∷◌, ◌==◌,
  ==_iff, if◌then◌else◌, count_if, arith, Bool-cases, Option-cases,
}
use mathlib.Core.Option.{some-injective}
use saprk_parking_api.Store.Table.{find_row, update_row, find_row-update_row, count-update_row}
use saprk_parking_api.Store.Rows.{count-update_row-exact}
use saprk_parking_api.Tariff.Quote.{LifecycleStatus, active, archived, tombstoned, is_live}
use saprk_parking_api.Tariff.Plans.Lifecycle.{includes_status}
use saprk_parking_api.Archive.{
  FacilityRow, OperatorRow, Resources, Transition, after, facility_key, operator_key, on_row,
  is_unhonoured, retired_facility, retire_facility, archive_facility, tombstone_facility,
  lives_under, over_limit, live_facility, restore_facility, set_operator, retire_operator,
  archive_operator, tombstone_operator, restore_operator, UserRow, user_key, retire_user,
  archive_user, tombstone_user, restore_live, restore_user,
}

-- No operator that is not live has a live facility.
abbrev pub NoOrphans : Resources → Type 0
NoOrphans r =
    (k : ℕ) (o : OperatorRow)
    → find_row operator_key k r.operators ≡ some o
    → is_live o.lifecycle_status ≡ false
    → count_if (lives_under k) r.facilities ≡ 0

-- What holds before, and after what is done with a row of a state that is asked for, holds after.
after-on_row {ℓ} :
    {A : Type ℓ} (P : Resources → Type 0) (status : A → LifecycleStatus)
    (from : List LifecycleStatus) (act : A → Transition) (o : Option A) (r : Resources)
    → P r
    → ((a : A) → o ≡ some a → P (after (act a) r))
    → P (after (on_row status from act o) r)
after-on_row P status from act none r before step = before
after-on_row P status from act (some a) r before step =
    elim (Bool-cases (includes_status from (status a))) [
      | inl e ↦ rw e (step a refl)
      | inr e ↦ rw e before
    ]

after-if :
    (P : Resources → Type 0) (b : Bool) (x y : Transition) (r : Resources)
    → (b ≡ true → P (after x r))
    → (b ≡ false → P (after y r))
    → P (after (if b then x else y) r)
after-if P true x y r h k = h refl
after-if P false x y r h k = k refl

module _ (r : Resources) (none_left : NoOrphans r) where
  retire_facility-NoOrphans :
      (from : List LifecycleStatus) (s : LifecycleStatus) (k now : ℕ)
      → is_live s ≡ false
      → NoOrphans (after (retire_facility from s k now r) r)
  retire_facility-NoOrphans from s k now gone =
      after-on_row NoOrphans (λ (f : FacilityRow). f.lifecycle_status) from _
        (find_row facility_key k r.facilities) r none_left
        (λ f found.
          after-if NoOrphans (count_if (is_unhonoured k now) r.bookings == 0) _ _ r
            (λ e j o row closed. ground (
              arith,
              none_left j o row closed,
              count-update_row facility_key (lives_under j) k (retired_facility s) r.facilities f
                  found,
            ))
            (λ e. none_left))

  restore_facility-NoOrphans :
      (limit : ℕ → Option ℕ) (k : ℕ)
      → ((f : FacilityRow) (i : ℕ) (o : OperatorRow)
          → find_row facility_key k r.facilities ≡ some f
          → f.operator_id ≡ some i
          → find_row operator_key i r.operators ≡ some o
          → is_live o.lifecycle_status ≡ true)
      → NoOrphans (after (restore_facility limit k r) r)
  unfolding restore_facility
  restore_facility-NoOrphans limit k owned =
      after-on_row NoOrphans (λ (f : FacilityRow). f.lifecycle_status) (archived ∷ tombstoned ∷ [])
        _ (find_row facility_key k r.facilities) r none_left
        (λ f found.
          after-if NoOrphans (over_limit limit f.operator_id r) _ _ r (λ e. none_left)
            (λ e j o row closed.
              let strange : lives_under j (live_facility f) ≡ false =
                elim (Option-cases f.operator_id) [
                  | inl free ↦ rw free (refl {a = false})
                  | inr (i, h) ↦ ground (arith, ==_iff i j, owned f i o found h)
                ] in
              ground (
                arith,
                none_left j o row closed,
                count-update_row-exact facility_key (lives_under j) k live_facility r.facilities f
                    found,
              )))

  retire_operator-NoOrphans :
      (from : List LifecycleStatus) (s : LifecycleStatus) (k : ℕ)
      → NoOrphans (after (retire_operator from s k r) r)
  retire_operator-NoOrphans from s k =
      after-on_row NoOrphans (λ (o : OperatorRow). o.lifecycle_status) from _
        (find_row operator_key k r.operators) r none_left
        (λ o found.
          after-if NoOrphans (count_if (lives_under k) r.facilities == 0) _ _ r
            (λ e j o' row closed. elim (Bool-cases (k == j)) [
              | inl same ↦
                  ground (arith, ==_iff k j, ==_iff (count_if (lives_under k) r.facilities) 0)
              | inr other ↦
                  none_left j o'
                    (ground (
                      arith,
                      find_row-update_row operator_key k j (set_operator s) r.operators (λ x. refl),
                    ))
                    closed
            ])
            (λ e. none_left))

  restore_operator-NoOrphans : (k : ℕ) → NoOrphans (after (restore_operator k r) r)
  unfolding restore_operator
  restore_operator-NoOrphans k =
      after-on_row NoOrphans (λ (o : OperatorRow). o.lifecycle_status) (archived ∷ tombstoned ∷ [])
        _ (find_row operator_key k r.operators) r none_left
        (λ o found j o' row closed. elim (Bool-cases (k == j)) [
          | inl same ↦
              let there : find_row operator_key j
                    (update_row operator_key k (set_operator active) r.operators)
                  ≡ some (set_operator active o) =
                ground (
                  arith,
                  ==_iff k j,
                  find_row-update_row operator_key k j (set_operator active) r.operators
                      (λ x. refl),
                ) in
              let back : set_operator active o ≡ o' = some-injective _ _ (sym there ∙ row) in
              let live : is_live o'.lifecycle_status ≡ true =
                ap (λ (x : OperatorRow). is_live x.lifecycle_status) (sym back) in
              absurd (ground arith)
          | inr other ↦
              none_left j o'
                (ground (
                  arith,
                  find_row-update_row operator_key k j (set_operator active) r.operators
                      (λ x. refl),
                ))
                closed
        ])

  retire_user-NoOrphans :
      (from : List LifecycleStatus) (s : LifecycleStatus) (k now : ℕ)
      → NoOrphans (after (retire_user from s k now r) r)
  retire_user-NoOrphans from s k now =
      after-on_row NoOrphans (λ (u : UserRow). u.lifecycle_status) from _
        (find_row user_key k r.users) r none_left (λ u found. none_left)

  restore_user-NoOrphans : (k : ℕ) → NoOrphans (after (restore_user k r) r)
  unfolding restore_user
  restore_user-NoOrphans k =
      after-on_row NoOrphans (λ (u : UserRow). u.lifecycle_status) (archived ∷ tombstoned ∷ [])
        (restore_live k r) (find_row user_key k r.users) r none_left
        (λ u found. elim (Option-cases u.deleted_at) [
          | inl kept ↦ rw kept none_left
          | inr (at, h) ↦ rw h none_left
        ])

-- A request of the lifecycle service, where a facility is restored only under an operator that is
-- live.
pub data Step (limit : ℕ → Option ℕ) : Resources → Resources → Type 0 where
  facility_archived :
      (k now : ℕ) (r : Resources) → Step limit r (after (archive_facility k now r) r)
  facility_tombstoned :
      (k now : ℕ) (r : Resources) → Step limit r (after (tombstone_facility k now r) r)
  facility_restored :
      (k : ℕ) (r : Resources)
      → ((f : FacilityRow) (i : ℕ) (o : OperatorRow)
          → find_row facility_key k r.facilities ≡ some f
          → f.operator_id ≡ some i
          → find_row operator_key i r.operators ≡ some o
          → is_live o.lifecycle_status ≡ true)
      → Step limit r (after (restore_facility limit k r) r)
  operator_archived : (k : ℕ) (r : Resources) → Step limit r (after (archive_operator k r) r)
  operator_tombstoned : (k : ℕ) (r : Resources) → Step limit r (after (tombstone_operator k r) r)
  operator_restored : (k : ℕ) (r : Resources) → Step limit r (after (restore_operator k r) r)
  user_archived : (k now : ℕ) (r : Resources) → Step limit r (after (archive_user k now r) r)
  user_tombstoned : (k now : ℕ) (r : Resources) → Step limit r (after (tombstone_user k now r) r)
  user_restored : (k : ℕ) (r : Resources) → Step limit r (after (restore_user k r) r)

pub data Steps (limit : ℕ → Option ℕ) : Resources → Resources → Type 0 where
  finished : (r : Resources) → Steps limit r r
  more : {a b c : Resources} → Step limit a b → Steps limit b c → Steps limit a c

Step-NoOrphans :
    (limit : ℕ → Option ℕ) {a b : Resources} → Step limit a b → NoOrphans a → NoOrphans b
unfolding archive_facility tombstone_facility archive_operator tombstone_operator archive_user
    tombstone_user
Step-NoOrphans limit (facility_archived k now r) h =
    retire_facility-NoOrphans r h (active ∷ []) archived k now refl
Step-NoOrphans limit (facility_tombstoned k now r) h =
    retire_facility-NoOrphans r h (active ∷ archived ∷ []) tombstoned k now refl
Step-NoOrphans limit (facility_restored k r owned) h = restore_facility-NoOrphans r h limit k owned
Step-NoOrphans limit (operator_archived k r) h =
    retire_operator-NoOrphans r h (active ∷ []) archived k
Step-NoOrphans limit (operator_tombstoned k r) h =
    retire_operator-NoOrphans r h (active ∷ archived ∷ []) tombstoned k
Step-NoOrphans limit (operator_restored k r) h = restore_operator-NoOrphans r h k
Step-NoOrphans limit (user_archived k now r) h =
    retire_user-NoOrphans r h (active ∷ []) archived k now
Step-NoOrphans limit (user_tombstoned k now r) h =
    retire_user-NoOrphans r h (active ∷ archived ∷ []) tombstoned k now
Step-NoOrphans limit (user_restored k r) h = restore_user-NoOrphans r h k

-- Over every sequence of archivings, tombstonings and restores of facilities, operators and users,
-- where a facility is restored only under a live operator, no operator that is not live comes to have
-- a live facility.
pub Steps-NoOrphans :
    (limit : ℕ → Option ℕ) {a b : Resources} → Steps limit a b → NoOrphans a → NoOrphans b
Steps-NoOrphans limit (finished r) h = h
Steps-NoOrphans limit (more step rest) h = Steps-NoOrphans limit rest (Step-NoOrphans limit step h)
