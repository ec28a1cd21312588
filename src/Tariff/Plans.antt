-- ===== src/Tariff/Plans.antt =====
-- Plans as operators create, change and delete them: the transactions of `createPlan`, `updatePlan`,
-- `deletePlan` and `guardDefaultRemoval` of src/tariff/tariff.service.ts, once the caller is known to
-- own what they name. `limit` is the operator's quota of plans, where none is no limit, and `sees`
-- says which plans the caller manages. The name, the validity window and the managers of a plan, the
-- columns that say who archived it and when, and the audit log, are left out.
pub mod Defaults
pub mod Revisions
pub mod Kept
pub mod Lifecycle
pub mod Restored
use saprk_parking_api.Prelude.{
  ℕ, ◌+◌, Bool, true, false, ◌&&◌, ◌||◌, not, Option, none, some, List, [], ◌∷◌, leb, ◌==◌,
  if◌then◌else◌, keep_if, count_if,
}
use saprk_parking_api.Store.Table.{find_row, update_row}
use saprk_parking_api.Tariff.Draft.{CompilableDraft}
use saprk_parking_api.Tariff.Quote.{
  VehicleType, LifecycleStatus, active, archived, is_live, can_be_default,
}

pub record PlanRow : Type 0 where
  pub id : ℕ
  pub operator_id : ℕ
  pub is_active : Bool
  pub is_default : Bool
  pub lifecycle_status : LifecycleStatus
  pub vehicle_types : List VehicleType
  pub version : ℕ
  pub schedule : CompilableDraft

-- A row of the assignments: a facility and the plan that prices it.
pub record AssignmentRow : Type 0 where
  pub facility_id : ℕ
  pub plan_id : ℕ

pub record PlanTables : Type 0 where
  pub plans : List PlanRow
  pub assignments : List AssignmentRow

pub record PlanDraft : Type 0 where
  pub is_active : Bool
  pub is_default : Bool
  pub vehicle_types : List VehicleType
  pub schedule : CompilableDraft

-- `second_default` is the error of the database at its index of one active default for each operator.
pub data PlanError : Type 0 where
  default_prices_all plan_not_found limit_exceeded default_required second_default : PlanError

-- A transaction that fails leaves the tables as they were.
pub data Changed : Type 0 where
  changed : PlanTables → Changed
  failed : PlanError → Changed

abbrev pub plan_key : PlanRow → ℕ
plan_key p = p.id

abbrev pub in_force : ℕ → PlanRow → Bool
in_force k p = p.operator_id == k && (p.is_active && is_live p.lifecycle_status)

-- A row that the index counts.
abbrev pub serves : ℕ → PlanRow → Bool
serves k p = in_force k p && p.is_default

abbrev pub index_holds : ℕ → List PlanRow → Bool
index_holds k plans = leb (count_if (serves k) plans) 1

-- A write that the index may refuse.
abbrev pub store_plans : ℕ → List PlanRow → PlanTables → Changed
store_plans k plans t =
    if index_holds k plans then changed (record t { plans = plans }) else failed second_default

abbrev pub set_default : Bool → PlanRow → PlanRow
set_default b p = record p { is_default = b }

-- `updateMany({ where: { operatorId, isDefault: true, id: { not } }, data: { isDefault: false } })`
abbrev pub unset_where : (PlanRow → Bool) → PlanRow → PlanRow
unset_where test p = if test p then set_default false p else p

unfoldable pub unset_defaults : (PlanRow → Bool) → List PlanRow → List PlanRow
unset_defaults test [] = []
unset_defaults test (p ∷ plans) = unset_where test p ∷ unset_defaults test plans

abbrev pub other_default : ℕ → ℕ → PlanRow → Bool
other_default operator_id k p =
    (p.operator_id == operator_id && is_live p.lifecycle_status)
    && (p.is_default && not (p.id == k))

abbrev pub any_default : ℕ → PlanRow → Bool
any_default operator_id p =
    (p.operator_id == operator_id && is_live p.lifecycle_status) && p.is_default

-- `assertCanCreateTariffPlan`
abbrev pub exceeds : Option ℕ → ℕ → Bool
exceeds none current = false
exceeds (some limit) current = leb limit current

abbrev pub created_row : ℕ → ℕ → PlanDraft → Bool → PlanRow
created_row new_id operator_id draft is_default = record {
  id = new_id;
  operator_id = operator_id;
  is_active = draft.is_active;
  is_default = is_default;
  lifecycle_status = active;
  vehicle_types = draft.vehicle_types;
  version = 1;
  schedule = draft.schedule;
}

abbrev pub create_as : ℕ → ℕ → PlanDraft → Bool → PlanTables → Changed
create_as new_id operator_id draft is_default t =
    store_plans operator_id
      (created_row new_id operator_id draft is_default
        ∷ (if is_default then unset_defaults (any_default operator_id) t.plans else t.plans))
      t

unfoldable pub create_plan : Option ℕ → ℕ → ℕ → PlanDraft → PlanTables → Changed
unfolding can_be_default unset_defaults
create_plan limit new_id operator_id draft t =
    if draft.is_default && not (can_be_default draft.vehicle_types)
    then failed default_prices_all
    else (if exceeds limit (count_if (in_force operator_id) t.plans)
        then failed limit_exceeded
        else create_as new_id operator_id draft
            (draft.is_default
              || (count_if (in_force operator_id) t.plans == 0
                  && can_be_default draft.vehicle_types))
            t)

abbrev pub other_in_force : ℕ → ℕ → PlanRow → Bool
other_in_force operator_id k p = in_force operator_id p && not (p.id == k)

abbrev pub promote : ℕ → ℕ → ℕ → PlanTables → Changed
promote operator_id k c t =
    let plans =
      update_row plan_key c (set_default true)
        (update_row plan_key k (set_default false) t.plans) in
    if index_holds operator_id plans
    then changed (record t { plans = plans })
    else failed default_required

abbrev pub promote_candidate : ℕ → ℕ → ℕ → (ℕ → Bool) → Option PlanRow → PlanTables → Changed
promote_candidate operator_id k c sees none t = failed plan_not_found
promote_candidate operator_id k c sees (some p) t =
    if in_force operator_id p && sees c
    then (if can_be_default p.vehicle_types
        then promote operator_id k c t
        else failed default_prices_all)
    else failed plan_not_found

abbrev pub replace_default : ℕ → ℕ → (ℕ → Bool) → Option ℕ → PlanTables → Changed
replace_default operator_id k sees none t = failed default_required
replace_default operator_id k sees (some c) t =
    promote_candidate operator_id k c sees (find_row plan_key c t.plans) t

-- The plans in force that remain, with the plan itself where it stays.
abbrev pub remaining : ℕ → ℕ → Bool → PlanTables → ℕ
remaining operator_id k stays t =
    if stays
    then count_if (other_in_force operator_id k) t.plans + 1
    else count_if (other_in_force operator_id k) t.plans

unfoldable pub guard_default_removal : ℕ → ℕ → Bool → (ℕ → Bool) → Option ℕ → PlanTables → Changed
unfolding can_be_default
guard_default_removal operator_id k stays sees new_default t =
    if leb (remaining operator_id k stays t) 1
    then changed t
    else replace_default operator_id k sees new_default t

infixl 5 ◌then_with◌
abbrev pub ◌then_with◌ : Changed → (PlanTables → Changed) → Changed
(failed e) then_with next = failed e
(changed t) then_with next = next t

abbrev pub revised_row : PlanDraft → PlanRow → PlanRow
revised_row draft p = record p {
  is_active = draft.is_active;
  is_default = draft.is_default;
  vehicle_types = draft.vehicle_types;
  version = p.version + 1;
  schedule = draft.schedule;
}

-- What happens to the defaults before the row is revised.
abbrev pub settle_defaults : PlanRow → PlanDraft → (ℕ → Bool) → Option ℕ → PlanTables → Changed
settle_defaults p draft sees new_default t =
    if p.is_default && p.is_active
    then (if not draft.is_active
        then guard_default_removal p.operator_id p.id false sees new_default t
        else (if not draft.is_default
            then guard_default_removal p.operator_id p.id true sees new_default t
            else changed t))
    else (if draft.is_default
        then changed
            (record t { plans = unset_defaults (other_default p.operator_id p.id) t.plans })
        else changed t)

abbrev pub revise : PlanRow → PlanDraft → PlanTables → Changed
revise p draft t =
    store_plans p.operator_id (update_row plan_key p.id (revised_row draft) t.plans) t

abbrev pub update_live :
    Option ℕ → PlanDraft → (ℕ → Bool) → Option ℕ → PlanTables → PlanRow → Changed
update_live limit draft sees new_default t p =
    if (not p.is_active && draft.is_active)
      && exceeds limit (count_if (in_force p.operator_id) t.plans)
    then failed limit_exceeded
    else (settle_defaults p draft sees new_default t then_with revise p draft)

abbrev pub on_live : (PlanRow → Changed) → Option PlanRow → Changed
on_live act none = failed plan_not_found
on_live act (some p) = if is_live p.lifecycle_status then act p else failed plan_not_found

unfoldable pub update_plan : Option ℕ → ℕ → PlanDraft → (ℕ → Bool) → Option ℕ → PlanTables → Changed
unfolding can_be_default guard_default_removal unset_defaults
update_plan limit k draft sees new_default t =
    if draft.is_default && not (can_be_default draft.vehicle_types)
    then failed default_prices_all
    else on_live (update_live limit draft sees new_default t) (find_row plan_key k t.plans)

abbrev pub archived_row : PlanRow → PlanRow
archived_row p = record p { lifecycle_status = archived }

abbrev pub is_for : ℕ → AssignmentRow → Bool
is_for k a = a.plan_id == k

abbrev pub archive : PlanRow → PlanTables → Changed
archive p t = changed (record t {
  plans = update_row plan_key p.id archived_row t.plans;
  assignments = keep_if (λ a. not (is_for p.id a)) t.assignments;
})

abbrev pub delete_live : (ℕ → Bool) → Option ℕ → PlanTables → PlanRow → Changed
delete_live sees new_default t p =
    (if p.is_default && p.is_active
      then guard_default_removal p.operator_id p.id false sees new_default t
      else changed t)
    then_with archive p

unfoldable pub delete_plan : ℕ → (ℕ → Bool) → Option ℕ → PlanTables → Changed
unfolding guard_default_removal
delete_plan k sees new_default t =
    on_live (delete_live sees new_default t) (find_row plan_key k t.plans)
