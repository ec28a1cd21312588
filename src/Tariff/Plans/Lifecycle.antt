-- ===== src/Tariff/Plans/Lifecycle.antt =====
-- Plans that are archived, tombstoned and restored (`archiveTariffPlan`, `tombstoneTariffPlan`,
-- `restoreTariffPlan`, `loadTariffPlan`, `write` and `audit` of src/lifecycle/lifecycle.service.ts), each
-- a transaction. The columns of a plan's row that only these write, who changed its state, when and
-- why, and when it may be purged, stand in a table of their own by the plan's id. `limit` is the
-- operator's quota of plans, where none is no limit; reasons are numbers, and an audit row has no
-- address.
pub mod Back
use saprk_parking_api.Prelude.{
  get, put, nat_has_eq, ◌*◌, ℕ, ◌+◌, ◌≤◌, ◌≡◌, refl, sym, ap, ◌∙◌, inl, inr, Bool, true, false,
  ◌&&◌, ◌||◌, not, Option, none, some, List, [], ◌∷◌, ◌==◌, ==_iff, if◌then◌else◌, count_if,
  find_first, arith, Bool-cases,
}
use mathlib.Core.Option.{some-injective}
use saprk_parking_api.Store.Table.{find_row, update_row, find_row-update_row}
use saprk_parking_api.Store.Rows.{count-update_row-exact}
use saprk_parking_api.Tariff.Quote.{LifecycleStatus, active, archived, tombstoned, purged, is_live}
use saprk_parking_api.Tariff.Plans.{
  PlanRow, PlanTables, plan_key, in_force, serves, index_holds, exceeds,
}
use saprk_parking_api.Tariff.Plans.Defaults.{OneDefault}

pub data LifecycleError : Type 0 where
  plan_missing no_room default_claimed : LifecycleError
  wrong_state : LifecycleStatus → LifecycleError
  default_taken : ℕ → LifecycleError

-- A transaction that fails leaves the tables as they were.
pub data Moved : Type 0 where
  moved : PlanTables → Moved
  not_moved : LifecycleError → Moved

abbrev pub status_code : LifecycleStatus → ℕ
status_code active = 0
status_code archived = 1
status_code tombstoned = 2
status_code purged = 3

-- `from.includes(status)`
abbrev pub includes_status : List LifecycleStatus → LifecycleStatus → Bool
includes_status [] s = false
includes_status (a ∷ from) s = status_code a == status_code s || includes_status from s

abbrev pub loaded : List LifecycleStatus → (PlanRow → Moved) → Option PlanRow → Moved
loaded from act none = not_moved plan_missing
loaded from act (some p) =
    if includes_status from p.lifecycle_status
    then act p
    else not_moved (wrong_state p.lifecycle_status)

abbrev pub set_lifecycle : LifecycleStatus → PlanRow → PlanRow
set_lifecycle s p = record p { lifecycle_status = s }

-- The rows of a plan's other columns.
abbrev pub written : LifecycleStatus → ℕ → PlanTables → PlanTables
written s k t = record t { plans = update_row plan_key k (set_lifecycle s) t.plans }

unfoldable pub archive_rows : ℕ → PlanTables → Moved
archive_rows k t =
    loaded (active ∷ []) (λ p. moved (written archived k t)) (find_row plan_key k t.plans)

unfoldable pub tombstone_rows : ℕ → PlanTables → Moved
tombstone_rows k t =
    loaded (active ∷ archived ∷ []) (λ p. moved (written tombstoned k t))
      (find_row plan_key k t.plans)

-- Another active default of the operator.
abbrev pub takes_default : ℕ → ℕ → PlanRow → Bool
takes_default operator_id k q = serves operator_id q && not (q.id == k)

-- The write, which the index of one active default for each operator may refuse.
abbrev pub write_active : ℕ → ℕ → PlanTables → Moved
write_active operator_id k t =
    if index_holds operator_id (written active k t).plans
    then moved (written active k t)
    else not_moved default_claimed

abbrev pub unless_taken : ℕ → ℕ → PlanTables → Option PlanRow → Moved
unless_taken operator_id k t none = write_active operator_id k t
unless_taken operator_id k t (some q) = not_moved (default_taken q.id)

abbrev pub restore_row : Option ℕ → ℕ → PlanTables → PlanRow → Moved
restore_row limit k t p =
    if p.is_active && exceeds limit (count_if (in_force p.operator_id) t.plans)
    then not_moved no_room
    else (if p.is_default && p.is_active
        then unless_taken p.operator_id k t (find_first (takes_default p.operator_id k) t.plans)
        else write_active p.operator_id k t)

unfoldable pub restore_rows : Option ℕ → ℕ → PlanTables → Moved
restore_rows limit k t =
    loaded (archived ∷ tombstoned ∷ []) (restore_row limit k t) (find_row plan_key k t.plans)

pub record LifecycleActor : Type 0 where
  pub id : ℕ
  pub role : ℕ

pub record LifecycleWrite : Type 0 where
  pub changed_at : ℕ
  pub changed_by : ℕ
  pub reason : Option ℕ
  pub purge_after : Option ℕ

pub data LifecycleAction : Type 0 where
  plan_archived plan_tombstoned plan_restored : LifecycleAction

pub record LifecycleAudit : Type 0 where
  pub actor_id : ℕ
  pub actor_role : ℕ
  pub action : LifecycleAction
  pub entity_id : ℕ
  pub reason : Option ℕ
  pub purge_after : Option ℕ

pub record LifecycleTables : Type 0 where
  pub tables : PlanTables
  pub writes : List (ℕ × LifecycleWrite)
  pub audit : List LifecycleAudit

pub data Recorded : Type 0 where
  recorded : LifecycleTables → Recorded
  not_recorded : LifecycleError → Recorded

abbrev pub write : LifecycleActor → ℕ → Option ℕ → Option ℕ → LifecycleWrite
write actor now reason purge_after = record {
  changed_at = now;
  changed_by = actor.id;
  reason = reason;
  purge_after = purge_after;
}

abbrev pub audit_row : LifecycleActor → LifecycleAction → ℕ → Option ℕ → Option ℕ → LifecycleAudit
audit_row actor action k reason purge_after = record {
  actor_id = actor.id;
  actor_role = actor.role;
  action = action;
  entity_id = k;
  reason = reason;
  purge_after = purge_after;
}

-- The rest of a transaction: the columns of the change and its audit row.
abbrev pub record_change : ℕ → LifecycleWrite → LifecycleAudit → LifecycleTables → Moved → Recorded
record_change k w row t (not_moved e) = not_recorded e
record_change k w row t (moved tables) =
    recorded (record { tables = tables; writes = put k w t.writes; audit = row ∷ t.audit })

unfoldable pub archive_tariff_plan : LifecycleActor → ℕ → Option ℕ → ℕ → LifecycleTables → Recorded
unfolding archive_rows
archive_tariff_plan actor now reason k t =
    record_change k (write actor now reason none) (audit_row actor plan_archived k reason none) t
      (archive_rows k t.tables)

-- `LIFECYCLE_PURGE_RETENTION_DAYS` is `days`.
abbrev pub purge_after_instant : ℕ → ℕ → ℕ
purge_after_instant days now = now + days * 86_400_000

unfoldable pub tombstone_tariff_plan :
    ℕ → LifecycleActor → ℕ → Option ℕ → ℕ → LifecycleTables → Recorded
unfolding tombstone_rows
tombstone_tariff_plan days actor now reason k t =
    let purge_after = some (purge_after_instant days now) in
    record_change k (write actor now reason purge_after)
      (audit_row actor plan_tombstoned k reason purge_after) t (tombstone_rows k t.tables)

unfoldable pub restore_tariff_plan :
    Option ℕ → LifecycleActor → ℕ → Option ℕ → ℕ → LifecycleTables → Recorded
unfolding restore_rows
restore_tariff_plan limit actor now reason k t =
    record_change k (write actor now none none) (audit_row actor plan_restored k reason none) t
      (restore_rows limit k t.tables)
