-- ===== src/Tariff/Plans/Lifecycle/Back.antt =====
-- A plan that is archived or tombstoned and then restored is back (src/lifecycle/lifecycle.service.ts).
use saprk_parking_api.Prelude.{
  ℕ, ◌+◌, ◌≤◌, ◌≡◌, refl, sym, ap, ◌∙◌, inl, inr, Bool, true, false, ◌&&◌, Option, none, some, List,
  [], ◌∷◌, ◌==◌, ==_iff, if◌then◌else◌, count_if, find_first, arith, Bool-cases, get, put, get-put,
  nat_has_eq,
}
use mathlib.Core.Option.{some-injective}
use saprk_parking_api.Store.Table.{find_row, update_row, find_row-update_row}
use saprk_parking_api.Store.Rows.{count-update_row-exact}
use saprk_parking_api.Tariff.Quote.{LifecycleStatus, active, archived, tombstoned, purged, is_live}
use saprk_parking_api.Tariff.Plans.{
  PlanRow, PlanTables, plan_key, in_force, serves, index_holds, exceeds,
}
use saprk_parking_api.Tariff.Plans.Defaults.{OneDefault}
use saprk_parking_api.Tariff.Plans.Lifecycle.{
  moved, set_lifecycle, written, archive_rows, tombstone_rows, takes_default, write_active,
  restore_row, restore_rows, LifecycleActor, LifecycleWrite, LifecycleAudit, LifecycleTables,
  recorded, write, plan_archived, plan_tombstoned, purge_after_instant, plan_restored, audit_row,
  archive_tariff_plan, tombstone_tariff_plan, restore_tariff_plan,
}

live-active : (s : LifecycleStatus) → is_live s ≡ true → s ≡ active
live-active active h = refl
live-active archived h = cc
live-active tombstoned h = cc
live-active purged h = cc

-- A search finds nothing where no element passes a weaker test.
find_first-none {ℓ} :
    {A : Type ℓ} (test other : A → Bool) (xs : List A)
    → ((x : A) → test x ≡ true → other x ≡ true)
    → count_if other xs ≡ 0
    → find_first test xs ≡ none
find_first-none test other [] weaker h = refl
find_first-none test other (x ∷ xs) weaker h =
    ground (arith, weaker x, find_first-none test other xs weaker)

-- Writing a row back to the status that it had leaves the rows as they were.
written-back :
    (s : LifecycleStatus) (k : ℕ) (p : PlanRow) (plans : List PlanRow)
    → find_row plan_key k plans ≡ some p
    → p.lifecycle_status ≡ active
    → update_row plan_key k (set_lifecycle active) (update_row plan_key k (set_lifecycle s) plans)
      ≡ plans
written-back s k p [] row live = refl
written-back s k p (x ∷ plans) row live = elim (Bool-cases (x.id == k)) [
  | inl e ↦
      let same : x ≡ p = some-injective x p (rw e at row) in
      let back : active ≡ x.lifecycle_status =
        sym (ap (λ (r : PlanRow). r.lifecycle_status) same ∙ live) in
      let step : update_row plan_key k (set_lifecycle active)
            (update_row plan_key k (set_lifecycle s) (x ∷ plans))
          ≡ record x { lifecycle_status = active } ∷ plans =
        ground arith in
      step ∙ ap (λ l. record x { lifecycle_status = l } ∷ plans) back
  | inr e ↦ ground (arith, written-back s k p plans)
]

module _ (s : LifecycleStatus) (k : ℕ) (p : PlanRow) (t : PlanTables)
    (row : find_row plan_key k t.plans ≡ some p) (one : OneDefault t.plans)
    (live : is_live p.lifecycle_status ≡ true) (gone : is_live s ≡ false) where
  gone-row : find_row plan_key k (written s k t).plans ≡ some (set_lifecycle s p)
  gone-row =
      ground
        (arith, ==_iff k k, find_row-update_row plan_key k k (set_lifecycle s) t.plans (λ r. refl))

  gone-free :
      (p.is_default && p.is_active) ≡ true
      → find_first (takes_default p.operator_id k) (written s k t).plans ≡ none
  gone-free held =
      find_first-none (takes_default p.operator_id k) (serves p.operator_id) (written s k t).plans
        (λ q h. ground arith)
        (ground (
          arith,
          one p.operator_id,
          ==_iff p.operator_id p.operator_id,
          count-update_row-exact plan_key (serves p.operator_id) k (set_lifecycle s) t.plans p row,
        ))

  gone-count :
      p.is_active ≡ true
      → count_if (in_force p.operator_id) (written s k t).plans + 1
        ≡ count_if (in_force p.operator_id) t.plans
  gone-count on = ground (
    arith,
    ==_iff p.operator_id p.operator_id,
    count-update_row-exact plan_key (in_force p.operator_id) k (set_lifecycle s) t.plans p row,
  )

  back : written active k (written s k t) ≡ t
  back =
      ap (λ plans. record t { plans = plans })
        (written-back s k p t.plans row (live-active p.lifecycle_status live))

  room_left :
      (limit : Option ℕ)
      → ((n : ℕ) → limit ≡ some n → count_if (in_force p.operator_id) t.plans ≤ n)
      → (p.is_active && exceeds limit (count_if (in_force p.operator_id) (written s k t).plans))
        ≡ false
  room_left none within = ground arith
  room_left (some n) within = ground (arith, within n refl, gone-count)

  -- The index takes the row back.
  write_active-back : write_active p.operator_id k (written s k t) ≡ moved t
  write_active-back =
      let room : index_holds p.operator_id (written active k (written s k t)).plans ≡ true =
        ap (λ u. index_holds p.operator_id u.plans) back ∙ ground (arith, one p.operator_id) in
      rw room (ap moved back)

  restore_row-back :
      (limit : Option ℕ)
      → ((n : ℕ) → limit ≡ some n → count_if (in_force p.operator_id) t.plans ≤ n)
      → restore_row limit k (written s k t) (set_lifecycle s p) ≡ moved t
  restore_row-back limit within = elim (Bool-cases (p.is_default && p.is_active)) [
    | inl held ↦ rw (room_left limit within, held, gone-free held) write_active-back
    | inr free ↦ rw (room_left limit within, free) write_active-back
  ]

-- The rows are as they were.
restore_rows-archive_rows :
    (limit : Option ℕ) (k : ℕ) (p : PlanRow) (t : PlanTables)
    → find_row plan_key k t.plans ≡ some p
    → is_live p.lifecycle_status ≡ true
    → OneDefault t.plans
    → ((n : ℕ) → limit ≡ some n → count_if (in_force p.operator_id) t.plans ≤ n)
    → (t' : PlanTables) × (archive_rows k t ≡ moved t') × (restore_rows limit k t' ≡ moved t)
unfolding archive_rows restore_rows
restore_rows-archive_rows limit k p t row live one within = (
  written archived k t,
  rw (row, live-active p.lifecycle_status live),
  rw (gone-row archived k p t row one live refl)
      (restore_row-back archived k p t row one live refl limit within),
)

-- The same of a tombstone.
restore_rows-tombstone_rows :
    (limit : Option ℕ) (k : ℕ) (p : PlanRow) (t : PlanTables)
    → find_row plan_key k t.plans ≡ some p
    → is_live p.lifecycle_status ≡ true
    → OneDefault t.plans
    → ((n : ℕ) → limit ≡ some n → count_if (in_force p.operator_id) t.plans ≤ n)
    → (t' : PlanTables) × (tombstone_rows k t ≡ moved t') × (restore_rows limit k t' ≡ moved t)
unfolding tombstone_rows restore_rows
restore_rows-tombstone_rows limit k p t row live one within = (
  written tombstoned k t,
  rw (row, live-active p.lifecycle_status live),
  rw (gone-row tombstoned k p t row one live refl)
      (restore_row-back tombstoned k p t row one live refl limit within),
)

-- What a change that was recorded and then a restore leave: the rows as they were, the restore's own
-- columns under the plan's id and nothing else changed, and one audit row for each of the two.
abbrev pub IsRestored :
    LifecycleTables → ℕ → LifecycleActor → ℕ → Option ℕ → LifecycleAudit → LifecycleTables → Type 0
IsRestored t k actor now reason first left =
    (left.tables ≡ t.tables)
    × ((j : ℕ)
        → get j left.writes ≡ (if k == j then some (write actor now none none) else get j t.writes))
    × (left.audit ≡ audit_row actor plan_restored k reason none ∷ first ∷ t.audit)

put-again :
    (k j : ℕ) (w v : LifecycleWrite) (m : List (ℕ × LifecycleWrite))
    → get j (put k v (put k w m)) ≡ (if k == j then some v else get j m)
put-again k j w v m = ground (arith, get-put k j v (put k w m), get-put k j w m)

module _ (limit : Option ℕ) (k : ℕ) (p : PlanRow) (t : LifecycleTables)
    (row : find_row plan_key k t.tables.plans ≡ some p) (live : is_live p.lifecycle_status ≡ true)
    (one : OneDefault t.tables.plans)
    (within : (n : ℕ) → limit ≡ some n → count_if (in_force p.operator_id) t.tables.plans ≤ n)
    (actor actor' : LifecycleActor) (now now' : ℕ) (reason reason' : Option ℕ) where
  -- An active plan that is archived and then restored, by anyone, is back in its state, where the
  -- operator has at most one active default and its plans in force are within its limit: the other
  -- columns of the plans and the assignments are as they were, the plan says that the second actor
  -- changed it, for no reason and with no time of a purge, and each of the two has one audit row.
  pub restore_tariff_plan-archive_tariff_plan :
      (t' left : LifecycleTables) × (archive_tariff_plan actor now reason k t ≡ recorded t')
      × (restore_tariff_plan limit actor' now' reason' k t' ≡ recorded left)
      × IsRestored t k actor' now' reason' (audit_row actor plan_archived k reason none) left
  unfolding archive_tariff_plan restore_tariff_plan
  restore_tariff_plan-archive_tariff_plan =
      let (rows, gone, back) = restore_rows-archive_rows limit k p t.tables row live one within in
      let w = write actor now reason none in
      let v = write actor' now' none none in
      let first = audit_row actor plan_archived k reason none in
      (
        record { tables = rows; writes = put k w t.writes; audit = first ∷ t.audit },
        record {
          tables = t.tables;
          writes = put k v (put k w t.writes);
          audit = audit_row actor' plan_restored k reason' none ∷ first ∷ t.audit;
        },
        rw gone refl,
        rw back refl,
        (refl, λ j. put-again k j w v t.writes, refl),
      )

  -- The same of a tombstone.
  pub restore_tariff_plan-tombstone_tariff_plan :
      (days : ℕ)
      → (t' left : LifecycleTables) × (tombstone_tariff_plan days actor now reason k t
          ≡ recorded t')
        × (restore_tariff_plan limit actor' now' reason' k t' ≡ recorded left)
        × IsRestored t k actor' now' reason'
            (audit_row actor plan_tombstoned k reason (some (purge_after_instant days now)))
            left
  unfolding tombstone_tariff_plan restore_tariff_plan
  restore_tariff_plan-tombstone_tariff_plan days =
      let (rows, gone, back) = restore_rows-tombstone_rows limit k p t.tables row live one within in
      let w = write actor now reason (some (purge_after_instant days now)) in
      let v = write actor' now' none none in
      let first = audit_row actor plan_tombstoned k reason (some (purge_after_instant days now)) in
      (
        record { tables = rows; writes = put k w t.writes; audit = first ∷ t.audit },
        record {
          tables = t.tables;
          writes = put k v (put k w t.writes);
          audit = audit_row actor' plan_restored k reason' none ∷ first ∷ t.audit;
        },
        rw gone refl,
        rw back refl,
        (refl, λ j. put-again k j w v t.writes, refl),
      )
