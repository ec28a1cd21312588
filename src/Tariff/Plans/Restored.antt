-- ===== src/Tariff/Plans/Restored.antt =====
-- The defaults over restored plans (`restoreTariffPlan` of src/lifecycle/lifecycle.service.ts).
use saprk_parking_api.Prelude.{
  ℕ, ◌+◌, ◌≤◌, ◌≡◌, refl, sym, ap, subst, ◌∙◌, inl, inr, Bool, true, false, ◌&&◌, Option, none,
  some, List, [], ◌∷◌, ◌==◌, ==_iff, count_if, find_first, arith, Bool-cases, Option-cases,
}
use saprk_parking_api.Store.Table.{find_row, find_row-key}
use saprk_parking_api.Store.Rows.{count-none}
use saprk_parking_api.Tariff.Quote.{LifecycleStatus, active, archived, tombstoned, purged, is_live}
use saprk_parking_api.Tariff.Plans.{PlanRow, PlanTables, plan_key, in_force, serves, exceeds}
use saprk_parking_api.Tariff.Plans.Defaults.{OneDefault, update-OneDefault, count-own}
use saprk_parking_api.Tariff.Plans.Lifecycle.{
  LifecycleError, default_claimed, Moved, moved, not_moved, includes_status, loaded, set_lifecycle,
  written, takes_default, write_active, unless_taken, restore_row, restore_rows,
}

abbrev pub is_claimed : LifecycleError → Bool
is_claimed default_claimed = true
is_claimed _ = false

-- The plan moved and there is at most one active default for each operator, or it did not, and not
-- because of the index.
abbrev pub Settled : Moved → Type 0
Settled (moved t) = OneDefault t.plans
Settled (not_moved e) = is_claimed e ≡ false

count-others :
    (j k : ℕ) (plans : List PlanRow)
    → count_if (serves j) plans
      ≤ count_if (takes_default j k) plans + count_if (λ x. serves j x && x.id == k) plans
count-others j k [] = omega arith
count-others j k (x ∷ plans) = ground (arith, count-others j k plans)

gone-not_live :
    (s : LifecycleStatus)
    → includes_status (archived ∷ tombstoned ∷ []) s ≡ true
    → is_live s ≡ false
gone-not_live active h = cc
gone-not_live archived h = refl
gone-not_live tombstoned h = refl
gone-not_live purged h = cc

write_active-Settled :
    (operator_id k : ℕ) (t : PlanTables)
    → OneDefault (written active k t).plans
    → Settled (write_active operator_id k t)
write_active-Settled operator_id k t one = subst Settled (sym step) one
  where
    step : write_active operator_id k t ≡ moved (written active k t)
    step = ground (arith, one operator_id)

module _ (p : PlanRow) (t : PlanTables) (row : find_row plan_key p.id t.plans ≡ some p)
    (one : OneDefault t.plans) (unique : count_if (λ x. x.id == p.id) t.plans ≤ 1)
    (gone : is_live p.lifecycle_status ≡ false) where
  -- No other active default, so none at all.
  none-serves :
      find_first (takes_default p.operator_id p.id) t.plans ≡ none
      → count_if (serves p.operator_id) t.plans ≡ 0
  none-serves free = ground (
    arith,
    count-none (takes_default p.operator_id p.id) t.plans free,
    count-others p.operator_id p.id t.plans,
    count-own (serves p.operator_id) p p.id t.plans row unique,
  )

  restored-OneDefault :
      ((p.is_default && p.is_active) ≡ true
        → find_first (takes_default p.operator_id p.id) t.plans ≡ none)
      → OneDefault (written active p.id t).plans
  restored-OneDefault free =
      update-OneDefault (set_lifecycle active) p t.plans row one
        (λ j h k. ground (arith, none-serves, free, ==_iff p.operator_id j))

  taken-Settled :
      (o : Option PlanRow)
      → find_first (takes_default p.operator_id p.id) t.plans ≡ o
      → Settled (unless_taken p.operator_id p.id t o)
  taken-Settled none free =
      write_active-Settled p.operator_id p.id t (restored-OneDefault (λ h. free))
  taken-Settled (some q) found = refl

  restore_row-Settled : (limit : Option ℕ) → Settled (restore_row limit p.id t p)
  restore_row-Settled limit =
      elim (Bool-cases (p.is_active && exceeds limit (count_if (in_force p.operator_id) t.plans))) [
        | inl full ↦ rw full (refl {a = false})
        | inr room ↦ elim (Bool-cases (p.is_default && p.is_active)) [
          | inl held ↦
              rw (room, held)
                (taken-Settled (find_first (takes_default p.operator_id p.id) t.plans) refl)
          | inr no_default ↦
              rw (room, no_default)
                (write_active-Settled p.operator_id p.id t
                  (restored-OneDefault (λ h. absurd (ground arith))))
        ]
      ]

  loaded-Settled :
      (limit : Option ℕ)
      → includes_status (archived ∷ tombstoned ∷ []) p.lifecycle_status ≡ true
      → Settled (loaded (archived ∷ tombstoned ∷ []) (restore_row limit p.id t) (some p))
  loaded-Settled limit e = rw e (restore_row-Settled limit)

-- From tables with at most one active default for each operator and unique ids, a restored plan leaves
-- at most one, and no restore fails at the index.
pub restore_rows-Settled :
    (limit : Option ℕ) (k : ℕ) (t : PlanTables)
    → OneDefault t.plans
    → count_if (λ x. x.id == k) t.plans ≤ 1
    → Settled (restore_rows limit k t)
unfolding restore_rows
restore_rows-Settled limit k t one unique = elim (Option-cases (find_row plan_key k t.plans)) [
  | inl missing ↦ rw missing (refl {a = false})
  | inr (p, row) ↦
      elim (Bool-cases (includes_status (archived ∷ tombstoned ∷ []) p.lifecycle_status)) [
        | inr e ↦ rw (row, e) (refl {a = false})
        | inl e ↦
            let key = find_row-key plan_key k t.plans p row in
            rw row (
              subst
                (λ i.
                  Settled (loaded (archived ∷ tombstoned ∷ []) (restore_row limit i t) (some p)))
                key
                (loaded-Settled p t (ap (λ i. find_row plan_key i t.plans) key ∙ row) one
                  (subst (λ i. count_if (λ x. x.id == i) t.plans ≤ 1) (sym key) unique)
                  (gone-not_live p.lifecycle_status e) limit e))
      ]
]
