-- ===== src/Tariff/Plans/Kept.antt =====
-- A default that is deleted is replaced (`deletePlan` and `guardDefaultRemoval` of
-- src/tariff/tariff.service.ts).
use saprk_parking_api.Prelude.{
  ℕ, ◌≤◌, ◌≡◌, refl, sym, ap, ◌∙◌, inl, inr, Bool, true, false, ◌&&◌, not, Option, none, some, List,
  [], ◌∷◌, leb, ◌==◌, ==_iff, count_if, keep_if, arith, Bool-cases,
}
use saprk_parking_api.Store.Table.{find_row, update_row, find_row-update_row}
use saprk_parking_api.Store.Rows.{count-update_row-exact}
use saprk_parking_api.Tariff.Quote.{is_live, can_be_default}
use saprk_parking_api.Tariff.Plans.{
  PlanRow, PlanTables, changed, plan_key, in_force, serves, set_default, is_for, promote,
  promote_candidate, remaining, guard_default_removal, ◌then_with◌, archived_row, archive,
  delete_plan,
}
use saprk_parking_api.Tariff.Plans.Defaults.{
  OneDefault, cleared-none, promote-changed, promoted-OneDefault,
}

changed-injective : (a b : PlanTables) → changed a ≡ changed b → a ≡ b
changed-injective a b h = cc

row-counted :
    (test : PlanRow → Bool) (k : ℕ) (rows : List PlanRow) (r : PlanRow)
    → find_row plan_key k rows ≡ some r
    → test r ≡ true
    → 1 ≤ count_if test rows
row-counted test k [] r h e = cc
row-counted test k (x ∷ rows) r h e = ground (arith, row-counted test k rows r)

module _ (p : PlanRow) (c : ℕ) (t : PlanTables) (row : find_row plan_key p.id t.plans ≡ some p)
    (one : OneDefault t.plans) (live : is_live p.lifecycle_status ≡ true)
    (held : (p.is_default && p.is_active) ≡ true) (other : (p.id == c) ≡ false) where
  -- The plans once the flag is moved.
  abbrev moved : List PlanRow
  moved =
      update_row plan_key c (set_default true)
        (update_row plan_key p.id (set_default false) t.plans)

  moved-serves :
      (q : PlanRow)
      → find_row plan_key c t.plans ≡ some q
      → in_force p.operator_id q ≡ true
      → count_if (serves p.operator_id) moved ≡ 1
  moved-serves q found force =
      let cleared = update_row plan_key p.id (set_default false) t.plans in
      let there : find_row plan_key c cleared ≡ some q =
        ground
          (arith, find_row-update_row plan_key p.id c (set_default false) t.plans (λ r. refl)) in
      ground (
        arith,
        cleared-none p t row one live held,
        row-counted (serves p.operator_id) c cleared q there,
        count-update_row-exact plan_key (serves p.operator_id) c (set_default true) cleared q there,
      )

  moved-row : find_row plan_key p.id moved ≡ some (set_default false p)
  moved-row = ground (
    arith,
    ==_iff c p.id,
    ==_iff p.id c,
    ==_iff p.id p.id,
    find_row-update_row plan_key c p.id (set_default true)
        (update_row plan_key p.id (set_default false) t.plans) (λ r. refl),
    find_row-update_row plan_key p.id p.id (set_default false) t.plans (λ r. refl),
  )

  archived-serves :
      (q : PlanRow)
      → find_row plan_key c t.plans ≡ some q
      → in_force p.operator_id q ≡ true
      → count_if (serves p.operator_id) (update_row plan_key p.id archived_row moved) ≡ 1
  archived-serves q found force = ground (
    arith,
    moved-serves q found force,
    count-update_row-exact plan_key (serves p.operator_id) p.id archived_row moved
        (set_default false p) moved-row,
  )

  -- The tables that such a deletion leaves.
  abbrev final : PlanTables
  final = record t {
    plans = update_row plan_key p.id archived_row moved;
    assignments = keep_if (λ a. not (is_for p.id a)) t.assignments;
  }

  candidate-final :
      (sees : ℕ → Bool) (q : PlanRow) (left : PlanTables)
      → promote p.operator_id p.id c t ≡ changed (record t { plans = moved })
      → (in_force p.operator_id q && sees c) ≡ true
      → can_be_default q.vehicle_types ≡ true
      → (promote_candidate p.operator_id p.id c sees (some q) t then_with archive p) ≡ changed left
      → final ≡ left
  candidate-final sees q left promoted force all_types ran =
      changed-injective final left (sym step ∙ ran)
    where
      step :
          (promote_candidate p.operator_id p.id c sees (some q) t then_with archive p)
          ≡ changed final
      step = rw (force, all_types, promoted) refl

  candidate-serves :
      (sees : ℕ → Bool) (o : Option PlanRow) (left : PlanTables)
      → find_row plan_key c t.plans ≡ o
      → (promote_candidate p.operator_id p.id c sees o t then_with archive p) ≡ changed left
      → count_if (serves p.operator_id) left.plans ≡ 1
  candidate-serves sees none left found ran = absurd (cc)
  candidate-serves sees (some q) left found ran =
      elim (Bool-cases (in_force p.operator_id q && sees c)) [
        | inr no_plan ↦ absurd (ground arith)
        | inl force ↦ elim (Bool-cases (can_be_default q.vehicle_types)) [
          | inr some_types ↦ absurd (ground arith)
          | inl all_types ↦
              let promoted =
                promote-changed p t row one live held c
                  (promoted-OneDefault p t row one live held c q found (ground arith)) in
              ap (λ (x : PlanTables). count_if (serves p.operator_id) x.plans)
                (sym (candidate-final sees q left promoted force all_types ran))
              ∙ archived-serves q found (ground arith)
        ]
      ]

  -- Where at least two other plans of the operator are in force, a deletion of its active default that
  -- goes through, and names another plan as the new default, leaves the operator one active default,
  -- from tables with at most one for each operator.
  pub delete_plan-default :
      (sees : ℕ → Bool) (left : PlanTables)
      → leb (remaining p.operator_id p.id false t) 1 ≡ false
      → delete_plan p.id sees (some c) t ≡ changed left
      → count_if (serves p.operator_id) left.plans ≡ 1
  unfolding delete_plan guard_default_removal
  delete_plan-default sees left more ran =
      candidate-serves sees (find_row plan_key c t.plans) left refl (sym step ∙ ran)
    where
      step : delete_plan p.id sees (some c) t ≡ (
          promote_candidate p.operator_id p.id c sees (find_row plan_key c t.plans) t
          then_with archive p)
      step = ground arith
