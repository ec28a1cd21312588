-- ===== src/Tariff/Plans/Revisions.antt =====
-- The defaults over a revision and a removal of a plan (`updatePlan` and `deletePlan` of
-- src/tariff/tariff.service.ts).
use saprk_parking_api.Prelude.{
  ℕ, ◌≤◌, ◌≡◌, refl, sym, ap, subst, ◌∙◌, Bool, true, false, ◌&&◌, not, Option, none, some, List,
  ◌==◌, ==_iff, if◌then◌else◌, count_if, arith,
}
use saprk_parking_api.Store.Table.{find_row, update_row, find_row-key}
use saprk_parking_api.Tariff.Quote.{is_live, can_be_default}
use saprk_parking_api.Tariff.Plans.{
  PlanRow, PlanTables, PlanDraft, default_prices_all, limit_exceeded, plan_not_found, Changed,
  changed, failed, plan_key, in_force, serves, unset_defaults, other_default, exceeds,
  guard_default_removal, ◌then_with◌, revised_row, settle_defaults, revise, update_live, on_live,
  update_plan, archived_row, archive, delete_live, delete_plan,
}
use saprk_parking_api.Tariff.Plans.Defaults.{
  OneDefault, Indexed, Guarded, store-Indexed, if-Indexed, update-OneDefault, count-own,
  count-unset_defaults, count-unset_other, find_row-unset_other, then-Indexed,
  guard_default_removal-Guarded,
}

-- A row written so that it serves nobody.
quiet-OneDefault :
    (f : PlanRow → PlanRow) (p : PlanRow) (k : ℕ) (plans : List PlanRow)
    → ((j : ℕ) (r : PlanRow) → serves j (f r) ≡ false)
    → OneDefault plans
    → find_row plan_key p.id plans ≡ some p
    → p.id ≡ k
    → OneDefault (update_row plan_key k f plans)
quiet-OneDefault f p k plans quiet one row same =
    subst (λ i. OneDefault (update_row plan_key i f plans)) same
      (update-OneDefault f p plans row one (λ j h no_before. absurd (ground (arith, quiet j p))))

-- From tables with at most one active default for each operator, a plan that is deleted leaves at
-- most one, and the deletion never fails at the index.
pub delete_plan-Indexed :
    (k : ℕ) (sees : ℕ → Bool) (new_default : Option ℕ) (t : PlanTables)
    → OneDefault t.plans
    → Indexed (delete_plan k sees new_default t)
unfolding delete_plan
delete_plan-Indexed k sees new_default t one = by_row (find_row plan_key k t.plans) refl
  where
    by_live :
        (p : PlanRow)
        → find_row plan_key p.id t.plans ≡ some p
        → is_live p.lifecycle_status ≡ true
        → Indexed (delete_live sees new_default t p)
    by_live p row live =
        then-Indexed p.id
          (if p.is_default && p.is_active
            then guard_default_removal p.operator_id p.id false sees new_default t
            else changed t)
          (archive p) (by_default (p.is_default && p.is_active) refl)
          (λ t' p' one' row' same.
            quiet-OneDefault archived_row p' p.id t'.plans (λ j r. ground arith) one' row' same)
      where
        by_default :
            (b : Bool)
            → (p.is_default && p.is_active) ≡ b
            → Guarded p.id (
                if b
                then guard_default_removal p.operator_id p.id false sees new_default t
                else changed t)
        by_default true held =
            guard_default_removal-Guarded p t row one live held false sees new_default
        by_default false held = (one, (p, row, refl))

    by_row :
        (o : Option PlanRow)
        → find_row plan_key k t.plans ≡ o
        → Indexed (on_live (delete_live sees new_default t) o)
    by_row none found = refl
    by_row (some p) found =
        if-Indexed (is_live p.lifecycle_status) (delete_live sees new_default t p)
          (failed plan_not_found)
          (λ live.
            by_live p
              (ap (λ i. find_row plan_key i t.plans) (find_row-key plan_key k t.plans p found)
                ∙ found)
              live)
          (λ gone. refl {a = false})

module _ (p : PlanRow) (draft : PlanDraft) (t : PlanTables)
    (row : find_row plan_key p.id t.plans ≡ some p) (one : OneDefault t.plans) where
  revise-Indexed :
      (t' : PlanTables)
      → OneDefault (update_row plan_key p.id (revised_row draft) t'.plans)
      → Indexed (revise p draft t')
  revise-Indexed t' one' =
      store-Indexed p.operator_id (update_row plan_key p.id (revised_row draft) t'.plans) t' one'

  -- After the guard: the row as revised is no active default.
  Guarded-Indexed :
      (m : Changed)
      → Guarded p.id m
      → (draft.is_active && draft.is_default) ≡ false
      → Indexed (m then_with revise p draft)
  Guarded-Indexed m h idle = then-Indexed p.id m (revise p draft) h (λ t' p' one' row' same.
      revise-Indexed t' (
        quiet-OneDefault (revised_row draft) p' p.id t'.plans (λ j r. ground arith) one' row' same))

  -- Where the plan is an active default and stays one.
  same-Indexed :
      is_live p.lifecycle_status ≡ true
      → (p.is_default && p.is_active) ≡ true
      → Indexed (revise p draft t)
  same-Indexed live held = revise-Indexed t (
      update-OneDefault (revised_row draft) p t.plans row one
        (λ j h no_before. absurd (ground arith)))

  -- Where the plan is none, and is to be no default.
  plain-Indexed : draft.is_default ≡ false → Indexed (revise p draft t)
  plain-Indexed plain =
      revise-Indexed t
        (quiet-OneDefault (revised_row draft) p p.id t.plans (λ j r. ground arith) one row refl)

  -- Where the plan is none, and the others are unset for it.
  only-Indexed :
      count_if (λ (x : PlanRow). x.id == p.id) t.plans ≤ 1
      → (p.is_default && p.is_active) ≡ false
      → Indexed (
          revise p draft
            (record t { plans = unset_defaults (other_default p.operator_id p.id) t.plans }))
  only-Indexed unique idle =
      let plans = unset_defaults (other_default p.operator_id p.id) t.plans in
      revise-Indexed (record t { plans = plans })
        (update-OneDefault (revised_row draft) p plans
          (find_row-unset_other p.operator_id p.id t.plans ∙ row)
          (λ j.
            omega (arith, one j, count-unset_defaults (other_default p.operator_id p.id) j t.plans))
          (λ j h no_before. ground (
            arith,
            ==_iff p.operator_id j,
            count-unset_other p.operator_id p.id t.plans,
            count-own (serves p.operator_id) p p.id t.plans row unique (ground arith),
          )))

  update_live-Indexed :
      (limit : Option ℕ) (sees : ℕ → Bool) (new_default : Option ℕ)
      → is_live p.lifecycle_status ≡ true
      → count_if (λ (x : PlanRow). x.id == p.id) t.plans ≤ 1
      → Indexed (update_live limit draft sees new_default t p)
  update_live-Indexed limit sees new_default live unique =
      if-Indexed full (failed limit_exceeded)
        (settle_defaults p draft sees new_default t then_with revise p draft)
        (λ h. refl {a = false})
        (λ room.
          by_default (p.is_default && p.is_active) refl draft.is_active refl draft.is_default refl)
    where
      full : Bool
      full =
          (not p.is_active && draft.is_active)
          && exceeds limit (count_if (in_force p.operator_id) t.plans)

      settled :
          (m : Changed)
          → settle_defaults p draft sees new_default t ≡ m
          → Indexed (m then_with revise p draft)
          → Indexed (settle_defaults p draft sees new_default t then_with revise p draft)
      settled m same h = subst (λ x. Indexed (x then_with revise p draft)) (sym same) h

      by_default :
          (b : Bool)
          → (p.is_default && p.is_active) ≡ b
          → (a : Bool) → draft.is_active ≡ a
          → (d : Bool) → draft.is_default ≡ d
          → Indexed (settle_defaults p draft sees new_default t then_with revise p draft)
      by_default true held false idle d e =
          settled (guard_default_removal p.operator_id p.id false sees new_default t) (ground arith)
            (Guarded-Indexed _
              (guard_default_removal-Guarded p t row one live held false sees new_default)
              (ground arith))
      by_default true held true e false plain =
          settled (guard_default_removal p.operator_id p.id true sees new_default t) (ground arith)
            (Guarded-Indexed _
              (guard_default_removal-Guarded p t row one live held true sees new_default)
              (ground arith))
      by_default true held true e true keep =
          settled (changed t) (ground arith) (same-Indexed live held)
      by_default false idle a e true wanted =
          settled
            (changed
              (record t { plans = unset_defaults (other_default p.operator_id p.id) t.plans }))
            (ground arith) (only-Indexed unique idle)
      by_default false idle a e false plain =
          settled (changed t) (ground arith) (plain-Indexed plain)

-- From tables with at most one active default for each operator and unique ids, a plan that is
-- revised leaves at most one, and the revision never fails at the index.
pub update_plan-Indexed :
    (limit : Option ℕ) (k : ℕ) (draft : PlanDraft) (sees : ℕ → Bool) (new_default : Option ℕ)
    (t : PlanTables)
    → OneDefault t.plans
    → ((j : ℕ) → count_if (λ (x : PlanRow). x.id == j) t.plans ≤ 1)
    → Indexed (update_plan limit k draft sees new_default t)
unfolding update_plan
update_plan-Indexed limit k draft sees new_default t one unique =
    if-Indexed (draft.is_default && not (can_be_default draft.vehicle_types))
      (failed default_prices_all)
      (on_live (update_live limit draft sees new_default t) (find_row plan_key k t.plans))
      (λ h. refl {a = false}) (λ priced. by_row (find_row plan_key k t.plans) refl)
  where
    by_row :
        (o : Option PlanRow)
        → find_row plan_key k t.plans ≡ o
        → Indexed (on_live (update_live limit draft sees new_default t) o)
    by_row none found = refl
    by_row (some p) found =
        if-Indexed (is_live p.lifecycle_status) (update_live limit draft sees new_default t p)
          (failed plan_not_found)
          (λ live.
            update_live-Indexed p draft t
              (ap (λ i. find_row plan_key i t.plans) (find_row-key plan_key k t.plans p found)
                ∙ found)
              one limit sees new_default live (unique p.id))
          (λ gone. refl {a = false})
