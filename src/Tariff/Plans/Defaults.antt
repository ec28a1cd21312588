-- ===== src/Tariff/Plans/Defaults.antt =====
-- The defaults over the changes of plans (src/tariff/tariff.service.ts).
use saprk_parking_api.Prelude.{
  ℕ, ◌≤◌, ◌≡◌, refl, sym, ap, subst, ◌∙◌, inl, inr, Bool, true, false, ◌&&◌, ◌||◌, not, Option,
  none, some, List, [], ◌∷◌, leb, ◌==◌, ==_iff, if◌then◌else◌, count_if, count_mono, arith,
  Bool-cases,
}
use saprk_parking_api.Store.Table.{find_row, update_row, find_row-key, find_row-update_row}
use saprk_parking_api.Store.Rows.{count-update_row-exact}
use saprk_parking_api.Tariff.Quote.{is_live, can_be_default}
use saprk_parking_api.Tariff.Plans.{
  PlanRow, PlanTables, PlanDraft, PlanError, ◌then_with◌, second_default, default_prices_all,
  limit_exceeded, exceeds, Changed, changed, failed, plan_key, in_force, serves, store_plans,
  set_default, unset_defaults, other_default, any_default, promote, promote_candidate,
  replace_default, remaining, guard_default_removal, created_row, create_as, create_plan,
}

-- At most one active default for each operator.
abbrev pub OneDefault : List PlanRow → Type 0
OneDefault plans = (k : ℕ) → count_if (serves k) plans ≤ 1

pub count-unset_defaults :
    (test : PlanRow → Bool) (k : ℕ) (plans : List PlanRow)
    → count_if (serves k) (unset_defaults test plans) ≤ count_if (serves k) plans
unfolding unset_defaults
count-unset_defaults test k [] = omega arith
count-unset_defaults test k (p ∷ plans) = ground (arith, count-unset_defaults test k plans)

count-unset_any :
    (k : ℕ) (plans : List PlanRow) → count_if (serves k) (unset_defaults (any_default k) plans) ≡ 0
unfolding unset_defaults
count-unset_any k [] = refl
count-unset_any k (p ∷ plans) = ground (arith, count-unset_any k plans)

abbrev pub is_second : PlanError → Bool
is_second second_default = true
is_second _ = false

-- The change went through and leaves at most one active default for each operator, or it failed, and
-- not at the index.
abbrev pub Indexed : Changed → Type 0
Indexed (changed t) = OneDefault t.plans
Indexed (failed e) = is_second e ≡ false

pub store-Indexed :
    (k : ℕ) (plans : List PlanRow) (t : PlanTables)
    → OneDefault plans
    → Indexed (store_plans k plans t)
store-Indexed k plans t one = subst Indexed (sym step) one
  where
    step : store_plans k plans t ≡ changed (record t { plans = plans })
    step = ground (arith, one k)

pub if-Indexed :
    (b : Bool) (x y : Changed)
    → (b ≡ true → Indexed x)
    → (b ≡ false → Indexed y)
    → Indexed (if b then x else y)
if-Indexed true x y h k = h refl
if-Indexed false x y h k = k refl

created-OneDefault :
    (new_id k : ℕ) (draft : PlanDraft) (d : Bool) (plans : List PlanRow)
    → OneDefault plans
    → OneDefault
        (created_row new_id k draft d ∷ (if d then unset_defaults (any_default k) plans else plans))
created-OneDefault new_id k draft true plans one j = elim (Bool-cases (k == j)) [
  | inl e ↦ ground (arith, ==_iff k j, count-unset_any k plans)
  | inr e ↦ ground (arith, one j, count-unset_defaults (any_default k) j plans)
]
created-OneDefault new_id k draft false plans one j = ground (arith, one j)

-- From tables with at most one active default for each operator, a plan that is created leaves at
-- most one, and the creation never fails at the index.
pub create_plan-Indexed :
    (limit : Option ℕ) (new_id k : ℕ) (draft : PlanDraft) (t : PlanTables)
    → OneDefault t.plans
    → Indexed (create_plan limit new_id k draft t)
unfolding create_plan
create_plan-Indexed limit new_id k draft t one =
    let test = draft.is_default && not (can_be_default draft.vehicle_types) in
    let full = exceeds limit (count_if (in_force k) t.plans) in
    let d =
      draft.is_default
      || (count_if (in_force k) t.plans == 0 && can_be_default draft.vehicle_types) in
    let made = create_as new_id k draft d t in
    if-Indexed test (failed default_prices_all) (if full then failed limit_exceeded else made)
      (λ h. refl {a = false})
      (λ priced.
        if-Indexed full (failed limit_exceeded) made (λ h. refl {a = false})
          (λ room.
            store-Indexed k
              (created_row new_id k draft d
                ∷ (if d then unset_defaults (any_default k) t.plans else t.plans))
              t (created-OneDefault new_id k draft d t.plans one)))

-- A row that is written where it stood leaves at most one default, where it is of the same operator,
-- and serves only if it did or if none does.
pub update-OneDefault :
    (f : PlanRow → PlanRow) (p : PlanRow) (plans : List PlanRow)
    → find_row plan_key p.id plans ≡ some p
    → OneDefault plans
    → ((j : ℕ) → serves j (f p) ≡ true → serves j p ≡ false → count_if (serves j) plans ≡ 0)
    → OneDefault (update_row plan_key p.id f plans)
update-OneDefault f p plans row one new j =
    ground (arith, one j, new j, count-update_row-exact plan_key (serves j) p.id f plans p row)

-- What a plan that is the only row of its id says of the rows of that id.
pub count-own :
    (test : PlanRow → Bool) (p : PlanRow) (k : ℕ) (plans : List PlanRow)
    → find_row plan_key k plans ≡ some p
    → count_if (λ x. x.id == k) plans ≤ 1
    → test p ≡ false
    → count_if (λ x. test x && x.id == k) plans ≡ 0
count-own test p k [] row unique no_test = refl
count-own test p k (x ∷ plans) row unique no_test = elim (Bool-cases (x.id == k)) [
  | inl e ↦
      ground
        (arith, count_mono (λ y. test y && y.id == k) (λ y. y.id == k) plans (λ y h. ground arith))
  | inr e ↦ ground (arith, count-own test p k plans)
]

-- Once the other defaults of an operator are unset, only rows of the plan itself are defaults.
pub count-unset_other :
    (j k : ℕ) (plans : List PlanRow)
    → count_if (serves j) (unset_defaults (other_default j k) plans)
      ≤ count_if (λ x. serves j x && x.id == k) plans
unfolding unset_defaults
count-unset_other j k [] = omega arith
count-unset_other j k (p ∷ plans) = ground (arith, count-unset_other j k plans)

pub find_row-unset_other :
    (j k : ℕ) (plans : List PlanRow)
    → find_row plan_key k (unset_defaults (other_default j k) plans) ≡ find_row plan_key k plans
unfolding unset_defaults
find_row-unset_other j k [] = refl
find_row-unset_other j k (p ∷ plans) = ground (arith, find_row-unset_other j k plans)

-- A step that went through with at most one default and the plan's row still there, or that failed,
-- and not at the index.
abbrev pub Guarded : ℕ → Changed → Type 0
Guarded k (changed t) =
    OneDefault t.plans × ((p : PlanRow) × (find_row plan_key p.id t.plans ≡ some p) × (p.id ≡ k))
Guarded k (failed e) = is_second e ≡ false

row-kept :
    (f : PlanRow → PlanRow) (c k : ℕ) (p : PlanRow) (plans : List PlanRow)
    → ((r : PlanRow) → (f r).id ≡ r.id)
    → find_row plan_key k plans ≡ some p
    → (q : PlanRow) × (find_row plan_key k (update_row plan_key c f plans) ≡ some q)
row-kept f c k p plans same row = elim (Bool-cases (c == k)) [
  | inl e ↦ (f p, ground (arith, find_row-update_row plan_key c k f plans same))
  | inr e ↦ (p, ground (arith, find_row-update_row plan_key c k f plans same))
]

module _ (p : PlanRow) (t : PlanTables) (row : find_row plan_key p.id t.plans ≡ some p)
    (one : OneDefault t.plans) (live : is_live p.lifecycle_status ≡ true)
    (held : (p.is_default && p.is_active) ≡ true) where
  cleared-OneDefault : OneDefault (update_row plan_key p.id (set_default false) t.plans)
  cleared-OneDefault =
      update-OneDefault (set_default false) p t.plans row one (λ j h k. absurd (ground arith))

  pub cleared-none :
      count_if (serves p.operator_id) (update_row plan_key p.id (set_default false) t.plans) ≡ 0
  cleared-none = ground (
    arith,
    one p.operator_id,
    ==_iff p.operator_id p.operator_id,
    count-update_row-exact plan_key (serves p.operator_id) p.id (set_default false) t.plans p row,
  )

  promoted-with :
      (c : ℕ) (q : PlanRow)
      → find_row plan_key c (update_row plan_key p.id (set_default false) t.plans) ≡ some q
      → in_force p.operator_id q ≡ true
      → OneDefault (
          update_row plan_key c
            (set_default true)
            (update_row plan_key p.id (set_default false) t.plans))
  promoted-with c q found force =
      let plans = update_row plan_key p.id (set_default false) t.plans in
      let key = find_row-key plan_key c plans q found in
      subst (λ k. OneDefault (update_row plan_key k (set_default true) plans)) key
        (update-OneDefault (set_default true) q plans
          (ap (λ k. find_row plan_key k plans) key ∙ found) cleared-OneDefault
          (λ j h k.
            ground
              (arith, cleared-none, ==_iff q.operator_id p.operator_id, ==_iff q.operator_id j)))

  pub promote-changed :
      (c : ℕ)
      → OneDefault (
          update_row plan_key c
            (set_default true)
            (update_row plan_key p.id (set_default false) t.plans))
      → promote p.operator_id p.id c t
        ≡ changed (record t {
          plans =
              update_row plan_key c
                (set_default true)
                (update_row plan_key p.id (set_default false) t.plans);
        })
  promote-changed c one_after = ground (arith, one_after p.operator_id)

  pub promoted-OneDefault :
      (c : ℕ) (q : PlanRow)
      → find_row plan_key c t.plans ≡ some q
      → in_force p.operator_id q ≡ true
      → OneDefault (
          update_row plan_key c
            (set_default true)
            (update_row plan_key p.id (set_default false) t.plans))
  promoted-OneDefault c q found force = elim (Bool-cases (p.id == c)) [
    | inl e ↦
        promoted-with c (set_default false q)
          (ground
            (arith, find_row-update_row plan_key p.id c (set_default false) t.plans (λ r. refl)))
          force
    | inr e ↦
        promoted-with c q
          (ground
            (arith, find_row-update_row plan_key p.id c (set_default false) t.plans (λ r. refl)))
          force
  ]

  guarded :
      (c : ℕ) (q : PlanRow)
      → find_row plan_key c t.plans ≡ some q
      → in_force p.operator_id q ≡ true
      → Guarded p.id (promote p.operator_id p.id c t)
  guarded c q found force =
      let one_after = promoted-OneDefault c q found force in
      let (r, first) = row-kept (set_default false) p.id p.id p t.plans (λ x. refl) row in
      let (r', second) =
        row-kept (set_default true) c p.id r (update_row plan_key p.id (set_default false) t.plans)
          (λ x. refl) first in
      let same =
        find_row-key plan_key p.id
          (update_row plan_key c (set_default true)
            (update_row plan_key p.id (set_default false) t.plans))
          r' second in
      subst (Guarded p.id) (sym (promote-changed c one_after)) (
        one_after,
        (
          r',
          ap
                (λ k. find_row plan_key k (
                  update_row plan_key c (set_default true)
                    (update_row plan_key p.id (set_default false) t.plans)))
                same
              ∙ second,
          same,
        ),
      )

  candidate-Guarded :
      (c : ℕ) (sees : ℕ → Bool) (o : Option PlanRow)
      → find_row plan_key c t.plans ≡ o
      → Guarded p.id (promote_candidate p.operator_id p.id c sees o t)
  candidate-Guarded c sees none found = refl
  candidate-Guarded c sees (some q) found = elim (Bool-cases (in_force p.operator_id q && sees c)) [
    | inr no_plan ↦ rw no_plan (refl {a = false})
    | inl force ↦ elim (Bool-cases (can_be_default q.vehicle_types)) [
      | inr some_types ↦ rw (force, some_types) (refl {a = false})
      | inl all_types ↦ rw (force, all_types) (guarded c q found (ground arith))
    ]
  ]

  replace-Guarded :
      (sees : ℕ → Bool) (o : Option ℕ) → Guarded p.id (replace_default p.operator_id p.id sees o t)
  replace-Guarded sees none = refl
  replace-Guarded sees (some c) = candidate-Guarded c sees (find_row plan_key c t.plans) refl

  pub guard_default_removal-Guarded :
      (stays : Bool) (sees : ℕ → Bool) (o : Option ℕ)
      → Guarded p.id (guard_default_removal p.operator_id p.id stays sees o t)
  unfolding guard_default_removal
  guard_default_removal-Guarded stays sees o =
      elim (Bool-cases (leb (remaining p.operator_id p.id stays t) 1)) [
        | inl few ↦ rw few (one, (p, row, refl))
        | inr more ↦ rw more (replace-Guarded sees o)
      ]

-- A step that keeps the row, and then a write of the row that does not serve.
pub then-Indexed :
    (k : ℕ) (m : Changed) (next : PlanTables → Changed)
    → Guarded k m
    → ((t : PlanTables) (p : PlanRow)
        → OneDefault t.plans
        → find_row plan_key p.id t.plans ≡ some p
        → p.id ≡ k
        → Indexed (next t))
    → Indexed (m then_with next)
then-Indexed k (failed e) next h step = h
then-Indexed k (changed t) next (one, (p, row, same)) step = step t p one row same
