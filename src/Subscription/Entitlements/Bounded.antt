-- ===== src/Subscription/Entitlements/Bounded.antt =====
-- What is resolved is within the schema, and what a change of plan is held to
-- (src/subscriptions/entitlement.service.ts).
use saprk_parking_api.Prelude.{
  ℕ, ◌≤◌, ◌≡◌, ◌↔◌, refl, ◌∙◌, inl, inr, Bool, true, false, Option, none, some, List, [], ◌∷◌, ◌++◌,
  ◌+◌, ◌&&◌, if◌then◌else◌, ltb, count_if, ◌==◌, arith, Bool-cases,
}
use saprk_parking_api.Tariff.Quote.{active, archived, tombstoned, purged, is_live}
use saprk_parking_api.Subscription.Entitlements.{
  Entitlements, EntitlementOverride, OperatorSubscription, OperatorTables, EffectiveEntitlements,
  EntitlementViolation, Answer, given, refused, ◌>>=◌, entitlements_schema, parse, override_schema,
  normalize_entitlements, overridden, merge_entitlements, unlimited_entitlements, is_quota_exempt,
  default_plan, apply_override, subscription_of, plan_of, of_subscription, resolve_effective,
  OwnedFacility, OwnedTariffPlan, OperatorInvite, is_operator, is_open_invite, count_facilities,
  count_tariff_plans, count_staff_seats, check, blocked_by, assert_usage_fits_entitlements,
}

-- What an answer gives holds, if it gives anything.
abbrev pub Gives {ℓ} : {A : Type ℓ} → (A → Bool) → Answer A → Type 0
Gives test (given a) = test a ≡ true
Gives test (refused e) = Unit

>>=-Gives {ℓ κ} :
    {A : Type ℓ} {B : Type κ} (test : A → Bool) (next : B → Bool) (m : Answer A) (f : A → Answer B)
    → Gives test m
    → ((a : A) → test a ≡ true → Gives next (f a))
    → Gives next (m >>= f)
>>=-Gives test next (given a) f h step = step a h
>>=-Gives test next (refused e) f h step = tt

-- Anything, of which nothing is asked.
abbrev anything {ℓ} : {A : Type ℓ} → A → Bool
anything a = true

Gives-anything {ℓ} : {A : Type ℓ} (m : Answer A) → Gives anything m
Gives-anything (given a) = refl
Gives-anything (refused e) = tt

parse-Gives : (e : Entitlements) → Gives entitlements_schema (parse e)
parse-Gives e = elim (Bool-cases (entitlements_schema e)) [
  | inl good ↦ rw good good
  | inr bad ↦ rw bad tt
]

normalize-schema :
    (e : Entitlements) → entitlements_schema (normalize_entitlements e) ≡ entitlements_schema e
unfolding entitlements_schema normalize_entitlements
normalize-schema e = refl

merge_entitlements-Gives :
    (base : Entitlements) (o : EntitlementOverride)
    → Gives entitlements_schema (merge_entitlements base o)
unfolding merge_entitlements
merge_entitlements-Gives base o =
    >>=-Gives entitlements_schema entitlements_schema (parse (overridden base o))
      (λ e. given (normalize_entitlements e)) (parse-Gives (overridden base o))
      (λ e h. normalize-schema e ∙ h)

module _ (unclaimed_operator_id : ℕ) where
  -- Entitlements of the schema.
  abbrev pub is_bounded : EffectiveEntitlements → Bool
  is_bounded x = entitlements_schema x.entitlements

  apply_override-Gives :
      (k : ℕ) (s : OperatorSubscription) (base : Entitlements) (o : Option EntitlementOverride)
      → entitlements_schema base ≡ true
      → Gives is_bounded (apply_override unclaimed_operator_id k s base o)
  apply_override-Gives k s base none h = h
  apply_override-Gives k s base (some o) h = elim (Bool-cases (override_schema o)) [
    | inl good ↦ rw good (
        >>=-Gives entitlements_schema is_bounded (merge_entitlements base o) _
          (merge_entitlements-Gives base o) (λ e q. q))
    | inr bad ↦ rw bad tt
  ]

  of_subscription-Gives :
      (k : ℕ) (t : OperatorTables) (o : Option OperatorSubscription)
      → Gives is_bounded (of_subscription unclaimed_operator_id k t o)
  of_subscription-Gives k t none =
      >>=-Gives anything is_bounded (default_plan unclaimed_operator_id t) _
        (Gives-anything (default_plan unclaimed_operator_id t))
        (λ p h.
          >>=-Gives entitlements_schema is_bounded (parse p.entitlements) _
            (parse-Gives p.entitlements) (λ e q. q))
  of_subscription-Gives k t (some s) =
      >>=-Gives anything is_bounded (plan_of unclaimed_operator_id s t) _
        (Gives-anything (plan_of unclaimed_operator_id s t))
        (λ p h.
          >>=-Gives entitlements_schema is_bounded (parse p.entitlements) _
            (parse-Gives p.entitlements)
            (λ base q. apply_override-Gives k s base s.entitlement_override q))

  unlimited-schema : entitlements_schema unlimited_entitlements ≡ true
  unfolding entitlements_schema
  unlimited-schema = refl

  -- What is resolved for an operator is within the schema, whichever of the exemption, the default
  -- plan, the subscription and its override it comes from.
  pub resolve_effective-bounded :
      (k : ℕ) (t : OperatorTables) → Gives is_bounded (resolve_effective unclaimed_operator_id k t)
  unfolding resolve_effective
  resolve_effective-bounded k t = elim (Bool-cases (k == unclaimed_operator_id)) [
    | inl e ↦ rw e unlimited-schema
    | inr e ↦ rw e (of_subscription-Gives k t (subscription_of unclaimed_operator_id k t))
  ]

  -- Use within a limit.
  abbrev pub FitsLimit : Option ℕ → ℕ → Type 0
  FitsLimit none current = Unit
  FitsLimit (some limit) current = current ≤ limit

  check-empty :
      (r : ℕ) (o : Option ℕ) (current : ℕ)
      → (check unclaimed_operator_id r o current ≡ []) ↔ FitsLimit o current
  check-empty r none current = (λ h. tt, λ h. refl)
  check-empty r (some limit) current = ground arith

  none-blocked :
      (a b c : List EntitlementViolation)
      → (blocked_by unclaimed_operator_id (a ++ (b ++ c)) ≡ given tt)
        ↔ ((a ≡ []) × (b ≡ []) × (c ≡ []))
  none-blocked [] [] [] = (λ h. (refl, refl, refl), λ h. refl)
  none-blocked [] [] (v ∷ c) = (λ h. absurd (cc), λ h. absurd (ground arith))
  none-blocked [] (v ∷ b) c = (λ h. absurd (cc), λ h. absurd (ground arith))
  none-blocked (v ∷ a) b c = (λ h. absurd (cc), λ h. absurd (ground arith))

  -- The rows that take up a limit: the live facilities of the operator, its tariff plans that are live
  -- and active, its members, and its pending invitations of members that have not run out.
  abbrev pub takes_facility : ℕ → OwnedFacility → Bool
  takes_facility k f = elim f.lifecycle_status [
    | active ↦ elim f.operator_id [ none ↦ false | some j ↦ j == k ]
    | archived ↦ false
    | tombstoned ↦ false
    | purged ↦ false
  ]

  abbrev pub takes_plan : ℕ → OwnedTariffPlan → Bool
  takes_plan k p = elim p.lifecycle_status [
    | active ↦ if p.is_active then p.operator_id == k else false
    | archived ↦ false
    | tombstoned ↦ false
    | purged ↦ false
  ]

  abbrev pub takes_seat : ℕ → ℕ → OperatorInvite → Bool
  takes_seat k now i =
      if i.is_pending
      then (if i.is_member
          then (if ltb now i.expires_at then i.operator_id == k else false)
          else false)
      else false

  facilities-taken :
      (k : ℕ) (fs : List OwnedFacility)
      → count_if
          (λ (f : OwnedFacility).
            is_operator unclaimed_operator_id k f.operator_id && is_live f.lifecycle_status)
          fs
        ≡ count_if (takes_facility k) fs
  facilities-taken k [] = refl
  facilities-taken k (f ∷ fs) = ground (arith, facilities-taken k fs)

  plans-taken :
      (k : ℕ) (ps : List OwnedTariffPlan)
      → count_if
          (λ (p : OwnedTariffPlan).
            p.operator_id == k && (p.is_active && is_live p.lifecycle_status))
          ps
        ≡ count_if (takes_plan k) ps
  plans-taken k [] = refl
  plans-taken k (p ∷ ps) = ground (arith, plans-taken k ps)

  seats-taken :
      (k now : ℕ) (is : List OperatorInvite)
      → count_if (is_open_invite unclaimed_operator_id k now) is ≡ count_if (takes_seat k now) is
  seats-taken k now [] = refl
  seats-taken k now (i ∷ is) = ground (arith, seats-taken k now is)

  -- A change of plan is let through exactly where, of an operator that is not exempt, the facilities
  -- that are lifecycle-active, the tariff plans that are active and lifecycle-active, and the
  -- members with the pending member invitations that have not run out, are each within the target's
  -- limits.
  pub assert_usage_fits_entitlements_iff :
      (k : ℕ) (target : Entitlements) (now : ℕ) (t : OperatorTables)
      → is_quota_exempt unclaimed_operator_id k ≡ false
      → (assert_usage_fits_entitlements unclaimed_operator_id k target now t ≡ given tt) ↔ (
          FitsLimit target.max_facilities (count_if (takes_facility k) t.facilities)
          × FitsLimit target.max_tariff_plans (count_if (takes_plan k) t.tariff_plans)
          × FitsLimit target.max_staff_seats
              (count_if (λ j. j == k) t.memberships + count_if (takes_seat k now) t.invites))
  unfolding assert_usage_fits_entitlements
  assert_usage_fits_entitlements_iff k target now t paying =
      let one = check-empty 0 target.max_facilities (count_facilities unclaimed_operator_id k t) in
      let two =
        check-empty 1 target.max_tariff_plans (count_tariff_plans unclaimed_operator_id k t) in
      let three =
        check-empty 2 target.max_staff_seats (count_staff_seats unclaimed_operator_id k now t) in
      let free =
        none-blocked
          (check unclaimed_operator_id 0 target.max_facilities
            (count_facilities unclaimed_operator_id k t))
          (check unclaimed_operator_id 1 target.max_tariff_plans
            (count_tariff_plans unclaimed_operator_id k t))
          (check unclaimed_operator_id 2 target.max_staff_seats
            (count_staff_seats unclaimed_operator_id k now t)) in
      (
        λ h.
            let (a, b, c) = free.0 (rw (paying) at h) in
            (
              rw (← facilities-taken k t.facilities) (one.0 a),
              rw (← plans-taken k t.tariff_plans) (two.0 b),
              rw (← seats-taken k now t.invites) (three.0 c),
            ),
        λ h.
            let (a, b, c) = h in
            rw paying (
              free.1 (
                one.1 (rw (facilities-taken k t.facilities) a),
                two.1 (rw (plans-taken k t.tariff_plans) b),
                three.1 (rw (seats-taken k now t.invites) c),
              )),
      )
