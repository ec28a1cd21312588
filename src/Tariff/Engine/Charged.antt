-- ===== src/Tariff/Engine/Charged.antt =====
-- Each charge is at the plan's rate for its minute (src/tariff/pricing-engine.ts).
use saprk_parking_api.Prelude.{
  ℕ, zero, suc, ◌*◌, ◌≡◌, inl, inr, some, List, [], ◌∷◌, arith, ltb, Option-cases, Bool-cases, All,
}
use saprk_parking_api.Tariff.Types.{
  CompiledTier, CompiledWindow, CompiledPlan, RateUnit, flat, per_block, per_minute, ok,
}
use saprk_parking_api.Tariff.Engine.{Clock, RawCharge, tier_at, window_at, charge_at, charges_from}
use saprk_parking_api.Tariff.Engine.Loop.{>>=-eq-ok, ok-injective}

-- What a charge of some minutes comes to at a rate.
abbrev pub amount_of : RateUnit → ℕ → ℕ → ℕ
amount_of per_minute minutes rate = minutes * rate
amount_of per_block minutes rate = rate
amount_of flat minutes rate = rate

-- The charge is of the tier and of the window in force at the minute that it starts at, and its amount
-- is at the plan's rate for the two.
abbrev pub IsAtRate : Clock → CompiledPlan → ℕ → RawCharge → Type 0
IsAtRate clock plan starts_at c =
    (t : CompiledTier) × (w : CompiledWindow) × (tier_at plan.tiers c.duration_start ≡ some t)
    × (window_at plan.windows (clock plan.timezone starts_at c.duration_start) ≡ some w)
    × (plan.price t.id w.id ≡ some c.unit_price_cents)
    × (c.subtotal_cents ≡ amount_of t.unit c.duration_minutes c.unit_price_cents)

module _ (clock : Clock) (plan : CompiledPlan) (starts_at : ℕ) where
  charge_at-IsAtRate :
      (billable cursor : ℕ) (s : RawCharge × ℕ)
      → charge_at clock plan starts_at billable cursor ≡ ok s
      → IsAtRate clock plan starts_at s.0
  unfolding charge_at
  charge_at-IsAtRate billable cursor s h = elim (Option-cases (tier_at plan.tiers cursor)) [
    | inl e ↦ absurd (ground arith)
    | inr (t, e) ↦
        elim (Option-cases (window_at plan.windows (clock plan.timezone starts_at cursor))) [
          | inl q ↦ absurd (ground arith)
          | inr (w, q) ↦ elim (Option-cases (plan.price t.id w.id)) [
            | inl u ↦ absurd (ground arith)
            | inr (p, u) ↦ (t, w, ground arith, ground arith, ground arith, ground arith)
          ]
        ]
  ]

  pub charges_from-IsAtRate :
      (fuel billable cursor : ℕ) (cs : List RawCharge)
      → charges_from clock plan starts_at fuel billable cursor ≡ ok cs
      → All (IsAtRate clock plan starts_at) cs
  unfolding charges_from
  charges_from-IsAtRate zero billable cursor [] h = tt
  charges_from-IsAtRate zero billable cursor (c ∷ cs) h = absurd (ground arith)
  charges_from-IsAtRate (suc fuel) billable cursor cs h = elim (Bool-cases (ltb cursor billable)) [
    | inr done ↦ rw (← ok-injective (rw done at h)) tt
    | inl more ↦
        let (s, hs, hr) =
          >>=-eq-ok (charge_at clock plan starts_at billable cursor) _ (rw more at h) in
        let (rest, hrest, hc) =
          >>=-eq-ok (charges_from clock plan starts_at fuel billable s.1) _ hr in
        rw (← ok-injective hc) (
          charge_at-IsAtRate billable cursor s hs,
          charges_from-IsAtRate fuel billable s.1 rest hrest,
        )
  ]
