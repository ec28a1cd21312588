-- ===== src/Tariff/Stay/Charges.antt =====
-- The charges behind a priced stay: they tile the billable minutes, and caps and discount come off
-- their sum (`priceStay` of src/tariff/pricing-engine.ts).
use saprk_parking_api.Prelude.{
  ℕ, ◌+◌, ◌≤◌, ◌≡◌, ◌≢◌, refl, inl, inr, Option, List, [], ◌∷◌, arith, min, All,
}
use saprk_parking_api.Tariff.Types.{
  CompiledPlan, CompiledCap, stay, PriceResult, ok, err, out_of_fuel,
}
use saprk_parking_api.Tariff.Engine.{Clock, RawCharge, commission_on, discount_on}
use saprk_parking_api.Tariff.Engine.Loop.{Tiles, charges_from-Tiles, charges_from-ends}
use saprk_parking_api.Tariff.Engine.Charged.{IsAtRate, charges_from-IsAtRate}
use saprk_parking_api.Tariff.Caps.{apply_caps, capped_by}
use saprk_parking_api.Tariff.Caps.Bounds.{apply_caps_lem}
use saprk_parking_api.Tariff.Stay.{raw_total_of, result_of, billable_of, price_stay}
use saprk_parking_api.Tariff.Stay.Totals.{price_stay-cases, discount_on-le, commission_on-le}

min-zero : (n : ℕ) → min n 0 ≡ 0
min-zero n = omega arith

commission_on-zero : (bps : ℕ) → commission_on 0 bps ≡ 0
unfolding commission_on
commission_on-zero bps = omega arith

apply_caps-zero : (caps : List CompiledCap) → apply_caps 0 [] caps ≡ 0
apply_caps-zero caps = omega (arith, (apply_caps_lem 0 [] caps).0)

module _ (clock : Clock) (starts_at ends_at : ℕ) (plan : CompiledPlan) (commission_bps : ℕ)
    (booking_discount_bps : Option ℕ) where
  -- `priceStay` returns or throws: its loop ends within as many rounds as there are billable
  -- minutes.
  pub price_stay-ends :
      price_stay clock starts_at ends_at plan commission_bps booking_discount_bps ≢ err out_of_fuel
  unfolding price_stay
  price_stay-ends h =
      let billable = billable_of starts_at ends_at plan in
      ground (arith, charges_from-ends clock plan starts_at billable billable 0)

  -- A priced stay has charges that tile its billable minutes from 0, with no gap and no overlap, each at
  -- the plan's rate for the tier and the window in force at the minute that it starts at, by the
  -- minute or once for its block or its flat tier;
  -- what they add up to, after the caps, is the total and the discount; and the discount and the
  -- commission are the shares of the capped and of the final total.
  pub price_stay-charges :
      (r : PriceResult)
      → price_stay clock starts_at ends_at plan commission_bps booking_discount_bps ≡ ok r
      → (cs : List RawCharge) × Tiles 0 (billable_of starts_at ends_at plan) cs
        × All (IsAtRate clock plan starts_at) cs
        × (r.billable_minutes ≡ billable_of starts_at ends_at plan)
        × (r.total_cents + r.discount_cents ≡ apply_caps (raw_total_of cs) cs plan.caps)
        × (r.discount_cents
            ≡ discount_on (apply_caps (raw_total_of cs) cs plan.caps) booking_discount_bps)
        × (r.commission_cents ≡ commission_on r.total_cents commission_bps)
  unfolding result_of raw_total_of
  price_stay-charges r h =
      let billable = billable_of starts_at ends_at plan in
      elim (price_stay-cases clock starts_at ends_at plan commission_bps booking_discount_bps r h) [
        | inl (zero, e) ↦ rw e (
          [],
          omega arith,
          tt,
          omega arith,
          omega (arith, apply_caps-zero plan.caps),
          omega (
            arith,
            apply_caps-zero plan.caps,
            discount_on-le (apply_caps 0 [] plan.caps) booking_discount_bps,
          ),
          omega (arith, commission_on-zero commission_bps),
        )
        | inr (cs, run, e) ↦ rw e (
          cs,
          rw (min-zero billable) at
              (charges_from-Tiles clock plan starts_at billable billable 0 cs run),
          charges_from-IsAtRate clock plan starts_at billable billable 0 cs run,
          refl,
          omega (
            arith,
            discount_on-le (apply_caps (raw_total_of cs) cs plan.caps) booking_discount_bps,
          ),
          refl,
          refl,
        )
      ]

  stay_caps :
      (raw_total : ℕ) (cs : List RawCharge) (v : ℕ) (caps : List CompiledCap)
      → All (λ cap. v ≤ capped_by raw_total cs cap) caps
      → All (λ cap. cap.scope ≡ stay → v ≤ cap.cap_cents) caps
  unfolding capped_by
  stay_caps raw_total cs v [] h = tt
  stay_caps raw_total cs v (cap ∷ caps) h = (λ e. ground arith, stay_caps raw_total cs v caps h.1)

  -- What a rider pays for a priced stay, with the discount added, is at most each whole-stay cap of
  -- the plan; and at a rate of at most 100% the platform's share is no more than what the rider pays.
  pub price_stay-le-cap :
      (r : PriceResult)
      → commission_bps ≤ 10_000
      → price_stay clock starts_at ends_at plan commission_bps booking_discount_bps ≡ ok r
      → All (λ cap. cap.scope ≡ stay → r.total_cents + r.discount_cents ≤ cap.cap_cents) plan.caps
        × (r.commission_cents ≤ r.total_cents)
  price_stay-le-cap r rate h =
      let (cs, _, _, _, sum, _, share) = price_stay-charges r h in
      (
        rw sum (
            stay_caps (raw_total_of cs) cs _ plan.caps
              (apply_caps_lem (raw_total_of cs) cs plan.caps).1),
        rw share (commission_on-le r.total_cents commission_bps rate),
      )
