-- ===== src/Tariff/Engine/Loop.antt =====
-- The pricing loop ends, and its charges tile the stay (src/tariff/pricing-engine.ts).
use saprk_parking_api.Prelude.{
  ℕ, zero, suc, ◌+◌, ◌≤◌, ◌<◌, min, ◌≡◌, ◌≢◌, ◌⊎◌, refl, inl, inr, List, [], ◌∷◌, arith, ltb,
  Option-cases, Bool-cases, ltb→lt, find_first-holds,
}
use saprk_parking_api.Tariff.Types.{CompiledPlan, PriceError, out_of_fuel, Priced, ok, err, ◌>>=◌}
use saprk_parking_api.Tariff.Engine.{Clock, RawCharge, covers, tier_at, charge_at, charges_from}

-- The charges cover the minutes from the first bound to the second, in order, with no gap and no
-- overlap, and none is empty.
abbrev pub Tiles : ℕ → ℕ → List RawCharge → Type 0
Tiles from to [] = from ≡ to
Tiles from to (c ∷ cs) =
    (c.duration_start ≡ from) × (0 < c.duration_minutes) × Tiles (from + c.duration_minutes) to cs

pub >>=-eq-ok {ℓ κ} :
    {A : Type ℓ} {B : Type κ} (round : Priced A) (next : A → Priced B) {last : B}
    → (round >>= next) ≡ ok last
    → (given : A) × (round ≡ ok given) × (next given ≡ ok last)
>>=-eq-ok (err e) next returns = cc
>>=-eq-ok (ok given) next returns = (given, refl, returns)

pub Priced-cases {ℓ} :
    {A : Type ℓ} (m : Priced A) → ((a : A) × (m ≡ ok a)) ⊎ ((e : PriceError) × (m ≡ err e))
Priced-cases (ok a) = inl (a, refl)
Priced-cases (err e) = inr (e, refl)

pub ok-injective {ℓ} : {A : Type ℓ} {a b : A} → Priced.ok a ≡ ok b → a ≡ b
ok-injective h = cc

module _ (clock : Clock) (plan : CompiledPlan) (starts_at : ℕ) where
  -- A charge starts at the cursor and is not empty; the cursor moves on past it, or to the end.
  pub charge_at-moves :
      (billable cursor : ℕ) (c : RawCharge) (next : ℕ)
      → cursor < billable
      → charge_at clock plan starts_at billable cursor ≡ ok (c, next)
      → (c.duration_start ≡ cursor)
        × (0 < c.duration_minutes)
        × (cursor + c.duration_minutes ≡ min billable next)
        × (cursor < next)
  unfolding charge_at tier_at covers
  charge_at-moves billable cursor c next lt h = elim (Option-cases (tier_at plan.tiers cursor)) [
    | inl e ↦ ground (arith)
    | inr (t, e) ↦ ground (arith, find_first-holds (covers cursor) plan.tiers t)
  ]

  charge_at-ne-out_of_fuel :
      (billable cursor : ℕ) → charge_at clock plan starts_at billable cursor ≢ err out_of_fuel
  unfolding charge_at
  charge_at-ne-out_of_fuel billable cursor h = ground arith

  -- Whatever fuel the loop has, the charges of a run that succeeds tile the rest of the stay.
  pub charges_from-Tiles :
      (fuel billable cursor : ℕ) (cs : List RawCharge)
      → charges_from clock plan starts_at fuel billable cursor ≡ ok cs
      → Tiles (min billable cursor) billable cs
  unfolding charges_from
  charges_from-Tiles zero billable cursor [] h = ground arith
  charges_from-Tiles zero billable cursor (c ∷ cs) h = ground arith
  charges_from-Tiles (suc fuel) billable cursor cs h = elim (Bool-cases (ltb cursor billable)) [
    | inl more ↦
        let (s, hs, hr) =
          >>=-eq-ok (charge_at clock plan starts_at billable cursor) _ (rw more at h) in
        let (rest, hrest, hc) =
          >>=-eq-ok (charges_from clock plan starts_at fuel billable s.1) _ hr in
        let moves = charge_at-moves billable cursor s.0 s.1 (ltb→lt _ _ more) hs in
        let tail = charges_from-Tiles fuel billable s.1 rest hrest in
        let joined : min billable cursor + s.0.duration_minutes ≡ min billable s.1 =
          omega (arith, ltb→lt _ _ more) in
        rw (← ok-injective hc) (omega (arith, ltb→lt _ _ more), moves.1, rw joined tail)
    | inr done ↦ ground arith
  ]

  -- Enough fuel: the cursor moves at least a minute in each round.
  pub charges_from-ends :
      (fuel billable cursor : ℕ)
      → billable ≤ cursor + fuel
      → charges_from clock plan starts_at fuel billable cursor ≢ err out_of_fuel
  unfolding charges_from
  charges_from-ends zero billable cursor enough h = ground arith
  charges_from-ends (suc fuel) billable cursor enough h =
      elim (Priced-cases (charge_at clock plan starts_at billable cursor)) [
        | inl (s, hs) ↦
            ground
              (arith, charge_at-moves billable cursor s.0 s.1, charges_from-ends fuel billable s.1)
        | inr (e, he) ↦ ground (arith, charge_at-ne-out_of_fuel billable cursor)
      ]
