-- ===== src/Tariff/Quote/Simulated.antt =====
-- A simulated draft and the quote of the stored plan with its schedule (`simulate` and `computeQuote` of
-- src/tariff/tariff.service.ts).
use saprk_parking_api.Prelude.{Bool, true, false, List, [], ◌∷◌}
use saprk_parking_api.Tariff.Draft.{PlanTier}

-- The first tier has a rate, whose currency is that of the plan.
abbrev pub has_rate : List PlanTier → Bool
has_rate [] = false
has_rate (t ∷ ts) = elim t.rates [ [] ↦ false | r ∷ rs ↦ true ]
