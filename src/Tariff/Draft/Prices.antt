-- ===== src/Tariff/Draft/Prices.antt =====
-- The price that a compiled plan looks up, and that a stored plan prices like the draft it came from
-- (`compileDraft` of src/tariff/draft-compiler.ts, `compilePlan` of src/tariff/tariff.service.ts).
use mathlib.Core.Path.{fun_ext}
use saprk_parking_api.Prelude.{
  ℕ, zero, suc, ◌≡◌, refl, sym, ◌∙◌, ap, true, Option, some, List, [], ◌∷◌, ◌++◌, map, arith, ltb,
  ◌==◌, Text, text_eq_iff, text_has_eq, get, put, get-put, All, if◌then◌else◌,
}
use saprk_parking_api.Tariff.Types.{CompiledPlan, Priced, invalid_tariff_schedule, ok, err, ◌>>=◌}
use saprk_parking_api.Tariff.Engine.{
  Clock, RawCharge, max_billable_minutes, charge_at, charges_from,
}
use saprk_parking_api.Tariff.Stay.{cell_key, billable_of, free_result, result_of, price_stay}
use saprk_parking_api.Tariff.Schedule.{passed, has, check_rates, validate_rate_grid}
use saprk_parking_api.Tariff.Schedule.Tiers.{then_check-passed}
use saprk_parking_api.Tariff.Draft.{
  Rate, CompilableDraft, PlanTier, PlanWithSchedule, rate_key, prices_from, compile_draft,
  rates_from, tier_rates_from, price_of, compile_plan, grid_rate,
}

module _ (tiers windows : List Text) where
  -- A key that was seen is not written again.
  seen-kept :
      (key : Text) (seen : List Text) (m : List (Text × ℕ)) (rates : List Rate)
      → check_rates tiers windows seen (map grid_rate rates) ≡ passed
      → has key seen ≡ true
      → get key (prices_from m rates) ≡ get key m
  unfolding prices_from check_rates
  seen-kept key seen m [] h e = refl
  seen-kept key seen m (r ∷ rs) h e = ground (
    arith,
    get-put (rate_key r) key r.price_cents m,
    text_eq_iff (rate_key r) key,
    seen-kept key (rate_key r ∷ seen) (put (rate_key r) r.price_cents m) rs,
  )

  rates-priced :
      (seen : List Text) (m : List (Text × ℕ)) (rates : List Rate)
      → check_rates tiers windows seen (map grid_rate rates) ≡ passed
      → All (λ r. get (rate_key r) (prices_from m rates) ≡ some r.price_cents) rates
  unfolding prices_from check_rates
  rates-priced seen m [] h = tt
  rates-priced seen m (r ∷ rs) h = (
    ground (
      arith,
      get-put (rate_key r) (rate_key r) r.price_cents m,
      text_eq_iff (rate_key r) (rate_key r),
      seen-kept (rate_key r) (rate_key r ∷ seen) (put (rate_key r) r.price_cents m) rs,
    ),
    rates-priced (rate_key r ∷ seen) (put (rate_key r) r.price_cents m) rs (ground arith),
  )

-- If the rate grid is accepted, the compiled draft finds for the tier and window of each of its
-- rates the price of that very rate: no rate shadows another.
pub compile_draft-price :
    (d : CompilableDraft) (tiers windows : List Text)
    → validate_rate_grid tiers windows (map grid_rate d.rates) ≡ passed
    → All (λ r. (compile_draft d).price r.tier_id r.window_id ≡ some r.price_cents) d.rates
unfolding compile_draft validate_rate_grid
compile_draft-price d tiers windows h =
    rates-priced tiers windows [] [] d.rates
      (then_check-passed (check_rates tiers windows [] (map grid_rate d.rates)) _ h).0

-- The draft that a stored plan is the image of: its rates in the order of its tiers.
abbrev pub rates_of : List PlanTier → List Rate
rates_of [] = []
rates_of (t ∷ ts) = t.rates ++ rates_of ts

abbrev pub draft_of : PlanWithSchedule → CompilableDraft
draft_of p = record {
  timezone = p.timezone;
  grace_minutes = p.grace_minutes;
  increment_minutes = p.increment_minutes;
  tiers = map (λ t. t.tier) p.tiers;
  windows = p.windows;
  rates = rates_of p.tiers;
  caps = p.caps;
}

rates_from-append :
    (m : List (Text × Rate)) (xs ys : List Rate)
    → rates_from m (xs ++ ys) ≡ rates_from (rates_from m xs) ys
unfolding rates_from
rates_from-append m [] ys = refl
rates_from-append m (r ∷ xs) ys = rates_from-append (put (rate_key r) r m) xs ys

tier_rates_from_lem :
    (m : List (Text × Rate)) (ts : List PlanTier)
    → tier_rates_from m ts ≡ rates_from m (rates_of ts)
unfolding tier_rates_from
tier_rates_from_lem m [] = unfold rates_from in refl
tier_rates_from_lem m (t ∷ ts) =
    tier_rates_from_lem (rates_from m t.rates) ts ∙ sym (rates_from-append m t.rates (rates_of ts))

-- A map of prices that agrees with a map of rates goes on agreeing.
prices-rates :
    (key : Text) (m : List (Text × ℕ)) (n : List (Text × Rate)) (rates : List Rate)
    → ((k : Text) → get k m ≡ price_of (get k n))
    → get key (prices_from m rates) ≡ price_of (get key (rates_from n rates))
unfolding prices_from rates_from
prices-rates key m n [] agree = agree key
prices-rates key m n (r ∷ rs) agree =
    prices-rates key (put (rate_key r) r.price_cents m) (put (rate_key r) r n) rs (λ k.
      ground (arith, agree k, get-put (rate_key r) k r.price_cents m, get-put (rate_key r) k r n))

prices_agree : (p : PlanWithSchedule) → (compile_plan p).price ≡ (compile_draft (draft_of p)).price
unfolding compile_plan compile_draft
prices_agree p = fun_ext λ t. fun_ext λ w. sym (
    prices-rates (cell_key t w) [] [] (rates_of p.tiers) (λ k. refl)
    ∙ ap (λ n. price_of (get (cell_key t w) n)) (sym (tier_rates_from_lem [] p.tiers)))

-- A plan under another id, version and currency.
abbrev relabelled : CompiledPlan → CompiledPlan → CompiledPlan
relabelled plan other = record plan {
  id = other.id;
  version = other.version;
  currency = other.currency;
}

charge_at-relabelled :
    (clock : Clock) (plan other : CompiledPlan) (starts_at billable cursor : ℕ)
    → charge_at clock (relabelled plan other) starts_at billable cursor
      ≡ charge_at clock plan starts_at billable cursor
unfolding charge_at
charge_at-relabelled clock plan other starts_at billable cursor = refl

charges_from-relabelled :
    (clock : Clock) (plan other : CompiledPlan) (starts_at fuel billable cursor : ℕ)
    → charges_from clock (relabelled plan other) starts_at fuel billable cursor
      ≡ charges_from clock plan starts_at fuel billable cursor
unfolding charges_from charge_at
charges_from-relabelled clock plan other starts_at zero billable cursor = refl
charges_from-relabelled clock plan other starts_at (suc fuel) billable cursor =
    ap
      (λ (run : ℕ → Priced (List RawCharge)).
        if ltb cursor billable
        then (charge_at clock plan starts_at billable cursor >>= λ step.
            (run step.1 >>= λ rest. ok (step.0 ∷ rest)))
        else ok [])
      (fun_ext λ next. charges_from-relabelled clock plan other starts_at fuel billable next)

price_stay-relabelled :
    (clock : Clock) (plan other : CompiledPlan) (starts_at ends_at commission_bps : ℕ)
    (discount : Option ℕ)
    → price_stay clock starts_at ends_at (relabelled plan other) commission_bps discount
      ≡ price_stay clock starts_at ends_at plan commission_bps discount
unfolding price_stay
price_stay-relabelled clock plan other starts_at ends_at commission_bps discount =
    let billable = billable_of starts_at ends_at plan in
    ap
      (λ (run : Priced (List RawCharge)).
        if ltb max_billable_minutes billable
        then err invalid_tariff_schedule
        else (if billable == 0
            then ok (free_result commission_bps)
            else (run >>= λ charges. ok (result_of plan billable commission_bps discount charges))))
      (charges_from-relabelled clock plan other starts_at billable billable 0)

-- Pricing a stored plan, and simulating the draft with the same schedule and rates, come to the
-- same: `compileDraft` mirrors `compilePlan`.
pub price_stay-compile_plan :
    (clock : Clock) (p : PlanWithSchedule) (starts_at ends_at commission_bps : ℕ)
    (discount : Option ℕ)
    → price_stay clock starts_at ends_at (compile_plan p) commission_bps discount
      ≡ price_stay clock starts_at ends_at (compile_draft (draft_of p)) commission_bps discount
unfolding compile_plan compile_draft
price_stay-compile_plan clock p starts_at ends_at commission_bps discount =
    ap
      (λ price.
        price_stay clock starts_at ends_at (record (compile_plan p) { price = price })
          commission_bps discount)
      (prices_agree p)
    ∙ price_stay-relabelled clock (compile_draft (draft_of p)) (compile_plan p) starts_at ends_at
        commission_bps discount
