-- ===== src/Tariff/Engine.antt =====
-- The pricing loop (src/tariff/pricing-engine.ts). The time zone library is the parameter `clock`:
-- `clock zone instant minutes` is the wall clock of `zone` that many minutes after `instant`.
pub mod Loop
pub mod Charged
pub mod Total
use saprk_parking_api.Prelude.{
  ℕ, zero, suc, ◌+◌, ◌-◌, ◌*◌, ◌/◌, ◌^◌, min, bit_and, Bool, true, false, not, ◌&&◌, ◌||◌, Option,
  none, some, List, [], ◌∷◌, Text, ltb, leb, ◌==◌, if◌then◌else◌, find_first,
}
use saprk_parking_api.Tariff.Types.{
  RateUnit, per_minute, per_block, flat, CompiledTier, CompiledWindow, WallClock, CompiledPlan,
  no_applicable_tariff, out_of_fuel, Priced, ok, err, ◌>>=◌, or_throw,
}

abbrev pub max_billable_minutes : ℕ
max_billable_minutes = 366 * 24 * 60

abbrev pub Clock : Type 0
Clock = Text → ℕ → ℕ → WallClock

-- `Math.ceil(numerator / denominator)` at a positive denominator. A negative numerator, which the
-- caller maps to 0 by `Math.max`, is 0 here.
unfoldable pub ceil_div : ℕ → ℕ → ℕ
ceil_div numerator denominator = (numerator + (denominator - 1)) / denominator

unfoldable pub ceil_to_increment : ℕ → ℕ → ℕ
unfolding ceil_div
ceil_to_increment minutes increment =
    if leb increment 1 then minutes else ceil_div minutes increment * increment

-- `t.toMinute === null || cursor < t.toMinute`
abbrev pub before_end : Option ℕ → ℕ → Bool
before_end none cursor = true
before_end (some end) cursor = ltb cursor end

unfoldable pub covers : ℕ → CompiledTier → Bool
covers cursor t = leb t.from_minute cursor && before_end t.to_minute cursor

unfoldable pub tier_at : List CompiledTier → ℕ → Option CompiledTier
tier_at tiers cursor = find_first (covers cursor) tiers

-- `(w.dayMask & (1 << weekdayBit)) !== 0`
unfoldable pub on_day : ℕ → ℕ → Bool
on_day mask weekday_bit = not (bit_and mask (2 ^ weekday_bit) == 0)

-- The inside test of `windowAt`; an end at or before the start wraps past midnight.
unfoldable pub contains_minute : CompiledWindow → ℕ → Bool
contains_minute w minute_of_day =
    if ltb w.start_minute w.end_minute
    then leb w.start_minute minute_of_day && ltb minute_of_day w.end_minute
    else leb w.start_minute minute_of_day || ltb minute_of_day w.end_minute

unfoldable pub is_open : ℕ → ℕ → CompiledWindow → Bool
is_open weekday_bit minute_of_day w =
    on_day w.day_mask weekday_bit && contains_minute w minute_of_day

unfoldable pub window_at : List CompiledWindow → WallClock → Option CompiledWindow
window_at windows wall =
    find_first (is_open (wall.weekday - 1) (wall.hour * 60 + wall.minute)) windows

pub record RawCharge : Type 0 where
  pub duration_start : ℕ
  pub duration_minutes : ℕ
  pub tier_id : Text
  pub window_id : Text
  pub label : Text
  pub unit_price_cents : ℕ
  pub quantity : ℕ
  pub subtotal_cents : ℕ

-- `Math.round(cents * bps / 10_000)`: a half goes up.
abbrev pub round_bps : ℕ → ℕ → ℕ
round_bps cents bps = (cents * bps + 5000) / 10_000

unfoldable pub commission_on : ℕ → ℕ → ℕ
commission_on total_cents commission_bps = round_bps total_cents commission_bps

-- `null` and 0 basis points, and a total of 0, give no discount.
unfoldable pub discount_on : ℕ → Option ℕ → ℕ
discount_on total_cents none = 0
discount_on total_cents (some bps) =
    if bps == 0 || total_cents == 0 then 0 else min total_cents (round_bps total_cents bps)

-- `tier.toMinute ?? billable`
abbrev pub tier_end : CompiledTier → ℕ → ℕ
tier_end t billable = elim t.to_minute [ none ↦ billable | some end ↦ end ]

-- The `block` of a tier, which throws on a PER_BLOCK tier without a positive block.
abbrev pub block_of : RateUnit → Option ℕ → ℕ → ℕ → Priced ℕ
block_of flat block end from = ok (end - from)
block_of per_block none end from = err no_applicable_tariff
block_of per_block (some b) end from = if b == 0 then err no_applicable_tariff else ok b
block_of per_minute block end from = ok 1

abbrev pub is_flat : RateUnit → Bool
is_flat flat = true
is_flat _ = false

-- The subtotal is `span * rate` by the minute, and one `rate` for a block.
abbrev pub quantity_of : RateUnit → ℕ → ℕ
quantity_of per_minute span = span
quantity_of _ span = 1

abbrev pub subtotal_of : RateUnit → ℕ → ℕ → ℕ
subtotal_of per_minute span rate = span * rate
subtotal_of _ span rate = rate

module _ (clock : Clock) (plan : CompiledPlan) (starts_at : ℕ) where
  -- One round of the loop: the charge at the cursor, and the next cursor.
  unfoldable pub charge_at : ℕ → ℕ → Priced (RawCharge × ℕ)
  charge_at billable cursor = do
    tier ← or_throw (tier_at plan.tiers cursor) no_applicable_tariff
    let end = tier_end tier billable
    block ← block_of tier.unit tier.block_minutes end tier.from_minute
    let span = min block (min (billable - cursor) (end - cursor))
    if span == 0 then err no_applicable_tariff else (do
      window ←
          or_throw (window_at plan.windows (clock plan.timezone starts_at cursor))
            no_applicable_tariff
      rate ← or_throw (plan.price tier.id window.id) no_applicable_tariff
      ok (
          (
            record {
              duration_start = cursor;
              duration_minutes = span;
              tier_id = tier.id;
              window_id = window.id;
              label = window.label;
              unit_price_cents = rate;
              quantity = quantity_of tier.unit span;
              subtotal_cents = subtotal_of tier.unit span rate;
            },
            if is_flat tier.unit then cursor + (end - cursor) else cursor + span,
          )))

  -- `while (cursor < billable)`, with fuel.
  unfoldable pub charges_from : ℕ → ℕ → ℕ → Priced (List RawCharge)
  unfolding charge_at
  charges_from zero billable cursor = if ltb cursor billable then err out_of_fuel else ok []
  charges_from (suc fuel) billable cursor =
      let go : RawCharge × ℕ → Priced (List RawCharge) =
        λ step. (charges_from fuel billable step.1 >>= λ rest. ok (step.0 ∷ rest)) in
      if ltb cursor billable then charge_at billable cursor >>= go else ok []
