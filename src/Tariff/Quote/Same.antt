-- ===== src/Tariff/Quote/Same.antt =====
-- What a quote pins is what a check-out prices (`computeQuote` and `priceWithPinnedPlan` of
-- src/tariff/tariff.service.ts).
use saprk_parking_api.Prelude.{
  ℕ, ◌≤◌, ◌≡◌, refl, sym, ap, ◌∙◌, inl, inr, Bool, false, ◌&&◌, Option, none, some, List, Text,
  text_eq, ltb, leb, count_if, find_first-other, text_eq_iff, ◌==◌, ==_iff, find_first, arith,
  Bool-cases, Option-cases,
}
use saprk_parking_api.Tariff.Types.{CompiledPlan, PriceResult, Priced, err, ok}
use saprk_parking_api.Tariff.Engine.{
  Clock, RawCharge, max_billable_minutes, commission_on, charges_from,
}
use saprk_parking_api.Tariff.Engine.Loop.{Priced-cases}
use saprk_parking_api.Tariff.Stay.{billable_of, free_result, result_of, price_stay}
use saprk_parking_api.Tariff.Draft.{compile_plan}
use saprk_parking_api.Tariff.Quote.{
  VehicleType, TariffPlan, PricedFacility, TariffAssignment, TariffDb, same_vehicle, QuoteRequest,
  PriceQuote, quote, is_quotable, default_plan, assigned_plan, or_plan, applicable, serves_default,
  commission_bps_for, booking_discount_bps_for, quote_of, quote_with, quote_plan, resolved_plan,
  quote_facility, compute_quote, PinnedPriceResult, priced, pinned_row, price_with_pinned_plan,
}

module _ (clock : Clock) (commission_of : ℕ → Option ℕ) (booking_discount_of : ℕ → Option ℕ) where
  -- A quote that is given is priced by a plan that the facility resolves to, for its operator's
  -- commission and the rider's discount.
  record QuotedBy (r : QuoteRequest) (now : ℕ) (db : TariffDb) (q : PriceQuote) : Type 0 where
    facility : PricedFacility
    plan : TariffPlan
    result : PriceResult
    commission : ℕ
    discount : Option ℕ
    ordered : leb r.ends_at r.starts_at ≡ false
    resolved :
        resolved_plan clock commission_of booking_discount_of facility r.starts_at r.vehicle_type db
        ≡ some plan
    operated :
        commission_bps_for clock commission_of booking_discount_of facility.operator_id
        ≡ some commission
    perk :
        booking_discount_bps_for clock commission_of booking_discount_of r.user_id ≡ some discount
    stay :
        price_stay clock r.starts_at r.ends_at (compile_plan plan.schedule) commission discount
        ≡ ok result
    same :
        quote_of clock commission_of booking_discount_of r now
          (compile_plan plan.schedule)
          (ok result)
        ≡ quote q

  quote_of-result :
      (r : QuoteRequest) (now : ℕ) (compiled : CompiledPlan) (run : Priced PriceResult)
      (q : PriceQuote)
      → quote_of clock commission_of booking_discount_of r now compiled run ≡ quote q
      → (result : PriceResult) × (run ≡ ok result)
  quote_of-result r now compiled (err e) q h = absurd (cc)
  quote_of-result r now compiled (ok result) q h = (result, refl)

  module _ (r : QuoteRequest) (now : ℕ) (db : TariffDb) (q : PriceQuote)
      (ordered : leb r.ends_at r.starts_at ≡ false) (f : PricedFacility) where
    with-by :
        (p : TariffPlan) (c : Option ℕ) (d : Option (Option ℕ))
        → resolved_plan clock commission_of booking_discount_of f r.starts_at r.vehicle_type db
          ≡ some p
        → commission_bps_for clock commission_of booking_discount_of f.operator_id ≡ c
        → booking_discount_bps_for clock commission_of booking_discount_of r.user_id ≡ d
        → quote_with clock commission_of booking_discount_of r now (compile_plan p.schedule) c d
          ≡ quote q
        → QuotedBy r now db q
    with-by p none d resolved operated perk h = absurd (cc)
    with-by p (some c) none resolved operated perk h = absurd (cc)
    with-by p (some c) (some d) resolved operated perk h =
        let (result, stay) =
          quote_of-result r now (compile_plan p.schedule)
            (price_stay clock r.starts_at r.ends_at (compile_plan p.schedule) c d) q h in
        record {
          facility = f;
          plan = p;
          result = result;
          commission = c;
          discount = d;
          ordered = ordered;
          resolved = resolved;
          operated = operated;
          perk = perk;
          stay = stay;
          same =
              ap (quote_of clock commission_of booking_discount_of r now (compile_plan p.schedule))
                (sym stay)
              ∙ h;
        }

    plan-by :
        (o : Option TariffPlan)
        → resolved_plan clock commission_of booking_discount_of f r.starts_at r.vehicle_type db ≡ o
        → quote_plan clock commission_of booking_discount_of r now f.operator_id o ≡ quote q
        → QuotedBy r now db q
    plan-by none resolved h = absurd (cc)
    plan-by (some p) resolved h = with-by p _ _ resolved refl refl h

  facility-by :
      (r : QuoteRequest) (now : ℕ) (db : TariffDb) (q : PriceQuote) (o : Option PricedFacility)
      → leb r.ends_at r.starts_at ≡ false
      → quote_facility clock commission_of booking_discount_of r now db o ≡ quote q
      → QuotedBy r now db q
  facility-by r now db q none ordered h = absurd (cc)
  facility-by r now db q (some f) ordered h = plan-by r now db q ordered f _ refl h

  quoted-by :
      (r : QuoteRequest) (now : ℕ) (db : TariffDb) (q : PriceQuote)
      → compute_quote clock commission_of booking_discount_of r now db ≡ quote q
      → QuotedBy r now db q
  unfolding compute_quote
  quoted-by r now db q h = elim (Bool-cases (leb r.ends_at r.starts_at)) [
    | inl e ↦ absurd (ground arith)
    | inr e ↦
        facility-by r now db q (find_first (is_quotable r.facility_id) db.facilities) e
          (ground arith)
  ]

-- The same price for another commission.
abbrev pub with_commission : ℕ → PriceResult → PriceResult
with_commission bps r = record r {
  commission_bps = bps;
  commission_cents = commission_on r.total_cents bps;
}

free_result-commission : (c c' : ℕ) → free_result c' ≡ with_commission c' (free_result c)
unfolding commission_on
free_result-commission c c' = ap (λ x. record (free_result c') { commission_cents = x }) zero_share
  where
    zero_share : 0 ≡ commission_on 0 c'
    zero_share = ground arith

result_of-commission :
    (plan : CompiledPlan) (billable c c' : ℕ) (d : Option ℕ) (charges : List RawCharge)
    → result_of plan billable c' d charges
      ≡ with_commission c' (result_of plan billable c d charges)
unfolding result_of
result_of-commission plan billable c c' d charges = refl

pub price_stay-commission :
    (clock : Clock) (starts_at ends_at : ℕ) (plan : CompiledPlan) (c c' : ℕ) (d : Option ℕ)
    (r : PriceResult)
    → price_stay clock starts_at ends_at plan c d ≡ ok r
    → price_stay clock starts_at ends_at plan c' d ≡ ok (with_commission c' r)
unfolding price_stay
price_stay-commission clock starts_at ends_at plan c c' d r h =
    elim (Bool-cases (ltb max_billable_minutes (billable_of starts_at ends_at plan))) [
      | inl e ↦ absurd (ground arith)
      | inr e ↦ elim (Bool-cases (billable_of starts_at ends_at plan == 0)) [
        | inl z ↦ ground (arith, free_result-commission c c')
        | inr z ↦
            elim (Priced-cases (
              charges_from clock plan starts_at (billable_of starts_at ends_at plan)
                (billable_of starts_at ends_at plan) 0)) [
                  | inl (cs, f) ↦ ground (
                    arith,
                    result_of-commission plan (billable_of starts_at ends_at plan) c c' d cs,
                  )
                  | inr (err', f) ↦ absurd (ground arith)
                ]
      ]
    ]

-- A plan that is applied is a row of the plans, which some search finds.
abbrev IsRow : TariffPlan → List TariffPlan → Type 0
IsRow p plans = (test : TariffPlan → Bool) × (find_first test plans ≡ some p)

applicable-row :
    (at : ℕ) (v : VehicleType) (o : Option TariffPlan) (p : TariffPlan)
    → applicable at v o ≡ some p
    → o ≡ some p
applicable-row at v none p h = h
applicable-row at v (some x) p h = ground arith

or_plan-IsRow :
    (a b : Option TariffPlan) (plans : List TariffPlan) (p : TariffPlan)
    → ((x : TariffPlan) → a ≡ some x → IsRow x plans)
    → ((x : TariffPlan) → b ≡ some x → IsRow x plans)
    → or_plan a b ≡ some p
    → IsRow p plans
or_plan-IsRow none b plans p ha hb h = hb p h
or_plan-IsRow (some x) b plans p ha hb h = ha p h

assigned_plan-IsRow :
    (k : ℕ) (v : VehicleType) (db : TariffDb) (p : TariffPlan)
    → assigned_plan k v db ≡ some p
    → IsRow p db.plans
assigned_plan-IsRow k v db p h =
    elim (Option-cases (
      find_first (λ (a : TariffAssignment). a.facility_id == k && same_vehicle a.vehicle_type v)
        db.assignments)) [
          | inl e ↦ absurd (ground arith)
          | inr (a, e) ↦ (λ (x : TariffPlan). text_eq x.schedule.id a.plan_id, ground arith)
        ]

default_plan-IsRow :
    (o : Option ℕ) (db : TariffDb) (p : TariffPlan) → default_plan o db ≡ some p → IsRow p db.plans
default_plan-IsRow none db p h = absurd (cc)
default_plan-IsRow (some k) db p h = (λ (x : TariffPlan). serves_default x && x.operator_id == k, h)

module _ (clock : Clock) (commission_of : ℕ → Option ℕ) (booking_discount_of : ℕ → Option ℕ) where
  resolved-IsRow :
      (f : PricedFacility) (at : ℕ) (v : VehicleType) (db : TariffDb) (p : TariffPlan)
      → resolved_plan clock commission_of booking_discount_of f at v db ≡ some p
      → IsRow p db.plans
  resolved-IsRow f at v db p h =
      or_plan-IsRow (assigned_plan f.id v db) (default_plan f.operator_id db) db.plans p
        (assigned_plan-IsRow f.id v db) (default_plan-IsRow f.operator_id db)
        (applicable-row at v (or_plan (assigned_plan f.id v db) (default_plan f.operator_id db)) p
          h)

  pinned-row :
      (p : TariffPlan) (plans : List TariffPlan)
      → IsRow p plans
      → count_if
          (λ (x : TariffPlan).
            text_eq x.schedule.id p.schedule.id && x.schedule.version == p.schedule.version)
          plans
        ≤ 1
      → pinned_row clock commission_of booking_discount_of p.schedule.id p.schedule.version plans
        ≡ some p
  pinned-row p plans (test, found) unique =
      find_first-other test
        (λ (x : TariffPlan).
          text_eq x.schedule.id p.schedule.id && x.schedule.version == p.schedule.version)
        plans p found
        (ground (
          arith,
          (text_eq_iff p.schedule.id p.schedule.id).1 refl,
          ==_iff p.schedule.version p.schedule.version,
        ))
        unique

  -- What a check-out of a pin finds.
  abbrev pinned_result :
      TariffPlan → ℕ → PriceResult → PinnedPriceResult clock commission_of booking_discount_of
  pinned_result p bps r = record {
    total_cents = r.total_cents;
    discount_cents = r.discount_cents;
    currency = (compile_plan p.schedule).currency;
    billable_minutes = r.billable_minutes;
    commission_cents = commission_on r.total_cents bps;
  }

  pinned-run :
      (p : TariffPlan) (starts_at ends_at bps : ℕ) (user : Option ℕ) (d : Option ℕ)
      (result : PriceResult) (db : TariffDb)
      → leb ends_at starts_at ≡ false
      → pinned_row clock commission_of booking_discount_of p.schedule.id p.schedule.version db.plans
        ≡ some p
      → commission_of p.operator_id ≡ some bps
      → booking_discount_bps_for clock commission_of booking_discount_of user ≡ some d
      → price_stay clock starts_at ends_at (compile_plan p.schedule) bps d
        ≡ ok (with_commission bps result)
      → price_with_pinned_plan clock commission_of booking_discount_of p.schedule.id
          p.schedule.version starts_at ends_at user db
        ≡ priced (pinned_result p bps result)
  unfolding price_with_pinned_plan commission_bps_for
  pinned-run p starts_at ends_at bps user d result db ordered row paid perk stay = ground arith

  compiled-pin :
      (p : TariffPlan)
      → ((compile_plan p.schedule).id ≡ p.schedule.id)
        × ((compile_plan p.schedule).version ≡ p.schedule.version)
  unfolding compile_plan
  compiled-pin p = (refl, refl)

  quote-injective : (a b : PriceQuote) → quote a ≡ quote b → a ≡ b
  quote-injective a b h = cc

  -- The total, the discount and the currency of a quote are what the check-out finds under the plan
  -- and the version that the quote pins, for the same stay and the same rider, where no two plans
  -- have one id and version and each operator's entitlements are found.
  pub price_with_pinned_plan-compute_quote :
      (r : QuoteRequest) (now : ℕ) (db : TariffDb) (q : PriceQuote)
      → ((k : Text) (version : ℕ)
          → count_if
              (λ (x : TariffPlan). text_eq x.schedule.id k && x.schedule.version == version)
              db.plans
            ≤ 1)
      → ((k : ℕ) → (bps : ℕ) × (commission_of k ≡ some bps))
      → compute_quote clock commission_of booking_discount_of r now db ≡ quote q
      → (p : PinnedPriceResult clock commission_of booking_discount_of) × (price_with_pinned_plan
            clock commission_of booking_discount_of q.plan_id q.plan_version r.starts_at r.ends_at
            r.user_id db
          ≡ priced p)
        × (p.total_cents ≡ q.total_cents)
        × (p.discount_cents ≡ q.discount_cents)
        × (p.currency ≡ q.currency)
  price_with_pinned_plan-compute_quote r now db q unique entitled h =
      let by = quoted-by clock commission_of booking_discount_of r now db q h in
      let row =
        pinned-row by.plan db.plans
          (resolved-IsRow by.facility r.starts_at r.vehicle_type db by.plan by.resolved)
          (unique by.plan.schedule.id by.plan.schedule.version) in
      let (bps, paid) = entitled by.plan.operator_id in
      let stay =
        price_stay-commission clock r.starts_at r.ends_at (compile_plan by.plan.schedule)
          by.commission bps by.discount by.result by.stay in
      let (pin, pin_version) = compiled-pin by.plan in
      let is_q = quote-injective _ q by.same in
      (
        pinned_result by.plan bps by.result,
        rw
            (
              sym (sym pin ∙ ap (λ (x : PriceQuote). x.plan_id) is_q),
              sym (sym pin_version ∙ ap (λ (x : PriceQuote). x.plan_version) is_q),
            )
            (pinned-run by.plan r.starts_at r.ends_at bps r.user_id by.discount by.result db
              by.ordered row paid by.perk stay),
        ap (λ (x : PriceQuote). x.total_cents) is_q,
        ap (λ (x : PriceQuote). x.discount_cents) is_q,
        ap (λ (x : PriceQuote). x.currency) is_q,
      )
