-- ===== src/Tariff/Quote/Agrees.antt =====
-- The price on the map is the price of a quote (`computeTotalsByFacility` and `computeQuote` of
-- src/tariff/tariff.service.ts).
use saprk_parking_api.Prelude.{
  ℕ, ◌≤◌, ◌≡◌, refl, sym, ap, ◌∙◌, inl, inr, Bool, true, false, ◌&&◌, Option, none, some, List, [],
  ◌∷◌, leb, ◌==◌, ==_iff, if◌then◌else◌, find_first, find_first-holds, find_first-other, keep_if,
  count_if, count_mono, get, get-put, nat_has_eq, arith, Bool-cases, Option-cases,
}
use saprk_parking_api.Booking.Access.{includes}
use saprk_parking_api.Tariff.Types.{CompiledPlan, PriceResult, Priced, err, ok}
use saprk_parking_api.Tariff.Engine.{Clock}
use saprk_parking_api.Tariff.Stay.{price_stay}
use saprk_parking_api.Tariff.Engine.Loop.{Priced-cases}
use saprk_parking_api.Tariff.Draft.{compile_plan}
use saprk_parking_api.Tariff.Quote.{
  TariffPlan, PricedFacility, TariffDb, QuoteRequest, Quoted, quote, refused, is_quotable,
  default_plan, assigned_plan, or_plan, applicable, serves_default, commission_bps_for,
  booking_discount_bps_for, quote_of, quote_plan, resolved_plan, compute_quote, put_some, map_from,
  operators_of, defaults_by_operator, default_in, total_of, schedule_total, map_total, on_map,
  totals_of, compute_totals_by_facility,
}
use saprk_parking_api.Tariff.Quote.Same.{price_stay-commission}

-- What a row sets, if there is one, over what was there.
abbrev set_over {ℓ} : {V : Type ℓ} → Option V → Option V → Option V
set_over none old = old
set_over (some v) old = some v

abbrev value_at {ℓ κ} : {A : Type ℓ} {V : Type κ} → (A → Option V) → Option A → Option V
value_at value none = none
value_at value (some r) = value r

module _ {ℓ κ} {A : Type ℓ} {V : Type κ} (key : A → ℕ) (value : A → Option V) where
  get-put_some :
      (k j : ℕ) (o : Option V) (m : List (ℕ × V))
      → get j (put_some key value k o m) ≡ (if k == j then set_over o (get j m) else get j m)
  get-put_some k j none m = ground arith
  get-put_some k j (some v) m = get-put k j v m

  find_first-count :
      (test : A → Bool) (rows : List A) → count_if test rows ≡ 0 → find_first test rows ≡ none
  find_first-count test [] h = refl
  find_first-count test (r ∷ rows) h = ground (arith, find_first-count test rows)

  -- A map built from rows of which at most one has a key has that row's value under it.
  get-map_from :
      (k : ℕ) (rows : List A) (m : List (ℕ × V))
      → count_if (λ r. key r == k) rows ≤ 1
      → get k (map_from key value m rows)
        ≡ set_over (value_at value (find_first (λ r. key r == k) rows)) (get k m)
  unfolding map_from
  get-map_from k [] m unique = refl
  get-map_from k (r ∷ rows) m unique = elim (Bool-cases (key r == k)) [
    | inl e ↦ ground (
      arith,
      get-map_from k rows (put_some key value (key r) (value r) m),
      get-put_some (key r) k (value r) m,
      find_first-count (λ x. key x == k) rows,
    )
    | inr e ↦ ground (
      arith,
      get-map_from k rows (put_some key value (key r) (value r) m),
      get-put_some (key r) k (value r) m,
    )
  ]

module _ {ℓ} {A : Type ℓ} where
  find_first-keep_if :
      (test p : A → Bool) (rows : List A)
      → find_first p (keep_if test rows) ≡ find_first (λ r. test r && p r) rows
  find_first-keep_if test p [] = refl
  find_first-keep_if test p (r ∷ rows) = ground (arith, find_first-keep_if test p rows)

  count-keep_if :
      (test p : A → Bool) (rows : List A)
      → count_if p (keep_if test rows) ≡ count_if (λ r. test r && p r) rows
  count-keep_if test p [] = refl
  count-keep_if test p (r ∷ rows) = ground (arith, count-keep_if test p rows)

  find_first-ext :
      (p q : A → Bool) (rows : List A)
      → ((r : A) → p r ≡ q r)
      → find_first p rows ≡ find_first q rows
  find_first-ext p q [] h = refl
  find_first-ext p q (r ∷ rows) h = ground (arith, h r, find_first-ext p q rows h)

set_over-none : {A : Type 0} (o : Option A) → set_over o none ≡ o
set_over-none none = refl
set_over-none (some a) = refl

operators-include :
    (test : PricedFacility → Bool) (fs : List PricedFacility) (f : PricedFacility) (k : ℕ)
    → find_first test fs ≡ some f
    → f.operator_id ≡ some k
    → includes (operators_of fs) k ≡ true
operators-include test [] f k h e = cc
operators-include test (g ∷ fs) f k h e = elim (Option-cases g.operator_id) [
  | inl none_there ↦ ground (arith, operators-include test fs f k)
  | inr (j, there) ↦ ground (arith, ==_iff j k, operators-include test fs f k)
]

value_at-some : {A : Type 0} (o : Option A) → set_over (value_at some o) none ≡ o
value_at-some none = refl
value_at-some (some a) = refl

default-same :
    (fs : List PricedFacility) (k : ℕ) (db : TariffDb)
    → includes (operators_of fs) k ≡ true
    → count_if (λ (p : TariffPlan). serves_default p && p.operator_id == k) db.plans ≤ 1
    → default_in (some k) (defaults_by_operator fs db) ≡ default_plan (some k) db
unfolding defaults_by_operator
default-same fs k db here unique =
    get-map_from (λ (p : TariffPlan). p.operator_id) some k
      (keep_if (λ p. serves_default p && includes (operators_of fs) p.operator_id) db.plans) []
      (omega (
        arith,
        count-keep_if (λ p. serves_default p && includes (operators_of fs) p.operator_id)
            (λ p. p.operator_id == k) db.plans,
        count_mono
            (λ p.
              (serves_default p && includes (operators_of fs) p.operator_id) && p.operator_id == k)
            (λ p. serves_default p && p.operator_id == k) db.plans (λ p h. ground arith),
      ))
    ∙ value_at-some _
    ∙ find_first-keep_if (λ p. serves_default p && includes (operators_of fs) p.operator_id)
        (λ p. p.operator_id == k) db.plans
    ∙ find_first-ext
        (λ p. (serves_default p && includes (operators_of fs) p.operator_id) && p.operator_id == k)
        (λ p. serves_default p && p.operator_id == k) db.plans (λ p. same_test p)
  where
    same_test :
        (p : TariffPlan)
        → ((serves_default p && includes (operators_of fs) p.operator_id) && p.operator_id == k)
          ≡ (serves_default p && p.operator_id == k)
    same_test p = elim (Bool-cases (p.operator_id == k)) [
      | inl e ↦ ground (arith, ==_iff p.operator_id k)
      | inr e ↦ ground arith
    ]

module _ (clock : Clock) where
  total-commission :
      (starts_at ends_at : ℕ) (plan : CompiledPlan) (c c' : ℕ) (d : Option ℕ)
      → total_of (price_stay clock starts_at ends_at plan c d)
        ≡ total_of (price_stay clock starts_at ends_at plan c' d)
  total-commission starts_at ends_at plan c c' d =
      elim (Priced-cases (price_stay clock starts_at ends_at plan c d)) [
        | inl (r, e) ↦ ground (arith, price_stay-commission clock starts_at ends_at plan c c' d r e)
        | inr (e1, e) ↦ elim (Priced-cases (price_stay clock starts_at ends_at plan c' d)) [
          | inl (r, f) ↦
              ground (arith, price_stay-commission clock starts_at ends_at plan c' c d r f)
          | inr (e2, f) ↦ ground arith
        ]
      ]

-- The total of a quote that is given.
abbrev pub quoted_total : Quoted → Option ℕ
quoted_total (quote q) = some q.total_cents
quoted_total (refused e) = none

module _ (clock : Clock) (commission_of : ℕ → Option ℕ) (booking_discount_of : ℕ → Option ℕ) where
  quote_of-total :
      (r : QuoteRequest) (now : ℕ) (compiled : CompiledPlan) (run : Priced PriceResult)
      → quoted_total (quote_of clock commission_of booking_discount_of r now compiled run)
        ≡ total_of run
  quote_of-total r now compiled (err e) = refl
  quote_of-total r now compiled (ok result) = refl

  quote_plan-total :
      (r : QuoteRequest) (now : ℕ) (operator_id : Option ℕ) (bps : ℕ) (o : Option TariffPlan)
      → r.user_id ≡ none
      → commission_bps_for clock commission_of booking_discount_of operator_id ≡ some bps
      → quoted_total (quote_plan clock commission_of booking_discount_of r now operator_id o)
        ≡ schedule_total clock r.starts_at r.ends_at o
  unfolding booking_discount_bps_for
  quote_plan-total r now operator_id bps none anyone entitled = refl
  quote_plan-total r now operator_id bps (some p) anyone entitled =
      rw (anyone, entitled)
        (quote_of-total r now (compile_plan p.schedule)
            (price_stay clock r.starts_at r.ends_at (compile_plan p.schedule) bps none)
          ∙ total-commission clock r.starts_at r.ends_at (compile_plan p.schedule) bps 0 none)

  commission-found :
      (o : Option ℕ)
      → ((k : ℕ) → (bps : ℕ) × (commission_of k ≡ some bps))
      → (bps : ℕ) × (commission_bps_for clock commission_of booking_discount_of o ≡ some bps)
  unfolding commission_bps_for
  commission-found none entitled = (0, refl)
  commission-found (some k) entitled = entitled k

  -- The facility that a quote finds is the one that the map's query has under its id.
  on_map-found :
      (k : ℕ) (ids : List ℕ) (rows : List PricedFacility) (f : PricedFacility)
      → find_first (is_quotable k) rows ≡ some f
      → includes ids k ≡ true
      → count_if (λ x. x.id == k) rows ≤ 1
      → (find_first (λ x. x.id == k) (keep_if (on_map clock ids) rows) ≡ some f)
        × (count_if (λ x. x.id == k) (keep_if (on_map clock ids) rows) ≤ 1)
  on_map-found k ids rows f found here unique =
      let count : count_if (λ x. on_map clock ids x && x.id == k) rows ≤ 1 = omega (
        arith,
        count_mono (λ x. on_map clock ids x && x.id == k) (λ x. x.id == k) rows
            (λ x h. ground arith),
      ) in
      let passes = find_first-holds (is_quotable k) rows f found in
      (
        find_first-keep_if (on_map clock ids) (λ x. x.id == k) rows
            ∙ find_first-other (is_quotable k) (λ x. on_map clock ids x && x.id == k) rows f found
                (ground (arith, ==_iff f.id k)) count,
        omega (arith, count-keep_if (on_map clock ids) (λ x. x.id == k) rows),
      )

  default_in-same :
      (fs : List PricedFacility) (test : PricedFacility → Bool) (f : PricedFacility) (db : TariffDb)
      (o : Option ℕ)
      → find_first test fs ≡ some f
      → f.operator_id ≡ o
      → ((k : ℕ)
          → count_if (λ (p : TariffPlan). serves_default p && p.operator_id == k) db.plans ≤ 1)
      → default_in o (defaults_by_operator fs db) ≡ default_plan o db
  default_in-same fs test f db none found e unique = refl
  default_in-same fs test f db (some k) found e unique =
      default-same fs k db (operators-include test fs f k found e) (unique k)

  -- For a facility that a quote finds, the price on the map is the total of a quote without a rider,
  -- and there is one exactly where that quote is given: where the map asks for the facility, its id
  -- is unique, an operator has at most one active default plan and its entitlements are found.
  pub compute_totals_by_facility-compute_quote :
      (r : QuoteRequest) (now : ℕ) (ids : List ℕ) (db : TariffDb) (f : PricedFacility)
      → leb r.ends_at r.starts_at ≡ false
      → r.user_id ≡ none
      → includes ids r.facility_id ≡ true
      → find_first (is_quotable r.facility_id) db.facilities ≡ some f
      → count_if (λ (x : PricedFacility). x.id == r.facility_id) db.facilities ≤ 1
      → ((k : ℕ)
          → count_if (λ (p : TariffPlan). serves_default p && p.operator_id == k) db.plans ≤ 1)
      → ((k : ℕ) → (bps : ℕ) × (commission_of k ≡ some bps))
      → get r.facility_id
          (compute_totals_by_facility clock ids r.starts_at r.ends_at r.vehicle_type db)
        ≡ quoted_total (compute_quote clock commission_of booking_discount_of r now db)
  unfolding compute_quote compute_totals_by_facility
  compute_totals_by_facility-compute_quote r now ids db f ordered anyone here found unique
        one_default entitled =
      let rows = keep_if (on_map clock ids) db.facilities in
      let defaults = defaults_by_operator rows db in
      let (same_f, count) = on_map-found r.facility_id ids db.facilities f found here unique in
      let (bps, paid) = commission-found f.operator_id entitled in
      let same_default =
        default_in-same rows (λ x. x.id == r.facility_id) f db f.operator_id same_f refl
          one_default in
      let listed =
        get-map_from (λ (x : PricedFacility). x.id)
          (map_total clock r.starts_at r.ends_at r.vehicle_type db defaults) r.facility_id rows []
          count in
      let mapped : get r.facility_id (totals_of clock rows r.starts_at r.ends_at r.vehicle_type db)
          ≡ map_total clock r.starts_at r.ends_at r.vehicle_type db defaults f =
        listed
        ∙ ap
            (λ o.
              set_over
                (value_at (map_total clock r.starts_at r.ends_at r.vehicle_type db defaults) o)
                none)
            same_f
        ∙ set_over-none (map_total clock r.starts_at r.ends_at r.vehicle_type db defaults f) in
      let priced : map_total clock r.starts_at r.ends_at r.vehicle_type db defaults f
          ≡ schedule_total clock r.starts_at r.ends_at (
              resolved_plan clock commission_of booking_discount_of f r.starts_at r.vehicle_type
                db) =
        ap
          (λ o. schedule_total clock r.starts_at r.ends_at (
            applicable r.starts_at r.vehicle_type
              (or_plan (assigned_plan f.id r.vehicle_type db) o)))
          same_default in
      rw (ordered, found)
        (mapped
          ∙ priced
          ∙ sym (
              quote_plan-total r now f.operator_id bps
                (resolved_plan clock commission_of booking_discount_of f r.starts_at r.vehicle_type
                  db)
                anyone paid))
