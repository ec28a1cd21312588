-- ===== src/Tariff/Engine/Total.antt =====
-- The engine prices every stay of a plan whose schedule covers the stay (src/tariff/pricing-engine.ts).
use saprk_parking_api.Prelude.{
  ℕ, zero, suc, ◌+◌, ◌-◌, ◌*◌, ◌≤◌, ◌<◌, ◌≡◌, refl, inl, inr, Bool, true, false, Option, none, some,
  List, [], ◌∷◌, arith, ltb, ltb→lt, Bool-cases, find_first-holds, find_first-some, All-find_first,
  count_if, All,
}
use saprk_parking_api.Tariff.Types.{
  CompiledTier, CompiledWindow, CompiledPlan, WallClock, PriceError, Priced, ok, err,
}
use saprk_parking_api.Tariff.Engine.{
  Clock, RawCharge, covers, is_open, tier_at, window_at, charge_at, charges_from,
}
use saprk_parking_api.Tariff.Engine.Loop.{charge_at-moves}
use saprk_parking_api.Tariff.Schedule.Tiers.{IsSound}

-- A reading of the wall clock names a weekday, an hour and a minute.
abbrev pub IsReading : WallClock → Type 0
IsReading w = (1 ≤ w.weekday) × (w.weekday ≤ 7) × (w.hour < 24) × (w.minute < 60)

abbrev pub is_given {ℓ} : {A : Type ℓ} → Option A → Bool
is_given none = false
is_given (some a) = true

-- What the checks of a schedule and of its rates establish of the compiled plan.
pub record IsPriceable (plan : CompiledPlan) : Type 0 where
  pub tier_each : (minute : ℕ) → count_if (covers minute) plan.tiers ≡ 1
  pub sound : All IsSound plan.tiers
  pub window_each :
      (day minute : ℕ) → day < 7 → minute < 1440 → count_if (is_open day minute) plan.windows ≡ 1
  pub rated : All (λ t. All (λ w. is_given (plan.price t.id w.id) ≡ true) plan.windows) plan.tiers

given {ℓ} : {A : Type ℓ} (o : Option A) → is_given o ≡ true → (a : A) × (o ≡ some a)
given none h = cc
given (some a) h = (a, refl)

succeeds {ℓ} :
    {A : Type ℓ} (m : Priced A) → ((e : PriceError) → m ≡ err e → ⊥) → (a : A) × (m ≡ ok a)
succeeds (ok a) h = (a, refl)
succeeds (err e) h = absurd (h e refl)

module _ (clock : Clock)
    (readings : (zone : List ℕ) (at minutes : ℕ) → IsReading (clock zone at minutes))
    (plan : CompiledPlan) (v : IsPriceable plan) (starts_at : ℕ) where
  abbrev IsRated : CompiledTier → Type 0
  IsRated t = All (λ w. is_given (plan.price t.id w.id) ≡ true) plan.windows

  tier_found :
      (cursor : ℕ)
      → (t : CompiledTier) × (tier_at plan.tiers cursor ≡ some t)
        × (covers cursor t ≡ true)
        × IsSound t
        × IsRated t
  unfolding tier_at
  tier_found cursor =
      let (t, ht) =
        find_first-some (covers cursor) plan.tiers (λ z. omega (arith, v.tier_each cursor)) in
      (
        t,
        ht,
        find_first-holds (covers cursor) plan.tiers t ht,
        All-find_first IsSound (covers cursor) plan.tiers t ht v.sound,
        All-find_first IsRated (covers cursor) plan.tiers t ht v.rated,
      )

  window_found :
      (cursor : ℕ) (t : CompiledTier)
      → IsRated t
      → (w : CompiledWindow) × (window_at plan.windows (clock plan.timezone starts_at cursor)
          ≡ some w)
        × (p : ℕ) × (plan.price t.id w.id ≡ some p)
  unfolding window_at
  window_found cursor t row =
      let wall = clock plan.timezone starts_at cursor in
      let reading = readings plan.timezone starts_at cursor in
      let open_now = is_open (wall.weekday - 1) (wall.hour * 60 + wall.minute) in
      let (w, hw) = find_first-some open_now plan.windows (λ z. omega (
        arith,
        v.window_each (wall.weekday - 1) (wall.hour * 60 + wall.minute) (omega arith) (omega arith),
      )) in
      let (p, hp) = given (plan.price t.id w.id) (
        All-find_first (λ w'. is_given (plan.price t.id w'.id) ≡ true) open_now plan.windows w hw
          row) in
      (w, hw, p, hp)

  -- Inside the stay a round of the loop never throws.
  charge_at-total :
      (billable cursor : ℕ)
      → cursor < billable
      → (s : RawCharge × ℕ) × (charge_at clock plan starts_at billable cursor ≡ ok s)
  unfolding charge_at covers
  charge_at-total billable cursor lt =
      let (t, ht, inside, sound, row) = tier_found cursor in
      let (w, hw, p, hp) = window_found cursor t row in
      succeeds (charge_at clock plan starts_at billable cursor) (λ e h. ground arith)

  -- With fuel for every minute that is left the loop returns its charges.
  pub charges_from-total :
      (fuel billable cursor : ℕ)
      → billable ≤ cursor + fuel
      → (cs : List RawCharge) × (charges_from clock plan starts_at fuel billable cursor ≡ ok cs)
  unfolding charges_from
  charges_from-total zero billable cursor enough = ([], ground arith)
  charges_from-total (suc fuel) billable cursor enough = elim (Bool-cases (ltb cursor billable)) [
    | inl more ↦
        let (s, hs) = charge_at-total billable cursor (ltb→lt _ _ more) in
        let moves =
          charge_at-moves clock plan starts_at billable cursor s.0 s.1 (ltb→lt _ _ more) hs in
        let (rest, hr) = charges_from-total fuel billable s.1 (omega arith) in
        (s.0 ∷ rest, rw (more, hs, hr))
    | inr done ↦ ([], rw done)
  ]
