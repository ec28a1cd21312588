-- ===== src/Tariff/Caps/Tightest.antt =====
-- The caps leave the tightest of their limits (src/tariff/pricing-engine.ts).
use saprk_parking_api.Prelude.{
  ℕ, zero, suc, ◌+◌, ◌/◌, ◌≤◌, ◌<◌, min, ◌≡◌, refl, sym, ap, ◌∙◌, inl, inr, none, List, [], ◌∷◌,
  arith, get, put, get-put, All, ◌==◌, ==_iff, Bool-cases, ltb, if◌then◌else◌,
}
use saprk_parking_api.Tariff.Types.{CapScope, stay, rolling, CompiledCap}
use saprk_parking_api.Tariff.Engine.{RawCharge}
use saprk_parking_api.Tariff.Caps.{
  Bucket, at_index, bucket_eq, bucket_has_eq, bucket_eq_iff, bucket_of, or_zero, buckets_from,
  clamped_sum, capped_by, caps_from, apply_caps,
}
use saprk_parking_api.Tariff.Caps.Bounds.{cents_in, buckets_from_lem}

-- The sum over the numbers below a bound.
abbrev pub sum_below : ℕ → (ℕ → ℕ) → ℕ
sum_below zero f = 0
sum_below (suc n) f = f n + sum_below n f

sum_below-ext : (n : ℕ) (f g : ℕ → ℕ) → ((i : ℕ) → f i ≡ g i) → sum_below n f ≡ sum_below n g
sum_below-ext zero f g same = refl
sum_below-ext (suc n) f g same = ground (arith, same n, sum_below-ext n f g same)

-- A sum of which one term is larger.
sum_below-point :
    (n k v : ℕ) (f g : ℕ → ℕ)
    → ((i : ℕ) → f i ≡ (if k == i then v + g i else g i))
    → sum_below n f ≡ (if ltb k n then v + sum_below n g else sum_below n g)
sum_below-point zero k v f g one = ground arith
sum_below-point (suc n) k v f g one =
    ground (arith, one n, ==_iff k n, sum_below-point n k v f g one)

-- The cents of the charges that start in the window of an index.
abbrev pub window_cents : ℕ → ℕ → List RawCharge → ℕ
window_cents window_minutes i [] = 0
window_cents window_minutes i (c ∷ cs) =
    if c.duration_start / window_minutes == i
    then c.subtotal_cents + window_cents window_minutes i cs
    else window_cents window_minutes i cs

-- What a cap allows: its cents once, or in each of its windows, of which there are at most `n`.
abbrev pub cap_limit : ℕ → ℕ → List RawCharge → CompiledCap → ℕ
cap_limit n raw_total charges cap = elim cap.scope [
  | stay ↦ min raw_total cap.cap_cents
  | rolling ↦ sum_below n (λ i. min (window_cents cap.window_minutes i charges) cap.cap_cents)
]

abbrev pub tightest : (CompiledCap → ℕ) → ℕ → List CompiledCap → ℕ
tightest limit raw_total [] = raw_total
tightest limit raw_total (cap ∷ caps) = min (limit cap) (tightest limit raw_total caps)

-- The keys of a map of buckets are indexes below a bound, each once.
abbrev IsKeyed : ℕ → List (Bucket × ℕ) → Type 0
IsKeyed n [] = Unit
IsKeyed n (b ∷ m) = ((i : ℕ) × (b.0 ≡ at_index i) × (i < n)) × (get b.0 m ≡ none) × IsKeyed n m

put-IsKeyed :
    (n i v : ℕ) (m : List (Bucket × ℕ)) → i < n → IsKeyed n m → IsKeyed n (put (at_index i) v m)
put-IsKeyed n i v [] lt keyed = ((i, refl, lt), refl, tt)
put-IsKeyed n i v (b ∷ m) lt keyed = elim (Bool-cases (bucket_eq b.0 (at_index i))) [
  | inl e ↦ rw e keyed
  | inr e ↦
      let fresh : get b.0 (put (at_index i) v m) ≡ none = ground (
        arith,
        keyed.1,
        bucket_eq_iff b.0 (at_index i),
        bucket_eq_iff (at_index i) b.0,
        get-put (at_index i) b.0 v m,
      ) in
      rw e (keyed.0, fresh, put-IsKeyed n i v m lt keyed.2)
]

sum_below-none : (n cap : ℕ) → sum_below n (λ i. min 0 cap) ≡ 0
sum_below-none zero cap = refl
sum_below-none (suc n) cap = omega (arith, sum_below-none n cap)

point_at :
    (cents k i : ℕ) (b : Bucket × ℕ) (m : List (Bucket × ℕ))
    → b.0 ≡ at_index k
    → get b.0 m ≡ none
    → min (or_zero (get (at_index i) (b ∷ m))) cents ≡ (
        if k == i
        then min b.1 cents + min (or_zero (get (at_index i) m)) cents
        else min (or_zero (get (at_index i) m)) cents)
point_at cents k i b m key fresh = elim (Bool-cases (k == i)) [
  | inl e ↦
      let gone : get (at_index i) m ≡ none =
        ap (λ j. get (at_index j) m) (sym ((==_iff k i).0 e))
        ∙ ap (λ q. get q m) (sym key)
        ∙ fresh in
      ground (arith, key, gone)
  | inr e ↦ ground (arith, key)
]

clamped_sum-below :
    (n cap : ℕ) (m : List (Bucket × ℕ))
    → IsKeyed n m
    → clamped_sum cap m ≡ sum_below n (λ i. min (or_zero (get (at_index i) m)) cap)
unfolding clamped_sum
clamped_sum-below n cap [] keyed = sym (sum_below-none n cap)
clamped_sum-below n cap (b ∷ m) keyed =
    let ((k, key, lt), fresh, rest) = keyed in
    let held : ℕ → ℕ = λ i. min (or_zero (get (at_index i) m)) cap in
    let point : (i : ℕ)
        → min (or_zero (get (at_index i) (b ∷ m))) cap
          ≡ (if k == i then min b.1 cap + held i else held i) =
      λ i. point_at cap k i b m key fresh in
    ground (
      arith,
      clamped_sum-below n cap m rest,
      sum_below-point n k (min b.1 cap) (λ i. min (or_zero (get (at_index i) (b ∷ m))) cap) held
          point,
    )

buckets_from-IsKeyed :
    (n window_minutes : ℕ) (m : List (Bucket × ℕ)) (cs : List RawCharge)
    → 0 < window_minutes
    → All (λ (c : RawCharge). c.duration_start / window_minutes < n) cs
    → IsKeyed n m
    → IsKeyed n (buckets_from window_minutes m cs)
unfolding buckets_from bucket_of
buckets_from-IsKeyed n w m [] positive below keyed = keyed
buckets_from-IsKeyed n w m (c ∷ cs) positive below keyed =
    let i = c.duration_start / w in
    let k : bucket_of w c.duration_start ≡ at_index i = ground arith in
    let sum = or_zero (get (bucket_of w c.duration_start) m) + c.subtotal_cents in
    buckets_from-IsKeyed n w (put (bucket_of w c.duration_start) sum m) cs positive below.1
      (rw k (put-IsKeyed n i (or_zero (get (at_index i) m) + c.subtotal_cents) m below.0 keyed))

cents_in-window :
    (window_minutes i : ℕ) (cs : List RawCharge)
    → 0 < window_minutes
    → cents_in (at_index i) window_minutes cs ≡ window_cents window_minutes i cs
unfolding bucket_of
cents_in-window w i [] positive = refl
cents_in-window w i (c ∷ cs) positive = ground (arith, cents_in-window w i cs positive)

-- The cap can be held to: a rolling one has a window of some minutes, and no charge starts beyond the
-- bound.
abbrev pub IsBounded : ℕ → List RawCharge → CompiledCap → Type 0
IsBounded n cs cap =
    cap.scope ≡ rolling
    → (0 < cap.window_minutes)
      × All (λ (c : RawCharge). c.duration_start / cap.window_minutes < n) cs

module _ (n raw_total : ℕ) (cs : List RawCharge) where
  rolling-limit :
      (window_minutes cap : ℕ)
      → 0 < window_minutes
      → All (λ (c : RawCharge). c.duration_start / window_minutes < n) cs
      → clamped_sum cap (buckets_from window_minutes [] cs)
        ≡ sum_below n (λ i. min (window_cents window_minutes i cs) cap)
  rolling-limit w cap positive below =
      clamped_sum-below n cap (buckets_from w [] cs)
        (buckets_from-IsKeyed n w [] cs positive below tt)
      ∙ sum_below-ext n (λ i. min (or_zero (get (at_index i) (buckets_from w [] cs))) cap)
          (λ i. min (window_cents w i cs) cap)
          (λ i.
            ap (λ v. min v cap)
              (buckets_from_lem (at_index i) w cs ∙ cents_in-window w i cs positive))

  capped_by-limit :
      (cap : CompiledCap)
      → IsBounded n cs cap
      → capped_by raw_total cs cap ≡ cap_limit n raw_total cs cap
  unfolding capped_by
  capped_by-limit cap bounded = by_scope cap.scope refl
    where
      by_scope :
          (s : CapScope) → cap.scope ≡ s → capped_by raw_total cs cap ≡ cap_limit n raw_total cs cap
      by_scope stay e = ground arith
      by_scope rolling e =
          ground (arith, rolling-limit cap.window_minutes cap.cap_cents (bounded e).0 (bounded e).1)

  tightest-le :
      (limit : CompiledCap → ℕ) (caps : List CompiledCap)
      → tightest limit raw_total caps ≤ raw_total
  tightest-le limit [] = omega arith
  tightest-le limit (cap ∷ caps) = omega (arith, tightest-le limit caps)

  caps_from-tightest :
      (total : ℕ) (caps : List CompiledCap)
      → total ≤ raw_total
      → All (IsBounded n cs) caps
      → caps_from total raw_total cs caps
        ≡ min total (tightest (cap_limit n raw_total cs) raw_total caps)
  unfolding caps_from
  caps_from-tightest total [] le bounded = omega arith
  caps_from-tightest total (cap ∷ caps) le bounded = ground (
    arith,
    capped_by-limit cap bounded.0,
    caps_from-tightest (min total (capped_by raw_total cs cap)) caps (omega arith) bounded.1,
  )

  -- The caps leave the least of the raw total and of what each cap allows: a cap of the stay its cents,
  -- a rolling cap the sum over its windows of the charges that start there, at most its cents in
  -- each, where rolling caps have a window of some minutes and no charge starts beyond the bound.
  pub apply_caps-tightest :
      (caps : List CompiledCap)
      → All (IsBounded n cs) caps
      → apply_caps raw_total cs caps ≡ tightest (cap_limit n raw_total cs) raw_total caps
  unfolding apply_caps
  apply_caps-tightest caps bounded =
      caps_from-tightest raw_total caps (omega arith) bounded
      ∙ omega (arith, tightest-le (cap_limit n raw_total cs) caps)
