-- ===== src/Tariff/Caps/Bounds.antt =====
-- What the caps leave of a total, and what a bucket of a rolling cap holds.
use saprk_parking_api.Prelude.{
  ℕ, ◌+◌, ◌≤◌, min, ◌≡◌, refl, ◌⊎◌, inl, inr, List, [], ◌∷◌, arith, get, put, get-put, All,
  if◌then◌else◌,
}
use saprk_parking_api.Tariff.Types.{CompiledCap}
use saprk_parking_api.Tariff.Engine.{RawCharge}
use saprk_parking_api.Tariff.Caps.{
  Bucket, bucket_eq, bucket_has_eq, bucket_eq_iff, bucket_of, or_zero, buckets_from, capped_by,
  caps_from, apply_caps,
}

-- The number is the raw total or what one of the caps gives.
abbrev pub Attained : ℕ → ℕ → List RawCharge → List CompiledCap → Type 0
Attained value raw_total charges [] = value ≡ raw_total
Attained value raw_total charges (cap ∷ caps) =
    (value ≡ capped_by raw_total charges cap) ⊎ Attained value raw_total charges caps

module _ (raw_total : ℕ) (charges : List RawCharge) where
  caps_from-le-total :
      (total : ℕ) (caps : List CompiledCap) → caps_from total raw_total charges caps ≤ total
  unfolding caps_from
  caps_from-le-total total [] = omega arith
  caps_from-le-total total (cap ∷ caps) =
      omega (arith, caps_from-le-total (min total (capped_by raw_total charges cap)) caps)

  caps_from-le-each :
      (total : ℕ) (caps : List CompiledCap)
      → All (λ cap. caps_from total raw_total charges caps ≤ capped_by raw_total charges cap) caps
  unfolding caps_from
  caps_from-le-each total [] = tt
  caps_from-le-each total (cap ∷ caps) = (
    omega (arith, caps_from-le-total (min total (capped_by raw_total charges cap)) caps),
    caps_from-le-each (min total (capped_by raw_total charges cap)) caps,
  )

  caps_from-Attained :
      (total : ℕ) (caps : List CompiledCap)
      → (caps_from total raw_total charges caps ≡ total)
        ⊎ Attained (caps_from total raw_total charges caps) raw_total charges caps
  unfolding caps_from
  caps_from-Attained total [] = inl refl
  caps_from-Attained total (cap ∷ caps) =
      ground (arith, caps_from-Attained (min total (capped_by raw_total charges cap)) caps)

  Attained-raw :
      (value : ℕ) (caps : List CompiledCap)
      → value ≡ raw_total
      → Attained value raw_total charges caps
  Attained-raw value [] e = e
  Attained-raw value (cap ∷ caps) e = inr (Attained-raw value caps e)

  -- `applyCaps` takes the tightest: it is at most the raw total and what each cap gives, and it is
  -- one of them.
  pub apply_caps_lem :
      (caps : List CompiledCap)
      → let capped = apply_caps raw_total charges caps in
        (capped ≤ raw_total)
        × All (λ cap. capped ≤ capped_by raw_total charges cap) caps
        × Attained capped raw_total charges caps
  unfolding apply_caps
  apply_caps_lem caps = (
    caps_from-le-total raw_total caps,
    caps_from-le-each raw_total caps,
    elim (caps_from-Attained raw_total caps) [ inl e ↦ Attained-raw _ caps e | inr a ↦ a ],
  )

-- The cents of the charges that start in the bucket.
abbrev pub cents_in : Bucket → ℕ → List RawCharge → ℕ
cents_in k window_minutes [] = 0
cents_in k window_minutes (c ∷ cs) =
    (if bucket_eq (bucket_of window_minutes c.duration_start) k then c.subtotal_cents else 0)
    + cents_in k window_minutes cs

buckets_from-get :
    (k : Bucket) (window_minutes : ℕ) (m : List (Bucket × ℕ)) (cs : List RawCharge)
    → or_zero (get k (buckets_from window_minutes m cs))
      ≡ or_zero (get k m) + cents_in k window_minutes cs
unfolding buckets_from
buckets_from-get k window_minutes m [] = omega arith
buckets_from-get k window_minutes m (c ∷ cs) =
    let j = bucket_of window_minutes c.duration_start in
    let v = or_zero (get j m) + c.subtotal_cents in
    ground
      (arith, buckets_from-get k window_minutes (put j v m) cs, get-put j k v m, bucket_eq_iff j k)

-- The map that a rolling cap clamps holds, under each bucket, the sum of the charges that start in it.
pub buckets_from_lem :
    (k : Bucket) (window_minutes : ℕ) (cs : List RawCharge)
    → or_zero (get k (buckets_from window_minutes [] cs)) ≡ cents_in k window_minutes cs
buckets_from_lem k window_minutes cs = omega (arith, buckets_from-get k window_minutes [] cs)
