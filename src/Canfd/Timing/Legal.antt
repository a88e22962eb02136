-- ===== src/Canfd/Timing/Legal.antt =====
-- What `solve_phase` looks for, and what one round of its loop tells of it.
use dspic33ak_can_cmsis_driv.Prelude.{ℕ, ◌+◌, ◌*◌, ◌^◌, ◌-◌, ◌/◌, ◌%◌, ◌≤◌, ◌<◌, ◌≡◌, min, arith}
use dspic33ak_can_cmsis_driv.Prelude.Bits.{u32}
use native.Mathlib.Nat.{
  mul-div_left, mul-mod_left, mul-le-mul, mul-le-mul_left, mul-le-mul_right, div-lt_iff_lt-mul,
  div-add-mod,
}
use dspic33ak_can_cmsis_driv.Prelude.{◌⊎◌, Bool-cases, ltb, ap, ap₂, sym, ◌∙◌, ◌≢◌}
use dspic33ak_can_cmsis_driv.Canfd.Timing.{Limits, Phase, tseg1_of, try_brp}
use dspic33ak_can_cmsis_driv.Canfd.Timing.{fault, stop, take}

-- A bit time of `1 + tseg1 + tseg2` quanta, four or more, each of `brp` clocks, which makes up the
-- rate exactly; the segments are within the limits, and the sample point is the nearest quantum to
-- the percentage.
pub record IsTiming (fcan_hz bps sample_pct : ℕ) (lim : Limits) (p : Phase) : Type 0 where
  pub brp_min : 1 ≤ p.brp
  pub brp_max : p.brp ≤ 256
  pub exact : fcan_hz ≡ (1 + p.tseg1 + p.tseg2) * (bps * p.brp)
  pub quanta : 4 ≤ 1 + p.tseg1 + p.tseg2
  pub tseg1_min : lim.tseg1_min ≤ p.tseg1
  pub tseg1_max : p.tseg1 ≤ lim.tseg1_max
  pub tseg2_min : lim.tseg2_min ≤ p.tseg2
  pub tseg2_max : p.tseg2 ≤ lim.tseg2_max
  pub sample_low : 100 * (1 + p.tseg1) ≤ (1 + p.tseg1 + p.tseg2) * sample_pct + 50
  pub sample_high : (1 + p.tseg1 + p.tseg2) * sample_pct < 100 * (1 + p.tseg1) + 50
  pub sjw : p.sjw ≡ min p.tseg2 lim.sjw_max

-- Rates and clocks for which neither the product nor a segment is cut.
pub record IsInRange (fcan_hz bps sample_pct : ℕ) : Type 0 where
  pub bps_min : 0 < bps
  pub bps_max : bps < 2 ^ 24
  pub clock : fcan_hz < 2 ^ 16 * bps
  pub percent : sample_pct < 100

-- The limits of the two phases are of this kind.
pub record IsLimits (lim : Limits) : Type 0 where
  pub tseg1_positive : 0 < lim.tseg1_min
  pub tseg2_positive : 0 < lim.tseg2_min
  pub tseg1_narrow : lim.tseg1_max < 2 ^ 16 - 1

-- The first segment is the nearest to the sample point, and out of all limits if that is nearer to
-- the start of the bit than to its first quantum.
tseg1_of_lem :
    (total sample_pct : ℕ)
    → total < 2 ^ 16
    → sample_pct < 100
    → let t = tseg1_of total sample_pct in
      (100 * (1 + t) ≤ total * sample_pct + 50) × (total * sample_pct < 100 * (1 + t) + 50)
      ⊎ (total * sample_pct < 50) × (t ≡ 2 ^ 16 - 1)
unfolding tseg1_of
tseg1_of_lem total sample_pct small percent =
    let most : total * sample_pct ≤ 65535 * 99 =
      mul-le-mul {n₂ = 65535} {m₂ = 99} (omega arith) (omega arith) in
    ground (arith, Bool-cases (ltb (total * sample_pct) 50))

module _ (fcan_hz bps sample_pct : ℕ) (lim : Limits) (range : IsInRange fcan_hz bps sample_pct)
    (wide : IsLimits lim) (brp : ℕ) (low : 1 ≤ brp) (high : brp ≤ 256) where
  -- The product is not cut, and is not zero.
  product_fits : (u32 (bps * brp) ≡ bps * brp) × (0 < bps * brp)
  product_fits =
      let most : bps * brp ≤ (2 ^ 24 - 1) * 256 =
        mul-le-mul {n₂ = 2 ^ 24 - 1} {m₂ = 256} (omega (arith, range.bps_max)) high in
      let least : 1 * 1 ≤ bps * brp =
        mul-le-mul {n₁ = 1} {m₁ = 1} (omega (arith, range.bps_min)) low in
      (omega arith, omega arith)

  -- There are fewer than 2 ^ 16 quanta in a bit.
  total_small : fcan_hz / (bps * brp) < 2 ^ 16
  total_small =
      let more : bps * 1 ≤ bps * brp = mul-le-mul_left bps low in
      (div-lt_iff_lt-mul {x = fcan_hz} {y = 2 ^ 16} product_fits.1).1 (omega (arith, range.clock))

  abbrev total : ℕ
  total = fcan_hz / (bps * brp)

  -- What a round that finds a phase has tested.
  try_brp_tests :
      (p : Phase)
      → try_brp fcan_hz bps sample_pct lim brp ≡ take p
      → (p.brp ≡ brp)
        × (fcan_hz ≡ bps * brp * total)
        × (total ≡ 1 + p.tseg1 + p.tseg2)
        × (p.tseg1 ≡ tseg1_of total sample_pct)
        × (p.sjw ≡ min p.tseg2 lim.sjw_max)
        × (4 ≤ total)
        × (lim.tseg1_min ≤ p.tseg1)
        × (p.tseg1 ≤ lim.tseg1_max)
        × (lim.tseg2_min ≤ p.tseg2)
        × (p.tseg2 ≤ lim.tseg2_max)
  unfolding try_brp
  try_brp_tests p e = ground (arith, product_fits, total_small, div-add-mod fcan_hz (bps * brp))

  -- A round that finds a phase finds a legal one, of its prescaler.
  pub try_brp-take :
      (p : Phase)
      → try_brp fcan_hz bps sample_pct lim brp ≡ take p
      → IsTiming fcan_hz bps sample_pct lim p × (p.brp ≡ brp)
  try_brp-take p e =
      let tests = try_brp_tests p e in
      let same = tests.0 in
      let split = tests.2 in
      let in_quanta : (1 + p.tseg1 + p.tseg2) * sample_pct ≡ total * sample_pct =
        ap (λ t. t * sample_pct) (sym split) in
      let in_clocks : (1 + p.tseg1 + p.tseg2) * (bps * p.brp) ≡ total * (bps * brp) =
        ap₂ (λ t b. t * (bps * b)) (sym split) same in
      ground (
        arith,
        tests,
        in_quanta,
        in_clocks,
        tseg1_of_lem total sample_pct total_small range.percent,
        wide.tseg1_narrow,
      )

  -- A round with a legal phase of its prescaler finds it.
  pub take-try_brp :
      (p : Phase)
      → IsTiming fcan_hz bps sample_pct lim p
      → p.brp ≡ brp
      → try_brp fcan_hz bps sample_pct lim brp ≡ take p
  unfolding try_brp
  take-try_brp p legal same =
      let exact : fcan_hz ≡ (1 + p.tseg1 + p.tseg2) * (bps * brp) =
        legal.exact ∙ ap (λ b. (1 + p.tseg1 + p.tseg2) * (bps * b)) same in
      let split : total ≡ 1 + p.tseg1 + p.tseg2 =
        ap (λ f. f / (bps * brp)) exact ∙ mul-div_left _ product_fits.1 in
      let whole : fcan_hz % (bps * brp) ≡ 0 = ap (λ f. f % (bps * brp)) exact ∙ mul-mod_left _ _ in
      let in_quanta : (1 + p.tseg1 + p.tseg2) * sample_pct ≡ total * sample_pct =
        ap (λ t. t * sample_pct) (sym split) in
      let nearest : tseg1_of total sample_pct ≡ p.tseg1 = omega (
        arith,
        in_quanta,
        legal.sample_low,
        legal.sample_high,
        tseg1_of_lem total sample_pct total_small range.percent,
      ) in
      ground (arith, product_fits, total_small, split, whole, nearest, same, legal)

  pub try_brp_fault : try_brp fcan_hz bps sample_pct lim brp ≢ fault
  unfolding try_brp
  try_brp_fault e = ground (arith, product_fits)

  -- A round that ends the loop leaves no legal phase of its prescaler or a larger one.
  pub try_brp_stop :
      (p : Phase)
      → try_brp fcan_hz bps sample_pct lim brp ≡ stop
      → brp ≤ p.brp
      → ¬ (IsTiming fcan_hz bps sample_pct lim p)
  unfolding try_brp
  try_brp_stop p e later legal =
      let few : total < 4 = ground (arith, product_fits) in
      let whole : fcan_hz ≡ bps * brp * total =
        ground (arith, product_fits, div-add-mod fcan_hz (bps * brp)) in
      let most : bps * brp * total ≤ bps * p.brp * 3 =
        mul-le-mul (mul-le-mul_left bps later) (omega (arith, few)) in
      let least : 4 * (bps * p.brp) ≤ (1 + p.tseg1 + p.tseg2) * (bps * p.brp) =
        mul-le-mul_right (bps * p.brp) legal.quanta in
      let positive : bps * brp ≤ bps * p.brp = mul-le-mul_left bps later in
      omega (arith, product_fits, legal.exact)
