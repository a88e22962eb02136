-- ===== src/Driver/Bitrate/Sample.antt =====
-- The sample point that `CAN_SetBitrate` derives from the ARM bit segments.
use dspic33ak_can_cmsis_driv.Prelude.{ℕ, ◌+◌, ◌*◌, ◌/◌, ◌%◌, ◌≤◌, ◌<◌, ◌≡◌, ◌≢◌, ◌⊎◌, arith}
use native.Mathlib.Nat.{div-lt_iff_lt-mul, div-mul-le_self, lt-div-mul-add}
use native.Mathlib.Decide.{ℕ_discrete}
use dspic33ak_can_cmsis_driv.Prelude.{inl, inr}
use dspic33ak_can_cmsis_driv.Prelude.Bits.{u8, bit_and-mask, shr-bit_and}
use dspic33ak_can_cmsis_driv.Driver.Bitrate.{prop_seg, phase_seg1, phase_seg2, derive_sample_pct}

-- The fields of the segment word are its three low bytes.
prop_seg_lem : (w : ℕ) → prop_seg w ≡ w % 256
prop_seg_lem w = omega (arith, bit_and-mask 8 w)

phase_seg1_lem : (w : ℕ) → phase_seg1 w ≡ w / 256 % 256
phase_seg1_lem w = omega (arith, shr-bit_and 8 w 0xff00, bit_and-mask 8 (w / 256))

phase_seg2_lem : (w : ℕ) → phase_seg2 w ≡ w / 65536 % 256
phase_seg2_lem w = omega (arith, shr-bit_and 16 w 0xff_0000, bit_and-mask 8 (w / 65536))

percent_floor :
    (b p : ℕ)
    → p ≢ 0
    → let q = b * 100 / (b + p) in
      (q < 100) × (q * (b + p) ≤ b * 100) × (b * 100 < (q + 1) * (b + p))
percent_floor b p ne =
    let pos : 0 < b + p = omega arith in
    (
      (div-lt_iff_lt-mul pos).1 (omega arith),
      div-mul-le_self (b * 100) (b + p),
      omega (arith, lt-div-mul-add {a = b * 100} pos),
    )

derive_of_ne :
    (w old : ℕ)
    → phase_seg2 w ≢ 0
    → let b = 1 + prop_seg w + phase_seg1 w in
      derive_sample_pct w old ≡ u8 (b * 100 / (b + phase_seg2 w))
unfolding derive_sample_pct
derive_of_ne w old ne = ground (arith, phase_seg2_lem w)

derive_of_eq : (w old : ℕ) → phase_seg2 w ≡ 0 → derive_sample_pct w old ≡ old
unfolding derive_sample_pct
derive_of_eq w old e = ground arith

-- For a segment word whose PHASE_SEG2 is not 0 the derived sample point is the percentage,
-- rounded down, that the synchronisation, propagation and first phase segments make of the bit
-- (the fields being the three low bytes of the word); it is below 100, so the cast to 8 bits cuts
-- nothing off. A word whose PHASE_SEG2 is 0 leaves the old sample point.
pub derive_sample_pct_lem :
    (w old : ℕ)
    → let before = 1 + w % 256 + w / 256 % 256 in
      let ph2 = w / 65536 % 256 in
      let sample = derive_sample_pct w old in
      ((ph2 ≢ 0)
          × (sample < 100)
          × (sample * (before + ph2) ≤ before * 100)
          × (before * 100 < (sample + 1) * (before + ph2))
        ⊎ (ph2 ≡ 0) × (sample ≡ old))
derive_sample_pct_lem w old =
    rw (← prop_seg_lem w, ← phase_seg1_lem w, ← phase_seg2_lem w)
      (elim (ℕ_discrete (phase_seg2 w) 0) [
        | yes e ↦ inr (e, derive_of_eq w old e)
        | no ne ↦ inl (
            ground (
              arith,
              derive_of_ne w old ne,
              percent_floor (1 + prop_seg w + phase_seg1 w) (phase_seg2 w) ne,
            ))
      ])
