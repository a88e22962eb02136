-- ===== src/Canfd/Timing/Trap.antt =====
-- Rates out of the range of `Search`: the product of the rate and the prescaler wraps to zero.
use dspic33ak_can_cmsis_driv.Prelude.{
  ℕ, zero, suc, ◌+◌, ◌*◌, ◌^◌, ◌%◌, ◌<◌, ◌≤◌, ◌≡◌, ◌⊎◌, arith, ◌==◌, false, inl, inr,
}
use dspic33ak_can_cmsis_driv.Prelude.{ap, ◌∙◌, refl}
use native.Mathlib.Nat.{mod-eq_of_lt}
use dspic33ak_can_cmsis_driv.Prelude.Bits.{u32}
use dspic33ak_can_cmsis_driv.Canfd.Timing.{
  Limits, Solved, Round, found, not_found, stop, take, try_brp, fault, skip, trap, solve_rounds,
  solve_phase,
}

module _ (fcan_hz k sample_pct : ℕ) (lim : Limits) (low : 0 < fcan_hz) (high : fcan_hz < 2 ^ 24)
    (positive : 0 < k) (byte : k < 2 ^ 8) where
  -- A product that is not cut to zero is more than the clock.
  product_large : (brp : ℕ) → (u32 (k * 2 ^ 24 * brp) ≡ 0) ⊎ (2 ^ 24 ≤ u32 (k * 2 ^ 24 * brp))
  product_large brp = ground (arith, regroup)
    where
      regroup : k * 2 ^ 24 * brp ≡ 2 ^ 24 * (k * brp)
      regroup = omega arith

  try_brp_wrapped :
      (brp : ℕ)
      → (try_brp fcan_hz (k * 2 ^ 24) sample_pct lim brp ≡ fault)
        ⊎ (try_brp fcan_hz (k * 2 ^ 24) sample_pct lim brp ≡ skip)
  unfolding try_brp
  try_brp_wrapped brp =
      let p = u32 (k * 2 ^ 24 * brp) in
      elim (product_large brp) [
        | inl zero_product ↦ inl (ground arith)
        | inr large ↦
            let left : fcan_hz % p ≡ fcan_hz = mod-eq_of_lt (omega arith) in
            inr (ground (arith, left))
      ]

  try_brp_256 : try_brp fcan_hz (k * 2 ^ 24) sample_pct lim 256 ≡ fault
  unfolding try_brp
  try_brp_256 = ground arith

  -- What a round leaves, given the rest.
  abbrev after : Solved → Round → Solved
  after rest r = elim r [ fault ↦ trap | skip ↦ rest | stop ↦ not_found | take p ↦ found p ]

  rounds_trap :
      (rounds brp : ℕ)
      → rounds + brp ≡ 256
      → solve_rounds (suc rounds) fcan_hz (k * 2 ^ 24) sample_pct lim brp ≡ trap
  unfolding solve_rounds
  rounds_trap zero brp e =
      ap (λ b. after not_found (try_brp fcan_hz (k * 2 ^ 24) sample_pct lim b)) {x = brp} {y = 256}
        (omega arith)
      ∙ ap (after not_found) try_brp_256
  rounds_trap (suc rounds) brp e =
      let rest = solve_rounds (suc rounds) fcan_hz (k * 2 ^ 24) sample_pct lim (brp + 1) in
      elim (try_brp_wrapped brp) [
        | inl faults ↦ ap (after rest) faults
        | inr skips ↦ ap (after rest) skips ∙ rounds_trap rounds (brp + 1) (omega arith)
      ]

  -- For a clock from 1 to 2 ^ 24 - 1 and a rate that is a multiple of 2 ^ 24, other than 0, below
  -- 2 ^ 32, the search ends with a division by zero.
  pub solve_phase_traps : solve_phase fcan_hz (k * 2 ^ 24) sample_pct lim ≡ trap
  unfolding solve_phase
  solve_phase_traps =
      let some_rate : (k * 2 ^ 24 == 0) ≡ false = ground arith in
      rw some_rate (rounds_trap 255 1 refl)
