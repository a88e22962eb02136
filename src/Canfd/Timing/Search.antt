-- ===== src/Canfd/Timing/Search.antt =====
-- `solve_phase` finds a legal phase exactly when there is one, and the one with the smallest
-- prescaler.
use dspic33ak_can_cmsis_driv.Prelude.{ℕ, ◌==◌, false, zero, suc, ◌+◌, ◌≤◌, ◌≡◌, ◌≢◌, refl, arith}
use dspic33ak_can_cmsis_driv.Canfd.Timing.{Limits, Phase, Round, try_brp, fault, skip, stop, take}
use dspic33ak_can_cmsis_driv.Canfd.Timing.{Solved, trap, not_found, found}
use dspic33ak_can_cmsis_driv.Canfd.Timing.{solve_rounds, solve_phase}
use dspic33ak_can_cmsis_driv.Canfd.Timing.Legal.{IsTiming, IsInRange, IsLimits}
use dspic33ak_can_cmsis_driv.Canfd.Timing.Legal.{
  try_brp-take, take-try_brp, try_brp_stop, try_brp_fault,
}

-- A result of the search among the prescalers from `brp` on.
pub data IsAnswer (fcan_hz bps sample_pct : ℕ) (lim : Limits) (brp : ℕ) : Solved → Type 0 where
  best :
      {p : Phase}
      → IsTiming fcan_hz bps sample_pct lim p
      → ((q : Phase) → brp ≤ q.brp → IsTiming fcan_hz bps sample_pct lim q → p.brp ≤ q.brp)
      → IsAnswer fcan_hz bps sample_pct lim brp (found p)
  impossible :
      ((q : Phase) → brp ≤ q.brp → ¬ (IsTiming fcan_hz bps sample_pct lim q))
      → IsAnswer fcan_hz bps sample_pct lim brp not_found

module _ (fcan_hz bps sample_pct : ℕ) (lim : Limits) (range : IsInRange fcan_hz bps sample_pct)
    (wide : IsLimits lim) where
  abbrev IsFrom : ℕ → Solved → Type 0
  IsFrom = IsAnswer fcan_hz bps sample_pct lim

  -- A round without a phase of its prescaler leaves the search to the later rounds.
  skipped :
      (brp : ℕ) (q : Phase)
      → 1 ≤ brp
      → brp ≤ 256
      → try_brp fcan_hz bps sample_pct lim brp ≡ skip
      → brp ≤ q.brp
      → IsTiming fcan_hz bps sample_pct lim q
      → brp + 1 ≤ q.brp
  skipped brp q low high e from legal =
      let other : q.brp ≢ brp = λ same.
        let taken = take-try_brp fcan_hz bps sample_pct lim range wide brp low high q legal same in
        cc in
      ground (arith, other)

  IsFrom-next :
      (brp : ℕ) (r : Solved)
      → 1 ≤ brp
      → brp ≤ 256
      → try_brp fcan_hz bps sample_pct lim brp ≡ skip
      → IsFrom (brp + 1) r
      → IsFrom brp r
  IsFrom-next brp _ low high e (best legal least) =
      best legal (λ q from l. least q (skipped brp q low high e from l) l)
  IsFrom-next brp _ low high e (impossible none_left) =
      impossible (λ q from l. none_left q (skipped brp q low high e from l) l)

  round-IsFrom :
      (brp : ℕ) (rest : Solved) (r : Round)
      → 1 ≤ brp
      → brp ≤ 256
      → try_brp fcan_hz bps sample_pct lim brp ≡ r
      → IsFrom (brp + 1) rest
      → IsFrom brp (elim r [ fault ↦ trap | skip ↦ rest | stop ↦ not_found | take p ↦ found p ])
  round-IsFrom brp rest fault low high h a =
      absurd (try_brp_fault fcan_hz bps sample_pct lim range wide brp low high h)
  round-IsFrom brp rest skip low high h a = IsFrom-next brp _ low high h a
  round-IsFrom brp rest stop low high h a =
      impossible (λ q. try_brp_stop fcan_hz bps sample_pct lim range wide brp low high q h)
  round-IsFrom brp rest (take p) low high h a =
      let (legal, same) = try_brp-take fcan_hz bps sample_pct lim range wide brp low high p h in
      best legal (λ q from _. omega arith)

  solve_rounds-IsFrom :
      (rounds brp : ℕ)
      → 1 ≤ brp
      → rounds + brp ≡ 257
      → IsFrom brp (solve_rounds rounds fcan_hz bps sample_pct lim brp)
  unfolding solve_rounds
  solve_rounds-IsFrom zero brp low e = impossible (λ q from legal. omega (arith, legal.brp_max))
  solve_rounds-IsFrom (suc rounds) brp low e =
      round-IsFrom brp _ (try_brp fcan_hz bps sample_pct lim brp) low (omega arith) refl
        (solve_rounds-IsFrom rounds (brp + 1) (omega arith) (omega arith))

  -- For a rate below 2 ^ 24 and a clock below 2 ^ 16 times the rate, the search never divides by
  -- zero; it finds a phase exactly when there is one with a prescaler of at most 256, and the one
  -- it finds is legal and has the smallest prescaler of all.
  pub solve_phase_best :
      IsAnswer fcan_hz bps sample_pct lim 1 (solve_phase fcan_hz bps sample_pct lim)
  unfolding solve_phase
  solve_phase_best =
      let positive : (bps == 0) ≡ false = ground (arith, range.bps_min) in
      rw positive (solve_rounds-IsFrom 256 1 (omega arith) refl)
