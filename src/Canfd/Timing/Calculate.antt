-- ===== src/Canfd/Timing/Calculate.antt =====
-- `nora_canfd_calc_bit_timing` as a whole.
use dspic33ak_can_cmsis_driv.Prelude.{
  ℕ, ◌+◌, ◌*◌, ◌^◌, ◌<◌, ◌≤◌, ◌≡◌, min, arith, false, ◌==◌, ◌||◌, leb,
}
use dspic33ak_can_cmsis_driv.Canfd.{Status}
use dspic33ak_can_cmsis_driv.Canfd.Timing.{
  Phase, btcfg_word, tdc_word, k_nominal_limits, k_data_limits,
}
use dspic33ak_can_cmsis_driv.Canfd.Timing.{
  Words, Calculated, trapped, failed, words, nora_canfd_calc_bit_timing,
}
use dspic33ak_can_cmsis_driv.Canfd.Timing.{Solved, trap, not_found, found}
use dspic33ak_can_cmsis_driv.Canfd.Timing.Legal.{IsTiming, IsInRange}
use dspic33ak_can_cmsis_driv.Canfd.Timing.Search.{IsAnswer, best, impossible, solve_phase_best}
use dspic33ak_can_cmsis_driv.Canfd.Timing.Word.{IsBtcfg, btcfg_word-IsBtcfg, tdc_word_lem}

module _ (fcan_hz nominal_bps data_bps sample_pct : ℕ) where
  abbrev IsNominal : Phase → Type 0
  IsNominal = IsTiming fcan_hz nominal_bps sample_pct k_nominal_limits

  abbrev IsData : Phase → Type 0
  IsData = IsTiming fcan_hz data_bps sample_pct k_data_limits

  -- The words are those of the legal phases of the smallest prescalers.
  pub record IsCalculated (w : Words) : Type 0 where
    pub nominal : Phase
    pub nominal_legal : IsNominal nominal
    pub nominal_least : (q : Phase) → IsNominal q → nominal.brp ≤ q.brp
    pub nominal_word : IsBtcfg w.nbtcfg nominal
    pub data_phase : Phase
    pub data_legal : IsData data_phase
    pub data_least : (q : Phase) → IsData q → data_phase.brp ≤ q.brp
    pub data_word : IsBtcfg w.dbtcfg data_phase
    pub offset : w.tdc ≡ 2 ^ 17 + min 127 (data_phase.brp * data_phase.tseg1) * 2 ^ 8

  pub data IsCalculation : Calculated → Type 0 where
    calculated : {w : Words} → IsCalculated w → IsCalculation (words w)
    refused :
        ((n p : Phase) → IsNominal n → ¬ (IsData p)) → IsCalculation (failed Status.err_invalid_arg)

  both :
      (n d : Solved)
      → IsAnswer fcan_hz nominal_bps sample_pct k_nominal_limits 1 n
      → IsAnswer fcan_hz data_bps sample_pct k_data_limits 1 d
      → IsCalculation (elim n [
        | trap ↦ trapped
        | not_found ↦ failed Status.err_invalid_arg
        | found n ↦ elim d [
          | trap ↦ trapped
          | not_found ↦ failed Status.err_invalid_arg
          | found p ↦
              words (record { nbtcfg = btcfg_word n; dbtcfg = btcfg_word p; tdc = tdc_word p })
        ]
      ])
  both _ _ (impossible no_n) a = refused (λ n p l _. no_n n l.brp_min l)
  both _ _ (best _ _) (impossible no_p) = refused (λ n p _ l. no_p p l.brp_min l)
  both _ _ (best {p = n} ln least_n) (best {p} lp least_p) = calculated (record {
    nominal = n;
    nominal_legal = ln;
    nominal_least = λ q l. least_n q l.brp_min l;
    nominal_word =
        btcfg_word-IsBtcfg fcan_hz nominal_bps sample_pct k_nominal_limits n (ground arith) ln;
    data_phase = p;
    data_legal = lp;
    data_least = λ q l. least_p q l.brp_min l;
    data_word = btcfg_word-IsBtcfg fcan_hz data_bps sample_pct k_data_limits p (ground arith) lp;
    offset = tdc_word_lem p lp.brp_max lp.tseg1_max;
  })

  -- For a sample point from 1 to 99 percent, rates below 2 ^ 24 and a clock below 2 ^ 16 times
  -- either rate, the calculation does not trap: it returns words that hold, in their fields, the
  -- legal phases with the smallest prescalers, and the offset of the secondary sample point; or it
  -- returns ERR_INVALID_ARG, and one of the phases has no legal timing.
  pub calc_bit_timing_correct :
      0 < sample_pct
      → IsInRange fcan_hz nominal_bps sample_pct
      → IsInRange fcan_hz data_bps sample_pct
      → IsCalculation (nora_canfd_calc_bit_timing fcan_hz nominal_bps data_bps sample_pct)
  unfolding nora_canfd_calc_bit_timing
  calc_bit_timing_correct positive rn rd =
      let valid : ((sample_pct == 0) || leb 100 sample_pct) ≡ false =
        ground (arith, positive, rn.percent) in
      rw valid (
        both _ _
          (solve_phase_best fcan_hz nominal_bps sample_pct k_nominal_limits rn (ground arith))
          (solve_phase_best fcan_hz data_bps sample_pct k_data_limits rd (ground arith)))
