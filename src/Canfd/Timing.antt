-- ===== src/Canfd/Timing.antt =====
-- `solve_phase` and `nora_canfd_calc_bit_timing` of src/hal_can/nora_canfd_common_dspic33ak.c.
-- Products of `uint32_t` wrap at 2 ^ 32, the segments are `uint16_t`, and a division by a product
-- that wraps to zero, which traps on the device, is an outcome of its own.
pub mod Legal
pub mod Search
pub mod Word
pub mod Calculate
pub mod Trap
use dspic33ak_can_cmsis_driv.Prelude.{ℕ, zero, suc, ◌+◌, ◌-◌, ◌*◌, ◌/◌, ◌%◌, ◌^◌, bit_or, min}
use dspic33ak_can_cmsis_driv.Prelude.{Bool, not, ◌||◌, Option, none, some, ltb, leb, ◌==◌}
use dspic33ak_can_cmsis_driv.Prelude.{if◌then◌else◌}
use dspic33ak_can_cmsis_driv.Prelude.Bits.{shl, u16, u32}
use dspic33ak_can_cmsis_driv.Canfd.{Status}

-- `bt_limits_t`
pub record Limits : Type 0 where
  pub tseg1_min : ℕ
  pub tseg1_max : ℕ
  pub tseg2_min : ℕ
  pub tseg2_max : ℕ
  pub sjw_max : ℕ

abbrev pub k_nominal_limits : Limits
k_nominal_limits = record {
  tseg1_min = 2;
  tseg1_max = 256;
  tseg2_min = 1;
  tseg2_max = 128;
  sjw_max = 128;
}

abbrev pub k_data_limits : Limits
k_data_limits = record {
  tseg1_min = 1;
  tseg1_max = 32;
  tseg2_min = 1;
  tseg2_max = 16;
  sjw_max = 16;
}

-- The NORA_CANFD_NBTCFG_*_POS and NORA_CANFD_DBTCFG_*_POS positions, which are the same.
abbrev pub pos_sjw : ℕ
pos_sjw = 0

abbrev pub pos_tseg2 : ℕ
pos_tseg2 = 8

abbrev pub pos_tseg1 : ℕ
pos_tseg1 = 16

abbrev pub pos_brp : ℕ
pos_brp = 24

-- The prescaler and the segments that are found, as counts.
pub record Phase : Type 0 where
  pub brp : ℕ
  pub tseg1 : ℕ
  pub tseg2 : ℕ
  pub sjw : ℕ

-- How a round of the loop ends: by a trap, `continue`, `break` or the `return true`.
pub data Round : Type 0 where
  fault skip stop : Round
  take : Phase → Round

-- `tseg1`, for a total
unfoldable pub tseg1_of : ℕ → ℕ → ℕ
tseg1_of total sample_pct = u16 (u16 (u32 (u32 (total * sample_pct) + 50) / 100) + (2 ^ 16 - 1))

-- The body of the loop.
unfoldable pub try_brp : ℕ → ℕ → ℕ → Limits → ℕ → Round
unfolding tseg1_of
try_brp fcan_hz bps sample_pct lim brp =
    let product = u32 (bps * brp) in
    let total = fcan_hz / product in
    let tseg1 = tseg1_of total sample_pct in
    let tseg2 = u16 (total - 1 - tseg1) in
    if product == 0
    then fault
    else if not (fcan_hz % product == 0)
    then skip
    else if ltb total 4
    then stop
    else if ltb tseg1 lim.tseg1_min || ltb lim.tseg1_max tseg1
    then skip
    else if ltb total (1 + tseg1 + lim.tseg2_min)
    then skip
    else if ltb tseg2 lim.tseg2_min || ltb lim.tseg2_max tseg2
    then skip
    else take (record {
      brp = brp;
      tseg1 = tseg1;
      tseg2 = tseg2;
      sjw = if ltb tseg2 lim.sjw_max then tseg2 else lim.sjw_max;
    })

pub data Solved : Type 0 where
  trap not_found : Solved
  found : Phase → Solved

-- The loop, with `rounds` rounds left.
unfoldable pub solve_rounds : ℕ → ℕ → ℕ → ℕ → Limits → ℕ → Solved
unfolding try_brp
solve_rounds zero fcan_hz bps sample_pct lim brp = not_found
solve_rounds (suc rounds) fcan_hz bps sample_pct lim brp =
    let rest = solve_rounds rounds fcan_hz bps sample_pct lim (brp + 1) in
    elim (try_brp fcan_hz bps sample_pct lim brp) [
      | fault ↦ trap
      | skip ↦ rest
      | stop ↦ not_found
      | take p ↦ found p
    ]

-- `for (brp = 1u; brp <= 256u; brp++)`
unfoldable pub solve_phase : ℕ → ℕ → ℕ → Limits → Solved
unfolding solve_rounds
solve_phase fcan_hz bps sample_pct lim =
    if bps == 0 then not_found else solve_rounds 256 fcan_hz bps sample_pct lim 1

-- `*btcfg_out`
unfoldable pub btcfg_word : Phase → ℕ
btcfg_word p =
    bit_or
      (bit_or (bit_or (u32 (shl (p.brp - 1) pos_brp)) (u32 (shl (p.tseg1 - 1) pos_tseg1)))
        (u32 (shl (p.tseg2 - 1) pos_tseg2)))
      (u32 (shl (p.sjw - 1) pos_sjw))

abbrev pub tdc_tdco_pos : ℕ
tdc_tdco_pos = 8

abbrev pub tdc_tdcmod_pos : ℕ
tdc_tdcmod_pos = 16

abbrev pub tdc_tdcmod_auto : ℕ
tdc_tdcmod_auto = 2

-- `*tdc`
unfoldable pub tdc_word : Phase → ℕ
tdc_word p =
    let tdco = u32 (p.brp * p.tseg1) in
    bit_or (shl tdc_tdcmod_auto tdc_tdcmod_pos)
      (shl (if ltb 0x7f tdco then 0x7f else tdco) tdc_tdco_pos)

-- What `nora_canfd_calc_bit_timing` writes, when it returns OK.
pub record Words : Type 0 where
  pub nbtcfg : ℕ
  pub dbtcfg : ℕ
  pub tdc : ℕ

-- How it ends. No caller reads the words after an error.
pub data Calculated : Type 0 where
  trapped : Calculated
  failed : Status → Calculated
  words : Words → Calculated

-- The three pointers are not NULL.
unfoldable pub nora_canfd_calc_bit_timing : ℕ → ℕ → ℕ → ℕ → Calculated
unfolding btcfg_word tdc_word
nora_canfd_calc_bit_timing fcan_hz nominal_bps data_bps sample_pct =
    if sample_pct == 0 || leb 100 sample_pct
    then failed Status.err_invalid_arg
    else elim (solve_phase fcan_hz nominal_bps sample_pct k_nominal_limits) [
      | trap ↦ trapped
      | not_found ↦ failed Status.err_invalid_arg
      | found n ↦ elim (solve_phase fcan_hz data_bps sample_pct k_data_limits) [
        | trap ↦ trapped
        | not_found ↦ failed Status.err_invalid_arg
        | found p ↦
            words (record { nbtcfg = btcfg_word n; dbtcfg = btcfg_word p; tdc = tdc_word p })
      ]
    ]

abbrev demo : Calculated
demo = nora_canfd_calc_bit_timing 20000000 500000 2000000 80
