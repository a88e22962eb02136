-- ===== src/Canfd/Tests.antt =====
-- The HAL's codecs and bit timing at concrete values.
use dspic33ak_can_cmsis_driv.Prelude.{
  ℕ, ◌≡◌, ◌≤◌, ◌<◌, ◌*◌, ◌^◌, refl, arith, true, false, [], ◌∷◌, zero, suc, get_or,
}
use dspic33ak_can_cmsis_driv.Canfd.{Frame}
use dspic33ak_can_cmsis_driv.Canfd.Dlc.{dlc_to_len, len_to_dlc}
use dspic33ak_can_cmsis_driv.Canfd.Dlc.Codes.{len_to_dlc_smallest}
use dspic33ak_can_cmsis_driv.Canfd.Timing.{
  k_nominal_limits, k_data_limits, trap, solve_phase, nora_canfd_calc_bit_timing,
}
use dspic33ak_can_cmsis_driv.Canfd.Timing.Legal.{IsInRange, IsLimits}
use dspic33ak_can_cmsis_driv.Canfd.Timing.Search.{IsAnswer, solve_phase_best}
use dspic33ak_can_cmsis_driv.Canfd.Timing.Calculate.{IsCalculation, calc_bit_timing_correct}
use dspic33ak_can_cmsis_driv.Canfd.Timing.Trap.{solve_phase_traps}
use dspic33ak_can_cmsis_driv.Canfd.Object.{read_object, write_object}
use dspic33ak_can_cmsis_driv.Canfd.Object.Payload.{IsPayload}
use dspic33ak_can_cmsis_driv.Canfd.Object.RoundTrip.{padded, read_object-write_object}

-- 20 MHz, 500 kbit/s and 2 Mbit/s, at 80 percent.
nominal_range : IsInRange 20000000 500000 80
nominal_range = record {
  bps_min = omega arith;
  bps_max = omega arith;
  clock = omega arith;
  percent = omega arith;
}

data_range : IsInRange 20000000 2000000 80
data_range = record {
  bps_min = omega arith;
  bps_max = omega arith;
  clock = omega arith;
  percent = omega arith;
}

data-IsLimits : IsLimits k_data_limits
data-IsLimits = ground arith

calc_bit_timing_correct_example :
    IsCalculation 20000000 500000 2000000 80 (nora_canfd_calc_bit_timing 20000000 500000 2000000 80)
calc_bit_timing_correct_example =
    calc_bit_timing_correct 20000000 500000 2000000 80 (omega arith) nominal_range data_range

solve_phase_best_example :
    IsAnswer 20000000 2000000 80 k_data_limits 1 (solve_phase 20000000 2000000 80 k_data_limits)
solve_phase_best_example =
    solve_phase_best 20000000 2000000 80 k_data_limits data_range data-IsLimits

-- A rate of 2 ^ 31.
solve_phase_traps_example : solve_phase 4000000 (128 * 2 ^ 24) 80 k_nominal_limits ≡ trap
solve_phase_traps_example =
    solve_phase_traps 4000000 128 80 k_nominal_limits (omega arith) (omega arith) (omega arith)
      (omega arith)

len_to_dlc_smallest_example :
    (len_to_dlc 13 < 16)
    × (13 ≤ dlc_to_len (len_to_dlc 13))
    × (dlc_to_len (len_to_dlc 13) ≤ 64)
    × ((dlc : ℕ) → dlc < 16 → 13 ≤ dlc_to_len dlc → len_to_dlc 13 ≤ dlc)
len_to_dlc_smallest_example = len_to_dlc_smallest 13 (omega arith)

-- Nine bytes, which are sent as twelve.
abbrev nine : Frame
nine = record {
  id = 0x1234567;
  extended = true;
  fd = true;
  brs = false;
  len = 9;
  bytes = 1 ∷ 2 ∷ 3 ∷ 4 ∷ 5 ∷ 6 ∷ 7 ∷ 8 ∷ 255 ∷ [];
}

nine-are_bytes : (i : ℕ) → get_or nine.bytes i 0 < 2 ^ 8
nine-are_bytes zero = omega arith
nine-are_bytes (suc zero) = omega arith
nine-are_bytes (suc (suc zero)) = omega arith
nine-are_bytes (suc (suc (suc zero))) = omega arith
nine-are_bytes (suc (suc (suc (suc zero)))) = omega arith
nine-are_bytes (suc (suc (suc (suc (suc zero))))) = omega arith
nine-are_bytes (suc (suc (suc (suc (suc (suc zero)))))) = omega arith
nine-are_bytes (suc (suc (suc (suc (suc (suc (suc zero))))))) = omega arith
nine-are_bytes (suc (suc (suc (suc (suc (suc (suc (suc zero)))))))) = omega arith
nine-are_bytes (suc (suc (suc (suc (suc (suc (suc (suc (suc i))))))))) = omega arith

nine-IsPayload : IsPayload nine
nine-IsPayload = record { at_most = omega arith; len_bytes = refl; are_bytes = nine-are_bytes }

read_object-write_object_example : read_object (write_object nine) ≡ padded nine
read_object-write_object_example = read_object-write_object nine (omega arith) nine-IsPayload
