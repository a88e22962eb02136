-- ===== src/Driver/Status.antt =====
-- `CAN_GetStatus` of cmsis_driver/Driver_CAN_dsPIC33AK.c.
use dspic33ak_can_cmsis_driv.Prelude.{ℕ, not, if◌then◌else◌}
use dspic33ak_can_cmsis_driv.Canfd.{BusStatus}
use dspic33ak_can_cmsis_driv.Arm
use dspic33ak_can_cmsis_driv.Arm.{ArmStatus}
use dspic33ak_can_cmsis_driv.Driver.Hal.{Hal, is_ok}
use dspic33ak_can_cmsis_driv.Driver.Context.{Device}

abbrev pub no_status : ArmStatus
no_status = record { unit_state = 0; last_error_code = 0; tx_error_count = 0; rx_error_count = 0 }

abbrev pub unit_state_of : BusStatus → ℕ
unit_state_of bs =
    if bs.bus_off
    then Arm.unit_state_bus_off
    else if bs.error_passive
    then Arm.unit_state_passive
    else Arm.unit_state_active

module _ (hal : Hal) where
  open hal use {State, get_status}

  unfoldable pub can_get_status : Device State → ArmStatus × Device State
  can_get_status d =
      let (st, bs, h) = get_status d.ctx.hal_inst d.hal in
      if not d.ctx.powered
      then (record no_status { unit_state = Arm.unit_state_inactive }, d)
      else if not (is_ok st)
      then (record no_status { unit_state = Arm.unit_state_inactive }, record d { hal = h })
      else (
        record {
          unit_state = unit_state_of bs;
          last_error_code = 0;
          tx_error_count = bs.tx_err_count;
          rx_error_count = bs.rx_err_count;
        },
        record d { hal = h },
      )
