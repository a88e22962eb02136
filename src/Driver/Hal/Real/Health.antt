-- ===== src/Driver/Hal/Real/Health.antt =====
-- `CAN_GetStatus` over the HAL: the error state of the bus, from the register to the application.
use dspic33ak_can_cmsis_driv.Prelude.{
  ℕ, ◌/◌, ◌%◌, ◌^◌, ◌≡◌, refl, arith, true, false, ◌||◌, ◌&&◌, if◌then◌else◌,
}
use dspic33ak_can_cmsis_driv.Canfd.{BusStatus}
use dspic33ak_can_cmsis_driv.Canfd.Chip.{Reg}
use dspic33ak_can_cmsis_driv.Canfd.Isr.{System}
use dspic33ak_can_cmsis_driv.Canfd.Isr.Handler.{fetch_reg, nora_canfd_get_status}
use dspic33ak_can_cmsis_driv.Canfd.Isr.Health.{bit, IsDecoded, get_status_decodes}
use dspic33ak_can_cmsis_driv.Arm
use dspic33ak_can_cmsis_driv.Arm.{ArmStatus}
use dspic33ak_can_cmsis_driv.Driver.Context.{Context}
use dspic33ak_can_cmsis_driv.Driver.Status.{can_get_status, no_status, unit_state_of}
use dspic33ak_can_cmsis_driv.Driver.Hal.Real.{Below, running, canfd}

-- The status that a value of CxTREC means.
abbrev pub status_of : ℕ → ArmStatus
status_of trec = record {
  unit_state =
      if bit 21 trec
      then Arm.unit_state_bus_off
      else if bit 19 trec || bit 20 trec
      then Arm.unit_state_passive
      else Arm.unit_state_active;
  last_error_code = 0;
  tx_error_count = trec / 2 ^ 8 % 2 ^ 8;
  rx_error_count = trec % 2 ^ 8;
}

status_of-IsDecoded :
    (trec sta : ℕ) (b : BusStatus)
    → IsDecoded trec sta b
    → record {
      unit_state = unit_state_of b;
      last_error_code = 0;
      tx_error_count = b.tx_err_count;
      rx_error_count = b.rx_err_count;
    }
      ≡ status_of trec
status_of-IsDecoded trec sta b v = rw (v.off, v.passive, v.tx_counter, v.rx_counter) refl

module _ (below : Below) where
  open below use {chip, has_line}

  at_once :
      (ctx : Context) (s : System chip.State)
      → ctx.powered ≡ true
      → chip.present ctx.hal_inst ≡ true
      → let (trec, s1) = fetch_reg chip ctx.hal_inst Reg.trec s in
        let (_, s2) = fetch_reg chip ctx.hal_inst Reg.fifosta1 s1 in
        can_get_status (canfd below) (record { ctx = ctx; hal = running s })
        ≡ (status_of trec, record { ctx = ctx; hal = running s2 })
  unfolding can_get_status
  at_once ctx s on there =
      let (trec, s1) = fetch_reg chip ctx.hal_inst Reg.trec s in
      let (sta, s2) = fetch_reg chip ctx.hal_inst Reg.fifosta1 s1 in
      let (b, decoded, run) = get_status_decodes has_line chip ctx.hal_inst s there in
      let told = status_of-IsDecoded trec sta b decoded in ground (arith, run, told)

  at_rest :
      (ctx : Context) (s : System chip.State)
      → (ctx.powered && chip.present ctx.hal_inst) ≡ false
      → can_get_status (canfd below) (record { ctx = ctx; hal = running s })
        ≡ (no_status, record { ctx = ctx; hal = running s })
  unfolding can_get_status nora_canfd_get_status
  at_rest ctx s off = ground arith

  -- Over the running HAL, CAN_GetStatus reports an instance that is not powered, or has no registers,
  -- as inactive with no errors, and changes nothing. Of any other it reads CxTREC and CxFIFOSTA1,
  -- writes nothing, and reports bus-off if bit 21 of CxTREC is set, else passive if bit 19 or bit 20
  -- is, else active, with the low byte as the receive and the next as the transmit error counter.
  pub driver_reports_status :
      (ctx : Context) (s : System chip.State)
      → let (trec, s1) = fetch_reg chip ctx.hal_inst Reg.trec s in
        let (_, s2) = fetch_reg chip ctx.hal_inst Reg.fifosta1 s1 in
        can_get_status (canfd below) (record { ctx = ctx; hal = running s }) ≡ (
          if ctx.powered && chip.present ctx.hal_inst
          then (status_of trec, record { ctx = ctx; hal = running s2 })
          else (no_status, record { ctx = ctx; hal = running s }))
  driver_reports_status ctx s = ground (arith, at_once ctx s, at_rest ctx s)
