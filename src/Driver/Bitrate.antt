-- ===== src/Driver/Bitrate.antt =====
-- `CAN_GetClock` and `CAN_SetBitrate` of cmsis_driver/Driver_CAN_dsPIC33AK.c.
pub mod Sample
use dspic33ak_can_cmsis_driv.Prelude.{ℕ, ℤ, ◌+◌, ◌*◌, ◌/◌, not, ◌&&◌, ◌==◌, if◌then◌else◌, bit_and}
use dspic33ak_can_cmsis_driv.Prelude.{ltb}
use dspic33ak_can_cmsis_driv.Prelude.Bits.{shr, u8}
use dspic33ak_can_cmsis_driv.Arm
use dspic33ak_can_cmsis_driv.Arm.{BitrateSelect}
use dspic33ak_can_cmsis_driv.Driver.Hal.{Hal}
use dspic33ak_can_cmsis_driv.Driver.Context.{Context, Device, can_hal_to_arm}

unfoldable pub can_get_clock : Context → ℕ
can_get_clock ctx = if not ctx.enabled then 0 else ctx.can_clk_hz

abbrev pub prop_seg : ℕ → ℕ
prop_seg bit_segments = shr (bit_and bit_segments 0xff) 0

abbrev pub phase_seg1 : ℕ → ℕ
phase_seg1 bit_segments = shr (bit_and bit_segments 0xff00) 8

abbrev pub phase_seg2 : ℕ → ℕ
phase_seg2 bit_segments = shr (bit_and bit_segments 0xff_0000) 16

-- The sample point after `if (bit_segments != 0u) { ... }`.
unfoldable pub derive_sample_pct : ℕ → ℕ → ℕ
derive_sample_pct bit_segments old =
    let prop = prop_seg bit_segments in
    let ph1 = phase_seg1 bit_segments in
    let ph2 = phase_seg2 bit_segments in
    let tq = 1 + prop + ph1 + ph2 in
    if not (bit_segments == 0)
    then if not (ph2 == 0) && ltb 1 tq then u8 ((1 + prop + ph1) * 100 / tq) else old
    else old

module _ (hal : Hal) where
  open hal use {State, set_bitrate}

  -- After the `switch`.
  unfoldable pub apply_bitrate : Device State → ℤ × Device State
  apply_bitrate d =
      let ctx : Context = d.ctx in
      let (st, h) =
        set_bitrate ctx.hal_inst ctx.can_clk_hz ctx.nominal_bps ctx.data_bps ctx.sample_pct d.hal in
      if not ctx.powered then (Arm.driver_ok, d) else (can_hal_to_arm st, record d { hal = h })

  unfoldable pub can_set_bitrate : BitrateSelect → ℕ → ℕ → Device State → ℤ × Device State
  can_set_bitrate select bitrate bit_segments d =
      let old : Context = d.ctx in
      let ctx = record old { sample_pct = derive_sample_pct bit_segments old.sample_pct } in
      if bitrate == 0 then (Arm.driver_error_parameter, d) else elim select [
        | BitrateSelect.nominal ↦
            apply_bitrate (record d { ctx = record ctx { nominal_bps = bitrate } })
        | BitrateSelect.fd_data ↦
            apply_bitrate (record d { ctx = record ctx { data_bps = bitrate } })
        | BitrateSelect.other _ ↦ (Arm.driver_error_parameter, record d { ctx = ctx })
      ]
