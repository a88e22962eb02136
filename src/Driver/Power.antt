-- ===== src/Driver/Power.antt =====
-- Life cycle, power, mode and control: `can_apply_init`, `CAN_Initialize`, `CAN_Uninitialize`,
-- `CAN_PowerControl`, `CAN_SetMode` and `CAN_Control` of cmsis_driver/Driver_CAN_dsPIC33AK.c.
pub mod Apply
pub mod Outcomes
use dspic33ak_can_cmsis_driv.Prelude.{
  ℕ, ℤ, pos, negsuc, Bool, true, false, not, ◌&&◌, ◌||◌, Option, none, some,
}
use dspic33ak_can_cmsis_driv.Prelude.{◌==◌, if◌then◌else◌, bit_and}
use dspic33ak_can_cmsis_driv.Canfd.{Config, Mode}
use dspic33ak_can_cmsis_driv.Arm
use dspic33ak_can_cmsis_driv.Arm.{PowerState, ArmMode}
use dspic33ak_can_cmsis_driv.Driver.Hal.{Hal, is_ok}
use dspic33ak_can_cmsis_driv.Driver.Ring.{Ring}
use dspic33ak_can_cmsis_driv.Driver.Context.{Context, Device, can_hal_to_arm, can_map_mode}
use dspic33ak_can_cmsis_driv.Driver.Context.{can_normal_mode_for_ctx}
use dspic33ak_can_cmsis_driv.Driver.Event.{obj_tx}

-- `==` on modes.
abbrev pub mode_beq : Mode → Mode → Bool
mode_beq Mode.none Mode.none = true
mode_beq Mode.normal_fd Mode.normal_fd = true
mode_beq Mode.normal_classic Mode.normal_classic = true
mode_beq Mode.internal_loopback Mode.internal_loopback = true
mode_beq Mode.listen_only Mode.listen_only = true
mode_beq Mode.external_loopback Mode.external_loopback = true
mode_beq _ _ = false

-- The configuration that `can_apply_init` fills in. The tick function is
-- `Driver_CAN_dsPIC33AK_GetMs`, which is not NULL.
unfoldable pub config_of : Context → Mode → Config
config_of ctx mode = record {
  can_clk_hz = ctx.can_clk_hz;
  nominal_bps = ctx.nominal_bps;
  data_bps = ctx.data_bps;
  sample_pct = ctx.sample_pct;
  brs = not (ctx.fd_mode == 0);
  mode = mode;
  timeout_ms = ctx.timeout_ms;
  has_get_ms = true;
  msg_ram = ctx.msg_ram;
  msg_ram_size = ctx.msg_ram_size;
}

-- `rc == ARM_DRIVER_OK`
abbrev pub is_driver_ok : ℤ → Bool
is_driver_ok (pos n) = n == 0
is_driver_ok (negsuc n) = false

abbrev pub is_normal : Mode → Bool
is_normal m = mode_beq m Mode.normal_fd || mode_beq m Mode.normal_classic

module _ (hal : Hal) where
  open hal use {State, init, deinit, isr_set_callback, isr_enable, isr_disable, tx_abort}

  unfoldable pub can_apply_init : Mode → Device State → ℤ × Device State
  can_apply_init mode d =
      let ctx : Context = d.ctx in
      let inst = ctx.hal_inst in
      let h1 = (isr_disable inst d.hal).1 in
      let h2 = (isr_set_callback inst false h1).1 in
      let (st, h3) = init inst (config_of ctx mode) h2 in
      if not (is_ok st)
      then (can_hal_to_arm st, record d { hal = h3 })
      else (let h4 = (isr_set_callback inst true h3).1 in
          let (st', h5) = isr_enable inst ctx.irq_priority h4 in
          if not (is_ok st')
          then (let h6 = (isr_set_callback inst false h5).1 in
              let h7 = (deinit inst h6).1 in (can_hal_to_arm st', record d { hal = h7 }))
          else (Arm.driver_ok, record { ctx = record ctx { mode = mode }; hal = h5 }))

  unfoldable pub can_initialize : Option ℕ → Option ℕ → Device State → ℤ × Device State
  can_initialize cb_unit_event cb_object_event d =
      let ctx : Context = d.ctx in
      if not ctx.enabled then (Arm.driver_error_unsupported, d) else (
        Arm.driver_ok,
        record d {
          ctx = record ctx {
            cb_unit = cb_unit_event;
            cb_object = cb_object_event;
            powered = false;
            initialized = true;
          };
        },
      )

  -- `case ARM_POWER_FULL`
  unfoldable pub power_full : Device State → ℤ × Device State
  power_full d =
      let ctx : Context = d.ctx in
      let rx : Ring = ctx.rx in
      if ctx.powered
      then (Arm.driver_ok, d)
      else (let cleared = record ctx { rx = record rx { rx_head = 0; rx_tail = 0 } } in
          let (rc, d') =
            can_apply_init (can_normal_mode_for_ctx cleared) (record d { ctx = cleared }) in
          let ctx' : Context = d'.ctx in
          if not (is_driver_ok rc)
          then (rc, d')
          else (Arm.driver_ok, record d' { ctx = record ctx' { powered = true } }))

  -- `case ARM_POWER_OFF`
  unfoldable pub power_off : Device State → ℤ × Device State
  power_off d =
      let ctx : Context = d.ctx in
      let inst = ctx.hal_inst in
      let h1 = (isr_disable inst d.hal).1 in
      let h2 = (isr_set_callback inst false h1).1 in
      let h3 = (deinit inst h2).1 in
      let off = record ctx { powered = false } in
      (Arm.driver_ok, record { ctx = off; hal = if ctx.powered then h3 else d.hal })

  unfoldable pub can_power_control : PowerState → Device State → ℤ × Device State
  can_power_control state d = if not d.ctx.initialized then (Arm.driver_error, d) else elim state [
    | PowerState.full ↦ power_full d
    | PowerState.off ↦ power_off d
    | PowerState.low ↦ (Arm.driver_error_unsupported, d)
    | PowerState.other _ ↦ (Arm.driver_error_parameter, d)
  ]

  unfoldable pub can_uninitialize : Device State → ℤ × Device State
  can_uninitialize d =
      let d' = if d.ctx.powered then (can_power_control PowerState.off d).1 else d in
      let ctx : Context = d'.ctx in
      (
        Arm.driver_ok,
        record d' { ctx = record ctx { cb_unit = none; cb_object = none; initialized = false } },
      )

  -- The end of `CAN_SetMode`, with the HAL mode that has been chosen.
  unfoldable pub change_mode : Mode → Device State → ℤ × Device State
  change_mode hal_mode d =
      if not d.ctx.powered
      then (Arm.driver_error, d)
      else if mode_beq hal_mode d.ctx.mode
      then (Arm.driver_ok, d)
      else can_apply_init hal_mode d

  unfoldable pub can_set_mode : ArmMode → Device State → ℤ × Device State
  unfolding can_map_mode
  can_set_mode mode d = if not d.ctx.initialized then (Arm.driver_error, d) else elim mode [
    | ArmMode.initialization ↦ (Arm.driver_ok, d)
    | ArmMode.normal ↦ change_mode (can_normal_mode_for_ctx d.ctx) d
    | m ↦ elim (can_map_mode m) [
      | none ↦ (Arm.driver_error_unsupported, d)
      | some hal_mode ↦ change_mode hal_mode d
    ]
  ]

  -- `case ARM_CAN_SET_FD_MODE`
  unfoldable pub control_fd_mode : ℕ → Device State → ℤ × Device State
  control_fd_mode arg d =
      if not (arg == 0) && not (arg == 1)
      then (Arm.driver_error_parameter, d)
      else (let ctx : Context = d.ctx in
          let ctx' = record ctx { fd_mode = if not (arg == 0) then 1 else 0 } in
          let m = if is_normal ctx.mode then can_normal_mode_for_ctx ctx' else ctx.mode in
          if ctx.powered
          then can_apply_init m (record d { ctx = ctx' })
          else (Arm.driver_ok, record d { ctx = ctx' }))

  -- `case ARM_CAN_ABORT_MESSAGE_SEND`
  unfoldable pub control_abort : ℕ → Device State → ℤ × Device State
  control_abort arg d =
      if not d.ctx.powered
      then (Arm.driver_error, d)
      else if not (arg == obj_tx)
      then (Arm.driver_error_parameter, d)
      else (let (st, h) = tx_abort d.ctx.hal_inst d.hal in
          (can_hal_to_arm st, record d { hal = h }))

  unfoldable pub can_control : ℕ → ℕ → Device State → ℤ × Device State
  can_control control arg d =
      let operation = bit_and control 0xff in
      if not d.ctx.initialized
      then (Arm.driver_error, d)
      else if operation == Arm.set_fd_mode
      then control_fd_mode arg d
      else if operation == Arm.abort_message_send
      then control_abort arg d
      else (Arm.driver_error_unsupported, d)
