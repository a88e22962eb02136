-- ===== src/Driver/Power/Outcomes.antt =====
-- `CAN_PowerControl`, `CAN_Uninitialize`, `CAN_SetMode` and `CAN_Control` over a HAL with the
-- documented life cycle: what each leaves of an instance, and two ways in which the driver and the
-- HAL come to disagree.
use dspic33ak_can_cmsis_driv.Prelude.{
  ℕ, ◌≡◌, ◌≢◌, ◌⊎◌, inl, inr, refl, arith, true, false, not, ◌==◌, if◌then◌else◌, Option, some,
}
use dspic33ak_can_cmsis_driv.Prelude.{[]}
use dspic33ak_can_cmsis_driv.Canfd.{Mode, Config, Status}
use dspic33ak_can_cmsis_driv.Arm
use dspic33ak_can_cmsis_driv.Arm.{PowerState, ArmMode}
use dspic33ak_can_cmsis_driv.Driver.Hal.{Hal}
use dspic33ak_can_cmsis_driv.Driver.Hal.Lifecycle.{View, IsLifecycle}
use dspic33ak_can_cmsis_driv.Driver.Ring.{Ring}
use dspic33ak_can_cmsis_driv.Driver.Ring.Refine.{contents}
use dspic33ak_can_cmsis_driv.Driver.Context.{Context, Device, can_map_mode, can_normal_mode_for_ctx}
use dspic33ak_can_cmsis_driv.Driver.Power.{can_initialize, can_power_control, change_mode}
use dspic33ak_can_cmsis_driv.Driver.Power.{power_full, power_off, can_apply_init, config_of}
use dspic33ak_can_cmsis_driv.Driver.Power.{can_set_mode, is_normal}
use dspic33ak_can_cmsis_driv.Driver.Power.Apply.{
  view_of, IsSilent, can_apply_init_outcome, can_hal_to_arm_error,
}

module _ (hal : Hal) (life : IsLifecycle hal) where
  open hal use {State}

  -- Every flag down.
  abbrev pub down : View
  down = record { live = false; handler = false; armed = false }

  -- The instance with the indices of its ring reset.
  abbrev cleared : Device State → Device State
  cleared d =
      let ctx : Context = d.ctx in
      let rx : Ring = ctx.rx in
      record d { ctx = record ctx { rx = record rx { rx_head = 0; rx_tail = 0 } } }

  contents-cleared : (d : Device State) → contents (cleared d).ctx.rx ≡ []
  contents-cleared d = refl

  power_full_view :
      (d : Device State)
      → d.ctx.initialized ≡ true
      → d.ctx.powered ≡ false
      → let (rc, d') = can_power_control hal PowerState.full d in
        (contents d'.ctx.rx ≡ [])
        × ((rc ≡ Arm.driver_ok)
              × (d'.ctx.powered ≡ true)
              × (d'.ctx.mode ≡ can_normal_mode_for_ctx d.ctx)
              × (view_of hal life d' ≡ record { live = true; handler = true; armed = true })
            ⊎ (rc ≢ Arm.driver_ok)
              × (d'.ctx.powered ≡ false)
              × ((view_of hal life d').handler ≡ false)
              × ((view_of hal life d').armed ≡ false))
  unfolding can_power_control power_full can_normal_mode_for_ctx
  power_full_view d init off =
      let d0 = cleared d in
      ground (
        arith,
        can_apply_init_outcome hal life (can_normal_mode_for_ctx d0.ctx) d0,
        contents-cleared d,
      )

  -- With the interrupts of the instance disabled and no callback.
  abbrev pub disarmed : Device State → State
  disarmed d =
      let i = d.ctx.hal_inst in (hal.isr_set_callback i false (hal.isr_disable i d.hal).1).1

  -- The HAL was disarmed, initialised with the settings of the context in its normal mode (FD, or
  -- classic where `fd_mode` is 0), with success, and armed.
  pub record IsBroughtUp (d d' : Device State) : Type 0 where
    pub config : Config
    pub mode : config.mode ≡ (if d.ctx.fd_mode == 0 then Mode.normal_classic else Mode.normal_fd)
    pub brs : config.brs ≡ not (d.ctx.fd_mode == 0)
    pub clock : config.can_clk_hz ≡ d.ctx.can_clk_hz
    pub nominal : config.nominal_bps ≡ d.ctx.nominal_bps
    pub data_rate : config.data_bps ≡ d.ctx.data_bps
    pub sample : config.sample_pct ≡ d.ctx.sample_pct
    pub timeout : (config.timeout_ms ≡ d.ctx.timeout_ms) × (config.has_get_ms ≡ true)
    pub ram : (config.msg_ram ≡ d.ctx.msg_ram) × (config.msg_ram_size ≡ d.ctx.msg_ram_size)
    pub succeeds : (hal.init d.ctx.hal_inst config (disarmed d)).0 ≡ Status.ok
    pub armed : d'.hal ≡ (
        let i = d.ctx.hal_inst in
        let h = (hal.init i config (disarmed d)).1 in
        (hal.isr_enable i d.ctx.irq_priority (hal.isr_set_callback i true h).1).1)

  power_full-IsBroughtUp :
      (d : Device State)
      → d.ctx.initialized ≡ true
      → d.ctx.powered ≡ false
      → (can_power_control hal PowerState.full d).0 ≡ Arm.driver_ok
      → IsBroughtUp d (can_power_control hal PowerState.full d).1
  unfolding can_power_control power_full can_normal_mode_for_ctx can_apply_init config_of
  power_full-IsBroughtUp d init off rc =
      let m = can_normal_mode_for_ctx d.ctx in
      let i = d.ctx.hal_inst in
      let c = config_of d.ctx m in
      let (st, h) = hal.init i c (disarmed d) in
      let enabled = hal.isr_enable i d.ctx.irq_priority (hal.isr_set_callback i true h).1 in
      record {
        config = c;
        mode = ground arith;
        brs = refl;
        clock = refl;
        nominal = refl;
        data_rate = refl;
        sample = refl;
        timeout = (refl, refl);
        ram = (refl, refl);
        succeeds = ground (arith, can_hal_to_arm_error st);
        armed = ground (arith, can_hal_to_arm_error st, can_hal_to_arm_error enabled.0);
      }

  -- Powering up an initialised instance that is not powered either returns ARM_DRIVER_OK, and then
  -- the instance is powered, its context in normal mode (FD or classic by `fd_mode`), and the HAL was
  -- initialised in that mode with the settings of the context, its callback registered and interrupts
  -- enabled; or it returns an error, and then the instance is not powered and no callback is
  -- registered and no interrupt enabled. Either way the receive ring is empty.
  pub power_full_outcome :
      (d : Device State)
      → d.ctx.initialized ≡ true
      → d.ctx.powered ≡ false
      → let (rc, d') = can_power_control hal PowerState.full d in
        (contents d'.ctx.rx ≡ [])
        × ((rc ≡ Arm.driver_ok)
              × (d'.ctx.powered ≡ true)
              × (d'.ctx.mode ≡ can_normal_mode_for_ctx d.ctx)
              × (view_of hal life d' ≡ record { live = true; handler = true; armed = true })
              × IsBroughtUp d d'
            ⊎ (rc ≢ Arm.driver_ok)
              × (d'.ctx.powered ≡ false)
              × ((view_of hal life d').handler ≡ false)
              × ((view_of hal life d').armed ≡ false))
  power_full_outcome d init off =
      let (empty, ends) = power_full_view d init off in
      (
        empty,
        elim ends [
          | inl (rc, on, mode, view) ↦
              inl (rc, on, mode, view, power_full-IsBroughtUp d init off rc)
          | inr e ↦ inr e
        ],
      )

  -- Powering off a powered instance shuts the module down, with no callback and no interrupt left;
  -- the context differs in `powered` only.
  pub power_off-down :
      (d : Device State)
      → d.ctx.initialized ≡ true
      → d.ctx.powered ≡ true
      → let (rc, d') = can_power_control hal PowerState.off d in
        (rc ≡ Arm.driver_ok)
        × (d'.ctx ≡ (let ctx : Context = d.ctx in record ctx { powered = false }))
        × (view_of hal life d' ≡ down)
  unfolding can_power_control power_off
  power_off-down d init on =
      let i = d.ctx.hal_inst in
      let h1 = (hal.isr_disable i d.hal).1 in
      let h2 = (hal.isr_set_callback i false h1).1 in
      ground
        (arith, life.disable_view i d.hal, life.callback_view i false h1, life.deinit_view i h2)

  -- If an instance that works in a normal mode fails to change to a monitor or loopback mode, it is
  -- left with no callback and no interrupt, but powered and with its old mode on record, so that
  -- `CAN_SetMode` back to normal returns ARM_DRIVER_OK and does nothing.
  pub failed_set_mode_sticks :
      (m : ArmMode) (hal_mode : Mode) (d : Device State)
      → d.ctx.initialized ≡ true
      → d.ctx.powered ≡ true
      → d.ctx.mode ≡ can_normal_mode_for_ctx d.ctx
      → can_map_mode m ≡ some hal_mode
      → is_normal hal_mode ≡ false
      → (can_set_mode hal m d).0 ≢ Arm.driver_ok
      → let d' = (can_set_mode hal m d).1 in
        IsSilent hal life d d' × (can_set_mode hal ArmMode.normal d' ≡ (Arm.driver_ok, d'))
  unfolding can_set_mode change_mode can_normal_mode_for_ctx
  failed_set_mode_sticks m hal_mode d init on normal maps other fails =
      ground (arith, can_apply_init_outcome hal life hal_mode d)

module _ (hal : Hal) where
  open hal use {State}

  -- Initialising an instance again while it is powered, and then powering it off, returns
  -- ARM_DRIVER_OK both times and leaves the HAL as it was: the module stays initialised, with its
  -- callback registered and its interrupts enabled if they were.
  pub initialize_powered_leaks :
      (u o : Option ℕ) (d : Device State)
      → d.ctx.enabled ≡ true
      → d.ctx.powered ≡ true
      → let (rc, d1) = can_initialize hal u o d in
        let (rc', d2) = can_power_control hal PowerState.off d1 in
        (rc ≡ Arm.driver_ok) × (rc' ≡ Arm.driver_ok) × (d2.ctx.powered ≡ false) × (d2.hal ≡ d.hal)
  unfolding can_initialize can_power_control power_off
  initialize_powered_leaks u o d en on = ground arith
