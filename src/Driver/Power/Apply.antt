-- ===== src/Driver/Power/Apply.antt =====
-- What `can_apply_init`, and with it powering up and changing the mode, leaves of an instance.
use dspic33ak_can_cmsis_driv.Prelude.{◌≡◌, ◌≢◌, ◌⊎◌, arith}
use dspic33ak_can_cmsis_driv.Prelude.{true, false}
use dspic33ak_can_cmsis_driv.Canfd.{Status, Mode}
use dspic33ak_can_cmsis_driv.Arm
use dspic33ak_can_cmsis_driv.Driver.Hal.{Hal, is_ok}
use dspic33ak_can_cmsis_driv.Driver.Hal.Lifecycle.{View, IsLifecycle}
use dspic33ak_can_cmsis_driv.Driver.Context.{Context, Device, can_hal_to_arm}
use dspic33ak_can_cmsis_driv.Driver.Power.{can_apply_init, config_of}

-- Only the status OK of the HAL becomes ARM_DRIVER_OK.
pub can_hal_to_arm_error : (st : Status) → is_ok st ≡ false → can_hal_to_arm st ≢ Arm.driver_ok
unfolding can_hal_to_arm
can_hal_to_arm_error st e = ground arith

module _ (hal : Hal) (life : IsLifecycle hal) where
  open hal use {State}

  abbrev pub view_of : Device State → View
  view_of d = life.view d.ctx.hal_inst d.hal

  -- The instance works in a mode, with its interrupts enabled and its callback registered.
  abbrev pub IsUp : Mode → Device State → Device State → Type 0
  IsUp m d d' =
      (d'.ctx ≡ (let ctx : Context = d.ctx in record ctx { mode = m }))
      × (view_of d' ≡ record { live = true; handler = true; armed = true })

  -- The context is as before, no callback is registered and no interrupt is enabled.
  abbrev pub IsSilent : Device State → Device State → Type 0
  IsSilent d d' = (d'.ctx ≡ d.ctx) × ((view_of d').handler ≡ false) × ((view_of d').armed ≡ false)

  -- `can_apply_init` either returns ARM_DRIVER_OK, and then the module is initialised, its callback
  -- registered, its interrupts enabled, and the context differs by the mode only; or it returns an
  -- error, and then the context is unchanged, no callback is registered and no interrupt enabled.
  pub can_apply_init_outcome :
      (m : Mode) (d : Device State)
      → let (rc, d') = can_apply_init hal m d in
        ((rc ≡ Arm.driver_ok) × IsUp m d d') ⊎ ((rc ≢ Arm.driver_ok) × IsSilent d d')
  unfolding can_apply_init
  can_apply_init_outcome m d =
      let i = d.ctx.hal_inst in
      let h1 = (hal.isr_disable i d.hal).1 in
      let h2 = (hal.isr_set_callback i false h1).1 in
      let cfg = config_of d.ctx m in
      let h3 = (hal.init i cfg h2).1 in
      let h4 = (hal.isr_set_callback i true h3).1 in
      let h5 = (hal.isr_enable i d.ctx.irq_priority h4).1 in
      let h6 = (hal.isr_set_callback i false h5).1 in
      ground (
        arith,
        life.disable_view i d.hal,
        life.callback_view i false h1,
        life.init_ok i cfg h2,
        life.init_error i cfg h2,
        life.callback_view i true h3,
        life.enable_view i d.ctx.irq_priority h4,
        life.callback_view i false h5,
        life.deinit_view i h6,
        can_hal_to_arm_error (hal.init i cfg h2).0,
        can_hal_to_arm_error (hal.isr_enable i d.ctx.irq_priority h4).0,
      )
