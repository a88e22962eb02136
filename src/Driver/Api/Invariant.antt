-- ===== src/Driver/Api/Invariant.antt =====
-- What holds of an instance in every state that calls and interrupts reach.
use dspic33ak_can_cmsis_driv.Prelude.{ℕ, ◌≡◌, ◌⊎◌, refl, arith, true, false, Option, none, some}
use dspic33ak_can_cmsis_driv.Driver.Hal.{Hal}
use dspic33ak_can_cmsis_driv.Driver.Hal.Lifecycle.{View, IsLifecycle}
use dspic33ak_can_cmsis_driv.Driver.Ring.{Ring}
use dspic33ak_can_cmsis_driv.Driver.Ring.Refine.{IsRing, pop_refines}
use dspic33ak_can_cmsis_driv.Driver.Context.{Context, Device, can_normal_mode_for_ctx}
use dspic33ak_can_cmsis_driv.Prelude.{List, not, ◌==◌, inl, if◌then◌else◌}
use dspic33ak_can_cmsis_driv.Canfd.{Mode, Instance}
use dspic33ak_can_cmsis_driv.Driver.Context.{Rte, initial_context}
use dspic33ak_can_cmsis_driv.Arm.{PowerState, BitrateSelect, ArmMode, MsgInfo}
use dspic33ak_can_cmsis_driv.Driver.Power.{can_apply_init, can_initialize, can_uninitialize}
use dspic33ak_can_cmsis_driv.Driver.Power.{can_power_control, can_set_mode, can_control}
use dspic33ak_can_cmsis_driv.Driver.Power.{
  power_full, power_off, change_mode, control_fd_mode, control_abort, is_normal,
}
use dspic33ak_can_cmsis_driv.Driver.Bitrate.{can_set_bitrate, apply_bitrate, derive_sample_pct}
use dspic33ak_can_cmsis_driv.Driver.Message.{can_message_send, can_message_read, frame_of, bytes_of}
use dspic33ak_can_cmsis_driv.Driver.Status.{can_get_status}
use dspic33ak_can_cmsis_driv.Driver.Power.Apply.{view_of, can_apply_init_outcome}
use dspic33ak_can_cmsis_driv.Driver.Api.{Call, call}

-- The flags of the context are in order, and the ring is well formed.
pub record IsSoundContext (c : Context) : Type 0 where
  pub powered_initialized : (c.powered ≡ false) ⊎ (c.initialized ≡ true)
  pub initialized_enabled : (c.initialized ≡ false) ⊎ (c.enabled ≡ true)
  pub ring : IsRing c.rx

-- Interrupts are enabled only with a callback registered and the module initialised.
abbrev pub IsGuarded : View → Type 0
IsGuarded v = (v.armed ≡ false) ⊎ (v.handler ≡ true) × (v.live ≡ true)

module _ (hal : Hal) (life : IsLifecycle hal) where
  open hal use {State}

  pub record IsSound (d : Device State) : Type 0 where
    pub ctx : IsSoundContext d.ctx
    pub guarded : IsGuarded (view_of hal life d)

  initialize-IsSound :
      (u o : Option ℕ) (d : Device State) → IsSound d → IsSound (can_initialize hal u o d).1
  unfolding can_initialize
  initialize-IsSound u o d s = ground arith

  -- `can_apply_init` neither needs nor changes the flags.
  apply_init-IsSound :
      (m : Mode) (d : Device State) → IsSoundContext d.ctx → IsSound (can_apply_init hal m d).1
  apply_init-IsSound m d s = ground (arith, can_apply_init_outcome hal life m d)

  power_full-IsSound :
      (d : Device State) → d.ctx.initialized ≡ true → IsSound d → IsSound (power_full hal d).1
  unfolding power_full
  power_full-IsSound d init s =
      let ctx : Context = d.ctx in
      let rx : Ring = ctx.rx in
      let d0 = record d { ctx = record ctx { rx = record rx { rx_head = 0; rx_tail = 0 } } } in
      ground (arith, can_apply_init_outcome hal life (can_normal_mode_for_ctx d0.ctx) d0)

  power_off-IsSound : (d : Device State) → IsSound d → IsSound (power_off hal d).1
  unfolding power_off
  power_off-IsSound d s =
      let i = d.ctx.hal_inst in
      let h1 = (hal.isr_disable i d.hal).1 in
      let h2 = (hal.isr_set_callback i false h1).1 in
      ground
        (arith, life.disable_view i d.hal, life.callback_view i false h1, life.deinit_view i h2)

  power-IsSound :
      (state : PowerState) (d : Device State)
      → IsSound d
      → IsSound (can_power_control hal state d).1
  unfolding can_power_control
  power-IsSound state d s = ground (arith, power_full-IsSound d, power_off-IsSound d s)

  powered-power_off :
      (d : Device State)
      → d.ctx.initialized ≡ true
      → (can_power_control hal PowerState.off d).1.ctx.powered ≡ false
  unfolding can_power_control power_off
  powered-power_off d init = ground arith

  uninitialize-IsSound : (d : Device State) → IsSound d → IsSound (can_uninitialize hal d).1
  unfolding can_uninitialize
  uninitialize-IsSound d s = ground (arith, power-IsSound PowerState.off d s, powered-power_off d)

  change_mode-IsSound : (m : Mode) (d : Device State) → IsSound d → IsSound (change_mode hal m d).1
  unfolding change_mode
  change_mode-IsSound m d s = ground (arith, apply_init-IsSound m d s.ctx)

  set_mode-IsSound : (m : ArmMode) (d : Device State) → IsSound d → IsSound (can_set_mode hal m d).1
  unfolding can_set_mode
  set_mode-IsSound ArmMode.normal d s =
      ground (arith, change_mode-IsSound (can_normal_mode_for_ctx d.ctx) d s)
  set_mode-IsSound ArmMode.monitor d s = ground (arith, change_mode-IsSound Mode.listen_only d s)
  set_mode-IsSound ArmMode.loopback_internal d s =
      ground (arith, change_mode-IsSound Mode.internal_loopback d s)
  set_mode-IsSound ArmMode.loopback_external d s =
      ground (arith, change_mode-IsSound Mode.external_loopback d s)
  set_mode-IsSound _ d s = ground arith

  control_fd_mode-IsSound :
      (arg : ℕ) (d : Device State) → IsSound d → IsSound (control_fd_mode hal arg d).1
  unfolding control_fd_mode
  control_fd_mode-IsSound arg d s =
      let ctx : Context = d.ctx in
      let ctx' = record ctx { fd_mode = if not (arg == 0) then 1 else 0 } in
      let m = if is_normal ctx.mode then can_normal_mode_for_ctx ctx' else ctx.mode in
      ground (arith, apply_init-IsSound m (record d { ctx = ctx' }))

  control_abort-IsSound :
      (arg : ℕ) (d : Device State) → IsSound d → IsSound (control_abort hal arg d).1
  unfolding control_abort
  control_abort-IsSound arg d s = ground (arith, life.abort_view d.ctx.hal_inst d.hal)

  control-IsSound :
      (op arg : ℕ) (d : Device State) → IsSound d → IsSound (can_control hal op arg d).1
  unfolding can_control
  control-IsSound op arg d s =
      ground (arith, control_fd_mode-IsSound arg d s, control_abort-IsSound arg d s)

  apply_bitrate-IsSound : (d : Device State) → IsSound d → IsSound (apply_bitrate hal d).1
  unfolding apply_bitrate
  apply_bitrate-IsSound d s = ground (
    arith,
    life.set_bitrate_view d.ctx.hal_inst d.ctx.can_clk_hz d.ctx.nominal_bps d.ctx.data_bps
        d.ctx.sample_pct d.hal,
  )

  set_bitrate-IsSound :
      (select : BitrateSelect) (rate segments : ℕ) (d : Device State)
      → IsSound d
      → IsSound (can_set_bitrate hal select rate segments d).1
  unfolding can_set_bitrate
  set_bitrate-IsSound select rate segments d s =
      let old : Context = d.ctx in
      let sample = derive_sample_pct segments old.sample_pct in
      let nominal = record old { sample_pct = sample; nominal_bps = rate } in
      let data_phase = record old { sample_pct = sample; data_bps = rate } in
      ground (
        arith,
        apply_bitrate-IsSound (record d { ctx = nominal }),
        apply_bitrate-IsSound (record d { ctx = data_phase }),
      )

  send-IsSound :
      (obj : ℕ) (info : Option MsgInfo) (bytes : Option (List ℕ)) (size : ℕ) (d : Device State)
      → IsSound d
      → IsSound (can_message_send hal obj info bytes size d).1
  unfolding can_message_send
  send-IsSound obj none bytes size d s = ground arith
  send-IsSound obj (some info) bytes size d s =
      ground (arith, life.transmit_view d.ctx.hal_inst (frame_of info (bytes_of bytes) size) d.hal)

  read-IsSound :
      (obj : ℕ) (info : Option MsgInfo) (bytes : Option (List ℕ)) (size : ℕ) (d : Device State)
      → IsSound d
      → IsSound (can_message_read obj info bytes size d).dev
  unfolding can_message_read
  read-IsSound obj info bytes size d s = ground (arith, (pop_refines d.ctx.rx s.ctx.ring).1)

  status-IsSound : (d : Device State) → IsSound d → IsSound (can_get_status hal d).1
  unfolding can_get_status
  status-IsSound d s = ground (arith, life.status_view d.ctx.hal_inst d.hal)

  -- Every call of the application keeps an instance sound.
  pub call-IsSound : (c : Call) (d : Device State) → IsSound d → IsSound (call hal c d)
  unfolding call
  call-IsSound (Call.initialize u o) d s = initialize-IsSound u o d s
  call-IsSound Call.uninitialize d s = uninitialize-IsSound d s
  call-IsSound (Call.power_control state) d s = power-IsSound state d s
  call-IsSound (Call.set_bitrate select rate segments) d s =
      set_bitrate-IsSound select rate segments d s
  call-IsSound (Call.set_mode m) d s = set_mode-IsSound m d s
  call-IsSound (Call.message_send obj info bytes size) d s = send-IsSound obj info bytes size d s
  call-IsSound (Call.message_read obj info bytes size) d s = read-IsSound obj info bytes size d s
  call-IsSound (Call.control op arg) d s = control-IsSound op arg d s
  call-IsSound Call.get_status d s = status-IsSound d s

  -- An instance starts sound, with any RTE macros, where the module's interrupts are off.
  pub initial-IsSound :
      (inst : Instance) (ram : ℕ) (rte : Rte) (h : State)
      → (life.view inst h).armed ≡ false
      → IsSound (record { ctx = initial_context inst ram rte; hal = h })
  unfolding initial_context
  initial-IsSound inst ram rte h off = record {
    ctx = record {
      powered_initialized = inl refl;
      initialized_enabled = inl refl;
      ring = record { slots = refl; head_in = omega arith; tail_in = omega arith };
    };
    guarded = inl off;
  }
