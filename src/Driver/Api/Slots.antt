-- ===== src/Driver/Api/Slots.antt =====
-- The slots of the receive ring, which only the event handler writes.
use dspic33ak_can_cmsis_driv.Prelude.{ℕ, ◌≡◌, arith, Option, none, some, List}
use dspic33ak_can_cmsis_driv.Canfd.{Frame, Mode}
use dspic33ak_can_cmsis_driv.Arm.{PowerState, BitrateSelect, ArmMode, MsgInfo}
use dspic33ak_can_cmsis_driv.Driver.Hal.{Hal}
use dspic33ak_can_cmsis_driv.Driver.Ring.{pop}
use dspic33ak_can_cmsis_driv.Driver.Context.{Device, can_normal_mode_for_ctx}
use dspic33ak_can_cmsis_driv.Driver.Power.{
  can_apply_init, can_initialize, can_uninitialize, can_power_control, can_set_mode, can_control,
  power_full, power_off, change_mode, control_fd_mode, control_abort,
}
use dspic33ak_can_cmsis_driv.Driver.Bitrate.{can_set_bitrate, apply_bitrate}
use dspic33ak_can_cmsis_driv.Driver.Message.{can_message_send, can_message_read}
use dspic33ak_can_cmsis_driv.Driver.Status.{can_get_status}
use dspic33ak_can_cmsis_driv.Driver.Api.{Call, call}

module _ {S : Type 0} where
  abbrev pub slots : Device S → List Frame
  slots d = d.ctx.rx.rx_ring

module _ (hal : Hal) where
  open hal use {State}

  apply_init-slots : (m : Mode) (d : Device State) → slots (can_apply_init hal m d).1 ≡ slots d
  unfolding can_apply_init
  apply_init-slots m d = ground arith

  power_full-slots : (d : Device State) → slots (power_full hal d).1 ≡ slots d
  unfolding power_full can_apply_init
  power_full-slots d = ground arith

  power-slots : (p : PowerState) (d : Device State) → slots (can_power_control hal p d).1 ≡ slots d
  unfolding can_power_control power_off
  power-slots p d = ground (arith, power_full-slots d)

  uninitialize-slots : (d : Device State) → slots (can_uninitialize hal d).1 ≡ slots d
  unfolding can_uninitialize
  uninitialize-slots d = ground (arith, power-slots PowerState.off d)

  change_mode-slots : (m : Mode) (d : Device State) → slots (change_mode hal m d).1 ≡ slots d
  unfolding change_mode
  change_mode-slots m d = ground (arith, apply_init-slots m d)

  set_mode-slots : (m : ArmMode) (d : Device State) → slots (can_set_mode hal m d).1 ≡ slots d
  unfolding can_set_mode
  set_mode-slots ArmMode.normal d =
      ground (arith, change_mode-slots (can_normal_mode_for_ctx d.ctx) d)
  set_mode-slots ArmMode.monitor d = ground (arith, change_mode-slots Mode.listen_only d)
  set_mode-slots ArmMode.loopback_internal d =
      ground (arith, change_mode-slots Mode.internal_loopback d)
  set_mode-slots ArmMode.loopback_external d =
      ground (arith, change_mode-slots Mode.external_loopback d)
  set_mode-slots _ d = ground arith

  control-slots : (op arg : ℕ) (d : Device State) → slots (can_control hal op arg d).1 ≡ slots d
  unfolding can_control control_fd_mode control_abort can_apply_init
  control-slots op arg d = ground arith

  set_bitrate-slots :
      (select : BitrateSelect) (rate segments : ℕ) (d : Device State)
      → slots (can_set_bitrate hal select rate segments d).1 ≡ slots d
  unfolding can_set_bitrate apply_bitrate
  set_bitrate-slots select rate segments d = ground arith

  send-slots :
      (obj : ℕ) (info : Option MsgInfo) (bytes : Option (List ℕ)) (size : ℕ) (d : Device State)
      → slots (can_message_send hal obj info bytes size d).1 ≡ slots d
  unfolding can_message_send
  send-slots obj none bytes size d = ground arith
  send-slots obj (some info) bytes size d = ground arith

  read-slots :
      (obj : ℕ) (info : Option MsgInfo) (bytes : Option (List ℕ)) (size : ℕ) (d : Device State)
      → slots (can_message_read obj info bytes size d).dev ≡ slots d
  unfolding can_message_read pop
  read-slots obj info bytes size d = ground arith

  -- No call of the application writes a slot of the ring.
  pub call-slots : (c : Call) (d : Device State) → slots (call hal c d) ≡ slots d
  unfolding call can_initialize can_get_status
  call-slots (Call.initialize u o) d = ground arith
  call-slots Call.uninitialize d = uninitialize-slots d
  call-slots (Call.power_control p) d = power-slots p d
  call-slots (Call.set_bitrate select rate segments) d = set_bitrate-slots select rate segments d
  call-slots (Call.set_mode m) d = set_mode-slots m d
  call-slots (Call.message_send obj info bytes size) d = send-slots obj info bytes size d
  call-slots (Call.message_read obj info bytes size) d = read-slots obj info bytes size d
  call-slots (Call.control op arg) d = control-slots op arg d
  call-slots Call.get_status d = ground arith
