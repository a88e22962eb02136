-- ===== src/Driver/Api.antt =====
-- The access structures `Driver_CAN1` and `Driver_CAN2` of cmsis_driver/Driver_CAN_dsPIC33AK.c: the
-- calls that an application can make of an instance, and the interrupts that come in between.
-- Calls that only report, and change nothing, are left to `Driver.Object`.
pub mod Invariant
pub mod Induction
pub mod Interrupts
pub mod Slots
pub mod Typed
use dspic33ak_can_cmsis_driv.Prelude.{ℕ, ◌≡◌, Option, some, List}
use dspic33ak_can_cmsis_driv.Arm.{PowerState, BitrateSelect, ArmMode, MsgInfo}
use dspic33ak_can_cmsis_driv.Driver.Hal.{Hal}
use dspic33ak_can_cmsis_driv.Driver.Context.{Device, App}
use dspic33ak_can_cmsis_driv.Driver.Event.{can_hal_event}
use dspic33ak_can_cmsis_driv.Driver.Power.{can_initialize, can_uninitialize, can_power_control}
use dspic33ak_can_cmsis_driv.Driver.Power.{can_set_mode, can_control}
use dspic33ak_can_cmsis_driv.Driver.Bitrate.{can_set_bitrate}
use dspic33ak_can_cmsis_driv.Driver.Message.{can_message_send, can_message_read}
use dspic33ak_can_cmsis_driv.Driver.Status.{can_get_status}

pub data Call : Type 0 where
  initialize : Option ℕ → Option ℕ → Call
  uninitialize : Call
  power_control : PowerState → Call
  set_bitrate : BitrateSelect → ℕ → ℕ → Call
  set_mode : ArmMode → Call
  message_send : ℕ → Option MsgInfo → Option (List ℕ) → ℕ → Call
  message_read : ℕ → Option MsgInfo → Option (List ℕ) → ℕ → Call
  control : ℕ → ℕ → Call
  get_status : Call

module _ (hal : Hal) where
  open hal use {State}

  -- The state that a call leaves.
  unfoldable pub call : Call → Device State → Device State
  call (initialize u o) d = (can_initialize hal u o d).1
  call uninitialize d = (can_uninitialize hal d).1
  call (power_control state) d = (can_power_control hal state d).1
  call (set_bitrate select rate segments) d = (can_set_bitrate hal select rate segments d).1
  call (set_mode mode) d = (can_set_mode hal mode d).1
  call (message_send obj info bytes size) d = (can_message_send hal obj info bytes size d).1
  call (message_read obj info bytes size) d = (can_message_read obj info bytes size d).dev
  call (control op arg) d = (can_control hal op arg d).1
  call get_status d = (can_get_status hal d).1

  -- Calls of the application and interrupts of the HAL, in any order.
  pub data Step (app : App State) (d : Device State) : Device State → Type 0 where
    calls : (c : Call) → Step app d (call c d)
    interrupt :
        (fuel events : ℕ) {d' : Device State}
        → can_hal_event hal app fuel events d ≡ some d'
        → Step app d d'

  pub data Reach (app : App State) (d : Device State) : Device State → Type 0 where
    here : Reach app d d
    next : {t u : Device State} → Reach app d t → Step app t u → Reach app d u
