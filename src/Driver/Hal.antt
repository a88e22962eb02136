-- ===== src/Driver/Hal.antt =====
-- The calls that cmsis_driver/Driver_CAN_dsPIC33AK.c makes of the HAL, as an interface: any state
-- with these operations can stand below the driver. A call may change the state in any way, so an
-- implementation may let the hardware run inside it.
pub mod Lifecycle
pub mod Real
pub use dspic33ak_can_cmsis_driv.Canfd.{is_ok}
use dspic33ak_can_cmsis_driv.Prelude.{ℕ, Bool}
use dspic33ak_can_cmsis_driv.Canfd.{Instance, Status, Config, Frame, BusStatus}

pub record Hal : Type 1 where
  pub State : Type 0
  pub init : Instance → Config → State → Status × State
  pub deinit : Instance → State → Status × State
  pub set_bitrate : Instance → ℕ → ℕ → ℕ → ℕ → State → Status × State
  pub transmit : Instance → Frame → State → Status × State
  pub rx_available : Instance → State → Bool × State
  pub receive : Instance → State → Status × Frame × State
  -- The only callback that the driver registers is `can_hal_event` with the instance's context:
  -- `true` stands for that pair, `false` for two NULL pointers.
  pub isr_set_callback : Instance → Bool → State → Status × State
  pub isr_enable : Instance → ℕ → State → Status × State
  pub isr_disable : Instance → State → Status × State
  pub tx_abort : Instance → State → Status × State
  pub get_status : Instance → State → Status × BusStatus × State
