-- ===== src/Canfd.antt =====
-- The types that the CAN FD HAL shares with its clients: src/hal_can/nora_canfd.h, nora_canfd_node.h
-- and nora_canfd_isr.h, and the length code of src/hal_can/nora_canfd_dspic33ak_reg.h.
-- A `uint32_t` or `uint8_t` is a native number; operations keep its wrap-around.
pub mod Registers
pub mod Dlc
pub mod Timing
pub mod Object
pub mod Chip
pub mod Node
pub mod Isr
pub mod Device
pub mod Tests
use dspic33ak_can_cmsis_driv.Prelude.{ℕ, Bool, true, false, List}

-- `nora_canfd_instance_t`; the count is not an instance.
pub data Instance : Type 0 where
  inst_1 inst_2 : Instance

-- `nora_canfd_status_t`
pub data Status : Type 0 where
  ok : Status
  err_invalid_arg err_not_present err_not_initialized err_busy err_timeout : Status
  err_bus err_no_message err_unsupported err_sequence : Status

-- `st == NORA_CANFD_OK`
abbrev pub is_ok : Status → Bool
is_ok Status.ok = true
is_ok _ = false

-- `nora_canfd_mode_t`
pub data Mode : Type 0 where
  none normal_fd normal_classic internal_loopback listen_only external_loopback : Mode

pub Mode-discrete : Discrete Mode
Mode-discrete = hlevel

-- `nora_canfd_config_t`. The message RAM is its address; of the tick function only whether the
-- pointer is not NULL.
pub record Config : Type 0 where
  pub can_clk_hz : ℕ
  pub nominal_bps : ℕ
  pub data_bps : ℕ
  pub sample_pct : ℕ
  pub brs : Bool
  pub mode : Mode
  pub timeout_ms : ℕ
  pub has_get_ms : Bool
  pub msg_ram : ℕ
  pub msg_ram_size : ℕ

-- `nora_canfd_frame_t`. The list holds the bytes of `data` below `len`; the C code neither writes
-- nor reads the array beyond them.
pub record Frame : Type 0 where
  pub id : ℕ
  pub extended : Bool
  pub fd : Bool
  pub brs : Bool
  pub len : ℕ
  pub bytes : List ℕ

-- `nora_canfd_bus_status_t`
pub record BusStatus : Type 0 where
  pub tx_err_count : ℕ
  pub rx_err_count : ℕ
  pub error_warning : Bool
  pub error_passive : Bool
  pub bus_off : Bool
  pub rx_overflow : Bool

-- NORA_CANFD_EVENT_*
abbrev pub event_tx_complete : ℕ
event_tx_complete = 1

abbrev pub event_rx_available : ℕ
event_rx_available = 2

abbrev pub event_bus_error : ℕ
event_bus_error = 4

abbrev pub event_bus_off : ℕ
event_bus_off = 8

abbrev pub event_rx_overflow : ℕ
event_rx_overflow = 16

abbrev pub event_invalid_msg : ℕ
event_invalid_msg = 32
