-- ===== src/Arm.antt =====
-- What the driver uses of the ARM CMSIS-Driver headers, third_party/arm_cmsis_driver/Include:
-- return codes, enumerations and the message and status structures. An enumeration of C can hold
-- any number of its integer type, which a `default` label takes: the constructor `other`.
use dspic33ak_can_cmsis_driv.Prelude.{ℕ, ℤ, pos, negsuc}

abbrev pub driver_ok : ℤ
driver_ok = pos 0

abbrev pub driver_error : ℤ
driver_error = negsuc 0

abbrev pub driver_error_busy : ℤ
driver_error_busy = negsuc 1

abbrev pub driver_error_timeout : ℤ
driver_error_timeout = negsuc 2

abbrev pub driver_error_unsupported : ℤ
driver_error_unsupported = negsuc 3

abbrev pub driver_error_parameter : ℤ
driver_error_parameter = negsuc 4

pub data PowerState : Type 0 where
  off low full : PowerState
  other : ℕ → PowerState

pub data BitrateSelect : Type 0 where
  nominal fd_data : BitrateSelect
  other : ℕ → BitrateSelect

pub data ArmMode : Type 0 where
  initialization normal restricted monitor loopback_internal loopback_external : ArmMode
  other : ℕ → ArmMode

pub data ObjConfig : Type 0 where
  inactive tx rx rx_rtr_tx_data tx_rtr_rx_data : ObjConfig
  other : ℕ → ObjConfig

-- The bit-fields of one bit are kept as numbers, as the code writes and tests them.
pub record MsgInfo : Type 0 where
  pub id : ℕ
  pub rtr : ℕ
  pub edl : ℕ
  pub brs : ℕ
  pub esi : ℕ
  pub dlc : ℕ

pub record ObjCapabilities : Type 0 where
  pub tx : ℕ
  pub rx : ℕ
  pub rx_rtr_tx_data : ℕ
  pub tx_rtr_rx_data : ℕ
  pub multiple_filters : ℕ
  pub exact_filtering : ℕ
  pub range_filtering : ℕ
  pub mask_filtering : ℕ
  pub message_depth : ℕ

pub record ArmStatus : Type 0 where
  pub unit_state : ℕ
  pub last_error_code : ℕ
  pub tx_error_count : ℕ
  pub rx_error_count : ℕ

pub record Capabilities : Type 0 where
  pub num_objects : ℕ
  pub reentrant_operation : ℕ
  pub fd_mode : ℕ
  pub restricted_mode : ℕ
  pub monitor_mode : ℕ
  pub internal_loopback : ℕ
  pub external_loopback : ℕ

pub record Version : Type 0 where
  pub api : ℕ
  pub drv : ℕ

abbrev pub unit_state_inactive : ℕ
unit_state_inactive = 0

abbrev pub unit_state_active : ℕ
unit_state_active = 1

abbrev pub unit_state_passive : ℕ
unit_state_passive = 2

abbrev pub unit_state_bus_off : ℕ
unit_state_bus_off = 3

abbrev pub event_unit_bus_off : ℕ
event_unit_bus_off = 4

abbrev pub event_receive : ℕ
event_receive = 2

abbrev pub event_receive_overrun : ℕ
event_receive_overrun = 3

abbrev pub id_ide_msk : ℕ
id_ide_msk = 0x8000_0000

abbrev pub set_fd_mode : ℕ
set_fd_mode = 1

abbrev pub abort_message_send : ℕ
abort_message_send = 2

abbrev pub control_retransmission : ℕ
control_retransmission = 3

abbrev pub set_transceiver_delay : ℕ
set_transceiver_delay = 4
