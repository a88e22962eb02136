-- ===== src/Driver/Context.antt =====
-- The state of cmsis_driver/Driver_CAN_dsPIC33AK.c and its helpers.
use dspic33ak_can_cmsis_driv.Prelude.{ℕ, ℤ, ◌+◌, ◌*◌, ◌/◌, Bool, false, not, Option, none}
use dspic33ak_can_cmsis_driv.Prelude.{some, replicate, ◌==◌, if◌then◌else◌}
use dspic33ak_can_cmsis_driv.Canfd.{Instance, Status, Mode}
use dspic33ak_can_cmsis_driv.Arm
use dspic33ak_can_cmsis_driv.Arm.{ArmMode}
use dspic33ak_can_cmsis_driv.Driver.Ring.{Ring, ring_len, zero_frame}

-- `can_cmsis_context_t`. A callback pointer is its address, `none` for NULL; the flags that the
-- code sets to 0 and 1 and tests for truth are Booleans; the ring fields are a record of their own.
pub record Context : Type 0 where
  pub hal_inst : Instance
  pub msg_ram : ℕ
  pub msg_ram_size : ℕ
  pub cb_unit : Option ℕ
  pub cb_object : Option ℕ
  pub can_clk_hz : ℕ
  pub nominal_bps : ℕ
  pub data_bps : ℕ
  pub sample_pct : ℕ
  pub fd_mode : ℕ
  pub irq_priority : ℕ
  pub timeout_ms : ℕ
  pub enabled : Bool
  pub initialized : Bool
  pub powered : Bool
  pub mode : Mode
  pub rx : Ring

-- `CAN_MSG_RAM_BYTES`, and `sizeof` the array of `CAN_MSG_RAM_WORDS` words.
abbrev pub msg_ram_bytes : ℕ
msg_ram_bytes = 576

abbrev pub msg_ram_sizeof : ℕ
msg_ram_sizeof = (msg_ram_bytes + 3) / 4 * 4

-- The RTE_CANx macros of an instance.
pub record Rte : Type 0 where
  pub enable : Bool
  pub clk_hz : ℕ
  pub nominal_bps : ℕ
  pub data_bps : ℕ
  pub sample_pct : ℕ
  pub fd_mode : ℕ
  pub irq_priority : ℕ
  pub timeout_ms : ℕ

-- An element of the initialiser of `g_can_ctx`; the ring fields, which it leaves out, are zero.
unfoldable pub initial_context : Instance → ℕ → Rte → Context
initial_context inst ram rte = record {
  hal_inst = inst;
  msg_ram = ram;
  msg_ram_size = msg_ram_sizeof;
  cb_unit = none;
  cb_object = none;
  can_clk_hz = rte.clk_hz;
  nominal_bps = rte.nominal_bps;
  data_bps = rte.data_bps;
  sample_pct = rte.sample_pct;
  fd_mode = rte.fd_mode;
  irq_priority = rte.irq_priority;
  timeout_ms = rte.timeout_ms;
  enabled = rte.enable;
  initialized = false;
  powered = false;
  mode = Mode.normal_fd;
  rx = record { rx_ring = replicate ring_len zero_frame; rx_head = 0; rx_tail = 0 };
}

-- RTE_Device_CAN_dsPIC33AK_example.h, for CAN1 and CAN2.
abbrev pub example_rte : Bool → Rte
example_rte enable = record {
  enable = enable;
  clk_hz = 20000000;
  nominal_bps = 500000;
  data_bps = 2000000;
  sample_pct = 80;
  fd_mode = 1;
  irq_priority = 4;
  timeout_ms = 10;
}

-- An instance: its context and the state of the HAL (of both instances, and of all else below).
pub record Device (S : Type 0) : Type 0 where
  pub ctx : Context
  pub hal : S

-- The callbacks of the application: what a call of the function at an address does, given the
-- event (and the object index) that it is passed. It may call the driver again.
pub record App (S : Type 0) : Type 0 where
  pub unit_event : ℕ → ℕ → Device S → Device S
  pub object_event : ℕ → ℕ → ℕ → Device S → Device S

unfoldable pub can_hal_to_arm : Status → ℤ
can_hal_to_arm Status.ok = Arm.driver_ok
can_hal_to_arm Status.err_invalid_arg = Arm.driver_error_parameter
can_hal_to_arm Status.err_busy = Arm.driver_error_busy
can_hal_to_arm Status.err_unsupported = Arm.driver_error_unsupported
can_hal_to_arm Status.err_not_initialized = Arm.driver_error
can_hal_to_arm Status.err_timeout = Arm.driver_error_timeout
can_hal_to_arm _ = Arm.driver_error

-- `none` where the C function returns false.
unfoldable pub can_map_mode : ArmMode → Option Mode
can_map_mode ArmMode.normal = some Mode.normal_fd
can_map_mode ArmMode.monitor = some Mode.listen_only
can_map_mode ArmMode.loopback_internal = some Mode.internal_loopback
can_map_mode ArmMode.loopback_external = some Mode.external_loopback
can_map_mode _ = none

unfoldable pub can_normal_mode_for_ctx : Context → Mode
can_normal_mode_for_ctx ctx = if not (ctx.fd_mode == 0) then Mode.normal_fd else Mode.normal_classic
