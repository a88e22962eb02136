-- ===== src/Driver/Object.antt =====
-- What the driver reports of itself and of its two objects: `CAN_GetVersion`,
-- `CAN_GetCapabilities`, `CAN_ObjectGetCapabilities`, `CAN_ObjectSetFilter` and
-- `CAN_ObjectConfigure` of cmsis_driver/Driver_CAN_dsPIC33AK.c.
use dspic33ak_can_cmsis_driv.Prelude.{ℕ, ℤ, not, ◌==◌, if◌then◌else◌, bit_or}
use dspic33ak_can_cmsis_driv.Prelude.Bits.{shl}
use dspic33ak_can_cmsis_driv.Arm
use dspic33ak_can_cmsis_driv.Arm.{ObjConfig, ObjCapabilities, Capabilities, Version}
use dspic33ak_can_cmsis_driv.Driver.Context.{Context}
use dspic33ak_can_cmsis_driv.Driver.Event.{obj_tx, obj_rx}

abbrev version_major_minor : ℕ → ℕ → ℕ
version_major_minor major minor = bit_or (shl major 8) minor

unfoldable pub can_get_version : Version
can_get_version = record { api = version_major_minor 1 3; drv = version_major_minor 0 1 }

unfoldable pub can_get_capabilities : Capabilities
can_get_capabilities = record {
  num_objects = 2;
  reentrant_operation = 0;
  fd_mode = 1;
  restricted_mode = 0;
  monitor_mode = 1;
  internal_loopback = 1;
  external_loopback = 1;
}

abbrev no_capabilities : ObjCapabilities
no_capabilities = record {
  tx = 0;
  rx = 0;
  rx_rtr_tx_data = 0;
  tx_rtr_rx_data = 0;
  multiple_filters = 0;
  exact_filtering = 0;
  range_filtering = 0;
  mask_filtering = 0;
  message_depth = 0;
}

unfoldable pub can_object_get_capabilities : Context → ℕ → ObjCapabilities
can_object_get_capabilities ctx obj_idx =
    if not ctx.enabled
    then no_capabilities
    else if obj_idx == obj_tx
    then record no_capabilities { tx = 1; message_depth = 4 }
    else if obj_idx == obj_rx
    then record no_capabilities { rx = 1; message_depth = 4 }
    else no_capabilities

-- The arguments are the object, the operation, the identifier and its argument.
unfoldable pub can_object_set_filter : ℕ → ℕ → ℕ → ℕ → ℤ
can_object_set_filter obj_idx operation id arg = Arm.driver_error_unsupported

unfoldable pub can_object_configure : ℕ → ObjConfig → ℤ
can_object_configure obj_idx ObjConfig.inactive = Arm.driver_ok
can_object_configure obj_idx ObjConfig.tx =
    if obj_idx == obj_tx then Arm.driver_ok else Arm.driver_error_unsupported
can_object_configure obj_idx ObjConfig.rx =
    if obj_idx == obj_rx then Arm.driver_ok else Arm.driver_error_unsupported
can_object_configure obj_idx _ = Arm.driver_error_unsupported
