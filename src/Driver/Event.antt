-- ===== src/Driver/Event.antt =====
-- `can_hal_event` of cmsis_driver/Driver_CAN_dsPIC33AK.c: the callback that the HAL calls from the
-- CAN interrupt. It drains the receive FIFO into the ring and signals the application.
pub mod Drain
pub mod Signals
use dspic33ak_can_cmsis_driv.Prelude.{ℕ, zero, suc, Bool, false, not, ◌||◌, Option}
use dspic33ak_can_cmsis_driv.Prelude.{none, some, ◌==◌, if◌then◌else◌, bit_and}
use dspic33ak_can_cmsis_driv.Arm
pub use dspic33ak_can_cmsis_driv.Canfd.{event_rx_available, event_bus_off, event_rx_overflow}
use dspic33ak_can_cmsis_driv.Driver.Hal.{Hal, is_ok}
use dspic33ak_can_cmsis_driv.Driver.Ring.{put}
use dspic33ak_can_cmsis_driv.Driver.Context.{Context, Device, App}

abbrev pub obj_tx : ℕ
obj_tx = 0

abbrev pub obj_rx : ℕ
obj_rx = 1

-- `(events & bit) != 0u`
abbrev pub has_event : ℕ → ℕ → Bool
has_event events bit = not (bit_and events bit == 0)

-- What the drain loop leaves: the instance, and the flags `received` and `dropped`.
pub record Drained (S : Type 0) : Type 0 where
  pub dev : Device S
  pub received : Bool
  pub dropped : Bool

module _ (hal : Hal) where
  open hal use {State, rx_available, receive}

  -- The rounds left are fuel, `none` if it runs out: `Event.Drain` shows how much is enough.
  unfoldable pub drain : ℕ → Drained State → Option (Drained State)
  drain zero s = none
  drain (suc fuel) s =
      let inst = s.dev.ctx.hal_inst in
      let (available, h) = rx_available inst s.dev.hal in
      let (st, f, h') = receive inst h in
      let (stored, ring) = put f s.dev.ctx.rx in
      let ctx : Context = s.dev.ctx in
      let after : Device State = record { ctx = record ctx { rx = ring }; hal = h' } in
      let rest = drain fuel (record {
        dev = after;
        received = s.received || stored;
        dropped = s.dropped || not stored;
      }) in
      if available
      then if is_ok st then rest else some (record s { dev = record { ctx = ctx; hal = h' } })
      else some (record s { dev = record { ctx = ctx; hal = h } })

  module _ (app : App State) where
    -- `if (flag && (ctx->cb_object != NULL)) ctx->cb_object(CAN_OBJ_RX, event);`
    abbrev pub signal_object : Bool → ℕ → Device State → Device State
    signal_object flag event d =
        if flag
        then elim d.ctx.cb_object [ none ↦ d | some f ↦ app.object_event f obj_rx event d ]
        else d

    abbrev pub signal_unit : Bool → ℕ → Device State → Device State
    signal_unit flag event d =
        if flag then elim d.ctx.cb_unit [ none ↦ d | some f ↦ app.unit_event f event d ] else d

    -- The first `if` of the handler.
    unfoldable pub on_rx_available : ℕ → ℕ → Device State → Option (Device State)
    on_rx_available fuel events d =
        if has_event events event_rx_available
        then elim (drain fuel (record { dev = d; received = false; dropped = false })) [
          | none ↦ none
          | some s ↦ some (
              signal_object s.dropped Arm.event_receive_overrun
                (signal_object s.received Arm.event_receive s.dev))
        ]
        else some d

    -- The two others.
    unfoldable pub on_overflow_and_bus_off : ℕ → Device State → Device State
    on_overflow_and_bus_off events d =
        signal_unit (has_event events event_bus_off) Arm.event_unit_bus_off
          (signal_object (has_event events event_rx_overflow) Arm.event_receive_overrun d)

    -- `user_data` is the context of the instance, never NULL, since `can_apply_init` registers it.
    unfoldable pub can_hal_event : ℕ → ℕ → Device State → Option (Device State)
    unfolding on_rx_available on_overflow_and_bus_off
    can_hal_event fuel events d = elim (on_rx_available fuel events d) [
      | none ↦ none
      | some d' ↦ some (on_overflow_and_bus_off events d')
    ]
