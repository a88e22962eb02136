-- ===== src/Driver/Hal/Real/TypedTests.antt =====
-- The driver over a chip that takes up every mode at once, and whose message RAM holds only ones.
use dspic33ak_can_cmsis_driv.Prelude.{
  ℕ, zero, suc, ◌+◌, ◌*◌, ◌/◌, ◌%◌, ◌^◌, ◌≡◌, refl, arith, pos, true, false, Option, none, some,
  List, [], ◌∷◌,
}
use dspic33ak_can_cmsis_driv.Prelude.{◌==◌, if◌then◌else◌, bit_and}
use dspic33ak_can_cmsis_driv.Canfd.{Instance, Mode}
use dspic33ak_can_cmsis_driv.Canfd.Chip.{Chip, Reg, reg_set, reg_clear, reg_write_field}
use dspic33ak_can_cmsis_driv.Canfd.Dlc.{dlc_to_len}
use dspic33ak_can_cmsis_driv.Canfd.Isr.{System}
use dspic33ak_can_cmsis_driv.Canfd.Node.{request_mode, poll, mode_to_reqop, wait_flag}
use dspic33ak_can_cmsis_driv.Canfd.Node.Bringup.{
  nora_canfd_init, is_bad_config, bring_up, in_configuration, entered, configure, write_timing,
}
use dspic33ak_can_cmsis_driv.Canfd.Node.Transfer.{
  nora_canfd_rx_available, nora_canfd_receive, fetch,
}
use dspic33ak_can_cmsis_driv.Canfd.Object.{parse_object}
use dspic33ak_can_cmsis_driv.Canfd.Object.Typed.{AreBytes}
use dspic33ak_can_cmsis_driv.Canfd.Timing.{
  nora_canfd_calc_bit_timing, solve_phase, solve_rounds, try_brp,
}
use dspic33ak_can_cmsis_driv.Canfd.Isr.{
  nora_canfd_isr_disable, irq_line_disable, set_line, nora_canfd_isr_set_callback,
  nora_canfd_isr_enable, enable_receive, irq_line_enable,
}
use dspic33ak_can_cmsis_driv.Arm.{PowerState, MsgInfo}
use dspic33ak_can_cmsis_driv.Driver.Ring.{put, pop}
use dspic33ak_can_cmsis_driv.Driver.Context.{
  Device, App, example_rte, initial_context, can_normal_mode_for_ctx,
}
use dspic33ak_can_cmsis_driv.Driver.Event.{can_hal_event, drain, on_rx_available}
use dspic33ak_can_cmsis_driv.Driver.Message.{can_message_read}
use dspic33ak_can_cmsis_driv.Driver.Message.InRange.{IsReport}
use dspic33ak_can_cmsis_driv.Driver.Power.{
  can_initialize, can_power_control, power_full, can_apply_init, config_of,
}
use dspic33ak_can_cmsis_driv.Driver.Api.{Call, call, calls, interrupt, here, next}
use dspic33ak_can_cmsis_driv.Driver.Api.Induction.{IsKept}
use dspic33ak_can_cmsis_driv.Driver.Api.Typed.{HoldsFrames}
use dspic33ak_can_cmsis_driv.Driver.Hal.Real.{HalState, Below, canfd}
use dspic33ak_can_cmsis_driv.Driver.Hal.Real.Guard.{at_start}
use dspic33ak_can_cmsis_driv.Driver.Hal.Real.Typed.{driver_reports_in_range}

-- The state: CxCON, and how many objects wait.
abbrev Cells : Type 0
Cells = ℕ × ℕ

abbrev con_after : ℕ → ℕ
con_after v = v % 2 ^ 21 + v / 2 ^ 24 % 8 * 2 ^ 21 + v / 2 ^ 24 * 2 ^ 24

abbrev read_cells : Reg → Cells → ℕ
read_cells Reg.con s = s.0
read_cells Reg.fifosta1 s = if s.1 == 0 then 0 else 1
read_cells _ s = 0

abbrev one_less : ℕ → ℕ
one_less zero = zero
one_less (suc n) = n

abbrev write_cells : Reg → ℕ → Cells → Cells
write_cells Reg.con v s = (con_after v, s.1)
write_cells Reg.fifocon1 v s = if bit_and v (2 ^ 8) == 0 then s else (s.0, one_less s.1)
write_cells _ v s = s

abbrev ones : Chip
ones = record {
  State = Cells;
  present = λ i. true;
  read = λ i r s. (read_cells r s, s);
  write = λ i r v s. write_cells r v s;
  load = λ a s. (0xffff_ffff, s);
  store = λ a v s. s;
  now = λ s. (0, s);
}

abbrev below : Below
below = record { chip = ones; has_line = λ i l. true; fuel = 3; handler = 1; context = λ i. 1 }

abbrev at_reset : System Cells
at_reset = record {
  node = record {
    chip = (0, 1);
    g_node = λ i. record { initialized = false; has_get_ms = false; timeout_ms = 0 };
    g_mode = λ i. Mode.none;
  };
  isr = record {
    g_cb = λ i. none;
    g_ud = λ i. 0;
    g_tx_busy = λ i. false;
    g_irq_priority = λ i. 0;
    g_isr_enabled = λ i. false;
    lines = λ i l. record { flag = false; priority = 4; enabled = false };
  };
}

abbrev silent : App (HalState Cells)
silent = record { unit_event = λ f e d. d; object_event = λ f o e d. d }

silent-IsKept : IsKept (canfd below) HoldsFrames silent
silent-IsKept = record { unit_event = λ f e d h. h; object_event = λ f o e d h. h }

abbrev begin : Device (HalState Cells)
begin = at_start below Instance.inst_1 4096 (example_rte true) at_reset

abbrev powered : Device (HalState Cells)
powered =
    call (canfd below) (Call.power_control PowerState.full)
      (call (canfd below) (Call.initialize none none) begin)

abbrev or_begin : Option (Device (HalState Cells)) → Device (HalState Cells)
or_begin none = begin
or_begin (some d) = d

-- One object of ones has been received.
abbrev received : Device (HalState Cells)
received = or_begin (can_hal_event (canfd below) silent 3 2 powered)

abbrev old : MsgInfo
old = record { id = 0; rtr = 0; edl = 0; brs = 0; esi = 0; dlc = 0 }

abbrev buffer : List ℕ
buffer = 0 ∷ 0 ∷ []

buffer-AreBytes : AreBytes buffer
buffer-AreBytes zero = omega arith
buffer-AreBytes (suc zero) = omega arith
buffer-AreBytes (suc (suc i)) = omega arith

-- The interrupt ends, and a read of two bytes counts them.
event_and_read :
    (can_hal_event (canfd below) silent 3 2 powered ≡ some received)
    × ((can_message_read 1 (some old) (some buffer) 2 received).rc ≡ pos 2)
unfolding call can_initialize can_power_control power_full can_apply_init initial_context config_of
    can_normal_mode_for_ctx nora_canfd_isr_disable irq_line_disable set_line
    nora_canfd_isr_set_callback nora_canfd_init is_bad_config nora_canfd_calc_bit_timing solve_phase
    solve_rounds try_brp bring_up in_configuration entered configure write_timing reg_set reg_clear
    reg_write_field request_mode poll mode_to_reqop nora_canfd_isr_enable enable_receive
    irq_line_enable can_hal_event nora_canfd_rx_available nora_canfd_receive can_message_read drain
    on_rx_available fetch pop put wait_flag dlc_to_len parse_object
event_and_read = (refl, refl)

driver_reports_in_range_example :
    IsReport 2 buffer 2 (can_message_read 1 (some old) (some buffer) 2 received)
driver_reports_in_range_example =
    driver_reports_in_range below Instance.inst_1 4096 (example_rte true) at_reset silent received 1
      old buffer 2 2 silent-IsKept
      (next
        (next (next here (calls (Call.initialize none none)))
          (calls (Call.power_control PowerState.full)))
        (interrupt 3 2 event_and_read.0))
      buffer-AreBytes (omega arith) event_and_read.1
