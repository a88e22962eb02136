-- ===== src/Driver/Hal/Real/Tests.antt =====
-- The driver over the HAL over a chip that takes up every mode at once.
use dspic33ak_can_cmsis_driv.Prelude.{ℕ, ◌+◌, ◌*◌, ◌/◌, ◌%◌, ◌^◌, ◌≡◌, refl, true, false, not, none}
use dspic33ak_can_cmsis_driv.Canfd.{Instance, Mode}
use dspic33ak_can_cmsis_driv.Canfd.Chip.{Chip, Reg, reg_set, reg_clear, reg_write_field}
use dspic33ak_can_cmsis_driv.Canfd.Node.{is_none_mode}
use dspic33ak_can_cmsis_driv.Canfd.Isr.{System}
use dspic33ak_can_cmsis_driv.Arm.{PowerState}
use dspic33ak_can_cmsis_driv.Driver.Hal.Lifecycle.{IsLifecycle}
use dspic33ak_can_cmsis_driv.Driver.Hal.Real.{HalState, running, stopped, Below, canfd, is_given}
use dspic33ak_can_cmsis_driv.Driver.Hal.Real.Life.{canfd_life, canfd-IsLifecycle}
use dspic33ak_can_cmsis_driv.Driver.Hal.Real.Guard.{at_start, driver_guards}
use dspic33ak_can_cmsis_driv.Driver.Context.{Device, App, example_rte, initial_context}
use dspic33ak_can_cmsis_driv.Driver.Context.{can_normal_mode_for_ctx}
use dspic33ak_can_cmsis_driv.Driver.Power.{can_initialize, can_power_control, power_full}
use dspic33ak_can_cmsis_driv.Driver.Power.{can_apply_init, config_of}
use dspic33ak_can_cmsis_driv.Canfd.Isr.{nora_canfd_isr_disable, irq_line_disable, set_line}
use dspic33ak_can_cmsis_driv.Canfd.Isr.{nora_canfd_isr_set_callback, nora_canfd_isr_enable}
use dspic33ak_can_cmsis_driv.Canfd.Isr.{enable_receive, irq_line_enable}
use dspic33ak_can_cmsis_driv.Canfd.Node.Bringup.{nora_canfd_init, is_bad_config, bring_up}
use dspic33ak_can_cmsis_driv.Canfd.Node.Bringup.{in_configuration, entered, configure, write_timing}
use dspic33ak_can_cmsis_driv.Canfd.Node.{request_mode, poll, mode_to_reqop}
use dspic33ak_can_cmsis_driv.Canfd.Timing.{nora_canfd_calc_bit_timing, solve_phase, solve_rounds}
use dspic33ak_can_cmsis_driv.Canfd.Timing.{try_brp}
use dspic33ak_can_cmsis_driv.Driver.Api.{Call, call, calls, here, next}
use dspic33ak_can_cmsis_driv.Driver.Api.Interrupts.{Keeps}

-- What a write leaves of CON: the mode that it asks for is the mode that is read.
abbrev con_after : ℕ → ℕ
con_after v = v % 2 ^ 21 + v / 2 ^ 24 % 8 * 2 ^ 21 + v / 2 ^ 24 * 2 ^ 24

abbrev read_con : Reg → ℕ → ℕ
read_con Reg.con s = s
read_con _ s = 0

abbrev write_con : Reg → ℕ → ℕ → ℕ
write_con Reg.con v s = con_after v
write_con _ v s = s

abbrev obedient : Chip
obedient = record {
  State = ℕ;
  present = λ i. true;
  read = λ i r s. (read_con r s, s);
  write = λ i r v s. write_con r v s;
  load = λ a s. (0, s);
  store = λ a v s. s;
  now = λ s. (0, s);
}

abbrev below : Below
below = record { chip = obedient; has_line = λ i l. true; fuel = 3; handler = 1; context = λ i. 1 }

abbrev at_reset : System ℕ
at_reset = record {
  node = record {
    chip = 0;
    g_node = λ i. record { initialized = false; has_get_ms = false; timeout_ms = 0 };
    g_mode = λ i. Mode.none;
  };
  isr = record {
    g_cb = λ i. none;
    g_ud = λ i. 0;
    g_tx_busy = λ i. false;
    g_irq_priority = λ i. 0;
    g_isr_enabled = λ i. false;
    lines = λ i l. record { flag = false; priority = 4; enabled = false };
  };
}

abbrev system_of : HalState ℕ → System ℕ
system_of (running s) = s
system_of (stopped views) = at_reset

canfd-IsLifecycle_example :
    (life : IsLifecycle (canfd below)) × ((i : Instance) (s : System ℕ)
      → life.view i (running s) ≡ record {
        live = not (is_none_mode (s.node.g_mode i));
        handler = is_given (s.isr.g_cb i);
        armed = s.isr.g_isr_enabled i;
      })
canfd-IsLifecycle_example = canfd-IsLifecycle below

abbrev silent : App (HalState ℕ)
silent = record { unit_event = λ f e d. d; object_event = λ f o e d. d }

silent-Keeps : Keeps (canfd below) (canfd_life below) silent
silent-Keeps = record { unit_event = λ f e d s. s; object_event = λ f o e d s. s }

abbrev powered : Device (HalState ℕ)
powered = call (canfd below) (Call.power_control PowerState.full) (
    call (canfd below) (Call.initialize none none)
      (at_start below Instance.inst_1 4096 (example_rte true) at_reset))

abbrev after : System ℕ
after = system_of powered.hal

powered_runs : powered.hal ≡ running after
unfolding call can_initialize can_power_control power_full can_apply_init initial_context config_of
    can_normal_mode_for_ctx nora_canfd_isr_disable irq_line_disable set_line
    nora_canfd_isr_set_callback nora_canfd_init is_bad_config nora_canfd_calc_bit_timing solve_phase
    solve_rounds try_brp bring_up in_configuration entered configure write_timing reg_set reg_clear
    reg_write_field request_mode poll mode_to_reqop nora_canfd_isr_enable enable_receive
    irq_line_enable
powered_runs = refl

powered_on : after.isr.g_isr_enabled powered.ctx.hal_inst ≡ true
unfolding call can_initialize can_power_control power_full can_apply_init initial_context config_of
    can_normal_mode_for_ctx nora_canfd_isr_disable irq_line_disable set_line
    nora_canfd_isr_set_callback nora_canfd_init is_bad_config nora_canfd_calc_bit_timing solve_phase
    solve_rounds try_brp bring_up in_configuration entered configure write_timing reg_set reg_clear
    reg_write_field request_mode poll mode_to_reqop nora_canfd_isr_enable enable_receive
    irq_line_enable
powered_on = refl

driver_guards_example :
    (is_given (after.isr.g_cb powered.ctx.hal_inst) ≡ true)
    × (is_none_mode (after.node.g_mode powered.ctx.hal_inst) ≡ false)
driver_guards_example =
    driver_guards below Instance.inst_1 4096 (example_rte true) at_reset silent powered after
      silent-Keeps refl
      (next (next here (calls (Call.initialize none none)))
        (calls (Call.power_control PowerState.full)))
      powered_runs refl powered_on
