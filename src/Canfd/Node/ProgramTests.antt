-- ===== src/Canfd/Node/ProgramTests.antt =====
-- Bring-up and a change of the bit rate over a module that enters each mode at once and never locks
-- its settings.
use dspic33ak_can_cmsis_driv.Prelude.{
  ℕ, ◌+◌, ◌*◌, ◌/◌, ◌%◌, ◌^◌, ◌≡◌, ◌≢◌, refl, ap, arith, true, false,
}
use dspic33ak_can_cmsis_driv.Canfd.{Instance, Status, Mode, Config}
use dspic33ak_can_cmsis_driv.Canfd.Chip.{Chip, Reg, reg_set, reg_clear, reg_write_field}
use dspic33ak_can_cmsis_driv.Canfd.Timing.{
  Words, words, nora_canfd_calc_bit_timing, solve_phase, solve_rounds, try_brp,
}
use dspic33ak_can_cmsis_driv.Canfd.Node.{
  World, Run, trap, dry, done, poll, request_mode, mode_to_reqop,
}
use dspic33ak_can_cmsis_driv.Canfd.Node.Bringup.{
  bring_up, in_configuration, entered, configure, write_timing, change_timing, retime,
  nora_canfd_init, nora_canfd_set_bitrate, is_bad_config,
}
use dspic33ak_can_cmsis_driv.Canfd.Node.Module.{Flag, position, digit, part, IsModule}
use dspic33ak_can_cmsis_driv.Canfd.Node.Writes.{Reg-discrete}
use dspic33ak_can_cmsis_driv.Canfd.Node.Program.{IsProgrammed, init_programs}
use dspic33ak_can_cmsis_driv.Canfd.Node.Retime.{IsAlike, set_bitrate-as-init}

abbrev Words16 : Type 0
Words16 = Reg → ℕ

-- OPMOD shows what REQOP asks for.
abbrev shown : Reg → ℕ → ℕ
shown Reg.con v = v % 2 ^ 21 + v / 2 ^ 24 % 8 * 2 ^ 21 + v / 2 ^ 24 * 2 ^ 24
shown _ v = v

store_at : Reg → ℕ → Words16 → Words16
store_at r v s q = elim (Reg-discrete r q) [ yes _ ↦ v | no _ ↦ s q ]

abbrev quick : Chip
quick = record {
  State = Words16;
  present = λ i. true;
  read = λ i r s. (shown r (s r), s);
  write = λ i r v s. store_at r v s;
  load = λ a s. (0, s);
  store = λ a v s. s;
  now = λ s. (0, s);
}

stored_self : (r : Reg) (v : ℕ) (s : Words16) → store_at r v s r ≡ v
unfolding store_at
stored_self r v s = elim (Reg-discrete r r) as (λ d. (elim d [ yes _ ↦ v | no _ ↦ s r ]) ≡ v) [
  | yes e ↦ refl
  | no n ↦ absurd (n refl)
]

stored_other : (r : Reg) (v : ℕ) (s : Words16) (q : Reg) → r ≢ q → store_at r v s q ≡ s q
unfolding store_at
stored_other r v s q h =
    elim (Reg-discrete r q) as (λ d. (elim d [ yes _ ↦ v | no _ ↦ s q ]) ≡ s q) [
      | yes e ↦ absurd (h e)
      | no n ↦ refl
    ]

part-shown : (r : Reg) (v : ℕ) → part r (shown r v) ≡ part r v
part-shown Reg.con v = refl
part-shown _ v = refl

digit-shown : (f : Flag) (v : ℕ) → digit (position f) (shown Reg.con v) ≡ digit (position f) v
digit-shown Flag.isocrcen v = omega arith
digit-shown Flag.clksel v = omega arith
digit-shown Flag.brsdis v = omega arith
digit-shown Flag.on v = omega arith
digit-shown Flag.stef v = omega arith
digit-shown Flag.txqen v = omega arith
digit-shown Flag.reqop_0 v = omega arith
digit-shown Flag.reqop_1 v = omega arith
digit-shown Flag.reqop_2 v = omega arith

abbrev quick_module : IsModule quick Instance.inst_1
quick_module = record {
  word = λ r s. part r (s r);
  flag = λ f s. digit (position f) (s Reg.con);
  in_conf = λ s. true;
  read_word = λ r s. part-shown r (s r);
  read_flag = λ f s. digit-shown f (s Reg.con);
  read_mode = λ s a e. refl;
  read_words = λ r q s. refl;
  read_flags = λ r f s. refl;
  read_stays = λ r s a e. refl;
  now_words = λ q s. refl;
  now_flags = λ f s. refl;
  write_word = λ r v s e. ap (part r) (stored_self r v s);
  write_other = λ r v q s n. ap (part q) (stored_other r v s q n);
  write_flag = λ v f s. ap (digit (position f)) (stored_self Reg.con v s);
  write_flags = λ r v f s n. ap (digit (position f)) (stored_other r v s Reg.con n);
  write_stays = λ r v s a e. refl;
}

abbrev slow : Config
slow = record {
  can_clk_hz = 20000000;
  nominal_bps = 250000;
  data_bps = 1000000;
  sample_pct = 0;
  brs = true;
  mode = Mode.normal_fd;
  has_get_ms = false;
  timeout_ms = 0;
  msg_ram = 4096;
  msg_ram_size = 576;
}

abbrev fast : Config
fast = record slow { nominal_bps = 500000; data_bps = 2000000 }

abbrev at_reset : World Words16
at_reset = record {
  chip = λ r. 0;
  g_node = λ i. record { initialized = false; has_get_ms = false; timeout_ms = 0 };
  g_mode = λ i. Mode.none;
}

abbrev world_of : Run Words16 → World Words16
world_of trap = at_reset
world_of dry = at_reset
world_of (done st w) = w

abbrev brought_up : World Words16
brought_up = world_of (nora_canfd_init quick 2 Instance.inst_1 slow at_reset)

abbrev retimed : World Words16
retimed =
    world_of (nora_canfd_set_bitrate quick 2 Instance.inst_1 20000000 500000 2000000 0 brought_up)

abbrev direct : World Words16
direct = world_of (nora_canfd_init quick 2 Instance.inst_1 fast at_reset)

brings_up : nora_canfd_init quick 2 Instance.inst_1 slow at_reset ≡ done Status.ok brought_up
unfolding nora_canfd_init is_bad_config nora_canfd_calc_bit_timing solve_phase solve_rounds try_brp
    bring_up in_configuration entered configure write_timing reg_set reg_clear reg_write_field
    request_mode poll mode_to_reqop store_at Reg-discrete
brings_up = refl

retimes :
    nora_canfd_set_bitrate quick 2 Instance.inst_1 20000000 500000 2000000 0 brought_up
    ≡ done Status.ok retimed
unfolding nora_canfd_init is_bad_config nora_canfd_calc_bit_timing solve_phase solve_rounds try_brp
    bring_up in_configuration entered configure write_timing reg_set reg_clear reg_write_field
    request_mode poll mode_to_reqop store_at Reg-discrete nora_canfd_set_bitrate change_timing
    retime
retimes = refl

brings_up_directly : nora_canfd_init quick 2 Instance.inst_1 fast at_reset ≡ done Status.ok direct
unfolding nora_canfd_init is_bad_config nora_canfd_calc_bit_timing solve_phase solve_rounds try_brp
    bring_up in_configuration entered configure write_timing reg_set reg_clear reg_write_field
    request_mode poll mode_to_reqop store_at Reg-discrete
brings_up_directly = refl

init_programs_example :
    (t : Words) × (nora_canfd_calc_bit_timing 20000000 250000 1000000 80 ≡ words t)
    × IsProgrammed quick Instance.inst_1 quick_module slow t brought_up.chip
init_programs_example =
    init_programs quick Instance.inst_1 quick_module 2 slow at_reset brought_up brings_up

set_bitrate-as-init_example : IsAlike quick Instance.inst_1 quick_module direct.chip retimed.chip
set_bitrate-as-init_example =
    set_bitrate-as-init quick Instance.inst_1 quick_module 2 20000000 500000 2000000 0 slow at_reset
      brought_up retimed at_reset direct brings_up retimes brings_up_directly
