-- ===== src/Canfd/Node/Bringup.antt =====
-- `nora_canfd_init`, `nora_canfd_set_bitrate` and `nora_canfd_deinit` of
-- src/hal_can/nora_canfd_node_dspic33ak.c.
use dspic33ak_can_cmsis_driv.Prelude.{
  ℕ, ◌+◌, ◌-◌, ◌*◌, Bool, true, false, not, ◌||◌, bit_and, bit_or,
}
use dspic33ak_can_cmsis_driv.Prelude.{ltb, ◌==◌, if◌then◌else◌}
use dspic33ak_can_cmsis_driv.Prelude.Bits.{shl}
use dspic33ak_can_cmsis_driv.Canfd.{Instance, Status, is_ok, Mode, Config}
use dspic33ak_can_cmsis_driv.Canfd.Timing.{Words, trapped, failed, words}
use dspic33ak_can_cmsis_driv.Canfd.Timing.{nora_canfd_calc_bit_timing}
use dspic33ak_can_cmsis_driv.Canfd.Chip.{Chip, Reg, reg_set, reg_clear}
use dspic33ak_can_cmsis_driv.Canfd.Node.{NodeState, World, Run, trap, done, set_at}
use dspic33ak_can_cmsis_driv.Canfd.Node.{is_none_mode, mode_to_reqop, request_mode}
use dspic33ak_can_cmsis_driv.Canfd.Node.{after_wait}
use dspic33ak_can_cmsis_driv.Canfd.Registers.{
  opmode_config, fifocon_plsize_pos, fifocon_fsize_pos, plsize_64, con_isocrcen, con_clksel,
  con_brsdis, con_on, con_stef, con_txqen, fltcon0_f0bp_pos, fltcon0_flten0,
}

-- TXQ_DEPTH, RX_DEPTH, OBJ_BYTES and MSG_RAM_BYTES
abbrev pub txq_depth : ℕ
txq_depth = 4

abbrev pub rx_depth : ℕ
rx_depth = 4

abbrev pub obj_bytes : ℕ
obj_bytes = 8 + 64

abbrev pub ram_bytes : ℕ
ram_bytes = (txq_depth + rx_depth) * obj_bytes

-- DEFAULT_SAMPLE_PCT where the percentage is 0
abbrev pub sample_or_default : ℕ → ℕ
sample_or_default pct = if not (pct == 0) then pct else 80

-- The tests of the configuration, which is not NULL.
unfoldable pub is_bad_config : Config → Bool
is_bad_config c =
    c.msg_ram == 0
    || not (bit_and c.msg_ram 3 == 0)
    || ltb c.msg_ram_size ram_bytes
    || is_none_mode c.mode

module _ (chip : Chip) where
  open chip use {State, present, write}

  -- `*regs->NBTCFG`, `*regs->DBTCFG` and `*regs->TDC`
  unfoldable pub write_timing : Instance → Words → State → State
  write_timing i t s =
      let s1 = write i Reg.nbtcfg t.nbtcfg s in
      let s2 = write i Reg.dbtcfg t.dbtcfg s1 in write i Reg.tdc t.tdc s2

  -- From the clock source to the filter.
  unfoldable pub configure : Instance → Config → Words → State → State
  unfolding write_timing
  configure i c t s =
      let s1 = reg_clear chip i Reg.con con_clksel s in
      let s2 = reg_set chip i Reg.con con_isocrcen s1 in
      let s3 =
        if c.brs
        then reg_clear chip i Reg.con con_brsdis s2
        else reg_set chip i Reg.con con_brsdis s2 in
      let s4 = reg_clear chip i Reg.con con_stef s3 in
      let s5 = reg_set chip i Reg.con con_txqen s4 in
      let s6 = write_timing i t s5 in
      let s7 = write i Reg.fifoba c.msg_ram s6 in
      let s8 =
        write i Reg.txqcon
          (bit_or (shl plsize_64 fifocon_plsize_pos) (shl (txq_depth - 1) fifocon_fsize_pos)) s7 in
      let s9 =
        write i Reg.fifocon1
          (bit_or (shl plsize_64 fifocon_plsize_pos) (shl (rx_depth - 1) fifocon_fsize_pos)) s8 in
      let s10 = write i Reg.fltobj0 0 s9 in
      let s11 = write i Reg.mask0 0 s10 in
      write i Reg.fltcon0 (bit_or (shl 1 fltcon0_f0bp_pos) fltcon0_flten0) s11

  -- `nora_canfd_reg_clear(regs->CON, NORA_CANFD_CON_ON)`
  abbrev pub switch_off : Instance → World State → World State
  switch_off i w = record w { chip = reg_clear chip i Reg.con con_on w.chip }

  -- `nora_canfd_init` after its second `request_mode`
  unfoldable pub entered : Instance → Config → Status → World State → Run State
  entered i c st w =
      let n : NodeState = w.g_node i in
      if not (is_ok st)
      then done st (switch_off i w)
      else done Status.ok (record w {
        g_node = set_at w.g_node i (record n { initialized = true });
        g_mode = set_at w.g_mode i c.mode;
      })

  -- `nora_canfd_init` after its first `request_mode`
  unfoldable pub in_configuration : ℕ → Instance → Config → Words → Status → World State → Run State
  unfolding configure entered
  in_configuration fuel i c t st w =
      let s = configure i c t w.chip in
      if not (is_ok st)
      then done st (switch_off i w)
      else after_wait chip (request_mode chip fuel i (mode_to_reqop c.mode) (w.g_node i) s) w
          (entered i c)

  -- `nora_canfd_init` with the words of the bit timing calculated
  unfoldable pub bring_up : ℕ → Instance → Config → Words → World State → Run State
  unfolding in_configuration
  bring_up fuel i c t w =
      let fresh : NodeState = record {
        initialized = false;
        has_get_ms = c.has_get_ms;
        timeout_ms = c.timeout_ms;
      } in
      let on : World State = record {
        chip = reg_set chip i Reg.con con_on w.chip;
        g_node = set_at w.g_node i fresh;
        g_mode = set_at w.g_mode i Mode.none;
      } in
      after_wait chip (request_mode chip fuel i opmode_config fresh on.chip) on
        (in_configuration fuel i c t)

  unfoldable pub nora_canfd_init : ℕ → Instance → Config → World State → Run State
  unfolding bring_up
  nora_canfd_init fuel i c w =
      if is_bad_config c
      then done Status.err_invalid_arg w
      else if not (present i)
      then done Status.err_not_present w
      else elim (nora_canfd_calc_bit_timing c.can_clk_hz c.nominal_bps c.data_bps
          (sample_or_default c.sample_pct)) [
            | trapped ↦ trap
            | failed st ↦ done st w
            | words t ↦ bring_up fuel i c t w
          ]

  -- `nora_canfd_set_bitrate` after its first `request_mode`, given the mode before
  unfoldable pub retime : ℕ → Instance → Words → Mode → Status → World State → Run State
  unfolding write_timing
  retime fuel i t prev_mode st w =
      let s = write_timing i t w.chip in
      if not (is_ok st)
      then done st w
      else after_wait chip (request_mode chip fuel i (mode_to_reqop prev_mode) (w.g_node i) s) w
          done

  -- `nora_canfd_set_bitrate` with the words of the bit timing calculated
  unfoldable pub change_timing : ℕ → Instance → Words → World State → Run State
  unfolding retime
  change_timing fuel i t w =
      after_wait chip (request_mode chip fuel i opmode_config (w.g_node i) w.chip) w
        (retime fuel i t (w.g_mode i))

  unfoldable pub nora_canfd_set_bitrate : ℕ → Instance → ℕ → ℕ → ℕ → ℕ → World State → Run State
  unfolding change_timing
  nora_canfd_set_bitrate fuel i clk nominal fd sample w =
      if clk == 0 || nominal == 0 || fd == 0
      then done Status.err_invalid_arg w
      else if not (present i)
      then done Status.err_not_present w
      else if not (w.g_node i).initialized
      then done Status.err_not_initialized w
      else elim (nora_canfd_calc_bit_timing clk nominal fd (sample_or_default sample)) [
        | trapped ↦ trap
        | failed st ↦ done st w
        | words t ↦ change_timing fuel i t w
      ]

  -- The end of `nora_canfd_deinit`
  abbrev pub forget : Instance → World State → World State
  forget i w =
      let n : NodeState = w.g_node i in
      record w { g_node = set_at w.g_node i (record n { initialized = false }) }

  -- `nora_canfd_deinit` after its `request_mode`
  unfoldable pub shut_down : Instance → Status → World State → Run State
  shut_down i st w =
      let off : World State = forget i (switch_off i w) in
      done Status.ok (record off { g_mode = set_at off.g_mode i Mode.none })

  unfoldable pub nora_canfd_deinit : ℕ → Instance → World State → Run State
  unfolding shut_down
  nora_canfd_deinit fuel i w =
      let waited = request_mode chip fuel i opmode_config (w.g_node i) w.chip in
      if not (present i)
      then done Status.err_not_present w
      else if is_none_mode (w.g_mode i)
      then done Status.ok (forget i w)
      else after_wait chip waited w (shut_down i)
