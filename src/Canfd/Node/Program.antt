-- ===== src/Canfd/Node/Program.antt =====
-- What `nora_canfd_init` and `nora_canfd_set_bitrate` leave in the registers.
use dspic33ak_can_cmsis_driv.Prelude.{
  ℕ, ◌+◌, ◌-◌, ◌*◌, ◌^◌, ◌≡◌, refl, ◌∙◌, arith, bit_or, true, if◌then◌else◌, if_holds, not, List,
  [], ◌∷◌,
}
use dspic33ak_can_cmsis_driv.Prelude.Bits.{shl, bit_or-digit}
use dspic33ak_can_cmsis_driv.Canfd.{Instance, Status, is_ok, Config}
use dspic33ak_can_cmsis_driv.Canfd.Timing.{Words, words, nora_canfd_calc_bit_timing}
use dspic33ak_can_cmsis_driv.Canfd.Chip.{Chip, Reg, reg_set}
use dspic33ak_can_cmsis_driv.Canfd.Node.{World, done, mode_to_reqop}
use dspic33ak_can_cmsis_driv.Canfd.Node.Bringup.{
  configure, txq_depth, rx_depth, is_bad_config, sample_or_default, entered, in_configuration,
  bring_up, nora_canfd_init,
}
use dspic33ak_can_cmsis_driv.Canfd.Node.Module.{Flag, IsModule, IsConfiguring}
use dspic33ak_can_cmsis_driv.Canfd.Node.Request.{IsSame, request-IsSame, request-IsConfiguring}
use dspic33ak_can_cmsis_driv.Canfd.Node.Writes.{
  written, Reg-discrete, write_all, write_all-IsWritten,
}
use dspic33ak_can_cmsis_driv.Canfd.Node.Switches.{switch_all, switch_all-IsSwitched}
use dspic33ak_can_cmsis_driv.Canfd.Node.Returns.{OnOk, waited-OnOk, calculated-OnOk, returned}
use dspic33ak_can_cmsis_driv.Canfd.Node.Outcome.{failed_calculation}
use dspic33ak_can_cmsis_driv.Canfd.Registers.{
  fifocon_plsize_pos, fifocon_fsize_pos, plsize_64, con_on, fltcon0_f0bp_pos, fltcon0_flten0,
}

-- The writes of `write_timing`, and those of `configure` after CxCON.
abbrev pub timing_writes : Words → List (Reg × ℕ)
timing_writes t = (Reg.nbtcfg, t.nbtcfg) ∷ (Reg.dbtcfg, t.dbtcfg) ∷ (Reg.tdc, t.tdc) ∷ []

abbrev setting_writes : Config → Words → List (Reg × ℕ)
setting_writes c t =
    (Reg.nbtcfg, t.nbtcfg)
    ∷ (Reg.dbtcfg, t.dbtcfg)
    ∷ (Reg.tdc, t.tdc)
    ∷ (Reg.fifoba, c.msg_ram)
    ∷ (
      Reg.txqcon,
      bit_or (shl plsize_64 fifocon_plsize_pos) (shl (txq_depth - 1) fifocon_fsize_pos),
    )
    ∷ (
      Reg.fifocon1,
      bit_or (shl plsize_64 fifocon_plsize_pos) (shl (rx_depth - 1) fifocon_fsize_pos),
    )
    ∷ (Reg.fltobj0, 0)
    ∷ (Reg.mask0, 0)
    ∷ (Reg.fltcon0, bit_or (shl 1 fltcon0_f0bp_pos) fltcon0_flten0)
    ∷ []

module _ (chip : Chip) (i : Instance) (m : IsModule chip i) where
  open chip use {State, read, write, present}
  open m use {word, flag, in_conf}

  -- The module is programmed as the configuration says: the timing words, the message RAM, the
  -- payload code for 64 bytes and four objects for the queue and the FIFO, a filter that takes every
  -- identifier to FIFO 1, the module's own clock, the CRC of the ISO, rate switching as asked, no
  -- transmit events, a transmit queue, and power.
  pub record IsProgrammed (c : Config) (t : Words) (s : State) : Type 0 where
    pub nominal : word Reg.nbtcfg s ≡ t.nbtcfg
    pub data_phase : word Reg.dbtcfg s ≡ t.dbtcfg
    pub offset : word Reg.tdc s ≡ t.tdc
    pub ram : word Reg.fifoba s ≡ c.msg_ram
    pub tx_queue : word Reg.txqcon s ≡ 7 * 2 ^ 5 + 3
    pub rx_fifo : word Reg.fifocon1 s ≡ 7 * 2 ^ 5 + 3
    pub filter_object : word Reg.fltobj0 s ≡ 0
    pub filter_mask : word Reg.mask0 s ≡ 0
    pub filter : word Reg.fltcon0 s ≡ 2 ^ 7 + 1
    pub clock : flag Flag.clksel s ≡ 0
    pub crc : flag Flag.isocrcen s ≡ 1
    pub rate : flag Flag.brsdis s ≡ (if c.brs then 0 else 1)
    pub events : flag Flag.stef s ≡ 0
    pub queue : flag Flag.txqen s ≡ 1
    pub power : flag Flag.on s ≡ 1

  configure-IsProgrammed :
      (c : Config) (t : Words) (s : State)
      → IsConfiguring chip i m s
      → flag Flag.on s ≡ 1
      → IsProgrammed c t (configure chip i c t s)
  unfolding configure written Reg-discrete write_all
  configure-IsProgrammed c t s v powered =
      let switched = switch_all-IsSwitched chip i m c.brs s v in
      let set =
        write_all-IsWritten chip i m (setting_writes c t) (switch_all chip i m c.brs s)
          (ground arith) switched.configuring in
      record {
        nominal = set.words_are Reg.nbtcfg;
        data_phase = set.words_are Reg.dbtcfg;
        offset = set.words_are Reg.tdc;
        ram = set.words_are Reg.fifoba;
        tx_queue = set.words_are Reg.txqcon;
        rx_fifo = set.words_are Reg.fifocon1;
        filter_object = set.words_are Reg.fltobj0;
        filter_mask = set.words_are Reg.mask0;
        filter = set.words_are Reg.fltcon0;
        clock = set.flags_are Flag.clksel ∙ switched.clock;
        crc = set.flags_are Flag.isocrcen ∙ switched.crc;
        rate = set.flags_are Flag.brsdis ∙ switched.rate;
        events = set.flags_are Flag.stef ∙ switched.events;
        queue = set.flags_are Flag.txqen ∙ switched.queue;
        power = set.flags_are Flag.on ∙ switched.power ∙ powered;
      }

  powered_flag : (s : State) → flag Flag.on (reg_set chip i Reg.con con_on s) ≡ 1
  unfolding reg_set
  powered_flag s =
      let (v, s') = read i Reg.con s in
      ground (arith, m.write_flag (bit_or v con_on) Flag.on s', bit_or-digit 15 v con_on)

  same-IsProgrammed :
      (c : Config) (t : Words) (s s' : State)
      → IsProgrammed c t s
      → IsSame chip i m s s'
      → IsProgrammed c t s'
  same-IsProgrammed c t s s' p v = record {
    nominal = v.same_word Reg.nbtcfg (ground arith) ∙ p.nominal;
    data_phase = v.same_word Reg.dbtcfg (ground arith) ∙ p.data_phase;
    offset = v.same_word Reg.tdc (ground arith) ∙ p.offset;
    ram = v.same_word Reg.fifoba (ground arith) ∙ p.ram;
    tx_queue = v.same_word Reg.txqcon (ground arith) ∙ p.tx_queue;
    rx_fifo = v.same_word Reg.fifocon1 (ground arith) ∙ p.rx_fifo;
    filter_object = v.same_word Reg.fltobj0 (ground arith) ∙ p.filter_object;
    filter_mask = v.same_word Reg.mask0 (ground arith) ∙ p.filter_mask;
    filter = v.same_word Reg.fltcon0 (ground arith) ∙ p.filter;
    clock = v.same_flag Flag.clksel refl ∙ p.clock;
    crc = v.same_flag Flag.isocrcen refl ∙ p.crc;
    rate = v.same_flag Flag.brsdis refl ∙ p.rate;
    events = v.same_flag Flag.stef refl ∙ p.events;
    queue = v.same_flag Flag.txqen refl ∙ p.queue;
    power = v.same_flag Flag.on refl ∙ p.power;
  }

  pub unchanged : (s : State) → IsSame chip i m s s
  unchanged s = record { same_word = λ q n. refl; same_flag = λ f e. refl }

  entered-OnOk :
      (P : State → Type 0) (c : Config) (st : Status) (w : World State)
      → P w.chip
      → OnOk chip P (entered chip i c st w)
  unfolding entered
  entered-OnOk P c st w p =
      if_holds (OnOk chip P) (not (is_ok st)) _ _ (λ bad ok. absurd (ground arith)) (λ _ _. p)

  in_configuration-OnOk :
      (fuel : ℕ) (c : Config) (t : Words) (st : Status) (w : World State)
      → (is_ok st ≡ true → IsConfiguring chip i m w.chip)
      → flag Flag.on w.chip ≡ 1
      → OnOk chip (IsProgrammed c t) (in_configuration chip fuel i c t st w)
  unfolding in_configuration
  in_configuration-OnOk fuel c t st w conf powered =
      if_holds (OnOk chip (IsProgrammed c t)) (not (is_ok st)) _ _ (λ bad ok. absurd (ground arith))
        (λ good.
          let s = configure chip i c t w.chip in
          let p = configure-IsProgrammed c t w.chip (conf (ground arith)) powered in
          waited-OnOk chip (IsProgrammed c t) _ w (entered chip i c)
            (request-IsSame chip i m (mode_to_reqop c.mode) (w.g_node i) fuel s s (unchanged s))
            (λ st s' same _.
              entered-OnOk (IsProgrammed c t) c st _ (same-IsProgrammed c t s s' p same)))

  bring_up-OnOk :
      (fuel : ℕ) (c : Config) (t : Words) (w : World State)
      → OnOk chip (IsProgrammed c t) (bring_up chip fuel i c t w)
  unfolding bring_up
  bring_up-OnOk fuel c t w =
      let s = reg_set chip i Reg.con con_on w.chip in
      waited-OnOk chip (IsProgrammed c t) _ _ (in_configuration chip fuel i c t)
        (request-IsConfiguring chip i m _ fuel s s (unchanged s))
        (λ st s' a conf.
          in_configuration-OnOk fuel c t st _ conf
            (a.same.same_flag Flag.on refl ∙ powered_flag w.chip))

  -- Over a module whose settings only software changes and that takes them in the configuration
  -- mode: a call of `nora_canfd_init` that returns OK has programmed the registers with the words of
  -- the bit timing that are calculated, the message RAM, a queue and a FIFO of four objects of 64
  -- bytes, a filter that takes every identifier to FIFO 1, the module's own clock, the CRC of the ISO,
  -- rate switching as configured, no transmit events, the transmit queue, and power.
  pub init_programs :
      (fuel : ℕ) (c : Config) (w w' : World State)
      → nora_canfd_init chip fuel i c w ≡ done Status.ok w'
      → (t : Words) × (nora_canfd_calc_bit_timing c.can_clk_hz c.nominal_bps c.data_bps
            (sample_or_default c.sample_pct)
          ≡ words t)
        × IsProgrammed c t w'.chip
  unfolding nora_canfd_init
  init_programs fuel c w w' e =
      let pct = sample_or_default c.sample_pct in
      let calculation = nora_canfd_calc_bit_timing c.can_clk_hz c.nominal_bps c.data_bps pct in
      let Good = λ (s : State). (t : Words) × (calculation ≡ words t) × IsProgrammed c t s in
      returned chip Good _ w'
        (if_holds (OnOk chip Good) (is_bad_config c) _ _ (λ _ ok. absurd (cc))
          (λ _.
            if_holds (OnOk chip Good) (not (present i)) _ _ (λ _ ok. absurd (cc))
              (λ _.
                calculated-OnOk chip (IsProgrammed c) calculation w
                  (λ t. bring_up chip fuel i c t w)
                  (failed_calculation c.can_clk_hz c.nominal_bps c.data_bps pct)
                  (λ t. bring_up-OnOk fuel c t w))))
        e
