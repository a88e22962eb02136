-- ===== src/Canfd/Node/Retime.antt =====
-- What `nora_canfd_set_bitrate` leaves in the registers.
use dspic33ak_can_cmsis_driv.Prelude.{
  ℕ, ◌≡◌, ◌≢◌, refl, sym, ap, ◌∙◌, arith, subst, Bool, true, false, if◌then◌else◌, if_holds, not,
  ◌==◌, ◌||◌,
}
use dspic33ak_can_cmsis_driv.Canfd.{Instance, Status, is_ok, Mode, Config}
use dspic33ak_can_cmsis_driv.Canfd.Timing.{Words, words, nora_canfd_calc_bit_timing}
use dspic33ak_can_cmsis_driv.Canfd.Chip.{Chip, Reg}
use dspic33ak_can_cmsis_driv.Canfd.Node.{World, done, mode_to_reqop}
use dspic33ak_can_cmsis_driv.Canfd.Node.Bringup.{
  write_timing, sample_or_default, nora_canfd_init, retime, change_timing, nora_canfd_set_bitrate,
}
use dspic33ak_can_cmsis_driv.Canfd.Node.Module.{Flag, IsModule, IsConfiguring}
use dspic33ak_can_cmsis_driv.Canfd.Node.Request.{
  IsSame, is_request, request-IsSame, request-IsConfiguring,
}
use dspic33ak_can_cmsis_driv.Canfd.Node.Writes.{
  written, Reg-discrete, write_all, write_all-IsWritten,
}
use dspic33ak_can_cmsis_driv.Canfd.Node.Returns.{OnOk, waited-OnOk, calculated-OnOk, returned}
use dspic33ak_can_cmsis_driv.Canfd.Node.Outcome.{failed_calculation}
use dspic33ak_can_cmsis_driv.Canfd.Node.Program.{
  timing_writes, unchanged, IsProgrammed, init_programs,
}

abbrev is_timing : Reg → Bool
is_timing Reg.nbtcfg = true
is_timing Reg.dbtcfg = true
is_timing Reg.tdc = true
is_timing _ = false

not_written :
    (q : Reg) (t : Words) (d : ℕ) → is_timing q ≡ false → written q (timing_writes t) d ≡ d
unfolding written Reg-discrete
not_written Reg.nbtcfg t d h = cc
not_written Reg.dbtcfg t d h = cc
not_written Reg.tdc t d h = cc
not_written _ t d h = refl

words_injective : (t u : Words) → words t ≡ words u → t ≡ u
words_injective t u e = cc

module _ (chip : Chip) (i : Instance) (m : IsModule chip i) where
  open chip use {State, present}
  open m use {word, flag, in_conf}

  -- The timing words are new, and the other settings, REQOP aside, are as before.
  pub record IsRetimed (s : State) (t : Words) (s' : State) : Type 0 where
    pub nominal : word Reg.nbtcfg s' ≡ t.nbtcfg
    pub data_phase : word Reg.dbtcfg s' ≡ t.dbtcfg
    pub offset : word Reg.tdc s' ≡ t.tdc
    pub other_words : (q : Reg) → Reg.con ≢ q → is_timing q ≡ false → word q s' ≡ word q s
    pub flags : (f : Flag) → is_request f ≡ false → flag f s' ≡ flag f s

  retime-OnOk :
      (fuel : ℕ) (t : Words) (before : Mode) (s : State) (st : Status) (w : World State)
      → IsSame chip i m s w.chip
      → (is_ok st ≡ true → IsConfiguring chip i m w.chip)
      → OnOk chip (IsRetimed s t) (retime chip fuel i t before st w)
  unfolding retime write_timing written Reg-discrete write_all
  retime-OnOk fuel t before s st w same conf =
      if_holds (OnOk chip (IsRetimed s t)) (not (is_ok st)) _ _ (λ bad ok. absurd (ground arith))
        (λ good.
          let s1 = write_timing chip i t w.chip in
          let set =
            write_all-IsWritten chip i m (timing_writes t) w.chip (ground arith)
              (conf (ground arith)) in
          waited-OnOk chip (IsRetimed s t) _ w done
            (request-IsSame chip i m (mode_to_reqop before) (w.g_node i) fuel s1 s1
              (unchanged chip i m s1))
            (λ st s' later _ ok. record {
              nominal = later.same_word Reg.nbtcfg (ground arith) ∙ set.words_are Reg.nbtcfg;
              data_phase = later.same_word Reg.dbtcfg (ground arith) ∙ set.words_are Reg.dbtcfg;
              offset = later.same_word Reg.tdc (ground arith) ∙ set.words_are Reg.tdc;
              other_words = λ q n h.
                  later.same_word q n ∙ set.words_are q ∙ not_written q t _ h ∙ same.same_word q n;
              flags = λ f e. later.same_flag f e ∙ set.flags_are f ∙ same.same_flag f e;
            }))

  -- A call of `nora_canfd_set_bitrate` that returns OK has written the words of the bit timing that
  -- are calculated, and left the other settings, REQOP aside.
  pub set_bitrate_programs :
      (fuel clk nominal fd sample : ℕ) (w w' : World State)
      → nora_canfd_set_bitrate chip fuel i clk nominal fd sample w ≡ done Status.ok w'
      → (t : Words) × (nora_canfd_calc_bit_timing clk nominal fd (sample_or_default sample)
          ≡ words t)
        × IsRetimed w.chip t w'.chip
  unfolding nora_canfd_set_bitrate change_timing
  set_bitrate_programs fuel clk nominal fd sample w w' e =
      let pct = sample_or_default sample in
      let calculation = nora_canfd_calc_bit_timing clk nominal fd pct in
      let Good = λ (s : State). (t : Words) × (calculation ≡ words t) × IsRetimed w.chip t s in
      returned chip Good _ w'
        (if_holds (OnOk chip Good) (clk == 0 || nominal == 0 || fd == 0) _ _ (λ _ ok. absurd (cc))
          (λ _.
            if_holds (OnOk chip Good) (not (present i)) _ _ (λ _ ok. absurd (cc))
              (λ _.
                if_holds (OnOk chip Good) (not (w.g_node i).initialized) _ _ (λ _ ok. absurd (cc))
                  (λ _.
                    calculated-OnOk chip (IsRetimed w.chip) calculation w
                      (λ t. change_timing chip fuel i t w) (failed_calculation clk nominal fd pct)
                      (λ t.
                        waited-OnOk chip (IsRetimed w.chip t) _ w
                          (retime chip fuel i t (w.g_mode i))
                          (request-IsConfiguring chip i m (w.g_node i) fuel w.chip w.chip
                            (unchanged chip i m w.chip))
                          (λ st s a conf.
                            retime-OnOk fuel t (w.g_mode i) w.chip st _ a.same conf))))))
        e

  -- The same settings in two states, REQOP aside.
  pub record IsAlike (s s' : State) : Type 0 where
    pub alike_words : (q : Reg) → Reg.con ≢ q → word q s' ≡ word q s
    pub alike_flags : (f : Flag) → is_request f ≡ false → flag f s' ≡ flag f s

  -- Two states in which the module is programmed with the same words and for configurations with the
  -- same message RAM and rate switching have the same settings.
  programmed-IsAlike :
      (c d : Config) (t : Words) (s s' : State)
      → c.msg_ram ≡ d.msg_ram
      → c.brs ≡ d.brs
      → IsProgrammed chip i m c t s
      → IsProgrammed chip i m d t s'
      → IsAlike s s'
  programmed-IsAlike c d t s s' ram brs p p' = record {
    alike_words = alike_words;
    alike_flags = alike_flags;
  }
    where
      alike_words : (q : Reg) → Reg.con ≢ q → word q s' ≡ word q s
      alike_words Reg.con n = absurd (n refl)
      alike_words Reg.nbtcfg n = p'.nominal ∙ sym p.nominal
      alike_words Reg.dbtcfg n = p'.data_phase ∙ sym p.data_phase
      alike_words Reg.tdc n = p'.offset ∙ sym p.offset
      alike_words Reg.fifoba n = p'.ram ∙ sym ram ∙ sym p.ram
      alike_words Reg.txqcon n = p'.tx_queue ∙ sym p.tx_queue
      alike_words Reg.fifocon1 n = p'.rx_fifo ∙ sym p.rx_fifo
      alike_words Reg.fltobj0 n = p'.filter_object ∙ sym p.filter_object
      alike_words Reg.mask0 n = p'.filter_mask ∙ sym p.filter_mask
      alike_words Reg.fltcon0 n = p'.filter ∙ sym p.filter
      alike_words Reg.txqsta n = sym (m.read_word Reg.txqsta s') ∙ m.read_word Reg.txqsta s
      alike_words Reg.txqua n = sym (m.read_word Reg.txqua s') ∙ m.read_word Reg.txqua s
      alike_words Reg.fifosta1 n = sym (m.read_word Reg.fifosta1 s') ∙ m.read_word Reg.fifosta1 s
      alike_words Reg.fifoua1 n = sym (m.read_word Reg.fifoua1 s') ∙ m.read_word Reg.fifoua1 s
      alike_words Reg.int n = sym (m.read_word Reg.int s') ∙ m.read_word Reg.int s
      alike_words Reg.trec n = sym (m.read_word Reg.trec s') ∙ m.read_word Reg.trec s

      alike_flags : (f : Flag) → is_request f ≡ false → flag f s' ≡ flag f s
      alike_flags Flag.isocrcen h = p'.crc ∙ sym p.crc
      alike_flags Flag.clksel h = p'.clock ∙ sym p.clock
      alike_flags Flag.brsdis h = p'.rate ∙ ap (λ b. if b then 0 else 1) (sym brs) ∙ sym p.rate
      alike_flags Flag.on h = p'.power ∙ sym p.power
      alike_flags Flag.stef h = p'.events ∙ sym p.events
      alike_flags Flag.txqen h = p'.queue ∙ sym p.queue
      alike_flags Flag.reqop_0 h = cc
      alike_flags Flag.reqop_1 h = cc
      alike_flags Flag.reqop_2 h = cc

  retimed-IsProgrammed :
      (c : Config) (t u : Words) (s s' : State)
      → IsProgrammed chip i m c t s
      → IsRetimed s u s'
      → IsProgrammed chip i m c u s'
  retimed-IsProgrammed c t u s s' p r = record {
    nominal = r.nominal;
    data_phase = r.data_phase;
    offset = r.offset;
    ram = r.other_words Reg.fifoba (ground arith) refl ∙ p.ram;
    tx_queue = r.other_words Reg.txqcon (ground arith) refl ∙ p.tx_queue;
    rx_fifo = r.other_words Reg.fifocon1 (ground arith) refl ∙ p.rx_fifo;
    filter_object = r.other_words Reg.fltobj0 (ground arith) refl ∙ p.filter_object;
    filter_mask = r.other_words Reg.mask0 (ground arith) refl ∙ p.filter_mask;
    filter = r.other_words Reg.fltcon0 (ground arith) refl ∙ p.filter;
    clock = r.flags Flag.clksel refl ∙ p.clock;
    crc = r.flags Flag.isocrcen refl ∙ p.crc;
    rate = r.flags Flag.brsdis refl ∙ p.rate;
    events = r.flags Flag.stef refl ∙ p.events;
    queue = r.flags Flag.txqen refl ∙ p.queue;
    power = r.flags Flag.on refl ∙ p.power;
  }

  -- Over a module whose settings only software changes and that takes them in the configuration mode,
  -- a change of the bit rate after bring-up leaves the settings, REQOP aside, that a bring-up with the
  -- new rates leaves: whenever `nora_canfd_init` and then `nora_canfd_set_bitrate` return OK, and
  -- `nora_canfd_init` with the rates of the latter returns OK in any other run.
  pub set_bitrate-as-init :
      (fuel clk nominal fd sample : ℕ) (c : Config) (w w1 w2 v v' : World State)
      → nora_canfd_init chip fuel i c w ≡ done Status.ok w1
      → nora_canfd_set_bitrate chip fuel i clk nominal fd sample w1 ≡ done Status.ok w2
      → nora_canfd_init chip fuel i
          (record c { can_clk_hz = clk; nominal_bps = nominal; data_bps = fd; sample_pct = sample })
          v
        ≡ done Status.ok v'
      → IsAlike v'.chip w2.chip
  set_bitrate-as-init fuel clk nominal fd sample c w w1 w2 v v' first second direct =
      let d : Config = record c {
        can_clk_hz = clk;
        nominal_bps = nominal;
        data_bps = fd;
        sample_pct = sample;
      } in
      let (t, _, up) = init_programs chip i m fuel c w w1 first in
      let (u, found_u, retimed) = set_bitrate_programs fuel clk nominal fd sample w1 w2 second in
      let (x, found_x, other) = init_programs chip i m fuel d v v' direct in
      let same : x ≡ u = words_injective x u (sym found_x ∙ found_u) in
      programmed-IsAlike d c u v'.chip w2.chip refl refl
        (subst (λ y. IsProgrammed chip i m d y v'.chip) same other)
        (retimed-IsProgrammed c t u w1.chip w2.chip up retimed)
