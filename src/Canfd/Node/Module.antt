-- ===== src/Canfd/Node/Module.antt =====
-- The CAN module as its driver may rely on it: settings that only software changes, and the
-- configuration mode, in which alone they can be written.
use dspic33ak_can_cmsis_driv.Prelude.{
  ℕ, ◌/◌, ◌%◌, ◌^◌, ◌≡◌, ◌≢◌, ap, ◌∙◌, bit_or, bit_and, Bool, true, false, ◌||◌, if◌then◌else◌, max,
  min,
}
use dspic33ak_can_cmsis_driv.Prelude.Bits.{bit_or-digit, bit_and-digit, u8, shr}
use dspic33ak_can_cmsis_driv.Canfd.{Instance}
use dspic33ak_can_cmsis_driv.Canfd.Chip.{Chip, Reg, reg_set, reg_clear, complement}
use dspic33ak_can_cmsis_driv.Canfd.Registers.{con_opmod_pos, con_opmod_mask, opmode_config}

-- The bits of CxCON that software sets; the last three are REQOP.
pub data Flag : Type 0 where
  isocrcen clksel brsdis on stef txqen reqop_0 reqop_1 reqop_2 : Flag

abbrev pub position : Flag → ℕ
position Flag.isocrcen = 5
position Flag.clksel = 7
position Flag.brsdis = 12
position Flag.on = 15
position Flag.stef = 19
position Flag.txqen = 20
position Flag.reqop_0 = 24
position Flag.reqop_1 = 25
position Flag.reqop_2 = 26

-- Those that can be written in every mode.
abbrev pub is_free : Flag → Bool
is_free Flag.on = true
is_free Flag.reqop_0 = true
is_free Flag.reqop_1 = true
is_free Flag.reqop_2 = true
is_free _ = false

abbrev pub digit : ℕ → ℕ → ℕ
digit k word = word / 2 ^ k % 2

-- The part of a register's word that is a setting: of CxTXQCON and CxFIFOCON1 the payload code and
-- the number of objects.
abbrev pub part : Reg → ℕ → ℕ
part Reg.nbtcfg v = v
part Reg.dbtcfg v = v
part Reg.tdc v = v
part Reg.fifoba v = v
part Reg.fltcon0 v = v
part Reg.fltobj0 v = v
part Reg.mask0 v = v
part Reg.txqcon v = v / 2 ^ 24
part Reg.fifocon1 v = v / 2 ^ 24
part _ v = 0

-- `opmod_get`
abbrev pub opmod : ℕ → ℕ
opmod v = u8 (shr (bit_and v con_opmod_mask) con_opmod_pos)

-- REQOP asks for the configuration mode.
abbrev pub AsksFor : (Flag → ℕ) → Type 0
AsksFor flag = (flag Flag.reqop_2 ≡ 1) × (flag Flag.reqop_1 ≡ 0) × (flag Flag.reqop_0 ≡ 0)

-- What software relies on. The settings change only by its writes; in the configuration mode, which
-- the module enters and leaves only as REQOP asks, a write sets them; outside it only ON and REQOP
-- can be written in CxCON. A module whose OPMOD reads as configuration is in that mode.
pub record IsModule (chip : Chip) (i : Instance) : Type 0 where
  pub word : Reg → chip.State → ℕ
  pub flag : Flag → chip.State → ℕ
  pub in_conf : chip.State → Bool
  pub read_word : (r : Reg) (s : chip.State) → part r (chip.read i r s).0 ≡ word r s
  pub read_flag :
      (f : Flag) (s : chip.State) → digit (position f) (chip.read i Reg.con s).0 ≡ flag f s
  pub read_mode :
      (s : chip.State)
      → AsksFor (λ f. flag f s)
      → opmod (chip.read i Reg.con s).0 ≡ opmode_config
      → in_conf (chip.read i Reg.con s).1 ≡ true
  pub read_words : (r q : Reg) (s : chip.State) → word q (chip.read i r s).1 ≡ word q s
  pub read_flags : (r : Reg) (f : Flag) (s : chip.State) → flag f (chip.read i r s).1 ≡ flag f s
  pub read_stays :
      (r : Reg) (s : chip.State)
      → AsksFor (λ f. flag f s)
      → in_conf s ≡ true
      → in_conf (chip.read i r s).1 ≡ true
  pub now_words : (q : Reg) (s : chip.State) → word q (chip.now s).1 ≡ word q s
  pub now_flags : (f : Flag) (s : chip.State) → flag f (chip.now s).1 ≡ flag f s
  pub write_word :
      (r : Reg) (v : ℕ) (s : chip.State) → in_conf s ≡ true → word r (chip.write i r v s) ≡ part r v
  pub write_other :
      (r : Reg) (v : ℕ) (q : Reg) (s : chip.State) → r ≢ q → word q (chip.write i r v s) ≡ word q s
  pub write_flag :
      (v : ℕ) (f : Flag) (s : chip.State)
      → flag f (chip.write i Reg.con v s)
        ≡ (if in_conf s || is_free f then digit (position f) v else flag f s)
  pub write_flags :
      (r : Reg) (v : ℕ) (f : Flag) (s : chip.State)
      → r ≢ Reg.con
      → flag f (chip.write i r v s) ≡ flag f s
  pub write_stays :
      (r : Reg) (v : ℕ) (s : chip.State)
      → AsksFor (λ f. flag f (chip.write i r v s))
      → in_conf s ≡ true
      → in_conf (chip.write i r v s) ≡ true

module _ (chip : Chip) (i : Instance) (m : IsModule chip i) where
  open chip use {State, read, write, now}
  open m use {word, flag, in_conf}

  -- In the configuration mode, which REQOP asks for.
  pub record IsConfiguring (s : State) : Type 0 where
    pub here : in_conf s ≡ true
    pub asked : AsksFor (λ f. flag f s)

  pub set_words :
      (mask : ℕ) (q : Reg) (s : State)
      → Reg.con ≢ q
      → word q (reg_set chip i Reg.con mask s) ≡ word q s
  unfolding reg_set
  set_words mask q s n = m.write_other Reg.con _ q _ n ∙ m.read_words Reg.con q s

  pub clear_words :
      (mask : ℕ) (q : Reg) (s : State)
      → Reg.con ≢ q
      → word q (reg_clear chip i Reg.con mask s) ≡ word q s
  unfolding reg_clear
  clear_words mask q s n = m.write_other Reg.con _ q _ n ∙ m.read_words Reg.con q s

  -- A bit of CxCON after a bit is set or cleared, in the configuration mode.
  pub set_flag :
      (mask : ℕ) (f : Flag) (s : State)
      → IsConfiguring s
      → flag f (reg_set chip i Reg.con mask s) ≡ max (flag f s) (digit (position f) mask)
  unfolding reg_set
  set_flag mask f s c =
      let (v, s') = read i Reg.con s in
      m.write_flag (bit_or v mask) f s'
      ∙ ap (λ b. if b || is_free f then digit (position f) (bit_or v mask) else flag f s')
          (m.read_stays Reg.con s c.asked c.here)
      ∙ bit_or-digit (position f) v mask
      ∙ ap (λ d. max d (digit (position f) mask)) (m.read_flag f s)

  pub clear_flag :
      (mask : ℕ) (f : Flag) (s : State)
      → IsConfiguring s
      → flag f (reg_clear chip i Reg.con mask s)
        ≡ min (flag f s) (digit (position f) (complement chip mask))
  unfolding reg_clear
  clear_flag mask f s c =
      let (v, s') = read i Reg.con s in
      let kept = bit_and v (complement chip mask) in
      m.write_flag kept f s'
      ∙ ap (λ b. if b || is_free f then digit (position f) kept else flag f s')
          (m.read_stays Reg.con s c.asked c.here)
      ∙ bit_and-digit (position f) v (complement chip mask)
      ∙ ap (λ d. min d (digit (position f) (complement chip mask))) (m.read_flag f s)
