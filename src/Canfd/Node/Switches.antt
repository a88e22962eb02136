-- ===== src/Canfd/Node/Switches.antt =====
-- The switches of CxCON that `nora_canfd_init` sets in the configuration mode.
use dspic33ak_can_cmsis_driv.Prelude.{
  ℕ, ◌≡◌, ◌≢◌, refl, ap, ◌∙◌, arith, max, min, true, false, if◌then◌else◌, Bool, ◌≤◌,
}
use dspic33ak_can_cmsis_driv.Canfd.{Instance}
use dspic33ak_can_cmsis_driv.Canfd.Chip.{Chip, Reg, reg_set, reg_clear, complement}
use dspic33ak_can_cmsis_driv.Canfd.Node.Module.{
  Flag, position, digit, AsksFor, IsModule, IsConfiguring, set_words, clear_words, set_flag,
  clear_flag,
}
use dspic33ak_can_cmsis_driv.Canfd.Registers.{
  con_isocrcen, con_clksel, con_brsdis, con_stef, con_txqen,
}

module _ (chip : Chip) (i : Instance) (m : IsModule chip i) where
  open chip use {State, read, write}
  open m use {word, flag, in_conf}

  -- A mask without REQOP.
  abbrev IsApart : ℕ → Type 0
  IsApart mask = (digit 24 mask ≡ 0) × (digit 25 mask ≡ 0) × (digit 26 mask ≡ 0)

  set-IsConfiguring :
      (mask : ℕ) (s : State)
      → IsApart mask
      → IsConfiguring chip i m s
      → IsConfiguring chip i m (reg_set chip i Reg.con mask s)
  set-IsConfiguring mask s a c =
      let asked : AsksFor (λ f. flag f (reg_set chip i Reg.con mask s)) = (
        omega (arith, set_flag chip i m mask Flag.reqop_2 s c, a, c.asked),
        omega (arith, set_flag chip i m mask Flag.reqop_1 s c, a, c.asked),
        omega (arith, set_flag chip i m mask Flag.reqop_0 s c, a, c.asked),
      ) in
      record {
        here =
            unfold reg_set in
            m.write_stays Reg.con _ _ asked (m.read_stays Reg.con s c.asked c.here);
        asked = asked;
      }

  clear-IsConfiguring :
      (mask : ℕ) (s : State)
      → digit 26 (complement chip mask) ≡ 1
      → IsConfiguring chip i m s
      → IsConfiguring chip i m (reg_clear chip i Reg.con mask s)
  clear-IsConfiguring mask s a c =
      let asked : AsksFor (λ f. flag f (reg_clear chip i Reg.con mask s)) = (
        omega (arith, clear_flag chip i m mask Flag.reqop_2 s c, a, c.asked),
        omega (arith, clear_flag chip i m mask Flag.reqop_1 s c, a, c.asked),
        omega (arith, clear_flag chip i m mask Flag.reqop_0 s c, a, c.asked),
      ) in
      record {
        here =
            unfold reg_clear in
            m.write_stays Reg.con _ _ asked (m.read_stays Reg.con s c.asked c.here);
        asked = asked;
      }

  -- The switch of BRSDIS.
  abbrev pub switch_rate : Bool → State → State
  switch_rate b s =
      if b then reg_clear chip i Reg.con con_brsdis s else reg_set chip i Reg.con con_brsdis s

  rate-IsConfiguring :
      (b : Bool) (s : State) → IsConfiguring chip i m s → IsConfiguring chip i m (switch_rate b s)
  rate-IsConfiguring true s c = clear-IsConfiguring con_brsdis s refl c
  rate-IsConfiguring false s c = set-IsConfiguring con_brsdis s (refl, refl, refl) c

  rate_words : (b : Bool) (q : Reg) (s : State) → Reg.con ≢ q → word q (switch_rate b s) ≡ word q s
  rate_words true q s n = clear_words chip i m con_brsdis q s n
  rate_words false q s n = set_words chip i m con_brsdis q s n

  rate_flag :
      (b : Bool) (f : Flag) (s : State)
      → IsConfiguring chip i m s
      → flag f (switch_rate b s) ≡ (
          if b
          then min (flag f s) (digit (position f) (complement chip con_brsdis))
          else max (flag f s) (digit (position f) con_brsdis))
  rate_flag true f s c = clear_flag chip i m con_brsdis f s c
  rate_flag false f s c = set_flag chip i m con_brsdis f s c

  -- The writes of `configure` to CxCON.
  abbrev pub switch_all : Bool → State → State
  switch_all b s =
      let s1 = reg_clear chip i Reg.con con_clksel s in
      let s2 = reg_set chip i Reg.con con_isocrcen s1 in
      let s4 = reg_clear chip i Reg.con con_stef (switch_rate b s2) in
      reg_set chip i Reg.con con_txqen s4

  pub record IsSwitched (brs : Bool) (s s' : State) : Type 0 where
    pub configuring : IsConfiguring chip i m s'
    pub words_are : (q : Reg) → Reg.con ≢ q → word q s' ≡ word q s
    pub clock : flag Flag.clksel s' ≡ 0
    pub crc : flag Flag.isocrcen s' ≡ 1
    pub rate : flag Flag.brsdis s' ≡ (if brs then 0 else 1)
    pub events : flag Flag.stef s' ≡ 0
    pub queue : flag Flag.txqen s' ≡ 1
    pub power : flag Flag.on s' ≡ flag Flag.on s

  one_bit : (f : Flag) (s : State) → flag f s ≤ 1
  one_bit f s = omega (arith, m.read_flag f s)

  abbrev lifted : ℕ → Flag → ℕ → ℕ
  lifted mask f d = max d (digit (position f) mask)

  pub switch_all-IsSwitched :
      (b : Bool) (s : State) → IsConfiguring chip i m s → IsSwitched b s (switch_all b s)
  switch_all-IsSwitched b s c =
      let s1 = reg_clear chip i Reg.con con_clksel s in
      let c1 = clear-IsConfiguring con_clksel s refl c in
      let s2 = reg_set chip i Reg.con con_isocrcen s1 in
      let c2 = set-IsConfiguring con_isocrcen s1 (refl, refl, refl) c1 in
      let s3 = switch_rate b s2 in
      let c3 = rate-IsConfiguring b s2 c2 in
      let s4 = reg_clear chip i Reg.con con_stef s3 in
      let c4 = clear-IsConfiguring con_stef s3 refl c3 in
      let early = λ (f : Flag).
        set_flag chip i m con_isocrcen f s1 c1
        ∙ ap (lifted con_isocrcen f) (clear_flag chip i m con_clksel f s c) in
      let late = λ (f : Flag).
        set_flag chip i m con_txqen f s4 c4
        ∙ ap (lifted con_txqen f) (clear_flag chip i m con_stef f s3 c3) in
      let rate = λ (f : Flag). rate_flag b f s2 c2 in
      record {
        configuring = set-IsConfiguring con_txqen s4 (refl, refl, refl) c4;
        words_are = λ q n.
            set_words chip i m con_txqen q s4 n
            ∙ clear_words chip i m con_stef q s3 n
            ∙ rate_words b q s2 n
            ∙ set_words chip i m con_isocrcen q s1 n
            ∙ clear_words chip i m con_clksel q s n;
        clock =
            ground
              (arith, late Flag.clksel, rate Flag.clksel, early Flag.clksel, one_bit Flag.clksel s);
        crc = ground (
          arith,
          late Flag.isocrcen,
          rate Flag.isocrcen,
          early Flag.isocrcen,
          one_bit Flag.isocrcen s,
        );
        rate =
            ground
              (arith, late Flag.brsdis, rate Flag.brsdis, early Flag.brsdis, one_bit Flag.brsdis s);
        events =
            ground (arith, late Flag.stef, rate Flag.stef, early Flag.stef, one_bit Flag.stef s);
        queue =
            ground
              (arith, late Flag.txqen, rate Flag.txqen, early Flag.txqen, one_bit Flag.txqen s);
        power = ground (arith, late Flag.on, rate Flag.on, early Flag.on, one_bit Flag.on s);
      }
