-- ===== src/Canfd/Device/Apart.antt =====
-- No register of the device map stands for another.
use dspic33ak_can_cmsis_driv.Prelude.{ℕ, ◌≡◌, sym, ap, ◌∙◌, arith, true, some}
use dspic33ak_can_cmsis_driv.Canfd.{Instance, Status}
use dspic33ak_can_cmsis_driv.Canfd.Chip.{Reg}
use dspic33ak_can_cmsis_driv.Canfd.Device.{Sfr, Regs, Part, instance_of}
use dspic33ak_can_cmsis_driv.Canfd.Device.{g_canfd_devices, nora_canfd_get_device}
use dspic33ak_can_cmsis_driv.Canfd.Device.{nora_canfd_get_regs}

-- `regs->CON` and so on.
abbrev pub register : Reg → Regs → ℕ
register Reg.con regs = regs.con
register Reg.nbtcfg regs = regs.nbtcfg
register Reg.dbtcfg regs = regs.dbtcfg
register Reg.tdc regs = regs.tdc
register Reg.fifoba regs = regs.fifoba
register Reg.txqcon regs = regs.txqcon
register Reg.txqsta regs = regs.txqsta
register Reg.txqua regs = regs.txqua
register Reg.fifocon1 regs = regs.fifocon1
register Reg.fifosta1 regs = regs.fifosta1
register Reg.fifoua1 regs = regs.fifoua1
register Reg.fltcon0 regs = regs.fltcon0
register Reg.fltobj0 regs = regs.fltobj0
register Reg.mask0 regs = regs.mask0
register Reg.int regs = regs.int
register Reg.trec regs = regs.trec

-- The register and the instance that the name of a symbol says.
abbrev said : Sfr → Instance × Reg
said Sfr.c1con = (Instance.inst_1, Reg.con)
said Sfr.c1nbtcfg = (Instance.inst_1, Reg.nbtcfg)
said Sfr.c1dbtcfg = (Instance.inst_1, Reg.dbtcfg)
said Sfr.c1tdc = (Instance.inst_1, Reg.tdc)
said Sfr.c1fifoba = (Instance.inst_1, Reg.fifoba)
said Sfr.c1txqcon = (Instance.inst_1, Reg.txqcon)
said Sfr.c1txqsta = (Instance.inst_1, Reg.txqsta)
said Sfr.c1txqua = (Instance.inst_1, Reg.txqua)
said Sfr.c1fifocon1 = (Instance.inst_1, Reg.fifocon1)
said Sfr.c1fifosta1 = (Instance.inst_1, Reg.fifosta1)
said Sfr.c1fifoua1 = (Instance.inst_1, Reg.fifoua1)
said Sfr.c1fltcon0 = (Instance.inst_1, Reg.fltcon0)
said Sfr.c1fltobj0 = (Instance.inst_1, Reg.fltobj0)
said Sfr.c1mask0 = (Instance.inst_1, Reg.mask0)
said Sfr.c1int = (Instance.inst_1, Reg.int)
said Sfr.c1trec = (Instance.inst_1, Reg.trec)
said Sfr.c2con = (Instance.inst_2, Reg.con)
said Sfr.c2nbtcfg = (Instance.inst_2, Reg.nbtcfg)
said Sfr.c2dbtcfg = (Instance.inst_2, Reg.dbtcfg)
said Sfr.c2tdc = (Instance.inst_2, Reg.tdc)
said Sfr.c2fifoba = (Instance.inst_2, Reg.fifoba)
said Sfr.c2txqcon = (Instance.inst_2, Reg.txqcon)
said Sfr.c2txqsta = (Instance.inst_2, Reg.txqsta)
said Sfr.c2txqua = (Instance.inst_2, Reg.txqua)
said Sfr.c2fifocon1 = (Instance.inst_2, Reg.fifocon1)
said Sfr.c2fifosta1 = (Instance.inst_2, Reg.fifosta1)
said Sfr.c2fifoua1 = (Instance.inst_2, Reg.fifoua1)
said Sfr.c2fltcon0 = (Instance.inst_2, Reg.fltcon0)
said Sfr.c2fltobj0 = (Instance.inst_2, Reg.fltobj0)
said Sfr.c2mask0 = (Instance.inst_2, Reg.mask0)
said Sfr.c2int = (Instance.inst_2, Reg.int)
said Sfr.c2trec = (Instance.inst_2, Reg.trec)

abbrev symbol : Instance → Reg → Sfr
symbol Instance.inst_1 Reg.con = Sfr.c1con
symbol Instance.inst_1 Reg.nbtcfg = Sfr.c1nbtcfg
symbol Instance.inst_1 Reg.dbtcfg = Sfr.c1dbtcfg
symbol Instance.inst_1 Reg.tdc = Sfr.c1tdc
symbol Instance.inst_1 Reg.fifoba = Sfr.c1fifoba
symbol Instance.inst_1 Reg.txqcon = Sfr.c1txqcon
symbol Instance.inst_1 Reg.txqsta = Sfr.c1txqsta
symbol Instance.inst_1 Reg.txqua = Sfr.c1txqua
symbol Instance.inst_1 Reg.fifocon1 = Sfr.c1fifocon1
symbol Instance.inst_1 Reg.fifosta1 = Sfr.c1fifosta1
symbol Instance.inst_1 Reg.fifoua1 = Sfr.c1fifoua1
symbol Instance.inst_1 Reg.fltcon0 = Sfr.c1fltcon0
symbol Instance.inst_1 Reg.fltobj0 = Sfr.c1fltobj0
symbol Instance.inst_1 Reg.mask0 = Sfr.c1mask0
symbol Instance.inst_1 Reg.int = Sfr.c1int
symbol Instance.inst_1 Reg.trec = Sfr.c1trec
symbol Instance.inst_2 Reg.con = Sfr.c2con
symbol Instance.inst_2 Reg.nbtcfg = Sfr.c2nbtcfg
symbol Instance.inst_2 Reg.dbtcfg = Sfr.c2dbtcfg
symbol Instance.inst_2 Reg.tdc = Sfr.c2tdc
symbol Instance.inst_2 Reg.fifoba = Sfr.c2fifoba
symbol Instance.inst_2 Reg.txqcon = Sfr.c2txqcon
symbol Instance.inst_2 Reg.txqsta = Sfr.c2txqsta
symbol Instance.inst_2 Reg.txqua = Sfr.c2txqua
symbol Instance.inst_2 Reg.fifocon1 = Sfr.c2fifocon1
symbol Instance.inst_2 Reg.fifosta1 = Sfr.c2fifosta1
symbol Instance.inst_2 Reg.fifoua1 = Sfr.c2fifoua1
symbol Instance.inst_2 Reg.fltcon0 = Sfr.c2fltcon0
symbol Instance.inst_2 Reg.fltobj0 = Sfr.c2fltobj0
symbol Instance.inst_2 Reg.mask0 = Sfr.c2mask0
symbol Instance.inst_2 Reg.int = Sfr.c2int
symbol Instance.inst_2 Reg.trec = Sfr.c2trec

said-symbol : (i : Instance) (r : Reg) → said (symbol i r) ≡ (i, r)
said-symbol i r = ground arith

abbrev number : Instance → ℕ
number Instance.inst_1 = 0
number Instance.inst_2 = 1

instance_of-number : (n : ℕ) (i : Instance) → instance_of n ≡ some i → n ≡ number i
instance_of-number n i e = ground arith

module _ (part : Part) where
  registered :
      (i : Instance) (r : Reg)
      → part.defines_con i ≡ true
      → register r (g_canfd_devices part i).regs ≡ part.address (symbol i r)
  unfolding g_canfd_devices
  registered i r d = ground (arith, d)

  -- An instance whose registers are got is one that the part defines.
  got :
      (n : ℕ) (a : Regs)
      → nora_canfd_get_regs part n ≡ (Status.ok, some a)
      → (i : Instance) × (instance_of n ≡ some i)
        × (part.defines_con i ≡ true)
        × (a ≡ (g_canfd_devices part i).regs)
  unfolding nora_canfd_get_regs nora_canfd_get_device g_canfd_devices
  got n a e = ground arith

  -- If the symbols that the part defines have addresses of their own, the pointers that
  -- `nora_canfd_get_regs` gives for two instances, or two fields of one, never meet: of two that are
  -- equal, the instance and the field are the same.
  pub registers_apart :
      ((x y : Sfr) → part.address x ≡ part.address y → x ≡ y)
      → (n m : ℕ) (a b : Regs) (r q : Reg) → nora_canfd_get_regs part n ≡ (Status.ok, some a)
      → nora_canfd_get_regs part m ≡ (Status.ok, some b)
      → register r a ≡ register q b
      → (n ≡ m) × (r ≡ q)
  registers_apart own n m a b r q e f meet =
      let (i, ni, di, ai) = got n a e in
      let (j, mj, dj, bj) = got m b f in
      let here : register r a ≡ part.address (symbol i r) =
        ap (register r) ai ∙ registered i r di in
      let there : register q b ≡ part.address (symbol j q) =
        ap (register q) bj ∙ registered j q dj in
      let same = own (symbol i r) (symbol j q) (sym here ∙ meet ∙ there) in
      let both : (i, r) ≡ (j, q) = sym (said-symbol i r) ∙ ap said same ∙ said-symbol j q in
      (
        instance_of-number n i ni
            ∙ ap (λ (p : Instance × Reg). number p.0) both
            ∙ sym (instance_of-number m j mj),
        ap (λ (p : Instance × Reg). p.1) both,
      )
