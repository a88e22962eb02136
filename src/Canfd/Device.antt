-- ===== src/Canfd/Device.antt =====
-- The device map of src/hal_can/nora_canfd_device_dspic33ak.c and the look-up of an instance in
-- src/hal_can/nora_canfd_common_dspic33ak.c. The instance that a caller passes is any number here, as
-- the C code casts the enum.
pub mod Apart
pub mod Gate
pub mod Tests
use dspic33ak_can_cmsis_driv.Prelude.{ℕ, zero, suc, Bool, true, false, not, Option, none, some, ltb}
use dspic33ak_can_cmsis_driv.Prelude.{if◌then◌else◌}
use dspic33ak_can_cmsis_driv.Canfd.{Instance, Status, Mode}
use dspic33ak_can_cmsis_driv.Canfd.Node.{set_at, is_none_mode}

-- The special function registers that the compiler's device header defines.
pub data Sfr : Type 0 where
  c1con c1nbtcfg c1dbtcfg c1tdc c1fifoba c1txqcon c1txqsta c1txqua : Sfr
  c1fifocon1 c1fifosta1 c1fifoua1 c1fltcon0 c1fltobj0 c1mask0 c1int c1trec : Sfr
  c2con c2nbtcfg c2dbtcfg c2tdc c2fifoba c2txqcon c2txqsta c2txqua : Sfr
  c2fifocon1 c2fifosta1 c2fifoua1 c2fltcon0 c2fltobj0 c2mask0 c2int c2trec : Sfr

-- `nora_canfd_regs_t`: the addresses of the registers.
pub record Regs : Type 0 where
  pub con : ℕ
  pub nbtcfg : ℕ
  pub dbtcfg : ℕ
  pub tdc : ℕ
  pub fifoba : ℕ
  pub txqcon : ℕ
  pub txqsta : ℕ
  pub txqua : ℕ
  pub fifocon1 : ℕ
  pub fifosta1 : ℕ
  pub fifoua1 : ℕ
  pub fltcon0 : ℕ
  pub fltobj0 : ℕ
  pub mask0 : ℕ
  pub int : ℕ
  pub trec : ℕ

-- `nora_canfd_device_t`
pub record Device : Type 0 where
  pub present : Bool
  pub regs : Regs

-- `{ .present = false }`: what is not named is 0.
abbrev no_regs : Regs
no_regs = record {
  con = 0;
  nbtcfg = 0;
  dbtcfg = 0;
  tdc = 0;
  fifoba = 0;
  txqcon = 0;
  txqsta = 0;
  txqua = 0;
  fifocon1 = 0;
  fifosta1 = 0;
  fifoua1 = 0;
  fltcon0 = 0;
  fltobj0 = 0;
  mask0 = 0;
  int = 0;
  trec = 0;
}

-- NORA_CANFD_INST_COUNT
abbrev pub inst_count : ℕ
inst_count = 2

abbrev pub nora_canfd_inst_is_valid : ℕ → Bool
nora_canfd_inst_is_valid inst = ltb inst inst_count

-- The entry of an array of two.
abbrev pub instance_of : ℕ → Option Instance
instance_of zero = some Instance.inst_1
instance_of (suc zero) = some Instance.inst_2
instance_of (suc (suc n)) = none

-- The part: where its registers are, which of C1CON and C2CON it defines, and which of _C1MD and
-- _C2MD.
pub record Part : Type 0 where
  pub address : Sfr → ℕ
  pub defines_con : Instance → Bool
  pub defines_md : Instance → Bool

module _ (part : Part) where
  open part use {address, defines_con, defines_md}

  unfoldable pub g_canfd_devices : Instance → Device
  g_canfd_devices Instance.inst_1 =
      if defines_con Instance.inst_1
      then record {
        present = true;
        regs = record {
          con = address Sfr.c1con;
          nbtcfg = address Sfr.c1nbtcfg;
          dbtcfg = address Sfr.c1dbtcfg;
          tdc = address Sfr.c1tdc;
          fifoba = address Sfr.c1fifoba;
          txqcon = address Sfr.c1txqcon;
          txqsta = address Sfr.c1txqsta;
          txqua = address Sfr.c1txqua;
          fifocon1 = address Sfr.c1fifocon1;
          fifosta1 = address Sfr.c1fifosta1;
          fifoua1 = address Sfr.c1fifoua1;
          fltcon0 = address Sfr.c1fltcon0;
          fltobj0 = address Sfr.c1fltobj0;
          mask0 = address Sfr.c1mask0;
          int = address Sfr.c1int;
          trec = address Sfr.c1trec;
        };
      }
      else record { present = false; regs = no_regs }
  g_canfd_devices Instance.inst_2 =
      if defines_con Instance.inst_2
      then record {
        present = true;
        regs = record {
          con = address Sfr.c2con;
          nbtcfg = address Sfr.c2nbtcfg;
          dbtcfg = address Sfr.c2dbtcfg;
          tdc = address Sfr.c2tdc;
          fifoba = address Sfr.c2fifoba;
          txqcon = address Sfr.c2txqcon;
          txqsta = address Sfr.c2txqsta;
          txqua = address Sfr.c2txqua;
          fifocon1 = address Sfr.c2fifocon1;
          fifosta1 = address Sfr.c2fifosta1;
          fifoua1 = address Sfr.c2fifoua1;
          fltcon0 = address Sfr.c2fltcon0;
          fltobj0 = address Sfr.c2fltobj0;
          mask0 = address Sfr.c2mask0;
          int = address Sfr.c2int;
          trec = address Sfr.c2trec;
        };
      }
      else record { present = false; regs = no_regs }

  -- NULL is `none`.
  unfoldable pub nora_canfd_get_device : ℕ → Option Device
  unfolding g_canfd_devices
  nora_canfd_get_device inst = elim (instance_of inst) [
    | none ↦ none
    | some i ↦ let d : Device = g_canfd_devices i in if not d.present then none else some d
  ]

  unfoldable pub nora_canfd_instance_is_present : ℕ → Bool
  unfolding nora_canfd_get_device
  nora_canfd_instance_is_present inst = elim (nora_canfd_get_device inst) [
    | none ↦ false
    | some _ ↦ true
  ]

  -- `regs` is not NULL; it is written only where the result is OK.
  unfoldable pub nora_canfd_get_regs : ℕ → Status × Option Regs
  unfolding nora_canfd_get_device
  nora_canfd_get_regs inst =
      if not (nora_canfd_inst_is_valid inst)
      then (Status.err_invalid_arg, none)
      else elim (nora_canfd_get_device inst) [
        | none ↦ (Status.err_not_present, none)
        | some d ↦ (Status.ok, some d.regs)
      ]

  -- The bits `_CxMD`, which switch the module off.
  unfoldable pub nora_canfd_module_enable :
      ℕ → Bool → (Instance → Bool) → Status × (Instance → Bool)
  unfolding nora_canfd_get_device
  nora_canfd_module_enable inst enable md =
      if not (nora_canfd_inst_is_valid inst)
      then (Status.err_invalid_arg, md)
      else elim (nora_canfd_get_device inst) [
        | none ↦ (Status.err_not_present, md)
        | some d ↦ elim (instance_of inst) [
          | none ↦ (Status.err_unsupported, md)
          | some i ↦
              if defines_md i
              then (Status.ok, set_at md i (not enable))
              else (Status.err_unsupported, md)
        ]
      ]

-- `nora_canfd_set_mode`, `nora_canfd_get_mode` and `nora_canfd_is_initialized`
unfoldable pub nora_canfd_set_mode : ℕ → Mode → (Instance → Mode) → Instance → Mode
nora_canfd_set_mode inst mode g_mode = elim (instance_of inst) [
  | none ↦ g_mode
  | some i ↦ set_at g_mode i mode
]

unfoldable pub nora_canfd_get_mode : ℕ → (Instance → Mode) → Mode
nora_canfd_get_mode inst g_mode = elim (instance_of inst) [ none ↦ Mode.none | some i ↦ g_mode i ]

unfoldable pub nora_canfd_is_initialized : ℕ → (Instance → Mode) → Bool
unfolding nora_canfd_get_mode
nora_canfd_is_initialized inst g_mode = not (is_none_mode (nora_canfd_get_mode inst g_mode))
