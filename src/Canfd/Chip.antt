-- ===== src/Canfd/Chip.antt =====
-- What the HAL reaches of the hardware: the registers of an instance in
-- src/hal_can/nora_canfd_dspic33ak_reg.h, the words of the message RAM, and the tick function of the
-- application. A read, too, leaves a new state, since the module runs between the accesses.
use dspic33ak_can_cmsis_driv.Prelude.{ℕ, ◌-◌, ◌^◌, Bool, bit_and, bit_or}
use dspic33ak_can_cmsis_driv.Canfd.{Instance}

-- The fields of `nora_canfd_regs_t` that the node and the event layer use.
pub data Reg : Type 0 where
  con nbtcfg dbtcfg tdc fifoba txqcon txqsta txqua fifocon1 fifosta1 fifoua1 : Reg
  fltcon0 fltobj0 mask0 int trec : Reg

pub record Chip : Type 1 where
  pub State : Type 0
  -- Whether the part defines the registers of an instance.
  pub present : Instance → Bool
  pub read : Instance → Reg → State → ℕ × State
  pub write : Instance → Reg → ℕ → State → State
  -- The word at an address.
  pub load : ℕ → State → ℕ × State
  pub store : ℕ → ℕ → State → State
  -- The function that `get_ms` points at.
  pub now : State → ℕ × State

module _ (chip : Chip) where
  open chip use {State, read, write}

  -- `~mask`
  abbrev pub complement : ℕ → ℕ
  complement mask = 2 ^ 32 - 1 - mask

  unfoldable pub reg_set : Instance → Reg → ℕ → State → State
  reg_set i r mask s = let (v, s') = read i r s in write i r (bit_or v mask) s'

  unfoldable pub reg_clear : Instance → Reg → ℕ → State → State
  reg_clear i r mask s = let (v, s') = read i r s in write i r (bit_and v (complement mask)) s'

  unfoldable pub reg_write_field : Instance → Reg → ℕ → ℕ → State → State
  reg_write_field i r mask value s =
      let (v, s') = read i r s in
      write i r (bit_or (bit_and v (complement mask)) (bit_and value mask)) s'
