-- ===== src/Canfd/Isr.antt =====
-- The interrupt and event layer of src/hal_can/nora_canfd_isr_dspic33ak.c: its state, the CPU
-- interrupt lines, and the calls that set it up. A function pointer and a `void *` are numbers; of a
-- pointer that is NULL nothing else is known. An instance is a valid one here (Canfd.Device has the
-- look-up of any number), and a frame is not NULL.
pub mod Handler
pub mod Lines
pub mod Armed
pub mod Silence
pub mod Kept
pub mod Told
pub mod Report
pub mod Health
pub mod Transmit
pub mod Completion
pub mod Tests
use dspic33ak_can_cmsis_driv.Prelude.{ℕ, ◌^◌, Bool, true, false, not, Option, bit_or}
use dspic33ak_can_cmsis_driv.Prelude.{none, some, ltb, ◌==◌, if◌then◌else◌}
use dspic33ak_can_cmsis_driv.Canfd.{Instance, Status, is_ok, Frame}
use dspic33ak_can_cmsis_driv.Canfd.Chip.{Chip, Reg, reg_set, reg_clear}
use dspic33ak_can_cmsis_driv.Canfd.Node.{World, Run, trap, dry, done, set_at, is_none_mode}
use dspic33ak_can_cmsis_driv.Canfd.Node.Transfer.{nora_canfd_transmit}
use dspic33ak_can_cmsis_driv.Canfd.Registers.{
  fifocon_tfnrfnie, fifocon_rxovie, txqcon_txqeie, int_txie, int_rxie, int_rxovie, int_cerrie,
  int_ivmie,
}

-- The CPU interrupt lines of an instance: `_CxRX`, `_CxTX` and `_Cx`.
pub data Line : Type 0 where
  rx tx general : Line

-- `_CxRXIF`, `_CxRXIP` and `_CxRXIE`, and those of the two other lines.
pub record IrqBits : Type 0 where
  pub flag : Bool
  pub priority : ℕ
  pub enabled : Bool

-- The state of the layer, and the CPU lines that it writes.
pub record Events : Type 0 where
  pub g_cb : Instance → Option ℕ
  pub g_ud : Instance → ℕ
  pub g_tx_busy : Instance → Bool
  pub g_irq_priority : Instance → ℕ
  pub g_isr_enabled : Instance → Bool
  pub lines : Instance → Line → IrqBits

pub record System (S : Type 0) : Type 0 where
  pub node : World S
  pub isr : Events

abbrev pub same_line : Line → Line → Bool
same_line Line.rx Line.rx = true
same_line Line.tx Line.tx = true
same_line Line.general Line.general = true
same_line _ _ = false

-- A write to the registers.
abbrev pub on_chip : {S : Type 0} → (S → S) → System S → System S
on_chip f s = let w : World _ = s.node in record s { node = record w { chip = f w.chip } }

-- NORA_CANFD_ISR_DEFAULT_PRIORITY
abbrev pub isr_default_priority : ℕ
isr_default_priority = 4

-- `_C1RXIF = 0; _C1RXIP = priority; _C1RXIE = 1;`
abbrev pub switched_on : ℕ → IrqBits → IrqBits
switched_on p b = record { flag = false; priority = p; enabled = true }

-- `_C1RXIE = 0; _C1RXIF = 0;`
abbrev pub switched_off : IrqBits → IrqBits
switched_off b = record b { flag = false; enabled = false }

-- `_C1RXIF = 0;`
abbrev pub acknowledged : IrqBits → IrqBits
acknowledged b = record b { flag = false }

-- `has_line i l` where the part defines the symbols of the line, `#if defined(_C1RXIF)`.
module _ (has_line : Instance → Line → Bool) where
  -- The three bits of a line, if there are such.
  unfoldable pub set_line : Instance → Line → (IrqBits → IrqBits) → Events → Events
  set_line i l f e =
      let bits : Line → IrqBits = e.lines i in
      let row : Line → IrqBits = λ k. if same_line l k then f (bits k) else bits k in
      if has_line i l then record e { lines = set_at e.lines i row } else e

  unfoldable pub irq_line_enable : Instance → ℕ → Events → Events
  irq_line_enable i p e =
      let e1 : Events = record e { g_irq_priority = set_at e.g_irq_priority i p } in
      set_line i Line.general (switched_on p) (set_line i Line.rx (switched_on p) e1)

  unfoldable pub irq_line_disable : Instance → Events → Events
  irq_line_disable i e =
      set_line i Line.general switched_off
        (set_line i Line.tx switched_off (set_line i Line.rx switched_off e))

  unfoldable pub irq_line_clear : Instance → Events → Events
  irq_line_clear i e =
      set_line i Line.general acknowledged
        (set_line i Line.tx acknowledged (set_line i Line.rx acknowledged e))

  unfoldable pub irq_tx_line_enable : Instance → Events → Events
  irq_tx_line_enable i e = set_line i Line.tx (switched_on (e.g_irq_priority i)) e

  unfoldable pub irq_tx_line_disable : Instance → Events → Events
  irq_tx_line_disable i e = set_line i Line.tx switched_off e

  unfoldable pub nora_canfd_isr_set_callback : Instance → Option ℕ → ℕ → Events → Status × Events
  nora_canfd_isr_set_callback i callback user_data e =
      (Status.ok, record e { g_cb = set_at e.g_cb i callback; g_ud = set_at e.g_ud i user_data })

  unfoldable pub nora_canfd_tx_is_busy : Instance → Events → Bool
  nora_canfd_tx_is_busy i e = e.g_tx_busy i

  module _ (chip : Chip) where
    open chip use {State, present}

    -- The end of `nora_canfd_isr_enable`, from the first write on
    unfoldable pub enable_receive : Instance → ℕ → System State → System State
    unfolding irq_line_enable
    enable_receive i p s =
        let s1 = on_chip (reg_set chip i Reg.fifocon1 (bit_or fifocon_tfnrfnie fifocon_rxovie)) s in
        let s2 = on_chip (reg_set chip i Reg.int (bit_or int_rxie int_rxovie)) s1 in
        let e : Events = s2.isr in
        let e1 = irq_line_enable i p (record e { g_tx_busy = set_at e.g_tx_busy i false }) in
        record s2 { isr = record e1 { g_isr_enabled = set_at e1.g_isr_enabled i true } }

    unfoldable pub nora_canfd_isr_enable : Instance → ℕ → System State → Status × System State
    unfolding enable_receive
    nora_canfd_isr_enable i priority s =
        let p = if priority == 0 then isr_default_priority else priority in
        if ltb 7 p
        then (Status.err_invalid_arg, s)
        else if not (present i)
        then (Status.err_not_present, s)
        else if is_none_mode (s.node.g_mode i)
        then (Status.err_not_initialized, s)
        else (Status.ok, enable_receive i p s)

    -- NORA_CANFD_INT_TXIE, RXIE, RXOVIE, CERRIE and IVMIE
    abbrev pub int_enables : ℕ
    int_enables =
        bit_or (bit_or (bit_or (bit_or int_txie int_rxie) int_rxovie) int_cerrie) int_ivmie

    unfoldable pub nora_canfd_isr_disable : Instance → System State → Status × System State
    unfolding irq_line_disable
    nora_canfd_isr_disable i s =
        let e : Events = s.isr in
        let e1 = irq_line_disable i (record e { g_isr_enabled = set_at e.g_isr_enabled i false }) in
        let s1 = on_chip (reg_clear chip i Reg.int int_enables) (record s { isr = e1 }) in
        let s2 =
          on_chip (reg_clear chip i Reg.fifocon1 (bit_or fifocon_tfnrfnie fifocon_rxovie)) s1 in
        let s3 = on_chip (reg_clear chip i Reg.txqcon txqcon_txqeie) s2 in
        if not (present i)
        then (Status.err_not_present, s)
        else (Status.ok, record s3 { isr = record e1 { g_tx_busy = set_at e1.g_tx_busy i false } })

    -- `nora_canfd_tx_start` after its `nora_canfd_transmit`
    unfoldable pub arm_transmit : Instance → Status → System State → Status × System State
    unfolding irq_tx_line_enable
    arm_transmit i st s =
        let e : Events = s.isr in
        let busy : System State = record s {
          isr = record e { g_tx_busy = set_at e.g_tx_busy i true };
        } in
        let s1 = on_chip (reg_set chip i Reg.txqcon txqcon_txqeie) busy in
        let s2 = on_chip (reg_set chip i Reg.int int_txie) s1 in
        if not (is_ok st)
        then (st, s)
        else (Status.ok, record s2 { isr = irq_tx_line_enable i s2.isr })

    -- `none` if `nora_canfd_transmit` does not return.
    unfoldable pub nora_canfd_tx_start :
        ℕ → Instance → Frame → System State → Option (Status × System State)
    unfolding arm_transmit
    nora_canfd_tx_start fuel i f s =
        if not (present i)
        then some (Status.err_not_present, s)
        else if not (s.isr.g_isr_enabled i)
        then some (Status.err_sequence, s)
        else elim (nora_canfd_transmit chip fuel i f s.node) [
          | trap ↦ none
          | dry ↦ none
          | done st w ↦ some (arm_transmit i st (record s { node = w }))
        ]

    -- What `nora_canfd_tx_abort` and the completion of a transmit share.
    unfoldable pub disarm_transmit : Instance → System State → System State
    unfolding irq_tx_line_disable
    disarm_transmit i s =
        let s1 = on_chip (reg_clear chip i Reg.txqcon txqcon_txqeie) s in
        let s2 = on_chip (reg_clear chip i Reg.int int_txie) s1 in
        let e = irq_tx_line_disable i s2.isr in
        record s2 { isr = record e { g_tx_busy = set_at e.g_tx_busy i false } }

    unfoldable pub nora_canfd_tx_abort : Instance → System State → Status × System State
    unfolding disarm_transmit
    nora_canfd_tx_abort i s =
        if not (present i) then (Status.err_not_present, s) else (Status.ok, disarm_transmit i s)
