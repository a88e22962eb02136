-- ===== src/Canfd/Isr/Handler.antt =====
-- `nora_canfd_irq_handler`, `nora_canfd_get_status` and `nora_canfd_clear_rx_overflow` of
-- src/hal_can/nora_canfd_isr_dspic33ak.c.
use dspic33ak_can_cmsis_driv.Prelude.{ℕ, Bool, not, ◌&&◌, Option}
use dspic33ak_can_cmsis_driv.Prelude.{none, some, ◌==◌, if◌then◌else◌, bit_and, bit_or}
use dspic33ak_can_cmsis_driv.Prelude.Bits.{shr, u8}
use dspic33ak_can_cmsis_driv.Canfd.{Instance, Status, BusStatus}
use dspic33ak_can_cmsis_driv.Canfd.{
  event_tx_complete, event_rx_available, event_bus_error, event_bus_off, event_rx_overflow,
  event_invalid_msg,
}
use dspic33ak_can_cmsis_driv.Canfd.Chip.{Chip, Reg, reg_clear}
use dspic33ak_can_cmsis_driv.Canfd.Node.{World}
use dspic33ak_can_cmsis_driv.Canfd.Isr.{Line, System, irq_line_clear, on_chip}
use dspic33ak_can_cmsis_driv.Canfd.Isr.{disarm_transmit}
use dspic33ak_can_cmsis_driv.Canfd.Registers.{
  fifosta_rxovif, txqsta_txqeif, int_txif, int_rxif, int_rxovif, int_cerrif, int_ivmif,
  int_clr_mask, trec_rerrcnt_pos, trec_rerrcnt_mask, trec_terrcnt_pos, trec_terrcnt_mask,
  trec_ewarn, trec_rxbp, trec_txbp, trec_txbo,
}

-- `(word & mask) != 0u`
abbrev pub is_up : ℕ → ℕ → Bool
is_up word mask = not (bit_and word mask == 0)

-- `if (raised) { events |= event; }`
abbrev pub with_event : Bool → ℕ → ℕ → ℕ
with_event raised event events = if raised then bit_or events event else events

-- `*reg`, with the layer's state alongside.
abbrev pub fetch_reg : (chip : Chip) → Instance → Reg → System chip.State → ℕ × System chip.State
fetch_reg chip i r s =
    let w : World chip.State = s.node in
    let (v, c) = chip.read i r w.chip in (v, record s { node = record w { chip = c } })

module _ (has_line : Instance → Line → Bool) (chip : Chip) where
  open chip use {State, present}

  -- The `if` of RXOVIF
  unfoldable pub serve_overflow : Instance → ℕ → System State → System State
  serve_overflow i intf s =
      if is_up intf int_rxovif then on_chip (reg_clear chip i Reg.fifosta1 fifosta_rxovif) s else s

  -- The `if` of TXIF: whether the transmit is complete, and the state. TXQSTA is read only where
  -- TXIF is set.
  unfoldable pub serve_transmit : Instance → ℕ → System State → Bool × System State
  unfolding disarm_transmit
  serve_transmit i intf s =
      let (sta, s1) = fetch_reg chip i Reg.txqsta s in
      let complete = is_up intf int_txif && is_up sta txqsta_txqeif in
      let s2 = if is_up intf int_txif then s1 else s in
      (complete, if complete then disarm_transmit has_line chip i s2 else s2)

  -- The handler up to the callback, on an instance that is present: the events, and the state.
  unfoldable pub collect : Instance → System State → ℕ × System State
  unfolding serve_overflow serve_transmit
  collect i s =
      let (intf, s1) = fetch_reg chip i Reg.int s in
      let ev1 = with_event (is_up intf int_rxif) event_rx_available 0 in
      let ev2 = with_event (is_up intf int_rxovif) event_rx_overflow ev1 in
      let s2 = serve_overflow i intf s1 in
      let (complete, s3) = serve_transmit i intf s2 in
      let ev3 = with_event complete event_tx_complete ev2 in
      let ev4 = with_event (is_up intf int_cerrif) event_bus_error ev3 in
      let ev5 = with_event (is_up intf int_ivmif) event_invalid_msg ev4 in
      let s4 = on_chip (reg_clear chip i Reg.int int_clr_mask) s3 in
      let (trec, s5) = fetch_reg chip i Reg.trec s4 in
      (with_event (is_up trec trec_txbo) event_bus_off ev5, s5)

  -- `invoke f i events ud` is what a call of the function at the pointer `f` does.
  module _ (invoke : ℕ → Instance → ℕ → ℕ → System State → System State) where
    -- `if (events != 0u && g_cb[inst] != NULL) { g_cb[inst](inst, events, g_ud[inst]); }`
    unfoldable pub notify : Instance → ℕ → System State → System State
    notify i events s =
        if not (events == 0)
        then elim (s.isr.g_cb i) [ none ↦ s | some f ↦ invoke f i events (s.isr.g_ud i) s ]
        else s

    unfoldable pub nora_canfd_irq_handler : Instance → System State → System State
    unfolding collect notify
    nora_canfd_irq_handler i s =
        let (events, s1) = collect i s in
        let t : System State = if not (present i) then s else notify i events s1 in
        record t { isr = irq_line_clear has_line i t.isr }

  -- `status` is not NULL; it is not written on an error.
  unfoldable pub nora_canfd_get_status :
      Instance → System State → Status × Option BusStatus × System State
  nora_canfd_get_status i s =
      let (t, s1) = fetch_reg chip i Reg.trec s in
      let (sta, s2) = fetch_reg chip i Reg.fifosta1 s1 in
      if not (present i) then (Status.err_not_present, none, s) else (
        Status.ok,
        some (record {
          rx_err_count = u8 (shr (bit_and t trec_rerrcnt_mask) trec_rerrcnt_pos);
          tx_err_count = u8 (shr (bit_and t trec_terrcnt_mask) trec_terrcnt_pos);
          error_warning = is_up t trec_ewarn;
          error_passive = is_up t (bit_or trec_txbp trec_rxbp);
          bus_off = is_up t trec_txbo;
          rx_overflow = is_up sta fifosta_rxovif;
        }),
        s2,
      )

  unfoldable pub nora_canfd_clear_rx_overflow : Instance → System State → Status × System State
  nora_canfd_clear_rx_overflow i s =
      if not (present i)
      then (Status.err_not_present, s)
      else (Status.ok, on_chip (reg_clear chip i Reg.fifosta1 fifosta_rxovif) s)
