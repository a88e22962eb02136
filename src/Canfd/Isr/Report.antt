-- ===== src/Canfd/Isr/Report.antt =====
-- What `nora_canfd_irq_handler` reports.
use dspic33ak_can_cmsis_driv.Prelude.{
  ℕ, ◌≡◌, refl, ap, ap₂, ◌∙◌, Bool, true, false, not, ◌&&◌, none, some, if_holds, ◌==◌,
  if◌then◌else◌,
}
use dspic33ak_can_cmsis_driv.Canfd.{Instance}
use dspic33ak_can_cmsis_driv.Canfd.Chip.{Chip, Reg, reg_clear}
use dspic33ak_can_cmsis_driv.Canfd.Node.{set_at}
use dspic33ak_can_cmsis_driv.Canfd.Isr.{
  Line, Events, System, disarm_transmit, irq_line_clear, irq_tx_line_disable,
}
use dspic33ak_can_cmsis_driv.Canfd.Isr.Handler.{
  is_up, fetch_reg, serve_overflow, serve_transmit, collect, notify, nora_canfd_irq_handler,
}
use dspic33ak_can_cmsis_driv.Canfd.Registers.{
  txqcon_txqeie, fifosta_rxovif, txqsta_txqeif, int_txif, int_rxovif, int_txie, int_clr_mask,
}
use dspic33ak_can_cmsis_driv.Canfd.Isr.Told.{IsTold, events_of-IsTold}

-- The registers that the handler writes.
abbrev pub is_handled : Reg → Bool
is_handled Reg.fifosta1 = true
is_handled Reg.txqcon = true
is_handled Reg.int = true
is_handled _ = false

-- The registers that a write of the handler to another leaves. CxINT is never among them, since RXIF,
-- TXIF and RXOVIF are roll-ups that follow the flags and enables of the FIFOs; nor is CxTXQSTA after a
-- write of CxTXQCON.
abbrev pub is_left : Reg → Reg → Bool
is_left Reg.fifosta1 Reg.txqsta = true
is_left Reg.fifosta1 Reg.trec = true
is_left Reg.txqcon Reg.trec = true
is_left Reg.int Reg.trec = true
is_left _ _ = false

-- The module stands still while its interrupt is handled: a register has a value, reads leave all
-- values, a write of FIFOSTA1 leaves those of TXQSTA and TREC, and one of TXQCON or INT that of TREC.
pub record IsStill (chip : Chip) : Type 0 where
  pub value : Instance → Reg → chip.State → ℕ
  pub read_value : (i : Instance) (r : Reg) (s : chip.State) → (chip.read i r s).0 ≡ value i r s
  pub read_still :
      (i : Instance) (r : Reg) (j : Instance) (q : Reg) (s : chip.State)
      → value j q (chip.read i r s).1 ≡ value j q s
  pub write_still :
      (i : Instance) (r : Reg) (v : ℕ) (j : Instance) (q : Reg) (s : chip.State)
      → is_left r q ≡ true
      → value j q (chip.write i r v s) ≡ value j q s

module _ (has_line : Instance → Line → Bool) (chip : Chip) (still : IsStill chip) where
  open chip use {State, present}
  open still use {value}

  reg_clear_still :
      (i : Instance) (r : Reg) (mask : ℕ) (j : Instance) (q : Reg) (s : State)
      → is_left r q ≡ true
      → value j q (reg_clear chip i r mask s) ≡ value j q s
  unfolding reg_clear
  reg_clear_still i r mask j q s h = still.write_still i r _ j q _ h ∙ still.read_still i r j q s

  -- The value of a register in a state of the layer.
  abbrev pub reg : Instance → Reg → System State → ℕ
  reg i r s = value i r s.node.chip

  overflow_still :
      (i : Instance) (intf : ℕ) (q : Reg) (s : System State)
      → is_left Reg.fifosta1 q ≡ true
      → reg i q (serve_overflow has_line chip i intf s) ≡ reg i q s
  unfolding serve_overflow
  overflow_still i intf q s h =
      if_holds (λ t. reg i q t ≡ reg i q s) (is_up intf int_rxovif) _ s
        (λ _. reg_clear_still i Reg.fifosta1 fifosta_rxovif i q s.node.chip h) (λ _. refl)

  disarm_still :
      (i : Instance) (s : System State)
      → reg i Reg.trec (disarm_transmit has_line chip i s) ≡ reg i Reg.trec s
  unfolding disarm_transmit
  disarm_still i s =
      reg_clear_still i Reg.int int_txie i Reg.trec _ refl
      ∙ reg_clear_still i Reg.txqcon txqcon_txqeie i Reg.trec _ refl

  transmit_still :
      (i : Instance) (intf : ℕ) (s : System State)
      → reg i Reg.trec (serve_transmit has_line chip i intf s).1 ≡ reg i Reg.trec s
  unfolding serve_transmit
  transmit_still i intf s =
      let Same : System State → Type 0 = λ t. reg i Reg.trec t ≡ reg i Reg.trec s in
      let (sta, s1) = fetch_reg chip i Reg.txqsta s in
      let s2 = if is_up intf int_txif then s1 else s in
      let read : Same s2 =
        if_holds Same (is_up intf int_txif) s1 s
          (λ _. still.read_still i Reg.txqsta i Reg.trec s.node.chip) (λ _. refl) in
      if_holds Same (is_up intf int_txif && is_up sta txqsta_txqeif) _ s2
        (λ _. disarm_still i s2 ∙ read) (λ _. read)

  -- TXIF and TXQEIF are set.
  abbrev pub completes : Instance → System State → Bool
  completes i s = is_up (reg i Reg.int s) int_txif && is_up (reg i Reg.txqsta s) txqsta_txqeif

  -- The words that the handler reads are the values before it.
  collect_intf :
      (i : Instance) (s : System State) → (fetch_reg chip i Reg.int s).0 ≡ reg i Reg.int s
  collect_intf i s = still.read_value i Reg.int s.node.chip

  collect_sta :
      (i : Instance) (s : System State)
      → let (intf, s1) = fetch_reg chip i Reg.int s in
        (fetch_reg chip i Reg.txqsta (serve_overflow has_line chip i intf s1)).0
        ≡ reg i Reg.txqsta s
  collect_sta i s =
      let (intf, s1) = fetch_reg chip i Reg.int s in
      still.read_value i Reg.txqsta (serve_overflow has_line chip i intf s1).node.chip
      ∙ overflow_still i intf Reg.txqsta s1 refl
      ∙ still.read_still i Reg.int i Reg.txqsta s.node.chip

  collect_completes :
      (i : Instance) (s : System State)
      → let (intf, s1) = fetch_reg chip i Reg.int s in
        (serve_transmit has_line chip i intf (serve_overflow has_line chip i intf s1)).0
        ≡ completes i s
  unfolding serve_transmit
  collect_completes i s =
      ap₂ (λ v a. is_up v int_txif && is_up a txqsta_txqeif) (collect_intf i s) (collect_sta i s)

  pub collect-IsTold :
      (i : Instance) (s : System State)
      → IsTold
          (reg i Reg.int s)
          (reg i Reg.txqsta s)
          (reg i Reg.trec s)
          (collect has_line chip i s).0
  unfolding collect serve_transmit
  collect-IsTold i s =
      let (intf, s1) = fetch_reg chip i Reg.int s in
      let s2 = serve_overflow has_line chip i intf s1 in
      let (complete, s3) = serve_transmit has_line chip i intf s2 in
      let (sta, _) = fetch_reg chip i Reg.txqsta s2 in
      let s4 : State = reg_clear chip i Reg.int int_clr_mask s3.node.chip in
      let (trec, _) = chip.read i Reg.trec s4 in
      let trec_value : trec ≡ reg i Reg.trec s =
        still.read_value i Reg.trec s4
        ∙ reg_clear_still i Reg.int _ i Reg.trec s3.node.chip refl
        ∙ transmit_still i intf s2
        ∙ overflow_still i intf Reg.trec s1 refl
        ∙ still.read_still i Reg.int i Reg.trec s.node.chip in
      events_of-IsTold intf sta trec (collect_intf i s) (collect_sta i s) trec_value

  -- The state of the layer after a transmit.
  abbrev pub completed : Instance → Events → Events
  completed i e =
      let e1 = irq_tx_line_disable has_line i e in
      record e1 { g_tx_busy = set_at e1.g_tx_busy i false }

  if-isr :
      (b : Bool) (x y : System State) {e f : Events}
      → x.isr ≡ e
      → y.isr ≡ f
      → (if b then x else y).isr ≡ (if b then e else f)
  if-isr true x y h k = h
  if-isr false x y h k = k

  same-if :
      (b : Bool) (x y : System State) {e : Events}
      → x.isr ≡ e
      → y.isr ≡ e
      → (if b then x else y).isr ≡ e
  same-if true x y h k = h
  same-if false x y h k = k

  transmit_isr :
      (i : Instance) (intf : ℕ) (s : System State)
      → (serve_transmit has_line chip i intf s).1.isr
        ≡ (if (serve_transmit has_line chip i intf s).0 then completed i s.isr else s.isr)
  unfolding serve_transmit disarm_transmit
  transmit_isr i intf s =
      let (sta, s1) = fetch_reg chip i Reg.txqsta s in
      let s2 = if is_up intf int_txif then s1 else s in
      let kept : s2.isr ≡ s.isr = same-if (is_up intf int_txif) s1 s refl refl in
      if-isr (is_up intf int_txif && is_up sta txqsta_txqeif) _ s2 (ap (completed i) kept) kept

  overflow_isr :
      (i : Instance) (intf : ℕ) (s : System State)
      → (serve_overflow has_line chip i intf s).isr ≡ s.isr
  unfolding serve_overflow
  overflow_isr i intf s = same-if (is_up intf int_rxovif) _ s refl refl

  pub collect_isr :
      (i : Instance) (s : System State)
      → (collect has_line chip i s).1.isr ≡ (if completes i s then completed i s.isr else s.isr)
  unfolding collect
  collect_isr i s =
      let (intf, s1) = fetch_reg chip i Reg.int s in
      let s2 = serve_overflow has_line chip i intf s1 in
      let choose : Bool → Events → Events = λ b e. if b then completed i e else e in
      transmit_isr i intf s2
      ∙ ap (λ e. choose (serve_transmit has_line chip i intf s2).0 e) (overflow_isr i intf s1)
      ∙ ap (λ b. choose b s.isr) (collect_completes i s)

  module _ (invoke : ℕ → Instance → ℕ → ℕ → System State → System State) where
    -- `irq_line_clear(inst);`
    abbrev pub cleared : Instance → System State → System State
    cleared i t = record t { isr = irq_line_clear has_line i t.isr }

    -- While the module stands still (reads change no register, and writes of the handler change neither
    -- TREC nor, those of FIFOSTA1, TXQSTA), `nora_canfd_irq_handler` of an instance that is present calls the
    -- callback exactly if there is one and an event, once and with exactly the events that INT, TXQSTA
    -- and TREC told before it, and then clears the CPU flags. Before the callback the layer is as it
    -- was, or, where the transmit queue has run empty, with the transmit line off and not busy.
    pub handler_reports :
        (i : Instance) (s : System State)
        → present i ≡ true
        → (events : ℕ) × (s1 : System State) × IsTold
            (reg i Reg.int s)
            (reg i Reg.txqsta s)
            (reg i Reg.trec s)
            events
          × (s1.isr ≡ (if completes i s then completed i s.isr else s.isr))
          × (nora_canfd_irq_handler has_line chip invoke i s
              ≡ cleared i (
                  if not (events == 0)
                  then elim (s1.isr.g_cb i) [
                    | none ↦ s1
                    | some f ↦ invoke f i events (s1.isr.g_ud i) s1
                  ]
                  else s1))
    unfolding nora_canfd_irq_handler notify
    handler_reports i s there =
        let (events, s1) = collect has_line chip i s in
        (events, s1, collect-IsTold i s, collect_isr i s, rw there refl)
