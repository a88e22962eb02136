-- ===== src/Canfd/Isr/Completion.antt =====
-- The end of a transmit that `nora_canfd_tx_start` began.
use dspic33ak_can_cmsis_driv.Prelude.{
  ℕ, ◌≡◌, ap, ◌∙◌, arith, Bool, true, false, not, none, some, ◌==◌, if◌then◌else◌,
}
use dspic33ak_can_cmsis_driv.Canfd.{Instance}
use dspic33ak_can_cmsis_driv.Canfd.Chip.{Chip}
use dspic33ak_can_cmsis_driv.Canfd.Node.Outcome.{set_at_same}
use dspic33ak_can_cmsis_driv.Canfd.{event_tx_complete}
use dspic33ak_can_cmsis_driv.Canfd.Isr.{Line, System, nora_canfd_tx_is_busy, switched_off}
use dspic33ak_can_cmsis_driv.Canfd.Isr.{irq_tx_line_disable}
use dspic33ak_can_cmsis_driv.Canfd.Isr.Handler.{is_up, nora_canfd_irq_handler}
use dspic33ak_can_cmsis_driv.Canfd.Isr.Lines.{set_line_lines, set_line_keeps}
use dspic33ak_can_cmsis_driv.Canfd.Isr.Report.{
  IsStill, completes, completed, cleared, handler_reports,
}

module _ (has_line : Instance → Line → Bool) (chip : Chip) (still : IsStill chip)
    (invoke : ℕ → Instance → ℕ → ℕ → System chip.State → System chip.State) where
  open chip use {State, present}

  -- Not busy, the transmit line off, and the callback as it was.
  pub record IsCompleted (i : Instance) (s s1 : System State) : Type 0 where
    pub idle : nora_canfd_tx_is_busy has_line i s1.isr ≡ false
    pub line_off : has_line i Line.tx ≡ true → (s1.isr.lines i Line.tx).enabled ≡ false
    pub callback : s1.isr.g_cb i ≡ s.isr.g_cb i

  completed-IsCompleted :
      (i : Instance) (s s1 : System State)
      → s1.isr ≡ completed has_line chip still i s.isr
      → IsCompleted i s s1
  unfolding irq_tx_line_disable nora_canfd_tx_is_busy
  completed-IsCompleted i s s1 e =
      let keeps = set_line_keeps has_line i Line.tx switched_off s.isr in
      let line = set_line_lines has_line i Line.tx switched_off s.isr i Line.tx in
      let e1 = irq_tx_line_disable has_line i s.isr in
      record {
        idle = ground (arith, e, set_at_same e1.g_tx_busy i false);
        line_off = λ there. ground (arith, e, line, there);
        callback = ground (arith, e, keeps);
      }

  -- While the module stands still (reads change no register, and writes of the handler change neither
  -- TREC nor, those of FIFOSTA1, TXQSTA), with TXIF and the flag of the empty queue set on an instance that is
  -- present, `nora_canfd_irq_handler` calls the callback, if there is one, with TX_COMPLETE among the
  -- events, and then clears the CPU flags. When the callback is called, the instance is no longer busy
  -- and its transmit line is off.
  pub transmit_completes :
      (i : Instance) (s : System State)
      → present i ≡ true
      → completes has_line chip still i s ≡ true
      → (events : ℕ) × (s1 : System State) × (is_up events event_tx_complete ≡ true)
        × IsCompleted i s s1
        × (nora_canfd_irq_handler has_line chip invoke i s
            ≡ cleared has_line chip still invoke i (elim (s1.isr.g_cb i) [
              | none ↦ s1
              | some f ↦ invoke f i events (s1.isr.g_ud i) s1
            ]))
  transmit_completes i s there done =
      let (events, s1, told, isr, run) = handler_reports has_line chip still invoke i s there in
      let raised : is_up events event_tx_complete ≡ true = told.tx_bit ∙ done in
      let after : s1.isr ≡ completed has_line chip still i s.isr =
        isr ∙ ap (λ b. if b then completed has_line chip still i s.isr else s.isr) done in
      let some_event : not (events == 0) ≡ true = ground (arith, raised) in
      let called : System State = elim (s1.isr.g_cb i) [
        | none ↦ s1
        | some f ↦ invoke f i events (s1.isr.g_ud i) s1
      ] in
      let calls =
        ap (λ b. cleared has_line chip still invoke i (if b then called else s1)) some_event in
      (events, s1, raised, completed-IsCompleted i s s1 after, run ∙ calls)
