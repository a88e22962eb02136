-- ===== src/Canfd/Isr/Transmit.antt =====
-- `nora_canfd_isr_enable`, `nora_canfd_tx_start` and `nora_canfd_tx_abort`: what each leaves of the
-- layer, on every branch.
use dspic33ak_can_cmsis_driv.Prelude.{
  ℕ, ◌≤◌, ◌≡◌, ◌⊎◌, inl, inr, refl, arith, Bool, true, false, not, Option, none, some, if_holds,
}
use dspic33ak_can_cmsis_driv.Prelude.{ltb, ◌==◌, if◌then◌else◌}
use dspic33ak_can_cmsis_driv.Canfd.{Instance, Status, is_ok, Frame}
use dspic33ak_can_cmsis_driv.Canfd.Chip.{Chip}
use dspic33ak_can_cmsis_driv.Canfd.Node.{Run, trap, dry, done, set_at, is_none_mode}
use dspic33ak_can_cmsis_driv.Canfd.Node.Transfer.{nora_canfd_transmit}
use dspic33ak_can_cmsis_driv.Canfd.Node.Outcome.{set_at_same}
use dspic33ak_can_cmsis_driv.Canfd.Isr.{Line, IrqBits, Events, System, switched_on}
use dspic33ak_can_cmsis_driv.Canfd.Isr.{
  nora_canfd_isr_enable, enable_receive, irq_line_enable, set_line,
}
use dspic33ak_can_cmsis_driv.Canfd.Isr.{nora_canfd_tx_start, arm_transmit, irq_tx_line_enable}
use dspic33ak_can_cmsis_driv.Canfd.Isr.{isr_default_priority}
use dspic33ak_can_cmsis_driv.Canfd.Isr.Lines.{set_line_lines, set_line_keeps, enable_keeps}

module _ (has_line : Instance → Line → Bool) (chip : Chip) where
  open chip use {State, present}

  -- A line of the instance after a write, where the part has it.
  abbrev pub written : Instance → Line → IrqBits → Events → IrqBits
  written i l b e = if has_line i l then b else e.lines i l

  -- The layer enabled: both lines of the receiver on at the priority, the transmit line as it was.
  pub record IsEnabled (i : Instance) (p : ℕ) (e e' : Events) : Type 0 where
    pub enabled : e'.g_isr_enabled i ≡ true
    pub idle : e'.g_tx_busy i ≡ false
    pub receive_line : e'.lines i Line.rx ≡ written i Line.rx (switched_on p (e.lines i Line.rx)) e
    pub general_line :
        e'.lines i Line.general ≡ written i Line.general (switched_on p (e.lines i Line.general)) e
    pub transmit_line : e'.lines i Line.tx ≡ e.lines i Line.tx

  enable_lines :
      (i : Instance) (p : ℕ) (e : Events) (k : Line)
      → (irq_line_enable has_line i p e).lines i k
        ≡ (elim k [ Line.tx ↦ e.lines i Line.tx | k ↦ written i k (switched_on p (e.lines i k)) e ])
  unfolding irq_line_enable
  enable_lines i p e k =
      let e0 : Events = record e { g_irq_priority = set_at e.g_irq_priority i p } in
      let e1 = set_line has_line i Line.rx (switched_on p) e0 in
      ground (
        arith,
        set_line_lines has_line i Line.rx (switched_on p) e0 i k,
        set_line_lines has_line i Line.general (switched_on p) e1 i k,
      )

  enable_receive-IsEnabled :
      (i : Instance) (p : ℕ) (s : System State)
      → IsEnabled i p s.isr (enable_receive has_line chip i p s).isr
  unfolding enable_receive
  enable_receive-IsEnabled i p s =
      let e : Events = s.isr in
      let e0 : Events = record e { g_tx_busy = set_at e.g_tx_busy i false } in
      let e1 = irq_line_enable has_line i p e0 in
      record {
        enabled = set_at_same e1.g_isr_enabled i true;
        idle = ground (arith, enable_keeps has_line i p e0, set_at_same e.g_tx_busy i false);
        receive_line = enable_lines i p e0 Line.rx;
        general_line = enable_lines i p e0 Line.general;
        transmit_line = enable_lines i p e0 Line.tx;
      }

  -- An error, and nothing is changed; or OK, and the layer is enabled.
  abbrev pub IsEnabling : Instance → ℕ → System State → Status × System State → Type 0
  IsEnabling i priority s (st, s') =
      (st ≡ Status.err_invalid_arg) × (8 ≤ priority) × (s' ≡ s)
      ⊎ (st ≡ Status.err_not_present) × (priority ≤ 7) × (present i ≡ false) × (s' ≡ s)
      ⊎ (st ≡ Status.err_not_initialized)
        × (priority ≤ 7)
        × (present i ≡ true)
        × (is_none_mode (s.node.g_mode i) ≡ true)
        × (s' ≡ s)
      ⊎ (st ≡ Status.ok)
        × (priority ≤ 7)
        × (present i ≡ true)
        × (is_none_mode (s.node.g_mode i) ≡ false)
        × IsEnabled i (if priority == 0 then 4 else priority) s.isr s'.isr

  -- `nora_canfd_isr_enable` returns ERR_INVALID_ARG for a priority above 7, else ERR_NOT_PRESENT for an
  -- instance without registers, else ERR_NOT_INITIALIZED for one in no mode, and then changes nothing.
  -- Otherwise, and only then, it returns OK, the layer of the instance is enabled and not busy, its receive and general
  -- lines are enabled at the priority, or at 4 for 0, and its transmit line is as it was.
  pub isr_enable-IsEnabling :
      (i : Instance) (priority : ℕ) (s : System State)
      → IsEnabling i priority s (nora_canfd_isr_enable has_line chip i priority s)
  unfolding nora_canfd_isr_enable
  isr_enable-IsEnabling i priority s =
      let P = IsEnabling i priority s in
      let q = if priority == 0 then isr_default_priority else priority in
      if_holds P (ltb 7 q) _ _ (λ large. inl (refl, ground arith, refl))
        λ fits.
          if_holds P (not (present i)) _ _
            (λ gone. inr (inl (refl, ground arith, ground arith, refl)))
            λ there.
              if_holds P (is_none_mode (s.node.g_mode i)) _ _
                (λ off. inr (inr (inl (refl, ground arith, ground arith, off, refl))))
                (λ on. inr (
                  inr (inr (refl, ground arith, ground arith, on, enable_receive-IsEnabled i q s))))

  -- A transmit started: busy, and the transmit line on at the recorded priority.
  pub record IsStarted (i : Instance) (e e' : Events) : Type 0 where
    pub busy : e'.g_tx_busy i ≡ true
    pub transmit_line :
        e'.lines i Line.tx
        ≡ written i Line.tx (switched_on (e.g_irq_priority i) (e.lines i Line.tx)) e
    pub enabled : e'.g_isr_enabled ≡ e.g_isr_enabled

  -- `nora_canfd_tx_start`: an error, which leaves the layer as it was, or OK and a transmit started.
  abbrev pub IsStarting : Instance → Events → Option (Status × System State) → Type 0
  IsStarting i e none = Unit {0}
  IsStarting i e (some (st, s')) =
      (is_ok st ≡ false) × (s'.isr ≡ e)
      ⊎ (st ≡ Status.ok) × (e.g_isr_enabled i ≡ true) × IsStarted i e s'.isr

  arm-IsStarting :
      (i : Instance) (st : Status) (s : System State)
      → s.isr.g_isr_enabled i ≡ true
      → IsStarting i s.isr (some (arm_transmit has_line chip i st s))
  unfolding arm_transmit irq_tx_line_enable
  arm-IsStarting i st s on =
      let e : Events = s.isr in
      let e0 : Events = record e { g_tx_busy = set_at e.g_tx_busy i true } in
      let on_line = switched_on (e.g_irq_priority i) in
      let keeps = set_line_keeps has_line i Line.tx on_line e0 in
      let lines = set_line_lines has_line i Line.tx on_line e0 i Line.tx in
      if_holds (λ r. IsStarting i e (some r)) (not (is_ok st)) _ _ (λ bad. inl (ground arith, refl))
        (λ _. inr (
          refl,
          on,
          record {
            busy = ground (arith, keeps, set_at_same e.g_tx_busy i true);
            transmit_line = ground (arith, lines);
            enabled = ground (arith, keeps);
          },
        ))

  transmitted-IsStarting :
      (i : Instance) (s : System State) (r : Run State)
      → s.isr.g_isr_enabled i ≡ true
      → IsStarting i s.isr (elim r [
        | trap ↦ none
        | dry ↦ none
        | done st w ↦ some (arm_transmit has_line chip i st (record s { node = w }))
      ])
  transmitted-IsStarting i s trap on = tt
  transmitted-IsStarting i s dry on = tt
  transmitted-IsStarting i s (done st w) on = arm-IsStarting i st (record s { node = w }) on

  -- If `nora_canfd_tx_start` returns, it returns an error and leaves the layer as it was; or OK, only
  -- where the layer is enabled, and then the instance is busy and its transmit line enabled at the
  -- priority recorded last.
  pub tx_start-IsStarting :
      (fuel : ℕ) (i : Instance) (f : Frame) (s : System State)
      → IsStarting i s.isr (nora_canfd_tx_start has_line chip fuel i f s)
  unfolding nora_canfd_tx_start
  tx_start-IsStarting fuel i f s =
      if_holds (IsStarting i s.isr) (not (present i)) _ _ (λ _. inl (refl, refl))
        λ _.
          if_holds (IsStarting i s.isr) (not (s.isr.g_isr_enabled i)) _ _ (λ _. inl (refl, refl))
            λ on.
              transmitted-IsStarting i s (nora_canfd_transmit chip fuel i f s.node) (ground arith)
