-- ===== src/Canfd/Isr/Silence.antt =====
-- Interrupts come in between the calls of the event layer. After `nora_canfd_isr_disable` none of the
-- instance comes, and no transmit is started, until `nora_canfd_isr_enable` is called for it.
use dspic33ak_can_cmsis_driv.Prelude.{
  ℕ, ◌≡◌, inl, refl, arith, Bool, true, false, not, ◌&&◌, Option, none, some, if_holds, ◌==◌,
  if◌then◌else◌,
}
use dspic33ak_can_cmsis_driv.Canfd.{Instance, Status, Frame}
use dspic33ak_can_cmsis_driv.Canfd.Chip.{Chip, Reg}
use dspic33ak_can_cmsis_driv.Canfd.Node.{same_instance}
use dspic33ak_can_cmsis_driv.Canfd.Isr.{Line, System, nora_canfd_isr_disable, nora_canfd_tx_start}
use dspic33ak_can_cmsis_driv.Canfd.Isr.Handler.{nora_canfd_irq_handler, collect, notify, fetch_reg}
use dspic33ak_can_cmsis_driv.Canfd.Isr.Handler.{serve_overflow, serve_transmit, is_up}
use dspic33ak_can_cmsis_driv.Canfd.Isr.Lines.{IsGuarded}
use dspic33ak_can_cmsis_driv.Canfd.Isr.Armed.{Step, IsCallback, IsHeld, Steps-IsHeld, Step-IsHeld}
use dspic33ak_can_cmsis_driv.Canfd.Isr.Armed.{clear-IsHeld, disarm-IsHeld, disabled-IsHeld}
use dspic33ak_can_cmsis_driv.Canfd.Registers.{txqsta_txqeif, int_txif, int_rxovif}

module _ (has_line : Instance → Line → Bool) (chip : Chip)
    (invoke : ℕ → Instance → ℕ → ℕ → System chip.State → System chip.State) where
  open chip use {State, present}

  -- Calls, and interrupts of lines that are flagged and enabled, in any order.
  pub data Reach (allowed : Instance → Bool) (s : System State) : System State → Type 0 where
    here : Reach allowed s s
    call :
        {t u : System State}
        → Reach allowed s t
        → Step has_line chip allowed t u
        → Reach allowed s u
    interrupt :
        {t : System State} (i : Instance) (l : Line)
        → Reach allowed s t
        → (t.isr.lines i l).flag ≡ true
        → (t.isr.lines i l).enabled ≡ true
        → Reach allowed s (nora_canfd_irq_handler has_line chip invoke i t)

  module _ (allowed : Instance → Bool) (calls : IsCallback has_line chip allowed invoke) where
    abbrev Held : System State → Type 0
    Held s = IsHeld has_line chip allowed s.isr

    notify-IsHeld :
        (i : Instance) (events : ℕ) (s : System State)
        → Held s
        → Held (notify has_line chip invoke i events s)
    unfolding notify
    notify-IsHeld i events s v =
        if_holds Held (not (events == 0)) _ _ (λ _. called (s.isr.g_cb i)) (λ _. v)
      where
        called :
            (cb : Option ℕ)
            → Held (elim cb [ none ↦ s | some f ↦ invoke f i events (s.isr.g_ud i) s ])
        called none = v
        called (some f) = Steps-IsHeld has_line chip allowed (calls f i events (s.isr.g_ud i) s) v

    overflow-IsHeld :
        (i : Instance) (intf : ℕ) (s : System State)
        → Held s
        → Held (serve_overflow has_line chip i intf s)
    unfolding serve_overflow
    overflow-IsHeld i intf s v = if_holds Held (is_up intf int_rxovif) _ _ (λ _. v) (λ _. v)

    transmit-IsHeld :
        (i : Instance) (intf : ℕ) (s : System State)
        → Held s
        → Held (serve_transmit has_line chip i intf s).1
    unfolding serve_transmit
    transmit-IsHeld i intf s v =
        let (sta, s1) = fetch_reg chip i Reg.txqsta s in
        let s2 = if is_up intf int_txif then s1 else s in
        let v2 = if_holds Held (is_up intf int_txif) s1 s (λ _. v) (λ _. v) in
        if_holds Held (is_up intf int_txif && is_up sta txqsta_txqeif) _ _
          (λ _. disarm-IsHeld has_line chip allowed i s2 v2) (λ _. v2)

    collect-IsHeld : (i : Instance) (s : System State) → Held s → Held (collect has_line chip i s).1
    unfolding collect
    collect-IsHeld i s v =
        let (intf, s1) = fetch_reg chip i Reg.int s in
        transmit-IsHeld i intf _ (overflow-IsHeld i intf s1 v)

    handler-IsHeld :
        (i : Instance) (s : System State)
        → Held s
        → Held (nora_canfd_irq_handler has_line chip invoke i s)
    unfolding nora_canfd_irq_handler
    handler-IsHeld i s v =
        let (events, s1) = collect has_line chip i s in
        let t = if not (present i) then s else notify has_line chip invoke i events s1 in
        clear-IsHeld has_line chip allowed i t.isr (
          if_holds Held (not (present i)) _ _ (λ _. v)
            (λ _. notify-IsHeld i events s1 (collect-IsHeld i s v)))

    Reach-IsHeld : {s t : System State} → Reach allowed s t → Held s → Held t
    Reach-IsHeld here v = v
    Reach-IsHeld (call r m) v = Step-IsHeld has_line chip allowed m (Reach-IsHeld r v)
    Reach-IsHeld (interrupt i l r flag on) v = handler-IsHeld i _ (Reach-IsHeld r v)

  -- The instance's interrupts are off, and a transmit with interrupts is refused.
  pub record IsSilent (i : Instance) (s : System State) : Type 0 where
    pub lines_off : (l : Line) → (s.isr.lines i l).enabled ≡ false
    pub start_refused :
        (fuel : ℕ) (f : Frame)
        → nora_canfd_tx_start has_line chip fuel i f s ≡ some (Status.err_sequence, s)

  abbrev pub all_but : Instance → Instance → Bool
  all_but i j = not (same_instance i j)

  held-IsSilent :
      (i : Instance) (s : System State)
      → present i ≡ true
      → IsHeld has_line chip (all_but i) s.isr
      → IsSilent i s
  unfolding nora_canfd_tx_start
  held-IsSilent i s there v = record {
    lines_off = λ l. ground (arith, v.held i, v.guarded.line i l);
    start_refused = λ fuel f. ground (arith, v.held i);
  }

  -- From a state where the guard holds (a CPU line is enabled only on an instance whose event layer is
  -- enabled, where the part has the line, and with a priority from 1 to 7; and where the layer is
  -- enabled, the priority recorded is from 1 to 7), `nora_canfd_isr_disable` of an instance that is present is
  -- followed by any calls of the layer and of the node, changes of the hardware and interrupts, with
  -- callbacks that make such calls, but no `nora_canfd_isr_enable` of the instance. Then all its CPU
  -- lines are disabled, and `nora_canfd_tx_start` returns ERR_SEQUENCE and changes nothing.
  pub Reach-IsSilent :
      (i : Instance) (s t : System State)
      → present i ≡ true
      → IsCallback has_line chip (all_but i) invoke
      → IsGuarded has_line s.isr
      → Reach (all_but i) (nora_canfd_isr_disable has_line chip i s).1 t
      → IsSilent i t
  Reach-IsSilent i s t there calls g r = held-IsSilent i t there (
      Reach-IsHeld (all_but i) calls r
        (disabled-IsHeld has_line chip (all_but i) i s there g (λ j. ground arith)))

  -- In every state that calls, hardware and interrupts reach from one where the guard holds, with
  -- callbacks that make such calls, the guard holds: a CPU line is enabled only on an instance whose
  -- event layer is enabled, where the part has the line, and with a priority from 1 to 7; and where
  -- the event layer is enabled, the priority recorded for the instance is from 1 to 7.
  pub Reach-IsGuarded :
      (s t : System State)
      → IsCallback has_line chip (λ _. true) invoke
      → IsGuarded has_line s.isr
      → Reach (λ _. true) s t
      → IsGuarded has_line t.isr
  Reach-IsGuarded s t calls g r =
      (Reach-IsHeld (λ _. true) calls r (record { guarded = g; held = λ j. inl refl })).guarded
