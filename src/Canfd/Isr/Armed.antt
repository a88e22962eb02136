-- ===== src/Canfd/Isr/Armed.antt =====
-- The event layer as a machine: its calls, the calls of the node, and interrupts, in any order. What
-- `g_isr_enabled` is for: an `nora_canfd_isr_disable` is not undone behind the caller's back.
use dspic33ak_can_cmsis_driv.Prelude.{
  ℕ, ◌≤◌, ◌≡◌, ◌⊎◌, inl, inr, refl, arith, subst, Bool, true, false, not, Option, none, some,
  if_holds, if◌then◌else◌, ltb, ◌==◌,
}
use dspic33ak_can_cmsis_driv.Canfd.{Instance, Status, is_ok, Frame}
use dspic33ak_can_cmsis_driv.Canfd.Chip.{Chip}
use dspic33ak_can_cmsis_driv.Canfd.Node.Transfer.{nora_canfd_transmit}
use dspic33ak_can_cmsis_driv.Canfd.Node.{
  Run, trap, dry, done, World, set_at, same_instance, is_none_mode,
}
use dspic33ak_can_cmsis_driv.Canfd.Isr.{Line, IrqBits, Events, System}
use dspic33ak_can_cmsis_driv.Canfd.Isr.{
  nora_canfd_isr_set_callback, nora_canfd_isr_enable, nora_canfd_isr_disable, nora_canfd_tx_start,
  nora_canfd_tx_abort, enable_receive, arm_transmit, disarm_transmit,
}
use dspic33ak_can_cmsis_driv.Canfd.Isr.{
  irq_tx_line_enable, irq_tx_line_disable, irq_line_clear, irq_line_disable,
}
use dspic33ak_can_cmsis_driv.Canfd.Isr.{set_line, acknowledged, switched_off}
use dspic33ak_can_cmsis_driv.Canfd.Isr.Lines.{IsGuarded, set_line-IsGuarded, set_line_keeps}
use dspic33ak_can_cmsis_driv.Canfd.Isr.Lines.{
  disable-IsGuarded, disable_keeps, enable-IsGuarded, enable_keeps,
}

module _ (has_line : Instance → Line → Bool) (chip : Chip) where
  open chip use {State, present}

  -- One call, of the layer or of the node, or a flag that the hardware raises. The node and the
  -- hardware may do anything to the node's state. `allowed` are the instances whose interrupts may
  -- be enabled.
  pub data Step (allowed : Instance → Bool) (s : System State) : System State → Type 0 where
    moves : (w : World State) → Step allowed s (record s { node = w })
    raises :
        (i : Instance) (l : Line)
        → Step allowed s
            (record s { isr = set_line has_line i l (λ b. record b { flag = true }) s.isr })
    registers :
        (i : Instance) (callback : Option ℕ) (user_data : ℕ)
        → Step allowed s
            (record s { isr = (nora_canfd_isr_set_callback has_line i callback user_data s.isr).1 })
    enables :
        (i : Instance) (priority : ℕ)
        → allowed i ≡ true
        → Step allowed s (nora_canfd_isr_enable has_line chip i priority s).1
    disables : (i : Instance) → Step allowed s (nora_canfd_isr_disable has_line chip i s).1
    starts :
        (fuel : ℕ) (i : Instance) (f : Frame) {st : Status} {t : System State}
        → nora_canfd_tx_start has_line chip fuel i f s ≡ some (st, t)
        → Step allowed s t
    aborts : (i : Instance) → Step allowed s (nora_canfd_tx_abort has_line chip i s).1

  pub data Steps (allowed : Instance → Bool) (s : System State) : System State → Type 0 where
    still : Steps allowed s s
    step : {t u : System State} → Steps allowed s t → Step allowed t u → Steps allowed s u

  -- What a callback may do: any sequence of calls.
  abbrev pub IsCallback :
      (Instance → Bool) → (ℕ → Instance → ℕ → ℕ → System State → System State) → Type 0
  IsCallback allowed invoke =
      (f : ℕ) (i : Instance) (events user_data : ℕ) (s : System State)
      → Steps allowed s (invoke f i events user_data s)

  -- The guard holds, and an instance that is not allowed is not enabled.
  pub record IsHeld (allowed : Instance → Bool) (e : Events) : Type 0 where
    pub guarded : IsGuarded has_line e
    pub held : (i : Instance) → (allowed i ≡ true) ⊎ (e.g_isr_enabled i ≡ false)

  module _ (allowed : Instance → Bool) where
    abbrev Kept : Status × System State → Type 0
    Kept r = IsHeld allowed r.1.isr

    set_line-IsHeld :
        (i : Instance) (l : Line) (f : IrqBits → IrqBits) (e : Events)
        → ((b : IrqBits)
            → ((f b).enabled ≡ false)
              ⊎ ((f b).enabled ≡ b.enabled) × ((f b).priority ≡ b.priority)
              ⊎ (e.g_isr_enabled i ≡ true) × (1 ≤ (f b).priority) × ((f b).priority ≤ 7))
        → IsHeld allowed e
        → IsHeld allowed (set_line has_line i l f e)
    set_line-IsHeld i l f e h v = record {
      guarded = set_line-IsGuarded has_line i l f e h v.guarded;
      held = λ j. ground (arith, v.held j, set_line_keeps has_line i l f e);
    }

    busy-IsHeld :
        (busy : Instance → Bool) (e : Events)
        → IsHeld allowed e
        → IsHeld allowed (record e { g_tx_busy = busy })
    busy-IsHeld busy e v = record {
      guarded = record { line = v.guarded.line; recorded = v.guarded.recorded };
      held = v.held;
    }

    enable_receive-IsHeld :
        (i : Instance) (p : ℕ) (s : System State)
        → allowed i ≡ true
        → 1 ≤ p
        → p ≤ 7
        → IsHeld allowed s.isr
        → IsHeld allowed (enable_receive has_line chip i p s).isr
    unfolding enable_receive
    enable_receive-IsHeld i p s a low high v =
        let e : Events = s.isr in
        let e0 : Events = record e { g_tx_busy = set_at e.g_tx_busy i false } in
        let v0 = busy-IsHeld e0.g_tx_busy e v in
        record {
          guarded = enable-IsGuarded has_line i p e0 low high v0.guarded;
          held = λ j. ground (arith, v.held j, enable_keeps has_line i p e0);
        }

    enable-IsHeld :
        (i : Instance) (p : ℕ) (s : System State)
        → allowed i ≡ true
        → IsHeld allowed s.isr
        → IsHeld allowed (nora_canfd_isr_enable has_line chip i p s).1.isr
    unfolding nora_canfd_isr_enable
    enable-IsHeld i p s a v =
        let q = if p == 0 then 4 else p in
        if_holds Kept (ltb 7 q) _ _ (λ _. v)
          λ fits.
            if_holds Kept (not (present i)) _ _ (λ _. v)
              λ _.
                if_holds Kept (is_none_mode (s.node.g_mode i)) _ _ (λ _. v)
                  λ _. enable_receive-IsHeld i q s a (ground arith) (ground arith) v

    -- The instance that is disabled may have been enabled before.
    shut-IsHeld :
        (i : Instance) (busy : Instance → Bool) (e : Events)
        → IsGuarded has_line e
        → ((j : Instance)
            → (same_instance i j ≡ true) ⊎ (allowed j ≡ true) ⊎ (e.g_isr_enabled j ≡ false))
        → let e0 : Events = record e { g_isr_enabled = set_at e.g_isr_enabled i false } in
          let e1 = irq_line_disable has_line i e0 in IsHeld allowed (record e1 { g_tx_busy = busy })
    shut-IsHeld i busy e g h =
        let e0 : Events = record e { g_isr_enabled = set_at e.g_isr_enabled i false } in
        busy-IsHeld busy _ (record {
          guarded = disable-IsGuarded has_line i e g;
          held = λ j. ground (arith, h j, disable_keeps has_line i e0);
        })

    disable-IsHeld :
        (i : Instance) (s : System State)
        → IsHeld allowed s.isr
        → IsHeld allowed (nora_canfd_isr_disable has_line chip i s).1.isr
    unfolding nora_canfd_isr_disable
    disable-IsHeld i s v =
        if_holds Kept (not (present i)) _ _ (λ _. v)
          (λ _. shut-IsHeld i _ s.isr v.guarded (λ j. inr (v.held j)))

    pub disabled-IsHeld :
        (i : Instance) (s : System State)
        → present i ≡ true
        → IsGuarded has_line s.isr
        → ((j : Instance)
            → (same_instance i j ≡ true) ⊎ (allowed j ≡ true) ⊎ (s.isr.g_isr_enabled j ≡ false))
        → IsHeld allowed (nora_canfd_isr_disable has_line chip i s).1.isr
    unfolding nora_canfd_isr_disable
    disabled-IsHeld i s there g h = rw there (shut-IsHeld i _ s.isr g h)

    arm-IsHeld :
        (i : Instance) (st : Status) (s : System State)
        → s.isr.g_isr_enabled i ≡ true
        → IsHeld allowed s.isr
        → IsHeld allowed (arm_transmit has_line chip i st s).1.isr
    unfolding arm_transmit irq_tx_line_enable
    arm-IsHeld i st s on v =
        if_holds Kept (not (is_ok st)) _ _ (λ _. v)
          λ _.
            set_line-IsHeld i Line.tx _ _ (λ b. ground (arith, on, v.guarded.recorded i))
              (busy-IsHeld _ s.isr v)

    -- If the call returns, what it leaves is held.
    abbrev HeldIfEnds : Option (Status × System State) → Type 0
    HeldIfEnds none = Unit {0}
    HeldIfEnds (some (st, t)) = IsHeld allowed t.isr

    transmitted-IsHeld :
        (i : Instance) (s : System State) (r : Run State)
        → s.isr.g_isr_enabled i ≡ true
        → IsHeld allowed s.isr
        → HeldIfEnds (elim r [
          | trap ↦ none
          | dry ↦ none
          | done st w ↦ some (arm_transmit has_line chip i st (record s { node = w }))
        ])
    transmitted-IsHeld i s trap on v = tt
    transmitted-IsHeld i s dry on v = tt
    transmitted-IsHeld i s (done st w) on v = arm-IsHeld i st (record s { node = w }) on v

    start-IsHeld :
        (fuel : ℕ) (i : Instance) (f : Frame) (s : System State)
        → IsHeld allowed s.isr
        → HeldIfEnds (nora_canfd_tx_start has_line chip fuel i f s)
    unfolding nora_canfd_tx_start
    start-IsHeld fuel i f s v =
        if_holds HeldIfEnds (not (present i)) _ _ (λ _. v)
          λ _.
            if_holds HeldIfEnds (not (s.isr.g_isr_enabled i)) _ _ (λ _. v)
              λ on.
                transmitted-IsHeld i s (nora_canfd_transmit chip fuel i f s.node) (ground arith) v

    pub disarm-IsHeld :
        (i : Instance) (s : System State)
        → IsHeld allowed s.isr
        → IsHeld allowed (disarm_transmit has_line chip i s).isr
    unfolding disarm_transmit irq_tx_line_disable
    disarm-IsHeld i s v =
        busy-IsHeld _ _ (set_line-IsHeld i Line.tx switched_off s.isr (λ b. inl refl) v)

    pub clear-IsHeld :
        (i : Instance) (e : Events)
        → IsHeld allowed e
        → IsHeld allowed (irq_line_clear has_line i e)
    unfolding irq_line_clear
    clear-IsHeld i e v =
        set_line-IsHeld i Line.general acknowledged _ (λ b. inr (inl (refl, refl)))
          (set_line-IsHeld i Line.tx acknowledged _ (λ b. inr (inl (refl, refl)))
            (set_line-IsHeld i Line.rx acknowledged e (λ b. inr (inl (refl, refl))) v))

    pub Step-IsHeld :
        {s t : System State} → Step allowed s t → IsHeld allowed s.isr → IsHeld allowed t.isr
    unfolding nora_canfd_isr_set_callback nora_canfd_tx_abort
    Step-IsHeld (moves w) v = v
    Step-IsHeld {s} (raises i l) v = set_line-IsHeld i l _ s.isr (λ b. inr (inl (refl, refl))) v
    Step-IsHeld (registers i callback user_data) v = record {
      guarded = record { line = v.guarded.line; recorded = v.guarded.recorded };
      held = v.held;
    }
    Step-IsHeld {s} (enables i p a) v = enable-IsHeld i p s a v
    Step-IsHeld {s} (disables i) v = disable-IsHeld i s v
    Step-IsHeld {s} (starts fuel i f e) v = subst HeldIfEnds e (start-IsHeld fuel i f s v)
    Step-IsHeld {s} (aborts i) v =
        if_holds Kept (not (present i)) _ _ (λ _. v) λ _. disarm-IsHeld i s v

    pub Steps-IsHeld :
        {s t : System State} → Steps allowed s t → IsHeld allowed s.isr → IsHeld allowed t.isr
    Steps-IsHeld still v = v
    Steps-IsHeld (step r m) v = Step-IsHeld m (Steps-IsHeld r v)
