-- ===== src/Canfd/Isr/Lines.antt =====
-- The CPU lines: what writes of them leave, and when one may be enabled.
use dspic33ak_can_cmsis_driv.Prelude.{
  ℕ, ◌≤◌, ◌≡◌, ◌⊎◌, arith, Bool, true, false, ◌&&◌, if◌then◌else◌,
}
use dspic33ak_can_cmsis_driv.Canfd.{Instance}
use dspic33ak_can_cmsis_driv.Canfd.Node.{set_at, same_instance}
use dspic33ak_can_cmsis_driv.Canfd.Isr.{Line, IrqBits, Events, same_line}
use dspic33ak_can_cmsis_driv.Canfd.Isr.{set_line}
use dspic33ak_can_cmsis_driv.Canfd.Isr.{
  irq_line_enable, irq_line_disable, switched_on, switched_off,
}

module _ (has_line : Instance → Line → Bool) where
  pub set_line_lines :
      (i : Instance) (l : Line) (f : IrqBits → IrqBits) (e : Events) (j : Instance) (k : Line)
      → (set_line has_line i l f e).lines j k ≡ (
          if has_line i l && (same_instance i j && same_line l k)
          then f (e.lines j k)
          else e.lines j k)
  unfolding set_line
  set_line_lines Instance.inst_1 l f e Instance.inst_1 k = ground arith
  set_line_lines Instance.inst_1 l f e Instance.inst_2 k = ground arith
  set_line_lines Instance.inst_2 l f e Instance.inst_1 k = ground arith
  set_line_lines Instance.inst_2 l f e Instance.inst_2 k = ground arith

  pub set_line_keeps :
      (i : Instance) (l : Line) (f : IrqBits → IrqBits) (e : Events)
      → ((set_line has_line i l f e).g_isr_enabled ≡ e.g_isr_enabled)
        × ((set_line has_line i l f e).g_irq_priority ≡ e.g_irq_priority)
        × ((set_line has_line i l f e).g_cb ≡ e.g_cb)
        × ((set_line has_line i l f e).g_tx_busy ≡ e.g_tx_busy)
  unfolding set_line
  set_line_keeps i l f e = ground arith

  -- A line is off, or the part has it, the layer is enabled and the priority is one of a CPU.
  abbrev pub IsGuardedLine : Events → Instance → Line → Type 0
  IsGuardedLine e i l =
      ((e.lines i l).enabled ≡ false)
      ⊎ (has_line i l ≡ true)
        × (e.g_isr_enabled i ≡ true)
        × (1 ≤ (e.lines i l).priority)
        × ((e.lines i l).priority ≤ 7)

  pub record IsGuarded (e : Events) : Type 0 where
    pub line : (i : Instance) (l : Line) → IsGuardedLine e i l
    pub recorded :
        (i : Instance)
        → (e.g_isr_enabled i ≡ false) ⊎ (1 ≤ e.g_irq_priority i) × (e.g_irq_priority i ≤ 7)

  pub set_line-IsGuarded :
      (i : Instance) (l : Line) (f : IrqBits → IrqBits) (e : Events)
      → ((b : IrqBits)
          → ((f b).enabled ≡ false)
            ⊎ ((f b).enabled ≡ b.enabled) × ((f b).priority ≡ b.priority)
            ⊎ (e.g_isr_enabled i ≡ true) × (1 ≤ (f b).priority) × ((f b).priority ≤ 7))
      → IsGuarded e
      → IsGuarded (set_line has_line i l f e)
  set_line-IsGuarded i l f e h g = record {
    line = λ j k.
        ground
          (arith, set_line_lines i l f e j k, set_line_keeps i l f e, h (e.lines j k), g.line j k);
    recorded = λ j. ground (arith, set_line_keeps i l f e, g.recorded j);
  }

  disable_lines :
      (i : Instance) (e : Events) (j : Instance) (k : Line)
      → (irq_line_disable has_line i e).lines j k
        ≡ (if has_line i k && same_instance i j then switched_off (e.lines j k) else e.lines j k)
  unfolding irq_line_disable
  disable_lines i e j k =
      let e1 = set_line has_line i Line.rx switched_off e in
      let e2 = set_line has_line i Line.tx switched_off e1 in
      let here = set_line_lines i Line.rx switched_off e j k in
      let there = set_line_lines i Line.tx switched_off e1 j k in
      ground (arith, here, there, set_line_lines i Line.general switched_off e2 j k)

  pub disable_keeps :
      (i : Instance) (e : Events)
      → ((irq_line_disable has_line i e).g_isr_enabled ≡ e.g_isr_enabled)
        × ((irq_line_disable has_line i e).g_irq_priority ≡ e.g_irq_priority)
        × ((irq_line_disable has_line i e).g_cb ≡ e.g_cb)
  unfolding irq_line_disable
  disable_keeps i e =
      let e1 = set_line has_line i Line.rx switched_off e in
      let e2 = set_line has_line i Line.tx switched_off e1 in
      ground (
        arith,
        set_line_keeps i Line.rx switched_off e,
        set_line_keeps i Line.tx switched_off e1,
        set_line_keeps i Line.general switched_off e2,
      )

  -- `g_isr_enabled[inst] = false; irq_line_disable(inst);`
  pub disable-IsGuarded :
      (i : Instance) (e : Events)
      → IsGuarded e
      → IsGuarded (
          irq_line_disable has_line i (record e { g_isr_enabled = set_at e.g_isr_enabled i false }))
  disable-IsGuarded i e g =
      let e0 : Events = record e { g_isr_enabled = set_at e.g_isr_enabled i false } in
      record {
        line = λ j k. ground (arith, disable_lines i e0 j k, disable_keeps i e0, g.line j k);
        recorded = λ j. ground (arith, disable_keeps i e0, g.recorded j);
      }

  pub enable_keeps :
      (i : Instance) (p : ℕ) (e : Events)
      → ((irq_line_enable has_line i p e).g_isr_enabled ≡ e.g_isr_enabled)
        × ((irq_line_enable has_line i p e).g_cb ≡ e.g_cb)
        × ((irq_line_enable has_line i p e).g_tx_busy ≡ e.g_tx_busy)
  unfolding irq_line_enable
  enable_keeps i p e =
      let e0 : Events = record e { g_irq_priority = set_at e.g_irq_priority i p } in
      let e1 = set_line has_line i Line.rx (switched_on p) e0 in
      ground (
        arith,
        set_line_keeps i Line.rx (switched_on p) e0,
        set_line_keeps i Line.general (switched_on p) e1,
      )

  -- The end of `nora_canfd_isr_enable`
  pub enable-IsGuarded :
      (i : Instance) (p : ℕ) (e : Events)
      → 1 ≤ p
      → p ≤ 7
      → IsGuarded e
      → let e1 = irq_line_enable has_line i p e in
        IsGuarded (record e1 { g_isr_enabled = set_at e1.g_isr_enabled i true })
  unfolding irq_line_enable
  enable-IsGuarded i p e low high g =
      let e0 : Events = record e { g_irq_priority = set_at e.g_irq_priority i p } in
      let e1 = set_line has_line i Line.rx (switched_on p) e0 in
      record {
        line = λ j k. ground (
          arith,
          set_line_lines i Line.rx (switched_on p) e0 j k,
          set_line_lines i Line.general (switched_on p) e1 j k,
          set_line_keeps i Line.rx (switched_on p) e0,
          set_line_keeps i Line.general (switched_on p) e1,
          g.line j k,
        );
        recorded = λ j. ground (
          arith,
          set_line_keeps i Line.rx (switched_on p) e0,
          set_line_keeps i Line.general (switched_on p) e1,
          g.recorded j,
        );
      }
