-- ===== src/Driver/Hal/Real/Guard.antt =====
-- The driver over the HAL: the calls of the driver, the node and the event layer together.
use dspic33ak_can_cmsis_driv.Prelude.{ℕ, ◌≡◌, ap, ◌∙◌, arith, true, false, subst}
use dspic33ak_can_cmsis_driv.Canfd.{Instance}
use dspic33ak_can_cmsis_driv.Canfd.Node.{is_none_mode}
use dspic33ak_can_cmsis_driv.Canfd.Isr.{System}
use dspic33ak_can_cmsis_driv.Driver.Hal.Lifecycle.{View}
use dspic33ak_can_cmsis_driv.Driver.Hal.Real.{HalState, running, Below, canfd, view, is_given}
use dspic33ak_can_cmsis_driv.Driver.Hal.Real.Life.{canfd_life, canfd_view}
use dspic33ak_can_cmsis_driv.Driver.Context.{Device, App, Rte, initial_context}
use dspic33ak_can_cmsis_driv.Driver.Api.{Reach}
use dspic33ak_can_cmsis_driv.Driver.Api.Invariant.{IsGuarded, initial-IsSound}
use dspic33ak_can_cmsis_driv.Driver.Api.Interrupts.{Keeps, Reach-IsSound}

module _ (below : Below) where
  open below use {chip}

  -- The driver before any call, over a HAL in a state.
  abbrev pub at_start : Instance → ℕ → Rte → System chip.State → Device (HalState chip.State)
  at_start inst ram rte s = record { ctx = initial_context inst ram rte; hal = running s }

  guarded_flags : (v : View) → IsGuarded v → v.armed ≡ true → (v.handler ≡ true) × (v.live ≡ true)
  guarded_flags v g on = ground arith

  -- In every state that calls of the driver and interrupts reach from the start, with the event layer
  -- of the instance disabled there and with an application whose callbacks keep the driver sound: if
  -- the program still runs, the instance is present and its event layer is enabled, then a callback is
  -- registered for the instance and the node has it initialised in a mode.
  pub driver_guards :
      (inst : Instance) (ram : ℕ) (rte : Rte) (s0 : System chip.State)
      (app : App (HalState chip.State)) (d : Device (HalState chip.State)) (s : System chip.State)
      → Keeps (canfd below) (canfd_life below) app
      → s0.isr.g_isr_enabled inst ≡ false
      → Reach (canfd below) app (at_start inst ram rte s0) d
      → d.hal ≡ running s
      → chip.present d.ctx.hal_inst ≡ true
      → s.isr.g_isr_enabled d.ctx.hal_inst ≡ true
      → (is_given (s.isr.g_cb d.ctx.hal_inst) ≡ true)
        × (is_none_mode (s.node.g_mode d.ctx.hal_inst) ≡ false)
  driver_guards inst ram rte s0 app d s keeps off r runs there on =
      let i = d.ctx.hal_inst in
      let life = canfd_life below in
      let begin = canfd_view below inst (running s0) in
      let start =
        initial-IsSound (canfd below) life inst ram rte (running s0) (ground (arith, off, begin)) in
      let sound = Reach-IsSound (canfd below) life app keeps start r in
      let here : life.view i d.hal ≡ view below i (running s) =
        canfd_view below i d.hal ∙ ap (view below i) runs in
      let guard : IsGuarded (view below i (running s)) = subst IsGuarded here sound.guarded in
      ground (arith, guarded_flags (view below i (running s)) guard (ground (arith, there, on)))
