-- ===== src/Driver/Api/Interrupts.antt =====
-- Interrupts in between the calls: what holds of an instance in every state that calls and
-- interrupts reach.
use dspic33ak_can_cmsis_driv.Prelude.{arith}
use dspic33ak_can_cmsis_driv.Driver.Hal.{Hal}
use dspic33ak_can_cmsis_driv.Driver.Hal.Lifecycle.{IsLifecycle}
use dspic33ak_can_cmsis_driv.Driver.Ring.Refine.{put_refines}
use dspic33ak_can_cmsis_driv.Driver.Context.{Device, App}
use dspic33ak_can_cmsis_driv.Driver.Api.{Reach}
use dspic33ak_can_cmsis_driv.Driver.Api.Induction.{
  IsClosed, IsKept, looked, unkept, kept, Reach-keeps,
}
use dspic33ak_can_cmsis_driv.Driver.Api.Invariant.{IsSound, call-IsSound}

module _ (hal : Hal) (life : IsLifecycle hal) where
  open hal use {State}

  looked-IsSound : (d : Device State) → IsSound hal life d → IsSound hal life (looked hal d)
  looked-IsSound d s = ground (arith, life.available_view d.ctx.hal_inst d.hal)

  unkept-IsSound : (d : Device State) → IsSound hal life d → IsSound hal life (unkept hal d)
  unkept-IsSound d s = ground (arith, life.receive_view d.ctx.hal_inst d.hal)

  kept-IsSound : (d : Device State) → IsSound hal life d → IsSound hal life (kept hal d)
  kept-IsSound d s =
      let (_, f, _) = hal.receive d.ctx.hal_inst d.hal in
      ground (arith, life.receive_view d.ctx.hal_inst d.hal, (put_refines f d.ctx.rx s.ctx.ring).1)

  closed : IsClosed hal (IsSound hal life)
  closed = record {
    call = call-IsSound hal life;
    looked = looked-IsSound;
    unkept = unkept-IsSound;
    kept = λ d s ok. kept-IsSound d s;
  }

  -- What is asked of the callbacks of the application.
  abbrev pub Keeps : App State → Type 0
  Keeps app = IsKept hal (IsSound hal life) app

  module _ (app : App State) (keeps : Keeps app) where
    -- In every state that calls of the application and interrupts reach from a sound one, in any
    -- order, the instance is sound.
    pub Reach-IsSound :
        {d d' : Device State} → IsSound hal life d → Reach hal app d d' → IsSound hal life d'
    Reach-IsSound s r = Reach-keeps hal (IsSound hal life) closed app keeps s r
