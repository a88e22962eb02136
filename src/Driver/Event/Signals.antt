-- ===== src/Driver/Event/Signals.antt =====
-- What `can_hal_event` does as a whole, over a HAL whose receive FIFO is a queue.
use dspic33ak_can_cmsis_driv.Prelude.{
  ℕ, ◌<◌, ◌≡◌, ap, ap₂, ◌∙◌, arith, Bool, true, false, some, List, [],
}
use dspic33ak_can_cmsis_driv.Prelude.{length, length-take, ltb, min}
use dspic33ak_can_cmsis_driv.Canfd.{Frame}
use dspic33ak_can_cmsis_driv.Arm
use dspic33ak_can_cmsis_driv.Driver.Queue.Fill.{room, fill_up}
use dspic33ak_can_cmsis_driv.Driver.Hal.{Hal}
use dspic33ak_can_cmsis_driv.Driver.Ring.Refine.{IsRing, contents}
use dspic33ak_can_cmsis_driv.Driver.Context.{Context, Device, App}
use dspic33ak_can_cmsis_driv.Driver.Event.{Drained, drain, has_event, event_rx_available}
use dspic33ak_can_cmsis_driv.Driver.Event.{signal_object, on_overflow_and_bus_off, can_hal_event}
use dspic33ak_can_cmsis_driv.Driver.Event.Drain.{IsFifo, drain-Drains}

module _ (hal : Hal) (app : App hal.State) where
  -- The handler after its loop: at RX_AVAILABLE it signals RECEIVE if it has stored a frame, and
  -- then RECEIVE_OVERRUN if it has dropped one; then it goes on to the other events.
  abbrev pub signals : ℕ → Bool → Bool → Device hal.State → Device hal.State
  signals events received dropped d = on_overflow_and_bus_off hal app events (
      signal_object hal app dropped Arm.event_receive_overrun
        (signal_object hal app received Arm.event_receive d))

module _ (hal : Hal) (fifo : IsFifo hal) (app : App hal.State) where
  open fifo use {pending}

  after_drain :
      (fuel events : ℕ) (d : Device hal.State) (t : Drained hal.State)
      → has_event events event_rx_available ≡ true
      → drain hal fuel (record { dev = d; received = false; dropped = false }) ≡ some t
      → can_hal_event hal app fuel events d
        ≡ some (signals hal app events t.received t.dropped t.dev)
  unfolding can_hal_event
  after_drain fuel events d t at runs = ground arith

  -- At RX_AVAILABLE with `frames` waiting in the FIFO, and one more round of fuel than frames, the
  -- handler ends. It empties the FIFO, appends to the ring the frames that fit, oldest first, and
  -- changes nothing else of the context before the signals; RECEIVE is signalled exactly if a
  -- frame waited and there was room, RECEIVE_OVERRUN exactly if more frames waited than fit.
  pub can_hal_event_drains :
      (fuel events : ℕ) (d : Device hal.State) (frames : List Frame)
      → has_event events event_rx_available ≡ true
      → IsRing d.ctx.rx
      → pending d.ctx.hal_inst d.hal ≡ frames
      → length frames < fuel
      → (d' : Device hal.State) × (can_hal_event hal app fuel events d
          ≡ some (
              signals hal app events
                (ltb 0 (min (room (contents d.ctx.rx)) (length frames)))
                (ltb (room (contents d.ctx.rx)) (length frames))
                d'))
        × (pending d.ctx.hal_inst d'.hal ≡ [])
        × (contents d'.ctx.rx ≡ fill_up (contents d.ctx.rx) frames)
        × IsRing d'.ctx.rx
        × (d'.ctx ≡ (let ctx : Context = d.ctx in record ctx { rx = d'.ctx.rx }))
  can_hal_event_drains fuel events d frames at v e enough =
      let start : Drained hal.State = record { dev = d; received = false; dropped = false } in
      let (t, runs, done) = drain-Drains hal fifo frames fuel start enough v e in
      (
        t.dev,
        after_drain fuel events d t at runs
            ∙ ap₂ (λ b c. some (signals hal app events b c t.dev))
                (done.received ∙ ap (λ n. ltb 0 n) (length-take (room (contents d.ctx.rx)) frames))
                done.dropped,
        done.empty,
        done.stored,
        done.ring,
        done.rest,
      )
