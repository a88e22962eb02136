-- ===== src/Driver/Hal/Real/Receive.antt =====
-- A received frame, from the FIFO of the hardware to the ring of the driver.
use mathlib.Core.List.{map}
use dspic33ak_can_cmsis_driv.Prelude.{
  ℕ, suc, ◌<◌, min, ◌≡◌, sym, ap, ◌∙◌, true, some, List, [], length, ltb, if◌then◌else◌,
}
use dspic33ak_can_cmsis_driv.Canfd.{Frame, event_rx_available}
use dspic33ak_can_cmsis_driv.Canfd.Object.RoundTrip.{padded}
use dspic33ak_can_cmsis_driv.Canfd.Isr.{System}
use dspic33ak_can_cmsis_driv.Driver.Context.{Context, Device, App}
use dspic33ak_can_cmsis_driv.Driver.Event.{can_hal_event, has_event}
use dspic33ak_can_cmsis_driv.Driver.Event.Signals.{signals, can_hal_event_drains}
use dspic33ak_can_cmsis_driv.Driver.Hal.Real.{HalState, running, Below, canfd}
use dspic33ak_can_cmsis_driv.Driver.Hal.Real.Fifo.{IsRxFifo, canfd-IsFifo, held}
use dspic33ak_can_cmsis_driv.Driver.Queue.Fill.{room, fill_up}
use dspic33ak_can_cmsis_driv.Driver.Ring.Refine.{IsRing, contents}

module _ (below : Below) (rx : IsRxFifo below.chip) (app : App (HalState below.chip.State)) where
  open below use {chip}

  -- The frames that wait in the hardware FIFO of the driver's instance, as they arrive.
  abbrev pub arriving : Context → System chip.State → List Frame
  arriving ctx s = map padded (rx.queue ctx.hal_inst s.node.chip)

  -- Over a chip whose receive FIFO shows its oldest object, with the node of the driver's instance
  -- initialised, a well-formed ring, some fuel for the waits of the HAL and one more round of fuel than
  -- frames wait for the drain: at RX_AVAILABLE `can_hal_event` ends, and leaves nothing waiting. It appends to the ring the frames
  -- of the hardware FIFO, each padded to the length of its code, oldest first, as far as they fit,
  -- changes nothing else of the context before the signals, and signals RECEIVE exactly if a frame
  -- waited and there was room, RECEIVE_OVERRUN exactly if more frames waited than fit.
  pub driver_receives :
      (k fuel events : ℕ) (ctx : Context) (s : System chip.State)
      → below.fuel ≡ suc k
      → has_event events event_rx_available ≡ true
      → IsRing ctx.rx
      → (s.node.g_node ctx.hal_inst).initialized ≡ true
      → length (arriving ctx s) < fuel
      → let d : Device (HalState chip.State) = record { ctx = ctx; hal = running s } in
        (d' : Device (HalState chip.State)) × (can_hal_event (canfd below) app fuel events d
          ≡ some (
              signals
                (canfd below)
                app
                events
                (ltb 0 (min (room (contents ctx.rx)) (length (arriving ctx s))))
                (ltb (room (contents ctx.rx)) (length (arriving ctx s)))
                d'))
        × (held below rx ctx.hal_inst d'.hal ≡ [])
        × (contents d'.ctx.rx ≡ fill_up (contents ctx.rx) (arriving ctx s))
        × IsRing d'.ctx.rx
        × (d'.ctx ≡ record ctx { rx = d'.ctx.rx })
  unfolding held
  driver_receives k fuel events ctx s enough at v live rounds =
      let d : Device (HalState chip.State) = record { ctx = ctx; hal = running s } in
      let (fifo, shows) = canfd-IsFifo below rx k enough in
      let waiting : fifo.pending ctx.hal_inst (running s) ≡ arriving ctx s =
        shows ctx.hal_inst (running s) ∙ ap (λ b. if b then arriving ctx s else []) live in
      let (d', runs, empty, stored, ring, rest) =
        can_hal_event_drains (canfd below) fifo app fuel events d (arriving ctx s) at v waiting
          rounds in
      (d', runs, sym (shows ctx.hal_inst d'.hal) ∙ empty, stored, ring, rest)
