-- ===== src/Driver/Tests/Rings.antt =====
-- The receive ring and the event handler at concrete frames.
use dspic33ak_can_cmsis_driv.Prelude.{
  ◌≡◌, ◌≤◌, refl, arith, false, some, List, [], ◌∷◌, ◌++◌, length, ltb, min,
}
use dspic33ak_can_cmsis_driv.Canfd.{Frame}
use dspic33ak_can_cmsis_driv.Driver.Queue
use dspic33ak_can_cmsis_driv.Driver.Queue.Fill.{room, fill_up}
use dspic33ak_can_cmsis_driv.Driver.Ring.{Ring, put, pop}
use dspic33ak_can_cmsis_driv.Driver.Ring.Refine.{IsRing, contents, put_refines, pop_refines}
use dspic33ak_can_cmsis_driv.Driver.Ring.Interleave.{
  Shared, Reach, start, interrupt, interleaving_in_order,
}
use dspic33ak_can_cmsis_driv.Driver.Ring.Interleave.{here, later, isr, test, copy, copied}
use dspic33ak_can_cmsis_driv.Driver.Context.{Context, Device, initial_context}
use dspic33ak_can_cmsis_driv.Driver.Event.{Drained, can_hal_event}
use dspic33ak_can_cmsis_driv.Driver.Event.Signals.{signals, can_hal_event_drains}
use dspic33ak_can_cmsis_driv.Driver.Tests.Toy.{
  Toy, toy, toy_fifo, toy_pending, fresh-IsRing, silent, fresh, running, frame,
}

abbrev ring : Ring
ring = fresh.ctx.rx

abbrev two : List Frame
two = frame 1 ∷ frame 2 ∷ []

ring_empty : ring.rx_tail ≡ ring.rx_head
unfolding initial_context
ring_empty = refl

pending_two : toy_fifo.pending (running two).ctx.hal_inst (running two).hal ≡ two
pending_two = toy_pending (running two).ctx.hal_inst (running two).hal

put_refines_example :
    let (stored, r') = put (frame 1) ring in
    ((stored, contents r') ≡ Queue.put (frame 1) (contents ring)) × IsRing r'
put_refines_example = put_refines (frame 1) ring fresh-IsRing

pop_refines_example :
    let (popped, r') = pop ring in ((popped, contents r') ≡ Queue.pop (contents ring)) × IsRing r'
pop_refines_example = pop_refines ring fresh-IsRing

-- A second frame is stored while the reader holds a copy of the first.
abbrev held : Shared
held = interrupt (frame 2) (record (interrupt (frame 1) (start ring)) { reader = copied (frame 1) })

reach_held : Reach (start ring) held
unfolding start put initial_context
reach_held =
    later (later (later (later here (isr (frame 1))) (test refl (λ e. ground arith))) (copy refl))
      (isr (frame 2))

interleaving_in_order_example :
    (held.accepted ≡ held.delivered ++ contents held.ring)
    × (length (contents held.ring) ≤ 7)
    × ((f : Frame) → held.reader ≡ copied f → (rest : List Frame) × (contents held.ring ≡ f ∷ rest))
interleaving_in_order_example = interleaving_in_order ring fresh-IsRing ring_empty reach_held

abbrev begin : Drained Toy
begin = record { dev = running two; received = false; dropped = false }

can_hal_event_drains_example :
    (d' : Device Toy) × (can_hal_event toy silent 3 2 (running two)
      ≡ some (
          signals toy silent 2
            (ltb 0 (min (room (contents ring)) 2))
            (ltb (room (contents ring)) 2)
            d'))
    × (toy_fifo.pending (running two).ctx.hal_inst d'.hal ≡ [])
    × (contents d'.ctx.rx ≡ fill_up (contents ring) two)
    × IsRing d'.ctx.rx
    × (d'.ctx ≡ (let ctx : Context = (running two).ctx in record ctx { rx = d'.ctx.rx }))
can_hal_event_drains_example =
    can_hal_event_drains toy toy_fifo silent 3 2 (running two) two refl fresh-IsRing pending_two
      (omega arith)
