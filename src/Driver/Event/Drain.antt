-- ===== src/Driver/Event/Drain.antt =====
-- The drain loop of `can_hal_event`, over a HAL whose receive FIFO is a queue.
use dspic33ak_can_cmsis_driv.Prelude.{ℕ, zero, suc, ◌≤◌, ◌<◌, ◌≡◌, refl, sym, ap, ap₂, ◌∙◌, arith}
use dspic33ak_can_cmsis_driv.Prelude.{Bool, true, false, not, ◌||◌, some, List, [], ◌∷◌}
use dspic33ak_can_cmsis_driv.Prelude.{◌++◌, append-nil, length, take-nil, take, ltb}
use dspic33ak_can_cmsis_driv.Canfd.{Instance, Status, Frame}
use dspic33ak_can_cmsis_driv.Driver.Queue.{capacity}
use dspic33ak_can_cmsis_driv.Driver.Queue.Fill.{room, fill_up, fill_up-put, stored-put, dropped-put}
use dspic33ak_can_cmsis_driv.Driver.Hal.{Hal}
use dspic33ak_can_cmsis_driv.Driver.Ring.{put}
use dspic33ak_can_cmsis_driv.Driver.Ring.Refine.{IsRing, contents, length-contents, put_refines}
use dspic33ak_can_cmsis_driv.Driver.Context.{Context, Device}
use dspic33ak_can_cmsis_driv.Driver.Event.{Drained, drain}

abbrev pub is_empty : List Frame → Bool
is_empty [] = true
is_empty (_ ∷ _) = false

-- What nora_canfd_node.h and nora_canfd_isr.h document of `nora_canfd_rx_available` and
-- `nora_canfd_receive`, when no frame arrives in between: the first tells whether a received frame
-- waits, and with one waiting the second returns it without blocking, and takes it out.
pub record IsFifo (hal : Hal) : Type 0 where
  pub pending : Instance → hal.State → List Frame
  pub available :
      (i : Instance) (h : hal.State) → (hal.rx_available i h).0 ≡ not (is_empty (pending i h))
  pub pending-available :
      (i : Instance) (h : hal.State) → pending i (hal.rx_available i h).1 ≡ pending i h
  pub receive_ok :
      (i : Instance) (h : hal.State) (f : Frame) (rest : List Frame)
      → pending i h ≡ f ∷ rest
      → ((hal.receive i h).0 ≡ Status.ok)
        × ((hal.receive i h).1 ≡ f)
        × (pending i (hal.receive i h).2 ≡ rest)

module _ (hal : Hal) (fifo : IsFifo hal) where
  open hal use {State}
  open fifo use {pending}

  -- What the loop leaves, from `s` with `frames` waiting.
  pub record Drains (s : Drained State) (frames : List Frame) (t : Drained State) : Type 0 where
    pub empty : pending s.dev.ctx.hal_inst t.dev.hal ≡ []
    pub ring : IsRing t.dev.ctx.rx
    pub stored : contents t.dev.ctx.rx ≡ fill_up (contents s.dev.ctx.rx) frames
    pub received :
        t.received ≡ (s.received || ltb 0 (length (take (room (contents s.dev.ctx.rx)) frames)))
    pub dropped : t.dropped ≡ (s.dropped || ltb (room (contents s.dev.ctx.rx)) (length frames))
    pub rest : t.dev.ctx ≡ (let ctx : Context = s.dev.ctx in record ctx { rx = t.dev.ctx.rx })

  or_regroup : (a b c x : Bool) → (b || c) ≡ x → ((a || b) || c) ≡ (a || x)
  or_regroup a b c x e = ground arith

  -- The loop stops when no frame waits.
  stopped : Drained State → Drained State
  stopped s =
      let d : Device State = s.dev in
      record s { dev = record d { hal = (hal.rx_available d.ctx.hal_inst d.hal).1 } }

  -- One round: the frame goes to the ring, or is dropped.
  next : Frame → Drained State → Drained State
  next f s =
      let d : Device State = s.dev in
      let ctx : Context = d.ctx in
      let h = (hal.rx_available ctx.hal_inst d.hal).1 in
      record {
        dev = record {
          ctx = record ctx { rx = (put f ctx.rx).1 };
          hal = (hal.receive ctx.hal_inst h).2;
        };
        received = s.received || (put f ctx.rx).0;
        dropped = s.dropped || not (put f ctx.rx).0;
      }

  drain_stop :
      (fuel : ℕ) (s : Drained State)
      → pending s.dev.ctx.hal_inst s.dev.hal ≡ []
      → drain hal (suc fuel) s ≡ some (stopped s)
  unfolding drain stopped
  drain_stop fuel s e =
      rw (fifo.available s.dev.ctx.hal_inst s.dev.hal ∙ ap (λ l. not (is_empty l)) e) refl

  drain-next :
      (fuel : ℕ) (s : Drained State) (f : Frame) (rest : List Frame)
      → pending s.dev.ctx.hal_inst s.dev.hal ≡ f ∷ rest
      → drain hal (suc fuel) s ≡ drain hal fuel (next f s)
  unfolding drain next
  drain-next fuel s f rest e =
      let i = s.dev.ctx.hal_inst in
      let h = (hal.rx_available i s.dev.hal).1 in
      let (st, got, _) = fifo.receive_ok i h f rest (fifo.pending-available i s.dev.hal ∙ e) in
      rw (fifo.available i s.dev.hal ∙ ap (λ l. not (is_empty l)) e, st, got) refl

  next-IsRing : (f : Frame) (s : Drained State) → IsRing s.dev.ctx.rx → IsRing (next f s).dev.ctx.rx
  unfolding next
  next-IsRing f s v = (put_refines f s.dev.ctx.rx v).1

  pending-next :
      (f : Frame) (s : Drained State) (rest : List Frame)
      → pending s.dev.ctx.hal_inst s.dev.hal ≡ f ∷ rest
      → pending (next f s).dev.ctx.hal_inst (next f s).dev.hal ≡ rest
  unfolding next
  pending-next f s rest e =
      let i = s.dev.ctx.hal_inst in
      let h = (hal.rx_available i s.dev.hal).1 in
      (fifo.receive_ok i h f rest (fifo.pending-available i s.dev.hal ∙ e)).2

  Drains-nil :
      (s : Drained State)
      → IsRing s.dev.ctx.rx
      → pending s.dev.ctx.hal_inst s.dev.hal ≡ []
      → Drains s [] (stopped s)
  unfolding stopped
  Drains-nil s v e =
      let q = contents s.dev.ctx.rx in
      let none_left = take-nil Frame (room q) in
      record {
        empty = fifo.pending-available s.dev.ctx.hal_inst s.dev.hal ∙ e;
        ring = v;
        stored = sym (ap (λ l. q ++ l) none_left ∙ append-nil q);
        received = ground (arith, none_left);
        dropped = ground arith;
        rest = refl;
      }

  -- What is left to do after one round is what was left to do before it.
  Drains-next :
      (s : Drained State) (f : Frame) (frames : List Frame) (t : Drained State)
      → IsRing s.dev.ctx.rx
      → Drains (next f s) frames t
      → Drains s (f ∷ frames) t
  unfolding next
  Drains-next s f frames t v d =
      let r = s.dev.ctx.rx in
      let q = contents r in
      let small : length q ≤ capacity = omega (arith, length-contents r) in
      let (refines, _) = put_refines f r v in
      let flag = ap (λ p. p.0) refines in
      let queue = ap (λ p. p.1) refines in
      record {
        empty = d.empty;
        ring = d.ring;
        stored = d.stored ∙ ap (λ l. fill_up l frames) queue ∙ fill_up-put f q frames small;
        received =
            d.received
            ∙ or_regroup s.received _ _ _ (
                ap₂ (λ b l. b || ltb 0 (length (take (room l) frames))) flag queue
                ∙ stored-put f q frames small);
        dropped =
            d.dropped
            ∙ or_regroup s.dropped _ _ _ (
                ap₂ (λ b l. not b || ltb (room l) (length frames)) flag queue
                ∙ dropped-put f q frames small);
        rest = d.rest;
      }

  -- The loop ends after as many rounds as frames wait and one more.
  pub drain-Drains :
      (frames : List Frame) (fuel : ℕ) (s : Drained State)
      → length frames < fuel
      → IsRing s.dev.ctx.rx
      → pending s.dev.ctx.hal_inst s.dev.hal ≡ frames
      → (t : Drained State) × (drain hal fuel s ≡ some t) × Drains s frames t
  drain-Drains frames zero s h v e = absurd (omega arith)
  drain-Drains [] (suc fuel) s h v e = (stopped s, drain_stop fuel s e, Drains-nil s v e)
  drain-Drains (f ∷ frames) (suc fuel) s h v e =
      let (t, runs, done) =
        drain-Drains frames fuel (next f s) (omega arith) (next-IsRing f s v)
          (pending-next f s frames e) in
      (t, drain-next fuel s f frames e ∙ runs, Drains-next s f frames t v done)
