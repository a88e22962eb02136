-- ===== src/Driver/Hal/Real/Typed.antt =====
-- The driver over the HAL, whatever the hardware holds: what the application is given.
use dspic33ak_can_cmsis_driv.Prelude.{
  ℕ, pos, ◌≡◌, ◌≤◌, Bool, true, false, not, Option, none, some, List, length,
}
use dspic33ak_can_cmsis_driv.Prelude.{if◌then◌else◌}
use dspic33ak_can_cmsis_driv.Canfd.{Instance, Status}
use dspic33ak_can_cmsis_driv.Canfd.Chip.{Reg}
use dspic33ak_can_cmsis_driv.Canfd.Node.{wait_flag}
use dspic33ak_can_cmsis_driv.Canfd.Node.Transfer.{fetch, nora_canfd_receive}
use dspic33ak_can_cmsis_driv.Canfd.Node.Transfer.{starved, frame, error}
use dspic33ak_can_cmsis_driv.Canfd.Object.Typed.{IsFrame, AreBytes, parse_object-IsFrame}
use dspic33ak_can_cmsis_driv.Canfd.Isr.{System}
use dspic33ak_can_cmsis_driv.Arm.{MsgInfo}
use dspic33ak_can_cmsis_driv.Driver.Hal.{is_ok}
use dspic33ak_can_cmsis_driv.Driver.Hal.Real.{
  HalState, running, stopped, Below, canfd, settle_received,
}
use dspic33ak_can_cmsis_driv.Driver.Hal.Real.Guard.{at_start}
use dspic33ak_can_cmsis_driv.Driver.Context.{Device, App, Rte}
use dspic33ak_can_cmsis_driv.Driver.Message.{can_message_read}
use dspic33ak_can_cmsis_driv.Driver.Message.InRange.{IsReport, can_message_read-IsReport}
use dspic33ak_can_cmsis_driv.Driver.Api.{Reach}
use dspic33ak_can_cmsis_driv.Driver.Api.Induction.{IsKept, Reach-keeps}
use dspic33ak_can_cmsis_driv.Driver.Api.Typed.{
  HoldsFrames, zero_frame-IsFrame, HoldsFrames-IsClosed, initial-HoldsFrames,
}

module _ (below : Below) where
  open below use {chip, fuel}

  fetch-IsFrame : (i : Instance) (s : chip.State) → IsFrame (fetch chip i s).0
  unfolding fetch
  fetch-IsFrame i s = parse_object-IsFrame _ _ _

  -- The HAL reports success only with a frame in range.
  receive-IsFrame :
      (i : Instance) (h : HalState chip.State)
      → is_ok ((canfd below).receive i h).0 ≡ true
      → IsFrame ((canfd below).receive i h).1
  unfolding nora_canfd_receive
  receive-IsFrame i (stopped views) e = cc
  receive-IsFrame i (running s) e =
      go (s.node.g_node i).initialized
        (wait_flag chip fuel i Reg.fifosta1 1 (s.node.g_node i) s.node.chip)
    where
      go :
          (up : Bool) (waited : Option (Status × chip.State))
          → IsFrame
              (settle_received below s (
                if not up then error Status.err_not_initialized s.node else elim waited [
                  | none ↦ starved
                  | some (Status.ok, c) ↦
                      let (f, c') = fetch chip i c in
                      let w = s.node in frame f (record w { chip = c' })
                  | some (_, c) ↦
                      let w = s.node in error Status.err_no_message (record w { chip = c })
                ])).1
      go false waited = zero_frame-IsFrame
      go true none = zero_frame-IsFrame
      go true (some (Status.ok, c)) = fetch-IsFrame i c
      go true (some (_, c)) = zero_frame-IsFrame

  -- In every state that calls of the driver and interrupts reach from the start, whatever the
  -- hardware does, with an application whose callbacks keep the frames of the ring in range: a
  -- CAN_MessageRead with an information that is not NULL, into a buffer of bytes that has room for
  -- the size, that returns a count reports fields in range: an identifier as the ARM macros encode
  -- it, flags of one bit, no RTR and no ESI, a length code below 16; the count is the smaller of the
  -- length of that code and the size, at most 64 and within the buffer, and the buffer, of the length
  -- it had, holds bytes.
  pub driver_reports_in_range :
      (inst : Instance) (ram : ℕ) (rte : Rte) (s0 : System chip.State)
      (app : App (HalState chip.State)) (d : Device (HalState chip.State)) (obj : ℕ) (old : MsgInfo)
      (buf : List ℕ) (size n : ℕ)
      → IsKept (canfd below) HoldsFrames app
      → Reach (canfd below) app (at_start below inst ram rte s0) d
      → AreBytes buf
      → size ≤ length buf
      → (can_message_read obj (some old) (some buf) size d).rc ≡ pos n
      → IsReport size buf n (can_message_read obj (some old) (some buf) size d)
  driver_reports_in_range inst ram rte s0 app d obj old buf size n keeps r are room e =
      let closed = HoldsFrames-IsClosed (canfd below) receive-IsFrame in
      let holds =
        Reach-keeps (canfd below) HoldsFrames closed app keeps
          (initial-HoldsFrames inst ram rte (running s0)) r in
      can_message_read-IsReport obj old buf size n d holds are room e
