-- ===== src/Driver/Hal/Real/Send.antt =====
-- A message, from the application to the transmit queue of the hardware.
use dspic33ak_can_cmsis_driv.Prelude.{
  ℕ, pos, ◌^◌, ◌≤◌, ◌<◌, ◌≡◌, ◌≢◌, refl, ap, arith, true, false, some, List, length, get_or, take,
  zero, suc, [], ◌∷◌, length-take, ◌⊎◌, Bool, ℤ, negsuc, if_holds, if◌then◌else◌, ◌==◌, ◌||◌, ◌&&◌,
  ltb, not,
}
use dspic33ak_can_cmsis_driv.Driver.Event.{obj_tx}
use dspic33ak_can_cmsis_driv.Driver.Context.{can_hal_to_arm, Context, Device}
use dspic33ak_can_cmsis_driv.Canfd.{Instance, Status, is_ok, Frame}
use dspic33ak_can_cmsis_driv.Canfd.Object.Header.{IsId}
use dspic33ak_can_cmsis_driv.Canfd.Object.Payload.{IsPayload}
use dspic33ak_can_cmsis_driv.Canfd.Node.{Run, trap, dry, done}
use dspic33ak_can_cmsis_driv.Canfd.Node.Queue.{IsQueue}
use dspic33ak_can_cmsis_driv.Canfd.Node.Handover.{IsQuiet, IsSent, Sends, transmit-Sends}
use dspic33ak_can_cmsis_driv.Canfd.Isr.{System}
use dspic33ak_can_cmsis_driv.Arm.{MsgInfo}
use dspic33ak_can_cmsis_driv.Driver.Message.{frame_of, can_message_send}
use dspic33ak_can_cmsis_driv.Driver.Message.Frames.{frame_of-IsFrameId}
use dspic33ak_can_cmsis_driv.Driver.Hal.Real.{
  HalState, running, stopped, Below, canfd, settle, mark,
}
use dspic33ak_can_cmsis_driv.Driver.Hal.Lifecycle.{View}

IsId-of_range :
    (b : Bool) (id : ℕ) → ((b ≡ true) × (id < 2 ^ 29)) ⊎ ((b ≡ false) × (id < 2 ^ 11)) → IsId b id
IsId-of_range true id h = ground arith
IsId-of_range false id h = ground arith

module _ (below : Below) (ctx : Context) (s : System below.chip.State)
    (q : IsQueue below.chip ctx.hal_inst) where
  open below use {chip, fuel}

  abbrev H : Type 0
  H = HalState chip.State

  -- Nothing was put into the transmit queue or handed over, if the program goes on.
  abbrev pub QuietHal : H → Type 0
  QuietHal (stopped views) = Unit {0}
  QuietHal (running t) = IsQuiet chip ctx.hal_inst q s.node.chip t.node.chip

  -- The program goes on, and the frame was sent.
  abbrev pub SentHal : Frame → H → Type 0
  SentHal f (stopped views) = ⊥
  SentHal f (running t) = IsSent chip ctx.hal_inst q s.node.chip t.node.chip f

  settled :
      (g : (Instance → View) → Instance → View) (f : Frame) (r : Run chip.State)
      → Sends chip ctx.hal_inst q s.node f r
      → let (st, h) = settle below g s r in
        (st ≡ Status.ok → SentHal f h) × (is_ok st ≡ false → QuietHal h)
  settled g f trap h = (λ e. absurd (cc), λ e. tt)
  settled g f dry h = (λ e. absurd (cc), λ e. tt)
  settled g f (done st w) h = (λ e. h.0 (ap is_ok e), h.1)

  frame_of-IsId :
      (info : MsgInfo) (sent : List ℕ) (size : ℕ)
      → let f = frame_of info sent size in IsId f.extended f.id
  frame_of-IsId info sent size =
      IsId-of_range (frame_of info sent size).extended (frame_of info sent size).id
        (frame_of-IsFrameId info sent size)

  get_or-take-lt :
      (n i : ℕ) (xs : List ℕ) → ((j : ℕ) → get_or xs j 0 < 2 ^ 8) → get_or (take n xs) i 0 < 2 ^ 8
  get_or-take-lt zero i xs h = omega arith
  get_or-take-lt (suc n) i [] h = omega arith
  get_or-take-lt (suc n) zero (x ∷ xs) h = h 0
  get_or-take-lt (suc n) (suc i) (x ∷ xs) h = get_or-take-lt n i xs (λ j. h (suc j))

  frame_of-IsPayload :
      (info : MsgInfo) (sent : List ℕ) (size : ℕ)
      → size ≤ 64
      → size ≤ length sent
      → ((j : ℕ) → get_or sent j 0 < 2 ^ 8)
      → IsPayload (frame_of info sent size)
  unfolding frame_of
  frame_of-IsPayload info sent size small enough bytes = record {
    at_most = small;
    len_bytes = omega (arith, length-take size sent);
    are_bytes = λ j. get_or-take-lt size j sent bytes;
  }

  -- A count is the size of a frame that was sent, and with any other code nothing was.
  abbrev pub IsReturned : Frame → ℕ → ℤ × Device H → Type 0
  IsReturned f size r =
      ((n : ℕ) → r.0 ≡ pos n → (n ≡ size) × SentHal f r.1.hal)
      × (((n : ℕ) → r.0 ≢ pos n) → QuietHal r.1.hal)

  abbrev device : Device H
  device = record { ctx = ctx; hal = running s }

  refused : (f : Frame) (size n : ℕ) → IsReturned f size (negsuc n, device)
  refused f size n = (λ k e. absurd (cc), λ h. (refl, refl))

  settled-IsReturned :
      (f : Frame) (size : ℕ) (st : Status) (h : H)
      → (st ≡ Status.ok → SentHal f h) × (is_ok st ≡ false → QuietHal h)
      → IsReturned f size (
          if not (is_ok st)
          then (can_hal_to_arm st, record device { hal = h })
          else (pos size, record device { hal = h }))
  unfolding can_hal_to_arm
  settled-IsReturned f size Status.ok h b = (λ n e. (cc, b.0 refl), λ no. absurd (no size refl))
  settled-IsReturned f size _ h b = (λ n e. absurd (cc), λ no. b.1 refl)

  -- Over a transmit queue of the hardware, which takes an object only if it has room, with buffer bytes
  -- below 256 and at least as many as the size: if `CAN_MessageSend` returns a count, it is the size, and one object was put into the transmit
  -- queue and all of the queue handed over, which is read as the frame of the message, padded to the
  -- length of its code; if it returns an error code, nothing was put into the queue or handed over,
  -- unless a call of the HAL has not returned.
  pub driver_sends :
      (obj_idx : ℕ) (info : MsgInfo) (sent : List ℕ) (size : ℕ)
      → size ≤ length sent
      → ((j : ℕ) → get_or sent j 0 < 2 ^ 8)
      → IsReturned
          (frame_of info sent size)
          size
          (can_message_send (canfd below) obj_idx (some info) (some sent) size device)
  unfolding can_message_send can_hal_to_arm
  driver_sends obj_idx info sent size enough bytes =
      let f = frame_of info sent size in
      let Good = IsReturned f size in
      if_holds Good (not ctx.powered) _ _ (λ _. refused f size _)
        (λ _.
          if_holds Good (not (obj_idx == obj_tx) || ltb 64 size || (ltb 0 size && false)) _ _
            (λ _. refused f size _)
            (λ fits.
              if_holds Good (not (info.rtr == 0)) _ _ (λ _. refused f size _)
                (λ _.
                  if_holds Good ((ctx.fd_mode == 0) && (not (info.edl == 0) || ltb 8 size)) _ _
                    (λ _. refused f size _)
                    (λ _.
                      let payload = frame_of-IsPayload info sent size (ground arith) enough bytes in
                      let both = settled (mark (λ v. v) ctx.hal_inst) f _ (
                        transmit-Sends chip ctx.hal_inst q fuel f s.node
                          (frame_of-IsId info sent size) payload) in
                      settled-IsReturned f size _ _ both))))
