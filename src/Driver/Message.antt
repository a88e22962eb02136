-- ===== src/Driver/Message.antt =====
-- `CAN_MessageSend` and `CAN_MessageRead` of cmsis_driver/Driver_CAN_dsPIC33AK.c. A pointer that
-- may be NULL is an `Option`; a buffer is the list of its bytes.
pub mod Frames
pub mod Read
pub mod InRange
use dspic33ak_can_cmsis_driv.Prelude.{ℕ, zero, suc, ℤ, pos, Bool, true, false, not, ◌&&◌, ◌||◌}
use dspic33ak_can_cmsis_driv.Prelude.{Option, none, some, List, [], ◌∷◌, ◌==◌, ltb, leb}
use dspic33ak_can_cmsis_driv.Prelude.{if◌then◌else◌, bit_and, bit_or, take}
use dspic33ak_can_cmsis_driv.Canfd.{Frame}
use dspic33ak_can_cmsis_driv.Arm
use dspic33ak_can_cmsis_driv.Arm.{MsgInfo}
use dspic33ak_can_cmsis_driv.Driver.Hal.{Hal, is_ok}
use dspic33ak_can_cmsis_driv.Driver.Ring.{pop}
use dspic33ak_can_cmsis_driv.Driver.Context.{Context, Device, can_hal_to_arm}
use dspic33ak_can_cmsis_driv.Driver.Event.{obj_tx, obj_rx}

abbrev pub is_none {ℓ} : {A : Type ℓ} → Option A → Bool
is_none none = true
is_none (some _) = false

abbrev pub bytes_of : Option (List ℕ) → List ℕ
bytes_of none = []
bytes_of (some xs) = xs

-- `for (i = 0u; i < n; i++) dst[i] = src[i];`, within both arrays.
unfoldable pub copy : ℕ → List ℕ → List ℕ → List ℕ
copy zero src dst = dst
copy (suc n) [] dst = dst
copy (suc n) (x ∷ src) [] = []
copy (suc n) (x ∷ src) (y ∷ dst) = x ∷ copy n src dst

-- The frame that `CAN_MessageSend` builds; its bytes are those that the loop copies.
unfoldable pub frame_of : MsgInfo → List ℕ → ℕ → Frame
frame_of info bytes size =
    let extended = not (bit_and info.id Arm.id_ide_msk == 0) in
    record {
      extended = extended;
      id = if extended then bit_and info.id 0x1fff_ffff else bit_and info.id 0x7ff;
      fd = not (info.edl == 0);
      brs = not (info.brs == 0);
      len = size;
      bytes = take size bytes;
    }

-- The message information that `CAN_MessageRead` fills in.
unfoldable pub info_of : Frame → MsgInfo
info_of frame = record {
  id =
      if frame.extended
      then bit_or (bit_and frame.id 0x1fff_ffff) Arm.id_ide_msk
      else bit_and frame.id 0x7ff;
  rtr = 0;
  edl = if frame.fd then 1 else 0;
  brs = if frame.brs then 1 else 0;
  esi = 0;
  dlc =
      if leb frame.len 8
      then frame.len
      else if leb frame.len 12
      then 9
      else if leb frame.len 16
      then 10
      else if leb frame.len 20
      then 11
      else if leb frame.len 24
      then 12
      else if leb frame.len 32
      then 13
      else if leb frame.len 48
      then 14
      else 15;
}

-- What `CAN_MessageRead` returns and writes through its pointers.
pub record ReadResult (S : Type 0) : Type 0 where
  pub rc : ℤ
  pub info : Option MsgInfo
  pub bytes : Option (List ℕ)
  pub dev : Device S

module _ (hal : Hal) where
  open hal use {State, transmit}

  -- `CAN_MessageSend` with a message information that is not NULL.
  unfoldable pub send_info : ℕ → MsgInfo → Option (List ℕ) → ℕ → Device State → ℤ × Device State
  send_info obj_idx info bytes size d =
      let (st, h) = transmit d.ctx.hal_inst (frame_of info (bytes_of bytes) size) d.hal in
      if not (obj_idx == obj_tx) || ltb 64 size || (ltb 0 size && is_none bytes)
      then (Arm.driver_error_parameter, d)
      else if not (info.rtr == 0)
      then (Arm.driver_error_unsupported, d)
      else if (d.ctx.fd_mode == 0) && (not (info.edl == 0) || ltb 8 size)
      then (Arm.driver_error_unsupported, d)
      else if not (is_ok st)
      then (can_hal_to_arm st, record d { hal = h })
      else (pos size, record d { hal = h })

  unfoldable pub can_message_send :
      ℕ → Option MsgInfo → Option (List ℕ) → ℕ → Device State → ℤ × Device State
  unfolding send_info
  can_message_send obj_idx msg_info bytes size d =
      if not d.ctx.powered then (Arm.driver_error, d) else elim msg_info [
        | none ↦ (Arm.driver_error_parameter, d)
        | some info ↦ send_info obj_idx info bytes size d
      ]

module _ {S : Type 0} where
  unfoldable pub can_message_read :
      ℕ → Option MsgInfo → Option (List ℕ) → ℕ → Device S → ReadResult S
  can_message_read obj_idx msg_info bytes size d =
      let ctx : Context = d.ctx in
      let fail : ℤ → ReadResult S =
        λ code. record { rc = code; info = msg_info; bytes = bytes; dev = d } in
      let (popped, ring) = pop ctx.rx in
      if not ctx.powered
      then fail Arm.driver_error
      else if is_none msg_info || not (obj_idx == obj_rx) || (ltb 0 size && is_none bytes)
      then fail Arm.driver_error_parameter
      else elim popped [
        | none ↦ fail Arm.driver_error
        | some frame ↦
            let n = if ltb frame.len size then frame.len else size in
            record {
              rc = pos n;
              info = some (info_of frame);
              bytes = if is_none bytes then none else some (copy n frame.bytes (bytes_of bytes));
              dev = record d { ctx = record ctx { rx = ring } };
            }
      ]
