-- ===== src/Driver/Message/Read.antt =====
-- `CAN_MessageRead` and `CAN_MessageSend` as a whole.
use dspic33ak_can_cmsis_driv.Prelude.{ℕ, pos, ◌≤◌, ◌≡◌, ◌≢◌, ◌⊎◌, ◌↔◌, refl, ap, ◌∙◌, arith, true}
use dspic33ak_can_cmsis_driv.Prelude.{
  false, Option, none, some, List, [], ◌∷◌, ◌++◌, length, take, drop, min, length-take,
  length-append, length-replicate, replicate, ◌-◌,
}
use dspic33ak_can_cmsis_driv.Canfd.{Status, Frame}
use dspic33ak_can_cmsis_driv.Canfd.Dlc.{dlc_to_len, len_to_dlc}
use dspic33ak_can_cmsis_driv.Canfd.Dlc.Codes.{len_to_dlc_smallest}
use dspic33ak_can_cmsis_driv.Canfd.Object.RoundTrip.{padded}
use dspic33ak_can_cmsis_driv.Arm
use dspic33ak_can_cmsis_driv.Arm.{MsgInfo}
use dspic33ak_can_cmsis_driv.Driver.Queue
use dspic33ak_can_cmsis_driv.Driver.Hal.{Hal, is_ok}
use dspic33ak_can_cmsis_driv.Driver.Ring.{Ring, pop}
use dspic33ak_can_cmsis_driv.Driver.Ring.Refine.{IsRing, contents, pop_refines}
use dspic33ak_can_cmsis_driv.Driver.Context.{Context, Device, can_hal_to_arm}
use dspic33ak_can_cmsis_driv.Driver.Event.{obj_tx, obj_rx}
use dspic33ak_can_cmsis_driv.Driver.Message.{bytes_of, copy, frame_of, info_of}
use dspic33ak_can_cmsis_driv.Driver.Message.{can_message_read, can_message_send}
use dspic33ak_can_cmsis_driv.Driver.Message.Frames.{IsMsgInfo, info_of-padded, copy_lem}

pop_of_contents :
    (r : Ring) {f : Frame} {q : List Frame}
    → IsRing r
    → contents r ≡ f ∷ q
    → ((pop r).0 ≡ some f) × (contents (pop r).1 ≡ q) × IsRing (pop r).1
unfolding Queue.pop
pop_of_contents r {f} {q} v e =
    let (refines, keeps) = pop_refines r v in
    let eq = refines ∙ ap Queue.pop e in (ap (λ p. p.0) eq, ap (λ p. p.1) eq, keeps)

module _ {S : Type 0} (d : Device S) (on : d.ctx.powered ≡ true) (v : IsRing d.ctx.rx) where
  read_runs :
      (old : MsgInfo) (buf : List ℕ) (size : ℕ) (f : Frame)
      → (pop d.ctx.rx).0 ≡ some f
      → can_message_read obj_rx (some old) (some buf) size d ≡ record {
        rc = pos (min f.len size);
        info = some (info_of f);
        bytes = some (copy (min f.len size) f.bytes buf);
        dev = (let c : Context = d.ctx in record d { ctx = record c { rx = (pop d.ctx.rx).1 } });
      }
  unfolding can_message_read
  read_runs old buf size f e = ground arith

  -- On a powered instance with a frame in its ring, a read of the receive object into buffers that
  -- are not NULL takes the oldest frame out, returns the smaller of its length and the size,
  -- reports the frame's information, and overwrites just that many bytes of the buffer; it changes
  -- nothing else of the instance.
  pub can_message_read_frame :
      (old : MsgInfo) (buf : List ℕ) (size : ℕ) (f : Frame) (q : List Frame)
      → contents d.ctx.rx ≡ f ∷ q
      → length f.bytes ≡ f.len
      → size ≤ length buf
      → let r = can_message_read obj_rx (some old) (some buf) size d in
        (r.rc ≡ pos (min f.len size))
        × (r.info ≡ some (info_of f))
        × (r.bytes ≡ some (take (min f.len size) f.bytes ++ drop (min f.len size) buf))
        × (contents r.dev.ctx.rx ≡ q)
        × IsRing r.dev.ctx.rx
        × (r.dev ≡ (let c : Context = d.ctx in record d { ctx = record c { rx = r.dev.ctx.rx } }))
  can_message_read_frame old buf size f q e full fits =
      let (popped, left, keeps) = pop_of_contents d.ctx.rx v e in
      let copied = copy_lem (min f.len size) f.bytes buf (omega arith) (omega arith) in
      rw (read_runs old buf size f popped) (refl, refl, ap some copied, left, keeps, refl)

  -- With no frame in its ring the read returns ARM_DRIVER_ERROR, and changes and writes nothing.
  pub can_message_read_empty :
      (old : MsgInfo) (buf : List ℕ) (size : ℕ)
      → contents d.ctx.rx ≡ []
      → can_message_read obj_rx (some old) (some buf) size d
        ≡ record { rc = Arm.driver_error; info = some old; bytes = some buf; dev = d }
  unfolding can_message_read Queue.pop
  can_message_read_empty old buf size e =
      ground (arith, ap (λ p. p.0) ((pop_refines d.ctx.rx v).0 ∙ ap Queue.pop e))

  -- On a powered instance with a well-formed ring, a message of at most 64 bytes whose frame, padded to
  -- the length of its code as it arrives, is the oldest of the ring is read back into a buffer with room
  -- for the size that is read: the count is the smaller of that size and the length of the code; the
  -- information is that sent, with RTR and ESI 0, BRS kept in an FD frame only and the length code of
  -- the size; and the bytes are those sent, then zeros, with the rest of the buffer left.
  pub read_sent :
      (info old : MsgInfo) (sent buf : List ℕ) (size n : ℕ) (q : List Frame)
      → IsMsgInfo info
      → size ≤ 64
      → size ≤ length sent
      → n ≤ length buf
      → contents d.ctx.rx ≡ padded (frame_of info sent size) ∷ q
      → let r = can_message_read obj_rx (some old) (some buf) n d in
        let len = dlc_to_len (len_to_dlc size) in
        let count = min len n in
        (r.rc ≡ pos count)
        × (r.info
            ≡ some (record {
              id = info.id;
              rtr = 0;
              edl = info.edl;
              brs = min info.edl info.brs;
              esi = 0;
              dlc = len_to_dlc size;
            }))
        × (r.bytes
            ≡ some (take count (take size sent ++ replicate (len - size) 0) ++ drop count buf))
  unfolding frame_of padded
  read_sent info old sent buf size n q wf small enough fits e =
      let len = dlc_to_len (len_to_dlc size) in
      let (_, more, _, _) = len_to_dlc_smallest size small in
      let zeros = replicate (len - size) 0 in
      let full : length (take size sent ++ zeros) ≡ len = omega (
        arith,
        length-append (take size sent) zeros,
        length-take size sent,
        length-replicate {A = ℕ} (len - size) 0,
      ) in
      let (rc, info_read, written, _, _, _) =
        can_message_read_frame old buf n (padded (frame_of info sent size)) q e full fits in
      (rc, info_read ∙ ap some (info_of-padded info sent size wf small), written)

can_hal_to_arm-ne-pos : (st : Status) (n : ℕ) → is_ok st ≡ false → can_hal_to_arm st ≢ pos n
unfolding can_hal_to_arm
can_hal_to_arm-ne-pos st n e = ground arith

module _ (hal : Hal) where
  open hal use {State, transmit}

  -- What a message must be for `CAN_MessageSend` to hand it to the HAL.
  pub record IsSendable (obj_idx : ℕ) (info : MsgInfo) (bytes : Option (List ℕ)) (size : ℕ)
      (d : Device State) : Type 0 where
    pub powered : d.ctx.powered ≡ true
    pub object : obj_idx ≡ obj_tx
    pub size_in : size ≤ 64
    pub buffer : (size ≡ 0) ⊎ (bytes ≢ none)
    pub not_rtr : info.rtr ≡ 0
    pub classic : (d.ctx.fd_mode ≢ 0) ⊎ (info.edl ≡ 0) × (size ≤ 8)

  -- A send returns a count exactly if the message is sendable and the HAL accepts the frame; the
  -- count is then the size.
  pub can_message_send_accepts :
      (obj_idx n : ℕ) (info : MsgInfo) (bytes : Option (List ℕ)) (size : ℕ) (d : Device State)
      → ((can_message_send hal obj_idx (some info) bytes size d).0 ≡ pos n) ↔ (
          IsSendable obj_idx info bytes size d
          × ((transmit d.ctx.hal_inst (frame_of info (bytes_of bytes) size) d.hal).0 ≡ Status.ok)
          × (n ≡ size))
  unfolding can_message_send
  can_message_send_accepts obj_idx n info bytes size d =
      let st = (transmit d.ctx.hal_inst (frame_of info (bytes_of bytes) size) d.hal).0 in
      ground (arith, can_hal_to_arm-ne-pos st n)
