-- ===== src/Canfd/Object/RoundTrip.antt =====
-- A frame that is written to a message object and read back.
use dspic33ak_can_cmsis_driv.Prelude.{
  ◌-◌, ◌≡◌, arith, refl, ◌&&◌, ◌++◌, replicate, ltb, if◌then◌else◌,
}
use dspic33ak_can_cmsis_driv.Canfd.{Frame}
use dspic33ak_can_cmsis_driv.Canfd.Dlc.{dlc_to_len, len_to_dlc}
use dspic33ak_can_cmsis_driv.Canfd.Dlc.Codes.{len_to_dlc_smallest}
use dspic33ak_can_cmsis_driv.Canfd.Object.{read_object, write_object}
use dspic33ak_can_cmsis_driv.Canfd.Object.Header.{
  IsId, parse_id_word-build_id_word, ctrl_word-IsCtrl,
}
use dspic33ak_can_cmsis_driv.Canfd.Object.Payload.{IsPayload, unpack-pack}

-- The frame that arrives: its length is that of the code, its bytes are padded with zeros, and the
-- bit rate switches only in an FD frame.
unfoldable pub padded : Frame → Frame
padded f =
    let len = dlc_to_len (len_to_dlc f.len) in
    record f { brs = f.fd && f.brs; len = len; bytes = f.bytes ++ replicate (len - f.len) 0 }

-- A frame with an identifier of its kind, at most 64 bytes and as many as its length says, arrives
-- with the same identifier, format and bytes, padded with zeros to the length of its code.
pub read_object-write_object :
    (f : Frame) → IsId f.extended f.id → IsPayload f → read_object (write_object f) ≡ padded f
unfolding read_object write_object padded
read_object-write_object f id v =
    let dlc = len_to_dlc f.len in
    let (small, enough, most, _) = len_to_dlc_smallest f.len v.at_most in
    let ctrl = ctrl_word-IsCtrl dlc f.extended f.fd f.brs small in
    let fits : (if ltb 64 (dlc_to_len dlc) then 64 else dlc_to_len dlc) ≡ dlc_to_len dlc =
      ground arith in
    rw
      (
        ctrl.ide_read,
        ctrl.fdf_read,
        ctrl.brs_read,
        ctrl.dlc_read,
        fits,
        parse_id_word-build_id_word f id,
        unpack-pack f v (dlc_to_len dlc) enough most,
      )
      refl
