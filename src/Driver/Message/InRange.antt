-- ===== src/Driver/Message/InRange.antt =====
-- What `CAN_MessageRead` reports fits the fields that it is reported in.
use dspic33ak_can_cmsis_driv.Prelude.{
  ℕ, zero, suc, pos, ◌^◌, ◌<◌, ◌≤◌, ◌≡◌, refl, ap, ◌∙◌, arith, some, List, [], ◌∷◌, length, min,
  bit_and,
}
use dspic33ak_can_cmsis_driv.Prelude.Bits.{bit_and-mask}
use dspic33ak_can_cmsis_driv.Canfd.{Frame}
use dspic33ak_can_cmsis_driv.Canfd.Dlc.{dlc_to_len}
use dspic33ak_can_cmsis_driv.Canfd.Dlc.Codes.{len_to_dlc_smallest}
use dspic33ak_can_cmsis_driv.Canfd.Object.Typed.{IsFrame, AreBytes}
use dspic33ak_can_cmsis_driv.Arm.{MsgInfo}
use dspic33ak_can_cmsis_driv.Driver.Ring.{pop, frame_at_tail}
use dspic33ak_can_cmsis_driv.Driver.Context.{Device}
use dspic33ak_can_cmsis_driv.Driver.Message.{ReadResult, copy, info_of, can_message_read}
use dspic33ak_can_cmsis_driv.Driver.Message.Frames.{IsMsgInfo, ide_or, info_of-dlc}
use dspic33ak_can_cmsis_driv.Driver.Api.Typed.{HoldsFrames}

-- A read that returns a count: the information is that of a data frame, with an identifier as the
-- ARM macros encode it, flags of one bit and a length code below 16; the count is the smaller of
-- the length of that code and the size asked for, and the buffer, of the length it had, holds bytes.
pub record IsReport {S : Type 0} (size : ℕ) (buf : List ℕ) (n : ℕ) (r : ReadResult S) : Type 0 where
  pub information : MsgInfo
  pub written : List ℕ
  pub info : r.info ≡ some information
  pub in_range : IsMsgInfo information
  pub not_rtr : information.rtr ≡ 0
  pub not_esi : information.esi ≡ 0
  pub dlc : information.dlc < 16
  pub count : n ≡ min (dlc_to_len information.dlc) size
  pub at_most : n ≤ 64
  pub bytes : r.bytes ≡ some written
  pub same_length : length written ≡ length buf
  pub fits : n ≤ length written
  pub are_bytes : AreBytes written

length-copy : (n : ℕ) (src dst : List ℕ) → length (copy n src dst) ≡ length dst
unfolding copy
length-copy zero src dst = refl
length-copy (suc n) [] dst = refl
length-copy (suc n) (x ∷ src) [] = refl
length-copy (suc n) (x ∷ src) (y ∷ dst) = ap suc (length-copy n src dst)

copy-AreBytes : (n : ℕ) (src dst : List ℕ) → AreBytes src → AreBytes dst → AreBytes (copy n src dst)
unfolding copy
copy-AreBytes zero src dst h k i = k i
copy-AreBytes (suc n) [] dst h k i = k i
copy-AreBytes (suc n) (x ∷ src) [] h k i = k i
copy-AreBytes (suc n) (x ∷ src) (y ∷ dst) h k zero = h zero
copy-AreBytes (suc n) (x ∷ src) (y ∷ dst) h k (suc i) =
    copy-AreBytes n src dst (λ j. h (suc j)) (λ j. k (suc j)) i

info_of-IsMsgInfo : (f : Frame) → IsMsgInfo (info_of f)
unfolding info_of
info_of-IsMsgInfo f =
    let id = bit_and f.id 0x1fff_ffff in
    let small : id < 2 ^ 29 = omega (arith, bit_and-mask 29 f.id) in
    ground (arith, ide_or id, bit_and-mask 11 f.id)

info_of-plain : (f : Frame) → ((info_of f).rtr ≡ 0) × ((info_of f).esi ≡ 0)
unfolding info_of
info_of-plain f = (refl, refl)

-- A read that returns a count takes the frame at the tail.
read_took :
    {S : Type 0} (obj : ℕ) (old : MsgInfo) (buf : List ℕ) (size n : ℕ) (d : Device S)
    → let r = can_message_read obj (some old) (some buf) size d in
      let f = frame_at_tail d.ctx.rx in
      r.rc ≡ pos n
      → (n ≡ min f.len size) × (r.info ≡ some (info_of f)) × (r.bytes ≡ some (copy n f.bytes buf))
unfolding can_message_read pop
read_took obj old buf size n d e = ground arith

-- A read that returns a count, from a ring of frames in range into a buffer of bytes that is large
-- enough, is a report.
pub can_message_read-IsReport :
    {S : Type 0} (obj : ℕ) (old : MsgInfo) (buf : List ℕ) (size n : ℕ) (d : Device S)
    → HoldsFrames d
    → AreBytes buf
    → size ≤ length buf
    → (can_message_read obj (some old) (some buf) size d).rc ≡ pos n
    → IsReport size buf n (can_message_read obj (some old) (some buf) size d)
can_message_read-IsReport obj old buf size n d holds are room e =
    let f = frame_at_tail d.ctx.rx in
    let frame : IsFrame f = holds d.ctx.rx.rx_tail in
    let (count, info, bytes) = read_took obj old buf size n d e in
    let dlc = info_of-dlc f in
    let (small, _, _, _) = len_to_dlc_smallest f.len frame.payload.at_most in
    let (rtr, esi) = info_of-plain f in
    let coded : dlc_to_len (info_of f).dlc ≡ f.len = ap dlc_to_len dlc ∙ frame.coded in
    let same = length-copy n f.bytes buf in
    record {
      information = info_of f;
      written = copy n f.bytes buf;
      info = info;
      in_range = info_of-IsMsgInfo f;
      not_rtr = rtr;
      not_esi = esi;
      dlc = omega (arith, small, dlc);
      count = omega (arith, coded, count);
      at_most = omega (arith, count, frame.payload.at_most);
      bytes = bytes;
      same_length = same;
      fits = omega (arith, count, same);
      are_bytes = copy-AreBytes n f.bytes buf frame.payload.are_bytes are;
    }
