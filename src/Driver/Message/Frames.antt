-- ===== src/Driver/Message/Frames.antt =====
-- The frame that `CAN_MessageSend` builds, and what `CAN_MessageRead` reports of it.
use dspic33ak_can_cmsis_driv.Prelude.{ℕ, zero, suc, ◌+◌, ◌^◌, ◌≤◌, ◌<◌, ◌≡◌, ◌⊎◌, refl, ap, ◌∙◌}
use dspic33ak_can_cmsis_driv.Prelude.{arith, true, false, List, [], ◌∷◌, ◌++◌, length, take, drop}
use dspic33ak_can_cmsis_driv.Prelude.{bit_and, bit_or, min, not, ◌&&◌, ◌==◌, if◌then◌else◌}
use dspic33ak_can_cmsis_driv.Prelude.Bits.{bit_and-mask, bit_and-bit, bit_or-shl, bit_or_comm}
use dspic33ak_can_cmsis_driv.Canfd.{Frame}
use dspic33ak_can_cmsis_driv.Canfd.Dlc.{len_to_dlc}
use dspic33ak_can_cmsis_driv.Canfd.Dlc.Codes.{len_to_dlc_smallest, len_to_dlc-dlc_to_len}
use dspic33ak_can_cmsis_driv.Canfd.Object.RoundTrip.{padded}
use dspic33ak_can_cmsis_driv.Arm
use dspic33ak_can_cmsis_driv.Arm.{MsgInfo}
use dspic33ak_can_cmsis_driv.Driver.Message.{copy, frame_of, info_of}

-- An identifier as the ARM macros encode it: 11 bits, or 29 bits with bit 31 set.
abbrev pub IsArmId : ℕ → Type 0
IsArmId id = (id < 2 ^ 11) ⊎ ((2 ^ 31 ≤ id) × (id < 2 ^ 31 + 2 ^ 29))

-- The flags are bits of a bit-field.
pub record IsMsgInfo (info : MsgInfo) : Type 0 where
  pub id : IsArmId info.id
  pub edl : info.edl ≤ 1
  pub brs : info.brs ≤ 1

-- The identifier of a frame fits its format.
abbrev IsFrameId : Frame → Type 0
IsFrameId f = ((f.extended ≡ true) × (f.id < 2 ^ 29)) ⊎ ((f.extended ≡ false) × (f.id < 2 ^ 11))

-- The frame that `CAN_MessageSend` builds from any information has an identifier of 29 bits if it
-- is extended, and of 11 bits if not.
pub frame_of-IsFrameId :
    (info : MsgInfo) (bytes : List ℕ) (size : ℕ) → IsFrameId (frame_of info bytes size)
unfolding frame_of
frame_of-IsFrameId info bytes size =
    ground (arith, bit_and-mask 29 info.id, bit_and-mask 11 info.id)

pub ide_or : (x : ℕ) → x < 2 ^ 31 → bit_or x Arm.id_ide_msk ≡ x + 2 ^ 31
ide_or x h = bit_or_comm x (2 ^ 31) ∙ bit_or-shl 31 1 x h ∙ omega arith

-- The length code that `CAN_MessageRead` reports is the HAL's.
pub info_of-dlc : (f : Frame) → (info_of f).dlc ≡ len_to_dlc f.len
unfolding info_of len_to_dlc
info_of-dlc f = refl

id-info_of-frame_of :
    (info : MsgInfo) (bytes : List ℕ) (size : ℕ)
    → IsArmId info.id
    → (info_of (frame_of info bytes size)).id ≡ info.id
unfolding info_of frame_of
id-info_of-frame_of info bytes size h = ground (
  arith,
  bit_and-bit 31 info.id,
  bit_and-mask 29 info.id,
  bit_and-mask 11 info.id,
  bit_and-mask 29 (bit_and info.id 0x1fff_ffff),
  bit_and-mask 11 (bit_and info.id 0x7ff),
  ide_or (bit_and (bit_and info.id 0x1fff_ffff) 0x1fff_ffff),
)

flag_back : (n : ℕ) → n ≤ 1 → (if not (n == 0) then 1 else 0) ≡ n
flag_back n h = ground arith

flags_both : (m n : ℕ) → m ≤ 1 → n ≤ 1 → (if not (m == 0) && not (n == 0) then 1 else 0) ≡ min m n
flags_both m n h k = ground arith

-- The information that is read from the frame of a message as it arrives, padded to the length of its
-- code, is the information that was sent, but that RTR and ESI are 0, BRS is kept in an FD frame only,
-- and the length code is that of the size.
pub info_of-padded :
    (info : MsgInfo) (bytes : List ℕ) (size : ℕ)
    → IsMsgInfo info
    → size ≤ 64
    → info_of (padded (frame_of info bytes size)) ≡ record {
      id = info.id;
      rtr = 0;
      edl = info.edl;
      brs = min info.edl info.brs;
      esi = 0;
      dlc = len_to_dlc size;
    }
unfolding info_of frame_of padded
info_of-padded info bytes size v h =
    let id_back = id-info_of-frame_of info bytes size v.id in
    let edl_back = flag_back info.edl v.edl in
    let brs_back = flags_both info.edl info.brs v.edl v.brs in
    let (small, _, _, _) = len_to_dlc_smallest size h in
    let dlc_back =
      info_of-dlc (padded (frame_of info bytes size))
      ∙ len_to_dlc-dlc_to_len (len_to_dlc size) small in
    λ i. record {
      id = id_back i;
      rtr = 0;
      edl = edl_back i;
      brs = brs_back i;
      esi = 0;
      dlc = dlc_back i;
    }

-- The loop that copies writes the first bytes and leaves the others.
pub copy_lem :
    (n : ℕ) (src dst : List ℕ)
    → n ≤ length src
    → n ≤ length dst
    → copy n src dst ≡ take n src ++ drop n dst
unfolding copy
copy_lem zero src dst h k = refl
copy_lem (suc n) [] dst h k = absurd (omega arith)
copy_lem (suc n) (x ∷ src) [] h k = absurd (omega arith)
copy_lem (suc n) (x ∷ src) (y ∷ dst) h k =
    ap (λ l. x ∷ l) (copy_lem n src dst (omega arith) (omega arith))
