-- ===== src/Canfd/Object.antt =====
-- A message object in the CAN message RAM, as `nora_canfd_transmit` writes it and
-- `nora_canfd_receive` reads it, in src/hal_can/nora_canfd_node_dspic33ak.c: the identifier word, the
-- control word, and the payload in words of four bytes.
pub mod Header
pub mod Payload
pub mod RoundTrip
pub mod Typed
use dspic33ak_can_cmsis_driv.Prelude.{ℕ, zero, suc, ◌+◌, ◌*◌, ◌/◌, ◌^◌, bit_and, bit_or, Bool, not}
use dspic33ak_can_cmsis_driv.Prelude.{
  ◌&&◌, List, [], ◌∷◌, ◌++◌, get_or, drop, ltb, ◌==◌, if◌then◌else◌,
}
use dspic33ak_can_cmsis_driv.Prelude.Bits.{shl, shr, u8, u32}
use dspic33ak_can_cmsis_driv.Canfd.{Frame}
use dspic33ak_can_cmsis_driv.Canfd.Dlc.{dlc_to_len, len_to_dlc}

abbrev pub objid_sid_mask : ℕ
objid_sid_mask = 0x7ff

abbrev pub objid_eid_mask : ℕ
objid_eid_mask = 0x3ffff

abbrev pub objid_sid_pos : ℕ
objid_sid_pos = 0

abbrev pub objid_eid_pos : ℕ
objid_eid_pos = 11

-- The NORA_CANFD_OBJCTRL_* bits.
abbrev pub objctrl_dlc_mask : ℕ
objctrl_dlc_mask = 0xf

abbrev pub objctrl_ide : ℕ
objctrl_ide = 2 ^ 4

abbrev pub objctrl_brs : ℕ
objctrl_brs = 2 ^ 6

abbrev pub objctrl_fdf : ℕ
objctrl_fdf = 2 ^ 7

unfoldable pub build_id_word : Frame → ℕ
build_id_word f =
    if f.extended
    then bit_or (u32 (shl (bit_and (shr f.id 18) objid_sid_mask) objid_sid_pos))
        (u32 (shl (bit_and f.id objid_eid_mask) objid_eid_pos))
    else u32 (shl (bit_and f.id objid_sid_mask) objid_sid_pos)

-- The identifier that `parse_id_word` stores.
unfoldable pub parse_id_word : ℕ → Bool → ℕ
parse_id_word w extended =
    let sid = bit_and (shr w objid_sid_pos) objid_sid_mask in
    let eid = bit_and (shr w objid_eid_pos) objid_eid_mask in
    if extended then bit_or (u32 (shl sid 18)) eid else sid

-- `ctrl`, in `nora_canfd_transmit`
unfoldable pub ctrl_word : ℕ → Bool → Bool → Bool → ℕ
ctrl_word dlc extended fd brs =
    let base = bit_and dlc objctrl_dlc_mask in
    let ide = if extended then bit_or base objctrl_ide else base in
    let fdf = if fd then bit_or ide objctrl_fdf else ide in
    if fd && brs then bit_or fdf objctrl_brs else fdf

-- `if ((b + k) < frame->len) word |= (uint32_t)frame->data[b + k] << (8 * k);`
abbrev pub or_byte : Frame → ℕ → ℕ → ℕ → ℕ
or_byte f i shift word =
    if ltb i f.len then bit_or word (u32 (shl (get_or f.bytes i 0) shift)) else word

-- The body of the loop that packs the payload.
unfoldable pub pack_word : Frame → ℕ → ℕ
pack_word f w =
    let b = u8 (w * 4) in
    or_byte f (b + 3) 24 (or_byte f (b + 2) 16 (or_byte f (b + 1) 8 (or_byte f (b + 0) 0 0)))

-- The loop, from word `w` with `n` words left.
unfoldable pub pack : ℕ → ℕ → Frame → List ℕ
pack zero w f = []
pack (suc n) w f = pack_word f w ∷ pack n (w + 1) f

-- The words that `nora_canfd_transmit` stores from `obj[0]` on.
unfoldable pub write_object : Frame → List ℕ
write_object f =
    let dlc = len_to_dlc f.len in
    let actual_len = dlc_to_len dlc in
    build_id_word f ∷ ctrl_word dlc f.extended f.fd f.brs ∷ pack (u8 ((actual_len + 3) / 4)) 0 f

-- `if ((b + k) < frame->len) frame->data[b + k] = (uint8_t)((word >> (8 * k)) & 0xFFu);`
abbrev pub byte_if : ℕ → ℕ → ℕ → ℕ → List ℕ
byte_if len i shift word = if ltb i len then u8 (bit_and (shr word shift) 0xff) ∷ [] else []

-- The bytes that one round of the loop of `nora_canfd_receive` stores; they follow those stored
-- before.
unfoldable pub unpack_word : ℕ → ℕ → ℕ → List ℕ
unpack_word len w word =
    let b = u8 (w * 4) in
    byte_if len (b + 0) 0 word
    ++ byte_if len (b + 1) 8 word
    ++ byte_if len (b + 2) 16 word
    ++ byte_if len (b + 3) 24 word

-- The loop, from word `w` with `n` words left.
unfoldable pub unpack : ℕ → ℕ → ℕ → List ℕ → List ℕ
unpack zero w len words = []
unpack (suc n) w len words = unpack_word len w (get_or words w 0) ++ unpack n (w + 1) len words

-- The frame that `nora_canfd_receive` reads from `obj[0]`, `obj[1]` and the words after them.
unfoldable pub parse_object : ℕ → ℕ → List ℕ → Frame
parse_object id_word ctrl words =
    let extended = not (bit_and ctrl objctrl_ide == 0) in
    let dlc = bit_and ctrl objctrl_dlc_mask in
    let coded = dlc_to_len dlc in
    let len = if ltb 64 coded then 64 else coded in
    record {
      id = parse_id_word id_word extended;
      extended = extended;
      fd = not (bit_and ctrl objctrl_fdf == 0);
      brs = not (bit_and ctrl objctrl_brs == 0);
      len = len;
      bytes = unpack (u8 ((len + 3) / 4)) 0 len words;
    }

unfoldable pub read_object : List ℕ → Frame
unfolding parse_object
read_object obj = parse_object (get_or obj 0 0) (get_or obj 1 0) (drop 2 obj)
