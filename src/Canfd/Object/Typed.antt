-- ===== src/Canfd/Object/Typed.antt =====
-- The frames that come out of a message object, whatever words it holds.
use dspic33ak_can_cmsis_driv.Prelude.{
  ℕ, zero, suc, ◌+◌, ◌-◌, ◌*◌, ◌/◌, ◌^◌, ◌<◌, ◌≤◌, ◌≡◌, ap, ◌∙◌, arith, Bool, true, false, not,
  ◌==◌, List, [], ◌∷◌, ◌++◌, get_or, length, length-append, min, ltb, if◌then◌else◌, bit_and,
  bit_or,
}
use dspic33ak_can_cmsis_driv.Prelude.Bits.{shl, shr, u8, u32, bit_or-shl, bit_and-mask}
use dspic33ak_can_cmsis_driv.Canfd.{Frame}
use dspic33ak_can_cmsis_driv.Canfd.Dlc.{dlc_to_len, len_to_dlc}
use dspic33ak_can_cmsis_driv.Canfd.Dlc.Codes.{dlc_to_len-at_most, len_to_dlc-dlc_to_len}
use dspic33ak_can_cmsis_driv.Canfd.Object.{
  parse_id_word, parse_object, unpack_word, unpack, byte_if, objctrl_dlc_mask, objctrl_ide,
}
use dspic33ak_can_cmsis_driv.Canfd.Object.Header.{IsId}
use dspic33ak_can_cmsis_driv.Canfd.Object.Payload.{IsPayload}

-- The fields are in the ranges that the bus allows: an identifier of its kind, at most 64 bytes and
-- as many as the length says, and the length that of a code.
pub record IsFrame (f : Frame) : Type 0 where
  pub id : IsId f.extended f.id
  pub payload : IsPayload f
  pub coded : dlc_to_len (len_to_dlc f.len) ≡ f.len

abbrev pub AreBytes : List ℕ → Type 0
AreBytes xs = (i : ℕ) → get_or xs i 0 < 2 ^ 8

append-AreBytes : (xs ys : List ℕ) → AreBytes xs → AreBytes ys → AreBytes (xs ++ ys)
append-AreBytes [] ys h k i = k i
append-AreBytes (x ∷ xs) ys h k zero = h zero
append-AreBytes (x ∷ xs) ys h k (suc i) = append-AreBytes xs ys (λ j. h (suc j)) k i

byte_if-AreBytes : (len i shift word : ℕ) → AreBytes (byte_if len i shift word)
byte_if-AreBytes len i shift word j = go (ltb i len) j
  where
    go : (b : Bool) → AreBytes (if b then u8 (bit_and (shr word shift) 0xff) ∷ [] else [])
    go true zero = omega arith
    go true (suc j) = omega arith
    go false j = omega arith

unpack_word-AreBytes : (len w word : ℕ) → AreBytes (unpack_word len w word)
unfolding unpack_word
unpack_word-AreBytes len w word =
    let b = u8 (w * 4) in
    append-AreBytes _ (byte_if len (b + 3) 24 word)
      (append-AreBytes _ (byte_if len (b + 2) 16 word)
        (append-AreBytes (byte_if len (b + 0) 0 word) (byte_if len (b + 1) 8 word)
          (byte_if-AreBytes len (b + 0) 0 word) (byte_if-AreBytes len (b + 1) 8 word))
        (byte_if-AreBytes len (b + 2) 16 word))
      (byte_if-AreBytes len (b + 3) 24 word)

unpack-AreBytes : (n w len : ℕ) (words : List ℕ) → AreBytes (unpack n w len words)
unfolding unpack
unpack-AreBytes zero w len words i = omega arith
unpack-AreBytes (suc n) w len words i =
    append-AreBytes (unpack_word len w (get_or words w 0)) _ (unpack_word-AreBytes len w _)
      (unpack-AreBytes n (w + 1) len words) i

length-unpack_word :
    (len w word : ℕ) → w < 16 → length (unpack_word len w word) ≡ min 4 (len - w * 4)
unfolding unpack_word
length-unpack_word len w word h = let cut : u8 (w * 4) ≡ w * 4 = omega arith in ground arith

length-unpack :
    (n w len : ℕ) (words : List ℕ)
    → w + n ≤ 16
    → length (unpack n w len words) ≡ min (n * 4) (len - w * 4)
unfolding unpack
length-unpack zero w len words h = omega arith
length-unpack (suc n) w len words h =
    let first = unpack_word len w (get_or words w 0) in
    let rest = unpack n (w + 1) len words in
    omega (
      arith,
      length-append first rest,
      length-unpack_word len w (get_or words w 0) (omega arith),
      length-unpack n (w + 1) len words (omega arith),
    )

parse_id_word-IsId : (w : ℕ) (extended : Bool) → IsId extended (parse_id_word w extended)
unfolding parse_id_word
parse_id_word-IsId w true =
    let sid = bit_and (shr w 0) 0x7ff in
    let eid = bit_and (shr w 11) 0x3ffff in
    let low : eid < 2 ^ 18 = omega (arith, bit_and-mask 18 (shr w 11)) in
    let high : sid < 2 ^ 11 = omega (arith, bit_and-mask 11 (shr w 0)) in
    let cut : u32 (shl sid 18) ≡ shl sid 18 = omega arith in
    omega (arith, ap (λ x. bit_or x eid) cut ∙ bit_or-shl 18 sid eid low)
parse_id_word-IsId w false = omega (arith, bit_and-mask 11 (shr w 0))

-- Whatever words a message object holds, the frame that is read from it has an identifier of its
-- kind, at most 64 bytes and as many as its length says, and a length that is that of a code.
pub parse_object-IsFrame :
    (id_word ctrl : ℕ) (words : List ℕ) → IsFrame (parse_object id_word ctrl words)
unfolding parse_object
parse_object-IsFrame id_word ctrl words =
    let dlc = bit_and ctrl objctrl_dlc_mask in
    let small : dlc < 16 = omega (arith, bit_and-mask 4 ctrl) in
    let back = len_to_dlc-dlc_to_len dlc small in
    let coded = dlc_to_len dlc in
    let most : coded ≤ 64 = dlc_to_len-at_most dlc small in
    let fits : (if ltb 64 coded then 64 else coded) ≡ coded = ground arith in
    let n = (coded + 3) / 4 in
    let rounds : u8 n ≡ n = omega arith in
    let count : length (unpack n 0 coded words) ≡ coded =
      length-unpack n 0 coded words (omega arith) ∙ omega arith in
    let extended = not (bit_and ctrl objctrl_ide == 0) in
    rw (fits, rounds)
      record {
        id = parse_id_word-IsId id_word extended;
        payload = record {
          at_most = most;
          len_bytes = count;
          are_bytes = unpack-AreBytes n 0 coded words;
        };
        coded = ap dlc_to_len back;
      }
