-- ===== src/Canfd/Object/Payload.antt =====
-- The payload of a message object: packed into words and unpacked, a frame's bytes come back,
-- padded with zeros to the length of the code.
use dspic33ak_can_cmsis_driv.Prelude.{
  ℕ, zero, suc, ◌+◌, ◌-◌, ◌*◌, ◌/◌, ◌^◌, ◌<◌, ◌≤◌, ◌≡◌, ap, ap₂, ◌∙◌, arith, refl,
}
use dspic33ak_can_cmsis_driv.Prelude.{
  ◌⊎◌, List, [], ◌∷◌, ◌++◌, get_or, length, replicate, bit_and, bit_or, min, ltb, if◌then◌else◌,
}
use dspic33ak_can_cmsis_driv.Prelude.{values, values-add, values-start, values-get_or, get_or-past}
use native.Mathlib.Nat.{mul-le-mul}
use dspic33ak_can_cmsis_driv.Prelude.Bits.{shl, shr, u8, u32, bit_or-shl, bit_or_comm, bit_and-mask}
use dspic33ak_can_cmsis_driv.Canfd.{Frame}
use dspic33ak_can_cmsis_driv.Canfd.Object.{or_byte, pack_word, pack, unpack_word, unpack}

-- A frame whose list of bytes is as long as its length says.
pub record IsPayload (f : Frame) : Type 0 where
  pub at_most : f.len ≤ 64
  pub len_bytes : length f.bytes ≡ f.len
  pub are_bytes : (i : ℕ) → get_or f.bytes i 0 < 2 ^ 8

get_or-pack : (f : Frame) (n w i : ℕ) → i < n → get_or (pack n w f) i 0 ≡ pack_word f (w + i)
unfolding pack
get_or-pack f zero w i h = absurd (omega arith)
get_or-pack f (suc n) w zero h = ap (pack_word f) {x = w} {y = w + 0} (omega arith)
get_or-pack f (suc n) w (suc i) h =
    get_or-pack f n (w + 1) i (omega arith)
    ∙ ap (pack_word f) {x = w + 1 + i} {y = w + suc i} (omega arith)

module _ (f : Frame) (v : IsPayload f) where
  abbrev pub byte : ℕ → ℕ
  byte i = get_or f.bytes i 0

  or_byte_lem :
      (i k word : ℕ) → 2 ^ k ≤ 2 ^ 24 → word < 2 ^ k → or_byte f i k word ≡ byte i * 2 ^ k + word
  or_byte_lem i k word hk hw =
      let small : byte i ≤ 255 = omega (arith, v.are_bytes i) in
      let most : byte i * 2 ^ k ≤ 255 * 2 ^ 24 = mul-le-mul small hk in
      let cut : u32 (shl (byte i) k) ≡ byte i * 2 ^ k = omega arith in
      let past : f.len ≤ i → byte i ≡ 0 = λ h. get_or-past f.bytes i (omega (arith, v.len_bytes)) in
      let joined : bit_or word (u32 (shl (byte i) k)) ≡ byte i * 2 ^ k + word =
        ap (bit_or word) cut ∙ bit_or_comm word (shl (byte i) k) ∙ bit_or-shl k (byte i) word hw in
      let nothing : byte i ≡ 0 → byte i * 2 ^ k ≡ 0 = λ e. ap (λ b. b * 2 ^ k) e ∙ omega arith in
      ground (arith, joined, past, nothing)

  pack_word_lem :
      (w : ℕ)
      → w < 16
      → let b = w * 4 in
        pack_word f w
        ≡ byte (b + 3) * 2 ^ 24 + (byte (b + 2) * 2 ^ 16 + (byte (b + 1) * 2 ^ 8 + byte b))
  unfolding pack_word
  pack_word_lem w h =
      let b = w * 4 in
      let cut : u8 b ≡ b = omega arith in
      let start : b + 0 ≡ b = omega arith in
      let three : ℕ → ℕ = λ c.
        or_byte f (c + 3) 24 (or_byte f (c + 2) 16 (or_byte f (c + 1) 8 (or_byte f (c + 0) 0 0))) in
      let b0 = v.are_bytes b in
      let b1 = v.are_bytes (b + 1) in
      let b2 = v.are_bytes (b + 2) in
      let e0 : or_byte f (b + 0) 0 0 ≡ byte b =
        ap (λ i. or_byte f i 0 0) start
        ∙ or_byte_lem b 0 0 (omega arith) (omega arith)
        ∙ omega arith in
      let e1 = ap (or_byte f (b + 1) 8) e0 ∙ or_byte_lem (b + 1) 8 _ (omega arith) (omega arith) in
      let e2 =
        ap (or_byte f (b + 2) 16) e1 ∙ or_byte_lem (b + 2) 16 _ (omega arith) (omega arith) in
      let e3 =
        ap (or_byte f (b + 3) 24) e2 ∙ or_byte_lem (b + 3) 24 _ (omega arith) (omega arith) in
      ap three cut ∙ e3

-- Of the four bytes from `b` on, those below the length.
four :
    (g : ℕ → ℕ) (b len m : ℕ)
    → m ≡ min 4 (len - b)
    → (if ltb (b + 0) len then g (b + 0) ∷ [] else [])
        ++ (if ltb (b + 1) len then g (b + 1) ∷ [] else [])
        ++ (if ltb (b + 2) len then g (b + 2) ∷ [] else [])
        ++ (if ltb (b + 3) len then g (b + 3) ∷ [] else [])
      ≡ values g b m
four g b len zero e = ground arith
four g b len (suc zero) e = let i0 : b + 0 ≡ b = omega arith in ground (arith, ap g i0)
four g b len (suc (suc zero)) e = let i0 : b + 0 ≡ b = omega arith in ground (arith, ap g i0)
four g b len (suc (suc (suc zero))) e =
    let i0 : b + 0 ≡ b = omega arith in
    let i2 : b + 1 + 1 ≡ b + 2 = omega arith in ground (arith, ap g i0, ap g i2)
four g b len (suc (suc (suc (suc zero)))) e =
    let i0 : b + 0 ≡ b = omega arith in
    let i2 : b + 1 + 1 ≡ b + 2 = omega arith in
    let i3 : b + 1 + 1 + 1 ≡ b + 3 = omega arith in ground (arith, ap g i0, ap g i2, ap g i3)
four g b len (suc (suc (suc (suc (suc m))))) e = absurd (omega arith)

module _ (f : Frame) (v : IsPayload f) where
  -- One round of the reading loop gets the bytes that one of the writing loop stored.
  unpack_word_lem :
      (len w : ℕ)
      → w < 16
      → unpack_word len w (pack_word f w) ≡ values (byte f v) (w * 4) (min 4 (len - w * 4))
  unfolding unpack_word
  unpack_word_lem len w h =
      let b = w * 4 in
      let word = pack_word f w in
      let cut : u8 b ≡ b = omega arith in
      let bound = v.are_bytes in
      let joined = pack_word_lem f v w h in
      let b0 = v.are_bytes b in
      let b1 = v.are_bytes (b + 1) in
      let b2 = v.are_bytes (b + 2) in
      let b3 = v.are_bytes (b + 3) in
      let start : byte f v (b + 0) ≡ byte f v b = ap (byte f v) {x = b + 0} {y = b} (omega arith) in
      let e0 : u8 (bit_and (shr word 0) 0xff) ≡ byte f v (b + 0) =
        omega (arith, joined, bit_and-mask 8 (shr word 0)) in
      let e1 : u8 (bit_and (shr word 8) 0xff) ≡ byte f v (b + 1) =
        omega (arith, joined, bit_and-mask 8 (shr word 8)) in
      let e2 : u8 (bit_and (shr word 16) 0xff) ≡ byte f v (b + 2) =
        omega (arith, joined, bit_and-mask 8 (shr word 16)) in
      let e3 : u8 (bit_and (shr word 24) 0xff) ≡ byte f v (b + 3) =
        omega (arith, joined, bit_and-mask 8 (shr word 24)) in
      rw (cut, e0, e1, e2, e3) (four (byte f v) b len _ refl)

module _ (f : Frame) (v : IsPayload f) where
  -- The loop, over words that are those of the frame from word `w` on.
  unpack_lem :
      (n w len : ℕ) (stored : List ℕ)
      → ((i : ℕ) → i < w + n → get_or stored i 0 ≡ pack_word f i)
      → w + n ≤ 16
      → (len + 3) / 4 ≡ w + n
      → unpack n w len stored ≡ values (byte f v) (w * 4) (len - w * 4)
  unfolding unpack
  unpack_lem zero w len stored same small e =
      ap (values (byte f v) (w * 4)) {x = 0} {y = len - w * 4} (omega arith)
  unpack_lem (suc n) w len stored same small e =
      let rest =
        unpack_lem n (w + 1) len stored (λ i h. same i (omega arith)) (omega arith) (omega arith) in
      let m = min 4 (len - w * 4) in
      let r = len - (w + 1) * 4 in
      let ends : (r ≡ 0) ⊎ ((w + 1) * 4 ≡ w * 4 + m) = omega arith in
      let count : m + r ≡ len - w * 4 = omega arith in
      ap₂ (λ a l. a ++ l)
        (ap (unpack_word len w) (same w (omega arith)) ∙ unpack_word_lem f v len w (omega arith))
        (rest ∙ values-start (byte f v) ((w + 1) * 4) (w * 4 + m) r ends)
      ∙ values-add (byte f v) (w * 4) m r
      ∙ ap (values (byte f v) (w * 4)) count

  -- The bytes come back, padded with zeros to any length of at most 64 that is not shorter.
  pub unpack-pack :
      (len : ℕ)
      → f.len ≤ len
      → len ≤ 64
      → let n = u8 ((len + 3) / 4) in
        unpack n 0 len (pack n 0 f) ≡ f.bytes ++ replicate (len - f.len) 0
  unpack-pack len enough most =
      let n = u8 ((len + 3) / 4) in
      let count : len - length f.bytes ≡ len - f.len = omega (arith, v.len_bytes) in
      unpack_lem n 0 len (pack n 0 f)
        (λ i h.
          get_or-pack f n 0 i (omega arith) ∙ ap (pack_word f) {x = 0 + i} {y = i} (omega arith))
        (omega arith) (omega arith)
      ∙ ap (values (byte f v) 0) {x = len - 0 * 4} {y = len} (omega arith)
      ∙ values-get_or f.bytes len (omega (arith, v.len_bytes))
      ∙ ap (λ k. f.bytes ++ replicate k 0) count
