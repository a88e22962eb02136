-- ===== src/Canfd/Node/Delivery.antt =====
-- `nora_canfd_receive` reads, at the user address of the FIFO, the frame whose object is there.
use dspic33ak_can_cmsis_driv.Prelude.{
  ℕ, zero, suc, ◌+◌, ◌*◌, ◌/◌, ◌<◌, ◌≡◌, refl, ap, ap₂, ◌∙◌, arith, bit_and,
}
use dspic33ak_can_cmsis_driv.Prelude.{List, [], ◌∷◌, get_or, length}
use dspic33ak_can_cmsis_driv.Prelude.Bits.{u8}
use dspic33ak_can_cmsis_driv.Canfd.{Instance, Frame}
use dspic33ak_can_cmsis_driv.Canfd.Dlc.{dlc_to_len, len_to_dlc}
use dspic33ak_can_cmsis_driv.Canfd.Dlc.Codes.{len_to_dlc_smallest}
use dspic33ak_can_cmsis_driv.Canfd.Chip.{Chip, Reg}
use dspic33ak_can_cmsis_driv.Canfd.Object.{
  write_object, read_object, parse_object, ctrl_word, build_id_word, pack, objctrl_dlc_mask,
}
use dspic33ak_can_cmsis_driv.Canfd.Object.Header.{IsId, ctrl_word-IsCtrl}
use dspic33ak_can_cmsis_driv.Canfd.Object.Payload.{IsPayload}
use dspic33ak_can_cmsis_driv.Canfd.Object.RoundTrip.{padded, read_object-write_object}
use dspic33ak_can_cmsis_driv.Canfd.Node.Transfer.{load_words, fetch}

-- Message RAM that holds its words while it is read: neither a load nor the read of a register of the
-- CPU changes them.
pub record IsRam (chip : Chip) : Type 0 where
  pub word : chip.State → ℕ → ℕ
  pub load_word : (a : ℕ) (s : chip.State) → (chip.load a s).0 ≡ word s a
  pub load_keeps : (a b : ℕ) (s : chip.State) → word (chip.load a s).1 b ≡ word s b
  pub read_keeps :
      (i : Instance) (r : Reg) (b : ℕ) (s : chip.State) → word (chip.read i r s).1 b ≡ word s b

length-pack : (f : Frame) (n w : ℕ) → length (pack n w f) ≡ n
unfolding pack
length-pack f zero w = refl
length-pack f (suc n) w = ap suc (length-pack f n (w + 1))

abbrev payload_words : Frame → List ℕ
payload_words f = pack (u8 ((dlc_to_len (len_to_dlc f.len) + 3) / 4)) 0 f

parsed :
    (f : Frame)
    → parse_object
        (build_id_word f)
        (ctrl_word (len_to_dlc f.len) f.extended f.fd f.brs)
        (payload_words f)
      ≡ read_object (write_object f)
unfolding read_object write_object
parsed f = refl

module _ (chip : Chip) (ram : IsRam chip) where
  open chip use {State, read, load}
  open ram use {word}

  -- The words of a list stand in memory from an address on.
  abbrev pub Holds : State → ℕ → List ℕ → Type 0
  Holds s a xs = (k : ℕ) → k < length xs → word s (a + k * 4) ≡ get_or xs k 0

  load_words_lem :
      (xs : List ℕ) (a : ℕ) (s : State) → Holds s a xs → (load_words chip a (length xs) s).0 ≡ xs
  unfolding load_words
  load_words_lem [] a s h = refl
  load_words_lem (x ∷ xs) a s h =
      let head =
        ram.load_word a s ∙ ap (word s) {x = a} {y = a + 0 * 4} (omega arith) ∙ h 0 (omega arith) in
      let tail = load_words_lem xs (a + 4) (load a s).1 (λ k small.
        ram.load_keeps a (a + 4 + k * 4) s
        ∙ ap (word s) {x = a + 4 + k * 4} {y = a + suc k * 4} (omega arith)
        ∙ h (suc k) (omega arith)) in
      ap₂ (λ y l. y ∷ l) head tail

  -- The words of an object that stands in memory before the register and two words are read.
  object_tail :
      (i : Instance) (f : Frame) (s : State) (a : ℕ)
      → Holds s a (write_object f)
      → let s1 = (read i Reg.fifoua1 s).1 in
        Holds (load (a + 4) (load a s1).1).1 (a + 8) (payload_words f)
  unfolding write_object
  object_tail i f s a h k small =
      let s1 = (read i Reg.fifoua1 s).1 in
      let b = a + 8 + k * 4 in
      ram.load_keeps (a + 4) b (load a s1).1
      ∙ ram.load_keeps a b s1
      ∙ ram.read_keeps i Reg.fifoua1 b s
      ∙ ap (word s) {x = b} {y = a + suc (suc k) * 4} (omega arith)
      ∙ h (suc (suc k)) (omega arith)

  id_stored :
      (f : Frame) (s : State) (a : ℕ) → Holds s a (write_object f) → word s a ≡ build_id_word f
  unfolding write_object
  id_stored f s a h = ap (word s) {x = a} {y = a + 0 * 4} (omega arith) ∙ h 0 (omega arith)

  ctrl_stored :
      (f : Frame) (s : State) (a : ℕ)
      → Holds s a (write_object f)
      → word s (a + 4) ≡ ctrl_word (len_to_dlc f.len) f.extended f.fd f.brs
  unfolding write_object
  ctrl_stored f s a h = ap (word s) {x = a + 4} {y = a + 1 * 4} (omega arith) ∙ h 1 (omega arith)

  -- If the object of a frame stands at the user address of the FIFO, where the frame has an
  -- identifier of its kind, at most 64 bytes and as many as its length says, the frame that is
  -- fetched is that frame, padded to the length of its code.
  pub fetch_delivers :
      (i : Instance) (s : State) (f : Frame)
      → IsId f.extended f.id
      → IsPayload f
      → Holds s (read i Reg.fifoua1 s).0 (write_object f)
      → (fetch chip i s).0 ≡ padded f
  unfolding fetch
  fetch_delivers i s f id v h =
      let a = (read i Reg.fifoua1 s).0 in
      let s1 = (read i Reg.fifoua1 s).1 in
      let s2 = (load a s1).1 in
      let s3 = (load (a + 4) s2).1 in
      let dlc = len_to_dlc f.len in
      let (small, _, most, _) = len_to_dlc_smallest f.len v.at_most in
      let ctrl = ctrl_word dlc f.extended f.fd f.brs in
      let id_read = ram.load_word a s1 ∙ ram.read_keeps i Reg.fifoua1 a s ∙ id_stored f s a h in
      let ctrl_read =
        ram.load_word (a + 4) s2
        ∙ ram.load_keeps a (a + 4) s1
        ∙ ram.read_keeps i Reg.fifoua1 (a + 4) s
        ∙ ctrl_stored f s a h in
      let n = (dlc_to_len (bit_and (load (a + 4) s2).0 objctrl_dlc_mask) + 3) / 4 in
      let length_read = ap dlc_to_len (
        ap (λ c. bit_and c objctrl_dlc_mask) ctrl_read
        ∙ (ctrl_word-IsCtrl dlc f.extended f.fd f.brs small).dlc_read) in
      let count : n ≡ length (payload_words f) =
        omega (arith, length_read, most, length-pack f (u8 ((dlc_to_len dlc + 3) / 4)) 0) in
      let stored =
        ap (λ m. (load_words chip (a + 8) m s3).0) count
        ∙ load_words_lem (payload_words f) (a + 8) s3 (object_tail i f s a h) in
      ap₂ (λ x c. parse_object x c (load_words chip (a + 8) n s3).0) id_read ctrl_read
      ∙ ap (parse_object (build_id_word f) ctrl) stored
      ∙ parsed f
      ∙ read_object-write_object f id v
