-- ===== src/Canfd/Node/Transfer.antt =====
-- `nora_canfd_transmit`, `nora_canfd_rx_available` and `nora_canfd_receive` of
-- src/hal_can/nora_canfd_node_dspic33ak.c, for a valid instance and a frame pointer that is not
-- NULL.
use dspic33ak_can_cmsis_driv.Prelude.{ℕ, zero, suc, ◌+◌, ◌/◌, Bool, false, not, ◌&&◌, bit_and}
use dspic33ak_can_cmsis_driv.Prelude.{none, some, List, [], ◌∷◌, ltb, if◌then◌else◌}
use dspic33ak_can_cmsis_driv.Canfd.{Instance, Status, is_ok, Frame}
use dspic33ak_can_cmsis_driv.Canfd.Chip.{Chip, Reg, reg_set}
use dspic33ak_can_cmsis_driv.Canfd.Node.{World, Run, done, wait_flag, flag_up, after_wait}
use dspic33ak_can_cmsis_driv.Canfd.Object.{write_object, parse_object, objctrl_dlc_mask}
use dspic33ak_can_cmsis_driv.Canfd.Dlc.{dlc_to_len}
use dspic33ak_can_cmsis_driv.Canfd.Registers.{fifocon_uinc, fifocon_txreq}

module _ (chip : Chip) where
  open chip use {State, read, load, store}

  -- The words of an object are stored in turn from an address on.
  unfoldable pub store_words : ℕ → List ℕ → State → State
  store_words a [] s = s
  store_words a (x ∷ xs) s = store_words (a + 4) xs (store a x s)

  -- `n` words are loaded in turn from an address on.
  unfoldable pub load_words : ℕ → ℕ → State → List ℕ × State
  load_words a zero s = ([], s)
  load_words a (suc n) s =
      let (x, s') = load a s in let (xs, s'') = load_words (a + 4) n s' in (x ∷ xs, s'')

  -- From the read of `regs->TXQUA` on.
  unfoldable pub commit : Instance → Frame → State → State
  unfolding store_words
  commit i f s =
      let (a, s1) = read i Reg.txqua s in
      let s2 = store_words a (write_object f) s1 in
      let s3 = reg_set chip i Reg.txqcon fifocon_uinc s2 in
      reg_set chip i Reg.txqcon fifocon_txreq s3

  -- `nora_canfd_transmit` after its `wait_flag`
  unfoldable pub with_room : Instance → Frame → Status → World State → Run State
  unfolding commit
  with_room i f st w =
      if not (is_ok st) then done st w else done Status.ok (record w { chip = commit i f w.chip })

  unfoldable pub nora_canfd_transmit : ℕ → Instance → Frame → World State → Run State
  unfolding with_room
  nora_canfd_transmit fuel i f w =
      if ltb 64 f.len
      then done Status.err_invalid_arg w
      else if not f.fd && ltb 8 f.len
      then done Status.err_invalid_arg w
      else if not (w.g_node i).initialized
      then done Status.err_not_initialized w
      else after_wait chip (wait_flag chip fuel i Reg.txqsta 1 (w.g_node i) w.chip) w
          (with_room i f)

  unfoldable pub nora_canfd_rx_available : Instance → World State → Bool × World State
  nora_canfd_rx_available i w =
      let (up, s) = flag_up chip i Reg.fifosta1 1 w.chip in
      if not (w.g_node i).initialized then (false, w) else (up, record w { chip = s })

  -- From the read of `regs->FIFOUA1` on: the frame, and the chip with the object released.
  unfoldable pub fetch : Instance → State → Frame × State
  unfolding load_words
  fetch i s =
      let (a, s1) = read i Reg.fifoua1 s in
      let (id_word, s2) = load a s1 in
      let (ctrl, s3) = load (a + 4) s2 in
      let len = dlc_to_len (bit_and ctrl objctrl_dlc_mask) in
      let (stored, s4) = load_words (a + 8) ((len + 3) / 4) s3 in
      (parse_object id_word ctrl stored, reg_set chip i Reg.fifocon1 fifocon_uinc s4)

  -- How a receive ends: out of fuel, with a frame, or with an error, when the frame is not written.
  pub data Received : Type 0 where
    starved : Received
    frame : Frame → World State → Received
    error : Status → World State → Received

  unfoldable pub nora_canfd_receive : ℕ → Instance → World State → Received
  unfolding fetch
  nora_canfd_receive fuel i w =
      if not (w.g_node i).initialized
      then error Status.err_not_initialized w
      else elim (wait_flag chip fuel i Reg.fifosta1 1 (w.g_node i) w.chip) [
        | none ↦ starved
        | some (Status.ok, s) ↦ let (f, s') = fetch i s in frame f (record w { chip = s' })
        | some (_, s) ↦ error Status.err_no_message (record w { chip = s })
      ]
