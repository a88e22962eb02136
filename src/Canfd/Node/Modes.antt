-- ===== src/Canfd/Node/Modes.antt =====
-- What the calls of the node leave of the mode of an instance, the one thing that
-- `nora_canfd_is_initialized` reads.
use dspic33ak_can_cmsis_driv.Prelude.{
  ℕ, ◌≡◌, refl, arith, Bool, true, false, not, ◌||◌, ◌&&◌, Option, none, some, if_holds,
}
use dspic33ak_can_cmsis_driv.Prelude.{ltb, ◌==◌}
use dspic33ak_can_cmsis_driv.Canfd.{Instance, Status, is_ok, Mode, Config, Frame}
use dspic33ak_can_cmsis_driv.Canfd.Timing.{Words, Calculated, trapped, failed, words}
use dspic33ak_can_cmsis_driv.Canfd.Chip.{Chip}
use dspic33ak_can_cmsis_driv.Canfd.Node.{World, Run, trap, dry, done}
use dspic33ak_can_cmsis_driv.Canfd.Node.{is_none_mode, after_wait}
use dspic33ak_can_cmsis_driv.Canfd.Node.Bringup.{is_bad_config, nora_canfd_init}
use dspic33ak_can_cmsis_driv.Canfd.Node.Bringup.{
  retime, change_timing, nora_canfd_set_bitrate, shut_down, nora_canfd_deinit,
}
use dspic33ak_can_cmsis_driv.Canfd.Node.Consistent.{good_mode}
use dspic33ak_can_cmsis_driv.Canfd.Node.Outcome.{set_at_same}
use dspic33ak_can_cmsis_driv.Canfd.Node.Transfer.{with_room, nora_canfd_transmit}
use dspic33ak_can_cmsis_driv.Canfd.Node.Transfer.{
  Received, starved, frame, error, fetch, nora_canfd_rx_available, nora_canfd_receive,
}

-- If the call ends, this holds of the status and the state.
abbrev pub Ends : {S : Type 0} → (Status → World S → Type 0) → Run S → Type 0
Ends P trap = Unit {0}
Ends P dry = Unit {0}
Ends P (done st w) = P st w

module _ (chip : Chip) where
  open chip use {State, present}

  module _ (P : Status → World State → Type 0) where
    any-Ends : (r : Run State) → ((st : Status) (w : World State) → P st w) → Ends P r
    any-Ends trap h = tt
    any-Ends dry h = tt
    any-Ends (done st w) h = h st w

    after_wait-Ends :
        (o : Option (Status × State)) (w : World State) (k : Status → World State → Run State)
        → ((st : Status) (s : State) → Ends P (k st (record w { chip = s })))
        → Ends P (after_wait chip o w k)
    after_wait-Ends none w k h = tt
    after_wait-Ends (some (st, s)) w k h = h st s

    calculated-Ends :
        (r : Calculated) (w : World State) (k : Words → Run State)
        → ((st : Status) → P st w)
        → ((t : Words) → Ends P (k t))
        → Ends P (elim r [ trapped ↦ trap | failed st ↦ done st w | words t ↦ k t ])
    calculated-Ends trapped w k v h = tt
    calculated-Ends (failed st) w k v h = v st
    calculated-Ends (words t) w k v h = h t

  -- The modes of all instances are those before.
  abbrev pub SameModes : World State → Status → World State → Type 0
  SameModes w st w' = w'.g_mode ≡ w.g_mode

  pub set_bitrate-SameModes :
      (fuel : ℕ) (i : Instance) (clk nominal fd sample : ℕ) (w : World State)
      → Ends (SameModes w) (nora_canfd_set_bitrate chip fuel i clk nominal fd sample w)
  unfolding nora_canfd_set_bitrate change_timing retime
  set_bitrate-SameModes fuel i clk nominal fd sample w =
      let E = Ends (SameModes w) in
      if_holds E (clk == 0 || nominal == 0 || fd == 0) _ _ (λ _. refl)
        λ _.
          if_holds E (not (present i)) _ _ (λ _. refl)
            λ _.
              if_holds E (not (w.g_node i).initialized) _ _ (λ _. refl)
                λ _.
                  calculated-Ends (SameModes w) _ w (λ t. change_timing chip fuel i t w) (λ _. refl)
                    λ t.
                      after_wait-Ends (SameModes w) _ w (retime chip fuel i t (w.g_mode i)) λ st s.
                        if_holds E (not (is_ok st)) _ _ (λ _. refl)
                          λ _. after_wait-Ends (SameModes w) _ _ done λ st s. refl

  pub transmit-SameModes :
      (fuel : ℕ) (i : Instance) (f : Frame) (w : World State)
      → Ends (SameModes w) (nora_canfd_transmit chip fuel i f w)
  unfolding nora_canfd_transmit with_room
  transmit-SameModes fuel i f w =
      let E = Ends (SameModes w) in
      if_holds E (ltb 64 f.len) _ _ (λ _. refl)
        λ _.
          if_holds E (not f.fd && ltb 8 f.len) _ _ (λ _. refl)
            λ _.
              if_holds E (not (w.g_node i).initialized) _ _ (λ _. refl)
                λ _.
                  after_wait-Ends (SameModes w) _ w (with_room chip i f)
                    λ st s. if_holds E (not (is_ok st)) _ _ (λ _. refl) (λ _. refl)

  pub available-SameModes :
      (i : Instance) (w : World State) → (nora_canfd_rx_available chip i w).1.g_mode ≡ w.g_mode
  unfolding nora_canfd_rx_available
  available-SameModes i w =
      if_holds (λ (r : Bool × World State). r.1.g_mode ≡ w.g_mode) (not (w.g_node i).initialized) _
        _ (λ _. refl) (λ _. refl)

  -- Of a receive that ends.
  abbrev pub ReceivedModes : World State → Received chip → Type 0
  ReceivedModes w starved = Unit {0}
  ReceivedModes w (frame f w') = w'.g_mode ≡ w.g_mode
  ReceivedModes w (error st w') = w'.g_mode ≡ w.g_mode

  -- The instance is in no mode, or its registers are not there.
  pub deinit-none :
      (fuel : ℕ) (i : Instance) (w : World State)
      → Ends
          (λ st w'. (present i && not (is_none_mode (w'.g_mode i))) ≡ false)
          (nora_canfd_deinit chip fuel i w)
  unfolding nora_canfd_deinit shut_down
  deinit-none fuel i w =
      let P : Status → World State → Type 0 =
        λ st w'. (present i && not (is_none_mode (w'.g_mode i))) ≡ false in
      if_holds (Ends P) (not (present i)) _ _ (λ e. ground (arith, e))
        λ _.
          if_holds (Ends P) (is_none_mode (w.g_mode i)) _ _ (λ e. ground (arith, e))
            λ _.
              after_wait-Ends P _ w (shut_down chip i)
                λ st s. ground (arith, set_at_same w.g_mode i Mode.none)

  -- An OK of `nora_canfd_init` comes only where the registers are there and the mode is one.
  pub init_ok-present :
      (fuel : ℕ) (i : Instance) (c : Config) (w : World State)
      → Ends
          (λ st w'. is_ok st ≡ true → (present i ≡ true) × (is_none_mode c.mode ≡ false))
          (nora_canfd_init chip fuel i c w)
  unfolding nora_canfd_init
  init_ok-present fuel i c w =
      let P : Status → World State → Type 0 =
        λ st w'. is_ok st ≡ true → (present i ≡ true) × (is_none_mode c.mode ≡ false) in
      if_holds (Ends P) (is_bad_config c) _ _ (λ _ e. absurd (ground arith))
        λ good.
          if_holds (Ends P) (not (present i)) _ _ (λ _ e. absurd (ground arith))
            λ there. any-Ends P _ λ st w' _. (ground (arith, there), good_mode c good)

  waited-ReceivedModes :
      (w : World State) (o : Option (Status × State)) (i : Instance)
      → ReceivedModes w (elim o [
        | none ↦ starved
        | some (Status.ok, s) ↦ let (f, s') = fetch chip i s in frame f (record w { chip = s' })
        | some (_, s) ↦ error Status.err_no_message (record w { chip = s })
      ])
  waited-ReceivedModes w none i = tt
  waited-ReceivedModes w (some (st, s)) i = ground arith

  pub receive-ReceivedModes :
      (fuel : ℕ) (i : Instance) (w : World State)
      → ReceivedModes w (nora_canfd_receive chip fuel i w)
  unfolding nora_canfd_receive
  receive-ReceivedModes fuel i w =
      if_holds (ReceivedModes w) (not (w.g_node i).initialized) _ _ (λ _. refl)
        (λ _. waited-ReceivedModes w _ i)
