-- ===== src/Canfd/Node/Calls.antt =====
-- Every call of the node comes to an end, where it has a tick function and a timeout.
use dspic33ak_can_cmsis_driv.Prelude.{
  ℕ, ◌+◌, ◌*◌, ◌^◌, ◌<◌, ◌≡◌, ◌≢◌, refl, sym, subst, arith, ◌⊎◌, Bool, true, false, not, Option,
  none, some, if_holds,
}
use dspic33ak_can_cmsis_driv.Prelude.{ltb, ◌==◌, ◌||◌, ◌&&◌}
use dspic33ak_can_cmsis_driv.Canfd.{Instance, Status, is_ok, Config, Frame}
use dspic33ak_can_cmsis_driv.Canfd.Chip.{Chip, Reg}
use dspic33ak_can_cmsis_driv.Canfd.Timing.{Words, Calculated, trapped, failed, words}
use dspic33ak_can_cmsis_driv.Canfd.Node.{
  NodeState, World, Run, trap, dry, done, after_wait, mode_to_reqop, is_none_mode, wait_flag,
  request_mode,
}
use dspic33ak_can_cmsis_driv.Canfd.Node.Bringup.{
  is_bad_config, entered, in_configuration, bring_up, nora_canfd_init, retime, change_timing,
  nora_canfd_set_bitrate, shut_down, nora_canfd_deinit,
}
use dspic33ak_can_cmsis_driv.Canfd.Node.Transfer.{
  with_room, nora_canfd_transmit, nora_canfd_receive, Received, starved, frame, error, fetch,
}
use dspic33ak_can_cmsis_driv.Canfd.Node.Outcome.{set_at_same}
use dspic33ak_can_cmsis_driv.Canfd.Node.Waiting.{IsClock, wait_flag_ends}
use dspic33ak_can_cmsis_driv.Canfd.Node.Ending.{IsPaced, request_mode_ends}
use dspic33ak_can_cmsis_driv.Canfd.Registers.{opmode_config}

module _ (chip : Chip) (clock : IsClock chip) (paced : IsPaced chip clock) where
  open chip use {State, present}
  open clock use {rate, gap}

  -- A call of the node waits for ever only where it runs out of any fuel.
  abbrev pub is_dry : Run State → Bool
  is_dry dry = true
  is_dry _ = false

  -- The node has a tick function and a timeout that fits the counter, and the fuel is enough for it.
  pub record IsTimed (fuel : ℕ) (has_get_ms : Bool) (timeout_ms : ℕ) : Type 0 where
    pub has : has_get_ms ≡ true
    pub timed : timeout_ms ≢ 0
    pub fits : (timeout_ms + 1) * rate + (gap + gap) + gap + gap < 2 ^ 32 * rate
    pub enough : timeout_ms * rate + (gap + gap) < fuel

  abbrev pub IsTimedNode : ℕ → NodeState → Type 0
  IsTimedNode fuel n = IsTimed fuel n.has_get_ms n.timeout_ms

  after_wait_wet :
      (o : Option (Status × State)) (w : World State) (k : Status → World State → Run State)
      → (st : Status) × (s : State) × ((st ≡ Status.ok) ⊎ (st ≡ Status.err_timeout))
        × (o ≡ some (st, s))
      → ((st : Status) (s : State) → is_dry (k st (record w { chip = s })) ≡ false)
      → is_dry (after_wait chip o w k) ≡ false
  after_wait_wet none w k (st, s, _, e) h = cc
  after_wait_wet (some (st, s)) w k _ h = h st s

  -- A wait for a mode inside a call.
  asked_wet :
      (fuel : ℕ) (i : Instance) (reqop : ℕ) (n : NodeState) (s : State) (w : World State)
      (k : Status → World State → Run State)
      → IsTimedNode fuel n
      → ((st : Status) (s : State) → is_dry (k st (record w { chip = s })) ≡ false)
      → is_dry (after_wait chip (request_mode chip fuel i reqop n s) w k) ≡ false
  asked_wet fuel i reqop n s w k t h =
      after_wait_wet _ w k
        (request_mode_ends chip clock paced i reqop n fuel s t.has t.timed t.fits t.enough) h

  calculated_wet :
      (r : Calculated) (w : World State) (k : Words → Run State)
      → ((t : Words) → is_dry (k t) ≡ false)
      → is_dry (elim r [ trapped ↦ trap | failed st ↦ done st w | words t ↦ k t ]) ≡ false
  calculated_wet trapped w k h = refl
  calculated_wet (failed st) w k h = refl
  calculated_wet (words t) w k h = h t

  abbrev Wet : Run State → Type 0
  Wet r = is_dry r ≡ false

  init_ends :
      (fuel : ℕ) (i : Instance) (c : Config) (w : World State)
      → IsTimed fuel c.has_get_ms c.timeout_ms
      → is_dry (nora_canfd_init chip fuel i c w) ≡ false
  unfolding nora_canfd_init bring_up in_configuration entered
  init_ends fuel i c w t =
      let fresh : NodeState = record {
        initialized = false;
        has_get_ms = c.has_get_ms;
        timeout_ms = c.timeout_ms;
      } in
      let here = set_at_same w.g_node i fresh in
      if_holds Wet (is_bad_config c) _ _ (λ _. refl)
        λ _.
          if_holds Wet (not (present i)) _ _ (λ _. refl)
            λ _.
              calculated_wet _ w (λ t. bring_up chip fuel i c t w)
                λ words.
                  asked_wet fuel i opmode_config fresh _ _ (in_configuration chip fuel i c words) t
                    λ st s.
                      if_holds Wet (not (is_ok st)) _ _ (λ _. refl)
                        λ _.
                          asked_wet fuel i (mode_to_reqop c.mode) _ _ _ (entered chip i c)
                            (subst (IsTimedNode fuel) (sym here) t)
                            λ st s. if_holds Wet (not (is_ok st)) _ _ (λ _. refl) (λ _. refl)

  set_bitrate_ends :
      (fuel : ℕ) (i : Instance) (clk nominal fd sample : ℕ) (w : World State)
      → IsTimedNode fuel (w.g_node i)
      → Wet (nora_canfd_set_bitrate chip fuel i clk nominal fd sample w)
  unfolding nora_canfd_set_bitrate change_timing retime
  set_bitrate_ends fuel i clk nominal fd sample w t =
      let n : NodeState = w.g_node i in
      let back = mode_to_reqop (w.g_mode i) in
      if_holds Wet (clk == 0 || nominal == 0 || fd == 0) _ _ (λ _. refl)
        λ _.
          if_holds Wet (not (present i)) _ _ (λ _. refl)
            λ _.
              if_holds Wet (not n.initialized) _ _ (λ _. refl)
                λ _.
                  calculated_wet _ w (λ t. change_timing chip fuel i t w)
                    λ words.
                      asked_wet fuel i opmode_config n _ w (retime chip fuel i words (w.g_mode i)) t
                        λ st s.
                          if_holds Wet (not (is_ok st)) _ _ (λ _. refl)
                            λ _. asked_wet fuel i back n _ _ done t λ st s. refl

  deinit_ends :
      (fuel : ℕ) (i : Instance) (w : World State)
      → IsTimedNode fuel (w.g_node i)
      → Wet (nora_canfd_deinit chip fuel i w)
  unfolding nora_canfd_deinit shut_down
  deinit_ends fuel i w t =
      if_holds Wet (not (present i)) _ _ (λ _. refl)
        λ _.
          if_holds Wet (is_none_mode (w.g_mode i)) _ _ (λ _. refl)
            λ _. asked_wet fuel i opmode_config (w.g_node i) _ w (shut_down chip i) t λ st s. refl

  -- A wait for a flag.
  flag_ends :
      (fuel : ℕ) (i : Instance) (r : Reg) (n : NodeState) (s : State)
      → IsTimedNode fuel n
      → (st : Status) × (s' : State) × ((st ≡ Status.ok) ⊎ (st ≡ Status.err_timeout))
        × (wait_flag chip fuel i r 1 n s ≡ some (st, s'))
  flag_ends fuel i r n s t =
      wait_flag_ends chip clock i r 1 n fuel s t.has t.timed (omega (arith, t.fits))
        (omega (arith, t.enough))

  transmit_ends :
      (fuel : ℕ) (i : Instance) (f : Frame) (w : World State)
      → IsTimedNode fuel (w.g_node i)
      → Wet (nora_canfd_transmit chip fuel i f w)
  unfolding nora_canfd_transmit with_room
  transmit_ends fuel i f w t =
      let n : NodeState = w.g_node i in
      if_holds Wet (ltb 64 f.len) _ _ (λ _. refl)
        λ _.
          if_holds Wet (not f.fd && ltb 8 f.len) _ _ (λ _. refl)
            λ _.
              if_holds Wet (not n.initialized) _ _ (λ _. refl)
                λ _.
                  after_wait_wet _ w (with_room chip i f) (flag_ends fuel i Reg.txqsta n w.chip t)
                    λ st s. if_holds Wet (not (is_ok st)) _ _ (λ _. refl) (λ _. refl)

  abbrev pub is_starved : Received chip → Bool
  is_starved starved = true
  is_starved _ = false

  waited_fed :
      (o : Option (Status × State)) (i : Instance) (w : World State)
      → (st : Status) × (s : State) × ((st ≡ Status.ok) ⊎ (st ≡ Status.err_timeout))
        × (o ≡ some (st, s))
      → is_starved (elim o [
        | none ↦ starved
        | some (Status.ok, s) ↦ let (f, s') = fetch chip i s in frame f (record w { chip = s' })
        | some (_, s) ↦ error Status.err_no_message (record w { chip = s })
      ])
        ≡ false
  waited_fed none i w (st, s, _, e) = cc
  waited_fed (some (st, s)) i w _ = ground arith

  receive_ends :
      (fuel : ℕ) (i : Instance) (w : World State)
      → IsTimedNode fuel (w.g_node i)
      → is_starved (nora_canfd_receive chip fuel i w) ≡ false
  unfolding nora_canfd_receive
  receive_ends fuel i w t =
      let n : NodeState = w.g_node i in
      if_holds (λ r. is_starved r ≡ false) (not n.initialized) _ _ (λ _. refl)
        λ _. waited_fed _ i w (flag_ends fuel i Reg.fifosta1 n w.chip t)

  -- With a clock that neither readings nor accesses disturb, with a tick function and a timeout that
  -- is not 0 both in the configuration of a `nora_canfd_init` and in the node, which fit the counter
  -- with four accesses to spare, and with more fuel than cycles pass in them and in two accesses, no
  -- call of the node waits for ever.
  pub node_calls_end :
      (fuel : ℕ) (i : Instance) (w : World State) (c : Config) (clk nominal fd sample : ℕ)
      (f : Frame)
      → IsTimed fuel c.has_get_ms c.timeout_ms
      → IsTimedNode fuel (w.g_node i)
      → (is_dry (nora_canfd_init chip fuel i c w) ≡ false)
        × (is_dry (nora_canfd_set_bitrate chip fuel i clk nominal fd sample w) ≡ false)
        × (is_dry (nora_canfd_deinit chip fuel i w) ≡ false)
        × (is_dry (nora_canfd_transmit chip fuel i f w) ≡ false)
        × (is_starved (nora_canfd_receive chip fuel i w) ≡ false)
  node_calls_end fuel i w c clk nominal fd sample f config node = (
    init_ends fuel i c w config,
    set_bitrate_ends fuel i clk nominal fd sample w node,
    deinit_ends fuel i w node,
    transmit_ends fuel i f w node,
    receive_ends fuel i w node,
  )
