-- ===== src/Canfd/Node/Consistent.antt =====
-- `g_node[i].initialized` and `g_mode[i]` agree: what `nora_canfd_is_initialized` reports of an
-- instance is what the node holds of it.
use dspic33ak_can_cmsis_driv.Prelude.{
  ℕ, ◌≡◌, refl, arith, Bool, true, false, not, ◌||◌, ◌&&◌, Option, none, some, Bool-cases, inl, inr,
}
use dspic33ak_can_cmsis_driv.Prelude.{ltb, ◌==◌, if◌then◌else◌}
use dspic33ak_can_cmsis_driv.Canfd.{Instance, Status, is_ok, Mode, Config, Frame}
use dspic33ak_can_cmsis_driv.Canfd.Timing.{Words, Calculated, trapped, failed, words}
use dspic33ak_can_cmsis_driv.Canfd.Chip.{Chip}
use dspic33ak_can_cmsis_driv.Canfd.Node.{
  NodeState, World, Run, trap, dry, done, set_at, same_instance,
}
use dspic33ak_can_cmsis_driv.Canfd.Node.{is_none_mode, after_wait}
use dspic33ak_can_cmsis_driv.Canfd.Node.Bringup.{
  is_bad_config, entered, in_configuration, bring_up, nora_canfd_init,
}
use dspic33ak_can_cmsis_driv.Canfd.Node.Bringup.{
  retime, change_timing, nora_canfd_set_bitrate, shut_down, nora_canfd_deinit,
}
use dspic33ak_can_cmsis_driv.Canfd.Node.Bringup.{forget}
use dspic33ak_can_cmsis_driv.Canfd.Node.Transfer.{with_room, nora_canfd_transmit}

-- The node of every instance is initialised exactly if the instance has a mode.
abbrev pub IsConsistent : {S : Type 0} → World S → Type 0
IsConsistent w = (i : Instance) → (w.g_node i).initialized ≡ not (is_none_mode (w.g_mode i))

-- The state that a call leaves, if it ends, is consistent.
abbrev pub Leaves : {S : Type 0} → Run S → Type 0
Leaves trap = Unit {0}
Leaves dry = Unit {0}
Leaves (done st w) = IsConsistent w

pub good_mode : (c : Config) → is_bad_config c ≡ false → is_none_mode c.mode ≡ false
unfolding is_bad_config
good_mode c e = ground arith

module _ {S : Type 0} where
  if-Leaves :
      (b : Bool) (x y : Run S) → Leaves x → (b ≡ false → Leaves y) → Leaves (if b then x else y)
  if-Leaves true x y h k = h
  if-Leaves false x y h k = k refl

  -- A new node and mode for one instance.
  set_at-IsConsistent :
      (w : World S) (i : Instance) (n : NodeState) (m : Mode)
      → n.initialized ≡ not (is_none_mode m)
      → IsConsistent w
      → IsConsistent (record w { g_node = set_at w.g_node i n; g_mode = set_at w.g_mode i m })
  set_at-IsConsistent w i n m e v j = go (same_instance i j)
    where
      go :
          (b : Bool)
          → (if b then n else w.g_node j).initialized
            ≡ not (is_none_mode (if b then m else w.g_mode j))
      go true = e
      go false = v j

module _ (chip : Chip) where
  open chip use {State}

  after_wait-Leaves :
      (o : Option (Status × State)) (w : World State) (k : Status → World State → Run State)
      → ((st : Status) (s : State) → Leaves (k st (record w { chip = s })))
      → Leaves (after_wait chip o w k)
  after_wait-Leaves none w k h = tt
  after_wait-Leaves (some (st, s)) w k h = h st s

  entered-Leaves :
      (i : Instance) (c : Config) (st : Status) (w : World State)
      → is_none_mode c.mode ≡ false
      → IsConsistent w
      → Leaves (entered chip i c st w)
  unfolding entered
  entered-Leaves i c st w mode v =
      let n : NodeState = w.g_node i in
      if-Leaves (not (is_ok st)) _ _ v (λ _.
        set_at-IsConsistent w i (record n { initialized = true }) c.mode (ground (arith, mode)) v)

  in_configuration-Leaves :
      (fuel : ℕ) (i : Instance) (c : Config) (t : Words) (st : Status) (w : World State)
      → is_none_mode c.mode ≡ false
      → IsConsistent w
      → Leaves (in_configuration chip fuel i c t st w)
  unfolding in_configuration
  in_configuration-Leaves fuel i c t st w mode v =
      if-Leaves (not (is_ok st)) _ _ v
        (λ _. after_wait-Leaves _ w (entered chip i c) (λ st s. entered-Leaves i c st _ mode v))

  bring_up-Leaves :
      (fuel : ℕ) (i : Instance) (c : Config) (t : Words) (w : World State)
      → is_none_mode c.mode ≡ false
      → IsConsistent w
      → Leaves (bring_up chip fuel i c t w)
  unfolding bring_up
  bring_up-Leaves fuel i c t w mode v =
      after_wait-Leaves _ _ (in_configuration chip fuel i c t) (λ st s.
        in_configuration-Leaves fuel i c t st _ mode (
          set_at-IsConsistent w i
            (record { initialized = false; has_get_ms = c.has_get_ms; timeout_ms = c.timeout_ms })
            Mode.none refl v))

  calculated-Leaves :
      (r : Calculated) (w : World State) (k : Words → Run State)
      → IsConsistent w
      → ((t : Words) → Leaves (k t))
      → Leaves (elim r [ trapped ↦ trap | failed st ↦ done st w | words t ↦ k t ])
  calculated-Leaves trapped w k v h = tt
  calculated-Leaves (failed st) w k v h = v
  calculated-Leaves (words t) w k v h = h t

  nora_canfd_init-Leaves :
      (fuel : ℕ) (i : Instance) (c : Config) (w : World State)
      → IsConsistent w
      → Leaves (nora_canfd_init chip fuel i c w)
  unfolding nora_canfd_init
  nora_canfd_init-Leaves fuel i c w v = if-Leaves (is_bad_config c) _ _ v (λ good.
      if-Leaves (not (chip.present i)) _ _ v (λ _.
        calculated-Leaves _ w (λ t. bring_up chip fuel i c t w) v
          (λ t. bring_up-Leaves fuel i c t w (good_mode c good) v)))

  retime-Leaves :
      (fuel : ℕ) (i : Instance) (t : Words) (m : Mode) (st : Status) (w : World State)
      → IsConsistent w
      → Leaves (retime chip fuel i t m st w)
  unfolding retime
  retime-Leaves fuel i t m st w v =
      if-Leaves (not (is_ok st)) _ _ v (λ _. after_wait-Leaves _ w done (λ st s. v))

  change_timing-Leaves :
      (fuel : ℕ) (i : Instance) (t : Words) (w : World State)
      → IsConsistent w
      → Leaves (change_timing chip fuel i t w)
  unfolding change_timing
  change_timing-Leaves fuel i t w v =
      after_wait-Leaves _ w (retime chip fuel i t (w.g_mode i))
        (λ st s. retime-Leaves fuel i t (w.g_mode i) st _ v)

  nora_canfd_set_bitrate-Leaves :
      (fuel : ℕ) (i : Instance) (clk nominal fd sample : ℕ) (w : World State)
      → IsConsistent w
      → Leaves (nora_canfd_set_bitrate chip fuel i clk nominal fd sample w)
  unfolding nora_canfd_set_bitrate
  nora_canfd_set_bitrate-Leaves fuel i clk nominal fd sample w v =
      if-Leaves (clk == 0 || nominal == 0 || fd == 0) _ _ v (λ _.
        if-Leaves (not (chip.present i)) _ _ v (λ _.
          if-Leaves (not (w.g_node i).initialized) _ _ v (λ _.
            calculated-Leaves _ w (λ t. change_timing chip fuel i t w) v
              (λ t. change_timing-Leaves fuel i t w v))))

  forget-IsConsistent :
      (i : Instance) (w : World State)
      → is_none_mode (w.g_mode i) ≡ true
      → IsConsistent w
      → IsConsistent (forget chip i w)
  forget-IsConsistent Instance.inst_1 w e v Instance.inst_1 = ground (arith, e)
  forget-IsConsistent Instance.inst_1 w e v Instance.inst_2 = v Instance.inst_2
  forget-IsConsistent Instance.inst_2 w e v Instance.inst_1 = v Instance.inst_1
  forget-IsConsistent Instance.inst_2 w e v Instance.inst_2 = ground (arith, e)

  forgotten-Leaves :
      (i : Instance) (w : World State) (rest : Run State)
      → IsConsistent w
      → Leaves rest
      → Leaves (if is_none_mode (w.g_mode i) then done Status.ok (forget chip i w) else rest)
  forgotten-Leaves i w rest v h = elim (Bool-cases (is_none_mode (w.g_mode i))) [
    | inl e ↦ rw e (forget-IsConsistent i w e v)
    | inr e ↦ rw e h
  ]

  nora_canfd_deinit-Leaves :
      (fuel : ℕ) (i : Instance) (w : World State)
      → IsConsistent w
      → Leaves (nora_canfd_deinit chip fuel i w)
  unfolding nora_canfd_deinit shut_down
  nora_canfd_deinit-Leaves fuel i w v =
      let n : NodeState = w.g_node i in
      if-Leaves (not (chip.present i)) _ _ v (λ _. forgotten-Leaves i w _ v (
        after_wait-Leaves _ w (shut_down chip i)
          (λ st s. set_at-IsConsistent w i (record n { initialized = false }) Mode.none refl v)))

  with_room-Leaves :
      (i : Instance) (f : Frame) (st : Status) (w : World State)
      → IsConsistent w
      → Leaves (with_room chip i f st w)
  unfolding with_room
  with_room-Leaves i f st w v = if-Leaves (not (is_ok st)) _ _ v (λ _. v)

  nora_canfd_transmit-Leaves :
      (fuel : ℕ) (i : Instance) (f : Frame) (w : World State)
      → IsConsistent w
      → Leaves (nora_canfd_transmit chip fuel i f w)
  unfolding nora_canfd_transmit
  nora_canfd_transmit-Leaves fuel i f w v = if-Leaves (ltb 64 f.len) _ _ v (λ _.
      if-Leaves (not f.fd && ltb 8 f.len) _ _ v (λ _.
        if-Leaves (not (w.g_node i).initialized) _ _ v
          (λ _. after_wait-Leaves _ w (with_room chip i f) (λ st s. with_room-Leaves i f st _ v))))

  -- If the node and the mode of every instance agree, they agree after every call of
  -- `nora_canfd_init`, `nora_canfd_set_bitrate`, `nora_canfd_deinit` and `nora_canfd_transmit` that
  -- ends, whatever it returns and whatever the hardware does.
  pub node_calls-IsConsistent :
      (w : World State)
      → IsConsistent w
      → ((fuel : ℕ) (i : Instance) (c : Config) → Leaves (nora_canfd_init chip fuel i c w))
        × ((fuel : ℕ) (i : Instance) (clk nominal fd sample : ℕ)
            → Leaves (nora_canfd_set_bitrate chip fuel i clk nominal fd sample w))
        × ((fuel : ℕ) (i : Instance) → Leaves (nora_canfd_deinit chip fuel i w))
        × ((fuel : ℕ) (i : Instance) (f : Frame) → Leaves (nora_canfd_transmit chip fuel i f w))
  node_calls-IsConsistent w v = (
    λ fuel i c. nora_canfd_init-Leaves fuel i c w v,
    λ fuel i clk nominal fd sample. nora_canfd_set_bitrate-Leaves fuel i clk nominal fd sample w v,
    λ fuel i. nora_canfd_deinit-Leaves fuel i w v,
    λ fuel i f. nora_canfd_transmit-Leaves fuel i f w v,
  )
