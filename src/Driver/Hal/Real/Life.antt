-- ===== src/Driver/Hal/Real/Life.antt =====
-- The HAL keeps the life cycle that the driver relies on.
use dspic33ak_can_cmsis_driv.Prelude.{
  ℕ, ◌≡◌, ◌⊎◌, inl, refl, arith, Bool, true, false, not, ◌&&◌, none, some,
}
use dspic33ak_can_cmsis_driv.Prelude.{◌==◌, if◌then◌else◌}
use dspic33ak_can_cmsis_driv.Canfd.{Instance, is_ok, Config, Frame}
use dspic33ak_can_cmsis_driv.Canfd.Node.{Run, trap, dry, done, is_none_mode, set_at}
use dspic33ak_can_cmsis_driv.Canfd.Node.Bringup.{nora_canfd_init, nora_canfd_deinit}
use dspic33ak_can_cmsis_driv.Canfd.Node.Modes.{
  Ends, SameModes, ReceivedModes, set_bitrate-SameModes,
}
use dspic33ak_can_cmsis_driv.Canfd.Node.Modes.{transmit-SameModes, available-SameModes}
use dspic33ak_can_cmsis_driv.Canfd.Node.Modes.{receive-ReceivedModes, deinit-none, init_ok-present}
use dspic33ak_can_cmsis_driv.Canfd.Node.Outcome.{IsOutcome, init-IsOutcome, set_at_same}
use dspic33ak_can_cmsis_driv.Canfd.Node.Transfer.{Received, starved, frame, error}
use dspic33ak_can_cmsis_driv.Canfd.Isr.{
  Events, System, nora_canfd_isr_set_callback, nora_canfd_isr_enable,
}
use dspic33ak_can_cmsis_driv.Canfd.Isr.{
  nora_canfd_isr_disable, nora_canfd_tx_abort, enable_receive, disarm_transmit, irq_tx_line_disable,
  irq_line_enable, set_line,
}
use dspic33ak_can_cmsis_driv.Canfd.Isr.Lines.{enable_keeps, disable_keeps}
use dspic33ak_can_cmsis_driv.Canfd.Isr.Handler.{nora_canfd_get_status}
use dspic33ak_can_cmsis_driv.Driver.Hal.Lifecycle.{View, IsLifecycle}
use dspic33ak_can_cmsis_driv.Driver.Hal.Real.{
  HalState, running, stopped, Below, canfd, view, mark, is_given,
}
use dspic33ak_can_cmsis_driv.Driver.Hal.Real.{
  set_live, set_handler, set_armed, settle, settle_received,
}

mark_same : (f : View → View) (i : Instance) (v : Instance → View) → mark f i v i ≡ f (v i)
mark_same f Instance.inst_1 v = refl
mark_same f Instance.inst_2 v = refl

module _ (below : Below) where
  open below use {chip, has_line, fuel}

  abbrev pub V : Instance → HalState chip.State → View
  V = view below

  -- A call of the node that leaves all modes.
  settle_same :
      (i : Instance) (s : System chip.State) (r : Run chip.State)
      → Ends (SameModes chip s.node) r
      → V i (settle below (mark (λ v. v) i) s r).1 ≡ V i (running s)
  settle_same i s trap e = mark_same (λ v. v) i (λ j. V j (running s))
  settle_same i s dry e = mark_same (λ v. v) i (λ j. V j (running s))
  settle_same i s (done st w) e = ground (arith, e)

  settle_deinit :
      (i : Instance) (s : System chip.State) (r : Run chip.State)
      → Ends (λ st w. (chip.present i && not (is_none_mode (w.g_mode i))) ≡ false) r
      → V i (settle below (mark (set_live false) i) s r).1 ≡ set_live false (V i (running s))
  settle_deinit i s trap e = mark_same (set_live false) i (λ j. V j (running s))
  settle_deinit i s dry e = mark_same (set_live false) i (λ j. V j (running s))
  settle_deinit i s (done st w) e = ground (arith, e)

  settle_init_ok :
      (i : Instance) (c : Config) (s : System chip.State) (r : Run chip.State)
      → Ends (λ st w. is_ok st ≡ true → (chip.present i ≡ true) × (is_none_mode c.mode ≡ false)) r
      → IsOutcome chip i c s.node r
      → is_ok (settle below (mark (λ v. v) i) s r).0 ≡ true
      → V i (settle below (mark (λ v. v) i) s r).1 ≡ set_live true (V i (running s))
  settle_init_ok i c s trap e o ok = absurd (ground arith)
  settle_init_ok i c s dry e o ok = absurd (ground arith)
  settle_init_ok i c s (done st w) e o ok = ground (arith, e ok)

  settle_init_error :
      (i : Instance) (c : Config) (s : System chip.State) (r : Run chip.State)
      → IsOutcome chip i c s.node r
      → is_ok (settle below (mark (λ v. v) i) s r).0 ≡ false
      → (V i (settle below (mark (λ v. v) i) s r).1 ≡ V i (running s))
        ⊎ (V i (settle below (mark (λ v. v) i) s r).1 ≡ set_live false (V i (running s)))
  settle_init_error i c s trap o bad = inl (mark_same (λ v. v) i (λ j. V j (running s)))
  settle_init_error i c s dry o bad = inl (mark_same (λ v. v) i (λ j. V j (running s)))
  settle_init_error i c s (done st w) o bad = ground arith

  settle_receive :
      (i : Instance) (s : System chip.State) (r : Received chip)
      → ReceivedModes chip s.node r
      → V i (settle_received below s r).2 ≡ V i (running s)
  settle_receive i s starved e = refl
  settle_receive i s (frame f w) e = ground (arith, e)
  settle_receive i s (error st w) e = ground (arith, e)

  enable_view :
      (i : Instance) (p : ℕ) (s : System chip.State)
      → let (st, s') = nora_canfd_isr_enable has_line chip i p s in
        V i (running s')
        ≡ (let v : View = V i (running s) in if is_ok st then record v { armed = true } else v)
  unfolding nora_canfd_isr_enable enable_receive
  enable_view i p s =
      let e : Events = s.isr in
      let e0 : Events = record e { g_tx_busy = set_at e.g_tx_busy i false } in
      let q = if p == 0 then 4 else p in
      let e1 = irq_line_enable has_line i q e0 in
      ground (arith, enable_keeps has_line i q e0, set_at_same e1.g_isr_enabled i true)

  disable_view :
      (i : Instance) (s : System chip.State)
      → V i (running (nora_canfd_isr_disable has_line chip i s).1)
        ≡ (let v : View = V i (running s) in record v { armed = false })
  unfolding nora_canfd_isr_disable
  disable_view i s =
      let e : Events = s.isr in
      let e0 : Events = record e { g_isr_enabled = set_at e.g_isr_enabled i false } in
      ground (arith, disable_keeps has_line i e0, set_at_same e.g_isr_enabled i false)

  abort_view :
      (i : Instance) (s : System chip.State)
      → V i (running (nora_canfd_tx_abort has_line chip i s).1) ≡ V i (running s)
  unfolding nora_canfd_tx_abort disarm_transmit irq_tx_line_disable set_line
  abort_view i s = ground arith

  status_view :
      (i : Instance) (s : System chip.State)
      → V i (running (nora_canfd_get_status has_line chip i s).2) ≡ V i (running s)
  unfolding nora_canfd_get_status
  status_view i s = ground arith

  -- The laws, by whether the program still runs.
  abbrev pub H : Type 0
  H = HalState chip.State

  init_ok_law :
      (i : Instance) (c : Config) (h : H)
      → is_ok ((canfd below).init i c h).0 ≡ true
      → V i ((canfd below).init i c h).1 ≡ set_live true (V i h)
  init_ok_law i c (stopped v) e = absurd (ground arith)
  init_ok_law i c (running s) e =
      settle_init_ok i c s (nora_canfd_init chip fuel i c s.node)
        (init_ok-present chip fuel i c s.node) (init-IsOutcome chip i c fuel s.node) e

  init_error_law :
      (i : Instance) (c : Config) (h : H)
      → is_ok ((canfd below).init i c h).0 ≡ false
      → (V i ((canfd below).init i c h).1 ≡ V i h)
        ⊎ (V i ((canfd below).init i c h).1 ≡ set_live false (V i h))
  init_error_law i c (stopped v) e = inl (mark_same (λ v. v) i v)
  init_error_law i c (running s) e =
      settle_init_error i c s (nora_canfd_init chip fuel i c s.node)
        (init-IsOutcome chip i c fuel s.node) e

  deinit_law : (i : Instance) (h : H) → V i ((canfd below).deinit i h).1 ≡ set_live false (V i h)
  deinit_law i (stopped v) = mark_same (set_live false) i v
  deinit_law i (running s) =
      settle_deinit i s (nora_canfd_deinit chip fuel i s.node) (deinit-none chip fuel i s.node)

  callback_law :
      (i : Instance) (b : Bool) (h : H)
      → V i ((canfd below).isr_set_callback i b h).1 ≡ set_handler b (V i h)
  unfolding nora_canfd_isr_set_callback
  callback_law i b (stopped v) = mark_same (set_handler b) i v
  callback_law i b (running s) =
      let callback = if b then some below.handler else none in
      ground (arith, set_at_same s.isr.g_cb i callback)

  enable_law :
      (i : Instance) (p : ℕ) (h : H)
      → V i ((canfd below).isr_enable i p h).1
        ≡ (if is_ok ((canfd below).isr_enable i p h).0 then set_armed true (V i h) else V i h)
  enable_law i p (stopped v) = mark_same (λ v. v) i v
  enable_law i p (running s) = enable_view i p s

  disable_law :
      (i : Instance) (h : H) → V i ((canfd below).isr_disable i h).1 ≡ set_armed false (V i h)
  disable_law i (stopped v) = mark_same (set_armed false) i v
  disable_law i (running s) = disable_view i s

  set_bitrate_law :
      (i : Instance) (clk nominal fd sample : ℕ) (h : H)
      → V i ((canfd below).set_bitrate i clk nominal fd sample h).1 ≡ V i h
  set_bitrate_law i clk nominal fd sample (stopped v) = mark_same (λ v. v) i v
  set_bitrate_law i clk nominal fd sample (running s) =
      settle_same i s _ (set_bitrate-SameModes chip fuel i clk nominal fd sample s.node)

  transmit_law : (i : Instance) (f : Frame) (h : H) → V i ((canfd below).transmit i f h).1 ≡ V i h
  transmit_law i f (stopped v) = mark_same (λ v. v) i v
  transmit_law i f (running s) = settle_same i s _ (transmit-SameModes chip fuel i f s.node)

  available_law : (i : Instance) (h : H) → V i ((canfd below).rx_available i h).1 ≡ V i h
  available_law i (stopped v) = refl
  available_law i (running s) = ground (arith, available-SameModes chip i s.node)

  receive_law : (i : Instance) (h : H) → V i ((canfd below).receive i h).2 ≡ V i h
  receive_law i (stopped v) = refl
  receive_law i (running s) = settle_receive i s _ (receive-ReceivedModes chip fuel i s.node)

  abort_law : (i : Instance) (h : H) → V i ((canfd below).tx_abort i h).1 ≡ V i h
  abort_law i (stopped v) = mark_same (λ v. v) i v
  abort_law i (running s) = abort_view i s

  status_law : (i : Instance) (h : H) → V i ((canfd below).get_status i h).2 ≡ V i h
  status_law i (stopped v) = refl
  status_law i (running s) = status_view i s

  pub canfd_life : IsLifecycle (canfd below)
  canfd_life = record {
    view = V;
    init_ok = init_ok_law;
    init_error = init_error_law;
    deinit_view = deinit_law;
    callback_view = callback_law;
    enable_view = enable_law;
    disable_view = disable_law;
    set_bitrate_view = set_bitrate_law;
    transmit_view = transmit_law;
    available_view = available_law;
    receive_view = receive_law;
    abort_view = abort_law;
    status_view = status_law;
  }

  pub canfd_view : (i : Instance) (h : H) → canfd_life.view i h ≡ V i h
  unfolding canfd_life
  canfd_view i h = refl

  -- The node layer and the event layer together keep the life cycle that the driver asks of its HAL,
  -- whatever the hardware does, with these three flags of an instance of a running program: there are
  -- registers and a mode; a callback is registered; there are registers and the layer is enabled.
  pub canfd-IsLifecycle :
      (life : IsLifecycle (canfd below)) × ((i : Instance) (s : System chip.State)
        → life.view i (running s) ≡ record {
          live = chip.present i && not (is_none_mode (s.node.g_mode i));
          handler = is_given (s.isr.g_cb i);
          armed = chip.present i && s.isr.g_isr_enabled i;
        })
  canfd-IsLifecycle = (canfd_life, λ i s. canfd_view i (running s))
