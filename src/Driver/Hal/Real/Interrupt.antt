-- ===== src/Driver/Hal/Real/Interrupt.antt =====
-- A receive interrupt, from the handler of the HAL through `can_hal_event` to the ring of the driver.
-- The contexts of the driver stand beside the state of the chip, so that the callback, which
-- `nora_canfd_irq_handler` calls with the state of the HAL alone, reaches them.
use mathlib.Core.List.{map}
use dspic33ak_can_cmsis_driv.Prelude.{
  ℕ, suc, ◌<◌, ◌≡◌, refl, sym, ap, ap₂, ◌∙◌, arith, subst, min, true, not, Option, none, some, List,
  [], length, ltb, ◌==◌, if◌then◌else◌,
}
use dspic33ak_can_cmsis_driv.Canfd.{Instance, Frame, event_rx_available}
use dspic33ak_can_cmsis_driv.Canfd.Chip.{Chip, Reg}
use dspic33ak_can_cmsis_driv.Canfd.Object.RoundTrip.{padded}
use dspic33ak_can_cmsis_driv.Canfd.Node.{World, NodeState, set_at}
use dspic33ak_can_cmsis_driv.Canfd.Isr.{System, irq_line_clear}
use dspic33ak_can_cmsis_driv.Canfd.Isr.Handler.{is_up, collect, notify, nora_canfd_irq_handler}
use dspic33ak_can_cmsis_driv.Canfd.Isr.Told.{IsTold}
use dspic33ak_can_cmsis_driv.Canfd.Isr.Report.{is_handled, IsStill, collect-IsTold}
use dspic33ak_can_cmsis_driv.Canfd.Isr.Kept.{Kept, collect-Kept}
use dspic33ak_can_cmsis_driv.Canfd.Registers.{int_rxif}
use dspic33ak_can_cmsis_driv.Driver.Context.{Context, Device, App}
use dspic33ak_can_cmsis_driv.Driver.Event.{can_hal_event}
use dspic33ak_can_cmsis_driv.Driver.Event.Signals.{signals}
use dspic33ak_can_cmsis_driv.Driver.Hal.Real.{HalState, running, stopped, Below, canfd}
use dspic33ak_can_cmsis_driv.Driver.Hal.Real.Fifo.{IsRxFifo, held}
use dspic33ak_can_cmsis_driv.Driver.Hal.Real.Receive.{arriving, driver_receives}
use dspic33ak_can_cmsis_driv.Driver.Queue.Fill.{room, fill_up}
use dspic33ak_can_cmsis_driv.Driver.Ring.Refine.{IsRing, contents}

-- The chip, with `g_can_ctx` beside it.
abbrev pub Shared : Type 0 → Type 0
Shared S = S × (Instance → Context)

abbrev pub shared : Chip → Chip
shared chip = record {
  State = Shared chip.State;
  present = chip.present;
  read = λ i r p. let (v, s) = chip.read i r p.0 in (v, (s, p.1));
  write = λ i r v p. (chip.write i r v p.0, p.1);
  load = λ a p. let (v, s) = chip.load a p.0 in (v, (s, p.1));
  store = λ a v p. (chip.store a v p.0, p.1);
  now = λ p. let (t, s) = chip.now p.0 in (t, (s, p.1));
}

shared_still : (chip : Chip) → IsStill chip → IsStill (shared chip)
shared_still chip still = record {
  value = λ i r p. still.value i r p.0;
  read_value = λ i r p. still.read_value i r p.0;
  read_still = λ i r j q p. still.read_still i r j q p.0;
  write_still = λ i r v j q p h. still.write_still i r v j q p.0 h;
}

module _ (below : Below) (app : App (HalState below.chip.State)) (fuel : ℕ) where
  open below use {chip, has_line, handler, context}

  abbrev pub S : Type 0
  S = System (Shared chip.State)

  -- The HAL alone.
  abbrev pub hal_of : S → System chip.State
  hal_of s =
      let w : World (Shared chip.State) = s.node in
      record {
        node = record { chip = w.chip.0; g_node = w.g_node; g_mode = w.g_mode };
        isr = s.isr;
      }

  abbrev pub contexts : S → Instance → Context
  contexts s = s.node.chip.1

  -- The instance whose context the pointer `user_data` points at.
  abbrev pub owner : ℕ → Instance
  owner ud = if ud == context Instance.inst_1 then Instance.inst_1 else Instance.inst_2

  abbrev back : S → Instance → Context → HalState chip.State → S
  back s j ctx (stopped views) = s
  back s j ctx (running t) =
      let w : World chip.State = t.node in
      record {
        node = record {
          chip = (w.chip, set_at (contexts s) j ctx);
          g_node = w.g_node;
          g_mode = w.g_mode;
        };
        isr = t.isr;
      }

  -- The state after the callback; of one that has not ended, or after which the program has stopped,
  -- the state before it.
  abbrev pub after_callback : S → Instance → Option (Device (HalState chip.State)) → S
  after_callback s j none = s
  after_callback s j (some d) = back s j d.ctx d.hal

  -- A call of the function at a pointer: of `can_hal_event`, if it is its pointer.
  unfoldable pub call_back : ℕ → Instance → ℕ → ℕ → S → S
  call_back f i events ud s =
      if f == handler
      then after_callback s (owner ud) (
          can_hal_event (canfd below) app fuel events
            (record { ctx = contexts s (owner ud); hal = running (hal_of s) }))
      else s

  -- `irq_line_clear(inst);`
  abbrev pub lines_clear : Instance → S → S
  lines_clear i t = record t { isr = irq_line_clear has_line i t.isr }

  -- `can_hal_event` on the context of an instance.
  abbrev pub event_at : Instance → ℕ → S → Option (Device (HalState chip.State))
  event_at j events s =
      can_hal_event (canfd below) app fuel events
        (record { ctx = contexts s j; hal = running (hal_of s) })

  same_number : (n : ℕ) → (n == n) ≡ true
  same_number n = ground arith

  called_back :
      (f : ℕ) (i j : Instance) (events ud : ℕ) (s : S)
      → f ≡ handler
      → owner ud ≡ j
      → call_back f i events ud s ≡ after_callback s j (event_at j events s)
  unfolding call_back
  called_back f i j events ud s e h =
      rw (e, same_number handler) (ap (λ o. after_callback s o (event_at o events s)) h)

  notified :
      (i : Instance) (events : ℕ) (s : S)
      → not (events == 0) ≡ true
      → s.isr.g_cb i ≡ some handler
      → owner (s.isr.g_ud i) ≡ i
      → notify has_line (shared chip) call_back i events s
        ≡ after_callback s i (event_at i events s)
  unfolding notify
  notified i events s some_event cb ud =
      rw (some_event, cb) (called_back handler i i events (s.isr.g_ud i) s refl ud)

  module _ (rx : IsRxFifo chip) (still : IsStill chip)
      (apart : (i j : Instance) (r : Reg) (v : ℕ) (s : chip.State)
        → is_handled r ≡ true
        → rx.queue i (chip.write j r v s) ≡ rx.queue i s) where
    -- The queue of an instance and the contexts, as they were.
    abbrev Same : Instance → S → Shared chip.State → Type 0
    Same i s p = (rx.queue i p.0 ≡ rx.queue i s.node.chip.0) × (p.1 ≡ contexts s)

    before_callback :
        (i : Instance) (s : S)
        → Kept (Same i s) s.node.g_node s.isr.g_cb s.isr.g_ud (collect has_line (shared chip) i s).1
    before_callback i s =
        collect-Kept has_line (shared chip) (Same i s)
          (λ j r p v. (rx.read_queue i j r p.0 ∙ v.0, v.1))
          (λ j r w p h v. (apart i j r w p.0 h ∙ v.0, v.1)) s.node.g_node s.isr.g_cb s.isr.g_ud i s
          ((refl, refl), refl, refl, refl)

    rx_told : (events : ℕ) → is_up events event_rx_available ≡ true → not (events == 0) ≡ true
    rx_told events h = ground arith

    abbrev pub frames : Instance → S → List Frame
    frames i s = map padded (rx.queue i s.node.chip.0)

    -- What the handler does: `events` are those that the registers told, `s1` the state before the
    -- callback, and `d` the instance before the signals of `can_hal_event`.
    pub record IsReceived (i : Instance) (s : S) (events : ℕ) (s1 : S)
        (d : Device (HalState chip.State)) : Type 0 where
      pub told :
          IsTold
            (still.value i Reg.int s.node.chip.0)
            (still.value i Reg.txqsta s.node.chip.0)
            (still.value i Reg.trec s.node.chip.0)
            events
      pub same_contexts : contexts s1 ≡ contexts s
      pub runs :
          nora_canfd_irq_handler has_line (shared chip) call_back i s
          ≡ lines_clear i (
              after_callback s1 i (
                some (
                  signals
                    (canfd below)
                    app
                    events
                    (ltb 0 (min (room (contents (contexts s i).rx)) (length (frames i s))))
                    (ltb (room (contents (contexts s i).rx)) (length (frames i s)))
                    d)))
      pub empty : held below rx i d.hal ≡ []
      pub stored : contents d.ctx.rx ≡ fill_up (contents (contexts s i).rx) (frames i s)
      pub ring : IsRing d.ctx.rx
      pub rest : d.ctx ≡ (let c : Context = contexts s i in record c { rx = d.ctx.rx })

    -- While the module stands still (reads change no register, and writes of the handler change neither
    -- TREC nor, those of FIFOSTA1, TXQSTA), with
    -- an instance that is present and initialised, its context that of the instance, its callback
    -- registered as the driver registers it, RXIF set, a chip whose receive FIFO shows its oldest
    -- object and is not moved by the writes of the handler, a well-formed ring, some fuel for the
    -- waits of the HAL and one more round of fuel than frames wait: `nora_canfd_irq_handler` calls
    -- `can_hal_event` with RX_AVAILABLE among the events that INT, TXQSTA and TREC told. It leaves
    -- nothing waiting in the hardware FIFO, appends to the ring the frames that fit, each padded to
    -- the length of its code, oldest first, changes nothing else of the context before the signals,
    -- signals RECEIVE exactly if a frame waited and there was room, RECEIVE_OVERRUN exactly if more
    -- frames waited than fit, and at last the CPU flags are cleared.
    pub interrupt_receives :
        (k : ℕ) (i : Instance) (s : S)
        → below.fuel ≡ suc k
        → chip.present i ≡ true
        → s.isr.g_cb i ≡ some handler
        → owner (s.isr.g_ud i) ≡ i
        → (contexts s i).hal_inst ≡ i
        → (s.node.g_node i).initialized ≡ true
        → is_up (still.value i Reg.int s.node.chip.0) int_rxif ≡ true
        → IsRing (contexts s i).rx
        → length (frames i s) < fuel
        → (events : ℕ) × (s1 : S) × (d : Device (HalState chip.State)) × IsReceived i s events s1 d
    unfolding nora_canfd_irq_handler shared_still
    interrupt_receives k i s enough there cb ud inst live up v rounds =
        let (events, s1) = collect has_line (shared chip) i s in
        let told = collect-IsTold has_line (shared chip) (shared_still chip still) i s in
        let (same, nodes, cbs, uds) = before_callback i s in
        let c1 : contexts s1 i ≡ contexts s i = ap (λ c. c i) same.1 in
        let inst1 : (contexts s1 i).hal_inst ≡ i = ap (λ (c : Context). c.hal_inst) c1 ∙ inst in
        let arrive : arriving below rx app (contexts s1 i) (hal_of s1)
            ≡ map padded (rx.queue i s.node.chip.0) =
          ap (λ j. map padded (rx.queue j s1.node.chip.0)) inst1 ∙ ap (map padded) same.0 in
        let held_before : contents (contexts s1 i).rx ≡ contents (contexts s i).rx =
          ap (λ (c : Context). contents c.rx) c1 in
        let at : is_up events event_rx_available ≡ true = told.rx_bit ∙ up in
        let (d, runs, empty, stored, ring, rest) =
          driver_receives below rx app k fuel events (contexts s1 i) (hal_of s1) enough at
            (subst (λ (c : Context). IsRing c.rx) (sym c1) v)
            (ap (λ j. (s1.node.g_node j).initialized) inst1
              ∙ ap (λ (n : Instance → NodeState). (n i).initialized) nodes
              ∙ live)
            (subst (λ (l : List Frame). length l < fuel) (sym arrive) rounds) in
        let Ended : List Frame → List Frame → Option (Device (HalState chip.State)) = λ q l. some (
          signals (canfd below) app events (ltb 0 (min (room q) (length l)))
            (ltb (room q) (length l)) d) in
        let ran = runs ∙ ap₂ Ended held_before arrive in
        let noted =
          notified i events s1 (rx_told events at) (ap (λ f. f i) cbs ∙ cb)
            (ap (λ f. owner (f i)) uds ∙ ud) in
        (
          events,
          s1,
          d,
          record {
            told = told;
            same_contexts = same.1;
            runs = rw there (ap (lines_clear i) (noted ∙ ap (after_callback s1 i) ran));
            empty = sym (ap (λ j. held below rx j d.hal) inst1) ∙ empty;
            stored = stored ∙ ap₂ fill_up held_before arrive;
            ring = ring;
            rest = rest ∙ ap (λ (c : Context). record c { rx = d.ctx.rx }) c1;
          },
        )
