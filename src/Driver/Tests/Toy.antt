-- ===== src/Driver/Tests/Toy.antt =====
-- A HAL for the tests: one receive FIFO and one life cycle, shared by the instances.
use dspic33ak_can_cmsis_driv.Prelude.{
  ℕ, ◌≡◌, refl, ap, Bool, true, false, not, List, [], ◌∷◌, ◌⊎◌, arith,
}
use dspic33ak_can_cmsis_driv.Canfd.{Instance, Status, Mode, Frame, BusStatus}
use dspic33ak_can_cmsis_driv.Driver.Hal.{Hal, is_ok}
use dspic33ak_can_cmsis_driv.Driver.Hal.Lifecycle.{View, IsLifecycle}
use dspic33ak_can_cmsis_driv.Driver.Ring.{zero_frame, put}
use dspic33ak_can_cmsis_driv.Driver.Queue
use dspic33ak_can_cmsis_driv.Driver.Ring.Refine.{IsRing, contents, put_refines}
use dspic33ak_can_cmsis_driv.Driver.Context.{Context, Device, App, initial_context, example_rte}
use dspic33ak_can_cmsis_driv.Driver.Event.Drain.{IsFifo, is_empty}

pub record Toy : Type 0 where
  pub queue : List Frame
  pub view : View

abbrev quiet_bus : BusStatus
quiet_bus = record {
  tx_err_count = 0;
  rx_err_count = 0;
  error_warning = false;
  error_passive = false;
  bus_off = false;
  rx_overflow = false;
}

abbrev toy_receive : Toy → List Frame → Status × Frame × Toy
toy_receive s [] = (Status.err_no_message, zero_frame, s)
toy_receive s (f ∷ q) = (Status.ok, f, record s { queue = q })

abbrev with_live : Bool → Toy → Toy
with_live b s = let v : View = s.view in record s { view = record v { live = b } }

abbrev with_handler : Bool → Toy → Toy
with_handler b s = let v : View = s.view in record s { view = record v { handler = b } }

abbrev with_armed : Bool → Toy → Toy
with_armed b s = let v : View = s.view in record s { view = record v { armed = b } }

-- The external loopback mode is refused.
abbrev toy_init : Mode → Toy → Status × Toy
toy_init Mode.external_loopback s = (Status.err_timeout, with_live false s)
toy_init _ s = (Status.ok, with_live true s)

abbrev pub toy : Hal
toy = record {
  State = Toy;
  init = λ i c s. toy_init c.mode s;
  deinit = λ i s. (Status.ok, with_live false s);
  set_bitrate = λ i clk n d p s. (Status.ok, s);
  transmit = λ i f s. (Status.ok, s);
  rx_available = λ i s. (not (is_empty s.queue), s);
  receive = λ i s. toy_receive s s.queue;
  isr_set_callback = λ i b s. (Status.ok, with_handler b s);
  isr_enable = λ i p s. (Status.ok, with_armed true s);
  isr_disable = λ i s. (Status.ok, with_armed false s);
  tx_abort = λ i s. (Status.ok, s);
  get_status = λ i s. (Status.ok, quiet_bus, s);
}

toy_receive_ok :
    (s : Toy) (q : List Frame) (f : Frame) (rest : List Frame)
    → q ≡ f ∷ rest
    → ((toy_receive s q).0 ≡ Status.ok)
      × ((toy_receive s q).1 ≡ f)
      × ((toy_receive s q).2.queue ≡ rest)
toy_receive_ok s [] f rest e = cc
toy_receive_ok s (g ∷ q) f rest e = (refl, cc, cc)

pub toy_fifo : IsFifo toy
toy_fifo = record {
  pending = λ i s. s.queue;
  available = λ i s. refl;
  pending-available = λ i s. refl;
  receive_ok = λ i s f rest e. toy_receive_ok s s.queue f rest e;
}

toy_receive_view : (s : Toy) (q : List Frame) → (toy_receive s q).2.view ≡ s.view
toy_receive_view s [] = refl
toy_receive_view s (f ∷ q) = refl

pub toy_pending : (i : Instance) (s : Toy) → toy_fifo.pending i s ≡ s.queue
unfolding toy_fifo
toy_pending i s = refl

toy_init_ok :
    (m : Mode) (s : Toy)
    → is_ok (toy_init m s).0 ≡ true
    → (toy_init m s).1.view ≡ (let v : View = s.view in record v { live = true })
toy_init_ok m s e = ground arith

toy_init_error :
    (m : Mode) (s : Toy)
    → is_ok (toy_init m s).0 ≡ false
    → ((toy_init m s).1.view ≡ s.view)
      ⊎ ((toy_init m s).1.view ≡ (let v : View = s.view in record v { live = false }))
toy_init_error m s e = ground arith

pub toy_life : IsLifecycle toy
toy_life = record {
  view = λ i s. s.view;
  init_ok = λ i c s. toy_init_ok c.mode s;
  init_error = λ i c s. toy_init_error c.mode s;
  deinit_view = λ i s. refl;
  callback_view = λ i b s. refl;
  enable_view = λ i p s. refl;
  disable_view = λ i s. refl;
  set_bitrate_view = λ i clk n d p s. refl;
  transmit_view = λ i f s. refl;
  available_view = λ i s. refl;
  receive_view = λ i s. toy_receive_view s s.queue;
  abort_view = λ i s. refl;
  status_view = λ i s. refl;
}

pub toy_view : (i : Instance) (s : Toy) → toy_life.view i s ≡ s.view
unfolding toy_life
toy_view i s = refl

-- The application does nothing.
abbrev pub silent : App Toy
silent = record { unit_event = λ f e d. d; object_event = λ f o e d. d }

abbrev pub asleep : View
asleep = record { live = false; handler = false; armed = false }

abbrev pub awake : View
awake = record { live = true; handler = true; armed = true }

-- CAN1 of the example RTE header, as it starts.
abbrev pub fresh : Device Toy
fresh = record {
  ctx = initial_context Instance.inst_1 4096 (example_rte true);
  hal = record { queue = []; view = asleep };
}

-- The same, after powering up.
abbrev pub running : List Frame → Device Toy
running frames =
    let ctx : Context = fresh.ctx in
    record {
      ctx = record ctx { initialized = true; powered = true };
      hal = record { queue = frames; view = awake };
    }

abbrev pub frame : ℕ → Frame
frame n = record { id = n; extended = false; fd = true; brs = true; len = 2; bytes = n ∷ 7 ∷ [] }

-- With a frame in the ring.
abbrev pub holding : Frame → Device Toy
holding f =
    let d = running [] in
    let ctx : Context = d.ctx in record d { ctx = record ctx { rx = (put f ctx.rx).1 } }

pub fresh-IsRing : IsRing fresh.ctx.rx
unfolding initial_context
fresh-IsRing = record { slots = refl; head_in = omega arith; tail_in = omega arith }

pub fresh_empty : contents fresh.ctx.rx ≡ []
unfolding initial_context
fresh_empty = refl

pub holding-IsRing : (f : Frame) → IsRing (holding f).ctx.rx
holding-IsRing f = (put_refines f fresh.ctx.rx fresh-IsRing).1

pub holding-contents : (f : Frame) → contents (holding f).ctx.rx ≡ f ∷ []
unfolding Queue.put initial_context
holding-contents f = ap (λ p. p.1) (put_refines f fresh.ctx.rx fresh-IsRing).0
