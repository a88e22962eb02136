-- ===== src/Driver/Hal/Real.antt =====
-- The HAL of src/hal_can, its node layer and its event layer together, as what the driver calls. The
-- interface takes every call to return. A call that does not, because its wait never ends or because
-- of the trap of a division, leaves `stopped`: the program goes no further, and of that state there
-- are only the three flags that the interface speaks of.
pub mod Life
pub mod Guard
pub mod Health
pub mod Typed
pub mod Fifo
pub mod Receive
pub mod Interrupt
pub mod Send
pub mod SendTests
pub mod InterruptTests
pub mod FifoTests
pub mod TypedTests
pub mod HealthTests
pub mod Tests
use dspic33ak_can_cmsis_driv.Prelude.{ℕ, Bool, true, false, not, ◌&&◌, Option, none, some}
use dspic33ak_can_cmsis_driv.Prelude.{if◌then◌else◌}
use dspic33ak_can_cmsis_driv.Canfd.{Instance, Status, Frame, BusStatus}
use dspic33ak_can_cmsis_driv.Canfd.Chip.{Chip}
use dspic33ak_can_cmsis_driv.Canfd.Node.{World, Run, trap, dry, done, same_instance, is_none_mode}
use dspic33ak_can_cmsis_driv.Canfd.Node.Bringup.{nora_canfd_init, nora_canfd_deinit}
use dspic33ak_can_cmsis_driv.Canfd.Node.Bringup.{nora_canfd_set_bitrate}
use dspic33ak_can_cmsis_driv.Canfd.Node.Transfer.{nora_canfd_transmit, nora_canfd_rx_available}
use dspic33ak_can_cmsis_driv.Canfd.Node.Transfer.{
  Received, starved, frame, error, nora_canfd_receive,
}
use dspic33ak_can_cmsis_driv.Canfd.Isr.{Line, Events, System, nora_canfd_isr_set_callback}
use dspic33ak_can_cmsis_driv.Canfd.Isr.{nora_canfd_isr_enable, nora_canfd_isr_disable}
use dspic33ak_can_cmsis_driv.Canfd.Isr.{nora_canfd_tx_abort}
use dspic33ak_can_cmsis_driv.Canfd.Isr.Handler.{nora_canfd_get_status}
use dspic33ak_can_cmsis_driv.Driver.Hal.{Hal}
use dspic33ak_can_cmsis_driv.Driver.Hal.Lifecycle.{View}
use dspic33ak_can_cmsis_driv.Driver.Ring.{zero_frame}

pub data HalState (S : Type 0) : Type 0 where
  running : System S → HalState S
  stopped : (Instance → View) → HalState S

-- A flag of one instance in a stopped state.
abbrev pub mark : (View → View) → Instance → (Instance → View) → Instance → View
mark f i views j = if same_instance i j then f (views j) else views j

abbrev pub set_live : Bool → View → View
set_live b v = record v { live = b }

abbrev pub set_handler : Bool → View → View
set_handler b v = record v { handler = b }

abbrev pub set_armed : Bool → View → View
set_armed b v = record v { armed = b }

abbrev pub is_given : Option ℕ → Bool
is_given none = false
is_given (some _) = true

-- Where `status` is not written.
abbrev no_status : BusStatus
no_status = record {
  tx_err_count = 0;
  rx_err_count = 0;
  error_warning = false;
  error_passive = false;
  bus_off = false;
  rx_overflow = false;
}

-- The part and its chip; the rounds that a wait has as fuel; the function pointer of `can_hal_event`,
-- and of the context of each instance.
pub record Below : Type 1 where
  pub chip : Chip
  pub has_line : Instance → Line → Bool
  pub fuel : ℕ
  pub handler : ℕ
  pub context : Instance → ℕ

module _ (below : Below) where
  open below use {chip, has_line, fuel, handler, context}

  abbrev pub H : Type 0
  H = HalState chip.State

  -- Initialised, with the registers there; a callback registered; the event layer enabled.
  abbrev pub view : Instance → H → View
  view i (stopped views) = views i
  view i (running s) = record {
    live = chip.present i && not (is_none_mode (s.node.g_mode i));
    handler = is_given (s.isr.g_cb i);
    armed = chip.present i && s.isr.g_isr_enabled i;
  }

  -- A call of the node, and the change to the flags if it does not return.
  abbrev pub settle :
      ((Instance → View) → Instance → View) → System chip.State → Run chip.State → Status × H
  settle f s trap = (Status.err_timeout, stopped (f (λ j. view j (running s))))
  settle f s dry = (Status.err_timeout, stopped (f (λ j. view j (running s))))
  settle f s (done st w) = (st, running (record s { node = w }))

  abbrev pub settle_received : System chip.State → Received chip → Status × Frame × H
  settle_received s starved = (Status.err_timeout, zero_frame, stopped (λ j. view j (running s)))
  settle_received s (frame f w) = (Status.ok, f, running (record s { node = w }))
  settle_received s (error st w) = (st, zero_frame, running (record s { node = w }))

  -- A call of the event layer.
  abbrev pub on_system :
      (System chip.State → Status × System chip.State) → (View → View) → Instance → H → Status × H
  on_system f g i (stopped views) = (Status.err_timeout, stopped (mark g i views))
  on_system f g i (running s) = let (st, s') = f s in (st, running s')

  abbrev pub on_node :
      (World chip.State → Run chip.State) → (View → View) → Instance → H → Status × H
  on_node f g i (stopped views) = (Status.err_timeout, stopped (mark g i views))
  on_node f g i (running s) = settle (mark g i) s (f s.node)

  abbrev same : View → View
  same v = v

  abbrev receive_frame : Instance → H → Status × Frame × H
  receive_frame i (stopped views) = (Status.err_timeout, zero_frame, stopped views)
  receive_frame i (running s) = settle_received s (nora_canfd_receive chip fuel i s.node)

  abbrev is_available : Instance → H → Bool × H
  is_available i (stopped views) = (false, stopped views)
  is_available i (running s) =
      let (up, w) = nora_canfd_rx_available chip i s.node in (up, running (record s { node = w }))

  abbrev register : Instance → Bool → System chip.State → Status × System chip.State
  register i b s =
      let callback = if b then some handler else none in
      let (st, e) =
        nora_canfd_isr_set_callback has_line i callback (if b then context i else 0) s.isr in
      (st, record s { isr = e })

  abbrev or_no_status : Option BusStatus → BusStatus
  or_no_status none = no_status
  or_no_status (some b) = b

  abbrev bus_status : Instance → H → Status × BusStatus × H
  bus_status i (stopped views) = (Status.err_timeout, no_status, stopped views)
  bus_status i (running s) =
      let (st, b, s') = nora_canfd_get_status has_line chip i s in (st, or_no_status b, running s')

  abbrev pub canfd : Hal
  canfd = record {
    State = H;
    init = λ i c. on_node (nora_canfd_init chip fuel i c) same i;
    deinit = λ i. on_node (nora_canfd_deinit chip fuel i) (set_live false) i;
    set_bitrate = λ i clk nominal fd sample.
        on_node (nora_canfd_set_bitrate chip fuel i clk nominal fd sample) same i;
    transmit = λ i f. on_node (nora_canfd_transmit chip fuel i f) same i;
    rx_available = is_available;
    receive = receive_frame;
    isr_set_callback = λ i b. on_system (register i b) (set_handler b) i;
    isr_enable = λ i p. on_system (nora_canfd_isr_enable has_line chip i p) same i;
    isr_disable = λ i. on_system (nora_canfd_isr_disable has_line chip i) (set_armed false) i;
    tx_abort = λ i. on_system (nora_canfd_tx_abort has_line chip i) same i;
    get_status = bus_status;
  }
