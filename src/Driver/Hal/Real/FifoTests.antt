-- ===== src/Driver/Hal/Real/FifoTests.antt =====
-- The driver over the HAL over a chip whose receive FIFO holds copies of one frame.
use dspic33ak_can_cmsis_driv.Prelude.{
  ℕ, zero, suc, ◌+◌, ◌*◌, ◌/◌, ◌^◌, ◌≡◌, ◌<◌, subst, refl, ap, arith, true, false, not, some, List,
  [], ◌∷◌,
}
use dspic33ak_can_cmsis_driv.Prelude.{◌==◌, if◌then◌else◌, bit_and, get_or, length, ltb, min}
use dspic33ak_can_cmsis_driv.Canfd.{Instance, Mode, Frame}
use dspic33ak_can_cmsis_driv.Canfd.Chip.{Chip, Reg, reg_set}
use dspic33ak_can_cmsis_driv.Canfd.Object.{write_object}
use dspic33ak_can_cmsis_driv.Canfd.Object.Header.{IsId}
use dspic33ak_can_cmsis_driv.Canfd.Object.Payload.{IsPayload}
use dspic33ak_can_cmsis_driv.Canfd.Node.{flag_up}
use dspic33ak_can_cmsis_driv.Canfd.Node.Delivery.{IsRam, Holds}
use dspic33ak_can_cmsis_driv.Canfd.Node.Tests.{small, small-are_bytes}
use dspic33ak_can_cmsis_driv.Canfd.Isr.{System}
use dspic33ak_can_cmsis_driv.Driver.Context.{Context, Device, App, initial_context, example_rte}
use dspic33ak_can_cmsis_driv.Driver.Event.{can_hal_event}
use dspic33ak_can_cmsis_driv.Driver.Event.Signals.{signals}
use dspic33ak_can_cmsis_driv.Driver.Queue.Fill.{room, fill_up}
use dspic33ak_can_cmsis_driv.Driver.Ring.Refine.{IsRing, contents}
use dspic33ak_can_cmsis_driv.Driver.Event.Drain.{is_empty}
use dspic33ak_can_cmsis_driv.Driver.Hal.Real.{HalState, running, Below, canfd}
use dspic33ak_can_cmsis_driv.Driver.Hal.Real.Fifo.{IsRxFifo, rest_of, held}
use dspic33ak_can_cmsis_driv.Driver.Hal.Real.Receive.{arriving, driver_receives}

-- The state is how many copies wait.
abbrev pub read_count : Reg → ℕ → ℕ
read_count Reg.fifosta1 n = if n == 0 then 0 else 1
read_count Reg.int n = if n == 0 then 0 else 2
read_count _ n = 0

abbrev pub one_less : ℕ → ℕ
one_less zero = zero
one_less (suc n) = n

abbrev pub write_count : Reg → ℕ → ℕ → ℕ
write_count Reg.fifocon1 v n = if bit_and v (2 ^ 8) == 0 then n else one_less n
write_count _ v n = n

abbrev pub copies : ℕ → List Frame
copies zero = []
copies (suc n) = small ∷ copies n

abbrev pub source : Chip
source = record {
  State = ℕ;
  present = λ i. true;
  read = λ i r n. (read_count r n, n);
  write = λ i r v n. write_count r v n;
  load = λ a n. (get_or (write_object small) (a / 4) 0, n);
  store = λ a v n. n;
  now = λ n. (n, n);
}

abbrev pub source_ram : IsRam source
source_ram = record {
  word = λ n a. get_or (write_object small) (a / 4) 0;
  load_word = λ a n. refl;
  load_keeps = λ a b n. refl;
  read_keeps = λ i r b n. refl;
}

pub copies-head : (n : ℕ) (f : Frame) (rest : List Frame) → copies n ≡ f ∷ rest → small ≡ f
copies-head zero f rest e = cc
copies-head (suc n) f rest e = cc

pub copies_flag :
    (i : Instance) (n : ℕ) → (flag_up source i Reg.fifosta1 1 n).0 ≡ not (is_empty (copies n))
copies_flag i zero = refl
copies_flag i (suc n) = ground arith

pub copies_release :
    (i : Instance) (n : ℕ) → copies (reg_set source i Reg.fifocon1 (2 ^ 8) n) ≡ rest_of (copies n)
unfolding reg_set
copies_release i zero = refl
copies_release i (suc n) = refl

pub small_holds : (n : ℕ) → Holds source source_ram n 0 (write_object small)
small_holds n k h =
    ap (λ j. get_or (write_object small) j 0) {x = (0 + k * 4) / 4} {y = k} (omega arith)

pub small-IsPayload : IsPayload small
small-IsPayload = record { at_most = omega arith; len_bytes = refl; are_bytes = small-are_bytes }

pub small-IsId : IsId small.extended small.id
small-IsId = omega arith

unfoldable pub source_fifo : IsRxFifo source
source_fifo = record {
  ram = source_ram;
  queue = λ i n. copies n;
  flag = copies_flag;
  object_at = λ i n f rest e.
      subst (λ g. Holds source source_ram n 0 (write_object g)) (copies-head n f rest e)
        (small_holds n);
  can_frame = λ i n f rest e.
      subst (λ g. IsId g.extended g.id × IsPayload g) (copies-head n f rest e)
        (small-IsId, small-IsPayload);
  read_queue = λ i j r n. refl;
  load_queue = λ i a n. refl;
  now_queue = λ i n. refl;
  release = copies_release;
}

abbrev pub below : Below
below = record { chip = source; has_line = λ i l. true; fuel = 1; handler = 1; context = λ i. 1 }

-- Two copies wait, and the node is up.
abbrev pub two_waiting : System ℕ
two_waiting = record {
  node = record {
    chip = 2;
    g_node = λ i. record { initialized = true; has_get_ms = true; timeout_ms = 10 };
    g_mode = λ i. Mode.normal_fd;
  };
  isr = record {
    g_cb = λ i. some 1;
    g_ud = λ i. 1;
    g_tx_busy = λ i. false;
    g_irq_priority = λ i. 4;
    g_isr_enabled = λ i. true;
    lines = λ i l. record { flag = false; priority = 4; enabled = true };
  };
}

abbrev pub ctx : Context
ctx =
    let c = initial_context Instance.inst_1 4096 (example_rte true) in
    record c { hal_inst = Instance.inst_1 }

pub ctx-IsRing : IsRing ctx.rx
unfolding initial_context
ctx-IsRing = record { slots = refl; head_in = omega arith; tail_in = omega arith }

abbrev pub silent : App (HalState ℕ)
silent = record { unit_event = λ f e d. d; object_event = λ f o e d. d }

length-arriving : length (arriving below source_fifo silent ctx two_waiting) < 3
unfolding initial_context source_fifo
length-arriving = omega arith

driver_receives_example :
    let d : Device (HalState ℕ) = record { ctx = ctx; hal = running two_waiting } in
    let frames = arriving below source_fifo silent ctx two_waiting in
    (d' : Device (HalState ℕ)) × (can_hal_event (canfd below) silent 3 2 d
      ≡ some (
          signals
            (canfd below)
            silent
            2
            (ltb 0 (min (room (contents ctx.rx)) (length frames)))
            (ltb (room (contents ctx.rx)) (length frames))
            d'))
    × (held below source_fifo ctx.hal_inst d'.hal ≡ [])
    × (contents d'.ctx.rx ≡ fill_up (contents ctx.rx) frames)
    × IsRing d'.ctx.rx
    × (d'.ctx ≡ record ctx { rx = d'.ctx.rx })
driver_receives_example =
    driver_receives below source_fifo silent 0 3 2 ctx two_waiting refl refl ctx-IsRing refl
      length-arriving
