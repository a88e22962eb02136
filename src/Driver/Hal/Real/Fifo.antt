-- ===== src/Driver/Hal/Real/Fifo.antt =====
-- The receive FIFO of the hardware, through the node, is the FIFO that the driver drains.
use mathlib.Core.List.{map}
use dspic33ak_can_cmsis_driv.Prelude.{
  ℕ, zero, suc, ◌+◌, ◌/◌, ◌^◌, ◌≡◌, refl, sym, ap, ◌∙◌, arith, Bool, true, false, not, some, List,
  [], ◌∷◌,
}
use dspic33ak_can_cmsis_driv.Prelude.{Bool-cases, inl, inr, if◌then◌else◌, bit_and}
use dspic33ak_can_cmsis_driv.Canfd.{Instance, Status, Frame}
use dspic33ak_can_cmsis_driv.Canfd.Chip.{Chip, Reg, reg_set}
use dspic33ak_can_cmsis_driv.Canfd.Dlc.{dlc_to_len}
use dspic33ak_can_cmsis_driv.Canfd.Object.{write_object, objctrl_dlc_mask}
use dspic33ak_can_cmsis_driv.Canfd.Object.Header.{IsId}
use dspic33ak_can_cmsis_driv.Canfd.Object.Payload.{IsPayload}
use dspic33ak_can_cmsis_driv.Canfd.Object.RoundTrip.{padded}
use dspic33ak_can_cmsis_driv.Canfd.Node.{NodeState, World, flag_up, start_time, wait_flag, poll}
use dspic33ak_can_cmsis_driv.Canfd.Node.Delivery.{IsRam, Holds, fetch_delivers}
use dspic33ak_can_cmsis_driv.Canfd.Node.Transfer.{
  Received, frame, fetch, load_words, nora_canfd_receive, nora_canfd_rx_available,
}
use dspic33ak_can_cmsis_driv.Canfd.Isr.{System}
use dspic33ak_can_cmsis_driv.Driver.Event.Drain.{IsFifo, is_empty}
use dspic33ak_can_cmsis_driv.Driver.Hal.Real.{
  HalState, running, stopped, Below, canfd, settle_received,
}

abbrev pub rest_of : List Frame → List Frame
rest_of [] = []
rest_of (f ∷ rest) = rest

-- FIFO 1 as CxFIFOSTA1, CxFIFOUA1 and CxFIFOCON1 show it, when no frame arrives in between. `queue`
-- are the frames whose objects wait, oldest first.
pub record IsRxFifo (chip : Chip) : Type 0 where
  pub ram : IsRam chip
  pub queue : Instance → chip.State → List Frame
  -- TFNRFNIF: not empty.
  pub flag :
      (i : Instance) (s : chip.State)
      → (flag_up chip i Reg.fifosta1 1 s).0 ≡ not (is_empty (queue i s))
  -- The user address is that of the oldest object.
  pub object_at :
      (i : Instance) (s : chip.State) (f : Frame) (rest : List Frame)
      → queue i s ≡ f ∷ rest
      → Holds chip ram s (chip.read i Reg.fifoua1 s).0 (write_object f)
  pub can_frame :
      (i : Instance) (s : chip.State) (f : Frame) (rest : List Frame)
      → queue i s ≡ f ∷ rest
      → IsId f.extended f.id × IsPayload f
  pub read_queue :
      (i j : Instance) (r : Reg) (s : chip.State) → queue i (chip.read j r s).1 ≡ queue i s
  pub load_queue : (i : Instance) (a : ℕ) (s : chip.State) → queue i (chip.load a s).1 ≡ queue i s
  pub now_queue : (i : Instance) (s : chip.State) → queue i (chip.now s).1 ≡ queue i s
  -- UINC
  pub release :
      (i : Instance) (s : chip.State)
      → queue i (reg_set chip i Reg.fifocon1 (2 ^ 8) s) ≡ rest_of (queue i s)

module _ (chip : Chip) (rx : IsRxFifo chip) where
  open chip use {State, read, load, now}
  open rx use {queue}

  load_words_queue :
      (i : Instance) (n a : ℕ) (s : State) → queue i (load_words chip a n s).1 ≡ queue i s
  unfolding load_words
  load_words_queue i zero a s = refl
  load_words_queue i (suc n) a s = load_words_queue i n (a + 4) (load a s).1 ∙ rx.load_queue i a s

  fetch_queue : (i : Instance) (s : State) → queue i (fetch chip i s).1 ≡ rest_of (queue i s)
  unfolding fetch
  fetch_queue i s =
      let (a, s1) = read i Reg.fifoua1 s in
      let s2 = (load a s1).1 in
      let (ctrl, s3) = load (a + 4) s2 in
      let n = (dlc_to_len (bit_and ctrl objctrl_dlc_mask) + 3) / 4 in
      let before =
        load_words_queue i n (a + 8) s3
        ∙ rx.load_queue i (a + 4) s2
        ∙ rx.load_queue i a s1
        ∙ rx.read_queue i i Reg.fifoua1 s in
      rx.release i (load_words chip (a + 8) n s3).1 ∙ ap rest_of before

  start_queue :
      (i : Instance) (n : NodeState) (s : State) → queue i (start_time chip n s).1 ≡ queue i s
  start_queue i n s = ground (arith, rx.now_queue i s)

  -- The chip after the wait of a receive whose first test succeeds.
  abbrev waited : Instance → NodeState → State → State
  waited i n s = (flag_up chip i Reg.fifosta1 1 (start_time chip n s).1).1

  wait_flag_up :
      (k : ℕ) (i : Instance) (n : NodeState) (s : State) (f : Frame) (rest : List Frame)
      → queue i s ≡ f ∷ rest
      → wait_flag chip (suc k) i Reg.fifosta1 1 n s ≡ some (Status.ok, waited i n s)
  unfolding wait_flag poll
  wait_flag_up k i n s f rest e =
      let s0 = (start_time chip n s).1 in
      let set : (flag_up chip i Reg.fifosta1 1 s0).0 ≡ true =
        rx.flag i s0 ∙ ap (λ q. not (is_empty q)) (start_queue i n s ∙ e) in
      rw set refl

  waited_queue : (i : Instance) (n : NodeState) (s : State) → queue i (waited i n s) ≡ queue i s
  waited_queue i n s = rx.read_queue i i Reg.fifosta1 _ ∙ start_queue i n s

  receive_takes :
      (k : ℕ) (i : Instance) (w : World State) (f : Frame) (rest : List Frame)
      → (w.g_node i).initialized ≡ true
      → queue i w.chip ≡ f ∷ rest
      → (s : State) × (nora_canfd_receive chip (suc k) i w
          ≡ frame (padded f) (record w { chip = s }))
        × (queue i s ≡ rest)
  unfolding nora_canfd_receive
  receive_takes k i w f rest live e =
      let n : NodeState = w.g_node i in
      let s1 = waited i n w.chip in
      let here = waited_queue i n w.chip ∙ e in
      let (id, payload) = rx.can_frame i s1 f rest here in
      let delivered : (fetch chip i s1).0 ≡ padded f =
        fetch_delivers chip rx.ram i s1 f id payload (rx.object_at i s1 f rest here) in
      (
        (fetch chip i s1).1,
        rw (wait_flag_up k i n w.chip f rest e, delivered, live) refl,
        fetch_queue i s1 ∙ ap rest_of here,
      )

  receive_queue :
      (k : ℕ) (i : Instance) (w : World State) (fuel : ℕ) (f : Frame) (rest : List Frame)
      → fuel ≡ suc k
      → (w.g_node i).initialized ≡ true
      → queue i w.chip ≡ f ∷ rest
      → (s : State) × (nora_canfd_receive chip fuel i w ≡ frame (padded f) (record w { chip = s }))
        × (queue i s ≡ rest)
  receive_queue k i w fuel f rest enough live e =
      let (s, runs, after) = receive_takes k i w f rest live e in
      (s, ap (λ n. nora_canfd_receive chip n i w) enough ∙ runs, after)

module _ (below : Below) (rx : IsRxFifo below.chip) where
  open below use {chip}
  open rx use {queue}

  -- What waits for the driver: the frames, padded, where the node is initialised and the program runs.
  unfoldable pub held : Instance → HalState chip.State → List Frame
  held i (stopped views) = []
  held i (running s) =
      if (s.node.g_node i).initialized then map padded (queue i s.node.chip) else []

  empty-map : (fs : List Frame) → is_empty (map padded fs) ≡ is_empty fs
  empty-map [] = refl
  empty-map (f ∷ fs) = refl

  available_law :
      (i : Instance) (h : HalState chip.State)
      → ((canfd below).rx_available i h).0 ≡ not (is_empty (held i h))
  unfolding nora_canfd_rx_available held
  available_law i (stopped views) = refl
  available_law i (running s) = elim (Bool-cases (s.node.g_node i).initialized) [
    | inl live ↦
        let q = queue i s.node.chip in
        let shown = rx.flag i s.node.chip ∙ ap not (sym (empty-map q)) in
        ground (arith, live, shown)
    | inr down ↦ ground (arith, down)
  ]

  pending_law :
      (i : Instance) (h : HalState chip.State)
      → held i ((canfd below).rx_available i h).1 ≡ held i h
  unfolding nora_canfd_rx_available held
  pending_law i (stopped views) = refl
  pending_law i (running s) = ground (arith, rx.read_queue i i Reg.fifosta1 s.node.chip)

  -- A frame that waits is one of the queue.
  unheld :
      (live : Bool) (q : List Frame) (f : Frame) (rest : List Frame)
      → (if live then map padded q else []) ≡ f ∷ rest
      → (live ≡ true)
        × ((g : Frame) × (gs : List Frame) × (q ≡ g ∷ gs) × (padded g ≡ f) × (map padded gs ≡ rest))
  unheld false q f rest e = cc
  unheld true [] f rest e = cc
  unheld true (g ∷ gs) f rest e = (refl, (g, gs, refl, cc, cc))

  -- A receive that gives a frame, as the driver sees it.
  settled :
      (i : Instance) (s : System chip.State) (f : Frame) (c : chip.State) (r : Received chip)
      → (s.node.g_node i).initialized ≡ true
      → r ≡ frame f (let w : World chip.State = s.node in record w { chip = c })
      → ((settle_received below s r).0 ≡ Status.ok)
        × ((settle_received below s r).1 ≡ f)
        × (held i (settle_received below s r).2 ≡ map padded (queue i c))
  unfolding held
  settled i s f c r live e = rw e (refl, refl, rw live refl)

  module _ (k : ℕ) (enough : below.fuel ≡ suc k) where
    receive_law :
        (i : Instance) (h : HalState chip.State) (f : Frame) (rest : List Frame)
        → held i h ≡ f ∷ rest
        → let (st, g, h') = (canfd below).receive i h in
          (st ≡ Status.ok) × (g ≡ f) × (held i h' ≡ rest)
    unfolding held
    receive_law i (stopped views) f rest e = cc
    receive_law i (running s) f rest e =
        let (live, (g, gs, q, first, others)) =
          unheld (s.node.g_node i).initialized (queue i s.node.chip) f rest e in
        let (c, runs, after) = receive_queue chip rx k i s.node below.fuel g gs enough live q in
        let (ok, given, left) = settled i s (padded g) c _ live runs in
        (ok, given ∙ first, left ∙ ap (map padded) after ∙ others)

    canfd_fifo : IsFifo (canfd below)
    canfd_fifo = record {
      pending = held;
      available = available_law;
      pending-available = pending_law;
      receive_ok = receive_law;
    }

    -- Over a chip whose receive FIFO shows its oldest object, and with fuel, the node is the FIFO that
    -- the driver drains: what waits, where the node is initialised and the program runs, are the
    -- frames of the queue, each padded to the length of its code.
    pub canfd-IsFifo :
        (fifo : IsFifo (canfd below)) × ((i : Instance) (h : HalState chip.State)
          → fifo.pending i h ≡ held i h)
    unfolding canfd_fifo
    canfd-IsFifo = (canfd_fifo, λ i h. refl)
