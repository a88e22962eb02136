-- ===== src/Driver/Hal/Real/InterruptTests.antt =====
-- A receive interrupt over a chip whose receive FIFO holds two copies of one frame.
use dspic33ak_can_cmsis_driv.Prelude.{ℕ, ◌<◌, ◌≡◌, refl, ap, arith, true, length}
use dspic33ak_can_cmsis_driv.Canfd.{Instance}
use dspic33ak_can_cmsis_driv.Canfd.Chip.{Reg}
use dspic33ak_can_cmsis_driv.Canfd.Isr.Report.{IsStill, is_handled, is_left}
use dspic33ak_can_cmsis_driv.Driver.Context.{Device}
use dspic33ak_can_cmsis_driv.Driver.Hal.Real.{HalState}
use dspic33ak_can_cmsis_driv.Driver.Hal.Real.FifoTests.{
  source, source_fifo, read_count, write_count, copies, below, silent, ctx, ctx-IsRing, two_waiting,
}
use dspic33ak_can_cmsis_driv.Driver.Hal.Real.Interrupt.{S, IsReceived, frames, interrupt_receives}

handled_write : (r : Reg) (v n : ℕ) → is_handled r ≡ true → write_count r v n ≡ n
handled_write Reg.fifocon1 v n h = cc
handled_write _ v n h = refl

left_write : (r q : Reg) (v n : ℕ) → is_left r q ≡ true → write_count r v n ≡ n
left_write Reg.fifocon1 q v n h = cc
left_write _ q v n h = refl

source_still : IsStill source
source_still = record {
  value = λ i r n. read_count r n;
  read_value = λ i r n. refl;
  read_still = λ i r j q n. refl;
  write_still = λ i r v j q n h. ap (read_count q) (left_write r q v n h);
}

abbrev with_contexts : S below silent 3
with_contexts = record {
  node = record {
    chip = (2, λ i. ctx);
    g_node = two_waiting.node.g_node;
    g_mode = two_waiting.node.g_mode;
  };
  isr = two_waiting.isr;
}

source_apart :
    (i j : Instance) (r : Reg) (v n : ℕ)
    → is_handled r ≡ true
    → source_fifo.queue i (source.write j r v n) ≡ source_fifo.queue i n
unfolding source_fifo
source_apart i j r v n h = ap copies (handled_write r v n h)

two_frames :
    length
      (frames below silent 3 source_fifo source_still source_apart Instance.inst_1 with_contexts)
    < 3
unfolding source_fifo
two_frames = omega arith

interrupt_receives_example :
    (events : ℕ) × (s1 : S below silent 3) × (d : Device (HalState ℕ)) × IsReceived below silent 3
      source_fifo source_still source_apart Instance.inst_1 with_contexts events s1 d
unfolding source_still
interrupt_receives_example =
    interrupt_receives below silent 3 source_fifo source_still source_apart 0 Instance.inst_1
      with_contexts refl refl refl refl refl refl refl ctx-IsRing two_frames
