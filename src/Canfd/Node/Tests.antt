-- ===== src/Canfd/Node/Tests.antt =====
-- The node over a chip that only counts time: no flag is ever set.
use dspic33ak_can_cmsis_driv.Canfd.Node.Outcome.{IsOutcome, init-IsOutcome}
use dspic33ak_can_cmsis_driv.Prelude.{ap, ◌*◌, ◌^◌, ◌<◌, zero, suc, [], ◌∷◌, get_or}
use dspic33ak_can_cmsis_driv.Canfd.Object.{write_object}
use dspic33ak_can_cmsis_driv.Canfd.Object.RoundTrip.{padded}
use dspic33ak_can_cmsis_driv.Canfd.Node.Delivery.{IsRam, fetch_delivers}
use dspic33ak_can_cmsis_driv.Prelude.{ℕ, ◌+◌, ◌/◌, ◌≡◌, ◌⊎◌, refl, arith, true, false, some}
use dspic33ak_can_cmsis_driv.Prelude.Bits.{u32}
use dspic33ak_can_cmsis_driv.Canfd.{Instance, Status, Mode, Config, Frame}
use dspic33ak_can_cmsis_driv.Canfd.Chip.{Chip, Reg}
use dspic33ak_can_cmsis_driv.Canfd.Node.{NodeState, World, wait_flag}
use dspic33ak_can_cmsis_driv.Canfd.Node.Bringup.{
  nora_canfd_init, nora_canfd_set_bitrate, nora_canfd_deinit,
}
use dspic33ak_can_cmsis_driv.Canfd.Node.Transfer.{nora_canfd_transmit, nora_canfd_receive, fetch}
use dspic33ak_can_cmsis_driv.Canfd.Node.Ending.{IsPaced}
use dspic33ak_can_cmsis_driv.Canfd.Node.Calls.{
  IsTimed, IsTimedNode, is_dry, is_starved, node_calls_end,
}
use dspic33ak_can_cmsis_driv.Canfd.Node.Waiting.{IsClock, wait_flag_ends}
use dspic33ak_can_cmsis_driv.Canfd.Node.Consistent.{Leaves, node_calls-IsConsistent}

abbrev dead : Chip
dead = record {
  State = ℕ;
  present = λ i. true;
  read = λ i r s. (0, s);
  write = λ i r v s. s;
  load = λ a s. (0, s);
  store = λ a v s. s;
  now = λ s. (u32 ((s + 1) / 1), s + 1);
}

abbrev dead_clock : IsClock dead
dead_clock = record {
  cycles = λ s. s;
  rate = 1;
  gap = 1;
  rate_positive = omega arith;
  tick = λ s. refl;
  tick_takes = λ s. omega arith;
  tick_gap = λ s. omega arith;
  read_takes = λ i r s. omega arith;
  read_gap = λ i r s. omega arith;
}

abbrev node : NodeState
node = record { initialized = false; has_get_ms = true; timeout_ms = 10 }

wait_flag_ends_example :
    (st : Status) × (s' : ℕ) × ((st ≡ Status.ok) ⊎ (st ≡ Status.err_timeout))
    × (wait_flag dead 11 Instance.inst_1 Reg.txqsta 1 node 5 ≡ some (st, s'))
wait_flag_ends_example =
    wait_flag_ends dead dead_clock Instance.inst_1 Reg.txqsta 1 node 11 5 refl (λ e. ground arith)
      (omega arith) (omega arith)

abbrev start : World ℕ
start = record { chip = 0; g_node = λ i. node; g_mode = λ i. Mode.none }

node_calls-IsConsistent_example :
    ((fuel : ℕ) (i : Instance) (c : Config) → Leaves (nora_canfd_init dead fuel i c start))
    × ((fuel : ℕ) (i : Instance) (clk nominal fd sample : ℕ)
        → Leaves (nora_canfd_set_bitrate dead fuel i clk nominal fd sample start))
    × ((fuel : ℕ) (i : Instance) → Leaves (nora_canfd_deinit dead fuel i start))
    × ((fuel : ℕ) (i : Instance) (f : Frame) → Leaves (nora_canfd_transmit dead fuel i f start))
node_calls-IsConsistent_example = node_calls-IsConsistent dead start (λ i. refl)

abbrev pub small : Frame
small = record { id = 5; extended = false; fd = false; brs = false; len = 2; bytes = 7 ∷ 8 ∷ [] }

pub small-are_bytes : (i : ℕ) → get_or small.bytes i 0 < 2 ^ 8
small-are_bytes zero = omega arith
small-are_bytes (suc zero) = omega arith
small-are_bytes (suc (suc i)) = omega arith

-- A chip whose message RAM holds the object of that frame, from address 0 on.
abbrev full : Chip
full = record {
  State = ℕ;
  present = λ i. true;
  read = λ i r s. (0, s);
  write = λ i r v s. s;
  load = λ a s. (get_or (write_object small) (a / 4) 0, s);
  store = λ a v s. s;
  now = λ s. (s, s);
}

abbrev full_ram : IsRam full
full_ram = record {
  word = λ s a. get_or (write_object small) (a / 4) 0;
  load_word = λ a s. refl;
  load_keeps = λ a b s. refl;
  read_keeps = λ i r b s. refl;
}

fetch_delivers_example : (fetch full Instance.inst_1 0).0 ≡ padded small
fetch_delivers_example =
    fetch_delivers full full_ram Instance.inst_1 0 small (omega arith)
      (record { at_most = omega arith; len_bytes = refl; are_bytes = small-are_bytes })
      (λ k h. ap (λ j. get_or (write_object small) j 0) {x = (0 + k * 4) / 4} {y = k} (omega arith))

-- The configuration of the example RTE header.
abbrev config : Config
config = record {
  can_clk_hz = 20000000;
  nominal_bps = 500000;
  data_bps = 2000000;
  sample_pct = 80;
  brs = true;
  mode = Mode.normal_fd;
  timeout_ms = 10;
  has_get_ms = true;
  msg_ram = 4096;
  msg_ram_size = 576;
}

init-IsOutcome_example :
    IsOutcome dead Instance.inst_1 config start
      (nora_canfd_init dead 20 Instance.inst_1 config start)
init-IsOutcome_example = init-IsOutcome dead Instance.inst_1 config 20 start

abbrev dead_paced : IsPaced dead dead_clock
dead_paced = record { write_takes = λ i r v s. omega arith; write_gap = λ i r v s. omega arith }

config-IsTimed : IsTimed dead dead_clock dead_paced 20 config.has_get_ms config.timeout_ms
config-IsTimed = record {
  has = refl;
  timed = λ e. ground arith;
  fits = omega arith;
  enough = omega arith;
}

node-IsTimed : IsTimedNode dead dead_clock dead_paced 20 (start.g_node Instance.inst_1)
node-IsTimed = record {
  has = refl;
  timed = λ e. ground arith;
  fits = omega arith;
  enough = omega arith;
}

node_calls_end_example :
    (is_dry dead dead_clock dead_paced (nora_canfd_init dead 20 Instance.inst_1 config start)
      ≡ false)
    × (is_dry dead dead_clock dead_paced
          (nora_canfd_set_bitrate dead 20 Instance.inst_1 20000000 500000 2000000 80 start)
        ≡ false)
    × (is_dry dead dead_clock dead_paced (nora_canfd_deinit dead 20 Instance.inst_1 start) ≡ false)
    × (is_dry dead dead_clock dead_paced (nora_canfd_transmit dead 20 Instance.inst_1 small start)
        ≡ false)
    × (is_starved dead dead_clock dead_paced (nora_canfd_receive dead 20 Instance.inst_1 start)
        ≡ false)
node_calls_end_example =
    node_calls_end dead dead_clock dead_paced 20 Instance.inst_1 start config 20000000 500000
      2000000 80 small config-IsTimed node-IsTimed
