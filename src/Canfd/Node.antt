-- ===== src/Canfd/Node.antt =====
-- The node of src/hal_can/nora_canfd_node_dspic33ak.c and the mode of an instance in
-- src/hal_can/nora_canfd_common_dspic33ak.c: state, waiting, bring-up and shut-down.
pub mod Module
pub mod Request
pub mod Writes
pub mod Switches
pub mod Returns
pub mod Program
pub mod Retime
pub mod Bringup
pub mod Transfer
pub mod Waiting
pub mod Consistent
pub mod Delivery
pub mod Outcome
pub mod Modes
pub mod Ending
pub mod Calls
pub mod Tests
pub mod ProgramTests
pub mod Queue
pub mod Handover
pub mod HandoverTests
use dspic33ak_can_cmsis_driv.Prelude.{ℕ, zero, suc, ◌+◌, ◌-◌, ◌*◌, ◌^◌, Bool, true, false, not}
use dspic33ak_can_cmsis_driv.Prelude.{
  ◌&&◌, bit_and, bit_or, ltb, leb, ◌==◌, if◌then◌else◌, Option, none, some,
}
use dspic33ak_can_cmsis_driv.Prelude.Bits.{shl, shr, u8, u32}
use dspic33ak_can_cmsis_driv.Canfd.{Instance, Status, Mode, Config}
use dspic33ak_can_cmsis_driv.Canfd.Timing.{Words, trapped, failed, words}
use dspic33ak_can_cmsis_driv.Canfd.Timing.{nora_canfd_calc_bit_timing}
use dspic33ak_can_cmsis_driv.Canfd.Chip.{Chip, Reg, reg_set, reg_clear, reg_write_field}
use dspic33ak_can_cmsis_driv.Canfd.Registers.{
  con_opmod_pos, opmode_normal_fd, opmode_internal_loop, opmode_listen_only, opmode_config,
  opmode_external_loop, opmode_normal_classic, con_opmod_mask, con_reqop_pos, con_reqop_mask,
}

-- `node_state_t`; of `get_ms` whether the pointer is not NULL.
pub record NodeState : Type 0 where
  pub initialized : Bool
  pub has_get_ms : Bool
  pub timeout_ms : ℕ

-- The chip, `g_node` and `g_mode`.
pub record World (S : Type 0) : Type 0 where
  pub chip : S
  pub g_node : Instance → NodeState
  pub g_mode : Instance → Mode

-- How a call ends: by the trap of a division by zero, with its fuel at an end, or with a status.
pub data Run (S : Type 0) : Type 0 where
  trap dry : Run S
  done : Status → World S → Run S

abbrev pub same_instance : Instance → Instance → Bool
same_instance Instance.inst_1 Instance.inst_1 = true
same_instance Instance.inst_2 Instance.inst_2 = true
same_instance _ _ = false

-- `a[i] = v`
abbrev pub set_at {ℓ} : {A : Type ℓ} → (Instance → A) → Instance → A → Instance → A
set_at a i v j = if same_instance i j then v else a j

abbrev pub is_none_mode : Mode → Bool
is_none_mode Mode.none = true
is_none_mode _ = false

unfoldable pub mode_to_reqop : Mode → ℕ
mode_to_reqop Mode.normal_fd = opmode_normal_fd
mode_to_reqop Mode.normal_classic = opmode_normal_classic
mode_to_reqop Mode.internal_loopback = opmode_internal_loop
mode_to_reqop Mode.external_loopback = opmode_external_loop
mode_to_reqop Mode.listen_only = opmode_listen_only
mode_to_reqop Mode.none = opmode_config

module _ (chip : Chip) where
  open chip use {State, present, read, write, now}

  -- `(st->get_ms != NULL) ? st->get_ms() : 0u`
  abbrev pub start_time : NodeState → State → ℕ × State
  start_time n s = if n.has_get_ms then now s else (0, s)

  -- The loop of `request_mode` and `wait_flag`, with the test as a parameter and the rounds left as
  -- fuel: the status and the chip, if the fuel is enough.
  unfoldable pub poll : (State → Bool × State) → NodeState → ℕ → ℕ → State → Option (Status × State)
  poll ready n start zero s = none
  poll ready n start (suc fuel) s =
      let (is_ready, s1) = ready s in
      let timed = n.has_get_ms && not (n.timeout_ms == 0) in
      let (t, s2) = now s1 in
      let rest = poll ready n start fuel (if timed then s2 else s1) in
      if is_ready
      then some (Status.ok, s1)
      else if timed && leb n.timeout_ms (u32 (t + 2 ^ 32 - start))
      then some (Status.err_timeout, s2)
      else rest

  -- `(*reg & mask) != 0u`
  abbrev pub flag_up : Instance → Reg → ℕ → State → Bool × State
  flag_up i r mask s = let (v, s') = read i r s in (not (bit_and v mask == 0), s')

  unfoldable pub wait_flag : ℕ → Instance → Reg → ℕ → NodeState → State → Option (Status × State)
  unfolding poll
  wait_flag fuel i r mask n s =
      let (start, s') = start_time n s in poll (flag_up i r mask) n start fuel s'

  -- `opmod_get(regs) == reqop`
  abbrev pub in_mode : Instance → ℕ → State → Bool × State
  in_mode i reqop s =
      let (v, s') = read i Reg.con s in
      (u8 (shr (bit_and v con_opmod_mask) con_opmod_pos) == reqop, s')

  unfoldable pub request_mode : ℕ → Instance → ℕ → NodeState → State → Option (Status × State)
  unfolding poll
  request_mode fuel i reqop n s =
      let (start, s') = start_time n s in
      let asked =
        reg_write_field chip i Reg.con con_reqop_mask (u32 (shl reqop con_reqop_pos)) s' in
      poll (in_mode i reqop) n start fuel asked

  abbrev pub W : Type 0
  W = World State

  -- A wait inside a call: what follows it, given its status.
  abbrev pub after_wait : Option (Status × State) → W → (Status → W → Run State) → Run State
  after_wait none w k = dry
  after_wait (some (st, s)) w k = k st (record w { chip = s })
