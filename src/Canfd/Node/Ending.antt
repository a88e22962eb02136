-- ===== src/Canfd/Node/Ending.antt =====
-- The calls of the node that wait for a mode or for the transmit queue come to an end.
use dspic33ak_can_cmsis_driv.Prelude.{ℕ, ◌+◌, ◌*◌, ◌/◌, ◌^◌, ◌<◌, ◌≤◌, ◌≡◌, ◌≢◌, ap, ◌∙◌, arith}
use dspic33ak_can_cmsis_driv.Prelude.{true, some, ◌⊎◌, if◌then◌else◌, bit_and, bit_or}
use native.Mathlib.Nat.{div-mul-le_self, lt-div-mul-add, mul-le-mul_right}
use dspic33ak_can_cmsis_driv.Prelude.Bits.{u32, shl}
use dspic33ak_can_cmsis_driv.Canfd.{Instance, Status}
use dspic33ak_can_cmsis_driv.Canfd.Chip.{Chip, Reg, reg_write_field, complement}
use dspic33ak_can_cmsis_driv.Canfd.Node.{NodeState, poll, start_time, request_mode, in_mode}
use dspic33ak_can_cmsis_driv.Canfd.Node.Waiting.{IsClock, poll_ends}
use dspic33ak_can_cmsis_driv.Canfd.Registers.{con_reqop_pos, con_reqop_mask}

-- A write of a register does not turn the clock back, nor take more than `gap`.
pub record IsPaced (chip : Chip) (clock : IsClock chip) : Type 0 where
  pub write_takes :
      (i : Instance) (r : Reg) (v : ℕ) (s : chip.State)
      → clock.cycles s ≤ clock.cycles (chip.write i r v s)
  pub write_gap :
      (i : Instance) (r : Reg) (v : ℕ) (s : chip.State)
      → clock.cycles (chip.write i r v s) ≤ clock.cycles s + clock.gap

module _ (chip : Chip) (clock : IsClock chip) (paced : IsPaced chip clock) where
  open chip use {State, present, read, write, now}
  open clock use {cycles, rate, gap}

  -- With a clock that neither readings nor accesses disturb, a timeout that is not 0 and fits its
  -- counter with four accesses to spare, and more fuel than cycles pass in the timeout and two
  -- accesses, `request_mode` ends, with OK or ERR_TIMEOUT.
  pub request_mode_ends :
      (i : Instance) (reqop : ℕ) (n : NodeState) (fuel : ℕ) (s : State)
      → n.has_get_ms ≡ true
      → n.timeout_ms ≢ 0
      → (n.timeout_ms + 1) * rate + (gap + gap) + gap + gap < 2 ^ 32 * rate
      → n.timeout_ms * rate + (gap + gap) < fuel
      → (st : Status) × (s' : State) × ((st ≡ Status.ok) ⊎ (st ≡ Status.err_timeout))
        × (request_mode chip fuel i reqop n s ≡ some (st, s'))
  unfolding request_mode reg_write_field
  request_mode_ends i reqop n fuel s has timed fits enough =
      let s1 = (now s).1 in
      let begin = cycles s1 / rate in
      let low : begin * rate ≤ cycles s1 = div-mul-le_self (cycles s1) rate in
      let high : cycles s1 < begin * rate + rate =
        lt-div-mul-add {a = cycles s1} clock.rate_positive in
      let more : 1 * rate ≤ n.timeout_ms * rate =
        mul-le-mul_right {m = 1} rate (omega (arith, timed)) in
      let mask = con_reqop_mask in
      let field = u32 (shl reqop con_reqop_pos) in
      let (v, s2) = read i Reg.con s1 in
      let word = bit_or (bit_and v (complement chip mask)) (bit_and field mask) in
      let s3 = write i Reg.con word s2 in
      let before : (cycles s1 ≤ cycles s3) × (cycles s3 ≤ cycles s1 + (gap + gap)) = (
        omega (arith, clock.read_takes i Reg.con s1, paced.write_takes i Reg.con word s2),
        omega (arith, clock.read_gap i Reg.con s1, paced.write_gap i Reg.con word s2),
      ) in
      let (st, s', which, ends) =
        poll_ends chip clock (in_mode chip i reqop)
          (λ s. (clock.read_takes i Reg.con s, clock.read_gap i Reg.con s)) n begin (gap + gap) has
          timed fits fuel s3 (omega (arith, before, high, more))
          (omega (arith, before, low, enough)) in
      let started : start_time chip n s ≡ now s = ap (λ b. if b then now s else (0, s)) has in
      let run =
        ap
          (λ p.
            poll chip (in_mode chip i reqop) n p.0 fuel
              (reg_write_field chip i Reg.con mask field p.1))
          started
        ∙ ap (λ t. poll chip (in_mode chip i reqop) n t fuel s3) (clock.tick s)
        ∙ ends in
      (st, s', which, run)
