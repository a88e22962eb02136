-- ===== src/Canfd/Node/Waiting.antt =====
-- The waiting loops end within the timeout, if the tick function is a clock.
use dspic33ak_can_cmsis_driv.Prelude.{
  ℕ, zero, suc, ◌+◌, ◌-◌, ◌*◌, ◌/◌, ◌^◌, ◌<◌, ◌≤◌, ◌≡◌, ◌≢◌, ap, ◌∙◌, refl, sym, arith,
}
use dspic33ak_can_cmsis_driv.Prelude.{
  Bool, true, false, not, some, ◌⊎◌, inl, inr, Bool-cases, leb, ◌==◌, if◌then◌else◌,
}
use native.Mathlib.Nat.{
  div-lt_iff_lt-mul, le-div_iff_mul-le, div-mul-le_self, lt-div-mul-add, mul-le-mul_right,
}
use dspic33ak_can_cmsis_driv.Prelude.Bits.{u32}
use dspic33ak_can_cmsis_driv.Canfd.{Instance, Status}
use dspic33ak_can_cmsis_driv.Canfd.Chip.{Chip, Reg}
use dspic33ak_can_cmsis_driv.Canfd.Node.{NodeState, poll, wait_flag, flag_up, start_time}

-- "Free-running millisecond tick provider": time is counted in cycles of the CPU, `rate` of them in
-- a millisecond, and the tick function gives the milliseconds, cut to 32 bits. A reading takes at
-- least one cycle; neither it nor an access of a register takes more than `gap`, interrupts included.
pub record IsClock (chip : Chip) : Type 0 where
  pub cycles : chip.State → ℕ
  pub rate : ℕ
  pub gap : ℕ
  pub rate_positive : 0 < rate
  pub tick : (s : chip.State) → (chip.now s).0 ≡ u32 (cycles (chip.now s).1 / rate)
  pub tick_takes : (s : chip.State) → cycles s < cycles (chip.now s).1
  pub tick_gap : (s : chip.State) → cycles (chip.now s).1 ≤ cycles s + gap
  pub read_takes : (i : Instance) (r : Reg) (s : chip.State) → cycles s ≤ cycles (chip.read i r s).1
  pub read_gap :
      (i : Instance) (r : Reg) (s : chip.State) → cycles (chip.read i r s).1 ≤ cycles s + gap

-- The elapsed milliseconds, though the counter may have wrapped.
elapsed :
    (now start : ℕ)
    → start ≤ now
    → now < start + 2 ^ 32
    → u32 (u32 now + 2 ^ 32 - u32 start) ≡ now - start
elapsed now start h k = omega arith

side : (a b : ℕ) → (a < b) ⊎ (b ≤ a)
side a b = omega arith

false-ne-true : false ≢ true
false-ne-true e = cc

module _ (chip : Chip) (clock : IsClock chip) where
  open chip use {State, read, now}
  open clock use {cycles, rate, gap}

  -- The test of a loop takes at most `gap`.
  abbrev pub IsTest : (State → Bool × State) → Type 0
  IsTest ready =
      (s : State) → (cycles s ≤ cycles (ready s).1) × (cycles (ready s).1 ≤ cycles s + gap)

  -- The wait starts in millisecond `begin`, its loop at most `slack` after the deadline, and the
  -- timeout, the slack and two accesses fit in the counter.
  module _ (ready : State → Bool × State) (test : IsTest ready) (n : NodeState) (begin slack : ℕ)
      (has : n.has_get_ms ≡ true) (timed : n.timeout_ms ≢ 0)
      (fits : (n.timeout_ms + 1) * rate + slack + gap + gap < 2 ^ 32 * rate) where
    abbrev deadline : ℕ
    deadline = (begin + n.timeout_ms) * rate

    -- After the deadline, and before the counter comes round, the test of the timeout holds.
    late :
        (s : State)
        → deadline ≤ cycles s
        → cycles s < deadline + slack + gap + gap
        → leb n.timeout_ms (u32 (u32 (cycles s / rate) + 2 ^ 32 - u32 begin)) ≡ true
    late s reached soon =
        let ms = cycles s / rate in
        let low : begin + n.timeout_ms ≤ ms = (le-div_iff_mul-le clock.rate_positive).1 reached in
        let high : ms < begin + 2 ^ 32 =
          (div-lt_iff_lt-mul clock.rate_positive).1 (omega (arith, fits, soon)) in
        let passed = elapsed ms begin (omega (arith, low)) high in ground (arith, passed, low)

    module _ (s : State) where
      abbrev tested : Bool × State
      tested = ready s

      abbrev later : ℕ × State
      later = now tested.1

      abbrev timed_out : Bool
      timed_out = leb n.timeout_ms (u32 (later.0 + 2 ^ 32 - u32 begin))

      -- The three ways of a round.
      poll_ready :
          (fuel : ℕ)
          → tested.0 ≡ true
          → poll chip ready n (u32 begin) (suc fuel) s ≡ some (Status.ok, tested.1)
      unfolding poll
      poll_ready fuel e = rw e refl

      poll_late :
          (fuel : ℕ)
          → tested.0 ≡ false
          → timed_out ≡ true
          → poll chip ready n (u32 begin) (suc fuel) s ≡ some (Status.err_timeout, later.1)
      unfolding poll
      poll_late fuel e l =
          let given : not (n.timeout_ms == 0) ≡ true = ground (arith, timed) in
          rw (e, has, given, l) refl

      poll_again :
          (fuel : ℕ)
          → tested.0 ≡ false
          → timed_out ≡ false
          → poll chip ready n (u32 begin) (suc fuel) s ≡ poll chip ready n (u32 begin) fuel later.1
      unfolding poll
      poll_again fuel e l =
          let given : not (n.timeout_ms == 0) ≡ true = ground (arith, timed) in
          simp (e, has, given, l) refl

      -- A round that goes on is before the deadline still, and some cycles have passed.
      goes_on :
          cycles s < deadline + slack
          → timed_out ≡ false
          → (cycles later.1 < deadline) × (cycles s < cycles later.1)
      goes_on before l =
          let takes : cycles s < cycles later.1 =
            omega (arith, (test s).0, clock.tick_takes tested.1) in
          let short : cycles later.1 < deadline + slack + gap + gap =
            omega (arith, before, (test s).1, clock.tick_gap tested.1) in
          elim (side (cycles later.1) deadline) [
            | inl early ↦ (early, takes)
            | inr over ↦
                let fires = late later.1 over short in
                let same =
                  ap (λ t. leb n.timeout_ms (u32 (t + 2 ^ 32 - u32 begin))) (clock.tick tested.1) in
                absurd (false-ne-true (sym l ∙ same ∙ fires))
          ]

    pub poll_ends :
        (fuel : ℕ) (s : State)
        → cycles s < deadline + slack
        → deadline + slack < fuel + cycles s
        → (st : Status) × (s' : State) × ((st ≡ Status.ok) ⊎ (st ≡ Status.err_timeout))
          × (poll chip ready n (u32 begin) fuel s ≡ some (st, s'))
    poll_ends zero s h e = absurd (omega arith)
    poll_ends (suc fuel) s h e = elim (Bool-cases (tested s).0) [
      | inl up ↦ (Status.ok, (tested s).1, inl refl, poll_ready s fuel up)
      | inr down ↦ elim (Bool-cases (timed_out s)) [
        | inl over ↦ (Status.err_timeout, (later s).1, inr refl, poll_late s fuel down over)
        | inr early ↦
            let (before, passed) = goes_on s h early in
            let (st, s', which, ends) = poll_ends fuel (later s).1 (omega arith) (omega arith) in
            (st, s', which, poll_again s fuel down early ∙ ends)
      ]
    ]

  -- With a tick function that is a clock, a timeout that is not 0 and fits the counter of the clock
  -- with two accesses to spare, and more fuel than cycles pass in the timeout, `wait_flag` ends, with OK or
  -- ERR_TIMEOUT.
  pub wait_flag_ends :
      (i : Instance) (r : Reg) (mask : ℕ) (n : NodeState) (fuel : ℕ) (s : State)
      → n.has_get_ms ≡ true
      → n.timeout_ms ≢ 0
      → (n.timeout_ms + 1) * rate + gap + gap < 2 ^ 32 * rate
      → n.timeout_ms * rate < fuel
      → (st : Status) × (s' : State) × ((st ≡ Status.ok) ⊎ (st ≡ Status.err_timeout))
        × (wait_flag chip fuel i r mask n s ≡ some (st, s'))
  unfolding wait_flag
  wait_flag_ends i r mask n fuel s has timed fits enough =
      let s1 = (now s).1 in
      let begin = cycles s1 / rate in
      let low : begin * rate ≤ cycles s1 = div-mul-le_self (cycles s1) rate in
      let high : cycles s1 < begin * rate + rate =
        lt-div-mul-add {a = cycles s1} clock.rate_positive in
      let more : 1 * rate ≤ n.timeout_ms * rate =
        mul-le-mul_right {m = 1} rate (omega (arith, timed)) in
      let (st, s', which, ends) =
        poll_ends (flag_up chip i r mask) (λ s. (clock.read_takes i r s, clock.read_gap i r s)) n
          begin 0 has timed (omega (arith, fits)) fuel s1 (omega (arith, low, high, more))
          (omega (arith, low, enough)) in
      let started : start_time chip n s ≡ now s = ap (λ b. if b then now s else (0, s)) has in
      let run =
        ap (λ p. poll chip (flag_up chip i r mask) n p.0 fuel p.1) started
        ∙ ap (λ t. poll chip (flag_up chip i r mask) n t fuel s1) (clock.tick s)
        ∙ ends in
      (st, s', which, run)
