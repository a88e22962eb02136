-- ===== src/Canfd/Node/Outcome.antt =====
-- What `nora_canfd_init` leaves of an instance, by the status that it returns.
use dspic33ak_can_cmsis_driv.Prelude.{
  ℕ, ◌≡◌, ◌⊎◌, inr, refl, arith, Bool, true, false, not, Option, none, some,
}
use dspic33ak_can_cmsis_driv.Prelude.{if◌then◌else◌}
use dspic33ak_can_cmsis_driv.Canfd.{Instance, Status, is_ok, Mode, Config}
use dspic33ak_can_cmsis_driv.Canfd.Timing.{
  Words, Calculated, trapped, failed, words, nora_canfd_calc_bit_timing,
}
use dspic33ak_can_cmsis_driv.Canfd.Chip.{Chip}
use dspic33ak_can_cmsis_driv.Canfd.Node.{NodeState, World, Run, trap, dry, done, set_at, after_wait}
use dspic33ak_can_cmsis_driv.Canfd.Node.Bringup.{
  is_bad_config, entered, in_configuration, bring_up, nora_canfd_init,
}
use dspic33ak_can_cmsis_driv.Canfd.Node.Bringup.{sample_or_default}

pub set_at_same : {A : Type 0} (a : Instance → A) (i : Instance) (v : A) → set_at a i v i ≡ v
set_at_same a Instance.inst_1 v = refl
set_at_same a Instance.inst_2 v = refl

pub failed_calculation :
    (clk nominal fd sample : ℕ) (st : Status)
    → nora_canfd_calc_bit_timing clk nominal fd sample ≡ failed st
    → is_ok st ≡ false
unfolding nora_canfd_calc_bit_timing
failed_calculation clk nominal fd sample st e = ground arith

module _ (chip : Chip) (i : Instance) (c : Config) where
  open chip use {State}

  -- The instance is up in the mode of the configuration, with its timeout and tick function.
  abbrev pub IsUp : World State → Type 0
  IsUp w =
      (w.g_mode i ≡ c.mode)
      × (w.g_node i
          ≡ record { initialized = true; has_get_ms = c.has_get_ms; timeout_ms = c.timeout_ms })

  -- The instance is not initialised.
  abbrev pub IsDown : World State → Type 0
  IsDown w = (w.g_mode i ≡ Mode.none) × ((w.g_node i).initialized ≡ false)

  -- OK, and the instance is up; or an error, and it is down; or an error, and all is as before.
  abbrev pub IsOutcome : World State → Run State → Type 0
  IsOutcome w trap = Unit {0}
  IsOutcome w dry = Unit {0}
  IsOutcome w (done st w') =
      (st ≡ Status.ok) × IsUp w' ⊎ (is_ok st ≡ false) × (IsDown w' ⊎ (w' ≡ w))

  -- The state between: the instance is down, and its node has the settings.
  abbrev IsBetween : World State → Type 0
  IsBetween w =
      (w.g_mode i ≡ Mode.none)
      × (w.g_node i
          ≡ record { initialized = false; has_get_ms = c.has_get_ms; timeout_ms = c.timeout_ms })

  entered-IsOutcome :
      (w0 : World State) (st : Status) (w : World State)
      → IsBetween w
      → IsOutcome w0 (entered chip i c st w)
  unfolding entered
  entered-IsOutcome w0 st w b =
      let n : NodeState = w.g_node i in
      ground (
        arith,
        b,
        set_at_same w.g_mode i c.mode,
        set_at_same w.g_node i (record n { initialized = true }),
      )

  waited-IsOutcome :
      (w0 : World State) (o : Option (Status × State)) (w : World State)
      (k : Status → World State → Run State)
      → ((st : Status) (s : State) → IsOutcome w0 (k st (record w { chip = s })))
      → IsOutcome w0 (after_wait chip o w k)
  waited-IsOutcome w0 none w k h = tt
  waited-IsOutcome w0 (some (st, s)) w k h = h st s

  if-IsOutcome :
      (w0 : World State) (b : Bool) (x y : Run State)
      → (b ≡ true → IsOutcome w0 x)
      → (b ≡ false → IsOutcome w0 y)
      → IsOutcome w0 (if b then x else y)
  if-IsOutcome w0 true x y h k = h refl
  if-IsOutcome w0 false x y h k = k refl

  in_configuration-IsOutcome :
      (w0 : World State) (fuel : ℕ) (t : Words) (st : Status) (w : World State)
      → IsBetween w
      → IsOutcome w0 (in_configuration chip fuel i c t st w)
  unfolding in_configuration
  in_configuration-IsOutcome w0 fuel t st w b =
      if-IsOutcome w0 (not (is_ok st)) _ _ (λ e. ground (arith, b))
        (λ _. waited-IsOutcome w0 _ w (entered chip i c) (λ st s. entered-IsOutcome w0 st _ b))

  bring_up-IsOutcome :
      (w0 : World State) (fuel : ℕ) (t : Words) (w : World State)
      → IsOutcome w0 (bring_up chip fuel i c t w)
  unfolding bring_up
  bring_up-IsOutcome w0 fuel t w =
      waited-IsOutcome w0 _ _ (in_configuration chip fuel i c t) (λ st s.
        in_configuration-IsOutcome w0 fuel t st _
          (set_at_same w.g_mode i Mode.none, set_at_same w.g_node i _))

  calculated-IsOutcome :
      (w : World State) (r : Calculated) (k : Words → Run State)
      → ((st : Status) → r ≡ failed st → is_ok st ≡ false)
      → ((t : Words) → IsOutcome w (k t))
      → IsOutcome w (elim r [ trapped ↦ trap | failed st ↦ done st w | words t ↦ k t ])
  calculated-IsOutcome w trapped k e h = tt
  calculated-IsOutcome w (failed st) k e h = inr (e st refl, inr refl)
  calculated-IsOutcome w (words t) k e h = h t

  -- A call of `nora_canfd_init` that ends, whatever the hardware does, returns OK with the instance
  -- in the mode of the configuration, initialised, with its timeout and tick function; or an error
  -- with the instance in no mode and not initialised; or an error with all as before.
  pub init-IsOutcome : (fuel : ℕ) (w : World State) → IsOutcome w (nora_canfd_init chip fuel i c w)
  unfolding nora_canfd_init
  init-IsOutcome fuel w =
      if-IsOutcome w (is_bad_config c) _ _ (λ _. inr (refl, inr refl))
        (λ _.
          if-IsOutcome w (not (chip.present i)) _ _ (λ _. inr (refl, inr refl))
            (λ _.
              calculated-IsOutcome w _ (λ t. bring_up chip fuel i c t w)
                (failed_calculation c.can_clk_hz c.nominal_bps c.data_bps
                  (sample_or_default c.sample_pct))
                (λ t. bring_up-IsOutcome w fuel t w)))
