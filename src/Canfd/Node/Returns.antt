-- ===== src/Canfd/Node/Returns.antt =====
-- What holds of the chip where a call of the node ends with OK.
use dspic33ak_can_cmsis_driv.Prelude.{◌≡◌, refl, arith, subst, Option, none, some, true, false}
use dspic33ak_can_cmsis_driv.Canfd.{Status, is_ok}
use dspic33ak_can_cmsis_driv.Canfd.Timing.{Words, Calculated, trapped, failed, words}
use dspic33ak_can_cmsis_driv.Canfd.Chip.{Chip}
use dspic33ak_can_cmsis_driv.Canfd.Node.{World, Run, trap, dry, done, after_wait}
use dspic33ak_can_cmsis_driv.Canfd.Node.Request.{Ends}

module _ (chip : Chip) where
  open chip use {State}

  -- What holds of the chip where a call ends with OK.
  abbrev pub OnOk : (State → Type 0) → Run State → Type 0
  OnOk P trap = Unit {0}
  OnOk P dry = Unit {0}
  OnOk P (done st w) = is_ok st ≡ true → P w.chip

  pub waited-OnOk :
      (P : State → Type 0) {Q R : State → Type 0} (o : Option (Status × State)) (w : World State)
      (k : Status → World State → Run State)
      → Ends Q R o
      → ((st : Status) (s : State)
          → Q s
          → (is_ok st ≡ true → R s)
          → OnOk P (k st (record w { chip = s })))
      → OnOk P (after_wait chip o w k)
  waited-OnOk P none w k e h = tt
  waited-OnOk P (some (st, s)) w k e h = h st s e.0 e.1

  pub OnOk-map :
      (P Q : State → Type 0) (r : Run State) → ((s : State) → P s → Q s) → OnOk P r → OnOk Q r
  OnOk-map P Q trap f h = tt
  OnOk-map P Q dry f h = tt
  OnOk-map P Q (done st w) f h = λ ok. f w.chip (h ok)

  pub calculated-OnOk :
      (P : Words → State → Type 0) (r : Calculated) (w : World State) (k : Words → Run State)
      → ((st : Status) → r ≡ failed st → is_ok st ≡ false)
      → ((t : Words) → OnOk (P t) (k t))
      → OnOk
          (λ s. (t : Words) × (r ≡ words t) × P t s)
          (elim r [ trapped ↦ trap | failed st ↦ done st w | words t ↦ k t ])
  calculated-OnOk P trapped w k e h = tt
  calculated-OnOk P (failed st) w k e h = λ ok. absurd (ground (arith, e st refl))
  calculated-OnOk P (words t) w k e h = OnOk-map (P t) _ (k t) (λ s p. (t, refl, p)) (h t)

  pub returned :
      (P : State → Type 0) (r : Run State) (w : World State)
      → OnOk P r
      → r ≡ done Status.ok w
      → P w.chip
  returned P r w h e = subst (OnOk P) e h refl
