-- ===== src/Driver/Api/Typed.antt =====
-- The frames that the receive ring holds, in every state that calls and interrupts reach.
use dspic33ak_can_cmsis_driv.Prelude.{
  ℕ, zero, suc, ◌≡◌, refl, arith, subst, sym, true, List, [], ◌∷◌, get_or, set, replicate,
}
use dspic33ak_can_cmsis_driv.Canfd.{Frame, Instance}
use dspic33ak_can_cmsis_driv.Canfd.Dlc.{dlc_to_len, len_to_dlc}
use dspic33ak_can_cmsis_driv.Canfd.Object.Typed.{IsFrame}
use dspic33ak_can_cmsis_driv.Driver.Hal.{Hal, is_ok}
use dspic33ak_can_cmsis_driv.Driver.Ring.{Ring, put, zero_frame}
use dspic33ak_can_cmsis_driv.Driver.Context.{Device, Rte, initial_context}
use dspic33ak_can_cmsis_driv.Driver.Api.Induction.{IsClosed}
use dspic33ak_can_cmsis_driv.Driver.Api.Slots.{slots, call-slots}

pub zero_frame-IsFrame : IsFrame zero_frame
unfolding dlc_to_len len_to_dlc
zero_frame-IsFrame = record {
  id = omega arith;
  payload = record { at_most = omega arith; len_bytes = refl; are_bytes = λ i. omega arith };
  coded = refl;
}

-- The frames of a ring are in range.
abbrev pub AreFrames : List Frame → Type 0
AreFrames fs = (i : ℕ) → IsFrame (get_or fs i zero_frame)

set-AreFrames :
    (fs : List Frame) (i : ℕ) (f : Frame) → AreFrames fs → IsFrame f → AreFrames (set fs i f)
set-AreFrames [] i f h k j = h j
set-AreFrames (x ∷ fs) zero f h k zero = k
set-AreFrames (x ∷ fs) zero f h k (suc j) = h (suc j)
set-AreFrames (x ∷ fs) (suc i) f h k zero = h zero
set-AreFrames (x ∷ fs) (suc i) f h k (suc j) = set-AreFrames fs i f (λ l. h (suc l)) k j

zeros-AreFrames : (n : ℕ) → AreFrames (replicate n zero_frame)
zeros-AreFrames zero j = zero_frame-IsFrame
zeros-AreFrames (suc n) zero = zero_frame-IsFrame
zeros-AreFrames (suc n) (suc j) = zeros-AreFrames n j

put-AreFrames :
    (f : Frame) (r : Ring) → AreFrames r.rx_ring → IsFrame f → AreFrames (put f r).1.rx_ring
unfolding put
put-AreFrames f r h k = ground (arith, set-AreFrames r.rx_ring r.rx_head f h k)

module _ {S : Type 0} where
  -- The ring of an instance holds frames in range.
  abbrev pub HoldsFrames : Device S → Type 0
  HoldsFrames d = AreFrames (slots d)

pub initial-HoldsFrames :
    {S : Type 0} (inst : Instance) (ram : ℕ) (rte : Rte) (h : S)
    → HoldsFrames (record { ctx = initial_context inst ram rte; hal = h })
unfolding initial_context
initial-HoldsFrames inst ram rte h = zeros-AreFrames 8

-- Over a HAL whose frames are in range, the driver keeps those of its ring in range.
pub HoldsFrames-IsClosed :
    (hal : Hal)
    → ((i : Instance) (h : hal.State)
        → is_ok (hal.receive i h).0 ≡ true
        → IsFrame (hal.receive i h).1)
    → IsClosed hal HoldsFrames
HoldsFrames-IsClosed hal typed = record {
  call = λ c d h. subst AreFrames (sym (call-slots hal c d)) h;
  looked = λ d h. h;
  unkept = λ d h. h;
  kept = λ d h ok.
      put-AreFrames (hal.receive d.ctx.hal_inst d.hal).1 d.ctx.rx h (typed d.ctx.hal_inst d.hal ok);
}
