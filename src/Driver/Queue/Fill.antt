-- ===== src/Driver/Queue/Fill.antt =====
-- A queue that is offered several frames in turn.
use dspic33ak_can_cmsis_driv.Prelude.{ℕ, suc, ◌-◌, ◌≤◌, ◌≡◌, ◌≢◌, ap, arith}
use dspic33ak_can_cmsis_driv.Prelude.{not, ◌||◌, List, [], ◌∷◌, ◌++◌}
use dspic33ak_can_cmsis_driv.Prelude.{append_assoc, length, length-append, take, ltb}
use dspic33ak_can_cmsis_driv.Canfd.{Frame}
use dspic33ak_can_cmsis_driv.Driver.Queue.{capacity, put}

-- The places that are left.
abbrev pub room : List Frame → ℕ
room q = capacity - length q

-- The queue after all frames that fit have been stored.
abbrev pub fill_up : List Frame → List Frame → List Frame
fill_up q frames = q ++ take (room q) frames

module _ (f : Frame) (q frames : List Frame) (small : length q ≤ capacity) where
  room-put : length q ≢ capacity → room (put f q).1 ≡ room q - 1
  unfolding put
  room-put ne = ground (arith, length-append q (f ∷ []))

  take-room : length q ≢ capacity → take (room q) (f ∷ frames) ≡ f ∷ take (room q - 1) frames
  take-room ne = ap (λ k. take k (f ∷ frames)) {y = suc (room q - 1)} (omega arith)

  take_full : (l : List Frame) → length q ≡ capacity → take (room q) l ≡ []
  take_full l e = ap (λ k. take k l) {y = 0} (omega arith)

  pub fill_up-put : fill_up (put f q).1 frames ≡ fill_up q (f ∷ frames)
  unfolding put
  fill_up-put = ground (
    arith,
    room-put,
    take-room,
    take_full frames,
    take_full (f ∷ frames),
    append_assoc q (f ∷ []) (take (room q - 1) frames),
  )

  -- Whether one of the frames was stored.
  pub stored-put :
      ((put f q).0 || ltb 0 (length (take (room (put f q).1) frames)))
      ≡ ltb 0 (length (take (room q) (f ∷ frames)))
  unfolding put
  stored-put = ground (arith, take-room, take_full frames, take_full (f ∷ frames))

  -- Whether one of the frames was dropped.
  pub dropped-put :
      (not (put f q).0 || ltb (room (put f q).1) (length frames))
      ≡ ltb (room q) (suc (length frames))
  unfolding put
  dropped-put = ground (arith, length-append q (f ∷ []))
