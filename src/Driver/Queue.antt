-- ===== src/Driver/Queue.antt =====
-- A first-in first-out queue of at most seven frames, oldest first: what the receive ring promises.
pub mod Fill
use dspic33ak_can_cmsis_driv.Prelude.{ℕ, Bool, true, false, Option, none, some, List, [], ◌∷◌}
use dspic33ak_can_cmsis_driv.Prelude.{◌++◌, ◌==◌, if◌then◌else◌, length}
use dspic33ak_can_cmsis_driv.Canfd.{Frame}

-- The frames that the ring can hold.
abbrev pub capacity : ℕ
capacity = 7

-- Whether the frame was stored, and the queue.
unfoldable pub put : Frame → List Frame → Bool × List Frame
put f q = if length q == capacity then (false, q) else (true, q ++ (f ∷ []))

unfoldable pub pop : List Frame → Option Frame × List Frame
pop [] = (none, [])
pop (f ∷ q) = (some f, q)
