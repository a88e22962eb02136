-- ===== src/Driver/Ring.antt =====
-- The receive ring of a driver instance: `rx_ring`, `rx_head` and `rx_tail` of
-- `can_cmsis_context_t` in cmsis_driver/Driver_CAN_dsPIC33AK.c. The event handler stores, and
-- `CAN_MessageRead` removes.
pub mod Refine
pub mod Interleave
use dspic33ak_can_cmsis_driv.Prelude.{ℕ, ◌+◌, ◌%◌, Bool, true, false, Option, none, some, List, []}
use dspic33ak_can_cmsis_driv.Prelude.{◌==◌, if◌then◌else◌, get_or, set}
use dspic33ak_can_cmsis_driv.Prelude.Bits.{u8}
use dspic33ak_can_cmsis_driv.Canfd.{Frame}

abbrev pub ring_len : ℕ
ring_len = 8

-- Static storage starts as zeros.
abbrev pub zero_frame : Frame
zero_frame = record { id = 0; extended = false; fd = false; brs = false; len = 0; bytes = [] }

pub record Ring : Type 0 where
  pub rx_ring : List Frame
  pub rx_head : ℕ
  pub rx_tail : ℕ

-- `(uint8_t)((i + 1u) % CAN_RX_RING_LEN)`
abbrev pub next_index : ℕ → ℕ
next_index i = u8 ((i + 1) % ring_len)

-- The body of the loop in `can_hal_event` after a frame has been received; `false` if the ring
-- is full and the frame is dropped.
unfoldable pub put : Frame → Ring → Bool × Ring
put f r =
    let nh = next_index r.rx_head in
    if nh == r.rx_tail
    then (false, r)
    else (true, record r { rx_ring = set r.rx_ring r.rx_head f; rx_head = nh })

-- `ctx->rx_tail = (uint8_t)((ctx->rx_tail + 1u) % CAN_RX_RING_LEN);`
abbrev pub advance_tail : Ring → Ring
advance_tail r = record r { rx_tail = next_index r.rx_tail }

-- `ctx->rx_ring[ctx->rx_tail]`
abbrev pub frame_at_tail : Ring → Frame
frame_at_tail r = get_or r.rx_ring r.rx_tail zero_frame

-- "Pop one frame" in `CAN_MessageRead`; `none` if the ring is empty.
unfoldable pub pop : Ring → Option Frame × Ring
pop r = if r.rx_tail == r.rx_head then (none, r) else (some (frame_at_tail r), advance_tail r)
