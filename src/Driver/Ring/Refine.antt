-- ===== src/Driver/Ring/Refine.antt =====
-- A ring holds the frames from the tail up to the head: as a queue, oldest first, of at most seven
-- frames, since the head never catches up with the tail.
use dspic33ak_can_cmsis_driv.Prelude.{
  ℕ, zero, suc, ◌+◌, ◌-◌, ◌%◌, ◌≤◌, ◌<◌, ◌≡◌, ◌≢◌, refl, ap, ap₂, ◌∙◌,
}
use dspic33ak_can_cmsis_driv.Prelude.{arith, List, [], ◌∷◌}
use dspic33ak_can_cmsis_driv.Prelude.{◌++◌, length, get_or, set}
use dspic33ak_can_cmsis_driv.Prelude.{length-set, get_or-set_self, get_or-set_ne}
use dspic33ak_can_cmsis_driv.Canfd.{Frame}
use dspic33ak_can_cmsis_driv.Driver.Queue
use dspic33ak_can_cmsis_driv.Driver.Queue.{capacity}
use dspic33ak_can_cmsis_driv.Driver.Ring.{Ring, zero_frame, next_index, advance_tail, frame_at_tail}
use dspic33ak_can_cmsis_driv.Driver.Ring.{put, pop}

pub record IsRing (r : Ring) : Type 0 where
  pub slots : length r.rx_ring ≡ 8
  pub head_in : r.rx_head < 8
  pub tail_in : r.rx_tail < 8

-- The `n` frames from slot `i` on, going round at the end.
abbrev pub frames_from : List Frame → ℕ → ℕ → List Frame
frames_from slots i zero = []
frames_from slots i (suc n) = get_or slots i zero_frame ∷ frames_from slots (next_index i) n

abbrev pub fill : Ring → ℕ
fill r = (r.rx_head + 8 - r.rx_tail) % 8

abbrev pub contents : Ring → List Frame
contents r = frames_from r.rx_ring r.rx_tail (fill r)

length-frames_from : (slots : List Frame) (i n : ℕ) → length (frames_from slots i n) ≡ n
length-frames_from slots i zero = refl
length-frames_from slots i (suc n) = ap suc (length-frames_from slots (next_index i) n)

pub length-contents : (r : Ring) → length (contents r) ≡ fill r
length-contents r = length-frames_from r.rx_ring r.rx_tail (fill r)

-- The last of the frames stands `n` slots on.
frames_from-suc :
    (slots : List Frame) (i n : ℕ)
    → i < 8
    → frames_from slots i (suc n)
      ≡ frames_from slots i n ++ (get_or slots ((i + n) % 8) zero_frame ∷ [])
frames_from-suc slots i zero h = ap (λ k. get_or slots k zero_frame ∷ []) (omega arith)
frames_from-suc slots i (suc n) h =
    ap (λ l. get_or slots i zero_frame ∷ l)
      (frames_from-suc slots (next_index i) n (omega arith)
        ∙ ap (λ k. frames_from slots (next_index i) n ++ (get_or slots k zero_frame ∷ []))
            (omega arith))

-- A store outside the frames leaves them alone.
frames_from-set :
    (slots : List Frame) (f : Frame) (i n j : ℕ)
    → i < 8
    → j < 8
    → n ≤ (j + 8 - i) % 8
    → frames_from (set slots j f) i n ≡ frames_from slots i n
frames_from-set slots f i zero j hi hj h = refl
frames_from-set slots f i (suc n) j hi hj h =
    ap₂ ◌∷◌ (get_or-set_ne slots j i f zero_frame (omega arith))
      (frames_from-set slots f (next_index i) n j (omega arith) hj (omega arith))

module _ (r : Ring) (v : IsRing r) where
  -- The ring after a frame has been stored.
  abbrev stored : Frame → Ring
  stored f = record r { rx_ring = set r.rx_ring r.rx_head f; rx_head = next_index r.rx_head }

  fill-stored : (f : Frame) → next_index r.rx_head ≢ r.rx_tail → fill (stored f) ≡ suc (fill r)
  fill-stored f room = omega arith

  fill_full : next_index r.rx_head ≡ r.rx_tail → fill r ≡ capacity
  fill_full full = omega arith

  fill_room : next_index r.rx_head ≢ r.rx_tail → fill r ≢ capacity
  fill_room room = omega arith

  contents-stored :
      (f : Frame) → next_index r.rx_head ≢ r.rx_tail → contents (stored f) ≡ contents r ++ (f ∷ [])
  contents-stored f room =
      let slots = set r.rx_ring r.rx_head f in
      let last : (r.rx_tail + fill r) % 8 ≡ r.rx_head = omega arith in
      ap (frames_from slots r.rx_tail) (fill-stored f room)
      ∙ frames_from-suc slots r.rx_tail (fill r) v.tail_in
      ∙ ap₂ (λ l g. l ++ (g ∷ []))
          (frames_from-set r.rx_ring f r.rx_tail (fill r) r.rx_head v.tail_in v.head_in
            (omega arith))
          (ap (λ k. get_or slots k zero_frame) last
            ∙ get_or-set_self r.rx_ring r.rx_head f zero_frame (omega arith))

  pub contents_of_ne :
      r.rx_tail ≢ r.rx_head → contents r ≡ frame_at_tail r ∷ contents (advance_tail r)
  contents_of_ne ne =
      ap (frames_from r.rx_ring r.rx_tail) {y = suc (fill (advance_tail r))} (omega arith)

  pub contents_of_eq : r.rx_tail ≡ r.rx_head → contents r ≡ []
  contents_of_eq e = ap (frames_from r.rx_ring r.rx_tail) {y = 0} (omega arith)

  pub stored-IsRing : (f : Frame) → IsRing (stored f)
  stored-IsRing f = omega (arith, length-set r.rx_ring r.rx_head f)

  pub advance_tail-IsRing : IsRing (advance_tail r)
  advance_tail-IsRing = omega arith

-- `put` stores the frame at the end of the queue unless seven frames are held, when it drops it;
-- the ring stays well formed.
pub put_refines :
    (f : Frame) (r : Ring)
    → IsRing r
    → let (stored, r') = put f r in ((stored, contents r') ≡ Queue.put f (contents r)) × IsRing r'
unfolding put Queue.put
put_refines f r v = (
  ground (arith, length-contents r, fill_full r v, fill_room r v, contents-stored r v f),
  ground (arith, stored-IsRing r v f),
)

-- `pop` removes the first frame of the queue, if there is one; the ring stays well formed.
pub pop_refines :
    (r : Ring)
    → IsRing r
    → let (popped, r') = pop r in ((popped, contents r') ≡ Queue.pop (contents r)) × IsRing r'
unfolding pop Queue.pop
pop_refines r v = (
  ground (arith, contents_of_eq r v, contents_of_ne r v),
  ground (arith, advance_tail-IsRing r v),
)
