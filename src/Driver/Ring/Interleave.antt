-- ===== src/Driver/Ring/Interleave.antt =====
-- The interrupt handler may store frames between any two accesses of `CAN_MessageRead`: the ring
-- as a queue between one producer and one consumer, step by step. The consumer tests that the
-- ring is not empty, copies the frame at the tail, and then moves the tail on, in that order.
use dspic33ak_can_cmsis_driv.Prelude.{◌≤◌, ◌≡◌, ◌≢◌, refl, sym, ap, ◌∙◌, arith}
use dspic33ak_can_cmsis_driv.Prelude.{List, [], ◌∷◌, ◌++◌}
use dspic33ak_can_cmsis_driv.Prelude.{if◌then◌else◌, length, append_assoc, subst, get_or-set_ne}
use dspic33ak_can_cmsis_driv.Canfd.{Frame}
use dspic33ak_can_cmsis_driv.Driver.Queue
use dspic33ak_can_cmsis_driv.Driver.Queue.{capacity}
use dspic33ak_can_cmsis_driv.Driver.Ring.{Ring, zero_frame, advance_tail, frame_at_tail, put}
use dspic33ak_can_cmsis_driv.Driver.Ring.Refine.{IsRing, contents, length-contents, put_refines}
use dspic33ak_can_cmsis_driv.Driver.Ring.Refine.{
  contents_of_eq, contents_of_ne, advance_tail-IsRing,
}

-- Where `CAN_MessageRead` stands: outside the access, past the test, or with its copy in hand.
pub data Reader : Type 0 where
  idle : Reader
  tested : Reader
  copied : Frame → Reader

-- The ring, the reader, and what has been stored and handed to the application so far.
pub record Shared : Type 0 where
  pub ring : Ring
  pub reader : Reader
  pub accepted : List Frame
  pub delivered : List Frame

-- A store by the interrupt handler.
abbrev pub interrupt : Frame → Shared → Shared
interrupt f s =
    let (stored, ring) = put f s.ring in
    record s { ring = ring; accepted = if stored then s.accepted ++ (f ∷ []) else s.accepted }

pub data Step (s : Shared) : Shared → Type 0 where
  isr : (f : Frame) → Step s (interrupt f s)
  test : s.reader ≡ idle → s.ring.rx_tail ≢ s.ring.rx_head → Step s (record s { reader = tested })
  copy : s.reader ≡ tested → Step s (record s { reader = copied (frame_at_tail s.ring) })
  advance :
      (f : Frame)
      → s.reader ≡ copied f
      → Step s (record s {
        ring = advance_tail s.ring;
        reader = idle;
        delivered = s.delivered ++ (f ∷ []);
      })

-- The steps from an empty ring, in any order.
pub data Reach (s : Shared) : Shared → Type 0 where
  here : Reach s s
  later : {t u : Shared} → Reach s t → Step t u → Reach s u

-- What the reader relies on at each of its positions.
abbrev Holds : Reader → Ring → Type 0
Holds idle r = Unit {0}
Holds tested r = r.rx_tail ≢ r.rx_head
Holds (copied f) r = (r.rx_tail ≢ r.rx_head) × (f ≡ frame_at_tail r)

pub record Inv (s : Shared) : Type 0 where
  pub ring : IsRing s.ring
  pub in_order : s.accepted ≡ s.delivered ++ contents s.ring
  pub holds : Holds s.reader s.ring

-- A store takes nothing from the reader: the tail stays, and the frame there is not overwritten.
Holds-put : (f : Frame) (rd : Reader) (r : Ring) → IsRing r → Holds rd r → Holds rd (put f r).1
unfolding put
Holds-put f idle r v h = tt
Holds-put f tested r v h = ground arith
Holds-put f (copied g) r v h =
    ground (arith, get_or-set_ne r.rx_ring r.rx_head r.rx_tail f zero_frame)

in_order-put :
    (f : Frame) (r : Ring) (accepted delivered : List Frame)
    → IsRing r
    → accepted ≡ delivered ++ contents r
    → (if (put f r).0 then accepted ++ (f ∷ []) else accepted) ≡ delivered ++ contents (put f r).1
unfolding Queue.put
in_order-put f r accepted delivered v e =
    ground (arith, (put_refines f r v).0, append_assoc delivered (contents r) (f ∷ []))

Step-Inv : {s t : Shared} → Step s t → Inv s → Inv t
Step-Inv {s} (isr f) v = record {
  ring = (put_refines f s.ring v.ring).1;
  in_order = in_order-put f s.ring s.accepted s.delivered v.ring v.in_order;
  holds = Holds-put f s.reader s.ring v.ring v.holds;
}
Step-Inv (test i ne) v = record { ring = v.ring; in_order = v.in_order; holds = ne }
Step-Inv {s} (copy i) v = record {
  ring = v.ring;
  in_order = v.in_order;
  holds = (subst (λ rd. Holds rd s.ring) i v.holds, refl);
}
Step-Inv {s} (advance f i) v =
    let (ne, at_tail) = subst (λ rd. Holds rd s.ring) i v.holds in
    record {
      ring = advance_tail-IsRing s.ring v.ring;
      in_order =
          v.in_order
          ∙ ap (λ q. s.delivered ++ q) (contents_of_ne s.ring v.ring ne)
          ∙ ap (λ g. s.delivered ++ (g ∷ contents (advance_tail s.ring))) (sym at_tail)
          ∙ sym (append_assoc s.delivered (f ∷ []) (contents (advance_tail s.ring)));
      holds = tt;
    }

Reach-Inv : {s t : Shared} → Inv s → Reach s t → Inv t
Reach-Inv v here = v
Reach-Inv v (later r st) = Step-Inv st (Reach-Inv v r)

-- The start: a ring with no frame in it, whatever the indices, and nothing delivered.
unfoldable pub start : Ring → Shared
start r = record { ring = r; reader = idle; accepted = []; delivered = [] }

-- From an empty, well-formed ring, and however stores interleave with the steps of the reader: the
-- frames that were stored are those delivered, in the order of storing, followed by those in the
-- ring, of which there are at most seven; and a reader with a copy in hand holds the oldest frame
-- of the ring.
pub interleaving_in_order :
    (r : Ring) {s : Shared}
    → IsRing r
    → r.rx_tail ≡ r.rx_head
    → Reach (start r) s
    → (s.accepted ≡ s.delivered ++ contents s.ring)
      × (length (contents s.ring) ≤ capacity)
      × ((f : Frame) → s.reader ≡ copied f → (rest : List Frame) × (contents s.ring ≡ f ∷ rest))
unfolding start
interleaving_in_order r {s} v empty reach = (
  last.in_order,
  omega (arith, length-contents s.ring),
  λ f i. (
    contents (advance_tail s.ring),
    contents_of_ne s.ring last.ring (at i).0
        ∙ ap (λ g. g ∷ contents (advance_tail s.ring)) (sym (at i).1),
  ),
)
  where
    last : Inv s
    last =
        Reach-Inv (record { ring = v; in_order = sym (contents_of_eq r v empty); holds = tt }) reach

    at : {f : Frame} → s.reader ≡ copied f → Holds (copied f) s.ring
    at i = subst (λ rd. Holds rd s.ring) i last.holds
