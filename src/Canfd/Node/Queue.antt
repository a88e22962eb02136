-- ===== src/Canfd/Node/Queue.antt =====
-- The transmit queue of the hardware, and what the end of `nora_canfd_transmit` leaves in it.
use dspic33ak_can_cmsis_driv.Prelude.{
  ℕ, zero, suc, ◌+◌, ◌*◌, ◌<◌, ◌≤◌, ◌≡◌, refl, sym, ap, ap₂, ◌∙◌, arith, bit_or, Bool, true, ◌==◌,
  if◌then◌else◌, List, [], ◌∷◌, ◌++◌, get_or, length, values,
}
use dspic33ak_can_cmsis_driv.Prelude.Bits.{bit_or-digit}
use dspic33ak_can_cmsis_driv.Canfd.Registers.{fifocon_uinc, fifocon_txreq}
use dspic33ak_can_cmsis_driv.Canfd.{Instance, Frame}
use dspic33ak_can_cmsis_driv.Canfd.Chip.{Chip, Reg, reg_set}
use dspic33ak_can_cmsis_driv.Canfd.Object.{write_object}
use dspic33ak_can_cmsis_driv.Canfd.Node.Module.{digit}
use dspic33ak_can_cmsis_driv.Canfd.Node.Transfer.{store_words, commit}

-- The transmit queue and the message RAM, as software relies on them. `queued` are the objects that
-- were put into the queue, and `on_bus` those that were handed over, in order, each as its words.
-- A write to CxTXQCON with UINC puts the object at the user address into the queue if there is room;
-- what it does to a full queue is left open. One with TXREQ hands all that is in the queue over; UINC
-- reads as 0. Nothing else changes the two lists. There is room when bit 0 of CxTXQSTA, "not full", is set, and it
-- stays, since only software fills the queue. The hardware leaves the 18 words of the object at the
-- user address alone.
pub record IsQueue (chip : Chip) (i : Instance) : Type 0 where
  pub word : chip.State → ℕ → ℕ
  pub address : chip.State → ℕ
  pub queued : chip.State → List (ℕ → ℕ)
  pub on_bus : chip.State → List (ℕ → ℕ)
  pub has_room : chip.State → Bool
  pub not_full :
      (s : chip.State)
      → digit 0 (chip.read i Reg.txqsta s).0 ≡ 1
      → has_room (chip.read i Reg.txqsta s).1 ≡ true
  pub read_room :
      (r : Reg) (s : chip.State) → has_room s ≡ true → has_room (chip.read i r s).1 ≡ true
  pub store_room :
      (a v : ℕ) (s : chip.State) → has_room s ≡ true → has_room (chip.store a v s) ≡ true
  pub read_address : (s : chip.State) → (chip.read i Reg.txqua s).0 ≡ address s
  pub read_uinc : (s : chip.State) → digit 8 (chip.read i Reg.txqcon s).0 ≡ 0
  pub reads :
      (r : Reg) (s : chip.State)
      → let s' = (chip.read i r s).1 in
        ((k : ℕ) → k < 18 → word s' (address s + k * 4) ≡ word s (address s + k * 4))
        × (address s' ≡ address s)
        × (queued s' ≡ queued s)
        × (on_bus s' ≡ on_bus s)
  pub ticks :
      (s : chip.State) → let s' = (chip.now s).1 in (queued s' ≡ queued s) × (on_bus s' ≡ on_bus s)
  pub store_word :
      (a v : ℕ) (s : chip.State) (b : ℕ)
      → word (chip.store a v s) b ≡ (if b == a then v else word s b)
  pub stores :
      (a v : ℕ) (s : chip.State)
      → let s' = chip.store a v s in
        (address s' ≡ address s) × (queued s' ≡ queued s) × (on_bus s' ≡ on_bus s)
  pub write_put :
      (v : ℕ) (s : chip.State)
      → digit 8 v ≡ 1
      → has_room s ≡ true
      → queued (chip.write i Reg.txqcon v s) ≡ queued s ++ (λ k. word s (address s + k * 4)) ∷ []
  pub write_queued :
      (v : ℕ) (s : chip.State) → digit 8 v ≡ 0 → queued (chip.write i Reg.txqcon v s) ≡ queued s
  pub write_on_bus :
      (v : ℕ) (s : chip.State)
      → let s' = chip.write i Reg.txqcon v s in
        on_bus s' ≡ (if digit 9 v == 1 then queued s' else on_bus s)

values_all :
    (xs : List ℕ) (k : ℕ) (o : ℕ → ℕ)
    → ((j : ℕ) → j < length xs → o (k + j) ≡ get_or xs j 0)
    → values o k (length xs) ≡ xs
values_all [] k o h = refl
values_all (x ∷ xs) k o h =
    ap₂ (λ y l. y ∷ l) (ap o {x = k} {y = k + 0} (omega arith) ∙ h 0 (omega arith))
      (values_all xs (k + 1) o
        (λ j small. ap o {x = k + 1 + j} {y = k + suc j} (omega arith) ∙ h (suc j) (omega arith)))

module _ (chip : Chip) (i : Instance) (q : IsQueue chip i) where
  open chip use {State, read, write, store, now}
  open q use {word, address, queued, on_bus}

  stored_below :
      (xs : List ℕ) (a b : ℕ) (s : State) → b < a → word (store_words chip a xs s) b ≡ word s b
  unfolding store_words
  stored_below [] a b s h = refl
  stored_below (x ∷ xs) a b s h =
      stored_below xs (a + 4) b (store a x s) (omega arith) ∙ q.store_word a x s b ∙ ground arith

  stored_words :
      (xs : List ℕ) (a : ℕ) (s : State) (k : ℕ)
      → k < length xs
      → word (store_words chip a xs s) (a + k * 4) ≡ get_or xs k 0
  unfolding store_words
  stored_words [] a s k h = absurd (omega arith)
  stored_words (x ∷ xs) a s zero h =
      stored_below xs (a + 4) (a + 0 * 4) (store a x s) (omega arith)
      ∙ q.store_word a x s (a + 0 * 4)
      ∙ ground arith
  stored_words (x ∷ xs) a s (suc k) h =
      ap (word (store_words chip (a + 4) xs (store a x s))) {x = a + suc k * 4} {y = a + 4 + k * 4}
        (omega arith)
      ∙ stored_words xs (a + 4) (store a x s) k (omega arith)

  -- The lists and the user address are as they were.
  record IsIdle (s s' : State) : Type 0 where
    same_address : address s' ≡ address s
    same_queued : queued s' ≡ queued s
    same_bus : on_bus s' ≡ on_bus s

  stored-IsIdle : (xs : List ℕ) (a : ℕ) (s : State) → IsIdle s (store_words chip a xs s)
  unfolding store_words
  stored-IsIdle [] a s = record { same_address = refl; same_queued = refl; same_bus = refl }
  stored-IsIdle (x ∷ xs) a s =
      let later = stored-IsIdle xs (a + 4) (store a x s) in
      let (h, k, l) = q.stores a x s in
      record {
        same_address = later.same_address ∙ h;
        same_queued = later.same_queued ∙ k;
        same_bus = later.same_bus ∙ l;
      }

  stored_room :
      (xs : List ℕ) (a : ℕ) (s : State)
      → q.has_room s ≡ true
      → q.has_room (store_words chip a xs s) ≡ true
  unfolding store_words
  stored_room [] a s h = h
  stored_room (x ∷ xs) a s h = stored_room xs (a + 4) (store a x s) (q.store_room a x s h)

  read-IsIdle : (r : Reg) (s0 s : State) → IsIdle s0 s → IsIdle s0 (read i r s).1
  read-IsIdle r s0 s v =
      let (_, h, k, l) = q.reads r s in
      record {
        same_address = h ∙ v.same_address;
        same_queued = k ∙ v.same_queued;
        same_bus = l ∙ v.same_bus;
      }

  -- One object was put into the queue, with these words, and all of the queue was handed over.
  pub record IsHanded (s s' : State) (obj : List ℕ) : Type 0 where
    pub object : ℕ → ℕ
    pub queued_last : queued s' ≡ queued s ++ object ∷ []
    pub handed : on_bus s' ≡ queued s'
    pub words_are : values object 0 (length obj) ≡ obj

  pub commit-IsHanded :
      (f : Frame) (s : State)
      → q.has_room s ≡ true
      → length (write_object f) ≤ 18
      → IsHanded s (commit chip i f s) (write_object f)
  unfolding commit reg_set
  commit-IsHanded f s room most =
      let obj = write_object f in
      let (a, s1) = read i Reg.txqua s in
      let s2 = store_words chip a obj s1 in
      let (v, t) = read i Reg.txqcon s2 in
      let s3 = write i Reg.txqcon (bit_or v fifocon_uinc) t in
      let (v2, t2) = read i Reg.txqcon s3 in
      let o = λ (k : ℕ). word t (address t + k * 4) in
      let first = q.reads Reg.txqua s in
      let before = read-IsIdle Reg.txqcon s1 s2 (stored-IsIdle obj a s1) in
      let room2 = stored_room obj a s1 (q.read_room Reg.txqua s room) in
      let put =
        q.write_put (bit_or v fifocon_uinc) t (omega (arith, bit_or-digit 8 v fifocon_uinc))
          (q.read_room Reg.txqcon s2 room2) in
      let after = q.reads Reg.txqcon s3 in
      let sent =
        q.write_queued (bit_or v2 fifocon_txreq) t2
          (omega (arith, bit_or-digit 8 v2 fifocon_txreq, q.read_uinc s3)) in
      let bus = q.write_on_bus (bit_or v2 fifocon_txreq) t2 in
      let here : address t ≡ a = before.same_address ∙ first.1 ∙ sym (q.read_address s) in
      record {
        object = o;
        queued_last = sent ∙ after.2 ∙ put ∙ ap (λ l. l ++ o ∷ []) (before.same_queued ∙ first.2);
        handed = bus ∙ ground (arith, bit_or-digit 9 v2 fifocon_txreq);
        words_are = values_all obj 0 o (λ j small.
            ap (word t) {x = address t + (0 + j) * 4} {y = address s2 + j * 4}
              (omega (arith, (q.reads Reg.txqcon s2).1))
            ∙ (q.reads Reg.txqcon s2).0 j (omega arith)
            ∙ ap (word s2) {x = address s2 + j * 4} {y = a + j * 4}
                (omega (arith, here, (q.reads Reg.txqcon s2).1))
            ∙ stored_words obj a s1 j small);
      }
