-- ===== src/Canfd/Node/HandoverTests.antt =====
-- `nora_canfd_transmit` over a queue of four objects, which loses what is put into it when it is full.
use dspic33ak_can_cmsis_driv.Prelude.{
  ℕ, ◌+◌, ◌*◌, ◌≡◌, refl, arith, Bool, true, false, ltb, length, ◌&&◌, ◌==◌, if◌then◌else◌, List,
  [], ◌∷◌, ◌++◌,
}
use dspic33ak_can_cmsis_driv.Canfd.{Instance, Mode, Status}
use dspic33ak_can_cmsis_driv.Canfd.Chip.{Chip, Reg, reg_set}
use dspic33ak_can_cmsis_driv.Canfd.Node.{World, Run, trap, dry, done, wait_flag, poll}
use dspic33ak_can_cmsis_driv.Canfd.Object.{write_object, pack, pack_word}
use dspic33ak_can_cmsis_driv.Canfd.Node.Module.{digit}
use dspic33ak_can_cmsis_driv.Canfd.Node.Transfer.{
  nora_canfd_transmit, with_room, commit, store_words,
}
use dspic33ak_can_cmsis_driv.Canfd.Node.Tests.{small, small-are_bytes}
use dspic33ak_can_cmsis_driv.Canfd.Node.Queue.{IsQueue}
use dspic33ak_can_cmsis_driv.Canfd.Node.Handover.{Sends, transmit-Sends}

pub record Memory : Type 0 where
  pub ram : ℕ → ℕ
  pub user_address : ℕ
  pub put : List (ℕ → ℕ)
  pub sent : List (ℕ → ℕ)

-- Up to four objects wait to be handed over.
abbrev pub room_for : Memory → Bool
room_for s = ltb (length s.put) (length s.sent + 4)

abbrev pub shown : Reg → Memory → ℕ
shown Reg.txqua s = s.user_address
shown Reg.txqsta s = if room_for s then 1 else 0
shown _ s = 0

abbrev pub put_object : ℕ → Memory → Memory
put_object v s =
    if digit 8 v == 1 && room_for s
    then record s {
      put = s.put ++ (λ k. s.ram (s.user_address + k * 4)) ∷ [];
      user_address = s.user_address + 72;
    }
    else s

abbrev pub hand_over : ℕ → Memory → Memory
hand_over v s = if digit 9 v == 1 then record s { sent = s.put } else s

abbrev pub written : Reg → ℕ → Memory → Memory
written Reg.txqcon v s = hand_over v (put_object v s)
written _ v s = s

abbrev pub roomy : Chip
roomy = record {
  State = Memory;
  present = λ i. true;
  read = λ i r s. (shown r s, s);
  write = λ i r v s. written r v s;
  load = λ a s. (s.ram a, s);
  store = λ a v s. record s { ram = λ b. if b == a then v else s.ram b };
  now = λ s. (0, s);
}

pub put_lem :
    (v : ℕ) (s : Memory)
    → digit 8 v ≡ 1
    → room_for s ≡ true
    → (hand_over v (put_object v s)).put ≡ s.put ++ (λ k. s.ram (s.user_address + k * 4)) ∷ []
put_lem v s e room = ground arith

pub queued_lem : (v : ℕ) (s : Memory) → digit 8 v ≡ 0 → (hand_over v (put_object v s)).put ≡ s.put
queued_lem v s e = ground arith

pub not_full_lem : (b : Bool) → digit 0 (if b then 1 else 0) ≡ 1 → b ≡ true
not_full_lem true h = refl
not_full_lem false h = absurd (omega arith)

pub sent_lem :
    (v : ℕ) (s : Memory)
    → let t = hand_over v (put_object v s) in t.sent ≡ (if digit 9 v == 1 then t.put else s.sent)
sent_lem v s = ground arith

abbrev pub roomy_queue : IsQueue roomy Instance.inst_1
roomy_queue = record {
  word = λ s. s.ram;
  address = λ s. s.user_address;
  queued = λ s. s.put;
  on_bus = λ s. s.sent;
  read_address = λ s. refl;
  read_uinc = λ s. refl;
  reads = λ r s. (λ k h. refl, refl, refl, refl);
  ticks = λ s. (refl, refl);
  store_word = λ a v s b. refl;
  stores = λ a v s. (refl, refl, refl);
  has_room = room_for;
  not_full = λ s h. not_full_lem (room_for s) h;
  read_room = λ r s h. h;
  store_room = λ a v s h. h;
  write_put = put_lem;
  write_queued = queued_lem;
  write_on_bus = sent_lem;
}

abbrev pub with_space : World Memory
with_space = record {
  chip = record { ram = λ a. 0; user_address = 4096; put = []; sent = [] };
  g_node = λ i. record { initialized = true; has_get_ms = false; timeout_ms = 0 };
  g_mode = λ i. Mode.normal_fd;
}

transmit-Sends_example :
    Sends roomy Instance.inst_1 roomy_queue with_space small
      (nora_canfd_transmit roomy 1 Instance.inst_1 small with_space)
transmit-Sends_example =
    transmit-Sends roomy Instance.inst_1 roomy_queue 1 small with_space (omega arith)
      (record { at_most = omega arith; len_bytes = refl; are_bytes = small-are_bytes })

abbrev world_of : Run Memory → World Memory
world_of trap = with_space
world_of dry = with_space
world_of (done st w) = w

transmits :
    nora_canfd_transmit roomy 1 Instance.inst_1 small with_space
    ≡ done Status.ok (world_of (nora_canfd_transmit roomy 1 Instance.inst_1 small with_space))
unfolding nora_canfd_transmit wait_flag poll with_room commit reg_set store_words write_object pack
    pack_word
transmits = refl
