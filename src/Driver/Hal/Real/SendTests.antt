-- ===== src/Driver/Hal/Real/SendTests.antt =====
-- A message of the driver over the HAL over a transmit queue with room.
use dspic33ak_can_cmsis_driv.Prelude.{
  ℕ, zero, suc, ◌<◌, ◌^◌, ◌≡◌, refl, arith, true, false, none, some, pos, List, [], ◌∷◌, get_or,
}
use dspic33ak_can_cmsis_driv.Canfd.{Instance}
use dspic33ak_can_cmsis_driv.Canfd.Object.{write_object, pack, pack_word}
use dspic33ak_can_cmsis_driv.Canfd.Node.{wait_flag, poll}
use dspic33ak_can_cmsis_driv.Canfd.Node.Transfer.{
  nora_canfd_transmit, with_room, commit, store_words,
}
use dspic33ak_can_cmsis_driv.Canfd.Node.HandoverTests.{Memory, roomy, roomy_queue, with_space}
use dspic33ak_can_cmsis_driv.Canfd.Chip.{reg_set}
use dspic33ak_can_cmsis_driv.Canfd.Isr.{System}
use dspic33ak_can_cmsis_driv.Arm.{MsgInfo}
use dspic33ak_can_cmsis_driv.Driver.Context.{Context, Device, initial_context, example_rte}
use dspic33ak_can_cmsis_driv.Driver.Event.{obj_tx}
use dspic33ak_can_cmsis_driv.Driver.Message.{frame_of, can_message_send}
use dspic33ak_can_cmsis_driv.Driver.Hal.Real.{HalState, running, Below, canfd}
use dspic33ak_can_cmsis_driv.Driver.Hal.Real.Send.{IsReturned, driver_sends}

abbrev below : Below
below = record { chip = roomy; has_line = λ i l. true; fuel = 1; handler = 1; context = λ i. 1 }

abbrev ctx : Context
ctx =
    let c = initial_context Instance.inst_1 4096 (example_rte true) in
    record c { hal_inst = Instance.inst_1; initialized = true; powered = true }

abbrev live : System Memory
live = record {
  node = with_space;
  isr = record {
    g_cb = λ i. none;
    g_ud = λ i. 0;
    g_tx_busy = λ i. false;
    g_irq_priority = λ i. 0;
    g_isr_enabled = λ i. false;
    lines = λ i l. record { flag = false; priority = 4; enabled = false };
  };
}

abbrev info : MsgInfo
info = record { id = 5; rtr = 0; edl = 1; brs = 1; esi = 0; dlc = 2 }

abbrev sent : List ℕ
sent = 7 ∷ 8 ∷ []

sent-are_bytes : (j : ℕ) → get_or sent j 0 < 2 ^ 8
sent-are_bytes zero = omega arith
sent-are_bytes (suc zero) = omega arith
sent-are_bytes (suc (suc j)) = omega arith

abbrev device : Device (HalState Memory)
device = record { ctx = ctx; hal = running live }

counts : (can_message_send (canfd below) obj_tx (some info) (some sent) 2 device).0 ≡ pos 2
unfolding can_message_send frame_of nora_canfd_transmit wait_flag poll with_room commit reg_set
    store_words write_object pack pack_word initial_context
counts = refl

driver_sends_example :
    IsReturned below ctx live roomy_queue
      (frame_of info sent 2)
      2
      (can_message_send (canfd below) obj_tx (some info) (some sent) 2 device)
driver_sends_example =
    driver_sends below ctx live roomy_queue obj_tx info sent 2 (omega arith) sent-are_bytes
