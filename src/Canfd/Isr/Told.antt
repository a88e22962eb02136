-- ===== src/Canfd/Isr/Told.antt =====
-- The word of events that `nora_canfd_irq_handler` passes to the callback.
use dspic33ak_can_cmsis_driv.Prelude.{ℕ, ◌^◌, ◌<◌, ◌≡◌, arith, Bool, ◌&&◌}
use dspic33ak_can_cmsis_driv.Canfd.{
  event_tx_complete, event_rx_available, event_bus_error, event_bus_off, event_rx_overflow,
  event_invalid_msg,
}
use dspic33ak_can_cmsis_driv.Canfd.Isr.Handler.{with_event, is_up}
use dspic33ak_can_cmsis_driv.Canfd.Registers.{
  txqsta_txqeif, int_txif, int_rxif, int_rxovif, int_cerrif, int_ivmif, trec_txbo,
}

-- The events are exactly those raised.
pub record IsReport (rx overflow tx error invalid off : Bool) (events : ℕ) : Type 0 where
  pub rx_bit : is_up events event_rx_available ≡ rx
  pub overflow_bit : is_up events event_rx_overflow ≡ overflow
  pub tx_bit : is_up events event_tx_complete ≡ tx
  pub error_bit : is_up events event_bus_error ≡ error
  pub invalid_bit : is_up events event_invalid_msg ≡ invalid
  pub off_bit : is_up events event_bus_off ≡ off
  pub no_other : events < 2 ^ 6

-- The events of the words read from INT, TXQSTA and TREC.
abbrev pub events_of : ℕ → ℕ → ℕ → ℕ
events_of intf sta trec =
    let tx = is_up intf int_txif && is_up sta txqsta_txqeif in
    let ev2 =
      with_event (is_up intf int_rxovif) event_rx_overflow
        (with_event (is_up intf int_rxif) event_rx_available 0) in
    let ev4 =
      with_event (is_up intf int_cerrif) event_bus_error (with_event tx event_tx_complete ev2) in
    with_event (is_up trec trec_txbo) event_bus_off
      (with_event (is_up intf int_ivmif) event_invalid_msg ev4)

abbrev pub IsTold : ℕ → ℕ → ℕ → ℕ → Type 0
IsTold intf sta trec =
    IsReport (is_up intf int_rxif) (is_up intf int_rxovif)
      (is_up intf int_txif && is_up sta txqsta_txqeif) (is_up intf int_cerrif)
      (is_up intf int_ivmif) (is_up trec trec_txbo)

word-IsReport :
    (rx overflow tx error invalid off : Bool)
    → IsReport rx overflow tx error invalid off (
        let ev2 = with_event overflow event_rx_overflow (with_event rx event_rx_available 0) in
        let ev4 = with_event error event_bus_error (with_event tx event_tx_complete ev2) in
        with_event off event_bus_off (with_event invalid event_invalid_msg ev4))
word-IsReport rx overflow tx error invalid off = ground arith

pub events_of-IsTold :
    (intf sta trec : ℕ) {intf' sta' trec' : ℕ}
    → intf ≡ intf'
    → sta ≡ sta'
    → trec ≡ trec'
    → IsTold intf' sta' trec' (events_of intf sta trec)
events_of-IsTold intf sta trec e f g = rw (e, f, g) (word-IsReport _ _ _ _ _ _)
