-- ===== src/Lib.antt =====
-- A verification library of the CAN driver for the dsPIC33AK: the CMSIS driver of cmsis_driver/ and
-- its HAL, src/hal_can/.
--
-- The program. cmsis_driver/Driver_CAN_dsPIC33AK.c implements the ARM CMSIS-Driver interface for two
-- instances. An instance has a context (`g_can_ctx`), with flags, bit rates, two callbacks and a
-- ring of received frames. The application calls the driver, the driver calls the HAL, and the HAL
-- calls `can_hal_event` back from the CAN interrupt, which drains the receive FIFO into the ring and
-- signals the application.
--
-- The files.
--   Prelude: shared names, Boolean tests, C arrays as lists, bits of machine words.
--   Arm: the codes and types of third_party/arm_cmsis_driver/Include that the driver uses.
--   Canfd: the types of the HAL's headers; Canfd.Dlc its length code, Canfd.Timing `solve_phase`
--     and `nora_canfd_calc_bit_timing`, Canfd.Object the message objects of
--     `nora_canfd_transmit` and `nora_canfd_receive`. Canfd.Registers: the bits and fields of
--     the registers. Canfd.Chip: the registers, the message RAM and the tick function as an
--     interface, in which the hardware may move at every access. Canfd.Node: the node's state
--     and waiting loops; Bringup `nora_canfd_init`, `nora_canfd_set_bitrate` and
--     `nora_canfd_deinit`, Transfer `nora_canfd_transmit`, `nora_canfd_rx_available` and
--     `nora_canfd_receive`. Waiting, Ending, Calls, Consistent, Modes, Outcome and Delivery are
--     about them; Module (with Request, Writes, Switches, Returns, Program and Retime) about what they
--     leave in the registers, Queue and Handover about the transmit queue.
--   Canfd.Isr: the event layer of nora_canfd_isr_dspic33ak.c, its state, the CPU interrupt lines and
--     the calls that set it up, start and abort a transmit; Handler `nora_canfd_irq_handler`,
--     `nora_canfd_get_status` and `nora_canfd_clear_rx_overflow`. Lines, Armed, Silence, Kept, Told, Report,
--     Completion, Health and Transmit are about them.
--   Canfd.Device: the register table of nora_canfd_device_dspic33ak.c and the look-up of an instance;
--     Apart and Gate are about them. The modules whose names end in Tests run the theorems.
--   Driver.Hal: the HAL calls of the driver as an interface, and its documented life cycle.
--     Driver.Hal.Real: the node and the event layer as that interface; Life, Guard, Typed, Health,
--     Fifo, Receive, Interrupt and Send are about them and the driver over them.
--   Driver.Queue: the queue that the receive ring promises.
--   Driver.Ring: the ring; Refine relates it to the queue, Interleave lets interrupts come between
--     the accesses of a reader.
--   Driver.Context: `can_cmsis_context_t`, `g_can_ctx` and the small helpers.
--   Driver.Event: `can_hal_event`. Driver.Power: `can_apply_init`, `CAN_Initialize`,
--     `CAN_Uninitialize`, `CAN_PowerControl`, `CAN_SetMode`, `CAN_Control`. Driver.Bitrate:
--     `CAN_GetClock`, `CAN_SetBitrate`. Driver.Object, Driver.Message, Driver.Status: the calls of
--     those names. Driver.Api: the calls of an instance and its interrupts as steps; Induction is the
--     principle that Interrupts and Typed apply to what the steps keep.
--   Driver.Tests: runs of the theorems over a HAL that is a list of frames and three flags.
--
-- The model. A function of the driver takes the instance, a context and the state of the HAL, and
-- returns its result and the instance after it. Numbers are natural numbers; where the C code cuts
-- to 8, 16 or 32 bits the remainder is written out. A pointer that may be NULL is an option, a
-- buffer the list of its bytes.
--
-- Fuel. The drain loop of `can_hal_event` runs on fuel, and one round more than frames wait is
-- enough. The loop of `solve_phase` runs over its 256 prescalers. The waiting loops of the node run
-- on fuel too, and as many rounds as cycles pass in the timeout, and one more, are enough.
--
-- The HAL under the driver. The driver's theorems take the HAL as a parameter, with what its headers
-- document as hypotheses (`IsLifecycle`, `IsFifo`). Driver.Hal.Real fills the interface with the
-- functions of the node and of the event layer. The interface takes every call to return; a call that
-- waits for ever or traps leaves a state `stopped`, in which nothing but the three flags of
-- `IsLifecycle` is kept, since the program goes no further. `IsFifo` rests on a law of the hardware's
-- receive FIFO (`IsRxFifo`): what its status, its user address and its memory show of the oldest
-- object, and that UINC releases it.
--
-- The registers. What is shown of them rests on laws of the hardware that are parameters: settings that
-- only software changes, by writes in the configuration mode, in which the module is when OPMOD reads
-- so (`IsModule`); a transmit queue that takes the object at the user address at UINC if it has room,
-- which its flag "not full" tells, and hands over at TXREQ (`IsQueue`); and, while an interrupt is
-- handled, CxTREC and, until CxTXQCON is written, CxTXQSTA, which the handler does not change, while
-- CxINT, whose roll-ups follow the flags and enables that it writes, may change (`IsStill`).
--
-- Interrupts. The event layer has a step relation of its own: calls, changes of the hardware, flags
-- that the hardware raises, and the handler on any line that is flagged and enabled. What a callback
-- does is a parameter, and may be any sequence of calls. Which CPU lines and disable bits a part has,
-- and where its registers are, is a parameter too.
--
-- Not modelled. The handler runs between calls, not in the middle of one; an interrupt in the middle
-- of a call is modelled for the ring alone. In `Driver.Api` the interrupt is a step with any events; in
-- Driver.Hal.Real.Interrupt `can_hal_event` is the callback that `nora_canfd_irq_handler` calls. The
-- synchronisation script in tools/ and the headers of third_party/, but for the names that the driver
-- uses, are left out.
pub mod Prelude
pub mod Canfd
pub mod Arm
pub mod Driver
