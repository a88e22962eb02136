-- ===== src/Canfd/Registers.antt =====
-- The bits and fields of the controller's registers in src/hal_can/nora_canfd_dspic33ak_reg.h.
use dspic33ak_can_cmsis_driv.Prelude.{ℕ, ◌*◌, ◌-◌, ◌^◌, bit_or}

-- CxCON
abbrev pub con_isocrcen : ℕ
con_isocrcen = 2 ^ 5

abbrev pub con_clksel : ℕ
con_clksel = 2 ^ 7

abbrev pub con_brsdis : ℕ
con_brsdis = 2 ^ 12

abbrev pub con_on : ℕ
con_on = 2 ^ 15

abbrev pub con_stef : ℕ
con_stef = 2 ^ 19

abbrev pub con_txqen : ℕ
con_txqen = 2 ^ 20

abbrev pub con_opmod_pos : ℕ
con_opmod_pos = 21

abbrev pub con_opmod_mask : ℕ
con_opmod_mask = 7 * 2 ^ 21

abbrev pub con_reqop_pos : ℕ
con_reqop_pos = 24

abbrev pub con_reqop_mask : ℕ
con_reqop_mask = 7 * 2 ^ 24

-- The codes of OPMOD and REQOP
abbrev pub opmode_normal_fd : ℕ
opmode_normal_fd = 0

abbrev pub opmode_internal_loop : ℕ
opmode_internal_loop = 2

abbrev pub opmode_listen_only : ℕ
opmode_listen_only = 3

abbrev pub opmode_config : ℕ
opmode_config = 4

abbrev pub opmode_external_loop : ℕ
opmode_external_loop = 5

abbrev pub opmode_normal_classic : ℕ
opmode_normal_classic = 6

-- CxTXQCON and CxFIFOCON1
abbrev pub fifocon_uinc : ℕ
fifocon_uinc = 2 ^ 8

abbrev pub fifocon_txreq : ℕ
fifocon_txreq = 2 ^ 9

abbrev pub fifocon_tfnrfnie : ℕ
fifocon_tfnrfnie = 2 ^ 0

abbrev pub fifocon_rxovie : ℕ
fifocon_rxovie = 2 ^ 3

abbrev pub txqcon_txqeie : ℕ
txqcon_txqeie = 2 ^ 2

abbrev pub fifocon_fsize_pos : ℕ
fifocon_fsize_pos = 24

abbrev pub fifocon_plsize_pos : ℕ
fifocon_plsize_pos = 29

abbrev pub plsize_64 : ℕ
plsize_64 = 7

-- CxTXQSTA and CxFIFOSTA1
abbrev pub fifosta_rxovif : ℕ
fifosta_rxovif = 2 ^ 3

abbrev pub txqsta_txqeif : ℕ
txqsta_txqeif = 2 ^ 2

-- CxFLTCON0
abbrev pub fltcon0_f0bp_pos : ℕ
fltcon0_f0bp_pos = 0

abbrev pub fltcon0_flten0 : ℕ
fltcon0_flten0 = 2 ^ 7

-- CxINT
abbrev pub int_txif : ℕ
int_txif = 2 ^ 0

abbrev pub int_rxif : ℕ
int_rxif = 2 ^ 1

abbrev pub int_rxovif : ℕ
int_rxovif = 2 ^ 11

abbrev pub int_cerrif : ℕ
int_cerrif = 2 ^ 13

abbrev pub int_ivmif : ℕ
int_ivmif = 2 ^ 15

abbrev pub int_txie : ℕ
int_txie = 2 ^ 16

abbrev pub int_rxie : ℕ
int_rxie = 2 ^ 17

abbrev pub int_rxovie : ℕ
int_rxovie = 2 ^ 27

abbrev pub int_cerrie : ℕ
int_cerrie = 2 ^ 29

abbrev pub int_ivmie : ℕ
int_ivmie = 2 ^ 31

abbrev pub int_clr_mask : ℕ
int_clr_mask = bit_or int_cerrif int_ivmif

-- CxTREC
abbrev pub trec_rerrcnt_pos : ℕ
trec_rerrcnt_pos = 0

abbrev pub trec_rerrcnt_mask : ℕ
trec_rerrcnt_mask = 2 ^ 8 - 1

abbrev pub trec_terrcnt_pos : ℕ
trec_terrcnt_pos = 8

abbrev pub trec_terrcnt_mask : ℕ
trec_terrcnt_mask = 255 * 2 ^ 8

abbrev pub trec_ewarn : ℕ
trec_ewarn = 2 ^ 16

abbrev pub trec_rxbp : ℕ
trec_rxbp = 2 ^ 19

abbrev pub trec_txbp : ℕ
trec_txbp = 2 ^ 20

abbrev pub trec_txbo : ℕ
trec_txbo = 2 ^ 21
