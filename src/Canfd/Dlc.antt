-- ===== src/Canfd/Dlc.antt =====
-- The CAN FD length code: `nora_canfd_dlc_to_len` and `nora_canfd_len_to_dlc` of
-- src/hal_can/nora_canfd_dspic33ak_reg.h.
pub mod Codes
use dspic33ak_can_cmsis_driv.Prelude.{ℕ, List, [], ◌∷◌, leb, get_or}
use dspic33ak_can_cmsis_driv.Prelude.{if◌then◌else◌, bit_and}

-- The table `k`.
abbrev lengths : List ℕ
lengths = 0 ∷ 1 ∷ 2 ∷ 3 ∷ 4 ∷ 5 ∷ 6 ∷ 7 ∷ 8 ∷ 12 ∷ 16 ∷ 20 ∷ 24 ∷ 32 ∷ 48 ∷ 64 ∷ []

unfoldable pub dlc_to_len : ℕ → ℕ
dlc_to_len dlc = get_or lengths (bit_and dlc 0x0f) 0

unfoldable pub len_to_dlc : ℕ → ℕ
len_to_dlc len =
    if leb len 8
    then len
    else if leb len 12
    then 9
    else if leb len 16
    then 10
    else if leb len 20
    then 11
    else if leb len 24
    then 12
    else if leb len 32
    then 13
    else if leb len 48
    then 14
    else 15
