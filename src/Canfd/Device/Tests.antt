-- ===== src/Canfd/Device/Tests.antt =====
-- The device map of a part whose registers stand one after the other.
use dspic33ak_can_cmsis_driv.Prelude.{
  ℕ, ◌≡◌, refl, sym, ap, ◌∙◌, arith, true, List, [], ◌∷◌, get_or,
}
use dspic33ak_can_cmsis_driv.Canfd.Chip.{Reg}
use dspic33ak_can_cmsis_driv.Canfd.Device.{Sfr, Part, g_canfd_devices, nora_canfd_get_regs}
use dspic33ak_can_cmsis_driv.Canfd.Device.Apart.{registers_apart}
use dspic33ak_can_cmsis_driv.Canfd.{Instance}

abbrev place : Sfr → ℕ
place Sfr.c1con = 0
place Sfr.c1nbtcfg = 1
place Sfr.c1dbtcfg = 2
place Sfr.c1tdc = 3
place Sfr.c1fifoba = 4
place Sfr.c1txqcon = 5
place Sfr.c1txqsta = 6
place Sfr.c1txqua = 7
place Sfr.c1fifocon1 = 8
place Sfr.c1fifosta1 = 9
place Sfr.c1fifoua1 = 10
place Sfr.c1fltcon0 = 11
place Sfr.c1fltobj0 = 12
place Sfr.c1mask0 = 13
place Sfr.c1int = 14
place Sfr.c1trec = 15
place Sfr.c2con = 16
place Sfr.c2nbtcfg = 17
place Sfr.c2dbtcfg = 18
place Sfr.c2tdc = 19
place Sfr.c2fifoba = 20
place Sfr.c2txqcon = 21
place Sfr.c2txqsta = 22
place Sfr.c2txqua = 23
place Sfr.c2fifocon1 = 24
place Sfr.c2fifosta1 = 25
place Sfr.c2fifoua1 = 26
place Sfr.c2fltcon0 = 27
place Sfr.c2fltobj0 = 28
place Sfr.c2mask0 = 29
place Sfr.c2int = 30
place Sfr.c2trec = 31

abbrev places : List Sfr
places =
    Sfr.c1con ∷ Sfr.c1nbtcfg ∷ Sfr.c1dbtcfg ∷ Sfr.c1tdc ∷ Sfr.c1fifoba ∷ Sfr.c1txqcon ∷ Sfr.c1txqsta
    ∷ Sfr.c1txqua ∷ Sfr.c1fifocon1 ∷ Sfr.c1fifosta1 ∷ Sfr.c1fifoua1 ∷ Sfr.c1fltcon0 ∷ Sfr.c1fltobj0
    ∷ Sfr.c1mask0 ∷ Sfr.c1int ∷ Sfr.c1trec ∷ Sfr.c2con ∷ Sfr.c2nbtcfg ∷ Sfr.c2dbtcfg ∷ Sfr.c2tdc
    ∷ Sfr.c2fifoba ∷ Sfr.c2txqcon ∷ Sfr.c2txqsta ∷ Sfr.c2txqua ∷ Sfr.c2fifocon1 ∷ Sfr.c2fifosta1
    ∷ Sfr.c2fifoua1 ∷ Sfr.c2fltcon0 ∷ Sfr.c2fltobj0 ∷ Sfr.c2mask0 ∷ Sfr.c2int ∷ Sfr.c2trec ∷ []

at_place : (x : Sfr) → get_or places (place x) Sfr.c1con ≡ x
at_place x = ground arith

place-own : (x y : Sfr) → place x ≡ place y → x ≡ y
place-own x y e = sym (at_place x) ∙ ap (λ n. get_or places n Sfr.c1con) e ∙ at_place y

abbrev part : Part
part = record { address = place; defines_con = λ i. true; defines_md = λ i. true }

registers_apart_example : let second : ℕ = 1 in (second ≡ second) × (Reg.int ≡ Reg.int)
unfolding nora_canfd_get_regs g_canfd_devices
registers_apart_example =
    registers_apart part place-own 1 1 (g_canfd_devices part Instance.inst_2).regs
      (g_canfd_devices part Instance.inst_2).regs Reg.int Reg.int refl refl refl
