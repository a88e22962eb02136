-- ===== src/Canfd/Timing/Word.antt =====
-- The words that `nora_canfd_calc_bit_timing` writes, read back by their fields.
use dspic33ak_can_cmsis_driv.Prelude.{
  ℕ, ◌+◌, ◌*◌, ◌^◌, ◌-◌, ◌/◌, ◌%◌, ◌≤◌, ◌<◌, ◌≡◌, min, arith, bit_or, ap, ap₂, ◌∙◌,
}
use dspic33ak_can_cmsis_driv.Prelude.Bits.{bit_or-shl, shl, u32}
use native.Mathlib.Nat.{mul-le-mul}
use dspic33ak_can_cmsis_driv.Prelude.{ltb, if◌then◌else◌}
use dspic33ak_can_cmsis_driv.Canfd.Timing.{Limits, Phase, btcfg_word, tdc_word}
use dspic33ak_can_cmsis_driv.Canfd.Timing.Legal.{IsTiming}

-- A CxNBTCFG or CxDBTCFG word has the counts of a phase, less one, in its fields.
pub record IsBtcfg (w : ℕ) (p : Phase) : Type 0 where
  pub brp : w / 2 ^ 24 + 1 ≡ p.brp
  pub tseg1 : w / 2 ^ 16 % 2 ^ 8 + 1 ≡ p.tseg1
  pub tseg2 : w / 2 ^ 8 % 2 ^ 8 + 1 ≡ p.tseg2
  pub sjw : w % 2 ^ 8 + 1 ≡ p.sjw

-- Four bytes are joined without a carry.
bytes_joined :
    (a b c d : ℕ)
    → a < 2 ^ 8
    → b < 2 ^ 8
    → c < 2 ^ 8
    → d < 2 ^ 8
    → bit_or (bit_or (bit_or (u32 (shl a 24)) (u32 (shl b 16))) (u32 (shl c 8))) (u32 (shl d 0))
      ≡ a * 2 ^ 24 + b * 2 ^ 16 + c * 2 ^ 8 + d
bytes_joined a b c d ha hb hc hd =
    let first : bit_or (u32 (shl a 24)) (u32 (shl b 16)) ≡ shl (a * 2 ^ 8 + b) 16 =
      ap₂ bit_or {y = shl a 24} {v = shl b 16} (omega arith) (omega arith)
      ∙ bit_or-shl 24 a (shl b 16) (omega arith)
      ∙ omega arith in
    let second : bit_or (shl (a * 2 ^ 8 + b) 16) (u32 (shl c 8))
        ≡ shl (a * 2 ^ 16 + b * 2 ^ 8 + c) 8 =
      ap (bit_or (shl (a * 2 ^ 8 + b) 16)) {y = shl c 8} (omega arith)
      ∙ bit_or-shl 16 (a * 2 ^ 8 + b) (shl c 8) (omega arith)
      ∙ omega arith in
    let third : bit_or (shl (a * 2 ^ 16 + b * 2 ^ 8 + c) 8) (u32 (shl d 0))
        ≡ a * 2 ^ 24 + b * 2 ^ 16 + c * 2 ^ 8 + d =
      ap (bit_or (shl (a * 2 ^ 16 + b * 2 ^ 8 + c) 8)) {y = d} (omega arith)
      ∙ bit_or-shl 8 (a * 2 ^ 16 + b * 2 ^ 8 + c) d (omega arith)
      ∙ omega arith in
    ap (λ t. bit_or (bit_or t (u32 (shl c 8))) (u32 (shl d 0))) first
    ∙ ap (λ t. bit_or t (u32 (shl d 0))) second
    ∙ third

-- Limits of a register with byte fields.
pub record IsByteLimits (lim : Limits) : Type 0 where
  pub tseg1 : (0 < lim.tseg1_min) × (lim.tseg1_max ≤ 256)
  pub tseg2 : (0 < lim.tseg2_min) × (lim.tseg2_max ≤ 256)
  pub sjw : 0 < lim.sjw_max

pub btcfg_word-IsBtcfg :
    (fcan_hz bps sample_pct : ℕ) (lim : Limits) (p : Phase)
    → IsByteLimits lim
    → IsTiming fcan_hz bps sample_pct lim p
    → IsBtcfg (btcfg_word p) p
unfolding btcfg_word
btcfg_word-IsBtcfg fcan_hz bps sample_pct lim p wide legal =
    let joined =
      bytes_joined (p.brp - 1) (p.tseg1 - 1) (p.tseg2 - 1) (p.sjw - 1) (omega (arith, legal))
        (omega (arith, legal, wide)) (omega (arith, legal, wide)) (omega (arith, legal, wide)) in
    ground (arith, joined, legal, wide)

-- The offset of the secondary sample point, at most 127, is the data prescaler times the first data
-- segment.
pub tdc_word_lem :
    (p : Phase)
    → p.brp ≤ 256
    → p.tseg1 ≤ 32
    → tdc_word p ≡ 2 ^ 17 + min 127 (p.brp * p.tseg1) * 2 ^ 8
unfolding tdc_word
tdc_word_lem p hb ht =
    let most : p.brp * p.tseg1 ≤ 256 * 32 = mul-le-mul hb ht in
    let tdco = if ltb 0x7f (u32 (p.brp * p.tseg1)) then 0x7f else u32 (p.brp * p.tseg1) in
    let capped : tdco ≡ min 127 (p.brp * p.tseg1) = ground arith in
    bit_or-shl 16 2 (shl tdco 8) (omega arith) ∙ omega (arith, capped)
