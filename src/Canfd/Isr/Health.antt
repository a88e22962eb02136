-- ===== src/Canfd/Isr/Health.antt =====
-- What `nora_canfd_get_status` decodes of CxTREC and CxFIFOSTA1.
use native.Mathlib.Nat.{one-le-pow}
use dspic33ak_can_cmsis_driv.Prelude.{
  ℕ, ◌*◌, ◌/◌, ◌%◌, ◌^◌, ◌≡◌, refl, ap, ◌∙◌, arith, Bool, true, ◌⊎◌, inl, inr, ◌||◌, some, ◌==◌,
  bit_and,
}
use dspic33ak_can_cmsis_driv.Prelude.Bits.{bit_and-mask, bit_and-bit, bit_and-shl, u8, shr}
use dspic33ak_can_cmsis_driv.Canfd.{Instance, Status, BusStatus}
use dspic33ak_can_cmsis_driv.Canfd.Chip.{Chip, Reg}
use dspic33ak_can_cmsis_driv.Canfd.Isr.{Line, System}
use dspic33ak_can_cmsis_driv.Canfd.Isr.Handler.{is_up, fetch_reg, nora_canfd_get_status}
use dspic33ak_can_cmsis_driv.Canfd.Registers.{
  trec_rerrcnt_pos, trec_rerrcnt_mask, trec_terrcnt_pos, trec_terrcnt_mask,
}

-- Bit `k` of a word.
abbrev pub bit : ℕ → ℕ → Bool
bit k word = word / 2 ^ k % 2 == 1

-- "Decoded bus error state plus RX-FIFO overflow"
pub record IsDecoded (trec sta : ℕ) (b : BusStatus) : Type 0 where
  pub rx_counter : b.rx_err_count ≡ trec % 2 ^ 8
  pub tx_counter : b.tx_err_count ≡ trec / 2 ^ 8 % 2 ^ 8
  pub warning : b.error_warning ≡ bit 16 trec
  pub passive : b.error_passive ≡ (bit 19 trec || bit 20 trec)
  pub off : b.bus_off ≡ bit 21 trec
  pub overflow : b.rx_overflow ≡ bit 3 sta

zero_or_one : (n : ℕ) → (n % 2 ≡ 0) ⊎ (n % 2 ≡ 1)
zero_or_one n = omega arith

is_up-bit : (k word : ℕ) → is_up word (2 ^ k) ≡ bit k word
is_up-bit k word = elim (zero_or_one (word / 2 ^ k)) [
  | inl e ↦
      let none_left : bit_and word (2 ^ k) ≡ 0 * 2 ^ k =
        bit_and-bit k word ∙ ap (λ (t : ℕ). t * 2 ^ k) e in
      ground (arith, e, none_left)
  | inr e ↦
      let one_left : bit_and word (2 ^ k) ≡ 1 * 2 ^ k =
        bit_and-bit k word ∙ ap (λ (t : ℕ). t * 2 ^ k) e in
      ground (arith, e, one_left, one-le-pow k 2)
]

is_up-two : (word : ℕ) → is_up word (3 * 2 ^ 19) ≡ (bit 19 word || bit 20 word)
is_up-two word = ground (arith, bit_and-shl 19 word 3, bit_and-mask 2 (word / 2 ^ 19))

tx_field : (t : ℕ) → u8 (shr (bit_and t trec_terrcnt_mask) trec_terrcnt_pos) ≡ t / 2 ^ 8 % 2 ^ 8
tx_field t = omega (arith, bit_and-shl 8 t 255, bit_and-mask 8 (t / 2 ^ 8))

rx_field : (t : ℕ) → u8 (shr (bit_and t trec_rerrcnt_mask) trec_rerrcnt_pos) ≡ t % 2 ^ 8
rx_field t = omega (arith, bit_and-mask 8 t)

module _ (has_line : Instance → Line → Bool) (chip : Chip) where
  open chip use {State, present}

  -- On an instance that is present `nora_canfd_get_status` reads CxTREC and CxFIFOSTA1, writes
  -- nothing, and returns OK with the two error counters, the low bytes of CxTREC, and with the flags
  -- at their bits: warning bit 16, passive bit 19 or bit 20, bus-off bit 21, overflow bit 3 of
  -- CxFIFOSTA1.
  pub get_status_decodes :
      (i : Instance) (s : System State)
      → present i ≡ true
      → let (trec, s1) = fetch_reg chip i Reg.trec s in
        let (sta, s2) = fetch_reg chip i Reg.fifosta1 s1 in
        (b : BusStatus) × IsDecoded trec sta b
        × (nora_canfd_get_status has_line chip i s ≡ (Status.ok, some b, s2))
  unfolding nora_canfd_get_status
  get_status_decodes i s there =
      let (t, s1) = fetch_reg chip i Reg.trec s in
      let (sta, s2) = fetch_reg chip i Reg.fifosta1 s1 in
      (
        _,
        record {
          rx_counter = rx_field t;
          tx_counter = tx_field t;
          warning = is_up-bit 16 t;
          passive = is_up-two t;
          off = is_up-bit 21 t;
          overflow = is_up-bit 3 sta;
        },
        rw there refl,
      )
