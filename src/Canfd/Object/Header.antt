-- ===== src/Canfd/Object/Header.antt =====
-- The two header words of a message object are read back as they are written.
use dspic33ak_can_cmsis_driv.Prelude.{
  ℕ, ◌+◌, ◌*◌, ◌/◌, ◌%◌, ◌^◌, ◌<◌, ◌≡◌, ap₂, ◌∙◌, arith, refl, Bool, true, false, not, ◌==◌, ◌&&◌,
  if◌then◌else◌,
}
use dspic33ak_can_cmsis_driv.Prelude.{bit_and, bit_or, all_below, all_below-at}
use dspic33ak_can_cmsis_driv.Prelude.Bits.{shl, shr, u32, bit_or-shl, bit_or_comm, bit_and-mask}
use dspic33ak_can_cmsis_driv.Canfd.{Frame}
use dspic33ak_can_cmsis_driv.Canfd.Object.{build_id_word, parse_id_word, ctrl_word}
use dspic33ak_can_cmsis_driv.Canfd.Object.{objctrl_ide, objctrl_fdf, objctrl_brs, objctrl_dlc_mask}

-- An identifier of the length of its kind.
abbrev pub IsId : Bool → ℕ → Type 0
IsId true id = id < 2 ^ 29
IsId false id = id < 2 ^ 11

-- An identifier of 11 or 29 bits is read back from its word.
pub parse_id_word-build_id_word :
    (f : Frame) → IsId f.extended f.id → parse_id_word (build_id_word f) f.extended ≡ f.id
unfolding parse_id_word build_id_word
parse_id_word-build_id_word f h = go f.extended h
  where
    masks : (a : ℕ) → (bit_and a 0x7ff ≡ a % 2 ^ 11) × (bit_and a 0x3ffff ≡ a % 2 ^ 18)
    masks a = (bit_and-mask 11 a, bit_and-mask 18 a)

    go :
        (b : Bool)
        → IsId b f.id
        → parse_id_word (build_id_word (record f { extended = b })) b ≡ f.id
    go true small =
        let sid = f.id / 2 ^ 18 in
        let eid = f.id % 2 ^ 18 in
        let written : build_id_word (record f { extended = true }) ≡ eid * 2 ^ 11 + sid =
          ap₂ bit_or {y = sid} {v = shl eid 11} (omega (arith, masks (f.id / 2 ^ 18)))
            (omega (arith, masks f.id))
          ∙ bit_or_comm sid (shl eid 11)
          ∙ bit_or-shl 11 eid sid (omega arith) in
        let w = build_id_word (record f { extended = true }) in
        ap₂ bit_or {y = shl sid 18} {v = eid} (omega (arith, written, masks (w / 2 ^ 0)))
          (omega (arith, written, masks (w / 2 ^ 11)))
        ∙ bit_or-shl 18 sid eid (omega arith)
        ∙ omega arith
    go false small =
        let w = u32 (shl (bit_and f.id 0x7ff) 0) in
        let read : bit_and (shr w 0) 0x7ff ≡ f.id = omega (arith, masks f.id, masks (w / 2 ^ 0)) in
        read

abbrev same : Bool → Bool → Bool
same a b = if a then b else not b

-- The test of a control word.
abbrev test : ℕ → Bool → Bool → Bool → ℕ → Bool
test dlc extended fd brs ctrl =
    bit_and ctrl objctrl_dlc_mask == dlc
    && same (not (bit_and ctrl objctrl_ide == 0)) extended
    && same (not (bit_and ctrl objctrl_fdf == 0)) fd
    && same (not (bit_and ctrl objctrl_brs == 0)) (fd && brs)

test_all : (e f b : Bool) → all_below 16 (λ dlc. test dlc e f b (ctrl_word dlc e f b)) ≡ true
unfolding ctrl_word
test_all true true true = refl
test_all true true false = refl
test_all true false true = refl
test_all true false false = refl
test_all false true true = refl
test_all false true false = refl
test_all false false true = refl
test_all false false false = refl

-- What is read back from a control word.
pub record IsCtrl (dlc : ℕ) (extended fd brs : Bool) (ctrl : ℕ) : Type 0 where
  pub dlc_read : bit_and ctrl objctrl_dlc_mask ≡ dlc
  pub ide_read : not (bit_and ctrl objctrl_ide == 0) ≡ extended
  pub fdf_read : not (bit_and ctrl objctrl_fdf == 0) ≡ fd
  pub brs_read : not (bit_and ctrl objctrl_brs == 0) ≡ (fd && brs)

test_lem :
    (dlc d : ℕ) (e f b e' f' b' : Bool)
    → (d == dlc && same e' e && same f' f && same b' (f && b)) ≡ true
    → (d ≡ dlc) × (e' ≡ e) × (f' ≡ f) × (b' ≡ (f && b))
test_lem dlc d e f b e' f' b' h = ground arith

pub ctrl_word-IsCtrl : (dlc : ℕ) (e f b : Bool) → dlc < 16 → IsCtrl dlc e f b (ctrl_word dlc e f b)
ctrl_word-IsCtrl dlc e f b h =
    let ok = all_below-at 16 (λ d. test d e f b (ctrl_word d e f b)) (test_all e f b) dlc h in
    let (d, ide, fdf, brs) = test_lem dlc _ e f b _ _ _ ok in
    record { dlc_read = d; ide_read = ide; fdf_read = fdf; brs_read = brs }
