-- ===== src/Canfd/Dlc/Codes.antt =====
-- The length code holds a length in the smallest code, and a code is recovered from its length.
use dspic33ak_can_cmsis_driv.Prelude.{
  ℕ, ◌≤◌, ◌<◌, ◌≡◌, refl, arith, Bool, true, leb, ltb, ◌==◌, not, ◌||◌, ◌&&◌,
}
use dspic33ak_can_cmsis_driv.Prelude.{all_below, all_below-at}
use dspic33ak_can_cmsis_driv.Canfd.Dlc.{dlc_to_len, len_to_dlc}

-- The test of a length and a code, given the code of the length, its length, the length of the
-- code, and the code of that.
abbrev test : ℕ → ℕ → ℕ → ℕ → ℕ → ℕ → Bool
test len dlc code enough other back =
    ltb code 16
    && leb len enough
    && (not (leb len other) || leb code dlc)
    && leb enough 64
    && back == dlc

test_lem :
    (len dlc code enough other back : ℕ)
    → test len dlc code enough other back ≡ true
    → (code < 16) × (len ≤ enough) × (enough ≤ 64) × (len ≤ other → code ≤ dlc) × (back ≡ dlc)
test_lem len dlc code enough other back e = ground arith

abbrev holds : ℕ → ℕ → Bool
holds len dlc =
    test len dlc (len_to_dlc len) (dlc_to_len (len_to_dlc len)) (dlc_to_len dlc)
      (len_to_dlc (dlc_to_len dlc))

holds_all : all_below 65 (λ len. all_below 16 (holds len)) ≡ true
unfolding dlc_to_len len_to_dlc
holds_all = refl

facts :
    (len dlc : ℕ)
    → len ≤ 64
    → dlc < 16
    → (len_to_dlc len < 16)
      × (len ≤ dlc_to_len (len_to_dlc len))
      × (dlc_to_len (len_to_dlc len) ≤ 64)
      × (len ≤ dlc_to_len dlc → len_to_dlc len ≤ dlc)
      × (len_to_dlc (dlc_to_len dlc) ≡ dlc)
facts len dlc hl hd =
    let row = all_below-at 65 (λ len. all_below 16 (holds len)) holds_all len (omega arith) in
    test_lem _ _ _ _ _ _ (all_below-at 16 (holds len) row dlc hd)

-- For a length of at most 64, `len_to_dlc` gives a code below 16, whose length is enough and at
-- most 64; and every other code whose length is enough is larger.
pub len_to_dlc_smallest :
    (len : ℕ)
    → len ≤ 64
    → (len_to_dlc len < 16)
      × (len ≤ dlc_to_len (len_to_dlc len))
      × (dlc_to_len (len_to_dlc len) ≤ 64)
      × ((dlc : ℕ) → dlc < 16 → len ≤ dlc_to_len dlc → len_to_dlc len ≤ dlc)
len_to_dlc_smallest len h =
    let (code, enough, most, _, _) = facts len 0 h (omega arith) in
    (code, enough, most, λ dlc small more. (facts len dlc h small).3 more)

-- The length of a code below 16 is coded as that code.
pub len_to_dlc-dlc_to_len : (dlc : ℕ) → dlc < 16 → len_to_dlc (dlc_to_len dlc) ≡ dlc
len_to_dlc-dlc_to_len dlc h = (facts 0 dlc (omega arith) h).4

lengths_all : all_below 16 (λ dlc. leb (dlc_to_len dlc) 64) ≡ true
unfolding dlc_to_len
lengths_all = refl

-- A code below 16 stands for at most 64 bytes.
pub dlc_to_len-at_most : (dlc : ℕ) → dlc < 16 → dlc_to_len dlc ≤ 64
dlc_to_len-at_most dlc h =
    let short = all_below-at 16 (λ c. leb (dlc_to_len c) 64) lengths_all dlc h in ground arith
