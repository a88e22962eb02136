-- ===== src/Canfd/Device/Gate.antt =====
-- What `nora_canfd_module_enable` does, on each instance of each part.
use dspic33ak_can_cmsis_driv.Prelude.{
  ℕ, zero, suc, inl, inr, ◌≡◌, ◌≢◌, ◌⊎◌, refl, arith, sym, subst, Bool-cases, Bool, true, false,
  not, none, some,
}
use dspic33ak_can_cmsis_driv.Prelude.{if◌then◌else◌}
use dspic33ak_can_cmsis_driv.Canfd.{Instance, Status}
use dspic33ak_can_cmsis_driv.Canfd.Node.{set_at}
use dspic33ak_can_cmsis_driv.Canfd.Device.{
  Part, nora_canfd_inst_is_valid, instance_of, g_canfd_devices,
}
use dspic33ak_can_cmsis_driv.Canfd.Device.{nora_canfd_get_device, nora_canfd_module_enable}

instance-cases : (n : ℕ) → (instance_of n ≡ none) ⊎ ((i : Instance) × (instance_of n ≡ some i))
instance-cases zero = inr (Instance.inst_1, refl)
instance-cases (suc zero) = inr (Instance.inst_2, refl)
instance-cases (suc (suc n)) = inl refl

instance_valid : (n : ℕ) (i : Instance) → instance_of n ≡ some i → nora_canfd_inst_is_valid n ≡ true
instance_valid zero i e = refl
instance_valid (suc zero) i e = refl
instance_valid (suc (suc n)) i e = cc

none_invalid : (n : ℕ) → instance_of n ≡ none → nora_canfd_inst_is_valid n ≡ false
none_invalid zero e = cc
none_invalid (suc zero) e = cc
none_invalid (suc (suc n)) e = ground arith

set_at_same : (a : Instance → Bool) (i : Instance) (v : Bool) → set_at a i v i ≡ v
set_at_same a i v = ground arith

set_at_other :
    (a : Instance → Bool) (i : Instance) (v : Bool) (j : Instance) → i ≢ j → set_at a i v j ≡ a j
set_at_other a i v j h = ground (arith, h)

module _ (part : Part) where
  open part use {defines_con, defines_md}

  -- On an instance: an error, and no bit is written; or OK, and the bit of the instance alone is.
  abbrev pub IsGatedInstance :
      Instance → Bool → (Instance → Bool) → Status × (Instance → Bool) → Type 0
  IsGatedInstance i enable md (st, md') =
      (defines_con i ≡ false) × (st ≡ Status.err_not_present) × (md' ≡ md)
      ⊎ (defines_con i ≡ true) × (defines_md i ≡ false) × (st ≡ Status.err_unsupported) × (md' ≡ md)
      ⊎ (defines_con i ≡ true)
        × (defines_md i ≡ true)
        × (st ≡ Status.ok)
        × (md' i ≡ not enable)
        × ((j : Instance) → i ≢ j → md' j ≡ md j)

  abbrev pub IsGated : ℕ → Bool → (Instance → Bool) → Status × (Instance → Bool) → Type 0
  IsGated n enable md (st, md') =
      (instance_of n ≡ none) × (st ≡ Status.err_invalid_arg) × (md' ≡ md)
      ⊎ (i : Instance) × (instance_of n ≡ some i) × IsGatedInstance i enable md (st, md')

  -- The tests that an instance passes.
  on_instance :
      (n : ℕ) (i : Instance) (enable : Bool) (md : Instance → Bool)
      → instance_of n ≡ some i
      → nora_canfd_module_enable part n enable md ≡ (
          if not (defines_con i)
          then (Status.err_not_present, md)
          else if defines_md i
          then (Status.ok, set_at md i (not enable))
          else (Status.err_unsupported, md))
  unfolding nora_canfd_module_enable nora_canfd_get_device g_canfd_devices
  on_instance n i enable md e = ground (arith, instance_valid n i e)

  chosen :
      (i : Instance) (enable : Bool) (md : Instance → Bool)
      → IsGatedInstance i enable md (
          if not (defines_con i)
          then (Status.err_not_present, md)
          else if defines_md i
          then (Status.ok, set_at md i (not enable))
          else (Status.err_unsupported, md))
  chosen i enable md = elim (Bool-cases (defines_con i)) [
    | inr absent ↦ rw absent (inl (refl, refl, refl))
    | inl there ↦ elim (Bool-cases (defines_md i)) [
      | inr fixed ↦ rw (there, fixed) (inr (inl (refl, refl, refl, refl)))
      | inl gated ↦
          rw (there, gated)
            (inr (inr (refl, refl, refl, set_at_same md i _, set_at_other md i (not enable))))
    ]
  ]

  on_none :
      (n : ℕ) (enable : Bool) (md : Instance → Bool)
      → instance_of n ≡ none
      → nora_canfd_module_enable part n enable md ≡ (Status.err_invalid_arg, md)
  unfolding nora_canfd_module_enable
  on_none n enable md e = ground (arith, none_invalid n e)

  -- `nora_canfd_module_enable` of a number that is no instance returns ERR_INVALID_ARG, of an
  -- instance whose registers the part does not define ERR_NOT_PRESENT, of one without a disable bit
  -- ERR_UNSUPPORTED, and changes nothing; otherwise it returns OK, clears or sets the disable bit of
  -- the instance, and leaves that of the other.
  pub module_enable-IsGated :
      (n : ℕ) (enable : Bool) (md : Instance → Bool)
      → IsGated n enable md (nora_canfd_module_enable part n enable md)
  module_enable-IsGated n enable md = elim (instance-cases n) [
    | inl e ↦ subst (IsGated n enable md) (sym (on_none n enable md e)) (inl (e, refl, refl))
    | inr (i, e) ↦
        subst (IsGated n enable md) (sym (on_instance n i enable md e))
          (inr (i, e, chosen i enable md))
  ]
