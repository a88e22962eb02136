-- ===== src/Driver/Tests/Life.antt =====
-- Life cycle and reachability, at concrete instances and calls.
use dspic33ak_can_cmsis_driv.Prelude.{◌≡◌, ◌≢◌, ◌⊎◌, refl, arith, some, ap, none, [], true, false}
use dspic33ak_can_cmsis_driv.Canfd.{Instance, Mode}
use dspic33ak_can_cmsis_driv.Arm
use dspic33ak_can_cmsis_driv.Arm.{PowerState, ArmMode}
use dspic33ak_can_cmsis_driv.Driver.Hal.Lifecycle.{View}
use dspic33ak_can_cmsis_driv.Driver.Ring.Refine.{contents}
use dspic33ak_can_cmsis_driv.Driver.Context.{
  Context, Device, initial_context, example_rte, can_normal_mode_for_ctx, can_map_mode,
  can_hal_to_arm,
}
use dspic33ak_can_cmsis_driv.Driver.Power.{
  can_apply_init, can_initialize, can_power_control, can_set_mode, change_mode, config_of,
}
use dspic33ak_can_cmsis_driv.Driver.Power.Apply.{view_of, IsUp, IsSilent, can_apply_init_outcome}
use dspic33ak_can_cmsis_driv.Driver.Power.Outcomes.{IsBroughtUp, power_full_outcome, power_off-down}
use dspic33ak_can_cmsis_driv.Driver.Power.Outcomes.{
  initialize_powered_leaks, failed_set_mode_sticks,
}
use dspic33ak_can_cmsis_driv.Driver.Api.{Call, call, calls, here, next}
use dspic33ak_can_cmsis_driv.Driver.Api.Invariant.{IsSound, initial-IsSound}
use dspic33ak_can_cmsis_driv.Driver.Api.Interrupts.{Keeps, Reach-IsSound}
use dspic33ak_can_cmsis_driv.Driver.Tests.Toy.{
  Toy, toy, toy_life, toy_view, silent, fresh, running, awake, asleep,
}

abbrev initialized : Device Toy
initialized =
    let ctx : Context = fresh.ctx in record fresh { ctx = record ctx { initialized = true } }

not_powered : initialized.ctx.powered ≡ false
unfolding initial_context
not_powered = refl

enabled_running : (running []).ctx.enabled ≡ true
unfolding initial_context
enabled_running = refl

normal_running : (running []).ctx.mode ≡ can_normal_mode_for_ctx (running []).ctx
unfolding initial_context can_normal_mode_for_ctx
normal_running = refl

external_maps : can_map_mode ArmMode.loopback_external ≡ some Mode.external_loopback
unfolding can_map_mode
external_maps = refl

external_fails : (can_set_mode toy ArmMode.loopback_external (running [])).0 ≢ Arm.driver_ok
unfolding can_set_mode change_mode can_apply_init config_of can_hal_to_arm initial_context
external_fails e = ground arith

off : (toy_life.view Instance.inst_1 fresh.hal).armed ≡ false
off = ap (λ (v : View). v.armed) (toy_view Instance.inst_1 fresh.hal)

can_apply_init_outcome_example :
    let (rc, d') = can_apply_init toy Mode.normal_fd initialized in
    ((rc ≡ Arm.driver_ok) × IsUp toy toy_life Mode.normal_fd initialized d')
    ⊎ ((rc ≢ Arm.driver_ok) × IsSilent toy toy_life initialized d')
can_apply_init_outcome_example = can_apply_init_outcome toy toy_life Mode.normal_fd initialized

power_full_outcome_example :
    let (rc, d') = can_power_control toy PowerState.full initialized in
    (contents d'.ctx.rx ≡ [])
    × ((rc ≡ Arm.driver_ok)
          × (d'.ctx.powered ≡ true)
          × (d'.ctx.mode ≡ can_normal_mode_for_ctx initialized.ctx)
          × (view_of toy toy_life d' ≡ awake)
          × IsBroughtUp toy toy_life initialized d'
        ⊎ (rc ≢ Arm.driver_ok)
          × (d'.ctx.powered ≡ false)
          × ((view_of toy toy_life d').handler ≡ false)
          × ((view_of toy toy_life d').armed ≡ false))
power_full_outcome_example = power_full_outcome toy toy_life initialized refl not_powered

power_off-down_example :
    let d = running [] in
    let (rc, d') = can_power_control toy PowerState.off d in
    (rc ≡ Arm.driver_ok)
    × (d'.ctx ≡ (let ctx : Context = d.ctx in record ctx { powered = false }))
    × (view_of toy toy_life d' ≡ asleep)
power_off-down_example = power_off-down toy toy_life (running []) refl refl

initialize_powered_leaks_example :
    let d = running [] in
    let (rc, d1) = can_initialize toy none none d in
    let (rc', d2) = can_power_control toy PowerState.off d1 in
    (rc ≡ Arm.driver_ok) × (rc' ≡ Arm.driver_ok) × (d2.ctx.powered ≡ false) × (d2.hal ≡ d.hal)
initialize_powered_leaks_example =
    initialize_powered_leaks toy none none (running []) enabled_running refl

failed_set_mode_sticks_example :
    let d = running [] in
    let d' = (can_set_mode toy ArmMode.loopback_external d).1 in
    IsSilent toy toy_life d d' × (can_set_mode toy ArmMode.normal d' ≡ (Arm.driver_ok, d'))
failed_set_mode_sticks_example =
    failed_set_mode_sticks toy toy_life ArmMode.loopback_external Mode.external_loopback
      (running []) refl refl normal_running external_maps refl external_fails

-- The application initialises the driver and powers it up.
abbrev powered_up : Device Toy
powered_up =
    call toy (Call.power_control PowerState.full) (call toy (Call.initialize none none) fresh)

silent-Keeps : Keeps toy toy_life silent
silent-Keeps = record { unit_event = λ f e d s. s; object_event = λ f o e d s. s }

fresh-IsSound : IsSound toy toy_life fresh
fresh-IsSound = initial-IsSound toy toy_life Instance.inst_1 4096 (example_rte true) fresh.hal off

Reach-IsSound_example : IsSound toy toy_life powered_up
Reach-IsSound_example = Reach-IsSound toy toy_life silent silent-Keeps fresh-IsSound (
    next (next here (calls (Call.initialize none none)))
      (calls (Call.power_control PowerState.full)))
