-- ===== src/Driver/Hal/Lifecycle.antt =====
-- What nora_canfd.h, nora_canfd_node.h and nora_canfd_isr.h document of the HAL's life cycle, as an
-- abstract machine of three flags for each instance.
use dspic33ak_can_cmsis_driv.Prelude.{ℕ, ◌≡◌, ◌⊎◌, Bool, true, false, if◌then◌else◌}
use dspic33ak_can_cmsis_driv.Canfd.{Instance, Config, Frame}
use dspic33ak_can_cmsis_driv.Driver.Hal.{Hal, is_ok}

-- Whether the module is initialised, whether a callback is registered, and whether the interrupts
-- are enabled.
pub record View : Type 0 where
  pub live : Bool
  pub handler : Bool
  pub armed : Bool

pub record IsLifecycle (hal : Hal) : Type 0 where
  pub view : Instance → hal.State → View
  -- "Initialize and bring the instance up"; on an error the module may have been left or been shut
  -- down.
  pub init_ok :
      (i : Instance) (c : Config) (h : hal.State)
      → is_ok (hal.init i c h).0 ≡ true
      → view i (hal.init i c h).1 ≡ (let v : View = view i h in record v { live = true })
  pub init_error :
      (i : Instance) (c : Config) (h : hal.State)
      → is_ok (hal.init i c h).0 ≡ false
      → (view i (hal.init i c h).1 ≡ view i h)
        ⊎ (view i (hal.init i c h).1 ≡ (let v : View = view i h in record v { live = false }))
  -- "Tear down the instance and return it to NONE mode."
  pub deinit_view :
      (i : Instance) (h : hal.State)
      → view i (hal.deinit i h).1 ≡ (let v : View = view i h in record v { live = false })
  -- "Register (or clear, with NULL) the event callback for an instance."
  pub callback_view :
      (i : Instance) (b : Bool) (h : hal.State)
      → view i (hal.isr_set_callback i b h).1
        ≡ (let v : View = view i h in record v { handler = b })
  -- "Enable interrupts for an instance"
  pub enable_view :
      (i : Instance) (p : ℕ) (h : hal.State)
      → view i (hal.isr_enable i p h).1 ≡ (
          let v : View = view i h in
          if is_ok (hal.isr_enable i p h).0 then record v { armed = true } else v)
  -- "Disable the top-level CPU interrupt and the module interrupt sources."
  pub disable_view :
      (i : Instance) (h : hal.State)
      → view i (hal.isr_disable i h).1 ≡ (let v : View = view i h in record v { armed = false })
  -- The calls that transfer frames, bit rates and status leave the three flags alone.
  pub set_bitrate_view :
      (i : Instance) (clk nominal fd sample : ℕ) (h : hal.State)
      → view i (hal.set_bitrate i clk nominal fd sample h).1 ≡ view i h
  pub transmit_view :
      (i : Instance) (f : Frame) (h : hal.State) → view i (hal.transmit i f h).1 ≡ view i h
  pub available_view : (i : Instance) (h : hal.State) → view i (hal.rx_available i h).1 ≡ view i h
  pub receive_view : (i : Instance) (h : hal.State) → view i (hal.receive i h).2 ≡ view i h
  pub abort_view : (i : Instance) (h : hal.State) → view i (hal.tx_abort i h).1 ≡ view i h
  pub status_view : (i : Instance) (h : hal.State) → view i (hal.get_status i h).2 ≡ view i h
