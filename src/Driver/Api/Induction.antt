-- ===== src/Driver/Api/Induction.antt =====
-- Induction over the calls of the application and the interrupts in between.
use dspic33ak_can_cmsis_driv.Prelude.{
  ℕ, zero, suc, ◌≡◌, refl, ◌∙◌, Bool, true, false, Option, none, some, not, ◌||◌, subst, some-eq,
  some-of, sym,
}
use dspic33ak_can_cmsis_driv.Arm
use dspic33ak_can_cmsis_driv.Driver.Hal.{Hal, is_ok}
use dspic33ak_can_cmsis_driv.Driver.Ring.{put}
use dspic33ak_can_cmsis_driv.Driver.Context.{Context, Device, App}
use dspic33ak_can_cmsis_driv.Driver.Event.{
  Drained, drain, can_hal_event, signal_object, signal_unit, obj_rx, on_rx_available,
  on_overflow_and_bus_off, has_event, event_rx_available,
}
use dspic33ak_can_cmsis_driv.Driver.Api.{Call, call, Step, Reach, calls, interrupt, here, next}

module _ (hal : Hal) where
  open hal use {State, rx_available, receive}

  -- After a look at the receive FIFO.
  abbrev pub looked : Device State → Device State
  looked d = record d { hal = (rx_available d.ctx.hal_inst d.hal).1 }

  -- After a receive, whose frame is not kept.
  abbrev pub unkept : Device State → Device State
  unkept d = record d { hal = (receive d.ctx.hal_inst d.hal).2 }

  -- After a receive, whose frame is put into the ring.
  abbrev pub kept : Device State → Device State
  kept d =
      let c : Context = d.ctx in
      let (_, f, h) = receive c.hal_inst d.hal in
      record { ctx = record c { rx = (put f c.rx).1 }; hal = h }

  module _ (P : Device State → Type 0) where
    -- What a step of the driver keeps.
    pub record IsClosed : Type 0 where
      pub call : (c : Call) (d : Device State) → P d → P (call hal c d)
      pub looked : (d : Device State) → P d → P (looked d)
      pub unkept : (d : Device State) → P d → P (unkept d)
      pub kept :
          (d : Device State) → P d → is_ok (receive d.ctx.hal_inst d.hal).0 ≡ true → P (kept d)

    -- What is asked of the callbacks of the application.
    pub record IsKept (app : App State) : Type 0 where
      pub unit_event : (f e : ℕ) (d : Device State) → P d → P (app.unit_event f e d)
      pub object_event : (f o e : ℕ) (d : Device State) → P d → P (app.object_event f o e d)

    module _ (closed : IsClosed) where
      drain-keeps : (fuel : ℕ) (s t : Drained State) → P s.dev → drain hal fuel s ≡ some t → P t.dev
      unfolding drain
      drain-keeps zero s t v e = cc
      drain-keeps (suc fuel) s t v e =
          go (rx_available s.dev.ctx.hal_inst s.dev.hal).0
            (is_ok (receive s.dev.ctx.hal_inst (looked s.dev).hal).0) refl refl
            (λ w run. drain-keeps fuel again t w run)
        where
          seen : P (looked s.dev)
          seen = closed.looked s.dev v

          again : Drained State
          again =
              let c : Context = s.dev.ctx in
              let stored = (put (receive c.hal_inst (looked s.dev).hal).1 c.rx).0 in
              record {
                dev = kept (looked s.dev);
                received = s.received || stored;
                dropped = s.dropped || not stored;
              }

          go :
              (up ok : Bool)
              → (rx_available s.dev.ctx.hal_inst s.dev.hal).0 ≡ up
              → is_ok (receive s.dev.ctx.hal_inst (looked s.dev).hal).0 ≡ ok
              → (P again.dev → drain hal fuel again ≡ some t → P t.dev)
              → P t.dev
          go true true u o rest =
              rest (closed.kept (looked s.dev) seen o) (sym (rw (u, o) refl) ∙ e)
          go true false u o rest =
              subst (λ (x : Drained State). P x.dev) {x = record s { dev = unkept (looked s.dev) }}
                (some-eq (sym (rw (u, o) refl) ∙ e)) (closed.unkept (looked s.dev) seen)
          go false ok u o rest =
              subst (λ (x : Drained State). P x.dev) {x = record s { dev = looked s.dev }}
                (some-eq (sym (rw u refl) ∙ e)) seen

      module _ (app : App State) (keeps : IsKept app) where
        object-keeps :
            (flag : Bool) (e : ℕ) (d : Device State) → P d → P (signal_object hal app flag e d)
        object-keeps false e d s = s
        object-keeps true e d s = go d.ctx.cb_object
          where
            go : (o : Option ℕ) → P (elim o [ none ↦ d | some f ↦ app.object_event f obj_rx e d ])
            go none = s
            go (some f) = keeps.object_event f obj_rx e d s

        unit-keeps :
            (flag : Bool) (e : ℕ) (d : Device State) → P d → P (signal_unit hal app flag e d)
        unit-keeps false e d s = s
        unit-keeps true e d s = go d.ctx.cb_unit
          where
            go : (o : Option ℕ) → P (elim o [ none ↦ d | some f ↦ app.unit_event f e d ])
            go none = s
            go (some f) = keeps.unit_event f e d s

        rest-keeps :
            (events : ℕ) (d : Device State) → P d → P (on_overflow_and_bus_off hal app events d)
        unfolding on_overflow_and_bus_off
        rest-keeps events d s = unit-keeps _ _ _ (object-keeps _ _ d s)

        drained-keeps :
            (o : Option (Drained State)) {d' : Device State}
            → ((t : Drained State) → o ≡ some t → P t.dev)
            → (elim o [
              | none ↦ none
              | some s ↦ some (
                  signal_object hal app s.dropped Arm.event_receive_overrun
                    (signal_object hal app s.received Arm.event_receive s.dev))
            ])
              ≡ some d'
            → P d'
        drained-keeps none s e = cc
        drained-keeps (some t) s e =
            subst P (some-eq e) (object-keeps _ _ _ (object-keeps _ _ _ (s t refl)))

        rx-keeps :
            (fuel events : ℕ) (d d' : Device State)
            → P d
            → on_rx_available hal app fuel events d ≡ some d'
            → P d'
        unfolding on_rx_available
        rx-keeps fuel events d d' v e = go (has_event events event_rx_available) refl
          where
            start : Drained State
            start = record { dev = d; received = false; dropped = false }

            go : (b : Bool) → has_event events event_rx_available ≡ b → P d'
            go true at =
                drained-keeps (drain hal fuel start) (λ t run. drain-keeps fuel start t v run)
                  (sym (rw at refl) ∙ e)
            go false other = subst P (some-eq (sym (rw other refl) ∙ e)) v

        event-keeps :
            (fuel events : ℕ) (d d' : Device State)
            → P d
            → can_hal_event hal app fuel events d ≡ some d'
            → P d'
        unfolding can_hal_event
        event-keeps fuel events d d' v e =
            let (t, run, after) = some-of (on_rx_available hal app fuel events d) _ e in
            subst P after (rest-keeps events t (rx-keeps fuel events d t v run))

        Step-keeps : {d d' : Device State} → Step hal app d d' → P d → P d'
        Step-keeps (calls c) s = closed.call c _ s
        Step-keeps {d} {d'} (interrupt fuel events e) s = event-keeps fuel events d d' s e

        -- What the calls, the interrupts and the callbacks keep holds in every state that they reach.
        pub Reach-keeps : {d d' : Device State} → P d → Reach hal app d d' → P d'
        Reach-keeps s here = s
        Reach-keeps s (next r st) = Step-keeps st (Reach-keeps s r)
