-- ===== src/Canfd/Isr/Tests.antt =====
-- The event layer over a chip whose registers keep their words, but for the roll-ups in CxINT.
use dspic33ak_can_cmsis_driv.Prelude.{
  ℕ, inl, arith, ◌+◌, ◌-◌, ◌^◌, ◌&&◌, bit_and, ◌≡◌, ◌≢◌, refl, Bool, true, false, not, none, some,
  ◌==◌, if◌then◌else◌,
}
use dspic33ak_can_cmsis_driv.Canfd.{Instance, Mode, event_tx_complete}
use dspic33ak_can_cmsis_driv.Canfd.Chip.{Chip, Reg}
use dspic33ak_can_cmsis_driv.Canfd.Isr.{
  Line, Events, System, nora_canfd_isr_enable, nora_canfd_isr_disable,
}
use dspic33ak_can_cmsis_driv.Canfd.Isr.Lines.{IsGuarded}
use dspic33ak_can_cmsis_driv.Canfd.Isr.Armed.{IsCallback, still, enables}
use dspic33ak_can_cmsis_driv.Canfd.Isr.Silence.{
  here, call, IsSilent, all_but, Reach-IsSilent, Reach-IsGuarded,
}
use dspic33ak_can_cmsis_driv.Canfd.Registers.{
  int_txif, int_rxif, int_rxovif, txqsta_txqeif, txqcon_txqeie, fifosta_rxovif,
}
use dspic33ak_can_cmsis_driv.Canfd.Isr.Report.{
  is_left, IsStill, completed, cleared, handler_reports,
}
use dspic33ak_can_cmsis_driv.Canfd.Isr.Told.{IsTold}
use dspic33ak_can_cmsis_driv.Canfd.Isr.Handler.{is_up, nora_canfd_irq_handler}
use dspic33ak_can_cmsis_driv.Canfd.Isr.Completion.{transmit_completes, IsCompleted}
use dspic33ak_can_cmsis_driv.Canfd.Isr.Transmit.{IsEnabling, isr_enable-IsEnabling}

Reg-discrete : Discrete Reg
Reg-discrete = hlevel

-- A write, by whether the register is the one that is written.
abbrev store_if : {r q : Reg} → Dec (r ≡ q) → ℕ → ℕ → ℕ
store_if (yes _) v old = v
store_if (no _) v old = old

abbrev roll_ups : ℕ
roll_ups = int_txif + int_rxif + int_rxovif

-- TXIF and RXOVIF follow the flags and enables of the queue and of the FIFO.
abbrev shown : Reg → (Reg → ℕ) → ℕ
shown Reg.int s =
    s Reg.int
    + (if is_up (s Reg.txqsta) txqsta_txqeif && is_up (s Reg.txqcon) txqcon_txqeie
        then int_txif
        else 0)
    + (if is_up (s Reg.fifosta1) fifosta_rxovif then int_rxovif else 0)
shown r s = s r

-- The roll-ups are read-only.
abbrev taken : Reg → ℕ → ℕ
taken Reg.int v = bit_and v (2 ^ 32 - 1 - roll_ups)
taken _ v = v

-- Both instances share their registers.
abbrev memory : Chip
memory = record {
  State = Reg → ℕ;
  present = λ i. true;
  read = λ i r s. (shown r s, s);
  write = λ i r v s q. store_if (Reg-discrete r q) (taken r v) (s q);
  load = λ a s. (0, s);
  store = λ a v s. s;
  now = λ s. (0, s);
}

store_other : {r q : Reg} (d : Dec (r ≡ q)) (v old : ℕ) → r ≢ q → store_if d v old ≡ old
store_other (yes e) v old h = absurd (h e)
store_other (no _) v old h = refl

left_still :
    (r q : Reg) (v : ℕ) (s : Reg → ℕ)
    → is_left r q ≡ true
    → shown q (λ p. store_if (Reg-discrete r p) (taken r v) (s p)) ≡ shown q s
left_still Reg.fifosta1 Reg.txqsta v s h =
    store_other (Reg-discrete Reg.fifosta1 Reg.txqsta) v (s Reg.txqsta) (λ e. ground arith)
left_still Reg.fifosta1 Reg.trec v s h =
    store_other (Reg-discrete Reg.fifosta1 Reg.trec) v (s Reg.trec) (λ e. ground arith)
left_still Reg.txqcon Reg.trec v s h =
    store_other (Reg-discrete Reg.txqcon Reg.trec) v (s Reg.trec) (λ e. ground arith)
left_still Reg.int Reg.trec v s h =
    store_other (Reg-discrete Reg.int Reg.trec) (taken Reg.int v) (s Reg.trec) (λ e. ground arith)
left_still _ _ v s h = absurd (cc)

abbrev memory_still : IsStill memory
memory_still = record {
  value = λ i r s. shown r s;
  read_value = λ i r s. refl;
  read_still = λ i r j q s. refl;
  write_still = λ i r v j q s h. left_still r q v s h;
}

abbrev all_lines : Instance → Line → Bool
all_lines i l = true

abbrev do_nothing : ℕ → Instance → ℕ → ℕ → System (Reg → ℕ) → System (Reg → ℕ)
do_nothing f i events user_data s = s

nothing-IsCallback : (allowed : Instance → Bool) → IsCallback all_lines memory allowed do_nothing
nothing-IsCallback allowed f i events user_data s = still

-- The registers after a transmit, a bus error and three receive errors, at bus-off.
abbrev words : Reg → ℕ
words Reg.int = 2 ^ 13
words Reg.txqcon = 2 ^ 2
words Reg.txqsta = 2 ^ 0 + 2 ^ 2
words Reg.trec = 2 ^ 21 + 3
words _ = 0

abbrev at_reset : Events
at_reset = record {
  g_cb = λ i. none;
  g_ud = λ i. 0;
  g_tx_busy = λ i. false;
  g_irq_priority = λ i. 0;
  g_isr_enabled = λ i. false;
  lines = λ i l. record { flag = false; priority = 4; enabled = false };
}

-- Both nodes are up.
abbrev up : System (Reg → ℕ)
up = record {
  node = record {
    chip = words;
    g_node = λ i. record { initialized = true; has_get_ms = true; timeout_ms = 10 };
    g_mode = λ i. Mode.normal_fd;
  };
  isr = at_reset;
}

up-IsGuarded : IsGuarded all_lines up.isr
up-IsGuarded = record { line = λ i l. inl refl; recorded = λ i. inl refl }

abbrev disabled : System (Reg → ℕ)
disabled = (nora_canfd_isr_disable all_lines memory Instance.inst_1 up).1

abbrev other_enabled : System (Reg → ℕ)
other_enabled = (nora_canfd_isr_enable all_lines memory Instance.inst_2 5 disabled).1

Reach-IsSilent_example : IsSilent all_lines memory do_nothing Instance.inst_1 other_enabled
Reach-IsSilent_example =
    Reach-IsSilent all_lines memory do_nothing Instance.inst_1 up other_enabled refl
      (nothing-IsCallback (all_but all_lines memory do_nothing Instance.inst_1)) up-IsGuarded
      (call here (enables Instance.inst_2 5 refl))

Reach-IsGuarded_example :
    IsGuarded all_lines (nora_canfd_isr_enable all_lines memory Instance.inst_1 0 up).1.isr
Reach-IsGuarded_example =
    Reach-IsGuarded all_lines memory do_nothing up
      (nora_canfd_isr_enable all_lines memory Instance.inst_1 0 up).1
      (nothing-IsCallback (λ _. true)) up-IsGuarded (call here (enables Instance.inst_1 0 refl))

-- A callback is registered, and a transmit is under way.
abbrev sending : System (Reg → ℕ)
sending = record up { isr = record at_reset { g_cb = λ i. some 7; g_tx_busy = λ i. true } }

handler_reports_example :
    (events : ℕ) × (s1 : System (Reg → ℕ)) × IsTold
      (2 ^ 0 + 2 ^ 13)
      (2 ^ 0 + 2 ^ 2)
      (2 ^ 21 + 3)
      events
    × (s1.isr ≡ completed all_lines memory memory_still Instance.inst_1 sending.isr)
    × (nora_canfd_irq_handler all_lines memory do_nothing Instance.inst_1 sending
        ≡ cleared all_lines memory memory_still do_nothing Instance.inst_1 (
            if not (events == 0)
            then elim (s1.isr.g_cb Instance.inst_1) [
              | none ↦ s1
              | some f ↦ do_nothing f Instance.inst_1 events (s1.isr.g_ud Instance.inst_1) s1
            ]
            else s1))
handler_reports_example =
    handler_reports all_lines memory memory_still do_nothing Instance.inst_1 sending refl

transmit_completes_example :
    (events : ℕ) × (s1 : System (Reg → ℕ)) × (is_up events event_tx_complete ≡ true)
    × IsCompleted all_lines memory memory_still do_nothing Instance.inst_1 sending s1
    × (nora_canfd_irq_handler all_lines memory do_nothing Instance.inst_1 sending
        ≡ cleared all_lines memory memory_still do_nothing Instance.inst_1
            (elim (s1.isr.g_cb Instance.inst_1) [
              | none ↦ s1
              | some f ↦ do_nothing f Instance.inst_1 events (s1.isr.g_ud Instance.inst_1) s1
            ]))
transmit_completes_example =
    transmit_completes all_lines memory memory_still do_nothing Instance.inst_1 sending refl refl

isr_enable-IsEnabling_example :
    IsEnabling all_lines memory Instance.inst_1 0 sending
      (nora_canfd_isr_enable all_lines memory Instance.inst_1 0 sending)
isr_enable-IsEnabling_example = isr_enable-IsEnabling all_lines memory Instance.inst_1 0 sending
