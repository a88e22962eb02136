-- ===== src/Canfd/Isr/Kept.antt =====
-- What `nora_canfd_irq_handler` leaves as it is before it calls the callback.
use dspic33ak_can_cmsis_driv.Prelude.{
  ℕ, ◌≡◌, refl, ◌∙◌, Bool, true, ◌&&◌, if_holds, if◌then◌else◌, Option,
}
use dspic33ak_can_cmsis_driv.Canfd.{Instance}
use dspic33ak_can_cmsis_driv.Canfd.Chip.{Chip, Reg, reg_clear}
use dspic33ak_can_cmsis_driv.Canfd.Node.{NodeState}
use dspic33ak_can_cmsis_driv.Canfd.Isr.{
  Line, System, Events, on_chip, disarm_transmit, irq_tx_line_disable, set_line,
}
use dspic33ak_can_cmsis_driv.Canfd.Isr.Handler.{
  is_up, fetch_reg, serve_overflow, serve_transmit, collect,
}
use dspic33ak_can_cmsis_driv.Canfd.Isr.Report.{is_handled}
use dspic33ak_can_cmsis_driv.Canfd.Registers.{
  int_rxovif, int_txif, int_txie, int_clr_mask, txqsta_txqeif, txqcon_txqeie, fifosta_rxovif,
}

-- Of the chip what is asked, the node's state, and the callbacks.
abbrev pub Kept :
    {S : Type 0}
    → (S → Type 0)
    → (Instance → NodeState)
    → (Instance → Option ℕ)
    → (Instance → ℕ)
    → System S
    → Type 0
Kept Q nodes cb ud s =
    Q s.node.chip × (s.node.g_node ≡ nodes) × (s.isr.g_cb ≡ cb) × (s.isr.g_ud ≡ ud)

module _ (has_line : Instance → Line → Bool) (chip : Chip) (Q : chip.State → Type 0)
    (reads : (i : Instance) (r : Reg) (s : chip.State) → Q s → Q (chip.read i r s).1)
    (writes : (i : Instance) (r : Reg) (v : ℕ) (s : chip.State)
      → is_handled r ≡ true
      → Q s
      → Q (chip.write i r v s))
    (nodes : Instance → NodeState) (cb : Instance → Option ℕ) (ud : Instance → ℕ) where
  open chip use {State}

  abbrev K : System State → Type 0
  K = Kept Q nodes cb ud

  clear-Kept :
      (i : Instance) (r : Reg) (mask : ℕ) (s : System State)
      → is_handled r ≡ true
      → K s
      → K (on_chip (reg_clear chip i r mask) s)
  unfolding reg_clear
  clear-Kept i r mask s e k = (writes i r _ _ e (reads i r s.node.chip k.0), k.1, k.2, k.3)

  line_cb : (i : Instance) (e : Events) → (irq_tx_line_disable has_line i e).g_cb ≡ e.g_cb
  unfolding irq_tx_line_disable set_line
  line_cb i e =
      if_holds (λ (t : Events). t.g_cb ≡ e.g_cb) (has_line i Line.tx) _ e (λ _. refl) (λ _. refl)

  line_ud : (i : Instance) (e : Events) → (irq_tx_line_disable has_line i e).g_ud ≡ e.g_ud
  unfolding irq_tx_line_disable set_line
  line_ud i e =
      if_holds (λ (t : Events). t.g_ud ≡ e.g_ud) (has_line i Line.tx) _ e (λ _. refl) (λ _. refl)

  disarm-Kept : (i : Instance) (s : System State) → K s → K (disarm_transmit has_line chip i s)
  unfolding disarm_transmit
  disarm-Kept i s k =
      let s1 = on_chip (reg_clear chip i Reg.txqcon txqcon_txqeie) s in
      let (c, n, h, d) =
        clear-Kept i Reg.int int_txie s1 refl (clear-Kept i Reg.txqcon txqcon_txqeie s refl k) in
      (c, n, line_cb i s.isr ∙ h, line_ud i s.isr ∙ d)

  overflow-Kept :
      (i : Instance) (intf : ℕ) (s : System State) → K s → K (serve_overflow has_line chip i intf s)
  unfolding serve_overflow
  overflow-Kept i intf s k =
      if_holds K (is_up intf int_rxovif) _ s
        (λ _. clear-Kept i Reg.fifosta1 fifosta_rxovif s refl k) (λ _. k)

  transmit-Kept :
      (i : Instance) (intf : ℕ) (s : System State)
      → K s
      → K (serve_transmit has_line chip i intf s).1
  unfolding serve_transmit
  transmit-Kept i intf s k =
      let (sta, s1) = fetch_reg chip i Reg.txqsta s in
      let s2 = if is_up intf int_txif then s1 else s in
      let k2 =
        if_holds K (is_up intf int_txif) s1 s
          (λ _. (reads i Reg.txqsta s.node.chip k.0, k.1, k.2, k.3)) (λ _. k) in
      if_holds K (is_up intf int_txif && is_up sta txqsta_txqeif) _ s2 (λ _. disarm-Kept i s2 k2)
        (λ _. k2)

  pub collect-Kept : (i : Instance) (s : System State) → K s → K (collect has_line chip i s).1
  unfolding collect
  collect-Kept i s k =
      let (intf, s1) = fetch_reg chip i Reg.int s in
      let s2 = serve_overflow has_line chip i intf s1 in
      let s3 = (serve_transmit has_line chip i intf s2).1 in
      let k1 : K s1 = (reads i Reg.int s.node.chip k.0, k.1, k.2, k.3) in
      let k3 = transmit-Kept i intf s2 (overflow-Kept i intf s1 k1) in
      let k4 = clear-Kept i Reg.int int_clr_mask s3 refl k3 in
      (reads i Reg.trec _ k4.0, k4.1, k4.2, k4.3)
