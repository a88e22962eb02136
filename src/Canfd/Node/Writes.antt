-- ===== src/Canfd/Node/Writes.antt =====
-- Writes of settings in the configuration mode.
use dspic33ak_can_cmsis_driv.Prelude.{ℕ, ◌≡◌, ◌≢◌, refl, ap, ◌∙◌, List, [], ◌∷◌, subst}
use dspic33ak_can_cmsis_driv.Canfd.{Instance}
use dspic33ak_can_cmsis_driv.Canfd.Chip.{Chip, Reg}
use dspic33ak_can_cmsis_driv.Canfd.Node.Module.{Flag, part, AsksFor, IsModule, IsConfiguring}

unfoldable pub Reg-discrete : Discrete Reg
Reg-discrete = hlevel

-- The setting of a register after some writes.
unfoldable pub written : Reg → List (Reg × ℕ) → ℕ → ℕ
written q [] d = d
written q ((r, v) ∷ l) d = written q l (elim (Reg-discrete r q) [ yes _ ↦ part q v | no _ ↦ d ])

module _ (chip : Chip) (i : Instance) (m : IsModule chip i) where
  open chip use {State, read, write}
  open m use {word, flag, in_conf}

  unfoldable pub write_all : List (Reg × ℕ) → State → State
  write_all [] s = s
  write_all ((r, v) ∷ l) s = write_all l (write i r v s)

  pub write-IsConfiguring :
      (r : Reg) (v : ℕ) (s : State)
      → r ≢ Reg.con
      → IsConfiguring chip i m s
      → IsConfiguring chip i m (write i r v s)
  write-IsConfiguring r v s n c =
      let asked : AsksFor (λ f. flag f (write i r v s)) = (
        m.write_flags r v Flag.reqop_2 s n ∙ c.asked.0,
        m.write_flags r v Flag.reqop_1 s n ∙ c.asked.1,
        m.write_flags r v Flag.reqop_0 s n ∙ c.asked.2,
      ) in
      record { here = m.write_stays r v s asked c.here; asked = asked }

  abbrev pub NoCon : List (Reg × ℕ) → Type 0
  NoCon [] = Unit {0}
  NoCon ((r, v) ∷ l) = (r ≢ Reg.con) × NoCon l

  -- The settings after some writes in the configuration mode, of which none is to CxCON.
  pub record IsWritten (l : List (Reg × ℕ)) (s s' : State) : Type 0 where
    pub configuring : IsConfiguring chip i m s'
    pub words_are : (q : Reg) → word q s' ≡ written q l (word q s)
    pub flags_are : (f : Flag) → flag f s' ≡ flag f s

  pub write_all-IsWritten :
      (l : List (Reg × ℕ)) (s : State)
      → NoCon l
      → IsConfiguring chip i m s
      → IsWritten l s (write_all l s)
  unfolding write_all written
  write_all-IsWritten [] s n c = record {
    configuring = c;
    words_are = λ q. refl;
    flags_are = λ f. refl;
  }
  write_all-IsWritten ((r, v) ∷ l) s n c =
      let later = write_all-IsWritten l (write i r v s) n.1 (write-IsConfiguring r v s n.0 c) in
      record {
        configuring = later.configuring;
        words_are = λ q.
            later.words_are q
            ∙ ap (written q l)
                (elim (Reg-discrete r q)
                  as (λ d.
                    word q (write i r v s) ≡ (elim d [ yes _ ↦ part q v | no _ ↦ word q s ])) [
                      | yes e ↦
                          subst (λ x. word x (write i r v s) ≡ part x v) e
                            (m.write_word r v s c.here)
                      | no h ↦ m.write_other r v q s h
                    ]);
        flags_are = λ f. later.flags_are f ∙ m.write_flags r v f s n.0;
      }
