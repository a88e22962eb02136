-- ===== src/Canfd/Node/Request.antt =====
-- What `request_mode` leaves of the settings of a module.
use dspic33ak_can_cmsis_driv.Prelude.{
  ℕ, zero, suc, ◌-◌, ◌+◌, ◌^◌, ◌≡◌, ◌≢◌, refl, sym, ap₂, ◌∙◌, arith, if_holds, bit_or, bit_and,
  Bool, true, false, not, ◌&&◌, ◌||◌, if◌then◌else◌, max, min, Option, none, some, leb, ◌==◌,
}
use dspic33ak_can_cmsis_driv.Prelude.Bits.{bit_or-digit, bit_and-digit, u32, shl}
use dspic33ak_can_cmsis_driv.Canfd.{Instance, Status, is_ok}
use dspic33ak_can_cmsis_driv.Canfd.Chip.{Chip, Reg, reg_write_field}
use dspic33ak_can_cmsis_driv.Canfd.Node.{NodeState, start_time, poll, in_mode, request_mode}
use dspic33ak_can_cmsis_driv.Canfd.Node.Module.{
  Flag, position, is_free, digit, AsksFor, IsModule, IsConfiguring,
}
use dspic33ak_can_cmsis_driv.Canfd.Registers.{con_reqop_pos, con_reqop_mask, opmode_config}

abbrev pub is_request : Flag → Bool
is_request Flag.reqop_0 = true
is_request Flag.reqop_1 = true
is_request Flag.reqop_2 = true
is_request _ = false

-- How a wait ends, if its fuel is enough.
abbrev pub Ends : {S : Type 0} → (S → Type 0) → (S → Type 0) → Option (Status × S) → Type 0
Ends P Q none = Unit {0}
Ends P Q (some (st, s)) = P s × (is_ok st ≡ true → Q s)

module _ (chip : Chip) where
  open chip use {State, read, now}

  -- A loop that ends with OK has seen its test succeed.
  module _ (P Q : State → Type 0) (ready : State → Bool × State)
      (keeps : (s : State) → P s → P (ready s).1)
      (goes : (s : State) → P s → (ready s).0 ≡ true → Q (ready s).1)
      (ticks : (s : State) → P s → P (now s).1) where
    pub poll-Ends :
        (n : NodeState) (start fuel : ℕ) (s : State)
        → P s
        → Ends P Q (poll chip ready n start fuel s)
    unfolding poll
    poll-Ends n start zero s p = tt
    poll-Ends n start (suc fuel) s p =
        let (is_ready, s1) = ready s in
        let timed = n.has_get_ms && not (n.timeout_ms == 0) in
        let (t, s2) = now s1 in
        let p1 = keeps s p in
        if_holds (Ends P Q) is_ready _ _ (λ e. (p1, λ _. goes s p e))
          (λ _.
            if_holds (Ends P Q) (timed && leb n.timeout_ms (u32 (t + 2 ^ 32 - start))) _ _
              (λ _. (ticks s1 p1, λ h. cc))
              (λ _.
                poll-Ends n start fuel (if timed then s2 else s1)
                  (if_holds P timed s2 s1 (λ _. ticks s1 p1) (λ _. p1))))

abbrev pub requested : ℕ → ℕ → ℕ
requested v reqop =
    bit_or (bit_and v (2 ^ 32 - 1 - con_reqop_mask))
      (bit_and (u32 (shl reqop con_reqop_pos)) con_reqop_mask)

digit-requested :
    (k v reqop : ℕ)
    → digit k (requested v reqop)
      ≡ max
          (min (digit k v) (digit k (2 ^ 32 - 1 - con_reqop_mask)))
          (min (digit k (u32 (shl reqop con_reqop_pos))) (digit k con_reqop_mask))
digit-requested k v reqop =
    bit_or-digit k (bit_and v (2 ^ 32 - 1 - con_reqop_mask))
      (bit_and (u32 (shl reqop con_reqop_pos)) con_reqop_mask)
    ∙ ap₂ max (bit_and-digit k v (2 ^ 32 - 1 - con_reqop_mask))
        (bit_and-digit k (u32 (shl reqop con_reqop_pos)) con_reqop_mask)

-- A bit that is not of REQOP keeps its value in the word that is written.
kept_digit :
    (f : Flag) (v reqop : ℕ)
    → is_request f ≡ false
    → digit (position f) (requested v reqop) ≡ digit (position f) v
kept_digit Flag.isocrcen v reqop h = omega (arith, digit-requested 5 v reqop)
kept_digit Flag.clksel v reqop h = omega (arith, digit-requested 7 v reqop)
kept_digit Flag.brsdis v reqop h = omega (arith, digit-requested 12 v reqop)
kept_digit Flag.on v reqop h = omega (arith, digit-requested 15 v reqop)
kept_digit Flag.stef v reqop h = omega (arith, digit-requested 19 v reqop)
kept_digit Flag.txqen v reqop h = omega (arith, digit-requested 20 v reqop)
kept_digit Flag.reqop_0 v reqop h = cc
kept_digit Flag.reqop_1 v reqop h = cc
kept_digit Flag.reqop_2 v reqop h = cc

asked_digits : (v : ℕ) → AsksFor (λ f. digit (position f) (requested v opmode_config))
asked_digits v = (
  omega (arith, digit-requested 26 v opmode_config),
  omega (arith, digit-requested 25 v opmode_config),
  omega (arith, digit-requested 24 v opmode_config),
)

module _ (chip : Chip) (i : Instance) (m : IsModule chip i) where
  open chip use {State, read, write, now}
  open m use {word, flag, in_conf}

  -- The same settings, REQOP aside.
  pub record IsSame (s s' : State) : Type 0 where
    pub same_word : (q : Reg) → Reg.con ≢ q → word q s' ≡ word q s
    pub same_flag : (f : Flag) → is_request f ≡ false → flag f s' ≡ flag f s

  pub read-IsSame : (r : Reg) (s s' : State) → IsSame s s' → IsSame s (read i r s').1
  read-IsSame r s s' v = record {
    same_word = λ q n. m.read_words r q s' ∙ v.same_word q n;
    same_flag = λ f e. m.read_flags r f s' ∙ v.same_flag f e;
  }

  pub now-IsSame : (s s' : State) → IsSame s s' → IsSame s (now s').1
  now-IsSame s s' v = record {
    same_word = λ q n. m.now_words q s' ∙ v.same_word q n;
    same_flag = λ f e. m.now_flags f s' ∙ v.same_flag f e;
  }

  -- The write of REQOP.
  abbrev ask : ℕ → State → State
  ask reqop s = reg_write_field chip i Reg.con con_reqop_mask (u32 (shl reqop con_reqop_pos)) s

  if_same : (b : Bool) (x y : ℕ) → x ≡ y → (if b then x else y) ≡ y
  if_same true x y e = e
  if_same false x y e = refl

  ask-IsSame : (reqop : ℕ) (s s0 : State) → IsSame s0 s → IsSame s0 (ask reqop s)
  unfolding reg_write_field
  ask-IsSame reqop s s0 same =
      let (v, s') = read i Reg.con s in
      record {
        same_word =
            λ q n. m.write_other Reg.con _ q s' n ∙ m.read_words Reg.con q s ∙ same.same_word q n;
        same_flag = λ f e.
            m.write_flag (requested v reqop) f s'
            ∙ if_same (in_conf s' || is_free f) _ _
                (kept_digit f v reqop e ∙ m.read_flag f s ∙ sym (m.read_flags Reg.con f s))
            ∙ m.read_flags Reg.con f s
            ∙ same.same_flag f e;
      }

  asked_flag :
      (f : Flag) (s : State)
      → is_free f ≡ true
      → flag f (ask opmode_config s)
        ≡ digit (position f) (requested (read i Reg.con s).0 opmode_config)
  unfolding reg_write_field
  asked_flag f s e =
      let (v, s') = read i Reg.con s in
      m.write_flag (requested v opmode_config) f s' ∙ ground (arith, e)

  -- After the request for the configuration mode
  ask-AsksFor : (s : State) → AsksFor (λ f. flag f (ask opmode_config s))
  ask-AsksFor s =
      let (two, one, none_left) = asked_digits (read i Reg.con s).0 in
      (
        asked_flag Flag.reqop_2 s refl ∙ two,
        asked_flag Flag.reqop_1 s refl ∙ one,
        asked_flag Flag.reqop_0 s refl ∙ none_left,
      )

  -- After a wait for a mode the settings are the same.
  pub request-IsSame :
      (reqop : ℕ) (n : NodeState) (fuel : ℕ) (s0 s : State)
      → IsSame s0 s
      → Ends (IsSame s0) (λ _. Unit {0}) (request_mode chip fuel i reqop n s)
  unfolding request_mode
  request-IsSame reqop n fuel s0 s v =
      let (start, s') = start_time chip n s in
      let v' =
        if_holds (λ p. IsSame s0 p.1) n.has_get_ms (now s) (0, s) (λ _. now-IsSame s0 s v)
          (λ _. v) in
      poll-Ends chip (IsSame s0) (λ _. Unit {0}) (in_mode chip i reqop) (read-IsSame Reg.con s0)
        (λ s p e. tt) (now-IsSame s0) n start fuel (ask reqop s') (ask-IsSame reqop s' s0 v')

  -- The same settings, with REQOP asking for the configuration mode.
  pub record IsAsking (s s' : State) : Type 0 where
    pub same : IsSame s s'
    pub asking : AsksFor (λ f. flag f s')

  read-IsAsking : (r : Reg) (s s' : State) → IsAsking s s' → IsAsking s (read i r s').1
  read-IsAsking r s s' v = record {
    same = read-IsSame r s s' v.same;
    asking = (
      m.read_flags r Flag.reqop_2 s' ∙ v.asking.0,
      m.read_flags r Flag.reqop_1 s' ∙ v.asking.1,
      m.read_flags r Flag.reqop_0 s' ∙ v.asking.2,
    );
  }

  now-IsAsking : (s s' : State) → IsAsking s s' → IsAsking s (now s').1
  now-IsAsking s s' v = record {
    same = now-IsSame s s' v.same;
    asking = (
      m.now_flags Flag.reqop_2 s' ∙ v.asking.0,
      m.now_flags Flag.reqop_1 s' ∙ v.asking.1,
      m.now_flags Flag.reqop_0 s' ∙ v.asking.2,
    );
  }

  -- After a wait for the configuration mode the settings are the same, REQOP asks for it, and if the
  -- wait ends with OK the module is in it.
  pub request-IsConfiguring :
      (n : NodeState) (fuel : ℕ) (s0 s : State)
      → IsSame s0 s
      → Ends (IsAsking s0) (IsConfiguring chip i m) (request_mode chip fuel i opmode_config n s)
  unfolding request_mode
  request-IsConfiguring n fuel s0 s v =
      let (start, s') = start_time chip n s in
      let v' =
        if_holds (λ p. IsSame s0 p.1) n.has_get_ms (now s) (0, s) (λ _. now-IsSame s0 s v)
          (λ _. v) in
      poll-Ends chip (IsAsking s0) (IsConfiguring chip i m) (in_mode chip i opmode_config)
        (read-IsAsking Reg.con s0)
        (λ s p e. record {
          here = m.read_mode s p.asking (ground (arith, e));
          asked = (read-IsAsking Reg.con s0 s p).asking;
        })
        (now-IsAsking s0) n start fuel (ask opmode_config s')
        (record { same = ask-IsSame opmode_config s' s0 v'; asking = ask-AsksFor s' })
