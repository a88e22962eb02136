-- ===== src/Canfd/Node/Handover.antt =====
-- `nora_canfd_transmit` hands one object over to the bus, or none.
use dspic33ak_can_cmsis_driv.Prelude.{
  ℕ, zero, suc, ◌+◌, ◌/◌, ◌≤◌, ◌≡◌, refl, ap, ◌∙◌, arith, true, false, not, ◌&&◌, Option, none,
  some, ltb, if_holds, [], ◌∷◌, ◌++◌, length, values,
}
use dspic33ak_can_cmsis_driv.Prelude.Bits.{bit_and-mask, u8}
use dspic33ak_can_cmsis_driv.Canfd.{Instance, Status, is_ok, Frame}
use dspic33ak_can_cmsis_driv.Canfd.Chip.{Chip, Reg}
use dspic33ak_can_cmsis_driv.Canfd.Dlc.{dlc_to_len, len_to_dlc}
use dspic33ak_can_cmsis_driv.Canfd.Dlc.Codes.{len_to_dlc_smallest}
use dspic33ak_can_cmsis_driv.Canfd.Object.{write_object, read_object, pack}
use dspic33ak_can_cmsis_driv.Canfd.Object.Header.{IsId}
use dspic33ak_can_cmsis_driv.Canfd.Object.Payload.{IsPayload}
use dspic33ak_can_cmsis_driv.Canfd.Object.RoundTrip.{padded, read_object-write_object}
use dspic33ak_can_cmsis_driv.Canfd.Node.{
  NodeState, World, Run, trap, dry, done, wait_flag, flag_up, start_time, after_wait,
}
use dspic33ak_can_cmsis_driv.Canfd.Node.Request.{Ends, poll-Ends}
use dspic33ak_can_cmsis_driv.Canfd.Node.Transfer.{with_room, nora_canfd_transmit}
use dspic33ak_can_cmsis_driv.Canfd.Node.Queue.{IsQueue, commit-IsHanded}

length-pack : (n w : ℕ) (f : Frame) → length (pack n w f) ≡ n
unfolding pack
length-pack zero w f = refl
length-pack (suc n) w f = ap suc (length-pack n (w + 1) f)

-- The object of a frame fits 72 bytes.
length-write_object : (f : Frame) → f.len ≤ 64 → length (write_object f) ≤ 18
unfolding write_object
length-write_object f h =
    let len = dlc_to_len (len_to_dlc f.len) in
    let (_, _, most, _) = len_to_dlc_smallest f.len h in
    omega (arith, most, length-pack (u8 ((len + 3) / 4)) 0 f)

module _ (chip : Chip) (i : Instance) (q : IsQueue chip i) where
  open chip use {State, now}
  open q use {queued, on_bus, has_room}

  -- Nothing was put into the queue or handed over.
  abbrev pub IsQuiet : State → State → Type 0
  IsQuiet s s' = (queued s' ≡ queued s) × (on_bus s' ≡ on_bus s)

  -- Where `wait_flag` sees the flag "not full", there is room.
  flag_room :
      (s : State)
      → (flag_up chip i Reg.txqsta 1 s).0 ≡ true
      → has_room (flag_up chip i Reg.txqsta 1 s).1 ≡ true
  flag_room s up =
      let v = (chip.read i Reg.txqsta s).0 in q.not_full s (ground (arith, up, bit_and-mask 1 v))

  wait_flag-IsQuiet :
      (fuel : ℕ) (n : NodeState) (s : State)
      → Ends (IsQuiet s) (λ t. has_room t ≡ true) (wait_flag chip fuel i Reg.txqsta 1 n s)
  unfolding wait_flag
  wait_flag-IsQuiet fuel n s =
      let (start, s') = start_time chip n s in
      let tick : (t : State) → IsQuiet s t → IsQuiet s (now t).1 =
        λ t v. ((q.ticks t).0 ∙ v.0, (q.ticks t).1 ∙ v.1) in
      poll-Ends chip (IsQuiet s) (λ t. has_room t ≡ true) (flag_up chip i Reg.txqsta 1)
        (λ t v. let (_, _, k, l) = q.reads Reg.txqsta t in (k ∙ v.0, l ∙ v.1))
        (λ t v e. flag_room t e) tick n start fuel s'
        (if_holds (λ (p : ℕ × State). IsQuiet s p.1) n.has_get_ms (now s) (0, s) (λ _. q.ticks s)
          (λ _. (refl, refl)))

  -- One object was put into the queue and all of the queue was handed over; the object is read as
  -- the frame, padded to the length of its code.
  pub record IsSent (s s' : State) (f : Frame) : Type 0 where
    pub object : ℕ → ℕ
    pub queued_last : queued s' ≡ queued s ++ object ∷ []
    pub handed : on_bus s' ≡ queued s'
    pub decodes : read_object (values object 0 (length (write_object f))) ≡ padded f

  -- A transmit that ends with OK has sent the frame, and one that ends otherwise nothing.
  abbrev pub Sends : World State → Frame → Run State → Type 0
  Sends w f trap = Unit {0}
  Sends w f dry = Unit {0}
  Sends w f (done st w') =
      (is_ok st ≡ true → IsSent w.chip w'.chip f) × (is_ok st ≡ false → IsQuiet w.chip w'.chip)

  with_room-Sends :
      (f : Frame) (w0 : World State) (st : Status) (w : World State)
      → IsId f.extended f.id
      → IsPayload f
      → IsQuiet w0.chip w.chip
      → (is_ok st ≡ true → has_room w.chip ≡ true)
      → Sends w0 f (with_room chip i f st w)
  unfolding with_room
  with_room-Sends f w0 st w id v quiet room =
      if_holds (Sends w0 f) (not (is_ok st)) _ _ (λ bad. (λ ok. absurd (ground arith), λ _. quiet))
        (λ good.
          let h =
            commit-IsHanded chip i q f w.chip (room (ground arith))
              (length-write_object f v.at_most) in
          (
            λ _. record {
              object = h.object;
              queued_last = h.queued_last ∙ ap (λ l. l ++ h.object ∷ []) quiet.0;
              handed = h.handed;
              decodes = ap read_object h.words_are ∙ read_object-write_object f id v;
            },
            λ bad. absurd (cc),
          ))

  after_wait-Sends :
      (f : Frame) (w : World State) (o : Option (Status × State))
      → IsId f.extended f.id
      → IsPayload f
      → Ends (IsQuiet w.chip) (λ t. has_room t ≡ true) o
      → Sends w f (after_wait chip o w (with_room chip i f))
  after_wait-Sends f w none id v e = tt
  after_wait-Sends f w (some (st, s)) id v e =
      with_room-Sends f w st (record w { chip = s }) id v e.0 e.1

  -- Over a transmit queue of the hardware, which takes an object only if it has room, a call of
  -- `nora_canfd_transmit` with a frame whose identifier is of its kind, of at most 64 bytes and as
  -- many as its length says: if it ends with OK, one object was put into the queue and
  -- all of the queue handed over, and the object is read as the frame, padded to the length of its
  -- code; if it ends with another status, nothing was put into the queue or handed over.
  pub transmit-Sends :
      (fuel : ℕ) (f : Frame) (w : World State)
      → IsId f.extended f.id
      → IsPayload f
      → Sends w f (nora_canfd_transmit chip fuel i f w)
  unfolding nora_canfd_transmit
  transmit-Sends fuel f w id v =
      let refused : (st : Status) → is_ok st ≡ false → Sends w f (done st w) =
        λ st e. (λ ok. absurd (cc), λ _. (refl, refl)) in
      if_holds (Sends w f) (ltb 64 f.len) _ _ (λ _. refused Status.err_invalid_arg refl)
        (λ _.
          if_holds (Sends w f) (not f.fd && ltb 8 f.len) _ _
            (λ _. refused Status.err_invalid_arg refl)
            (λ _.
              if_holds (Sends w f) (not (w.g_node i).initialized) _ _
                (λ _. refused Status.err_not_initialized refl)
                (λ _. after_wait-Sends f w _ id v (wait_flag-IsQuiet fuel (w.g_node i) w.chip))))
