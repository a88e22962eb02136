-- ===== src/Driver/Tests/Messages.antt =====
-- Sending and reading messages, and the bit segments, at concrete values.
use dspic33ak_can_cmsis_driv.Prelude.{
  ℕ, pos, ◌≡◌, ◌≢◌, ◌<◌, ◌≤◌, ◌*◌, ◌+◌, ◌⊎◌, ◌↔◌, inr, refl, arith, some, List, [], ◌∷◌, ◌++◌, min,
  take, drop, replicate, ◌-◌,
}
use dspic33ak_can_cmsis_driv.Canfd.{Status, Frame}
use dspic33ak_can_cmsis_driv.Canfd.Dlc.{dlc_to_len, len_to_dlc}
use dspic33ak_can_cmsis_driv.Arm.{MsgInfo}
use dspic33ak_can_cmsis_driv.Driver.Ring.Refine.{IsRing, contents}
use dspic33ak_can_cmsis_driv.Driver.Context.{Context}
use dspic33ak_can_cmsis_driv.Driver.Event.{obj_tx, obj_rx}
use dspic33ak_can_cmsis_driv.Driver.Message.{can_message_send, can_message_read, frame_of, info_of}
use dspic33ak_can_cmsis_driv.Canfd.Object.RoundTrip.{padded}
use dspic33ak_can_cmsis_driv.Driver.Message.Frames.{IsMsgInfo}
use dspic33ak_can_cmsis_driv.Driver.Message.Read.{can_message_read_frame}
use dspic33ak_can_cmsis_driv.Driver.Message.Read.{read_sent, IsSendable, can_message_send_accepts}
use dspic33ak_can_cmsis_driv.Driver.Bitrate.{derive_sample_pct}
use dspic33ak_can_cmsis_driv.Driver.Bitrate.Sample.{derive_sample_pct_lem}
use dspic33ak_can_cmsis_driv.Driver.Tests.Toy.{
  toy, running, holding, frame, holding-IsRing, holding-contents,
}

-- An extended identifier, in an FD frame with bit-rate switch.
abbrev info : MsgInfo
info = record { id = 0x8000_1234; rtr = 0; edl = 1; brs = 1; esi = 0; dlc = 0 }

abbrev sent : List ℕ
sent = 1 ∷ 2 ∷ 3 ∷ []

abbrev buffer : List ℕ
buffer = 9 ∷ 9 ∷ 9 ∷ 9 ∷ []

info-IsMsgInfo : IsMsgInfo info
info-IsMsgInfo = record {
  id = inr (omega arith, omega arith);
  edl = omega arith;
  brs = omega arith;
}

can_message_send_accepts_example :
    ((can_message_send toy obj_tx (some info) (some sent) 3 (running [])).0 ≡ pos 3) ↔ (
      IsSendable toy obj_tx info (some sent) 3 (running [])
      × (Status.ok ≡ Status.ok)
      × ◌≡◌ {A = ℕ} 3 3)
can_message_send_accepts_example =
    can_message_send_accepts toy obj_tx 3 info (some sent) 3 (running [])

abbrev one : Frame
one = frame 1

can_message_read_frame_example :
    let d = holding one in
    let r = can_message_read obj_rx (some info) (some buffer) 4 d in
    (r.rc ≡ pos (min 2 4))
    × (r.info ≡ some (info_of one))
    × (r.bytes ≡ some (take (min 2 4) one.bytes ++ drop (min 2 4) buffer))
    × (contents r.dev.ctx.rx ≡ [])
    × IsRing r.dev.ctx.rx
    × (r.dev ≡ (let c : Context = d.ctx in record d { ctx = record c { rx = r.dev.ctx.rx } }))
can_message_read_frame_example =
    can_message_read_frame (holding one) refl (holding-IsRing one) info buffer 4 one []
      (holding-contents one) refl (omega arith)

-- Nine bytes, which the frame pads to twelve.
abbrev nine : List ℕ
nine = 1 ∷ 2 ∷ 3 ∷ 4 ∷ 5 ∷ 6 ∷ 7 ∷ 8 ∷ 9 ∷ []

abbrev large : List ℕ
large = replicate 16 255

abbrev arrived : Frame
arrived = padded (frame_of info nine 9)

read_sent_example :
    let r = can_message_read obj_rx (some info) (some large) 16 (holding arrived) in
    let len = dlc_to_len (len_to_dlc 9) in
    let count = min len 16 in
    (r.rc ≡ pos count)
    × (r.info
        ≡ some (record {
          id = info.id;
          rtr = 0;
          edl = info.edl;
          brs = min info.edl info.brs;
          esi = 0;
          dlc = len_to_dlc 9;
        }))
    × (r.bytes ≡ some (take count (take 9 nine ++ replicate (len - 9) 0) ++ drop count large))
read_sent_example =
    read_sent (holding arrived) refl (holding-IsRing arrived) info info nine large 9 16 []
      info-IsMsgInfo (omega arith) (omega arith) (omega arith) (holding-contents arrived)

-- PROP_SEG 5, PHASE_SEG1 8 and PHASE_SEG2 4: 14 of 18 quanta.
abbrev segments : ℕ
segments = 0x4_08_05

derive_sample_pct_lem_example :
    (◌≢◌ {A = ℕ} 4 0
        × (derive_sample_pct segments 80 < 100)
        × (derive_sample_pct segments 80 * 18 ≤ 14 * 100)
        × (14 * 100 < (derive_sample_pct segments 80 + 1) * 18)
      ⊎ ◌≡◌ {A = ℕ} 4 0 × (derive_sample_pct segments 80 ≡ 80))
derive_sample_pct_lem_example = derive_sample_pct_lem segments 80
