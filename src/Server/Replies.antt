-- ===== src/Server/Replies.antt =====
-- What the server sends in a round, and the code that its loop returns.
use inter_process_communicat.Base.{◌≡◌, ◌≢◌, ◌⊎◌, List, [], ◌∷◌}
use inter_process_communicat.Base.Eq.{bytes_eq}
use inter_process_communicat.Protocol.{Bytes, ec_failure}
use inter_process_communicat.Server.{
  Codec, sent, not_sent, Received, message, nothing, receive_throws, Round, Frame, more, last,
}
use inter_process_communicat.Server.Loop.{Next, again, leave, return_code, Rounded}

-- What a round sends, by the results of its two sends: nothing; or the frame of the identity `id`, that
-- was accepted, and behind it a payload if that was accepted too; or, if the frame of the identity was
-- not accepted, a payload without it.
abbrev pub ReplyTo : Bytes → Round → List Frame → Type 0
ReplyTo id round frames =
    (frames ≡ [])
    ⊎ ((round.first_send ≡ sent) × (round.second_send ≢ sent) × (frames ≡ more id ∷ []))
    ⊎ ((b : Bytes) × (round.first_send ≡ not_sent)
        × (round.second_send ≡ sent)
        × (frames ≡ last b ∷ []))
    ⊎ ((b : Bytes) × (round.first_send ≡ sent)
        × (round.second_send ≡ sent)
        × (frames ≡ more id ∷ last b ∷ []))

-- The code that a round makes the loop return comes from a send that was not accepted.
abbrev pub CodeFrom : Round → Next → Type 0
CodeFrom round again = Unit
CodeFrom round leave = Unit
CodeFrom round (return_code c) =
    (c ≡ ec_failure) × ((round.first_send ≡ not_sent) ⊎ (round.second_send ≡ not_sent))

pub record IsReply (id : Bytes) (round : Round) (x : Rounded) : Type 0 where
  pub reply : ReplyTo id round x.frames
  pub code : CodeFrom round x.then_do

module _ (codec : Codec) where
  -- Who gets the answer of a round.
  abbrev pub Answered : Received → Round → Rounded → Type 0
  Answered (message id frames) round x = IsReply id round x
  Answered nothing round x = (x.frames ≡ []) × (x.then_do ≡ again)
  Answered (receive_throws e) round x = (x.frames ≡ []) × (x.then_do ≡ leave)
