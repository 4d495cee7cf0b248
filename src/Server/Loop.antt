-- ===== src/Server/Loop.antt =====
-- `Application::run` of sources/server/application.cpp, a round of its loop at a time.
use inter_process_communicat.Base.{
  ℕ, ◌%◌, ◌^◌, Bool, true, false, not, ◌&&◌, Option, none, some, List, [], ◌∷◌, ◌++◌, Outcome,
  defined, ◌>>=◌, if◌then◌else◌,
}
use inter_process_communicat.Base.Int.{ℤ}
use inter_process_communicat.Base.Eq.{bytes_eq}
use inter_process_communicat.Base.Dict.{find, assign}
use inter_process_communicat.Protocol.{
  Bytes, FirstHandshake, EnvelopeReq, EnvelopeResp, ec_success, ec_failure,
}
use inter_process_communicat.Caps.{verify_exec_caps}
use inter_process_communicat.Runner.Handle.{Handled, work}
use inter_process_communicat.Server.{
  Application, Codec, SendResult, sent, not_sent, send_throws, Received, message, nothing,
  receive_throws, Round, Frame, more, last,
}
use inter_process_communicat.Server.Envelope.{bad_get, handle_envelope}

-- How a round ends: `continue` or its end, the `break` of a handler, or a `return`.
pub data Next : Type 0 where
  again leave : Next
  return_code : ℤ → Next

pub record Rounded : Type 0 where
  pub app : Application
  pub frames : List Frame
  pub then_do : Next

-- What a call of `run` did: the frames that the socket took, and the code, if it returned.
pub record Ran : Type 0 where
  pub app : Application
  pub frames : List Frame
  pub code : Option ℤ

-- How the loop goes on after a round; `rest` is the loop on the rounds that come.
unfoldable pub proceed_as : Next → Rounded → (Application → Outcome Ran) → Outcome Ran
proceed_as again x rest = rest x.app >>= λ y.
    defined (record { app = y.app; frames = x.frames ++ y.frames; code = y.code })
proceed_as leave x rest =
    defined (record { app = x.app; frames = x.frames; code = some ec_success })
proceed_as (return_code c) x rest =
    defined (record { app = x.app; frames = x.frames; code = some c })

unfoldable pub proceed : Application → Option Rounded → (Application → Outcome Ran) → Outcome Ran
proceed app none rest = defined (record { app = app; frames = []; code = none })
proceed app (some x) rest = proceed_as x.then_do x rest

-- `recvMsgs.back()`.
abbrev pub back : Bytes → List Bytes → Bytes
back id [] = id
back id (f ∷ fs) = back f fs

-- The frame that a send adds.
abbrev pub frame_of : SendResult → Frame → List Frame
frame_of sent f = f ∷ []
frame_of not_sent f = []
frame_of (send_throws e) f = []

abbrev pub throws : SendResult → Bool
throws (send_throws e) = true
throws sent = false
throws not_sent = false

-- `sendBadResponse`: the frames, and whether it threw. A frame that is not sent is only logged.
unfoldable pub send_bad_response : Bytes → Bytes → SendResult → SendResult → List Frame × Bool
send_bad_response id buf first second =
    if throws first
    then ([], true)
    else (frame_of first (more id) ++ frame_of second (last buf), throws second)

-- The two sends of a response, each under RETURN_IF_ERROR.
unfoldable pub send_response : Bytes → Bytes → SendResult → SendResult → List Frame × Next
send_response id body (send_throws e) second = ([], leave)
send_response id body not_sent second = ([], return_code ec_failure)
send_response id body sent (send_throws e) = (more id ∷ [], leave)
send_response id body sent not_sent = (more id ∷ [], return_code ec_failure)
send_response id body sent sent = (more id ∷ last body ∷ [], again)

-- `std::string buf; err.SerializeToString(&buf)`.
abbrev pub or_empty : Option Bytes → Bytes
or_empty none = []
or_empty (some b) = b

-- A `static_cast<uint8_t>`.
abbrev pub to_uint8 : ℕ → ℕ
to_uint8 n = n % 2 ^ 8

module _ (codec : Codec) where
  abbrev pub bad_response : Bytes
  bad_response = or_empty (codec.serialize_response bad_get)

  -- `sendBadResponse(); continue;` in the state `app`.
  unfoldable pub refuse : Application → Application → Bytes → Round → Rounded
  refuse app thrown id round =
      let (frames, threw) = send_bad_response id bad_response round.first_send round.second_send in
      if threw
      then record { app = thrown; frames = frames; then_do = leave }
      else record { app = app; frames = frames; then_do = again }

  -- The first message of a client.
  unfoldable pub first_contact : Application → Bytes → Option FirstHandshake → Round → Rounded
  first_contact app id none round = refuse app app id round
  first_contact app id (some handshake) round =
      let flags = to_uint8 handshake.exec_functions in
      let registered = record app { client_exec_caps = assign id flags app.client_exec_caps } in
      if verify_exec_caps flags
      then record { app = registered; frames = []; then_do = again }
      else refuse registered app id round

  -- The response to a request, sent if it can be serialized.
  unfoldable pub respond : Application → Bytes → Option Bytes → Round → Rounded
  respond app id none round = record { app = app; frames = []; then_do = again }
  respond app id (some body) round =
      let (frames, next) = send_response id body round.first_send round.second_send in
      record { app = app; frames = frames; then_do = next }

  abbrev pub after_handling :
      Application → Bytes → Round → Option (Handled EnvelopeResp) → Option Rounded
  after_handling app id round none = none
  after_handling app id round (some x) = some (
      respond (record app { algo_runner = x.handle }) id (codec.serialize_response x.response)
        round)

  -- A message of a client that is registered with `caps`.
  unfoldable pub later_message :
      Application → Bytes → ℕ → Option EnvelopeReq → Round → Outcome (Option Rounded)
  later_message app id caps none round = defined (some (refuse app app id round))
  later_message app id caps (some request) round =
      handle_envelope app.algo_runner request caps round.env >>= λ o.
      defined (after_handling app id round o)

  unfoldable pub on_message :
      Application → Bytes → Bytes → Option ℕ → Round → Outcome (Option Rounded)
  on_message app id payload none round =
      defined (some (first_contact app id (codec.parse_handshake payload) round))
  on_message app id payload (some caps) round =
      later_message app id caps (codec.parse_request payload) round

  unfoldable pub on_received : Application → Received → Round → Outcome (Option Rounded)
  on_received app nothing round =
      defined (some (record { app = app; frames = []; then_do = again }))
  on_received app (receive_throws e) round =
      defined (some (record { app = app; frames = []; then_do = leave }))
  on_received app (message id frames) round =
      on_message app id (back id frames) (find id app.client_exec_caps) round

  -- The body of the loop; `none` where a `get` still waits.
  unfoldable pub body : Application → Round → Outcome (Option Rounded)
  body app round = on_received app round.received round

  -- The turns of the workers, and the body.
  unfoldable pub iterate : Application → Round → Outcome (Option Rounded)
  iterate app round =
      work app.algo_runner round.others >>= λ h. body (record app { algo_runner = h }) round

  unfoldable pub run_loop : Application → List Round → Outcome Ran
  run_loop app [] = defined (record { app = app; frames = []; code = none })
  run_loop app (round ∷ rounds) =
      let next = iterate app round >>= λ o. proceed app o (λ a. run_loop a rounds) in
      if app.initialized && not round.sig_stop
      then next
      else defined (record { app = app; frames = []; code = some ec_success })

  -- `Application::run`; the code is `none` if the rounds end before the loop does.
  unfoldable pub run : Application → List Round → Outcome Ran
  run app rounds =
      if app.initialized
      then run_loop app rounds
      else defined (record { app = app; frames = []; code = some ec_failure })
