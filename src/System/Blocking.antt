-- ===== src/System/Blocking.antt =====
-- A blocking request from `submitBlocking` through the server and back.
use inter_process_communicat.Base.{ℕ, ◌<◌, ◌≡◌, refl, ◌∙◌, true, [], ◌∷◌, some, none, defined}
use inter_process_communicat.Base.Eq.{bytes_eq}
use inter_process_communicat.Base.Dict.{find}
use inter_process_communicat.Protocol.{
  Bytes, Status, Result, value_not_set, Payload, payload_not_set, math, str, blocking,
  SubmitRequest, SubmitResponse, submit_resp, ec_success,
}
use inter_process_communicat.Operations.{execute}
use inter_process_communicat.Caps.{client_has_capability_for}
use inter_process_communicat.Caps.Laws.{Granted, client_has_capability_for_iff}
use inter_process_communicat.Runner.{Runner}
use inter_process_communicat.Runner.Submit
use inter_process_communicat.Runner.Submit.{run_blocking, run_mode, mutable_result}
use inter_process_communicat.Runner.Handle
use inter_process_communicat.Runner.Handle.{run_impl, holding}
use inter_process_communicat.Server.{Application, Codec, Round, more, last}
use inter_process_communicat.Server.Envelope.{handle_envelope}
use inter_process_communicat.Server.Loop.{
  again, Rounded, send_response, respond, later_message, on_message, on_received, body,
}
use inter_process_communicat.Client.{ClientCodec, Socket, Exchange, returned}
use inter_process_communicat.Client.Transport.{
  send_frame, send_envelope, read_frame, take_message, receive, recv_envelope,
}
use inter_process_communicat.Client.Submit.{
  with_mode, from_submit, received_submit, after_blocking, submit_blocking,
}
use inter_process_communicat.System.{Agree}
use inter_process_communicat.System.Relay.{rounded, after_sending, IsRelayed}

run_blocking-execute : (p : Payload) → run_blocking p value_not_set ≡ execute p
unfolding run_blocking execute
run_blocking-execute payload_not_set = refl
run_blocking-execute (math args) = refl
run_blocking-execute (str args) = refl

abbrev pub outcome : Status → Result → SubmitResponse
outcome status result = record { status = status; ticket = none; result = some result }

module _ (ours : ClientCodec) (theirs : Codec) (agree : Agree ours theirs) where
  -- A registered client submits a blocking request that its mask grants, and that evaluates to a status
  -- and a result. Then the server, in whatever state its runner is, answers in one round with one
  -- message, and keeps the runner; and the client, if this answer comes in before the timeout and no
  -- message of before is left, returns EC_SUCCESS with that status and that result.
  pub blocking_call-Answered :
      (app : Application) (r : Runner) (id : Bytes) (caps : ℕ) (req : SubmitRequest)
      (status : Status) (result : Result) (sending reply : Bytes) (round : Round)
      (out : SubmitResponse) (x : Exchange) (s : Socket)
      → app.algo_runner.impl ≡ some r
      → find id app.client_exec_caps ≡ some caps
      → caps < 256
      → Granted req.payload caps
      → execute req.payload ≡ defined (status, result)
      → IsRelayed ours theirs id
          (with_mode req blocking)
          (submit_resp (outcome status result))
          sending
          reply
          round
          x
      → s.inbox ≡ []
      → ((y : Rounded) × (body theirs app round ≡ defined (some y))
          × (y.frames ≡ more id ∷ last reply ∷ [])
          × (y.then_do ≡ again)
          × (y.app.algo_runner.impl ≡ some r))
        × (submit_blocking ours req out x s
            ≡ returned ec_success (after_sending sending s) (outcome status result))
  unfolding body on_received on_message later_message handle_envelope Handle.run run_impl Submit.run
      run_mode respond send_response submit_blocking after_blocking send_envelope send_frame
      recv_envelope receive take_message read_frame received_submit from_submit
  blocking_call-Answered app r id caps req status result sending reply round out x s has known small
        granted value net empty =
      (
        (
          rounded app id reply (holding app.algo_runner r),
          rw
              (
                net.arrives, known, understood, able, has, evaluated, net.answered, net.first,
                net.second,
              )
              refl,
          refl,
          refl,
          refl,
        ),
        rw (net.encoded, net.goes, net.calm, empty, net.comes, back) refl,
      )
    where
      understood : theirs.parse_request sending ≡ some (with_mode req blocking)
      understood = agree.request (with_mode req blocking) sending net.encoded

      back : ours.parse_response reply ≡ some (submit_resp (outcome status result))
      back = agree.response (submit_resp (outcome status result)) reply net.answered

      able : client_has_capability_for req.payload caps ≡ true
      able = (client_has_capability_for_iff req.payload caps small).1 granted

      evaluated : run_blocking req.payload value_not_set ≡ defined (status, result)
      evaluated = run_blocking-execute req.payload ∙ value
