-- ===== src/System/Nonblocking.antt =====
-- A non-blocking request from `submitNonBlocking` through the server and back.
use inter_process_communicat.Base.{
  ℕ, ◌<◌, ◌≡◌, refl, sym, ◌∙◌, subst, true, defined-injective, [], ◌∷◌, some, defined,
}
use inter_process_communicat.Base.Eq.{bytes_eq}
use inter_process_communicat.Base.Dict.{find}
use inter_process_communicat.Protocol.{
  Bytes, Payload, payload_not_set, math, str, nonblocking, SubmitRequest, SubmitResponse,
  submit_resp, new_submit_response, ec_success,
}
use inter_process_communicat.Caps.{client_has_capability_for}
use inter_process_communicat.Caps.Laws.{Granted, client_has_capability_for_iff}
use inter_process_communicat.Runner.{Runner, Reply}
use inter_process_communicat.Runner.Submit
use inter_process_communicat.Runner.Submit.{has_payload}
use inter_process_communicat.Runner.Handle
use inter_process_communicat.Runner.Handle.{run_impl, get_impl, holding}
use inter_process_communicat.Runner.Tickets.{Issued, run-Issued}
use inter_process_communicat.Server.{Application, Codec, Round, more, last}
use inter_process_communicat.Server.Envelope.{handle_envelope}
use inter_process_communicat.Server.Loop.{
  again, Rounded, send_response, respond, later_message, on_message, on_received, body,
}
use inter_process_communicat.Client.{ClientCodec, Socket, Exchange, returned}
use inter_process_communicat.Client.Transport.{
  send_frame, send_envelope, read_frame, take_message, receive, recv_envelope,
}
use inter_process_communicat.Client.Submit.{
  with_mode, from_submit, received_submit, after_nonblocking, submit_nonblocking,
}
use inter_process_communicat.System.{Agree}
use inter_process_communicat.System.Relay.{rounded, after_sending, IsRelayed}

pub Granted-has_payload : (p : Payload) (caps : ℕ) → Granted p caps → has_payload p ≡ true
Granted-has_payload payload_not_set caps (bit, e, set) = absurd (cc)
Granted-has_payload (math args) caps g = refl
Granted-has_payload (str args) caps g = refl

module _ (ours : ClientCodec) (theirs : Codec) (agree : Agree ours theirs) where
  -- A non-blocking request that the runner takes is relayed as it is.
  pub nonblocking_call :
      (app : Application) (r : Runner) (id : Bytes) (caps : ℕ) (req : SubmitRequest)
      (sending reply : Bytes) (round : Round) (out : Reply SubmitResponse) (x : Exchange)
      (s : Socket)
      → app.algo_runner.impl ≡ some r
      → find id app.client_exec_caps ≡ some caps
      → caps < 256
      → Granted req.payload caps
      → Submit.run r round.env.now round.env.pick
          (record req { mode = nonblocking })
          new_submit_response
        ≡ defined out
      → IsRelayed ours theirs id
          (with_mode req nonblocking)
          (submit_resp out.response)
          sending
          reply
          round
          x
      → s.inbox ≡ []
      → (body theirs app round
          ≡ defined (some (rounded app id reply (holding app.algo_runner out.runner))))
        × (submit_nonblocking ours req new_submit_response x s
            ≡ returned ec_success (after_sending sending s) out.response)
  unfolding body on_received on_message later_message handle_envelope Handle.run run_impl respond
      send_response submit_nonblocking after_nonblocking send_envelope send_frame recv_envelope
      receive take_message read_frame received_submit from_submit
  nonblocking_call app r id caps req sending reply round out x s has known small granted value net
        empty =
      (
        rw (net.arrives, known, understood, able, has, value, net.answered, net.first, net.second)
            refl,
        rw (net.encoded, net.goes, net.calm, empty, net.comes, back) refl,
      )
    where
      understood : theirs.parse_request sending ≡ some (with_mode req nonblocking)
      understood = agree.request (with_mode req nonblocking) sending net.encoded

      back : ours.parse_response reply ≡ some (submit_resp out.response)
      back = agree.response (submit_resp out.response) reply net.answered

      able : client_has_capability_for req.payload caps ≡ true
      able = (client_has_capability_for_iff req.payload caps small).1 granted

  -- A registered client submits a non-blocking request with an operation that its mask grants. Then the
  -- server, in whatever state its runner is, answers in one round with one message; and the client, if
  -- this answer comes in before the timeout and no message of before is left, returns EC_SUCCESS with
  -- NOT_FINISHED and the ticket under which the server has queued the request.
  pub nonblocking_call-Issued :
      (app : Application) (r : Runner) (id : Bytes) (caps : ℕ) (req : SubmitRequest)
      (sending reply : Bytes) (round : Round) (out : Reply SubmitResponse) (x : Exchange)
      (s : Socket)
      → app.algo_runner.impl ≡ some r
      → find id app.client_exec_caps ≡ some caps
      → caps < 256
      → Granted req.payload caps
      → Submit.run r round.env.now round.env.pick
          (record req { mode = nonblocking })
          new_submit_response
        ≡ defined out
      → IsRelayed ours theirs id
          (with_mode req nonblocking)
          (submit_resp out.response)
          sending
          reply
          round
          x
      → s.inbox ≡ []
      → ((y : Rounded) × (body theirs app round ≡ defined (some y))
          × (y.frames ≡ more id ∷ last reply ∷ [])
          × (y.then_do ≡ again)
          × (y.app.algo_runner.impl ≡ some out.runner))
        × (submit_nonblocking ours req new_submit_response x s
            ≡ returned ec_success (after_sending sending s) out.response)
        × Issued r round.env.now round.env.pick (record req { mode = nonblocking }) out
  nonblocking_call-Issued app r id caps req sending reply round out x s has known small granted
        value net empty =
      let (server, client) =
        nonblocking_call app r id caps req sending reply round out x s has known small granted value
          net empty in
      (
        (rounded app id reply (holding app.algo_runner out.runner), server, refl, refl, refl),
        client,
        issued,
      )
    where
      issued : Issued r round.env.now round.env.pick (record req { mode = nonblocking }) out
      issued =
          let (out₀, ran, i) =
            run-Issued r round.env.now round.env.pick (record req { mode = nonblocking })
              new_submit_response refl (Granted-has_payload req.payload caps granted) in
          subst (Issued r round.env.now round.env.pick (record req { mode = nonblocking }))
            (defined-injective (sym ran ∙ value)) i
