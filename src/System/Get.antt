-- ===== src/System/Get.antt =====
-- The `get` for the ticket of a non-blocking request, from the client through the server and back.
use inter_process_communicat.Base.{ℕ, ◌≡◌, refl, sym, ap, ◌∙◌, subst, true, [], ◌∷◌, some, defined}
use inter_process_communicat.Base.Eq.{bytes_eq}
use inter_process_communicat.Base.Dict.{find}
use inter_process_communicat.Protocol.{
  Bytes, nonblocking, SubmitRequest, SubmitResponse, new_submit_response, GetWaitMode, no_wait,
  wait_up_to, wait_unnamed, GetRequest, GetResponse, get_req, get_resp, new_get_response,
  ec_success,
}
use inter_process_communicat.Runner.{Runner, Reply, new_runner}
use inter_process_communicat.Runner.Submit
use inter_process_communicat.Runner.Submit.{has_payload}
use inter_process_communicat.Runner.Get
use inter_process_communicat.Runner.Get.{req_id}
use inter_process_communicat.Runner.Handle
use inter_process_communicat.Runner.Handle.{run_impl, get_impl, holding}
use inter_process_communicat.Runner.Answer.{Answer}
use inter_process_communicat.Runner.History.{Reach}
use inter_process_communicat.Runner.Cases.{Anytime}
use inter_process_communicat.Runner.Tickets.{NotReissued, ticket-Answer}
use inter_process_communicat.Server.{Application, Codec, Round, more, last}
use inter_process_communicat.Server.Envelope.{handle_envelope}
use inter_process_communicat.Server.Loop.{
  again, Rounded, send_response, respond, later_message, on_message, on_received, body,
}
use inter_process_communicat.Client.{ClientCodec, Socket, Exchange, returned}
use inter_process_communicat.Client.Transport.{
  send_frame, send_envelope, read_frame, take_message, receive, recv_envelope,
}
use inter_process_communicat.Client.Submit.{
  get_request, from_get, received_get, after_get, get_result,
}
use inter_process_communicat.System.{Agree}
use inter_process_communicat.System.Relay.{rounded, after_sending, IsRelayed}

asks_ticket :
    (mode : GetWaitMode) (n ms : ℕ) (g : GetRequest)
    → get_request n mode ms ≡ get_req g
    → g.ticket ≡ some n
asks_ticket no_wait n ms g e = cc
asks_ticket wait_up_to n ms g e = cc
asks_ticket (wait_unnamed k) n ms g e = cc

module _ (ours : ClientCodec) (theirs : Codec) (agree : Agree ours theirs) where
  -- A `get` that the runner answers is relayed as it is.
  pub get_call :
      (app : Application) (r : Runner) (id : Bytes) (caps n : ℕ) (mode : GetWaitMode) (ms : ℕ)
      (g : GetRequest) (out : Reply GetResponse) (sending reply : Bytes) (round : Round)
      (x : Exchange) (s : Socket)
      → app.algo_runner.impl ≡ some r
      → find id app.client_exec_caps ≡ some caps
      → get_request n mode ms ≡ get_req g
      → Get.get r round.env.waiting g new_get_response ≡ defined (some out)
      → IsRelayed ours theirs id
          (get_request n mode ms)
          (get_resp out.response)
          sending
          reply
          round
          x
      → s.inbox ≡ []
      → (body theirs app round
          ≡ defined (some (rounded app id reply (holding app.algo_runner out.runner))))
        × (get_result ours n mode ms new_get_response x s
            ≡ returned ec_success (after_sending sending s) out.response)
  unfolding body on_received on_message later_message handle_envelope Handle.get get_impl respond
      send_response get_result after_get send_envelope send_frame recv_envelope receive take_message
      read_frame received_get from_get
  get_call app r id caps n mode ms g out sending reply round x s has known asks value net empty = (
    rw (net.arrives, known, understood, has, value, net.answered, net.first, net.second) refl,
    rw (net.encoded, net.goes, net.calm, empty, net.comes, back) refl,
  )
    where
      understood : theirs.parse_request sending ≡ some (get_req g)
      understood = agree.request (get_request n mode ms) sending net.encoded ∙ ap some asks

      back : ours.parse_response reply ≡ some (get_resp out.response)
      back = agree.response (get_resp out.response) reply net.answered

  -- A client asks with `getResult` for the ticket of a non-blocking request that the runner of the server
  -- took, after any further operations and turns of the workers in which no request got the same
  -- number. If the `get` of the runner returns, then the server answers in one round with one message;
  -- and the client, if this answer comes in before the timeout and no message of before is left, returns
  -- EC_SUCCESS with what the runner answered: that the ticket or the wait mode is unknown, or
  -- NOT_FINISHED, or the status and the result that the request evaluates to.
  pub get_call-Answered :
      (seq : ℕ) (r₀ r : Runner) (now pick : ℕ) (req : SubmitRequest) (issued : Reply SubmitResponse)
      (app : Application) (id : Bytes) (caps n : ℕ) (mode : GetWaitMode) (ms : ℕ) (g : GetRequest)
      (out : Reply GetResponse) (sending reply : Bytes) (round : Round) (x : Exchange) (s : Socket)
      → Reach Anytime (new_runner seq) r₀
      → req.mode ≡ nonblocking
      → has_payload req.payload ≡ true
      → Submit.run r₀ now pick req new_submit_response ≡ defined issued
      → issued.response.ticket ≡ some n
      → Reach (NotReissued n) issued.runner r
      → app.algo_runner.impl ≡ some r
      → find id app.client_exec_caps ≡ some caps
      → get_request n mode ms ≡ get_req g
      → Get.get r round.env.waiting g new_get_response ≡ defined (some out)
      → IsRelayed ours theirs id
          (get_request n mode ms)
          (get_resp out.response)
          sending
          reply
          round
          x
      → s.inbox ≡ []
      → ((y : Rounded) × (body theirs app round ≡ defined (some y))
          × (y.frames ≡ more id ∷ last reply ∷ [])
          × (y.then_do ≡ again)
          × (y.app.algo_runner.impl ≡ some out.runner))
        × (get_result ours n mode ms new_get_response x s
            ≡ returned ec_success (after_sending sending s) out.response)
        × Answer n req new_get_response out
  get_call-Answered seq r₀ r now pick req issued app id caps n mode ms g out sending reply round x s
        before nonblock payload ran told after has known asks value net empty =
      let (server, client) =
        get_call app r id caps n mode ms g out sending reply round x s has known asks value net
          empty in
      let same = ap req_id told in
      let found =
        ticket-Answer seq r₀ r now pick req new_submit_response round.env.waiting g before nonblock
          payload ran (subst (λ k. Reach (NotReissued k) issued.runner r) (sym same) after)
          (asks_ticket mode n ms g asks ∙ sym told) value in
      (
        (rounded app id reply (holding app.algo_runner out.runner), server, refl, refl, refl),
        client,
        subst (λ k. Answer k req new_get_response out) same found,
      )
