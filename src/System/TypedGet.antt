-- ===== src/System/TypedGet.antt =====
-- A `get` that is typed at a client, the server that answers it, and what the client prints.
use inter_process_communicat.Base.{ℕ, ◌≡◌, refl, ap, ◌∙◌, ◌++◌, true, [], ◌∷◌, some, defined}
use inter_process_communicat.Base.Eq.{bytes_eq}
use inter_process_communicat.Base.Dict.{Dict, find}
use inter_process_communicat.Protocol.{
  Bytes, nonblocking, SubmitRequest, SubmitResponse, new_submit_response, wait_up_to, GetResponse,
  get_resp, new_get_response,
}
use inter_process_communicat.Runner.{Runner, Reply, new_runner}
use inter_process_communicat.Runner.Submit
use inter_process_communicat.Runner.Submit.{has_payload}
use inter_process_communicat.Runner.Get
use inter_process_communicat.Runner.Get.{req_id}
use inter_process_communicat.Runner.History.{Reach}
use inter_process_communicat.Runner.Cases.{Anytime}
use inter_process_communicat.Runner.Tickets.{NotReissued}
use inter_process_communicat.Server.{Application, Codec, Round, more, last}
use inter_process_communicat.Server.Loop.{again, Rounded, body}
use inter_process_communicat.Client.{ClientCodec}
use inter_process_communicat.Client.Submit.{get_request}
use inter_process_communicat.System.{Agree}
use inter_process_communicat.System.Relay.{after_sending, IsRelayed}
use inter_process_communicat.Base.{◌^◌, ◌<◌}
use inter_process_communicat.Base.Eq.{nat_eq}
use inter_process_communicat.Base.Text.{codes, decimal}
use inter_process_communicat.Client.Tokens.{insensitive_equals}
use inter_process_communicat.Client.Commands.Laws.{IsWord, spaced}
use inter_process_communicat.Client.Session.{Session, Prompt, goes_on, after_get_call}
use inter_process_communicat.Client.Loop.{on_line}
use inter_process_communicat.Client.Loop.Commands.{on_line-get}
use inter_process_communicat.System.PrintedGet.{Told, Answer-Told}
use inter_process_communicat.System.Get.{get_call-Answered}

module _ (ours : ClientCodec) (theirs : Codec) (agree : Agree ours theirs) where
  -- A user types `get`, the decimal number of a pending ticket, `wait`, and a number of
  -- milliseconds, the words in any case. The ticket is that of a non-blocking request that the runner of the server took, after
  -- which no request got the same number. If the `get` of the runner returns, then the server answers in
  -- one round with one message; and the client, if this answer comes in before the timeout and no message
  -- of before is left, goes on, and has printed one of three texts: that of ERROR_INVALID_INPUT without a
  -- result, after which it forgets the ticket; that of NOT_FINISHED, after which client and server keep
  -- the ticket; or the line of the status and that of the result that the request evaluates to, after
  -- which client and server forget the ticket.
  pub typed_get-Answered :
      (seq : ℕ) (r₀ r : Runner) (now pick : ℕ) (req : SubmitRequest) (issued : Reply SubmitResponse)
      (app : Application) (id : Bytes) (caps n : ℕ) (w v : Bytes) (ms : ℕ) (out : Reply GetResponse)
      (sending reply : Bytes) (round : Round) (p : Prompt) (t : Session)
      → Reach Anytime (new_runner seq) r₀
      → req.mode ≡ nonblocking
      → has_payload req.payload ≡ true
      → Submit.run r₀ now pick req new_submit_response ≡ defined issued
      → issued.response.ticket ≡ some n
      → Reach (NotReissued n) issued.runner r
      → app.algo_runner.impl ≡ some r
      → find id app.client_exec_caps ≡ some caps
      → Get.get r round.env.waiting
          (record { ticket = some n; wait_mode = wait_up_to; timeout_ms = ms })
          new_get_response
        ≡ defined (some out)
      → IsRelayed ours theirs id
          (get_request n wait_up_to ms)
          (get_resp out.response)
          sending
          reply
          round
          p.exchange
      → t.socket.inbox ≡ []
      → IsWord 31 w
      → insensitive_equals w (codes "get") ≡ true
      → IsWord 31 v
      → insensitive_equals v (codes "wait") ≡ true
      → n < 2 ^ 64
      → ms < 2 ^ 32
      → find n t.pending ≡ some n
      → ((y : Rounded) × (body theirs app round ≡ defined (some y))
          × (y.frames ≡ more id ∷ last reply ∷ [])
          × (y.then_do ≡ again)
          × (y.app.algo_runner.impl ≡ some out.runner))
        × ((text : Bytes) × (kept : Dict ℕ ℕ) × (on_line ours
                (spaced w (spaced (decimal n) (spaced v (decimal ms))))
                p
                t
              ≡ defined (
                  goes_on (record t {
                    socket = after_sending sending t.socket;
                    output = t.output ++ text;
                    pending = kept;
                  })))
            × Told n req out text t.pending kept)
  unfolding after_get_call
  typed_get-Answered seq r₀ r now pick req issued app id caps n w v ms out sending reply round p t
        before nonblock payload ran told after has known value net empty hw get hv wait small brief
        pending =
      let (server, client, found) =
        get_call-Answered ours theirs agree seq r₀ r now pick req issued app id caps n wait_up_to ms
          (record { ticket = some n; wait_mode = wait_up_to; timeout_ms = ms }) out sending reply
          round p.exchange t.socket before nonblock payload ran told after has known refl value net
          empty in
      let (plain, waiting) = on_line-get ours w v n ms n p t hw get hv wait small brief pending in
      let (text, kept, printed, told_text) =
        Answer-Told n req out (record t { socket = after_sending sending t.socket }) found in
      (
        server,
        (
          text,
          kept,
          waiting
              ∙ ap (λ c. defined (after_get_call n t c)) client
              ∙ ap (λ s. defined (goes_on s)) printed,
          told_text,
        ),
      )
