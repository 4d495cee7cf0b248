-- ===== src/System/Delivery.antt =====
-- A request that a client submits without waiting, its execution by the workers, and its `get`.
use inter_process_communicat.Base.{
  ℕ, ◌+◌, ◌≤◌, ◌<◌, ◌≡◌, ◌≢◌, refl, sym, ap, ◌∙◌, subst, true, false, [], ◌∷◌, some, defined,
  length,
}
use inter_process_communicat.Base.Eq.{nat_eq, bytes_eq}
use inter_process_communicat.Base.Dict.{find}
use inter_process_communicat.Protocol.{
  Bytes, Status, Result, nonblocking, SubmitRequest, SubmitResponse, submit_resp,
  new_submit_response, GetWaitMode, no_wait, wait_up_to, wait_unnamed, GetRequest, get_req,
  get_resp, new_get_response, ec_success,
}
use inter_process_communicat.Caps.Laws.{Granted}
use inter_process_communicat.Operations.{execute}
use inter_process_communicat.Runner.{Runner, new_runner, Reply}
use inter_process_communicat.Runner.Submit
use inter_process_communicat.Runner.Submit.{has_payload, enqueue}
use inter_process_communicat.Runner.Handle.{holding}
use inter_process_communicat.Runner.Cases.{Anytime}
use inter_process_communicat.Runner.History.{Reach}
use inter_process_communicat.Runner.Progress.{IsExecutable}
use inter_process_communicat.Runner.Effort.{work_left}
use inter_process_communicat.Runner.Rounds.{Rounds}
use inter_process_communicat.Server.{Application, Codec, Round, more, last}
use inter_process_communicat.Server.Loop.{Ran, run}
use inter_process_communicat.Client.{ClientCodec, Socket, Exchange, returned}
use inter_process_communicat.Client.Submit.{with_mode, get_request, submit_nonblocking, get_result}
use inter_process_communicat.System.{Agree}
use inter_process_communicat.Runner.Delivery.{pool-delivers}
use inter_process_communicat.System.TwoRounds.{two_rounds}
use inter_process_communicat.System.Relay.{after_sending, IsRelayed}
use inter_process_communicat.System.Nonblocking.{Granted-has_payload, nonblocking_call}
use inter_process_communicat.System.Get.{get_call}

-- The message of `getResult` for a ticket.
abbrev asked : ℕ → GetWaitMode → ℕ → GetRequest
asked n no_wait ms = record { ticket = some n; wait_mode = no_wait; timeout_ms = 0 }
asked n wait_up_to ms = record { ticket = some n; wait_mode = wait_up_to; timeout_ms = ms }
asked n (wait_unnamed k) ms = record { ticket = some n; wait_mode = wait_unnamed k; timeout_ms = 0 }

get_request-asked :
    (n : ℕ) (mode : GetWaitMode) (ms : ℕ) → get_request n mode ms ≡ get_req (asked n mode ms)
get_request-asked n no_wait ms = refl
get_request-asked n wait_up_to ms = refl
get_request-asked n (wait_unnamed k) ms = refl

asked-mode : (n : ℕ) (mode : GetWaitMode) (ms : ℕ) → (asked n mode ms).wait_mode ≡ mode
asked-mode n no_wait ms = refl
asked-mode n wait_up_to ms = refl
asked-mode n (wait_unnamed k) ms = refl

asked-ticket : (n : ℕ) (mode : GetWaitMode) (ms : ℕ) → (asked n mode ms).ticket ≡ some n
asked-ticket n no_wait ms = refl
asked-ticket n wait_up_to ms = refl
asked-ticket n (wait_unnamed k) ms = refl

-- A server in its loop, whose pool runs with at least one thread and holds no request that is undefined,
-- and a client that is registered with `caps`.
pub record IsServing (seq : ℕ) (app : Application) (r : Runner) (id : Bytes) (caps : ℕ)
    : Type 0 where
  pub reach : Reach Anytime (new_runner seq) r
  pub sane : IsExecutable r
  pub on : r.running ≡ true
  pub staffed : 1 ≤ length r.workers
  pub live : app.initialized ≡ true
  pub has : app.algo_runner.impl ≡ some r
  pub known : find id app.client_exec_caps ≡ some caps
  pub small : caps < 256

module _ (ours : ClientCodec) (theirs : Codec) (agree : Agree ours theirs) where
  -- A registered client submits, without waiting, a request that its mask grants and that evaluates to
  -- a status and a result, to a server whose pool runs with at least one thread, and of which no request
  -- is undefined; then it asks for the ticket, with NO_WAIT or WAIT_UP_TO. If the network carries both
  -- messages and their answers, and before the second the workers go through as many rounds as there
  -- was work left and three more, whatever else is queued and whoever takes the job, then the server
  -- sends exactly the two answers, the first call returns EC_SUCCESS with the ticket, and the second
  -- EC_SUCCESS with that status and result.
  pub delivery :
      (seq k : ℕ) (app : Application) (r : Runner) (id : Bytes) (caps n : ℕ) (req : SubmitRequest)
      (mode : GetWaitMode) (ms : ℕ) (status : Status) (result : Result) (out : Reply SubmitResponse)
      (asking told fetching reply : Bytes) (first second : Round) (x y : Exchange) (s : Socket)
      → IsServing seq app r id caps
      → execute req.payload ≡ defined (status, result)
      → Granted req.payload caps
      → Submit.run r first.env.now first.env.pick
          (record req { mode = nonblocking })
          new_submit_response
        ≡ defined out
      → out.response.ticket ≡ some n
      → work_left r + 3 ≤ k
      → first.sig_stop ≡ false
      → first.others ≡ []
      → second.sig_stop ≡ false
      → Rounds (length r.workers) k second.others
      → ((u : ℕ) → mode ≢ wait_unnamed u)
      → IsRelayed ours theirs id
          (with_mode req nonblocking)
          (submit_resp out.response)
          asking
          told
          first
          x
      → IsRelayed ours theirs id
          (get_request n mode ms)
          (get_resp (record { status = status; result = some result }))
          fetching
          reply
          second
          y
      → s.inbox ≡ []
      → ((served : Ran) × (run theirs app (first ∷ second ∷ []) ≡ defined served)
          × (served.frames ≡ more id ∷ last told ∷ more id ∷ last reply ∷ []))
        × (submit_nonblocking ours req new_submit_response x s
            ≡ returned ec_success (after_sending asking s) out.response)
        × (get_result ours n mode ms new_get_response y (after_sending asking s)
            ≡ returned ec_success
                (after_sending fetching (after_sending asking s))
                (record { status = status; result = some result }))
  delivery seq k app r id caps n req mode ms status result out asking told fetching reply first
        second x y s serving evaluates granted ran tells few calm idle quiet fair named net₁ net₂
        empty =
      let (q, got, worked, gets, answer) =
        pool-delivers seq k r first.env.now first.env.pick (record req { mode = nonblocking })
          (asked n mode ms) status result second.others second.env.waiting serving.reach
          serving.sane serving.on serving.staffed evaluates refl
          (Granted-has_payload req.payload caps granted) ran (asked-ticket n mode ms ∙ sym tells)
          few fair (λ u e. named u (sym (asked-mode n mode ms) ∙ e)) in
      let (server₁, client₁) =
        nonblocking_call ours theirs agree (record app { algo_runner = holding app.algo_runner r })
          r id caps req asking told first out x s refl serving.known serving.small granted ran net₁
          empty in
      let (server₂, client₂) =
        get_call ours theirs agree (record app { algo_runner = holding app.algo_runner q }) q id
          caps n mode ms (asked n mode ms) got fetching reply second y (after_sending asking s) refl
          serving.known (get_request-asked n mode ms) gets
          (subst
            (λ a.
              IsRelayed ours theirs id (get_request n mode ms) (get_resp a) fetching reply second y)
            (sym answer) net₂)
          refl in
      (
        two_rounds theirs app r out.runner q got.runner id told reply first second serving.live
            serving.has calm idle quiet server₁ worked server₂,
        client₁,
        client₂ ∙ ap (returned ec_success (after_sending fetching (after_sending asking s))) answer,
      )
