-- ===== src/Runner/DistinctTests.antt =====
-- Two requests for the same product at the same time.
use inter_process_communicat.Base.{◌≡◌, ◌≢◌, refl, arith, [], ◌∷◌, defined}
use inter_process_communicat.Protocol.{SubmitResponse, new_submit_response}
use inter_process_communicat.Runner.{Reply, before_wait, testing}
use inter_process_communicat.Runner.Submit.{run}
use inter_process_communicat.Runner.History.{here}
use inter_process_communicat.Runner.Tickets.{run-Issued}
use inter_process_communicat.Runner.Distinct.{calls, run-tickets_differ}
use inter_process_communicat.Runner.Tests.{
  with_worker, submitted, first_job, six_by_seven, submit_reply, submit,
}

-- The same request again, when the first is queued.
again_submit :
    (out : Reply SubmitResponse) × (run
        (submitted first_job (0 ∷ []) testing)
        1000
        0
        six_by_seven
        new_submit_response
      ≡ defined out)
again_submit =
    let (out, h, _) =
      run-Issued (submitted first_job (0 ∷ []) testing) 1000 0 six_by_seven new_submit_response refl
        refl in
    (out, h)

run-tickets_differ_example : again_submit.0.response.ticket ≢ submit_reply.response.ticket
unfolding calls
run-tickets_differ_example =
    run-tickets_differ (with_worker before_wait) (submitted first_job (0 ∷ []) testing) 1000 1000 0
      0 six_by_seven six_by_seven new_submit_response new_submit_response submit_reply
      again_submit.0 refl refl refl refl submit here (omega arith) again_submit.1
