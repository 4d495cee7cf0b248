-- ===== src/Runner/Liveness/Tests.antt =====
-- One worker, one job in the queue, three rounds.
use inter_process_communicat.Base.{◌≡◌, refl, arith, [], ◌∷◌, some, none, defined, length}
use inter_process_communicat.Base.Eq.{nat_eq}
use inter_process_communicat.Base.Dict.{find}
use inter_process_communicat.Protocol.{
  Status, Result, GetResponse, new_submit_response, new_get_response,
}
use inter_process_communicat.Operations.{execute}
use inter_process_communicat.Runner.{testing, before_wait, Runner, Reply}
use inter_process_communicat.Runner.Workers.{turns}
use inter_process_communicat.Runner.Get.{get}
use inter_process_communicat.Runner.History.{here}
use inter_process_communicat.Runner.Tests.{
  with_worker, six_by_seven, first_ticket, first_job, submitted, submit, fetch_first, one_wait,
  waiting-Reach, queued-Reach, submitted-IsExecutable,
}
use inter_process_communicat.Runner.Alert.{IsAlert}
use inter_process_communicat.Runner.Alert.Calls.{Reach-IsAlert}
use inter_process_communicat.Runner.Liveness.Schedules.{three_turns, three_turns-Rounds}
use inter_process_communicat.Runner.Liveness.{AllDone, Rounds-AllDone, ticket-Delivered}

abbrev one_job : Runner
one_job = submitted first_job (0 ∷ []) testing

Reach-IsAlert_example : IsAlert one_job
Reach-IsAlert_example = Reach-IsAlert 0 queued-Reach refl

Rounds-AllDone_example :
    (q : Runner) × (turns one_job three_turns ≡ defined q) × (length q.queue ≡ 0) × AllDone q
Rounds-AllDone_example =
    Rounds-AllDone 0 3 one_job three_turns queued-Reach (submitted-IsExecutable (0 ∷ []) testing)
      refl (omega arith) (omega arith) three_turns-Rounds

found : find first_ticket one_job.jobs ≡ some 0
unfolding find
found = refl

ticket-Delivered_example :
    (q : Runner) × (out : Reply GetResponse) × (status : Status) × (result : Result) × (turns
        one_job three_turns
      ≡ defined q)
    × (get q one_wait fetch_first new_get_response ≡ defined (some out))
    × (execute six_by_seven.payload ≡ defined (status, result))
    × (out.response ≡ record { status = status; result = some result })
    × (find first_ticket out.runner.jobs ≡ none)
ticket-Delivered_example =
    ticket-Delivered 0 3 (with_worker before_wait) one_job 1000 0 0 six_by_seven new_submit_response
      three_turns one_wait fetch_first waiting-Reach refl refl submit here found
      (submitted-IsExecutable (0 ∷ []) testing) refl (omega arith) (omega arith) three_turns-Rounds
      refl (λ n e. cc)
