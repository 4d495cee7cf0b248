-- ===== src/Runner/Handle.antt =====
-- `AlgoRunner` of sources/server/algorithm_runner.h: a handle on an `AlgoRunnerIpml` that may be absent.
use inter_process_communicat.Base.{ℕ, Bool, Option, none, some, List, Outcome, defined, ◌>>=◌}
use inter_process_communicat.Base.Int.{ℤ}
use inter_process_communicat.Protocol.{
  SubmitRequest, SubmitResponse, GetRequest, GetResponse, ec_success, ec_failure,
}
use inter_process_communicat.Runner.{Runner, new_runner, Reply}
use inter_process_communicat.Runner.Workers
use inter_process_communicat.Runner.Workers.{Turn}
use inter_process_communicat.Runner.Submit
use inter_process_communicat.Runner.Get
use inter_process_communicat.Runner.Get.{Waiting}

-- `counted` is the static counter of `enqueue` while there is no implementation.
pub record AlgoRunner : Type 0 where
  pub impl : Option Runner
  pub counted : ℕ

-- What a call returns: the code, the handle and the message it filled in.
pub record Handled (A : Type 0) : Type 0 where
  pub code : ℤ
  pub handle : AlgoRunner
  pub response : A

abbrev pub holding : AlgoRunner → Runner → AlgoRunner
holding h r = record h { impl = some r }

abbrev pub handled : {A : Type 0} → AlgoRunner → Reply A → Handled A
handled h x = record { code = x.code; handle = holding h x.runner; response = x.response }

unfoldable pub init_impl : Option Runner → AlgoRunner → ℕ → (ℕ → Bool) → ℤ × AlgoRunner
init_impl (some r) h threads created = (ec_success, h)
init_impl none h threads created =
    let (code, r) = Workers.init (new_runner h.counted) threads created in (code, holding h r)

-- `AlgoRunner::init`.
unfoldable pub init : AlgoRunner → ℕ → (ℕ → Bool) → ℤ × AlgoRunner
unfolding init_impl
init h threads created = init_impl h.impl h threads created

abbrev pub emptied : Option (ℤ × Runner) → Option (ℤ × AlgoRunner)
emptied none = none
emptied (some (code, r)) = some (code, record { impl = none; counted = r.seq })

unfoldable pub deinit_impl :
    Option Runner → AlgoRunner → List Turn → Outcome (Option (ℤ × AlgoRunner))
deinit_impl none h schedule = defined (some (ec_success, h))
deinit_impl (some r) h schedule = Workers.deinit r schedule >>= λ o. defined (emptied o)

-- `AlgoRunner::deinit`; `none` where the joins do not return within the schedule.
unfoldable pub deinit : AlgoRunner → List Turn → Outcome (Option (ℤ × AlgoRunner))
unfolding deinit_impl
deinit h schedule = deinit_impl h.impl h schedule

unfoldable pub run_impl :
    Option Runner
    → AlgoRunner
    → ℕ
    → ℕ
    → SubmitRequest
    → SubmitResponse
    → Outcome (Handled SubmitResponse)
run_impl none h now pick req response =
    defined (record { code = ec_failure; handle = h; response = response })
run_impl (some r) h now pick req response =
    Submit.run r now pick req response >>= λ x. defined (handled h x)

-- `AlgoRunner::run`.
unfoldable pub run :
    AlgoRunner → ℕ → ℕ → SubmitRequest → SubmitResponse → Outcome (Handled SubmitResponse)
run h now pick req response = run_impl h.impl h now pick req response

abbrev pub handled_if : {A : Type 0} → AlgoRunner → Option (Reply A) → Option (Handled A)
handled_if h none = none
handled_if h (some x) = some (handled h x)

unfoldable pub get_impl :
    Option Runner
    → AlgoRunner
    → Waiting
    → GetRequest
    → GetResponse
    → Outcome (Option (Handled GetResponse))
get_impl none h env req response =
    defined (some (record { code = ec_failure; handle = h; response = response }))
get_impl (some r) h env req response = Get.get r env req response >>= λ x. defined (handled_if h x)

-- `AlgoRunner::get`; `none` where it still waits when the waits end.
unfoldable pub get :
    AlgoRunner → Waiting → GetRequest → GetResponse → Outcome (Option (Handled GetResponse))
get h env req response = get_impl h.impl h env req response

unfoldable pub work_impl : Option Runner → AlgoRunner → List Turn → Outcome AlgoRunner
work_impl none h schedule = defined h
work_impl (some r) h schedule = Workers.turns r schedule >>= λ r'. defined (holding h r')

-- Turns of the workers while the thread of the server does something else.
unfoldable pub work : AlgoRunner → List Turn → Outcome AlgoRunner
work h schedule = work_impl h.impl h schedule
