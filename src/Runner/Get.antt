-- ===== src/Runner/Get.antt =====
-- `get` of `AlgoRunnerIpml`, and `addMsToTimespec`.
use inter_process_communicat.Base.{
  ℕ, ◌+◌, ◌*◌, ◌/◌, ◌%◌, Bool, false, not, ◌&&◌, List, [], ◌∷◌, Option, none, some, Outcome,
  undefined, defined, ◌>>=◌, if◌then◌else◌, get_elem?, set, ◌==◌,
}
use inter_process_communicat.Base.Eq.{nat_eq}
use inter_process_communicat.Base.Dict.{find, erase}
use inter_process_communicat.Protocol.{
  Status, st_error_invalid_input, st_not_finished, Result, GetWaitMode, no_wait, wait_up_to,
  wait_unnamed, GetRequest, GetResponse, ec_success,
}
use inter_process_communicat.Runner.{Job, Runner, Reply}
use inter_process_communicat.Runner.Submit.{mutable_result}
use inter_process_communicat.Runner.Workers.{Turn, turns}

pub record Timespec : Type 0 where
  pub tv_sec : ℕ
  pub tv_nsec : ℕ

-- `addMsToTimespec`, for times that fit the 64 bits of std::chrono.
unfoldable pub add_ms_to_timespec : Timespec → ℕ → Timespec
add_ms_to_timespec ts ms =
    let total = ts.tv_sec * 1_000_000_000 + ts.tv_nsec + ms * 1_000_000 in
    record { tv_sec = total / 1_000_000_000; tv_nsec = total % 1_000_000_000 }

-- A return from `pthread_cond_timedwait`: what the workers did in between, and its code, which is not
-- 0 once the deadline has passed.
pub record Wake : Type 0 where
  pub others : List Turn
  pub code : ℕ

-- What the calling thread meets: the wall clock, and its waits, given the deadline.
pub record Waiting : Type 0 where
  pub clock : Timespec
  pub wakes : Timespec → List Wake

abbrev pub is_done : Option Job → Bool
is_done none = false
is_done (some job) = job.done

-- `while (job->done == false && timeout == 0)`. `none`: the waits end while the thread still waits.
unfoldable pub wait_loop : Runner → ℕ → ℕ → List Wake → Outcome (Option Runner)
wait_loop r a timeout [] =
    if not (is_done (get_elem? r.heap a)) && timeout == 0 then defined none else defined (some r)
wait_loop r a timeout (k ∷ ks) =
    if not (is_done (get_elem? r.heap a)) && timeout == 0
    then (turns r k.others >>= λ r'. wait_loop r' a k.code ks)
    else defined (some r)

abbrev pub reply : Runner → GetResponse → Reply GetResponse
reply r response = record { code = ec_success; runner = r; response = response }

abbrev pub with_status : GetResponse → Status → GetResponse
with_status response status = record response { status = status }

-- The runner once the result of job `a` is swapped with that of the response, and its ticket erased.
unfoldable pub take_out : Runner → ℕ → ℕ → Job → Result → Runner
take_out r id a job old = record r {
  heap = set r.heap a (record job { result = old });
  jobs = erase id r.jobs;
}

-- From the locked test of `done` on.
unfoldable pub hand_out : Runner → ℕ → ℕ → GetResponse → Option Job → Outcome (Reply GetResponse)
hand_out r id a response none = undefined
hand_out r id a response (some job) =
    if job.done
    then defined (
        reply (take_out r id a job (mutable_result response.result))
          (record { status = job.status; result = some job.result }))
    else defined (reply r (with_status response st_not_finished))

-- From there to the return of `get`; `none` is a thread that still waits.
unfoldable pub after_wait :
    ℕ → ℕ → GetResponse → Option Runner → Outcome (Option (Reply GetResponse))
after_wait id a response none = defined none
after_wait id a response (some r) =
    hand_out r id a response (get_elem? r.heap a) >>= λ x. defined (some x)

unfoldable pub get_mode :
    GetWaitMode → Runner → Waiting → ℕ → ℕ → ℕ → GetResponse → Outcome (Option (Reply GetResponse))
get_mode no_wait r env ms id a response = after_wait id a response (some r)
get_mode wait_up_to r env ms id a response =
    wait_loop r a 0 (env.wakes (add_ms_to_timespec env.clock ms)) >>= after_wait id a response
get_mode (wait_unnamed n) r env ms id a response =
    defined (some (reply r (with_status response st_error_invalid_input)))

-- `ticket().req_id()`: 0 where the message has no ticket.
abbrev pub req_id : Option ℕ → ℕ
req_id none = 0
req_id (some id) = id

unfoldable pub get_found :
    Option ℕ → Runner → Waiting → GetRequest → GetResponse → Outcome (Option (Reply GetResponse))
get_found none r env req response =
    defined (some (reply r (with_status response st_error_invalid_input)))
get_found (some a) r env req response =
    get_mode req.wait_mode r env req.timeout_ms (req_id req.ticket) a response

-- `findJobById`.
abbrev pub find_job_by_id : Runner → ℕ → Option ℕ
find_job_by_id r id = find id r.jobs

-- `AlgoRunnerIpml::get`; `none` is a call that has not returned when the waits end.
unfoldable pub get :
    Runner → Waiting → GetRequest → GetResponse → Outcome (Option (Reply GetResponse))
get r env req response = get_found (find_job_by_id r (req_id req.ticket)) r env req response
