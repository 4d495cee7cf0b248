-- ===== src/Runner/Submit.antt =====
-- `enqueue` and `run` of `AlgoRunnerIpml`.
use inter_process_communicat.Base.{
  ℕ, ◌+◌, ◌*◌, ◌%◌, ◌^◌, bit_or, Bool, false, true, List, [], ◌∷◌, ◌++◌, map, Option, none, some,
  Outcome, defined, ◌>>=◌, if◌then◌else◌, length, get_elem?, set,
}
use inter_process_communicat.Base.Eq.{nat_eq}
use inter_process_communicat.Base.Dict.{assign}
use inter_process_communicat.Protocol.{
  Status, st_error_invalid_input, st_not_finished, Result, value_not_set, SubmitMode, blocking,
  nonblocking, mode_unnamed, Payload, payload_not_set, math, str, SubmitRequest, SubmitResponse,
  ec_success,
}
use inter_process_communicat.Operations.{run_math, run_str}
use inter_process_communicat.Runner.{Worker, testing, before_wait, asleep, Runner, new_job, Reply}

-- `(ts << 16) | (seq & 0xFFFF)` on `uint64_t`.
unfoldable pub ticket_id : ℕ → ℕ → ℕ
ticket_id ts seq = bit_or (ts * 2 ^ 16 % 2 ^ 64) (seq % 2 ^ 16)

-- A thread that waits for `qMtx` gets it when the worker before a wait has gone to sleep.
abbrev pub settled : Worker → Worker
settled before_wait = asleep
settled s = s

-- `pthread_cond_signal(&qCv)` wakes a sleeping worker, if there is one: that of number `pick`, or the
-- first.
unfoldable pub wake_first : List Worker → List Worker
wake_first [] = []
wake_first (asleep ∷ ws) = testing ∷ ws
wake_first (w ∷ ws) = w ∷ wake_first ws

unfoldable pub signal : ℕ → List Worker → List Worker
unfolding wake_first
signal pick ws = elim (get_elem? ws pick) [
  | none ↦ wake_first ws
  | some s ↦ elim s [ asleep ↦ set ws pick testing | _ ↦ wake_first ws ]
]

-- `now` is what the steady clock gives, in nanoseconds.
unfoldable pub enqueue : Runner → ℕ → ℕ → SubmitRequest → ℕ × Runner
unfolding ticket_id signal new_job
enqueue r now pick req =
    let id = ticket_id now r.seq in
    let a = length r.heap in
    (
      id,
      record r {
        heap = r.heap ++ (new_job id req ∷ []);
        jobs = assign id a r.jobs;
        queue = r.queue ++ (a ∷ []);
        workers = signal pick (map settled r.workers);
        seq = (r.seq + 1) % 2 ^ 64;
      },
    )

-- `*response.mutable_result()`.
abbrev pub mutable_result : Option Result → Result
mutable_result none = value_not_set
mutable_result (some result) = result

-- The branch of `run` for mode BLOCKING.
unfoldable pub run_blocking : Payload → Result → Outcome (Status × Result)
run_blocking payload_not_set out = defined (st_error_invalid_input, out)
run_blocking (math args) out = run_math args out
run_blocking (str args) out = defined (run_str args out)

abbrev pub has_payload : Payload → Bool
has_payload payload_not_set = false
has_payload _ = true

unfoldable pub run_mode :
    SubmitMode → Runner → ℕ → ℕ → SubmitRequest → SubmitResponse → Outcome (Reply SubmitResponse)
run_mode blocking r now pick req response =
    run_blocking req.payload (mutable_result response.result) >>= λ (status, result).
    defined (record {
      code = ec_success;
      runner = r;
      response = record response { status = status; result = some result };
    })
run_mode nonblocking r now pick req response =
    if has_payload req.payload
    then (let (id, r') = enqueue r now pick req in
        defined (record {
          code = ec_success;
          runner = r';
          response = record response { status = st_not_finished; ticket = some id };
        }))
    else defined (record {
      code = ec_success;
      runner = r;
      response = record response { status = st_error_invalid_input };
    })
run_mode (mode_unnamed n) r now pick req response = defined (record {
  code = ec_success;
  runner = r;
  response = record response { status = st_error_invalid_input };
})

-- `AlgoRunnerIpml::run`.
unfoldable pub run :
    Runner → ℕ → ℕ → SubmitRequest → SubmitResponse → Outcome (Reply SubmitResponse)
run r now pick req response = run_mode req.mode r now pick req response
