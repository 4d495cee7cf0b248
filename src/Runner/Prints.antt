-- ===== src/Runner/Prints.antt =====
-- What `AlgoRunnerIpml::run` prints, by the check of the status of an operation.
use inter_process_communicat.Base.{
  ap, ◌∙◌, ℕ, ◌≡◌, refl, some, undefined, defined-injective, [], Outcome, defined, ◌>>=◌,
}
use inter_process_communicat.Errors.{ipc_message}
use inter_process_communicat.Protocol.{
  ec_success, st_success, Bytes, Status, Result, SubmitMode, blocking, nonblocking, mode_unnamed,
  Payload, payload_not_set, math, str, SubmitRequest, SubmitResponse,
}
use inter_process_communicat.Runner.{Runner, Reply}
use inter_process_communicat.Runner.Submit.{mutable_result, run_blocking, run_mode, run}

-- PRINT_ERROR_NO_RET of the status of an operation.
unfoldable pub print_status : Payload → Status → Bytes
print_status payload_not_set status = []
print_status (math args) status = ipc_message status
print_status (str args) status = ipc_message status

unfoldable pub mode_prints : SubmitMode → Payload → Result → Outcome Bytes
mode_prints blocking p old =
    run_blocking p old >>= λ (status, result). defined (print_status p status)
mode_prints nonblocking p old = defined []
mode_prints (mode_unnamed n) p old = defined []

-- The standard output of a call of `run`.
unfoldable pub run_prints : SubmitRequest → SubmitResponse → Outcome Bytes
run_prints req response = mode_prints req.mode req.payload (mutable_result response.result)

status-after :
    (p : Payload) (old : Result) (r : Runner) (response : SubmitResponse)
    (o : Outcome (Status × Result)) {out : Reply SubmitResponse}
    → (o >>= λ (status, result). defined (record {
      code = ec_success;
      runner = r;
      response = record response { status = status; result = some result };
    }))
      ≡ defined out
    → out.response.status ≡ st_success
    → (o >>= λ (status, result). defined (print_status p status)) ≡ defined []
unfolding print_status ipc_message
status-after p old r response undefined h ok = absurd (cc)
status-after p old r response (defined (status, result)) h ok =
    let same : status ≡ st_success =
      ap (λ (x : Reply SubmitResponse). x.response.status) (defined-injective h) ∙ ok in
    rw same (silent p)
  where
    silent : (p : Payload) → defined (print_status p st_success) ≡ defined []
    silent payload_not_set = refl
    silent (math args) = refl
    silent (str args) = refl

mode_prints-silent :
    (mode : SubmitMode) (r : Runner) (now pick : ℕ) (req : SubmitRequest)
    (response : SubmitResponse) {out : Reply SubmitResponse}
    → run_mode mode r now pick req response ≡ defined out
    → (mode ≡ blocking → out.response.status ≡ st_success)
    → mode_prints mode req.payload (mutable_result response.result) ≡ defined []
unfolding run_mode mode_prints
mode_prints-silent blocking r now pick req response h ok =
    let old = mutable_result response.result in
    status-after req.payload old r response (run_blocking req.payload old) h (ok refl)
mode_prints-silent nonblocking r now pick req response h ok = refl
mode_prints-silent (mode_unnamed n) r now pick req response h ok = refl

-- A call prints only when it answers a blocking request with another status than SUCCESS.
pub run_prints-silent :
    (r : Runner) (now pick : ℕ) (req : SubmitRequest) (response : SubmitResponse)
    {out : Reply SubmitResponse}
    → run r now pick req response ≡ defined out
    → (req.mode ≡ blocking → out.response.status ≡ st_success)
    → run_prints req response ≡ defined []
unfolding run run_prints
run_prints-silent r now pick req response h ok =
    mode_prints-silent req.mode r now pick req response h ok
