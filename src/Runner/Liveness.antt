-- ===== src/Runner/Liveness.antt =====
-- The jobs of a pool in a fair schedule.
mod Tests
pub mod Schedules
use inter_process_communicat.Base.{
  ℕ, ◌≤◌, ◌≡◌, ◌≢◌, refl, sym, ap, ◌∙◌, true, none, some, List, [], ◌∷◌, arith, defined, length,
  get_elem?, count,
}
use inter_process_communicat.Base.Eq.{nat_eq}
use inter_process_communicat.Base.Dict.{find}
use inter_process_communicat.Protocol.{
  Status, Result, SubmitRequest, SubmitResponse, nonblocking, GetRequest, GetResponse, GetWaitMode,
  no_wait, wait_up_to, wait_unnamed, new_get_response,
}
use inter_process_communicat.Operations.{execute}
use inter_process_communicat.Runner.{Job, Worker, Runner, new_runner, Reply}
use inter_process_communicat.Runner.Workers.{Turn, turns}
use inter_process_communicat.Runner.Submit.{has_payload, run, mutable_result}
use inter_process_communicat.Runner.Get.{
  Waiting, Wake, wait_loop, hand_out, take_out, after_wait, add_ms_to_timespec, get_mode, get_found,
  get, req_id, reply,
}
use inter_process_communicat.Runner.Cases.{Anytime, Mapped, Mapped-turns, turns-keeps}
use inter_process_communicat.Runner.Results.{IsFaithful, IsFaithful-Keeps, Tracks}
use inter_process_communicat.Runner.Answer.{Tracks-turns, find-take_out}
use inter_process_communicat.Runner.History.{Reach}
use inter_process_communicat.Runner.Tickets.{
  NotReissued, Reach-IsFaithful, issued-Reach, issued-Tracks,
}
use inter_process_communicat.Runner.Tally.{tally-le}
use inter_process_communicat.Runner.Accounting.{hold, IsAccounted}
use inter_process_communicat.Runner.Accounting.Workers.{turns-IsAccounted}
use inter_process_communicat.Runner.Accounting.Calls.{Reach-IsAccounted}
use inter_process_communicat.Runner.Progress.{IsExecutable, turns-defined}
use inter_process_communicat.Runner.Alert.Calls.{Reach-IsAlert}
use inter_process_communicat.Runner.Effort.{effort, work_left}
use inter_process_communicat.Runner.Rounds.{Rounds, Rounds-work}

hold-effort : (a : ℕ) (s : Worker) → hold a s ≤ effort s
hold-effort a s = ground arith

count-nil : (a : ℕ) (queue : List ℕ) → length queue ≡ 0 → count a queue ≡ 0
count-nil a [] e = refl
count-nil a (b ∷ queue) e = absurd (omega arith)

abbrev pub AllDone : Runner → Type 0
AllDone r = (a : ℕ) (job : Job) → get_elem? r.heap a ≡ some job → job.done ≡ true

-- Jobs that are accounted for, when there is no work left.
no_work-AllDone : (r : Runner) → IsAccounted r → work_left r ≡ 0 → AllDone r
no_work-AllDone r places over a job at =
    let unqueued = count-nil a r.queue (omega (arith, over)) in
    let unheld = tally-le (hold a) effort (hold-effort a) r.workers in
    ground (arith, places a, unqueued, unheld, over)

-- A pool that a new runner reaches and that runs with at least one thread, and whose requests are all
-- defined, finishes every job that it holds and empties its queue, in every schedule that begins with
-- as many rounds as there is work left: three for each queued job, two for each that is computed and
-- one for each worker on its way back. In a round every worker has a turn, in any order, with any
-- other turns and wakeups in between.
pub Rounds-AllDone :
    (seq k : ℕ) (r : Runner) (schedule : List Turn)
    → Reach Anytime (new_runner seq) r
    → IsExecutable r
    → r.running ≡ true
    → 1 ≤ length r.workers
    → work_left r ≤ k
    → Rounds (length r.workers) k schedule
    → (q : Runner) × (turns r schedule ≡ defined q) × (length q.queue ≡ 0) × AllDone q
Rounds-AllDone seq k r schedule reach sane on staffed few fair =
    let places = Reach-IsAccounted seq reach in
    let (q, ran) = turns-defined r schedule places sane in
    let less =
      Rounds-work (length r.workers) k schedule r ran (Reach-IsAlert seq reach on) refl staffed
        fair in
    let over : work_left q ≡ 0 = omega (arith, less, few) in
    (q, ran, omega (arith, over), no_work-AllDone q (turns-IsAccounted r schedule ran places) over)

-- The answer for a finished job.
abbrev given : Runner → ℕ → ℕ → Job → Reply GetResponse
given q t a job =
    reply (take_out q t a job (mutable_result none))
      (record { status = job.status; result = some job.result })

-- A wait for a finished job is over at once.
wait_loop-done :
    (q : Runner) (a : ℕ) (job : Job) (ks : List Wake)
    → get_elem? q.heap a ≡ some job
    → job.done ≡ true
    → wait_loop q a 0 ks ≡ defined (some q)
unfolding wait_loop
wait_loop-done q a job [] at d = simp (at, d) refl
wait_loop-done q a job (k ∷ ks) at d = simp (at, d) refl

after_wait-given :
    (q : Runner) (t a : ℕ) (job : Job)
    → get_elem? q.heap a ≡ some job
    → job.done ≡ true
    → after_wait t a new_get_response (some q) ≡ defined (some (given q t a job))
unfolding after_wait hand_out
after_wait-given q t a job at d = simp (at, d) refl

get_mode-given :
    (mode : GetWaitMode) (q : Runner) (env : Waiting) (ms t a : ℕ) (job : Job)
    → ((n : ℕ) → mode ≢ wait_unnamed n)
    → get_elem? q.heap a ≡ some job
    → job.done ≡ true
    → get_mode mode q env ms t a new_get_response ≡ defined (some (given q t a job))
unfolding get_mode
get_mode-given no_wait q env ms t a job known at d = after_wait-given q t a job at d
get_mode-given wait_up_to q env ms t a job known at d =
    rw (wait_loop-done q a job (env.wakes (add_ms_to_timespec env.clock ms)) at d)
      (after_wait-given q t a job at d)
get_mode-given (wait_unnamed n) q env ms t a job known at d = absurd (known n refl)

get-given :
    (q : Runner) (env : Waiting) (g : GetRequest) (a : ℕ) (job : Job)
    → ((n : ℕ) → g.wait_mode ≢ wait_unnamed n)
    → find (req_id g.ticket) q.jobs ≡ some a
    → get_elem? q.heap a ≡ some job
    → job.done ≡ true
    → get q env g new_get_response ≡ defined (some (given q (req_id g.ticket) a job))
unfolding get get_found
get-given q env g a job known f at d =
    simp f (get_mode-given g.wait_mode q env g.timeout_ms (req_id g.ticket) a job known at d)

-- The job of ticket `t`, once all are done.
done-right :
    (q : Runner) (t a : ℕ) (req : SubmitRequest)
    → IsFaithful q
    → Tracks t req q
    → find t q.jobs ≡ some a
    → AllDone q
    → (job : Job) × (get_elem? q.heap a ≡ some job)
      × (job.done ≡ true)
      × (execute req.payload ≡ defined (job.status, job.result))
done-right q t a req faithful tracked f done =
    let (job, at, asked) = tracked a f in
    let (job', at', sound) = faithful t a f in
    let one : job ≡ job' = cc in
    (
      job',
      at',
      done a job' at',
      ap (λ (x : SubmitRequest). execute x.payload) (sym asked)
          ∙ ap (λ (k : Job). execute k.req.payload) one
          ∙ sound.right (done a job' at'),
    )

-- A ticket that the pool knows, at any time after the request that it was issued for and with no later
-- request of the same number, is answered: if the pool runs with at least one thread and its requests
-- are all defined, then after as many rounds as there is work left, a `get` for the ticket, with
-- NO_WAIT or WAIT_UP_TO, returns the status and the result that the request evaluates to, and the
-- ticket is gone.
pub ticket-Delivered :
    (seq k : ℕ) (r r' : Runner) (now pick a : ℕ) (req : SubmitRequest) (response : SubmitResponse)
    (schedule : List Turn) (env : Waiting) (g : GetRequest) {out : Reply SubmitResponse}
    → Reach Anytime (new_runner seq) r
    → req.mode ≡ nonblocking
    → has_payload req.payload ≡ true
    → run r now pick req response ≡ defined out
    → Reach (NotReissued (req_id out.response.ticket)) out.runner r'
    → find (req_id out.response.ticket) r'.jobs ≡ some a
    → IsExecutable r'
    → r'.running ≡ true
    → 1 ≤ length r'.workers
    → work_left r' ≤ k
    → Rounds (length r'.workers) k schedule
    → g.ticket ≡ out.response.ticket
    → ((n : ℕ) → g.wait_mode ≢ wait_unnamed n)
    → (q : Runner) × (out' : Reply GetResponse) × (status : Status) × (result : Result) × (turns r'
          schedule
        ≡ defined q)
      × (get q env g new_get_response ≡ defined (some out'))
      × (execute req.payload ≡ defined (status, result))
      × (out'.response ≡ record { status = status; result = some result })
      × (find (req_id g.ticket) out'.runner.jobs ≡ none)
ticket-Delivered seq k r r' now pick a req response schedule env g {out} before m p h after f sane
      on staffed few fair asks known =
    let reach = issued-Reach seq r r' now pick req response before m p h after in
    let t = req_id out.response.ticket in
    let (q, ran, _, done) = Rounds-AllDone seq k r' schedule reach sane on staffed few fair in
    let tracked =
      turns-keeps (Tracks t req) (Tracks-turns t req) r' schedule ran
        (issued-Tracks seq r r' now pick req response before m p h after) in
    let faithful =
      turns-keeps IsFaithful IsFaithful-Keeps.on_turn r' schedule ran
        (Reach-IsFaithful seq reach) in
    let mapped = turns-keeps (Mapped t a) (Mapped-turns t a) r' schedule ran f in
    let (job, at, finished, right) = done-right q t a req faithful tracked mapped done in
    let found : find (req_id g.ticket) q.jobs ≡ some a = rw asks mapped in
    (
      q,
      given q (req_id g.ticket) a job,
      job.status,
      job.result,
      ran,
      get-given q env g a job known found at finished,
      right,
      refl,
      find-take_out q (req_id g.ticket) a job (mutable_result none),
    )
