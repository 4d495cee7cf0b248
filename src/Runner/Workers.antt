-- ===== src/Runner/Workers.antt =====
-- The threads of the pool: `workerLoop` as turns of one worker, `init` and `deinit`.
-- A turn is what a thread does between two points at which others can interfere.
use inter_process_communicat.Base.{
  ℕ, zero, suc, Bool, false, true, List, [], ◌∷◌, ◌++◌, map, Option, none, some, Outcome, undefined,
  defined, ◌>>=◌, if◌then◌else◌, get_elem?, set,
}
use inter_process_communicat.Base.Int.{ℤ}
use inter_process_communicat.Protocol.{ec_success}
use inter_process_communicat.Operations.{execute}
use inter_process_communicat.Runner.{
  Job, Worker, at_loop, testing, before_wait, asleep, computing, exited, Runner, set_worker,
}

-- `qMtx` is held across a turn only before a wait.
unfoldable pub queue_locked : List Worker → Bool
queue_locked [] = false
queue_locked (before_wait ∷ ws) = true
queue_locked (w ∷ ws) = queue_locked ws

-- From `pthread_mutex_lock(&qMtx)` to the taking of a job, to the `break`, or to the wait.
unfoldable pub take_job : Runner → ℕ → List ℕ → Runner
unfolding set_worker
take_job r w [] = set_worker r w (if r.running then before_wait else exited)
take_job r w (a ∷ rest) = record (set_worker r w (computing a)) { queue = rest }

-- The execution of the job at `a`, and its result written under the lock of the job.
unfoldable pub finish_job : Runner → ℕ → ℕ → Option Job → Outcome Runner
unfolding set_worker
finish_job r w a none = undefined
finish_job r w a (some job) = execute job.req.payload >>= λ (status, result).
    defined (record (set_worker r w at_loop) {
      heap = set r.heap a (record job { status = status; result = result; done = true });
    })

unfoldable pub step_worker : Runner → ℕ → Worker → Outcome Runner
unfolding take_job finish_job set_worker
step_worker r w at_loop = defined (set_worker r w (if r.running then testing else exited))
step_worker r w testing = defined (if queue_locked r.workers then r else take_job r w r.queue)
step_worker r w before_wait = defined (set_worker r w asleep)
step_worker r w asleep = defined r
step_worker r w (computing a) = finish_job r w a (get_elem? r.heap a)
step_worker r w exited = defined r

-- POSIX lets a thread in `pthread_cond_wait` wake up without a signal.
pub data Turn : Type 0 where
  go : ℕ → Turn
  spurious : ℕ → Turn

abbrev pub woken : Worker → Worker
woken asleep = testing
woken s = s

unfoldable pub wake_up : Runner → ℕ → Option Worker → Runner
unfolding set_worker
wake_up r w none = r
wake_up r w (some s) = set_worker r w (woken s)

unfoldable pub step_if_any : Runner → ℕ → Option Worker → Outcome Runner
unfolding step_worker
step_if_any r w none = defined r
step_if_any r w (some s) = step_worker r w s

unfoldable pub turn : Runner → Turn → Outcome Runner
unfolding wake_up step_if_any
turn r (go w) = step_if_any r w (get_elem? r.workers w)
turn r (spurious w) = defined (wake_up r w (get_elem? r.workers w))

unfoldable pub turns : Runner → List Turn → Outcome Runner
turns r [] = defined r
turns r (t ∷ ts) = turn r t >>= λ r'. turns r' ts

-- `pthread_cond_broadcast(&qCv)`.
unfoldable pub broadcast : Runner → Runner
broadcast r = record r { workers = map woken r.workers }

-- The threads that `pthread_create` started, of `n` from number `i` on.
unfoldable pub spawn : ℕ → ℕ → (ℕ → Bool) → List Worker
spawn zero i created = []
spawn (suc n) i created =
    let rest = spawn n (suc i) created in if created i then at_loop ∷ rest else rest

-- `AlgoRunnerIpml::init`, of which the code is always EC_SUCCESS.
unfoldable pub init : Runner → ℕ → (ℕ → Bool) → ℤ × Runner
unfolding spawn
init r max_threads created = if r.running then (ec_success, r) else (
  ec_success,
  record r { running = true; workers = r.workers ++ spawn max_threads 0 created },
)

unfoldable pub all_exited : List Worker → Bool
all_exited [] = true
all_exited (exited ∷ ws) = all_exited ws
all_exited (w ∷ ws) = false

-- `AlgoRunnerIpml::deinit` up to the loop of `pthread_join`.
unfoldable pub stop : Runner → Runner
unfolding broadcast
stop r = broadcast (record r { running = false })

-- The joins and `workers.clear()`, if every worker has returned.
unfoldable pub join : Runner → Option (ℤ × Runner)
unfolding all_exited
join r = if all_exited r.workers then some (ec_success, record r { workers = [] }) else none

-- `AlgoRunnerIpml::deinit`; `schedule` is what the workers do while it joins them, and `none` that one
-- of them has not returned by then.
unfoldable pub deinit : Runner → List Turn → Outcome (Option (ℤ × Runner))
deinit r schedule =
    if r.running
    then (turns (stop r) schedule >>= λ r'. defined (join r'))
    else defined (some (ec_success, r))
