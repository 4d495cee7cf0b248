-- ===== src/Runner/Accounting.antt =====
-- The places at which a job may stand: in the queue, with a worker, or finished.
pub mod Workers
pub mod Calls
use inter_process_communicat.Base.{
  ℕ, zero, suc, ◌+◌, ◌≤◌, ◌<◌, ◌≡◌, refl, ap, ◌∙◌, Bool, false, true, List, [], ◌∷◌, ◌++◌, map,
  Option, none, some, arith, Outcome, undefined, defined, ◌>>=◌, >>=-eq-defined, if◌then◌else◌,
  ◌==◌, length, get_elem?, set, count, count-append, get_elem?-set, get_elem?-append_last,
  get_elem?-length, transfer, written, Bool-cases, Option-cases, inl, inr,
}
use inter_process_communicat.Protocol.{SubmitRequest}
use inter_process_communicat.Operations.{execute}
use inter_process_communicat.Runner.{
  Job, Worker, at_loop, testing, before_wait, asleep, computing, exited, Runner, new_job,
  set_worker,
}
use inter_process_communicat.Runner.Tally.{tally}
use inter_process_communicat.Runner.Workers.{
  queue_locked, take_job, finish_job, step_worker, woken, Turn, go, spurious, turn, turns, stop,
  step_if_any, wake_up, broadcast, spawn,
}

-- 1 for the worker that computes job `a`.
abbrev pub hold : ℕ → Worker → ℕ
hold a (computing b) = if a == b then 1 else 0
hold a at_loop = 0
hold a testing = 0
hold a before_wait = 0
hold a asleep = 0
hold a exited = 0

abbrev pub holds : ℕ → List Worker → ℕ
holds a = tally (hold a)

abbrev pub finished : Option Job → ℕ
finished none = 0
finished (some job) = if job.done then 1 else 0

abbrev pub allocated : Option Job → ℕ
allocated none = 0
allocated (some job) = 1

-- The places at which job `a` stands.
abbrev pub places : Runner → ℕ → ℕ
places r a = count a r.queue + holds a r.workers + finished (get_elem? r.heap a)

abbrev pub IsAccounted : Runner → Type 0
IsAccounted r = (a : ℕ) → places r a ≡ allocated (get_elem? r.heap a)

pub hold-woken : (a : ℕ) (s : Worker) → hold a (woken s) ≡ hold a s
hold-woken a asleep = refl
hold-woken a _ = refl

-- The heap after a write that leaves the address allocated.
pub finished-set :
    (heap : List Job) (a b : ℕ) (job : Job)
    → get_elem? heap b ≡ some job
    → (new : Job)
    → (allocated (get_elem? (set heap b new) a) ≡ allocated (get_elem? heap a))
      × (finished (get_elem? (set heap b new) a)
          ≡ (if a == b then finished (some new) else finished (get_elem? heap a)))
finished-set heap a b job e new = ground (arith, get_elem?-set heap b new a)
