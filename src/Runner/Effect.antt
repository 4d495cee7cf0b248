-- ===== src/Runner/Effect.antt =====
-- What a turn of a worker does to the memory.
use inter_process_communicat.Base.{
  ℕ, ◌≡◌, refl, true, List, [], ◌∷◌, Option, none, some, defined, >>=-eq-defined, transfer,
  if_keeps, get_elem?, set, Option-cases, inl, inr,
}
use inter_process_communicat.Base.Eq.{nat_eq}
use inter_process_communicat.Protocol.{Status, Result}
use inter_process_communicat.Operations.{execute}
use inter_process_communicat.Runner.{
  Job, Worker, at_loop, testing, before_wait, asleep, computing, exited, Runner,
}
use inter_process_communicat.Runner.Workers.{
  queue_locked, take_job, finish_job, step_worker, step_if_any, wake_up, Turn, go, spurious, turn,
}

-- The memory after a turn: as before, or with one more job finished, with the result of its request.
pub data Effect (r r' : Runner) : Type 0 where
  same : r'.heap ≡ r.heap → r'.jobs ≡ r.jobs → Effect r r'
  finishes :
      (a : ℕ) (job : Job) (status : Status) (result : Result)
      → get_elem? r.heap a ≡ some job
      → execute job.req.payload ≡ defined (status, result)
      → r'.heap ≡ set r.heap a (record job { status = status; result = result; done = true })
      → r'.jobs ≡ r.jobs
      → Effect r r'

take_job-Effect : (r : Runner) (w : ℕ) (q : List ℕ) → Effect r (take_job r w q)
unfolding take_job
take_job-Effect r w [] = same refl refl
take_job-Effect r w (a ∷ q) = same refl refl

finish_job-Effect :
    (r : Runner) (w a : ℕ) (o : Option Job) {r' : Runner}
    → get_elem? r.heap a ≡ o
    → finish_job r w a o ≡ defined r'
    → Effect r r'
unfolding finish_job
finish_job-Effect r w a none e h = cc
finish_job-Effect r w a (some job) e h =
    let ((status, result), x, fin) = >>=-eq-defined (execute job.req.payload) _ h in
    transfer (Effect r) fin (finishes a job status result e x refl refl)

step_worker-Effect :
    (r : Runner) (w : ℕ) (s : Worker) {r' : Runner} → step_worker r w s ≡ defined r' → Effect r r'
unfolding step_worker
step_worker-Effect r w at_loop h = transfer (Effect r) h (same refl refl)
step_worker-Effect r w testing h = transfer (Effect r) h (
    if_keeps (Effect r) (queue_locked r.workers) _ _ (same refl refl) (take_job-Effect r w r.queue))
step_worker-Effect r w before_wait h = transfer (Effect r) h (same refl refl)
step_worker-Effect r w asleep h = transfer (Effect r) h (same refl refl)
step_worker-Effect r w (computing a) h = finish_job-Effect r w a (get_elem? r.heap a) refl h
step_worker-Effect r w exited h = transfer (Effect r) h (same refl refl)

pub turn-Effect : (r : Runner) (t : Turn) {r' : Runner} → turn r t ≡ defined r' → Effect r r'
unfolding turn
turn-Effect r (go w) h = elim (Option-cases (get_elem? r.workers w)) [
  | inl e ↦ transfer (Effect r) (rw (e, step_if_any) at h) (same refl refl)
  | inr (s, e) ↦ step_worker-Effect r w s (rw (e, step_if_any) at h)
]
turn-Effect r (spurious w) h = elim (Option-cases (get_elem? r.workers w)) [
  | inl e ↦ transfer (Effect r) (rw (e, wake_up) at h) (same refl refl)
  | inr (s, e) ↦ transfer (Effect r) (rw (e, wake_up) at h) (same refl refl)
]

pub turn-jobs : (r : Runner) (t : Turn) {r' : Runner} → turn r t ≡ defined r' → r'.jobs ≡ r.jobs
turn-jobs r t h = elim (turn-Effect r t h) [ same _ e ↦ e | finishes _ _ _ _ _ _ _ e ↦ e ]
