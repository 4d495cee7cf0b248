-- ===== src/Runner/Steady.antt =====
-- What a turn of a worker leaves of the pool.
use inter_process_communicat.Base.{
  ℕ, ◌≡◌, refl, inl, inr, Option, none, some, List, [], ◌∷◌, defined, >>=-eq-defined, transfer,
  length, length-set, get_elem?, Option-cases, if_keeps,
}
use inter_process_communicat.Operations.{execute}
use inter_process_communicat.Runner.{
  Job, Worker, at_loop, testing, before_wait, asleep, computing, exited, Runner, set_worker,
}
use inter_process_communicat.Runner.Workers.{
  queue_locked, take_job, finish_job, step_worker, step_if_any, wake_up, Turn, go, spurious, turn,
}

-- The threads are as many, and `running` is as before.
abbrev pub Steady : Runner → Runner → Type 0
Steady r r' = (r'.running ≡ r.running) × (length r'.workers ≡ length r.workers)

set_worker-Steady : (r : Runner) (w : ℕ) (s : Worker) → Steady r (set_worker r w s)
unfolding set_worker
set_worker-Steady r w s = (refl, length-set r.workers w s)

take_job-Steady : (r : Runner) (w : ℕ) (q : List ℕ) → Steady r (take_job r w q)
unfolding take_job
take_job-Steady r w [] = set_worker-Steady r w _
take_job-Steady r w (a ∷ q) = set_worker-Steady r w (computing a)

finish_job-Steady :
    (r : Runner) (w a : ℕ) (o : Option Job) {r' : Runner}
    → finish_job r w a o ≡ defined r'
    → Steady r r'
unfolding finish_job
finish_job-Steady r w a none h = cc
finish_job-Steady r w a (some job) h =
    let ((status, result), x, fin) = >>=-eq-defined (execute job.req.payload) _ h in
    transfer (Steady r) fin (set_worker-Steady r w at_loop)

step_worker-Steady :
    (r : Runner) (w : ℕ) (s : Worker) {r' : Runner} → step_worker r w s ≡ defined r' → Steady r r'
unfolding step_worker
step_worker-Steady r w at_loop h = transfer (Steady r) h (set_worker-Steady r w _)
step_worker-Steady r w testing h =
    transfer (Steady r) h
      (if_keeps (Steady r) (queue_locked r.workers) _ _ (refl, refl) (take_job-Steady r w r.queue))
step_worker-Steady r w before_wait h = transfer (Steady r) h (set_worker-Steady r w asleep)
step_worker-Steady r w asleep h = transfer (Steady r) h (refl, refl)
step_worker-Steady r w (computing a) h = finish_job-Steady r w a (get_elem? r.heap a) h
step_worker-Steady r w exited h = transfer (Steady r) h (refl, refl)

pub turn-Steady : (r : Runner) (t : Turn) {r' : Runner} → turn r t ≡ defined r' → Steady r r'
unfolding turn
turn-Steady r (go w) h = elim (Option-cases (get_elem? r.workers w)) [
  | inl e ↦ transfer (Steady r) (rw (e, step_if_any) at h) (refl, refl)
  | inr (s, e) ↦ step_worker-Steady r w s (rw (e, step_if_any) at h)
]
turn-Steady r (spurious w) h = elim (Option-cases (get_elem? r.workers w)) [
  | inl e ↦ transfer (Steady r) (rw (e, wake_up) at h) (refl, refl)
  | inr (s, e) ↦ transfer (Steady r) (rw (e, wake_up) at h) (set_worker-Steady r w _)
]
