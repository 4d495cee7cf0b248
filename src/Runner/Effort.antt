-- ===== src/Runner/Effort.antt =====
-- The work that the pool has before it, and what a turn of a worker takes from it.
use inter_process_communicat.Base.{
  ℕ, suc, ◌+◌, ◌*◌, ◌≤◌, ◌<◌, ◌≡◌, refl, sym, subst, ◌⊎◌, inl, inr, Option, none, some, List, [],
  ◌∷◌, arith, true, if_keeps, defined, >>=-eq-defined, transfer, length, get_elem?, set,
  Option-cases, ◌==◌, if◌then◌else◌,
}
use inter_process_communicat.Operations.{execute}
use inter_process_communicat.Runner.{
  Job, Worker, at_loop, testing, before_wait, asleep, computing, exited, Runner, set_worker,
}
use inter_process_communicat.Runner.Workers.{
  queue_locked, take_job, finish_job, step_worker, step_if_any, wake_up, woken, go, spurious, turn,
}
use inter_process_communicat.Runner.Tally.{tally, tally-set}
use inter_process_communicat.Runner.Alert.{IsAlert, tally-locking-queue_locked}

-- The turns of a worker until it comes to the queue.
abbrev pub effort : Worker → ℕ
effort (computing a) = 2
effort at_loop = 1
effort testing = 0
effort before_wait = 0
effort asleep = 0
effort exited = 0

-- A queued job costs its taking, its execution and the way back to the queue.
abbrev pub work_left : Runner → ℕ
work_left r = 3 * length r.queue + tally effort r.workers

-- 1 for a worker whose turn takes something of the work, with so many jobs in the queue.
abbrev pub pull : ℕ → Option Worker → ℕ
pull n none = 0
pull n (some (computing a)) = 1
pull n (some at_loop) = 1
pull n (some testing) = if n == 0 then 0 else 1
pull n (some before_wait) = 0
pull n (some asleep) = 0
pull n (some exited) = 0

-- What a turn of a worker, which was at `o`, achieves: its pull is taken off the work, and the queue is as
-- long as before unless some of the work is done.
pub record Advances (r : Runner) (o : Option Worker) (r' : Runner) : Type 0 where
  pub less : work_left r' + pull (length r.queue) o ≤ work_left r
  pub queued : (length r'.queue ≡ length r.queue) ⊎ (work_left r' < work_left r)

set-Advances :
    (r : Runner) (w : ℕ) (s t : Worker) (heap : List Job)
    → get_elem? r.workers w ≡ some s
    → effort t + pull (length r.queue) (some s) ≤ effort s
    → Advances r (some s) (record r { workers = set r.workers w t; heap = heap })
set-Advances r w s t heap at h = record {
  less = omega (arith, h, tally-set effort r.workers w s t at);
  queued = inl refl;
}

take_job-Advances :
    (r : Runner) (w : ℕ) (q : List ℕ)
    → get_elem? r.workers w ≡ some testing
    → r.queue ≡ q
    → r.running ≡ true
    → Advances r (some testing) (take_job r w q)
unfolding take_job set_worker
take_job-Advances r w [] at e on =
    subst (λ b. Advances r (some testing) (set_worker r w (if b then before_wait else exited)))
      (sym on) (set-Advances r w testing before_wait r.heap at (rw e (omega arith)))
take_job-Advances r w (a ∷ rest) at e on =
    let longer : length r.queue ≡ suc (length rest) = rw e refl in
    let of_effort = tally-set effort r.workers w testing (computing a) at in
    record {
      less = ground (arith, longer, of_effort);
      queued = inr (omega (arith, longer, of_effort));
    }

finish_job-Advances :
    (r : Runner) (w a : ℕ) (o : Option Job) {r' : Runner}
    → get_elem? r.workers w ≡ some (computing a)
    → finish_job r w a o ≡ defined r'
    → Advances r (some (computing a)) r'
unfolding finish_job set_worker
finish_job-Advances r w a none at h = cc
finish_job-Advances r w a (some job) at h =
    let ((status, result), x, fin) = >>=-eq-defined (execute job.req.payload) _ h in
    transfer (Advances r (some (computing a))) fin
      (set-Advances r w (computing a) at_loop _ at (omega arith))

stays : (r : Runner) (o : Option Worker) → pull (length r.queue) o ≡ 0 → Advances r o r
stays r o h = record { less = omega (arith, h); queued = inl refl }

locked_out :
    (r : Runner) (w : ℕ)
    → get_elem? r.workers w ≡ some testing
    → IsAlert r
    → Advances r (some testing) (if queue_locked r.workers then r else take_job r w r.queue)
locked_out r w at v = elim v.free [
  | inl empty ↦
      if_keeps (Advances r (some testing)) (queue_locked r.workers) _ _
        (stays r (some testing) (rw empty refl)) (take_job-Advances r w r.queue at refl v.on)
  | inr free ↦
      rw (tally-locking-queue_locked r.workers free) (take_job-Advances r w r.queue at refl v.on)
]

step_worker-Advances :
    (r : Runner) (w : ℕ) (s : Worker) {r' : Runner}
    → get_elem? r.workers w ≡ some s
    → step_worker r w s ≡ defined r'
    → IsAlert r
    → Advances r (some s) r'
unfolding step_worker set_worker
step_worker-Advances r w at_loop {r'} at h v =
    transfer (Advances r (some at_loop))
      (subst (λ b. defined (set_worker r w (if b then testing else exited)) ≡ defined r') v.on h)
      (set-Advances r w at_loop testing r.heap at (omega arith))
step_worker-Advances r w testing at h v =
    transfer (Advances r (some testing)) h (locked_out r w at v)
step_worker-Advances r w before_wait at h v =
    transfer (Advances r (some before_wait)) h
      (set-Advances r w before_wait asleep r.heap at (omega arith))
step_worker-Advances r w asleep at h v =
    transfer (Advances r (some asleep)) h (stays r (some asleep) refl)
step_worker-Advances r w (computing a) at h v = finish_job-Advances r w a (get_elem? r.heap a) at h
step_worker-Advances r w exited at h v =
    transfer (Advances r (some exited)) h (stays r (some exited) refl)

pub go-Advances :
    (r : Runner) (w : ℕ) {r' : Runner}
    → turn r (go w) ≡ defined r'
    → IsAlert r
    → Advances r (get_elem? r.workers w) r'
unfolding turn
go-Advances r w {r'} h v = elim (Option-cases (get_elem? r.workers w)) [
  | inl e ↦
      transfer (Advances r (get_elem? r.workers w)) (rw (e, step_if_any) at h)
        (stays r (get_elem? r.workers w) (rw e refl))
  | inr (s, e) ↦
      subst (λ o. Advances r o r') (sym e)
        (step_worker-Advances r w s e (rw (e, step_if_any) at h) v)
]

-- To be woken up costs nothing.
pub spurious-Advances :
    (r : Runner) (w : ℕ) {r' : Runner} → turn r (spurious w) ≡ defined r' → Advances r none r'
unfolding turn
spurious-Advances r w {r'} h = elim (Option-cases (get_elem? r.workers w)) [
  | inl e ↦ transfer (Advances r none) (rw (e, wake_up) at h) (stays r none refl)
  | inr (s, e) ↦ transfer (Advances r none) (rw (e, wake_up) at h) (roused s e)
]
  where
    effort-woken : (s : Worker) → effort (woken s) ≡ effort s
    effort-woken asleep = refl
    effort-woken _ = refl

    roused :
        (s : Worker) → get_elem? r.workers w ≡ some s → Advances r none (set_worker r w (woken s))
    roused s at = record {
      less = omega (arith, effort-woken s, tally-set effort r.workers w s (woken s) at);
      queued = inl refl;
    }
