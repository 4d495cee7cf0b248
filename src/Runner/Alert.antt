-- ===== src/Runner/Alert.antt =====
-- Whether the workers of a running pool come to a queued job.
pub mod Calls
use inter_process_communicat.Base.{
  ℕ, ◌≤◌, ◌≡◌, refl, sym, subst, ◌⊎◌, inl, inr, true, false, Option, none, some, List, [], ◌∷◌,
  arith, defined, >>=-eq-defined, transfer, length, length-set, get_elem?, set, Option-cases,
  if_keeps, if◌then◌else◌,
}
use inter_process_communicat.Operations.{execute}
use inter_process_communicat.Runner.{
  Job, Worker, at_loop, testing, before_wait, asleep, computing, exited, Runner, set_worker,
}
use inter_process_communicat.Runner.Workers.{
  queue_locked, take_job, finish_job, step_worker, step_if_any, woken, wake_up, Turn, go, spurious,
  turn,
}
use inter_process_communicat.Runner.Tally.{tally, tally-set}

-- 1 for a worker that holds `qMtx` across a turn.
abbrev pub locking : Worker → ℕ
locking before_wait = 1
locking at_loop = 0
locking testing = 0
locking asleep = 0
locking (computing a) = 0
locking exited = 0

-- 1 for a worker that comes to the queue without being woken up.
abbrev pub awake : Worker → ℕ
awake before_wait = 0
awake at_loop = 1
awake testing = 1
awake asleep = 0
awake (computing a) = 1
awake exited = 0

abbrev pub gone : Worker → ℕ
gone before_wait = 0
gone at_loop = 0
gone testing = 0
gone asleep = 0
gone (computing a) = 0
gone exited = 1

-- No thread has returned; and if a job is queued, then no worker is on its way into the wait, and one of
-- them, if there is any, comes to the queue.
pub record IsAlert (r : Runner) : Type 0 where
  pub on : r.running ≡ true
  pub present : tally gone r.workers ≡ 0
  pub free : (length r.queue ≡ 0) ⊎ (tally locking r.workers ≡ 0)
  pub served : (length r.queue ≡ 0) ⊎ ((length r.workers ≡ 0) ⊎ (1 ≤ tally awake r.workers))

pub tally-locking-queue_locked : (ws : List Worker) → tally locking ws ≡ 0 → queue_locked ws ≡ false
unfolding queue_locked
tally-locking-queue_locked [] h = refl
tally-locking-queue_locked (at_loop ∷ ws) h = tally-locking-queue_locked ws (omega (arith, h))
tally-locking-queue_locked (testing ∷ ws) h = tally-locking-queue_locked ws (omega (arith, h))
tally-locking-queue_locked (before_wait ∷ ws) h = absurd (omega arith)
tally-locking-queue_locked (asleep ∷ ws) h = tally-locking-queue_locked ws (omega (arith, h))
tally-locking-queue_locked (computing a ∷ ws) h = tally-locking-queue_locked ws (omega (arith, h))
tally-locking-queue_locked (exited ∷ ws) h = tally-locking-queue_locked ws (omega (arith, h))

-- Worker `w` passes from `s` to `t`, neither into the wait, nor out of its function, nor to sleep.
set-IsAlert :
    (r : Runner) (w : ℕ) (s t : Worker) (q : List ℕ) (heap : List Job)
    → get_elem? r.workers w ≡ some s
    → gone t ≤ gone s
    → locking t ≤ locking s
    → awake s ≤ awake t
    → length q ≤ length r.queue
    → IsAlert r
    → IsAlert (record r { workers = set r.workers w t; queue = q; heap = heap })
set-IsAlert r w s t q heap at g l a shorter v =
    let of_gone = tally-set gone r.workers w s t at in
    let of_locking = tally-set locking r.workers w s t at in
    let of_awake = tally-set awake r.workers w s t at in
    record {
      on = v.on;
      present = omega (arith, v.present, g, of_gone);
      free = ground (arith, v.free, l, of_locking, shorter);
      served = ground (arith, v.served, a, of_awake, shorter, length-set r.workers w t);
    }

take_job-IsAlert :
    (r : Runner) (w : ℕ) (q : List ℕ)
    → get_elem? r.workers w ≡ some testing
    → r.queue ≡ q
    → IsAlert r
    → IsAlert (take_job r w q)
unfolding take_job set_worker
take_job-IsAlert r w [] at e v =
    let of_gone = tally-set gone r.workers w testing before_wait at in
    let empty : length r.queue ≡ 0 = rw e refl in
    subst (λ b. IsAlert (set_worker r w (if b then before_wait else exited))) (sym v.on)
      record {
        on = v.on;
        present = omega (arith, v.present, of_gone);
        free = inl empty;
        served = inl empty;
      }
take_job-IsAlert r w (a ∷ rest) at e v =
    let shorter : length rest ≤ length r.queue = rw e (omega arith) in
    set-IsAlert r w testing (computing a) rest r.heap at (omega arith) (omega arith) (omega arith)
      shorter v

finish_job-IsAlert :
    (r : Runner) (w a : ℕ) (o : Option Job) {r' : Runner}
    → get_elem? r.workers w ≡ some (computing a)
    → finish_job r w a o ≡ defined r'
    → IsAlert r
    → IsAlert r'
unfolding finish_job set_worker
finish_job-IsAlert r w a none at h v = cc
finish_job-IsAlert r w a (some job) at h v =
    let ((status, result), x, fin) = >>=-eq-defined (execute job.req.payload) _ h in
    transfer IsAlert fin (
      set-IsAlert r w (computing a) at_loop r.queue _ at (omega arith) (omega arith) (omega arith)
        (omega arith) v)

step_worker-IsAlert :
    (r : Runner) (w : ℕ) (s : Worker) {r' : Runner}
    → get_elem? r.workers w ≡ some s
    → step_worker r w s ≡ defined r'
    → IsAlert r
    → IsAlert r'
unfolding step_worker set_worker
step_worker-IsAlert r w at_loop {r'} at h v =
    transfer IsAlert
      (subst (λ b. defined (set_worker r w (if b then testing else exited)) ≡ defined r') v.on h)
      (set-IsAlert r w at_loop testing r.queue r.heap at (omega arith) (omega arith) (omega arith)
        (omega arith) v)
step_worker-IsAlert r w testing at h v =
    transfer IsAlert h
      (if_keeps IsAlert (queue_locked r.workers) _ _ v (take_job-IsAlert r w r.queue at refl v))
step_worker-IsAlert r w before_wait at h v = transfer IsAlert h (
    set-IsAlert r w before_wait asleep r.queue r.heap at (omega arith) (omega arith) (omega arith)
      (omega arith) v)
step_worker-IsAlert r w asleep at h v = transfer IsAlert h v
step_worker-IsAlert r w (computing a) at h v = finish_job-IsAlert r w a (get_elem? r.heap a) at h v
step_worker-IsAlert r w exited at h v = transfer IsAlert h v

woken-IsAlert :
    (r : Runner) (w : ℕ) (s : Worker)
    → get_elem? r.workers w ≡ some s
    → IsAlert r
    → IsAlert (set_worker r w (woken s))
unfolding set_worker
woken-IsAlert r w s at v =
    set-IsAlert r w s (woken s) r.queue r.heap at (no_later s) (no_lock s) (no_sleep s)
      (omega arith) v
  where
    no_later : (s : Worker) → gone (woken s) ≤ gone s
    no_later s = ground arith

    no_lock : (s : Worker) → locking (woken s) ≤ locking s
    no_lock s = ground arith

    no_sleep : (s : Worker) → awake s ≤ awake (woken s)
    no_sleep s = ground arith

pub turn-IsAlert :
    (r : Runner) (t : Turn) {r' : Runner} → turn r t ≡ defined r' → IsAlert r → IsAlert r'
unfolding turn
turn-IsAlert r (go w) h v = elim (Option-cases (get_elem? r.workers w)) [
  | inl e ↦ transfer IsAlert (rw (e, step_if_any) at h) v
  | inr (s, e) ↦ step_worker-IsAlert r w s e (rw (e, step_if_any) at h) v
]
turn-IsAlert r (spurious w) h v = elim (Option-cases (get_elem? r.workers w)) [
  | inl e ↦ transfer IsAlert (rw (e, wake_up) at h) v
  | inr (s, e) ↦ transfer IsAlert (rw (e, wake_up) at h) (woken-IsAlert r w s e v)
]
