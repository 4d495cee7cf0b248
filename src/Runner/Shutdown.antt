-- ===== src/Runner/Shutdown.antt =====
-- `deinit` against a worker that is about to wait: `running` is cleared without `qMtx`.
use inter_process_communicat.Base.{
  ℕ, zero, suc, ◌≡◌, refl, sym, ap, ◌∙◌, subst, ◌≢◌, ◌⊎◌, inl, inr, true, false, Option, none, some,
  List, [], ◌∷◌, map, arith, defined, >>=-eq-defined, transfer, ◌==◌, ==_iff, Bool-cases,
  Option-cases, if_keeps, get_elem?, get_elem?-set,
}
use inter_process_communicat.Base.Int.{ℤ}
use inter_process_communicat.Operations.{execute}
use inter_process_communicat.Runner.{
  Job, Worker, at_loop, testing, before_wait, asleep, computing, exited, Runner, set_worker,
}
use inter_process_communicat.Runner.Workers.{
  queue_locked, take_job, finish_job, step_worker, step_if_any, woken, go, turn, turns, stop,
  all_exited, join, deinit,
}

-- A worker that waits, or is on its way into the wait.
abbrev pub IsWaiting : Option Worker → Type 0
IsWaiting o = (o ≡ some before_wait) ⊎ (o ≡ some asleep)

-- A turn of worker `v` leaves the others where they are.
abbrev pub Others : ℕ → Runner → Runner → Type 0
Others v r r' = (w : ℕ) → v ≢ w → get_elem? r'.workers w ≡ get_elem? r.workers w

pub set_worker-Others : (v : ℕ) (s : Worker) (r : Runner) → Others v r (set_worker r v s)
unfolding set_worker
set_worker-Others v s r w ne = ground (arith, get_elem?-set r.workers v s w)

pub take_job-Others : (v : ℕ) (r : Runner) (q : List ℕ) → Others v r (take_job r v q)
unfolding take_job
take_job-Others v r [] = set_worker-Others v _ r
take_job-Others v r (a ∷ q) = set_worker-Others v (computing a) r

pub finish_job-Others :
    (v : ℕ) (r : Runner) (a : ℕ) (o : Option Job) {r' : Runner}
    → finish_job r v a o ≡ defined r'
    → Others v r r'
unfolding finish_job
finish_job-Others v r a none h = cc
finish_job-Others v r a (some job) h =
    let ((status, result), x, fin) = >>=-eq-defined (execute job.req.payload) _ h in
    transfer (Others v r) fin (set_worker-Others v at_loop r)

pub step_worker-Others :
    (v : ℕ) (r : Runner) (s : Worker) {r' : Runner} → step_worker r v s ≡ defined r' → Others v r r'
unfolding step_worker
step_worker-Others v r at_loop h = transfer (Others v r) h (set_worker-Others v _ r)
step_worker-Others v r testing h = transfer (Others v r) h (
    if_keeps (Others v r) (queue_locked r.workers) _ _ (λ w ne. refl) (take_job-Others v r r.queue))
step_worker-Others v r before_wait h = transfer (Others v r) h (set_worker-Others v asleep r)
step_worker-Others v r asleep h = transfer (Others v r) h (λ w ne. refl)
step_worker-Others v r (computing a) h = finish_job-Others v r a (get_elem? r.heap a) h
step_worker-Others v r exited h = transfer (Others v r) h (λ w ne. refl)

step_worker-IsWaiting :
    (w : ℕ) (r : Runner) (s : Worker) {r' : Runner}
    → get_elem? r.workers w ≡ some s
    → IsWaiting (some s)
    → step_worker r w s ≡ defined r'
    → IsWaiting (get_elem? r'.workers w)
unfolding step_worker set_worker
step_worker-IsWaiting w r before_wait e i h =
    transfer (λ (q : Runner). IsWaiting (get_elem? q.workers w)) h
      (inr (ground (arith, get_elem?-set r.workers w asleep w)))
step_worker-IsWaiting w r asleep e i h =
    transfer (λ (q : Runner). IsWaiting (get_elem? q.workers w)) h (inr e)
step_worker-IsWaiting w r at_loop e i h = absurd (ground arith)
step_worker-IsWaiting w r testing e i h = absurd (ground arith)
step_worker-IsWaiting w r (computing a) e i h = absurd (ground arith)
step_worker-IsWaiting w r exited e i h = absurd (ground arith)

turn-IsWaiting :
    (w v : ℕ) (r : Runner) {r' : Runner}
    → turn r (go v) ≡ defined r'
    → IsWaiting (get_elem? r.workers w)
    → IsWaiting (get_elem? r'.workers w)
unfolding turn
turn-IsWaiting w v r {r'} h i = elim (Option-cases (get_elem? r.workers v)) [
  | inl e ↦
      transfer (λ (q : Runner). IsWaiting (get_elem? q.workers w)) (rw (e, step_if_any) at h) i
  | inr (s, e) ↦
      let h' : step_worker r v s ≡ defined r' = rw (e, step_if_any) at h in
      elim (Bool-cases (v == w)) [
        | inl own ↦
            let same : v ≡ w = (==_iff v w).0 own in
            let at_v = subst IsWaiting (ap (get_elem? r.workers) (sym same) ∙ e) i in
            subst (λ x. IsWaiting (get_elem? r'.workers x)) same
              (step_worker-IsWaiting v r s e at_v h')
        | inr other ↦ rw (step_worker-Others v r s h' w (ground arith)) i
      ]
]

turns-IsWaiting :
    (w : ℕ) (r : Runner) (vs : List ℕ) {r' : Runner}
    → turns r (map go vs) ≡ defined r'
    → IsWaiting (get_elem? r.workers w)
    → IsWaiting (get_elem? r'.workers w)
unfolding turns
turns-IsWaiting w r [] h i = transfer (λ (q : Runner). IsWaiting (get_elem? q.workers w)) h i
turns-IsWaiting w r (v ∷ vs) h i =
    let (q, first, rest) = >>=-eq-defined (turn r (go v)) (λ q. turns q (map go vs)) h in
    turns-IsWaiting w q vs rest (turn-IsWaiting w v r first i)

waiting-not-exited : (w : ℕ) (ws : List Worker) → IsWaiting (get_elem? ws w) → all_exited ws ≡ false
unfolding all_exited
waiting-not-exited w [] i = absurd (ground arith)
waiting-not-exited zero (exited ∷ ws) i = absurd (ground arith)
waiting-not-exited (suc w) (exited ∷ ws) i = waiting-not-exited w ws i
waiting-not-exited w (at_loop ∷ ws) i = refl
waiting-not-exited w (testing ∷ ws) i = refl
waiting-not-exited w (before_wait ∷ ws) i = refl
waiting-not-exited w (asleep ∷ ws) i = refl
waiting-not-exited w (computing a ∷ ws) i = refl

woken-before_wait :
    (w : ℕ) (ws : List Worker)
    → get_elem? ws w ≡ some before_wait
    → get_elem? (map woken ws) w ≡ some before_wait
woken-before_wait w [] e = cc
woken-before_wait zero (s ∷ ws) e = let same : s ≡ before_wait = cc in rw same
woken-before_wait (suc w) (s ∷ ws) e = woken-before_wait w ws e

-- If `deinit` is called while a worker has seen `running` and an empty queue, but does not wait yet,
-- then the broadcast wakes nobody in its place, and it sleeps for good: unless a thread wakes up
-- without a signal, no schedule of the workers lets the joins of `deinit` return.
pub deinit-lost_wakeup :
    (r : Runner) (w : ℕ) (schedule : List ℕ) {result : ℤ × Runner}
    → r.running ≡ true
    → get_elem? r.workers w ≡ some before_wait
    → deinit r (map go schedule) ≢ defined (some result)
unfolding deinit join stop
deinit-lost_wakeup r w schedule on e h =
    let (q, ran, last) = >>=-eq-defined (turns (stop r) (map go schedule)) _ (simp on at h) in
    let i = turns-IsWaiting w (stop r) schedule ran (inl (woken-before_wait w r.workers e)) in
    cc (rw (waiting-not-exited w q.workers i) at last)
