-- ===== src/Runner/Accounting/Workers.antt =====
-- `IsAccounted` through the turns of the workers.
use inter_process_communicat.Base.{
  ℕ, ◌≡◌, refl, ap, true, List, [], ◌∷◌, Option, none, some, arith, defined, >>=-eq-defined,
  get_elem?, set, count, transfer, Option-cases, inl, inr,
}
use inter_process_communicat.Operations.{execute}
use inter_process_communicat.Runner.{
  Job, Worker, at_loop, testing, before_wait, asleep, computing, exited, Runner, set_worker,
}
use inter_process_communicat.Runner.Workers.{
  take_job, finish_job, step_worker, woken, Turn, go, spurious, turn, turns, step_if_any, wake_up,
}
use inter_process_communicat.Runner.Tally.{tally-set}
use inter_process_communicat.Runner.Accounting.{hold, places, IsAccounted, hold-woken, finished-set}

take_job-places :
    (r : Runner) (w : ℕ) (queue : List ℕ) (a : ℕ)
    → get_elem? r.workers w ≡ some testing
    → r.queue ≡ queue
    → places (take_job r w queue) a ≡ places r a
unfolding take_job
take_job-places r w [] a h e = ground (
  arith,
  tally-set (hold a) r.workers w testing before_wait,
  tally-set (hold a) r.workers w testing exited,
)
take_job-places r w (b ∷ rest) a h e =
    ground (arith, tally-set (hold a) r.workers w testing (computing b), ap (count a) e)

-- Worker `w` finishes job `b`.
module _ (r : Runner) (w b : ℕ) (job new : Job) where
  abbrev after : Runner
  after = record r { workers = set r.workers w at_loop; heap = set r.heap b new }

  finish-places :
      IsAccounted r
      → get_elem? r.workers w ≡ some (computing b)
      → get_elem? r.heap b ≡ some job
      → new.done ≡ true
      → IsAccounted after
  finish-places v at e d a = ground (
    arith,
    v a,
    tally-set (hold a) r.workers w (computing b) at_loop at,
    finished-set r.heap a b job e new,
  )

finish_job-IsAccounted :
    (r : Runner) (w b : ℕ) (o : Option Job) {r' : Runner}
    → get_elem? r.workers w ≡ some (computing b)
    → get_elem? r.heap b ≡ o
    → finish_job r w b o ≡ defined r'
    → IsAccounted r
    → IsAccounted r'
unfolding finish_job
finish_job-IsAccounted r w b none at e h v = cc
finish_job-IsAccounted r w b (some job) at e h v =
    let ((status, result), x, fin) = >>=-eq-defined (execute job.req.payload) _ h in
    transfer IsAccounted fin (finish-places r w b job _ v at e refl)

keep_places :
    (r : Runner) (w : ℕ) (s t : Worker)
    → get_elem? r.workers w ≡ some s
    → ((a : ℕ) → hold a t ≡ hold a s)
    → IsAccounted r
    → IsAccounted (set_worker r w t)
unfolding set_worker
keep_places r w s t at same v a = omega (arith, v a, same a, tally-set (hold a) r.workers w s t at)

step_worker-IsAccounted :
    (r : Runner) (w : ℕ) (s : Worker) {r' : Runner}
    → get_elem? r.workers w ≡ some s
    → step_worker r w s ≡ defined r'
    → IsAccounted r
    → IsAccounted r'
unfolding step_worker
step_worker-IsAccounted r w at_loop at h v =
    transfer IsAccounted h (keep_places r w at_loop _ at (λ a. ground arith) v)
step_worker-IsAccounted r w testing at h v =
    transfer IsAccounted h (λ a. ground (arith, v a, take_job-places r w r.queue a at refl))
step_worker-IsAccounted r w before_wait at h v =
    transfer IsAccounted h (keep_places r w before_wait asleep at (λ a. refl) v)
step_worker-IsAccounted r w asleep at h v = transfer IsAccounted h v
step_worker-IsAccounted r w (computing b) at h v =
    finish_job-IsAccounted r w b (get_elem? r.heap b) at refl h v
step_worker-IsAccounted r w exited at h v = transfer IsAccounted h v

pub turn-IsAccounted :
    (r : Runner) (t : Turn) {r' : Runner} → turn r t ≡ defined r' → IsAccounted r → IsAccounted r'
unfolding turn
turn-IsAccounted r (go w) {r'} h v = elim (Option-cases (get_elem? r.workers w)) [
  | inl e ↦ transfer IsAccounted (rw (e, step_if_any) at h) v
  | inr (s, e) ↦ step_worker-IsAccounted r w s e (rw (e, step_if_any) at h) v
]
turn-IsAccounted r (spurious w) h v = elim (Option-cases (get_elem? r.workers w)) [
  | inl e ↦ transfer IsAccounted (rw (e, wake_up) at h) v
  | inr (s, e) ↦
      transfer IsAccounted (rw (e, wake_up) at h)
        (keep_places r w s (woken s) e (λ a. hold-woken a s) v)
]

-- Turns of the workers lose no job, duplicate none and run none twice.
pub turns-IsAccounted :
    (r : Runner) (ts : List Turn) {r' : Runner}
    → turns r ts ≡ defined r'
    → IsAccounted r
    → IsAccounted r'
unfolding turns
turns-IsAccounted r [] h v = transfer IsAccounted h v
turns-IsAccounted r (t ∷ ts) h v =
    let (q, first, rest) = >>=-eq-defined (turn r t) (λ q. turns q ts) h in
    turns-IsAccounted q ts rest (turn-IsAccounted r t first v)
