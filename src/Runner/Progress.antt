-- ===== src/Runner/Progress.antt =====
-- Which turns of the workers are defined.
use inter_process_communicat.Base.{
  ℕ, ◌≤◌, ◌≡◌, refl, sym, ap, ◌∙◌, inl, inr, true, Option, none, some, List, [], ◌∷◌, arith,
  defined, ◌==◌, Bool-cases, Option-cases, get_elem?, set, get_elem?-set,
}
use inter_process_communicat.Protocol.{Status, Result}
use inter_process_communicat.Operations.{execute}
use inter_process_communicat.Runner.{
  Job, Worker, at_loop, testing, before_wait, asleep, computing, exited, Runner, set_worker,
}
use inter_process_communicat.Runner.Workers.{
  finish_job, step_worker, step_if_any, Turn, go, spurious, turn, turns,
}
use inter_process_communicat.Runner.Effect.{Effect, same, finishes, turn-Effect}
use inter_process_communicat.Runner.Tally.{tally-member}
use inter_process_communicat.Runner.Accounting.{hold, holds, allocated, places, IsAccounted}
use inter_process_communicat.Runner.Accounting.Workers.{turn-IsAccounted}

-- No request that the runner holds is undefined.
abbrev pub IsExecutable : Runner → Type 0
IsExecutable r =
    (a : ℕ) (job : Job)
    → get_elem? r.heap a ≡ some job
    → (o : Status × Result) × (execute job.req.payload ≡ defined o)

Effect-IsExecutable : {r r' : Runner} → Effect r r' → IsExecutable r → IsExecutable r'
Effect-IsExecutable (same h j) v a job e = v a job (rw h at e)
Effect-IsExecutable {r} {r'} (finishes b job status result at x h j) v a new e =
    let done : Job = record job { status = status; result = result; done = true } in
    let written = rw h at e in
    elim (Bool-cases (b == a)) [
      | inl hit ↦
          let one : done ≡ new = ground (arith, get_elem?-set r.heap b done a) in
          ((status, result), ap (λ (k : Job). execute k.req.payload) (sym one) ∙ x)
      | inr miss ↦ v a new (ground (arith, get_elem?-set r.heap b done a))
    ]

holds-computing :
    (a : ℕ) (ws : List Worker) (w : ℕ) → get_elem? ws w ≡ some (computing a) → 1 ≤ holds a ws
holds-computing a ws w e =
    let one : hold a (computing a) ≡ 1 = ground arith in
    omega (arith, one, tally-member (hold a) ws w (computing a) e)

finish_job-defined :
    (r : Runner) (w a : ℕ) (o : Option Job)
    → get_elem? r.heap a ≡ o
    → 1 ≤ allocated o
    → IsExecutable r
    → (r' : Runner) × (finish_job r w a o ≡ defined r')
unfolding finish_job
finish_job-defined r w a none e h v = absurd (omega arith)
finish_job-defined r w a (some job) e h v =
    let ((status, result), x) = v a job e in
    (
      record (set_worker r w at_loop) {
        heap = set r.heap a (record job { status = status; result = result; done = true });
      },
      rw x refl,
    )

step_worker-defined :
    (r : Runner) (w : ℕ) (s : Worker)
    → get_elem? r.workers w ≡ some s
    → IsAccounted r
    → IsExecutable r
    → (r' : Runner) × (step_worker r w s ≡ defined r')
unfolding step_worker
step_worker-defined r w at_loop e places v = (_, refl)
step_worker-defined r w testing e places v = (_, refl)
step_worker-defined r w before_wait e places v = (_, refl)
step_worker-defined r w asleep e places v = (_, refl)
step_worker-defined r w (computing a) e places v =
    finish_job-defined r w a (get_elem? r.heap a) refl
      (omega (arith, places a, holds-computing a r.workers w e)) v
step_worker-defined r w exited e places v = (_, refl)

pub turn-defined :
    (r : Runner) (t : Turn)
    → IsAccounted r
    → IsExecutable r
    → (r' : Runner) × (turn r t ≡ defined r')
unfolding turn step_if_any
turn-defined r (go w) places v = elim (Option-cases (get_elem? r.workers w)) [
  | inl gone ↦ (r, rw gone refl)
  | inr (s, e) ↦ let (r', h) = step_worker-defined r w s e places v in (r', rw e h)
]
turn-defined r (spurious w) places v = (_, refl)

pub turn-IsExecutable :
    (r : Runner) (t : Turn) {r' : Runner} → turn r t ≡ defined r' → IsExecutable r → IsExecutable r'
turn-IsExecutable r t h = Effect-IsExecutable (turn-Effect r t h)

-- Every sequence of turns of a runner whose jobs are accounted for and executable.
pub turns-defined :
    (r : Runner) (ts : List Turn)
    → IsAccounted r
    → IsExecutable r
    → (r' : Runner) × (turns r ts ≡ defined r')
unfolding turns
turns-defined r [] places v = (r, refl)
turns-defined r (t ∷ ts) places v =
    let (q, first) = turn-defined r t places v in
    let (r', rest) =
      turns-defined q ts (turn-IsAccounted r t first places) (turn-IsExecutable r t first v) in
    (r', rw first rest)
