-- ===== src/Runner/Rank.antt =====
-- What the turns of the workers achieve once `running` is false.
use inter_process_communicat.Base.{
  ℕ, suc, ◌-◌, ◌≤◌, ◌≡◌, refl, sym, subst, inl, inr, false, Option, none, some, List, [], ◌∷◌, map,
  arith, defined, >>=-eq-defined, transfer, ◌==◌, ==_iff, Bool-cases, Option-cases, get_elem?, set,
  get_elem?-set, if◌then◌else◌,
}
use inter_process_communicat.Operations.{execute}
use inter_process_communicat.Runner.{
  Job, Worker, at_loop, testing, before_wait, asleep, computing, exited, Runner, set_worker,
}
use inter_process_communicat.Runner.Workers.{
  queue_locked, take_job, finish_job, step_worker, step_if_any, go, turn, turns,
}
use inter_process_communicat.Runner.Shutdown.{Others, step_worker-Others}

-- How many turns a worker needs at most to return from `workerLoop` when `running` is false; one that
-- waits is not woken again.
abbrev pub rank : Option Worker → ℕ
rank none = 0
rank (some exited) = 0
rank (some at_loop) = 1
rank (some (computing a)) = 2
rank (some testing) = 3
rank (some before_wait) = 4
rank (some asleep) = 4

-- How many of the turns are those of worker `w`.
abbrev pub turns_of : ℕ → List ℕ → ℕ
turns_of w [] = 0
turns_of w (v ∷ vs) = if v == w then suc (turns_of w vs) else turns_of w vs

abbrev pub AllAwake : List Worker → Type 0
AllAwake ws = (w : ℕ) → rank (get_elem? ws w) ≤ 3

unlocked : (ws : List Worker) → AllAwake ws → queue_locked ws ≡ false
unfolding queue_locked
unlocked [] h = refl
unlocked (before_wait ∷ ws) h = let bad = h 0 in absurd (omega arith)
unlocked (at_loop ∷ ws) h = unlocked ws (λ w. h (suc w))
unlocked (testing ∷ ws) h = unlocked ws (λ w. h (suc w))
unlocked (asleep ∷ ws) h = unlocked ws (λ w. h (suc w))
unlocked (computing a ∷ ws) h = unlocked ws (λ w. h (suc w))
unlocked (exited ∷ ws) h = unlocked ws (λ w. h (suc w))

-- What a turn of worker `v` in state `s` achieves.
Comes : ℕ → Worker → Runner → Type 0
Comes v s r = (r.running ≡ false) × (rank (get_elem? r.workers v) ≤ rank (some s) - 1)

set_worker-Comes :
    (v : ℕ) (old s : Worker) (r : Runner)
    → r.running ≡ false
    → get_elem? r.workers v ≡ some old
    → rank (some s) ≤ rank (some old) - 1
    → Comes v old (set_worker r v s)
unfolding Comes set_worker
set_worker-Comes v old s r off e h =
    let now : get_elem? (set r.workers v s) v ≡ some s =
      ground (arith, get_elem?-set r.workers v s v) in
    (off, subst (λ o. rank o ≤ rank (some old) - 1) (sym now) h)

still_Comes :
    (v : ℕ) (r : Runner)
    → r.running ≡ false
    → get_elem? r.workers v ≡ some exited
    → Comes v exited r
unfolding Comes
still_Comes v r off e = (off, subst (λ o. rank o ≤ 0) (sym e) (omega arith))

take_job-Comes :
    (v : ℕ) (r : Runner) (q : List ℕ)
    → r.running ≡ false
    → get_elem? r.workers v ≡ some testing
    → Comes v testing (take_job r v q)
unfolding take_job Comes
take_job-Comes v r [] off e =
    subst (λ b. Comes v testing (set_worker r v (if b then before_wait else exited))) (sym off)
      (set_worker-Comes v testing exited r off e (omega arith))
take_job-Comes v r (a ∷ q) off e = set_worker-Comes v testing (computing a) r off e (omega arith)

finish_job-Comes :
    (v a : ℕ) (r : Runner) (o : Option Job) {r' : Runner}
    → r.running ≡ false
    → get_elem? r.workers v ≡ some (computing a)
    → finish_job r v a o ≡ defined r'
    → Comes v (computing a) r'
unfolding finish_job Comes
finish_job-Comes v a r none off e h = cc
finish_job-Comes v a r (some job) off e h =
    let ((status, result), x, fin) = >>=-eq-defined (execute job.req.payload) _ h in
    transfer (Comes v (computing a)) fin
      (set_worker-Comes v (computing a) at_loop r off e (omega arith))

step_worker-Comes :
    (v : ℕ) (s : Worker) (r : Runner) {r' : Runner}
    → r.running ≡ false
    → AllAwake r.workers
    → get_elem? r.workers v ≡ some s
    → step_worker r v s ≡ defined r'
    → Comes v s r'
unfolding step_worker
step_worker-Comes v at_loop r {r'} off awake e h =
    transfer (Comes v at_loop)
      (subst (λ b. defined (set_worker r v (if b then testing else exited)) ≡ defined r') off h)
      (set_worker-Comes v at_loop exited r off e (omega arith))
step_worker-Comes v testing r off awake e h =
    transfer (Comes v testing) (rw (unlocked r.workers awake) at h)
      (take_job-Comes v r r.queue off e)
step_worker-Comes v before_wait r off awake e h =
    let bad : rank (some before_wait) ≤ 3 = subst (λ o. rank o ≤ 3) e (awake v) in
    absurd (omega arith)
step_worker-Comes v asleep r off awake e h =
    let bad : rank (some asleep) ≤ 3 = subst (λ o. rank o ≤ 3) e (awake v) in absurd (omega arith)
step_worker-Comes v (computing a) r off awake e h =
    finish_job-Comes v a r (get_elem? r.heap a) off e h
step_worker-Comes v exited r off awake e h = transfer (Comes v exited) h (still_Comes v r off e)

Progress : ℕ → Runner → Runner → Type 0
Progress v r r' =
    (w : ℕ)
    → rank (get_elem? r'.workers w)
      ≤ (if v == w then rank (get_elem? r.workers w) - 1 else rank (get_elem? r.workers w))

progress :
    (v : ℕ) (r r' : Runner)
    → rank (get_elem? r'.workers v) ≤ rank (get_elem? r.workers v) - 1
    → Others v r r'
    → Progress v r r'
unfolding Progress
progress v r r' own others w = elim (Bool-cases (v == w)) [
  | inl same ↦ rw same (
      subst (λ u. rank (get_elem? r'.workers u) ≤ rank (get_elem? r.workers u) - 1)
        ((==_iff v w).0 same) own)
  | inr other ↦ rw (other, others w (ground arith)) (omega arith)
]

-- A turn of worker `v`, when `running` is false and nobody waits.
turn-Progress :
    (v : ℕ) (r : Runner) {r' : Runner}
    → r.running ≡ false
    → AllAwake r.workers
    → turn r (go v) ≡ defined r'
    → (r'.running ≡ false) × Progress v r r'
unfolding turn step_if_any Comes
turn-Progress v r {r'} off awake h = elim (Option-cases (get_elem? r.workers v)) [
  | inl gone ↦
      let idle : rank (get_elem? r.workers v) ≤ rank (get_elem? r.workers v) - 1 =
        rw gone (omega arith) in
      transfer (λ (q : Runner). (q.running ≡ false) × Progress v r q) (rw (gone, step_if_any) at h)
        (off, progress v r r idle (λ w ne. refl))
  | inr (s, e) ↦
      let h' : step_worker r v s ≡ defined r' = rw (e, step_if_any) at h in
      let next = step_worker-Comes v s r off awake e h' in
      let own = subst (λ o. rank (get_elem? r'.workers v) ≤ rank o - 1) (sym e) next.1 in
      (next.0, progress v r r' own (step_worker-Others v r s h'))
]

pub turns-end :
    (vs : List ℕ) (r : Runner) {r' : Runner}
    → r.running ≡ false
    → AllAwake r.workers
    → ((w : ℕ) → rank (get_elem? r.workers w) ≤ turns_of w vs)
    → turns r (map go vs) ≡ defined r'
    → (w : ℕ) → rank (get_elem? r'.workers w) ≡ 0
unfolding turns Progress
turns-end [] r off awake enough h =
    transfer (λ (q : Runner). (w : ℕ) → rank (get_elem? q.workers w) ≡ 0) h
      (λ w. let e = enough w in omega arith)
turns-end (v ∷ vs) r off awake enough h =
    let (q, first, rest) = >>=-eq-defined (turn r (go v)) (λ q. turns q (map go vs)) h in
    let (still, less) = turn-Progress v r off awake first in
    turns-end vs q still (λ w. awake_after w q less) (λ w. enough_after w q less) rest
  where
    awake_after : (w : ℕ) (q : Runner) → Progress v r q → rank (get_elem? q.workers w) ≤ 3
    awake_after w q less = ground (arith, less w, awake w)

    enough_after :
        (w : ℕ) (q : Runner) → Progress v r q → rank (get_elem? q.workers w) ≤ turns_of w vs
    enough_after w q less = ground (arith, less w, enough w)
