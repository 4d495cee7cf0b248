-- ===== src/Runner/Alert/Calls.antt =====
-- `IsAlert` through `enqueue`, `run`, `get`, `init` and `deinit`.
use inter_process_communicat.Base.{
  ℕ, zero, suc, ◌≤◌, ◌≡◌, refl, ◌∙◌, subst, ◌⊎◌, inl, inr, Bool, true, false, some, List, [], ◌∷◌,
  ◌++◌, map, arith, defined, >>=-eq-defined, transfer_some, length, Bool-cases,
}
use inter_process_communicat.Base.Int.{ℤ}
use inter_process_communicat.Protocol.{Result, SubmitRequest}
use inter_process_communicat.Runner.{
  Job, Worker, at_loop, testing, before_wait, asleep, computing, exited, Runner, new_runner,
}
use inter_process_communicat.Runner.Workers.{
  Turn, turn, turns, init, stop, spawn, join, deinit, all_exited,
}
use inter_process_communicat.Runner.Submit.{settled, wake_first, signal, enqueue}
use inter_process_communicat.Runner.Get.{take_out}
use inter_process_communicat.Runner.Tally.{tally, tally-map, tally-set, tally-signal, tally-spawn}
use inter_process_communicat.Runner.Cases.{Anytime, Keeps, turns-keeps, run-keeps, get-keeps}
use inter_process_communicat.Runner.History.{
  Step, works, submits, fetches, starts, stops, Reach, here, next,
}
use inter_process_communicat.Runner.Steady.{turn-Steady}
use inter_process_communicat.Runner.Alert.{locking, awake, gone, IsAlert, turn-IsAlert}

gone-settled : (s : Worker) → gone (settled s) ≡ gone s
gone-settled before_wait = refl
gone-settled _ = refl

locking-settled : (ws : List Worker) → tally locking (map settled ws) ≡ 0
locking-settled [] = refl
locking-settled (at_loop ∷ ws) = omega (arith, locking-settled ws)
locking-settled (testing ∷ ws) = omega (arith, locking-settled ws)
locking-settled (before_wait ∷ ws) = omega (arith, locking-settled ws)
locking-settled (asleep ∷ ws) = omega (arith, locking-settled ws)
locking-settled (computing a ∷ ws) = omega (arith, locking-settled ws)
locking-settled (exited ∷ ws) = omega (arith, locking-settled ws)

-- A signal leaves somebody awake, where nobody has returned or is on the way into the wait.
wake_first-awake :
    (w : Worker) (ws : List Worker)
    → tally gone (w ∷ ws) ≡ 0
    → tally locking (w ∷ ws) ≡ 0
    → 1 ≤ tally awake (wake_first (w ∷ ws))
unfolding wake_first
wake_first-awake at_loop ws g l = omega arith
wake_first-awake testing ws g l = omega arith
wake_first-awake before_wait ws g l = absurd (omega arith)
wake_first-awake asleep ws g l = omega arith
wake_first-awake (computing a) ws g l = omega arith
wake_first-awake exited ws g l = absurd (omega arith)

signal-awake :
    (pick : ℕ) (ws : List Worker)
    → tally gone ws ≡ 0
    → tally locking ws ≡ 0
    → (length (signal pick ws) ≡ 0) ⊎ (1 ≤ tally awake (signal pick ws))
unfolding signal wake_first
signal-awake pick [] g l = inl refl
signal-awake pick (w ∷ ws) g l =
    ground (arith, wake_first-awake w ws g l, tally-set awake (w ∷ ws) pick asleep testing)

enqueue-IsAlert :
    (r : Runner) (now pick : ℕ) (req : SubmitRequest)
    → IsAlert r
    → IsAlert (enqueue r now pick req).1
unfolding enqueue
enqueue-IsAlert r now pick req v =
    let ws = map settled r.workers in
    let nobody_left : tally gone ws ≡ 0 =
      omega (arith, v.present, tally-map gone settled gone-settled r.workers) in
    let nobody_locks = locking-settled r.workers in
    record {
      on = v.on;
      present = omega (arith, nobody_left, tally-signal gone refl pick ws);
      free = inr (omega (arith, nobody_locks, tally-signal locking refl pick ws));
      served = inr (signal-awake pick ws nobody_left nobody_locks);
    }

-- A pool that is not started has no threads.
pub record IsDown (r : Runner) : Type 0 where
  pub off : r.running ≡ false
  pub empty : length r.workers ≡ 0

abbrev pub IsServed : Runner → Type 0
IsServed r = IsAlert r ⊎ IsDown r

turn-IsServed :
    (r : Runner) (t : Turn) {r' : Runner} → turn r t ≡ defined r' → IsServed r → IsServed r'
turn-IsServed r t h (inl up) = inl (turn-IsAlert r t h up)
turn-IsServed r t h (inr down) =
    let (on, threads) = turn-Steady r t h in
    inr (record { off = on ∙ down.off; empty = threads ∙ down.empty })

signal-nobody :
    (pick : ℕ) (ws : List Worker) → length ws ≡ 0 → length (signal pick (map settled ws)) ≡ 0
unfolding signal wake_first
signal-nobody pick [] e = refl
signal-nobody pick (w ∷ ws) e = absurd (omega arith)

enqueue-IsDown :
    (r : Runner) (now pick : ℕ) (req : SubmitRequest) → IsDown r → IsDown (enqueue r now pick req).1
unfolding enqueue
enqueue-IsDown r now pick req down = record {
  off = down.off;
  empty = signal-nobody pick r.workers down.empty;
}

enqueue-IsServed :
    (r : Runner) (now pick : ℕ) (req : SubmitRequest)
    → IsServed r
    → IsServed (enqueue r now pick req).1
enqueue-IsServed r now pick req (inl up) = inl (enqueue-IsAlert r now pick req up)
enqueue-IsServed r now pick req (inr down) = inr (enqueue-IsDown r now pick req down)

take_out-IsServed :
    (r : Runner) (id a : ℕ) (job : Job) (old : Result)
    → IsServed r
    → IsServed (take_out r id a job old)
unfolding take_out
take_out-IsServed r id a job old (inl up) =
    inl (record { on = up.on; present = up.present; free = up.free; served = up.served })
take_out-IsServed r id a job old (inr down) = inr (record { off = down.off; empty = down.empty })

IsServed-Keeps : Keeps IsServed Anytime
IsServed-Keeps = record {
  on_turn = λ r t r' h v. turn-IsServed r t h v;
  on_enqueue = λ r now pick req ok v. enqueue-IsServed r now pick req v;
  on_take_out = λ r id a job old f e d v. take_out-IsServed r id a job old v;
}

awake-spawn :
    (n i : ℕ) (created : ℕ → Bool) → tally awake (spawn n i created) ≡ length (spawn n i created)
unfolding spawn
awake-spawn zero i created = refl
awake-spawn (suc n) i created = ground (arith, awake-spawn n (suc i) created)

spawned-IsAlert :
    (r : Runner) (n : ℕ) (created : ℕ → Bool) (ws : List Worker)
    → length ws ≡ 0
    → IsAlert (record r { running = true; workers = ws ++ spawn n 0 created })
spawned-IsAlert r n created [] e = record {
  on = refl;
  present = tally-spawn gone refl n 0 created;
  free = inr (tally-spawn locking refl n 0 created);
  served = ground (arith, awake-spawn n 0 created);
}
spawned-IsAlert r n created (w ∷ ws) e = absurd (omega arith)

init-IsServed :
    (r : Runner) (n : ℕ) (created : ℕ → Bool) → IsServed r → IsServed (init r n created).1
unfolding init
init-IsServed r n created (inl up) = simp up.on (inl up)
init-IsServed r n created (inr down) =
    simp down.off (inl (spawned-IsAlert r n created r.workers down.empty))

join-IsDown :
    (q : Runner) {code : ℤ} {r' : Runner}
    → q.running ≡ false
    → defined (join q) ≡ defined (some (code, r'))
    → IsDown r'
unfolding join
join-IsDown q off h = elim (Bool-cases (all_exited q.workers)) [
  | inl over ↦
      transfer_some (λ (x : ℤ × Runner). IsDown x.1) (rw over at h)
        (record { off = off; empty = refl })
  | inr wait ↦ absurd (cc (rw wait at h))
]

deinit-IsServed :
    (r : Runner) (schedule : List Turn) {code : ℤ} {r' : Runner}
    → deinit r schedule ≡ defined (some (code, r'))
    → IsServed r
    → IsServed r'
unfolding deinit stop
deinit-IsServed r schedule h (inl up) =
    let (q, ran, last) = >>=-eq-defined (turns (stop r) schedule) _ (simp up.on at h) in
    let off =
      turns-keeps (λ (q : Runner). q.running ≡ false) (λ r t r' h off. (turn-Steady r t h).0 ∙ off)
        (stop r) schedule ran refl in
    inr (join-IsDown q off last)
deinit-IsServed r schedule h (inr down) =
    transfer_some (λ (x : ℤ × Runner). IsServed x.1) (simp down.off at h) (inr down)

Step-IsServed : {r r' : Runner} → Step r r' → IsServed r → IsServed r'
Step-IsServed {r} {r'} (works t h) v = turn-IsServed r t h v
Step-IsServed {r} (submits now pick req response out h e) v =
    subst IsServed e (run-keeps IsServed Anytime IsServed-Keeps r now pick req response h tt v)
Step-IsServed {r} (fetches env req response out h e) v =
    subst IsServed e (get-keeps IsServed Anytime IsServed-Keeps r env req response h v)
Step-IsServed {r} (starts n created e) v = subst IsServed e (init-IsServed r n created v)
Step-IsServed {r} (stops schedule code h) v = deinit-IsServed r schedule h v

reached : {r r' : Runner} → Reach Anytime r r' → IsServed r → IsServed r'
reached here v = v
reached (next before step ok) v = Step-IsServed step (reached before v)

new_runner-IsServed : (seq : ℕ) → IsServed (new_runner seq)
unfolding new_runner
new_runner-IsServed seq = inr (record { off = refl; empty = refl })

-- In every state that a new runner reaches in which the pool runs, no thread has returned, and while a
-- job is queued no worker is on its way into the wait, and at least one of them, if there is any, comes
-- to the queue without being woken up: the signal of `enqueue` is never lost.
pub Reach-IsAlert :
    (seq : ℕ) {r : Runner} → Reach Anytime (new_runner seq) r → r.running ≡ true → IsAlert r
Reach-IsAlert seq {r} reach on = running_one (reached reach (new_runner-IsServed seq))
  where
    running_one : IsServed r → IsAlert r
    running_one (inl up) = up
    running_one (inr down) = absurd (cc (on, down.off))
