-- ===== src/Runner/Stopping.antt =====
-- `deinit` of a pool in which no worker is on its way into the wait.
use inter_process_communicat.Base.{
  ℕ, zero, suc, ◌≤◌, ◌<◌, ◌≡◌, refl, ◌≢◌, true, some, List, [], ◌∷◌, map, arith, defined, length,
  ltb, get_elem?, if◌then◌else◌,
}
use inter_process_communicat.Protocol.{ec_success}
use inter_process_communicat.Runner.{
  Worker, at_loop, testing, before_wait, asleep, computing, exited, Runner,
}
use inter_process_communicat.Runner.Workers.{woken, go, broadcast, stop, all_exited, join, deinit}
use inter_process_communicat.Runner.{new_runner}
use inter_process_communicat.Runner.Cases.{Anytime}
use inter_process_communicat.Runner.History.{Reach}
use inter_process_communicat.Runner.Accounting.Calls.{stop-IsAccounted, Reach-IsAccounted}
use inter_process_communicat.Runner.Progress.{IsExecutable, turns-defined}
use inter_process_communicat.Runner.Rank.{rank, turns_of, AllAwake, turns-end}

all_returned : (ws : List Worker) → ((w : ℕ) → rank (get_elem? ws w) ≡ 0) → all_exited ws ≡ true
unfolding all_exited
all_returned [] h = refl
all_returned (exited ∷ ws) h = all_returned ws (λ w. h (suc w))
all_returned (at_loop ∷ ws) h = let bad = h 0 in absurd (omega arith)
all_returned (testing ∷ ws) h = let bad = h 0 in absurd (omega arith)
all_returned (before_wait ∷ ws) h = let bad = h 0 in absurd (omega arith)
all_returned (asleep ∷ ws) h = let bad = h 0 in absurd (omega arith)
all_returned (computing a ∷ ws) h = let bad = h 0 in absurd (omega arith)

-- The broadcast wakes everyone up who waits.
woken-rank :
    (ws : List Worker) (w : ℕ)
    → get_elem? ws w ≢ some before_wait
    → rank (get_elem? (map woken ws) w) ≤ (if ltb w (length ws) then 3 else 0)
woken-rank [] w h = ground arith
woken-rank (s ∷ ws) zero h = ground (arith, awake s h)
  where
    awake : (s : Worker) → some s ≢ some before_wait → rank (some (woken s)) ≤ 3
    awake at_loop h = omega arith
    awake testing h = omega arith
    awake before_wait h = absurd (h refl)
    awake asleep h = omega arith
    awake (computing a) h = omega arith
    awake exited h = omega arith
woken-rank (s ∷ ws) (suc w) h = ground (arith, woken-rank ws w h)

-- If `deinit` of a running pool, which a new runner reaches, is called while no worker stands between its
-- test of `running` and its wait, and no request in the pool is undefined, then it returns EC_SUCCESS in
-- every schedule that gives each worker three turns more, whatever the workers were doing and whatever
-- is queued.
pub deinit-returns :
    (seq : ℕ) (r : Runner) (schedule : List ℕ)
    → Reach Anytime (new_runner seq) r
    → IsExecutable r
    → r.running ≡ true
    → ((w : ℕ) → get_elem? r.workers w ≢ some before_wait)
    → ((w : ℕ) → w < length r.workers → 3 ≤ turns_of w schedule)
    → (q : Runner) × (deinit r (map go schedule) ≡ defined (some (ec_success, q)))
unfolding deinit join stop broadcast
deinit-returns seq r schedule reach sane on nobody enough =
    let accounted = stop-IsAccounted r (Reach-IsAccounted seq reach) in
    let (q, ran) = turns-defined (stop r) (map go schedule) accounted sane in
    let over = all_returned q.workers (turns-end schedule (stop r) refl awake fair ran) in
    (record q { workers = [] }, simp (on, ran, over) refl)
  where
    awake : AllAwake (map woken r.workers)
    awake w = ground (arith, woken-rank r.workers w (nobody w))

    fair : (w : ℕ) → rank (get_elem? (map woken r.workers) w) ≤ turns_of w schedule
    fair w = ground (arith, woken-rank r.workers w (nobody w), enough w)
