-- ===== src/Runner/Accounting/Calls.antt =====
-- `IsAccounted` through `enqueue`, `run`, `get`, `init` and `deinit`.
use inter_process_communicat.Base.{
  ℕ, ◌≡◌, refl, true, List, [], ◌∷◌, map, some, arith, length, get_elem?, count-append,
  get_elem?-append_last, get_elem?-length,
}
use inter_process_communicat.Protocol.{Result, SubmitRequest}
use inter_process_communicat.Runner.{
  Job, Worker, at_loop, testing, before_wait, asleep, computing, exited, Runner, new_runner,
  new_job,
}
use inter_process_communicat.Runner.Workers.{woken, stop, spawn, all_exited}
use inter_process_communicat.Runner.Submit.{ticket_id, settled, enqueue}
use inter_process_communicat.Runner.Get.{take_out}
use inter_process_communicat.Runner.Tally.{tally-map, tally-append, tally-signal, tally-spawn}
use inter_process_communicat.Runner.Accounting.{hold, holds, IsAccounted, hold-woken, finished-set}
use inter_process_communicat.Runner.Accounting.Workers.{turn-IsAccounted}
use inter_process_communicat.Runner.History.{Reach, KeepsAll, Reach-keeps}
use inter_process_communicat.Runner.Cases.{Anytime, Keeps}

hold-settled : (a : ℕ) (s : Worker) → hold a (settled s) ≡ hold a s
hold-settled a before_wait = refl
hold-settled a _ = refl

enqueue-IsAccounted :
    (r : Runner) (now pick : ℕ) (req : SubmitRequest)
    → IsAccounted r
    → IsAccounted (enqueue r now pick req).1
unfolding enqueue
enqueue-IsAccounted r now pick req v a = ground (
  arith,
  v a,
  count-append a r.queue (length r.heap ∷ []),
  tally-signal (hold a) refl pick (map settled r.workers),
  tally-map (hold a) settled (hold-settled a) r.workers,
  get_elem?-append_last r.heap (new_job (ticket_id now r.seq) req) a,
  get_elem?-length r.heap,
)

take_out-IsAccounted :
    (r : Runner) (id a : ℕ) (job : Job) (old : Result)
    → get_elem? r.heap a ≡ some job
    → IsAccounted r
    → IsAccounted (take_out r id a job old)
unfolding take_out
take_out-IsAccounted r id a job old e v b =
    ground (arith, v b, finished-set r.heap b a job e (record job { result = old }))

IsAccounted-Keeps : Keeps IsAccounted Anytime
IsAccounted-Keeps = record {
  on_turn = λ r t r' h v. turn-IsAccounted r t h v;
  on_enqueue = λ r now pick req ok v. enqueue-IsAccounted r now pick req v;
  on_take_out = λ r id a job old f e d v. take_out-IsAccounted r id a job old e v;
}

holds-all_exited : (a : ℕ) (ws : List Worker) → all_exited ws ≡ true → holds a ws ≡ 0
unfolding all_exited
holds-all_exited a [] h = refl
holds-all_exited a (exited ∷ ws) h = omega (arith, holds-all_exited a ws h)
holds-all_exited a (at_loop ∷ ws) h = cc
holds-all_exited a (testing ∷ ws) h = cc
holds-all_exited a (before_wait ∷ ws) h = cc
holds-all_exited a (asleep ∷ ws) h = cc
holds-all_exited a (computing b ∷ ws) h = cc

pub stop-IsAccounted : (r : Runner) → IsAccounted r → IsAccounted (stop r)
unfolding stop
stop-IsAccounted r v a = omega (arith, v a, tally-map (hold a) woken (hold-woken a) r.workers)

IsAccounted-KeepsAll : KeepsAll IsAccounted Anytime
IsAccounted-KeepsAll = record {
  keeps = IsAccounted-Keeps;
  on_init = λ r n created v a. omega (
    arith,
    v a,
    tally-append (hold a) r.workers (spawn n 0 created),
    tally-spawn (hold a) refl n 0 created,
  );
  on_stop = stop-IsAccounted;
  on_join = λ r all v a. omega (arith, v a, holds-all_exited a r.workers all);
}

new_runner-IsAccounted : (seq : ℕ) → IsAccounted (new_runner seq)
unfolding new_runner
new_runner-IsAccounted seq a = refl

-- In every state that a new runner reaches by requests, turns of its workers, starts and stops, a job
-- that was allocated stands in exactly one place, once in the queue, with one worker, or finished; so
-- no job is lost, and none is executed twice. An address that was not allocated stands nowhere.
pub Reach-IsAccounted : (seq : ℕ) {r : Runner} → Reach Anytime (new_runner seq) r → IsAccounted r
Reach-IsAccounted seq reach =
    Reach-keeps IsAccounted Anytime IsAccounted-KeepsAll reach (new_runner-IsAccounted seq)
