-- ===== src/Runner/Tests.antt =====
-- One worker, one request for 6 * 7, and its answer.
use inter_process_communicat.Base.{
  ap, sym, ◌∙◌, ℕ, ◌≡◌, refl, ◌↔◌, ◌≢◌, ◌%◌, ◌^◌, arith, true, false, List, [], ◌∷◌, some, none,
  defined, zero, suc, get_elem?, ◌<◌, ◌≤◌,
}
use inter_process_communicat.Base.Int.{pos, ◌*ℤ◌}
use inter_process_communicat.Base.Eq.{nat_eq}
use inter_process_communicat.Base.Dict.{find, assign, erase}
use inter_process_communicat.Protocol.{
  ec_success, SubmitRequest, SubmitResponse, nonblocking, math, math_mul, GetRequest, GetResponse,
  wait_up_to, st_success, st_not_finished, value_not_set, int_result, new_submit_response,
  new_get_response,
}
use inter_process_communicat.Operations.{int32, set_int_result, math_case, run_math, execute}
use inter_process_communicat.Runner.{
  Job, Worker, at_loop, testing, before_wait, computing, Runner, new_runner, new_job, set_worker,
  Reply,
}
use inter_process_communicat.Runner.Workers.{
  queue_locked, take_job, finish_job, step_worker, go, step_if_any, turn, turns, spawn, init,
  deinit,
}
use inter_process_communicat.Runner.Submit.{ticket_id, wake_first, signal, enqueue, run_mode, run}
use inter_process_communicat.Runner.Get.{
  add_ms_to_timespec, Waiting, wait_loop, take_out, hand_out, after_wait, get_mode, get_found, get,
}
use inter_process_communicat.Runner.Cases.{Anytime}
use inter_process_communicat.Runner.History.{Reach, here, next, works, submits, starts}
use inter_process_communicat.Runner.Answer.{Answer}
use inter_process_communicat.Runner.Tickets.{ticket-Answer}
use inter_process_communicat.Runner.Ids.{ticket_id-eq_iff}
use inter_process_communicat.Runner.Shutdown.{deinit-lost_wakeup}
use inter_process_communicat.Runner.Rank.{turns_of}
use inter_process_communicat.Runner.Progress.{IsExecutable}
use inter_process_communicat.Runner.Stopping.{deinit-returns}
use inter_process_communicat.Runner.Accounting.{IsAccounted}
use inter_process_communicat.Runner.Accounting.Calls.{Reach-IsAccounted}

-- A started runner whose one worker stands at `s`.
abbrev pub with_worker : Worker → Runner
with_worker s = record {
  heap = [];
  jobs = [];
  queue = [];
  workers = s ∷ [];
  running = true;
  seq = 0;
}

abbrev pub six_by_seven : SubmitRequest
six_by_seven = record {
  mode = nonblocking;
  payload = math (record { op = math_mul; a = pos 6; b = pos 7 });
}

abbrev pub first_ticket : ℕ
first_ticket = 65_536_000

abbrev pub first_job : Job
first_job = record {
  id = first_ticket;
  req = six_by_seven;
  status = st_not_finished;
  result = value_not_set;
  done = false;
}

-- The runner after the request at time 1000, with its worker at `s` and the queue `q`.
abbrev pub submitted : Job → List ℕ → Worker → Runner
submitted job q s = record {
  heap = job ∷ [];
  jobs = (first_ticket, 0) ∷ [];
  queue = q;
  workers = s ∷ [];
  running = true;
  seq = 1;
}

abbrev pub submit_reply : Reply SubmitResponse
submit_reply = record {
  code = ec_success;
  runner = submitted first_job (0 ∷ []) testing;
  response = record { status = st_not_finished; ticket = some first_ticket; result = none };
}

start : (init (new_runner 0) 1 (λ i. true)).1 ≡ with_worker at_loop
unfolding init spawn new_runner
start = refl

look : turn (with_worker at_loop) (go 0) ≡ defined (with_worker testing)
unfolding turn step_if_any step_worker set_worker
look = refl

find_empty : turn (with_worker testing) (go 0) ≡ defined (with_worker before_wait)
unfolding turn step_if_any step_worker set_worker queue_locked take_job
find_empty = refl

pub submit :
    run (with_worker before_wait) 1000 0 six_by_seven new_submit_response ≡ defined submit_reply
unfolding run run_mode enqueue ticket_id signal wake_first new_job assign
submit = refl

abbrev done_job : Job
done_job = record first_job { status = st_success; result = int_result (pos 42); done = true }

take :
    turn (submitted first_job (0 ∷ []) testing) (go 0)
    ≡ defined (submitted first_job [] (computing 0))
unfolding turn step_if_any step_worker set_worker queue_locked take_job
take = refl

finish :
    turn (submitted first_job [] (computing 0)) (go 0) ≡ defined (submitted done_job [] at_loop)
unfolding turn step_if_any step_worker set_worker finish_job execute run_math math_case
    set_int_result int32 ◌*ℤ◌
finish = refl

abbrev pub fetch_first : GetRequest
fetch_first = record { ticket = some first_ticket; wait_mode = wait_up_to; timeout_ms = 1500 }

-- The worker takes and finishes the job while the call waits.
abbrev pub one_wait : Waiting
one_wait = record {
  clock = record { tv_sec = 10; tv_nsec = 600_000_000 };
  wakes = λ deadline. record { others = go 0 ∷ go 0 ∷ []; code = 0 } ∷ [];
}

deadline :
    add_ms_to_timespec (record { tv_sec = 10; tv_nsec = 600_000_000 }) 1500
    ≡ record { tv_sec = 12; tv_nsec = 100_000_000 }
unfolding add_ms_to_timespec
deadline = refl

abbrev pub fetched : Reply GetResponse
fetched = record {
  code = ec_success;
  runner = record (submitted (record done_job { result = value_not_set }) [] at_loop) { jobs = [] };
  response = record { status = st_success; result = some (int_result (pos 42)) };
}

pub fetch :
    get (submitted first_job (0 ∷ []) testing) one_wait fetch_first new_get_response
    ≡ defined (some fetched)
unfolding get get_found get_mode after_wait hand_out take_out wait_loop add_ms_to_timespec find
    erase turns turn step_if_any step_worker set_worker queue_locked take_job finish_job execute
    run_math math_case set_int_result int32 ◌*ℤ◌
fetch = refl

pub waiting-Reach : Reach Anytime (new_runner 0) (with_worker before_wait)
waiting-Reach =
    next (next (next here (starts 1 (λ i. true) start) tt) (works (go 0) look) tt)
      (works (go 0) find_empty) tt

Reach-IsAccounted_example : IsAccounted (with_worker before_wait)
Reach-IsAccounted_example = Reach-IsAccounted 0 waiting-Reach

ticket-Answer_example : Answer first_ticket six_by_seven new_get_response fetched
ticket-Answer_example =
    ticket-Answer 0 (with_worker before_wait) (submitted first_job (0 ∷ []) testing) 1000 0
      six_by_seven new_submit_response one_wait fetch_first waiting-Reach refl refl submit here refl
      fetch

-- Two clocks that differ by 2^48 nanoseconds.
ticket_id-eq_iff_example :
    (ticket_id 5 0 ≡ ticket_id 281_474_976_710_661 65_536)
    ↔ ((5 % 2 ^ 48 ≡ 281_474_976_710_661 % 2 ^ 48) × (0 % 2 ^ 16 ≡ 65_536 % 2 ^ 16))
ticket_id-eq_iff_example = ticket_id-eq_iff 5 0 281_474_976_710_661 65_536

deinit-lost_wakeup_example :
    deinit (with_worker before_wait) (go 0 ∷ go 0 ∷ []) ≢ defined (some (ec_success, new_runner 0))
deinit-lost_wakeup_example = deinit-lost_wakeup (with_worker before_wait) 0 (0 ∷ 0 ∷ []) refl refl

nobody : (w : ℕ) → get_elem? (with_worker (computing 0)).workers w ≢ some before_wait
nobody zero e = cc
nobody (suc w) e = cc

enough : (w : ℕ) → w < 1 → 3 ≤ turns_of w (0 ∷ 0 ∷ 0 ∷ [])
enough zero h = omega arith
enough (suc w) h = absurd (omega arith)

pub forty_two : execute six_by_seven.payload ≡ defined (st_success, int_result (pos 42))
unfolding execute run_math math_case set_int_result int32 ◌*ℤ◌
forty_two = refl

pub submitted-IsExecutable :
    (queue : List ℕ) (s : Worker) → IsExecutable (submitted first_job queue s)
submitted-IsExecutable queue s zero job e =
    let one : first_job ≡ job = cc in
    (
      (st_success, int_result (pos 42)),
      ap (λ (k : Job). execute k.req.payload) (sym one) ∙ forty_two,
    )
submitted-IsExecutable queue s (suc a) job e = absurd (cc)

pub queued-Reach : Reach Anytime (new_runner 0) (submitted first_job (0 ∷ []) testing)
queued-Reach =
    next waiting-Reach (submits 1000 0 six_by_seven new_submit_response submit_reply submit refl) tt

computing-Reach : Reach Anytime (new_runner 0) (submitted first_job [] (computing 0))
computing-Reach = next queued-Reach (works (go 0) take) tt

-- Its worker executes the job at address 0 when `deinit` is called.
deinit-returns_example :
    (q : Runner) × (deinit (submitted first_job [] (computing 0)) (go 0 ∷ go 0 ∷ go 0 ∷ [])
      ≡ defined (some (ec_success, q)))
deinit-returns_example =
    deinit-returns 0 (submitted first_job [] (computing 0)) (0 ∷ 0 ∷ 0 ∷ []) computing-Reach
      (submitted-IsExecutable [] (computing 0)) refl nobody enough
