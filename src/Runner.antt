-- ===== src/Runner.antt =====
-- sources/server/algorithm_runner.cpp: the state of `AlgoRunnerIpml`. A `shared_ptr<Job>` is an address
-- in `heap`, where jobs are only ever added; the map and the queue hold addresses.
pub mod Workers
pub mod Submit
pub mod Get
pub mod Prints
pub mod Tally
pub mod Effect
pub mod Cases
pub mod Results
pub mod Answer
pub mod History
pub mod Ids
pub mod Distinct
pub mod DistinctTests
pub mod Tickets
pub mod Returns
pub mod Deadline
pub mod Shutdown
pub mod Rank
pub mod Progress
pub mod Steady
pub mod Alert
pub mod Effort
pub mod Pull
pub mod Rounds
pub mod Liveness
pub mod Enqueued
pub mod Delivery
pub mod Stopping
pub mod Handle
pub mod Accounting
pub mod Tests
use inter_process_communicat.Base.{
  ℕ, ◌≡◌, Bool, false, true, List, [], ◌∷◌, ◌++◌, Option, none, some, length, get_elem?, set,
}
use inter_process_communicat.Base.Int.{ℤ}
use inter_process_communicat.Base.Dict.{Dict}
use inter_process_communicat.Protocol.{
  SubmitRequest, Status, st_not_finished, Result, value_not_set,
}

pub record Job : Type 0 where
  pub id : ℕ
  pub req : SubmitRequest
  pub status : Status
  pub result : Result
  pub done : Bool

-- Where a thread of `workerLoop` stands.
pub data Worker : Type 0 where
  at_loop : Worker  -- before the test of the outer `while`
  testing : Worker  -- before it takes `qMtx` and tests `running` and the queue
  before_wait : Worker  -- holds `qMtx`, has seen `running` and an empty queue
  asleep : Worker  -- in `pthread_cond_wait`
  computing : (job : ℕ) → Worker  -- has taken this job
  exited : Worker

-- `seq` is the function-local static of `enqueue`.
pub record Runner : Type 0 where
  pub heap : List Job
  pub jobs : Dict ℕ ℕ
  pub queue : List ℕ
  pub workers : List Worker
  pub running : Bool
  pub seq : ℕ

-- `AlgoRunnerIpml(threads)`; `seq` is what the process has counted so far.
unfoldable pub new_runner : ℕ → Runner
new_runner seq = record {
  heap = [];
  jobs = [];
  queue = [];
  workers = [];
  running = false;
  seq = seq;
}

-- `Job()`, with the two fields that `enqueue` sets.
unfoldable pub new_job : ℕ → SubmitRequest → Job
new_job id req = record {
  id = id;
  req = req;
  status = st_not_finished;
  result = value_not_set;
  done = false;
}

unfoldable pub set_worker : Runner → ℕ → Worker → Runner
set_worker r w s = record r { workers = set r.workers w s }

-- What an operation of the runner returns: the code, the state and the message it filled in.
pub record Reply (A : Type 0) : Type 0 where
  pub code : ℤ
  pub runner : Runner
  pub response : A
