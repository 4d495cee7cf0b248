-- ===== src/Runner/Returns/Tests.antt =====
-- A ticket whose job no worker takes.
use inter_process_communicat.Base.{◌≢◌, true, false, [], ◌∷◌, some, none, defined, inr, inl}
use inter_process_communicat.Protocol.{
  nonblocking, math, math_add, GetRequest, GetWaitMode, wait_up_to, new_get_response, SubmitRequest,
  st_not_finished, value_not_set,
}
use inter_process_communicat.Base.Int.{pos}
use inter_process_communicat.Runner.{Runner}
use inter_process_communicat.Runner.Get.{Waiting, get}
use inter_process_communicat.Runner.Get.{Timespec}
use inter_process_communicat.Runner.Returns.{get-ends}

abbrev one_plus_two : SubmitRequest
one_plus_two = record {
  mode = nonblocking;
  payload = math (record { op = math_add; a = pos 1; b = pos 2 });
}

-- A pool without threads, with ticket 7.
abbrev idle_pool : Runner
idle_pool = record {
  heap =
      record {
        id = 7;
        req = one_plus_two;
        status = st_not_finished;
        result = value_not_set;
        done = false;
      }
      ∷ [];
  jobs = (7, 0) ∷ [];
  queue = 0 ∷ [];
  workers = [];
  running = true;
  seq = 1;
}

-- One spurious wakeup, then the code ETIMEDOUT.
abbrev two_waits : Waiting
two_waits = record {
  clock = record { tv_sec = 10; tv_nsec = 0 };
  wakes = λ deadline. record { others = []; code = 0 } ∷ record { others = []; code = 110 } ∷ [];
}

abbrev ask : GetWaitMode → GetRequest
ask mode = record { ticket = some 7; wait_mode = mode; timeout_ms = 20 }

get-ends_example : get idle_pool two_waits (ask wait_up_to) new_get_response ≢ defined none
get-ends_example =
    get-ends idle_pool two_waits (ask wait_up_to) new_get_response (inr (inl (λ e. cc)))

abbrev late_clock : Timespec
late_clock = record { tv_sec = 10; tv_nsec = 999_999_999 }
