-- ===== src/System/DeliveryTests.antt =====
-- A product that is asked for without waiting, the turns of the one worker, and its `get`.
use inter_process_communicat.Base.{◌≡◌, refl, arith, some, [], ◌∷◌, defined}
use inter_process_communicat.Base.Int.{pos}
use inter_process_communicat.Protocol.{
  Bytes, nonblocking, wait_up_to, st_success, int_result, submit_resp, get_resp,
  new_submit_response, new_get_response, ec_success,
}
use inter_process_communicat.Runner.{before_wait}
use inter_process_communicat.Runner.Progress.{IsExecutable}
use inter_process_communicat.Runner.Tests.{
  with_worker, six_by_seven, first_ticket, submit_reply, forty_two, waiting-Reach, submit,
}
use inter_process_communicat.Runner.Liveness.Schedules.{three_turns, three_turns-Rounds}
use inter_process_communicat.Server.{message, Round, more, last}
use inter_process_communicat.Server.Loop.{Ran, run}
use inter_process_communicat.Client.{Exchange, returned}
use inter_process_communicat.Client.Submit.{with_mode, get_request, submit_nonblocking, get_result}
use inter_process_communicat.System.Relay.{after_sending, IsRelayed}
use inter_process_communicat.System.Delivery.{IsServing, delivery}
use inter_process_communicat.System.GetTests.{server_with, known, round, exchange, idle}
use inter_process_communicat.System.ToyTickets.{client_side, server_side, sides}

abbrev pub asking : Bytes
asking = 6 ∷ 7 ∷ []

abbrev pub told : Bytes
told = 65_536_000 ∷ []

abbrev pub fetching : Bytes
fetching = 65_536_000 ∷ 1500 ∷ 0 ∷ []

abbrev pub reply : Bytes
reply = 42 ∷ 0 ∷ []

abbrev pub second_round : Round
second_round = record round { others = three_turns; received = message (1 ∷ []) (fetching ∷ []) }

abbrev pub second_exchange : Exchange
second_exchange = record exchange { arrivals = (reply ∷ []) ∷ [] }

first_call :
    IsRelayed client_side server_side
      (1 ∷ [])
      (with_mode six_by_seven nonblocking)
      (submit_resp submit_reply.response)
      asking
      told
      round
      exchange
first_call = record {
  encoded = refl;
  answered = refl;
  arrives = refl;
  first = refl;
  second = refl;
  goes = refl;
  calm = refl;
  comes = refl;
}

pub second_call :
    IsRelayed client_side server_side
      (1 ∷ [])
      (get_request first_ticket wait_up_to 1500)
      (get_resp (record { status = st_success; result = some (int_result (pos 42)) }))
      fetching
      reply
      second_round
      second_exchange
second_call = record {
  encoded = refl;
  answered = refl;
  arrives = refl;
  first = refl;
  second = refl;
  goes = refl;
  calm = refl;
  comes = refl;
}

no_jobs : IsExecutable (with_worker before_wait)
no_jobs a job e = absurd (cc)

pub serving :
    IsServing 0 (server_with (with_worker before_wait)) (with_worker before_wait) (1 ∷ []) 63
serving = record {
  reach = waiting-Reach;
  sane = no_jobs;
  on = refl;
  staffed = omega arith;
  live = refl;
  has = refl;
  known = known (with_worker before_wait);
  small = omega arith;
}

delivery_example :
    ((served : Ran) × (run server_side
          (server_with (with_worker before_wait))
          (round ∷ second_round ∷ [])
        ≡ defined served)
      × (served.frames ≡ more (1 ∷ []) ∷ last told ∷ more (1 ∷ []) ∷ last reply ∷ []))
    × (submit_nonblocking client_side six_by_seven new_submit_response exchange idle
        ≡ returned ec_success (after_sending asking idle) submit_reply.response)
    × (get_result client_side first_ticket wait_up_to 1500 new_get_response second_exchange
          (after_sending asking idle)
        ≡ returned ec_success
            (after_sending fetching (after_sending asking idle))
            (record { status = st_success; result = some (int_result (pos 42)) }))
delivery_example =
    delivery client_side server_side sides 0 3 (server_with (with_worker before_wait))
      (with_worker before_wait) (1 ∷ []) 63 first_ticket six_by_seven wait_up_to 1500 st_success
      (int_result (pos 42)) submit_reply asking told fetching reply round second_round exchange
      second_exchange idle serving forty_two (2, refl, refl) submit refl (omega arith) refl refl
      refl three_turns-Rounds (λ u e. cc) first_call second_call refl
