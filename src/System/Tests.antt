-- ===== src/System/Tests.antt =====
-- One call from end to end, and one that takes an old answer.
use inter_process_communicat.Base.{inl, ◌≡◌, refl, arith, none, some, [], ◌∷◌, defined, true, false}
use inter_process_communicat.Base.Int.{pos, ◌+ℤ◌}
use inter_process_communicat.Base.Eq.{bytes_eq}
use inter_process_communicat.Base.Dict.{find}
use inter_process_communicat.Protocol.{
  math_add, math_sub, st_success, int_result, nonblocking, math, SubmitRequest, new_submit_response,
  ec_success,
}
use inter_process_communicat.Operations.{int32, set_int_result, math_case, run_math, execute}
use inter_process_communicat.Runner.{new_runner}
use inter_process_communicat.Server.{Application, sent, message, Round, more, last}
use inter_process_communicat.Server.Loop.{again, Rounded, body}
use inter_process_communicat.Client.{Socket, Exchange, returned}
use inter_process_communicat.Client.Submit.{submit_blocking}
use inter_process_communicat.System.Blocking.{outcome, blocking_call-Answered}
use inter_process_communicat.Caps.{verify_exec_caps}
use inter_process_communicat.Client.Lifecycle.{
  ClientProcess, new_connection, began, client_initialize,
}
use inter_process_communicat.System.Handshake.{handshake-Registered}
use inter_process_communicat.System.Toy.{client_side, server_side, sides}
use inter_process_communicat.Client.Replies.{submit_blocking-oldest, submit_nonblocking-not_sent}
use inter_process_communicat.Client.Submit.{submit_nonblocking}

abbrev two_plus_three : SubmitRequest
two_plus_three = record {
  mode = nonblocking;
  payload = math (record { op = math_add; a = pos 2; b = pos 3 });
}

abbrev server : Application
server = record {
  client_exec_caps = ((1 ∷ []), 63) ∷ [];
  algo_runner = record { impl = some (new_runner 0); counted = 0 };
  initialized = true;
}

known : find (1 ∷ []) server.client_exec_caps ≡ some 63
unfolding find
known = refl

five : execute two_plus_three.payload ≡ defined (st_success, int_result (pos 5))
unfolding execute run_math math_case set_int_result int32 ◌+ℤ◌
five = refl

abbrev round : Round
round = record {
  sig_stop = false;
  others = [];
  received = message (1 ∷ []) ((2 ∷ 3 ∷ []) ∷ []);
  first_send = sent;
  second_send = sent;
  env = record {
    now = 0;
    pick = 0;
    waiting = record { clock = record { tv_sec = 0; tv_nsec = 0 }; wakes = λ deadline. [] };
  };
}

abbrev exchange : Exchange
exchange = record { sending = sent; arrivals = ((5 ∷ []) ∷ []) ∷ []; interrupted = none }

abbrev idle : Socket
idle = record { inbox = []; outbox = [] }

blocking_call-Answered_example :
    ((y : Rounded) × (body server_side server round ≡ defined (some y))
      × (y.frames ≡ more (1 ∷ []) ∷ last (5 ∷ []) ∷ [])
      × (y.then_do ≡ again)
      × (y.app.algo_runner.impl ≡ some (new_runner 0)))
    × (submit_blocking client_side two_plus_three new_submit_response exchange idle
        ≡ returned ec_success
            (record { inbox = []; outbox = (2 ∷ 3 ∷ []) ∷ [] })
            (outcome st_success (int_result (pos 5))))
blocking_call-Answered_example =
    blocking_call-Answered client_side server_side sides server (new_runner 0) (1 ∷ []) 63
      two_plus_three st_success (int_result (pos 5)) (2 ∷ 3 ∷ []) (5 ∷ []) round new_submit_response
      exchange idle refl known (omega arith) (0, refl, refl) five
      (record {
        encoded = refl;
        answered = refl;
        arrives = refl;
        first = refl;
        second = refl;
        goes = refl;
        calm = refl;
        comes = refl;
      })
      refl

-- The answer 9 to an older request was left in the socket.
submit_blocking-oldest_example :
    submit_blocking client_side two_plus_three new_submit_response exchange
      (record { inbox = ((9 ∷ []) ∷ []) ∷ []; outbox = [] })
    ≡ returned ec_success
        (record { inbox = ((5 ∷ []) ∷ []) ∷ []; outbox = (2 ∷ 3 ∷ []) ∷ [] })
        (outcome st_success (int_result (pos 9)))
submit_blocking-oldest_example =
    submit_blocking-oldest client_side two_plus_three new_submit_response exchange
      (record { inbox = ((9 ∷ []) ∷ []) ∷ []; outbox = [] }) (2 ∷ 3 ∷ []) ((9 ∷ []) ∷ []) []
      (9 ∷ []) (outcome st_success (int_result (pos 9))) refl refl refl refl refl refl

-- A subtraction, which the codec cannot write.
submit_nonblocking-not_sent_example :
    submit_nonblocking client_side
      (record {
        mode = nonblocking;
        payload = math (record { op = math_sub; a = pos 2; b = pos 3 });
      })
      new_submit_response
      exchange
      idle
    ≡ returned ec_success idle (outcome st_success (int_result (pos 5)))
submit_nonblocking-not_sent_example =
    submit_nonblocking-not_sent client_side
      (record {
        mode = nonblocking;
        payload = math (record { op = math_sub; a = pos 2; b = pos 3 });
      })
      new_submit_response exchange idle ((5 ∷ []) ∷ []) [] (5 ∷ [])
      (outcome st_success (int_result (pos 5))) (inl refl) refl refl refl refl

abbrev no_client : ClientProcess
no_client = record { instance_count = 0; app_ptr = none; sig_stop = false }

abbrev hello : Round
hello = record round { received = message (5 ∷ []) ((9 ∷ 5 ∷ []) ∷ []) }

stranger : find (5 ∷ []) server.client_exec_caps ≡ none
unfolding find
stranger = refl

nine_valid : verify_exec_caps 9 ≡ true
unfolding verify_exec_caps
nine_valid = refl

handshake-Registered_example :
    (client_initialize client_side no_client (5 ∷ []) 9 none sent
      ≡ defined (
          began ec_success (record {
            instance_count = 1;
            app_ptr = some (record (new_connection (5 ∷ []) 9) {
              socket = record { inbox = []; outbox = (9 ∷ 5 ∷ []) ∷ [] };
            });
            sig_stop = false;
          })))
    × ((x : Rounded) × (body server_side server hello ≡ defined (some x))
        × (x.frames ≡ [])
        × (x.then_do ≡ again)
        × (find (5 ∷ []) x.app.client_exec_caps ≡ some 9)
        × (x.app.algo_runner ≡ server.algo_runner))
handshake-Registered_example =
    handshake-Registered client_side server_side sides no_client (5 ∷ []) 9 (9 ∷ 5 ∷ []) server
      hello refl refl nine_valid (omega arith) refl refl stranger
