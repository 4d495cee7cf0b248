-- ===== src/System/TypedDeliveryTests.antt =====
-- A user who types "async mult 6 7", and "get 65536000 wait 1500".
use inter_process_communicat.Base.{◌≡◌, refl, arith, [], ◌∷◌, ◌++◌, defined, false}
use inter_process_communicat.Base.Int.{pos, ◌*ℤ◌}
use inter_process_communicat.Base.Text.{codes, decimal, decimal_ℤ, digits}
use inter_process_communicat.Protocol.{Bytes, nonblocking, st_success, int_result, submit_resp}
use inter_process_communicat.Operations.{int32, set_int_result, math_case, run_math, execute}
use inter_process_communicat.Runner.{before_wait}
use inter_process_communicat.Runner.Submit.{ticket_id}
use inter_process_communicat.Runner.Tests.{with_worker, first_ticket}
use inter_process_communicat.Runner.Liveness.Schedules.{three_turns-Rounds}
use inter_process_communicat.Server.{more, last}
use inter_process_communicat.Server.Loop.{Ran, run}
use inter_process_communicat.Client.Submit.{with_mode}
use inter_process_communicat.Client.Tokens.{
  insensitive_equals, is_nonblock_token, is_block_token, make_math,
}
use inter_process_communicat.Client.Commands.{is_math_word, math_op}
use inter_process_communicat.Client.Commands.Lines.{is_line-IsLine}
use inter_process_communicat.Client.Session.{Session, Prompt}
use inter_process_communicat.Client.Loop.{run_loop}
use inter_process_communicat.Client.Loop.Tickets.{issued, get_is_get, wait_is_wait}
use inter_process_communicat.Client.Loop.Conversation.{math_line, wait_line, IsMathLine, IsWaitLine}
use inter_process_communicat.System.Relay.{after_sending, IsRelayed}
use inter_process_communicat.System.TypedDelivery.{told_value, typed_delivery}
use inter_process_communicat.System.GetTests.{server_with, round, exchange, idle}
use inter_process_communicat.System.DeliveryTests.{
  asking, told, fetching, reply, second_round, second_exchange, serving, second_call,
}
use inter_process_communicat.System.ToyTickets.{client_side, server_side, sides}

abbrev product_line : Bytes
product_line = math_line (codes "async") (codes "mult") (pos 6) (pos 7)

abbrev ticket_line : Bytes
ticket_line = wait_line (codes "get") (codes "wait") first_ticket 1500

product_line-IsMathLine : IsMathLine (codes "async") (codes "mult") (pos 6) (pos 7)
unfolding is_nonblock_token is_block_token insensitive_equals is_math_word decimal_ℤ decimal digits
product_line-IsMathLine = record {
  mode = (omega arith, (refl, (refl, (refl, (refl, (refl, tt))))), omega arith);
  async = refl;
  no_block = refl;
  op = (omega arith, (refl, (refl, (refl, (refl, tt)))), omega arith);
  math = refl;
  first = (omega arith, omega arith);
  second = (omega arith, omega arith);
  text = is_line-IsLine product_line refl;
  short = omega arith;
}

ticket_line-IsWaitLine : IsWaitLine (codes "get") (codes "wait") first_ticket 1500
unfolding decimal digits
ticket_line-IsWaitLine = record {
  word = (omega arith, (refl, (refl, (refl, tt))), omega arith);
  get = get_is_get;
  mode = (omega arith, (refl, (refl, (refl, (refl, tt)))), omega arith);
  wait = wait_is_wait;
  ticket = omega arith;
  brief = omega arith;
  text = is_line-IsLine ticket_line refl;
  short = omega arith;
}

abbrev first_prompt : Prompt
first_prompt = record { sig_stop = false; exchange = exchange; order = λ m. m }

abbrev second_prompt : Prompt
second_prompt = record { sig_stop = false; exchange = second_exchange; order = λ m. m }

abbrev session : Session
session = record {
  input = product_line ++ (10 ∷ (ticket_line ++ (10 ∷ codes "quit\n")));
  pending = [];
  socket = idle;
  output = [];
}

forty_two :
    execute (make_math (math_op (codes "mult")) (pos 6) (pos 7)).payload
    ≡ defined (st_success, int_result (pos 42))
unfolding execute run_math math_case set_int_result int32 ◌*ℤ◌ math_op insensitive_equals
forty_two = refl

first_named : first_ticket ≡ ticket_id 1000 0
unfolding ticket_id
first_named = refl

first_call :
    IsRelayed client_side server_side
      (1 ∷ [])
      (with_mode (make_math (math_op (codes "mult")) (pos 6) (pos 7)) nonblocking)
      (submit_resp (issued first_ticket))
      asking
      told
      round
      exchange
unfolding math_op insensitive_equals
first_call = record {
  encoded = refl;
  answered = refl;
  arrives = refl;
  first = refl;
  second = refl;
  goes = refl;
  calm = refl;
  comes = refl;
}

typed_delivery_example :
    ((served : Ran) × (run server_side
          (server_with (with_worker before_wait))
          (round ∷ second_round ∷ [])
        ≡ defined served)
      × (served.frames ≡ more (1 ∷ []) ∷ last told ∷ more (1 ∷ []) ∷ last reply ∷ []))
    × (run_loop client_side (first_prompt ∷ second_prompt ∷ []) session
        ≡ run_loop client_side [] (
            told_value first_ticket
              (pos 42)
              session
              (codes "quit\n")
              (after_sending fetching (after_sending asking idle))))
unfolding math_op insensitive_equals
typed_delivery_example =
    typed_delivery client_side server_side sides 0 3 (server_with (with_worker before_wait))
      (with_worker before_wait) (1 ∷ []) 63 first_ticket (codes "async") (codes "mult") (pos 6)
      (pos 7) (pos 42) (codes "get") (codes "wait") 1500 asking told fetching reply round
      second_round first_prompt second_prompt [] session (codes "quit\n") serving forty_two
      (2, refl, refl) first_named (omega arith) refl refl refl three_turns-Rounds
      product_line-IsMathLine ticket_line-IsWaitLine refl refl refl first_call second_call refl
