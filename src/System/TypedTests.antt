-- ===== src/System/TypedTests.antt =====
-- The example of the README, as a user types it.
use inter_process_communicat.Base.{
  ◌≡◌, refl, arith, ◌++◌, none, some, [], ◌∷◌, defined, true, false,
}
use inter_process_communicat.Base.Int.{pos, ◌+ℤ◌}
use inter_process_communicat.Base.Eq.{bytes_eq}
use inter_process_communicat.Base.Dict.{find}
use inter_process_communicat.Base.Text.{codes, decimal_ℤ}
use inter_process_communicat.Protocol.{st_success, int_result, math}
use inter_process_communicat.Operations.{int32, set_int_result, math_case, run_math, execute}
use inter_process_communicat.Runner.{new_runner}
use inter_process_communicat.Server.{Application, sent, message, Round, more, last}
use inter_process_communicat.Server.Loop.{again, Rounded, body}
use inter_process_communicat.Client.Tokens.{insensitive_equals, is_block_token}
use inter_process_communicat.Client.Commands.{is_math_word, math_op}
use inter_process_communicat.Client.Commands.Laws.{spaced}
use inter_process_communicat.Client.Session.{Session, Prompt, goes_on}
use inter_process_communicat.Client.Loop.{on_line}
use inter_process_communicat.System.Typed.{typed_math-printed}
use inter_process_communicat.System.Toy.{client_side, server_side, sides}

abbrev server : Application
server = record {
  client_exec_caps = ((1 ∷ []), 63) ∷ [];
  algo_runner = record { impl = some (new_runner 0); counted = 0 };
  initialized = true;
}

known : find (1 ∷ []) server.client_exec_caps ≡ some 63
unfolding find
known = refl

abbrev round : Round
round = record {
  sig_stop = false;
  others = [];
  received = message (1 ∷ []) ((50 ∷ 50 ∷ []) ∷ []);
  first_send = sent;
  second_send = sent;
  env = record {
    now = 0;
    pick = 0;
    waiting = record { clock = record { tv_sec = 0; tv_nsec = 0 }; wakes = λ deadline. [] };
  };
}

abbrev prompt : Prompt
prompt = record {
  sig_stop = false;
  exchange = record { sending = sent; arrivals = ((100 ∷ []) ∷ []) ∷ []; interrupted = none };
  order = λ m. m;
}

abbrev session : Session
session = record {
  input = [];
  pending = [];
  socket = record { inbox = []; outbox = [] };
  output = codes ">> ";
}

block_word : is_block_token (codes "block") ≡ true
unfolding is_block_token insensitive_equals
block_word = refl

add_word : is_math_word (codes "add") ≡ true
unfolding is_math_word insensitive_equals
add_word = refl

hundred :
    execute (math (record { op = math_op (codes "add"); a = pos 50; b = pos 50 }))
    ≡ defined (st_success, int_result (pos 100))
unfolding execute run_math math_case set_int_result int32 ◌+ℤ◌ math_op insensitive_equals
hundred = refl

typed_math-printed_example :
    ((y : Rounded) × (body server_side server round ≡ defined (some y))
      × (y.frames ≡ more (1 ∷ []) ∷ last (100 ∷ []) ∷ [])
      × (y.then_do ≡ again)
      × (y.app.algo_runner.impl ≡ some (new_runner 0)))
    × (on_line client_side
          (spaced
            (codes "block")
            (spaced (codes "add") (spaced (decimal_ℤ (pos 50)) (decimal_ℤ (pos 50)))))
          prompt
          session
        ≡ defined (
            goes_on (record session {
              socket = record { inbox = []; outbox = (50 ∷ 50 ∷ []) ∷ [] };
              output = codes ">> " ++ (codes "Result: Int=" ++ decimal_ℤ (pos 100) ++ codes "\n");
            })))
unfolding math_op insensitive_equals
typed_math-printed_example =
    typed_math-printed client_side server_side sides server (new_runner 0) (1 ∷ []) 63
      (codes "block") (codes "add") (pos 50) (pos 50) (pos 100) (50 ∷ 50 ∷ []) (100 ∷ []) round
      prompt session (omega arith, (refl, (refl, (refl, (refl, (refl, tt))))), omega arith)
      block_word (omega arith, (refl, (refl, (refl, tt))), omega arith) add_word
      (omega arith, omega arith) (omega arith, omega arith) refl known (omega arith) (0, refl, refl)
      hundred
      (record {
        encoded = refl;
        answered = refl;
        arrives = refl;
        first = refl;
        second = refl;
        goes = refl;
        calm = refl;
        comes = refl;
      })
      refl
