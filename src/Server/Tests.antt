-- ===== src/Server/Tests.antt =====
-- The server with a small codec, and one client that sends two messages.
use inter_process_communicat.Base.{
  ◌≡◌, refl, arith, true, false, [], ◌∷◌, Option, some, none, defined,
}
use inter_process_communicat.Base.Int.{pos}
use inter_process_communicat.Base.Eq.{bytes_eq}
use inter_process_communicat.Base.Dict.{find, assign}
use inter_process_communicat.Protocol.{
  Bytes, FirstHandshake, submit_req, SubmitRequest, nonblocking, math, math_add,
}
use inter_process_communicat.Caps.{verify_exec_caps}
use inter_process_communicat.Caps.Laws.{Granted}
use inter_process_communicat.Runner.{Runner, new_runner}
use inter_process_communicat.Runner.History.{here}
use inter_process_communicat.Runner.Results.{IsFaithful}
use inter_process_communicat.Runner.Accounting.{IsAccounted}
use inter_process_communicat.Runner.Workers.{turns}
use inter_process_communicat.Runner.Handle.{work, work_impl}
use inter_process_communicat.Server.{Application, Codec, sent, message, Round, more, last}
use inter_process_communicat.Server.Envelope.{bad_submit}
use inter_process_communicat.Server.Loop.{
  again, Rounded, Ran, send_bad_response, refuse, first_contact, on_message, on_received, body,
  iterate, proceed_as, proceed, run_loop, run,
}
use inter_process_communicat.Server.Contact.{
  Contacted, unregistered-Contacted, invalid_handshake-registered, not-Granted-refused,
}
use inter_process_communicat.Server.Registry.{body-keeps_entry}
use inter_process_communicat.Server.Refinement.{run-keeps_runner}

abbrev one_plus_two : SubmitRequest
one_plus_two = record {
  mode = nonblocking;
  payload = math (record { op = math_add; a = pos 1; b = pos 2 });
}

-- A handshake is a byte of flags before a name, every request is for 1 + 2, and a response is a byte.
abbrev read_handshake : Bytes → Option FirstHandshake
read_handshake [] = none
read_handshake (flags ∷ name) = some (record { client_name = name; exec_functions = flags })

abbrev toy : Codec
toy = record {
  parse_handshake = read_handshake;
  parse_request = λ b. some (submit_req one_plus_two);
  serialize_response = λ r. some (7 ∷ []);
}

-- A server that knows the client `1` with the capability to divide.
abbrev server : Application
server = record {
  client_exec_caps = ((1 ∷ []), 8) ∷ [];
  algo_runner = record { impl = some (new_runner 0); counted = 0 };
  initialized = true;
}

abbrev from : Bytes → Bytes → Round
from id payload = record {
  sig_stop = false;
  others = [];
  received = message id (payload ∷ []);
  first_send = sent;
  second_send = sent;
  env = record {
    now = 0;
    pick = 0;
    waiting = record { clock = record { tv_sec = 0; tv_nsec = 0 }; wakes = λ deadline. [] };
  };
}

-- Client `2` sends the flag 64, which names no operation.
abbrev odd_handshake : Round
odd_handshake = from (2 ∷ []) (64 ∷ 2 ∷ [])

abbrev refused_handshake : Rounded
refused_handshake = record {
  app = record server { client_exec_caps = ((1 ∷ []), 8) ∷ ((2 ∷ []), 64) ∷ [] };
  frames = more (2 ∷ []) ∷ last (7 ∷ []) ∷ [];
  then_do = again;
}

handshake : body toy server odd_handshake ≡ defined (some refused_handshake)
unfolding body on_received on_message first_contact refuse send_bad_response verify_exec_caps find
    assign
handshake = refl

only_zero : verify_exec_caps 64 ≡ false
unfolding verify_exec_caps
only_zero = refl

unknown_2 : find (2 ∷ []) server.client_exec_caps ≡ none
unfolding find
unknown_2 = refl

known_1 : find (1 ∷ []) server.client_exec_caps ≡ some 8
unfolding find
known_1 = refl

unregistered-Contacted_example :
    (x : Rounded) × (body toy server odd_handshake ≡ defined (some x))
    × Contacted toy server (2 ∷ []) (64 ∷ 2 ∷ []) x.app
unregistered-Contacted_example =
    unregistered-Contacted toy server odd_handshake (2 ∷ []) ((64 ∷ 2 ∷ []) ∷ []) refl unknown_2

invalid_handshake-registered_example :
    (x : Rounded) × (body toy server odd_handshake ≡ defined (some x))
    × (x.frames ≡ more (2 ∷ []) ∷ last (7 ∷ []) ∷ [])
    × (find (2 ∷ []) x.app.client_exec_caps ≡ some 64)
invalid_handshake-registered_example =
    invalid_handshake-registered toy server odd_handshake (2 ∷ []) ((64 ∷ 2 ∷ []) ∷ [])
      (record { client_name = 2 ∷ []; exec_functions = 64 }) refl unknown_2 refl only_zero refl refl

not_divided : ¬ Granted one_plus_two.payload 8
not_divided (k, e, b) = ground arith

not-Granted-refused_example :
    (x : Rounded) × (body toy server (from (1 ∷ []) (9 ∷ [])) ≡ defined (some x))
    × (x.app ≡ server)
    × ((b : Bytes)
        → toy.serialize_response bad_submit ≡ some b
        → sent ≡ sent
        → sent ≡ sent
        → x.frames ≡ more (1 ∷ []) ∷ last b ∷ [])
not-Granted-refused_example =
    not-Granted-refused toy server (from (1 ∷ []) (9 ∷ [])) (1 ∷ []) ((9 ∷ []) ∷ []) 8 one_plus_two
      refl known_1 refl (omega arith) not_divided

abbrev ran : Ran
ran = record {
  app = refused_handshake.app;
  frames = more (2 ∷ []) ∷ last (7 ∷ []) ∷ [];
  code = none;
}

one_round : run toy server (odd_handshake ∷ []) ≡ defined ran
unfolding run run_loop iterate work work_impl turns proceed proceed_as body on_received on_message
    first_contact refuse send_bad_response verify_exec_caps find assign
one_round = refl

run-keeps_runner_example :
    (r' : Runner) × (ran.app.algo_runner.impl ≡ some r') × IsAccounted r' × IsFaithful r'
run-keeps_runner_example =
    run-keeps_runner toy server (odd_handshake ∷ []) 0 (new_runner 0) ran refl here one_round

body-keeps_entry_example : find (1 ∷ []) refused_handshake.app.client_exec_caps ≡ some 8
body-keeps_entry_example = body-keeps_entry toy server odd_handshake (1 ∷ []) 8 known_1 handshake
