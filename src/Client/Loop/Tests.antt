-- ===== src/Client/Loop/Tests.antt =====
-- Sessions on small inputs.
use inter_process_communicat.Base.{
  ◌≡◌, refl, ◌++◌, true, false, none, some, [], ◌∷◌, arith, defined, if◌then◌else◌,
}
use inter_process_communicat.Base.Int.{pos, negsuc}
use inter_process_communicat.Base.Eq.{nat_eq}
use inter_process_communicat.Base.Dict.{assign}
use inter_process_communicat.Base.Text.{codes, decimal, decimal_ℤ, digits, read_digits}
use inter_process_communicat.Errors.{ipc_message, status_to_str, handle_regular_error}
use inter_process_communicat.Protocol.{
  GetResponse, st_error_div_by_zero, Bytes, submit_resp, no_wait, wait_up_to, new_get_response,
  ec_success, math_sub, new_submit_response,
}
use inter_process_communicat.Server.{sent}
use inter_process_communicat.Client.{ClientCodec, Socket}
use inter_process_communicat.Client.Transport.{
  send_frame, send_envelope, read_frame, take_message, receive, recv_envelope,
}
use inter_process_communicat.Client.Submit.{
  from_submit, received_submit, after_nonblocking, submit_nonblocking, submit_blocking, get_result,
}
use inter_process_communicat.Client.Tokens.{insensitive_equals, is_nonblock_token, is_block_token}
use inter_process_communicat.Client.Scan.{
  take_line, fgets, c_string, chomp, skip_space, take_word, word_at, next_word, store, scan_word,
  digits_at, signed_at, scan_number, int_of, scan_int,
}
use inter_process_communicat.Client.Print.{
  is_not_finished, print_submit, ticket_line, submit_result,
}
use inter_process_communicat.Client.Commands.{
  after_word, second_word, scan_mode, second_int, scan_ints, is_math_word, math_op, read_line,
}
use inter_process_communicat.Client.Commands.Laws.{spaced}
use inter_process_communicat.Client.Session.{
  goes_on, say, got, Session, Prompt, Mode, mode_of, after_get_call, note_ticket, submitted,
  after_math, submit, on_math,
}
use inter_process_communicat.Client.Loop.{
  on_op, on_mode, on_command, on_line, on_input, iterate, exits, Ran, leave, proceed, run_loop, run,
}
use inter_process_communicat.Client.Loop.Words.{IsMode}
use inter_process_communicat.Client.Loop.Requests.{Names, asking, on_line-asks}
use inter_process_communicat.Client.Loop.Tickets.{issued, submitted-get, got-unknown}
use inter_process_communicat.Client.Loop.Listing.{IsListing, run-IsListing}
use mathlib.Core.List.Perm

-- Every request is the byte 1, and every message the ticket 7.
abbrev pub sevens : ClientCodec
sevens = record {
  serialize_handshake = λ h. some [];
  serialize_request = λ m. some (1 ∷ []);
  parse_response = λ b. some (submit_resp (issued 7));
}

abbrev pub one_answer : Prompt
one_answer = record {
  sig_stop = false;
  exchange = record { sending = sent; arrivals = ((9 ∷ []) ∷ []) ∷ []; interrupted = none };
  order = λ m. m;
}

abbrev pub no_answer : Prompt
no_answer = record one_answer {
  exchange = record { sending = sent; arrivals = []; interrupted = none };
}

abbrev pub idle : Socket
idle = record { inbox = []; outbox = [] }

abbrev pub typed : Bytes → Session
typed text = record { input = text; pending = []; socket = idle; output = [] }

abbrev asked : Mode
asked = mode_of (codes "Async") (codes "SUB")

async-IsMode : IsMode (codes "Async")
unfolding is_nonblock_token insensitive_equals
async-IsMode = refl

sub_name : Names (codes "SUB") math_sub
unfolding insensitive_equals
sub_name = refl

on_line-asks_example :
    on_line sevens
      (spaced
        (codes "Async")
        (spaced (codes "SUB") (spaced (decimal_ℤ (negsuc 6)) (decimal_ℤ (pos 5)))))
      one_answer
      (typed [])
    ≡ defined (
        after_math asked (typed []) (
          if is_block_token (codes "Async")
          then submit_blocking sevens
              (asking math_sub (negsuc 6) (pos 5))
              new_submit_response
              one_answer.exchange
              idle
          else submit_nonblocking sevens
              (asking math_sub (negsuc 6) (pos 5))
              new_submit_response
              one_answer.exchange
              idle))
on_line-asks_example =
    on_line-asks sevens (codes "Async") (codes "SUB") math_sub (negsuc 6) (pos 5) one_answer
      (typed []) (omega arith, (refl, (refl, (refl, (refl, (refl, tt))))), omega arith) async-IsMode
      (omega arith, (refl, (refl, (refl, tt))), omega arith) sub_name (omega arith, omega arith)
      (omega arith, omega arith)

is_async : asked.is_nonblocking ≡ true
unfolding is_nonblock_token insensitive_equals
is_async = refl

submitted-get_example :
    let t = submitted asked (typed []) (issued 7) in
    (t.output
      ≡ codes "IPC Info: [NOT_FINISHED]\n"
        ++ ((codes "ticket=" ++ (decimal 7 ++ codes "\n")) ++ []))
    × (on_line sevens (spaced (codes "get") (decimal 7)) one_answer t
        ≡ defined (
            after_get_call 7 t
              (get_result sevens 7 no_wait 0 new_get_response one_answer.exchange t.socket)))
    × (on_line sevens
          (spaced (codes "get") (spaced (decimal 7) (spaced (codes "wait") (decimal 500))))
          one_answer
          t
        ≡ defined (
            after_get_call 7 t
              (get_result sevens 7 wait_up_to 500 new_get_response one_answer.exchange t.socket)))
submitted-get_example =
    submitted-get sevens asked (typed []) 7 500 one_answer is_async (omega arith) (omega arith)

abbrev pub small_sum : Bytes
small_sum = codes "async add 2 3\n"

abbrev summed : Ran
summed = record {
  session = record {
    input = [];
    pending = (7, 7) ∷ [];
    socket = record { inbox = []; outbox = (1 ∷ []) ∷ [] };
    output =
        codes "Client started. Type 'help' for commands.\n"
        ++ codes ">> "
        ++ codes "IPC Info: [NOT_FINISHED]\nticket=7\n"
        ++ codes ">> "
        ++ codes "Exiting...\n";
  };
  ending = some (exits ec_success);
}

sums : run sevens (one_answer ∷ one_answer ∷ []) small_sum idle ≡ defined summed
unfolding run run_loop iterate on_input read_line fgets take_line c_string chomp on_line
    insensitive_equals on_command scan_word store next_word skip_space word_at take_word scan_mode
    second_word on_mode is_nonblock_token is_block_token on_op is_math_word scan_ints after_word
    scan_int scan_number signed_at digits_at read_digits int_of second_int on_math submit
    submit_nonblocking after_nonblocking send_envelope send_frame recv_envelope receive take_message
    read_frame received_submit from_submit after_math handle_regular_error submitted print_submit
    ipc_message status_to_str ticket_line decimal digits submit_result note_ticket assign proceed
    leave math_op
sums = refl

-- The sum is pending under ticket 7.
run-IsListing_example :
    (text : Bytes) × (on_line sevens (codes "list") one_answer summed.session
      ≡ defined (goes_on (say text summed.session)))
    × IsListing ((7, 7) ∷ []) text
run-IsListing_example =
    run-IsListing sevens (one_answer ∷ one_answer ∷ []) small_sum idle summed one_answer sums
      Perm.rfl

-- The response to a `get` for 7 whose division failed.
abbrev failed : GetResponse
failed = record { status = st_error_div_by_zero; result = none }

got-unknown_example :
    on_line sevens (spaced (codes "get") (decimal 7)) one_answer (got 7 summed.session failed)
    ≡ defined (
        goes_on (
          say
            (codes "Unknown or already consumed ticket: " ++ decimal 7 ++ codes "\n")
            (got 7 summed.session failed)))
unfolding is_not_finished
got-unknown_example = got-unknown sevens 7 summed.session failed one_answer (omega arith) refl
