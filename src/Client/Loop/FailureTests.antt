-- ===== src/Client/Loop/FailureTests.antt =====
-- Lines that end the client, or have no defined meaning.
use inter_process_communicat.Base.{
  ◌≡◌, refl, ◌<◌, length, ◌++◌, true, some, [], ◌∷◌, arith, defined,
}
use inter_process_communicat.Base.Int.{pos}
use inter_process_communicat.Base.Eq.{nat_eq}
use inter_process_communicat.Base.Text.{codes, decimal, decimal_ℤ, digits, read_digits}
use inter_process_communicat.Protocol.{Bytes, new_submit_response, st_error_internal, ec_failure}
use inter_process_communicat.Client.{Socket, returned}
use inter_process_communicat.Client.Transport.{
  send_frame, send_envelope, take_message, receive, recv_envelope,
}
use inter_process_communicat.Client.Submit.{received_submit, after_blocking, submit_blocking}
use inter_process_communicat.Client.Tokens.{
  insensitive_equals, is_nonblock_token, is_block_token, make_math,
}
use inter_process_communicat.Client.Scan.{
  skip_space, take_word, word_at, next_word, store, scan_word, digits_at, signed_at, scan_number,
  int_of, scan_int,
}
use inter_process_communicat.Client.Commands.{
  after_word, second_word, scan_mode, second_int, scan_ints, is_math_word, math_op,
}
use inter_process_communicat.Client.Commands.Laws.{spaced}
use inter_process_communicat.Client.Commands.Lines.{IsLine, is_line-IsLine}
use inter_process_communicat.Client.Session.{Session, mode_of, submit}
use inter_process_communicat.Client.Loop.{on_op, on_mode, on_command, on_line, exits, run_loop}
use inter_process_communicat.Client.Loop.Words.{IsMode}
use inter_process_communicat.Client.Loop.Failures.{prompted, run_loop-math_fails}
use inter_process_communicat.Base.{undefined, ◌⊎◌}
use inter_process_communicat.Client.Loop.Undefined.{BadWait, BadInts, on_line-undefined}
use inter_process_communicat.Client.Loop.Tests.{sevens, one_answer, no_answer, typed}

block-IsMode : IsMode (codes "block")
unfolding is_block_token is_nonblock_token insensitive_equals
block-IsMode = refl

abbrev two_and_three : Bytes
two_and_three =
    spaced (codes "block") (spaced (codes "add") (spaced (decimal_ℤ (pos 2)) (decimal_ℤ (pos 3))))

two_and_three-IsLine : IsLine two_and_three
unfolding decimal_ℤ decimal digits
two_and_three-IsLine = is_line-IsLine two_and_three refl

short : length two_and_three < 511
unfolding decimal_ℤ decimal digits
short = omega arith

adds : is_math_word (codes "add") ≡ true
unfolding is_math_word insensitive_equals
adds = refl

abbrev waiting : Session
waiting = typed (two_and_three ++ (10 ∷ codes "list\n"))

abbrev gave_up : Socket
gave_up = record { inbox = []; outbox = (1 ∷ []) ∷ [] }

times_out :
    submit sevens
      (mode_of (codes "block") (codes "add"))
      (make_math (math_op (codes "add")) (pos 2) (pos 3))
      no_answer.exchange
      waiting.socket
    ≡ returned ec_failure gave_up (record new_submit_response { status = st_error_internal })
unfolding submit submit_blocking after_blocking send_envelope send_frame recv_envelope receive
    take_message received_submit is_block_token insensitive_equals
times_out = refl

run_loop-math_fails_example :
    run_loop sevens (no_answer ∷ one_answer ∷ []) waiting
    ≡ defined (record {
      session = record (prompted waiting (codes "list\n")) { socket = gave_up };
      ending = some (exits ec_failure);
    })
run_loop-math_fails_example =
    run_loop-math_fails sevens (codes "block") (codes "add") (pos 2) (pos 3) no_answer
      (one_answer ∷ []) waiting (codes "list\n") ec_failure gave_up
      (record new_submit_response { status = st_error_internal })
      (omega arith, (refl, (refl, (refl, (refl, (refl, tt))))), omega arith) block-IsMode
      (omega arith, (refl, (refl, (refl, tt))), omega arith) adds (omega arith, omega arith)
      (omega arith, omega arith) refl two_and_three-IsLine short refl times_out refl

-- Three billion is no `int`.
three_billions : on_line sevens (codes "block add 3000000000 1") no_answer (typed []) ≡ undefined
unfolding on_line insensitive_equals on_command scan_word store next_word skip_space word_at
    take_word scan_mode second_word on_mode is_nonblock_token is_block_token on_op is_math_word
    scan_ints after_word scan_int scan_number signed_at digits_at read_digits int_of second_int
three_billions = refl

on_line-undefined_example :
    BadWait (codes "block add 3000000000 1") ⊎ BadInts (codes "block add 3000000000 1")
on_line-undefined_example =
    on_line-undefined sevens (codes "block add 3000000000 1") no_answer (typed []) three_billions
