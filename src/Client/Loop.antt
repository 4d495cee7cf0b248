-- ===== src/Client/Loop.antt =====
-- `Application::run` of sources/client/application.cpp, a line of the input at a time, and
-- `clientStart` of sources/ipc_clients.cpp.
pub mod Words
pub mod Tests
pub mod FailureTests
pub mod Tickets
pub mod Commands
pub mod Requests
pub mod Laws
pub mod Ends
pub mod Failures
pub mod Undefined
pub mod Total
pub mod Listing
pub mod Conversation
pub mod TotalTests
use inter_process_communicat.Base.{
  not, ◌&&◌, ◌||◌, Option, none, some, List, [], ◌∷◌, Outcome, undefined, defined, ◌>>=◌,
  if◌then◌else◌,
}
use inter_process_communicat.Base.Int.{ℤ}
use inter_process_communicat.Base.Eq.{nat_eq}
use inter_process_communicat.Base.Text.{codes}
use inter_process_communicat.Protocol.{Bytes, str_concat, str_find_start, ec_success}
use inter_process_communicat.Errors.{handle_regular_error}
use inter_process_communicat.Server.{Exception}
use inter_process_communicat.Client.{ClientCodec, Socket}
use inter_process_communicat.Client.Tokens.{insensitive_equals, is_nonblock_token, is_block_token}
use inter_process_communicat.Client.Scan.{scan_word}
use inter_process_communicat.Client.Print.{print_help}
use inter_process_communicat.Client.Commands.{
  scan_get, scan_mode, scan_ints, scan_texts, is_math_word, read_line,
}
use inter_process_communicat.Client.Session.{
  Session, Prompt, Turn, goes_on, leaves, returns, raises, say, Mode, mode_of, list_text, on_get,
  on_math, on_str,
}

module _ (codec : ClientCodec) where
  -- What follows the test of the mode.
  unfoldable pub on_op : Mode → Bytes → Prompt → Session → Outcome Turn
  on_op mode line p s =
      if is_math_word mode.op
      then (scan_ints line >>= λ o. defined (on_math codec mode o p s))
      else if insensitive_equals mode.op (codes "concat")
      then (scan_texts line >>= λ o. defined (
          on_str codec str_concat (codes " concat s1 s2\n") (codes "error sending request\n") mode o
            p s))
      else if insensitive_equals mode.op (codes "find")
      then (scan_texts line >>= λ o. defined (
          on_str codec str_find_start (codes " find hay needle\n") (codes "Error sending request\n")
            mode o p s))
      else defined (goes_on (say (codes "Unknown op. Type 'help'\n") s))

  unfoldable pub on_mode : Option (Bytes × Bytes) → Bytes → Prompt → Session → Outcome Turn
  on_mode none line p s = defined (goes_on (say (codes "Bad Command. Type 'help'\n") s))
  on_mode (some (word, op)) line p s =
      let mode = mode_of word op in
      if not mode.is_nonblocking && not mode.is_blocking
      then defined (goes_on (say (codes "First token must be 'block' or 'non-block or get'\n") s))
      else on_op mode line p s

  -- What the first word of a line asks for.
  unfoldable pub on_command : Option (Bytes × Bytes) → Bytes → Prompt → Session → Outcome Turn
  on_command none line p s = defined (goes_on (say (codes "Bad Command. Type 'help'\n") s))
  on_command (some (word, rest)) line p s =
      if insensitive_equals word (codes "get")
      then (scan_get line >>= λ g. defined (on_get codec g p s))
      else if insensitive_equals word (codes "list")
      then defined (goes_on (say (list_text p.order s.pending) s))
      else scan_mode line >>= λ words. on_mode words line p s

  unfoldable pub on_line : Bytes → Prompt → Session → Outcome Turn
  on_line [] p s = defined (goes_on s)
  on_line (c ∷ t) p s =
      let line = c ∷ t in
      if insensitive_equals line (codes "quit") || insensitive_equals line (codes "exit")
      then defined (leaves s)
      else if insensitive_equals line (codes "help")
      then defined (goes_on (say print_help s))
      else scan_word 32 31 line >>= λ word. on_command word line p s

  unfoldable pub on_input : Option (Bytes × Bytes) → Prompt → Session → Outcome Turn
  on_input none p s = defined (leaves s)
  on_input (some (line, rest)) p s = on_line line p (record s { input = rest })

  -- A round of the loop.
  unfoldable pub iterate : Prompt → Session → Outcome Turn
  iterate p s = on_input (read_line s.input) p (say (codes ">> ") s)

-- How `run` ends.
pub data Ending : Type 0 where
  exits : ℤ → Ending
  uncaught : Exception → Ending

-- What a call of `run` did; its ending is `none` if the prompts end before the loop does.
pub record Ran : Type 0 where
  pub session : Session
  pub ending : Option Ending

-- The end of `run`, behind the loop.
unfoldable pub leave : Session → Ran
leave s = record { session = say (codes "Exiting...\n") s; ending = some (exits ec_success) }

-- How the loop goes on after a round.
unfoldable pub proceed : (Session → Outcome Ran) → Turn → Outcome Ran
proceed rest (goes_on s) = rest s
proceed rest (leaves s) = defined (leave s)
proceed rest (returns code s) = defined (record { session = s; ending = some (exits code) })
proceed rest (raises e s) = defined (record { session = s; ending = some (uncaught e) })

module _ (codec : ClientCodec) where
  unfoldable pub run_loop : List Prompt → Session → Outcome Ran
  run_loop [] s = defined (record { session = s; ending = none })
  run_loop (p ∷ ps) s =
      let next = iterate codec p s >>= proceed (λ t. run_loop ps t) in
      if p.sig_stop then defined (leave s) else next

  -- `Application::run`.
  unfoldable pub run : List Prompt → Bytes → Socket → Outcome Ran
  run ps input socket = run_loop ps (record {
    input = input;
    pending = [];
    socket = socket;
    output = codes "Client started. Type 'help' for commands.\n";
  })

  abbrev pub started : Option Ending → Option Ending
  started (some (exits code)) = some (exits (handle_regular_error code))
  started (some (uncaught e)) = some (uncaught e)
  started none = none

  -- `clientStart`.
  unfoldable pub client_start : List Prompt → Bytes → Option Socket → Outcome Ran
  client_start ps input none = undefined
  client_start ps input (some socket) =
      run ps input socket >>= λ r. defined (record r { ending = started r.ending })
