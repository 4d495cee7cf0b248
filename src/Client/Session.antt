-- ===== src/Client/Session.antt =====
-- The commands of `Application::run` of sources/client/application.cpp.
pub mod Keys
pub mod Laws
use inter_process_communicat.Base.{
  ℕ, Bool, true, false, not, ◌&&◌, ◌||◌, Option, none, some, List, [], ◌∷◌, ◌++◌, map, Outcome,
  undefined, defined, ◌>>=◌, if◌then◌else◌,
}
use inter_process_communicat.Base.Int.{ℤ}
use inter_process_communicat.Base.Eq.{nat_eq}
use inter_process_communicat.Base.Dict.{Dict, find, assign, erase}
use inter_process_communicat.Base.Text.{codes, decimal}
use inter_process_communicat.Protocol.{
  Bytes, GetWaitMode, no_wait, StrOp, str_concat, str_find_start, SubmitRequest, SubmitResponse,
  new_submit_response, GetResponse, new_get_response, ec_success,
}
use inter_process_communicat.Errors.{is_success, handle_regular_error}
use inter_process_communicat.Server.{Exception}
use inter_process_communicat.Client.{ClientCodec, Socket, Exchange, Call, returned, thrown}
use inter_process_communicat.Client.Submit.{submit_blocking, submit_nonblocking, get_result}
use inter_process_communicat.Client.Tokens.{
  insensitive_equals, is_nonblock_token, is_block_token, make_math, make_str,
}
use inter_process_communicat.Client.Scan.{next_word, strtoull}
use inter_process_communicat.Client.Print.{print_submit, is_not_finished, print_get, print_help}
use inter_process_communicat.Client.Commands.{
  GetLine, no_ticket, ticket_only, with_word, with_ms, scan_get, wait_named, scan_mode, scan_ints,
  scan_texts, is_math_word, math_op, read_line,
}

-- The standard input that is not read yet, the tickets that are pending, the socket, and the standard
-- output.
pub record Session : Type 0 where
  pub input : Bytes
  pub pending : Dict ℕ ℕ
  pub socket : Socket
  pub output : Bytes

-- What a round of the loop meets: the flag, what its call meets, and the order in which the
-- `unordered_map` is iterated.
pub record Prompt : Type 0 where
  pub sig_stop : Bool
  pub exchange : Exchange
  pub order : Dict ℕ ℕ → Dict ℕ ℕ

-- How a round ends: `continue` or its end, `break`, a `return`, or an exception, which `run` does not
-- catch.
pub data Turn : Type 0 where
  goes_on leaves : Session → Turn
  returns : ℤ → Session → Turn
  raises : Exception → Session → Turn

abbrev pub say : Bytes → Session → Session
say text s = record s { output = s.output ++ text }

-- The mode and the operation of a line, and whether it asks to block and not to block.
pub record Mode : Type 0 where
  pub word : Bytes
  pub op : Bytes
  pub is_blocking : Bool
  pub is_nonblocking : Bool

abbrev pub mode_of : Bytes → Bytes → Mode
mode_of word op = record {
  word = word;
  op = op;
  is_blocking = is_block_token word;
  is_nonblocking = is_nonblock_token word;
}

unfoldable pub list_lines : Dict ℕ ℕ → Bytes
list_lines [] = []
list_lines ((k, v) ∷ m) = codes "  " ++ decimal k ++ codes "\n" ++ list_lines m

-- The `list` command.
unfoldable pub list_text : (Dict ℕ ℕ → Dict ℕ ℕ) → Dict ℕ ℕ → Bytes
list_text order [] = codes "No pending tickets.\n"
list_text order (e ∷ m) = codes "Pending tickets:\n" ++ list_lines (order (e ∷ m))

-- What a `get` does with its response: the ticket goes unless its request is not finished.
unfoldable pub got : ℕ → Session → GetResponse → Session
got id s response = record (say (print_get response) s) {
  pending = if is_not_finished response.status then s.pending else erase id s.pending;
}

unfoldable pub after_get_call : ℕ → Session → Call GetResponse → Turn
after_get_call id s (returned code socket response) =
    if is_success code
    then goes_on (got id (record s { socket = socket }) response)
    else goes_on (say (codes "Error getting result (transport)\n") (record s { socket = socket }))
after_get_call id s (thrown e socket) = raises e (record s { socket = socket })

-- A ticket that a non-blocking request is given is noted.
unfoldable pub note_ticket : Bool → Option ℕ → Dict ℕ ℕ → Dict ℕ ℕ
note_ticket nonblocking none pending = pending
note_ticket nonblocking (some n) pending = if nonblocking then assign n n pending else pending

unfoldable pub submitted : Mode → Session → SubmitResponse → Session
submitted mode s response = record (say (print_submit response) s) {
  pending = note_ticket mode.is_nonblocking response.ticket s.pending;
}

-- The end of an arithmetic command, under RETURN_IF_ERROR.
unfoldable pub after_math : Mode → Session → Call SubmitResponse → Turn
after_math mode s (returned code socket response) =
    if is_success (handle_regular_error code)
    then goes_on (submitted mode (record s { socket = socket }) response)
    else returns (handle_regular_error code) (record s { socket = socket })
after_math mode s (thrown e socket) = raises e (record s { socket = socket })

-- The end of a command on texts.
unfoldable pub after_str : Bytes → Mode → Session → Call SubmitResponse → Turn
after_str failed mode s (returned code socket response) =
    if is_success code
    then goes_on (submitted mode (record s { socket = socket }) response)
    else goes_on (say failed (record s { socket = socket }))
after_str failed mode s (thrown e socket) = raises e (record s { socket = socket })

module _ (codec : ClientCodec) where
  unfoldable pub submit : Mode → SubmitRequest → Exchange → Socket → Call SubmitResponse
  submit mode req x socket =
      if mode.is_blocking
      then submit_blocking codec req new_submit_response x socket
      else submit_nonblocking codec req new_submit_response x socket

  unfoldable pub get_as : ℕ → ℕ → Option (GetWaitMode × ℕ) → Prompt → Session → Turn
  get_as id ticket none p s = goes_on (say (codes "Invalid wait mode. Use: nowait | wait <ms>\n") s)
  get_as id ticket (some (mode, ms)) p s =
      after_get_call id s (get_result codec ticket mode ms new_get_response p.exchange s.socket)

  unfoldable pub get_pending : ℕ → Option ℕ → Option (GetWaitMode × ℕ) → Prompt → Session → Turn
  get_pending id none wait p s =
      goes_on (say (codes "Unknown or already consumed ticket: " ++ decimal id ++ codes "\n") s)
  get_pending id (some ticket) wait p s = get_as id ticket wait p s

  abbrev pub get_named : Bytes → Option (GetWaitMode × ℕ) → Prompt → Session → Turn
  get_named text wait p s = get_pending (strtoull text) (find (strtoull text) s.pending) wait p s

  -- The `get` command.
  unfoldable pub on_get : GetLine → Prompt → Session → Turn
  on_get no_ticket p s = goes_on (say (codes "Usage: get <ticket> [nowait | wait <ms>]\n") s)
  on_get (ticket_only text) p s = get_named text (some (no_wait, 0)) p s
  on_get (with_word text word) p s = get_named text (wait_named word 0) p s
  on_get (with_ms text word ms) p s = get_named text (wait_named word ms) p s

  unfoldable pub on_math : Mode → Option (ℤ × ℤ) → Prompt → Session → Turn
  on_math mode none p s =
      goes_on (say (codes "Usage: " ++ mode.word ++ codes " " ++ mode.op ++ codes " a b\n") s)
  on_math mode (some (a, b)) p s =
      after_math mode s (submit mode (make_math (math_op mode.op) a b) p.exchange s.socket)

  unfoldable pub on_str :
      StrOp → Bytes → Bytes → Mode → Option (Bytes × Bytes) → Prompt → Session → Turn
  on_str op usage failed mode none p s = goes_on (say (codes "Usage: " ++ mode.word ++ usage) s)
  on_str op usage failed mode (some (s1, s2)) p s =
      after_str failed mode s (submit mode (make_str op s1 s2) p.exchange s.socket)
