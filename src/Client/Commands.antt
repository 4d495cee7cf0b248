-- ===== src/Client/Commands.antt =====
-- How `Application::run` of sources/client/application.cpp reads a line: its words and numbers.
pub mod Laws
pub mod Lines
pub mod Arrays
use inter_process_communicat.Base.{
  ℕ, option_map, Option, none, some, [], Outcome, defined, ◌>>=◌, Bool, ◌||◌, if◌then◌else◌,
}
use inter_process_communicat.Base.Int.{ℤ}
use inter_process_communicat.Base.Text.{codes}
use inter_process_communicat.Protocol.{
  Bytes, GetWaitMode, no_wait, wait_up_to, MathOp, math_add, math_sub, math_mul, math_div,
}
use inter_process_communicat.Client.Tokens.{insensitive_equals}
use inter_process_communicat.Client.Scan.{
  fgets, c_string, chomp, next_word, scan_word, scan_int, scan_unsigned,
}

-- What follows `%*31s`.
abbrev pub rest_of : Option (Bytes × Bytes) → Bytes
rest_of none = []
rest_of (some (word, rest)) = rest

unfoldable pub after_word : Bytes → Bytes
after_word s = rest_of (next_word 31 s)

-- What `sscanf` finds in a `get` line.
pub data GetLine : Type 0 where
  no_ticket : GetLine
  ticket_only : Bytes → GetLine
  with_word : Bytes → Bytes → GetLine
  with_ms : Bytes → Bytes → ℕ → GetLine

abbrev pub get_ms : Bytes → Bytes → Option ℕ → GetLine
get_ms ticket word none = with_word ticket word
get_ms ticket word (some ms) = with_ms ticket word ms

unfoldable pub get_wait : Bytes → Option (Bytes × Bytes) → Outcome GetLine
get_wait ticket none = defined (ticket_only ticket)
get_wait ticket (some (word, s)) = scan_unsigned s >>= λ o. defined (get_ms ticket word o)

unfoldable pub get_ticket : Option (Bytes × Bytes) → Outcome GetLine
get_ticket none = defined no_ticket
get_ticket (some (ticket, s)) = scan_word 32 31 s >>= get_wait ticket

-- `sscanf(buf, "%*31s %63s %31s %u", ticketStr, waitTok, &ms)`.
unfoldable pub scan_get : Bytes → Outcome GetLine
scan_get buf = scan_word 64 63 (after_word buf) >>= get_ticket

-- The wait that a word asks for.
unfoldable pub wait_named : Bytes → ℕ → Option (GetWaitMode × ℕ)
wait_named word ms =
    if insensitive_equals word (codes "nowait")
    then some (no_wait, 0)
    else if insensitive_equals word (codes "wait")
    then some (wait_up_to, ms)
    else none

-- `sscanf(buf, "%31s %31s", mode, op)`.
unfoldable pub second_word : Option (Bytes × Bytes) → Outcome (Option (Bytes × Bytes))
second_word none = defined none
second_word (some (mode, s)) = scan_word 32 31 s >>= λ o. defined (option_map (λ x. (mode, x.0)) o)

unfoldable pub scan_mode : Bytes → Outcome (Option (Bytes × Bytes))
scan_mode buf = scan_word 32 31 buf >>= second_word

unfoldable pub second_int : Option (ℤ × Bytes) → Outcome (Option (ℤ × ℤ))
second_int none = defined none
second_int (some (a, s)) = scan_int s >>= λ o. defined (option_map (λ x. (a, x.0)) o)

-- `sscanf(buf, "%*31s %*31s %d %d", &a, &b)`.
unfoldable pub scan_ints : Bytes → Outcome (Option (ℤ × ℤ))
scan_ints buf = scan_int (after_word (after_word buf)) >>= second_int

unfoldable pub second_text : Option (Bytes × Bytes) → Outcome (Option (Bytes × Bytes))
second_text none = defined none
second_text (some (s1, s)) = scan_word 64 63 s >>= λ o. defined (option_map (λ x. (s1, x.0)) o)

-- `sscanf(buf, "%*31s %*31s %63s %63s", s1, s2)`.
unfoldable pub scan_texts : Bytes → Outcome (Option (Bytes × Bytes))
scan_texts buf = scan_word 64 63 (after_word (after_word buf)) >>= second_text

-- The words of the four arithmetic operations.
unfoldable pub is_math_word : Bytes → Bool
is_math_word op =
    insensitive_equals op (codes "add")
    || insensitive_equals op (codes "sub")
    || insensitive_equals op (codes "mult")
    || insensitive_equals op (codes "div")

unfoldable pub math_op : Bytes → MathOp
math_op op =
    if insensitive_equals op (codes "add")
    then math_add
    else if insensitive_equals op (codes "sub")
    then math_sub
    else if insensitive_equals op (codes "mult")
    then math_mul
    else math_div

-- `fgets`, and the newline taken off: the line as a C string, and what is left to read.
unfoldable pub read_line : Bytes → Option (Bytes × Bytes)
read_line input = option_map (λ x. (chomp (c_string x.0), x.1)) (fgets input)
