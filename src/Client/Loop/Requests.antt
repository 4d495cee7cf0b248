-- ===== src/Client/Loop/Requests.antt =====
-- Which request an arithmetic command submits.
use inter_process_communicat.Base.{◌≡◌, refl, ap, ◌∙◌, true, false, defined, if◌then◌else◌}
use inter_process_communicat.Base.Int.{ℤ, IsInt32}
use inter_process_communicat.Base.Text.{codes, decimal_ℤ}
use inter_process_communicat.Protocol.{
  Bytes, MathOp, math_add, math_sub, math_mul, math_div, math_unnamed, blocking, math,
  SubmitRequest, new_submit_response,
}
use inter_process_communicat.Client.{ClientCodec}
use inter_process_communicat.Client.Submit.{submit_blocking, submit_nonblocking}
use inter_process_communicat.Client.Tokens.{
  insensitive_equals, is_block_token, insensitive_equals_iff, insensitive_equals-same,
}
use inter_process_communicat.Client.Commands.{is_math_word, math_op}
use inter_process_communicat.Client.Commands.Laws.{IsWord, spaced}
use inter_process_communicat.Client.Session.{Session, Prompt, mode_of, submit, after_math}
use inter_process_communicat.Client.Loop.{on_line}
use inter_process_communicat.Client.Loop.Words.{IsMode}
use inter_process_communicat.Client.Loop.Commands.{on_line-math}

-- The name that the help text gives an operation, as a user may spell it.
abbrev pub Names : Bytes → MathOp → Type 0
Names o math_add = insensitive_equals o (codes "add") ≡ true
Names o math_sub = insensitive_equals o (codes "sub") ≡ true
Names o math_mul = insensitive_equals o (codes "mult") ≡ true
Names o math_div = insensitive_equals o (codes "div") ≡ true
Names o (math_unnamed n) = ⊥

-- The request of an operation on two numbers; its mode, which the submitting call sets, is the default.
abbrev pub asking : MathOp → ℤ → ℤ → SubmitRequest
asking op a b = record { mode = blocking; payload = math (record { op = op; a = a; b = b }) }

-- A spelling of one name is no spelling of another.
other_name :
    (o k k' : Bytes)
    → insensitive_equals k k' ≡ false
    → insensitive_equals o k ≡ true
    → insensitive_equals o k' ≡ false
other_name o k k' differ e =
    insensitive_equals-same o k k' ((insensitive_equals_iff o k).0 e) ∙ differ

-- The word is taken for exactly the operation that it names.
named : (o : Bytes) (op : MathOp) → Names o op → (is_math_word o ≡ true) × (math_op o ≡ op)
unfolding is_math_word math_op insensitive_equals
named o math_add e = (rw e refl, rw e refl)
named o math_sub e =
    let no_add = other_name o (codes "sub") (codes "add") refl e in
    (rw (no_add, e) refl, rw (no_add, e) refl)
named o math_mul e =
    let no_add = other_name o (codes "mult") (codes "add") refl e in
    let no_sub = other_name o (codes "mult") (codes "sub") refl e in
    (rw (no_add, no_sub, e) refl, rw (no_add, no_sub, e) refl)
named o math_div e =
    let no_add = other_name o (codes "div") (codes "add") refl e in
    let no_sub = other_name o (codes "div") (codes "sub") refl e in
    let no_mult = other_name o (codes "div") (codes "mult") refl e in
    (rw (no_add, no_sub, no_mult, e) refl, rw (no_add, no_sub, no_mult) refl)
named o (math_unnamed n) e = absurd e

-- A user types a word for a mode, the name of an arithmetic operation, each of at most 31 bytes and in
-- any case, and two `int`s in decimal. Then the client submits the request of that operation with the
-- first number for a and the second for b, with `submitBlocking` if the word asks to block and else
-- with `submitNonBlocking`, into a new response.
pub on_line-asks :
    (codec : ClientCodec) (w o : Bytes) (op : MathOp) (a b : ℤ) (p : Prompt) (t : Session)
    → IsWord 31 w
    → IsMode w
    → IsWord 31 o
    → Names o op
    → IsInt32 a
    → IsInt32 b
    → on_line codec (spaced w (spaced o (spaced (decimal_ℤ a) (decimal_ℤ b)))) p t
      ≡ defined (
          after_math (mode_of w o) t (
            if is_block_token w
            then submit_blocking codec (asking op a b) new_submit_response p.exchange t.socket
            else submit_nonblocking codec (asking op a b) new_submit_response p.exchange t.socket))
unfolding submit
on_line-asks codec w o op a b p t hw m ho names ha hb =
    let (word, same) = named o op names in
    on_line-math codec w o a b p t hw m ho word ha hb
    ∙ ap
        (λ op. defined (
          after_math (mode_of w o) t
            (submit codec (mode_of w o) (asking op a b) p.exchange t.socket)))
        same
