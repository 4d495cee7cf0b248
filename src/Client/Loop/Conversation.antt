-- ===== src/Client/Loop/Conversation.antt =====
-- Two lines that are typed: an arithmetic operation without waiting, and the `get` of its ticket.
use inter_process_communicat.Base.{
  ℕ, ◌^◌, ◌<◌, ◌≡◌, refl, ◌∙◌, true, false, some, List, ◌∷◌, ◌++◌, length,
}
use inter_process_communicat.Base.Int.{ℤ, IsInt32}
use inter_process_communicat.Base.Eq.{nat_eq}
use inter_process_communicat.Base.Dict.{find}
use inter_process_communicat.Base.Text.{codes, decimal, decimal_ℤ}
use inter_process_communicat.Protocol.{
  Bytes, GetResponse, wait_up_to, new_submit_response, new_get_response, ec_success,
}
use inter_process_communicat.Errors.{handle_regular_error}
use inter_process_communicat.Client.{ClientCodec, Socket, returned}
use inter_process_communicat.Client.Submit.{submit_nonblocking, get_result}
use inter_process_communicat.Client.Tokens.{
  insensitive_equals, is_nonblock_token, is_block_token, make_math,
}
use inter_process_communicat.Client.Commands.{is_math_word, math_op}
use inter_process_communicat.Client.Commands.Laws.{IsWord, spaced}
use inter_process_communicat.Client.Commands.Lines.{IsLine}
use inter_process_communicat.Client.Session.{
  Session, Prompt, mode_of, submit, submitted, after_math, after_get_call, got,
}
use inter_process_communicat.Client.Loop.{proceed, run_loop}
use inter_process_communicat.Client.Loop.Words.{IsMode}
use inter_process_communicat.Client.Loop.Commands.{on_line-math, on_line-get}
use inter_process_communicat.Client.Loop.Tickets.{issued, issued-pending}
use inter_process_communicat.Client.Loop.Failures.{prompted, run_loop-line}

abbrev pub math_line : Bytes → Bytes → ℤ → ℤ → Bytes
math_line w o a b = spaced w (spaced o (spaced (decimal_ℤ a) (decimal_ℤ b)))

abbrev pub wait_line : Bytes → Bytes → ℕ → ℕ → Bytes
wait_line w v n ms = spaced w (spaced (decimal n) (spaced v (decimal ms)))

-- A word for the mode that does not wait, a word for an arithmetic operation, each of at most 31 bytes,
-- and two `int`s, on a line of at most 510 bytes.
pub record IsMathLine (w o : Bytes) (a b : ℤ) : Type 0 where
  pub mode : IsWord 31 w
  pub async : is_nonblock_token w ≡ true
  pub no_block : is_block_token w ≡ false
  pub op : IsWord 31 o
  pub math : is_math_word o ≡ true
  pub first : IsInt32 a
  pub second : IsInt32 b
  pub text : IsLine (math_line w o a b)
  pub short : length (math_line w o a b) < 511

-- `get` and `wait` as a user may spell them, the number of a ticket, and one of milliseconds.
pub record IsWaitLine (w v : Bytes) (n ms : ℕ) : Type 0 where
  pub word : IsWord 31 w
  pub get : insensitive_equals w (codes "get") ≡ true
  pub mode : IsWord 31 v
  pub wait : insensitive_equals v (codes "wait") ≡ true
  pub ticket : n < 2 ^ 64
  pub brief : ms < 2 ^ 32
  pub text : IsLine (wait_line w v n ms)
  pub short : length (wait_line w v n ms) < 511

-- The session after the first line, when its request was given ticket `n`.
abbrev pub after_issue : Bytes → Bytes → Session → Bytes → Socket → ℕ → Session
after_issue w o s rest socket n =
    submitted (mode_of w o) (record (prompted s rest) { socket = socket }) (issued n)

module _ (codec : ClientCodec) where
  math_line-issued :
      (w o : Bytes) (a b : ℤ) (n : ℕ) (p : Prompt) (ps : List Prompt) (s : Session) (rest : Bytes)
      (socket : Socket)
      → IsMathLine w o a b
      → p.sig_stop ≡ false
      → s.input ≡ math_line w o a b ++ (10 ∷ rest)
      → submit_nonblocking codec (make_math (math_op o) a b) new_submit_response p.exchange s.socket
        ≡ returned ec_success socket (issued n)
      → run_loop codec (p ∷ ps) s ≡ run_loop codec ps (after_issue w o s rest socket n)
  unfolding submit after_math handle_regular_error proceed
  math_line-issued w o a b n p ps s rest socket h calm e call =
      let mode : IsMode w = rw h.async refl in
      run_loop-line codec p ps s (math_line w o a b) rest calm h.text h.short e
      ∙ rw
          (
            on_line-math codec w o a b p (prompted s rest) h.mode mode h.op h.math h.first h.second,
            h.no_block,
            call,
          )
          refl

  wait_line-got :
      (w v : Bytes) (n ms : ℕ) (p : Prompt) (ps : List Prompt) (s : Session) (rest : Bytes)
      (socket : Socket) (response : GetResponse)
      → IsWaitLine w v n ms
      → p.sig_stop ≡ false
      → s.input ≡ wait_line w v n ms ++ (10 ∷ rest)
      → find n s.pending ≡ some n
      → get_result codec n wait_up_to ms new_get_response p.exchange s.socket
        ≡ returned ec_success socket response
      → run_loop codec (p ∷ ps) s
        ≡ run_loop codec ps (got n (record (prompted s rest) { socket = socket }) response)
  unfolding after_get_call proceed
  wait_line-got w v n ms p ps s rest socket response h calm e pending call =
      let (plain, waiting) =
        on_line-get codec w v n ms n p (prompted s rest) h.word h.get h.mode h.wait h.ticket h.brief
          pending in
      run_loop-line codec p ps s (wait_line w v n ms) rest calm h.text h.short e
      ∙ rw (waiting, call) refl

  -- The loop, from a line whose request is given a ticket, to behind the `get` of the ticket.
  pub run_loop-conversation :
      (w o : Bytes) (a b : ℤ) (g v : Bytes) (n ms : ℕ) (p q : Prompt) (ps : List Prompt)
      (s : Session) (rest : Bytes) (one two : Socket) (response : GetResponse)
      → IsMathLine w o a b
      → IsWaitLine g v n ms
      → p.sig_stop ≡ false
      → q.sig_stop ≡ false
      → s.input ≡ math_line w o a b ++ (10 ∷ (wait_line g v n ms ++ (10 ∷ rest)))
      → submit_nonblocking codec (make_math (math_op o) a b) new_submit_response p.exchange s.socket
        ≡ returned ec_success one (issued n)
      → get_result codec n wait_up_to ms new_get_response q.exchange one
        ≡ returned ec_success two response
      → run_loop codec (p ∷ q ∷ ps) s
        ≡ run_loop codec ps (
            got n
              (record (prompted
                (after_issue w o s (wait_line g v n ms ++ (10 ∷ rest)) one n)
                rest) { socket = two })
              response)
  unfolding submitted
  run_loop-conversation w o a b g v n ms p q ps s rest one two response h h' calm quiet e call
        call' =
      let behind = wait_line g v n ms ++ (10 ∷ rest) in
      math_line-issued w o a b n p (q ∷ ps) s behind one h calm e call
      ∙ wait_line-got g v n ms q ps (after_issue w o s behind one n) rest two response h' quiet refl
          (issued-pending (mode_of w o) (record (prompted s behind) { socket = one }) n h.async)
          call'
