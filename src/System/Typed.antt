-- ===== src/System/Typed.antt =====
-- A command that is typed at a client, the server that executes it, and what the client prints.
use inter_process_communicat.Base.{
  ℕ, ◌<◌, ◌≡◌, refl, ap, ◌∙◌, Bool, true, false, ◌||◌, [], ◌∷◌, ◌++◌, some, defined,
}
use inter_process_communicat.Base.Int.{ℤ, IsInt32}
use inter_process_communicat.Base.Eq.{bytes_eq, nat_eq}
use inter_process_communicat.Base.Dict.{find}
use inter_process_communicat.Base.Text.{codes, decimal_ℤ}
use inter_process_communicat.Protocol.{
  Bytes, blocking, st_success, int_result, submit_resp, new_submit_response, ec_success,
}
use inter_process_communicat.Errors.{ipc_message, handle_regular_error}
use inter_process_communicat.Operations.{execute}
use inter_process_communicat.Caps.Laws.{Granted}
use inter_process_communicat.Runner.{Runner}
use inter_process_communicat.Server.{Application, Codec, Round, more, last}
use inter_process_communicat.Server.Loop.{again, Rounded, body}
use inter_process_communicat.Client.{ClientCodec, returned}
use inter_process_communicat.Client.Submit.{with_mode}
use inter_process_communicat.Client.Tokens.{is_nonblock_token, is_block_token, make_math}
use inter_process_communicat.Client.Print.{print_submit, ticket_line, submit_result, result_line}
use inter_process_communicat.Client.Commands.{is_math_word, math_op}
use inter_process_communicat.Client.Commands.Laws.{IsWord, spaced}
use inter_process_communicat.Client.Session.{
  Session, Prompt, goes_on, say, mode_of, note_ticket, submitted, submit, after_math,
}
use inter_process_communicat.Client.Loop.{on_line}
use inter_process_communicat.Client.Loop.Words.{IsMode}
use inter_process_communicat.Client.Loop.Commands.{on_line-math}
use inter_process_communicat.System.{Agree}
use inter_process_communicat.System.Relay.{after_sending, IsRelayed}
use inter_process_communicat.System.Blocking.{outcome, blocking_call-Answered}

block-IsMode : (w : Bytes) → is_block_token w ≡ true → IsMode w
block-IsMode w b = rw b (or_true (is_nonblock_token w))
  where
    or_true : (a : Bool) → (a || true) ≡ true
    or_true true = refl
    or_true false = refl

-- What is printed of a success, and that no ticket is noted.
printed_success :
    (w o : Bytes) (t : Session) (v : ℤ)
    → submitted (mode_of w o) t (outcome st_success (int_result v))
      ≡ say (codes "Result: Int=" ++ decimal_ℤ v ++ codes "\n") t
unfolding submitted note_ticket print_submit ipc_message ticket_line submit_result result_line
printed_success w o t v = refl

module _ (ours : ClientCodec) (theirs : Codec) (agree : Agree ours theirs) where
  -- A user of a registered client types a word for the blocking mode, a word for an arithmetic operation
  -- that the client's mask grants, each of at most 31 bytes, and two `int`s in decimal, for which the
  -- operation succeeds with the value v.
  -- Then the server, in whatever state its runner is, answers in one round with one message; and the
  -- client, if this answer comes in before the timeout and no message of before is left, prints
  -- "Result: Int=" and v in decimal, keeps its pending tickets, and goes on.
  pub typed_math-printed :
      (app : Application) (r : Runner) (id : Bytes) (caps : ℕ) (w o : Bytes) (a b v : ℤ)
      (sending reply : Bytes) (round : Round) (p : Prompt) (t : Session)
      → IsWord 31 w
      → is_block_token w ≡ true
      → IsWord 31 o
      → is_math_word o ≡ true
      → IsInt32 a
      → IsInt32 b
      → app.algo_runner.impl ≡ some r
      → find id app.client_exec_caps ≡ some caps
      → caps < 256
      → Granted (make_math (math_op o) a b).payload caps
      → execute (make_math (math_op o) a b).payload ≡ defined (st_success, int_result v)
      → IsRelayed ours theirs id
          (with_mode (make_math (math_op o) a b) blocking)
          (submit_resp (outcome st_success (int_result v)))
          sending
          reply
          round
          p.exchange
      → t.socket.inbox ≡ []
      → ((y : Rounded) × (body theirs app round ≡ defined (some y))
          × (y.frames ≡ more id ∷ last reply ∷ [])
          × (y.then_do ≡ again)
          × (y.app.algo_runner.impl ≡ some r))
        × (on_line ours (spaced w (spaced o (spaced (decimal_ℤ a) (decimal_ℤ b)))) p t
            ≡ defined (
                goes_on (record t {
                  socket = after_sending sending t.socket;
                  output = t.output ++ (codes "Result: Int=" ++ decimal_ℤ v ++ codes "\n");
                })))
  unfolding submit after_math handle_regular_error
  typed_math-printed app r id caps w o a b v sending reply round p t hw block ho op ha hb has known
        small granted value net empty =
      let (server, client) =
        blocking_call-Answered ours theirs agree app r id caps (make_math (math_op o) a b)
          st_success (int_result v) sending reply round new_submit_response p.exchange t.socket has
          known small granted value net empty in
      let socket = after_sending sending t.socket in
      let called : submit ours (mode_of w o) (make_math (math_op o) a b) p.exchange t.socket
          ≡ returned ec_success socket (outcome st_success (int_result v)) =
        rw block client in
      (
        server,
        on_line-math ours w o a b p t hw (block-IsMode w block) ho op ha hb
            ∙ ap (λ c. defined (after_math (mode_of w o) t c)) called
            ∙ ap (λ s. defined (goes_on s)) (printed_success w o (record t { socket = socket }) v),
      )
