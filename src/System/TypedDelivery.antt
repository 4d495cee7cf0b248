-- ===== src/System/TypedDelivery.antt =====
-- An operation that a user types to be done without waiting, the workers, and the `get` that is typed
-- for its ticket.
use inter_process_communicat.Base.{
  ℕ, ◌+◌, ◌≤◌, ◌≡◌, refl, sym, ap, subst, ◌∙◌, true, false, List, [], ◌∷◌, ◌++◌, append-nil, some,
  defined, length,
}
use inter_process_communicat.Base.Int.{ℤ}
use inter_process_communicat.Base.Eq.{nat_eq, bytes_eq}
use inter_process_communicat.Base.Dict.{assign, erase}
use inter_process_communicat.Base.Text.{codes, decimal, decimal_ℤ}
use inter_process_communicat.Protocol.{
  Bytes, nonblocking, st_success, int_result, SubmitRequest, SubmitResponse, submit_resp,
  new_submit_response, wait_up_to, get_resp, ec_success,
}
use inter_process_communicat.Errors.{ipc_message}
use inter_process_communicat.Operations.{execute}
use inter_process_communicat.Caps.Laws.{Granted}
use inter_process_communicat.Runner.{Runner, Reply}
use inter_process_communicat.Runner.Submit
use inter_process_communicat.Runner.Submit.{has_payload, ticket_id, enqueue, run_mode}
use inter_process_communicat.Runner.Effort.{work_left}
use inter_process_communicat.Runner.Rounds.{Rounds}
use inter_process_communicat.Server.{Application, Codec, Round, more, last}
use inter_process_communicat.Server.Loop.{Ran, run}
use inter_process_communicat.Client.{ClientCodec, Socket, returned}
use inter_process_communicat.Client.Submit.{with_mode, get_request}
use inter_process_communicat.Client.Tokens.{is_nonblock_token, make_math}
use inter_process_communicat.Client.Print.{
  is_not_finished, print_submit, print_get, get_result_text, result_line,
}
use inter_process_communicat.Client.Commands.{math_op}
use inter_process_communicat.Client.Session.{Session, Prompt, got, submitted, note_ticket}
use inter_process_communicat.Client.Loop.{run_loop}
use inter_process_communicat.Client.Loop.Tickets.{issued, issued-printed}
use inter_process_communicat.Client.Loop.Failures.{prompted}
use inter_process_communicat.Client.Loop.Conversation.{
  math_line, wait_line, IsMathLine, IsWaitLine, after_issue, run_loop-conversation,
}
use inter_process_communicat.System.{Agree}
use inter_process_communicat.System.Relay.{after_sending, IsRelayed}
use inter_process_communicat.System.Nonblocking.{Granted-has_payload}
use inter_process_communicat.System.Delivery.{IsServing, delivery}

run-issued :
    (r : Runner) (now pick : ℕ) (req : SubmitRequest)
    → has_payload req.payload ≡ true
    → (out : Reply SubmitResponse) × (Submit.run r now pick
          (record req { mode = nonblocking })
          new_submit_response
        ≡ defined out)
      × (out.response ≡ issued (ticket_id now r.seq))
unfolding Submit.run run_mode enqueue
run-issued r now pick req p = (
  record {
    code = ec_success;
    runner = (enqueue r now pick (record req { mode = nonblocking })).1;
    response = issued (ticket_id now r.seq);
  },
  rw p refl,
  refl,
)

-- What the client prints of the ticket, and of the value of a finished operation.
abbrev pub ticket_text : ℕ → Bytes
ticket_text n = codes "IPC Info: [NOT_FINISHED]\n" ++ (codes "ticket=" ++ (decimal n ++ codes "\n"))

abbrev pub value_text : ℤ → Bytes
value_text v = codes "Result: Int=" ++ decimal_ℤ v ++ codes "\n"

issued-text : (n : ℕ) → print_submit (issued n) ≡ ticket_text n
issued-text n =
    issued-printed n
    ∙ ap (λ t. codes "IPC Info: [NOT_FINISHED]\n" ++ t)
        (append-nil (codes "ticket=" ++ (decimal n ++ codes "\n")))

-- The session behind both lines.
abbrev pub told_value : ℕ → ℤ → Session → Bytes → Socket → Session
told_value n v s rest socket = record {
  input = rest;
  pending = erase n (assign n n s.pending);
  socket = socket;
  output = (((s.output ++ codes ">> ") ++ ticket_text n) ++ codes ">> ") ++ value_text v;
}

got-told :
    (w o : Bytes) (n : ℕ) (v : ℤ) (s : Session) (behind rest : Bytes) (one two : Socket)
    → is_nonblock_token w ≡ true
    → got n
        (record (prompted (after_issue w o s behind one n) rest) { socket = two })
        (record { status = st_success; result = some (int_result v) })
      ≡ told_value n v s rest two
unfolding got submitted note_ticket print_get ipc_message get_result_text result_line
    is_not_finished
got-told w o n v s behind rest one two async = rw (async, issued-text n) refl

module _ (ours : ClientCodec) (theirs : Codec) (agree : Agree ours theirs) where
  -- A user of a registered client types an arithmetic operation that the mask of the client grants, to
  -- be done without waiting, of two `int`s for which it succeeds with the value v; and on the next line
  -- a `get` with `wait` for the ticket that the server gives it. If the network carries both messages and
  -- their answers, and before the second the workers go through as many rounds as there was work left
  -- and three more, then the server sends exactly the two answers, and the client prints the ticket and
  -- then "Result: Int=" and v in decimal, does not list the ticket any more, and goes on with what is
  -- typed next.
  pub typed_delivery :
      (seq k : ℕ) (app : Application) (r : Runner) (id : Bytes) (caps n : ℕ) (w o : Bytes)
      (a b v : ℤ) (g u : Bytes) (ms : ℕ) (asking told fetching reply : Bytes) (first second : Round)
      (p q : Prompt) (ps : List Prompt) (s : Session) (rest : Bytes)
      → IsServing seq app r id caps
      → execute (make_math (math_op o) a b).payload ≡ defined (st_success, int_result v)
      → Granted (make_math (math_op o) a b).payload caps
      → n ≡ ticket_id first.env.now r.seq
      → work_left r + 3 ≤ k
      → first.sig_stop ≡ false
      → first.others ≡ []
      → second.sig_stop ≡ false
      → Rounds (length r.workers) k second.others
      → IsMathLine w o a b
      → IsWaitLine g u n ms
      → p.sig_stop ≡ false
      → q.sig_stop ≡ false
      → s.input ≡ math_line w o a b ++ (10 ∷ (wait_line g u n ms ++ (10 ∷ rest)))
      → IsRelayed ours theirs id
          (with_mode (make_math (math_op o) a b) nonblocking)
          (submit_resp (issued n))
          asking
          told
          first
          p.exchange
      → IsRelayed ours theirs id
          (get_request n wait_up_to ms)
          (get_resp (record { status = st_success; result = some (int_result v) }))
          fetching
          reply
          second
          q.exchange
      → s.socket.inbox ≡ []
      → ((served : Ran) × (run theirs app (first ∷ second ∷ []) ≡ defined served)
          × (served.frames ≡ more id ∷ last told ∷ more id ∷ last reply ∷ []))
        × (run_loop ours (p ∷ q ∷ ps) s
            ≡ run_loop ours ps
                (told_value n v s rest (after_sending fetching (after_sending asking s.socket))))
  typed_delivery seq k app r id caps n w o a b v g u ms asking told fetching reply first second p q
        ps s rest serving evaluates granted named few calm idle quiet fair hm hw calm' quiet' typed
        net₁ net₂ empty =
      let req = make_math (math_op o) a b in
      let (out, ran, whole) =
        run-issued r first.env.now first.env.pick req
          (Granted-has_payload req.payload caps granted) in
      let told_issued : out.response ≡ issued n = whole ∙ ap issued (sym named) in
      let (server, client₁, client₂) =
        delivery ours theirs agree seq k app r id caps n req wait_up_to ms st_success (int_result v)
          out asking told fetching reply first second p.exchange q.exchange s.socket serving
          evaluates granted ran (ap (λ (x : SubmitResponse). x.ticket) told_issued) few calm idle
          quiet fair (λ m e. cc)
          (subst
            (λ x.
              IsRelayed ours theirs id (with_mode req nonblocking) (submit_resp x) asking told first
                p.exchange)
            (sym told_issued) net₁)
          net₂ empty in
      let one = after_sending asking s.socket in
      (
        server,
        run_loop-conversation ours w o a b g u n ms p q ps s rest one (after_sending fetching one) _
              hm hw calm' quiet' typed (client₁ ∙ ap (returned ec_success one) told_issued) client₂
            ∙ ap (run_loop ours ps) (
                got-told w o n v s (wait_line g u n ms ++ (10 ∷ rest)) rest one
                  (after_sending fetching one) hm.async),
      )
