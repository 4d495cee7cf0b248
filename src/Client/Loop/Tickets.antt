-- ===== src/Client/Loop/Tickets.antt =====
-- The ticket that is printed, and typed again.
use inter_process_communicat.Base.{
  false, ℕ, ◌^◌, ◌<◌, ◌≡◌, refl, ap, true, none, some, [], ◌++◌, arith, defined,
}
use inter_process_communicat.Base.Eq.{nat_eq}
use inter_process_communicat.Base.Dict.{find, find-assign_self, find-erase_self}
use inter_process_communicat.Base.Text.{codes, decimal}
use inter_process_communicat.Protocol.{
  st_not_finished, SubmitResponse, GetResponse, no_wait, wait_up_to, new_get_response,
}
use inter_process_communicat.Errors.{ipc_message, status_to_str}
use inter_process_communicat.Client.{ClientCodec}
use inter_process_communicat.Client.Submit.{get_result}
use inter_process_communicat.Client.Tokens.{insensitive_equals}
use inter_process_communicat.Client.Print.{
  is_not_finished, print_submit, ticket_line, submit_result,
}
use inter_process_communicat.Client.Commands.Laws.{spaced}
use inter_process_communicat.Client.Session.{
  goes_on, say, got, Session, Prompt, Mode, note_ticket, submitted, after_get_call,
}
use inter_process_communicat.Client.Loop.{on_line}
use inter_process_communicat.Client.Loop.Commands.{on_line-get, on_line-unknown}

-- The answer to a submission without waiting.
abbrev pub issued : ℕ → SubmitResponse
issued n = record { status = st_not_finished; ticket = some n; result = none }

pub issued-pending :
    (mode : Mode) (s : Session) (n : ℕ)
    → mode.is_nonblocking ≡ true
    → find n (submitted mode s (issued n)).pending ≡ some n
unfolding submitted note_ticket
issued-pending mode s n nonblocking = simp nonblocking (find-assign_self n n s.pending)

pub issued-printed :
    (n : ℕ)
    → print_submit (issued n)
      ≡ codes "IPC Info: [NOT_FINISHED]\n" ++ ((codes "ticket=" ++ (decimal n ++ codes "\n")) ++ [])
unfolding print_submit ipc_message ticket_line submit_result status_to_str
issued-printed n = refl

pub get_is_get : insensitive_equals (codes "get") (codes "get") ≡ true
unfolding insensitive_equals
get_is_get = refl

pub wait_is_wait : insensitive_equals (codes "wait") (codes "wait") ≡ true
unfolding insensitive_equals
wait_is_wait = refl

-- A submission without waiting that is answered by NOT_FINISHED and a ticket prints the number of the
-- ticket in decimal. A `get` of the number as it is printed then asks for exactly that ticket, without a
-- wait; with `wait` and a number of milliseconds behind it, for at most these.
pub submitted-get :
    (codec : ClientCodec) (mode : Mode) (s : Session) (n ms : ℕ) (p : Prompt)
    → mode.is_nonblocking ≡ true
    → n < 2 ^ 64
    → ms < 2 ^ 32
    → let t = submitted mode s (issued n) in
      (t.output
        ≡ s.output
          ++ (codes "IPC Info: [NOT_FINISHED]\n"
              ++ ((codes "ticket=" ++ (decimal n ++ codes "\n")) ++ [])))
      × (on_line codec (spaced (codes "get") (decimal n)) p t
          ≡ defined (
              after_get_call n t
                (get_result codec n no_wait 0 new_get_response p.exchange t.socket)))
      × (on_line codec
            (spaced (codes "get") (spaced (decimal n) (spaced (codes "wait") (decimal ms))))
            p
            t
          ≡ defined (
              after_get_call n t
                (get_result codec n wait_up_to ms new_get_response p.exchange t.socket)))
unfolding submitted
submitted-get codec mode s n ms p nonblocking h hms =
    let (plain, waiting) =
      on_line-get codec (codes "get") (codes "wait") n ms n p (submitted mode s (issued n))
        (omega arith, (refl, (refl, (refl, tt))), omega arith) get_is_get
        (omega arith, (refl, (refl, (refl, (refl, tt)))), omega arith) wait_is_wait h hms
        (issued-pending mode s n nonblocking) in
    (ap (λ u. s.output ++ u) (issued-printed n), plain, waiting)

erased-absent :
    (id : ℕ) (s : Session) (response : GetResponse)
    → is_not_finished response.status ≡ false
    → find id (got id s response).pending ≡ none
unfolding got
erased-absent id s response over = simp over (find-erase_self id s.pending)

-- A ticket is consumed by the first response that is not NOT_FINISHED, whatever its status and result:
-- the next `get` of its number is answered by the client itself, which sends nothing.
pub got-unknown :
    (codec : ClientCodec) (n : ℕ) (s : Session) (response : GetResponse) (p : Prompt)
    → n < 2 ^ 64
    → is_not_finished response.status ≡ false
    → on_line codec (spaced (codes "get") (decimal n)) p (got n s response)
      ≡ defined (
          goes_on (
            say
              (codes "Unknown or already consumed ticket: " ++ decimal n ++ codes "\n")
              (got n s response)))
got-unknown codec n s response p h over =
    on_line-unknown codec (codes "get") n p (got n s response)
      (omega arith, (refl, (refl, (refl, tt))), omega arith) get_is_get h
      (erased-absent n s response over)
