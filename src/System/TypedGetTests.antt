-- ===== src/System/TypedGetTests.antt =====
-- The `get` of a product that was asked for without waiting, as a user types it.
use inter_process_communicat.Base.{ℕ, ◌++◌, ◌≡◌, refl, arith, some, [], ◌∷◌, defined, false}
use inter_process_communicat.Base.Eq.{bytes_eq}
use inter_process_communicat.Base.Dict.{Dict, find}
use inter_process_communicat.Protocol.{Bytes}
use inter_process_communicat.Runner.{before_wait, testing}
use inter_process_communicat.Runner.History.{here}
use inter_process_communicat.Runner.Tests.{
  with_worker, six_by_seven, first_ticket, first_job, submitted, submit_reply, fetched,
  waiting-Reach, submit, fetch,
}
use inter_process_communicat.Server.{message, more, last}
use inter_process_communicat.Server.Loop.{again, Rounded, body}
use inter_process_communicat.System.ToyTickets.{client_side, server_side, sides}
use inter_process_communicat.Base.Eq.{nat_eq}
use inter_process_communicat.Base.Text.{codes, decimal}
use inter_process_communicat.Client.Commands.Laws.{spaced}
use inter_process_communicat.Client.Session.{Session, Prompt, goes_on}
use inter_process_communicat.Client.Loop.{on_line}
use inter_process_communicat.Client.Loop.Tickets.{get_is_get, wait_is_wait}
use inter_process_communicat.System.GetTests.{server_with, known, round, exchange}
use inter_process_communicat.System.PrintedGet.{Told}
use inter_process_communicat.System.TypedGet.{typed_get-Answered}

abbrev prompt : Prompt
prompt = record {
  sig_stop = false;
  exchange = record exchange { arrivals = ((42 ∷ 0 ∷ []) ∷ []) ∷ [] };
  order = λ m. m;
}

abbrev session : Session
session = record {
  input = [];
  pending = (65_536_000, 65_536_000) ∷ [];
  socket = record { inbox = []; outbox = [] };
  output = codes ">> ";
}

noted : find first_ticket session.pending ≡ some first_ticket
unfolding find
noted = refl

typed_get-Answered_example :
    ((y : Rounded) × (body server_side
          (server_with (submitted first_job (0 ∷ []) testing))
          (record round { received = message (1 ∷ []) ((65_536_000 ∷ 1500 ∷ 0 ∷ []) ∷ []) })
        ≡ defined (some y))
      × (y.frames ≡ more (1 ∷ []) ∷ last (42 ∷ 0 ∷ []) ∷ [])
      × (y.then_do ≡ again)
      × (y.app.algo_runner.impl ≡ some fetched.runner))
    × ((text : Bytes) × (kept : Dict ℕ ℕ) × (on_line client_side
            (spaced
              (codes "get")
              (spaced (decimal first_ticket) (spaced (codes "wait") (decimal 1500))))
            prompt
            session
          ≡ defined (
              goes_on (record session {
                socket = record { inbox = []; outbox = (65_536_000 ∷ 1500 ∷ 0 ∷ []) ∷ [] };
                output = session.output ++ text;
                pending = kept;
              })))
        × Told first_ticket six_by_seven fetched text session.pending kept)
typed_get-Answered_example =
    typed_get-Answered client_side server_side sides 0 (with_worker before_wait)
      (submitted first_job (0 ∷ []) testing) 1000 0 six_by_seven submit_reply
      (server_with (submitted first_job (0 ∷ []) testing)) (1 ∷ []) 63 first_ticket (codes "get")
      (codes "wait") 1500 fetched (65_536_000 ∷ 1500 ∷ 0 ∷ []) (42 ∷ 0 ∷ [])
      (record round { received = message (1 ∷ []) ((65_536_000 ∷ 1500 ∷ 0 ∷ []) ∷ []) }) prompt
      session waiting-Reach refl refl submit refl here refl
      (known (submitted first_job (0 ∷ []) testing)) fetch
      (record {
        encoded = refl;
        answered = refl;
        arrives = refl;
        first = refl;
        second = refl;
        goes = refl;
        calm = refl;
        comes = refl;
      })
      refl (omega arith, (refl, (refl, (refl, tt))), omega arith) get_is_get
      (omega arith, (refl, (refl, (refl, (refl, tt)))), omega arith) wait_is_wait (omega arith)
      (omega arith) noted
