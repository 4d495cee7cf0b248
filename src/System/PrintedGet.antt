-- ===== src/System/PrintedGet.antt =====
-- What the client prints of an answer to a `get`, and which tickets stay pending.
use inter_process_communicat.Base.{ℕ, ◌≡◌, ◌≢◌, refl, false, ◌++◌, some, none, defined, []}
use inter_process_communicat.Base.Eq.{nat_eq}
use inter_process_communicat.Base.Dict.{Dict, find as find_job, erase}
use inter_process_communicat.Base.Text.{codes}
use inter_process_communicat.Protocol.{
  Bytes, Status, st_error_invalid_input, st_not_finished, Result, SubmitRequest, GetResponse,
  new_get_response,
}
use inter_process_communicat.Errors.{ipc_message, status_to_str}
use inter_process_communicat.Operations.{execute}
use inter_process_communicat.Operations.Over.{execute-IsOver}
use inter_process_communicat.Runner.{Reply}
use inter_process_communicat.Runner.Answer.{Answer, unknown, unfinished, answered}
use inter_process_communicat.Client.Print.{is_not_finished, result_line, get_result_text, print_get}
use inter_process_communicat.Client.Session.{Session, got}

is_not_finished-else : (status : Status) → status ≢ st_not_finished → is_not_finished status ≡ false
unfolding is_not_finished
is_not_finished-else st_not_finished over = absurd (over refl)
is_not_finished-else _ over = refl

-- An answer to a `get` for ticket `n`, issued for `req`, the text that is printed of it, and the tickets
-- that are pending behind it: an unknown ticket is forgotten; one whose job is not finished is kept;
-- and of a finished job the status and the result that `req` evaluates to are printed, and the ticket is
-- forgotten, by the server too.
pub data Told (n : ℕ) (req : SubmitRequest) (out : Reply GetResponse) (text : Bytes)
    (pending kept : Dict ℕ ℕ) : Type 0 where
  told_unknown :
      out.response ≡ record new_get_response { status = st_error_invalid_input }
      → text ≡ codes "IPC Error: [ERROR_INVALID_INPUT]\nNo result payload\n"
      → kept ≡ erase n pending
      → Told n req out text pending kept
  told_unfinished :
      (a : ℕ)
      → find_job n out.runner.jobs ≡ some a
      → text ≡ codes "IPC Info: [NOT_FINISHED]\nResult: NOT FINISHED\n"
      → kept ≡ pending
      → Told n req out text pending kept
  told_result :
      (status : Status) (result : Result)
      → execute req.payload ≡ defined (status, result)
      → find_job n out.runner.jobs ≡ none
      → text ≡ ipc_message status ++ result_line result []
      → kept ≡ erase n pending
      → Told n req out text pending kept

pub Answer-Told :
    (n : ℕ) (req : SubmitRequest) (out : Reply GetResponse) (s : Session)
    → Answer n req new_get_response out
    → (text : Bytes) × (kept : Dict ℕ ℕ) × (got n s out.response
        ≡ record s { output = s.output ++ text; pending = kept })
      × Told n req out text s.pending kept
unfolding got print_get get_result_text is_not_finished ipc_message status_to_str
Answer-Told n req out s (unknown e) = (_, _, rw e refl, told_unknown e refl refl)
Answer-Told n req out s (unfinished a e f) = (_, _, rw e refl, told_unfinished a f refl refl)
Answer-Told n req out s (answered status result x e gone) =
    let over = is_not_finished-else status (execute-IsOver req.payload x) in
    (_, _, simp (e, over) refl, told_result status result x gone refl refl)
