-- ===== src/Client/Submit.antt =====
-- `submitBlocking`, `submitNonBlocking` and `getResult`.
use inter_process_communicat.Base.{ℕ, some, if◌then◌else◌}
use inter_process_communicat.Protocol.{
  st_error_internal, SubmitMode, blocking, nonblocking, SubmitRequest, SubmitResponse, GetWaitMode,
  no_wait, wait_up_to, wait_unnamed, GetResponse, EnvelopeReq, submit_req, get_req, EnvelopeResp,
  resp_not_set, submit_resp, get_resp, ec_success, ec_failure,
}
use inter_process_communicat.Errors.{is_success}
use inter_process_communicat.Client.{ClientCodec, Socket, Exchange, Call, returned, thrown}
use inter_process_communicat.Client.Transport.{send_envelope, recv_envelope}

abbrev pub internal_error : Socket → SubmitResponse → Call SubmitResponse
internal_error s out = returned ec_failure s (record out { status = st_error_internal })

-- A `submit` response becomes the result; any other is a protocol error.
unfoldable pub from_submit : Socket → SubmitResponse → EnvelopeResp → Call SubmitResponse
from_submit s out (submit_resp resp) = returned ec_success s resp
from_submit s out (get_resp resp) = internal_error s out
from_submit s out resp_not_set = internal_error s out

unfoldable pub received_submit : SubmitResponse → Call EnvelopeResp → Call SubmitResponse
received_submit out (returned code s resp) =
    if is_success code then from_submit s out resp else internal_error s out
received_submit out (thrown e s) = thrown e s

abbrev pub with_mode : SubmitRequest → SubmitMode → EnvelopeReq
with_mode req mode = submit_req (record req { mode = mode })

unfoldable pub from_get : Socket → GetResponse → EnvelopeResp → Call GetResponse
from_get s out (get_resp resp) = returned ec_success s resp
from_get s out (submit_resp resp) = returned ec_failure s out
from_get s out resp_not_set = returned ec_failure s out

unfoldable pub received_get : GetResponse → Call EnvelopeResp → Call GetResponse
received_get out (returned code s resp) =
    if is_success code then from_get s out resp else returned code s out
received_get out (thrown e s) = thrown e s

-- The request that `getResult` sends; the timeout of a NO_WAIT is not set.
abbrev pub get_request : ℕ → GetWaitMode → ℕ → EnvelopeReq
get_request ticket wait_up_to ms =
    get_req (record { ticket = some ticket; wait_mode = wait_up_to; timeout_ms = ms })
get_request ticket no_wait ms =
    get_req (record { ticket = some ticket; wait_mode = no_wait; timeout_ms = 0 })
get_request ticket (wait_unnamed n) ms =
    get_req (record { ticket = some ticket; wait_mode = wait_unnamed n; timeout_ms = 0 })

module _ (codec : ClientCodec) where
  unfoldable pub after_blocking : Exchange → SubmitResponse → Call Unit → Call SubmitResponse
  after_blocking x out (returned code s _) =
      if is_success code
      then received_submit out (recv_envelope codec x s)
      else internal_error s out
  after_blocking x out (thrown e s) = thrown e s

  unfoldable pub submit_blocking :
      SubmitRequest → SubmitResponse → Exchange → Socket → Call SubmitResponse
  submit_blocking req out x s =
      after_blocking x out (send_envelope codec (with_mode req blocking) x.sending s)

  -- The code of the send is not looked at.
  unfoldable pub after_nonblocking : Exchange → SubmitResponse → Call Unit → Call SubmitResponse
  after_nonblocking x out (returned code s _) = received_submit out (recv_envelope codec x s)
  after_nonblocking x out (thrown e s) = thrown e s

  unfoldable pub submit_nonblocking :
      SubmitRequest → SubmitResponse → Exchange → Socket → Call SubmitResponse
  submit_nonblocking req out x s =
      after_nonblocking x out (send_envelope codec (with_mode req nonblocking) x.sending s)

  unfoldable pub after_get : Exchange → GetResponse → Call Unit → Call GetResponse
  after_get x out (returned code s _) =
      if is_success code then received_get out (recv_envelope codec x s) else returned code s out
  after_get x out (thrown e s) = thrown e s

  unfoldable pub get_result :
      ℕ → GetWaitMode → ℕ → GetResponse → Exchange → Socket → Call GetResponse
  get_result ticket mode ms out x s =
      after_get x out (send_envelope codec (get_request ticket mode ms) x.sending s)
