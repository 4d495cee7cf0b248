-- ===== src/Server/Envelope.antt =====
-- `Application::handleEnvelope` of sources/server/application.cpp.
use inter_process_communicat.Base.{ℕ, Option, none, some, Outcome, defined, ◌>>=◌, if◌then◌else◌}
use inter_process_communicat.Protocol.{
  st_error_invalid_input, SubmitResponse, GetResponse, new_submit_response, new_get_response,
  EnvelopeReq, req_not_set, submit_req, get_req, EnvelopeResp, submit_resp, get_resp, ec_success,
  ec_failure,
}
use inter_process_communicat.Caps.{client_has_capability_for}
use inter_process_communicat.Runner.Handle
use inter_process_communicat.Runner.Handle.{AlgoRunner, Handled}
use inter_process_communicat.Server.{Env}

abbrev pub bad_submit : EnvelopeResp
bad_submit = submit_resp (record new_submit_response { status = st_error_invalid_input })

abbrev pub bad_get : EnvelopeResp
bad_get = get_resp (record new_get_response { status = st_error_invalid_input })

abbrev pub as_submit : Handled SubmitResponse → Handled EnvelopeResp
as_submit x = record { code = x.code; handle = x.handle; response = submit_resp x.response }

abbrev pub as_get : Option (Handled GetResponse) → Option (Handled EnvelopeResp)
as_get none = none
as_get (some x) = some (record { code = x.code; handle = x.handle; response = get_resp x.response })

-- `none` where a `get` still waits when its waits end.
unfoldable pub handle_envelope :
    AlgoRunner → EnvelopeReq → ℕ → Env → Outcome (Option (Handled EnvelopeResp))
handle_envelope h (submit_req sreq) caps env =
    if client_has_capability_for sreq.payload caps
    then (Handle.run h env.now env.pick sreq new_submit_response >>= λ x.
        defined (some (as_submit x)))
    else defined (some (record { code = ec_success; handle = h; response = bad_submit }))
handle_envelope h (get_req greq) caps env =
    Handle.get h env.waiting greq new_get_response >>= λ o. defined (as_get o)
handle_envelope h req_not_set caps env =
    defined (some (record { code = ec_failure; handle = h; response = bad_get }))
