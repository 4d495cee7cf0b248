-- ===== src/System/ToyTickets.antt =====
-- A small codec for requests that do not wait, on which a client and a server agree, for the tests.
use inter_process_communicat.Base.{ℕ, ◌≡◌, refl, sym, ap, ◌∙◌, Option, none, some, [], ◌∷◌}
use inter_process_communicat.Base.Int.{ℤ, pos, negsuc}
use inter_process_communicat.Protocol.{
  Bytes, MathOp, math_add, math_sub, math_mul, math_div, math_unnamed, Status, st_success,
  st_error_invalid_input, st_error_div_by_zero, st_error_substr_not_found, st_error_string_too_long,
  st_error_internal, st_not_finished, st_unnamed, Result, value_not_set, int_result, position,
  str_result, SubmitMode, blocking, nonblocking, mode_unnamed, Payload, payload_not_set, math, str,
  GetWaitMode, no_wait, wait_up_to, wait_unnamed, EnvelopeReq, req_not_set, submit_req, get_req,
  EnvelopeResp, resp_not_set, submit_resp, get_resp,
}
use inter_process_communicat.Server.{Codec}
use inter_process_communicat.Client.{ClientCodec}
use inter_process_communicat.System.{Agree}

-- The codec knows products of natural numbers without waiting, their tickets, a `get` with a timeout,
-- and successful products.
abbrev write_product : SubmitMode → MathOp → ℤ → ℤ → Option Bytes
write_product nonblocking math_mul (pos m) (pos n) = some (m ∷ n ∷ [])
write_product _ _ _ _ = none

abbrev write_get : Option ℕ → GetWaitMode → ℕ → Option Bytes
write_get (some n) wait_up_to ms = some (n ∷ ms ∷ 0 ∷ [])
write_get _ _ _ = none

abbrev write_payload : SubmitMode → Payload → Option Bytes
write_payload mode payload_not_set = none
write_payload mode (math args) = write_product mode args.op args.a args.b
write_payload mode (str args) = none

abbrev write_request : EnvelopeReq → Option Bytes
write_request req_not_set = none
write_request (get_req g) = write_get g.ticket g.wait_mode g.timeout_ms
write_request (submit_req req) = write_payload req.mode req.payload

abbrev read_request : Bytes → Option EnvelopeReq
read_request (m ∷ n ∷ []) = some (
    submit_req (record {
      mode = nonblocking;
      payload = math (record { op = math_mul; a = pos m; b = pos n });
    }))
read_request (n ∷ ms ∷ z ∷ []) =
    some (get_req (record { ticket = some n; wait_mode = wait_up_to; timeout_ms = ms }))
read_request _ = none

abbrev write_ticket : Status → Option ℕ → Option Result → Option Bytes
write_ticket st_not_finished (some n) none = some (n ∷ [])
write_ticket _ _ _ = none

abbrev write_result : Status → Option Result → Option Bytes
write_result st_success (some (int_result (pos n))) = some (n ∷ 0 ∷ [])
write_result _ _ = none

abbrev write_response : EnvelopeResp → Option Bytes
write_response (submit_resp resp) = write_ticket resp.status resp.ticket resp.result
write_response (get_resp resp) = write_result resp.status resp.result
write_response resp_not_set = none

abbrev read_response : Bytes → Option EnvelopeResp
read_response (n ∷ []) =
    some (submit_resp (record { status = st_not_finished; ticket = some n; result = none }))
read_response (n ∷ z ∷ []) =
    some (get_resp (record { status = st_success; result = some (int_result (pos n)) }))
read_response _ = none

abbrev pub client_side : ClientCodec
client_side = record {
  serialize_handshake = λ h. none;
  serialize_request = write_request;
  parse_response = read_response;
}

abbrev pub server_side : Codec
server_side = record {
  parse_handshake = λ b. none;
  parse_request = read_request;
  serialize_response = write_response;
}

write_product_sound :
    (mode : SubmitMode) (op : MathOp) (a b : ℤ) (t : Bytes)
    → write_product mode op a b ≡ some t
    → read_request t
      ≡ some
          (submit_req (record { mode = mode; payload = math (record { op = op; a = a; b = b }) }))
write_product_sound nonblocking math_mul (pos m) (pos n) t h =
    let e : m ∷ n ∷ [] ≡ t = cc in sym (ap read_request e) ∙ refl
write_product_sound nonblocking math_mul (pos m) (negsuc n) t h = absurd (cc)
write_product_sound nonblocking math_mul (negsuc m) b t h = absurd (cc)
write_product_sound nonblocking math_sub a b t h = absurd (cc)
write_product_sound nonblocking math_add a b t h = absurd (cc)
write_product_sound nonblocking math_div a b t h = absurd (cc)
write_product_sound nonblocking (math_unnamed n) a b t h = absurd (cc)
write_product_sound blocking op a b t h = absurd (cc)
write_product_sound (mode_unnamed n) op a b t h = absurd (cc)

write_get_sound :
    (ticket : Option ℕ) (mode : GetWaitMode) (ms : ℕ) (t : Bytes)
    → write_get ticket mode ms ≡ some t
    → read_request t
      ≡ some (get_req (record { ticket = ticket; wait_mode = mode; timeout_ms = ms }))
write_get_sound (some n) wait_up_to ms t h =
    let e : n ∷ ms ∷ 0 ∷ [] ≡ t = cc in sym (ap read_request e) ∙ refl
write_get_sound (some n) no_wait ms t h = absurd (cc)
write_get_sound (some n) (wait_unnamed k) ms t h = absurd (cc)
write_get_sound none mode ms t h = absurd (cc)

write_payload_sound :
    (mode : SubmitMode) (p : Payload) (t : Bytes)
    → write_payload mode p ≡ some t
    → read_request t ≡ some (submit_req (record { mode = mode; payload = p }))
write_payload_sound mode payload_not_set t h = absurd (cc)
write_payload_sound mode (math args) t h = write_product_sound mode args.op args.a args.b t h
write_payload_sound mode (str args) t h = absurd (cc)

write_request_sound :
    (m : EnvelopeReq) (t : Bytes) → write_request m ≡ some t → read_request t ≡ some m
write_request_sound req_not_set t h = absurd (cc)
write_request_sound (get_req g) t h = write_get_sound g.ticket g.wait_mode g.timeout_ms t h
write_request_sound (submit_req req) t h = write_payload_sound req.mode req.payload t h

write_ticket_sound :
    (status : Status) (ticket : Option ℕ) (result : Option Result) (t : Bytes)
    → write_ticket status ticket result ≡ some t
    → read_response t
      ≡ some (submit_resp (record { status = status; ticket = ticket; result = result }))
write_ticket_sound st_not_finished (some n) none t h =
    let e : n ∷ [] ≡ t = cc in sym (ap read_response e) ∙ refl
write_ticket_sound st_not_finished (some n) (some r) t h = absurd (cc)
write_ticket_sound st_not_finished none result t h = absurd (cc)
write_ticket_sound st_success ticket result t h = absurd (cc)
write_ticket_sound st_error_invalid_input ticket result t h = absurd (cc)
write_ticket_sound st_error_div_by_zero ticket result t h = absurd (cc)
write_ticket_sound st_error_substr_not_found ticket result t h = absurd (cc)
write_ticket_sound st_error_string_too_long ticket result t h = absurd (cc)
write_ticket_sound st_error_internal ticket result t h = absurd (cc)
write_ticket_sound (st_unnamed n) ticket result t h = absurd (cc)

write_result_sound :
    (status : Status) (result : Option Result) (t : Bytes)
    → write_result status result ≡ some t
    → read_response t ≡ some (get_resp (record { status = status; result = result }))
write_result_sound st_success (some (int_result (pos n))) t h =
    let e : n ∷ 0 ∷ [] ≡ t = cc in sym (ap read_response e) ∙ refl
write_result_sound st_success (some (int_result (negsuc n))) t h = absurd (cc)
write_result_sound st_success (some value_not_set) t h = absurd (cc)
write_result_sound st_success (some (position v)) t h = absurd (cc)
write_result_sound st_success (some (str_result v)) t h = absurd (cc)
write_result_sound st_success none t h = absurd (cc)
write_result_sound st_not_finished result t h = absurd (cc)
write_result_sound st_error_invalid_input result t h = absurd (cc)
write_result_sound st_error_div_by_zero result t h = absurd (cc)
write_result_sound st_error_substr_not_found result t h = absurd (cc)
write_result_sound st_error_string_too_long result t h = absurd (cc)
write_result_sound st_error_internal result t h = absurd (cc)
write_result_sound (st_unnamed n) result t h = absurd (cc)

write_response_sound :
    (m : EnvelopeResp) (t : Bytes) → write_response m ≡ some t → read_response t ≡ some m
write_response_sound resp_not_set t h = absurd (cc)
write_response_sound (get_resp r) t h = write_result_sound r.status r.result t h
write_response_sound (submit_resp r) t h = write_ticket_sound r.status r.ticket r.result t h

pub sides : Agree client_side server_side
sides = record {
  handshake = λ h b e. absurd (cc);
  request = write_request_sound;
  response = write_response_sound;
}
