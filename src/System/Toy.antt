-- ===== src/System/Toy.antt =====
-- A small codec on which a client and a server agree, for the tests.
use inter_process_communicat.Base.{ℕ, ◌≡◌, refl, sym, ap, ◌∙◌, Option, none, some, [], ◌∷◌}
use inter_process_communicat.Base.Int.{ℤ, pos, negsuc}
use inter_process_communicat.Base.Eq.{bytes_eq}
use inter_process_communicat.Protocol.{
  Bytes, MathOp, math_add, math_sub, math_mul, math_div, math_unnamed, Status, st_success,
  st_error_invalid_input, st_error_div_by_zero, st_error_substr_not_found, st_error_string_too_long,
  st_error_internal, st_not_finished, st_unnamed, Result, value_not_set, int_result, position,
  str_result, SubmitMode, blocking, nonblocking, mode_unnamed, Payload, payload_not_set, math, str,
  FirstHandshake, EnvelopeReq, req_not_set, submit_req, get_req, EnvelopeResp, resp_not_set,
  submit_resp, get_resp,
}
use inter_process_communicat.Server.{Codec}
use inter_process_communicat.Client.{ClientCodec}
use inter_process_communicat.System.{Agree}
use inter_process_communicat.System.Blocking.{outcome}

-- The codec knows handshakes, blocking additions of natural numbers, and successful sums.
abbrev write_sum : SubmitMode → MathOp → ℤ → ℤ → Option Bytes
write_sum blocking math_add (pos m) (pos n) = some (m ∷ n ∷ [])
write_sum _ _ _ _ = none

abbrev write_request : EnvelopeReq → Option Bytes
write_request req_not_set = none
write_request (get_req g) = none
write_request (submit_req req) = elim req.payload [
  | payload_not_set ↦ none
  | math args ↦ write_sum req.mode args.op args.a args.b
  | str args ↦ none
]

abbrev read_request : Bytes → Option EnvelopeReq
read_request (m ∷ n ∷ []) = some (
    submit_req
      (record { mode = blocking; payload = math (record { op = math_add; a = pos m; b = pos n }) }))
read_request _ = none

abbrev write_answer : Status → Option ℕ → Option Result → Option Bytes
write_answer st_success none (some (int_result (pos n))) = some (n ∷ [])
write_answer _ _ _ = none

abbrev write_response : EnvelopeResp → Option Bytes
write_response (submit_resp resp) = write_answer resp.status resp.ticket resp.result
write_response _ = none

abbrev read_response : Bytes → Option EnvelopeResp
read_response (n ∷ []) = some (submit_resp (outcome st_success (int_result (pos n))))
read_response _ = none

abbrev read_handshake : Bytes → Option FirstHandshake
read_handshake [] = none
read_handshake (flags ∷ name) = some (record { client_name = name; exec_functions = flags })

abbrev pub client_side : ClientCodec
client_side = record {
  serialize_handshake = λ h. some (h.exec_functions ∷ h.client_name);
  serialize_request = write_request;
  parse_response = read_response;
}

abbrev pub server_side : Codec
server_side = record {
  parse_handshake = read_handshake;
  parse_request = read_request;
  serialize_response = write_response;
}

write_sum_sound :
    (mode : SubmitMode) (op : MathOp) (a b : ℤ) (t : Bytes)
    → write_sum mode op a b ≡ some t
    → read_request t
      ≡ some
          (submit_req (record { mode = mode; payload = math (record { op = op; a = a; b = b }) }))
write_sum_sound blocking math_add (pos m) (pos n) t h =
    let e : m ∷ n ∷ [] ≡ t = cc in sym (ap read_request e) ∙ refl
write_sum_sound blocking math_add (pos m) (negsuc n) t h = absurd (cc)
write_sum_sound blocking math_add (negsuc m) b t h = absurd (cc)
write_sum_sound blocking math_sub a b t h = absurd (cc)
write_sum_sound blocking math_mul a b t h = absurd (cc)
write_sum_sound blocking math_div a b t h = absurd (cc)
write_sum_sound blocking (math_unnamed n) a b t h = absurd (cc)
write_sum_sound nonblocking op a b t h = absurd (cc)
write_sum_sound (mode_unnamed n) op a b t h = absurd (cc)

write_request_sound :
    (m : EnvelopeReq) (t : Bytes) → write_request m ≡ some t → read_request t ≡ some m
write_request_sound req_not_set t h = absurd (cc)
write_request_sound (get_req g) t h = absurd (cc)
write_request_sound (submit_req req) t h = payload_sound req.mode req.payload h
  where
    payload_sound :
        (mode : SubmitMode) (p : Payload)
        → write_request (submit_req (record { mode = mode; payload = p })) ≡ some t
        → read_request t ≡ some (submit_req (record { mode = mode; payload = p }))
    payload_sound mode payload_not_set h = absurd (cc)
    payload_sound mode (math args) h = write_sum_sound mode args.op args.a args.b t h
    payload_sound mode (str args) h = absurd (cc)

write_answer_sound :
    (status : Status) (ticket : Option ℕ) (result : Option Result) (t : Bytes)
    → write_answer status ticket result ≡ some t
    → read_response t
      ≡ some (submit_resp (record { status = status; ticket = ticket; result = result }))
write_answer_sound st_success none (some (int_result (pos n))) t h =
    let e : n ∷ [] ≡ t = cc in sym (ap read_response e) ∙ refl
write_answer_sound st_success none (some (int_result (negsuc n))) t h = absurd (cc)
write_answer_sound st_success none (some value_not_set) t h = absurd (cc)
write_answer_sound st_success none (some (position v)) t h = absurd (cc)
write_answer_sound st_success none (some (str_result v)) t h = absurd (cc)
write_answer_sound st_success none none t h = absurd (cc)
write_answer_sound st_success (some id) result t h = absurd (cc)
write_answer_sound st_error_invalid_input ticket result t h = absurd (cc)
write_answer_sound st_error_div_by_zero ticket result t h = absurd (cc)
write_answer_sound st_error_substr_not_found ticket result t h = absurd (cc)
write_answer_sound st_error_string_too_long ticket result t h = absurd (cc)
write_answer_sound st_error_internal ticket result t h = absurd (cc)
write_answer_sound st_not_finished ticket result t h = absurd (cc)
write_answer_sound (st_unnamed n) ticket result t h = absurd (cc)

write_response_sound :
    (m : EnvelopeResp) (t : Bytes) → write_response m ≡ some t → read_response t ≡ some m
write_response_sound resp_not_set t h = absurd (cc)
write_response_sound (get_resp g) t h = absurd (cc)
write_response_sound (submit_resp resp) t h =
    write_answer_sound resp.status resp.ticket resp.result t h

pub sides : Agree client_side server_side
sides = record {
  handshake = λ h b e.
      let same : h.exec_functions ∷ h.client_name ≡ b = cc in sym (ap read_handshake same) ∙ refl;
  request = write_request_sound;
  response = write_response_sound;
}
