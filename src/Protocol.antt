-- ===== src/Protocol.antt =====
-- The messages of protos/ipc.proto, as the code generated from it presents them to the program.
-- An enum of proto3 is open: a field may hold a number that the enum does not name. A `oneof` is a
-- data type with a constructor for the unset state, an optional sub-message an `Option`. Strings are
-- lists of bytes, an `int32` is a ℤ, a `uint32` or `uint64` a ℕ.
use inter_process_communicat.Base.{ℕ, Option, none, List, ℕ_discrete}
use inter_process_communicat.Base.Int.{ℤ, pos, negsuc}

abbrev pub Bytes : Type 0
Bytes = List ℕ

pub data MathOp : Type 0 where
  math_add math_sub math_mul math_div : MathOp
  math_unnamed : ℕ → MathOp

pub data StrOp : Type 0 where
  str_concat str_find_start : StrOp
  str_unnamed : ℕ → StrOp

pub data Status : Type 0 where
  st_success st_error_invalid_input st_error_div_by_zero st_error_substr_not_found : Status
  st_error_string_too_long st_error_internal st_not_finished : Status
  st_unnamed : ℕ → Status

pub Status-discrete : Discrete Status
Status-discrete = hlevel ℕ_discrete

pub record MathArgs : Type 0 where
  pub op : MathOp
  pub a : ℤ
  pub b : ℤ

pub record StrArgs : Type 0 where
  pub op : StrOp
  pub s1 : Bytes
  pub s2 : Bytes

pub data Result : Type 0 where
  value_not_set : Result
  int_result : ℤ → Result
  position : ℤ → Result
  str_result : Bytes → Result

pub data SubmitMode : Type 0 where
  blocking nonblocking : SubmitMode
  mode_unnamed : ℕ → SubmitMode

pub data Payload : Type 0 where
  payload_not_set : Payload
  math : MathArgs → Payload
  str : StrArgs → Payload

pub record SubmitRequest : Type 0 where
  pub mode : SubmitMode
  pub payload : Payload

-- A ticket is its `req_id`.
pub record SubmitResponse : Type 0 where
  pub status : Status
  pub ticket : Option ℕ
  pub result : Option Result

pub data GetWaitMode : Type 0 where
  no_wait wait_up_to : GetWaitMode
  wait_unnamed : ℕ → GetWaitMode

pub record GetRequest : Type 0 where
  pub ticket : Option ℕ
  pub wait_mode : GetWaitMode
  pub timeout_ms : ℕ

pub record GetResponse : Type 0 where
  pub status : Status
  pub result : Option Result

pub record FirstHandshake : Type 0 where
  pub client_name : Bytes
  pub exec_functions : ℕ

pub data EnvelopeReq : Type 0 where
  req_not_set : EnvelopeReq
  submit_req : SubmitRequest → EnvelopeReq
  get_req : GetRequest → EnvelopeReq

pub data EnvelopeResp : Type 0 where
  resp_not_set : EnvelopeResp
  submit_resp : SubmitResponse → EnvelopeResp
  get_resp : GetResponse → EnvelopeResp

-- A message as its constructor leaves it: every number 0, so an enum at its first name.
abbrev pub new_submit_response : SubmitResponse
new_submit_response = record { status = st_success; ticket = none; result = none }

abbrev pub new_get_response : GetResponse
new_get_response = record { status = st_success; result = none }

-- EC_SUCCESS and EC_FAILURE of sources/common/error_handling.h.
abbrev pub ec_success : ℤ
ec_success = pos 0

abbrev pub ec_failure : ℤ
ec_failure = negsuc 0
