-- ===== src/Errors.antt =====
-- sources/common/error_handling.cpp: what the checks of a status return, and what the check of a
-- status of the protocol prints.
pub mod Laws
use inter_process_communicat.Base.{
  ℕ, Option, none, some, Bool, false, List, [], ◌++◌, if◌then◌else◌, ◌==◌,
}
use inter_process_communicat.Base.Text.{codes}
use inter_process_communicat.Base.Int.{ℤ, pos, negsuc}
use inter_process_communicat.Protocol.{
  Bytes, Status, st_success, st_error_invalid_input, st_error_div_by_zero,
  st_error_substr_not_found, st_error_string_too_long, st_error_internal, st_not_finished,
  st_unnamed, ec_success, ec_failure,
}

-- The instances of `errorCheck`, with the status that each one takes: that of a send is the number of
-- bytes, or nothing.
pub data Checked : Type 0 where
  zmq_send : Option ℕ → Checked
  ipc : Status → Checked
  regular : ℤ → Checked

-- `static_cast<int>` of a status.
abbrev pub status_number : Status → ℕ
status_number st_success = 0
status_number st_error_invalid_input = 1
status_number st_error_div_by_zero = 2
status_number st_error_substr_not_found = 3
status_number st_error_string_too_long = 4
status_number st_error_internal = 5
status_number st_not_finished = 6
status_number (st_unnamed n) = n

unfoldable pub status_to_str : Status → Bytes
status_to_str st_success = codes "SUCCESS"
status_to_str st_error_invalid_input = codes "ERROR_INVALID_INPUT"
status_to_str st_error_div_by_zero = codes "ERROR_DIV_BY_ZERO"
status_to_str st_error_substr_not_found = codes "ERROR_SUBSTR_NOT_FOUND"
status_to_str st_error_string_too_long = codes "ERROR_STRING_TOO_LONG"
status_to_str st_error_internal = codes "ERROR_INTERNAL"
status_to_str st_not_finished = codes "NOT_FINISHED"
status_to_str (st_unnamed n) = codes "UNKNOWN"

-- What `handleIpcError` prints.
unfoldable pub ipc_message : Status → Bytes
ipc_message st_success = []
ipc_message st_not_finished = codes "IPC Info: [" ++ status_to_str st_not_finished ++ codes "]\n"
ipc_message status = codes "IPC Error: [" ++ status_to_str status ++ codes "]\n"

pub handle_ipc_error : Status → ℤ
handle_ipc_error st_success = ec_success
handle_ipc_error st_not_finished = ec_success
handle_ipc_error status = pos (status_number status)

pub handle_zmq_send_error : Option ℕ → ℤ
handle_zmq_send_error none = ec_failure
handle_zmq_send_error (some bytes) = ec_success

-- The test of a code against EC_SUCCESS.
abbrev pub is_success : ℤ → Bool
is_success (pos n) = n == 0
is_success (negsuc n) = false

unfoldable pub handle_regular_error : ℤ → ℤ
handle_regular_error status = if is_success status then ec_success else status

pub error_check : Checked → ℤ
unfolding handle_ipc_error handle_zmq_send_error handle_regular_error
error_check (zmq_send status) = handle_zmq_send_error status
error_check (ipc status) = handle_ipc_error status
error_check (regular status) = handle_regular_error status
